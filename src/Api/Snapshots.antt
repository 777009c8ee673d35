-- ===== src/Api/Snapshots.antt =====
-- The handlers of crates/ferrobox-api/src/lib.rs for snapshots: creation, pages of a list, restore,
-- clones, rollback and deletion.
pub mod Pages
pub mod Guards
use ferrobox.Prelude.{
  ℕ, zero, suc, ◌+◌, ◌-◌, ◌*◌, ◌/◌, ◌%◌, ◌^◌, ◌≤◌, ◌<◌, min, ◌≡◌, refl, sym, ap, ◌∙◌, ◌≢◌, ◌↔◌, ◌⊎◌,
  inl, inr, Bool, true, false, not, ◌&&◌, ◌||◌, Option, none, some, List, [], ◌∷◌, ◌++◌, map, arith,
  ltb, leb, ◌==◌, in_range, if◌then◌else◌, ==_iff, ltb_iff, leb_iff, Bool-cases, Option-cases,
  length, is_empty, is_empty-eq-false_iff, all, any, get_elem?, get_or, take, drop, length-append,
  length-take, length-drop, take-append-drop, take_of_length-le, All, all_iff, any-eq-false_iff,
  all-append, any-append, Result, reject_if, ok_or, map_err, is_ok, >>=-eq-ok, Text, Bytes, codes,
  utf8_char, bytes, byte_len, text_eq, text_eq_iff, is_ascii_alphanumeric, is_control,
  is_whitespace, trim_start_while, trim, strip_prefix, starts_with, push_front, split,
  to_ascii_lower, all-bytes, bytes_of_ascii, has_nul, has_nul-eq-false_iff, Table, lookup, remove,
  insert, lookup-remove, lookup-insert, ok, err,
}
use ferrobox.Prelude.Exec.{Exec, pure, raise, lift, refuse_if, modify, gets, ◌>>=◌, ◌>>◌}
use ferrobox.Core.Spec.{SandboxId, SnapshotId, CreateSnapshotRequest, validate_snapshot_request}
use ferrobox.Core.Exec.{SandboxHandle, SnapshotHandle, SnapshotVerification}
use ferrobox.Core.Runtime.{SandboxRuntime}
use ferrobox.Api.Types.{
  ApiError, Env, AppState, Handler, SandboxRecord, SnapshotRecord, call, audit_record, token_digest,
  from_runtime, api_bad_request, api_not_found, api_conflict,
}
use ferrobox.Api.Auth.{parse_id, parse_snapshot_id, validate_ttl, authorized, authorized_snapshot}
use ferrobox.Api.Lifecycle.{
  CreateSandboxResponse, SandboxResponse, bad_request, event, register_sandbox,
}

-- `iter().position(..)` of a snapshot's identifier
abbrev pub position_from : ℕ → SnapshotId → List SnapshotHandle → Option ℕ
position_from i cursor [] = none
position_from i cursor (s ∷ rest) =
    let later = position_from (i + 1) cursor rest in
    if s.snapshot_id == cursor then some i else later

-- Where a page starts.
unfoldable pub page_start : Option SnapshotId → List SnapshotHandle → Result ApiError ℕ
page_start none snapshots = ok 0
page_start (some cursor) snapshots = elim (position_from 0 cursor snapshots) [
  | none ↦ err api_bad_request
  | some index ↦ ok (index + 1)
]

pub record ListSnapshotsResponse : Type 0 where
  pub snapshots : List SnapshotHandle
  pub next_cursor : Option SnapshotId

unfoldable pub id_at : List SnapshotHandle → ℕ → Option SnapshotId
id_at snapshots i = elim (get_elem? snapshots i) [ none ↦ none | some s ↦ some s.snapshot_id ]

-- The slice `snapshots[start..end]` and the cursor after it.
unfoldable pub page : List SnapshotHandle → ℕ → ℕ → ListSnapshotsResponse
page snapshots limit start =
    let last = min (start + limit) (length snapshots) in
    record {
      snapshots = take (last - start) (drop start snapshots);
      next_cursor = if ltb last (length snapshots) then id_at snapshots (last - 1) else none;
    }

unfoldable pub cut_page :
    ℕ → Option SnapshotId → List SnapshotHandle → Result ApiError ListSnapshotsResponse
cut_page limit cursor snapshots = elim (page_start cursor snapshots) [
  | ok start ↦ ok (page snapshots limit start)
  | err e ↦ err e
]

-- A cursor of a query, which is the text of an identifier.
abbrev pub parse_cursor : Env → Option Text → Result ApiError (Option SnapshotId)
parse_cursor env none = ok none
parse_cursor env (some text) = elim (parse_snapshot_id env text) [
  | err e ↦ err e
  | ok id ↦ ok (some id)
]

module _ {W : Type 0} (env : Env) (runtime : SandboxRuntime W) where
  unfoldable pub create_snapshot :
      Text → Text → Option Text → CreateSnapshotRequest → Handler W (SnapshotHandle × Text)
  create_snapshot token id authorization request = do
    id ← lift (parse_id env id)
    authorized env id authorization
    lift (bad_request (validate_snapshot_request request))
    snapshot ← call (runtime.create_snapshot id request)
    modify (λ s. record s {
      snapshots =
          insert snapshot.snapshot_id
            (record { token = token_digest env token; source_sandbox_id = id }) s.snapshots;
    })
    audit_record env (event (some id) (codes "snapshot_create") (codes "succeeded"))
    pure (snapshot, token)

  unfoldable pub list_snapshots :
      Text → Option Text → ℕ → Option Text → Handler W ListSnapshotsResponse
  list_snapshots id authorization limit cursor = do
    id ← lift (parse_id env id)
    authorized env id authorization
    refuse_if (not (in_range 1 100 limit)) api_bad_request
    snapshots ← call (runtime.list_snapshots id)
    cursor ← lift (parse_cursor env cursor)
    lift (cut_page limit cursor snapshots)

  unfoldable pub get_snapshot : Text → Option Text → Handler W SnapshotHandle
  get_snapshot snapshot_id authorization = do
    id ← lift (parse_snapshot_id env snapshot_id)
    authorized_snapshot env id authorization
    call (runtime.get_snapshot id)

  unfoldable pub verify_snapshot : Text → Option Text → Handler W SnapshotVerification
  verify_snapshot snapshot_id authorization = do
    id ← lift (parse_snapshot_id env snapshot_id)
    authorized_snapshot env id authorization
    call (runtime.verify_snapshot id)

  unfoldable pub restore_snapshot : Text → Text → Option Text → ℕ → Handler W CreateSandboxResponse
  restore_snapshot token snapshot_id authorization timeout_seconds = do
    lift (validate_ttl timeout_seconds)
    id ← lift (parse_snapshot_id env snapshot_id)
    authorized_snapshot env id authorization
    handle ← call (runtime.restore_snapshot id)
    response ← register_sandbox env token handle timeout_seconds
    audit_record env
        (event (some response.sandbox_id) (codes "snapshot_restore") (codes "succeeded"))
    pure response

  -- The loop over the clones; `tokens` are the plaintexts that it draws.
  unfoldable pub register_clones :
      (ℕ → Text) → ℕ → List SandboxHandle → Handler W (List CreateSandboxResponse)
  register_clones tokens ttl [] = pure []
  register_clones tokens ttl (handle ∷ handles) = do
    response ← register_sandbox env (tokens (length handles)) handle ttl
    audit_record env (event (some response.sandbox_id) (codes "snapshot_clone") (codes "succeeded"))
    rest ← register_clones tokens ttl handles
    pure (response ∷ rest)

  unfoldable pub clone_snapshot :
      (ℕ → Text) → Text → Option Text → ℕ → ℕ → Handler W (List CreateSandboxResponse)
  clone_snapshot tokens snapshot_id authorization count timeout_seconds = do
    lift (validate_ttl timeout_seconds)
    refuse_if (not (in_range 1 32 count)) api_bad_request
    id ← lift (parse_snapshot_id env snapshot_id)
    authorized_snapshot env id authorization
    handles ← call (runtime.clone_snapshot id count)
    register_clones tokens timeout_seconds handles

  -- The write of `rollback_snapshot`, which asks no table of transitions.
  unfoldable pub adopt_handle : SandboxId → SandboxHandle → Handler W (Unit {0})
  adopt_handle id handle s = elim (lookup id s.records) [
    | none ↦ (err api_not_found, s)
    | some r ↦ (
      ok tt,
      record s {
        records = insert id (record r { state = handle.state; node_id = handle.node_id }) s.records;
      },
    )
  ]

  unfoldable pub rollback_snapshot : Text → Text → Option Text → Handler W SandboxResponse
  rollback_snapshot id snapshot_id authorization = do
    id ← lift (parse_id env id)
    snapshot_id ← lift (parse_snapshot_id env snapshot_id)
    r ← authorized env id authorization
    found ← gets (λ s. lookup snapshot_id s.snapshots)
    snapshot_record ← lift (ok_or found api_not_found)
    refuse_if (not (snapshot_record.source_sandbox_id == id)) api_conflict
    handle ← call (runtime.rollback_snapshot id snapshot_id)
    adopt_handle id handle
    audit_record env (event (some id) (codes "snapshot_rollback") (codes "succeeded"))
    pure (record {
      sandbox_id = id;
      node_id = handle.node_id;
      state = handle.state;
      expires_at_unix_ms = r.expires_at_unix_ms;
    })

  unfoldable pub delete_snapshot : Text → Option Text → Handler W (Unit {0})
  delete_snapshot snapshot_id authorization = do
    id ← lift (parse_snapshot_id env snapshot_id)
    r ← authorized_snapshot env id authorization
    call (runtime.delete_snapshot id)
    modify (λ s. record s { snapshots = remove id s.snapshots })
    audit_record env
        (event (some r.source_sandbox_id) (codes "snapshot_delete") (codes "succeeded"))
