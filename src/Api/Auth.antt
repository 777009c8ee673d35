-- ===== src/Api/Auth.antt =====
-- Bearer tokens and identifiers in crates/ferrobox-api/src/lib.rs. A handler's `authorization` is the
-- value of that header, where it is there and readable as text.
pub mod Laws
use ferrobox.Prelude.{
  ℕ, zero, suc, ◌+◌, ◌-◌, ◌*◌, ◌/◌, ◌%◌, ◌^◌, ◌≤◌, ◌<◌, min, ◌≡◌, refl, sym, ap, ◌∙◌, ◌≢◌, ◌↔◌, ◌⊎◌,
  inl, inr, Bool, true, false, not, ◌&&◌, ◌||◌, Option, none, some, List, [], ◌∷◌, ◌++◌, map, arith,
  ltb, leb, ◌==◌, in_range, if◌then◌else◌, ==_iff, ltb_iff, leb_iff, Bool-cases, Option-cases,
  length, is_empty, is_empty-eq-false_iff, all, any, get_elem?, get_or, take, drop, length-append,
  length-take, length-drop, take-append-drop, take_of_length-le, All, all_iff, any-eq-false_iff,
  all-append, any-append, Result, reject_if, ok_or, map_err, is_ok, >>=-eq-ok, Text, Bytes, codes,
  utf8_char, bytes, byte_len, text_eq, text_eq_iff, is_ascii_alphanumeric, is_control,
  is_whitespace, trim_start_while, trim, strip_prefix, starts_with, push_front, split,
  to_ascii_lower, all-bytes, bytes_of_ascii, has_nul, has_nul-eq-false_iff, Table, lookup, remove,
  insert, lookup-remove, lookup-insert, ok, err,
}
use ferrobox.Prelude.Exec.{Exec, lift, ◌>>=◌}
use ferrobox.Core.Spec.{SandboxId, SnapshotId, max_timeout_seconds}
use ferrobox.Core.State.{is_running}
use ferrobox.Api.Types.{
  ApiError, Env, AppState, Handler, SandboxRecord, SnapshotRecord, token_matches, api_bad_request,
  api_unauthorized, api_not_found, api_expired, api_conflict,
}

abbrev pub non_empty : Text → Option Text
non_empty token = if is_empty token then none else some token

unfoldable pub bearer : Option Text → Result ApiError Text
bearer none = err api_unauthorized
bearer (some value) = elim (strip_prefix (codes "Bearer ") value) [
  | none ↦ err api_unauthorized
  | some token ↦ ok_or (non_empty token) api_unauthorized
]

abbrev pub parse_id : Env → Text → Result ApiError SandboxId
parse_id env value = ok_or (env.parse_uuid value) api_bad_request

abbrev pub parse_snapshot_id : Env → Text → Result ApiError SnapshotId
parse_snapshot_id env value = ok_or (env.parse_uuid value) api_bad_request

unfoldable pub validate_ttl : ℕ → Result ApiError (Unit {0})
validate_ttl value = reject_if (not (in_range 1 max_timeout_seconds value)) api_bad_request

-- The tests of `authorize` on the record that it finds.
abbrev pub admit : Env → Text → SandboxRecord → Result ApiError SandboxRecord
admit env token r =
    if leb r.expires_at env.now
    then err api_expired
    else if not (token_matches env r.token token)
    then err api_unauthorized
    else ok r

unfoldable pub authorize :
    {W : Type 0} → Env → SandboxId → Option Text → AppState W → Result ApiError SandboxRecord
authorize env id authorization s = elim (bearer authorization) [
  | err e ↦ err e
  | ok token ↦ elim (lookup id s.records) [ none ↦ err api_not_found | some r ↦ admit env token r ]
]

abbrev pub when_running : SandboxRecord → Result ApiError SandboxRecord
when_running r = if not (is_running r.state) then err api_conflict else ok r

unfoldable pub authorize_running :
    {W : Type 0} → Env → SandboxId → Option Text → AppState W → Result ApiError SandboxRecord
authorize_running env id authorization s = elim (authorize env id authorization s) [
  | err e ↦ err e
  | ok r ↦ when_running r
]

abbrev pub admit_snapshot : Env → Text → SnapshotRecord → Result ApiError SnapshotRecord
admit_snapshot env token r =
    if not (token_matches env r.token token) then err api_unauthorized else ok r

unfoldable pub authorize_snapshot :
    {W : Type 0} → Env → SnapshotId → Option Text → AppState W → Result ApiError SnapshotRecord
authorize_snapshot env id authorization s = elim (bearer authorization) [
  | err e ↦ err e
  | ok token ↦ elim (lookup id s.snapshots) [
    | none ↦ err api_not_found
    | some r ↦ admit_snapshot env token r
  ]
]

-- The same as steps of a handler, which they leave the state of as it is.
abbrev pub authorized : {W : Type 0} → Env → SandboxId → Option Text → Handler W SandboxRecord
authorized env id authorization s = (authorize env id authorization s, s)

abbrev pub authorized_running :
    {W : Type 0} → Env → SandboxId → Option Text → Handler W SandboxRecord
authorized_running env id authorization s = (authorize_running env id authorization s, s)

abbrev pub authorized_snapshot :
    {W : Type 0} → Env → SnapshotId → Option Text → Handler W SnapshotRecord
authorized_snapshot env id authorization s = (authorize_snapshot env id authorization s, s)
