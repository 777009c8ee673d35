-- ===== src/Firecracker/Rollback.antt =====
-- `rollback_snapshot` of crates/ferrobox-node/src/firecracker_runtime.rs: a machine from a snapshot
-- takes the place of a sandbox's machine. Two handles on a record are the same `Arc` exactly if the
-- records have the same jail, since a launch makes one record under an identifier of its own.
pub mod Exchange
pub mod Outcomes
use ferrobox.Core.State.{running}
use ferrobox.Firecracker.Cleanup.{terminate_record}
use ferrobox.Firecracker.Snapshots.{create_from_artifact, find_snapshot, is_settled, open_artifact}
use ferrobox.Core.Exec.{SandboxHandle}
use ferrobox.Firecracker.Lifecycle.{delete, find_sandbox, set_sandbox}
use ferrobox.Firecracker.Boot.{rekey_connected_guest}
use ferrobox.Core.Error.{conflict}
use ferrobox.Core.Spec.{SandboxId, SnapshotId}
use ferrobox.Firecracker.Host.{
  FirecrackerConfig, FirecrackerSandbox, Host, SnapshotArtifact, from_lease,
}
use ferrobox.Prelude.{
  ℕ, zero, suc, ◌+◌, ◌-◌, ◌*◌, ◌/◌, ◌%◌, ◌^◌, ◌≤◌, ◌<◌, min, ◌≡◌, refl, sym, ap, ◌∙◌, ◌≢◌, ◌↔◌, ◌⊎◌,
  inl, inr, Bool, true, false, not, ◌&&◌, ◌||◌, Option, none, some, List, [], ◌∷◌, ◌++◌, map, arith,
  ltb, leb, ◌==◌, in_range, if◌then◌else◌, ==_iff, ltb_iff, leb_iff, Bool-cases, Option-cases,
  length, is_empty, is_empty-eq-false_iff, all, any, get_elem?, get_or, take, drop, length-append,
  length-take, length-drop, drop_add, take-append-drop, take_of_length-le, All, All-append, all_iff,
  any-eq-false_iff, all-append, any-append, Result, reject_if, ok_or, map_err, is_ok, >>=-eq-ok,
  Result-cases, Text, Bytes, codes, utf8_char, bytes, byte_len, text_eq, text_eq_iff,
  is_ascii_alphanumeric, is_control, is_whitespace, trim_start_while, trim, strip_prefix,
  starts_with, push_front, split, to_ascii_lower, all-bytes, bytes_of_ascii, has_nul,
  has_nul-eq-false_iff, strip_prefix-append, strip_prefix-eq-some, Table, lookup, remove, insert,
  lookup-remove, lookup-insert, ok, err,
}
use ferrobox.Firecracker.Steps.{
  Firecracker, ask, attempt, expect, gets, lift, modify, on_failure, pure, raise, refuse_if, ◌>>=◌,
  ◌>>◌,
}

-- `Arc::ptr_eq`, against what the table holds now.
abbrev pub same_record : FirecrackerSandbox → Option FirecrackerSandbox → Bool
same_record box none = false
same_record box (some current) = box.jailer_id == current.jailer_id

-- The swap, under the lock of the table.
unfoldable pub swap :
    SandboxId → FirecrackerSandbox → SandboxId → FirecrackerSandbox → Firecracker (Unit {0})
swap id source replacement_id replacement s =
    if same_record source (lookup id s.sandboxes)
      && same_record replacement (lookup replacement_id s.sandboxes)
    then (
      ok tt,
      record s {
        sandboxes = insert id replacement (remove replacement_id (remove id s.sandboxes));
      },
    )
    else (err conflict, s)

module _ (config : FirecrackerConfig) (host : Host) where
  -- The checks before anything is started: the source and the snapshot.
  unfoldable pub rollback_sources :
      SandboxId → SnapshotId → Firecracker (FirecrackerSandbox × SnapshotArtifact)
  rollback_sources id snapshot = do
    source ← find_sandbox id
    refuse_if (not (is_settled source.state)) conflict
    artifact ← find_snapshot snapshot
    refuse_if (not (artifact.handle.source_sandbox_id == id)) conflict
    pure (source, artifact)

  -- The new key of the replacement, which then answers as the sandbox.
  unfoldable pub rename_replacement :
      SandboxId → SandboxId → FirecrackerSandbox → Firecracker FirecrackerSandbox
  rename_replacement id replacement_id replacement = do
    token ← gets (λ s. host.fresh_token s.calls)
    rekey_connected_guest host replacement.jailer_id id replacement.guest_token token
        (from_lease replacement.network)
    set_sandbox replacement_id (record replacement { guest_token = token })
    pure (record replacement { guest_token = token })

  -- The exchange of the machines. `others` is what other tasks make of the table before the swap.
  unfoldable pub exchange :
      (Table FirecrackerSandbox → Table FirecrackerSandbox)
      → SandboxId
      → FirecrackerSandbox
      → SandboxId
      → Firecracker SandboxHandle
  exchange others id source replacement_id = do
    replacement ← find_sandbox replacement_id
    renamed ←
        on_failure (delete config host replacement_id)
          (rename_replacement id replacement_id replacement)
    modify (λ s. record s { sandboxes = others s.sandboxes })
    on_failure (delete config host replacement_id) (swap id source replacement_id renamed)
    outcome ← terminate_record config host source
    pure (record { sandbox_id = id; node_id = config.node_id; state = running })

  unfoldable pub rollback_snapshot :
      (Table FirecrackerSandbox → Table FirecrackerSandbox)
      → SandboxId
      → SnapshotId
      → Firecracker SandboxHandle
  rollback_snapshot others id snapshot = do
    sources ← rollback_sources id snapshot
    token ← open_artifact host sources.1
    made ← create_from_artifact config host sources.1 token
    exchange others id sources.0 made.sandbox_id
