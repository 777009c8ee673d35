-- ===== src/Firecracker/Snapshots.antt =====
-- The snapshot operations of crates/ferrobox-node/src/firecracker_runtime.rs. The store is asked for
-- what crates/ferrobox-node/src/snapshot.rs does.
pub mod Clones
pub mod Evidence
pub mod Creation
pub mod AllOrNothing
use ferrobox.Firecracker.Lifecycle.{delete, find_sandbox, set_sandbox, wake}
use ferrobox.Firecracker.Launch.{jail_snapshot_path, join, launch, rootfs_path}
use ferrobox.Firecracker.Boot.{put, reconnect_guest}
use ferrobox.Process.Disk.{HostPath}
use ferrobox.Core.Exec.{SandboxHandle, SnapshotHandle}
use ferrobox.Core.Error.{
  RuntimeError, conflict, internal, invalid, invalid_input, not_found, unavailable,
}
use ferrobox.Core.State.{SandboxState, failed, is_paused, is_running}
use ferrobox.Core.Spec.{CreateSnapshotRequest, SandboxId, SnapshotId, validate_snapshot_request}
use ferrobox.Prelude.{
  ℕ, zero, suc, ◌+◌, ◌-◌, ◌*◌, ◌/◌, ◌%◌, ◌^◌, ◌≤◌, ◌<◌, min, ◌≡◌, refl, sym, ap, ◌∙◌, ◌≢◌, ◌↔◌, ◌⊎◌,
  inl, inr, Bool, true, false, not, ◌&&◌, ◌||◌, Option, none, some, List, [], ◌∷◌, ◌++◌, map, arith,
  ltb, leb, ◌==◌, in_range, if◌then◌else◌, ==_iff, ltb_iff, leb_iff, Bool-cases, Option-cases,
  length, is_empty, is_empty-eq-false_iff, all, any, get_elem?, get_or, take, drop, length-append,
  length-take, length-drop, drop_add, take-append-drop, take_of_length-le, All, All-append, all_iff,
  any-eq-false_iff, all-append, any-append, Result, reject_if, ok_or, map_err, is_ok, >>=-eq-ok,
  Result-cases, Text, Bytes, codes, utf8_char, bytes, byte_len, text_eq, text_eq_iff,
  is_ascii_alphanumeric, is_control, is_whitespace, trim_start_while, trim, strip_prefix,
  starts_with, push_front, split, to_ascii_lower, all-bytes, bytes_of_ascii, has_nul,
  has_nul-eq-false_iff, strip_prefix-append, strip_prefix-eq-some, Table, lookup, remove, insert,
  lookup-remove, lookup-insert, ok, err,
}
use ferrobox.Firecracker.Host.{
  FirecrackerConfig, FirecrackerSandbox, Host, Reply, SnapshotArtifact, create_vm_snapshot,
  delete_artifact, discard, done, finalize, published, read_token, refused, remove_file,
  set_vm_state, stage, told, verdict, verify_artifact, vm_paused, vm_resumed,
}
use ferrobox.Firecracker.Steps.{
  Firecracker, ask, attempt, on_failure, branch, expect, gets, lift, modify, pure, raise, refuse_if,
  ◌>>=◌, ◌>>◌,
}

-- `snapshot_record`
abbrev pub find_snapshot : SnapshotId → Firecracker SnapshotArtifact
find_snapshot id s = (ok_or (lookup id s.snapshots) not_found, s)

-- `matches!(state, SandboxState::Running | SandboxState::Paused)`
abbrev pub is_settled : SandboxState → Bool
is_settled state = is_running state || is_paused state

-- The outcome of a call to the store that gives nothing back.
abbrev pub store_outcome : Reply → Result RuntimeError (Unit {0})
store_outcome done = ok tt
store_outcome (refused e) = err e
store_outcome _ = err internal

-- `snapshot_store.restore_token`
abbrev pub token_outcome : Reply → Result RuntimeError Text
token_outcome (told token) = ok token
token_outcome (refused e) = err e
token_outcome _ = err unavailable

-- `snapshot_store.verify`, which always gives a verdict.
abbrev pub is_verified : Reply → Bool
is_verified (verdict v) = v.valid
is_verified _ = false

-- The last of a list, which `pop` gives.
abbrev pub last_or {ℓ} : {A : Type ℓ} → A → List A → A
last_or x [] = x
last_or x (y ∷ rest) = last_or y rest

-- `snapshot_store.finalize`
abbrev pub final_outcome : Reply → Result RuntimeError SnapshotArtifact
final_outcome (published artifact) = ok artifact
final_outcome (refused e) = err e
final_outcome _ = err internal

module _ (host : Host) where
  -- The check of an artifact and its token.
  unfoldable pub open_artifact : SnapshotArtifact → Firecracker Text
  open_artifact artifact = do
    checked ← ask host (verify_artifact artifact)
    refuse_if (not (is_verified checked)) unavailable
    reply ← ask host (read_token artifact)
    lift (token_outcome reply)

-- Whether the capture stopped the machine.
abbrev pub was_stopped : Result RuntimeError Bool → Bool
was_stopped (ok stopped) = stopped
was_stopped (err e) = false

-- The capture, if the machine stands still for it.
unfoldable pub capture_if :
    Result RuntimeError Bool → Firecracker (Unit {0}) → Firecracker (Result RuntimeError (Unit {0}))
capture_if (ok stopped) m = attempt m
capture_if (err e) m = pure (err e)

module _ (config : FirecrackerConfig) (host : Host) where
  -- The files of a capture in the jail.
  abbrev pub capture_file : FirecrackerSandbox → SnapshotId → Text → HostPath
  capture_file box snapshot suffix =
      join (jail_snapshot_path box.chroot_root) (codes "user-" ++ host.name_of snapshot ++ suffix)

  -- The machine is stopped for the capture if it runs: whether it was, in any case.
  unfoldable pub pause_for_capture : FirecrackerSandbox → Firecracker Bool
  pause_for_capture box =
      branch (is_running box.state) (do put host box.jailer_id (set_vm_state vm_paused); pure true)
        (pure false)

  -- The capture of a machine that stands still.
  unfoldable pub capture :
      SandboxId → FirecrackerSandbox → SnapshotId → CreateSnapshotRequest → Firecracker (Unit {0})
  capture id box snapshot request = do
    put host box.jailer_id (
        create_vm_snapshot
          (codes "snapshot" ∷ (codes "user-" ++ host.name_of snapshot ++ codes ".vmstate") ∷ [])
          (codes "snapshot" ∷ (codes "user-" ++ host.name_of snapshot ++ codes ".memory") ∷ []))
    reply ← ask host (
        stage (record {
          snapshot_id = snapshot;
          source_sandbox_id = id;
          name = request.name;
          source_state = box.state;
          spec = box.spec;
          vmstate_path = capture_file box snapshot (codes ".vmstate");
          memory_path = capture_file box snapshot (codes ".memory");
          rootfs_path = rootfs_path box.chroot_root;
          restore_token = box.guest_token;
        }))
    lift (store_outcome reply)

  -- The machine goes on if the capture stopped it.
  unfoldable pub resume_after_capture : Bool → FirecrackerSandbox → Firecracker (Unit {0})
  resume_after_capture false box = pure tt
  resume_after_capture true box = wake host box

  -- The capture and whether it stopped the machine.
  unfoldable pub pause_and_capture :
      SandboxId
      → FirecrackerSandbox
      → SnapshotId
      → CreateSnapshotRequest
      → Firecracker (Bool × Result RuntimeError (Unit {0}))
  pause_and_capture id box snapshot request = do
    stopped ← attempt (pause_for_capture box)
    captured ← capture_if stopped (capture id box snapshot request)
    pure (was_stopped stopped, captured)

  -- What a capture and the resumption after it come to.
  unfoldable pub settle_capture :
      SnapshotId
      → Result RuntimeError (Unit {0})
      → Result RuntimeError (Unit {0})
      → Firecracker (Unit {0})
  settle_capture snapshot (err e) resumed = raise e
  settle_capture snapshot (ok _) (err e) = do dropped ← ask host (discard snapshot); raise e
  settle_capture snapshot (ok _) (ok _) = pure tt

  -- The artifact becomes a snapshot of the runtime only once the store has it complete.
  unfoldable pub publish : SnapshotId → Firecracker SnapshotHandle
  publish snapshot = do
    reply ← ask host (finalize snapshot)
    artifact ← lift (final_outcome reply)
    modify (λ s. record s { snapshots = insert snapshot artifact s.snapshots })
    pure artifact.handle

  -- The state of the source after the capture, and the outcome.
  unfoldable pub conclude :
      SandboxId
      → FirecrackerSandbox
      → SnapshotId
      → Result RuntimeError (Unit {0})
      → Result RuntimeError (Unit {0})
      → Firecracker SnapshotHandle
  conclude id box snapshot captured resumed = do
    set_sandbox id (record box { state = if is_ok resumed then box.state else failed })
    settle_capture snapshot captured resumed
    publish snapshot

  -- The capture, its files in the jail, and the machine after it.
  unfoldable pub capture_and_resume :
      SandboxId
      → FirecrackerSandbox
      → SnapshotId
      → CreateSnapshotRequest
      → Firecracker (Result RuntimeError (Unit {0}) × Result RuntimeError (Unit {0}))
  capture_and_resume id box snapshot request = do
    outcome ← pause_and_capture id box snapshot request
    removed_state ← ask host (remove_file (capture_file box snapshot (codes ".vmstate")))
    removed_memory ← ask host (remove_file (capture_file box snapshot (codes ".memory")))
    resumed ← attempt (resume_after_capture outcome.0 box)
    pure (outcome.1, resumed)

  unfoldable pub create_snapshot : SandboxId → CreateSnapshotRequest → Firecracker SnapshotHandle
  create_snapshot id request = do
    lift (map_err invalid (validate_snapshot_request request))
    box ← find_sandbox id
    snapshot ← gets (λ s. host.fresh_id s.calls)
    refuse_if (not (is_settled box.state)) conflict
    outcome ← capture_and_resume id box snapshot request
    conclude id box snapshot outcome.0 outcome.1

  -- `create_from_snapshot_artifact`
  unfoldable pub create_from_artifact : SnapshotArtifact → Text → Firecracker SandboxHandle
  create_from_artifact artifact token = do
    id ← gets (λ s. host.fresh_id s.calls)
    launch config host artifact.handle.spec id
        (record { kernel = config.kernel_image; rootfs = config.rootfs_template })
        (some (record {
          vmstate_path = join artifact.artifact_root (codes "vmstate");
          memory_path = join artifact.artifact_root (codes "memory");
          rootfs_path = join artifact.artifact_root (codes "rootfs.ext4");
          captured_guest_token = some token;
        }))
        false

  -- The deletions after a failure, whose own failures are not passed on.
  unfoldable pub delete_all : List SandboxHandle → Firecracker (Unit {0})
  delete_all [] = pure tt
  delete_all (handle ∷ handles) = do
    dropped ← attempt (delete config host handle.sandbox_id)
    delete_all handles

  -- The loop of `clone_snapshot`, with the clones that there are.
  unfoldable pub clone_loop :
      SnapshotArtifact → Text → ℕ → List SandboxHandle → Firecracker (List SandboxHandle)
  clone_loop artifact token zero handles = pure handles
  clone_loop artifact token (suc n) handles = do
    handle ← on_failure (delete_all handles) (create_from_artifact artifact token)
    clone_loop artifact token n (handles ++ handle ∷ [])

  unfoldable pub clone_snapshot : SnapshotId → ℕ → Firecracker (List SandboxHandle)
  clone_snapshot snapshot count = do
    refuse_if (not (in_range 1 32 count)) invalid_input
    artifact ← find_snapshot snapshot
    token ← open_artifact host artifact
    clone_loop artifact token count []

  unfoldable pub restore_snapshot : SnapshotId → Firecracker SandboxHandle
  restore_snapshot snapshot = do
    handles ← clone_snapshot snapshot 1
    elim handles [ [] ↦ raise internal | handle ∷ rest ↦ pure (last_or handle rest) ]

  -- The entry of a sandbox goes only after the store has let the artifact go.
  unfoldable pub delete_snapshot : SnapshotId → Firecracker (Unit {0})
  delete_snapshot snapshot = do
    artifact ← find_snapshot snapshot
    reply ← ask host (delete_artifact artifact)
    lift (store_outcome reply)
    modify (λ s. record s { snapshots = remove snapshot s.snapshots })
