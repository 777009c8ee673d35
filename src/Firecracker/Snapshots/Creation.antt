-- ===== src/Firecracker/Snapshots/Creation.antt =====
-- `create_snapshot` of crates/ferrobox-node/src/firecracker_runtime.rs and the sandbox it is of.
use ferrobox.Firecracker.Host.{
  History, FirecrackerConfig, FirecrackerRuntime, FirecrackerSandbox, Host, SnapshotArtifact,
  finalize,
}
use ferrobox.Firecracker.Host.Inventory.{is_live}
use ferrobox.Core.State.{failed}
use ferrobox.Firecracker.Snapshots.Evidence.{Evidence}
use ferrobox.Core.Exec.{SnapshotHandle}
use ferrobox.Core.Error.{RuntimeError}
use ferrobox.Firecracker.Snapshots.{final_outcome}
use ferrobox.Core.Spec.{SandboxId, SnapshotId}
use ferrobox.Prelude.{◌≡◌, ◌⊎◌, some, if◌then◌else◌, Result, is_ok, lookup, insert, ok, err}
use ferrobox.Firecracker.Steps.{Firecracker}

-- What a creation of a snapshot of a sandbox comes to.
abbrev pub CreationEnds :
    Host
    → SandboxId
    → FirecrackerSandbox
    → SnapshotId
    → FirecrackerRuntime
    → Result RuntimeError SnapshotHandle × FirecrackerRuntime
    → Type 0
CreationEnds host id box snapshot s (ok handle, t) =
    ((j : SandboxId) → lookup j t.sandboxes ≡ lookup j s.sandboxes)
    × ((artifact : SnapshotArtifact) × (handle ≡ artifact.handle)
        × (t.snapshots ≡ insert snapshot artifact s.snapshots)
        × (h : History) × (final_outcome (host.reply h (finalize snapshot)) ≡ ok artifact))
    × Evidence host id box snapshot
    × ((j : SandboxId) → is_live j t.calls ≡ is_live j s.calls)
CreationEnds host id box snapshot s (err e, t) =
    ((j : SandboxId)
      → (lookup j t.sandboxes ≡ lookup j s.sandboxes)
        ⊎ ((id ≡ j) × (lookup j t.sandboxes ≡ some (record box { state = failed }))))
    × (t.snapshots ≡ s.snapshots)
    × ((j : SandboxId) → is_live j t.calls ≡ is_live j s.calls)

module _ (config : FirecrackerConfig) (host : Host) (id : SandboxId) (box : FirecrackerSandbox)
    (snapshot : SnapshotId) (s : FirecrackerRuntime)
    (found : lookup id s.sandboxes ≡ some box) where
  -- The source with the state that it has after the capture.
  abbrev settled_source : Result RuntimeError (Unit {0}) → FirecrackerRuntime → FirecrackerRuntime
  settled_source resumed r = record r {
    sandboxes =
        insert id (record box { state = if is_ok resumed then box.state else failed }) r.sandboxes;
  }
