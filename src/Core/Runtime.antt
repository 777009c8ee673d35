-- ===== src/Core/Runtime.antt =====
-- The trait `SandboxRuntime` of crates/ferrobox-core/src/lib.rs: what the API asks of a runtime. `W`
-- is the state of the runtime and of the machine below it, which every call may change.
use ferrobox.Prelude.{ℕ, Bool, List}
use ferrobox.Prelude.Exec.{Exec}
use ferrobox.Core.Error.{RuntimeError}
use ferrobox.Core.Spec.{SandboxId, SnapshotId, SandboxSpec, CreateSnapshotRequest}
use ferrobox.Core.Paths.{SandboxPath}
use ferrobox.Core.Exec.{
  SandboxHandle, SnapshotHandle, SnapshotVerification, ExecRequest, ExecResult, SignalRequest,
  WriteFileRequest, ReadFileRequest, ReadFileResult, DirectoryEntry,
}

pub record SandboxRuntime (W : Type 0) : Type 0 where
  pub create : SandboxSpec → Exec W RuntimeError SandboxHandle
  pub execute : SandboxId → ExecRequest → Exec W RuntimeError ExecResult
  pub signal : SandboxId → SignalRequest → Exec W RuntimeError Bool
  pub write : SandboxId → WriteFileRequest → Exec W RuntimeError ℕ
  pub read : SandboxId → ReadFileRequest → Exec W RuntimeError ReadFileResult
  pub list : SandboxId → SandboxPath → Exec W RuntimeError (List DirectoryEntry)
  pub pause : SandboxId → Exec W RuntimeError (Unit {0})
  pub resume : SandboxId → Exec W RuntimeError (Unit {0})
  pub create_snapshot : SandboxId → CreateSnapshotRequest → Exec W RuntimeError SnapshotHandle
  pub list_snapshots : SandboxId → Exec W RuntimeError (List SnapshotHandle)
  pub get_snapshot : SnapshotId → Exec W RuntimeError SnapshotHandle
  pub verify_snapshot : SnapshotId → Exec W RuntimeError SnapshotVerification
  pub restore_snapshot : SnapshotId → Exec W RuntimeError SandboxHandle
  pub clone_snapshot : SnapshotId → ℕ → Exec W RuntimeError (List SandboxHandle)
  pub rollback_snapshot : SandboxId → SnapshotId → Exec W RuntimeError SandboxHandle
  pub delete_snapshot : SnapshotId → Exec W RuntimeError (Unit {0})
  pub delete : SandboxId → Exec W RuntimeError (Unit {0})
