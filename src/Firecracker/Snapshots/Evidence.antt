-- ===== src/Firecracker/Snapshots/Evidence.antt =====
-- What the machine and the store have answered when `create_snapshot` of
-- crates/ferrobox-node/src/firecracker_runtime.rs succeeds.
-- The machine has saved its memory, and the store has staged it as the sandbox's.
use ferrobox.Firecracker.Steps.{◌>>=◌, ◌>>◌, ask, attempt, branch, expect, lift, pure}
use ferrobox.Firecracker.Snapshots.{
  capture, capture_and_resume, capture_file, capture_if, pause_and_capture, pause_for_capture,
  resume_after_capture, rootfs_path, store_outcome,
}
use ferrobox.Firecracker.Lifecycle.Switching.{Answered, wake-told}
use ferrobox.Process.Disk.{HostPath}
use ferrobox.Core.State.{is_running}
use ferrobox.Core.Spec.{CreateSnapshotRequest, SandboxId, SnapshotId}
use ferrobox.Core.Error.{RuntimeError}
use ferrobox.Firecracker.Host.{
  FirecrackerConfig, FirecrackerRuntime, FirecrackerSandbox, History, Host, StageRequest, api,
  create_vm_snapshot, is_done, remove_file, set_vm_state, stage, vm_paused, vm_resumed,
}
use ferrobox.Prelude.{
  ◌≡◌, refl, ◌⊎◌, inl, inr, Bool, false, ◌&&◌, [], ◌∷◌, ◌++◌, arith, Bool-cases, Result, is_ok,
  Result-cases, codes, ok, err,
}

abbrev pub Captured : Host → SandboxId → FirecrackerSandbox → SnapshotId → Type 0
Captured host id box snapshot =
    ((vmstate : HostPath) × (memory : HostPath) × Answered host
        (api box.jailer_id (create_vm_snapshot vmstate memory)))
    × ((request : StageRequest) × (request.snapshot_id ≡ snapshot)
        × (request.source_sandbox_id ≡ id)
        × (request.source_state ≡ box.state)
        × (request.spec ≡ box.spec)
        × (request.restore_token ≡ box.guest_token)
        × (h : History) × (store_outcome (host.reply h (stage request)) ≡ ok tt))

-- A machine that was running has stopped and gone on.
abbrev pub WentOn : Host → FirecrackerSandbox → Type 0
WentOn host box =
    (is_running box.state ≡ false)
    ⊎ (Answered host (api box.jailer_id (set_vm_state vm_paused))
        × Answered host (api box.jailer_id (set_vm_state vm_resumed)))

abbrev pub Evidence : Host → SandboxId → FirecrackerSandbox → SnapshotId → Type 0
Evidence host id box snapshot = Captured host id box snapshot × WentOn host box

-- The capture and the resumption both went well.
abbrev pub both_ok :
    Result RuntimeError (Result RuntimeError (Unit {0}) × Result RuntimeError (Unit {0})) → Bool
both_ok (ok (captured, resumed)) = is_ok captured && is_ok resumed
both_ok (err e) = false

module _ (config : FirecrackerConfig) (host : Host) (id : SandboxId) (box : FirecrackerSandbox)
    (snapshot : SnapshotId) (request : CreateSnapshotRequest) where
  capture-told :
      (s : FirecrackerRuntime)
      → (is_ok (capture config host id box snapshot request s).0 ≡ false)
        ⊎ Captured host id box snapshot
  unfolding capture expect ask lift ◌>>=◌ ◌>>◌
  capture-told s =
      let files = codes "user-" ++ host.name_of snapshot in
      let vmstate : HostPath = codes "snapshot" ∷ (files ++ codes ".vmstate") ∷ [] in
      let memory : HostPath = codes "snapshot" ∷ (files ++ codes ".memory") ∷ [] in
      let save = api box.jailer_id (create_vm_snapshot vmstate memory) in
      let saved : History = (save, host.reply s.calls save) ∷ s.calls in
      let staged : StageRequest = record {
        snapshot_id = snapshot;
        source_sandbox_id = id;
        name = request.name;
        source_state = box.state;
        spec = box.spec;
        vmstate_path = capture_file config host box snapshot (codes ".vmstate");
        memory_path = capture_file config host box snapshot (codes ".memory");
        rootfs_path = rootfs_path box.chroot_root;
        restore_token = box.guest_token;
      } in
      elim (Bool-cases (is_done (host.reply s.calls save))) [
        | inr failed ↦ inl (rw failed refl)
        | inl done_well ↦ elim (Result-cases (store_outcome (host.reply saved (stage staged)))) [
          | inr (e, refusal) ↦ inl (rw (done_well, refusal) refl)
          | inl (_, taken) ↦ inr (
            (vmstate, memory, (s.calls, done_well)),
            (staged, refl, refl, refl, refl, refl, saved, taken),
          )
        ]
      ]

  -- The state after the capture's files in the jail are removed.
  abbrev cleared : FirecrackerRuntime → FirecrackerRuntime
  cleared s =
      let r = (capture config host id box snapshot request s).1 in
      let r2 =
        (ask host (remove_file (capture_file config host box snapshot (codes ".vmstate"))) r).1 in
      (ask host (remove_file (capture_file config host box snapshot (codes ".memory"))) r2).1

  pub capture_and_resume-told :
      (s : FirecrackerRuntime)
      → (both_ok (capture_and_resume config host id box snapshot request s).0 ≡ false)
        ⊎ Evidence host id box snapshot
  unfolding capture_and_resume pause_and_capture capture_if attempt pause_for_capture
      resume_after_capture expect ask pure branch ◌>>=◌ ◌>>◌
  capture_and_resume-told s =
      let halt = api box.jailer_id (set_vm_state vm_paused) in
      let halted : FirecrackerRuntime = record s {
        calls = (halt, host.reply s.calls halt) ∷ s.calls;
      } in
      elim (Bool-cases (is_running box.state)) [
        | inr idle ↦ elim (capture-told s) [
          | inl failed ↦ inl (rw (idle, failed) refl)
          | inr captured ↦ inr (captured, inl idle)
        ]
        | inl now ↦ elim (Bool-cases (is_done (host.reply s.calls halt))) [
          | inr refused_to ↦ inl (rw (now, refused_to) refl)
          | inl stopped ↦ elim (capture-told halted) [
            | inl failed ↦ inl (rw (now, stopped, failed) refl)
            | inr captured ↦ elim (wake-told host id (cleared halted) box) [
              | inl failed ↦ inl (rw (now, stopped) (ground arith))
              | inr told ↦ inr (captured, inr ((s.calls, stopped), ((cleared halted).calls, told)))
            ]
          ]
        ]
      ]
