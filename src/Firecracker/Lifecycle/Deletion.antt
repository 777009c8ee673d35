-- ===== src/Firecracker/Lifecycle/Deletion.antt =====
-- `delete` of crates/ferrobox-node/src/firecracker_runtime.rs.
use ferrobox.Firecracker.Cleanup.Ending.{
  unjailed, cgroup_result, jail_result, network_result, terminate_record-IsReclaimed,
  terminate_record_lem,
}
use ferrobox.Firecracker.Cleanup.Draining.{cleanup_cgroup_lem, group_of}
use ferrobox.Firecracker.Host.Inventory.{is_emptied}
use ferrobox.Core.Error.{not_found}
use ferrobox.Firecracker.Launch.Outcomes.{IsReclaimed}
use ferrobox.Firecracker.Cleanup.{first_failure}
use ferrobox.Firecracker.Host.{FirecrackerConfig, FirecrackerRuntime, FirecrackerSandbox, Host}
use ferrobox.Firecracker.Lifecycle.{delete, true}
use ferrobox.Core.Spec.{SandboxId}
use ferrobox.Prelude.{◌≡◌, refl, none, some, arith, lookup, remove, lookup-remove, err}
use ferrobox.Firecracker.Steps.{lift, modify, ◌>>=◌, ◌>>◌}

-- The runtime without the entry of a sandbox.
abbrev pub without : SandboxId → FirecrackerRuntime → FirecrackerRuntime
without id s = record s { sandboxes = remove id s.sandboxes }

pub delete_sandbox_lem :
    (config : FirecrackerConfig) (host : Host) (id : SandboxId) (box : FirecrackerSandbox)
    (s : FirecrackerRuntime)
    → lookup id s.sandboxes ≡ some box
    → let (answer, t) = delete config host id s in
      let r = without id s in
      (answer
        ≡ first_failure
            (network_result config host box r)
            (jail_result config host box r)
            (cgroup_result config host box r))
      × (t.sandboxes ≡ remove id s.sandboxes)
      × IsReclaimed box.jailer_id box.network r t
      × (is_emptied (group_of host box.jailer_id) t.calls ≡ true)
      × ((delete config host id t).0 ≡ err not_found)
unfolding delete ◌>>=◌ ◌>>◌ modify lift
delete_sandbox_lem config host id box s found =
    let whole = terminate_record_lem config host box (without id s) in
    let ended = terminate_record-IsReclaimed config host box (without id s) in
    let gone : lookup id (remove id s.sandboxes) ≡ none =
      ground (arith, lookup-remove id id s.sandboxes) in
    (
      rw (found, whole) refl,
      rw (found, whole) ended.sandboxes,
      rw (found, whole) ended,
      rw (found, whole)
          (cleanup_cgroup_lem host box.jailer_id (unjailed config host box (without id s))),
      rw (found, whole) (rw (ended.sandboxes, gone) refl),
    )
