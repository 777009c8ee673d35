-- ===== src/Firecracker/Cleanup/Draining.antt =====
-- `cleanup_cgroup` of crates/ferrobox-node/src/firecracker_runtime.rs, which ends what the jailer
-- process has left running.
-- The control group of a jail.
use ferrobox.Firecracker.Steps.{◌>>=◌, ◌>>◌, ask, branch, pure, raise, refuse_if}
use ferrobox.Firecracker.Host.Inventory.{is_emptied}
use ferrobox.Process.Lifecycle.Roots.{below_append, longer}
use ferrobox.Process.Lifecycle.{below}
use ferrobox.Firecracker.Cleanup.{cgroup_parent, cleanup_cgroup, is_gone, retry_removal}
use ferrobox.Core.Spec.{SandboxId}
use ferrobox.Process.Disk.{HostPath, path_eq, path_eq_iff}
use ferrobox.Firecracker.Host.{FirecrackerRuntime, Host, is_done, kill_cgroup, probe, remove_folder}
use ferrobox.Prelude.{
  ℕ, zero, suc, ◌≡◌, refl, ap, inl, inr, true, false, not, [], ◌∷◌, ◌++◌, arith, Bool-cases,
}

abbrev pub group_of : Host → SandboxId → HostPath
group_of host id = cgroup_parent ++ host.name_of id ∷ []

group_inside : (host : Host) (id : SandboxId) → below cgroup_parent (group_of host id) ≡ true
group_inside host id = below_append cgroup_parent (host.name_of id ∷ [])

group_differs : (host : Host) (id : SandboxId) → path_eq (group_of host id) cgroup_parent ≡ false
group_differs host id =
    ground
      (arith, path_eq_iff (group_of host id) cgroup_parent, longer cgroup_parent (host.name_of id))

same_path : (p : HostPath) → path_eq p p ≡ true
same_path p = (path_eq_iff p p).1 refl

module _ (host : Host) where
  retry_removal-is_emptied :
      (n : ℕ) (path cgroup : HostPath) (s : FirecrackerRuntime)
      → is_emptied path s.calls ≡ true
      → is_emptied path (retry_removal host n cgroup s).1.calls ≡ true
  unfolding retry_removal ask branch raise pure ◌>>=◌ is_emptied
  retry_removal-is_emptied zero path cgroup s h = h
  retry_removal-is_emptied (suc n) path cgroup s h =
      let reply = host.reply s.calls (remove_folder cgroup) in
      elim (Bool-cases (is_gone reply)) [
        | inl gone ↦ rw gone h
        | inr still ↦ rw still (
            retry_removal-is_emptied n path cgroup
              (record s { calls = (remove_folder cgroup, reply) ∷ s.calls }) h)
      ]

  -- Whatever the operating system answers, the cleanup of a control group leaves nothing in it that
  -- was not killed: it is killed, or it is not there, or it cannot be looked at.
  pub cleanup_cgroup_lem :
      (id : SandboxId) (s : FirecrackerRuntime)
      → is_emptied (group_of host id) (cleanup_cgroup host id s).1.calls ≡ true
  unfolding cleanup_cgroup ask branch refuse_if ◌>>=◌ ◌>>◌ is_emptied
  cleanup_cgroup_lem id s =
      let path = group_of host id in
      let found = host.reply s.calls (probe path) in
      let probed : FirecrackerRuntime = record s { calls = (probe path, found) ∷ s.calls } in
      let reply = host.reply probed.calls (kill_cgroup path) in
      let killed : FirecrackerRuntime = record s {
        calls = (kill_cgroup path, reply) ∷ probed.calls;
      } in
      elim (Bool-cases (is_done found)) [
        | inl there ↦
            rw (group_inside host id, group_differs host id, there)
              (retry_removal-is_emptied 250 path path killed (same_path path))
        | inr not_there ↦ elim (Bool-cases (is_gone found)) [
          | inl gone ↦
              rw (group_inside host id, group_differs host id, not_there, gone, same_path path)
                (ap not not_there)
          | inr unknown ↦
              rw (group_inside host id, group_differs host id, not_there, unknown, same_path path)
                (ap not not_there)
        ]
      ]
