-- ===== src/Firecracker/Cleanup/Steady.antt =====
-- What the removal of files in crates/ferrobox-node/src/firecracker_runtime.rs leaves alone.
use ferrobox.Firecracker.Steps.Calm.{IsCalm, calm_rules}
use ferrobox.Core.Spec.{SandboxId}
use ferrobox.Process.Disk.{HostPath}
use ferrobox.Firecracker.Host.{FirecrackerConfig, Host}
use ferrobox.Firecracker.Cleanup.{cleanup_cgroup, cleanup_chroot, retry_removal}
use ferrobox.Prelude.{ℕ, zero, suc}

pub cleanup_chroot-IsCalm :
    (config : FirecrackerConfig) (host : Host) (path : HostPath)
    → IsCalm (cleanup_chroot config host path)
unfolding cleanup_chroot
cleanup_chroot-IsCalm config host path = search calm_rules depth 8

retry_removal-IsCalm : (host : Host) (n : ℕ) (path : HostPath) → IsCalm (retry_removal host n path)
unfolding retry_removal
retry_removal-IsCalm host zero path = search calm_rules
retry_removal-IsCalm host (suc n) path =
    let rest = retry_removal-IsCalm host n path in search calm_rules

pub cleanup_cgroup-IsCalm : (host : Host) (id : SandboxId) → IsCalm (cleanup_cgroup host id)
unfolding cleanup_cgroup
cleanup_cgroup-IsCalm host id = search (calm_rules, retry_removal-IsCalm) depth 10
