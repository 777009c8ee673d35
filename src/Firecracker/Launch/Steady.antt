-- ===== src/Firecracker/Launch/Steady.antt =====
-- The parts of a launch in crates/ferrobox-node/src/firecracker_runtime.rs that neither start nor end
-- a machine.
use ferrobox.Firecracker.Boot.Steady.{boot_rules, initialize_guest-IsCalm, rekey_guest-IsCalm}
use ferrobox.Firecracker.Steps.Calm.{IsCalm, calm_rules}
use ferrobox.Core.Spec.{SandboxId, SandboxSpec}
use ferrobox.Firecracker.Launch.{
  boot, capture_snapshot, captured_token, clone_saved, identify, prepare_jail, start_machine,
}
use ferrobox.Process.Disk.{HostPath}
use ferrobox.Firecracker.Host.{FirecrackerConfig, Host, NetworkLease, RestoreAssets, TemplateAssets}
use ferrobox.Prelude.{inl, inr, Bool, Option, none, some, Option-cases, Text}

module _ (host : Host) where
  clone_saved-IsCalm :
      (root : HostPath) (restore : Option RestoreAssets) → IsCalm (clone_saved host root restore)
  clone_saved-IsCalm root none = search calm_rules
  clone_saved-IsCalm root (some restore) = search calm_rules

  pub prepare_jail-IsCalm :
      (root : HostPath) (assets : TemplateAssets) (restore : Option RestoreAssets)
      → IsCalm (prepare_jail host root assets restore)
  unfolding prepare_jail
  prepare_jail-IsCalm root assets restore = search (calm_rules, clone_saved-IsCalm) depth 20

  pub capture_snapshot-IsCalm :
      (snapshots : Option HostPath) (id : SandboxId) (root : HostPath)
      → IsCalm (capture_snapshot host snapshots id root)
  unfolding capture_snapshot
  capture_snapshot-IsCalm none id root = search calm_rules
  capture_snapshot-IsCalm (some snapshots) id root = search calm_rules depth 20

module _ (config : FirecrackerConfig) (host : Host) where
  start_machine-IsCalm :
      (id : SandboxId) (spec : SandboxSpec) (restore : Option RestoreAssets)
      (network : Option NetworkLease)
      → IsCalm (start_machine config host id spec restore network)
  unfolding start_machine
  start_machine-IsCalm id spec none network = search boot_rules
  start_machine-IsCalm id spec (some restore) network = search boot_rules

  identify-IsCalm :
      (id : SandboxId) (restore : Option RestoreAssets) (token : Text)
      (network : Option NetworkLease)
      → IsCalm (identify config host id restore token network)
  unfolding identify
  identify-IsCalm id restore token network = elim (Option-cases (captured_token restore)) [
    | inl e ↦ rw e (initialize_guest-IsCalm host id token network)
    | inr (previous, e) ↦ rw e (rekey_guest-IsCalm host id previous token network)
  ]

  pub boot-IsCalm :
      (id : SandboxId) (spec : SandboxSpec) (root : HostPath) (restore : Option RestoreAssets)
      (capture : Bool) (network : Option NetworkLease)
      → IsCalm (boot config host id spec root restore capture network)
  unfolding boot
  boot-IsCalm id spec root restore capture network =
      search (boot_rules, start_machine-IsCalm, capture_snapshot-IsCalm, identify-IsCalm) depth 20
