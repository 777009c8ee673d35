-- ===== src/Firecracker/Boot/Steady.antt =====
-- What the start of a machine in crates/ferrobox-node/src/firecracker_runtime.rs leaves alone.
use ferrobox.Firecracker.Steps.Calm.{IsCalm, bind-IsCalm, branch-IsCalm, calm_rules, pure-IsCalm}
use ferrobox.Process.Disk.{HostPath}
use ferrobox.Firecracker.Boot.{
  attach_network, configure_and_start, initialize_guest, poll_api, poll_guest, poll_init,
  poll_socket, rekey_connected_guest, rekey_guest, wait_for_api, wait_for_guest, wait_for_socket,
}
use ferrobox.Core.Spec.{SandboxId, SandboxSpec}
use ferrobox.Prelude.{ℕ, zero, suc, Option, none, some, Text}
use ferrobox.Firecracker.Host.{GuestNetworkConfig, Host, NetworkLease}

module _ (host : Host) where
  attach_network-IsCalm :
      (id : SandboxId) (network : Option NetworkLease) → IsCalm (attach_network host id network)
  attach_network-IsCalm id none = search calm_rules
  attach_network-IsCalm id (some lease) = search calm_rules

  pub configure_and_start-IsCalm :
      (id : SandboxId) (spec : SandboxSpec) (network : Option NetworkLease)
      → IsCalm (configure_and_start host id spec network)
  unfolding configure_and_start
  configure_and_start-IsCalm id spec network = search (calm_rules, attach_network-IsCalm) depth 20

  poll_socket-IsCalm : (n : ℕ) (path : HostPath) → IsCalm (poll_socket host n path)
  unfolding poll_socket
  poll_socket-IsCalm zero path = search calm_rules
  poll_socket-IsCalm (suc n) path = let rest = poll_socket-IsCalm n path in search calm_rules

  pub wait_for_socket-IsCalm : (path : HostPath) → IsCalm (wait_for_socket host path)
  unfolding wait_for_socket
  wait_for_socket-IsCalm path = search (calm_rules, poll_socket-IsCalm)

  poll_api-IsCalm : (n : ℕ) (id : SandboxId) → IsCalm (poll_api host n id)
  unfolding poll_api
  poll_api-IsCalm zero id = search calm_rules
  poll_api-IsCalm (suc n) id = let rest = poll_api-IsCalm n id in search calm_rules

  pub wait_for_api-IsCalm : (id : SandboxId) → IsCalm (wait_for_api host id)
  unfolding wait_for_api
  wait_for_api-IsCalm id = search (calm_rules, poll_api-IsCalm)

  poll_guest-IsCalm : (n : ℕ) (id : SandboxId) → IsCalm (poll_guest host n id)
  unfolding poll_guest
  poll_guest-IsCalm zero id = search calm_rules
  poll_guest-IsCalm (suc n) id = let rest = poll_guest-IsCalm n id in search calm_rules

  pub wait_for_guest-IsCalm : (id : SandboxId) → IsCalm (wait_for_guest host id)
  unfolding wait_for_guest
  wait_for_guest-IsCalm id = search (calm_rules, poll_guest-IsCalm)

  poll_init-IsCalm :
      (n : ℕ) (id : SandboxId) (token : Text) (network : GuestNetworkConfig)
      → IsCalm (poll_init host n id token network)
  unfolding poll_init
  poll_init-IsCalm zero id token network = search calm_rules
  poll_init-IsCalm (suc n) id token network =
      let rest = poll_init-IsCalm n id token network in
      search (calm_rules, wait_for_guest-IsCalm) depth 10

  pub initialize_guest-IsCalm :
      (id : SandboxId) (token : Text) (network : Option NetworkLease)
      → IsCalm (initialize_guest host id token network)
  unfolding initialize_guest
  initialize_guest-IsCalm id token network = search (calm_rules, poll_init-IsCalm)

  pub rekey_connected_guest-IsCalm :
      (jail id : SandboxId) (previous token : Text) (network : GuestNetworkConfig)
      → IsCalm (rekey_connected_guest host jail id previous token network)
  unfolding rekey_connected_guest
  rekey_connected_guest-IsCalm jail id previous token network = search calm_rules

  pub rekey_guest-IsCalm :
      (id : SandboxId) (previous token : Text) (network : Option NetworkLease)
      → IsCalm (rekey_guest host id previous token network)
  unfolding rekey_guest
  rekey_guest-IsCalm id previous token network =
      search (calm_rules, wait_for_guest-IsCalm, rekey_connected_guest-IsCalm)

  pub ruleset boot_rules = (
    calm_rules, configure_and_start-IsCalm, wait_for_socket-IsCalm, wait_for_api-IsCalm,
    wait_for_guest-IsCalm, initialize_guest-IsCalm, rekey_connected_guest-IsCalm,
    rekey_guest-IsCalm,
  )
