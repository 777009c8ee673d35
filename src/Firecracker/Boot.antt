-- ===== src/Firecracker/Boot.antt =====
-- How crates/ferrobox-node/src/firecracker_runtime.rs waits for a machine that it has started, tells
-- it what to run, and gives the guest in it its identity. Each loop that waits is given the rounds
-- that its clock allows.
pub mod Steady
pub mod Arrival
use ferrobox.Core.Error.{timeout, unavailable}
use ferrobox.Firecracker.Host.{
  ApiRequest, FirecrackerSandbox, GuestNetworkConfig, Host, NetworkLease, Reply, absent, api,
  api_version, boot_source, code_unavailable, done, fc_error, from_lease, guest_outcome, health,
  init_guest, instance_start, is_done, load_snapshot_files, machine_config, network_interface,
  probe, rekey_guest_call, root_drive, speaks, status, vsock_device,
}
use ferrobox.Core.Spec.{SandboxId, SandboxSpec}
use ferrobox.Prelude.{
  ℕ, zero, suc, ◌+◌, ◌-◌, ◌*◌, ◌/◌, ◌%◌, ◌^◌, ◌≤◌, ◌<◌, min, ◌≡◌, refl, sym, ap, ◌∙◌, ◌≢◌, ◌↔◌, ◌⊎◌,
  inl, inr, Bool, true, false, not, ◌&&◌, ◌||◌, Option, none, some, List, [], ◌∷◌, ◌++◌, map, arith,
  ltb, leb, ◌==◌, in_range, if◌then◌else◌, ==_iff, ltb_iff, leb_iff, Bool-cases, Option-cases,
  length, is_empty, is_empty-eq-false_iff, all, any, get_elem?, get_or, take, drop, length-append,
  length-take, length-drop, drop_add, take-append-drop, take_of_length-le, All, All-append, all_iff,
  any-eq-false_iff, all-append, any-append, Result, reject_if, ok_or, map_err, is_ok, >>=-eq-ok,
  Result-cases, Text, Bytes, codes, utf8_char, bytes, byte_len, text_eq, text_eq_iff,
  is_ascii_alphanumeric, is_control, is_whitespace, trim_start_while, trim, strip_prefix,
  starts_with, push_front, split, to_ascii_lower, all-bytes, bytes_of_ascii, has_nul,
  has_nul-eq-false_iff, strip_prefix-append, strip_prefix-eq-some, Table, lookup, remove, insert,
  lookup-remove, lookup-insert, ok, err,
}
use ferrobox.Process.Disk.{HostPath}
use ferrobox.Firecracker.Steps.{
  Firecracker, ask, attempt, branch, expect, gets, lift, modify, pure, raise, refuse_if, ◌>>=◌,
  ◌>>◌,
}

abbrev pub firecracker_version : Text
firecracker_version = codes "1.15.1"

-- `guest_cid`
unfoldable pub guest_cid : SandboxSpec → ℕ
guest_cid spec = 3 + spec.cpu_count * 2 ^ 8 + spec.memory_mb % 127

-- An answer to `/version`, and whether it names the version that the runtime is made for.
unfoldable pub is_speaking : Reply → Bool
is_speaking (speaks version) = true
is_speaking _ = false

unfoldable pub is_current : Reply → Bool
is_current (speaks version) = text_eq version firecracker_version
is_current _ = false

-- `error.code() == tonic::Code::Unavailable`
unfoldable pub is_unavailable : Reply → Bool
is_unavailable (status code_unavailable) = true
is_unavailable _ = false

module _ (host : Host) where
  -- The loop of `wait_for_socket`
  unfoldable pub poll_socket : ℕ → HostPath → Firecracker (Unit {0})
  poll_socket zero path = raise timeout
  poll_socket (suc n) path = do
    reply ← ask host (probe path)
    branch (is_done reply) (pure tt) (poll_socket n path)

  unfoldable pub wait_for_socket : HostPath → Firecracker (Unit {0})
  wait_for_socket path = do rounds ← gets (λ s. host.rounds s.calls); poll_socket rounds path

  -- The loop of `wait_for_api`: the wrong version ends it.
  unfoldable pub poll_api : ℕ → SandboxId → Firecracker (Unit {0})
  poll_api zero id = raise unavailable
  poll_api (suc n) id = do
    reply ← ask host (api_version id)
    branch (is_speaking reply) (refuse_if (not (is_current reply)) unavailable) (poll_api n id)

  unfoldable pub wait_for_api : SandboxId → Firecracker (Unit {0})
  wait_for_api id = do rounds ← gets (λ s. host.rounds s.calls); poll_api rounds id

  abbrev pub put : SandboxId → ApiRequest → Firecracker (Unit {0})
  put id request = expect host fc_error (api id request)

  abbrev pub attach_network : SandboxId → Option NetworkLease → Firecracker (Unit {0})
  attach_network id none = pure tt
  attach_network id (some lease) = put id (network_interface lease.tap_name lease.guest_mac)

  unfoldable pub configure_and_start :
      SandboxId → SandboxSpec → Option NetworkLease → Firecracker (Unit {0})
  configure_and_start id spec network = do
    put id (machine_config spec.cpu_count spec.memory_mb)
    put id boot_source
    put id root_drive
    attach_network id network
    put id (vsock_device (guest_cid spec))
    put id instance_start

  abbrev pub load_snapshot : SandboxId → Firecracker (Unit {0})
  load_snapshot id = put id load_snapshot_files

  -- The loop of `wait_for_guest`
  unfoldable pub poll_guest : ℕ → SandboxId → Firecracker (Unit {0})
  poll_guest zero id = raise timeout
  poll_guest (suc n) id = do
    reply ← ask host (health id)
    branch (is_done reply) (pure tt) (poll_guest n id)

  unfoldable pub wait_for_guest : SandboxId → Firecracker (Unit {0})
  wait_for_guest id = do rounds ← gets (λ s. host.rounds s.calls); poll_guest rounds id

  -- The loop of `initialize_guest`
  unfoldable pub poll_init : ℕ → SandboxId → Text → GuestNetworkConfig → Firecracker (Unit {0})
  poll_init zero id token network = raise timeout
  poll_init (suc n) id token network = do
    waited ← attempt (wait_for_guest id)
    branch (is_ok waited)
        (do
          reply ← ask host (init_guest id id token network)
          branch (is_done reply) (pure tt)
              (branch (is_unavailable reply) (poll_init n id token network) (raise unavailable)))
        (poll_init n id token network)

  unfoldable pub initialize_guest : SandboxId → Text → Option NetworkLease → Firecracker (Unit {0})
  initialize_guest id token network = do
    rounds ← gets (λ s. host.rounds s.calls)
    poll_init rounds id token (from_lease network)

  -- `rekey_connected_guest`: the guest in a jail is told that it is another sandbox now.
  unfoldable pub rekey_connected_guest :
      SandboxId → SandboxId → Text → Text → GuestNetworkConfig → Firecracker (Unit {0})
  rekey_connected_guest jail id previous token network = do
    reply ← ask host (rekey_guest_call jail id previous token network)
    lift (guest_outcome reply)

  unfoldable pub rekey_guest :
      SandboxId → Text → Text → Option NetworkLease → Firecracker (Unit {0})
  rekey_guest id previous token network = do
    wait_for_guest id
    rekey_connected_guest id id previous token (from_lease network)

  -- `reconnect_guest`
  abbrev pub reconnect_guest : FirecrackerSandbox → Firecracker (Unit {0})
  reconnect_guest box = wait_for_guest box.jailer_id
