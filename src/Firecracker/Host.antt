-- ===== src/Firecracker/Host.antt =====
-- What crates/ferrobox-node/src/firecracker_runtime.rs asks of the machine, of the Firecracker
-- process and of the guest in it, with the answers, and the state that the runtime keeps.
pub mod Inventory
use ferrobox.Core.State.{SandboxState}
use ferrobox.Core.Exec.{SandboxHandle, SnapshotHandle, SnapshotVerification}
use ferrobox.Core.Error.{
  RuntimeError, invalid_input, not_found, resource_exhausted, timeout, unauthorized, unavailable,
}
use ferrobox.Core.Spec.{NetworkMode, SandboxId, SandboxSpec, SnapshotId}
use ferrobox.Process.Disk.{HostPath}
use ferrobox.Prelude.{
  ℕ, zero, suc, ◌+◌, ◌-◌, ◌*◌, ◌/◌, ◌%◌, ◌^◌, ◌≤◌, ◌<◌, min, ◌≡◌, refl, sym, ap, ◌∙◌, ◌≢◌, ◌↔◌, ◌⊎◌,
  inl, inr, Bool, true, false, not, ◌&&◌, ◌||◌, Option, none, some, List, [], ◌∷◌, ◌++◌, map, arith,
  ltb, leb, ◌==◌, in_range, if◌then◌else◌, ==_iff, ltb_iff, leb_iff, Bool-cases, Option-cases,
  length, is_empty, is_empty-eq-false_iff, all, any, get_elem?, get_or, take, drop, length-append,
  length-take, length-drop, drop_add, take-append-drop, take_of_length-le, All, All-append, all_iff,
  any-eq-false_iff, all-append, any-append, Result, reject_if, ok_or, map_err, is_ok, >>=-eq-ok,
  Result-cases, Text, Bytes, codes, utf8_char, bytes, byte_len, text_eq, text_eq_iff,
  is_ascii_alphanumeric, is_control, is_whitespace, trim_start_while, trim, strip_prefix,
  starts_with, push_front, split, to_ascii_lower, all-bytes, bytes_of_ascii, has_nul,
  has_nul-eq-false_iff, strip_prefix-append, strip_prefix-eq-some, Table, lookup, remove, insert,
  lookup-remove, lookup-insert, ok, err,
}

-- `NetworkLease` of crates/ferrobox-node/src/network.rs, as far as the runtime reads it.
pub record NetworkLease : Type 0 where
  pub namespace : Text
  pub namespace_path : HostPath
  pub tap_name : Text
  pub guest_mac : Text
  pub guest_address : Text
  pub gateway : Text
  pub dns_ipv4 : Text

-- `GuestNetworkConfig`
pub record GuestNetworkConfig : Type 0 where
  pub guest_ipv4 : Text
  pub guest_prefix_length : ℕ
  pub gateway_ipv4 : Text
  pub dns_ipv4 : Text

unfoldable pub from_lease : Option NetworkLease → GuestNetworkConfig
from_lease none = record {
  guest_ipv4 = [];
  guest_prefix_length = 0;
  gateway_ipv4 = [];
  dns_ipv4 = [];
}
from_lease (some lease) = record {
  guest_ipv4 = lease.guest_address;
  guest_prefix_length = 24;
  gateway_ipv4 = lease.gateway;
  dns_ipv4 = lease.dns_ipv4;
}

-- `VmStateValue`
pub data VmState : Type 0 where
  vm_paused vm_resumed : VmState

-- The bodies that the runtime sends to the socket of the Firecracker process.
pub data ApiRequest : Type 0 where
  machine_config : ℕ → ℕ → ApiRequest
  boot_source root_drive : ApiRequest
  network_interface : Text → Text → ApiRequest
  vsock_device : ℕ → ApiRequest
  instance_start send_ctrl_alt_del load_snapshot_files : ApiRequest
  set_vm_state : VmState → ApiRequest
  create_vm_snapshot : HostPath → HostPath → ApiRequest

-- `RestoreAssets`
pub record RestoreAssets : Type 0 where
  pub vmstate_path : HostPath
  pub memory_path : HostPath
  pub rootfs_path : HostPath
  pub captured_guest_token : Option Text

-- `RuntimeTemplateAssets`
pub record TemplateAssets : Type 0 where
  pub kernel : HostPath
  pub rootfs : HostPath

-- What the snapshot store is asked to stage.
pub record StageRequest : Type 0 where
  pub snapshot_id : SnapshotId
  pub source_sandbox_id : SandboxId
  pub name : Option Text
  pub source_state : SandboxState
  pub spec : SandboxSpec
  pub vmstate_path : HostPath
  pub memory_path : HostPath
  pub rootfs_path : HostPath
  pub restore_token : Text

-- `SnapshotArtifact`, as far as the runtime reads it.
pub record SnapshotArtifact : Type 0 where
  pub artifact_root : HostPath
  pub handle : SnapshotHandle

-- A Firecracker process and its guest are named by the identifier of their jail. Of the arguments of
-- the jailer, those that are the same for every machine are left out, `--new-pid-ns` among them: what
-- is awaited and killed is the jailer process, and the machine stands in its control group.
pub data Call : Type 0 where
  create_folder probe remove_tree remove_folder remove_file mark_ready : HostPath → Call
  clone_asset clone_disk copy_file : HostPath → HostPath → Call
  change_mode change_owner : List HostPath → Call
  read_version_mark : HostPath → Call
  kill_cgroup : HostPath → Call
  create_network : SandboxId → NetworkMode → Call
  delete_network : NetworkLease → Call
  spawn_jailer : SandboxId → ℕ → ℕ → Option HostPath → Call
  await_exit kill : SandboxId → Call
  api : SandboxId → ApiRequest → Call
  api_version health : SandboxId → Call
  init_guest : SandboxId → SandboxId → Text → GuestNetworkConfig → Call
  rekey_guest_call : SandboxId → SandboxId → Text → Text → GuestNetworkConfig → Call
  stage : StageRequest → Call
  finalize discard : SnapshotId → Call
  verify_artifact read_token delete_artifact : SnapshotArtifact → Call
  resolve_reference : Text → Call

-- `tonic::Code`, with the codes that the runtime does not tell apart in one.
pub data Code : Type 0 where
  code_not_found code_invalid_argument code_unauthenticated code_permission_denied : Code
  code_resource_exhausted code_deadline_exceeded code_unavailable code_other : Code

pub data Reply : Type 0 where
  done absent broken : Reply
  status : Code → Reply
  refused : RuntimeError → Reply
  leased : NetworkLease → Reply
  speaks : Text → Reply
  told : Text → Reply
  verdict : SnapshotVerification → Reply
  published : SnapshotArtifact → Reply
  resolved : Text → TemplateAssets → Reply

-- The calls made and what they were answered, the latest first.
abbrev pub History : Type 0
History = List (Call × Reply)

-- What the runtime cannot decide: the answer to a call after the calls before it, how often a loop
-- that waits goes round before its time is over, and what `Uuid` draws.
pub record Host : Type 0 where
  pub reply : History → Call → Reply
  pub rounds : History → ℕ
  pub fresh_id : History → ℕ
  pub fresh_token : History → Text
  pub name_of : ℕ → Text

-- `FirecrackerRuntimeConfig`, without the times, which `rounds` stands for.
pub record FirecrackerConfig : Type 0 where
  pub firecracker_binary : HostPath
  pub kernel_image : HostPath
  pub rootfs_template : HostPath
  pub has_template_store : Bool
  pub snapshot_root : Option HostPath
  pub chroot_base : HostPath
  pub node_id : Text

-- `FirecrackerSandbox`; its child, its API client and its guest client are those of the jail.
pub record FirecrackerSandbox : Type 0 where
  pub jailer_id : SandboxId
  pub state : SandboxState
  pub spec : SandboxSpec
  pub guest_token : Text
  pub chroot_root : HostPath
  pub network : Option NetworkLease

-- `FirecrackerRuntime`, with the calls that it has made.
pub record FirecrackerRuntime : Type 0 where
  pub sandboxes : Table FirecrackerSandbox
  pub snapshots : Table SnapshotArtifact
  pub ready_pool : List SandboxHandle
  pub calls : History

-- `fc_error` and `guest_error`
abbrev pub fc_error : RuntimeError
fc_error = unavailable

unfoldable pub guest_error : Code → RuntimeError
guest_error code_not_found = not_found
guest_error code_invalid_argument = invalid_input
guest_error code_unauthenticated = unauthorized
guest_error code_permission_denied = unauthorized
guest_error code_resource_exhausted = resource_exhausted
guest_error code_deadline_exceeded = timeout
guest_error _ = unavailable

-- The outcome of a call to the guest.
unfoldable pub guest_outcome : Reply → Result RuntimeError (Unit {0})
guest_outcome done = ok tt
guest_outcome (status code) = err (guest_error code)
guest_outcome _ = err unavailable

unfoldable pub is_done : Reply → Bool
is_done done = true
is_done _ = false
