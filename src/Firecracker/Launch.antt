-- ===== src/Firecracker/Launch.antt =====
-- The launch of a machine in crates/ferrobox-node/src/firecracker_runtime.rs, from its files to the
-- entry in the table.
pub mod Steady
pub mod Outcomes
pub mod Machines
pub mod Undone
use ferrobox.Core.State.{running}
use ferrobox.Core.Exec.{SandboxHandle}
use ferrobox.Firecracker.Cleanup.{cleanup_cgroup, cleanup_chroot, jail_root, release_network}
use ferrobox.Firecracker.Boot.{
  configure_and_start, initialize_guest, load_snapshot, put, rekey_guest, wait_for_api,
  wait_for_guest, wait_for_socket,
}
use ferrobox.Core.Error.{internal, invalid}
use ferrobox.Process.Disk.{HostPath}
use ferrobox.Prelude.{
  ℕ, zero, suc, ◌+◌, ◌-◌, ◌*◌, ◌/◌, ◌%◌, ◌^◌, ◌≤◌, ◌<◌, min, ◌≡◌, refl, sym, ap, ◌∙◌, ◌≢◌, ◌↔◌, ◌⊎◌,
  inl, inr, Bool, true, false, not, ◌&&◌, ◌||◌, Option, none, some, List, [], ◌∷◌, ◌++◌, map, arith,
  ltb, leb, ◌==◌, in_range, if◌then◌else◌, ==_iff, ltb_iff, leb_iff, Bool-cases, Option-cases,
  length, is_empty, is_empty-eq-false_iff, all, any, get_elem?, get_or, take, drop, length-append,
  length-take, length-drop, drop_add, take-append-drop, take_of_length-le, All, All-append, all_iff,
  any-eq-false_iff, all-append, any-append, Result, reject_if, ok_or, map_err, is_ok, >>=-eq-ok,
  Result-cases, Text, Bytes, codes, utf8_char, bytes, byte_len, text_eq, text_eq_iff,
  is_ascii_alphanumeric, is_control, is_whitespace, trim_start_while, trim, strip_prefix,
  starts_with, push_front, split, to_ascii_lower, all-bytes, bytes_of_ascii, has_nul,
  has_nul-eq-false_iff, strip_prefix-append, strip_prefix-eq-some, Table, lookup, remove, insert,
  lookup-remove, lookup-insert, ok, err,
}
use ferrobox.Firecracker.Host.{
  FirecrackerConfig, Host, NetworkLease, Reply, RestoreAssets, TemplateAssets, change_mode,
  change_owner, clone_asset, clone_disk, copy_file, create_folder, create_network,
  create_vm_snapshot, is_done, kill, leased, mark_ready, refused, set_vm_state, spawn_jailer,
  vm_paused, vm_resumed,
}
use ferrobox.Core.Spec.{NetworkMode, SandboxId, SandboxSpec, disabled, internet, validate_spec}
use ferrobox.Firecracker.Steps.{
  Firecracker, ask, attempt, on_failure, branch, expect, gets, lift, modify, pure, raise, refuse_if,
  ◌>>=◌, ◌>>◌,
}

-- `is_absolute` holds of every path here. What `clone_rootfs` and `clone_readonly_asset` do in the end
-- is one call, and refused if both paths are the same.
abbrev pub kernel_path : HostPath → HostPath
kernel_path root = root ++ codes "kernel" ∷ codes "vmlinux" ∷ []

abbrev pub rootfs_path : HostPath → HostPath
rootfs_path root = root ++ codes "images" ∷ codes "rootfs.ext4" ∷ []

abbrev pub run_path : HostPath → HostPath
run_path root = root ++ codes "run" ∷ []

abbrev pub jail_snapshot_path : HostPath → HostPath
jail_snapshot_path root = root ++ codes "snapshot" ∷ []

abbrev pub join : HostPath → Text → HostPath
join path name = path ++ name ∷ []

-- The files that a launch restores from, if it restores.
abbrev pub rootfs_source : TemplateAssets → Option RestoreAssets → HostPath
rootfs_source assets none = assets.rootfs
rootfs_source assets (some restore) = restore.rootfs_path

abbrev pub captured_token : Option RestoreAssets → Option Text
captured_token none = none
captured_token (some restore) = restore.captured_guest_token

-- `spec.network == NetworkMode::Disabled`
abbrev pub is_disabled : NetworkMode → Bool
is_disabled disabled = true
is_disabled internet = false

-- Whether the ready pool and the prepared snapshot are for this sandbox.
unfoldable pub is_snapshot_compatible : SandboxSpec → Bool
is_snapshot_compatible spec =
    text_eq spec.template_id (codes "python")
    && spec.cpu_count == 1
    && spec.memory_mb == 512
    && is_disabled spec.network

abbrev pub memory_limit : SandboxSpec → ℕ
memory_limit spec = (spec.memory_mb + 128) % 2 ^ 32 * 1024 * 1024

abbrev pub cpu_limit : SandboxSpec → ℕ
cpu_limit spec = spec.cpu_count * 100000

abbrev pub namespace_of : Option NetworkLease → Option HostPath
namespace_of none = none
namespace_of (some lease) = some lease.namespace_path

module _ (host : Host) where
  abbrev pub clone_saved : HostPath → Option RestoreAssets → Firecracker (Unit {0})
  clone_saved root none = pure tt
  clone_saved root (some restore) = do
    expect host internal
        (clone_asset restore.vmstate_path (join (jail_snapshot_path root) (codes "vmstate")))
    expect host internal
        (clone_asset restore.memory_path (join (jail_snapshot_path root) (codes "memory")))

  -- The files of the jail.
  unfoldable pub prepare_jail :
      HostPath → TemplateAssets → Option RestoreAssets → Firecracker (Unit {0})
  prepare_jail root assets restore = do
    expect host internal (create_folder (join root (codes "kernel")))
    expect host internal (create_folder (join root (codes "images")))
    expect host internal (create_folder (run_path root))
    expect host internal (create_folder (jail_snapshot_path root))
    expect host internal (clone_asset assets.kernel (kernel_path root))
    expect host internal (clone_disk (rootfs_source assets restore) (rootfs_path root))
    clone_saved root restore
    expect host internal (change_mode (rootfs_path root ∷ []))
    expect host internal
        (change_owner (rootfs_path root ∷ run_path root ∷ jail_snapshot_path root ∷ []))

  -- `NetworkManager::create`
  abbrev pub take_lease : Reply → Firecracker (Option NetworkLease)
  take_lease (leased lease) = pure (some lease)
  take_lease (refused e) = raise e
  take_lease _ = raise internal

  unfoldable pub create_lease : SandboxId → NetworkMode → Firecracker (Option NetworkLease)
  create_lease id disabled = pure none
  create_lease id internet = do reply ← ask host (create_network id internet); take_lease reply

  -- What a launch takes back when a step fails that comes after the start of the process.
  unfoldable pub reclaim : SandboxId → Option NetworkLease → Firecracker (Unit {0})
  reclaim id network = do killed ← ask host (kill id); release_network host network

  -- The start of the jailer.
  unfoldable pub spawn : SandboxId → SandboxSpec → Option NetworkLease → Firecracker (Unit {0})
  spawn id spec network = do
    reply ← ask host (spawn_jailer id (memory_limit spec) (cpu_limit spec) (namespace_of network))
    branch (is_done reply) (pure tt)
        (do released ← attempt (release_network host network); raise internal)

  -- `capture_snapshot`: the mark is written last.
  unfoldable pub capture_snapshot : Option HostPath → SandboxId → HostPath → Firecracker (Unit {0})
  capture_snapshot none id root = pure tt
  capture_snapshot (some snapshots) id root = do
    put host id (set_vm_state vm_paused)
    put host id (
        create_vm_snapshot (codes "snapshot" ∷ codes "vmstate" ∷ [])
          (codes "snapshot" ∷ codes "memory" ∷ []))
    expect host internal (create_folder snapshots)
    expect host internal (
        copy_file (join (jail_snapshot_path root) (codes "vmstate"))
          (join snapshots (codes "vmstate")))
    expect host internal (
        copy_file (join (jail_snapshot_path root) (codes "memory"))
          (join snapshots (codes "memory")))
    expect host internal
        (change_mode (join snapshots (codes "vmstate") ∷ join snapshots (codes "memory") ∷ []))
    expect host internal (clone_disk (rootfs_path root) (join snapshots (codes "rootfs.ext4")))
    expect host internal (mark_ready (join snapshots (codes "READY")))
    put host id (set_vm_state vm_resumed)

module _ (config : FirecrackerConfig) (host : Host) where
  unfoldable pub start_machine :
      SandboxId → SandboxSpec → Option RestoreAssets → Option NetworkLease → Firecracker (Unit {0})
  start_machine id spec none network = configure_and_start host id spec network
  start_machine id spec (some restore) network = load_snapshot host id

  abbrev pub identify_with :
      SandboxId → Option Text → Text → Option NetworkLease → Firecracker (Unit {0})
  identify_with id none token network = initialize_guest host id token network
  identify_with id (some previous) token network = rekey_guest host id previous token network

  -- How the guest gets its identity: by `init`, or by a new key if its memory was captured.
  unfoldable pub identify :
      SandboxId → Option RestoreAssets → Text → Option NetworkLease → Firecracker (Unit {0})
  identify id restore token network = identify_with id (captured_token restore) token network

  -- From the start of the process to a guest that knows who it is, with the guest's token.
  unfoldable pub boot :
      SandboxId
      → SandboxSpec
      → HostPath
      → Option RestoreAssets
      → Bool
      → Option NetworkLease
      → Firecracker Text
  boot id spec root restore capture network = do
    wait_for_socket host (join (run_path root) (codes "firecracker.socket"))
    wait_for_api host id
    start_machine id spec restore network
    branch capture (do wait_for_guest host id; capture_snapshot host config.snapshot_root id root)
        (pure tt)
    token ← gets (λ s. host.fresh_token s.calls)
    identify id restore token network
    pure token

  -- The part of `launch_inner` from the start of the process to the entry in the table.
  unfoldable pub run_machine :
      SandboxSpec
      → SandboxId
      → HostPath
      → Option RestoreAssets
      → Bool
      → Option NetworkLease
      → Firecracker SandboxHandle
  run_machine spec id root restore capture network = do
    spawn host id spec network
    token ← on_failure (reclaim host id network) (boot id spec root restore capture network)
    modify (λ s. record s {
      sandboxes =
          insert id
            (record {
              jailer_id = id;
              state = running;
              spec = spec;
              guest_token = token;
              chroot_root = root;
              network = network;
            })
            s.sandboxes;
    })
    pure (record { sandbox_id = id; node_id = config.node_id; state = running })

  unfoldable pub launch_inner :
      SandboxSpec
      → SandboxId
      → TemplateAssets
      → Option RestoreAssets
      → Bool
      → Firecracker SandboxHandle
  launch_inner spec id assets restore capture = do
    lift (map_err invalid (validate_spec spec))
    root ← lift (jail_root config host id)
    prepare_jail host root assets restore
    network ← create_lease host id spec.network
    run_machine spec id root restore capture network

  -- What is left of a failed launch goes: the jail and the control group.
  unfoldable pub clean_jail : SandboxId → HostPath → Firecracker (Unit {0})
  clean_jail id root = do jail ← attempt (cleanup_chroot config host root); cleanup_cgroup host id

  unfoldable pub launch :
      SandboxSpec
      → SandboxId
      → TemplateAssets
      → Option RestoreAssets
      → Bool
      → Firecracker SandboxHandle
  launch spec id assets restore capture = do
    root ← lift (jail_root config host id)
    on_failure (clean_jail id root) (launch_inner spec id assets restore capture)
