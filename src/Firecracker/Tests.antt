-- ===== src/Firecracker/Tests.antt =====
-- A machine that the runtime of crates/ferrobox-node/src/firecracker_runtime.rs can run on, and what
-- the theorems say of it.
use ferrobox.Firecracker.Host.{
  Call, FirecrackerConfig, FirecrackerRuntime, FirecrackerSandbox, History, Host, NetworkLease,
  Reply, SnapshotArtifact, TemplateAssets, api_version, code_unavailable, create_network, done,
  finalize, guest_outcome, init_guest, is_done, leased, published, read_token, spawn_jailer, speaks,
  status, told, verdict, verify_artifact,
}
use ferrobox.Firecracker.Streams.Relay.{output_of, relayed_output_lem, sent}
use ferrobox.Firecracker.Streams.{ProcessExit, result_of, termination_of}
use ferrobox.Firecracker.Boot.Arrival.{IsComing, initialize_guest_lem, tries}
use ferrobox.Firecracker.Steps.{
  on_failure, branch, refuse_if, modify, gets, lift, attempt, raise, pure, ask, expect, ◌>>=◌, ◌>>◌,
}
use ferrobox.Firecracker.Launch.{
  launch, launch_inner, run_machine, boot, spawn, create_lease, prepare_jail, start_machine,
  identify,
}
use ferrobox.Firecracker.Boot.{
  configure_and_start, initialize_guest, is_current, is_speaking, poll_api, poll_guest, poll_socket,
  rekey_connected_guest, rekey_guest, wait_for_api, wait_for_guest, wait_for_socket,
}
use ferrobox.Firecracker.Snapshots.{clone_loop, create_from_artifact, open_artifact, clone_snapshot}
use ferrobox.Firecracker.Cleanup.{jail_root}
use ferrobox.Core.Spec.{SandboxId, SandboxSpec, internet, new_process_id, validate_spec}
use ferrobox.Guest.Output.{Turn, count, forward, fresh_readers, stderr, stdout, take_turns}
use ferrobox.Firecracker.Host.Inventory.{is_live, was_spawned}
use ferrobox.Firecracker.Snapshots.Clones.{IsTracked}
use ferrobox.Core.State.{running}
use ferrobox.Firecracker.Snapshots.AllOrNothing.{AllOrNothing, clone_snapshot_lem}
use ferrobox.Core.Exec.{ExecResult, SnapshotHandle}
use ferrobox.Prelude.{
  ℕ, ◌+◌, ◌≤◌, ◌<◌, ◌≡◌, refl, inl, inr, true, false, none, some, List, [], ◌∷◌, arith, leb,
  if◌then◌else◌, Bool-cases, length, is_ok, codes, lookup, remove, insert, ok,
}

abbrev test_config : FirecrackerConfig
test_config = record {
  firecracker_binary = codes "usr" ∷ codes "firecracker" ∷ [];
  kernel_image = codes "kernel" ∷ [];
  rootfs_template = codes "rootfs" ∷ [];
  has_template_store = false;
  snapshot_root = none;
  chroot_base = codes "srv" ∷ codes "jail" ∷ [];
  node_id = codes "node";
}

abbrev test_spec : SandboxSpec
test_spec = record {
  template_id = codes "python";
  cpu_count = 1;
  memory_mb = 512;
  timeout_seconds = 60;
  network = internet;
}

abbrev test_handle : SnapshotHandle
test_handle = record {
  snapshot_id = 5;
  source_sandbox_id = 7;
  name = none;
  created_at_unix_ms = 1;
  source_state = running;
  spec = test_spec;
  size_bytes = 10;
  digest_sha256 = codes "00";
}

abbrev test_artifact : SnapshotArtifact
test_artifact = record { artifact_root = codes "snapshots" ∷ codes "5" ∷ []; handle = test_handle }

abbrev test_lease : NetworkLease
test_lease = record {
  namespace = codes "fb-1";
  namespace_path = codes "run" ∷ [];
  tap_name = codes "tap";
  guest_mac = codes "mac";
  guest_address = codes "10.200.40.2";
  gateway = codes "10.200.40.1";
  dns_ipv4 = codes "10.200.40.1";
}

-- Every call goes through.
abbrev answers : History → Call → Reply
answers h (api_version id) = speaks (codes "1.15.1")
answers h (create_network id mode) = leased test_lease
answers h (verify_artifact artifact) =
    verdict (record { snapshot_id = 5; valid = true; checked_artifacts = 3; failure = none })
answers h (read_token artifact) = told (codes "token")
answers h (finalize id) = published test_artifact
answers h _ = done

abbrev above_call : Call → ℕ → ℕ
above_call (spawn_jailer id memory cpu path) n = id + 1 + n
above_call _ n = n

-- A number above all identifiers of machines.
unfoldable above : History → ℕ
above [] = 8
above ((call, reply) ∷ h) = above_call call (above h)

spawned-below : (j : SandboxId) (h : History) → was_spawned j h ≡ true → j < above h
unfolding above was_spawned
spawned-below j [] spawned = absurd (ground arith)
spawned-below j ((call, reply) ∷ h) spawned = ground (arith, spawned-below j h)

above-unspawned : (h : History) → was_spawned (above h) h ≡ false
above-unspawned h = elim (Bool-cases (was_spawned (above h) h)) [
  | inr out ↦ out
  | inl spawned ↦ absurd (omega (arith, spawned-below (above h) h spawned))
]

abbrev test_host : Host
test_host = record {
  reply = answers;
  rounds = λ h. 3;
  fresh_id = above;
  fresh_token = λ h. codes "fresh";
  name_of = λ n. codes "name";
}

abbrev test_box : FirecrackerSandbox
test_box = record {
  jailer_id = 7;
  state = running;
  spec = test_spec;
  guest_token = codes "secret";
  chroot_root = codes "srv" ∷ codes "jail" ∷ codes "firecracker" ∷ codes "7" ∷ codes "root" ∷ [];
  network = none;
}

abbrev start : FirecrackerRuntime
start = record {
  sandboxes = (7, test_box) ∷ [];
  snapshots = (5, test_artifact) ∷ [];
  ready_pool = [];
  calls = (spawn_jailer 7 1 1 none, done) ∷ [];
}

start-IsTracked : IsTracked start
unfolding lookup was_spawned
start-IsTracked j box found = ground arith

-- On this machine two clones are made, with a machine each, beside the one that ran.
two_clones :
    let (answer, t) = clone_snapshot test_config test_host 5 2 start in
    (is_ok answer ≡ true) × (length t.sandboxes ≡ 3) × (is_live 7 t.calls ≡ true)
unfolding clone_snapshot clone_loop create_from_artifact launch launch_inner run_machine boot spawn
    create_lease prepare_jail open_artifact start_machine identify rekey_guest rekey_connected_guest
    wait_for_socket poll_socket wait_for_api poll_api wait_for_guest poll_guest configure_and_start
    jail_root validate_spec guest_outcome is_done is_speaking is_current on_failure branch refuse_if
    modify gets lift attempt raise pure ask expect ◌>>=◌ ◌>>◌ lookup insert remove is_live above
two_clones = (refl, refl, refl)

clone_snapshot_lem_example : AllOrNothing 5 2 start (clone_snapshot test_config test_host 5 2 start)
clone_snapshot_lem_example =
    clone_snapshot_lem test_config test_host 5 2 start above-unspawned start-IsTracked

abbrev test_assets : TemplateAssets
test_assets = record { kernel = codes "kernel" ∷ []; rootfs = codes "rootfs" ∷ [] }

-- A host whose guest puts its identity off twice.
abbrev slow_answers : History → Call → Reply
slow_answers h (init_guest jail id token network) =
    if leb 2 (tries 1 h) then done else status code_unavailable
slow_answers h _ = done

abbrev slow_host : Host
slow_host = record test_host { reply = slow_answers }

slow-IsComing : IsComing slow_host 1 2
unfolding is_done
slow-IsComing = record {
  awake = λ h. refl;
  patient = λ h. omega arith;
  puts_off = λ h token network early. ground arith;
  takes = λ h token network ready. ground arith;
}

initialize_guest_lem_example : (initialize_guest slow_host 1 (codes "token") none start).0 ≡ ok tt
initialize_guest_lem_example =
    initialize_guest_lem slow_host 1 2 (codes "token") none start slow-IsComing (omega arith)

abbrev test_exit : ProcessExit
test_exit = record {
  exit_code = some 0;
  signal = none;
  timed_out = false;
  output_limit_exceeded = false;
  stdout_truncated = false;
  stderr_truncated = false;
}

abbrev test_turns : List Turn
test_turns =
    count stdout (104 ∷ 105 ∷ []) ∷ count stderr (33 ∷ []) ∷ forward stderr ∷ forward stdout ∷ []

process_is_valid : new_process_id (codes "p1") ≡ ok (codes "p1")
unfolding new_process_id
process_is_valid = refl

relayed_output_lem_example :
    let events = (take_turns 2 test_turns fresh_readers).progress.events in
    (result : ExecResult) × (result_of (sent (codes "p1") events test_exit) ≡ ok result)
    × (result.process_id ≡ codes "p1")
    × (result.termination ≡ termination_of test_exit)
    × (result.truncation.stdout ≡ false)
    × (result.truncation.stderr ≡ false)
    × (result.stdout ≡ output_of stdout events)
    × (result.stderr ≡ output_of stderr events)
    × (length result.stdout + length result.stderr ≤ 2)
relayed_output_lem_example =
    relayed_output_lem 2 test_turns (codes "p1") test_exit (omega arith) process_is_valid
