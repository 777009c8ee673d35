-- ===== src/Firecracker/Launch/Machines.antt =====
-- The end of `launch_inner` in crates/ferrobox-node/src/firecracker_runtime.rs, from the start of the
-- process on.
use ferrobox.Firecracker.Launch.Outcomes.{
  is_live-was_spawned, reclaim_lem, owns, spawn_reply, spawned_machine, spawned_state,
  unspawned_machine,
}
use ferrobox.Firecracker.Launch.Steady.{boot-IsCalm}
use ferrobox.Firecracker.Steps.Calm.{IsSteady}
use ferrobox.Firecracker.Host.Inventory.{is_held, is_live, was_spawned}
use ferrobox.Firecracker.Launch.{boot, run_machine, spawn}
use ferrobox.Core.State.{running}
use ferrobox.Core.Exec.{SandboxHandle}
use ferrobox.Process.Disk.{HostPath}
use ferrobox.Core.Error.{RuntimeError, internal}
use ferrobox.Core.Spec.{SandboxId, SandboxSpec}
use ferrobox.Firecracker.Host.{
  FirecrackerConfig, FirecrackerRuntime, FirecrackerSandbox, Host, NetworkLease, RestoreAssets,
  is_done,
}
use ferrobox.Prelude.{
  ◌≡◌, refl, ap, ◌∙◌, inl, inr, Bool, true, false, ◌||◌, Option, arith, ◌==◌, if◌then◌else◌,
  Bool-cases, Result, Text, insert, ok, err,
}
use ferrobox.Firecracker.Steps.{pure, on_failure, modify, ◌>>=◌, ◌>>◌}
use mathlib.Core.Path.{subst}

module _ (config : FirecrackerConfig) (spec : SandboxSpec) (id : SandboxId)
    (network : Option NetworkLease) (s : FirecrackerRuntime) where
  -- What the three tables and the history are after the start and the boot.
  abbrev pub RunEnds : Result RuntimeError SandboxHandle × FirecrackerRuntime → Type 0
  RunEnds (ok handle, t) =
      (handle ≡ record { sandbox_id = id; node_id = config.node_id; state = running })
      × (box : FirecrackerSandbox) × (box.jailer_id ≡ id)
      × (box.state ≡ running)
      × (box.spec ≡ spec)
      × (box.network ≡ network)
      × (t.sandboxes ≡ insert id box s.sandboxes)
      × (t.snapshots ≡ s.snapshots)
      × (t.ready_pool ≡ s.ready_pool)
      × ((j : SandboxId) → is_live j t.calls ≡ (if id == j then true else is_live j s.calls))
      × ((n : Text) → is_held n t.calls ≡ is_held n s.calls)
      × ((j : SandboxId) → was_spawned j t.calls ≡ (id == j || was_spawned j s.calls))
  RunEnds (err e, t) =
      (t.sandboxes ≡ s.sandboxes)
      × (t.snapshots ≡ s.snapshots)
      × (t.ready_pool ≡ s.ready_pool)
      × ((j : SandboxId) → is_live j t.calls ≡ is_live j s.calls)
      × ((n : Text) → is_held n t.calls ≡ (if owns network n then false else is_held n s.calls))
      × ((j : SandboxId) → was_spawned j t.calls ≡ (id == j || was_spawned j s.calls))

module _ (config : FirecrackerConfig) (host : Host) (spec : SandboxSpec) (id : SandboxId)
    (network : Option NetworkLease) (s : FirecrackerRuntime) where
  module _ (root : HostPath) (restore : Option RestoreAssets) (capture : Bool) where
    abbrev booted : Result RuntimeError Text × FirecrackerRuntime
    booted =
        boot config host id spec root restore capture network (spawned_state host id spec network s)

    run_with_boot :
        (b : Result RuntimeError Text × FirecrackerRuntime)
        → was_spawned id s.calls ≡ false
        → is_done (spawn_reply host id spec network s) ≡ true
        → booted ≡ b
        → RunEnds config spec id network s
            (run_machine config host spec id root restore capture network s)
    unfolding run_machine ◌>>◌ ◌>>=◌ on_failure modify pure
    run_with_boot (ok token, t) fresh finished e =
        let (started, live, held, spawned) = spawned_machine host id spec network s finished in
        let (a, b, c, l, h, w) =
          subst (λ x. IsSteady (spawned_state host id spec network s) x.1) e
            ((boot-IsCalm config host id spec root restore capture network).at
              (spawned_state host id spec network s)) in
        rw (started, e)
          (
            refl,
            record {
              jailer_id = id;
              state = running;
              spec = spec;
              guest_token = token;
              chroot_root = root;
              network = network;
            },
            refl,
            refl,
            refl,
            refl,
            ap (insert id _) a,
            b,
            c,
            λ j. l j ∙ live j,
            λ n. h n ∙ held n,
            λ j. w j ∙ spawned j,
          )
    run_with_boot (err e0, t) fresh finished e =
        let (started, live, held, spawned) = spawned_machine host id spec network s finished in
        let (a, b, c, l, h, w) =
          subst (λ x. IsSteady (spawned_state host id spec network s) x.1) e
            ((boot-IsCalm config host id spec root restore capture network).at
              (spawned_state host id spec network s)) in
        let gone = reclaim_lem host id network t in
        rw (started, e)
          (
            gone.sandboxes ∙ a,
            gone.snapshots ∙ b,
            gone.ready_pool ∙ c,
            λ j. ground (arith, gone.live j, l j, live j, is_live-was_spawned j s.calls),
            λ n. ground (arith, gone.held n, h n, held n),
            λ j. gone.spawned j ∙ w j ∙ spawned j,
          )

    pub run_machine_lem :
        was_spawned id s.calls ≡ false
        → RunEnds config spec id network s
            (run_machine config host spec id root restore capture network s)
    unfolding run_machine ◌>>◌
    run_machine_lem fresh = elim (Bool-cases (is_done (spawn_reply host id spec network s))) [
      | inl finished ↦ run_with_boot booted fresh finished refl
      | inr refusal ↦
          let (answer, a, b, c, l, h, w) = unspawned_machine host id spec network s refusal in
          let whole : spawn host id spec network s
              ≡ (err internal, (spawn host id spec network s).1) =
            ap (λ r. (r, (spawn host id spec network s).1)) answer in
          rw whole (a, b, c, l, h, w)
    ]
