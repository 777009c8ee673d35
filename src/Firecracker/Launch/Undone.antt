-- ===== src/Firecracker/Launch/Undone.antt =====
-- A launch of crates/ferrobox-node/src/firecracker_runtime.rs as a whole.
use ferrobox.Firecracker.Cleanup.Draining.{group_of}
use ferrobox.Firecracker.Steps.{
  Firecracker, pure, raise, lift, on_failure, clean_after, ◌>>=◌, ◌>>◌, ask,
}
use ferrobox.Firecracker.Launch.Steady.{prepare_jail-IsCalm}
use ferrobox.Firecracker.Cleanup.Steady.{cleanup_cgroup-IsCalm, cleanup_chroot-IsCalm}
use ferrobox.Firecracker.Cleanup.{jail_root}
use ferrobox.Prelude.Exec.{continue}
use ferrobox.Process.Disk.{HostPath}
use ferrobox.Firecracker.Launch.Machines.{RunEnds, run_machine_lem}
use ferrobox.Core.State.{running}
use ferrobox.Firecracker.Launch.Outcomes.{IsLaunched, IsUndone, no_more, owns}
use ferrobox.Firecracker.Steps.Calm.{IsCalm, IsSteady, IsSteady-refl, IsSteady-trans, calm_rules}
use ferrobox.Core.Exec.{SandboxHandle}
use ferrobox.Firecracker.Host.Inventory.{held_after, is_emptied, is_held, is_live, was_spawned}
use ferrobox.Core.Spec.{NetworkMode, SandboxId, SandboxSpec, validate_spec, disabled, internet}
use ferrobox.Firecracker.Launch.{
  clean_jail, create_lease, launch, launch_inner, prepare_jail, run_machine, take_lease,
}
use ferrobox.Core.Error.{RuntimeError, internal, invalid}
use ferrobox.Prelude.{
  ◌≡◌, refl, sym, ap, ◌∙◌, ◌⊎◌, inl, inr, Bool, true, false, Option, arith, if◌then◌else◌, Result,
  map_err, Result-cases, Text, insert, ok, err,
}
use ferrobox.Firecracker.Host.{
  FirecrackerConfig, FirecrackerRuntime, Host, NetworkLease, Reply, RestoreAssets, TemplateAssets,
  absent, broken, create_network, done, leased, published, refused, resolved, speaks, status, told,
  verdict,
}

lease_cases :
    (host : Host) (r : Reply)
    → ((lease : NetworkLease) × (r ≡ leased lease))
      ⊎ ((e : RuntimeError) × ((s : FirecrackerRuntime) → take_lease host r s ≡ (err e, s))
          × ((id : SandboxId) (mode : NetworkMode) (n : Text) (b : Bool)
              → held_after (create_network id mode) r n b ≡ b))
unfolding raise
lease_cases host (leased lease) = inl (lease, refl)
lease_cases host done = inr (internal, λ s. refl, λ id mode n b. refl)
lease_cases host absent = inr (internal, λ s. refl, λ id mode n b. refl)
lease_cases host broken = inr (internal, λ s. refl, λ id mode n b. refl)
lease_cases host (refused e) = inr (e, λ s. refl, λ id mode n b. refl)
lease_cases host (status c) = inr (internal, λ s. refl, λ id mode n b. refl)
lease_cases host (speaks v) = inr (internal, λ s. refl, λ id mode n b. refl)
lease_cases host (told t) = inr (internal, λ s. refl, λ id mode n b. refl)
lease_cases host (verdict v) = inr (internal, λ s. refl, λ id mode n b. refl)
lease_cases host (published a) = inr (internal, λ s. refl, λ id mode n b. refl)
lease_cases host (resolved t a) = inr (internal, λ s. refl, λ id mode n b. refl)

module _ (s : FirecrackerRuntime) where
  abbrev LeaseEnds : Result RuntimeError (Option NetworkLease) × FirecrackerRuntime → Type 0
  LeaseEnds (ok network, t) =
      (t.sandboxes ≡ s.sandboxes)
      × (t.snapshots ≡ s.snapshots)
      × (t.ready_pool ≡ s.ready_pool)
      × ((j : SandboxId) → is_live j t.calls ≡ is_live j s.calls)
      × ((n : Text) → is_held n t.calls ≡ (if owns network n then true else is_held n s.calls))
      × ((j : SandboxId) → was_spawned j t.calls ≡ was_spawned j s.calls)
  LeaseEnds (err e, t) = IsSteady s t

  create_lease_lem :
      (host : Host) (id : SandboxId) (mode : NetworkMode) → LeaseEnds (create_lease host id mode s)
  unfolding create_lease ask ◌>>=◌ pure is_live is_held was_spawned
  create_lease_lem host id disabled = (refl, refl, refl, λ j. refl, λ n. refl, λ j. refl)
  create_lease_lem host id internet =
      elim (lease_cases host (host.reply s.calls (create_network id internet))) [
        | inl (lease, e) ↦ rw e (refl, refl, refl, λ j. refl, λ n. refl, λ j. refl)
        | inr (e, raised, unheld) ↦
            rw (raised _) (refl, refl, refl, λ j. refl, λ n. unheld id internet n _, λ j. refl)
      ]

-- What a launch that failed has done to the control group: it asked for nothing, or emptied it.
abbrev pub GroupEnds :
    Host
    → SandboxId
    → FirecrackerRuntime
    → Result RuntimeError SandboxHandle × FirecrackerRuntime
    → Type 0
GroupEnds host id s (ok handle, t) = Unit
GroupEnds host id s (err e, t) =
    (t.calls ≡ s.calls) ⊎ (is_emptied (group_of host id) t.calls ≡ true)

module _ (config : FirecrackerConfig) (spec : SandboxSpec) (id : SandboxId)
    (s : FirecrackerRuntime) where
  abbrev pub LaunchEnds : Result RuntimeError SandboxHandle × FirecrackerRuntime → Type 0
  LaunchEnds (ok handle, t) =
      (handle ≡ record { sandbox_id = id; node_id = config.node_id; state = running })
      × IsLaunched spec id s t
  LaunchEnds (err e, t) = IsUndone id s t

  pub steady-LaunchEnds :
      (e : RuntimeError) (t : FirecrackerRuntime) → IsSteady s t → IsUndone id s t
  steady-LaunchEnds e t (a, b, c, l, h, w) = record {
    sandboxes = a;
    snapshots = b;
    ready_pool = c;
    live = l;
    held = λ n. no_more _ _ (λ p. sym (h n) ∙ p);
    kept = λ j. no_more _ _ (λ p. w j ∙ p);
  }

  run-LaunchEnds :
      (network : Option NetworkLease) (r t : FirecrackerRuntime)
      (x : Result RuntimeError SandboxHandle × FirecrackerRuntime)
      → IsSteady s r
      → LeaseEnds r (ok network, t)
      → RunEnds config spec id network t x
      → LaunchEnds x
  run-LaunchEnds network r t (ok handle, u) (a, b, c, l, h, w) (a2, b2, c2, l2, h2, w2)
        (answer, box, jail, state, its, net, a3, b3, c3, l3, h3, w3) =
      (
        answer,
        record {
          box = box;
          jailer_id = jail;
          is_running_now = state;
          its_spec = its;
          sandboxes = a3 ∙ ap (insert id box) (a2 ∙ a);
          snapshots = b3 ∙ b2 ∙ b;
          ready_pool = c3 ∙ c2 ∙ c;
          live = λ j. ground (arith, l3 j, l2 j, l j);
          held = λ n. rw net (ground (arith, h3 n, h2 n, h n));
          kept = λ j. ground (arith, w3 j, w2 j, w j);
          spawned = ground (arith, w3 id);
        },
      )
  run-LaunchEnds network r t (err e, u) (a, b, c, l, h, w) (a2, b2, c2, l2, h2, w2)
        (a3, b3, c3, l3, h3, w3) =
      record {
        sandboxes = a3 ∙ a2 ∙ a;
        snapshots = b3 ∙ b2 ∙ b;
        ready_pool = c3 ∙ c2 ∙ c;
        live = λ j. l3 j ∙ l2 j ∙ l j;
        held = λ n. ground (arith, h3 n, h2 n, h n);
        kept = λ j. ground (arith, w3 j, w2 j, w j);
      }

  module _ (host : Host) (assets : TemplateAssets) (restore : Option RestoreAssets)
      (capture : Bool) where
    launch_with_lease :
        (root : HostPath) (r : FirecrackerRuntime)
        (x : Result RuntimeError (Option NetworkLease) × FirecrackerRuntime)
        → was_spawned id s.calls ≡ false
        → IsSteady s r
        → LeaseEnds r x
        → LaunchEnds (continue x (run_machine config host spec id root restore capture))
    launch_with_lease root r (ok network, t) fresh first second =
        let (_, _, _, _, _, before) = first in
        let (_, _, _, _, _, since) = second in
        let unspent : was_spawned id t.calls ≡ false = since id ∙ before id ∙ fresh in
        run-LaunchEnds network r t (run_machine config host spec id root restore capture network t)
          first second (run_machine_lem config host spec id network t root restore capture unspent)
    launch_with_lease root r (err e, t) fresh first second =
        steady-LaunchEnds e t (IsSteady-trans s r t first second)

    launch_with_jail :
        (root : HostPath) (x : Result RuntimeError (Unit {0}) × FirecrackerRuntime)
        → was_spawned id s.calls ≡ false
        → IsSteady s x.1
        → LaunchEnds (
            continue x λ _. create_lease host id spec.network >>= λ network.
            run_machine config host spec id root restore capture network)
    unfolding ◌>>=◌
    launch_with_jail root (ok _, r) fresh first =
        launch_with_lease root r (create_lease host id spec.network r) fresh first
          (create_lease_lem r host id spec.network)
    launch_with_jail root (err e, r) fresh first = steady-LaunchEnds e r first

    launch_inner_lem :
        was_spawned id s.calls ≡ false
        → LaunchEnds (launch_inner config host spec id assets restore capture s)
    unfolding launch_inner lift ◌>>=◌ ◌>>◌
    launch_inner_lem fresh = elim (Result-cases (map_err invalid (validate_spec spec))) [
      | inr (e, refusal) ↦ rw refusal (steady-LaunchEnds e s (IsSteady-refl s))
      | inl (_, valid) ↦ elim (Result-cases (jail_root config host id)) [
        | inr (e, refusal) ↦ rw (valid, refusal) (steady-LaunchEnds e s (IsSteady-refl s))
        | inl (root, at) ↦
            rw (valid, at)
              (launch_with_jail root (prepare_jail host root assets restore s) fresh
                ((prepare_jail-IsCalm host root assets restore).at s))
      ]
    ]

    clean_up :
        (cleanup : Firecracker (Unit {0}))
        (x : Result RuntimeError SandboxHandle × FirecrackerRuntime)
        → IsCalm cleanup
        → LaunchEnds x
        → LaunchEnds (clean_after cleanup x)
    clean_up cleanup (ok handle, t) calm ends = ends
    clean_up cleanup (err e, t) calm ends =
        let (a, b, c, l, h, w) = calm.at t in
        record {
          sandboxes = a ∙ ends.sandboxes;
          snapshots = b ∙ ends.snapshots;
          ready_pool = c ∙ ends.ready_pool;
          live = λ j. l j ∙ ends.live j;
          held = λ n. ground (arith, ends.held n, h n);
          kept = λ j. ground (arith, ends.kept j, w j);
        }

    clean_jail-IsCalm : (root : HostPath) → IsCalm (clean_jail config host id root)
    unfolding clean_jail
    clean_jail-IsCalm root = search (calm_rules, cleanup_chroot-IsCalm, cleanup_cgroup-IsCalm)

    pub launch_lem :
        was_spawned id s.calls ≡ false
        → LaunchEnds (launch config host spec id assets restore capture s)
    unfolding launch lift ◌>>=◌ on_failure
    launch_lem fresh = elim (Result-cases (jail_root config host id)) [
      | inr (e, refusal) ↦ rw refusal (steady-LaunchEnds e s (IsSteady-refl s))
      | inl (root, at) ↦ rw at (
          clean_up (clean_jail config host id root)
            (launch_inner config host spec id assets restore capture s) (clean_jail-IsCalm root)
            (launch_inner_lem fresh))
    ]
