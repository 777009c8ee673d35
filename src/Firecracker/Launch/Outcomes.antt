-- ===== src/Firecracker/Launch/Outcomes.antt =====
-- What a launch in crates/ferrobox-node/src/firecracker_runtime.rs comes to: one jailer process more, or
-- nothing that stays.
use ferrobox.Core.Error.{internal}
use ferrobox.Firecracker.Cleanup.{release_network}
use ferrobox.Process.Disk.{HostPath}
use ferrobox.Core.State.{running}
use ferrobox.Firecracker.Steps.{pure, raise, attempt, branch, ◌>>=◌, ask, expect}
use ferrobox.Firecracker.Launch.{cpu_limit, memory_limit, namespace_of, reclaim, spawn}
use ferrobox.Firecracker.Host.Inventory.{is_held, is_live, live_after, was_spawned}
use ferrobox.Prelude.{
  ℕ, ◌≡◌, refl, ◌∙◌, ◌⊎◌, inl, inr, Bool, true, false, ◌||◌, Option, none, some, [], ◌∷◌, arith,
  ◌==◌, if◌then◌else◌, Text, text_eq, insert, ok, err,
}
use ferrobox.Firecracker.Host.{
  Call, FirecrackerRuntime, FirecrackerSandbox, History, Host, NetworkLease, Reply, done, is_done,
  spawn_jailer,
}
use ferrobox.Core.Spec.{SandboxId, SandboxSpec}

-- Whether this is the namespace of the lease, if there is one.
abbrev pub owns : Option NetworkLease → Text → Bool
owns none n = false
owns (some lease) n = text_eq lease.namespace n

-- What is at most what it was.
pub no_more : (now before : Bool) → (now ≡ true → before ≡ true) → (now ≡ false) ⊎ (before ≡ true)
no_more true before grows = inr (grows refl)
no_more false before grows = inl refl

pub was_before : (now before : Bool) → (now ≡ false) ⊎ (before ≡ true) → now ≡ true → before ≡ true
was_before now before (inl not_now) holds = absurd (ground arith)
was_before now before (inr earlier) holds = earlier

-- After a step that failed: nothing is new but that the identifier is spent.
pub record IsUndone (id : SandboxId) (s t : FirecrackerRuntime) : Type 0 where
  pub sandboxes : t.sandboxes ≡ s.sandboxes
  pub snapshots : t.snapshots ≡ s.snapshots
  pub ready_pool : t.ready_pool ≡ s.ready_pool
  pub live : (j : SandboxId) → is_live j t.calls ≡ is_live j s.calls
  pub held : (n : Text) → (is_held n t.calls ≡ false) ⊎ (is_held n s.calls ≡ true)
  pub kept : (j : SandboxId) → (was_spawned j s.calls ≡ false) ⊎ (was_spawned j t.calls ≡ true)

-- After a launch that went well: one jailer process more, which the table has.
pub record IsLaunched (spec : SandboxSpec) (id : SandboxId) (s t : FirecrackerRuntime)
    : Type 0 where
  pub box : FirecrackerSandbox
  pub jailer_id : box.jailer_id ≡ id
  pub is_running_now : box.state ≡ running
  pub its_spec : box.spec ≡ spec
  pub sandboxes : t.sandboxes ≡ insert id box s.sandboxes
  pub snapshots : t.snapshots ≡ s.snapshots
  pub ready_pool : t.ready_pool ≡ s.ready_pool
  pub live : (j : SandboxId) → is_live j t.calls ≡ (if id == j then true else is_live j s.calls)
  pub held :
      (n : Text)
      → (is_held n t.calls ≡ false) ⊎ ((is_held n s.calls ≡ true) ⊎ (owns box.network n ≡ true))
  pub kept : (j : SandboxId) → (was_spawned j s.calls ≡ false) ⊎ (was_spawned j t.calls ≡ true)
  pub spawned : was_spawned id t.calls ≡ true

-- A jailer process that is outstanding was started.
pub is_live-was_spawned :
    (j : SandboxId) (h : History) → is_live j h ≡ true → was_spawned j h ≡ true
unfolding is_live was_spawned
is_live-was_spawned j [] lives = absurd (ground arith)
is_live-was_spawned j ((call, reply) ∷ h) lives = ground (arith, is_live-was_spawned j h)

done_lem : (r : Reply) → is_done r ≡ true → r ≡ done
unfolding is_done
done_lem r finished = ground arith

unspawned_lem :
    (id memory cpu : ℕ) (path : Option HostPath) (r : Reply) (j : SandboxId) (b : Bool)
    → is_done r ≡ false
    → live_after (spawn_jailer id memory cpu path) r j b ≡ b
unfolding is_done
unspawned_lem id memory cpu path r j b refusal = ground arith

-- After a step that ends a jailer process and asks for the deletion of its lease.
pub record IsReclaimed (id : SandboxId) (network : Option NetworkLease) (s t : FirecrackerRuntime)
    : Type 0 where
  pub sandboxes : t.sandboxes ≡ s.sandboxes
  pub snapshots : t.snapshots ≡ s.snapshots
  pub ready_pool : t.ready_pool ≡ s.ready_pool
  pub live : (j : SandboxId) → is_live j t.calls ≡ (if id == j then false else is_live j s.calls)
  pub held : (n : Text) → is_held n t.calls ≡ (if owns network n then false else is_held n s.calls)
  pub spawned : (j : SandboxId) → was_spawned j t.calls ≡ was_spawned j s.calls

module _ (host : Host) where
  pub reclaim_lem :
      (id : SandboxId) (network : Option NetworkLease) (s : FirecrackerRuntime)
      → IsReclaimed id network s (reclaim host id network s).1
  unfolding reclaim ask expect ◌>>=◌ pure is_live is_held was_spawned
  reclaim_lem id none s = record {
    sandboxes = refl;
    snapshots = refl;
    ready_pool = refl;
    live = λ j. refl;
    held = λ n. refl;
    spawned = λ j. refl;
  }
  reclaim_lem id (some lease) s = record {
    sandboxes = refl;
    snapshots = refl;
    ready_pool = refl;
    live = λ j. refl;
    held = λ n. refl;
    spawned = λ j. refl;
  }

  pub release_lem :
      (network : Option NetworkLease) (s : FirecrackerRuntime)
      → let t = (release_network host network s).1 in
        (t.sandboxes ≡ s.sandboxes)
        × (t.snapshots ≡ s.snapshots)
        × (t.ready_pool ≡ s.ready_pool)
        × ((j : SandboxId) → is_live j t.calls ≡ is_live j s.calls)
        × ((n : Text) → is_held n t.calls ≡ (if owns network n then false else is_held n s.calls))
        × ((j : SandboxId) → was_spawned j t.calls ≡ was_spawned j s.calls)
  unfolding expect pure is_live is_held was_spawned
  release_lem none s = (refl, refl, refl, λ j. refl, λ n. refl, λ j. refl)
  release_lem (some lease) s = (refl, refl, refl, λ j. refl, λ n. refl, λ j. refl)

  module _ (id : SandboxId) (spec : SandboxSpec) (network : Option NetworkLease)
      (s : FirecrackerRuntime) where
    abbrev pub spawn_call : Call
    spawn_call = spawn_jailer id (memory_limit spec) (cpu_limit spec) (namespace_of network)

    abbrev pub spawn_reply : Reply
    spawn_reply = host.reply s.calls spawn_call

    abbrev pub spawned_state : FirecrackerRuntime
    spawned_state = record s { calls = (spawn_call, spawn_reply) ∷ s.calls }

    pub spawned_machine :
        is_done spawn_reply ≡ true
        → (spawn host id spec network s ≡ (ok tt, spawned_state))
          × ((j : SandboxId)
              → is_live j spawned_state.calls ≡ (if id == j then true else is_live j s.calls))
          × ((n : Text) → is_held n spawned_state.calls ≡ is_held n s.calls)
          × ((j : SandboxId)
              → was_spawned j spawned_state.calls ≡ (id == j || was_spawned j s.calls))
    unfolding spawn ask ◌>>=◌ branch pure is_live is_held was_spawned
    spawned_machine finished =
        let is_finished = done_lem _ finished in
        (rw finished refl, λ j. rw is_finished refl, λ n. refl, λ j. refl)

    pub unspawned_machine :
        is_done spawn_reply ≡ false
        → let (answer, t) = spawn host id spec network s in
          (answer ≡ err internal)
          × (t.sandboxes ≡ s.sandboxes)
          × (t.snapshots ≡ s.snapshots)
          × (t.ready_pool ≡ s.ready_pool)
          × ((j : SandboxId) → is_live j t.calls ≡ is_live j s.calls)
          × ((n : Text) → is_held n t.calls ≡ (if owns network n then false else is_held n s.calls))
          × ((j : SandboxId) → was_spawned j t.calls ≡ (id == j || was_spawned j s.calls))
    unfolding spawn ask ◌>>=◌ branch pure raise attempt is_live is_held was_spawned
    unspawned_machine refusal =
        let (a, b, c, d, e, f) = release_lem network spawned_state in
        (
          rw refusal refl,
          rw refusal a,
          rw refusal b,
          rw refusal c,
          λ j. rw refusal (
              d j
              ∙ unspawned_lem id (memory_limit spec) (cpu_limit spec) (namespace_of network)
                  spawn_reply j _ refusal),
          λ n. rw refusal (e n),
          λ j. rw refusal (f j),
        )
