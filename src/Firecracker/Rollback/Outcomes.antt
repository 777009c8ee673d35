-- ===== src/Firecracker/Rollback/Outcomes.antt =====
-- `rollback_snapshot` of crates/ferrobox-node/src/firecracker_runtime.rs as a whole.
use ferrobox.Firecracker.Cleanup.Ending.{
  unjailed, terminate_record-IsReclaimed, terminate_record_lem, terminated,
}
use ferrobox.Firecracker.Cleanup.Draining.{cleanup_cgroup_lem}
use ferrobox.Firecracker.Rollback.Exchange.{IsExchanged, RenameEnds, rename_lem, undisturbed}
use ferrobox.Firecracker.Launch.Undone.{steady-LaunchEnds}
use ferrobox.Firecracker.Lifecycle.{delete}
use ferrobox.Firecracker.Rollback.{exchange, rename_replacement, swap}
use ferrobox.Firecracker.Snapshots.AllOrNothing.{
  IsRestored, delete-IsGrown, none-IsRestored, undone-IsGrown,
}
use ferrobox.Core.State.{running}
use ferrobox.Firecracker.Steps.Calm.{IsSteady}
use ferrobox.Firecracker.Snapshots.Clones.{IsGrown}
use ferrobox.Core.Exec.{SandboxHandle}
use ferrobox.Core.Spec.{SandboxId, SandboxSpec}
use ferrobox.Firecracker.Host.{FirecrackerConfig, FirecrackerRuntime, FirecrackerSandbox, Host}
use ferrobox.Prelude.{
  ℕ, ◌≡◌, refl, ap, ◌∙◌, ◌≢◌, true, none, some, [], ◌∷◌, arith, ◌==◌, if◌then◌else◌, Result, lookup,
  remove, insert, lookup-remove, lookup-insert, ok, err,
}
use ferrobox.Firecracker.Steps.{pure, on_failure, modify, ◌>>=◌, ◌>>◌}
use mathlib.Core.Path.{subst}
use ferrobox.Core.Error.{RuntimeError, internal}

module _ (config : FirecrackerConfig) (host : Host) (id : SandboxId) (source : FirecrackerSandbox)
    (spec : SandboxSpec) (handle : SandboxHandle) (s0 t : FirecrackerRuntime)
    (grown : IsGrown spec (handle ∷ []) s0 t) (known : lookup id s0.sandboxes ≡ some source)
    (other_jail : source.jailer_id ≢ handle.sandbox_id) where
  abbrev new_id : SandboxId
  new_id = handle.sandbox_id

  give_up : (u : FirecrackerRuntime) → IsSteady t u → IsRestored s0 (delete config host new_id u).1
  give_up u steady = none-IsRestored spec s0 (delete config host new_id u).1 (
      delete-IsGrown config host spec s0 handle [] u (
        undone-IsGrown spec (handle ∷ []) new_id s0 t u grown
          (steady-LaunchEnds config spec new_id t internal u steady)))

  other_id : id ≢ new_id
  other_id same =
      let (unknown, _) = grown.new new_id (ground arith) in
      let clash = subst (λ j. lookup j s0.sandboxes ≡ some source) same known in
      absurd (ground arith)

  module _ (box : FirecrackerSandbox) (found : lookup new_id t.sandboxes ≡ some box)
      (jail : box.jailer_id ≡ new_id) (now : box.state ≡ running) (its : box.spec ≡ spec) where
    swap_lem :
        (renamed : FirecrackerSandbox) (u : FirecrackerRuntime)
        → renamed.jailer_id ≡ box.jailer_id
        → u.sandboxes ≡ insert new_id renamed t.sandboxes
        → swap id source new_id renamed u ≡ (
          ok tt,
          record u { sandboxes = insert id renamed (remove new_id (remove id u.sandboxes)) },
        )
    unfolding swap
    swap_lem renamed u same_jail table =
        let mine : lookup id u.sandboxes ≡ some source =
          ap (lookup id) table
          ∙ ground
              (arith, lookup-insert new_id id renamed t.sandboxes, other_id, grown.others id) in
        let theirs : lookup new_id u.sandboxes ≡ some renamed =
          ap (lookup new_id) table
          ∙ ground (arith, lookup-insert new_id new_id renamed t.sandboxes) in
        let self : (k : ℕ) → (k == k) ≡ true = λ k. ground arith in
        rw (mine, theirs, self source.jailer_id, self renamed.jailer_id) refl

    -- The state after the swap.
    abbrev swapped : FirecrackerSandbox → FirecrackerRuntime → FirecrackerRuntime
    swapped renamed u = record u {
      sandboxes = insert id renamed (remove new_id (remove id u.sandboxes));
    }

    finished_lem :
        (renamed : FirecrackerSandbox) (u : FirecrackerRuntime)
        → RenameEnds new_id box t (ok renamed, u)
        → IsExchanged host spec id source s0 (terminated config host source (swapped renamed u))
    finished_lem renamed u (same_jail, same_state, same_spec, table, b, c, l) =
        let ended = terminate_record-IsReclaimed config host source (swapped renamed u) in
        let at : (j : SandboxId)
            → lookup j (terminated config host source (swapped renamed u)).sandboxes ≡ (
                if id == j
                then some renamed
                else if new_id == j
                then none
                else if id == j
                then none
                else lookup j u.sandboxes) =
          λ j. ground (
            arith,
            ap (lookup j) ended.sandboxes,
            lookup-insert id j renamed (remove new_id (remove id u.sandboxes)),
            lookup-remove new_id j (remove id u.sandboxes),
            lookup-remove id j u.sandboxes,
          ) in
        let before : (j : SandboxId)
            → lookup j u.sandboxes ≡ (if new_id == j then some renamed else lookup j t.sandboxes) =
          λ j. ap (lookup j) table ∙ lookup-insert new_id j renamed t.sandboxes in
        let (unknown, idle) = grown.new new_id (ground arith) in
        record {
          box = renamed;
          is_running_now = same_state ∙ now;
          its_spec = same_spec ∙ its;
          entries = λ j. ground (arith, at j, before j, grown.others j, unknown);
          snapshots = ended.snapshots ∙ b ∙ grown.snapshots;
          ready_pool = ended.ready_pool ∙ c ∙ grown.ready_pool;
          other_machine = ground (arith, other_jail);
          emptied =
              cleanup_cgroup_lem host source.jailer_id
                (unjailed config host source (swapped renamed u));
          live = λ j. ground (arith, ended.live j, l j, grown.live j);
        }

    abbrev pub Exchanged : Result RuntimeError SandboxHandle × FirecrackerRuntime → Type 0
    Exchanged (ok answer, w) =
        (answer ≡ record { sandbox_id = id; node_id = config.node_id; state = running })
        × IsExchanged host spec id source s0 w
    Exchanged (err e, w) = IsRestored s0 w

    exchange_renamed :
        (x : Result RuntimeError FirecrackerSandbox × FirecrackerRuntime)
        → RenameEnds new_id box t x
        → rename_replacement config host id new_id box t ≡ x
        → Exchanged (exchange config host undisturbed id source new_id t)
    unfolding exchange ◌>>=◌ ◌>>◌ on_failure modify pure
    exchange_renamed (err e, u) ends is = rw (found, is) (give_up u ends)
    exchange_renamed (ok renamed, u) ends is =
        let (same_jail, _, _, table, _, _, _) = ends in
        rw
          (
            found,
            is,
            swap_lem renamed u same_jail table,
            terminate_record_lem config host source (swapped renamed u),
          )
          (refl, finished_lem renamed u ends)

    pub exchange_lem : Exchanged (exchange config host undisturbed id source new_id t)
    exchange_lem =
        exchange_renamed (rename_replacement config host id new_id box t)
          (rename_lem config host id new_id box t) refl
