-- ===== src/Firecracker/Cleanup/Ending.antt =====
-- The end of a machine in crates/ferrobox-node/src/firecracker_runtime.rs.
use ferrobox.Firecracker.Cleanup.Steady.{cleanup_cgroup-IsCalm, cleanup_chroot-IsCalm}
use ferrobox.Core.State.{deleted, failed}
use ferrobox.Firecracker.Launch.Outcomes.{IsReclaimed, release_lem}
use ferrobox.Core.Error.{RuntimeError}
use ferrobox.Firecracker.Host.Inventory.{is_held, is_live, live_after, was_spawned}
use ferrobox.Firecracker.Cleanup.{
  cleanup_cgroup, cleanup_chroot, first_failure, release_network, stop_process, terminate_record,
}
use ferrobox.Core.Spec.{SandboxId}
use ferrobox.Prelude.{
  ◌≡◌, refl, ap, ◌∙◌, inl, inr, Bool, true, false, ◌&&◌, none, ◌∷◌, arith, ◌==◌, if◌then◌else◌,
  Bool-cases, Result, is_ok, ok,
}
use ferrobox.Firecracker.Steps.{pure, attempt, branch, ◌>>=◌, ◌>>◌, ask}
use ferrobox.Firecracker.Host.{
  FirecrackerConfig, FirecrackerRuntime, FirecrackerSandbox, History, Host, Reply, api, await_exit,
  is_done, send_ctrl_alt_del,
}

ended_by_reply :
    (id : SandboxId) (r : Reply) (j : SandboxId) (b : Bool)
    → is_done r ≡ true
    → live_after (await_exit id) r j b ≡ (if id == j then false else b)
unfolding is_done
ended_by_reply id r j b finished = ground arith

killed_anyway :
    (id : SandboxId) (r : Reply) (j : SandboxId) (b : Bool)
    → (if id == j then false else live_after (await_exit id) r j b) ≡ (if id == j then false else b)
killed_anyway id r j b = ground arith

module _ (host : Host) where
  -- The process has exited or is killed.
  stop_process_lem :
      (id : SandboxId) (s : FirecrackerRuntime)
      → let (answer, t) = stop_process host id s in (answer ≡ ok tt) × IsReclaimed id none s t
  unfolding stop_process ask ◌>>=◌ branch pure is_live is_held was_spawned
  stop_process_lem id s =
      let asked : History =
        (api id send_ctrl_alt_del, host.reply s.calls (api id send_ctrl_alt_del)) ∷ s.calls in
      elim (Bool-cases (is_done (host.reply asked (await_exit id)))) [
        | inl finished ↦ (
          rw finished refl,
          rw finished (record {
            sandboxes = refl;
            snapshots = refl;
            ready_pool = refl;
            live = λ j.
                ended_by_reply id (host.reply asked (await_exit id)) j (is_live j s.calls) finished;
            held = λ n. refl;
            spawned = λ j. refl;
          }),
        )
        | inr running_on ↦ (
          rw running_on refl,
          rw running_on (record {
            sandboxes = refl;
            snapshots = refl;
            ready_pool = refl;
            live = λ j. killed_anyway id (host.reply asked (await_exit id)) j (is_live j s.calls);
            held = λ n. refl;
            spawned = λ j. refl;
          }),
        )
      ]

module _ (config : FirecrackerConfig) (host : Host) (box : FirecrackerSandbox)
    (s : FirecrackerRuntime) where
  abbrev stopped : FirecrackerRuntime
  stopped = (stop_process host box.jailer_id s).1

  abbrev released : FirecrackerRuntime
  released = (release_network host box.network stopped).1

  abbrev pub unjailed : FirecrackerRuntime
  unjailed = (cleanup_chroot config host box.chroot_root released).1

  -- The state after `terminate_record`.
  abbrev pub terminated : FirecrackerRuntime
  terminated = (cleanup_cgroup host box.jailer_id unjailed).1

  -- What the three steps of the cleanup came to.
  abbrev pub network_result : Result RuntimeError (Unit {0})
  network_result = (release_network host box.network stopped).0

  abbrev pub jail_result : Result RuntimeError (Unit {0})
  jail_result = (cleanup_chroot config host box.chroot_root released).0

  abbrev pub cgroup_result : Result RuntimeError (Unit {0})
  cgroup_result = (cleanup_cgroup host box.jailer_id unjailed).0

  pub terminate_record-IsReclaimed : IsReclaimed box.jailer_id box.network s terminated
  terminate_record-IsReclaimed =
      let (_, stop) = stop_process_lem host box.jailer_id s in
      let (a, b, c, l, h, w) = release_lem host box.network stopped in
      let (a2, b2, c2, l2, h2, w2) =
        (cleanup_chroot-IsCalm config host box.chroot_root).at released in
      let (a3, b3, c3, l3, h3, w3) = (cleanup_cgroup-IsCalm host box.jailer_id).at unjailed in
      record {
        sandboxes = a3 ∙ a2 ∙ a ∙ stop.sandboxes;
        snapshots = b3 ∙ b2 ∙ b ∙ stop.snapshots;
        ready_pool = c3 ∙ c2 ∙ c ∙ stop.ready_pool;
        live = λ j. l3 j ∙ l2 j ∙ l j ∙ stop.live j;
        held = λ n. ground (arith, h3 n, h2 n, h n, stop.held n);
        spawned = λ j. w3 j ∙ w2 j ∙ w j ∙ stop.spawned j;
      }

  pub terminate_record_lem : terminate_record config host box s ≡ (
    ok (
      record box {
        state =
            if is_ok network_result && is_ok jail_result && is_ok cgroup_result
            then deleted
            else failed;
      },
      first_failure network_result jail_result cgroup_result,
    ),
    terminated,
  )
  unfolding terminate_record ◌>>=◌ ◌>>◌ attempt pure
  terminate_record_lem =
      let (answer, _) = stop_process_lem host box.jailer_id s in
      let whole : stop_process host box.jailer_id s ≡ (ok tt, stopped) =
        ap (λ r. (r, stopped)) answer in
      rw whole refl
