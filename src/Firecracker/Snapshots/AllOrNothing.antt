-- ===== src/Firecracker/Snapshots/AllOrNothing.antt =====
-- `clone_snapshot` of crates/ferrobox-node/src/firecracker_runtime.rs makes all the clones or none.
use ferrobox.Core.State.{running}
use ferrobox.Firecracker.Steps.Calm.{IsCalm, IsSteady, IsSteady-refl, calm_rules}
use ferrobox.Prelude.Exec.{continue}
use ferrobox.Firecracker.Launch.Undone.{LaunchEnds, launch_lem}
use ferrobox.Core.Error.{RuntimeError}
use ferrobox.Firecracker.Lifecycle.Deletion.{delete_sandbox_lem}
use ferrobox.Firecracker.Snapshots.{
  clone_loop, clone_snapshot, create_from_artifact, delete_all, open_artifact,
}
use ferrobox.Firecracker.Lifecycle.{delete}
use ferrobox.Firecracker.Launch.Outcomes.{IsLaunched, IsUndone, no_more, owns, was_before}
use ferrobox.Firecracker.Host.Inventory.{is_held, is_live, was_spawned}
use ferrobox.Core.Exec.{SandboxHandle}
use ferrobox.Firecracker.Snapshots.Clones.{
  IsDistinct, IsGrown, IsTracked, is_in, launch-IsGrown, nothing-IsGrown,
}
use ferrobox.Core.Spec.{SandboxId, SandboxSpec, SnapshotId}
use ferrobox.Firecracker.Host.{
  FirecrackerConfig, FirecrackerRuntime, FirecrackerSandbox, History, Host, SnapshotArtifact,
}
use ferrobox.Prelude.{
  ℕ, zero, suc, ◌+◌, ◌≡◌, refl, sym, ap, ◌∙◌, ◌⊎◌, inl, inr, true, false, ◌||◌, none, some, List,
  [], ◌∷◌, ◌++◌, arith, ◌==◌, in_range, if◌then◌else◌, ==_iff, Bool-cases, Option-cases, length,
  length-append, Result, Text, lookup, lookup-remove, ok, err,
}
use ferrobox.Firecracker.Steps.{
  pure, gets, attempt, on_failure, clean_after, refuse_if, ◌>>=◌, ◌>>◌,
}
use mathlib.Core.Path.{subst}

-- A state with the tables, jailer processes and leases of another, but for leases that are given back.
pub record IsRestored (s0 s : FirecrackerRuntime) : Type 0 where
  pub sandboxes : (j : SandboxId) → lookup j s.sandboxes ≡ lookup j s0.sandboxes
  pub snapshots : s.snapshots ≡ s0.snapshots
  pub ready_pool : s.ready_pool ≡ s0.ready_pool
  pub live : (j : SandboxId) → is_live j s.calls ≡ is_live j s0.calls
  pub held : (n : Text) → (is_held n s.calls ≡ false) ⊎ (is_held n s0.calls ≡ true)

pub none-IsRestored :
    (spec : SandboxSpec) (s0 s : FirecrackerRuntime) → IsGrown spec [] s0 s → IsRestored s0 s
none-IsRestored spec s0 s grown = record {
  sandboxes = λ j. grown.others j refl;
  snapshots = grown.snapshots;
  ready_pool = grown.ready_pool;
  live = grown.live;
  held = λ n. no_more _ _ λ p. elim (grown.held n p) [
    | inl before ↦ before
    | inr (j, box, inside, _, _) ↦ absurd (ground arith)
  ];
}

pub undone-IsGrown :
    (spec : SandboxSpec) (handles : List SandboxHandle) (id : SandboxId)
    (s0 s t : FirecrackerRuntime)
    → IsGrown spec handles s0 s
    → IsUndone id s t
    → IsGrown spec handles s0 t
undone-IsGrown spec handles id s0 s t grown undone =
    let same : (j : SandboxId) → lookup j t.sandboxes ≡ lookup j s.sandboxes =
      λ j. ap (lookup j) undone.sandboxes in
    record {
      others = λ j out. same j ∙ grown.others j out;
      members = λ j inside.
          let (box, known, jail, now, its) = grown.members j inside in
          (box, same j ∙ known, jail, now, its);
      new = grown.new;
      live = λ j. undone.live j ∙ grown.live j;
      held = λ n p. elim (grown.held n (was_before _ _ (undone.held n) p)) [
        | inl before ↦ inl before
        | inr (j, box, inside, known, own) ↦ inr (j, box, inside, same j ∙ known, own)
      ];
      snapshots = undone.snapshots ∙ grown.snapshots;
      ready_pool = undone.ready_pool ∙ grown.ready_pool;
      tracked = λ j box known.
          was_before _ _ (undone.kept j) (grown.tracked j box (sym (same j) ∙ known));
      distinct = grown.distinct;
    }

module _ (config : FirecrackerConfig) (host : Host) (spec : SandboxSpec)
    (s0 : FirecrackerRuntime) where
  pub delete-IsGrown :
      (handle : SandboxHandle) (handles : List SandboxHandle) (s : FirecrackerRuntime)
      → IsGrown spec (handle ∷ handles) s0 s
      → IsGrown spec handles s0 (delete config host handle.sandbox_id s).1
  delete-IsGrown handle handles s grown =
      let id = handle.sandbox_id in
      let t = (delete config host id s).1 in
      let (box, known, jail, _, _) = grown.members id (ground arith) in
      let (_, table, ended, _, _) = delete_sandbox_lem config host id box s known in
      let (unknown, idle) = grown.new id (ground arith) in
      let (apart, distinct) = grown.distinct in
      let found : (j : SandboxId)
          → lookup j t.sandboxes ≡ (if id == j then none else lookup j s.sandboxes) =
        λ j. ap (lookup j) table ∙ lookup-remove id j s.sandboxes in
      record {
        others = λ j out. ground (arith, found j, grown.others j, unknown);
        members = λ j inside.
            let (old, old_known, old_jail, now, its) = grown.members j (ground arith) in
            (old, ground (arith, found j), old_jail, now, its);
        new = λ j inside. grown.new j (ground arith);
        live = λ j. ground (arith, ended.live j, grown.live j, idle);
        held = λ n p. elim (grown.held n (ground (arith, ended.held n))) [
          | inl before ↦ inl before
          | inr (j, old, inside, old_known, own) ↦ elim (Bool-cases (id == j)) [
            | inl same ↦
                let it : some old ≡ some box =
                  sym old_known
                  ∙ ap (λ k. lookup k s.sandboxes) (sym ((==_iff id j).0 same))
                  ∙ known in
                let own_too : owns box.network n ≡ true = cc in
                absurd (ground (arith, ended.held n))
            | inr other ↦ inr (j, old, ground arith, ground (arith, found j), own)
          ]
        ];
        snapshots = ended.snapshots ∙ grown.snapshots;
        ready_pool = ended.ready_pool ∙ grown.ready_pool;
        tracked =
            λ j old old_known. ended.spawned j ∙ grown.tracked j old (ground (arith, found j));
        distinct = distinct;
      }

  delete_all-IsRestored :
      (handles : List SandboxHandle) (s : FirecrackerRuntime)
      → IsGrown spec handles s0 s
      → IsRestored s0 (delete_all config host handles s).1
  unfolding delete_all ◌>>=◌ attempt pure
  delete_all-IsRestored [] s grown = none-IsRestored spec s0 s grown
  delete_all-IsRestored (handle ∷ handles) s grown =
      delete_all-IsRestored handles (delete config host handle.sandbox_id s).1
        (delete-IsGrown handle handles s grown)

module _ (config : FirecrackerConfig) (host : Host) (artifact : SnapshotArtifact) (token : Text)
    (s0 : FirecrackerRuntime)
    (unrepeated : (h : History) → was_spawned (host.fresh_id h) h ≡ false) where
  -- All the clones, or what there was before.
  abbrev pub CloneEnds : ℕ → Result RuntimeError (List SandboxHandle) × FirecrackerRuntime → Type 0
  CloneEnds count (ok handles, t) =
      (length handles ≡ count) × IsGrown artifact.handle.spec handles s0 t
  CloneEnds count (err e, t) = IsRestored s0 t

  clone_step :
      (n count : ℕ) (handles : List SandboxHandle) (s : FirecrackerRuntime)
      (x : Result RuntimeError SandboxHandle × FirecrackerRuntime)
      → IsGrown artifact.handle.spec handles s0 s
      → length handles + suc n ≡ count
      → LaunchEnds config artifact.handle.spec (host.fresh_id s.calls) s x
      → ((more : List SandboxHandle) (t : FirecrackerRuntime)
          → IsGrown artifact.handle.spec more s0 t
          → length more + n ≡ count
          → CloneEnds count (clone_loop config host artifact token n more t))
      → CloneEnds count (
          continue
            (clean_after (delete_all config host handles) x)
            λ handle. clone_loop config host artifact token n (handles ++ handle ∷ []))
  clone_step n count handles s (ok handle, t) grown sum (answer, launched) next =
      let named : host.fresh_id s.calls ≡ handle.sandbox_id = sym (ap (λ h. h.sandbox_id) answer) in
      next (handles ++ handle ∷ []) t
        (launch-IsGrown artifact.handle.spec s0 s t handles handle grown
          (subst (λ j. was_spawned j s.calls ≡ false) named (unrepeated s.calls))
          (subst (λ j. IsLaunched artifact.handle.spec j s t) named launched))
        (ground (arith, length-append handles (handle ∷ [])))
  clone_step n count handles s (err e, t) grown sum undone next =
      delete_all-IsRestored config host artifact.handle.spec s0 handles t
        (undone-IsGrown artifact.handle.spec handles (host.fresh_id s.calls) s0 s t grown undone)

  clone_loop_lem :
      (n count : ℕ) (handles : List SandboxHandle) (s : FirecrackerRuntime)
      → IsGrown artifact.handle.spec handles s0 s
      → length handles + n ≡ count
      → CloneEnds count (clone_loop config host artifact token n handles s)
  unfolding clone_loop create_from_artifact ◌>>=◌ on_failure gets pure
  clone_loop_lem zero count handles s grown sum = (ground arith, grown)
  clone_loop_lem (suc n) count handles s grown sum =
      clone_step n count handles s _ grown sum
        (launch_lem config artifact.handle.spec (host.fresh_id s.calls) s host _ _ false
          (unrepeated s.calls))
        λ more t bigger total. clone_loop_lem n count more t bigger total

pub open_artifact-IsCalm :
    (host : Host) (artifact : SnapshotArtifact) → IsCalm (open_artifact host artifact)
unfolding open_artifact
open_artifact-IsCalm host artifact = search calm_rules depth 8

-- A state with a jailer process more for each of the handles, and all else as in another.
pub record HasClones (spec : SandboxSpec) (handles : List SandboxHandle) (s0 s : FirecrackerRuntime)
    : Type 0 where
  pub entries :
      (j : SandboxId)
      → ((is_in j handles ≡ false) × (lookup j s.sandboxes ≡ lookup j s0.sandboxes))
        ⊎ ((is_in j handles ≡ true)
            × (lookup j s0.sandboxes ≡ none)
            × (box : FirecrackerSandbox) × (lookup j s.sandboxes ≡ some box)
            × (box.state ≡ running)
            × (box.spec ≡ spec))
  pub live : (j : SandboxId) → is_live j s.calls ≡ (is_in j handles || is_live j s0.calls)
  pub snapshots : s.snapshots ≡ s0.snapshots
  pub ready_pool : s.ready_pool ≡ s0.ready_pool
  pub distinct : IsDistinct handles

grown-HasClones :
    (spec : SandboxSpec) (handles : List SandboxHandle) (s0 s : FirecrackerRuntime)
    → IsGrown spec handles s0 s
    → HasClones spec handles s0 s
grown-HasClones spec handles s0 s grown = record {
  entries = λ j. elim (Bool-cases (is_in j handles)) [
    | inr out ↦ inl (out, grown.others j out)
    | inl inside ↦
        let (box, known, jail, now, its) = grown.members j inside in
        let (absent_before, _) = grown.new j inside in
        inr (inside, absent_before, box, known, now, its)
  ];
  live = grown.live;
  snapshots = grown.snapshots;
  ready_pool = grown.ready_pool;
  distinct = grown.distinct;
}

-- The outcome of a clone: all of them, or the state before.
abbrev pub AllOrNothing :
    SnapshotId
    → ℕ
    → FirecrackerRuntime
    → Result RuntimeError (List SandboxHandle) × FirecrackerRuntime
    → Type 0
AllOrNothing snapshot count s (ok handles, t) =
    (length handles ≡ count)
    × (in_range 1 32 count ≡ true)
    × (artifact : SnapshotArtifact) × (lookup snapshot s.snapshots ≡ some artifact)
    × HasClones artifact.handle.spec handles s t
AllOrNothing snapshot count s (err e, t) = IsRestored s t

loop-AllOrNothing :
    (snapshot : SnapshotId) (count : ℕ) (s : FirecrackerRuntime) (artifact : SnapshotArtifact)
    (config : FirecrackerConfig) (host : Host) (token : Text)
    (unrepeated : (h : History) → was_spawned (host.fresh_id h) h ≡ false)
    (x : Result RuntimeError (List SandboxHandle) × FirecrackerRuntime)
    → in_range 1 32 count ≡ true
    → lookup snapshot s.snapshots ≡ some artifact
    → CloneEnds config host artifact token s unrepeated count x
    → AllOrNothing snapshot count s x
loop-AllOrNothing snapshot count s artifact config host token unrepeated (ok handles, t) range found
      (l, grown) =
    (l, range, artifact, found, grown-HasClones artifact.handle.spec handles s t grown)
loop-AllOrNothing snapshot count s artifact config host token unrepeated (err e, t) range found
      restored =
    restored

pub steady-IsRestored : (s t : FirecrackerRuntime) → IsSteady s t → IsRestored s t
steady-IsRestored s t (a, b, c, l, h, w) = record {
  sandboxes = λ j. ap (lookup j) a;
  snapshots = b;
  ready_pool = c;
  live = l;
  held = λ n. no_more _ _ (λ p. sym (h n) ∙ p);
}

clone_opened :
    (config : FirecrackerConfig) (host : Host) (snapshot : SnapshotId) (count : ℕ)
    (s : FirecrackerRuntime) (unrepeated : (h : History) → was_spawned (host.fresh_id h) h ≡ false)
    (tracked : IsTracked s) (artifact : SnapshotArtifact)
    (x : Result RuntimeError Text × FirecrackerRuntime)
    → in_range 1 32 count ≡ true
    → lookup snapshot s.snapshots ≡ some artifact
    → IsSteady s x.1
    → AllOrNothing snapshot count s
        (continue x λ token. clone_loop config host artifact token count [])
clone_opened config host snapshot count s unrepeated tracked artifact (ok token, t) range found
      steady =
    loop-AllOrNothing snapshot count s artifact config host token unrepeated
      (clone_loop config host artifact token count [] t) range found
      (clone_loop_lem config host artifact token s unrepeated count count [] t
        (nothing-IsGrown artifact.handle.spec s t tracked steady) (ground arith))
clone_opened config host snapshot count s unrepeated tracked artifact (err e, t) range found
      steady =
    steady-IsRestored s t steady

-- `clone_snapshot` on a host whose identifiers do not repeat, from a table whose sandboxes have
-- identifiers that a jailer was asked for under before. If it answers, there are as many clones as were asked for, between 1 and 32, all under different identifiers that the
-- table did not have: each is in the table as a running sandbox with the specification of the
-- snapshot, its jailer process is outstanding, and every other entry and jailer process is as before.
-- If it fails, at any clone and however the clean-up of the earlier ones goes, every entry of the
-- table is as before, of every jailer process that it started the end was seen or its kill was asked
-- for, and of every lease that it was given the deletion was asked for.
pub clone_snapshot_lem :
    (config : FirecrackerConfig) (host : Host) (snapshot : SnapshotId) (count : ℕ)
    (s : FirecrackerRuntime)
    → ((h : History) → was_spawned (host.fresh_id h) h ≡ false)
    → IsTracked s
    → AllOrNothing snapshot count s (clone_snapshot config host snapshot count s)
unfolding clone_snapshot ◌>>=◌ ◌>>◌ refuse_if
clone_snapshot_lem config host snapshot count s unrepeated tracked =
    elim (Bool-cases (in_range 1 32 count)) [
      | inr outside ↦ rw outside (steady-IsRestored s s (IsSteady-refl s))
      | inl range ↦ elim (Option-cases (lookup snapshot s.snapshots)) [
        | inl unknown ↦ rw (range, unknown) (steady-IsRestored s s (IsSteady-refl s))
        | inr (artifact, found) ↦
            rw (range, found)
              (clone_opened config host snapshot count s unrepeated tracked artifact
                (open_artifact host artifact s) range found
                ((open_artifact-IsCalm host artifact).at s))
      ]
    ]
