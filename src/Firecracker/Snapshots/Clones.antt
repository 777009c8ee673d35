-- ===== src/Firecracker/Snapshots/Clones.antt =====
-- The clones that `clone_snapshot` of crates/ferrobox-node/src/firecracker_runtime.rs has made so far,
-- and how they go again.
use ferrobox.Firecracker.Launch.Outcomes.{IsLaunched, is_live-was_spawned, owns}
use ferrobox.Core.State.{running}
use ferrobox.Firecracker.Host.Inventory.{is_held, is_live, was_spawned}
use ferrobox.Firecracker.Steps.Calm.{IsSteady}
use ferrobox.Firecracker.Host.{FirecrackerRuntime, FirecrackerSandbox}
use ferrobox.Core.Exec.{SandboxHandle}
use ferrobox.Core.Spec.{SandboxId, SandboxSpec}
use ferrobox.Prelude.{
  ◌≡◌, refl, sym, ap, ◌∙◌, ◌⊎◌, inl, inr, Bool, true, false, ◌||◌, none, some, List, [], ◌∷◌, ◌++◌,
  arith, ◌==◌, if◌then◌else◌, ==_iff, Bool-cases, Option-cases, Text, lookup, lookup-insert,
}

abbrev pub is_in : SandboxId → List SandboxHandle → Bool
is_in j [] = false
is_in j (handle ∷ handles) = handle.sandbox_id == j || is_in j handles

pub is_in-append :
    (j : SandboxId) (handles : List SandboxHandle) (last : SandboxHandle)
    → is_in j (handles ++ last ∷ []) ≡ (is_in j handles || last.sandbox_id == j)
is_in-append j [] last = ground arith
is_in-append j (handle ∷ handles) last = ground (arith, is_in-append j handles last)

abbrev pub IsDistinct : List SandboxHandle → Type 0
IsDistinct [] = Unit {0}
IsDistinct (handle ∷ handles) = (is_in handle.sandbox_id handles ≡ false) × IsDistinct handles

pub append-IsDistinct :
    (handles : List SandboxHandle) (last : SandboxHandle)
    → IsDistinct handles
    → is_in last.sandbox_id handles ≡ false
    → IsDistinct (handles ++ last ∷ [])
append-IsDistinct [] last distinct new = (refl, tt)
append-IsDistinct (handle ∷ handles) last (first, distinct) new = (
  ground (arith, is_in-append handle.sandbox_id handles last),
  append-IsDistinct handles last distinct (ground arith),
)

-- Every sandbox of the table has an identifier that was drawn.
abbrev pub IsTracked : FirecrackerRuntime → Type 0
IsTracked s =
    (j : SandboxId) (box : FirecrackerSandbox)
    → lookup j s.sandboxes ≡ some box
    → was_spawned j s.calls ≡ true

-- `s` is the state `s0` with a jailer process more for each of the handles.
pub record IsGrown (spec : SandboxSpec) (handles : List SandboxHandle) (s0 s : FirecrackerRuntime)
    : Type 0 where
  pub others :
      (j : SandboxId) → is_in j handles ≡ false → lookup j s.sandboxes ≡ lookup j s0.sandboxes
  pub members :
      (j : SandboxId)
      → is_in j handles ≡ true
      → (box : FirecrackerSandbox) × (lookup j s.sandboxes ≡ some box)
        × (box.jailer_id ≡ j)
        × (box.state ≡ running)
        × (box.spec ≡ spec)
  pub new :
      (j : SandboxId)
      → is_in j handles ≡ true
      → (lookup j s0.sandboxes ≡ none) × (is_live j s0.calls ≡ false)
  pub live : (j : SandboxId) → is_live j s.calls ≡ (is_in j handles || is_live j s0.calls)
  pub held :
      (n : Text)
      → is_held n s.calls ≡ true
      → (is_held n s0.calls ≡ true)
        ⊎ ((j : SandboxId) × (box : FirecrackerSandbox) × (is_in j handles ≡ true)
            × (lookup j s.sandboxes ≡ some box)
            × (owns box.network n ≡ true))
  pub snapshots : s.snapshots ≡ s0.snapshots
  pub ready_pool : s.ready_pool ≡ s0.ready_pool
  pub tracked : IsTracked s
  pub distinct : IsDistinct handles

pub nothing-IsGrown :
    (spec : SandboxSpec) (s0 s : FirecrackerRuntime)
    → IsTracked s0
    → IsSteady s0 s
    → IsGrown spec [] s0 s
nothing-IsGrown spec s0 s tracked (a, b, c, l, h, w) = record {
  others = λ j _. ap (lookup j) a;
  members = λ j impossible. absurd (ground arith);
  new = λ j impossible. absurd (ground arith);
  live = l;
  held = λ n p. inl (sym (h n) ∙ p);
  snapshots = b;
  ready_pool = c;
  tracked = λ j box found. w j ∙ tracked j box (sym (ap (lookup j) a) ∙ found);
  distinct = tt;
}

module _ (spec : SandboxSpec) (s0 s t : FirecrackerRuntime) where
  -- A launch that goes well adds its sandbox.
  pub launch-IsGrown :
      (handles : List SandboxHandle) (last : SandboxHandle)
      → IsGrown spec handles s0 s
      → was_spawned last.sandbox_id s.calls ≡ false
      → IsLaunched spec last.sandbox_id s t
      → IsGrown spec (handles ++ last ∷ []) s0 t
  launch-IsGrown handles last grown fresh launched =
      let id = last.sandbox_id in
      let box = launched.box in
      let found : (j : SandboxId)
          → lookup j t.sandboxes ≡ (if id == j then some box else lookup j s.sandboxes) =
        λ j. ap (lookup j) launched.sandboxes ∙ lookup-insert id j box s.sandboxes in
      let absent_before : lookup id s.sandboxes ≡ none =
        elim (Option-cases (lookup id s.sandboxes)) [
          | inl nothing ↦ nothing
          | inr (old, known) ↦ absurd (ground (arith, grown.tracked id old known))
        ] in
      let outside : is_in id handles ≡ false = elim (Bool-cases (is_in id handles)) [
        | inr out ↦ out
        | inl inside ↦ let (old, known, _, _, _) = grown.members id inside in absurd (ground arith)
      ] in
      let idle : is_live id s.calls ≡ false = elim (Bool-cases (is_live id s.calls)) [
        | inr out ↦ out
        | inl lives ↦ absurd (ground (arith, is_live-was_spawned id s.calls lives))
      ] in
      record {
        others = λ j out. ground (arith, found j, grown.others j, is_in-append j handles last);
        members = λ j inside. elim (Bool-cases (id == j)) [
          | inl same ↦ (
            box,
            ground (arith, found j),
            launched.jailer_id ∙ (==_iff id j).0 same,
            launched.is_running_now,
            launched.its_spec,
          )
          | inr other ↦
              let (old, known, jail, now, its) =
                grown.members j (ground (arith, is_in-append j handles last)) in
              (old, ground (arith, found j), jail, now, its)
        ];
        new = λ j inside. ground (
          arith,
          is_in-append j handles last,
          grown.new j,
          grown.others id,
          grown.live id,
          grown.others j,
          grown.live j,
        );
        live = λ j. ground (arith, launched.live j, grown.live j, is_in-append j handles last);
        held = λ n p. elim (launched.held n) [
          | inl gone ↦ absurd (ground arith)
          | inr (inr own) ↦
              inr (
                id,
                box,
                ground (arith, is_in-append id handles last),
                ground (arith, found id),
                own,
              )
          | inr (inl before) ↦ elim (grown.held n before) [
            | inl earlier ↦ inl earlier
            | inr (j, old, inside, known, own) ↦ inr (
              j,
              old,
              ground (arith, is_in-append j handles last),
              ground (arith, found j, absent_before),
              own,
            )
          ]
        ];
        snapshots = launched.snapshots ∙ grown.snapshots;
        ready_pool = launched.ready_pool ∙ grown.ready_pool;
        tracked = λ j old known.
            ground (arith, found j, launched.spawned, launched.kept j, grown.tracked j old);
        distinct = append-IsDistinct handles last grown.distinct outside;
      }
