-- ===== src/Core/State/Reach.antt =====
-- Which states follow which under the transitions that `can_transition_to` allows.
use ferrobox.Prelude.{ℕ, ◌≤◌, ◌≡◌, refl, ◌≢◌, ◌⊎◌, ◌↔◌, inl, inr, true, arith}
use mathlib.Core.Path.{subst}
use ferrobox.Core.State.{
  SandboxState, creating, running, pausing, paused, resuming, deleting, deleted, failed,
  can_transition_to,
}

pub data Reach (s : SandboxState) : SandboxState → Type 0 where
  here : Reach s s
  next : {t u : SandboxState} → Reach s t → can_transition_to t u ≡ true → Reach s u

-- Life, teardown, gone.
abbrev pub phase : SandboxState → ℕ
phase deleted = 2
phase deleting = 1
phase failed = 1
phase _ = 0

-- A later state: nothing follows `deleted`, nothing leads back to `creating` or out of teardown.
abbrev pub CanBecome : SandboxState → SandboxState → Type 0
CanBecome s t = (s ≢ deleted) × (t ≢ creating) × (phase s ≤ phase t)

step-CanBecome : (s t : SandboxState) → can_transition_to s t ≡ true → CanBecome s t
unfolding can_transition_to
step-CanBecome s t h = ground arith

Reach-CanBecome : {s t : SandboxState} → Reach s t → (s ≡ t) ⊎ CanBecome s t
Reach-CanBecome here = inl refl
Reach-CanBecome (next {t} {u} r h) = ground (arith, Reach-CanBecome r, step-CanBecome t u h)

pub trans : {s t u : SandboxState} → Reach s t → Reach t u → Reach s u
trans r here = r
trans r (next q h) = next (trans r q) h

to_deleting : (s : SandboxState) → s ≢ deleted → Reach s deleting
unfolding can_transition_to
to_deleting deleting h = here
to_deleting deleted h = absurd (h refl)
to_deleting _ h = next here refl

to_running : (s : SandboxState) → phase s ≤ 0 → Reach s running
unfolding can_transition_to
to_running creating h = next here refl
to_running running h = here
to_running pausing h = next {t = resuming} (next {t = paused} (next here refl) refl) refl
to_running paused h = next {t = resuming} (next here refl) refl
to_running resuming h = next here refl
to_running _ h = absurd (omega arith)

CanBecome-Reach : (s t : SandboxState) → CanBecome s t → Reach s t
unfolding can_transition_to
CanBecome-Reach s creating c = absurd (c.1 refl)
CanBecome-Reach s running c = to_running s c.2
CanBecome-Reach s pausing c = next (to_running s c.2) refl
CanBecome-Reach s paused c = next {t = pausing} (next (to_running s c.2) refl) refl
CanBecome-Reach s resuming c =
    next {t = paused} (next {t = pausing} (next (to_running s c.2) refl) refl) refl
CanBecome-Reach s deleting c = to_deleting s c.0
CanBecome-Reach s deleted c = next (to_deleting s c.0) refl
CanBecome-Reach s failed c = next (to_deleting s c.0) refl

-- The states that chains of allowed transitions lead to: from any state but `deleted` every state
-- but `creating` that is not of an earlier phase, where life comes before `deleting` and `failed`,
-- and these before `deleted`. So no chain leads from teardown back to life, and every sandbox can
-- be deleted.
pub Reach-iff : (s t : SandboxState) → Reach s t ↔ ((s ≡ t) ⊎ CanBecome s t)
Reach-iff s t = (Reach-CanBecome, back)
  where
    back : (s ≡ t) ⊎ CanBecome s t → Reach s t
    back (inl e) = subst (λ u. Reach s u) e here
    back (inr c) = CanBecome-Reach s t c
