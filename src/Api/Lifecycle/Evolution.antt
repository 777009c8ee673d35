-- ===== src/Api/Lifecycle/Evolution.antt =====
-- The life of a record under the handlers: its state follows the allowed transitions, whatever the
-- runtime answers and wherever a handler stops.
use ferrobox.Api.Lifecycle.{
  is_expired, transition, or_fail, call_or_fail, pause_sandbox, resume_sandbox, delete_internal,
  delete_sandbox, reap, event,
}
use ferrobox.Prelude.{
  ◌≡◌, refl, ◌∙◌, inl, inr, Bool, true, false, not, Option, none, some, ◌==◌, ==_iff, Bool-cases,
  Option-cases, Result, Text, codes, Table, lookup, remove, insert, lookup-remove, lookup-insert,
  ok, err,
}
use ferrobox.Prelude.Exec.{Exec, continue, ◌>>=◌, ◌>>◌, lift, raise, modify, refuse_if}
use ferrobox.Core.Error.{RuntimeError}
use ferrobox.Core.Spec.{SandboxId}
use ferrobox.Core.State.{
  SandboxState, can_transition_to, deleted, failed, pausing, paused, resuming, running, deleting,
  is_paused,
}
use ferrobox.Core.State.Reach.{Reach, here, next, trans}
use ferrobox.Core.Runtime.{SandboxRuntime}
use ferrobox.Api.Types.{
  ApiError, Env, AppState, Handler, SandboxRecord, audit_record, AuditEvent, from_runtime,
  api_conflict,
}
use ferrobox.Api.Auth.{authorized, authorized_running, parse_id}

-- How the entry of one sandbox may change: it keeps its token and deadline, its state moves along
-- allowed transitions, and once it has gone it does not come back.
abbrev pub Evolves : Option SandboxRecord → Option SandboxRecord → Type 0
Evolves none none = Unit
Evolves none (some r) = ⊥
Evolves (some r) none = Unit
Evolves (some r) (some q) =
    Reach r.state q.state × (r.token ≡ q.token) × (r.expires_at ≡ q.expires_at)

Evolves-refl : (o : Option SandboxRecord) → Evolves o o
Evolves-refl none = tt
Evolves-refl (some r) = (here, refl, refl)

Evolves-trans : (o p q : Option SandboxRecord) → Evolves o p → Evolves p q → Evolves o q
Evolves-trans none none none h k = tt
Evolves-trans none none (some c) h k = k
Evolves-trans none (some b) q h k = absurd h
Evolves-trans (some a) none none h k = tt
Evolves-trans (some a) none (some c) h k = absurd k
Evolves-trans (some a) (some b) none h k = tt
Evolves-trans (some a) (some b) (some c) h k = (trans h.0 k.0, h.1 ∙ k.1, h.2 ∙ k.2)

pub record Follows {W : Type 0} (s s' : AppState W) : Type 0 where
  pub at : (j : SandboxId) → Evolves (lookup j s.records) (lookup j s'.records)

-- A handler follows the transitions from every state.
pub record Safe {W A : Type 0} (m : Handler W A) : Type 0 where
  pub follows : (s : AppState W) → Follows s (m s).1

module _ {W : Type 0} where
  pub Follows-refl : (s : AppState W) → Follows s s
  Follows-refl s = record { at = λ j. Evolves-refl (lookup j s.records) }

  pub Follows-trans : (s t u : AppState W) → Follows s t → Follows t u → Follows s u
  Follows-trans s t u h k = record {
    at = λ j.
        Evolves-trans (lookup j s.records) (lookup j t.records) (lookup j u.records) (h.at j)
          (k.at j);
  }

module _ {W A B : Type 0} where
  continue-Follows :
      (s : AppState W) (r : Result ApiError A) (t : AppState W) (f : A → Handler W B)
      → Follows s t
      → ((a : A) → Safe (f a))
      → Follows s (continue (r, t) f).1
  continue-Follows s (ok a) t f h safe = Follows-trans s t _ h ((safe a).follows t)
  continue-Follows s (err e) t f h safe = h

  Safe-bind :
      (m : Handler W A) (f : A → Handler W B) → Safe m → ((a : A) → Safe (f a)) → Safe (m >>= f)
  Safe-bind m f safe rest = record {
    follows = λ s. continue-Follows s (m s).0 (m s).1 f (safe.follows s) rest;
  }

  Safe-then : (m : Handler W A) (k : Handler W B) → Safe m → Safe k → Safe (m >> k)
  Safe-then m k safe rest = Safe-bind m (λ _. k) safe (λ _. rest)

module _ {W : Type 0} where
  Safe-lift : {A : Type 0} (r : Result ApiError A) → Safe (lift {S = AppState W} r)
  Safe-lift r = record { follows = Follows-refl }

  Safe-raise : {A : Type 0} (e : ApiError) → Safe (raise {S = AppState W} {A = A} e)
  Safe-raise e = record { follows = Follows-refl }

  Safe-refuse : (b : Bool) (e : ApiError) → Safe (refuse_if {S = AppState W} b e)
  Safe-refuse true e = record { follows = Follows-refl }
  Safe-refuse false e = record { follows = Follows-refl }

-- A write of a record's state that the table allows.
moved-Evolves :
    (id j : SandboxId) (r : SandboxRecord) (target : SandboxState) (m : Table SandboxRecord)
    → lookup id m ≡ some r
    → can_transition_to r.state target ≡ true
    → Evolves (lookup j m) (lookup j (insert id (record r { state = target }) m))
moved-Evolves id j r target m found allowed = elim (Bool-cases (id == j)) [
  | inl same ↦
      rw (lookup-insert, same, ← (==_iff id j).0 same, found) (next here allowed, refl, refl)
  | inr other ↦ rw (lookup-insert, other) (Evolves-refl (lookup j m))
]

module _ {W : Type 0} (env : Env) where
  Safe-authorized : (id : SandboxId) (a : Option Text) → Safe (authorized {W = W} env id a)
  Safe-authorized id a = record { follows = Follows-refl }

  Safe-authorized_running :
      (id : SandboxId) (a : Option Text) → Safe (authorized_running {W = W} env id a)
  Safe-authorized_running id a = record { follows = Follows-refl }

  audit_record-Follows : (e : AuditEvent) (s : AppState W) → Follows s (audit_record env e s).1
  audit_record-Follows e s = elim (Bool-cases (env.audit_writes e)) [
    | inl written ↦ rw written (record { at = λ j. Evolves-refl (lookup j s.records) })
    | inr lost ↦ rw lost (Follows-refl s)
  ]

  Safe-transition :
      (id : SandboxId) (target : SandboxState) → Safe (transition {W = W} env id target)
  unfolding transition
  Safe-transition id target = record {
    follows = λ s. elim (Option-cases (lookup id s.records)) [
      | inl missing ↦ rw (missing, transition) (Follows-refl s)
      | inr (r, found) ↦ elim (Bool-cases (can_transition_to r.state target)) [
        | inl allowed ↦
            rw (found, allowed, transition)
              (record { at = λ j. moved-Evolves id j r target s.records found allowed })
        | inr refused ↦ rw (found, refused, transition) (Follows-refl s)
      ]
    ];
  }

  module _ (runtime : SandboxRuntime W) where
    Safe-or_fail :
        (id : SandboxId) (r : Result RuntimeError (Unit {0})) → Safe (or_fail env runtime id r)
    Safe-or_fail id (ok _) = record { follows = Follows-refl }
    Safe-or_fail id (err e) =
        Safe-then _ _ (Safe-transition id failed) (Safe-raise (from_runtime e))

    Safe-call_or_fail :
        (id : SandboxId) (m : Exec W RuntimeError (Unit {0})) → Safe (call_or_fail env runtime id m)
    Safe-call_or_fail id m = record {
      follows = λ s. record {
        at = ((Safe-or_fail id (m s.world).0).follows (record s { world = (m s.world).1 })).at;
      };
    }

    pub Safe-pause : (id : Text) (a : Option Text) → Safe (pause_sandbox env runtime id a)
    unfolding pause_sandbox
    Safe-pause id a = Safe-bind _ _ (Safe-lift (parse_id env id)) λ id.
        Safe-then _ _ (Safe-authorized_running id a) (
          Safe-then _ _ (Safe-transition id pausing)
            (Safe-then _ _ (Safe-call_or_fail id (runtime.pause id)) (Safe-transition id paused)))

    pub Safe-resume : (id : Text) (a : Option Text) → Safe (resume_sandbox env runtime id a)
    unfolding resume_sandbox
    Safe-resume id a = Safe-bind _ _ (Safe-lift (parse_id env id)) λ id.
        Safe-bind _ _ (Safe-authorized id a) λ r.
          Safe-then _ _ (Safe-refuse (not (is_paused r.state)) api_conflict) (
            Safe-then _ _ (Safe-transition id resuming) (
              Safe-then _ _ (Safe-call_or_fail id (runtime.resume id))
                (Safe-transition id running)))

    -- The end of `delete_internal`: the record leaves the table from the state `deleted`.
    abbrev finish : SandboxId → Handler W (Unit {0})
    finish id = do
      transition env id deleted
      modify (λ s. record s { records = remove id s.records })
      audit_record env (event (some id) (codes "delete") (codes "succeeded"))

    removed-Evolves :
        (id j : SandboxId) (r : SandboxRecord) (m : Table SandboxRecord)
        → lookup id m ≡ some r
        → can_transition_to r.state deleted ≡ true
        → Evolves (lookup j m) (lookup j (remove id (insert id (record r { state = deleted }) m)))
    removed-Evolves id j r m found allowed = elim (Bool-cases (id == j)) [
      | inl same ↦ rw (lookup-remove, same, ← (==_iff id j).0 same, found) tt
      | inr other ↦ rw (lookup-remove, other, lookup-insert, other) (Evolves-refl (lookup j m))
    ]

    Safe-finish : (id : SandboxId) → Safe (finish id)
    unfolding transition
    Safe-finish id = record {
      follows = λ s. elim (Option-cases (lookup id s.records)) [
        | inl missing ↦ rw (missing, transition) (Follows-refl s)
        | inr (r, found) ↦ elim (Bool-cases (can_transition_to r.state deleted)) [
          | inl allowed ↦
              rw (found, allowed, transition)
                (Follows-trans s _ _
                  (record { at = λ j. removed-Evolves id j r s.records found allowed })
                  (audit_record-Follows _ _))
          | inr refused ↦ rw (found, refused, transition) (Follows-refl s)
        ]
      ];
    }

    Safe-delete_internal : (id : SandboxId) → Safe (delete_internal env runtime id)
    unfolding delete_internal
    Safe-delete_internal id =
        Safe-then _ _ (Safe-transition id deleting)
          (Safe-then _ _ (Safe-call_or_fail id (runtime.delete id)) (Safe-finish id))

    pub Safe-delete : (id : Text) (a : Option Text) → Safe (delete_sandbox env runtime id a)
    unfolding delete_sandbox
    Safe-delete id a =
        Safe-bind _ _ (Safe-lift (parse_id env id))
          λ id. Safe-then _ _ (Safe-authorized id a) (Safe-delete_internal id)

    pub reap-Follows : (id : SandboxId) (s : AppState W) → Follows s (reap env runtime id s)
    unfolding reap
    reap-Follows id s = elim (Bool-cases (is_expired env (lookup id s.records))) [
      | inl expired ↦ rw expired ((Safe-delete_internal id).follows s)
      | inr live ↦ rw live (Follows-refl s)
    ]
