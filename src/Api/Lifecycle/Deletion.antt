-- ===== src/Api/Lifecycle/Deletion.antt =====
-- `delete_internal` of crates/ferrobox-api/src/lib.rs, which deletions and expiries come to.
-- What a deletion comes to, by the runtime's answer and what the runtime's state is after it.
use ferrobox.Api.Lifecycle.Outcomes.{called, stored-found, transition_ok}
use ferrobox.Core.State.{can_transition_to, deleted, deleting, failed}
use ferrobox.Api.Lifecycle.{delete_internal, event}
use ferrobox.Core.Error.{RuntimeError}
use ferrobox.Core.Runtime.{SandboxRuntime}
use ferrobox.Api.Types.{ApiError, AppState, AuditEvent, Env, SandboxRecord, from_runtime}
use ferrobox.Core.Spec.{SandboxId}
use ferrobox.Prelude.{
  ◌≡◌, refl, inl, inr, Bool, true, none, some, arith, ◌==◌, if◌then◌else◌, Bool-cases, Result,
  is_ok, codes, Table, lookup, remove, insert, lookup-remove, lookup-insert, ok, err,
}

abbrev pub Deletes :
    {W : Type 0}
    → SandboxId
    → SandboxRecord
    → Bool
    → Result RuntimeError (Unit {0}) × W
    → AppState W
    → Result ApiError (Unit {0}) × AppState W
    → Type 0
Deletes id r logged (ok _, w) s (result, s') =
    (is_ok result ≡ logged)
    × (s'.world ≡ w)
    × ((j : SandboxId) → lookup j s'.records ≡ (if id == j then none else lookup j s.records))
Deletes id r logged (err e, w) s (result, s') =
    (result ≡ err (from_runtime e))
    × (s'.world ≡ w)
    × ((j : SandboxId)
        → lookup j s'.records
          ≡ (if id == j then some (record r { state = failed }) else lookup j s.records))

twice_lookup :
    (id : SandboxId) (a b : SandboxRecord) (m : Table SandboxRecord) (j : SandboxId)
    → lookup j (insert id b (insert id a m)) ≡ (if id == j then some b else lookup j m)
twice_lookup id a b m j =
    ground (arith, lookup-insert id j a m, lookup-insert id j b (insert id a m))

removed_lookup :
    (id : SandboxId) (a b : SandboxRecord) (m : Table SandboxRecord) (j : SandboxId)
    → lookup j (remove id (insert id b (insert id a m))) ≡ (if id == j then none else lookup j m)
removed_lookup id a b m j =
    ground (arith, lookup-remove id j (insert id b (insert id a m)), twice_lookup id a b m j)

module _ {W : Type 0} (env : Env) (runtime : SandboxRuntime W) (id : SandboxId) where
  -- The event that a deletion that succeeds writes to the audit log.
  abbrev pub deletion : AuditEvent
  deletion = event (some id) (codes "delete") (codes "succeeded")

  after_answer :
      (r : SandboxRecord) (s : AppState W) (x : Result RuntimeError (Unit {0}) × W)
      → runtime.delete id s.world ≡ x
      → lookup id s.records ≡ some r
      → can_transition_to r.state deleting ≡ true
      → Deletes id r (env.audit_writes deletion) x s (delete_internal env runtime id s)
  unfolding delete_internal can_transition_to
  after_answer r s (ok _, w) answer found allowed =
      let first = transition_ok env runtime id deleting r s found allowed in
      let middle = called env runtime id r deleting s w in
      let second =
        transition_ok env runtime id deleted (record r { state = deleting }) middle
          (stored-found env runtime id r deleting s) refl in
      elim (Bool-cases (env.audit_writes deletion)) [
        | inl written ↦
            rw (first, answer, second, written)
              (
                refl,
                refl,
                removed_lookup id (record r { state = deleting }) (record r { state = deleted })
                    s.records,
              )
        | inr lost ↦
            rw (first, answer, second, lost)
              (
                refl,
                refl,
                removed_lookup id (record r { state = deleting }) (record r { state = deleted })
                    s.records,
              )
      ]
  after_answer r s (err e, w) answer found allowed =
      let first = transition_ok env runtime id deleting r s found allowed in
      let middle = called env runtime id r deleting s w in
      let second =
        transition_ok env runtime id failed (record r { state = deleting }) middle
          (stored-found env runtime id r deleting s) refl in
      rw (first, answer, second)
        (
          refl,
          refl,
          twice_lookup id (record r { state = deleting }) (record r { state = failed }) s.records,
        )

  -- A deletion of a sandbox that has a record whose state may become `deleting`, be it asked for or by
  -- expiry. It calls the runtime's `delete` once. If the runtime succeeds, the record leaves the
  -- table, and the answer is success exactly if the audit log takes the event; if the runtime fails,
  -- its error is the answer, and the record stays, as failed. No other record changes either way.
  pub delete_internal_lem :
      (r : SandboxRecord) (s : AppState W)
      → lookup id s.records ≡ some r
      → can_transition_to r.state deleting ≡ true
      → Deletes id r
          (env.audit_writes deletion)
          (runtime.delete id s.world)
          s
          (delete_internal env runtime id s)
  delete_internal_lem r s found allowed =
      after_answer r s (runtime.delete id s.world) refl found allowed
