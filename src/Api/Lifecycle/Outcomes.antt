-- ===== src/Api/Lifecycle/Outcomes.antt =====
-- What the handlers that drive the runtime do, on success, on a failure of the runtime, and for a
-- request that is not let in.
use ferrobox.Api.Lifecycle.{
  WriteFileBody, ExecuteCommandRequest, list_directory, read_file, write_file, execute_command,
  delete_sandbox, get_sandbox, transition, or_fail, call_or_fail, pause_sandbox, resume_sandbox,
}
use ferrobox.Prelude.{
  ℕ, ◌≡◌, refl, ◌∙◌, inl, inr, true, false, Option, some, ◌==◌, ==_iff, Result, map_err,
  Result-cases, Text, Bytes, lookup, insert, lookup-insert, ok, err,
}
use ferrobox.Prelude.Exec.{Exec, ◌>>◌}
use ferrobox.Core.Error.{RuntimeError}
use ferrobox.Core.Spec.{SandboxId}
use ferrobox.Core.State.{
  SandboxState, can_transition_to, failed, running, pausing, paused, resuming, is_paused,
}
use ferrobox.Core.Runtime.{SandboxRuntime}
use ferrobox.Api.Types.{ApiError, Env, AppState, Handler, SandboxRecord, from_runtime}
use ferrobox.Api.Auth.{authorize, authorize_running}
use ferrobox.Api.Auth.Laws.{authorize_iff, running_lem}

-- The state that a request leaves a sandbox in, by the runtime's answer.
abbrev pub settled : SandboxState → Result RuntimeError (Unit {0}) → SandboxState
settled target (ok _) = target
settled target (err _) = failed

-- The state after a handler, and its answer: `m` was called once, its answer was passed on, and only
-- the record of `id` was changed, to the state that the answer settles.
abbrev pub IsSettled :
    {W : Type 0}
    → SandboxId
    → SandboxRecord
    → SandboxState
    → Result RuntimeError (Unit {0}) × W
    → AppState W
    → Result ApiError (Unit {0}) × AppState W
    → Type 0
IsSettled id r target (answer, w) s (result, s') =
    (result ≡ map_err from_runtime answer)
    × (s'.world ≡ w)
    × (lookup id s'.records ≡ some (record r { state = settled target answer }))
    × ((j : SandboxId) → (id == j) ≡ false → lookup j s'.records ≡ lookup j s.records)

module _ {W : Type 0} (env : Env) (runtime : SandboxRuntime W) (id : SandboxId) where
  pub transition_ok :
      (target : SandboxState) (r : SandboxRecord) (s : AppState W)
      → lookup id s.records ≡ some r
      → can_transition_to r.state target ≡ true
      → transition env id target s
        ≡ (ok tt, record s { records = insert id (record r { state = target }) s.records })
  unfolding transition
  transition_ok target r s found allowed = rw (found, allowed, transition)

  abbrev stored : SandboxRecord → SandboxState → AppState W → AppState W
  stored r t s = record s { records = insert id (record r { state = t }) s.records }

  pub stored-found :
      (r : SandboxRecord) (t : SandboxState) (s : AppState W)
      → lookup id (stored r t s).records ≡ some (record r { state = t })
  stored-found r t s = rw (lookup-insert, (==_iff id id).1 refl)

  abbrev pub called : SandboxRecord → SandboxState → AppState W → W → AppState W
  called r t s w = record (stored r t s) { world = w }

  twice-found :
      (r : SandboxRecord) (t u : SandboxState) (s : AppState W)
      → lookup id (stored (record r { state = t }) u (stored r t s)).records
        ≡ some (record r { state = u })
  twice-found r t u s = rw (lookup-insert, (==_iff id id).1 refl)

  twice-other :
      (r : SandboxRecord) (t u : SandboxState) (s : AppState W) (j : SandboxId)
      → (id == j) ≡ false
      → lookup j (stored (record r { state = t }) u (stored r t s)).records ≡ lookup j s.records
  twice-other r t u s j other =
      lookup-insert id j _ _ ∙ rw other (lookup-insert id j _ _ ∙ rw other)

  abbrev drive : SandboxState → SandboxState → Exec W RuntimeError (Unit {0}) → Handler W (Unit {0})
  drive mid target m = do
    transition env id mid
    call_or_fail env runtime id m
    transition env id target

  drive_lem :
      (mid target : SandboxState) (m : Exec W RuntimeError (Unit {0})) (r : SandboxRecord)
      (s : AppState W)
      → lookup id s.records ≡ some r
      → can_transition_to r.state mid ≡ true
      → can_transition_to mid target ≡ true
      → can_transition_to mid failed ≡ true
      → IsSettled id r target (m s.world) s (drive mid target m s)
  drive_lem mid target m r s found first second third =
      rw (transition_ok mid r s found first) (elim (Result-cases (m s.world).0) [
        | inl (a, answer) ↦
            rw
              (
                answer,
                or_fail,
                transition_ok target (record r { state = mid }) (called r mid s (m s.world).1)
                    (stored-found r mid s) second,
              )
              (refl, refl, twice-found r mid target s, twice-other r mid target s)
        | inr (e, answer) ↦
            rw
              (
                answer,
                or_fail,
                transition_ok failed (record r { state = mid }) (called r mid s (m s.world).1)
                    (stored-found r mid s) third,
              )
              (refl, refl, twice-found r mid failed s, twice-other r mid failed s)
      ])

module _ {W : Type 0} (env : Env) (runtime : SandboxRuntime W) (text : Text)
    (authorization : Option Text) where
  -- A pause that is let in for a running sandbox calls the runtime's `pause` once and passes its answer
  -- on; the sandbox ends up `Paused` if the runtime succeeds and `Failed` if it does not, and no other
  -- record changes.
  pub pause-IsSettled :
      (id : SandboxId) (r : SandboxRecord) (s : AppState W)
      → env.parse_uuid text ≡ some id
      → authorize_running env id authorization s ≡ ok r
      → IsSettled id r paused
          (runtime.pause id s.world)
          s
          (pause_sandbox env runtime text authorization s)
  unfolding pause_sandbox can_transition_to
  pause-IsSettled id r s parsed admitted =
      let (found, live) = running_lem env id authorization s r admitted in
      rw (parsed, admitted)
        (drive_lem env runtime id pausing paused (runtime.pause id) r s found (rw live) refl refl)

  -- A resume that is let in for a paused sandbox calls the runtime's `resume` once and passes its
  -- answer on; the sandbox ends up `Running` if the runtime succeeds and `Failed` if it does not, and
  -- no other record changes.
  pub resume-IsSettled :
      (id : SandboxId) (r : SandboxRecord) (s : AppState W)
      → env.parse_uuid text ≡ some id
      → authorize env id authorization s ≡ ok r
      → r.state ≡ paused
      → IsSettled id r running
          (runtime.resume id s.world)
          s
          (resume_sandbox env runtime text authorization s)
  unfolding resume_sandbox can_transition_to is_paused
  resume-IsSettled id r s parsed admitted waiting =
      let (token, carried, found, live, matched) =
        (authorize_iff env id authorization s r).0 admitted in
      rw (parsed, admitted, waiting)
        (drive_lem env runtime id resuming running (runtime.resume id) r s found (rw waiting) refl
          refl)

  running_refused :
      (id : SandboxId) (e : ApiError) (s : AppState W)
      → authorize env id authorization s ≡ err e
      → authorize_running env id authorization s ≡ err e
  unfolding authorize_running
  running_refused id e s refused = rw (refused, authorize_running)

  -- A request for a sandbox that is not let in gets that error, and neither the records nor the
  -- runtime nor the audit log see anything of it: so for inspection, pause, resume, deletion, commands,
  -- writes, reads and listings.
  pub refused_changes_nothing :
      (id : SandboxId) (e : ApiError) (s : AppState W)
      → env.parse_uuid text ≡ some id
      → authorize env id authorization s ≡ err e
      → (get_sandbox env runtime text authorization s ≡ (err e, s))
        × (pause_sandbox env runtime text authorization s ≡ (err e, s))
        × (resume_sandbox env runtime text authorization s ≡ (err e, s))
        × (delete_sandbox env runtime text authorization s ≡ (err e, s))
        × ((request : ExecuteCommandRequest)
            → execute_command env runtime text authorization request s ≡ (err e, s))
        × ((decode : Text → Option Bytes) (body : WriteFileBody)
            → write_file env runtime decode text authorization body s ≡ (err e, s))
        × ((path : Text) (offset max_bytes : ℕ)
            → read_file env runtime text authorization path offset max_bytes s ≡ (err e, s))
        × ((path : Text) → list_directory env runtime text authorization path s ≡ (err e, s))
  unfolding get_sandbox pause_sandbox resume_sandbox delete_sandbox execute_command write_file
      read_file list_directory
  refused_changes_nothing id e s parsed refused =
      let running_too = running_refused id e s refused in
      (
        rw (parsed, refused),
        rw (parsed, running_too),
        rw (parsed, refused),
        rw (parsed, refused),
        λ request. rw (parsed, running_too),
        λ decode body. rw (parsed, running_too),
        λ path offset max_bytes. rw (parsed, running_too),
        λ path. rw (parsed, running_too),
      )
