-- ===== src/Api/Auth/Laws.antt =====
-- Who is let in: what `bearer` and the `authorize` functions of crates/ferrobox-api/src/lib.rs check.
use ferrobox.Prelude.{
  ◌<◌, ◌≡◌, refl, ap, ◌∙◌, ◌≢◌, ◌↔◌, inl, inr, Option, none, some, [], ◌∷◌, ◌++◌, arith,
  Option-cases, ok_or, Result-cases, Text, codes, bytes, text_eq_iff, strip_prefix,
  strip_prefix-eq-some, lookup, ok, err,
}
use ferrobox.Core.Spec.{SandboxId}
use ferrobox.Core.State.{is_running, running}
use ferrobox.Api.Types.{Env, AppState, SandboxRecord, api_unauthorized}
use ferrobox.Api.Auth.{bearer, authorize, authorize_running, admit, non_empty, when_running}

-- The header that carries a token.
abbrev pub Carries : Option Text → Text → Type 0
Carries authorization token = (authorization ≡ some (codes "Bearer " ++ token)) × (token ≢ [])

bearer-Carries :
    (authorization : Option Text) (token : Text)
    → bearer authorization ≡ ok token
    → Carries authorization token
unfolding bearer
bearer-Carries none token h = cc
bearer-Carries (some value) token h = found (strip_prefix (codes "Bearer ") value) refl h
  where
    found :
        (o : Option Text)
        → strip_prefix (codes "Bearer ") value ≡ o
        → (elim o [ none ↦ err api_unauthorized | some t ↦ ok_or (non_empty t) api_unauthorized ])
          ≡ ok token
        → Carries (some value) token
    found none e k = cc
    found (some []) e k = cc
    found (some (c ∷ t)) e k =
        ground (arith, strip_prefix-eq-some (codes "Bearer ") value (c ∷ t) e)

-- What `authorize` asks of a request and of the record that it names.
abbrev pub IsAdmitted :
    {W : Type 0} → Env → SandboxId → Option Text → AppState W → SandboxRecord → Type 0
IsAdmitted env id authorization s r =
    (token : Text) × Carries authorization token
    × (lookup id s.records ≡ some r)
    × (env.now < r.expires_at)
    × (r.token ≡ env.sha256 (bytes token))

admit-eq-ok :
    (env : Env) (token : Text) (found r : SandboxRecord)
    → admit env token found ≡ ok r
    → (found ≡ r) × (env.now < r.expires_at) × (r.token ≡ env.sha256 (bytes token))
admit-eq-ok env token found r h =
    let same = text_eq_iff found.token (env.sha256 (bytes token)) in
    let e : found ≡ r = ground arith in
    (e, rw (← e) (ground arith), rw (← e) (same.0 (ground arith)))

admit-ok :
    (env : Env) (token : Text) (r : SandboxRecord)
    → env.now < r.expires_at
    → r.token ≡ env.sha256 (bytes token)
    → admit env token r ≡ ok r
admit-ok env token r live same =
    let matched = (text_eq_iff r.token (env.sha256 (bytes token))).1 same in ground (arith, matched)

bearer_of_Carries :
    (authorization : Option Text) (token : Text)
    → Carries authorization token
    → bearer authorization ≡ ok token
unfolding bearer
bearer_of_Carries authorization [] c = absurd (c.1 refl)
bearer_of_Carries authorization (t ∷ token) c = rw c.0

module _ {W : Type 0} (env : Env) (id : SandboxId) (authorization : Option Text)
    (s : AppState W) where
  authorize-IsAdmitted :
      (r : SandboxRecord)
      → authorize env id authorization s ≡ ok r
      → IsAdmitted env id authorization s r
  unfolding authorize
  authorize-IsAdmitted r h = elim (Result-cases (bearer authorization)) [
    | inr (e, refused) ↦ cc (rw (refused, authorize) at h)
    | inl (token, carried) ↦ elim (Option-cases (lookup id s.records)) [
      | inl missing ↦ cc (rw (carried, missing, authorize) at h)
      | inr (found, stored) ↦
          let (same, live, matched) =
            admit-eq-ok env token found r (rw (carried, stored, authorize) at h) in
          (token, bearer-Carries authorization token carried, stored ∙ ap some same, live, matched)
    ]
  ]

  IsAdmitted-authorize :
      (r : SandboxRecord)
      → IsAdmitted env id authorization s r
      → authorize env id authorization s ≡ ok r
  unfolding authorize
  IsAdmitted-authorize r (token, carried, stored, live, matched) =
      rw (bearer_of_Carries authorization token carried, stored, authorize)
        (admit-ok env token r live matched)

  -- A request is let in to a sandbox exactly if its header is `Bearer ` and a token that is not
  -- empty, the sandbox has a record, its deadline is still to come, and the record holds the SHA-256
  -- digest of that token; and then the handler works on that record.
  pub authorize_iff :
      (r : SandboxRecord)
      → (authorize env id authorization s ≡ ok r) ↔ IsAdmitted env id authorization s r
  authorize_iff r = (authorize-IsAdmitted r, IsAdmitted-authorize r)

  -- What a request that needs a running sandbox gets.
  pub running_lem :
      (r : SandboxRecord)
      → authorize_running env id authorization s ≡ ok r
      → (lookup id s.records ≡ some r) × (r.state ≡ running)
  unfolding authorize_running is_running
  running_lem r h = elim (Result-cases (authorize env id authorization s)) [
    | inr (e, refused) ↦ cc (rw (refused, authorize_running) at h)
    | inl (found, admitted) ↦
        let good : when_running found ≡ ok r = rw (admitted, authorize_running) at h in
        let same : found ≡ r = ground arith in
        let (token, carried, stored, live, matched) = authorize-IsAdmitted found admitted in
        (stored ∙ ap some same, rw (← same) (ground arith))
  ]
