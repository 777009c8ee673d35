-- ===== src/Guest/Session/Identity.antt =====
-- Who can change the identity that crates/ferrobox-guest/src/service.rs keeps.
use ferrobox.Guest.Session.{
  ℕ, GuestState, ap, configure_pids_limit, InitState, InitRequest, Machine, is_invalid_init,
  authorized, candidate, is_replay, install, init, rekey, failed_precondition,
}
use ferrobox.Prelude.{
  ◌∙◌, ap, ◌≡◌, refl, ◌≢◌, ◌↔◌, inl, inr, Bool, true, false, Option, none, some, List, [], ◌∷◌,
  arith, Bool-cases, All, is_ok, Text, bytes, text_eq, text_eq_iff, ok, err,
}

pub data GuestCall : Type 0 where
  init_call : InitRequest → GuestCall
  rekey_call : Option Text → InitRequest → GuestCall

module _ (m : Machine) where
  abbrev pub serve : GuestCall → GuestState → GuestState
  serve (init_call request) s = (init m request s).1
  serve (rekey_call auth request) s = (rekey m auth request s).1

  abbrev pub serve_all : List GuestCall → GuestState → GuestState
  serve_all [] s = s
  serve_all (c ∷ calls) s = serve_all calls (serve c s)

  -- The call does not present a token with the digest that the state has.
  abbrev pub IsStranger : InitState → GuestCall → Type 0
  IsStranger state (init_call request) = Unit
  IsStranger state (rekey_call none request) = Unit
  IsStranger state (rekey_call (some token) request) = state.token_digest ≢ m.sha256 (bytes token)

  serve_stranger :
      (state : InitState) (pids_max : Option ℕ) (c : GuestCall)
      → IsStranger state c
      → (serve c (record { initialization = some state; pids_max = pids_max })).initialization
        ≡ some state
  unfolding init install rekey authorized configure_pids_limit
  serve_stranger state pids_max (init_call request) h = ground arith
  serve_stranger state pids_max (rekey_call none request) h = refl
  serve_stranger state pids_max (rekey_call (some token) request) h =
      let other : text_eq state.token_digest (m.sha256 (bytes token)) ≡ false =
        ground (arith, text_eq_iff state.token_digest (m.sha256 (bytes token))) in
      rw (other, serve, rekey, authorized) refl

  -- A guest that has been initialised keeps its identity, its digest of a token, its users and its
  -- limit on the size of files through any sequence of calls of `init`, and of `rekey` without its
  -- current token. The limit on processes of its control group is not among what is kept.
  pub strangers_change_nothing :
      (state : InitState) (calls : List GuestCall) (s : GuestState)
      → All (IsStranger state) calls
      → s.initialization ≡ some state
      → (serve_all calls s).initialization ≡ some state
  strangers_change_nothing state [] s h here = here
  strangers_change_nothing state (c ∷ calls) s (p, h) here =
      strangers_change_nothing state calls (serve c s) h (
        ap (λ i. (serve c (record s { initialization = i })).initialization) here
        ∙ serve_stranger state s.pids_max c p)

  abbrev pub HasIdentity : InitState → InitRequest → Type 0
  HasIdentity state request =
      (state.sandbox_id ≡ request.sandbox_id)
      × (state.token_digest ≡ m.sha256 (bytes request.token))
      × (state.uid ≡ request.command_uid)
      × (state.gid ≡ request.command_gid)

  replay_iff :
      (state : InitState) (request : InitRequest) (cgroup : Bool)
      → (is_replay m state (candidate m request cgroup) ≡ true) ↔ HasIdentity state request
  replay_iff state request cgroup =
      let name = text_eq_iff state.sandbox_id request.sandbox_id in
      let token = text_eq_iff state.token_digest (m.sha256 (bytes request.token)) in
      ground (arith, name, token)

  -- A well-formed `init` of a guest that has an identity, where the guest's control group can be made
  -- and the limit be written, answers that it is a replay exactly if it carries that same identity,
  -- and refuses exactly if it does not. Either way the guest keeps its identity, and `pids.max` holds
  -- the limit of this request, also of one that is refused.
  pub init_lem :
      (request : InitRequest) (state : InitState) (pids_max : Option ℕ)
      → is_invalid_init request ≡ false
      → m.makes_cgroup ≡ true
      → m.writes_pids_max request.max_processes ≡ true
      → let (answer, after) =
          init m request (record { initialization = some state; pids_max = pids_max }) in
        ((answer ≡ ok true) ↔ HasIdentity state request)
        × ((answer ≡ err failed_precondition) ↔ (¬ (HasIdentity state request)))
        × (after ≡ record { initialization = some state; pids_max = some request.max_processes })
  unfolding init install configure_pids_limit
  init_lem request state pids_max valid made written =
      let same = replay_iff state request true in
      elim (Bool-cases (is_replay m state (candidate m request true))) [
        | inl replay ↦
            rw (valid, made, written, replay)
              (
                (λ h. same.0 replay, λ h. refl),
                (λ h. ground arith, λ no. absurd (no (same.0 replay))),
                refl,
              )
        | inr other ↦
            rw (valid, made, written, other)
              (
                (λ h. ground arith, λ yes. ground (arith, same.1 yes)),
                (λ h yes. ground (arith, same.1 yes), λ h. refl),
                refl,
              )
      ]

  install-IsAccepted :
      (request : InitRequest) (i : Option InitState) (pids_max : Option ℕ) (after : GuestState)
      (replayed cgroup : Bool)
      → install m request
          (candidate m request cgroup)
          i
          (record { initialization = i; pids_max = pids_max })
        ≡ (ok replayed, after)
      → is_ok (authorized m (some request.token) after.initialization) ≡ true
  unfolding install authorized
  install-IsAccepted request none pids_max after replayed cgroup h =
      let same = text_eq_iff (m.sha256 (bytes request.token)) (m.sha256 (bytes request.token)) in
      ground (arith, same)
  install-IsAccepted request (some state) pids_max after replayed cgroup h =
      let same = text_eq_iff state.token_digest (m.sha256 (bytes request.token)) in
      ground (arith, same)

  -- After an `init` that succeeds, whether it installed the identity or was a replay, the token that it
  -- carried is one that the guest accepts.
  pub token-IsAccepted :
      (request : InitRequest) (s after : GuestState) (replayed : Bool)
      → init m request s ≡ (ok replayed, after)
      → is_ok (authorized m (some request.token) after.initialization) ≡ true
  unfolding init configure_pids_limit
  token-IsAccepted request s after replayed h = elim (Bool-cases (is_invalid_init request)) [
    | inl invalid ↦ absurd (ground arith)
    | inr valid ↦ elim (Bool-cases m.makes_cgroup) [
      | inr unavailable ↦
          install-IsAccepted request s.initialization s.pids_max after replayed false (ground arith)
      | inl made ↦ elim (Bool-cases (m.writes_pids_max request.max_processes)) [
        | inr refused ↦ absurd (ground arith)
        | inl written ↦
            install-IsAccepted request s.initialization (some request.max_processes) after replayed
              true (ground arith)
      ]
    ]
  ]
