-- ===== src/Api/Lifecycle/Tokens.antt =====
-- The token that `create_sandbox` of crates/ferrobox-api/src/lib.rs hands out.
use ferrobox.Prelude.{
  ℕ, ◌+◌, ◌<◌, ◌≡◌, refl, sym, ap, ◌≢◌, inl, inr, some, [], ◌++◌, arith, if◌then◌else◌,
  Result-cases, Text, codes, lookup, insert, lookup-insert, ok,
}
use ferrobox.Core.Spec.{SandboxSpec, validate_spec, internet, disabled}
use ferrobox.Core.Exec.{SandboxHandle}
use ferrobox.Core.Runtime.{SandboxRuntime}
use ferrobox.Api.Types.{Env, AppState, SandboxRecord, token_digest}
use ferrobox.Api.Auth.{authorize}
use ferrobox.Api.Auth.Laws.{authorize_iff, Carries}
use ferrobox.Api.Lifecycle.{
  CreateSandboxRequest, CreateSandboxResponse, create_sandbox, register_sandbox, deadline_ms,
}

module _ {W : Type 0} (env : Env) (runtime : SandboxRuntime W) (token : Text)
    (request : CreateSandboxRequest) where
  abbrev spec_of : SandboxSpec
  spec_of = record {
    template_id = request.template;
    cpu_count = request.cpu_count;
    memory_mb = request.memory_mb;
    timeout_seconds = request.timeout_seconds;
    network = if request.internet_access then internet else disabled;
  }

  -- The record that a sandbox gets.
  abbrev issued : SandboxHandle → SandboxRecord
  issued handle = record {
    token = token_digest env token;
    state = handle.state;
    node_id = handle.node_id;
    expires_at = env.now + request.timeout_seconds;
    expires_at_unix_ms = deadline_ms env.unix_ms request.timeout_seconds;
  }

  created_lem :
      (s s' : AppState W) (response : CreateSandboxResponse)
      → create_sandbox env runtime token request s ≡ (ok response, s')
      → (handle : SandboxHandle) × (response.sandbox_id ≡ handle.sandbox_id)
        × (response.token ≡ token)
        × (response.state ≡ handle.state)
        × (s'.records ≡ insert handle.sandbox_id (issued handle) s.records)
  unfolding create_sandbox register_sandbox
  created_lem s s' response h = elim (Result-cases (validate_spec spec_of)) [
    | inr (e, bad) ↦ absurd (ground arith)
    | inl (u, good) ↦ elim (Result-cases (runtime.create spec_of s.world).0) [
      | inr (e, failed) ↦ absurd (ground arith)
      | inl (handle, made) ↦ (handle, ground arith, ground arith, ground arith, ground arith)
    ]
  ]

  -- After a create that succeeds with a token that is not empty, the answer's token opens the answer's
  -- sandbox: a request with it as bearer token, at any time before the time to live is over, is let in
  -- to the sandbox, in the state that the answer states.
  pub create-IsAdmitted :
      (s s' : AppState W) (response : CreateSandboxResponse) (later : ℕ)
      → token ≢ []
      → create_sandbox env runtime token request s ≡ (ok response, s')
      → later < env.now + request.timeout_seconds
      → (r : SandboxRecord) × (authorize
            (record env { now = later })
            response.sandbox_id
            (some (codes "Bearer " ++ response.token))
            s'
          ≡ ok r)
        × (r.state ≡ response.state)
  create-IsAdmitted s s' response later drawn h live =
      let (handle, id, same, state, records) = created_lem s s' response h in
      let stored : lookup response.sandbox_id s'.records ≡ some (issued handle) =
        ground
          (arith, lookup-insert handle.sandbox_id handle.sandbox_id (issued handle) s.records) in
      let carried : Carries (some (codes "Bearer " ++ response.token)) token =
        (ap (λ t. some (codes "Bearer " ++ t)) same, drawn) in
      (
        issued handle,
        (authorize_iff (record env { now = later }) response.sandbox_id
              (some (codes "Bearer " ++ response.token)) s' (issued handle)).1
            (token, carried, stored, live, refl),
        sym state,
      )
