-- ===== src/Api/Lifecycle.antt =====
-- The handlers of crates/ferrobox-api/src/lib.rs that create, inspect, pause, resume and delete a
-- sandbox, and those that run commands and touch files in it.
pub mod Evolution
pub mod History
pub mod Deletion
pub mod Outcomes
pub mod Tokens
use ferrobox.Prelude.{
  ℕ, zero, suc, ◌+◌, ◌-◌, ◌*◌, ◌/◌, ◌%◌, ◌^◌, ◌≤◌, ◌<◌, min, ◌≡◌, refl, sym, ap, ◌∙◌, ◌≢◌, ◌↔◌, ◌⊎◌,
  inl, inr, Bool, true, false, not, ◌&&◌, ◌||◌, Option, none, some, List, [], ◌∷◌, ◌++◌, map, arith,
  ltb, leb, ◌==◌, in_range, if◌then◌else◌, ==_iff, ltb_iff, leb_iff, Bool-cases, Option-cases,
  length, is_empty, is_empty-eq-false_iff, all, any, get_elem?, get_or, take, drop, length-append,
  length-take, length-drop, take-append-drop, take_of_length-le, All, all_iff, any-eq-false_iff,
  all-append, any-append, Result, reject_if, ok_or, map_err, is_ok, >>=-eq-ok, Text, Bytes, codes,
  utf8_char, bytes, byte_len, text_eq, text_eq_iff, is_ascii_alphanumeric, is_control,
  is_whitespace, trim_start_while, trim, strip_prefix, starts_with, push_front, split,
  to_ascii_lower, all-bytes, bytes_of_ascii, has_nul, has_nul-eq-false_iff, Table, lookup, remove,
  insert, lookup-remove, lookup-insert, ok, err,
}
use ferrobox.Prelude.Exec.{Exec, pure, raise, lift, refuse_if, modify, ◌>>=◌, ◌>>◌}
use ferrobox.Core.Error.{RuntimeError}
use ferrobox.Core.Spec.{SandboxId, SandboxSpec, NetworkMode, disabled, internet, validate_spec}
use ferrobox.Core.Paths.{SandboxPath, new_sandbox_path}
use ferrobox.Core.Exec.{
  SandboxHandle, ExecRequest, ExecResult, WriteFileRequest, ReadFileRequest, ReadFileResult,
  DirectoryEntry,
}
use ferrobox.Core.State.{
  SandboxState, creating, running, pausing, paused, resuming, deleting, deleted, failed,
  can_transition_to, is_paused,
}
use ferrobox.Core.Runtime.{SandboxRuntime}
use ferrobox.Api.Types.{
  ApiError, Env, AppState, Handler, SandboxRecord, AuditEvent, call, audit_record, token_digest,
  from_runtime, api_bad_request, api_not_found, api_conflict,
}
use ferrobox.Api.Auth.{parse_id, authorized, authorized_running}

-- A request body and its response, without the JSON.
pub record CreateSandboxRequest : Type 0 where
  pub template : Text
  pub cpu_count : ℕ
  pub memory_mb : ℕ
  pub timeout_seconds : ℕ
  pub internet_access : Bool

pub record CreateSandboxResponse : Type 0 where
  pub sandbox_id : SandboxId
  pub node_id : Text
  pub state : SandboxState
  pub token : Text
  pub expires_at_unix_ms : ℕ

pub record SandboxResponse : Type 0 where
  pub sandbox_id : SandboxId
  pub node_id : Text
  pub state : SandboxState
  pub expires_at_unix_ms : ℕ

abbrev pub event : Option SandboxId → Text → Text → AuditEvent
event id operation outcome = record { sandbox_id = id; operation = operation; outcome = outcome }

pub record ExecuteCommandRequest : Type 0 where
  pub argv : List Text
  pub cwd : Text
  pub environment : List (Text × Text)
  pub timeout_seconds : ℕ
  pub max_output_bytes : ℕ

pub record WriteFileBody : Type 0 where
  pub path : Text
  pub content_base64 : Text
  pub overwrite : Bool
  pub mode : Option ℕ

-- `saturating_add(u128::from(ttl_seconds).saturating_mul(1000))`
abbrev pub deadline_ms : ℕ → ℕ → ℕ
deadline_ms unix_ms ttl = min (unix_ms + min (ttl * 1000) (2 ^ 128 - 1)) (2 ^ 128 - 1)

-- A refused validation, as the handlers report it.
abbrev pub bad_request : {E A : Type 0} → Result E A → Result ApiError A
bad_request r = map_err (λ e. api_bad_request) r

abbrev pub is_expired : Env → Option SandboxRecord → Bool
is_expired env none = false
is_expired env (some r) = leb r.expires_at env.now

module _ {W : Type 0} (env : Env) where
  -- `transition`: the one guarded write of a record's state.
  unfoldable pub transition : SandboxId → SandboxState → Handler W (Unit {0})
  transition id target s = elim (lookup id s.records) [
    | none ↦ (err api_not_found, s)
    | some r ↦
        if not (can_transition_to r.state target)
        then (err api_conflict, s)
        else (ok tt, record s { records = insert id (record r { state = target }) s.records })
  ]

  -- `register_sandbox`; `token` is the plaintext that `TokenDigest::issue` draws. The reaper that it
  -- spawns is a later call of `reap`.
  unfoldable pub register_sandbox : Text → SandboxHandle → ℕ → Handler W CreateSandboxResponse
  register_sandbox token handle ttl s =
      let expires = deadline_ms env.unix_ms ttl in
      (
        ok (record {
          sandbox_id = handle.sandbox_id;
          node_id = handle.node_id;
          state = handle.state;
          token = token;
          expires_at_unix_ms = expires;
        }),
        record s {
          records =
              insert handle.sandbox_id
                (record {
                  token = token_digest env token;
                  state = handle.state;
                  node_id = handle.node_id;
                  expires_at = env.now + ttl;
                  expires_at_unix_ms = expires;
                })
                s.records;
        },
      )

  module _ (runtime : SandboxRuntime W) where
    -- The `match` on the runtime's answer in `create_sandbox`.
    abbrev pub create_or_audit : SandboxSpec → Handler W SandboxHandle
    create_or_audit spec s =
        let (r, w) = runtime.create spec s.world in
        elim r [
          | ok handle ↦ (ok handle, record s { world = w })
          | err e ↦
              (do
                audit_record env (event none (codes "create") (codes "failed"))
                raise (from_runtime e))
                (record s { world = w })
        ]

    unfoldable pub create_sandbox : Text → CreateSandboxRequest → Handler W CreateSandboxResponse
    create_sandbox token request = do
      let spec : SandboxSpec = record {
        template_id = request.template;
        cpu_count = request.cpu_count;
        memory_mb = request.memory_mb;
        timeout_seconds = request.timeout_seconds;
        network = if request.internet_access then internet else disabled;
      }
      lift (bad_request (validate_spec spec))
      audit_record env (event none (codes "create") (codes "started"))
      handle ← create_or_audit spec
      response ← register_sandbox token handle spec.timeout_seconds
      audit_record env (event (some response.sandbox_id) (codes "create") (codes "succeeded"))
      pure response

    unfoldable pub get_sandbox : Text → Option Text → Handler W SandboxResponse
    get_sandbox id authorization = do
      id ← lift (parse_id env id)
      r ← authorized env id authorization
      pure (record {
        sandbox_id = id;
        node_id = r.node_id;
        state = r.state;
        expires_at_unix_ms = r.expires_at_unix_ms;
      })

    -- `if let Err(error) = answer { transition(failed)?; return Err(from_runtime(error)) }`
    abbrev pub or_fail : SandboxId → Result RuntimeError (Unit {0}) → Handler W (Unit {0})
    or_fail id (ok _) = pure tt
    or_fail id (err e) = do transition id failed; raise (from_runtime e)

    abbrev pub call_or_fail : SandboxId → Exec W RuntimeError (Unit {0}) → Handler W (Unit {0})
    call_or_fail id m s = let (r, w) = m s.world in or_fail id r (record s { world = w })

    unfoldable pub pause_sandbox : Text → Option Text → Handler W (Unit {0})
    pause_sandbox id authorization = do
      id ← lift (parse_id env id)
      authorized_running env id authorization
      transition id pausing
      call_or_fail id (runtime.pause id)
      transition id paused

    unfoldable pub resume_sandbox : Text → Option Text → Handler W (Unit {0})
    resume_sandbox id authorization = do
      id ← lift (parse_id env id)
      r ← authorized env id authorization
      refuse_if (not (is_paused r.state)) api_conflict
      transition id resuming
      call_or_fail id (runtime.resume id)
      transition id running

    unfoldable pub delete_internal : SandboxId → Handler W (Unit {0})
    delete_internal id = do
      transition id deleting
      call_or_fail id (runtime.delete id)
      transition id deleted
      modify (λ s. record s { records = remove id s.records })
      audit_record env (event (some id) (codes "delete") (codes "succeeded"))

    unfoldable pub delete_sandbox : Text → Option Text → Handler W (Unit {0})
    delete_sandbox id authorization = do
      id ← lift (parse_id env id)
      authorized env id authorization
      delete_internal id

    -- The task of `spawn_ttl_reaper` once its time to live is over; it logs an error of the cleanup
    -- and drops it.
    unfoldable pub reap : SandboxId → AppState W → AppState W
    reap id s = if is_expired env (lookup id s.records) then (delete_internal id s).1 else s

    -- The response carries the result of the runtime; its texts in base64 are left to the encoder.
    unfoldable pub execute_command :
        Text → Option Text → ExecuteCommandRequest → Handler W ExecResult
    execute_command id authorization request = do
      id ← lift (parse_id env id)
      authorized_running env id authorization
      cwd ← lift (bad_request (new_sandbox_path request.cwd))
      result ← call (
          runtime.execute id (record {
            argv = request.argv;
            cwd = cwd;
            environment = request.environment;
            timeout_seconds = request.timeout_seconds;
            max_output_bytes = request.max_output_bytes;
          }))
      audit_record env (event (some id) (codes "execute") (codes "succeeded"))
      pure result

    -- `decode` is the base64 decoder.
    unfoldable pub write_file :
        (Text → Option Bytes) → Text → Option Text → WriteFileBody → Handler W ℕ
    write_file decode id authorization request = do
      id ← lift (parse_id env id)
      authorized_running env id authorization
      contents ← lift (ok_or (decode request.content_base64) api_bad_request)
      path ← lift (bad_request (new_sandbox_path request.path))
      written ← call (
          runtime.write id (record {
            path = path;
            contents = contents;
            overwrite = request.overwrite;
            mode = request.mode;
          }))
      audit_record env (event (some id) (codes "write_file") (codes "succeeded"))
      pure written

    unfoldable pub read_file : Text → Option Text → Text → ℕ → ℕ → Handler W ReadFileResult
    read_file id authorization path offset max_bytes = do
      id ← lift (parse_id env id)
      authorized_running env id authorization
      path ← lift (bad_request (new_sandbox_path path))
      call (runtime.read id (record { path = path; offset = offset; max_bytes = max_bytes }))

    unfoldable pub list_directory : Text → Option Text → Text → Handler W (List DirectoryEntry)
    list_directory id authorization path = do
      id ← lift (parse_id env id)
      authorized_running env id authorization
      path ← lift (bad_request (new_sandbox_path path))
      call (runtime.list id path)
