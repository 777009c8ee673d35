-- ===== src/Api/Types.antt =====
-- The state of crates/ferrobox-api/src/lib.rs and its errors. An error is modelled by its HTTP status
-- and its code; the message, which is text for people, is left out, as are the details of an audit
-- event. The file behind the audit log is a list with an oracle that says which writes succeed.
use ferrobox.Prelude.{
  ℕ, Bool, Option, List, [], ◌∷◌, ◌++◌, if◌then◌else◌, map_err, Text, Bytes, codes, bytes, text_eq,
  Table, ok, err,
}
use ferrobox.Prelude.Exec.{Exec}
use ferrobox.Core.Error.{
  not_found, conflict, invalid_input, unauthorized, unsupported, timeout, resource_exhausted,
  unavailable, internal, RuntimeError,
}
use ferrobox.Core.Spec.{SandboxId}
use ferrobox.Core.State.{SandboxState}

pub record ApiError : Type 0 where
  pub status : ℕ
  pub code : Text

abbrev pub api_bad_request : ApiError
api_bad_request = record { status = 400; code = codes "invalid_request" }

abbrev pub api_unauthorized : ApiError
api_unauthorized = record { status = 401; code = codes "unauthorized" }

abbrev pub api_not_found : ApiError
api_not_found = record { status = 404; code = codes "not_found" }

abbrev pub api_conflict : ApiError
api_conflict = record { status = 409; code = codes "conflict" }

abbrev pub api_expired : ApiError
api_expired = record { status = 410; code = codes "sandbox_expired" }

abbrev pub api_internal : ApiError
api_internal = record { status = 500; code = codes "internal" }

-- `ApiError::from_runtime`
abbrev pub from_runtime : RuntimeError → ApiError
from_runtime not_found = api_not_found
from_runtime conflict = api_conflict
from_runtime invalid_input = api_bad_request
from_runtime unauthorized = api_unauthorized
from_runtime unsupported = record { status = 501; code = codes "unsupported" }
from_runtime timeout = record { status = 504; code = codes "timeout" }
from_runtime resource_exhausted = record { status = 413; code = codes "resource_exhausted" }
from_runtime unavailable = record { status = 503; code = codes "unavailable" }
from_runtime internal = api_internal

pub record SandboxRecord : Type 0 where
  pub token : Bytes
  pub state : SandboxState
  pub node_id : Text
  pub expires_at : ℕ
  pub expires_at_unix_ms : ℕ

pub record SnapshotRecord : Type 0 where
  pub token : Bytes
  pub source_sandbox_id : SandboxId

pub record AuditEvent : Type 0 where
  pub sandbox_id : Option SandboxId
  pub operation : Text
  pub outcome : Text

-- `AppStateInner`, with the state of the runtime that it holds.
pub record AppState (W : Type 0) : Type 0 where
  pub world : W
  pub records : Table SandboxRecord
  pub snapshots : Table SnapshotRecord
  pub audit : List AuditEvent

abbrev pub Handler : Type 0 → Type 0 → Type 0
Handler W A = Exec (AppState W) ApiError A

-- What one request sees of its surroundings: the clocks, in seconds and in milliseconds, the UUID
-- parser, SHA-256, and whether a line of the audit log can be written.
pub record Env : Type 0 where
  pub now : ℕ
  pub unix_ms : ℕ
  pub parse_uuid : Text → Option ℕ
  pub sha256 : Bytes → Bytes
  pub audit_writes : AuditEvent → Bool

-- A call of the runtime, with its error made one of the API.
abbrev pub call : {W A : Type 0} → Exec W RuntimeError A → Handler W A
call m s = let (r, w) = m s.world in (map_err from_runtime r, record s { world = w })

-- `audit.record(..).await.map_err(ApiError::internal)?`
abbrev pub audit_record : {W : Type 0} → Env → AuditEvent → Handler W (Unit {0})
audit_record env event s =
    if env.audit_writes event
    then (ok tt, record s { audit = s.audit ++ event ∷ [] })
    else (err api_internal, s)

-- `TokenDigest::from_plaintext`
abbrev pub token_digest : Env → Text → Bytes
token_digest env plaintext = env.sha256 (bytes plaintext)

-- `TokenDigest::matches`
abbrev pub token_matches : Env → Bytes → Text → Bool
token_matches env digest candidate = text_eq digest (token_digest env candidate)
