-- ===== src/Core/Exec.antt =====
-- The requests and results of the runtime interface in crates/ferrobox-core/src/lib.rs.
pub mod Laws
use ferrobox.Core.Error.{RuntimeError, ValidationError, argv, timeout, output_limit, environment}
use ferrobox.Prelude.{
  ℕ, zero, suc, ◌+◌, ◌-◌, ◌*◌, ◌/◌, ◌%◌, ◌^◌, ◌≤◌, ◌<◌, min, ◌≡◌, refl, sym, ap, ◌∙◌, ◌≢◌, ◌↔◌, ◌⊎◌,
  inl, inr, Bool, true, false, not, ◌&&◌, ◌||◌, Option, none, some, List, [], ◌∷◌, ◌++◌, map, arith,
  ltb, leb, ◌==◌, in_range, if◌then◌else◌, ==_iff, ltb_iff, leb_iff, Bool-cases, Option-cases,
  length, is_empty, is_empty-eq-false_iff, all, any, get_elem?, get_or, take, drop, length-append,
  length-take, length-drop, take-append-drop, take_of_length-le, All, all_iff, any-eq-false_iff,
  all-append, any-append, Result, ◌>>=◌, ◌>>◌, reject_if, ok_or, map_err, is_ok, >>=-eq-ok, Text,
  Bytes, codes, utf8_char, bytes, byte_len, text_eq, text_eq_iff, is_ascii_alphanumeric, is_control,
  is_whitespace, trim_start_while, trim, strip_prefix, starts_with, push_front, split,
  to_ascii_lower, all-bytes, bytes_of_ascii, has_nul, has_nul-eq-false_iff, Table, lookup, remove,
  insert, lookup-remove, lookup-insert, ok, err,
}
use ferrobox.Core.Spec.{
  SandboxId, SnapshotId, SandboxSpec, ProcessId, max_timeout_seconds, max_output_bytes,
}
use ferrobox.Core.Paths.{SandboxPath}
use ferrobox.Core.State.{SandboxState}

pub record SandboxHandle : Type 0 where
  pub sandbox_id : SandboxId
  pub node_id : Text
  pub state : SandboxState

pub record SnapshotHandle : Type 0 where
  pub snapshot_id : SnapshotId
  pub source_sandbox_id : SandboxId
  pub name : Option Text
  pub created_at_unix_ms : ℕ
  pub source_state : SandboxState
  pub spec : SandboxSpec
  pub size_bytes : ℕ
  pub digest_sha256 : Text

pub record ExecRequest : Type 0 where
  pub argv : List Text
  pub cwd : SandboxPath
  pub environment : List (Text × Text)
  pub timeout_seconds : ℕ
  pub max_output_bytes : ℕ

abbrev pub is_bad_argument : Text → Bool
is_bad_argument argument = has_nul argument || ltb (128 * 1024) (byte_len argument)

abbrev pub is_bad_variable : Text × Text → Bool
is_bad_variable (key, value) =
    is_empty key || any (λ c. c == b'=') key || has_nul key || has_nul value

-- `ExecRequest::validate`; the environment is a map, so its keys are distinct.
unfoldable pub validate_exec : ExecRequest → Result ValidationError (Unit {0})
validate_exec r =
    if is_empty r.argv || ltb 256 (length r.argv) || any is_bad_argument r.argv
    then err argv
    else if not (in_range 1 max_timeout_seconds r.timeout_seconds)
    then err timeout
    else if not (in_range 1 max_output_bytes r.max_output_bytes)
    then err output_limit
    else if ltb 256 (length r.environment) || any is_bad_variable r.environment
    then err environment
    else ok tt

pub data ExecTermination : Type 0 where
  exited : ℕ → ExecTermination
  signaled : ℕ → ExecTermination
  timed_out output_limit_exceeded : ExecTermination

pub record OutputTruncation : Type 0 where
  pub stdout : Bool
  pub stderr : Bool

pub record ExecResult : Type 0 where
  pub process_id : ProcessId
  pub termination : ExecTermination
  pub stdout : Bytes
  pub stderr : Bytes
  pub truncation : OutputTruncation

pub record WriteFileRequest : Type 0 where
  pub path : SandboxPath
  pub contents : Bytes
  pub overwrite : Bool
  pub mode : Option ℕ

pub record ReadFileRequest : Type 0 where
  pub path : SandboxPath
  pub offset : ℕ
  pub max_bytes : ℕ

pub record ReadFileResult : Type 0 where
  pub contents : Bytes
  pub eof : Bool

pub data FileKind : Type 0 where
  file directory : FileKind

pub record DirectoryEntry : Type 0 where
  pub name : Text
  pub path : SandboxPath
  pub kind : FileKind
  pub size_bytes : ℕ
  pub modified_unix_millis : Option ℕ
  pub mode : Option ℕ

-- A signal is a number of the machine's `i32`, by its bit pattern, as exit codes are.
pub record SignalRequest : Type 0 where
  pub process_id : ProcessId
  pub signal : ℕ

pub record SnapshotVerification : Type 0 where
  pub snapshot_id : SnapshotId
  pub valid : Bool
  pub checked_artifacts : ℕ
  pub failure : Option RuntimeError
