-- ===== src/Firecracker/Streams.antt =====
-- How crates/ferrobox-node/src/firecracker_runtime.rs puts together what the guest streams: the
-- events of a command, the chunks of a file, and the entries of a folder. What the guest answers to a
-- call is a parameter: a stream is the list of its messages, where a failed one ends it.
pub mod Relay
use ferrobox.Firecracker.Lifecycle.{guest_client}
use ferrobox.Guest.Files.{FileChunk}
use ferrobox.Core.Paths.{SandboxPath, new_sandbox_path}
use ferrobox.Firecracker.Host.{Code, guest_error}
use ferrobox.Core.Error.{RuntimeError, internal, invalid, unavailable}
use ferrobox.Core.Exec.{
  DirectoryEntry, ExecRequest, ExecResult, ExecTermination, FileKind, OutputTruncation,
  ReadFileRequest, ReadFileResult, SignalRequest, WriteFileRequest, directory, exited, file,
  output_limit_exceeded, signaled, timed_out, validate_exec,
}
use ferrobox.Core.Spec.{ProcessId, SandboxId, new_process_id}
use ferrobox.Prelude.{
  ℕ, zero, suc, ◌+◌, ◌-◌, ◌*◌, ◌/◌, ◌%◌, ◌^◌, ◌≤◌, ◌<◌, min, ◌≡◌, refl, sym, ap, ◌∙◌, ◌≢◌, ◌↔◌, ◌⊎◌,
  inl, inr, Bool, true, false, not, ◌&&◌, ◌||◌, Option, none, some, List, [], ◌∷◌, ◌++◌, map, arith,
  ltb, leb, ◌==◌, in_range, if◌then◌else◌, ==_iff, ltb_iff, leb_iff, Bool-cases, Option-cases,
  length, is_empty, is_empty-eq-false_iff, all, any, get_elem?, get_or, take, drop, length-append,
  length-take, length-drop, drop_add, take-append-drop, take_of_length-le, All, All-append, all_iff,
  any-eq-false_iff, all-append, any-append, Result, reject_if, ok_or, map_err, is_ok, >>=-eq-ok,
  Result-cases, Text, Bytes, codes, utf8_char, bytes, byte_len, text_eq, text_eq_iff,
  is_ascii_alphanumeric, is_control, is_whitespace, trim_start_while, trim, strip_prefix,
  starts_with, push_front, split, to_ascii_lower, all-bytes, bytes_of_ascii, has_nul,
  has_nul-eq-false_iff, strip_prefix-append, strip_prefix-eq-some, Table, lookup, remove, insert,
  lookup-remove, lookup-insert, ok, err,
}
use ferrobox.Firecracker.Steps.{
  Firecracker, pure, raise, lift, gets, attempt, on_failure, clean_after, branch, refuse_if, modify,
  ◌>>=◌, ◌>>◌, ask, expect,
}

-- `ProcessExit` of the protocol
pub record ProcessExit : Type 0 where
  pub exit_code : Option ℕ
  pub signal : Option ℕ
  pub timed_out : Bool
  pub output_limit_exceeded : Bool
  pub stdout_truncated : Bool
  pub stderr_truncated : Bool

-- `process_event::Event`
pub data Event : Type 0 where
  stdout_event stderr_event : Bytes → Event
  exit_event : ProcessExit → Event
  error_event no_event : Event

pub record ProcessEvent : Type 0 where
  pub process_id : Text
  pub event : Event

-- The variables of the loop in `execute_measured`.
pub record Collected : Type 0 where
  pub process_id : Option ProcessId
  pub termination : Option ExecTermination
  pub stdout : Bytes
  pub stderr : Bytes
  pub truncation : OutputTruncation

abbrev pub nothing_collected : Collected
nothing_collected = record {
  process_id = none;
  termination = none;
  stdout = [];
  stderr = [];
  truncation = record { stdout = false; stderr = false };
}

-- `unwrap_or_default` of a signal
abbrev pub or_zero : Option ℕ → ℕ
or_zero none = 0
or_zero (some n) = n

unfoldable pub termination_of : ProcessExit → ExecTermination
termination_of exit =
    if exit.timed_out
    then timed_out
    else if exit.output_limit_exceeded
    then output_limit_exceeded
    else elim exit.exit_code [ some code ↦ exited code | none ↦ signaled (or_zero exit.signal) ]

-- The first process identifier that is not empty is the command's.
unfoldable pub note_process : Text → Collected → Result RuntimeError Collected
note_process id c = elim c.process_id [
  | some known ↦ ok c
  | none ↦ if is_empty id then ok c else elim (new_process_id id) [
    | ok process ↦ ok (record c { process_id = some process })
    | err e ↦ err internal
  ]
]

unfoldable pub note_event : Event → Collected → Result RuntimeError Collected
note_event (stdout_event chunk) c = ok (record c { stdout = c.stdout ++ chunk })
note_event (stderr_event chunk) c = ok (record c { stderr = c.stderr ++ chunk })
note_event (exit_event exit) c = ok (record c {
  termination = some (termination_of exit);
  truncation = record { stdout = exit.stdout_truncated; stderr = exit.stderr_truncated };
})
note_event error_event c = err unavailable
note_event no_event c = ok c

-- The loop of `execute_measured`
unfoldable pub collect : List (Result Code ProcessEvent) → Collected → Result RuntimeError Collected
collect [] c = ok c
collect (err code ∷ messages) c = err (guest_error code)
collect (ok message ∷ messages) c = elim (note_process message.process_id c) [
  | err e ↦ err e
  | ok noted ↦ elim (note_event message.event noted) [
    | err e ↦ err e
    | ok later ↦ collect messages later
  ]
]

unfoldable pub finish : Collected → Result RuntimeError ExecResult
finish c = elim c.process_id [
  | none ↦ err internal
  | some process ↦ elim c.termination [
    | none ↦ err internal
    | some termination ↦ ok (record {
      process_id = process;
      termination = termination;
      stdout = c.stdout;
      stderr = c.stderr;
      truncation = c.truncation;
    })
  ]
]

-- What a stream of a command comes to.
unfoldable pub result_of : List (Result Code ProcessEvent) → Result RuntimeError ExecResult
result_of messages = elim (collect messages nothing_collected) [ err e ↦ err e | ok c ↦ finish c ]

-- `StartProcessRequest`
pub record StartProcess : Type 0 where
  pub argv : List Text
  pub cwd : SandboxPath
  pub environment : List (Text × Text)
  pub timeout_millis : ℕ
  pub max_output_bytes : ℕ

-- `execute_measured`, without the times that it measures.
unfoldable pub execute :
    (SandboxId → Text → StartProcess → Result Code (List (Result Code ProcessEvent)))
    → SandboxId
    → ExecRequest
    → Firecracker ExecResult
execute start id request = do
  lift (map_err invalid (validate_exec request))
  client ← guest_client id
  messages ← lift (
      map_err guest_error (
        start client.0 client.1 (record {
          argv = request.argv;
          cwd = request.cwd;
          environment = request.environment;
          timeout_millis = min (request.timeout_seconds * 1000) (2 ^ 64 - 1);
          max_output_bytes = request.max_output_bytes;
        })))
  lift (result_of messages)

unfoldable pub signal :
    (SandboxId → Text → SignalRequest → Result Code Bool)
    → SandboxId
    → SignalRequest
    → Firecracker Bool
signal deliver id request = do
  client ← guest_client id
  lift (map_err guest_error (deliver client.0 client.1 request))

unfoldable pub write :
    (SandboxId → Text → WriteFileRequest → Result Code ℕ)
    → SandboxId
    → WriteFileRequest
    → Firecracker ℕ
write store id request = do
  client ← guest_client id
  lift (map_err guest_error (store client.0 client.1 request))

-- The loop of `read`
unfoldable pub gather :
    List (Result Code FileChunk) → ReadFileResult → Result RuntimeError ReadFileResult
gather [] r = ok r
gather (err code ∷ messages) r = err (guest_error code)
gather (ok c ∷ messages) r =
    gather messages (record { contents = r.contents ++ c.chunk; eof = c.eof })

unfoldable pub read :
    (SandboxId → Text → ReadFileRequest → Result Code (List (Result Code FileChunk)))
    → SandboxId
    → ReadFileRequest
    → Firecracker ReadFileResult
read fetch id request = do
  client ← guest_client id
  messages ← lift (map_err guest_error (fetch client.0 client.1 request))
  lift (gather messages (record { contents = []; eof = false }))

-- An entry of a folder as the guest names it; the kind is a number of the protocol.
pub record GuestEntry : Type 0 where
  pub name : Text
  pub path : Text
  pub kind : ℕ
  pub size_bytes : ℕ
  pub modified_unix_millis : Option ℕ
  pub mode : Option ℕ

-- `FileKind::try_from`: 1 is a file and 2 a directory.
unfoldable pub kind_of : ℕ → Result RuntimeError FileKind
kind_of n = if n == 1 then ok file else if n == 2 then ok directory else err internal

unfoldable pub entry_of : GuestEntry → Result RuntimeError DirectoryEntry
entry_of entry = elim (kind_of entry.kind) [
  | err e ↦ err e
  | ok kind ↦ elim (new_sandbox_path entry.path) [
    | err e ↦ err internal
    | ok path ↦ ok (record {
      name = entry.name;
      path = path;
      kind = kind;
      size_bytes = entry.size_bytes;
      modified_unix_millis = entry.modified_unix_millis;
      mode = entry.mode;
    })
  ]
]

-- `collect::<Result<Vec<_>, _>>`
unfoldable pub entries_of : List GuestEntry → Result RuntimeError (List DirectoryEntry)
entries_of [] = ok []
entries_of (entry ∷ entries) = elim (entry_of entry) [
  | err e ↦ err e
  | ok first ↦ elim (entries_of entries) [ err e ↦ err e | ok rest ↦ ok (first ∷ rest) ]
]

unfoldable pub list :
    (SandboxId → Text → SandboxPath → Result Code (List GuestEntry))
    → SandboxId
    → SandboxPath
    → Firecracker (List DirectoryEntry)
list fetch id path = do
  client ← guest_client id
  entries ← lift (map_err guest_error (fetch client.0 client.1 path))
  lift (entries_of entries)
