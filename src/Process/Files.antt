-- ===== src/Process/Files.antt =====
-- `execute`, `write`, `read` and `list` of crates/ferrobox-node/src/process_runtime.rs.
pub mod Contents
use ferrobox.Prelude.{
  ℕ, zero, suc, ◌+◌, ◌-◌, ◌*◌, ◌/◌, ◌%◌, ◌^◌, ◌≤◌, ◌<◌, min, ◌≡◌, refl, sym, ap, ◌∙◌, ◌≢◌, ◌↔◌, ◌⊎◌,
  inl, inr, Bool, true, false, not, ◌&&◌, ◌||◌, Option, none, some, List, [], ◌∷◌, ◌++◌, map, arith,
  ltb, leb, ◌==◌, in_range, if◌then◌else◌, ==_iff, ltb_iff, leb_iff, Bool-cases, Option-cases,
  length, is_empty, is_empty-eq-false_iff, all, any, get_elem?, get_or, take, drop, length-append,
  length-take, length-drop, take-append-drop, take_of_length-le, All, all_iff, any-eq-false_iff,
  all-append, any-append, Result, reject_if, ok_or, map_err, is_ok, >>=-eq-ok, Result-cases, Text,
  Bytes, codes, utf8_char, bytes, byte_len, text_eq, text_eq_iff, is_ascii_alphanumeric, is_control,
  is_whitespace, trim_start_while, trim, strip_prefix, starts_with, push_front, split,
  to_ascii_lower, all-bytes, bytes_of_ascii, has_nul, has_nul-eq-false_iff, strip_prefix-append,
  strip_prefix-eq-some, Table, lookup, remove, insert, lookup-remove, lookup-insert, ok, err,
}
use ferrobox.Prelude.Exec.{Exec, pure, raise, lift, refuse_if, modify, ◌>>=◌, ◌>>◌}
use ferrobox.Core.Error.{
  RuntimeError, not_found, conflict, invalid_input, unavailable, internal, resource_exhausted,
}
use ferrobox.Core.Spec.{SandboxId, ProcessId, new_process_id, max_file_bytes}
use ferrobox.Core.Paths.{SandboxPath, new_sandbox_path, relative}
use ferrobox.Core.State.{is_running}
use ferrobox.Core.Exec.{
  ExecRequest, ExecResult, validate_exec, timed_out, WriteFileRequest, ReadFileRequest,
  ReadFileResult, DirectoryEntry, FileKind, file, directory,
}
use ferrobox.Process.Disk.{
  HostPath, Disk, Node, missing, symlink, folder, special, unreadable, regular, put_node,
}
use ferrobox.Process.Runtime.{
  Process, ProcessRuntime, ProcessSandbox, sandbox, record_event, safe_path, executed, wrote_file,
  read_file, started, succeeded, failed,
}
use ferrobox.Process.Output.{CommandOutcome, elapsed, not_started, finished, limit_output}

-- The target of a request, by the disk as it stands.
abbrev pub target_of : ProcessSandbox → SandboxPath → Bool → Process HostPath
target_of box path leaf s = (safe_path s.disk box.workspace path leaf, s)

-- The `match` on the command's outcome.
unfoldable pub conclude : SandboxId → ProcessId → ℕ → CommandOutcome → Process ExecResult
conclude id process limit elapsed = pure (record {
  process_id = process;
  termination = timed_out;
  stdout = [];
  stderr = [];
  truncation = record { stdout = false; stderr = false };
})
conclude id process limit not_started = do record_event id executed failed; raise unavailable
conclude id process limit (finished status out errors) =
    pure (limit_output process limit status out errors)

-- `execute`; `uuid` is the text of a fresh identifier and `run` what the host makes of the command
-- in its directory.
unfoldable pub execute :
    Text → (HostPath → ExecRequest → CommandOutcome) → SandboxId → ExecRequest → Process ExecResult
execute uuid run id request = do
  lift (map_err (λ e. invalid_input) (validate_exec request))
  box ← sandbox id
  refuse_if (not (is_running box.state)) conflict
  cwd ← target_of box request.cwd false
  process ← lift (map_err (λ e. internal) (new_process_id uuid))
  record_event id executed started
  result ← conclude id process request.max_output_bytes (run cwd request)
  record_event id executed succeeded
  pure result

-- The last part of a path as it is written, which `join` keeps where `components` drops it: nothing
-- after a slash at the end, and for the path of the workspace itself.
abbrev pub last_part : List Text → Text
last_part [] = []
last_part (part ∷ parts) = let rest = last_part parts in if is_empty parts then part else rest

abbrev pub written_leaf : SandboxPath → Text
written_leaf path = last_part (split b'/' (relative path))

-- What `open` with a file to be created says of a path that is written as one of a folder.
unfoldable pub check_new_file : SandboxPath → Bool → Node → Result RuntimeError (Unit {0})
check_new_file path overwrite node =
    if is_empty (written_leaf path)
    then err internal
    else if text_eq (written_leaf path) (codes ".")
    then elim node [ folder ↦ if overwrite then err internal else err conflict | _ ↦ err internal ]
    else ok tt

-- What `metadata` says of such a path where something else than a folder stands.
unfoldable pub check_leaf : SandboxPath → Node → Result RuntimeError (Unit {0})
check_leaf path node =
    if is_empty (written_leaf path) || text_eq (written_leaf path) (codes ".")
    then elim node [ folder ↦ ok tt | _ ↦ err not_found ]
    else ok tt

-- `create_dir_all` of the parent, which the walk of `safe_path` has found if it is a folder, `open`
-- with the request's options, and `write_all`.
unfoldable pub store : HostPath → Bytes → Bool → Disk → Result RuntimeError Disk
store target contents overwrite d = elim (d.node target) [
  | missing ↦ if d.writable target then ok (put_node target (regular contents) d) else err internal
  | regular old ↦
      if not overwrite
      then err conflict
      else if d.writable target
      then ok (put_node target (regular contents) d)
      else err internal
  | _ ↦ if not overwrite then err conflict else err internal
]

abbrev pub store_at : HostPath → Bytes → Bool → Process (Unit {0})
store_at target contents overwrite s = elim (store target contents overwrite s.disk) [
  | err e ↦ (err e, s)
  | ok d ↦ (ok tt, record s { disk = d })
]

unfoldable pub write : SandboxId → WriteFileRequest → Process ℕ
write id request = do
  refuse_if (ltb max_file_bytes (length request.contents)) resource_exhausted
  box ← sandbox id
  target ← target_of box request.path true
  (λ s. (check_new_file request.path request.overwrite (s.disk.node target), s))
  store_at target request.contents request.overwrite
  record_event id wrote_file succeeded
  pure (length request.contents)

abbrev pub u64_max : ℕ
u64_max = 2 ^ 64 - 1

-- The bytes that `seek`, `take` and `read_to_end` give, and the end-of-file mark. A seek wants an
-- offset that a signed 64-bit integer holds.
unfoldable pub slice : Bytes → ℕ → ℕ → Result RuntimeError ReadFileResult
slice contents offset max_bytes =
    if ltb (2 ^ 63 - 1) offset
    then err internal
    else let found = take (min max_bytes max_file_bytes) (drop offset contents) in
      ok (record {
        contents = found;
        eof = leb (length contents) (min (offset + length found) u64_max);
      })

-- `metadata`, `is_file` and `open`
unfoldable pub load : HostPath → Disk → Result RuntimeError Bytes
load target d = elim (d.node target) [
  | regular contents ↦ ok contents
  | missing ↦ err not_found
  | unreadable ↦ err not_found
  | _ ↦ err invalid_input
]

unfoldable pub read : SandboxId → ReadFileRequest → Process ReadFileResult
read id request = do
  box ← sandbox id
  target ← target_of box request.path false
  (λ s. (check_leaf request.path (s.disk.node target), s))
  contents ← (λ s. (load target s.disk, s))
  result ← lift (slice contents request.offset request.max_bytes)
  record_event id read_file succeeded
  pure result

-- `trim_end_matches('/')`
abbrev pub trim_end_slashes : Text → Text
trim_end_slashes [] = []
trim_end_slashes (c ∷ s) =
    let rest = trim_end_slashes s in if is_empty rest && c == b'/' then [] else c ∷ rest

-- The kind and size of an entry that is listed.
abbrev pub kind_of : Node → Option (FileKind × ℕ)
kind_of (regular contents) = some (file, length contents)
kind_of folder = some (directory, 0)
kind_of _ = none

-- The loop over the entries, with the number that is out; times and modes are left out. The size of
-- a folder is the system's, and is modelled as 0.
unfoldable pub collect : Text → ℕ → List (Text × Node) → Result RuntimeError (List DirectoryEntry)
collect base found [] = ok []
collect base found ((name, node) ∷ rest) =
    if leb 4096 found
    then err resource_exhausted
    else let skipped = collect base found rest in
      let later = collect base (found + 1) rest in
      elim (kind_of node) [
        | none ↦ skipped
        | some (kind, size) ↦ elim (new_sandbox_path (base ++ b'/' ∷ name)) [
          | err _ ↦ err internal
          | ok path ↦ elim later [
            | err e ↦ err e
            | ok entries ↦ ok (
                record {
                  name = name;
                  path = path;
                  kind = kind;
                  size_bytes = size;
                  modified_unix_millis = none;
                  mode = none;
                }
                ∷ entries)
          ]
        ]
      ]

-- `str`'s order, that of its code points, and a stable sort by it.
abbrev pub text_leb : Text → Text → Bool
text_leb [] t = true
text_leb (c ∷ s) [] = false
text_leb (c ∷ s) (d ∷ t) = ltb c d || (c == d && text_leb s t)

abbrev pub insert_entry : DirectoryEntry → List DirectoryEntry → List DirectoryEntry
insert_entry e [] = e ∷ []
insert_entry e (x ∷ xs) = if text_leb e.name x.name then e ∷ x ∷ xs else x ∷ insert_entry e xs

abbrev pub sort_by_name : List DirectoryEntry → List DirectoryEntry
sort_by_name [] = []
sort_by_name (x ∷ xs) = insert_entry x (sort_by_name xs)

unfoldable pub list : SandboxId → SandboxPath → Process (List DirectoryEntry)
list id path = do
  box ← sandbox id
  target ← target_of box path false
  names ← (λ s. (ok_or (s.disk.children target) not_found, s))
  entries ← (λ s. (ok (map (λ name. (name, s.disk.node (target ++ name ∷ []))) names), s))
  listed ← lift (collect (trim_end_slashes path) 0 entries)
  pure (sort_by_name listed)
