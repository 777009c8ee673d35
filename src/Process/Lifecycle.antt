-- ===== src/Process/Lifecycle.antt =====
-- The lifecycle operations of crates/ferrobox-node/src/process_runtime.rs, and the whole
-- implementation of `SandboxRuntime` there.
pub mod Roots
pub mod History
pub mod Switching
use ferrobox.Prelude.{
  ℕ, zero, suc, ◌+◌, ◌-◌, ◌*◌, ◌/◌, ◌%◌, ◌^◌, ◌≤◌, ◌<◌, min, ◌≡◌, refl, sym, ap, ◌∙◌, ◌≢◌, ◌↔◌, ◌⊎◌,
  inl, inr, Bool, true, false, not, ◌&&◌, ◌||◌, Option, none, some, List, [], ◌∷◌, ◌++◌, map, arith,
  ltb, leb, ◌==◌, in_range, if◌then◌else◌, ==_iff, ltb_iff, leb_iff, Bool-cases, Option-cases,
  length, is_empty, is_empty-eq-false_iff, all, any, get_elem?, get_or, take, drop, length-append,
  length-take, length-drop, take-append-drop, take_of_length-le, All, all_iff, any-eq-false_iff,
  all-append, any-append, Result, reject_if, ok_or, map_err, is_ok, >>=-eq-ok, Result-cases, Text,
  Bytes, codes, utf8_char, bytes, byte_len, text_eq, text_eq_iff, is_ascii_alphanumeric, is_control,
  is_whitespace, trim_start_while, trim, strip_prefix, starts_with, push_front, split,
  to_ascii_lower, all-bytes, bytes_of_ascii, has_nul, has_nul-eq-false_iff, strip_prefix-append,
  strip_prefix-eq-some, Table, lookup, remove, insert, lookup-remove, lookup-insert, ok, err,
}
use ferrobox.Prelude.Exec.{Exec, pure, raise, lift, refuse_if, modify, ◌>>=◌, ◌>>◌}
use ferrobox.Core.Error.{
  RuntimeError, not_found, conflict, invalid_input, unavailable, internal, unsupported,
}
use ferrobox.Core.Spec.{SandboxId, SnapshotId, SandboxSpec, validate_spec, CreateSnapshotRequest}
use ferrobox.Core.Exec.{
  SandboxHandle, SnapshotHandle, SnapshotVerification, SignalRequest, ExecRequest,
}
use ferrobox.Core.State.{SandboxState, running, paused, is_running, is_paused}
use ferrobox.Core.Runtime.{SandboxRuntime}
use ferrobox.Process.Disk.{HostPath, Disk, Node, missing, make_folders, path_eq}
use ferrobox.Process.Runtime.{
  Process, ProcessRuntime, ProcessSandbox, sandbox, record_event, created, deleted, succeeded,
}
use ferrobox.Process.Output.{CommandOutcome}
use ferrobox.Process.Files.{execute, write, read, list}

-- `root.join(id).join("home").join("sandbox")`, with `name` the text of an identifier.
unfoldable pub workspace_of : HostPath → Text → HostPath
workspace_of root name = root ++ name ∷ codes "home" ∷ codes "sandbox" ∷ []

-- `create_dir_all`
abbrev pub create_folder : HostPath → Process (Unit {0})
create_folder path s =
    if s.disk.writable path
    then (ok tt, record s { disk = make_folders [] path s.disk })
    else (err internal, s)

-- `create`; `id` is a fresh identifier and `name` its text.
unfoldable pub create : SandboxId → Text → SandboxSpec → Process SandboxHandle
create id name spec = do
  lift (map_err (λ e. invalid_input) (validate_spec spec))
  (λ s. create_folder (workspace_of s.root name) s)
  modify (λ s. record s {
    sandboxes =
        insert id (record { workspace = workspace_of s.root name; state = running }) s.sandboxes;
  })
  record_event id created succeeded
  (λ s. (ok (record { sandbox_id = id; node_id = s.node_id; state = running }), s))

-- The state of a sandbox, changed in place.
abbrev pub set_state : SandboxId → ProcessSandbox → SandboxState → Process (Unit {0})
set_state id box state =
    modify (λ s. record s { sandboxes = insert id (record box { state = state }) s.sandboxes })

unfoldable pub pause : SandboxId → Process (Unit {0})
pause id = do
  box ← sandbox id
  refuse_if (not (is_running box.state)) conflict
  set_state id box paused

unfoldable pub resume : SandboxId → Process (Unit {0})
resume id = do
  box ← sandbox id
  refuse_if (not (is_paused box.state)) conflict
  set_state id box running

unfoldable pub signal : SandboxId → SignalRequest → Process Bool
signal id request = do box ← sandbox id; raise unsupported

-- A snapshot operation that looks the sandbox up first, and one that does not.
abbrev pub unsupported_for : {A : Type 0} → SandboxId → Process A
unsupported_for id = do box ← sandbox id; raise unsupported

-- `Path::parent`: a path without a name has none.
unfoldable pub parent : HostPath → Option HostPath
parent [] = none
parent (part ∷ parts) = elim (parent parts) [ none ↦ some [] | some above ↦ some (part ∷ above) ]

-- `Path::starts_with`
unfoldable pub below : HostPath → HostPath → Bool
below [] path = true
below (r ∷ root) [] = false
below (r ∷ root) (part ∷ parts) = text_eq r part && below root parts

-- The disk without the paths that a test picks.
abbrev pub without_paths : (HostPath → Bool) → Disk → Disk
without_paths gone d = record d {
  node = λ q. if gone q then missing else d.node q;
  children = λ q. if gone q then none else d.children q;
}

-- `remove_dir_all`: what stood below the path is gone, or some of it where the removal fails.
abbrev pub clear_folder : HostPath → Process (Unit {0})
clear_folder path s =
    if s.disk.removable path
    then (ok tt, record s { disk = without_paths (below path) s.disk })
    else (
      err internal,
      record s { disk = without_paths (λ q. below path q && not (s.disk.remains path q)) s.disk },
    )

-- The check of the folder that `delete` is about to remove.
unfoldable pub cleanup_target : HostPath → HostPath → Result RuntimeError HostPath
cleanup_target root workspace = elim (parent workspace) [
  | none ↦ err internal
  | some home ↦ elim (parent home) [
    | none ↦ err internal
    | some sandbox_root ↦
        if not (below root sandbox_root) || path_eq sandbox_root root
        then err internal
        else ok sandbox_root
  ]
]

-- `delete`: the entry goes before the folder does.
unfoldable pub delete : SandboxId → Process (Unit {0})
delete id = do
  box ← sandbox id
  modify (λ s. record s { sandboxes = remove id s.sandboxes })
  target ← (λ s. (cleanup_target s.root box.workspace, s))
  clear_folder target
  record_event id deleted succeeded

-- `impl SandboxRuntime for ProcessRuntime`. Of what the operating system supplies, `fresh` gives the
-- identifier and the name of the sandbox that the table does not hold, `uuid` a process identifier,
-- and `run` the outcome of a command.
abbrev pub process_runtime :
    (ProcessRuntime → SandboxId × Text)
    → Text
    → (HostPath → ExecRequest → CommandOutcome)
    → SandboxRuntime ProcessRuntime
process_runtime fresh uuid run = record {
  create = λ spec s. create (fresh s).0 (fresh s).1 spec s;
  execute = execute uuid run;
  signal = signal;
  write = write;
  read = read;
  list = list;
  pause = pause;
  resume = resume;
  create_snapshot = λ id request. unsupported_for id;
  list_snapshots = λ id. unsupported_for id;
  get_snapshot = λ snapshot. raise unsupported;
  verify_snapshot = λ snapshot. raise unsupported;
  restore_snapshot = λ snapshot. raise unsupported;
  clone_snapshot = λ snapshot count. raise unsupported;
  rollback_snapshot = λ id snapshot. unsupported_for id;
  delete_snapshot = λ snapshot. raise unsupported;
  delete = delete;
}
