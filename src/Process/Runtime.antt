-- ===== src/Process/Runtime.antt =====
-- The state of crates/ferrobox-node/src/process_runtime.rs and its `safe_path`.
pub mod SafePath
use ferrobox.Prelude.{
  ℕ, zero, suc, ◌+◌, ◌-◌, ◌*◌, ◌/◌, ◌%◌, ◌^◌, ◌≤◌, ◌<◌, min, ◌≡◌, refl, sym, ap, ◌∙◌, ◌≢◌, ◌↔◌, ◌⊎◌,
  inl, inr, Bool, true, false, not, ◌&&◌, ◌||◌, Option, none, some, List, [], ◌∷◌, ◌++◌, map, arith,
  ltb, leb, ◌==◌, in_range, if◌then◌else◌, ==_iff, ltb_iff, leb_iff, Bool-cases, Option-cases,
  length, is_empty, is_empty-eq-false_iff, all, any, get_elem?, get_or, take, drop, length-append,
  length-take, length-drop, take-append-drop, take_of_length-le, All, all_iff, any-eq-false_iff,
  all-append, any-append, Result, reject_if, ok_or, map_err, is_ok, >>=-eq-ok, Result-cases, Text,
  Bytes, codes, utf8_char, bytes, byte_len, text_eq, text_eq_iff, is_ascii_alphanumeric, is_control,
  is_whitespace, trim_start_while, trim, strip_prefix, starts_with, push_front, split,
  to_ascii_lower, all-bytes, bytes_of_ascii, has_nul, has_nul-eq-false_iff, strip_prefix-append,
  strip_prefix-eq-some, Table, lookup, remove, insert, lookup-remove, lookup-insert, ok, err,
}
use ferrobox.Prelude.Exec.{Exec, raise, ◌>>=◌, ◌>>◌}
use ferrobox.Core.Error.{RuntimeError, not_found, invalid_input, internal}
use ferrobox.Core.Spec.{SandboxId}
use ferrobox.Core.Paths.{SandboxPath, relative, parent_part}
use ferrobox.Core.State.{SandboxState}
use ferrobox.Process.Disk.{
  HostPath, Disk, Node, missing, symlink, folder, special, unreadable, regular, components, push,
  push_all,
}

pub record ProcessSandbox : Type 0 where
  pub workspace : HostPath
  pub state : SandboxState

pub data AuditAction : Type 0 where
  created executed wrote_file read_file deleted : AuditAction

pub data AuditOutcome : Type 0 where
  started succeeded failed : AuditOutcome

-- `ProcessRuntime` with the disk below it and the events that its audit sink has been given.
pub record ProcessRuntime : Type 0 where
  pub root : HostPath
  pub node_id : Text
  pub sandboxes : Table ProcessSandbox
  pub disk : Disk
  pub audit : List (SandboxId × AuditAction × AuditOutcome)

abbrev pub Process : Type 0 → Type 0
Process A = Exec ProcessRuntime RuntimeError A

-- `sandbox`
abbrev pub sandbox : SandboxId → Process ProcessSandbox
sandbox id s = (ok_or (lookup id s.sandboxes) not_found, s)

-- `record`
abbrev pub record_event : SandboxId → AuditAction → AuditOutcome → Process (Unit {0})
record_event id action outcome s =
    (ok tt, record s { audit = s.audit ++ (id, action, outcome) ∷ [] })

-- The walk of `safe_path` down the components that are left.
unfoldable pub inspect : Disk → Bool → HostPath → List Text → Result RuntimeError (Unit {0})
inspect d allow_missing_leaf current [] = ok tt
inspect d allow_missing_leaf current (part ∷ parts) =
    let rest = inspect d allow_missing_leaf (push current part) parts in
    elim (d.node (push current part)) [
      | symlink ↦ err invalid_input
      | missing ↦ if allow_missing_leaf && is_empty parts then rest else err not_found
      | unreadable ↦ err internal
      | _ ↦ rest
    ]

-- `safe_path`: of the components that it refuses, a path that is relative can only have `..`.
unfoldable pub safe_path : Disk → HostPath → SandboxPath → Bool → Result RuntimeError HostPath
safe_path d workspace path allow_missing_leaf =
    let parts = components (relative path) in
    if any (λ part. text_eq part parent_part) parts
    then err invalid_input
    else elim (inspect d allow_missing_leaf workspace parts) [
      | err e ↦ err e
      | ok _ ↦ ok (push_all workspace parts)
    ]
