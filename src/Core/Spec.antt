-- ===== src/Core/Spec.antt =====
-- `SandboxSpec`, `CreateSnapshotRequest` and `ProcessId` of crates/ferrobox-core/src/lib.rs, with
-- their checks. An identifier that the code draws from `Uuid` is a number.
pub mod Laws
use ferrobox.Prelude.{
  ℕ, ◌*◌, Bool, true, false, not, ◌&&◌, ◌||◌, Option, none, some, Text, Result, ok, err, ltb,
  in_range, ◌==◌, if◌then◌else◌, is_empty, all, any, bytes, byte_len, text_eq, trim, is_control,
  is_ascii_alphanumeric,
}
use ferrobox.Core.Error.{
  ValidationError, invalid_template, cpu_count, memory, timeout, process_id, snapshot_name,
}

abbrev pub max_cpu_count : ℕ
max_cpu_count = 32

abbrev pub min_memory_mb : ℕ
min_memory_mb = 128

abbrev pub max_memory_mb : ℕ
max_memory_mb = 32 * 1024

abbrev pub max_timeout_seconds : ℕ
max_timeout_seconds = 86400

abbrev pub max_output_bytes : ℕ
max_output_bytes = 16 * 1024 * 1024

abbrev pub max_file_bytes : ℕ
max_file_bytes = 64 * 1024 * 1024

abbrev pub max_snapshot_name_bytes : ℕ
max_snapshot_name_bytes = 128

abbrev pub SandboxId : Type 0
SandboxId = ℕ

abbrev pub SnapshotId : Type 0
SnapshotId = ℕ

pub data NetworkMode : Type 0 where
  disabled internet : NetworkMode

pub record SandboxSpec : Type 0 where
  pub template_id : Text
  pub cpu_count : ℕ
  pub memory_mb : ℕ
  pub timeout_seconds : ℕ
  pub network : NetworkMode

-- A byte of a template identifier.
abbrev pub is_template_byte : ℕ → Bool
is_template_byte b = is_ascii_alphanumeric b || b == b'-' || b == b'_'

unfoldable pub validate_spec : SandboxSpec → Result ValidationError (Unit {0})
validate_spec s =
    if is_empty s.template_id
      || ltb 64 (byte_len s.template_id)
      || not (all is_template_byte (bytes s.template_id))
    then err invalid_template
    else if not (in_range 1 max_cpu_count s.cpu_count)
    then err cpu_count
    else if not (in_range min_memory_mb max_memory_mb s.memory_mb)
    then err memory
    else if not (in_range 1 max_timeout_seconds s.timeout_seconds)
    then err timeout
    else ok tt

pub record CreateSnapshotRequest : Type 0 where
  pub name : Option Text

unfoldable pub is_bad_snapshot_name : Text → Bool
is_bad_snapshot_name name =
    is_empty name
    || ltb max_snapshot_name_bytes (byte_len name)
    || not (text_eq (trim name) name)
    || any is_control name

unfoldable pub validate_snapshot_request : CreateSnapshotRequest → Result ValidationError (Unit {0})
unfolding is_bad_snapshot_name
validate_snapshot_request request = elim request.name [
  | none ↦ ok tt
  | some name ↦ if is_bad_snapshot_name name then err snapshot_name else ok tt
]

abbrev pub ProcessId : Type 0
ProcessId = Text

-- `ProcessId::new`
unfoldable pub new_process_id : Text → Result ValidationError ProcessId
new_process_id value =
    if is_empty value || ltb 128 (byte_len value) then err process_id else ok value
