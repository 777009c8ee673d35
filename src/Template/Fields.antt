-- ===== src/Template/Fields.antt =====
-- The fields of a template in crates/ferrobox-template/src/lib.rs, and how a request's texts become
-- them.
use ferrobox.Prelude.{
  ℕ, Bool, not, ◌||◌, none, some, ltb, ◌==◌, in_range, if◌then◌else◌, is_empty, all, any, Result,
  Text, codes, bytes, byte_len, text_eq, is_ascii_alphanumeric, is_control, trim, strip_prefix,
  to_ascii_lower, ok, err,
}

-- `TemplateCatalogError`, by its kinds.
pub data CatalogError : Type 0 where
  invalid_template alias_conflict identity_conflict template_not_found corrupt_record : CatalogError
  io_failed : CatalogError

pub data TemplateSourceKind : Type 0 where
  oci file snapshot : TemplateSourceKind

-- `trim().to_ascii_lowercase()`
abbrev folded : Text → Text
folded value = to_ascii_lower (trim value)

unfoldable pub parse_source_kind : Text → Result CatalogError TemplateSourceKind
parse_source_kind value =
    if text_eq (folded value) (codes "oci")
    then ok oci
    else if text_eq (folded value) (codes "file")
    then ok file
    else if text_eq (folded value) (codes "snapshot")
    then ok snapshot
    else err invalid_template

unfoldable pub normalize_architecture : Text → Result CatalogError Text
normalize_architecture value =
    if text_eq (folded value) (codes "amd64") || text_eq (folded value) (codes "x86_64")
    then ok (codes "x86_64")
    else if text_eq (folded value) (codes "arm64") || text_eq (folded value) (codes "aarch64")
    then ok (codes "aarch64")
    else err invalid_template

abbrev is_alias_byte : ℕ → Bool
is_alias_byte b = is_ascii_alphanumeric b || b == b'-' || b == b'_'

unfoldable pub validate_alias : Text → Result CatalogError Text
validate_alias value =
    if is_empty value || ltb 64 (byte_len value) || not (all is_alias_byte (bytes value))
    then err invalid_template
    else ok value

unfoldable pub validate_text : Text → ℕ → Result CatalogError Text
validate_text value maximum_bytes =
    if is_empty (trim value)
      || ltb maximum_bytes (byte_len (trim value))
      || any is_control (trim value)
    then err invalid_template
    else ok (trim value)

abbrev is_version_byte : ℕ → Bool
is_version_byte b = is_ascii_alphanumeric b || b == b'.' || b == b'-' || b == b'_' || b == b'+'

unfoldable pub validate_version : Text → Result CatalogError Text
validate_version value =
    if is_empty value || ltb 64 (byte_len value) || not (all is_version_byte (bytes value))
    then err invalid_template
    else ok value

abbrev pub digest_prefix : Text
digest_prefix = codes "sha256:"

-- `is_ascii_hexdigit`
abbrev is_hex_digit : ℕ → Bool
is_hex_digit b = in_range b'0' b'9' b || in_range b'a' b'f' b || in_range b'A' b'F' b

unfoldable pub normalize_sha256 : Text → Result CatalogError Text
normalize_sha256 value = elim (strip_prefix digest_prefix (folded value)) [
  | none ↦ err invalid_template
  | some hex ↦
      if not (byte_len hex == 64) || not (all is_hex_digit (bytes hex))
      then err invalid_template
      else ok (folded value)
]
