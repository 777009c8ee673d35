-- ===== src/Template/Records.antt =====
-- The records of crates/ferrobox-template/src/lib.rs, their identity and their validation.
use ferrobox.Prelude.{
  ℕ, ◌+◌, ◌-◌, ◌/◌, ◌%◌, Bool, false, ◌&&◌, Option, none, some, [], ◌∷◌, ◌++◌, ltb, ◌==◌,
  if◌then◌else◌, length, take, Result, is_ok, Text, Bytes, codes, text_eq, strip_prefix, ok, err,
}
use ferrobox.Template.Fields.{
  CatalogError, corrupt_record, io_failed, invalid_template, TemplateSourceKind, validate_alias,
  digest_prefix,
}

pub record TemplateArtifact : Type 0 where
  pub media_type : Text
  pub digest : Text
  pub size_bytes : ℕ

-- `TemplateSource`, `TemplatePlatform` and `TemplateArtifacts` are fields side by side.
pub record TemplateDescriptor : Type 0 where
  pub contract : Text
  pub name : Text
  pub version : Text
  pub source_kind : TemplateSourceKind
  pub source_reference : Text
  pub source_digest : Text
  pub operating_system : Text
  pub architecture : Text
  pub runtime : Text
  pub kernel : TemplateArtifact
  pub rootfs : TemplateArtifact

pub record TemplateRecord : Type 0 where
  pub catalog_schema_version : ℕ
  pub template_id : Text
  pub alias : Text
  pub status : Text
  pub spec_digest : Text
  pub descriptor : TemplateDescriptor
  pub kernel_location : Text
  pub rootfs_location : Text

-- What the machine supplies: the digest of a descriptor's serialised form and of a file's bytes, the
-- canonical form of a path, the bytes of the regular file there, and whether a record's file can be
-- written or removed.
pub record Machine : Type 0 where
  pub descriptor_sha256 : TemplateDescriptor → Bytes
  pub sha256 : Bytes → Bytes
  pub canonicalize : Text → Option Text
  pub contents : Text → Option Bytes
  pub can_write : Text → Bool
  pub can_remove : Text → Bool

abbrev pub template_contract : Text
template_contract = codes "ferrobox-template-v1"

abbrev pub ready_status : Text
ready_status = codes "ready"

abbrev hex_digit : ℕ → ℕ
hex_digit n = if ltb n 10 then b'0' + n else b'a' + (n - 10)

abbrev hex : Bytes → Text
hex [] = []
hex (b ∷ s) = hex_digit (b / 16) ∷ hex_digit (b % 16) ∷ hex s

-- `format_digest`
unfoldable pub format_digest : Bytes → Text
format_digest digest = digest_prefix ++ hex digest

-- `template_id_from_digest`, for a digest with its prefix.
unfoldable pub template_id_from_digest : Text → Text
template_id_from_digest digest = elim (strip_prefix digest_prefix digest) [
  | none ↦ []
  | some rest ↦ codes "tpl-" ++ take 60 rest
]

module _ (m : Machine) where
  abbrev pub descriptor_digest : TemplateDescriptor → Text
  descriptor_digest descriptor = format_digest (m.descriptor_sha256 descriptor)

  abbrev pub template_id_of : TemplateDescriptor → Text
  template_id_of descriptor = template_id_from_digest (descriptor_digest descriptor)

  -- `canonical_file`
  unfoldable pub canonical_file : Text → Result CatalogError Text
  canonical_file path = elim (m.canonicalize path) [
    | none ↦ err io_failed
    | some canonical ↦ elim (m.contents canonical) [
      | none ↦ err invalid_template
      | some _ ↦ ok canonical
    ]
  ]

  -- `hash_file`
  unfoldable pub hash_file : Text → Result CatalogError (Text × ℕ)
  hash_file path = elim (m.contents path) [
    | none ↦ err io_failed
    | some contents ↦ ok (format_digest (m.sha256 contents), length contents)
  ]

  -- `validate_record`, with the name of the record's file, which is here without `.json`.
  unfoldable pub validate_record : Text → TemplateRecord → Bool
  validate_record file_name r =
      r.catalog_schema_version == 1
      && text_eq r.status ready_status
      && text_eq r.descriptor.contract template_contract
      && is_ok (validate_alias r.alias)
      && text_eq file_name r.alias
      && text_eq r.spec_digest (descriptor_digest r.descriptor)
      && text_eq r.template_id (template_id_of r.descriptor)

  -- `load_record`, of a file whose text may be no record.
  unfoldable pub load_record : Text → Option TemplateRecord → Result CatalogError TemplateRecord
  load_record file_name none = err corrupt_record
  load_record file_name (some r) = if validate_record file_name r then ok r else err corrupt_record

  -- The `valid` of `verify_artifact`.
  unfoldable pub verify_artifact : Text → TemplateArtifact → Bool
  verify_artifact path expected = elim (hash_file path) [
    | err e ↦ false
    | ok (digest, size) ↦ text_eq digest expected.digest && size == expected.size_bytes
  ]
