-- ===== src/Template/Request.antt =====
-- How `build` of crates/ferrobox-template/src/lib.rs makes a record of a request.
use ferrobox.Prelude.{ℕ, Result, ◌>>=◌, Text, codes, ok}
use ferrobox.Template.Fields.{
  CatalogError, validate_alias, validate_text, validate_version, normalize_sha256,
  parse_source_kind, normalize_architecture,
}
use ferrobox.Template.Records.{
  TemplateArtifact, TemplateDescriptor, TemplateRecord, Machine, template_contract, ready_status,
  descriptor_digest, template_id_of, canonical_file, hash_file,
}

pub record BuildTemplateRequest : Type 0 where
  pub name : Text
  pub version : Text
  pub alias : Text
  pub source_kind : Text
  pub source_reference : Text
  pub source_digest : Text
  pub target_architecture : Text
  pub kernel_path : Text
  pub rootfs_path : Text

module _ (m : Machine) where
  -- The record of a descriptor under an alias.
  abbrev pub record_of : Text → TemplateDescriptor → Text → Text → TemplateRecord
  record_of alias descriptor kernel rootfs = record {
    catalog_schema_version = 1;
    template_id = template_id_of m descriptor;
    alias = alias;
    status = ready_status;
    spec_digest = descriptor_digest m descriptor;
    descriptor = descriptor;
    kernel_location = kernel;
    rootfs_location = rootfs;
  }

  abbrev pub artifact : Text → Text × ℕ → TemplateArtifact
  artifact kind (digest, size) = record { media_type = kind; digest = digest; size_bytes = size }

  -- The checks of `build` in their order, and the record.
  unfoldable pub new_record : BuildTemplateRequest → Result CatalogError TemplateRecord
  new_record request = do
    alias ← validate_alias request.alias
    name ← validate_text request.name 128
    version ← validate_version request.version
    source_reference ← validate_text request.source_reference 1024
    source_digest ← normalize_sha256 request.source_digest
    source_kind ← parse_source_kind request.source_kind
    architecture ← normalize_architecture request.target_architecture
    kernel ← canonical_file m request.kernel_path
    rootfs ← canonical_file m request.rootfs_path
    kernel_hash ← hash_file m kernel
    rootfs_hash ← hash_file m rootfs
    ok (
        record_of alias
          (record {
            contract = template_contract;
            name = name;
            version = version;
            source_kind = source_kind;
            source_reference = source_reference;
            source_digest = source_digest;
            operating_system = codes "linux";
            architecture = architecture;
            runtime = codes "firecracker";
            kernel = artifact (codes "application/vnd.ferrobox.kernel") kernel_hash;
            rootfs = artifact (codes "application/vnd.ferrobox.rootfs.ext4") rootfs_hash;
          })
          kernel rootfs)
