-- ===== src/Template/Tests.antt =====
-- Runs of the template catalogue's definitions, and its theorems at concrete inputs.
use ferrobox.Prelude.{
  ◌≡◌, refl, ◌⊎◌, inl, inr, true, false, some, List, [], ◌∷◌, Text, codes, bytes, ok,
}
use ferrobox.Template.Fields.{
  validate_alias, validate_text, validate_version, normalize_sha256, parse_source_kind,
  normalize_architecture, CatalogError, alias_conflict,
}
use ferrobox.Template.Records.{
  Machine, TemplateRecord, template_id_from_digest, format_digest, hash_file, canonical_file,
}
use ferrobox.Template.Request.{BuildTemplateRequest, new_record}
use ferrobox.Template.Catalog.{Catalog, TemplateInspection, records, build, find_conflict}
use ferrobox.Template.Catalog.Identity.{IsSound, serve_all, serve_all-IsSound}
use ferrobox.Template.Catalog.Builds.{build_lem}

-- A digest of a descriptor is its name, and one of a file its bytes; every path is a file of two bytes.
abbrev machine : Machine
machine = record {
  descriptor_sha256 = λ d. bytes d.name;
  sha256 = λ contents. contents;
  canonicalize = λ path. some path;
  contents = λ path. some (1 ∷ 2 ∷ []);
  can_write = λ name. true;
  can_remove = λ name. true;
}

abbrev request : BuildTemplateRequest
request = record {
  name = codes "py";
  version = codes "1.0";
  alias = codes "python";
  source_kind = codes " OCI ";
  source_reference = codes "docker";
  source_digest = codes "sha256:0123456789abcdef0123456789abcdef0123456789abcdef0123456789abcdef";
  target_architecture = codes "amd64";
  kernel_path = codes "/k";
  rootfs_path = codes "/r";
}

architecture_folded :
    (normalize_architecture (codes " ARM64") ≡ ok (codes "aarch64"))
    × (validate_version (codes "1.0+b-2") ≡ ok (codes "1.0+b-2"))
unfolding normalize_architecture validate_version
architecture_folded = (refl, refl)

abbrev python : TemplateRecord
python = record {
  catalog_schema_version = 1;
  template_id = codes "tpl-7079";
  alias = codes "python";
  status = codes "ready";
  spec_digest = codes "sha256:7079";
  descriptor = record {
    contract = codes "ferrobox-template-v1";
    name = codes "py";
    version = codes "1.0";
    source_kind = ferrobox.Template.Fields.oci;
    source_reference = codes "docker";
    source_digest = codes "sha256:0123456789abcdef0123456789abcdef0123456789abcdef0123456789abcdef";
    operating_system = codes "linux";
    architecture = codes "x86_64";
    runtime = codes "firecracker";
    kernel = record {
      media_type = codes "application/vnd.ferrobox.kernel";
      digest = codes "sha256:0102";
      size_bytes = 2;
    };
    rootfs = record {
      media_type = codes "application/vnd.ferrobox.rootfs.ext4";
      digest = codes "sha256:0102";
      size_bytes = 2;
    };
  };
  kernel_location = codes "/k";
  rootfs_location = codes "/r";
}

python_made : new_record machine request ≡ ok python
unfolding new_record validate_alias validate_text validate_version normalize_sha256
    parse_source_kind normalize_architecture canonical_file hash_file format_digest
    template_id_from_digest
python_made = refl

nothing_there : records machine [] ≡ ok []
unfolding records
nothing_there = refl

no_conflict : find_conflict python.alias python.template_id [] ≡ ok false
unfolding find_conflict
no_conflict = refl

build_lem_example :
    let after : Catalog = (codes "python", some python) ∷ [] in
    let answer : TemplateInspection = record {
      found = python;
      kernel_valid = true;
      rootfs_valid = true;
    } in
    (build machine request [] ≡ (ok answer, after))
    × (build machine request after ≡ (ok answer, after))
build_lem_example =
    build_lem machine request python [] [] python_made nothing_there no_conflict refl

empty-IsSound : IsSound machine []
empty-IsSound = ([], nothing_there, tt)

abbrev calls : List (BuildTemplateRequest ⊎ Text)
calls = inl request ∷ inl (record request { name = codes "other" }) ∷ inr (codes "python") ∷ []

serve_all-IsSound_example : IsSound machine (serve_all machine calls [])
serve_all-IsSound_example = serve_all-IsSound machine calls [] empty-IsSound
