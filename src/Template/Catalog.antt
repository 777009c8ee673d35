-- ===== src/Template/Catalog.antt =====
-- `TemplateCatalog` of crates/ferrobox-template/src/lib.rs. The state is the directory of records: the
-- names of its `.json` files, without the extension, and the record that each holds, if it holds one.
pub mod Identity
pub mod Builds
use ferrobox.Prelude.{
  ℕ, zero, suc, ◌+◌, ◌-◌, ◌*◌, ◌/◌, ◌%◌, ◌^◌, ◌≤◌, ◌<◌, min, ◌≡◌, refl, sym, ap, ◌∙◌, ◌≢◌, ◌↔◌, ◌⊎◌,
  inl, inr, Bool, true, false, not, ◌&&◌, ◌||◌, Option, none, some, List, [], ◌∷◌, ◌++◌, map, arith,
  ltb, leb, ◌==◌, in_range, if◌then◌else◌, ==_iff, ltb_iff, leb_iff, Bool-cases, Option-cases,
  length, is_empty, is_empty-eq-false_iff, all, any, get_elem?, get_or, take, drop, length-append,
  length-take, length-drop, take-append-drop, take_of_length-le, All, all_iff, any-eq-false_iff,
  all-append, any-append, Result, reject_if, ok_or, map_err, is_ok, >>=-eq-ok, Result-cases, Text,
  Bytes, codes, utf8_char, bytes, byte_len, text_eq, text_eq_iff, is_ascii_alphanumeric, is_control,
  is_whitespace, trim_start_while, trim, strip_prefix, starts_with, push_front, split,
  to_ascii_lower, all-bytes, bytes_of_ascii, has_nul, has_nul-eq-false_iff, strip_prefix-append,
  strip_prefix-eq-some, Table, lookup, remove, insert, lookup-remove, lookup-insert, ok, err,
}
use ferrobox.Prelude.Exec.{Exec, pure, raise, lift, refuse_if, modify, ◌>>=◌, ◌>>◌}
use ferrobox.Template.Fields.{
  CatalogError, alias_conflict, identity_conflict, template_not_found, io_failed, validate_alias,
  validate_text, validate_version, normalize_sha256, parse_source_kind, normalize_architecture,
}
use ferrobox.Template.Request.{BuildTemplateRequest, new_record}
use ferrobox.Template.Records.{
  TemplateArtifact, TemplateDescriptor, TemplateRecord, Machine, template_contract, ready_status,
  descriptor_digest, template_id_of, canonical_file, hash_file, load_record, verify_artifact,
}

-- `TemplateInspection`, with the two `valid` of its verification.
pub record TemplateInspection : Type 0 where
  pub found : TemplateRecord
  pub kernel_valid : Bool
  pub rootfs_valid : Bool

abbrev pub Catalog : Type 0
Catalog = List (Text × Option TemplateRecord)

abbrev pub file_at : Text → Catalog → Option (Option TemplateRecord)
file_at name [] = none
file_at name ((stem, payload) ∷ files) =
    let later = file_at name files in if text_eq stem name then some payload else later

-- `fs::remove_file`
abbrev pub remove_file : Text → Catalog → Catalog
remove_file name [] = []
remove_file name ((stem, payload) ∷ files) =
    let rest = remove_file name files in if text_eq stem name then files else (stem, payload) ∷ rest

-- The loop over the existing records in `build`: whether the alias already stands for the identity,
-- and nothing if neither is taken.
unfoldable pub find_conflict : Text → Text → List TemplateRecord → Result CatalogError Bool
find_conflict alias template_id [] = ok false
find_conflict alias template_id (existing ∷ records) =
    let later = find_conflict alias template_id records in
    if text_eq existing.alias alias
    then (if text_eq existing.template_id template_id then ok true else err alias_conflict)
    else if text_eq existing.template_id template_id
    then err identity_conflict
    else later

abbrev pub find_identity : Text → List TemplateRecord → Result CatalogError (Text × TemplateRecord)
find_identity reference [] = err template_not_found
find_identity reference (r ∷ records) =
    let later = find_identity reference records in
    if text_eq r.template_id reference then ok (r.alias, r) else later

module _ (m : Machine) where
  unfoldable pub records : Catalog → Result CatalogError (List TemplateRecord)
  records [] = ok []
  records ((stem, payload) ∷ files) =
      let later = records files in
      elim (load_record m stem payload) [
        | err e ↦ err e
        | ok r ↦ elim later [ err e ↦ err e | ok rest ↦ ok (r ∷ rest) ]
      ]

  -- `resolve`, with the name of the record's file in place of its path.
  unfoldable pub resolve : Text → Catalog → Result CatalogError (Text × TemplateRecord)
  resolve reference c = elim (validate_alias reference) [
    | err e ↦ err e
    | ok name ↦ elim (file_at name c) [
      | some payload ↦ elim (load_record m name payload) [ err e ↦ err e | ok r ↦ ok (name, r) ]
      | none ↦ elim (records c) [ err e ↦ err e | ok found ↦ find_identity name found ]
    ]
  ]

  unfoldable pub inspect : Text → Catalog → Result CatalogError TemplateInspection
  inspect reference c = elim (resolve reference c) [
    | err e ↦ err e
    | ok (_, r) ↦ ok (record {
      found = r;
      kernel_valid = verify_artifact m r.kernel_location r.descriptor.kernel;
      rootfs_valid = verify_artifact m r.rootfs_location r.descriptor.rootfs;
    })
  ]

  unfoldable pub delete : Text → Exec Catalog CatalogError TemplateRecord
  delete reference = do
    (name, r) ← (λ c. (resolve reference c, c))
    refuse_if (not (m.can_remove name)) io_failed
    modify (remove_file name)
    pure r

  -- `persist`, which does not replace a file.
  unfoldable pub persist : TemplateRecord → Catalog → Result CatalogError Catalog
  persist r c = elim (file_at r.alias c) [
    | some _ ↦ err alias_conflict
    | none ↦ if m.can_write r.alias then ok (c ++ (r.alias, some r) ∷ []) else err io_failed
  ]

  -- The end of `build`, where the loop has found neither name taken.
  unfoldable pub register : TemplateRecord → Exec Catalog CatalogError TemplateInspection
  register r c = elim (persist r c) [
    | err e ↦ (err e, c)
    | ok after ↦ (inspect r.alias after, after)
  ]

  unfoldable pub build : BuildTemplateRequest → Exec Catalog CatalogError TemplateInspection
  build request = do
    r ← lift (new_record m request)
    existing ← (λ c. (records c, c))
    known ← lift (find_conflict r.alias r.template_id existing)
    if known then (λ c. (inspect r.alias c, c)) else register r
