-- ===== src/Template/Catalog/Builds.antt =====
-- What `build` of crates/ferrobox-template/src/lib.rs answers, and what a second one does.
use mathlib.Core.Path.{subst}
use ferrobox.Prelude.{
  ℕ, ◌≡◌, refl, sym, ap, ◌∙◌, inl, inr, true, false, Option, none, some, List, [], ◌∷◌, ◌++◌, arith,
  ◌==◌, ==_iff, Result, >>=-eq-ok, Result-cases, Text, codes, text_eq, text_eq_iff, ok,
}
use ferrobox.Template.Fields.{
  CatalogError, validate_alias, validate_text, validate_version, normalize_sha256,
  parse_source_kind, normalize_architecture,
}
use ferrobox.Template.Records.{
  TemplateDescriptor, TemplateRecord, Machine, load_record, validate_record, verify_artifact,
  hash_file, canonical_file,
}
use ferrobox.Template.Request.{BuildTemplateRequest, artifact, record_of, new_record}
use ferrobox.Template.Catalog.{
  Catalog, TemplateInspection, file_at, find_conflict, records, resolve, inspect, persist, register,
  build,
}
use ferrobox.Template.Catalog.Identity.{
  text_eq_self, validate_alias_ok, records-append, new_record_valid,
}

file_at-append :
    (name : Text) (payload : Option TemplateRecord) (c : Catalog)
    → file_at name c ≡ none
    → file_at name (c ++ (name, payload) ∷ []) ≡ some payload
file_at-append name payload [] h = rw (text_eq_self name) refl
file_at-append name payload ((stem, other) ∷ c) h = ground (arith, file_at-append name payload c)

conflict_last :
    (r : TemplateRecord) (found : List TemplateRecord)
    → find_conflict r.alias r.template_id found ≡ ok false
    → find_conflict r.alias r.template_id (found ++ r ∷ []) ≡ ok true
unfolding find_conflict
conflict_last r [] h = rw (text_eq_self r.alias, text_eq_self r.template_id) refl
conflict_last r (x ∷ found) h = ground (arith, conflict_last r found)

abbrev accepted : TemplateRecord → Result CatalogError TemplateRecord
accepted r = ok r

module _ (m : Machine) where
  load_alias :
      (stem : Text) (payload : Option TemplateRecord) (r : TemplateRecord)
      → load_record m stem payload ≡ ok r
      → stem ≡ r.alias
  unfolding load_record validate_record
  load_alias stem none r h = ground arith
  load_alias stem (some x) r h = ground (arith, text_eq_iff stem x.alias)

  -- Where no record has the alias, no file has the name.
  absent_lem :
      (r : TemplateRecord) (c : Catalog) (found : List TemplateRecord)
      → records m c ≡ ok found
      → find_conflict r.alias r.template_id found ≡ ok false
      → file_at r.alias c ≡ none
  unfolding records find_conflict
  absent_lem r [] found h new = refl
  absent_lem r ((stem, payload) ∷ c) found h new =
      elim (Result-cases (load_record m stem payload)) [
        | inr (e, bad) ↦ absurd (ground arith)
        | inl (x, good) ↦ elim (Result-cases (records m c)) [
          | inr (e, bad) ↦ absurd (ground arith)
          | inl (others, all_good) ↦
              let shape : found ≡ x ∷ others = ground arith in
              let own = load_alias stem payload x good in
              let rest = absent_lem r c others all_good in
              let none_of : find_conflict r.alias r.template_id (x ∷ others) ≡ ok false =
                ap (find_conflict r.alias r.template_id) (sym shape) ∙ new in
              let other : text_eq x.alias r.alias ≡ false = ground arith in
              rw (own, other) (rest (ground arith))
        ]
      ]

  named_lem :
      (r : TemplateRecord)
      → load_record m r.alias (some r) ≡ ok r
      → validate_alias r.alias ≡ ok r.alias
  unfolding load_record validate_record
  named_lem r h = elim (Result-cases (validate_alias r.alias)) [
    | inl (a, e) ↦ rw e (ap ok (validate_alias_ok r.alias a e))
    | inr (x, e) ↦ absurd (ground arith)
  ]

  verified :
      (path kind : Text) (digest : Text) (size : ℕ)
      → hash_file m path ≡ ok (digest, size)
      → verify_artifact m path (artifact m kind (digest, size)) ≡ true
  unfolding verify_artifact
  verified path kind digest size h =
      let same : size == size ≡ true = (==_iff size size).1 refl in
      rw (h, text_eq_self digest, same, verify_artifact) refl

  abbrev IsIntact : TemplateRecord → Type 0
  IsIntact r =
      (verify_artifact m r.kernel_location r.descriptor.kernel ≡ true)
      × (verify_artifact m r.rootfs_location r.descriptor.rootfs ≡ true)

  intact :
      (alias : Text) (d : TemplateDescriptor) (kernel rootfs : Text) (r : TemplateRecord)
      → verify_artifact m kernel d.kernel ≡ true
      → verify_artifact m rootfs d.rootfs ≡ true
      → accepted (record_of m alias d kernel rootfs) ≡ ok r
      → IsIntact r
  intact alias d kernel rootfs r a b h =
      let made : record_of m alias d kernel rootfs ≡ r = ground arith in subst IsIntact made (a, b)

  new_record-IsIntact :
      (request : BuildTemplateRequest) (r : TemplateRecord)
      → new_record m request ≡ ok r
      → IsIntact r
  unfolding new_record
  new_record-IsIntact request r h =
      let (alias, _, h1) = >>=-eq-ok (validate_alias request.alias) _ h in
      let (name, _, h2) = >>=-eq-ok (validate_text request.name 128) _ h1 in
      let (version, _, h3) = >>=-eq-ok (validate_version request.version) _ h2 in
      let (reference, _, h4) = >>=-eq-ok (validate_text request.source_reference 1024) _ h3 in
      let (digest, _, h5) = >>=-eq-ok (normalize_sha256 request.source_digest) _ h4 in
      let (kind, _, h6) = >>=-eq-ok (parse_source_kind request.source_kind) _ h5 in
      let (arch, _, h7) = >>=-eq-ok (normalize_architecture request.target_architecture) _ h6 in
      let (kernel, _, h8) = >>=-eq-ok (canonical_file m request.kernel_path) _ h7 in
      let (rootfs, _, h9) = >>=-eq-ok (canonical_file m request.rootfs_path) _ h8 in
      let (kernel_hash, k, h10) = >>=-eq-ok (hash_file m kernel) _ h9 in
      let (rootfs_hash, f, h11) = >>=-eq-ok (hash_file m rootfs) _ h10 in
      intact alias _ kernel rootfs r
        (verified kernel (codes "application/vnd.ferrobox.kernel") kernel_hash.0 kernel_hash.1 k)
        (verified rootfs (codes "application/vnd.ferrobox.rootfs.ext4") rootfs_hash.0 rootfs_hash.1
          f)
        h11

  inspect_own :
      (r : TemplateRecord) (c : Catalog)
      → validate_alias r.alias ≡ ok r.alias
      → file_at r.alias c ≡ some (some r)
      → load_record m r.alias (some r) ≡ ok r
      → IsIntact r
      → inspect m r.alias c ≡ ok (record { found = r; kernel_valid = true; rootfs_valid = true })
  unfolding inspect resolve
  inspect_own r c named there valid (kernel, rootfs) =
      rw (named, there, valid, inspect, resolve, kernel, rootfs) refl

  -- A build of a well-formed request in a catalogue of valid records, of which none has its alias or
  -- its identity, where the record's file can be written, adds the record and answers with it and with
  -- both artifacts found intact; and the same build again, while the artifacts stay as they are, gives
  -- the same answer and changes nothing.
  pub build_lem :
      (request : BuildTemplateRequest) (r : TemplateRecord) (c : Catalog)
      (existing : List TemplateRecord)
      → new_record m request ≡ ok r
      → records m c ≡ ok existing
      → find_conflict r.alias r.template_id existing ≡ ok false
      → m.can_write r.alias ≡ true
      → let after = c ++ (r.alias, some r) ∷ [] in
        let answer : TemplateInspection = record {
          found = r;
          kernel_valid = true;
          rootfs_valid = true;
        } in
        (build m request c ≡ (ok answer, after)) × (build m request after ≡ (ok answer, after))
  unfolding build register persist
  build_lem request r c existing made all_good new room =
      let after = c ++ (r.alias, some r) ∷ [] in
      let (_, valid) = new_record_valid m request r made in
      let absent = absent_lem r c existing all_good new in
      let there = file_at-append r.alias (some r) c absent in
      let shown =
        inspect_own r after (named_lem r valid) there valid (new_record-IsIntact request r made) in
      let more = records-append m c r.alias r existing all_good valid in
      let known = conflict_last r existing new in
      (
        rw (made, all_good, new, absent, room, shown, build, register, persist) refl,
        rw (made, more, known, shown, build) refl,
      )
