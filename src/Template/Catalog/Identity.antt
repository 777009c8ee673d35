-- ===== src/Template/Catalog/Identity.antt =====
-- The names and identities that the catalogue of crates/ferrobox-template/src/lib.rs keeps apart.
use mathlib.Core.Path.{subst}
use ferrobox.Prelude.{
  ◌≡◌, refl, ap, ◌∙◌, ◌≢◌, ◌⊎◌, inl, inr, true, false, some, List, [], ◌∷◌, ◌++◌, arith, Bool-cases,
  Option-cases, All, All-append, Result, >>=-eq-ok, Result-cases, Text, text_eq, text_eq_iff, ok,
}
use ferrobox.Template.Fields.{
  CatalogError, validate_alias, validate_text, validate_version, normalize_sha256,
  parse_source_kind, normalize_architecture,
}
use ferrobox.Template.Records.{
  canonical_file, hash_file, TemplateDescriptor, TemplateRecord, Machine, template_contract,
  descriptor_digest, template_id_of, load_record, validate_record,
}
use ferrobox.Template.Request.{BuildTemplateRequest, record_of, new_record}
use ferrobox.Template.Catalog.{
  Catalog, file_at, remove_file, find_conflict, records, resolve, delete, persist, register, build,
}

-- No two records have the same alias or the same identity.
abbrev pub Apart : List TemplateRecord → Type 0
Apart [] = Unit
Apart (r ∷ rest) =
    All (λ other. (r.alias ≢ other.alias) × (r.template_id ≢ other.template_id)) rest × Apart rest

pub text_eq_self : (s : Text) → text_eq s s ≡ true
text_eq_self s = (text_eq_iff s s).1 refl

pub validate_alias_ok : (value alias : Text) → validate_alias value ≡ ok alias → alias ≡ value
unfolding validate_alias
validate_alias_ok value alias h = ground arith

abbrev accepted : TemplateRecord → Result CatalogError TemplateRecord
accepted r = ok r

module _ (m : Machine) where
  -- Every file of the catalogue holds a valid record, under its alias, and the records are apart.
  abbrev pub IsSound : Catalog → Type 0
  IsSound c = (found : List TemplateRecord) × (records m c ≡ ok found) × Apart found

  pub records-append :
      (c : Catalog) (name : Text) (r : TemplateRecord) (found : List TemplateRecord)
      → records m c ≡ ok found
      → load_record m name (some r) ≡ ok r
      → records m (c ++ (name, some r) ∷ []) ≡ ok (found ++ r ∷ [])
  unfolding records
  records-append [] name r found h valid = ground arith
  records-append ((stem, payload) ∷ c) name r found h valid =
      elim (Result-cases (load_record m stem payload)) [
        | inr (e, bad) ↦ absurd (ground arith)
        | inl (first, good) ↦ elim (Result-cases (records m c)) [
          | inr (e, bad) ↦ absurd (ground arith)
          | inl (rest, all_good) ↦
              let later = records-append c name r rest all_good valid in ground (arith, later)
        ]
      ]

  Apart-push :
      (found : List TemplateRecord) (r : TemplateRecord)
      → find_conflict r.alias r.template_id found ≡ ok false
      → Apart found
      → Apart (found ++ r ∷ [])
  unfolding find_conflict
  Apart-push [] r h apart = (tt, tt)
  Apart-push (x ∷ found) r h (p, apart) =
      let alias = text_eq_iff x.alias r.alias in
      let identity = text_eq_iff x.template_id r.template_id in
      let other_alias : text_eq x.alias r.alias ≡ false = ground arith in
      let other_identity : text_eq x.template_id r.template_id ≡ false = ground arith in
      let later : find_conflict r.alias r.template_id found ≡ ok false = ground arith in
      (
        All-append (λ other. (x.alias ≢ other.alias) × (x.template_id ≢ other.template_id)) found
            (r ∷ []) p ((ground arith, ground arith), tt),
        Apart-push found r later apart,
      )

  record_valid :
      (alias : Text) (d : TemplateDescriptor) (kernel rootfs : Text)
      → validate_alias alias ≡ ok alias
      → d.contract ≡ template_contract
      → validate_record m alias (record_of m alias d kernel rootfs) ≡ true
  unfolding validate_record
  record_valid alias d kernel rootfs named contract =
      let same = text_eq_self alias in
      let id = text_eq_self (template_id_of m d) in
      let digest = text_eq_self (descriptor_digest m d) in
      let right : text_eq d.contract template_contract ≡ true =
        (text_eq_iff d.contract template_contract).1 contract in
      rw (right, named, same, id, digest) refl

  recorded :
      (request : BuildTemplateRequest) (alias : Text) (d : TemplateDescriptor)
      (kernel rootfs : Text) (r : TemplateRecord)
      → validate_alias request.alias ≡ ok alias
      → d.contract ≡ template_contract
      → accepted (record_of m alias d kernel rootfs) ≡ ok r
      → (r.alias ≡ request.alias) × (load_record m r.alias (some r) ≡ ok r)
  unfolding load_record
  recorded request alias d kernel rootfs r named contract h =
      let same = validate_alias_ok request.alias alias named in
      let named_again : validate_alias alias ≡ ok alias = ap validate_alias same ∙ named in
      let valid = record_valid alias d kernel rootfs named_again contract in
      let made : record_of m alias d kernel rootfs ≡ r = ground arith in
      subst (λ x. (x.alias ≡ request.alias) × (load_record m x.alias (some x) ≡ ok x)) made
        (same, rw valid refl)

  pub new_record_valid :
      (request : BuildTemplateRequest) (r : TemplateRecord)
      → new_record m request ≡ ok r
      → (r.alias ≡ request.alias) × (load_record m r.alias (some r) ≡ ok r)
  unfolding new_record load_record validate_record
  new_record_valid request r h =
      let (alias, named, h1) = >>=-eq-ok (validate_alias request.alias) _ h in
      let (name, _, h2) = >>=-eq-ok (validate_text request.name 128) _ h1 in
      let (version, _, h3) = >>=-eq-ok (validate_version request.version) _ h2 in
      let (reference, _, h4) = >>=-eq-ok (validate_text request.source_reference 1024) _ h3 in
      let (digest, _, h5) = >>=-eq-ok (normalize_sha256 request.source_digest) _ h4 in
      let (kind, _, h6) = >>=-eq-ok (parse_source_kind request.source_kind) _ h5 in
      let (arch, _, h7) = >>=-eq-ok (normalize_architecture request.target_architecture) _ h6 in
      let (kernel, _, h8) = >>=-eq-ok (canonical_file m request.kernel_path) _ h7 in
      let (rootfs, _, h9) = >>=-eq-ok (canonical_file m request.rootfs_path) _ h8 in
      let (kernel_hash, _, h10) = >>=-eq-ok (hash_file m kernel) _ h9 in
      let (rootfs_hash, _, h11) = >>=-eq-ok (hash_file m rootfs) _ h10 in
      recorded request alias _ kernel rootfs r named refl h11

  register-IsSound :
      (r : TemplateRecord) (c : Catalog) (found : List TemplateRecord)
      → load_record m r.alias (some r) ≡ ok r
      → records m c ≡ ok found
      → find_conflict r.alias r.template_id found ≡ ok false
      → Apart found
      → IsSound (register m r c).1
  unfolding register persist
  register-IsSound r c found valid all_good new apart = elim (Option-cases (file_at r.alias c)) [
    | inr (payload, taken) ↦ rw (taken, register, persist) (found, all_good, apart)
    | inl free ↦ elim (Bool-cases (m.can_write r.alias)) [
      | inr stuck ↦ rw (free, stuck, register, persist) (found, all_good, apart)
      | inl room ↦
          rw (free, room, register, persist)
            (
              found ++ r ∷ [],
              records-append c r.alias r found all_good valid,
              Apart-push found r new apart,
            )
    ]
  ]

  build-IsSound :
      (request : BuildTemplateRequest) (c : Catalog) → IsSound c → IsSound (build m request c).1
  unfolding build
  build-IsSound request c (found, all_good, apart) = elim (Result-cases (new_record m request)) [
    | inr (e, bad) ↦ rw (bad, build) (found, all_good, apart)
    | inl (r, made) ↦
        let (_, valid) = new_record_valid request r made in
        elim (Result-cases (find_conflict r.alias r.template_id found)) [
          | inr (e, clash) ↦ rw (made, all_good, clash, build) (found, all_good, apart)
          | inl (true, known) ↦ rw (made, all_good, known, build) (found, all_good, apart)
          | inl (false, new) ↦
              rw (made, all_good, new, build) (register-IsSound r c found valid all_good new apart)
        ]
  ]

  remove_file_lem :
      (name : Text) (c : Catalog) (found : List TemplateRecord)
      → records m c ≡ ok found
      → (rest : List TemplateRecord) × (records m (remove_file name c) ≡ ok rest)
        × ((P : TemplateRecord → Type 0) → All P found → All P rest)
        × (Apart found → Apart rest)
  unfolding records
  remove_file_lem name [] found h = (found, h, λ P k. k, λ k. k)
  remove_file_lem name ((stem, payload) ∷ c) found h =
      elim (Result-cases (load_record m stem payload)) [
        | inr (e, bad) ↦ absurd (ground arith)
        | inl (r, good) ↦ elim (Result-cases (records m c)) [
          | inr (e, bad) ↦ absurd (ground arith)
          | inl (others, all_good) ↦
              let shape : found ≡ r ∷ others = ground arith in
              elim (Bool-cases (text_eq stem name)) [
                | inl here ↦ rw (here, shape) (others, all_good, λ P k. k.1, λ k. k.1)
                | inr later ↦
                    let (rest, kept, fewer, apart) = remove_file_lem name c others all_good in
                    rw (later, shape)
                      (
                        r ∷ rest,
                        rw (good, kept, records) refl,
                        λ P k. (k.0, fewer P k.1),
                        λ k. (
                          fewer
                              (λ other.
                                (r.alias ≢ other.alias) × (r.template_id ≢ other.template_id))
                              k.0,
                          apart k.1,
                        ),
                      )
              ]
        ]
      ]

  delete-IsSound : (reference : Text) (c : Catalog) → IsSound c → IsSound (delete m reference c).1
  unfolding delete
  delete-IsSound reference c (found, all_good, apart) =
      elim (Result-cases (resolve m reference c)) [
        | inr (e, bad) ↦ rw (bad, delete) (found, all_good, apart)
        | inl (there, resolved) ↦ elim (Bool-cases (m.can_remove there.0)) [
          | inr stuck ↦ rw (resolved, stuck, delete) (found, all_good, apart)
          | inl free ↦
              let (rest, kept, _, still) = remove_file_lem there.0 c found all_good in
              rw (resolved, free, delete) (rest, kept, still apart)
        ]
      ]

  -- The calls that change the catalogue.
  abbrev pub CatalogCall : Type 0
  CatalogCall = BuildTemplateRequest ⊎ Text

  abbrev pub serve : CatalogCall → Catalog → Catalog
  serve (inl request) c = (build m request c).1
  serve (inr reference) c = (delete m reference c).1

  abbrev pub serve_all : List CatalogCall → Catalog → Catalog
  serve_all [] c = c
  serve_all (call ∷ calls) c = serve_all calls (serve call c)

  -- Through any sequence of builds and deletions, whatever each of them answers, a catalogue whose
  -- files all hold valid records under their own aliases, with no alias and no identity twice, stays
  -- such a catalogue.
  pub serve_all-IsSound :
      (calls : List CatalogCall) (c : Catalog) → IsSound c → IsSound (serve_all calls c)
  serve_all-IsSound [] c h = h
  serve_all-IsSound (inl request ∷ calls) c h =
      serve_all-IsSound calls (build m request c).1 (build-IsSound request c h)
  serve_all-IsSound (inr reference ∷ calls) c h =
      serve_all-IsSound calls (delete m reference c).1 (delete-IsSound reference c h)
