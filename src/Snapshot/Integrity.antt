-- ===== src/Snapshot/Integrity.antt =====
-- What verification in crates/ferrobox-node/src/snapshot.rs says of an artifact.
use ferrobox.Snapshot.Comparison.{same_manifest_iff}
use mathlib.Core.Path.{subst}
use ferrobox.Prelude.{
  Bool-cases, ap, inl, inr, sym, ◌∙◌, ◌≢◌, ◌⊎◌, ℕ, ◌≡◌, refl, Bool, true, false, not, ◌&&◌, Option,
  none, some, List, ◌∷◌, arith, ◌==◌, length, Result, ◌>>◌, reject_if, ok_or, >>=-eq-ok,
  Result-cases, Text, Bytes, text_eq, text_eq_iff, ok,
}
use ferrobox.Core.Error.{RuntimeError}
use ferrobox.Snapshot.Store.{
  ArtifactDigest, Folder, Manifest, SnapshotStore, Surroundings, artifact_names, check_artifacts,
  digest_of, integrity_error, is_compatible, manifest_name, memory_name, rootfs_name, same_manifest,
  saturating_add, token_name, verified_manifest, verify, vmstate_name,
}

ok_or-eq-ok : {A : Type 0} (o : Option A) (e : RuntimeError) {a : A} → ok_or o e ≡ ok a → o ≡ some a
ok_or-eq-ok none e h = absurd (ground arith)
ok_or-eq-ok (some a) e h = ground arith

same_answer :
    {A : Type 0} {a b : A} {r s : Result RuntimeError A} → r ≡ s → r ≡ ok a → s ≡ ok b → a ≡ b
same_answer h first second = ground arith

-- A check that was passed, and what came after it.
passed :
    {B : Type 0} (b : Bool) (e : RuntimeError) (next : Result RuntimeError B) {last : B}
    → (reject_if (not b) e >> next) ≡ ok last
    → (b ≡ true) × (next ≡ ok last)
passed true e next h = (refl, h)
passed false e next h = absurd (ground arith)

-- Two folders in which the files of the machine and the restore token are the same.
abbrev pub SameArtifact : Folder → Folder → Type 0
SameArtifact folder other =
    (folder vmstate_name ≡ other vmstate_name)
    × (folder memory_name ≡ other memory_name)
    × (folder rootfs_name ≡ other rootfs_name)
    × (folder token_name ≡ other token_name)

module _ (env : Surroundings) where
  -- The file of this name is the one whose digest the manifest has.
  abbrev IsIntact : Folder → Manifest → Text → Type 0
  IsIntact folder m name =
      (contents : Bytes) × (d : ArtifactDigest) × (folder name ≡ some contents)
      × (digest_of name m.artifacts ≡ some d)
      × (env.sha256 contents ≡ d.sha256)

  check_artifacts_lem :
      (folder : Folder) (m : Manifest) (name : Text) (names : List Text) (total_size last : ℕ)
      → check_artifacts env folder m (name ∷ names) total_size ≡ ok last
      → IsIntact folder m name × ((size : ℕ) × (check_artifacts env folder m names size ≡ ok last))
  unfolding check_artifacts
  check_artifacts_lem folder m name names total_size last h =
      let (d, listed, h1) = >>=-eq-ok (ok_or (digest_of name m.artifacts) integrity_error) _ h in
      let (contents, there, h2) = >>=-eq-ok (ok_or (folder name) integrity_error) _ h1 in
      let (right, h3) =
        passed (length contents == d.size_bytes && text_eq (env.sha256 contents) d.sha256)
          integrity_error
          (check_artifacts env folder m names (saturating_add total_size (length contents))) h2 in
      (
        (
          contents,
          d,
          ok_or-eq-ok (folder name) integrity_error there,
          ok_or-eq-ok (digest_of name m.artifacts) integrity_error listed,
          ground (arith, text_eq_iff (env.sha256 contents) d.sha256),
        ),
        (saturating_add total_size (length contents), h3),
      )

  compatible-same :
      (store : SnapshotStore) (expected m : Manifest)
      → is_compatible env store expected m ≡ true
      → same_manifest m expected ≡ true
  unfolding is_compatible
  compatible-same store expected m right = ground arith

  -- What a successful verification has found.
  verified_manifest_lem :
      (store : SnapshotStore) (folder : Folder) (expected m : Manifest)
      → verified_manifest env store folder expected ≡ ok m
      → (m ≡ expected)
        × ((size : ℕ) × (check_artifacts env folder m artifact_names 0 ≡ ok size))
        × (token : Bytes) × (folder token_name ≡ some token)
        × (env.sha256 token ≡ m.restore_token_sha256)
  unfolding verified_manifest
  verified_manifest_lem store folder expected m h =
      let (contents, there, h1) = >>=-eq-ok (ok_or (folder manifest_name) integrity_error) _ h in
      let (found, read, h2) = >>=-eq-ok (ok_or (env.from_json contents) integrity_error) _ h1 in
      let (right, h3) = passed _ integrity_error _ h2 in
      let (size, checked, h4) =
        >>=-eq-ok (check_artifacts env folder found artifact_names 0) _ h3 in
      let (summed, h5) = passed _ integrity_error _ h4 in
      let (token, kept, h6) = >>=-eq-ok (ok_or (folder token_name) integrity_error) _ h5 in
      let (same_token, h7) = passed _ integrity_error _ h6 in
      let same : found ≡ m = same_answer h7 refl refl in
      let exactly : found ≡ expected =
        (same_manifest_iff found expected).0 (compatible-same store expected found right) in
      (
        sym same ∙ exactly,
        (size, subst (λ x. check_artifacts env folder x artifact_names 0 ≡ ok size) same checked),
        token,
        ok_or-eq-ok (folder token_name) integrity_error kept,
        (text_eq_iff (env.sha256 token) found.restore_token_sha256).0 same_token
            ∙ ap (λ x. x.restore_token_sha256) same,
      )

  -- Two byte strings that SHA-256 does not tell apart.
  abbrev pub Collision : Type 0
  Collision = (a : Bytes) × (b : Bytes) × (a ≢ b) × (env.sha256 a ≡ env.sha256 b)

  told_apart : (a b : Bytes) → env.sha256 a ≡ env.sha256 b → (a ≡ b) ⊎ Collision
  told_apart a b hash = elim (Bool-cases (text_eq a b)) [
    | inl same ↦ inl ((text_eq_iff a b).0 same)
    | inr differ ↦ inr (a, b, λ e. ground (arith, text_eq_iff a b), hash)
  ]

  intact-same :
      (folder changed : Folder) (m : Manifest) (name : Text)
      → IsIntact folder m name
      → IsIntact changed m name
      → (folder name ≡ changed name) ⊎ Collision
  intact-same folder changed m name (contents, d, there, listed, hash)
        (contents2, d2, there2, listed2, hash2) =
      let one : d ≡ d2 = ground arith in
      elim (told_apart contents contents2 (hash ∙ ap (λ x. x.sha256) one ∙ sym hash2)) [
        | inl equal ↦ inl (there ∙ ap some equal ∙ sym there2)
        | inr collision ↦ inr collision
      ]

  found-IsIntact :
      (store : SnapshotStore) (folder : Folder) (m : Manifest)
      → (verify env store folder m).valid ≡ true
      → IsIntact folder m vmstate_name
        × IsIntact folder m memory_name
        × IsIntact folder m rootfs_name
        × (token : Bytes) × (folder token_name ≡ some token)
        × (env.sha256 token ≡ m.restore_token_sha256)
  unfolding verify
  found-IsIntact store folder m valid = elim (Result-cases (verified_manifest env store folder m)) [
    | inr (e, failure) ↦ absurd (ground arith)
    | inl (found, success) ↦
        let (same, (size, checked), token, kept, hash) =
          verified_manifest_lem store folder m found success in
        let (a, (_, h1)) = check_artifacts_lem folder found vmstate_name _ 0 size checked in
        let (b, (_, h2)) = check_artifacts_lem folder found memory_name _ _ size h1 in
        let (c, _) = check_artifacts_lem folder found rootfs_name _ _ size h2 in
        (
          subst (λ x. IsIntact folder x vmstate_name) same a,
          subst (λ x. IsIntact folder x memory_name) same b,
          subst (λ x. IsIntact folder x rootfs_name) same c,
          token,
          kept,
          hash ∙ ap (λ x. x.restore_token_sha256) same,
        )
  ]

  -- Two folders in which the same artifact is found valid, as before and after a change, hold the same
  -- three files of the machine and the same restore token, or two different byte strings can be named
  -- that have the same SHA-256. So whoever changes one of them unnoticed has found a collision.
  pub verify-IsTamperProof :
      (store : SnapshotStore) (folder changed : Folder) (m : Manifest)
      → (verify env store folder m).valid ≡ true
      → (verify env store changed m).valid ≡ true
      → SameArtifact folder changed ⊎ Collision
  verify-IsTamperProof store folder changed m valid valid_still =
      let (a, b, c, token, kept, hash) = found-IsIntact store folder m valid in
      let (a2, b2, c2, token2, kept2, hash2) = found-IsIntact store changed m valid_still in
      elim (intact-same folder changed m vmstate_name a a2) [
        | inr x ↦ inr x
        | inl vmstate ↦ elim (intact-same folder changed m memory_name b b2) [
          | inr x ↦ inr x
          | inl memory ↦ elim (intact-same folder changed m rootfs_name c c2) [
            | inr x ↦ inr x
            | inl rootfs ↦ elim (told_apart token token2 (hash ∙ sym hash2)) [
              | inr x ↦ inr x
              | inl one ↦ inl (vmstate, memory, rootfs, kept ∙ ap some one ∙ sym kept2)
            ]
          ]
        ]
      ]
