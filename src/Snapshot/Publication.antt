-- ===== src/Snapshot/Publication.antt =====
-- From staging to verification in crates/ferrobox-node/src/snapshot.rs.
use ferrobox.Snapshot.Comparison.{same_manifest_iff}
use ferrobox.Core.Error.{RuntimeError, unavailable}
use ferrobox.Snapshot.Store.{
  ArtifactDigest, Folder, Manifest, SnapshotStore, StageRequest, Surroundings, artifact_names,
  calculated_digest, check_artifacts, finalize_inner, is_compatible, manifest_name, measure,
  memory_name, put_file, restore_token, rootfs_name, saturating_add, stage_inner, token_name,
  verified_manifest, verify, vmstate_name,
}
use ferrobox.Prelude.{
  ℕ, ◌≡◌, refl, inl, inr, true, none, some, [], ◌∷◌, arith, ltb, ◌==◌, if◌then◌else◌, Bool-cases,
  length, Result, ◌>>=◌, Text, Bytes, bytes, text_eq, text_eq_iff, ok, err,
}

-- `stage` and then `finalize`
unfoldable pub publish :
    Surroundings → SnapshotStore → StageRequest → Result RuntimeError (Folder × Manifest)
publish env store request = do
  staged ← stage_inner env store request
  finalize_inner env staged.0 staged.1

same_text : (t : Text) → text_eq t t ≡ true
same_text t = ground (arith, text_eq_iff t t)

same_number : (n : ℕ) → (n == n) ≡ true
same_number n = ground arith

-- The digest of a file.
abbrev digest_for : Surroundings → Bytes → ArtifactDigest
digest_for env contents = record { size_bytes = length contents; sha256 = env.sha256 contents }

-- The manifest of a publication, before it is signed and after.
abbrev unsigned_manifest :
    Surroundings → SnapshotStore → StageRequest → Bytes → Bytes → Bytes → Manifest
unsigned_manifest env store request vmstate memory rootfs = record {
  schema_version = 1;
  snapshot_id = request.snapshot_id;
  source_sandbox_id = request.source_sandbox_id;
  name = request.name;
  created_at_unix_ms = env.unix_millis;
  source_state = request.source_state;
  spec = request.spec;
  node_id = store.node_id;
  architecture = env.architecture;
  firecracker_version = store.firecracker_version;
  kernel_sha256 = store.kernel_sha256;
  artifacts =
      (vmstate_name, digest_for env vmstate)
      ∷ (memory_name, digest_for env memory)
      ∷ (rootfs_name, digest_for env rootfs)
      ∷ [];
  restore_token_sha256 = env.sha256 (bytes request.restore_token);
  size_bytes =
      saturating_add (saturating_add (saturating_add 0 (length vmstate)) (length memory))
        (length rootfs);
  digest_sha256 = [];
}

abbrev pub signed_manifest :
    Surroundings → SnapshotStore → StageRequest → Bytes → Bytes → Bytes → Manifest
signed_manifest env store request vmstate memory rootfs =
    let m = unsigned_manifest env store request vmstate memory rootfs in
    record m { digest_sha256 = calculated_digest env m }

abbrev published_folder :
    Surroundings → SnapshotStore → StageRequest → Bytes → Bytes → Bytes → Folder
published_folder env store request vmstate memory rootfs =
    put_file manifest_name
      (env.to_pretty_json (signed_manifest env store request vmstate memory rootfs))
      (put_file token_name (bytes request.restore_token) (
        put_file rootfs_name rootfs
          (put_file memory_name memory (put_file vmstate_name vmstate (λ name. none)))))

module _ (env : Surroundings) (store : SnapshotStore) (request : StageRequest)
    (vmstate memory rootfs : Bytes)
    (reads_back : env.from_json
        (env.to_pretty_json (signed_manifest env store request vmstate memory rootfs))
      ≡ some (signed_manifest env store request vmstate memory rootfs)) where
  abbrev signed : Manifest
  signed = signed_manifest env store request vmstate memory rootfs

  abbrev final : Folder
  final = published_folder env store request vmstate memory rootfs

  signed-is_compatible : is_compatible env store signed signed ≡ true
  unfolding is_compatible calculated_digest
  signed-is_compatible =
      rw
        (
          (same_manifest_iff signed signed).1 refl,
          same_text env.architecture,
          same_text store.firecracker_version,
          same_text store.kernel_sha256,
          same_text (calculated_digest env signed),
        )
        refl

  final-check_artifacts : check_artifacts env final signed artifact_names 0 ≡ ok signed.size_bytes
  unfolding check_artifacts
  final-check_artifacts =
      rw
        (
          same_number (length vmstate),
          same_number (length memory),
          same_number (length rootfs),
          same_text (env.sha256 vmstate),
          same_text (env.sha256 memory),
          same_text (env.sha256 rootfs),
        )
        refl

  final-IsVerified : verified_manifest env store final signed ≡ ok signed
  unfolding verified_manifest
  final-IsVerified =
      rw
        (
          reads_back,
          signed-is_compatible,
          final-check_artifacts,
          same_number signed.size_bytes,
          same_text (env.sha256 (bytes request.restore_token)),
        )
        refl

-- A snapshot whose three files can be read is published, and what is published is found valid by the
-- same store, with its three artifacts checked, where the written form of its manifest reads back as
-- that manifest; and where the bytes of its restore token are read as text, that token is the one
-- that was staged if it has 32 bytes at least, and refused if it is shorter.
pub publish-verify :
    (env : Surroundings) (store : SnapshotStore) (request : StageRequest)
    (vmstate memory rootfs : Bytes)
    → env.from_json (env.to_pretty_json (signed_manifest env store request vmstate memory rootfs))
      ≡ some (signed_manifest env store request vmstate memory rootfs)
    → env.is_utf8 (bytes request.restore_token) ≡ true
    → request.vmstate ≡ some vmstate
    → request.memory ≡ some memory
    → request.rootfs ≡ some rootfs
    → (folder : Folder) × (m : Manifest) × (publish env store request ≡ ok (folder, m))
      × (verify env store folder m ≡ record {
        snapshot_id = request.snapshot_id;
        valid = true;
        checked_artifacts = 3;
        failure = none;
      })
      × (restore_token env folder m ≡ (
          if ltb (length (bytes request.restore_token)) 32
          then err unavailable
          else ok (bytes request.restore_token)))
unfolding publish stage_inner finalize_inner measure verify verified_manifest is_compatible
    check_artifacts calculated_digest restore_token
publish-verify env store request vmstate memory rootfs reads_back readable v m r = (
  published_folder env store request vmstate memory rootfs,
  signed_manifest env store request vmstate memory rootfs,
  rw (v, m, r) refl,
  rw (final-IsVerified env store request vmstate memory rootfs reads_back, verify) refl,
  elim (Bool-cases (ltb (length (bytes request.restore_token)) 32)) [
    | inl short ↦ rw (readable, short) refl
    | inr long ↦ rw (readable, long, same_text (env.sha256 (bytes request.restore_token))) refl
  ],
)
