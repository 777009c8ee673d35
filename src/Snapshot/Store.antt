-- ===== src/Snapshot/Store.antt =====
-- The artifacts of crates/ferrobox-node/src/snapshot.rs: staging, publication, verification and the
-- restore token. A folder gives the contents of the files in it; the modes of files and the flushes
-- to disk are left out. SHA-256 and the JSON form of a manifest are parameters.
use ferrobox.Core.State.{
  creating, running, pausing, paused, resuming, deleting, deleted, failed, SandboxState,
}
use ferrobox.Core.Spec.{NetworkMode, SandboxId, SandboxSpec, SnapshotId, disabled, internet}
use ferrobox.Core.Exec.{SnapshotVerification}
use ferrobox.Core.Error.{RuntimeError, internal, unavailable}
use ferrobox.Prelude.{
  ℕ, ◌+◌, ◌-◌, ◌^◌, min, Bool, true, false, not, ◌&&◌, Option, none, some, List, [], ◌∷◌, ◌++◌, ltb,
  ◌==◌, if◌then◌else◌, length, Result, ◌>>=◌, ◌>>◌, reject_if, ok_or, Text, Bytes, codes, bytes,
  text_eq, ok, err,
}

-- `ARTIFACT_NAMES` and the two other files
abbrev pub vmstate_name : Text
vmstate_name = codes "vmstate"

abbrev pub memory_name : Text
memory_name = codes "memory"

abbrev pub rootfs_name : Text
rootfs_name = codes "rootfs.ext4"

abbrev pub manifest_name : Text
manifest_name = codes "manifest.json"

abbrev pub token_name : Text
token_name = codes "restore-token"

abbrev pub artifact_names : List Text
artifact_names = vmstate_name ∷ memory_name ∷ rootfs_name ∷ []

abbrev pub schema_version : ℕ
schema_version = 1

pub record ArtifactDigest : Type 0 where
  pub size_bytes : ℕ
  pub sha256 : Text

-- `SnapshotManifest`; the map of digests has each name at most once.
pub record Manifest : Type 0 where
  pub schema_version : ℕ
  pub snapshot_id : SnapshotId
  pub source_sandbox_id : SandboxId
  pub name : Option Text
  pub created_at_unix_ms : ℕ
  pub source_state : SandboxState
  pub spec : SandboxSpec
  pub node_id : Text
  pub architecture : Text
  pub firecracker_version : Text
  pub kernel_sha256 : Text
  pub artifacts : List (Text × ArtifactDigest)
  pub restore_token_sha256 : Text
  pub size_bytes : ℕ
  pub digest_sha256 : Text

abbrev pub Folder : Type 0
Folder = Text → Option Bytes

abbrev pub put_file : Text → Bytes → Folder → Folder
put_file name contents folder other = if text_eq name other then some contents else folder other

-- `BTreeMap::get`
abbrev pub digest_of : Text → List (Text × ArtifactDigest) → Option ArtifactDigest
digest_of name [] = none
digest_of name ((other, digest) ∷ digests) =
    let rest = digest_of name digests in if text_eq other name then some digest else rest

-- `PartialEq`, as it is derived for the types of a manifest.
unfoldable pub same_name : Option Text → Option Text → Bool
same_name none none = true
same_name (some a) (some b) = text_eq a b
same_name _ _ = false

unfoldable pub state_code : SandboxState → ℕ
state_code creating = 0
state_code running = 1
state_code pausing = 2
state_code paused = 3
state_code resuming = 4
state_code deleting = 5
state_code deleted = 6
state_code failed = 7

unfoldable pub same_mode : NetworkMode → NetworkMode → Bool
same_mode disabled disabled = true
same_mode internet internet = true
same_mode _ _ = false

unfoldable pub same_spec : SandboxSpec → SandboxSpec → Bool
same_spec a b =
    text_eq a.template_id b.template_id
    && a.cpu_count == b.cpu_count
    && a.memory_mb == b.memory_mb
    && a.timeout_seconds == b.timeout_seconds
    && same_mode a.network b.network

unfoldable pub same_digests : List (Text × ArtifactDigest) → List (Text × ArtifactDigest) → Bool
same_digests [] [] = true
same_digests ((a, c) ∷ xs) ((b, d) ∷ ys) =
    let rest = same_digests xs ys in
    text_eq a b && c.size_bytes == d.size_bytes && text_eq c.sha256 d.sha256 && rest
same_digests _ _ = false

unfoldable pub same_origin : Manifest → Manifest → Bool
same_origin a b =
    a.schema_version == b.schema_version
    && a.snapshot_id == b.snapshot_id
    && a.source_sandbox_id == b.source_sandbox_id
    && same_name a.name b.name
    && a.created_at_unix_ms == b.created_at_unix_ms
    && state_code a.source_state == state_code b.source_state
    && same_spec a.spec b.spec

unfoldable pub same_contents : Manifest → Manifest → Bool
same_contents a b =
    text_eq a.node_id b.node_id
    && text_eq a.architecture b.architecture
    && text_eq a.firecracker_version b.firecracker_version
    && text_eq a.kernel_sha256 b.kernel_sha256
    && same_digests a.artifacts b.artifacts
    && text_eq a.restore_token_sha256 b.restore_token_sha256
    && a.size_bytes == b.size_bytes
    && text_eq a.digest_sha256 b.digest_sha256

unfoldable pub same_manifest : Manifest → Manifest → Bool
same_manifest a b = same_origin a b && same_contents a b

-- What is not code of the repository: the digest, serialisation, which succeeds, and the machine.
pub record Surroundings : Type 0 where
  pub sha256 : Bytes → Text
  pub is_utf8 : Bytes → Bool
  pub to_json : Manifest → Bytes
  pub to_pretty_json : Manifest → Bytes
  pub from_json : Bytes → Option Manifest
  pub architecture : Text
  pub unix_millis : ℕ

-- `SnapshotStore`, without the path of its root.
pub record SnapshotStore : Type 0 where
  pub node_id : Text
  pub firecracker_version : Text
  pub kernel_sha256 : Text

-- The request to stage, with the contents of the files that it names, where they can be read.
pub record StageRequest : Type 0 where
  pub snapshot_id : SnapshotId
  pub source_sandbox_id : SandboxId
  pub name : Option Text
  pub source_state : SandboxState
  pub spec : SandboxSpec
  pub vmstate : Option Bytes
  pub memory : Option Bytes
  pub rootfs : Option Bytes
  pub restore_token : Text

-- `saturating_add` of `u64`
abbrev pub saturating_add : ℕ → ℕ → ℕ
saturating_add a b = min (a + b) (2 ^ 64 - 1)

-- `integrity_error`
abbrev pub integrity_error : RuntimeError
integrity_error = unavailable

module _ (env : Surroundings) where
  -- `calculated_digest`
  unfoldable pub calculated_digest : Manifest → Text
  calculated_digest m = env.sha256 (env.to_json (record m { digest_sha256 = [] }))

  -- `stage_inner`: the folder and the manifest, as far as it is known yet.
  unfoldable pub stage_inner :
      SnapshotStore → StageRequest → Result RuntimeError (Folder × Manifest)
  stage_inner store request = do
    vmstate ← ok_or request.vmstate internal
    memory ← ok_or request.memory internal
    rootfs ← ok_or request.rootfs internal
    ok (
      put_file token_name (bytes request.restore_token) (
          put_file rootfs_name rootfs
            (put_file memory_name memory (put_file vmstate_name vmstate (λ name. none)))),
      record {
        schema_version = schema_version;
        snapshot_id = request.snapshot_id;
        source_sandbox_id = request.source_sandbox_id;
        name = request.name;
        created_at_unix_ms = env.unix_millis;
        source_state = request.source_state;
        spec = request.spec;
        node_id = store.node_id;
        architecture = env.architecture;
        firecracker_version = store.firecracker_version;
        kernel_sha256 = store.kernel_sha256;
        artifacts = [];
        restore_token_sha256 = env.sha256 (bytes request.restore_token);
        size_bytes = 0;
        digest_sha256 = [];
      },
    )

  -- The loop of `finalize_inner`
  unfoldable pub measure : Folder → List Text → Manifest → Result RuntimeError Manifest
  measure folder [] m = ok m
  measure folder (name ∷ names) m = do
    contents ← ok_or (folder name) internal
    measure folder names (record m {
      size_bytes = saturating_add m.size_bytes (length contents);
      artifacts =
          m.artifacts
          ++ (name, record { size_bytes = length contents; sha256 = env.sha256 contents }) ∷ [];
    })

  -- `finalize_inner`, whose last step gives the folder its final name.
  unfoldable pub finalize_inner : Folder → Manifest → Result RuntimeError (Folder × Manifest)
  finalize_inner folder staged = do
    measured ← measure folder artifact_names staged
    let signed = record measured { digest_sha256 = calculated_digest measured }
    ok (put_file manifest_name (env.to_pretty_json signed) folder, signed)

  -- The checks of `verified_manifest` on the manifest itself.
  unfoldable pub is_compatible : SnapshotStore → Manifest → Manifest → Bool
  is_compatible store expected m =
      m.schema_version == schema_version
      && same_manifest m expected
      && text_eq m.architecture env.architecture
      && text_eq m.firecracker_version store.firecracker_version
      && text_eq m.kernel_sha256 store.kernel_sha256
      && text_eq m.digest_sha256 (calculated_digest m)
      && length m.artifacts == length artifact_names

  -- The loop of `verified_manifest`, with the sizes so far.
  unfoldable pub check_artifacts : Folder → Manifest → List Text → ℕ → Result RuntimeError ℕ
  check_artifacts folder m [] total_size = ok total_size
  check_artifacts folder m (name ∷ names) total_size = do
    expected ← ok_or (digest_of name m.artifacts) integrity_error
    contents ← ok_or (folder name) integrity_error
    reject_if
        (not
          (length contents == expected.size_bytes && text_eq (env.sha256 contents) expected.sha256))
        integrity_error
    check_artifacts folder m names (saturating_add total_size (length contents))

  unfoldable pub verified_manifest :
      SnapshotStore → Folder → Manifest → Result RuntimeError Manifest
  verified_manifest store folder expected = do
    contents ← ok_or (folder manifest_name) integrity_error
    m ← ok_or (env.from_json contents) integrity_error
    reject_if (not (is_compatible store expected m)) integrity_error
    total_size ← check_artifacts folder m artifact_names 0
    reject_if (not (total_size == m.size_bytes)) integrity_error
    token ← ok_or (folder token_name) integrity_error
    reject_if (not (text_eq (env.sha256 token) m.restore_token_sha256)) integrity_error
    ok m

  -- `verify`
  unfoldable pub verify : SnapshotStore → Folder → Manifest → SnapshotVerification
  verify store folder m = elim (verified_manifest store folder m) [
    | ok _ ↦ record {
      snapshot_id = m.snapshot_id;
      valid = true;
      checked_artifacts = length artifact_names;
      failure = none;
    }
    | err e ↦ record {
      snapshot_id = m.snapshot_id;
      valid = false;
      checked_artifacts = 0;
      failure = some e;
    }
  ]

  -- `restore_token`, with the bytes of the token's text.
  unfoldable pub restore_token : Folder → Manifest → Result RuntimeError Bytes
  restore_token folder m = do
    token ← ok_or (folder token_name) integrity_error
    reject_if (not (env.is_utf8 token)) integrity_error
    reject_if (ltb (length token) 32) integrity_error
    reject_if (not (text_eq (env.sha256 token) m.restore_token_sha256)) integrity_error
    ok token
