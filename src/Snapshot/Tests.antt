-- ===== src/Snapshot/Tests.antt =====
-- Tests of the snapshot store, and the theorems about it at a concrete snapshot.
use ferrobox.Snapshot.Publication.{publish, publish-verify, signed_manifest}
use ferrobox.Core.State.{paused}
use ferrobox.Snapshot.Integrity.{Collision, SameArtifact, verify-IsTamperProof}
use ferrobox.Snapshot.Store.{
  Folder, Manifest, SnapshotStore, StageRequest, Surroundings, calculated_digest, check_artifacts,
  is_compatible, manifest_name, memory_name, put_file, restore_token, rootfs_name, same_contents,
  same_digests, same_manifest, same_mode, same_name, same_origin, same_spec, state_code, token_name,
  verified_manifest, verify, vmstate_name,
}
use ferrobox.Core.Spec.{SandboxSpec, disabled}
use ferrobox.Prelude.{◌⊎◌, ◌≡◌, refl, true, false, none, some, [], ◌∷◌, Text, codes, ok}

abbrev one_spec : SandboxSpec
one_spec = record {
  template_id = codes "python";
  cpu_count = 1;
  memory_mb = 512;
  timeout_seconds = 300;
  network = disabled;
}

abbrev long_token : Text
long_token = codes "0123456789abcdef0123456789abcdef"

abbrev one_request : StageRequest
one_request = record {
  snapshot_id = 7;
  source_sandbox_id = 3;
  name = none;
  source_state = paused;
  spec = one_spec;
  vmstate = some (1 ∷ []);
  memory = some (2 ∷ 3 ∷ []);
  rootfs = some (4 ∷ []);
  restore_token = long_token;
}

abbrev one_store : SnapshotStore
one_store = record {
  node_id = codes "node";
  firecracker_version = codes "1.0";
  kernel_sha256 = codes "k";
}

-- A digest that is the byte string itself, and a serialisation that the manifest is known of.
abbrev writing : Surroundings
writing = record {
  sha256 = λ b. b;
  is_utf8 = λ b. true;
  to_json = λ m. 123 ∷ [];
  to_pretty_json = λ m. 123 ∷ 125 ∷ [];
  from_json = λ b. none;
  architecture = codes "x86_64";
  unix_millis = 5;
}

abbrev one_manifest : Manifest
one_manifest = signed_manifest writing one_store one_request (1 ∷ []) (2 ∷ 3 ∷ []) (4 ∷ [])

abbrev around : Surroundings
around = record writing { from_json = λ b. some one_manifest }

abbrev one_folder : Folder
one_folder = put_file manifest_name (123 ∷ 125 ∷ []) (
    put_file token_name long_token (
      put_file rootfs_name (4 ∷ [])
        (put_file memory_name (2 ∷ 3 ∷ []) (put_file vmstate_name (1 ∷ []) (λ name. none)))))

-- The same machine with another file beside it.
abbrev other_folder : Folder
other_folder = put_file (codes "notes") (9 ∷ []) one_folder

one_valid : (verify around one_store one_folder one_manifest).valid ≡ true
unfolding verify verified_manifest is_compatible check_artifacts calculated_digest same_manifest
    same_origin same_contents same_name state_code same_spec same_mode same_digests
one_valid = refl

other_valid : (verify around one_store other_folder one_manifest).valid ≡ true
unfolding verify verified_manifest is_compatible check_artifacts calculated_digest same_manifest
    same_origin same_contents same_name state_code same_spec same_mode same_digests
other_valid = refl

changed_memory :
    (verify around one_store (put_file memory_name (2 ∷ 4 ∷ []) one_folder) one_manifest).valid
    ≡ false
unfolding verify verified_manifest is_compatible check_artifacts calculated_digest same_manifest
    same_origin same_contents same_name state_code same_spec same_mode same_digests
changed_memory = refl

verify-IsTamperProof_example : SameArtifact one_folder other_folder ⊎ Collision around
verify-IsTamperProof_example =
    verify-IsTamperProof around one_store one_folder other_folder one_manifest one_valid other_valid

publish-verify_example :
    (final : Folder) × (m : Manifest) × (publish around one_store one_request ≡ ok (final, m))
    × (verify around one_store final m
        ≡ record { snapshot_id = 7; valid = true; checked_artifacts = 3; failure = none })
    × (restore_token around final m ≡ ok long_token)
unfolding calculated_digest
publish-verify_example =
    publish-verify around one_store one_request (1 ∷ []) (2 ∷ 3 ∷ []) (4 ∷ []) refl refl refl refl
      refl
