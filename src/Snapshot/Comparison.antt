-- ===== src/Snapshot/Comparison.antt =====
-- The comparison of manifests in crates/ferrobox-node/src/snapshot.rs is exact.
use mathlib.Core.Path.{subst}
use ferrobox.Core.Spec.{NetworkMode, SandboxSpec}
use ferrobox.Core.State.{SandboxState}
use ferrobox.Snapshot.Store.{
  ArtifactDigest, Manifest, same_contents, same_digests, same_manifest, same_mode, same_name,
  same_origin, same_spec, state_code,
}
use ferrobox.Prelude.{
  ◌≡◌, refl, ◌↔◌, true, Option, none, some, List, [], ◌∷◌, arith, ◌==◌, Text, text_eq_iff,
}

same_name_iff : (a b : Option Text) → (same_name a b ≡ true) ↔ (a ≡ b)
unfolding same_name
same_name_iff none none = ground arith
same_name_iff none (some b) = ground arith
same_name_iff (some a) none = ground arith
same_name_iff (some a) (some b) = ground (arith, text_eq_iff a b)

same_state_iff : (a b : SandboxState) → ((state_code a == state_code b) ≡ true) ↔ (a ≡ b)
unfolding state_code
same_state_iff a b = ground arith

same_mode_iff : (a b : NetworkMode) → (same_mode a b ≡ true) ↔ (a ≡ b)
unfolding same_mode
same_mode_iff a b = ground arith

same_spec_iff : (a b : SandboxSpec) → (same_spec a b ≡ true) ↔ (a ≡ b)
unfolding same_spec
same_spec_iff a b =
    ground (arith, text_eq_iff a.template_id b.template_id, same_mode_iff a.network b.network)

same_digests_iff : (a b : List (Text × ArtifactDigest)) → (same_digests a b ≡ true) ↔ (a ≡ b)
unfolding same_digests
same_digests_iff [] [] = ground arith
same_digests_iff [] (b ∷ ys) = ground arith
same_digests_iff (a ∷ xs) [] = ground arith
same_digests_iff ((a, c) ∷ xs) ((b, d) ∷ ys) =
    ground (arith, text_eq_iff a b, text_eq_iff c.sha256 d.sha256, same_digests_iff xs ys)

same_origin_iff :
    (a b : Manifest)
    → (same_origin a b ≡ true) ↔ (
        (a.schema_version ≡ b.schema_version)
        × (a.snapshot_id ≡ b.snapshot_id)
        × (a.source_sandbox_id ≡ b.source_sandbox_id)
        × (a.name ≡ b.name)
        × (a.created_at_unix_ms ≡ b.created_at_unix_ms)
        × (a.source_state ≡ b.source_state)
        × (a.spec ≡ b.spec))
unfolding same_origin
same_origin_iff a b =
    let names = same_name_iff a.name b.name in
    let states = same_state_iff a.source_state b.source_state in
    let specs = same_spec_iff a.spec b.spec in
    (λ h. ground (arith, names, states, specs), λ h. ground (arith, names, states, specs))

same_contents_iff :
    (a b : Manifest)
    → (same_contents a b ≡ true) ↔ (
        (a.node_id ≡ b.node_id)
        × (a.architecture ≡ b.architecture)
        × (a.firecracker_version ≡ b.firecracker_version)
        × (a.kernel_sha256 ≡ b.kernel_sha256)
        × (a.artifacts ≡ b.artifacts)
        × (a.restore_token_sha256 ≡ b.restore_token_sha256)
        × (a.size_bytes ≡ b.size_bytes)
        × (a.digest_sha256 ≡ b.digest_sha256))
unfolding same_contents
same_contents_iff a b =
    let nodes = text_eq_iff a.node_id b.node_id in
    let machines = text_eq_iff a.architecture b.architecture in
    let versions = text_eq_iff a.firecracker_version b.firecracker_version in
    let kernels = text_eq_iff a.kernel_sha256 b.kernel_sha256 in
    let digests = same_digests_iff a.artifacts b.artifacts in
    let tokens = text_eq_iff a.restore_token_sha256 b.restore_token_sha256 in
    let own = text_eq_iff a.digest_sha256 b.digest_sha256 in
    (
      λ h. ground (arith, nodes, machines, versions, kernels, digests, tokens, own),
      λ h. ground (arith, nodes, machines, versions, kernels, digests, tokens, own),
    )

-- The derived comparison of manifests tells exactly the same ones.
pub same_manifest_iff : (a b : Manifest) → (same_manifest a b ≡ true) ↔ (a ≡ b)
unfolding same_manifest
same_manifest_iff a b = (
  λ h.
      let (p1, p2, p3, p4, p5, p6, p7) = (same_origin_iff a b).0 (ground arith) in
      let (q1, q2, q3, q4, q5, q6, q7, q8) = (same_contents_iff a b).0 (ground arith) in cc,
  λ same.
      let first = (same_origin_iff a a).1 (refl, refl, refl, refl, refl, refl, refl) in
      let second = (same_contents_iff a a).1 (refl, refl, refl, refl, refl, refl, refl, refl) in
      subst (λ x. same_manifest a x ≡ true) same (rw (first, second) refl),
)
