-- ===== src/Core/Spec/Laws.antt =====
-- What the checks of crates/ferrobox-core/src/lib.rs accept, described without the checks.
use ferrobox.Prelude.{
  ap, all-bytes, bytes_of_ascii, is_empty-eq-false_iff, is_empty, ltb, byte_len, [], ◌∷◌, not, ◌||◌,
  ℕ, ◌≤◌, ◌≡◌, ◌↔◌, ◌⊎◌, true, false, arith, length, All,
}
use ferrobox.Core.Spec.{bytes, all, ok, Text, validate_spec, SandboxSpec, is_template_byte}

-- A letter, a digit, a hyphen or an underscore, of ASCII.
abbrev pub IsTemplateChar : ℕ → Type 0
IsTemplateChar c =
    ((b'0' ≤ c) × (c ≤ b'9'))
    ⊎ ((b'A' ≤ c) × (c ≤ b'Z'))
    ⊎ ((b'a' ≤ c) × (c ≤ b'z'))
    ⊎ (c ≡ b'-')
    ⊎ (c ≡ b'_')

pub record IsValidSpec (s : SandboxSpec) : Type 0 where
  pub named : 1 ≤ length s.template_id
  pub short : length s.template_id ≤ 64
  pub plain : All IsTemplateChar s.template_id
  pub cpu : (1 ≤ s.cpu_count) × (s.cpu_count ≤ 32)
  pub memory : (128 ≤ s.memory_mb) × (s.memory_mb ≤ 32768)
  pub timeout : (1 ≤ s.timeout_seconds) × (s.timeout_seconds ≤ 86400)

template_byte_high : (b : ℕ) → 128 ≤ b → is_template_byte b ≡ false
template_byte_high b h = ground arith

template_byte_iff : (b : ℕ) → (is_template_byte b ≡ true) ↔ IsTemplateChar b
template_byte_iff b = (λ h. ground arith, λ h. ground arith)

plain_iff : (t : Text) → (all is_template_byte t ≡ true) ↔ All IsTemplateChar t
plain_iff [] = ground arith
plain_iff (c ∷ t) = ground (arith, plain_iff t, template_byte_iff c)

-- The bytes of an accepted identifier are its characters.
bytes_of_template :
    (t : Text)
    → (all is_template_byte (bytes t) ≡ all is_template_byte t)
      × (all is_template_byte t ≡ true → bytes t ≡ t)
bytes_of_template t = (
  all-bytes is_template_byte template_byte_high t,
  bytes_of_ascii is_template_byte template_byte_high t,
)

-- The test of the template's name, described on its characters.
template_id_iff :
    (t : Text)
    → ((is_empty t || ltb 64 (byte_len t) || not (all is_template_byte (bytes t))) ≡ false)
      ↔ ((1 ≤ length t) × (length t ≤ 64) × All IsTemplateChar t)
template_id_iff t =
    let (same, ascii) = bytes_of_template t in
    let plain = plain_iff t in
    let filled = is_empty-eq-false_iff t in
    (
      λ h.
          let e : bytes t ≡ t = ascii (ground arith) in
          (ground (arith, filled), ground (arith, ap length e), plain.0 (ground arith)),
      λ v.
          let good = plain.1 v.2 in
          let e : bytes t ≡ t = ascii good in ground (arith, filled, ap length e, same, good),
    )

-- `validate` accepts a specification exactly if its template has 1 to 64 characters, each an ASCII
-- letter, digit, hyphen or underscore, and its CPU count, memory and timeout are in their ranges.
pub validate_spec_iff : (s : SandboxSpec) → (validate_spec s ≡ ok tt) ↔ IsValidSpec s
unfolding validate_spec
validate_spec_iff s =
    let (there, back) = template_id_iff s.template_id in
    (
      λ h.
          let (named, short, plain) = there (ground arith) in
          record {
            named = named;
            short = short;
            plain = plain;
            cpu = ground arith;
            memory = ground arith;
            timeout = ground arith;
          },
      λ v. let good = back (v.named, v.short, v.plain) in ground (arith, good),
    )
