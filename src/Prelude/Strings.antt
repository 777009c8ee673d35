-- ===== src/Prelude/Strings.antt =====
-- Text as the list of its code points, with the UTF-8 encoding that Rust's `len`, `bytes` and
-- `as_bytes` see, and the string operations of the standard library that the crates call.
use Prim.Native.Nat.{ℕ, ◌+◌, ◌≤◌, ◌/◌, ◌%◌}
use Prim.Native.Char.{code}
use Prim.Native.String.{String}
use mathlib.Core.Path.{◌≡◌, refl, ◌∙◌}
use mathlib.Core.Logic.{◌↔◌, ◌≢◌}
use mathlib.Core.Bool.{Bool, true, false, ◌&&◌, ◌||◌}
use mathlib.Core.Option.{Option, none, some}
use mathlib.Core.List.{List, [], ◌∷◌, ◌++◌, reverse}
use native.Mathlib.Omega.{arith}
use ferrobox.Prelude.Tests.{ltb, in_range, ◌==◌, if◌then◌else◌}
use ferrobox.Prelude.Lists.{length, all, all-append, any, any-append, All}

abbrev pub Text : Type 0
Text = List ℕ

abbrev pub Bytes : Type 0
Bytes = List ℕ

abbrev pub codes : String → Text
codes String.[] = []
codes (String.◌∷◌ c s) = code c ∷ codes s

-- The UTF-8 bytes of one code point.
abbrev pub utf8_char : ℕ → Bytes
utf8_char c =
    if ltb c 0x80
    then c ∷ []
    else if ltb c 0x800
    then (0xc0 + c / 64) ∷ (0x80 + c % 64) ∷ []
    else if ltb c 0x10000
    then (0xe0 + c / 4096) ∷ (0x80 + c / 64 % 64) ∷ (0x80 + c % 64) ∷ []
    else (0xf0 + c / 262144) ∷ (0x80 + c / 4096 % 64) ∷ (0x80 + c / 64 % 64) ∷ (0x80 + c % 64) ∷ []

abbrev pub bytes : Text → Bytes
bytes [] = []
bytes (c ∷ s) = utf8_char c ++ bytes s

-- `str::len`
abbrev pub byte_len : Text → ℕ
byte_len s = length (bytes s)

abbrev pub text_eq : Text → Text → Bool
text_eq [] [] = true
text_eq [] (d ∷ t) = false
text_eq (c ∷ s) [] = false
text_eq (c ∷ s) (d ∷ t) = c == d && text_eq s t

pub text_eq_iff : (s t : Text) → (text_eq s t ≡ true) ↔ (s ≡ t)
text_eq_iff [] [] = ground arith
text_eq_iff [] (d ∷ t) = ground arith
text_eq_iff (c ∷ s) [] = ground arith
text_eq_iff (c ∷ s) (d ∷ t) = ground (arith, text_eq_iff s t)

-- `u8::is_ascii_alphanumeric`
abbrev pub is_ascii_alphanumeric : ℕ → Bool
is_ascii_alphanumeric b = in_range b'0' b'9' b || in_range b'A' b'Z' b || in_range b'a' b'z' b

-- `char::is_control`: the general category Cc.
abbrev pub is_control : ℕ → Bool
is_control c = ltb c 0x20 || in_range 0x7f 0x9f c

-- `char::is_whitespace`: the Unicode property White_Space.
abbrev pub is_whitespace : ℕ → Bool
is_whitespace c =
    in_range 9 13 c
    || c == 0x20
    || c == 0x85
    || c == 0xa0
    || c == 0x1680
    || in_range 0x2000 0x200a c
    || in_range 0x2028 0x2029 c
    || c == 0x202f
    || c == 0x205f
    || c == 0x3000

abbrev pub trim_start_while : (ℕ → Bool) → Text → Text
trim_start_while p [] = []
trim_start_while p (c ∷ s) = let rest = trim_start_while p s in if p c then rest else c ∷ s

-- `str::trim`
abbrev pub trim : Text → Text
trim s = reverse (trim_start_while is_whitespace (reverse (trim_start_while is_whitespace s)))

-- `str::strip_prefix`
abbrev pub strip_prefix : Text → Text → Option Text
strip_prefix [] s = some s
strip_prefix (c ∷ p) [] = none
strip_prefix (c ∷ p) (d ∷ s) = let rest = strip_prefix p s in if c == d then rest else none

-- `str::starts_with`
abbrev pub starts_with : Text → Text → Bool
starts_with p s = elim (strip_prefix p s) [ none ↦ false | some _ ↦ true ]

-- `str::split` at a character: always at least one part.
abbrev pub push_front : ℕ → List Text → List Text
push_front c [] = (c ∷ []) ∷ []
push_front c (part ∷ parts) = (c ∷ part) ∷ parts

abbrev pub split : ℕ → Text → List Text
split sep [] = [] ∷ []
split sep (c ∷ s) = let parts = split sep s in if c == sep then [] ∷ parts else push_front c parts

-- `str::to_ascii_lowercase`
abbrev pub to_ascii_lower : Text → Text
to_ascii_lower [] = []
to_ascii_lower (c ∷ s) = (if in_range b'A' b'Z' c then c + 32 else c) ∷ to_ascii_lower s

-- A test that no byte above ASCII passes reads the same on the bytes and on the code points.
pub all-bytes :
    (p : ℕ → Bool) → ((b : ℕ) → 128 ≤ b → p b ≡ false) → (s : Text) → all p (bytes s) ≡ all p s
all-bytes p high [] = refl
all-bytes p high (c ∷ s) =
    all-append p (utf8_char c) (bytes s)
    ∙ ground (
      arith,
      all-bytes p high s,
      high c,
      high (0xc0 + c / 64),
      high (0xe0 + c / 4096),
      high (0xf0 + c / 262144),
    )

-- The encoding of a text whose bytes all pass such a test is the text itself.
pub bytes_of_ascii :
    (p : ℕ → Bool) → ((b : ℕ) → 128 ≤ b → p b ≡ false) → (s : Text) → all p s ≡ true → bytes s ≡ s
bytes_of_ascii p high [] h = refl
bytes_of_ascii p high (c ∷ s) h = ground (arith, bytes_of_ascii p high s, high c)

-- `as_bytes().contains(&0)`
abbrev pub has_nul : Text → Bool
has_nul s = any (λ b. b == 0) (bytes s)

-- Only the code point 0 has a zero byte in its encoding.
pub has_nul-eq-false_iff : (s : Text) → (has_nul s ≡ false) ↔ All (λ c. c ≢ 0) s
has_nul-eq-false_iff [] = ground arith
has_nul-eq-false_iff (c ∷ s) =
    ground (arith, any-append (λ b. b == 0) (utf8_char c) (bytes s), has_nul-eq-false_iff s)

pub strip_prefix-append : (p s : Text) → strip_prefix p (p ++ s) ≡ some s
strip_prefix-append [] s = refl
strip_prefix-append (c ∷ p) s = ground (arith, strip_prefix-append p s)

pub strip_prefix-eq-some : (p s r : Text) → strip_prefix p s ≡ some r → s ≡ p ++ r
strip_prefix-eq-some [] s r h = ground arith
strip_prefix-eq-some (c ∷ p) [] r h = cc
strip_prefix-eq-some (c ∷ p) (d ∷ s) r h = ground (arith, strip_prefix-eq-some p s r)
