-- ===== src/Network/Upstreams.antt =====
-- `host_dns_upstreams` and `ipv4_nameservers` of crates/ferrobox-node/src/network.rs. An address is
-- its number of 32 bits, and every upstream has the port of DNS. What `parse::<Ipv4Addr>` reads is a
-- parameter.
pub mod Choice
use ferrobox.Prelude.{
  ℕ, zero, suc, ◌+◌, ◌-◌, ◌*◌, ◌/◌, ◌%◌, ◌^◌, ◌≤◌, ◌<◌, min, ◌≡◌, refl, sym, ap, ◌∙◌, ◌≢◌, ◌↔◌, ◌⊎◌,
  inl, inr, Bool, true, false, not, ◌&&◌, ◌||◌, Option, none, some, List, [], ◌∷◌, ◌++◌, map, arith,
  ltb, leb, ◌==◌, in_range, if◌then◌else◌, ==_iff, ltb_iff, leb_iff, Bool-cases, Option-cases,
  length, is_empty, is_empty-eq-false_iff, all, any, get_elem?, get_or, take, drop, length-append,
  length-take, length-drop, take-append-drop, take_of_length-le, All, all_iff, any-eq-false_iff,
  all-append, any-append, Result, ◌>>=◌, ◌>>◌, reject_if, ok_or, map_err, is_ok, >>=-eq-ok,
  Result-cases, Text, Bytes, codes, utf8_char, bytes, byte_len, text_eq, text_eq_iff,
  is_ascii_alphanumeric, is_control, is_whitespace, trim_start_while, trim, strip_prefix,
  starts_with, push_front, split, to_ascii_lower, all-bytes, bytes_of_ascii, has_nul,
  has_nul-eq-false_iff, strip_prefix-append, strip_prefix-eq-some, Table, lookup, remove, insert,
  lookup-remove, lookup-insert, ok, err,
}

-- `split_whitespace`: the word at the front of a text, and the words that follow it.
abbrev pub add_word : Text → List Text → List Text
add_word word words = if is_empty word then words else word ∷ words

abbrev pub words_from : Text → Text × List Text
words_from [] = ([], [])
words_from (c ∷ s) =
    let (word, words) = words_from s in
    if is_whitespace c then ([], add_word word words) else (c ∷ word, words)

unfoldable pub split_whitespace : Text → List Text
split_whitespace s = let (word, words) = words_from s in add_word word words

abbrev pub keyword : Text
keyword = codes "nameserver"

-- `is_unspecified`, `is_multicast` and `BROADCAST`
unfoldable pub is_usable : ℕ → Bool
is_usable address =
    not (address == 0)
    && not (in_range (224 * 2 ^ 24) (240 * 2 ^ 24 - 1) address)
    && not (address == 2 ^ 32 - 1)

-- The address on a line, if the chain of filters lets it through.
unfoldable pub nameserver_on : (Text → Option ℕ) → Text → Option ℕ
nameserver_on parse line = elim (split_whitespace line) [
  | [] ↦ none
  | word ∷ rest ↦ if not (text_eq word keyword) then none else elim rest [
    | [] ↦ none
    | value ∷ more ↦ elim (parse value) [
      | none ↦ none
      | some address ↦ if is_usable address then some address else none
    ]
  ]
]

abbrev pub keep_some : {A B : Type 0} → (A → Option B) → List A → List B
keep_some f [] = []
keep_some f (x ∷ xs) = let rest = keep_some f xs in elim (f x) [ none ↦ rest | some y ↦ y ∷ rest ]

-- A line that ends with a carriage return has the same words without it.
unfoldable pub ipv4_nameservers : (Text → Option ℕ) → Text → List ℕ
ipv4_nameservers parse contents = keep_some (nameserver_on parse) (split b'\n' contents)

-- `contains` and `push`
abbrev pub add_upstream : List ℕ → ℕ → List ℕ
add_upstream upstreams address =
    if any (λ known. known == address) upstreams then upstreams else upstreams ++ address ∷ []

abbrev pub add_upstreams : List ℕ → List ℕ → List ℕ
add_upstreams upstreams [] = upstreams
add_upstreams upstreams (address ∷ addresses) =
    add_upstreams (add_upstream upstreams address) addresses

-- The loop over the files, of which one that cannot be read is passed over.
abbrev pub gather : (Text → Option ℕ) → List (Option Text) → List ℕ → List ℕ
gather parse [] upstreams = upstreams
gather parse (none ∷ files) upstreams = gather parse files upstreams
gather parse (some contents ∷ files) upstreams =
    gather parse files (add_upstreams upstreams (ipv4_nameservers parse contents))

-- 1.1.1.1
abbrev pub fallback : ℕ
fallback = 2 ^ 24 + 2 ^ 16 + 2 ^ 8 + 1

unfoldable pub host_dns_upstreams : (Text → Option ℕ) → List (Option Text) → List ℕ
host_dns_upstreams parse files = take 3 (add_upstream (gather parse files []) fallback)
