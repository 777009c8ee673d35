-- ===== src/Guest/Files.antt =====
-- `read_file` of crates/ferrobox-guest/src/service.rs, once the file is open: what it holds is read
-- from an offset and cut into the chunks of the stream. A read of the file gives as many bytes as are
-- asked for or are left.
pub mod Chunks
use ferrobox.Prelude.{
  ℕ, zero, suc, ◌+◌, ◌-◌, ◌*◌, ◌/◌, ◌%◌, ◌^◌, ◌≤◌, ◌<◌, min, ◌≡◌, refl, sym, ap, ◌∙◌, ◌≢◌, ◌↔◌, ◌⊎◌,
  inl, inr, Bool, true, false, not, ◌&&◌, ◌||◌, Option, none, some, List, [], ◌∷◌, ◌++◌, map, arith,
  ltb, leb, ◌==◌, in_range, if◌then◌else◌, ==_iff, ltb_iff, leb_iff, Bool-cases, Option-cases,
  length, is_empty, is_empty-eq-false_iff, all, any, get_elem?, get_or, take, drop, length-append,
  length-take, length-drop, take-append-drop, take_of_length-le, All, All-append, all_iff,
  any-eq-false_iff, all-append, any-append, Result, ◌>>=◌, ◌>>◌, reject_if, ok_or, map_err, is_ok,
  >>=-eq-ok, Result-cases, Text, Bytes, codes, utf8_char, bytes, byte_len, text_eq, text_eq_iff,
  is_ascii_alphanumeric, is_control, is_whitespace, trim_start_while, trim, strip_prefix,
  starts_with, push_front, split, to_ascii_lower, all-bytes, bytes_of_ascii, has_nul,
  has_nul-eq-false_iff, strip_prefix-append, strip_prefix-eq-some, Table, lookup, remove, insert,
  lookup-remove, lookup-insert, ok, err,
}
use ferrobox.Guest.Session.{Status, internal, resource_exhausted}

abbrev pub file_chunk_bytes : ℕ
file_chunk_bytes = 1024 * 1024

pub record FileChunk : Type 0 where
  pub chunk : Bytes
  pub eof : Bool

-- The loop, with what is left of the maximum; each round but the last takes a byte at least, so the
-- maximum and one more is fuel enough.
unfoldable pub read_rounds : ℕ → Bytes → ℕ → ℕ → ℕ → List FileChunk
read_rounds zero contents offset maximum remaining = []
read_rounds (suc fuel) contents offset maximum remaining =
    let position = offset + (maximum - remaining) in
    let found = take (min remaining file_chunk_bytes) (drop position contents) in
    let left = remaining - length found in
    let later = read_rounds fuel contents offset maximum left in
    let last = is_empty found || leb (length contents) ((offset + (maximum - left)) % 2 ^ 64) in
    if remaining == 0
    then []
    else if last
    then record { chunk = found; eof = true } ∷ []
    else record { chunk = found; eof = false } ∷ later

-- The stream; a seek wants an offset that a signed 64-bit integer holds.
unfoldable pub read_chunks : ℕ → Bytes → ℕ → ℕ → Result Status (List FileChunk)
read_chunks max_file_bytes contents offset max_bytes =
    let maximum = min max_bytes max_file_bytes in
    let chunks = read_rounds (suc maximum) contents offset maximum maximum in
    if ltb (2 ^ 63 - 1) offset
    then err internal
    else if is_empty chunks
    then ok (record { chunk = []; eof = true } ∷ [])
    else ok chunks
