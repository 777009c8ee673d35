-- ===== src/Guest/Files/Chunks.antt =====
-- The chunks of a file in crates/ferrobox-guest/src/service.rs, put together.
use ferrobox.Prelude.{
  drop_add, ℕ, zero, suc, ◌+◌, ◌-◌, ◌%◌, ◌^◌, ◌≤◌, ◌<◌, min, ◌≡◌, refl, sym, ap, ◌∙◌, inl, inr,
  true, false, ◌||◌, List, [], ◌∷◌, ◌++◌, arith, ltb, leb, ◌==◌, Bool-cases, length, is_empty,
  is_empty-eq-false_iff, take, drop, length-take, length-drop, drop_add, take_of_length-le, Bytes,
  ok,
}
use mathlib.Core.List.{append-nil}
use ferrobox.Guest.Files.{file_chunk_bytes, FileChunk, read_rounds, read_chunks}

abbrev pub joined : List FileChunk → Bytes
joined [] = []
joined (c ∷ chunks) = c.chunk ++ joined chunks

joined-nothing : (chunks : List FileChunk) → is_empty chunks ≡ true → joined chunks ≡ []
joined-nothing [] h = refl
joined-nothing (c ∷ chunks) h = ground arith

take_in_two :
    {A : Type 0} (k r : ℕ) (xs : List A)
    → k ≤ r
    → take k xs ++ take (r - length (take k xs)) (drop (length (take k xs)) xs) ≡ take r xs
take_in_two zero r xs h = ap (λ n. take n xs) (omega arith)
take_in_two (suc k) zero xs h = absurd (omega arith)
take_in_two (suc k) (suc r) [] h = ground arith
take_in_two (suc k) (suc r) (x ∷ xs) h =
    let e : suc r - suc (length (take k xs)) ≡ r - length (take k xs) = omega arith in
    ap (λ t. x ∷ t)
      (ap (λ n. take k xs ++ take n (drop (length (take k xs)) xs)) e
        ∙ take_in_two k r xs (omega arith))

whole_rest : (k r : ℕ) (rest : Bytes) → k ≤ r → length rest ≤ k → take k rest ≡ take r rest
whole_rest k r rest h fits =
    take_of_length-le k rest fits ∙ sym (take_of_length-le r rest (omega arith))

module _ (contents : Bytes) (offset maximum : ℕ) (small : offset + maximum < 2 ^ 64) where
  joined-read_rounds :
      (fuel remaining : ℕ)
      → remaining ≤ maximum
      → remaining < fuel
      → joined (read_rounds fuel contents offset maximum remaining)
        ≡ take remaining (drop (offset + (maximum - remaining)) contents)
  unfolding read_rounds
  joined-read_rounds zero remaining within enough = absurd (omega arith)
  joined-read_rounds (suc fuel) remaining within enough =
      let position = offset + (maximum - remaining) in
      let found = take (min remaining file_chunk_bytes) (drop position contents) in
      let left = remaining - length found in
      let size = length-take (min remaining file_chunk_bytes) (drop position contents) in
      let rest = length-drop position contents in
      let wrap : (offset + (maximum - left)) % 2 ^ 64 ≡ position + length found =
        omega (arith, size) in
      elim (Bool-cases (remaining == 0)) [
        | inl done ↦
            let nothing : remaining ≡ zero = ground arith in
            rw done (sym (ap (λ n. take n (drop position contents)) nothing))
        | inr more ↦
            elim (Bool-cases (is_empty found || leb (length contents) (position + length found))) [
              | inl last ↦
                  let ends : length (drop position contents) ≤ min remaining file_chunk_bytes =
                    ground (arith, size, rest, is_empty-eq-false_iff found) in
                  rw (more, wrap, last)
                    (append-nil found
                      ∙ whole_rest (min remaining file_chunk_bytes) remaining
                          (drop position contents) (omega arith) ends)
              | inr further ↦
                  let some_found : 1 ≤ length found = ground (arith, is_empty-eq-false_iff found) in
                  let later =
                    joined-read_rounds fuel left (omega arith) (omega (arith, some_found)) in
                  let next : offset + (maximum - left) ≡ position + length found =
                    omega (arith, size) in
                  let onward =
                    ap (λ n. take left (drop n contents)) next
                    ∙ ap (take left) (drop_add position (length found) contents) in
                  rw (more, wrap, further)
                    (ap (λ t. found ++ t) (later ∙ onward)
                      ∙ take_in_two (min remaining file_chunk_bytes) remaining
                          (drop position contents) (omega arith))
            ]
      ]

-- The chunks that the guest streams for a file, put together, are exactly the bytes of the file from
-- the offset on, up to the smaller of the request's and the guest's maximum, where the offset is one
-- that a seek takes and the end of the range stays below 2^64. There is always at least one chunk.
pub read_chunks_lem :
    (max_file_bytes : ℕ) (contents : Bytes) (offset max_bytes : ℕ)
    → offset < 2 ^ 63
    → offset + min max_bytes max_file_bytes < 2 ^ 64
    → (chunks : List FileChunk) × (read_chunks max_file_bytes contents offset max_bytes ≡ ok chunks)
      × (joined chunks ≡ take (min max_bytes max_file_bytes) (drop offset contents))
      × (1 ≤ length chunks)
unfolding read_chunks
read_chunks_lem max_file_bytes contents offset max_bytes seeks small =
    let maximum = min max_bytes max_file_bytes in
    let chunks = read_rounds (suc maximum) contents offset maximum maximum in
    let whole =
      joined-read_rounds contents offset maximum small (suc maximum) maximum (omega arith)
        (omega arith) in
    let start : offset + (maximum - maximum) ≡ offset = omega arith in
    let all_read = whole ∙ ap (λ n. take maximum (drop n contents)) start in
    let seek : ltb (2 ^ 63 - 1) offset ≡ false = ground arith in
    elim (Bool-cases (is_empty chunks)) [
      | inl nothing ↦
          let none_joined : joined chunks ≡ [] = joined-nothing chunks nothing in
          (
            record { chunk = []; eof = true } ∷ [],
            rw (seek, nothing) refl,
            sym none_joined ∙ all_read,
            omega arith,
          )
      | inr found ↦
          (chunks, rw (seek, found) refl, all_read, (is_empty-eq-false_iff chunks).0 found)
    ]
