-- ===== src/Guest/Output/Accounting.antt =====
-- The shared output limit of `read_output` in crates/ferrobox-guest/src/service.rs.
use ferrobox.Guest.Output.Contents.{sent}
use ferrobox.Prelude.{
  ℕ, ◌+◌, ◌-◌, ◌*◌, ◌%◌, ◌^◌, ◌≤◌, ◌<◌, min, ◌≡◌, inl, inr, Bool, true, false, ◌||◌, List, [], ◌∷◌,
  ◌++◌, arith, ltb, if◌then◌else◌, Bool-cases, length, is_empty, is_empty-eq-false_iff, take,
  length-take, Bytes,
}
use ferrobox.Guest.Output.{
  Reader, waiting, stopped, counted, Stream, stdout, stderr, Progress, buffer_bytes, count_chunk,
  forward_chunk, Turn, count, forward, disconnect, Readers, take_turn, take_turns, fresh_readers,
}

-- The bytes in a list of events.
abbrev pub total : List (Stream × Bytes) → ℕ
total [] = 0
total ((stream, chunk) ∷ events) = length chunk + total events

total-append : (xs ys : List (Stream × Bytes)) → total (xs ++ ys) ≡ total xs + total ys
total-append [] ys = omega arith
total-append ((stream, chunk) ∷ xs) ys = omega (arith, total-append xs ys)

-- Of the chunk that a task has counted: the bytes that it may still send, whether it passes the limit,
-- and how far the task can have driven the counter over the limit.
abbrev pending : ℕ → Reader → ℕ
pending maximum waiting = 0
pending maximum stopped = 0
pending maximum (counted previous chunk) = min (maximum - previous) (length chunk)

abbrev over : ℕ → Reader → Bool
over maximum waiting = false
over maximum stopped = false
over maximum (counted previous chunk) = ltb maximum (previous + length chunk)

abbrev slack : ℕ → Reader → ℕ
slack maximum waiting = 0
slack maximum stopped = buffer_bytes
slack maximum (counted previous chunk) =
    if ltb maximum (previous + length chunk) then length chunk else 0

abbrev IsChunk : Reader → Type 0
IsChunk waiting = Unit
IsChunk stopped = Unit
IsChunk (counted previous chunk) = (0 < length chunk) × (length chunk ≤ buffer_bytes)

-- The account of one task, given the same numbers of the other.
abbrev Balanced : ℕ → ℕ → Bool → ℕ → Reader → Progress → Type 0
Balanced maximum other_pending other_over other_slack r c =
    (total c.events + pending maximum r + other_pending ≤ min c.used maximum)
    × (c.connected ≡ true → total c.events + pending maximum r + other_pending ≡ min c.used maximum)
    × (ltb maximum c.used ≡ c.limit_hit || over maximum r || other_over)
    × (c.used ≤ maximum + slack maximum r + other_slack)
    × IsChunk r

module _ (maximum other_pending : ℕ) (other_over : Bool) (other_slack : ℕ)
    (small : maximum + 3 * buffer_bytes < 2 ^ 64) (spare : other_slack ≤ buffer_bytes) where
  count_chunk-Balanced :
      (written : Bytes) (r : Reader) (c : Progress)
      → Balanced maximum other_pending other_over other_slack r c
      → let (r', c') = count_chunk written r c in
        Balanced maximum other_pending other_over other_slack r' c'
  unfolding count_chunk
  count_chunk-Balanced written waiting c (a, b, d, e, f) =
      let size = length-take buffer_bytes written in
      let wrap : (c.used + length (take buffer_bytes written)) % 2 ^ 64
          ≡ c.used + length (take buffer_bytes written) =
        omega (arith, size) in
      elim (Bool-cases (is_empty (take buffer_bytes written))) [
        | inl done ↦ rw done (a, b, d, omega arith, tt)
        | inr some_left ↦
            let positive = (is_empty-eq-false_iff (take buffer_bytes written)).0 some_left in
            rw (some_left, wrap)
              (
                omega arith,
                λ on. omega (arith, b on),
                ground arith,
                ground arith,
                (omega (arith, positive), omega (arith, size)),
              )
      ]
  count_chunk-Balanced written stopped c h = h
  count_chunk-Balanced written (counted previous chunk) c h = h

  forward_chunk-Balanced :
      (stream : Stream) (r : Reader) (c : Progress)
      → Balanced maximum other_pending other_over other_slack r c
      → let (r', c') = forward_chunk maximum stream r c in
        Balanced maximum other_pending other_over other_slack r' c'
  unfolding forward_chunk
  forward_chunk-Balanced stream waiting c h = h
  forward_chunk-Balanced stream stopped c h = h
  forward_chunk-Balanced stream (counted previous chunk) c (a, b, d, e, f) =
      let sent = length-take (min (maximum - previous) (length chunk)) chunk in
      let sum =
        total-append c.events
          ((stream, take (min (maximum - previous) (length chunk)) chunk) ∷ []) in
      (
        ground (arith, sent, sum),
        λ on. ground (arith, sent, sum, b),
        ground arith,
        ground arith,
        ground arith,
      )

-- The account of both tasks.
abbrev Accounts : ℕ → Readers → Type 0
Accounts maximum s =
    Balanced maximum (pending maximum s.errors) (over maximum s.errors) (slack maximum s.errors)
      s.out s.progress
    × IsChunk s.errors

swap_tasks :
    (maximum : ℕ) (r other : Reader) (c : Progress)
    → Balanced maximum (pending maximum other) (over maximum other) (slack maximum other) r c
    → IsChunk other
    → Balanced maximum (pending maximum r) (over maximum r) (slack maximum r) other c
swap_tasks maximum r other c (a, b, d, e, f) g =
    (omega arith, λ on. omega (arith, b on), ground arith, omega arith, g)

slack-le : (maximum : ℕ) (r : Reader) → IsChunk r → slack maximum r ≤ buffer_bytes
slack-le maximum waiting h = omega arith
slack-le maximum stopped h = omega arith
slack-le maximum (counted previous chunk) h = ground arith

take_turn-Accounts :
    (maximum : ℕ) (t : Turn) (s : Readers)
    → maximum + 3 * buffer_bytes < 2 ^ 64
    → Accounts maximum s
    → Accounts maximum (take_turn maximum t s)
take_turn-Accounts maximum (count stdout written) s small (h, g) = (
  count_chunk-Balanced maximum (pending maximum s.errors) (over maximum s.errors)
      (slack maximum s.errors) small (slack-le maximum s.errors g) written s.out s.progress h,
  g,
)
take_turn-Accounts maximum (forward stdout) s small (h, g) = (
  forward_chunk-Balanced maximum (pending maximum s.errors) (over maximum s.errors)
      (slack maximum s.errors) small (slack-le maximum s.errors g) stdout s.out s.progress h,
  g,
)
take_turn-Accounts maximum (count stderr written) s small (h, g) =
    let (r, c) = count_chunk written s.errors s.progress in
    let own = swap_tasks maximum s.out s.errors s.progress h g in
    let after =
      count_chunk-Balanced maximum (pending maximum s.out) (over maximum s.out)
        (slack maximum s.out) small (slack-le maximum s.out h.4) written s.errors s.progress own in
    (swap_tasks maximum r s.out c after h.4, after.4)
take_turn-Accounts maximum (forward stderr) s small (h, g) =
    let (r, c) = forward_chunk maximum stderr s.errors s.progress in
    let own = swap_tasks maximum s.out s.errors s.progress h g in
    let after =
      forward_chunk-Balanced maximum (pending maximum s.out) (over maximum s.out)
        (slack maximum s.out) small (slack-le maximum s.out h.4) stderr s.errors s.progress own in
    (swap_tasks maximum r s.out c after h.4, after.4)
take_turn-Accounts maximum disconnect s small ((a, b, d, e, f), g) =
    ((a, λ on. ground arith, d, e, f), g)

take_turns-Accounts :
    (maximum : ℕ) (turns : List Turn) (s : Readers)
    → maximum + 3 * buffer_bytes < 2 ^ 64
    → Accounts maximum s
    → Accounts maximum (take_turns maximum turns s)
take_turns-Accounts maximum [] s small h = h
take_turns-Accounts maximum (t ∷ turns) s small h =
    take_turns-Accounts maximum turns (take_turn maximum t s) small
      (take_turn-Accounts maximum t s small h)

-- No task holds a chunk that it has counted and not yet dealt with.
abbrev pub IsSettled : Reader → Type 0
IsSettled waiting = Unit
IsSettled stopped = Unit
IsSettled (counted previous chunk) = ⊥

finally :
    (maximum : ℕ) (turns : List Turn)
    → maximum + 3 * buffer_bytes < 2 ^ 64
    → Accounts maximum (take_turns maximum turns fresh_readers)
finally maximum turns small =
    take_turns-Accounts maximum turns fresh_readers small
      ((omega arith, λ on. omega arith, ground arith, omega arith, tt), tt)

-- In every order of the steps of the two tasks that read a process's standard output and standard
-- error, where the limit stays three buffers below 2^64, the bytes sent never pass the limit, and the
-- shared counter stays within two buffers of the limit, so that it never wraps.
pub take_turns-IsBounded :
    (maximum : ℕ) (turns : List Turn)
    → maximum + 3 * buffer_bytes < 2 ^ 64
    → let s = take_turns maximum turns fresh_readers in
      (total s.progress.events ≤ maximum) × (s.progress.used ≤ maximum + 2 * buffer_bytes)
take_turns-IsBounded maximum turns small =
    let s = take_turns maximum turns fresh_readers in
    let ((a, b, d, e, f), g) = finally maximum turns small in
    (omega arith, omega (arith, slack-le maximum s.out f, slack-le maximum s.errors g))
