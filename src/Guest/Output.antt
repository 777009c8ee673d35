-- ===== src/Guest/Output.antt =====
-- `read_output` of crates/ferrobox-guest/src/service.rs: two tasks, one for each output of a process,
-- that count what they read in one shared counter. Each task is a state machine, and a schedule says
-- in which order their atomic steps happen.
pub mod Contents
pub mod Accounting
use ferrobox.Prelude.{
  ℕ, zero, suc, ◌+◌, ◌-◌, ◌*◌, ◌/◌, ◌%◌, ◌^◌, ◌≤◌, ◌<◌, min, ◌≡◌, refl, sym, ap, ◌∙◌, ◌≢◌, ◌↔◌, ◌⊎◌,
  inl, inr, Bool, true, false, not, ◌&&◌, ◌||◌, Option, none, some, List, [], ◌∷◌, ◌++◌, map, arith,
  ltb, leb, ◌==◌, in_range, if◌then◌else◌, ==_iff, ltb_iff, leb_iff, Bool-cases, Option-cases,
  length, is_empty, is_empty-eq-false_iff, all, any, get_elem?, get_or, take, drop, length-append,
  length-take, length-drop, take-append-drop, take_of_length-le, All, all_iff, any-eq-false_iff,
  all-append, any-append, Result, ◌>>=◌, ◌>>◌, reject_if, ok_or, map_err, is_ok, >>=-eq-ok,
  Result-cases, Text, Bytes, codes, utf8_char, bytes, byte_len, text_eq, text_eq_iff,
  is_ascii_alphanumeric, is_control, is_whitespace, trim_start_while, trim, strip_prefix,
  starts_with, push_front, split, to_ascii_lower, all-bytes, bytes_of_ascii, has_nul,
  has_nul-eq-false_iff, strip_prefix-append, strip_prefix-eq-some, Table, lookup, remove, insert,
  lookup-remove, lookup-insert, ok, err,
}

-- A task that waits for output, one that has added a chunk to the counter, which stood at a number
-- before, and one whose loop has ended.
pub data Reader : Type 0 where
  waiting stopped : Reader
  counted : ℕ → Bytes → Reader

pub data Stream : Type 0 where
  stdout stderr : Stream

-- What the two tasks share: `used`, `limit_hit`, whether the process was killed, the events that the
-- channel has taken, and whether someone still receives from it.
pub record Progress : Type 0 where
  pub used : ℕ
  pub limit_hit : Bool
  pub killed : Bool
  pub events : List (Stream × Bytes)
  pub connected : Bool

-- The length of `buffer`
abbrev pub buffer_bytes : ℕ
buffer_bytes = 16 * 1024

-- `stream.read` and `fetch_add`, with what the process has written to the pipe; nothing, and a failed
-- read, end the loop.
unfoldable pub count_chunk : Bytes → Reader → Progress → Reader × Progress
count_chunk written waiting c =
    let chunk = take buffer_bytes written in
    if is_empty chunk
    then (stopped, c)
    else (counted c.used chunk, record c { used = (c.used + length chunk) % 2 ^ 64 })
count_chunk written stopped c = (stopped, c)
count_chunk written (counted previous chunk) c = (counted previous chunk, c)

-- `limit_hit.store(true)` and `kill`
abbrev pub exceed : Progress → Progress
exceed c = record c { limit_hit = true; killed = true }

abbrev pub send : Stream → Bytes → Progress → Progress
send stream chunk c = record c { events = c.events ++ (stream, chunk) ∷ [] }

-- The rest of the loop's body.
unfoldable pub forward_chunk : ℕ → Stream → Reader → Progress → Reader × Progress
forward_chunk maximum stream waiting c = (waiting, c)
forward_chunk maximum stream stopped c = (stopped, c)
forward_chunk maximum stream (counted previous chunk) c =
    if leb maximum previous
    then (stopped, exceed c)
    else let allowed = min (maximum - previous) (length chunk) in
      let over = ltb allowed (length chunk) in
      let marked = if over then exceed c else c in
      if c.connected
      then (if over then stopped else waiting, send stream (take allowed chunk) marked)
      else (stopped, record marked { killed = true })

-- A step of one of the tasks, or the receiver's end.
pub data Turn : Type 0 where
  count : Stream → Bytes → Turn
  forward : Stream → Turn
  disconnect : Turn

pub record Readers : Type 0 where
  pub out : Reader
  pub errors : Reader
  pub progress : Progress

abbrev pub with_out : Readers → Reader × Progress → Readers
with_out s (r, c) = record { out = r; errors = s.errors; progress = c }

abbrev pub with_errors : Readers → Reader × Progress → Readers
with_errors s (r, c) = record { out = s.out; errors = r; progress = c }

abbrev pub take_turn : ℕ → Turn → Readers → Readers
take_turn maximum (count stdout written) s = with_out s (count_chunk written s.out s.progress)
take_turn maximum (count stderr written) s = with_errors s (count_chunk written s.errors s.progress)
take_turn maximum (forward stdout) s = with_out s (forward_chunk maximum stdout s.out s.progress)
take_turn maximum (forward stderr) s =
    with_errors s (forward_chunk maximum stderr s.errors s.progress)
take_turn maximum disconnect s = record s { progress = record s.progress { connected = false } }

abbrev pub take_turns : ℕ → List Turn → Readers → Readers
take_turns maximum [] s = s
take_turns maximum (t ∷ turns) s = take_turns maximum turns (take_turn maximum t s)

-- The two tasks at their start, with someone who receives.
abbrev pub fresh_readers : Readers
fresh_readers = record {
  out = waiting;
  errors = waiting;
  progress = record { used = 0; limit_hit = false; killed = false; events = []; connected = true };
}
