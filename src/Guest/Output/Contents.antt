-- ===== src/Guest/Output/Contents.antt =====
-- What the two tasks of `read_output` in crates/ferrobox-guest/src/service.rs send of what they read.
use ferrobox.Guest.Output.{
  false, inl, inr, min, Reader, waiting, stopped, counted, Stream, stdout, stderr, Progress,
  Readers, Turn, count, forward, disconnect, buffer_bytes, count_chunk, forward_chunk, take_turn,
  take_turns, fresh_readers,
}
use mathlib.Core.List.{append_assoc, append-nil}
use ferrobox.Prelude.{
  Bool-cases, Bytes, List, [], ap, arith, drop, is_empty, leb, length, ltb, min, refl, suc, sym,
  take, take-append-drop, zero, ℕ, ◌++◌, ◌-◌, ◌∙◌, ◌∷◌, ◌≡◌, ◌≤◌,
}

-- The bytes sent of one of the streams.
abbrev pub sent : Stream → List (Stream × Bytes) → Bytes
sent stream [] = []
sent stdout ((stdout, chunk) ∷ events) = chunk ++ sent stdout events
sent stdout ((stderr, chunk) ∷ events) = sent stdout events
sent stderr ((stdout, chunk) ∷ events) = sent stderr events
sent stderr ((stderr, chunk) ∷ events) = chunk ++ sent stderr events

abbrev pub reader_of : Stream → Readers → Reader
reader_of stdout s = s.out
reader_of stderr s = s.errors

-- What a read gives, with what is in the pipe: a task reads only while it waits.
abbrev pub chunk_read : Bytes → Reader → Bytes
chunk_read written waiting = take buffer_bytes written
chunk_read written stopped = []
chunk_read written (counted previous chunk) = []

-- What a step reads of a stream.
abbrev pub turn_reads : Stream → Turn → Readers → Bytes
turn_reads stdout (count stdout written) s = chunk_read written s.out
turn_reads stderr (count stderr written) s = chunk_read written s.errors
turn_reads stream turn s = []

-- All that the task of a stream reads, in order.
abbrev pub read_by : ℕ → Stream → List Turn → Readers → Bytes
read_by maximum stream [] s = []
read_by maximum stream (t ∷ turns) s =
    turn_reads stream t s ++ read_by maximum stream turns (take_turn maximum t s)

abbrev pub IsPrefix : Bytes → Bytes → Type 0
IsPrefix xs ys = (rest : Bytes) × (ys ≡ xs ++ rest)

-- What was read and is not sent: nothing, the chunk that is held, or what was cut off.
abbrev Unsent : Reader → Bytes → Type 0
Unsent waiting rest = rest ≡ []
Unsent stopped rest = Unit
Unsent (counted previous chunk) rest = rest ≡ chunk

-- What was read of a stream so far is what was sent and what is not sent.
abbrev Told : Stream → Bytes → Reader → Progress → Type 0
Told stream so_far r c = (rest : Bytes) × (so_far ≡ sent stream c.events ++ rest) × Unsent r rest

abbrev other : Stream → Stream
other stdout = stderr
other stderr = stdout

sent-append :
    (stream : Stream) (xs ys : List (Stream × Bytes))
    → sent stream (xs ++ ys) ≡ sent stream xs ++ sent stream ys
sent-append stream [] ys = refl
sent-append stdout ((stdout, chunk) ∷ xs) ys =
    ap (λ t. chunk ++ t) (sent-append stdout xs ys)
    ∙ sym (append_assoc chunk (sent stdout xs) (sent stdout ys))
sent-append stdout ((stderr, chunk) ∷ xs) ys = sent-append stdout xs ys
sent-append stderr ((stdout, chunk) ∷ xs) ys = sent-append stderr xs ys
sent-append stderr ((stderr, chunk) ∷ xs) ys =
    ap (λ t. chunk ++ t) (sent-append stderr xs ys)
    ∙ sym (append_assoc chunk (sent stderr xs) (sent stderr ys))

sent_own : (stream : Stream) (chunk : Bytes) → sent stream ((stream, chunk) ∷ []) ≡ chunk
sent_own stdout chunk = append-nil chunk
sent_own stderr chunk = append-nil chunk

sent_else : (stream : Stream) (chunk : Bytes) → sent (other stream) ((stream, chunk) ∷ []) ≡ []
sent_else stdout chunk = refl
sent_else stderr chunk = refl

drop_all : (n : ℕ) (xs : Bytes) → length xs ≤ n → drop n xs ≡ []
drop_all zero [] h = refl
drop_all zero (x ∷ xs) h = absurd (omega arith)
drop_all (suc n) [] h = refl
drop_all (suc n) (x ∷ xs) h = drop_all n xs (omega arith)

-- Steps that leave what was sent of a stream.
Told-nil :
    (stream : Stream) (so_far : Bytes) (r : Reader) (c : Progress)
    → Told stream so_far r c
    → Told stream (so_far ++ []) r c
Told-nil stream so_far r c (rest, all, left) = (rest, append-nil so_far ∙ all, left)

Told-same :
    (stream : Stream) (so_far : Bytes) (r : Reader) (c c2 : Progress)
    → sent stream c2.events ≡ sent stream c.events
    → Told stream so_far r c
    → Told stream (so_far ++ []) r c2
Told-same stream so_far r c c2 same (rest, all, left) =
    (rest, append-nil so_far ∙ all ∙ ap (λ t. t ++ rest) (sym same), left)

count_chunk-Told :
    (stream : Stream) (written so_far : Bytes) (r : Reader) (c : Progress)
    → Told stream so_far r c
    → let (r', c') = count_chunk written r c in Told stream (so_far ++ chunk_read written r) r' c'
unfolding count_chunk
count_chunk-Told stream written so_far waiting c (rest, all, none_left) =
    let before : so_far ≡ sent stream c.events =
      all ∙ ap (λ t. sent stream c.events ++ t) none_left ∙ append-nil (sent stream c.events) in
    elim (Bool-cases (is_empty (take buffer_bytes written))) [
      | inl done ↦
          rw done (take buffer_bytes written, ap (λ t. t ++ take buffer_bytes written) before, tt)
      | inr more ↦
          rw more (take buffer_bytes written, ap (λ t. t ++ take buffer_bytes written) before, refl)
    ]
count_chunk-Told stream written so_far stopped c (rest, all, left) =
    (rest, append-nil so_far ∙ all, tt)
count_chunk-Told stream written so_far (counted previous chunk) c (rest, all, left) =
    (rest, append-nil so_far ∙ all, left)

count_chunk-sent :
    (stream : Stream) (written : Bytes) (r : Reader) (c : Progress)
    → sent stream (count_chunk written r c).1.events ≡ sent stream c.events
unfolding count_chunk
count_chunk-sent stream written waiting c =
    elim (Bool-cases (is_empty (take buffer_bytes written))) [
      | inl done ↦ rw done refl
      | inr more ↦ rw more refl
    ]
count_chunk-sent stream written stopped c = refl
count_chunk-sent stream written (counted previous chunk) c = refl

-- A chunk sent in part, and the rest of it.
sent-part :
    (stream : Stream) (events : List (Stream × Bytes)) (n : ℕ) (chunk so_far : Bytes)
    → so_far ≡ sent stream events ++ chunk
    → so_far ≡ sent stream (events ++ (stream, take n chunk) ∷ []) ++ drop n chunk
sent-part stream events n chunk so_far all =
    all
    ∙ ap (λ t. sent stream events ++ t) (sym (take-append-drop n chunk))
    ∙ sym (append_assoc (sent stream events) (take n chunk) (drop n chunk))
    ∙ ap (λ t. (sent stream events ++ t) ++ drop n chunk) (sym (sent_own stream (take n chunk)))
    ∙ ap (λ t. t ++ drop n chunk) (sym (sent-append stream events ((stream, take n chunk) ∷ [])))

forward_chunk-Told :
    (maximum : ℕ) (stream : Stream) (so_far : Bytes) (r : Reader) (c : Progress)
    → Told stream so_far r c
    → let (r', c') = forward_chunk maximum stream r c in Told stream so_far r' c'
unfolding forward_chunk
forward_chunk-Told maximum stream so_far waiting c h = h
forward_chunk-Told maximum stream so_far stopped c h = h
forward_chunk-Told maximum stream so_far (counted previous chunk) c (rest, all, left) =
    let n = min (maximum - previous) (length chunk) in
    let whole : so_far ≡ sent stream c.events ++ chunk =
      all ∙ ap (λ t. sent stream c.events ++ t) left in
    let split = sent-part stream c.events n chunk so_far whole in
    elim (Bool-cases (leb maximum previous)) [
      | inl full ↦ rw full (chunk, whole, tt)
      | inr room ↦ elim (Bool-cases c.connected) [
        | inr gone ↦ elim (Bool-cases (ltb n (length chunk))) [
          | inl cut ↦ rw (room, gone, cut) (chunk, whole, tt)
          | inr fits ↦ rw (room, gone, fits) (chunk, whole, tt)
        ]
        | inl on ↦ elim (Bool-cases (ltb n (length chunk))) [
          | inl cut ↦ rw (room, on, cut) (drop n chunk, split, tt)
          | inr fits ↦ rw (room, on, fits) (drop n chunk, split, drop_all n chunk (ground arith))
        ]
      ]
    ]

forward_chunk-sent :
    (maximum : ℕ) (stream : Stream) (r : Reader) (c : Progress)
    → sent (other stream) (forward_chunk maximum stream r c).1.events ≡ sent (other stream) c.events
unfolding forward_chunk
forward_chunk-sent maximum stream waiting c = refl
forward_chunk-sent maximum stream stopped c = refl
forward_chunk-sent maximum stream (counted previous chunk) c =
    let n = min (maximum - previous) (length chunk) in
    let same =
      sent-append (other stream) c.events ((stream, take n chunk) ∷ [])
      ∙ ap (λ t. sent (other stream) c.events ++ t) (sent_else stream (take n chunk))
      ∙ append-nil (sent (other stream) c.events) in
    elim (Bool-cases (leb maximum previous)) [
      | inl full ↦ rw full refl
      | inr room ↦ elim (Bool-cases c.connected) [
        | inr gone ↦ elim (Bool-cases (ltb n (length chunk))) [
          | inl cut ↦ rw (room, gone, cut) refl
          | inr fits ↦ rw (room, gone, fits) refl
        ]
        | inl on ↦ elim (Bool-cases (ltb n (length chunk))) [
          | inl cut ↦ rw (room, on, cut) same
          | inr fits ↦ rw (room, on, fits) same
        ]
      ]
    ]

-- The accounts of both streams.
abbrev Both : Bytes → Bytes → Readers → Type 0
Both a b s = Told stdout a s.out s.progress × Told stderr b s.errors s.progress

take_turn-Both :
    (maximum : ℕ) (t : Turn) (s : Readers) (a b : Bytes)
    → Both a b s
    → Both (a ++ turn_reads stdout t s) (b ++ turn_reads stderr t s) (take_turn maximum t s)
take_turn-Both maximum (count stdout written) s a b (h, k) =
    let c2 = (count_chunk written s.out s.progress).1 in
    (
      count_chunk-Told stdout written a s.out s.progress h,
      Told-same stderr b s.errors s.progress c2 (count_chunk-sent stderr written s.out s.progress)
          k,
    )
take_turn-Both maximum (count stderr written) s a b (h, k) =
    let c2 = (count_chunk written s.errors s.progress).1 in
    (
      Told-same stdout a s.out s.progress c2 (count_chunk-sent stdout written s.errors s.progress)
          h,
      count_chunk-Told stderr written b s.errors s.progress k,
    )
take_turn-Both maximum (forward stdout) s a b (h, k) =
    let (r2, c2) = forward_chunk maximum stdout s.out s.progress in
    (
      Told-nil stdout a r2 c2 (forward_chunk-Told maximum stdout a s.out s.progress h),
      Told-same stderr b s.errors s.progress c2 (forward_chunk-sent maximum stdout s.out s.progress)
          k,
    )
take_turn-Both maximum (forward stderr) s a b (h, k) =
    let (r2, c2) = forward_chunk maximum stderr s.errors s.progress in
    (
      Told-same stdout a s.out s.progress c2 (forward_chunk-sent maximum stderr s.errors s.progress)
          h,
      Told-nil stderr b r2 c2 (forward_chunk-Told maximum stderr b s.errors s.progress k),
    )
take_turn-Both maximum disconnect s a b (h, k) =
    let c2 = record s.progress { connected = false } in
    (Told-nil stdout a s.out c2 h, Told-nil stderr b s.errors c2 k)

take_turns-Both :
    (maximum : ℕ) (turns : List Turn) (s : Readers) (a b : Bytes)
    → Both a b s
    → Both
        (a ++ read_by maximum stdout turns s)
        (b ++ read_by maximum stderr turns s)
        (take_turns maximum turns s)
take_turns-Both maximum [] s a b (h, k) =
    (Told-nil stdout a s.out s.progress h, Told-nil stderr b s.errors s.progress k)
take_turns-Both maximum (t ∷ turns) s a b both =
    let next = take_turn maximum t s in
    let last = take_turns maximum turns next in
    let ((x, all, left), (y, all2, left2)) =
      take_turns-Both maximum turns next (a ++ turn_reads stdout t s) (b ++ turn_reads stderr t s)
        (take_turn-Both maximum t s a b both) in
    (
      (
        x,
        sym (append_assoc a (turn_reads stdout t s) (read_by maximum stdout turns next)) ∙ all,
        left,
      ),
      (
        y,
        sym (append_assoc b (turn_reads stderr t s) (read_by maximum stderr turns next)) ∙ all2,
        left2,
      ),
    )

pub sent-IsPrefix :
    (maximum : ℕ) (turns : List Turn)
    → let events = (take_turns maximum turns fresh_readers).progress.events in
      IsPrefix (sent stdout events) (read_by maximum stdout turns fresh_readers)
      × IsPrefix (sent stderr events) (read_by maximum stderr turns fresh_readers)
sent-IsPrefix maximum turns =
    let ((rest, all, left), (rest2, all2, left2)) =
      take_turns-Both maximum turns fresh_readers [] [] (([], refl, refl), ([], refl, refl)) in
    ((rest, all), (rest2, all2))
