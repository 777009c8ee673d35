-- ===== src/Firecracker/Streams/Relay.antt =====
-- What the guest sends (crates/ferrobox-guest/src/service.rs) and what the runtime makes of it
-- (crates/ferrobox-node/src/firecracker_runtime.rs), together.
use mathlib.Core.List.{append-nil, append_assoc}
use ferrobox.Guest.Files.Chunks.{joined, read_chunks_lem}
use ferrobox.Guest.Files.{FileChunk, read_chunks}
use ferrobox.Core.Exec.{ExecResult, ReadFileResult}
use ferrobox.Core.Spec.{new_process_id}
use ferrobox.Guest.Output.Accounting.{take_turns-IsBounded, total}
use ferrobox.Firecracker.Host.{Code}
use ferrobox.Firecracker.Streams.{
  Collected, Event, ProcessEvent, ProcessExit, collect, exit_event, finish, gather, note_event,
  note_process, nothing_collected, result_of, stderr_event, stdout_event, termination_of,
}
use ferrobox.Prelude.{
  ℕ, ◌+◌, ◌*◌, ◌^◌, ◌≤◌, ◌<◌, min, ◌≡◌, refl, sym, Bool, false, some, List, [], ◌∷◌, ◌++◌, map,
  arith, length, is_empty, take, drop, length-append, Result, Text, Bytes, ok,
}
use ferrobox.Guest.Output.{Stream, Turn, buffer_bytes, fresh_readers, stderr, stdout, take_turns}

-- The bytes of one of the two outputs, in the order in which they were sent.
abbrev pub output_of : Stream → List (Stream × Bytes) → Bytes
output_of wanted [] = []
output_of stdout ((stdout, chunk) ∷ events) = chunk ++ output_of stdout events
output_of stdout ((stderr, chunk) ∷ events) = output_of stdout events
output_of stderr ((stdout, chunk) ∷ events) = output_of stderr events
output_of stderr ((stderr, chunk) ∷ events) = chunk ++ output_of stderr events

abbrev event_of : Stream → Bytes → Event
event_of stdout chunk = stdout_event chunk
event_of stderr chunk = stderr_event chunk

-- The messages of the guest: the outputs, then how the process ended.
abbrev pub sent : Text → List (Stream × Bytes) → ProcessExit → List (Result Code ProcessEvent)
sent process [] exit = ok (record { process_id = process; event = exit_event exit }) ∷ []
sent process ((stream, chunk) ∷ events) exit =
    ok (record { process_id = process; event = event_of stream chunk }) ∷ sent process events exit

length-output_of :
    (events : List (Stream × Bytes))
    → length (output_of stdout events) + length (output_of stderr events) ≡ total events
length-output_of [] = omega arith
length-output_of ((stdout, chunk) ∷ events) =
    omega (arith, length-output_of events, length-append chunk (output_of stdout events))
length-output_of ((stderr, chunk) ∷ events) =
    omega (arith, length-output_of events, length-append chunk (output_of stderr events))

module _ (process : Text) (exit : ProcessExit) (valid : new_process_id process ≡ ok process)
    (some_name : is_empty process ≡ false) where
  abbrev relayed : Bytes → Bytes → ExecResult
  relayed out errors = record {
    process_id = process;
    termination = termination_of exit;
    stdout = out;
    stderr = errors;
    truncation = record { stdout = exit.stdout_truncated; stderr = exit.stderr_truncated };
  }

  abbrev noted : Bytes → Bytes → Collected
  noted out errors = record nothing_collected {
    process_id = some process;
    stdout = out;
    stderr = errors;
  }

  collect-sent :
      (events : List (Stream × Bytes)) (out errors : Bytes)
      → collect (sent process events exit) (noted out errors)
        ≡ ok (record nothing_collected {
          process_id = some process;
          termination = some (termination_of exit);
          stdout = out ++ output_of stdout events;
          stderr = errors ++ output_of stderr events;
          truncation = record { stdout = exit.stdout_truncated; stderr = exit.stderr_truncated };
        })
  unfolding collect note_process note_event
  collect-sent [] out errors = rw (append-nil out, append-nil errors) refl
  collect-sent ((stdout, chunk) ∷ events) out errors =
      rw (sym (append_assoc out chunk (output_of stdout events)))
        (collect-sent events (out ++ chunk) errors)
  collect-sent ((stderr, chunk) ∷ events) out errors =
      rw (sym (append_assoc errors chunk (output_of stderr events)))
        (collect-sent events out (errors ++ chunk))

  note_first : note_process process nothing_collected ≡ ok (noted [] [])
  unfolding note_process
  note_first = rw (some_name, valid) refl

  relay_lem :
      (events : List (Stream × Bytes))
      → result_of (sent process events exit)
        ≡ ok (relayed (output_of stdout events) (output_of stderr events))
  unfolding result_of collect note_event finish
  relay_lem [] = rw (note_first, result_of) refl
  relay_lem ((stdout, chunk) ∷ events) =
      rw (note_first, collect-sent events chunk [], result_of) refl
  relay_lem ((stderr, chunk) ∷ events) =
      rw (note_first, collect-sent events [] chunk, result_of) refl

-- From a process in the guest to the answer of the runtime: in every order of the steps of the two
-- tasks of the guest that read its outputs, with the limit three buffers below 2^64, and with a
-- process identifier that the runtime takes, the runtime answers a result, never an error. It has the
-- identifier, the termination and the marks that the guest sent, each of its two outputs is the
-- chunks of that output in the order in which they were sent, and the two hold no more bytes than
-- the limit together.
pub relayed_output_lem :
    (maximum : ℕ) (turns : List Turn) (process : Text) (exit : ProcessExit)
    → maximum + 3 * buffer_bytes < 2 ^ 64
    → new_process_id process ≡ ok process
    → let events = (take_turns maximum turns fresh_readers).progress.events in
      (result : ExecResult) × (result_of (sent process events exit) ≡ ok result)
      × (result.process_id ≡ process)
      × (result.termination ≡ termination_of exit)
      × (result.truncation.stdout ≡ exit.stdout_truncated)
      × (result.truncation.stderr ≡ exit.stderr_truncated)
      × (result.stdout ≡ output_of stdout events)
      × (result.stderr ≡ output_of stderr events)
      × (length result.stdout + length result.stderr ≤ maximum)
unfolding new_process_id
relayed_output_lem maximum turns process exit small valid =
    let events = (take_turns maximum turns fresh_readers).progress.events in
    let named : is_empty process ≡ false = ground arith in
    let (bounded, _) = take_turns-IsBounded maximum turns small in
    (
      relayed process exit valid named (output_of stdout events) (output_of stderr events),
      relay_lem process exit valid named events,
      refl,
      refl,
      refl,
      refl,
      refl,
      refl,
      omega (arith, length-output_of events, bounded),
    )

-- The loop of `read`
gather-chunks :
    (chunks : List FileChunk) (r : ReadFileResult)
    → (last : Bool) × (gather (map ok chunks) r
        ≡ ok (record { contents = r.contents ++ joined chunks; eof = last }))
unfolding gather
gather-chunks [] r = (r.eof, rw (append-nil r.contents) refl)
gather-chunks (c ∷ chunks) r =
    let (last, rest) =
      gather-chunks chunks (record { contents = r.contents ++ c.chunk; eof = c.eof }) in
    (last, rw (sym (append_assoc r.contents c.chunk (joined chunks))) rest)

-- A read of a file through the runtime, from the file in the guest to the answer: for an offset that
-- a seek takes, where the end of the range stays below 2^64, the runtime answers exactly the bytes of
-- the file from the offset on, up to the smaller of the request's and the guest's maximum.
pub relayed_read_lem :
    (max_file_bytes : ℕ) (contents : Bytes) (offset max_bytes : ℕ)
    → offset < 2 ^ 63
    → offset + min max_bytes max_file_bytes < 2 ^ 64
    → (chunks : List FileChunk) × (read_chunks max_file_bytes contents offset max_bytes ≡ ok chunks)
      × (result : ReadFileResult) × (gather (map ok chunks) (record { contents = []; eof = false })
          ≡ ok result)
      × (result.contents ≡ take (min max_bytes max_file_bytes) (drop offset contents))
relayed_read_lem max_file_bytes contents offset max_bytes seeks small =
    let (chunks, streamed, whole, _) =
      read_chunks_lem max_file_bytes contents offset max_bytes seeks small in
    let (last, gathered) = gather-chunks chunks (record { contents = []; eof = false }) in
    (chunks, streamed, record { contents = joined chunks; eof = last }, gathered, whole)
