-- ===== src/Guest/Tests.antt =====
-- Runs of the guest agent's definitions, and its theorems at concrete inputs.
use ferrobox.Guest.Session.{
  GuestState, configure_pids_limit, failed_precondition, InitState, InitRequest, Machine,
  is_invalid_init, init, install, authorized, configure_guest_network,
}
use ferrobox.Prelude.{
  ◌++◌, ◌+◌, ◌*◌, ◌≤◌, ◌≡◌, refl, ◌≢◌, ◌↔◌, true, false, not, none, some, List, [], ◌∷◌, arith,
  length, is_empty, is_ok, Text, Bytes, codes, bytes, ok, err,
}
use ferrobox.Guest.Output.{
  Turn, count, forward, stdout, stderr, take_turns, fresh_readers, buffer_bytes, count_chunk,
  forward_chunk,
}
use ferrobox.Guest.Output.Contents.{read_by}
use ferrobox.Guest.Output.Accounting.{total, take_turns-IsBounded}
use ferrobox.Guest.Files.{FileChunk, read_chunks, read_rounds}
use ferrobox.Guest.Files.Chunks.{joined, read_chunks_lem}
use ferrobox.Guest.Session.Identity.{
  GuestCall, init_call, rekey_call, serve_all, HasIdentity, strangers_change_nothing, init_lem,
  token-IsAccepted,
}

-- Both tasks count before either sends, with a limit of three bytes.
abbrev race : List Turn
race = count stdout (1 ∷ 2 ∷ []) ∷ count stderr (3 ∷ 4 ∷ []) ∷ forward stderr ∷ forward stdout ∷ []

race_events :
    (take_turns 3 race fresh_readers).progress.events ≡ (stderr, 3 ∷ []) ∷ (stdout, 1 ∷ 2 ∷ []) ∷ []
unfolding count_chunk forward_chunk
race_events = refl

take_turns-IsBounded_example :
    (total (take_turns 3 race fresh_readers).progress.events ≤ 3)
    × ((take_turns 3 race fresh_readers).progress.used ≤ 3 + 2 * buffer_bytes)
take_turns-IsBounded_example = take_turns-IsBounded 3 race (omega arith)

-- What the second task had read, of which it sent one byte.
stderr_read : read_by 3 stderr race fresh_readers ≡ 3 ∷ 4 ∷ []
unfolding count_chunk forward_chunk
stderr_read = refl

-- A digest is the text itself, and every command of the system succeeds.
abbrev machine : Machine
machine = record {
  sha256 = λ token. token;
  is_ipv4 = λ text. not (is_empty text);
  makes_cgroup = true;
  writes_pids_max = λ maximum. true;
  run_guest_command = λ names. ok tt;
  write_resolv_conf = λ dns. ok tt;
}

abbrev secret : Text
secret = codes "0123456789abcdef0123456789abcdef"

abbrev request : InitRequest
request = record {
  sandbox_id = codes "x";
  token = secret;
  command_uid = 1000;
  command_gid = 1000;
  max_file_bytes = 64;
  max_processes = 8;
  guest_ipv4 = [];
  guest_prefix_length = 0;
  gateway_ipv4 = [];
  dns_ipv4 = [];
}

abbrev state : InitState
state = record {
  sandbox_id = codes "x";
  token_digest = bytes secret;
  uid = 1000;
  gid = 1000;
  max_file_bytes = 64;
  guest_cgroup_available = true;
}

request_valid : is_invalid_init request ≡ false
unfolding is_invalid_init
request_valid = refl

abbrev empty_guest : GuestState
empty_guest = record { initialization = none; pids_max = none }

abbrev one_guest : GuestState
one_guest = record { initialization = some state; pids_max = some 8 }

installed : init machine request empty_guest ≡ (ok false, one_guest)
unfolding init is_invalid_init install configure_guest_network configure_pids_limit
installed = refl

-- A request that is refused has set the limit on processes.
refused_but_limited :
    init machine (record request { token = secret ++ secret; max_processes = 1 }) one_guest
    ≡ (err failed_precondition, record one_guest { pids_max = some 1 })
unfolding init is_invalid_init install configure_pids_limit
refused_but_limited = refl

init_lem_example :
    let (answer, after) = init machine request one_guest in
    ((answer ≡ ok true) ↔ HasIdentity machine state request)
    × ((answer ≡ err failed_precondition) ↔ (¬ (HasIdentity machine state request)))
    × (after ≡ one_guest)
init_lem_example = init_lem machine request state (some 8) request_valid refl refl

token-IsAccepted_example : is_ok (authorized machine (some secret) (some state)) ≡ true
token-IsAccepted_example = token-IsAccepted machine request empty_guest one_guest false installed

abbrev attempts : List GuestCall
attempts =
    init_call (record request { token = codes "z" })
    ∷ rekey_call none request
    ∷ rekey_call (some []) request
    ∷ []

empty_token_differs : bytes secret ≢ bytes []
empty_token_differs = λ e. ground arith

strangers_change_nothing_example :
    (serve_all machine attempts one_guest).initialization ≡ some state
strangers_change_nothing_example =
    strangers_change_nothing machine state attempts one_guest (tt, (tt, (empty_token_differs, tt)))
      refl

abbrev nine : Bytes
nine = 1 ∷ 2 ∷ 3 ∷ 4 ∷ 5 ∷ 6 ∷ 7 ∷ 8 ∷ 9 ∷ []

chunked : read_chunks 4 nine 2 64 ≡ ok (record { chunk = 3 ∷ 4 ∷ 5 ∷ 6 ∷ []; eof = false } ∷ [])
unfolding read_chunks read_rounds
chunked = refl

-- A request for no bytes is answered with the end-of-file mark, wherever it stands.
nothing_asked : read_chunks 4 nine 2 0 ≡ ok (record { chunk = []; eof = true } ∷ [])
unfolding read_chunks read_rounds
nothing_asked = refl

read_chunks_lem_example :
    (chunks : List FileChunk) × (read_chunks 4 nine 2 64 ≡ ok chunks)
    × (joined chunks ≡ 3 ∷ 4 ∷ 5 ∷ 6 ∷ [])
    × (1 ≤ length chunks)
read_chunks_lem_example = read_chunks_lem 4 nine 2 64 (omega arith) (omega arith)
