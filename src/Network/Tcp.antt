-- ===== src/Network/Tcp.antt =====
-- `relay_tcp_queries` of crates/ferrobox-node/src/network.rs: what a client has sent on its
-- connection, and what is written back, while it takes what is written and nothing times out.
pub mod Frames
use ferrobox.Prelude.{
  ℕ, zero, suc, ◌+◌, ◌-◌, ◌*◌, ◌/◌, ◌%◌, ◌^◌, ◌≤◌, ◌<◌, min, ◌≡◌, refl, sym, ap, ◌∙◌, ◌≢◌, ◌↔◌, ◌⊎◌,
  inl, inr, Bool, true, false, not, ◌&&◌, ◌||◌, Option, none, some, List, [], ◌∷◌, ◌++◌, map, arith,
  ltb, leb, ◌==◌, in_range, if◌then◌else◌, ==_iff, ltb_iff, leb_iff, Bool-cases, Option-cases,
  length, is_empty, is_empty-eq-false_iff, all, any, get_elem?, get_or, take, drop, length-append,
  length-take, length-drop, take-append-drop, take_of_length-le, All, all_iff, any-eq-false_iff,
  all-append, any-append, Result, ◌>>=◌, ◌>>◌, reject_if, ok_or, map_err, is_ok, >>=-eq-ok,
  Result-cases, Text, Bytes, codes, utf8_char, bytes, byte_len, text_eq, text_eq_iff,
  is_ascii_alphanumeric, is_control, is_whitespace, trim_start_while, trim, strip_prefix,
  starts_with, push_front, split, to_ascii_lower, all-bytes, bytes_of_ascii, has_nul,
  has_nul-eq-false_iff, strip_prefix-append, strip_prefix-eq-some, Table, lookup, remove, insert,
  lookup-remove, lookup-insert, ok, err,
}
use ferrobox.Network.Dns.{u16_of, is_dns_query, dns_servfail, relay_query}

-- `read_exact`: the bytes asked for and those that follow.
abbrev pub read_exact : ℕ → Bytes → Option (Bytes × Bytes)
read_exact n stream = if ltb (length stream) n then none else some (take n stream, drop n stream)

-- A message with its length in front, of 16 bits and the high byte first.
unfoldable pub frame : Bytes → Bytes
frame message = length message / 256 % 256 ∷ length message % 256 ∷ message

-- `relay_tcp_query`, with what the upstreams answer on a connection: a query that 16 bits cannot count
-- is given up.
unfoldable pub relay_tcp_query :
    {U : Type 0} → (U → Bytes → Option Bytes) → Bytes → List U → Option Bytes
relay_tcp_query ask_tcp query upstreams =
    if ltb 65535 (length query) then none else relay_query ask_tcp query upstreams

abbrev pub tcp_answer : {U : Type 0} → (U → Bytes → Option Bytes) → List U → Bytes → Bytes
tcp_answer ask_tcp upstreams query = elim (relay_tcp_query ask_tcp query upstreams) [
  | none ↦ dns_servfail query
  | some response ↦ response
]

-- A query at the front of a stream, if there is one, and what follows it.
unfoldable pub next_query : Bytes → Option (Bytes × Bytes)
next_query [] = none
next_query (high ∷ []) = none
next_query (high ∷ low ∷ stream) = elim (read_exact (u16_of high low) stream) [
  | none ↦ none
  | some (query, rest) ↦ if is_dns_query query then some (query, rest) else none
]

-- The loop; each round takes two bytes at least.
unfoldable pub relay_rounds : {U : Type 0} → (U → Bytes → Option Bytes) → List U → ℕ → Bytes → Bytes
relay_rounds ask_tcp upstreams zero stream = []
relay_rounds ask_tcp upstreams (suc fuel) stream = elim (next_query stream) [
  | none ↦ []
  | some (query, rest) ↦
      let response = tcp_answer ask_tcp upstreams query in
      let later = relay_rounds ask_tcp upstreams fuel rest in
      if ltb 65535 (length response) then [] else frame response ++ later
]

abbrev pub relay_tcp_queries : {U : Type 0} → (U → Bytes → Option Bytes) → List U → Bytes → Bytes
relay_tcp_queries ask_tcp upstreams stream =
    relay_rounds ask_tcp upstreams (suc (length stream)) stream
