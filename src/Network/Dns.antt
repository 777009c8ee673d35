-- ===== src/Network/Dns.antt =====
-- DNS messages and the relay of one query, in crates/ferrobox-node/src/network.rs. A byte is a number
-- below 256, and its bit 0x80 is the parity of its half that is above.
pub mod Answers
use ferrobox.Prelude.{
  ℕ, zero, suc, ◌+◌, ◌-◌, ◌*◌, ◌/◌, ◌%◌, ◌^◌, ◌≤◌, ◌<◌, min, ◌≡◌, refl, sym, ap, ◌∙◌, ◌≢◌, ◌↔◌, ◌⊎◌,
  inl, inr, Bool, true, false, not, ◌&&◌, ◌||◌, Option, none, some, List, [], ◌∷◌, ◌++◌, map, arith,
  ltb, leb, ◌==◌, in_range, if◌then◌else◌, ==_iff, ltb_iff, leb_iff, Bool-cases, Option-cases,
  length, is_empty, is_empty-eq-false_iff, all, any, get_elem?, get_or, take, drop, length-append,
  length-take, length-drop, take-append-drop, take_of_length-le, All, all_iff, any-eq-false_iff,
  all-append, any-append, Result, ◌>>=◌, ◌>>◌, reject_if, ok_or, map_err, is_ok, >>=-eq-ok,
  Result-cases, Text, Bytes, codes, utf8_char, bytes, byte_len, text_eq, text_eq_iff,
  is_ascii_alphanumeric, is_control, is_whitespace, trim_start_while, trim, strip_prefix,
  starts_with, push_front, split, to_ascii_lower, all-bytes, bytes_of_ascii, has_nul,
  has_nul-eq-false_iff, strip_prefix-append, strip_prefix-eq-some, Table, lookup, remove, insert,
  lookup-remove, lookup-insert, ok, err,
}

abbrev pub byte_at : ℕ → Bytes → ℕ
byte_at i message = get_or message i 0

-- `b & 0x80 != 0`
abbrev pub has_response_bit : ℕ → Bool
has_response_bit b = b / 128 % 2 == 1

-- `u16::from_be_bytes`
abbrev pub u16_of : ℕ → ℕ → ℕ
u16_of high low = high * 256 + low

unfoldable pub is_dns_query : Bytes → Bool
is_dns_query message =
    leb 12 (length message)
    && not (has_response_bit (byte_at 2 message))
    && ltb 0 (u16_of (byte_at 4 message) (byte_at 5 message))

unfoldable pub is_dns_response_for : Bytes → Bytes → Bool
is_dns_response_for query response =
    leb 2 (length query)
    && leb 12 (length response)
    && text_eq (take 2 response) (take 2 query)
    && has_response_bit (byte_at 2 response)

-- `dns_servfail`: `0x80 | b & 0x01` is 128 and the lowest bit.
unfoldable pub dns_servfail : Bytes → Bytes
dns_servfail query =
    let id = if leb 2 (length query) then take 2 query else 0 ∷ 0 ∷ [] in
    id ++ (128 + byte_at 2 query % 2) ∷ 130 ∷ 0 ∷ 0 ∷ 0 ∷ 0 ∷ 0 ∷ 0 ∷ 0 ∷ 0 ∷ []

-- The loop over the upstreams that `relay_udp_query` and `relay_tcp_query` share; `ask` is what one of
-- them answers in time, if it does, over the transport of the one or the other.
unfoldable pub relay_query :
    {U : Type 0} → (U → Bytes → Option Bytes) → Bytes → List U → Option Bytes
relay_query ask query [] = none
relay_query ask query (upstream ∷ upstreams) =
    let later = relay_query ask query upstreams in
    elim (ask upstream query) [
      | none ↦ later
      | some response ↦ if is_dns_response_for query response then some response else later
    ]

-- `relay_udp_query`: the message that the guest gets for its query, with what the upstreams answer to
-- a datagram.
unfoldable pub answer : {U : Type 0} → (U → Bytes → Option Bytes) → List U → Bytes → Bytes
answer ask_udp upstreams query = elim (relay_query ask_udp query upstreams) [
  | none ↦ dns_servfail query
  | some response ↦ response
]

-- A datagram from the address of a peer: it is relayed if the peer is the guest, it is a query, and
-- a permit of those that are left can be taken.
unfoldable pub receive_udp :
    {U : Type 0} → (U → Bytes → Option Bytes) → List U → ℕ → ℕ → ℕ → Bytes → Option Bytes
receive_udp ask_udp upstreams guest permits peer datagram =
    if not (peer == guest) || not (is_dns_query datagram)
    then none
    else if permits == 0
    then none
    else some (answer ask_udp upstreams datagram)
