-- ===== src/Network/Tcp/Frames.antt =====
-- A connection of several queries to `relay_tcp_queries` of crates/ferrobox-node/src/network.rs.
use ferrobox.Network.Tcp.{
  inl, inr, frame, relay_tcp_query, tcp_answer, next_query, relay_rounds, relay_tcp_queries,
}
use ferrobox.Network.Dns.Answers.{answer_lem}
use mathlib.Core.Path.{subst}
use ferrobox.Prelude.{
  sym, Bool-cases, Option-cases, ℕ, zero, suc, ◌+◌, ◌/◌, ◌%◌, ◌<◌, ◌≡◌, refl, ap, true, false,
  Option, none, some, List, [], ◌∷◌, ◌++◌, map, arith, ltb, length, take, drop, length-append, All,
  Bytes,
}
use ferrobox.Network.Dns.{
  answer, dns_servfail, is_dns_query, is_dns_response_for, relay_query, u16_of,
}

abbrev pub frames : List Bytes → Bytes
frames [] = []
frames (message ∷ messages) = frame message ++ frames messages

take-append : {A : Type 0} (xs ys : List A) → take (length xs) (xs ++ ys) ≡ xs
take-append [] ys = refl
take-append (x ∷ xs) ys = ap (λ t. x ∷ t) (take-append xs ys)

drop-append : {A : Type 0} (xs ys : List A) → drop (length xs) (xs ++ ys) ≡ ys
drop-append [] ys = refl
drop-append (x ∷ xs) ys = drop-append xs ys

abbrev pub IsQuery : Bytes → Type 0
IsQuery query = (is_dns_query query ≡ true) × (length query < 65536)

next_query-frame :
    (query rest : Bytes) → IsQuery query → next_query (frame query ++ rest) ≡ some (query, rest)
unfolding next_query frame
next_query-frame query rest (q, size) =
    let whole : u16_of (length query / 256 % 256) (length query % 256) ≡ length query =
      omega arith in
    let there : ltb (length (query ++ rest)) (length query) ≡ false =
      ground (arith, length-append query rest) in
    rw (next_query, whole, there, take-append query rest, drop-append query rest, q) refl

next_query-nothing : next_query [] ≡ none
unfolding next_query
next_query-nothing = refl

length-frame : (message : Bytes) → length (frame message) ≡ length message + 2
unfolding frame
length-frame message = omega arith

-- What an upstream answers on a connection, where 16 bits count its length.
abbrev pub IsFramed : {U : Type 0} → (U → Bytes → Option Bytes) → Type 0
IsFramed {U} ask_tcp =
    (upstream : U) (query response : Bytes)
    → ask_tcp upstream query ≡ some response
    → length response < 65536

-- Every query has a response to it for its answer.
abbrev pub AllAnswered : {U : Type 0} → (U → Bytes → Option Bytes) → List U → List Bytes → Type 0
AllAnswered ask_tcp upstreams [] = Unit
AllAnswered ask_tcp upstreams (query ∷ queries) =
    (is_dns_response_for query (tcp_answer ask_tcp upstreams query) ≡ true)
    × AllAnswered ask_tcp upstreams queries

module _ {U : Type 0} (ask_tcp : U → Bytes → Option Bytes) (framed : IsFramed ask_tcp) where
  relay_query-short :
      (query response : Bytes) (upstreams : List U)
      → relay_query ask_tcp query upstreams ≡ some response
      → length response < 65536
  unfolding relay_query
  relay_query-short query response [] h = absurd (ground arith)
  relay_query-short query response (upstream ∷ upstreams) h =
      elim (Option-cases (ask_tcp upstream query)) [
        | inl silent ↦ relay_query-short query response upstreams (ground arith)
        | inr (reply, told) ↦ elim (Bool-cases (is_dns_response_for query reply)) [
          | inl fits ↦
              let same : reply ≡ response = ground arith in
              ground (arith, framed upstream query reply told)
          | inr strange ↦ relay_query-short query response upstreams (ground arith)
        ]
      ]

  servfail-length : (query : Bytes) → length (dns_servfail query) ≡ 12
  unfolding dns_servfail
  servfail-length [] = refl
  servfail-length (a ∷ []) = refl
  servfail-length (a ∷ b ∷ query) = ground arith

  tcp_answer-short :
      (upstreams : List U) (query : Bytes) → length (tcp_answer ask_tcp upstreams query) < 65536
  unfolding relay_tcp_query
  tcp_answer-short upstreams query = elim (Bool-cases (ltb 65535 (length query))) [
    | inl long ↦
        let e : tcp_answer ask_tcp upstreams query ≡ dns_servfail query =
          rw (long, tcp_answer, relay_tcp_query) refl in
        subst (λ r. length r < 65536) (sym e) (omega (arith, servfail-length query))
    | inr fits ↦ elim (Option-cases (relay_query ask_tcp query upstreams)) [
      | inl nothing ↦
          let e : tcp_answer ask_tcp upstreams query ≡ dns_servfail query =
            rw (fits, tcp_answer, relay_tcp_query) (rw nothing refl) in
          subst (λ r. length r < 65536) (sym e) (omega (arith, servfail-length query))
      | inr (response, found) ↦
          let e : tcp_answer ask_tcp upstreams query ≡ response =
            rw (fits, tcp_answer, relay_tcp_query) (rw found refl) in
          subst (λ r. length r < 65536) (sym e) (relay_query-short query response upstreams found)
    ]
  ]

  tcp_answer-eq-answer :
      (upstreams : List U) (query : Bytes)
      → is_dns_query query ≡ true
      → length query < 65536
      → tcp_answer ask_tcp upstreams query ≡ answer ask_tcp upstreams query
  unfolding relay_tcp_query answer
  tcp_answer-eq-answer upstreams query q size =
      let fits : ltb 65535 (length query) ≡ false = ground arith in
      rw (fits, tcp_answer, relay_tcp_query, answer) refl

  relay_rounds-frames :
      (fuel : ℕ) (upstreams : List U) (queries : List Bytes)
      → All IsQuery queries
      → length (frames queries) < fuel
      → relay_rounds ask_tcp upstreams fuel (frames queries)
        ≡ frames (map (tcp_answer ask_tcp upstreams) queries)
  unfolding relay_rounds
  relay_rounds-frames zero upstreams queries h enough = absurd (omega arith)
  relay_rounds-frames (suc fuel) upstreams [] h enough = rw (next_query-nothing, relay_rounds) refl
  relay_rounds-frames (suc fuel) upstreams (query ∷ queries) (q, h) enough =
      let first = next_query-frame query (frames queries) q in
      let fits : ltb 65535 (length (tcp_answer ask_tcp upstreams query)) ≡ false =
        ground (arith, tcp_answer-short upstreams query) in
      let later =
        relay_rounds-frames fuel upstreams queries h
          (omega (arith, length-append (frame query) (frames queries), length-frame query)) in
      rw (first, fits, later, relay_rounds) refl

  all_answered :
      (upstreams : List U) (queries : List Bytes)
      → All IsQuery queries
      → AllAnswered ask_tcp upstreams queries
  all_answered upstreams [] h = tt
  all_answered upstreams (query ∷ queries) ((q, size), h) = (
    rw (tcp_answer-eq-answer upstreams query q size) (answer_lem ask_tcp upstreams query q),
    all_answered upstreams queries h,
  )

  -- A client that sends any number of DNS queries on one connection, each with its length in front,
  -- to a relay whose upstreams answer messages that 16 bits can count, gets back, in their order and
  -- each with its length in front, one message for each query, and each of them is a response to its
  -- query, from an upstream or that the service failed.
  pub relay_tcp_queries-frames :
      (upstreams : List U) (queries : List Bytes)
      → All IsQuery queries
      → (relay_tcp_queries ask_tcp upstreams (frames queries)
          ≡ frames (map (tcp_answer ask_tcp upstreams) queries))
        × AllAnswered ask_tcp upstreams queries
  relay_tcp_queries-frames upstreams queries h = (
    relay_rounds-frames (suc (length (frames queries))) upstreams queries h (omega arith),
    all_answered upstreams queries h,
  )
