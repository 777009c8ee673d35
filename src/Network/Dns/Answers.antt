-- ===== src/Network/Dns/Answers.antt =====
-- What a guest gets for a DNS query from crates/ferrobox-node/src/network.rs.
use ferrobox.Prelude.{
  ◌+◌, ◌/◌, ◌%◌, ◌≡◌, inl, inr, true, Option, some, List, [], ◌∷◌, arith, Option-cases, Bytes,
  text_eq_iff,
}
use ferrobox.Network.Dns.{is_dns_query, is_dns_response_for, dns_servfail, relay_query, answer}

servfail_lem :
    (query : Bytes)
    → is_dns_query query ≡ true
    → is_dns_response_for query (dns_servfail query) ≡ true
unfolding is_dns_query is_dns_response_for dns_servfail
servfail_lem [] h = ground arith
servfail_lem (a ∷ []) h = ground arith
servfail_lem (a ∷ b ∷ []) h = ground arith
servfail_lem (a ∷ b ∷ c ∷ query) h =
    let bit : (128 + c % 2) / 128 ≡ 1 = omega arith in
    let same = text_eq_iff (a ∷ b ∷ []) (a ∷ b ∷ []) in ground (arith, bit, same)

relayed_lem :
    {U : Type 0} (ask : U → Bytes → Option Bytes) (query response : Bytes) (upstreams : List U)
    → relay_query ask query upstreams ≡ some response
    → is_dns_response_for query response ≡ true
unfolding relay_query
relayed_lem ask query response [] h = ground arith
relayed_lem ask query response (upstream ∷ upstreams) h =
    ground (arith, relayed_lem ask query response upstreams)

-- Whatever the upstreams answer, or fail to, what the guest gets for a DNS query is a response to that
-- query: it has the query's identifier, the bit of a response, and at least a whole header.
pub answer_lem :
    {U : Type 0} (ask : U → Bytes → Option Bytes) (upstreams : List U) (query : Bytes)
    → is_dns_query query ≡ true
    → is_dns_response_for query (answer ask upstreams query) ≡ true
unfolding answer
answer_lem ask upstreams query h = elim (Option-cases (relay_query ask query upstreams)) [
  | inl nothing ↦ rw (nothing, answer) (servfail_lem query h)
  | inr (response, relayed) ↦
      rw (relayed, answer) (relayed_lem ask query response upstreams relayed)
]
