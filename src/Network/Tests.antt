-- ===== src/Network/Tests.antt =====
-- Runs of the DNS relay's definitions, and its theorems at concrete inputs.
use mathlib.Core.Path.{subst}
use ferrobox.Prelude.{
  take, ℕ, ◌≤◌, ◌<◌, ◌≡◌, refl, Bool, true, false, Option, none, some, [], ◌∷◌, map, arith, length,
  All, Text, Bytes, codes,
}
use ferrobox.Network.Dns.{is_dns_query, is_dns_response_for, answer, dns_servfail, relay_query}
use ferrobox.Network.Dns.Answers.{answer_lem}
use ferrobox.Network.Tcp.{
  frame, next_query, relay_rounds, relay_tcp_queries, relay_tcp_query, tcp_answer,
}
use ferrobox.Network.Tcp.Frames.{AllAnswered, IsFramed, frames, relay_tcp_queries-frames}
use ferrobox.Network.Upstreams.{
  split_whitespace, ipv4_nameservers, nameserver_on, is_usable, host_dns_upstreams,
}
use ferrobox.Network.Upstreams.Choice.{Distinct, host_dns_upstreams_lem}

abbrev query : Bytes
query = 18 ∷ 52 ∷ 1 ∷ 0 ∷ 0 ∷ 1 ∷ 0 ∷ 0 ∷ 0 ∷ 0 ∷ 0 ∷ 0 ∷ []

-- The first upstream says nothing of use and the second one nothing at all.
abbrev ask : Bool → Bytes → Option Bytes
ask true message = some []
ask false message = none

query_valid : is_dns_query query ≡ true
unfolding is_dns_query
query_valid = refl

failed : answer ask (true ∷ false ∷ []) query ≡ dns_servfail query
unfolding answer relay_query is_dns_response_for
failed = refl

servfail : dns_servfail query ≡ 18 ∷ 52 ∷ 129 ∷ 130 ∷ 0 ∷ 0 ∷ 0 ∷ 0 ∷ 0 ∷ 0 ∷ 0 ∷ 0 ∷ []
unfolding dns_servfail
servfail = refl

answer_lem_example : is_dns_response_for query (answer ask (true ∷ false ∷ []) query) ≡ true
answer_lem_example = answer_lem ask (true ∷ false ∷ []) query query_valid

-- The first upstream is silent, and the second answers its query with the bit of a response set.
abbrev ask_again : Bool → Bytes → Option Bytes
ask_again true message = none
ask_again false message = some (18 ∷ 52 ∷ 129 ∷ 0 ∷ 0 ∷ 1 ∷ 0 ∷ 0 ∷ 0 ∷ 0 ∷ 0 ∷ 0 ∷ 7 ∷ [])

ask_again-IsFramed : IsFramed ask_again
ask_again-IsFramed true message response h = absurd (ground arith)
ask_again-IsFramed false message response h =
    let told : 18 ∷ 52 ∷ 129 ∷ 0 ∷ 0 ∷ 1 ∷ 0 ∷ 0 ∷ 0 ∷ 0 ∷ 0 ∷ 0 ∷ 7 ∷ [] ≡ response =
      ground arith in
    subst (λ r. length r < 65536) told (omega arith)

relay_tcp_queries-frames_example :
    (relay_tcp_queries ask_again (true ∷ false ∷ []) (frames (query ∷ query ∷ []))
      ≡ frames (map (tcp_answer ask_again (true ∷ false ∷ [])) (query ∷ query ∷ [])))
    × AllAnswered ask_again (true ∷ false ∷ []) (query ∷ query ∷ [])
relay_tcp_queries-frames_example =
    relay_tcp_queries-frames ask_again ask_again-IsFramed (true ∷ false ∷ []) (query ∷ query ∷ [])
      ((query_valid, omega arith), ((query_valid, omega arith), tt))

-- What the client of that connection gets back first: the second upstream's answer with its length.
relayed_first :
    take 4 (relay_tcp_queries ask_again (true ∷ false ∷ []) (frames (query ∷ [])))
    ≡ 0 ∷ 13 ∷ 18 ∷ 52 ∷ []
unfolding relay_rounds next_query frame relay_tcp_query relay_query is_dns_query is_dns_response_for
relayed_first = refl

-- A parser that reads the texts of one character.
abbrev parse : Text → Option ℕ
parse [] = none
parse (c ∷ []) = some c
parse (c ∷ d ∷ s) = none

abbrev resolver_file : Text
resolver_file = codes "search x\nnameserver a\nnameserver  b \n"

resolvers : ipv4_nameservers parse resolver_file ≡ 97 ∷ 98 ∷ []
unfolding ipv4_nameservers nameserver_on split_whitespace is_usable
resolvers = refl

host_dns_upstreams_lem_example :
    let upstreams = host_dns_upstreams parse (some resolver_file ∷ none ∷ []) in
    (1 ≤ length upstreams)
    × (length upstreams ≤ 3)
    × Distinct upstreams
    × All (λ address. is_usable address ≡ true) upstreams
host_dns_upstreams_lem_example = host_dns_upstreams_lem parse (some resolver_file ∷ none ∷ [])
