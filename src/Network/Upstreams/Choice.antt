-- ===== src/Network/Upstreams/Choice.antt =====
-- The upstreams that `host_dns_upstreams` of crates/ferrobox-node/src/network.rs chooses.
use ferrobox.Prelude.{
  ℕ, zero, suc, ◌≤◌, ◌≡◌, refl, ◌≢◌, inl, inr, true, false, Option, none, some, List, [], ◌∷◌, ◌++◌,
  arith, ◌==◌, Bool-cases, Option-cases, length, any, take, length-append, length-take, All,
  All-append, Text, split,
}
use ferrobox.Network.Upstreams.{
  is_usable, nameserver_on, keep_some, ipv4_nameservers, add_upstream, add_upstreams, gather,
  fallback, host_dns_upstreams,
}

-- No address stands twice, and each is one that can be asked.
abbrev pub Distinct : List ℕ → Type 0
Distinct [] = Unit
Distinct (x ∷ xs) = All (λ y. x ≢ y) xs × Distinct xs

abbrev IsUsable : ℕ → Type 0
IsUsable address = is_usable address ≡ true

abbrev IsChoice : List ℕ → Type 0
IsChoice upstreams = Distinct upstreams × All IsUsable upstreams

All-take : {A : Type 0} (P : A → Type 0) (n : ℕ) (xs : List A) → All P xs → All P (take n xs)
All-take P zero xs h = tt
All-take P (suc n) [] h = tt
All-take P (suc n) (x ∷ xs) (p, h) = (p, All-take P n xs h)

Distinct-take : (n : ℕ) (xs : List ℕ) → Distinct xs → Distinct (take n xs)
Distinct-take zero xs h = tt
Distinct-take (suc n) [] h = tt
Distinct-take (suc n) (x ∷ xs) (p, h) = (All-take (λ y. x ≢ y) n xs p, Distinct-take n xs h)

Distinct-push :
    (xs : List ℕ) (address : ℕ)
    → any (λ known. known == address) xs ≡ false
    → Distinct xs
    → Distinct (xs ++ address ∷ [])
Distinct-push [] address new h = (tt, tt)
Distinct-push (x ∷ xs) address new (p, h) =
    let other : x ≢ address = ground arith in
    (
      All-append (λ y. x ≢ y) xs (address ∷ []) p (other, tt),
      Distinct-push xs address (ground arith) h,
    )

add_upstream-IsChoice :
    (upstreams : List ℕ) (address : ℕ)
    → IsUsable address
    → IsChoice upstreams
    → IsChoice (add_upstream upstreams address)
add_upstream-IsChoice upstreams address usable (d, u) =
    elim (Bool-cases (any (λ known. known == address) upstreams)) [
      | inl known ↦ rw known (d, u)
      | inr new ↦ rw new (
        Distinct-push upstreams address new d,
        All-append IsUsable upstreams (address ∷ []) u (usable, tt),
      )
    ]

add_upstreams-IsChoice :
    (addresses upstreams : List ℕ)
    → All IsUsable addresses
    → IsChoice upstreams
    → IsChoice (add_upstreams upstreams addresses)
add_upstreams-IsChoice [] upstreams h k = k
add_upstreams-IsChoice (address ∷ addresses) upstreams (p, h) k =
    add_upstreams-IsChoice addresses (add_upstream upstreams address) h
      (add_upstream-IsChoice upstreams address p k)

nameserver_on-IsUsable :
    (parse : Text → Option ℕ) (line : Text) (address : ℕ)
    → nameserver_on parse line ≡ some address
    → IsUsable address
unfolding nameserver_on
nameserver_on-IsUsable parse line address h = ground arith

keep_some-All :
    {A B : Type 0} (P : B → Type 0) (f : A → Option B) (xs : List A)
    → ((x : A) (y : B) → f x ≡ some y → P y)
    → All P (keep_some f xs)
keep_some-All P f [] h = tt
keep_some-All P f (x ∷ xs) h = elim (Option-cases (f x)) [
  | inl nothing ↦ rw (nothing, All) (keep_some-All P f xs h)
  | inr (y, found) ↦ rw (found, All) (h x y found, keep_some-All P f xs h)
]

gather-IsChoice :
    (parse : Text → Option ℕ) (files : List (Option Text)) (upstreams : List ℕ)
    → IsChoice upstreams
    → IsChoice (gather parse files upstreams)
unfolding ipv4_nameservers
gather-IsChoice parse [] upstreams h = h
gather-IsChoice parse (none ∷ files) upstreams h = gather-IsChoice parse files upstreams h
gather-IsChoice parse (some contents ∷ files) upstreams h =
    let usable =
      keep_some-All IsUsable (nameserver_on parse) (split b'\n' contents)
        (nameserver_on-IsUsable parse) in
    gather-IsChoice parse files (add_upstreams upstreams (ipv4_nameservers parse contents))
      (add_upstreams-IsChoice (ipv4_nameservers parse contents) upstreams usable h)

fallback-IsUsable : IsUsable fallback
unfolding is_usable
fallback-IsUsable = refl

add_upstream-IsFound :
    (upstreams : List ℕ) (address : ℕ) → 1 ≤ length (add_upstream upstreams address)
add_upstream-IsFound [] address = omega arith
add_upstream-IsFound (x ∷ xs) address = ground (arith, length-append xs (address ∷ []))

-- Whatever the resolver files hold, and also if none of them can be read, there are between one and
-- three upstreams, all different, and none of them is the unspecified address, a multicast address or
-- the broadcast address.
pub host_dns_upstreams_lem :
    (parse : Text → Option ℕ) (files : List (Option Text))
    → let upstreams = host_dns_upstreams parse files in
      (1 ≤ length upstreams)
      × (length upstreams ≤ 3)
      × Distinct upstreams
      × All (λ address. is_usable address ≡ true) upstreams
unfolding host_dns_upstreams
host_dns_upstreams_lem parse files =
    let found = gather parse files [] in
    let (d, u) =
      add_upstream-IsChoice found fallback fallback-IsUsable
        (gather-IsChoice parse files [] (tt, tt)) in
    let size = length-take 3 (add_upstream found fallback) in
    let some_there : 1 ≤ length (add_upstream found fallback) =
      add_upstream-IsFound found fallback in
    (
      omega (arith, size, some_there),
      omega (arith, size),
      Distinct-take 3 (add_upstream found fallback) d,
      All-take IsUsable 3 (add_upstream found fallback) u,
    )
