-- ===== src/Api/Snapshots/Pages.antt =====
-- Walking the pages of a snapshot list by their cursors.
use ferrobox.Prelude.{
  ℕ, zero, suc, ◌+◌, ◌-◌, ◌≤◌, ◌<◌, min, ◌≡◌, refl, sym, ap, ◌∙◌, ◌≢◌, inl, inr, true, false,
  Option, none, some, List, [], ◌∷◌, ◌++◌, arith, ltb, Bool-cases, length, get_elem?, take, drop,
  length-drop, take-append-drop, take_of_length-le, All, Result, ok, err,
}
use mathlib.Core.Path.{subst}
use native.Mathlib.Nat.{zero-add}
use ferrobox.Core.Spec.{SnapshotId}
use ferrobox.Core.Exec.{SnapshotHandle}
use ferrobox.Api.Types.{ApiError, api_bad_request}
use ferrobox.Api.Snapshots.{position_from, page_start, page, cut_page, id_at}

-- The identifiers are distinct.
abbrev pub Distinct : List SnapshotHandle → Type 0
Distinct [] = Unit
Distinct (s ∷ rest) = All (λ t. s.snapshot_id ≢ t.snapshot_id) rest × Distinct rest

-- A client that follows the cursors, from a first page on; it gives up when its fuel is used up.
unfoldable pub follow :
    ℕ → ℕ → Option SnapshotId → List SnapshotHandle → Result ApiError (List SnapshotHandle)
follow zero limit cursor snapshots = err api_bad_request
follow (suc fuel) limit cursor snapshots = elim (cut_page limit cursor snapshots) [
  | err e ↦ err e
  | ok p ↦ elim p.next_cursor [
    | none ↦ ok p.snapshots
    | some id ↦ elim (follow fuel limit (some id) snapshots) [
      | err e ↦ err e
      | ok rest ↦ ok (p.snapshots ++ rest)
    ]
  ]
]

All-get_elem? :
    (P : SnapshotHandle → Type 0) (xs : List SnapshotHandle) (i : ℕ) (s : SnapshotHandle)
    → All P xs
    → get_elem? xs i ≡ some s
    → P s
All-get_elem? P [] i s h e = cc
All-get_elem? P (x ∷ xs) zero s h e = let same : x ≡ s = ground arith in subst P same h.0
All-get_elem? P (x ∷ xs) (suc i) s h e = All-get_elem? P xs i s h.1 e

-- In a list of distinct identifiers the cursor finds the place that it came from.
position_from-get_elem? :
    (k : ℕ) (xs : List SnapshotHandle) (i : ℕ) (s : SnapshotHandle)
    → Distinct xs
    → get_elem? xs i ≡ some s
    → position_from k s.snapshot_id xs ≡ some (k + i)
position_from-get_elem? k [] i s h e = cc
position_from-get_elem? k (x ∷ xs) zero s h e =
    let same : x ≡ s = ground arith in rw (← same) (ground arith)
position_from-get_elem? k (x ∷ xs) (suc i) s h e =
    let differ = All-get_elem? (λ t. x.snapshot_id ≢ t.snapshot_id) xs i s h.0 e in
    ground (arith, position_from-get_elem? (k + 1) xs i s h.1 e, differ)

get_elem?_of_lt :
    (xs : List SnapshotHandle) (i : ℕ)
    → i < length xs
    → (s : SnapshotHandle) × (get_elem? xs i ≡ some s)
get_elem?_of_lt [] i h = absurd (omega arith)
get_elem?_of_lt (x ∷ xs) zero h = (x, refl)
get_elem?_of_lt (x ∷ xs) (suc i) h = get_elem?_of_lt xs i (omega arith)

drop-nil : (n : ℕ) → drop {A = SnapshotHandle} n [] ≡ []
drop-nil zero = refl
drop-nil (suc n) = refl

drop-drop : (n m : ℕ) (xs : List SnapshotHandle) → drop n (drop m xs) ≡ drop (m + n) xs
drop-drop n zero xs = rw zero-add
drop-drop n (suc m) [] = drop-nil n ∙ sym (drop-nil (suc m + n))
drop-drop n (suc m) (x ∷ xs) =
    let e : suc (m + n) ≡ suc m + n = omega arith in drop-drop n m xs ∙ ap (λ k. drop k (x ∷ xs)) e

-- One page and what is left after it.
page-append-drop :
    (xs : List SnapshotHandle) (start last : ℕ)
    → start ≤ last
    → take (last - start) (drop start xs) ++ drop last xs ≡ drop start xs
page-append-drop xs start last h =
    let e : start + (last - start) ≡ last = omega arith in
    let rest : drop (last - start) (drop start xs) ≡ drop last xs =
      drop-drop (last - start) start xs ∙ ap (λ k. drop k xs) e in
    rw (← rest) (take-append-drop (last - start) (drop start xs))

-- The last page holds all that is left.
page-last :
    (xs : List SnapshotHandle) (start : ℕ)
    → take (length xs - start) (drop start xs) ≡ drop start xs
page-last xs start =
    take_of_length-le (length xs - start) (drop start xs) (omega (arith, length-drop start xs))

module _ (limit : ℕ) (xs : List SnapshotHandle) where
  -- What a page holds, where more follow it and where it is the last.
  abbrev last_of : ℕ → ℕ
  last_of start = min (start + limit) (length xs)

  page_more :
      (start : ℕ) (s : SnapshotHandle)
      → ltb (last_of start) (length xs) ≡ true
      → get_elem? xs (last_of start - 1) ≡ some s
      → page xs limit start ≡ record {
        snapshots = take (last_of start - start) (drop start xs);
        next_cursor = some s.snapshot_id;
      }
  unfolding page
  page_more start s more at_end =
      let e : id_at xs (last_of start - 1) ≡ some s.snapshot_id =
        unfold id_at in rw (at_end, id_at) in
      rw (more, e)

  page_done :
      (start : ℕ)
      → ltb (last_of start) (length xs) ≡ false
      → page xs limit start ≡ record { snapshots = drop start xs; next_cursor = none }
  unfolding page
  page_done start done =
      let whole : last_of start ≡ length xs = ground arith in rw (done, whole, page-last xs start)

  cut_lem :
      (start : ℕ) (cursor : Option SnapshotId)
      → page_start cursor xs ≡ ok start
      → cut_page limit cursor xs ≡ ok (page xs limit start)
  unfolding cut_page
  cut_lem start cursor e = rw (e, cut_page)

  module _ (distinct : Distinct xs) (some_limit : 1 ≤ limit) where
    next_start :
        (last : ℕ) (s : SnapshotHandle)
        → 1 ≤ last
        → get_elem? xs (last - 1) ≡ some s
        → page_start (some s.snapshot_id) xs ≡ ok last
    unfolding page_start
    next_start last s positive at_end =
        let e = position_from-get_elem? 0 xs (last - 1) s distinct at_end in
        rw (e, page_start) (ap ok (omega arith))

    follow_more :
        (fuel : ℕ) (cursor : Option SnapshotId) (here rest : List SnapshotHandle) (id : SnapshotId)
        → cut_page limit cursor xs ≡ ok (record { snapshots = here; next_cursor = some id })
        → follow fuel limit (some id) xs ≡ ok rest
        → follow (suc fuel) limit cursor xs ≡ ok (here ++ rest)
    unfolding follow
    follow_more fuel cursor here rest id c l = rw (c, follow) (rw l)

    follow_done :
        (fuel : ℕ) (cursor : Option SnapshotId) (here : List SnapshotHandle)
        → cut_page limit cursor xs ≡ ok (record { snapshots = here; next_cursor = none })
        → follow (suc fuel) limit cursor xs ≡ ok here
    unfolding follow
    follow_done fuel cursor here c = rw (c, follow)

    follow_from :
        (fuel start : ℕ) (cursor : Option SnapshotId)
        → page_start cursor xs ≡ ok start
        → start ≤ length xs
        → length xs - start < fuel
        → follow fuel limit cursor xs ≡ ok (drop start xs)
    unfolding follow
    follow_from zero start cursor e h enough = absurd (omega arith)
    follow_from (suc fuel) start cursor e h enough =
        elim (Bool-cases (ltb (last_of start) (length xs))) [
          | inl more ↦
              let (s, at_end) = get_elem?_of_lt xs (last_of start - 1) (ground arith) in
              let later =
                follow_from fuel (last_of start) (some s.snapshot_id)
                  (next_start (last_of start) s (ground arith) at_end) (ground arith)
                  (ground arith) in
              follow_more fuel cursor _ _ s.snapshot_id
                (cut_lem start cursor e ∙ ap ok (page_more start s more at_end)) later
              ∙ ap ok (page-append-drop xs start (last_of start) (ground arith))
          | inr done ↦
              follow_done fuel cursor _ (cut_lem start cursor e ∙ ap ok (page_done start done))
        ]

-- A client that starts with no cursor and follows each page's cursor to the next page gets the whole
-- list, in order and each snapshot once, for every page size from 1 up, where the identifiers are
-- distinct: more requests than there are snapshots are enough.
pub follow-eq-all :
    (fuel limit : ℕ) (snapshots : List SnapshotHandle)
    → Distinct snapshots
    → 1 ≤ limit
    → length snapshots < fuel
    → follow fuel limit none snapshots ≡ ok snapshots
follow-eq-all fuel limit snapshots distinct some_limit enough =
    follow_from limit snapshots distinct some_limit fuel 0 none (unfold page_start in refl)
      (omega arith) (omega arith)
