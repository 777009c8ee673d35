-- ===== src/Process/Files/Contents.antt =====
-- What `write` and `read` of crates/ferrobox-node/src/process_runtime.rs do to the contents of a file.
use ferrobox.Prelude.{
  codes, is_empty, text_eq, drop_add, ℕ, zero, suc, ◌+◌, ◌-◌, ◌^◌, ◌≤◌, ◌<◌, min, ◌≡◌, refl, sym,
  ap, ◌⊎◌, inl, inr, Bool, true, false, Option, none, some, List, [], ◌∷◌, ◌++◌, arith, ltb, leb,
  if◌then◌else◌, ltb_iff, leb_iff, Bool-cases, Option-cases, length, take, drop, length-take,
  length-drop, take_of_length-le, Result-cases, Text, Bytes, lookup, ok, err,
}
use ferrobox.Process.Disk.{
  Node, HostPath, Disk, regular, put_node, path_eq, path_eq_iff, node-put_node, components, push,
  push_all,
}
use ferrobox.Core.Spec.{SandboxId, max_file_bytes}
use ferrobox.Core.Paths.{SandboxPath, relative}
use ferrobox.Core.Exec.{WriteFileRequest}
use ferrobox.Process.Runtime.{ProcessRuntime, ProcessSandbox, safe_path}
use ferrobox.Process.Runtime.SafePath.{IsPlain, IsClear, safe_path_iff}
use ferrobox.Process.Files.{
  check_leaf, check_new_file, load, read, slice, store, write, written_leaf,
}

-- A client that reads a file piece by piece until a piece is marked as the last.
abbrev pub read_all : ℕ → Bytes → ℕ → ℕ → Option Bytes
read_all zero contents max_bytes offset = none
read_all (suc fuel) contents max_bytes offset = elim (slice contents offset max_bytes) [
  | err e ↦ none
  | ok r ↦
      let rest = read_all fuel contents max_bytes (offset + length r.contents) in
      if r.eof
      then some r.contents
      else elim rest [ none ↦ none | some later ↦ some (r.contents ++ later) ]
]

slice_lem :
    (contents : Bytes) (offset max_bytes : ℕ)
    → length contents < 2 ^ 63
    → offset ≤ length contents
    → let found = take (min max_bytes max_file_bytes) (drop offset contents) in
      (slice contents offset max_bytes
        ≡ ok (record { contents = found; eof = leb (length contents) (offset + length found) }))
      × (length found ≡ min (min max_bytes max_file_bytes) (length contents - offset))
unfolding slice
slice_lem contents offset max_bytes small inside =
    let a = length-take (min max_bytes max_file_bytes) (drop offset contents) in
    let b = length-drop offset contents in (ground (arith, a, b), omega (arith, a, b))

still-IsPlain :
    (d : Disk) (target q : HostPath) (contents : Bytes)
    → IsPlain (d.node q) ⊎ (q ≡ target)
    → IsPlain ((put_node target (regular contents) d).node q)
still-IsPlain d target q contents h =
    let e = node-put_node target q (regular contents) d in
    elim (Bool-cases (path_eq target q)) [
      | inl same ↦ ground (arith, e, path_eq_iff target q)
      | inr other ↦ ground (arith, e, path_eq_iff target q)
    ]

still-IsClear :
    (d : Disk) (target current : HostPath) (contents : Bytes) (parts : List Text)
    → target ≡ push_all current parts
    → IsClear d true current parts
    → IsClear (put_node target (regular contents) d) false current parts
still-IsClear d target current contents [] e h = tt
still-IsClear d target current contents (part ∷ []) e (inl h) =
    inl (still-IsPlain d target (push current part) contents (inl h))
still-IsClear d target current contents (part ∷ []) e (inr h) =
    inl (still-IsPlain d target (push current part) contents (inr (sym e)))
still-IsClear d target current contents (part ∷ next ∷ parts) e (h, rest) = (
  still-IsPlain d target (push current part) contents (inl h),
  still-IsClear d target (push current part) contents (next ∷ parts) e rest,
)

last_piece :
    (contents : Bytes) (offset max_bytes : ℕ)
    → let found = take (min max_bytes max_file_bytes) (drop offset contents) in
      length contents ≤ offset + length found → found ≡ drop offset contents
last_piece contents offset max_bytes done =
    let a = length-take (min max_bytes max_file_bytes) (drop offset contents) in
    let b = length-drop offset contents in
    take_of_length-le (min max_bytes max_file_bytes) (drop offset contents)
      (omega (arith, a, b, done))

taken_then_rest :
    {A : Type 0} (k : ℕ) (xs : List A) → take k xs ++ drop (length (take k xs)) xs ≡ xs
taken_then_rest zero xs = refl
taken_then_rest (suc k) [] = refl
taken_then_rest (suc k) (x ∷ xs) = ap (λ t. x ∷ t) (taken_then_rest k xs)

next_piece :
    (contents : Bytes) (offset k : ℕ)
    → let found = take k (drop offset contents) in
      found ++ drop (offset + length found) contents ≡ drop offset contents
next_piece contents offset k =
    rw (drop_add offset (length (take k (drop offset contents))) contents)
      (taken_then_rest k (drop offset contents))

-- A file that is read piece by piece, each piece from where the last ended and of at most a fixed
-- positive number of bytes, until a piece has the end-of-file mark, gives exactly the bytes of the
-- file from the first offset on, in at most one piece more than the number of those bytes.
pub read_all-eq-drop :
    (contents : Bytes) (max_bytes : ℕ)
    → 0 < max_bytes
    → length contents < 2 ^ 63
    → (fuel offset : ℕ) → offset ≤ length contents
    → length contents < offset + fuel
    → read_all fuel contents max_bytes offset ≡ some (drop offset contents)
read_all-eq-drop contents max_bytes pos small zero offset inside enough = absurd (omega arith)
read_all-eq-drop contents max_bytes pos small (suc fuel) offset inside enough =
    let (e, size) = slice_lem contents offset max_bytes small inside in
    let found = take (min max_bytes max_file_bytes) (drop offset contents) in
    rw (e, read_all)
      (elim (Bool-cases (leb (length contents) (offset + length found))) [
        | inl done ↦ rw done (ap some (last_piece contents offset max_bytes ((leb_iff _ _).0 done)))
        | inr more ↦
            let later =
              read_all-eq-drop contents max_bytes pos small fuel (offset + length found)
                (omega (arith, size))
                (ground (arith, size, leb_iff (length contents) (offset + length found))) in
            rw (more, later) (ap some (next_piece contents offset (min max_bytes max_file_bytes)))
      ])

store_lem :
    (target : HostPath) (contents : Bytes) (overwrite : Bool) (d d' : Disk)
    → store target contents overwrite d ≡ ok d'
    → d' ≡ put_node target (regular contents) d
unfolding store
store_lem target contents overwrite d d' h = ground arith

-- A path that can name a new file is read as that of a file.
check_lem :
    (path : SandboxPath) (overwrite : Bool) (before after : Node)
    → check_new_file path overwrite before ≡ ok tt
    → check_leaf path after ≡ ok tt
unfolding check_new_file check_leaf
check_lem path overwrite before after h = elim (Bool-cases (is_empty (written_leaf path))) [
  | inl nothing ↦ absurd (ground arith)
  | inr named ↦ elim (Bool-cases (text_eq (written_leaf path) (codes "."))) [
    | inl dot ↦ absurd (ground arith)
    | inr other ↦ rw (named, other) refl
  ]
]

-- What a write leaves behind: the contents at the place that the path leads to, which it leads to
-- still.
stored_lem :
    (id : SandboxId) (request : WriteFileRequest) (s s' : ProcessRuntime) (n : ℕ)
    → write id request s ≡ (ok n, s')
    → (box : ProcessSandbox) × (target : HostPath) × (lookup id s.sandboxes ≡ some box)
      × (safe_path s.disk box.workspace request.path true ≡ ok target)
      × (s'.sandboxes ≡ s.sandboxes)
      × (s'.disk ≡ put_node target (regular request.contents) s.disk)
      × (n ≡ length request.contents)
      × (length request.contents ≤ max_file_bytes)
      × (check_new_file request.path request.overwrite (s.disk.node target) ≡ ok tt)
unfolding write
stored_lem id request s s' n h = elim (Bool-cases (ltb max_file_bytes (length request.contents))) [
  | inl over ↦ absurd (ground arith)
  | inr fits ↦ elim (Option-cases (lookup id s.sandboxes)) [
    | inl found ↦ absurd (ground arith)
    | inr (box, found) ↦ elim (Result-cases (safe_path s.disk box.workspace request.path true)) [
      | inr (e, walked) ↦ absurd (ground arith)
      | inl (target, walked) ↦
          let spelling = check_new_file request.path request.overwrite (s.disk.node target) in
          elim (Result-cases spelling) [
            | inr (e, refusal) ↦ absurd (ground arith)
            | inl (_, spelled) ↦
                elim (Result-cases (store target request.contents request.overwrite s.disk)) [
                  | inr (e, done) ↦ absurd (ground arith)
                  | inl (d, done) ↦
                      let same =
                        store_lem target request.contents request.overwrite s.disk d done in
                      let small = ltb_iff max_file_bytes (length request.contents) in
                      (
                        box,
                        target,
                        found,
                        walked,
                        ground arith,
                        ground arith,
                        ground arith,
                        ground (arith, small),
                        spelled,
                      )
                ]
          ]
    ]
  ]
]

load-put_node :
    (target : HostPath) (contents : Bytes) (d : Disk)
    → load target (put_node target (regular contents) d) ≡ ok contents
unfolding load
load-put_node target contents d =
    ground (arith, node-put_node target target (regular contents) d, path_eq_iff target target)

-- A file that was just written can be read back under the same path: a read from its start that asks
-- for at least as many bytes as were written succeeds, gives those bytes and nothing else, and is
-- marked as the end of the file; and the number that the write reports is their number.
pub read-write :
    (id : SandboxId) (request : WriteFileRequest) (s s' : ProcessRuntime) (n max_bytes : ℕ)
    → write id request s ≡ (ok n, s')
    → n ≤ max_bytes
    → ((read id (record { path = request.path; offset = 0; max_bytes = max_bytes }) s').0
        ≡ ok (record { contents = request.contents; eof = true }))
      × (n ≡ length request.contents)
unfolding read
read-write id request s s' n max_bytes h wide =
    let (box, target, found, walked, boxes, disk, size, small, spelled) =
      stored_lem id request s s' n h in
    let (names, clear, e) =
      (safe_path_iff s.disk box.workspace request.path true target).0 walked in
    let parts = components (relative request.path) in
    let still = still-IsClear s.disk target box.workspace request.contents parts e clear in
    let again =
      (safe_path_iff (put_node target (regular request.contents) s.disk) box.workspace request.path
          false target).1
        (names, still, e) in
    let leaf =
      check_lem request.path request.overwrite (s.disk.node target)
        ((put_node target (regular request.contents) s.disk).node target) spelled in
    let loaded = load-put_node target request.contents s.disk in
    let (whole, _) = slice_lem request.contents 0 max_bytes (omega (arith, small)) (omega arith) in
    let full =
      take_of_length-le (min max_bytes max_file_bytes) request.contents
        (omega (arith, small, size, wide)) in
    let marked : leb (length request.contents) (0 + length request.contents) ≡ true =
      (leb_iff (length request.contents) (0 + length request.contents)).1 (omega arith) in
    (rw (boxes, found, disk, again, leaf, loaded, whole, full, marked) refl, size)
