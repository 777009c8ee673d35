-- ===== src/Process/Runtime/SafePath.antt =====
-- What `safe_path` of crates/ferrobox-node/src/process_runtime.rs lets through.
use ferrobox.Prelude.{
  ◌≡◌, refl, sym, ◌∙◌, ◌≢◌, ◌↔◌, ◌⊎◌, inl, inr, Bool, true, false, List, [], ◌∷◌, ◌++◌, arith,
  Bool-cases, All, any-eq-false_iff, Text, codes, text_eq, ok,
}
use mathlib.Core.List.{append-nil, append_assoc}
use ferrobox.Core.Paths.{SandboxPath, relative, parent_part}
use ferrobox.Process.Disk.{
  HostPath, Disk, Node, missing, symlink, unreadable, components, push, push_all,
}
use ferrobox.Process.Runtime.{inspect, safe_path}

-- Something that is no symbolic link stands there.
abbrev pub IsPlain : Node → Type 0
IsPlain n = (n ≢ symlink) × (n ≢ missing) × (n ≢ unreadable)

-- Every step of a walk finds something plain; the last step may find nothing, if the leaf may be
-- missing.
abbrev pub IsClear : Disk → Bool → HostPath → List Text → Type 0
IsClear d leaf current [] = Unit
IsClear d leaf current (part ∷ []) =
    IsPlain (d.node (push current part)) ⊎ ((leaf ≡ true) × (d.node (push current part) ≡ missing))
IsClear d leaf current (part ∷ next ∷ parts) =
    IsPlain (d.node (push current part)) × IsClear d leaf (push current part) (next ∷ parts)

inspect-IsClear :
    (d : Disk) (leaf : Bool) (current : HostPath) (parts : List Text)
    → inspect d leaf current parts ≡ ok tt
    → IsClear d leaf current parts
unfolding inspect
inspect-IsClear d leaf current [] h = tt
inspect-IsClear d leaf current (part ∷ []) h = ground arith
inspect-IsClear d leaf current (part ∷ next ∷ parts) h =
    ground (arith, inspect-IsClear d leaf (push current part) (next ∷ parts))

IsClear-inspect :
    (d : Disk) (leaf : Bool) (current : HostPath) (parts : List Text)
    → IsClear d leaf current parts
    → inspect d leaf current parts ≡ ok tt
unfolding inspect
IsClear-inspect d leaf current [] h = refl
IsClear-inspect d leaf current (part ∷ []) h = ground arith
IsClear-inspect d leaf current (part ∷ next ∷ parts) h =
    ground (arith, IsClear-inspect d leaf (push current part) (next ∷ parts) h.1)

abbrev IsNotParent : Text → Type 0
IsNotParent part = text_eq part parent_part ≡ false

push_all-IsBelow :
    (dir : HostPath) (parts : List Text)
    → All IsNotParent parts
    → (rest : HostPath) × (push_all dir parts ≡ dir ++ rest) × All IsNotParent rest
push_all-IsBelow dir [] h = ([], sym (append-nil dir), tt)
push_all-IsBelow dir (part ∷ parts) (p, h) = elim (Bool-cases (text_eq part (codes "."))) [
  | inl stay ↦ rw stay (push_all-IsBelow dir parts h)
  | inr go ↦
      let (rest, e, names) = push_all-IsBelow (dir ++ part ∷ []) parts h in
      rw go (part ∷ rest, e ∙ append_assoc dir (part ∷ []) rest, (p, names))
]

-- What `safe_path` gives for a path: the names of the relative form are walked from the workspace.
abbrev pub IsSafe : Disk → HostPath → SandboxPath → Bool → HostPath → Type 0
IsSafe d workspace path leaf target =
    All IsNotParent (components (relative path))
    × IsClear d leaf workspace (components (relative path))
    × (target ≡ push_all workspace (components (relative path)))

module _ (d : Disk) (workspace : HostPath) (path : SandboxPath) (leaf : Bool) where
  safe_path-IsSafe :
      (target : HostPath)
      → safe_path d workspace path leaf ≡ ok target
      → IsSafe d workspace path leaf target
  unfolding safe_path
  safe_path-IsSafe target h =
      let parents =
        any-eq-false_iff (λ part. text_eq part parent_part) (components (relative path)) in
      let clear = inspect-IsClear d leaf workspace (components (relative path)) in
      (parents.0 (ground arith), clear (ground arith), ground arith)

  IsSafe-safe_path :
      (target : HostPath)
      → IsSafe d workspace path leaf target
      → safe_path d workspace path leaf ≡ ok target
  unfolding safe_path
  IsSafe-safe_path target (names, clear, e) =
      let parents =
        any-eq-false_iff (λ part. text_eq part parent_part) (components (relative path)) in
      let none_up = parents.1 names in
      let walked = IsClear-inspect d leaf workspace (components (relative path)) clear in
      rw (none_up, walked, e)

  -- `safe_path` succeeds exactly if no component of the relative path is `..` and the walk from the
  -- workspace along them meets, at each step, something that is there and is no symbolic link, except
  -- that the last step may find nothing where a missing leaf is allowed; and its result is then the
  -- end of that walk.
  pub safe_path_iff :
      (target : HostPath)
      → (safe_path d workspace path leaf ≡ ok target) ↔ IsSafe d workspace path leaf target
  safe_path_iff target = (safe_path-IsSafe target, IsSafe-safe_path target)

  -- Where `safe_path` succeeds, its result is the workspace with names below it of which none is `..`.
  safe_path-IsBelow :
      (target : HostPath)
      → safe_path d workspace path leaf ≡ ok target
      → (rest : HostPath) × (target ≡ workspace ++ rest) × All IsNotParent rest
  safe_path-IsBelow target h =
      let (names, clear, e) = safe_path-IsSafe target h in
      let (rest, below, good) = push_all-IsBelow workspace (components (relative path)) names in
      (rest, e ∙ below, good)
