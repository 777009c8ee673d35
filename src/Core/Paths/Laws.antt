-- ===== src/Core/Paths/Laws.antt =====
-- The meaning of an accepted path: a reference resolution of `.` and `..`, and what it shows of
-- `SandboxPath::new` and `relative` of crates/ferrobox-core/src/lib.rs.
use ferrobox.Prelude.{
  ℕ, ◌≡◌, refl, sym, ap, ◌∙◌, ◌≢◌, ◌⊎◌, inl, inr, Bool, true, false, not, ◌&&◌, ◌||◌, Option, none,
  some, List, [], ◌∷◌, ◌++◌, arith, ◌==◌, if◌then◌else◌, Bool-cases, Option-cases, is_empty, All,
  any-eq-false_iff, Text, codes, text_eq, text_eq_iff, trim_start_while, strip_prefix, starts_with,
  split, has_nul, has_nul-eq-false_iff, strip_prefix-eq-some, ok,
}
use ferrobox.Core.Paths.{
  below_workspace, workspace_slash, workspace, is_slash, parent_part, some, trim_start_while, codes,
  split, strip_prefix, text_eq, new_sandbox_path, relative, has_parent_part, invalid_absolute,
}
use mathlib.Core.Path.{subst}
use mathlib.Core.List.{append-nil, append_assoc}

-- A directory by its names from the root, and a step along one part of a path.
abbrev pub Names : Type 0
Names = List Text

abbrev without_last : Names → Names
without_last [] = []
without_last (x ∷ []) = []
without_last (x ∷ y ∷ xs) = x ∷ without_last (y ∷ xs)

abbrev pub step_into : Names → Text → Names
step_into dir part =
    if is_empty part || text_eq part (codes ".")
    then dir
    else if text_eq part parent_part
    then without_last dir
    else dir ++ part ∷ []

abbrev pub walk : Names → List Text → Names
walk dir [] = dir
walk dir (part ∷ parts) = walk (step_into dir part) parts

abbrev pub home : Names
home = codes "home" ∷ codes "sandbox" ∷ []

-- What a path names: from the root if it is absolute, else from the workspace.
abbrev pub resolve : Text → Names
resolve path =
    if starts_with (codes "/") path then walk [] (split b'/' path) else walk home (split b'/' path)

abbrev IsNotParent : Text → Type 0
IsNotParent part = text_eq part parent_part ≡ false

-- Without `..` a walk only goes down.
walk-IsBelow :
    (dir : Names) (parts : List Text)
    → All IsNotParent parts
    → (rest : Names) × (walk dir parts ≡ dir ++ rest)
walk-IsBelow dir [] h = ([], sym (append-nil dir))
walk-IsBelow dir (part ∷ parts) (p, h) =
    elim (Bool-cases (is_empty part || text_eq part (codes "."))) [
      | inl stay ↦ let (rest, e) = walk-IsBelow dir parts h in (rest, rw stay e)
      | inr go ↦
          let (rest, e) = walk-IsBelow (dir ++ part ∷ []) parts h in
          (part ∷ rest, rw (go, p) (e ∙ append_assoc dir (part ∷ []) rest))
    ]

trim_keeps : (c : ℕ) (s : Text) → (c == b'/') ≡ false → trim_start_while is_slash (c ∷ s) ≡ c ∷ s
trim_keeps c s h = rw h

-- Leading slashes change neither a walk nor the parts that are not empty.
walk-trim :
    (dir : Names) (s : Text)
    → walk dir (split b'/' (trim_start_while is_slash s)) ≡ walk dir (split b'/' s)
walk-trim dir [] = refl
walk-trim dir (c ∷ s) = elim (Bool-cases (c == b'/')) [
  | inl slash ↦ rw slash (walk-trim dir s)
  | inr other ↦ ap (λ t. walk dir (split b'/' t)) (trim_keeps c s other)
]

parts-trim :
    (s : Text)
    → All IsNotParent (split b'/' s)
    → All IsNotParent (split b'/' (trim_start_while is_slash s))
parts-trim [] h = h
parts-trim (c ∷ s) h = elim (Bool-cases (c == b'/')) [
  | inl slash ↦ rw slash (parts-trim s (rw slash at h).1)
  | inr other ↦ subst (λ t. All IsNotParent (split b'/' t)) (sym (trim_keeps c s other)) h
]

-- The three forms of an accepted path.
abbrev HasForm : Text → Type 0
HasForm path =
    (starts_with (codes "/") path ≡ false)
    ⊎ (path ≡ workspace)
    ⊎ (starts_with workspace_slash path ≡ true)

absolute_cases :
    (a b c : Bool) → (a && not b && not c) ≡ false → (a ≡ false) ⊎ (b ≡ true) ⊎ (c ≡ true)
absolute_cases a b c h = ground arith

accepted_form : (path : Text) → invalid_absolute path ≡ false → HasForm path
unfolding invalid_absolute
accepted_form path h = elim (absolute_cases _ _ _ h) [
  | inl a ↦ inl a
  | inr (inl b) ↦ inr (inl ((text_eq_iff path workspace).0 b))
  | inr (inr c) ↦ inr (inr c)
]

accepted_parts : (path : Text) → has_parent_part path ≡ false → All IsNotParent (split b'/' path)
unfolding has_parent_part
accepted_parts path h = (any-eq-false_iff (λ part. text_eq part parent_part) (split b'/' path)).0 h

accepted_tests :
    (value path : Text)
    → new_sandbox_path value ≡ ok path
    → (path ≡ value)
      × (has_nul value ≡ false)
      × (has_parent_part value ≡ false)
      × (invalid_absolute value ≡ false)
unfolding new_sandbox_path
accepted_tests value path h = ground arith

below_relative : (path : Text) → starts_with (codes "/") path ≡ false → relative path ≡ path
unfolding relative
below_relative [] h = refl
below_relative (c ∷ s) h =
    let other : (b'/' == c) ≡ false = ground arith in
    let flipped : (c == b'/') ≡ false = ground arith in
    let same : below_workspace (c ∷ s) ≡ c ∷ s = ground arith in
    ap (trim_start_while is_slash) same ∙ trim_keeps c s flipped

-- What `relative` keeps: where the path leads, and that no part is `..`.
abbrev Keeps : Text → Type 0
Keeps path =
    (resolve path ≡ walk home (split b'/' (relative path)))
    × All IsNotParent (split b'/' (relative path))

relative_below : (rest : Text) → All IsNotParent (split b'/' rest) → Keeps (workspace_slash ++ rest)
unfolding relative
relative_below rest h = (sym (walk-trim home rest), parts-trim rest h)

relative_workspace : Keeps workspace
unfolding relative
relative_workspace = (refl, (refl, tt))

missing_prefix :
    (path : Text)
    → starts_with workspace_slash path ≡ true
    → strip_prefix workspace_slash path ≡ none
    → ⊥
missing_prefix path below missing = cc (sym below ∙ ap found missing)
  where
    found : Option Text → Bool
    found none = false
    found (some _) = true

walk_relative : (path : Text) → HasForm path → All IsNotParent (split b'/' path) → Keeps path
walk_relative path (inl plain) parts =
    let same = below_relative path plain in rw (same, plain) (refl, parts)
walk_relative path (inr (inl e)) parts = subst Keeps (sym e) relative_workspace
walk_relative path (inr (inr below)) parts =
    elim (Option-cases (strip_prefix workspace_slash path)) [
      | inl missing ↦ absurd (missing_prefix path below missing)
      | inr (rest, e) ↦
          let whole = strip_prefix-eq-some workspace_slash path rest e in
          let parts' : All IsNotParent (split b'/' (workspace_slash ++ rest)) =
            subst (λ t. All IsNotParent (split b'/' t)) whole parts in
          subst Keeps (sym whole) (relative_below rest parts'.1.1.1)
    ]

-- An accepted path is the value itself, holds no NUL, and names, by the reference resolution of `.`
-- and `..`, a place in the workspace: the one that walking from the workspace along its relative
-- form reaches.
pub accepted-IsInside :
    (value path : Text)
    → new_sandbox_path value ≡ ok path
    → (path ≡ value)
      × All (λ c. c ≢ 0) value
      × (resolve value ≡ walk home (split b'/' (relative path)))
      × (rest : Names) × (resolve value ≡ home ++ rest)
accepted-IsInside value path h =
    let (same, nul, parents, absolute) = accepted_tests value path h in
    let (leads, below) =
      walk_relative value (accepted_form value absolute) (accepted_parts value parents) in
    let (rest, inside) = walk-IsBelow home (split b'/' (relative value)) below in
    (same, (has_nul-eq-false_iff value).0 nul, rw same leads, rest, leads ∙ inside)
