-- ===== src/Process/Lifecycle/Roots.antt =====
-- What `create` and `delete` of crates/ferrobox-node/src/process_runtime.rs remove and leave.
use ferrobox.Prelude.{
  ◌||◌, not, codes, ◌++◌, ◌≡◌, refl, sym, ap, ◌∙◌, ◌≢◌, inl, inr, true, false, ◌&&◌, none, some, [],
  ◌∷◌, arith, ◌==◌, if◌then◌else◌, Bool-cases, length, length-append, Text, text_eq_iff, lookup,
  remove, lookup-remove, ok, err,
}
use mathlib.Core.List.{append_assoc}
use ferrobox.Core.Error.{not_found, internal}
use ferrobox.Core.Spec.{SandboxId}
use ferrobox.Process.Disk.{HostPath, missing, path_eq, path_eq_iff}
use ferrobox.Process.Runtime.{ProcessRuntime, ProcessSandbox}
use ferrobox.Process.Lifecycle.{parent, below, cleanup_target, workspace_of, delete}

parent-append : (p : HostPath) (name : Text) → parent (p ++ name ∷ []) ≡ some p
unfolding parent
parent-append [] name = refl
parent-append (part ∷ p) name = rw (parent-append p name) refl

pub below_append : (root p : HostPath) → below root (root ++ p) ≡ true
unfolding below
below_append [] p = refl
below_append (part ∷ root) p = ground (arith, below_append root p, text_eq_iff part part)

pub longer : (p : HostPath) (name : Text) → p ++ name ∷ [] ≢ p
longer p name e = let n = ap length e in omega (arith, n, length-append p (name ∷ []))

-- For the workspace that `create` gives a sandbox, the cleanup target of `delete` is the sandbox's own
-- folder directly below the root.
target_lem :
    (root : HostPath) (name : Text)
    → cleanup_target root (workspace_of root name) ≡ ok (root ++ name ∷ [])
unfolding cleanup_target workspace_of
target_lem root name =
    let home : parent (workspace_of root name) ≡ some (root ++ name ∷ codes "home" ∷ []) =
      ap parent (sym (append_assoc root (name ∷ codes "home" ∷ []) (codes "sandbox" ∷ [])))
      ∙ parent-append (root ++ name ∷ codes "home" ∷ []) (codes "sandbox") in
    let own : parent (root ++ name ∷ codes "home" ∷ []) ≡ some (root ++ name ∷ []) =
      ap parent (sym (append_assoc root (name ∷ []) (codes "home" ∷ [])))
      ∙ parent-append (root ++ name ∷ []) (codes "home") in
    let inside = below_append root (name ∷ []) in
    let other : path_eq (root ++ name ∷ []) root ≡ false =
      ground (arith, path_eq_iff (root ++ name ∷ []) root, longer root name) in
    rw (home, own, inside, other, cleanup_target) refl

-- Every sandbox has the folder `home/sandbox` in a folder directly below the root as its workspace.
abbrev pub IsHoused : ProcessRuntime → Type 0
IsHoused s =
    (id : SandboxId) (box : ProcessSandbox)
    → lookup id s.sandboxes ≡ some box
    → (name : Text) × (box.workspace ≡ s.root ++ name ∷ codes "home" ∷ codes "sandbox" ∷ [])

-- Where every sandbox has `home/sandbox` in a folder of its own directly below the root as its
-- workspace, a delete of one of them is never refused as unsafe: it answers success exactly if the operating system lets the sandbox's own
-- folder go, which stands directly below the root, and an internal error otherwise. Either way its
-- entry is gone and all the others stay, nothing changes on the disk but at and below that folder, of
-- which nothing is left if it could be removed and else what the removal has left, and the same
-- delete again answers that there is no such sandbox.
pub delete_lem :
    (s : ProcessRuntime) (id : SandboxId) (box : ProcessSandbox)
    → IsHoused s
    → lookup id s.sandboxes ≡ some box
    → let (answer, after) = delete id s in
      (name : Text) × (box.workspace ≡ s.root ++ name ∷ codes "home" ∷ codes "sandbox" ∷ [])
      × (answer ≡ (if s.disk.removable (s.root ++ name ∷ []) then ok tt else err internal))
      × ((other : SandboxId)
          → lookup other after.sandboxes ≡ (if id == other then none else lookup other s.sandboxes))
      × ((q : HostPath)
          → after.disk.node q ≡ (
              if below (s.root ++ name ∷ []) q
                && (s.disk.removable (s.root ++ name ∷ [])
                    || not (s.disk.remains (s.root ++ name ∷ []) q))
              then missing
              else s.disk.node q))
      × ((delete id after).0 ≡ err not_found)
unfolding delete workspace_of
delete_lem s id box housed found =
    let (name, home) = housed id box found in
    let target = target_lem s.root name in
    let gone : lookup id (remove id s.sandboxes) ≡ none =
      ground (arith, lookup-remove id id s.sandboxes) in
    elim (Bool-cases (s.disk.removable (s.root ++ name ∷ []))) [
      | inl free ↦ (
        name,
        home,
        rw (found, home, target, free) refl,
        λ other. rw (found, home, target, free) (lookup-remove id other s.sandboxes),
        λ q. elim (Bool-cases (below (s.root ++ name ∷ []) q)) [
          | inl inside ↦ rw (found, home, target, free, inside) refl
          | inr outside ↦ rw (found, home, target, free, outside) refl
        ],
        rw (found, home, target, free, gone) refl,
      )
      | inr kept ↦ (
        name,
        home,
        rw (found, home, target, kept) refl,
        λ other. rw (found, home, target, kept) (lookup-remove id other s.sandboxes),
        λ q. rw (found, home, target, kept) refl,
        rw (found, home, target, kept, gone) refl,
      )
    ]
