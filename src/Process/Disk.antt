-- ===== src/Process/Disk.antt =====
-- The host's file system as crates/ferrobox-node/src/process_runtime.rs uses it: what stands at a
-- path, and what the operating system lets through. A path is the list of its names.
use mathlib.Core.Option
use ferrobox.Prelude.{
  ◌≡◌, refl, ◌↔◌, Bool, true, false, ◌&&◌, ◌||◌, Option, none, some, List, [], ◌∷◌, ◌++◌, arith,
  if◌then◌else◌, is_empty, any, Text, Bytes, codes, text_eq, text_eq_iff, split,
}

abbrev pub HostPath : Type 0
HostPath = List Text

pub data Node : Type 0 where
  missing symlink folder special unreadable : Node
  regular : Bytes → Node

-- `node` is what `symlink_metadata` finds; `children` the names in a folder, in the order that the
-- system gives them; `writable` and `removable` say whether a write or a removal goes through, and
-- `remains` what a removal that does not go through leaves of a path below its own.
pub record Disk : Type 0 where
  pub node : HostPath → Node
  pub children : HostPath → Option (List Text)
  pub writable : HostPath → Bool
  pub removable : HostPath → Bool
  pub remains : HostPath → HostPath → Bool

unfoldable pub path_eq : HostPath → HostPath → Bool
path_eq [] [] = true
path_eq [] (y ∷ q) = false
path_eq (x ∷ p) [] = false
path_eq (x ∷ p) (y ∷ q) = text_eq x y && path_eq p q

pub path_eq_iff : (p q : HostPath) → (path_eq p q ≡ true) ↔ (p ≡ q)
unfolding path_eq
path_eq_iff [] [] = ground arith
path_eq_iff [] (y ∷ q) = ground arith
path_eq_iff (x ∷ p) [] = ground arith
path_eq_iff (x ∷ p) (y ∷ q) = ground (arith, text_eq_iff x y, path_eq_iff p q)

-- The name of a path in a folder, if that is where it stands.
abbrev name_in : HostPath → HostPath → Option Text
name_in [] [] = none
name_in [] (part ∷ []) = some part
name_in [] (part ∷ next ∷ parts) = none
name_in (x ∷ dir) [] = none
name_in (x ∷ dir) (part ∷ parts) =
    let deeper = name_in dir parts in if text_eq x part then deeper else none

abbrev add_name : Text → List Text → List Text
add_name name names = if any (text_eq name) names then names else names ++ name ∷ []

-- The disk with something else at one path, which the folder above it then names.
unfoldable pub put_node : HostPath → Node → Disk → Disk
put_node path new_node d = record d {
  node = λ q. if path_eq path q then new_node else d.node q;
  children = λ q. elim (name_in q path) [
    | none ↦ d.children q
    | some name ↦ Option.map (add_name name) (d.children q)
  ];
}

-- A new folder, with nothing in it.
unfoldable pub put_folder : HostPath → Disk → Disk
put_folder path d = record (put_node path folder d) {
  children = λ q. if path_eq path q then some [] else (put_node path folder d).children q;
}

-- `create_dir_all`: the folders of a path that are missing, from the top.
unfoldable pub make_folders : HostPath → List Text → Disk → Disk
make_folders dir [] d = d
make_folders dir (part ∷ parts) d =
    let below = dir ++ part ∷ [] in
    make_folders below parts (elim (d.node below) [ missing ↦ put_folder below d | _ ↦ d ])

pub node-put_node :
    (path q : HostPath) (new_node : Node) (d : Disk)
    → (put_node path new_node d).node q ≡ (if path_eq path q then new_node else d.node q)
unfolding put_node
node-put_node path q new_node d = refl

-- `Path::components` of a relative path: empty parts go, and `.` goes unless it stands first.
abbrev pub later_components : List Text → List Text
later_components [] = []
later_components (part ∷ parts) =
    let rest = later_components parts in
    if is_empty part || text_eq part (codes ".") then rest else part ∷ rest

abbrev pub first_components : List Text → List Text
first_components [] = []
first_components (part ∷ parts) =
    if text_eq part (codes ".")
    then part ∷ later_components parts
    else later_components (part ∷ parts)

unfoldable pub components : Text → List Text
components s = first_components (split b'/' s)

-- `PathBuf::push`, where the system reads `.` as the directory itself.
abbrev pub push : HostPath → Text → HostPath
push dir part = if text_eq part (codes ".") then dir else dir ++ part ∷ []

abbrev pub push_all : HostPath → List Text → HostPath
push_all dir [] = dir
push_all dir (part ∷ parts) = push_all (push dir part) parts
