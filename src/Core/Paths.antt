-- ===== src/Core/Paths.antt =====
-- `SandboxPath` of crates/ferrobox-core/src/lib.rs: the paths that a client may name.
pub mod Laws
use ferrobox.Prelude.{
  ℕ, Bool, not, ◌&&◌, ◌||◌, Option, none, some, Text, Result, ok, err, ◌==◌, if◌then◌else◌, any,
  has_nul, codes, text_eq, strip_prefix, starts_with, split, trim_start_while,
}
use ferrobox.Core.Error.{ValidationError, sandbox_path}

abbrev pub SandboxPath : Type 0
SandboxPath = Text

-- `SandboxPath::workspace`
abbrev pub workspace : SandboxPath
workspace = codes "/home/sandbox"

abbrev pub workspace_slash : Text
workspace_slash = codes "/home/sandbox/"

abbrev pub parent_part : Text
parent_part = codes ".."

-- `value.split('/').any(|part| part == "..")`
unfoldable pub has_parent_part : Text → Bool
has_parent_part value = any (λ part. text_eq part parent_part) (split b'/' value)

unfoldable pub invalid_absolute : Text → Bool
invalid_absolute value =
    starts_with (codes "/") value
    && not (text_eq value workspace)
    && not (starts_with workspace_slash value)

-- `SandboxPath::new`
unfoldable pub new_sandbox_path : Text → Result ValidationError SandboxPath
new_sandbox_path value =
    if has_nul value || has_parent_part value || invalid_absolute value
    then err sandbox_path
    else ok value

abbrev pub is_slash : ℕ → Bool
is_slash c = c == b'/'

-- `strip_prefix(..).or_else(..).unwrap_or(..)` of `relative`
abbrev pub below_workspace : SandboxPath → Text
below_workspace path = elim (strip_prefix workspace_slash path) [
  | some rest ↦ rest
  | none ↦ elim (strip_prefix workspace path) [ some rest ↦ rest | none ↦ path ]
]

-- `SandboxPath::relative`
unfoldable pub relative : SandboxPath → Text
relative path = trim_start_while is_slash (below_workspace path)
