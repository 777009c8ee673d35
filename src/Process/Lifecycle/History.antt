-- ===== src/Process/Lifecycle/History.antt =====
-- Sequences of calls of crates/ferrobox-node/src/process_runtime.rs.
use ferrobox.Prelude.{
  codes, ◌++◌, ◌≡◌, refl, sym, ap, ◌∙◌, ◌⊎◌, inl, inr, some, List, [], ◌∷◌, arith, ◌==◌, Bool-cases,
  Option-cases, Text, lookup, insert, lookup-remove, lookup-insert,
}
use ferrobox.Core.Spec.{SandboxId, SandboxSpec}
use ferrobox.Process.Disk.{HostPath}
use ferrobox.Process.Runtime.{ProcessRuntime, ProcessSandbox}
use ferrobox.Process.Output.{CommandOutcome}
use ferrobox.Core.Paths.{SandboxPath}
use ferrobox.Core.State.{SandboxState, running, paused, is_running, is_paused}
use ferrobox.Core.Exec.{ExecRequest, WriteFileRequest, ReadFileRequest}
use ferrobox.Process.Files.{execute, conclude, write, read, list}
use ferrobox.Process.Lifecycle.{workspace_of, create, pause, resume, delete}
use ferrobox.Process.Lifecycle.Roots.{IsHoused}

-- A call of the runtime, with the identifier and the name that a create draws.
pub data ProcessCall : Type 0 where
  create_call : SandboxId → Text → SandboxSpec → ProcessCall
  pause_call resume_call delete_call : SandboxId → ProcessCall
  execute_call :
      Text → (HostPath → ExecRequest → CommandOutcome) → SandboxId → ExecRequest → ProcessCall
  write_call : SandboxId → WriteFileRequest → ProcessCall
  read_call : SandboxId → ReadFileRequest → ProcessCall
  list_call : SandboxId → SandboxPath → ProcessCall

abbrev pub serve : ProcessCall → ProcessRuntime → ProcessRuntime
serve (create_call id name spec) s = (create id name spec s).1
serve (pause_call id) s = (pause id s).1
serve (resume_call id) s = (resume id s).1
serve (delete_call id) s = (delete id s).1
serve (execute_call uuid run id request) s = (execute uuid run id request s).1
serve (write_call id request) s = (write id request s).1
serve (read_call id request) s = (read id request s).1
serve (list_call id path) s = (list id path s).1

abbrev pub serve_all : List ProcessCall → ProcessRuntime → ProcessRuntime
serve_all [] s = s
serve_all (c ∷ calls) s = serve_all calls (serve c s)

abbrev KeepsBoxes : ProcessRuntime → ProcessRuntime → Type 0
KeepsBoxes s after = (after.root ≡ s.root) × (after.sandboxes ≡ s.sandboxes)

execute-KeepsBoxes :
    (uuid : Text) (run : HostPath → ExecRequest → CommandOutcome) (id : SandboxId)
    (request : ExecRequest) (s : ProcessRuntime)
    → KeepsBoxes s (execute uuid run id request s).1
unfolding execute conclude
execute-KeepsBoxes uuid run id request s = ground arith

write-KeepsBoxes :
    (id : SandboxId) (request : WriteFileRequest) (s : ProcessRuntime)
    → KeepsBoxes s (write id request s).1
unfolding write
write-KeepsBoxes id request s = ground arith

read-KeepsBoxes :
    (id : SandboxId) (request : ReadFileRequest) (s : ProcessRuntime)
    → KeepsBoxes s (read id request s).1
unfolding read
read-KeepsBoxes id request s = ground arith

list-KeepsBoxes :
    (id : SandboxId) (path : SandboxPath) (s : ProcessRuntime) → KeepsBoxes s (list id path s).1
unfolding list
list-KeepsBoxes id path s = ground arith

-- Every sandbox afterwards has a new workspace below the root, or is one that was
-- there, with the workspace it had.
abbrev Moves : ProcessRuntime → ProcessRuntime → Type 0
Moves s after =
    (after.root ≡ s.root)
    × ((id : SandboxId) (box : ProcessSandbox)
        → lookup id after.sandboxes ≡ some box
        → ((name : Text) × (box.workspace ≡ s.root ++ name ∷ codes "home" ∷ codes "sandbox" ∷ []))
          ⊎ ((old : ProcessSandbox) × (lookup id s.sandboxes ≡ some old)
              × (box.workspace ≡ old.workspace)))

KeepsBoxes-Moves : (s after : ProcessRuntime) → KeepsBoxes s after → Moves s after
KeepsBoxes-Moves s after (root, boxes) =
    (root, λ id box h. inr (box, ap (lookup id) (sym boxes) ∙ h, refl))

create-Moves :
    (id : SandboxId) (name : Text) (spec : SandboxSpec) (s : ProcessRuntime)
    → Moves s (create id name spec s).1
unfolding create workspace_of
create-Moves id name spec s = (
  ground arith,
  λ j box h.
      let new : ProcessSandbox = record { workspace = workspace_of s.root name; state = running } in
      let cases : (box ≡ new) ⊎ (lookup j s.sandboxes ≡ some box) =
        ground (arith, lookup-insert id j new s.sandboxes) in
      elim cases [ inl e ↦ inl (name, ap (λ b. b.workspace) e) | inr e ↦ inr (box, e, refl) ],
)

-- `pause` and `resume`
switch_lem :
    (id j : SandboxId) (old box : ProcessSandbox) (state : SandboxState) (s : ProcessRuntime)
    → lookup id s.sandboxes ≡ some old
    → lookup j (insert id (record old { state = state }) s.sandboxes) ≡ some box
    → (found : ProcessSandbox) × (lookup j s.sandboxes ≡ some found)
      × (box.workspace ≡ found.workspace)
switch_lem id j old box state s held h =
    let new : ProcessSandbox = record old { state = state } in
    let there = lookup-insert id j new s.sandboxes in
    elim (Bool-cases (id == j)) [
      | inl same ↦ (
        old,
        ground (arith, there),
        ap (λ b. b.workspace) (let e : box ≡ new = ground (arith, there) in e),
      )
      | inr other ↦ (box, ground (arith, there), refl)
    ]

pause-Moves : (id : SandboxId) (s : ProcessRuntime) → Moves s (pause id s).1
unfolding pause
pause-Moves id s = (
  ground arith,
  λ j box h. elim (Option-cases (lookup id s.sandboxes)) [
    | inl absent ↦ inr (box, ground arith, refl)
    | inr (old, held) ↦ elim (Bool-cases (is_running old.state)) [
      | inl fits ↦ inr (switch_lem id j old box paused s held (ground arith))
      | inr not_now ↦ inr (box, ground arith, refl)
    ]
  ],
)

resume-Moves : (id : SandboxId) (s : ProcessRuntime) → Moves s (resume id s).1
unfolding resume
resume-Moves id s = (
  ground arith,
  λ j box h. elim (Option-cases (lookup id s.sandboxes)) [
    | inl absent ↦ inr (box, ground arith, refl)
    | inr (old, held) ↦ elim (Bool-cases (is_paused old.state)) [
      | inl fits ↦ inr (switch_lem id j old box running s held (ground arith))
      | inr not_now ↦ inr (box, ground arith, refl)
    ]
  ],
)

delete-Moves : (id : SandboxId) (s : ProcessRuntime) → Moves s (delete id s).1
unfolding delete
delete-Moves id s =
    (ground arith, λ j box h. inr (box, ground (arith, lookup-remove id j s.sandboxes), refl))

serve-Moves : (c : ProcessCall) (s : ProcessRuntime) → Moves s (serve c s)
serve-Moves (create_call id name spec) s = create-Moves id name spec s
serve-Moves (pause_call id) s = pause-Moves id s
serve-Moves (resume_call id) s = resume-Moves id s
serve-Moves (delete_call id) s = delete-Moves id s
serve-Moves (execute_call uuid run id request) s =
    KeepsBoxes-Moves s (execute uuid run id request s).1 (execute-KeepsBoxes uuid run id request s)
serve-Moves (write_call id request) s =
    KeepsBoxes-Moves s (write id request s).1 (write-KeepsBoxes id request s)
serve-Moves (read_call id request) s =
    KeepsBoxes-Moves s (read id request s).1 (read-KeepsBoxes id request s)
serve-Moves (list_call id path) s =
    KeepsBoxes-Moves s (list id path s).1 (list-KeepsBoxes id path s)

Moves-IsHoused : (s after : ProcessRuntime) → Moves s after → IsHoused s → IsHoused after
Moves-IsHoused s after (root, moved) housed id box h = elim (moved id box h) [
  | inl (name, e) ↦ (name, e ∙ ap (λ r. r ++ name ∷ codes "home" ∷ codes "sandbox" ∷ []) (sym root))
  | inr (old, held, e) ↦
      let (name, home) = housed id old held in
      (name, e ∙ home ∙ ap (λ r. r ++ name ∷ codes "home" ∷ codes "sandbox" ∷ []) (sym root))
]

-- No sequence of calls, with any outcome each, takes a sandbox out of the root: if every sandbox has
-- `home/sandbox` in a folder directly below the root as its workspace, then so does every sandbox
-- after the calls, and the root is the same.
pub serve_all-IsHoused :
    (calls : List ProcessCall) (s : ProcessRuntime)
    → IsHoused s
    → IsHoused (serve_all calls s) × ((serve_all calls s).root ≡ s.root)
serve_all-IsHoused [] s housed = (housed, refl)
serve_all-IsHoused (c ∷ calls) s housed =
    let moved = serve-Moves c s in
    let (later, root) =
      serve_all-IsHoused calls (serve c s) (Moves-IsHoused s (serve c s) moved housed) in
    (later, root ∙ moved.0)
