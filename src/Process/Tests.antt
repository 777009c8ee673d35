-- ===== src/Process/Tests.antt =====
-- Runs of the process runtime's definitions, and its theorems at concrete inputs.
use ferrobox.Process.Lifecycle.Switching.{Switches, pause_resume_lem}
use ferrobox.Prelude.{
  ◌||◌, ℕ, ◌+◌, ◌-◌, ◌≤◌, ◌≡◌, refl, ap, ◌↔◌, true, false, ◌&&◌, none, some, List, [], ◌∷◌, ◌++◌,
  arith, ltb, ◌==◌, if◌then◌else◌, length, take, Text, codes, lookup, ok, err,
}
use ferrobox.Core.Error.{internal, not_found}
use ferrobox.Core.Exec.{output_limit_exceeded, WriteFileRequest}
use ferrobox.Core.Paths.{relative, new_sandbox_path, invalid_absolute, has_parent_part}
use ferrobox.Core.State.{is_running, paused, running}
use ferrobox.Process.Disk.{HostPath, Disk, folder, missing, path_eq, components}
use ferrobox.Process.Runtime.{ProcessRuntime, ProcessSandbox, safe_path, inspect}
use ferrobox.Process.Runtime.SafePath.{IsSafe, safe_path_iff}
use ferrobox.Process.Output.{code, usual_termination, limit_output, limit_output_lem}
use ferrobox.Process.Files.{check_new_file, write, read, store, collect}
use ferrobox.Process.Files.Contents.{read_all, read_all-eq-drop, read-write}
use ferrobox.Process.Lifecycle.{below, delete, pause, resume, workspace_of}
use ferrobox.Process.Lifecycle.Roots.{IsHoused, delete_lem}
use ferrobox.Process.Lifecycle.History.{
  ProcessCall, write_call, pause_call, delete_call, serve_all, serve_all-IsHoused,
}

abbrev id : Text
id = codes "p"

cut : limit_output id 3 (code 0) (1 ∷ 2 ∷ []) (3 ∷ 4 ∷ []) ≡ record {
  process_id = id;
  termination = output_limit_exceeded;
  stdout = 1 ∷ 2 ∷ [];
  stderr = 3 ∷ [];
  truncation = record { stdout = false; stderr = true };
}
unfolding limit_output
cut = refl

limit_output_lem_example :
    let r = limit_output id 3 (code 0) (1 ∷ 2 ∷ []) (3 ∷ 4 ∷ []) in
    (length r.stdout + length r.stderr ≤ 3)
    × (r.stdout ≡ take 3 (1 ∷ 2 ∷ []))
    × (r.stderr ≡ take (3 - 2) (3 ∷ 4 ∷ []))
    × (r.termination ≡ (if ltb 3 4 then output_limit_exceeded else usual_termination (code 0)))
limit_output_lem_example = limit_output_lem id 3 (code 0) (1 ∷ 2 ∷ []) (3 ∷ 4 ∷ [])

abbrev root : HostPath
root = codes "srv" ∷ []

abbrev home : HostPath
home = codes "srv" ∷ codes "x" ∷ codes "home" ∷ codes "sandbox" ∷ []

abbrev note : HostPath
note = home ++ codes "a.txt" ∷ []

-- Folders everywhere, and nothing yet where the note goes.
abbrev disk : Disk
disk = record {
  node = λ q. if path_eq q note then missing else folder;
  children = λ q. some [];
  writable = λ q. true;
  removable = λ q. true;
  remains = λ p q. false;
}

abbrev box : ProcessSandbox
box = record { workspace = home; state = running }

abbrev one_box : ProcessRuntime
one_box = record {
  root = root;
  node_id = codes "n";
  sandboxes = (7, box) ∷ [];
  disk = disk;
  audit = [];
}

note_reached : safe_path disk home (codes "a.txt") true ≡ ok note
unfolding safe_path inspect components path_eq relative
note_reached = refl

safe_path_iff_example :
    (safe_path disk home (codes "a.txt") true ≡ ok note)
    ↔ IsSafe disk home (codes "a.txt") true note
safe_path_iff_example = safe_path_iff disk home (codes "a.txt") true note

abbrev hello : WriteFileRequest
hello = record { path = codes "a.txt"; contents = 104 ∷ 105 ∷ []; overwrite = false; mode = none }

hello_written : (write 7 hello one_box).0 ≡ ok 2
unfolding write check_new_file store safe_path inspect components path_eq lookup is_running relative
hello_written = refl

-- A slash at the end makes a folder of the path, which no file can be created as.
slash_at_the_end : (write 7 (record hello { path = codes "a.txt/" }) one_box).0 ≡ err internal
unfolding write check_new_file store safe_path inspect components path_eq lookup is_running relative
slash_at_the_end = refl

written : write 7 hello one_box ≡ (ok 2, (write 7 hello one_box).1)
written = ap (λ answer. (answer, (write 7 hello one_box).1)) hello_written

read-write_example :
    ((read 7
        (record { path = codes "a.txt"; offset = 0; max_bytes = 64 })
        (write 7 hello one_box).1).0
      ≡ ok (record { contents = 104 ∷ 105 ∷ []; eof = true }))
    × (2 ≡ length hello.contents)
read-write_example = read-write 7 hello one_box (write 7 hello one_box).1 2 64 written (omega arith)

read_all-eq-drop_example : read_all 4 (1 ∷ 2 ∷ 3 ∷ []) 2 0 ≡ some (1 ∷ 2 ∷ 3 ∷ [])
read_all-eq-drop_example =
    read_all-eq-drop (1 ∷ 2 ∷ 3 ∷ []) 2 (omega arith) (omega arith) 4 0 (omega arith) (omega arith)

-- The empty path is a valid one, yet a folder that it lists has entries whose paths are not.
empty_path_listing : collect [] 0 ((codes "a.txt", folder) ∷ []) ≡ err internal
unfolding collect new_sandbox_path invalid_absolute has_parent_part
empty_path_listing = refl

one_box-IsHoused : IsHoused one_box
unfolding lookup workspace_of
one_box-IsHoused id held found = (codes "x", ground arith)

one_box_held : lookup 7 one_box.sandboxes ≡ some box
unfolding lookup
one_box_held = refl

pause_resume_lem_example :
    Switches 7 running paused one_box (pause 7 one_box)
    × Switches 7 paused running one_box (resume 7 one_box)
pause_resume_lem_example = pause_resume_lem 7 one_box

delete_lem_example :
    let (answer, after) = delete 7 one_box in
    (name : Text) × (home ≡ root ++ name ∷ codes "home" ∷ codes "sandbox" ∷ [])
    × (answer ≡ (if true then ok tt else err internal))
    × ((other : ℕ)
        → lookup other after.sandboxes
          ≡ (if 7 == other then none else lookup other one_box.sandboxes))
    × ((q : HostPath)
        → after.disk.node q
          ≡ (if below (root ++ name ∷ []) q && (true || true) then missing else disk.node q))
    × ((delete 7 after).0 ≡ err not_found)
delete_lem_example = delete_lem one_box 7 box one_box-IsHoused one_box_held

abbrev calls : List ProcessCall
calls = write_call 7 hello ∷ pause_call 7 ∷ delete_call 7 ∷ []

serve_all-IsHoused_example :
    IsHoused (serve_all calls one_box) × ((serve_all calls one_box).root ≡ root)
serve_all-IsHoused_example = serve_all-IsHoused calls one_box one_box-IsHoused
