-- ===== src/Process/Lifecycle/Switching.antt =====
-- `pause` and `resume` of crates/ferrobox-node/src/process_runtime.rs.
-- What a switch of a sandbox between two states comes to: the answer, and each entry afterwards.
use ferrobox.Core.Error.{RuntimeError, conflict, not_found}
use ferrobox.Process.Runtime.{ProcessRuntime, ProcessSandbox}
use ferrobox.Process.Lifecycle.{pause, resume}
use ferrobox.Core.State.{SandboxState, is_paused, is_running, paused, running}
use ferrobox.Core.Spec.{SandboxId}
use ferrobox.Prelude.{
  ◌≡◌, refl, ◌≢◌, ◌↔◌, ◌⊎◌, inl, inr, true, none, some, arith, ◌==◌, if◌then◌else◌, Bool-cases,
  Option-cases, Result, lookup, lookup-insert, ok, err,
}

abbrev pub Switches :
    SandboxId
    → SandboxState
    → SandboxState
    → ProcessRuntime
    → Result RuntimeError (Unit {0}) × ProcessRuntime
    → Type 0
Switches id source target s (answer, t) =
    ((lookup id s.sandboxes ≡ none) × (answer ≡ err not_found) × (t ≡ s))
    ⊎ ((box : ProcessSandbox) × (lookup id s.sandboxes ≡ some box)
        × (((box.state ≢ source) × (answer ≡ err conflict) × (t ≡ s))
            ⊎ ((box.state ≡ source)
                × (answer ≡ ok tt)
                × (t.disk ≡ s.disk)
                × ((j : SandboxId)
                    → lookup j t.sandboxes ≡ (
                        if id == j
                        then some (record box { state = target })
                        else lookup j s.sandboxes)))))

running_iff : (state : SandboxState) → (is_running state ≡ true) ↔ (state ≡ running)
unfolding is_running
running_iff state = ground arith

paused_iff : (state : SandboxState) → (is_paused state ≡ true) ↔ (state ≡ paused)
unfolding is_paused
paused_iff state = ground arith

pause-Switches : (id : SandboxId) (s : ProcessRuntime) → Switches id running paused s (pause id s)
unfolding pause
pause-Switches id s = elim (Option-cases (lookup id s.sandboxes)) [
  | inl gone ↦ rw gone (inl (refl, refl, refl))
  | inr (box, found) ↦ elim (Bool-cases (is_running box.state)) [
    | inr idle ↦
        rw (found, idle)
          (inr (box, refl, inl (λ e. ground (arith, running_iff box.state), refl, refl)))
    | inl now ↦
        rw (found, now)
          (inr (
            box,
            refl,
            inr (
              (running_iff box.state).0 now,
              refl,
              refl,
              λ j. lookup-insert id j (record box { state = paused }) s.sandboxes,
            ),
          ))
  ]
]

resume-Switches : (id : SandboxId) (s : ProcessRuntime) → Switches id paused running s (resume id s)
unfolding resume
resume-Switches id s = elim (Option-cases (lookup id s.sandboxes)) [
  | inl gone ↦ rw gone (inl (refl, refl, refl))
  | inr (box, found) ↦ elim (Bool-cases (is_paused box.state)) [
    | inr busy ↦
        rw (found, busy)
          (inr (box, refl, inl (λ e. ground (arith, paused_iff box.state), refl, refl)))
    | inl now ↦
        rw (found, now)
          (inr (
            box,
            refl,
            inr (
              (paused_iff box.state).0 now,
              refl,
              refl,
              λ j. lookup-insert id j (record box { state = running }) s.sandboxes,
            ),
          ))
  ]
]

-- `pause` and `resume` of the process runtime. Either answers that there is no such sandbox exactly
-- where the table has none, and a conflict where its state is another than running or paused, and
-- then changes nothing; otherwise it answers success, the sandbox has the other of these states and
-- the same workspace, and every other entry and the disk are as they were.
pub pause_resume_lem :
    (id : SandboxId) (s : ProcessRuntime)
    → Switches id running paused s (pause id s) × Switches id paused running s (resume id s)
pause_resume_lem id s = (pause-Switches id s, resume-Switches id s)
