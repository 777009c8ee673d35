-- ===== src/Firecracker/Lifecycle/Switching.antt =====
-- `pause` and `resume` of crates/ferrobox-node/src/firecracker_runtime.rs.
-- A call that the host answers with success, after some calls before it.
use ferrobox.Firecracker.Steps.{◌>>◌, expect}
use ferrobox.Firecracker.Boot.Steady.{wait_for_guest-IsCalm}
use ferrobox.Core.Error.{RuntimeError, conflict, not_found}
use ferrobox.Firecracker.Steps.Calm.{IsCalm, calm_rules}
use ferrobox.Firecracker.Lifecycle.{wake}
use ferrobox.Core.State.{SandboxState}
use ferrobox.Core.Spec.{SandboxId}
use ferrobox.Firecracker.Host.{
  Call, FirecrackerRuntime, FirecrackerSandbox, History, Host, VmState, api, is_done, set_vm_state,
  vm_resumed,
}
use ferrobox.Prelude.{
  ◌≡◌, refl, ◌≢◌, ◌⊎◌, inl, inr, true, false, none, some, ◌==◌, if◌then◌else◌, Bool-cases, Result,
  is_ok, lookup, ok, err,
}

abbrev pub Answered : Host → Call → Type 0
Answered host call = (h : History) × (is_done (host.reply h call) ≡ true)

-- What a switch of a sandbox between two states comes to, with the state that the machine is told.
abbrev pub Switches :
    SandboxId
    → SandboxState
    → SandboxState
    → VmState
    → Host
    → FirecrackerRuntime
    → Result RuntimeError (Unit {0}) × FirecrackerRuntime
    → Type 0
Switches id source target told host s (ok _, t) =
    (box : FirecrackerSandbox) × (lookup id s.sandboxes ≡ some box)
    × (box.state ≡ source)
    × (is_done (host.reply s.calls (api box.jailer_id (set_vm_state told))) ≡ true)
    × ((j : SandboxId)
        → lookup j t.sandboxes
          ≡ (if id == j then some (record box { state = target }) else lookup j s.sandboxes))
Switches id source target told host s (err e, t) =
    (t.sandboxes ≡ s.sandboxes)
    × (((lookup id s.sandboxes ≡ none) × (e ≡ not_found) × (t.calls ≡ s.calls))
        ⊎ ((box : FirecrackerSandbox) × (lookup id s.sandboxes ≡ some box)
            × (((box.state ≢ source) × (e ≡ conflict) × (t.calls ≡ s.calls))
                ⊎ (box.state ≡ source))))

pub wake-IsCalm : (host : Host) (box : FirecrackerSandbox) → IsCalm (wake host box)
unfolding wake
wake-IsCalm host box = search (calm_rules, wait_for_guest-IsCalm)

module _ (host : Host) (id : SandboxId) (s : FirecrackerRuntime) where
  pub wake-told :
      (box : FirecrackerSandbox)
      → (is_ok (wake host box s).0 ≡ false)
        ⊎ (is_done (host.reply s.calls (api box.jailer_id (set_vm_state vm_resumed))) ≡ true)
  unfolding wake expect ◌>>◌
  wake-told box =
      elim (Bool-cases
        (is_done (host.reply s.calls (api box.jailer_id (set_vm_state vm_resumed))))) [
          | inl answered ↦ inr answered
          | inr failed ↦ inl (rw failed refl)
        ]
