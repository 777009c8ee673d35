-- ===== src/Core/State.antt =====
-- `SandboxState` of crates/ferrobox-core/src/lib.rs and its table of allowed transitions.
pub mod Reach
use ferrobox.Prelude.{Bool, true, false}

pub data SandboxState : Type 0 where
  creating running pausing paused resuming deleting deleted failed : SandboxState

unfoldable pub can_transition_to : SandboxState → SandboxState → Bool
can_transition_to creating running = true
can_transition_to creating failed = true
can_transition_to creating deleting = true
can_transition_to running pausing = true
can_transition_to running deleting = true
can_transition_to running failed = true
can_transition_to pausing paused = true
can_transition_to pausing failed = true
can_transition_to pausing deleting = true
can_transition_to paused resuming = true
can_transition_to paused deleting = true
can_transition_to paused failed = true
can_transition_to resuming running = true
can_transition_to resuming failed = true
can_transition_to resuming deleting = true
can_transition_to failed deleting = true
can_transition_to deleting deleted = true
can_transition_to deleting failed = true
can_transition_to _ _ = false

-- `sandbox.state == …`
unfoldable pub is_running : SandboxState → Bool
is_running running = true
is_running _ = false

unfoldable pub is_paused : SandboxState → Bool
is_paused paused = true
is_paused _ = false
