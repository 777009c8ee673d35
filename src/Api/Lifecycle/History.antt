-- ===== src/Api/Lifecycle/History.antt =====
-- Sequences of requests to the API.
use ferrobox.Prelude.{Option, List, [], ◌∷◌, Text}
use ferrobox.Core.Spec.{SandboxId}
use ferrobox.Core.Runtime.{SandboxRuntime}
use ferrobox.Api.Types.{Env, AppState}
use ferrobox.Api.Lifecycle.{pause_sandbox, resume_sandbox, delete_sandbox, reap}
use ferrobox.Api.Lifecycle.Evolution.{
  Follows, Follows-refl, Follows-trans, Safe-pause, Safe-resume, Safe-delete, reap-Follows,
}

-- A request that may change the state of a sandbox that is there, or its reaper's turn.
pub data LifecycleCall : Type 0 where
  pauses resumes deletes : Text → Option Text → LifecycleCall
  expires : SandboxId → LifecycleCall

module _ {W : Type 0} (runtime : SandboxRuntime W) where
  abbrev pub serve : AppState W → Env × LifecycleCall → AppState W
  serve s (env, pauses id a) = (pause_sandbox env runtime id a s).1
  serve s (env, resumes id a) = (resume_sandbox env runtime id a s).1
  serve s (env, deletes id a) = (delete_sandbox env runtime id a s).1
  serve s (env, expires id) = reap env runtime id s

  abbrev pub serve_all : AppState W → List (Env × LifecycleCall) → AppState W
  serve_all s [] = s
  serve_all s (c ∷ cs) = serve_all (serve s c) cs

  serve-Follows : (s : AppState W) (c : Env × LifecycleCall) → Follows s (serve s c)
  serve-Follows s (env, pauses id a) = (Safe-pause env runtime id a).follows s
  serve-Follows s (env, resumes id a) = (Safe-resume env runtime id a).follows s
  serve-Follows s (env, deletes id a) = (Safe-delete env runtime id a).follows s
  serve-Follows s (env, expires id) = reap-Follows env runtime id s

  -- Whatever pauses, resumes, deletions and expiries are served one after another, at whatever
  -- times, with or without authority and whatever the runtime answers: as long as a sandbox has a
  -- record, it keeps its token and its deadline, and its state moves only along chains of allowed
  -- transitions; and no record appears, so that one that has left the table does not come back.
  pub serve_all-Follows :
      (s : AppState W) (cs : List (Env × LifecycleCall)) → Follows s (serve_all s cs)
  serve_all-Follows s [] = Follows-refl s
  serve_all-Follows s (c ∷ cs) =
      Follows-trans s (serve s c) _ (serve-Follows s c) (serve_all-Follows (serve s c) cs)
