-- ===== src/Firecracker/Boot/Arrival.antt =====
-- The loop of `initialize_guest` in crates/ferrobox-node/src/firecracker_runtime.rs comes to an end
-- that the guest's progress decides.
use ferrobox.Firecracker.Boot.{
  initialize_guest, is_unavailable, poll_guest, poll_init, status, wait_for_guest,
}
use ferrobox.Core.Spec.{SandboxId}
use ferrobox.Firecracker.Host.{
  Call, FirecrackerRuntime, GuestNetworkConfig, History, Host, NetworkLease, code_unavailable, done,
  from_lease, health, init_guest, is_done,
}
use ferrobox.Prelude.{
  ℕ, zero, suc, ◌+◌, ◌≤◌, ◌<◌, ◌≡◌, refl, inl, inr, true, Option, [], ◌∷◌, arith, leb, ◌==◌,
  if◌then◌else◌, Bool-cases, Text, ok,
}
use ferrobox.Firecracker.Steps.{pure, gets, attempt, branch, ◌>>=◌, ask}

-- How often a guest was asked to take its identity.
abbrev pub tries_of : Call → SandboxId → ℕ
tries_of (init_guest jail id token network) j = if jail == j then 1 else 0
tries_of _ j = 0

unfoldable pub tries : SandboxId → History → ℕ
tries j [] = 0
tries j ((call, reply) ∷ h) = tries_of call j + tries j h

module _ (host : Host) (id : SandboxId) where
  -- A guest that answers whenever it is asked whether it is there, and takes an identity once it has
  -- put that off a number of times.
  pub record IsComing (delay : ℕ) : Type 0 where
    pub awake : (h : History) → is_done (host.reply h (health id)) ≡ true
    pub patient : (h : History) → 0 < host.rounds h
    pub puts_off :
        (h : History) (token : Text) (network : GuestNetworkConfig)
        → tries id h < delay
        → host.reply h (init_guest id id token network) ≡ status code_unavailable
    pub takes :
        (h : History) (token : Text) (network : GuestNetworkConfig)
        → delay ≤ tries id h
        → host.reply h (init_guest id id token network) ≡ done

  met_at_once :
      (n : ℕ) (s : FirecrackerRuntime)
      → 0 < n
      → is_done (host.reply s.calls (health id)) ≡ true
      → poll_guest host n id s
        ≡ (ok tt, record s { calls = (health id, host.reply s.calls (health id)) ∷ s.calls })
  unfolding poll_guest ◌>>=◌ ask branch pure
  met_at_once zero s some_time there = absurd (ground arith)
  met_at_once (suc n) s some_time there = rw there refl

  poll_init_lem :
      (delay n : ℕ) (token : Text) (network : GuestNetworkConfig) (s : FirecrackerRuntime)
      → IsComing delay
      → 0 < n
      → delay < n + tries id s.calls
      → (poll_init host n id token network s).0 ≡ ok tt
  unfolding poll_init wait_for_guest ◌>>=◌ ask branch pure gets attempt is_done is_unavailable tries
  poll_init_lem delay zero token network s coming some_time enough = absurd (ground arith)
  poll_init_lem delay (suc n) token network s coming some_time enough =
      let met =
        met_at_once (host.rounds s.calls) s (coming.patient s.calls) (coming.awake s.calls) in
      let h : History = (health id, host.reply s.calls (health id)) ∷ s.calls in
      elim (Bool-cases (leb delay (tries id s.calls))) [
        | inl ready ↦ rw (met, coming.takes h token network (ground arith)) refl
        | inr early ↦
            let next =
              poll_init_lem delay n token network
                (record s { calls = (init_guest id id token network, status code_unavailable) ∷ h })
                coming (ground arith) (ground arith) in
            rw (met, coming.puts_off h token network (ground arith)) next
      ]

  -- A guest that is there, and takes its identity once it has put that off a number of times, gets
  -- it, if the clock allows more rounds than that: the loop does not give up before and does not go
  -- on forever.
  pub initialize_guest_lem :
      (delay : ℕ) (token : Text) (network : Option NetworkLease) (s : FirecrackerRuntime)
      → IsComing delay
      → delay < host.rounds s.calls
      → (initialize_guest host id token network s).0 ≡ ok tt
  unfolding initialize_guest ◌>>=◌ gets
  initialize_guest_lem delay token network s coming enough =
      poll_init_lem delay (host.rounds s.calls) token (from_lease network) s coming
        (coming.patient s.calls) (ground arith)
