-- ===== src/Firecracker/Rollback/Exchange.antt =====
-- What `rollback_snapshot` of crates/ferrobox-node/src/firecracker_runtime.rs exchanges.
use ferrobox.Firecracker.Boot.Steady.{rekey_connected_guest-IsCalm}
use ferrobox.Firecracker.Snapshots.AllOrNothing.{IsRestored}
use ferrobox.Firecracker.Boot.{rekey_connected_guest}
use ferrobox.Firecracker.Steps.Calm.{IsSteady}
use ferrobox.Core.Exec.{SandboxHandle}
use ferrobox.Firecracker.Rollback.{rename_replacement}
use ferrobox.Core.State.{running}
use ferrobox.Core.Error.{RuntimeError}
use ferrobox.Firecracker.Host.Inventory.{is_live, was_spawned, is_emptied}
use ferrobox.Core.Spec.{SandboxId, SandboxSpec, SnapshotId}
use ferrobox.Firecracker.Host.{
  FirecrackerConfig, FirecrackerRuntime, FirecrackerSandbox, Host, SnapshotArtifact, from_lease,
}
use ferrobox.Firecracker.Cleanup.Draining.{group_of}
use ferrobox.Prelude.{
  ◌≡◌, refl, ap, ◌≢◌, inl, inr, true, false, some, ◌==◌, if◌then◌else◌, Result, Result-cases, Table,
  lookup, insert, ok, err,
}
use ferrobox.Firecracker.Steps.{pure, gets, modify, ◌>>=◌, ◌>>◌}

-- A table that other tasks leave alone.
abbrev pub undisturbed : Table FirecrackerSandbox → Table FirecrackerSandbox
undisturbed table = table

-- The machine of every sandbox was started under an identifier that was drawn.
abbrev pub IsJailed : FirecrackerRuntime → Type 0
IsJailed s =
    (j : SandboxId) (box : FirecrackerSandbox)
    → lookup j s.sandboxes ≡ some box
    → was_spawned box.jailer_id s.calls ≡ true

abbrev pub RenameEnds :
    SandboxId
    → FirecrackerSandbox
    → FirecrackerRuntime
    → Result RuntimeError FirecrackerSandbox × FirecrackerRuntime
    → Type 0
RenameEnds new_id box t (ok renamed, u) =
    (renamed.jailer_id ≡ box.jailer_id)
    × (renamed.state ≡ box.state)
    × (renamed.spec ≡ box.spec)
    × (u.sandboxes ≡ insert new_id renamed t.sandboxes)
    × (u.snapshots ≡ t.snapshots)
    × (u.ready_pool ≡ t.ready_pool)
    × ((j : SandboxId) → is_live j u.calls ≡ is_live j t.calls)
RenameEnds new_id box t (err e, u) = IsSteady t u

module _ (config : FirecrackerConfig) (host : Host) (id new_id : SandboxId) where
  pub rename_lem :
      (box : FirecrackerSandbox) (t : FirecrackerRuntime)
      → RenameEnds new_id box t (rename_replacement config host id new_id box t)
  unfolding rename_replacement ◌>>=◌ ◌>>◌ gets modify pure
  rename_lem box t =
      let token = host.fresh_token t.calls in
      let rekeyed =
        rekey_connected_guest host box.jailer_id id box.guest_token token (from_lease box.network)
          t in
      let (a, b, c, l, h, w) =
        (rekey_connected_guest-IsCalm host box.jailer_id id box.guest_token token
            (from_lease box.network)).at
          t in
      elim (Result-cases rekeyed.0) [
        | inl (_, fine) ↦
            let whole : rekeyed ≡ (ok tt, rekeyed.1) = ap (λ r. (r, rekeyed.1)) fine in
            rw whole (refl, refl, refl, ap (insert new_id _) a, b, c, l)
        | inr (e, failure) ↦
            let whole : rekeyed ≡ (err e, rekeyed.1) = ap (λ r. (r, rekeyed.1)) failure in
            rw whole (a, b, c, l, h, w)
      ]

-- After a rollback that went well: the sandbox has another jailer process, and the control group of
-- the old one was emptied.
pub record IsExchanged (host : Host) (spec : SandboxSpec) (id : SandboxId)
    (source : FirecrackerSandbox) (s t : FirecrackerRuntime) : Type 0 where
  pub box : FirecrackerSandbox
  pub is_running_now : box.state ≡ running
  pub its_spec : box.spec ≡ spec
  pub entries :
      (j : SandboxId) → lookup j t.sandboxes ≡ (if id == j then some box else lookup j s.sandboxes)
  pub snapshots : t.snapshots ≡ s.snapshots
  pub ready_pool : t.ready_pool ≡ s.ready_pool
  pub other_machine : source.jailer_id ≢ box.jailer_id
  pub emptied : is_emptied (group_of host source.jailer_id) t.calls ≡ true
  pub live :
      (j : SandboxId)
      → is_live j t.calls ≡ (
          if source.jailer_id == j
          then false
          else if box.jailer_id == j
          then true
          else is_live j s.calls)

abbrev pub RollbackEnds :
    FirecrackerConfig
    → Host
    → SandboxId
    → SnapshotId
    → FirecrackerRuntime
    → Result RuntimeError SandboxHandle × FirecrackerRuntime
    → Type 0
RollbackEnds config host id snapshot s (ok handle, t) =
    (handle ≡ record { sandbox_id = id; node_id = config.node_id; state = running })
    × (source : FirecrackerSandbox) × (lookup id s.sandboxes ≡ some source)
    × (artifact : SnapshotArtifact) × (lookup snapshot s.snapshots ≡ some artifact)
    × (artifact.handle.source_sandbox_id ≡ id)
    × IsExchanged host artifact.handle.spec id source s t
RollbackEnds config host id snapshot s (err e, t) = IsRestored s t
