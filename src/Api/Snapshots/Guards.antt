-- ===== src/Api/Snapshots/Guards.antt =====
-- What the snapshot handlers of crates/ferrobox-api/src/lib.rs refuse.
use ferrobox.Prelude.{ℕ, ◌≡◌, true, Option, some, in_range, Text, ok, err}
use ferrobox.Core.Spec.{SnapshotId}
use ferrobox.Core.Runtime.{SandboxRuntime}
use ferrobox.Api.Types.{ApiError, Env, AppState}
use ferrobox.Api.Auth.{authorize_snapshot, validate_ttl}
use ferrobox.Api.Snapshots.{
  get_snapshot, verify_snapshot, restore_snapshot, clone_snapshot, delete_snapshot,
}

module _ {W : Type 0} (env : Env) (runtime : SandboxRuntime W) (text : Text)
    (authorization : Option Text) where
  -- A request for a snapshot that is not let in gets that error, and neither the records nor the
  -- runtime nor the audit log see anything of it: so for inspection, verification and deletion, and,
  -- with a time to live and a count that are in range, for restoring and cloning.
  pub snapshot_refused_changes_nothing :
      (id : SnapshotId) (e : ApiError) (ttl copies : ℕ) (s : AppState W)
      → env.parse_uuid text ≡ some id
      → authorize_snapshot env id authorization s ≡ err e
      → validate_ttl ttl ≡ ok tt
      → in_range 1 32 copies ≡ true
      → (get_snapshot env runtime text authorization s ≡ (err e, s))
        × (verify_snapshot env runtime text authorization s ≡ (err e, s))
        × (delete_snapshot env runtime text authorization s ≡ (err e, s))
        × ((token : Text)
            → restore_snapshot env runtime token text authorization ttl s ≡ (err e, s))
        × ((tokens : ℕ → Text)
            → clone_snapshot env runtime tokens text authorization copies ttl s ≡ (err e, s))
  unfolding get_snapshot verify_snapshot delete_snapshot restore_snapshot clone_snapshot
  snapshot_refused_changes_nothing id e ttl copies s parsed refused lives counted = (
    rw (parsed, refused),
    rw (parsed, refused),
    rw (parsed, refused),
    λ token. rw (parsed, lives, refused),
    λ tokens. rw (parsed, lives, counted, refused),
  )
