-- ===== src/Firecracker/Steps/Calm.antt =====
-- The steps of crates/ferrobox-node/src/firecracker_runtime.rs that neither start nor end a machine,
-- neither take nor release a lease, and change no table: a rule for each way to build one.
use ferrobox.Firecracker.Steps.{
  branch, clean_after, gets, lift, on_failure, pure, raise, refuse_if, ◌>>=◌, ◌>>◌, Firecracker,
  ask, attempt, expect,
}
use ferrobox.Core.Error.{RuntimeError}
use ferrobox.Firecracker.Host.Inventory.{
  held_after, is_held, is_live, live_after, spawned_by, was_spawned,
}
use ferrobox.Process.Disk.{HostPath}
use ferrobox.Core.Spec.{SandboxId, SnapshotId}
use ferrobox.Firecracker.Host.{
  ApiRequest, Call, FirecrackerRuntime, GuestNetworkConfig, Host, Reply, SnapshotArtifact,
  StageRequest, api, api_version, change_mode, change_owner, clone_asset, clone_disk, copy_file,
  create_folder, delete_artifact, discard, finalize, health, init_guest, kill_cgroup, mark_ready,
  probe, read_token, read_version_mark, rekey_guest_call, remove_file, remove_folder, remove_tree,
  resolve_reference, stage, verify_artifact,
}
use ferrobox.Prelude.{◌≡◌, refl, ◌∙◌, Bool, true, false, List, Result, Text, ok, err}
use ferrobox.Prelude.Exec.{continue}

-- The inventory of `t` is that of `s`.
abbrev pub IsSteady : FirecrackerRuntime → FirecrackerRuntime → Type 0
IsSteady s t =
    (t.sandboxes ≡ s.sandboxes)
    × (t.snapshots ≡ s.snapshots)
    × (t.ready_pool ≡ s.ready_pool)
    × ((j : SandboxId) → is_live j t.calls ≡ is_live j s.calls)
    × ((n : Text) → is_held n t.calls ≡ is_held n s.calls)
    × ((j : SandboxId) → was_spawned j t.calls ≡ was_spawned j s.calls)

pub IsSteady-refl : (s : FirecrackerRuntime) → IsSteady s s
IsSteady-refl s = (refl, refl, refl, λ j. refl, λ n. refl, λ j. refl)

pub IsSteady-trans : (s t u : FirecrackerRuntime) → IsSteady s t → IsSteady t u → IsSteady s u
IsSteady-trans s t u (a, b, c, d, e, f) (a2, b2, c2, d2, e2, f2) =
    (a2 ∙ a, b2 ∙ b, c2 ∙ c, λ j. d2 j ∙ d j, λ n. e2 n ∙ e n, λ j. f2 j ∙ f j)

pub record IsCalm {A : Type 0} (m : Firecracker A) : Type 0 where
  pub at : (s : FirecrackerRuntime) → IsSteady s (m s).1

module _ {A : Type 0} where
  pub pure-IsCalm : (a : A) → IsCalm (pure a)
  unfolding pure
  pure-IsCalm a = record { at = IsSteady-refl }

  pub raise-IsCalm : (e : RuntimeError) → IsCalm (raise {A = A} e)
  unfolding raise
  raise-IsCalm e = record { at = IsSteady-refl }

  pub lift-IsCalm : (r : Result RuntimeError A) → IsCalm (lift r)
  unfolding lift
  lift-IsCalm r = record { at = IsSteady-refl }

  pub gets-IsCalm : (f : FirecrackerRuntime → A) → IsCalm (gets f)
  unfolding gets
  gets-IsCalm f = record { at = IsSteady-refl }

  pub attempt-IsCalm : (m : Firecracker A) → IsCalm m → IsCalm (attempt m)
  unfolding attempt
  attempt-IsCalm m calm = record { at = calm.at }

  pub branch-IsCalm : (b : Bool) (m n : Firecracker A) → IsCalm m → IsCalm n → IsCalm (branch b m n)
  unfolding branch
  branch-IsCalm true m n first second = first
  branch-IsCalm false m n first second = second

  clean_after-IsSteady :
      (cleanup : Firecracker (Unit {0})) (s : FirecrackerRuntime)
      (x : Result RuntimeError A × FirecrackerRuntime)
      → IsCalm cleanup
      → IsSteady s x.1
      → IsSteady s (clean_after cleanup x).1
  clean_after-IsSteady cleanup s (ok a, t) calm first = first
  clean_after-IsSteady cleanup s (err e, t) calm first =
      IsSteady-trans s t (cleanup t).1 first (calm.at t)

  pub on_failure-IsCalm :
      (cleanup : Firecracker (Unit {0})) (m : Firecracker A)
      → IsCalm cleanup
      → IsCalm m
      → IsCalm (on_failure cleanup m)
  unfolding on_failure
  on_failure-IsCalm cleanup m last first = record {
    at = λ s. clean_after-IsSteady cleanup s (m s) last (first.at s);
  }

pub refuse_if-IsCalm : (b : Bool) (e : RuntimeError) → IsCalm (refuse_if b e)
unfolding refuse_if
refuse_if-IsCalm true e = record { at = IsSteady-refl }
refuse_if-IsCalm false e = record { at = IsSteady-refl }

module _ {A B : Type 0} where
  continue-IsSteady :
      (s : FirecrackerRuntime) (x : Result RuntimeError A × FirecrackerRuntime)
      (k : A → Firecracker B)
      → IsSteady s x.1
      → ((a : A) → IsCalm (k a))
      → IsSteady s (continue x k).1
  continue-IsSteady s (ok a, t) k first next = IsSteady-trans s t (k a t).1 first ((next a).at t)
  continue-IsSteady s (err e, t) k first next = first

  pub bind-IsCalm :
      (m : Firecracker A) (k : A → Firecracker B)
      → IsCalm m
      → ((a : A) → IsCalm (k a))
      → IsCalm (m >>= k)
  unfolding ◌>>=◌
  bind-IsCalm m k first next = record { at = λ s. continue-IsSteady s (m s) k (first.at s) next }

  pub seq-IsCalm : (m : Firecracker A) (k : Firecracker B) → IsCalm m → IsCalm k → IsCalm (m >> k)
  unfolding ◌>>◌
  seq-IsCalm m k first next = record {
    at = λ s. continue-IsSteady s (m s) (λ _. k) (first.at s) (λ _. next);
  }

-- A call that the inventory does not count.
pub record IsUncounted (call : Call) : Type 0 where
  pub live : (reply : Reply) (j : SandboxId) (b : Bool) → live_after call reply j b ≡ b
  pub held : (reply : Reply) (n : Text) (b : Bool) → held_after call reply n b ≡ b
  pub spawned : (j : SandboxId) → spawned_by call j ≡ false

pub ask-IsCalm : (host : Host) (call : Call) → IsUncounted call → IsCalm (ask host call)
unfolding ask is_live is_held was_spawned
ask-IsCalm host call free = record {
  at = λ s. (
    refl,
    refl,
    refl,
    λ j. free.live (host.reply s.calls call) j (is_live j s.calls),
    λ n. free.held (host.reply s.calls call) n (is_held n s.calls),
    λ j. rw (free.spawned j) refl,
  );
}

pub expect-IsCalm :
    (host : Host) (e : RuntimeError) (call : Call) → IsUncounted call → IsCalm (expect host e call)
unfolding ask expect
expect-IsCalm host e call free = record { at = (ask-IsCalm host call free).at }

-- The calls that are not counted, by their kinds.
pub api-IsUncounted : (id : SandboxId) (request : ApiRequest) → IsUncounted (api id request)
api-IsUncounted id request = record {
  live = λ r j b. refl;
  held = λ r n b. refl;
  spawned = λ j. refl;
}

pub api_version-IsUncounted : (id : SandboxId) → IsUncounted (api_version id)
api_version-IsUncounted id = record {
  live = λ r j b. refl;
  held = λ r n b. refl;
  spawned = λ j. refl;
}

pub health-IsUncounted : (id : SandboxId) → IsUncounted (health id)
health-IsUncounted id = record { live = λ r j b. refl; held = λ r n b. refl; spawned = λ j. refl }

pub init-IsUncounted :
    (id name : SandboxId) (token : Text) (network : GuestNetworkConfig)
    → IsUncounted (init_guest id name token network)
init-IsUncounted id name token network = record {
  live = λ r j b. refl;
  held = λ r n b. refl;
  spawned = λ j. refl;
}

pub rekey-IsUncounted :
    (id name : SandboxId) (previous token : Text) (network : GuestNetworkConfig)
    → IsUncounted (rekey_guest_call id name previous token network)
rekey-IsUncounted id name previous token network = record {
  live = λ r j b. refl;
  held = λ r n b. refl;
  spawned = λ j. refl;
}

pub create_folder-IsUncounted : (p : HostPath) → IsUncounted (create_folder p)
create_folder-IsUncounted p = record {
  live = λ r j b. refl;
  held = λ r n b. refl;
  spawned = λ j. refl;
}

pub probe-IsUncounted : (p : HostPath) → IsUncounted (probe p)
probe-IsUncounted p = record { live = λ r j b. refl; held = λ r n b. refl; spawned = λ j. refl }

pub remove_tree-IsUncounted : (p : HostPath) → IsUncounted (remove_tree p)
remove_tree-IsUncounted p = record {
  live = λ r j b. refl;
  held = λ r n b. refl;
  spawned = λ j. refl;
}

pub remove_folder-IsUncounted : (p : HostPath) → IsUncounted (remove_folder p)
remove_folder-IsUncounted p = record {
  live = λ r j b. refl;
  held = λ r n b. refl;
  spawned = λ j. refl;
}

pub remove_file-IsUncounted : (p : HostPath) → IsUncounted (remove_file p)
remove_file-IsUncounted p = record {
  live = λ r j b. refl;
  held = λ r n b. refl;
  spawned = λ j. refl;
}

pub mark_ready-IsUncounted : (p : HostPath) → IsUncounted (mark_ready p)
mark_ready-IsUncounted p = record {
  live = λ r j b. refl;
  held = λ r n b. refl;
  spawned = λ j. refl;
}

pub read_mark-IsUncounted : (p : HostPath) → IsUncounted (read_version_mark p)
read_mark-IsUncounted p = record { live = λ r j b. refl; held = λ r n b. refl; spawned = λ j. refl }

pub kill_cgroup-IsUncounted : (p : HostPath) → IsUncounted (kill_cgroup p)
kill_cgroup-IsUncounted p = record {
  live = λ r j b. refl;
  held = λ r n b. refl;
  spawned = λ j. refl;
}

pub clone_asset-IsUncounted : (p q : HostPath) → IsUncounted (clone_asset p q)
clone_asset-IsUncounted p q = record {
  live = λ r j b. refl;
  held = λ r n b. refl;
  spawned = λ j. refl;
}

pub clone_disk-IsUncounted : (p q : HostPath) → IsUncounted (clone_disk p q)
clone_disk-IsUncounted p q = record {
  live = λ r j b. refl;
  held = λ r n b. refl;
  spawned = λ j. refl;
}

pub copy_file-IsUncounted : (p q : HostPath) → IsUncounted (copy_file p q)
copy_file-IsUncounted p q = record {
  live = λ r j b. refl;
  held = λ r n b. refl;
  spawned = λ j. refl;
}

pub change_mode-IsUncounted : (ps : List HostPath) → IsUncounted (change_mode ps)
change_mode-IsUncounted ps = record {
  live = λ r j b. refl;
  held = λ r n b. refl;
  spawned = λ j. refl;
}

pub change_owner-IsUncounted : (ps : List HostPath) → IsUncounted (change_owner ps)
change_owner-IsUncounted ps = record {
  live = λ r j b. refl;
  held = λ r n b. refl;
  spawned = λ j. refl;
}

pub stage-IsUncounted : (r : StageRequest) → IsUncounted (stage r)
stage-IsUncounted r = record { live = λ r j b. refl; held = λ r n b. refl; spawned = λ j. refl }

pub finalize-IsUncounted : (id : SnapshotId) → IsUncounted (finalize id)
finalize-IsUncounted id = record { live = λ r j b. refl; held = λ r n b. refl; spawned = λ j. refl }

pub discard-IsUncounted : (id : SnapshotId) → IsUncounted (discard id)
discard-IsUncounted id = record { live = λ r j b. refl; held = λ r n b. refl; spawned = λ j. refl }

pub verify-IsUncounted : (a : SnapshotArtifact) → IsUncounted (verify_artifact a)
verify-IsUncounted a = record { live = λ r j b. refl; held = λ r n b. refl; spawned = λ j. refl }

pub read_token-IsUncounted : (a : SnapshotArtifact) → IsUncounted (read_token a)
read_token-IsUncounted a = record {
  live = λ r j b. refl;
  held = λ r n b. refl;
  spawned = λ j. refl;
}

pub delete_artifact-IsUncounted : (a : SnapshotArtifact) → IsUncounted (delete_artifact a)
delete_artifact-IsUncounted a = record {
  live = λ r j b. refl;
  held = λ r n b. refl;
  spawned = λ j. refl;
}

pub resolve-IsUncounted : (t : Text) → IsUncounted (resolve_reference t)
resolve-IsUncounted t = record { live = λ r j b. refl; held = λ r n b. refl; spawned = λ j. refl }

pub ruleset calm_rules = (
  pure-IsCalm, raise-IsCalm, lift-IsCalm, gets-IsCalm, attempt-IsCalm, branch-IsCalm,
  on_failure-IsCalm, refuse_if-IsCalm, bind-IsCalm, seq-IsCalm, ask-IsCalm, expect-IsCalm,
  api-IsUncounted, api_version-IsUncounted, health-IsUncounted, init-IsUncounted, rekey-IsUncounted,
  create_folder-IsUncounted, probe-IsUncounted, remove_tree-IsUncounted, remove_folder-IsUncounted,
  remove_file-IsUncounted, mark_ready-IsUncounted, read_mark-IsUncounted, kill_cgroup-IsUncounted,
  clone_asset-IsUncounted, clone_disk-IsUncounted, copy_file-IsUncounted, change_mode-IsUncounted,
  change_owner-IsUncounted, stage-IsUncounted, finalize-IsUncounted, discard-IsUncounted,
  verify-IsUncounted, read_token-IsUncounted, delete_artifact-IsUncounted, resolve-IsUncounted,
)
