-- ===== src/Firecracker/Cleanup.antt =====
-- What crates/ferrobox-node/src/firecracker_runtime.rs takes away when a sandbox goes: its process,
-- its network, its jail and its control group.
pub mod Steady
pub mod Ending
pub mod Draining
use ferrobox.Core.State.{deleted, failed}
use ferrobox.Core.Error.{RuntimeError, internal, invalid_input}
use ferrobox.Core.Spec.{SandboxId}
use ferrobox.Firecracker.Host.{
  FirecrackerConfig, FirecrackerSandbox, Host, NetworkLease, Reply, absent, api, await_exit,
  delete_network, done, is_done, kill, kill_cgroup, probe, remove_folder, remove_tree,
  send_ctrl_alt_del,
}
use ferrobox.Prelude.{
  ℕ, zero, suc, ◌+◌, ◌-◌, ◌*◌, ◌/◌, ◌%◌, ◌^◌, ◌≤◌, ◌<◌, min, ◌≡◌, refl, sym, ap, ◌∙◌, ◌≢◌, ◌↔◌, ◌⊎◌,
  inl, inr, Bool, true, false, not, ◌&&◌, ◌||◌, Option, none, some, List, [], ◌∷◌, ◌++◌, map, arith,
  ltb, leb, ◌==◌, in_range, if◌then◌else◌, ==_iff, ltb_iff, leb_iff, Bool-cases, Option-cases,
  length, is_empty, is_empty-eq-false_iff, all, any, get_elem?, get_or, take, drop, length-append,
  length-take, length-drop, drop_add, take-append-drop, take_of_length-le, All, All-append, all_iff,
  any-eq-false_iff, all-append, any-append, Result, reject_if, ok_or, map_err, is_ok, >>=-eq-ok,
  Result-cases, Text, Bytes, codes, utf8_char, bytes, byte_len, text_eq, text_eq_iff,
  is_ascii_alphanumeric, is_control, is_whitespace, trim_start_while, trim, strip_prefix,
  starts_with, push_front, split, to_ascii_lower, all-bytes, bytes_of_ascii, has_nul,
  has_nul-eq-false_iff, strip_prefix-append, strip_prefix-eq-some, Table, lookup, remove, insert,
  lookup-remove, lookup-insert, ok, err,
}
use ferrobox.Process.Lifecycle.{below}
use ferrobox.Process.Disk.{HostPath, path_eq}
use ferrobox.Firecracker.Steps.{
  Firecracker, ask, attempt, branch, expect, gets, lift, modify, pure, raise, refuse_if, ◌>>=◌,
  ◌>>◌,
}

abbrev pub cgroup_parent : HostPath
cgroup_parent = codes "sys" ∷ codes "fs" ∷ codes "cgroup" ∷ codes "ferrobox" ∷ []

-- `Path::file_name`
abbrev pub last_name : HostPath → Option Text
last_name [] = none
last_name (part ∷ []) = some part
last_name (part ∷ next ∷ parts) = last_name (next ∷ parts)

-- `jail_root`: the name of the program is the last of its path.
unfoldable pub jail_root : FirecrackerConfig → Host → SandboxId → Result RuntimeError HostPath
jail_root config host id = elim (last_name config.firecracker_binary) [
  | none ↦ err invalid_input
  | some name ↦ ok (config.chroot_base ++ name ∷ host.name_of id ∷ codes "root" ∷ [])
]

-- A folder that was removed, or was not there.
abbrev pub is_gone : Reply → Bool
is_gone done = true
is_gone absent = true
is_gone _ = false

module _ (host : Host) where
  -- The rounds in which `cleanup_cgroup` removes the folder.
  unfoldable pub retry_removal : ℕ → HostPath → Firecracker (Unit {0})
  retry_removal zero cgroup = raise internal
  retry_removal (suc n) cgroup = do
    reply ← ask host (remove_folder cgroup)
    branch (is_gone reply) (pure tt) (retry_removal n cgroup)

  unfoldable pub cleanup_cgroup : SandboxId → Firecracker (Unit {0})
  cleanup_cgroup id = do
    let cgroup = cgroup_parent ++ host.name_of id ∷ []
    refuse_if (not (below cgroup_parent cgroup) || path_eq cgroup cgroup_parent) internal
    found ← ask host (probe cgroup)
    branch (is_done found) (do killed ← ask host (kill_cgroup cgroup); retry_removal 250 cgroup)
        (refuse_if (not (is_gone found)) internal)

  -- `self.network.delete`
  abbrev pub release_network : Option NetworkLease → Firecracker (Unit {0})
  release_network none = pure tt
  release_network (some lease) = expect host internal (delete_network lease)

  -- The end of a process: it may shut down for two seconds, then it is killed.
  unfoldable pub stop_process : SandboxId → Firecracker (Unit {0})
  stop_process id = do
    asked ← ask host (api id send_ctrl_alt_del)
    reply ← ask host (await_exit id)
    branch (is_done reply) (pure tt) (do killed ← ask host (kill id); pure tt)

-- The three outcomes of a cleanup, the first failure first.
abbrev pub first_failure :
    Result RuntimeError (Unit {0})
    → Result RuntimeError (Unit {0})
    → Result RuntimeError (Unit {0})
    → Result RuntimeError (Unit {0})
first_failure (err e) jail cgroup = err e
first_failure (ok _) (err e) cgroup = err e
first_failure (ok _) (ok _) cgroup = cgroup

module _ (config : FirecrackerConfig) (host : Host) where
  unfoldable pub cleanup_chroot : HostPath → Firecracker (Unit {0})
  cleanup_chroot chroot_root = do
    refuse_if (not (below config.chroot_base chroot_root) || path_eq chroot_root config.chroot_base)
        internal
    found ← ask host (probe chroot_root)
    branch (is_done found) (expect host internal (remove_tree chroot_root)) (pure tt)

  -- `terminate_record`: the record with its last state, and the outcome. A failed step does not keep
  -- the later ones from being tried.
  unfoldable pub terminate_record :
      FirecrackerSandbox → Firecracker (FirecrackerSandbox × Result RuntimeError (Unit {0}))
  terminate_record box = do
    stop_process host box.jailer_id
    network_result ← attempt (release_network host box.network)
    jail_result ← attempt (cleanup_chroot box.chroot_root)
    cgroup_result ← attempt (cleanup_cgroup host box.jailer_id)
    pure (
      record box {
        state =
            if is_ok network_result && is_ok jail_result && is_ok cgroup_result
            then deleted
            else failed;
      },
      first_failure network_result jail_result cgroup_result,
    )
