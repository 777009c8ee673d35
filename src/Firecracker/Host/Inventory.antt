-- ===== src/Firecracker/Host/Inventory.antt =====
-- Which jailer processes and network leases are outstanding after the calls of
-- crates/ferrobox-node/src/firecracker_runtime.rs, and whether a control group was emptied. The
-- jailer starts the machine in a process namespace of its own, so that the end of the jailer process
-- is one thing and the end of what stands in its control group another.
use ferrobox.Firecracker.Host.{
  is_done, kill_cgroup, probe, remove_folder, Call, History, Reply, await_exit, create_network,
  delete_network, done, kill, leased, spawn_jailer,
}
use ferrobox.Process.Disk.{HostPath, path_eq}
use ferrobox.Core.Spec.{SandboxId}
use ferrobox.Prelude.{
  ◌&&◌, not, Bool, true, false, ◌||◌, [], ◌∷◌, ◌==◌, if◌then◌else◌, Text, text_eq,
}

-- A jailer process that was started is outstanding until its kill was asked for or it was seen to exit.
abbrev pub live_after : Call → Reply → SandboxId → Bool → Bool
live_after (spawn_jailer id memory cpu path) done j before = if id == j then true else before
live_after (kill id) reply j before = if id == j then false else before
live_after (await_exit id) done j before = if id == j then false else before
live_after _ _ j before = before

unfoldable pub is_live : SandboxId → History → Bool
is_live j [] = false
is_live j ((call, reply) ∷ h) = live_after call reply j (is_live j h)

-- A lease that was given is outstanding until its deletion was asked for, whatever the answer.
abbrev pub held_after : Call → Reply → Text → Bool → Bool
held_after (create_network id mode) (leased lease) n before =
    if text_eq lease.namespace n then true else before
held_after (delete_network lease) reply n before =
    if text_eq lease.namespace n then false else before
held_after _ _ n before = before

unfoldable pub is_held : Text → History → Bool
is_held n [] = false
is_held n ((call, reply) ∷ h) = held_after call reply n (is_held n h)

-- Whether a jailer was ever asked for under this identifier.
abbrev pub spawned_by : Call → SandboxId → Bool
spawned_by (spawn_jailer id memory cpu path) j = id == j
spawned_by _ j = false

unfoldable pub was_spawned : SandboxId → History → Bool
was_spawned j [] = false
was_spawned j ((call, reply) ∷ h) = spawned_by call j || was_spawned j h

-- Whether the last that was done to the control group at a path, without a step of another kind since,
-- was to kill what is in it, or to find that it is not there or cannot be looked at.
unfoldable pub is_emptied : HostPath → History → Bool
is_emptied path [] = false
is_emptied path ((probe p, reply) ∷ h) = path_eq p path && not (is_done reply)
is_emptied path ((kill_cgroup p, reply) ∷ h) = path_eq p path
is_emptied path ((remove_folder p, reply) ∷ h) = is_emptied path h
is_emptied path (_ ∷ h) = false
