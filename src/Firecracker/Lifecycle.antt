-- ===== src/Firecracker/Lifecycle.antt =====
-- The operations of crates/ferrobox-node/src/firecracker_runtime.rs on sandboxes: creation, with the
-- pool of machines that are ready, pause, resume and deletion.
pub mod Deletion
pub mod Switching
use ferrobox.Firecracker.Boot.{firecracker_version, put, reconnect_guest}
use ferrobox.Firecracker.Cleanup.{terminate_record}
use ferrobox.Core.Exec.{SandboxHandle}
use ferrobox.Firecracker.Launch.{is_snapshot_compatible, join, launch}
use ferrobox.Core.State.{is_paused, is_running, paused, running}
use ferrobox.Core.Error.{RuntimeError, conflict, internal, invalid, invalid_input, not_found}
use ferrobox.Process.Disk.{HostPath}
use ferrobox.Core.Spec.{SandboxId, SandboxSpec, validate_spec}
use ferrobox.Prelude.{
  ℕ, zero, suc, ◌+◌, ◌-◌, ◌*◌, ◌/◌, ◌%◌, ◌^◌, ◌≤◌, ◌<◌, min, ◌≡◌, refl, sym, ap, ◌∙◌, ◌≢◌, ◌↔◌, ◌⊎◌,
  inl, inr, Bool, true, false, not, ◌&&◌, ◌||◌, Option, none, some, List, [], ◌∷◌, ◌++◌, map, arith,
  ltb, leb, ◌==◌, in_range, if◌then◌else◌, ==_iff, ltb_iff, leb_iff, Bool-cases, Option-cases,
  length, is_empty, is_empty-eq-false_iff, all, any, get_elem?, get_or, take, drop, length-append,
  length-take, length-drop, drop_add, take-append-drop, take_of_length-le, All, All-append, all_iff,
  any-eq-false_iff, all-append, any-append, Result, reject_if, ok_or, map_err, is_ok, >>=-eq-ok,
  Result-cases, Text, Bytes, codes, utf8_char, bytes, byte_len, text_eq, text_eq_iff,
  is_ascii_alphanumeric, is_control, is_whitespace, trim_start_while, trim, strip_prefix,
  starts_with, push_front, split, to_ascii_lower, all-bytes, bytes_of_ascii, has_nul,
  has_nul-eq-false_iff, strip_prefix-append, strip_prefix-eq-some, Table, lookup, remove, insert,
  lookup-remove, lookup-insert, ok, err,
}
use ferrobox.Firecracker.Host.{
  FirecrackerConfig, FirecrackerSandbox, Host, Reply, RestoreAssets, TemplateAssets, is_done, probe,
  read_version_mark, refused, resolve_reference, resolved, set_vm_state, told, vm_paused,
  vm_resumed,
}
use ferrobox.Firecracker.Steps.{
  Firecracker, ask, attempt, branch, expect, gets, lift, modify, pure, raise, refuse_if, ◌>>=◌,
  ◌>>◌,
}

-- `record`
abbrev pub find_sandbox : SandboxId → Firecracker FirecrackerSandbox
find_sandbox id s = (ok_or (lookup id s.sandboxes) not_found, s)

-- The record of a sandbox, changed in place.
abbrev pub set_sandbox : SandboxId → FirecrackerSandbox → Firecracker (Unit {0})
set_sandbox id box = modify (λ s. record s { sandboxes = insert id box s.sandboxes })

-- `guest_client`: the jail whose guest answers for the sandbox, and the token for it.
unfoldable pub guest_client : SandboxId → Firecracker (SandboxId × Text)
guest_client id = do
  box ← find_sandbox id
  refuse_if (not (is_running box.state)) conflict
  pure (box.jailer_id, box.guest_token)

unfoldable pub pause : Host → SandboxId → Firecracker (Unit {0})
pause host id = do
  box ← find_sandbox id
  refuse_if (not (is_running box.state)) conflict
  put host box.jailer_id (set_vm_state vm_paused)
  set_sandbox id (record box { state = paused })

-- A machine goes on, and its guest is asked until it answers.
unfoldable pub wake : Host → FirecrackerSandbox → Firecracker (Unit {0})
wake host box = do put host box.jailer_id (set_vm_state vm_resumed); reconnect_guest host box

unfoldable pub resume : Host → SandboxId → Firecracker (Unit {0})
resume host id = do
  box ← find_sandbox id
  refuse_if (not (is_paused box.state)) conflict
  wake host box
  set_sandbox id (record box { state = running })

-- `resolver.resolve`
abbrev pub resolution_of : Reply → Result RuntimeError (Text × TemplateAssets)
resolution_of (resolved id assets) = ok (id, assets)
resolution_of (refused e) = err e
resolution_of _ = err internal

-- `starts_with("tpl-")` and the catalogue that stands behind the resolver.
unfoldable pub resolve_template :
    FirecrackerConfig → Host → Text → Firecracker (Text × TemplateAssets)
resolve_template config host reference =
    branch (not (text_eq reference (codes "python")) && config.has_template_store)
      (do reply ← ask host (resolve_reference reference); lift (resolution_of reply))
      (do
        refuse_if (starts_with (codes "tpl-") reference) invalid_input
        pure (reference, record { kernel = config.kernel_image; rootfs = config.rootfs_template }))

-- `version == FIRECRACKER_VERSION`
abbrev pub is_version : Reply → Bool
is_version (told text) = text_eq text firecracker_version
is_version _ = false

-- `Vec::pop`
abbrev pub last {ℓ} : {A : Type ℓ} → List A → Option (List A × A)
last [] = none
last (x ∷ xs) =
    let rest = last xs in
    elim rest [ none ↦ some ([], x) | some (before, y) ↦ some (x ∷ before, y) ]

-- The pool without its last machine, which is for the caller.
abbrev pub without_last :
    Option (List SandboxHandle × SandboxHandle) → Firecracker (Option SandboxHandle)
without_last none s = (ok none, s)
without_last (some (rest, handle)) s = (ok (some handle), record s { ready_pool = rest })

-- `ready_pool.pop()`, for a sandbox that the pool is for.
unfoldable pub take_ready : SandboxSpec → Firecracker (Option SandboxHandle)
take_ready spec s =
    if is_snapshot_compatible spec then without_last (last s.ready_pool) s else (ok none, s)

-- `snapshot_available`: the three files and the mark of this version.
unfoldable pub snapshot_available : Host → Option HostPath → Firecracker Bool
snapshot_available host none = pure false
snapshot_available host (some root) = do
  mark ← ask host (read_version_mark (join root (codes "READY")))
  vmstate ← ask host (probe (join root (codes "vmstate")))
  branch (is_done vmstate)
      (do
        memory ← ask host (probe (join root (codes "memory")))
        branch (is_done memory)
            (do
              rootfs ← ask host (probe (join root (codes "rootfs.ext4")))
              pure (is_done rootfs && is_version mark))
            (pure false))
      (pure false)

-- What a creation restores from, and whether it prepares the snapshot for later ones.
abbrev pub plan_restore : Option HostPath → Bool → Option RestoreAssets × Bool
plan_restore none available = (none, false)
plan_restore (some root) true = (
  some (record {
    vmstate_path = join root (codes "vmstate");
    memory_path = join root (codes "memory");
    rootfs_path = join root (codes "rootfs.ext4");
    captured_guest_token = none;
  }),
  false,
)
plan_restore (some root) false = (none, true)

module _ (config : FirecrackerConfig) (host : Host) where
  unfoldable pub create_fresh : SandboxSpec → Firecracker SandboxHandle
  create_fresh requested = do
    lift (map_err invalid (validate_spec requested))
    resolution ← resolve_template config host requested.template_id
    let spec = record requested { template_id = resolution.0 }
    available ←
        branch (is_snapshot_compatible spec) (snapshot_available host config.snapshot_root)
          (pure false)
    let plan =
        if is_snapshot_compatible spec
        then plan_restore config.snapshot_root available
        else (none, false)
    id ← gets (λ s. host.fresh_id s.calls)
    launch config host spec id resolution.1 plan.0 plan.1

  -- `create`: a machine of the pool goes to one caller only.
  unfoldable pub create : SandboxSpec → Firecracker SandboxHandle
  create spec = do
    lift (map_err invalid (validate_spec spec))
    ready ← take_ready spec
    elim ready [ some handle ↦ pure handle | none ↦ create_fresh spec ]

  -- `delete`: the entry goes before the machine does.
  unfoldable pub delete : SandboxId → Firecracker (Unit {0})
  delete id = do
    box ← find_sandbox id
    modify (λ s. record s { sandboxes = remove id s.sandboxes })
    outcome ← terminate_record config host box
    lift outcome.1
