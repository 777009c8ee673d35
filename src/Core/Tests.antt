-- ===== src/Core/Tests.antt =====
-- Tests of the core types, and the theorems about them at concrete inputs.
use ferrobox.Prelude.{
  ◌≡◌, refl, ◌≢◌, ◌↔◌, ◌⊎◌, some, [], ◌∷◌, ◌++◌, All, Text, codes, split, ok, err,
}
use ferrobox.Core.Spec.{
  SandboxSpec, validate_spec, disabled, validate_snapshot_request, new_process_id,
}
use ferrobox.Core.Error.{snapshot_name, invalid_template, sandbox_path, environment}
use ferrobox.Core.Spec.Laws.{validate_spec_iff, IsValidSpec}
use ferrobox.Core.Exec.{ExecRequest, validate_exec}
use ferrobox.Core.Paths.{new_sandbox_path, has_parent_part, invalid_absolute, relative, workspace}
use ferrobox.Core.Paths.Laws.{accepted-IsInside, resolve, walk, home, Names}
use ferrobox.Core.State.{running, failed}
use ferrobox.Core.State.Reach.{Reach, CanBecome, Reach-iff}

abbrev python_spec : SandboxSpec
python_spec = record {
  template_id = codes "python";
  cpu_count = 1;
  memory_mb = 512;
  timeout_seconds = 300;
  network = disabled;
}

python_spec_valid : validate_spec python_spec ≡ ok tt
unfolding validate_spec
python_spec_valid = refl

slash_in_template :
    validate_spec (record python_spec { template_id = codes "a/b" }) ≡ err invalid_template
unfolding validate_spec
slash_in_template = refl

validate_spec_iff_example : (validate_spec python_spec ≡ ok tt) ↔ IsValidSpec python_spec
validate_spec_iff_example = validate_spec_iff python_spec

abbrev printf_request : ExecRequest
printf_request = record {
  argv = codes "printf" ∷ codes "$(whoami);" ∷ [];
  cwd = workspace;
  environment = (codes "LANG", codes "C") ∷ [];
  timeout_seconds = 30;
  max_output_bytes = 1024;
}

printf_request_valid : validate_exec printf_request ≡ ok tt
unfolding validate_exec
printf_request_valid = refl

equals_in_name :
    validate_exec (record printf_request { environment = (codes "A=B", []) ∷ [] }) ≡ err environment
unfolding validate_exec
equals_in_name = refl

padded_name :
    (validate_snapshot_request (record { name = some (codes " padded") }) ≡ err snapshot_name)
    × (validate_snapshot_request (record { name = some (codes "checkpoint-1") }) ≡ ok tt)
    × (new_process_id (codes "p") ≡ ok (codes "p"))
unfolding validate_snapshot_request new_process_id
padded_name = (refl, refl, refl)

abbrev data_path : Text
data_path = codes "/home/sandbox//a/./data.txt"

data_path_accepted : new_sandbox_path data_path ≡ ok data_path
unfolding new_sandbox_path has_parent_part invalid_absolute
data_path_accepted = refl

traversals :
    (new_sandbox_path (codes "../../etc/shadow") ≡ err sandbox_path)
    × (new_sandbox_path (codes "/etc/shadow") ≡ err sandbox_path)
    × (new_sandbox_path (codes "/home/sandboxes") ≡ err sandbox_path)
unfolding new_sandbox_path has_parent_part invalid_absolute
traversals = (refl, refl, refl)

accepted-IsInside_example :
    (data_path ≡ data_path)
    × All (λ c. c ≢ 0) data_path
    × (resolve data_path ≡ walk home (split b'/' (relative data_path)))
    × (rest : Names) × (resolve data_path ≡ home ++ rest)
accepted-IsInside_example = accepted-IsInside data_path data_path data_path_accepted

Reach-iff_example : Reach failed running ↔ ((failed ≡ running) ⊎ CanBecome failed running)
Reach-iff_example = Reach-iff failed running
