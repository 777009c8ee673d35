-- ===== src/Core/Exec/Laws.antt =====
-- What `ExecRequest::validate` of crates/ferrobox-core/src/lib.rs accepts, without the checks.
use ferrobox.Prelude.{
  ◌≤◌, ◌≡◌, ◌≢◌, ◌↔◌, false, List, [], ◌∷◌, arith, ◌==◌, length, is_empty-eq-false_iff, any, All,
  Text, byte_len, has_nul-eq-false_iff, ok,
}
use ferrobox.Core.Exec.{
  is_bad_argument, is_bad_variable, any, byte_len, length, ok, ExecRequest, validate_exec,
}

abbrev pub HasNoNul : Text → Type 0
HasNoNul s = All (λ c. c ≢ 0) s

abbrev pub IsArgument : Text → Type 0
IsArgument argument = HasNoNul argument × (byte_len argument ≤ 131072)

abbrev pub IsVariable : Text × Text → Type 0
IsVariable v = (1 ≤ length v.0) × All (λ c. c ≢ b'=') v.0 × HasNoNul v.0 × HasNoNul v.1

pub record IsValidExec (r : ExecRequest) : Type 0 where
  pub program : 1 ≤ length r.argv
  pub few : length r.argv ≤ 256
  pub arguments : All IsArgument r.argv
  pub timeout : (1 ≤ r.timeout_seconds) × (r.timeout_seconds ≤ 86400)
  pub output : (1 ≤ r.max_output_bytes) × (r.max_output_bytes ≤ 16777216)
  pub few_variables : length r.environment ≤ 256
  pub variables : All IsVariable r.environment

arguments_iff : (args : List Text) → (any is_bad_argument args ≡ false) ↔ All IsArgument args
arguments_iff [] = ground arith
arguments_iff (a ∷ args) = ground (arith, arguments_iff args, has_nul-eq-false_iff a)

no_equals_iff : (s : Text) → (any (λ c. c == b'=') s ≡ false) ↔ All (λ c. c ≢ b'=') s
no_equals_iff [] = ground arith
no_equals_iff (c ∷ s) = ground (arith, no_equals_iff s)

variables_iff : (env : List (Text × Text)) → (any is_bad_variable env ≡ false) ↔ All IsVariable env
variables_iff [] = ground arith
variables_iff ((key, value) ∷ env) = ground (
  arith,
  variables_iff env,
  no_equals_iff key,
  has_nul-eq-false_iff key,
  has_nul-eq-false_iff value,
  is_empty-eq-false_iff key,
)

-- `validate` accepts a request exactly if it has 1 to 256 arguments, each of at most 128 KiB and
-- free of NUL, a timeout and an output limit in their ranges, and at most 256 variables, whose
-- names are neither empty nor hold `=`, and whose names and values are free of NUL.
validate_exec_iff : (r : ExecRequest) → (validate_exec r ≡ ok tt) ↔ IsValidExec r
unfolding validate_exec
validate_exec_iff r =
    let args = arguments_iff r.argv in
    let vars = variables_iff r.environment in
    let filled = is_empty-eq-false_iff r.argv in
    (
      λ h. record {
        program = filled.0 (ground arith);
        few = ground arith;
        arguments = args.0 (ground arith);
        timeout = ground arith;
        output = ground arith;
        few_variables = ground arith;
        variables = vars.0 (ground arith);
      },
      λ v.
          let good = args.1 v.arguments in
          let bound = vars.1 v.variables in
          let some_argument = filled.1 v.program in ground (arith, good, bound, some_argument),
    )
