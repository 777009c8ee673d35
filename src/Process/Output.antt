-- ===== src/Process/Output.antt =====
-- The output of a command in `execute` of crates/ferrobox-node/src/process_runtime.rs.
use ferrobox.Prelude.{
  ℕ, ◌+◌, ◌-◌, ◌≤◌, min, ◌≡◌, ap, ◌∙◌, ◌||◌, arith, ltb, if◌then◌else◌, length, take, length-take,
  take_of_length-le, Bytes,
}
use ferrobox.Core.Spec.{ProcessId}
use ferrobox.Core.Exec.{ExecResult, ExecTermination, exited, signaled, output_limit_exceeded}

-- What `timeout(.., command.output())` gives: how the process ended, with what it wrote.
pub data Status : Type 0 where
  code : ℕ → Status
  killed_by : ℕ → Status

pub data CommandOutcome : Type 0 where
  elapsed not_started : CommandOutcome
  finished : Status → Bytes → Bytes → CommandOutcome

abbrev pub usual_termination : Status → ExecTermination
usual_termination (code c) = exited c
usual_termination (killed_by s) = signaled s

-- `Vec::truncate`, called where the length is over the limit.
abbrev pub truncate : ℕ → Bytes → Bytes
truncate limit output = if ltb limit (length output) then take limit output else output

-- The result of a command that has finished: standard output has the limit first, and standard
-- error what is left of it.
unfoldable pub limit_output : ProcessId → ℕ → Status → Bytes → Bytes → ExecResult
limit_output id limit status out errors =
    let stdout = truncate limit out in
    let remaining = limit - length stdout in
    let stdout_truncated = ltb limit (length out) in
    let stderr_truncated = ltb remaining (length errors) in
    record {
      process_id = id;
      termination =
          if stdout_truncated || stderr_truncated
          then output_limit_exceeded
          else usual_termination status;
      stdout = stdout;
      stderr = truncate remaining errors;
      truncation = record { stdout = stdout_truncated; stderr = stderr_truncated };
    }

length-truncate :
    (limit : ℕ) (output : Bytes) → length (truncate limit output) ≡ min limit (length output)
length-truncate limit output = ground (arith, length-take limit output)

truncate-eq-take : (limit : ℕ) (output : Bytes) → truncate limit output ≡ take limit output
truncate-eq-take limit output = ground (arith, take_of_length-le limit output)

-- The two outputs of a result together never pass the limit. Standard output is the beginning of what
-- the command wrote to it, up to the limit, and standard error what fits of the rest. The result says
-- that the limit was exceeded exactly if the command wrote more than it in all, and otherwise how the
-- command ended.
pub limit_output_lem :
    (id : ProcessId) (limit : ℕ) (status : Status) (out errors : Bytes)
    → let r = limit_output id limit status out errors in
      (length r.stdout + length r.stderr ≤ limit)
      × (r.stdout ≡ take limit out)
      × (r.stderr ≡ take (limit - length out) errors)
      × (r.termination ≡ (
          if ltb limit (length out + length errors)
          then output_limit_exceeded
          else usual_termination status))
unfolding limit_output
limit_output_lem id limit status out errors =
    let kept = length-truncate limit out in
    let rest = length-truncate (limit - length (truncate limit out)) errors in
    let room : limit - length (truncate limit out) ≡ limit - length out = omega (arith, kept) in
    (
      omega (arith, kept, rest),
      truncate-eq-take limit out,
      truncate-eq-take _ errors ∙ ap (λ k. take k errors) room,
      ground (arith, kept),
    )
