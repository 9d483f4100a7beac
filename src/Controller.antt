-- ===== src/Controller.antt =====
-- native/proc17_qa_controller.c: how the controller settles on the first cause of an epoch.
pub mod Resolution
pub mod Clock
use proc.Base.{
  ℕ, ◌+◌, ◌-◌, ◌%◌, ◌^◌, Bool, true, false, not, ◌&&◌, ◌||◌, ◌==◌, ◌!=◌, leb, ltb, if◌then◌else◌,
  Option, some, none, ◌>>=◌,
}
use proc.Phase.{State, claim_first_cause, ClaimResult, cause_set, cause_already_set, cause_invalid}
use proc.System.{exited, exit_status, signaled, term_signal, sigxcpu, sigsys}
use proc.Wire.Checks.{boolean}
use proc.Wire.Reason

-- struct proc17_qa_observation_epoch
pub record Epoch : Type 0 where
  pub stdout_limit_crossed : ℕ
  pub stderr_limit_crossed : ℕ
  pub heap_denied : ℕ
  pub wall_timer_expired : ℕ
  pub candidate_terminal : ℕ
  pub wait_status : ℕ
  pub stdout_observed_bytes : ℕ
  pub stderr_observed_bytes : ℕ
  pub heap_peak_bytes : ℕ
  pub wall_limit_ms : ℕ

-- enum proc17_qa_epoch_result
pub data EpochResult : Type 0 where
  epoch_invalid : EpochResult
  epoch_no_cause : EpochResult
  epoch_cause_claimed : EpochResult
  epoch_cause_already_set : EpochResult
  epoch_ambiguous : EpochResult

-- `*kind` and `*observed_value` afterwards, or -1.
unfoldable pub add_cause : ℕ → ℕ → ℕ × ℕ → Option (ℕ × ℕ)
add_cause candidate value (kind, observed_value) =
    if kind == 0
    then some (candidate, value)
    else if kind != candidate
    then none
    else some (kind, if ltb observed_value value then value else observed_value)

-- The kind and the value, or -1.
unfoldable pub terminal_cause : ℕ → Option (ℕ × ℕ)
terminal_cause wait_status =
    if exited wait_status
    then some (
      if exit_status wait_status == 0 then Reason.expected_exit else Reason.unexpected_exit,
      exit_status wait_status,
    )
    else if signaled wait_status
    then some (
      if term_signal wait_status == sigxcpu
          then Reason.cpu_limit
          else if term_signal wait_status == sigsys
          then Reason.sandbox_policy_violation
          else Reason.signal,
      term_signal wait_status,
    )
    else none

-- The tests before the last of the first condition.
unfoldable pub epoch_malformed : Epoch → Bool
epoch_malformed epoch =
    not (boolean epoch.stdout_limit_crossed)
    || not (boolean epoch.stderr_limit_crossed)
    || not (boolean epoch.heap_denied)
    || not (boolean epoch.wall_timer_expired)
    || not (boolean epoch.candidate_terminal)
    || (epoch.stdout_limit_crossed != 0 && epoch.stdout_observed_bytes == 0)
    || (epoch.stderr_limit_crossed != 0 && epoch.stderr_observed_bytes == 0)
    || (epoch.heap_denied != 0 && epoch.heap_peak_bytes == 0)
    || (epoch.wall_timer_expired != 0 && epoch.wall_limit_ms == 0)

-- The terminal cause if the candidate has ended, else zeros, or -1.
unfoldable pub terminal_of : Epoch → Option (ℕ × ℕ)
terminal_of epoch =
    if epoch.candidate_terminal != 0 then terminal_cause epoch.wait_status else some (0, 0)

-- if (flag != 0 && add_cause(candidate, value, ...) != 0) return AMBIGUOUS;
unfoldable pub add_if : ℕ → ℕ → ℕ → ℕ × ℕ → Option (ℕ × ℕ)
add_if flag candidate value collected =
    if flag != 0 then add_cause candidate value collected else some collected

-- The five additions, or none where one of them is ambiguous.
unfoldable pub collect : Epoch → ℕ × ℕ → Option (ℕ × ℕ)
collect epoch (terminal_kind, terminal_value) = do
  one ← add_if epoch.stdout_limit_crossed Reason.output_limit epoch.stdout_observed_bytes (0, 0)
  two ← add_if epoch.stderr_limit_crossed Reason.output_limit epoch.stderr_observed_bytes one
  three ← add_if epoch.heap_denied Reason.memory_limit epoch.heap_peak_bytes two
  four ← add_if epoch.wall_timer_expired Reason.wall_timeout epoch.wall_limit_ms three
  add_if epoch.candidate_terminal terminal_kind terminal_value four

pub claimed : State × ClaimResult → State × EpochResult
claimed (phase, cause_set) = (phase, epoch_cause_claimed)
claimed (phase, cause_already_set) = (phase, epoch_invalid)
claimed (phase, cause_invalid) = (phase, epoch_invalid)

-- The end of the call, from what was collected.
pub settle : State → Option (ℕ × ℕ) → State × EpochResult
settle phase none = (phase, epoch_ambiguous)
settle phase (some (kind, observed_value)) =
    if kind == 0
    then (phase, epoch_no_cause)
    else claimed (claim_first_cause phase kind observed_value)

-- The call from the end of the first condition on.
pub resolve_terminal : State → Epoch → Option (ℕ × ℕ) → State × EpochResult
resolve_terminal phase epoch none = (phase, epoch_invalid)
resolve_terminal phase epoch (some terminal) =
    if phase.first_cause.kind != 0
    then (phase, epoch_cause_already_set)
    else settle phase (collect epoch terminal)

unfoldable pub resolve_epoch : State → Epoch → State × EpochResult
resolve_epoch phase epoch =
    if epoch_malformed epoch
    then (phase, epoch_invalid)
    else resolve_terminal phase epoch (terminal_of epoch)
