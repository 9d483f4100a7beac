-- ===== src/Phase.antt =====
-- native/proc17_qa_phase.h and .c: the phases of one run, its first cause and its finality.
-- A call that returns 0 or -1 gives the state and whether it returned 0.
pub mod Cause
pub mod Finality
pub mod Started
use proc.Base.{
  ℕ, ◌+◌, ◌-◌, ◌%◌, ◌^◌, Bool, true, false, ◌&&◌, ◌||◌, ◌==◌, ◌!=◌, leb, ltb, if◌then◌else◌, bit_or,
}
use proc.Wire.Reason

-- struct proc17_qa_first_cause
pub record FirstCause : Type 0 where
  pub kind : ℕ
  pub monotonic_sequence : ℕ
  pub observed_value : ℕ

-- struct proc17_qa_phase_state
pub record State : Type 0 where
  pub next_sequence : ℕ
  pub first_cause : FirstCause
  pub finality_mask : ℕ
  pub started_attested : ℕ
  pub candidate_release_authorized : ℕ

-- enum proc17_qa_phase_finality
abbrev pub source_staged : ℕ
source_staged = 0

abbrev pub candidate_started : ℕ
candidate_started = 1

abbrev pub candidate_terminal : ℕ
candidate_terminal = 2

abbrev pub process_tree_reaped : ℕ
process_tree_reaped = 3

abbrev pub stdout_eof : ℕ
stdout_eof = 4

abbrev pub stderr_eof : ℕ
stderr_eof = 5

abbrev pub scratch_observed : ℕ
scratch_observed = 6

abbrev pub namespace_clean : ℕ
namespace_clean = 7

abbrev pub finality_count : ℕ
finality_count = 8

-- enum proc17_qa_phase_claim_result
pub data ClaimResult : Type 0 where
  cause_invalid : ClaimResult
  cause_already_set : ClaimResult
  cause_set : ClaimResult

abbrev pub no_cause : FirstCause
no_cause = record { kind = 0; monotonic_sequence = 0; observed_value = 0 }

-- proc17_qa_phase_init
abbrev pub init : State
init = record {
  next_sequence = 0;
  first_cause = no_cause;
  finality_mask = 0;
  started_attested = 0;
  candidate_release_authorized = 0;
}

-- PROC17_QA_FINALITY_MASK and PROC17_QA_CONTROLLER_FINALITY_MASK
abbrev pub finality_mask_all : ℕ
finality_mask_all = 2 ^ finality_count - 1

abbrev pub controller_mask : ℕ
controller_mask = 2 ^ namespace_clean - 1

unfoldable pub mark_finality : State → ℕ → State × Bool
mark_finality state member = if leb finality_count member then (state, false) else (
  record state { finality_mask = bit_or state.finality_mask (2 ^ member % 2 ^ 16) % 2 ^ 16 },
  true,
)

unfoldable pub observe_started_ready : State → State × Bool
observe_started_ready state =
    if state.started_attested != 0
      || state.candidate_release_authorized != 0
      || state.first_cause.kind != 0
      || state.finality_mask != 0
    then (state, false)
    else let (staged, marked) =
        mark_finality (record state { started_attested = 1 }) source_staged in
      if marked then mark_finality staged candidate_started else (staged, false)

unfoldable pub authorize_candidate : State → State × Bool
authorize_candidate state =
    if state.started_attested != 1 || state.candidate_release_authorized != 0
    then (state, false)
    else (record state { candidate_release_authorized = 1 }, true)

unfoldable pub claim_first_cause : State → ℕ → ℕ → State × ClaimResult
claim_first_cause state kind observed_value =
    if ltb kind Reason.expected_exit
      || ltb Reason.sandbox_policy_violation kind
      || state.next_sequence == 2 ^ 64 - 1
    then (state, cause_invalid)
    else let sequence = state.next_sequence + 1 in
      if state.first_cause.kind != 0
      then (record state { next_sequence = sequence }, cause_already_set)
      else (
        record state {
          next_sequence = sequence;
          first_cause = record {
            kind = kind;
            monotonic_sequence = sequence;
            observed_value = observed_value;
          };
        },
        cause_set,
      )

unfoldable pub finality_complete : State → Bool
finality_complete state = state.finality_mask == finality_mask_all

unfoldable pub candidate_result_ready : State → Bool
candidate_result_ready state =
    state.started_attested == 1
    && state.candidate_release_authorized == 1
    && state.first_cause.kind != 0
    && state.first_cause.monotonic_sequence != 0
    && finality_complete state

unfoldable pub controller_report_ready : State → Bool
controller_report_ready state =
    state.started_attested == 1
    && state.candidate_release_authorized == 1
    && state.first_cause.kind != 0
    && state.first_cause.monotonic_sequence != 0
    && state.finality_mask == controller_mask

-- One call of the owner of a state.
pub data Step : State → State → Type 0 where
  observing : {s : State} → Step s (observe_started_ready s).0
  authorizing : {s : State} → Step s (authorize_candidate s).0
  marking : {s : State} (member : ℕ) → Step s (mark_finality s member).0
  claiming : {s : State} (kind value : ℕ) → Step s (claim_first_cause s kind value).0

-- Any number of calls, the last one first.
pub data Steps : State → State → Type 0 where
  stay : {s : State} → Steps s s
  more : {s t u : State} → Steps s t → Step t u → Steps s u
