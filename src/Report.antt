-- ===== src/Report.antt =====
-- native/proc17_qa_report.c: the private report that the controller hands to the supervisor. The
-- pointers of an input are present: a test for NULL has no counterpart here.
pub mod Layout
pub mod Private
pub mod Public
pub mod Built
pub mod Finalized
pub mod Carried
pub mod Terminal
pub mod Delivered
pub mod Incomplete
use proc.Allocator
use proc.Base.{
  ℕ, zero, suc, ◌+◌, ◌-◌, ◌^◌, Bool, true, false, not, ◌&&◌, ◌||◌, ◌==◌, ◌!=◌, leb, ltb,
  if◌then◌else◌, Option, none, some, guard, ◌>>=◌, ◌>>◌,
}
use proc.Controller.Clock.{Metrics}
use proc.Memory.{Buffer, at, poke, copy, clear, zeroed}
use proc.Phase.{FirstCause, State, controller_report_ready}
use proc.Policy
use proc.Scratch
use proc.Stream
use proc.System.{sigxcpu, sigsys}
use proc.Wire.Checks.{digest_nonzero, identity_valid, source_stage_valid, resource_valid}
use proc.Wire.ErrorCode
use proc.Wire.Integers.{put_u16, put_u32, put_u64}
use proc.Wire.Reason
use proc.Wire.Termination

abbrev pub sigkill : ℕ
sigkill = 9

-- NSIG of Linux
abbrev pub nsig : ℕ
nsig = 65

abbrev pub uint32_max : ℕ
uint32_max = 2 ^ 32 - 1

-- struct proc17_qa_candidate_termination
pub record CandidateTermination : Type 0 where
  pub kind : ℕ
  pub exit_code : ℕ
  pub signal_number : ℕ

-- struct proc17_qa_controller_report_input
pub record ReportInput : Type 0 where
  pub identity : Buffer
  pub process_token : Buffer
  pub phase : State
  pub termination : CandidateTermination
  pub stdout_measurement : Stream.Measurement
  pub stderr_measurement : Stream.Measurement
  pub candidate_metrics : Metrics
  pub allocator : Allocator.Snapshot
  pub scratch : Scratch.Measurement
  pub source_stage : Buffer
  pub status_eof_observed : ℕ
  pub allocator_observation_stable : ℕ
  pub heap_denied_notifications : ℕ

-- struct proc17_qa_controller_error_input
pub record ErrorInput : Type 0 where
  pub identity : Buffer
  pub process_token : Buffer
  pub source_stage : Buffer
  pub error_code : ℕ
  pub subject : ℕ
  pub candidate_terminal_observed : ℕ
  pub process_tree_reaped : ℕ
  pub stdout_eof_observed : ℕ
  pub stderr_eof_observed : ℕ
  pub scratch_observation_complete : ℕ
  pub status_eof_observed : ℕ

-- report_magic: "P17QACR" and a zero byte
abbrev pub report_magic : Buffer
report_magic = λ i.
    if i == 0
    then b'P'
    else if i == 1
    then b'1'
    else if i == 2
    then b'7'
    else if i == 3
    then b'Q'
    else if i == 4
    then b'A'
    else if i == 5
    then b'C'
    else if i == 6
    then b'R'
    else 0

unfoldable pub termination_shape_valid : CandidateTermination → Bool
termination_shape_valid t =
    if t.kind == Termination.exit
    then leb t.exit_code 255 && t.signal_number == uint32_max
    else if t.kind == Termination.signal
    then t.exit_code == uint32_max && ltb 0 t.signal_number && ltb t.signal_number nsig
    else t.kind == Termination.supervisor_kill
      && t.exit_code == uint32_max
      && t.signal_number == sigkill

-- call(...) == 0
abbrev pub succeeds : Option Buffer → Bool
succeeds none = false
succeeds (some written) = true

unfoldable pub stream_shape_valid : Stream.Measurement → ℕ → Bool
stream_shape_valid m exact_limit =
    m.limit_bytes == exact_limit && succeeds (Stream.encode_v1 0 m zeroed)

unfoldable pub scratch_shape_valid : Scratch.Measurement → Bool
scratch_shape_valid m =
    m.limit_bytes == Policy.scratch_bytes
    && m.limit_entries == Policy.scratch_entries
    && succeeds (Scratch.encode_v1 0 m zeroed)

-- (p != 0) == q of C, on truth values.
abbrev pub iff : Bool → Bool → Bool
iff true q = q
iff false q = not q

unfoldable pub allocator_shape_valid : Allocator.Snapshot → ℕ → ℕ → Bool
allocator_shape_valid a notifications reason = not (
    a.ceiling_bytes != Policy.runtime_heap_bytes
    || ltb a.peak_bytes a.current_bytes
    || ltb a.ceiling_bytes a.peak_bytes
    || ltb 1 a.ceiling_denied
    || a.system_allocation_failed != 0
    || a.status_notification_failed != 0
    || ltb 1 notifications
    || notifications != a.ceiling_denied
    || a.ceiling_denied != 0 && a.system_allocation_failed != 0
    || not (iff (reason == Reason.memory_limit) (a.ceiling_denied != 0)))

-- The greatest count of an output that crossed its limit.
abbrev pub maximum_output : Stream.Measurement → Stream.Measurement → ℕ
maximum_output out err =
    let of_stdout = if out.limit_crossed != 0 then out.observed_bytes else 0 in
    if err.limit_crossed != 0 && ltb of_stdout err.observed_bytes
    then err.observed_bytes
    else of_stdout

-- The cases of the switch on the reason.
unfoldable pub cause_fits : ℕ → ℕ → CandidateTermination → ℕ → Metrics → Allocator.Snapshot → Bool
cause_fits reason value t output metrics a =
    if reason == Reason.expected_exit
    then t.kind == Termination.exit && t.exit_code == 0 && value == 0
    else if reason == Reason.unexpected_exit
    then t.kind == Termination.exit && t.exit_code != 0 && value == t.exit_code
    else if reason == Reason.signal
    then t.kind == Termination.signal
      && t.signal_number != sigxcpu
      && t.signal_number != sigsys
      && value == t.signal_number
    else if reason == Reason.wall_timeout
    then t.kind == Termination.supervisor_kill
      && value == Policy.wall_time_ms
      && leb Policy.wall_time_ms metrics.wall_time_ms
    else if reason == Reason.cpu_limit
    then t.kind == Termination.signal && t.signal_number == sigxcpu && value == sigxcpu
    else if reason == Reason.memory_limit
    then (t.kind == Termination.supervisor_kill || t.kind == Termination.exit && t.exit_code != 0)
      && value != 0
      && leb value a.peak_bytes
    else if reason == Reason.output_limit
    then t.kind == Termination.supervisor_kill && value != 0 && leb value output
    else if reason == Reason.sandbox_policy_violation
    then t.kind == Termination.signal && t.signal_number == sigsys && value == sigsys
    else false

unfoldable pub reason_evidence_valid :
    ℕ
    → FirstCause
    → CandidateTermination
    → Stream.Measurement
    → Stream.Measurement
    → Metrics
    → Allocator.Snapshot
    → Bool
reason_evidence_valid reason cause t out err metrics a =
    not (
      cause.kind != reason
      || cause.monotonic_sequence == 0
      || ltb reason Reason.expected_exit
      || ltb Reason.sandbox_policy_violation reason
      || reason == Reason.scratch_limit
      || not (termination_shape_valid t))
    && iff (reason == Reason.output_limit) (out.limit_crossed != 0 || err.limit_crossed != 0)
    && cause_fits reason cause.observed_value t (maximum_output out err) metrics a

-- The writes of `encode_resource`, at `k` of the output.
unfoldable pub write_resource : ℕ → Metrics → Allocator.Snapshot → Buffer → Buffer
write_resource k metrics a output = poke (k + 80) a.ceiling_denied (
    put_u64 (k + 72) Policy.max_file_bytes (
      put_u64 (k + 64) Policy.max_open_files (
        put_u64 (k + 56) Policy.max_processes (
          put_u64 (k + 48) a.ceiling_bytes (
            put_u64 (k + 40) a.peak_bytes (
              put_u64 (k + 32) Policy.address_space_bytes (
                put_u64 (k + 24) metrics.max_rss_bytes (
                  put_u64 (k + 16) metrics.cpu_system_ms (
                    put_u64 (k + 8) metrics.cpu_user_ms
                      (put_u64 (k + 0) metrics.wall_time_ms (clear k 88 output)))))))))))

unfoldable pub encode_resource : ℕ → Metrics → Allocator.Snapshot → Buffer → Option Buffer
encode_resource k metrics a output = do
  let written = write_resource k metrics a output
  guard (resource_valid (at written k))
  some written

unfoldable pub encode_termination : ℕ → CandidateTermination → Buffer → Buffer
encode_termination k t output =
    put_u32 (k + 6) t.signal_number (put_u32 (k + 2) t.exit_code (put_u16 k t.kind output))

-- for (index = 0; index < n; index++) output[k + index] = 1;
unfoldable pub fill_ones : ℕ → ℕ → Buffer → Buffer
fill_ones zero k output = output
fill_ones (suc n) k output = fill_ones n (k + 1) (poke k 1 output)

-- The head of a report of the given kind: magic, version, size, kind, identity and token.
unfoldable pub report_head : ℕ → Buffer → Buffer → Buffer
report_head kind identity process_token = copy Layout.token_offset process_token 32 (
    copy Layout.identity_offset identity 128 (
      put_u16 Layout.kind_offset kind (
        put_u16 10 Layout.report_bytes
          (put_u16 8 Layout.report_version (copy 0 report_magic 8 zeroed)))))

-- The writes of a result behind its head, up to the measurements.
unfoldable pub result_facts : ReportInput → Buffer → Buffer
result_facts input head = put_u64 Layout.allocator_current_offset input.allocator.current_bytes (
    poke Layout.notification_failure_offset input.allocator.status_notification_failed (
      poke Layout.system_failure_offset input.allocator.system_allocation_failed (
        poke Layout.heap_notification_offset input.heap_denied_notifications (
          poke Layout.allocator_stable_offset 1 (
            poke Layout.status_eof_offset 1 (
              fill_ones 7 Layout.finality_offset (
                put_u64 (Layout.cause_offset + 12) input.phase.first_cause.observed_value (
                  put_u64 (Layout.cause_offset + 4) input.phase.first_cause.monotonic_sequence (
                    put_u16 Layout.cause_offset input.phase.first_cause.kind (
                      encode_termination (Layout.reason_offset + 2) input.termination
                        (put_u16 Layout.reason_offset input.phase.first_cause.kind head)))))))))))

-- The tests of an input before its reason is read.
unfoldable pub report_input_valid : ReportInput → Bool
report_input_valid input =
    input.status_eof_observed == 1
    && input.allocator_observation_stable == 1
    && identity_valid input.identity
    && digest_nonzero input.process_token
    && controller_report_ready input.phase
    && stream_shape_valid input.stdout_measurement Policy.stdout_bytes
    && stream_shape_valid input.stderr_measurement Policy.stderr_bytes
    && scratch_shape_valid input.scratch
    && source_stage_valid input.source_stage
    && input.source_stage 80 == 1
    && input.source_stage 81 == 1

-- The report, or none for -1.
unfoldable pub report_build : ReportInput → Option Buffer
report_build input = do
  guard (report_input_valid input)
  let reason = input.phase.first_cause.kind
  guard (
      allocator_shape_valid input.allocator input.heap_denied_notifications reason
      && reason_evidence_valid reason input.phase.first_cause input.termination
          input.stdout_measurement input.stderr_measurement input.candidate_metrics input.allocator)
  let head = report_head Layout.terminal_result input.identity input.process_token
  first ← Stream.encode_v1 Layout.stdout_offset input.stdout_measurement (result_facts input head)
  second ← Stream.encode_v1 Layout.stderr_offset input.stderr_measurement first
  third ← encode_resource Layout.resource_offset input.candidate_metrics input.allocator second
  fourth ← Scratch.encode_v1 Layout.scratch_offset input.scratch third
  some (copy Layout.stage_offset input.source_stage 84 fourth)

-- The observations that an incomplete one leaves: of stdout, of stderr and of the scratch tree.
unfoldable pub expected_observations : ℕ → ℕ → Option (ℕ × ℕ × ℕ)
expected_observations code subject =
    if code == ErrorCode.output_observation_incomplete
      && (subject == Layout.subject_stdout || subject == Layout.subject_stderr)
    then some (
      if subject == Layout.subject_stdout then 0 else 1,
      if subject == Layout.subject_stderr then 0 else 1,
      1,
    )
    else if code == ErrorCode.scratch_observation_incomplete && subject == Layout.subject_scratch
    then some (1, 1, 0)
    else none

unfoldable pub error_input_valid : ErrorInput → Bool
error_input_valid input =
    identity_valid input.identity
    && digest_nonzero input.process_token
    && source_stage_valid input.source_stage
    && input.source_stage 80 == 1
    && input.source_stage 81 == 1
    && input.candidate_terminal_observed == 1
    && input.process_tree_reaped == 1
    && input.status_eof_observed == 1

-- The writes of an error behind its head.
unfoldable pub error_facts : ErrorInput → Buffer → Buffer
error_facts input head = copy Layout.stage_offset input.source_stage 84 (
    poke Layout.status_eof_offset input.status_eof_observed (
      poke (Layout.finality_offset + 6) input.scratch_observation_complete (
        poke (Layout.finality_offset + 5) input.stderr_eof_observed (
          poke (Layout.finality_offset + 4) input.stdout_eof_observed (
            poke (Layout.finality_offset + 3) input.process_tree_reaped (
              poke (Layout.finality_offset + 2) input.candidate_terminal_observed (
                poke (Layout.finality_offset + 1) 1 (
                  poke Layout.finality_offset 1 (
                    put_u16 Layout.error_subject_offset input.subject
                      (put_u16 Layout.error_code_offset input.error_code head))))))))))

unfoldable pub error_build : ErrorInput → Option Buffer
error_build input = do
  guard (error_input_valid input)
  (expected_stdout, expected_stderr, expected_scratch) ←
      expected_observations input.error_code input.subject
  guard (
      input.stdout_eof_observed == expected_stdout
      && input.stderr_eof_observed == expected_stderr
      && input.scratch_observation_complete == expected_scratch)
  some (error_facts input (report_head Layout.terminal_error input.identity input.process_token))
