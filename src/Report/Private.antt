-- ===== src/Report/Private.antt =====
-- native/proc17_qa_report.c: the tests of a private report that was received.
use proc.Allocator
use proc.Base.{ℕ, ◌+◌, ◌-◌, Bool, true, ◌&&◌, ◌==◌, leb, if◌then◌else◌, ◌≡◌, ◌≢◌, ◌⊎◌, arith}
use proc.Controller.Clock.{Metrics}
use proc.Memory.{Buffer, at, copy, zeroed, mem_eq}
use proc.Phase.{FirstCause}
use proc.Policy
use proc.Report.{CandidateTermination, report_magic, allocator_shape_valid, reason_evidence_valid}
use proc.Report.Layout
use proc.Stream
use proc.Wire.Checks.{
  bytes_zero, digest_nonzero, boolean, identity_valid, source_stage_valid, stream_valid,
  resource_valid, scratch_valid,
}
use proc.Wire.ErrorCode
use proc.Wire.Integers.{get_u16, get_u32, get_u64}
use proc.Wire.RunV1.{all_one}

-- The tests that a result and an error share.
unfoldable pub head_valid : ℕ → Buffer → Bool
head_valid kind report =
    mem_eq 8 report report_magic
    && get_u16 (at report 8) == Layout.report_version
    && get_u16 (at report 10) == Layout.report_bytes
    && get_u16 (at report Layout.kind_offset) == kind
    && bytes_zero (at report 14) 2
    && identity_valid (at report Layout.identity_offset)
    && digest_nonzero (at report Layout.token_offset)

unfoldable pub stage_valid : Buffer → Bool
stage_valid report =
    source_stage_valid (at report Layout.stage_offset)
    && report (Layout.stage_offset + 80) == 1
    && report (Layout.stage_offset + 81) == 1

-- The first tests of a result, up to the loop over its finality bytes.
unfoldable pub result_flags_valid : Buffer → Bool
result_flags_valid report =
    bytes_zero (at report 190) 2
    && report Layout.status_eof_offset == 1
    && report Layout.allocator_stable_offset == 1
    && leb (report Layout.heap_notification_offset) 1
    && boolean (report Layout.system_failure_offset)
    && report Layout.notification_failure_offset == 0
    && bytes_zero (at report 220) 4
    && all_one 7 (at report Layout.finality_offset)

unfoldable pub parts_valid : Buffer → Bool
parts_valid report =
    stream_valid (at report Layout.stdout_offset)
    && stream_valid (at report Layout.stderr_offset)
    && resource_valid (at report Layout.resource_offset)
    && scratch_valid (at report Layout.scratch_offset)

-- The limits in a report are those of the policy.
unfoldable pub policy_kept : Buffer → Bool
policy_kept report =
    let resource = at report Layout.resource_offset in
    get_u64 (at resource 32) == Policy.address_space_bytes
    && get_u64 (at resource 48) == Policy.runtime_heap_bytes
    && get_u64 (at resource 56) == Policy.max_processes
    && get_u64 (at resource 64) == Policy.max_open_files
    && get_u64 (at resource 72) == Policy.max_file_bytes
    && get_u64 (at report (Layout.scratch_offset + 16)) == Policy.scratch_bytes
    && get_u64 (at report (Layout.scratch_offset + 24)) == Policy.scratch_entries

unfoldable pub read_termination : Buffer → CandidateTermination
read_termination report = record {
  kind = get_u16 (at report (Layout.reason_offset + 2));
  exit_code = get_u32 (at report (Layout.reason_offset + 4));
  signal_number = get_u32 (at report (Layout.reason_offset + 8));
}

unfoldable pub read_cause : Buffer → FirstCause
read_cause report = record {
  kind = get_u16 (at report Layout.cause_offset);
  monotonic_sequence = get_u64 (at report (Layout.cause_offset + 4));
  observed_value = get_u64 (at report (Layout.cause_offset + 12));
}

-- A stream measurement, read from its 64 bytes.
unfoldable pub read_stream : Buffer → Stream.Measurement
read_stream stream = record {
  observed_bytes = get_u64 stream;
  hashed_bytes = get_u64 (at stream 8);
  limit_bytes = get_u64 (at stream 16);
  prefix_digest = copy 0 (at stream 24) 32 zeroed;
  limit_crossed = stream 56;
  eof_observed = stream 57;
}

unfoldable pub read_metrics : Buffer → Metrics
read_metrics resource = record {
  wall_time_ms = get_u64 resource;
  cpu_user_ms = get_u64 (at resource 8);
  cpu_system_ms = get_u64 (at resource 16);
  max_rss_bytes = get_u64 (at resource 24);
}

unfoldable pub read_allocator : Buffer → Allocator.Snapshot
read_allocator report = record {
  ceiling_bytes = get_u64 (at report (Layout.resource_offset + 48));
  current_bytes = get_u64 (at report Layout.allocator_current_offset);
  peak_bytes = get_u64 (at report (Layout.resource_offset + 40));
  ceiling_denied = report (Layout.resource_offset + 80);
  system_allocation_failed = report Layout.system_failure_offset;
  status_notification_failed = report Layout.notification_failure_offset;
}

-- The tests on the facts that were read.
unfoldable pub facts_valid : Buffer → Bool
facts_valid report =
    let reason = get_u16 (at report Layout.reason_offset) in
    let out = read_stream (at report Layout.stdout_offset) in
    let err = read_stream (at report Layout.stderr_offset) in
    out.limit_bytes == Policy.stdout_bytes
    && err.limit_bytes == Policy.stderr_bytes
    && allocator_shape_valid (read_allocator report) (report Layout.heap_notification_offset) reason
    && reason_evidence_valid reason (read_cause report) (read_termination report) out err
        (read_metrics (at report Layout.resource_offset)) (read_allocator report)

unfoldable pub private_result_valid : Buffer → Bool
private_result_valid report =
    head_valid Layout.terminal_result report
    && result_flags_valid report
    && parts_valid report
    && stage_valid report
    && policy_kept report
    && facts_valid report

-- The three bytes of finality that depend on what was not observed.
unfoldable pub subject_fits : ℕ → ℕ → Buffer → Bool
subject_fits code subject finality =
    if code == ErrorCode.output_observation_incomplete && subject == Layout.subject_stdout
    then finality 4 == 0 && finality 5 == 1 && finality 6 == 1
    else if code == ErrorCode.output_observation_incomplete && subject == Layout.subject_stderr
    then finality 4 == 1 && finality 5 == 0 && finality 6 == 1
    else code == ErrorCode.scratch_observation_incomplete
      && subject == Layout.subject_scratch
      && finality 4 == 1
      && finality 5 == 1
      && finality 6 == 0

unfoldable pub private_error_valid : Buffer → Bool
private_error_valid report =
    let finality = at report Layout.finality_offset in
    head_valid Layout.terminal_error report
    && bytes_zero (at report 180) 28
    && report Layout.status_eof_offset == 1
    && bytes_zero (at report 216) (Layout.stage_offset - 216)
    && stage_valid report
    && finality 0 == 1
    && finality 1 == 1
    && finality 2 == 1
    && finality 3 == 1
    && subject_fits (get_u16 (at report Layout.error_code_offset))
        (get_u16 (at report Layout.error_subject_offset)) finality

-- The kind of a valid report, else 0.
unfoldable pub private_report_kind : Buffer → ℕ
private_report_kind report =
    let kind = get_u16 (at report Layout.kind_offset) in
    if kind == Layout.terminal_result
    then if private_result_valid report then kind else 0
    else if kind == Layout.terminal_error
    then if private_error_valid report then kind else 0
    else 0

pub private_result_valid-kind :
    (report : Buffer)
    → private_result_valid report ≡ true
    → private_report_kind report ≡ Layout.terminal_result
unfolding private_report_kind private_result_valid head_valid
private_result_valid-kind report h = ground arith

pub private_error_valid-kind :
    (report : Buffer)
    → private_error_valid report ≡ true
    → private_report_kind report ≡ Layout.terminal_error
unfolding private_report_kind private_error_valid head_valid
private_error_valid-kind report h = ground arith

-- Only a valid report has a kind.
pub private_report_kind-valid :
    (report : Buffer)
    → private_report_kind report ≢ 0
    → (private_report_kind report ≡ Layout.terminal_result) × (private_result_valid report ≡ true)
      ⊎ (private_report_kind report ≡ Layout.terminal_error) × (private_error_valid report ≡ true)
unfolding private_report_kind
private_report_kind-valid report h = ground arith
