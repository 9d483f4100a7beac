-- ===== src/Report/Built.antt =====
-- native/proc17_qa_report.c: what a report that was built holds, byte by byte.
use proc.Base.{◌^◌, ◌<◌, ◌≤◌, true, leb, some, ◌≡◌, refl, ◌∙◌, arith, le→leb}
use proc.Memory.{Buffer, at, copy, mem_eq, zeroed}
use proc.Policy
use proc.Report.{
  ReportInput, report_head, result_facts, report_input_valid, report_build, encode_resource,
  write_resource, encode_termination, fill_ones, allocator_shape_valid, reason_evidence_valid,
  termination_shape_valid, stream_shape_valid, scratch_shape_valid,
}
use proc.Report.Layout
use proc.Report.Private.{
  head_valid, stage_valid, result_flags_valid, parts_valid, policy_kept, read_termination,
  read_cause, read_stream, read_metrics, read_allocator, facts_valid, private_result_valid,
}
use proc.Scratch
use proc.Stream
use proc.Wire.Checks.{
  checks, digest_nonzero, identity_valid, source_stage_valid, stream_valid, resource_valid,
  scratch_valid,
}
use proc.Wire.Integers.{get_u16, put_u16, put_u32, put_u64, get_u16-put, get_u32-put, get_u64-put}
use proc.Wire.RunV1.{all_one}

module _ (input : ReportInput) where
  abbrev pub with_facts : Buffer
  with_facts =
      result_facts input (report_head Layout.terminal_result input.identity input.process_token)

  abbrev pub with_stdout : Buffer
  with_stdout = Stream.write_v1 Layout.stdout_offset input.stdout_measurement with_facts

  abbrev pub with_stderr : Buffer
  with_stderr = Stream.write_v1 Layout.stderr_offset input.stderr_measurement with_stdout

  abbrev pub with_resource : Buffer
  with_resource =
      write_resource Layout.resource_offset input.candidate_metrics input.allocator with_stderr

  abbrev pub with_scratch : Buffer
  with_scratch = Scratch.write_v1 Layout.scratch_offset input.scratch with_resource

  abbrev pub built : Buffer
  built = copy Layout.stage_offset input.source_stage 84 with_scratch

-- The tests that an input has passed for which a report is built.
pub record Passed (input : ReportInput) : Type 0 where
  pub valid : report_input_valid input ≡ true
  pub allocated :
      allocator_shape_valid input.allocator input.heap_denied_notifications
        input.phase.first_cause.kind
      ≡ true
  pub evident :
      reason_evidence_valid input.phase.first_cause.kind input.phase.first_cause input.termination
        input.stdout_measurement input.stderr_measurement input.candidate_metrics input.allocator
      ≡ true
  pub out_valid : stream_valid (at (with_stdout input) Layout.stdout_offset) ≡ true
  pub err_valid : stream_valid (at (with_stderr input) Layout.stderr_offset) ≡ true
  pub resources_valid : resource_valid (at (with_resource input) Layout.resource_offset) ≡ true
  pub tree_valid : scratch_valid (at (with_scratch input) Layout.scratch_offset) ≡ true

pub report_build-Passed :
    (input : ReportInput) {r : Buffer}
    → report_build input ≡ some r
    → (r ≡ built input) × Passed input
unfolding report_build Stream.encode_v1 Scratch.encode_v1 encode_resource
report_build-Passed input h = (
  ground arith,
  record {
    valid = ground arith;
    allocated = ground arith;
    evident = ground arith;
    out_valid = ground arith;
    err_valid = ground arith;
    resources_valid = ground arith;
    tree_valid = ground arith;
  },
)

-- The numbers whose range no test of the builder bounds fit their fields.
pub record Fits (input : ReportInput) : Type 0 where
  pub sequence : input.phase.first_cause.monotonic_sequence < 2 ^ 64
  pub value : input.phase.first_cause.observed_value < 2 ^ 64
  pub wall : input.candidate_metrics.wall_time_ms < 2 ^ 64
  pub user : input.candidate_metrics.cpu_user_ms < 2 ^ 64
  pub system : input.candidate_metrics.cpu_system_ms < 2 ^ 64
  pub memory : input.candidate_metrics.max_rss_bytes < 2 ^ 64
  pub out : input.stdout_measurement.observed_bytes < 2 ^ 64
  pub err : input.stderr_measurement.observed_bytes < 2 ^ 64

module _ (input : ReportInput) (p : Passed input) where
  valid_parts :
      (identity_valid input.identity ≡ true)
      × (digest_nonzero input.process_token ≡ true)
      × (source_stage_valid input.source_stage ≡ true)
      × (input.source_stage 80 ≡ 1)
      × (input.source_stage 81 ≡ 1)
  unfolding report_input_valid
  valid_parts = ground (arith, p.valid)

  small_parts :
      (input.heap_denied_notifications ≤ 1)
      × (input.allocator.system_allocation_failed ≡ 0)
      × (input.allocator.status_notification_failed ≡ 0)
      × (input.allocator.ceiling_bytes ≡ 67108864)
      × (input.allocator.peak_bytes ≤ 67108864)
      × (input.allocator.current_bytes ≤ 67108864)
  unfolding allocator_shape_valid
  small_parts = ground (arith, p.allocated)

  built-head_valid : head_valid Layout.terminal_result (built input) ≡ true
  unfolding head_valid mem_eq checks report_head result_facts encode_termination fill_ones put_u16
      put_u32 put_u64 Stream.write_v1 Scratch.write_v1 write_resource
  built-head_valid = let v = valid_parts in rw (v.0, v.1) refl

  built-result_flags_valid : result_flags_valid (built input) ≡ true
  unfolding result_flags_valid all_one checks report_head result_facts encode_termination fill_ones
      put_u16 put_u32 put_u64 Stream.write_v1 Scratch.write_v1 write_resource
  built-result_flags_valid =
      let small = small_parts in
      let few : leb input.heap_denied_notifications 1 ≡ true =
        le→leb input.heap_denied_notifications 1 small.0 in
      rw (few, small.1, small.2) refl

  built-parts_valid : parts_valid (built input) ≡ true
  unfolding parts_valid checks report_head result_facts encode_termination fill_ones put_u16 put_u32
      put_u64 Stream.write_v1 Scratch.write_v1 write_resource
  built-parts_valid = rw (p.out_valid, p.err_valid, p.resources_valid, p.tree_valid) refl

  built-stage_valid : stage_valid (built input) ≡ true
  unfolding stage_valid checks report_head result_facts encode_termination fill_ones put_u16 put_u32
      put_u64 Stream.write_v1 Scratch.write_v1 write_resource
  built-stage_valid =
      let (_, _, stage, staged, read_only) = valid_parts in rw (stage, staged, read_only) refl

  termination_fits :
      (input.termination.kind ≤ 3)
      × (input.termination.exit_code < 2 ^ 32)
      × (input.termination.signal_number < 2 ^ 32)
      × (input.phase.first_cause.kind ≤ 9)
  unfolding reason_evidence_valid termination_shape_valid
  termination_fits = ground (arith, p.evident)

  limits_kept :
      (input.stdout_measurement.limit_bytes ≡ 1048576)
      × (input.stderr_measurement.limit_bytes ≡ 1048576)
      × (input.scratch.limit_bytes ≡ 67108864)
      × (input.scratch.limit_entries ≡ 4096)
  unfolding report_input_valid stream_shape_valid scratch_shape_valid
  limits_kept = ground (arith, p.valid)

  built-policy_kept : policy_kept (built input) ≡ true
  unfolding policy_kept checks report_head result_facts encode_termination fill_ones put_u16 put_u32
      put_u64 Stream.write_v1 Scratch.write_v1 write_resource
  built-policy_kept =
      let small = small_parts in let limits = limits_kept in rw (small.3, limits.2, limits.3) refl

  module _ (f : Fits input) where
    read_termination-built : read_termination (built input) ≡ input.termination
    unfolding read_termination checks report_head result_facts encode_termination fill_ones put_u16
        put_u32 put_u64 Stream.write_v1 Scratch.write_v1 write_resource
    read_termination-built =
        let t = termination_fits in
        λ i. record {
          kind = get_u16-put input.termination.kind zeroed (omega arith) i;
          exit_code = get_u32-put input.termination.exit_code zeroed t.1 i;
          signal_number = get_u32-put input.termination.signal_number zeroed t.2 i;
        }

    pub read_cause-built : read_cause (built input) ≡ input.phase.first_cause
    unfolding read_cause checks report_head result_facts encode_termination fill_ones put_u16
        put_u32 put_u64 Stream.write_v1 Scratch.write_v1 write_resource
    read_cause-built =
        let t = termination_fits in
        λ i. record {
          kind = get_u16-put input.phase.first_cause.kind zeroed (omega arith) i;
          monotonic_sequence =
              get_u64-put input.phase.first_cause.monotonic_sequence zeroed f.sequence i;
          observed_value = get_u64-put input.phase.first_cause.observed_value zeroed f.value i;
        }

    read_metrics-built :
        read_metrics (at (built input) Layout.resource_offset) ≡ input.candidate_metrics
    unfolding read_metrics checks report_head result_facts encode_termination fill_ones put_u16
        put_u32 put_u64 Stream.write_v1 Scratch.write_v1 write_resource
    read_metrics-built i = record {
      wall_time_ms = get_u64-put input.candidate_metrics.wall_time_ms zeroed f.wall i;
      cpu_user_ms = get_u64-put input.candidate_metrics.cpu_user_ms zeroed f.user i;
      cpu_system_ms = get_u64-put input.candidate_metrics.cpu_system_ms zeroed f.system i;
      max_rss_bytes = get_u64-put input.candidate_metrics.max_rss_bytes zeroed f.memory i;
    }

    read_allocator-built : read_allocator (built input) ≡ input.allocator
    unfolding read_allocator checks report_head result_facts encode_termination fill_ones put_u16
        put_u32 put_u64 Stream.write_v1 Scratch.write_v1 write_resource
    read_allocator-built =
        let small = small_parts in
        λ i. record {
          ceiling_bytes =
              get_u64-put input.allocator.ceiling_bytes zeroed (omega (arith, small.3)) i;
          current_bytes =
              get_u64-put input.allocator.current_bytes zeroed (omega (arith, small.5)) i;
          peak_bytes = get_u64-put input.allocator.peak_bytes zeroed (omega (arith, small.4)) i;
          ceiling_denied = input.allocator.ceiling_denied;
          system_allocation_failed = input.allocator.system_allocation_failed;
          status_notification_failed = input.allocator.status_notification_failed;
        }

    pub read_reason-built :
        (get_u16 (at (built input) Layout.reason_offset) ≡ input.phase.first_cause.kind)
        × (built input Layout.heap_notification_offset ≡ input.heap_denied_notifications)
    unfolding get_u16 checks report_head result_facts encode_termination fill_ones put_u16 put_u32
        put_u64 Stream.write_v1 Scratch.write_v1 write_resource
    read_reason-built =
        let t = termination_fits in
        (get_u16-put input.phase.first_cause.kind zeroed (omega arith), refl)

    abbrev pub out : Stream.Measurement
    out = read_stream (at (built input) Layout.stdout_offset)

    abbrev pub err : Stream.Measurement
    err = read_stream (at (built input) Layout.stderr_offset)

    pub read_stdout-built :
        (out.observed_bytes ≡ input.stdout_measurement.observed_bytes)
        × (out.limit_bytes ≡ Policy.stdout_bytes)
        × (out.limit_crossed ≡ input.stdout_measurement.limit_crossed)
    unfolding read_stream checks report_head result_facts encode_termination fill_ones put_u16
        put_u32 put_u64 Stream.write_v1 Scratch.write_v1 write_resource
    read_stdout-built =
        let limits = limits_kept in
        (
          get_u64-put input.stdout_measurement.observed_bytes zeroed f.out,
          get_u64-put input.stdout_measurement.limit_bytes zeroed (omega (arith, limits.0))
              ∙ limits.0,
          refl,
        )

    pub read_stderr-built :
        (err.observed_bytes ≡ input.stderr_measurement.observed_bytes)
        × (err.limit_bytes ≡ Policy.stderr_bytes)
        × (err.limit_crossed ≡ input.stderr_measurement.limit_crossed)
    unfolding read_stream checks report_head result_facts encode_termination fill_ones put_u16
        put_u32 put_u64 Stream.write_v1 Scratch.write_v1 write_resource
    read_stderr-built =
        let limits = limits_kept in
        (
          get_u64-put input.stderr_measurement.observed_bytes zeroed f.err,
          get_u64-put input.stderr_measurement.limit_bytes zeroed (omega (arith, limits.1))
              ∙ limits.1,
          refl,
        )

    evidence_streams :
        reason_evidence_valid input.phase.first_cause.kind input.phase.first_cause input.termination
          out err input.candidate_metrics input.allocator
        ≡ true
    unfolding reason_evidence_valid
    evidence_streams =
        let o = read_stdout-built in let e = read_stderr-built in rw (o.0, o.2, e.0, e.2) p.evident

    built-facts_valid : facts_valid (built input) ≡ true
    unfolding facts_valid
    built-facts_valid =
        let reason = read_reason-built in
        let o = read_stdout-built in
        let e = read_stderr-built in
        rw
          (
            reason.0, reason.1, read_allocator-built, read_cause-built, read_termination-built,
            read_metrics-built, evidence_streams, o.1, e.1, p.allocated,
          )
          refl

    pub built-private_result_valid : private_result_valid (built input) ≡ true
    unfolding private_result_valid
    built-private_result_valid =
        rw
          (
            built-head_valid, built-result_flags_valid, built-parts_valid, built-stage_valid,
            built-policy_kept, built-facts_valid,
          )
          refl
