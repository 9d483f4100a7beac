-- ===== src/Tests/Outcomes.antt =====
-- native/proc17_qa_report.c: reports of concrete runs.
use proc.Base.{◌≡◌, ◌⊎◌, refl, arith, some, none, true, false, Bool, ℕ}
use proc.Memory.{at, zeroed, Agree, Buffer}
use proc.Phase.{controller_report_ready}
use proc.Report.{
  ReportInput, ErrorInput, report_build, error_build, report_input_valid, error_input_valid,
  expected_observations, stream_shape_valid, scratch_shape_valid, allocator_shape_valid,
  reason_evidence_valid, termination_shape_valid, cause_fits, encode_resource, write_resource,
  encode_termination, fill_ones, report_head, result_facts, error_facts,
}
use proc.Report.Built.{built, Fits, report_build-Passed}
use proc.Report.Delivered.{report_build-finalize, built-Expected}
use proc.Report.Finalized.{Expected}
use proc.Report.Incomplete.{error_built, error_build-finalize}
use proc.Report.Private.{private_result_valid}
use proc.Report.Public.{NamespaceObservation, namespace_cleanup_observe, finalize}
use proc.Report.Terminal.{Sends, finalize-Sends, finalize-result}
use proc.Scratch
use proc.Stream
use proc.Tests.Blocks.{ones, threes, stage}
use proc.Wire.Checks.{checks}
use proc.Wire.Frame.{View}
use proc.Wire.Integers.{get_u16, get_u64, put_u16, put_u32, put_u64}
use proc.Wire.RunV1.{decode_run_v1}

-- Three bytes of output.
abbrev output : Stream.Measurement
output = record {
  observed_bytes = 3;
  hashed_bytes = 3;
  limit_bytes = 1048576;
  prefix_digest = ones;
  limit_crossed = 0;
  eof_observed = 1;
}

-- A run that exits with 0.
abbrev input : ReportInput
input = record {
  identity = ones;
  process_token = threes;
  phase = record {
    next_sequence = 1;
    first_cause = record { kind = 1; monotonic_sequence = 1; observed_value = 0 };
    finality_mask = 127;
    started_attested = 1;
    candidate_release_authorized = 1;
  };
  termination = record { kind = 1; exit_code = 0; signal_number = 4294967295 };
  stdout_measurement = output;
  stderr_measurement = output;
  candidate_metrics = record {
    wall_time_ms = 20;
    cpu_user_ms = 10;
    cpu_system_ms = 5;
    max_rss_bytes = 102400;
  };
  allocator = record {
    ceiling_bytes = 67108864;
    current_bytes = 100;
    peak_bytes = 200;
    ceiling_denied = 0;
    system_allocation_failed = 0;
    status_notification_failed = 0;
  };
  scratch = record {
    stored_regular_bytes = 7;
    stored_entries = 1;
    limit_bytes = 67108864;
    limit_entries = 4096;
    byte_capacity_exhausted = 0;
    entry_capacity_exhausted = 0;
    inventory_complete = 1;
  };
  source_stage = stage;
  status_eof_observed = 1;
  allocator_observation_stable = 1;
  heap_denied_notifications = 0;
}

input-built : report_build input ≡ some (built input)
unfolding report_build report_input_valid controller_report_ready stream_shape_valid
    scratch_shape_valid allocator_shape_valid reason_evidence_valid termination_shape_valid
    cause_fits encode_resource write_resource encode_termination fill_ones report_head result_facts
    Stream.encode_v1 Stream.measurement_valid Stream.write_v1 Scratch.encode_v1
    Scratch.measurement_valid Scratch.write_v1 put_u16 put_u32 put_u64 checks
input-built = refl

input-Fits : Fits input
input-Fits = omega arith

-- The controller was reaped, and everything is closed.
abbrev clean : NamespaceObservation
clean = record {
  controller_pidfd_identity_retained = 1;
  terminal_record_complete = 1;
  terminal_record_eof_observed = 1;
  controller_reaped = 1;
  controller_authority_closed = 1;
}

clean_observed : namespace_cleanup_observe clean 0 ≡ some true
unfolding namespace_cleanup_observe
clean_observed = refl

report_build-finalize_example :
    (f : Buffer) × (v : View) × (finalize (built input) ones threes 0 clean zeroed ≡ some (f, 592))
    × (decode_run_v1 f 592 ≡ some v)
    × (v.kind ≡ 7)
    × Agree 128 v.payload ones
    × (get_u16 (at v.payload 132) ≡ 1)
    × (get_u64 (at v.payload 148) ≡ 1)
    × (get_u64 (at v.payload 156) ≡ 0)
    × (get_u64 (at v.payload 172) ≡ 3)
    × (get_u64 (at v.payload 236) ≡ 3)
    × Agree 84 (at v.payload 428) stage
report_build-finalize_example =
    report_build-finalize input 0 clean zeroed input-built input-Fits clean_observed

input-Expected : Expected 1 (built input) ones threes
input-Expected = built-Expected input (report_build-Passed input input-built).1 input-Fits

finalize-Sends_example :
    (◌≡◌ {A = ℕ} 1 2 × (true ≡ false) × (finalize (built input) ones threes 0 clean zeroed ≡ none))
    ⊎ (◌≡◌ {A = ℕ} 1 1 ⊎ ◌≡◌ {A = Bool} true true)
      × Sends (built input) ones 1 true (finalize (built input) ones threes 0 clean zeroed)
finalize-Sends_example =
    finalize-Sends 1 (built input) ones threes 0 clean zeroed (λ z. absurd (omega (arith, z)))
      input-Expected clean_observed

-- Stdout did not end.
abbrev unended : ErrorInput
unended = record {
  identity = ones;
  process_token = threes;
  source_stage = stage;
  error_code = 7;
  subject = 1;
  candidate_terminal_observed = 1;
  process_tree_reaped = 1;
  stdout_eof_observed = 0;
  stderr_eof_observed = 1;
  scratch_observation_complete = 1;
  status_eof_observed = 1;
}

unended-built : error_build unended ≡ some (error_built unended)
unfolding error_build error_input_valid expected_observations error_facts report_head put_u16 checks
unended-built = refl

error_build-finalize_example :
    (true ≡ false) × (finalize (error_built unended) ones threes 0 clean zeroed ≡ none)
    ⊎ (◌≡◌ {A = Bool} true true)
      × (f : Buffer) × (v : View) × (finalize (error_built unended) ones threes 0 clean zeroed
          ≡ some (f, 348))
      × (decode_run_v1 f 348 ≡ some v)
      × (v.kind ≡ 8)
      × Agree 128 v.payload ones
      × (get_u16 (at v.payload 132) ≡ 7)
      × Agree 84 (at v.payload 184) stage
error_build-finalize_example =
    error_build-finalize unended 0 clean zeroed unended-built clean_observed

abbrev sent :
    (f : Buffer) × (v : View) × (finalize (built input) ones threes 0 clean zeroed ≡ some (f, 592))
    × (decode_run_v1 f 592 ≡ some v)
    × (v.kind ≡ 7)
sent =
    let (f, v, made, decoded, kind, _, _, _, _, _, _, _) =
      report_build-finalize input 0 clean zeroed input-built input-Fits clean_observed in
    (f, v, made, decoded, kind)

finalize-result_example :
    (private_result_valid (built input) ≡ true)
    × (namespace_cleanup_observe clean 0 ≡ some true)
    × Agree 128 (at (built input) 16) ones
    × Agree 32 (at (built input) 144) threes
finalize-result_example =
    finalize-result (built input) ones threes 0 clean zeroed sent.0 592 {v = sent.1} sent.2 sent.3
      sent.4
