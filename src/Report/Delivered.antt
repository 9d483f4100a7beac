-- ===== src/Report/Delivered.antt =====
-- native/proc17_qa_report.c: what the controller puts in is what the reader of the frame gets.
use proc.Base.{ℕ, ◌+◌, ◌≤◌, true, some, ◌≡◌, refl, ap, ◌∙◌, arith, inl, inr}
use proc.Memory.{Buffer, at, Agree, Agree_computed, mem_eq}
use proc.Phase.{FirstCause}
use proc.Report.{
  ReportInput, report_build, report_head, result_facts, write_resource, encode_termination,
  fill_ones, report_input_valid,
}
use proc.Report.Built.{
  built, Passed, Fits, report_build-Passed, built-private_result_valid, read_cause-built,
  read_reason-built, read_stdout-built, read_stderr-built,
}
use proc.Report.Private.{private_result_valid-kind, read_cause, read_stream}
use proc.Report.Public.{NamespaceObservation, namespace_cleanup_observe, result_payload, finalize}
use proc.Report.Terminal.{finalize-Sends}
use proc.Report.Finalized.{Expected}
use proc.Scratch
use proc.Stream
use proc.Wire.Frame.{View}
use proc.Wire.Integers.{get_u16, get_u64, get_u16_ext, get_u64_ext, put_u16, put_u32, put_u64}
use proc.Wire.RunV1.{decode_run_v1}

module _ (input : ReportInput) (p : Passed input) where
  built_names :
      Agree 128 (at (built input) 16) input.identity
      × Agree 32 (at (built input) 144) input.process_token
  unfolding mem_eq report_head result_facts encode_termination fill_ones put_u16 put_u32 put_u64
      Stream.write_v1 Scratch.write_v1 write_resource
  built_names = (
    Agree_computed 128 (at (built input) 16) input.identity refl,
    Agree_computed 32 (at (built input) 144) input.process_token refl,
  )

  built_stage : Agree 84 (at (built input) 488) input.source_stage
  unfolding mem_eq report_head result_facts encode_termination fill_ones put_u16 put_u32 put_u64
      Stream.write_v1 Scratch.write_v1 write_resource
  built_stage = Agree_computed 84 (at (built input) 488) input.source_stage refl

  pub built-Expected : Fits input → Expected 1 (built input) input.identity input.process_token
  unfolding report_input_valid
  built-Expected f = record {
    of_kind = private_result_valid-kind (built input) (built-private_result_valid input p f);
    own = ground (arith, p.valid);
    named = ground (arith, p.valid);
    same_identity = built_names.0;
    same_token = built_names.1;
  }

  -- The numbers of the public payload.
  payload_numbers :
      Fits input
      → (identity : Buffer)
      → (get_u16 (at (result_payload (built input) identity) 132) ≡ input.phase.first_cause.kind)
        × (get_u64 (at (result_payload (built input) identity) 148)
            ≡ input.phase.first_cause.monotonic_sequence)
        × (get_u64 (at (result_payload (built input) identity) 156)
            ≡ input.phase.first_cause.observed_value)
        × (get_u64 (at (result_payload (built input) identity) 172)
            ≡ input.stdout_measurement.observed_bytes)
        × (get_u64 (at (result_payload (built input) identity) 236)
            ≡ input.stderr_measurement.observed_bytes)
  unfolding get_u16 get_u64 result_payload fill_ones put_u16 read_cause read_stream
  payload_numbers f identity =
      let cause = read_cause-built input p f in
      (
        (read_reason-built input p f).0,
        ap (λ (c : FirstCause). c.monotonic_sequence) cause,
        ap (λ (c : FirstCause). c.observed_value) cause,
        (read_stdout-built input p f).0,
        (read_stderr-built input p f).0,
      )

  payload_blocks :
      (identity : Buffer)
      → Agree 128 (result_payload (built input) identity) identity
        × Agree 84 (at (result_payload (built input) identity) 428) (at (built input) 488)
  unfolding mem_eq result_payload fill_ones put_u16
  payload_blocks identity = (
    Agree_computed 128 (result_payload (built input) identity) identity refl,
    Agree_computed 84 (at (result_payload (built input) identity) 428) (at (built input) 488) refl,
  )

-- The numbers of a payload that agrees.
module _ (x y : Buffer) (same : Agree 512 x y) where
  same_u16 : (k : ℕ) → k + 2 ≤ 512 → get_u16 (at x k) ≡ get_u16 (at y k)
  same_u16 k fits = get_u16_ext (at x k) (at y k) (λ i lt. same (k + i) (omega arith))

  same_u64 : (k : ℕ) → k + 8 ≤ 512 → get_u64 (at x k) ≡ get_u64 (at y k)
  same_u64 k fits = get_u64_ext (at x k) (at y k) (λ i lt. same (k + i) (omega arith))

-- A report that the controller builds from an input of 64-bit numbers is finalized by a supervisor
-- that expects its identity and token and has seen the namespace cleaned up: the frame is decoded
-- as a RESULT with the identity, the first cause with its number and value, the counts of both
-- outputs and the source stage of the input.
pub report_build-finalize :
    (input : ReportInput) (status : ℕ) (o : NamespaceObservation) (frame : Buffer) {r : Buffer}
    → report_build input ≡ some r
    → Fits input
    → namespace_cleanup_observe o status ≡ some true
    → (f : Buffer) × (v : View) × (finalize r input.identity input.process_token status o frame
        ≡ some (f, 592))
      × (decode_run_v1 f 592 ≡ some v)
      × (v.kind ≡ 7)
      × Agree 128 v.payload input.identity
      × (get_u16 (at v.payload 132) ≡ input.phase.first_cause.kind)
      × (get_u64 (at v.payload 148) ≡ input.phase.first_cause.monotonic_sequence)
      × (get_u64 (at v.payload 156) ≡ input.phase.first_cause.observed_value)
      × (get_u64 (at v.payload 172) ≡ input.stdout_measurement.observed_bytes)
      × (get_u64 (at v.payload 236) ≡ input.stderr_measurement.observed_bytes)
      × Agree 84 (at v.payload 428) input.source_stage
report_build-finalize input status o frame {r} h fits clean =
    let (e, p) = report_build-Passed input h in
    let payload = result_payload (built input) input.identity in
    let numbers = payload_numbers input p fits input.identity in
    let blocks = payload_blocks input p input.identity in
    let stage = built_stage input p in
    elim (finalize-Sends 1 (built input) input.identity input.process_token status o frame
      (λ z. absurd (omega (arith, z))) (built-Expected input p fits) clean) [
        | inl (two, _, _) ↦ absurd (omega (arith, two))
        | inr (_, (f, v, sent, decoded, kind, same, _)) ↦ (
          f,
          v,
          rw e sent,
          decoded,
          kind,
          λ i lt. same i (omega arith) ∙ blocks.0 i lt,
          same_u16 v.payload payload same 132 (omega arith) ∙ numbers.0,
          same_u64 v.payload payload same 148 (omega arith) ∙ numbers.1,
          same_u64 v.payload payload same 156 (omega arith) ∙ numbers.2,
          same_u64 v.payload payload same 172 (omega arith) ∙ numbers.3,
          same_u64 v.payload payload same 236 (omega arith) ∙ numbers.4,
          λ i lt. same (428 + i) (omega arith) ∙ blocks.1 i lt ∙ stage i lt,
        )
      ]
