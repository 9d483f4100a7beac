-- ===== src/Report/Incomplete.antt =====
-- native/proc17_qa_report.c: the report of an observation that is incomplete.
use proc.Base.{
  ℕ, ◌+◌, ◌≤◌, Bool, true, false, ◌==◌, if◌then◌else◌, none, some, ◌≡◌, ◌⊎◌, refl, ◌∙◌, arith, inl,
  inr,
}
use proc.Memory.{Buffer, at, zeroed, Agree, Agree_computed, mem_eq}
use proc.Report.{
  ErrorInput, error_build, error_facts, error_input_valid, expected_observations, report_head,
}
use proc.Report.Finalized.{Expected}
use proc.Report.Layout
use proc.Report.Private.{
  head_valid, stage_valid, subject_fits, private_error_valid, private_error_valid-kind,
}
use proc.Report.Public.{NamespaceObservation, namespace_cleanup_observe, error_payload, finalize}
use proc.Report.Terminal.{finalize-Sends}
use proc.Wire.Checks.{checks, identity_valid, digest_nonzero, source_stage_valid}
use proc.Wire.Frame.{View}
use proc.Wire.Integers.{get_u16, get_u16_ext, put_u16, get_u16-put}
use proc.Wire.RunV1.{decode_run_v1}

abbrev pub error_built : ErrorInput → Buffer
error_built input =
    error_facts input (report_head Layout.terminal_error input.identity input.process_token)

-- The tests that an input has passed for which an error is built.
pub record ErrorPassed (input : ErrorInput) : Type 0 where
  pub valid : error_input_valid input ≡ true
  pub known :
      subject_fits input.error_code input.subject (λ i.
        if i == 4
        then input.stdout_eof_observed
        else if i == 5
        then input.stderr_eof_observed
        else input.scratch_observation_complete)
      ≡ true
  pub code_fits : (7 ≤ input.error_code) × (input.error_code ≤ 8) × (input.subject ≤ 3)

error_build-ErrorPassed :
    (input : ErrorInput) {r : Buffer}
    → error_build input ≡ some r
    → (r ≡ error_built input) × ErrorPassed input
unfolding error_build expected_observations subject_fits
error_build-ErrorPassed input h =
    (ground arith, record { valid = ground arith; known = ground arith; code_fits = ground arith })

module _ (input : ErrorInput) (p : ErrorPassed input) where
  parts :
      (identity_valid input.identity ≡ true)
      × (digest_nonzero input.process_token ≡ true)
      × (source_stage_valid input.source_stage ≡ true)
      × (input.source_stage 80 ≡ 1)
      × (input.source_stage 81 ≡ 1)
      × (input.candidate_terminal_observed ≡ 1)
      × (input.process_tree_reaped ≡ 1)
      × (input.status_eof_observed ≡ 1)
  unfolding error_input_valid
  parts = ground (arith, p.valid)

  error_built-private_error_valid : private_error_valid (error_built input) ≡ true
  unfolding private_error_valid head_valid stage_valid subject_fits mem_eq checks report_head
      error_facts put_u16
  error_built-private_error_valid =
      let v = parts in
      let code = get_u16-put input.error_code zeroed (omega (arith, p.code_fits)) in
      let subject = get_u16-put input.subject zeroed (omega (arith, p.code_fits)) in
      rw (v.0, v.1, v.2, v.3, v.4, v.5, v.6, v.7, code, subject) p.known

  error_code_read : get_u16 (at (error_built input) 176) ≡ input.error_code
  unfolding get_u16 report_head error_facts put_u16
  error_code_read = get_u16-put input.error_code zeroed (omega (arith, p.code_fits))

  error_built-Expected : Expected 2 (error_built input) input.identity input.process_token
  unfolding mem_eq report_head error_facts put_u16
  error_built-Expected = record {
    of_kind = private_error_valid-kind (error_built input) error_built-private_error_valid;
    own = parts.0;
    named = parts.1;
    same_identity = Agree_computed 128 (at (error_built input) 16) input.identity refl;
    same_token = Agree_computed 32 (at (error_built input) 144) input.process_token refl;
  }

  error_payload_facts :
      Agree 128
        (error_payload (error_built input) input.identity (get_u16 (at (error_built input) 176)) 6)
        input.identity
      × (get_u16 (
            at
              (error_payload
                (error_built input)
                input.identity
                (get_u16 (at (error_built input) 176))
                6)
              132)
          ≡ input.error_code)
      × Agree 84
          (at
            (error_payload
              (error_built input)
              input.identity
              (get_u16 (at (error_built input) 176))
              6)
            184)
          input.source_stage
  unfolding get_u16 mem_eq error_payload report_head error_facts put_u16
  error_payload_facts =
      let payload =
        error_payload (error_built input) input.identity (get_u16 (at (error_built input) 176)) 6 in
      (
        Agree_computed 128 payload input.identity refl,
        get_u16-put (get_u16 (at (error_built input) 176)) zeroed
              (omega (arith, p.code_fits, error_code_read))
            ∙ error_code_read,
        Agree_computed 84 (at payload 184) input.source_stage refl,
      )

-- An error that the controller builds, for a supervisor that expects its identity and token, gives
-- no frame while the namespace is not cleaned up; once it is, the frame is decoded as an ERROR with
-- the identity, the code and the source stage of the input.
pub error_build-finalize :
    (input : ErrorInput) (status : ℕ) (o : NamespaceObservation) (frame : Buffer) {r : Buffer}
    {complete : Bool}
    → error_build input ≡ some r
    → namespace_cleanup_observe o status ≡ some complete
    → (complete ≡ false) × (finalize r input.identity input.process_token status o frame ≡ none)
      ⊎ (complete ≡ true)
        × (f : Buffer) × (v : View) × (finalize r input.identity input.process_token status o frame
            ≡ some (f, 348))
        × (decode_run_v1 f 348 ≡ some v)
        × (v.kind ≡ 8)
        × Agree 128 v.payload input.identity
        × (get_u16 (at v.payload 132) ≡ input.error_code)
        × Agree 84 (at v.payload 184) input.source_stage
error_build-finalize input status o frame {r} {complete} h observed =
    let (e, p) = error_build-ErrorPassed input h in
    let facts = error_payload_facts input p in
    let payload =
      error_payload (error_built input) input.identity (get_u16 (at (error_built input) 176)) 6 in
    rw e
      (elim (finalize-Sends 2 (error_built input) input.identity input.process_token status o frame
        (λ z. absurd (omega (arith, z))) (error_built-Expected input p) observed) [
          | inl (_, left_over, unsent) ↦ inl (left_over, unsent)
          | inr (which, (f, v, sent, decoded, kind, same, _)) ↦ inr (
            elim which [ inl one ↦ absurd (omega (arith, one)) | inr clean ↦ clean ],
            f,
            v,
            sent,
            decoded,
            kind,
            λ i lt. same i (omega arith) ∙ facts.0 i lt,
            get_u16_ext (at v.payload 132) (at payload 132) (λ i lt. same (132 + i) (omega arith))
                ∙ facts.1,
            λ i lt. same (184 + i) (omega arith) ∙ facts.2 i lt,
          )
        ])
