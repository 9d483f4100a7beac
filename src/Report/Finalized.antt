-- ===== src/Report/Finalized.antt =====
-- native/proc17_qa_report.c: the frame that a private report becomes.
use proc.Base.{
  ℕ, ◌≤◌, Bool, true, ◌==◌, ◌!=◌, leb, some, ◌≡◌, ◌≢◌, refl, sym, ◌∙◌, arith, bit_or, Option-cases,
  inl, inr, ==→eq, le→leb,
}
use proc.Base.Bits.{zero-bit_or, bit_or-eq-zero}
use proc.Memory.{Buffer, at, zeroed, Agree, Agree-mem_eq, mem_eq-Agree}
use proc.Report.{reason_evidence_valid, termination_shape_valid, fill_ones}
use proc.Report.Private.{
  stage_valid, result_flags_valid, parts_valid, facts_valid, read_cause, read_termination,
  private_result_valid, private_error_valid, private_report_kind, subject_fits,
}
use proc.Report.Public.{
  NamespaceObservation, namespace_cleanup_observe, result_payload, error_payload,
  encode_public_error, encode_public_result, publish, finalize,
}
use proc.Wire.Checks.{
  checks, bytes_zero, zero_loop, digest_nonzero, identity_valid, source_stage_valid, stream_valid,
  resource_valid, scratch_valid,
}
use proc.Wire.Frame.{View}
use proc.Wire.Integers.{get_u16, get_u64, put_u16, get_u16-put}
use proc.Wire.RunV1.{result_valid, error_valid, all_one, payload_valid, decode_run_v1}
use proc.Wire.RunV1.RoundTrip.{decode_run_v1-encode_run_v1}

-- What the tests of a private result say about the numbers that are copied.
result_numbers :
    (r : Buffer)
    → private_result_valid r ≡ true
    → (leb 1 (get_u16 (at r 176)) ≡ true)
      × (leb (get_u16 (at r 176)) 9 ≡ true)
      × (leb 1 (get_u16 (at r 178)) ≡ true)
      × (leb (get_u16 (at r 178)) 3 ≡ true)
      × ((get_u16 (at r 188) == get_u16 (at r 176)) ≡ true)
      × ((get_u64 (at r 192) != 0) ≡ true)
unfolding private_result_valid facts_valid read_cause read_termination reason_evidence_valid
    termination_shape_valid
result_numbers r h = ground arith

two_zero : (b : Buffer) → bytes_zero b 2 ≡ true → (b 0 ≡ 0) × (b 1 ≡ 0)
unfolding bytes_zero zero_loop
two_zero b h =
    let (first, second) = bit_or-eq-zero (bit_or 0 (b 0)) (b 1) (==→eq _ 0 h) in
    (sym (zero-bit_or (b 0)) ∙ first, second)

result_parts :
    (r : Buffer)
    → private_result_valid r ≡ true
    → (stream_valid (at r 232) ≡ true)
      × (stream_valid (at r 296) ≡ true)
      × (resource_valid (at r 360) ≡ true)
      × (scratch_valid (at r 448) ≡ true)
      × (source_stage_valid (at r 488) ≡ true)
      × (bytes_zero (at r 190) 2 ≡ true)
unfolding private_result_valid parts_valid stage_valid result_flags_valid
result_parts r h = ground arith

-- A private result that is valid becomes a payload that is valid: the test before the encoding
-- never fails.
result_payload-result_valid :
    (r identity : Buffer)
    → private_result_valid r ≡ true
    → identity_valid identity ≡ true
    → result_valid (result_payload r identity) 512 ≡ true
unfolding result_valid all_one result_payload fill_ones put_u16 checks
result_payload-result_valid r identity h i =
    let n = result_numbers r h in
    let p = result_parts r h in
    let zeros = two_zero (at r 190) p.5 in
    rw (i, n.0, n.1, n.2, n.3, n.4, n.5, p.0, p.1, p.2, p.3, p.4, zeros.0, zeros.1) refl

-- An error is published under one of three codes, with a stage of the run.
error_payload-error_valid :
    (r identity : Buffer) (code stage : ℕ)
    → source_stage_valid (at r 488) ≡ true
    → identity_valid identity ≡ true
    → 1 ≤ code
    → code ≤ 9
    → 1 ≤ stage
    → stage ≤ 7
    → error_valid (error_payload r identity code stage) 268 ≡ true
unfolding error_valid error_payload put_u16 checks
error_payload-error_valid r identity code stage s i c1 c9 s1 s7 =
    let code_read = get_u16-put code zeroed (omega arith) in
    let stage_read = get_u16-put stage zeroed (omega arith) in
    rw
      (
        i,
        code_read,
        stage_read,
        le→leb 1 code c1,
        le→leb code 9 c9,
        le→leb 1 stage s1,
        le→leb stage 7 s7,
        s,
      )
      refl

module _ (r identity : Buffer) (frame : Buffer) (i : identity_valid identity ≡ true) where
  result_payload-nonce : Agree 32 identity (result_payload r identity)
  unfolding result_payload fill_ones put_u16
  result_payload-nonce k lt = ground arith

  error_payload-nonce : (code stage : ℕ) → Agree 32 identity (error_payload r identity code stage)
  unfolding error_payload put_u16
  error_payload-nonce code stage k lt = ground arith

  pub encode_public_result-decoded :
      private_result_valid r ≡ true
      → (f : Buffer) × (v : View) × (encode_public_result r identity frame ≡ some (f, 592))
        × (decode_run_v1 f 592 ≡ some v)
        × (v.kind ≡ 7)
        × Agree 512 v.payload (result_payload r identity)
  unfolding encode_public_result payload_valid
  encode_public_result-decoded h =
      let valid = result_payload-result_valid r identity h i in
      let (f, v, sent, received, kind, size, same) =
        decode_run_v1-encode_run_v1 7 identity (result_payload r identity) 512 frame valid
          result_payload-nonce in
      (f, v, rw (valid, sent), received, kind, same)

  pub encode_public_error-decoded :
      (code stage : ℕ)
      → source_stage_valid (at r 488) ≡ true
      → 1 ≤ code
      → code ≤ 9
      → 1 ≤ stage
      → stage ≤ 7
      → (f : Buffer) × (v : View) × (encode_public_error r identity code stage frame
          ≡ some (f, 348))
        × (decode_run_v1 f 348 ≡ some v)
        × (v.kind ≡ 8)
        × Agree 268 v.payload (error_payload r identity code stage)
  unfolding encode_public_error payload_valid
  encode_public_error-decoded code stage s c1 c9 s1 s7 =
      let valid = error_payload-error_valid r identity code stage s i c1 c9 s1 s7 in
      let (f, v, sent, received, kind, size, same) =
        decode_run_v1-encode_run_v1 8 identity (error_payload r identity code stage) 268 frame valid
          (error_payload-nonce code stage) in
      (f, v, rw (valid, sent), received, kind, same)

-- A report that the supervisor may finalize: it is valid of its kind and has the identity and the
-- token that the supervisor expects.
pub record Expected (kind : ℕ) (r identity token : Buffer) : Type 0 where
  pub of_kind : private_report_kind r ≡ kind
  pub own : identity_valid identity ≡ true
  pub named : digest_nonzero token ≡ true
  pub same_identity : Agree 128 (at r 16) identity
  pub same_token : Agree 32 (at r 144) token

pub finalize-publish :
    (kind : ℕ) (r identity token : Buffer) (status : ℕ) (o : NamespaceObservation) (frame : Buffer)
    {complete : Bool}
    → kind ≢ 0
    → Expected kind r identity token
    → namespace_cleanup_observe o status ≡ some complete
    → finalize r identity token status o frame ≡ publish r identity kind complete frame
unfolding finalize
finalize-publish kind r identity token status o frame some_kind e observed =
    let first = Agree-mem_eq 128 (at r 16) identity e.same_identity in
    let second = Agree-mem_eq 32 (at r 144) token e.same_token in
    let known : (kind != 0) ≡ true = ground arith in
    rw (e.of_kind, known, e.own, e.named, first, second, observed) refl

-- Only a report that is expected gives a frame.
pub finalize-Expected :
    (r identity token : Buffer) (status : ℕ) (o : NamespaceObservation) (frame : Buffer)
    {sent : Buffer × ℕ}
    → finalize r identity token status o frame ≡ some sent
    → (kind : ℕ) × (complete : Bool) × (kind ≢ 0)
      × Expected kind r identity token
      × (namespace_cleanup_observe o status ≡ some complete)
      × (publish r identity kind complete frame ≡ some sent)
unfolding finalize
finalize-Expected r identity token status o frame h =
    elim (Option-cases (namespace_cleanup_observe o status)) [
      | inl failed ↦ ground (arith, failed)
      | inr (complete, observed) ↦ (
        private_report_kind r,
        complete,
        ground (arith, observed),
        record {
          of_kind = refl;
          own = ground (arith, observed);
          named = ground (arith, observed);
          same_identity = mem_eq-Agree 128 (at r 16) identity (ground (arith, observed));
          same_token = mem_eq-Agree 32 (at r 144) token (ground (arith, observed));
        },
        observed,
        ground (arith, observed),
      )
    ]

-- The codes and the stage that an error report can have.
pub error_code_known :
    (r : Buffer)
    → private_error_valid r ≡ true
    → (7 ≤ get_u16 (at r 176)) × (get_u16 (at r 176) ≤ 8) × (source_stage_valid (at r 488) ≡ true)
unfolding private_error_valid subject_fits stage_valid
error_code_known r h = ground arith

pub result_stage_known :
    (r : Buffer) → private_result_valid r ≡ true → source_stage_valid (at r 488) ≡ true
unfolding private_result_valid stage_valid
result_stage_known r h = ground arith
