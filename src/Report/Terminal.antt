-- ===== src/Report/Terminal.antt =====
-- native/proc17_qa_report.c: from the input of the controller to the frame that is received.
use proc.Base.{
  ℕ, ◌+◌, Bool, true, false, ◌&&◌, ◌==◌, if◌then◌else◌, Option, none, some, ◌≡◌, ◌≢◌, ◌⊎◌, refl,
  sym, ap, ◌∙◌, arith, inl, inr, Bool-cases,
}
use proc.Memory.{Buffer, at, Agree}
use proc.Report.Private.{
  private_result_valid, private_error_valid, private_report_kind, private_report_kind-valid,
}
use proc.Report.Public.{
  NamespaceObservation, namespace_cleanup_observe, result_payload, error_payload, publish, finalize,
}
use proc.Report.Finalized.{
  Expected, finalize-publish, finalize-Expected, encode_public_result-decoded,
  encode_public_error-decoded, error_code_known, result_stage_known,
}
use proc.Report.Carried.{CarriesResult, CarriesError, carried_result, carried_error}
use proc.Wire.Frame.{View}
use proc.Wire.Integers.{get_u16}
use proc.Wire.RunV1.{decode_run_v1}

-- The kind of the frame for a report of a kind, and its payload.
abbrev pub published_kind : ℕ → Bool → ℕ
published_kind kind complete = if kind == 1 && complete then 7 else 8

abbrev pub published_payload : Buffer → Buffer → ℕ → Bool → Buffer
published_payload r identity kind complete =
    if kind == 2
    then error_payload r identity (get_u16 (at r 176)) 6
    else if complete
    then result_payload r identity
    else error_payload r identity 9 7

abbrev pub published_bytes : ℕ → Bool → ℕ
published_bytes kind complete = if kind == 1 && complete then 512 else 268

kind_cases :
    (r identity token : Buffer) (kind : ℕ)
    → kind ≢ 0
    → Expected kind r identity token
    → (kind ≡ 1) × (private_result_valid r ≡ true) ⊎ (kind ≡ 2) × (private_error_valid r ≡ true)
kind_cases r identity token kind some_kind e =
    ground (arith, private_report_kind-valid r, e.of_kind)

-- What the payload says of the report: an error its own code, behind the run; a result of a namespace
-- that is left over only that the cleanup is incomplete; any other result all its parts.
abbrev pub Carries : Buffer → Buffer → ℕ → Bool → Buffer → Type 0
Carries r identity kind complete p =
    (kind ≡ 2) × CarriesError p r identity (get_u16 (at r 176)) 6
    ⊎ (kind ≡ 1) × (complete ≡ false) × CarriesError p r identity 9 7
    ⊎ (kind ≡ 1) × (complete ≡ true) × CarriesResult p r identity

-- What `publish` sends, decoded.
abbrev pub Sends : Buffer → Buffer → ℕ → Bool → Option (Buffer × ℕ) → Type 0
Sends r identity kind complete sent =
    (f : Buffer) × (v : View) × (sent ≡ some (f, 80 + published_bytes kind complete))
    × (decode_run_v1 f (80 + published_bytes kind complete) ≡ some v)
    × (v.kind ≡ published_kind kind complete)
    × Agree (published_bytes kind complete) v.payload (published_payload r identity kind complete)
    × Carries r identity kind complete v.payload

module _ (r identity token frame : Buffer) where
  publish-result :
      (complete : Bool)
      → Expected 1 r identity token
      → private_result_valid r ≡ true
      → Sends r identity 1 complete (publish r identity 1 complete frame)
  unfolding publish
  publish-result true e h =
      let (f, v, sent, decoded, kind, same) =
        encode_public_result-decoded r identity frame e.own h in
      (
        f,
        v,
        sent,
        decoded,
        kind,
        same,
        inr (inr (refl, refl, carried_result v.payload r identity same)),
      )
  publish-result false e h =
      let (f, v, sent, decoded, kind, same) =
        encode_public_error-decoded r identity frame e.own 9 7 (result_stage_known r h)
          (omega arith) (omega arith) (omega arith) (omega arith) in
      let carried = carried_error v.payload r identity 9 7 (omega arith) (omega arith) same in
      (f, v, sent, decoded, kind, same, inr (inl (refl, refl, carried)))

  publish-error :
      Expected 2 r identity token
      → private_error_valid r ≡ true
      → Sends r identity 2 true (publish r identity 2 true frame)
  unfolding publish
  publish-error e h =
      let known = error_code_known r h in
      let (f, v, sent, decoded, kind, same) =
        encode_public_error-decoded r identity frame e.own (get_u16 (at r 176)) 6 known.2
          (omega (arith, known.0)) (omega (arith, known.1)) (omega arith) (omega arith) in
      let carried =
        carried_error v.payload r identity (get_u16 (at r 176)) 6 (omega (arith, known.1))
          (omega arith) same in
      (f, v, sent, decoded, kind, same, inl (refl, carried))

publish-none : (r identity frame : Buffer) → publish r identity 2 false frame ≡ none
unfolding publish
publish-none r identity frame = refl

-- A report that is expected is published, whether the namespace is clean or not, but for an error
-- report of a namespace that is not: a result as a RESULT if the namespace is clean and else as an
-- ERROR with the code 9 of an incomplete cleanup, an error as an ERROR with the code that the report
-- holds. The frame is decoded as that, under the identity, and a RESULT has the reason, cause,
-- measurements and source stage of the report at their places, an ERROR the source stage.
pub finalize-Sends :
    (kind : ℕ) (r identity token : Buffer) (status : ℕ) (o : NamespaceObservation) (frame : Buffer)
    {complete : Bool}
    → kind ≢ 0
    → Expected kind r identity token
    → namespace_cleanup_observe o status ≡ some complete
    → (kind ≡ 2) × (complete ≡ false) × (finalize r identity token status o frame ≡ none)
      ⊎ ((kind ≡ 1) ⊎ (complete ≡ true))
        × Sends r identity kind complete (finalize r identity token status o frame)
finalize-Sends kind r identity token status o frame {complete} some_kind e observed =
    rw (finalize-publish kind r identity token status o frame some_kind e observed)
      (elim (kind_cases r identity token kind some_kind e) [
        | inl (one, h) ↦
            inr (inl one, rw one (publish-result r identity token frame complete (rw one at e) h))
        | inr (two, h) ↦ elim (Bool-cases complete) [
          | inl clean ↦
              inr
                (inr clean, rw (two, clean) (publish-error r identity token frame (rw two at e) h))
          | inr left_over ↦
              inl (two, left_over, rw (two, left_over) (publish-none r identity frame))
        ]
      ])

decode_sent : Option (Buffer × ℕ) → Option View
decode_sent none = none
decode_sent (some (f, n)) = decode_run_v1 f n

published_kind-result :
    (kind : ℕ) (complete : Bool) → published_kind kind complete ≡ 7 → (kind ≡ 1) × (complete ≡ true)
published_kind-result kind complete h = ground arith

private_result_valid-of_kind :
    (r : Buffer) → private_report_kind r ≡ 1 → private_result_valid r ≡ true
private_result_valid-of_kind r h = ground (arith, private_report_kind-valid r)

-- The frame that is sent is a RESULT only for a report that is a valid result under the expected
-- identity and token, with the namespace cleaned up.
pub finalize-result :
    (r identity token : Buffer) (status : ℕ) (o : NamespaceObservation) (frame f : Buffer) (n : ℕ)
    {v : View}
    → finalize r identity token status o frame ≡ some (f, n)
    → decode_run_v1 f n ≡ some v
    → v.kind ≡ 7
    → (private_result_valid r ≡ true)
      × (namespace_cleanup_observe o status ≡ some true)
      × Agree 128 (at r 16) identity
      × Agree 32 (at r 144) token
unfolding decode_sent
finalize-result r identity token status o frame f n {v} sent decoded result =
    let (kind, complete, some_kind, e, observed, published) =
      finalize-Expected r identity token status o frame sent in
    elim (finalize-Sends kind r identity token status o frame some_kind e observed) [
      | inl (two, left_over, unsent) ↦ ground (arith, unsent, sent)
      | inr (_, (f', v', sent', decoded', of_kind, _, _)) ↦
          let again : some v ≡ some v' =
            sym decoded ∙ ap decode_sent (sym sent ∙ sent') ∙ decoded' in
          let same_kind : v.kind ≡ v'.kind = cc again in
          let (one, clean) =
            published_kind-result kind complete (sym of_kind ∙ sym same_kind ∙ result) in
          (
            private_result_valid-of_kind r (e.of_kind ∙ one),
            observed ∙ ap some clean,
            e.same_identity,
            e.same_token,
          )
    ]
