-- ===== src/Tests/Reports.antt =====
-- native/proc17_qa_launcher_v1.c: a run with a STARTED and a RESULT frame.
use proc.Base.{
  [], ◌∷◌, ◌-◌, ◌+◌, ◌&&◌, ◌||◌, ◌==◌, leb, ltb, if◌then◌else◌, ◌≡◌, refl, sym, ◌∙◌, arith, true,
  false, some,
}
use proc.Launcher.{
  Machine, Terminal, fresh, stage_matches_source, feed_public_bytes, finish_machine,
}
use proc.Launcher.Order.{feed_all, finish_machine-result}
use proc.Launcher.Accepts.{stage_matches_source_ext}
use proc.Launcher.Reports.{Received, received_ext, finish_machine-reports}
use proc.Memory.{Buffer, at, zeroed, Agree}
use proc.Tests.Blocks.{ones, stage}
use proc.Tests.Pipes.{expected}
use proc.Wire.Checks.{checks}
use proc.Wire.Frame.{View}
use proc.Wire.RunV1.Copies.{decode_run_v1_ext}
use proc.Wire.RunV1.{decode_run_v1, payload_valid, started_valid, result_valid, all_one}
use proc.Wire.RunV1.RoundTrip.{decode_run_v1-encode_run_v1}

-- A STARTED payload, of ones where a number or a digest stands.
abbrev started : Buffer
started = λ i.
    if leb 168 i
    then stage (i - 168)
    else if i == 128 || i == 130 || i == 134 || i == 135
    then 0
    else 1

-- A RESULT payload, of ones where a number or a digest stands.
abbrev result : Buffer
result = λ i.
    if leb 428 i
    then stage (i - 428)
    else if i == 129
    then 2
    else if i == 128 || i == 130 || i == 132 || i == 134 || i == 144 || i == 146 || i == 147
    then 0
    else if i == 228 || i == 292
    then 0
    else if leb 230 i && ltb i 236 || leb 294 i && ltb i 300
    then 0
    else if leb 381 i && ltb i 388 || leb 423 i
    then 0
    else 1

started-payload_valid : payload_valid 6 started 252 ≡ true
unfolding payload_valid started_valid checks
started-payload_valid = refl

result-payload_valid : payload_valid 7 result 512 ≡ true
unfolding payload_valid result_valid all_one checks
result-payload_valid = refl

started_own : Agree 32 ones started
started_own i lt = ground arith

result_own : Agree 32 ones result
result_own i lt = ground arith

abbrev started_frame : Buffer
started_frame =
    (decode_run_v1-encode_run_v1 6 ones started 252 zeroed started-payload_valid started_own).0

abbrev result_frame : Buffer
result_frame =
    (decode_run_v1-encode_run_v1 7 ones result 512 zeroed result-payload_valid result_own).0

abbrev started_view : View
started_view =
    (decode_run_v1-encode_run_v1 6 ones started 252 zeroed started-payload_valid started_own).1

abbrev result_view : View
result_view =
    (decode_run_v1-encode_run_v1 7 ones result 512 zeroed result-payload_valid result_own).1

started_same : Agree 252 started_view.payload started
started_same =
    let (_, _, _, _, _, _, same) =
      decode_run_v1-encode_run_v1 6 ones started 252 zeroed started-payload_valid started_own in
    same

result_same : Agree 512 result_view.payload result
result_same =
    let (_, _, _, _, _, _, same) =
      decode_run_v1-encode_run_v1 7 ones result 512 zeroed result-payload_valid result_own in
    same

started_ones : Agree 128 started_view.payload ones
started_ones i lt = ground (arith, started_same i (omega arith))

result_ones : Agree 128 result_view.payload ones
result_ones i lt = ground (arith, result_same i (omega arith))

abbrev started_received : Received expected started_frame 332 6
started_received =
    let (_, _, _, decoded, kind, _, _) =
      decode_run_v1-encode_run_v1 6 ones started 252 zeroed started-payload_valid started_own in
    record { view = started_view; decoded = decoded; of_kind = kind; own = started_ones }

abbrev result_received : Received expected result_frame 592 7
result_received =
    let (_, _, _, decoded, kind, _, _) =
      decode_run_v1-encode_run_v1 7 ones result 512 zeroed result-payload_valid result_own in
    record { view = result_view; decoded = decoded; of_kind = kind; own = result_ones }

stage-stage_matches_source : stage_matches_source stage expected ≡ true
unfolding stage_matches_source checks
stage-stage_matches_source = refl

started_stage : Agree 84 (at started_view.payload 168) stage
started_stage i lt = ground (arith, started_same (168 + i) (omega arith))

result_stage : Agree 84 (at result_view.payload 428) stage
result_stage i lt = ground (arith, result_same (428 + i) (omega arith))

finish_machine-reports_example :
    (m m' : Machine) × (t : Terminal) × (feed_public_bytes expected fresh started_frame 332
      ≡ (m, true))
    × (feed_public_bytes expected m result_frame 592 ≡ (m', true))
    × (finish_machine m' 0 true true false ≡ some t)
    × (t.kind ≡ 1)
    × (t.started_attested ≡ 1)
    × (t.frame_bytes ≡ 592)
    × Agree 592 t.frame result_frame
finish_machine-reports_example =
    finish_machine-reports expected started_frame result_frame 332 592 started_received
      result_received
      (stage_matches_source_ext expected (at started_view.payload 168) stage started_stage
        ∙ stage-stage_matches_source)
      (stage_matches_source_ext expected (at result_view.payload 428) stage result_stage
        ∙ stage-stage_matches_source)
      (λ i lt. result_stage i lt ∙ sym (started_stage i lt)) 0 false refl

-- The two frames behind each other.
abbrev run : Buffer
run = λ i. if ltb i 332 then started_frame i else result_frame (i - 332)

run_front : Agree 332 started_frame run
run_front i lt = ground arith

run_back : Agree 592 result_frame (at run 332)
run_back i lt = ground arith

abbrev run_started : Received expected run 332 6
run_started = received_ext expected started_frame run 332 6 run_front started_received

abbrev run_result : Received expected (at run 332) 592 7
run_result = received_ext expected result_frame (at run 332) 592 7 run_back result_received

run_started_stage : Agree 84 (at run_started.view.payload 168) stage
run_started_stage i lt =
    let (_, _, _, decoded, _, size, _) =
      decode_run_v1-encode_run_v1 6 ones started 252 zeroed started-payload_valid started_own in
    sym (
      (decode_run_v1_ext started_frame run 332 run_front decoded).1 (168 + i) (omega (arith, size)))
    ∙ started_stage i lt

run_result_stage : Agree 84 (at run_result.view.payload 428) stage
run_result_stage i lt =
    let (_, _, _, decoded, _, size, _) =
      decode_run_v1-encode_run_v1 7 ones result 512 zeroed result-payload_valid result_own in
    sym (
      (decode_run_v1_ext result_frame (at run 332) 592 run_back decoded).1 (428 + i)
        (omega (arith, size)))
    ∙ result_stage i lt

-- The run is reported.
abbrev run_reported :
    (t : Terminal) × (finish_machine
        (feed_all expected fresh run (332 ∷ 592 ∷ []))
        0
        true
        true
        false
      ≡ some t)
    × (t.kind ≡ 1)
unfolding feed_all
run_reported =
    let (m, m', t, first, second, reported, kind, _, _, _) =
      finish_machine-reports expected run (at run 332) 332 592 run_started run_result
        (stage_matches_source_ext expected (at run_started.view.payload 168) stage run_started_stage
          ∙ stage-stage_matches_source)
        (stage_matches_source_ext expected (at run_result.view.payload 428) stage run_result_stage
          ∙ stage-stage_matches_source)
        (λ i lt. run_result_stage i lt ∙ sym (run_started_stage i lt)) 0 false refl in
    (t, rw (first, second) reported, kind)

finish_machine-result_example :
    (run_reported.0.started_attested ≡ 1)
    × (v : View) × (decode_run_v1 run_reported.0.frame run_reported.0.frame_bytes ≡ some v)
    × (v.kind ≡ 7)
    × Agree 128 v.payload ones
finish_machine-result_example =
    finish_machine-result expected run (332 ∷ 592 ∷ []) 0 true true false {t = run_reported.0}
      run_reported.1 run_reported.2
