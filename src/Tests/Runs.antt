-- ===== src/Tests/Runs.antt =====
-- native/proc17_qa_phase.c, native/proc17_qa_controller.c: a run at concrete inputs.
use proc.Base.{
  ℕ, ◌+◌, ◌-◌, ◌*◌, ◌/◌, ◌^◌, ◌≤◌, ◌<◌, ltb, ◌≡◌, ◌≢◌, ◌↔◌, ◌⊎◌, refl, arith, Option, some, none,
  Bool, true, false, [], ◌∷◌, if◌then◌else◌,
}
use proc.Controller.{Epoch, epoch_malformed, terminal_of, resolve_epoch}
use proc.Controller.Clock.{
  Clock, Arming, clock_init, clock_arm, clock_finish, consume_timer, consume_invalid, expirations,
  monotonic_ns, timeval_ms, Metrics,
}
use proc.Controller.Clock.Timing.{
  ArmedAt, clock_arm-ArmedAt, monotonic_ns-exact, consume_timer-once, clock_finish-measured,
}
use proc.Controller.Resolution.{evidence, judge, resolve_epoch-judge}
use proc.Memory.{Buffer, at, zeroed, Agree}
use proc.Phase.{
  State, init, observe_started_ready, authorize_candidate, mark_finality, claim_first_cause, stay,
  more, observing, authorizing, marking, claiming, finality_complete, cause_invalid,
  cause_already_set, cause_set,
}
use proc.Phase.Cause.{
  IsValid, init-IsValid, Steps-IsValid, Steps-first_cause, claim_first_cause-cases,
}
use proc.Phase.Finality.{mark_all, has, mark_all-finality_complete}
use proc.Phase.Started.{
  Writer, writer_init, make_process_token, emit_started_and_close, make_process_token-sha256_bytes,
  emit_started_and_close-decode_run_v1,
}
use proc.Sha256.{sha256_bytes}
use proc.System.{pos, returned, interrupted, retry}
use proc.Tests.Blocks.{ones, threes, stage}
use proc.Wire.Checks.{checks, digest_nonzero}
use proc.Wire.Frame.{View}
use proc.Wire.Kind
use proc.Wire.RunV1.{decode_run_v1}

-- A run that starts, is released, exits with code 2 and then meets a limit.
Steps-IsValid_example :
    IsValid
      (claim_first_cause
        (claim_first_cause (authorize_candidate (observe_started_ready init).0).0 2 2).0
        7
        100).0
Steps-IsValid_example =
    Steps-IsValid
      (more (more (more (more stay observing) authorizing) (claiming 2 2)) (claiming 7 100))
      init-IsValid

-- A state whose cause is an exit with code 2.
abbrev ended_run : State
ended_run = record {
  next_sequence = 1;
  first_cause = record { kind = 2; monotonic_sequence = 1; observed_value = 2 };
  finality_mask = 3;
  started_attested = 1;
  candidate_release_authorized = 1;
}

ended_set : ended_run.first_cause.kind ≢ 0
ended_set e = absurd (omega (arith, e))

Steps-first_cause_example :
    (claim_first_cause (mark_finality ended_run 4).0 7 100).0.first_cause
    ≡ record { kind = 2; monotonic_sequence = 1; observed_value = 2 }
Steps-first_cause_example =
    Steps-first_cause (more (more stay (marking 4)) (claiming 7 100)) ended_set

claim_first_cause-cases_example :
    (((2 < 1) ⊎ (9 < 2) ⊎ (init.next_sequence ≡ 2 ^ 64 - 1))
      × (claim_first_cause init 2 5 ≡ (init, cause_invalid)))
    ⊎ ((init.first_cause.kind ≢ 0)
        × (claim_first_cause init 2 5 ≡ (record init { next_sequence = 0 + 1 }, cause_already_set)))
    ⊎ ((init.first_cause.monotonic_sequence ≡ 0)
        × ((claim_first_cause init 2 5).1 ≡ cause_set)
        × ((claim_first_cause init 2 5).0.next_sequence ≡ 0 + 1)
        × ((claim_first_cause init 2 5).0.first_cause
            ≡ record { kind = 2; monotonic_sequence = 0 + 1; observed_value = 5 }))
claim_first_cause-cases_example = claim_first_cause-cases init 2 5 init-IsValid

mark_all-finality_complete_example :
    (finality_complete (mark_all init (7 ∷ 6 ∷ 5 ∷ 4 ∷ 3 ∷ 2 ∷ 1 ∷ 0 ∷ 5 ∷ [])) ≡ true)
    ↔ ((k : ℕ) → k < 8 → has k (7 ∷ 6 ∷ 5 ∷ 4 ∷ 3 ∷ 2 ∷ 1 ∷ 0 ∷ 5 ∷ []) ≡ true)
mark_all-finality_complete_example =
    mark_all-finality_complete init (7 ∷ 6 ∷ 5 ∷ 4 ∷ 3 ∷ 2 ∷ 1 ∷ 0 ∷ 5 ∷ []) refl

-- An epoch in which both outputs have crossed their limits.
abbrev loud : Epoch
loud = record {
  stdout_limit_crossed = 1;
  stderr_limit_crossed = 1;
  heap_denied = 0;
  wall_timer_expired = 0;
  candidate_terminal = 0;
  wait_status = 0;
  stdout_observed_bytes = 70;
  stderr_observed_bytes = 90;
  heap_peak_bytes = 0;
  wall_limit_ms = 0;
}

loud_formed : epoch_malformed loud ≡ false
unfolding epoch_malformed checks
loud_formed = refl

loud_terminal : terminal_of loud ≡ some (0, 0)
unfolding terminal_of
loud_terminal = refl

resolve_epoch-judge_example : resolve_epoch init loud ≡ judge init (evidence loud (0, 0))
resolve_epoch-judge_example = resolve_epoch-judge init loud 0 0 loud_formed loud_terminal refl

-- A clock armed at 5.000000007 s for 1500 ms.
abbrev armed_example : Arming
armed_example = clock_arm clock_init 1500 (some 3) (some (pos 5, pos 7)) true

clock_arm-ArmedAt_example :
    (started : ℕ) × (monotonic_ns (some (pos 5, pos 7)) ≡ some started)
    × ArmedAt started 1500 armed_example
unfolding clock_arm
clock_arm-ArmedAt_example =
    clock_arm-ArmedAt clock_init 1500 (some 3) (some (pos 5, pos 7)) true refl

monotonic_ns-exact_example : monotonic_ns (some (pos 5, pos 7)) ≡ some 5000000007
monotonic_ns-exact_example = monotonic_ns-exact 5 7 (omega arith) (omega arith)

-- The clock that the arming leaves.
abbrev running : Clock
running = record {
  timer_descriptor = some 3;
  started_ns = 5000000007;
  deadline_ns = 6500000007;
  wall_limit_ms = 1500;
  armed = 1;
  timer_consumed = 0;
}

consume_timer-once_example :
    consume_timer
      (consume_timer running (interrupted (returned (expirations 8 1)))).0
      (returned (expirations 8 1))
    ≡ ((consume_timer running (interrupted (returned (expirations 8 1)))).0, consume_invalid)
unfolding consume_timer retry
consume_timer-once_example =
    consume_timer-once running (interrupted (returned (expirations 8 1)))
      (returned (expirations 8 1)) refl

-- A second of user time and two of system time, with 100 KiB.
abbrev measured : Metrics
measured = record {
  wall_time_ms = 1000;
  cpu_user_ms = 1000;
  cpu_system_ms = 2000;
  max_rss_bytes = 102400;
}

clock_finish-measured_example :
    (5000000007 ≤ 6000000007)
    × (5000000007 + 1000 * 1000000 ≤ 6000000007)
    × (6000000007 < 5000000007 + (1000 + 1) * 1000000)
    × (102400 ≡ 100 * 1024)
    × (1 < 18446744073709551 → 1000 ≡ 1 * 1000 + 0 / 1000)
    × (2 < 18446744073709551 → 2000 ≡ 2 * 1000 + 0 / 1000)
unfolding monotonic_ns clock_finish timeval_ms
clock_finish-measured_example =
    clock_finish-measured running 1 0 2 0 100 6000000007 (some (pos 6, pos 7)) {m = measured} refl
      refl

-- 32 bytes of entropy, with an identity behind them.
abbrev message : Buffer
message = λ i. if ltb i 32 then 3 else 1

make_process_token-sha256_bytes_example : make_process_token ones threes (some 32) ≡ (
    if digest_nonzero (sha256_bytes message 160 zeroed)
    then some (sha256_bytes message 160 zeroed)
    else none)
unfolding checks
make_process_token-sha256_bytes_example =
    make_process_token-sha256_bytes ones threes message refl front back
  where
    front : Agree 32 message threes
    front i lt = ground arith

    back : Agree 128 (at message 32) ones
    back i lt = ground arith

abbrev emitted : Writer
emitted = record { started_emitted = 1; result_descriptor_closed = 1 }

emit_started_and_close-decode_run_v1_example :
    (frame : Buffer) × (v : View) × (decode_run_v1 frame 332 ≡ some v)
    × (v.kind ≡ Kind.run_started_v1)
    × Agree 128 v.payload ones
    × Agree 32 (at v.payload 136) threes
    × Agree 84 (at v.payload 168) stage
    × ((written : Option ℕ) (closed : Bool)
        → (emit_started_and_close writer_init (some 4) ones threes stage written closed).output
          ≡ some (frame, 332))
    × (emit_started_and_close writer_init (some 4) ones threes stage (some 332) true ≡ record {
      writer = record { started_emitted = 1; result_descriptor_closed = 1 };
      result_descriptor = none;
      output = some (frame, 332);
      success = true;
    })
unfolding checks
emit_started_and_close-decode_run_v1_example =
    emit_started_and_close-decode_run_v1 writer_init 4 ones threes stage refl refl refl refl
