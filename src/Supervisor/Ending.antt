-- ===== src/Supervisor/Ending.antt =====
-- native/proc17_qa_supervisor.c: what the controller concludes when the candidate has ended.
use proc.Allocator
use proc.Base.{
  ℕ, ◌+◌, ◌*◌, ◌%◌, ◌<◌, Bool, true, false, ◌&&◌, ◌||◌, ◌==◌, ◌!=◌, if◌then◌else◌, Option, none,
  some, List, ◌≡◌, ◌≢◌, refl, ◌⊎◌, arith, not, Bool-cases, inl, inr,
}
use proc.Report.{CandidateTermination, termination_shape_valid, uint32_max, sigkill, nsig}
use proc.Stream.{Observer, Read, Drained, error, limit_crossed, drain}
use proc.System.{exited, exit_status, signaled, term_signal}
use proc.Wire.Reason
use proc.Wire.Termination

unfoldable pub same_allocator_snapshot : Allocator.Snapshot → Allocator.Snapshot → Bool
same_allocator_snapshot left right =
    left.ceiling_bytes == right.ceiling_bytes
    && left.current_bytes == right.current_bytes
    && left.peak_bytes == right.peak_bytes
    && left.ceiling_denied == right.ceiling_denied
    && left.system_allocation_failed == right.system_allocation_failed
    && left.status_notification_failed == right.status_notification_failed

-- A cause for which the supervisor kills the candidate.
abbrev pub kills : ℕ → Bool
kills first_cause =
    first_cause == Reason.wall_timeout
    || first_cause == Reason.memory_limit
    || first_cause == Reason.output_limit

-- The termination, or none for -1.
unfoldable pub termination_from_wait : ℕ → ℕ → Option CandidateTermination
termination_from_wait wait_status first_cause =
    if exited wait_status
    then some (record {
      kind = Termination.exit;
      exit_code = exit_status wait_status;
      signal_number = uint32_max;
    })
    else if not (signaled wait_status)
    then none
    else if kills first_cause
    then if not (term_signal wait_status == sigkill)
      then none
      else some (record {
        kind = Termination.supervisor_kill;
        exit_code = uint32_max;
        signal_number = term_signal wait_status;
      })
    else some (record {
      kind = Termination.signal;
      exit_code = uint32_max;
      signal_number = term_signal wait_status;
    })

unfoldable pub note_crossing : Drained → ℕ → Option ℕ
note_crossing error crossed = none
note_crossing limit_crossed crossed = some 1
note_crossing _ crossed = some crossed

-- The observer, the note of a crossing, or none for -1, and the reads that are left.
unfoldable pub drain_epoch_stream :
    Observer → ℕ → Bool → List Read → Option (Observer × Option ℕ × List Read)
drain_epoch_stream observer crossed nonblocking reads = elim (drain observer nonblocking reads) [
  | none ↦ none
  | some (observer', result, rest) ↦ some (observer', note_crossing result crossed, rest)
]

-- How a child can have ended or changed, as waitpid tells it on Linux.
pub data Ended : Type 0 where
  exit_with : ℕ → Ended
  killed_by : ℕ → Bool → Ended
  stopped_by : ℕ → Ended
  continued : Ended

-- An exit has a byte as its code, and a signal is between 1 and 64.
abbrev pub Possible : Ended → Type 0
Possible (exit_with code) = code < 256
Possible (killed_by signal core_dumped) = (0 < signal) × (signal < nsig)
Possible (stopped_by signal) = (0 < signal) × (signal < nsig)
Possible continued = Unit {0}

-- The status of wait(2): the code or the stopping signal in the second byte, the killing signal in
-- the first one, with the core flag above it.
abbrev pub status_of : Ended → ℕ
status_of (exit_with code) = code * 256
status_of (killed_by signal core_dumped) = signal + (if core_dumped then 128 else 0)
status_of (stopped_by signal) = signal * 256 + 127
status_of continued = 65535

-- The supervisor kills for this cause, or it does not.
abbrev pub Kills : ℕ → Type 0
Kills cause =
    (cause ≡ Reason.wall_timeout) ⊎ (cause ≡ Reason.memory_limit) ⊎ (cause ≡ Reason.output_limit)

abbrev pub Spares : ℕ → Type 0
Spares cause =
    (cause ≢ Reason.wall_timeout) × (cause ≢ Reason.memory_limit) × (cause ≢ Reason.output_limit)

abbrev pub ended_as : ℕ → ℕ → ℕ → CandidateTermination
ended_as kind exit_code signal_number = record {
  kind = kind;
  exit_code = exit_code;
  signal_number = signal_number;
}

-- What is to be concluded.
abbrev pub Concluded : Ended → ℕ → Option CandidateTermination → Type 0
Concluded (exit_with code) cause o = o ≡ some (ended_as Termination.exit code uint32_max)
Concluded (killed_by signal core_dumped) cause o =
    Spares cause × (o ≡ some (ended_as Termination.signal uint32_max signal))
    ⊎ Kills cause
      × ((signal ≡ 9) × (o ≡ some (ended_as Termination.supervisor_kill uint32_max 9))
          ⊎ (signal ≢ 9) × (o ≡ none))
Concluded (stopped_by signal) cause o = o ≡ none
Concluded continued cause o = o ≡ none

-- A termination has a shape that the report takes.
abbrev pub Shaped : Option CandidateTermination → Type 0
Shaped none = Unit {0}
Shaped (some t) = termination_shape_valid t ≡ true

kills_cases :
    (cause : ℕ) → (kills cause ≡ true) × Kills cause ⊎ (kills cause ≡ false) × Spares cause
kills_cases cause = ground arith

exit-Concluded :
    (code cause : ℕ)
    → code < 256
    → termination_from_wait (code * 256) cause ≡ some (ended_as Termination.exit code uint32_max)
unfolding termination_from_wait
exit-Concluded code cause small =
    let of_exit : exited (code * 256) ≡ true = ground arith in
    let same : exit_status (code * 256) ≡ code = omega (arith, small) in rw (of_exit, same) refl

not_ended : (status cause : ℕ) → status % 128 ≡ 127 → termination_from_wait status cause ≡ none
unfolding termination_from_wait
not_ended status cause low = rw low refl

module _ (status signal cause : ℕ) (low : status % 128 ≡ signal) (some_signal : 0 < signal)
    (small : signal < nsig) where
  killed : termination_from_wait status cause ≡ (
      if kills cause
      then if not (signal == sigkill)
        then none
        else some (ended_as Termination.supervisor_kill uint32_max signal)
      else some (ended_as Termination.signal uint32_max signal))
  unfolding termination_from_wait
  killed =
      let no_exit : signal == 0 ≡ false = ground (arith, some_signal) in
      let is_signal : (signal != 0 && signal != 127) ≡ true = ground (arith, some_signal, small) in
      rw (low, no_exit, is_signal) refl

  killed-Concluded :
      (core_dumped : Bool)
      → Concluded (killed_by signal core_dumped) cause (termination_from_wait status cause)
  killed-Concluded core_dumped = rw killed (elim (kills_cases cause) [
    | inr (spared, spares) ↦ rw spared (inl (spares, refl))
    | inl (killing, named) ↦ elim (Bool-cases (signal == sigkill)) [
      | inl same ↦
          let nine : signal ≡ 9 = ground (arith, same) in
          rw (killing, same) (inr (named, inl (nine, rw nine refl)))
      | inr differs ↦ rw (killing, differs) (inr (named, inr (ground (arith, differs), refl)))
    ]
  ])

-- What the controller concludes for each way in which Linux lets a child end: an exit with its code;
-- for a signal, a kill by the supervisor if the first cause is one that it kills for and the signal
-- is SIGKILL, none if the signal is another, and the signal for any other cause; none for a child
-- that was only stopped or continued. What is concluded has a shape that the report takes.
pub termination_from_wait-Concluded :
    (ended : Ended) (first_cause : ℕ)
    → Possible ended
    → Concluded ended first_cause (termination_from_wait (status_of ended) first_cause)
      × Shaped (termination_from_wait (status_of ended) first_cause)
unfolding termination_shape_valid
termination_from_wait-Concluded (exit_with code) cause small =
    let concluded = exit-Concluded code cause small in
    (concluded, rw concluded (ground (arith, small)))
termination_from_wait-Concluded (killed_by signal core_dumped) cause (some_signal, small) =
    let status = status_of (killed_by signal core_dumped) in
    let low : status % 128 ≡ signal = ground (arith, small) in
    let concluded = killed-Concluded status signal cause low some_signal small core_dumped in
    (
      concluded,
      elim concluded [
        | inl (_, e) ↦ rw e (ground (arith, some_signal, small))
        | inr (_, inl (_, e)) ↦ rw e refl
        | inr (_, inr (_, e)) ↦ rw e tt
      ],
    )
termination_from_wait-Concluded (stopped_by signal) cause possible =
    let concluded = not_ended (signal * 256 + 127) cause (omega arith) in
    (concluded, rw concluded tt)
termination_from_wait-Concluded continued cause possible =
    let concluded = not_ended 65535 cause refl in (concluded, rw concluded tt)
