-- ===== src/Controller/Clock.antt =====
-- native/proc17_qa_controller.c: the clock of a candidate, its CPU limit and its measured times.
-- What clock_gettime, timerfd and setrlimit return is an argument.
pub mod Timing
use proc.Base.{
  ℕ, zero, suc, ◌+◌, ◌-◌, ◌*◌, ◌/◌, ◌%◌, ◌^◌, ◌≤◌, ◌<◌, Bool, true, false, not, ◌&&◌, ◌||◌, ◌==◌,
  ◌!=◌, leb, ltb, ◌≡◌, ◌≢◌, refl, ap, ◌∙◌, arith, if◌then◌else◌, Option, some, none, guard, ◌>>=◌,
  ◌>>◌, Bool-cases, inl, inr, >>=-eq-some,
}
use proc.System.{ℤ, pos, negsuc, Calls, retry, exited, signaled}

-- struct timespec and struct timeval: seconds and a fraction.
abbrev pub Time : Type 0
Time = ℤ × ℤ

-- The seconds and the fraction, where both are in range.
abbrev pub in_range : ℕ → Time → Option (ℕ × ℕ)
in_range fractions (pos seconds, pos fraction) =
    if leb fractions fraction then none else some (seconds, fraction)
in_range fractions (pos seconds, negsuc fraction) = none
in_range fractions (negsuc seconds, fraction) = none

-- `*output`, or -1; the time is none where clock_gettime fails.
unfoldable pub monotonic_ns : Option Time → Option ℕ
monotonic_ns now = do
  time ← now
  (seconds, nanoseconds) ← in_range 1000000000 time
  guard (leb seconds ((2 ^ 64 - 1) / 1000000000))
  some ((seconds * 1000000000 + nanoseconds) % 2 ^ 64)

-- struct proc17_qa_candidate_clock; a descriptor is none for -1.
pub record Clock : Type 0 where
  pub timer_descriptor : Option ℕ
  pub started_ns : ℕ
  pub deadline_ns : ℕ
  pub wall_limit_ms : ℕ
  pub armed : ℕ
  pub timer_consumed : ℕ

-- proc17_qa_candidate_clock_init
abbrev pub clock_init : Clock
clock_init = record {
  timer_descriptor = none;
  started_ns = 0;
  deadline_ns = 0;
  wall_limit_ms = 0;
  armed = 0;
  timer_consumed = 0;
}

-- A call's clock, the absolute time given to timerfd_settime if it came that far, and the result.
pub record Arming : Type 0 where
  pub clock : Clock
  pub timer : Option (ℕ × ℕ)
  pub success : Bool

abbrev pub unset : Option ℕ → Bool
unset none = true
unset (some descriptor) = false

-- The part of `arm` behind the clock's reading.
pub arm_at : Clock → ℕ → ℕ → Bool → Arming
arm_at clock wall_limit_ms started_ns timer_set =
    let duration_ns = wall_limit_ms * 1000000 % 2 ^ 64 in
    let started = record clock { started_ns = started_ns } in
    if ltb (2 ^ 64 - 1 - duration_ns) started_ns
    then record {
      clock = record started { timer_descriptor = none };
      timer = none;
      success = false;
    }
    else let deadline_ns = started_ns + duration_ns in
      let planned = record started { deadline_ns = deadline_ns; wall_limit_ms = wall_limit_ms } in
      let timer = some (deadline_ns / 1000000000, deadline_ns % 1000000000) in
      let abandoned = record planned { timer_descriptor = none } in
      if leb (2 ^ 63) (deadline_ns / 1000000000)
      then record { clock = abandoned; timer = none; success = false }
      else if timer_set
      then record { clock = record planned { armed = 1 }; timer = timer; success = true }
      else record { clock = abandoned; timer = timer; success = false }

-- From the reading of the clock on.
pub arm_read : Clock → ℕ → Option ℕ → Bool → Arming
arm_read clock wall_limit_ms none timer_set = record {
  clock = record clock { timer_descriptor = none };
  timer = none;
  success = false;
}
arm_read clock wall_limit_ms (some started_ns) timer_set =
    arm_at clock wall_limit_ms started_ns timer_set

-- From timerfd_create on.
pub arm_created : Clock → ℕ → Option ℕ → Option Time → Bool → Arming
arm_created clock wall_limit_ms none now timer_set = record {
  clock = record clock { timer_descriptor = none };
  timer = none;
  success = false;
}
arm_created clock wall_limit_ms (some descriptor) now timer_set =
    arm_read (record clock { timer_descriptor = some descriptor }) wall_limit_ms (monotonic_ns now)
      timer_set

-- proc17_qa_candidate_clock_arm: the descriptor of timerfd_create, the time of clock_gettime and
-- whether timerfd_settime works.
unfoldable pub clock_arm : Clock → ℕ → Option ℕ → Option Time → Bool → Arming
unfolding arm_at arm_read arm_created monotonic_ns
clock_arm clock wall_limit_ms created now timer_set =
    if not (unset clock.timer_descriptor)
      || clock.armed != 0
      || wall_limit_ms == 0
      || ltb ((2 ^ 64 - 1) / 1000000) wall_limit_ms
    then record { clock = clock; timer = none; success = false }
    else arm_created clock wall_limit_ms created now timer_set

-- What read of the timer stores and returns, or whether it would block.
pub data TimerRead : Type 0 where
  expirations : ℕ → ℕ → TimerRead
  would_block : TimerRead
  read_failed : TimerRead

pub data Consumption : Type 0 where
  consume_invalid : Consumption
  consume_pending : Consumption
  consume_expired : Consumption

-- The result of the read, from its end on.
pub consumed : Clock → TimerRead → Clock × Consumption
consumed clock would_block = (clock, consume_pending)
consumed clock read_failed = (clock, consume_invalid)
consumed clock (expirations bytes count) =
    if bytes != 8 || count != 1
    then (clock, consume_invalid)
    else (record clock { timer_consumed = 1 }, consume_expired)

-- proc17_qa_candidate_clock_consume_timer
unfoldable pub consume_timer : Clock → Calls TimerRead → Clock × Consumption
unfolding consumed
consume_timer clock reads =
    if clock.armed != 1 || unset clock.timer_descriptor || clock.timer_consumed != 0
    then (clock, consume_invalid)
    else consumed clock (retry reads)

unfoldable pub timeval_ms : Time → Option ℕ
timeval_ms value = do
  (seconds, microseconds) ← in_range 1000000 value
  guard (leb seconds ((2 ^ 64 - 1) / 1000))
  some ((seconds * 1000 + microseconds / 1000) % 2 ^ 64)

-- The fields of struct rusage that are read.
pub record Usage : Type 0 where
  pub ru_utime : Time
  pub ru_stime : Time
  pub ru_maxrss : ℤ

-- struct proc17_qa_candidate_metrics
pub record Metrics : Type 0 where
  pub wall_time_ms : ℕ
  pub cpu_user_ms : ℕ
  pub cpu_system_ms : ℕ
  pub max_rss_bytes : ℕ

-- A size of the kernel in kibibytes, where it can be given in bytes.
abbrev pub resident : ℤ → Option ℕ
resident (negsuc n) = none
resident (pos kibibytes) = if ltb ((2 ^ 64 - 1) / 1024) kibibytes then none else some kibibytes

-- proc17_qa_candidate_clock_finish
unfoldable pub clock_finish : Clock → Usage → Option Time → Option Metrics
clock_finish clock usage now = do
  guard (clock.armed == 1 && not (unset clock.timer_descriptor))
  kibibytes ← resident usage.ru_maxrss
  finished_ns ← monotonic_ns now
  guard (leb clock.started_ns finished_ns)
  user ← timeval_ms usage.ru_utime
  system ← timeval_ms usage.ru_stime
  some (record {
    wall_time_ms = (finished_ns - clock.started_ns) / 1000000;
    cpu_user_ms = user;
    cpu_system_ms = system;
    max_rss_bytes = kibibytes * 1024 % 2 ^ 64;
  })

-- proc17_qa_candidate_clock_close, with what close returns.
unfoldable pub clock_close : Clock → Bool → Clock × Bool
clock_close clock closed =
    if unset clock.timer_descriptor
    then (clock, true)
    else (record clock { timer_descriptor = none }, closed)

-- proc17_qa_candidate_apply_cpu_limit: the soft and the hard limit given to setrlimit.
unfoldable pub cpu_limits : ℕ → Option (ℕ × ℕ)
cpu_limits cpu_limit_ms =
    let soft = cpu_limit_ms / 1000 in
    if cpu_limit_ms == 0
      || cpu_limit_ms % 1000 != 0
      || soft == 0
      || leb (2 ^ 64 - 1) soft
      || soft == 2 ^ 64 - 1
    then none
    else some (soft, (soft + 1) % 2 ^ 64)

-- proc17_qa_wait_candidate: wait4 returns a process and its status, or fails.
unfoldable pub wait_candidate : ℤ → Calls (Option (ℕ × ℕ)) → Option ℕ
wait_candidate (negsuc n) calls = none
wait_candidate (pos candidate) calls = if candidate == 0 then none else elim (retry calls) [
  | none ↦ none
  | some (observed, wait_status) ↦
      if observed == candidate && (exited wait_status || signaled wait_status)
      then some wait_status
      else none
]
