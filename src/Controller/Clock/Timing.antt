-- ===== src/Controller/Clock/Timing.antt =====
-- native/proc17_qa_controller.c: the deadline that is armed, and the times that are measured.
use proc.Base.{
  ℕ, ◌+◌, ◌-◌, ◌*◌, ◌/◌, ◌%◌, ◌^◌, ◌≤◌, ◌<◌, Bool, true, false, not, ◌||◌, ◌==◌, ◌!=◌, ltb, ◌≡◌,
  refl, ap, ◌∙◌, arith, Option, some, none, Bool-cases, inl, inr,
}
use proc.Controller.Clock.{
  Clock, Arming, Time, monotonic_ns, unset, arm_at, arm_read, arm_created, clock_arm, timeval_ms,
  Metrics, clock_finish, consumed, consume_timer, consume_expired, consume_invalid, TimerRead,
  would_block, read_failed, expirations,
}
use proc.System.{pos, Calls, retry}

-- What an armed clock and its timer hold.
pub record ArmedAt (started wall_limit_ms : ℕ) (a : Arming) : Type 0 where
  pub begun : a.clock.started_ns ≡ started
  pub due : a.clock.deadline_ns ≡ started + wall_limit_ms * 1000000
  pub fits : a.clock.deadline_ns < 2 ^ 64
  pub running : (a.clock.armed ≡ 1) × (unset a.clock.timer_descriptor ≡ false)
  pub absolute :
      (seconds nanoseconds : ℕ) × (a.timer ≡ some (seconds, nanoseconds))
      × (nanoseconds < 1000000000)
      × (seconds * 1000000000 + nanoseconds ≡ a.clock.deadline_ns)

module _ (c : Clock) (ms started : ℕ) (owned : unset c.timer_descriptor ≡ false)
    (m : ms ≤ (2 ^ 64 - 1) / 1000000) where
  exact : ms * 1000000 % 2 ^ 64 ≡ ms * 1000000
  exact = omega arith

  arm_at_result :
      (set : Bool)
      → (arm_at c ms started set).success ≡ true
      → (started + ms * 1000000 < 2 ^ 64)
        × ((arm_at c ms started set).clock ≡ record c {
          started_ns = started;
          deadline_ns = started + ms * 1000000;
          wall_limit_ms = ms;
          armed = 1;
        })
        × ((arm_at c ms started set).timer
            ≡ some ((started + ms * 1000000) / 1000000000, (started + ms * 1000000) % 1000000000))
  unfolding arm_at
  arm_at_result set h = ground (arith, exact)

  arm_at-ArmedAt :
      (set : Bool)
      → (arm_at c ms started set).success ≡ true
      → ArmedAt started ms (arm_at c ms started set)
  arm_at-ArmedAt set h =
      let (fits, clock, timer) = arm_at_result set h in
      let deadline = ap (λ (k : Clock). k.deadline_ns) clock in
      record {
        begun = ap (λ (k : Clock). k.started_ns) clock;
        due = deadline;
        fits = omega (arith, deadline);
        running = (
          ap (λ (k : Clock). k.armed) clock,
          ap (λ (k : Clock). unset k.timer_descriptor) clock ∙ owned,
        );
        absolute = (
          (started + ms * 1000000) / 1000000000,
          (started + ms * 1000000) % 1000000000,
          timer,
          omega arith,
          omega (arith, deadline),
        );
      }

arm_read-ArmedAt :
    (c : Clock) (ms : ℕ) (read : Option ℕ) (set : Bool)
    → unset c.timer_descriptor ≡ false
    → ms ≤ (2 ^ 64 - 1) / 1000000
    → (arm_read c ms read set).success ≡ true
    → (started : ℕ) × (read ≡ some started) × ArmedAt started ms (arm_read c ms read set)
unfolding arm_read
arm_read-ArmedAt c ms none set owned m h = cc
arm_read-ArmedAt c ms (some started) set owned m h =
    (started, refl, arm_at-ArmedAt c ms started owned m set h)

arm_created-ArmedAt :
    (c : Clock) (ms : ℕ) (created : Option ℕ) (now : Option Time) (set : Bool)
    → ms ≤ (2 ^ 64 - 1) / 1000000
    → (arm_created c ms created now set).success ≡ true
    → (started : ℕ) × (monotonic_ns now ≡ some started)
      × ArmedAt started ms (arm_created c ms created now set)
unfolding arm_created
arm_created-ArmedAt c ms none now set m h = cc
arm_created-ArmedAt c ms (some d) now set m h =
    arm_read-ArmedAt (record c { timer_descriptor = some d }) ms (monotonic_ns now) set refl m h

-- A clock that is armed has its deadline exactly the limit after its start, without overflow, and
-- its timer is set to that time as seconds and nanoseconds.
pub clock_arm-ArmedAt :
    (c : Clock) (ms : ℕ) (created : Option ℕ) (now : Option Time) (set : Bool)
    → (clock_arm c ms created now set).success ≡ true
    → (started : ℕ) × (monotonic_ns now ≡ some started)
      × ArmedAt started ms (clock_arm c ms created now set)
unfolding clock_arm
clock_arm-ArmedAt c ms created now set h =
    elim (Bool-cases (
      not (unset c.timer_descriptor)
      || c.armed != 0
      || ms == 0
      || ltb ((2 ^ 64 - 1) / 1000000) ms)) [
        | inl refused ↦ absurd (cc (rw refused at h))
        | inr allowed ↦
            rw allowed (arm_created-ArmedAt c ms created now set (ground arith) (rw allowed at h))
      ]

-- A time whose seconds are below 18446744073 is read without loss.
pub monotonic_ns-exact :
    (seconds nanoseconds : ℕ)
    → seconds < 18446744073
    → nanoseconds < 1000000000
    → monotonic_ns (some (pos seconds, pos nanoseconds)) ≡ some (seconds * 1000000000 + nanoseconds)
unfolding monotonic_ns
monotonic_ns-exact seconds nanoseconds s n = ground arith

consumed-expired :
    (c : Clock) (r : TimerRead)
    → (consumed c r).1 ≡ consume_expired
    → (consumed c r).0.timer_consumed ≡ 1
unfolding consumed
consumed-expired c would_block h = cc
consumed-expired c read_failed h = cc
consumed-expired c (expirations bytes count) h = ground arith

-- The expiry is reported once: the call that reports it makes every later call fail.
pub consume_timer-once :
    (c : Clock) (reads later : Calls TimerRead)
    → (consume_timer c reads).1 ≡ consume_expired
    → consume_timer (consume_timer c reads).0 later ≡ ((consume_timer c reads).0, consume_invalid)
unfolding consume_timer
consume_timer-once c reads later h = ground (arith, consumed-expired c (retry reads))

-- What `finish` measures is the difference to the start, and no product overflows.
pub clock_finish-measured :
    (c : Clock) (user_s user_us sys_s sys_us rss finished : ℕ) (now : Option Time) {m : Metrics}
    → monotonic_ns now ≡ some finished
    → clock_finish c
        (record {
          ru_utime = (pos user_s, pos user_us);
          ru_stime = (pos sys_s, pos sys_us);
          ru_maxrss = pos rss;
        })
        now
      ≡ some m
    → (c.started_ns ≤ finished)
      × (c.started_ns + m.wall_time_ms * 1000000 ≤ finished)
      × (finished < c.started_ns + (m.wall_time_ms + 1) * 1000000)
      × (m.max_rss_bytes ≡ rss * 1024)
      × (user_s < 18446744073709551 → m.cpu_user_ms ≡ user_s * 1000 + user_us / 1000)
      × (sys_s < 18446744073709551 → m.cpu_system_ms ≡ sys_s * 1000 + sys_us / 1000)
unfolding clock_finish timeval_ms
clock_finish-measured c user_s user_us sys_s sys_us rss finished now {m} read h =
    ground (arith, read)
