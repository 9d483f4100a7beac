-- ===== src/Repository/Failures.antt =====
-- native/proc17_repository_fs.c: what a transaction says of its failure, and the time it took.
use Prim.Native.String.{String}
use proc.Base.{ℕ, ◌+◌, ◌-◌, ◌*◌, ◌/◌, ◌%◌, ◌^◌, leb, ltb, if◌then◌else◌, Option, none, some}

-- What clock_gettime gives, seconds and nanoseconds, if anything.
abbrev pub monotonic_milliseconds : Option (ℕ × ℕ) → ℕ
monotonic_milliseconds none = 0
monotonic_milliseconds (some (seconds, nanoseconds)) =
    (seconds * 1000 + nanoseconds / 1000000) % 2 ^ 64

abbrev pub lua_maxinteger : ℕ
lua_maxinteger = 2 ^ 63 - 1

unfoldable pub elapsed_milliseconds : ℕ → Option (ℕ × ℕ) → ℕ
elapsed_milliseconds started now =
    let finished = monotonic_milliseconds now in
    let elapsed = if leb started finished then finished - started else 0 in
    if ltb lua_maxinteger elapsed then lua_maxinteger else elapsed

pub record Failure : Type 0 where
  pub code : String
  pub stage : String
  pub error_number : ℕ

abbrev pub failure : String → String → ℕ → Failure
failure code stage error_number = record { code = code; stage = stage; error_number = error_number }

-- A failure whose code depends on errno.
abbrev pub coded : (ℕ → String) → String → ℕ → Failure
coded code stage e = failure (code e) stage e
