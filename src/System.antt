-- ===== src/System.antt =====
-- What the C library and the kernel return: signed values, calls that signals interrupt, and the
-- status of a process that was waited for.
use proc.Base.{ℕ, ◌/◌, ◌%◌, Bool, ◌&&◌, ◌==◌, ◌!=◌}

-- A signed value: `negsuc n` is -(n + 1).
pub data ℤ : Type 0 where
  pos : ℕ → ℤ
  negsuc : ℕ → ℤ

-- The returns of one call repeated while it fails with EINTR: any number of interruptions, then
-- the return that ends the loop.
pub data Calls (A : Type 0) : Type 0 where
  interrupted : Calls A → Calls A
  returned : A → Calls A

-- do { observed = call(); } while (observed < 0 && errno == EINTR);
unfoldable pub retry : {A : Type 0} → Calls A → A
retry (interrupted calls) = retry calls
retry (returned result) = result

-- WIFEXITED, WEXITSTATUS, WIFSIGNALED and WTERMSIG of Linux, on the bits of the status.
abbrev pub exited : ℕ → Bool
exited status = status % 128 == 0

abbrev pub exit_status : ℕ → ℕ
exit_status status = status / 256 % 256

abbrev pub signaled : ℕ → Bool
signaled status = status % 128 != 0 && status % 128 != 127

abbrev pub term_signal : ℕ → ℕ
term_signal status = status % 128

abbrev pub sigxcpu : ℕ
sigxcpu = 24

abbrev pub sigsys : ℕ
sigsys = 31
