-- ===== src/Wire/Reason.antt =====
-- native/proc17_qa_wire.h: enum proc17_qa_run_reason.
use proc.Base.{ℕ}

abbrev pub expected_exit : ℕ
expected_exit = 1

abbrev pub unexpected_exit : ℕ
unexpected_exit = 2

abbrev pub signal : ℕ
signal = 3

abbrev pub wall_timeout : ℕ
wall_timeout = 4

abbrev pub cpu_limit : ℕ
cpu_limit = 5

abbrev pub memory_limit : ℕ
memory_limit = 6

abbrev pub output_limit : ℕ
output_limit = 7

abbrev pub scratch_limit : ℕ
scratch_limit = 8

abbrev pub sandbox_policy_violation : ℕ
sandbox_policy_violation = 9
