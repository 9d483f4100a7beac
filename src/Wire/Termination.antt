-- ===== src/Wire/Termination.antt =====
-- native/proc17_qa_wire.h: enum proc17_qa_termination_kind.
use proc.Base.{ℕ}

abbrev pub exit : ℕ
exit = 1

abbrev pub signal : ℕ
signal = 2

abbrev pub supervisor_kill : ℕ
supervisor_kill = 3
