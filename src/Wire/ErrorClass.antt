-- ===== src/Wire/ErrorClass.antt =====
-- native/proc17_qa_wire.h: enum proc17_qa_run_v1_error_class.
use proc.Base.{ℕ}

abbrev pub world : ℕ
world = 1

abbrev pub unavailable : ℕ
unavailable = 2

abbrev pub ambiguous : ℕ
ambiguous = 3
