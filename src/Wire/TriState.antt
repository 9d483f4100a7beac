-- ===== src/Wire/TriState.antt =====
-- native/proc17_qa_wire.h: enum proc17_qa_run_v1_tri_state.
use proc.Base.{ℕ}

abbrev pub unknown : ℕ
unknown = 1

abbrev pub is_false : ℕ
is_false = 2

abbrev pub is_true : ℕ
is_true = 3
