-- ===== src/Wire/Kind.antt =====
-- native/proc17_qa_wire.h: enum proc17_qa_wire_kind.
use proc.Base.{ℕ}

abbrev pub probe_request : ℕ
probe_request = 1

abbrev pub probe_result : ℕ
probe_result = 2

abbrev pub run_request : ℕ
run_request = 3

abbrev pub run_result : ℕ
run_result = 4

abbrev pub run_request_v1 : ℕ
run_request_v1 = 5

abbrev pub run_started_v1 : ℕ
run_started_v1 = 6

abbrev pub run_result_v1 : ℕ
run_result_v1 = 7

abbrev pub run_error_v1 : ℕ
run_error_v1 = 8
