-- ===== src/Wire/ErrorCode.antt =====
-- native/proc17_qa_wire.h: enum proc17_qa_run_v1_error_code.
use proc.Base.{ℕ}

abbrev pub supervisor_unavailable : ℕ
supervisor_unavailable = 1

abbrev pub source_staging_failed : ℕ
source_staging_failed = 2

abbrev pub supervisor_crashed : ℕ
supervisor_crashed = 3

abbrev pub result_pipe_lost : ℕ
result_pipe_lost = 4

abbrev pub terminal_frame_missing : ℕ
terminal_frame_missing = 5

abbrev pub reap_ambiguous : ℕ
reap_ambiguous = 6

abbrev pub output_observation_incomplete : ℕ
output_observation_incomplete = 7

abbrev pub scratch_observation_incomplete : ℕ
scratch_observation_incomplete = 8

abbrev pub namespace_cleanup_incomplete : ℕ
namespace_cleanup_incomplete = 9
