-- ===== src/Wire/Layout.antt =====
-- native/proc17_qa_wire.h: sizes and offsets of the frames and the payloads.
use proc.Base.{ℕ}

abbrev pub envelope_bytes : ℕ
envelope_bytes = 80

abbrev pub max_frame_bytes : ℕ
max_frame_bytes = 4096

abbrev pub run_request_v1_fixed_bytes : ℕ
run_request_v1_fixed_bytes = 238

abbrev pub run_started_v1_bytes : ℕ
run_started_v1_bytes = 252

abbrev pub run_result_v1_bytes : ℕ
run_result_v1_bytes = 512

abbrev pub run_error_v1_bytes : ℕ
run_error_v1_bytes = 268

abbrev pub source_stage_bytes : ℕ
source_stage_bytes = 84

abbrev pub stream_measurement_bytes : ℕ
stream_measurement_bytes = 64

abbrev pub resource_measurement_bytes : ℕ
resource_measurement_bytes = 88

abbrev pub scratch_measurement_bytes : ℕ
scratch_measurement_bytes = 40

abbrev pub identity_bytes : ℕ
identity_bytes = 128

abbrev pub phase_offset : ℕ
phase_offset = 128

abbrev pub started_stage_offset : ℕ
started_stage_offset = 168

abbrev pub result_finality_offset : ℕ
result_finality_offset = 164

abbrev pub result_stdout_offset : ℕ
result_stdout_offset = 172

abbrev pub result_stderr_offset : ℕ
result_stderr_offset = 236

abbrev pub result_resource_offset : ℕ
result_resource_offset = 300

abbrev pub result_scratch_offset : ℕ
result_scratch_offset = 388

abbrev pub result_stage_offset : ℕ
result_stage_offset = 428

abbrev pub error_cost_offset : ℕ
error_cost_offset = 144

abbrev pub error_stage_offset : ℕ
error_stage_offset = 184

abbrev pub phase_started : ℕ
phase_started = 1

abbrev pub phase_terminal : ℕ
phase_terminal = 2

abbrev pub prepared_under_policy : ℕ
prepared_under_policy = 1

abbrev pub contained : ℕ
contained = 1
