-- ===== src/Report/Layout.antt =====
-- native/proc17_qa_report.h and .c: the private report of the controller, byte by byte.
use proc.Base.{ℕ}

abbrev pub report_version : ℕ
report_version = 2

abbrev pub report_bytes : ℕ
report_bytes = 572

-- enum proc17_qa_controller_terminal_kind
abbrev pub terminal_result : ℕ
terminal_result = 1

abbrev pub terminal_error : ℕ
terminal_error = 2

-- enum proc17_qa_controller_error_subject
abbrev pub subject_stdout : ℕ
subject_stdout = 1

abbrev pub subject_stderr : ℕ
subject_stderr = 2

abbrev pub subject_scratch : ℕ
subject_scratch = 3

abbrev pub kind_offset : ℕ
kind_offset = 12

abbrev pub identity_offset : ℕ
identity_offset = 16

abbrev pub token_offset : ℕ
token_offset = 144

abbrev pub reason_offset : ℕ
reason_offset = 176

abbrev pub error_code_offset : ℕ
error_code_offset = 176

abbrev pub error_subject_offset : ℕ
error_subject_offset = 178

abbrev pub cause_offset : ℕ
cause_offset = 188

abbrev pub finality_offset : ℕ
finality_offset = 208

abbrev pub status_eof_offset : ℕ
status_eof_offset = 215

abbrev pub allocator_stable_offset : ℕ
allocator_stable_offset = 216

abbrev pub heap_notification_offset : ℕ
heap_notification_offset = 217

abbrev pub system_failure_offset : ℕ
system_failure_offset = 218

abbrev pub notification_failure_offset : ℕ
notification_failure_offset = 219

abbrev pub allocator_current_offset : ℕ
allocator_current_offset = 224

abbrev pub stdout_offset : ℕ
stdout_offset = 232

abbrev pub stderr_offset : ℕ
stderr_offset = 296

abbrev pub resource_offset : ℕ
resource_offset = 360

abbrev pub scratch_offset : ℕ
scratch_offset = 448

abbrev pub stage_offset : ℕ
stage_offset = 488
