-- ===== src/Wire/ErrorStage.antt =====
-- native/proc17_qa_wire.h: enum proc17_qa_run_v1_error_stage.
use proc.Base.{ℕ}

abbrev pub preflight : ℕ
preflight = 1

abbrev pub source_staging : ℕ
source_staging = 2

abbrev pub namespace : ℕ
namespace = 3

abbrev pub launch : ℕ
launch = 4

abbrev pub supervision : ℕ
supervision = 5

abbrev pub postflight : ℕ
postflight = 6

abbrev pub cleanup : ℕ
cleanup = 7
