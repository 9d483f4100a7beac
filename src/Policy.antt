-- ===== src/Policy.antt =====
-- native/proc17_qa_policy.h: the limits of a run.
use proc.Base.{ℕ}

abbrev pub wall_time_ms : ℕ
wall_time_ms = 30000

abbrev pub cpu_time_ms : ℕ
cpu_time_ms = 20000

abbrev pub address_space_bytes : ℕ
address_space_bytes = 268435456

abbrev pub runtime_heap_bytes : ℕ
runtime_heap_bytes = 67108864

abbrev pub max_processes : ℕ
max_processes = 1

abbrev pub max_open_files : ℕ
max_open_files = 64

abbrev pub max_file_bytes : ℕ
max_file_bytes = 16777216

abbrev pub scratch_bytes : ℕ
scratch_bytes = 67108864

abbrev pub scratch_entries : ℕ
scratch_entries = 4096

abbrev pub stdout_bytes : ℕ
stdout_bytes = 1048576

abbrev pub stderr_bytes : ℕ
stderr_bytes = 1048576
