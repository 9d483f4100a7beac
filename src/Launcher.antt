-- ===== src/Launcher.antt =====
-- native/proc17_qa_launcher_v1.c: the machine that takes the STARTED frame and the terminal frame
-- of a run from the bytes of the result pipe, and what it reports at the end.
pub mod Chunks
pub mod Order
pub mod Whole
pub mod Accepts
pub mod Reports
use proc.Base.{
  ℕ, zero, suc, ◌+◌, ◌-◌, ◌≤◌, Bool, true, false, not, ◌&&◌, ◌||◌, ◌==◌, ◌!=◌, leb, ltb,
  if◌then◌else◌, Option, some, none, guard, ◌>>=◌, ◌>>◌,
}
use proc.Memory.{Buffer, at, copy, clear, zeroed, mem_eq}
use proc.System.{exited, exit_status}
use proc.Wire.Checks.{identity_valid, source_stage_valid}
use proc.Wire.ErrorClass
use proc.Wire.ErrorCode
use proc.Wire.ErrorStage
use proc.Wire.Frame.{View}
use proc.Wire.Integers.{get_u16, get_u32, get_u64}
use proc.Wire.Kind
use proc.Wire.Layout
use proc.Wire.RunV1.{decode_run_v1}
use proc.Wire.TriState

-- struct proc17_qa_launcher_v1_expectation
pub record Expectation : Type 0 where
  pub identity : Buffer
  pub source_device : ℕ
  pub source_inode : ℕ
  pub source_mount_id : ℕ
  pub source_mount_policy_flags : ℕ

-- struct proc17_qa_launcher_v1_machine, without the pointer to the expectation.
pub record Machine : Type 0 where
  pub pending : Buffer
  pub pending_bytes : ℕ
  pub expected_frame_bytes : ℕ
  pub started_token : Buffer
  pub started_stage : Buffer
  pub terminal_frame : Buffer
  pub terminal_bytes : ℕ
  pub terminal_kind : ℕ
  pub started_seen : ℕ
  pub terminal_seen : ℕ
  pub invariant_failed : ℕ

abbrev pub fresh : Machine
fresh = record {
  pending = zeroed;
  pending_bytes = 0;
  expected_frame_bytes = 0;
  started_token = zeroed;
  started_stage = zeroed;
  terminal_frame = zeroed;
  terminal_bytes = 0;
  terminal_kind = 0;
  started_seen = 0;
  terminal_seen = 0;
  invariant_failed = 0;
}

unfoldable pub expectation_valid : Expectation → Bool
expectation_valid e =
    identity_valid e.identity
    && e.source_device != 0
    && e.source_inode != 0
    && e.source_mount_id != 0
    && e.source_mount_policy_flags != 0

unfoldable pub stage_matches_source : Buffer → Expectation → Bool
stage_matches_source stage e =
    source_stage_valid stage
    && get_u32 (at stage 4) == e.source_mount_policy_flags
    && get_u64 (at stage 8) == e.source_device
    && get_u64 (at stage 16) == e.source_inode
    && get_u64 (at stage 24) == e.source_mount_id
    && get_u64 (at stage 32) == e.source_device
    && get_u64 (at stage 40) == e.source_inode
    && get_u64 (at stage 56) == get_u64 (at stage 32)
    && get_u64 (at stage 64) == get_u64 (at stage 40)
    && get_u64 (at stage 72) == get_u64 (at stage 48)
    && stage 80 == 1
    && stage 81 == 1

abbrev pub machine_fail : Machine → Machine
machine_fail m = record m { invariant_failed = 1 }

-- The part for STARTED.
unfoldable pub accept_started : Expectation → Machine → View → Option Machine
accept_started e m view = do
  let stage = at view.payload Layout.started_stage_offset
  guard (
      m.started_seen == 0
      && get_u16 (at view.payload Layout.phase_offset) == Layout.phase_started
      && stage_matches_source stage e)
  some (record m {
    started_token = copy 0 (at view.payload 136) 32 m.started_token;
    started_stage = copy 0 stage Layout.source_stage_bytes m.started_stage;
    started_seen = 1;
  })

-- The tests on a stage that follows STARTED.
abbrev pub follows_started : Expectation → Machine → Buffer → Bool
follows_started e m stage =
    m.started_seen == 1
    && stage_matches_source stage e
    && mem_eq Layout.source_stage_bytes stage m.started_stage

-- The tests on the terminal frames.
unfoldable pub terminal_allowed : Expectation → Machine → View → Bool
terminal_allowed e m view =
    let phase = get_u16 (at view.payload Layout.phase_offset) in
    let source_known = view.payload 139 != 0 in
    let stage = at view.payload Layout.error_stage_offset in
    if view.kind == Kind.run_result_v1
    then phase == Layout.phase_terminal
      && follows_started e m (at view.payload Layout.result_stage_offset)
    else if view.kind == Kind.run_error_v1
    then if phase == Layout.phase_started
      then m.started_seen == 0 && not (source_known && not (stage_matches_source stage e))
      else source_known && follows_started e m stage
    else false

unfoldable pub accept_terminal : Expectation → Machine → View → Option Machine
accept_terminal e m view = do
  guard (terminal_allowed e m view)
  some (record m {
    terminal_frame = copy 0 m.pending m.pending_bytes m.terminal_frame;
    terminal_bytes = m.pending_bytes;
    terminal_kind = view.kind;
    terminal_seen = 1;
  })

-- accept_complete_frame: the machine afterwards, or -1 with the machine as it was.
unfoldable pub accept_complete_frame : Expectation → Machine → Option Machine
accept_complete_frame e m = do
  guard (m.terminal_seen == 0)
  view ← decode_run_v1 m.pending m.pending_bytes
  guard (mem_eq Layout.identity_bytes view.payload e.identity)
  if view.kind == Kind.run_started_v1 then accept_started e m view else accept_terminal e m view

-- The bytes that are still needed are counted from this length.
abbrev pub target : Machine → ℕ
target m = if m.expected_frame_bytes == 0 then 16 else m.expected_frame_bytes

abbrev pub take_bytes : Machine → Buffer → ℕ → Machine
take_bytes m bytes take = record m {
  pending = copy m.pending_bytes bytes take m.pending;
  pending_bytes = m.pending_bytes + take;
}

-- The length of the frame, once its first 16 bytes are there.
unfoldable pub learn_length : Machine → Option Machine
learn_length m =
    let payload_bytes = get_u32 (at m.pending 12) in
    if m.expected_frame_bytes == 0 && m.pending_bytes == 16
    then if ltb (Layout.max_frame_bytes - Layout.envelope_bytes) payload_bytes
      then none
      else some (record m { expected_frame_bytes = Layout.envelope_bytes + payload_bytes })
    else some m

-- After the acceptance of a frame: an empty machine for the next, or the failure.
pub next_frame : Machine → Option Machine → Machine × Bool
next_frame m none = (machine_fail m, false)
next_frame m (some accepted) = (
  record accepted {
    pending = clear 0 accepted.pending_bytes accepted.pending;
    pending_bytes = 0;
    expected_frame_bytes = 0;
  },
  true,
)

-- The rest of a turn, once the length is known or not.
pub complete : Expectation → Machine → Option Machine → Machine × Bool
complete e m none = (machine_fail m, false)
complete e m (some learned) =
    if learned.expected_frame_bytes != 0 && learned.pending_bytes == learned.expected_frame_bytes
    then next_frame learned (accept_complete_frame e learned)
    else (learned, true)

-- One turn of the loop, which takes `take` bytes.
unfoldable pub turn : Expectation → Machine → Buffer → ℕ → Machine × Bool
unfolding complete next_frame
turn e m bytes take =
    let taken = take_bytes m bytes take in
    if m.invariant_failed != 0 || m.terminal_seen != 0
    then (machine_fail m, false)
    else complete e taken (learn_length taken)

-- The loop of feed_public_bytes, on fuel: each turn takes a byte or more, so `length` is enough.
unfoldable pub feed_loop : ℕ → Expectation → Machine → Buffer → ℕ → Machine × Bool
feed_loop zero e m bytes length = (m, true)
feed_loop (suc fuel) e m bytes length =
    let room = target m - m.pending_bytes in
    let take = if ltb length room then length else room in
    let (m', ok) = turn e m bytes take in
    let rest = feed_loop fuel e m' (at bytes take) (length - take) in
    if length == 0 then (m, true) else if ok then rest else (m', false)

unfoldable pub feed_public_bytes : Expectation → Machine → Buffer → ℕ → Machine × Bool
feed_public_bytes e m bytes length = feed_loop length e m bytes length

-- struct proc17_qa_launcher_v1_terminal
pub record Terminal : Type 0 where
  pub kind : ℕ
  pub frame : Buffer
  pub frame_bytes : ℕ
  pub phase : ℕ
  pub error_class : ℕ
  pub error_code : ℕ
  pub error_stage : ℕ
  pub candidate_start_state : ℕ
  pub cleanup_state : ℕ
  pub started_attested : ℕ
  pub launcher_reap_state : ℕ
  pub result_eof_state : ℕ
  pub supervisor_wait_status : ℕ

-- enum proc17_qa_launcher_v1_terminal_kind
abbrev pub terminal_result : ℕ
terminal_result = 1

abbrev pub terminal_error : ℕ
terminal_error = 2

abbrev pub terminal_derived_error : ℕ
terminal_derived_error = 3

abbrev pub child_wait_is_clean : ℕ → Bool
child_wait_is_clean wait_status = exited wait_status && exit_status wait_status == 0

-- The terminal before the outcome is known.
abbrev pub reaped : Machine → ℕ → Terminal
reaped m wait_status = record {
  kind = 0;
  frame = zeroed;
  frame_bytes = 0;
  phase = 0;
  error_class = 0;
  error_code = 0;
  error_stage = 0;
  candidate_start_state = 0;
  cleanup_state = 0;
  started_attested = m.started_seen;
  launcher_reap_state = TriState.is_true;
  result_eof_state = TriState.is_true;
  supervisor_wait_status = wait_status;
}

-- The report of a terminal frame that was decoded.
unfoldable pub finish_seen : Machine → ℕ → View → Terminal
finish_seen m wait_status view =
    let reported = record (reaped m wait_status) {
      kind = if m.terminal_kind == Kind.run_result_v1 then terminal_result else terminal_error;
      frame = copy 0 m.terminal_frame m.terminal_bytes zeroed;
      frame_bytes = m.terminal_bytes;
      phase = get_u16 (at view.payload Layout.phase_offset);
    } in
    if view.kind == Kind.run_error_v1
    then record reported {
      error_class = get_u16 (at view.payload 130);
      error_code = get_u16 (at view.payload 132);
      error_stage = get_u16 (at view.payload 134);
      candidate_start_state = view.payload 136;
      cleanup_state = view.payload 137;
    }
    else reported

-- The report where no terminal frame came.
unfoldable pub finish_unseen : Machine → ℕ → Bool → Terminal
finish_unseen m wait_status watchdog_fired =
    let derived = record (reaped m wait_status) {
      kind = terminal_derived_error;
      phase = if m.started_seen != 0 then Layout.phase_terminal else Layout.phase_started;
      candidate_start_state = if m.started_seen != 0 then TriState.is_true else TriState.is_false;
      cleanup_state = TriState.unknown;
    } in
    if watchdog_fired || not (child_wait_is_clean wait_status)
    then record derived {
      error_class = ErrorClass.unavailable;
      error_code = ErrorCode.supervisor_crashed;
      error_stage = ErrorStage.supervision;
    }
    else record derived {
      error_class = ErrorClass.ambiguous;
      error_code = ErrorCode.terminal_frame_missing;
      error_stage = ErrorStage.postflight;
    }

-- The terminal, or none for a trusted invariant that fails.
unfoldable pub finish_machine : Machine → ℕ → Bool → Bool → Bool → Option Terminal
finish_machine m wait_status supervisor_reaped result_eof watchdog_fired = do
  guard (m.invariant_failed == 0 && m.pending_bytes == 0 && supervisor_reaped && result_eof)
  if m.terminal_seen != 0
      then guard (child_wait_is_clean wait_status)
        >> (decode_run_v1 m.terminal_frame m.terminal_bytes >>= λ view.
            some (finish_seen m wait_status view))
      else some (finish_unseen m wait_status watchdog_fired)

unfoldable pub set_infrastructure_error : Machine → ℕ → ℕ → Bool → Bool → ℕ → Terminal
set_infrastructure_error m error_code error_stage supervisor_reaped result_eof wait_status =
    record (reaped m (if supervisor_reaped then wait_status else 0)) {
      kind = terminal_derived_error;
      phase = if m.started_seen != 0 then Layout.phase_terminal else Layout.phase_started;
      error_class = ErrorClass.ambiguous;
      error_code = error_code;
      error_stage = error_stage;
      candidate_start_state = if m.started_seen != 0 then TriState.is_true else TriState.is_false;
      cleanup_state = TriState.unknown;
      launcher_reap_state = if supervisor_reaped then TriState.is_true else TriState.unknown;
      result_eof_state = if result_eof then TriState.is_true else TriState.unknown;
    }
