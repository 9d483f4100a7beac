-- ===== src/Wire/RunV1.antt =====
-- native/proc17_qa_wire.h: the payloads of protocol RUN v1 and their frames.
pub mod Extent
pub mod RoundTrip
pub mod Copies
use proc.Base.{
  ℕ, zero, suc, ◌+◌, ◌-◌, ◌≤◌, Bool, true, false, ◌&&◌, ◌||◌, not, Option, none, some, ◌==◌, ◌!=◌,
  leb, ltb, if◌then◌else◌, guard, ◌>>=◌, ◌>>◌,
}
use proc.Memory.{Buffer, at, mem_eq}
use proc.Wire.Checks.{
  bytes_zero, digest_nonzero, boolean, tri_state, identity_valid, source_stage_valid, stream_valid,
  resource_valid, scratch_valid,
}
use proc.Wire.ErrorClass
use proc.Wire.ErrorCode
use proc.Wire.ErrorStage
use proc.Wire.Frame.{View, encode, decode}
use proc.Wire.Integers.{get_u16, get_u32, get_u64}
use proc.Wire.Kind
use proc.Wire.Layout
use proc.Wire.Reason
use proc.Wire.Termination
use proc.Wire.TriState

-- memchr(bytes, '\0', n) == NULL
unfoldable pub no_zero : ℕ → Buffer → Bool
no_zero zero bytes = true
no_zero (suc n) bytes = bytes 0 != 0 && no_zero n (at bytes 1)

-- The part of a request before its path.
unfoldable pub request_fixed : Buffer → ℕ → Bool
request_fixed payload payload_bytes =
    leb Layout.run_request_v1_fixed_bytes payload_bytes
    && identity_valid payload
    && get_u16 (at payload 236) != 0
    && leb (get_u16 (at payload 236)) 1024
    && payload_bytes == Layout.run_request_v1_fixed_bytes + get_u16 (at payload 236)
    && get_u32 (at payload 232) == 0

unfoldable pub request_valid : Buffer → ℕ → Bool
request_valid payload payload_bytes =
    request_fixed payload payload_bytes
    && no_zero (get_u16 (at payload 236)) (at payload Layout.run_request_v1_fixed_bytes)

unfoldable pub started_valid : Buffer → ℕ → Bool
started_valid payload payload_bytes =
    payload_bytes == Layout.run_started_v1_bytes
    && identity_valid payload
    && get_u16 (at payload Layout.phase_offset) == Layout.phase_started
    && get_u16 (at payload 130) == 1
    && payload 132 == 1
    && payload 133 == Layout.prepared_under_policy
    && payload 134 == 0
    && payload 135 == 0
    && digest_nonzero (at payload 136)
    && source_stage_valid (at payload Layout.started_stage_offset)

-- The loop over the finality bytes of a result, of which each must be 1.
unfoldable pub all_one : ℕ → Buffer → Bool
all_one zero bytes = true
all_one (suc n) bytes = bytes 0 == 1 && all_one n (at bytes 1)

unfoldable pub result_valid : Buffer → ℕ → Bool
result_valid payload payload_bytes =
    let reason = get_u16 (at payload 132) in
    let termination = get_u16 (at payload 134) in
    payload_bytes == Layout.run_result_v1_bytes
    && identity_valid payload
    && get_u16 (at payload Layout.phase_offset) == Layout.phase_terminal
    && get_u16 (at payload 130) == Layout.contained
    && leb Reason.expected_exit reason
    && leb reason Reason.sandbox_policy_violation
    && leb Termination.exit termination
    && leb termination Termination.supervisor_kill
    && get_u16 (at payload 144) == reason
    && get_u16 (at payload 146) == 0
    && get_u64 (at payload 148) != 0
    && all_one 8 (at payload Layout.result_finality_offset)
    && stream_valid (at payload Layout.result_stdout_offset)
    && stream_valid (at payload Layout.result_stderr_offset)
    && resource_valid (at payload Layout.result_resource_offset)
    && scratch_valid (at payload Layout.result_scratch_offset)
    && source_stage_valid (at payload Layout.result_stage_offset)

unfoldable pub error_valid : Buffer → ℕ → Bool
error_valid payload payload_bytes =
    let phase = get_u16 (at payload Layout.phase_offset) in
    let error_class = get_u16 (at payload 130) in
    let code = get_u16 (at payload 132) in
    let stage = get_u16 (at payload 134) in
    let source_known = payload 139 != 0 in
    payload_bytes == Layout.run_error_v1_bytes
    && identity_valid payload
    && (phase == Layout.phase_started || phase == Layout.phase_terminal)
    && leb ErrorClass.world error_class
    && leb error_class ErrorClass.ambiguous
    && leb ErrorCode.supervisor_unavailable code
    && leb code ErrorCode.namespace_cleanup_incomplete
    && leb ErrorStage.preflight stage
    && leb stage ErrorStage.cleanup
    && tri_state (payload 136)
    && tri_state (payload 137)
    && boolean (payload 138)
    && boolean (payload 139)
    && bytes_zero (at payload 140) 4
    && not (phase == Layout.phase_started && payload 136 == TriState.is_true)
    && not (phase == Layout.phase_terminal && payload 136 != TriState.is_true)
    && not (payload 138 == 0 && not (bytes_zero (at payload Layout.error_cost_offset) 40))
    && (if source_known
        then source_stage_valid (at payload Layout.error_stage_offset)
        else bytes_zero (at payload Layout.error_stage_offset) Layout.source_stage_bytes)

unfoldable pub payload_valid : ℕ → Buffer → ℕ → Bool
payload_valid kind payload payload_bytes =
    if kind == Kind.run_request_v1
    then request_valid payload payload_bytes
    else if kind == Kind.run_started_v1
    then started_valid payload payload_bytes
    else if kind == Kind.run_result_v1
    then result_valid payload payload_bytes
    else if kind == Kind.run_error_v1
    then error_valid payload payload_bytes
    else false

unfoldable pub encode_run_v1 : ℕ → Buffer → Buffer → ℕ → Buffer → Option (Buffer × ℕ)
encode_run_v1 kind nonce payload payload_bytes output = do
  guard (payload_valid kind payload payload_bytes)
  encode kind nonce payload payload_bytes output

unfoldable pub decode_run_v1 : Buffer → ℕ → Option View
decode_run_v1 frame frame_bytes = do
  view ← decode frame frame_bytes
  guard
      (payload_valid view.kind view.payload view.payload_bytes && mem_eq 32 view.nonce view.payload)
  some view
