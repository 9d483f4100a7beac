-- ===== src/Report/Public.antt =====
-- native/proc17_qa_report.c: the supervisor turns a private report into the terminal frame.
use proc.Base.{
  ℕ, Bool, not, ◌&&◌, ◌||◌, ◌==◌, ◌!=◌, leb, if◌then◌else◌, Option, some, guard, ◌>>=◌, ◌>>◌,
}
use proc.Memory.{Buffer, at, poke, copy, zeroed, mem_eq}
use proc.Report.{fill_ones}
use proc.Report.Layout
use proc.Report.Private.{private_report_kind}
use proc.System.{exited, exit_status}
use proc.Wire.Checks.{digest_nonzero, identity_valid}
use proc.Wire.ErrorClass
use proc.Wire.ErrorCode
use proc.Wire.ErrorStage
use proc.Wire.Integers.{get_u16, put_u16}
use proc.Wire.Kind
use proc.Wire.Layout as Wire
use proc.Wire.RunV1.{result_valid, error_valid, encode_run_v1}
use proc.Wire.TriState

-- struct proc17_qa_namespace_observation
pub record NamespaceObservation : Type 0 where
  pub controller_pidfd_identity_retained : ℕ
  pub terminal_record_complete : ℕ
  pub terminal_record_eof_observed : ℕ
  pub controller_reaped : ℕ
  pub controller_authority_closed : ℕ

-- Whether the namespace is cleaned up, or none for -1.
unfoldable pub namespace_cleanup_observe : NamespaceObservation → ℕ → Option Bool
namespace_cleanup_observe o wait_status = do
  guard (
      leb o.controller_pidfd_identity_retained 1
      && leb o.terminal_record_complete 1
      && leb o.terminal_record_eof_observed 1
      && leb o.controller_reaped 1
      && leb o.controller_authority_closed 1)
  guard (o.terminal_record_complete == 1)
  guard
      (not (o.controller_reaped != 0 && (not (exited wait_status) || exit_status wait_status != 0)))
  some (
      o.controller_pidfd_identity_retained != 0
      && o.terminal_record_eof_observed != 0
      && o.controller_reaped != 0
      && o.controller_authority_closed != 0)

unfoldable pub error_payload : Buffer → Buffer → ℕ → ℕ → Buffer
error_payload report identity code stage =
    copy Wire.error_stage_offset (at report Layout.stage_offset) 84 (
      poke 139 1 (
        poke 137 TriState.is_false (
          poke 136 TriState.is_true (
            put_u16 134 stage (
              put_u16 132 code (
                put_u16 130 ErrorClass.ambiguous
                  (put_u16 Wire.phase_offset Wire.phase_terminal (copy 0 identity 128 zeroed))))))))

unfoldable pub encode_public_error : Buffer → Buffer → ℕ → ℕ → Buffer → Option (Buffer × ℕ)
encode_public_error report identity code stage frame = do
  let payload = error_payload report identity code stage
  guard (error_valid payload Wire.run_error_v1_bytes)
  encode_run_v1 Kind.run_error_v1 identity payload Wire.run_error_v1_bytes frame

unfoldable pub result_payload : Buffer → Buffer → Buffer
result_payload report identity = copy Wire.result_stage_offset (at report Layout.stage_offset) 84 (
    copy Wire.result_scratch_offset (at report Layout.scratch_offset) 40 (
      copy Wire.result_resource_offset (at report Layout.resource_offset) 88 (
        copy Wire.result_stderr_offset (at report Layout.stderr_offset) 64 (
          copy Wire.result_stdout_offset (at report Layout.stdout_offset) 64 (
            fill_ones 8 Wire.result_finality_offset (
              copy 144 (at report Layout.cause_offset) 20 (
                copy 132 (at report Layout.reason_offset) 12 (
                  put_u16 130 Wire.contained (
                    put_u16 Wire.phase_offset Wire.phase_terminal
                      (copy 0 identity 128 zeroed))))))))))

unfoldable pub encode_public_result : Buffer → Buffer → Buffer → Option (Buffer × ℕ)
encode_public_result report identity frame = do
  let payload = result_payload report identity
  guard (result_valid payload Wire.run_result_v1_bytes)
  encode_run_v1 Kind.run_result_v1 identity payload Wire.run_result_v1_bytes frame

-- What a report of the kind becomes.
unfoldable pub publish : Buffer → Buffer → ℕ → Bool → Buffer → Option (Buffer × ℕ)
publish report identity kind namespace_complete frame =
    if kind == Layout.terminal_error
    then guard namespace_complete
      >> encode_public_error report identity (get_u16 (at report Layout.error_code_offset))
          ErrorStage.postflight frame
    else if not namespace_complete
    then encode_public_error report identity ErrorCode.namespace_cleanup_incomplete
        ErrorStage.cleanup frame
    else encode_public_result report identity frame

-- The frame with its length, or none for -1.
unfoldable pub finalize :
    Buffer → Buffer → Buffer → ℕ → NamespaceObservation → Buffer → Option (Buffer × ℕ)
finalize report expected_identity expected_process_token wait_status observation frame = do
  let kind = private_report_kind report
  guard (
      kind != 0
      && identity_valid expected_identity
      && digest_nonzero expected_process_token
      && mem_eq 128 (at report Layout.identity_offset) expected_identity
      && mem_eq 32 (at report Layout.token_offset) expected_process_token)
  namespace_complete ← namespace_cleanup_observe observation wait_status
  publish report expected_identity kind namespace_complete frame
