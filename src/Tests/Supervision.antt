-- ===== src/Tests/Supervision.antt =====
-- native/proc17_qa_supervisor.c: a request, the digest of a file and an end at concrete inputs.
use proc.Base.{
  false, ℕ, zero, suc, List, [], ◌∷◌, ◌+◌, ◌-◌, ◌≡◌, refl, arith, some, none, ltb, if◌then◌else◌,
  Option,
}
use proc.Memory.{Buffer, copy, zeroed, mem_eq, to_list}
use proc.Sha256.{sha256_bytes}
use proc.Supervisor.{RootIdentity, same_mount_identity}
use proc.Supervisor.Ending.{
  Ended, killed_by, Shaped, Concluded, termination_from_wait, termination_from_wait-Concluded,
}
use proc.Supervisor.Request.{
  Exact, required_entrypoint, request_of, exact_limits, limits_loop, str_eq, parse_end,
  parse_fields, parse_run_request_kind, parse_run_request_v1, parse_run_request_v1-Exact,
}
use proc.Supervisor.Self.{Delivers, hash_descriptor, hash_descriptor-sha256_bytes}
use proc.System.{Calls, interrupted, returned, retry}
use proc.Tests.Blocks.{ones}
use proc.Wire.Checks.{checks}
use proc.Wire.Frame.{View}
use proc.Wire.Integers.{put_u16, put_u64}
use proc.Wire.Kind
use proc.Wire.Reason
use proc.Wire.RunV1.{request_valid, request_fixed, no_zero}

-- The bytes of a list, and zeros behind them.
abbrev bytes_of : List ℕ → Buffer
bytes_of [] i = 0
bytes_of (b ∷ bs) i = elim i [ zero ↦ b | suc j ↦ bytes_of bs j ]

abbrev write_limits : List ℕ → ℕ → Buffer → Buffer
write_limits [] k b = b
write_limits (limit ∷ limits) k b = write_limits limits (k + 8) (put_u64 k limit b)

-- A request of the policy, for the root 0, 0, 0.
payload : Buffer
unfolding put_u16 put_u64
payload =
    copy 238 (bytes_of required_entrypoint) 13
      (put_u16 236 13 (write_limits exact_limits 152 (copy 0 ones 128 zeroed)))

abbrev view : View
view = record { kind = Kind.run_request_v1; nonce = ones; payload = payload; payload_bytes = 251 }

abbrev root : RootIdentity
root = record { device = 0; inode = 0; mount_id = 0 }

view-parsed : parse_run_request_v1 view root ≡ some (request_of payload 13 exact_limits)
unfolding payload parse_run_request_v1 parse_run_request_kind parse_fields parse_end limits_loop
    str_eq same_mount_identity request_valid request_fixed no_zero mem_eq to_list checks
view-parsed = refl

parse_run_request_v1-Exact_example : Exact view root (request_of payload 13 exact_limits)
parse_run_request_v1-Exact_example =
    parse_run_request_v1-Exact view root (request_of payload 13 exact_limits) view-parsed

-- A file of three bytes, read at once after an interruption.
abbrev preads : ℕ → Calls (Option ℕ)
preads offset = interrupted (returned (some (3 - offset)))

preads-Delivers : Delivers preads 3
unfolding retry
preads-Delivers offset inside =
    (3 - offset, refl, omega (arith, inside), λ none_left. omega (arith, none_left, inside))

hash_descriptor-sha256_bytes_example :
    hash_descriptor preads ones 10 ≡ (if ltb 10 3 then none else some (sha256_bytes ones 3 zeroed))
hash_descriptor-sha256_bytes_example = hash_descriptor-sha256_bytes preads ones 3 10 preads-Delivers

-- A candidate that was killed, without a core, for the time it took.
abbrev timed_out : Ended
timed_out = killed_by 9 false

termination_from_wait-Concluded_example :
    Concluded timed_out Reason.wall_timeout (termination_from_wait 9 Reason.wall_timeout)
    × Shaped (termination_from_wait 9 Reason.wall_timeout)
termination_from_wait-Concluded_example =
    termination_from_wait-Concluded timed_out Reason.wall_timeout (omega arith, omega arith)
