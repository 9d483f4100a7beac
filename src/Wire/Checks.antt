-- ===== src/Wire/Checks.antt =====
-- native/proc17_qa_wire.h: the tests of the parts of a payload.
use proc.Base.{ℕ, zero, suc, Bool, true, false, ◌&&◌, ◌||◌, not, ◌==◌, ◌!=◌, leb, ltb, bit_or}
use proc.Memory.{Buffer, at}
use proc.Wire.Integers.{get_u16, get_u32, get_u64}
use proc.Wire.TriState

-- combined |= bytes[index]
unfoldable pub zero_loop : ℕ → Buffer → ℕ → ℕ
zero_loop zero bytes combined = combined
zero_loop (suc n) bytes combined = zero_loop n (at bytes 1) (bit_or combined (bytes 0))

unfoldable pub bytes_zero : Buffer → ℕ → Bool
bytes_zero bytes length = zero_loop length bytes 0 == 0

unfoldable pub digest_nonzero : Buffer → Bool
digest_nonzero value = not (bytes_zero value 32)

unfoldable pub boolean : ℕ → Bool
boolean value = value == 0 || value == 1

unfoldable pub tri_state : ℕ → Bool
tri_state value =
    value == TriState.unknown || value == TriState.is_false || value == TriState.is_true

unfoldable pub identity_valid : Buffer → Bool
identity_valid payload =
    digest_nonzero payload
    && digest_nonzero (at payload 32)
    && digest_nonzero (at payload 64)
    && digest_nonzero (at payload 96)

unfoldable pub source_stage_valid : Buffer → Bool
source_stage_valid stage =
    get_u16 stage == 1
    && stage 2 == 0
    && stage 3 == 0
    && get_u32 (at stage 4) != 0
    && get_u64 (at stage 8) != 0
    && get_u64 (at stage 16) != 0
    && get_u64 (at stage 24) != 0
    && get_u64 (at stage 32) != 0
    && get_u64 (at stage 40) != 0
    && get_u64 (at stage 48) != 0
    && get_u64 (at stage 56) != 0
    && get_u64 (at stage 64) != 0
    && get_u64 (at stage 72) != 0
    && boolean (stage 80)
    && boolean (stage 81)
    && stage 82 == 0
    && stage 83 == 0

-- `same p q` is (p != 0) == (q != 0) of C, on truth values.
abbrev pub same : Bool → Bool → Bool
same true q = q
same false q = not q

unfoldable pub stream_valid : Buffer → Bool
stream_valid stream =
    let observed = get_u64 stream in
    let hashed = get_u64 (at stream 8) in
    let limit = get_u64 (at stream 16) in
    limit != 0
    && leb hashed observed
    && leb hashed limit
    && digest_nonzero (at stream 24)
    && boolean (stream 56)
    && stream 57 == 1
    && stream 58 == 0
    && bytes_zero (at stream 59) 5
    && same (stream 56 != 0) (ltb limit observed)

unfoldable pub resource_valid : Buffer → Bool
resource_valid resource =
    get_u64 (at resource 32) != 0
    && get_u64 (at resource 48) != 0
    && get_u64 (at resource 56) != 0
    && get_u64 (at resource 64) != 0
    && get_u64 (at resource 72) != 0
    && boolean (resource 80)
    && bytes_zero (at resource 81) 7

unfoldable pub scratch_valid : Buffer → Bool
scratch_valid scratch =
    let bytes = get_u64 scratch in
    let entries = get_u64 (at scratch 8) in
    let byte_limit = get_u64 (at scratch 16) in
    let entry_limit = get_u64 (at scratch 24) in
    byte_limit != 0
    && entry_limit != 0
    && leb bytes byte_limit
    && leb entries entry_limit
    && boolean (scratch 32)
    && boolean (scratch 33)
    && scratch 34 == 1
    && bytes_zero (at scratch 35) 5

-- Names the tests above and the readers: a proof that computes with a test's reads unfolds it.
unfoldable pub checks : Unit {0}
unfolding get_u16 get_u32 get_u64 zero_loop bytes_zero digest_nonzero boolean tri_state
    identity_valid source_stage_valid stream_valid resource_valid scratch_valid
checks = tt
