-- ===== src/Scratch.antt =====
-- native/proc17_qa_scratch.c: the counts of the scratch directory, and the measurement with its
-- bytes.
pub mod RoundTrip
pub mod Walk
use proc.Base.{
  ℕ, ◌+◌, ◌-◌, ◌^◌, Bool, true, false, ◌&&◌, ◌||◌, ◌==◌, ◌!=◌, leb, ltb, if◌then◌else◌, Option,
  some, none, guard, ◌>>=◌, ◌>>◌,
}
use proc.Memory.{Buffer, at, poke, copy, zeroed}
use proc.System.{ℤ, pos, negsuc}
use proc.Wire.Checks.{scratch_valid}
use proc.Wire.Integers.{put_u64, get_u64}

-- struct proc17_qa_scratch_identity
pub record Identity : Type 0 where
  pub device : ℕ
  pub inode : ℕ
  pub mode : ℕ

-- struct proc17_qa_scratch_measurement
pub record Measurement : Type 0 where
  pub stored_regular_bytes : ℕ
  pub stored_entries : ℕ
  pub limit_bytes : ℕ
  pub limit_entries : ℕ
  pub byte_capacity_exhausted : ℕ
  pub entry_capacity_exhausted : ℕ
  pub inventory_complete : ℕ

unfoldable pub same_identity : Identity → Identity → Bool
same_identity left right =
    left.device == right.device && left.inode == right.inode && left.mode == right.mode

-- The measurement afterwards, or -1 with the measurement as it was.
unfoldable pub count_candidate_entry : Measurement → Option Measurement
count_candidate_entry m =
    if m.stored_entries == 2 ^ 64 - 1 || ltb m.limit_entries (m.stored_entries + 1)
    then none
    else some (record m { stored_entries = m.stored_entries + 1 })

unfoldable pub count_regular_bytes : Measurement → ℤ → Option Measurement
count_regular_bytes m (negsuc n) = none
count_regular_bytes m (pos amount) =
    if ltb (2 ^ 64 - 1 - m.stored_regular_bytes) amount
      || ltb m.limit_bytes (m.stored_regular_bytes + amount)
    then none
    else some (record m { stored_regular_bytes = m.stored_regular_bytes + amount })

unfoldable pub measurement_valid : Measurement → Bool
measurement_valid m =
    m.limit_bytes != 0
    && m.limit_entries != 0
    && leb m.stored_regular_bytes m.limit_bytes
    && leb m.stored_entries m.limit_entries
    && leb m.byte_capacity_exhausted 1
    && leb m.entry_capacity_exhausted 1
    && m.inventory_complete == 1

-- The writes of `encode_v1`, at `k` of the output.
unfoldable pub write_v1 : ℕ → Measurement → Buffer → Buffer
write_v1 k m output = poke (k + 34) m.inventory_complete (
    poke (k + 33) m.entry_capacity_exhausted (
      poke (k + 32) m.byte_capacity_exhausted (
        put_u64 (k + 24) m.limit_entries (
          put_u64 (k + 16) m.limit_bytes (
            put_u64 (k + 8) m.stored_entries
              (put_u64 (k + 0) m.stored_regular_bytes (copy (k + 0) zeroed 40 output)))))))

unfoldable pub encode_v1 : ℕ → Measurement → Buffer → Option Buffer
encode_v1 k m output = do
  guard (measurement_valid m)
  let written = write_v1 k m output
  guard (scratch_valid (at written k))
  some written

unfoldable pub read_v1 : Buffer → Measurement
read_v1 input = record {
  stored_regular_bytes = get_u64 input;
  stored_entries = get_u64 (at input 8);
  limit_bytes = get_u64 (at input 16);
  limit_entries = get_u64 (at input 24);
  byte_capacity_exhausted = input 32;
  entry_capacity_exhausted = input 33;
  inventory_complete = input 34;
}

unfoldable pub decode_v1 : Buffer → Option Measurement
decode_v1 input = do
  guard (scratch_valid input)
  guard (measurement_valid (read_v1 input))
  some (read_v1 input)
