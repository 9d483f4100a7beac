-- ===== src/Scratch/RoundTrip.antt =====
-- native/proc17_qa_scratch.c: a measurement that is written is read back, and counting keeps it valid.
use proc.Base.{ℕ, ◌^◌, ◌<◌, true, some, ◌≡◌, refl, arith}
use proc.Memory.{Buffer, at, zeroed, at-poke, at-copy}
use proc.Scratch.{Measurement, measurement_valid, write_v1, encode_v1, read_v1, decode_v1}
use proc.Wire.Checks.{scratch_valid, boolean, bytes_zero, checks}
use proc.Wire.Integers.{get_u64, put_u64, get_u64-put, at-put_u64}

-- The limits fit 64 bits.
abbrev pub Fits : Measurement → Type 0
Fits m = (m.limit_bytes < 2 ^ 64) × (m.limit_entries < 2 ^ 64)

-- The counts fit where the limits do.
valid-Fits :
    (m : Measurement)
    → Fits m
    → measurement_valid m ≡ true
    → (m.stored_regular_bytes < 2 ^ 64) × (m.stored_entries < 2 ^ 64)
unfolding measurement_valid
valid-Fits m fits valid = ground (arith, fits)

module _ (m : Measurement) (out : Buffer) (fits : Fits m) (valid : measurement_valid m ≡ true) where
  write_reads :
      (get_u64 (write_v1 0 m out) ≡ m.stored_regular_bytes)
      × (get_u64 (at (write_v1 0 m out) 8) ≡ m.stored_entries)
      × (get_u64 (at (write_v1 0 m out) 16) ≡ m.limit_bytes)
      × (get_u64 (at (write_v1 0 m out) 24) ≡ m.limit_entries)
  unfolding write_v1 get_u64 put_u64
  write_reads =
      let (bytes, entries) = valid-Fits m fits valid in
      (
        get_u64-put m.stored_regular_bytes zeroed bytes,
        get_u64-put m.stored_entries zeroed entries,
        get_u64-put m.limit_bytes zeroed fits.0,
        get_u64-put m.limit_entries zeroed fits.1,
      )

  read_v1-write : read_v1 (write_v1 0 m out) ≡ m
  unfolding read_v1 write_v1 put_u64
  read_v1-write i = record {
    stored_regular_bytes = write_reads.0 i;
    stored_entries = write_reads.1 i;
    limit_bytes = write_reads.2 i;
    limit_entries = write_reads.3 i;
    byte_capacity_exhausted = m.byte_capacity_exhausted;
    entry_capacity_exhausted = m.entry_capacity_exhausted;
    inventory_complete = m.inventory_complete;
  }

  write_flags :
      (write_v1 0 m out 32 ≡ m.byte_capacity_exhausted)
      × (write_v1 0 m out 33 ≡ m.entry_capacity_exhausted)
      × (write_v1 0 m out 34 ≡ m.inventory_complete)
      × (bytes_zero (at (write_v1 0 m out) 35) 5 ≡ true)
  unfolding write_v1 put_u64 checks
  write_flags = (refl, refl, refl, refl)

  write-scratch_valid : scratch_valid (write_v1 0 m out) ≡ true
  unfolding scratch_valid measurement_valid boolean
  write-scratch_valid = ground (arith, write_reads, write_flags)

at-write_v1 :
    (k : ℕ) (m : Measurement) (out : Buffer) → at (write_v1 k m out) k ≡ write_v1 0 m (at out k)
unfolding write_v1
at-write_v1 k m out = simp (at-poke, at-copy, at-put_u64)

-- A valid measurement with 64-bit limits is written at any offset, and is read back from there.
pub decode_v1-encode_v1 :
    (k : ℕ) (m : Measurement) (out : Buffer)
    → Fits m
    → measurement_valid m ≡ true
    → (written : Buffer) × (encode_v1 k m out ≡ some written) × (decode_v1 (at written k) ≡ some m)
unfolding encode_v1 decode_v1
decode_v1-encode_v1 k m out fits valid =
    let there = at-write_v1 k m out in
    let ok = write-scratch_valid m (at out k) fits valid in
    (
      write_v1 k m out,
      rw (valid, there, ok) refl,
      rw (there, ok, read_v1-write m (at out k) fits valid, valid) refl,
    )
