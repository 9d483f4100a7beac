-- ===== src/Stream/Report.antt =====
-- native/proc17_qa_stream.c: the measurement that is taken at the end of a stream, and its bytes.
use mathlib.Core.Path.{subst, subst₂}
use proc.Base.{
  ℕ, ◌^◌, ◌<◌, min, true, false, ◌||◌, some, List, ◌==◌, ◌!=◌, ltb, if◌then◌else◌, ◌≡◌, refl, sym,
  ap, ◌+◌, ◌∙◌, arith, eq→==,
}
use proc.Memory.{
  Buffer, at, zeroed, Agree, Elsewhere, Agree_computed, mem_eq, copy, poke, poke_outside,
  copy_outside, at-poke, at-copy, copy_start,
}
use proc.Sha256.{init, update, final, sha256_bytes}
use proc.Sha256.Padding.{final-update}
use proc.Stream.Prefix.{
  Follows, consume_all, total, consume_all-Follows, consume_all-limit_bytes, start_fields,
  start-Follows,
}
use proc.Stream.{
  Observer, Measurement, measured, measurement_valid, start, finalize, snapshot, write_v1,
  encode_v1,
}
use proc.Wire.Checks.{stream_valid, digest_nonzero, bytes_zero, boolean, checks}
use proc.Wire.Integers.{get_u64, put_u64, at-put_u64, get_u64-put, put_u64-Elsewhere}

-- The measurement that a whole stream of `n` bytes should have.
pub record Measures (s : Buffer) (n limit : ℕ) (m : Measurement) : Type 0 where
  pub observed : m.observed_bytes ≡ n
  pub hashed : m.hashed_bytes ≡ min n limit
  pub bound : m.limit_bytes ≡ limit
  pub digest : Agree 32 m.prefix_digest (sha256_bytes s (min n limit) zeroed)
  pub crossing : m.limit_crossed ≡ (if ltb limit n then 1 else 0)
  pub ended : m.eof_observed ≡ 1

-- An observer that has seen the end of its stream.
abbrev pub ended : Observer → Observer
ended o = record o { eof_observed = 1 }

module _ (s : Buffer) (o : Observer) (f : Follows s o) where
  abbrev stored : Observer
  stored = record (ended o) {
    hash = (final o.hash o.prefix_digest).0;
    prefix_digest = (final o.hash o.prefix_digest).1;
    finalized = 1;
  }

  finalize-ended : finalize (ended o) ≡ stored
  unfolding finalize
  finalize-ended = rw (eq→== o.finalized 0 f.going_on.1)

  stored_digest : stored.prefix_digest ≡ sha256_bytes s (min o.observed_bytes o.limit_bytes) zeroed
  stored_digest =
      ap (λ c. (final c o.prefix_digest).1) f.hashing
      ∙ ap (λ d. (final (update init s o.hashed_bytes) d).1) f.unstored
      ∙ final-update s o.hashed_bytes zeroed
      ∙ ap (λ n. sha256_bytes s n zeroed) f.prefix

  stored_valid : measurement_valid (measured stored) ≡ true
  unfolding measurement_valid
  stored_valid = ground (arith, f.limited, f.prefix, f.crossing)

  stored-Measures : Measures s o.observed_bytes o.limit_bytes (measured stored)
  stored-Measures = record {
    observed = refl;
    hashed = f.prefix;
    bound = refl;
    digest = λ i lt.
        copy_start i stored.prefix_digest 32 zeroed lt ∙ ap (λ (d : Buffer). d i) stored_digest;
    crossing = f.crossing;
    ended = refl;
  }

  pub snapshot-stored : (snapshot (ended o)).1 ≡ some (measured stored)
  unfolding snapshot
  snapshot-stored =
      let going : (o.limit_bytes == 0 || o.failed != 0 || false) ≡ false =
        ground (arith, f.limited, f.going_on) in
      rw (going, finalize-ended, stored_valid)

-- A stream taken in any chunks is measured as a whole: its length, the digest of the prefix that
-- the limit allows, and whether the limit was crossed.
pub snapshot-Measures :
    (s : Buffer) (limit : ℕ) (chunks : List ℕ) {o : Observer}
    → start limit ≡ some o
    → total chunks < 2 ^ 64
    → (m : Measurement) × ((snapshot (ended (consume_all s o chunks))).1 ≡ some m)
      × Measures s (total chunks) limit m
snapshot-Measures s limit chunks {o} h fits =
    let (zero_seen, bound) = start_fields limit h in
    let (f, count) =
      consume_all-Follows s chunks o (start-Follows s limit h) (omega (arith, zero_seen)) in
    let last = consume_all s o chunks in
    let all_seen : last.observed_bytes ≡ total chunks = omega (arith, count, zero_seen) in
    let same_bound : last.limit_bytes ≡ limit = consume_all-limit_bytes s chunks o ∙ bound in
    (
      measured (stored s last f),
      snapshot-stored s last f,
      subst₂ (λ n l. Measures s n l (measured (stored s last f))) all_seen same_bound
          (stored-Measures s last f),
    )

-- A part of 64 bytes that holds a measurement.
pub record Holds (p : Buffer) (m : Measurement) : Type 0 where
  pub observed : get_u64 p ≡ m.observed_bytes
  pub hashed : get_u64 (at p 8) ≡ m.hashed_bytes
  pub bound : get_u64 (at p 16) ≡ m.limit_bytes
  pub digest : Agree 32 (at p 24) m.prefix_digest
  pub crossing : p 56 ≡ m.limit_crossed
  pub ended : p 57 ≡ m.eof_observed
  pub reserved : Agree 6 (at p 58) zeroed
  pub accepted : stream_valid p ≡ true

-- The reads that a written measurement gives.
module _ (m : Measurement) (out : Buffer) where
  write_reads :
      m.observed_bytes < 2 ^ 64
      → m.hashed_bytes < 2 ^ 64
      → m.limit_bytes < 2 ^ 64
      → (get_u64 (write_v1 0 m out) ≡ m.observed_bytes)
        × (get_u64 (at (write_v1 0 m out) 8) ≡ m.hashed_bytes)
        × (get_u64 (at (write_v1 0 m out) 16) ≡ m.limit_bytes)
  unfolding write_v1 get_u64 put_u64
  write_reads h0 h1 h2 = (
    get_u64-put m.observed_bytes zeroed h0,
    get_u64-put m.hashed_bytes zeroed h1,
    get_u64-put m.limit_bytes zeroed h2,
  )

  write_digest : digest_nonzero (at (write_v1 0 m out) 24) ≡ digest_nonzero m.prefix_digest
  unfolding write_v1 put_u64 checks
  write_digest = refl

  write_zeros : (write_v1 0 m out 58 ≡ 0) × (bytes_zero (at (write_v1 0 m out) 59) 5 ≡ true)
  unfolding write_v1 put_u64 checks
  write_zeros = (refl, refl)

  write_flags : (write_v1 0 m out 56 ≡ m.limit_crossed) × (write_v1 0 m out 57 ≡ m.eof_observed)
  unfolding write_v1
  write_flags = (refl, refl)

  write-stream_valid :
      m.observed_bytes < 2 ^ 64
      → m.hashed_bytes < 2 ^ 64
      → m.limit_bytes < 2 ^ 64
      → measurement_valid m ≡ true
      → digest_nonzero m.prefix_digest ≡ true
      → stream_valid (write_v1 0 m out) ≡ true
  unfolding stream_valid measurement_valid boolean
  write-stream_valid h0 h1 h2 valid digest =
      ground (arith, write_reads h0 h1 h2, write_digest, write_zeros, write_flags)

  write-Holds :
      m.observed_bytes < 2 ^ 64
      → m.hashed_bytes < 2 ^ 64
      → m.limit_bytes < 2 ^ 64
      → measurement_valid m ≡ true
      → digest_nonzero m.prefix_digest ≡ true
      → Holds (write_v1 0 m out) m
  unfolding write_v1 put_u64 mem_eq
  write-Holds h0 h1 h2 valid digest =
      let reads = write_reads h0 h1 h2 in
      record {
        observed = reads.0;
        hashed = reads.1;
        bound = reads.2;
        digest = Agree_computed 32 (at (write_v1 0 m out) 24) m.prefix_digest refl;
        crossing = write_flags.0;
        ended = write_flags.1;
        reserved = Agree_computed 6 (at (write_v1 0 m out) 58) zeroed refl;
        accepted = write-stream_valid h0 h1 h2 valid digest;
      }

write-Elsewhere : (k : ℕ) (m : Measurement) (out : Buffer) → Elsewhere k 64 (write_v1 k m out) out
unfolding write_v1
write-Elsewhere k m out i away =
    let start = copy (k + 0) zeroed 64 out in
    let one = put_u64 (k + 0) m.observed_bytes start in
    let two = put_u64 (k + 8) m.hashed_bytes one in
    let three = put_u64 (k + 16) m.limit_bytes two in
    let four = copy (k + 24) m.prefix_digest 32 three in
    let five = poke (k + 56) m.limit_crossed four in
    poke_outside (k + 57) i m.eof_observed five (λ e. omega (arith, e, away))
    ∙ poke_outside (k + 56) i m.limit_crossed four (λ e. omega (arith, e, away))
    ∙ copy_outside (k + 24) i m.prefix_digest 32 three (omega (arith, away))
    ∙ put_u64-Elsewhere (k + 16) m.limit_bytes two i (omega (arith, away))
    ∙ put_u64-Elsewhere (k + 8) m.hashed_bytes one i (omega (arith, away))
    ∙ put_u64-Elsewhere (k + 0) m.observed_bytes start i (omega (arith, away))
    ∙ copy_outside (k + 0) i zeroed 64 out (omega (arith, away))

-- The writes at `k` are the writes at the start of the part from `k` on.
at-write_v1 :
    (k : ℕ) (m : Measurement) (out : Buffer) → at (write_v1 k m out) k ≡ write_v1 0 m (at out k)
unfolding write_v1
at-write_v1 k m out = simp (at-poke, at-copy, at-put_u64)

abbrev Fits : Measurement → Type 0
Fits m = (m.observed_bytes < 2 ^ 64) × (m.hashed_bytes < 2 ^ 64) × (m.limit_bytes < 2 ^ 64)

-- A valid measurement with 64-bit counts and a nonzero digest is written at any offset. The part
-- that is written holds every field where the protocol has it and zeros behind them, and passes the
-- protocol's test; the bytes before and behind the part are as they were.
pub encode_v1_writes :
    (k : ℕ) (m : Measurement) (out : Buffer)
    → Fits m
    → measurement_valid m ≡ true
    → digest_nonzero m.prefix_digest ≡ true
    → (written : Buffer) × (encode_v1 k m out ≡ some written)
      × Holds (at written k) m
      × Elsewhere k 64 written out
unfolding encode_v1
encode_v1_writes k m out (h0, h1, h2) valid digest =
    let ok : stream_valid (at (write_v1 k m out) k) ≡ true =
      ap stream_valid (at-write_v1 k m out)
      ∙ write-stream_valid m (at out k) h0 h1 h2 valid digest in
    (
      write_v1 k m out,
      rw (valid, ok),
      subst (λ p. Holds p m) (sym (at-write_v1 k m out))
          (write-Holds m (at out k) h0 h1 h2 valid digest),
      write-Elsewhere k m out,
    )
