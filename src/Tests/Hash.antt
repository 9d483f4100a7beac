-- ===== src/Tests/Hash.antt =====
-- native/proc17_sha256.c, native/proc17_qa_stream.c: hashing and observing at concrete inputs.
use proc.Base.{◌+◌, ◌≡◌, refl, arith, some, [], ◌∷◌, ltb, leb, ◌&&◌, if◌then◌else◌}
use proc.Memory.{Buffer, at, zeroed, Elsewhere}
use proc.Sha256.{init, update, sha256_bytes, initial_state, store_registers}
use proc.Sha256.Padding.{sha256_bytes-compress_blocks, compress_blocks, block_count, padded}
use proc.Sha256.Update.{update-update}
use proc.Stream.{
  Observer, Measurement, start, snapshot, consume, crossed, within, measurement_valid, encode_v1,
}
use proc.Stream.Prefix.{Follows, consume-Follows, start-Follows, consume_all, total}
use proc.Stream.Report.{Measures, Holds, ended, snapshot-Measures, encode_v1_writes}
use proc.Tests.Blocks.{ones, threes}
use proc.Wire.Checks.{checks}

sha256_bytes-compress_blocks_example :
    sha256_bytes ones 70 zeroed
    ≡ store_registers (compress_blocks (block_count 70) initial_state (padded ones 70)) zeroed
sha256_bytes-compress_blocks_example = sha256_bytes-compress_blocks ones 70 zeroed

update-update_example : update (update init ones 60) (at ones 60) 9 ≡ update init ones (60 + 9)
update-update_example = update-update init ones 60 9 (omega arith)

-- An observer of up to 8 bytes.
abbrev fresh : Observer
fresh = record {
  observed_bytes = 0;
  hashed_bytes = 0;
  limit_bytes = 8;
  hash = init;
  prefix_digest = zeroed;
  limit_crossed = 0;
  eof_observed = 0;
  finalized = 0;
  failed = 0;
}

fresh-start : start 8 ≡ some fresh
unfolding start
fresh-start = refl

consume-Follows_example :
    Follows ones (consume fresh (at ones 0) 9).0
    × ((consume fresh (at ones 0) 9).0.observed_bytes ≡ 0 + 9)
    × ((consume fresh (at ones 0) 9).1 ≡ (if leb 0 8 && ltb 8 (0 + 9) then crossed else within))
consume-Follows_example =
    consume-Follows ones fresh 9 (start-Follows ones 8 fresh-start) (omega arith)

snapshot-Measures_example :
    (m : Measurement) × ((snapshot (ended (consume_all ones fresh (3 ∷ 4 ∷ 5 ∷ [])))).1 ≡ some m)
    × Measures ones (total (3 ∷ 4 ∷ 5 ∷ [])) 8 m
snapshot-Measures_example =
    snapshot-Measures ones 8 (3 ∷ 4 ∷ 5 ∷ []) fresh-start (unfold total in omega arith)

abbrev measured : Measurement
measured = record {
  observed_bytes = 12;
  hashed_bytes = 8;
  limit_bytes = 8;
  prefix_digest = threes;
  limit_crossed = 1;
  eof_observed = 1;
}

encode_v1_writes_example :
    (written : Buffer) × (encode_v1 4 measured zeroed ≡ some written)
    × Holds (at written 4) measured
    × Elsewhere 4 64 written zeroed
unfolding measurement_valid checks
encode_v1_writes_example =
    encode_v1_writes 4 measured zeroed (omega arith, omega arith, omega arith) refl refl
