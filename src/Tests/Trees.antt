-- ===== src/Tests/Trees.antt =====
-- native/proc17_qa_scratch.c: measurements and a walk at concrete inputs.
use proc.Base.{ℕ, ◌≡◌, refl, arith, some, true}
use proc.Memory.{Buffer, at, zeroed}
use proc.Scratch.{
  Identity, Measurement, same_identity, count_candidate_entry, count_regular_bytes,
  measurement_valid, encode_v1, decode_v1,
}
use proc.Scratch.RoundTrip.{decode_v1-encode_v1}
use proc.Scratch.Walk.{
  home, tmp, other, Listing, ends, dots, entry, regular, directory, Baseline, measure_final,
  note_seen, count_entry, note_entry, depth_allowed, count_file, walk_directory, measure_capacity,
  measure_walk,
}
use proc.Scratch.Walk.Inventory.{Inventoried, measure_final-Inventoried}
use proc.System.{pos}

abbrev measured : Measurement
measured = record {
  stored_regular_bytes = 70;
  stored_entries = 2;
  limit_bytes = 100;
  limit_entries = 5;
  byte_capacity_exhausted = 0;
  entry_capacity_exhausted = 0;
  inventory_complete = 1;
}

decode_v1-encode_v1_example :
    (written : Buffer) × (encode_v1 388 measured zeroed ≡ some written)
    × (decode_v1 (at written 388) ≡ some measured)
unfolding measurement_valid
decode_v1-encode_v1_example =
    decode_v1-encode_v1 388 measured zeroed (omega arith, omega arith) refl

abbrev numbered : ℕ → Identity
numbered n = record { device = 1; inode = n; mode = 16832 }

abbrev baseline : Baseline
baseline = record {
  root = numbered 1;
  home_identity = numbered 2;
  temporary = numbered 3;
  captured = 1;
}

-- home holds a directory with a file of 70 bytes, tmp is empty.
abbrev tree : Listing
tree = dots (
    entry home
      (directory (numbered 2) (some (numbered 2)) true (
        entry other
          (directory (numbered 4) (some (numbered 4)) true
            (entry other (regular (numbered 5) (pos 70) true) (ends true)))
          (ends true)))
      (entry tmp (directory (numbered 3) (some (numbered 3)) true (ends true)) (ends true)))

measure_final-Inventoried_example : Inventoried tree 100 5 measured
unfolding measure_final measure_walk measure_capacity measurement_valid walk_directory note_entry
    note_seen count_entry count_candidate_entry count_file count_regular_bytes depth_allowed
    same_identity
measure_final-Inventoried_example =
    measure_final-Inventoried (some (numbered 1)) tree (some (9, 9)) baseline 100 5 refl
