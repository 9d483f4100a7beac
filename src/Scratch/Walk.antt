-- ===== src/Scratch/Walk.antt =====
-- native/proc17_qa_scratch.c: the walk over the scratch directory and the final measurement.
-- What the system answers is a tree: each directory is the run of its readdir calls, each entry
-- what opening it and fstat tell. Names are home, tmp or another; "." and ".." are dots.
pub mod Inventory
use proc.Base.{
  ℕ, zero, suc, ◌+◌, ◌-◌, ◌^◌, Bool, true, false, not, ◌&&◌, ◌||◌, ◌==◌, ◌!=◌, leb, ltb,
  if◌then◌else◌, Option, some, none, guard, ◌>>=◌, ◌>>◌,
}
use proc.Scratch.{
  Identity, Measurement, same_identity, count_candidate_entry, count_regular_bytes,
  measurement_valid,
}
use proc.System.{ℤ, pos, negsuc}

pub data Name : Type 0 where
  home : Name
  tmp : Name
  other : Name

mutual
  -- The readdir calls of a directory, up to its end, which is clean if errno stays 0 and closedir
  -- works. `unread` is a directory that fdopendir refuses.
  pub data Listing : Type 0 where
    unread : Listing
    ends : (clean : Bool) → Listing
    dots : Listing → Listing
    entry : Name → Object → Listing → Listing

  -- What O_PATH and fstat tell of an entry: nothing, or its identity and what it is.
  pub data Object : Type 0 where
    unopened : Object
    regular : Identity → (bytes : ℤ) → (closed : Bool) → Object
    special : Identity → Object
    -- opened again with the identity that the new descriptor has, if it works
    directory : Identity → (opened : Option Identity) → (closed : Bool) → Listing → Object

-- struct proc17_qa_scratch_baseline
pub record Baseline : Type 0 where
  pub root : Identity
  pub home_identity : Identity
  pub temporary : Identity
  pub captured : ℕ

-- struct walk_state, without the baseline
pub record Walk : Type 0 where
  pub measurement : Measurement
  pub home_seen : ℕ
  pub temporary_seen : ℕ

abbrev pub max_depth : ℕ
max_depth = 64

-- The identity and the mode of an entry that is opened.
abbrev pub identity_of : Object → Option Identity
identity_of unopened = none
identity_of (regular identity bytes closed) = some identity
identity_of (special identity) = some identity
identity_of (directory identity opened closed listing) = some identity

-- The entries that the baseline has.
abbrev pub is_baseline : ℕ → Name → Bool
is_baseline zero home = true
is_baseline zero tmp = true
is_baseline zero other = false
is_baseline (suc depth) name = false

-- The counting of home and tmp, of which each must come once, as the baseline has it.
unfoldable pub note_seen : Baseline → ℕ → Name → Identity → Walk → Option Walk
note_seen baseline zero home identity w =
    if w.home_seen + 1 == 1 && same_identity identity baseline.home_identity
    then some (record w { home_seen = w.home_seen + 1 })
    else none
note_seen baseline zero tmp identity w =
    if w.temporary_seen + 1 == 1 && same_identity identity baseline.temporary
    then some (record w { temporary_seen = w.temporary_seen + 1 })
    else none
note_seen baseline zero other identity w = some w
note_seen baseline (suc depth) name identity w = some w

unfoldable pub count_entry : ℕ → Name → Walk → Option Walk
count_entry depth name w =
    if is_baseline depth name
    then some w
    else count_candidate_entry w.measurement >>= λ m. some (record w { measurement = m })

-- What is done for every entry that is opened.
unfoldable pub note_entry : Baseline → ℕ → Name → Identity → Walk → Option Walk
note_entry baseline depth name identity w =
    note_seen baseline depth name identity w >>= count_entry depth name

unfoldable pub depth_allowed : ℕ → Bool
depth_allowed parent_depth = not (parent_depth == 2 ^ 64 - 1) && leb (parent_depth + 1) max_depth

unfoldable pub count_file : ℕ → Name → ℤ → Bool → Walk → Option Walk
count_file depth name bytes closed w = do
  guard (not (is_baseline depth name))
  m ← count_regular_bytes w.measurement bytes
  guard closed
  some (record w { measurement = m })

-- Whether the directory that was opened again is the one that was found.
abbrev pub reopened : Identity → Option Identity → Bool → Bool
reopened identity none closed = false
reopened identity (some opened) closed = same_identity identity opened && closed

unfoldable mutual
  -- The walk afterwards, or -1. The descriptors are closed on every branch.
  pub walk_directory : Baseline → ℕ → Listing → Walk → Option Walk
  walk_directory baseline depth unread w = none
  walk_directory baseline depth (ends clean) w = if clean then some w else none
  walk_directory baseline depth (dots rest) w = walk_directory baseline depth rest w
  walk_directory baseline depth (entry name object rest) w =
      if depth_allowed depth
      then walk_object baseline depth name object w >>= walk_directory baseline depth rest
      else none

  -- One turn of the loop, for an entry.
  pub walk_object : Baseline → ℕ → Name → Object → Walk → Option Walk
  walk_object baseline depth name unopened w = none
  walk_object baseline depth name (regular identity bytes closed) w =
      note_entry baseline depth name identity w >>= count_file depth name bytes closed
  walk_object baseline depth name (special identity) w =
      note_entry baseline depth name identity w >>= λ _. none
  walk_object baseline depth name (directory identity opened closed listing) w =
      note_entry baseline depth name identity w >>= λ w'.
      guard (reopened identity opened closed) >> walk_directory baseline (depth + 1) listing w'

-- enum proc17_qa_scratch_result, with the measurement of a complete one
pub data Measured : Type 0 where
  invalid : Measured
  ambiguous : Measured
  complete : Measurement → Measured

-- The end of `measure_final`, from the capacity on: the free blocks and the free inodes.
unfoldable pub measure_capacity : Walk → Option (ℕ × ℕ) → Measured
measure_capacity w none = ambiguous
measure_capacity w (some (available, files)) =
    let observed = record w.measurement {
      byte_capacity_exhausted = if available == 0 then 1 else 0;
      entry_capacity_exhausted = if files == 0 then 1 else 0;
      inventory_complete = 1;
    } in
    if w.home_seen != 1
      || w.temporary_seen != 1
      || available == 2 ^ 64 - 1
      || files == 2 ^ 64 - 1
      || not (measurement_valid observed)
    then ambiguous
    else complete observed

unfoldable pub measure_walk : Option Walk → Option (ℕ × ℕ) → Measured
measure_walk none capacity = ambiguous
measure_walk (some w) capacity = measure_capacity w capacity

-- The walk before the first entry.
abbrev pub unwalked : ℕ → ℕ → Walk
unwalked limit_bytes limit_entries = record {
  measurement = record {
    stored_regular_bytes = 0;
    stored_entries = 0;
    limit_bytes = limit_bytes;
    limit_entries = limit_entries;
    byte_capacity_exhausted = 0;
    entry_capacity_exhausted = 0;
    inventory_complete = 0;
  };
  home_seen = 0;
  temporary_seen = 0;
}

abbrev pub is_root : Option Identity → Identity → Bool
is_root none root = false
is_root (some identity) root = same_identity identity root

-- `measure_final`: the root's identity, its listing if it can be opened, and its capacity.
unfoldable pub measure_final :
    Option Identity → Option Listing → Option (ℕ × ℕ) → Baseline → ℕ → ℕ → Measured
measure_final root none capacity baseline limit_bytes limit_entries =
    if baseline.captured != 1 || limit_bytes == 0 || limit_entries == 0 then invalid else ambiguous
measure_final root (some listing) capacity baseline limit_bytes limit_entries =
    if baseline.captured != 1 || limit_bytes == 0 || limit_entries == 0
    then invalid
    else if is_root root baseline.root
    then measure_walk (walk_directory baseline 0 listing (unwalked limit_bytes limit_entries))
        capacity
    else ambiguous
