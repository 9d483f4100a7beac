-- ===== src/Scratch/Walk/Inventory.antt =====
-- native/proc17_qa_scratch.c: a walk that succeeds has counted every entry and every byte.
use proc.Base.{
  ℕ, zero, suc, ◌+◌, ◌≤◌, Bool, ◌||◌, ◌==◌, ◌!=◌, if◌then◌else◌, Option, some, none, guard, ◌>>=◌,
  ◌>>◌, ◌≡◌, refl, ◌∙◌, arith, Bool-cases, inl, inr, >>=-eq-some,
}
use proc.Scratch.{
  Identity, Measurement, count_candidate_entry, count_regular_bytes, measurement_valid,
}
use proc.Scratch.Walk.{
  Name, Listing, Object, unread, ends, dots, entry, unopened, regular, special, directory, Baseline,
  Walk, is_baseline, note_seen, count_entry, note_entry, count_file, depth_allowed, reopened,
  walk_directory, walk_object, measure_capacity, measure_walk, unwalked, measure_final, Measured,
  complete, ambiguous, is_root, home, tmp, other,
}
use proc.System.{ℤ, pos, negsuc}

abbrev size : ℤ → ℕ
size (pos n) = n
size (negsuc n) = 0

unfoldable mutual
  -- The entries below a directory, without home and tmp of the root.
  pub entries : ℕ → Listing → ℕ
  entries depth unread = 0
  entries depth (ends clean) = 0
  entries depth (dots rest) = entries depth rest
  entries depth (entry name object rest) =
      (if is_baseline depth name then 0 else 1) + entries_in depth object + entries depth rest

  pub entries_in : ℕ → Object → ℕ
  entries_in depth unopened = 0
  entries_in depth (regular identity bytes closed) = 0
  entries_in depth (special identity) = 0
  entries_in depth (directory identity opened closed listing) = entries (depth + 1) listing

unfoldable mutual
  -- The bytes of the regular files below a directory.
  pub file_bytes : Listing → ℕ
  file_bytes unread = 0
  file_bytes (ends clean) = 0
  file_bytes (dots rest) = file_bytes rest
  file_bytes (entry name object rest) = file_bytes_in object + file_bytes rest

  pub file_bytes_in : Object → ℕ
  file_bytes_in unopened = 0
  file_bytes_in (regular identity (pos bytes) closed) = bytes
  file_bytes_in (regular identity (negsuc n) closed) = 0
  file_bytes_in (special identity) = 0
  file_bytes_in (directory identity opened closed listing) = file_bytes listing

-- What a walk has added to a measurement, within the limits it keeps.
pub record Adds (n bytes : ℕ) (w w' : Walk) : Type 0 where
  pub more_entries : w'.measurement.stored_entries ≡ w.measurement.stored_entries + n
  pub more_bytes : w'.measurement.stored_regular_bytes ≡ w.measurement.stored_regular_bytes + bytes
  pub limits :
      (w'.measurement.limit_bytes ≡ w.measurement.limit_bytes)
      × (w'.measurement.limit_entries ≡ w.measurement.limit_entries)

note_seen-measurement :
    (b : Baseline) (depth : ℕ) (name : Name) (identity : Identity) (w w' : Walk)
    → note_seen b depth name identity w ≡ some w'
    → w'.measurement ≡ w.measurement
unfolding note_seen
note_seen-measurement b zero home identity w w' h = ground arith
note_seen-measurement b zero tmp identity w w' h = ground arith
note_seen-measurement b zero other identity w w' h = ground arith
note_seen-measurement b (suc depth) name identity w w' h = ground arith

note_entry-Adds :
    (b : Baseline) (depth : ℕ) (name : Name) (identity : Identity) (w w' : Walk)
    → note_entry b depth name identity w ≡ some w'
    → Adds (if is_baseline depth name then 0 else 1) 0 w w'
unfolding note_entry count_entry count_candidate_entry
note_entry-Adds b depth name identity w w' h =
    let (v, seen, counted) =
      >>=-eq-some (note_seen b depth name identity w) (count_entry depth name) h in
    let same = note_seen-measurement b depth name identity w v seen in ground (arith, same)

count_file-Adds :
    (depth : ℕ) (name : Name) (identity : Identity) (bytes : ℤ) (closed : Bool) (w w' : Walk)
    → count_file depth name bytes closed w ≡ some w'
    → Adds 0 (file_bytes_in (regular identity bytes closed)) w w'
unfolding count_file count_regular_bytes file_bytes_in
count_file-Adds depth name identity (pos n) closed w w' h = ground arith
count_file-Adds depth name identity (negsuc n) closed w w' h = ground arith

Adds-trans : {n m a b : ℕ} {u v w : Walk} → Adds n a u v → Adds m b v w → Adds (n + m) (a + b) u w
Adds-trans p q = record {
  more_entries = omega (arith, p.more_entries, q.more_entries);
  more_bytes = omega (arith, p.more_bytes, q.more_bytes);
  limits = (q.limits.0 ∙ p.limits.0, q.limits.1 ∙ p.limits.1);
}

Adds-noted : {n m b : ℕ} {u v w : Walk} → Adds n 0 u v → Adds m b v w → Adds (n + m) b u w
Adds-noted p q = record {
  more_entries = omega (arith, p.more_entries, q.more_entries);
  more_bytes = omega (arith, p.more_bytes, q.more_bytes);
  limits = (q.limits.0 ∙ p.limits.0, q.limits.1 ∙ p.limits.1);
}

Adds-none : (w : Walk) → Adds 0 0 w w
Adds-none w = record { more_entries = omega arith; more_bytes = omega arith; limits = (refl, refl) }

entered :
    (b : Baseline) (depth : ℕ) (name : Name) (o : Object) (rest : Listing) (w w' : Walk)
    → walk_directory b depth (entry name o rest) w ≡ some w'
    → (walk_object b depth name o w >>= walk_directory b depth rest) ≡ some w'
unfolding walk_directory
entered b depth name o rest w w' h = elim (Bool-cases (depth_allowed depth)) [
  | inl allowed ↦ rw allowed at h
  | inr refused ↦ absurd (cc (rw refused at h))
]

mutual
  unfolding walk_directory entries file_bytes

  walk_directory-Adds :
      (b : Baseline) (depth : ℕ) (l : Listing) (w w' : Walk)
      → walk_directory b depth l w ≡ some w'
      → Adds (entries depth l) (file_bytes l) w w'
  walk_directory-Adds b depth unread w w' h = absurd (cc h)
  walk_directory-Adds b depth (ends clean) w w' h =
      let same : w' ≡ w = ground arith in rw same (Adds-none w)
  walk_directory-Adds b depth (dots rest) w w' h = walk_directory-Adds b depth rest w w' h
  walk_directory-Adds b depth (entry name object rest) w w' h =
      let (v, first, next) =
        >>=-eq-some (walk_object b depth name object w) (walk_directory b depth rest)
          (entered b depth name object rest w w' h) in
      Adds-trans (walk_object-Adds b depth name object w v first)
        (walk_directory-Adds b depth rest v w' next)

  walk_object-Adds :
      (b : Baseline) (depth : ℕ) (name : Name) (o : Object) (w w' : Walk)
      → walk_object b depth name o w ≡ some w'
      → Adds ((if is_baseline depth name then 0 else 1) + entries_in depth o) (file_bytes_in o) w w'
  walk_object-Adds b depth name unopened w w' h = absurd (cc h)
  walk_object-Adds b depth name (regular identity bytes closed) w w' h =
      let (v, first, next) =
        >>=-eq-some (note_entry b depth name identity w) (count_file depth name bytes closed) h in
      Adds-noted (note_entry-Adds b depth name identity w v first)
        (count_file-Adds depth name identity bytes closed v w' next)
  walk_object-Adds b depth name (special identity) w w' h =
      let (v, first, next) = >>=-eq-some (note_entry b depth name identity w) (λ _. none) h in
      absurd (cc next)
  walk_object-Adds b depth name (directory identity opened closed listing) w w' h =
      let (v, first, next) =
        >>=-eq-some (note_entry b depth name identity w)
          (λ v. guard (reopened identity opened closed) >> walk_directory b (depth + 1) listing v)
          h in
      let (_, same, inner) =
        >>=-eq-some (guard (reopened identity opened closed))
          (λ _. walk_directory b (depth + 1) listing v) next in
      Adds-noted (note_entry-Adds b depth name identity w v first)
        (walk_directory-Adds b (depth + 1) listing v w' inner)

-- What a complete measurement says.
unfoldable pub Inventoried : Listing → ℕ → ℕ → Measurement → Type 0
Inventoried l limit_bytes limit_entries m =
    (m.stored_entries ≡ entries 0 l)
    × (m.stored_regular_bytes ≡ file_bytes l)
    × (m.limit_bytes ≡ limit_bytes)
    × (m.limit_entries ≡ limit_entries)
    × (entries 0 l ≤ limit_entries)
    × (file_bytes l ≤ limit_bytes)

measure_capacity-cases :
    (w : Walk) (capacity : Option (ℕ × ℕ)) {m : Measurement}
    → measure_capacity w capacity ≡ complete m
    → (m.stored_entries ≡ w.measurement.stored_entries)
      × (m.stored_regular_bytes ≡ w.measurement.stored_regular_bytes)
      × (m.limit_bytes ≡ w.measurement.limit_bytes)
      × (m.limit_entries ≡ w.measurement.limit_entries)
      × (m.stored_entries ≤ m.limit_entries)
      × (m.stored_regular_bytes ≤ m.limit_bytes)
unfolding measure_capacity measurement_valid
measure_capacity-cases w none h = absurd (cc h)
measure_capacity-cases w (some (available, files)) {m} h = ground arith

measure_walk-cases :
    (b : Baseline) (l : Listing) (limit_bytes limit_entries : ℕ) (o : Option Walk)
    (capacity : Option (ℕ × ℕ)) {m : Measurement}
    → walk_directory b 0 l (unwalked limit_bytes limit_entries) ≡ o
    → measure_walk o capacity ≡ complete m
    → Inventoried l limit_bytes limit_entries m
unfolding measure_walk Inventoried
measure_walk-cases b l limit_bytes limit_entries none capacity walked h = absurd (cc h)
measure_walk-cases b l limit_bytes limit_entries (some w) capacity walked h =
    let a = walk_directory-Adds b 0 l (unwalked limit_bytes limit_entries) w walked in
    let (e, s, lb, le, within_entries, within_bytes) = measure_capacity-cases w capacity h in
    (
      omega (arith, e, a.more_entries),
      omega (arith, s, a.more_bytes),
      lb ∙ a.limits.0,
      le ∙ a.limits.1,
      omega (arith, e, a.more_entries, le, a.limits.1, within_entries),
      omega (arith, s, a.more_bytes, lb, a.limits.0, within_bytes),
    )

-- The part behind the first guard.
abbrev measure_final_root : Option Identity → Listing → Option (ℕ × ℕ) → Baseline → ℕ → ℕ → Measured
measure_final_root root l capacity b limit_bytes limit_entries =
    if is_root root b.root
    then measure_walk (walk_directory b 0 l (unwalked limit_bytes limit_entries)) capacity
    else ambiguous

-- A complete measurement counts every entry of the tree but home and tmp and all bytes of regular
-- files, however deep, and both are within the limits that were given.
pub measure_final-Inventoried :
    (root : Option Identity) (l : Listing) (capacity : Option (ℕ × ℕ)) (b : Baseline)
    (limit_bytes limit_entries : ℕ) {m : Measurement}
    → measure_final root (some l) capacity b limit_bytes limit_entries ≡ complete m
    → Inventoried l limit_bytes limit_entries m
unfolding measure_final
measure_final-Inventoried root l capacity b limit_bytes limit_entries {m} h =
    elim (Bool-cases (b.captured != 1 || limit_bytes == 0 || limit_entries == 0)) [
      | inl bad ↦ absurd (cc (rw bad at h))
      | inr good ↦
          let found : measure_final_root root l capacity b limit_bytes limit_entries ≡ complete m =
            rw good at h in
          elim (Bool-cases (is_root root b.root)) [
            | inl here ↦
                measure_walk-cases b l limit_bytes limit_entries _ capacity refl (rw here at found)
            | inr elsewhere ↦ absurd (cc (rw elsewhere at found))
          ]
    ]
