-- ===== src/Repository/Observe/Stages.antt =====
-- native/proc17_repository_fs.c: what the closes of a read and the second look leave open, and what
-- the second look has found out.

use mathlib.Core.Path.{subst}
use proc.Base.{ℕ, Bool, true, false, not, ◌!=◌, List, ◌≡◌, refl, ap, arith, &&_iff}
use proc.Repository.Calls.{
  Answer, ok, error, enoent, project_base, repository, parent, target, reading, Descriptors,
  none_open, set, opened, Run,
}
use proc.Repository.Failures.{Failure}
use proc.Repository.Opening.{roots_and, open_identity_pair-Ends}
use proc.Repository.Disk.{absent, step, At}
use proc.Repository.Identity.{
  Identity, Stat, Handle, Roots, is_regular, identity_equal, resolve_beneath, close_checked,
  close_pair,
}
use proc.Repository.Observe.{
  resolve_target, same_file_version, Target, missing, regular, other, Closes,
  close_read_descriptors, close_failed, close_read, with_eio, root_failure, open_roots,
  Reobservation, compare_missing, compare_status, compare_target, observe_again,
  reobserve_named_target,
}
use proc.Repository.Rules.{
  Ends, Ends-bind, Ends-attempt, Ends-attempt_eq, Ends-ensure, Ends-if, Ends-done, Ends-failed,
  Ends-raise, Ends-pure, Ends-hold, Ends-after_failure, Ends-map, Ends-relabel, At-hold,
  At-close_once,
}

-- Some descriptors are open, and nothing was created.
abbrev pub Quiet : Run → Type 0
Quiet r = (fds : Descriptors) × (fds.temp_fd ≡ false) × At fds absent r

abbrev pub Lost : Failure → Run → Type 0
Lost f r = Quiet r

abbrev pub Closed : Run → Type 0
Closed r = At none_open absent r

abbrev pub reading_fds : Bool → Bool → Descriptors
reading_fds t r = record {
  project_base_fd = true;
  repository_fd = true;
  parent_fd = true;
  temp_fd = false;
  target_fd = t;
  read_fd = r;
}

pub close_read_descriptors-Closed :
    (closes : Closes) (r : Run) → Quiet r → Closed (close_read_descriptors closes r).1
unfolding close_read_descriptors close_checked close_pair
close_read_descriptors-Closed closes r (fds, no_temp, h) =
    let h1 = At-close_once fds absent r h (Unit {0}) reading in
    let h2 = At-close_once (set reading false fds) absent _ h1 (Unit {0}) target in
    let h3 =
      At-close_once (set target false (set reading false fds)) absent _ h2 (Unit {0}) parent in
    let h4 =
      At-close_once (set parent false (set target false (set reading false fds))) absent _ h3
        (Unit {0}) repository in
    let h5 =
      At-close_once
        (set repository false (set parent false (set target false (set reading false fds)))) absent
        _ h4 (Unit {0}) project_base in
    subst (λ t. At (record none_open { temp_fd = t }) absent (close_read_descriptors closes r).1)
      no_temp h5

pub close_read-Ends :
    (closes : Closes) (r : Run) → Quiet r → Ends (λ _. Closed) Lost (close_read closes r)
unfolding close_read
close_read-Ends closes r h =
    let h' = close_read_descriptors-Closed closes r h in
    Ends-if _ _ ((close_read_descriptors closes r).0 != 0) _ _
      (λ _. Ends-failed _ _ _ _ (none_open, refl, h')) λ _. Ends-done _ _ _ _ h'

open_roots-Ends :
    (handle : Handle) (roots : Roots) (r : Run)
    → Closed r
    → Ends (λ _. At (roots_and false false) absent) Lost (open_roots handle roots r)
unfolding open_roots
open_roots-Ends handle roots r h = Ends-relabel _ _ root_failure _ r (
    Ends-map _ _ _ _ _ (λ _ _ h. h) (λ _ _ h. (none_open, refl, h))
      (open_identity_pair-Ends handle roots r h))

-- The second look shows the target as it was.
abbrev pub Confirmed : Reobservation → Target → Type 0
Confirmed o missing = o.target ≡ error enoent
Confirmed o (regular seen) =
    (status : Stat) × (o.status ≡ ok status)
    × (same_file_version seen status ≡ true)
    × (is_regular status.mode ≡ true)
Confirmed o (other seen) =
    (status : Stat) × (o.status ≡ ok status)
    × (same_file_version seen status ≡ true)
    × (is_regular status.mode ≡ false)

compare_status-Ends :
    (final_name : List ℕ) (o : Reobservation) (expected : Stat → Bool) (r : Run)
    → At (roots_and true false) absent r
    → Ends
        (λ _ r. Quiet r × (status : Stat) × (o.status ≡ ok status) × (expected status ≡ true))
        Lost
        (compare_status final_name o expected r)
unfolding compare_status step
compare_status-Ends final_name o expected r h =
    Ends-attempt _ _ _ _ _ r (λ _. (roots_and true false, refl, h))
      λ _.
        let h' =
          At-hold (roots_and true false) absent r h absent target
            (opened target final_name resolve_target) refl in
        Ends-hold _ _ _ _ _ _ (
          Ends-attempt_eq _ _ _ _ _ _ (λ _. (reading_fds true false, refl, h'))
            λ status eq.
              Ends-ensure _ _ _ _ _ _ (reading_fds true false, refl, h')
                λ same. Ends-pure _ _ _ _ ((reading_fds true false, refl, h'), status, eq, same))

compare_missing-Ends :
    (final_name : List ℕ) (answer : Answer (Unit {0})) (r : Run)
    → At (roots_and true false) absent r
    → Ends (λ _ r. Quiet r × (answer ≡ error enoent)) Lost (compare_missing final_name answer r)
unfolding compare_missing step
compare_missing-Ends final_name (ok _) r h = Ends-hold _ _ _ _ _ r (
    Ends-raise _ _ _ _ (
      reading_fds true false,
      refl,
      At-hold (roots_and true false) absent r h absent target
          (opened target final_name resolve_target) refl,
    ))
compare_missing-Ends final_name (error e) r h =
    Ends-if _ _ (e != enoent) _ _ (λ _. Ends-failed _ _ _ _ (roots_and true false, refl, h))
      λ same. Ends-done _ _ _ _ ((roots_and true false, refl, h), ap error (ground (arith, same)))

compare_target-Ends :
    (final_name : List ℕ) (o : Reobservation) (expected : Target) (r : Run)
    → At (roots_and true false) absent r
    → Ends (λ _ r. Quiet r × Confirmed o expected) Lost (compare_target final_name o expected r)
unfolding compare_target
compare_target-Ends final_name o missing r h = compare_missing-Ends final_name o.target r h
compare_target-Ends final_name o (regular seen) r h =
    Ends-map _ _ _ _ _
      (λ _ r (quiet, status, eq, same).
        let both = (&&_iff (same_file_version seen status) (is_regular status.mode)).0 same in
        (quiet, (status, eq, both.0, both.1)))
      (λ _ _ h. h) (compare_status-Ends final_name o _ r h)
compare_target-Ends final_name o (other seen) r h =
    Ends-map _ _ _ _ _
      (λ _ r (quiet, status, eq, same).
        let both = (&&_iff (same_file_version seen status) (not (is_regular status.mode))).0 same in
        (quiet, (status, eq, both.0, ground (arith, both.1))))
      (λ _ _ h. h) (compare_status-Ends final_name o _ r h)

module _ (handle : Handle) (parent_path final_name : List ℕ) (o : Reobservation)
    (expected : Target) where
  abbrev pub Again : Identity → Run → Type 0
  Again root r = Confirmed o expected × (identity_equal handle.repository root ≡ true)

  observe_again-Ends :
      (r : Run)
      → Closed r
      → Ends
          (λ root r. Quiet r × Again root r)
          Lost
          (observe_again handle parent_path final_name o expected r)
  unfolding observe_again step
  observe_again-Ends r h = Ends-bind _ _ _ _ _ _ (open_roots-Ends handle o.roots r h) λ ids r1 h1.
      Ends-ensure _ _ _ _ _ _ (roots_and false false, refl, h1)
        λ same.
          Ends-attempt _ _ _ _ _ _ (λ _. (roots_and false false, refl, h1))
            λ _.
              let h2 =
                At-hold (roots_and false false) absent r1 h1 absent parent
                  (opened parent parent_path resolve_beneath) refl in
              Ends-hold _ _ _ _ _ _ (
                Ends-bind _ _ _ _ _ _ (compare_target-Ends final_name o expected _ h2)
                  λ _ r3 (quiet, confirmed).
                    let root =
                      (&&_iff (identity_equal handle.project ids.0)
                          (identity_equal handle.repository ids.1)).0
                        same in
                    Ends-pure _ _ _ _ (quiet, (confirmed, root.1)))

  pub reobserve_named_target-Ends :
      (r : Run)
      → Closed r
      → Ends
          (λ root r. Closed r × Again root r)
          Lost
          (reobserve_named_target handle parent_path final_name o expected r)
  unfolding reobserve_named_target close_failed
  reobserve_named_target-Ends r h =
      Ends-bind _ _ _ _ _ (λ root r. Quiet r × Again root r)
        (Ends-after_failure _ _ _ _ _ Lost (Ends-relabel _ _ with_eio _ r (observe_again-Ends r h))
          λ e r' quiet. (none_open, refl, close_read_descriptors-Closed o.closes r' quiet))
        λ root r1 (quiet, again).
          Ends-bind _ _ _ _ _ _ (close_read-Ends o.closes r1 quiet)
            λ _ r2 closed. Ends-pure _ _ _ _ (closed, again)
