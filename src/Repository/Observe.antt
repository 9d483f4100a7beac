-- ===== src/Repository/Observe.antt =====
-- native/proc17_repository_fs.c: the versions of a file, the closes of a read, and the second look at
-- the name of a target, from the roots on.
pub mod Stages
use Prim.Native.String.{String}
use proc.Base.{
  ℕ, zero, suc, ◌+◌, ◌-◌, ◌/◌, ◌%◌, Bool, true, false, not, ◌&&◌, ◌||◌, ◌==◌, ◌!=◌, ltb,
  if◌then◌else◌, Option, none, some, List, [], ◌++◌, length, take, drop,
}
use proc.Repository.Calls.{
  Answer, ok, error, enoent, eintr, eio, einval, enomem, estale, project_base, repository, parent,
  target, reading, none_open, held, set, Event, opened, Run, Outcome, done, failed, exhausted,
  Action, pure, raise, ◌>>=◌, ◌>>◌, ensure, attempt, hold, after_failure, relabel,
}
use proc.Repository.Failures.{Failure, failure, coded, monotonic_milliseconds, elapsed_milliseconds}
use proc.Repository.Errors.{
  parent_error_code, root_error_code, read_path_error_code, read_open_error_code,
  reobserve_error_code,
}
use proc.Repository.Identity.{
  Identity, Stat, Handle, Roots, is_regular, identity_equal, resolve_beneath, open_identity_pair,
  close_checked, close_pair,
}
use proc.Repository.Paths.{split_target_path}

-- RESOLVE_BENEATH | RESOLVE_NO_MAGICLINKS | RESOLVE_NO_XDEV
abbrev pub resolve_target : ℕ
resolve_target = 0x0b

-- st_mode & S_IFMT
abbrev pub file_type : ℕ → ℕ
file_type mode = mode / 4096 % 16

unfoldable pub same_file_identity : Stat → Stat → Bool
same_file_identity left right =
    left.device == right.device
    && left.inode == right.inode
    && file_type left.mode == file_type right.mode

abbrev pub same_timespec : ℕ × ℕ → ℕ × ℕ → Bool
same_timespec left right = left.0 == right.0 && left.1 == right.1

unfoldable pub same_file_version : Stat → Stat → Bool
same_file_version left right =
    same_file_identity left right
    && left.mode == right.mode
    && left.uid == right.uid
    && left.gid == right.gid
    && left.nlink == right.nlink
    && left.size == right.size
    && same_timespec left.mtim right.mtim
    && same_timespec left.ctim right.ctim

-- enum proc17_read_target_kind, with the status that was observed
pub data Target : Type 0 where
  missing : Target
  regular : Stat → Target
  other : Stat → Target

-- What the closes are answered.
pub record Closes : Type 0 where
  pub reading : Answer (Unit {0})
  pub target : Answer (Unit {0})
  pub parent : Answer (Unit {0})
  pub repository : Answer (Unit {0})
  pub project_base : Answer (Unit {0})

abbrev pub first_error : ℕ → ℕ → ℕ
first_error first later = if first == 0 then later else first

unfoldable pub close_read_descriptors : Closes → Run → ℕ × Run
close_read_descriptors closes r =
    let (read_error, r1) = close_checked closes.reading reading r in
    let (target_error, r2) = close_checked closes.target target r1 in
    let (parent_error, r3) = close_checked closes.parent parent r2 in
    let (pair_error, r4) = close_pair closes.repository closes.project_base r3 in
    (first_error read_error (first_error target_error (first_error parent_error pair_error)), r4)

-- The closes of the label fail.
unfoldable pub close_failed : Closes → Action Failure (Unit {0})
close_failed closes r = (done tt, (close_read_descriptors closes r).1)

-- The closes of a success, which fails if one of them does.
unfoldable pub close_read : Closes → Action Failure (Unit {0})
close_read closes r =
    let (e, r') = close_read_descriptors closes r in
    if e != 0 then (failed (failure "io_failure" "close_read_descriptors" e), r') else (done tt, r')

-- saved_error != 0 ? saved_error : EIO
abbrev pub with_eio : Failure → Failure
with_eio f = record f { error_number = if f.error_number != 0 then f.error_number else eio }

abbrev pub root_failure : String × ℕ → Failure
root_failure (stage, e) = failure (root_error_code e) stage e

-- The two roots, where they are those of the handle.
unfoldable pub open_roots : Handle → Roots → Action Failure (Identity × Identity)
open_roots handle roots = relabel root_failure (open_identity_pair handle roots)

abbrev pub same_roots : Handle → Identity × Identity → Bool
same_roots handle ids =
    identity_equal handle.project ids.0 && identity_equal handle.repository ids.1

-- What the second look at the name is answered.
pub record Reobservation : Type 0 where
  pub roots : Roots
  pub parent : Answer (Unit {0})
  pub target : Answer (Unit {0})
  pub status : Answer Stat
  pub closes : Closes

abbrev pub changed : ℕ → Failure
changed e = failure "target_changed" "reobserve_read_target" e

abbrev pub changed_or_stale : ℕ → Failure
changed_or_stale e = changed (if e != 0 then e else estale)

unfoldable pub compare_missing : List ℕ → Answer (Unit {0}) → Action Failure (Unit {0})
compare_missing final_name (ok _) r =
    (hold target (opened target final_name resolve_target) >> raise (changed estale)) r
compare_missing final_name (error e) r =
    if e != enoent then (failed (changed e), r) else (done tt, r)

unfoldable pub compare_status : List ℕ → Reobservation → (Stat → Bool) → Action Failure (Unit {0})
compare_status final_name o expected = do
  attempt o.target changed_or_stale
  hold target (opened target final_name resolve_target)
  status ← attempt o.status changed_or_stale
  ensure (expected status) (changed estale)
  pure tt

unfoldable pub compare_target : List ℕ → Reobservation → Target → Action Failure (Unit {0})
compare_target final_name o missing = compare_missing final_name o.target
compare_target final_name o (regular seen) =
    compare_status final_name o (λ status. same_file_version seen status && is_regular status.mode)
compare_target final_name o (other seen) =
    compare_status final_name o
      (λ status. same_file_version seen status && not (is_regular status.mode))

unfoldable pub observe_again :
    Handle → List ℕ → List ℕ → Reobservation → Target → Action Failure Identity
observe_again handle parent_path final_name o expected = do
  ids ← open_roots handle o.roots
  ensure (same_roots handle ids) (failure "root_changed" "compare_root_identity" estale)
  attempt o.parent (coded reobserve_error_code "reobserve_read_target")
  hold parent (opened parent parent_path resolve_beneath)
  compare_target final_name o expected
  pure ids.1

unfoldable pub reobserve_named_target :
    Handle → List ℕ → List ℕ → Reobservation → Target → Action Failure Identity
reobserve_named_target handle parent_path final_name o expected = do
  root ←
      after_failure (relabel with_eio (observe_again handle parent_path final_name o expected))
        (close_failed o.closes)
  close_read o.closes
  pure root
