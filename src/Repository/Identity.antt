-- ===== src/Repository/Identity.antt =====
-- native/proc17_repository_fs.c: which directory a descriptor is open on, and the pair of
-- directories of a transaction.
use Prim.Native.String.{String}
use proc.Base.{ℕ, Bool, ◌&&◌, ◌==◌, ◌/◌, ◌%◌, if◌then◌else◌, List}
use proc.Repository.Calls.{
  Answer, ok, error, enotdir, Descriptor, enotsup, exdev, project_base, repository, opened, Action,
  pure, ensure, attempt, hold, close_once, after_failure, Run, ◌>>=◌, ◌>>◌, held,
}

-- struct proc17_identity
pub record Identity : Type 0 where
  pub device : ℕ
  pub inode : ℕ
  pub mount_id : ℕ

-- The part of struct stat that is read.
pub record Stat : Type 0 where
  pub mode : ℕ
  pub uid : ℕ
  pub nlink : ℕ
  pub size : ℕ
  pub device : ℕ
  pub inode : ℕ
  pub gid : ℕ
  pub mtim : ℕ × ℕ
  pub ctim : ℕ × ℕ

-- The part of struct statx that is read: whether the mask has STATX_MNT_ID, and the mount.
pub record Extended : Type 0 where
  pub has_mount_id : Bool
  pub mount_id : ℕ

-- The identities in struct proc17_repository_handle_prefix_v0, and the two paths.
pub record Handle : Type 0 where
  pub project : Identity
  pub repository : Identity
  pub project_base_path : List ℕ
  pub repository_path : List ℕ

-- S_ISDIR and S_ISREG
abbrev pub is_directory : ℕ → Bool
is_directory mode = mode / 4096 % 16 == 4

abbrev pub is_regular : ℕ → Bool
is_regular mode = mode / 4096 % 16 == 8

-- The answers of fstat and statx.
pub record Observation : Type 0 where
  pub status : Answer Stat
  pub extended : Answer Extended

unfoldable pub observe_mount : Stat → Answer Extended → Answer Identity
observe_mount status (error e) = error e
observe_mount status (ok extended) =
    if extended.has_mount_id
    then ok (record { device = status.device; inode = status.inode; mount_id = extended.mount_id })
    else error enotsup

unfoldable pub observe_status : Answer Stat → Answer Extended → Answer Identity
observe_status (error e) extended = error e
observe_status (ok status) extended =
    if is_directory status.mode then observe_mount status extended else error enotdir

unfoldable pub observe_identity : Observation → Answer Identity
observe_identity o = observe_status o.status o.extended

-- handle_project_identity_equal and handle_repository_identity_equal
unfoldable pub identity_equal : Identity → Identity → Bool
identity_equal a b = a.device == b.device && a.inode == b.inode && a.mount_id == b.mount_id

-- What opening the two directories is answered.
pub record Roots : Type 0 where
  pub project_base : Answer (Unit {0})
  pub project_identity : Observation
  pub repository : Answer (Unit {0})
  pub repository_identity : Observation

-- RESOLVE_NO_MAGICLINKS | RESOLVE_NO_SYMLINKS
abbrev pub resolve_exact : ℕ
resolve_exact = 0x06

-- RESOLVE_BENEATH | RESOLVE_NO_SYMLINKS | RESOLVE_NO_MAGICLINKS | RESOLVE_NO_XDEV
abbrev pub resolve_beneath : ℕ
resolve_beneath = 0x0f

-- A failure is its stage and errno.
abbrev pub staged : String → ℕ → String × ℕ
staged stage e = (stage, e)

unfoldable pub open_repository :
    Handle → Roots → Identity → Action (String × ℕ) (Identity × Identity)
open_repository handle roots project = do
  after_failure (attempt roots.repository (staged "open_repository_root")) (close_once project_base)
  hold repository (opened repository handle.repository_path resolve_beneath)
  identity ←
      after_failure
        (attempt (observe_identity roots.repository_identity) (staged "observe_repository_root"))
        (close_once repository >> close_once project_base)
  after_failure (ensure (identity.mount_id == project.mount_id) ("observe_repository_root", exdev))
      (close_once repository >> close_once project_base)
  pure (project, identity)

unfoldable pub open_identity_pair : Handle → Roots → Action (String × ℕ) (Identity × Identity)
open_identity_pair handle roots = do
  attempt roots.project_base (staged "open_project_base")
  hold project_base (opened project_base handle.project_base_path resolve_exact)
  project ←
      after_failure
        (attempt (observe_identity roots.project_identity) (staged "observe_project_base"))
        (close_once project_base)
  open_repository handle roots project

-- errno of a close that failed, else 0
abbrev pub close_error : Answer (Unit {0}) → ℕ
close_error (error e) = e
close_error (ok _) = 0

-- close_checked: the descriptor is closed if it is open.
unfoldable pub close_checked : Answer (Unit {0}) → Descriptor → Run → ℕ × Run
close_checked answer d r =
    (if held d r.descriptors then close_error answer else 0, (close_once {E = Unit {0}} d r).1)

-- The errno of the first failure, else 0.
unfoldable pub close_pair : Answer (Unit {0}) → Answer (Unit {0}) → Run → ℕ × Run
close_pair close_repository close_project r =
    let (repository_error, r1) = close_checked close_repository repository r in
    let (project_error, r2) = close_checked close_project project_base r1 in
    (if repository_error == 0 then project_error else repository_error, r2)
