-- ===== src/Repository/Errors.antt =====
-- native/proc17_repository_fs.c: the codes of errors.
use Prim.Native.String.{String}
use proc.Base.{ℕ, ◌==◌, ◌||◌, if◌then◌else◌, Bool}
use proc.Repository.Calls.{
  eperm, enoent, eacces, eexist, exdev, enotdir, einval, enospc, erofs, enosys, eloop, enotsup,
  edquot,
}

abbrev unavailable : ℕ → Bool
unavailable e = e == enosys || e == einval || e == enotsup

pub open_error_code : ℕ → String
open_error_code e =
    if e == eloop
    then "path_symlink"
    else if e == exdev
    then "path_containment_denied"
    else if e == enoent
    then "root_missing"
    else if e == enotdir
    then "root_invalid"
    else if e == eacces || e == eperm
    then "permission_denied"
    else if unavailable e
    then "provider_unavailable"
    else "io_failure"

pub parent_error_code : ℕ → String
parent_error_code e =
    if e == enoent
    then "parent_missing"
    else if e == enotdir
    then "parent_not_directory"
    else if e == eloop
    then "path_symlink"
    else if e == exdev
    then "path_containment_denied"
    else if e == eacces || e == eperm || e == erofs
    then "permission_denied"
    else if unavailable e
    then "provider_unavailable"
    else "io_failure"

pub mutation_error_code : ℕ → String
mutation_error_code e =
    if e == enospc || e == edquot
    then "no_space"
    else if e == eacces || e == eperm || e == erofs
    then "permission_denied"
    else "io_failure"

pub random_error_code : ℕ → String
random_error_code e = if e == enosys then "provider_unavailable" else "io_failure"

pub rename_error_code : ℕ → String
rename_error_code e =
    if e == eexist
    then "target_exists"
    else if unavailable e
    then "provider_unavailable"
    else mutation_error_code e

-- The code for a root that cannot be opened again.
pub root_error_code : ℕ → String
root_error_code e = if unavailable e then "provider_unavailable" else "root_changed"

pub temp_error_code : ℕ → String
temp_error_code e = if e == eexist then "temp_name_collision" else mutation_error_code e

pub read_path_error_code : ℕ → String
read_path_error_code e =
    if e == eloop
    then "path_symlink"
    else if e == exdev
    then "path_containment_denied"
    else if e == eacces || e == eperm
    then "permission_denied"
    else if unavailable e
    then "provider_unavailable"
    else "io_failure"

-- The code for a target that cannot be opened after it was classified.
pub read_open_error_code : ℕ → String
read_open_error_code e =
    if e == enoent || e == eloop || e == enotdir then "target_changed" else read_path_error_code e

-- The code for a parent that cannot be opened again.
pub reobserve_error_code : ℕ → String
reobserve_error_code e = if unavailable e then "provider_unavailable" else "target_changed"
