-- ===== src/Repository.antt =====
-- native/proc17_repository_fs.c: the provider that reads and writes files below a repository root.
pub mod Paths
pub mod Utf8
pub mod Calls
pub mod Errors
pub mod Identity
pub mod Failures
pub mod Create
pub mod Observe
pub mod Read
pub mod Disk
pub mod Rules
pub mod Opening
