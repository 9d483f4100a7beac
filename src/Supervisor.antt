-- ===== src/Supervisor.antt =====
-- native/proc17_qa_supervisor.c: the supervisor of a run. Its parts that only set up the sandbox
-- through the system are not modelled.
pub mod Request
pub mod Self
pub mod Ending
use proc.Base.{ℕ, Bool, ◌&&◌, ◌==◌}

-- struct proc17_qa_root_identity
pub record RootIdentity : Type 0 where
  pub device : ℕ
  pub inode : ℕ
  pub mount_id : ℕ

unfoldable pub same_mount_identity : RootIdentity → RootIdentity → Bool
same_mount_identity left right =
    left.device == right.device && left.inode == right.inode && left.mount_id == right.mount_id

unfoldable pub same_mount_object : RootIdentity → RootIdentity → Bool
same_mount_object left right = left.device == right.device && left.inode == right.inode
