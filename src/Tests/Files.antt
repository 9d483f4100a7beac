-- ===== src/Tests/Files.antt =====
-- native/proc17_repository_fs.c: the creation of a file.
use proc.Base.{ℕ, zero, suc, ◌≡◌, List, [], ◌∷◌, refl, true, some, none}
use proc.Memory.{Buffer}
use proc.Repository.Calls.{
  Answer, ok, error, eintr, none_open, opened, created, mode_set, wrote, synced, closed, renamed,
  project_base, repository, parent, temporary, pure, ensure, attempt, take_effect, hold, close_once,
  after_failure, ◌>>=◌,
}
use proc.Repository.Failures.{elapsed_milliseconds}
use proc.Repository.Create.{
  Answers, create_file_transaction, create_split, compare_roots, create_below, before_temp,
  open_temp, write_loop, write_turn, write_and_rename, settle, then_or, succeed, parent_private,
  temp_private, temp_name,
}
use proc.Repository.Create.Publication.{Settled, create_file_transaction-Promise}
use proc.Repository.Identity.{
  Identity, Stat, Handle, Observation, observe_identity, observe_status, observe_mount,
  identity_equal, open_identity_pair, open_repository, close_pair, close_checked,
}
use proc.Repository.Paths.{split_target_path, slash_loop}
use proc.Tests.Paths.{path}

abbrev base_id : Identity
base_id = record { device = 1; inode = 2; mount_id = 3 }

abbrev pub root_id : Identity
root_id = record { device = 1; inode = 4; mount_id = 3 }

abbrev pub handle : Handle
handle = record {
  project = base_id;
  repository = root_id;
  project_base_path = b'/' ∷ b'p' ∷ [];
  repository_path = b'r' ∷ [];
}

-- A private directory of user 1000.
abbrev pub directory : ℕ → Stat
directory inode = record {
  mode = 0o040700;
  uid = 1000;
  nlink = 2;
  size = 4096;
  device = 1;
  inode = inode;
  gid = 1000;
  mtim = (1, 2);
  ctim = (3, 4);
}

abbrev pub observed : ℕ → Observation
observed inode = record {
  status = ok (directory inode);
  extended = ok (record { has_mount_id = true; mount_id = 3 });
}

abbrev drawn : Buffer
drawn = λ _. 0xa0

-- The first write is interrupted, and each other one takes a byte.
abbrev by_bytes : ℕ → Answer ℕ
by_bytes zero = error eintr
by_bytes (suc turn) = ok 1

abbrev granted : Answers
granted = record {
  started = some (5, 0);
  finished = some (5, 2000000);
  roots = record {
    project_base = ok tt;
    project_identity = observed 2;
    repository = ok tt;
    repository_identity = observed 4;
  };
  parent = ok tt;
  parent_status = ok (directory 5);
  euid = 1000;
  random = ok 16;
  random_value = drawn;
  temp = ok tt;
  mode = ok tt;
  temp_status = ok (record {
    mode = 0o100600;
    uid = 1000;
    nlink = 1;
    size = 0;
    device = 1;
    inode = 6;
    gid = 1000;
    mtim = (1, 2);
    ctim = (3, 4);
  });
  write = by_bytes;
  sync_temp = ok tt;
  close_temp = ok tt;
  before_publish = ok tt;
  rename = ok tt;
  after_publish = ok tt;
  sync_parent = ok tt;
  close_parent = ok tt;
  close_repository = ok tt;
  close_project = ok tt;
  unlink = ok tt;
}

abbrev pub content : List ℕ
content = b'h' ∷ b'i' ∷ []

create_ok : create_file_transaction granted handle path content 0o600 ≡ (
  some (record {
    succeeded = 1;
    class_name = none;
    code = none;
    stage = none;
    error_number = 0;
    mutation_primitive_entered = 1;
    published = 1;
    has_temp_residue = 0;
    bytes = 2;
    time_ms = 2;
    root_identity = root_id;
    temp_name = [];
  }),
  record {
    descriptors = none_open;
    events =
        closed project_base
        ∷ closed repository
        ∷ closed parent
        ∷ synced parent
        ∷ renamed (temp_name drawn) (b'a' ∷ b'.' ∷ b'c' ∷ [])
        ∷ closed temporary
        ∷ synced temporary
        ∷ wrote (b'i' ∷ [])
        ∷ wrote (b'h' ∷ [])
        ∷ mode_set 0o600
        ∷ created (temp_name drawn) 0o600
        ∷ opened parent (b's' ∷ b'r' ∷ b'c' ∷ []) 0x0f
        ∷ opened repository (b'r' ∷ []) 0x0f
        ∷ opened project_base (b'/' ∷ b'p' ∷ []) 0x06
        ∷ [];
  },
)
unfolding create_file_transaction create_split compare_roots create_below before_temp open_temp
    write_loop write_turn write_and_rename settle then_or succeed elapsed_milliseconds
    parent_private temp_private observe_identity observe_status observe_mount identity_equal
    open_identity_pair open_repository close_pair close_checked split_target_path slash_loop pure
    ensure attempt take_effect hold close_once after_failure ◌>>=◌
create_ok = refl

-- A rename that fails.
abbrev taken : Answers
taken = record granted { rename = error 17 }

create_file_transaction-Promise_example :
    Settled path content (create_file_transaction taken handle path content 0o600)
create_file_transaction-Promise_example =
    create_file_transaction-Promise taken handle path content 0o600
