-- ===== src/Repository/Calls.antt =====
-- native/proc17_repository_fs.c: what the system answers, what takes effect, and calls that fail.
-- The answers are arguments. A run keeps the descriptors that are open and, newest first, the calls
-- that took effect: those that succeeded, and each close, which releases its descriptor.
use proc.Base.{ℕ, Bool, true, false, if◌then◌else◌, List, ◌∷◌}

-- The errno values of Linux.
abbrev pub eperm : ℕ
eperm = 1

abbrev pub enoent : ℕ
enoent = 2

abbrev pub eintr : ℕ
eintr = 4

abbrev pub eio : ℕ
eio = 5

abbrev pub eacces : ℕ
eacces = 13

abbrev pub eexist : ℕ
eexist = 17

abbrev pub enomem : ℕ
enomem = 12

abbrev pub exdev : ℕ
exdev = 18

abbrev pub enotdir : ℕ
enotdir = 20

abbrev pub einval : ℕ
einval = 22

abbrev pub enospc : ℕ
enospc = 28

abbrev pub erofs : ℕ
erofs = 30

abbrev pub enosys : ℕ
enosys = 38

abbrev pub eloop : ℕ
eloop = 40

abbrev pub enotsup : ℕ
enotsup = 95

abbrev pub estale : ℕ
estale = 116

abbrev pub edquot : ℕ
edquot = 122

-- What a call returns: a value, or -1 with errno.
pub data Answer (A : Type 0) : Type 0 where
  ok : A → Answer A
  error : ℕ → Answer A

-- The variables of a transaction that hold a descriptor.
pub data Descriptor : Type 0 where
  project_base repository parent temporary target reading : Descriptor

-- Which of them are 0 or more.
pub record Descriptors : Type 0 where
  pub project_base_fd : Bool
  pub repository_fd : Bool
  pub parent_fd : Bool
  pub temp_fd : Bool
  pub target_fd : Bool
  pub read_fd : Bool

abbrev pub none_open : Descriptors
none_open = record {
  project_base_fd = false;
  repository_fd = false;
  parent_fd = false;
  temp_fd = false;
  target_fd = false;
  read_fd = false;
}

abbrev pub held : Descriptor → Descriptors → Bool
held project_base fds = fds.project_base_fd
held repository fds = fds.repository_fd
held parent fds = fds.parent_fd
held temporary fds = fds.temp_fd
held target fds = fds.target_fd
held reading fds = fds.read_fd

abbrev pub set : Descriptor → Bool → Descriptors → Descriptors
set project_base is_open fds = record fds { project_base_fd = is_open }
set repository is_open fds = record fds { repository_fd = is_open }
set parent is_open fds = record fds { parent_fd = is_open }
set temporary is_open fds = record fds { temp_fd = is_open }
set target is_open fds = record fds { target_fd = is_open }
set reading is_open fds = record fds { read_fd = is_open }

pub data Event : Type 0 where
  -- openat2 of a directory, with the path and the flags of `resolve`
  opened : Descriptor → List ℕ → ℕ → Event
  -- openat with O_CREAT | O_EXCL, with the name and the mode
  created : List ℕ → ℕ → Event
  -- fchmod
  mode_set : ℕ → Event
  -- write, with the bytes that it took
  wrote : List ℕ → Event
  -- fsync
  synced : Descriptor → Event
  closed : Descriptor → Event
  -- renameat2 with RENAME_NOREPLACE
  renamed : List ℕ → List ℕ → Event
  unlinked : List ℕ → Event

pub record Run : Type 0 where
  pub descriptors : Descriptors
  pub events : List Event

pub data Outcome (E A : Type 0) : Type 0 where
  done : A → Outcome E A
  failed : E → Outcome E A
  -- a loop that has used up its turns
  exhausted : Outcome E A

abbrev pub Action : Type 0 → Type 0 → Type 0
Action E A = Run → Outcome E A × Run

unfoldable pub pure : {E A : Type 0} → A → Action E A
pure a r = (done a, r)

unfoldable pub raise : {E A : Type 0} → E → Action E A
raise e r = (failed e, r)

infixl 5 ◌>>=◌ ◌>>◌
unfoldable pub ◌>>=◌ : {E A B : Type 0} → Action E A → (A → Action E B) → Action E B
◌>>=◌ m f r =
    let (o, r') = m r in
    elim o [ done a ↦ f a r' | failed e ↦ (failed e, r') | exhausted ↦ (exhausted, r') ]

abbrev pub ◌>>◌ : {E A B : Type 0} → Action E A → Action E B → Action E B
m >> k = m >>= λ _. k

unfoldable pub ensure : {E : Type 0} → Bool → E → Action E (Unit {0})
ensure true e r = (done tt, r)
ensure false e r = (failed e, r)

unfoldable pub attempt : {E A : Type 0} → Answer A → (ℕ → E) → Action E A
attempt (ok a) fail r = (done a, r)
attempt (error e) fail r = (failed (fail e), r)

unfoldable pub take_effect : {E : Type 0} → Event → Action E (Unit {0})
take_effect event r = (done tt, record r { events = event ∷ r.events })

-- A call that takes effect if it succeeds.
abbrev pub perform : {E : Type 0} → Answer (Unit {0}) → Event → (ℕ → E) → Action E (Unit {0})
perform answer event fail = attempt answer fail >> take_effect event

-- A call that opens a descriptor if it succeeds.
unfoldable pub hold : {E : Type 0} → Descriptor → Event → Action E (Unit {0})
hold d event r =
    (done tt, record { descriptors = set d true r.descriptors; events = event ∷ r.events })

-- close_once
unfoldable pub close_once : {E : Type 0} → Descriptor → Action E (Unit {0})
close_once d r = (
  done tt,
  if held d r.descriptors
      then record { descriptors = set d false r.descriptors; events = closed d ∷ r.events }
      else r,
)

-- What follows a failure before it is passed on.
unfoldable pub after_failure : {E A : Type 0} → Action E A → Action E (Unit {0}) → Action E A
after_failure m cleanup r =
    let (o, r') = m r in
    elim o [
      | done a ↦ (done a, r')
      | failed e ↦ (failed e, (cleanup r').1)
      | exhausted ↦ (exhausted, r')
    ]

-- The same call with another account of its failure.
unfoldable pub relabel : {E F A : Type 0} → (E → F) → Action E A → Action F A
relabel f m r =
    let (o, r') = m r in
    elim o [ done a ↦ (done a, r') | failed e ↦ (failed (f e), r') | exhausted ↦ (exhausted, r') ]
