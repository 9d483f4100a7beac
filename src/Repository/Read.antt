-- ===== src/Repository/Read.antt =====
-- native/proc17_repository_fs.c: the transaction that reads a file. The name is opened without
-- following a link and classified, a regular file is read from a second descriptor, and then the
-- name is observed again from the roots on.
pub mod Stages
pub mod Snapshot
use Prim.Native.String.{String}
use proc.Base.{
  ℕ, zero, suc, ◌+◌, ◌-◌, ◌/◌, ◌%◌, Bool, true, false, not, ◌&&◌, ◌||◌, ◌==◌, ◌!=◌, ltb,
  if◌then◌else◌, Option, none, some, List, [], ◌++◌, length, take, drop,
}
use proc.Repository.Calls.{
  Answer, ok, error, enoent, eintr, eio, einval, enomem, estale, project_base, repository, parent,
  target, reading, none_open, held, set, Event, opened, Run, Outcome, done, failed, exhausted,
  Action, pure, raise, ◌>>=◌, ◌>>◌, ensure, attempt, hold, after_failure, relabel,
}
use proc.Repository.Failures.{Failure, failure, coded, monotonic_milliseconds, elapsed_milliseconds}
use proc.Repository.Errors.{
  parent_error_code, root_error_code, read_path_error_code, read_open_error_code,
  reobserve_error_code,
}
use proc.Repository.Identity.{
  Identity, Stat, Handle, Roots, is_regular, identity_equal, resolve_beneath, open_identity_pair,
  close_checked, close_pair,
}
use proc.Repository.Observe.{
  resolve_target, same_file_identity, same_file_version, Target, missing, regular, other, Closes,
  close_read_descriptors, close_read, with_eio, root_failure, same_roots, Reobservation,
  reobserve_named_target,
}
use proc.Repository.Paths.{split_target_path}

abbrev pub max_read_eintr_retries : ℕ
max_read_eintr_retries = 64

-- What the system answers to the transaction. A read gives bytes, by its number and its place in
-- the file: other reads may see the file otherwise.
pub record Answers : Type 0 where
  pub started : Option (ℕ × ℕ)
  pub finished : Option (ℕ × ℕ)
  pub roots : Roots
  pub parent : Answer (Unit {0})
  pub target : Answer (Unit {0})
  pub status : Answer Stat
  pub reading : Answer (Unit {0})
  pub before_status : Answer Stat
  pub allocated : Bool
  pub read : ℕ → ℕ → Answer (List ℕ)
  pub after_status : Answer Stat
  pub closes : Closes
  pub again : Reobservation

unfoldable pub classify_held : List ℕ → Answer Stat → Action Failure Target
classify_held final_name answer = do
  hold target (opened target final_name resolve_target)
  status ← attempt answer (failure "io_failure" "observe_read_target")
  pure (if is_regular status.mode then regular status else other status)

-- The answer to the open of the target.
unfoldable pub classify_opened : List ℕ → Answer (Unit {0}) → Answer Stat → Action Failure Target
classify_opened final_name (error e) status r =
    if e == enoent
    then (done missing, r)
    else (failed (coded read_path_error_code "classify_read_target" e), r)
classify_opened final_name (ok _) answer r = classify_held final_name answer r

-- One read: it is made again, or it ends the loop, or the loop goes on.
unfoldable pub read_turn :
    Answer (List ℕ)
    → ℕ
    → ℕ
    → List ℕ
    → Action Failure (List ℕ)
    → (List ℕ → Action Failure (List ℕ))
    → Action Failure (List ℕ)
read_turn (error e) retries left content again next r =
    if e == eintr
    then if ltb max_read_eintr_retries (retries + 1)
      then (failed (failure "io_failure" "read_target" eintr), r)
      else again r
    else (failed (failure "io_failure" "read_target" e), r)
read_turn (ok bytes) retries left content again next r =
    if length bytes == 0
    then (done content, r)
    else if ltb left (length bytes)
    then (failed (failure "io_failure" "read_target" eio), r)
    else next bytes r

module _ (answers : Answers) where
  unfoldable pub classify : List ℕ → List ℕ → Action Failure Target
  classify parent_path final_name = do
    attempt answers.parent (coded parent_error_code "open_read_parent")
    hold parent (opened parent parent_path resolve_beneath)
    classify_opened final_name answers.target answers.status

  -- while (offset < max_bytes), for at most `turns` turns, with the room that is left and the
  -- content that was read
  unfoldable pub read_loop : ℕ → ℕ → ℕ → ℕ → List ℕ → Action Failure (List ℕ)
  read_loop turns turn retries zero content r = (done content, r)
  read_loop zero turn retries (suc left) content r = (exhausted, r)
  read_loop (suc turns) turn retries (suc left) content r =
      read_turn (answers.read turn (length content)) retries (suc left) content
        (read_loop turns (turn + 1) (retries + 1) (suc left) content)
        (λ bytes. read_loop turns (turn + 1) retries (suc left - length bytes) (content ++ bytes)) r

  unfoldable pub read_regular : ℕ → List ℕ → Stat → Action Failure (List ℕ × Stat)
  read_regular max_bytes final_name classified = do
    attempt answers.reading (coded read_open_error_code "open_read_target")
    hold reading (opened reading final_name resolve_beneath)
    before ← attempt answers.before_status (failure "io_failure" "observe_read_target")
    ensure (is_regular before.mode && same_file_identity classified before)
        (failure "target_changed" "observe_read_target" estale)
    ensure answers.allocated (failure "io_failure" "allocate_read_buffer" enomem)
    content ← read_loop (max_bytes + max_read_eintr_retries + 1) 0 0 max_bytes []
    after ← attempt answers.after_status (failure "io_failure" "verify_read_stability")
    ensure (same_file_version before after) (failure "read_unstable" "verify_read_stability" estale)
    pure (content, after)

  -- What is expected of the second look, and the content.
  unfoldable pub read_target : ℕ → List ℕ → Target → Action Failure (Target × Option (List ℕ))
  read_target max_bytes final_name missing = pure (missing, none)
  read_target max_bytes final_name (other status) = pure (other status, none)
  read_target max_bytes final_name (regular status) = do
    found ← read_regular max_bytes final_name status
    pure (regular found.1, some found.0)

  unfoldable pub read_below :
      Handle → ℕ → List ℕ → List ℕ → Action Failure (Target × Option (List ℕ) × Identity)
  read_below handle max_bytes parent_path final_name = do
    found ← classify parent_path final_name
    seen ← read_target max_bytes final_name found
    close_read answers.closes
    root ← reobserve_named_target handle parent_path final_name answers.again seen.0
    pure (seen.0, seen.1, root)

-- enum proc17_read_target_kind
pub data TargetKind : Type 0 where
  target_missing target_regular target_other : TargetKind

abbrev pub kind_of : Target → TargetKind
kind_of missing = target_missing
kind_of (regular _) = target_regular
kind_of (other _) = target_other

-- struct proc17_read_result
pub record ReadResult : Type 0 where
  pub succeeded : ℕ
  pub class_name : Option String
  pub code : Option String
  pub stage : Option String
  pub error_number : ℕ
  pub target_kind : TargetKind
  pub content : Option (List ℕ)
  pub bytes : ℕ
  pub time_ms : ℕ
  pub root_identity : Identity

abbrev pub fresh_read : ReadResult
fresh_read = record {
  succeeded = 0;
  class_name = none;
  code = none;
  stage = none;
  error_number = 0;
  target_kind = target_missing;
  content = none;
  bytes = 0;
  time_ms = 0;
  root_identity = record { device = 0; inode = 0; mount_id = 0 };
}

abbrev pub Reading : Type 0
Reading = Option ReadResult × Run

abbrev content_bytes : Option (List ℕ) → ℕ
content_bytes none = 0
content_bytes (some content) = length content

module _ (answers : Answers) where
  abbrev elapsed : ℕ
  elapsed = elapsed_milliseconds (monotonic_milliseconds answers.started) answers.finished

  unfoldable pub set_read_failure : Failure → ReadResult
  set_read_failure f = record fresh_read {
    class_name = some "world";
    code = some f.code;
    stage = some f.stage;
    error_number = f.error_number;
    time_ms = elapsed;
  }

  unfoldable pub finish_read : Outcome Failure (Target × Option (List ℕ) × Identity) × Run → Reading
  finish_read (failed f, r) =
      (some (set_read_failure (with_eio f)), (close_read_descriptors answers.closes r).1)
  finish_read (exhausted, r) = (none, r)
  finish_read (done (seen, content, root), r) = (
    some (record fresh_read {
      succeeded = 1;
      target_kind = kind_of seen;
      content = content;
      bytes = content_bytes content;
      root_identity = root;
      time_ms = elapsed;
    }),
    r,
  )

  unfoldable pub read_opened :
      Handle → ℕ → List ℕ → List ℕ → Outcome (String × ℕ) (Identity × Identity) × Run → Reading
  read_opened handle max_bytes parent_path final_name (failed e, r) =
      (some (set_read_failure (root_failure e)), r)
  read_opened handle max_bytes parent_path final_name (exhausted, r) = (none, r)
  read_opened handle max_bytes parent_path final_name (done ids, r) =
      if same_roots handle ids
      then finish_read (read_below answers handle max_bytes parent_path final_name r)
      else (
        some (set_read_failure (failure "root_changed" "compare_root_identity" estale)),
        (close_pair answers.closes.repository answers.closes.project_base r).1,
      )

  unfoldable pub read_split : Handle → ℕ → Option (List ℕ × List ℕ) → Run → Reading
  read_split handle max_bytes none r = (
    some (record fresh_read {
      class_name = some "contract";
      code = some "invalid_request";
      stage = some "validate_read_request";
      error_number = einval;
    }),
    r,
  )
  read_split handle max_bytes (some (parent_path, final_name)) r =
      read_opened handle max_bytes parent_path final_name
        (open_identity_pair handle answers.roots r)

  unfoldable pub read_file_transaction : Handle → List ℕ → ℕ → Reading
  read_file_transaction handle relative_path max_bytes =
      read_split handle max_bytes (split_target_path relative_path 1025 256)
        (record { descriptors = none_open; events = [] })
