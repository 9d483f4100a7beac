-- ===== src/Repository/Create.antt =====
-- native/proc17_repository_fs.c: the transaction that creates a file. It writes a temporary file in
-- the parent directory and then renames it, unless the name is taken. The hooks before and after the
-- rename, which do nothing outside the tests, are answers like those of the system.
pub mod Stages
pub mod Publication
use Prim.Native.String.{String}
use proc.Base.{
  ℕ, zero, suc, ◌+◌, ◌-◌, ◌*◌, ◌/◌, ◌%◌, ◌^◌, Bool, true, false, not, ◌&&◌, ◌||◌, ◌==◌, ◌!=◌, leb,
  ltb, if◌then◌else◌, Option, none, some, List, [], ◌∷◌, ◌++◌, length, take, drop, bit_and,
}
use proc.Memory.{Buffer, to_list}
use proc.Repository.Calls.{
  Answer, ok, error, eperm, eintr, eio, einval, estale, Descriptor, project_base, repository,
  parent, temporary, none_open, held, set, Event, opened, created, mode_set, wrote, synced, closed,
  renamed, unlinked, Run, Outcome, done, failed, exhausted, Action, pure, raise, ◌>>=◌, ◌>>◌,
  ensure, attempt, take_effect, perform, hold, close_once,
}
use proc.Repository.Failures.{
  Failure, failure, coded, elapsed_milliseconds, monotonic_milliseconds, lua_maxinteger,
}
use proc.Repository.Errors.{
  parent_error_code, mutation_error_code, random_error_code, rename_error_code, root_error_code,
  temp_error_code,
}
use proc.Repository.Identity.{
  Identity, Stat, Handle, Roots, is_directory, is_regular, identity_equal, resolve_beneath,
  open_identity_pair, close_pair,
}
use proc.Repository.Paths.{split_target_path}

abbrev pub random_bytes : ℕ
random_bytes = 16

abbrev pub max_write_eintr_retries : ℕ
max_write_eintr_retries = 64

-- .proc17-tmp-
abbrev pub temp_prefix : List ℕ
temp_prefix = b'.' ∷ b'p' ∷ b'r' ∷ b'o' ∷ b'c' ∷ b'1' ∷ b'7' ∷ b'-' ∷ b't' ∷ b'm' ∷ b'p' ∷ b'-' ∷ []

abbrev pub hex_digit : ℕ → ℕ
hex_digit n = if ltb n 10 then b'0' + n else b'a' + (n - 10)

abbrev pub hex_bytes : List ℕ → List ℕ
hex_bytes [] = []
hex_bytes (byte ∷ bytes) = hex_digit (byte / 16) ∷ hex_digit (byte % 16) ∷ hex_bytes bytes

-- From the random_bytes cells of the buffer.
abbrev pub temp_name : Buffer → List ℕ
temp_name random_value = temp_prefix ++ hex_bytes (to_list random_bytes random_value)

-- struct proc17_create_result
pub record CreateResult : Type 0 where
  pub succeeded : ℕ
  pub class_name : Option String
  pub code : Option String
  pub stage : Option String
  pub error_number : ℕ
  pub mutation_primitive_entered : ℕ
  pub published : ℕ
  pub has_temp_residue : ℕ
  pub bytes : ℕ
  pub time_ms : ℕ
  pub root_identity : Identity
  pub temp_name : List ℕ

-- The result behind memset.
abbrev pub fresh_result : CreateResult
fresh_result = record {
  succeeded = 0;
  class_name = none;
  code = none;
  stage = none;
  error_number = 0;
  mutation_primitive_entered = 0;
  published = 0;
  has_temp_residue = 0;
  bytes = 0;
  time_ms = 0;
  root_identity = record { device = 0; inode = 0; mount_id = 0 };
  temp_name = [];
}

-- What the system answers to the transaction, with the number of the write.
pub record Answers : Type 0 where
  pub started : Option (ℕ × ℕ)
  pub finished : Option (ℕ × ℕ)
  pub roots : Roots
  pub parent : Answer (Unit {0})
  pub parent_status : Answer Stat
  pub euid : ℕ
  pub random : Answer ℕ
  pub random_value : Buffer
  pub temp : Answer (Unit {0})
  pub mode : Answer (Unit {0})
  pub temp_status : Answer Stat
  pub write : ℕ → Answer ℕ
  pub sync_temp : Answer (Unit {0})
  pub close_temp : Answer (Unit {0})
  pub before_publish : Answer (Unit {0})
  pub rename : Answer (Unit {0})
  pub after_publish : Answer (Unit {0})
  pub sync_parent : Answer (Unit {0})
  pub close_parent : Answer (Unit {0})
  pub close_repository : Answer (Unit {0})
  pub close_project : Answer (Unit {0})
  pub unlink : Answer (Unit {0})

unfoldable pub set_create_failure :
    CreateResult → String → String → String → ℕ → ℕ → ℕ → ℕ → CreateResult
set_create_failure result class_name code stage error_number entered published time =
    record result {
      succeeded = 0;
      class_name = some class_name;
      code = some code;
      stage = some stage;
      error_number = error_number;
      mutation_primitive_entered = entered;
      published = published;
      time_ms = time;
    }

-- A directory of the user that nobody else may write.
unfoldable pub parent_private : ℕ → Stat → Bool
parent_private euid status =
    not (not (is_directory status.mode) || status.uid != euid || bit_and status.mode 0o022 != 0)

unfoldable pub temp_private : ℕ → ℕ → Stat → Bool
temp_private euid file_mode status = not (
    not (is_regular status.mode)
    || status.uid != euid
    || status.nlink != 1
    || status.size != 0
    || status.mode % 512 != file_mode)

-- One write: it is made again, or the loop goes on behind the bytes that were written.
unfoldable pub write_turn :
    Answer ℕ
    → ℕ
    → List ℕ
    → Action Failure (Unit {0})
    → (ℕ → Action Failure (Unit {0}))
    → Action Failure (Unit {0})
write_turn (error e) retries content again next r =
    if e == eintr
    then if ltb max_write_eintr_retries (retries + 1)
      then (failed (failure "io_failure" "write_temp" eintr), r)
      else again r
    else (failed (coded mutation_error_code "write_temp" e), r)
write_turn (ok written) retries content again next r =
    if written == 0 || ltb (length content) written
    then (failed (failure "io_failure" "write_temp" eio), r)
    else next written (record r { events = wrote (take written content) ∷ r.events })

abbrev pub Created : Type 0
Created = Option CreateResult × Run

-- A part of the transaction, with the label that its failures go to and the part behind it.
unfoldable pub then_or :
    Outcome Failure (Unit {0}) × Run → (Failure → Run → Created) → (Run → Created) → Created
then_or (done _, r) label next = next r
then_or (failed f, r) label next = label f r
then_or (exhausted, r) label next = (none, r)

module _ (answers : Answers) where
  -- From the opened roots up to the random bytes.
  unfoldable pub before_temp : List ℕ → Action Failure (Unit {0})
  before_temp parent_path = do
    attempt answers.parent (coded parent_error_code "open_parent")
    hold parent (opened parent parent_path resolve_beneath)
    status ← attempt answers.parent_status (failure "io_failure" "observe_parent_policy")
    ensure (parent_private answers.euid status)
        (failure "parent_not_private" "observe_parent_policy" eperm)
    count ←
        attempt answers.random
          (λ e. coded random_error_code "getrandom" (if e != 0 then e else eio))
    ensure (count == random_bytes) (coded random_error_code "getrandom" eio)
    pure tt

  unfoldable pub open_temp : ℕ → Action Failure (Unit {0})
  open_temp file_mode = do
    attempt answers.temp (coded temp_error_code "open_temp")
    hold temporary (created (temp_name answers.random_value) file_mode)
    pure tt

  -- while (offset < content_length), for at most `turns` turns, with the content that is left
  unfoldable pub write_loop : ℕ → ℕ → ℕ → List ℕ → Action Failure (Unit {0})
  write_loop turns turn retries [] r = (done tt, r)
  write_loop zero turn retries (b ∷ content) r = (exhausted, r)
  write_loop (suc turns) turn retries (b ∷ content) r =
      write_turn (answers.write turn) retries (b ∷ content)
        (write_loop turns (turn + 1) (retries + 1) (b ∷ content))
        (λ written. write_loop turns (turn + 1) retries (drop written (b ∷ content))) r

  -- From the mode of the temporary file up to the rename.
  unfoldable pub write_and_rename : ℕ → List ℕ → List ℕ → Action Failure (Unit {0})
  write_and_rename file_mode content final_name = do
    perform answers.mode (mode_set file_mode) (coded mutation_error_code "set_temp_mode")
    status ← attempt answers.temp_status (failure "io_failure" "observe_temp_identity")
    ensure (temp_private answers.euid file_mode status)
        (failure "temp_identity_invalid" "observe_temp_identity" eio)
    write_loop (length content + max_write_eintr_retries + 1) 0 0 content
    perform answers.sync_temp (synced temporary) (coded mutation_error_code "fsync_temp")
    close_once temporary
    attempt answers.close_temp (coded mutation_error_code "close_temp")
    attempt answers.before_publish (coded mutation_error_code "before_rename")
    perform answers.rename (renamed (temp_name answers.random_value) final_name)
        (coded rename_error_code "rename_noreplace")
    pure tt

  -- From the rename up to the close of the parent.
  unfoldable pub settle : Action Failure (Unit {0})
  settle = do
    attempt answers.after_publish (failure "ambiguous_effect" "after_rename")
    perform answers.sync_parent (synced parent) (failure "ambiguous_effect" "fsync_parent")
    close_once parent
    attempt answers.close_parent (failure "ambiguous_effect" "close_transaction_descriptors")
    pure tt

  -- The time that set_create_failure and the success read.
  abbrev elapsed : ℕ
  elapsed = elapsed_milliseconds (monotonic_milliseconds answers.started) answers.finished

  -- if (parent_fd >= 0) close_once(&parent_fd); close_pair(...)
  abbrev pub close_all : Run → Run
  close_all r =
      (close_pair answers.close_repository answers.close_project
        (close_once {E = Unit {0}} parent r).1).1

  abbrev pub give_up : CreateResult → String → Failure → ℕ → ℕ → Run → Created
  give_up result class_name f entered published r = (
    some (
        set_create_failure result class_name f.code f.stage f.error_number entered published
          elapsed),
    r,
  )

  -- The result once the temporary name is chosen.
  abbrev pub named : CreateResult
  named = record fresh_result {
    mutation_primitive_entered = 1;
    temp_name = temp_name answers.random_value;
  }

  abbrev pub fail_before_temp : Failure → Run → Created
  fail_before_temp f r = give_up fresh_result "world" f 0 0 (close_all r)

  abbrev pub fail_after_temp_attempt : Failure → Run → Created
  fail_after_temp_attempt f r = give_up named "world" f 1 0 (close_all r)

  unfoldable pub remove_temp : Failure → Answer (Unit {0}) → Run → Created
  remove_temp f (ok _) r =
      fail_after_temp_attempt f
        (record r { events = unlinked (temp_name answers.random_value) ∷ r.events })
  remove_temp f (error e) r =
      give_up (record named { has_temp_residue = 1 }) "ambiguous"
        (failure "temp_cleanup_failed" "cleanup_unlink" e) 1 0 (close_all r)

  abbrev pub fail_private : Failure → Run → Created
  fail_private f r = remove_temp f answers.unlink (close_once {E = Unit {0}} temporary r).1

  abbrev pub fail_published : Failure → Run → Created
  fail_published f r = give_up (record named { published = 1 }) "ambiguous" f 1 1 (close_all r)

  -- The success, unless a directory cannot be closed.
  unfoldable pub succeed : Identity → List ℕ → ℕ × Run → Created
  succeed root content (e, r) =
      if e != 0
      then give_up (record named { published = 1 }) "ambiguous"
          (failure "ambiguous_effect" "close_transaction_descriptors" e) 1 1 r
      else (
        some (record fresh_result {
          succeeded = 1;
          bytes = length content;
          root_identity = root;
          mutation_primitive_entered = 1;
          published = 1;
          time_ms = elapsed;
        }),
        r,
      )

  -- The transaction below the roots.
  unfoldable pub create_below : Identity → List ℕ → List ℕ → List ℕ → ℕ → Run → Created
  create_below root parent_path final_name content file_mode r =
      then_or (before_temp parent_path r) fail_before_temp λ r.
        then_or (open_temp file_mode r) fail_after_temp_attempt λ r.
          then_or (write_and_rename file_mode content final_name r) fail_private λ r.
            then_or (settle r) fail_published λ r.
              succeed root content (close_pair answers.close_repository answers.close_project r)

  unfoldable pub compare_roots :
      Handle
      → List ℕ
      → List ℕ
      → List ℕ
      → ℕ
      → Outcome (String × ℕ) (Identity × Identity) × Run
      → Created
  compare_roots handle parent_path final_name content file_mode (failed (stage, e), r) =
      give_up fresh_result "world" (coded root_error_code stage e) 0 0 r
  compare_roots handle parent_path final_name content file_mode (exhausted, r) = (none, r)
  compare_roots handle parent_path final_name content file_mode (done (project, root), r) =
      if identity_equal handle.project project && identity_equal handle.repository root
      then create_below root parent_path final_name content file_mode r
      else give_up fresh_result "world" (failure "root_changed" "compare_root_identity" estale) 0 0
          (close_pair answers.close_repository answers.close_project r).1

  unfoldable pub create_split : Handle → Option (List ℕ × List ℕ) → List ℕ → ℕ → Run → Created
  create_split handle none content file_mode r =
      give_up fresh_result "contract" (failure "invalid_request" "validate_create_request" einval) 0
        0 r
  create_split handle (some (parent_path, final_name)) content file_mode r =
      compare_roots handle parent_path final_name content file_mode
        (open_identity_pair handle answers.roots r)

  unfoldable pub create_file_transaction : Handle → List ℕ → List ℕ → ℕ → Created
  create_file_transaction handle relative_path content file_mode =
      create_split handle (split_target_path relative_path 1025 256) content file_mode
        (record { descriptors = none_open; events = [] })
