-- ===== src/Repository/Read/Snapshot.antt =====
-- native/proc17_repository_fs.c: what the result of a read says of the file.
use Prim.Native.String.{String}
use proc.Base.{
  ℕ, true, false, Option, none, some, List, take, ◌≡◌, refl, ap, ◌⊎◌, inl, inr, Bool-cases,
}
use proc.Repository.Calls.{
  ok, error, enoent, none_open, project_base, repository, Run, Outcome, done, failed, exhausted,
}
use proc.Repository.Failures.{Failure}
use proc.Repository.Opening.{roots_and, none_or, Rooted, Shut, open_identity_pair-Ends}
use proc.Repository.Disk.{absent, replay, At}
use proc.Repository.Identity.{
  Identity, Stat, Handle, is_regular, identity_equal, close_pair, close_checked,
}
use proc.Repository.Observe.{
  same_file_identity, same_file_version, Target, missing, regular, other, same_roots,
}
use proc.Repository.Read.{
  Answers, ReadResult, Reading, kind_of, content_bytes, read_target, read_below, set_read_failure,
  finish_read, read_opened, read_split, read_file_transaction,
}
use proc.Repository.Observe.Stages.{
  Quiet, Lost, Closed, Confirmed, close_read-Ends, close_read_descriptors-Closed,
  reobserve_named_target-Ends,
}
use proc.Repository.Read.Stages.{Delivers, Classified, classify-Ends, read_regular-Ends}
use proc.Repository.Rules.{Ends, Ends-bind, Ends-pure, At-close_once}

module _ (answers : Answers) (file : List ℕ) (handle : Handle) (max_bytes : ℕ) where
  -- What was read of a target, and what the looks at it have shown: a regular file is the one that
  -- was classified and has one version before the reads and after them.
  abbrev pub Found : Target → Option (List ℕ) → Type 0
  Found missing content = (content ≡ none) × (answers.target ≡ error enoent)
  Found (other seen) content = (content ≡ none) × (answers.status ≡ ok seen)
  Found (regular seen) content =
      (first before : Stat) × (answers.status ≡ ok first)
      × (answers.before_status ≡ ok before)
      × (is_regular before.mode ≡ true)
      × (same_file_identity first before ≡ true)
      × (answers.after_status ≡ ok seen)
      × (same_file_version before seen ≡ true)
      × (content ≡ some (take max_bytes file))

  -- A success: the target, which the second look confirms, and the root as the handle knows it.
  abbrev pub Seen : ReadResult → Type 0
  Seen result =
      (result.succeeded ≡ 1)
      × (seen : Target) × (result.target_kind ≡ kind_of seen)
      × Found seen result.content
      × (result.bytes ≡ content_bytes result.content)
      × Confirmed answers.again seen
      × (identity_equal handle.repository result.root_identity ≡ true)

  abbrev pub Refused : ReadResult → Type 0
  Refused result = (result.succeeded ≡ 0) × (result.content ≡ none)

  -- There is a result, the calls were allowed and have created nothing, and no descriptor is open.
  abbrev pub Answered : Reading → Type 0
  Answered reading =
      (result : ReadResult) × (r : Run) × (reading ≡ (some result, r))
      × At none_open absent r
      × (Seen result ⊎ Refused result)

  module _ (delivers : Delivers answers file) where
    read_target-Ends :
        (final_name : List ℕ) (found : Target) (r : Run)
        → Classified answers found r
        → Ends
            (λ seen r. Quiet r × Found seen.0 seen.1)
            Lost
            (read_target answers max_bytes final_name found r)
    unfolding read_target
    read_target-Ends final_name missing r (quiet, eq) = Ends-pure _ _ _ _ (quiet, (refl, eq))
    read_target-Ends final_name (other status) r (quiet, eq) = Ends-pure _ _ _ _ (quiet, (refl, eq))
    read_target-Ends final_name (regular status) r (h, eq) =
        Ends-bind _ _ _ _ _ _
          (read_regular-Ends answers file max_bytes delivers final_name status r h)
          λ found r1 (quiet, (before, eq_before, is_file, same_one, after, stable, prefix)).
            Ends-pure _ _ _ _ (
              quiet,
              (status, before, eq, eq_before, is_file, same_one, after, stable, ap some prefix),
            )

    read_below-Ends :
        (parent_path final_name : List ℕ) (r : Run)
        → At (roots_and false false) absent r
        → Ends
            (λ read r.
              Closed r
              × Found read.0 read.1
              × Confirmed answers.again read.0
              × (identity_equal handle.repository read.2 ≡ true))
            Lost
            (read_below answers handle max_bytes parent_path final_name r)
    unfolding read_below
    read_below-Ends parent_path final_name r h =
        Ends-bind _ _ _ _ _ _ (classify-Ends answers parent_path final_name r h) λ found r1 shown.
          Ends-bind _ _ _ _ _ _ (read_target-Ends final_name found r1 shown) λ seen r2 (quiet, got).
            Ends-bind _ _ _ _ _ _ (close_read-Ends answers.closes r2 quiet) λ _ r3 closed.
              Ends-bind _ _ _ _ _ _
                (reobserve_named_target-Ends handle parent_path final_name answers.again seen.0 r3
                  closed)
                λ root r4 (closed', (confirmed, same)).
                  Ends-pure _ _ _ _ (closed', got, confirmed, same)

    finish_read-Answered :
        (reading : Outcome Failure (Target × Option (List ℕ) × Identity) × Run)
        → Ends
            (λ read r.
              Closed r
              × Found read.0 read.1
              × Confirmed answers.again read.0
              × (identity_equal handle.repository read.2 ≡ true))
            Lost
            reading
        → Answered (finish_read answers reading)
    unfolding finish_read set_read_failure Ends
    finish_read-Answered (done (seen, content, root), r) (closed, got, confirmed, same) =
        (_, r, refl, closed, inl (refl, seen, refl, got, refl, confirmed, same))
    finish_read-Answered (failed f, r) quiet =
        (_, _, refl, close_read_descriptors-Closed answers.closes r quiet, inr (refl, refl))
    finish_read-Answered (exhausted, r) h = absurd h

    read_opened-Answered :
        (parent_path final_name : List ℕ)
        (opening : Outcome (String × ℕ) (Identity × Identity) × Run)
        → Ends Rooted Shut opening
        → Answered (read_opened answers handle max_bytes parent_path final_name opening)
    unfolding read_opened set_read_failure Ends close_pair close_checked
    read_opened-Answered parent_path final_name (failed e, r) h = (_, r, refl, h, inr (refl, refl))
    read_opened-Answered parent_path final_name (exhausted, r) h = absurd h
    read_opened-Answered parent_path final_name (done ids, r) h =
        elim (Bool-cases (same_roots handle ids)) [
          | inl same ↦ rw same (finish_read-Answered _ (read_below-Ends parent_path final_name r h))
          | inr differ ↦
              let h' =
                At-close_once (none_or true) absent _
                  (At-close_once (roots_and false false) absent r h (Unit {0}) repository)
                  (Unit {0}) project_base in
              rw differ (_, _, refl, h', inr (refl, refl))
        ]

    read_split-Answered :
        (split : Option (List ℕ × List ℕ)) (r : Run)
        → At none_open absent r
        → Answered (read_split answers handle max_bytes split r)
    unfolding read_split
    read_split-Answered none r h = (_, r, refl, h, inr (refl, refl))
    read_split-Answered (some (parent_path, final_name)) r h =
        read_opened-Answered parent_path final_name _
          (open_identity_pair-Ends handle answers.roots r h)

-- Where the reads of a regular file give the bytes of one file, and none only at its end, provided
-- that the file has the same version before them and after them, the transaction gives a result, has
-- created nothing and has closed every descriptor, whatever else the system answers. A success names
-- a target that the second look confirms, unchanged, in the root of the handle. A regular one is the
-- file that was classified, its version was the same before the reads and after them, and the
-- content is that file, cut at the limit. Any other result has no content.
pub read_file_transaction-Answered :
    (answers : Answers) (file : List ℕ) (handle : Handle) (path : List ℕ) (max_bytes : ℕ)
    → Delivers answers file
    → Answered answers file handle max_bytes (read_file_transaction answers handle path max_bytes)
unfolding read_file_transaction replay
read_file_transaction-Answered answers file handle path max_bytes delivers =
    read_split-Answered answers file handle max_bytes delivers _ _
      (record { descriptors = refl; allowed = refl })
