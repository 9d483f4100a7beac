-- ===== src/Repository/Read/Stages.antt =====
-- native/proc17_repository_fs.c: what each part of the read leaves open, and what it has found out.
use proc.Base.{
  ℕ, zero, suc, ◌+◌, ◌-◌, ◌<◌, ◌≤◌, min, Bool, true, false, ◌==◌, ltb, if◌then◌else◌, List, [], ◌∷◌,
  ◌++◌, length, take, drop, length-take, take_all, length-append, &&_iff, ◌≡◌, refl, sym, ap, ◌∙◌,
  arith, ==→eq,
}
use proc.Repository.Calls.{
  Answer, ok, error, enoent, eintr, parent, target, reading, set, opened, Run, Action,
}
use proc.Repository.Failures.{Failure}
use proc.Repository.Opening.{roots_and}
use proc.Repository.Disk.{absent, step, At}
use proc.Repository.Identity.{Stat, is_regular, resolve_beneath}
use proc.Repository.Observe.{
  same_file_identity, same_file_version, resolve_target, Target, missing, regular, other,
}
use proc.Repository.Read.{
  Answers, classify, classify_opened, classify_held, read_turn, read_loop, read_regular,
  max_read_eintr_retries,
}
use proc.Repository.Rules.{
  Ends, Ends-bind, Ends-attempt, Ends-attempt_eq, Ends-ensure, Ends-if, Ends-done, Ends-failed,
  Ends-pure, Ends-hold, At-hold,
}
use proc.Repository.Observe.Stages.{Quiet, Lost, reading_fds}

take_nil : (n : ℕ) → take {A = ℕ} n [] ≡ []
take_nil zero = refl
take_nil (suc n) = refl

take-take-drop : (k n : ℕ) (xs : List ℕ) → take k xs ++ take n (drop k xs) ≡ take (k + n) xs
take-take-drop zero n xs = ap (λ k. take k xs) (omega arith)
take-take-drop (suc k) n [] = take_nil n ∙ sym (take_nil (suc k + n))
take-take-drop (suc k) n (x ∷ xs) =
    let one_more : suc (k + n) ≡ suc k + n = omega arith in
    ap (◌∷◌ x) (take-take-drop k n xs) ∙ ap (λ k. take k (x ∷ xs)) one_more

nil_of_length : (xs : List ℕ) → length xs ≡ 0 → xs ≡ []
nil_of_length [] h = refl
nil_of_length (x ∷ xs) h = absurd (omega (arith, h))

module _ (J : List ℕ → Run → Type 0) where
  read_turn-Ends :
      (answer : Answer (List ℕ)) (retries left : ℕ) (content : List ℕ)
      (again : Action Failure (List ℕ)) (next : List ℕ → Action Failure (List ℕ)) (r : Run)
      → Quiet r
      → (retries + 1 ≤ max_read_eintr_retries → Ends J Lost (again r))
      → (answer ≡ ok [] → J content r)
      → ((bytes : List ℕ)
          → 0 < length bytes
          → length bytes ≤ left
          → answer ≡ ok bytes
          → Ends J Lost (next bytes r))
      → Ends J Lost (read_turn answer retries left content again next r)
  unfolding read_turn
  read_turn-Ends (error e) retries left content again next r quiet repeated ended going =
      Ends-if _ _ (e == eintr) _ _
        (λ _.
          Ends-if _ _ (ltb max_read_eintr_retries (retries + 1)) _ _
            (λ _. Ends-failed _ _ _ r quiet) λ few. repeated (ground (arith, few)))
        λ _. Ends-failed _ _ _ r quiet
  read_turn-Ends (ok bytes) retries left content again next r quiet repeated ended going =
      Ends-if _ _ (length bytes == 0) _ _
        (λ none_left.
          let empty = nil_of_length bytes (==→eq (length bytes) 0 none_left) in
          Ends-done _ _ _ _ (ended (ap ok empty)))
        λ some_bytes.
          Ends-if _ _ (ltb left (length bytes)) _ _ (λ _. Ends-failed _ _ _ r quiet)
            λ fits. going bytes (ground (arith, some_bytes)) (ground (arith, fits)) refl

-- The reads are of one file: they give its bytes, and none only at its end.
abbrev pub Reads : Answers → List ℕ → Type 0
Reads answers file =
    (turn offset : ℕ) (bytes : List ℕ)
    → offset ≤ length file
    → answers.read turn offset ≡ ok bytes
    → (bytes ≡ take (length bytes) (drop offset file)) × (bytes ≡ [] → length file ≤ offset)

-- What the system promises of a regular file whose version was the same before the reads and after
-- them: it has not changed in between, and the reads were of `file`.
abbrev pub Delivers : Answers → List ℕ → Type 0
Delivers answers file =
    (before after : Stat)
    → answers.before_status ≡ ok before
    → answers.after_status ≡ ok after
    → is_regular before.mode ≡ true
    → same_file_version before after ≡ true
    → Reads answers file

prefix_within :
    (content file : List ℕ) → content ≡ take (length content) file → length content ≤ length file
prefix_within content file prefix =
    let size : length content ≡ min (length content) (length file) =
      ap length prefix ∙ length-take (length content) file in
    omega (arith, size)

module _ (answers : Answers) (file : List ℕ) (reads : Reads answers file) (turn : ℕ)
    (content : List ℕ) (prefix : content ≡ take (length content) file) where
  longer_prefix :
      (bytes : List ℕ)
      → answers.read turn (length content) ≡ ok bytes
      → content ++ bytes ≡ take (length (content ++ bytes)) file
  longer_prefix bytes answer =
      let got = (reads turn (length content) bytes (prefix_within content file prefix) answer).0 in
      ap (λ c. c ++ bytes) prefix
      ∙ ap (◌++◌ (take (length content) file)) got
      ∙ take-take-drop (length content) (length bytes) file
      ∙ ap (λ k. take k file) (sym (length-append content bytes))

  whole_file :
      (max_bytes : ℕ)
      → length content ≤ max_bytes
      → answers.read turn (length content) ≡ ok []
      → content ≡ take max_bytes file
  whole_file max_bytes room ended =
      let all = (reads turn (length content) [] (prefix_within content file prefix) ended).1 refl in
      prefix ∙ take_all _ _ all ∙ sym (take_all max_bytes file (omega (arith, all, room)))

module _ (answers : Answers) (file : List ℕ) (max_bytes : ℕ) where
  Read : List ℕ → Run → Type 0
  Read content r =
      (Reads answers file → content ≡ take max_bytes file) × At (reading_fds true true) absent r

  -- The turns are enough: each takes a byte or counts an interruption, of which there are 64.
  read_loop-Ends :
      (turns turn retries left : ℕ) (content : List ℕ) (r : Run)
      → left + max_read_eintr_retries + 1 ≤ turns + retries
      → retries ≤ max_read_eintr_retries
      → length content + left ≡ max_bytes
      → (Reads answers file → content ≡ take (length content) file)
      → At (reading_fds true true) absent r
      → Ends Read Lost (read_loop answers turns turn retries left content r)
  unfolding read_loop Read
  read_loop-Ends turns turn retries zero content r enough few room prefix h =
      Ends-done _ _ _ _ (λ reads. prefix reads ∙ ap (λ k. take k file) (omega (arith, room)), h)
  read_loop-Ends zero turn retries (suc left) content r enough few room prefix h =
      absurd (omega arith)
  read_loop-Ends (suc turns) turn retries (suc left) content r enough few room prefix h =
      read_turn-Ends _ (answers.read turn (length content)) retries (suc left) content _ _ r
        (reading_fds true true, refl, h)
        (λ fewer.
          read_loop-Ends turns (turn + 1) (retries + 1) (suc left) content r (omega arith) fewer
            room prefix h)
        (λ ended. (
          λ reads.
              whole_file answers file reads turn content (prefix reads) max_bytes
                (omega (arith, room)) ended,
          h,
        ))
        λ bytes some_bytes fits answer.
          let size = length-append content bytes in
          read_loop-Ends turns (turn + 1) retries (suc left - length bytes) _ r
            (omega (arith, some_bytes)) few (omega (arith, size, room, fits))
            (λ reads. longer_prefix answers file reads turn content (prefix reads) bytes answer) h

  -- A regular file that was read: its descriptor is of the file that was classified, with one
  -- version before the reads and after them, and the content is the file, cut at the limit.
  abbrev pub Held : Stat → List ℕ × Stat → Type 0
  Held classified found =
      (before : Stat) × (answers.before_status ≡ ok before)
      × (is_regular before.mode ≡ true)
      × (same_file_identity classified before ≡ true)
      × (answers.after_status ≡ ok found.1)
      × (same_file_version before found.1 ≡ true)
      × (found.0 ≡ take max_bytes file)

  pub read_regular-Ends :
      Delivers answers file
      → (final_name : List ℕ) (classified : Stat) (r : Run) → At (reading_fds true false) absent r
      → Ends
          (λ found r. Quiet r × Held classified found)
          Lost
          (read_regular answers max_bytes final_name classified r)
  unfolding read_regular step Read
  read_regular-Ends delivers final_name classified r h =
      Ends-attempt _ _ _ _ _ r (λ _. (reading_fds true false, refl, h))
        λ _.
          let h1 =
            At-hold (reading_fds true false) absent r h absent reading
              (opened reading final_name resolve_beneath) refl in
          let lost : Quiet (record {
            descriptors = set reading true r.descriptors;
            events = opened reading final_name resolve_beneath ∷ r.events;
          }) =
            (reading_fds true true, refl, h1) in
          Ends-hold _ _ _ _ _ _ (
            Ends-attempt_eq _ _ _ _ _ _ (λ _. lost)
              λ before eq_before. Ends-ensure _ _ _ _ _ _ lost λ same_file.
                let (is_file, same_one) =
                  (&&_iff (is_regular before.mode) (same_file_identity classified before)).0
                    same_file in
                Ends-ensure _ _ _ _ _ _ lost λ _.
                  Ends-bind _ _ _ _ _ _
                    (read_loop-Ends _ 0 0 max_bytes [] _ (omega arith) (omega arith) (omega arith)
                      (λ _. refl) h1)
                    λ content r2 (prefix, h2).
                      let quiet : Quiet r2 = (reading_fds true true, refl, h2) in
                      Ends-attempt_eq _ _ _ _ _ _ (λ _. quiet)
                        λ after eq. Ends-ensure _ _ _ _ _ _ quiet λ stable.
                          let reads = delivers before after eq_before eq is_file stable in
                          Ends-pure _ _ _ _ (
                            quiet,
                            (before, eq_before, is_file, same_one, eq, stable, prefix reads),
                          ))

module _ (answers : Answers) where
  -- The first look, with what it has shown.
  abbrev pub Classified : Target → Run → Type 0
  Classified missing r = Quiet r × (answers.target ≡ error enoent)
  Classified (regular status) r =
      At (reading_fds true false) absent r × (answers.status ≡ ok status)
  Classified (other status) r = Quiet r × (answers.status ≡ ok status)

  classified :
      (is_file : Bool) (status : Stat) (r : Run)
      → At (reading_fds true false) absent r
      → answers.status ≡ ok status
      → Classified (if is_file then regular status else other status) r
  classified true status r h eq = (h, eq)
  classified false status r h eq = ((reading_fds true false, refl, h), eq)

  classify_held-Ends :
      (final_name : List ℕ) (r : Run)
      → At (roots_and true false) absent r
      → Ends Classified Lost (classify_held final_name answers.status r)
  unfolding classify_held step
  classify_held-Ends final_name r h =
      let h' =
        At-hold (roots_and true false) absent r h absent target
          (opened target final_name resolve_target) refl in
      Ends-hold _ _ _ _ _ _ (
        Ends-attempt_eq _ _ _ _ _ _ (λ _. (reading_fds true false, refl, h'))
          λ status eq. Ends-pure _ _ _ _ (classified (is_regular status.mode) status _ h' eq))

  classify_opened-Ends :
      (final_name : List ℕ) (answer : Answer (Unit {0})) (r : Run)
      → answers.target ≡ answer
      → At (roots_and true false) absent r
      → Ends Classified Lost (classify_opened final_name answer answers.status r)
  unfolding classify_opened
  classify_opened-Ends final_name (ok _) r eq h = classify_held-Ends final_name r h
  classify_opened-Ends final_name (error e) r eq h =
      Ends-if _ _ (e == enoent) _ _
        (λ same.
          Ends-done _ _ _ _ ((roots_and true false, refl, h), eq ∙ ap error (==→eq e enoent same)))
        λ _. Ends-failed _ _ _ _ (roots_and true false, refl, h)

  pub classify-Ends :
      (parent_path final_name : List ℕ) (r : Run)
      → At (roots_and false false) absent r
      → Ends Classified Lost (classify answers parent_path final_name r)
  unfolding classify step
  classify-Ends parent_path final_name r h =
      Ends-attempt _ _ _ _ _ _ (λ _. (roots_and false false, refl, h))
        λ _. Ends-hold _ _ _ _ _ _ (
          classify_opened-Ends final_name answers.target _ refl (
            At-hold (roots_and false false) absent r h absent parent
              (opened parent parent_path resolve_beneath) refl))
