-- ===== src/Repository/Create/Stages.antt =====
-- native/proc17_repository_fs.c: what each part of the transaction leaves open and in the directory.

use mathlib.Core.Path.{subst}
use proc.Base.{
  ℕ, zero, suc, ◌+◌, ◌<◌, ◌≤◌, Bool, true, false, ◌||◌, ◌==◌, ltb, List, [], ◌∷◌, ◌++◌, length,
  take, drop, length-drop, take-append-drop, append_assoc, append-nil, ◌≡◌, refl, sym, ap, ◌∙◌, ◌⊎◌,
  inl, inr, arith,
}
use proc.Repository.Calls.{
  Answer, ok, error, eintr, parent, temporary, opened, created, mode_set, wrote, synced, renamed,
  Run, Action,
}
use proc.Repository.Failures.{Failure}
use proc.Repository.Create.{
  Answers, before_temp, open_temp, write_turn, write_loop, write_and_rename, settle, temp_name,
  max_write_eintr_retries,
}
use proc.Repository.Disk.{Entry, absent, private, sealed, published, step, list_eq-same, At}
use proc.Repository.Identity.{resolve_beneath}
use proc.Repository.Opening.{roots_and}
use proc.Repository.Rules.{
  Ends, Ends-bind, Ends-attempt, Ends-ensure, Ends-perform, Ends-if, Ends-failed, Ends-pure,
  Ends-hold, Ends-close_once, At-perform, At-hold, At-close_once,
}

-- The temporary file has its name, whatever was written.
abbrev pub Temporary : List ℕ → Entry → Type 0
Temporary name e = (content : List ℕ) × ((e ≡ private name content) ⊎ (e ≡ sealed name content))

-- A failure before the temporary file: the parent may be open.
abbrev pub Before : Failure → Run → Type 0
Before f r = (p : Bool) × At (roots_and p false) absent r

abbrev pub Untouched : Failure → Run → Type 0
Untouched f r = At (roots_and true false) absent r

-- A failure of the temporary file, which may be open.
abbrev pub Private : List ℕ → Failure → Run → Type 0
Private name f r = (t : Bool) × (e : Entry) × Temporary name e × At (roots_and true t) e r

-- A failure behind the rename: the parent may be open.
abbrev pub Renamed : List ℕ → List ℕ → Failure → Run → Type 0
Renamed name content f r =
    (p durable : Bool) × At (roots_and p false) (published name content durable) r

written_on :
    (name written bytes : List ℕ) (r : Run)
    → At (roots_and true true) (private name written) r
    → At
        (roots_and true true)
        (private name (written ++ bytes))
        (record r { events = wrote bytes ∷ r.events })
unfolding step
written_on name written bytes r h =
    At-perform (roots_and true true) (private name written) r h (private name (written ++ bytes))
      (wrote bytes) refl

module _ (name written content : List ℕ) where
  write_turn-Ends :
      (J : Unit {0} → Run → Type 0) (answer : Answer ℕ) (retries : ℕ)
      (again : Action Failure (Unit {0})) (next : ℕ → Action Failure (Unit {0})) (r : Run)
      → At (roots_and true true) (private name written) r
      → (retries + 1 ≤ max_write_eintr_retries → Ends J (Private name) (again r))
      → ((n : ℕ)
          → 0 < n
          → At
              (roots_and true true)
              (private name (written ++ take n content))
              (record r { events = wrote (take n content) ∷ r.events })
          → Ends J
              (Private name)
              (next n (record r { events = wrote (take n content) ∷ r.events })))
      → Ends J (Private name) (write_turn answer retries content again next r)
  unfolding write_turn
  write_turn-Ends J (error e) retries again next r h repeated going =
      let lost : (t : Bool) × (e : Entry) × Temporary name e × At (roots_and true t) e r =
        (true, private name written, (written, inl refl), h) in
      Ends-if _ _ (e == eintr) _ _
        (λ _.
          Ends-if _ _ (ltb max_write_eintr_retries (retries + 1)) _ _
            (λ _. Ends-failed _ _ _ r lost) λ few. repeated (ground (arith, few)))
        λ _. Ends-failed _ _ _ r lost
  write_turn-Ends J (ok n) retries again next r h repeated going =
      Ends-if _ _ (n == 0 || ltb (length content) n) _ _
        (λ _. Ends-failed _ _ _ r (true, private name written, (written, inl refl), h))
        λ right. going n (ground (arith, right)) (written_on name written (take n content) r h)

module _ (answers : Answers) where
  pub before_temp-Ends :
      (parent_path : List ℕ) (r : Run)
      → At (roots_and false false) absent r
      → Ends (λ _. At (roots_and true false) absent) Before (before_temp answers parent_path r)
  unfolding before_temp step
  before_temp-Ends parent_path r h =
      Ends-attempt _ _ _ _ _ _ (λ _. (false, h))
        λ _.
          let h' =
            At-hold (roots_and false false) absent r h absent parent
              (opened parent parent_path resolve_beneath) refl in
          Ends-hold _ _ _ _ _ _ (
            Ends-attempt _ _ _ _ _ _ (λ _. (true, h'))
              λ status.
                Ends-ensure _ _ _ _ _ _ (true, h')
                  λ _.
                    Ends-attempt _ _ _ _ _ _ (λ _. (true, h'))
                      λ count. Ends-ensure _ _ _ _ _ _ (true, h') λ _. Ends-pure _ _ _ _ h')

  pub open_temp-Ends :
      (file_mode : ℕ) (r : Run)
      → At (roots_and true false) absent r
      → Ends
          (λ _. At (roots_and true true) (private (temp_name answers.random_value) []))
          Untouched
          (open_temp answers file_mode r)
  unfolding open_temp step
  open_temp-Ends file_mode r h =
      Ends-attempt _ _ _ _ _ _ (λ _. h)
        λ _. Ends-hold _ _ _ _ _ _ (
          Ends-pure _ _ _ _ (
            At-hold (roots_and true false) absent r h (private (temp_name answers.random_value) [])
              temporary (created (temp_name answers.random_value) file_mode) refl))

  -- The turns are enough: each takes a byte or counts an interruption, of which there are 64.
  write_loop-Ends :
      (name written : List ℕ) (turns turn retries : ℕ) (content : List ℕ) (r : Run)
      → length content + max_write_eintr_retries + 1 ≤ turns + retries
      → retries ≤ max_write_eintr_retries
      → At (roots_and true true) (private name written) r
      → Ends
          (λ _. At (roots_and true true) (private name (written ++ content)))
          (Private name)
          (write_loop answers turns turn retries content r)
  unfolding write_loop Ends
  write_loop-Ends name written turns turn retries [] r enough few h =
      subst (λ w. At (roots_and true true) (private name w) r) (sym (append-nil written)) h
  write_loop-Ends name written zero turn retries (b ∷ content) r enough few h = absurd (omega arith)
  write_loop-Ends name written (suc turns) turn retries (b ∷ content) r enough few h =
      write_turn-Ends name written (b ∷ content) _ (answers.write turn) retries _ _ r h
        (λ fewer.
          write_loop-Ends name written turns (turn + 1) (retries + 1) (b ∷ content) r (omega arith)
            fewer h)
        λ n some_bytes h'.
          let all =
            append_assoc written (take n (b ∷ content)) (drop n (b ∷ content))
            ∙ ap (◌++◌ written) (take-append-drop n (b ∷ content)) in
          subst
            (λ w.
              Ends (λ _. At (roots_and true true) (private name w)) (Private name)
                (write_loop answers turns (turn + 1) retries (drop n (b ∷ content))
                  (record r { events = wrote (take n (b ∷ content)) ∷ r.events })))
            all
            (write_loop-Ends name (written ++ take n (b ∷ content)) turns (turn + 1) retries
              (drop n (b ∷ content)) _ (omega (arith, some_bytes, length-drop n (b ∷ content))) few
              h')

  pub write_and_rename-Ends :
      (file_mode : ℕ) (content final_name : List ℕ) (r : Run)
      → At (roots_and true true) (private (temp_name answers.random_value) []) r
      → Ends
          (λ _. At (roots_and true false) (published final_name content false))
          (Private (temp_name answers.random_value))
          (write_and_rename answers file_mode content final_name r)
  unfolding write_and_rename step
  write_and_rename-Ends file_mode content final_name r h =
      let name = temp_name answers.random_value in
      let open_file = roots_and true true in
      let fresh : Temporary name (private name []) = ([], inl refl) in
      let full : Temporary name (sealed name content) = (content, inr refl) in
      Ends-perform _ _ _ _ _ _ _ (λ _. (true, private name [], fresh, h))
        (let h1 =
            At-perform open_file (private name []) r h (private name []) (mode_set file_mode)
              refl in
          Ends-attempt _ _ _ _ _ _ (λ _. (true, private name [], fresh, h1))
            λ status.
              Ends-ensure _ _ _ _ _ _ (true, private name [], fresh, h1)
                λ _.
                  Ends-bind _ _ _ _ _ _
                    (write_loop-Ends name [] _ 0 0 content _ (omega arith) (omega arith) h1)
                    λ _ r2 h2.
                      Ends-perform _ _ _ _ _ _ _
                        (λ _. (true, private name content, (content, inl refl), h2))
                        (let h3 =
                            At-perform open_file (private name content) r2 h2 (sealed name content)
                              (synced temporary) refl in
                          let h4 =
                            At-close_once open_file (sealed name content) _ h3 Failure temporary in
                          Ends-close_once _ _ _ _ _ (
                            Ends-attempt _ _ _ _ _ _ (λ _. (false, sealed name content, full, h4))
                              λ _.
                                Ends-attempt _ _ _ _ _ _
                                  (λ _. (false, sealed name content, full, h4))
                                  λ _.
                                    Ends-perform _ _ _ _ _ _ _
                                      (λ _. (false, sealed name content, full, h4))
                                      (Ends-pure _ _ _ _ (
                                        At-perform (roots_and true false) (sealed name content) _ h4
                                          (published final_name content false)
                                          (renamed name final_name) (rw list_eq-same refl))))))

  pub settle-Ends :
      (content final_name : List ℕ) (r : Run)
      → At (roots_and true false) (published final_name content false) r
      → Ends
          (λ _. At (roots_and false false) (published final_name content true))
          (Renamed final_name content)
          (settle answers r)
  unfolding settle step
  settle-Ends content final_name r h =
      Ends-attempt _ _ _ _ _ _ (λ _. (true, false, h))
        λ _.
          Ends-perform _ _ _ _ _ _ _ (λ _. (true, false, h))
            (let h1 =
                At-perform (roots_and true false) (published final_name content false) r h
                  (published final_name content true) (synced parent) refl in
              let h2 =
                At-close_once (roots_and true false) (published final_name content true) _ h1
                  Failure parent in
              Ends-close_once _ _ _ _ _
                (Ends-attempt _ _ _ _ _ _ (λ _. (false, true, h2)) λ _. Ends-pure _ _ _ _ h2))
