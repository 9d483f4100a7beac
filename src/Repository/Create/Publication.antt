-- ===== src/Repository/Create/Publication.antt =====
-- native/proc17_repository_fs.c: what the result of the transaction says of the directory.
use Prim.Native.String.{String}
use mathlib.Core.Path.{subst}
use proc.Base.{
  ℕ, Bool, true, false, ◌&&◌, ◌!=◌, Option, none, some, List, length, ◌≡◌, refl, ap, ◌⊎◌, inl, inr,
  Bool-cases,
}
use proc.Repository.Calls.{
  Answer, ok, error, project_base, repository, parent, temporary, Descriptors, none_open, set,
  unlinked, Run, Outcome, done, failed, exhausted,
}
use proc.Repository.Failures.{Failure}
use proc.Repository.Create.{
  CreateResult, Answers, Created, give_up, fresh_result, named, remove_temp, fail_published,
  succeed, then_or, create_below, compare_roots, create_split, create_file_transaction,
  set_create_failure, temp_name, close_all,
}
use proc.Repository.Create.Stages.{
  Temporary, Renamed, before_temp-Ends, open_temp-Ends, write_and_rename-Ends, settle-Ends,
}
use proc.Repository.Opening.{roots_and, Rooted, Shut, open_identity_pair-Ends}
use proc.Repository.Disk.{Entry, absent, private, sealed, published, step, list_eq-same, replay, At}
use proc.Repository.Identity.{Identity, Handle, identity_equal, close_pair, close_checked}
use proc.Repository.Paths.{split_target_path}
use proc.Repository.Rules.{Ends, At-perform, At-close_once}

module _ (path content : List ℕ) (result : CreateResult) (e : Entry) where
  -- The whole content is under the name that the path ends in.
  abbrev Placed : Bool → Type 0
  Placed durable =
      (parent name : List ℕ) × (split_target_path path 1025 256 ≡ some (parent, name))
      × (e ≡ published name content durable)

  abbrev Complete : Type 0
  Complete =
      (result.succeeded ≡ 1)
      × (result.class_name ≡ none)
      × (result.published ≡ 1)
      × (result.has_temp_residue ≡ 0)
      × (result.bytes ≡ length content)
      × Placed true

  abbrev Uncertain : Type 0
  Uncertain =
      (result.succeeded ≡ 0)
      × (result.published ≡ 1)
      × (result.has_temp_residue ≡ 0)
      × (result.class_name ≡ some "ambiguous")
      × (durable : Bool) × Placed durable

  abbrev Residue : Type 0
  Residue =
      (result.succeeded ≡ 0)
      × (result.published ≡ 0)
      × (result.has_temp_residue ≡ 1)
      × (result.class_name ≡ some "ambiguous")
      × Temporary result.temp_name e

  -- A failure of the world or of the request.
  abbrev Unchanged : Type 0
  Unchanged =
      (result.succeeded ≡ 0)
      × (result.published ≡ 0)
      × (result.has_temp_residue ≡ 0)
      × ((result.class_name ≡ some "world") ⊎ (result.class_name ≡ some "contract"))
      × (e ≡ absent)

  -- What a result promises of the file.
  abbrev pub Promise : Type 0
  Promise = Complete ⊎ Uncertain ⊎ Residue ⊎ Unchanged

-- There is a result, the calls were allowed, no descriptor is open, and the result is true.
abbrev pub Settled : List ℕ → List ℕ → Created → Type 0
Settled path content created =
    (result : CreateResult) × (r : Run) × (e : Entry) × (created ≡ (some result, r))
    × At none_open e r
    × Promise path content result e

then_or-Ends :
    (J : Unit {0} → Run → Type 0) (K : Failure → Run → Type 0) (G : Created → Type 0)
    (o : Outcome Failure (Unit {0}) × Run) (label : Failure → Run → Created) (next : Run → Created)
    → Ends J K o
    → ((f : Failure) (r : Run) → K f r → G (label f r))
    → ((r : Run) → J tt r → G (next r))
    → G (then_or o label next)
unfolding then_or Ends
then_or-Ends J K G (done _, r) label next h on_failure on_done = on_done r h
then_or-Ends J K G (failed f, r) label next h on_failure on_done = on_failure f r h
then_or-Ends J K G (exhausted, r) label next h on_failure on_done = absurd h

module _ (answers : Answers) where
  close_pair-At :
      (fds : Descriptors) (e : Entry) (r : Run)
      → At fds e r
      → At
          (set project_base false (set repository false fds))
          e
          (close_pair answers.close_repository answers.close_project r).1
  unfolding close_pair close_checked
  close_pair-At fds e r h =
      At-close_once (set repository false fds) e _ (At-close_once fds e r h _ repository) _
        project_base

  close_all-At :
      (fds : Descriptors) (e : Entry) (r : Run)
      → At fds e r
      → At
          (set project_base false (set repository false (set parent false fds)))
          e
          (close_all answers r)
  close_all-At fds e r h =
      close_pair-At (set parent false fds) e _ (At-close_once fds e r h _ parent)

  abbrev name : List ℕ
  name = temp_name answers.random_value

  module _ (path content : List ℕ) where
    gave_up :
        (result : CreateResult) (class_name : String) (f : Failure) (entered : ℕ) (r : Run)
        → result.has_temp_residue ≡ 0
        → (class_name ≡ "world") ⊎ (class_name ≡ "contract")
        → At none_open absent r
        → Settled path content (give_up answers result class_name f entered 0 r)
    unfolding set_create_failure
    gave_up result class_name f entered r none_left plain h =
        let class : (some class_name ≡ some "world") ⊎ (some class_name ≡ some "contract") =
          elim plain [ inl e ↦ inl (ap some e) | inr e ↦ inr (ap some e) ] in
        (_, r, absent, refl, h, inr (inr (inr (refl, refl, none_left, class, refl))))

    remove_temp-Settled :
        (f : Failure) (answer : Answer (Unit {0})) (r : Run) (e : Entry)
        → Temporary (temp_name answers.random_value) e
        → At (roots_and true false) e r
        → Settled path content (remove_temp answers f answer r)
    unfolding remove_temp step set_create_failure
    remove_temp-Settled f (error errno) r e temp h = (
      _,
      _,
      e,
      refl,
      close_all-At (roots_and true false) e r h,
      inr (inr (inl (refl, refl, refl, refl, temp))),
    )
    remove_temp-Settled f (ok _) r e (written, inl is_private) h =
        let h' = subst (λ e. At (roots_and true false) e r) is_private h in
        gave_up (named answers) _ _ _ _ refl (inl refl) (
          close_all-At (roots_and true false) absent _ (
            At-perform (roots_and true false) (private name written) r h' absent (unlinked name)
              (rw list_eq-same refl)))
    remove_temp-Settled f (ok _) r e (written, inr is_sealed) h =
        let h' = subst (λ e. At (roots_and true false) e r) is_sealed h in
        gave_up (named answers) _ _ _ _ refl (inl refl) (
          close_all-At (roots_and true false) absent _ (
            At-perform (roots_and true false) (sealed name written) r h' absent (unlinked name)
              (rw list_eq-same refl)))

    module _ (final_name parent_path : List ℕ)
        (target : split_target_path path 1025 256 ≡ some (parent_path, final_name)) where
      succeed-Settled :
          (root : Identity) (closing : ℕ × Run)
          → At none_open (published final_name content true) closing.1
          → Settled path content (succeed answers root content closing)
      unfolding succeed set_create_failure
      succeed-Settled root (e, r') h' = elim (Bool-cases (e != 0)) [
        | inl wrong ↦ rw wrong (
          _,
          r',
          _,
          refl,
          h',
          inr (inl (refl, refl, refl, refl, true, (parent_path, final_name, target, refl))),
        )
        | inr right ↦ rw right (
          _,
          r',
          _,
          refl,
          h',
          inl (refl, refl, refl, refl, refl, (parent_path, final_name, target, refl)),
        )
      ]

      fail_published-Settled :
          (f : Failure) (r : Run)
          → Renamed final_name content f r
          → Settled path content (fail_published answers f r)
      unfolding set_create_failure
      fail_published-Settled f r (p, durable, h) = (
        _,
        _,
        _,
        refl,
        close_all-At (roots_and p false) _ r h,
        inr (inl (refl, refl, refl, refl, durable, (parent_path, final_name, target, refl))),
      )

      create_below-Settled :
          (root : Identity) (file_mode : ℕ) (r : Run)
          → At (roots_and false false) absent r
          → Settled path content
              (create_below answers root parent_path final_name content file_mode r)
      unfolding create_below
      create_below-Settled root file_mode r h =
          then_or-Ends _ _ (Settled path content) _ _ _ (before_temp-Ends answers parent_path r h)
            (λ f r (p, h).
              gave_up fresh_result _ _ _ _ refl (inl refl)
                (close_all-At (roots_and p false) absent r h))
            λ r h.
              then_or-Ends _ _ (Settled path content) _ _ _ (open_temp-Ends answers file_mode r h)
                (λ f r h.
                  gave_up (named answers) _ _ _ _ refl (inl refl)
                    (close_all-At (roots_and true false) absent r h))
                λ r h.
                  then_or-Ends _ _ (Settled path content) _ _ _
                    (write_and_rename-Ends answers file_mode content final_name r h)
                    (λ f r (t, e, temp, h).
                      remove_temp-Settled f answers.unlink _ e temp
                        (At-close_once (roots_and true t) e r h _ temporary))
                    λ r h.
                      then_or-Ends _ _ (Settled path content) _ _ _
                        (settle-Ends answers content final_name r h) fail_published-Settled
                        λ r h. succeed-Settled root _ (close_pair-At _ _ r h)

      compare_roots-Settled :
          (handle : Handle) (file_mode : ℕ)
          (opening : Outcome (String × ℕ) (Identity × Identity) × Run)
          → Ends Rooted Shut opening
          → Settled path content
              (compare_roots answers handle parent_path final_name content file_mode opening)
      unfolding compare_roots Ends
      compare_roots-Settled handle file_mode (exhausted, r) h = absurd h
      compare_roots-Settled handle file_mode (failed (stage, e), r) h =
          gave_up fresh_result _ _ _ _ refl (inl refl) h
      compare_roots-Settled handle file_mode (done (project, root), r) h =
          elim (Bool-cases
            (identity_equal handle.project project && identity_equal handle.repository root)) [
              | inl same ↦ rw same (create_below-Settled root file_mode r h)
              | inr other ↦
                  rw other
                    (gave_up fresh_result _ _ _ _ refl (inl refl) (close_pair-At _ absent r h))
            ]

    create_split-Settled :
        (handle : Handle) (split : Option (List ℕ × List ℕ)) (file_mode : ℕ) (r : Run)
        → split_target_path path 1025 256 ≡ split
        → At none_open absent r
        → Settled path content (create_split answers handle split content file_mode r)
    unfolding create_split
    create_split-Settled handle none file_mode r target h =
        gave_up fresh_result _ _ _ _ refl (inr refl) h
    create_split-Settled handle (some (parent_path, final_name)) file_mode r target h =
        compare_roots-Settled final_name parent_path target handle file_mode _
          (open_identity_pair-Ends handle answers.roots r h)

-- Whatever the system answers, the transaction gives a result, makes only calls that the rules of
-- Repository/Disk allow, and closes every descriptor. A success means that the whole content is
-- durable under the name that the path ends in; an ambiguous result without residue, that the
-- content is under that name; an ambiguous one with residue, that the temporary file is still there;
-- and a result of any other class, which then has no residue, that the directory is as it was.
pub create_file_transaction-Promise :
    (answers : Answers) (handle : Handle) (path content : List ℕ) (file_mode : ℕ)
    → Settled path content (create_file_transaction answers handle path content file_mode)
unfolding create_file_transaction replay
create_file_transaction-Promise answers handle path content file_mode =
    create_split-Settled answers path content handle _ file_mode _ refl
      (record { descriptors = refl; allowed = refl })
