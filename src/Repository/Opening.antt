-- ===== src/Repository/Opening.antt =====
-- native/proc17_repository_fs.c: what open_identity_pair leaves open, whatever the system answers.
use Prim.Native.String.{String}
use proc.Base.{ℕ, Bool, true, false, refl}
use proc.Repository.Calls.{
  project_base, repository, Descriptors, opened, Run, close_once, ◌>>=◌, ◌>>◌,
}
use proc.Repository.Disk.{absent, step, At}
use proc.Repository.Identity.{
  Identity, Handle, Roots, resolve_beneath, resolve_exact, open_repository, open_identity_pair,
}
use proc.Repository.Rules.{
  Ends, Ends-bind, Ends-attempt, Ends-attempt_last, Ends-ensure_last, Ends-pure, Ends-hold,
  Ends-after_failure, At-hold, At-close_once,
}

-- The two roots are open, the parent and the temporary file as given.
abbrev pub roots_and : Bool → Bool → Descriptors
roots_and p t = record {
  project_base_fd = true;
  repository_fd = true;
  parent_fd = p;
  temp_fd = t;
  target_fd = false;
  read_fd = false;
}

abbrev pub none_or : Bool → Descriptors
none_or p = record {
  project_base_fd = p;
  repository_fd = false;
  parent_fd = false;
  temp_fd = false;
  target_fd = false;
  read_fd = false;
}

abbrev pub Rooted : Identity × Identity → Run → Type 0
Rooted ids r = At (roots_and false false) absent r

abbrev pub Shut : String × ℕ → Run → Type 0
Shut f r = At (none_or false) absent r

-- Both roots are closed again.
close_both :
    (E : Type 0) (r : Run)
    → At (roots_and false false) absent r
    → At (none_or false) absent ((close_once repository >> close_once {E = E} project_base) r).1
unfolding ◌>>=◌ close_once
close_both E r h =
    At-close_once (none_or true) absent _
      (At-close_once (roots_and false false) absent r h E repository) E project_base

open_repository-Ends :
    (handle : Handle) (roots : Roots) (project : Identity) (r : Run)
    → At (none_or true) absent r
    → Ends Rooted Shut (open_repository handle roots project r)
unfolding open_repository step
open_repository-Ends handle roots project r h =
    Ends-bind _ _ _ _ _ (λ _. At (none_or true) absent)
      (Ends-after_failure _ _ _ _ _ (λ _. At (none_or true) absent)
        (Ends-attempt_last _ _ _ _ _ (λ _. h) λ _. h)
        λ e r' h'. At-close_once (none_or true) absent r' h' _ project_base)
      λ _ r1 h1.
        let h2 =
          At-hold (none_or true) absent r1 h1 absent repository
            (opened repository handle.repository_path resolve_beneath) refl in
        Ends-hold _ _ _ _ _ _ (
          Ends-bind _ _ _ _ _ (λ _. At (roots_and false false) absent)
            (Ends-after_failure _ _ _ _ _ (λ _. At (roots_and false false) absent)
              (Ends-attempt_last _ _ _ _ _ (λ _. h2) λ _. h2) λ e r' h'. close_both _ r' h')
            λ identity r3 h3.
              Ends-bind _ _ _ _ _ (λ _. At (roots_and false false) absent)
                (Ends-after_failure _ _ _ _ _ (λ _. At (roots_and false false) absent)
                  (Ends-ensure_last _ _ _ _ r3 h3 h3) λ e r' h'. close_both _ r' h')
                λ _ r4 h4. Ends-pure _ _ _ _ h4)

pub open_identity_pair-Ends :
    (handle : Handle) (roots : Roots) (r : Run)
    → At (none_or false) absent r
    → Ends Rooted Shut (open_identity_pair handle roots r)
unfolding open_identity_pair open_repository step
open_identity_pair-Ends handle roots r h =
    Ends-attempt _ _ _ _ _ _ (λ _. h)
      λ _.
        let h1 =
          At-hold (none_or false) absent r h absent project_base
            (opened project_base handle.project_base_path resolve_exact) refl in
        Ends-hold _ _ _ _ _ _ (
          Ends-bind _ _ _ _ _ (λ _. At (none_or true) absent)
            (Ends-after_failure _ _ _ _ _ (λ _. At (none_or true) absent)
              (Ends-attempt_last _ _ _ _ _ (λ _. h1) λ _. h1)
              λ e r' h'. At-close_once (none_or true) absent r' h' _ project_base)
            λ project r' h'. open_repository-Ends handle roots project r' h')
