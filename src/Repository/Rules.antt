-- ===== src/Repository/Rules.antt =====
-- native/proc17_repository_fs.c: how a part of a transaction ends, followed call by call.
use mathlib.Core.Path.{subst}
use proc.Base.{
  ℕ, Bool, true, false, if◌then◌else◌, ◌≡◌, refl, ◌∙◌, ap, ◌∷◌, some, Bool-cases, inl, inr,
}
use proc.Repository.Calls.{
  Descriptor, project_base, repository, parent, temporary, target, reading, Descriptors, held, set,
  Event, closed, Run, Outcome, done, failed, exhausted, Answer, ok, error, Action, attempt, ensure,
  perform, close_once, hold, pure, take_effect, after_failure, relabel, raise, ◌>>=◌, ◌>>◌,
}
use proc.Repository.Disk.{Entry, step, At, At-take}

-- The first condition where the part is done, the second where it fails. No loop is exhausted.
unfoldable pub Ends :
    {E A : Type 0} → (A → Run → Type 0) → (E → Run → Type 0) → Outcome E A × Run → Type 0
Ends J K (done a, r) = J a r
Ends J K (failed e, r) = K e r
Ends J K (exhausted, r) = ⊥

module _ {E A : Type 0} (J : A → Run → Type 0) (K : E → Run → Type 0) where
  pub Ends-pure : (a : A) (r : Run) → J a r → Ends J K (pure a r)
  unfolding Ends pure
  Ends-pure a r h = h

  Ends-next :
      {B : Type 0} (I : B → Run → Type 0) (o : Outcome E B × Run) (f : B → Action E A)
      → Ends I K o
      → ((b : B) (r' : Run) → I b r' → Ends J K (f b r'))
      → Ends J K (elim o.0 [
        | done b ↦ f b o.1
        | failed e ↦ (failed e, o.1)
        | exhausted ↦ (exhausted, o.1)
      ])
  unfolding Ends
  Ends-next I (done b, r') f h next = next b r' h
  Ends-next I (failed e, r') f h next = h
  Ends-next I (exhausted, r') f h next = absurd h

  pub Ends-bind :
      {B : Type 0} (m : Action E B) (f : B → Action E A) (r : Run) (I : B → Run → Type 0)
      → Ends I K (m r)
      → ((b : B) (r' : Run) → I b r' → Ends J K (f b r'))
      → Ends J K ((m >>= f) r)
  unfolding ◌>>=◌
  Ends-bind m f r I h next = Ends-next I (m r) f h next

  pub Ends-attempt :
      {B : Type 0} (answer : Answer B) (fail : ℕ → E) (f : B → Action E A) (r : Run)
      → ((e : ℕ) → K (fail e) r)
      → ((b : B) → Ends J K (f b r))
      → Ends J K ((attempt answer fail >>= f) r)
  unfolding Ends ◌>>=◌ attempt
  Ends-attempt (ok b) fail f r failure next = next b
  Ends-attempt (error e) fail f r failure next = failure e

  -- The same with the answer.
  pub Ends-attempt_eq :
      {B : Type 0} (answer : Answer B) (fail : ℕ → E) (f : B → Action E A) (r : Run)
      → ((e : ℕ) → K (fail e) r)
      → ((b : B) → answer ≡ ok b → Ends J K (f b r))
      → Ends J K ((attempt answer fail >>= f) r)
  unfolding Ends ◌>>=◌ attempt
  Ends-attempt_eq (ok b) fail f r failure next = next b refl
  Ends-attempt_eq (error e) fail f r failure next = failure e

  pub Ends-done : (a : A) (r : Run) → J a r → Ends J K (done a, r)
  unfolding Ends
  Ends-done a r h = h

  pub Ends-raise : (e : E) (r : Run) → K e r → Ends J K (raise e r)
  unfolding Ends raise
  Ends-raise e r h = h

  pub Ends-map :
      (J' : A → Run → Type 0) (K' : E → Run → Type 0) (o : Outcome E A × Run)
      → ((a : A) (r : Run) → J' a r → J a r)
      → ((e : E) (r : Run) → K' e r → K e r)
      → Ends J' K' o
      → Ends J K o
  unfolding Ends
  Ends-map J' K' (done a, r) f g h = f a r h
  Ends-map J' K' (failed e, r) f g h = g e r h
  Ends-map J' K' (exhausted, r) f g h = h

  Ends-relabelled :
      {F : Type 0} (f : F → E) (o : Outcome F A × Run)
      → Ends J (λ e. K (f e)) o
      → Ends J K (elim o.0 [
        | done a ↦ (done a, o.1)
        | failed e ↦ (failed (f e), o.1)
        | exhausted ↦ (exhausted, o.1)
      ])
  unfolding Ends
  Ends-relabelled f (done a, r) h = h
  Ends-relabelled f (failed e, r) h = h
  Ends-relabelled f (exhausted, r) h = h

  pub Ends-relabel :
      {F : Type 0} (f : F → E) (m : Action F A) (r : Run)
      → Ends J (λ e. K (f e)) (m r)
      → Ends J K (relabel f m r)
  unfolding relabel
  Ends-relabel f m r h = Ends-relabelled f (m r) h

  pub Ends-attempt_last :
      (answer : Answer A) (fail : ℕ → E) (r : Run)
      → ((e : ℕ) → K (fail e) r)
      → ((a : A) → J a r)
      → Ends J K (attempt answer fail r)
  unfolding Ends attempt
  Ends-attempt_last (ok a) fail r failure next = next a
  Ends-attempt_last (error e) fail r failure next = failure e

  pub Ends-ensure :
      (test : Bool) (e : E) (m : Action E A) (r : Run)
      → K e r
      → (test ≡ true → Ends J K (m r))
      → Ends J K ((ensure test e >> m) r)
  unfolding Ends ◌>>=◌ ensure
  Ends-ensure true e m r failure next = next refl
  Ends-ensure false e m r failure next = failure

  pub Ends-if :
      (b : Bool) (x y : Outcome E A × Run)
      → (b ≡ true → Ends J K x)
      → (b ≡ false → Ends J K y)
      → Ends J K (if b then x else y)
  Ends-if true x y one other = one refl
  Ends-if false x y one other = other refl

  pub Ends-failed : (e : E) (r : Run) → K e r → Ends J K (failed e, r)
  unfolding Ends
  Ends-failed e r h = h

  pub Ends-perform :
      (answer : Answer (Unit {0})) (event : Event) (fail : ℕ → E) (m : Action E A) (r : Run)
      → ((e : ℕ) → K (fail e) r)
      → Ends J K (m (record r { events = event ∷ r.events }))
      → Ends J K ((perform answer event fail >> m) r)
  unfolding Ends ◌>>=◌ attempt take_effect
  Ends-perform (ok _) event fail m r failure next = next
  Ends-perform (error e) event fail m r failure next = failure e

  pub Ends-hold :
      (d : Descriptor) (event : Event) (m : Action E A) (r : Run)
      → Ends J K (m (record { descriptors = set d true r.descriptors; events = event ∷ r.events }))
      → Ends J K ((hold d event >> m) r)
  unfolding ◌>>=◌ hold
  Ends-hold d event m r h = h

  pub Ends-close_once :
      (d : Descriptor) (m : Action E A) (r : Run)
      → Ends J K (m (close_once {E = E} d r).1)
      → Ends J K ((close_once d >> m) r)
  unfolding ◌>>=◌ close_once
  Ends-close_once d m r h = h

  pub Ends-after_failure :
      (m : Action E A) (cleanup : Action E (Unit {0})) (r : Run) (K' : E → Run → Type 0)
      → Ends J K' (m r)
      → ((e : E) (r' : Run) → K' e r' → K e (cleanup r').1)
      → Ends J K (after_failure m cleanup r)
  unfolding after_failure Ends
  Ends-after_failure m cleanup r K' h clean = cleaned K' (m r) cleanup h clean
    where
      cleaned :
          (K' : E → Run → Type 0) (o : Outcome E A × Run) (cleanup : Action E (Unit {0}))
          → Ends J K' o
          → ((e : E) (r' : Run) → K' e r' → K e (cleanup r').1)
          → Ends J K (elim o.0 [
            | done a ↦ (done a, o.1)
            | failed e ↦ (failed e, (cleanup o.1).1)
            | exhausted ↦ (exhausted, o.1)
          ])
      cleaned K' (done a, r') cleanup h clean = h
      cleaned K' (failed e, r') cleanup h clean = clean e r' h
      cleaned K' (exhausted, r') cleanup h clean = h

pub Ends-ensure_last :
    {E : Type 0} (J : Unit {0} → Run → Type 0) (K : E → Run → Type 0) (test : Bool) (e : E)
    (r : Run)
    → J tt r
    → K e r
    → Ends J K (ensure test e r)
unfolding Ends ensure
Ends-ensure_last J K true e r next failure = next
Ends-ensure_last J K false e r next failure = failure

module _ (fds : Descriptors) (e : Entry) (r : Run) (h : At fds e r) where
  -- A call that opens nothing.
  pub At-perform :
      (e' : Entry) (event : Event)
      → step event (record { descriptors = fds; entry = e })
        ≡ some (record { descriptors = fds; entry = e' })
      → At fds e' (record r { events = event ∷ r.events })
  At-perform e' event one = rw h.descriptors (At-take fds fds e e' event r h one)

  pub At-hold :
      (e' : Entry) (d : Descriptor) (event : Event)
      → step event (record { descriptors = fds; entry = e })
        ≡ some (record { descriptors = set d true fds; entry = e' })
      → At
          (set d true fds)
          e'
          (record { descriptors = set d true r.descriptors; events = event ∷ r.events })
  At-hold e' d event one = rw h.descriptors (At-take fds (set d true fds) e e' event r h one)

  set-held : (d : Descriptor) → held d fds ≡ false → fds ≡ set d false fds
  set-held project_base shut = ap (λ b. record fds { project_base_fd = b }) shut
  set-held repository shut = ap (λ b. record fds { repository_fd = b }) shut
  set-held parent shut = ap (λ b. record fds { parent_fd = b }) shut
  set-held temporary shut = ap (λ b. record fds { temp_fd = b }) shut
  set-held target shut = ap (λ b. record fds { target_fd = b }) shut
  set-held reading shut = ap (λ b. record fds { read_fd = b }) shut

  -- Whether the descriptor was open or not, it is closed.
  pub At-close_once :
      (E : Type 0) (d : Descriptor) → At (set d false fds) e (close_once {E = E} d r).1
  unfolding step close_once
  At-close_once E d = elim (Bool-cases (held d fds)) [
    | inl is_open ↦
        rw (h.descriptors, is_open)
          (At-take fds (set d false fds) e e (closed d) r h (rw is_open refl))
    | inr shut ↦
        let shut' : held d r.descriptors ≡ false = ap (held d) h.descriptors ∙ shut in
        rw shut' (subst (λ x. At x e r) (set-held d shut) h)
  ]
