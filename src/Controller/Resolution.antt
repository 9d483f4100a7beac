-- ===== src/Controller/Resolution.antt =====
-- native/proc17_qa_controller.c: what an epoch's evidence amounts to.
use proc.Base.{
  ℕ, max, Bool, true, false, ◌&&◌, ◌==◌, ◌!=◌, if◌then◌else◌, Option, some, none, ◌>>=◌, List, [],
  ◌∷◌, ◌≡◌, ◌≢◌, refl, ap, fun_ext, ◌∙◌, arith, eq→==, ==→eq, Bool-cases, inl, inr,
}
use proc.Controller.{
  Epoch, EpochResult, epoch_no_cause, epoch_ambiguous, add_cause, terminal_cause, epoch_malformed,
  terminal_of, add_if, collect, claimed, settle, resolve_terminal, resolve_epoch,
}
use proc.Phase.{
  State, Steps, stay, more, claiming, claim_first_cause, ClaimResult, cause_set, cause_already_set,
  cause_invalid,
}
use proc.Phase.Cause.{Steps-first_cause}
use proc.Wire.Reason

-- One piece of evidence: a kind and a value.
abbrev pub Evidence : Type 0
Evidence = ℕ × ℕ

unfoldable pub present : ℕ → Evidence → List Evidence → List Evidence
present flag e es = if flag != 0 then e ∷ es else es

-- The evidence that the flags of an epoch point to.
unfoldable pub evidence : Epoch → Evidence → List Evidence
evidence epoch terminal =
    present epoch.stdout_limit_crossed (Reason.output_limit, epoch.stdout_observed_bytes)
      (present epoch.stderr_limit_crossed (Reason.output_limit, epoch.stderr_observed_bytes)
        (present epoch.heap_denied (Reason.memory_limit, epoch.heap_peak_bytes)
          (present epoch.wall_timer_expired (Reason.wall_timeout, epoch.wall_limit_ms)
            (present epoch.candidate_terminal terminal []))))

-- All evidence is of kind `k`.
unfoldable pub uniform : ℕ → List Evidence → Bool
uniform k [] = true
uniform k ((kind, value) ∷ es) = kind == k && uniform k es

unfoldable pub greatest : List Evidence → ℕ
greatest [] = 0
greatest ((kind, value) ∷ es) = max value (greatest es)

-- No evidence is no cause, evidence of one kind is claimed with its greatest value, and evidence
-- of several kinds is ambiguous.
unfoldable pub judge : State → List Evidence → State × EpochResult
judge phase [] = (phase, epoch_no_cause)
judge phase ((kind, value) ∷ es) =
    if uniform kind es
    then claimed (claim_first_cause phase kind (max value (greatest es)))
    else (phase, epoch_ambiguous)

add_all : List Evidence → ℕ × ℕ → Option (ℕ × ℕ)
add_all [] collected = some collected
add_all ((kind, value) ∷ es) collected = add_cause kind value collected >>= add_all es

max_assoc : (a b c : ℕ) → max (max a b) c ≡ max a (max b c)
max_assoc a b c = ground arith

add_cause-same : (k v value : ℕ) → k ≢ 0 → add_cause k value (k, v) ≡ some (k, max v value)
unfolding add_cause
add_cause-same k v value set = ground arith

add_cause-other :
    (kind k v value : ℕ) → k ≢ 0 → (kind == k) ≡ false → add_cause kind value (k, v) ≡ none
unfolding add_cause
add_cause-other kind k v value set other = ground arith

add_all-uniform :
    (es : List Evidence) (k v : ℕ)
    → k ≢ 0
    → add_all es (k, v) ≡ (if uniform k es then some (k, max v (greatest es)) else none)
unfolding add_all uniform greatest
add_all-uniform [] k v set = ground arith
add_all-uniform ((kind, value) ∷ es) k v set = elim (Bool-cases (kind == k)) [
  | inl same ↦
      rw (==→eq kind k same, add_cause-same k v value set, eq→== k k refl)
        (add_all-uniform es k (max v value) set
          ∙ ap (λ m. if uniform k es then some (k, m) else none) (max_assoc v value (greatest es)))
  | inr other ↦ rw (add_cause-other kind k v value set other, other) refl
]

add_if-then :
    (flag kind value : ℕ) (es : List Evidence) (f : ℕ × ℕ → Option (ℕ × ℕ))
    → ((c : ℕ × ℕ) → f c ≡ add_all es c)
    → (c : ℕ × ℕ) → (add_if flag kind value c >>= f) ≡ add_all (present flag (kind, value) es) c
unfolding add_if add_all present
add_if-then flag kind value es f h c = elim (Bool-cases (flag != 0)) [
  | inl raised ↦ rw raised (ap (λ g. add_cause kind value c >>= g) (fun_ext h))
  | inr lowered ↦ rw lowered (h c)
]

>>=-some : {A : Type 0} (o : Option A) → o ≡ (o >>= some)
>>=-some none = refl
>>=-some (some a) = refl

add_if-last :
    (flag kind value : ℕ) (c : ℕ × ℕ)
    → add_if flag kind value c ≡ add_all (present flag (kind, value) []) c
unfolding add_all
add_if-last flag kind value c =
    >>=-some (add_if flag kind value c) ∙ add_if-then flag kind value [] some (λ c. done c) c
  where
    done : (c : ℕ × ℕ) → some c ≡ add_all [] c
    done c = refl

collect-add_all :
    (epoch : Epoch) (terminal : ℕ × ℕ)
    → collect epoch terminal ≡ add_all (evidence epoch terminal) (0, 0)
unfolding collect evidence
collect-add_all epoch (k, v) =
    add_if-then epoch.stdout_limit_crossed 7 epoch.stdout_observed_bytes _ _
      (add_if-then epoch.stderr_limit_crossed 7 epoch.stderr_observed_bytes _ _ (
        add_if-then epoch.heap_denied 6 epoch.heap_peak_bytes _ _ (
          add_if-then epoch.wall_timer_expired 4 epoch.wall_limit_ms _ _
            (add_if-last epoch.candidate_terminal k v))))
      (0, 0)

-- Every kind in the evidence is that of a cause.
unfoldable kinds_known : List Evidence → Bool
kinds_known [] = true
kinds_known ((kind, value) ∷ es) = kind != 0 && kinds_known es

settle-judge :
    (phase : State) (es : List Evidence)
    → kinds_known es ≡ true
    → settle phase (add_all es (0, 0)) ≡ judge phase es
unfolding settle add_all judge add_cause kinds_known
settle-judge phase [] known = refl
settle-judge phase ((kind, value) ∷ es) known =
    let set : kind ≢ 0 = ground arith in
    let nonzero : (kind == 0) ≡ false = ground arith in
    elim (Bool-cases (uniform kind es)) [
      | inl same ↦ rw (add_all-uniform es kind value set, same, nonzero) refl
      | inr mixed ↦ rw (add_all-uniform es kind value set, mixed) refl
    ]

terminal_cause-known :
    (status : ℕ) {kind value : ℕ} → terminal_cause status ≡ some (kind, value) → kind ≢ 0
unfolding terminal_cause
terminal_cause-known status h = ground arith

evidence-known :
    (epoch : Epoch) (kind value : ℕ)
    → terminal_of epoch ≡ some (kind, value)
    → kinds_known (evidence epoch (kind, value)) ≡ true
unfolding terminal_of evidence present kinds_known
evidence-known epoch kind value h =
    ground (arith, terminal_cause-known epoch.wait_status {kind = kind} {value = value})

-- Where the flags are well formed, the wait status is terminal if one is given and no cause is
-- set, the call does what the evidence as a whole asks for: nothing without evidence, a claim with
-- the greatest value where all evidence is of one kind, and no claim where the kinds differ.
pub resolve_epoch-judge :
    (phase : State) (epoch : Epoch) (kind value : ℕ)
    → epoch_malformed epoch ≡ false
    → terminal_of epoch ≡ some (kind, value)
    → phase.first_cause.kind ≡ 0
    → resolve_epoch phase epoch ≡ judge phase (evidence epoch (kind, value))
unfolding resolve_epoch resolve_terminal
resolve_epoch-judge phase epoch kind value formed terminal none_set =
    let unset : (phase.first_cause.kind != 0) ≡ false = ground arith in
    rw (formed, terminal, unset, collect-add_all epoch (kind, value))
      (settle-judge phase (evidence epoch (kind, value)) (evidence-known epoch kind value terminal))

claimed-fst : (r : State × ClaimResult) → (claimed r).0 ≡ r.0
unfolding claimed
claimed-fst (phase, cause_set) = refl
claimed-fst (phase, cause_already_set) = refl
claimed-fst (phase, cause_invalid) = refl

settle-Steps : (phase : State) (o : Option (ℕ × ℕ)) → Steps phase (settle phase o).0
unfolding settle
settle-Steps phase none = stay
settle-Steps phase (some (kind, value)) = elim (Bool-cases (kind == 0)) [
  | inl nothing ↦ rw nothing stay
  | inr something ↦
      rw (something, claimed-fst (claim_first_cause phase kind value))
        (more stay (claiming kind value))
]

resolve_terminal-Steps :
    (phase : State) (epoch : Epoch) (o : Option (ℕ × ℕ))
    → Steps phase (resolve_terminal phase epoch o).0
unfolding resolve_terminal
resolve_terminal-Steps phase epoch none = stay
resolve_terminal-Steps phase epoch (some terminal) =
    elim (Bool-cases (phase.first_cause.kind != 0)) [
      | inl set ↦ rw set stay
      | inr unset ↦ rw unset (settle-Steps phase (collect epoch terminal))
    ]

-- An epoch changes the phase by the calls of the phase alone, whatever it holds.
pub resolve_epoch-Steps :
    (phase : State) (epoch : Epoch) → Steps phase (resolve_epoch phase epoch).0
unfolding resolve_epoch
resolve_epoch-Steps phase epoch = elim (Bool-cases (epoch_malformed epoch)) [
  | inl bad ↦ rw bad stay
  | inr good ↦ rw good (resolve_terminal-Steps phase epoch (terminal_of epoch))
]

-- Epochs, one after another.
unfoldable pub resolve_all : State → List Epoch → State
resolve_all phase [] = phase
resolve_all phase (epoch ∷ epochs) = resolve_all (resolve_epoch phase epoch).0 epochs

-- Once an epoch has set the cause, later epochs keep it, whatever they hold.
pub resolve_all-first_cause :
    (phase : State) (epochs : List Epoch)
    → phase.first_cause.kind ≢ 0
    → (resolve_all phase epochs).first_cause ≡ phase.first_cause
unfolding resolve_all
resolve_all-first_cause phase [] set = refl
resolve_all-first_cause phase (epoch ∷ epochs) set =
    let same = Steps-first_cause (resolve_epoch-Steps phase epoch) set in
    resolve_all-first_cause (resolve_epoch phase epoch).0 epochs
      (λ zero. set (ground (arith, same, zero)))
    ∙ same
