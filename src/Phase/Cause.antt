-- ===== src/Phase/Cause.antt =====
-- native/proc17_qa_phase.c: the first cause of a run is claimed once, whatever is called after it.
use proc.Base.{ℕ, ◌+◌, ◌-◌, ◌≤◌, ◌<◌, ◌^◌, ◌≡◌, ◌≢◌, ◌↔◌, refl, ◌∙◌, arith, ◌⊎◌}
use proc.Phase.{
  State, init, mark_finality, observe_started_ready, authorize_candidate, claim_first_cause,
  cause_invalid, cause_already_set, cause_set, Step, Steps, stay, more, observing, authorizing,
  marking, claiming,
}

-- The causes, the sequence and the two flags are in order.
pub record IsValid (s : State) : Type 0 where
  pub counted : s.next_sequence < 2 ^ 64
  pub numbered : s.first_cause.monotonic_sequence ≤ s.next_sequence
  pub known : s.first_cause.kind ≤ 9
  pub claimed : (s.first_cause.kind ≡ 0) ↔ (s.first_cause.monotonic_sequence ≡ 0)
  pub flags : (s.started_attested ≤ 1) × (s.candidate_release_authorized ≤ s.started_attested)
  pub masked : s.finality_mask < 2 ^ 16

pub init-IsValid : IsValid init
init-IsValid = record {
  counted = omega arith;
  numbered = omega arith;
  known = omega arith;
  claimed = ground arith;
  flags = (omega arith, omega arith);
  masked = omega arith;
}

mark_finality-IsValid : (s : State) (member : ℕ) → IsValid s → IsValid (mark_finality s member).0
unfolding mark_finality
mark_finality-IsValid s member v =
    ground (arith, v.counted, v.numbered, v.known, v.claimed, v.flags, v.masked)

observe-IsValid : (s : State) → IsValid s → IsValid (observe_started_ready s).0
unfolding observe_started_ready mark_finality
observe-IsValid s v = ground (arith, v.counted, v.numbered, v.known, v.claimed, v.flags, v.masked)

authorize-IsValid : (s : State) → IsValid s → IsValid (authorize_candidate s).0
unfolding authorize_candidate
authorize-IsValid s v = ground (arith, v.counted, v.numbered, v.known, v.claimed, v.flags, v.masked)

claim-IsValid :
    (s : State) (kind value : ℕ) → IsValid s → IsValid (claim_first_cause s kind value).0
unfolding claim_first_cause
claim-IsValid s kind value v =
    ground (arith, v.counted, v.numbered, v.known, v.claimed, v.flags, v.masked)

Step-IsValid : {s t : State} → Step s t → IsValid s → IsValid t
Step-IsValid (observing {s}) v = observe-IsValid s v
Step-IsValid (authorizing {s}) v = authorize-IsValid s v
Step-IsValid (marking {s} member) v = mark_finality-IsValid s member v
Step-IsValid (claiming {s} kind value) v = claim-IsValid s kind value v

-- Every state that the calls lead to is in order: the sequence fits 64 bits, the cause is
-- numbered within it, and no release comes before the attestation.
pub Steps-IsValid : {s t : State} → Steps s t → IsValid s → IsValid t
Steps-IsValid stay v = v
Steps-IsValid (more calls call) v = Step-IsValid call (Steps-IsValid calls v)

observe-first_cause : (s : State) → (observe_started_ready s).0.first_cause ≡ s.first_cause
unfolding observe_started_ready mark_finality
observe-first_cause s = ground arith

Step-first_cause : {s t : State} → Step s t → s.first_cause.kind ≢ 0 → t.first_cause ≡ s.first_cause
unfolding authorize_candidate mark_finality claim_first_cause
Step-first_cause (observing {s}) set = observe-first_cause s
Step-first_cause (authorizing {s}) set = ground arith
Step-first_cause (marking {s} member) set = ground arith
Step-first_cause (claiming {s} kind value) set = ground arith

-- A cause that is set is never replaced: after any calls it is the same, with its number and value.
pub Steps-first_cause :
    {s t : State} → Steps s t → s.first_cause.kind ≢ 0 → t.first_cause ≡ s.first_cause
Steps-first_cause stay set = refl
Steps-first_cause (more calls call) set =
    let same = Steps-first_cause calls set in
    Step-first_cause call (λ zero. set (ground (arith, same, zero))) ∙ same

-- A claim in an orderly state is refused for a kind that is none or when the sequence is used up;
-- else it takes the next number, and it sets the cause if and only if there is none.
pub claim_first_cause-cases :
    (s : State) (kind value : ℕ)
    → IsValid s
    → (((kind < 1) ⊎ (9 < kind) ⊎ (s.next_sequence ≡ 2 ^ 64 - 1))
        × (claim_first_cause s kind value ≡ (s, cause_invalid)))
      ⊎ ((s.first_cause.kind ≢ 0)
          × (claim_first_cause s kind value
              ≡ (record s { next_sequence = s.next_sequence + 1 }, cause_already_set)))
      ⊎ ((s.first_cause.monotonic_sequence ≡ 0)
          × ((claim_first_cause s kind value).1 ≡ cause_set)
          × ((claim_first_cause s kind value).0.next_sequence ≡ s.next_sequence + 1)
          × ((claim_first_cause s kind value).0.first_cause ≡ record {
            kind = kind;
            monotonic_sequence = s.next_sequence + 1;
            observed_value = value;
          }))
unfolding claim_first_cause
claim_first_cause-cases s kind value v = ground (arith, v.claimed)
