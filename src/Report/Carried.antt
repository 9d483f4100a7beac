-- ===== src/Report/Carried.antt =====
-- native/proc17_qa_report.c: which bytes of the private report stand where in the terminal frame.
use proc.Base.{ℕ, ◌+◌, ◌^◌, ◌<◌, ◌≤◌, ◌≡◌, refl, ◌∙◌, arith}
use proc.Memory.{Buffer, at, zeroed, Agree, Agree_computed, mem_eq}
use proc.Report.Public.{result_payload, error_payload}
use proc.Report.{fill_ones}
use proc.Wire.Integers.{get_u16, get_u16_ext, get_u16-put, put_u16}

-- The payload of a RESULT for a report and an identity.
pub record CarriesResult (p r identity : Buffer) : Type 0 where
  pub own : Agree 128 p identity
  pub reason : Agree 12 (at p 132) (at r 176)
  pub cause : Agree 20 (at p 144) (at r 188)
  pub finality : Agree 8 (at p 164) (λ _. 1)
  pub standard_output : Agree 64 (at p 172) (at r 232)
  pub standard_error : Agree 64 (at p 236) (at r 296)
  pub resource : Agree 88 (at p 300) (at r 360)
  pub scratch : Agree 40 (at p 388) (at r 448)
  pub source : Agree 84 (at p 428) (at r 488)

-- The payload of an ERROR with a code and a stage of the run.
pub record CarriesError (p r identity : Buffer) (code stage : ℕ) : Type 0 where
  pub own : Agree 128 p identity
  pub numbered : get_u16 (at p 132) ≡ code
  pub staged : get_u16 (at p 134) ≡ stage
  pub source : Agree 84 (at p 184) (at r 488)

-- A part of a block that agrees with a payload agrees with what the payload holds there.
part :
    {total : ℕ} (v p s : Buffer) (k n : ℕ)
    → Agree total v p
    → k + n ≤ total
    → Agree n (at p k) s
    → Agree n (at v k) s
part v p s k n same inside h i lt = same (k + i) (omega (arith, inside, lt)) ∙ h i lt

number :
    {total : ℕ} (v p : Buffer) (k m : ℕ)
    → Agree total v p
    → k + 2 ≤ total
    → get_u16 (at p k) ≡ m
    → get_u16 (at v k) ≡ m
number v p k m same inside h =
    get_u16_ext (at v k) (at p k) (λ i lt. same (k + i) (omega (arith, inside, lt))) ∙ h

module _ (v r identity : Buffer) where
  pub carried_result : Agree 512 v (result_payload r identity) → CarriesResult v r identity
  unfolding result_payload fill_ones put_u16 mem_eq
  carried_result same =
      let p = result_payload r identity in
      record {
        own = λ i lt. same i (omega (arith, lt)) ∙ Agree_computed 128 p identity refl i lt;
        reason =
            part v p (at r 176) 132 12 same (omega arith)
              (Agree_computed 12 (at p 132) (at r 176) refl);
        cause =
            part v p (at r 188) 144 20 same (omega arith)
              (Agree_computed 20 (at p 144) (at r 188) refl);
        finality =
            part v p (λ _. 1) 164 8 same (omega arith) (Agree_computed 8 (at p 164) (λ _. 1) refl);
        standard_output =
            part v p (at r 232) 172 64 same (omega arith)
              (Agree_computed 64 (at p 172) (at r 232) refl);
        standard_error =
            part v p (at r 296) 236 64 same (omega arith)
              (Agree_computed 64 (at p 236) (at r 296) refl);
        resource =
            part v p (at r 360) 300 88 same (omega arith)
              (Agree_computed 88 (at p 300) (at r 360) refl);
        scratch =
            part v p (at r 448) 388 40 same (omega arith)
              (Agree_computed 40 (at p 388) (at r 448) refl);
        source =
            part v p (at r 488) 428 84 same (omega arith)
              (Agree_computed 84 (at p 428) (at r 488) refl);
      }

  pub carried_error :
      (code stage : ℕ)
      → code < 2 ^ 16
      → stage < 2 ^ 16
      → Agree 268 v (error_payload r identity code stage)
      → CarriesError v r identity code stage
  unfolding error_payload put_u16 mem_eq get_u16
  carried_error code stage c s same =
      let p = error_payload r identity code stage in
      record {
        own = λ i lt. same i (omega (arith, lt)) ∙ Agree_computed 128 p identity refl i lt;
        numbered = number v p 132 code same (omega arith) (get_u16-put code zeroed c);
        staged = number v p 134 stage same (omega arith) (get_u16-put stage zeroed s);
        source =
            part v p (at r 488) 184 84 same (omega arith)
              (Agree_computed 84 (at p 184) (at r 488) refl);
      }
