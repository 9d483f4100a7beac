-- ===== src/Wire/RunV1/Extent.antt =====
-- native/proc17_qa_wire.h: the tests of a payload read the bytes that it has, and no more.
use proc.Base.{
  ℕ, zero, suc, ◌+◌, ◌≤◌, ◌<◌, Bool, true, false, ◌&&◌, ◌==◌, ◌!=◌, ltb, ◌≡◌, refl, sym, ap, ◌∙◌,
  fun_ext, arith, if◌then◌else◌, Bool-cases, inl, inr, ==→eq, &&_iff,
}
use proc.Memory.{Buffer, at, Agree}
use proc.Wire.Checks.{checks}
use proc.Wire.Integers.{get_u16, get_u16_ext}
use proc.Wire.RunV1.{
  no_zero, all_one, request_fixed, request_valid, started_valid, result_valid, error_valid,
  payload_valid,
}

-- A buffer cut off behind `n` bytes.
abbrev cut : ℕ → Buffer → Buffer
cut n x = λ i. if ltb i n then x i else 0

cut_ext : (n : ℕ) (x y : Buffer) → Agree n x y → cut n x ≡ cut n y
cut_ext n x y h = fun_ext λ i. ground (arith, cell i)
  where
    cell : (i : ℕ) → i < n → x i ≡ y i
    cell i lt = h i lt

result_cut : (x : Buffer) → result_valid x 512 ≡ result_valid (cut 512 x) 512
unfolding result_valid all_one checks
result_cut x = refl

started_cut : (x : Buffer) → started_valid x 252 ≡ started_valid (cut 252 x) 252
unfolding started_valid checks
started_cut x = refl

error_cut : (x : Buffer) → error_valid x 268 ≡ error_valid (cut 268 x) 268
unfolding error_valid checks
error_cut x = refl

request_cut : (x : Buffer) (n : ℕ) → request_fixed x n ≡ request_fixed (cut 238 x) n
unfolding request_fixed checks
request_cut x n = refl

-- A test of a payload of one size, from its two cases.
sized :
    (test : Buffer → ℕ → Bool) (size : ℕ)
    → ((x : Buffer) → test x size ≡ test (cut size x) size)
    → ((x : Buffer) (n : ℕ) → (n == size) ≡ false → test x n ≡ false)
    → (x y : Buffer) (n : ℕ) → Agree n x y
    → test x n ≡ test y n
sized test size within wrong x y n h = elim (Bool-cases (n == size)) [
  | inl e ↦
      let right : n ≡ size = ==→eq n size e in
      ap (test x) right
      ∙ within x
      ∙ ap (λ b. test b size) (cut_ext size x y (λ i lt. h i (omega arith)))
      ∙ sym (within y)
      ∙ sym (ap (test y) right)
  | inr ne ↦ wrong x n ne ∙ sym (wrong y n ne)
]

result_wrong : (x : Buffer) (n : ℕ) → (n == 512) ≡ false → result_valid x n ≡ false
unfolding result_valid
result_wrong x n ne = rw ne

started_wrong : (x : Buffer) (n : ℕ) → (n == 252) ≡ false → started_valid x n ≡ false
unfolding started_valid
started_wrong x n ne = rw ne

error_wrong : (x : Buffer) (n : ℕ) → (n == 268) ≡ false → error_valid x n ≡ false
unfolding error_valid
error_wrong x n ne = rw ne

no_zero_ext : (n : ℕ) (x y : Buffer) → Agree n x y → no_zero n x ≡ no_zero n y
unfolding no_zero
no_zero_ext zero x y h = refl
no_zero_ext (suc n) x y h =
    ap (λ c. c != 0 && no_zero n (at x 1)) (h 0 (omega arith))
    ∙ ap (λ b. y 0 != 0 && b) (no_zero_ext n (at x 1) (at y 1) (λ i lt. h (1 + i) (omega arith)))

request_fixed_ext : (x y : Buffer) (n : ℕ) → Agree 238 x y → request_fixed x n ≡ request_fixed y n
request_fixed_ext x y n h =
    request_cut x n ∙ ap (λ b. request_fixed b n) (cut_ext 238 x y h) ∙ sym (request_cut y n)

request_long :
    (x : Buffer) (n : ℕ) → request_fixed x n ≡ true → (238 ≤ n) × (n ≡ 238 + get_u16 (at x 236))
unfolding request_fixed
request_long x n h = ground arith

request_ext :
    (x y : Buffer) (n : ℕ) → Agree n x y → request_valid x n ≡ true → request_valid y n ≡ true
unfolding request_valid
request_ext x y n h valid =
    let parts = (&&_iff (request_fixed x n) (no_zero (get_u16 (at x 236)) (at x 238))).0 valid in
    let (long, size) = request_long x n parts.0 in
    let path : get_u16 (at x 236) ≡ get_u16 (at y 236) =
      get_u16_ext (at x 236) (at y 236) (λ i lt. h (236 + i) (omega arith)) in
    (&&_iff (request_fixed y n) (no_zero (get_u16 (at y 236)) (at y 238))).1 (
      sym (request_fixed_ext x y n (λ i lt. h i (omega arith))) ∙ parts.0,
      ap (λ k. no_zero k (at y 238)) (sym path)
          ∙ sym (
              no_zero_ext (get_u16 (at x 236)) (at x 238) (at y 238)
                (λ i lt. h (238 + i) (omega arith)))
          ∙ parts.1,
    )

-- A payload stays valid if the buffer changes behind its end.
pub payload_valid_ext :
    (kind : ℕ) (x y : Buffer) (n : ℕ)
    → Agree n x y
    → payload_valid kind x n ≡ true
    → payload_valid kind y n ≡ true
unfolding payload_valid
payload_valid_ext kind x y n h = ground (
  arith,
  request_ext x y n h,
  sized started_valid 252 started_cut started_wrong x y n h,
  sized result_valid 512 result_cut result_wrong x y n h,
  sized error_valid 268 error_cut error_wrong x y n h,
)
