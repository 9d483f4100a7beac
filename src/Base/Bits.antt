-- ===== src/Base/Bits.antt =====
-- Laws of `|`, `&` and `^` at variables, from the recursion on binary digits that the native
-- operations stand for.
use Prim.Native.Nat.{
  ℕ, zero, suc, ◌+◌, ◌-◌, ◌*◌, ◌/◌, ◌%◌, ◌^◌, ◌≤◌, ◌<◌, max, bit_or, bit_xor, digits, bitwise,
  differ, bit_or-bitwise, bit_xor-bitwise,
}
use mathlib.Core.Path.{◌≡◌, refl, sym, ap, ◌∙◌}
use mathlib.Core.WellFounded
use native.Mathlib.Nat.{pow-suc, le_refl}
use native.Mathlib.Omega.{arith}
use proc.Base.Order.{lt_wf}

-- The recursion on digits with step `g` for the digits and `e` at the end.
module _ (e : ℕ → ℕ) (g : ℕ → ℕ → ℕ) where
  one_more : (fuel x y : ℕ) → x ≤ fuel → digits e g (suc fuel) x y ≡ digits e g fuel x y
  one_more fuel zero y enough = empty fuel
    where
      empty : (fuel : ℕ) → digits e g (suc fuel) zero y ≡ digits e g fuel zero y
      empty zero = refl
      empty (suc fuel) = refl
  one_more zero (suc x) y enough = absurd (omega arith)
  one_more (suc fuel) (suc x) y enough =
      ap (λ d. d * 2 + g (suc x % 2) (y % 2)) (one_more fuel (suc x / 2) (y / 2) (omega arith))

  spare : (extra fuel x y : ℕ) → x ≤ fuel → digits e g (extra + fuel) x y ≡ digits e g fuel x y
  spare zero fuel x y enough = ap (λ k. digits e g k x y) none_extra
    where
      none_extra : 0 + fuel ≡ fuel
      none_extra = omega arith
  spare (suc extra) fuel x y enough =
      ap (λ k. digits e g k x y) one_extra
      ∙ one_more (extra + fuel) x y (omega arith)
      ∙ spare extra fuel x y enough
    where
      one_extra : suc extra + fuel ≡ suc (extra + fuel)
      one_extra = omega arith

  lowest_digit :
      (x y : ℕ)
      → bitwise e g (suc x) y ≡ bitwise e g (suc x / 2) (y / 2) * 2 + g (suc x % 2) (y % 2)
  lowest_digit x y =
      let fuel : x ≡ (x - suc x / 2) + suc x / 2 = omega arith in
      ap (λ k. digits e g k (suc x / 2) (y / 2) * 2 + g (suc x % 2) (y % 2)) fuel
      ∙ ap (λ d. d * 2 + g (suc x % 2) (y % 2))
          (spare (x - suc x / 2) (suc x / 2) (suc x / 2) (y / 2) (le_refl (suc x / 2)))

pub zero-bit_or : (b : ℕ) → bit_or 0 b ≡ b
zero-bit_or b = bit_or-bitwise 0 b

pub bit_or_step : (x y : ℕ) → bit_or x y ≡ bit_or (x / 2) (y / 2) * 2 + max (x % 2) (y % 2)
bit_or_step zero y = omega (arith, zero-bit_or y, zero-bit_or (y / 2))
bit_or_step (suc x) y =
    bit_or-bitwise (suc x) y
    ∙ lowest_digit (λ rest. rest) max x y
    ∙ ap (λ d. d * 2 + max (suc x % 2) (y % 2)) (sym (bit_or-bitwise (suc x / 2) (y / 2)))

zero-bit_xor : (y : ℕ) → bit_xor 0 y ≡ y
zero-bit_xor y = bit_xor-bitwise 0 y

pub bit_xor_step : (x y : ℕ) → bit_xor x y ≡ bit_xor (x / 2) (y / 2) * 2 + differ (x % 2) (y % 2)
bit_xor_step zero y = zero-bit_xor y ∙ digit_zero y (zero-bit_xor (y / 2))
  where
    digit_zero : (y : ℕ) → bit_xor 0 (y / 2) ≡ y / 2 → y ≡ bit_xor 0 (y / 2) * 2 + differ 0 (y % 2)
    digit_zero y h = omega (arith, h)
bit_xor_step (suc x) y =
    bit_xor-bitwise (suc x) y
    ∙ lowest_digit (λ rest. rest) differ x y
    ∙ ap (λ d. d * 2 + differ (suc x % 2) (y % 2)) (sym (bit_xor-bitwise (suc x / 2) (y / 2)))

differ_bits : (x y : ℕ) → x < 2 → y < 2 → (differ x y ≡ 0 → x ≡ y) × (x ≡ y → differ x y ≡ 0)
differ_bits zero zero p q = ((λ _. refl), (λ _. refl))
differ_bits zero (suc zero) p q = ((λ h. absurd (omega arith)), (λ h. absurd (omega arith)))
differ_bits (suc zero) zero p q = ((λ h. absurd (omega arith)), (λ h. absurd (omega arith)))
differ_bits (suc zero) (suc zero) p q = ((λ _. refl), (λ _. refl))
differ_bits zero (suc (suc y)) p q = absurd (omega arith)
differ_bits (suc zero) (suc (suc y)) p q = absurd (omega arith)
differ_bits (suc (suc x)) y p q = absurd (omega arith)

-- A disjunction is zero only if both sides are.
pub bit_or-eq-zero : (a b : ℕ) → bit_or a b ≡ 0 → (a ≡ 0) × (b ≡ 0)
bit_or-eq-zero a =
    WellFounded.induction lt_wf {C = λ a. (b : ℕ) → bit_or a b ≡ 0 → (a ≡ 0) × (b ≡ 0)} a step
  where
    step :
        (a : ℕ)
        → ((m : ℕ) → m < a → (b : ℕ) → bit_or m b ≡ 0 → (m ≡ 0) × (b ≡ 0))
        → (b : ℕ) → bit_or a b ≡ 0
        → (a ≡ 0) × (b ≡ 0)
    step zero ih b h = omega (arith, zero-bit_or b)
    step (suc a) ih b h =
        let halves : (suc a / 2 ≡ 0) × (b / 2 ≡ 0) =
          ih (suc a / 2) (omega arith) (b / 2) (omega (arith, bit_or_step (suc a) b)) in
        omega (arith, bit_or_step (suc a) b)

-- An exclusive disjunction is zero only of equal values.
pub bit_xor-eq-zero : (a b : ℕ) → bit_xor a b ≡ 0 → a ≡ b
bit_xor-eq-zero a = WellFounded.induction lt_wf {C = λ a. (b : ℕ) → bit_xor a b ≡ 0 → a ≡ b} a step
  where
    step :
        (a : ℕ)
        → ((m : ℕ) → m < a → (b : ℕ) → bit_xor m b ≡ 0 → m ≡ b)
        → (b : ℕ) → bit_xor a b ≡ 0
        → a ≡ b
    step zero ih b h = omega (arith, bit_xor-bitwise 0 b)
    step (suc a) ih b h =
        let halves : suc a / 2 ≡ b / 2 =
          ih (suc a / 2) (omega arith) (b / 2) (omega (arith, bit_xor_step (suc a) b)) in
        let low : suc a % 2 ≡ b % 2 =
          (differ_bits (suc a % 2) (b % 2) (omega arith) (omega arith)).0
            (omega (arith, bit_xor_step (suc a) b)) in
        omega arith

pub bit_xor_self : (a : ℕ) → bit_xor a a ≡ 0
bit_xor_self a = WellFounded.induction lt_wf {C = λ a. bit_xor a a ≡ 0} a step
  where
    step : (a : ℕ) → ((m : ℕ) → m < a → bit_xor m m ≡ 0) → bit_xor a a ≡ 0
    step zero ih = refl
    step (suc a) ih = omega (
      arith,
      bit_xor_step (suc a) (suc a),
      ih (suc a / 2) (omega arith),
      (differ_bits (suc a % 2) (suc a % 2) (omega arith) (omega arith)).1 refl,
    )

pub bit_or-zero : (a : ℕ) → bit_or a 0 ≡ a
bit_or-zero a = WellFounded.induction lt_wf {C = λ a. bit_or a 0 ≡ a} a step
  where
    step : (a : ℕ) → ((m : ℕ) → m < a → bit_or m 0 ≡ m) → bit_or a 0 ≡ a
    step zero ih = refl
    step (suc a) ih = omega (arith, bit_or_step (suc a) 0, ih (suc a / 2) (omega arith))

-- The disjunction of a shifted field and a field that fits below it is their sum.
pub bit_or_disjoint : (k q r : ℕ) → r < 2 ^ k → bit_or (q * 2 ^ k) r ≡ q * 2 ^ k + r
bit_or_disjoint zero q r fits = omega (arith, bit_or-zero q, ap (bit_or (q * 1)) r-zero, one)
  where
    r-zero : r ≡ 0
    r-zero = omega arith

    one : bit_or (q * 1) 0 ≡ q * 1
    one = bit_or-zero (q * 1)
bit_or_disjoint (suc k) q r fits =
    let double : q * 2 ^ suc k ≡ 2 * (q * 2 ^ k) =
      omega (arith, ap (λ (t : ℕ). q * t) (pow-suc 2 k)) in
    let half : q * 2 ^ suc k / 2 ≡ q * 2 ^ k = omega arith in
    ground (
      arith,
      bit_or_step (q * 2 ^ suc k) r,
      double,
      half,
      pow-suc 2 k,
      bit_or_disjoint k q (r / 2) (omega (arith, pow-suc 2 k)),
    )
