-- ===== src/Phase/Finality.antt =====
-- native/proc17_qa_phase.c: the finality mask holds the members that were marked.
use native.Mathlib.Nat.{pow-suc}
use proc.Base.{
  ℕ, zero, suc, ◌/◌, ◌%◌, ◌<◌, ◌^◌, Bool, true, false, ◌||◌, ◌==◌, leb, ◌≡◌, ◌↔◌, refl, ap, arith,
  if◌then◌else◌, List, [], ◌∷◌, inl, inr, bit_or, max, eq→==, Bool-cases,
}
use proc.Base.Bits.{bit_or_step, bit_or-zero}
use proc.Phase.{State, mark_finality, finality_complete}

-- Bit `k` of a mask.
unfoldable pub bit : ℕ → ℕ → ℕ
bit zero m = m % 2
bit (suc k) m = bit k (m / 2)

-- A disjunction with a power of two, halved.
half : (k a : ℕ) → bit_or a (2 ^ suc k) / 2 ≡ bit_or (a / 2) (2 ^ k)
half k a =
    let even : 2 ^ suc k / 2 ≡ 2 ^ k = omega (arith, pow-suc 2 k) in
    let top : max (a % 2) (2 ^ suc k % 2) < 2 = ground (arith, pow-suc 2 k) in
    omega (arith, bit_or_step a (2 ^ suc k), ap (bit_or (a / 2)) even)

low : (k a : ℕ) → bit_or a (2 ^ suc k) % 2 ≡ a % 2
low k a = ground (arith, pow-suc 2 k, bit_or_step a (2 ^ suc k))

bit_or-pow : (k j a : ℕ) → bit j (bit_or a (2 ^ k)) ≡ (if j == k then 1 else bit j a)
unfolding bit
bit_or-pow zero zero a = ground (arith, bit_or_step a 1)
bit_or-pow zero (suc j) a =
    let e : bit_or a 1 / 2 ≡ a / 2 = ground (arith, bit_or_step a 1, bit_or-zero (a / 2)) in
    ground (arith, ap (bit j) e)
bit_or-pow (suc k) zero a = ground (arith, low k a)
bit_or-pow (suc k) (suc j) a = ground (arith, ap (bit j) (half k a), bit_or-pow k j (a / 2))

bit_or-lt : (k a b : ℕ) → a < 2 ^ k → b < 2 ^ k → bit_or a b < 2 ^ k
bit_or-lt zero a b ha hb =
    let (za, zb) : (a ≡ 0) × (b ≡ 0) = (omega arith, omega arith) in rw (za, zb) (omega arith)
bit_or-lt (suc k) a b ha hb =
    let shorter =
      bit_or-lt k (a / 2) (b / 2) (omega (arith, pow-suc 2 k)) (omega (arith, pow-suc 2 k)) in
    let top : max (a % 2) (b % 2) < 2 = ground arith in omega (arith, pow-suc 2 k, bit_or_step a b)

pow-lt : (m : ℕ) → m < 8 → 2 ^ m < 2 ^ 8
pow-lt zero lt = omega arith
pow-lt (suc zero) lt = omega arith
pow-lt (suc (suc zero)) lt = omega arith
pow-lt (suc (suc (suc zero))) lt = omega arith
pow-lt (suc (suc (suc (suc zero)))) lt = omega arith
pow-lt (suc (suc (suc (suc (suc zero))))) lt = omega arith
pow-lt (suc (suc (suc (suc (suc (suc zero)))))) lt = omega arith
pow-lt (suc (suc (suc (suc (suc (suc (suc zero))))))) lt = omega arith
pow-lt (suc (suc (suc (suc (suc (suc (suc (suc m)))))))) lt = absurd (omega arith)

mark_finality-mask :
    (s : State) (m : ℕ)
    → m < 8
    → s.finality_mask < 2 ^ 8
    → (mark_finality s m).0.finality_mask ≡ bit_or s.finality_mask (2 ^ m)
unfolding mark_finality
mark_finality-mask s m lt narrow =
    let bound = bit_or-lt 8 s.finality_mask (2 ^ m) narrow (pow-lt m lt) in
    let e : 2 ^ m % 2 ^ 16 ≡ 2 ^ m = omega (arith, pow-lt m lt) in
    ground (arith, ap (λ t. bit_or s.finality_mask t % 2 ^ 16) e)

-- Marks, in the order of the list.
unfoldable pub mark_all : State → List ℕ → State
mark_all s [] = s
mark_all s (m ∷ ms) = mark_all (mark_finality s m).0 ms

unfoldable pub has : ℕ → List ℕ → Bool
has k [] = false
has k (m ∷ ms) = k == m || has k ms

mark_finality-outside : (s : State) (m : ℕ) → leb 8 m ≡ true → (mark_finality s m).0 ≡ s
unfolding mark_finality
mark_finality-outside s m beyond = ground arith

mark_finality-bit :
    (s : State) (m k : ℕ)
    → s.finality_mask < 2 ^ 8
    → k < 8
    → ((mark_finality s m).0.finality_mask < 2 ^ 8)
      × (bit k (mark_finality s m).0.finality_mask ≡ (if k == m then 1 else bit k s.finality_mask))
mark_finality-bit s m k narrow lt = elim (Bool-cases (leb 8 m)) [
  | inl beyond ↦
      let e : (k == m) ≡ false = ground arith in
      rw (mark_finality-outside s m beyond, e) (narrow, refl)
  | inr known ↦
      let small : m < 8 = ground arith in
      rw (mark_finality-mask s m small narrow) (
        bit_or-lt 8 s.finality_mask (2 ^ m) narrow (pow-lt m small),
        bit_or-pow m k s.finality_mask,
      )
]

mark_all-bit :
    (ms : List ℕ) (s : State) (k : ℕ)
    → s.finality_mask < 2 ^ 8
    → k < 8
    → ((mark_all s ms).finality_mask < 2 ^ 8)
      × (bit k (mark_all s ms).finality_mask ≡ (if has k ms then 1 else bit k s.finality_mask))
unfolding mark_all has
mark_all-bit [] s k narrow lt = (narrow, refl)
mark_all-bit (m ∷ ms) s k narrow lt =
    let (narrow', one) = mark_finality-bit s m k narrow lt in
    let (narrow'', rest) = mark_all-bit ms (mark_finality s m).0 k narrow' lt in
    (narrow'', ground (arith, one, rest))

zero-bit : (k : ℕ) → bit k 0 ≡ 0
unfolding bit
zero-bit zero = refl
zero-bit (suc k) = zero-bit k

full-bit : (k : ℕ) → k < 8 → bit k 255 ≡ 1
unfolding bit
full-bit zero lt = refl
full-bit (suc zero) lt = refl
full-bit (suc (suc zero)) lt = refl
full-bit (suc (suc (suc zero))) lt = refl
full-bit (suc (suc (suc (suc zero)))) lt = refl
full-bit (suc (suc (suc (suc (suc zero))))) lt = refl
full-bit (suc (suc (suc (suc (suc (suc zero)))))) lt = refl
full-bit (suc (suc (suc (suc (suc (suc (suc zero))))))) lt = refl
full-bit (suc (suc (suc (suc (suc (suc (suc (suc m)))))))) lt = absurd (omega arith)

bits-full : (m : ℕ) → m < 2 ^ 8 → ((k : ℕ) → k < 8 → bit k m ≡ 1) → m ≡ 255
unfolding bit
bits-full m lt all = omega (
  arith,
  all 0 (omega arith),
  all 1 (omega arith),
  all 2 (omega arith),
  all 3 (omega arith),
  all 4 (omega arith),
  all 5 (omega arith),
  all 6 (omega arith),
  all 7 (omega arith),
)

-- Finality is complete after marks, in any order and with repetitions, if and only if each of
-- the eight members is among them.
pub mark_all-finality_complete :
    (s : State) (ms : List ℕ)
    → s.finality_mask ≡ 0
    → (finality_complete (mark_all s ms) ≡ true) ↔ ((k : ℕ) → k < 8 → has k ms ≡ true)
unfolding finality_complete
mark_all-finality_complete s ms empty = (
  λ complete k lt.
      let (_, b) = mark_all-bit ms s k (omega (arith, empty)) lt in
      let e : (mark_all s ms).finality_mask ≡ 255 = ground arith in
      ground (arith, b, ap (bit k) e, full-bit k lt, ap (bit k) empty, zero-bit k),
  λ all.
      let (narrow, _) = mark_all-bit ms s 0 (omega (arith, empty)) (omega arith) in
      eq→== _ 255 (
        bits-full (mark_all s ms).finality_mask narrow λ k lt.
          let (_, b) = mark_all-bit ms s k (omega (arith, empty)) lt in
          ground (arith, b, all k lt)),
)
