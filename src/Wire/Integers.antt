-- ===== src/Wire/Integers.antt =====
-- native/proc17_qa_wire.h: big-endian integers in a buffer.
use native.Mathlib.Nat.{add_assoc}
use proc.Base.{
  refl, ℕ, zero, suc, ◌+◌, ◌-◌, ◌*◌, ◌/◌, ◌%◌, ◌^◌, ◌<◌, ◌≤◌, ◌≡◌, ◌≢◌, ap, ◌∙◌, arith, bit_or,
}
use proc.Base.Bits.{bit_or_disjoint, zero-bit_or}
use proc.Memory.{Buffer, at, poke, at-poke, Agree, Elsewhere, poke_outside}

unfoldable pub put_u16 : ℕ → ℕ → Buffer → Buffer
put_u16 k value output = poke (k + 1) (value % 256) (poke k (value / 2 ^ 8 % 256) output)

unfoldable pub put_u32 : ℕ → ℕ → Buffer → Buffer
put_u32 k value output = poke (k + 3) (value % 256) (
    poke (k + 2) (value / 2 ^ 8 % 256)
      (poke (k + 1) (value / 2 ^ 16 % 256) (poke k (value / 2 ^ 24 % 256) output)))

-- output[7 - index] = value >> (index * 8), for the `n` turns from `index` on.
unfoldable pub put_u64_loop : ℕ → ℕ → ℕ → ℕ → Buffer → Buffer
put_u64_loop zero index k value output = output
put_u64_loop (suc n) index k value output =
    put_u64_loop n (index + 1) k value
      (poke (k + (7 - index)) (value / 2 ^ (index * 8) % 256) output)

unfoldable pub put_u64 : ℕ → ℕ → Buffer → Buffer
unfolding put_u64_loop
put_u64 = put_u64_loop 8 0

unfoldable pub get_u16 : Buffer → ℕ
get_u16 input = bit_or (input 0 * 2 ^ 8) (input 1) % 2 ^ 16

unfoldable pub get_u32 : Buffer → ℕ
get_u32 input =
    bit_or (bit_or (bit_or (input 0 * 2 ^ 24) (input 1 * 2 ^ 16)) (input 2 * 2 ^ 8)) (input 3)

-- value = (value << 8) | input[index]
unfoldable pub get_u64_loop : ℕ → Buffer → ℕ → ℕ
get_u64_loop zero input value = value
get_u64_loop (suc n) input value =
    get_u64_loop n (at input 1) (bit_or (value * 2 ^ 8 % 2 ^ 64) (input 0))

unfoldable pub get_u64 : Buffer → ℕ
unfolding get_u64_loop
get_u64 input = get_u64_loop 8 input 0

-- The readers as sums, for bytes.
pub get_u16-sum : (b : Buffer) → b 0 < 256 → b 1 < 256 → get_u16 b ≡ b 0 * 2 ^ 8 + b 1
unfolding get_u16
get_u16-sum b h0 h1 = omega (arith, bit_or_disjoint 8 (b 0) (b 1) h1)

pub get_u32-sum :
    (b : Buffer)
    → b 0 < 256
    → b 1 < 256
    → b 2 < 256
    → b 3 < 256
    → get_u32 b ≡ b 0 * 2 ^ 24 + b 1 * 2 ^ 16 + b 2 * 2 ^ 8 + b 3
unfolding get_u32
get_u32-sum b h0 h1 h2 h3 =
    ap (λ t. bit_or (bit_or t (b 2 * 2 ^ 8)) (b 3))
      (bit_or_disjoint 24 (b 0) (b 1 * 2 ^ 16) (omega arith) ∙ first)
    ∙ ap (λ t. bit_or t (b 3))
        (bit_or_disjoint 16 (b 0 * 2 ^ 8 + b 1) (b 2 * 2 ^ 8) (omega arith) ∙ second)
    ∙ bit_or_disjoint 8 (b 0 * 2 ^ 16 + b 1 * 2 ^ 8 + b 2) (b 3) h3
    ∙ third
  where
    first : b 0 * 2 ^ 24 + b 1 * 2 ^ 16 ≡ (b 0 * 2 ^ 8 + b 1) * 2 ^ 16
    first = omega arith

    second : (b 0 * 2 ^ 8 + b 1) * 2 ^ 16 + b 2 * 2 ^ 8 ≡ (b 0 * 2 ^ 16 + b 1 * 2 ^ 8 + b 2) * 2 ^ 8
    second = omega arith

    third :
        (b 0 * 2 ^ 16 + b 1 * 2 ^ 8 + b 2) * 2 ^ 8 + b 3
        ≡ b 0 * 2 ^ 24 + b 1 * 2 ^ 16 + b 2 * 2 ^ 8 + b 3
    third = omega arith

-- One turn of the 64-bit reader, over the digit behind `high`.
shift_in :
    (high low : ℕ)
    → high < 2 ^ 56
    → low < 256
    → bit_or (high * 2 ^ 8 % 2 ^ 64) low ≡ high * 2 ^ 8 + low
shift_in high low h l = ap (λ t. bit_or t low) fits ∙ bit_or_disjoint 8 high low l
  where
    fits : high * 2 ^ 8 % 2 ^ 64 ≡ high * 2 ^ 8
    fits = omega arith

-- What was put is got back, whatever stood in the buffer.
pub get_u16-put : (value : ℕ) (b : Buffer) → value < 2 ^ 16 → get_u16 (put_u16 0 value b) ≡ value
unfolding put_u16
get_u16-put value b h = get_u16-sum (put_u16 0 value b) (omega arith) (omega arith) ∙ omega arith

pub get_u32-put : (value : ℕ) (b : Buffer) → value < 2 ^ 32 → get_u32 (put_u32 0 value b) ≡ value
unfolding put_u32
get_u32-put value b h =
    get_u32-sum (put_u32 0 value b) (omega arith) (omega arith) (omega arith) (omega arith)
    ∙ omega arith

join :
    (high whole : ℕ)
    → high ≡ whole / 256
    → high < 2 ^ 56
    → bit_or (high * 2 ^ 8 % 2 ^ 64) (whole % 256) ≡ whole
join high whole e h = shift_in high (whole % 256) h (omega arith) ∙ omega arith

pub get_u64-put : (value : ℕ) (b : Buffer) → value < 2 ^ 64 → get_u64 (put_u64 0 value b) ≡ value
unfolding put_u64 get_u64
get_u64-put value b h =
    rw
      (
        top,
        join (value / 2 ^ 56) (value / 2 ^ 48) (omega arith) (omega arith),
        join (value / 2 ^ 48) (value / 2 ^ 40) (omega arith) (omega arith),
        join (value / 2 ^ 40) (value / 2 ^ 32) (omega arith) (omega arith),
        join (value / 2 ^ 32) (value / 2 ^ 24) (omega arith) (omega arith),
        join (value / 2 ^ 24) (value / 2 ^ 16) (omega arith) (omega arith),
        join (value / 2 ^ 16) (value / 2 ^ 8) (omega arith) (omega arith),
        join (value / 2 ^ 8) (value / 1) (omega arith) (omega arith),
      )
      (omega arith)
  where
    top : bit_or 0 (value / 2 ^ 56 % 256) ≡ value / 2 ^ 56
    top = zero-bit_or (value / 2 ^ 56 % 256) ∙ omega arith

pub get_u16_ext : (a b : Buffer) → Agree 2 a b → get_u16 a ≡ get_u16 b
unfolding get_u16
get_u16_ext a b h = cc (h 0 (omega arith), h 1 (omega arith))

pub get_u32_ext : (a b : Buffer) → Agree 4 a b → get_u32 a ≡ get_u32 b
unfolding get_u32
get_u32_ext a b h = cc (h 0 (omega arith), h 1 (omega arith), h 2 (omega arith), h 3 (omega arith))

pub get_u64_ext : (a b : Buffer) → Agree 8 a b → get_u64 a ≡ get_u64 b
unfolding get_u64
get_u64_ext a b h = cc (
  h 0 (omega arith),
  h 1 (omega arith),
  h 2 (omega arith),
  h 3 (omega arith),
  h 4 (omega arith),
  h 5 (omega arith),
  h 6 (omega arith),
  h 7 (omega arith),
)

put_u64_loop-Elsewhere :
    (n index k value : ℕ) (b : Buffer)
    → n + index ≤ 8
    → Elsewhere k 8 (put_u64_loop n index k value b) b
unfolding put_u64_loop
put_u64_loop-Elsewhere zero index k value b within i out = refl
put_u64_loop-Elsewhere (suc n) index k value b within i out =
    let byte = value / 2 ^ (index * 8) % 256 in
    let differs : i ≢ k + (7 - index) = λ e. omega (arith, e, out, within) in
    put_u64_loop-Elsewhere n (index + 1) k value (poke (k + (7 - index)) byte b)
      (omega (arith, within)) i out
    ∙ poke_outside (k + (7 - index)) i byte b differs

-- A write of eight bytes leaves the others.
pub put_u64-Elsewhere : (k value : ℕ) (b : Buffer) → Elsewhere k 8 (put_u64 k value b) b
unfolding put_u64
put_u64-Elsewhere k value b = put_u64_loop-Elsewhere 8 0 k value b (omega arith)

at-put_u64_loop :
    (n index k j value : ℕ) (b : Buffer)
    → at (put_u64_loop n index (k + j) value b) k ≡ put_u64_loop n index j value (at b k)
unfolding put_u64_loop
at-put_u64_loop zero index k j value b = refl
at-put_u64_loop (suc n) index k j value b =
    let byte = value / 2 ^ (index * 8) % 256 in
    at-put_u64_loop n (index + 1) k j value (poke (k + j + (7 - index)) byte b)
    ∙ ap (put_u64_loop n (index + 1) j value) (
        ap (λ t. at (poke t byte b) k) (add_assoc k j (7 - index))
        ∙ at-poke k (j + (7 - index)) byte b)

pub at-put_u64 :
    (k j value : ℕ) (b : Buffer) → at (put_u64 (k + j) value b) k ≡ put_u64 j value (at b k)
unfolding put_u64
at-put_u64 k j value b = at-put_u64_loop 8 0 k j value b
