-- ===== src/Sha256/Words.antt =====
-- The block transform of native/proc17_sha256.c, on 32-bit words.
use Prim.Native.Nat.{bit_and, bit_or, bit_xor}
use proc.Base.{ℕ, zero, suc, ◌+◌, ◌-◌, ◌*◌, ◌/◌, ◌%◌, ◌^◌, ◌≤◌, ◌≡◌, refl, ap, arith, List, [], ◌∷◌}
use proc.Memory.{Buffer, at, poke, zeroed, Agree}

abbrev pub u32 : ℕ → ℕ
u32 n = n % 2 ^ 32

-- The eight words of `state`, and the working variables a to h.
pub record Registers : Type 0 where
  pub a : ℕ
  pub b : ℕ
  pub c : ℕ
  pub d : ℕ
  pub e : ℕ
  pub f : ℕ
  pub g : ℕ
  pub h : ℕ

abbrev pub round_constants : List ℕ
round_constants =
    0x428a2f98 ∷ 0x71374491 ∷ 0xb5c0fbcf ∷ 0xe9b5dba5 ∷ 0x3956c25b ∷ 0x59f111f1 ∷ 0x923f82a4
    ∷ 0xab1c5ed5 ∷ 0xd807aa98 ∷ 0x12835b01 ∷ 0x243185be ∷ 0x550c7dc3 ∷ 0x72be5d74 ∷ 0x80deb1fe
    ∷ 0x9bdc06a7 ∷ 0xc19bf174 ∷ 0xe49b69c1 ∷ 0xefbe4786 ∷ 0x0fc19dc6 ∷ 0x240ca1cc ∷ 0x2de92c6f
    ∷ 0x4a7484aa ∷ 0x5cb0a9dc ∷ 0x76f988da ∷ 0x983e5152 ∷ 0xa831c66d ∷ 0xb00327c8 ∷ 0xbf597fc7
    ∷ 0xc6e00bf3 ∷ 0xd5a79147 ∷ 0x06ca6351 ∷ 0x14292967 ∷ 0x27b70a85 ∷ 0x2e1b2138 ∷ 0x4d2c6dfc
    ∷ 0x53380d13 ∷ 0x650a7354 ∷ 0x766a0abb ∷ 0x81c2c92e ∷ 0x92722c85 ∷ 0xa2bfe8a1 ∷ 0xa81a664b
    ∷ 0xc24b8b70 ∷ 0xc76c51a3 ∷ 0xd192e819 ∷ 0xd6990624 ∷ 0xf40e3585 ∷ 0x106aa070 ∷ 0x19a4c116
    ∷ 0x1e376c08 ∷ 0x2748774c ∷ 0x34b0bcb5 ∷ 0x391c0cb3 ∷ 0x4ed8aa4a ∷ 0x5b9cca4f ∷ 0x682e6ff3
    ∷ 0x748f82ee ∷ 0x78a5636f ∷ 0x84c87814 ∷ 0x8cc70208 ∷ 0x90befffa ∷ 0xa4506ceb ∷ 0xbef9a3f7
    ∷ 0xc67178f2 ∷ []

unfoldable pub rotate_right : ℕ → ℕ → ℕ
rotate_right value amount = bit_or (value / 2 ^ amount) (u32 (value * 2 ^ (32 - amount)))

unfoldable pub load_u32 : Buffer → ℕ
load_u32 input =
    bit_or (bit_or (bit_or (input 0 * 2 ^ 24) (input 1 * 2 ^ 16)) (input 2 * 2 ^ 8)) (input 3)

unfoldable pub store_u32 : ℕ → ℕ → Buffer → Buffer
store_u32 k value output = poke (k + 3) (value % 256) (
    poke (k + 2) (value / 2 ^ 8 % 256)
      (poke (k + 1) (value / 2 ^ 16 % 256) (poke k (value / 2 ^ 24 % 256) output)))

-- The first loop: words[index] for the 16 words of the block, from `index` on.
load_words : ℕ → ℕ → Buffer → Buffer → Buffer
load_words zero index block words = words
load_words (suc n) index block words =
    load_words n (index + 1) block (poke index (load_u32 (at block (index * 4))) words)

schedule_word : ℕ → Buffer → ℕ
schedule_word index words =
    let left = words (index - 15) in
    let right = words (index - 2) in
    let sigma0 = bit_xor (bit_xor (rotate_right left 7) (rotate_right left 18)) (left / 2 ^ 3) in
    let sigma1 =
      bit_xor (bit_xor (rotate_right right 17) (rotate_right right 19)) (right / 2 ^ 10) in
    u32 (words (index - 16) + sigma0 + words (index - 7) + sigma1)

-- The second loop, up to words[63].
extend_words : ℕ → ℕ → Buffer → Buffer
extend_words zero index words = words
extend_words (suc n) index words =
    extend_words n (index + 1) (poke index (schedule_word index words) words)

-- One turn of the third loop, for the constant `k` and the word `w`.
round : ℕ → ℕ → Registers → Registers
round k w r =
    let sum1 = bit_xor (bit_xor (rotate_right r.e 6) (rotate_right r.e 11)) (rotate_right r.e 25) in
    let choose = bit_xor (bit_and r.e r.f) (bit_and (2 ^ 32 - 1 - r.e) r.g) in
    let first = u32 (r.h + sum1 + choose + k + w) in
    let sum0 = bit_xor (bit_xor (rotate_right r.a 2) (rotate_right r.a 13)) (rotate_right r.a 22) in
    let majority = bit_xor (bit_xor (bit_and r.a r.b) (bit_and r.a r.c)) (bit_and r.b r.c) in
    let second = u32 (sum0 + majority) in
    record {
      a = u32 (first + second);
      b = r.a;
      c = r.b;
      d = r.c;
      e = u32 (r.d + first);
      f = r.e;
      g = r.f;
      h = r.g;
    }

rounds : List ℕ → Buffer → Registers → Registers
rounds [] words r = r
rounds (k ∷ ks) words r = rounds ks (at words 1) (round k (words 0) r)

add_registers : Registers → Registers → Registers
add_registers s r = record {
  a = u32 (s.a + r.a);
  b = u32 (s.b + r.b);
  c = u32 (s.c + r.c);
  d = u32 (s.d + r.d);
  e = u32 (s.e + r.e);
  f = u32 (s.f + r.f);
  g = u32 (s.g + r.g);
  h = u32 (s.h + r.h);
}

-- What `transform` makes of `state`, from the 64 bytes of `block`.
unfoldable pub compress : Registers → Buffer → Registers
unfolding load_words load_u32 extend_words schedule_word rotate_right rounds round add_registers
compress state block =
    let words = extend_words 48 16 (load_words 16 0 block zeroed) in
    add_registers state (rounds round_constants words state)

load_u32_ext : (x y : Buffer) → Agree 4 x y → load_u32 x ≡ load_u32 y
unfolding load_u32
load_u32_ext x y h = cc (h 0 (omega arith), h 1 (omega arith), h 2 (omega arith), h 3 (omega arith))

load_words_ext :
    (n index : ℕ) (x y words : Buffer)
    → index + n ≤ 16
    → Agree 64 x y
    → load_words n index x words ≡ load_words n index y words
unfolding load_words
load_words_ext zero index x y words fits h = refl
load_words_ext (suc n) index x y words fits h =
    rw
      (load_u32_ext (at x (index * 4)) (at y (index * 4)) (λ i lt. h (index * 4 + i) (omega arith)))
      (load_words_ext n (index + 1) x y _ (omega arith) h)

-- The transform reads the 64 bytes of its block and nothing else.
pub compress_ext : (s : Registers) (x y : Buffer) → Agree 64 x y → compress s x ≡ compress s y
unfolding compress
compress_ext s x y h =
    ap (λ words. add_registers s (rounds round_constants (extend_words 48 16 words) s))
      (load_words_ext 16 0 x y zeroed (omega arith) h)
