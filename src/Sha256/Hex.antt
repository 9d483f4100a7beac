-- ===== src/Sha256/Hex.antt =====
-- native/proc17_sha256.c: the hexadecimal form of a digest.
use proc.Base.{
  ℕ, zero, suc, ◌+◌, ◌-◌, ◌*◌, ◌/◌, ◌%◌, ◌^◌, ◌≤◌, ◌<◌, leb, ◌==◌, ◌!=◌, if◌then◌else◌, ◌&&◌, Bool,
  true, false, Option, none, some, ◌>>=◌, ◌≡◌, ◌≢◌, refl, sym, ap, ◌∙◌, arith, Bool-cases, inl, inr,
  ==→eq, &&_iff, bit_and, bit_or,
}
use proc.Memory.{Buffer, at, poke, IsBytes, Agree}

-- alphabet[k]
alphabet : ℕ → ℕ
alphabet k = if leb k 9 then b'0' + k else b'a' + k - 10

hex_loop : ℕ → ℕ → Buffer → Buffer → Buffer
hex_loop zero index digest output = output
hex_loop (suc n) index digest output = hex_loop n (index + 1) digest (
    poke (index * 2 + 1) (alphabet (bit_and (digest index) 0x0f))
      (poke (index * 2) (alphabet (digest index / 2 ^ 4)) output))

-- `output` holds 65 characters; the last is the terminating zero.
pub hex : Buffer → Buffer → Buffer
hex digest output = poke 64 0 (hex_loop 32 0 digest output)

-- strlen(s) == n, from the n characters before the terminating zero.
strlen_is : ℕ → Buffer → Bool
strlen_is zero s = s 0 == 0
strlen_is (suc n) s = s 0 != 0 && strlen_is n (at s 1)

nibble : ℕ → Option ℕ
nibble current =
    if leb b'0' current && leb current b'9'
    then some (current - b'0')
    else if leb b'a' current && leb current b'f'
    then some (current - b'a' + 10)
    else none

-- The inner loop, for the two characters of one byte.
parse_byte : ℕ → ℕ → Option ℕ
unfolding nibble
parse_byte first second = do
  high ← nibble first
  low ← nibble second
  some (bit_or (bit_or (0 * 2 ^ 4) high * 2 ^ 4) low % 256)

parse_loop : ℕ → ℕ → Buffer → Buffer → Option Buffer
parse_loop zero index input digest = some digest
parse_loop (suc n) index input digest = do
  value ← parse_byte (input (index * 2)) (input (index * 2 + 1))
  parse_loop n (index + 1) input (poke index value digest)

-- `none` is the error -1.
pub parse_hex : Buffer → Buffer → Option Buffer
parse_hex input digest = if strlen_is 64 input then parse_loop 32 0 input digest else none

-- Every byte is read back from its two characters, and no character is a zero.
survives : ℕ → Bool
survives d =
    let first = alphabet (d / 2 ^ 4) in
    let second = alphabet (bit_and d 0x0f) in
    first != 0
    && second != 0
    && elim (parse_byte first second) [ none ↦ false | some value ↦ value == d ]

-- A test passes for every value below a bound.
passes : (ℕ → Bool) → ℕ → Bool
passes test zero = true
passes test (suc bound) = passes test bound && test bound

passes-at :
    (test : ℕ → Bool) (bound value : ℕ)
    → value < bound
    → passes test bound ≡ true
    → test value ≡ true
unfolding passes
passes-at test (suc bound) value below all =
    let (rest, last) = (&&_iff (passes test bound) (test bound)).0 all in
    elim (Bool-cases (value == bound)) [
      | inl same ↦ ap test (==→eq value bound same) ∙ last
      | inr other ↦ passes-at test bound value (ground arith) rest
    ]
passes-at test zero value below all = absurd (omega arith)

survives_table : passes survives 256 ≡ true
unfolding passes survives alphabet parse_byte
survives_table = refl

module _ (d : ℕ) (byte : d < 256) where
  abbrev high : ℕ
  high = alphabet (d / 2 ^ 4)

  abbrev low : ℕ
  low = alphabet (bit_and d 0x0f)

  byte_survives : (high ≢ 0) × (low ≢ 0) × (parse_byte high low ≡ some d)
  unfolding survives
  byte_survives = ground (arith, passes-at survives 256 d byte survives_table)

-- What `hex_loop` has written.
hex_loop_cells :
    (n index : ℕ) (digest output : Buffer)
    → ((i : ℕ)
        → index ≤ i
        → i < index + n
        → (hex_loop n index digest output (i * 2) ≡ alphabet (digest i / 2 ^ 4))
          × (hex_loop n index digest output (i * 2 + 1) ≡ alphabet (bit_and (digest i) 0x0f)))
      × ((j : ℕ) → j < index * 2 → hex_loop n index digest output j ≡ output j)
unfolding hex_loop
hex_loop_cells zero index digest output = ((λ i a b. absurd (omega arith)), (λ j a. refl))
hex_loop_cells (suc n) index digest output =
    let ih = hex_loop_cells n (index + 1) digest (
      poke (index * 2 + 1) (alphabet (bit_and (digest index) 0x0f))
        (poke (index * 2) (alphabet (digest index / 2 ^ 4)) output)) in
    (
      λ i a b. elim (Bool-cases (i == index)) [
        | inl e ↦
            let same : i ≡ index = ==→eq i index e in
            rw same (
              (ih.1 (index * 2) (omega arith) ∙ ground arith),
              (ih.1 (index * 2 + 1) (omega arith) ∙ ground arith),
            )
        | inr ne ↦ ih.0 i (ground arith) (omega arith)
      ],
      λ j a. ih.1 j (omega arith) ∙ ground arith,
    )

-- Where each pair of characters is read as a byte, the loop writes those bytes.
parse_loop_cells :
    (n index : ℕ) (input digest d : Buffer)
    → ((i : ℕ)
        → index ≤ i
        → i < index + n
        → parse_byte (input (i * 2)) (input (i * 2 + 1)) ≡ some (d i))
    → (out : Buffer) × (parse_loop n index input digest ≡ some out)
      × ((i : ℕ) → index ≤ i → i < index + n → out i ≡ d i)
      × ((i : ℕ) → i < index → out i ≡ digest i)
unfolding parse_loop
parse_loop_cells zero index input digest d h =
    (digest, refl, (λ i a b. absurd (omega arith)), (λ i a. refl))
parse_loop_cells (suc n) index input digest d h =
    let (out, run, inside, before) =
      parse_loop_cells n (index + 1) input (poke index (d index) digest) d
        (λ i a b. h i (omega arith) (omega arith)) in
    (
      out,
      rw (h index (omega arith) (omega arith)) run,
      λ i a b. elim (Bool-cases (i == index)) [
        | inl e ↦ rw (==→eq i index e) (before index (omega arith) ∙ ground arith)
        | inr ne ↦ inside i (ground arith) (omega arith)
      ],
      λ i a. before i (omega arith) ∙ ground arith,
    )

strlen_is_cells :
    (n : ℕ) (s : Buffer) → ((i : ℕ) → i < n → s i ≢ 0) → s n ≡ 0 → strlen_is n s ≡ true
unfolding strlen_is
strlen_is_cells zero s h z = ground arith
strlen_is_cells (suc n) s h z =
    let rest = strlen_is_cells n (at s 1) (λ i lt. h (1 + i) (omega arith)) (rw (back n) z) in
    ground (arith, h 0 (omega arith))
  where
    back : (n : ℕ) → 1 + n ≡ suc n
    back n = omega arith

-- The characters of the text that `hex` makes.
module _ (d output : Buffer) (i : ℕ) (within : i < 32) where
  text_high : hex d output (i * 2) ≡ alphabet (d i / 2 ^ 4)
  unfolding hex
  text_high = ground (arith, ((hex_loop_cells 32 0 d output).0 i (omega arith) (omega arith)).0)

  text_low : hex d output (i * 2 + 1) ≡ alphabet (bit_and (d i) 0x0f)
  unfolding hex
  text_low = ground (arith, ((hex_loop_cells 32 0 d output).0 i (omega arith) (omega arith)).1)

text-ne-zero : (d output : Buffer) → IsBytes d → (i : ℕ) → i < 64 → hex d output i ≢ 0
text-ne-zero d output bytes i lt =
    let half : i / 2 < 32 = omega arith in
    let fine = byte_survives (d (i / 2)) (bytes (i / 2)) in
    elim (Bool-cases (i % 2 == 0)) [
      | inl even ↦
          let place : i ≡ i / 2 * 2 = omega (arith, ==→eq (i % 2) 0 even) in
          λ z. fine.0 (sym (text_high d output (i / 2) half) ∙ sym (ap (hex d output) place) ∙ z)
      | inr odd ↦
          let place : i ≡ i / 2 * 2 + 1 = ground arith in
          λ z. fine.1 (sym (text_low d output (i / 2) half) ∙ sym (ap (hex d output) place) ∙ z)
    ]

-- Reading the hexadecimal form of a digest gives the digest back.
pub parse_hex-hex :
    (d output digest : Buffer)
    → IsBytes d
    → (out : Buffer) × (parse_hex (hex d output) digest ≡ some out) × Agree 32 out d
unfolding parse_hex
parse_hex-hex d output digest bytes =
    let text = hex d output in
    let (out, run, inside, before) = parse_loop_cells 32 0 text digest d (λ i a b.
      rw (text_high d output i b, text_low d output i b) (byte_survives (d i) (bytes i)).2) in
    let ends : text 64 ≡ 0 = unfold hex in refl in
    (
      out,
      rw (strlen_is_cells 64 text (text-ne-zero d output bytes) ends) run,
      λ i lt. inside i (omega arith) (omega arith),
    )
