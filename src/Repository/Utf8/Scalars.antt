-- ===== src/Repository/Utf8/Scalars.antt =====
-- native/proc17_repository_fs.c: the texts that are accepted are the encodings of scalar values.
use mathlib.Core.Bool.{false≢true}
use proc.Base.{
  ℕ, zero, suc, ◌+◌, ◌-◌, ◌*◌, ◌/◌, ◌%◌, ◌<◌, ◌≤◌, true, false, ◌==◌, ltb, if◌then◌else◌, List, [],
  ◌∷◌, ◌++◌, length, drop, All, length-append, ◌≡◌, ◌≢◌, ◌↔◌, ◌⊎◌, inl, inr, refl, ap, ◌∙◌, arith,
  Bool-cases, ==→eq, ne→==,
}
use proc.Repository.Utf8.{
  byte_at, two_valid, three_valid, four_valid, sequence_bytes, utf8_loop, valid_utf8_text,
}

-- A Unicode scalar value other than zero.
abbrev pub IsScalar : ℕ → Type 0
IsScalar c = (0 < c) × ((c < 0xd800) ⊎ (0xe000 ≤ c) × (c ≤ 0x10ffff))

-- UTF-8, as the standard defines it.
unfoldable pub encode : ℕ → List ℕ
encode c =
    if ltb c 0x80
    then c ∷ []
    else if ltb c 0x800
    then (0xc0 + c / 64) ∷ (0x80 + c % 64) ∷ []
    else if ltb c 0x10000
    then (0xe0 + c / 4096) ∷ (0x80 + c / 64 % 64) ∷ (0x80 + c % 64) ∷ []
    else (0xf0 + c / 262144) ∷ (0x80 + c / 4096 % 64) ∷ (0x80 + c / 64 % 64) ∷ (0x80 + c % 64) ∷ []

unfoldable pub encode_all : List ℕ → List ℕ
encode_all [] = []
encode_all (c ∷ cs) = encode c ++ encode_all cs

front_one : (v : List ℕ) → 1 ≤ length v → v ≡ byte_at v 0 ∷ drop 1 v
front_one [] h = absurd (omega arith)
front_one (a ∷ v) h = refl

front_two : (v : List ℕ) → 2 ≤ length v → v ≡ byte_at v 0 ∷ byte_at v 1 ∷ drop 2 v
front_two [] h = absurd (omega arith)
front_two (a ∷ v) h = ap (◌∷◌ a) (front_one v (omega arith))

front_three : (v : List ℕ) → 3 ≤ length v → v ≡ byte_at v 0 ∷ byte_at v 1 ∷ byte_at v 2 ∷ drop 3 v
front_three [] h = absurd (omega arith)
front_three (a ∷ v) h = ap (◌∷◌ a) (front_two v (omega arith))

front_four :
    (v : List ℕ)
    → 4 ≤ length v
    → v ≡ byte_at v 0 ∷ byte_at v 1 ∷ byte_at v 2 ∷ byte_at v 3 ∷ drop 4 v
front_four [] h = absurd (omega arith)
front_four (a ∷ v) h = ap (◌∷◌ a) (front_three v (omega arith))

-- The bytes of one sequence are the encoding of a scalar value.
one_encoded : (a : ℕ) → 0 < a → a ≤ 0x7f → IsScalar a × (encode a ≡ a ∷ [])
unfolding encode
one_encoded a h0 h1 = ((h0, inl (omega arith)), ground arith)

two_encoded :
    (a b : ℕ)
    → 0xc2 ≤ a
    → a ≤ 0xdf
    → 0x80 ≤ b
    → b ≤ 0xbf
    → IsScalar ((a - 0xc0) * 64 + (b - 0x80)) × (encode ((a - 0xc0) * 64 + (b - 0x80)) ≡ a ∷ b ∷ [])
unfolding encode
two_encoded a b a0 a1 b0 b1 = ((omega arith, inl (omega arith)), ground arith)

three_encoded :
    (a b c : ℕ)
    → 0xe0 ≤ a
    → a ≤ 0xef
    → 0x80 ≤ b
    → b ≤ 0xbf
    → 0x80 ≤ c
    → c ≤ 0xbf
    → (a ≡ 0xe0 → 0xa0 ≤ b)
    → (a ≡ 0xed → b ≤ 0x9f)
    → IsScalar ((a - 0xe0) * 4096 + (b - 0x80) * 64 + (c - 0x80))
      × (encode ((a - 0xe0) * 4096 + (b - 0x80) * 64 + (c - 0x80)) ≡ a ∷ b ∷ c ∷ [])
unfolding encode
three_encoded a b c a0 a1 b0 b1 c0 c1 e d = ((ground arith, ground arith), ground arith)

four_encoded :
    (a b c d : ℕ)
    → 0xf0 ≤ a
    → a ≤ 0xf4
    → 0x80 ≤ b
    → b ≤ 0xbf
    → 0x80 ≤ c
    → c ≤ 0xbf
    → 0x80 ≤ d
    → d ≤ 0xbf
    → (a ≡ 0xf0 → 0x90 ≤ b)
    → (a ≡ 0xf4 → b ≤ 0x8f)
    → IsScalar ((a - 0xf0) * 262144 + (b - 0x80) * 4096 + (c - 0x80) * 64 + (d - 0x80))
      × (encode ((a - 0xf0) * 262144 + (b - 0x80) * 4096 + (c - 0x80) * 64 + (d - 0x80))
          ≡ a ∷ b ∷ c ∷ d ∷ [])
unfolding encode
four_encoded a b c d a0 a1 b0 b1 c0 c1 d0 d1 e f = ((ground arith, ground arith), ground arith)

two_valid_parts :
    (v : List ℕ) → two_valid v ≡ true → (2 ≤ length v) × (0x80 ≤ byte_at v 1) × (byte_at v 1 ≤ 0xbf)
unfolding two_valid
two_valid_parts v h = ground arith

three_valid_parts :
    (a : ℕ) (v : List ℕ)
    → three_valid a v ≡ true
    → (3 ≤ length v)
      × (0x80 ≤ byte_at v 1)
      × (byte_at v 1 ≤ 0xbf)
      × (0x80 ≤ byte_at v 2)
      × (byte_at v 2 ≤ 0xbf)
      × (a ≡ 0xe0 → 0xa0 ≤ byte_at v 1)
      × (a ≡ 0xed → byte_at v 1 ≤ 0x9f)
unfolding three_valid
three_valid_parts a v h = ground arith

four_valid_parts :
    (a : ℕ) (v : List ℕ)
    → four_valid a v ≡ true
    → (4 ≤ length v)
      × (0x80 ≤ byte_at v 1)
      × (byte_at v 1 ≤ 0xbf)
      × (0x80 ≤ byte_at v 2)
      × (byte_at v 2 ≤ 0xbf)
      × (0x80 ≤ byte_at v 3)
      × (byte_at v 3 ≤ 0xbf)
      × (a ≡ 0xf0 → 0x90 ≤ byte_at v 1)
      × (a ≡ 0xf4 → byte_at v 1 ≤ 0x8f)
unfolding four_valid
four_valid_parts a v h = ground arith

-- What the first byte says of a sequence that is taken.
sequence_cases :
    (v : List ℕ)
    → sequence_bytes v ≢ 0
    → (sequence_bytes v ≡ 1) × (0 < byte_at v 0) × (byte_at v 0 ≤ 0x7f)
      ⊎ (sequence_bytes v ≡ 2) × (0xc2 ≤ byte_at v 0) × (byte_at v 0 ≤ 0xdf) × (two_valid v ≡ true)
      ⊎ (sequence_bytes v ≡ 3)
        × (0xe0 ≤ byte_at v 0)
        × (byte_at v 0 ≤ 0xef)
        × (three_valid (byte_at v 0) v ≡ true)
      ⊎ (sequence_bytes v ≡ 4)
        × (0xf0 ≤ byte_at v 0)
        × (byte_at v 0 ≤ 0xf4)
        × (four_valid (byte_at v 0) v ≡ true)
unfolding sequence_bytes
sequence_cases v h = ground arith

byte_at-some : (v : List ℕ) → 0 < byte_at v 0 → 1 ≤ length v
byte_at-some [] h = absurd (omega arith)
byte_at-some (a ∷ v) h = omega arith

-- A sequence that is taken is the encoding of a scalar value.
sequence-encoded :
    (v : List ℕ)
    → sequence_bytes v ≢ 0
    → (c : ℕ) × IsScalar c × (v ≡ encode c ++ drop (sequence_bytes v) v)
sequence-encoded v h = elim (sequence_cases v h) [
  | inl (size, a0, a1) ↦
      let (scalar, bytes) = one_encoded (byte_at v 0) a0 a1 in
      (byte_at v 0, scalar, rw (size, bytes) (front_one v (byte_at-some v a0)))
  | inr (inl (size, a0, a1, valid)) ↦
      let p = two_valid_parts v valid in
      let (scalar, bytes) = two_encoded (byte_at v 0) (byte_at v 1) a0 a1 p.1 p.2 in
      (_, scalar, rw (size, bytes) (front_two v p.0))
  | inr (inr (inl (size, a0, a1, valid))) ↦
      let p = three_valid_parts (byte_at v 0) v valid in
      let (scalar, bytes) =
        three_encoded (byte_at v 0) (byte_at v 1) (byte_at v 2) a0 a1 p.1 p.2 p.3 p.4 p.5 p.6 in
      (_, scalar, rw (size, bytes) (front_three v p.0))
  | inr (inr (inr (size, a0, a1, valid))) ↦
      let p = four_valid_parts (byte_at v 0) v valid in
      let (scalar, bytes) =
        four_encoded (byte_at v 0) (byte_at v 1) (byte_at v 2) (byte_at v 3) a0 a1 p.1 p.2 p.3 p.4
          p.5 p.6 p.7 p.8 in
      (_, scalar, rw (size, bytes) (front_four v p.0))
]

taken_one : (a : ℕ) (rest : List ℕ) → 0 < a → a ≤ 0x7f → sequence_bytes (a ∷ rest) ≡ 1
unfolding sequence_bytes
taken_one a rest a0 a1 = ground arith

taken_two :
    (a b : ℕ) (rest : List ℕ)
    → 0xc2 ≤ a
    → a ≤ 0xdf
    → 0x80 ≤ b
    → b ≤ 0xbf
    → sequence_bytes (a ∷ b ∷ rest) ≡ 2
unfolding sequence_bytes two_valid
taken_two a b rest a0 a1 b0 b1 = ground arith

taken_three :
    (a b c : ℕ) (rest : List ℕ)
    → 0xe0 ≤ a
    → a ≤ 0xef
    → 0x80 ≤ b
    → b ≤ 0xbf
    → 0x80 ≤ c
    → c ≤ 0xbf
    → (a ≡ 0xe0 → 0xa0 ≤ b)
    → (a ≡ 0xed → b ≤ 0x9f)
    → sequence_bytes (a ∷ b ∷ c ∷ rest) ≡ 3
unfolding sequence_bytes three_valid
taken_three a b c rest a0 a1 b0 b1 c0 c1 e d = ground arith

taken_four :
    (a b c d : ℕ) (rest : List ℕ)
    → 0xf0 ≤ a
    → a ≤ 0xf4
    → 0x80 ≤ b
    → b ≤ 0xbf
    → 0x80 ≤ c
    → c ≤ 0xbf
    → 0x80 ≤ d
    → d ≤ 0xbf
    → (a ≡ 0xf0 → 0x90 ≤ b)
    → (a ≡ 0xf4 → b ≤ 0x8f)
    → sequence_bytes (a ∷ b ∷ c ∷ d ∷ rest) ≡ 4
unfolding sequence_bytes four_valid
taken_four a b c d rest a0 a1 b0 b1 c0 c1 d0 d1 e f = ground arith

encode-cases :
    (c : ℕ)
    → (c < 0x80) × (encode c ≡ c ∷ [])
      ⊎ (0x80 ≤ c) × (c < 0x800) × (encode c ≡ (0xc0 + c / 64) ∷ (0x80 + c % 64) ∷ [])
      ⊎ (0x800 ≤ c)
        × (c < 0x10000)
        × (encode c ≡ (0xe0 + c / 4096) ∷ (0x80 + c / 64 % 64) ∷ (0x80 + c % 64) ∷ [])
      ⊎ (0x10000 ≤ c)
        × (encode c
            ≡ (0xf0 + c / 262144)
              ∷ (0x80 + c / 4096 % 64)
              ∷ (0x80 + c / 64 % 64)
              ∷ (0x80 + c % 64)
              ∷ [])
unfolding encode
encode-cases c = ground arith

-- The encoding of a scalar value is taken, with nothing of what follows.
sequence_bytes-encode :
    (c : ℕ) (rest : List ℕ)
    → IsScalar c
    → (sequence_bytes (encode c ++ rest) ≡ length (encode c)) × (0 < length (encode c))
sequence_bytes-encode c rest (some_value, range) = elim (encode-cases c) [
  | inl (c1, e) ↦ rw e (taken_one c rest some_value (omega arith), omega arith)
  | inr (inl (c0, c1, e)) ↦ rw e (
    taken_two (0xc0 + c / 64) (0x80 + c % 64) rest (omega arith) (omega arith) (omega arith)
        (omega arith),
    omega arith,
  )
  | inr (inr (inl (c0, c1, e))) ↦ rw e (
    taken_three (0xe0 + c / 4096) (0x80 + c / 64 % 64) (0x80 + c % 64) rest (omega arith)
        (omega arith) (omega arith) (omega arith) (omega arith) (omega arith) (λ z. omega arith)
        (λ z. omega arith),
    omega arith,
  )
  | inr (inr (inr (c0, e))) ↦ rw e (
    taken_four (0xf0 + c / 262144) (0x80 + c / 4096 % 64) (0x80 + c / 64 % 64) (0x80 + c % 64) rest
        (omega arith) (omega arith) (omega arith) (omega arith) (omega arith) (omega arith)
        (omega arith) (omega arith) (λ z. omega arith) (λ z. omega arith),
    omega arith,
  )
]

drop-append : (xs ys : List ℕ) → drop (length xs) (xs ++ ys) ≡ ys
drop-append [] ys = refl
drop-append (x ∷ xs) ys = drop-append xs ys

length-zero : (xs : List ℕ) → length xs ≡ 0 → xs ≡ []
length-zero [] h = refl
length-zero (x ∷ xs) h = absurd (omega arith)

utf8_loop_sound :
    (turns : ℕ) (v : List ℕ)
    → utf8_loop turns v ≡ true
    → (cs : List ℕ) × (v ≡ encode_all cs) × All IsScalar cs
unfolding utf8_loop encode_all
utf8_loop_sound zero v h = ([], length-zero v (==→eq _ 0 h), tt)
utf8_loop_sound (suc turns) v h = elim (Bool-cases (length v == 0)) [
  | inl none_left ↦ ([], length-zero v (==→eq _ 0 none_left), tt)
  | inr some_left ↦ elim (Bool-cases (sequence_bytes v == 0)) [
    | inl refused ↦ absurd (false≢true (rw (some_left, refused) at h))
    | inr taken ↦
        let (c, scalar, bytes) = sequence-encoded v (λ z. ground arith) in
        let (cs, rest, scalars) =
          utf8_loop_sound turns (drop (sequence_bytes v) v) (rw (some_left, taken) at h) in
        (c ∷ cs, bytes ∙ ap (◌++◌ (encode c)) rest, (scalar, scalars))
  ]
]

utf8_loop_complete :
    (turns : ℕ) (cs : List ℕ)
    → length (encode_all cs) ≤ turns
    → All IsScalar cs
    → utf8_loop turns (encode_all cs) ≡ true
unfolding utf8_loop encode_all
utf8_loop_complete zero [] h s = refl
utf8_loop_complete (suc turns) [] h s = refl
utf8_loop_complete zero (c ∷ cs) h (scalar, scalars) =
    let (size, some_bytes) = sequence_bytes-encode c (encode_all cs) scalar in
    absurd (omega (arith, some_bytes, length-append (encode c) (encode_all cs)))
utf8_loop_complete (suc turns) (c ∷ cs) h (scalar, scalars) =
    let (size, some_bytes) = sequence_bytes-encode c (encode_all cs) scalar in
    let v = encode c ++ encode_all cs in
    let count = length-append (encode c) (encode_all cs) in
    let some_left : (length v == 0) ≡ false =
      ne→== _ 0 (λ z. absurd (omega (arith, some_bytes, count))) in
    let taken : (sequence_bytes v == 0) ≡ false =
      ne→== _ 0 (λ z. absurd (omega (arith, some_bytes, size))) in
    let rest : drop (sequence_bytes v) v ≡ encode_all cs =
      ap (λ k. drop k v) size ∙ drop-append (encode c) (encode_all cs) in
    rw (some_left, taken, rest)
      (utf8_loop_complete turns cs (omega (arith, some_bytes, count)) scalars)

-- The texts that are accepted are exactly the concatenated encodings of Unicode scalar values
-- other than zero.
pub valid_utf8_text_iff :
    (value : List ℕ)
    → (valid_utf8_text value ≡ true) ↔ (cs : List ℕ) × (value ≡ encode_all cs) × All IsScalar cs
unfolding valid_utf8_text
valid_utf8_text_iff value = (
  λ h. utf8_loop_sound (length value) value h,
  λ h. rw h.1 (utf8_loop_complete (length (encode_all h.0)) h.0 (omega arith) h.2),
)
