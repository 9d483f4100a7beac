-- ===== src/Wire/Frame/Canonical.antt =====
-- native/proc17_qa_wire.h: `decode` accepts no frame but those that `encode` makes.
use proc.Base.{
  ℕ, ◌+◌, ◌-◌, ◌≤◌, ◌<◌, true, some, ltb, ◌≡◌, refl, sym, ap, ◌∙◌, arith, Bool-cases, inl, inr,
  ltb→lt,
}
use proc.Memory.{
  Buffer, IsBytes, at, copy, zeroed, mem_eq, mem_eq-Agree, Agree, Agree-suc, Agree-zero,
  copy_inside,
}
use proc.Sha256.{sha256_bytes}
use proc.Sha256.Padding.{sha256_bytes_ext}
use proc.Wire.Integers.{put_u16, put_u32, get_u16, get_u32, get_u16-sum, get_u32-sum}
use proc.Wire.Frame.{View, kind_known, magic, header, encode, mismatch_loop, decode}
use proc.Wire.Frame.RoundTrip.{
  mismatch_loop-Agree, body, frame, frame-body, covered-header, covered-payload, encode-frame,
}

-- What the tests of `decode` have established of an accepted frame.
pub record Accepted (f : Buffer) (n : ℕ) (v : View) : Type 0 where
  pub is_magic : mem_eq 8 f magic ≡ true
  pub version : get_u16 (at f 8) ≡ 0
  pub kind : get_u16 (at f 10) ≡ v.kind
  pub known : kind_known v.kind ≡ true
  pub size : get_u32 (at f 12) ≡ v.payload_bytes
  pub within : v.payload_bytes ≤ 4016
  pub total : n ≡ 80 + v.payload_bytes
  pub digest :
      mismatch_loop 32
        (sha256_bytes f (48 + v.payload_bytes) zeroed)
        (at f (48 + v.payload_bytes))
        0
      ≡ 0
  pub nonce : v.nonce ≡ at f 16
  pub payload : v.payload ≡ at f 48

pub decode-Accepted : (f : Buffer) (n : ℕ) {v : View} → decode f n ≡ some v → Accepted f n v
unfolding decode
decode-Accepted f n {v} h = ground arith

module _ (f : Buffer) (n : ℕ) (v : View) (output : Buffer) (bytes : IsBytes f)
    (a : Accepted f n v) where
  abbrev written : Buffer
  written = header v.kind v.nonce v.payload_bytes output

  fields-same : Agree 8 (at written 8) (at f 8)
  unfolding header put_u16 put_u32
  fields-same =
      let version = get_u16-sum (at f 8) (bytes 8) (bytes 9) in
      let kind = get_u16-sum (at f 10) (bytes 10) (bytes 11) in
      let size = get_u32-sum (at f 12) (bytes 12) (bytes 13) (bytes 14) (bytes 15) in
      Agree-suc 7 _ _ (omega (arith, a.version, bytes 9)) (
        Agree-suc 6 _ _ (omega (arith, a.version, bytes 9)) (
          Agree-suc 5 _ _ (omega (arith, a.kind, bytes 11)) (
            Agree-suc 4 _ _ (omega (arith, a.kind, bytes 11)) (
              Agree-suc 3 _ _ (omega (arith, a.size, bytes 13, bytes 14, bytes 15)) (
                Agree-suc 2 _ _ (omega (arith, a.size, bytes 13, bytes 14, bytes 15)) (
                  Agree-suc 1 _ _ (omega (arith, a.size, bytes 13, bytes 14, bytes 15)) (
                    Agree-suc 0 _ _ (omega (arith, a.size, bytes 13, bytes 14, bytes 15))
                      (Agree-zero _ _))))))))

  magic-same : Agree 8 written f
  unfolding header put_u16 put_u32 mem_eq
  magic-same i lt =
      mem_eq-Agree 8 written magic refl i lt ∙ sym (mem_eq-Agree 8 f magic a.is_magic i lt)

  nonce-same : Agree 32 (at written 16) (at f 16)
  unfolding header
  nonce-same i lt =
      copy_inside 16 i v.nonce 32
        (put_u32 12 v.payload_bytes (put_u16 10 v.kind (put_u16 8 0 (copy 0 magic 8 output)))) lt
      ∙ ap (λ (b : Buffer). b i) a.nonce

  -- The fixed fields, cell by cell.
  header-same : (i : ℕ) → i < 48 → written i ≡ f i
  header-same i lt = elim (Bool-cases (ltb i 8)) [
    | inl low ↦ magic-same i (ltb→lt i 8 low)
    | inr high ↦ elim (Bool-cases (ltb i 16)) [
      | inl mid ↦
          let e : i ≡ 8 + (i - 8) = ground arith in
          ap written e ∙ fields-same (i - 8) (ground arith) ∙ sym (ap f e)
      | inr top ↦
          let e : i ≡ 16 + (i - 16) = ground arith in
          ap written e ∙ nonce-same (i - 16) (ground arith) ∙ sym (ap f e)
    ]
  ]

  body-same : Agree (48 + v.payload_bytes) (body v.kind v.nonce v.payload v.payload_bytes output) f
  body-same i lt = elim (Bool-cases (ltb i 48)) [
    | inl low ↦
        covered-header v.kind v.nonce v.payload v.payload_bytes output i (ltb→lt i 48 low)
        ∙ header-same i (ltb→lt i 48 low)
    | inr high ↦
        let e : i ≡ 48 + (i - 48) = ground arith in
        ap (body v.kind v.nonce v.payload v.payload_bytes output) e
        ∙ covered-payload v.kind v.nonce v.payload v.payload_bytes output (i - 48) (ground arith)
        ∙ ap (λ (b : Buffer). b (i - 48)) a.payload
        ∙ sym (ap f e)
  ]

  frame-same : Agree n (frame v.kind v.nonce v.payload v.payload_bytes output) f
  frame-same i lt = elim (Bool-cases (ltb i (48 + v.payload_bytes))) [
    | inl low ↦
        frame-body v.kind v.nonce v.payload v.payload_bytes output i (ltb→lt _ _ low)
        ∙ body-same i (ltb→lt _ _ low)
    | inr high ↦
        let before = 48 + v.payload_bytes in
        let k = i - before in
        let e : i ≡ before + k = ground arith in
        let small : k < 32 = ground (arith, a.total) in
        ap (frame v.kind v.nonce v.payload v.payload_bytes output) e
        ∙ copy_inside before k
            (sha256_bytes (body v.kind v.nonce v.payload v.payload_bytes output) before zeroed) 32
            (body v.kind v.nonce v.payload v.payload_bytes output) small
        ∙ ap (λ (d : Buffer). d k)
            (sha256_bytes_ext (body v.kind v.nonce v.payload v.payload_bytes output) f before zeroed
              body-same)
        ∙ mismatch_loop-Agree 32 (sha256_bytes f before zeroed) (at f before) 0 a.digest k small
        ∙ sym (ap f e)
  ]

-- A frame that `decode` accepts is the one that `encode` makes of its view.
pub encode-decode :
    (f : Buffer) (n : ℕ) {v : View} (output : Buffer)
    → IsBytes f
    → decode f n ≡ some v
    → (frame : Buffer) × (encode v.kind v.nonce v.payload v.payload_bytes output ≡ some (frame, n))
      × Agree n frame f
encode-decode f n {v} output bytes h =
    let a = decode-Accepted f n h in
    (
      frame v.kind v.nonce v.payload v.payload_bytes output,
      encode-frame v.kind v.nonce v.payload v.payload_bytes output a.known a.within
          ∙ ap (λ (k : ℕ). some (frame v.kind v.nonce v.payload v.payload_bytes output, k)) size,
      frame-same f n v output bytes a,
    )
  where
    size : 48 + v.payload_bytes + 32 ≡ n
    size = omega (arith, (decode-Accepted f n h).total)
