-- ===== src/Wire/Frame/RoundTrip.antt =====
-- native/proc17_qa_wire.h: a frame that `encode` makes is one that `decode` takes apart.
use proc.Base.{
  ℕ, zero, suc, ◌+◌, ◌^◌, ◌≤◌, ◌<◌, true, some, bit_or, bit_xor, ◌≡◌, refl, sym, ap, ◌∙◌, arith,
  inl, lt→ltb, le→leb, eq→==,
}
use proc.Base.Bits.{bit_or-eq-zero, bit_xor-eq-zero, bit_xor_self, zero-bit_or}
use proc.Memory.{
  Buffer, at, copy, zeroed, mem_eq, mem_eq-Agree, Agree, Agree-mem_eq, copy_inside, copy_outside,
}
use proc.Sha256.{sha256_bytes}
use proc.Sha256.Padding.{sha256_bytes_ext}
use proc.Wire.Integers.{
  put_u16, put_u32, get_u16, get_u32, get_u16_ext, get_u32_ext, get_u16-put, get_u32-put,
}
use proc.Wire.Frame.{View, kind_known, magic, header, covered, encode, mismatch_loop, decode}

pub mismatch_loop-zero : (n : ℕ) (x y : Buffer) → Agree n x y → mismatch_loop n x y 0 ≡ 0
unfolding mismatch_loop
mismatch_loop-zero zero x y h = refl
mismatch_loop-zero (suc n) x y h =
    ap (mismatch_loop n (at x 1) (at y 1)) same
    ∙ mismatch_loop-zero n (at x 1) (at y 1) (λ i lt. h (1 + i) (omega arith))
  where
    same : bit_or 0 (bit_xor (x 0) (y 0)) ≡ 0
    same =
        zero-bit_or (bit_xor (x 0) (y 0))
        ∙ ap (bit_xor (x 0)) (sym (h 0 (omega arith)))
        ∙ bit_xor_self (x 0)

mismatch_loop-acc : (n : ℕ) (x y : Buffer) (m : ℕ) → mismatch_loop n x y m ≡ 0 → m ≡ 0
unfolding mismatch_loop
mismatch_loop-acc zero x y m h = h
mismatch_loop-acc (suc n) x y m h =
    (bit_or-eq-zero m (bit_xor (x 0) (y 0)) (mismatch_loop-acc n (at x 1) (at y 1) _ h)).0

pub mismatch_loop-Agree : (n : ℕ) (x y : Buffer) (m : ℕ) → mismatch_loop n x y m ≡ 0 → Agree n x y
unfolding mismatch_loop
mismatch_loop-Agree zero x y m h i lt = absurd (omega arith)
mismatch_loop-Agree (suc n) x y m h zero lt =
    bit_xor-eq-zero (x 0) (y 0)
      (bit_or-eq-zero m (bit_xor (x 0) (y 0)) (mismatch_loop-acc n (at x 1) (at y 1) _ h)).1
mismatch_loop-Agree (suc n) x y m h (suc i) lt =
    ap x (next i)
    ∙ mismatch_loop-Agree n (at x 1) (at y 1) _ h i (omega arith)
    ∙ sym (ap y (next i))
  where
    next : (i : ℕ) → suc i ≡ 1 + i
    next i = omega arith

pub kind_known-lt : (kind : ℕ) → kind_known kind ≡ true → kind < 2 ^ 16
unfolding kind_known
kind_known-lt kind h = ground arith

-- What `decode` makes of a frame that passes all its tests.
pub decode_accepts :
    (f : Buffer) (n kind payload_bytes : ℕ)
    → n ≡ 80 + payload_bytes
    → payload_bytes ≤ 4016
    → mem_eq 8 f magic ≡ true
    → get_u16 (at f 8) ≡ 0
    → get_u16 (at f 10) ≡ kind
    → get_u32 (at f 12) ≡ payload_bytes
    → kind_known kind ≡ true
    → mismatch_loop 32 (sha256_bytes f (48 + payload_bytes) zeroed) (at f (48 + payload_bytes)) 0
      ≡ 0
    → decode f n
      ≡ some (record {
        kind = kind;
        nonce = at f 16;
        payload = at f 48;
        payload_bytes = payload_bytes;
      })
unfolding decode
decode_accepts f n kind payload_bytes total le m version k p known digest =
    rw
      (
        le→leb 80 n (omega arith),
        le→leb n 4096 (omega arith),
        m,
        version,
        k,
        p,
        known,
        le→leb payload_bytes 4016 le,
        eq→== n (80 + payload_bytes) total,
        digest,
      )
      refl

module _ (kind : ℕ) (nonce payload : Buffer) (payload_bytes : ℕ) (output : Buffer) where
  abbrev pub body : Buffer
  body = covered kind nonce payload payload_bytes output

  abbrev pub frame : Buffer
  frame = copy (48 + payload_bytes) (sha256_bytes body (48 + payload_bytes) zeroed) 32 body

  pub covered-header : (i : ℕ) → i < 48 → body i ≡ header kind nonce payload_bytes output i
  unfolding covered
  covered-header i lt = ground arith

  pub covered-payload : (i : ℕ) → i < payload_bytes → body (48 + i) ≡ payload i
  unfolding covered
  covered-payload i lt =
      rw (lt→ltb 0 payload_bytes (omega arith))
        (copy_inside 48 i payload payload_bytes (header kind nonce payload_bytes output) lt)

  pub frame-body : (i : ℕ) → i < 48 + payload_bytes → frame i ≡ body i
  frame-body i lt =
      copy_outside (48 + payload_bytes) i (sha256_bytes body (48 + payload_bytes) zeroed) 32 body
        (inl lt)

  pub frame-header : (i : ℕ) → i < 48 → frame i ≡ header kind nonce payload_bytes output i
  frame-header i lt = frame-body i (omega arith) ∙ covered-header i lt

  frame_digest :
      Agree 32 (sha256_bytes frame (48 + payload_bytes) zeroed) (at frame (48 + payload_bytes))
  frame_digest i lt =
      ap (λ (d : Buffer). d i) (sha256_bytes_ext frame body (48 + payload_bytes) zeroed frame-body)
      ∙ sym (
          copy_inside (48 + payload_bytes) i (sha256_bytes body (48 + payload_bytes) zeroed) 32 body
            lt)

  pub encode-frame :
      kind_known kind ≡ true
      → payload_bytes ≤ 4016
      → encode kind nonce payload payload_bytes output ≡ some (frame, 48 + payload_bytes + 32)
  unfolding encode
  encode-frame known le = rw (known, le→leb payload_bytes 4016 le)

  frame-magic : mem_eq 8 frame magic ≡ true
  unfolding header put_u16 put_u32 mem_eq
  frame-magic = Agree-mem_eq 8 frame magic λ i lt.
      frame-header i (omega arith)
      ∙ mem_eq-Agree 8 (header kind nonce payload_bytes output) magic refl i lt

  frame_version : get_u16 (at frame 8) ≡ 0
  unfolding header put_u16 put_u32 get_u16
  frame_version =
      get_u16_ext (at frame 8) (at (header kind nonce payload_bytes output) 8)
        (λ i lt. frame-header (8 + i) (omega arith))
      ∙ get_u16-put 0 zeroed (omega arith)

  frame_kind : kind < 2 ^ 16 → get_u16 (at frame 10) ≡ kind
  unfolding header put_u16 put_u32 get_u16
  frame_kind h =
      get_u16_ext (at frame 10) (at (header kind nonce payload_bytes output) 10)
        (λ i lt. frame-header (10 + i) (omega arith))
      ∙ get_u16-put kind zeroed h

  frame_payload_bytes : payload_bytes < 2 ^ 32 → get_u32 (at frame 12) ≡ payload_bytes
  unfolding header put_u16 put_u32 get_u32
  frame_payload_bytes h =
      get_u32_ext (at frame 12) (at (header kind nonce payload_bytes output) 12)
        (λ i lt. frame-header (12 + i) (omega arith))
      ∙ get_u32-put payload_bytes zeroed h

  frame_nonce : Agree 32 (at frame 16) nonce
  unfolding header
  frame_nonce i lt =
      frame-header (16 + i) (omega arith)
      ∙ copy_inside 16 i nonce 32
          (put_u32 12 payload_bytes (put_u16 10 kind (put_u16 8 0 (copy 0 magic 8 output)))) lt

  frame_payload : Agree payload_bytes (at frame 48) payload
  frame_payload i lt = frame-body (48 + i) (omega arith) ∙ covered-payload i lt

  abbrev pub sent : View
  sent = record {
    kind = kind;
    nonce = at frame 16;
    payload = at frame 48;
    payload_bytes = payload_bytes;
  }

  pub decode-frame :
      kind_known kind ≡ true
      → payload_bytes ≤ 4016
      → decode frame (48 + payload_bytes + 32) ≡ some sent
  decode-frame known le =
      decode_accepts frame (48 + payload_bytes + 32) kind payload_bytes (omega arith) le frame-magic
        frame_version (frame_kind (kind_known-lt kind known)) (frame_payload_bytes (omega arith))
        known (mismatch_loop-zero 32 _ _ frame_digest)

-- The frame of a payload is accepted, and its parts are what was sent.
pub decode-encode :
    (kind : ℕ) (nonce payload : Buffer) (payload_bytes : ℕ) (output : Buffer)
    → kind_known kind ≡ true
    → payload_bytes ≤ 4016
    → (frame : Buffer) × (v : View) × (encode kind nonce payload payload_bytes output
        ≡ some (frame, 48 + payload_bytes + 32))
      × (decode frame (48 + payload_bytes + 32) ≡ some v)
      × (v.kind ≡ kind)
      × (v.payload_bytes ≡ payload_bytes)
      × Agree 32 v.nonce nonce
      × Agree payload_bytes v.payload payload
decode-encode kind nonce payload payload_bytes output known le = (
  frame kind nonce payload payload_bytes output,
  sent kind nonce payload payload_bytes output,
  encode-frame kind nonce payload payload_bytes output known le,
  decode-frame kind nonce payload payload_bytes output known le,
  refl,
  refl,
  frame_nonce kind nonce payload payload_bytes output,
  frame_payload kind nonce payload payload_bytes output,
)
