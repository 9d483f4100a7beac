-- ===== src/Wire/RunV1/RoundTrip.antt =====
-- native/proc17_qa_wire.h: a RUN v1 frame is read back as the payload that was sent.
use proc.Base.{
  ℕ, ◌+◌, ◌≤◌, true, ◌&&◌, ◌==◌, ◌≡◌, sym, ◌∙◌, arith, Bool-cases, inl, inr, ==→eq, some,
  >>=-eq-some, guard, ◌>>◌,
}
use proc.Memory.{Buffer, at, Agree, mem_eq, mem_eq-Agree, Agree-mem_eq}
use proc.Wire.Frame.{View, kind_known, decode}
use proc.Wire.Frame.RoundTrip.{decode-encode}
use proc.Wire.Integers.{get_u16}
use proc.Wire.RunV1.Extent.{payload_valid_ext}
use proc.Wire.RunV1.{
  request_fixed, request_valid, started_valid, result_valid, error_valid, payload_valid,
  encode_run_v1, decode_run_v1,
}

request_size : (x : Buffer) (n : ℕ) → request_valid x n ≡ true → (238 ≤ n) × (n ≤ 1262)
unfolding request_valid request_fixed
request_size x n h = ground arith

started_size : (x : Buffer) (n : ℕ) → started_valid x n ≡ true → n ≡ 252
unfolding started_valid
started_size x n h = ground arith

result_size : (x : Buffer) (n : ℕ) → result_valid x n ≡ true → n ≡ 512
unfolding result_valid
result_size x n h = elim (Bool-cases (n == 512)) [
  | inl e ↦ ==→eq n 512 e
  | inr ne ↦ absurd (cc (rw ne at h))
]

error_size : (x : Buffer) (n : ℕ) → error_valid x n ≡ true → n ≡ 268
unfolding error_valid
error_size x n h = elim (Bool-cases (n == 268)) [
  | inl e ↦ ==→eq n 268 e
  | inr ne ↦ absurd (cc (rw ne at h))
]

pub decode_run_v1_accepts :
    (frame : Buffer) (n : ℕ) (v : View)
    → decode frame n ≡ some v
    → payload_valid v.kind v.payload v.payload_bytes ≡ true
    → mem_eq 32 v.nonce v.payload ≡ true
    → decode_run_v1 frame n ≡ some v
unfolding decode_run_v1
decode_run_v1_accepts frame n v d p m = rw d (rw (p, m))

-- Whatever is received is a valid payload, under its own transaction as nonce.
pub decode_run_v1-payload_valid :
    (frame : Buffer) (n : ℕ) {v : View}
    → decode_run_v1 frame n ≡ some v
    → (decode frame n ≡ some v)
      × (payload_valid v.kind v.payload v.payload_bytes ≡ true)
      × Agree 32 v.nonce v.payload
unfolding decode_run_v1
decode_run_v1-payload_valid frame n {v} h =
    let (u, d, g) =
      >>=-eq-some (decode frame n)
        (λ u.
          guard (payload_valid u.kind u.payload u.payload_bytes && mem_eq 32 u.nonce u.payload)
          >> some u)
        h in
    let e : u ≡ v = ground arith in
    rw (← e) (d, ground arith, mem_eq-Agree 32 u.nonce u.payload (ground arith))

-- A valid payload has a known kind and fits a frame.
pub payload_valid_size :
    (kind : ℕ) (x : Buffer) (n : ℕ)
    → payload_valid kind x n ≡ true
    → (kind_known kind ≡ true) × (128 ≤ n) × (n ≤ 4016)
unfolding payload_valid kind_known
payload_valid_size kind x n h =
    ground (arith, request_size x n, started_size x n, result_size x n, error_size x n)

-- A valid payload sent under its own transaction as nonce is received as it was sent.
pub decode_run_v1-encode_run_v1 :
    (kind : ℕ) (nonce payload : Buffer) (n : ℕ) (output : Buffer)
    → payload_valid kind payload n ≡ true
    → Agree 32 nonce payload
    → (frame : Buffer) × (v : View) × (encode_run_v1 kind nonce payload n output
        ≡ some (frame, 48 + n + 32))
      × (decode_run_v1 frame (48 + n + 32) ≡ some v)
      × (v.kind ≡ kind)
      × (v.payload_bytes ≡ n)
      × Agree n v.payload payload
unfolding encode_run_v1
decode_run_v1-encode_run_v1 kind nonce payload n output valid own =
    let (known, long, fits) = payload_valid_size kind payload n valid in
    let (frame, v, sent, received, k, size, nonce_same, payload_same) =
      decode-encode kind nonce payload n output known fits in
    (
      frame,
      v,
      rw (valid, sent),
      decode_run_v1_accepts frame (48 + n + 32) v received
          (rw (k, size)
            (payload_valid_ext kind payload v.payload n (λ i lt. sym (payload_same i lt)) valid))
          (Agree-mem_eq 32 v.nonce v.payload
            (λ i lt. nonce_same i lt ∙ own i lt ∙ sym (payload_same i (omega arith)))),
      k,
      size,
      payload_same,
    )

pub payload_valid-result :
    (kind : ℕ) (x : Buffer) (n : ℕ) → kind ≡ 7 → payload_valid kind x n ≡ true → n ≡ 512
unfolding payload_valid
payload_valid-result kind x n result valid = ground (arith, result_size x n)

started_phase : (x : Buffer) (n : ℕ) → started_valid x n ≡ true → get_u16 (at x 128) ≡ 1
unfolding started_valid
started_phase x n h = ground arith

result_phase : (x : Buffer) (n : ℕ) → result_valid x n ≡ true → get_u16 (at x 128) ≡ 2
unfolding result_valid
result_phase x n h = ground arith

-- The phases of STARTED and of a result.
pub payload_valid-phase :
    (kind : ℕ) (x : Buffer) (n : ℕ)
    → payload_valid kind x n ≡ true
    → (kind ≡ 6 → (n ≡ 252) × (get_u16 (at x 128) ≡ 1))
      × (kind ≡ 7 → (n ≡ 512) × (get_u16 (at x 128) ≡ 2))
unfolding payload_valid
payload_valid-phase kind x n valid = (
  λ started. ground (arith, started_size x n, started_phase x n),
  λ result. ground (arith, result_size x n, result_phase x n),
)
