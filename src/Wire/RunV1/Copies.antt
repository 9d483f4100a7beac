-- ===== src/Wire/RunV1/Copies.antt =====
-- native/proc17_qa_wire.h: a copy of a RUN v1 frame is decoded as the frame is.
use proc.Base.{ℕ, some, ◌≡◌, sym, ◌∙◌, arith}
use proc.Memory.{Buffer, at, Agree, Agree-mem_eq}
use proc.Wire.Frame.{View}
use proc.Wire.Frame.Extent.{moved, decode_ext}
use proc.Wire.RunV1.{decode_run_v1}
use proc.Wire.RunV1.Extent.{payload_valid_ext}
use proc.Wire.RunV1.RoundTrip.{
  decode_run_v1_accepts, decode_run_v1-payload_valid, payload_valid_size,
}

-- A block with the same frame is decoded as the same kind with the same payload.
pub decode_run_v1_ext :
    (a b : Buffer) (n : ℕ) {v : View}
    → Agree n a b
    → decode_run_v1 a n ≡ some v
    → (decode_run_v1 b n ≡ some (moved v b)) × Agree v.payload_bytes v.payload (at b 48)
decode_run_v1_ext a b n {v} same h =
    let (decoded, valid, own) = decode_run_v1-payload_valid a n h in
    let (again, payload, nonce) = decode_ext a b n same decoded in
    let (known, long, fits) = payload_valid_size v.kind v.payload v.payload_bytes valid in
    (
      decode_run_v1_accepts b n (moved v b) again
          (payload_valid_ext v.kind v.payload (at b 48) v.payload_bytes payload valid)
          (Agree-mem_eq 32 (at b 16) (at b 48)
            λ i lt. sym (nonce i lt) ∙ own i lt ∙ payload i (omega arith)),
      payload,
    )
