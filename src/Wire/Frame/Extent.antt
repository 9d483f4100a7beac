-- ===== src/Wire/Frame/Extent.antt =====
-- native/proc17_qa_wire.h: `decode` reads the frame and nothing behind it.
use proc.Base.{ℕ, ◌+◌, ◌≤◌, some, ◌≡◌, sym, ap, ◌∙◌, arith}
use proc.Memory.{Buffer, at, zeroed, Agree, mem_eq-Agree, Agree-mem_eq}
use proc.Sha256.{sha256_bytes}
use proc.Sha256.Padding.{sha256_bytes_ext}
use proc.Wire.Frame.{View, magic, decode}
use proc.Wire.Frame.Canonical.{Accepted, decode-Accepted}
use proc.Wire.Frame.RoundTrip.{decode_accepts, mismatch_loop-zero, mismatch_loop-Agree}
use proc.Wire.Integers.{get_u16_ext, get_u32_ext}

-- The view of another block with the same frame.
abbrev pub moved : View → Buffer → View
moved v b = record {
  kind = v.kind;
  nonce = at b 16;
  payload = at b 48;
  payload_bytes = v.payload_bytes;
}

module _ (a b : Buffer) (n : ℕ) (v : View) (same : Agree n a b) (ok : Accepted a n v) where
  inside : (k m : ℕ) → k + m ≤ n → Agree m (at a k) (at b k)
  inside k m fits i lt = same (k + i) (omega arith)

  digest_same :
      Agree 32 (sha256_bytes b (48 + v.payload_bytes) zeroed) (at b (48 + v.payload_bytes))
  digest_same i lt =
      ap (λ (d : Buffer). d i)
        (sym (
          sha256_bytes_ext a b (48 + v.payload_bytes) zeroed
            (λ j l. same j (omega (arith, ok.total)))))
      ∙ mismatch_loop-Agree 32 (sha256_bytes a (48 + v.payload_bytes) zeroed)
          (at a (48 + v.payload_bytes)) 0 ok.digest i lt
      ∙ same (48 + v.payload_bytes + i) (omega (arith, ok.total))

  decode-moved : decode b n ≡ some (moved v b)
  decode-moved =
      decode_accepts b n v.kind v.payload_bytes ok.total ok.within
        (Agree-mem_eq 8 b magic
          λ i lt. sym (same i (omega (arith, ok.total))) ∙ mem_eq-Agree 8 a magic ok.is_magic i lt)
        (sym (get_u16_ext (at a 8) (at b 8) (inside 8 2 (omega (arith, ok.total)))) ∙ ok.version)
        (sym (get_u16_ext (at a 10) (at b 10) (inside 10 2 (omega (arith, ok.total)))) ∙ ok.kind)
        (sym (get_u32_ext (at a 12) (at b 12) (inside 12 4 (omega (arith, ok.total)))) ∙ ok.size)
        ok.known (mismatch_loop-zero 32 _ _ digest_same)

-- A block with the same frame is decoded alike, with its own payload, which is the same.
pub decode_ext :
    (a b : Buffer) (n : ℕ) {v : View}
    → Agree n a b
    → decode a n ≡ some v
    → (decode b n ≡ some (moved v b))
      × Agree v.payload_bytes v.payload (at b 48)
      × Agree 32 v.nonce (at b 16)
decode_ext a b n {v} same h =
    let ok = decode-Accepted a n h in
    (
      decode-moved a b n v same ok,
      λ i lt. ap (λ (p : Buffer). p i) ok.payload ∙ same (48 + i) (omega (arith, ok.total)),
      λ i lt. ap (λ (p : Buffer). p i) ok.nonce ∙ same (16 + i) (omega (arith, ok.total)),
    )
