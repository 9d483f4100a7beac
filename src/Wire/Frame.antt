-- ===== src/Wire/Frame.antt =====
-- native/proc17_qa_wire.h: the envelope of a frame, `proc17_qa_wire_encode` and `_decode`.
-- A frame is magic, version, kind, payload length, nonce, payload and the digest of all these.
pub mod RoundTrip
pub mod Canonical
pub mod Bytes
pub mod Extent
use proc.Base.{
  ℕ, zero, suc, ◌+◌, ◌-◌, ◌≤◌, Bool, true, false, ◌&&◌, ◌||◌, Option, none, some, List, [], ◌∷◌,
  ◌==◌, leb, ltb, if◌then◌else◌, guard, ◌>>=◌, ◌>>◌, bit_or, bit_xor,
}
use proc.Memory.{Buffer, at, copy, zeroed, mem_eq}
use proc.Sha256.{sha256_bytes}
use proc.Wire.Integers.{put_u16, put_u32, get_u16, get_u32}
use proc.Wire.Kind
use proc.Wire.Layout.{envelope_bytes, max_frame_bytes}

-- struct proc17_qa_wire_view
pub record View : Type 0 where
  pub kind : ℕ
  pub nonce : Buffer
  pub payload : Buffer
  pub payload_bytes : ℕ

unfoldable pub kind_known : ℕ → Bool
kind_known kind =
    kind == Kind.probe_request
    || kind == Kind.probe_result
    || kind == Kind.run_request
    || kind == Kind.run_result
    || kind == Kind.run_request_v1
    || kind == Kind.run_started_v1
    || kind == Kind.run_result_v1
    || kind == Kind.run_error_v1

-- A constant array, with zeros behind it.
abbrev pub array : List ℕ → Buffer
array [] i = 0
array (x ∷ xs) zero = x
array (x ∷ xs) (suc i) = array xs i

abbrev pub magic : Buffer
magic = array (b'P' ∷ b'1' ∷ b'7' ∷ b'Q' ∷ b'A' ∷ b'0' ∷ 0 ∷ 0 ∷ [])

-- The envelope in front of the payload, in the order of the writes.
pub header : ℕ → Buffer → ℕ → Buffer → Buffer
header kind nonce payload_bytes output =
    copy 16 nonce 32
      (put_u32 12 payload_bytes (put_u16 10 kind (put_u16 8 0 (copy 0 magic 8 output))))

-- The part of a frame that the digest covers.
pub covered : ℕ → Buffer → Buffer → ℕ → Buffer → Buffer
covered kind nonce payload payload_bytes output =
    let written = header kind nonce payload_bytes output in
    if ltb 0 payload_bytes then copy 48 payload payload_bytes written else written

-- `output` and `*output_bytes`, or -1.
unfoldable pub encode : ℕ → Buffer → Buffer → ℕ → Buffer → Option (Buffer × ℕ)
encode kind nonce payload payload_bytes output = do
  guard (kind_known kind && leb payload_bytes (max_frame_bytes - envelope_bytes))
  let before_digest = 48 + payload_bytes
  let body = covered kind nonce payload payload_bytes output
  let digest = sha256_bytes body before_digest zeroed
  some (copy before_digest digest 32 body, before_digest + 32)

-- mismatch |= expected[index] ^ frame[before_digest + index], from `index` on.
pub mismatch_loop : ℕ → Buffer → Buffer → ℕ → ℕ
mismatch_loop zero expected found mismatch = mismatch
mismatch_loop (suc n) expected found mismatch =
    mismatch_loop n (at expected 1) (at found 1) (bit_or mismatch (bit_xor (expected 0) (found 0)))

unfoldable pub decode : Buffer → ℕ → Option View
decode frame frame_bytes = do
  guard (leb envelope_bytes frame_bytes && leb frame_bytes max_frame_bytes && mem_eq 8 frame magic)
  let version = get_u16 (at frame 8)
  let kind = get_u16 (at frame 10)
  let payload_bytes = get_u32 (at frame 12)
  guard (
      version == 0
      && kind_known kind
      && leb payload_bytes (max_frame_bytes - envelope_bytes)
      && frame_bytes == envelope_bytes + payload_bytes)
  let before_digest = 48 + payload_bytes
  let expected = sha256_bytes frame before_digest zeroed
  guard (mismatch_loop 32 expected (at frame before_digest) 0 == 0)
  some (record {
    kind = kind;
    nonce = at frame 16;
    payload = at frame 48;
    payload_bytes = payload_bytes;
  })
