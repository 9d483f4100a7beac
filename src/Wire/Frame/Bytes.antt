-- ===== src/Wire/Frame/Bytes.antt =====
-- native/proc17_qa_wire.h: the frame that `encode` writes holds bytes.
use proc.Base.{
  ℕ, zero, suc, List, [], ◌∷◌, true, ◌&&◌, ◌+◌, Bool, ltb, ◌≡◌, refl, arith, Bool-cases, inl, inr,
}
use proc.Memory.{Buffer, zeroed, IsBytes, poke-IsBytes, copy-IsBytes}
use proc.Sha256.Bytes.{sha256_bytes-IsBytes}
use proc.Wire.Frame.{magic, array, header, covered}
use proc.Wire.Frame.RoundTrip.{body, frame}
use proc.Wire.Integers.{put_u16, put_u32}

put_u16-IsBytes : (k value : ℕ) (b : Buffer) → IsBytes b → IsBytes (put_u16 k value b)
unfolding put_u16
put_u16-IsBytes k value b h =
    poke-IsBytes (k + 1) _ _ (omega arith) (poke-IsBytes k _ b (omega arith) h)

put_u32-IsBytes : (k value : ℕ) (b : Buffer) → IsBytes b → IsBytes (put_u32 k value b)
unfolding put_u32
put_u32-IsBytes k value b h = poke-IsBytes (k + 3) _ _ (omega arith) (
    poke-IsBytes (k + 2) _ _ (omega arith)
      (poke-IsBytes (k + 1) _ _ (omega arith) (poke-IsBytes k _ b (omega arith) h)))

pub zeroed-IsBytes : IsBytes zeroed
zeroed-IsBytes i = omega arith

all_bytes : List ℕ → Bool
all_bytes [] = true
all_bytes (x ∷ xs) = ltb x 256 && all_bytes xs

array-IsBytes : (xs : List ℕ) → all_bytes xs ≡ true → IsBytes (array xs)
unfolding all_bytes
array-IsBytes [] h i = omega arith
array-IsBytes (x ∷ xs) h zero = ground arith
array-IsBytes (x ∷ xs) h (suc i) = array-IsBytes xs (ground arith) i

magic-IsBytes : IsBytes magic
unfolding all_bytes
magic-IsBytes = array-IsBytes (b'P' ∷ b'1' ∷ b'7' ∷ b'Q' ∷ b'A' ∷ b'0' ∷ 0 ∷ 0 ∷ []) refl

module _ (kind : ℕ) (nonce payload : Buffer) (payload_bytes : ℕ) (output : Buffer)
    (n : IsBytes nonce) (p : IsBytes payload) (o : IsBytes output) where
  header-IsBytes : IsBytes (header kind nonce payload_bytes output)
  unfolding header
  header-IsBytes = copy-IsBytes 16 nonce 32 _ n (
      put_u32-IsBytes 12 payload_bytes _ (
        put_u16-IsBytes 10 kind _
          (put_u16-IsBytes 8 0 _ (copy-IsBytes 0 magic 8 output magic-IsBytes o))))

  covered-IsBytes : IsBytes (covered kind nonce payload payload_bytes output)
  unfolding covered
  covered-IsBytes = elim (Bool-cases (ltb 0 payload_bytes)) [
    | inl some_bytes ↦ rw some_bytes (copy-IsBytes 48 payload payload_bytes _ p header-IsBytes)
    | inr no_bytes ↦ rw no_bytes header-IsBytes
  ]

  -- The frame of bytes is bytes.
  pub frame-IsBytes : IsBytes (frame kind nonce payload payload_bytes output)
  frame-IsBytes =
      copy-IsBytes (48 + payload_bytes) _ 32 _
        (sha256_bytes-IsBytes (body kind nonce payload payload_bytes output) (48 + payload_bytes)
          zeroed zeroed-IsBytes)
        covered-IsBytes
