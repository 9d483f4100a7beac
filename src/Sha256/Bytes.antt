-- ===== src/Sha256/Bytes.antt =====
-- native/proc17_sha256.c: a digest is written as bytes.
use proc.Base.{ℕ, ◌+◌, arith}
use proc.Memory.{Buffer, IsBytes, poke-IsBytes}
use proc.Sha256.{store_registers, final, sha256_bytes}
use proc.Sha256.Words.{Registers, store_u32}

store_u32-IsBytes : (k value : ℕ) (b : Buffer) → IsBytes b → IsBytes (store_u32 k value b)
unfolding store_u32
store_u32-IsBytes k value b h = poke-IsBytes (k + 3) _ _ (omega arith) (
    poke-IsBytes (k + 2) _ _ (omega arith)
      (poke-IsBytes (k + 1) _ _ (omega arith) (poke-IsBytes k _ b (omega arith) h)))

store_registers-IsBytes : (r : Registers) (b : Buffer) → IsBytes b → IsBytes (store_registers r b)
unfolding store_registers
store_registers-IsBytes r b h = store_u32-IsBytes 28 r.h _ (
    store_u32-IsBytes 24 r.g _ (
      store_u32-IsBytes 20 r.f _ (
        store_u32-IsBytes 16 r.e _ (
          store_u32-IsBytes 12 r.d _ (
            store_u32-IsBytes 8 r.c _ (store_u32-IsBytes 4 r.b _ (store_u32-IsBytes 0 r.a b h)))))))

-- Whatever the message holds, its digest leaves bytes in a block of bytes.
pub sha256_bytes-IsBytes :
    (b : Buffer) (n : ℕ) (digest : Buffer) → IsBytes digest → IsBytes (sha256_bytes b n digest)
unfolding sha256_bytes final
sha256_bytes-IsBytes b n digest h = store_registers-IsBytes _ digest h
