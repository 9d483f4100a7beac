-- ===== src/Sha256.antt =====
-- native/proc17_sha256.c: SHA-256 with an incremental context, and the hexadecimal form of digests.
-- A uint32_t is a number below 2 ^ 32: additions and left shifts are cut by `% 2 ^ 32`.
pub mod Words
pub mod Update
pub mod Padding
pub mod Hex
pub mod Bytes
use proc.Base.{ℕ, zero, suc, ◌+◌, ◌-◌, ◌*◌, ◌/◌, ◌%◌, ◌^◌, ◌≤◌, min, ltb, ◌==◌, if◌then◌else◌, Bool}
use proc.Memory.{Buffer, at, poke, copy, clear, zeroed}
use Words.{Registers, compress, store_u32}

-- struct proc17_sha256
pub record Context : Type 0 where
  pub state : Registers
  pub total_bytes : ℕ
  pub block : Buffer
  pub block_bytes : ℕ

abbrev pub initial_state : Registers
initial_state = record {
  a = 0x6a09e667;
  b = 0xbb67ae85;
  c = 0x3c6ef372;
  d = 0xa54ff53a;
  e = 0x510e527f;
  f = 0x9b05688c;
  g = 0x1f83d9ab;
  h = 0x5be0cd19;
}

abbrev pub init : Context
init = record { state = initial_state; total_bytes = 0; block = zeroed; block_bytes = 0 }

abbrev pub transform : Context → Context
transform c = record c { state = compress c.state c.block }

-- One turn of the loop of `update`: the bytes that fit are copied, and a full block is transformed.
pub update_block : Context → Buffer → ℕ → Context
update_block c input copied =
    let filled = record c {
      block = copy c.block_bytes input copied c.block;
      block_bytes = c.block_bytes + copied;
    } in
    if filled.block_bytes == 64 then record (transform filled) { block_bytes = 0 } else filled

-- The loop of `update`, on fuel: `length` rounds are enough, since each takes a byte or more.
pub update_loop : ℕ → Context → Buffer → ℕ → Context
update_loop zero c input length = c
update_loop (suc fuel) c input length =
    let available = 64 - c.block_bytes in
    let copied = if ltb length available then length else available in
    let rest = update_loop fuel (update_block c input copied) (at input copied) (length - copied) in
    if ltb 0 length then rest else c

pub update : Context → Buffer → ℕ → Context
update c bytes length =
    update_loop length (record c { total_bytes = (c.total_bytes + length) % 2 ^ 64 }) bytes length

-- The eight bytes of `total_bits`, from block[63] down.
store_bits : ℕ → ℕ → ℕ → Buffer → Buffer
store_bits zero index total_bits block = block
store_bits (suc n) index total_bits block =
    store_bits n (index + 1) total_bits
      (poke (63 - index) (total_bits / 2 ^ (index * 8) % 256) block)

pub store_registers : Registers → Buffer → Buffer
store_registers r digest = store_u32 28 r.h (
    store_u32 24 r.g (
      store_u32 20 r.f (
        store_u32 16 r.e
          (store_u32 12 r.d (store_u32 8 r.c (store_u32 4 r.b (store_u32 0 r.a digest)))))))

-- The part of `final` that makes room for the length, with the 0x80 byte in place.
make_room : Context → Context
make_room c =
    if ltb 56 c.block_bytes
    then record (transform
        (record c { block = clear c.block_bytes (64 - c.block_bytes) c.block })) { block_bytes = 0 }
    else c

-- The context that the last block is put in, before the digest is stored.
pub finish : Context → Context
finish c =
    let total_bits = c.total_bytes * 8 % 2 ^ 64 in
    let marked = record c {
      block = poke c.block_bytes 0x80 c.block;
      block_bytes = c.block_bytes + 1;
    } in
    let room = make_room marked in
    let padded = clear room.block_bytes (56 - room.block_bytes) room.block in
    transform (record room { block = store_bits 8 0 total_bits padded })

abbrev pub cleared : Context
cleared = record {
  state = record { a = 0; b = 0; c = 0; d = 0; e = 0; f = 0; g = 0; h = 0 };
  total_bytes = 0;
  block = zeroed;
  block_bytes = 0;
}

-- The context is wiped at the end.
pub final : Context → Buffer → Context × Buffer
final c digest = (cleared, store_registers (finish c).state digest)

unfoldable pub sha256_bytes : Buffer → ℕ → Buffer → Buffer
sha256_bytes bytes length digest = (final (update init bytes length) digest).1
