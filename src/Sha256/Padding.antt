-- ===== src/Sha256/Padding.antt =====
-- native/proc17_sha256.c against FIPS 180-4: the digest of a message is the one of its padded
-- blocks, of which there are (n + 8) / 64 + 1.
use proc.Base.{
  ℕ, zero, suc, ◌+◌, ◌-◌, ◌*◌, ◌/◌, ◌%◌, ◌^◌, ◌≤◌, ◌<◌, ltb, leb, ◌==◌, if◌then◌else◌, ◌&&◌,
  Bool-cases, inl, inr, ◌≡◌, refl, sym, ap, ap₂, ◌∙◌, arith, ==→eq, ltb→lt, lt→ltb,
}
use proc.Memory.{Buffer, at, poke, copy, clear, Agree}
use proc.Sha256.Words.{Registers, compress, compress_ext}
use proc.Sha256.Update.{
  absorb, absorb-add, absorb_ext, counted, absorb_short, update_block-absorb, update-absorb,
}
use proc.Sha256.{
  Context, initial_state, init, transform, update_block, store_bits, store_registers, make_room,
  finish, final, update, sha256_bytes,
}

abbrev pub block_count : ℕ → ℕ
block_count n = (n + 8) / 64 + 1

-- The byte of weight 256 ^ k of the length field.
pub length_byte : ℕ → ℕ → ℕ
length_byte bits k = bits / 2 ^ (k * 8) % 256

pub length_byte_lem : (bits k : ℕ) → length_byte bits k ≡ bits / 2 ^ (k * 8) % 256
unfolding length_byte
length_byte_lem bits k = refl

-- The message, a one bit, zeros, and the length in bits as eight bytes.
pub padded : Buffer → ℕ → Buffer
padded b n i =
    if ltb i n
    then b i
    else if i == n
    then 0x80
    else if ltb i (64 * block_count n - 8)
    then 0
    else length_byte (n * 8 % 2 ^ 64) (64 * block_count n - 1 - i)

-- The transform over the first `k` blocks of a message.
pub compress_blocks : ℕ → Registers → Buffer → Registers
compress_blocks zero s m = s
compress_blocks (suc k) s m = compress (compress_blocks k s m) (at m (64 * k))

compress_blocks_ext :
    (k : ℕ) (s : Registers) (x y : Buffer)
    → Agree (64 * k) x y
    → compress_blocks k s x ≡ compress_blocks k s y
unfolding compress_blocks
compress_blocks_ext zero s x y h = refl
compress_blocks_ext (suc k) s x y h =
    ap (λ r. compress r (at x (64 * k))) (compress_blocks_ext k s x y (λ i lt. h i (omega arith)))
    ∙ compress_ext (compress_blocks k s y) (at x (64 * k)) (at y (64 * k))
        (λ i lt. h (64 * k + i) (omega arith))

-- A whole block, taken at a block boundary.
absorb_block :
    (b : Buffer) (c : Context)
    → c.block_bytes ≡ 0
    → ((absorb 64 b c).block_bytes ≡ 0) × ((absorb 64 b c).state ≡ compress c.state b)
absorb_block b c h = rw (← update_block-absorb 63 b c (omega arith)) (
    rw h (
      unfold update_block in
      (refl, compress_ext c.state (copy 0 b 64 c.block) b (λ i lt. ground arith))))

absorb_blocks :
    (k : ℕ) (b : Buffer) (c : Context)
    → c.block_bytes ≡ 0
    → ((absorb (64 * k) b c).block_bytes ≡ 0)
      × ((absorb (64 * k) b c).state ≡ compress_blocks k c.state b)
unfolding compress_blocks
absorb_blocks zero b c h = unfold absorb in (h, refl)
absorb_blocks (suc k) b c h =
    let (empty, state) = absorb_blocks k b c h in
    let (empty', state') = absorb_block (at b (64 * k)) (absorb (64 * k) b c) empty in
    let split : absorb (64 * suc k) b c ≡ absorb 64 (at b (64 * k)) (absorb (64 * k) b c) =
      ap (λ n. absorb n b c) (next k) ∙ absorb-add (64 * k) 64 b c in
    (
      ap (λ t. t.block_bytes) split ∙ empty',
      ap (λ t. t.state) split ∙ state' ∙ ap (λ r. compress r (at b (64 * k))) state,
    )
  where
    next : (k : ℕ) → 64 * suc k ≡ 64 * k + 64
    next k = omega arith

-- The cells of the last block behind `store_bits`.
store_bits_cell :
    (n index bits : ℕ) (block : Buffer) (i : ℕ)
    → index + n ≤ 64
    → store_bits n index bits block i ≡ (
        if leb (64 - index - n) i && ltb i (64 - index) then length_byte bits (63 - i) else block i)
unfolding store_bits
store_bits_cell zero index bits block i h = ground arith
store_bits_cell (suc n) index bits block i h =
    store_bits_cell n (index + 1) bits (poke (63 - index) (bits / 2 ^ (index * 8) % 256) block) i
      (omega arith)
    ∙ elim (Bool-cases (i == 63 - index)) [
      | inl e ↦
          let same : 63 - i ≡ index = omega (arith, ==→eq i (63 - index) e) in
          ground (arith, ap (length_byte bits) same, length_byte_lem bits index)
      | inr ne ↦ ground arith
    ]

-- The last blocks, cell by cell.
abbrev OneBlock : Context → Buffer → Type 0
OneBlock c x =
    (j : ℕ)
    → j < 64
    → x j ≡ (
        if ltb j c.block_bytes
        then c.block j
        else if j == c.block_bytes
        then 0x80
        else if ltb j 56
        then 0
        else length_byte (c.total_bytes * 8 % 2 ^ 64) (63 - j))

abbrev MarkedBlock : Context → Buffer → Type 0
MarkedBlock c x =
    (j : ℕ)
    → j < 64
    → x j ≡ (if ltb j c.block_bytes then c.block j else if j == c.block_bytes then 0x80 else 0)

abbrev LengthBlock : Context → Buffer → Type 0
LengthBlock c x =
    (j : ℕ)
    → j < 64
    → x j ≡ (if ltb j 56 then 0 else length_byte (c.total_bytes * 8 % 2 ^ 64) (63 - j))

abbrev marked : Context → Context
marked c = record c { block = poke c.block_bytes 0x80 c.block; block_bytes = c.block_bytes + 1 }

make_room_short : (c : Context) → c.block_bytes ≤ 56 → make_room c ≡ c
unfolding make_room
make_room_short c h = ground arith

make_room_long :
    (c : Context)
    → 56 < c.block_bytes
    → make_room c
      ≡ record (transform (record c { block = clear c.block_bytes (64 - c.block_bytes) c.block })) {
        block_bytes = 0;
      }
unfolding make_room
make_room_long c h = rw (lt→ltb 56 c.block_bytes h)

abbrev last_block : ℕ → Context → Buffer
last_block bits room =
    store_bits 8 0 bits (clear room.block_bytes (56 - room.block_bytes) room.block)

abbrev last_state : ℕ → Context → Registers
last_state bits room = compress room.state (last_block bits room)

finish_short :
    (c : Context) (x : Buffer)
    → c.block_bytes < 56
    → OneBlock c x
    → (finish c).state ≡ compress c.state x
unfolding finish
finish_short c x h cells =
    ap (last_state (c.total_bytes * 8 % 2 ^ 64)) (make_room_short (marked c) (omega arith))
    ∙ compress_ext c.state (last_block (c.total_bytes * 8 % 2 ^ 64) (marked c)) x (λ j lt.
      store_bits_cell 8 0 _ (clear (c.block_bytes + 1) (56 - (c.block_bytes + 1)) (marked c).block)
        j (omega arith)
      ∙ ground (arith, cells j lt))

finish_long :
    (c : Context) (x y : Buffer)
    → 56 ≤ c.block_bytes
    → c.block_bytes < 64
    → MarkedBlock c x
    → LengthBlock c y
    → (finish c).state ≡ compress (compress c.state x) y
unfolding finish
finish_long c x y ge h first second =
    ap (last_state (c.total_bytes * 8 % 2 ^ 64)) (make_room_long (marked c) (omega arith))
    ∙ ap
        (λ s. compress s (
          store_bits 8 0 (c.total_bytes * 8 % 2 ^ 64)
            (clear 0 56 (clear (c.block_bytes + 1) (64 - (c.block_bytes + 1)) (marked c).block))))
        (compress_ext c.state
          (clear (c.block_bytes + 1) (64 - (c.block_bytes + 1)) (marked c).block) x
          (λ j lt. ground (arith, first j lt)))
    ∙ compress_ext (compress c.state x) _ y (λ j lt.
      store_bits_cell 8 0 _
        (clear 0 56 (clear (c.block_bytes + 1) (64 - (c.block_bytes + 1)) (marked c).block)) j
        (omega arith)
      ∙ ground (arith, second j lt))

-- The context after the whole blocks of a message of `n` bytes, and with the rest of it.
abbrev whole : Buffer → ℕ → Context
whole b n = absorb (64 * (n / 64)) b init

abbrev taken : Buffer → ℕ → Context
taken b n = record (whole b n) {
  total_bytes = (0 + n) % 2 ^ 64;
  block = copy 0 (at b (64 * (n / 64))) (n % 64) (whole b n).block;
  block_bytes = n % 64;
}

update-taken : (b : Buffer) (n : ℕ) → update init b n ≡ taken b n
update-taken b n =
    update-absorb init b n (omega arith)
    ∙ ap total (
        ap (λ k. absorb k b init) split
        ∙ absorb-add (64 * (n / 64)) (n % 64) b init
        ∙ absorb_short (n % 64) (at b (64 * (n / 64))) (whole b n) (omega (arith, empty))
        ∙ (λ i. record (whole b n) {
          block = copy (empty i) (at b (64 * (n / 64))) (n % 64) (whole b n).block;
          block_bytes = rest i;
        }))
  where
    total : Context → Context
    total c = record c { total_bytes = (0 + n) % 2 ^ 64 }

    split : n ≡ 64 * (n / 64) + n % 64
    split = omega arith

    empty : (whole b n).block_bytes ≡ 0
    empty = (absorb_blocks (n / 64) b init refl).0

    rest : (whole b n).block_bytes + n % 64 ≡ n % 64
    rest = omega (arith, empty)

whole_state :
    (b : Buffer) (n : ℕ) → (whole b n).state ≡ compress_blocks (n / 64) initial_state (padded b n)
unfolding padded
whole_state b n =
    (absorb_blocks (n / 64) b init refl).1
    ∙ compress_blocks_ext (n / 64) initial_state b (padded b n) (λ i lt. ground (arith, small i lt))
  where
    small : (i : ℕ) → i < 64 * (n / 64) → i < n
    small i lt = omega arith

finish-padded :
    (b : Buffer) (n : ℕ)
    → (finish (taken b n)).state ≡ compress_blocks (block_count n) initial_state (padded b n)
unfolding compress_blocks
finish-padded b n = elim (Bool-cases (ltb (n % 64) 56)) [
  | inl short ↦
      let one : block_count n ≡ suc (n / 64) = omega (arith, ltb→lt _ _ short) in
      finish_short (taken b n) (at (padded b n) (64 * (n / 64))) (ltb→lt _ _ short) (λ j lt.
        unfold padded in
        ground (arith, one, ap b (inner j), ap₂ length_byte bits_same (weight (n / 64) j one)))
      ∙ ap (λ s. compress s (at (padded b n) (64 * (n / 64)))) (whole_state b n)
      ∙ ap (λ k. compress_blocks k initial_state (padded b n)) (sym one)
  | inr long ↦
      let two : block_count n ≡ suc (suc (n / 64)) = ground arith in
      finish_long (taken b n) (at (padded b n) (64 * (n / 64)))
        (at (padded b n) (64 * suc (n / 64))) (ground arith) (omega arith)
        (λ j lt. unfold padded in ground (arith, two, ap b (inner j)))
        (λ j lt.
          unfold padded in
          ground (arith, two, ap₂ length_byte bits_same (weight (suc (n / 64)) j two)))
      ∙ ap
          (λ s.
            compress (compress s (at (padded b n) (64 * (n / 64))))
              (at (padded b n) (64 * suc (n / 64))))
          (whole_state b n)
      ∙ ap (λ k. compress_blocks k initial_state (padded b n)) (sym two)
]
  where
    inner : (j : ℕ) → 64 * (n / 64) + (j - 0) ≡ 64 * (n / 64) + j
    inner j = omega arith

    bits_same : n * 8 % 2 ^ 64 ≡ (0 + n) % 2 ^ 64 * 8 % 2 ^ 64
    bits_same = omega arith

    weight : (q j : ℕ) → block_count n ≡ suc q → 64 * block_count n - 1 - (64 * q + j) ≡ 63 - j
    weight q j e = omega arith

-- The digest of a message is the chain of its padded blocks, written out as eight words.
pub sha256_bytes-compress_blocks :
    (b : Buffer) (n : ℕ) (digest : Buffer)
    → sha256_bytes b n digest
      ≡ store_registers (compress_blocks (block_count n) initial_state (padded b n)) digest
sha256_bytes-compress_blocks b n digest =
    unfold sha256_bytes final in
    ap (λ c. store_registers (finish c).state digest) (update-taken b n)
    ∙ ap (λ s. store_registers s digest) (finish-padded b n)

-- The digest depends on the message's bytes and on nothing behind them.
pub sha256_bytes_ext :
    (x y : Buffer) (n : ℕ) (digest : Buffer)
    → Agree n x y
    → sha256_bytes x n digest ≡ sha256_bytes y n digest
sha256_bytes_ext x y n digest h =
    unfold sha256_bytes final in
    ap (λ c. (final c digest).1)
      (update-absorb init x n (omega arith)
        ∙ ap (counted ((0 + n) % 2 ^ 64)) (absorb_ext n x y init h)
        ∙ sym (update-absorb init y n (omega arith)))

pub final-update :
    (b : Buffer) (n : ℕ) (digest : Buffer)
    → (final (update init b n) digest).1 ≡ sha256_bytes b n digest
unfolding sha256_bytes
final-update b n digest = refl
