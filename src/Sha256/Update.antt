-- ===== src/Sha256/Update.antt =====
-- native/proc17_sha256.c: the chunked loop of `update` takes the message byte by byte, whatever
-- the chunks that the callers hand in.
use proc.Base.{
  ℕ, zero, suc, ◌+◌, ◌-◌, ◌%◌, ◌^◌, ◌≤◌, ◌<◌, ltb, ◌==◌, if◌then◌else◌, Bool-cases, inl, inr, ◌≡◌,
  refl, sym, ap, ◌∙◌, arith, lt→ltb,
}
use proc.Memory.{Buffer, Agree, at, poke, copy, copy_zero, copy-suc}
use proc.Sha256.{Context, transform, update_block, update_loop, update, init}

-- The specification: one byte at a time, with the transform at each 64th.
unfoldable pub absorb_byte : Context → ℕ → Context
absorb_byte c x =
    let filled = record c {
      block = poke c.block_bytes x c.block;
      block_bytes = c.block_bytes + 1;
    } in
    if filled.block_bytes == 64 then record (transform filled) { block_bytes = 0 } else filled

unfoldable pub absorb : ℕ → Buffer → Context → Context
absorb zero b c = c
absorb (suc n) b c = absorb_byte (absorb n b c) (b n)

pub absorb-add :
    (n m : ℕ) (b : Buffer) (c : Context) → absorb (n + m) b c ≡ absorb m (at b n) (absorb n b c)
unfolding absorb
absorb-add n zero b c = ap (λ k. absorb k b c) (omega arith)
absorb-add n (suc m) b c =
    ap (λ k. absorb k b c) (shift n m) ∙ ap (λ t. absorb_byte t (b (n + m))) (absorb-add n m b c)
  where
    shift : (n m : ℕ) → n + suc m ≡ suc (n + m)
    shift n m = omega arith

pub absorb_ext : (n : ℕ) (x y : Buffer) (c : Context) → Agree n x y → absorb n x c ≡ absorb n y c
unfolding absorb
absorb_ext zero x y c h = refl
absorb_ext (suc n) x y c h =
    ap (absorb_byte (absorb n x c)) (h n (omega arith))
    ∙ ap (λ t. absorb_byte t (y n)) (absorb_ext n x y c (λ i lt. h i (omega arith)))

-- A byte that leaves the block unfilled.
absorb_byte_short :
    (c : Context) (x : ℕ)
    → c.block_bytes + 1 < 64
    → absorb_byte c x
      ≡ record c { block = poke c.block_bytes x c.block; block_bytes = c.block_bytes + 1 }
unfolding absorb_byte
absorb_byte_short c x h = ground arith

-- Bytes that leave the block unfilled are one copy.
pub absorb_short :
    (k : ℕ) (b : Buffer) (c : Context)
    → c.block_bytes + k < 64
    → absorb k b c
      ≡ record c { block = copy c.block_bytes b k c.block; block_bytes = c.block_bytes + k }
unfolding absorb
absorb_short zero b c h = λ i. record c {
  block = sym (copy_zero c.block_bytes b c.block) i;
  block_bytes = same c.block_bytes i;
}
  where
    same : (n : ℕ) → n ≡ n + 0
    same n = omega arith
absorb_short (suc k) b c h =
    ap (λ t. absorb_byte t (b k)) (absorb_short k b c (omega arith))
    ∙ absorb_byte_short
        (record c { block = copy c.block_bytes b k c.block; block_bytes = c.block_bytes + k }) (b k)
        (omega arith)
    ∙ (λ i. record c {
      block = sym (copy-suc c.block_bytes b k c.block) i;
      block_bytes = next c.block_bytes k i;
    })
  where
    next : (n k : ℕ) → n + k + 1 ≡ n + suc k
    next n k = omega arith

abbrev settle : Context → Context
settle c = if c.block_bytes == 64 then record (transform c) { block_bytes = 0 } else c

-- One turn of the loop takes the bytes that it copies.
pub update_block-absorb :
    (k : ℕ) (b : Buffer) (c : Context)
    → c.block_bytes + suc k ≤ 64
    → update_block c b (suc k) ≡ absorb (suc k) b c
unfolding update_block absorb absorb_byte
update_block-absorb k b c h =
    ap settle (λ i. record c {
      block = copy-suc c.block_bytes b k c.block i;
      block_bytes = next c.block_bytes k i;
    })
    ∙ ap (λ t. absorb_byte t (b k)) (sym (absorb_short k b c (omega arith)))
  where
    next : (n k : ℕ) → n + suc k ≡ n + k + 1
    next n k = omega arith

pub absorb_byte-lt : (c : Context) (x : ℕ) → c.block_bytes < 64 → (absorb_byte c x).block_bytes < 64
unfolding absorb_byte
absorb_byte-lt c x h = ground arith

pub absorb-lt :
    (n : ℕ) (b : Buffer) (c : Context) → c.block_bytes < 64 → (absorb n b c).block_bytes < 64
unfolding absorb
absorb-lt zero b c h = h
absorb-lt (suc n) b c h = absorb_byte-lt (absorb n b c) (b n) (absorb-lt n b c h)

-- A whole turn of the loop, when some bytes are left.
turn :
    (fuel copied : ℕ) (c : Context) (input : Buffer) (length : ℕ)
    → 0 < copied
    → copied ≤ length
    → c.block_bytes + copied ≤ 64
    → update_loop fuel (absorb copied input c) (at input copied) (length - copied)
      ≡ absorb (length - copied) (at input copied) (absorb copied input c)
    → update_loop fuel (update_block c input copied) (at input copied) (length - copied)
      ≡ absorb length input c
turn fuel zero c input length pos le fits ih = absurd (omega arith)
turn fuel (suc k) c input length pos le fits ih =
    ap (λ t. update_loop fuel t (at input (suc k)) (length - suc k))
      (update_block-absorb k input c fits)
    ∙ ih
    ∙ sym (absorb-add (suc k) (length - suc k) input c)
    ∙ ap (λ n. absorb n input c) (whole k length le)
  where
    whole : (k length : ℕ) → suc k ≤ length → suc k + (length - suc k) ≡ length
    whole k length le = omega arith

update_loop_step :
    (fuel : ℕ) (c : Context) (input : Buffer) (n copied : ℕ)
    → (if ltb (suc n) (64 - c.block_bytes) then suc n else 64 - c.block_bytes) ≡ copied
    → update_loop (suc fuel) c input (suc n)
      ≡ update_loop fuel (update_block c input copied) (at input copied) (suc n - copied)
unfolding update_loop
update_loop_step fuel c input n copied e = rw (e, lt→ltb 0 (suc n) (omega arith))

-- With fuel for each byte the loop ends with all of them taken.
update_loop-absorb :
    (fuel : ℕ) (c : Context) (input : Buffer) (length : ℕ)
    → length ≤ fuel
    → c.block_bytes < 64
    → update_loop fuel c input length ≡ absorb length input c
update_loop-absorb zero c input zero h lt = unfold update_loop absorb in refl
update_loop-absorb zero c input (suc n) h lt = absurd (omega arith)
update_loop-absorb (suc fuel) c input zero h lt = unfold update_loop absorb in refl
update_loop-absorb (suc fuel) c input (suc n) h lt =
    let later = λ (k : ℕ) (pos : 0 < k).
      update_loop-absorb fuel (absorb k input c) (at input k) (suc n - k) (omega arith)
        (absorb-lt k input c lt) in
    elim (Bool-cases (ltb (suc n) (64 - c.block_bytes))) [
      | inl short ↦
          update_loop_step fuel c input n (suc n) (rw short)
          ∙ turn fuel (suc n) c input (suc n) (omega arith) (omega arith) (ground arith)
              (later (suc n) (omega arith))
      | inr long ↦
          update_loop_step fuel c input n (64 - c.block_bytes) (rw long)
          ∙ turn fuel (64 - c.block_bytes) c input (suc n) (omega arith) (ground arith)
              (omega arith) (later (64 - c.block_bytes) (omega arith))
    ]

-- The count of bytes is apart from the rest of the context.
abbrev pub counted : ℕ → Context → Context
counted total c = record c { total_bytes = total }

absorb_byte_counted :
    (total : ℕ) (c : Context) (x : ℕ)
    → absorb_byte (counted total c) x ≡ counted total (absorb_byte c x)
unfolding absorb_byte
absorb_byte_counted total c x = elim (Bool-cases (c.block_bytes + 1 == 64)) [
  | inl e ↦ rw e
  | inr e ↦ rw e
]

absorb_counted :
    (n total : ℕ) (b : Buffer) (c : Context)
    → absorb n b (counted total c) ≡ counted total (absorb n b c)
unfolding absorb
absorb_counted zero total b c = refl
absorb_counted (suc n) total b c =
    ap (λ t. absorb_byte t (b n)) (absorb_counted n total b c)
    ∙ absorb_byte_counted total (absorb n b c) (b n)

-- `update` adds the length to the count and takes every byte.
pub update-absorb :
    (c : Context) (b : Buffer) (n : ℕ)
    → c.block_bytes < 64
    → update c b n ≡ record (absorb n b c) { total_bytes = (c.total_bytes + n) % 2 ^ 64 }
unfolding update
update-absorb c b n h =
    update_loop-absorb n (counted ((c.total_bytes + n) % 2 ^ 64) c) b n (omega arith) h
    ∙ absorb_counted n ((c.total_bytes + n) % 2 ^ 64) b c

pub update-lt :
    (c : Context) (b : Buffer) (n : ℕ) → c.block_bytes < 64 → (update c b n).block_bytes < 64
update-lt c b n h = rw (update-absorb c b n h) (absorb-lt n b c h)

-- Two calls of `update` leave the context of one call with the two messages joined.
pub update-update :
    (c : Context) (b : Buffer) (n m : ℕ)
    → c.block_bytes < 64
    → update (update c b n) (at b n) m ≡ update c b (n + m)
update-update c b n m h =
    ap (λ t. update t (at b n) m) (update-absorb c b n h)
    ∙ update-absorb (counted ((c.total_bytes + n) % 2 ^ 64) (absorb n b c)) (at b n) m
        (absorb-lt n b c h)
    ∙ (λ i. counted (total c.total_bytes n m i) (joined i))
    ∙ sym (update-absorb c b (n + m) h)
  where
    total : (t n m : ℕ) → ((t + n) % 2 ^ 64 + m) % 2 ^ 64 ≡ (t + (n + m)) % 2 ^ 64
    total t n m = omega arith

    joined :
        absorb m (at b n) (counted ((c.total_bytes + n) % 2 ^ 64) (absorb n b c))
        ≡ counted ((c.total_bytes + n) % 2 ^ 64) (absorb (n + m) b c)
    joined =
        absorb_counted m ((c.total_bytes + n) % 2 ^ 64) (at b n) (absorb n b c)
        ∙ ap (counted ((c.total_bytes + n) % 2 ^ 64)) (sym (absorb-add n m b c))

pub update-zero : (b : Buffer) → update init b 0 ≡ init
unfolding update update_loop
update-zero b = refl

-- The state of a hash goes on from the state of a shorter one.
pub update-init :
    (b : Buffer) (n m : ℕ) → update (update init b n) (at b n) m ≡ update init b (n + m)
update-init b n m = update-update init b n m (omega arith)

pub update_nothing : (b : Buffer) → update init b 0 ≡ init
unfolding absorb
update_nothing b = update-absorb init b 0 (omega arith)

-- Only the bytes that are hashed matter.
pub update_ext :
    (c : Context) (n : ℕ) (a b : Buffer)
    → c.block_bytes < 64
    → Agree n a b
    → update c a n ≡ update c b n
update_ext c n a b h same =
    rw (update-absorb c a n h, update-absorb c b n h, absorb_ext n a b c same) refl
