-- ===== src/Stream/Prefix.antt =====
-- native/proc17_qa_stream.c: what an observer has recorded of the stream, whatever the chunks.
use proc.Base.{
  ℕ, ◌+◌, ◌-◌, ◌^◌, ◌<◌, min, false, ◌&&◌, ◌||◌, some, List, [], ◌∷◌, ◌==◌, ◌!=◌, leb, ltb,
  if◌then◌else◌, ◌≡◌, refl, ap, ◌∙◌, arith, Bool-cases, inl, inr,
}
use proc.Memory.{Buffer, at, zeroed}
use proc.Sha256.{init, update}
use proc.Sha256.Update.{update-zero, update-init}
use proc.Stream.{Observer, within, crossed, start, hash_prefix, count_bytes, consume, closed}

-- The observer has seen the first `observed_bytes` bytes of `s`, and may go on.
pub record Follows (s : Buffer) (o : Observer) : Type 0 where
  pub limited : 0 < o.limit_bytes
  pub prefix : o.hashed_bytes ≡ min o.observed_bytes o.limit_bytes
  pub crossing : o.limit_crossed ≡ (if ltb o.limit_bytes o.observed_bytes then 1 else 0)
  pub hashing : o.hash ≡ update init s o.hashed_bytes
  pub unstored : o.prefix_digest ≡ zeroed
  pub going_on : (o.failed ≡ 0) × (o.finalized ≡ 0) × (o.eof_observed ≡ 0)

pub start-Follows : (s : Buffer) (limit : ℕ) {o : Observer} → start limit ≡ some o → Follows s o
unfolding start
start-Follows s limit {o} h = elim (Bool-cases (limit == 0)) [
  | inl none_allowed ↦ absurd (cc (rw none_allowed at h))
  | inr allowed ↦ ground (arith, update-zero s)
]

pub start_fields :
    (limit : ℕ) {o : Observer}
    → start limit ≡ some o
    → (o.observed_bytes ≡ 0) × (o.limit_bytes ≡ limit)
unfolding start
start_fields limit {o} h = ground arith

pub consume-limit_bytes :
    (o : Observer) (b : Buffer) (n : ℕ) → (consume o b n).0.limit_bytes ≡ o.limit_bytes
unfolding consume hash_prefix count_bytes
consume-limit_bytes o b n = ground arith

module _ (s : Buffer) (o : Observer) (n : ℕ) (f : Follows s o) where
  -- How much of the chunk is hashed.
  abbrev share : ℕ
  share = if ltb (o.limit_bytes - o.hashed_bytes) n then o.limit_bytes - o.hashed_bytes else n

  -- The hash goes on where it stopped.
  hash_prefix-update : hash_prefix o (at s o.observed_bytes) share ≡ record o {
    hash = update init s (o.hashed_bytes + share);
    hashed_bytes = o.hashed_bytes + share;
  }
  unfolding hash_prefix
  hash_prefix-update = elim (Bool-cases (share != 0)) [
    | inl some_bytes ↦
        let at_end : o.observed_bytes ≡ o.hashed_bytes = ground (arith, f.prefix) in
        rw some_bytes λ i. record o {
          hash =
              (ap (λ c. update c (at s o.observed_bytes) share) f.hashing
                  ∙ ap (λ k. update (update init s o.hashed_bytes) (at s k) share) at_end
                  ∙ update-init s o.hashed_bytes share)
                i;
          hashed_bytes = o.hashed_bytes + share;
        }
    | inr no_bytes ↦
        let e : o.hashed_bytes ≡ o.hashed_bytes + share = ground arith in
        rw no_bytes
          λ i. record o { hash = (f.hashing ∙ ap (update init s) e) i; hashed_bytes = e i }
  ]

  consume-count_bytes :
      o.observed_bytes + n < 2 ^ 64
      → consume o (at s o.observed_bytes) n
        ≡ count_bytes (hash_prefix o (at s o.observed_bytes) share) n
  unfolding consume
  consume-count_bytes fits =
      let is_open : closed o ≡ false = ground (arith, f.limited, f.going_on) in
      let room : (ltb (2 ^ 64 - 1 - o.observed_bytes) n || ltb o.limit_bytes o.hashed_bytes)
          ≡ false =
        ground (arith, f.prefix) in
      rw (is_open, room)

  abbrev grown : Observer
  grown = record o {
    hash = update init s (o.hashed_bytes + share);
    hashed_bytes = o.hashed_bytes + share;
  }

  count_bytes-Follows :
      Follows s (count_bytes grown n).0
      × ((count_bytes grown n).0.observed_bytes ≡ o.observed_bytes + n)
      × ((count_bytes grown n).1 ≡ (
          if leb o.observed_bytes o.limit_bytes && ltb o.limit_bytes (o.observed_bytes + n)
          then crossed
          else within))
  unfolding count_bytes
  count_bytes-Follows = ground (arith, f.limited, f.prefix, f.crossing, f.unstored, f.going_on)

  -- The next bytes of the stream are recorded, and the call that crosses the limit says so.
  pub consume-Follows :
      o.observed_bytes + n < 2 ^ 64
      → Follows s (consume o (at s o.observed_bytes) n).0
        × ((consume o (at s o.observed_bytes) n).0.observed_bytes ≡ o.observed_bytes + n)
        × ((consume o (at s o.observed_bytes) n).1 ≡ (
            if leb o.observed_bytes o.limit_bytes && ltb o.limit_bytes (o.observed_bytes + n)
            then crossed
            else within))
  consume-Follows fits = rw (consume-count_bytes fits, hash_prefix-update) count_bytes-Follows

-- Chunks of the stream, of the given lengths, one after another.
unfoldable pub consume_all : Buffer → Observer → List ℕ → Observer
consume_all s o [] = o
consume_all s o (n ∷ ns) = consume_all s (consume o (at s o.observed_bytes) n).0 ns

unfoldable pub total : List ℕ → ℕ
total [] = 0
total (n ∷ ns) = n + total ns

pub consume_all-limit_bytes :
    (s : Buffer) (ns : List ℕ) (o : Observer) → (consume_all s o ns).limit_bytes ≡ o.limit_bytes
unfolding consume_all
consume_all-limit_bytes s [] o = refl
consume_all-limit_bytes s (n ∷ ns) o =
    consume_all-limit_bytes s ns (consume o (at s o.observed_bytes) n).0
    ∙ consume-limit_bytes o (at s o.observed_bytes) n

pub consume_all-Follows :
    (s : Buffer) (ns : List ℕ) (o : Observer)
    → Follows s o
    → o.observed_bytes + total ns < 2 ^ 64
    → Follows s (consume_all s o ns)
      × ((consume_all s o ns).observed_bytes ≡ o.observed_bytes + total ns)
unfolding consume_all total
consume_all-Follows s [] o f h = (f, omega arith)
consume_all-Follows s (n ∷ ns) o f h =
    let (f', count, result) = consume-Follows s o n f (omega arith) in
    let (g, more) =
      consume_all-Follows s ns (consume o (at s o.observed_bytes) n).0 f' (omega (arith, count)) in
    (g, omega (arith, count, more))
