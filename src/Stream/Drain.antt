-- ===== src/Stream/Drain.antt =====
-- native/proc17_qa_stream.c: the loop of drain_nonblocking over the answers of read(2).
use mathlib.Core.Bool.{false≢true}
use proc.Base.{
  ℕ, ◌+◌, ◌^◌, ◌<◌, ◌≤◌, Bool, true, false, Option, some, none, List, [], ◌∷◌, ◌==◌, ◌!=◌, ◌&&◌,
  ◌||◌, leb, ltb, ◌≡◌, ◌++◌, refl, arith, Bool-cases, inl, inr,
}
use proc.Memory.{Buffer, at}
use proc.Stream.{
  Observer, consume, Read, got, eof, interrupted, again, broken, Drained, error, idle, progress,
  limit_crossed, end_of_file, after, drain_loop, drain,
}
use proc.Stream.Prefix.{Follows, consume-Follows, consume-limit_bytes}

-- The answers deliver the stream from a position on, in parts that fit the buffer.
unfoldable pub Delivers : Buffer → ℕ → List Read → Type 0
Delivers s k [] = 0 ≤ k
Delivers s k (got b n ∷ reads) =
    (b ≡ at s k) × (0 < n) × (n ≤ 4096) × (k + n < 2 ^ 64) × Delivers s (k + n) reads
Delivers s k (eof ∷ reads) = Delivers s k reads
Delivers s k (interrupted ∷ reads) = Delivers s k reads
Delivers s k (again ∷ reads) = Delivers s k reads
Delivers s k (broken ∷ reads) = Delivers s k reads

-- What a drain that ends with a result leaves behind.
unfoldable pub Leaves : Buffer → Observer → Drained → List Read → Type 0
Leaves s o error reads = o.failed ≡ 1
Leaves s o idle reads = Follows s o × Delivers s o.observed_bytes reads
Leaves s o progress reads = Follows s o × Delivers s o.observed_bytes reads
Leaves s o limit_crossed reads =
    Follows s o × Delivers s o.observed_bytes reads × (o.limit_bytes < o.observed_bytes)
Leaves s o end_of_file reads = (o.eof_observed ≡ 1) × Follows s (record o { eof_observed = 0 })

-- What holds of a loop that has taken `drained` bytes up to `k`, where it ends.
unfoldable pub Ends : Buffer → ℕ → ℕ → Option (Observer × Drained × List Read) → Type 0
Ends s k drained none = 0 ≤ k
Ends s k drained (some (o, result, reads)) =
    Leaves s o result reads
    × (k ≤ o.observed_bytes)
    × (o.observed_bytes + drained < k + 65536 + 4096)

Ends-start :
    (s : Buffer) (k n drained : ℕ) (r : Option (Observer × Drained × List Read))
    → Ends s (k + n) (drained + n) r
    → Ends s k drained r
unfolding Ends
Ends-start s k n drained none e = omega arith
Ends-start s k n drained (some (o, result, reads)) e = (e.0, omega (arith, e.1), omega (arith, e.2))

drain_loop-Ends :
    (s : Buffer) (o : Observer) (drained : ℕ) (moved : Bool) (reads : List Read)
    → Follows s o
    → Delivers s o.observed_bytes reads
    → drained < 65536
    → Ends s o.observed_bytes drained (drain_loop o drained moved reads)
unfolding drain_loop Delivers Leaves Ends
drain_loop-Ends s o drained moved [] f d lt = omega arith
drain_loop-Ends s o drained moved (eof ∷ reads) f d lt = (
  (
    refl,
    record {
      limited = f.limited;
      prefix = f.prefix;
      crossing = f.crossing;
      hashing = f.hashing;
      unstored = f.unstored;
      going_on = (f.going_on.0, f.going_on.1, refl);
    },
  ),
  omega arith,
  omega arith,
)
drain_loop-Ends s o drained moved (interrupted ∷ reads) f d lt =
    drain_loop-Ends s o drained moved reads f d lt
drain_loop-Ends s o drained true (again ∷ reads) f d lt = ((f, d), omega arith, omega arith)
drain_loop-Ends s o drained false (again ∷ reads) f d lt = ((f, d), omega arith, omega arith)
drain_loop-Ends s o drained moved (broken ∷ reads) f d lt = (refl, omega arith, omega arith)
drain_loop-Ends s o drained moved (got b n ∷ reads) f d lt =
    let (place, some_bytes, part, fits, more) = d in
    let (follows, count, consumed) = consume-Follows s o n f fits in
    let o' : Observer = (consume o (at s o.observed_bytes) n).0 in
    let delivers : Delivers s o'.observed_bytes reads = rw count more in
    let limit : o'.limit_bytes ≡ o.limit_bytes = consume-limit_bytes o (at s o.observed_bytes) n in
    rw place
      (elim (Bool-cases
        (leb o.observed_bytes o.limit_bytes && ltb o.limit_bytes (o.observed_bytes + n))) [
          | inl over ↦
              rw (drain_loop, consumed, over)
                (
                  (follows, delivers, ground (arith, count, limit)),
                  omega (arith, count),
                  omega (arith, count),
                )
          | inr under ↦ elim (Bool-cases (leb 65536 (drained + n))) [
            | inl full ↦
                rw (drain_loop, consumed, under, full)
                  ((follows, delivers), omega (arith, count), omega (arith, count))
            | inr room ↦
                rw (drain_loop, consumed, under, room)
                  (Ends-start s o.observed_bytes n drained (drain_loop o' (drained + n) true reads)
                    (rw count at (
                      drain_loop-Ends s o' (drained + n) true reads follows delivers
                        (ground arith))))
          ]
        ])

-- Between the calls of drain, the answers of read(2) deliver the stream from the place where the
-- observer is. A drain of a nonblocking descriptor that ends leaves the observer at such a place
-- again if it was idle or made progress; if it reports a crossing, also past the limit; at the end
-- of the file it notes the end, and at an error the failure. No byte is lost, and one call takes
-- fewer than 65536 + 4096 bytes.
pub drain-Leaves :
    (s : Buffer) (o : Observer) (reads : List Read) {o' : Observer} {result : Drained}
    {rest : List Read}
    → Follows s o
    → Delivers s o.observed_bytes reads
    → drain o true reads ≡ some (o', result, rest)
    → Leaves s o' result rest
      × (o.observed_bytes ≤ o'.observed_bytes)
      × (o'.observed_bytes < o.observed_bytes + 65536 + 4096)
unfolding drain Ends
drain-Leaves s o reads {o'} {result} {rest} f d h =
    let refuses : (o.limit_bytes == 0 || o.failed != 0 || o.finalized != 0) ≡ false =
      ground (arith, f.limited, f.going_on) in
    let ended : (o.eof_observed != 0) ≡ false = ground (arith, f.going_on) in
    let looped : drain_loop o 0 false reads ≡ some (o', result, rest) = rw (refuses, ended) at h in
    let e : Ends s o.observed_bytes 0 (some (o', result, rest)) =
      rw looped at (drain_loop-Ends s o 0 false reads f d (omega arith)) in
    (e.0, e.1, omega (arith, e.2))

-- An answer that ends a drain.
unfoldable pub ends : Read → Bool
ends eof = true
ends again = true
ends broken = true
ends interrupted = false
ends (got b n) = false

after-some :
    (a : Option Drained) (o : Observer) (reads : List Read)
    (more : Option (Observer × Drained × List Read))
    → (r : Observer × Drained × List Read) × (more ≡ some r)
    → (r : Observer × Drained × List Read) × ((elim a [
      | some result ↦ some (o, result, reads)
      | none ↦ more
    ])
        ≡ some r)
after-some none o reads more found = found
after-some (some result) o reads more found = ((o, result, reads), refl)

drain_loop-some :
    (o : Observer) (drained : ℕ) (moved : Bool) (reads later : List Read) (r : Read)
    → ends r ≡ true
    → (result : Observer × Drained × List Read) × (drain_loop o drained moved (reads ++ r ∷ later)
        ≡ some result)
unfolding drain_loop ends
drain_loop-some o drained moved [] later eof e = (_, refl)
drain_loop-some o drained moved [] later again e = (_, refl)
drain_loop-some o drained moved [] later broken e = (_, refl)
drain_loop-some o drained moved [] later interrupted e = absurd (false≢true e)
drain_loop-some o drained moved [] later (got b n) e = absurd (false≢true e)
drain_loop-some o drained moved (eof ∷ reads) later r e = (_, refl)
drain_loop-some o drained moved (interrupted ∷ reads) later r e =
    drain_loop-some o drained moved reads later r e
drain_loop-some o drained moved (again ∷ reads) later r e = (_, refl)
drain_loop-some o drained moved (broken ∷ reads) later r e = (_, refl)
drain_loop-some o drained moved (got b n ∷ reads) later r e =
    after-some (after (consume o b n).1 (drained + n)) (consume o b n).0 (reads ++ r ∷ later)
      (drain_loop (consume o b n).0 (drained + n) true (reads ++ r ∷ later))
      (drain_loop-some (consume o b n).0 (drained + n) true reads later r e)

-- A drain ends, at the latest with the first answer that is the end of the file, an error or that
-- no bytes are there, in whatever state the observer is.
pub drain-some :
    (o : Observer) (nonblocking : Bool) (reads later : List Read) (r : Read)
    → ends r ≡ true
    → (result : Observer × Drained × List Read) × (drain o nonblocking (reads ++ r ∷ later)
        ≡ some result)
unfolding drain
drain-some o nonblocking reads later r e =
    elim (Bool-cases (o.limit_bytes == 0 || o.failed != 0 || o.finalized != 0)) [
      | inl refuses ↦ rw refuses (_, refl)
      | inr accepts ↦ elim (Bool-cases (o.eof_observed != 0)) [
        | inl ended ↦ rw (accepts, ended) (_, refl)
        | inr going ↦ elim (Bool-cases nonblocking) [
          | inl flag ↦ rw (accepts, going, flag) (drain_loop-some o 0 false reads later r e)
          | inr no_flag ↦ rw (accepts, going, no_flag) (_, refl)
        ]
      ]
    ]
