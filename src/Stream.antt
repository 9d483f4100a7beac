-- ===== src/Stream.antt =====
-- native/proc17_qa_stream.c: the observer of a candidate's output, which counts all bytes, hashes
-- a bounded prefix and notes where the bound is crossed.
pub mod Drain
pub mod Prefix
pub mod Report
use proc.Base.{
  ℕ, zero, suc, ◌+◌, ◌-◌, ◌*◌, ◌^◌, ◌≤◌, Bool, true, false, ◌&&◌, ◌||◌, not, Option, none, some,
  List, [], ◌∷◌, ◌==◌, ◌!=◌, leb, ltb, if◌then◌else◌, guard, ◌>>=◌, ◌>>◌,
}
use proc.Memory.{Buffer, at, poke, copy, zeroed}
use proc.Sha256.{Context, init, update, final}
use proc.Wire.Checks.{same, stream_valid}
use proc.Wire.Integers.{put_u64}

-- struct proc17_qa_stream_measurement
pub record Measurement : Type 0 where
  pub observed_bytes : ℕ
  pub hashed_bytes : ℕ
  pub limit_bytes : ℕ
  pub prefix_digest : Buffer
  pub limit_crossed : ℕ
  pub eof_observed : ℕ

-- struct proc17_qa_stream_observer
pub record Observer : Type 0 where
  pub observed_bytes : ℕ
  pub hashed_bytes : ℕ
  pub limit_bytes : ℕ
  pub hash : Context
  pub prefix_digest : Buffer
  pub limit_crossed : ℕ
  pub eof_observed : ℕ
  pub finalized : ℕ
  pub failed : ℕ

unfoldable pub measurement_valid : Measurement → Bool
measurement_valid m =
    let expected_hashed =
      if ltb m.observed_bytes m.limit_bytes then m.observed_bytes else m.limit_bytes in
    not (m.limit_bytes == 0 || m.eof_observed != 1 || ltb 1 m.limit_crossed)
    && m.hashed_bytes == expected_hashed
    && same (m.limit_crossed != 0) (ltb m.limit_bytes m.observed_bytes)

unfoldable pub start : ℕ → Option Observer
start limit_bytes =
    if limit_bytes == 0
    then none
    else some (record {
      observed_bytes = 0;
      hashed_bytes = 0;
      limit_bytes = limit_bytes;
      hash = init;
      prefix_digest = zeroed;
      limit_crossed = 0;
      eof_observed = 0;
      finalized = 0;
      failed = 0;
    })

-- The results -1, 0 and 1 of `consume`.
pub data Consumed : Type 0 where
  refused within crossed : Consumed

-- The prefix that still fits the limit is hashed.
unfoldable pub hash_prefix : Observer → Buffer → ℕ → Observer
hash_prefix o bytes hashed_now =
    if hashed_now != 0
    then record o {
      hash = update o.hash bytes hashed_now;
      hashed_bytes = o.hashed_bytes + hashed_now;
    }
    else o

-- The bytes are counted, and the first crossing of the limit is reported.
unfoldable pub count_bytes : Observer → ℕ → Observer × Consumed
count_bytes o length =
    let counted = record o { observed_bytes = o.observed_bytes + length } in
    if counted.limit_crossed == 0 && ltb counted.limit_bytes counted.observed_bytes
    then (record counted { limit_crossed = 1 }, crossed)
    else (counted, within)

abbrev pub closed : Observer → Bool
closed o = o.limit_bytes == 0 || o.failed != 0 || o.finalized != 0 || o.eof_observed != 0

unfoldable pub consume : Observer → Buffer → ℕ → Observer × Consumed
consume o bytes length =
    if closed o
    then (o, refused)
    else if ltb (2 ^ 64 - 1 - o.observed_bytes) length || ltb o.limit_bytes o.hashed_bytes
    then (record o { failed = 1 }, refused)
    else let available = o.limit_bytes - o.hashed_bytes in
      let hashed_now = if ltb available length then available else length in
      count_bytes (hash_prefix o bytes hashed_now) length

-- What one read(2) of the nonblocking descriptor yields: bytes, end of file, or an errno.
pub data Read : Type 0 where
  got : Buffer → ℕ → Read
  eof interrupted again broken : Read

-- enum proc17_qa_stream_drain_result
pub data Drained : Type 0 where
  error idle progress limit_crossed end_of_file : Drained

abbrev pub read_bytes : ℕ
read_bytes = 4096

abbrev pub slice_bytes : ℕ
slice_bytes = 65536

abbrev after : Consumed → ℕ → Option Drained
after refused drained = some error
after crossed drained = some limit_crossed
after within drained = if leb slice_bytes drained then some progress else none

-- The loop of `drain_nonblocking` over the reads that the kernel answers. `none` is a loop that
-- waits for one more answer. The unread answers are returned.
unfoldable pub drain_loop :
    Observer → ℕ → Bool → List Read → Option (Observer × Drained × List Read)
drain_loop o drained moved [] = none
drain_loop o drained moved (eof ∷ reads) = some (record o { eof_observed = 1 }, end_of_file, reads)
drain_loop o drained moved (interrupted ∷ reads) = drain_loop o drained moved reads
drain_loop o drained moved (again ∷ reads) = some (o, if moved then progress else idle, reads)
drain_loop o drained moved (broken ∷ reads) = some (record o { failed = 1 }, error, reads)
drain_loop o drained moved (got bytes n ∷ reads) =
    let (o', consumed) = consume o bytes n in
    let rest = drain_loop o' (drained + n) true reads in
    elim (after consumed (drained + n)) [ some result ↦ some (o', result, reads) | none ↦ rest ]

-- `nonblocking`: fcntl answers, and O_NONBLOCK is set.
unfoldable pub drain : Observer → Bool → List Read → Option (Observer × Drained × List Read)
drain o nonblocking reads =
    if o.limit_bytes == 0 || o.failed != 0 || o.finalized != 0
    then some (o, error, reads)
    else if o.eof_observed != 0
    then some (o, end_of_file, reads)
    else if not nonblocking
    then some (record o { failed = 1 }, error, reads)
    else drain_loop o 0 false reads

unfoldable pub finalize : Observer → Observer
finalize o =
    if o.finalized == 0
    then record o {
      hash = (final o.hash o.prefix_digest).0;
      prefix_digest = (final o.hash o.prefix_digest).1;
      finalized = 1;
    }
    else o

abbrev pub measured : Observer → Measurement
measured o = record {
  observed_bytes = o.observed_bytes;
  hashed_bytes = o.hashed_bytes;
  limit_bytes = o.limit_bytes;
  prefix_digest = copy 0 o.prefix_digest 32 zeroed;
  limit_crossed = o.limit_crossed;
  eof_observed = o.eof_observed;
}

-- The new observer, with the measurement or -1.
unfoldable pub snapshot : Observer → Observer × Option Measurement
snapshot o =
    if o.limit_bytes == 0 || o.failed != 0 || o.eof_observed != 1
    then (o, none)
    else let o' = finalize o in
      (o', if measurement_valid (measured o') then some (measured o') else none)

-- The writes of `encode_v1`, at `k` of the output.
unfoldable pub write_v1 : ℕ → Measurement → Buffer → Buffer
write_v1 k m output = poke (k + 57) m.eof_observed (
    poke (k + 56) m.limit_crossed (
      copy (k + 24) m.prefix_digest 32 (
        put_u64 (k + 16) m.limit_bytes (
          put_u64 (k + 8) m.hashed_bytes
            (put_u64 (k + 0) m.observed_bytes (copy (k + 0) zeroed 64 output))))))

unfoldable pub encode_v1 : ℕ → Measurement → Buffer → Option Buffer
encode_v1 k m output = do
  guard (measurement_valid m)
  let written = write_v1 k m output
  guard (stream_valid (at written k))
  some written
