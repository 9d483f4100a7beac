-- ===== src/Tests/Drains.antt =====
-- native/proc17_qa_stream.c: drains at concrete answers of read(2).
use proc.Base.{[], ◌∷◌, ◌++◌, some, true, ◌+◌, ◌<◌, ◌≤◌, ◌≡◌, List, refl, arith}
use proc.Memory.{at, zeroed}
use proc.Sha256.{init}
use proc.Stream.{
  Observer, Read, got, interrupted, again, eof, Drained, limit_crossed, drain, drain_loop, consume,
  hash_prefix, count_bytes, start,
}
use proc.Stream.Drain.{Delivers, Leaves, ends, drain-Leaves, drain-some}
use proc.Stream.Prefix.{Follows, start-Follows}

-- A limit of ten bytes.
abbrev observer : Observer
observer = record {
  observed_bytes = 0;
  hashed_bytes = 0;
  limit_bytes = 10;
  hash = init;
  prefix_digest = zeroed;
  limit_crossed = 0;
  eof_observed = 0;
  finalized = 0;
  failed = 0;
}

observer-Follows : Follows zeroed observer
unfolding start
observer-Follows = start-Follows zeroed 10 refl

-- Four bytes, a signal, eight bytes, and no more.
abbrev answers : List Read
answers = got zeroed 4 ∷ interrupted ∷ got (at zeroed 4) 8 ∷ again ∷ []

answers-Delivers : Delivers zeroed 0 answers
unfolding Delivers
answers-Delivers = (
  refl,
  omega arith,
  omega arith,
  omega arith,
  (refl, omega arith, omega arith, omega arith, omega arith),
)

abbrev drained : Observer
drained = (consume (consume observer zeroed 4).0 (at zeroed 4) 8).0

drain-Leaves_example :
    Leaves zeroed drained limit_crossed (again ∷ [])
    × (0 ≤ drained.observed_bytes)
    × (drained.observed_bytes < 0 + 65536 + 4096)
unfolding drain drain_loop consume hash_prefix count_bytes
drain-Leaves_example = drain-Leaves zeroed observer answers observer-Follows answers-Delivers refl

drain-some_example :
    (result : Observer × Drained × List Read) × (drain observer true
        ((got zeroed 4 ∷ interrupted ∷ []) ++ eof ∷ [])
      ≡ some result)
unfolding ends
drain-some_example = drain-some observer true (got zeroed 4 ∷ interrupted ∷ []) [] eof refl
