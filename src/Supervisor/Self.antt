-- ===== src/Supervisor/Self.antt =====
-- native/proc17_qa_supervisor.c: the digest of the file behind a descriptor, as sha_self takes it of
-- the supervisor. The answers of pread are arguments, by the offset that is asked for.
use proc.Base.{
  ℕ, zero, suc, ◌+◌, ◌-◌, ◌<◌, ◌≤◌, false, ◌==◌, ltb, if◌then◌else◌, Option, none, some, ◌≡◌, refl,
  ap, inl, inr, arith, Bool-cases, ==→eq, ltb→lt,
}
use proc.Memory.{Buffer, at, zeroed}
use proc.Sha256.{Context, init, update, final, sha256_bytes}
use proc.Sha256.Update.{update-init, update_nothing}
use proc.System.{Calls, retry}

-- What one pread gives: an error, the end of the file, too much, or bytes to go on behind.
unfoldable pub hash_turn : Option ℕ → ℕ → Context → (ℕ → Option Context) → Option Context
hash_turn none room context next = none
hash_turn (some observed) room context next =
    if observed == 0 then some context else if ltb room observed then none else next observed

-- The loop, for at most `turns` turns: what pread takes at the offset `total` is the file from there
-- on.
unfoldable pub hash_loop : (ℕ → Calls (Option ℕ)) → Buffer → ℕ → ℕ → Context → ℕ → Option Context
hash_loop preads file ceiling zero context total = none
hash_loop preads file ceiling (suc turns) context total =
    hash_turn (retry (preads total)) (ceiling - total) context (λ observed.
      hash_loop preads file ceiling turns (update context (at file total) observed)
        (total + observed))

abbrev finish_hash : Option Context → Option Buffer
finish_hash none = none
finish_hash (some context) = some (final context zeroed).1

-- The digest, or none for -1.
unfoldable pub hash_descriptor : (ℕ → Calls (Option ℕ)) → Buffer → ℕ → Option Buffer
hash_descriptor preads file ceiling =
    finish_hash (hash_loop preads file ceiling (ceiling + 2) init 0)

-- What pread promises of a file of the given length: bytes of the file, and none only at its end.
abbrev pub Delivers : (ℕ → Calls (Option ℕ)) → ℕ → Type 0
Delivers preads size =
    (offset : ℕ)
    → offset ≤ size
    → (n : ℕ) × (retry (preads offset) ≡ some n) × (offset + n ≤ size) × (n ≡ 0 → offset ≡ size)

module _ (preads : ℕ → Calls (Option ℕ)) (file : Buffer) (size : ℕ)
    (delivers : Delivers preads size) where
  hash_loop_whole :
      (ceiling turns total : ℕ)
      → size ≤ ceiling
      → total ≤ size
      → size < turns + total
      → hash_loop preads file ceiling turns (update init file total) total
        ≡ some (update init file size)
  unfolding hash_loop hash_turn
  hash_loop_whole ceiling zero total small inside enough = absurd (omega arith)
  hash_loop_whole ceiling (suc turns) total small inside enough =
      let (n, answer, within, ended) = delivers total inside in
      elim (Bool-cases (n == 0)) [
        | inl stop ↦
            rw (answer, stop) (ap (λ k. some (update init file k)) (ended (==→eq n 0 stop)))
        | inr more ↦
            let some_bytes : 0 < n = ground (arith, more) in
            let fits : ltb (ceiling - total) n ≡ false = ground (arith, within, small) in
            rw (answer, more, fits, update-init file total n)
              (hash_loop_whole ceiling turns (total + n) small within (omega (arith, some_bytes)))
      ]

  hash_loop_large :
      (ceiling turns total : ℕ)
      → ceiling < size
      → total ≤ ceiling
      → hash_loop preads file ceiling turns (update init file total) total ≡ none
  unfolding hash_loop hash_turn
  hash_loop_large ceiling zero total large inside = refl
  hash_loop_large ceiling (suc turns) total large inside =
      let (n, answer, within, ended) = delivers total (omega arith) in
      let more : (n == 0) ≡ false = ground (arith, ended) in
      elim (Bool-cases (ltb (ceiling - total) n)) [
        | inl over ↦ rw (answer, more, over) refl
        | inr fits ↦
            rw (answer, more, fits, update-init file total n)
              (hash_loop_large ceiling turns (total + n) large (ground (arith, fits, inside)))
      ]

-- A file that fits the ceiling is hashed as a whole, and a larger one is refused.
pub hash_descriptor-sha256_bytes :
    (preads : ℕ → Calls (Option ℕ)) (file : Buffer) (size ceiling : ℕ)
    → Delivers preads size
    → hash_descriptor preads file ceiling
      ≡ (if ltb ceiling size then none else some (sha256_bytes file size zeroed))
unfolding hash_descriptor sha256_bytes
hash_descriptor-sha256_bytes preads file size ceiling delivers =
    elim (Bool-cases (ltb ceiling size)) [
      | inl large ↦
          let refused =
            hash_loop_large preads file size delivers ceiling (ceiling + 2) 0 (ltb→lt _ _ large)
              (omega arith) in
          rw large (ap finish_hash (rw update_nothing at refused))
      | inr small ↦
          let fits : size ≤ ceiling = ground (arith, small) in
          let hashed =
            hash_loop_whole preads file size delivers ceiling (ceiling + 2) 0 fits (omega arith)
              (omega (arith, fits)) in
          rw small (ap finish_hash (rw update_nothing at hashed))
    ]
