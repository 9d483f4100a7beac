-- ===== src/Launcher/Chunks.antt =====
-- native/proc17_qa_launcher_v1.c: the bytes of the pipe are taken alike in whatever chunks they come.
use native.Mathlib.Nat.{le_refl}
use proc.Base.{
  ℕ, zero, suc, ◌+◌, ◌-◌, ◌≤◌, ◌<◌, Bool, true, false, ◌&&◌, ◌||◌, ◌==◌, ◌!=◌, leb, ltb,
  if◌then◌else◌, Option, some, none, ◌≡◌, ◌≢◌, ◌⊎◌, refl, sym, ap, fun_ext, ◌∙◌, arith, Bool-cases,
  inl, inr, ==→eq,
}
use proc.Memory.{Buffer, at, copy, copy_zero}
use proc.Launcher.{
  Expectation, Machine, fresh, machine_fail, accept_complete_frame, target, take_bytes,
  learn_length, next_frame, complete, turn, feed_loop, feed_public_bytes,
}

-- What follows a result, if that is a success.
abbrev pub andthen : Machine × Bool → (Machine → Machine × Bool) → Machine × Bool
andthen (m, true) f = f m
andthen (m, false) f = (m, false)

-- The bytes one at a time, up to the first that fails.
unfoldable pub each_byte : ℕ → Expectation → Machine → Buffer → Machine × Bool
each_byte zero e m bytes = (m, true)
each_byte (suc k) e m bytes = andthen (each_byte k e m bytes) (λ m'. turn e m' (at bytes k) 1)

-- A machine that waits for more bytes.
pub record Waits (m : Machine) : Type 0 where
  pub room : m.pending_bytes < target m
  pub frame : (m.expected_frame_bytes ≡ 0) ⊎ (80 ≤ m.expected_frame_bytes)

-- One byte more is one copy more.
take_bytes-suc :
    (m : Machine) (bytes : Buffer) (k : ℕ)
    → take_bytes (take_bytes m bytes k) (at bytes k) 1 ≡ take_bytes m bytes (suc k)
take_bytes-suc m bytes k i = record m { pending = pending_same i; pending_bytes = count i }
  where
    count : m.pending_bytes + k + 1 ≡ m.pending_bytes + suc k
    count = omega arith

    pending_same :
        copy (m.pending_bytes + k) (at bytes k) 1 (copy m.pending_bytes bytes k m.pending)
        ≡ copy m.pending_bytes bytes (suc k) m.pending
    pending_same = fun_ext cell
      where
        cell :
            (i : ℕ)
            → copy (m.pending_bytes + k) (at bytes k) 1 (copy m.pending_bytes bytes k m.pending) i
              ≡ copy m.pending_bytes bytes (suc k) m.pending i
        cell i = elim (Bool-cases (leb (m.pending_bytes + k) i)) [
          | inl above ↦
              let shift : k + (i - (m.pending_bytes + k)) ≡ i - m.pending_bytes = ground arith in
              ground (arith, ap bytes shift)
          | inr below ↦ ground arith
        ]

take_bytes-zero : (m : Machine) (bytes : Buffer) → take_bytes m bytes 0 ≡ m
take_bytes-zero m bytes i = record m {
  pending = copy_zero m.pending_bytes bytes m.pending i;
  pending_bytes = count i;
}
  where
    count : m.pending_bytes + 0 ≡ m.pending_bytes
    count = omega arith

-- Bytes that do not fill what the machine waits for are only taken.
turn_short :
    (e : Expectation) (m : Machine) (bytes : Buffer) (n : ℕ)
    → (m.invariant_failed != 0 || m.terminal_seen != 0) ≡ false
    → m.pending_bytes + n < target m
    → turn e m bytes n ≡ (take_bytes m bytes n, true)
unfolding turn learn_length complete
turn_short e m bytes n good short =
    let unlearned : (m.expected_frame_bytes == 0 && m.pending_bytes + n == 16) ≡ false =
      ground arith in
    let unfilled : (m.expected_frame_bytes != 0 && m.pending_bytes + n == m.expected_frame_bytes)
        ≡ false =
      ground arith in
    rw (good, unlearned, unfilled) refl

turn-fails :
    (e : Expectation) (m : Machine) (bytes : Buffer) (n : ℕ)
    → (m.invariant_failed != 0 || m.terminal_seen != 0) ≡ true
    → turn e m bytes n ≡ (machine_fail m, false)
unfolding turn
turn-fails e m bytes n bad = rw bad refl

-- One more byte is one more turn.
turn-suc :
    (e : Expectation) (m : Machine) (bytes : Buffer) (k : ℕ)
    → (m.invariant_failed != 0 || m.terminal_seen != 0) ≡ false
    → turn e (take_bytes m bytes k) (at bytes k) 1 ≡ turn e m bytes (suc k)
unfolding turn
turn-suc e m bytes k good =
    rw good (ap (λ (t : Machine). complete e t (learn_length t)) (take_bytes-suc m bytes k))

module _ (e : Expectation) (bytes : Buffer) where
  each_byte_short :
      (m : Machine) (k : ℕ)
      → (m.invariant_failed != 0 || m.terminal_seen != 0) ≡ false
      → m.pending_bytes + k < target m
      → each_byte k e m bytes ≡ (take_bytes m bytes k, true)
  unfolding each_byte
  each_byte_short m zero good short =
      ap (λ (t : Machine). (t, true)) (sym (take_bytes-zero m bytes))
  each_byte_short m (suc k) good short =
      rw (each_byte_short m k good (omega arith))
        (turn-suc e m bytes k good ∙ turn_short e m bytes (suc k) good short)

  each_byte-fails :
      (m : Machine) (k : ℕ)
      → (m.invariant_failed != 0 || m.terminal_seen != 0) ≡ true
      → each_byte (suc k) e m bytes ≡ (machine_fail m, false)
  unfolding each_byte
  each_byte-fails m zero bad = turn-fails e m (at bytes 0) 1 bad
  each_byte-fails m (suc k) bad = rw (each_byte-fails m k bad) refl

  -- A turn is its bytes one at a time.
  each_byte-turn :
      (m : Machine) (k : ℕ)
      → m.pending_bytes + suc k ≤ target m
      → each_byte (suc k) e m bytes ≡ turn e m bytes (suc k)
  unfolding each_byte
  each_byte-turn m k fits = elim (Bool-cases (m.invariant_failed != 0 || m.terminal_seen != 0)) [
    | inl bad ↦ each_byte-fails m k bad ∙ sym (turn-fails e m bytes (suc k) bad)
    | inr good ↦ rw (each_byte_short m k good (omega arith)) (turn-suc e m bytes k good)
  ]

andthen-done : (r : Machine × Bool) → r ≡ andthen r (λ m. (m, true))
andthen-done (m, true) = refl
andthen-done (m, false) = refl

andthen_assoc :
    (r : Machine × Bool) (f g : Machine → Machine × Bool)
    → andthen (andthen r f) g ≡ andthen r (λ m. andthen (f m) g)
andthen_assoc (m, true) f g = refl
andthen_assoc (m, false) f g = refl

pub each_byte-add :
    (e : Expectation) (m : Machine) (bytes : Buffer) (n k : ℕ)
    → each_byte (n + k) e m bytes
      ≡ andthen (each_byte n e m bytes) (λ m'. each_byte k e m' (at bytes n))
unfolding each_byte
each_byte-add e m bytes n zero =
    ap (λ j. each_byte j e m bytes) none_more ∙ andthen-done (each_byte n e m bytes)
  where
    none_more : n + 0 ≡ n
    none_more = omega arith
each_byte-add e m bytes n (suc k) =
    ap (λ j. each_byte j e m bytes) one_more
    ∙ ap (λ (r : Machine × Bool). andthen r (λ m'. turn e m' (at bytes (n + k)) 1))
        (each_byte-add e m bytes n k)
    ∙ ap
        (λ (b : Buffer).
          andthen (andthen (each_byte n e m bytes) (λ m'. each_byte k e m' (at bytes n)))
            (λ m'. turn e m' b 1))
        (fun_ext λ i. ap bytes (behind i))
    ∙ andthen_assoc (each_byte n e m bytes) (λ m'. each_byte k e m' (at bytes n))
        (λ m'. turn e m' (at (at bytes n) k) 1)
  where
    one_more : n + suc k ≡ suc (n + k)
    one_more = omega arith

    behind : (i : ℕ) → n + k + i ≡ n + (k + i)
    behind i = omega arith

next_frame-Waits :
    (m : Machine) (o : Option Machine) → (next_frame m o).1 ≡ true → Waits (next_frame m o).0
unfolding next_frame
next_frame-Waits m none h = cc
next_frame-Waits m (some a) h = record { room = omega arith; frame = inl refl }

complete-Waits :
    (e : Expectation) (m : Machine) (o : Option Machine)
    → ((l : Machine)
        → o ≡ some l
        → (l.pending_bytes ≤ target l)
          × ((l.expected_frame_bytes ≡ 0) ⊎ (80 ≤ l.expected_frame_bytes))
          × (l.expected_frame_bytes ≡ 0 → l.pending_bytes < 16))
    → (complete e m o).1 ≡ true
    → Waits (complete e m o).0
unfolding complete
complete-Waits e m none learned h = cc
complete-Waits e m (some l) learned h =
    elim (Bool-cases (l.expected_frame_bytes != 0 && l.pending_bytes == l.expected_frame_bytes)) [
      | inl full ↦ rw full (next_frame-Waits l (accept_complete_frame e l) (rw full at h))
      | inr open_ ↦
          let (within, length, short) = learned l refl in
          rw open_ record { room = ground arith; frame = length }
    ]

learn_length-within :
    (m l : Machine)
    → m.pending_bytes ≤ target m
    → ((m.expected_frame_bytes ≡ 0) ⊎ (80 ≤ m.expected_frame_bytes))
    → learn_length m ≡ some l
    → (l.pending_bytes ≤ target l)
      × ((l.expected_frame_bytes ≡ 0) ⊎ (80 ≤ l.expected_frame_bytes))
      × (l.expected_frame_bytes ≡ 0 → l.pending_bytes < 16)
unfolding learn_length
learn_length-within m l within length h = ground arith

turn-Waits :
    (e : Expectation) (m : Machine) (bytes : Buffer) (n : ℕ)
    → Waits m
    → m.pending_bytes + n ≤ target m
    → (turn e m bytes n).1 ≡ true
    → Waits (turn e m bytes n).0
unfolding turn
turn-Waits e m bytes n w fits h =
    elim (Bool-cases (m.invariant_failed != 0 || m.terminal_seen != 0)) [
      | inl bad ↦ absurd (cc (rw bad at h))
      | inr good ↦ rw good (
          complete-Waits e (take_bytes m bytes n) (learn_length (take_bytes m bytes n))
            (λ l e'. learn_length-within (take_bytes m bytes n) l fits w.frame e') (rw good at h))
    ]

andthen-if :
    (r : Machine × Bool) (f : Machine → Machine × Bool)
    → (if r.1 then f r.0 else (r.0, false)) ≡ andthen r f
andthen-if (m, true) f = refl
andthen-if (m, false) f = refl

andthen_ext :
    (r : Machine × Bool) (f g : Machine → Machine × Bool)
    → (r.1 ≡ true → f r.0 ≡ g r.0)
    → andthen r f ≡ andthen r g
andthen_ext (m, true) f g same = same refl
andthen_ext (m, false) f g same = refl

pub each_byte-taken :
    (e : Expectation) (m : Machine) (bytes : Buffer) (n : ℕ)
    → n ≢ 0
    → m.pending_bytes + n ≤ target m
    → each_byte n e m bytes ≡ turn e m bytes n
each_byte-taken e m bytes zero some_bytes fits = absurd (some_bytes refl)
each_byte-taken e m bytes (suc k) some_bytes fits = each_byte-turn e bytes m k fits

pub feed_loop-each_byte :
    (fuel : ℕ) (e : Expectation) (m : Machine) (bytes : Buffer) (length : ℕ)
    → length ≤ fuel
    → Waits m
    → feed_loop fuel e m bytes length ≡ each_byte length e m bytes
unfolding feed_loop each_byte
feed_loop-each_byte zero e m bytes length enough w = ap (λ k. each_byte k e m bytes) none_left
  where
    none_left : 0 ≡ length
    none_left = omega arith
feed_loop-each_byte (suc fuel) e m bytes length enough w = elim (Bool-cases (length == 0)) [
  | inl empty ↦ rw empty (ap (λ k. each_byte k e m bytes) (sym (==→eq length 0 empty)))
  | inr more ↦ rw more (
      andthen-if (turn e m bytes taken)
        (λ m'. feed_loop fuel e m' (at bytes taken) (length - taken))
      ∙ andthen_ext (turn e m bytes taken) _
          (λ m'. each_byte (length - taken) e m' (at bytes taken))
          (λ ok.
            feed_loop-each_byte fuel e (turn e m bytes taken).0 (at bytes taken) (length - taken)
              (ground (arith, w.room)) (turn-Waits e m bytes taken w (ground (arith, w.room)) ok))
      ∙ ap
          (λ (r : Machine × Bool).
            andthen r (λ m'. each_byte (length - taken) e m' (at bytes taken)))
          (sym (each_byte-taken e m bytes taken (ground (arith, w.room)) (ground (arith, w.room))))
      ∙ sym (each_byte-add e m bytes taken (length - taken))
      ∙ ap (λ k. each_byte k e m bytes) parts)
]
  where
    taken : ℕ
    taken = if ltb length (target m - m.pending_bytes) then length else target m - m.pending_bytes

    parts : taken + (length - taken) ≡ length
    parts = ground arith

andthen-Waits :
    (r : Machine × Bool) (f : Machine → Machine × Bool)
    → (r.1 ≡ true → Waits r.0)
    → ((m : Machine) → Waits m → (f m).1 ≡ true → Waits (f m).0)
    → (andthen r f).1 ≡ true
    → Waits (andthen r f).0
andthen-Waits (m, true) f first next h = next m (first refl) h
andthen-Waits (m, false) f first next h = cc

each_byte-Waits :
    (k : ℕ) (e : Expectation) (m : Machine) (bytes : Buffer)
    → Waits m
    → (each_byte k e m bytes).1 ≡ true
    → Waits (each_byte k e m bytes).0
unfolding each_byte
each_byte-Waits zero e m bytes w h = w
each_byte-Waits (suc k) e m bytes w h =
    andthen-Waits (each_byte k e m bytes) (λ m'. turn e m' (at bytes k) 1)
      (each_byte-Waits k e m bytes w)
      (λ m' w' h'. turn-Waits e m' (at bytes k) 1 w' (omega (arith, w'.room)) h') h

andthen-true :
    (r : Machine × Bool) (f : Machine → Machine × Bool) → r.1 ≡ true → f r.0 ≡ andthen r f
andthen-true (m, true) f h = refl
andthen-true (m, false) f h = cc

pub fresh-Waits : Waits fresh
fresh-Waits = record { room = omega arith; frame = inl refl }

-- Two chunks, one after the other if the first is taken, leave the machine that the bytes in one
-- chunk leave, with the same result.
pub feed_public_bytes-chunks :
    (e : Expectation) (m : Machine) (bytes : Buffer) (n k : ℕ)
    → Waits m
    → (feed_public_bytes e m bytes n).1 ≡ true
    → feed_public_bytes e (feed_public_bytes e m bytes n).0 (at bytes n) k
      ≡ feed_public_bytes e m bytes (n + k)
unfolding feed_public_bytes
feed_public_bytes-chunks e m bytes n k w ok =
    let first = feed_loop-each_byte n e m bytes n (le_refl n) w in
    let taken = ap (λ (r : Machine × Bool). r.1) (sym first) ∙ ok in
    let next = each_byte-Waits n e m bytes w taken in
    rw first (
      feed_loop-each_byte k e (each_byte n e m bytes).0 (at bytes n) k (le_refl k) next
      ∙ andthen-true (each_byte n e m bytes) (λ m'. each_byte k e m' (at bytes n)) taken
      ∙ sym (each_byte-add e m bytes n k)
      ∙ sym (feed_loop-each_byte (n + k) e m bytes (n + k) (le_refl (n + k)) w))
