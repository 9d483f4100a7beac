-- ===== src/Launcher/Whole.antt =====
-- native/proc17_qa_launcher_v1.c: a whole frame is put together and handed over once.
use native.Mathlib.Nat.{le_refl}
use proc.Base.{
  ℕ, ◌+◌, ◌-◌, ◌≤◌, Bool, true, false, ◌&&◌, ◌==◌, ◌!=◌, ltb, some, ◌≡◌, refl, ap, ◌∙◌, arith,
  Bool-cases, inl, inr,
}
use proc.Launcher.{
  Expectation, Machine, accept_complete_frame, take_bytes, learn_length, next_frame, complete, turn,
  feed_public_bytes,
}
use proc.Launcher.Chunks.{andthen, each_byte, each_byte-add, each_byte-taken, feed_loop-each_byte}
use proc.Memory.{Buffer, at, Agree}
use proc.Wire.Integers.{get_u32}

-- A machine between two frames, that no frame has ended.
abbrev pub between : Machine → Machine
between m = record m {
  pending_bytes = 0;
  expected_frame_bytes = 0;
  terminal_seen = 0;
  invariant_failed = 0;
}

module _ (e : Expectation) (m : Machine) (frame : Buffer) (payload_bytes : ℕ) where
  -- The machine that knows the length.
  abbrev learned : Machine
  learned = record (take_bytes (between m) frame 16) { expected_frame_bytes = 80 + payload_bytes }

  -- The machine with all bytes of the frame.
  abbrev pub collected : Machine
  collected = take_bytes learned (at frame 16) (64 + payload_bytes)

  module _ (fits : payload_bytes ≤ 4016) (size : get_u32 (at frame 12) ≡ payload_bytes) where
    length_read : get_u32 (at (take_bytes (between m) frame 16).pending 12) ≡ payload_bytes
    unfolding get_u32
    length_read = size

    learn : learn_length (take_bytes (between m) frame 16) ≡ some learned
    unfolding learn_length
    learn =
        let small : ltb 4016 payload_bytes ≡ false = ground arith in rw (length_read, small) refl

    turn_first : turn e (between m) frame 16 ≡ (learned, true)
    unfolding turn complete
    turn_first =
        let unfilled : ((80 + payload_bytes) != 0 && 16 == 80 + payload_bytes) ≡ false =
          ground arith in
        rw (learn, unfilled) refl

    turn_second :
        turn e learned (at frame 16) (64 + payload_bytes)
        ≡ next_frame collected (accept_complete_frame e collected)
    unfolding turn learn_length complete
    turn_second =
        let known : (80 + payload_bytes == 0) ≡ false = ground arith in
        let filled : ((80 + payload_bytes) != 0 && 16 + (64 + payload_bytes) == 80 + payload_bytes)
            ≡ true =
          ground arith in
        rw (known, filled) refl

    first_bytes : each_byte 16 e (between m) frame ≡ (learned, true)
    first_bytes =
        each_byte-taken e (between m) frame 16 (λ z. absurd (omega (arith, z))) (omega arith)
        ∙ turn_first

    known_length : (80 + payload_bytes == 0) ≡ false
    known_length = ground arith

    second_bytes :
        each_byte (64 + payload_bytes) e learned (at frame 16)
        ≡ next_frame collected (accept_complete_frame e collected)
    second_bytes =
        each_byte-taken e learned (at frame 16) (64 + payload_bytes)
          (λ z. absurd (omega (arith, z))) (rw known_length (omega arith))
        ∙ turn_second

    -- Between two frames, the bytes of a frame, as many as its length field says, are taken to the
    -- end and the frame is handed over; the bytes handed over are those of the frame.
    pub feed_public_bytes-frame :
        (feed_public_bytes e (between m) frame (80 + payload_bytes)
          ≡ next_frame collected (accept_complete_frame e collected))
        × (collected.pending_bytes ≡ 80 + payload_bytes)
        × Agree (80 + payload_bytes) collected.pending frame
    unfolding feed_public_bytes
    feed_public_bytes-frame =
        let parts : 80 + payload_bytes ≡ 16 + (64 + payload_bytes) = omega arith in
        (
          feed_loop-each_byte (80 + payload_bytes) e (between m) frame (80 + payload_bytes)
                (le_refl _) (record { room = omega arith; frame = inl refl })
              ∙ ap (λ k. each_byte k e (between m) frame) parts
              ∙ each_byte-add e (between m) frame 16 (64 + payload_bytes)
              ∙ ap
                  (λ (r : Machine × Bool).
                    andthen r (λ m'. each_byte (64 + payload_bytes) e m' (at frame 16)))
                  first_bytes
              ∙ second_bytes,
          omega arith,
          same,
        )
      where
        same : Agree (80 + payload_bytes) collected.pending frame
        same i lt = elim (Bool-cases (ltb i 16)) [
          | inl front ↦ ground arith
          | inr back ↦
              let there : 16 + (i - 16) ≡ i = ground arith in ground (arith, ap frame there)
        ]
