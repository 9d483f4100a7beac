-- ===== src/Launcher/Accepts.antt =====
-- native/proc17_qa_launcher_v1.c: a run whose frames are in order is reported.
use proc.Base.{
  ℕ, ◌+◌, ◌-◌, ◌≤◌, true, false, ◌==◌, some, ◌≡◌, refl, sym, ap, fun_ext, ◌∙◌, arith, eq→==,
}
use proc.Launcher.{
  Expectation, Machine, stage_matches_source, accept_started, accept_terminal, terminal_allowed,
  accept_complete_frame, next_frame,
}
use proc.Launcher.Order.{stage_matches_source-copy}
use proc.Launcher.Whole.{between, collected, feed_public_bytes-frame}
use proc.Memory.{Buffer, at, copy, clear, zeroed, mem_eq, Agree, Agree-mem_eq}
use proc.Wire.Frame.{View}
use proc.Wire.Frame.Canonical.{decode-Accepted}
use proc.Wire.Frame.Extent.{moved}
use proc.Wire.Integers.{get_u16, get_u32}
use proc.Wire.RunV1.{decode_run_v1}
use proc.Wire.RunV1.Copies.{decode_run_v1_ext}
use proc.Wire.RunV1.RoundTrip.{decode_run_v1-payload_valid, payload_valid_size, payload_valid-phase}

pub stage_matches_source_ext :
    (e : Expectation) (a b : Buffer)
    → Agree 84 a b
    → stage_matches_source a e ≡ stage_matches_source b e
stage_matches_source_ext e a b same =
    sym (stage_matches_source-copy e a zeroed)
    ∙ ap (λ (s : Buffer). stage_matches_source s e) (fun_ext cell)
    ∙ stage_matches_source-copy e b zeroed
  where
    cell : (i : ℕ) → copy 0 a 84 zeroed i ≡ copy 0 b 84 zeroed i
    cell i = ground (arith, same (i - 0))

module _ (e : Expectation) (m : Machine) (frame : Buffer) (n : ℕ) (v : View)
    (decoded : decode_run_v1 frame n ≡ some v) (own : Agree 128 v.payload e.identity) where
  abbrev pub held : Machine
  held = collected e m frame v.payload_bytes

  pub frame_parts :
      (n ≡ 80 + v.payload_bytes)
      × (v.payload_bytes ≤ 4016)
      × (get_u32 (at frame 12) ≡ v.payload_bytes)
  frame_parts =
      let ok = decode-Accepted frame n (decode_run_v1-payload_valid frame n decoded).0 in
      (ok.total, ok.within, ok.size)

  pub held_bytes : (held.pending_bytes ≡ n) × Agree n held.pending frame
  held_bytes =
      let (total, within, size) = frame_parts in
      let (_, count, same) = feed_public_bytes-frame e m frame v.payload_bytes within size in
      (count ∙ sym total, λ i lt. same i (omega (arith, total)))

  pub held_decoded :
      (decode_run_v1 held.pending held.pending_bytes ≡ some (moved v held.pending))
      × Agree v.payload_bytes v.payload (at held.pending 48)
  held_decoded =
      let (again, payload) =
        decode_run_v1_ext frame held.pending n (λ i lt. sym (held_bytes.1 i lt)) decoded in
      (ap (λ k. decode_run_v1 held.pending k) held_bytes.0 ∙ again, payload)

  held_own : mem_eq 128 (at held.pending 48) e.identity ≡ true
  held_own =
      let (_, valid, _) = decode_run_v1-payload_valid frame n decoded in
      let (_, long, _) = payload_valid_size v.kind v.payload v.payload_bytes valid in
      Agree-mem_eq 128 (at held.pending 48) e.identity
        λ i lt. sym (held_decoded.1 i (omega arith)) ∙ own i lt

  pub held_phase :
      (v.kind ≡ 6 → (v.payload_bytes ≡ 252) × (get_u16 (at (at held.pending 48) 128) ≡ 1))
      × (v.kind ≡ 7 → (v.payload_bytes ≡ 512) × (get_u16 (at (at held.pending 48) 128) ≡ 2))
  held_phase =
      let (_, valid, _) =
        decode_run_v1-payload_valid held.pending held.pending_bytes held_decoded.0 in
      payload_valid-phase v.kind (at held.pending 48) v.payload_bytes valid

  -- The machine that has taken the frame as STARTED, between two frames.
  abbrev pub after_started : Machine
  after_started = record (between held) {
    pending = clear 0 held.pending_bytes held.pending;
    started_token = copy 0 (at (at held.pending 48) 136) 32 m.started_token;
    started_stage = copy 0 (at (at held.pending 48) 168) 84 m.started_stage;
    started_seen = 1;
  }

  abbrev pub after_result : Machine
  after_result = record (between held) {
    pending = clear 0 held.pending_bytes held.pending;
    terminal_frame = copy 0 held.pending held.pending_bytes m.terminal_frame;
    terminal_bytes = held.pending_bytes;
    terminal_kind = v.kind;
    terminal_seen = 1;
  }

  pub fed_started :
      v.kind ≡ 6
      → m.started_seen ≡ 0
      → stage_matches_source (at v.payload 168) e ≡ true
      → next_frame held (accept_complete_frame e held) ≡ (after_started, true)
  unfolding next_frame accept_complete_frame accept_started
  fed_started kind unseen matches =
      let (size, phase) = held_phase.0 kind in
      let stage : stage_matches_source (at (at held.pending 48) 168) e ≡ true =
        stage_matches_source_ext e (at (at held.pending 48) 168) (at v.payload 168)
          (λ i lt. sym (held_decoded.1 (168 + i) (omega (arith, size))))
        ∙ matches in
      rw
        (
          held_decoded.0,
          held_own,
          eq→== v.kind 6 kind,
          eq→== m.started_seen 0 unseen,
          eq→== _ 1 phase,
          stage,
        )
        refl

  pub fed_result :
      v.kind ≡ 7
      → m.started_seen ≡ 1
      → stage_matches_source (at v.payload 428) e ≡ true
      → Agree 84 (at v.payload 428) m.started_stage
      → next_frame held (accept_complete_frame e held) ≡ (after_result, true)
  unfolding next_frame accept_complete_frame accept_terminal terminal_allowed
  fed_result kind seen matches same =
      let (size, phase) = held_phase.1 kind in
      let stage_same : Agree 84 (at (at held.pending 48) 428) (at v.payload 428) =
        λ i lt. sym (held_decoded.1 (428 + i) (omega (arith, size))) in
      let stage : stage_matches_source (at (at held.pending 48) 428) e ≡ true =
        stage_matches_source_ext e (at (at held.pending 48) 428) (at v.payload 428) stage_same
        ∙ matches in
      let equal : mem_eq 84 (at (at held.pending 48) 428) m.started_stage ≡ true =
        Agree-mem_eq 84 (at (at held.pending 48) 428) m.started_stage
          (λ i lt. stage_same i lt ∙ same i lt) in
      let not_started : (v.kind == 6) ≡ false = ground arith in
      rw
        (
          held_decoded.0,
          held_own,
          not_started,
          eq→== v.kind 7 kind,
          eq→== m.started_seen 1 seen,
          eq→== _ 2 phase,
          stage,
          equal,
        )
        refl
