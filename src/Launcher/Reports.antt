-- ===== src/Launcher/Reports.antt =====
-- native/proc17_qa_launcher_v1.c: a run with STARTED and RESULT ends in a report of the result.
use proc.Base.{ℕ, ◌+◌, ◌==◌, Bool, true, false, some, ◌≡◌, refl, sym, ap, ◌∙◌, arith, eq→==}
use proc.Launcher.{
  Expectation, Machine, Terminal, fresh, stage_matches_source, feed_public_bytes,
  accept_complete_frame, next_frame, child_wait_is_clean, finish_seen, finish_machine,
}
use proc.Launcher.Accepts.{
  held, held_bytes, held_decoded, held_phase, after_started, after_result, fed_started, fed_result,
  frame_parts,
}
use proc.Launcher.Whole.{between, feed_public_bytes-frame}
use proc.Memory.{Buffer, at, zeroed, Agree, copy_start}
use proc.Wire.Frame.{View}
use proc.Wire.Frame.Extent.{moved}
use proc.Wire.RunV1.{decode_run_v1}
use proc.Wire.RunV1.Copies.{decode_run_v1_ext}
use proc.Wire.RunV1.RoundTrip.{decode_run_v1-payload_valid, payload_valid_size}

-- A frame of a kind that decodes for the identity.
pub record Received (e : Expectation) (frame : Buffer) (n kind : ℕ) : Type 0 where
  pub view : View
  pub decoded : decode_run_v1 frame n ≡ some view
  pub of_kind : view.kind ≡ kind
  pub own : Agree 128 view.payload e.identity

-- The frame at another place.
abbrev pub received_ext :
    (e : Expectation) (a b : Buffer) (n kind : ℕ)
    → Agree n a b
    → Received e a n kind
    → Received e b n kind
received_ext e a b n kind same f =
    let (again, payload) = decode_run_v1_ext a b n same f.decoded in
    let (_, valid, _) = decode_run_v1-payload_valid a n f.decoded in
    let (_, long, _) = payload_valid_size f.view.kind f.view.payload f.view.payload_bytes valid in
    record {
      view = moved f.view b;
      decoded = again;
      of_kind = f.of_kind;
      own = λ i lt. sym (payload i (omega arith)) ∙ f.own i lt;
    }

feed_received :
    (e : Expectation) (m : Machine) (frame : Buffer) (n kind : ℕ) (f : Received e frame n kind)
    → feed_public_bytes e (between m) frame n
      ≡ next_frame
          (held e m frame n f.view f.decoded f.own)
          (accept_complete_frame e (held e m frame n f.view f.decoded f.own))
feed_received e m frame n kind f =
    let (total, within, size) = frame_parts e m frame n f.view f.decoded f.own in
    ap (λ k. feed_public_bytes e (between m) frame k) total
    ∙ (feed_public_bytes-frame e m frame f.view.payload_bytes within size).0

module _ (e : Expectation) (s r : Buffer) (sn rn : ℕ) (f : Received e s sn 6)
    (g : Received e r rn 7) (announced : stage_matches_source (at f.view.payload 168) e ≡ true)
    (ended : stage_matches_source (at g.view.payload 428) e ≡ true)
    (same : Agree 84 (at g.view.payload 428) (at f.view.payload 168)) where
  abbrev one : Machine
  one = after_started e fresh s sn f.view f.decoded f.own

  abbrev two : Machine
  two = after_result e one r rn g.view g.decoded g.own

  first : feed_public_bytes e fresh s sn ≡ (one, true)
  first =
      feed_received e fresh s sn 6 f
      ∙ fed_started e fresh s sn f.view f.decoded f.own f.of_kind refl announced

  stage_kept : Agree 84 (at g.view.payload 428) one.started_stage
  stage_kept i lt =
      let (size, _) = (held_phase e fresh s sn f.view f.decoded f.own).0 f.of_kind in
      same i lt
      ∙ (held_decoded e fresh s sn f.view f.decoded f.own).1 (168 + i) (omega (arith, size))
      ∙ sym (
          copy_start i (at (at (held e fresh s sn f.view f.decoded f.own).pending 48) 168) 84 zeroed
            lt)

  second : feed_public_bytes e one r rn ≡ (two, true)
  second =
      feed_received e one r rn 7 g
      ∙ fed_result e one r rn g.view g.decoded g.own g.of_kind refl ended stage_kept

  bytes_kept : (two.terminal_bytes ≡ rn) × Agree rn two.terminal_frame r
  bytes_kept =
      let (count, bytes) = held_bytes e one r rn g.view g.decoded g.own in
      let there = held e one r rn g.view g.decoded g.own in
      (
        count,
        λ i lt.
            copy_start i there.pending there.pending_bytes zeroed (omega (arith, count))
            ∙ bytes i lt,
      )

  terminal_decoded :
      decode_run_v1 two.terminal_frame two.terminal_bytes ≡ some (moved g.view two.terminal_frame)
  terminal_decoded =
      let (count, bytes) = bytes_kept in
      ap (λ k. decode_run_v1 two.terminal_frame k) count
      ∙ (decode_run_v1_ext r two.terminal_frame rn (λ i lt. sym (bytes i lt)) g.decoded).0

  abbrev reported : ℕ → Terminal
  reported status = finish_seen two status (moved g.view two.terminal_frame)

  reported_fields :
      (status : ℕ)
      → ((reported status).kind ≡ 1)
        × ((reported status).started_attested ≡ 1)
        × ((reported status).frame_bytes ≡ rn)
        × Agree rn (reported status).frame r
  unfolding finish_seen
  reported_fields status =
      let (count, bytes) = bytes_kept in
      let result : (g.view.kind == 7) ≡ true = eq→== g.view.kind 7 g.of_kind in
      let regular : (g.view.kind == 8) ≡ false = ground (arith, g.of_kind) in
      rw (result, regular)
        (
          refl,
          refl,
          count,
          λ i lt.
              copy_start i two.terminal_frame two.terminal_bytes zeroed (omega (arith, count))
              ∙ bytes i lt,
        )

  -- A STARTED frame and then a RESULT frame, both for the identity and with the same, expected
  -- source stage, are taken from a fresh machine on; where the supervisor was reaped with a clean
  -- wait status and the pipe ended, the launcher reports the result, with the frame as it came.
  pub finish_machine-reports :
      (status : ℕ) (watchdog : Bool)
      → child_wait_is_clean status ≡ true
      → (m m' : Machine) × (t : Terminal) × (feed_public_bytes e fresh s sn ≡ (m, true))
        × (feed_public_bytes e m r rn ≡ (m', true))
        × (finish_machine m' status true true watchdog ≡ some t)
        × (t.kind ≡ 1)
        × (t.started_attested ≡ 1)
        × (t.frame_bytes ≡ rn)
        × Agree rn t.frame r
  unfolding finish_machine
  finish_machine-reports status watchdog clean =
      let (kind, attested, count, bytes) = reported_fields status in
      (
        one,
        two,
        reported status,
        first,
        second,
        rw (clean, terminal_decoded) refl,
        kind,
        attested,
        count,
        bytes,
      )
