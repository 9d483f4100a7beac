-- ===== src/Launcher/Order.antt =====
-- native/proc17_qa_launcher_v1.c: what a terminal frame that is kept comes with.
use proc.Base.{
  ℕ, zero, suc, ◌+◌, ◌-◌, Bool, true, false, ◌&&◌, ◌||◌, ◌==◌, ◌!=◌, ltb, if◌then◌else◌, List, [],
  ◌∷◌, Option, some, none, guard, ◌>>◌, ◌≡◌, ◌≢◌, ◌⊎◌, refl, sym, ap, ◌∙◌, arith, Bool-cases, inl,
  inr, >>=-eq-some,
}
use proc.Launcher.{
  Expectation, Machine, stage_matches_source, accept_started, accept_terminal, terminal_allowed,
  accept_complete_frame, take_bytes, learn_length, next_frame, complete, turn, target, feed_loop,
  feed_public_bytes, fresh, finish_seen, finish_unseen, finish_machine, Terminal,
}
use proc.Memory.{Buffer, at, copy, mem_eq, zeroed, Agree, mem_eq-Agree, copy_start}
use proc.Wire.Checks.{checks}
use proc.Wire.Frame.{View}
use proc.Wire.RunV1.{decode_run_v1}
use proc.Wire.RunV1.Copies.{decode_run_v1_ext}
use proc.Wire.RunV1.RoundTrip.{
  decode_run_v1-payload_valid, payload_valid_size, payload_valid-result,
}
use proc.Wire.Frame.Extent.{moved}

-- A terminal frame that is kept: it is decoded under the identity that is expected, and a result
-- comes with the source stage of the STARTED frame before it.
pub record Kept (e : Expectation) (started_seen : ℕ) (started_stage frame : Buffer) (bytes kind : ℕ)
    : Type 0 where
  pub view : View
  pub decoded : decode_run_v1 frame bytes ≡ some view
  pub of_kind : view.kind ≡ kind
  pub own : Agree 128 view.payload e.identity
  pub order : kind ≡ 7 → (started_seen ≡ 1) × Agree 84 (at view.payload 428) started_stage
  pub terminal : (kind ≡ 7) ⊎ (kind ≡ 8)

pub record Sound (e : Expectation) (started_seen : ℕ) (started_stage frame : Buffer)
    (bytes kind terminal_seen : ℕ) : Type 0 where
  pub started : started_seen ≢ 0 → stage_matches_source started_stage e ≡ true
  pub kept : terminal_seen ≢ 0 → Kept e started_seen started_stage frame bytes kind

abbrev pub IsSound : Expectation → Machine → Type 0
IsSound e m =
    Sound e m.started_seen m.started_stage m.terminal_frame m.terminal_bytes m.terminal_kind
      m.terminal_seen

-- The copy of a stage is tested as the stage is.
pub stage_matches_source-copy :
    (e : Expectation) (stage b : Buffer)
    → stage_matches_source (copy 0 stage 84 b) e ≡ stage_matches_source stage e
unfolding stage_matches_source checks
stage_matches_source-copy e stage b = refl

accept_started-Sound :
    (e : Expectation) (m a : Machine) (v : View)
    → m.terminal_seen ≡ 0
    → accept_started e m v ≡ some a
    → IsSound e a
unfolding accept_started
accept_started-Sound e m a v none_kept h =
    let (matches, made) : (stage_matches_source (at v.payload 168) e ≡ true)
        × (a ≡ record m {
          started_token = copy 0 (at v.payload 136) 32 m.started_token;
          started_stage = copy 0 (at v.payload 168) 84 m.started_stage;
          started_seen = 1;
        }) =
      ground arith in
    rw made record {
      started = λ seen. stage_matches_source-copy e (at v.payload 168) m.started_stage ∙ matches;
      kept = λ seen. absurd (seen none_kept);
    }

module _ (e : Expectation) (m : Machine) (v : View)
    (decoded : decode_run_v1 m.pending m.pending_bytes ≡ some v)
    (own : mem_eq 128 v.payload e.identity ≡ true) (allowed : terminal_allowed e m v ≡ true) where
  abbrev stored : Buffer
  stored = copy 0 m.pending m.pending_bytes m.terminal_frame

  allowed-order :
      (v.kind ≡ 7 → (m.started_seen ≡ 1) × (mem_eq 84 (at v.payload 428) m.started_stage ≡ true))
      × ((v.kind ≡ 7) ⊎ (v.kind ≡ 8))
  unfolding terminal_allowed
  allowed-order = ground arith

  stored-Kept : Kept e m.started_seen m.started_stage stored m.pending_bytes v.kind
  stored-Kept =
      let (again, payload) =
        decode_run_v1_ext m.pending stored m.pending_bytes
          (λ i lt. sym (copy_start i m.pending m.pending_bytes m.terminal_frame lt)) decoded in
      let (_, valid, _) = decode_run_v1-payload_valid m.pending m.pending_bytes decoded in
      let (_, long, _) = payload_valid_size v.kind v.payload v.payload_bytes valid in
      let (order, kinds) = allowed-order in
      record {
        view = moved v stored;
        decoded = again;
        of_kind = refl;
        own =
            λ i lt. sym (payload i (omega arith)) ∙ mem_eq-Agree 128 v.payload e.identity own i lt;
        order = λ result.
            let size = payload_valid-result v.kind v.payload v.payload_bytes result valid in
            (
              (order result).0,
              λ i lt.
                  sym (payload (428 + i) (omega (arith, size)))
                  ∙ mem_eq-Agree 84 (at v.payload 428) m.started_stage (order result).1 i lt,
            );
        terminal = kinds;
      }

accept_terminal-Sound :
    (e : Expectation) (m a : Machine) (v : View)
    → IsSound e m
    → decode_run_v1 m.pending m.pending_bytes ≡ some v
    → mem_eq 128 v.payload e.identity ≡ true
    → accept_terminal e m v ≡ some a
    → IsSound e a
unfolding accept_terminal
accept_terminal-Sound e m a v s decoded own h =
    let (allowed, made) : (terminal_allowed e m v ≡ true)
        × (a ≡ record m {
          terminal_frame = copy 0 m.pending m.pending_bytes m.terminal_frame;
          terminal_bytes = m.pending_bytes;
          terminal_kind = v.kind;
          terminal_seen = 1;
        }) =
      ground arith in
    rw made record { started = s.started; kept = λ seen. stored-Kept e m v decoded own allowed }

accept_complete_frame-Sound :
    (e : Expectation) (m a : Machine)
    → IsSound e m
    → accept_complete_frame e m ≡ some a
    → IsSound e a
unfolding accept_complete_frame
accept_complete_frame-Sound e m a s h =
    let first : (m.terminal_seen == 0) ≡ true = ground arith in
    let (v, decoded, rest) =
      >>=-eq-some (decode_run_v1 m.pending m.pending_bytes)
        (λ view.
          guard (mem_eq 128 view.payload e.identity)
          >> (if view.kind == 6 then accept_started e m view else accept_terminal e m view))
        (rw first at h) in
    let own : mem_eq 128 v.payload e.identity ≡ true = ground arith in
    let taken : (if v.kind == 6 then accept_started e m v else accept_terminal e m v) ≡ some a =
      rw own at rest in
    elim (Bool-cases (v.kind == 6)) [
      | inl started ↦ accept_started-Sound e m a v (ground arith) (rw started at taken)
      | inr terminal ↦ accept_terminal-Sound e m a v s decoded own (rw terminal at taken)
    ]

next_frame-Sound :
    (e : Expectation) (m : Machine) (o : Option Machine)
    → IsSound e m
    → ((a : Machine) → o ≡ some a → IsSound e a)
    → IsSound e (next_frame m o).0
unfolding next_frame
next_frame-Sound e m none s accepted = s
next_frame-Sound e m (some a) s accepted = accepted a refl

learn_length-Sound :
    (e : Expectation) (m l : Machine) → IsSound e m → learn_length m ≡ some l → IsSound e l
unfolding learn_length
learn_length-Sound e m l s h =
    let same : l ≡ record m { expected_frame_bytes = l.expected_frame_bytes } = ground arith in
    rw same s

complete-Sound :
    (e : Expectation) (m : Machine) (o : Option Machine)
    → IsSound e m
    → ((l : Machine) → o ≡ some l → IsSound e l)
    → IsSound e (complete e m o).0
unfolding complete
complete-Sound e m none s learned = s
complete-Sound e m (some l) s learned =
    elim (Bool-cases (l.expected_frame_bytes != 0 && l.pending_bytes == l.expected_frame_bytes)) [
      | inl full ↦ rw full (
          next_frame-Sound e l (accept_complete_frame e l) (learned l refl)
            λ a h. accept_complete_frame-Sound e l a (learned l refl) h)
      | inr open_ ↦ rw open_ (learned l refl)
    ]

turn-Sound :
    (e : Expectation) (m : Machine) (bytes : Buffer) (n : ℕ)
    → IsSound e m
    → IsSound e (turn e m bytes n).0
unfolding turn
turn-Sound e m bytes n s = elim (Bool-cases (m.invariant_failed != 0 || m.terminal_seen != 0)) [
  | inl bad ↦ rw bad s
  | inr good ↦ rw good (
      complete-Sound e (take_bytes m bytes n) (learn_length (take_bytes m bytes n)) s
        λ l h. learn_length-Sound e (take_bytes m bytes n) l s h)
]

feed_loop-Sound :
    (fuel : ℕ) (e : Expectation) (m : Machine) (bytes : Buffer) (length : ℕ)
    → IsSound e m
    → IsSound e (feed_loop fuel e m bytes length).0
unfolding feed_loop
feed_loop-Sound zero e m bytes length s = s
feed_loop-Sound (suc fuel) e m bytes length s = elim (Bool-cases (length == 0)) [
  | inl empty ↦ rw empty s
  | inr more ↦ rw more (
      rest (turn e m bytes taken) (λ m'. feed_loop fuel e m' (at bytes taken) (length - taken))
        (turn-Sound e m bytes taken s)
        λ m' s'. feed_loop-Sound fuel e m' (at bytes taken) (length - taken) s')
]
  where
    taken : ℕ
    taken = if ltb length (target m - m.pending_bytes) then length else target m - m.pending_bytes

    rest :
        (r : Machine × Bool) (f : Machine → Machine × Bool)
        → IsSound e r.0
        → ((m' : Machine) → IsSound e m' → IsSound e (f m').0)
        → IsSound e (if r.1 then f r.0 else (r.0, false)).0
    rest (m', true) f s' next = next m' s'
    rest (m', false) f s' next = s'

-- Chunks of the pipe, one after another, up to the first that fails.
unfoldable pub feed_all : Expectation → Machine → Buffer → List ℕ → Machine
feed_all e m bytes [] = m
feed_all e m bytes (n ∷ ns) =
    let (m', ok) = feed_public_bytes e m bytes n in
    let rest = feed_all e m' (at bytes n) ns in if ok then rest else m'

-- From a state in which this holds on, after any chunks: a STARTED frame that was taken has the
-- expected source stage; a terminal frame that is kept is decoded under the expected identity, it
-- is a result or an error, and a result follows a STARTED frame with the same source stage.
pub feed_all-Sound :
    (e : Expectation) (m : Machine) (bytes : Buffer) (ns : List ℕ)
    → IsSound e m
    → IsSound e (feed_all e m bytes ns)
unfolding feed_all feed_public_bytes
feed_all-Sound e m bytes [] s = s
feed_all-Sound e m bytes (n ∷ ns) s =
    let fed = feed_loop-Sound n e m bytes n s in
    elim (Bool-cases (feed_loop n e m bytes n).1) [
      | inl ok ↦ rw ok (feed_all-Sound e (feed_loop n e m bytes n).0 (at bytes n) ns fed)
      | inr failed ↦ rw failed fed
    ]

pub fresh-IsSound : (e : Expectation) → IsSound e fresh
fresh-IsSound e = record { started = λ seen. absurd (seen refl); kept = λ seen. absurd (seen refl) }

finish_seen_fields :
    (m : Machine) (status : ℕ) (v : View)
    → ((finish_seen m status v).kind ≡ (if m.terminal_kind == 7 then 1 else 2))
      × ((finish_seen m status v).frame ≡ copy 0 m.terminal_frame m.terminal_bytes zeroed)
      × ((finish_seen m status v).frame_bytes ≡ m.terminal_bytes)
      × ((finish_seen m status v).started_attested ≡ m.started_seen)
unfolding finish_seen
finish_seen_fields m status v = elim (Bool-cases (v.kind == 8)) [
  | inl error ↦ rw error (refl, refl, refl, refl)
  | inr other ↦ rw other (refl, refl, refl, refl)
]

finish_unseen_fields : (m : Machine) (status : ℕ) (w : Bool) → (finish_unseen m status w).kind ≡ 3
unfolding finish_unseen
finish_unseen_fields m status w = ground arith

-- What a report of a result says.
abbrev Attested : Expectation → Terminal → Type 0
Attested e t =
    (t.started_attested ≡ 1)
    × (v : View) × (decode_run_v1 t.frame t.frame_bytes ≡ some v)
    × (v.kind ≡ 7)
    × Agree 128 v.payload e.identity

seen-Attested :
    (e : Expectation) (m : Machine) (status : ℕ) (v : View)
    → Kept e m.started_seen m.started_stage m.terminal_frame m.terminal_bytes m.terminal_kind
    → (finish_seen m status v).kind ≡ 1
    → Attested e (finish_seen m status v)
seen-Attested e m status v k result =
    let (kind, frame, bytes, started) = finish_seen_fields m status v in
    let is_result : m.terminal_kind ≡ 7 = ground arith in
    let (again, payload) =
      decode_run_v1_ext m.terminal_frame (copy 0 m.terminal_frame m.terminal_bytes zeroed)
        m.terminal_bytes (λ i lt. sym (copy_start i m.terminal_frame m.terminal_bytes zeroed lt))
        k.decoded in
    let (_, valid, _) = decode_run_v1-payload_valid m.terminal_frame m.terminal_bytes k.decoded in
    let (_, long, _) = payload_valid_size k.view.kind k.view.payload k.view.payload_bytes valid in
    rw (frame, bytes, started)
      (
        (k.order is_result).0,
        moved k.view (copy 0 m.terminal_frame m.terminal_bytes zeroed),
        again,
        k.of_kind ∙ is_result,
        λ i lt. sym (payload i (omega arith)) ∙ k.own i lt,
      )

finish_machine-Attested :
    (e : Expectation) (m : Machine) (status : ℕ) (r eof watchdog : Bool) {t : Terminal}
    → IsSound e m
    → finish_machine m status r eof watchdog ≡ some t
    → t.kind ≡ 1
    → Attested e t
unfolding finish_machine
finish_machine-Attested e m status r eof watchdog {t} s h result =
    elim (Bool-cases (m.terminal_seen != 0)) [
      | inl seen ↦
          let k = s.kept (ground arith) in
          let made : t ≡ finish_seen m status k.view = ground (arith, k.decoded) in
          rw made (seen-Attested e m status k.view k (rw made at result))
      | inr unseen ↦
          let made : t ≡ finish_unseen m status watchdog = ground arith in
          absurd (
            omega (
              arith,
              result,
              ap (λ (u : Terminal). u.kind) made,
              finish_unseen_fields m status watchdog,
            ))
    ]

-- A run that is reported with a RESULT has been announced by a STARTED frame, and the frame that
-- is reported is decoded as a result for the identity that was asked for.
pub finish_machine-result :
    (e : Expectation) (bytes : Buffer) (chunks : List ℕ) (status : ℕ) (reaped_ eof watchdog : Bool)
    {t : Terminal}
    → finish_machine (feed_all e fresh bytes chunks) status reaped_ eof watchdog ≡ some t
    → t.kind ≡ 1
    → (t.started_attested ≡ 1)
      × (v : View) × (decode_run_v1 t.frame t.frame_bytes ≡ some v)
      × (v.kind ≡ 7)
      × Agree 128 v.payload e.identity
finish_machine-result e bytes chunks status reaped_ eof watchdog h result =
    finish_machine-Attested e (feed_all e fresh bytes chunks) status reaped_ eof watchdog
      (feed_all-Sound e fresh bytes chunks (fresh-IsSound e)) h result
