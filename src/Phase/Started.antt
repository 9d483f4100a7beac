-- ===== src/Phase/Started.antt =====
-- native/proc17_qa_phase.c: the process token and the frame that announces the start of a
-- candidate. What getrandom, write and close return is an argument; the bytes handed to write and
-- the descriptor afterwards are in the result.
use proc.Base.{
  ℕ, ◌+◌, ◌-◌, Bool, true, false, not, ◌||◌, ◌==◌, ◌!=◌, ltb, ◌≡◌, ◌≢◌, refl, sym, ap, ◌∙◌, arith,
  if◌then◌else◌, Option, some, none, guard, ◌>>=◌, ◌>>◌,
}
use proc.Memory.{Buffer, at, poke, copy, zeroed, Agree}
use proc.Sha256.{init, update, final, sha256_bytes}
use proc.Sha256.Padding.{final-update}
use proc.Sha256.Update.{update_ext, update-lt, update-init}
use proc.Wire.Checks.{digest_nonzero, identity_valid, source_stage_valid, checks}
use proc.Wire.Frame.{View}
use proc.Wire.Integers.{put_u16}
use proc.Wire.Kind
use proc.Wire.Layout
use proc.Wire.RunV1.{payload_valid, started_valid, encode_run_v1, decode_run_v1}
use proc.Wire.RunV1.RoundTrip.{decode_run_v1-encode_run_v1}

-- struct proc17_qa_started_writer_state
pub record Writer : Type 0 where
  pub started_emitted : ℕ
  pub result_descriptor_closed : ℕ

-- proc17_qa_started_writer_init
abbrev pub writer_init : Writer
writer_init = record { started_emitted = 0; result_descriptor_closed = 0 }

-- The token for the entropy that getrandom stored and the number of bytes it reported, if any.
unfoldable pub make_process_token : Buffer → Buffer → Option ℕ → Option Buffer
make_process_token identity entropy observed = do
  guard (identity_valid identity)
  count ← observed
  guard (count == 32)
  let output = (final (update (update init entropy 32) identity 128) zeroed).1
  guard (digest_nonzero output)
  some output

-- The descriptor afterwards (none for -1), the bytes handed to write, and whether 0 is returned.
pub record Emission : Type 0 where
  pub writer : Writer
  pub result_descriptor : Option ℕ
  pub output : Option (Buffer × ℕ)
  pub success : Bool

unfoldable pub started_payload : Buffer → Buffer → Buffer → Buffer
started_payload identity process_token source_stage =
    copy Layout.started_stage_offset source_stage Layout.source_stage_bytes (
      copy 136 process_token 32 (
        poke 133 Layout.prepared_under_policy (
          poke 132 1 (
            put_u16 130 1
              (put_u16 Layout.phase_offset Layout.phase_started (copy 0 identity 128 zeroed))))))

-- PIPE_BUF of Linux
abbrev pub pipe_buf : ℕ
pipe_buf = 4096

-- The part of the call from the write on.
pub write_and_close : Writer → Option ℕ → Bool → Buffer → ℕ → Emission
write_and_close state written closed frame frame_bytes = elim written [
  | none ↦ record {
    writer = state;
    result_descriptor = none;
    output = some (frame, frame_bytes);
    success = false;
  }
  | some count ↦
      if count != frame_bytes
      then record {
        writer = state;
        result_descriptor = none;
        output = some (frame, frame_bytes);
        success = false;
      }
      else record {
        writer = record {
          started_emitted = 1;
          result_descriptor_closed = if closed then 1 else state.result_descriptor_closed;
        };
        result_descriptor = none;
        output = some (frame, frame_bytes);
        success = closed;
      }
]

abbrev pub refused : Writer → Emission
refused state = record { writer = state; result_descriptor = none; output = none; success = false }

-- The part of the call from the encoding on.
pub write_encoded : Writer → Option ℕ → Bool → Option (Buffer × ℕ) → Emission
write_encoded state written closed none = refused state
write_encoded state written closed (some (frame, frame_bytes)) =
    if ltb pipe_buf frame_bytes
    then refused state
    else write_and_close state written closed frame frame_bytes

unfoldable pub emit_started_and_close :
    Writer → Option ℕ → Buffer → Buffer → Buffer → Option ℕ → Bool → Emission
emit_started_and_close state none identity process_token source_stage written closed = refused state
emit_started_and_close state (some descriptor) identity process_token source_stage written closed =
    if state.started_emitted != 0
      || not (identity_valid identity)
      || not (digest_nonzero process_token)
      || not (source_stage_valid source_stage)
    then refused state
    else let payload = started_payload identity process_token source_stage in
      write_encoded state written closed
        (encode_run_v1 Kind.run_started_v1 identity payload Layout.run_started_v1_bytes zeroed)

started_payload_valid :
    (identity process_token source_stage : Buffer)
    → identity_valid identity ≡ true
    → digest_nonzero process_token ≡ true
    → source_stage_valid source_stage ≡ true
    → payload_valid Kind.run_started_v1 (started_payload identity process_token source_stage) 252
      ≡ true
unfolding payload_valid started_valid started_payload put_u16 checks
started_payload_valid identity process_token source_stage i p s = rw (i, p, s) refl

-- The token of a valid identity and 32 bytes of entropy is the digest of the two together, unless
-- that digest is zero, for which there is none.
pub make_process_token-sha256_bytes :
    (identity entropy m : Buffer)
    → identity_valid identity ≡ true
    → Agree 32 m entropy
    → Agree 128 (at m 32) identity
    → make_process_token identity entropy (some 32) ≡ (
        if digest_nonzero (sha256_bytes m 160 zeroed)
        then some (sha256_bytes m 160 zeroed)
        else none)
unfolding make_process_token
make_process_token-sha256_bytes identity entropy m valid front back =
    let hashed : update (update init entropy 32) identity 128 ≡ update init m 160 =
      update_ext (update init entropy 32) 128 identity (at m 32)
        (update-lt init entropy 32 (omega arith)) (λ i lt. sym (back i lt))
      ∙ ap (λ c. update c (at m 32) 128)
          (update_ext init 32 entropy m (omega arith) (λ i lt. sym (front i lt)))
      ∙ update-init m 32 128 in
    let token : (final (update (update init entropy 32) identity 128) zeroed).1
        ≡ sha256_bytes m 160 zeroed =
      ap (λ c. (final c zeroed).1) hashed ∙ final-update m 160 zeroed in
    rw (valid, token)
      (guarded (digest_nonzero (sha256_bytes m 160 zeroed)) (sha256_bytes m 160 zeroed))
  where
    guarded : (test : Bool) (d : Buffer) → (guard test >> some d) ≡ (if test then some d else none)
    guarded true d = refl
    guarded false d = refl

write_and_close-closed :
    (state : Writer) (written : Option ℕ) (closed : Bool) (frame : Buffer) (n : ℕ)
    → (write_and_close state written closed frame n).result_descriptor ≡ none
unfolding write_and_close
write_and_close-closed state none closed frame n = refl
write_and_close-closed state (some count) closed frame n = ground arith

handed_over :
    (state : Writer) (written : Option ℕ) (closed : Bool) (frame : Buffer) (n : ℕ)
    → (write_and_close state written closed frame n).output ≡ some (frame, n)
unfolding write_and_close
handed_over state none closed frame n = refl
handed_over state (some count) closed frame n = ground arith

write_encoded-closed :
    (state : Writer) (written : Option ℕ) (closed : Bool) (encoded : Option (Buffer × ℕ))
    → (write_encoded state written closed encoded).result_descriptor ≡ none
unfolding write_encoded
write_encoded-closed state written closed none = refl
write_encoded-closed state written closed (some (frame, n)) =
    ground (arith, write_and_close-closed state written closed frame n)

-- The descriptor is closed on every branch.
pub emit_started_and_close-closed :
    (state : Writer) (descriptor : Option ℕ) (identity process_token source_stage : Buffer)
    (written : Option ℕ) (closed : Bool)
    → (emit_started_and_close state descriptor identity process_token source_stage written
        closed).result_descriptor
      ≡ none
unfolding emit_started_and_close
emit_started_and_close-closed state none identity process_token source_stage written closed = refl
emit_started_and_close-closed state (some descriptor) identity process_token source_stage written
      closed =
    ground (
      arith,
      write_encoded-closed state written closed (
          encode_run_v1 Kind.run_started_v1 identity
            (started_payload identity process_token source_stage) 252 zeroed),
    )

-- A second call writes nothing and fails, whatever the first one was given.
pub emit_started_and_close-again :
    (state : Writer) (descriptor : Option ℕ) (identity process_token source_stage : Buffer)
    (written : Option ℕ) (closed : Bool)
    → state.started_emitted ≢ 0
    → emit_started_and_close state descriptor identity process_token source_stage written closed
      ≡ refused state
unfolding emit_started_and_close
emit_started_and_close-again state none identity process_token source_stage written closed emitted =
    refl
emit_started_and_close-again state (some descriptor) identity process_token source_stage written
      closed emitted =
    let e : (state.started_emitted != 0) ≡ true = ground arith in rw e refl

module _ (state : Writer) (descriptor : ℕ) (identity process_token source_stage : Buffer)
    (fresh : state.started_emitted ≡ 0) (i : identity_valid identity ≡ true)
    (p : digest_nonzero process_token ≡ true) (s : source_stage_valid source_stage ≡ true) where
  abbrev payload : Buffer
  payload = started_payload identity process_token source_stage

  back : (a k : ℕ) → a + k - a ≡ k
  back a k = omega arith

  started_payload_fields :
      Agree 128 payload identity
      × Agree 32 (at payload 136) process_token
      × Agree 84 (at payload 168) source_stage
  unfolding started_payload put_u16
  started_payload_fields = (
    λ k lt. ground arith,
    λ k lt. ground (arith, ap process_token (back 136 k)),
    λ k lt. ground (arith, ap source_stage (back 168 k)),
  )

  emitted :
      (written : Option ℕ) (closed : Bool) (frame : Buffer)
      → encode_run_v1 Kind.run_started_v1 identity payload 252 zeroed ≡ some (frame, 332)
      → emit_started_and_close state
          (some descriptor)
          identity
          process_token
          source_stage
          written
          closed
        ≡ write_and_close state written closed frame 332
  unfolding emit_started_and_close write_encoded
  emitted written closed frame e =
      let unsent : (state.started_emitted != 0) ≡ false = ground arith in
      rw (unsent, i, p, s, e) refl

  -- One write hands over a frame of 332 bytes, which the reader decodes as the announcement of
  -- this identity, token and source stage; the call succeeds if the write is whole and close works.
  pub emit_started_and_close-decode_run_v1 :
      (frame : Buffer) × (v : View) × (decode_run_v1 frame 332 ≡ some v)
      × (v.kind ≡ Kind.run_started_v1)
      × Agree 128 v.payload identity
      × Agree 32 (at v.payload 136) process_token
      × Agree 84 (at v.payload 168) source_stage
      × ((written : Option ℕ) (closed : Bool)
          → (emit_started_and_close state
              (some descriptor)
              identity
              process_token
              source_stage
              written
              closed).output
            ≡ some (frame, 332))
      × (emit_started_and_close state
            (some descriptor)
            identity
            process_token
            source_stage
            (some 332)
            true
          ≡ record {
            writer = record { started_emitted = 1; result_descriptor_closed = 1 };
            result_descriptor = none;
            output = some (frame, 332);
            success = true;
          })
  unfolding write_and_close
  emit_started_and_close-decode_run_v1 =
      let (frame, v, sent, received, kind, size, same) =
        decode_run_v1-encode_run_v1 Kind.run_started_v1 identity payload 252 zeroed
          (started_payload_valid identity process_token source_stage i p s)
          (λ k lt. sym (started_payload_fields.0 k (omega arith))) in
      let (own, token, stage) = started_payload_fields in
      (
        frame,
        v,
        received,
        kind,
        λ k lt. same k (omega arith) ∙ own k lt,
        λ k lt. same (136 + k) (omega arith) ∙ token k lt,
        λ k lt. same (168 + k) (omega arith) ∙ stage k lt,
        λ written closed.
            ap (λ (e : Emission). e.output) (emitted written closed frame sent)
            ∙ handed_over state written closed frame 332,
        emitted (some 332) true frame sent,
      )
