-- ===== src/Status/RoundTrip.antt =====
-- native/proc17_qa_status.c: what one side sends is what the other side receives.
use proc.Base.{
  ℕ, ◌+◌, ◌-◌, ◌^◌, ◌≤◌, ◌<◌, Bool, true, Option, some, ◌≡◌, refl, sym, ap, ◌∙◌, arith, eq→==,
}
use proc.Memory.{Buffer, at, copy, zeroed, mem_eq, Agree, Agree-mem_eq, mem_eq-Agree, clear}
use proc.Status.{
  Context, Message, exact_sequence, context_valid, encode, decode, flags_allow, send_packet, send,
  delivered, Read, stored, receive_message, classify, receive, status_magic, packet_bytes,
}
use proc.System.{Calls, retry}
use proc.Wire.Checks.{checks}
use proc.Wire.Integers.{
  put_u16, put_u32, put_u64, get_u16, get_u32, get_u64, get_u16-put, get_u64-put,
}

exact_sequence-le : (kind : ℕ) → exact_sequence kind ≤ 3
unfolding exact_sequence
exact_sequence-le kind = ground arith

-- A packet of a given kind, over a block of any content.
module _ (c : Context) (kind sequence : ℕ) (output : Buffer) where
  abbrev pub packet : Buffer
  packet = copy 152 c.process_token 32 (
      copy 24 c.identity 128 (
        put_u64 16 sequence (
          put_u32 12 packet_bytes
            (put_u16 10 kind (put_u16 8 1 (copy 0 status_magic 8 (clear 0 packet_bytes output)))))))

  packet_fields :
      (mem_eq 8 packet status_magic ≡ true)
      × (get_u16 (at packet 8) ≡ 1)
      × (get_u32 (at packet 12) ≡ 184)
  unfolding mem_eq put_u16 put_u32 put_u64 checks
  packet_fields = (refl, refl, refl)

  packet_own : Agree 128 (at packet 24) c.identity × Agree 32 (at packet 152) c.process_token
  unfolding put_u16 put_u32 put_u64
  packet_own = (
    λ i lt. ground (arith, ap c.identity (back 24 i)),
    λ i lt. ground (arith, ap c.process_token (back 152 i)),
  )
    where
      back : (a k : ℕ) → a + k - a ≡ k
      back a k = omega arith

  packet_numbers :
      kind < 2 ^ 16
      → sequence < 2 ^ 64
      → (get_u16 (at packet 10) ≡ kind) × (get_u64 (at packet 16) ≡ sequence)
  unfolding put_u16 put_u32 put_u64 checks
  packet_numbers k s = (get_u16-put kind zeroed k, get_u64-put sequence zeroed s)

pub encode-packet :
    (c : Context) (kind sequence : ℕ) (output : Buffer)
    → context_valid c ≡ true
    → exact_sequence kind ≡ sequence
    → encode c kind sequence output ≡ some (packet c kind sequence output)
unfolding encode
encode-packet c kind sequence output valid exact = rw (valid, eq→== _ _ exact) refl

pub decode-packet :
    (c : Context) (kind sequence : ℕ) (output : Buffer)
    → kind < 2 ^ 16
    → context_valid c ≡ true
    → exact_sequence kind ≡ sequence
    → decode (packet c kind sequence output) c ≡ some (record { kind = kind; sequence = sequence })
unfolding decode
decode-packet c kind sequence output k valid exact =
    let (magic, version, length) = packet_fields c kind sequence output in
    let (identity, token) = packet_own c kind sequence output in
    let (kind_read, sequence_read) =
      packet_numbers c kind sequence output k (omega (arith, exact, exact_sequence-le kind)) in
    rw
      (
        valid,
        magic,
        version,
        length,
        Agree-mem_eq 128 (at (packet c kind sequence output) 24) c.identity identity,
        Agree-mem_eq 32 (at (packet c kind sequence output) 152) c.process_token token,
        kind_read,
        sequence_read,
        eq→== _ _ exact,
      )
      refl

-- What the sender writes is received by whoever shares its context as the same message, however
-- often the calls are interrupted.
pub receive-send :
    (c : Context) (kind sequence descriptor other : ℕ) (nonblocking again : Bool)
    (flags back : Option Bool) (writes : Calls (Option ℕ))
    → kind < 2 ^ 16
    → context_valid c ≡ true
    → exact_sequence kind ≡ sequence
    → flags_allow flags nonblocking ≡ true
    → flags_allow back again ≡ true
    → (p : Buffer) × ((send (some descriptor) c kind sequence nonblocking flags writes).0 ≡ some p)
      × ((reads : Calls Read)
          → retry reads ≡ stored p 184
          → receive (some other) c again back reads
            ≡ receive_message (record { kind = kind; sequence = sequence }))
unfolding send send_packet receive classify delivered
receive-send c kind sequence descriptor other nonblocking again flags back writes k valid exact out
      in_ =
    (
      packet c kind sequence zeroed,
      rw (encode-packet c kind sequence zeroed valid exact, out) refl,
      λ reads arrived.
          rw (valid, in_, arrived, decode-packet c kind sequence zeroed k valid exact) refl,
    )

-- A packet is received under a context only if it carries that context's identity and token, and
-- then its sequence is the one of its kind.
pub decode-Agree :
    (input : Buffer) (c : Context) {m : Message}
    → decode input c ≡ some m
    → Agree 128 (at input 24) c.identity
      × Agree 32 (at input 152) c.process_token
      × (exact_sequence m.kind ≡ m.sequence)
unfolding decode
decode-Agree input c {m} h = (
  mem_eq-Agree 128 (at input 24) c.identity (ground arith),
  mem_eq-Agree 32 (at input 152) c.process_token (ground arith),
  ground arith,
)

-- A packet of one run is no message in another: if what `encode` made for one context is decoded
-- under a second one, the two have the same identity and the same token.
pub decode-encode-context :
    (c d : Context) (kind sequence : ℕ) (output : Buffer) {p : Buffer} {m : Message}
    → encode c kind sequence output ≡ some p
    → decode p d ≡ some m
    → Agree 128 c.identity d.identity × Agree 32 c.process_token d.process_token
unfolding encode
decode-encode-context c d kind sequence output {p} {m} sent received =
    let (identity, token, _) = decode-Agree p d received in
    let e = encoded c kind sequence output sent in
    let (own, own_token) = packet_own c kind sequence output in
    (
      λ i lt. sym (own i lt) ∙ ap (λ (b : Buffer). b (24 + i)) (sym e) ∙ identity i lt,
      λ i lt. sym (own_token i lt) ∙ ap (λ (b : Buffer). b (152 + i)) (sym e) ∙ token i lt,
    )
  where
    encoded :
        (c : Context) (kind sequence : ℕ) (output : Buffer) {p : Buffer}
        → encode c kind sequence output ≡ some p
        → p ≡ packet c kind sequence output
    encoded c kind sequence output h = ground arith
