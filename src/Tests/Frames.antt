-- ===== src/Tests/Frames.antt =====
-- native/proc17_qa_wire.h, native/proc17_qa_status.c: frames and packets at concrete inputs.
use proc.Base.{◌+◌, ◌≡◌, refl, arith, some, true, false}
use proc.Memory.{Buffer, zeroed, Agree, IsBytes}
use proc.Status.{
  Context, send, receive, receive_message, Read, stored, context_valid, exact_sequence,
}
use proc.Status.RoundTrip.{receive-send}
use proc.System.{Calls, returned, interrupted, retry}
use proc.Wire.Frame.Bytes.{frame-IsBytes, zeroed-IsBytes}
use proc.Tests.Blocks.{threes-IsBytes, ones, threes, ones-IsBytes, request}
use proc.Wire.Checks.{checks}
use proc.Wire.Frame.{View}
use proc.Wire.Frame.Canonical.{encode-decode}
use proc.Wire.Frame.RoundTrip.{decode-frame, frame, sent}
use proc.Wire.Frame
use proc.Wire.Kind
use proc.Wire.RunV1.{
  payload_valid, encode_run_v1, decode_run_v1, request_valid, request_fixed, no_zero,
}
use proc.Wire.RunV1.RoundTrip.{decode_run_v1-encode_run_v1}

request-payload_valid : payload_valid Kind.run_request_v1 request 243 ≡ true
unfolding payload_valid request_valid request_fixed no_zero checks
request-payload_valid = refl

own : Agree 32 ones request
own i lt = ground arith

decode_run_v1-encode_run_v1_example :
    (frame : Buffer) × (v : View) × (encode_run_v1 Kind.run_request_v1 ones request 243 zeroed
      ≡ some (frame, 48 + 243 + 32))
    × (decode_run_v1 frame (48 + 243 + 32) ≡ some v)
    × (v.kind ≡ Kind.run_request_v1)
    × (v.payload_bytes ≡ 243)
    × Agree 243 v.payload request
decode_run_v1-encode_run_v1_example =
    decode_run_v1-encode_run_v1 Kind.run_request_v1 ones request 243 zeroed request-payload_valid
      own

-- A frame that was received, with its view.
abbrev received : (frame : Buffer) × (v : View) × (decode_run_v1 frame 323 ≡ some v)
received =
    let (frame, v, sent, got, kind, size, same) =
      decode_run_v1-encode_run_v1 Kind.run_request_v1 ones request 243 zeroed request-payload_valid
        own in
    (frame, v, got)

probe_known : Frame.kind_known Kind.probe_request ≡ true
unfolding Frame.kind_known
probe_known = refl

probe_frame-IsBytes : IsBytes (frame Kind.probe_request ones threes 20 zeroed)
probe_frame-IsBytes =
    frame-IsBytes Kind.probe_request ones threes 20 zeroed ones-IsBytes threes-IsBytes
      zeroed-IsBytes

probe_decode :
    Frame.decode (frame Kind.probe_request ones threes 20 zeroed) 100
    ≡ some (sent Kind.probe_request ones threes 20 zeroed)
probe_decode = decode-frame Kind.probe_request ones threes 20 zeroed probe_known (omega arith)

encode-decode_example :
    (again : Buffer) × (Frame.encode Kind.probe_request
        (sent Kind.probe_request ones threes 20 zeroed).nonce
        (sent Kind.probe_request ones threes 20 zeroed).payload
        20
        ones
      ≡ some (again, 100))
    × Agree 100 again (frame Kind.probe_request ones threes 20 zeroed)
encode-decode_example =
    encode-decode (frame Kind.probe_request ones threes 20 zeroed) 100 ones probe_frame-IsBytes
      probe_decode

abbrev context : Context
context = record { identity = ones; process_token = threes }

context-valid : context_valid context ≡ true
unfolding context_valid checks
context-valid = refl

exact-ready : exact_sequence 1 ≡ 1
unfolding exact_sequence
exact-ready = refl

receive-send_example :
    (p : Buffer) × ((send
        (some 5)
        context
        1
        1
        true
        (some true)
        (interrupted (returned (some 184)))).0
      ≡ some p)
    × ((reads : Calls Read)
        → retry reads ≡ stored p 184
        → receive (some 6) context false (some false) reads
          ≡ receive_message (record { kind = 1; sequence = 1 }))
receive-send_example =
    receive-send context 1 1 5 6 true false (some true) (some false)
      (interrupted (returned (some 184))) (omega arith) context-valid exact-ready refl refl
