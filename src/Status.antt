-- ===== src/Status.antt =====
-- native/proc17_qa_status.c: the private packets between the controller and the candidate's side.
-- What fcntl, read and write return is an argument; socket_pair, ignore_sigpipe and
-- set_nonblocking are calls of the system alone and have no model.
pub mod RoundTrip
use proc.Base.{
  ℕ, ◌+◌, ◌-◌, ◌^◌, Bool, true, false, not, ◌&&◌, ◌||◌, ◌==◌, ◌!=◌, leb, ltb, if◌then◌else◌, Option,
  some, none, guard, ◌>>=◌, ◌>>◌, List, [], ◌∷◌,
}
use proc.Memory.{Buffer, at, copy, clear, zeroed, mem_eq}
use proc.Phase.{State, observe_started_ready}
use proc.System.{Calls, retry}
use proc.Wire.Checks.{digest_nonzero, identity_valid}
use proc.Wire.Frame.{array}
use proc.Wire.Integers.{put_u16, put_u32, put_u64, get_u16, get_u32, get_u64}

abbrev pub packet_bytes : ℕ
packet_bytes = 184

-- enum proc17_qa_status_kind
abbrev pub ready : ℕ
ready = 1

abbrev pub release : ℕ
release = 2

abbrev pub heap_denied : ℕ
heap_denied = 3

abbrev pub status_version : ℕ
status_version = 1

abbrev pub status_magic : Buffer
status_magic = array (b'P' ∷ b'1' ∷ b'7' ∷ b'Q' ∷ b'A' ∷ b'S' ∷ b'T' ∷ 0 ∷ [])

-- struct proc17_qa_status_context
pub record Context : Type 0 where
  pub identity : Buffer
  pub process_token : Buffer

-- struct proc17_qa_status_message
pub record Message : Type 0 where
  pub kind : ℕ
  pub sequence : ℕ

unfoldable pub exact_sequence : ℕ → ℕ
exact_sequence kind =
    if kind == ready then 1 else if kind == release then 2 else if kind == heap_denied then 3 else 0

unfoldable pub context_valid : Context → Bool
context_valid context = identity_valid context.identity && digest_nonzero context.process_token

-- The 184 bytes of `output`, or -1.
unfoldable pub encode : Context → ℕ → ℕ → Buffer → Option Buffer
encode context kind sequence output = do
  guard (context_valid context && exact_sequence kind == sequence)
  some (
      copy 152 context.process_token 32 (
        copy 24 context.identity 128 (
          put_u64 16 sequence (
            put_u32 12 packet_bytes (
              put_u16 10 kind (
                put_u16 8 status_version (copy 0 status_magic 8 (clear 0 packet_bytes output))))))))

unfoldable pub decode : Buffer → Context → Option Message
decode input context = do
  guard (
      context_valid context
      && mem_eq 8 input status_magic
      && get_u16 (at input 8) == status_version
      && get_u32 (at input 12) == packet_bytes
      && mem_eq 128 (at input 24) context.identity
      && mem_eq 32 (at input 152) context.process_token)
  let kind = get_u16 (at input 10)
  let sequence = get_u64 (at input 16)
  guard (exact_sequence kind == sequence)
  some (record { kind = kind; sequence = sequence })

-- Whether F_GETFL works and allows the call: `flags` says if O_NONBLOCK is set, none is a failure.
abbrev pub flags_allow : Option Bool → Bool → Bool
flags_allow none nonblocking = false
flags_allow (some set) nonblocking = not (nonblocking && not set)

abbrev pub whole : Option ℕ → Bool
whole none = false
whole (some count) = count == packet_bytes

-- From the end of the encoding on.
pub send_packet : Bool → Option Bool → Calls (Option ℕ) → Option Buffer → Option Buffer × Bool
send_packet nonblocking flags writes none = (none, false)
send_packet nonblocking flags writes (some packet) =
    if flags_allow flags nonblocking then (some packet, whole (retry writes)) else (none, false)

-- The packet given to write, if it came that far, and whether 0 is returned.
unfoldable pub send :
    Option ℕ → Context → ℕ → ℕ → Bool → Option Bool → Calls (Option ℕ) → Option Buffer × Bool
unfolding send_packet
send none context kind sequence nonblocking flags writes = (none, false)
send (some descriptor) context kind sequence nonblocking flags writes =
    send_packet nonblocking flags writes (encode context kind sequence zeroed)

-- What read of the socket does: it stores bytes, would block, or fails.
pub data Read : Type 0 where
  stored : Buffer → ℕ → Read
  would_block : Read
  read_failed : Read

-- enum proc17_qa_status_receive_result, with the message that is received
pub data Received : Type 0 where
  receive_error : Received
  receive_idle : Received
  receive_message : Message → Received
  receive_eof : Received

pub delivered : Option Message → Received
delivered none = receive_error
delivered (some message) = receive_message message

-- From the end of the read on.
unfoldable pub classify : Context → Bool → Read → Received
unfolding delivered
classify context nonblocking read_failed = receive_error
classify context nonblocking would_block = if nonblocking then receive_idle else receive_error
classify context nonblocking (stored packet observed) =
    if observed == 0
    then receive_eof
    else if observed != packet_bytes
    then receive_error
    else delivered (decode packet context)

unfoldable pub receive : Option ℕ → Context → Bool → Option Bool → Calls Read → Received
receive none context nonblocking flags reads = receive_error
receive (some descriptor) context nonblocking flags reads =
    if not (context_valid context) || not (flags_allow flags nonblocking)
    then receive_error
    else classify context nonblocking (retry reads)

unfoldable pub accept_ready : Message → State → State × Bool
accept_ready message controller_phase =
    if message.kind != ready || message.sequence != 1
    then (controller_phase, false)
    else observe_started_ready controller_phase
