-- ===== src/Allocator.antt =====
-- native/proc17_qa_allocator.c: the allocator that a candidate's interpreter runs on. It counts the
-- bytes of the live blocks against a ceiling and shows its counts to the controller.
-- The blocks are a list of addresses with the bytes that their headers hold. What malloc, realloc
-- and the notification return is an argument; the atomics are lock free, and written by one thread.
pub mod Accounting
use proc.Base.{
  ℕ, ◌+◌, ◌-◌, ◌^◌, ◌≤◌, ◌<◌, max, Bool, true, false, not, ◌&&◌, ◌||◌, ◌==◌, ◌!=◌, leb, ltb,
  sub_u64, if◌then◌else◌, Option, some, none, List, [], ◌∷◌, guard, ◌>>=◌, ◌>>◌,
}

-- struct proc17_qa_allocator_telemetry
pub record Telemetry : Type 0 where
  pub magic : ℕ
  pub version : ℕ
  pub record_bytes : ℕ
  pub reserved_header : ℕ
  pub ceiling_bytes : ℕ
  pub current_bytes : ℕ
  pub peak_bytes : ℕ
  pub ceiling_denied : ℕ
  pub system_allocation_failed : ℕ
  pub status_notification_failed : ℕ
  pub reserved_flags : ℕ
  pub reserved_tail : ℕ

-- struct proc17_qa_allocator_snapshot
pub record Snapshot : Type 0 where
  pub ceiling_bytes : ℕ
  pub current_bytes : ℕ
  pub peak_bytes : ℕ
  pub ceiling_denied : ℕ
  pub system_allocation_failed : ℕ
  pub status_notification_failed : ℕ

abbrev pub telemetry_magic : ℕ
telemetry_magic = 0x5031375141485031

abbrev pub telemetry_version : ℕ
telemetry_version = 1

abbrev pub telemetry_bytes : ℕ
telemetry_bytes = 64

abbrev pub size_max : ℕ
size_max = 2 ^ 64 - 1

-- sizeof(union proc17_qa_allocation_header), the size of max_align_t
abbrev pub header_bytes : ℕ
header_bytes = 32

unfoldable pub header_valid : Telemetry → Bool
header_valid t =
    t.magic == telemetry_magic
    && t.version == telemetry_version
    && t.record_bytes == telemetry_bytes
    && t.reserved_header == 0
    && t.ceiling_bytes != 0
    && leb t.ceiling_bytes size_max
    && t.reserved_flags == 0
    && t.reserved_tail == 0

-- proc17_qa_allocator_telemetry_init
unfoldable pub telemetry_init : ℕ → Option Telemetry
telemetry_init ceiling_bytes =
    if ceiling_bytes == 0 || ltb size_max ceiling_bytes
    then none
    else let telemetry : Telemetry = record {
      magic = telemetry_magic;
      version = telemetry_version;
      record_bytes = telemetry_bytes;
      reserved_header = 0;
      ceiling_bytes = ceiling_bytes;
      current_bytes = 0;
      peak_bytes = 0;
      ceiling_denied = 0;
      system_allocation_failed = 0;
      status_notification_failed = 0;
      reserved_flags = 0;
      reserved_tail = 0;
    } in
      if header_valid telemetry then some telemetry else none

-- proc17_qa_allocator_snapshot
unfoldable pub snapshot : Telemetry → Option Snapshot
snapshot t =
    if not (header_valid t)
      || ltb t.peak_bytes t.current_bytes
      || ltb t.ceiling_bytes t.peak_bytes
      || ltb 1 t.ceiling_denied
      || ltb 1 t.system_allocation_failed
      || ltb 1 t.status_notification_failed
      || (t.status_notification_failed != 0 && t.ceiling_denied == 0)
    then none
    else some (record {
      ceiling_bytes = t.ceiling_bytes;
      current_bytes = t.current_bytes;
      peak_bytes = t.peak_bytes;
      ceiling_denied = t.ceiling_denied;
      system_allocation_failed = t.system_allocation_failed;
      status_notification_failed = t.status_notification_failed;
    })

-- struct proc17_qa_allocator_state, with the blocks it has given out. The notification is none for
-- NULL, else whether it returns 0.
pub record State : Type 0 where
  pub telemetry : Telemetry
  pub notify_heap_denied : Option Bool
  pub blocks : List (ℕ × ℕ)

-- proc17_qa_allocator_state_init
unfoldable pub state_init : Telemetry → Option Bool → Option State
state_init telemetry notify_heap_denied = do
  s ← snapshot telemetry
  guard (
      s.current_bytes == 0
      && s.peak_bytes == 0
      && s.ceiling_denied == 0
      && s.system_allocation_failed == 0
      && s.status_notification_failed == 0)
  some (record { telemetry = telemetry; notify_heap_denied = notify_heap_denied; blocks = [] })

-- The loop of compare-exchanges ends with the greater value.
unfoldable pub publish_peak : ℕ → Telemetry → Telemetry
publish_peak value t = if ltb t.peak_bytes value then record t { peak_bytes = value } else t

-- Whether a notification is given and fails.
abbrev pub notification_fails : Option Bool → Bool
notification_fails none = false
notification_fails (some delivered) = not delivered

unfoldable pub mark_ceiling_denied : Option Bool → Telemetry → Telemetry
mark_ceiling_denied notify t =
    let denied = record t { ceiling_denied = 1 } in
    if t.ceiling_denied == 0 && notification_fails notify
    then record denied { status_notification_failed = 1 }
    else denied

-- header->bytes of a live block
unfoldable pub block_bytes : ℕ → List (ℕ × ℕ) → ℕ
block_bytes pointer [] = 0
block_bytes pointer ((address, bytes) ∷ blocks) =
    if address == pointer then bytes else block_bytes pointer blocks

-- free(header)
unfoldable pub remove : ℕ → List (ℕ × ℕ) → List (ℕ × ℕ)
remove pointer [] = []
remove pointer ((address, bytes) ∷ blocks) =
    let rest = remove pointer blocks in
    if address == pointer then blocks else (address, bytes) ∷ rest

unfoldable pub prior_bytes : Option ℕ → List (ℕ × ℕ) → ℕ
prior_bytes none blocks = 0
prior_bytes (some pointer) blocks = block_bytes pointer blocks

unfoldable pub remove_prior : Option ℕ → List (ℕ × ℕ) → List (ℕ × ℕ)
remove_prior none blocks = blocks
remove_prior (some pointer) blocks = remove pointer blocks

-- The part of a call from malloc or realloc on: `current` is the count to go back to.
unfoldable pub place : State → Option ℕ → ℕ → ℕ → Option ℕ → State × Option ℕ
place state pointer new_size current none = (
  record state {
    telemetry = record state.telemetry { system_allocation_failed = 1; current_bytes = current };
  },
  none,
)
place state pointer new_size current (some address) = (
  record state { blocks = (address, new_size) ∷ remove_prior pointer state.blocks },
  some address,
)

-- The release of a block, or of none.
unfoldable pub release : State → Option ℕ → ℕ → State
release state none base = state
release state (some pointer) base = record state {
  telemetry = record state.telemetry { current_bytes = base };
  blocks = remove pointer state.blocks;
}

-- A call for a pointer, or none for NULL, and a size, with what malloc or realloc returns.
unfoldable pub lua_allocator : State → Option ℕ → ℕ → Option ℕ → State × Option ℕ
lua_allocator state pointer new_size allocated =
    let telemetry = state.telemetry in
    let current = telemetry.current_bytes in
    let prior = prior_bytes pointer state.blocks in
    let base = current - prior in
    let next = base + new_size in
    let grown = record (publish_peak next telemetry) { current_bytes = next } in
    if not (header_valid telemetry)
    then (state, none)
    else if ltb current prior
    then (record state { telemetry = record telemetry { system_allocation_failed = 1 } }, none)
    else if new_size == 0
    then (release state pointer base, none)
    else if ltb (sub_u64 telemetry.ceiling_bytes base) new_size
        || ltb (size_max - header_bytes) new_size
    then (record state { telemetry = mark_ceiling_denied state.notify_heap_denied telemetry }, none)
    else place (record state { telemetry = grown }) pointer new_size current allocated
