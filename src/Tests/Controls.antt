-- ===== src/Tests/Controls.antt =====
-- native/proc17_qa_allocator.c: the allocator at concrete inputs.
use proc.Allocator.{
  Telemetry, Snapshot, State, telemetry_init, state_init, header_valid, snapshot, lua_allocator,
  place, block_bytes, prior_bytes, telemetry_magic,
}
use proc.Allocator.Accounting.{
  IsValid, total, Request, serve, state_init-IsValid, serve-snapshot, lua_allocator-failure,
  lua_allocator-success,
}
use proc.Base.{
  ℕ, ◌+◌, ◌-◌, ◌^◌, ◌≤◌, ◌<◌, ◌≡◌, ◌⊎◌, refl, arith, Option, some, none, true, List, [], ◌∷◌,
}

-- Telemetry for a ceiling of 100 bytes.
abbrev fresh : Telemetry
fresh = record {
  magic = telemetry_magic;
  version = 1;
  record_bytes = 64;
  reserved_header = 0;
  ceiling_bytes = 100;
  current_bytes = 0;
  peak_bytes = 0;
  ceiling_denied = 0;
  system_allocation_failed = 0;
  status_notification_failed = 0;
  reserved_flags = 0;
  reserved_tail = 0;
}

fresh_init : telemetry_init 100 ≡ some fresh
unfolding telemetry_init header_valid
fresh_init = refl

abbrev empty : State
empty = record { telemetry = fresh; notify_heap_denied = some true; blocks = [] }

empty_init : state_init fresh (some true) ≡ some empty
unfolding state_init snapshot header_valid
empty_init = refl

empty-IsValid : IsValid empty
empty-IsValid = state_init-IsValid 100 (some true) fresh_init empty_init

-- A block of 60 bytes, one more than the ceiling allows, and its release.
abbrev requests : List Request
requests =
    record { pointer = none; new_size = 60; allocated = some 4096 }
    ∷ record { pointer = none; new_size = 41; allocated = some 8192 }
    ∷ record { pointer = some 4096; new_size = 0; allocated = none }
    ∷ []

serve-snapshot_example :
    (shown : Snapshot) × (snapshot (serve empty requests).telemetry ≡ some shown)
    × (shown.current_bytes ≡ total (serve empty requests).blocks)
    × (shown.current_bytes ≤ shown.peak_bytes)
    × (shown.peak_bytes ≤ 100)
    × (shown.ceiling_bytes ≡ 100)
serve-snapshot_example = serve-snapshot 100 (some true) requests fresh_init empty_init

abbrev given : Option ℕ
given = some 4096

lua_allocator-failure_example :
    ((lua_allocator empty none 101 (some 4096)).0.blocks ≡ [])
    × ((lua_allocator empty none 101 (some 4096)).0.telemetry.current_bytes ≡ 0)
    × (((100 + 0 < 0 + 101) ⊎ (2 ^ 64 - 33 < 101))
          × ((lua_allocator empty none 101 (some 4096)).0.telemetry.ceiling_denied ≡ 1)
        ⊎ (given ≡ none)
          × ((lua_allocator empty none 101 (some 4096)).0.telemetry.system_allocation_failed ≡ 1))
unfolding lua_allocator header_valid prior_bytes
lua_allocator-failure_example =
    lua_allocator-failure empty none 101 (some 4096) empty-IsValid (λ e. absurd (omega (arith, e)))
      refl

lua_allocator-success_example :
    (given ≡ some 4096)
    × (block_bytes 4096 (lua_allocator empty none 60 (some 4096)).0.blocks ≡ 60)
    × ((lua_allocator empty none 60 (some 4096)).0.telemetry.current_bytes + 0 ≡ 0 + 60)
    × (0 + 60 ≤ 100 + 0)
unfolding lua_allocator place header_valid prior_bytes
lua_allocator-success_example =
    lua_allocator-success empty none 60 (some 4096) 4096 empty-IsValid refl
