-- ===== src/Allocator/Accounting.antt =====
-- native/proc17_qa_allocator.c: the counts are those of the live blocks, and stay below the ceiling.
use proc.Base.{
  ℕ, ◌+◌, ◌-◌, ◌^◌, ◌≤◌, ◌<◌, Bool, true, false, ◌||◌, ◌==◌, ltb, sub_u64, Option, some, none, List,
  [], ◌∷◌, ◌≡◌, ◌≢◌, ◌⊎◌, refl, sym, ap, ◌∙◌, arith, Bool-cases, inl, inr,
}
use proc.Allocator.{
  Telemetry, Snapshot, State, header_valid, telemetry_init, snapshot, state_init, publish_peak,
  mark_ceiling_denied, block_bytes, remove, prior_bytes, remove_prior, place, release,
  lua_allocator,
}

-- The bytes of all live blocks.
unfoldable pub total : List (ℕ × ℕ) → ℕ
total [] = 0
total ((address, bytes) ∷ blocks) = bytes + total blocks

-- A telemetry record that the controller can read.
pub record IsReadable (t : Telemetry) : Type 0 where
  pub header : header_valid t ≡ true
  pub bounded : (t.current_bytes ≤ t.peak_bytes) × (t.peak_bytes ≤ t.ceiling_bytes)
  pub flags :
      (t.ceiling_denied ≤ 1)
      × (t.system_allocation_failed ≤ 1)
      × (t.status_notification_failed ≤ t.ceiling_denied)

pub record IsValid (s : State) : Type 0 where
  pub readable : IsReadable s.telemetry
  pub counted : total s.blocks ≡ s.telemetry.current_bytes

-- The controller's snapshot of a readable record works and shows the record's counts and flags.
pub snapshot-IsReadable :
    (t : Telemetry)
    → IsReadable t
    → snapshot t
      ≡ some (record {
        ceiling_bytes = t.ceiling_bytes;
        current_bytes = t.current_bytes;
        peak_bytes = t.peak_bytes;
        ceiling_denied = t.ceiling_denied;
        system_allocation_failed = t.system_allocation_failed;
        status_notification_failed = t.status_notification_failed;
      })
unfolding snapshot
snapshot-IsReadable t r = ground (arith, r.header, r.bounded, r.flags)

total-remove :
    (pointer : ℕ) (blocks : List (ℕ × ℕ))
    → total (remove pointer blocks) + block_bytes pointer blocks ≡ total blocks
unfolding total remove block_bytes
total-remove pointer [] = refl
total-remove pointer ((address, bytes) ∷ blocks) = ground (arith, total-remove pointer blocks)

total-remove_prior :
    (pointer : Option ℕ) (blocks : List (ℕ × ℕ))
    → total (remove_prior pointer blocks) + prior_bytes pointer blocks ≡ total blocks
unfolding remove_prior prior_bytes
total-remove_prior none blocks = omega arith
total-remove_prior (some pointer) blocks = total-remove pointer blocks

telemetry_init-IsReadable :
    (ceiling : ℕ) {t : Telemetry}
    → telemetry_init ceiling ≡ some t
    → IsReadable t × (t.current_bytes ≡ 0)
unfolding telemetry_init header_valid
telemetry_init-IsReadable ceiling h = ground arith

state_init-blocks :
    (t : Telemetry) (notify : Option Bool) {s : State}
    → state_init t notify ≡ some s
    → s ≡ record { telemetry = t; notify_heap_denied = notify; blocks = [] }
unfolding state_init snapshot
state_init-blocks t notify h = ground arith

-- The state that starts on fresh telemetry is in order.
pub state_init-IsValid :
    (ceiling : ℕ) (notify : Option Bool) {t : Telemetry} {s : State}
    → telemetry_init ceiling ≡ some t
    → state_init t notify ≡ some s
    → IsValid s
unfolding total
state_init-IsValid ceiling notify {t} {s} h k =
    let (readable, zero) = telemetry_init-IsReadable ceiling {t = t} h in
    rw (state_init-blocks t notify k) record { readable = readable; counted = sym zero }

release-IsValid :
    (s : State) (pointer : Option ℕ)
    → IsValid s
    → IsValid (release s pointer (s.telemetry.current_bytes - prior_bytes pointer s.blocks))
unfolding release prior_bytes header_valid
release-IsValid s none v = v
release-IsValid s (some p) v = record {
  readable = record {
    header = v.readable.header;
    bounded = omega (arith, v.readable.bounded);
    flags = v.readable.flags;
  };
  counted = omega (arith, total-remove p s.blocks, v.counted);
}

denied-IsValid :
    (s : State) (notify : Option Bool)
    → IsValid s
    → IsValid (record s { telemetry = mark_ceiling_denied notify s.telemetry })
unfolding mark_ceiling_denied header_valid
denied-IsValid s notify v =
    ground (arith, v.counted, v.readable.header, v.readable.bounded, v.readable.flags)

module _ (s : State) (pointer : Option ℕ) (new_size : ℕ) (v : IsValid s)
    (room : s.telemetry.current_bytes - prior_bytes pointer s.blocks + new_size
      ≤ s.telemetry.ceiling_bytes) where
  abbrev grown : State
  grown = record s {
    telemetry =
        record (publish_peak (s.telemetry.current_bytes - prior_bytes pointer s.blocks + new_size)
          s.telemetry) {
            current_bytes = s.telemetry.current_bytes - prior_bytes pointer s.blocks + new_size;
          };
  }

  place-IsValid :
      (allocated : Option ℕ)
      → IsValid (place grown pointer new_size s.telemetry.current_bytes allocated).0
  unfolding place publish_peak header_valid total
  place-IsValid none =
      ground (arith, v.counted, v.readable.header, v.readable.bounded, v.readable.flags)
  place-IsValid (some address) = ground (
    arith,
    v.counted,
    v.readable.header,
    v.readable.bounded,
    v.readable.flags,
    total-remove_prior pointer s.blocks,
  )

prior_le :
    (s : State) (pointer : Option ℕ)
    → IsValid s
    → prior_bytes pointer s.blocks ≤ s.telemetry.current_bytes
prior_le s pointer v = omega (arith, total-remove_prior pointer s.blocks, v.counted)

-- Every call keeps the count of the live blocks exact and below the peak and the ceiling, whatever
-- is asked for and whatever malloc and the notification do.
pub lua_allocator-IsValid :
    (s : State) (pointer : Option ℕ) (new_size : ℕ) (allocated : Option ℕ)
    → IsValid s
    → IsValid (lua_allocator s pointer new_size allocated).0
unfolding lua_allocator
lua_allocator-IsValid s pointer new_size allocated v =
    let live : ltb s.telemetry.current_bytes (prior_bytes pointer s.blocks) ≡ false =
      ground (arith, prior_le s pointer v) in
    elim (Bool-cases (new_size == 0)) [
      | inl nothing ↦ rw (v.readable.header, live, nothing) (release-IsValid s pointer v)
      | inr something ↦
          elim (Bool-cases (
            ltb
              (sub_u64 s.telemetry.ceiling_bytes
                (s.telemetry.current_bytes - prior_bytes pointer s.blocks))
              new_size
            || ltb (2 ^ 64 - 1 - 32) new_size)) [
              | inl over ↦
                  rw (v.readable.header, live, something, over)
                    (denied-IsValid s s.notify_heap_denied v)
              | inr under ↦
                  rw (v.readable.header, live, something, under)
                    (place-IsValid s pointer new_size v (ground (arith, v.readable.bounded))
                      allocated)
            ]
    ]

-- A request of more than 0 bytes that fails leaves the blocks and their count as they were. Either
-- the ceiling or the size of a block did not allow it, which the telemetry then shows as a denial, or
-- malloc had nothing, which it shows as a failure of the system.
pub lua_allocator-failure :
    (s : State) (pointer : Option ℕ) (new_size : ℕ) (allocated : Option ℕ)
    → IsValid s
    → new_size ≢ 0
    → (lua_allocator s pointer new_size allocated).1 ≡ none
    → ((lua_allocator s pointer new_size allocated).0.blocks ≡ s.blocks)
      × ((lua_allocator s pointer new_size allocated).0.telemetry.current_bytes
          ≡ s.telemetry.current_bytes)
      × (((s.telemetry.ceiling_bytes + prior_bytes pointer s.blocks
                < s.telemetry.current_bytes + new_size)
              ⊎ (2 ^ 64 - 33 < new_size))
            × ((lua_allocator s pointer new_size allocated).0.telemetry.ceiling_denied ≡ 1)
          ⊎ (allocated ≡ none)
            × ((lua_allocator s pointer new_size allocated).0.telemetry.system_allocation_failed
                ≡ 1))
unfolding lua_allocator place mark_ceiling_denied
lua_allocator-failure s pointer new_size none v asked failed =
    ground (arith, v.readable.header, v.readable.bounded, prior_le s pointer v)
lua_allocator-failure s pointer new_size (some address) v asked failed =
    ground (arith, v.readable.header, v.readable.bounded, prior_le s pointer v)

-- A call that succeeds gives the address of malloc, at which the block has the size asked for, and
-- the count is what the old block leaves plus that size, within the ceiling.
pub lua_allocator-success :
    (s : State) (pointer : Option ℕ) (new_size : ℕ) (allocated : Option ℕ) (address : ℕ)
    → IsValid s
    → (lua_allocator s pointer new_size allocated).1 ≡ some address
    → (allocated ≡ some address)
      × (block_bytes address (lua_allocator s pointer new_size allocated).0.blocks ≡ new_size)
      × ((lua_allocator s pointer new_size allocated).0.telemetry.current_bytes
            + prior_bytes pointer s.blocks
          ≡ s.telemetry.current_bytes + new_size)
      × (s.telemetry.current_bytes + new_size
          ≤ s.telemetry.ceiling_bytes + prior_bytes pointer s.blocks)
unfolding lua_allocator place block_bytes
lua_allocator-success s pointer new_size none address v given = ground (arith, v.readable.header)
lua_allocator-success s pointer new_size (some a) address v given =
    ground (arith, v.readable.header, v.readable.bounded, prior_le s pointer v)

-- Requests, one after another.
pub record Request : Type 0 where
  pub pointer : Option ℕ
  pub new_size : ℕ
  pub allocated : Option ℕ

unfoldable pub serve : State → List Request → State
serve s [] = s
serve s (r ∷ rs) = serve (lua_allocator s r.pointer r.new_size r.allocated).0 rs

serve-IsValid : (s : State) (rs : List Request) → IsValid s → IsValid (serve s rs)
unfolding serve
serve-IsValid s [] v = v
serve-IsValid s (r ∷ rs) v =
    serve-IsValid (lua_allocator s r.pointer r.new_size r.allocated).0 rs
      (lua_allocator-IsValid s r.pointer r.new_size r.allocated v)

-- No call changes the ceiling.
lua_allocator-ceiling :
    (s : State) (pointer : Option ℕ) (new_size : ℕ) (allocated : Option ℕ)
    → (lua_allocator s pointer new_size allocated).0.telemetry.ceiling_bytes
      ≡ s.telemetry.ceiling_bytes
unfolding lua_allocator place release mark_ceiling_denied publish_peak
lua_allocator-ceiling s none new_size none = ground arith
lua_allocator-ceiling s none new_size (some address) = ground arith
lua_allocator-ceiling s (some p) new_size none = ground arith
lua_allocator-ceiling s (some p) new_size (some address) = ground arith

serve-ceiling :
    (s : State) (rs : List Request)
    → (serve s rs).telemetry.ceiling_bytes ≡ s.telemetry.ceiling_bytes
unfolding serve
serve-ceiling s [] = refl
serve-ceiling s (r ∷ rs) =
    serve-ceiling (lua_allocator s r.pointer r.new_size r.allocated).0 rs
    ∙ lua_allocator-ceiling s r.pointer r.new_size r.allocated

start-ceiling :
    (ceiling : ℕ) (notify : Option Bool) {t : Telemetry} {s : State}
    → telemetry_init ceiling ≡ some t
    → state_init t notify ≡ some s
    → s.telemetry.ceiling_bytes ≡ ceiling
unfolding telemetry_init
start-ceiling ceiling notify {t} {s} h k =
    ap (λ (u : State). u.telemetry.ceiling_bytes) (state_init-blocks t notify k) ∙ ground arith

-- From fresh telemetry on, after any requests, the controller's snapshot works and shows the ceiling
-- that was given and the bytes of the live blocks, with a peak between these and that ceiling.
pub serve-snapshot :
    (ceiling : ℕ) (notify : Option Bool) {t : Telemetry} {s : State} (rs : List Request)
    → telemetry_init ceiling ≡ some t
    → state_init t notify ≡ some s
    → (shown : Snapshot) × (snapshot (serve s rs).telemetry ≡ some shown)
      × (shown.current_bytes ≡ total (serve s rs).blocks)
      × (shown.current_bytes ≤ shown.peak_bytes)
      × (shown.peak_bytes ≤ ceiling)
      × (shown.ceiling_bytes ≡ ceiling)
serve-snapshot ceiling notify {t} {s} rs h k =
    let v = serve-IsValid s rs (state_init-IsValid ceiling notify h k) in
    let same = serve-ceiling s rs ∙ start-ceiling ceiling notify h k in
    (
      _,
      snapshot-IsReadable (serve s rs).telemetry v.readable,
      sym v.counted,
      v.readable.bounded.0,
      omega (arith, v.readable.bounded, same),
      same,
    )
