-- ===== src/Repository/Disk.antt =====
-- native/proc17_repository_fs.c: what a directory may go through while a file is created in it. A
-- temporary file is written by one descriptor. It is renamed only when it is synced and closed, and
-- the new name is durable when the directory is synced.
use mathlib.Core.Option.{Option, none, some}
use proc.Base.{
  ℕ, Bool, true, false, not, ◌&&◌, ◌==◌, if◌then◌else◌, List, [], ◌∷◌, ◌++◌, ◌>>=◌, ◌≡◌, refl,
  arith,
}
use proc.Repository.Calls.{
  project_base, repository, parent, temporary, target, reading, Descriptors, none_open, held, set,
  Event, opened, created, mode_set, wrote, synced, closed, renamed, unlinked, Run,
}

-- The file that is created: a temporary name with its content, which may be synced, or the final
-- name with its content, and whether the directory was synced since.
pub data Entry : Type 0 where
  absent : Entry
  private : List ℕ → List ℕ → Entry
  sealed : List ℕ → List ℕ → Entry
  published : List ℕ → List ℕ → Bool → Entry

pub record Disk : Type 0 where
  pub descriptors : Descriptors
  pub entry : Entry

abbrev list_eq : List ℕ → List ℕ → Bool
list_eq [] [] = true
list_eq [] (b ∷ bs) = false
list_eq (a ∷ xs) [] = false
list_eq (a ∷ xs) (b ∷ bs) = a == b && list_eq xs bs

abbrev created_entry : List ℕ → Entry → Option Entry
created_entry name absent = some (private name [])
created_entry name e = none

abbrev written_entry : List ℕ → Entry → Option Entry
written_entry bytes (private name content) = some (private name (content ++ bytes))
written_entry bytes (sealed name content) = some (private name (content ++ bytes))
written_entry bytes e = none

abbrev synced_entry : Entry → Option Entry
synced_entry (private name content) = some (sealed name content)
synced_entry (sealed name content) = some (sealed name content)
synced_entry e = none

abbrev renamed_entry : List ℕ → List ℕ → Entry → Option Entry
renamed_entry old new (sealed name content) =
    if list_eq name old then some (published new content false) else none
renamed_entry old new e = none

abbrev unlinked_entry : List ℕ → Entry → Option Entry
unlinked_entry gone (private name content) = if list_eq name gone then some absent else none
unlinked_entry gone (sealed name content) = if list_eq name gone then some absent else none
unlinked_entry gone e = none

abbrev durable_entry : Entry → Entry
durable_entry (published name content durable) = published name content true
durable_entry e = e

abbrev with_entry : Descriptors → Option Entry → Option Disk
with_entry fds none = none
with_entry fds (some e) = some (record { descriptors = fds; entry = e })

-- One call, where the rules allow it: no descriptor is opened over an open one, or used or closed
-- when it is not open.
unfoldable pub step : Event → Disk → Option Disk
step (opened d path resolve) s =
    if held d s.descriptors
    then none
    else some (record s { descriptors = set d true s.descriptors })
step (created name mode) s =
    if held parent s.descriptors && not (held temporary s.descriptors)
    then with_entry (set temporary true s.descriptors) (created_entry name s.entry)
    else none
step (mode_set mode) s = if held temporary s.descriptors then some s else none
step (wrote bytes) s =
    if held temporary s.descriptors
    then with_entry s.descriptors (written_entry bytes s.entry)
    else none
step (synced project_base) s = none
step (synced repository) s = none
step (synced target) s = none
step (synced reading) s = none
step (synced parent) s =
    if held parent s.descriptors
    then with_entry s.descriptors (some (durable_entry s.entry))
    else none
step (synced temporary) s =
    if held temporary s.descriptors then with_entry s.descriptors (synced_entry s.entry) else none
step (closed d) s =
    if held d s.descriptors
    then some (record s { descriptors = set d false s.descriptors })
    else none
step (renamed old new) s =
    if held parent s.descriptors && not (held temporary s.descriptors)
    then with_entry s.descriptors (renamed_entry old new s.entry)
    else none
step (unlinked name) s =
    if held parent s.descriptors
    then with_entry s.descriptors (unlinked_entry name s.entry)
    else none

-- The calls of a run, newest first.
unfoldable pub replay : List Event → Option Disk
replay [] = some (record { descriptors = none_open; entry = absent })
replay (event ∷ earlier) = replay earlier >>= step event

pub list_eq-same : (xs : List ℕ) → list_eq xs xs ≡ true
list_eq-same [] = refl
list_eq-same (a ∷ xs) = ground (arith, list_eq-same xs)

-- A run whose calls are allowed and lead to these open descriptors and this file.
pub record At (fds : Descriptors) (e : Entry) (r : Run) : Type 0 where
  pub descriptors : r.descriptors ≡ fds
  pub allowed : replay r.events ≡ some (record { descriptors = fds; entry = e })

pub At-take :
    (fds fds' : Descriptors) (e e' : Entry) (event : Event) (r : Run)
    → At fds e r
    → step event (record { descriptors = fds; entry = e })
      ≡ some (record { descriptors = fds'; entry = e' })
    → At fds' e' (record { descriptors = fds'; events = event ∷ r.events })
unfolding replay
At-take fds fds' e e' event r h one = record { descriptors = refl; allowed = rw h.allowed one }
