-- ===== src/Hub/Locks.antt =====
-- `lockGame` of internal/hub/hub.go: a mutex for each game, made when it is first wanted and dropped
-- when nobody refers to it. A `*gameLock` is a number. Each definition is one section under `h.mu`,
-- or one operation on the mutex of a game.
use rps_backend.Prelude.{
  Bool, List, Option, [], false, if◌then◌else◌, nat_eq, none, some, suc, true, update, ℕ, ◌&&◌, ◌+◌,
  ◌-◌, ◌==◌, ◌∷◌, ◌≡◌,
}
use rps_backend.Threads.{Moves}

pub record GameLock : Type 0 where
  pub is_locked : Bool  -- the field `mu`
  pub refs : ℕ

pub record Locks : Type 0 where
  pub cells : ℕ → GameLock  -- the memory that a `*gameLock` refers to
  pub next_cell : ℕ  -- the pointer of the next allocation
  pub table : ℕ → Option ℕ  -- `Hub.locks`

-- `l.refs++`
abbrev pub add_ref : ℕ → Locks → Locks
add_ref l k = record k {
  cells = update k.cells l (record (k.cells l) { refs = (k.cells l).refs + 1 });
}

-- `h.locks[id] = &gameLock{}`, and its first reference.
abbrev pub allocate : ℕ → Locks → Locks
allocate id k = record k {
  cells = update k.cells k.next_cell (record { is_locked = false; refs = 1 });
  next_cell = suc k.next_cell;
  table = update k.table id (some k.next_cell);
}

abbrev pub enter_found : ℕ → Locks → Option ℕ → ℕ × Locks
enter_found id k none = (k.next_cell, allocate id k)
enter_found id k (some l) = (l, add_ref l k)

unfoldable pub enter : ℕ → Locks → ℕ × Locks
enter id k = enter_found id k (k.table id)

abbrev pub set_locked : Bool → ℕ → Locks → Locks
set_locked b l k = record k { cells = update k.cells l (record (k.cells l) { is_locked = b }) }

unfoldable pub drop_ref : ℕ → ℕ → Locks → Locks
drop_ref id l k =
    let n = (k.cells l).refs - 1 in
    record k {
      cells = update k.cells l (record (k.cells l) { refs = n });
      table = if n == 0 then update k.table id none else k.table;
    }

-- Where a goroutine stands with the lock of game `id`, which it knows as `cell`.
pub data Stage : Type 0 where
  outside waiting holding releasing : Stage

pub record Goroutine : Type 0 where
  pub stage : Stage
  pub id : ℕ
  pub cell : ℕ

abbrev pub is_outside : Stage → Bool
is_outside outside = true
is_outside _ = false

abbrev pub is_holding : Stage → Bool
is_holding holding = true
is_holding _ = false

pub data LockStep (k : Locks) (ps : List Goroutine) : Locks → List Goroutine → Type 0 where
  spawns : {i l : ℕ} → LockStep k ps k (record { stage = outside; id = i; cell = l } ∷ ps)
  enters :
      {p : Goroutine} {i : ℕ} {qs : List Goroutine}
      → p.stage ≡ outside
      → Moves p (record { stage = waiting; id = i; cell = (enter i k).0 }) ps qs
      → LockStep k ps (enter i k).1 qs
  locks :
      {p : Goroutine} {qs : List Goroutine}
      → p.stage ≡ waiting
      → (k.cells p.cell).is_locked ≡ false
      → Moves p (record p { stage = holding }) ps qs
      → LockStep k ps (set_locked true p.cell k) qs
  unlocks :
      {p : Goroutine} {qs : List Goroutine}
      → p.stage ≡ holding
      → Moves p (record p { stage = releasing }) ps qs
      → LockStep k ps (set_locked false p.cell k) qs
  drops :
      {p : Goroutine} {qs : List Goroutine}
      → p.stage ≡ releasing
      → Moves p (record p { stage = outside }) ps qs
      → LockStep k ps (drop_ref p.id p.cell k) qs

abbrev pub no_locks : Locks
no_locks = record {
  cells = λ _. record { is_locked = false; refs = 0 };
  next_cell = 0;
  table = λ _. none;
}

pub data LockRun : Locks → List Goroutine → Type 0 where
  begins : LockRun no_locks []
  goes_on :
      {k k' : Locks} {ps qs : List Goroutine} → LockRun k ps → LockStep k ps k' qs → LockRun k' qs

-- The goroutines between `lockGame` and the release of the mutex of game `i`.
abbrev pub inside : ℕ → Goroutine → Bool
inside i p = is_holding p.stage && p.id == i
