-- ===== src/Hub/Exclusion.antt =====
-- The locks of games exclude each other's holders, although they come and go (`lockGame`).
use rps_backend.Threads.{count}
use rps_backend.Hub.Locks.{
  Goroutine, LockRun, LockStep, Locks, begins, drops, enter, enters, goes_on, inside, is_outside,
  locks, spawns, unlocks,
}
use rps_backend.Prelude.{
  All, Bool, List, Option-cases, [], arith, inl, inr, nat_eq, none, not, refl, some, ℕ, ◌∷◌, ◌≡◌,
  ◌≤◌,
}
use rps_backend.Hub.Counted.{
  Knows, Valid, drop_ref-Valid, enter-Valid, holds, locks-Valid, unlocks-Valid, uses,
}

LockStep-Valid :
    {k k' : Locks} {ps qs : List Goroutine} → LockStep k ps k' qs → Valid k ps → Valid k' qs
unfolding enter
LockStep-Valid {k} spawns v = record {
  refs_count = λ l. ground (arith, v.refs_count l);
  lock_count = λ l. ground (arith, v.lock_count l);
  known = ((λ out. ground arith), v.known);
  fresh = v.fresh;
  wanted = λ i j there. ground (arith, v.wanted i j there);
  one_game = v.one_game;
}
LockStep-Valid {k} (enters {p} {i} at m) v = enter-Valid k i (k.table i) refl at m v
LockStep-Valid {k} (locks at free m) v = locks-Valid k at free m v
LockStep-Valid {k} (unlocks at m) v = unlocks-Valid k at m v
LockStep-Valid {k} (drops at m) v = drop_ref-Valid k at m v

LockRun-Valid : {k : Locks} {ps : List Goroutine} → LockRun k ps → Valid k ps
LockRun-Valid begins = record {
  refs_count = λ l. refl;
  lock_count = λ l. refl;
  known = tt;
  fresh = λ i l there. ground arith;
  wanted = λ i l there. ground arith;
  one_game = λ i j l a b. ground arith;
}
LockRun-Valid (goes_on before step) = LockStep-Valid step (LockRun-Valid before)

-- The holders of one game all hold the cell of the table.
inside-holds :
    (k : Locks) (i l : ℕ) (ps : List Goroutine)
    → All (Knows k) ps
    → k.table i ≡ some l
    → count (inside i) ps ≤ count (holds l) ps
inside-holds k i l [] all there = omega arith
inside-holds k i l (r ∷ ps) all there =
    let rest = inside-holds k i l ps all.1 there in let known = all.0 in ground arith

inside-none :
    (k : Locks) (i : ℕ) (ps : List Goroutine)
    → All (Knows k) ps
    → k.table i ≡ none
    → count (inside i) ps ≡ 0
inside-none k i [] all gone = refl
inside-none k i (r ∷ ps) all gone =
    let rest = inside-none k i ps all.1 gone in let known = all.0 in ground arith

-- However goroutines take, wait for and release the locks of games, at most one of them at a time
-- holds the lock of a game, also where the lock was dropped and made anew in between.
pub LockRun-exclusive :
    (k : Locks) (ps : List Goroutine) (i : ℕ) → LockRun k ps → count (inside i) ps ≤ 1
LockRun-exclusive k ps i before =
    let v = LockRun-Valid before in
    elim (Option-cases (k.table i)) [
      | inl gone ↦ omega (arith, inside-none k i ps v.known gone)
      | inr (l, there) ↦
          let held = inside-holds k i l ps v.known there in ground (arith, v.lock_count l)
    ]

abbrev pub takes_part : Goroutine → Bool
takes_part p = not (is_outside p.stage)

uses-takes_part : (l : ℕ) (ps : List Goroutine) → count (uses l) ps ≤ count takes_part ps
uses-takes_part l [] = omega arith
uses-takes_part l (r ∷ ps) = ground (arith, uses-takes_part l ps)

-- No lock is left behind: when no goroutine holds or awaits one any more, the table is empty.
pub LockRun-empty :
    (k : Locks) (ps : List Goroutine) (i : ℕ)
    → LockRun k ps
    → count takes_part ps ≡ 0
    → k.table i ≡ none
LockRun-empty k ps i before none_left =
    let v = LockRun-Valid before in
    elim (Option-cases (k.table i)) [
      | inl gone ↦ gone
      | inr (l, there) ↦
          let nobody = uses-takes_part l ps in
          let some_refs = v.wanted i l there in ground (arith, v.refs_count l)
    ]
