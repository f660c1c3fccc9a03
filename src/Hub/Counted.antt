-- ===== src/Hub/Counted.antt =====
-- The reference counts of the locks of games (`lockGame`) count the goroutines that refer to them, and
-- each step keeps them so.
use rps_backend.Threads.{Moves, count, All-Moves, All-map, All-moved, count-Moves, count-zero}
use rps_backend.Hub.Locks.{
  Goroutine, Locks, add_ref, allocate, drop_ref, enter_found, holding, is_holding, is_outside,
  outside, releasing, set_locked, waiting,
}
use rps_backend.Prelude.{
  All, Bool, Bool-cases, List, Option, [], arith, false, if◌then◌else◌, inl, inr, nat_eq, none, not,
  refl, some, true, ℕ, ◌&&◌, ◌-◌, ◌<◌, ◌==◌, ◌∷◌, ◌≡◌, ◌≢◌, ◌≤◌,
}

abbrev pub uses : ℕ → Goroutine → Bool
uses l p = not (is_outside p.stage) && p.cell == l

abbrev pub holds : ℕ → Goroutine → Bool
holds l p = is_holding p.stage && p.cell == l

-- A goroutine that counts in `refs` finds its cell in the table.
abbrev pub Knows : Locks → Goroutine → Type 0
Knows k p = is_outside p.stage ≡ false → k.table p.id ≡ some p.cell

pub record Valid (k : Locks) (ps : List Goroutine) : Type 0 where
  pub refs_count : (l : ℕ) → (k.cells l).refs ≡ count (uses l) ps
  pub lock_count : (l : ℕ) → count (holds l) ps ≡ (if (k.cells l).is_locked then 1 else 0)
  pub known : All (Knows k) ps
  pub fresh : (i l : ℕ) → k.table i ≡ some l → l < k.next_cell
  pub wanted : (i l : ℕ) → k.table i ≡ some l → (k.cells l).refs ≢ 0
  pub one_game : (i j l : ℕ) → k.table i ≡ some l → k.table j ≡ some l → i ≡ j

-- Nobody uses a cell that is still to be allocated.
unused :
    (k : Locks) (l : ℕ) (ps : List Goroutine)
    → All (Knows k) ps
    → ((i l : ℕ) → k.table i ≡ some l → l < k.next_cell)
    → k.next_cell ≤ l
    → count (uses l) ps ≡ 0
unused k l [] all fresh far = refl
unused k l (r ∷ ps) all fresh far =
    let rest = unused k l ps all.1 fresh far in
    let near = fresh r.id r.cell in let known = all.0 in ground arith

holds-uses : (l : ℕ) (ps : List Goroutine) → count (holds l) ps ≤ count (uses l) ps
holds-uses l [] = omega arith
holds-uses l (r ∷ ps) = ground (arith, holds-uses l ps)

pub locks-Valid :
    (k : Locks) {p : Goroutine} {ps qs : List Goroutine}
    → p.stage ≡ waiting
    → (k.cells p.cell).is_locked ≡ false
    → Moves p (record p { stage = holding }) ps qs
    → Valid k ps
    → Valid (set_locked true p.cell k) qs
locks-Valid k {p} {ps} {qs} at free m v = record {
  refs_count = λ l. ground (arith, v.refs_count l, count-Moves (uses l) m);
  lock_count = λ l. ground (arith, v.lock_count l, count-Moves (holds l) m);
  known =
      All-moved (Knows k) (Knows (set_locked true p.cell k)) m v.known
        (λ _. All-Moves (Knows k) m v.known (rw at refl)) (λ r known. known);
  fresh = v.fresh;
  wanted = λ i j there. ground (arith, v.wanted i j there);
  one_game = v.one_game;
}

pub unlocks-Valid :
    (k : Locks) {p : Goroutine} {ps qs : List Goroutine}
    → p.stage ≡ holding
    → Moves p (record p { stage = releasing }) ps qs
    → Valid k ps
    → Valid (set_locked false p.cell k) qs
unlocks-Valid k {p} {ps} {qs} at m v = record {
  refs_count = λ l. ground (arith, v.refs_count l, count-Moves (uses l) m);
  lock_count = λ l. ground (arith, v.lock_count l, count-Moves (holds l) m);
  known =
      All-moved (Knows k) (Knows (set_locked false p.cell k)) m v.known
        (λ _. All-Moves (Knows k) m v.known (rw at refl)) (λ r known. known);
  fresh = v.fresh;
  wanted = λ i j there. ground (arith, v.wanted i j there);
  one_game = v.one_game;
}

abbrev waits_at : ℕ → ℕ → Goroutine
waits_at i l = record { stage = waiting; id = i; cell = l }

add_ref-Valid :
    (k : Locks) (i l : ℕ) {p : Goroutine} {ps qs : List Goroutine}
    → k.table i ≡ some l
    → p.stage ≡ outside
    → Moves p (waits_at i l) ps qs
    → Valid k ps
    → Valid (add_ref l k) qs
add_ref-Valid k i l {p} {ps} {qs} there at m v = record {
  refs_count = λ j. ground (arith, v.refs_count j, count-Moves (uses j) m);
  lock_count = λ j. ground (arith, v.lock_count j, count-Moves (holds j) m);
  known = All-moved (Knows k) (Knows (add_ref l k)) m v.known (λ _. there) (λ r known. known);
  fresh = v.fresh;
  wanted = λ i j there. ground (arith, v.wanted i j there);
  one_game = v.one_game;
}

allocate-Valid :
    (k : Locks) (i : ℕ) {p : Goroutine} {ps qs : List Goroutine}
    → k.table i ≡ none
    → p.stage ≡ outside
    → Moves p (waits_at i k.next_cell) ps qs
    → Valid k ps
    → Valid (allocate i k) qs
allocate-Valid k i {p} {ps} {qs} gone at m v =
    let nobody = unused k k.next_cell ps v.known v.fresh (omega arith) in
    let nothing = holds-uses k.next_cell ps in
    record {
      refs_count = λ j. ground (arith, v.refs_count j, count-Moves (uses j) m);
      lock_count = λ j. ground (arith, v.lock_count j, count-Moves (holds j) m);
      known =
          All-moved (Knows k) (Knows (allocate i k)) m v.known (λ _. ground arith)
            (λ r known there. ground (arith, known there));
      fresh = λ j l there. ground (arith, v.fresh j l);
      wanted = λ j l there. ground (arith, v.wanted j l, v.fresh j l);
      one_game = λ j n l a b. ground (arith, v.one_game j n l, v.fresh j l, v.fresh n l);
    }

pub enter-Valid :
    (k : Locks) (i : ℕ) (o : Option ℕ) {p : Goroutine} {ps qs : List Goroutine}
    → k.table i ≡ o
    → p.stage ≡ outside
    → Moves p (waits_at i (enter_found i k o).0) ps qs
    → Valid k ps
    → Valid (enter_found i k o).1 qs
enter-Valid k i none found at m v = allocate-Valid k i found at m v
enter-Valid k i (some l) found at m v = add_ref-Valid k i l found at m v

pub drop_ref-Valid :
    (k : Locks) {p : Goroutine} {ps qs : List Goroutine}
    → p.stage ≡ releasing
    → Moves p (record p { stage = outside }) ps qs
    → Valid k ps
    → Valid (drop_ref p.id p.cell k) qs
unfolding drop_ref
drop_ref-Valid k {p} {ps} {qs} at m v =
    let mine = All-Moves (Knows k) m v.known (rw at refl) in
    let others = All-moved (Knows k) (Knows k) m v.known (λ out. ground arith) (λ r known. known) in
    let left = count-Moves (uses p.cell) m in
    let before = v.refs_count p.cell in
    record {
      refs_count = λ j. ground (arith, v.refs_count j, count-Moves (uses j) m);
      lock_count = λ j. ground (arith, v.lock_count j, count-Moves (holds j) m);
      known = elim (Bool-cases ((k.cells p.cell).refs - 1 == 0)) [
        | inl last ↦
            count-zero (Knows k) (Knows (drop_ref p.id p.cell k)) (uses p.cell) qs (ground arith)
              others (λ r known free out. ground (arith, known out))
        | inr more ↦
            All-map (Knows k) (Knows (drop_ref p.id p.cell k)) qs others
              (λ r known out. ground (arith, known out))
      ];
      fresh = λ j l there. ground (arith, v.fresh j l);
      wanted = λ j l there. ground (arith, v.wanted j l, v.one_game j p.id l);
      one_game = λ j n l a b. ground (arith, v.one_game j n l);
    }
