-- ===== src/Store/Free.antt =====
-- The search for a free discriminator (`freeDiscriminator`): the scan of the ordered rows finds the
-- least number that no player of the name has.
use rps_backend.Errors.{Result, err, ok, username_exhausted}
use rps_backend.Prelude.{
  Bool-cases, List, [], arith, contains, false, if◌then◌else◌, inl, inr, ltb, nat_beq, refl, subst,
  suc, sym, true, ℕ, ◌<◌, ◌||◌, ◌∙◌, ◌∷◌, ◌≡◌, ◌≤◌,
}
use rps_backend.Store.Defs.{Player, Store, Text, statement_clear, text_beq}
use rps_backend.Store.Players.{
  free_discriminator, insert_sorted, max_discriminator, name_taken, scan, taken,
}

text_beq-eq : (xs ys : Text) → text_beq xs ys ≡ true → xs ≡ ys
text_beq-eq [] [] h = refl
text_beq-eq [] (y ∷ ys) h = cc
text_beq-eq (x ∷ xs) [] h = cc
text_beq-eq (x ∷ xs) (y ∷ ys) h = ground (arith, text_beq-eq xs ys)

-- Strictly ascending from a lower bound on.
abbrev Ascending : ℕ → List ℕ → Type 0
Ascending n [] = Unit {0}
Ascending n (d ∷ ds) = (n ≤ d) × Ascending (suc d) ds

Ascending-below : (n k : ℕ) (ds : List ℕ) → Ascending n ds → k < n → contains k ds ≡ false
Ascending-below n k [] a h = refl
Ascending-below n k (d ∷ ds) a h = ground (arith, Ascending-below (suc d) k ds a.1)

scan-le : (n : ℕ) (ds : List ℕ) → Ascending n ds → n ≤ scan n ds
unfolding scan
scan-le n [] a = omega arith
scan-le n (d ∷ ds) a = ground (arith, scan-le (suc d) ds a.1)

scan-free : (n : ℕ) (ds : List ℕ) → Ascending n ds → contains (scan n ds) ds ≡ false
unfolding scan
scan-free n [] a = refl
scan-free n (d ∷ ds) a =
    ground
      (arith, scan-free (suc d) ds a.1, scan-le (suc d) ds a.1, Ascending-below (suc d) n ds a.1)

scan-least :
    (n : ℕ) (ds : List ℕ) (k : ℕ) → Ascending n ds → n ≤ k → k < scan n ds → contains k ds ≡ true
unfolding scan
scan-least n [] k a h l = absurd (omega arith)
scan-least n (d ∷ ds) k a h l = ground (arith, scan-least (suc d) ds k a.1)

insert_sorted-Ascending :
    (n d : ℕ) (es : List ℕ)
    → Ascending n es
    → n ≤ d
    → contains d es ≡ false
    → Ascending n (insert_sorted d es)
unfolding insert_sorted
insert_sorted-Ascending n d [] a h f = ground arith
insert_sorted-Ascending n d (e ∷ es) a h f =
    ground (arith, insert_sorted-Ascending (suc e) d es a.1)

contains-insert_sorted :
    (k d : ℕ) (es : List ℕ) → contains k (insert_sorted d es) ≡ nat_beq d k || contains k es
unfolding insert_sorted
contains-insert_sorted k d [] = refl
contains-insert_sorted k d (e ∷ es) = ground (arith, contains-insert_sorted k d es)

pub contains-taken :
    (base : Text) (k : ℕ) (ps : List Player) → contains k (taken base ps) ≡ name_taken base k ps
unfolding taken name_taken
contains-taken base k [] = refl
contains-taken base k (p ∷ ps) =
    ground
      (arith, contains-taken base k ps, contains-insert_sorted k p.discriminator (taken base ps))

-- The constraint UNIQUE (base_name, discriminator).
abbrev pub UniqueNames : List Player → Type 0
UniqueNames [] = Unit {0}
UniqueNames (p ∷ ps) = (name_taken p.base_name p.discriminator ps ≡ false) × UniqueNames ps

taken-Ascending : (base : Text) (ps : List Player) → UniqueNames ps → Ascending 0 (taken base ps)
unfolding taken
taken-Ascending base [] u = tt
taken-Ascending base (p ∷ ps) u = elim (Bool-cases (text_beq p.base_name base)) [
  | inr ne ↦ rw ne (taken-Ascending base ps u.1)
  | inl e ↦ rw e (
      insert_sorted-Ascending 0 p.discriminator (taken base ps) (taken-Ascending base ps u.1)
        (omega arith)
        (contains-taken base p.discriminator ps
          ∙ subst (λ (b : Text). name_taken b p.discriminator ps ≡ false)
              (text_beq-eq p.base_name base e) u.0))
]

-- What the search answers for a name, on the rows of a table.
abbrev pub Answers : Text → List Player → Result ℕ → Type 0
Answers base ps (ok d) =
    (d ≤ max_discriminator)
    × (name_taken base d ps ≡ false)
    × ((k : ℕ) → k < d → name_taken base k ps ≡ true)
Answers base ps (err e) =
    (e ≡ username_exhausted) × ((k : ℕ) → k ≤ max_discriminator → name_taken base k ps ≡ true)

found-Answers :
    (base : Text) (ps : List Player)
    → UniqueNames ps
    → Answers base ps (
        let next = scan 0 (taken base ps) in
        if ltb max_discriminator next then err username_exhausted else ok next)
found-Answers base ps u =
    let next = scan 0 (taken base ps) in
    let ascends = taken-Ascending base ps u in
    let below : (k : ℕ) → k < next → name_taken base k ps ≡ true = λ k l.
      sym (contains-taken base k ps) ∙ scan-least 0 (taken base ps) k ascends (omega arith) l in
    elim (Bool-cases (ltb max_discriminator next)) [
      | inl over ↦ rw over (refl, λ k l. below k (ground arith))
      | inr within ↦ rw within (
        ground arith,
        sym (contains-taken base next ps) ∙ scan-free 0 (taken base ps) ascends,
        below,
      )
    ]

-- Where the database does not fail, the search returns the least discriminator that the name leaves
-- free, at most 9999, or reports that all from 0 to 9999 are taken.
pub free_discriminator-Answers :
    (base : Text) (s : Store)
    → UniqueNames s.players
    → s.faults ≡ []
    → Answers base s.players (free_discriminator base s).0
unfolding free_discriminator
free_discriminator-Answers base s u f = rw (statement_clear _ s f) (found-Answers base s.players u)

-- So it finds one for a name that has one left.
pub free_discriminator_finds :
    (base : Text) (s : Store) (k : ℕ)
    → UniqueNames s.players
    → s.faults ≡ []
    → k ≤ max_discriminator
    → name_taken base k s.players ≡ false
    → (d : ℕ) × (d ≤ max_discriminator)
      × (name_taken base d s.players ≡ false)
      × (free_discriminator base s ≡ (ok d, s))
unfolding free_discriminator
free_discriminator_finds base s k u f h free =
    let next = scan 0 (taken base s.players) in
    let answer = found-Answers base s.players u in
    elim (Bool-cases (ltb max_discriminator next)) [
      | inl over ↦ absurd (
          let all : (j : ℕ) → j ≤ max_discriminator → name_taken base j s.players ≡ true =
            (rw over at answer).1 in
          cc (all k h, free))
      | inr within ↦
          let (small, unused, _) : (next ≤ max_discriminator)
              × (name_taken base next s.players ≡ false)
              × ((j : ℕ) → j < next → name_taken base j s.players ≡ true) =
            rw within at answer in
          (next, small, unused, statement_clear _ s f ∙ rw within)
    ]
