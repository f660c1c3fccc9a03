-- ===== src/Threads.antt =====
-- Goroutines that take turns: one of a list goes on, and how many of them a test holds of.
use rps_backend.Prelude.{All, Bool, List, [], arith, false, if◌then◌else◌, ℕ, ◌+◌, ◌∷◌, ◌≡◌}

-- One goroutine goes on.
pub data Moves {ℓ} {A : Type ℓ} (p q : A) : List A → List A → Type ℓ where
  here : {ps : List A} → Moves p q (p ∷ ps) (q ∷ ps)
  later : {r : A} {ps qs : List A} → Moves p q ps qs → Moves p q (r ∷ ps) (r ∷ qs)

module _ {ℓ} {A : Type ℓ} where
  abbrev pub count : (A → Bool) → List A → ℕ
  count f [] = 0
  count f (p ∷ ps) = (if f p then 1 else 0) + count f ps

  pub count-Moves :
      (f : A → Bool) {p q : A} {ps qs : List A}
      → Moves p q ps qs
      → count f qs + (if f p then 1 else 0) ≡ count f ps + (if f q then 1 else 0)
  count-Moves f here = omega arith
  count-Moves f (later m) = omega (arith, count-Moves f m)

  -- What is known of all goroutines is known of the one that moves.
  pub All-Moves {κ} : (P : A → Type κ) {p q : A} {ps qs : List A} → Moves p q ps qs → All P ps → P p
  All-Moves P here all = all.0
  All-Moves P (later m) all = All-Moves P m all.1

  pub All-map {κ μ} :
      (P : A → Type κ) (Q : A → Type μ) (ps : List A) → All P ps → ((r : A) → P r → Q r) → All Q ps
  All-map P Q [] all weaken = tt
  All-map P Q (r ∷ ps) all weaken = (weaken r all.0, All-map P Q ps all.1 weaken)

  pub All-moved {κ μ} :
      (P : A → Type κ) (Q : A → Type μ) {p q : A} {ps qs : List A}
      → Moves p q ps qs
      → All P ps
      → Q q
      → ((r : A) → P r → Q r)
      → All Q qs
  All-moved P Q here all new weaken = (new, All-map P Q _ all.1 weaken)
  All-moved P Q (later m) all new weaken = (weaken _ all.0, All-moved P Q m all.1 new weaken)

  -- A count of 0 says that `f` holds of none.
  pub count-zero {κ μ} :
      (P : A → Type κ) (Q : A → Type μ) (f : A → Bool) (ps : List A)
      → count f ps ≡ 0
      → All P ps
      → ((r : A) → P r → f r ≡ false → Q r)
      → All Q ps
  count-zero P Q f [] z all weaken = tt
  count-zero P Q f (r ∷ ps) z all weaken =
      (weaken r all.0 (ground arith), count-zero P Q f ps (ground arith) all.1 weaken)
