-- ===== src/Hub/Steps/Endings.antt =====
-- How an action of the hub ends, with its value.
use rps_backend.Errors.{Action, Error, Result, err, if_not_found, ok, unless_not_found, ◌>>=◌}
use rps_backend.Hub.Defs.{Hub}
use rps_backend.Hub.Steps.Core.{Run, StepPreserves}
use rps_backend.Hub.Support.{guard, lift}
use rps_backend.Prelude.{Bool, false, refl, true, ◌≡◌}

-- How an action ended: with a value and a hub that `Q` describes, or with an error and one that `E`
-- does.
abbrev pub EndsIn {ℓ} : {A : Type ℓ} → (Hub → Type 0) → (A → Hub → Type 0) → Result A × Hub → Type 0
EndsIn E Q (ok a, h) = Q a h
EndsIn E Q (err _, h) = E h

abbrev pub Leads {ℓ} :
    {A : Type ℓ} → (Hub → Type 0) → (Hub → Type 0) → (A → Hub → Type 0) → Action Hub A → Type 0
Leads E P Q m = (h : Hub) → P h → EndsIn E Q (m h)

pub Leads-bind {ℓ κ} :
    {A : Type ℓ} {B : Type κ} (E P : Hub → Type 0) (Q : A → Hub → Type 0) (R : B → Hub → Type 0)
    (m : Action Hub A) (f : A → Action Hub B)
    → Leads E P Q m
    → ((a : A) → Leads E (Q a) R (f a))
    → Leads E P R (m >>= f)
unfolding ◌>>=◌
Leads-bind {A} {B} E P Q R m f first next h p = go (m h) (first h p)
  where
    go :
        (r : Result A × Hub)
        → EndsIn E Q r
        → EndsIn E R (elim r.0 as (λ x. Result B × Hub) [ ok a ↦ f a r.1 | err e ↦ (err e, r.1) ])
    go (ok a, h') q = next a h' q
    go (err e, h') q = q

pub keeps-Leads {ℓ} :
    {A : Type ℓ} (P : Hub → Type 0) (m : Action Hub A) → StepPreserves P m → Leads P P (λ _. P) m
keeps-Leads {A} P m keeps h k = go (m h) (keeps h k)
  where
    go : (r : Result A × Hub) → P r.1 → EndsIn P (λ _. P) r
    go (ok a, h') q = q
    go (err e, h') q = q

pub Leads-Run {ℓ} :
    {A : Type ℓ} (P Q : Hub → Type 0) (m : Action Hub A) → Leads Q P (λ _. Q) m → Run P Q m
Leads-Run {A} P Q m leads h p = go (m h) (leads h p)
  where
    go : (r : Result A × Hub) → EndsIn Q (λ _. Q) r → Q r.1
    go (ok a, h') q = q
    go (err e, h') q = q

pub Run-Leads {ℓ} :
    {A : Type ℓ} (P Q : Hub → Type 0) (m : Action Hub A) → Run P Q m → Leads Q P (λ _. Q) m
Run-Leads {A} P Q m runs h p = go (m h) (runs h p)
  where
    go : (r : Result A × Hub) → Q r.1 → EndsIn Q (λ _. Q) r
    go (ok a, h') q = q
    go (err e, h') q = q

pub if_not_found-Leads {ℓ} :
    {A : Type ℓ} (E P : Hub → Type 0) (Q : A → Hub → Type 0) (e : Error) (m : Action Hub A)
    → Leads E P Q m
    → Leads E P Q (if_not_found e m)
unfolding if_not_found
if_not_found-Leads {A} E P Q e m leads h p = go (m h) (leads h p)
  where
    go :
        (r : Result A × Hub)
        → EndsIn E Q r
        → EndsIn E Q (elim r.0 as (λ x. Result A × Hub) [
          | ok a ↦ (ok a, r.1)
          | err d ↦ (err (unless_not_found e d), r.1)
        ])
    go (ok a, h') q = q
    go (err d, h') q = q

-- A value that an action is handed, with what its equation says.
pub lift-Leads {ℓ} :
    {A : Type ℓ} (E P : Hub → Type 0) (Q : A → Type 0) (r : Result A)
    → ((h : Hub) → P h → E h)
    → ((a : A) → r ≡ ok a → Q a)
    → Leads E P (λ a h. P h × Q a) (lift r)
lift-Leads E P Q (ok a) weaken known h p = (p, known a refl)
lift-Leads E P Q (err e) weaken known h p = weaken h p

pub guard-Leads :
    (E P : Hub → Type 0) (b : Bool) (e : Error)
    → ((h : Hub) → P h → E h)
    → Leads E P (λ _. P) (guard b e)
guard-Leads E P true e weaken h p = p
guard-Leads E P false e weaken h p = weaken h p
