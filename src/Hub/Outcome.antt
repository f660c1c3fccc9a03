-- ===== src/Hub/Outcome.antt =====
-- How an action of the hub ends, with its value, and what that says of the steps by which
-- `game::connect` loads its game.
use rps_backend.Errors.{
  Action, Error, Result, err, if_not_found, invalid_game_creds, ok, proto, unless_not_found, ◌>>=◌,
}
use rps_backend.Hub.Actions.{load_game_with_secret}
use rps_backend.Hub.Attach.{Coherent}
use rps_backend.Hub.Defs.{Hub, on_store}
use rps_backend.Hub.Keeps.{StepKeeps}
use rps_backend.Hub.Steps.{EndsIn, Leads, Leads-bind, Run, keeps-Leads}
use rps_backend.Hub.Support.{External, guard, lift}
use rps_backend.Prelude.{
  Bool, List, Option-cases, ap, false, inl, inr, none, refl, true, ℕ, ◌≡◌, ◌≢◌,
}
use rps_backend.Store.Defs.{Game, Store, Text, find_game, get_game, or_not_found, statement_cases}
use rps_backend.Store.Ids.{NoEmptyId}
use rps_backend.Store.Save.{find_game-id}

-- The case where an error leaves a coherent hub.
abbrev pub Outcome {ℓ} : {A : Type ℓ} → (A → Hub → Type 0) → Result A × Hub → Type 0
Outcome Q r = EndsIn Coherent Q r

abbrev pub Gives {ℓ} : {A : Type ℓ} → (Hub → Type 0) → (A → Hub → Type 0) → Action Hub A → Type 0
Gives P Q m = Leads Coherent P Q m

pub Gives-bind {ℓ κ} :
    {A : Type ℓ} {B : Type κ} (P : Hub → Type 0) (Q : A → Hub → Type 0) (R : B → Hub → Type 0)
    (m : Action Hub A) (f : A → Action Hub B)
    → Gives P Q m
    → ((a : A) → Gives (Q a) R (f a))
    → Gives P R (m >>= f)
Gives-bind P Q R m f first next = Leads-bind Coherent P Q R m f first next

abbrev IdIs : ℕ → Result Game → Type 0
IdIs i (ok g) = (g.id ≡ i) × (i ≢ 0)
IdIs i (err _) = Unit {0}

or_not_found-IdIs :
    (i : ℕ) (gs : List Game) → find_game 0 gs ≡ none → IdIs i (or_not_found (find_game i gs))
or_not_found-IdIs i gs k = elim (Option-cases (find_game i gs)) [
  | inl missing ↦ rw missing tt
  | inr (g, found) ↦
      rw found (find_game-id i g gs found, λ z. cc (ap (λ (j : ℕ). find_game j gs) z))
]

get_game-IdIs : (i : ℕ) (s : Store) → NoEmptyId s → IdIs i (get_game i s).0
unfolding get_game
get_game-IdIs i s k =
    statement_cases (λ r. IdIs i r.0) _ s (λ fs. tt) (λ fs. or_not_found-IdIs i s.games k)

-- The game that was found by the id `i`, in a hub of which `S` holds.
abbrev pub Loaded : (Hub → Type 0) → ℕ → Game → Hub → Type 0
Loaded S i g h = S h × (g.id ≡ i) × (i ≢ 0)

fetch-Gives :
    (S : Hub → Type 0) (e : Error) (i : ℕ)
    → ((h : Hub) → S h → Coherent h)
    → Run S S (on_store (get_game i))
    → Gives S (Loaded S i) (if_not_found e (on_store (get_game i)))
unfolding if_not_found on_store
fetch-Gives S e i weaken loads h p =
    go (on_store (get_game i) h) (loads h p) (get_game-IdIs i h.store (weaken h p).no_empty_id)
  where
    go :
        (r : Result Game × Hub)
        → S r.1
        → IdIs i r.0
        → Outcome (Loaded S i) (elim r.0 as (λ x. Result Game × Hub) [
          | ok a ↦ (ok a, r.1)
          | err d ↦ (err (unless_not_found e d), r.1)
        ])
    go (ok g, h') q known = (q, known.0, known.1)
    go (err d, h') q known = weaken h' q

pub guard-Gives :
    (S : Hub → Type 0) (b : Bool) (e : Error)
    → ((h : Hub) → S h → Coherent h)
    → Gives S (λ _ h. S h) (guard b e)
guard-Gives S true e weaken h p = p
guard-Gives S false e weaken h p = weaken h p

pub load-Gives :
    (S : Hub → Type 0) (x : External) (i : ℕ) (secret : Text)
    → ((h : Hub) → S h → Coherent h)
    → Run S S (on_store (get_game i))
    → Gives S (Loaded S i) (load_game_with_secret x i secret)
unfolding load_game_with_secret
load-Gives S x i secret weaken loads =
    Gives-bind S (Loaded S i) (Loaded S i) _ _
      (fetch-Gives S (proto invalid_game_creds) i weaken loads)
      λ g.
        Gives-bind (Loaded S i g) (λ _. Loaded S i g) (Loaded S i) _ _
          (guard-Gives (Loaded S i g) _ _ (λ h q. weaken h q.0)) λ _ h q. q

pub lift-Gives {ℓ} :
    {A : Type ℓ} (P : Hub → Type 0) (Q : A → Type 0) (r : Result A)
    → ((h : Hub) → P h → Coherent h)
    → ((a : A) → r ≡ ok a → Q a)
    → Gives P (λ a h. P h × Q a) (lift r)
lift-Gives P Q (ok a) weaken known h p = (p, known a refl)
lift-Gives P Q (err e) weaken known h p = weaken h p

pub keeps-Gives {ℓ} :
    {A : Type ℓ} (m : Action Hub A) → StepKeeps m → Gives Coherent (λ _. Coherent) m
keeps-Gives m keeps = keeps-Leads Coherent m keeps

pub Outcome-Coherent {ℓ} :
    {A : Type ℓ} (r : Result A × Hub) → Outcome {A = A} (λ _. Coherent) r → Coherent r.1
Outcome-Coherent (ok a, h) k = k
Outcome-Coherent (err e, h) k = k
