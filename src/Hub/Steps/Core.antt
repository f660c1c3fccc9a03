-- ===== src/Hub/Steps/Core.antt =====
-- Predicates on the hub that its operations preserve.
use rps_backend.Errors.{Action, Error, Result, err, if_not_found, ok, unless_not_found, ◌>>=◌}
use rps_backend.Hub.Conn.{Body, close_conn}
use rps_backend.Hub.Defs.{Hub, detach_locked, each, modify_conn, notify, on_store}
use rps_backend.Hub.Support.{save}
use rps_backend.Prelude.{All, List, [], ap, ℕ, ◌∷◌, ◌≡◌}
use rps_backend.Store.Defs.{Game, Store}
use rps_backend.Store.Ids.{KeepsIds, NoEmptyId, save_game-KeepsIds}
use rps_backend.Store.Reads.{SameTables}

abbrev pub Preserves : (Hub → Type 0) → (Hub → Hub) → Type 0
Preserves P w = (h : Hub) → P h → P (w h)

abbrev pub AllPreserve : (Hub → Type 0) → List (Hub → Hub) → Type 0
AllPreserve P ws = All (Preserves P) ws

-- What an event, a close request, a detachment and a query preserve.
pub record Quiet (P : Hub → Type 0) : Type 0 where
  pub notified : (c : ℕ) (body : Body) → Preserves P (notify c body)
  pub closed_one : (c code : ℕ) → Preserves P (modify_conn c (close_conn code))
  pub detached_one : (c : ℕ) → Preserves P (detach_locked c)
  pub queried : (h : Hub) (s : Store) → SameTables h.store s → P h → P (record h { store = s })

-- What every store method preserves as well.
pub record Stable (P : Hub → Type 0) : Type 0 where
  pub quiet : Quiet P
  pub stored :
      (h : Hub) (s : Store) → (NoEmptyId h.store → NoEmptyId s) → P h → P (record h { store = s })

-- An action takes a hub of which `P` holds to one of which `Q` holds, also where it fails.
abbrev pub Run {ℓ} : {A : Type ℓ} → (Hub → Type 0) → (Hub → Type 0) → Action Hub A → Type 0
Run P Q m = (h : Hub) → P h → Q (m h).1

pub Run-bind {ℓ κ} :
    {A : Type ℓ} {B : Type κ} (P Q R : Hub → Type 0) (m : Action Hub A) (f : A → Action Hub B)
    → ((h : Hub) → Q h → R h)
    → Run P Q m
    → ((a : A) → Run Q R (f a))
    → Run P R (m >>= f)
unfolding ◌>>=◌
Run-bind {A} {B} P Q R m f weaken first next h p = go (m h) (first h p)
  where
    go :
        (r : Result A × Hub)
        → Q r.1
        → R (elim r.0 as (λ x. Result B × Hub) [ ok a ↦ f a r.1 | err e ↦ (err e, r.1) ]).1
    go (ok a, h') q = next a h' q
    go (err e, h') q = weaken h' q

pub on_store_result {ℓ} :
    {A : Type ℓ} (m : Action Store A) (h : Hub) (r : Result A × Store)
    → m h.store ≡ r
    → on_store m h ≡ (r.0, record h { store = r.1 })
unfolding on_store
on_store_result {A} m h r e = ap (λ (q : Result A × Store). (q.0, record h { store = q.1 })) e

pub each-Preserves :
    (P : Hub → Type 0) (f : ℕ → Hub → Hub)
    → ((c : ℕ) → Preserves P (f c))
    → (cs : List ℕ) → Preserves P (each f cs)
unfolding each
each-Preserves P f keeps [] h k = k
each-Preserves P f keeps (c ∷ cs) h k = each-Preserves P f keeps cs (f c h) (keeps c h k)

module _ (P : Hub → Type 0) where
  -- An action that preserves `P`, also where it fails.
  abbrev pub StepPreserves {ℓ} : {A : Type ℓ} → Action Hub A → Type 0
  StepPreserves m = Run P P m

  pub bind-StepPreserves {ℓ κ} :
      {A : Type ℓ} {B : Type κ} (m : Action Hub A) (f : A → Action Hub B)
      → StepPreserves m
      → ((a : A) → StepPreserves (f a))
      → StepPreserves (m >>= f)
  bind-StepPreserves m f first next = Run-bind P P P m f (λ h k. k) first next

  pub if_not_found-StepPreserves {ℓ} :
      {A : Type ℓ} (e : Error) (m : Action Hub A)
      → StepPreserves m
      → StepPreserves (if_not_found e m)
  unfolding if_not_found
  if_not_found-StepPreserves {A} e m keeps h k = go (m h) (keeps h k)
    where
      go :
          (r : Result A × Hub)
          → P r.1
          → P
              (elim r.0 as (λ x. Result A × Hub) [
                | ok a ↦ (ok a, r.1)
                | err d ↦ (err (unless_not_found e d), r.1)
              ]).1
      go (ok a, h') q = q
      go (err d, h') q = q

module _ {P : Hub → Type 0} (st : Stable P) where
  pub on_store-StepPreserves {ℓ} :
      {A : Type ℓ} (m : Action Store A) → KeepsIds m → StepPreserves P (on_store m)
  unfolding on_store
  on_store-StepPreserves m keeps h k = st.stored h (m h.store).1 (keeps h.store) k

  pub save-StepPreserves : (g : Game) (player_id : ℕ) → StepPreserves P (save g player_id)
  unfolding save
  save-StepPreserves g player_id h k =
      bind-StepPreserves P _ _ (on_store-StepPreserves _ (save_game-KeepsIds _ player_id h.now))
        (λ _ h k. k) h k
