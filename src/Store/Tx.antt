-- ===== src/Store/Tx.antt =====
-- internal/store/store.go: the write transactions (`Tx`, `UpdateGame`, `SaveGame`, `CreateGame`).
use rps_backend.Errors.{Action, Result, err, failure, not_found, ok, pure, ◌>>=◌, ◌>>◌}
use rps_backend.Prelude.{
  Bool, List, Option, [], false, if◌then◌else◌, nat_eq, none, not, refl, some, true, ℕ, ◌&&◌, ◌++◌,
  ◌==◌, ◌||◌, ◌∷◌, ◌≡◌,
}
use rps_backend.Rules.Defs.{move_eq, new_state, seat_eq, status_eq}
use rps_backend.Store.Defs.{
  Game, Player, Store, Text, find_game, find_player, statement, text_eq, touch_player,
}

-- What the tables held at BEGIN.
abbrev pub rollback : Store → Store → Store
rollback s t = record s { faults = t.faults }

-- A COMMIT that fails keeps nothing.
commit_on {ℓ} : {A : Type ℓ} → List Bool → Store → A → Action Store A
commit_on [] s a t = (ok a, t)
commit_on (true ∷ rest) s a t = (err failure, record s { faults = rest })
commit_on (false ∷ rest) s a t = (ok a, record t { faults = rest })

-- COMMIT or ROLLBACK, by what the body returned.
finish {ℓ} : {A : Type ℓ} → Store → Result A × Store → Result A × Store
unfolding commit_on
finish s (ok a, t) = commit_on t.faults s a t
finish s (err e, t) = (err e, rollback s t)

unfoldable pub in_tx {ℓ} : {A : Type ℓ} → Action Store A → Action Store A
unfolding finish
in_tx fn s = finish s (fn s)

-- `BeginTx`, then the body.
unfoldable pub tx {ℓ} : {A : Type ℓ} → Action Store A → Action Store A
tx fn = statement (in_tx fn)

-- The text of an id that is not NULL refers to a row.
unfoldable pub is_player : ℕ → List Player → Bool
is_player i ps = elim (find_player i ps) [ none ↦ false | some _ ↦ true ]

-- A foreign key refers to a row, or is NULL.
unfoldable pub refers : ℕ → List Player → Bool
unfolding is_player
refers i ps = i == 0 || is_player i ps

-- The columns that `UpdateGame` writes: all but the id and the secret's hash.
abbrev pub write_row : Game → Game → Game
write_row g row = record g { id = row.id; secret_hash = row.secret_hash }

unfoldable pub update_rows : Game → List Game → List Game
update_rows g [] = []
update_rows g (r ∷ rs) = (if r.id == g.id then write_row g r else r) ∷ update_rows g rs

abbrev update_found : Game → Store → Option Game → Result (Unit {0}) × Store
update_found g s none = (err not_found, s)
update_found g s (some _) =
    if refers g.host_player_id s.players && refers g.guest_player_id s.players
    then (ok tt, record s { games = update_rows g s.games })
    else (err failure, s)

unfoldable pub update_game : Game → Action Store (Unit {0})
unfolding refers
update_game g = statement λ s. update_found g s (find_game g.id s.games)

unfoldable pub save_game : Game → ℕ → ℕ → Action Store (Unit {0})
save_game g player_id now =
    tx do update_game g; if player_id == 0 then pure tt else touch_player player_id now

-- INSERT of a game; the columns that it does not name take their defaults.
unfoldable pub insert_game : Game → Action Store (Unit {0})
insert_game g = statement λ s.
    if not (is_player g.host_player_id s.players)
    then (err failure, s)
    else elim (find_game g.id s.games) [
      | none ↦ (ok tt, record s { games = s.games ++ g ∷ [] })
      | some _ ↦ (err failure, s)
    ]

-- `uuid` is the id that `uuid.NewString` returned.
unfoldable pub create_game : ℕ → ℕ → Text → ℕ → Action Store Game
create_game uuid host_id secret_hash now =
    let g : Game = record {
      id = uuid;
      secret_hash = secret_hash;
      host_player_id = host_id;
      guest_player_id = 0;
      state = new_state;
      last_active_at = now;
    } in
    tx do insert_game g; touch_player host_id now; pure g

-- How a transaction on `s` ended: with a result that `Q` describes, by the tables that it leaves, or
-- with an error and the tables as they were.
abbrev pub Ends {ℓ} :
    {A : Type ℓ} → (A → List Player → List Game → Type 0) → Store → Result A × Store → Type 0
Ends Q s (ok a, t) = Q a t.players t.games
Ends Q s (err _, t) = (t.players ≡ s.players) × (t.games ≡ s.games)

-- What the body of a transaction has to give for that.
abbrev pub Yields {ℓ} :
    {A : Type ℓ} → (A → List Player → List Game → Type 0) → Result A × Store → Type 0
Yields Q (ok a, t) = Q a t.players t.games
Yields Q (err _, t) = Unit {0}

module _ {ℓ} {A : Type ℓ} (Q : A → List Player → List Game → Type 0) (s : Store) where
  commit_on-Ends :
      (fs : List Bool) (a : A) (t : Store) → Q a t.players t.games → Ends Q s (commit_on fs s a t)
  unfolding commit_on
  commit_on-Ends [] a t q = q
  commit_on-Ends (true ∷ fs) a t q = (refl, refl)
  commit_on-Ends (false ∷ fs) a t q = q

  finish-Ends : (r : Result A × Store) → Yields Q r → Ends Q s (finish s r)
  unfolding finish
  finish-Ends (ok a, t) q = commit_on-Ends t.faults a t q
  finish-Ends (err e, t) q = (refl, refl)

pub in_tx-Ends {ℓ} :
    {A : Type ℓ} (Q : A → List Player → List Game → Type 0) (s : Store) (fn : Action Store A)
    (fs : List Bool)
    → Yields Q (fn (record s { faults = fs }))
    → Ends Q s (in_tx fn (record s { faults = fs }))
unfolding in_tx
in_tx-Ends Q s fn fs q = finish-Ends Q (record s { faults = fs }) (fn (record s { faults = fs })) q

-- A body of two parts.
pub Yields-bind {ℓ κ} :
    {A : Type ℓ} {B : Type κ} (Q : A → List Player → List Game → Type 0)
    (R : B → List Player → List Game → Type 0) (m : Action Store A) (k : A → Action Store B)
    → ((a : A) (t : Store) → Q a t.players t.games → Yields R (k a t))
    → (s : Store) → Yields Q (m s)
    → Yields R ((m >>= k) s)
unfolding ◌>>=◌
Yields-bind {A} {B} Q R m k next s q = go (m s) q
  where
    go :
        (r : Result A × Store)
        → Yields Q r
        → Yields R (elim r.0 as (λ _. Result B × Store) [ ok a ↦ k a r.1 | err e ↦ (err e, r.1) ])
    go (ok a, t) q = next a t q
    go (err e, t) q = tt
