-- ===== src/Store/Ids.antt =====
-- No row of the table of games has the empty id, and the statements that the hub runs keep it so.
use rps_backend.Errors.{Action, Result, err, ok}
use rps_backend.Prelude.{List, [], arith, none, refl, ℕ, ◌∷◌, ◌≡◌}
use rps_backend.Store.Defs.{
  Game, Store, delete_game, delete_game_row, delete_player, find_game, get_game, get_player,
  set_null, statement, statement_cases, touch_player,
}
use rps_backend.Store.Save.{Saved, save_game-Ends}
use rps_backend.Store.Tx.{Ends, save_game, update_rows}

abbrev pub NoEmptyId : Store → Type 0
NoEmptyId s = find_game 0 s.games ≡ none

-- A store method that keeps it, also where it fails.
abbrev pub KeepsIds {ℓ} : {A : Type ℓ} → Action Store A → Type 0
KeepsIds m = (s : Store) → NoEmptyId s → NoEmptyId (m s).1

statement-KeepsIds {ℓ} : {A : Type ℓ} (m : Action Store A) → KeepsIds m → KeepsIds (statement m)
statement-KeepsIds m keeps s k =
    statement_cases (λ r. NoEmptyId r.1) m s (λ fs. k) (λ fs. keeps (record s { faults = fs }) k)

pub get_player-KeepsIds : (i : ℕ) → KeepsIds (get_player i)
unfolding get_player
get_player-KeepsIds i = statement-KeepsIds _ (λ s k. k)

pub get_game-KeepsIds : (i : ℕ) → KeepsIds (get_game i)
unfolding get_game
get_game-KeepsIds i = statement-KeepsIds _ (λ s k. k)

pub touch_player-KeepsIds : (i now : ℕ) → KeepsIds (touch_player i now)
unfolding touch_player
touch_player-KeepsIds i now = statement-KeepsIds _ (λ s k. k)

update_rows-none :
    (g : Game) (i : ℕ) (gs : List Game)
    → find_game i gs ≡ none
    → find_game i (update_rows g gs) ≡ none
unfolding find_game update_rows
update_rows-none g i [] h = refl
update_rows-none g i (r ∷ rs) h = ground (arith, update_rows-none g i rs)

Saved-NoEmptyId :
    (g : Game) (player_id now : ℕ) (s : Store) (r : Result (Unit {0}) × Store)
    → Ends (Saved g player_id now s) s r
    → NoEmptyId s
    → NoEmptyId r.1
Saved-NoEmptyId g player_id now s (ok tt, t) e k = rw e.0 (update_rows-none g 0 s.games k)
Saved-NoEmptyId g player_id now s (err _, t) e k = rw e.1 k

pub save_game-KeepsIds : (g : Game) (player_id now : ℕ) → KeepsIds (save_game g player_id now)
save_game-KeepsIds g player_id now s k =
    Saved-NoEmptyId g player_id now s (save_game g player_id now s)
      (save_game-Ends g player_id now s) k

set_null-none :
    (i j : ℕ) (gs : List Game) → find_game j gs ≡ none → find_game j (set_null i gs) ≡ none
unfolding find_game set_null
set_null-none i j [] h = refl
set_null-none i j (g ∷ gs) h = ground (arith, set_null-none i j gs)

pub delete_player-KeepsIds : (i : ℕ) → KeepsIds (delete_player i)
unfolding delete_player
delete_player-KeepsIds i = statement-KeepsIds _ (λ s k. set_null-none i 0 s.games k)

delete_game_row-none :
    (i j : ℕ) (gs : List Game) → find_game j gs ≡ none → find_game j (delete_game_row i gs) ≡ none
unfolding find_game delete_game_row
delete_game_row-none i j [] h = refl
delete_game_row-none i j (g ∷ gs) h = ground (arith, delete_game_row-none i j gs)

pub delete_game-KeepsIds : (i : ℕ) → KeepsIds (delete_game i)
unfolding delete_game
delete_game-KeepsIds i = statement-KeepsIds _ (λ s k. delete_game_row-none i 0 s.games k)

-- The row is gone.
pub find_game-delete : (i : ℕ) (gs : List Game) → find_game i (delete_game_row i gs) ≡ none
unfolding find_game delete_game_row
find_game-delete i [] = refl
find_game-delete i (g ∷ gs) = ground (arith, find_game-delete i gs)
