-- ===== src/Store/Tests.antt =====
-- Statements of internal/store on small tables, and the theorems there.
use rps_backend.Errors.{ok, ◌>>=◌}
use rps_backend.Prelude.{
  [], arith, false, if◌then◌else◌, nat_eq, none, refl, some, true, ℕ, ◌==◌, ◌∷◌, ◌≡◌, ◌≢◌,
}
use rps_backend.Rules.Defs.{closed, move_eq, new_state, seat_eq, status_eq}
use rps_backend.Store.Create.{Created, create_player-Created}
use rps_backend.Store.Defs.{
  Game, Player, Store, delete_player, display_name, find_game, find_player, set_null, statement,
  text_eq, touch_player,
}
use rps_backend.Store.Free.{Answers, UniqueNames, free_discriminator-Answers}
use rps_backend.Config.Defs.{codes}
use rps_backend.Store.Open.{File, data_source, open_store, query_escape}
use rps_backend.Store.Opened.{Opens, open_store-Opens}
use rps_backend.Store.Players.{
  claim_random, create_player, free_discriminator, insert_player, insert_sorted, name_taken,
  or_retry, scan, taken,
}
use rps_backend.Store.Save.{Saved, get_game-save_game, save_game-Ends}
use rps_backend.Store.Tx.{Ends, in_tx, save_game, tx, update_game}

abbrev pub alice : Player
alice = record {
  id = 1;
  base_name = b'a' ∷ [];
  discriminator = 0;
  secret_hash = b's' ∷ [];
  last_active_at = 5;
}

abbrev pub bob : Player
bob = record alice { id = 2; discriminator = 2; last_active_at = 9 }

abbrev pub match : Game
match = record {
  id = 7;
  secret_hash = b'k' ∷ [];
  host_player_id = 1;
  guest_player_id = 2;
  state = new_state;
  last_active_at = 9;
}

abbrev pub small : Store
small = record { players = bob ∷ alice ∷ []; games = match ∷ []; faults = [] }

display_name-bob : display_name bob ≡ b'a' ∷ b'#' ∷ b'0' ∷ b'0' ∷ b'0' ∷ b'2' ∷ []
unfolding display_name
display_name-bob = refl

free_discriminator-small : free_discriminator (b'a' ∷ []) small ≡ (ok 1, small)
unfolding free_discriminator statement taken insert_sorted scan
free_discriminator-small = refl

-- The second draw hits a free discriminator.
create_player-small :
    (create_player 3 (λ n. if n == 19 then 2 else 4) [] (b'a' ∷ []) [] 10 small).0
    ≡ ok (record alice { id = 3; discriminator = 4; secret_hash = []; last_active_at = 10 })
unfolding create_player claim_random insert_player or_retry statement find_player name_taken
create_player-small = refl

delete_player-small : (delete_player 1 small).1.games ≡ record match { host_player_id = 0 } ∷ []
unfolding delete_player statement set_null
delete_player-small = refl

-- The third statement of the transaction fails, and nothing is written.
save_game-fails :
    (save_game match 1 20 (record small { faults = false ∷ false ∷ true ∷ [] })).1 ≡ small
unfolding save_game tx in_tx update_game touch_player statement find_game find_player ◌>>=◌
save_game-fails = refl

small-UniqueNames : UniqueNames small.players
unfolding name_taken
small-UniqueNames = (refl, (refl, tt))

free_discriminator-Answers_example :
    Answers (b'a' ∷ []) small.players (free_discriminator (b'a' ∷ []) small).0
free_discriminator-Answers_example =
    free_discriminator-Answers (b'a' ∷ []) small small-UniqueNames refl

one_free : name_taken (b'a' ∷ []) 1 small.players ≡ false
unfolding name_taken
one_free = refl

three_new : find_player 3 small.players ≡ none
unfolding find_player
three_new = refl

create_player-Created_example :
    Created small
      (record alice { id = 3; secret_hash = []; last_active_at = 10 })
      (create_player 3 (λ n. 2) [] (b'a' ∷ []) [] 10 small)
create_player-Created_example =
    create_player-Created small 3 (λ n. 2) (b'a' ∷ []) [] 10 1 refl three_new small-UniqueNames
      (λ n. omega arith) (omega arith) one_free

save_game-Ends_example : Ends (Saved match 1 20 small) small (save_game match 1 20 small)
save_game-Ends_example = save_game-Ends match 1 20 small

abbrev finished : Game
finished = record match { state = record new_state { status = closed }; secret_hash = [] }

save_game-finished : save_game finished 1 20 small ≡ (ok tt, (save_game finished 1 20 small).1)
unfolding save_game tx in_tx update_game touch_player statement find_game find_player ◌>>=◌
save_game-finished = refl

get_game-save_game_example :
    ((row : Game) × (find_game 7 small.games ≡ some row)
      × (find_game 7 (save_game finished 1 20 small).1.games
          ≡ some (record finished { secret_hash = row.secret_hash })))
    × ((i : ℕ)
        → i ≢ 7
        → find_game i (save_game finished 1 20 small).1.games ≡ find_game i small.games)
get_game-save_game_example =
    get_game-save_game finished 1 20 small (save_game finished 1 20 small).1 save_game-finished

-- A file without tables.
abbrev new_file : File
new_file = record { players = none; games = none; handles = 0 }

data_source-path :
    data_source (codes "/data/rps.db")
    ≡ codes
        "file:/data/rps.db?_busy_timeout=5000&_foreign_keys=on&_journal_mode=WAL&_txlock=immediate"
unfolding data_source
data_source-path = refl

query_escape-path : query_escape (codes "a b/c") ≡ codes "a+b%2Fc"
unfolding query_escape
query_escape-path = refl

-- The second table cannot be created.
open_store-Opens_example :
    Opens
      (λ name. true)
      (false ∷ true ∷ [])
      (codes "rps.db")
      new_file
      (open_store (λ name. true) (false ∷ true ∷ []) (codes "rps.db") new_file)
open_store-Opens_example =
    open_store-Opens (λ name. true) (false ∷ true ∷ []) (codes "rps.db") new_file
