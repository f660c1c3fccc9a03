-- ===== src/Server/Tests.antt =====
-- A day of the server on a hub with two players in one game, and the theorems there.
use rps_backend.Api.Defs.{get_health, ping}
use rps_backend.Errors.{if_not_found, ◌>>=◌}
use rps_backend.Hub.Actions.{move}
use rps_backend.Hub.Conn.{is_closing, send}
use rps_backend.Hub.Defs.{Hub, broadcast_state, each, on_store, register, seat_name, view}
use rps_backend.Hub.Dispatch.{action_of, handle, handle_found, run_action}
use rps_backend.Hub.Operations.{HubOp, op_acts, op_arrives, op_checks_health, run_op}
use rps_backend.Hub.Support.{Waits, decode, save, with_game}
use rps_backend.Hub.Tests.{plain, playing, table}
use rps_backend.Prelude.{true, [], arith, refl, some, ◌∷◌, ◌≡◌}
use rps_backend.Rules.Defs.{
  complete, guest_won, new_state, paper, parse_move, place, play_move, resolve, rock, settle,
}
use rps_backend.Server.Descent.{Descends, History-Descends, OtherId}
use rps_backend.Server.History.{History, acting, at_once, begins, look, no_wait, then_look, then_op}
use rps_backend.Server.Sound.{AnyOp, History-Sound, IsSound, Sound}
use rps_backend.Store.Defs.{
  Game, find_game, find_player, get_game, get_player, player_id_of, statement, touch_player,
  touch_rows,
}
use rps_backend.Store.Tx.{in_tx, save_game, tx, update_game, update_rows}

-- While the move waits for the lock of the game, a health check asks the database, and somebody looks at
-- the games.
abbrev checked_on : Waits
checked_on = record { leaving = []; entering = λ h. look (run_op op_checks_health h) }

abbrev moves : HubOp
moves = op_acts plain checked_on "game::move" 1 [] (b'{' ∷ [])

abbrev short_day : Hub → Hub
short_day h = run_op moves (run_op op_arrives h)

module _ (Fits : HubOp → Type 0) (arrival : Fits op_arrives) (check : Fits op_checks_health)
    (throw : Fits moves) where
  short_day-History : History Fits true short_day
  short_day-History =
      let arrived = then_op (λ h. h) op_arrives begins (at_once op_arrives refl) arrival in
      let checked =
        then_op (λ h. h) op_checks_health begins (at_once op_checks_health refl) check in
      then_op (run_op op_arrives) moves arrived
        (acting plain checked_on "game::move" 1 [] (b'{' ∷ []) no_wait
          (then_look (run_op op_checks_health) refl checked))
        throw

playing-IsSound : IsSound playing
playing-IsSound = record {
  state_valid = ground arith;
  waits_alone = λ e. cc;
  seats_differ = λ e. absurd (omega arith);
}

History-Sound_example : Sound (short_day table).store.games
History-Sound_example =
    History-Sound short_day (short_day-History AnyOp tt tt tt) table (playing-IsSound, tt)

-- The host's rock meets the guest's paper.
abbrev finished : Game
finished = record playing {
  state = record new_state {
    status = complete;
    game_state = guest_won;
    host_move = rock;
    guest_move = paper;
    guest_wins = 1;
  };
  last_active_at = 30;
}

-- The games have just been seen.
abbrev watched_table : Hub
watched_table = look table

playing_seen : find_game 7 (short_day watched_table).seen ≡ some playing
unfolding run_op register get_health ping handle action_of handle_found is_closing run_action move
    decode with_game save play_move parse_move place settle resolve on_store get_game statement
    find_game if_not_found save_game tx in_tx update_game touch_player ◌>>=◌ broadcast_state view
    seat_name get_player find_player each player_id_of touch_rows send update_rows
playing_seen = refl

finished_there : find_game 7 (short_day watched_table).store.games ≡ some finished
unfolding run_op register get_health ping handle action_of handle_found is_closing run_action move
    decode with_game save play_move parse_move place settle resolve on_store get_game statement
    find_game if_not_found save_game tx in_tx update_game touch_player ◌>>=◌ broadcast_state view
    seat_name get_player find_player each player_id_of touch_rows send update_rows
finished_there = refl

History-Descends_example : Descends playing finished
History-Descends_example =
    History-Descends 7 short_day (short_day-History (OtherId 7) tt tt tt) watched_table refl playing
      finished playing_seen finished_there
