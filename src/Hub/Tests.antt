-- ===== src/Hub/Tests.antt =====
-- A hub with two players in one game: runs of the handlers, and the theorems there.
use rps_backend.Errors.{if_not_found, ◌>>=◌}
use rps_backend.Hub.Actions.{move}
use rps_backend.Hub.Attach.{Coherent}
use rps_backend.Hub.Conn.{Conn, error_reply, is_closing, new_conn, send}
use rps_backend.Hub.Connect.{Fair}
use rps_backend.Hub.Defs.{
  GameView, Hub, broadcast_state, each, on_store, seat_name, snapshot_for, view,
}
use rps_backend.Hub.Dispatch.{action_of, error_body, handle, handle_found, run_action}
use rps_backend.Hub.Handle.{handle-Coherent}
use rps_backend.Hub.Secrecy.{snapshot_for_secret, view_with}
use rps_backend.Hub.Support.{External, Waits, decode, save, with_game}
use rps_backend.Prelude.{
  [], arith, if◌then◌else◌, inr, map, nat_eq, none, refl, some, true, ◌==◌, ◌∷◌, ◌≡◌,
}
use rps_backend.Rules.Defs.{
  active, guest, guest_won, host, move_eq, move_of, new_state, other, paper, parse_move, place,
  play_move, resolve, rock, seat_eq, settle, status_eq,
}
use rps_backend.Rules.Round.{is_paper, is_rock}
use rps_backend.Store.Defs.{
  Game, find_game, find_player, get_game, get_player, player_id_of, statement, text_eq,
  touch_player, touch_rows,
}
use rps_backend.Store.Tests.{match, small}
use rps_backend.Store.Tx.{in_tx, save_game, tx, update_game, update_rows}

abbrev host_conn : Conn
host_conn = record new_conn { player_id = 1; attached = some (record { game_id = 7; seat = host }) }

abbrev guest_conn : Conn
guest_conn = record new_conn {
  player_id = 2;
  attached = some (record { game_id = 7; seat = guest });
}

abbrev pub playing : Game
playing = record match { state = record new_state { status = active; guest_move = paper } }

abbrev pub table : Hub
table = record {
  store = record small { games = playing ∷ [] };
  now = 30;
  conns = λ c. if c == 1 then host_conn else if c == 2 then guest_conn else new_conn;
  seen = [];
  live = 1 ∷ 2 ∷ 3 ∷ [];
  next = 4;
  players = λ i. if i == 1 then some 1 else if i == 2 then some 2 else none;
  games = λ g. if g == 7 then 1 ∷ 2 ∷ [] else [];
}

abbrev pub plain : External
plain = record {
  hash_secret = λ t. t;
  unmarshal_auth = λ raw. some (record { player_id = 1; player_secret = b's' ∷ [] });
  unmarshal_connect = λ raw. some (record { game_id = 7; game_secret = b'k' ∷ [] });
  unmarshal_move = λ raw. some (record { move_name = "ROCK" });
}

abbrev pub alone : Waits
alone = record { leaving = []; entering = λ h. h }

abbrev after_move : Hub
after_move = handle plain "game::move" alone 1 [] (b'{' ∷ []) table

-- The move ends the round, both players are told, and the host's reply comes first.
status_after_move : map (λ (g : Game). g.state.game_state) after_move.store.games ≡ guest_won ∷ []
unfolding handle action_of handle_found is_closing run_action move decode with_game save play_move
    parse_move place settle resolve on_store get_game statement find_game if_not_found save_game tx
    in_tx update_game touch_player ◌>>=◌ broadcast_state view seat_name get_player find_player each
    player_id_of touch_rows send update_rows
status_after_move = refl

-- A connection that has not authenticated is refused.
not_authenticated_reply :
    ((handle plain "game::leave" alone 3 [] [] table).conns 3).out
    ≡ record { request_id = []; body = error_reply "not_authenticated" "authenticate first" } ∷ []
unfolding handle action_of handle_found is_closing send error_body
not_authenticated_reply = refl

pub table-Coherent : Coherent table
unfolding find_game
table-Coherent = record {
  agree = λ c g. ground arith;
  proper = λ c. ground arith;
  no_empty_id = refl;
}

alone-Fair : Fair 3 alone
alone-Fair = record {
  leaving_keeps = tt;
  entering_keeps = λ h k. k;
  entering_attaches_not = λ h. inr refl;
}

handle-Coherent_example : Coherent (handle plain "game::connect" alone 3 [] (b'{' ∷ []) table)
handle-Coherent_example =
    handle-Coherent plain 3 alone alone-Fair "game::connect" [] (b'{' ∷ []) table table-Coherent

abbrev seen : GameView
seen = record { g = playing; names = λ seat. some []; online = λ seat. true }

snapshot_for_secret_example : snapshot_for (view_with seen guest rock) host ≡ snapshot_for seen host
unfolding other move_of
snapshot_for_secret_example = snapshot_for_secret seen host rock refl is_paper is_rock
