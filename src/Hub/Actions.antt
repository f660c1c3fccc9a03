-- ===== src/Hub/Actions.antt =====
-- internal/hub/actions.go: the client actions. Each waits for the lock of a game at most twice; what
-- other goroutines do meanwhile is an argument. Under the lock a handler runs on its own.
use rps_backend.Errors.{
  Action, already_authenticated, if_not_found, invalid_credentials, invalid_game_creds, proto, pure,
  rule, ◌>>=◌, ◌>>◌,
}
use rps_backend.Hub.Conn.{
  attachment_id, authenticate_ok, connect_ok, game_closed_event, leave_ok, left, move_ok,
  rematch_decline_ok, rematch_declined, rematch_ok, rematch_requested,
}
use rps_backend.Hub.Defs.{
  Hub, attach_locked, broadcast_state, close_game_for, detach_locked, is_authenticated, on_store,
  send_opponents, send_to, snapshot_for, view,
}
use rps_backend.Hub.Support.{
  External, Waits, as_invalid_move, checked, checked_move, checked_rematch, claim_player, decode,
  gets, greet, guard, leave_other, lift, replace_old, save, take_seat, update_hub, with_game,
}
use rps_backend.Prelude.{Bool, [], if◌then◌else◌, nat_eq, not, ℕ, ◌==◌}
use rps_backend.Rules.Defs.{
  close, closed, decline_rematch, game_closed, move_eq, parse_move, play_move, rematch, seat_eq,
  status_eq,
}
use rps_backend.Store.Defs.{
  Game, Text, display_name, get_game, get_player, text_beq, text_eq, touch_player,
}

module _ (x : External) where
  abbrev pub verify_secret : Text → Text → Bool
  verify_secret plain hash = text_beq (x.hash_secret plain) hash

  unfoldable pub authenticate : Waits → ℕ → Text → Text → Action Hub (Unit {0})
  authenticate w c request_id raw = do
    p ← lift (decode raw (record { player_id = 0; player_secret = [] }) x.unmarshal_auth)
    busy ← gets (is_authenticated c)
    guard (not busy) (proto already_authenticated)
    player ← if_not_found (proto invalid_credentials) (on_store (get_player p.player_id))
    guard (verify_secret p.player_secret player.secret_hash) (proto invalid_credentials)
    now ← gets (λ h. h.now)
    on_store (touch_player player.id now)
    old ← gets (λ h. h.players player.id)
    update_hub (claim_player player.id c)
    update_hub (send_to c request_id (authenticate_ok player.id (display_name player)))
    update_hub (replace_old w.leaving old c)

  unfoldable pub load_game_with_secret : ℕ → Text → Action Hub Game
  load_game_with_secret id secret = do
    g ← if_not_found (proto invalid_game_creds) (on_store (get_game id))
    guard (verify_secret secret g.secret_hash) (proto invalid_game_creds)
    pure g

  unfoldable pub connect : Waits → ℕ → Text → Text → Action Hub (Unit {0})
  connect w c request_id raw = do
    p ← lift (decode raw (record { game_id = 0; game_secret = [] }) x.unmarshal_connect)
    seen ← load_game_with_secret p.game_id p.game_secret
    guard (not (seen.state.status == closed)) (rule game_closed)
    player_id ← gets (λ h. (h.conns c).player_id)
    update_hub (leave_other w.leaving c seen.id)
    update_hub w.entering
    loaded ← load_game_with_secret p.game_id p.game_secret
    guard (not (loaded.state.status == closed)) (rule game_closed)
    (seated, seat) ← lift (take_seat loaded player_id)
    g ← save seated player_id
    was_attached ← gets (λ h. attachment_id (h.conns c).attached == g.id)
    update_hub (attach_locked c g.id seat)
    v ← view g
    update_hub (send_to c request_id (connect_ok (snapshot_for v seat)))
    update_hub (λ h. if was_attached then h else greet v c seat h)

  unfoldable pub move : Waits → ℕ → Text → Text → Action Hub (Unit {0})
  move w c request_id raw = do
    p ← lift (as_invalid_move (decode raw (record { move_name = "" }) x.unmarshal_move))
    m ← lift (checked_move (parse_move p.move_name))
    (g, a, player_id) ← with_game w.entering c
    s ← lift (checked (play_move g.state a.seat m))
    saved ← save (record g { state = s }) player_id
    update_hub (send_to c request_id move_ok)
    update_hub (broadcast_state saved)

unfoldable pub rematch_action : Waits → ℕ → Text → Action Hub (Unit {0})
rematch_action w c request_id = do
  (g, a, player_id) ← with_game w.entering c
  (s, accepted) ← lift (checked_rematch (rematch g.state a.seat))
  saved ← save (record g { state = s }) player_id
  update_hub (send_to c request_id rematch_ok)
  update_hub (λ h. if accepted then h else send_opponents c saved.id (rematch_requested a.seat) h)
  update_hub (broadcast_state saved)

unfoldable pub rematch_decline : Waits → ℕ → Text → Action Hub (Unit {0})
rematch_decline w c request_id = do
  (g, a, player_id) ← with_game w.entering c
  s ← lift (checked (decline_rematch g.state a.seat))
  saved ← save (record g { state = s }) player_id
  update_hub (send_to c request_id rematch_decline_ok)
  update_hub (send_opponents c saved.id (rematch_declined a.seat))
  update_hub (broadcast_state saved)

unfoldable pub leave : Waits → ℕ → Text → Action Hub (Unit {0})
leave w c request_id = do
  (g, a, player_id) ← with_game w.entering c
  s ← lift (checked (close g.state))
  saved ← save (record g { state = s }) player_id
  update_hub (detach_locked c)
  update_hub (send_to c request_id leave_ok)
  update_hub (close_game_for saved (game_closed_event left a.seat))
