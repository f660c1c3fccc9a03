-- ===== src/Hub/Dispatch.antt =====
-- internal/hub/actions.go: `Handle`, which finds the action, checks what it requires, runs it and
-- replies to an error.
use Prim.Native.String.{String}
use text.Mathlib.Text.{◌==◌ as str_beq}
use rps_backend.Errors.{
  Action, Error, ProtoError, Result, already_authenticated, bad_payload, err, game_full,
  invalid_credentials, invalid_game_creds, not_authenticated, not_in_game, ok, proto, rule,
}
use rps_backend.Hub.Actions.{authenticate, connect, leave, move, rematch_action, rematch_decline}
use rps_backend.Hub.Conn.{
  Body, ClientAction, action_authenticate, action_connect, action_leave, action_move,
  action_rematch, action_rematch_decline, attachment_id, error_reply, is_closing,
}
use rps_backend.Hub.Defs.{Hub, send_to}
use rps_backend.Hub.Support.{External, Waits}
use rps_backend.Prelude.{
  Bool, Option, false, if◌then◌else◌, nat_eq, none, some, true, ℕ, ◌&&◌, ◌==◌,
}
use rps_backend.Rules.Defs.{code, message, move_eq, seat_eq, status_eq}
use rps_backend.Store.Defs.{Text, text_eq}

-- A lookup in the map `handlers`.
unfoldable pub action_of : String → Option ClientAction
action_of s =
    if str_beq s "player::authenticate"
    then some action_authenticate
    else if str_beq s "game::connect"
    then some action_connect
    else if str_beq s "game::move"
    then some action_move
    else if str_beq s "game::rematch"
    then some action_rematch
    else if str_beq s "game::rematch_decline"
    then some action_rematch_decline
    else if str_beq s "game::leave"
    then some action_leave
    else none

unfoldable pub known_action : String → Bool
known_action s = elim (action_of s) [ none ↦ false | some _ ↦ true ]

abbrev pub needs_player : ClientAction → Bool
needs_player action_authenticate = false
needs_player _ = true

abbrev pub needs_game : ClientAction → Bool
needs_game action_authenticate = false
needs_game action_connect = false
needs_game _ = true

abbrev pub proto_code : ProtoError → String
proto_code bad_payload = "bad_request"
proto_code not_authenticated = "not_authenticated"
proto_code already_authenticated = "already_authenticated"
proto_code invalid_credentials = "invalid_credentials"
proto_code invalid_game_creds = "invalid_game_credentials"
proto_code game_full = "game_full"
proto_code not_in_game = "not_in_game"

abbrev pub proto_message : ProtoError → String
proto_message bad_payload = "malformed payload"
proto_message not_authenticated = "authenticate first"
proto_message already_authenticated = "connection is already authenticated"
proto_message invalid_credentials = "invalid player credentials"
proto_message invalid_game_creds = "invalid game credentials"
proto_message game_full = "game already has two players"
proto_message not_in_game = "connection is not attached to a game"

unfoldable pub error_body : Error → Body
error_body (rule e) = error_reply (code e) (message e)
error_body (proto e) = error_reply (proto_code e) (proto_message e)
error_body _ = error_reply "internal" "internal error"

abbrev pub reply_err : ℕ → Text → Error → Hub → Hub
reply_err c request_id e = send_to c request_id (error_body e)

abbrev pub reply_result : ℕ → Text → Result (Unit {0}) × Hub → Hub
reply_result c request_id (ok _, h) = h
reply_result c request_id (err e, h) = reply_err c request_id e h

module _ (x : External) where
  unfoldable pub run_action : ClientAction → Waits → ℕ → Text → Text → Action Hub (Unit {0})
  run_action action_authenticate w c request_id raw = authenticate x w c request_id raw
  run_action action_connect w c request_id raw = connect x w c request_id raw
  run_action action_move w c request_id raw = move x w c request_id raw
  run_action action_rematch w c request_id raw = rematch_action w c request_id
  run_action action_rematch_decline w c request_id raw = rematch_decline w c request_id
  run_action action_leave w c request_id raw = leave w c request_id

  -- What follows the lookup of the action.
  unfoldable pub handle_found : Option ClientAction → Waits → ℕ → Text → Text → Hub → Hub
  handle_found none w c request_id raw h =
      send_to c request_id (error_reply "unknown_action" "unknown action") h
  handle_found (some action) w c request_id raw h =
      if needs_player action && (h.conns c).player_id == 0
      then reply_err c request_id (proto not_authenticated) h
      else if needs_game action && attachment_id (h.conns c).attached == 0
      then reply_err c request_id (proto not_in_game) h
      else reply_result c request_id (run_action action w c request_id raw h)

  unfoldable pub handle : String → Waits → ℕ → Text → Text → Hub → Hub
  handle name w c request_id raw h =
      if is_closing (h.conns c) then h else handle_found (action_of name) w c request_id raw h
