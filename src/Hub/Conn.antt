-- ===== src/Hub/Conn.antt =====
-- internal/hub/conn.go and the payload types of the hub: a connection's outbound queue and its
-- close request. `closeOnce` and the channel `closing` are one field: `none` until the first close.

use Prim.Native.String.{String}
use rps_backend.Prelude.{
  Bool, List, Option, [], false, if◌then◌else◌, length, ltb, none, some, true, ℕ, ◌++◌, ◌∷◌,
}
use rps_backend.Rules.Defs.{GameState, Move, Seat, Status, code}
use rps_backend.Store.Defs.{Text}

-- The client actions of internal/hub/actions.go.
pub data ClientAction : Type 0 where
  action_authenticate action_connect action_move action_rematch : ClientAction
  action_rematch_decline action_leave : ClientAction

-- The payload of `game::state`: internal/hub/snapshot.go. A null move is `none`.
pub record PlayerView : Type 0 where
  pub player_id : ℕ
  pub display_name : Text
  pub connected : Bool
  pub locked_in : Bool
  pub shown_move : Option Move
  pub wins : ℕ

pub record Snapshot : Type 0 where
  pub game_id : ℕ
  pub status : Status
  pub game_state : GameState
  pub you : Seat
  pub host_view : Option PlayerView
  pub guest_view : Option PlayerView
  pub draws : ℕ

pub data ClosedReason : Type 0 where
  left player_expired : ClosedReason

-- A server message's type, with its payload.
pub data Body : Type 0 where
  authenticate_ok : (player_id : ℕ) → (display_name : Text) → Body
  connect_ok : Snapshot → Body
  move_ok rematch_ok rematch_decline_ok leave_ok : Body
  error_reply : (code : String) → (message : String) → Body
  game_state_event : Snapshot → Body
  opponent_connected opponent_disconnected : Seat → Body
  rematch_requested rematch_declined : Seat → Body
  game_closed_event : ClosedReason → Seat → Body
  connection_replaced : Body

-- The text of the field `type`.
abbrev pub type_text : Body → String
type_text (authenticate_ok _ _) = "player::authenticate::ok"
type_text (connect_ok _) = "game::connect::ok"
type_text move_ok = "game::move::ok"
type_text rematch_ok = "game::rematch::ok"
type_text rematch_decline_ok = "game::rematch_decline::ok"
type_text leave_ok = "game::leave::ok"
type_text (error_reply _ _) = "error"
type_text (game_state_event _) = "game::state"
type_text (opponent_connected _) = "game::opponent_connected"
type_text (opponent_disconnected _) = "game::opponent_disconnected"
type_text (rematch_requested _) = "game::rematch_requested"
type_text (rematch_declined _) = "game::rematch_declined"
type_text (game_closed_event _ _) = "game::closed"
type_text connection_replaced = "connection::replaced"

pub record Message : Type 0 where
  pub request_id : Text
  pub body : Body

abbrev pub close_normal : ℕ
close_normal = 1000

abbrev pub close_replaced : ℕ
close_replaced = 4000

abbrev pub close_auth_timeout : ℕ
close_auth_timeout = 4001

abbrev pub close_player_expired : ℕ
close_player_expired = 4002

abbrev pub close_game_expired : ℕ
close_game_expired = 4003

abbrev pub close_slow_consumer : ℕ
close_slow_consumer = 4004

abbrev pub send_buffer : ℕ
send_buffer = 32

-- The fields `gameID` and `seat` are always set and cleared together.
pub record Attachment : Type 0 where
  pub game_id : ℕ
  pub seat : Seat

-- `taken` is not in the code: what the transport has taken off the queue.
pub record Conn : Type 0 where
  pub out : List Message
  pub taken : List Message
  pub closing : Option ℕ
  pub player_id : ℕ
  pub attached : Option Attachment

abbrev pub new_conn : Conn
new_conn = record { out = []; taken = []; closing = none; player_id = 0; attached = none }

-- `c.gameID`
abbrev pub attachment_id : Option Attachment → ℕ
attachment_id none = 0
attachment_id (some a) = a.game_id

abbrev pub some_code : Option ℕ → Bool
some_code none = false
some_code (some _) = true

unfoldable pub is_closing : Conn → Bool
is_closing c = some_code c.closing

-- `Close`: the first call wins.
unfoldable pub close_conn : ℕ → Conn → Conn
unfolding is_closing
close_conn code c = if is_closing c then c else record c { closing = some code }

-- The second half of `send`, once the message is marshalled.
abbrev pub enqueue : Message → Conn → Conn
enqueue msg c =
    if ltb (length c.out) send_buffer
    then record c { out = c.out ++ msg ∷ [] }
    else close_conn close_slow_consumer c

-- `send` where nothing comes between its test of `closing` and the queue. Where a close request does, the
-- message lands later, by `enqueue` alone.
unfoldable pub send : Message → Conn → Conn
unfolding is_closing close_conn
send msg c = if is_closing c then c else enqueue msg c

-- What a handler's caller sees of a connection: a message that the transport took off the queue.
unfoldable pub take_message : Conn → Option Message × Conn
take_message c = elim c.out [
  | [] ↦ (none, c)
  | m ∷ rest ↦ (some m, record c { out = rest; taken = c.taken ++ m ∷ [] })
]
