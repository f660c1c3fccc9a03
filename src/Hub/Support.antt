-- ===== src/Hub/Support.antt =====
-- What the client actions of internal/hub/actions.go share: payloads, the game under its lock, and
-- the steps of `authenticate` and `connect`.
use Prim.Native.String.{String}
use rps_backend.Errors.{
  Action, Error, Result, bad_payload, err, game_full, if_not_found, not_in_game, ok, proto, pure,
  rule, ◌>>=◌, ◌>>◌,
}
use rps_backend.Hub.Conn.{
  Attachment, attachment_id, close_conn, close_replaced, connection_replaced, game_state_event,
  opponent_connected,
}
use rps_backend.Hub.Defs.{GameView, Hub, detach, each, modify_conn, notify, on_store, snapshot_for}
use rps_backend.Prelude.{
  Bool, List, Option, [], if◌then◌else◌, nat_eq, none, not, some, true, update, ℕ, ◌&&◌, ◌==◌, ◌||◌,
  ◌∷◌,
}
use rps_backend.Rules.Defs.{
  Move, RuleError, Seat, State, guest, invalid_move, join, move_eq, other, seat_eq, status_eq,
}
use rps_backend.Store.Defs.{Game, Text, get_game, seat_of, text_eq}
use rps_backend.Store.Tx.{save_game}

pub record AuthPayload : Type 0 where
  pub player_id : ℕ
  pub player_secret : Text

pub record ConnectPayload : Type 0 where
  pub game_id : ℕ
  pub game_secret : Text

pub record MovePayload : Type 0 where
  pub move_name : String

-- What the hub uses of packages outside the repository: SHA-256 in hexadecimal (through
-- `HashSecret`), and `json.Unmarshal` at the three payload types, `none` for an error.
pub record External : Type 0 where
  pub hash_secret : Text → Text
  pub unmarshal_auth : Text → Option AuthPayload
  pub unmarshal_connect : Text → Option ConnectPayload
  pub unmarshal_move : Text → Option MovePayload

-- What other goroutines do to the hub while a handler waits for a lock: on leaving the old game,
-- and on entering the one that it works on.
pub record Waits : Type 0 where
  pub leaving : List (Hub → Hub)
  pub entering : Hub → Hub

abbrev pub null_text : Text
null_text = b'n' ∷ b'u' ∷ b'l' ∷ b'l' ∷ []

abbrev pub or_bad_payload {ℓ} : {A : Type ℓ} → Option A → Result A
or_bad_payload none = err (proto bad_payload)
or_bad_payload (some a) = ok a

-- `decode`: an absent payload leaves the zero value.
unfoldable pub decode {ℓ} : {A : Type ℓ} → Text → A → (Text → Option A) → Result A
decode raw zero_value unmarshal =
    if raw == [] || raw == null_text then ok zero_value else or_bad_payload (unmarshal raw)

abbrev pub lift {ℓ} : {A : Type ℓ} → Result A → Action Hub A
lift r h = (r, h)

abbrev pub update_hub : (Hub → Hub) → Action Hub (Unit {0})
update_hub f h = (ok tt, f h)

abbrev pub guard : Bool → Error → Action Hub (Unit {0})
guard b e h = (if b then ok tt else err e, h)

-- The pair that a rule returns, as a result.
abbrev pub checked : State × Option RuleError → Result State
checked (s, none) = ok s
checked (s, some e) = err (rule e)

abbrev pub checked_rematch : State × Bool × Option RuleError → Result (State × Bool)
checked_rematch (s, accepted, none) = ok (s, accepted)
checked_rematch (s, accepted, some e) = err (rule e)

-- `g` stamped with the current time is written, and `player_id` touched.
unfoldable pub save : Game → ℕ → Action Hub Game
save g player_id h =
    let stamped = record g { last_active_at = h.now } in
    (on_store (save_game stamped player_id h.now) >> pure stamped) h

-- Once the lock is held: the connection must still be attached to the game.
unfoldable pub load_attached : ℕ → ℕ → Option Attachment → Action Hub (Game × Attachment × ℕ)
load_attached c game_id none h = (err (proto not_in_game), h)
load_attached c game_id (some a) h =
    if not (a.game_id == game_id)
    then (err (proto not_in_game), h)
    else (if_not_found (proto not_in_game) (on_store (get_game game_id)) >>= λ g.
          pure (g, a, (h.conns c).player_id))
        h

-- `withGame` up to the call of `fn`: the game of the connection, its seat and its player.
unfoldable pub with_game : (Hub → Hub) → ℕ → Action Hub (Game × Attachment × ℕ)
unfolding load_attached
with_game wait c h =
    let game_id = attachment_id (h.conns c).attached in
    if game_id == 0
    then (err (proto not_in_game), h)
    else load_attached c game_id ((wait h).conns c).attached (wait h)

abbrev pub gets {ℓ} : {A : Type ℓ} → (Hub → A) → Action Hub A
gets f h = (ok (f h), h)

-- `h.players[player.ID] = c`, `c.playerID = player.ID`
unfoldable pub claim_player : ℕ → ℕ → Hub → Hub
claim_player player_id c h = record h {
  players = update h.players player_id (some c);
  conns = update h.conns c (record (h.conns c) { player_id = player_id });
}

unfoldable pub replace_old : List (Hub → Hub) → Option ℕ → ℕ → Hub → Hub
replace_old waits none c h = h
replace_old waits (some o) c h =
    if o == c
    then h
    else detach waits o true
        (modify_conn o (close_conn close_replaced) (notify o connection_replaced h))

-- The seat of `player_id` in the game, which a newcomer takes if the game waits for its guest.
unfoldable pub take_seat : Game → ℕ → Result (Game × Seat)
take_seat g player_id = elim (seat_of g player_id) [
  | some seat ↦ ok (g, seat)
  | none ↦
      if not (g.guest_player_id == 0)
      then err (proto game_full)
      else elim (checked (join g.state)) [
        | ok s ↦ ok (record g { state = s; guest_player_id = player_id }, guest)
        | err e ↦ err e
      ]
]

-- Another game is left first; that game is not closed.
unfoldable pub leave_other : List (Hub → Hub) → ℕ → ℕ → Hub → Hub
leave_other waits c game_id h =
    let current = attachment_id (h.conns c).attached in
    if not (current == 0) && not (current == game_id) then detach waits c true h else h

unfoldable pub greet : GameView → ℕ → Seat → Hub → Hub
greet v c seat h =
    each
      (λ o h.
        if o == c
        then h
        else notify o (game_state_event (snapshot_for v (other seat)))
            (notify o (opponent_connected seat) h))
      (h.games v.g.id) h

abbrev pub as_invalid_move {ℓ} : {A : Type ℓ} → Result A → Result A
as_invalid_move (ok a) = ok a
as_invalid_move (err _) = err (rule invalid_move)

abbrev pub checked_move : Move × Option RuleError → Result Move
checked_move (m, none) = ok m
checked_move (m, some e) = err (rule e)
