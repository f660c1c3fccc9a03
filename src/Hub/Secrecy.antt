-- ===== src/Hub/Secrecy.antt =====
-- What a snapshot tells a player about the opponent's throw (internal/hub/snapshot.go).
use rps_backend.Hub.Defs.{GameView, player_view, snapshot_for}
use rps_backend.Prelude.{arith, nat_eq, not, refl, true, ◌==◌, ◌≡◌}
use rps_backend.Rules.Defs.{
  Move, Seat, active, guest, host, move_eq, move_of, other, pending, seat_eq, status_eq,
}
use rps_backend.Rules.Rematch.{visible_move_secret, with_move}
use rps_backend.Rules.Round.{IsThrow, is_paper, is_rock, is_scissors}
use rps_backend.Store.Defs.{player_id_of, text_eq}

-- The view of a game in which one seat has locked in another throw.
abbrev pub view_with : GameView → Seat → Move → GameView
view_with v seat m = record v { g = record v.g { state = with_move v.g.state seat m } }

throw-locked_in : {m : Move} → IsThrow m → not (m == pending) ≡ true
throw-locked_in is_rock = refl
throw-locked_in is_paper = refl
throw-locked_in is_scissors = refl

player_view_secret :
    (v : GameView) (seat you : Seat) {m : Move}
    → v.g.state.status ≡ active
    → IsThrow (move_of v.g.state (other you))
    → IsThrow m
    → player_view (view_with v (other you) m) seat you ≡ player_view v seat you
unfolding player_view player_id_of move_of other
player_view_secret v host host e t u = ground (arith, visible_move_secret v.g.state host host e t u)
player_view_secret v host guest e t u =
    ground
      (arith, visible_move_secret v.g.state guest host e t u, throw-locked_in t, throw-locked_in u)
player_view_secret v guest host e t u =
    ground
      (arith, visible_move_secret v.g.state host guest e t u, throw-locked_in t, throw-locked_in u)
player_view_secret v guest guest e t u =
    ground (arith, visible_move_secret v.g.state guest guest e t u)

-- While a round is in progress the whole snapshot that a player receives is the same whichever
-- throw the opponent has locked in.
pub snapshot_for_secret :
    (v : GameView) (you : Seat) (m : Move)
    → v.g.state.status ≡ active
    → IsThrow (move_of v.g.state (other you))
    → IsThrow m
    → snapshot_for (view_with v (other you) m) you ≡ snapshot_for v you
unfolding snapshot_for other
snapshot_for_secret v host m e t u =
    ground (arith, player_view_secret v host host e t u, player_view_secret v guest host e t u)
snapshot_for_secret v guest m e t u =
    ground (arith, player_view_secret v host guest e t u, player_view_secret v guest guest e t u)
