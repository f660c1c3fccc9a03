-- ===== src/Rules/Rematch.antt =====
-- The exchange that follows a round (`Rematch`, `DeclineRematch`), and who sees which move
-- (`VisibleMove`).
use rps_backend.Prelude.{arith, none, some, true, ◌↔◌, ◌≡◌, ◌≢◌, ◌⊎◌}
use rps_backend.Rules.Defs.{
  Move, Seat, State, active, complete, decline_rematch, guest, host, invalid_state, move_of,
  no_move, other, pending, rematch, rematch_already_issued, visible_move, waiting_for_moves,
}
use rps_backend.Rules.Round.{IsThrow}

-- A rematch that one seat issues after a round and the other accepts starts a new round: both
-- moves are unset, no outcome stands, and the counters are kept.
rematch-rematch :
    (s : State) (seat : Seat)
    → s.status ≡ complete
    → rematch (rematch s seat).0 (other seat) ≡ (
      record s {
        status = active;
        game_state = waiting_for_moves;
        host_move = pending;
        guest_move = pending;
      },
      true,
      none,
    )
unfolding rematch other
rematch-rematch s host e = ground arith
rematch-rematch s guest e = ground arith

-- A rematch that the other seat declines leaves the finished game exactly as it was, and the issuer
-- can neither issue it twice nor decline it.
decline_rematch-rematch :
    (s : State) (seat : Seat)
    → s.status ≡ complete
    → (decline_rematch (rematch s seat).0 (other seat) ≡ (s, none))
      × ((rematch (rematch s seat).0 seat).2 ≡ some rematch_already_issued)
      × ((decline_rematch (rematch s seat).0 seat).1 ≡ some invalid_state)
unfolding rematch decline_rematch other
decline_rematch-rematch s host e = ground arith
decline_rematch-rematch s guest e = ground arith

-- A viewer is shown the throw of a seat exactly when that seat holds one, and it is the viewer's
-- own or the game is not ACTIVE; the throw shown is the stored one.
pub visible_move_iff :
    (s : State) (viewer owner : Seat) (m : Move)
    → (visible_move s viewer owner ≡ some m) ↔ (
        (move_of s owner ≡ m)
        × (m ≢ pending)
        × (m ≢ no_move)
        × ((viewer ≡ owner) ⊎ (s.status ≢ active)))
unfolding visible_move
visible_move_iff s host host m = (λ h. ground arith, λ h. ground arith)
visible_move_iff s host guest m = (λ h. ground arith, λ h. ground arith)
visible_move_iff s guest host m = (λ h. ground arith, λ h. ground arith)
visible_move_iff s guest guest m = (λ h. ground arith, λ h. ground arith)

-- Replacing one seat's stored throw by another.
abbrev pub with_move : State → Seat → Move → State
with_move s host m = record s { host_move = m }
with_move s guest m = record s { guest_move = m }

-- While a round is in progress what the opponent sees of both seats does not depend on which throw
-- a player has locked in.
pub visible_move_secret :
    (s : State) (viewer owner : Seat) {m : Move}
    → s.status ≡ active
    → IsThrow (move_of s (other viewer))
    → IsThrow m
    → visible_move (with_move s (other viewer) m) viewer owner ≡ visible_move s viewer owner
unfolding visible_move other
visible_move_secret s host host e t u = ground arith
visible_move_secret s host guest e t u = ground arith
visible_move_secret s guest host e t u = ground arith
visible_move_secret s guest guest e t u = ground arith
