-- ===== src/Hub/Follows.antt =====
-- What the operations of internal/hub write over the row of a game: the state that calls of
-- internal/rules/rules.go reach from it, and the seat of a guest who joins.
use rps_backend.Errors.{ok}
use rps_backend.Hub.Expiry.{closed_state}
use rps_backend.Hub.Support.{checked, checked_rematch, take_seat}
use rps_backend.Prelude.{
  Bool, List, Option, Option-cases, [], arith, inl, inr, nat_eq, none, refl, some, subst, ℕ, ◌∷◌,
  ◌≡◌, ◌⊎◌,
}
use rps_backend.Rules.Defs.{
  Move, RuleError, Seat, State, active, close, decline_rematch, join, move_eq, play_move, rematch,
  seat_eq, status_eq, waiting_for_guest,
}
use rps_backend.Rules.Machine.{Op, apply, closes, declines, joins, plays, rematches, run}
use rps_backend.Store.Defs.{Game, seat_of, text_eq}

-- Calls of the rules lead from `s` to `t`.
abbrev pub Reaches : State → State → Type 0
Reaches s t = (ops : List Op) × (run ops s ≡ t)

pub Reaches-self : (s : State) → Reaches s s
unfolding run
Reaches-self s = ([], refl)

pub Reaches-apply : (op : Op) (s t : State) → (apply op s).0 ≡ t → Reaches s t
unfolding run
Reaches-apply op s t e = (op ∷ [], e)

-- Two seats are not one player's; 0 is an empty seat.
abbrev pub NotBoth : ℕ → ℕ → Type 0
NotBoth host_id guest_id = host_id ≡ guest_id → host_id ≡ 0

-- `g` may be written over `row`.
pub record Follows (row g : Game) : Type 0 where
  pub same_id : g.id ≡ row.id
  pub same_host : g.host_player_id ≡ row.host_player_id
  pub reaches : Reaches row.state g.state
  pub seated :
      (g.guest_player_id ≡ row.guest_player_id)
      ⊎ ((row.state.status ≡ waiting_for_guest)
          × (g.state.status ≡ active)
          × NotBoth row.host_player_id g.guest_player_id)

pub state-Follows :
    (row : Game) (s : State) → Reaches row.state s → Follows row (record row { state = s })
state-Follows row s r = record { same_id = refl; same_host = refl; reaches = r; seated = inl refl }

checked-ok : (r : State × Option RuleError) (s : State) → checked r ≡ ok s → r.0 ≡ s
checked-ok (t, none) s e = cc
checked-ok (t, some x) s e = cc

checked_rematch-ok :
    (r : State × Bool × Option RuleError) (u : State × Bool) → checked_rematch r ≡ ok u → r.0 ≡ u.0
checked_rematch-ok (t, b, none) u e = ground arith
checked_rematch-ok (t, b, some x) u e = cc

module _ (s : State) (seat : Seat) where
  pub play_move-Reaches : (m : Move) (t : State) → checked (play_move s seat m) ≡ ok t → Reaches s t
  unfolding apply
  play_move-Reaches m t e = Reaches-apply (plays seat m) s t (checked-ok _ t e)

  pub rematch-Reaches : (u : State × Bool) → checked_rematch (rematch s seat) ≡ ok u → Reaches s u.0
  unfolding apply
  rematch-Reaches u e = Reaches-apply (rematches seat) s u.0 (checked_rematch-ok _ u e)

  pub decline_rematch-Reaches : (t : State) → checked (decline_rematch s seat) ≡ ok t → Reaches s t
  unfolding apply
  decline_rematch-Reaches t e = Reaches-apply (declines seat) s t (checked-ok _ t e)

pub close-Reaches : (s t : State) → checked (close s) ≡ ok t → Reaches s t
unfolding apply
close-Reaches s t e = Reaches-apply closes s t (checked-ok _ t e)

pub closed_state-Follows : (g : Game) → Follows g (closed_state g)
unfolding apply
closed_state-Follows g = state-Follows g _ (Reaches-apply closes g.state _ refl)

-- A newcomer sits down as the guest of a game that waits for one; who has a seat keeps it.
pub take_seat-Follows :
    (g : Game) (player_id : ℕ) (t : Game × Seat) → take_seat g player_id ≡ ok t → Follows g t.0
unfolding take_seat seat_of apply join
take_seat-Follows g player_id t e = elim (Option-cases (seat_of g player_id)) [
  | inr (seat, found) ↦
      let same : g ≡ t.0 = ground arith in
      subst (Follows g) same (state-Follows g g.state (Reaches-self g.state))
  | inl free ↦ record {
    same_id = ground arith;
    same_host = ground arith;
    reaches = Reaches-apply joins g.state t.0.state (ground arith);
    seated = inr (ground arith, ground arith, λ same. ground arith);
  }
]
