-- ===== src/Rules/Machine.antt =====
-- The status machine of docs/SPEC.md 6.2 as a step relation, and the operations of
-- internal/rules/rules.go as one step function over it.
use rps_backend.Prelude.{Bool, List, Option, [], arith, none, refl, some, subst, ◌↔◌, ◌∷◌, ◌≡◌, ◌≢◌}
use rps_backend.Rules.Defs.{
  Move, RuleError, Seat, State, Status, active, close, closed, complete, decline_rematch, guest,
  host, issued_by, join, move_of, no_move, other, paper, pending, play_move, rematch, rock,
  scissors, settle, waiting_for_guest,
}
use rps_backend.Rules.Round.{IsThrow, is_paper, is_rock, is_scissors}

-- One call of the package on a game.
pub data Op : Type 0 where
  joins : Op
  plays : Seat → Move → Op
  rematches : Seat → Op
  declines : Seat → Op
  closes : Op

abbrev drop_accepted : State × Bool × Option RuleError → State × Option RuleError
drop_accepted (s, _, err) = (s, err)

unfoldable pub apply : Op → State → State × Option RuleError
apply joins s = join s
apply (plays seat m) s = play_move s seat m
apply (rematches seat) s = drop_accepted (rematch s seat)
apply (declines seat) s = decline_rematch s seat
apply closes s = close s

-- A refused call leaves the state that it was given.
unfoldable pub run : List Op → State → State
run [] s = s
run (op ∷ ops) s = run ops (apply op s).0

-- The rows of the table of transitions: what may happen to a game, and the status that follows.
pub data Transition (s : State) : Op → Status → Type 0 where
  guest_joins : s.status ≡ waiting_for_guest → Transition s joins active
  first_move :
      {seat : Seat} {m : Move}
      → s.status ≡ active
      → IsThrow m
      → move_of s seat ≡ pending
      → move_of s (other seat) ≡ pending
      → Transition s (plays seat m) active
  second_move :
      {seat : Seat} {m : Move}
      → s.status ≡ active
      → IsThrow m
      → move_of s seat ≡ pending
      → move_of s (other seat) ≢ pending
      → Transition s (plays seat m) complete
  issue : {seat : Seat} → s.status ≡ complete → Transition s (rematches seat) (issued_by seat)
  accept : {seat : Seat} → s.status ≡ issued_by (other seat) → Transition s (rematches seat) active
  decline :
      {seat : Seat} → s.status ≡ issued_by (other seat) → Transition s (declines seat) complete
  leave : s.status ≢ closed → Transition s closes closed

pub ruleset throws = (is_rock, is_paper, is_scissors)

play-Transition :
    (s : State) (seat : Seat) (m : Move)
    → (play_move s seat m).1 ≡ none
    → Transition s (plays seat m) (play_move s seat m).0.status
unfolding play_move settle other
play-Transition s host rock h = grind (arith, first_move, second_move, throws)
play-Transition s host paper h = grind (arith, first_move, second_move, throws)
play-Transition s host scissors h = grind (arith, first_move, second_move, throws)
play-Transition s guest rock h = grind (arith, first_move, second_move, throws)
play-Transition s guest paper h = grind (arith, first_move, second_move, throws)
play-Transition s guest scissors h = grind (arith, first_move, second_move, throws)
play-Transition s seat pending h = cc
play-Transition s seat no_move h = cc

-- Every call that returns no error follows a row of the table, to the status that the row gives.
apply-Transition :
    (op : Op) (s : State) → (apply op s).1 ≡ none → Transition s op (apply op s).0.status
unfolding apply join rematch decline_rematch close other
apply-Transition joins s h = grind (arith, guest_joins)
apply-Transition (plays seat m) s h = play-Transition s seat m h
apply-Transition (rematches host) s h = grind (arith, issue, accept)
apply-Transition (rematches guest) s h = grind (arith, issue, accept)
apply-Transition (declines host) s h = grind (arith, decline)
apply-Transition (declines guest) s h = grind (arith, decline)
apply-Transition closes s h = grind (arith, leave)

-- Every row of the table is a call that returns no error and reaches the status of the row.
Transition-apply :
    {s : State} {op : Op} {t : Status}
    → Transition s op t
    → ((apply op s).1 ≡ none) × ((apply op s).0.status ≡ t)
unfolding apply join play_move settle rematch decline_rematch close other
Transition-apply (guest_joins e) = ground arith
Transition-apply (first_move e is_rock p q) = ground arith
Transition-apply (first_move e is_paper p q) = ground arith
Transition-apply (first_move e is_scissors p q) = ground arith
Transition-apply (second_move e is_rock p q) = ground arith
Transition-apply (second_move e is_paper p q) = ground arith
Transition-apply (second_move e is_scissors p q) = ground arith
Transition-apply (issue e) = ground arith
Transition-apply (accept e) = ground arith
Transition-apply (decline e) = ground arith
Transition-apply (leave ne) = ground arith

-- The rows of the table are exactly the calls that return no error, each with the status that the call
-- reaches.
pub Transition_iff :
    (s : State) (op : Op) (t : Status)
    → Transition s op t ↔ (((apply op s).1 ≡ none) × ((apply op s).0.status ≡ t))
Transition_iff s op t = (
  Transition-apply,
  λ (done, reached). subst (λ (u : Status). Transition s op u) reached (apply-Transition op s done),
)

-- A call that returns an error leaves the state as it was.
apply_error_unchanged :
    (op : Op) (s : State) {e : RuleError} → (apply op s).1 ≡ some e → (apply op s).0 ≡ s
unfolding apply join play_move rematch decline_rematch close
apply_error_unchanged joins s h = ground arith
apply_error_unchanged (plays seat m) s h = ground arith
apply_error_unchanged (rematches seat) s h = ground arith
apply_error_unchanged (declines seat) s h = ground arith
apply_error_unchanged closes s h = ground arith

closed_refuses : (op : Op) (s : State) → s.status ≡ closed → (apply op s).0 ≡ s
unfolding apply join play_move rematch decline_rematch close
closed_refuses joins s h = ground arith
closed_refuses (plays seat m) s h = ground arith
closed_refuses (rematches seat) s h = ground arith
closed_refuses (declines seat) s h = ground arith
closed_refuses closes s h = ground arith

-- CLOSED is terminal: no sequence of calls changes a closed game.
closed_absorbs : (ops : List Op) (s : State) → s.status ≡ closed → run ops s ≡ s
unfolding run
closed_absorbs [] s h = refl
closed_absorbs (op ∷ ops) s h = rw (closed_refuses op s h) (closed_absorbs ops s h)
