-- ===== src/Rules/Invariant.antt =====
-- What holds of every game state between two calls of internal/rules/rules.go, and what the
-- counters count.
use rps_backend.Prelude.{
  Bool, List, [], arith, false, if◌then◌else◌, inl, inr, nat_eq, true, ℕ, ◌&&◌, ◌+◌, ◌==◌, ◌∷◌, ◌≡◌,
}
use rps_backend.Rules.Defs.{
  Move, Seat, State, Status, active, close, complete, decline_rematch, guest, guest_issued_rematch,
  host, host_issued_rematch, join, move_eq, new_state, no_move, paper, pending, place, play_move,
  rematch, resolve, rock, scissors, seat_eq, settle, status_eq, waiting_for_guest,
  waiting_for_moves,
}
use rps_backend.Rules.Machine.{Op, apply, closes, declines, joins, plays, rematches, run}
use rps_backend.Rules.Round.{IsThrow, is_paper, is_rock, is_scissors, play_move_cases}

-- The statuses between the end of a round and the start of the next.
abbrev pub is_over : Status → Bool
is_over complete = true
is_over host_issued_rematch = true
is_over guest_issued_rematch = true
is_over _ = false

abbrev is_stored : Move → Bool
is_stored no_move = false
is_stored _ = true

abbrev pub is_throw : Move → Bool
is_throw rock = true
is_throw paper = true
is_throw scissors = true
is_throw _ = false

pub record IsValid (s : State) : Type 0 where
  pub host_stored : is_stored s.host_move ≡ true
  pub guest_stored : is_stored s.guest_move ≡ true
  pub waiting_fresh :
      s.status ≡ waiting_for_guest
      → (s.host_move ≡ pending) × (s.guest_move ≡ pending) × (s.game_state ≡ waiting_for_moves)
  pub active_open : s.status ≡ active → is_throw s.host_move && is_throw s.guest_move ≡ false
  pub active_undecided : s.status ≡ active → s.game_state ≡ waiting_for_moves
  pub over_thrown : is_over s.status ≡ true → is_throw s.host_move && is_throw s.guest_move ≡ true
  pub over_decided : is_over s.status ≡ true → s.game_state ≡ resolve s.host_move s.guest_move

-- The state of a new game is valid.
pub new_state-IsValid : IsValid new_state
new_state-IsValid = ground arith

place-IsValid :
    (s : State) (seat : Seat) {m : Move} → IsThrow m → IsValid s → IsValid (place s seat m).0
unfolding place settle
place-IsValid s host is_rock v = ground arith
place-IsValid s host is_paper v = ground arith
place-IsValid s host is_scissors v = ground arith
place-IsValid s guest is_rock v = ground arith
place-IsValid s guest is_paper v = ground arith
place-IsValid s guest is_scissors v = ground arith

play_move-IsValid :
    (s : State) (seat : Seat) (m : Move) → IsValid s → IsValid (play_move s seat m).0
play_move-IsValid s seat m v = elim (play_move_cases m) [
  | inl (throw, placed) ↦ rw (placed s seat) (place-IsValid s seat throw v)
  | inr refused ↦ rw (refused s seat) v
]

-- Every call, accepted or refused, keeps a state valid.
pub apply-IsValid : (op : Op) (s : State) → IsValid s → IsValid (apply op s).0
unfolding apply join rematch decline_rematch close
apply-IsValid joins s v = ground arith
apply-IsValid (plays seat m) s v = play_move-IsValid s seat m v
apply-IsValid (rematches host) s v = ground arith
apply-IsValid (rematches guest) s v = ground arith
apply-IsValid (declines host) s v = ground arith
apply-IsValid (declines guest) s v = ground arith
apply-IsValid closes s v = ground arith

-- Whatever sequence of calls a game sees from its creation on, its state is valid.
pub run-IsValid : (ops : List Op) {s : State} → IsValid s → IsValid (run ops s)
unfolding run
run-IsValid [] v = v
run-IsValid (op ∷ ops) {s} v = run-IsValid ops (apply-IsValid op s v)

abbrev pub total : State → ℕ
total s = s.host_wins + s.guest_wins + s.draws

-- Whether a call took the game from ACTIVE to COMPLETE: the end of a round.
abbrev pub ends_round : State → State → ℕ
ends_round s t = if s.status == active && t.status == complete then 1 else 0

total-place :
    (s : State) (seat : Seat) {m : Move}
    → IsThrow m
    → IsValid s
    → total (place s seat m).0 ≡ total s + ends_round s (place s seat m).0
unfolding place settle resolve
total-place s host is_rock v = ground arith
total-place s host is_paper v = ground arith
total-place s host is_scissors v = ground arith
total-place s guest is_rock v = ground arith
total-place s guest is_paper v = ground arith
total-place s guest is_scissors v = ground arith

total-play_move :
    (s : State) (seat : Seat) (m : Move)
    → IsValid s
    → total (play_move s seat m).0 ≡ total s + ends_round s (play_move s seat m).0
total-play_move s seat m v = elim (play_move_cases m) [
  | inl (throw, placed) ↦ rw (placed s seat) (total-place s seat throw v)
  | inr refused ↦ rw (refused s seat) (ground arith)
]

total-apply :
    (op : Op) (s : State) → IsValid s → total (apply op s).0 ≡ total s + ends_round s (apply op s).0
unfolding apply join rematch decline_rematch close
total-apply joins s v = ground arith
total-apply (plays seat m) s v = total-play_move s seat m v
total-apply (rematches host) s v = ground arith
total-apply (rematches guest) s v = ground arith
total-apply (declines host) s v = ground arith
total-apply (declines guest) s v = ground arith
total-apply closes s v = ground arith

-- The number of rounds that a sequence of calls brings to an end.
unfoldable pub rounds : List Op → State → ℕ
rounds [] s = 0
rounds (op ∷ ops) s = ends_round s (apply op s).0 + rounds ops (apply op s).0

-- Over any sequence of calls on a valid state the two counts of wins and the count of draws grow,
-- taken together, by exactly the number of rounds that came to an end.
pub total-run : (ops : List Op) (s : State) → IsValid s → total (run ops s) ≡ total s + rounds ops s
unfolding run rounds
total-run [] s v = omega arith
total-run (op ∷ ops) s v =
    omega (arith, total-apply op s v, total-run ops (apply op s).0 (apply-IsValid op s v))
