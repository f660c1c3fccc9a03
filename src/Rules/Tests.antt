-- ===== src/Rules/Tests.antt =====
-- Runs of internal/rules/rules.go on small games, and the theorems at concrete states.
use rps_backend.Prelude.{List, [], none, refl, some, ◌+◌, ◌↔◌, ◌∷◌, ◌≡◌, ◌≢◌, ◌⊎◌}
use rps_backend.Rules.Defs.{
  State, active, complete, draw, guest, host, host_won, invalid_move, join, move_of, new_state,
  no_move, paper, parse_move, pending, play_move, rematch, resolve, rock, scissors, settle,
  visible_move,
}
use rps_backend.Rules.Invariant.{IsValid, new_state-IsValid, rounds, run-IsValid, total, total-run}
use rps_backend.Rules.Machine.{Op, Transition, Transition_iff, apply, joins, plays, rematches, run}
use rps_backend.Rules.Rematch.{visible_move_iff}
use rps_backend.Rules.Round.{Wins, is_paper, is_rock, play_move_comm, resolve-Wins}

abbrev round_one : List Op
round_one = joins ∷ plays host rock ∷ plays guest scissors ∷ []

abbrev two_rounds : List Op
two_rounds =
    joins
    ∷ plays host rock
    ∷ plays host paper
    ∷ plays guest scissors
    ∷ rematches guest
    ∷ rematches guest
    ∷ rematches host
    ∷ plays guest paper
    ∷ plays host paper
    ∷ []

abbrev in_round : State
in_round = record new_state { status = active; host_move = rock }

abbrev decided : State
decided = record new_state {
  status = complete;
  game_state = host_won;
  host_move = rock;
  guest_move = scissors;
  host_wins = 1;
}

run-round_one : run round_one new_state ≡ decided
unfolding run apply join play_move settle resolve
run-round_one = refl

run-two_rounds :
    run two_rounds new_state
    ≡ record decided { game_state = draw; host_move = paper; guest_move = paper; draws = 1 }
unfolding run apply join play_move settle resolve rematch
run-two_rounds = refl

parse_pending : parse_move "PENDING" ≡ (no_move, some invalid_move)
unfolding parse_move
parse_pending = refl

resolve-Wins_example : Wins (resolve paper rock) paper rock
resolve-Wins_example = resolve-Wins is_paper is_rock

play_move_comm_example :
    (play_move (play_move in_round host paper).0 guest scissors).0
    ≡ (play_move (play_move in_round guest scissors).0 host paper).0
play_move_comm_example = play_move_comm in_round paper scissors

Transition_iff_example : Transition in_round (plays guest paper) complete ↔ (
    ((apply (plays guest paper) in_round).1 ≡ none)
    × ((apply (plays guest paper) in_round).0.status ≡ complete))
Transition_iff_example = Transition_iff in_round (plays guest paper) complete

run-IsValid_example : IsValid (run two_rounds new_state)
run-IsValid_example = run-IsValid two_rounds new_state-IsValid

total-run_example : total (run two_rounds new_state) ≡ 0 + rounds two_rounds new_state
total-run_example = total-run two_rounds new_state new_state-IsValid

rounds-two_rounds : rounds two_rounds new_state ≡ 2
unfolding rounds apply join play_move settle resolve rematch
rounds-two_rounds = refl

visible_move_iff_example : (visible_move decided guest host ≡ some rock) ↔ (
    (move_of decided host ≡ rock)
    × (rock ≢ pending)
    × (rock ≢ no_move)
    × ((guest ≡ host) ⊎ (decided.status ≢ active)))
visible_move_iff_example = visible_move_iff decided guest host rock
