-- ===== src/Rules/Defs.antt =====
-- The definitions of internal/rules/rules.go. `Move`, `Status`, `GameState` and `Seat` are Go
-- strings of which the program makes these values only; a row of the database holds no other, by
-- the CHECK clauses of internal/store/schema.sql. `no_move` is Go's zero value "".
use Prim.Native.String.{String}
use text.Mathlib.Text.{◌==◌ as str_beq}
use rps_backend.Prelude.{
  Bool, Eq, Option, false, if◌then◌else◌, nat_eq, none, not, some, true, ℕ, ◌&&◌, ◌+◌, ◌==◌, ◌||◌,
}

pub data Move : Type 0 where
  rock paper scissors pending no_move : Move

pub data Status : Type 0 where
  waiting_for_guest active complete host_issued_rematch guest_issued_rematch closed : Status

pub data GameState : Type 0 where
  waiting_for_moves draw host_won guest_won : GameState

pub data Seat : Type 0 where
  host guest : Seat

abbrev move_beq : Move → Move → Bool
move_beq rock rock = true
move_beq paper paper = true
move_beq scissors scissors = true
move_beq pending pending = true
move_beq no_move no_move = true
move_beq _ _ = false

abbrev status_beq : Status → Status → Bool
status_beq waiting_for_guest waiting_for_guest = true
status_beq active active = true
status_beq complete complete = true
status_beq host_issued_rematch host_issued_rematch = true
status_beq guest_issued_rematch guest_issued_rematch = true
status_beq closed closed = true
status_beq _ _ = false

abbrev seat_beq : Seat → Seat → Bool
seat_beq host host = true
seat_beq guest guest = true
seat_beq _ _ = false

instance abbrev pub move_eq : Eq Move
move_eq = record { beq = move_beq }

instance abbrev pub status_eq : Eq Status
status_eq = record { beq = status_beq }

instance abbrev pub seat_eq : Eq Seat
seat_eq = record { beq = seat_beq }

unfoldable pub other : Seat → Seat
other s = if s == host then guest else host

-- The values of type `*Error`, each with its protocol code and message.
pub data RuleError : Type 0 where
  invalid_move invalid_state already_locked_in rematch_already_issued game_closed : RuleError

abbrev pub code : RuleError → String
code invalid_move = "invalid_move"
code invalid_state = "invalid_state"
code already_locked_in = "already_locked_in"
code rematch_already_issued = "rematch_already_issued"
code game_closed = "game_closed"

abbrev pub message : RuleError → String
message invalid_move = "move must be ROCK, PAPER or SCISSORS"
message invalid_state = "action not allowed in the current game status"
message already_locked_in = "you have already locked in a move this round"
message rematch_already_issued = "you have already issued a rematch"
message game_closed = "game is closed"

-- `string(m)`
abbrev pub move_text : Move → String
move_text rock = "ROCK"
move_text paper = "PAPER"
move_text scissors = "SCISSORS"
move_text pending = "PENDING"
move_text no_move = ""

unfoldable pub parse_move : String → Move × Option RuleError
parse_move s =
    if str_beq s "ROCK"
    then (rock, none)
    else if str_beq s "PAPER"
    then (paper, none)
    else if str_beq s "SCISSORS"
    then (scissors, none)
    else (no_move, some invalid_move)

-- A lookup in the map `beats`; a missing key gives the zero value.
unfoldable pub beats : Move → Move
beats rock = scissors
beats scissors = paper
beats paper = rock
beats pending = no_move
beats no_move = no_move

unfoldable pub resolve : Move → Move → GameState
unfolding beats
resolve h g = if h == g then draw else if beats h == g then host_won else guest_won

pub record State : Type 0 where
  pub status : Status
  pub game_state : GameState
  pub host_move : Move
  pub guest_move : Move
  pub host_wins : ℕ
  pub guest_wins : ℕ
  pub draws : ℕ

abbrev pub new_state : State
new_state = record {
  status = waiting_for_guest;
  game_state = waiting_for_moves;
  host_move = pending;
  guest_move = pending;
  host_wins = 0;
  guest_wins = 0;
  draws = 0;
}

unfoldable pub move_of : State → Seat → Move
move_of s seat = if seat == host then s.host_move else s.guest_move

unfoldable pub issued_by : Seat → Status
issued_by seat = if seat == host then host_issued_rematch else guest_issued_rematch

issuer_of : Status → Option Seat
issuer_of host_issued_rematch = some host
issuer_of guest_issued_rematch = some guest
issuer_of _ = none

-- `(Seat, bool)` as an option.
unfoldable pub rematch_issuer : State → Option Seat
unfolding issuer_of
rematch_issuer s = issuer_of s.status

unfoldable pub join : State → State × Option RuleError
join s =
    if not (s.status == waiting_for_guest)
    then (s, some invalid_state)
    else (record s { status = active }, none)

-- The increment of the one counter that the outcome names.
abbrev pub tally : GameState → State → State
tally host_won s = record s { host_wins = s.host_wins + 1 }
tally guest_won s = record s { guest_wins = s.guest_wins + 1 }
tally draw s = record s { draws = s.draws + 1 }
tally waiting_for_moves s = s

-- The body of `PlayMove` once the move is accepted.
abbrev pub lock_in : State → Seat → Move → State
lock_in s seat m = if seat == host then record s { host_move = m } else record s { guest_move = m }

unfoldable pub settle : State → State
settle s =
    let outcome = resolve s.host_move s.guest_move in
    record (tally outcome (record s { game_state = outcome })) { status = complete }

-- `PlayMove` once the move has passed `ParseMove`.
unfoldable pub place : State → Seat → Move → State × Option RuleError
unfolding move_of
place s seat m =
    if not (s.status == active)
    then (s, some invalid_state)
    else if not (move_of s seat == pending)
    then (s, some already_locked_in)
    else let t = lock_in s seat m in
      if t.host_move == pending || t.guest_move == pending then (t, none) else (settle t, none)

unfoldable pub play_move : State → Seat → Move → State × Option RuleError
unfolding parse_move place
play_move s seat m =
    let (_, err) = parse_move (move_text m) in
    elim err [ some e ↦ (s, some e) | none ↦ place s seat m ]

-- `(next, accepted, err)`
unfoldable pub rematch : State → Seat → State × Bool × Option RuleError
unfolding issued_by rematch_issuer
rematch s seat =
    if s.status == complete
    then (record s { status = issued_by seat }, false, none)
    else elim (rematch_issuer s) [
      | none ↦ (s, false, some invalid_state)
      | some issuer ↦ if issuer == seat then (s, false, some rematch_already_issued) else (
        record s {
          status = active;
          game_state = waiting_for_moves;
          host_move = pending;
          guest_move = pending;
        },
        true,
        none,
      )
    ]

unfoldable pub decline_rematch : State → Seat → State × Option RuleError
unfolding rematch_issuer
decline_rematch s seat = elim (rematch_issuer s) [
  | none ↦ (s, some invalid_state)
  | some issuer ↦
      if issuer == seat then (s, some invalid_state) else (record s { status = complete }, none)
]

unfoldable pub close : State → State × Option RuleError
close s = if s.status == closed then (s, some game_closed) else (record s { status = closed }, none)

-- `(m, ok)` as an option: `none` is shown as null.
unfoldable pub visible_move : State → Seat → Seat → Option Move
unfolding move_of
visible_move s viewer owner =
    let stored = move_of s owner in
    if stored == pending || stored == no_move
    then none
    else if not (viewer == owner) && s.status == active
    then none
    else some stored
