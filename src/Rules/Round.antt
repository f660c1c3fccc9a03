-- ===== src/Rules/Round.antt =====
-- One round: which throw wins, that the seats are treated alike, and that the order in which the
-- two players lock in does not matter (`Resolve`, `PlayMove`).
use rps_backend.Prelude.{
  Bool-cases, arith, false, inl, inr, nat_eq, none, refl, some, true, ◌==◌, ◌↔◌, ◌≡◌, ◌⊎◌,
}
use rps_backend.Rules.Defs.{
  GameState, Move, Seat, State, active, already_locked_in, draw, guest, guest_won, host, host_won,
  invalid_move, invalid_state, lock_in, move_eq, move_of, no_move, other, paper, pending, place,
  play_move, resolve, rock, scissors, seat_eq, settle, status_eq, waiting_for_moves,
}

-- The game's rule, independently of the code: what each throw defeats.
pub data Defeats : Move → Move → Type 0 where
  blunts : Defeats rock scissors
  cuts : Defeats scissors paper
  wraps : Defeats paper rock

pub data IsThrow : Move → Type 0 where
  is_rock : IsThrow rock
  is_paper : IsThrow paper
  is_scissors : IsThrow scissors

abbrev pub Wins : GameState → Move → Move → Type 0
Wins host_won h g = Defeats h g
Wins guest_won h g = Defeats g h
Wins draw h g = h ≡ g
Wins waiting_for_moves h g = ⊥

-- For two throws `resolve` names the outcome that the rule of the game gives: the host wins exactly
-- by a throw that defeats the guest's, the guest likewise, and equal throws draw.
pub resolve-Wins : {h g : Move} → IsThrow h → IsThrow g → Wins (resolve h g) h g
unfolding resolve
resolve-Wins is_rock is_rock = refl
resolve-Wins is_rock is_paper = wraps
resolve-Wins is_rock is_scissors = blunts
resolve-Wins is_paper is_rock = wraps
resolve-Wins is_paper is_paper = refl
resolve-Wins is_paper is_scissors = cuts
resolve-Wins is_scissors is_rock = blunts
resolve-Wins is_scissors is_paper = cuts
resolve-Wins is_scissors is_scissors = refl

-- Swapping the two throws swaps the winner.
pub resolve_swap :
    {h g : Move}
    → IsThrow h
    → IsThrow g
    → ((resolve h g ≡ host_won) ↔ (resolve g h ≡ guest_won))
      × ((resolve h g ≡ draw) ↔ (resolve g h ≡ draw))
unfolding resolve
resolve_swap is_rock is_rock = ground arith
resolve_swap is_rock is_paper = ground arith
resolve_swap is_rock is_scissors = ground arith
resolve_swap is_paper is_rock = ground arith
resolve_swap is_paper is_paper = ground arith
resolve_swap is_paper is_scissors = ground arith
resolve_swap is_scissors is_rock = ground arith
resolve_swap is_scissors is_paper = ground arith
resolve_swap is_scissors is_scissors = ground arith

-- `ParseMove` lets the three throws through, and refuses every other stored value.
pub play_move_cases :
    (m : Move)
    → (IsThrow m × ((s : State) (seat : Seat) → play_move s seat m ≡ place s seat m))
      ⊎ ((s : State) (seat : Seat) → play_move s seat m ≡ (s, some invalid_move))
unfolding play_move
play_move_cases rock = inl (is_rock, λ s seat. refl)
play_move_cases paper = inl (is_paper, λ s seat. refl)
play_move_cases scissors = inl (is_scissors, λ s seat. refl)
play_move_cases pending = inr (λ s seat. refl)
play_move_cases no_move = inr (λ s seat. refl)

pub throw_not_pending : {m : Move} → IsThrow m → (m == pending) ≡ false
throw_not_pending is_rock = refl
throw_not_pending is_paper = refl
throw_not_pending is_scissors = refl

-- The four ways in which an accepted throw can go.
pub place_off :
    (s : State) (seat : Seat) (m : Move)
    → (s.status == active) ≡ false
    → place s seat m ≡ (s, some invalid_state)
unfolding place
place_off s seat m off = rw off

pub place_locked :
    (s : State) (seat : Seat) (m : Move)
    → (s.status == active) ≡ true
    → (move_of s seat == pending) ≡ false
    → place s seat m ≡ (s, some already_locked_in)
unfolding place
place_locked s seat m on locked = rw (on, locked)

pub place_first :
    (s : State) (seat : Seat) {m : Move}
    → (s.status == active) ≡ true
    → IsThrow m
    → (move_of s seat == pending) ≡ true
    → (move_of s (other seat) == pending) ≡ true
    → place s seat m ≡ (lock_in s seat m, none)
unfolding place move_of other
place_first s host on t h g = rw (on, h, throw_not_pending t, g)
place_first s guest on t g h = rw (on, g, h)

pub place_second :
    (s : State) (seat : Seat) {m : Move}
    → (s.status == active) ≡ true
    → IsThrow m
    → (move_of s seat == pending) ≡ true
    → (move_of s (other seat) == pending) ≡ false
    → place s seat m ≡ (settle (lock_in s seat m), none)
unfolding place move_of other
place_second s host on t h g = rw (on, h, throw_not_pending t, g)
place_second s guest on t g h = rw (on, g, h, throw_not_pending t)

place_comm :
    (s : State) {a b : Move}
    → IsThrow a
    → IsThrow b
    → (place (place s host a).0 guest b).0 ≡ (place (place s guest b).0 host a).0
unfolding move_of other settle
place_comm s {a} {b} ta tb = elim (Bool-cases (s.status == active)) [
  | inr off ↦ simp (place_off s host a off, place_off s guest b off)
  | inl on ↦ elim (Bool-cases (s.host_move == pending)) [
    | inl h ↦ elim (Bool-cases (s.guest_move == pending)) [
      | inl g ↦ rw (
        place_first s host on ta h g,
        place_first s guest on tb g h,
        place_second (record s { host_move = a }) guest on tb g (throw_not_pending ta),
        place_second (record s { guest_move = b }) host on ta h (throw_not_pending tb),
      )
      | inr g ↦ rw (
        place_second s host on ta h g,
        place_locked s guest b on g,
        place_second s host on ta h g,
        place_off (settle (record s { host_move = a })) guest b refl,
      )
    ]
    | inr h ↦ elim (Bool-cases (s.guest_move == pending)) [
      | inl g ↦ rw (
        place_second s guest on tb g h,
        place_locked s host a on h,
        place_second s guest on tb g h,
        place_off (settle (record s { guest_move = b })) host a refl,
      )
      | inr g ↦
          rw (place_locked s guest b on g, place_locked s host a on h, place_locked s guest b on g)
    ]
  ]
]

-- The order in which host and guest send their moves does not matter: the game ends in the same
-- state, whatever it was before and also where a move is refused.
pub play_move_comm :
    (s : State) (a b : Move)
    → (play_move (play_move s host a).0 guest b).0 ≡ (play_move (play_move s guest b).0 host a).0
play_move_comm s a b = elim (play_move_cases a) [
  | inr bad ↦ simp bad
  | inl (throw_a, play_a) ↦ elim (play_move_cases b) [
    | inr bad ↦ simp bad
    | inl (throw_b, play_b) ↦ simp (play_a, play_b) (place_comm s throw_a throw_b)
  ]
]
