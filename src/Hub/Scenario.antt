-- ===== src/Hub/Scenario.antt =====
-- A player who arrives, authenticates and connects to a game, from an empty hub on.
use rps_backend.Errors.{if_not_found, ok, ◌>>=◌}
use rps_backend.Hub.Actions.{authenticate, connect, load_game_with_secret}
use rps_backend.Hub.Conn.{attachment_id, close_conn, is_closing, send, take_message}
use rps_backend.Hub.Connect.{Fair}
use rps_backend.Hub.Defs.{
  modify_conn, Hub, attach_locked, close_game_for, detach, detach_from, detach_locked, detach_now,
  each, is_authenticated, name_of, on_store, register, remove, seat_name, tell_left, view,
}
use rps_backend.Hub.Dispatch.{action_of, error_body, handle, handle_found, run_action}
use rps_backend.Hub.Erased.{Expires, expire_player-Expires}
use rps_backend.Hub.Exclusion.{LockRun-empty, LockRun-exclusive}
use rps_backend.Hub.Support.{Waits}
use rps_backend.Hub.Sweep.{SweepCalm}
use rps_backend.Hub.Expired.{Gone, expire_game-Gone, expire_game_fresh}
use rps_backend.Hub.Expiry.{
  PlayerWaits, SweepWaits, close_for_expired_player, drop_connection, each_action, expire_game,
  expire_player, shut_game, when, with_loaded,
}
use rps_backend.Hub.Life.{
  Reachable, Reachable-one_game, arrives, handles, new_hub, starts, then_step,
}
use rps_backend.Hub.Locks.{
  Goroutine, LockRun, Locks, Stage, begins, drop_ref, drops, enter, enters, goes_on, holding,
  inside, locks, no_locks, outside, releasing, set_locked, spawns, unlocks, waiting,
}
use rps_backend.Threads.{count, here, later}
use rps_backend.Hub.Once.{handle-once}
use rps_backend.Hub.Operations.{
  HubOp, op_acts, op_arrives, op_delivers, op_shuts_down, op_sweeps, run_ops,
}
use rps_backend.Hub.Queues.{AllShort, Asked, run_ops-Asked, run_ops-bound}
use rps_backend.Hub.Reply.{heard_by, delivers-Heard}
use rps_backend.Hub.Support.{claim_player, decode, greet, leave_other, replace_old, save, take_seat}
use rps_backend.Hub.Tests.{alone, plain, playing, table, table-Coherent}
use rps_backend.Prelude.{
  List, [], arith, contains, false, inr, ltb, none, refl, some, true, ℕ, ◌+◌, ◌∷◌, ◌≡◌, ◌≢◌, ◌≤◌,
}
use rps_backend.Store.Defs.{
  Game, Text, delete_player, find_game, find_player, get_game, get_player, open_game_ids_for_player,
  open_games, player_id_of, seat_of, statement, touch_player, touch_rows,
}
use rps_backend.Store.Ids.{NoEmptyId}
use rps_backend.Store.Tests.{small}
use rps_backend.Store.Tx.{in_tx, is_player, refers, save_game, tx, update_game, update_rows}

abbrev empty_hub : Hub
empty_hub = new_hub small 30

abbrev arrived : Hub
arrived = (register empty_hub).1

abbrev known : Hub
known = handle plain "player::authenticate" alone 0 [] (b'{' ∷ []) arrived

abbrev joined : Hub
joined = handle plain "game::connect" alone 0 [] (b'{' ∷ []) known

small-NoEmptyId : NoEmptyId small
unfolding find_game
small-NoEmptyId = refl

alone_zero-Fair : Fair 0 alone
alone_zero-Fair = record {
  leaving_keeps = tt;
  entering_keeps = λ h k. k;
  entering_attaches_not = λ h. inr refl;
}

joined-Reachable : Reachable joined
joined-Reachable =
    then_step
      (then_step (then_step (starts small 30 small-NoEmptyId) (arrives refl))
        (handles plain 0 alone "player::authenticate" [] (b'{' ∷ []) alone_zero-Fair))
      (handles plain 0 alone "game::connect" [] (b'{' ∷ []) alone_zero-Fair)

joined_there : contains 0 (joined.games 7) ≡ true
unfolding register handle action_of handle_found is_closing run_action authenticate connect decode
    ◌>>=◌ is_authenticated if_not_found on_store get_player statement find_player touch_player
    replace_old send claim_player load_game_with_secret get_game find_game leave_other take_seat
    seat_of attach_locked save save_game tx in_tx update_game update_rows refers is_player
    touch_rows view seat_name name_of player_id_of greet each
joined_there = refl

Reachable-one_game_example :
    (attachment_id (joined.conns 0).attached ≡ 7)
    × ((i : ℕ) → contains 0 (joined.games i) ≡ true → i ≡ 7)
Reachable-one_game_example = Reachable-one_game joined 0 7 joined-Reachable joined_there

playing_found : find_game 7 table.store.games ≡ some playing
unfolding find_game
playing_found = refl

expire_game-Gone_example : Gone 7 table (expire_game (λ h. h) 20 7 table)
expire_game-Gone_example =
    expire_game-Gone (λ h. h) 20 7 table playing table-Coherent refl playing_found refl

-- The game was last active at 9.
still_active : (g : Game) → find_game 7 table.store.games ≡ some g → ltb g.last_active_at 9 ≡ false
unfolding find_game
still_active g found = ground arith

table_spared : expire_game (λ h. h) 9 7 table ≡ (ok tt, table)
table_spared = expire_game_fresh (λ h. h) 9 7 table refl still_active

abbrev at_door : ℕ → Goroutine
at_door i = record { stage = outside; id = i; cell = 0 }

abbrev first_holds : List Goroutine
first_holds =
    record { stage = holding; id = 7; cell = 0 } ∷ record { stage = waiting; id = 7; cell = 0 } ∷ []

-- Two goroutines want the lock of game 7, and the first has it.
abbrev both_entered : Locks
both_entered = set_locked true 0 (enter 7 (enter 7 no_locks).1).1

first_holds-LockRun : LockRun both_entered first_holds
unfolding enter
first_holds-LockRun =
    let two = goes_on (goes_on begins (spawns {i = 7} {l = 0})) (spawns {i = 7} {l = 0}) in
    let one = goes_on two (enters {p = at_door 7} {i = 7} refl here) in
    let both = goes_on one (enters {p = at_door 7} {i = 7} refl (later here)) in
    goes_on both (locks {p = record { stage = waiting; id = 7; cell = 0 }} refl refl here)

LockRun-exclusive_example : count (inside 7) first_holds ≤ 1
LockRun-exclusive_example = LockRun-exclusive both_entered first_holds 7 first_holds-LockRun

abbrev at_stage : Stage → Goroutine
at_stage s = record { stage = s; id = 7; cell = 0 }

-- The only one who wanted the lock has released it.
abbrev all_left : Locks
all_left = drop_ref 7 0 (set_locked false 0 (set_locked true 0 (enter 7 no_locks).1))

all_left-LockRun : LockRun all_left (at_stage outside ∷ [])
unfolding enter drop_ref
all_left-LockRun =
    let one = goes_on begins (spawns {i = 7} {l = 0}) in
    let wants = goes_on one (enters {p = at_door 7} {i = 7} refl here) in
    let has = goes_on wants (locks {p = at_stage waiting} refl refl here) in
    let gives = goes_on has (unlocks {p = at_stage holding} refl here) in
    goes_on gives (drops {p = at_stage releasing} refl here)

LockRun-empty_example : all_left.table 7 ≡ none
LockRun-empty_example = LockRun-empty all_left (at_stage outside ∷ []) 7 all_left-LockRun refl

abbrev r1 : Text
r1 = b'r' ∷ b'1' ∷ []

r1_given : r1 ≢ []
r1_given e = cc

-- The transport takes a message off the queue while the handler waits.
abbrev delivering : Waits
delivering = record { leaving = []; entering = modify_conn 1 (λ k. (take_message k).1) }

-- A connection that is not in a game asks to leave one, and is answered with an error.
abbrev refused_leave : Hub
refused_leave = handle plain "game::leave" delivering 1 r1 [] arrived

refused_leave_open : is_closing (refused_leave.conns 1) ≡ false
unfolding register handle action_of handle_found is_closing send error_body
refused_leave_open = refl

handle-once_example :
    heard_by r1 ((handle plain "game::leave" delivering 1 r1 [] arrived).conns 1)
    ≡ heard_by r1 (arrived.conns 1) + 1
handle-once_example =
    handle-once plain 1 r1 delivering "game::leave" [] arrived r1_given
      (λ n. (tt, delivers-Heard 1 r1 n 1)) refused_leave_open

-- Nothing happens while a player expires.
abbrev calm_expiry : PlayerWaits
calm_expiry = record {
  loading = λ h. h;
  closing = λ i h. h;
  dropping = λ h. h;
  leaving = (λ h. h) ∷ [];
  deleting = λ h. h;
}

abbrev calm_sweep : SweepWaits
calm_sweep = record {
  starting = λ i h. h;
  of_player = λ i. calm_expiry;
  turning = λ h. h;
  of_game = λ i h. h;
}

calm_sweep-SweepCalm : (P : Hub → Type 0) → SweepCalm P calm_sweep
calm_sweep-SweepCalm P = record {
  starting = λ i h k. k;
  of_player = λ i. record {
    loading = λ h k. k;
    closing = λ i h k. k;
    dropping = λ h k. k;
    leaving = ((λ h k. k), tt);
    deleting = λ h k. k;
  };
  turning = λ h k. k;
  of_game = λ i h k. k;
}

abbrev busy_day : List HubOp
busy_day =
    op_arrives
    ∷ op_acts plain alone "game::move" 1 r1 (b'{' ∷ [])
    ∷ op_sweeps calm_sweep 5 5
    ∷ op_shuts_down 1000
    ∷ op_delivers 2
    ∷ []

run_ops-bound_example : AllShort (run_ops busy_day table)
run_ops-bound_example =
    run_ops-bound busy_day table
      (tt, ((tt, λ h k. k), (calm_sweep-SweepCalm AllShort, (tt, (tt, tt))))) λ c. ground arith

abbrev leaving_table : Hub
leaving_table = record table { conns = λ c. record (table.conns c) { closing = some 4000 } }

run_ops-Asked_example : Asked 1 4000 (run_ops busy_day leaving_table)
run_ops-Asked_example =
    run_ops-Asked busy_day leaving_table 1 4000
      (tt, ((tt, λ h k. k), (calm_sweep-SweepCalm (Asked 1 4000), (tt, (tt, tt)))))
      (omega arith, refl)

one_given : ◌≢◌ {A = ℕ} 1 0
one_given e = omega arith

expire_player-Expires_example : Expires 20 1 table (expire_player calm_expiry 20 1 table)
expire_player-Expires_example = expire_player-Expires calm_expiry 20 1 table one_given

-- It does return no error there.
expire_player-table : (expire_player calm_expiry 20 1 table).0 ≡ ok tt
unfolding expire_player with_loaded on_store get_player statement find_player when ◌>>=◌
    open_game_ids_for_player each_action open_games close_for_expired_player get_game find_game
    seat_of shut_game save_game tx in_tx is_player refers update_game update_rows delete_player
    touch_player close_game_for view name_of seat_name player_id_of drop_connection each
    detach_locked detach_from remove detach detach_now tell_left close_conn
expire_player-table = refl
