-- ===== src/Hub/Expiry.antt =====
-- internal/hub/hub.go (`ExpirePlayer`, `ExpireGame`) and internal/sweeper/sweeper.go.
use rps_backend.Errors.{Action, Result, err, not_found, ok, pure, ◌>>=◌, ◌>>◌}
use rps_backend.Hub.Conn.{
  close_conn, close_game_expired, close_player_expired, game_closed_event, player_expired,
}
use rps_backend.Hub.Defs.{Hub, close_game_for, detach, detach_locked, each, modify_conn, on_store}
use rps_backend.Hub.Support.{gets, update_hub}
use rps_backend.Prelude.{
  Bool, List, Option, [], if◌then◌else◌, ltb, nat_eq, none, not, some, true, ℕ, ◌-◌, ◌==◌, ◌∷◌,
}
use rps_backend.Rules.Defs.{Seat, close, closed, move_eq, seat_eq, status_eq}
use rps_backend.Store.Defs.{
  Game, delete_game, delete_player, expired_game_ids, expired_player_ids, get_game, get_player,
  open_game_ids_for_player, seat_of, text_eq,
}
use rps_backend.Store.Tx.{save_game}

-- The early returns of these functions with no error.
abbrev pub skip_not_found : Result (Unit {0}) × Hub → Result (Unit {0}) × Hub
skip_not_found (ok a, h) = (ok a, h)
skip_not_found (err not_found, h) = (ok tt, h)
skip_not_found (err e, h) = (err e, h)

unfoldable pub with_loaded {ℓ} :
    {A : Type ℓ} → Action Hub A → (A → Action Hub (Unit {0})) → Action Hub (Unit {0})
with_loaded m f h =
    let (r, h') = m h in elim r [ ok a ↦ f a h' | err e ↦ skip_not_found (err e, h') ]

unfoldable pub when : Bool → Action Hub (Unit {0}) → Action Hub (Unit {0})
when b m h = if b then m h else (ok tt, h)

-- The state that `rules.Close` returns, whatever its error.
abbrev pub closed_state : Game → Game
closed_state g = record g { state = (close g.state).0 }

abbrev pub detach_player : ℕ → ℕ → Hub → Hub
detach_player player_id c h = if (h.conns c).player_id == player_id then detach_locked c h else h

unfoldable pub shut_game : ℕ → Game → Seat → Action Hub (Unit {0})
shut_game player_id g seat =
    on_store (save_game (closed_state g) 0 g.last_active_at)
    >> update_hub (λ h. each (detach_player player_id) (h.games g.id) h)
    >> update_hub (close_game_for (closed_state g) (game_closed_event player_expired seat))

-- What other goroutines do while `ExpirePlayer` holds no lock of a game.
pub record PlayerWaits : Type 0 where
  pub loading : Hub → Hub  -- until the player's open games are read
  pub closing : ℕ → Hub → Hub  -- until it has the lock of a game
  pub dropping : Hub → Hub  -- until the player's connection is looked up
  pub leaving : List (Hub → Hub)  -- while `detach` waits
  pub deleting : Hub → Hub  -- until the player is deleted

-- `wait` is what others do until the lock of the game is had.
unfoldable pub close_for_expired_player : (Hub → Hub) → ℕ → ℕ → Action Hub (Unit {0})
close_for_expired_player wait game_id player_id =
    update_hub wait
    >> with_loaded (on_store (get_game game_id)) λ g. elim (seat_of g player_id) [
      | none ↦ pure tt
      | some seat ↦ when (not (g.state.status == closed)) (shut_game player_id g seat)
    ]

unfoldable pub each_action : (ℕ → Action Hub (Unit {0})) → List ℕ → Action Hub (Unit {0})
each_action f [] h = (ok tt, h)
each_action f (i ∷ is) h =
    let (r, h') = f i h in elim r [ ok _ ↦ each_action f is h' | err e ↦ (err e, h') ]

unfoldable pub drop_connection : List (Hub → Hub) → Option ℕ → Hub → Hub
drop_connection waits none h = h
drop_connection waits (some c) h =
    detach waits c true (modify_conn c (close_conn close_player_expired) h)

unfoldable pub expire_player : PlayerWaits → ℕ → ℕ → Action Hub (Unit {0})
expire_player w cutoff player_id = with_loaded (on_store (get_player player_id)) λ p.
    when (ltb p.last_active_at cutoff) (
      update_hub w.loading >> on_store (open_game_ids_for_player player_id) >>= λ game_ids.
      each_action (λ i. close_for_expired_player (w.closing i) i player_id) game_ids
      >> update_hub w.dropping
      >> update_hub (λ h. drop_connection w.leaving (h.players player_id) h)
      >> update_hub w.deleting
      >> on_store (delete_player player_id))

-- `wait` is what others do until the lock of the game is had.
unfoldable pub expire_game : (Hub → Hub) → ℕ → ℕ → Action Hub (Unit {0})
expire_game wait cutoff game_id =
    update_hub wait
    >> with_loaded (on_store (get_game game_id)) λ g. when (ltb g.last_active_at cutoff) (
        gets (λ h. h.games game_id) >>= λ cs.
        update_hub (each detach_locked cs)
        >> update_hub (each (λ c. modify_conn c (close_conn close_game_expired)) cs)
        >> on_store (delete_game game_id))

-- What others do while a sweep holds no lock of a game. An id is in a list of ids at most once.
pub record SweepWaits : Type 0 where
  pub starting : ℕ → Hub → Hub  -- until a player is read
  pub of_player : ℕ → PlayerWaits
  pub turning : Hub → Hub  -- until the expired games are read
  pub of_game : ℕ → Hub → Hub  -- until it has the lock of a game

-- `SweepOnce`. A time before the epoch is 0: no instant is before either.
unfoldable pub sweep_once : SweepWaits → ℕ → ℕ → Action Hub (Unit {0})
sweep_once w player_ttl game_ttl = do
  now ← gets (λ h. h.now)
  ids ← on_store (expired_player_ids (now - player_ttl))
  each_action (λ i. update_hub (w.starting i) >> expire_player (w.of_player i) (now - player_ttl) i)
      ids
  update_hub w.turning
  game_ids ← on_store (expired_game_ids (now - game_ttl))
  each_action (λ i. expire_game (w.of_game i) (now - game_ttl) i) game_ids

-- A round of `Run`: the sweep, whose error is only logged, and what others do until the next tick.
pub record Tick : Type 0 where
  pub waits : SweepWaits
  pub until_next : Hub → Hub

-- `Run`: it sweeps at once, and then at every tick until its context is done.
unfoldable pub run_sweeper : ℕ → ℕ → Tick → List Tick → Hub → Hub
run_sweeper player_ttl game_ttl t [] h = (sweep_once t.waits player_ttl game_ttl h).1
run_sweeper player_ttl game_ttl t (next_tick ∷ ts) h =
    run_sweeper player_ttl game_ttl next_tick ts
      (t.until_next (sweep_once t.waits player_ttl game_ttl h).1)
