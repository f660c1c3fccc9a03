-- ===== src/Hub/Sweep.antt =====
-- What a message, a close request, a detachment and a store method preserve, `Disconnect`, `CloseAll`
-- and the expiry of players and games preserve as well.
use rps_backend.Errors.{
  Action, Error, Result, err, failure, not_found, ok, proto, pure, rule, unique_violation,
  username_exhausted, ◌>>=◌, ◌>>◌,
}
use rps_backend.Hub.Support.{update_hub}
use rps_backend.Hub.Conn.{
  close_game_expired, close_player_expired, game_closed_event, player_expired,
}
use rps_backend.Hub.Defs.{Hub, close_all, detach_locked}
use rps_backend.Hub.Expiry.{
  PlayerWaits, SweepWaits, Tick, close_for_expired_player, closed_state, drop_connection,
  each_action, expire_game, expire_player, run_sweeper, shut_game, skip_not_found, sweep_once, when,
  with_loaded,
}
use rps_backend.Hub.Follows.{closed_state-Follows}
use rps_backend.Hub.Steps.{
  AllPreserve, EndsIn, Holding, Leads, Preserves, Run, Run-bind, StepPreserves, Writes,
  bind-StepPreserves, keeps-Leads, get_game-Leads, query-StepPreserves, close_game_for-Preserves,
  detach-Preserves, each-Preserves,
}
use rps_backend.Prelude.{
  All, Bool, Bool-cases, List, inl, inr, Option, [], arith, false, nat_eq, none, not, some, true, ℕ,
  ◌==◌, ◌∷◌,
}
use rps_backend.Rules.Defs.{Seat, closed, code, move_eq, seat_eq, status_eq}
use rps_backend.Store.Defs.{Game, seat_of, text_eq}
use rps_backend.Store.Reads.{
  get_player-ReadsOnly, get_game-ReadsOnly, expired_player_ids-ReadsOnly,
  expired_game_ids-ReadsOnly, open_game_ids-ReadsOnly,
}

-- What others do while a player expires, or while a sweep goes on, preserves `P`.
pub record PlayerCalm (P : Hub → Type 0) (v : PlayerWaits) : Type 0 where
  pub loading : Preserves P v.loading
  pub closing : (i : ℕ) → Preserves P (v.closing i)
  pub dropping : Preserves P v.dropping
  pub leaving : AllPreserve P v.leaving
  pub deleting : Preserves P v.deleting

pub record SweepCalm (P : Hub → Type 0) (v : SweepWaits) : Type 0 where
  pub starting : (i : ℕ) → Preserves P (v.starting i)
  pub of_player : (i : ℕ) → PlayerCalm P (v.of_player i)
  pub turning : Preserves P v.turning
  pub of_game : (i : ℕ) → Preserves P (v.of_game i)

module _ {P : Hub → Type 0} (w : Writes P) where
  -- What others do first.
  wait-StepPreserves {ℓ} :
      {A : Type ℓ} (wait : Hub → Hub) (m : Action Hub A)
      → Preserves P wait
      → StepPreserves P m
      → StepPreserves P (update_hub wait >> m)
  unfolding ◌>>=◌
  wait-StepPreserves wait m calm keeps h k = keeps (wait h) (calm h k)

  each_action-StepPreserves :
      (f : ℕ → Action Hub (Unit {0}))
      → ((i : ℕ) → StepPreserves P (f i))
      → (is : List ℕ) → StepPreserves P (each_action f is)
  unfolding each_action
  each_action-StepPreserves f keeps [] h k = k
  each_action-StepPreserves f keeps (i ∷ is) h k =
      go (each_action-StepPreserves f keeps is) (f i h) (keeps i h k)
    where
      go :
          StepPreserves P (each_action f is)
          → (r : Result (Unit {0}) × Hub) → P r.1
          → P
              (elim r.0 as (λ x. Result (Unit {0}) × Hub) [
                | ok _ ↦ each_action f is r.1
                | err e ↦ (err e, r.1)
              ]).1
      go rest (ok a, h') q = rest h' q
      go rest (err e, h') q = q

  skip_not_found-P : (e : Error) (h : Hub) → P h → P (skip_not_found (err e, h)).1
  skip_not_found-P not_found h k = k
  skip_not_found-P (rule e) h k = k
  skip_not_found-P (proto e) h k = k
  skip_not_found-P username_exhausted h k = k
  skip_not_found-P unique_violation h k = k
  skip_not_found-P failure h k = k

  with_loaded-StepPreserves {ℓ} :
      {A : Type ℓ} (Q : A → Hub → Type 0) (m : Action Hub A) (f : A → Action Hub (Unit {0}))
      → Leads P P Q m
      → ((a : A) → Run (Q a) P (f a))
      → StepPreserves P (with_loaded m f)
  unfolding with_loaded
  with_loaded-StepPreserves {A} Q m f first next h k = go (m h) (first h k)
    where
      go :
          (r : Result A × Hub)
          → EndsIn P Q r
          → P
              (elim r.0 as (λ x. Result (Unit {0}) × Hub) [
                | ok a ↦ f a r.1
                | err e ↦ skip_not_found (err e, r.1)
              ]).1
      go (ok a, h') q = next a h' q
      go (err e, h') q = skip_not_found-P e h' q

  when-StepPreserves :
      (b : Bool) (m : Action Hub (Unit {0})) → StepPreserves P m → StepPreserves P (when b m)
  unfolding when
  when-StepPreserves true m keeps h k = keeps h k
  when-StepPreserves false m keeps h k = k

  -- A game is closed over the row that was read.
  shut_game-Run :
      (player_id : ℕ) (g : Game) (seat : Seat) → Run (Holding P g) P (shut_game player_id g seat)
  unfolding shut_game
  shut_game-Run player_id g seat =
      Run-bind (Holding P g) P P _ _ (λ h k. k)
        (Run-bind (Holding P g) P P _ _ (λ h k. k)
          (w.saved g (closed_state g) 0 g.last_active_at (closed_state-Follows g))
          λ _ h k.
            each-Preserves P _ (λ c h k. ground (arith, w.quiet.detached_one c h k)) (h.games g.id)
              h k)
        λ _.
          close_game_for-Preserves w.quiet (closed_state g) (game_closed_event player_expired seat)

  seated-Run :
      (player_id : ℕ) (g : Game) (o : Option Seat)
      → Run (Holding P g) P (elim o as (λ _. Action Hub (Unit {0})) [
        | none ↦ pure tt
        | some seat ↦ when (not (g.state.status == closed)) (shut_game player_id g seat)
      ])
  unfolding when
  seated-Run player_id g none h k = k.0
  seated-Run player_id g (some seat) h k = elim (Bool-cases (not (g.state.status == closed))) [
    | inl still ↦ rw still (shut_game-Run player_id g seat h k)
    | inr over ↦ rw over k.0
  ]

  close_for_expired_player-StepPreserves :
      (wait : Hub → Hub) (game_id player_id : ℕ)
      → Preserves P wait
      → StepPreserves P (close_for_expired_player wait game_id player_id)
  unfolding close_for_expired_player
  close_for_expired_player-StepPreserves wait game_id player_id calm =
      wait-StepPreserves wait _ calm (
        with_loaded-StepPreserves (Holding P) _ _ (get_game-Leads w game_id)
          λ g. seated-Run player_id g (seat_of g player_id))

  drop_connection-Preserves :
      (ws : List (Hub → Hub)) (o : Option ℕ) → AllPreserve P ws → Preserves P (drop_connection ws o)
  unfolding drop_connection
  drop_connection-Preserves ws none all h k = k
  drop_connection-Preserves ws (some c) all h k =
      detach-Preserves w.quiet ws all c true _ (w.quiet.closed_one c close_player_expired h k)

  expire_player-StepPreserves :
      (v : PlayerWaits)
      → PlayerCalm P v
      → (cutoff player_id : ℕ) → StepPreserves P (expire_player v cutoff player_id)
  unfolding expire_player
  expire_player-StepPreserves v calm cutoff player_id =
      with_loaded-StepPreserves (λ _. P) _ _
        (keeps-Leads P _ (query-StepPreserves w.quiet _ (get_player-ReadsOnly player_id)))
        λ p. when-StepPreserves _ _ (
          bind-StepPreserves P _ _
            (wait-StepPreserves v.loading _ calm.loading
              (query-StepPreserves w.quiet _ (open_game_ids-ReadsOnly player_id)))
            λ ids.
              bind-StepPreserves P _ _
                (bind-StepPreserves P _ _
                  (bind-StepPreserves P _ _
                    (bind-StepPreserves P _ _
                      (each_action-StepPreserves _
                        (λ i.
                          close_for_expired_player-StepPreserves (v.closing i) i player_id
                            (calm.closing i))
                        ids)
                      λ _ h k. calm.dropping h k)
                    λ _ h k.
                      drop_connection-Preserves v.leaving (h.players player_id) calm.leaving h k)
                  λ _ h k. calm.deleting h k)
                λ _. w.erased_player player_id)

  expire_game-StepPreserves :
      (wait : Hub → Hub) (cutoff game_id : ℕ)
      → Preserves P wait
      → StepPreserves P (expire_game wait cutoff game_id)
  unfolding expire_game
  expire_game-StepPreserves wait cutoff game_id calm = wait-StepPreserves wait _ calm (
      with_loaded-StepPreserves (λ _. P) _ _
        (keeps-Leads P _ (query-StepPreserves w.quiet _ (get_game-ReadsOnly game_id)))
        λ g. when-StepPreserves _ _ (
          bind-StepPreserves P _ _ (λ h k. k)
            λ cs.
              bind-StepPreserves P _ _
                (bind-StepPreserves P _ _ (each-Preserves P detach_locked w.quiet.detached_one cs)
                  λ _. each-Preserves P _ (λ c. w.quiet.closed_one c close_game_expired) cs)
                λ _. w.erased_game game_id))

  pub close_all-Preserves : (code : ℕ) → Preserves P (close_all code)
  unfolding close_all
  close_all-Preserves code h k = each-Preserves P _ (λ c. w.quiet.closed_one c code) h.live h k

  pub sweep_once-StepPreserves :
      (v : SweepWaits)
      → SweepCalm P v
      → (player_ttl game_ttl : ℕ) → StepPreserves P (sweep_once v player_ttl game_ttl)
  unfolding sweep_once
  sweep_once-StepPreserves v calm player_ttl game_ttl =
      bind-StepPreserves P _ _ (λ h k. k)
        λ now.
          bind-StepPreserves P _ _ (query-StepPreserves w.quiet _ (expired_player_ids-ReadsOnly _))
            λ ids.
              bind-StepPreserves P _ _
                (each_action-StepPreserves _
                  (λ i.
                    wait-StepPreserves (v.starting i) _ (calm.starting i)
                      (expire_player-StepPreserves (v.of_player i) (calm.of_player i) _ i))
                  ids)
                λ _. wait-StepPreserves v.turning _ calm.turning (
                  bind-StepPreserves P _ _
                    (query-StepPreserves w.quiet _ (expired_game_ids-ReadsOnly _))
                    λ game_ids.
                      each_action-StepPreserves _
                        (λ i. expire_game-StepPreserves (v.of_game i) _ i (calm.of_game i))
                        game_ids)

  abbrev pub Calm : Tick → Type 0
  Calm t = SweepCalm P t.waits × Preserves P t.until_next

  -- Also where sweeps fail, the sweeper's loop preserves what others preserve meanwhile.
  run_sweeper-Preserves :
      (player_ttl game_ttl : ℕ) (t : Tick) (ts : List Tick)
      → All Calm (t ∷ ts)
      → Preserves P (run_sweeper player_ttl game_ttl t ts)
  unfolding run_sweeper
  run_sweeper-Preserves player_ttl game_ttl t [] calm h k =
      sweep_once-StepPreserves t.waits calm.0.0 player_ttl game_ttl h k
  run_sweeper-Preserves player_ttl game_ttl t (u ∷ ts) calm h k =
      run_sweeper-Preserves player_ttl game_ttl u ts calm.1 _
        (calm.0.1 _ (sweep_once-StepPreserves t.waits calm.0.0 player_ttl game_ttl h k))
