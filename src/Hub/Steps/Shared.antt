-- ===== src/Hub/Steps/Shared.antt =====
-- The steps that the operations of the hub share. Whatever a message, a close request, a detachment
-- and a store method preserve, each of these steps preserves.
use rps_backend.Errors.{Action, Result, err, if_not_found, not_found, not_in_game, ok, proto, pure}
use rps_backend.Hub.Conn.{
  Attachment, Body, attachment_id, close_conn, close_replaced, connection_replaced,
  game_state_event, opponent_connected, opponent_disconnected,
}
use rps_backend.Hub.Defs.{
  GameView, Hub, broadcast_state, close_game_for, detach, detach_locked, detach_now, modify_conn,
  name_of, notify, on_store, seat_name, send_all_closed, send_closed, send_opponents, send_snapshot,
  send_views, snapshot_for, tell_left, view,
}
use rps_backend.Hub.Support.{greet, leave_other, load_attached, replace_old, with_game}
use rps_backend.Prelude.{Bool, List, Option, [], arith, false, none, some, true, ℕ, ◌∷◌}
use rps_backend.Rules.Defs.{Seat, guest, host, other}
use rps_backend.Store.Defs.{Game, Player, Store, get_game, get_player, player_id_of}
use rps_backend.Store.Reads.{ReadsOnly, get_game-ReadsOnly, get_player-ReadsOnly}
use rps_backend.Hub.Steps.Core.{
  AllPreserve, Preserves, Quiet, StepPreserves, bind-StepPreserves, each-Preserves,
  if_not_found-StepPreserves,
}

module _ {P : Hub → Type 0} (st : Quiet P) where
  tell_left-Preserves : (loud : Bool) (a : Option Attachment) → Preserves P (tell_left loud a)
  unfolding tell_left
  tell_left-Preserves loud none h k = k
  tell_left-Preserves false (some a) h k = k
  tell_left-Preserves true (some a) h k =
      each-Preserves P _ (λ o. st.notified o (opponent_disconnected a.seat)) (h.games a.game_id) h k

  detach_now-Preserves : (c : ℕ) (loud : Bool) → Preserves P (detach_now c loud)
  unfolding detach_now
  detach_now-Preserves c loud h k =
      tell_left-Preserves loud (h.conns c).attached (detach_locked c h) (st.detached_one c h k)

  pub detach-Preserves :
      (ws : List (Hub → Hub))
      → AllPreserve P ws
      → (c : ℕ) (loud : Bool) → Preserves P (detach ws c loud)
  unfolding detach
  detach-Preserves [] all c loud h k = detach_now-Preserves c loud h k
  detach-Preserves (w ∷ ws) all c loud h k =
      ground (
        arith,
        all.0 h k,
        detach_now-Preserves c loud (w h),
        detach-Preserves ws all.1 c loud (w h),
      )

  pub query-StepPreserves {ℓ} :
      {A : Type ℓ} (m : Action Store A) → ReadsOnly m → StepPreserves P (on_store m)
  unfolding on_store
  query-StepPreserves m reads h k = st.queried h (m h.store).1 (reads h.store) k

  load_attached-StepPreserves :
      (c game_id : ℕ) (a : Option Attachment) → StepPreserves P (load_attached c game_id a)
  unfolding load_attached
  load_attached-StepPreserves c game_id none h k = k
  load_attached-StepPreserves c game_id (some a) h k = ground (
    arith,
    bind-StepPreserves P {B = Game × Attachment × ℕ}
        (if_not_found (proto not_in_game) (on_store (get_game game_id)))
        (λ g. pure (g, a, (h.conns c).player_id))
        (if_not_found-StepPreserves P (proto not_in_game) (on_store (get_game game_id))
          (query-StepPreserves (get_game game_id) (get_game-ReadsOnly game_id)))
        (λ _ h k. k) h k,
  )

  pub with_game-StepPreserves :
      (wait : Hub → Hub) (c : ℕ) → Preserves P wait → StepPreserves P (with_game wait c)
  unfolding with_game
  with_game-StepPreserves wait c keeps h k = ground (
    arith,
    load_attached-StepPreserves c (attachment_id (h.conns c).attached) ((wait h).conns c).attached
        (wait h) (keeps h k),
  )

  name_of-P : (r : Result Player × Hub) → P r.1 → P (name_of r).1
  unfolding name_of
  name_of-P (ok p, h) k = k
  name_of-P (err not_found, h) k = k
  name_of-P (err _, h) k = k

  seat_name-StepPreserves : (g : Game) (seat : Seat) → StepPreserves P (seat_name g seat)
  unfolding seat_name
  seat_name-StepPreserves g seat h k =
      let i = player_id_of g seat in
      ground (
        arith,
        name_of-P (on_store (get_player i) h)
            (query-StepPreserves (get_player i) (get_player-ReadsOnly i) h k),
      )

  pub view-StepPreserves : (g : Game) → StepPreserves P (view g)
  unfolding view
  view-StepPreserves g =
      bind-StepPreserves P _ _ (seat_name-StepPreserves g host)
        λ a. bind-StepPreserves P _ _ (seat_name-StepPreserves g guest) λ b h k. k

  send_snapshot-Preserves :
      (v : GameView) (a : Option Attachment) (c : ℕ) → Preserves P (send_snapshot v a c)
  send_snapshot-Preserves v none c h k = k
  send_snapshot-Preserves v (some a) c h k =
      st.notified c (game_state_event (snapshot_for v a.seat)) h k

  send_views-P : (game_id : ℕ) (r : Result GameView × Hub) → P r.1 → P (send_views game_id r)
  unfolding send_views
  send_views-P game_id (ok v, h) k =
      each-Preserves P _ (λ c h k. send_snapshot-Preserves v (h.conns c).attached c h k)
        (h.games game_id) h k
  send_views-P game_id (err _, h) k = k

  pub broadcast_state-Preserves : (g : Game) → Preserves P (broadcast_state g)
  unfolding broadcast_state
  broadcast_state-Preserves g h k = send_views-P g.id (view g h) (view-StepPreserves g h k)

  pub send_opponents-Preserves :
      (c game_id : ℕ) (body : Body) → Preserves P (send_opponents c game_id body)
  unfolding send_opponents
  send_opponents-Preserves c game_id body h k =
      each-Preserves P _ (λ o h k. ground (arith, st.notified o body h k)) (h.games game_id) h k

  send_closed-Preserves :
      (r : Result GameView) (body : Body) (a : Option Attachment) (c : ℕ)
      → Preserves P (send_closed r body a c)
  send_closed-Preserves (ok v) body a c h k =
      send_snapshot-Preserves v a c (notify c body h) (st.notified c body h k)
  send_closed-Preserves (err _) body a c h k = st.notified c body h k

  send_all_closed-P :
      (game_id : ℕ) (body : Body) (r : Result GameView × Hub)
      → P r.1
      → P (send_all_closed game_id body r)
  unfolding send_all_closed
  send_all_closed-P game_id body (r, h) k =
      each-Preserves P _ (λ c. send_closed-Preserves r body (h.conns c).attached c)
        (h.games game_id) _ (each-Preserves P detach_locked st.detached_one (h.games game_id) h k)

  pub close_game_for-Preserves : (g : Game) (body : Body) → Preserves P (close_game_for g body)
  unfolding close_game_for
  close_game_for-Preserves g body h k =
      send_all_closed-P g.id body (view g h) (view-StepPreserves g h k)

  pub replace_old-Preserves :
      (ws : List (Hub → Hub)) (old : Option ℕ) (c : ℕ)
      → AllPreserve P ws
      → Preserves P (replace_old ws old c)
  unfolding replace_old
  replace_old-Preserves ws none c all h k = k
  replace_old-Preserves ws (some o) c all h k = ground (
    arith,
    detach-Preserves ws all o true
        (modify_conn o (close_conn close_replaced) (notify o connection_replaced h))
        (st.closed_one o close_replaced (notify o connection_replaced h)
          (st.notified o connection_replaced h k)),
  )

  pub leave_other-Preserves :
      (ws : List (Hub → Hub)) (c game_id : ℕ)
      → AllPreserve P ws
      → Preserves P (leave_other ws c game_id)
  unfolding leave_other
  leave_other-Preserves ws c game_id all h k = ground (arith, detach-Preserves ws all c true h k)

  pub greet-Preserves : (v : GameView) (c : ℕ) (seat : Seat) → Preserves P (greet v c seat)
  unfolding greet
  greet-Preserves v c seat h k =
      each-Preserves P _
        (λ o h k.
          let body = game_state_event (snapshot_for v (other seat)) in
          ground (
            arith,
            st.notified o body (notify o (opponent_connected seat) h)
                (st.notified o (opponent_connected seat) h k),
          ))
        (h.games v.g.id) h k
