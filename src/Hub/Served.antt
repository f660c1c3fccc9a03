-- ===== src/Hub/Served.antt =====
-- What each operation of the server preserves, whichever predicate it is: the steps of the hub, the
-- sweeper, the shutdown and the handlers of internal/httpapi/httpapi.go.
use rps_backend.Api.Defs.{Chance, Library, get_health, post_game, post_player}
use rps_backend.Hub.Conn.{
  Message, enqueue, close_auth_timeout, close_conn, close_normal, take_message,
}
use rps_backend.Hub.Defs.{Hub, disconnect, modify_conn, register}
use rps_backend.Hub.Enter.{Free, connect-StepPreserves}
use rps_backend.Hub.Handle.{handle-Preserves}
use rps_backend.Hub.Operations.{
  HubOp, Others, op_acts, op_arrives, op_checks_health, op_creates_game, op_creates_player,
  op_delivers, op_departs, op_lands, op_passes, op_rejects, op_shuts_down, op_sweeps, op_times_out,
  run_op, run_ops,
}
use rps_backend.Hub.Steps.{Preserves, detach-Preserves}
use rps_backend.Hub.Sweep.{close_all-Preserves, sweep_once-StepPreserves}
use rps_backend.Prelude.{All, List, Option, [], true, ℕ, ◌∷◌}
use rps_backend.Store.Defs.{Text}

-- `Fits` is what an operation has to meet besides.
pub record Served (Fits : HubOp → Type 0) (P : Hub → Type 0) : Type 0 where
  pub free : Free P
  pub arrived : (h : Hub) → P h → P (register h).1
  pub landed : (c : ℕ) (m : Message) → Preserves P (modify_conn c (enqueue m))
  pub delivered : (c : ℕ) → Preserves P (modify_conn c (λ k. (take_message k).1))
  pub forgotten :
      (h : Hub) (players : ℕ → Option ℕ) (live : List ℕ)
      → P h
      → P (record h { players = players; live = live })
  pub passed : (h : Hub) (time : ℕ) → P h → P (record h { now = time })
  pub player_created :
      (lib : Library) (ch : Chance) (body : Text) (h : Hub)
      → Others P (op_creates_player lib ch body)
      → P h
      → P (record h { store = (post_player lib ch body h.store).1 })
  pub game_created :
      (lib : Library) (ch : Chance) (body : Text) (h : Hub)
      → Fits (op_creates_game lib ch body)
      → P h
      → P (record h { store = (post_game lib ch body h.store).1 })
  pub health_checked : (h : Hub) → P h → P (record h { store = (get_health h.store).1 })

module _ {Fits : HubOp → Type 0} {P : Hub → Type 0} (k : Served Fits P) where
  pub run_op-Served : (op : HubOp) → Others P op → Fits op → Preserves P (run_op op)
  unfolding run_op disconnect close_conn
  run_op-Served op_arrives others fits h q = k.arrived h q
  run_op-Served (op_acts x w name c request_id raw) (leaving, entering) fits h q =
      handle-Preserves k.free.active x c w leaving entering
        (λ rid body. connect-StepPreserves k.free x w c rid body leaving entering) name request_id
        raw h q
  run_op-Served (op_lands c request_id body) others fits h q =
      k.landed c (record { request_id = request_id; body = body }) h q
  run_op-Served (op_rejects c request_id body) others fits h q =
      k.free.active.sent c request_id body h q
  run_op-Served (op_times_out c) others fits h q =
      k.free.active.writes.quiet.closed_one c close_auth_timeout h q
  run_op-Served (op_delivers c) others fits h q = k.delivered c h q
  run_op-Served (op_departs ws c) others fits h q = k.forgotten _ _ _ (
      detach-Preserves k.free.active.writes.quiet ws others c true
        (modify_conn c (close_conn close_normal) h)
        (k.free.active.writes.quiet.closed_one c close_normal h q))
  run_op-Served (op_sweeps v player_ttl game_ttl) others fits h q =
      sweep_once-StepPreserves k.free.active.writes v others player_ttl game_ttl h q
  run_op-Served (op_shuts_down status) others fits h q =
      close_all-Preserves k.free.active.writes status h q
  run_op-Served (op_creates_player lib ch body) others fits h q =
      k.player_created lib ch body h others q
  run_op-Served (op_creates_game lib ch body) others fits h q = k.game_created lib ch body h fits q
  run_op-Served op_checks_health others fits h q = k.health_checked h q
  run_op-Served (op_passes time) others fits h q = k.passed h time q

  -- Any sequence of operations.
  pub run_ops-Served :
      (ops : List HubOp) → All (Others P) ops → All Fits ops → Preserves P (run_ops ops)
  unfolding run_ops
  run_ops-Served [] others fits h q = q
  run_ops-Served (op ∷ ops) others fits h q =
      run_ops-Served ops others.1 fits.1 (run_op op h) (run_op-Served op others.0 fits.0 h q)
