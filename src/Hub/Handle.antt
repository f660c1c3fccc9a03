-- ===== src/Hub/Handle.antt =====
-- `Handle` as a whole: what every action preserves, and the invariant of the registry.
use Prim.Native.String.{String}
use rps_backend.Errors.{Result, err, not_authenticated, not_in_game, ok, proto}
use rps_backend.Hub.Actions.{connect}
use rps_backend.Hub.Attach.{Coherent}
use rps_backend.Hub.Conn.{
  ClientAction, action_authenticate, action_connect, action_leave, action_move, action_rematch,
  action_rematch_decline,
}
use rps_backend.Hub.Connect.{Fair, connect-StepKeeps}
use rps_backend.Hub.Defs.{Hub}
use rps_backend.Hub.Dispatch.{action_of, error_body, handle, handle_found, reply_result, run_action}
use rps_backend.Hub.Invariant.{
  Active, Coherent-Active, authenticate-StepPreserves, leave-StepPreserves, move-StepPreserves,
  rematch_action-StepPreserves, rematch_decline-StepPreserves,
}
use rps_backend.Hub.Steps.{AllPreserve, Preserves, StepPreserves}
use rps_backend.Hub.Support.{External, Waits}
use rps_backend.Prelude.{Option, arith, none, some, ℕ}
use rps_backend.Store.Defs.{Text}

module _ {P : Hub → Type 0} (k : Active P) (x : External) (c : ℕ) (w : Waits)
    (leaving : AllPreserve P w.leaving) (entering : Preserves P w.entering)
    (connects : (request_id raw : Text) → StepPreserves P (connect x w c request_id raw)) where
  reply_result-P :
      (request_id : Text) (r : Result (Unit {0}) × Hub) → P r.1 → P (reply_result c request_id r)
  reply_result-P request_id (ok _, h) q = q
  reply_result-P request_id (err e, h) q = k.sent c request_id (error_body e) h q

  run_action-StepPreserves :
      (action : ClientAction) (request_id raw : Text)
      → StepPreserves P (run_action x action w c request_id raw)
  unfolding run_action
  run_action-StepPreserves action_authenticate request_id raw =
      authenticate-StepPreserves k x w c request_id raw leaving
  run_action-StepPreserves action_connect request_id raw = connects request_id raw
  run_action-StepPreserves action_move request_id raw =
      move-StepPreserves k x w c request_id raw entering
  run_action-StepPreserves action_rematch request_id raw =
      rematch_action-StepPreserves k w c request_id entering
  run_action-StepPreserves action_rematch_decline request_id raw =
      rematch_decline-StepPreserves k w c request_id entering
  run_action-StepPreserves action_leave request_id raw =
      leave-StepPreserves k w c request_id entering

  handle_found-Preserves :
      (found : Option ClientAction) (request_id raw : Text)
      → Preserves P (handle_found x found w c request_id raw)
  unfolding handle_found
  handle_found-Preserves none request_id raw h q = k.sent c request_id _ h q
  handle_found-Preserves (some action) request_id raw h q = ground (
    arith,
    k.sent c request_id (error_body (proto not_authenticated)) h q,
    k.sent c request_id (error_body (proto not_in_game)) h q,
    reply_result-P request_id (run_action x action w c request_id raw h)
        (run_action-StepPreserves action request_id raw h q),
  )

  pub handle-Preserves :
      (name : String) (request_id raw : Text) → Preserves P (handle x name w c request_id raw)
  unfolding handle
  handle-Preserves name request_id raw h q =
      ground (arith, handle_found-Preserves (action_of name) request_id raw h q)

-- Whatever a client sends, and whatever other goroutines do to the hub while the handler waits for
-- a lock (keeping the invariant, and not attaching this connection themselves), afterwards the
-- sets of the games' connections and the connections' own games agree as before.
pub handle-Coherent :
    (x : External) (c : ℕ) (w : Waits)
    → Fair c w
    → (name : String) (request_id raw : Text) (h : Hub) → Coherent h
    → Coherent (handle x name w c request_id raw h)
handle-Coherent x c w fair name request_id raw =
    handle-Preserves Coherent-Active x c w fair.leaving_keeps fair.entering_keeps
      (connect-StepKeeps x c w fair) name request_id raw
