-- ===== src/Hub/Operations.antt =====
-- All that the server does with the hub and its database, as operations in a sequence, and the changes
-- that they make to one connection.

use Prim.Native.String.{String}
use rps_backend.Api.Defs.{Chance, Library, get_health, post_game, post_player}
use rps_backend.Hub.Conn.{
  Body, Conn, Message, close_auth_timeout, close_conn, enqueue, is_closing, send, send_buffer,
  take_message,
}
use rps_backend.Hub.Defs.{Hub, close_all, disconnect, modify_conn, register, send_to}
use rps_backend.Hub.Dispatch.{handle}
use rps_backend.Hub.Expiry.{SweepWaits, sweep_once}
use rps_backend.Hub.Sweep.{SweepCalm}
use rps_backend.Hub.Steps.{AllPreserve, Preserves}
use rps_backend.Hub.Support.{External, Waits}
use rps_backend.Prelude.{All, List, [], arith, length, length-append, some, ℕ, ◌∷◌, ◌≡◌, ◌≤◌}
use rps_backend.Store.Defs.{Text}

-- `op_lands` is the second half of a `send` that was overtaken by a close request.
pub data HubOp : Type 0 where
  op_arrives : HubOp
  op_acts : (x : External) (w : Waits) (name : String) (c : ℕ) (request_id raw : Text) → HubOp
  op_lands : (c : ℕ) (request_id : Text) (body : Body) → HubOp
  op_rejects : (c : ℕ) (request_id : Text) (body : Body) → HubOp
  op_times_out : (c : ℕ) → HubOp
  op_delivers : (c : ℕ) → HubOp
  op_departs : (ws : List (Hub → Hub)) (c : ℕ) → HubOp
  op_sweeps : (v : SweepWaits) (player_ttl game_ttl : ℕ) → HubOp
  op_shuts_down : (status : ℕ) → HubOp
  op_creates_player : (lib : Library) (ch : Chance) (body : Text) → HubOp
  op_creates_game : (lib : Library) (ch : Chance) (body : Text) → HubOp
  op_checks_health : HubOp
  op_passes : (time : ℕ) → HubOp

unfoldable pub run_op : HubOp → Hub → Hub
unfolding close_conn
run_op op_arrives h = (register h).1
run_op (op_acts x w name c request_id raw) h = handle x name w c request_id raw h
run_op (op_lands c request_id body) h =
    modify_conn c (enqueue (record { request_id = request_id; body = body })) h
run_op (op_rejects c request_id body) h = send_to c request_id body h
run_op (op_times_out c) h = modify_conn c (close_conn close_auth_timeout) h
run_op (op_delivers c) h = modify_conn c (λ k. (take_message k).1) h
run_op (op_departs ws c) h = disconnect ws c h
run_op (op_sweeps v player_ttl game_ttl) h = (sweep_once v player_ttl game_ttl h).1
run_op (op_shuts_down status) h = close_all status h
run_op (op_creates_player lib ch body) h = record h { store = (post_player lib ch body h.store).1 }
run_op (op_creates_game lib ch body) h = record h { store = (post_game lib ch body h.store).1 }
run_op op_checks_health h = record h { store = (get_health h.store).1 }
run_op (op_passes time) h = record h { now = time }

unfoldable pub run_ops : List HubOp → Hub → Hub
run_ops [] h = h
run_ops (op ∷ ops) h = run_ops ops (run_op op h)

-- What others do while an operation waits preserves `P` as well.
abbrev pub Others : (Hub → Type 0) → HubOp → Type 0
Others P (op_acts x w name c request_id raw) = AllPreserve P w.leaving × Preserves P w.entering
Others P (op_departs ws c) = AllPreserve P ws
Others P (op_sweeps v player_ttl game_ttl) = SweepCalm P v
Others P (op_creates_player lib ch body) =
    All (λ race. (h : Hub) → P h → P (record h { store = race h.store })) ch.races
Others P _ = Unit

-- A change to a connection.
abbrev pub Mild : Conn → Conn → Type 0
Mild k k' =
    (length k.out ≤ send_buffer → length k'.out ≤ send_buffer)
    × ((status : ℕ) → k.closing ≡ some status → k'.closing ≡ some status)

pub enqueue-Mild : (m : Message) (k : Conn) → Mild k (enqueue m k)
unfolding close_conn
enqueue-Mild m k = (λ short. ground (arith, length-append k.out (m ∷ [])), λ status e. ground arith)

pub send-Mild : (m : Message) (k : Conn) → Mild k (send m k)
unfolding send close_conn is_closing
send-Mild m k = (λ short. ground (arith, length-append k.out (m ∷ [])), λ status e. ground arith)

pub close_conn-Mild : (status : ℕ) (k : Conn) → Mild k (close_conn status k)
unfolding close_conn is_closing
close_conn-Mild status k = (λ short. ground arith, λ code_is e. ground arith)

pub take_message-Mild : (k : Conn) → Mild k (take_message k).1
unfolding take_message
take_message-Mild k = (λ short. ground arith, λ status e. ground arith)
