-- ===== src/Hub/Life.antt =====
-- The life of the hub, as the steps that the server takes with it: `NewConn` and `Disconnect` of
-- internal/ws/ws.go, `Handle`, the transport taking messages off a queue, the sweeper, the shutdown
-- and the passing of time.
use Prim.Native.String.{String}
use rps_backend.Hub.Attach.{Coherent, KeepsAttachment, modify-Coherent}
use rps_backend.Hub.Conn.{
  Message, enqueue, attachment_id, close_auth_timeout, close_conn, close_normal, error_reply,
  new_conn, take_message,
}
use rps_backend.Hub.Connect.{Fair}
use rps_backend.Hub.Defs.{Hub, close_all, disconnect, modify_conn, register, send_to}
use rps_backend.Hub.Dispatch.{handle}
use rps_backend.Hub.Expiry.{SweepWaits, sweep_once}
use rps_backend.Hub.Handle.{handle-Coherent}
use rps_backend.Hub.Invariant.{Coherent-Active}
use rps_backend.Hub.Keeps.{AllKeep, Coherent-Quiet, Coherent-Stable, Keeps, send_to-Keeps}
use rps_backend.Hub.Steps.{detach-Preserves}
use rps_backend.Hub.Support.{External, Waits}
use rps_backend.Hub.Sweep.{SweepCalm, close_all-Preserves, sweep_once-StepPreserves}
use rps_backend.Prelude.{List, [], arith, contains, none, refl, true, ℕ, ◌≡◌}
use rps_backend.Rules.Defs.{code}
use rps_backend.Store.Defs.{Store, Text}
use rps_backend.Store.Ids.{NoEmptyId}

-- What others do while one of them waits for a lock keeps the hub coherent (`Fair`, `AllKeep`,
-- `SweepCalm`).
pub data Step (h : Hub) : Hub → Type 0 where
  -- Go allocates a connection that nothing refers to yet.
  arrives : (h.conns h.next).attached ≡ none → Step h (register h).1
  handles :
      (x : External) (c : ℕ) (w : Waits) (name : String) (request_id raw : Text)
      → Fair c w
      → Step h (handle x name w c request_id raw h)
  rejects :
      (c : ℕ) (request_id : Text) (code_text text : String)
      → Step h (send_to c request_id (error_reply code_text text) h)
  -- The second half of a `send` that was overtaken by a close request.
  lands : (c : ℕ) (m : Message) → Step h (modify_conn c (enqueue m) h)
  times_out : (c : ℕ) → Step h (modify_conn c (close_conn close_auth_timeout) h)
  delivers : (c : ℕ) → Step h (modify_conn c (λ k. (take_message k).1) h)
  departs : (ws : List (Hub → Hub)) (c : ℕ) → AllKeep ws → Step h (disconnect ws c h)
  sweeps :
      (v : SweepWaits) (player_ttl game_ttl : ℕ)
      → SweepCalm Coherent v
      → Step h (sweep_once v player_ttl game_ttl h).1
  shuts_down : (code : ℕ) → Step h (close_all code h)
  -- A handler of internal/httpapi/httpapi.go writes to the database.
  writes : (s : Store) → (NoEmptyId h.store → NoEmptyId s) → Step h (record h { store = s })
  passes : (time : ℕ) → Step h (record h { now = time })

-- `New`: nobody is connected.
abbrev pub new_hub : Store → ℕ → Hub
new_hub s time = record {
  store = s;
  now = time;
  conns = λ _. new_conn;
  seen = [];
  live = [];
  next = 0;
  players = λ _. none;
  games = λ _. [];
}

pub data Reachable : Hub → Type 0 where
  starts : (s : Store) (time : ℕ) → NoEmptyId s → Reachable (new_hub s time)
  then_step : {h h' : Hub} → Reachable h → Step h h' → Reachable h'

pub register-Coherent :
    (h : Hub) → (h.conns h.next).attached ≡ none → Coherent h → Coherent (register h).1
unfolding register
register-Coherent h fresh k = record {
  agree = λ c g. ground (arith, k.agree c g, k.agree h.next g);
  proper = λ c. ground (arith, k.proper c);
  no_empty_id = k.no_empty_id;
}

pub disconnect-Keeps : (ws : List (Hub → Hub)) (c : ℕ) → AllKeep ws → Keeps (disconnect ws c)
unfolding disconnect
disconnect-Keeps ws c all h k =
    let m =
      detach-Preserves Coherent-Quiet ws all c true (modify_conn c (close_conn close_normal) h)
        (Coherent-Quiet.closed_one c close_normal h k) in
    record { agree = m.agree; proper = m.proper; no_empty_id = m.no_empty_id }

take_message-KeepsAttachment : KeepsAttachment (λ k. (take_message k).1)
unfolding take_message
take_message-KeepsAttachment k = ground arith

enqueue-KeepsAttachment : (m : Message) → KeepsAttachment (enqueue m)
unfolding close_conn
enqueue-KeepsAttachment m k = ground arith

Step-Coherent : {h h' : Hub} → Step h h' → Coherent h → Coherent h'
Step-Coherent {h} (arrives fresh) k = register-Coherent h fresh k
Step-Coherent {h} (handles x c w name request_id raw fair) k =
    handle-Coherent x c w fair name request_id raw h k
Step-Coherent {h} (rejects c request_id code_text text) k = send_to-Keeps c request_id _ h k
Step-Coherent {h} (lands c m) k = modify-Coherent c (enqueue m) h (enqueue-KeepsAttachment m) k
Step-Coherent {h} (times_out c) k = Coherent-Quiet.closed_one c close_auth_timeout h k
Step-Coherent {h} (delivers c) k =
    modify-Coherent c (λ m. (take_message m).1) h take_message-KeepsAttachment k
Step-Coherent {h} (departs ws c all) k = disconnect-Keeps ws c all h k
Step-Coherent {h} (sweeps v player_ttl game_ttl calm) k =
    sweep_once-StepPreserves Coherent-Active.writes v calm player_ttl game_ttl h k
Step-Coherent {h} (shuts_down code) k = close_all-Preserves Coherent-Active.writes code h k
Step-Coherent {h} (writes s keeps) k = Coherent-Stable.stored h s keeps k
Step-Coherent {h} (passes time) k = record {
  agree = k.agree;
  proper = k.proper;
  no_empty_id = k.no_empty_id;
}

Reachable-Coherent : {h : Hub} → Reachable h → Coherent h
Reachable-Coherent (starts s time k) = record {
  agree = λ c g. refl;
  proper = λ c. refl;
  no_empty_id = k;
}
Reachable-Coherent (then_step before step) = Step-Coherent step (Reachable-Coherent before)

-- In whatever way connections come, act, are replaced, expire and go: a connection that a game sends its
-- events to is attached to this game, and to it alone. What others do while one of them waits for a lock
-- keeps the sets of the games' connections and the connections' own games in agreement, and does not
-- attach a connection whose own handler waits.
pub Reachable-one_game :
    (h : Hub) (c g : ℕ)
    → Reachable h
    → contains c (h.games g) ≡ true
    → (attachment_id (h.conns c).attached ≡ g) × ((i : ℕ) → contains c (h.games i) ≡ true → i ≡ g)
Reachable-one_game h c g before there =
    let k = Reachable-Coherent before in
    (ground (arith, k.agree c g), λ i also. ground (arith, k.agree c g, k.agree c i))
