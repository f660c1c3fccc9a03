-- ===== src/Main/Defs.antt =====
-- `main`, `healthcheck` and `serve` of cmd/rps-backend/main.go. The process is what it holds open, and the
-- hub; what other goroutines do with the hub while `serve` waits is an argument.
use Prim.Native.String.{String}
use rps_backend.Config.Defs.{Config, Load, Platform, codes, load, loaded, rejected}
use rps_backend.Hub.Conn.{close_normal}
use rps_backend.Hub.Defs.{Hub, close_all}
use rps_backend.Prelude.{
  Bool, List, Option, [], false, if◌then◌else◌, nat_eq, none, not, some, true, ℕ, ◌==◌, ◌∷◌,
}
use rps_backend.Store.Defs.{Text, text_eq}
use rps_backend.Ws.Group.{HandlerStage}

pub data Command : Type 0 where
  serve_command healthcheck_command : Command

-- The command, and the arguments that are left for the flags.
unfoldable pub choose : List Text → Command × List Text
choose [] = (serve_command, [])
choose (a ∷ rest) =
    if a == codes "serve"
    then (serve_command, rest)
    else if a == codes "healthcheck"
    then (healthcheck_command, rest)
    else (serve_command, a ∷ rest)

-- What `client.Get` returns: the status, none for an error.
unfoldable pub healthcheck : Option ℕ → ℕ
healthcheck none = 1
healthcheck (some status) = if not (status == 200) then 1 else 0

pub record Process : Type 0 where
  pub hub : Hub
  pub database : Bool  -- is open
  pub sweeper : Bool  -- its goroutine runs
  pub listener : Bool  -- `ListenAndServe` accepts connections
  pub handlers : List HandlerStage  -- how far `ServeHTTP` has come for each WebSocket

-- What others do with the hub: until the server ends, while `serve` waits for the sweeper, while
-- `Shutdown` waits for requests, and while it waits for the handlers of connections.
pub record Meanwhile : Type 0 where
  pub serving : Hub → Hub
  pub sweeping : Hub → Hub
  pub draining : Hub → Hub
  pub waiting : Hub → Hub
  pub remaining : List HandlerStage  -- the handlers of WebSockets when `Wait` returns

pub data Ending : Type 0 where
  listener_fails signalled : Ending

abbrev pub others : (Hub → Hub) → Process → Process
others w p = record p { hub = w p.hub }

abbrev pub open_database : Process → Process
open_database p = record p { database = true }

abbrev pub start : Process → Process
start p = record p { sweeper = true; listener = true }

-- `stopSweep` and the wait for `sweepDone`.
abbrev pub stop_sweeper : (Hub → Hub) → Process → Process
stop_sweeper w p = record (others w p) { sweeper = false }

abbrev pub shutdown : (Hub → Hub) → Process → Process
shutdown w p = record (others w p) { listener = false }

abbrev pub close_connections : Process → Process
close_connections p = others (close_all close_normal) p

abbrev pub wait_handlers : Meanwhile → Process → Process
wait_handlers m p = record (others m.waiting p) { handlers = m.remaining }

abbrev pub close_database : Process → Process
close_database p = record p { database = false }

-- What `serve` does after the database is open: the stages, run in their order.
unfoldable pub stages : Ending → Meanwhile → List (Process → Process)
stages listener_fails m =
    start
    ∷ others m.serving
    ∷ (λ p. record p { listener = false })
    ∷ stop_sweeper m.sweeping
    ∷ close_database
    ∷ []
stages signalled m =
    start
    ∷ others m.serving
    ∷ stop_sweeper m.sweeping
    ∷ shutdown m.draining
    ∷ close_connections
    ∷ wait_handlers m
    ∷ close_database
    ∷ []

-- The processes that the stages pass through, from the first on.
unfoldable pub run_stages : List (Process → Process) → Process → List Process
run_stages [] p = p ∷ []
run_stages (f ∷ fs) p = p ∷ run_stages fs (f p)

-- `serve`: none if it returns an error.
unfoldable pub serve : Bool → Ending → Meanwhile → Process → List Process × Bool
serve opens ending m p = if not opens then (p ∷ [], false) else (
  run_stages (open_database ∷ stages ending m) p,
  elim ending [ listener_fails ↦ false | signalled ↦ true ],
)

-- The exit code of the process, of a command and what remains of the command line.
module _ (p : Platform) (get : ℕ → Option ℕ) (serves : Config → Bool) where
  abbrev pub run_command : Command → Config → ℕ
  run_command healthcheck_command cfg = healthcheck (get cfg.port)
  run_command serve_command cfg = if serves cfg then 0 else 1

  abbrev pub run_loaded : Command → Load Config → ℕ
  run_loaded cmd (rejected e) = 2
  run_loaded cmd (loaded cfg) = run_command cmd cfg

  unfoldable pub run_main : List Text → (String → Text) → ℕ
  run_main args getenv = let (cmd, flags) = choose args in run_loaded cmd (load p flags getenv)
