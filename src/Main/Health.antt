-- ===== src/Main/Health.antt =====
-- `healthcheck` against the server's own answer to GET /healthz.
use Prim.Native.String.{String}
use rps_backend.Api.Defs.{Chance, Library, get_health, health_response, ping}
use rps_backend.Api.Routes.{Answer, Request, answers, api_mux, cors, root, status_only, upgrades}
use rps_backend.Config.Defs.{Config, Platform, codes, load, loaded}
use rps_backend.Errors.{Result, err, ok}
use rps_backend.Main.Defs.{choose, healthcheck, healthcheck_command, run_loaded, run_main}
use rps_backend.Prelude.{Bool, List, [], ap, refl, some, ℕ, ◌∙◌, ◌∷◌, ◌≡◌}
use rps_backend.Store.Defs.{Store, Text}

-- The status of an answer; a WebSocket is opened with 101.
abbrev pub status_of : Answer → ℕ
status_of (answers r) = r.status
status_of (status_only n) = n
status_of upgrades = 101

-- What `client.Get` sends.
abbrev pub health_request : Request
health_request = record { method = "GET"; path = "/healthz"; origin = []; body = [] }

abbrev pub health_code : Result (Unit {0}) → ℕ
health_code (ok _) = 0
health_code (err _) = 1

health_response_code :
    (r : Result (Unit {0}) × Store)
    → healthcheck (some (health_response r).0.status) ≡ health_code r.0
unfolding healthcheck
health_response_code (ok _, s) = refl
health_response_code (err _, s) = refl

-- On a configuration that loads, `rps-backend healthcheck`, answered by the server's root handler,
-- exits with 0 if the database answers and with 1 if it does not.
pub run_main-healthcheck :
    (p : Platform) (lib : Library) (allowed : List Text) (has_ws : Bool) (ch : Chance) (s : Store)
    (serves : Config → Bool) (flags : List Text) (getenv : String → Text) (cfg : Config)
    → load p flags getenv ≡ loaded cfg
    → run_main p
        (λ port. some (status_of (root lib allowed has_ws ch health_request s).0.answer))
        serves
        (codes "healthcheck" ∷ flags)
        getenv
      ≡ health_code (ping s).0
unfolding run_main choose root cors api_mux get_health
run_main-healthcheck p lib allowed has_ws ch s serves flags getenv cfg loads =
    ap (run_loaded p _ serves healthcheck_command) loads ∙ health_response_code (ping s)
