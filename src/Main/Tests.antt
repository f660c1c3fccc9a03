-- ===== src/Main/Tests.antt =====
-- The command line, and runs of the server.
use rps_backend.Api.Defs.{ping}
use rps_backend.Api.Routes.{root}
use rps_backend.Api.Tests.{quiet, toy}
use rps_backend.Config.Defs.{
  Config, atoi, codes, default_config, digits, digits_from, flag_defaults, load, load_settings,
  loaded,
}
use rps_backend.Config.Laws.{load_default}
use rps_backend.Config.Tests.{platform, platform-ReadsDefaults, unset, unset_blank}
use rps_backend.Hub.Conn.{is_closing}
use rps_backend.Hub.Tests.{table}
use rps_backend.Main.Defs.{Meanwhile, Process, choose, run_main, serve, serve_command, signalled}
use rps_backend.Main.Health.{health_code, health_request, run_main-healthcheck, status_of}
use rps_backend.Main.Shutdown.{Sound, Stopped, last_process, serve_signalled}
use rps_backend.Main.Wiring.{Wired, address, api_origins, load-Wired, sweeper_of, ws_options}
use rps_backend.Ws.Group.{
  GroupRun, Uncounted, accepted, accepts, begins, wait_returns, goes_on, new_handler,
}
use rps_backend.Prelude.{◌⊎◌, All, Bool, [], contains, false, none, refl, some, true, ℕ, ◌∷◌, ◌≡◌}
use rps_backend.Store.Tests.{small}
use rps_backend.Strings.Trim.{trim_space}

empty_line : choose [] ≡ (serve_command, [])
unfolding choose
empty_line = refl

-- A flag is no command.
flag_first : choose (codes "-port" ∷ []) ≡ (serve_command, codes "-port" ∷ [])
unfolding choose
flag_first = refl

bad_port_code :
    (serves : Config → Bool) → run_main platform (λ port. none) serves [] (λ key. codes "x") ≡ 2
unfolding run_main choose load load_settings flag_defaults atoi digits digits_from trim_space
    rps_backend.Config.Defs.◌>>=◌
bad_port_code serves = refl

abbrev quiet_run : Meanwhile
quiet_run = record {
  serving = λ h. h;
  sweeping = λ h. h;
  draining = λ h. h;
  waiting = λ h. h;
  remaining = accepted ∷ [];
}

abbrev process : Process
process = record { hub = table; database = false; sweeper = false; listener = false; handlers = [] }

process-Stopped : Stopped process
process-Stopped = record { no_database = refl; no_sweeper = refl; no_listener = refl }

-- A connection has been accepted, and nobody waits for it.
just_accepted :
    GroupRun
      (λ t. none)
      (ws_options default_config)
      (new_handler (λ t. none) (ws_options default_config))
      (accepted ∷ [])
just_accepted = goes_on begins accepts

nobody_counted : wait_returns false (new_handler (λ t. none) (ws_options default_config)) ≡ true
unfolding wait_returns new_handler
nobody_counted = refl

serve_signalled_example :
    ((serve true signalled quiet_run process).1 ≡ true)
    × Stopped (last_process process (serve true signalled quiet_run process).0)
    × All Sound (serve true signalled quiet_run process).0
    × ((c : ℕ)
        → contains c table.live ≡ true
        → is_closing ((last_process process (serve true signalled quiet_run process).0).hub.conns c)
          ≡ true)
    × (All Uncounted (last_process process (serve true signalled quiet_run process).0).handlers
        ⊎ (◌≡◌ {A = Bool} false true))
serve_signalled_example =
    serve_signalled quiet_run process (λ t. none) (ws_options default_config) false
      (new_handler (λ t. none) (ws_options default_config)) process-Stopped (λ h c e. e)
      just_accepted nobody_counted

default-load : load platform [] unset ≡ loaded default_config
default-load = load_default platform unset platform-ReadsDefaults unset_blank

run_main-healthcheck_example :
    run_main platform
      (λ port. some (status_of (root toy [] true quiet health_request small).0.answer))
      (λ cfg. true)
      (codes "healthcheck" ∷ [])
      unset
    ≡ health_code (ping small).0
run_main-healthcheck_example =
    run_main-healthcheck platform toy [] true quiet small (λ cfg. true) [] unset default_config
      default-load

load-Wired_example :
    Wired
      (new_handler (λ t. none) (ws_options default_config))
      (api_origins default_config)
      (sweeper_of default_config)
load-Wired_example =
    load-Wired platform (λ t. none) [] unset default_config
      (load_default platform unset platform-ReadsDefaults unset_blank)

default_address : address default_config ≡ codes "0.0.0.0:8080"
unfolding address
default_address = refl
