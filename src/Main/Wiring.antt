-- ===== src/Main/Wiring.antt =====
-- What `serve` of cmd/rps-backend/main.go makes of the configuration: the options of the WebSocket
-- handler, of the API, of the listener and of the sweeper.
use Prim.Native.String.{String}
use rps_backend.Api.Routes.{is_allowed, listed}
use rps_backend.Config.Defs.{Config, Platform, codes, load, loaded}
use rps_backend.Config.Laws.{is_positive, load-IsConfig}
use rps_backend.Prelude.{
  Bool, List, Option, [], nat_eq, not, refl, true, ℤ, ◌&&◌, ◌++◌, ◌==◌, ◌||◌, ◌∙◌, ◌∷◌, ◌≡◌, ap,
}
use rps_backend.Store.Defs.{Text, text_eq}
use rps_backend.Time.Format.{append_int}
use rps_backend.Ws.Group.{Handler, Options, new_handler}
use rps_backend.Ws.Origins.{accept_options_lem, any_origin, has_star}

-- The durations of `sweeper.Sweeper`.
pub record Sweeper : Type 0 where
  pub player_ttl : ℤ
  pub game_ttl : ℤ
  pub interval : ℤ

unfoldable pub ws_options : Config → Options
ws_options cfg = record {
  allowed_origins = cfg.allowed_origins;
  auth_timeout = cfg.auth_timeout;
  ping_interval = cfg.ping_interval;
}

-- The origins that `httpapi.New` hands to `corsMiddleware`.
unfoldable pub api_origins : Config → List Text
api_origins cfg = cfg.allowed_origins

unfoldable pub sweeper_of : Config → Sweeper
sweeper_of cfg = record {
  player_ttl = cfg.player_ttl;
  game_ttl = cfg.game_ttl;
  interval = cfg.sweep_interval;
}

-- `net.JoinHostPort` of a host without a colon, and `strconv.Itoa`.
unfoldable pub address : Config → Text
unfolding append_int
address cfg = codes "0.0.0.0:" ++ append_int 1 cfg.port

-- `time.NewTicker` panics unless its duration is positive.
pub record Wired (handler : Handler) (origins : List Text) (sweeper : Sweeper) : Type 0 where
  pub pings : is_positive handler.ping_interval ≡ true
  pub sweeps : is_positive sweeper.interval ≡ true
  pub agree :
      (origin : Text)
      → is_allowed origins origin
        ≡ (not (origin == []) && (handler.accept.insecure_skip_verify || listed origin origins))

has_star-listed : (origins : List Text) → has_star origins ≡ listed any_origin origins
has_star-listed [] = refl
has_star-listed (o ∷ os) = ap (λ (b : Bool). o == any_origin || b) (has_star-listed os)

-- On a configuration that `Load` returns, the two tickers of the server have positive intervals, and
-- the API allows an origin exactly if it is not empty and is listed or the WebSocket handler checks no
-- origins.
pub load-Wired :
    (p : Platform) (parse_host : Text → Option Text) (args : List Text) (getenv : String → Text)
    (cfg : Config)
    → load p args getenv ≡ loaded cfg
    → Wired (new_handler parse_host (ws_options cfg)) (api_origins cfg) (sweeper_of cfg)
unfolding new_handler ws_options api_origins sweeper_of
load-Wired p parse_host args getenv cfg loads =
    let c = load-IsConfig p args getenv cfg loads in
    let (_, _, sweeps, _, pings) = c.positive in
    let star =
      (accept_options_lem parse_host cfg.allowed_origins).0 ∙ has_star-listed cfg.allowed_origins in
    record { pings = pings; sweeps = sweeps; agree = λ origin. rw star refl }
