-- ===== src/Config/Defs.antt =====
-- `Default` and `Load` of internal/config/config.go. An integer and a duration (in nanoseconds) are
-- integers of any size.
use Prim.Native.Char.{code as char_code}
use Prim.Native.String.{String}
use rps_backend.Config.Origins.{parse_origins}
use rps_backend.Prelude.{
  List, Option, [], if◌then◌else◌, leb, ltb, nat_eq, negsuc, none, not, pos, some, ℕ, ℤ, ◌&&◌, ◌*◌,
  ◌+◌, ◌-◌, ◌==◌, ◌||◌, ◌∷◌,
}
use rps_backend.Store.Defs.{Text, text_eq}
use rps_backend.Strings.Trim.{trim_space}

-- The bytes of a text of ASCII characters.
abbrev pub codes : String → Text
codes String.[] = []
codes (String.◌∷◌ ch s) = char_code ch ∷ codes s

pub data LogLevel : Type 0 where
  debug_level info_level warn_level error_level : LogLevel
  other_level : ℤ → LogLevel

pub record Config : Type 0 where
  pub port : ℕ
  pub db_path : Text
  pub allowed_origins : List Text
  pub player_ttl : ℤ
  pub game_ttl : ℤ
  pub sweep_interval : ℤ
  pub auth_timeout : ℤ
  pub ping_interval : ℤ
  pub log_level : LogLevel

abbrev pub second : ℕ
second = 1_000_000_000

abbrev pub default_config : Config
default_config = record {
  port = 8080;
  db_path = codes "./rps.db";
  allowed_origins = [];
  player_ttl = pos (86_400 * second);
  game_ttl = pos (86_400 * second);
  sweep_interval = pos (60 * second);
  auth_timeout = pos (10 * second);
  ping_interval = pos (30 * second);
  log_level = info_level;
}

-- The texts of the nine settings: the defaults of the flags, or what the flags were set to.
pub record Settings : Type 0 where
  pub port_text : Text
  pub db_path : Text
  pub origins_text : Text
  pub player_ttl : Text
  pub game_ttl : Text
  pub sweep_interval : Text
  pub auth_timeout : Text
  pub ping_interval : Text
  pub log_level : Text

-- What `Load` uses of Go's library: `FlagSet.Parse` over the flags with these defaults, none for an
-- error, `time.ParseDuration`, and `slog.Level.UnmarshalText`.
pub record Platform : Type 0 where
  pub parse_flags : Settings → List Text → Option Settings
  pub parse_duration : Text → Option ℤ
  pub parse_level : Text → Option LogLevel

pub data ConfigError : Type 0 where
  bad_flags bad_port empty_db_path bad_level : ConfigError
  bad_duration : String → ConfigError

pub data Load {ℓ} (A : Type ℓ) : Type ℓ where
  loaded : A → Load A
  rejected : ConfigError → Load A

infixl 5 ◌>>=◌
unfoldable pub ◌>>=◌ {ℓ κ} : {A : Type ℓ} {B : Type κ} → Load A → (A → Load B) → Load B
m >>= f = elim m [ loaded a ↦ f a | rejected e ↦ rejected e ]

abbrev pub env_or : (String → Text) → String → Text → Text
env_or getenv key def = let v = trim_space (getenv key) in if not (v == []) then v else def

-- `(*flag).String` of the default durations and `strconv.Itoa` of the default port are written out.
unfoldable pub flag_defaults : (String → Text) → Settings
flag_defaults getenv = record {
  port_text = env_or getenv "RPS_PORT" (codes "8080");
  db_path = env_or getenv "RPS_DB_PATH" default_config.db_path;
  origins_text = env_or getenv "RPS_ALLOWED_ORIGINS" [];
  player_ttl = env_or getenv "RPS_PLAYER_TTL" (codes "24h0m0s");
  game_ttl = env_or getenv "RPS_GAME_TTL" (codes "24h0m0s");
  sweep_interval = env_or getenv "RPS_SWEEP_INTERVAL" (codes "1m0s");
  auth_timeout = env_or getenv "RPS_AUTH_TIMEOUT" (codes "10s");
  ping_interval = env_or getenv "RPS_PING_INTERVAL" (codes "30s");
  log_level = env_or getenv "RPS_LOG_LEVEL" (codes "info");
}

-- `strconv.Atoi`: a sign or none, and decimal digits, of a number of 64 bits.
unfoldable pub digits_from : ℕ → Text → Option ℕ
digits_from n [] = some n
digits_from n (c ∷ cs) =
    let rest = digits_from (n * 10 + (c - b'0')) cs in
    if leb b'0' c && leb c b'9' then rest else none

unfoldable pub digits : Text → Option ℕ
unfolding digits_from
digits [] = none
digits (c ∷ cs) = digits_from 0 (c ∷ cs)

abbrev pub max_int : ℕ
max_int = 9_223_372_036_854_775_807

abbrev pub positive_int : Option ℕ → Option ℤ
positive_int none = none
positive_int (some n) = if leb n max_int then some (pos n) else none

abbrev pub negative_int : Option ℕ → Option ℤ
negative_int none = none
negative_int (some n) =
    if n == 0 then some (pos 0) else if leb n (max_int + 1) then some (negsuc (n - 1)) else none

unfoldable pub atoi : Text → Option ℤ
unfolding digits
atoi [] = none
atoi (c ∷ cs) =
    if c == b'-'
    then negative_int (digits cs)
    else if c == b'+'
    then positive_int (digits cs)
    else positive_int (digits (c ∷ cs))

abbrev pub checked_port : Option ℤ → Load ℕ
checked_port (some (pos n)) = if ltb n 1 || ltb 65_535 n then rejected bad_port else loaded n
checked_port _ = rejected bad_port

abbrev pub checked_duration : String → Option ℤ → Load ℤ
checked_duration name (some (pos n)) =
    if n == 0 then rejected (bad_duration name) else loaded (pos n)
checked_duration name _ = rejected (bad_duration name)

abbrev pub or_rejected {ℓ} : {A : Type ℓ} → ConfigError → Option A → Load A
or_rejected e none = rejected e
or_rejected e (some a) = loaded a

abbrev pub checked_path : Text → Load Text
checked_path t = if t == [] then rejected empty_db_path else loaded t

module _ (p : Platform) where
  -- What follows the parsing of the flags.
  unfoldable pub load_settings : Settings → Load Config
  load_settings s = do
    port ← checked_port (atoi s.port_text)
    db_path ← checked_path s.db_path
    player_ttl ← checked_duration "player-ttl" (p.parse_duration s.player_ttl)
    game_ttl ← checked_duration "game-ttl" (p.parse_duration s.game_ttl)
    sweep ← checked_duration "sweep-interval" (p.parse_duration s.sweep_interval)
    auth ← checked_duration "auth-timeout" (p.parse_duration s.auth_timeout)
    ping ← checked_duration "ping-interval" (p.parse_duration s.ping_interval)
    level ← or_rejected bad_level (p.parse_level s.log_level)
    loaded (record {
      port = port;
      db_path = db_path;
      allowed_origins = parse_origins s.origins_text;
      player_ttl = player_ttl;
      game_ttl = game_ttl;
      sweep_interval = sweep;
      auth_timeout = auth;
      ping_interval = ping;
      log_level = level;
    })

  unfoldable pub load : List Text → (String → Text) → Load Config
  load args getenv =
      or_rejected bad_flags (p.parse_flags (flag_defaults getenv) args) >>= load_settings
