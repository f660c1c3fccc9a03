-- ===== src/Config/Laws.antt =====
-- What a configuration that `Load` returns satisfies, and what `Load` returns when nothing is set.
use Prim.Native.String.{String}
use rps_backend.Api.Names.{within}
use rps_backend.Config.Defs.{
  Config, ConfigError, Load, LogLevel, Platform, Settings, atoi, bad_flags, bad_level,
  checked_duration, checked_path, checked_port, codes, default_config, digits, digits_from,
  flag_defaults, info_level, load, load_settings, loaded, or_rejected, rejected, second, ◌>>=◌,
}
use rps_backend.Config.Origins.{
  IsOrigin, clean_all, parse_origins, parse_origins-IsOrigin, parse_origins-nil,
}
use rps_backend.Prelude.{
  All, Bool, Bool-cases, List, Option, [], arith, false, inl, inr, ltb, nat_eq, negsuc, none, pos,
  refl, some, true, ℤ, ◌*◌, ◌==◌, ◌||◌, ◌∷◌, ◌≡◌, ◌≤◌,
}
use rps_backend.Store.Defs.{Text, text_eq}
use rps_backend.Strings.Split.{split}
use rps_backend.Strings.Trim.{trim_space}

abbrev pub is_positive : ℤ → Bool
is_positive (pos n) = ltb 0 n
is_positive (negsuc n) = false

pub record IsConfig (c : Config) : Type 0 where
  pub port_range : (1 ≤ c.port) × (c.port ≤ 65_535)
  pub has_path : (c.db_path == []) ≡ false
  pub origins : All IsOrigin c.allowed_origins
  pub positive :
      (is_positive c.player_ttl ≡ true)
      × (is_positive c.game_ttl ≡ true)
      × (is_positive c.sweep_interval ≡ true)
      × (is_positive c.auth_timeout ≡ true)
      × (is_positive c.ping_interval ≡ true)

-- If it loads, then a value of which `P` holds.
abbrev Loads {ℓ} : {A : Type ℓ} → (A → Type 0) → Load A → Type 0
Loads P (loaded a) = P a
Loads P (rejected _) = Unit {0}

Loads-bind {ℓ κ} :
    {A : Type ℓ} {B : Type κ} (P : A → Type 0) (Q : B → Type 0) (m : Load A) (f : A → Load B)
    → Loads P m
    → ((a : A) → P a → Loads Q (f a))
    → Loads Q (m >>= f)
unfolding ◌>>=◌
Loads-bind P Q (loaded a) f first next = next a first
Loads-bind P Q (rejected e) f first next = tt

port-Loads : (v : Option ℤ) → Loads (λ n. (1 ≤ n) × (n ≤ 65_535)) (checked_port v)
port-Loads none = tt
port-Loads (some (negsuc n)) = tt
port-Loads (some (pos n)) = elim (Bool-cases (ltb n 1 || ltb 65_535 n)) [
  | inl out ↦ rw out tt
  | inr within ↦ rw within (ground arith)
]

duration-Loads :
    (name : String) (v : Option ℤ) → Loads (λ d. is_positive d ≡ true) (checked_duration name v)
duration-Loads name none = tt
duration-Loads name (some (negsuc n)) = tt
duration-Loads name (some (pos n)) = elim (Bool-cases (n == 0)) [
  | inl nothing ↦ rw nothing tt
  | inr something ↦ rw something (ground arith)
]

path-Loads : (t : Text) → Loads (λ u. (u == []) ≡ false) (checked_path t)
path-Loads [] = tt
path-Loads (c ∷ cs) = refl

level-Loads : (e : ConfigError) (v : Option LogLevel) → Loads (λ _. Unit {0}) (or_rejected e v)
level-Loads e none = tt
level-Loads e (some l) = tt

load_settings-Loads : (p : Platform) (s : Settings) → Loads IsConfig (load_settings p s)
unfolding load_settings
load_settings-Loads p s = Loads-bind _ IsConfig _ _ (port-Loads (atoi s.port_text)) λ port ranged.
    Loads-bind _ IsConfig _ _ (path-Loads s.db_path) λ path given.
      Loads-bind _ IsConfig _ _ (duration-Loads "player-ttl" (p.parse_duration s.player_ttl))
        λ a a_pos.
          Loads-bind _ IsConfig _ _ (duration-Loads "game-ttl" (p.parse_duration s.game_ttl))
            λ b b_pos.
              Loads-bind _ IsConfig _ _
                (duration-Loads "sweep-interval" (p.parse_duration s.sweep_interval))
                λ c c_pos.
                  Loads-bind _ IsConfig _ _
                    (duration-Loads "auth-timeout" (p.parse_duration s.auth_timeout))
                    λ d d_pos.
                      Loads-bind _ IsConfig _ _
                        (duration-Loads "ping-interval" (p.parse_duration s.ping_interval))
                        λ e e_pos.
                          Loads-bind (λ _. Unit {0}) IsConfig _ _
                            (level-Loads bad_level (p.parse_level s.log_level))
                            λ l _. record {
                              port_range = ranged;
                              has_path = given;
                              origins = parse_origins-IsOrigin s.origins_text;
                              positive = (a_pos, b_pos, c_pos, d_pos, e_pos);
                            }

load-Loads :
    (p : Platform) (args : List Text) (getenv : String → Text) → Loads IsConfig (load p args getenv)
unfolding load
load-Loads p args getenv =
    Loads-bind (λ _. Unit {0}) IsConfig _ (load_settings p) (flags_ok (p.parse_flags _ args))
      (λ s _. load_settings-Loads p s)
  where
    flags_ok : (v : Option Settings) → Loads (λ _. Unit {0}) (or_rejected bad_flags v)
    flags_ok none = tt
    flags_ok (some s) = tt

-- Whatever the flags and the environment say, a configuration that `Load` returns has a port from 1
-- to 65535, a path, origins without commas and trailing slashes, and five positive durations.
pub load-IsConfig :
    (p : Platform) (args : List Text) (getenv : String → Text) (c : Config)
    → load p args getenv ≡ loaded c
    → IsConfig c
load-IsConfig p args getenv c e = rw e at (load-Loads p args getenv)

-- What the library documents of the texts that the defaults are written in.
pub record ReadsDefaults (p : Platform) : Type 0 where
  pub no_flags : (s : Settings) → p.parse_flags s [] ≡ some s
  pub a_day : p.parse_duration (codes "24h0m0s") ≡ some (pos (86_400 * second))
  pub a_minute : p.parse_duration (codes "1m0s") ≡ some (pos (60 * second))
  pub ten_seconds : p.parse_duration (codes "10s") ≡ some (pos (10 * second))
  pub half_a_minute : p.parse_duration (codes "30s") ≡ some (pos (30 * second))
  pub info : p.parse_level (codes "info") ≡ some info_level

-- With no flags, and an environment where every variable is unset or blank, `Load` returns exactly
-- `Default()`.
pub load_default :
    (p : Platform) (getenv : String → Text)
    → ReadsDefaults p
    → ((key : String) → trim_space (getenv key) ≡ [])
    → load p [] getenv ≡ loaded default_config
unfolding load load_settings flag_defaults atoi digits digits_from ◌>>=◌ parse_origins clean_all
    split
load_default p getenv reads blank =
    rw
      (
        reads.no_flags,
        blank "RPS_PORT",
        blank "RPS_DB_PATH",
        blank "RPS_ALLOWED_ORIGINS",
        parse_origins-nil,
        blank "RPS_PLAYER_TTL",
        blank "RPS_GAME_TTL",
        blank "RPS_SWEEP_INTERVAL",
        blank "RPS_AUTH_TIMEOUT",
        blank "RPS_PING_INTERVAL",
        blank "RPS_LOG_LEVEL",
        reads.a_day,
        reads.a_minute,
        reads.ten_seconds,
        reads.half_a_minute,
        reads.info,
      )
      refl
