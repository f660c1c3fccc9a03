-- ===== src/Config/Tests.antt =====
-- Settings read on a platform that knows a few durations, and the theorems there.
use Prim.Native.String.{String}
use rps_backend.Config.Defs.{
  Platform, atoi, codes, default_config, digits, digits_from, info_level, second,
}
use rps_backend.Config.Laws.{IsConfig, ReadsDefaults, load-IsConfig, load_default}
use rps_backend.Config.Origins.{IsTrim, clean_all, parse_origins, parse_origins-join_texts}
use rps_backend.Prelude.{
  List, Option, [], if◌then◌else◌, nat_eq, negsuc, none, pos, refl, some, ℤ, ◌*◌, ◌==◌, ◌∷◌, ◌≡◌,
}
use rps_backend.Store.Defs.{Text, text_eq}
use rps_backend.Strings.Split.{split}
use rps_backend.Strings.Trim.{back_width, front_width, trim_right, trim_space}

abbrev toy_duration : Text → Option ℤ
toy_duration t =
    if t == codes "24h0m0s"
    then some (pos (86_400 * second))
    else if t == codes "1m0s"
    then some (pos (60 * second))
    else if t == codes "10s"
    then some (pos (10 * second))
    else if t == codes "30s"
    then some (pos (30 * second))
    else none

abbrev pub platform : Platform
platform = record {
  parse_flags = λ s args. some s;
  parse_duration = toy_duration;
  parse_level = λ t. if t == codes "info" then some info_level else none;
}

pub platform-ReadsDefaults : ReadsDefaults platform
platform-ReadsDefaults = record {
  no_flags = λ s. refl;
  a_day = refl;
  a_minute = refl;
  ten_seconds = refl;
  half_a_minute = refl;
  info = refl;
}

abbrev pub unset : String → Text
unset key = []

pub unset_blank : (key : String) → trim_space (unset key) ≡ []
unfolding trim_space
unset_blank key = refl

load-IsConfig_example : IsConfig default_config
load-IsConfig_example =
    load-IsConfig platform [] unset default_config
      (load_default platform unset platform-ReadsDefaults unset_blank)

atoi_minus : atoi (codes "-12") ≡ some (negsuc 11)
unfolding atoi digits digits_from
atoi_minus = refl

atoi_too_large : atoi (codes "9223372036854775808") ≡ none
unfolding atoi digits digits_from
atoi_too_large = refl

parse_origins_two :
    parse_origins (codes " http://a/ ,, http://b") ≡ codes "http://a" ∷ codes "http://b" ∷ []
unfolding parse_origins clean_all split trim_space trim_right
parse_origins_two = refl

-- White space before the slashes at the end stays.
parse_origins_space : parse_origins (codes "http://a /") ≡ codes "http://a " ∷ []
unfolding parse_origins clean_all split trim_space trim_right
parse_origins_space = refl

abbrev a_b : List Text
a_b = codes "http://a" ∷ codes "http://b" ∷ []

a-IsTrim : IsTrim (codes "http://a")
unfolding front_width back_width
a-IsTrim = record {
  is_origin = record { not_empty = refl; no_comma = refl; no_slash = refl };
  front = refl;
  back = refl;
}

b-IsTrim : IsTrim (codes "http://b")
unfolding front_width back_width
b-IsTrim = record {
  is_origin = record { not_empty = refl; no_comma = refl; no_slash = refl };
  front = refl;
  back = refl;
}

parse_origins-join_texts_example : parse_origins (codes "http://a,http://b") ≡ a_b
parse_origins-join_texts_example =
    parse_origins-join_texts (codes "http://a") (codes "http://b" ∷ []) (a-IsTrim, (b-IsTrim, tt))
