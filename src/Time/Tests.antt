-- ===== src/Time/Tests.antt =====
-- Instants and their texts on small inputs, and the theorems there.
use rps_backend.Prelude.{[], arith, refl, some, ℕ, ◌∷◌, ◌≡◌, map}
use rps_backend.Store.Columns.{game_columns, player_columns, select_stale, select_stale-inactive}
use rps_backend.Store.Defs.{Text, stale_games, stale_players}
use rps_backend.Store.Tests.{small}
use rps_backend.Time.Calendar.{leap, month_length, year_length}
use rps_backend.Time.Format.{format_time}
use rps_backend.Time.Parse.{parse_time, read_fraction}
use rps_backend.Time.Roundtrip.{parse_time-format_time}

-- 2026-01-02T03:04:05.000000006Z
abbrev second_of_january : ℕ
second_of_january = 63934542245000000006

abbrev its_text : Text
its_text =
    b'2' ∷ b'0' ∷ b'2' ∷ b'6' ∷ b'-' ∷ b'0' ∷ b'1' ∷ b'-' ∷ b'0' ∷ b'2' ∷ b'T' ∷ b'0' ∷ b'3' ∷ b':'
    ∷ b'0' ∷ b'4' ∷ b':' ∷ b'0' ∷ b'5' ∷ b'.' ∷ b'0' ∷ b'0' ∷ b'0' ∷ b'0' ∷ b'0' ∷ b'0' ∷ b'0'
    ∷ b'0' ∷ b'6' ∷ b'Z' ∷ []

format_second : format_time second_of_january ≡ its_text
unfolding format_time leap month_length year_length
format_second = refl

parse_second : parse_time its_text ≡ some second_of_january
unfolding parse_time read_fraction leap month_length year_length
parse_second = refl

parse_time-format_time_example : parse_time (format_time second_of_january) ≡ some second_of_january
parse_time-format_time_example = parse_time-format_time second_of_january (omega arith)

select_stale-inactive_example :
    (select_stale (format_time 8) (map player_columns small.players)
      ≡ stale_players 8 small.players)
    × (select_stale (format_time 8) (map game_columns small.games) ≡ stale_games 8 small.games)
select_stale-inactive_example =
    select_stale-inactive 8 small.players small.games (omega arith) (omega arith) (omega arith)
