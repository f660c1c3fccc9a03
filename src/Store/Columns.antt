-- ===== src/Store/Columns.antt =====
-- The expiry queries of internal/store/store.go over the texts that the columns hold (`formatTime`).
use rps_backend.Prelude.{All, List, [], if◌then◌else◌, map, refl, ℕ, ◌<◌, ◌∷◌, ◌≡◌}
use rps_backend.Store.Defs.{Game, Player, Text, stale_games, stale_players}
use rps_backend.Time.Format.{format_time}
use rps_backend.Time.Order.{text_ltb}
use rps_backend.Time.Sorting.{format_time-order, year_10000}

-- The columns `id` and `last_active_at` of a row.
unfoldable pub player_columns : Player → ℕ × Text
player_columns p = (p.id, format_time p.last_active_at)

unfoldable pub game_columns : Game → ℕ × Text
game_columns g = (g.id, format_time g.last_active_at)

-- SELECT id … WHERE last_active_at < ?
unfoldable pub select_stale : Text → List (ℕ × Text) → List ℕ
select_stale cutoff [] = []
select_stale cutoff ((id, active) ∷ rows) =
    let rest = select_stale cutoff rows in if text_ltb active cutoff then id ∷ rest else rest

abbrev pub PlayerDated : Player → Type 0
PlayerDated p = p.last_active_at < year_10000

abbrev pub GameDated : Game → Type 0
GameDated g = g.last_active_at < year_10000

module _ (cutoff : ℕ) (dated : cutoff < year_10000) where
  players-select :
      (ps : List Player)
      → All PlayerDated ps
      → select_stale (format_time cutoff) (map player_columns ps) ≡ stale_players cutoff ps
  unfolding select_stale stale_players player_columns
  players-select [] all = refl
  players-select (p ∷ ps) all =
      rw (players-select ps all.1, format_time-order p.last_active_at cutoff all.0 dated) refl

  games-select :
      (gs : List Game)
      → All GameDated gs
      → select_stale (format_time cutoff) (map game_columns gs) ≡ stale_games cutoff gs
  unfolding select_stale stale_games game_columns
  games-select [] all = refl
  games-select (g ∷ gs) all =
      rw (games-select gs all.1, format_time-order g.last_active_at cutoff all.0 dated) refl

-- Up to the year 9999 the two expiry queries, which compare the texts of instants, find exactly the
-- players and the games whose last activity was before the cutoff.
pub select_stale-inactive :
    (cutoff : ℕ) (ps : List Player) (gs : List Game)
    → cutoff < year_10000
    → All PlayerDated ps
    → All GameDated gs
    → (select_stale (format_time cutoff) (map player_columns ps) ≡ stale_players cutoff ps)
      × (select_stale (format_time cutoff) (map game_columns gs) ≡ stale_games cutoff gs)
select_stale-inactive cutoff ps gs dated players games =
    (players-select cutoff dated ps players, games-select cutoff dated gs games)
