-- ===== src/Store/Reads.antt =====
-- What the queries of internal/store/store.go give, also where the database fails, and that they
-- leave both tables alone.
use rps_backend.Errors.{Action, Result, err, not_found, ok}
use rps_backend.Prelude.{Option-cases, inl, inr, none, refl, some, ℕ, ◌≡◌}
use rps_backend.Store.Defs.{
  Game, Player, Store, expired_game_ids, expired_player_ids, find_game, find_player, get_game,
  get_player, open_game_ids_for_player, statement, statement_cases,
}

-- The tables of `t` are those of `s`.
abbrev pub SameTables : Store → Store → Type 0
SameTables s t = (t.players ≡ s.players) × (t.games ≡ s.games)

abbrev pub Got : ℕ → Store → Result Player × Store → Type 0
Got i s (ok p, t) =
    (find_player i s.players ≡ some p) × (t.players ≡ s.players) × (t.games ≡ s.games)
Got i s (err not_found, t) =
    (find_player i s.players ≡ none) × (t.players ≡ s.players) × (t.games ≡ s.games)
Got i s (err _, t) = (t.players ≡ s.players) × (t.games ≡ s.games)

pub get_player-Got : (i : ℕ) (s : Store) → Got i s (get_player i s)
unfolding get_player
get_player-Got i s =
    statement_cases (Got i s) _ s (λ fs. (refl, refl))
      λ fs. elim (Option-cases (find_player i s.players)) [
        | inl missing ↦ rw missing (missing, refl, refl)
        | inr (p, found) ↦ rw found (found, refl, refl)
      ]

-- A game that was loaded is the row that is found by the id.
abbrev pub GotGame : ℕ → Store → Result Game × Store → Type 0
GotGame i s (ok g, t) = (find_game i s.games ≡ some g) × SameTables s t
GotGame i s (err _, t) = SameTables s t

pub get_game-GotGame : (i : ℕ) (s : Store) → GotGame i s (get_game i s)
unfolding get_game
get_game-GotGame i s =
    statement_cases (GotGame i s) _ s (λ fs. (refl, refl))
      λ fs. elim (Option-cases (find_game i s.games)) [
        | inl missing ↦ rw missing (refl, refl)
        | inr (g, found) ↦ rw found (found, (refl, refl))
      ]

-- A query changes no row.
abbrev pub ReadsOnly {ℓ} : {A : Type ℓ} → Action Store A → Type 0
ReadsOnly m = (s : Store) → SameTables s (m s).1

query-ReadsOnly {ℓ} : {A : Type ℓ} (r : Store → Result A) → ReadsOnly (statement λ s. (r s, s))
query-ReadsOnly r s =
    statement_cases (λ q. SameTables s q.1) _ s (λ fs. (refl, refl)) (λ fs. (refl, refl))

pub get_player-ReadsOnly : (i : ℕ) → ReadsOnly (get_player i)
unfolding get_player
get_player-ReadsOnly i = query-ReadsOnly _

pub get_game-ReadsOnly : (i : ℕ) → ReadsOnly (get_game i)
unfolding get_game
get_game-ReadsOnly i = query-ReadsOnly _

pub expired_player_ids-ReadsOnly : (cutoff : ℕ) → ReadsOnly (expired_player_ids cutoff)
unfolding expired_player_ids
expired_player_ids-ReadsOnly cutoff = query-ReadsOnly _

pub expired_game_ids-ReadsOnly : (cutoff : ℕ) → ReadsOnly (expired_game_ids cutoff)
unfolding expired_game_ids
expired_game_ids-ReadsOnly cutoff = query-ReadsOnly _

pub open_game_ids-ReadsOnly : (i : ℕ) → ReadsOnly (open_game_ids_for_player i)
unfolding open_game_ids_for_player
open_game_ids-ReadsOnly i = query-ReadsOnly _
