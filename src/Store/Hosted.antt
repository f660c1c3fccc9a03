-- ===== src/Store/Hosted.antt =====
-- What `CreateGame` leaves behind.
use rps_backend.Prelude.{
  Bool-cases, List, Option-cases, [], ap, inl, inr, none, refl, ℕ, ◌++◌, ◌∷◌, ◌≡◌,
}
use rps_backend.Rules.Defs.{new_state}
use rps_backend.Store.Defs.{
  Game, Player, Store, Text, find_game, statement_cases, touch_player, touch_rows,
}
use rps_backend.Store.Save.{tx-Ends}
use rps_backend.Store.Tx.{Ends, Yields, Yields-bind, create_game, insert_game, is_player}

-- The row was added, its id was new, its host is a player, and the host was touched.
abbrev pub Hosts : Game → Store → Game → List Player → List Game → Type 0
Hosts g s a ps gs =
    (a ≡ g)
    × (gs ≡ s.games ++ g ∷ [])
    × (find_game g.id s.games ≡ none)
    × (ps ≡ touch_rows g.host_player_id g.last_active_at s.players)

AddsRow : Game → Store → Unit {0} → List Player → List Game → Type 0
AddsRow g s _ ps gs = (gs ≡ s.games ++ g ∷ []) × (find_game g.id s.games ≡ none) × (ps ≡ s.players)

Touches : Game → Store → Unit {0} → List Player → List Game → Type 0
Touches g s _ ps gs =
    (gs ≡ s.games ++ g ∷ [])
    × (find_game g.id s.games ≡ none)
    × (ps ≡ touch_rows g.host_player_id g.last_active_at s.players)

insert_game-Yields : (g : Game) (s : Store) → Yields (AddsRow g s) (insert_game g s)
unfolding insert_game AddsRow
insert_game-Yields g s =
    statement_cases (Yields (AddsRow g s)) _ s (λ fs. tt)
      λ fs. elim (Bool-cases (is_player g.host_player_id s.players)) [
        | inr nobody ↦ rw nobody tt
        | inl somebody ↦ elim (Option-cases (find_game g.id s.games)) [
          | inr (row, found) ↦ rw (somebody, found) tt
          | inl missing ↦ rw (somebody, missing) (refl, missing, refl)
        ]
      ]

touch-Yields :
    (g : Game) (s t : Store)
    → AddsRow g s tt t.players t.games
    → Yields (Touches g s) (touch_player g.host_player_id g.last_active_at t)
unfolding touch_player AddsRow Touches
touch-Yields g s t (gs, missing, ps) =
    statement_cases (Yields (Touches g s)) _ t (λ fs. tt)
      (λ fs. (gs, missing, ap (touch_rows g.host_player_id g.last_active_at) ps))

abbrev pub hosted_game : ℕ → ℕ → Text → ℕ → Game
hosted_game uuid host_id secret_hash now = record {
  id = uuid;
  secret_hash = secret_hash;
  host_player_id = host_id;
  guest_player_id = 0;
  state = new_state;
  last_active_at = now;
}

-- `CreateGame` is atomic: either the game waits for its guest under its new id and the host has been
-- touched, or an error is returned and neither table has changed, whichever statement fails.
pub create_game-Ends :
    (uuid host_id : ℕ) (secret_hash : Text) (now : ℕ) (s : Store)
    → Ends
        (Hosts (hosted_game uuid host_id secret_hash now) s)
        s
        (create_game uuid host_id secret_hash now s)
unfolding create_game Touches AddsRow
create_game-Ends uuid host_id secret_hash now s =
    let g = hosted_game uuid host_id secret_hash now in
    tx-Ends (Hosts g s) _ s λ fs.
      Yields-bind (AddsRow g s) (Hosts g s) (insert_game g) _
        (λ _ t row.
          Yields-bind (Touches g s) (Hosts g s) (touch_player host_id now) _
            (λ _ u (gs, missing, ps). (refl, gs, missing, ps)) t (touch-Yields g s t row))
        (record s { faults = fs }) (insert_game-Yields g (record s { faults = fs }))
