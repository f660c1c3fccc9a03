-- ===== src/Store/Save.antt =====
-- What a write transaction leaves behind (`Tx`, `SaveGame`), whatever statement of it fails, and
-- that a saved game is what is read back.
use rps_backend.Errors.{Action, Result, err, ok, pure}
use rps_backend.Prelude.{
  Bool, Bool-cases, List, Option-cases, [], ap, arith, if◌then◌else◌, inl, inr, nat_eq, refl, some,
  subst, ℕ, ◌&&◌, ◌==◌, ◌∙◌, ◌∷◌, ◌≡◌, ◌≢◌,
}
use rps_backend.Store.Defs.{
  Game, Player, Store, find_game, statement_cases, text_eq, touch_player, touch_rows,
}
use rps_backend.Store.Tx.{
  Ends, Yields, Yields-bind, in_tx, in_tx-Ends, refers, save_game, tx, update_game, update_rows,
  write_row,
}

-- Whatever a transaction does, and whichever of its statements fails (BEGIN and COMMIT among them),
-- it ends with what its body promises, or with an error and both tables unchanged.
pub tx-Ends {ℓ} :
    {A : Type ℓ} (Q : A → List Player → List Game → Type 0) (fn : Action Store A) (s : Store)
    → ((fs : List Bool) → Yields Q (fn (record s { faults = fs })))
    → Ends Q s (tx fn s)
unfolding tx
tx-Ends Q fn s body =
    statement_cases (Ends Q s) (in_tx fn) s (λ fs. (refl, refl))
      (λ fs. in_tx-Ends Q s fn fs (body fs))

-- The players that `SaveGame` leaves: the named one is touched.
abbrev pub touched : ℕ → ℕ → List Player → List Player
touched player_id now ps = if player_id == 0 then ps else touch_rows player_id now ps

abbrev pub Saved : Game → ℕ → ℕ → Store → Unit {0} → List Player → List Game → Type 0
Saved g player_id now s _ ps gs =
    (gs ≡ update_rows g s.games)
    × (ps ≡ touched player_id now s.players)
    × ((row : Game) × (find_game g.id s.games ≡ some row))

Updated : Game → Store → Unit {0} → List Player → List Game → Type 0
Updated g s _ ps gs =
    (gs ≡ update_rows g s.games)
    × (ps ≡ s.players)
    × ((row : Game) × (find_game g.id s.games ≡ some row))

update_game-Yields : (g : Game) (s : Store) → Yields (Updated g s) (update_game g s)
unfolding update_game Updated
update_game-Yields g s =
    statement_cases (Yields (Updated g s)) _ s (λ fs. tt)
      λ fs. elim (Option-cases (find_game g.id s.games)) [
        | inl missing ↦ rw missing tt
        | inr (row, found) ↦
            elim (Bool-cases
              (refers g.host_player_id s.players && refers g.guest_player_id s.players)) [
                | inl fine ↦ rw (found, fine) (refl, refl, (row, found))
                | inr dangling ↦ rw (found, dangling) tt
              ]
      ]

touch_player-Yields :
    (player_id now : ℕ) (s : Store)
    → Yields
        (λ _ ps gs. (ps ≡ touch_rows player_id now s.players) × (gs ≡ s.games))
        (touch_player player_id now s)
unfolding touch_player
touch_player-Yields player_id now s = statement_cases (Yields _) _ s (λ fs. tt) (λ fs. (refl, refl))

Yields-map :
    (Q R : Unit {0} → List Player → List Game → Type 0)
    → ((ps : List Player) (gs : List Game) → Q tt ps gs → R tt ps gs)
    → (r : Result (Unit {0}) × Store) → Yields Q r
    → Yields R r
Yields-map Q R f (ok tt, t) q = f t.players t.games q
Yields-map Q R f (err e, t) q = tt

touch_if-Yields :
    (g : Game) (player_id now : ℕ) (s t : Store)
    → Updated g s tt t.players t.games
    → Yields
        (Saved g player_id now s)
        ((if player_id == 0 then pure tt else touch_player player_id now) t)
unfolding Updated
touch_if-Yields g player_id now s t u = elim (Bool-cases (player_id == 0)) [
  | inl nobody ↦ rw nobody (u.0, rw nobody u.1, u.2)
  | inr somebody ↦ rw somebody (
      Yields-map (λ _ ps gs. (ps ≡ touch_rows player_id now t.players) × (gs ≡ t.games))
        (Saved g player_id now s)
        (λ ps gs q. (q.1 ∙ u.0, rw somebody (q.0 ∙ ap (touch_rows player_id now) u.1), u.2))
        (touch_player player_id now t) (touch_player-Yields player_id now t))
]

-- `SaveGame` is atomic: either the game's row is rewritten and the player touched, and the row was
-- there, or an error is returned and neither table has changed, whichever statement fails.
pub save_game-Ends :
    (g : Game) (player_id now : ℕ) (s : Store)
    → Ends (Saved g player_id now s) s (save_game g player_id now s)
unfolding save_game Updated
save_game-Ends g player_id now s = tx-Ends (Saved g player_id now s) _ s λ fs.
    Yields-bind (Updated g s) (Saved g player_id now s) (update_game g) _
      (λ _. touch_if-Yields g player_id now s) _ (update_game-Yields g (record s { faults = fs }))

-- The row that `UpdateGame` leaves for a game.
pub find_game-update_rows :
    (g row : Game) (gs : List Game)
    → find_game g.id gs ≡ some row
    → find_game g.id (update_rows g gs) ≡ some (write_row g row)
unfolding find_game update_rows
find_game-update_rows g row [] h = cc
find_game-update_rows g row (r ∷ rs) h = ground (arith, find_game-update_rows g row rs)

pub find_game-id : (i : ℕ) (row : Game) (gs : List Game) → find_game i gs ≡ some row → row.id ≡ i
unfolding find_game
find_game-id i row [] h = cc
find_game-id i row (r ∷ rs) h = ground (arith, find_game-id i row rs)

pub find_game-update_rows_ne :
    (g : Game) (i : ℕ) (gs : List Game) → i ≢ g.id → find_game i (update_rows g gs) ≡ find_game i gs
unfolding find_game update_rows
find_game-update_rows_ne g i [] h = refl
find_game-update_rows_ne g i (r ∷ rs) h = ground (arith, find_game-update_rows_ne g i rs h)

-- A game that was saved without error is what is read back by its id, except that the hash of its
-- secret stays the stored one; every other game is read as before.
pub get_game-save_game :
    (g : Game) (player_id now : ℕ) (s t : Store)
    → save_game g player_id now s ≡ (ok tt, t)
    → ((row : Game) × (find_game g.id s.games ≡ some row)
        × (find_game g.id t.games ≡ some (record g { secret_hash = row.secret_hash })))
      × ((i : ℕ) → i ≢ g.id → find_game i t.games ≡ find_game i s.games)
get_game-save_game g player_id now s t e =
    let (games, players, (row, found)) : Saved g player_id now s tt t.players t.games =
      subst (Ends (Saved g player_id now s) s) e (save_game-Ends g player_id now s) in
    (
      (
        row,
        found,
        rw games (
            find_game-update_rows g row s.games found
            ∙ ap (λ (i : ℕ). some (record g { id = i; secret_hash = row.secret_hash }))
                (find_game-id g.id row s.games found)),
      ),
      λ i ne. rw games (find_game-update_rows_ne g i s.games ne),
    )
