-- ===== src/Server/Rows.antt =====
-- The writes of the whole program to the table of games (internal/store/store.go), and what they
-- preserve when the hub makes them.
use rps_backend.Errors.{Result, err, ok}
use rps_backend.Hub.Conn.{Attachment}
use rps_backend.Hub.Defs.{Hub, attach_locked, detach_from, detach_locked, on_store}
use rps_backend.Hub.Enter.{Free}
use rps_backend.Hub.Follows.{Follows}
use rps_backend.Hub.Support.{claim_player}
use rps_backend.Hub.Steps.{Holding, Preserves, Run, StepPreserves}
use rps_backend.Prelude.{List, Option, [], ap, none, some, subst, sym, ℕ, ◌++◌, ◌∙◌, ◌∷◌, ◌≡◌}
use rps_backend.Rules.Defs.{new_state}
use rps_backend.Store.Defs.{
  Game, Store, delete_game, delete_game_row, delete_player, find_game, set_null, statement_cases,
  touch_player,
}
use rps_backend.Store.Save.{Saved, save_game-Ends}
use rps_backend.Store.Tx.{Ends, save_game, update_rows}

-- A predicate on the table of games that each write preserves: `Fresh` is what holds of the id of a new
-- game.
pub record Lasting (Fresh : ℕ → Type 0) (G : List Game → Type 0) : Type 0 where
  pub overwritten :
      (row g : Game) (gs : List Game)
      → find_game g.id gs ≡ some row
      → Follows row g
      → G gs
      → G (update_rows g gs)
  pub unseated : (i : ℕ) (gs : List Game) → G gs → G (set_null i gs)
  pub deleted : (i : ℕ) (gs : List Game) → G gs → G (delete_game_row i gs)
  pub hosted :
      (g : Game) (gs : List Game)
      → Fresh g.id
      → g.state ≡ new_state
      → g.guest_player_id ≡ 0
      → G gs
      → G (gs ++ g ∷ [])

-- `G` holds of the games that somebody last saw and of those in the database of the hub.
abbrev pub Rows : (List Game → List Game → Type 0) → Hub → Type 0
Rows G h = G h.seen h.store.games

module _ {Fresh : ℕ → Type 0} {G : List Game → Type 0} (k : Lasting Fresh G) where
  Saved-Rows :
      (row g : Game) (player_id now : ℕ) (s : Store) (r : Result (Unit {0}) × Store)
      → Follows row g
      → find_game row.id s.games ≡ some row
      → Ends (Saved g player_id now s) s r
      → G s.games
      → G r.1.games
  Saved-Rows row g player_id now s (ok tt, t) f found e q =
      rw e.0
        (k.overwritten row g s.games (ap (λ (i : ℕ). find_game i s.games) f.same_id ∙ found) f q)
  Saved-Rows row g player_id now s (err _, t) f found e q = rw e.1 q

module _ {Fresh : ℕ → Type 0} {G : List Game → List Game → Type 0}
    (k : (seen : List Game) → Lasting Fresh (G seen)) where
  detach_from-Rows : (a : Option Attachment) (c : ℕ) → Preserves (Rows G) (detach_from a c)
  unfolding detach_from
  detach_from-Rows none c h q = q
  detach_from-Rows (some a) c h q = q

  detach_locked-Rows : (c : ℕ) → Preserves (Rows G) (detach_locked c)
  unfolding detach_locked
  detach_locked-Rows c h q = detach_from-Rows (h.conns c).attached c h q

  save_game-Rows :
      (row g : Game) (player_id now : ℕ)
      → Follows row g
      → Run (Holding (Rows G) row) (Rows G) (on_store (save_game g player_id now))
  unfolding on_store
  save_game-Rows row g player_id now f h (q, found) =
      Saved-Rows (k h.seen) row g player_id now h.store (save_game g player_id now h.store) f found
        (save_game-Ends g player_id now h.store) q

  touch_player-Rows : (i now : ℕ) → StepPreserves (Rows G) (on_store (touch_player i now))
  unfolding on_store touch_player
  touch_player-Rows i now h q =
      statement_cases (λ r. G h.seen r.1.games) _ h.store (λ fs. q) (λ fs. q)

  delete_player-Rows : (i : ℕ) → StepPreserves (Rows G) (on_store (delete_player i))
  unfolding on_store delete_player
  delete_player-Rows i h q =
      statement_cases (λ r. G h.seen r.1.games) _ h.store (λ fs. q)
        (λ fs. (k h.seen).unseated i h.store.games q)

  delete_game-Rows : (i : ℕ) → StepPreserves (Rows G) (on_store (delete_game i))
  unfolding on_store delete_game
  delete_game-Rows i h q =
      statement_cases (λ r. G h.seen r.1.games) _ h.store (λ fs. q)
        (λ fs. (k h.seen).deleted i h.store.games q)

  -- The hub's operations on connections do not touch the database.
  pub Rows-Free : Free (Rows G)
  unfolding attach_locked claim_player
  Rows-Free = record {
    active = record {
      writes = record {
        quiet = record {
          notified = λ c body h q. q;
          closed_one = λ c code h q. q;
          detached_one = detach_locked-Rows;
          queried = λ h s same q. subst (G h.seen) (sym same.1) q;
        };
        saved = save_game-Rows;
        touched = touch_player-Rows;
        erased_player = delete_player-Rows;
        erased_game = delete_game-Rows;
      };
      sent = λ c request_id body h q. q;
      claimed = λ player_id c h q. q;
    };
    attached = λ c game_id seat h q. q;
  }
