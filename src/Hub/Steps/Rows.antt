-- ===== src/Hub/Steps/Rows.antt =====
-- The writes of internal/hub to the row of a game, each over the row that was read under the lock.
use rps_backend.Errors.{Action, Result, err, if_not_found, not_in_game, ok, proto, pure, ◌>>=◌}
use rps_backend.Hub.Conn.{Attachment, attachment_id}
use rps_backend.Hub.Defs.{Hub, on_store}
use rps_backend.Hub.Follows.{Follows, Reaches, state-Follows}
use rps_backend.Hub.Steps.Core.{
  Preserves, Quiet, Run, Stable, StepPreserves, on_store-StepPreserves, Run-bind,
}
use rps_backend.Hub.Steps.Endings.{
  EndsIn, Leads, Leads-Run, Leads-bind, Run-Leads, if_not_found-Leads, lift-Leads,
}
use rps_backend.Hub.Support.{load_attached, save, with_game, lift}
use rps_backend.Prelude.{Option, arith, none, some, ap, ℕ, ◌≡◌, ◌∙◌}
use rps_backend.Rules.Defs.{State}
use rps_backend.Store.Defs.{
  Game, Store, delete_game, delete_player, find_game, get_game, touch_player,
}
use rps_backend.Store.Ids.{
  delete_game-KeepsIds, delete_player-KeepsIds, save_game-KeepsIds, touch_player-KeepsIds,
}
use rps_backend.Store.Reads.{GotGame, get_game-GotGame}
use rps_backend.Store.Save.{find_game-id}
use rps_backend.Store.Tx.{save_game}

-- The row is in the database as it was read.
abbrev pub Holding : (Hub → Type 0) → Game → Hub → Type 0
Holding P row h = P h × (find_game row.id h.store.games ≡ some row)

-- What each write of the hub preserves.
pub record Writes (P : Hub → Type 0) : Type 0 where
  pub quiet : Quiet P
  pub saved :
      (row g : Game) (player_id now : ℕ)
      → Follows row g
      → Run (Holding P row) P (on_store (save_game g player_id now))
  pub touched : (i now : ℕ) → StepPreserves P (on_store (touch_player i now))
  pub erased_player : (i : ℕ) → StepPreserves P (on_store (delete_player i))
  pub erased_game : (i : ℕ) → StepPreserves P (on_store (delete_game i))

pub Stable-Writes : {P : Hub → Type 0} → Stable P → Writes P
Stable-Writes st = record {
  quiet = st.quiet;
  saved = λ row g player_id now f h (k, found).
      on_store-StepPreserves st _ (save_game-KeepsIds g player_id now) h k;
  touched = λ i now. on_store-StepPreserves st _ (touch_player-KeepsIds i now);
  erased_player = λ i. on_store-StepPreserves st _ (delete_player-KeepsIds i);
  erased_game = λ i. on_store-StepPreserves st _ (delete_game-KeepsIds i);
}

module _ {P : Hub → Type 0} (w : Writes P) where
  pub get_game-Leads : (i : ℕ) → Leads P P (Holding P) (on_store (get_game i))
  unfolding on_store
  get_game-Leads i h k = go (get_game i h.store) (get_game-GotGame i h.store)
    where
      go :
          (r : Result Game × Store)
          → GotGame i h.store r
          → EndsIn P (Holding P) (r.0, record h { store = r.1 })
      go (ok g, t) (found, same) = (
        w.quiet.queried h t same k,
        rw same.1 (
            ap (λ (j : ℕ). find_game j h.store.games) (find_game-id i g h.store.games found)
            ∙ found),
      )
      go (err e, t) same = w.quiet.queried h t same k

  load_attached-Leads :
      (c game_id : ℕ) (a : Option Attachment)
      → Leads P P (λ t. Holding P t.0) (load_attached c game_id a)
  unfolding load_attached
  load_attached-Leads c game_id none h k = k
  load_attached-Leads c game_id (some a) h k = ground (
    arith,
    Leads-bind {B = Game × Attachment × ℕ} P P (Holding P) (λ t. Holding P t.0)
        (if_not_found (proto not_in_game) (on_store (get_game game_id)))
        (λ g. pure (g, a, (h.conns c).player_id))
        (if_not_found-Leads P P (Holding P) (proto not_in_game) (on_store (get_game game_id))
          (get_game-Leads game_id))
        (λ g h q. q) h k,
  )

  with_game-Leads :
      (wait : Hub → Hub) (c : ℕ)
      → Preserves P wait
      → Leads P P (λ t. Holding P t.0) (with_game wait c)
  unfolding with_game
  with_game-Leads wait c keeps h k = ground (
    arith,
    load_attached-Leads c (attachment_id (h.conns c).attached) ((wait h).conns c).attached (wait h)
        (keeps h k),
  )

  pub save-Run :
      (row g : Game) (player_id : ℕ) → Follows row g → Run (Holding P row) P (save g player_id)
  unfolding save
  save-Run row g player_id f h q =
      Run-bind (Holding P row) P P _ _ (λ h k. k)
        (w.saved row _ player_id h.now (record {
          same_id = f.same_id;
          same_host = f.same_host;
          reaches = f.reaches;
          seated = f.seated;
        }))
        (λ _ h k. k) h q

  -- An action on the game of a connection: load it under its lock, apply a rule, save it, and go on.
  pub ruled-StepPreserves {ℓ} :
      {A : Type ℓ} (wait : Hub → Hub) (c : ℕ) (r : Game × Attachment × ℕ → Result A)
      (state : A → State) (k : Game × Attachment × ℕ → A → Game → Action Hub (Unit {0}))
      → Preserves P wait
      → ((t : Game × Attachment × ℕ) (a : A) → r t ≡ ok a → Reaches t.0.state (state a))
      → ((t : Game × Attachment × ℕ) (a : A) (saved : Game) → StepPreserves P (k t a saved))
      → StepPreserves P (
          with_game wait c >>= λ t.
          lift (r t) >>= λ a. save (record (t.0) { state = state a }) t.2 >>= λ saved. k t a saved)
  ruled-StepPreserves wait c r state k keeps reaches rest = Leads-Run P P _ (
      Leads-bind P P (λ t. Holding P t.0) (λ _. P) _ _ (with_game-Leads wait c keeps)
        λ t.
          Leads-bind P (Holding P t.0) (λ a h. Holding P t.0 h × Reaches t.0.state (state a))
            (λ _. P) _ _
            (lift-Leads P (Holding P t.0) (λ a. Reaches t.0.state (state a)) (r t) (λ h q. q.0)
              (reaches t))
            λ a. Run-Leads _ P _ λ h (q, reached).
              Run-bind (Holding P t.0) P P _ _ (λ h k. k)
                (save-Run t.0 _ t.2 (state-Follows t.0 (state a) reached)) (rest t a) h q)
