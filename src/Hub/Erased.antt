-- ===== src/Hub/Erased.antt =====
-- What `ExpirePlayer` of internal/hub/hub.go leaves of a player.
use mathlib.Core.Option.{some-injective}
use rps_backend.Errors.{
  Action, Result, err, failure, not_found, ok, proto, rule, unique_violation, username_exhausted,
  ◌>>=◌, ◌>>◌,
}
use rps_backend.Hub.Defs.{Hub, on_store}
use rps_backend.Hub.Expiry.{
  PlayerWaits, close_for_expired_player, drop_connection, each_action, expire_player,
  skip_not_found, when, with_loaded,
}
use rps_backend.Hub.Support.{update_hub}
use rps_backend.Hub.Steps.{EndsIn, Leads, Leads-bind}
use rps_backend.Prelude.{
  true, All, Bool-cases, List, [], ap, arith, false, inl, inr, ltb, none, refl, some, sym, ℕ, ◌∙◌,
  ◌∷◌, ◌≡◌, ◌≢◌, ◌⊎◌,
}
use rps_backend.Store.Defs.{
  Game, Player, Store, delete_player, delete_player_row, find_player, get_player, null_if,
  open_game_ids_for_player, set_null, statement_cases,
}
use rps_backend.Store.Reads.{Got, get_player-Got}

-- No row is the player's, and no game refers to it.

abbrev pub Unseated : ℕ → Game → Type 0
Unseated i g = (g.host_player_id ≢ i) × (g.guest_player_id ≢ i)

pub record Erased (i : ℕ) (s : Store) : Type 0 where
  pub no_row : find_player i s.players ≡ none
  pub no_seat : All (Unseated i) s.games

delete_player_row-none : (i : ℕ) (ps : List Player) → find_player i (delete_player_row i ps) ≡ none
unfolding find_player delete_player_row
delete_player_row-none i [] = refl
delete_player_row-none i (p ∷ ps) = ground (arith, delete_player_row-none i ps)

null_if-differs : (i j : ℕ) → i ≢ 0 → null_if i j ≢ i
null_if-differs i j given e = ground arith

set_null-Unseated : (i : ℕ) (gs : List Game) → i ≢ 0 → All (Unseated i) (set_null i gs)
unfolding set_null
set_null-Unseated i [] given = tt
set_null-Unseated i (g ∷ gs) given = (
  (null_if-differs i g.host_player_id given, null_if-differs i g.guest_player_id given),
  set_null-Unseated i gs given,
)

abbrev Any : Hub → Type 0
Any h = Unit {0}

some_end {ℓ} : {A : Type ℓ} (m : Action Hub A) → Leads Any Any (λ _. Any) m
some_end {A} m h p = go (m h)
  where
    go : (r : Result A × Hub) → EndsIn Any (λ _. Any) r
    go (ok a, h') = tt
    go (err e, h') = tt

delete_player-Leads :
    (i : ℕ) → i ≢ 0 → Leads Any Any (λ _ h. Erased i h.store) (on_store (delete_player i))
unfolding on_store delete_player
delete_player-Leads i given h p =
    statement_cases (λ r. EndsIn Any (λ _ k. Erased i k.store) (r.0, record h { store = r.1 })) _
      h.store (λ fs. tt)
      λ fs. record {
        no_row = delete_player_row-none i h.store.players;
        no_seat = set_null-Unseated i h.store.games given;
      }

expire_stale-Leads :
    (w : PlayerWaits) (i : ℕ)
    → i ≢ 0
    → Leads Any Any
        (λ _ h. Erased i h.store)
        (update_hub w.loading >> on_store (open_game_ids_for_player i) >>= λ game_ids.
          each_action (λ g. close_for_expired_player (w.closing g) g i) game_ids
          >> update_hub w.dropping
          >> update_hub (λ h. drop_connection w.leaving (h.players i) h)
          >> update_hub w.deleting
          >> on_store (delete_player i))
expire_stale-Leads w i given =
    Leads-bind Any Any (λ _. Any) (λ _ h. Erased i h.store) _ _ (some_end _)
      λ game_ids.
        Leads-bind Any Any (λ _. Any) (λ _ h. Erased i h.store) _ _ (some_end _)
          λ _. delete_player-Leads i given

-- The player was not there or has been active since the cutoff, and the tables are as before.
abbrev pub Spared : ℕ → ℕ → Store → Store → Type 0
Spared cutoff i s t =
    ((p : Player) → find_player i s.players ≡ some p → ltb p.last_active_at cutoff ≡ false)
    × (t.players ≡ s.players)
    × (t.games ≡ s.games)

-- The player is there, and has been inactive since before the cutoff.
abbrev pub Inactive : ℕ → ℕ → Store → Type 0
Inactive cutoff i s =
    (p : Player) × (find_player i s.players ≡ some p) × (ltb p.last_active_at cutoff ≡ true)

-- What an expiry that returns no error ends in.
abbrev pub Expires : ℕ → ℕ → Hub → Result (Unit {0}) × Hub → Type 0
Expires cutoff i h r =
    EndsIn Any
      (λ _ k. (Inactive cutoff i h.store × Erased i k.store) ⊎ Spared cutoff i h.store k.store) r

Erased-Expires :
    (cutoff i : ℕ) (h : Hub) (r : Result (Unit {0}) × Hub)
    → Inactive cutoff i h.store
    → EndsIn Any (λ _ k. Erased i k.store) r
    → Expires cutoff i h r
Erased-Expires cutoff i h (ok a, k) inactive q = inl (inactive, q)
Erased-Expires cutoff i h (err e, k) inactive q = tt

after_get :
    (w : PlayerWaits) (cutoff i : ℕ) (h : Hub)
    → i ≢ 0
    → (r : Result Player × Store) → Got i h.store r
    → Expires cutoff i h (elim r.0 as (λ _. Result (Unit {0}) × Hub) [
      | ok p ↦
          when
            (ltb p.last_active_at cutoff)
            (update_hub w.loading >> on_store (open_game_ids_for_player i) >>= λ game_ids.
              each_action (λ g. close_for_expired_player (w.closing g) g i) game_ids
              >> update_hub w.dropping
              >> update_hub (λ h. drop_connection w.leaving (h.players i) h)
              >> update_hub w.deleting
              >> on_store (delete_player i))
            (record h { store = r.1 })
      | err e ↦ skip_not_found (err e, record h { store = r.1 })
    ])
unfolding when
after_get w cutoff i h given (ok p, t) (found, ps, gs) =
    elim (Bool-cases (ltb p.last_active_at cutoff)) [
      | inl stale ↦ rw stale (
          Erased-Expires cutoff i h _ (p, found, stale)
            (expire_stale-Leads w i given (record h { store = t }) tt))
      | inr fresh ↦ rw fresh (
          inr (
            λ q also.
                ap (λ (o : Player). ltb o.last_active_at cutoff)
                  (some-injective q p (sym also ∙ found))
                ∙ fresh,
            ps,
            gs,
          ))
    ]
after_get w cutoff i h given (err not_found, t) (missing, ps, gs) = inr (λ q found. cc, ps, gs)
after_get w cutoff i h given (err (rule e), t) same = tt
after_get w cutoff i h given (err (proto e), t) same = tt
after_get w cutoff i h given (err username_exhausted, t) same = tt
after_get w cutoff i h given (err unique_violation, t) same = tt
after_get w cutoff i h given (err failure, t) same = tt

-- Whatever statement fails, and whatever others do while it holds no lock of a game: where expiring a
-- player returns no error, either the player was there and inactive since before the cutoff, and now no
-- row is the player's and no game refers to the player; or the player was not there or active since the
-- cutoff, and the tables are as before.
pub expire_player-Expires :
    (w : PlayerWaits) (cutoff i : ℕ) (h : Hub)
    → i ≢ 0
    → Expires cutoff i h (expire_player w cutoff i h)
unfolding expire_player with_loaded on_store
expire_player-Expires w cutoff i h given =
    after_get w cutoff i h given (get_player i h.store) (get_player-Got i h.store)
