-- ===== src/Server/Runs.antt =====
-- What POST /games and GET /healthz (internal/httpapi/httpapi.go) do to the table of games, and so what
-- every operation of the server does to it.
use rps_backend.Api.Defs.{
  Chance, Library, game_for, game_response, get_health, health_response, ping, post_game,
}
use rps_backend.Errors.{
  Result, err, failure, not_found, ok, proto, rule, unique_violation, username_exhausted,
}
use rps_backend.Hub.Actions.{verify_secret}
use rps_backend.Hub.Defs.{Hub, register}
use rps_backend.Hub.Operations.{HubOp, op_creates_game}
use rps_backend.Hub.Served.{Served}
use rps_backend.Prelude.{
  All, Bool, Bool-cases, List, false, true, Option-cases, [], inl, inr, not, refl, subst, sym, ℕ,
  ◌∷◌, ◌≡◌,
}
use rps_backend.Rules.Defs.{new_state}
use rps_backend.Server.History.{Now}
use rps_backend.Server.Rows.{Lasting, Rows, Rows-Free}
use rps_backend.Store.Defs.{Game, Player, Store, Text, get_player, statement_cases}
use rps_backend.Store.Hosted.{Hosts, create_game-Ends, hosted_game}
use rps_backend.Store.Reads.{get_player-ReadsOnly}
use rps_backend.Store.Tx.{Ends, create_game}
use rps_backend.Server.Posts.{Races, post_player-games}

module _ {Fresh : ℕ → Type 0} {G : List Game → Type 0} (k : Lasting Fresh G) where
  created-games :
      (secret : Text) (g : Game) (s : Store) (r : Result Game × Store)
      → Fresh g.id
      → g.state ≡ new_state
      → g.guest_player_id ≡ 0
      → Ends (Hosts g s) s r
      → G s.games
      → G (game_response secret r).1.games
  created-games secret g s (ok a, t) fresh waits alone e q =
      rw e.1 (k.hosted g s.games fresh waits alone q)
  created-games secret g s (err _, t) fresh waits alone e q = rw e.1 q

  game_for-games :
      (lib : Library) (ch : Chance) (secret : Text) (r : Result Player × Store)
      → Fresh ch.uuid
      → G r.1.games
      → G (game_for lib ch secret r).1.games
  game_for-games lib ch secret (ok p, s) fresh q =
      elim (Bool-cases (not (verify_secret lib.hub secret p.secret_hash))) [
        | inl wrong ↦ rw wrong q
        | inr right ↦
            let hash = lib.hub.hash_secret (lib.base64 ch.bytes) in
            rw right (
              created-games (lib.base64 ch.bytes) (hosted_game ch.uuid p.id hash ch.now) s
                (create_game ch.uuid p.id hash ch.now s) fresh refl refl
                (create_game-Ends ch.uuid p.id hash ch.now s) q)
      ]
  game_for-games lib ch secret (err not_found, s) fresh q = q
  game_for-games lib ch secret (err (rule e), s) fresh q = q
  game_for-games lib ch secret (err (proto e), s) fresh q = q
  game_for-games lib ch secret (err username_exhausted, s) fresh q = q
  game_for-games lib ch secret (err unique_violation, s) fresh q = q
  game_for-games lib ch secret (err failure, s) fresh q = q

  post_game-games :
      (lib : Library) (ch : Chance) (body : Text) (s : Store)
      → Fresh ch.uuid
      → G s.games
      → G (post_game lib ch body s).1.games
  unfolding post_game
  post_game-games lib ch body s fresh q = elim (Option-cases (lib.decode_credentials body)) [
    | inl malformed ↦ rw (malformed, post_game) q
    | inr ((player_id, secret), decoded) ↦
        rw (decoded, post_game)
          (game_for-games lib ch secret (get_player player_id s) fresh
            (subst G (sym (get_player-ReadsOnly player_id s).1) q))
  ]

  get_health-games : (s : Store) → G s.games → G (get_health s).1.games
  unfolding get_health ping
  get_health-games s q = go _ (statement_cases (λ r. G r.1.games) _ s (λ fs. q) (λ fs. q))
    where
      go : (r : Result (Unit {0}) × Store) → G r.1.games → G (health_response r).1.games
      go (ok _, t) q = q
      go (err e, t) q = q

module _ {Fresh : ℕ → Type 0} {G : List Game → List Game → Type 0}
    (k : (seen : List Game) → Lasting Fresh (G seen)) where
  store-Races :
      (h : Hub) (races : List (Store → Store))
      → All (λ race. (j : Hub) → Rows G j → Rows G (record j { store = race j.store })) races
      → Races (G h.seen) races
  store-Races h [] others = tt
  store-Races h (race ∷ races) others =
      (λ s q. others.0 (record h { store = s }) q, store-Races h races others.1)

  -- Every operation of the server preserves it, as long as the ids of new games are fresh.
  pub Rows-Served :
      (Fits : HubOp → Type 0)
      → ((lib : Library) (ch : Chance) (body : Text)
          → Fits (op_creates_game lib ch body)
          → Fresh ch.uuid)
      → Served Fits (Rows G)
  unfolding register
  Rows-Served Fits fresh = record {
    free = Rows-Free k;
    arrived = λ h q. q;
    landed = λ c m h q. q;
    delivered = λ c h q. q;
    forgotten = λ h players live q. q;
    passed = λ h time q. q;
    player_created = λ lib ch body h others q.
        post_player-games (G h.seen) lib ch body h.store (store-Races h ch.races others) q;
    game_created = λ lib ch body h fits q.
        post_game-games (k h.seen) lib ch body h.store (fresh lib ch body fits) q;
    health_checked = λ h q. get_health-games (k h.seen) h.store q;
  }

-- The same where what was seen is fixed.
pub Now-Served :
    {Fresh : ℕ → Type 0} (G : List Game → List Game → Type 0)
    → ((seen : List Game) → Lasting Fresh (G seen))
    → (Fits : HubOp → Type 0)
    → ((lib : Library) (ch : Chance) (body : Text)
        → Fits (op_creates_game lib ch body)
        → Fresh ch.uuid)
    → (watched : Bool) (seen : List Game) → Served Fits (Now G watched seen)
Now-Served G k Fits fresh true seen = Rows-Served k Fits fresh
Now-Served G k Fits fresh false seen = Rows-Served (λ _. k seen) Fits fresh
