-- ===== src/Api/Games.antt =====
-- What POST /games answers and leaves behind.
use rps_backend.Api.Defs.{
  Chance, Library, Response, game_created, game_for, game_response, malformed_body, post_game,
}
use rps_backend.Api.Players.{Refused}
use rps_backend.Errors.{
  Result, err, failure, not_found, ok, proto, rule, unique_violation, username_exhausted,
}
use rps_backend.Hub.Actions.{verify_secret}
use rps_backend.Prelude.{
  Bool-cases, List, Option, [], ap, arith, inl, inr, none, refl, some, sym, true, ℕ, ◌++◌, ◌∙◌, ◌∷◌,
  ◌≡◌, ◌≢◌, ◌⊎◌,
}
use rps_backend.Rules.Defs.{host, new_state}
use rps_backend.Store.Defs.{
  Game, Player, Store, Text, find_game, find_player, get_player, seat_of, text_beq_refl,
}
use rps_backend.Store.Hosted.{Hosts, create_game-Ends, hosted_game}
use rps_backend.Store.Reads.{Got, get_player-Got}
use rps_backend.Store.Tx.{Ends, create_game}

-- The host, who proved to know the secret, the game that was added, and the secret that was told.
pub record Opened (lib : Library) (body : Text) (s : Store) (r : Response × Store) : Type 0 where
  pub host_player : Player
  pub host_secret : Text
  pub game : Game
  pub game_secret : Text
  pub asked : lib.decode_credentials body ≡ some (host_player.id, host_secret)
  pub known : find_player host_player.id s.players ≡ some host_player
  pub proved : verify_secret lib.hub host_secret host_player.secret_hash ≡ true
  pub status_is : r.0.status ≡ 201
  pub body_is : r.0.body ≡ game_created game.id game_secret
  pub games_are : r.1.games ≡ s.games ++ game ∷ []
  pub readable : find_game game.id r.1.games ≡ some game
  pub hosted : seat_of game host_player.id ≡ some host
  pub waits : game.state ≡ new_state
  pub verifies : verify_secret lib.hub game_secret game.secret_hash ≡ true

find_game-append :
    (g : Game) (gs : List Game) → find_game g.id gs ≡ none → find_game g.id (gs ++ g ∷ []) ≡ some g
unfolding find_game
find_game-append g [] e = ground arith
find_game-append g (q ∷ qs) e = ground (arith, find_game-append g qs)

find_player-id : (i : ℕ) (p : Player) (ps : List Player) → find_player i ps ≡ some p → p.id ≡ i
unfolding find_player
find_player-id i p [] e = cc
find_player-id i p (q ∷ qs) e = ground (arith, find_player-id i p qs)

seat_of-hosted :
    (uuid i : ℕ) (hash : Text) (now : ℕ)
    → i ≢ 0
    → seat_of (hosted_game uuid i hash now) i ≡ some host
unfolding seat_of
seat_of-hosted uuid i hash now given = ground arith

module _ (lib : Library) (ch : Chance) (body : Text) (s : Store)
    (no_empty_id : find_player 0 s.players ≡ none) where
  game_response-lem :
      (p : Player) (secret : Text)
      → lib.decode_credentials body ≡ some (p.id, secret)
      → find_player p.id s.players ≡ some p
      → verify_secret lib.hub secret p.secret_hash ≡ true
      → (t : Store) → t.players ≡ s.players
      → t.games ≡ s.games
      → (r : Result Game × Store)
      → Ends
          (Hosts (hosted_game ch.uuid p.id (lib.hub.hash_secret (lib.base64 ch.bytes)) ch.now) t)
          t
          r
      → Opened lib body s (game_response (lib.base64 ch.bytes) r)
        ⊎ Refused s (game_response (lib.base64 ch.bytes) r)
  game_response-lem p secret asked known proved t ps gs (err e, u) (u_ps, u_gs) =
      inr (record { is_error = omega arith; same_players = u_ps ∙ ps; same_games = u_gs ∙ gs })
  game_response-lem p secret asked known proved t ps gs (ok g, u)
        (same, added, missing, touched_ps) =
      let plain = lib.base64 ch.bytes in
      let new_game = hosted_game ch.uuid p.id (lib.hub.hash_secret plain) ch.now in
      let all_games : u.games ≡ s.games ++ new_game ∷ [] =
        added ∙ ap (λ (xs : List Game). xs ++ new_game ∷ []) gs in
      inl (record {
        host_player = p;
        host_secret = secret;
        game = new_game;
        game_secret = plain;
        asked = asked;
        known = known;
        proved = proved;
        status_is = refl;
        body_is = ap (λ (a : Game). game_created a.id plain) same;
        games_are = all_games;
        readable =
            ap (λ (xs : List Game). find_game ch.uuid xs) all_games
            ∙ find_game-append new_game s.games
                (ap (λ (xs : List Game). find_game ch.uuid xs) (sym gs) ∙ missing);
        hosted =
            seat_of-hosted ch.uuid p.id (lib.hub.hash_secret plain) ch.now
              (λ z. cc (ap (λ (i : ℕ). find_player i s.players) z));
        waits = refl;
        verifies = text_beq_refl (lib.hub.hash_secret plain);
      })

  game_for-lem :
      (i : ℕ) (secret : Text)
      → lib.decode_credentials body ≡ some (i, secret)
      → (r : Result Player × Store) → Got i s r
      → Opened lib body s (game_for lib ch secret r) ⊎ Refused s (game_for lib ch secret r)
  game_for-lem i secret asked (ok p, t) (found, ps, gs) =
      let id_is = find_player-id i p s.players found in
      elim (Bool-cases (verify_secret lib.hub secret p.secret_hash)) [
        | inr wrong ↦
            rw wrong (inr (record { is_error = omega arith; same_players = ps; same_games = gs }))
        | inl right ↦ rw right (
            game_response-lem p secret (asked ∙ ap (λ (j : ℕ). some (j, secret)) (sym id_is))
              (ap (λ (j : ℕ). find_player j s.players) id_is ∙ found) right t ps gs
              (create_game ch.uuid p.id (lib.hub.hash_secret (lib.base64 ch.bytes)) ch.now t)
              (create_game-Ends ch.uuid p.id (lib.hub.hash_secret (lib.base64 ch.bytes)) ch.now t))
      ]
  game_for-lem i secret asked (err not_found, t) (missing, ps, gs) =
      inr (record { is_error = omega arith; same_players = ps; same_games = gs })
  game_for-lem i secret asked (err (rule e), t) (ps, gs) =
      inr (record { is_error = omega arith; same_players = ps; same_games = gs })
  game_for-lem i secret asked (err (proto e), t) (ps, gs) =
      inr (record { is_error = omega arith; same_players = ps; same_games = gs })
  game_for-lem i secret asked (err username_exhausted, t) (ps, gs) =
      inr (record { is_error = omega arith; same_players = ps; same_games = gs })
  game_for-lem i secret asked (err unique_violation, t) (ps, gs) =
      inr (record { is_error = omega arith; same_players = ps; same_games = gs })
  game_for-lem i secret asked (err failure, t) (ps, gs) =
      inr (record { is_error = omega arith; same_players = ps; same_games = gs })

-- POST /games either answers 201, and then the request named a player and this player's secret, and
-- one game was added that waits for its guest with this player as the host, whose id it reports and
-- whose stored hash fits the secret that it reports; or it answers with an error and has changed no
-- table.
pub post_game-Opened :
    (lib : Library) (ch : Chance) (body : Text) (s : Store)
    → find_player 0 s.players ≡ none
    → Opened lib body s (post_game lib ch body s) ⊎ Refused s (post_game lib ch body s)
unfolding post_game
post_game-Opened lib ch body s no_empty_id = go (lib.decode_credentials body) refl
  where
    go :
        (o : Option (ℕ × Text))
        → lib.decode_credentials body ≡ o
        → Opened lib body s (elim o as (λ _. Response × Store) [
          | none ↦ (malformed_body, s)
          | some (i, secret) ↦ game_for lib ch secret (get_player i s)
        ])
          ⊎ Refused s (elim o as (λ _. Response × Store) [
            | none ↦ (malformed_body, s)
            | some (i, secret) ↦ game_for lib ch secret (get_player i s)
          ])
    go none e = inr (record { is_error = omega arith; same_players = refl; same_games = refl })
    go (some (i, secret)) e =
        game_for-lem lib ch body s no_empty_id i secret e (get_player i s) (get_player-Got i s)
