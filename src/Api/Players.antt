-- ===== src/Api/Players.antt =====
-- What POST /players answers and leaves behind.
use rps_backend.Api.Defs.{
  Chance, Library, Response, create_named, internal_error, invalid_username, malformed_body,
  no_discriminator, player_created, player_response, post_player,
}
use rps_backend.Api.Names.{is_username}
use rps_backend.Errors.{
  Result, err, failure, not_found, ok, proto, rule, unique_violation, username_exhausted,
}
use rps_backend.Hub.Actions.{verify_secret}
use rps_backend.Prelude.{
  Bool-cases, List, Option, [], ap, arith, inl, inr, none, refl, some, subst, sym, true, ℕ, ◌++◌,
  ◌∙◌, ◌∷◌, ◌≡◌, ◌≤◌, ◌⊎◌,
}
use rps_backend.Store.Adds.{Added, create_player-Added}
use rps_backend.Store.Defs.{Player, Store, Text, display_name, find_player, text_beq, text_beq_refl}
use rps_backend.Store.Players.{create_player, max_discriminator}
use rps_backend.Strings.Trim.{trim_space}

-- The player whose row was added, and the secret that the client was told.
pub record Registered (lib : Library) (s : Store) (r : Response × Store) : Type 0 where
  pub player : Player
  pub secret : Text
  pub status_is : r.0.status ≡ 201
  pub body_is :
      r.0.body ≡ player_created player.id player.discriminator (display_name player) secret
  pub players_are : r.1.players ≡ s.players ++ player ∷ []
  pub games_are : r.1.games ≡ s.games
  pub readable : find_player player.id r.1.players ≡ some player
  pub verifies : verify_secret lib.hub secret player.secret_hash ≡ true
  pub named : is_username player.base_name ≡ true
  pub in_range : player.discriminator ≤ max_discriminator

pub record Refused (s : Store) (r : Response × Store) : Type 0 where
  pub is_error : 400 ≤ r.0.status
  pub same_players : r.1.players ≡ s.players
  pub same_games : r.1.games ≡ s.games

find_player-append :
    (p : Player) (ps : List Player)
    → find_player p.id ps ≡ none
    → find_player p.id (ps ++ p ∷ []) ≡ some p
unfolding find_player
find_player-append p [] e = ground arith
find_player-append p (q ∷ qs) e = ground (arith, find_player-append p qs)

refused :
    (s t : Store) (r : Response)
    → 400 ≤ r.status
    → t.players ≡ s.players
    → t.games ≡ s.games
    → Refused s (r, t)
refused s t r e ps gs = record { is_error = e; same_players = ps; same_games = gs }

player_response-lem :
    (lib : Library) (s : Store) (p : Player) (secret : Text) (r : Result Player × Store)
    → is_username p.base_name ≡ true
    → p.secret_hash ≡ lib.hub.hash_secret secret
    → Added p s.players s.games r
    → Registered lib s (player_response secret r) ⊎ Refused s (player_response secret r)
player_response-lem lib s p secret (ok q, t) named hashed (same, ps, gs, missing, bound) =
    inl (record {
      player = q;
      secret = secret;
      status_is = refl;
      body_is = refl;
      players_are = ps;
      games_are = gs;
      readable = rw ps (
          find_player-append q s.players
            (ap (λ (i : ℕ). find_player i s.players) (ap (λ (x : Player). x.id) same) ∙ missing));
      verifies =
          ap (λ (k : Text). text_beq (lib.hub.hash_secret secret) k)
            (ap (λ (x : Player). x.secret_hash) same ∙ hashed)
          ∙ text_beq_refl (lib.hub.hash_secret secret);
      named = ap (λ (x : Player). is_username x.base_name) same ∙ named;
      in_range = bound;
    })
player_response-lem lib s p secret (err username_exhausted, t) named hashed (ps, gs) =
    inr (refused s t no_discriminator (omega arith) ps gs)
player_response-lem lib s p secret (err (rule e), t) named hashed (ps, gs) =
    inr (refused s t internal_error (omega arith) ps gs)
player_response-lem lib s p secret (err (proto e), t) named hashed (ps, gs) =
    inr (refused s t internal_error (omega arith) ps gs)
player_response-lem lib s p secret (err not_found, t) named hashed (ps, gs) =
    inr (refused s t internal_error (omega arith) ps gs)
player_response-lem lib s p secret (err unique_violation, t) named hashed (ps, gs) =
    inr (refused s t internal_error (omega arith) ps gs)
player_response-lem lib s p secret (err failure, t) named hashed (ps, gs) =
    inr (refused s t internal_error (omega arith) ps gs)

module _ (lib : Library) (ch : Chance) (quiet : ch.races ≡ []) where
  create_named-lem :
      (name : Text) (s : Store)
      → Registered lib s (create_named lib ch name s) ⊎ Refused s (create_named lib ch name s)
  unfolding create_named
  create_named-lem name s = elim (Bool-cases (is_username name)) [
    | inr bad ↦ rw bad (inr (refused s s invalid_username (omega arith) refl refl))
    | inl good ↦ rw good (
        let plain = lib.base64 ch.bytes in
        let hash = lib.hub.hash_secret plain in
        let p : Player = record {
          id = ch.uuid;
          base_name = name;
          discriminator = 0;
          secret_hash = hash;
          last_active_at = ch.now;
        } in
        player_response-lem lib s p plain
          (create_player ch.uuid ch.draws ch.races name hash ch.now s) good refl
          (subst
            (λ (rs : List (Store → Store)).
              Added p s.players s.games (create_player ch.uuid ch.draws rs name hash ch.now s))
            (sym quiet) (create_player-Added s ch.uuid ch.draws name hash ch.now)))
  ]

-- While nobody else writes to the database, POST /players either answers 201, has added one player,
-- whose name, discriminator and id it reports, whose username keeps the rule and whose stored hash
-- fits the secret that it reports; or it answers with an error and has changed no table.
pub post_player-Registered :
    (lib : Library) (ch : Chance) (body : Text) (s : Store)
    → ch.races ≡ []
    → Registered lib s (post_player lib ch body s) ⊎ Refused s (post_player lib ch body s)
unfolding post_player
post_player-Registered lib ch body s quiet = go (lib.decode_username body)
  where
    go :
        (o : Option Text)
        → Registered lib s (elim o as (λ _. Response × Store) [
          | none ↦ (malformed_body, s)
          | some username ↦ create_named lib ch (trim_space username) s
        ])
          ⊎ Refused s (elim o as (λ _. Response × Store) [
            | none ↦ (malformed_body, s)
            | some username ↦ create_named lib ch (trim_space username) s
          ])
    go none = inr (refused s s malformed_body (omega arith) refl refl)
    go (some username) = create_named-lem lib ch quiet (trim_space username) s
