-- ===== src/Server/Posts.antt =====
-- What POST /players (internal/httpapi/httpapi.go) does to the table of games.
use rps_backend.Api.Defs.{Chance, Library, create_named, player_response, post_player}
use rps_backend.Api.Names.{is_username}
use rps_backend.Errors.{
  Action, Result, err, fail, failure, not_found, ok, proto, rule, unique_violation,
  username_exhausted,
}
use rps_backend.Prelude.{
  All, Bool-cases, List, Option-cases, [], inl, inr, ltb, not, suc, zero, ℕ, ◌∷◌,
}
use rps_backend.Store.Defs.{Game, Player, Store, Text, find_player, statement_cases}
use rps_backend.Store.Players.{
  claim_free, claim_random, create_player, free_discriminator, if_scanned, insert_player,
  max_discriminator, name_taken, or_retry,
}
use rps_backend.Strings.Trim.{trim_space}

-- An action of the database that keeps a predicate on the games.
abbrev KeepsGames {ℓ} : {A : Type ℓ} → (List Game → Type 0) → Action Store A → Type 0
KeepsGames G m = (s : Store) → G s.games → G (m s).1.games

module _ (G : List Game → Type 0) where
  insert_player-KeepsGames : (p : Player) → KeepsGames G (insert_player p)
  unfolding insert_player
  insert_player-KeepsGames p s q =
      statement_cases (λ r. G r.1.games) _ s (λ fs. q)
        λ fs. elim (Bool-cases (ltb max_discriminator p.discriminator)) [
          | inl large ↦ rw large q
          | inr small_enough ↦ elim (Option-cases (find_player p.id s.players)) [
            | inr (other, found) ↦ rw (small_enough, found) q
            | inl missing ↦ elim (Bool-cases (name_taken p.base_name p.discriminator s.players)) [
              | inl used ↦ rw (small_enough, missing, used) q
              | inr free ↦ rw (small_enough, missing, free) q
            ]
          ]
        ]

  free_discriminator-KeepsGames : (base : Text) → KeepsGames G (free_discriminator base)
  unfolding free_discriminator
  free_discriminator-KeepsGames base s q =
      statement_cases (λ r. G r.1.games) _ s (λ fs. q) (λ fs. q)

  or_retry-games :
      (p : Player) (retry : Action Store Player) (r : Result (Unit {0}) × Store)
      → KeepsGames G retry
      → G r.1.games
      → G (or_retry p retry r).1.games
  unfolding or_retry
  or_retry-games p retry (ok _, t) again q = q
  or_retry-games p retry (err unique_violation, t) again q = again t q
  or_retry-games p retry (err (rule e), t) again q = q
  or_retry-games p retry (err (proto e), t) again q = q
  or_retry-games p retry (err not_found, t) again q = q
  or_retry-games p retry (err username_exhausted, t) again q = q
  or_retry-games p retry (err failure, t) again q = q

  if_scanned-games :
      (next : ℕ → Action Store Player) (r : Result ℕ × Store)
      → ((d : ℕ) → KeepsGames G (next d))
      → G r.1.games
      → G (if_scanned next r).1.games
  unfolding if_scanned
  if_scanned-games next (ok d, t) after q = after d t q
  if_scanned-games next (err e, t) after q = q

  -- What other requests do to the database between a scan and an insert.
  abbrev pub Races : List (Store → Store) → Type 0
  Races races = All (λ race. (s : Store) → G s.games → G (race s).games) races

  claim_free-KeepsGames :
      (races : List (Store → Store)) (p : Player) → Races races → KeepsGames G (claim_free races p)
  unfolding claim_free
  claim_free-KeepsGames [] p others s q =
      if_scanned-games _ (free_discriminator p.base_name s)
        (λ d t q.
          or_retry-games _ (fail unique_violation) _ (λ u q. q) (insert_player-KeepsGames _ t q))
        (free_discriminator-KeepsGames p.base_name s q)
  claim_free-KeepsGames (race ∷ races) p others s q =
      if_scanned-games _ (free_discriminator p.base_name s)
        (λ d t q.
          or_retry-games _ (claim_free races p) _ (claim_free-KeepsGames races p others.1)
            (insert_player-KeepsGames _ (race t) (others.0 t q)))
        (free_discriminator-KeepsGames p.base_name s q)

  claim_random-KeepsGames :
      (n : ℕ) (draws : ℕ → ℕ) (races : List (Store → Store)) (p : Player)
      → Races races
      → KeepsGames G (claim_random n draws races p)
  unfolding claim_random
  claim_random-KeepsGames zero draws races p others s q = claim_free-KeepsGames races p others s q
  claim_random-KeepsGames (suc n) draws races p others s q =
      or_retry-games _ (claim_random n draws races p) _
        (claim_random-KeepsGames n draws races p others) (insert_player-KeepsGames _ s q)

  player_response-games :
      (secret : Text) (r : Result Player × Store)
      → G r.1.games
      → G (player_response secret r).1.games
  player_response-games secret (ok p, s) q = q
  player_response-games secret (err username_exhausted, s) q = q
  player_response-games secret (err (rule e), s) q = q
  player_response-games secret (err (proto e), s) q = q
  player_response-games secret (err not_found, s) q = q
  player_response-games secret (err unique_violation, s) q = q
  player_response-games secret (err failure, s) q = q

  create_named-games :
      (lib : Library) (ch : Chance) (name : Text) (s : Store)
      → Races ch.races
      → G s.games
      → G (create_named lib ch name s).1.games
  unfolding create_named create_player
  create_named-games lib ch name s others q = elim (Bool-cases (not (is_username name))) [
    | inl bad ↦ rw bad q
    | inr good ↦ rw good (
        player_response-games (lib.base64 ch.bytes) _
          (claim_random-KeepsGames _ ch.draws ch.races _ others s q))
  ]

  pub post_player-games :
      (lib : Library) (ch : Chance) (body : Text) (s : Store)
      → Races ch.races
      → G s.games
      → G (post_player lib ch body s).1.games
  unfolding post_player
  post_player-games lib ch body s others q = elim (Option-cases (lib.decode_username body)) [
    | inl malformed ↦ rw (malformed, post_player) q
    | inr (username, decoded) ↦
        rw (decoded, post_player) (create_named-games lib ch (trim_space username) s others q)
  ]
