-- ===== src/Api/Defs.antt =====
-- The handlers of internal/httpapi/httpapi.go. A request's body is what is left of it after the limit of
-- `MaxBytesReader`; the context of a request ends as a failing statement.
use Prim.Native.String.{String}
use rps_backend.Api.Names.{is_username}
use rps_backend.Errors.{Action, Result, err, not_found, ok, username_exhausted}
use rps_backend.Hub.Actions.{verify_secret}
use rps_backend.Hub.Support.{External}
use rps_backend.Prelude.{List, Option, if◌then◌else◌, none, not, some, ℕ}
use rps_backend.Store.Defs.{Game, Player, Store, Text, display_name, get_player, statement}
use rps_backend.Store.Players.{create_player}
use rps_backend.Store.Tx.{create_game}
use rps_backend.Strings.Trim.{trim_space}

-- What the handlers use of Go's library besides `External`: decoding a body of at most
-- `MaxBodyBytes`, none for an error, and base64 of 32 random bytes.
pub record Library : Type 0 where
  pub hub : External
  pub decode_username : Text → Option Text
  pub decode_credentials : Text → Option (ℕ × Text)
  pub base64 : Text → Text

abbrev pub max_body_bytes : ℕ
max_body_bytes = 4096

pub data ApiBody : Type 0 where
  api_error : (code : String) → (message : String) → ApiBody
  player_created : (id : ℕ) → (discriminator : ℕ) → (name : Text) → (secret : Text) → ApiBody
  game_created : (id : ℕ) → (secret : Text) → ApiBody
  healthy : ApiBody

pub record Response : Type 0 where
  pub status : ℕ
  pub body : ApiBody

abbrev pub write_json : ℕ → ApiBody → Response
write_json status body = record { status = status; body = body }

abbrev pub write_error : ℕ → String → String → Response
write_error status code_text text = write_json status (api_error code_text text)

abbrev pub internal_error : Response
internal_error = write_error 500 "internal" "internal server error"

abbrev pub malformed_body : Response
malformed_body = write_error 400 "bad_request" "malformed JSON body"

abbrev pub invalid_username : Response
invalid_username =
    write_error 400 "invalid_username"
      "username must be 1-32 characters of A-Z, a-z, 0-9, '_', '.', '-'"

abbrev pub no_discriminator : Response
no_discriminator = write_error 409 "username_exhausted" "no discriminators left for this username"

abbrev pub unauthorized : Response
unauthorized = write_error 401 "invalid_credentials" "invalid player credentials"

-- What the system gives to one request: a new id, random bytes, the draws of the random
-- discriminators, what other writers do to the database meanwhile, and the time.
pub record Chance : Type 0 where
  pub uuid : ℕ
  pub bytes : Text
  pub draws : ℕ → ℕ
  pub races : List (Store → Store)
  pub now : ℕ

abbrev pub player_response : Text → Result Player × Store → Response × Store
player_response secret (ok p, s) =
    (write_json 201 (player_created p.id p.discriminator (display_name p) secret), s)
player_response secret (err username_exhausted, s) = (no_discriminator, s)
player_response secret (err e, s) = (internal_error, s)

abbrev pub game_response : Text → Result Game × Store → Response × Store
game_response secret (ok g, s) = (write_json 201 (game_created g.id secret), s)
game_response secret (err e, s) = (internal_error, s)

module _ (lib : Library) where
  -- `NewSecret`: the text for the client and the hash for the store.
  abbrev pub new_secret : Text → Text × Text
  new_secret bytes = (lib.base64 bytes, lib.hub.hash_secret (lib.base64 bytes))

  -- `createPlayer` once the body is decoded.
  unfoldable pub create_named : Chance → Text → Store → Response × Store
  create_named ch name s =
      if not (is_username name)
      then (invalid_username, s)
      else let (secret, hash) = new_secret ch.bytes in
        player_response secret (create_player ch.uuid ch.draws ch.races name hash ch.now s)

  unfoldable pub post_player : Chance → Text → Store → Response × Store
  post_player ch body s = elim (lib.decode_username body) [
    | none ↦ (malformed_body, s)
    | some username ↦ create_named ch (trim_space username) s
  ]

  -- `createGame` once the player is loaded, or not.
  abbrev pub game_for : Chance → Text → Result Player × Store → Response × Store
  game_for ch secret (ok p, s) =
      if not (verify_secret lib.hub secret p.secret_hash)
      then (unauthorized, s)
      else let (game_secret, hash) = new_secret ch.bytes in
        game_response game_secret (create_game ch.uuid p.id hash ch.now s)
  game_for ch secret (err not_found, s) = (unauthorized, s)
  game_for ch secret (err e, s) = (internal_error, s)

  unfoldable pub post_game : Chance → Text → Store → Response × Store
  post_game ch body s = elim (lib.decode_credentials body) [
    | none ↦ (malformed_body, s)
    | some (player_id, secret) ↦ game_for ch secret (get_player player_id s)
  ]

-- `Ping`: the database is asked, or the time for it is over.
unfoldable pub ping : Action Store (Unit {0})
ping = statement λ s. (ok tt, s)

abbrev pub health_response : Result (Unit {0}) × Store → Response × Store
health_response (ok _, s) = (write_json 200 healthy, s)
health_response (err _, s) = (write_error 503 "unavailable" "database unreachable", s)

unfoldable pub get_health : Store → Response × Store
get_health s = health_response (ping s)
