-- ===== src/Api/Tests.antt =====
-- Requests to the handlers, and the theorems there.
use rps_backend.Api.Cors.{Fits, Untouched, root-Untouched, root_headers}
use rps_backend.Api.Defs.{
  Chance, Library, create_named, player_created, post_game, post_player, write_json,
}
use rps_backend.Api.Games.{Opened, post_game-Opened}
use rps_backend.Api.Login.{logged_in, post_player-authenticate}
use rps_backend.Api.Names.{is_username, repeats}
use rps_backend.Api.Players.{Refused, Registered, post_player-Registered}
use rps_backend.Api.Routes.{
  Request, allow_headers, allow_methods, allow_origin, cors, is_allowed, root, status_only,
  vary_origin,
}
use rps_backend.Api.Usernames.{display_name-inj}
use rps_backend.Errors.{ok}
use rps_backend.Hub.Conn.{is_closing, new_conn}
use rps_backend.Hub.Defs.{Hub, is_authenticated}
use rps_backend.Hub.Dispatch.{handle}
use rps_backend.Hub.Support.{decode}
use rps_backend.Hub.Tests.{alone, plain}
use rps_backend.Prelude.{[], arith, false, none, refl, some, true, ◌∷◌, ◌≡◌, ◌⊎◌}
use rps_backend.Store.Defs.{Player, display_name, find_player, get_player, statement}
use rps_backend.Store.Players.{claim_random, create_player, insert_player, name_taken, or_retry}
use rps_backend.Store.Tests.{alice, bob, small}
use rps_backend.Strings.Trim.{trim_space}

abbrev pub toy : Library
toy = record {
  hub = record plain {
    unmarshal_auth = λ raw. some (record { player_id = 3; player_secret = b's' ∷ [] });
  };
  decode_username = λ t. some t;
  decode_credentials = λ t. some (1, t);
  base64 = λ t. t;
}

abbrev pub quiet : Chance
quiet = record { uuid = 3; bytes = b's' ∷ []; draws = λ n. 4; races = []; now = 10 }

abbrev zed : Player
zed = record {
  id = 3;
  base_name = b'z' ∷ [];
  discriminator = 4;
  secret_hash = b's' ∷ [];
  last_active_at = 10;
}

-- The white space around a name is dropped.
post_player-small : post_player toy quiet (b' ' ∷ b'z' ∷ []) small ≡ (
  write_json 201 (player_created 3 4 (b'z' ∷ b'#' ∷ b'0' ∷ b'0' ∷ b'0' ∷ b'4' ∷ []) (b's' ∷ [])),
  record small { players = bob ∷ alice ∷ zed ∷ [] },
)
unfolding post_player create_named create_player claim_random insert_player or_retry statement
    find_player name_taken is_username repeats trim_space display_name
post_player-small = refl

post_player_blank : (post_player toy quiet (b' ' ∷ []) small).0.status ≡ 400
unfolding post_player create_named is_username repeats trim_space
post_player_blank = refl

post_game_wrong : (post_game toy quiet (b'x' ∷ []) small).0.status ≡ 401
unfolding post_game get_player statement find_player
post_game_wrong = refl

post_player-Registered_example :
    Registered toy small (post_player toy quiet (b'z' ∷ []) small)
    ⊎ Refused small (post_player toy quiet (b'z' ∷ []) small)
post_player-Registered_example = post_player-Registered toy quiet (b'z' ∷ []) small refl

nobody : find_player 0 small.players ≡ none
unfolding find_player
nobody = refl

post_game-Opened_example :
    Opened toy (b's' ∷ []) small (post_game toy quiet (b's' ∷ []) small)
    ⊎ Refused small (post_game toy quiet (b's' ∷ []) small)
post_game-Opened_example = post_game-Opened toy quiet (b's' ∷ []) small nobody

zed_registered : Registered toy small (post_player toy quiet (b'z' ∷ []) small)
unfolding post_player create_named create_player claim_random insert_player or_retry statement
    find_player name_taken is_username repeats trim_space
zed_registered = record {
  player = zed;
  secret = b's' ∷ [];
  status_is = refl;
  body_is = refl;
  players_are = refl;
  games_are = refl;
  readable = refl;
  verifies = refl;
  named = refl;
  in_range = omega arith;
}

-- A hub over the database that the request left, with one connection that is not authenticated.
abbrev lobby : Hub
lobby = record {
  store = (post_player toy quiet (b'z' ∷ []) small).1;
  now = 30;
  conns = λ c. new_conn;
  seen = [];
  live = 1 ∷ [];
  next = 2;
  players = λ i. none;
  games = λ g. [];
}

zed_decoded :
    decode (b'{' ∷ []) (record { player_id = 0; player_secret = [] }) toy.hub.unmarshal_auth
    ≡ ok (record { player_id = 3; player_secret = b's' ∷ [] })
unfolding decode
zed_decoded = refl

lobby_clear : lobby.store.faults ≡ []
unfolding post_player create_named create_player claim_random insert_player or_retry statement
    find_player name_taken is_username repeats trim_space
lobby_clear = refl

lobby_awake : is_closing (lobby.conns 1) ≡ false
unfolding is_closing
lobby_awake = refl

lobby_stranger : is_authenticated 1 lobby ≡ false
unfolding is_authenticated
lobby_stranger = refl

post_player-authenticate_example :
    (handle toy.hub "player::authenticate" alone 1 [] (b'{' ∷ []) lobby).conns 1
    ≡ logged_in [] zed new_conn
unfolding zed_registered
post_player-authenticate_example =
    post_player-authenticate toy quiet (b'z' ∷ []) small zed_registered lobby alone 1 [] (b'{' ∷ [])
      refl lobby_clear lobby_awake (omega arith) lobby_stranger refl zed_decoded

abbrev foreign : Request
foreign = record { method = "OPTIONS"; path = "/players"; origin = b'e' ∷ []; body = [] }

-- Another row that reads as alice's.
abbrev renamed : Player
renamed = record alice { id = 9; last_active_at = 40 }

alice-is_username : is_username alice.base_name ≡ true
unfolding is_username repeats
alice-is_username = refl

display_name-inj_example :
    (alice.base_name ≡ renamed.base_name) × (alice.discriminator ≡ renamed.discriminator)
unfolding display_name
display_name-inj_example = display_name-inj alice renamed alice-is_username alice-is_username refl

foreign-Untouched : Untouched small (root toy [] true quiet foreign small).1
foreign-Untouched = root-Untouched toy [] true quiet foreign small refl

root_headers_example :
    Fits
      (is_allowed [] foreign.origin)
      foreign.origin
      (root toy [] true quiet foreign small).0.headers
root_headers_example = root_headers toy [] true quiet foreign small

-- A preflight from an allowed origin.
preflight : (root toy (foreign.origin ∷ []) true quiet foreign small).0 ≡ record {
  headers = allow_origin foreign.origin ∷ vary_origin ∷ allow_methods ∷ allow_headers ∷ [];
  answer = status_only 204;
}
unfolding root cors
preflight = refl
