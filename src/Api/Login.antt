-- ===== src/Api/Login.antt =====
-- From the REST endpoint to the hub: a player that POST /players created, at `player::authenticate`.
use rps_backend.Api.Defs.{Chance, Library, Response, post_player}
use rps_backend.Api.Players.{Registered}
use rps_backend.Errors.{
  >>=-ok, Result, already_authenticated, if_not_found-ok, invalid_credentials, ok, proto,
}
use rps_backend.Hub.Actions.{authenticate, verify_secret}
use rps_backend.Hub.Conn.{Conn, Message, authenticate_ok, is_closing, send, send_buffer}
use rps_backend.Hub.Defs.{Hub, is_authenticated, on_store, send_to}
use rps_backend.Hub.Dispatch.{action_of, handle, handle_found, run_action}
use rps_backend.Hub.Steps.{on_store_result}
use rps_backend.Hub.Support.{AuthPayload, Waits, claim_player, decode, guard, replace_old}
use rps_backend.Prelude.{
  [], length, ◌++◌, ◌<◌, ◌∷◌, Bool, Option, ap, arith, false, none, not, refl, some, sym, true, ℕ,
  ◌∙◌, ◌≡◌,
}
use rps_backend.Store.Defs.{
  Player, Store, Text, display_name, find_player, get_player, statement_clear, touch_player,
  touch_rows,
}

abbrev greeting : Text → Player → Message
greeting rid p = record { request_id = rid; body = authenticate_ok p.id (display_name p) }

module _ (lib : Library) (p : Player) (secret rid raw : Text) (w : Waits) (c : ℕ) (h : Hub)
    (decoded : decode raw (record { player_id = 0; player_secret = [] }) lib.hub.unmarshal_auth
      ≡ ok (record { player_id = p.id; player_secret = secret }))
    (stranger : is_authenticated c h ≡ false) (stored : get_player p.id h.store ≡ (ok p, h.store))
    (verified : verify_secret lib.hub secret p.secret_hash ≡ true)
    (touched : touch_player p.id h.now h.store
      ≡ (ok tt, record h.store { players = touch_rows p.id h.now h.store.players }))
    (unseen : h.players p.id ≡ none) where
  authenticate_known : authenticate lib.hub w c rid raw h ≡ (
    ok tt,
    send_to c rid (authenticate_ok p.id (display_name p)) (
        claim_player p.id c (record h {
          store = record h.store { players = touch_rows p.id h.now h.store.players };
        })),
  )
  unfolding authenticate replace_old
  authenticate_known =
      let j = record h {
        store = record h.store { players = touch_rows p.id h.now h.store.players };
      } in
      let k = claim_player p.id c j in
      >>=-ok _ _ h (record { player_id = p.id; player_secret = secret }) h
        (ap (λ (r : Result AuthPayload). (r, h)) decoded)
      ∙ >>=-ok _ _ h (is_authenticated c h) h refl
      ∙ >>=-ok _ _ h tt h
          (ap (λ (b : Bool). guard (not b) (proto already_authenticated) h) stranger)
      ∙ >>=-ok _ _ h p h (
          if_not_found-ok _ (on_store (get_player p.id)) h p h
            (on_store_result (get_player p.id) h (ok p, h.store) stored))
      ∙ >>=-ok _ _ h tt h (ap (λ (b : Bool). guard b (proto invalid_credentials) h) verified)
      ∙ >>=-ok _ _ h h.now h refl
      ∙ >>=-ok _ _ h tt j (on_store_result (touch_player p.id h.now) h _ touched)
      ∙ >>=-ok _ _ j (h.players p.id) j refl
      ∙ >>=-ok _ _ j tt k refl
      ∙ >>=-ok _ _ k tt (send_to c rid (authenticate_ok p.id (display_name p)) k) refl
      ∙ ap
          (λ (o : Option ℕ). (
            ok tt,
            replace_old w.leaving o c (send_to c rid (authenticate_ok p.id (display_name p)) k),
          ))
          unseen

get_player_clear :
    (i : ℕ) (s : Store) (p : Player)
    → s.faults ≡ []
    → find_player i s.players ≡ some p
    → get_player i s ≡ (ok p, s)
unfolding get_player
get_player_clear i s p clear found = statement_clear _ s clear ∙ rw found refl

touch_player_clear :
    (i now : ℕ) (s : Store)
    → s.faults ≡ []
    → touch_player i now s ≡ (ok tt, record s { players = touch_rows i now s.players })
unfolding touch_player
touch_player_clear i now s clear = statement_clear _ s clear

-- The connection once its player is known and it has been told so.
abbrev pub logged_in : Text → Player → Conn → Conn
logged_in rid p k = record k { player_id = p.id; out = k.out ++ greeting rid p ∷ [] }

greeted :
    (rid : Text) (p : Player) (k : Conn)
    → is_closing k ≡ false
    → length k.out < send_buffer
    → send (greeting rid p) (record k { player_id = p.id }) ≡ logged_in rid p k
unfolding send is_closing
greeted rid p k awake room = ground arith

registered_authenticate :
    (lib : Library) (s : Store) (r : Response × Store) (made : Registered lib s r) (h : Hub)
    (w : Waits) (c : ℕ) (rid raw : Text)
    → h.store ≡ r.1
    → r.1.faults ≡ []
    → is_closing (h.conns c) ≡ false
    → length (h.conns c).out < send_buffer
    → is_authenticated c h ≡ false
    → h.players made.player.id ≡ none
    → decode raw (record { player_id = 0; player_secret = [] }) lib.hub.unmarshal_auth
      ≡ ok (record { player_id = made.player.id; player_secret = made.secret })
    → (handle lib.hub "player::authenticate" w c rid raw h).conns c
      ≡ logged_in rid made.player (h.conns c)
unfolding handle action_of handle_found run_action claim_player
registered_authenticate lib s r made h w c rid raw same clear awake room stranger unseen decoded =
    let p = made.player in
    let clear_h : h.store.faults ≡ [] = ap (λ (t : Store). t.faults) same ∙ clear in
    let found : find_player p.id h.store.players ≡ some p =
      ap (λ (t : Store). find_player p.id t.players) same ∙ made.readable in
    let done =
      authenticate_known lib p made.secret rid raw w c h decoded stranger
        (get_player_clear p.id h.store p clear_h found) made.verifies
        (touch_player_clear p.id h.now h.store clear_h) unseen in
    rw (awake, done) (ground (arith, greeted rid p (h.conns c) awake room))

-- The player and the secret that POST /players answered with are accepted by the hub: on a database
-- that does not fail, a connection that is not closing, has room in its queue and is not yet
-- authenticated, for a player without another connection, is that player's after
-- `player::authenticate` with them, and the player's name is the last message in its queue.
pub post_player-authenticate :
    (lib : Library) (ch : Chance) (body : Text) (s : Store)
    (made : Registered lib s (post_player lib ch body s)) (h : Hub) (w : Waits) (c : ℕ)
    (rid raw : Text)
    → h.store ≡ (post_player lib ch body s).1
    → h.store.faults ≡ []
    → is_closing (h.conns c) ≡ false
    → length (h.conns c).out < send_buffer
    → is_authenticated c h ≡ false
    → h.players made.player.id ≡ none
    → decode raw (record { player_id = 0; player_secret = [] }) lib.hub.unmarshal_auth
      ≡ ok (record { player_id = made.player.id; player_secret = made.secret })
    → (handle lib.hub "player::authenticate" w c rid raw h).conns c
      ≡ logged_in rid made.player (h.conns c)
post_player-authenticate lib ch body s made h w c rid raw same clear =
    registered_authenticate lib s (post_player lib ch body s) made h w c rid raw same
      (ap (λ (t : Store). t.faults) (sym same) ∙ clear)
