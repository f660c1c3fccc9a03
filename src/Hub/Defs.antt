-- ===== src/Hub/Defs.antt =====
-- internal/hub/hub.go and snapshot.go: the registry, attachments and broadcasts. A `*Conn` is a
-- number, and `conns` is the memory that these pointers refer to.
use rps_backend.Errors.{Action, Result, err, not_found, ok, ◌>>=◌}
use rps_backend.Hub.Conn.{
  Attachment, Body, Conn, PlayerView, Snapshot, attachment_id, close_conn, close_normal,
  game_state_event, is_closing, new_conn, opponent_disconnected, send,
}
use rps_backend.Prelude.{
  Bool, List, Option, [], contains, false, if◌then◌else◌, nat_eq, none, not, some, suc, true,
  update, ℕ, ◌&&◌, ◌==◌, ◌||◌, ◌∷◌,
}
use rps_backend.Rules.Defs.{
  Seat, code, guest, host, move_eq, move_of, pending, seat_eq, status_eq, visible_move,
}
use rps_backend.Store.Defs.{
  Game, Player, Store, Text, display_name, get_player, player_id_of, seat_of, text_eq,
}

-- `seen` is not in the code: the table of games as somebody last saw it.
pub record Hub : Type 0 where
  pub store : Store
  pub seen : List Game
  pub now : ℕ  -- what `clock.Now()` returns
  pub conns : ℕ → Conn
  pub live : List ℕ  -- `Hub.conns`
  pub next : ℕ  -- the pointer of the next allocation
  pub players : ℕ → Option ℕ
  pub games : ℕ → List ℕ

-- A store method called from the hub.
unfoldable pub on_store {ℓ} : {A : Type ℓ} → Action Store A → Action Hub A
on_store m h = let (r, t) = m h.store in (r, record h { store = t })

abbrev pub modify_conn : ℕ → (Conn → Conn) → Hub → Hub
modify_conn c f h = record h { conns = update h.conns c (f (h.conns c)) }

abbrev pub send_to : ℕ → Text → Body → Hub → Hub
send_to c request_id body = modify_conn c (send (record { request_id = request_id; body = body }))

-- An event: a message with no request id.
abbrev pub notify : ℕ → Body → Hub → Hub
notify c = send_to c []

unfoldable pub register : Hub → ℕ × Hub
register h = (
  h.next,
  record h { conns = update h.conns h.next new_conn; live = h.next ∷ h.live; next = suc h.next },
)

unfoldable pub is_authenticated : ℕ → Hub → Bool
is_authenticated c h = not ((h.conns c).player_id == 0)

unfoldable pub remove : ℕ → List ℕ → List ℕ
remove c [] = []
remove c (x ∷ xs) = let rest = remove c xs in if x == c then rest else x ∷ rest

unfoldable pub attach_locked : ℕ → ℕ → Seat → Hub → Hub
attach_locked c game_id seat h =
    let set = h.games game_id in
    record h {
      games = update h.games game_id (if contains c set then set else c ∷ set);
      conns =
          update h.conns c
            (record (h.conns c) { attached = some (record { game_id = game_id; seat = seat }) });
    }

unfoldable pub detach_from : Option Attachment → ℕ → Hub → Hub
detach_from none c h = h
detach_from (some a) c h = record h {
  games = update h.games a.game_id (remove c (h.games a.game_id));
  conns = update h.conns c (record (h.conns c) { attached = none });
}

unfoldable pub detach_locked : ℕ → Hub → Hub
detach_locked c h = detach_from (h.conns c).attached c h

unfoldable pub each : (ℕ → Hub → Hub) → List ℕ → Hub → Hub
each f [] h = h
each f (c ∷ cs) h = each f cs (f c h)

-- The others that are attached to the game are told who went.
unfoldable pub tell_left : Bool → Option Attachment → Hub → Hub
tell_left loud none h = h
tell_left loud (some a) h =
    if loud then each (λ o. notify o (opponent_disconnected a.seat)) (h.games a.game_id) h else h

-- The body of `detach` under the game's lock.
unfoldable pub detach_now : ℕ → Bool → Hub → Hub
detach_now c loud h = tell_left loud (h.conns c).attached (detach_locked c h)

-- `detach`: each wait for the lock of the game lets other goroutines act, which is an entry of
-- `waits`; the loop starts again if the attachment has changed meanwhile.
unfoldable pub detach : List (Hub → Hub) → ℕ → Bool → Hub → Hub
detach [] c loud h = detach_now c loud h
detach (wait ∷ waits) c loud h =
    let game_id = attachment_id (h.conns c).attached in
    let h' = wait h in
    let now = attachment_id (h'.conns c).attached in
    let again = detach waits c loud h' in
    if game_id == 0 then h else if now == game_id then detach_now c loud h' else again

unfoldable pub disconnect : List (Hub → Hub) → ℕ → Hub → Hub
disconnect waits c h =
    let h' = detach waits c true (modify_conn c (close_conn close_normal) h) in
    let player_id = (h'.conns c).player_id in
    let mine : Bool = elim (h'.players player_id) [ none ↦ false | some o ↦ o == c ] in
    record h' {
      players =
          if not (player_id == 0) && mine then update h'.players player_id none else h'.players;
      live = remove c h'.live;
    }

unfoldable pub close_all : ℕ → Hub → Hub
close_all code h = each (λ c. modify_conn c (close_conn code)) h.live h

-- What a recipient's snapshot is made from.
pub record GameView : Type 0 where
  pub g : Game
  pub names : Seat → Option Text
  pub online : Seat → Bool

-- The display name of the player in a seat; none for an empty seat or a deleted player.
unfoldable pub name_of : Result Player × Hub → Result (Option Text) × Hub
name_of (ok p, h) = (ok (some (display_name p)), h)
name_of (err not_found, h) = (ok none, h)
name_of (err e, h) = (err e, h)

unfoldable pub seat_name : Game → Seat → Action Hub (Option Text)
unfolding name_of
seat_name g seat h =
    if player_id_of g seat == 0
    then (ok none, h)
    else name_of (on_store (get_player (player_id_of g seat)) h)

abbrev pub same_seat : Option Seat → Seat → Bool
same_seat none seat = false
same_seat (some s) seat = s == seat

unfoldable pub any_online : Game → Seat → (ℕ → Conn) → List ℕ → Bool
any_online g seat conns [] = false
any_online g seat conns (c ∷ cs) =
    (same_seat (seat_of g (conns c).player_id) seat && not (is_closing (conns c)))
    || any_online g seat conns cs

abbrev pub by_seat {ℓ} : {A : Type ℓ} → A → A → Seat → A
by_seat a b host = a
by_seat a b guest = b

unfoldable pub view : Game → Action Hub GameView
view g = do
  host_name ← seat_name g host
  guest_name ← seat_name g guest
  λ h. (
    ok (record {
      g = g;
      names = by_seat host_name guest_name;
      online = λ seat. any_online g seat h.conns (h.games g.id);
    }),
    h,
  )

unfoldable pub player_view : GameView → Seat → Seat → Option PlayerView
player_view v seat viewer = elim (v.names seat) [
  | none ↦ none
  | some name ↦ some (record {
    player_id = player_id_of v.g seat;
    display_name = name;
    connected = v.online seat;
    locked_in = not (move_of v.g.state seat == pending);
    shown_move = visible_move v.g.state viewer seat;
    wins = if seat == guest then v.g.state.guest_wins else v.g.state.host_wins;
  })
]

unfoldable pub snapshot_for : GameView → Seat → Snapshot
snapshot_for v you = record {
  game_id = v.g.id;
  status = v.g.state.status;
  game_state = v.g.state.game_state;
  you = you;
  host_view = player_view v host you;
  guest_view = player_view v guest you;
  draws = v.g.state.draws;
}

-- `c.send("game::state", "", v.For(c.seat))` to a connection of the game.
abbrev pub send_snapshot : GameView → Option Attachment → ℕ → Hub → Hub
send_snapshot v none c h = h
send_snapshot v (some a) c h = notify c (game_state_event (snapshot_for v a.seat)) h

-- A view that cannot be built is logged, and nothing is sent.
unfoldable pub send_views : ℕ → Result GameView × Hub → Hub
send_views game_id (ok v, h) =
    each (λ c h. send_snapshot v (h.conns c).attached c h) (h.games game_id) h
send_views game_id (err _, h) = h

unfoldable pub broadcast_state : Game → Hub → Hub
unfolding send_views
broadcast_state g h = send_views g.id (view g h)

unfoldable pub send_opponents : ℕ → ℕ → Body → Hub → Hub
send_opponents c game_id body h =
    each (λ o h. if o == c then h else notify o body h) (h.games game_id) h

-- What `closeGameFor` sends to one connection, which was in seat `a.seat`.
abbrev pub send_closed : Result GameView → Body → Option Attachment → ℕ → Hub → Hub
send_closed (ok v) body a c h = send_snapshot v a c (notify c body h)
send_closed (err _) body a c h = notify c body h

-- The connections are detached first, and told with the seats that they had.
unfoldable pub send_all_closed : ℕ → Body → Result GameView × Hub → Hub
send_all_closed game_id body (r, h) =
    let cs = h.games game_id in
    each (λ c. send_closed r body (h.conns c).attached c) cs (each detach_locked cs h)

unfoldable pub close_game_for : Game → Body → Hub → Hub
unfolding send_all_closed
close_game_for g body h = send_all_closed g.id body (view g h)
