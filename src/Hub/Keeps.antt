-- ===== src/Hub/Keeps.antt =====
-- The registry's invariant over the steps that the operations share, and detachment.
use rps_backend.Errors.{Action}
use rps_backend.Hub.Attach.{
  Coherent, attached-detach_locked, attached-modify, close_conn-KeepsAttachment,
  detach_locked-Coherent, in_game, modify-Coherent, send-KeepsAttachment,
}
use rps_backend.Hub.Conn.{
  Attachment, Body, Message, attachment_id, close_conn, opponent_disconnected, send,
}
use rps_backend.Hub.Defs.{Hub, detach, detach_locked, detach_now, each, send_to, tell_left}
use rps_backend.Hub.Steps.{AllPreserve, Preserves, Quiet, Stable, StepPreserves}
use rps_backend.Prelude.{
  Bool, List, Option, [], arith, false, nat_eq, none, refl, some, true, ℕ, ◌==◌, ◌∙◌, ◌∷◌, ◌≡◌,
}
use rps_backend.Rules.Defs.{move_eq, seat_eq, status_eq}
use rps_backend.Store.Defs.{Text, text_eq}

-- What other goroutines do, as far as the invariant is concerned.
abbrev pub Keeps : (Hub → Hub) → Type 0
Keeps w = Preserves Coherent w

abbrev pub AllKeep : List (Hub → Hub) → Type 0
AllKeep ws = AllPreserve Coherent ws

abbrev pub StepKeeps {ℓ} : {A : Type ℓ} → Action Hub A → Type 0
StepKeeps m = StepPreserves Coherent m

abbrev message_of : Text → Body → Message
message_of request_id body = record { request_id = request_id; body = body }

pub send_to-Keeps : (c : ℕ) (request_id : Text) (body : Body) → Keeps (send_to c request_id body)
send_to-Keeps c request_id body h k =
    modify-Coherent c (send (message_of request_id body)) h
      (send-KeepsAttachment (message_of request_id body)) k

pub Coherent-Quiet : Quiet Coherent
Coherent-Quiet = record {
  notified = λ c body h k. send_to-Keeps c [] body h k;
  closed_one =
      λ c code h k. modify-Coherent c (close_conn code) h (close_conn-KeepsAttachment code) k;
  detached_one = λ c h k. detach_locked-Coherent c h k;
  queried = λ h s (_, same) k. record {
    agree = k.agree;
    proper = k.proper;
    no_empty_id = rw same k.no_empty_id;
  };
}

pub Coherent-Stable : Stable Coherent
Coherent-Stable = record {
  quiet = Coherent-Quiet;
  stored = λ h s keeps k. record {
    agree = k.agree;
    proper = k.proper;
    no_empty_id = keeps k.no_empty_id;
  };
}

-- An attachment that a change of the hub leaves alone.
abbrev pub Leaves : ℕ → (Hub → Hub) → Type 0
Leaves d f = (h : Hub) → ((f h).conns d).attached ≡ (h.conns d).attached

notify-Leaves : (d c : ℕ) (request_id : Text) (body : Body) → Leaves d (send_to c request_id body)
notify-Leaves d c request_id body h =
    attached-modify c d (send (message_of request_id body)) h
      (send-KeepsAttachment (message_of request_id body))

pub each-Leaves :
    (d : ℕ) (f : ℕ → Hub → Hub) → ((c : ℕ) → Leaves d (f c)) → (cs : List ℕ) → Leaves d (each f cs)
unfolding each
each-Leaves d f leaves [] h = refl
each-Leaves d f leaves (c ∷ cs) h = each-Leaves d f leaves cs (f c h) ∙ leaves c h

tell_left-Leaves : (d : ℕ) (loud : Bool) (a : Option Attachment) → Leaves d (tell_left loud a)
unfolding tell_left
tell_left-Leaves d loud none h = refl
tell_left-Leaves d false (some a) h = refl
tell_left-Leaves d true (some a) h =
    each-Leaves d _ (λ o. notify-Leaves d o [] (opponent_disconnected a.seat)) (h.games a.game_id) h

detach_now-none : (c : ℕ) (loud : Bool) (h : Hub) → ((detach_now c loud h).conns c).attached ≡ none
unfolding detach_now
detach_now-none c loud h =
    tell_left-Leaves c loud (h.conns c).attached (detach_locked c h)
    ∙ (attached-detach_locked c c h ∙ ground arith)

pub not_attached :
    (a : Option Attachment) → in_game a 0 ≡ false → (attachment_id a == 0) ≡ true → a ≡ none
not_attached none p q = refl
not_attached (some a) p q = cc

-- However often other goroutines change its attachment while it waits for a lock, a connection that
-- is detached ends attached to no game.
pub detach-none :
    (ws : List (Hub → Hub)) (c : ℕ) (loud : Bool) (h : Hub)
    → AllKeep ws
    → Coherent h
    → ((detach ws c loud h).conns c).attached ≡ none
unfolding detach
detach-none [] c loud h all k = detach_now-none c loud h
detach-none (w ∷ ws) c loud h all k = ground (
  arith,
  not_attached (h.conns c).attached (k.proper c),
  detach_now-none c loud (w h),
  detach-none ws c loud (w h) all.1 (all.0 h k),
)
