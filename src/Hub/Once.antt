-- ===== src/Hub/Once.antt =====
-- The replies that `Handle` as a whole sends to a request.
use Prim.Native.String.{String}
use rps_backend.Errors.{Result, err, not_authenticated, not_in_game, ok, proto}
use rps_backend.Hub.Answer.{
  Quiet, Replies, authenticate-Replies, connect-Replies, leave-Replies, move-Replies,
  rematch_action-Replies, rematch_decline-Replies, reply-Heard,
}
use rps_backend.Hub.Conn.{
  ClientAction, action_authenticate, action_connect, action_leave, action_move, action_rematch,
  action_rematch_decline, attachment_id, is_closing,
}
use rps_backend.Hub.Defs.{Hub}
use rps_backend.Hub.Dispatch.{
  action_of, error_body, handle, handle_found, needs_game, needs_player, reply_result, run_action,
}
use rps_backend.Hub.Locks.{inside}
use rps_backend.Hub.Reply.{heard_by, Heard}
use rps_backend.Hub.Support.{External, Waits}
use rps_backend.Hub.Steps.{EndsIn}
use rps_backend.Prelude.{
  Bool-cases, Option, [], false, inl, inr, nat_eq, none, refl, some, ℕ, ◌&&◌, ◌+◌, ◌==◌, ◌≡◌, ◌≢◌,
}
use rps_backend.Store.Defs.{Text, text_eq}

module _ (x : External) (c : ℕ) (rid : Text) (ne : rid ≢ []) (w : Waits)
    (quiet : Quiet c rid w) where
  run_action-Replies :
      (n : ℕ) (action : ClientAction) (raw : Text)
      → Replies c rid ne n (run_action x action w c rid raw)
  unfolding run_action
  run_action-Replies n action_authenticate raw = authenticate-Replies c rid ne n w quiet x raw
  run_action-Replies n action_connect raw = connect-Replies c rid ne n w quiet x raw
  run_action-Replies n action_move raw = move-Replies c rid ne n w quiet x raw
  run_action-Replies n action_rematch raw = rematch_action-Replies c rid ne n w quiet
  run_action-Replies n action_rematch_decline raw = rematch_decline-Replies c rid ne n w quiet
  run_action-Replies n action_leave raw = leave-Replies c rid ne n w quiet

  reply_result-Heard :
      (n : ℕ) (r : Result (Unit {0}) × Hub)
      → EndsIn (Heard c rid n) (λ _. Heard c rid (n + 1)) r
      → Heard c rid (n + 1) (reply_result c rid r)
  reply_result-Heard n (ok _, h) k = k
  reply_result-Heard n (err e, h) k = reply-Heard c rid ne n (error_body e) h k

  handle_found-Heard :
      (n : ℕ) (found : Option ClientAction) (raw : Text) (h : Hub)
      → Heard c rid n h
      → Heard c rid (n + 1) (handle_found x found w c rid raw h)
  unfolding handle_found
  handle_found-Heard n none raw h k = reply-Heard c rid ne n _ h k
  handle_found-Heard n (some action) raw h k =
      elim (Bool-cases (needs_player action && (h.conns c).player_id == 0)) [
        | inl stranger ↦
            rw stranger (reply-Heard c rid ne n (error_body (proto not_authenticated)) h k)
        | inr known ↦
            elim (Bool-cases (needs_game action && attachment_id (h.conns c).attached == 0)) [
              | inl apart ↦
                  rw (known, apart) (reply-Heard c rid ne n (error_body (proto not_in_game)) h k)
              | inr inside ↦
                  rw (known, inside)
                    (reply_result-Heard n (run_action x action w c rid raw h)
                      (run_action-Replies n action raw h k))
            ]
      ]

-- `Handle` sends exactly one direct reply: whatever the action, the payload and the outcome, the
-- connection has then been sent one more message with the request's id than before, counting its queue
-- and what the transport has taken off it, unless the connection is being closed. Other goroutines may
-- deliver messages while the handler waits, but do not send this connection any with this id.
pub handle-once :
    (x : External) (c : ℕ) (rid : Text) (w : Waits) (name : String) (raw : Text) (h : Hub)
    → rid ≢ []
    → Quiet c rid w
    → is_closing ((handle x name w c rid raw h).conns c) ≡ false
    → heard_by rid ((handle x name w c rid raw h).conns c) ≡ heard_by rid (h.conns c) + 1
unfolding handle
handle-once x c rid w name raw h ne quiet = elim (Bool-cases (is_closing (h.conns c))) [
  | inl closing ↦ rw closing (λ still. cc)
  | inr open_still ↦ rw open_still (
      handle_found-Heard x c rid ne w quiet (heard_by rid (h.conns c)) (action_of name) raw h
        (λ _. refl))
]
