-- ===== src/Hub/Answer.antt =====
-- The replies of each handler, where it succeeds and where it fails.
use rps_backend.Api.Tests.{quiet}
use rps_backend.Errors.{Action, ◌>>=◌}
use rps_backend.Hub.Actions.{
  authenticate, connect, leave, load_game_with_secret, move, rematch_action, rematch_decline,
}
use rps_backend.Hub.Conn.{
  Body, game_closed_event, is_closing, leave_ok, left, move_ok, rematch_decline_ok,
  rematch_declined, rematch_ok, rematch_requested, send,
}
use rps_backend.Hub.Defs.{Hub, attach_locked, send_to}
use rps_backend.Hub.Reply.{Heard, Heard-Stable, modify-Heard, reply-Adds}
use rps_backend.Hub.Steps.{
  Leads, Leads-bind, keeps-Leads, AllPreserve, Preserves, Stable, StepPreserves, bind-StepPreserves,
  broadcast_state-Preserves, close_game_for-Preserves, greet-Preserves, if_not_found-StepPreserves,
  leave_other-Preserves, on_store-StepPreserves, replace_old-Preserves, save-StepPreserves,
  send_opponents-Preserves, view-StepPreserves, with_game-StepPreserves,
}
use rps_backend.Hub.Support.{External, Waits, claim_player, update_hub, with_game}
use rps_backend.Prelude.{[], arith, ℕ, ◌+◌, ◌≢◌}
use rps_backend.Rules.Defs.{Seat}
use rps_backend.Store.Defs.{Text}
use rps_backend.Store.Ids.{get_game-KeepsIds, get_player-KeepsIds, touch_player-KeepsIds}

abbrev pub Quiet : ℕ → Text → Waits → Type 0
Quiet c rid w =
    (n : ℕ) → AllPreserve (Heard c rid n) w.leaving × Preserves (Heard c rid n) w.entering

module _ (c : ℕ) (rid : Text) (ne : rid ≢ []) (n : ℕ) where
  -- An action that replies once, or fails and has not replied.
  abbrev pub Replies {ℓ} : {A : Type ℓ} → Action Hub A → Type 0
  Replies m = Leads (Heard c rid n) (Heard c rid n) (λ _. Heard c rid (n + 1)) m

  silent-bind {ℓ κ} :
      {A : Type ℓ} {B : Type κ} (m : Action Hub A) (f : A → Action Hub B)
      → StepPreserves (Heard c rid n) m
      → ((a : A) → Replies (f a))
      → Replies (m >>= f)
  silent-bind m f quiet next =
      Leads-bind (Heard c rid n) (Heard c rid n) (λ _. Heard c rid n) (λ _. Heard c rid (n + 1)) m f
        (keeps-Leads (Heard c rid n) m quiet) next

  abbrev Follows {ℓ} : {A : Type ℓ} → Action Hub A → Type 0
  Follows m = Leads (Heard c rid n) (Heard c rid (n + 1)) (λ _. Heard c rid (n + 1)) m

  pub reply-Heard :
      (body : Body) (h : Hub) → Heard c rid n h → Heard c rid (n + 1) (send_to c rid body h)
  reply-Heard body h k =
      modify-Heard c rid n 1 (send (record { request_id = rid; body = body })) (reply-Adds rid body)
        h k

  reply-bind {ℓ} :
      {B : Type ℓ} (body : Body) (f : Unit {0} → Action Hub B)
      → Follows (f tt)
      → Replies (update_hub (send_to c rid body) >>= f)
  reply-bind body f next =
      Leads-bind (Heard c rid n) (Heard c rid n) (λ _. Heard c rid (n + 1))
        (λ _. Heard c rid (n + 1)) (update_hub (send_to c rid body)) f (reply-Heard body)
        (λ _. next)

  Follows-bind {ℓ} :
      {B : Type ℓ} (g : Hub → Hub) (f : Unit {0} → Action Hub B)
      → Preserves (Heard c rid (n + 1)) g
      → Follows (f tt)
      → Follows (update_hub g >>= f)
  Follows-bind g f quiet next =
      Leads-bind (Heard c rid n) (Heard c rid (n + 1)) (λ _. Heard c rid (n + 1))
        (λ _. Heard c rid (n + 1)) (update_hub g) f quiet (λ _. next)

  before : Stable (Heard c rid n)
  before = Heard-Stable c rid n ne

  after : Stable (Heard c rid (n + 1))
  after = Heard-Stable c rid (n + 1) ne

  claim_player-Heard : (player_id : ℕ) → Preserves (Heard c rid n) (claim_player player_id c)
  unfolding claim_player is_closing
  claim_player-Heard player_id h k still = ground (arith, k)

  attach_locked-Heard :
      (game_id : ℕ) (seat : Seat) → Preserves (Heard c rid n) (attach_locked c game_id seat)
  unfolding attach_locked is_closing
  attach_locked-Heard game_id seat h k still = ground (arith, k)

  module _ (w : Waits) (quiet : Quiet c rid w) where
    with_game-silent : StepPreserves (Heard c rid n) (with_game w.entering c)
    with_game-silent = with_game-StepPreserves before.quiet w.entering c (quiet n).1

    pub rematch_action-Replies : Replies (rematch_action w c rid)
    unfolding rematch_action
    rematch_action-Replies = silent-bind _ _ with_game-silent λ t.
        silent-bind _ _ (λ h k. k)
          λ u. silent-bind _ _ (save-StepPreserves before _ _) λ saved. reply-bind rematch_ok _ (
            Follows-bind _ _
              (λ h k. ground (
                arith,
                send_opponents-Preserves after.quiet c saved.id (rematch_requested t.1.seat) h k,
              ))
              (broadcast_state-Preserves after.quiet saved))

    pub rematch_decline-Replies : Replies (rematch_decline w c rid)
    unfolding rematch_decline
    rematch_decline-Replies = silent-bind _ _ with_game-silent λ t.
        silent-bind _ _ (λ h k. k)
          λ s. silent-bind _ _ (save-StepPreserves before _ _) λ saved.
            reply-bind rematch_decline_ok _ (
              Follows-bind _ _
                (send_opponents-Preserves after.quiet c saved.id (rematch_declined t.1.seat))
                (broadcast_state-Preserves after.quiet saved))

    pub leave-Replies : Replies (leave w c rid)
    unfolding leave
    leave-Replies = silent-bind _ _ with_game-silent λ t.
        silent-bind _ _ (λ h k. k)
          λ s. silent-bind _ _ (save-StepPreserves before _ _) λ saved.
            silent-bind _ _ (before.quiet.detached_one c) λ _.
              reply-bind leave_ok _
                (close_game_for-Preserves after.quiet saved (game_closed_event left t.1.seat))

    module _ (x : External) (raw : Text) where
      pub move-Replies : Replies (move x w c rid raw)
      unfolding move
      move-Replies =
          silent-bind _ _ (λ h k. k)
            λ p.
              silent-bind _ _ (λ h k. k)
                λ m. silent-bind _ _ with_game-silent λ t.
                  silent-bind _ _ (λ h k. k)
                    λ s.
                      silent-bind _ _ (save-StepPreserves before _ _)
                        λ saved. reply-bind move_ok _ (broadcast_state-Preserves after.quiet saved)

      pub authenticate-Replies : Replies (authenticate x w c rid raw)
      unfolding authenticate
      authenticate-Replies =
          silent-bind _ _ (λ h k. k)
            λ p.
              silent-bind _ _ (λ h k. k)
                λ busy.
                  silent-bind _ _ (λ h k. k)
                    λ _.
                      silent-bind _ _
                        (if_not_found-StepPreserves (Heard c rid n) _ _
                          (on_store-StepPreserves before _ (get_player-KeepsIds _)))
                        λ player.
                          silent-bind _ _ (λ h k. k)
                            λ _.
                              silent-bind _ _ (λ h k. k)
                                λ now.
                                  silent-bind _ _
                                    (on_store-StepPreserves before _
                                      (touch_player-KeepsIds player.id now))
                                    λ _.
                                      silent-bind _ _ (λ h k. k)
                                        λ old. silent-bind _ _ (claim_player-Heard player.id) λ _.
                                          reply-bind _ _ (
                                            replace_old-Preserves after.quiet w.leaving old c
                                              (quiet (n + 1)).0)

      load-silent :
          (id : ℕ) (secret : Text)
          → StepPreserves (Heard c rid n) (load_game_with_secret x id secret)
      unfolding load_game_with_secret
      load-silent id secret =
          bind-StepPreserves (Heard c rid n) _ _
            (if_not_found-StepPreserves (Heard c rid n) _ _
              (on_store-StepPreserves before _ (get_game-KeepsIds id)))
            λ g. bind-StepPreserves (Heard c rid n) _ _ (λ h k. k) λ _ h k. k

      pub connect-Replies : Replies (connect x w c rid raw)
      unfolding connect
      connect-Replies =
          silent-bind _ _ (λ h k. k)
            λ p. silent-bind _ _ (load-silent p.game_id p.game_secret) λ seen.
              silent-bind _ _ (λ h k. k)
                λ _.
                  silent-bind _ _ (λ h k. k)
                    λ player_id.
                      silent-bind _ _
                        (leave_other-Preserves before.quiet w.leaving c seen.id (quiet n).0)
                        λ _. silent-bind _ _ (quiet n).1 λ _.
                          silent-bind _ _ (load-silent p.game_id p.game_secret) λ loaded.
                            silent-bind _ _ (λ h k. k)
                              λ _.
                                silent-bind _ _ (λ h k. k)
                                  λ t. silent-bind _ _ (save-StepPreserves before _ _) λ g.
                                    silent-bind _ _ (λ h k. k)
                                      λ was. silent-bind _ _ (attach_locked-Heard g.id t.1) λ _.
                                        silent-bind _ _ (view-StepPreserves before.quiet g) λ v.
                                          reply-bind _ _ (λ h k.
                                            ground (arith, greet-Preserves after.quiet v c t.1 h k))
