-- ===== src/Hub/Invariant.antt =====
-- The client actions other than `game::connect`, against a predicate on the hub that a reply, a claimed
-- player and the shared steps preserve; the registry's invariant is one.
use rps_backend.Hub.Actions.{authenticate, leave, move, rematch_action, rematch_decline}
use rps_backend.Hub.Attach.{Coherent, modify-Coherent}
use rps_backend.Hub.Conn.{
  Body, game_closed_event, leave_ok, left, move_ok, rematch_decline_ok, rematch_declined,
  rematch_ok, rematch_requested,
}
use rps_backend.Hub.Defs.{Hub, modify_conn, send_to}
use rps_backend.Hub.Follows.{
  close-Reaches, decline_rematch-Reaches, play_move-Reaches, rematch-Reaches,
}
use rps_backend.Hub.Keeps.{Coherent-Stable, Keeps, send_to-Keeps}
use rps_backend.Hub.Steps.{
  AllPreserve, Preserves, StepPreserves, Stable-Writes, Writes, bind-StepPreserves,
  query-StepPreserves, ruled-StepPreserves, broadcast_state-Preserves, close_game_for-Preserves,
  if_not_found-StepPreserves, replace_old-Preserves, send_opponents-Preserves,
}
use rps_backend.Hub.Support.{checked, checked_rematch, External, Waits, claim_player}
use rps_backend.Prelude.{arith, refl, ℕ}
use rps_backend.Store.Defs.{Text}
use rps_backend.Store.Reads.{get_player-ReadsOnly}
use rps_backend.Rules.Defs.{close, decline_rematch, play_move, rematch}

claim_player-Keeps : (player_id c : ℕ) → Keeps (claim_player player_id c)
unfolding claim_player
claim_player-Keeps player_id c h k =
    let m : Coherent (modify_conn c (λ x. record x { player_id = player_id }) h) =
      modify-Coherent c (λ x. record x { player_id = player_id }) h (λ x. refl) k in
    record { agree = m.agree; proper = m.proper; no_empty_id = k.no_empty_id }

pub record Active (P : Hub → Type 0) : Type 0 where
  pub writes : Writes P
  pub sent : (c : ℕ) (request_id : Text) (body : Body) → Preserves P (send_to c request_id body)
  pub claimed : (player_id c : ℕ) → Preserves P (claim_player player_id c)

pub Coherent-Active : Active Coherent
Coherent-Active = record {
  writes = Stable-Writes Coherent-Stable;
  sent = send_to-Keeps;
  claimed = claim_player-Keeps;
}

module _ {P : Hub → Type 0} (k : Active P) where
  module _ (x : External) where
    pub authenticate-StepPreserves :
        (w : Waits) (c : ℕ) (request_id raw : Text)
        → AllPreserve P w.leaving
        → StepPreserves P (authenticate x w c request_id raw)
    unfolding authenticate
    authenticate-StepPreserves w c request_id raw all =
        bind-StepPreserves P _ _ (λ h q. q)
          λ p.
            bind-StepPreserves P _ _ (λ h q. q)
              λ busy.
                bind-StepPreserves P _ _ (λ h q. q)
                  λ _.
                    bind-StepPreserves P _ _
                      (if_not_found-StepPreserves P _ _
                        (query-StepPreserves k.writes.quiet _ (get_player-ReadsOnly _)))
                      λ player.
                        bind-StepPreserves P _ _ (λ h q. q)
                          λ _.
                            bind-StepPreserves P _ _ (λ h q. q)
                              λ now. bind-StepPreserves P _ _ (k.writes.touched player.id now) λ _.
                                bind-StepPreserves P _ _ (λ h q. q)
                                  λ old. bind-StepPreserves P _ _ (k.claimed player.id c) λ _.
                                    bind-StepPreserves P _ _ (k.sent c request_id _)
                                      λ _. replace_old-Preserves k.writes.quiet w.leaving old c all

    pub move-StepPreserves :
        (w : Waits) (c : ℕ) (request_id raw : Text)
        → Preserves P w.entering
        → StepPreserves P (move x w c request_id raw)
    unfolding move
    move-StepPreserves w c request_id raw keeps =
        bind-StepPreserves P _ _ (λ h q. q)
          λ p.
            bind-StepPreserves P _ _ (λ h q. q)
              λ m.
                ruled-StepPreserves k.writes w.entering c
                  (λ t. checked (play_move t.0.state t.1.seat m)) (λ s. s) _ keeps
                  (λ t s e. play_move-Reaches t.0.state t.1.seat m s e)
                  λ t s saved.
                    bind-StepPreserves P _ _ (k.sent c request_id move_ok)
                      λ _. broadcast_state-Preserves k.writes.quiet saved

  pub rematch_action-StepPreserves :
      (w : Waits) (c : ℕ) (request_id : Text)
      → Preserves P w.entering
      → StepPreserves P (rematch_action w c request_id)
  unfolding rematch_action
  rematch_action-StepPreserves w c request_id keeps =
      ruled-StepPreserves k.writes w.entering c (λ t. checked_rematch (rematch t.0.state t.1.seat))
        (λ u. u.0) _ keeps (λ t u e. rematch-Reaches t.0.state t.1.seat u e)
        λ t u saved. bind-StepPreserves P _ _ (k.sent c request_id rematch_ok) λ _.
          bind-StepPreserves P _ _
            (λ h q. ground (
              arith,
              send_opponents-Preserves k.writes.quiet c saved.id (rematch_requested t.1.seat) h q,
            ))
            λ _. broadcast_state-Preserves k.writes.quiet saved

  pub rematch_decline-StepPreserves :
      (w : Waits) (c : ℕ) (request_id : Text)
      → Preserves P w.entering
      → StepPreserves P (rematch_decline w c request_id)
  unfolding rematch_decline
  rematch_decline-StepPreserves w c request_id keeps =
      ruled-StepPreserves k.writes w.entering c (λ t. checked (decline_rematch t.0.state t.1.seat))
        (λ s. s) _ keeps (λ t s e. decline_rematch-Reaches t.0.state t.1.seat s e)
        λ t s saved. bind-StepPreserves P _ _ (k.sent c request_id rematch_decline_ok) λ _.
          bind-StepPreserves P _ _
            (send_opponents-Preserves k.writes.quiet c saved.id (rematch_declined t.1.seat))
            λ _. broadcast_state-Preserves k.writes.quiet saved

  pub leave-StepPreserves :
      (w : Waits) (c : ℕ) (request_id : Text)
      → Preserves P w.entering
      → StepPreserves P (leave w c request_id)
  unfolding leave
  leave-StepPreserves w c request_id keeps =
      ruled-StepPreserves k.writes w.entering c (λ t. checked (close t.0.state)) (λ s. s) _ keeps
        (λ t s e. close-Reaches t.0.state s e)
        λ t s saved. bind-StepPreserves P _ _ (k.writes.quiet.detached_one c) λ _.
          bind-StepPreserves P _ _ (k.sent c request_id leave_ok)
            λ _. close_game_for-Preserves k.writes.quiet saved (game_closed_event left t.1.seat)
