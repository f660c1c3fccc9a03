-- ===== src/Hub/Enter.antt =====
-- `game::connect` against a predicate on the hub that an attachment preserves wherever it is made.
use rps_backend.Errors.{◌>>=◌, ◌>>◌}
use rps_backend.Hub.Actions.{connect, load_game_with_secret}
use rps_backend.Hub.Conn.{attachment_id, connect_ok}
use rps_backend.Hub.Defs.{Hub, attach_locked, send_to, snapshot_for, view}
use rps_backend.Hub.Follows.{Follows, take_seat-Follows}
use rps_backend.Hub.Invariant.{Active}
use rps_backend.Hub.Steps.{
  AllPreserve, Holding, Leads, Leads-Run, Leads-bind, Preserves, Run, Run-Leads, Run-bind,
  StepPreserves, bind-StepPreserves, get_game-Leads, greet-Preserves, guard-Leads,
  if_not_found-Leads, leave_other-Preserves, lift-Leads, save-Run, view-StepPreserves,
}
use rps_backend.Hub.Support.{External, Waits, gets, greet, lift, save, take_seat, update_hub}
use rps_backend.Prelude.{arith, if◌then◌else◌, nat_eq, ℕ, ◌==◌}
use rps_backend.Rules.Defs.{Seat, move_eq, seat_eq, status_eq}
use rps_backend.Store.Defs.{Game, Text, text_eq}

pub record Free (P : Hub → Type 0) : Type 0 where
  pub active : Active P
  pub attached : (c game_id : ℕ) (seat : Seat) → Preserves P (attach_locked c game_id seat)

module _ {P : Hub → Type 0} (k : Free P) where
  load-Leads :
      (x : External) (id : ℕ) (secret : Text)
      → Leads P P (Holding P) (load_game_with_secret x id secret)
  unfolding load_game_with_secret
  load-Leads x id secret =
      Leads-bind P P (Holding P) (Holding P) _ _
        (if_not_found-Leads P P (Holding P) _ _ (get_game-Leads k.active.writes id))
        λ g.
          Leads-bind P (Holding P g) (λ _. Holding P g) (Holding P) _ _
            (guard-Leads P (Holding P g) _ _ (λ h q. q.0)) λ _ h q. q

  -- The second half of `connect`, under the lock, from the choice of the seat on.
  seat-Run :
      (c : ℕ) (request_id : Text) (player_id : ℕ) (g : Game)
      → Run (Holding P g) P (
          lift (take_seat g player_id) >>= λ t. save t.0 player_id >>= λ saved.
          gets (λ h. attachment_id (h.conns c).attached == saved.id) >>= λ was_attached.
          update_hub (attach_locked c saved.id t.1)
          >> (view saved >>= λ v.
              update_hub (send_to c request_id (connect_ok (snapshot_for v t.1)))
              >> update_hub (λ h. if was_attached then h else greet v c t.1 h)))
  seat-Run c request_id player_id g = Leads-Run (Holding P g) P _ (
      Leads-bind P (Holding P g) (λ t h. Holding P g h × Follows g t.0) (λ _. P) _ _
        (lift-Leads P (Holding P g) (λ t. Follows g t.0) (take_seat g player_id) (λ h q. q.0)
          (take_seat-Follows g player_id))
        λ t. Run-Leads _ P _ λ h (q, f).
          Run-bind (Holding P g) P P _ _ (λ h q. q) (save-Run k.active.writes g t.0 player_id f)
            (λ saved.
              bind-StepPreserves P _ _ (λ h q. q)
                λ was_attached. bind-StepPreserves P _ _ (k.attached c saved.id t.1) λ _.
                  bind-StepPreserves P _ _ (view-StepPreserves k.active.writes.quiet saved) λ v.
                    bind-StepPreserves P _ _
                      (k.active.sent c request_id (connect_ok (snapshot_for v t.1)))
                      λ _ h q. ground (arith, greet-Preserves k.active.writes.quiet v c t.1 h q))
            h q)

  pub connect-StepPreserves :
      (x : External) (w : Waits) (c : ℕ) (request_id raw : Text)
      → AllPreserve P w.leaving
      → Preserves P w.entering
      → StepPreserves P (connect x w c request_id raw)
  unfolding connect
  connect-StepPreserves x w c request_id raw all keeps =
      bind-StepPreserves P _ _ (λ h q. q)
        λ p.
          let load = load-Leads x p.game_id p.game_secret in
          Leads-Run P P _ (
            Leads-bind P P (Holding P) (λ _. P) _ _ load
              λ seen. Run-Leads _ P _ (
                Run-bind (Holding P seen) P P _ _ (λ h q. q) (λ h q. q.0)
                  λ _.
                    bind-StepPreserves P _ _ (λ h q. q)
                      λ player_id.
                        bind-StepPreserves P _ _
                          (leave_other-Preserves k.active.writes.quiet w.leaving c seen.id all)
                          λ _. bind-StepPreserves P _ _ keeps λ _. Leads-Run P P _ (
                            Leads-bind P P (Holding P) (λ _. P) _ _ load
                              λ g.
                                Leads-bind P (Holding P g) (λ _. Holding P g) (λ _. P) _ _
                                  (guard-Leads P (Holding P g) _ _ (λ h q. q.0))
                                  λ _. Run-Leads _ P _ (seat-Run c request_id player_id g))))
