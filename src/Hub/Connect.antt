-- ===== src/Hub/Connect.antt =====
-- `game::connect` keeps the registry's invariant: by the time it attaches the connection, that is
-- attached to nothing else.
use rps_backend.Errors.{Action, Result, err, ok, ◌>>=◌, ◌>>◌}
use rps_backend.Hub.Actions.{connect}
use rps_backend.Hub.Attach.{Coherent, attach_locked-Coherent}
use rps_backend.Hub.Conn.{attachment_id, connect_ok}
use rps_backend.Hub.Defs.{Hub, attach_locked, on_store, send_to, snapshot_for, view}
use rps_backend.Hub.Keeps.{
  AllKeep, Coherent-Quiet, Coherent-Stable, Keeps, StepKeeps, detach-none, not_attached,
  send_to-Keeps,
}
use rps_backend.Hub.Outcome.{
  Gives, Gives-bind, Loaded, Outcome, Outcome-Coherent, guard-Gives, keeps-Gives, lift-Gives,
  load-Gives,
}
use rps_backend.Hub.Steps.{
  Run, bind-StepPreserves, detach-Preserves, greet-Preserves, on_store-StepPreserves,
  query-StepPreserves, view-StepPreserves,
}
use rps_backend.Hub.Support.{External, Waits, greet, leave_other, save, take_seat, update_hub}
use rps_backend.Prelude.{
  Bool, List, arith, if◌then◌else◌, inl, inr, none, sym, true, ℕ, ◌∙◌, ◌≡◌, ◌≢◌, ◌⊎◌,
}
use rps_backend.Rules.Defs.{Seat}
use rps_backend.Store.Defs.{Game, Store, Text, get_game}
use rps_backend.Store.Ids.{KeepsIds, save_game-KeepsIds}
use rps_backend.Store.Reads.{get_game-ReadsOnly}

-- What the goroutines that run meanwhile may do: they keep the invariant, and none attaches this
-- connection to a game, since only its own reader does.
pub record Fair (c : ℕ) (w : Waits) : Type 0 where
  pub leaving_keeps : AllKeep w.leaving
  pub entering_keeps : Keeps w.entering
  pub entering_attaches_not :
      (h : Hub)
      → (((w.entering h).conns c).attached ≡ none)
        ⊎ (((w.entering h).conns c).attached ≡ (h.conns c).attached)

-- The connection is attached to nothing, or to the game that it enters.
abbrev Settled : ℕ → ℕ → Hub → Type 0
Settled c i h =
    Coherent h × (((h.conns c).attached ≡ none) ⊎ (attachment_id (h.conns c).attached ≡ i))

get_game-Settled : (c i : ℕ) → Run (Settled c i) (Settled c i) (on_store (get_game i))
unfolding on_store
get_game-Settled c i h (k, free) =
    (query-StepPreserves Coherent-Quiet (get_game i) (get_game-ReadsOnly i) h k, free)

store-Settled :
    (c i : ℕ) (m : Action Store (Unit {0}))
    → KeepsIds m
    → Gives (Settled c i) (λ _. Settled c i) (on_store m)
unfolding on_store
store-Settled c i m keeps h (k, free) =
    go (on_store m h) (on_store-StepPreserves Coherent-Stable m keeps h k, free)
  where
    go : (r : Result (Unit {0}) × Hub) → Settled c i r.1 → Outcome (λ _. Settled c i) r
    go (ok tt, h') q = q
    go (err e, h') q = q.0

save-Settled :
    (c i : ℕ) (g : Game) (player_id : ℕ)
    → (g.id ≡ i) × (i ≢ 0)
    → Gives (Settled c i) (Loaded (Settled c i) i) (save g player_id)
unfolding save
save-Settled c i g player_id (same, given) h (k, free) =
    Gives-bind (Settled c i) (λ _. Settled c i) (Loaded (Settled c i) i) _ _
      (store-Settled c i _ (save_game-KeepsIds _ player_id h.now)) (λ _ j q. (q, same, given)) h
      (k, free)

leave_other-Settled :
    (ws : List (Hub → Hub)) (c i : ℕ) (h : Hub)
    → AllKeep ws
    → Coherent h
    → Settled c i (leave_other ws c i h)
unfolding leave_other
leave_other-Settled ws c i h all k = ground (
  arith,
  detach-Preserves Coherent-Quiet ws all c true h k,
  detach-none ws c true h all k,
  not_attached (h.conns c).attached (k.proper c),
)

entering-Settled :
    (c i : ℕ) (w : Waits) → Fair c w → (h : Hub) → Settled c i h → Settled c i (w.entering h)
entering-Settled c i w fair h (k, free) = (
  fair.entering_keeps h k,
  elim (fair.entering_attaches_not h) [ inl e ↦ inl e | inr e ↦ rw e free ],
)

take_seat-id :
    (g : Game) (player_id : ℕ) (t : Game × Seat) → take_seat g player_id ≡ ok t → t.0.id ≡ g.id
unfolding take_seat
take_seat-id g player_id t e = ground arith

attach-Keeps :
    (c i : ℕ) (g : Game) (seat : Seat) (h : Hub)
    → Loaded (Settled c i) i g h
    → Coherent (attach_locked c g.id seat h)
attach-Keeps c i g seat h ((k, free), same, given) =
    attach_locked-Coherent c g.id seat h (λ z. given (sym same ∙ z)) (rw same free) k

-- The end of the handler, from the attachment on.
welcome-StepKeeps :
    (c : ℕ) (request_id : Text) (g : Game) (seat : Seat) (was_attached : Bool)
    → StepKeeps (
        view g >>= λ v.
        update_hub (send_to c request_id (connect_ok (snapshot_for v seat)))
        >> update_hub (λ h. if was_attached then h else greet v c seat h))
welcome-StepKeeps c request_id g seat was_attached =
    bind-StepPreserves Coherent _ _ (view-StepPreserves Coherent-Quiet g) λ v.
      bind-StepPreserves Coherent _ _
        (send_to-Keeps c request_id (connect_ok (snapshot_for v seat)))
        λ _ h k. ground (arith, greet-Preserves Coherent-Quiet v c seat h k)

module _ (x : External) (c : ℕ) (w : Waits) (fair : Fair c w) where
  connect-Gives :
      (request_id raw : Text) → Gives Coherent (λ _. Coherent) (connect x w c request_id raw)
  unfolding connect
  connect-Gives request_id raw =
      Gives-bind Coherent (λ _. Coherent) (λ _. Coherent) _ _ (keeps-Gives _ (λ h k. k))
        λ p.
          let i = p.game_id in
          Gives-bind Coherent (Loaded Coherent i) (λ _. Coherent) _ _
            (load-Gives Coherent x i p.game_secret (λ h k. k)
              (query-StepPreserves Coherent-Quiet (get_game i) (get_game-ReadsOnly i)))
            λ seen.
              Gives-bind (Loaded Coherent i seen) (λ _. Loaded Coherent i seen) (λ _. Coherent) _ _
                (guard-Gives (Loaded Coherent i seen) _ _ (λ h q. q.0))
                λ _.
                  Gives-bind (Loaded Coherent i seen) (λ _. Loaded Coherent i seen) (λ _. Coherent)
                    _ _ (λ h q. q)
                    λ player_id.
                      Gives-bind (Loaded Coherent i seen) (λ _. Settled c i) (λ _. Coherent) _ _
                        (λ h (k, same, _).
                          rw same (leave_other-Settled w.leaving c i h fair.leaving_keeps k))
                        λ _.
                          Gives-bind (Settled c i) (λ _. Settled c i) (λ _. Coherent) _ _
                            (entering-Settled c i w fair)
                            λ _.
                              Gives-bind (Settled c i) (Loaded (Settled c i) i) (λ _. Coherent) _ _
                                (load-Gives (Settled c i) x i p.game_secret (λ h q. q.0)
                                  (get_game-Settled c i))
                                λ g.
                                  Gives-bind (Loaded (Settled c i) i g)
                                    (λ _. Loaded (Settled c i) i g) (λ _. Coherent) _ _
                                    (guard-Gives (Loaded (Settled c i) i g) _ _ (λ h q. q.0.0))
                                    λ _.
                                      Gives-bind (Loaded (Settled c i) i g)
                                        (λ t h. Loaded (Settled c i) i g h × (t.0.id ≡ g.id))
                                        (λ _. Coherent) _ _
                                        (lift-Gives (Loaded (Settled c i) i g) (λ t. t.0.id ≡ g.id)
                                          (take_seat g player_id) (λ h q. q.0.0)
                                          (take_seat-id g player_id))
                                        λ t.
                                          Gives-bind
                                            (λ h. Loaded (Settled c i) i g h × (t.0.id ≡ g.id))
                                            (Loaded (Settled c i) i) (λ _. Coherent) _ _
                                            (λ h ((q, same, given), kept).
                                              save-Settled c i t.0 player_id (kept ∙ same, given) h
                                                q)
                                            λ saved.
                                              Gives-bind (Loaded (Settled c i) i saved)
                                                (λ _. Loaded (Settled c i) i saved) (λ _. Coherent)
                                                _ _ (λ h q. q)
                                                λ was_attached.
                                                  Gives-bind (Loaded (Settled c i) i saved)
                                                    (λ _. Coherent) (λ _. Coherent) _ _
                                                    (attach-Keeps c i saved t.1)
                                                    λ _. keeps-Gives _ (
                                                      welcome-StepKeeps c request_id saved t.1
                                                        was_attached)

  pub connect-StepKeeps : (request_id raw : Text) → StepKeeps (connect x w c request_id raw)
  connect-StepKeeps request_id raw h k =
      Outcome-Coherent (connect x w c request_id raw h) (connect-Gives request_id raw h k)
