-- ===== src/Ws/Session.antt =====
-- A whole connection, from the upgrade to its end.
use text.Mathlib.Text.{◌==◌ as str_beq}
use rps_backend.Hub.Attach.{Coherent}
use rps_backend.Hub.Conn.{close_conn, close_normal}
use rps_backend.Hub.Connect.{Fair}
use rps_backend.Hub.Defs.{Hub, detach, disconnect, modify_conn, register, remove}
use rps_backend.Hub.Handle.{handle-Coherent}
use rps_backend.Hub.Keeps.{AllKeep, Coherent-Quiet, Keeps, detach-none, send_to-Keeps}
use rps_backend.Hub.Life.{disconnect-Keeps, register-Coherent}
use rps_backend.Hub.Support.{External, Waits}
use rps_backend.Prelude.{
  Option, some, if◌then◌else◌, update, nat_eq, ◌&&◌, ◌==◌, ℕ, ◌≢◌, ◌⊎◌, All, Bool, Bool-cases, List,
  [], arith, contains, false, inl, inr, none, not, refl, true, ◌||◌, ◌∙◌, ◌∷◌, ◌≡◌,
}
use rps_backend.Ws.Reader.{
  Envelope, Frame, Read, Unmarshal, read_envelope, read_frame, read_loop, serve,
}

-- What other goroutines do around one read.
abbrev pub FairRead : ℕ → Read → Type 0
FairRead c r = Keeps r.meanwhile × Fair c r.waits

read_frame-Keeps :
    (x : External) (unmarshal : Unmarshal) (c : ℕ) (f : Frame) (w : Waits)
    → Fair c w
    → Keeps (read_frame x unmarshal c f w)
unfolding read_frame
read_frame-Keeps x unmarshal c f w fair h k = elim (Bool-cases (not f.is_text)) [
  | inl binary ↦ rw binary (send_to-Keeps c [] _ h k)
  | inr text ↦ rw text (go (unmarshal f.bytes))
]
  where
    go : (e : Envelope × Bool) → Coherent (read_envelope x unmarshal c e w h)
    go (env, parsed) = elim (Bool-cases (not parsed || str_beq env.action "")) [
      | inl bad ↦ rw bad (send_to-Keeps c env.request_id _ h k)
      | inr good ↦ rw good (handle-Coherent x c w fair env.action env.request_id env.payload h k)
    ]

read_loop-Keeps :
    (x : External) (unmarshal : Unmarshal) (c : ℕ) (reads : List Read)
    → All (FairRead c) reads
    → Keeps (read_loop x unmarshal c reads)
unfolding read_loop
read_loop-Keeps x unmarshal c [] all h k = k
read_loop-Keeps x unmarshal c (r ∷ rs) all h k =
    read_loop-Keeps x unmarshal c rs all.1 _
      (read_frame-Keeps x unmarshal c r.frame r.waits all.0.1 _ (all.0.0 h k))

contains-remove_self : (c : ℕ) (cs : List ℕ) → contains c (remove c cs) ≡ false
unfolding remove
contains-remove_self c [] = refl
contains-remove_self c (x ∷ xs) = ground (arith, contains-remove_self c xs)

disconnect-none :
    (ws : List (Hub → Hub)) (c : ℕ) (h : Hub)
    → AllKeep ws
    → Coherent h
    → ((disconnect ws c h).conns c).attached ≡ none
unfolding disconnect
disconnect-none ws c h all k =
    detach-none ws c true (modify_conn c (close_conn close_normal) h) all
      (Coherent-Quiet.closed_one c close_normal h k)

disconnect-live :
    (ws : List (Hub → Hub)) (c : ℕ) (h : Hub) → contains c (disconnect ws c h).live ≡ false
unfolding disconnect
disconnect-live ws c h =
    contains-remove_self c (detach ws c true (modify_conn c (close_conn close_normal) h)).live

-- No player is this connection's any more.
disconnect-players :
    (ws : List (Hub → Hub)) (c : ℕ) (h : Hub)
    → let k = disconnect ws c h in
      ((k.conns c).player_id ≡ 0) ⊎ (k.players (k.conns c).player_id ≢ some c)
unfolding disconnect
disconnect-players ws c h =
    let k = detach ws c true (modify_conn c (close_conn close_normal) h) in
    let player_id = (k.conns c).player_id in
    elim (Bool-cases (player_id == 0)) [
      | inl nobody ↦ inl (ground arith)
      | inr known ↦ inr (forgotten k.players player_id known (k.players player_id) refl)
    ]
  where
    forgotten :
        (players : ℕ → Option ℕ) (i : ℕ)
        → (i == 0) ≡ false
        → (o : Option ℕ) → players i ≡ o
        → (if not (i == 0) && (elim (players i) as (λ _. Bool) [ none ↦ false | some d ↦ d == c ])
              then update players i none
              else players)
            i
          ≢ some c
    forgotten players i known none e = rw (known, e) (λ same. cc)
    forgotten players i known (some d) e = elim (Bool-cases (d == c)) [
      | inl mine ↦ rw (known, e, mine) (λ same. ground arith)
      | inr other ↦ rw (known, e, other) (λ same. ground arith)
    ]

-- When a connection has ended, whatever it sent, the hub has forgotten it: it is attached to no game, no
-- game sends it events, it is not among the live ones, and it is not the connection of its player. What
-- others do meanwhile keeps the hub coherent and does not attach this connection.
pub serve-forgets :
    (x : External) (unmarshal : Unmarshal) (reads : List Read) (last : Hub → Hub)
    (waits : List (Hub → Hub)) (h : Hub)
    → Coherent h
    → (h.conns h.next).attached ≡ none
    → All (FairRead h.next) reads
    → Keeps last
    → AllKeep waits
    → Coherent (serve x unmarshal reads last waits h)
      × (((serve x unmarshal reads last waits h).conns h.next).attached ≡ none)
      × ((g : ℕ) → contains h.next ((serve x unmarshal reads last waits h).games g) ≡ false)
      × (contains h.next (serve x unmarshal reads last waits h).live ≡ false)
      × ((((serve x unmarshal reads last waits h).conns h.next).player_id ≡ 0)
          ⊎ ((serve x unmarshal reads last waits h).players
                ((serve x unmarshal reads last waits h).conns h.next).player_id
              ≢ some h.next))
unfolding serve register
serve-forgets x unmarshal reads last waits h k fresh all fair_last fair_waits =
    let j = last (read_loop x unmarshal h.next reads (register h).1) in
    let kj =
      fair_last _ (read_loop-Keeps x unmarshal h.next reads all _ (register-Coherent h fresh k)) in
    let k' = disconnect-Keeps waits h.next fair_waits j kj in
    let alone_now = disconnect-none waits h.next j fair_waits kj in
    (
      k',
      alone_now,
      (λ g. k'.agree h.next g ∙ rw alone_now refl),
      disconnect-live waits h.next j,
      disconnect-players waits h.next j,
    )
