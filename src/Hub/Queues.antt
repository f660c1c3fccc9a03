-- ===== src/Hub/Queues.antt =====
-- The operations on the hub, against the queues and the close codes of all connections.
use rps_backend.Hub.Conn.{Attachment, Body, Conn, new_conn, send_buffer}
use rps_backend.Hub.Defs.{Hub, attach_locked, detach_from, detach_locked, register, send_to}
use rps_backend.Hub.Enter.{Free}
use rps_backend.Hub.Operations.{
  HubOp, Mild, Others, close_conn-Mild, enqueue-Mild, run_ops, send-Mild, take_message-Mild,
}
use rps_backend.Hub.Served.{Served, run_ops-Served}
use rps_backend.Hub.Steps.{Preserves, Stable, Stable-Writes}
use rps_backend.Hub.Support.{claim_player}
use rps_backend.Prelude.{
  ==_iff, All, Bool-cases, List, Option, [], ap, arith, inl, inr, length, nat_beq, nat_eq, none,
  some, suc, update, ℕ, ◌<◌, ◌∙◌, ◌∷◌, ◌≡◌, ◌≤◌,
}
use rps_backend.Rules.Defs.{Seat, move_eq, seat_eq, status_eq}
use rps_backend.Store.Defs.{Text, text_eq}

record Gentle (Q : (ℕ → Conn) → ℕ → Type 0) : Type 0 where
  pub touched :
      (conns : ℕ → Conn) (n c : ℕ) (k : Conn)
      → Mild (conns c) k
      → Q conns n
      → Q (update conns c k) n
  pub fresh : (conns : ℕ → Conn) (n : ℕ) → Q conns n → Q (update conns n new_conn) (suc n)

abbrev At : ((ℕ → Conn) → ℕ → Type 0) → Hub → Type 0
At Q h = Q h.conns h.next

same_queue-Mild :
    (k : Conn) (o : Option Attachment) (i : ℕ) → Mild k (record k { attached = o; player_id = i })
same_queue-Mild k o i = (λ short. short, λ status e. e)

unrestricted : (ops : List HubOp) → All (λ op. Unit {0}) ops
unrestricted [] = tt
unrestricted (op ∷ ops) = (tt, unrestricted ops)

module _ {Q : (ℕ → Conn) → ℕ → Type 0} (g : Gentle Q) where
  detach_from-At : (o : Option Attachment) (c : ℕ) → Preserves (At Q) (detach_from o c)
  unfolding detach_from
  detach_from-At none c h q = q
  detach_from-At (some a) c h q =
      g.touched h.conns h.next c _ (same_queue-Mild (h.conns c) none (h.conns c).player_id) q

  detach_locked-At : (c : ℕ) → Preserves (At Q) (detach_locked c)
  unfolding detach_locked
  detach_locked-At c h q = detach_from-At (h.conns c).attached c h q

  attach_locked-At : (c game_id : ℕ) (seat : Seat) → Preserves (At Q) (attach_locked c game_id seat)
  unfolding attach_locked
  attach_locked-At c game_id seat h q =
      g.touched h.conns h.next c _
        (same_queue-Mild (h.conns c) (some (record { game_id = game_id; seat = seat }))
          (h.conns c).player_id)
        q

  claim_player-At : (player_id c : ℕ) → Preserves (At Q) (claim_player player_id c)
  unfolding claim_player
  claim_player-At player_id c h q =
      g.touched h.conns h.next c _ (same_queue-Mild (h.conns c) (h.conns c).attached player_id) q

  send_to-At :
      (c : ℕ) (request_id : Text) (body : Body) → Preserves (At Q) (send_to c request_id body)
  send_to-At c request_id body h q = g.touched h.conns h.next c _ (send-Mild _ (h.conns c)) q

  At-Stable : Stable (At Q)
  At-Stable = record {
    quiet = record {
      notified = λ c body. send_to-At c [] body;
      closed_one =
          λ c status h q. g.touched h.conns h.next c _ (close_conn-Mild status (h.conns c)) q;
      detached_one = detach_locked-At;
      queried = λ h s same q. q;
    };
    stored = λ h s keeps q. q;
  }

  At-Free : Free (At Q)
  At-Free = record {
    active = record {
      writes = Stable-Writes At-Stable;
      sent = send_to-At;
      claimed = claim_player-At;
    };
    attached = attach_locked-At;
  }

  At-Served : Served (λ op. Unit {0}) (At Q)
  unfolding register
  At-Served = record {
    free = At-Free;
    arrived = λ h q. g.fresh h.conns h.next q;
    landed = λ c m h q. g.touched h.conns h.next c _ (enqueue-Mild m (h.conns c)) q;
    delivered = λ c h q. g.touched h.conns h.next c _ (take_message-Mild (h.conns c)) q;
    forgotten = λ h players live q. q;
    passed = λ h time q. q;
    player_created = λ lib ch body h others q. q;
    game_created = λ lib ch body h fits q. q;
    health_checked = λ h q. q;
  }

  run_ops-At : (ops : List HubOp) → All (Others (At Q)) ops → Preserves (At Q) (run_ops ops)
  run_ops-At ops others h q = run_ops-Served At-Served ops others (unrestricted ops) h q

-- No queue holds more than 32 messages.
abbrev pub AllShort : Hub → Type 0
AllShort h = (c : ℕ) → length (h.conns c).out ≤ send_buffer

AllShort-Gentle : Gentle (λ conns n. (c : ℕ) → length (conns c).out ≤ send_buffer)
AllShort-Gentle = record {
  touched = λ conns n c k (short, _) q d. ground (arith, short (q c), q d);
  fresh = λ conns n q d. ground (arith, q d);
}

-- The connection was registered, and is asked to close with this code.
abbrev pub Asked : ℕ → ℕ → Hub → Type 0
Asked d status h = (d < h.next) × ((h.conns d).closing ≡ some status)

asked_touched :
    (d status next : ℕ) (conns : ℕ → Conn) (c : ℕ) (k : Conn)
    → Mild (conns c) k
    → (d < next) × ((conns d).closing ≡ some status)
    → (d < next) × ((update conns c k d).closing ≡ some status)
asked_touched d status next conns c k (_, mild) (old, asked) = elim (Bool-cases (nat_beq c d)) [
  | inr differs ↦ rw differs (old, asked)
  | inl same ↦
      let same_conn : conns c ≡ conns d = ap conns ((==_iff c d).0 same) in
      rw same (old, mild status (ap (λ (m : Conn). m.closing) same_conn ∙ asked))
]

Asked-Gentle :
    (d status : ℕ) → Gentle (λ conns next. (d < next) × ((conns d).closing ≡ some status))
Asked-Gentle d status = record {
  touched = λ conns next c k mild q. asked_touched d status next conns c k mild q;
  fresh = λ conns next (old, asked). ground arith;
}

-- Whatever connections come, clients do, the sweeper expires and others do meanwhile, no queue of a
-- connection ever holds more than 32 messages, if none does at first and others keep to this too.
pub run_ops-bound :
    (ops : List HubOp) (h : Hub) → All (Others AllShort) ops → AllShort h → AllShort (run_ops ops h)
run_ops-bound ops h fair q = run_ops-At AllShort-Gentle ops fair h q

-- The first close request wins, whatever the server does with its hub afterwards: the close code of a
-- registered connection stays, also where a message lands later, if others keep to this too.
pub run_ops-Asked :
    (ops : List HubOp) (h : Hub) (d status : ℕ)
    → All (Others (Asked d status)) ops
    → Asked d status h
    → Asked d status (run_ops ops h)
run_ops-Asked ops h d status fair q = run_ops-At (Asked-Gentle d status) ops fair h q
