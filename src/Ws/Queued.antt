-- ===== src/Ws/Queued.antt =====
-- The relation of what the peer is sent to what the hub queued, and that the hub's calls and the pings
-- keep it.
use rps_backend.Api.Routes.{answered}
use rps_backend.Hub.Conn.{enqueue, send_buffer, Conn, Message, close_conn, is_closing, send}
use rps_backend.Prelude.{
  length, ltb, Bool, Bool-cases, List, [], ap, append_assoc, arith, false, if◌then◌else◌, inl, inr,
  nat_eq, refl, some, true, ℕ, ◌++◌, ◌||◌, ◌∙◌, ◌∷◌, ◌≡◌,
}
use rps_backend.Rules.Defs.{code, move_eq, seat_eq, status_eq}
use rps_backend.Ws.Writer.{
  Pipe, hub_closes, hub_lands, hub_sends, is_accepted, is_running, ping_tick, pings, pipe_step,
}

-- What was accepted is what was written, what a failed write lost, and what is queued. A handshake
-- carries the code of the first close.
pub record InOrder (p : Pipe) : Type 0 where
  pub lost : List Message
  pub parts : p.accepted ≡ p.wire.written ++ (lost ++ p.conn.out)
  pub none_lost : p.wire.failed ≡ false → lost ≡ []
  pub stopped : p.wire.failed ≡ true → is_running p.wire ≡ false
  pub code_is : (code : ℕ) → p.wire.handshake ≡ some code → p.conn.closing ≡ some code

module _ (m : Message) (k : Conn) where
  out-send : (send m k).out ≡ (if is_accepted k then k.out ++ m ∷ [] else k.out)
  unfolding send close_conn is_closing
  out-send = ground arith

  closing-send : (code : ℕ) → k.closing ≡ some code → (send m k).closing ≡ some code
  unfolding send close_conn is_closing
  closing-send code e = ground arith

  out-enqueue :
      (enqueue m k).out ≡ (if ltb (length k.out) send_buffer then k.out ++ m ∷ [] else k.out)
  unfolding close_conn
  out-enqueue = ground arith

  closing-enqueue : (code : ℕ) → k.closing ≡ some code → (enqueue m k).closing ≡ some code
  unfolding close_conn
  closing-enqueue code e = ground arith

closing-close : (c code : ℕ) (k : Conn) → k.closing ≡ some code → close_conn c k ≡ k
unfolding close_conn is_closing
closing-close c code k e = ground arith

out-close : (c : ℕ) (k : Conn) → (close_conn c k).out ≡ k.out
unfolding close_conn
out-close c k = ground arith

-- One more message at the end of the queue.
appended :
    (m : Message) (p : Pipe) (lost : List Message)
    → p.accepted ≡ p.wire.written ++ (lost ++ p.conn.out)
    → p.accepted ++ m ∷ [] ≡ p.wire.written ++ (lost ++ (p.conn.out ++ m ∷ []))
appended m p lost parts =
    ap (λ (xs : List Message). xs ++ m ∷ []) parts
    ∙ (append_assoc p.wire.written (lost ++ p.conn.out) (m ∷ [])
        ∙ ap (λ (xs : List Message). p.wire.written ++ xs) (append_assoc lost p.conn.out (m ∷ [])))

-- A call that puts `m` on the queue exactly if `taken`.
grown-InOrder :
    (m : Message) (p : Pipe) (taken : Bool) (k : Conn)
    → k.out ≡ (if taken then p.conn.out ++ m ∷ [] else p.conn.out)
    → ((code : ℕ) → p.conn.closing ≡ some code → k.closing ≡ some code)
    → InOrder p
    → InOrder (record p { conn = k; accepted = if taken then p.accepted ++ m ∷ [] else p.accepted })
grown-InOrder m p true k out closing v = record {
  lost = v.lost;
  parts = rw out (appended m p v.lost v.parts);
  none_lost = v.none_lost;
  stopped = v.stopped;
  code_is = λ code e. closing code (v.code_is code e);
}
grown-InOrder m p false k out closing v = record {
  lost = v.lost;
  parts = rw out v.parts;
  none_lost = v.none_lost;
  stopped = v.stopped;
  code_is = λ code e. closing code (v.code_is code e);
}

pub sends-InOrder : (m : Message) (p : Pipe) → InOrder p → InOrder (pipe_step (hub_sends m) p)
unfolding pipe_step
sends-InOrder m p v =
    grown-InOrder m p (is_accepted p.conn) (send m p.conn) (out-send m p.conn)
      (closing-send m p.conn) v

pub lands-InOrder : (m : Message) (p : Pipe) → InOrder p → InOrder (pipe_step (hub_lands m) p)
unfolding pipe_step
lands-InOrder m p v =
    grown-InOrder m p (ltb (length p.conn.out) send_buffer) (enqueue m p.conn)
      (out-enqueue m p.conn) (closing-enqueue m p.conn) v

pub closes-InOrder : (c : ℕ) (p : Pipe) → InOrder p → InOrder (pipe_step (hub_closes c) p)
unfolding pipe_step
closes-InOrder c p v = record {
  lost = v.lost;
  parts = rw (out-close c p.conn) v.parts;
  none_lost = v.none_lost;
  stopped = v.stopped;
  code_is = λ code e. rw (closing-close c code p.conn (v.code_is code e)) (v.code_is code e);
}

pub pings-InOrder :
    (answered : Bool) (p : Pipe) → InOrder p → InOrder (pipe_step (pings answered) p)
unfolding pipe_step ping_tick
pings-InOrder answered p v = elim (Bool-cases (answered || is_closing p.conn)) [
  | inl fine ↦ rw fine v
  | inr cut ↦ rw cut (record {
    lost = v.lost;
    parts = v.parts;
    none_lost = v.none_lost;
    stopped = λ e. refl;
    code_is = v.code_is;
  })
]
