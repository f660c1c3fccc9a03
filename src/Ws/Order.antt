-- ===== src/Ws/Order.antt =====
-- The order of what the peer is sent, against what the hub queued.
use rps_backend.Api.Routes.{answered}
use rps_backend.Hub.Conn.{Conn, Message, close_slow_consumer}
use rps_backend.Prelude.{
  ap, Bool, Bool-cases, List, Option, [], append-nil, append_assoc, arith, false, inl, inr, nat_eq,
  none, refl, some, suc, sym, true, ℕ, ◌++◌, ◌==◌, ◌∙◌, ◌∷◌, ◌≡◌, ◌≢◌,
}
use rps_backend.Rules.Defs.{code, move_eq, seat_eq, status_eq}
use rps_backend.Ws.Writer.{
  ping_tick, Pipe, PipeOp, Turn, close_with, closing_seen, context_done, drain, hub_closes,
  hub_lands, hub_sends, is_running, new_pipe, outbound, pings, pipe_step, run_pipe, shake, turn_on,
  write_next, write_turn, writer,
}
use rps_backend.Ws.Queued.{InOrder, closes-InOrder, lands-InOrder, pings-InOrder, sends-InOrder}

-- While the loop runs nothing is lost, and there was no handshake.
record Running (p : Pipe) : Type 0 where
  whole : p.accepted ≡ p.wire.written ++ p.conn.out
  no_failure : p.wire.failed ≡ false
  no_handshake : p.wire.handshake ≡ none

Running-facts : (p : Pipe) → InOrder p → is_running p.wire ≡ true → Running p
Running-facts p v going =
    let no_failure : p.wire.failed ≡ false = ground (arith, v.stopped) in
    record {
      whole = rw (v.none_lost no_failure) at v.parts;
      no_failure = no_failure;
      no_handshake = ground arith;
    }

write_next-InOrder :
    (b : Bool) (out : List Message) (p : Pipe)
    → p.conn.out ≡ out
    → Running p
    → InOrder p
    → InOrder (write_next b out p)
write_next-InOrder b [] p e r v = v
write_next-InOrder true (m ∷ rest) p e r v = record {
  lost = [];
  parts = r.whole ∙ (rw e refl ∙ sym (append_assoc p.wire.written (m ∷ []) rest));
  none_lost = λ _. refl;
  stopped = λ bad. let fine = r.no_failure in cc;
  code_is = v.code_is;
}
write_next-InOrder false (m ∷ rest) p e r v = record {
  lost = m ∷ [];
  parts = r.whole ∙ rw e refl;
  none_lost = λ fine. cc;
  stopped = λ _. refl;
  code_is = v.code_is;
}

-- How the drain ends.
record Drained (accepted : List Message) (k : Conn) (q : Pipe) : Type 0 where
  lost : List Message
  parts : accepted ≡ q.wire.written ++ (lost ++ q.conn.out)
  none_lost : q.wire.failed ≡ false → lost ≡ []
  empties : q.wire.failed ≡ false → q.conn.out ≡ []
  accepted_is : q.accepted ≡ accepted
  closing_is : q.conn.closing ≡ k.closing

drain-Drained :
    (fits : ℕ → Bool) (i : ℕ) (ms : List Message) (p : Pipe)
    → p.accepted ≡ p.wire.written ++ ms
    → Drained p.accepted p.conn (drain fits i ms p)
unfolding drain
drain-Drained fits i [] p e = record {
  lost = [];
  parts = e;
  none_lost = λ _. refl;
  empties = λ _. refl;
  accepted_is = refl;
  closing_is = refl;
}
drain-Drained fits i (m ∷ ms) p e =
    let rest =
      drain-Drained fits (suc i) ms
        (record p { wire = record p.wire { written = p.wire.written ++ m ∷ [] } })
        (e ∙ sym (append_assoc p.wire.written (m ∷ []) ms)) in
    elim (Bool-cases (fits i)) [
      | inl good ↦ rw good rest
      | inr bad ↦ rw bad (record {
        lost = m ∷ [];
        parts = e;
        none_lost = λ fine. cc;
        empties = λ fine. cc;
        accepted_is = refl;
        closing_is = refl;
      })
    ]

shake-InOrder :
    (code : ℕ) (accepted : List Message) (k : Conn) (q : Pipe)
    → k.closing ≡ some code
    → Drained accepted k q
    → InOrder (shake code q)
shake-InOrder code accepted k q closing d = record {
  lost = d.lost;
  parts = d.accepted_is ∙ d.parts;
  none_lost = d.none_lost;
  stopped = λ _. ground arith;
  code_is = λ c e. d.closing_is ∙ closing ∙ e;
}

close_with-InOrder :
    (fits : ℕ → Bool) (o : Option ℕ) (p : Pipe)
    → p.conn.closing ≡ o
    → Running p
    → InOrder p
    → InOrder (close_with fits o p)
unfolding drain
close_with-InOrder fits none p e r v = v
close_with-InOrder fits (some code) p e r v = elim (Bool-cases (code == close_slow_consumer)) [
  | inl slow ↦ rw slow (record {
    lost = v.lost;
    parts = v.parts;
    none_lost = v.none_lost;
    stopped = λ _. ground arith;
    code_is = λ c f. e ∙ f;
  })
  | inr other_code ↦ rw other_code (
      shake-InOrder code p.accepted p.conn (drain fits 0 p.conn.out p) e
        (drain-Drained fits 0 p.conn.out p r.whole))
]

turn-InOrder : (t : Turn) (p : Pipe) → Running p → InOrder p → InOrder (turn_on t p)
turn-InOrder (outbound b) p r v = write_next-InOrder b p.conn.out p refl r v
turn-InOrder (closing_seen fits) p r v = close_with-InOrder fits p.conn.closing p refl r v
turn-InOrder context_done p r v = record {
  lost = v.lost;
  parts = v.parts;
  none_lost = v.none_lost;
  stopped = λ _. refl;
  code_is = v.code_is;
}

pipe_step-InOrder : (op : PipeOp) (p : Pipe) → InOrder p → InOrder (pipe_step op p)
unfolding pipe_step write_turn
pipe_step-InOrder (hub_sends m) p v = sends-InOrder m p v
pipe_step-InOrder (hub_lands m) p v = lands-InOrder m p v
pipe_step-InOrder (hub_closes c) p v = closes-InOrder c p v
pipe_step-InOrder (pings answered) p v = pings-InOrder answered p v
pipe_step-InOrder (writer t) p v = elim (Bool-cases (is_running p.wire)) [
  | inl going ↦ rw going (turn-InOrder t p (Running-facts p v going) v)
  | inr ended ↦ rw ended v
]

run_pipe-InOrder : (ops : List PipeOp) (p : Pipe) → InOrder p → InOrder (run_pipe ops p)
unfolding run_pipe
run_pipe-InOrder [] p v = v
run_pipe-InOrder (op ∷ ops) p v = run_pipe-InOrder ops (pipe_step op p) (pipe_step-InOrder op p v)

new_pipe-InOrder : InOrder new_pipe
new_pipe-InOrder = record {
  lost = [];
  parts = refl;
  none_lost = λ _. refl;
  stopped = λ bad. cc;
  code_is = λ code e. cc;
}

-- Whatever the hub sends and closes and however the loops of the transport take turns with it, what
-- the peer has been sent is the beginning of what the hub queued, in the same order; as long as no
-- write has failed, all the rest is still in the queue.
pub run_pipe-prefix :
    (ops : List PipeOp)
    → ((rest : List Message) × ((run_pipe ops new_pipe).accepted
          ≡ (run_pipe ops new_pipe).wire.written ++ rest))
      × ((run_pipe ops new_pipe).wire.failed ≡ false
          → (run_pipe ops new_pipe).accepted
            ≡ (run_pipe ops new_pipe).wire.written ++ (run_pipe ops new_pipe).conn.out)
run_pipe-prefix ops =
    let p = run_pipe ops new_pipe in
    let v = run_pipe-InOrder ops new_pipe new_pipe-InOrder in
    ((v.lost ++ p.conn.out, v.parts), λ fine. rw (v.none_lost fine) at v.parts)

-- What the handshake of the writer leaves unsent.
abbrev Flushed : ℕ → Pipe → Type 0
Flushed code p =
    p.wire.handshake ≡ some code
    → code ≢ close_slow_consumer
    → p.wire.failed ≡ false
    → p.accepted ≡ p.wire.written

Drained-Flushed :
    (status now : ℕ) (accepted : List Message) (k : Conn) (q : Pipe)
    → Drained accepted k q
    → Flushed status (shake now q)
Drained-Flushed status now accepted k q d shaken ne fine =
    d.accepted_is
    ∙ (d.parts
        ∙ (ap (λ (xs : List Message). q.wire.written ++ xs)
              (rw (d.none_lost fine, d.empties fine) refl)
            ∙ append-nil q.wire.written))

unshaken-Flushed :
    (code : ℕ) (p q : Pipe)
    → p.wire.handshake ≡ none
    → q.wire.handshake ≡ p.wire.handshake
    → Flushed code q
unshaken-Flushed code p q before same shaken = absurd (cc)

close_with-Flushed :
    (fits : ℕ → Bool) (o : Option ℕ) (p : Pipe) (code : ℕ)
    → Running p
    → Flushed code (close_with fits o p)
unfolding drain
close_with-Flushed fits none p code r = unshaken-Flushed code p p r.no_handshake refl
close_with-Flushed fits (some now) p code r = elim (Bool-cases (now == close_slow_consumer)) [
  | inl slow ↦ rw slow (λ shaken ne. absurd (ground arith))
  | inr other_code ↦ rw other_code (
      Drained-Flushed code now p.accepted p.conn (drain fits 0 p.conn.out p)
        (drain-Drained fits 0 p.conn.out p r.whole))
]

write_next-handshake :
    (b : Bool) (out : List Message) (p : Pipe)
    → (write_next b out p).wire.handshake ≡ p.wire.handshake
write_next-handshake b [] p = refl
write_next-handshake true (m ∷ rest) p = refl
write_next-handshake false (m ∷ rest) p = refl

ping_tick-handshake :
    (answered : Bool) (p : Pipe) → (ping_tick answered p).wire.handshake ≡ p.wire.handshake
unfolding ping_tick
ping_tick-handshake answered p = ground arith

turn-Flushed :
    (t : Turn) (p : Pipe) (code : ℕ)
    → p.wire.handshake ≡ none
    → Running p
    → Flushed code (turn_on t p)
turn-Flushed (outbound b) p code before r =
    unshaken-Flushed code p (write_next b p.conn.out p) before (write_next-handshake b p.conn.out p)
turn-Flushed (closing_seen fits) p code before r = close_with-Flushed fits p.conn.closing p code r
turn-Flushed context_done p code before r =
    unshaken-Flushed code p (turn_on context_done p) before refl

pipe_step-Flushed :
    (op : PipeOp) (p : Pipe) (code : ℕ)
    → p.wire.handshake ≡ none
    → InOrder p
    → Flushed code (pipe_step op p)
unfolding pipe_step write_turn
pipe_step-Flushed (hub_sends m) p code before v =
    unshaken-Flushed code p (pipe_step (hub_sends m) p) before refl
pipe_step-Flushed (hub_lands m) p code before v =
    unshaken-Flushed code p (pipe_step (hub_lands m) p) before refl
pipe_step-Flushed (hub_closes c) p code before v =
    unshaken-Flushed code p (pipe_step (hub_closes c) p) before refl
pipe_step-Flushed (pings answered) p code before v =
    unshaken-Flushed code p (ping_tick answered p) before (ping_tick-handshake answered p)
pipe_step-Flushed (writer t) p code before v = elim (Bool-cases (is_running p.wire)) [
  | inl going ↦ rw going (turn-Flushed t p code before (Running-facts p v going))
  | inr ended ↦ rw ended (unshaken-Flushed code p p before refl)
]

-- The step that closes the connection does so with the code of the hub's first close; and unless this is
-- the code of a slow consumer or a write has failed, everything that the hub had queued by then was
-- sent before.
pub run_pipe-flushed :
    (ops : List PipeOp) (op : PipeOp) (code : ℕ)
    → (run_pipe ops new_pipe).wire.handshake ≡ none
    → (pipe_step op (run_pipe ops new_pipe)).wire.handshake ≡ some code
    → ((pipe_step op (run_pipe ops new_pipe)).conn.closing ≡ some code)
      × (code ≢ close_slow_consumer
          → (pipe_step op (run_pipe ops new_pipe)).wire.failed ≡ false
          → (pipe_step op (run_pipe ops new_pipe)).accepted
            ≡ (pipe_step op (run_pipe ops new_pipe)).wire.written)
run_pipe-flushed ops op code before shaken =
    let p = run_pipe ops new_pipe in
    let v = run_pipe-InOrder ops new_pipe new_pipe-InOrder in
    ((pipe_step-InOrder op p v).code_is code shaken, pipe_step-Flushed op p code before v shaken)
