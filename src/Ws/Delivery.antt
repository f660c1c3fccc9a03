-- ===== src/Ws/Delivery.antt =====
-- The turns of the writer that send what is queued, and the end of a connection.
use rps_backend.Hub.Conn.{Message}
use rps_backend.Prelude.{
  Bool, Bool-cases, List, Option, [], ap, append-nil, append_assoc, false, if◌then◌else◌, inl, inr,
  length, none, refl, some, suc, sym, true, zero, ℕ, ◌&&◌, ◌++◌, ◌∙◌, ◌∷◌, ◌≡◌,
}
use rps_backend.Ws.Writer.{
  Pipe, PipeOp, finish, is_running, outbound, pipe_step, run_pipe, turn_on, write_next, write_one,
  write_turn, writer,
}

pub turns : ℕ → List PipeOp
turns zero = []
turns (suc n) = writer (outbound true) ∷ turns n

turn_step :
    (m : Message) (ms : List Message) (p : Pipe)
    → p.conn.out ≡ m ∷ ms
    → is_running p.wire ≡ true
    → pipe_step (writer (outbound true)) p ≡ write_one true m ms p
unfolding pipe_step write_turn
turn_step m ms p e going =
    ap (λ (b : Bool). if b then turn_on (outbound true) p else p) going
    ∙ ap (λ (out : List Message). write_next true out p) e

-- As many turns as there are messages send the whole queue, where the library takes what it is given.
pub run_pipe-turns :
    (out : List Message) (p : Pipe)
    → p.conn.out ≡ out
    → is_running p.wire ≡ true
    → ((run_pipe (turns (length out)) p).wire.written ≡ p.wire.written ++ out)
      × ((run_pipe (turns (length out)) p).conn.out ≡ [])
      × (is_running (run_pipe (turns (length out)) p).wire ≡ true)
unfolding run_pipe turns
run_pipe-turns [] p e going = (sym (append-nil p.wire.written), e, going)
run_pipe-turns (m ∷ ms) p e going =
    let (sent, empty_now, still) = run_pipe-turns ms (write_one true m ms p) refl going in
    rw (turn_step m ms p e going, run_pipe)
      (sent ∙ append_assoc p.wire.written (m ∷ []) ms, empty_now, still)

and_false : (b : Bool) → (b && false) ≡ false
and_false true = refl
and_false false = refl

-- Once a close is requested, the end of a connection stops its writer, whether or not the handshake is
-- in time and whatever writes fail.
finish_ends :
    (o : Option (ℕ → Bool)) (p : Pipe) (status : ℕ)
    → p.conn.closing ≡ some status
    → is_running (finish o p).wire ≡ false
unfolding finish write_turn
finish_ends none p status e = elim (Bool-cases (is_running p.wire)) [
  | inl going ↦ rw going refl
  | inr over ↦ rw over over
]
finish_ends (some fits) p status e = elim (Bool-cases (is_running p.wire)) [
  | inl going ↦ rw (going, e) (and_false _)
  | inr over ↦ rw over over
]
