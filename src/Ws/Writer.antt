-- ===== src/Ws/Writer.antt =====
-- `writeLoop` and `pingLoop` of internal/ws/ws.go. A turn of a loop is a function of what its `select`
-- chose and of how the library's call ended; a choice that is not ready changes nothing.
use rps_backend.Api.Routes.{answered}
use rps_backend.Hub.Conn.{
  Conn, Message, close_conn, enqueue, close_slow_consumer, is_closing, new_conn, send, send_buffer,
  some_code,
}
use rps_backend.Prelude.{
  Bool, List, Option, [], false, if◌then◌else◌, length, ltb, nat_eq, none, not, some, suc, true, ℕ,
  ◌&&◌, ◌++◌, ◌==◌, ◌||◌, ◌∷◌,
}
use rps_backend.Rules.Defs.{code, move_eq, seat_eq, status_eq}

-- What the peer has been sent, and how the transport ended.
pub record Wire : Type 0 where
  pub written : List Message
  pub handshake : Option ℕ  -- the code of `conn.Close`
  pub dropped : Bool  -- `conn.CloseNow`, or a cancelled context
  pub failed : Bool  -- some write has failed

pub record Pipe : Type 0 where
  pub conn : Conn
  pub wire : Wire
  pub accepted : List Message  -- what `send` has put on the queue, from the first on

abbrev pub new_pipe : Pipe
new_pipe = record {
  conn = new_conn;
  wire = record { written = []; handshake = none; dropped = false; failed = false };
  accepted = [];
}

abbrev pub is_running : Wire → Bool
is_running w = not w.dropped && not (some_code w.handshake)

-- What a case of `select` stands for, with the result of the calls that follow it.
pub data Turn : Type 0 where
  outbound : (write_succeeds : Bool) → Turn
  closing_seen : (write_succeeds : ℕ → Bool) → Turn
  context_done : Turn

-- `write(msg)` to a transport that takes it or does not; without it the loop drops the connection.
abbrev pub write_one : Bool → Message → List Message → Pipe → Pipe
write_one true m rest p = record p {
  conn = record p.conn { out = rest };
  wire = record p.wire { written = p.wire.written ++ m ∷ [] };
}
write_one false m rest p = record p {
  conn = record p.conn { out = rest };
  wire = record p.wire { dropped = true; failed = true };
}

-- The loop `drain`: `i` writes have succeeded.
unfoldable pub drain : (ℕ → Bool) → ℕ → List Message → Pipe → Pipe
drain fits i [] p = record p { conn = record p.conn { out = [] } }
drain fits i (m ∷ ms) p =
    let rest =
      drain fits (suc i) ms
        (record p { wire = record p.wire { written = p.wire.written ++ m ∷ [] } }) in
    if fits i
    then rest
    else record p { conn = record p.conn { out = ms }; wire = record p.wire { failed = true } }

abbrev pub shake : ℕ → Pipe → Pipe
shake code p = record p { wire = record p.wire { handshake = some code } }

abbrev pub close_with : (ℕ → Bool) → Option ℕ → Pipe → Pipe
close_with fits none p = p
close_with fits (some code) p =
    shake code (if not (code == close_slow_consumer) then drain fits 0 p.conn.out p else p)

abbrev pub write_next : Bool → List Message → Pipe → Pipe
write_next fits [] p = p
write_next fits (m ∷ rest) p = write_one fits m rest p

abbrev pub turn_on : Turn → Pipe → Pipe
turn_on (outbound fits) p = write_next fits p.conn.out p
turn_on (closing_seen fits) p = close_with fits p.conn.closing p
turn_on context_done p = record p { wire = record p.wire { dropped = true } }

unfoldable pub write_turn : Turn → Pipe → Pipe
unfolding drain
write_turn t p = if is_running p.wire then turn_on t p else p

-- A tick of `pingLoop` whose ping was answered or was not.
unfoldable pub ping_tick : Bool → Pipe → Pipe
unfolding is_closing
ping_tick answered p =
    if answered || is_closing p.conn
    then p
    else record p { wire = record p.wire { dropped = true } }

-- What the hub does meanwhile, `c.send` and `c.Close`, and the turns of the loops. `hub_lands` is the
-- second half of a `send` that was overtaken by a close request. What lands between the last look of
-- `drain` at the queue and the handshake lands just as well after the handshake, which does not read
-- the queue.
pub data PipeOp : Type 0 where
  hub_sends : Message → PipeOp
  hub_lands : Message → PipeOp
  hub_closes : ℕ → PipeOp
  writer : Turn → PipeOp
  pings : Bool → PipeOp

abbrev pub is_accepted : Conn → Bool
is_accepted c = not (some_code c.closing) && ltb (length c.out) send_buffer

unfoldable pub pipe_step : PipeOp → Pipe → Pipe
unfolding close_conn
pipe_step (hub_sends m) p = record p {
  conn = send m p.conn;
  accepted = if is_accepted p.conn then p.accepted ++ m ∷ [] else p.accepted;
}
pipe_step (hub_lands m) p = record p {
  conn = enqueue m p.conn;
  accepted = if ltb (length p.conn.out) send_buffer then p.accepted ++ m ∷ [] else p.accepted;
}
pipe_step (hub_closes code) p = record p { conn = close_conn code p.conn }
pipe_step (writer t) p = write_turn t p
pipe_step (pings answered) p = ping_tick answered p

unfoldable pub run_pipe : List PipeOp → Pipe → Pipe
run_pipe [] p = p
run_pipe (op ∷ ops) p = run_pipe ops (pipe_step op p)

-- The end of `ServeHTTP`, after `Disconnect`: the writer finishes its close handshake, or the time for
-- it is over and the context is cancelled.
unfoldable pub finish : Option (ℕ → Bool) → Pipe → Pipe
finish (some fits) p = write_turn (closing_seen fits) p
finish none p = write_turn context_done p
