-- ===== src/Hub/Queue.antt =====
-- The life of a connection's queue (internal/hub/conn.go), over everything that is done to it.
use rps_backend.Hub.Conn.{
  Conn, Message, close_conn, close_slow_consumer, send, send_buffer, take_message,
}
use rps_backend.Prelude.{List, [], arith, length, length-append, none, some, ℕ, ◌∷◌, ◌≡◌, ◌≤◌}

pub data ConnOp : Type 0 where
  sends : Message → ConnOp
  closes_with : ℕ → ConnOp
  takes : ConnOp

unfoldable pub step_conn : ConnOp → Conn → Conn
step_conn (sends m) c = send m c
step_conn (closes_with k) c = close_conn k c
step_conn takes c = (take_message c).1

unfoldable pub run_conn : List ConnOp → Conn → Conn
run_conn [] c = c
run_conn (op ∷ ops) c = run_conn ops (step_conn op c)

step_conn-bound :
    (op : ConnOp) (c : Conn)
    → length c.out ≤ send_buffer
    → length (step_conn op c).out ≤ send_buffer
unfolding step_conn send close_conn take_message
step_conn-bound (sends m) c h = ground (arith, length-append c.out (m ∷ []))
step_conn-bound (closes_with k) c h = ground arith
step_conn-bound takes c h = ground arith

-- Whatever is sent, closed and delivered, the queue never holds more than 32 messages.
pub run_conn-bound :
    (ops : List ConnOp) (c : Conn)
    → length c.out ≤ send_buffer
    → length (run_conn ops c).out ≤ send_buffer
unfolding run_conn
run_conn-bound [] c h = h
run_conn-bound (op ∷ ops) c h = run_conn-bound ops (step_conn op c) (step_conn-bound op c h)

step_conn_closing :
    (op : ConnOp) (c : Conn) (k : ℕ)
    → c.closing ≡ some k
    → ((step_conn op c).closing ≡ some k) × (length (step_conn op c).out ≤ length c.out)
unfolding step_conn send close_conn take_message
step_conn_closing (sends m) c k h = ground arith
step_conn_closing (closes_with j) c k h = ground arith
step_conn_closing takes c k h = ground arith

-- The first close wins: once a connection is closing, its close code stays whatever follows, and
-- no message is queued any more.
pub run_conn_closing :
    (ops : List ConnOp) (c : Conn) (k : ℕ)
    → c.closing ≡ some k
    → ((run_conn ops c).closing ≡ some k) × (length (run_conn ops c).out ≤ length c.out)
unfolding run_conn
run_conn_closing [] c k h = (h, omega arith)
run_conn_closing (op ∷ ops) c k h =
    let (kept, shorter) = step_conn_closing op c k h in
    let (last, short) = run_conn_closing ops (step_conn op c) k kept in (last, omega arith)

-- A full queue closes the connection as a slow consumer, and loses nothing that it held.
pub send_full :
    (m : Message) (c : Conn)
    → c.closing ≡ none
    → send_buffer ≤ length c.out
    → send m c ≡ record c { closing = some close_slow_consumer }
unfolding send close_conn
send_full m c h f = ground arith
