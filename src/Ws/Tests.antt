-- ===== src/Ws/Tests.antt =====
-- Runs of the transport, and the theorems there.
use rps_backend.Hub.Attach.{Coherent}
use rps_backend.Hub.Conn.{
  Message, close_conn, close_slow_consumer, leave_ok, move_ok, new_conn, send,
}
use rps_backend.Hub.Connect.{Fair}
use rps_backend.Hub.Defs.{Hub}
use rps_backend.Hub.Life.{new_hub}
use rps_backend.Hub.Tests.{alone, plain}
use rps_backend.Prelude.{
  ◌++◌, pos, All, Bool, ◌↔◌, ◌⊎◌, List, Option, [], contains, false, inr, none, refl, some, true, ℕ,
  ◌++◌, ◌∷◌, ◌≡◌, ◌≢◌,
}
use rps_backend.Store.Defs.{Text, find_game}
use rps_backend.Store.Ids.{NoEmptyId}
use rps_backend.Store.Tests.{small}
use rps_backend.Ws.Delivery.{run_pipe-turns, turns}
use rps_backend.Threads.{here}
use rps_backend.Ws.Group.{
  GroupRun, GroupRun-wait, Handler, Options, Uncounted, accepted, accepts, add_one, adds, begins,
  disconnects, done_one, goes_on, new_handler, registers, returned, returns, wait_returns,
}
use rps_backend.Ws.Order.{run_pipe-flushed, run_pipe-prefix}
use rps_backend.Ws.Reader.{Read, Unmarshal, serve}
use rps_backend.Ws.Session.{serve-forgets}
use rps_backend.Ws.Writer.{
  Pipe, PipeOp, closing_seen, drain, hub_closes, hub_lands, hub_sends, is_running, new_pipe,
  outbound, pipe_step, run_pipe, write_turn, writer,
}

abbrev hello : Message
hello = record { request_id = []; body = move_ok }

abbrev bye : Message
bye = record { request_id = []; body = leave_ok }

-- Two messages and a close; the writer sends the first.
abbrev closing_session : List PipeOp
closing_session = hub_sends hello ∷ hub_sends bye ∷ writer (outbound true) ∷ hub_closes 1000 ∷ []

-- Then it sees the close.
abbrev sees_close : PipeOp
sees_close = writer (closing_seen (λ _. true))

abbrev session : List PipeOp
session = closing_session ++ sees_close ∷ []

session_written : (run_pipe session new_pipe).wire.written ≡ hello ∷ bye ∷ []
unfolding run_pipe pipe_step write_turn send drain close_conn
session_written = refl

-- A slow consumer's queue is not sent.
slow_written :
    (run_pipe
      (hub_sends hello ∷ hub_closes close_slow_consumer ∷ writer (closing_seen (λ _. true)) ∷ [])
      new_pipe).wire.written
    ≡ []
unfolding run_pipe pipe_step write_turn send drain close_conn
slow_written = refl

run_pipe-prefix_example :
    ((rest : List Message) × ((run_pipe session new_pipe).accepted
        ≡ (run_pipe session new_pipe).wire.written ++ rest))
    × ((run_pipe session new_pipe).wire.failed ≡ false
        → (run_pipe session new_pipe).accepted
          ≡ (run_pipe session new_pipe).wire.written ++ (run_pipe session new_pipe).conn.out)
run_pipe-prefix_example = run_pipe-prefix session

-- A message that lands after the handshake stays where it is.
late_kept : (run_pipe (session ++ hub_lands bye ∷ []) new_pipe).conn.out ≡ bye ∷ []
unfolding run_pipe pipe_step write_turn send drain close_conn
late_kept = refl

closing_session_open : (run_pipe closing_session new_pipe).wire.handshake ≡ none
unfolding run_pipe pipe_step write_turn send drain close_conn
closing_session_open = refl

sees_close_handshake :
    (pipe_step sees_close (run_pipe closing_session new_pipe)).wire.handshake ≡ some 1000
unfolding run_pipe pipe_step write_turn send drain close_conn
sees_close_handshake = refl

run_pipe-flushed_example :
    ((pipe_step sees_close (run_pipe closing_session new_pipe)).conn.closing ≡ some 1000)
    × (1000 ≢ close_slow_consumer
        → (pipe_step sees_close (run_pipe closing_session new_pipe)).wire.failed ≡ false
        → (pipe_step sees_close (run_pipe closing_session new_pipe)).accepted
          ≡ (pipe_step sees_close (run_pipe closing_session new_pipe)).wire.written)
run_pipe-flushed_example =
    run_pipe-flushed closing_session sees_close 1000 closing_session_open sees_close_handshake

abbrev queued : Pipe
queued = record new_pipe { conn = record new_conn { out = hello ∷ bye ∷ [] } }

run_pipe-turns_example :
    ((run_pipe (turns 2) queued).wire.written ≡ hello ∷ bye ∷ [])
    × ((run_pipe (turns 2) queued).conn.out ≡ [])
    × (is_running (run_pipe (turns 2) queued).wire ≡ true)
run_pipe-turns_example = run_pipe-turns (hello ∷ bye ∷ []) queued refl refl

abbrev asked : Pipe
asked = record new_pipe { conn = record new_conn { out = hello ∷ []; closing = some 1000 } }

-- A close request ends the loop, once what was queued is written.
asked_ends :
    (write_turn (closing_seen (λ _. true)) asked).wire
    ≡ record { written = hello ∷ []; handshake = some 1000; dropped = false; failed = false }
unfolding write_turn drain
asked_ends = refl

-- A parser that finds the host "h" in an origin of two bytes or more.
abbrev toy_host : Text → Option Text
toy_host [] = none
toy_host (x ∷ []) = none
toy_host (x ∷ y ∷ xs) = some (b'h' ∷ [])

abbrev two_origins : List Text
two_origins = (b'a' ∷ []) ∷ (b'a' ∷ b'b' ∷ []) ∷ []

abbrev start : Hub
start = new_hub small 30

small_ids : NoEmptyId small
unfolding find_game
small_ids = refl

start-Coherent : Coherent start
start-Coherent = record { agree = λ c g. refl; proper = λ c. refl; no_empty_id = small_ids }

abbrev reads_leave : Read
reads_leave = record {
  meanwhile = λ h. h;
  frame = record { is_text = true; bytes = b'{' ∷ [] };
  waits = alone;
}

abbrev to_leave : Unmarshal
to_leave raw = (record { action = "game::leave"; request_id = []; payload = [] }, true)

alone_start-Fair : Fair 0 alone
alone_start-Fair = record {
  leaving_keeps = tt;
  entering_keeps = λ h k. k;
  entering_attaches_not = λ h. inr refl;
}

serve-forgets_example :
    Coherent (serve plain to_leave (reads_leave ∷ []) (λ h. h) [] start)
    × (((serve plain to_leave (reads_leave ∷ []) (λ h. h) [] start).conns 0).attached ≡ none)
    × ((g : ℕ)
        → contains 0 ((serve plain to_leave (reads_leave ∷ []) (λ h. h) [] start).games g) ≡ false)
    × (contains 0 (serve plain to_leave (reads_leave ∷ []) (λ h. h) [] start).live ≡ false)
    × ((((serve plain to_leave (reads_leave ∷ []) (λ h. h) [] start).conns 0).player_id ≡ 0)
        ⊎ ((serve plain to_leave (reads_leave ∷ []) (λ h. h) [] start).players
              ((serve plain to_leave (reads_leave ∷ []) (λ h. h) [] start).conns 0).player_id
            ≢ some 0))
serve-forgets_example =
    serve-forgets plain to_leave (reads_leave ∷ []) (λ h. h) [] start start-Coherent refl
      ((λ h k. k, alone_start-Fair), tt) (λ h k. k) tt

abbrev any_options : Options
any_options = record { allowed_origins = []; auth_timeout = pos 10; ping_interval = pos 30 }

abbrev idle : Handler
idle = new_handler (λ t. none) any_options

-- One connection has come and gone, and the next has just been accepted.
one_gone : GroupRun (λ t. none) any_options (done_one (add_one idle)) (accepted ∷ returned ∷ [])
one_gone =
    let come = goes_on (goes_on begins accepts) (adds here) in
    let gone =
      goes_on (goes_on (goes_on come (registers here)) (disconnects here)) (returns here) in
    goes_on gone accepts

GroupRun-wait_example :
    (wait_returns false (done_one (add_one idle)) ≡ true)
    ↔ (All Uncounted (accepted ∷ returned ∷ []) ⊎ (◌≡◌ {A = Bool} false true))
GroupRun-wait_example =
    GroupRun-wait (λ t. none) any_options false (done_one (add_one idle)) (accepted ∷ returned ∷ [])
      one_gone
