-- ===== src/Hub/Reply.antt =====
-- The replies to a request: the messages with its id are counted in the queue of the connection.
use rps_backend.Hub.Conn.{
  Attachment, Body, Conn, Message, close_conn, is_closing, send, take_message,
}
use rps_backend.Hub.Defs.{Hub, detach_from, detach_locked, modify_conn}
use rps_backend.Hub.Steps.{Preserves, Stable}
use rps_backend.Prelude.{
  List, Option, [], arith, false, if◌then◌else◌, none, refl, some, ℕ, ◌++◌, ◌+◌, ◌∷◌, ◌≡◌, ◌≢◌,
}
use rps_backend.Rules.Defs.{code}
use rps_backend.Store.Defs.{Text, text_beq, text_beq_refl}

pub replies : Text → List Message → ℕ
replies request_id [] = 0
replies request_id (m ∷ ms) =
    (if text_beq m.request_id request_id then 1 else 0) + replies request_id ms

replies-snoc :
    (rid : Text) (xs : List Message) (m : Message)
    → replies rid (xs ++ m ∷ []) ≡ replies rid xs + (if text_beq m.request_id rid then 1 else 0)
unfolding replies
replies-snoc rid [] m = omega arith
replies-snoc rid (x ∷ xs) m = omega (arith, replies-snoc rid xs m)

nil_differs : (t : Text) → t ≢ [] → text_beq [] t ≡ false
nil_differs [] ne = absurd (ne refl)
nil_differs (x ∷ xs) ne = refl

abbrev event : Body → Message
event body = record { request_id = []; body = body }

-- The messages with the id `rid` that a connection has been sent: in its queue, or taken off it.
abbrev pub heard_by : Text → Conn → ℕ
heard_by rid k = replies rid k.taken + replies rid k.out

-- Connection `c` has been sent `n` messages with the id `rid`, unless it is being closed.
abbrev pub Heard : ℕ → Text → ℕ → Hub → Type 0
Heard c rid n h = is_closing (h.conns c) ≡ false → heard_by rid (h.conns c) ≡ n

-- A change of a connection that adds `d` such messages, unless it closes it.
abbrev pub Adds : Text → ℕ → (Conn → Conn) → Type 0
Adds rid d f =
    (k : Conn)
    → is_closing (f k) ≡ false
    → (is_closing k ≡ false) × (heard_by rid (f k) ≡ heard_by rid k + d)

module _ (c : ℕ) (rid : Text) (n : ℕ) where
  pub modify-Heard :
      (d : ℕ) (f : Conn → Conn)
      → Adds rid d f
      → (h : Hub) → Heard c rid n h
      → Heard c rid (n + d) (modify_conn c f h)
  modify-Heard d f adds h k still = ground (arith, adds (h.conns c))

  modify_other-Heard :
      (o : ℕ) (f : Conn → Conn)
      → Adds rid 0 f
      → (h : Hub) → Heard c rid n h
      → Heard c rid n (modify_conn o f h)
  modify_other-Heard o f adds h k still = ground (arith, adds (h.conns c))

send-Adds :
    (rid : Text) (m : Message) → Adds rid (if text_beq m.request_id rid then 1 else 0) (send m)
unfolding send close_conn is_closing
send-Adds rid m k still = ground (arith, replies-snoc rid k.out m)

event-Adds : (rid : Text) (body : Body) → rid ≢ [] → Adds rid 0 (send (event body))
event-Adds rid body ne = rw (nil_differs rid ne) at (send-Adds rid (event body))

pub reply-Adds :
    (rid : Text) (body : Body) → Adds rid 1 (send (record { request_id = rid; body = body }))
reply-Adds rid body =
    rw (text_beq_refl rid) at (send-Adds rid (record { request_id = rid; body = body }))

close-Adds : (rid : Text) (code : ℕ) → Adds rid 0 (close_conn code)
unfolding close_conn is_closing
close-Adds rid code k still = ground arith

take-Adds : (rid : Text) → Adds rid 0 (λ k. (take_message k).1)
unfolding take_message is_closing replies
take-Adds rid k still = go k.out refl
  where
    go :
        (out : List Message)
        → k.out ≡ out
        → (is_closing k ≡ false) × (heard_by rid (take_message k).1 ≡ heard_by rid k + 0)
    go [] e = ground (arith, e)
    go (m ∷ ms) e = ground (arith, e, replies-snoc rid k.taken m)

-- The transport takes a message off a queue.
pub delivers-Heard :
    (c : ℕ) (rid : Text) (n o : ℕ)
    → Preserves (Heard c rid n) (modify_conn o (λ k. (take_message k).1))
delivers-Heard c rid n o h k = modify_other-Heard c rid n o _ (take-Adds rid) h k

detach_from-Heard :
    (c : ℕ) (rid : Text) (n o : ℕ) (a : Option Attachment)
    → Preserves (Heard c rid n) (detach_from a o)
unfolding detach_from is_closing
detach_from-Heard c rid n o none h k still = k still
detach_from-Heard c rid n o (some a) h k still = ground (arith, k)

pub Heard-Stable : (c : ℕ) (rid : Text) (n : ℕ) → rid ≢ [] → Stable (Heard c rid n)
unfolding detach_locked
Heard-Stable c rid n ne = record {
  quiet = record {
    notified = λ o body h k. modify_other-Heard c rid n o _ (event-Adds rid body ne) h k;
    closed_one = λ o code h k. modify_other-Heard c rid n o _ (close-Adds rid code) h k;
    detached_one = λ o h k. detach_from-Heard c rid n o (h.conns o).attached h k;
    queried = λ h s same k. k;
  };
  stored = λ h s keeps k. k;
}
