-- ===== src/Hub/Attach.antt =====
-- The registry's invariant: the set of connections of a game and the game of a connection agree
-- (`Hub.games` and `Conn.gameID`), and each change of the registry keeps it.
use rps_backend.Hub.Conn.{Attachment, Conn, Message, attachment_id, close_conn, send}
use rps_backend.Hub.Defs.{Hub, attach_locked, detach_from, detach_locked, each, modify_conn, remove}
use rps_backend.Prelude.{
  Bool, Bool-cases, List, Option, [], ap, arith, contains, false, if◌then◌else◌, inl, inr, nat_beq,
  nat_eq, none, not, refl, some, sym, ℕ, ◌&&◌, ◌==◌, ◌∙◌, ◌∷◌, ◌≡◌, ◌≢◌, ◌⊎◌,
}
use rps_backend.Rules.Defs.{Seat, code, move_eq, seat_eq, status_eq}
use rps_backend.Store.Ids.{NoEmptyId}

abbrev pub in_game : Option Attachment → ℕ → Bool
in_game none g = false
in_game (some a) g = a.game_id == g

pub record Coherent (h : Hub) : Type 0 where
  pub agree : (c g : ℕ) → contains c (h.games g) ≡ in_game (h.conns c).attached g
  pub proper : (c : ℕ) → in_game (h.conns c).attached 0 ≡ false
  pub no_empty_id : NoEmptyId h.store

contains-remove :
    (c d : ℕ) (xs : List ℕ) → contains d (remove c xs) ≡ not (nat_beq c d) && contains d xs
unfolding remove
contains-remove c d [] = ground arith
contains-remove c d (x ∷ xs) = ground (arith, contains-remove c d xs)

-- A change of a connection that leaves its attachment.
abbrev pub KeepsAttachment : (Conn → Conn) → Type 0
KeepsAttachment f = (k : Conn) → (f k).attached ≡ k.attached

pub send-KeepsAttachment : (m : Message) → KeepsAttachment (send m)
unfolding send close_conn
send-KeepsAttachment m k = ground arith

pub close_conn-KeepsAttachment : (code : ℕ) → KeepsAttachment (close_conn code)
unfolding close_conn
close_conn-KeepsAttachment code k = ground arith

pub attached-modify :
    (c d : ℕ) (f : Conn → Conn) (h : Hub)
    → KeepsAttachment f
    → ((modify_conn c f h).conns d).attached ≡ (h.conns d).attached
attached-modify c d f h keeps = elim (Bool-cases (nat_beq c d)) [
  | inl same ↦ rw same (keeps (h.conns c) ∙ ap (λ (x : ℕ). (h.conns x).attached) (ground arith))
  | inr differ ↦ rw differ
]

pub modify-Coherent :
    (c : ℕ) (f : Conn → Conn) (h : Hub)
    → KeepsAttachment f
    → Coherent h
    → Coherent (modify_conn c f h)
modify-Coherent c f h keeps k = record {
  agree = λ d g.
      k.agree d g
      ∙ ap (λ (a : Option Attachment). in_game a g) (sym (attached-modify c d f h keeps));
  proper =
      λ d. ap (λ (a : Option Attachment). in_game a 0) (attached-modify c d f h keeps) ∙ k.proper d;
  no_empty_id = k.no_empty_id;
}

attached-detach_from :
    (a : Option Attachment) (c d : ℕ) (h : Hub)
    → (h.conns c).attached ≡ a
    → ((detach_from a c h).conns d).attached ≡ (if nat_beq c d then none else (h.conns d).attached)
unfolding detach_from
attached-detach_from none c d h e = ground arith
attached-detach_from (some a) c d h e = ground arith

-- After `detachLocked` the connection is attached to nothing, and every other as before.
pub attached-detach_locked :
    (c d : ℕ) (h : Hub)
    → ((detach_locked c h).conns d).attached ≡ (if nat_beq c d then none else (h.conns d).attached)
unfolding detach_locked
attached-detach_locked c d h = attached-detach_from (h.conns c).attached c d h refl

games-detach_from :
    (a : Option Attachment) (c d g : ℕ) (h : Hub)
    → (h.conns c).attached ≡ a
    → Coherent h
    → contains d ((detach_from a c h).games g)
      ≡ (if nat_beq c d then false else in_game (h.conns d).attached g)
unfolding detach_from
games-detach_from none c d g h e k = ground (arith, k.agree d g)
games-detach_from (some a) c d g h e k =
    ground (arith, k.agree d g, contains-remove c d (h.games a.game_id))

store-detach_from :
    (a : Option Attachment) (c : ℕ) (h : Hub)
    → NoEmptyId h.store
    → NoEmptyId (detach_from a c h).store
unfolding detach_from
store-detach_from none c h k = k
store-detach_from (some a) c h k = k

pub detach_locked-Coherent : (c : ℕ) (h : Hub) → Coherent h → Coherent (detach_locked c h)
unfolding detach_locked
detach_locked-Coherent c h k = record {
  agree = λ d g. ground (
    arith,
    games-detach_from (h.conns c).attached c d g h refl k,
    attached-detach_from (h.conns c).attached c d h refl,
  );
  proper = λ d. ground (arith, attached-detach_from (h.conns c).attached c d h refl, k.proper d);
  no_empty_id = store-detach_from (h.conns c).attached c h k.no_empty_id;
}

-- `attachLocked` keeps the invariant where the connection is attached to nothing else.
pub attach_locked-Coherent :
    (c g : ℕ) (seat : Seat) (h : Hub)
    → g ≢ 0
    → ((h.conns c).attached ≡ none) ⊎ (attachment_id (h.conns c).attached ≡ g)
    → Coherent h
    → Coherent (attach_locked c g seat h)
unfolding attach_locked
attach_locked-Coherent c g seat h ne free k = record {
  agree = λ d j. ground (arith, k.agree d j, k.agree c g, k.agree c j, k.agree d g);
  proper = λ d. ground (arith, k.proper d);
  no_empty_id = k.no_empty_id;
}

pub each-Coherent :
    (f : ℕ → Hub → Hub)
    → ((c : ℕ) (h : Hub) → Coherent h → Coherent (f c h))
    → (cs : List ℕ) (h : Hub) → Coherent h
    → Coherent (each f cs h)
unfolding each
each-Coherent f keeps [] h k = k
each-Coherent f keeps (c ∷ cs) h k = each-Coherent f keeps cs (f c h) (keeps c h k)
