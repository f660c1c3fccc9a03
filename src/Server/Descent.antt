-- ===== src/Server/Descent.antt =====
-- A game's row in the database over time: it is only ever changed by calls of internal/rules/rules.go.
use mathlib.Core.Option.{some-injective}
use rps_backend.Hub.Defs.{Hub}
use rps_backend.Hub.Follows.{Follows, Reaches, Reaches-self}
use rps_backend.Hub.Operations.{HubOp, op_creates_game}
use rps_backend.Prelude.{
  true, ==_iff, Bool-cases, List, [], ap, arith, inl, inr, nat_eq, refl, some, subst, sym, ℕ, ◌++◌,
  ◌==◌, ◌∙◌, ◌∷◌, ◌≡◌, ◌≢◌, ◌⊎◌,
}
use rps_backend.Rules.Defs.{State, waiting_for_guest}
use rps_backend.Rules.Machine.{Op, apply, run}
use rps_backend.Server.Rows.{Lasting}
use rps_backend.Server.History.{History, History-games}
use rps_backend.Server.Runs.{Now-Served}
use rps_backend.Server.Sound.{run-waiting}
use rps_backend.Store.Defs.{Game, delete_game_row, find_game, null_if, set_null, text_eq}
use rps_backend.Store.Ids.{find_game-delete}
use rps_backend.Store.Save.{find_game-update_rows, find_game-update_rows_ne}
use rps_backend.Store.Tx.{update_rows, write_row}

run-append : (ops more : List Op) (s : State) → run (ops ++ more) s ≡ run more (run ops s)
unfolding run
run-append [] more s = refl
run-append (op ∷ ops) more s = run-append ops more (apply op s).0

Reaches-trans : (s t u : State) → Reaches s t → Reaches t u → Reaches s u
Reaches-trans s t u (ops, there) (more, beyond) =
    (ops ++ more, run-append ops more s ∙ (ap (run more) there ∙ beyond))

-- What may have become of a game.
pub record Descends (old new : Game) : Type 0 where
  pub reaches : Reaches old.state new.state
  pub host_kept : (new.host_player_id ≡ old.host_player_id) ⊎ (new.host_player_id ≡ 0)
  pub guest_kept :
      (new.guest_player_id ≡ old.guest_player_id)
      ⊎ (new.guest_player_id ≡ 0)
      ⊎ (old.state.status ≡ waiting_for_guest)
  pub secret_kept : new.secret_hash ≡ old.secret_hash

Descends-self : (g : Game) → Descends g g
Descends-self g = record {
  reaches = Reaches-self g.state;
  host_kept = inl refl;
  guest_kept = inl refl;
  secret_kept = refl;
}

-- One more write over the row.
Descends-Follows :
    (old row g : Game) → Descends old row → Follows row g → Descends old (write_row g row)
Descends-Follows old row g d f = record {
  reaches = Reaches-trans old.state row.state g.state d.reaches f.reaches;
  host_kept = elim d.host_kept [
    | inl same ↦ inl (f.same_host ∙ same)
    | inr gone ↦ inr (f.same_host ∙ gone)
  ];
  guest_kept = elim f.seated [
    | inl same ↦ elim d.guest_kept [
      | inl kept ↦ inl (same ∙ kept)
      | inr (inl gone) ↦ inr (inl (same ∙ gone))
      | inr (inr waited) ↦ inr (inr waited)
    ]
    | inr (waits, _, _) ↦
        let (ops, there) = d.reaches in
        inr (inr (run-waiting ops old.state (ap (λ (s : State). s.status) there ∙ waits)))
  ];
  secret_kept = d.secret_kept;
}

-- The row of a game whose player `i` was deleted.
abbrev vacated : ℕ → Game → Game
vacated i g = record g {
  host_player_id = null_if i g.host_player_id;
  guest_player_id = null_if i g.guest_player_id;
}

Descends-vacated : (i : ℕ) (old row : Game) → Descends old row → Descends old (vacated i row)
Descends-vacated i old row d = record {
  reaches = d.reaches;
  host_kept = elim (Bool-cases (row.host_player_id == i)) [
    | inl his ↦ inr (rw his refl)
    | inr other ↦ rw other d.host_kept
  ];
  guest_kept = elim (Bool-cases (row.guest_player_id == i)) [
    | inl his ↦ inr (inl (rw his refl))
    | inr other ↦ rw other d.guest_kept
  ];
  secret_kept = d.secret_kept;
}

-- The game that is found by the id `i`, if any, descends from `old`.
abbrev Kin : ℕ → Game → List Game → Type 0
Kin i old gs = (g : Game) → find_game i gs ≡ some g → Descends old g

-- The game with the id `i` descends from what was seen of it.
abbrev KinSeen : ℕ → List Game → List Game → Type 0
KinSeen i seen gs = (old : Game) → find_game i seen ≡ some old → Kin i old gs

find_game-set_null :
    (i j : ℕ) (g : Game) (gs : List Game)
    → find_game j (set_null i gs) ≡ some g
    → (row : Game) × (find_game j gs ≡ some row) × (vacated i row ≡ g)
unfolding find_game set_null
find_game-set_null i j g [] e = absurd (cc)
find_game-set_null i j g (q ∷ gs) e = elim (Bool-cases (q.id == j)) [
  | inl here ↦ (q, rw here refl, ground arith)
  | inr later ↦
      let (row, found, same) = find_game-set_null i j g gs (ground arith) in
      (row, rw later found, same)
]

find_game-delete_some :
    (i j : ℕ) (g : Game) (gs : List Game)
    → find_game j (delete_game_row i gs) ≡ some g
    → find_game j gs ≡ some g
unfolding find_game delete_game_row
find_game-delete_some i j g [] e = e
find_game-delete_some i j g (q ∷ gs) e =
    ground (arith, find_game-delete_some i j g gs, find_game-delete i gs)

find_game-append_ne :
    (j : ℕ) (g : Game) (gs : List Game) → g.id ≢ j → find_game j (gs ++ g ∷ []) ≡ find_game j gs
unfolding find_game
find_game-append_ne j g [] ne = ground arith
find_game-append_ne j g (q ∷ gs) ne = ground (arith, find_game-append_ne j g gs ne)

overwritten-Kin :
    (i : ℕ) (old row g : Game) (gs : List Game)
    → find_game g.id gs ≡ some row
    → Follows row g
    → Kin i old gs
    → Kin i old (update_rows g gs)
overwritten-Kin i old row g gs found f k new e = elim (Bool-cases (i == g.id)) [
  | inl same ↦
      let ids : i ≡ g.id = (==_iff i g.id).0 same in
      let written =
        sym (find_game-update_rows g row gs found)
        ∙ (ap (λ (j : ℕ). find_game j (update_rows g gs)) (sym ids) ∙ e) in
      subst (Descends old) (some-injective (write_row g row) new written)
        (Descends-Follows old row g (k row (ap (λ (j : ℕ). find_game j gs) ids ∙ found)) f)
  | inr differs ↦ k new (sym (find_game-update_rows_ne g i gs (λ same. ground arith)) ∙ e)
]

KinSeen-Lasting : (i : ℕ) (seen : List Game) → Lasting (λ j. j ≢ i) (KinSeen i seen)
KinSeen-Lasting i seen = record {
  overwritten =
      λ row g gs found f k old there. overwritten-Kin i old row g gs found f (k old there);
  unseated = λ j gs k old there g e.
      let (row, found, same) = find_game-set_null j i g gs e in
      subst (Descends old) same (Descends-vacated j old row (k old there row found));
  deleted = λ j gs k old there g e. k old there g (find_game-delete_some j i g gs e);
  hosted = λ g gs fresh waits alone k old there new e.
      k old there new (sym (find_game-append_ne i g gs fresh) ∙ e);
}

seen-KinSeen : (i : ℕ) (gs : List Game) → KinSeen i gs gs
seen-KinSeen i gs old there g e =
    subst (Descends old) (some-injective old g (sym there ∙ e)) (Descends-self old)

-- The id of a new game is not `i`.
abbrev pub OtherId : ℕ → HubOp → Type 0
OtherId i (op_creates_game lib ch body) = ch.uuid ≢ i
OtherId i _ = Unit

-- Whatever the server does, in any order, whatever of this happens while an operation waits for a lock,
-- and whatever fails: a game that somebody saw in the database at any moment, at first or also in the
-- midst of an operation, and that is still there, has a state that calls of the rules lead to from the
-- one that was seen; its host is the one seen or was deleted; its guest is the one seen, or was deleted,
-- or joined since, and then the game had waited for a guest; and its secret is the same. No new game is
-- given the id of this one.
pub History-Descends :
    (i : ℕ) (f : Hub → Hub)
    → History (OtherId i) true f
    → (h : Hub) → h.seen ≡ h.store.games
    → (old new : Game) → find_game i (f h).seen ≡ some old
    → find_game i (f h).store.games ≡ some new
    → Descends old new
History-Descends i f past h start old new was is_now =
    History-games (OtherId i) (KinSeen i)
      (Now-Served (KinSeen i) (KinSeen-Lasting i) (OtherId i) (λ lib ch body fits. fits))
      (λ seen gs k. seen-KinSeen i gs) f past h
      (subst (λ (gs : List Game). KinSeen i gs h.store.games) (sym start)
        (seen-KinSeen i h.store.games))
      old was new is_now
