-- ===== src/Server/Sound.antt =====
-- Every game in the database is sound: its state is one that internal/rules/rules.go can be in, and its
-- seats are in order.
use rps_backend.Hub.Defs.{Hub}
use rps_backend.Hub.Follows.{Follows, NotBoth}
use rps_backend.Hub.Operations.{HubOp}
use rps_backend.Prelude.{
  true, All, Bool-cases, List, [], ap, arith, inl, inr, nat_eq, some, subst, sym, ℕ, ◌++◌, ◌==◌,
  ◌∙◌, ◌∷◌, ◌≡◌,
}
use rps_backend.Rules.Defs.{
  State, close, decline_rematch, join, new_state, play_move, rematch, settle, waiting_for_guest,
}
use rps_backend.Rules.Invariant.{IsValid, new_state-IsValid, run-IsValid}
use rps_backend.Rules.Machine.{Op, apply, closes, declines, joins, plays, rematches, run}
use rps_backend.Server.Rows.{Lasting}
use rps_backend.Server.History.{History, History-games}
use rps_backend.Server.Runs.{Now-Served}
use rps_backend.Store.Defs.{Game, delete_game_row, find_game, set_null, text_eq}
use rps_backend.Store.Tx.{update_rows, write_row}

pub record IsSound (g : Game) : Type 0 where
  pub state_valid : IsValid g.state
  pub waits_alone : g.state.status ≡ waiting_for_guest → g.guest_player_id ≡ 0
  pub seats_differ : NotBoth g.host_player_id g.guest_player_id

abbrev pub Sound : List Game → Type 0
Sound gs = All IsSound gs

-- No call makes a game wait for its guest again.
apply-waiting :
    (op : Op) (s : State) → (apply op s).0.status ≡ waiting_for_guest → s.status ≡ waiting_for_guest
unfolding apply join play_move rematch decline_rematch close settle
apply-waiting joins s e = ground arith
apply-waiting (plays seat m) s e = ground arith
apply-waiting (rematches seat) s e = ground arith
apply-waiting (declines seat) s e = ground arith
apply-waiting closes s e = ground arith

pub run-waiting :
    (ops : List Op) (s : State)
    → (run ops s).status ≡ waiting_for_guest
    → s.status ≡ waiting_for_guest
unfolding run
run-waiting [] s e = e
run-waiting (op ∷ ops) s e = apply-waiting op s (run-waiting ops (apply op s).0 e)

Follows-IsSound : (row g : Game) → Follows row g → IsSound row → IsSound g
Follows-IsSound row g f k =
    let (ops, there) = f.reaches in
    record {
      state_valid = subst IsValid there (run-IsValid ops k.state_valid);
      waits_alone = λ waits. elim f.seated [
        | inl same ↦
            same
            ∙ k.waits_alone (run-waiting ops row.state (ap (λ (s : State). s.status) there ∙ waits))
        | inr (_, started, _) ↦ cc
      ];
      seats_differ = λ both. elim f.seated [
        | inl same ↦ f.same_host ∙ k.seats_differ (sym f.same_host ∙ both ∙ same)
        | inr (_, _, differ) ↦ f.same_host ∙ differ (sym f.same_host ∙ both)
      ];
    }

find_game-IsSound :
    (i : ℕ) (row : Game) (gs : List Game) → find_game i gs ≡ some row → Sound gs → IsSound row
unfolding find_game
find_game-IsSound i row [] e k = cc
find_game-IsSound i row (g ∷ gs) e k = elim (Bool-cases (g.id == i)) [
  | inl here ↦ let same : g ≡ row = ground arith in subst IsSound same k.0
  | inr later ↦ find_game-IsSound i row gs (ground arith) k.1
]

write_row-IsSound : (g row : Game) → IsSound g → IsSound (write_row g row)
write_row-IsSound g row k = record {
  state_valid = k.state_valid;
  waits_alone = k.waits_alone;
  seats_differ = k.seats_differ;
}

update_rows-Sound : (g : Game) (gs : List Game) → IsSound g → Sound gs → Sound (update_rows g gs)
unfolding update_rows
update_rows-Sound g [] s k = tt
update_rows-Sound g (r ∷ rs) s k = (
  elim (Bool-cases (r.id == g.id)) [
    | inl same ↦ rw same (write_row-IsSound g r s)
    | inr differs ↦ rw differs k.0
  ],
  update_rows-Sound g rs s k.1,
)

set_null-Sound : (i : ℕ) (gs : List Game) → Sound gs → Sound (set_null i gs)
unfolding set_null
set_null-Sound i [] k = tt
set_null-Sound i (g ∷ gs) k = (
  record {
    state_valid = k.0.state_valid;
    waits_alone = λ waits. ground (arith, k.0.waits_alone waits);
    seats_differ = λ both. ground (arith, k.0.seats_differ);
  },
  set_null-Sound i gs k.1,
)

delete_game_row-Sound : (i : ℕ) (gs : List Game) → Sound gs → Sound (delete_game_row i gs)
unfolding delete_game_row
delete_game_row-Sound i [] k = tt
delete_game_row-Sound i (g ∷ gs) k = elim (Bool-cases (g.id == i)) [
  | inl same ↦ rw same (delete_game_row-Sound i gs k.1)
  | inr differs ↦ rw differs (k.0, delete_game_row-Sound i gs k.1)
]

append-Sound : (gs : List Game) (g : Game) → Sound gs → IsSound g → Sound (gs ++ g ∷ [])
append-Sound [] g k s = (s, tt)
append-Sound (q ∷ qs) g k s = (k.0, append-Sound qs g k.1 s)

new-IsSound : (g : Game) → g.state ≡ new_state → g.guest_player_id ≡ 0 → IsSound g
new-IsSound g fresh alone = record {
  state_valid = subst IsValid (sym fresh) new_state-IsValid;
  waits_alone = λ waits. alone;
  seats_differ = λ both. both ∙ alone;
}

Sound-Lasting : Lasting (λ i. Unit {0}) Sound
Sound-Lasting = record {
  overwritten = λ row g gs found f k.
      update_rows-Sound g gs (Follows-IsSound row g f (find_game-IsSound g.id row gs found k)) k;
  unseated = set_null-Sound;
  deleted = delete_game_row-Sound;
  hosted = λ g gs fresh waits alone k. append-Sound gs g k (new-IsSound g waits alone);
}

abbrev pub AnyOp : HubOp → Type 0
AnyOp op = Unit

-- Whatever connections, requests, sweeps and shutdowns come, in any order, whatever of these happens while
-- one of them waits for a lock, and whatever statement of the database fails: every game in the database
-- stays sound, if each was. Its state is valid, it has no guest while it waits for one, and no player
-- sits in both seats.
pub History-Sound :
    (f : Hub → Hub)
    → History AnyOp true f
    → (h : Hub) → Sound h.store.games
    → Sound (f h).store.games
History-Sound f past h q =
    History-games AnyOp (λ seen. Sound)
      (Now-Served (λ seen. Sound) (λ seen. Sound-Lasting) AnyOp (λ lib ch body fits. tt))
      (λ seen gs k. k) f past h q
