-- ===== src/Store/Defs.antt =====
-- internal/store/store.go and schema.sql: the rows, and each SQL statement as a function on the two
-- tables. An id is a number, and 0 is the empty string or NULL. An instant is a number; Store/Columns has
-- the texts of instants that the columns hold.
use rps_backend.Errors.{Action, Result, err, failure, not_found, ok}
use rps_backend.Prelude.{
  Bool, Eq, List, Option, [], ap, arith, false, if◌then◌else◌, ltb, nat_beq, nat_eq, none, not,
  refl, some, true, ℕ, ◌%◌, ◌&&◌, ◌++◌, ◌+◌, ◌/◌, ◌==◌, ◌||◌, ◌∷◌, ◌≡◌,
}
use rps_backend.Rules.Defs.{Seat, State, closed, guest, host, move_eq, seat_eq, status_eq}

-- A text is its bytes.
abbrev pub Text : Type 0
Text = List ℕ

abbrev pub text_beq : Text → Text → Bool
text_beq [] [] = true
text_beq (x ∷ xs) (y ∷ ys) = nat_beq x y && text_beq xs ys
text_beq _ _ = false

instance abbrev pub text_eq : Eq Text
text_eq = record { beq = text_beq }

pub text_beq_refl : (t : Text) → text_beq t t ≡ true
text_beq_refl [] = refl
text_beq_refl (x ∷ xs) = ground (arith, text_beq_refl xs)

pub record Player : Type 0 where
  pub id : ℕ
  pub base_name : Text
  pub discriminator : ℕ
  pub secret_hash : Text
  pub last_active_at : ℕ

pub record Game : Type 0 where
  pub id : ℕ
  pub secret_hash : Text
  pub host_player_id : ℕ
  pub guest_player_id : ℕ
  pub state : State
  pub last_active_at : ℕ

-- `fmt.Sprintf("%s#%04d", …)` at a discriminator of at most four digits.
unfoldable pub display_name : Player → Text
display_name p =
    let d = p.discriminator in
    p.base_name
    ++ b'#'
      ∷ (b'0' + d / 1000)
      ∷ (b'0' + d / 100 % 10)
      ∷ (b'0' + d / 10 % 10)
      ∷ (b'0' + d % 10)
      ∷ []

unfoldable pub seat_of : Game → ℕ → Option Seat
seat_of g player_id =
    if player_id == 0
    then none
    else if g.host_player_id == player_id
    then some host
    else if g.guest_player_id == player_id
    then some guest
    else none

unfoldable pub player_id_of : Game → Seat → ℕ
player_id_of g seat = if seat == host then g.host_player_id else g.guest_player_id

-- The database. `faults` says which of the statements to come fail for a reason of the
-- database's own (`true`); once it is used up all succeed.
pub record Store : Type 0 where
  pub players : List Player
  pub games : List Game
  pub faults : List Bool

statement_on {ℓ} : {A : Type ℓ} → List Bool → Action Store A → Action Store A
statement_on [] m s = m s
statement_on (true ∷ rest) m s = (err failure, record s { faults = rest })
statement_on (false ∷ rest) m s = m (record s { faults = rest })

unfoldable pub statement {ℓ} : {A : Type ℓ} → Action Store A → Action Store A
unfolding statement_on
statement m s = statement_on s.faults m s

pub statement_clear {ℓ} :
    {A : Type ℓ} (m : Action Store A) (s : Store) → s.faults ≡ [] → statement m s ≡ m s
unfolding statement
statement_clear m s f = ap (λ fs. statement_on fs m s) f

-- To prove something of a statement: it holds if the statement fails, and of what the statement does
-- once the tables are what they were.
pub statement_cases {ℓ κ} :
    {A : Type ℓ} (P : Result A × Store → Type κ) (m : Action Store A) (s : Store)
    → ((fs : List Bool) → P (err failure, record s { faults = fs }))
    → ((fs : List Bool) → P (m (record s { faults = fs })))
    → P (statement m s)
unfolding statement
statement_cases P m s failed done = go s.faults failed done
  where
    go :
        (fs : List Bool)
        → ((fs : List Bool) → P (err failure, record s { faults = fs }))
        → ((fs : List Bool) → P (m (record s { faults = fs })))
        → P (statement_on fs m (record s { faults = fs }))
    go [] failed done = done []
    go (true ∷ rest) failed done = failed rest
    go (false ∷ rest) failed done = done rest

unfoldable pub find_player : ℕ → List Player → Option Player
find_player i [] = none
find_player i (p ∷ ps) = if p.id == i then some p else find_player i ps

unfoldable pub find_game : ℕ → List Game → Option Game
find_game i [] = none
find_game i (g ∷ gs) = if g.id == i then some g else find_game i gs

-- `sql.ErrNoRows` becomes `ErrNotFound`.
abbrev pub or_not_found {ℓ} : {A : Type ℓ} → Option A → Result A
or_not_found none = err not_found
or_not_found (some a) = ok a

unfoldable pub get_player : ℕ → Action Store Player
get_player i = statement λ s. (or_not_found (find_player i s.players), s)

unfoldable pub get_game : ℕ → Action Store Game
get_game i = statement λ s. (or_not_found (find_game i s.games), s)

unfoldable pub touch_rows : ℕ → ℕ → List Player → List Player
touch_rows i now [] = []
touch_rows i now (p ∷ ps) =
    (if p.id == i then record p { last_active_at = now } else p) ∷ touch_rows i now ps

unfoldable pub touch_player : ℕ → ℕ → Action Store (Unit {0})
touch_player i now = statement λ s. (ok tt, record s { players = touch_rows i now s.players })

unfoldable pub stale_players : ℕ → List Player → List ℕ
stale_players cutoff [] = []
stale_players cutoff (p ∷ ps) =
    let rest = stale_players cutoff ps in if ltb p.last_active_at cutoff then p.id ∷ rest else rest

unfoldable pub stale_games : ℕ → List Game → List ℕ
stale_games cutoff [] = []
stale_games cutoff (g ∷ gs) =
    let rest = stale_games cutoff gs in if ltb g.last_active_at cutoff then g.id ∷ rest else rest

abbrev pub is_open_for : ℕ → Game → Bool
is_open_for i g =
    not (g.state.status == closed) && (g.host_player_id == i || g.guest_player_id == i)

unfoldable pub open_games : ℕ → List Game → List ℕ
open_games i [] = []
open_games i (g ∷ gs) = let rest = open_games i gs in if is_open_for i g then g.id ∷ rest else rest

unfoldable pub expired_player_ids : ℕ → Action Store (List ℕ)
expired_player_ids cutoff = statement λ s. (ok (stale_players cutoff s.players), s)

unfoldable pub expired_game_ids : ℕ → Action Store (List ℕ)
expired_game_ids cutoff = statement λ s. (ok (stale_games cutoff s.games), s)

unfoldable pub open_game_ids_for_player : ℕ → Action Store (List ℕ)
open_game_ids_for_player i = statement λ s. (ok (open_games i s.games), s)

unfoldable pub delete_player_row : ℕ → List Player → List Player
delete_player_row i [] = []
delete_player_row i (p ∷ ps) =
    let rest = delete_player_row i ps in if p.id == i then rest else p ∷ rest

-- ON DELETE SET NULL on both foreign keys.
abbrev pub null_if : ℕ → ℕ → ℕ
null_if i j = if j == i then 0 else j

unfoldable pub set_null : ℕ → List Game → List Game
set_null i [] = []
set_null i (g ∷ gs) =
    record g {
      host_player_id = null_if i g.host_player_id;
      guest_player_id = null_if i g.guest_player_id;
    }
    ∷ set_null i gs

unfoldable pub delete_player : ℕ → Action Store (Unit {0})
delete_player i =
    statement
      λ s. (ok tt, record s { players = delete_player_row i s.players; games = set_null i s.games })

unfoldable pub delete_game_row : ℕ → List Game → List Game
delete_game_row i [] = []
delete_game_row i (g ∷ gs) = let rest = delete_game_row i gs in if g.id == i then rest else g ∷ rest

unfoldable pub delete_game : ℕ → Action Store (Unit {0})
delete_game i = statement λ s. (ok tt, record s { games = delete_game_row i s.games })
