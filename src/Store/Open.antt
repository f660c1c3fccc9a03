-- ===== src/Store/Open.antt =====
-- `Open`, `Migrate` and `Close` of internal/store/store.go: the name of the database that the driver is
-- given, and what a file holds afterwards. `sql.Open` is a parameter: whether it takes a name.
use rps_backend.Config.Defs.{codes}
use rps_backend.Errors.{Action, Result, err, failure, ok}
use rps_backend.Prelude.{
  Bool, List, Option, [], false, if◌then◌else◌, leb, ltb, nat_eq, none, not, some, true, ℕ, ◌%◌,
  ◌&&◌, ◌++◌, ◌+◌, ◌-◌, ◌/◌, ◌==◌, ◌||◌, ◌∷◌,
}
use rps_backend.Store.Defs.{Game, Player, Text, text_eq}

-- `url.Values` with one value for each key.
abbrev pub Values : Type 0
Values = List (Text × Text)

-- `Set`, and the place of the key in the order of `Encode`, which sorts by keys.
unfoldable pub text_leb : Text → Text → Bool
text_leb [] ys = true
text_leb (x ∷ xs) [] = false
text_leb (x ∷ xs) (y ∷ ys) = if x == y then text_leb xs ys else ltb x y

unfoldable pub set : Text → Text → Values → Values
set k v [] = (k, v) ∷ []
set k v ((j, w) ∷ q) =
    let rest = set k v q in
    if j == k then (k, v) ∷ q else if text_leb k j then (k, v) ∷ (j, w) ∷ q else (j, w) ∷ rest

abbrev pub hex_digit : ℕ → ℕ
hex_digit n = if ltb n 10 then b'0' + n else b'A' + (n - 10)

abbrev pub is_unreserved : ℕ → Bool
is_unreserved c =
    leb b'a' c && leb c b'z'
    || leb b'A' c && leb c b'Z'
    || leb b'0' c && leb c b'9'
    || c == b'-'
    || c == b'_'
    || c == b'.'
    || c == b'~'

-- `url.QueryEscape`
unfoldable pub query_escape : Text → Text
query_escape [] = []
query_escape (c ∷ s) =
    let rest = query_escape s in
    if is_unreserved c
    then c ∷ rest
    else if c == b' '
    then b'+' ∷ rest
    else b'%' ∷ hex_digit (c / 16) ∷ hex_digit (c % 16) ∷ rest

unfoldable pub encode : Values → Text
unfolding query_escape
encode [] = []
encode ((k, v) ∷ []) = query_escape k ++ b'=' ∷ query_escape v
encode ((k, v) ∷ (j, w) ∷ q) =
    query_escape k ++ b'=' ∷ (query_escape v ++ b'&' ∷ encode ((j, w) ∷ q))

-- The name that `sql.Open` is given.
unfoldable pub data_source : Text → Text
unfolding set encode text_leb query_escape
data_source path =
    let q = set (codes "_txlock") (codes "immediate") (
      set (codes "_busy_timeout") (codes "5000") (
        set (codes "_foreign_keys") (codes "on") (set (codes "_journal_mode") (codes "WAL") []))) in
    codes "file:" ++ (path ++ b'?' ∷ encode q)

-- A database file: its two tables, `none` where one has not been created, and how many handles of it are
-- open.
pub record File : Type 0 where
  pub players : Option (List Player)
  pub games : Option (List Game)
  pub handles : ℕ

-- CREATE TABLE IF NOT EXISTS
abbrev pub create_if_missing {ℓ} : {A : Type ℓ} → Option (List A) → Option (List A)
create_if_missing none = some []
create_if_missing (some rows) = some rows

unfoldable pub create_players : File → File
create_players f = record f { players = create_if_missing f.players }

unfoldable pub create_games : File → File
create_games f = record f { games = create_if_missing f.games }

-- CREATE INDEX IF NOT EXISTS changes no row.
unfoldable pub create_index : File → File
create_index f = f

-- The statements of schema.sql.
unfoldable pub schema : List (File → File)
schema = create_players ∷ create_games ∷ create_index ∷ create_index ∷ []

-- `ExecContext` runs one statement after the other up to the first that fails. `faults` says which do;
-- once it is used up all succeed.
unfoldable pub execute : List (File → File) → List Bool → Action File (Unit {0})
execute [] faults f = (ok tt, f)
execute (statement ∷ rest) [] f = execute rest [] (statement f)
execute (statement ∷ rest) (true ∷ faults) f = (err failure, f)
execute (statement ∷ rest) (false ∷ faults) f = execute rest faults (statement f)

unfoldable pub migrate : List Bool → Action File (Unit {0})
unfolding execute schema
migrate faults f = execute schema faults f

unfoldable pub close_file : File → File
close_file f = record f { handles = f.handles - 1 }

abbrev pub after_migrate : Result (Unit {0}) × File → Result (Unit {0}) × File
after_migrate (ok _, f) = (ok tt, f)
after_migrate (err e, f) = (err e, close_file f)

-- `Open`
unfoldable pub open_store : (Text → Bool) → List Bool → Text → Action File (Unit {0})
unfolding migrate close_file
open_store takes faults path f =
    if not (takes (data_source path))
    then (err failure, f)
    else after_migrate (migrate faults (record f { handles = f.handles + 1 }))
