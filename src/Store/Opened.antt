-- ===== src/Store/Opened.antt =====
-- What `Open` of internal/store/store.go leaves of a database file, and the options that it names.
use rps_backend.Config.Defs.{codes}
use rps_backend.Errors.{Result, err, ok}
use rps_backend.Prelude.{
  All, Bool, Bool-cases, subst, List, Option, [], arith, false, if◌then◌else◌, inl, inr, nat_eq,
  none, refl, some, true, ◌++◌, ◌+◌, ◌==◌, ◌||◌, ◌∙◌, ◌∷◌, ◌≡◌, ◌⊎◌,
}
use rps_backend.Store.Defs.{Text, text_eq}
use rps_backend.Store.Open.{
  File, after_migrate, close_file, create_games, create_if_missing, create_index, create_players,
  data_source, execute, migrate, open_store, schema,
}

-- The part of a name from its first question mark on, where a driver looks for its options.
unfoldable pub query_of : Text → Text
query_of [] = []
query_of (c ∷ s) = let rest = query_of s in if c == b'?' then s else rest

abbrev pub has_mark : Text → Bool
has_mark [] = false
has_mark (c ∷ s) = c == b'?' || has_mark s

query_of-append :
    (path options : Text) → has_mark path ≡ false → query_of (path ++ b'?' ∷ options) ≡ options
unfolding query_of
query_of-append [] options none_there = refl
query_of-append (c ∷ path) options none_there = ground (arith, query_of-append path options)

-- The driver finds all four options in the name, where the path has no question mark itself.
query_of-data_source :
    (path : Text)
    → has_mark path ≡ false
    → query_of (data_source path)
      ≡ codes "_busy_timeout=5000&_foreign_keys=on&_journal_mode=WAL&_txlock=immediate"
unfolding data_source query_of
query_of-data_source path none_there = query_of-append path _ none_there

-- The rows of a table that may not have been created.
abbrev pub rows_of {ℓ} : {A : Type ℓ} → Option (List A) → List A
rows_of none = []
rows_of (some rows) = rows

-- Whether one of the statements fails.
unfoldable pub some_fails : List (File → File) → List Bool → Bool
some_fails [] faults = false
some_fails (statement ∷ rest) [] = false
some_fails (statement ∷ rest) (fault ∷ faults) = fault || some_fails rest faults

-- The rows are the same, a table may have been created.
pub record KeepsRows (f g : File) : Type 0 where
  pub players_kept : rows_of g.players ≡ rows_of f.players
  pub games_kept : rows_of g.games ≡ rows_of f.games
  pub handles_kept : g.handles ≡ f.handles

abbrev pub Opens : (Text → Bool) → List Bool → Text → File → Result (Unit {0}) × File → Type 0
Opens takes faults path f (ok _, g) =
    (g.players ≡ some (rows_of f.players))
    × (g.games ≡ some (rows_of f.games))
    × (g.handles ≡ f.handles + 1)
Opens takes faults path f (err _, g) =
    KeepsRows f g × ((takes (data_source path) ≡ false) ⊎ (some_fails schema faults ≡ true))

KeepsRows-self : (f : File) → KeepsRows f f
KeepsRows-self f = record { players_kept = refl; games_kept = refl; handles_kept = refl }

KeepsRows-trans : (f g h : File) → KeepsRows f g → KeepsRows g h → KeepsRows f h
KeepsRows-trans f g h a b = record {
  players_kept = b.players_kept ∙ a.players_kept;
  games_kept = b.games_kept ∙ a.games_kept;
  handles_kept = b.handles_kept ∙ a.handles_kept;
}

abbrev Harmless : (File → File) → Type 0
Harmless statement = (f : File) → KeepsRows f (statement f)

create_if_missing-rows {ℓ} :
    {A : Type ℓ} (t : Option (List A)) → create_if_missing t ≡ some (rows_of t)
create_if_missing-rows none = refl
create_if_missing-rows (some rows) = refl

create_players-Harmless : Harmless create_players
unfolding create_players
create_players-Harmless f = record {
  players_kept = rw (create_if_missing-rows f.players) refl;
  games_kept = refl;
  handles_kept = refl;
}

create_games-Harmless : Harmless create_games
unfolding create_games
create_games-Harmless f = record {
  players_kept = refl;
  games_kept = rw (create_if_missing-rows f.games) refl;
  handles_kept = refl;
}

create_index-Harmless : Harmless create_index
unfolding create_index
create_index-Harmless f = KeepsRows-self f

schema-Harmless : All Harmless schema
unfolding schema
schema-Harmless = (
  create_players-Harmless,
  (create_games-Harmless, (create_index-Harmless, (create_index-Harmless, tt))),
)

some_fails-none : (ss : List (File → File)) → some_fails ss [] ≡ false
unfolding some_fails
some_fails-none [] = refl
some_fails-none (s ∷ ss) = refl

-- All statements, one after the other.
unfoldable all_run : List (File → File) → File → File
all_run [] f = f
all_run (statement ∷ rest) f = all_run rest (statement f)

abbrev Executes : List (File → File) → List Bool → File → Result (Unit {0}) × File → Type 0
Executes ss faults f (ok _, g) = all_run ss f ≡ g
Executes ss faults f (err _, g) = KeepsRows f g × (some_fails ss faults ≡ true)

-- One more statement before.
Executes-step :
    (statement : File → File) (ss : List (File → File)) (faults more : List Bool) (f : File)
    (r : Result (Unit {0}) × File)
    → Harmless statement
    → (some_fails ss faults ≡ true → some_fails (statement ∷ ss) more ≡ true)
    → Executes ss faults (statement f) r
    → Executes (statement ∷ ss) more f r
unfolding all_run
Executes-step statement ss faults more f (ok _, g) harmless fails e = e
Executes-step statement ss faults more f (err _, g) harmless fails (kept, failed) =
    (KeepsRows-trans f (statement f) g (harmless f) kept, fails failed)

execute-Executes :
    (ss : List (File → File)) (faults : List Bool) (f : File)
    → All Harmless ss
    → Executes ss faults f (execute ss faults f)
unfolding execute some_fails all_run
execute-Executes [] faults f all = refl
execute-Executes (s ∷ ss) [] f all =
    Executes-step s ss [] [] f _ all.0
      (λ failed. absurd (let none_fails = some_fails-none ss in cc))
      (execute-Executes ss [] (s f) all.1)
execute-Executes (s ∷ ss) (true ∷ faults) f all = (KeepsRows-self f, refl)
execute-Executes (s ∷ ss) (false ∷ faults) f all =
    Executes-step s ss faults (false ∷ faults) f _ all.0 (λ failed. failed)
      (execute-Executes ss faults (s f) all.1)

after_migrate-Opens :
    (takes : Text → Bool) (faults : List Bool) (path : Text) (f : File)
    (r : Result (Unit {0}) × File)
    → Executes schema faults (record f { handles = f.handles + 1 }) r
    → Opens takes faults path f (after_migrate r)
unfolding all_run schema create_players create_games create_index close_file
after_migrate-Opens takes faults path f (ok _, g) e =
    subst (λ (j : File). Opens takes faults path f (ok tt, j)) e
      (create_if_missing-rows f.players, create_if_missing-rows f.games, refl)
after_migrate-Opens takes faults path f (err _, g) (kept, failed) = (
  record {
    players_kept = kept.players_kept;
    games_kept = kept.games_kept;
    handles_kept = omega (arith, kept.handles_kept);
  },
  inr failed,
)

-- `Open` either returns a store, and then both tables are there with the rows that they had and one more
-- handle is open; or it returns an error, which it does only where the driver does not take the name or
-- a statement of the schema fails, and then every row is as before and no handle is left open.
pub open_store-Opens :
    (takes : Text → Bool) (faults : List Bool) (path : Text) (f : File)
    → Opens takes faults path f (open_store takes faults path f)
unfolding open_store migrate
open_store-Opens takes faults path f = elim (Bool-cases (takes (data_source path))) [
  | inr refused ↦ rw refused (KeepsRows-self f, inl refused)
  | inl taken ↦ rw taken (
      after_migrate-Opens takes faults path f _
        (execute-Executes schema faults (record f { handles = f.handles + 1 }) schema-Harmless))
]
