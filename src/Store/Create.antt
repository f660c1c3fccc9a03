-- ===== src/Store/Create.antt =====
-- `CreatePlayer` as a whole: both loops end, and the new row is one that the table can take.
use rps_backend.Errors.{Result, err, ok, unique_violation}
use rps_backend.Prelude.{
  Bool-cases, [], arith, false, inl, inr, none, suc, true, zero, ℕ, ◌++◌, ◌∷◌, ◌≡◌, ◌≤◌,
}
use rps_backend.Store.Defs.{Player, Store, Text, find_player, statement_clear}
use rps_backend.Store.Free.{UniqueNames, free_discriminator_finds}
use rps_backend.Store.Players.{
  claim_free, claim_random, create_player, discriminator_retries, if_scanned, insert_player,
  max_discriminator, name_taken, or_retry,
}

-- Where the new player stands in the table after a successful call.
abbrev pub with_player : Store → Player → Store
with_player s p = record s { players = s.players ++ p ∷ [] }

-- The outcome promised for a player that is inserted under some free discriminator.
abbrev pub Created : Store → Player → Result Player × Store → Type 0
Created s p r =
    (d : ℕ) × (d ≤ max_discriminator)
    × (name_taken p.base_name d s.players ≡ false)
    × (r ≡ (ok (record p { discriminator = d }), with_player s (record p { discriminator = d })))

module _ (s : Store) (p : Player) (clear : s.faults ≡ [])
    (fresh : find_player p.id s.players ≡ none) where
  insert_free :
      (d : ℕ)
      → d ≤ max_discriminator
      → name_taken p.base_name d s.players ≡ false
      → insert_player (record p { discriminator = d }) s
        ≡ (ok tt, with_player s (record p { discriminator = d }))
  unfolding insert_player
  insert_free d h f = rw (statement_clear _ s clear) (ground arith)

  insert_taken :
      (d : ℕ)
      → d ≤ max_discriminator
      → name_taken p.base_name d s.players ≡ true
      → insert_player (record p { discriminator = d }) s ≡ (err unique_violation, s)
  unfolding insert_player
  insert_taken d h f = rw (statement_clear _ s clear) (ground arith)

  claim_free-Created :
      UniqueNames s.players
      → (k : ℕ) → k ≤ max_discriminator
      → name_taken p.base_name k s.players ≡ false
      → Created s p (claim_free [] p s)
  unfolding claim_free if_scanned or_retry
  claim_free-Created u k h f =
      let (d, small, free, found) = free_discriminator_finds p.base_name s k u clear h f in
      (d, small, free, rw (found, if_scanned, insert_free d small free))

  claim_random-Created :
      UniqueNames s.players
      → (k : ℕ) → k ≤ max_discriminator
      → name_taken p.base_name k s.players ≡ false
      → (draws : ℕ → ℕ) → ((n : ℕ) → draws n ≤ max_discriminator)
      → (n : ℕ) → Created s p (claim_random n draws [] p s)
  unfolding claim_random or_retry
  claim_random-Created u k h f draws range zero = claim_free-Created u k h f
  claim_random-Created u k h f draws range (suc n) =
      elim (Bool-cases (name_taken p.base_name (draws n) s.players)) [
        | inl used ↦
            rw (insert_taken (draws n) (range n) used, or_retry)
              (claim_random-Created u k h f draws range n)
        | inr free ↦ (draws n, range n, free, rw (insert_free (draws n) (range n) free, or_retry))
      ]

-- On a database that does not fail, with a new id, and while nobody else writes to it, creating a
-- player succeeds as long as one of the name's 10,000 discriminators is free: the row added has a
-- discriminator of at most 9999 that the name did not use, whatever the random source draws.
pub create_player-Created :
    (s : Store) (uuid : ℕ) (draws : ℕ → ℕ) (base_name secret_hash : Text) (now k : ℕ)
    → s.faults ≡ []
    → find_player uuid s.players ≡ none
    → UniqueNames s.players
    → ((n : ℕ) → draws n ≤ max_discriminator)
    → k ≤ max_discriminator
    → name_taken base_name k s.players ≡ false
    → Created s
        (record {
          id = uuid;
          base_name = base_name;
          discriminator = 0;
          secret_hash = secret_hash;
          last_active_at = now;
        })
        (create_player uuid draws [] base_name secret_hash now s)
unfolding create_player
create_player-Created s uuid draws base_name secret_hash now k clear fresh u range h f =
    claim_random-Created s _ clear fresh u k h f draws range discriminator_retries
