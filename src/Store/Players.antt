-- ===== src/Store/Players.antt =====
-- internal/store/store.go: `CreatePlayer` and `freeDiscriminator`.
use rps_backend.Errors.{
  Action, Result, err, fail, failure, ok, unique_violation, username_exhausted,
}
use rps_backend.Prelude.{
  Bool, List, [], false, if◌then◌else◌, leb, ltb, nat_eq, none, some, suc, zero, ℕ, ◌&&◌, ◌++◌, ◌+◌,
  ◌==◌, ◌||◌, ◌∷◌,
}
use rps_backend.Store.Defs.{Player, Store, Text, find_player, statement, text_beq, text_eq}

abbrev pub max_discriminator : ℕ
max_discriminator = 9999

abbrev pub discriminator_retries : ℕ
discriminator_retries = 20

unfoldable pub name_taken : Text → ℕ → List Player → Bool
name_taken base d [] = false
name_taken base d (p ∷ ps) =
    (text_beq p.base_name base && p.discriminator == d) || name_taken base d ps

-- INSERT under the CHECK, the primary key and UNIQUE (base_name, discriminator), in this order.
unfoldable pub insert_player : Player → Action Store (Unit {0})
insert_player p = statement λ s.
    if ltb max_discriminator p.discriminator
    then (err failure, s)
    else elim (find_player p.id s.players) [
      | some _ ↦ (err failure, s)
      | none ↦
          if name_taken p.base_name p.discriminator s.players
          then (err unique_violation, s)
          else (ok tt, record s { players = s.players ++ p ∷ [] })
    ]

-- SELECT discriminator … ORDER BY discriminator
unfoldable pub insert_sorted : ℕ → List ℕ → List ℕ
insert_sorted d [] = d ∷ []
insert_sorted d (e ∷ es) = if leb d e then d ∷ e ∷ es else e ∷ insert_sorted d es

unfoldable pub taken : Text → List Player → List ℕ
taken base [] = []
taken base (p ∷ ps) =
    let rest = taken base ps in
    if text_beq p.base_name base then insert_sorted p.discriminator rest else rest

-- The loop over the rows.
unfoldable pub scan : ℕ → List ℕ → ℕ
scan next [] = next
scan next (d ∷ ds) = let rest = scan (d + 1) ds in if ltb next d then next else rest

unfoldable pub free_discriminator : Text → Action Store ℕ
free_discriminator base = statement λ s.
    let next = scan 0 (taken base s.players) in
    (if ltb max_discriminator next then err username_exhausted else ok next, s)

-- What follows an insert of `p`: a lost race goes on by `retry`.
unfoldable pub or_retry :
    Player → Action Store Player → Result (Unit {0}) × Store → Result Player × Store
or_retry p retry (ok _, t) = (ok p, t)
or_retry p retry (err unique_violation, t) = retry t
or_retry p retry (err e, t) = (err e, t)

unfoldable pub if_scanned : (ℕ → Action Store Player) → Result ℕ × Store → Result Player × Store
if_scanned next (ok d, t) = next d t
if_scanned next (err e, t) = (err e, t)

-- The fallback loop. `races` is what other requests do to the database between the scan and the
-- insert, one entry a round; when it is used up nobody interferes any more, so the insert cannot
-- meet the discriminator that the scan found free.
unfoldable pub claim_free : List (Store → Store) → Player → Action Store Player
claim_free [] p s =
    if_scanned
      (λ d t.
        let q = record p { discriminator = d } in
        or_retry q (fail unique_violation) (insert_player q t))
      (free_discriminator p.base_name s)
claim_free (race ∷ races) p s =
    if_scanned
      (λ d t.
        let q = record p { discriminator = d } in
        or_retry q (claim_free races p) (insert_player q (race t)))
      (free_discriminator p.base_name s)

-- The first loop, with `n` rounds left: `draws n` is what the random source gives in this round.
unfoldable pub claim_random : ℕ → (ℕ → ℕ) → List (Store → Store) → Player → Action Store Player
claim_random zero draws races p s = claim_free races p s
claim_random (suc n) draws races p s =
    let q = record p { discriminator = draws n } in
    or_retry q (claim_random n draws races p) (insert_player q s)

unfoldable pub create_player :
    ℕ → (ℕ → ℕ) → List (Store → Store) → Text → Text → ℕ → Action Store Player
create_player uuid draws races base_name secret_hash now =
    claim_random discriminator_retries draws races (record {
      id = uuid;
      base_name = base_name;
      discriminator = 0;
      secret_hash = secret_hash;
      last_active_at = now;
    })
