-- ===== src/Store/Adds.antt =====
-- What `CreatePlayer` leaves behind, whatever fails and whatever it draws, while nobody else writes.
use rps_backend.Errors.{
  Action, Result, err, fail, failure, not_found, ok, proto, rule, unique_violation,
  username_exhausted,
}
use rps_backend.Prelude.{
  Bool-cases, List, Option-cases, [], arith, inl, inr, ltb, none, refl, subst, suc, zero, ℕ, ◌++◌,
  ◌∙◌, ◌∷◌, ◌≡◌, ◌≤◌,
}
use rps_backend.Store.Defs.{Game, Player, Store, Text, find_player, statement_cases}
use rps_backend.Store.Players.{
  claim_free, claim_random, create_player, discriminator_retries, free_discriminator, if_scanned,
  insert_player, max_discriminator, name_taken, or_retry,
}

-- An insert of `p` into tables `ps` and `gs` has added the row, which was valid and new, or nothing.
abbrev Inserted {ℓ} : {A : Type ℓ} → Player → List Player → List Game → Result A × Store → Type 0
Inserted p ps gs (ok _, t) =
    (t.players ≡ ps ++ p ∷ [])
    × (t.games ≡ gs)
    × (find_player p.id ps ≡ none)
    × (p.discriminator ≤ max_discriminator)
Inserted p ps gs (err _, t) = (t.players ≡ ps) × (t.games ≡ gs)

insert_player-Inserted : (p : Player) (s : Store) → Inserted p s.players s.games (insert_player p s)
unfolding insert_player
insert_player-Inserted p s =
    statement_cases (Inserted p s.players s.games) _ s (λ fs. (refl, refl))
      λ fs. elim (Bool-cases (ltb max_discriminator p.discriminator)) [
        | inl large ↦ rw large (refl, refl)
        | inr small_enough ↦ elim (Option-cases (find_player p.id s.players)) [
          | inr (q, found) ↦ rw (small_enough, found) (refl, refl)
          | inl missing ↦ elim (Bool-cases (name_taken p.base_name p.discriminator s.players)) [
            | inl used ↦ rw (small_enough, missing, used) (refl, refl)
            | inr free ↦ rw (small_enough, missing, free) (refl, refl, missing, ground arith)
          ]
        ]
      ]

-- The player that is returned is `p` with the discriminator that it got, and its row was added.
abbrev pub Added : Player → List Player → List Game → Result Player × Store → Type 0
Added p ps gs (ok q, t) =
    (q ≡ record p { discriminator = q.discriminator })
    × (t.players ≡ ps ++ q ∷ [])
    × (t.games ≡ gs)
    × (find_player p.id ps ≡ none)
    × (q.discriminator ≤ max_discriminator)
Added p ps gs (err _, t) = (t.players ≡ ps) × (t.games ≡ gs)

-- An action on a database with these tables.
abbrev Adds : Player → List Player → List Game → Action Store Player → Type 0
Adds p ps gs m = (t : Store) → t.players ≡ ps → t.games ≡ gs → Added p ps gs (m t)

or_retry-Added :
    (p : Player) (d : ℕ) (ps : List Player) (gs : List Game) (retry : Action Store Player)
    (r : Result (Unit {0}) × Store)
    → Inserted (record p { discriminator = d }) ps gs r
    → Adds p ps gs retry
    → Added p ps gs (or_retry (record p { discriminator = d }) retry r)
unfolding or_retry
or_retry-Added p d ps gs retry (ok _, t) i again = (refl, i.0, i.1, i.2, i.3)
or_retry-Added p d ps gs retry (err unique_violation, t) i again = again t i.0 i.1
or_retry-Added p d ps gs retry (err (rule e), t) i again = i
or_retry-Added p d ps gs retry (err (proto e), t) i again = i
or_retry-Added p d ps gs retry (err not_found, t) i again = i
or_retry-Added p d ps gs retry (err username_exhausted, t) i again = i
or_retry-Added p d ps gs retry (err failure, t) i again = i

insert-Inserted :
    (p : Player) (ps : List Player) (gs : List Game) (t : Store)
    → t.players ≡ ps
    → t.games ≡ gs
    → Inserted p ps gs (insert_player p t)
insert-Inserted p ps gs t same_p same_g =
    subst (λ (qs : List Player). Inserted p qs gs (insert_player p t)) same_p
      (subst (λ (hs : List Game). Inserted p t.players hs (insert_player p t)) same_g
        (insert_player-Inserted p t))

-- A scan changes no table.
abbrev Scanned : List Player → List Game → Result ℕ × Store → Type 0
Scanned ps gs r = (r.1.players ≡ ps) × (r.1.games ≡ gs)

free-Scanned : (base : Text) (s : Store) → Scanned s.players s.games (free_discriminator base s)
unfolding free_discriminator
free-Scanned base s =
    statement_cases (Scanned s.players s.games) _ s (λ fs. (refl, refl)) (λ fs. (refl, refl))

if_scanned-Added :
    (p : Player) (ps : List Player) (gs : List Game) (next : ℕ → Action Store Player)
    (r : Result ℕ × Store)
    → Scanned ps gs r
    → ((d : ℕ) → Adds p ps gs (next d))
    → Added p ps gs (if_scanned next r)
unfolding if_scanned
if_scanned-Added p ps gs next (ok d, t) i after = after d t i.0 i.1
if_scanned-Added p ps gs next (err e, t) i after = i

claim_free-Adds : (p : Player) (ps : List Player) (gs : List Game) → Adds p ps gs (claim_free [] p)
unfolding claim_free
claim_free-Adds p ps gs t same_p same_g =
    if_scanned-Added p ps gs _ (free_discriminator p.base_name t)
      ((free-Scanned p.base_name t).0 ∙ same_p, (free-Scanned p.base_name t).1 ∙ same_g)
      λ d u p_same g_same.
        or_retry-Added p d ps gs (fail unique_violation) _
          (insert-Inserted (record p { discriminator = d }) ps gs u p_same g_same)
          (λ v v_p v_g. (v_p, v_g))

claim_random-Adds :
    (n : ℕ) (draws : ℕ → ℕ) (p : Player) (ps : List Player) (gs : List Game)
    → Adds p ps gs (claim_random n draws [] p)
unfolding claim_random
claim_random-Adds zero draws p ps gs t same_p same_g = claim_free-Adds p ps gs t same_p same_g
claim_random-Adds (suc n) draws p ps gs t same_p same_g =
    or_retry-Added p (draws n) ps gs (claim_random n draws [] p) _
      (insert-Inserted (record p { discriminator = draws n }) ps gs t same_p same_g)
      (claim_random-Adds n draws p ps gs)

pub create_player-Added :
    (s : Store) (uuid : ℕ) (draws : ℕ → ℕ) (base_name secret_hash : Text) (now : ℕ)
    → Added
        (record {
          id = uuid;
          base_name = base_name;
          discriminator = 0;
          secret_hash = secret_hash;
          last_active_at = now;
        })
        s.players
        s.games
        (create_player uuid draws [] base_name secret_hash now s)
unfolding create_player
create_player-Added s uuid draws base_name secret_hash now =
    claim_random-Adds discriminator_retries draws _ s.players s.games s refl refl
