-- ===== src/Errors.antt =====
-- The `error` values of internal/store and internal/hub, and the actions that return them: a method
-- on shared state gives its result, or an error, and the state that it leaves behind.
use rps_backend.Prelude.{ap, ◌≡◌}
use rps_backend.Rules.Defs.{RuleError}

-- The errors of internal/hub/actions.go; each is a `*rules.Error` there.
pub data ProtoError : Type 0 where
  bad_payload not_authenticated already_authenticated invalid_credentials : ProtoError
  invalid_game_creds game_full not_in_game : ProtoError

pub data Error : Type 0 where
  rule : RuleError → Error
  proto : ProtoError → Error
  not_found username_exhausted : Error
  -- What the database driver returns: a UNIQUE constraint, or any other failure.
  unique_violation failure : Error

pub data Result {ℓ} (A : Type ℓ) : Type ℓ where
  ok : A → Result A
  err : Error → Result A

abbrev pub Action {ℓ κ} : Type ℓ → Type κ → Type (ℓ ⊔ κ)
Action S A = S → Result A × S

module _ {ℓ κ} {S : Type ℓ} {A : Type κ} where
  abbrev pub pure : A → Action S A
  pure a s = (ok a, s)

  abbrev pub fail : Error → Action S A
  fail e s = (err e, s)

infixl 5 ◌>>=◌ ◌>>◌
unfoldable pub ◌>>=◌ {ℓ κ μ} :
    {S : Type ℓ} {A : Type κ} {B : Type μ} → Action S A → (A → Action S B) → Action S B
◌>>=◌ m f s = let (r, t) = m s in elim r [ ok a ↦ f a t | err e ↦ (err e, t) ]

abbrev pub ◌>>◌ {ℓ κ} : {S : Type ℓ} {B : Type κ} → Action S (Unit {0}) → Action S B → Action S B
m >> k = m >>= λ _. k

-- `if errors.Is(err, ErrNotFound) { return e }`
abbrev pub unless_not_found : Error → Error → Error
unless_not_found e not_found = e
unless_not_found e d = d

unfoldable pub if_not_found {ℓ κ} : {S : Type ℓ} {A : Type κ} → Error → Action S A → Action S A
if_not_found e m s =
    let (r, t) = m s in elim r [ ok a ↦ (ok a, t) | err d ↦ (err (unless_not_found e d), t) ]

-- A first part that succeeds hands its value and state on.
pub >>=-ok {ℓ κ μ} :
    {S : Type ℓ} {A : Type κ} {B : Type μ} (m : Action S A) (f : A → Action S B) (s : S) (a : A)
    (t : S)
    → m s ≡ (ok a, t)
    → (m >>= f) s ≡ f a t
unfolding ◌>>=◌
>>=-ok {S} {A} {B} m f s a t e =
    ap
      (λ (r : Result A × S). elim r.0 as (λ _. Result B × S) [
        | ok b ↦ f b r.1
        | err d ↦ (err d, r.1)
      ])
      e

pub if_not_found-ok {ℓ κ} :
    {S : Type ℓ} {A : Type κ} (d : Error) (m : Action S A) (s : S) (a : A) (t : S)
    → m s ≡ (ok a, t)
    → if_not_found d m s ≡ (ok a, t)
unfolding if_not_found
if_not_found-ok {S} {A} d m s a t e =
    ap
      (λ (r : Result A × S). elim r.0 as (λ _. Result A × S) [
        | ok b ↦ (ok b, r.1)
        | err x ↦ (err (unless_not_found d x), r.1)
      ])
      e
