-- ===== src/Config/Origins.antt =====
-- `ParseOrigins` of internal/config/config.go, and its laws.
use rps_backend.Prelude.{
  All, Bool-cases, List, [], ap, contains, false, if◌then◌else◌, inl, inr, nat_eq, not, refl,
  reverse, ℕ, ◌==◌, ◌∙◌, ◌∷◌, ◌≡◌,
}
use rps_backend.Store.Defs.{Text, text_eq}
use rps_backend.Strings.Split.{join_texts, split, split-free, split-join_texts}
use rps_backend.Strings.Trim.{
  back_width, front_width, starts_with, trim_right, trim_right-free, trim_right-none,
  trim_right-stops, trim_space, trim_space-free, trim_space-none,
}

abbrev pub comma : ℕ
comma = b','

abbrev pub slash : ℕ
slash = b'/'

abbrev pub clean : Text → Text
clean o = trim_right slash (trim_space o)

unfoldable pub clean_all : List Text → List Text
clean_all [] = []
clean_all (o ∷ os) = let rest = clean_all os in if not (clean o == []) then clean o ∷ rest else rest

unfoldable pub parse_origins : Text → List Text
unfolding clean_all
parse_origins t = clean_all (split comma t)

pub record IsOrigin (o : Text) : Type 0 where
  pub not_empty : (o == []) ≡ false
  pub no_comma : contains comma o ≡ false
  pub no_slash : starts_with slash (reverse o) ≡ false

clean_all-IsOrigin :
    (os : List Text) → All (λ o. contains comma o ≡ false) os → All IsOrigin (clean_all os)
unfolding clean_all
clean_all-IsOrigin [] free = tt
clean_all-IsOrigin (o ∷ os) free = elim (Bool-cases (clean o == [])) [
  | inl blank ↦ rw blank (clean_all-IsOrigin os free.1)
  | inr solid ↦ rw solid (
    record {
      not_empty = solid;
      no_comma = trim_right-free comma slash (trim_space o) (trim_space-free comma o free.0);
      no_slash = trim_right-stops slash (trim_space o);
    },
    clean_all-IsOrigin os free.1,
  )
]

-- Every origin that is read is not empty, holds no comma and does not end with a slash.
pub parse_origins-IsOrigin : (t : Text) → All IsOrigin (parse_origins t)
unfolding parse_origins
parse_origins-IsOrigin t = clean_all-IsOrigin (split comma t) (split-free comma t)

pub parse_origins-nil : parse_origins [] ≡ []
unfolding parse_origins clean_all split trim_space trim_right
parse_origins-nil = refl

-- An origin with no white space at either end.
pub record IsTrim (o : Text) : Type 0 where
  pub is_origin : IsOrigin o
  pub front : front_width o ≡ 0
  pub back : back_width (reverse o) ≡ 0

clean-IsTrim : (o : Text) → IsTrim o → clean o ≡ o
clean-IsTrim o k =
    ap (λ (u : Text). trim_right slash u) (trim_space-none o k.front k.back)
    ∙ trim_right-none slash o k.is_origin.no_slash

clean_all-IsTrim : (os : List Text) → All IsTrim os → clean_all os ≡ os
unfolding clean_all
clean_all-IsTrim [] all = refl
clean_all-IsTrim (o ∷ os) all =
    rw (clean-IsTrim o all.0, all.0.is_origin.not_empty) (ap (◌∷◌ o) (clean_all-IsTrim os all.1))

trims-free : (os : List Text) → All IsTrim os → All (λ o. contains comma o ≡ false) os
trims-free [] all = tt
trims-free (o ∷ os) all = (all.0.is_origin.no_comma, trims-free os all.1)

-- Origins with no comma in them, no white space around them and no slash at their end, joined by
-- commas, are read back as they were.
pub parse_origins-join_texts :
    (o : Text) (os : List Text)
    → All IsTrim (o ∷ os)
    → parse_origins (join_texts comma (o ∷ os)) ≡ o ∷ os
unfolding parse_origins
parse_origins-join_texts o os all =
    ap clean_all (split-join_texts comma o os (trims-free (o ∷ os) all))
    ∙ clean_all-IsTrim (o ∷ os) all
