-- ===== src/Strings/Split.antt =====
-- `strings.Split` at one byte.
use rps_backend.Prelude.{
  All, Bool-cases, List, [], ap, arith, contains, false, if◌then◌else◌, inl, inr, nat_eq, refl, ℕ,
  ◌++◌, ◌==◌, ◌∙◌, ◌∷◌, ◌≡◌,
}
use rps_backend.Store.Defs.{Text, text_eq}

abbrev pub add_first : ℕ → List Text → List Text
add_first a [] = (a ∷ []) ∷ []
add_first a (t ∷ ts) = (a ∷ t) ∷ ts

unfoldable pub split : ℕ → Text → List Text
split sep [] = [] ∷ []
split sep (a ∷ xs) = let rest = split sep xs in if a == sep then [] ∷ rest else add_first a rest

abbrev pub join_texts : ℕ → List Text → Text
join_texts sep [] = []
join_texts sep (t ∷ []) = t
join_texts sep (t ∷ u ∷ ts) = t ++ sep ∷ join_texts sep (u ∷ ts)

split-whole : (sep : ℕ) (t : Text) → contains sep t ≡ false → split sep t ≡ t ∷ []
unfolding split
split-whole sep [] free = refl
split-whole sep (a ∷ xs) free = ground (arith, split-whole sep xs)

pub split-append :
    (sep : ℕ) (t rest : Text)
    → contains sep t ≡ false
    → split sep (t ++ sep ∷ rest) ≡ t ∷ split sep rest
unfolding split
split-append sep [] rest free = ground arith
split-append sep (a ∷ xs) rest free = ground (arith, split-append sep xs rest)

-- Texts without the separator, joined by it, are what `split` gives back.
pub split-join_texts :
    (sep : ℕ) (t : Text) (ts : List Text)
    → All (λ u. contains sep u ≡ false) (t ∷ ts)
    → split sep (join_texts sep (t ∷ ts)) ≡ t ∷ ts
split-join_texts sep t [] free = split-whole sep t free.0
split-join_texts sep t (u ∷ ts) free =
    split-append sep t (join_texts sep (u ∷ ts)) free.0
    ∙ ap (◌∷◌ t) (split-join_texts sep u ts free.1)

add_first-free :
    (sep a : ℕ) (ts : List Text)
    → (a == sep) ≡ false
    → All (λ u. contains sep u ≡ false) ts
    → All (λ u. contains sep u ≡ false) (add_first a ts)
add_first-free sep a [] differs free = (ground arith, tt)
add_first-free sep a (t ∷ ts) differs free = (ground (arith, free.0), free.1)

-- No part holds the separator.
pub split-free : (sep : ℕ) (t : Text) → All (λ u. contains sep u ≡ false) (split sep t)
unfolding split
split-free sep [] = (refl, tt)
split-free sep (a ∷ xs) = elim (Bool-cases (a == sep)) [
  | inl same ↦ rw same (refl, split-free sep xs)
  | inr differs ↦ rw differs (add_first-free sep a (split sep xs) differs (split-free sep xs))
]
