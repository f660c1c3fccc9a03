-- ===== src/Strings/Trim.antt =====
-- `strings.TrimSpace` and `strings.TrimRight`. A white space character of Unicode is one, two or three
-- bytes in UTF-8; a text that is not UTF-8 has it where these bytes stand as well.
use rps_backend.Prelude.{
  Bool, [], ap, arith, contains, false, if◌then◌else◌, leb, nat_eq, refl, reverse, reverse-append,
  reverse-reverse, suc, zero, ℕ, ◌&&◌, ◌++◌, ◌==◌, ◌||◌, ◌∙◌, ◌∷◌, ◌≡◌,
}
use rps_backend.Store.Defs.{Text, text_eq}

abbrev pub is_space_byte : ℕ → Bool
is_space_byte a = (leb 9 a && leb a 13) || a == 32

-- U+0085 and U+00A0.
abbrev pub is_space_2 : ℕ → ℕ → Bool
is_space_2 a b = a == 194 && (b == 133 || b == 160)

-- U+1680, U+2000 to U+200A, U+2028, U+2029, U+202F, U+205F and U+3000.
abbrev pub is_space_3 : ℕ → ℕ → ℕ → Bool
is_space_3 a b c =
    (a == 225 && b == 154 && c == 128)
    || (a == 226 && b == 128 && ((leb 128 c && leb c 138) || c == 168 || c == 169 || c == 175))
    || (a == 226 && b == 129 && c == 159)
    || (a == 227 && b == 128 && c == 128)

-- The number of bytes of the white space that a text begins with.
unfoldable pub front_width : Text → ℕ
front_width [] = 0
front_width (a ∷ []) = if is_space_byte a then 1 else 0
front_width (a ∷ b ∷ []) = if is_space_byte a then 1 else if is_space_2 a b then 2 else 0
front_width (a ∷ b ∷ c ∷ rest) =
    if is_space_byte a then 1 else if is_space_2 a b then 2 else if is_space_3 a b c then 3 else 0

-- The same for a text that is written backwards.
unfoldable pub back_width : Text → ℕ
back_width [] = 0
back_width (a ∷ []) = if is_space_byte a then 1 else 0
back_width (b ∷ a ∷ []) = if is_space_byte b then 1 else if is_space_2 a b then 2 else 0
back_width (c ∷ b ∷ a ∷ rest) =
    if is_space_byte c then 1 else if is_space_2 b c then 2 else if is_space_3 a b c then 3 else 0

-- Bytes are dropped for as long as `width` finds some; `skip` are left of what it found.
unfoldable pub drop_by : (Text → ℕ) → ℕ → Text → Text
drop_by width skip [] = []
drop_by width (suc n) (a ∷ xs) = drop_by width n xs
drop_by width zero (a ∷ xs) = elim (width (a ∷ xs)) [ zero ↦ a ∷ xs | suc n ↦ drop_by width n xs ]

unfoldable pub trim_space : Text → Text
unfolding front_width back_width drop_by
trim_space t = reverse (drop_by back_width 0 (reverse (drop_by front_width 0 t)))

-- What is left begins with nothing to drop.
pub drop_by-stops :
    (width : Text → ℕ) (skip : ℕ) (t : Text) → width [] ≡ 0 → width (drop_by width skip t) ≡ 0
unfolding drop_by
drop_by-stops width skip [] nil = nil
drop_by-stops width (suc n) (a ∷ xs) nil = drop_by-stops width n xs nil
drop_by-stops width zero (a ∷ xs) nil = go (width (a ∷ xs)) refl (λ n. drop_by-stops width n xs nil)
  where
    go :
        (w : ℕ)
        → width (a ∷ xs) ≡ w
        → ((n : ℕ) → width (drop_by width n xs) ≡ 0)
        → width (elim w as (λ _. Text) [ zero ↦ a ∷ xs | suc n ↦ drop_by width n xs ]) ≡ 0
    go zero e rest = e
    go (suc n) e rest = rest n

pub drop_by-none : (width : Text → ℕ) (t : Text) → width t ≡ 0 → drop_by width 0 t ≡ t
unfolding drop_by
drop_by-none width [] e = refl
drop_by-none width (a ∷ xs) e =
    ap (λ (w : ℕ). elim w as (λ _. Text) [ zero ↦ a ∷ xs | suc n ↦ drop_by width n xs ]) e

-- `TrimRight` of one byte.
unfoldable pub drop_byte : ℕ → Text → Text
drop_byte b [] = []
drop_byte b (a ∷ xs) = let rest = drop_byte b xs in if a == b then rest else a ∷ xs

unfoldable pub trim_right : ℕ → Text → Text
unfolding drop_byte
trim_right b t = reverse (drop_byte b (reverse t))

-- A text with no white space at either end is left alone.
pub trim_space-none : (t : Text) → front_width t ≡ 0 → back_width (reverse t) ≡ 0 → trim_space t ≡ t
unfolding trim_space
trim_space-none t front back =
    rw (drop_by-none front_width t front, drop_by-none back_width (reverse t) back)
      (reverse-reverse t)

pub drop_byte-head : (b : ℕ) (a : ℕ) (xs : Text) → (a == b) ≡ false → drop_byte b (a ∷ xs) ≡ a ∷ xs
unfolding drop_byte
drop_byte-head b a xs differs = rw differs refl

-- Whether a text begins with the byte `b`.
abbrev pub starts_with : ℕ → Text → Bool
starts_with b [] = false
starts_with b (a ∷ xs) = a == b

pub drop_byte-none : (b : ℕ) (t : Text) → starts_with b t ≡ false → drop_byte b t ≡ t
unfolding drop_byte
drop_byte-none b [] e = refl
drop_byte-none b (a ∷ xs) e = rw e refl

pub drop_byte-stops : (b : ℕ) (t : Text) → starts_with b (drop_byte b t) ≡ false
unfolding drop_byte
drop_byte-stops b [] = refl
drop_byte-stops b (a ∷ xs) = ground (arith, drop_byte-stops b xs)

pub trim_right-none : (b : ℕ) (t : Text) → starts_with b (reverse t) ≡ false → trim_right b t ≡ t
unfolding trim_right
trim_right-none b t e = rw (drop_byte-none b (reverse t) e) (reverse-reverse t)

-- What is left does not end with the byte.
pub trim_right-stops : (b : ℕ) (t : Text) → starts_with b (reverse (trim_right b t)) ≡ false
unfolding trim_right
trim_right-stops b t =
    rw (reverse-reverse (drop_byte b (reverse t))) (drop_byte-stops b (reverse t))

contains-append : (b : ℕ) (s t : Text) → contains b (s ++ t) ≡ contains b s || contains b t
contains-append b [] t = refl
contains-append b (a ∷ s) t = ground (arith, contains-append b s t)

contains-reverse : (b : ℕ) (t : Text) → contains b (reverse t) ≡ contains b t
contains-reverse b [] = refl
contains-reverse b (a ∷ xs) =
    ap (λ (u : Text). contains b u) (reverse-append (a ∷ []) xs)
    ∙ (contains-append b (reverse xs) (a ∷ []) ∙ ground (arith, contains-reverse b xs))

drop_byte-free : (b c : ℕ) (t : Text) → contains b t ≡ false → contains b (drop_byte c t) ≡ false
unfolding drop_byte
drop_byte-free b c [] e = refl
drop_byte-free b c (a ∷ xs) e = ground (arith, drop_byte-free b c xs)

drop_by-free :
    (b : ℕ) (width : Text → ℕ) (skip : ℕ) (t : Text)
    → contains b t ≡ false
    → contains b (drop_by width skip t) ≡ false
unfolding drop_by
drop_by-free b width skip [] e = e
drop_by-free b width (suc n) (a ∷ xs) e = drop_by-free b width n xs (ground arith)
drop_by-free b width zero (a ∷ xs) e =
    go (width (a ∷ xs)) (λ n. drop_by-free b width n xs (ground arith))
  where
    go :
        (w : ℕ)
        → ((n : ℕ) → contains b (drop_by width n xs) ≡ false)
        → contains b (elim w as (λ _. Text) [ zero ↦ a ∷ xs | suc n ↦ drop_by width n xs ]) ≡ false
    go zero rest = e
    go (suc n) rest = rest n

-- Trimming adds nothing.
pub trim_space-free : (b : ℕ) (t : Text) → contains b t ≡ false → contains b (trim_space t) ≡ false
unfolding trim_space
trim_space-free b t e =
    contains-reverse b (drop_by back_width 0 (reverse (drop_by front_width 0 t)))
    ∙ drop_by-free b back_width 0 (reverse (drop_by front_width 0 t))
        (contains-reverse b (drop_by front_width 0 t) ∙ drop_by-free b front_width 0 t e)

pub trim_right-free :
    (b c : ℕ) (t : Text) → contains b t ≡ false → contains b (trim_right c t) ≡ false
unfolding trim_right
trim_right-free b c t e =
    contains-reverse b (drop_byte c (reverse t))
    ∙ drop_byte-free b c (reverse t) (contains-reverse b t ∙ e)
