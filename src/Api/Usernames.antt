-- ===== src/Api/Usernames.antt =====
-- The rule for usernames in closed form, and display names.
use mathlib.Core.List.{append_cancel_left}
use rps_backend.Api.Names.{is_username, is_username_char, repeats}
use rps_backend.Prelude.{
  Bool, List, [], ap, arith, contains, false, leb, length, nat_beq, refl, suc, sym, true, zero, ℕ,
  ◌%◌, ◌&&◌, ◌++◌, ◌+◌, ◌/◌, ◌∙◌, ◌∷◌, ◌≡◌,
}
use rps_backend.Store.Defs.{Player, Text, display_name}
use rps_backend.Strings.Split.{split, split-append}

abbrev all_chars : Text → Bool
all_chars [] = true
all_chars (c ∷ cs) = is_username_char c && all_chars cs

one_more :
    (b r a : Bool) (l n : ℕ) → r ≡ (leb l n && a) → (b && r) ≡ (leb (suc l) (suc n) && (b && a))
one_more b r a l n e = ground arith

repeats_lem : (n : ℕ) (t : Text) → repeats n t ≡ (leb (length t) n && all_chars t)
unfolding repeats
repeats_lem n [] = ground arith
repeats_lem zero (c ∷ cs) = ground arith
repeats_lem (suc n) (c ∷ cs) =
    one_more (is_username_char c) (repeats n cs) (all_chars cs) (length cs) n (repeats_lem n cs)

at_least_one : (n : ℕ) (b : Bool) → b ≡ (leb 1 (suc n) && b)
at_least_one n b = ground arith

-- A text is a username exactly when it has 1 to 32 bytes and each is a letter or a digit of ASCII,
-- an underscore, a dot or a dash.
is_username_lem :
    (t : Text) → is_username t ≡ (leb 1 (length t) && (leb (length t) 32 && all_chars t))
unfolding is_username
is_username_lem [] = refl
is_username_lem (c ∷ cs) =
    repeats_lem 32 (c ∷ cs)
    ∙ at_least_one (length cs) (leb (length (c ∷ cs)) 32 && all_chars (c ∷ cs))

both : (a b : Bool) → (a && b) ≡ true → (a ≡ true) × (b ≡ true)
both a b e = ground arith

not_hash : (c : ℕ) → is_username_char c ≡ true → nat_beq c b'#' ≡ false
not_hash c e = ground arith

chars_no_hash : (t : Text) → all_chars t ≡ true → contains b'#' t ≡ false
chars_no_hash [] all = refl
chars_no_hash (c ∷ cs) all =
    let (front, behind) = both (is_username_char c) (all_chars cs) all in
    rw (not_hash c front) (chars_no_hash cs behind)

username_no_hash : (t : Text) → is_username t ≡ true → contains b'#' t ≡ false
username_no_hash t e =
    chars_no_hash t
      (both (leb (length t) 32) (all_chars t)
        (both (leb 1 (length t)) (leb (length t) 32 && all_chars t)
          (sym (is_username_lem t) ∙ e)).1).1

four_digits : ℕ → Text
four_digits d =
    (b'0' + d / 1000) ∷ (b'0' + d / 100 % 10) ∷ (b'0' + d / 10 % 10) ∷ (b'0' + d % 10) ∷ []

digit : ℕ → Text → ℕ
digit n [] = 0
digit zero (c ∷ cs) = c
digit (suc n) (c ∷ cs) = digit n cs

four_digits-inj : (c d : ℕ) → four_digits c ≡ four_digits d → c ≡ d
unfolding four_digits digit
four_digits-inj c d e =
    let e0 : b'0' + c / 1000 ≡ b'0' + d / 1000 = ap (digit 0) e in
    let e1 : b'0' + c / 100 % 10 ≡ b'0' + d / 100 % 10 = ap (digit 1) e in
    let e2 : b'0' + c / 10 % 10 ≡ b'0' + d / 10 % 10 = ap (digit 2) e in
    let e3 : b'0' + c % 10 ≡ b'0' + d % 10 = ap (digit 3) e in omega arith

first_text : List Text → Text
first_text [] = []
first_text (t ∷ ts) = t

rest_of : Text → Text
rest_of [] = []
rest_of (c ∷ cs) = cs

-- Two players whose base names are usernames and who have the same display name have the same base
-- name and the same discriminator.
pub display_name-inj :
    (p q : Player)
    → is_username p.base_name ≡ true
    → is_username q.base_name ≡ true
    → display_name p ≡ display_name q
    → (p.base_name ≡ q.base_name) × (p.discriminator ≡ q.discriminator)
unfolding display_name four_digits first_text rest_of
display_name-inj p q named_p named_q e =
    let same_base : p.base_name ≡ q.base_name = ap first_text (
      sym (split-append b'#' p.base_name _ (username_no_hash p.base_name named_p))
      ∙ ap (split b'#') e
      ∙ split-append b'#' q.base_name _ (username_no_hash q.base_name named_q)) in
    let rest =
      append_cancel_left p.base_name _ _
        (e ∙ ap (λ (t : Text). t ++ b'#' ∷ four_digits q.discriminator) (sym same_base)) in
    (same_base, four_digits-inj p.discriminator q.discriminator (ap rest_of rest))
