-- ===== src/Time/Order.antt =====
-- The stored text of an instant sorts as the instant does (`timeFormat` of internal/store/store.go).
use rps_backend.Prelude.{
  ==_iff, Bool, Bool-cases, [], arith, false, if◌then◌else◌, inl, inr, length, length-append, ltb,
  nat_eq, refl, subst, suc, sym, true, zero, ℕ, ◌%◌, ◌++◌, ◌+◌, ◌/◌, ◌<◌, ◌==◌, ◌∙◌, ◌∷◌, ◌≡◌, ◌≤◌,
  ◌⊎◌, ap,
}
use Prim.Native.Nat.{◌^◌}
use native.Mathlib.Nat.{pow-suc}
use rps_backend.Store.Defs.{Text}
use rps_backend.Time.Format.{append_int, count_digits, digits}

-- The order of SQLite's texts: by their bytes, and the shorter first.
unfoldable pub text_ltb : Text → Text → Bool
text_ltb [] [] = false
text_ltb [] (y ∷ ys) = true
text_ltb (x ∷ xs) [] = false
text_ltb (x ∷ xs) (y ∷ ys) = if x == y then text_ltb xs ys else ltb x y

abbrev pub Below : Text → Text → Type 0
Below a b = text_ltb a b ≡ true

-- The order of two texts whose first parts are equally long.
pub Below-append : (a b x y : Text) → length a ≡ length b → Below a b → Below (a ++ x) (b ++ y)
unfolding text_ltb
Below-append [] [] x y e h = cc
Below-append [] (c ∷ b) x y e h = absurd (omega arith)
Below-append (c ∷ a) [] x y e h = cc
Below-append (c ∷ a) (d ∷ b) x y e h = ground (arith, Below-append a b x y)

pub Below-after : (a x y : Text) → Below x y → Below (a ++ x) (a ++ y)
unfolding text_ltb
Below-after [] x y h = h
Below-after (c ∷ a) x y h = ground (arith, Below-after a x y h)

length-digits : (w n : ℕ) → length (digits w n) ≡ w
unfolding digits
length-digits zero n = refl
length-digits (suc w) n =
    omega
      (arith, length-append (digits w (n / 10)) ((b'0' + n % 10) ∷ []), length-digits w (n / 10))

-- The number without its last digit.
pub tenth-lt : (w n : ℕ) → n < 10 ^ suc w → n / 10 < 10 ^ w
tenth-lt w n h = omega (arith, pow-suc 10 w)

digits-Below : (w m n : ℕ) → m < n → n < 10 ^ w → Below (digits w m) (digits w n)
unfolding digits text_ltb
digits-Below zero m n h b = absurd (omega arith)
digits-Below (suc w) m n h b = elim (Bool-cases (m / 10 == n / 10)) [
  | inl same ↦
      let heads : m / 10 ≡ n / 10 = (==_iff (m / 10) (n / 10)).0 same in
      subst (λ (t : Text). Below (t ++ (b'0' + m % 10) ∷ []) (digits (suc w) n))
        (ap (digits w) (sym heads))
        (Below-after (digits w (n / 10)) ((b'0' + m % 10) ∷ []) ((b'0' + n % 10) ∷ [])
          (ground (arith, heads)))
  | inr differ ↦
      Below-append (digits w (m / 10)) (digits w (n / 10)) _ _
        (length-digits w (m / 10) ∙ sym (length-digits w (n / 10)))
        (digits-Below w (m / 10) (n / 10) (ground arith) (tenth-lt w n b))
]

count_digits-le : (f w n : ℕ) → n < 10 ^ suc w → count_digits f n ≤ suc w
unfolding count_digits
count_digits-le zero w n h = omega arith
count_digits-le (suc f) zero n h = ground arith
count_digits-le (suc f) (suc w) n h =
    ground (arith, count_digits-le f w (n / 10), tenth-lt (suc w) n h)

-- A number that fits its width is printed with just as many digits.
pub append_int-digits : (w n : ℕ) → n < 10 ^ suc w → append_int (suc w) n ≡ digits (suc w) n
unfolding append_int
append_int-digits w n h = ground (arith, count_digits-le n w n h)

pub length-number : (w n : ℕ) → n < 10 ^ suc w → length (append_int (suc w) n) ≡ suc w
length-number w n h = ap length (append_int-digits w n h) ∙ length-digits (suc w) n

-- Two numbers of one width sort as texts as they do as numbers.
module _ (w m n : ℕ) (fits_m : m < 10 ^ suc w) (fits_n : n < 10 ^ suc w) where
  pub number-Below : m < n → Below (append_int (suc w) m) (append_int (suc w) n)
  number-Below h =
      rw (append_int-digits w m fits_m, append_int-digits w n fits_n)
        (digits-Below (suc w) m n h fits_n)

  -- If they are the same, what follows them decides.
  pub number_then-Below :
      (x y : Text)
      → (m < n) ⊎ ((m ≡ n) × Below x y)
      → Below (append_int (suc w) m ++ x) (append_int (suc w) n ++ y)
  number_then-Below x y (inl h) =
      Below-append (append_int (suc w) m) (append_int (suc w) n) x y
        (length-number w m fits_m ∙ sym (length-number w n fits_n)) (number-Below h)
  number_then-Below x y (inr (same, h)) =
      subst (λ (k : ℕ). Below (append_int (suc w) m ++ x) (append_int (suc w) k ++ y)) same
        (Below-after (append_int (suc w) m) x y h)
