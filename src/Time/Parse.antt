-- ===== src/Time/Parse.antt =====
-- `parseTime` of internal/store/store.go: Go's reader of RFC 3339, on texts as the program writes them. What
-- else Go reads is not modelled: other offsets, an hour of one digit, and a comma before a fraction.
use rps_backend.Prelude.{
  Bool, Option, [], ap, if◌then◌else◌, leb, nat_eq, none, some, suc, zero, ℕ, ◌&&◌, ◌*◌, ◌+◌, ◌-◌,
  ◌/◌, ◌==◌, ◌∷◌, ◌≡◌,
}
use rps_backend.Store.Defs.{Text, text_eq}
use rps_backend.Time.Calendar.{month_length, total, year_length}
use rps_backend.Time.Format.{day_ns, hour_ns, minute_ns, second_ns}

abbrev pub is_digit : ℕ → Bool
is_digit c = leb b'0' c && leb c b'9'

infixl 5 ◌>>=◌
unfoldable pub ◌>>=◌ {ℓ κ} : {A : Type ℓ} {B : Type κ} → Option A → (A → Option B) → Option B
none >>= f = none
some a >>= f = f a

pub >>=-some {ℓ κ} :
    {A : Type ℓ} {B : Type κ} (m : Option A) (f : A → Option B) (a : A)
    → m ≡ some a
    → (m >>= f) ≡ f a
unfolding ◌>>=◌
>>=-some m f a e = ap (λ (o : Option _). o >>= f) e

unfoldable pub read_digits : ℕ → ℕ → Text → Option (ℕ × Text)
read_digits zero acc s = some (acc, s)
read_digits (suc w) acc [] = none
read_digits (suc w) acc (c ∷ s) =
    let rest = read_digits w (acc * 10 + (c - b'0')) s in if is_digit c then rest else none

abbrev check_range : ℕ → ℕ → ℕ × Text → Option (ℕ × Text)
check_range lo hi (n, s) = if leb lo n && leb n hi then some (n, s) else none

-- A number of `w` digits between two bounds.
unfoldable pub read_between : ℕ → ℕ → ℕ → Text → Option (ℕ × Text)
unfolding read_digits ◌>>=◌
read_between w lo hi s = read_digits w 0 s >>= check_range lo hi

unfoldable pub expect : ℕ → Text → Option Text
expect c [] = none
expect c (d ∷ s) = if d == c then some s else none

-- The digits of a fraction, the first of which counts `weight` nanoseconds; those after the ninth count
-- nothing.
unfoldable pub read_fraction : ℕ → Text → ℕ × Text
read_fraction weight [] = (0, [])
read_fraction weight (c ∷ s) =
    let (v, rest) = read_fraction (weight / 10) s in
    if is_digit c then ((c - b'0') * weight + v, rest) else (0, c ∷ s)

-- A fraction is a point and at least one digit, or is absent.
unfoldable pub read_optional_fraction : Text → ℕ × Text
read_optional_fraction (p ∷ c ∷ s) =
    if p == b'.' && is_digit c then read_fraction 100000000 (c ∷ s) else (0, p ∷ c ∷ s)
read_optional_fraction s = (0, s)

-- The days before a date.
unfoldable pub days_before : ℕ → ℕ → ℕ → ℕ
unfolding total
days_before y m d = total year_length y 0 + total (month_length y) (m - 1) 1 + (d - 1)

unfoldable pub read_date : Text → Option (ℕ × Text)
unfolding read_between expect days_before ◌>>=◌
read_date s = do
  (y, s) ← read_between 4 0 9999 s
  s ← expect b'-' s
  (m, s) ← read_between 2 1 12 s
  s ← expect b'-' s
  (d, s) ← read_between 2 1 (month_length y m) s
  some (days_before y m d, s)

unfoldable pub read_clock : Text → Option (ℕ × Text)
unfolding read_between expect read_optional_fraction ◌>>=◌
read_clock s = do
  (h, s) ← read_between 2 0 23 s
  s ← expect b':' s
  (m, s) ← read_between 2 0 59 s
  s ← expect b':' s
  (sec, s) ← read_between 2 0 59 s
  let (ns, rest) = read_optional_fraction s
  some (h * hour_ns + m * minute_ns + sec * second_ns + ns, rest)

unfoldable pub parse_time : Text → Option ℕ
unfolding read_date read_clock expect ◌>>=◌
parse_time s = do
  (days, s) ← read_date s
  s ← expect b'T' s
  (r, s) ← read_clock s
  s ← expect b'Z' s
  if s == [] then some (days * day_ns + r) else none
