-- ===== src/Time/Calendar.antt =====
-- The proleptic Gregorian calendar from the year 0 on, which Go's package time prints instants in. An
-- instant is the number of nanoseconds since its beginning, in UTC.
use rps_backend.Prelude.{
  Bool, Bool-cases, ap, inl, arith, if◌then◌else◌, inr, ltb, nat_eq, not, refl, suc, zero, ℕ, ◌%◌,
  ◌&&◌, ◌+◌, ◌-◌, ◌<◌, ◌==◌, ◌∙◌, ◌||◌, ◌≡◌, ◌≤◌, ◌⊎◌,
}

unfoldable pub leap : ℕ → Bool
leap y = y % 4 == 0 && (not (y % 100 == 0) || y % 400 == 0)

unfoldable pub year_length : ℕ → ℕ
year_length y = if leap y then 366 else 365

unfoldable pub month_length : ℕ → ℕ → ℕ
month_length y m =
    if m == 2
    then if leap y then 29 else 28
    else if m == 4 || m == 6 || m == 9 || m == 11
    then 30
    else 31

-- The unit that `n` falls into, of units of these lengths from the `k`-th on, and its place in there.
unfoldable pub walk : (ℕ → ℕ) → ℕ → ℕ → ℕ → ℕ × ℕ
walk len zero k n = (k, n)
walk len (suc f) k n =
    let rest = walk len f (suc k) (n - len k) in if ltb n (len k) then (k, n) else rest

-- A year has at least one day, so there are enough rounds.
unfoldable pub year_of : ℕ → ℕ × ℕ
unfolding walk
year_of days = walk year_length days 0 days

unfoldable pub month_of : ℕ → ℕ → ℕ × ℕ
unfolding walk
month_of y day = walk (month_length y) 11 1 day

-- The length of `f` units from the `k`-th on.
unfoldable pub total : (ℕ → ℕ) → ℕ → ℕ → ℕ
total len zero k = 0
total len (suc f) k = len k + total len f (suc k)

-- In an earlier unit, or in the same at an earlier place.
abbrev pub Earlier : ℕ × ℕ → ℕ × ℕ → Type 0
Earlier a b = (a.0 < b.0) ⊎ ((a.0 ≡ b.0) × (a.1 < b.1))

module _ (len : ℕ → ℕ) where
  walk-ge : (f k n : ℕ) → k ≤ (walk len f k n).0
  unfolding walk
  walk-ge zero k n = omega arith
  walk-ge (suc f) k n = ground (arith, walk-ge f (suc k) (n - len k))

  pub walk-le : (f k n : ℕ) → (walk len f k n).0 ≤ k + f
  unfolding walk
  walk-le zero k n = omega arith
  walk-le (suc f) k n = ground (arith, walk-le f (suc k) (n - len k))

  -- Where the units are long enough, the unit that is found holds the place.
  pub walk-fits :
      (f k n : ℕ) → n < total len (suc f) k → (walk len f k n).1 < len (walk len f k n).0
  unfolding walk total
  walk-fits zero k n h = omega arith
  walk-fits (suc f) k n h = ground (arith, walk-fits f (suc k) (n - len k))

  pub walk-below : (j f k n : ℕ) → n < total len j k → j ≤ f → (walk len f k n).0 < k + j
  unfolding walk total
  walk-below zero f k n h e = absurd (omega arith)
  walk-below (suc j) zero k n h e = absurd (omega arith)
  walk-below (suc j) (suc f) k n h e = ground (arith, walk-below j f (suc k) (n - len k))

  pub walk-Earlier :
      (f g k m n : ℕ)
      → m < total len (suc f) k
      → n < total len (suc g) k
      → m < n
      → Earlier (walk len f k m) (walk len g k n)
  unfolding walk total
  walk-Earlier zero zero k m n p q h = inr (refl, h)
  walk-Earlier zero (suc g) k m n p q h = ground (arith, walk-ge g (suc k) (n - len k))
  walk-Earlier (suc f) zero k m n p q h = ground arith
  walk-Earlier (suc f) (suc g) k m n p q h =
      ground
        (arith, walk-ge g (suc k) (n - len k), walk-Earlier f g (suc k) (m - len k) (n - len k))

  total-none : (k n : ℕ) → total len (k - k) k + n ≡ n
  unfolding total
  total-none k n =
      let none_passed : k - k ≡ 0 = omega arith in
      ap (λ (j : ℕ). total len j k + n) none_passed ∙ omega arith

  total-past : (k u : ℕ) → suc k ≤ u → total len (u - k) k ≡ len k + total len (u - suc k) (suc k)
  unfolding total
  total-past k u h =
      let next : u - k ≡ suc (u - suc k) = omega arith in ap (λ (j : ℕ). total len j k) next

  -- The units that were passed and the place in the last make up `n`.
  pub walk-total : (f k n : ℕ) → total len ((walk len f k n).0 - k) k + (walk len f k n).1 ≡ n
  unfolding walk
  walk-total zero k n = total-none k n
  walk-total (suc f) k n = elim (Bool-cases (ltb n (len k))) [
    | inl here ↦ rw here (total-none k n)
    | inr past ↦
        let next = walk len f (suc k) (n - len k) in
        rw past (
          let grown = total-past k next.0 (walk-ge f (suc k) (n - len k)) in
          let rest = walk-total f (suc k) (n - len k) in
          let long : len k ≤ n = ground arith in omega arith)
  ]

  pub total-ge : (f k : ℕ) → ((j : ℕ) → 1 ≤ len j) → f ≤ total len f k
  unfolding total
  total-ge zero k pos = omega arith
  total-ge (suc f) k pos = omega (arith, pos k, total-ge f (suc k) pos)

pub year_length_pos : (y : ℕ) → 1 ≤ year_length y
unfolding year_length
year_length_pos y = ground arith

-- The days of the years 0 to 9999.
pub total-years : total year_length 10000 0 ≡ 3652425
unfolding total year_length leap
total-years = refl

-- The days of a year, by its months.
pub total-months : (y : ℕ) → total (month_length y) 12 1 ≡ year_length y
unfolding total month_length year_length
total-months y = ground arith

month_length-le : (y m : ℕ) → month_length y m ≤ 31
unfolding month_length
month_length-le y m = ground arith

total-days : (days : ℕ) → days < total year_length (suc days) 0
total-days days = omega (arith, total-ge year_length (suc days) 0 year_length_pos)

pub year_of-Earlier : (a b : ℕ) → a < b → Earlier (year_of a) (year_of b)
unfolding year_of
year_of-Earlier a b h = walk-Earlier year_length a b 0 a b (total-days a) (total-days b) h

pub year_of-fits : (days : ℕ) → (year_of days).1 < year_length (year_of days).0
unfolding year_of
year_of-fits days = walk-fits year_length days 0 days (total-days days)

-- A day before the year 10000 is in a year of four digits.
pub year_of-below : (days : ℕ) → days < 3652425 → (year_of days).0 < 10000
unfolding year_of
year_of-below days h = elim (Bool-cases (ltb days 10000)) [
  | inl few ↦ ground (arith, walk-le year_length days 0 days)
  | inr many ↦
      ground (
        arith,
        walk-below year_length 10000 days 0 days (omega (arith, total-years)) (ground arith),
      )
]

pub month_of-Earlier :
    (y a b : ℕ) → b < year_length y → a < b → Earlier (month_of y a) (month_of y b)
unfolding month_of
month_of-Earlier y a b fits h =
    walk-Earlier (month_length y) 11 11 1 a b (omega (arith, total-months y))
      (omega (arith, total-months y)) h

pub month_of-fits :
    (y day : ℕ) → day < year_length y → ((month_of y day).0 ≤ 12) × ((month_of y day).1 < 31)
unfolding month_of
month_of-fits y day h = (
  walk-le (month_length y) 11 1 day,
  omega (
    arith,
    month_length-le y (walk (month_length y) 11 1 day).0,
    walk-fits (month_length y) 11 1 day (omega (arith, total-months y)),
  ),
)

pub year_of-total : (days : ℕ) → total year_length (year_of days).0 0 + (year_of days).1 ≡ days
unfolding year_of
year_of-total days =
    let (y, day) = walk year_length days 0 days in
    let all_passed : y ≡ y - 0 = omega arith in
    ap (λ (j : ℕ). total year_length j 0 + day) all_passed ∙ walk-total year_length days 0 days

pub month_of-total :
    (y day : ℕ) → total (month_length y) ((month_of y day).0 - 1) 1 + (month_of y day).1 ≡ day
unfolding month_of
month_of-total y day = walk-total (month_length y) 11 1 day

pub month_of-holds :
    (y day : ℕ)
    → day < year_length y
    → (1 ≤ (month_of y day).0) × ((month_of y day).1 + 1 ≤ month_length y (month_of y day).0)
unfolding month_of
month_of-holds y day h = (
  walk-ge (month_length y) 11 1 day,
  omega (arith, walk-fits (month_length y) 11 1 day (omega (arith, total-months y))),
)
