-- ===== src/Time/Roundtrip.antt =====
-- What `formatTime` of internal/store/store.go writes, `parseTime` reads back.
use Prim.Native.Nat.{◌^◌}
use rps_backend.Prelude.{
  Bool-cases, [], ap, append_assoc, arith, inl, inr, nat_eq, refl, some, suc, true, zero, ℕ, ◌%◌,
  ◌*◌, ◌++◌, ◌+◌, ◌-◌, ◌/◌, ◌<◌, ◌∙◌, ◌∷◌, ◌≡◌, ◌≤◌,
}
use rps_backend.Store.Defs.{Text, text_eq}
use rps_backend.Time.Calendar.{
  month_length, month_of, month_of-fits, month_of-holds, month_of-total, year_of, year_of-below,
  year_of-fits, year_of-total,
}
use rps_backend.Time.Format.{
  append_int, clock_text, date_text, day_ns, digits, format_time, hour_ns, minute_ns, minutes_text,
  month_text, second_ns, seconds_text,
}
use rps_backend.Time.Order.{append_int-digits, tenth-lt}
use rps_backend.Time.Parse.{
  >>=-some, days_before, is_digit, parse_time, read_between, read_clock, read_date, read_digits,
  read_fraction, read_optional_fraction,
}
use rps_backend.Time.Sorting.{year_10000}

-- One more digit.
read_digits-snoc :
    (w acc : ℕ) (s : Text) (v c : ℕ) (rest : Text)
    → read_digits w acc s ≡ some (v, c ∷ rest)
    → is_digit c ≡ true
    → read_digits (suc w) acc s ≡ some (v * 10 + (c - b'0'), rest)
unfolding read_digits
read_digits-snoc zero acc [] v c rest h e = ground (arith)
read_digits-snoc zero acc (d ∷ s) v c rest h e = ground arith
read_digits-snoc (suc w) acc [] v c rest h e = absurd (cc)
read_digits-snoc (suc w) acc (d ∷ s) v c rest h e = elim (Bool-cases (is_digit d)) [
  | inl yes_digit ↦
      rw yes_digit (read_digits-snoc w (acc * 10 + (d - b'0')) s v c rest (ground arith) e)
  | inr no_digit ↦ absurd (ground arith)
]

read_digits-digits :
    (w n : ℕ) (rest : Text) → n < 10 ^ w → read_digits w 0 (digits w n ++ rest) ≡ some (n, rest)
unfolding read_digits digits
read_digits-digits zero n rest h = ground arith
read_digits-digits (suc w) n rest h =
    rw (append_assoc (digits w (n / 10)) ((b'0' + n % 10) ∷ []) rest) (
      read_digits-snoc w 0 _ (n / 10) (b'0' + n % 10) rest
        (read_digits-digits w (n / 10) ((b'0' + n % 10) ∷ rest) (tenth-lt w n h)) (ground arith)
      ∙ ap (λ (v : ℕ). some (v, rest)) (omega arith))

read_number :
    (w lo hi n : ℕ) (rest : Text)
    → n < 10 ^ suc w
    → lo ≤ n
    → n ≤ hi
    → read_between (suc w) lo hi (append_int (suc w) n ++ rest) ≡ some (n, rest)
unfolding read_between
read_number w lo hi n rest fits above below =
    rw (append_int-digits w n fits)
      (>>=-some _ _ (n, rest) (read_digits-digits (suc w) n rest fits) ∙ ground arith)

read_fraction-digit :
    (weight x : ℕ) (s : Text)
    → read_fraction weight ((b'0' + x % 10) ∷ s)
      ≡ (x % 10 * weight + (read_fraction (weight / 10) s).0, (read_fraction (weight / 10) s).1)
unfolding read_fraction
read_fraction-digit weight x s = ground arith

read_fraction-end : (weight : ℕ) (s : Text) → read_fraction weight (b'Z' ∷ s) ≡ (0, b'Z' ∷ s)
unfolding read_fraction
read_fraction-end weight s = refl

-- A fraction that begins with a digit is read.
read_optional_fraction-digit :
    (x : ℕ) (s : Text)
    → read_optional_fraction (b'.' ∷ (b'0' + x % 10) ∷ s)
      ≡ read_fraction 100000000 ((b'0' + x % 10) ∷ s)
unfolding read_optional_fraction
read_optional_fraction-digit x s = ground arith

read_nanos :
    (n : ℕ)
    → n < second_ns
    → read_optional_fraction (b'.' ∷ (append_int 9 n ++ b'Z' ∷ [])) ≡ (n, b'Z' ∷ [])
unfolding digits
read_nanos n h = rw (append_int-digits 8 n (omega arith)) (
    simp (read_optional_fraction-digit, read_fraction-digit, read_fraction-end)
      (ap (λ (k : ℕ). (k, b'Z' ∷ [])) (omega arith)))

minutes_split :
    (r : ℕ) (rest : Text)
    → minutes_text r ++ rest
      ≡ append_int 2 (r % hour_ns / minute_ns)
        ++ b':'
          ∷ (append_int 2 (r % minute_ns / second_ns)
              ++ b'.' ∷ (append_int 9 (r % second_ns) ++ rest))
unfolding minutes_text seconds_text
minutes_split r rest = simp append_assoc

clock_split :
    (r : ℕ) (rest : Text)
    → clock_text r ++ rest ≡ append_int 2 (r / hour_ns) ++ b':' ∷ (minutes_text r ++ rest)
unfolding clock_text
clock_split r rest = append_assoc (append_int 2 (r / hour_ns)) _ rest

read_clock-text :
    (r : ℕ) → r < day_ns → read_clock (clock_text r ++ b'Z' ∷ []) ≡ some (r, b'Z' ∷ [])
unfolding read_clock
read_clock-text r h =
    let h' = r / hour_ns in
    let m = r % hour_ns / minute_ns in
    let sec = r % minute_ns / second_ns in
    rw (clock_split r (b'Z' ∷ []), minutes_split r (b'Z' ∷ []))
      (>>=-some _ _ (h', _) (read_number 1 0 23 h' _ (omega arith) (omega arith) (omega arith))
        ∙ >>=-some _ _ (m, _) (read_number 1 0 59 m _ (omega arith) (omega arith) (omega arith))
        ∙ >>=-some _ _ (sec, _) (read_number 1 0 59 sec _ (omega arith) (omega arith) (omega arith))
        ∙ rw (read_nanos (r % second_ns) (omega arith))
            (ap (λ (k : ℕ). some (k, b'Z' ∷ [])) (omega arith)))

date_split :
    (days : ℕ) (rest : Text)
    → date_text days ++ rest
      ≡ append_int 4 (year_of days).0
        ++ b'-'
          ∷ (append_int 2 (month_of (year_of days).0 (year_of days).1).0
              ++ b'-' ∷ (append_int 2 ((month_of (year_of days).0 (year_of days).1).1 + 1) ++ rest))
unfolding date_text month_text
date_split days rest = simp append_assoc

days_before-days :
    (days : ℕ)
    → days_before
        (year_of days).0
        (month_of (year_of days).0 (year_of days).1).0
        ((month_of (year_of days).0 (year_of days).1).1 + 1)
      ≡ days
unfolding days_before
days_before-days days =
    omega (arith, year_of-total days, month_of-total (year_of days).0 (year_of days).1)

read_date-text :
    (days : ℕ) (rest : Text)
    → days < 3652425
    → read_date (date_text days ++ rest) ≡ some (days, rest)
unfolding read_date
read_date-text days rest h =
    let y = (year_of days).0 in
    let day = (year_of days).1 in
    let m = (month_of y day).0 in
    let d = (month_of y day).1 + 1 in
    let below = year_of-below days h in
    let (m_ge, d_le) = month_of-holds y day (year_of-fits days) in
    let (m_le, d_lt) = month_of-fits y day (year_of-fits days) in
    rw (date_split days rest) (
      >>=-some _ _ (y, _) (read_number 3 0 9999 y _ below (omega arith) (omega arith))
      ∙ >>=-some _ _ (m, _) (read_number 1 1 12 m _ (omega arith) m_ge m_le)
      ∙ >>=-some _ _ (d, rest)
          (read_number 1 1 (month_length y m) d rest (omega arith) (omega arith) d_le)
      ∙ ap (λ (n : ℕ). some (n, rest)) (days_before-days days))

-- Up to the year 9999 `parseTime` reads back exactly the instant that `formatTime` wrote.
pub parse_time-format_time : (t : ℕ) → t < year_10000 → parse_time (format_time t) ≡ some t
unfolding parse_time format_time
parse_time-format_time t h =
    >>=-some _ _ (t / day_ns, _) (read_date-text (t / day_ns) _ (omega arith))
    ∙ >>=-some _ _ (t % day_ns, b'Z' ∷ []) (read_clock-text (t % day_ns) (omega arith))
    ∙ ap (λ (n : ℕ). some n) (omega arith)
