-- ===== src/Time/Sorting.antt =====
-- The text that internal/store/store.go stores for an instant (`timeFormat`) sorts as the instant does.
use rps_backend.Prelude.{
  ==_iff, subst, Bool-cases, arith, false, inl, inr, length, length-append, ltb, nat_eq, refl, [],
  sym, ℕ, ◌%◌, ◌++◌, ◌+◌, ◌/◌, ◌<◌, ◌==◌, ◌∙◌, ◌∷◌, ◌≡◌, ◌≤◌, ◌⊎◌,
}
use rps_backend.Store.Defs.{Text}
use rps_backend.Time.Calendar.{
  month_of, month_of-Earlier, month_of-fits, year_length, year_of, year_of-Earlier, year_of-below,
  year_of-fits,
}
use rps_backend.Time.Format.{
  append_int, clock_text, date_text, day_ns, format_time, hour_ns, minute_ns, minutes_text,
  month_text, second_ns, seconds_text,
}
use rps_backend.Time.Order.{
  Below, Below-after, Below-append, length-number, number-Below, number_then-Below, text_ltb,
}

split : (q q' r r' : ℕ) → q ≤ q' → (q ≡ q' → r < r') → (q < q') ⊎ ((q ≡ q') × (r < r'))
split q q' r r' le tie = elim (Bool-cases (q == q')) [
  | inl same ↦ inr (ground arith, tie (ground arith))
  | inr differ ↦ inl (ground arith)
]

-- What is compared after a separator.
after_mark :
    (c q q' r r' : ℕ) (x y : Text)
    → (q < q') ⊎ ((q ≡ q') × (r < r'))
    → (r < r' → Below x y)
    → (q < q') ⊎ ((q ≡ q') × Below (c ∷ x) (c ∷ y))
after_mark c q q' r r' x y (inl h) next = inl h
after_mark c q q' r r' x y (inr (same, h)) next = inr (same, Below-after (c ∷ []) x y (next h))

seconds_text-Below :
    (r s : ℕ) → r % minute_ns < s % minute_ns → Below (seconds_text r) (seconds_text s)
unfolding seconds_text
seconds_text-Below r s h =
    number_then-Below 1 (r % minute_ns / second_ns) (s % minute_ns / second_ns) (omega arith)
      (omega arith) _ _
      (after_mark b'.' _ _ (r % second_ns) (s % second_ns) _ _
        (split _ _ (r % second_ns) (s % second_ns) (omega arith) (λ e. omega arith))
        (number-Below 8 (r % second_ns) (s % second_ns) (omega arith) (omega arith)))

minutes_text-Below : (r s : ℕ) → r % hour_ns < s % hour_ns → Below (minutes_text r) (minutes_text s)
unfolding minutes_text
minutes_text-Below r s h =
    number_then-Below 1 (r % hour_ns / minute_ns) (s % hour_ns / minute_ns) (omega arith)
      (omega arith) _ _
      (after_mark b':' _ _ (r % minute_ns) (s % minute_ns) _ _
        (split _ _ (r % minute_ns) (s % minute_ns) (omega arith) (λ e. omega arith))
        (seconds_text-Below r s))

clock_text-Below : (r s : ℕ) → s < day_ns → r < s → Below (clock_text r) (clock_text s)
unfolding clock_text
clock_text-Below r s b h =
    number_then-Below 1 (r / hour_ns) (s / hour_ns) (omega arith) (omega arith) _ _ (
      after_mark b':' _ _ (r % hour_ns) (s % hour_ns) _ _
        (split _ _ (r % hour_ns) (s % hour_ns) (omega arith) (λ e. omega arith))
        (minutes_text-Below r s))

month_text-Below : (y a b : ℕ) → b < year_length y → a < b → Below (month_text y a) (month_text y b)
unfolding month_text
month_text-Below y a b fits h =
    let (m_le, d_lt) = month_of-fits y a (omega arith) in
    let (n_le, e_lt) = month_of-fits y b fits in
    number_then-Below 1 (month_of y a).0 (month_of y b).0 (omega arith) (omega arith) _ _ (
      after_mark b'-' _ _ (month_of y a).1 (month_of y b).1 _ _ (month_of-Earlier y a b fits h)
        (λ k.
          number-Below 1 ((month_of y a).1 + 1) ((month_of y b).1 + 1) (omega arith) (omega arith)
            (omega arith)))

date_text-Below : (a b : ℕ) → b < 3652425 → a < b → Below (date_text a) (date_text b)
unfolding date_text
date_text-Below a b fits h =
    number_then-Below 3 (year_of a).0 (year_of b).0 (year_of-below a (omega arith))
      (year_of-below b fits) _ _
      (elim (year_of-Earlier a b h) [
        | inl before ↦ inl before
        | inr (same, k) ↦
            let in_year =
              subst (λ (y : ℕ). (year_of b).1 < year_length y) (sym same) (year_of-fits b) in
            let later = month_text-Below (year_of a).0 (year_of a).1 (year_of b).1 in_year k in
            inr (
              same,
              Below-after (b'-' ∷ []) _ _ (
                  subst
                    (λ (y : ℕ).
                      Below (month_text (year_of a).0 (year_of a).1) (month_text y (year_of b).1))
                    same later),
            )
      ])

length-month_text : (y day : ℕ) → day < year_length y → length (month_text y day) ≡ 5
unfolding month_text
length-month_text y day h =
    let (m_le, d_lt) = month_of-fits y day h in
    let m = (month_of y day).0 in
    let d = (month_of y day).1 + 1 in
    omega (
      arith,
      length-append (append_int 2 m) (b'-' ∷ append_int 2 d),
      length-number 1 m (omega arith),
      length-number 1 d (omega arith),
    )

length-date_text : (days : ℕ) → days < 3652425 → length (date_text days) ≡ 10
unfolding date_text
length-date_text days h =
    let y = (year_of days).0 in
    let day = (year_of days).1 in
    omega (
      arith,
      length-append (append_int 4 y) (b'-' ∷ month_text y day),
      length-number 3 y (year_of-below days h),
      length-month_text y day (year_of-fits days),
    )

length-clock_text : (r : ℕ) → r < day_ns → length (clock_text r) ≡ 18
unfolding clock_text minutes_text seconds_text
length-clock_text r h = omega (
  arith,
  length-append (append_int 2 (r / hour_ns)) (b':' ∷ minutes_text r),
  length-append (append_int 2 (r % hour_ns / minute_ns)) (b':' ∷ seconds_text r),
  length-append (append_int 2 (r % minute_ns / second_ns)) (b'.' ∷ append_int 9 (r % second_ns)),
  length-number 1 (r / hour_ns) (omega arith),
  length-number 1 (r % hour_ns / minute_ns) (omega arith),
  length-number 1 (r % minute_ns / second_ns) (omega arith),
  length-number 8 (r % second_ns) (omega arith),
)

-- The first instant of the year 10000.
abbrev pub year_10000 : ℕ
year_10000 = 315569520000000000000

format_time-Below : (s t : ℕ) → t < year_10000 → s < t → Below (format_time s) (format_time t)
unfolding format_time
format_time-Below s t fits h =
    elim (split (s / day_ns) (t / day_ns) (s % day_ns) (t % day_ns) (omega arith)
      (λ e. omega arith)) [
        | inl before ↦
            Below-append (date_text (s / day_ns)) (date_text (t / day_ns)) _ _
              (length-date_text (s / day_ns) (omega arith)
                ∙ sym (length-date_text (t / day_ns) (omega arith)))
              (date_text-Below (s / day_ns) (t / day_ns) (omega arith) before)
        | inr (same, k) ↦
            let later =
              Below-append (clock_text (s % day_ns)) (clock_text (t % day_ns)) (b'Z' ∷ [])
                (b'Z' ∷ [])
                (length-clock_text (s % day_ns) (omega arith)
                  ∙ sym (length-clock_text (t % day_ns) (omega arith)))
                (clock_text-Below (s % day_ns) (t % day_ns) (omega arith) k) in
            subst
              (λ (d : ℕ).
                Below (format_time s)
                  (date_text d ++ b'T' ∷ (clock_text (t % day_ns) ++ b'Z' ∷ [])))
              same (Below-after (date_text (s / day_ns)) _ _ (Below-after (b'T' ∷ []) _ _ later))
      ]

text_ltb_irrefl : (a : Text) → text_ltb a a ≡ false
unfolding text_ltb
text_ltb_irrefl [] = refl
text_ltb_irrefl (c ∷ a) = ground (arith, text_ltb_irrefl a)

text_ltb-asym : (a b : Text) → Below a b → text_ltb b a ≡ false
unfolding text_ltb
text_ltb-asym [] [] h = refl
text_ltb-asym [] (d ∷ b) h = refl
text_ltb-asym (c ∷ a) [] h = cc
text_ltb-asym (c ∷ a) (d ∷ b) h = ground (arith, text_ltb-asym a b)

-- Up to the year 9999 the stored texts of two instants compare, byte by byte as SQLite does, as the
-- instants do.
pub format_time-order :
    (s t : ℕ) → s < year_10000 → t < year_10000 → text_ltb (format_time s) (format_time t) ≡ ltb s t
format_time-order s t p q = elim (Bool-cases (ltb s t)) [
  | inl before ↦ rw before (format_time-Below s t q (ground arith))
  | inr after ↦ rw after (elim (Bool-cases (s == t)) [
    | inl same ↦
        subst (λ (u : ℕ). text_ltb (format_time s) (format_time u) ≡ false) ((==_iff s t).0 same)
          (text_ltb_irrefl (format_time s))
    | inr differ ↦
        text_ltb-asym (format_time t) (format_time s) (format_time-Below t s p (ground arith))
  ])
]
