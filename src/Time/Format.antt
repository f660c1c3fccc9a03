-- ===== src/Time/Format.antt =====
-- `formatTime` of internal/store/store.go: an instant in UTC, printed by Go's package time in the layout
-- "2006-01-02T15:04:05.000000000Z07:00".
use rps_backend.Prelude.{[], if◌then◌else◌, ltb, nat_eq, suc, zero, ℕ, ◌%◌, ◌++◌, ◌+◌, ◌/◌, ◌∷◌}
use rps_backend.Store.Defs.{Text}
use rps_backend.Time.Calendar.{month_of, year_of}

-- The last `w` decimal digits of `n`.
unfoldable pub digits : ℕ → ℕ → Text
digits zero n = []
digits (suc w) n = digits w (n / 10) ++ (b'0' + n % 10) ∷ []

unfoldable pub count_digits : ℕ → ℕ → ℕ
count_digits zero n = 1
count_digits (suc f) n = let rest = count_digits f (n / 10) in if ltb n 10 then 1 else suc rest

-- `appendInt`: all digits of `n`, and zeros before them up to the width `w`.
unfoldable pub append_int : ℕ → ℕ → Text
unfolding digits count_digits
append_int w n = let l = count_digits n n in digits (if ltb w l then l else w) n

abbrev pub second_ns : ℕ
second_ns = 1000000000

abbrev pub minute_ns : ℕ
minute_ns = 60000000000

abbrev pub hour_ns : ℕ
hour_ns = 3600000000000

abbrev pub day_ns : ℕ
day_ns = 86400000000000

unfoldable pub month_text : ℕ → ℕ → Text
unfolding month_of append_int
month_text y day = let (m, d) = month_of y day in append_int 2 m ++ b'-' ∷ append_int 2 (d + 1)

unfoldable pub date_text : ℕ → Text
unfolding year_of month_text append_int
date_text days = let (y, day) = year_of days in append_int 4 y ++ b'-' ∷ month_text y day

unfoldable pub seconds_text : ℕ → Text
unfolding append_int
seconds_text r = append_int 2 (r % minute_ns / second_ns) ++ b'.' ∷ append_int 9 (r % second_ns)

unfoldable pub minutes_text : ℕ → Text
unfolding append_int seconds_text
minutes_text r = append_int 2 (r % hour_ns / minute_ns) ++ b':' ∷ seconds_text r

-- The time of day, `r` nanoseconds after midnight.
unfoldable pub clock_text : ℕ → Text
unfolding append_int minutes_text
clock_text r = append_int 2 (r / hour_ns) ++ b':' ∷ minutes_text r

unfoldable pub format_time : ℕ → Text
unfolding date_text clock_text
format_time t = date_text (t / day_ns) ++ b'T' ∷ (clock_text (t % day_ns) ++ b'Z' ∷ [])
