-- ===== src/Time/Clock.antt =====
-- internal/clock/clock.go: the wall clock, and the one that tests control. Each method of `Fake` holds
-- its mutex, so that it is one step.
use rps_backend.Prelude.{List, [], negsuc, pos, refl, ℕ, ℤ, ◌+◌, ◌-◌, ◌∙◌, ◌∷◌, ◌≡◌}

-- A `time.Time`: an instant, and the location that it is shown in, where 0 is UTC.
pub record Moment : Type 0 where
  pub instant : ℕ
  pub location : ℕ

unfoldable pub utc : Moment → Moment
utc m = record m { location = 0 }

-- `Add`. An instant before the year 0 is taken for its beginning.
unfoldable pub add : Moment → ℤ → Moment
add m (pos d) = record m { instant = m.instant + d }
add m (negsuc d) = record m { instant = m.instant - (d + 1) }

pub record Fake : Type 0 where
  pub t : Moment

-- The implementations of the interface.
pub data Clock : Type 0 where
  real : Clock
  faked : Fake → Clock

unfoldable pub new_fake : Moment → Fake
unfolding utc
new_fake m = record { t = utc m }

unfoldable pub fake_now : Fake → Moment
fake_now f = f.t

unfoldable pub advance : ℤ → Fake → Fake
unfolding add
advance d f = record { t = add f.t d }

unfoldable pub set_time : Moment → Fake → Fake
unfolding utc
set_time m f = record { t = utc m }

-- `Now` of the wall clock, which reads `m`.
unfoldable pub real_now : Moment → Moment
unfolding utc
real_now m = utc m

-- `Now`, where the wall clock reads `m`.
unfoldable pub now : Moment → Clock → Moment
unfolding real_now fake_now
now m real = real_now m
now m (faked f) = fake_now f

pub data FakeOp : Type 0 where
  advances : ℤ → FakeOp
  sets : Moment → FakeOp

pub run_fake : List FakeOp → Fake → Fake
run_fake [] f = f
run_fake (advances d ∷ ops) f = run_fake ops (advance d f)
run_fake (sets m ∷ ops) f = run_fake ops (set_time m f)

add-location : (m : Moment) (d : ℤ) → (add m d).location ≡ m.location
unfolding add
add-location m (pos d) = refl
add-location m (negsuc d) = refl

run_fake-location :
    (ops : List FakeOp) (f : Fake) → f.t.location ≡ 0 → (run_fake ops f).t.location ≡ 0
unfolding run_fake advance set_time utc
run_fake-location [] f u = u
run_fake-location (advances d ∷ ops) f u =
    run_fake-location ops (advance d f) (add-location f.t d ∙ u)
run_fake-location (sets m ∷ ops) f u = run_fake-location ops (set_time m f) refl

-- Either clock tells the time in UTC, the one for tests after any calls of its methods too.
now-location :
    (wall start : Moment) (ops : List FakeOp)
    → ((now wall real).location ≡ 0)
      × ((now wall (faked (run_fake ops (new_fake start)))).location ≡ 0)
unfolding now real_now fake_now utc new_fake
now-location wall start ops = (refl, run_fake-location ops (new_fake start) refl)
