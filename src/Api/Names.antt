-- ===== src/Api/Names.antt =====
-- The rule for usernames of internal/httpapi/httpapi.go, `^[A-Za-z0-9_.-]{1,32}$`.
use rps_backend.Prelude.{Bool, [], false, leb, nat_eq, suc, true, zero, ℕ, ◌&&◌, ◌==◌, ◌||◌, ◌∷◌}
use rps_backend.Store.Defs.{Text, text_eq}

abbrev pub within : ℕ → ℕ → ℕ → Bool
within low high c = leb low c && leb c high

abbrev pub is_username_char : ℕ → Bool
is_username_char c =
    within b'A' b'Z' c
    || within b'a' b'z' c
    || within b'0' b'9' c
    || c == b'_'
    || c == b'.'
    || c == b'-'

-- The repetition, with at most `n` characters to come.
unfoldable pub repeats : ℕ → Text → Bool
repeats n [] = true
repeats zero (c ∷ cs) = false
repeats (suc n) (c ∷ cs) = is_username_char c && repeats n cs

abbrev pub max_username : ℕ
max_username = 32

unfoldable pub is_username : Text → Bool
unfolding repeats
is_username [] = false
is_username (c ∷ cs) = repeats max_username (c ∷ cs)
