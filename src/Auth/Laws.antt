-- ===== src/Auth/Laws.antt =====
-- Which names and passwords src/auth.c takes.
use netcosm.Base.{ℕ, ◌+◌, ◌≤◌, ◌≡◌, Bool, true, ◌&&◌, ◌||◌, [], ◌∷◌, length, leb, arith}
use netcosm.Auth.{valid_from, valid_login_name, max_name_len}
use netcosm.Text.{Bytes, is_alpha, is_digit}

-- All characters pass `isalpha` or `isdigit`.
unfoldable pub all_alnum : Bytes → Bool
all_alnum [] = true
all_alnum (c ∷ s) = (is_alpha c || is_digit c) && all_alnum s

valid_from-length :
    (len : ℕ) (s : Bytes)
    → len ≤ max_name_len
    → valid_from len s ≡ (leb (len + length s) max_name_len && all_alnum s)
unfolding valid_from all_alnum is_alpha is_digit
valid_from-length len [] h = ground (arith, h)
valid_from-length len (c ∷ s) h = ground (arith, h, valid_from-length (len + 1) s)

-- A name is valid exactly when it has at most 32 characters, each a letter or a digit.
pub valid_login_name-all_alnum :
    (s : Bytes) → valid_login_name s ≡ (leb (length s) max_name_len && all_alnum s)
unfolding valid_login_name
valid_login_name-all_alnum s = ground (arith, valid_from-length 0 s)
