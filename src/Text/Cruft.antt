-- ===== src/Text/Cruft.antt =====
-- src/util.c: `remove_cruft`, one call of `strtok_r(str, "\r\n", …)` whose token is dropped. It skips
-- the leading delimiters, which stay in the string, and ends the string at the first one behind the
-- token; a string of delimiters alone stays as it is.
use netcosm.Base.{
  ℕ, ◌≡◌, refl, ap, ◌⊎◌, inl, inr, Bool-cases, Bool, true, false, ◌||◌, [], ◌∷◌, ◌++◌, ◌==◌,
  if◌then◌else◌, arith,
}
use netcosm.Text.{Bytes}

abbrev pub is_line_end : ℕ → Bool
is_line_end c = c == b'\r' || c == b'\n'

-- The string up to the first delimiter.
unfoldable pub token : Bytes → Bytes
token [] = []
token (c ∷ s) = if is_line_end c then [] else c ∷ token s

unfoldable pub remove_cruft : Bytes → Bytes
unfolding token
remove_cruft [] = []
remove_cruft (c ∷ s) = c ∷ (if is_line_end c then remove_cruft s else token s)

-- The string holds no line end.
abbrev pub IsClean : Bytes → Type 0
IsClean [] = Unit
IsClean (c ∷ s) = (is_line_end c ≡ false) × IsClean s

abbrev pub starts_line : Bytes → Bool
starts_line [] = false
starts_line (c ∷ s) = is_line_end c

pub token-IsClean : (s : Bytes) → IsClean (token s)
unfolding token
token-IsClean [] = tt
token-IsClean (c ∷ s) = ground (arith, token-IsClean s)

token_clean : (s : Bytes) → IsClean s → token s ≡ s
unfolding token
token_clean [] h = refl
token_clean (c ∷ s) h = ground (arith, token_clean s h.1)

token_rest :
    (s : Bytes) → (rest : Bytes) × (s ≡ token s ++ rest) × ((rest ≡ []) ⊎ (starts_line rest ≡ true))
unfolding token
token_rest [] = ([], refl, inl refl)
token_rest (c ∷ s) = elim (Bool-cases (is_line_end c)) [
  | inl stop ↦ (c ∷ s, rw stop, inr stop)
  | inr on ↦ let (rest, whole, end) = token_rest s in (rest, rw on (ap (λ t. c ∷ t) whole), end)
]

-- Where the line does not begin with a line end, the result is the part before the first line end:
-- it holds none, and the line goes on behind it with a line end or not at all.
pub remove_cruft-IsClean :
    (s : Bytes)
    → starts_line s ≡ false
    → IsClean (remove_cruft s)
      × ((rest : Bytes) × (s ≡ remove_cruft s ++ rest) × ((rest ≡ []) ⊎ (starts_line rest ≡ true)))
unfolding remove_cruft
remove_cruft-IsClean [] h = (tt, ([], refl, inl refl))
remove_cruft-IsClean (c ∷ s) h =
    let (rest, whole, end) = token_rest s in
    rw h ((refl, token-IsClean s), (rest, ap (λ t. c ∷ t) whole, end))

-- Removing twice is removing once.
pub remove_cruft_idem : (s : Bytes) → remove_cruft (remove_cruft s) ≡ remove_cruft s
unfolding remove_cruft
remove_cruft_idem [] = refl
remove_cruft_idem (c ∷ s) =
    ground (arith, remove_cruft_idem s, token_clean (token s) (token-IsClean s))
