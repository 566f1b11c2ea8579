-- ===== src/Text.antt =====
-- Texts: the C strings of src/util.c, src/hash.c and what they take from <ctype.h> and <string.h>. A
-- string is the list of its bytes before the NUL. `char` is signed, as on x86.
pub mod Case
pub mod Cruft
pub mod Concat
pub mod Noun
pub mod Djb
use Prim.Native.Char.{code}
use Prim.Native.String.{String}
use netcosm.Base.{
  ℕ, ◌+◌, ◌-◌, ◌≡◌, Bool, true, false, ◌&&◌, ◌||◌, List, [], ◌∷◌, leb, ◌==◌, if◌then◌else◌,
}

abbrev pub Bytes : Type 0
Bytes = List ℕ

-- The text holds no NUL.
abbrev pub IsCString : Bytes → Type 0
IsCString [] = Unit
IsCString (c ∷ s) = ((c == 0) ≡ false) × IsCString s

-- The bytes of an ASCII literal.
abbrev pub ascii : String → Bytes
ascii String.[] = []
ascii (String.◌∷◌ c s) = code c ∷ ascii s

abbrev pub within : ℕ → ℕ → ℕ → Bool
within lo hi c = leb lo c && leb c hi

-- <ctype.h>, in the C locale
unfoldable pub is_alpha : ℕ → Bool
is_alpha c = within b'A' b'Z' c || within b'a' b'z' c

unfoldable pub is_digit : ℕ → Bool
is_digit c = within b'0' b'9' c

unfoldable pub to_upper : ℕ → ℕ
to_upper c = if within b'a' b'z' c then c - 32 else c

unfoldable pub to_lower : ℕ → ℕ
to_lower c = if within b'A' b'Z' c then c + 32 else c

-- `strcmp(a, b) == 0`, which is all that the program asks of `compare_strings`
unfoldable pub strcmp_eq : Bytes → Bytes → Bool
strcmp_eq [] [] = true
strcmp_eq [] (y ∷ ys) = false
strcmp_eq (x ∷ xs) [] = false
strcmp_eq (x ∷ xs) (y ∷ ys) = x == y && strcmp_eq xs ys

-- `strcasecmp(a, b) == 0`
unfoldable pub strcasecmp_eq : Bytes → Bytes → Bool
unfolding to_lower
strcasecmp_eq [] [] = true
strcasecmp_eq [] (y ∷ ys) = false
strcasecmp_eq (x ∷ xs) [] = false
strcasecmp_eq (x ∷ xs) (y ∷ ys) = to_lower x == to_lower y && strcasecmp_eq xs ys

-- all_upper and all_lower, in place
unfoldable pub all_upper : Bytes → Bytes
unfolding to_upper
all_upper [] = []
all_upper (c ∷ s) = to_upper c ∷ all_upper s

unfoldable pub all_lower : Bytes → Bytes
unfolding to_lower
all_lower [] = []
all_lower (c ∷ s) = to_lower c ∷ all_lower s

unfoldable pub is_vowel : ℕ → Bool
unfolding to_lower
is_vowel c = let l = to_lower c in l == b'a' || l == b'e' || l == b'i' || l == b'o' || l == b'u'
