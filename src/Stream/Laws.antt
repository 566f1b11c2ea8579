-- ===== src/Stream/Laws.antt =====
-- What was written is read back, whatever follows it in the file.
use mathlib.Core.List.{append_assoc}
use native.Mathlib.Nat.{pow-suc}
use netcosm.Base.{
  ℕ, zero, suc, ◌*◌, ◌/◌, ◌^◌, ◌<◌, ◌≡◌, refl, ap, ◌∙◌, List, [], ◌∷◌, ◌++◌, length, take, drop,
  length-append, arith,
}
use netcosm.Base.Run.{ok, ◌>>=◌}
use netcosm.Base.Words.{u64_mod}
use netcosm.Stream.{le_bytes, le_value, read_exact, read_word, read_string, write_string, read_size}
use netcosm.Text.{Bytes}

pub length-le_bytes : (w n : ℕ) → length (le_bytes w n) ≡ w
unfolding le_bytes
length-le_bytes zero n = refl
length-le_bytes (suc w) n = ap suc (length-le_bytes w (n / 256))

pub le_value-le_bytes : (w n : ℕ) → n < 256 ^ w → le_value (le_bytes w n) ≡ n
unfolding le_value le_bytes
le_value-le_bytes zero n h = omega (arith, h)
le_value-le_bytes (suc w) n h =
    let wide : n < 256 ^ w * 256 = simp pow-suc at h in
    rw (le_value-le_bytes w (n / 256) (omega (arith, wide))) (omega arith)

pub take_prefix {ℓ} :
    {A : Type ℓ} (xs ys : List A)
    → (take (length xs) (xs ++ ys) ≡ xs) × (drop (length xs) (xs ++ ys) ≡ ys)
take_prefix [] ys = (refl, refl)
take_prefix (x ∷ xs) ys = let (t, d) = take_prefix xs ys in (ap (λ t. x ∷ t) t, d)

-- Reading as many bytes as were written gives them back.
pub read_exact-append : (s rest : Bytes) → read_exact (length s) (s ++ rest) ≡ ok (s, rest)
unfolding read_exact
read_exact-append s rest =
    let (t, d) = take_prefix s rest in rw (t, d, length-append) (ground arith)

-- An unsigned integer that fits its width is read back.
pub read_word-le_bytes :
    (w n : ℕ) (rest : Bytes) → n < 256 ^ w → read_word w (le_bytes w n ++ rest) ≡ ok (n, rest)
unfolding read_word
read_word-le_bytes w n rest h =
    let e : read_exact w (le_bytes w n ++ rest) ≡ ok (le_bytes w n, rest) =
      rw (length-le_bytes w n) at (read_exact-append (le_bytes w n) rest) in
    rw (e, le_value-le_bytes w n h)

-- A string shorter than 2 ^ 64 bytes is read back, with what follows it left in the file.
pub read_string-write_string :
    (s rest : Bytes) → length s < u64_mod → read_string (write_string s ++ rest) ≡ ok (s, rest)
unfolding read_string write_string read_size
read_string-write_string s rest h =
    let e : write_string s ++ rest ≡ le_bytes 8 (length s) ++ (s ++ rest) = append_assoc _ s rest in
    ap read_string e
    ∙ (ap (λ r. r >>= λ r. read_exact r.0 r.1) (read_word-le_bytes 8 (length s) (s ++ rest) h)
        ∙ read_exact-append s rest)
