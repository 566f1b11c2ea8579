-- ===== src/Text/Concat.antt =====
-- src/util.c: `strlcat`. A buffer of `siz` bytes is given by the string that it holds.
use Prim.Native.Nat.{min}
use native.Mathlib.Nat.{sub-zero}
use netcosm.Base.{
  ◌∙◌, ℕ, zero, suc, ◌+◌, ◌-◌, ◌≤◌, ◌<◌, ◌≡◌, refl, ap, List, [], ◌∷◌, ◌++◌, length, take, ◌==◌,
  if◌then◌else◌, length-append, arith, length-take,
}
use netcosm.Text.{Bytes}

-- The copying loop, with `n` bytes left in the buffer: what it appends.
unfoldable pub copy_loop : ℕ → Bytes → Bytes
copy_loop n [] = []
copy_loop n (c ∷ s) =
    let here = c ∷ copy_loop (n - 1) s in let over = copy_loop n s in if n == 1 then over else here

-- The new contents and the return value. `dlen` is where the first loop stops.
unfoldable pub strlcat : Bytes → Bytes → ℕ → Bytes × ℕ
unfolding copy_loop
strlcat dst src siz =
    let dlen = min siz (length dst) in
    let n = siz - dlen in
    if n == 0 then (dst, dlen + length src) else (dst ++ copy_loop n src, dlen + length src)

copy_loop-take : (n : ℕ) (s : Bytes) → copy_loop (suc n) s ≡ take n s
unfolding copy_loop
copy_loop-take zero [] = refl
copy_loop-take (suc n) [] = refl
copy_loop-take zero (c ∷ s) = copy_loop-take 0 s
copy_loop-take (suc n) (c ∷ s) =
    let less : suc (suc n) - 1 ≡ suc n = omega arith in
    ground (arith, less, ap (λ k. copy_loop k s) less, copy_loop-take n s)

take-append {ℓ} :
    {A : Type ℓ} (xs ys : List A) (n : ℕ)
    → length xs ≤ n
    → take n (xs ++ ys) ≡ xs ++ take (n - length xs) ys
take-append [] ys n h = rw (sub-zero n)
take-append (x ∷ xs) ys zero h = absurd (omega arith)
take-append (x ∷ xs) ys (suc n) h =
    let e : suc n - suc (length xs) ≡ n - length xs = omega arith in
    rw e (ap (λ t. x ∷ t) (take-append xs ys n (omega arith)))

take_all {ℓ} : {A : Type ℓ} (n : ℕ) (xs : List A) → length xs ≤ n → take n xs ≡ xs
take_all zero [] h = refl
take_all zero (x ∷ xs) h = absurd (omega arith)
take_all (suc n) [] h = refl
take_all (suc n) (x ∷ xs) h = ap (λ t. x ∷ t) (take_all n xs (omega arith))

pub strlcat_cut :
    (dst src : Bytes) (siz : ℕ)
    → length dst < siz
    → (strlcat dst src siz).0 ≡ take (siz - 1) (dst ++ src)
unfolding strlcat
strlcat_cut dst src siz h =
    let room : siz - min siz (length dst) ≡ suc (siz - 1 - length dst) = omega arith in
    rw (room, copy_loop-take, take-append dst src (siz - 1) (omega arith)) (ground arith)

-- The contract of `strlcat`: it returns the length of `src` and that of `dst` or the size, whichever
-- is less. Where `dst` ends inside the buffer, the result is the concatenation cut to one byte less
-- than the buffer, and it is the whole one if what is returned is less than the size. Else nothing is
-- written.
pub strlcat-take :
    (dst src : Bytes) (siz : ℕ)
    → let (out, ret) = strlcat dst src siz in
      (ret ≡ length src + min siz (length dst))
      × (length dst < siz → out ≡ take (siz - 1) (dst ++ src))
      × (length dst < siz → ret < siz → out ≡ dst ++ src)
      × (siz ≤ length dst → out ≡ dst)
unfolding strlcat
strlcat-take dst src siz = (
  ground arith,
  λ h. strlcat_cut dst src siz h,
  λ h r. strlcat_cut dst src siz h ∙ take_all _ _ (rw length-append (ground arith)),
  λ h. ground arith,
)

-- A buffer that held a string still does.
pub strlcat_bounded :
    (dst src : Bytes) (siz : ℕ) → length dst < siz → length (strlcat dst src siz).0 < siz
strlcat_bounded dst src siz h = rw (strlcat_cut dst src siz h, length-take) (omega arith)
