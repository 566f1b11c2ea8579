-- ===== src/Text/Noun.antt =====
-- src/util.c: `format_noun`, built by `strlcat` in a buffer of `len` bytes. A name of no bytes with no
-- article makes the C code read behind its end; the run is given up there.
use mathlib.Core.List.{flatten, append-nil, append_assoc}
use netcosm.Base.{
  ℕ, zero, suc, ◌+◌, ◌-◌, ◌%◌, ◌/◌, ◌<◌, ◌≡◌, ◌≢◌, refl, ap, sym, inl, inr, Bool-cases, drop, ◌∙◌,
  Bool, List, [], ◌∷◌, ◌++◌, take, ltb, ◌==◌, if◌then◌else◌, length-take, arith,
}
use netcosm.Base.Run.{Run, ok, abort, assert, ◌>>◌}
use netcosm.Text.Concat.{strlcat, strlcat_cut}
use netcosm.Text.{Bytes, ascii, to_upper, is_vowel}

-- `%zu`; a `size_t` has twenty digits at most
unfoldable pub decimal : ℕ → ℕ → Bytes → Bytes
decimal zero n acc = acc
decimal (suc f) n acc =
    let more = decimal f (n / 10) ((b'0' + n % 10) ∷ acc) in
    if ltb n 10 then (b'0' + n) ∷ acc else more

abbrev pub digits : ℕ → Bytes
digits n = decimal 20 n []

abbrev pub first_byte : Bytes → ℕ
first_byte [] = 0
first_byte (c ∷ s) = c

abbrev pub article : Bytes → Bool → Bytes
article name capitalize =
    if capitalize
    then (if is_vowel (first_byte name) then ascii "An" else ascii "A")
    else (if is_vowel (first_byte name) then ascii "an" else ascii "a")

-- The calls of `strlcat` in turn, from an empty buffer.
unfoldable pub cat_all : ℕ → Bytes → List Bytes → Bytes
cat_all len buf [] = buf
cat_all len buf (s ∷ ss) = cat_all len (strlcat buf s len).0 ss

unfoldable pub capital_noun : ℕ → Bytes → Run Bytes
unfolding cat_all
capital_noun len [] = abort
capital_noun len (c ∷ s) = ok (cat_all len [] ((to_upper c ∷ []) ∷ s ∷ []))

unfoldable pub format_noun : ℕ → Bytes → ℕ → Bool → Bool → Run Bytes
unfolding cat_all capital_noun
format_noun len name count default_article capitalize =
    assert (ltb 1 len)
    >> (if count == 1
        then (if default_article
            then ok (cat_all len [] (article name capitalize ∷ ascii " " ∷ name ∷ []))
            else capital_noun len name)
        else ok (cat_all len [] (digits count ∷ ascii " " ∷ name ∷ ascii "s" ∷ [])))

-- The phrase that `format_noun` is to write: one thing by its article or by a capital letter, any
-- other number by its digits and a plural.
pub noun_phrase : Bytes → ℕ → Bool → Bool → Bytes
noun_phrase name count default_article capitalize =
    if count == 1
    then (if default_article
        then article name capitalize ++ (ascii " " ++ name)
        else to_upper (first_byte name) ∷ drop 1 name)
    else digits count ++ (ascii " " ++ (name ++ ascii "s"))

take-take-append {ℓ} :
    {A : Type ℓ} (n : ℕ) (xs ys : List A) → take n (take n xs ++ ys) ≡ take n (xs ++ ys)
take-take-append zero xs ys = refl
take-take-append (suc n) [] ys = refl
take-take-append (suc n) (x ∷ xs) ys = ap (λ t. x ∷ t) (take-take-append n xs ys)

cat_all-flatten :
    (len : ℕ) (buf : Bytes) (ss : List Bytes)
    → 0 < len
    → cat_all len (take (len - 1) buf) ss ≡ take (len - 1) (buf ++ flatten ss)
unfolding cat_all flatten
cat_all-flatten len buf [] h = rw append-nil
cat_all-flatten len buf (s ∷ ss) h =
    let step : (strlcat (take (len - 1) buf) s len).0 ≡ take (len - 1) (buf ++ s) =
      strlcat_cut (take (len - 1) buf) s len (rw length-take (omega arith))
      ∙ take-take-append (len - 1) buf s in
    rw (step, cat_all-flatten len (buf ++ s) ss h, append_assoc)

take_nil {ℓ} : {A : Type ℓ} (n : ℕ) → take {A = A} n [] ≡ []
take_nil zero = refl
take_nil (suc n) = refl

cat_all_empty :
    (len : ℕ) (ss : List Bytes) → 0 < len → cat_all len [] ss ≡ take (len - 1) (flatten ss)
cat_all_empty len ss h =
    ap (λ b. cat_all len b ss) (sym (take_nil (len - 1))) ∙ cat_all-flatten len [] ss h

-- Into a buffer of two bytes or more `format_noun` writes the phrase, cut to one byte less than the
-- buffer; a smaller buffer is refused by its assertion.
pub format_noun-phrase :
    (len : ℕ) (name : Bytes) (count : ℕ) (default_article capitalize : Bool)
    → name ≢ []
    → format_noun len name count default_article capitalize ≡ (
        if ltb 1 len
        then ok (take (len - 1) (noun_phrase name count default_article capitalize))
        else abort)
unfolding format_noun noun_phrase flatten
format_noun-phrase len [] count default_article capitalize h = absurd (h refl)
format_noun-phrase len (c ∷ s) count default_article capitalize h = elim (Bool-cases (ltb 1 len)) [
  | inr small ↦ rw small
  | inl wide ↦
      let cut = λ (ss : List Bytes). cat_all_empty len ss (ground (arith, wide)) in
      let name = c ∷ s in
      let a = article name capitalize in
      let one : cat_all len [] (a ∷ ascii " " ∷ name ∷ [])
          ≡ take (len - 1) (a ++ (ascii " " ++ name)) =
        cut (article (c ∷ s) capitalize ∷ ascii " " ∷ (c ∷ s) ∷ []) ∙ rw append-nil in
      let capital : cat_all len [] ((to_upper c ∷ []) ∷ s ∷ []) ≡ take (len - 1) (to_upper c ∷ s) =
        cut ((to_upper c ∷ []) ∷ s ∷ []) ∙ rw append-nil in
      let many : cat_all len [] (digits count ∷ ascii " " ∷ name ∷ ascii "s" ∷ [])
          ≡ take (len - 1) (digits count ++ (ascii " " ++ (name ++ ascii "s"))) =
        cut (digits count ∷ ascii " " ∷ (c ∷ s) ∷ ascii "s" ∷ []) in
      ground (arith, wide, one, capital, many)
]
