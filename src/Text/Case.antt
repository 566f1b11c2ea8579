-- ===== src/Text/Case.antt =====
-- Comparison of strings with and without regard to case, and the two case conversions.
use netcosm.Base.{◌≡◌, refl, ◌↔◌, true, [], ◌∷◌, arith}
use netcosm.Text.{Bytes, strcmp_eq, strcasecmp_eq, all_upper, all_lower}

-- `strcmp` is equality of strings.
pub strcmp_eq_iff : (a b : Bytes) → (strcmp_eq a b ≡ true) ↔ (a ≡ b)
unfolding strcmp_eq
strcmp_eq_iff [] [] = (λ h. refl, λ h. refl)
strcmp_eq_iff [] (y ∷ ys) = (λ h. cc, λ h. cc)
strcmp_eq_iff (x ∷ xs) [] = (λ h. cc, λ h. cc)
strcmp_eq_iff (x ∷ xs) (y ∷ ys) =
    let (to, from) = strcmp_eq_iff xs ys in (λ h. ground (arith, to), λ h. ground (arith, from))

-- `strcasecmp` is equality after `all_lower`.
pub strcasecmp-all_lower : (a b : Bytes) → strcasecmp_eq a b ≡ strcmp_eq (all_lower a) (all_lower b)
unfolding strcasecmp_eq strcmp_eq all_lower
strcasecmp-all_lower [] [] = refl
strcasecmp-all_lower [] (y ∷ ys) = refl
strcasecmp-all_lower (x ∷ xs) [] = refl
strcasecmp-all_lower (x ∷ xs) (y ∷ ys) = rw (strcasecmp-all_lower xs ys)

-- Converting twice is converting once, and the last conversion wins.
pub all_lower_idem : (s : Bytes) → all_lower (all_lower s) ≡ all_lower s
unfolding all_lower
all_lower_idem [] = refl
all_lower_idem (c ∷ s) = ground (arith, all_lower_idem s)

pub all_lower-all_upper : (s : Bytes) → all_lower (all_upper s) ≡ all_lower s
unfolding all_lower all_upper
all_lower-all_upper [] = refl
all_lower-all_upper (c ∷ s) = ground (arith, all_lower-all_upper s)

-- Neither conversion changes what `strcasecmp` sees.
pub strcasecmp-cases :
    (s : Bytes) → (strcasecmp_eq (all_upper s) s ≡ true) × (strcasecmp_eq (all_lower s) s ≡ true)
strcasecmp-cases s = (
  rw strcasecmp-all_lower ((strcmp_eq_iff _ _).1 (all_lower-all_upper s)),
  rw strcasecmp-all_lower ((strcmp_eq_iff _ _).1 (all_lower_idem s)),
)
