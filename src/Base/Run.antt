-- ===== src/Base/Run.antt =====
-- A run of C code that may end the process: `error` of util.c and a failed `assert` both abort.
use mathlib.Core.Bool.{Bool, true, false}
use mathlib.Core.Logic.{◌⊎◌, inl, inr}
use mathlib.Core.Path.{◌≡◌, refl, subst}

pub data Run {ℓ} (A : Type ℓ) : Type ℓ where
  ok : A → Run A
  abort : Run A

module _ {ℓ κ} {A : Type ℓ} {B : Type κ} where
  infixl 5 ◌>>=◌ ◌>>◌
  -- The rest of a run, which an abort skips.
  abbrev pub ◌>>=◌ : (first : Run A) (rest : A → Run B) → Run B
  abort >>= rest = abort
  ok a >>= rest = rest a

  abbrev pub ◌>>◌ : (first : Run A) (rest : Run B) → Run B
  first >> rest = first >>= λ _. rest

-- `assert(b)`
abbrev pub assert : Bool → Run (Unit {0})
assert true = ok tt
assert false = abort

-- The run does not abort, and what it returns is `Good`.
module _ {ℓ κ} {A : Type ℓ} where
  abbrev pub Returns : (first : Run A) (Good : A → Type κ) → Type (ℓ ⊔ κ)
  Returns first Good = (result : A) × (first ≡ ok result) × Good result

pub Run-cases {ℓ} : {A : Type ℓ} (r : Run A) → (r ≡ abort) ⊎ ((a : A) × (r ≡ ok a))
Run-cases (ok a) = inr (a, refl)
Run-cases abort = inl refl

-- What the run returns is `Good`, if it returns.
module _ {ℓ κ} {A : Type ℓ} where
  unfoldable pub AfterOk : (Good : A → Type κ) (first : Run A) → Type κ
  AfterOk Good abort = Unit
  AfterOk Good (ok a) = Good a

pub AfterOk-bind {ℓ κ} :
    {A B : Type ℓ} (Good : A → Type κ) (Best : B → Type κ) (first : Run A) (rest : A → Run B)
    → AfterOk Good first
    → ((a : A) → Good a → AfterOk Best (rest a))
    → AfterOk Best (first >>= rest)
unfolding AfterOk
AfterOk-bind Good Best abort rest h k = tt
AfterOk-bind Good Best (ok a) rest h k = k a h

pub AfterOk-ok {ℓ κ} :
    {A : Type ℓ} (Good : A → Type κ) (first : Run A) (a : A)
    → AfterOk Good first
    → first ≡ ok a
    → Good a
unfolding AfterOk
AfterOk-ok Good first a h e = subst (AfterOk Good) e h

pub AfterOk-any {ℓ κ} :
    {A : Type ℓ} (Good : A → Type κ) (first : Run A) → ((a : A) → Good a) → AfterOk Good first
unfolding AfterOk
AfterOk-any Good abort k = tt
AfterOk-any Good (ok a) k = k a

pub AfterOk-imp {ℓ κ} :
    {A : Type ℓ} (Good Best : A → Type κ) (first : Run A)
    → ((a : A) → Good a → Best a)
    → AfterOk Good first
    → AfterOk Best first
unfolding AfterOk
AfterOk-imp Good Best abort k h = tt
AfterOk-imp Good Best (ok a) k h = k a h
