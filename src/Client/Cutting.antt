-- ===== src/Client/Cutting.antt =====
-- src/client.c: what a round of the loop of `out` sees and leaves.
use netcosm.Base.{
  Bool-cases, ℕ, zero, suc, ◌+◌, ◌-◌, ◌*◌, ◌%◌, ◌^◌, ◌≤◌, ◌<◌, ◌≡◌, refl, ◌∙◌, inl, inr, Bool, true,
  false, ◌||◌, some, List, [], ◌∷◌, ◌++◌, length, drop, get_or, leb, ◌==◌, if◌then◌else◌,
  length-drop, arith,
}
use netcosm.Client.Output.{
  Wrapped, skip_spaces, cut_at, after_line, Step, stop, break_line, advance, look, wrap_loop,
  is_newline,
}
use netcosm.Text.{Bytes, IsCString}

-- The characters that show: neither spaces nor newlines.
unfoldable pub ink : Bytes → Bytes
ink [] = []
ink (c ∷ s) = if c == b' ' || c == b'\n' then ink s else c ∷ ink s

-- The text of all lines and of the rest.
unfoldable pub texts : List Bytes → Bytes → Bytes
texts [] rest = rest
texts (l ∷ ls) rest = l ++ texts ls rest

abbrev pub Fit : ℕ → List Bytes → Type 0
Fit w [] = Unit
Fit w (l ∷ ls) = (length l ≤ w) × Fit w ls

pub ink-append : (a b : Bytes) → ink (a ++ b) ≡ ink a ++ ink b
unfolding ink
ink-append [] b = refl
ink-append (c ∷ a) b = ground (arith, ink-append a b)

pub ink-skip_spaces : (s : Bytes) → ink (skip_spaces s) ≡ ink s
unfolding ink skip_spaces
ink-skip_spaces [] = refl
ink-skip_spaces (c ∷ s) = ground (arith, ink-skip_spaces s)

pub length-skip_spaces : (s : Bytes) → length (skip_spaces s) ≤ length s
unfolding skip_spaces
length-skip_spaces [] = omega arith
length-skip_spaces (c ∷ s) = ground (arith, length-skip_spaces s)

-- A newline at `n` does not show.
pub ink-drop_newline :
    (n : ℕ) (s : Bytes) → get_or s n 0 ≡ b'\n' → ink (drop 1 (drop n s)) ≡ ink (drop n s)
unfolding ink
ink-drop_newline zero [] h = refl
ink-drop_newline zero (c ∷ s) h = ground (arith, h)
ink-drop_newline (suc n) [] h = refl
ink-drop_newline (suc n) (c ∷ s) h = ink-drop_newline n s h

pub get_or-beyond : (s : Bytes) (n : ℕ) → length s ≤ n → get_or s n 0 ≡ 0
get_or-beyond [] n h = refl
get_or-beyond (c ∷ s) zero h = absurd (omega (arith, h))
get_or-beyond (c ∷ s) (suc n) h = get_or-beyond s n (omega (arith, h))

-- What the rest of a text and its lines amount to.
pub record Keeps (w : ℕ) (text : Bytes) (r : Wrapped) : Type 0 where
  pub whole : ink (texts r.lines r.rest) ≡ ink text
  pub lines_fit : Fit w r.lines
  pub rest_fits : length r.rest ≤ w
  pub pos_fits : r.pos ≤ w

pub get_or-bound : (s : Bytes) (n : ℕ) → (get_or s n 0 == 0) ≡ false → n < length s
get_or-bound [] n h = ground (arith, h)
get_or-bound (c ∷ s) zero h = omega arith
get_or-bound (c ∷ s) (suc n) h = omega (arith, get_or-bound s n h)

pub IsCString-drop : (n : ℕ) (s : Bytes) → IsCString s → IsCString (drop n s)
IsCString-drop zero s h = h
IsCString-drop (suc n) [] h = tt
IsCString-drop (suc n) (c ∷ s) h = IsCString-drop n s h.1

pub IsCString-skip_spaces : (s : Bytes) → IsCString s → IsCString (skip_spaces s)
unfolding skip_spaces
IsCString-skip_spaces [] h = tt
IsCString-skip_spaces (c ∷ s) h = elim (Bool-cases (c == b' ')) [
  | inl space ↦ rw space (IsCString-skip_spaces s h.1)
  | inr other ↦ rw other h
]

pub length-of_end : (s : Bytes) (n : ℕ) → IsCString s → (get_or s n 0 == 0) ≡ true → length s ≤ n
length-of_end [] n h e = omega arith
length-of_end (c ∷ s) zero h e = ground (arith, h)
length-of_end (c ∷ s) (suc n) h e = omega (arith, length-of_end s n h.1 e)

-- What the loop may count on: a width that `line_width` can hold, a place in the line, and fuel.
pub record Ready (fuel w last pos : ℕ) (ptr : Bytes) : Type 0 where
  pub wide : 1 ≤ w
  pub narrow : w + 1 < 2 ^ 16
  pub placed : pos ≤ w
  pub spaced : last ≤ pos
  pub text : IsCString ptr
  pub enough : length ptr * (w + 2) + (w + 1 - pos) < fuel

abbrev pub Ends : ℕ → ℕ → ℕ → ℕ → Bytes → Type 0
Ends fuel w last pos ptr = (r : Wrapped) × (wrap_loop fuel w last pos ptr ≡ some r) × Keeps w ptr r

-- What a round of the loop has seen.
abbrev pub Seen : ℕ → ℕ → Bytes → Step → Type 0
Seen w pos ptr stop = (get_or ptr pos 0 == 0) ≡ true
Seen w pos ptr (break_line true) = (get_or ptr pos 0 ≡ b'\n') × (pos < length ptr)
Seen w pos ptr (break_line false) = (w ≤ pos) × (pos < length ptr)
Seen w pos ptr advance = pos < w

pub look-Seen : (w pos : ℕ) (ptr : Bytes) → w + 1 < 2 ^ 16 → Seen w pos ptr (look w pos ptr)
unfolding look
look-Seen w pos ptr h = elim (Bool-cases (get_or ptr pos 0 == 0)) [
  | inl done ↦ rw done done
  | inr more ↦ elim (Bool-cases (is_newline (get_or ptr pos 0))) [
    | inl newline ↦ rw (more, newline) (ground (arith, newline), get_or-bound ptr pos more)
    | inr other ↦ elim (Bool-cases (leb ((w + 1) % 2 ^ 16 - 1) pos)) [
      | inl full ↦ rw (more, other, full) (ground (arith, h, full), get_or-bound ptr pos more)
      | inr room ↦ rw (more, other, room) (ground (arith, h, room))
    ]
  ]
]

-- A cut lies in the line, and behind the first character where there is no newline.
pub cut_at_bounds :
    (newline : Bool) (last pos : ℕ)
    → last ≤ pos
    → (cut_at newline last pos ≤ pos)
      × (cut_at true last pos ≡ pos)
      × (1 ≤ pos → 1 ≤ cut_at false last pos)
unfolding cut_at
cut_at_bounds newline last pos h = (ground (arith, h), refl, λ p. ground (arith, p))

-- A line that is cut is not empty with its newline, and what is cut away of it does not show.
pub record Cuts (newline : Bool) (cut : ℕ) (ptr : Bytes) : Type 0 where
  pub shorter : length (after_line newline cut ptr) + 1 ≤ length ptr
  pub shown : ink (after_line newline cut ptr) ≡ ink (drop cut ptr)
  pub text : IsCString (after_line newline cut ptr)

pub after_line-Cuts :
    (newline : Bool) (w last pos : ℕ) (ptr : Bytes)
    → 1 ≤ w
    → last ≤ pos
    → IsCString ptr
    → Seen w pos ptr (break_line newline)
    → Cuts newline (cut_at newline last pos) ptr
unfolding after_line
after_line-Cuts true w last pos ptr wide spaced text (newline, inside) =
    let (_, same, _) = cut_at_bounds true last pos spaced in
    let rest : Bytes = drop 1 (drop pos ptr) in
    rw same (record {
      shorter = omega (
        arith,
        inside,
        length-skip_spaces rest,
        length-drop 1 (drop pos ptr),
        length-drop pos ptr,
      );
      shown = ink-skip_spaces rest ∙ ink-drop_newline pos ptr newline;
      text =
          IsCString-skip_spaces rest
            (IsCString-drop 1 (drop pos ptr) (IsCString-drop pos ptr text));
    })
after_line-Cuts false w last pos ptr wide spaced text (full, inside) =
    let cut : ℕ = cut_at false last pos in
    let (within, _, some_of) = cut_at_bounds false last pos spaced in
    let rest : Bytes = drop cut ptr in
    record {
      shorter = omega (
        arith,
        inside,
        within,
        some_of (omega arith),
        length-skip_spaces rest,
        length-drop cut ptr,
      );
      shown = ink-skip_spaces rest;
      text = IsCString-skip_spaces rest (IsCString-drop cut ptr text);
    }
