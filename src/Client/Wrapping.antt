-- ===== src/Client/Wrapping.antt =====
-- What `out` of src/client.c writes.
use native.Mathlib.Nat.{mul-le-mul_right}
use netcosm.Base.{
  ℕ, zero, suc, ◌+◌, ◌*◌, ◌^◌, ◌≤◌, ◌<◌, ◌≡◌, refl, ap, sym, ◌∙◌, some, [], ◌∷◌, ◌++◌, length, take,
  drop, get_or, ◌==◌, if◌then◌else◌, take-append-drop, length-take, arith,
}
use netcosm.Client.Output.{
  Wrapped, with_line, cut_at, after_line, Step, stop, break_line, advance, look, wrap_loop, out,
}
use netcosm.Text.{Bytes, IsCString}
use netcosm.Client.Cutting.{
  ink, texts, ink-append, Keeps, length-of_end, Ready, Ends, Seen, look-Seen, cut_at_bounds,
  after_line-Cuts,
}

step-Ends :
    (fuel w last pos : ℕ) (ptr : Bytes)
    → ((last' pos' : ℕ) (ptr' : Bytes) → Ready fuel w last' pos' ptr' → Ends fuel w last' pos' ptr')
    → Ready (suc fuel) w last pos ptr
    → (s : Step) → look w pos ptr ≡ s
    → Seen w pos ptr s
    → Ends (suc fuel) w last pos ptr
unfolding wrap_loop texts
step-Ends fuel w last pos ptr ih ready stop e end = (
  record { lines = []; rest = ptr; pos = pos },
  rw (wrap_loop, e),
  record {
    whole = refl;
    lines_fit = tt;
    rest_fits = omega (arith, ready.placed, length-of_end ptr pos ready.text end);
    pos_fits = ready.placed;
  },
)
step-Ends fuel w last pos ptr ih ready advance e room =
    let (r, run, keeps) =
      ih (if get_or ptr pos 0 == b' ' then pos else last) (pos + 1) ptr (record {
        wide = ready.wide;
        narrow = ready.narrow;
        placed = omega (arith, room);
        spaced = ground (arith, ready.spaced);
        text = ready.text;
        enough = omega (arith, ready.enough, room);
      }) in
    (r, rw (wrap_loop, e, run), keeps)
step-Ends fuel w last pos ptr ih ready (break_line newline) e seen =
    let cut : ℕ = cut_at newline last pos in
    let c = after_line-Cuts newline w last pos ptr ready.wide ready.spaced ready.text seen in
    let after : Bytes = after_line newline cut ptr in
    let less : length after * (w + 2) + (w + 2) ≤ length ptr * (w + 2) =
      omega (arith, mul-le-mul_right (w + 2) c.shorter) in
    let (within, _, _) = cut_at_bounds newline last pos ready.spaced in
    let (r, run, keeps) = ih 0 0 after (record {
      wide = ready.wide;
      narrow = ready.narrow;
      placed = omega arith;
      spaced = omega arith;
      text = c.text;
      enough = omega (arith, ready.enough, less);
    }) in
    (
      with_line (take cut ptr) r,
      rw (wrap_loop, e, run),
      record {
        whole =
            ink-append (take cut ptr) (texts r.lines r.rest)
            ∙ ap (λ t. ink (take cut ptr) ++ t) (keeps.whole ∙ c.shown)
            ∙ sym (ink-append (take cut ptr) (drop cut ptr))
            ∙ ap ink (take-append-drop cut ptr);
        lines_fit = (omega (arith, within, ready.placed, length-take cut ptr), keeps.lines_fit);
        rest_fits = keeps.rest_fits;
        pos_fits = keeps.pos_fits;
      },
    )

wrap_loop-Ends :
    (fuel w last pos : ℕ) (ptr : Bytes) → Ready fuel w last pos ptr → Ends fuel w last pos ptr
wrap_loop-Ends zero w last pos ptr ready = absurd (omega (arith, ready.enough))
wrap_loop-Ends (suc fuel) w last pos ptr ready =
    step-Ends fuel w last pos ptr (wrap_loop-Ends fuel w) ready (look w pos ptr) refl
      (look-Seen w pos ptr ready.narrow)

IsCString-take : (n : ℕ) (s : Bytes) → IsCString s → IsCString (take n s)
IsCString-take zero s h = tt
IsCString-take (suc n) [] h = tt
IsCString-take (suc n) (c ∷ s) h = (h.0, IsCString-take n s h.1)

-- For a terminal from 1 to 65534 columns wide and a column within it, `out` ends. Every line that it
-- writes and the rest behind them have at most as many characters as the terminal has columns, the
-- column afterwards lies within it, and all characters but spaces and newlines of the first 1023 bytes
-- of the text are written, in their order.
pub out-Keeps :
    (w pos : ℕ) (text : Bytes)
    → 1 ≤ w
    → w + 1 < 2 ^ 16
    → pos ≤ w
    → IsCString text
    → (r : Wrapped) × (out w pos text ≡ some r) × Keeps w (take 1023 text) r
unfolding out
out-Keeps w pos text wide narrow placed clean =
    let buf : Bytes = take 1023 text in
    wrap_loop-Ends ((length buf + 1) * (w + 2) + 1) w 0 pos buf (record {
      wide = wide;
      narrow = narrow;
      placed = placed;
      spaced = omega arith;
      text = IsCString-take 1023 text clean;
      enough = grind arith;
    })
