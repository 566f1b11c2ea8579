-- ===== src/Client/Output.antt =====
-- src/client.c: `out`, which breaks a text into lines. A line is written with CR and LF behind it, and
-- the rest of the text as it is. The static `pos` goes on from call to call.
use netcosm.Base.{
  ℕ, zero, suc, ◌+◌, ◌-◌, ◌*◌, ◌%◌, ◌^◌, Bool, true, false, ◌||◌, Option, none, some, List, [], ◌∷◌,
  length, take, drop, get_or, leb, ◌==◌, if◌then◌else◌,
}
use netcosm.Text.{Bytes}

-- The lines that were written, the rest behind them, and `pos` afterwards.
pub record Wrapped : Type 0 where
  pub lines : List Bytes
  pub rest : Bytes
  pub pos : ℕ

abbrev pub with_line : Bytes → Wrapped → Wrapped
with_line line r = record r { lines = line ∷ r.lines }

abbrev pub is_newline : ℕ → Bool
is_newline c = c == b'\n'

unfoldable pub skip_spaces : Bytes → Bytes
skip_spaces [] = []
skip_spaces (c ∷ s) = if c == b' ' then skip_spaces s else c ∷ s

-- Where the line is cut: at the newline, or at the last space, or where there is none at `pos`.
unfoldable pub cut_at : Bool → ℕ → ℕ → ℕ
cut_at newline last_space pos = if newline || last_space == 0 then pos else last_space

-- What is left behind a line that was cut.
unfoldable pub after_line : Bool → ℕ → Bytes → Bytes
unfolding skip_spaces
after_line newline cut ptr = skip_spaces (if newline then drop 1 (drop cut ptr) else drop cut ptr)

-- One round of the loop on `ptr[pos]`: stop, cut a line at a place, or take the next character.
pub data Step : Type 0 where
  stop : Step
  break_line : Bool → Step
  advance : Step

-- `line_width - 1` is 0 here where the code has -1, which is as small for the comparison.
unfoldable pub look : ℕ → ℕ → Bytes → Step
look width pos ptr =
    let c = get_or ptr pos 0 in
    let line_width = (width + 1) % 2 ^ 16 in
    if c == 0
    then stop
    else if is_newline c
    then break_line true
    else if leb (line_width - 1) pos
    then break_line false
    else advance

-- The loop, on fuel; `none` means that the fuel ran out.
unfoldable pub wrap_loop : ℕ → ℕ → ℕ → ℕ → Bytes → Option Wrapped
unfolding look cut_at after_line
wrap_loop zero width last_space pos ptr = none
wrap_loop (suc fuel) width last_space pos ptr = elim (look width pos ptr) [
  | stop ↦ some (record { lines = []; rest = ptr; pos = pos })
  | break_line newline ↦
      let cut = cut_at newline last_space pos in
      elim (wrap_loop fuel width 0 0 (after_line newline cut ptr)) [
        | none ↦ none
        | some r ↦ some (with_line (take cut ptr) r)
      ]
  | advance ↦
      wrap_loop fuel width (if get_or ptr pos 0 == b' ' then pos else last_space) (pos + 1) ptr
]

-- `out`, on the text that was formatted, of which vsnprintf keeps 1023 bytes.
unfoldable pub out : ℕ → ℕ → Bytes → Option Wrapped
unfolding wrap_loop
out width pos text =
    let buf = take 1023 text in wrap_loop ((length buf + 1) * (width + 2) + 1) width 0 pos buf
