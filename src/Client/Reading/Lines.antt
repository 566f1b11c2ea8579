-- ===== src/Client/Reading/Lines.antt =====
-- src/client.c: lines that reach client_read in several pieces, and lines that are too long.
use mathlib.Core.List.{append_assoc, append-nil}
use netcosm.Base.{
  ℕ, zero, suc, ◌+◌, ◌-◌, ◌<◌, ◌≤◌, Bool, true, false, ◌||◌, List, [], ◌∷◌, ◌++◌, length,
  length-append, length-take, take, drop, is_empty, if◌then◌else◌, ◌≡◌, refl, sym, ap, ◌∙◌, arith,
  inl, inr, Bool-cases,
}
use netcosm.Base.Run.{ok}
use netcosm.Client.Reading.{client_read, client_read_sz, failed, left, line}
use netcosm.Telnet.Laws.{filled, has, interrupts, telnet_parse_data-verdict, verdict}
use netcosm.Telnet.{Terminal, telnet_parse_data, telnet_data, telnet_lineover}
use netcosm.Text.Cruft.{remove_cruft}
use netcosm.Text.{Bytes}

-- Neither an IAC nor a NUL.
abbrev pub IsPlain : Bytes → Type 0
IsPlain c = (has 255 c ≡ false) × (has 0 c ≡ false)

-- A line end stands in the text.
abbrev pub ends_line : Bytes → Bool
ends_line c = has b'\n' c || has b'\r' c

filled-plain : (c : Bytes) → IsPlain c → filled false c ≡ c
unfolding filled has
filled-plain [] h = refl
filled-plain (x ∷ c) (h, k) = ground (arith, h, k, filled-plain c)

interrupts-plain : (c : Bytes) → has 255 c ≡ false → interrupts c ≡ false
unfolding interrupts has
interrupts-plain [] h = refl
interrupts-plain (x ∷ c) h = ground (arith, h, interrupts-plain c)

parse_plain :
    (t : Terminal) (c : Bytes)
    → IsPlain c
    → telnet_parse_data 0 t c ≡ ok (if ends_line c then telnet_lineover else telnet_data, c, t)
unfolding verdict
parse_plain t c p =
    rw (telnet_parse_data-verdict 0 t c, filled-plain c p, interrupts-plain c p.0, p.0)

take-all : (n : ℕ) (c : Bytes) → length c ≤ n → take n c ≡ c
take-all zero [] h = refl
take-all zero (x ∷ c) h = absurd (omega (arith, h))
take-all (suc n) [] h = refl
take-all (suc n) (x ∷ c) h = rw (take-all n c (omega (arith, h)))

left-all : (room : ℕ) (c : Bytes) (cs : List Bytes) → length c ≤ room → left room c cs ≡ cs
unfolding left
left-all room c cs h = ground (arith, h)

-- A read of all that is ready.
read_plain :
    (fuel : ℕ) (t : Terminal) (buf c : Bytes) (cs : List Bytes)
    → IsPlain c
    → is_empty c ≡ false
    → length buf + length c < client_read_sz
    → client_read (suc fuel) t buf (c ∷ cs) ≡ (
        if ends_line c
        then line (remove_cruft (buf ++ c)) t cs
        else client_read fuel t (buf ++ c) cs)
unfolding client_read
read_plain fuel t buf c cs p full small =
    let room = client_read_sz - length buf - 1 in
    let fits : length c ≤ room = omega (arith, small) in
    let all = take-all room c fits in
    let rest = left-all room c cs fits in
    elim (Bool-cases (ends_line c)) [
      | inl e ↦ rw (client_read, all, full, parse_plain t c p, e, rest)
      | inr e ↦ rw (client_read, all, full, parse_plain t c p, e, rest)
    ]

-- A piece of a line: something to read, with no end of the line.
abbrev pub IsPiece : Bytes → Type 0
IsPiece c = IsPlain c × (is_empty c ≡ false) × (ends_line c ≡ false)

abbrev pub ArePieces : List Bytes → Type 0
ArePieces [] = Unit
ArePieces (c ∷ cs) = IsPiece c × ArePieces cs

abbrev pub joined : List Bytes → Bytes
joined [] = []
joined (c ∷ cs) = c ++ joined cs

regroup : (a b c d : Bytes) → (a ++ b) ++ c ++ d ≡ a ++ (b ++ c) ++ d
regroup a b c d = rw (append_assoc a b c)

-- A text with a line end is not empty.
ended : (c : Bytes) → ends_line c ≡ true → is_empty c ≡ false
unfolding has
ended [] h = sym h
ended (x ∷ c) h = refl

read_pieces :
    (t : Terminal) (buf : Bytes) (cs : List Bytes) (last : Bytes) (later : List Bytes)
    → ArePieces cs
    → IsPlain last
    → ends_line last ≡ true
    → length buf + length (joined cs) + length last < client_read_sz
    → client_read (suc (length cs)) t buf (cs ++ last ∷ later)
      ≡ line (remove_cruft (buf ++ joined cs ++ last)) t later
read_pieces t buf [] last later ps plain end_ small =
    read_plain 0 t buf last later plain (ended last end_) (omega (arith, small))
    ∙ rw (end_, append-nil)
read_pieces t buf (c ∷ cs) last later ((p, full, open'), ps) plain end_ small =
    let small' : length (buf ++ c) + length (joined cs) + length last < client_read_sz =
      omega (arith, small, length-append buf c, length-append c (joined cs)) in
    read_plain (suc (length cs)) t buf c (cs ++ last ∷ later) p full
      (omega (arith, small, length-append c (joined cs)))
    ∙ rw open' (
        read_pieces t (buf ++ c) cs last later ps plain end_ small'
        ∙ ap (λ s. line (remove_cruft s) t later) (regroup buf c (joined cs) last))

-- A text with no NUL and no telnet command that arrives in some pieces, the last of which has the
-- first line end, and less than 128 bytes in all, is returned as one line, as remove_cruft cuts it,
-- and what later reads bring stays to be read.
pub client_read-line :
    (t : Terminal) (cs : List Bytes) (last : Bytes) (later : List Bytes)
    → ArePieces cs
    → IsPlain last
    → ends_line last ≡ true
    → length (joined cs) + length last < client_read_sz
    → client_read (suc (length cs)) t [] (cs ++ last ∷ later)
      ≡ line (remove_cruft (joined cs ++ last)) t later
client_read-line t cs last later ps plain end_ small =
    read_pieces t [] cs last later ps plain end_ (omega (arith, small))

left-some :
    (room : ℕ) (c : Bytes) (cs : List Bytes) → room < length c → left room c cs ≡ drop room c ∷ cs
unfolding left
left-some room c cs h = ground (arith, h)

-- More than 127 bytes that are ready at once, with no NUL, telnet command or line end among the first
-- 127, end the process: the second read has no room.
pub client_read-long :
    (t : Terminal) (c : Bytes) (later : List Bytes)
    → IsPiece (take 127 c)
    → 127 < length c
    → client_read 2 t [] (c ∷ later) ≡ failed
unfolding client_read
client_read-long t c later (p, full, open') long =
    let rest : left 127 c later ≡ drop 127 c ∷ later = left-some 127 c later long in
    let none_left : client_read_sz - length (take 127 c) - 1 ≡ 0 =
      omega (arith, long, length-take 127 c) in
    rw (client_read, full, parse_plain t (take 127 c) p, open', rest, none_left)
