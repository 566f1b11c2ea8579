-- ===== src/Telnet.antt =====
-- src/telnet.c: the scan of what a client sends, the size of its terminal, and the sequences the
-- server sends. The codes are those of <arpa/telnet.h>.
pub mod Laws
use netcosm.Base.{
  ℕ, zero, suc, ◌+◌, ◌*◌, Bool, true, false, ◌&&◌, ◌||◌, Option, none, some, List, [], ◌∷◌, leb,
  ◌==◌, if◌then◌else◌,
}
use netcosm.Base.Run.{Run, ok, abort, ◌>>=◌}
use netcosm.Text.{Bytes}

abbrev pub iac_code : ℕ
iac_code = 255

abbrev pub ip_code : ℕ
ip_code = 244

abbrev pub sb_code : ℕ
sb_code = 250

abbrev pub naws_code : ℕ
naws_code = 31

-- TELCMD_OK: from xEOF, 236, to IAC
unfoldable pub telcmd_ok : ℕ → Bool
telcmd_ok c = leb c 255 && leb 236 c

pub data TelnetStatus : Type 0 where
  telnet_data : TelnetStatus
  telnet_foundcmd : TelnetStatus
  telnet_lineover : TelnetStatus
  telnet_exit : TelnetStatus

-- term_width and term_height
pub record Terminal : Type 0 where
  pub width : ℕ
  pub height : ℕ

-- The local variables of telnet_parse_data.
pub record Flags : Type 0 where
  pub iac : Bool
  pub found_cmd : Bool
  pub in_sb : Bool
  pub line_done : Bool

abbrev pub no_flags : Flags
no_flags = record { iac = false; found_cmd = false; in_sb = false; line_done = false }

-- The bytes after index `i`, while `i < buflen`; `buf[buflen]` is the byte `beyond`.
abbrev pub Position : Type 0
Position = Option Bytes

unfoldable pub peek : ℕ → Bytes → ℕ
peek beyond [] = beyond
peek beyond (c ∷ cs) = c

-- `++i`
unfoldable pub advance : Position → Position
advance none = none
advance (some []) = none
advance (some (c ∷ cs)) = some cs

-- The loop that reads the size, with as many bytes as it still wants: those, and how far `i` moves.
unfoldable pub read_naws : ℕ → ℕ → Position → Option (Bytes × ℕ)
unfolding peek advance
read_naws beyond zero p = some ([], 0)
read_naws beyond (suc j) none = none
read_naws beyond (suc j) (some cs) =
    let c = peek beyond cs in
    let next = advance (some cs) in
    let rest = read_naws beyond j (if c == 255 then advance next else next) in
    elim rest [ none ↦ none | some r ↦ some (c ∷ r.0, (if c == 255 then 2 else 1) + r.1) ]

-- `ntohs`, on the four bytes read
unfoldable pub terminal_of : Bytes → Terminal → Terminal
terminal_of (a ∷ b ∷ c ∷ d ∷ _) t = record { width = a * 256 + b; height = c * 256 + d }
terminal_of bs t = t

-- What one round of the loop does: leave with TELNET_EXIT, fail, or go on after some more bytes.
pub data Round : Type 0 where
  leave : Round
  too_short : Round
  go_on : ℕ → Flags → Terminal → Round

-- The first three tests on a byte.
unfoldable pub see : ℕ → Flags → Flags
see c fl =
    if c == iac_code
    then record fl { iac = true }
    else if c == b'\n' || c == b'\r'
    then record fl { line_done = true }
    else fl

unfoldable pub size_round : ℕ → Flags → Terminal → Bytes → Round
unfolding read_naws terminal_of
size_round beyond fl t cs = elim (read_naws beyond 4 (some cs)) [
  | none ↦ too_short
  | some r ↦ go_on r.1 fl (terminal_of r.0 t)
]

unfoldable pub round : ℕ → Flags → Terminal → ℕ → Bytes → Round
unfolding see size_round telcmd_ok
round beyond fl0 t c cs =
    let fl = see c fl0 in
    let found = record fl { found_cmd = true } in
    if fl.iac && telcmd_ok c
    then if c == ip_code
      then leave
      else if c == sb_code
      then go_on 0 (record found { in_sb = true }) t
      else if c == naws_code && fl.in_sb
      then size_round beyond found t cs
      else go_on 0 found t
    else go_on 0 fl t

-- NUL becomes a blank.
unfoldable pub blank : ℕ → ℕ
blank c = if c == 0 then b' ' else c

unfoldable pub status_of : Flags → TelnetStatus
status_of fl =
    if fl.found_cmd then telnet_foundcmd else if fl.line_done then telnet_lineover else telnet_data

-- What the scan returns, and the buffer and the terminal after it.
abbrev pub Scan : Type 0
Scan = TelnetStatus × Bytes × Terminal

abbrev pub keep : ℕ → Run Scan → Run Scan
keep c r = r >>= λ s. ok (s.0, c ∷ s.1, s.2)

-- The loop, which skips the bytes that read_naws took.
unfoldable pub scan : ℕ → ℕ → Flags → Terminal → Bytes → Run Scan
unfolding round blank status_of
scan beyond k fl t [] = ok (status_of fl, [], t)
scan beyond (suc k) fl t (c ∷ cs) = keep c (scan beyond k fl t cs)
scan beyond zero fl t (c ∷ cs) = elim (round beyond fl t c cs) [
  | leave ↦ ok (telnet_exit, c ∷ cs, t)
  | too_short ↦ abort
  | go_on k fl' t' ↦ keep (blank c) (scan beyond k fl' t' cs)
]

unfoldable pub telnet_parse_data : ℕ → Terminal → Bytes → Run Scan
unfolding scan
telnet_parse_data beyond t buf = scan beyond 0 no_flags t buf

-- What `telnet_echo_off`, `telnet_echo_on` and `telnet_clear_screen` send.
unfoldable pub telnet_echo_off : Bytes
telnet_echo_off = 255 ∷ 251 ∷ 1 ∷ 255 ∷ 254 ∷ 1 ∷ []

unfoldable pub telnet_echo_on : Bytes
telnet_echo_on = 255 ∷ 252 ∷ 1 ∷ 255 ∷ 253 ∷ 1 ∷ []

unfoldable pub telnet_clear_screen : Bytes
telnet_clear_screen = 27 ∷ b']' ∷ b'2' ∷ b'J' ∷ []

-- What `telnet_init` sends, and the size that it assumes.
unfoldable pub telnet_init : Bytes × Terminal
telnet_init = (
  255 ∷ 252 ∷ 3 ∷ 255 ∷ 254 ∷ 3 ∷ 255 ∷ 253 ∷ 31 ∷ 255 ∷ 252 ∷ 5 ∷ 255 ∷ 254 ∷ 5 ∷ 255 ∷ 253 ∷ 1
      ∷ 255 ∷ 254 ∷ 34 ∷ [],
  record { width = 80; height = 24 },
)
