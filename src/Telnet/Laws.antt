-- ===== src/Telnet/Laws.antt =====
-- What the scan of src/telnet.c returns, told from the bytes alone.
use netcosm.Base.{ℕ, ◌≡◌, refl, Bool, true, false, ◌&&◌, ◌||◌, [], ◌∷◌, ◌==◌, arith, if◌then◌else◌}
use netcosm.Base.Run.{ok}
use netcosm.Telnet.{
  Terminal, TelnetStatus, telnet_data, telnet_foundcmd, telnet_lineover, telnet_exit, no_flags, see,
  round, telcmd_ok, blank, status_of, scan, telnet_parse_data,
}
use netcosm.Text.{Bytes}

-- A byte that equals `c` stands in the text.
unfoldable pub has : ℕ → Bytes → Bool
has c [] = false
has c (x ∷ xs) = if x == c then true else has c xs

-- The Interrupt Process byte stands somewhere after an IAC.
unfoldable pub interrupts : Bytes → Bool
unfolding has
interrupts [] = false
interrupts (x ∷ xs) = if x == 255 then has 244 xs else interrupts xs

-- The buffer after the scan: blanks for NULs, up to an interrupt behind an IAC.
unfoldable pub filled : Bool → Bytes → Bytes
filled seen [] = []
filled seen (c ∷ cs) =
    let rest = filled (seen || c == 255) cs in
    if seen && c == 244 then c ∷ cs else (if c == 0 then b' ' else c) ∷ rest

-- What the bytes amount to.
unfoldable pub verdict : Bytes → TelnetStatus
unfolding has interrupts
verdict buf =
    if interrupts buf
    then telnet_exit
    else if has 255 buf
    then telnet_foundcmd
    else if has b'\n' buf || has b'\r' buf
    then telnet_lineover
    else telnet_data

-- Behind an IAC, which has counted as a command itself.
scan_found :
    (beyond : ℕ) (s l : Bool) (t : Terminal) (cs : Bytes)
    → scan beyond 0 (record { iac = true; found_cmd = true; in_sb = s; line_done = l }) t cs
      ≡ ok (if has 244 cs then telnet_exit else telnet_foundcmd, filled true cs, t)
unfolding scan round see telcmd_ok blank status_of has filled
scan_found beyond s l t [] = refl
scan_found beyond s l t (c ∷ cs) = ground (
  arith,
  scan_found beyond s l t cs,
  scan_found beyond true l t cs,
  scan_found beyond s true t cs,
)

-- Before an IAC.
scan_plain :
    (beyond : ℕ) (l : Bool) (t : Terminal) (cs : Bytes)
    → scan beyond 0 (record no_flags { line_done = l }) t cs
      ≡ ok (
        if interrupts cs
            then telnet_exit
            else if has 255 cs
            then telnet_foundcmd
            else if l || has b'\n' cs || has b'\r' cs
            then telnet_lineover
            else telnet_data,
        filled false cs,
        t,
      )
unfolding scan round see telcmd_ok blank status_of has interrupts filled
scan_plain beyond l t [] = ground arith
scan_plain beyond l t (c ∷ cs) =
    ground
      (arith, scan_plain beyond l t cs, scan_plain beyond true t cs, scan_found beyond false l t cs)

-- Whatever the client sends, the scan does not fail and leaves the size of the terminal as it was.
-- It returns EXIT for an IP behind an IAC, else FOUNDCMD where there is an IAC, else LINEOVER where
-- there is a line end, else DATA. Up to the IP of an EXIT it turns each NUL into a blank.
pub telnet_parse_data-verdict :
    (beyond : ℕ) (t : Terminal) (buf : Bytes)
    → telnet_parse_data beyond t buf ≡ ok (verdict buf, filled false buf, t)
unfolding telnet_parse_data verdict
telnet_parse_data-verdict beyond t buf = scan_plain beyond false t buf
