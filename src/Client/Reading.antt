-- ===== src/Client/Reading.antt =====
-- src/client.c: client_read, on what the socket has ready at each read. Requests of the server, which
-- it answers in between, are left out.
pub mod Lines
use netcosm.Base.{
  ℕ, zero, suc, ◌-◌, Bool, List, [], ◌∷◌, ◌++◌, length, take, drop, is_empty, leb, if◌then◌else◌,
}
use netcosm.Base.Run.{Run, ok, abort}
use netcosm.Telnet.{
  Scan, Terminal, telnet_parse_data, telnet_data, telnet_foundcmd, telnet_lineover, telnet_exit,
}
use netcosm.Text.Cruft.{remove_cruft}
use netcosm.Text.{Bytes}

abbrev pub client_read_sz : ℕ
client_read_sz = 128

-- A line with the terminal and what is left to read, the end of the process by an interrupt or by an
-- error, or the fuel spent; every read takes a byte at least.
pub data Reading : Type 0 where
  line : Bytes → Terminal → List Bytes → Reading
  quit : Reading
  failed : Reading
  spent : Reading

-- What a read leaves of the bytes that are ready.
unfoldable pub left : ℕ → Bytes → List Bytes → List Bytes
left room c cs = if leb (length c) room then cs else drop room c ∷ cs

-- `buf` holds the bytes before `bufidx`; the one behind those read is NUL.
unfoldable pub client_read : (fuel : ℕ) → Terminal → Bytes → List Bytes → Reading
unfolding telnet_parse_data remove_cruft left
client_read zero t buf cs = spent
client_read (suc fuel) t buf [] = failed
client_read (suc fuel) t buf (c ∷ cs) =
    let room = client_read_sz - length buf - 1 in
    let got = take room c in
    let rest = left room c cs in
    let again : Terminal → Bytes → Reading = λ t buf. client_read fuel t buf rest in
    if is_empty got then failed else elim (telnet_parse_data 0 t got) [
      | abort ↦ failed
      | ok s ↦ elim s.0 [
        | telnet_exit ↦ quit
        | telnet_foundcmd ↦ again s.2 []
        | telnet_data ↦ again s.2 (buf ++ s.1)
        | telnet_lineover ↦ line (remove_cruft (buf ++ s.1)) s.2 rest
      ]
    ]
