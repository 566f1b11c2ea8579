-- ===== src/Tests/Protocols.antt =====
-- The telnet scan at concrete input.
use netcosm.Base.{◌≡◌, refl, false, [], ◌∷◌}
use netcosm.Base.Run.{ok}
use netcosm.Telnet.{Terminal, telnet_parse_data, telnet_exit}
use netcosm.Telnet.Laws.{telnet_parse_data-verdict, verdict, filled, has, interrupts}
use netcosm.Text.{Bytes}

abbrev small_terminal : Terminal
small_terminal = record { width = 80; height = 24 }

-- A size that the client announces: IAC SB NAWS 0 100 0 50 IAC SE
abbrev announced : Bytes
announced = 255 ∷ 250 ∷ 31 ∷ 0 ∷ 100 ∷ 0 ∷ 50 ∷ 255 ∷ 240 ∷ []

interrupted : verdict (255 ∷ 244 ∷ []) ≡ telnet_exit
unfolding verdict has interrupts
interrupted = refl

telnet_parse_data-verdict_example :
    telnet_parse_data 0 small_terminal announced
    ≡ ok (verdict announced, filled false announced, small_terminal)
telnet_parse_data-verdict_example = telnet_parse_data-verdict 0 small_terminal announced
