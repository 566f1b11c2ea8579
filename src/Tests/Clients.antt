-- ===== src/Tests/Clients.antt =====
-- The child's side, from the bytes of the socket to the commands, at concrete input.
use netcosm.Auth.{UserData}
use netcosm.Base.{
  ◌+◌, ◌≡◌, refl, true, false, none, some, List, [], ◌∷◌, length, take, replicate, arith,
  if◌then◌else◌,
}
use netcosm.Client.Guarding.{client_main-guarded, guarded}
use netcosm.Client.Output.{Wrapped, out}
use netcosm.Client.Reading.Lines.{client_read-line, client_read-long}
use netcosm.Client.Reading.{client_read, failed, line}
use netcosm.Client.Session.{Event, at_login, client_main}
use netcosm.Client.Shell.{ClientCmd, Line, Outside, user_cb}
use netcosm.Client.Cutting.{Keeps}
use netcosm.Client.Wrapping.{out-Keeps}
use netcosm.Hash.Types.{HashMap}
use netcosm.Telnet.Laws.{has}
use netcosm.Telnet.{Terminal}
use netcosm.Text.Cruft.{remove_cruft}
use netcosm.Text.{Bytes, ascii, strcmp_eq}

abbrev screen : Terminal
screen = record { width = 80; height = 24 }

client_read-line_example :
    client_read 2 screen [] (ascii "lo" ∷ ascii "ok\r\n" ∷ ascii "go" ∷ [])
    ≡ line (remove_cruft (ascii "look\r\n")) screen (ascii "go" ∷ [])
unfolding has
client_read-line_example =
    client_read-line screen (ascii "lo" ∷ []) (ascii "ok\r\n") (ascii "go" ∷ [])
      (((refl, refl), refl, refl), tt) (refl, refl) refl (omega arith)

client_read-long_example : client_read 2 screen [] (replicate 200 b'x' ∷ []) ≡ failed
unfolding has
client_read-long_example =
    client_read-long screen (replicate 200 b'x') [] ((refl, refl), refl, refl) (omega arith)

out-Keeps_example :
    (r : Wrapped) × (out 5 0 (ascii "a long line") ≡ some r)
    × Keeps 5 (take 1023 (ascii "a long line")) r
out-Keeps_example =
    out-Keeps 5 0 (ascii "a long line") (omega arith) (omega arith) (omega arith)
      (refl, (refl, (refl, (refl, (refl, (refl, (refl, (refl, (refl, (refl, (refl, tt)))))))))))

-- Only root is known, and every digest is the same.
abbrev root : UserData
root = record {
  username = ascii "root";
  salt = [];
  passhash = replicate 128 b'0';
  priv = 1337;
  last_login = 0;
}

abbrev around : Outside
around = record {
  removed = λ s. true;
  moves = λ s. true;
  known = λ s. if strcmp_eq s (ascii "root") then some root else none;
  sha512 = λ s. replicate 64 0;
  clients = ascii "1 client connected.\n";
  pid = 7;
  now = 100;
  ctime = λ n. ascii "then\n";
  strtol = λ s. (0, s);
}

abbrev typed : Bytes → Line
typed s = record { was_raw = false; raw = false; text = s }

-- An unknown name before root's.
abbrev evening : List Line
evening =
    typed (ascii "eve")
    ∷ typed (ascii "x")
    ∷ typed (ascii "root")
    ∷ typed (ascii "pw")
    ∷ typed (ascii "user list")
    ∷ []

abbrev user_only : HashMap Bytes ClientCmd
user_only = record {
  table = ((ascii "USER", record { cb = user_cb; admin_only = true }) ∷ []) ∷ [];
  n_entries = 1;
  used_buckets = 1;
  free_key = false;
  free_data = false;
  dup_data = none;
}

client_main-guarded_example :
    (events : List Event) × (client_main around user_only
        (length evening + 1)
        (at_login none)
        evening
      ≡ some events)
    × (guarded none events ≡ true)
client_main-guarded_example = client_main-guarded around user_only evening
