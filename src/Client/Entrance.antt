-- ===== src/Client/Entrance.antt =====
-- src/client.c: the three attempts to log in.
use netcosm.Auth.{UserData}
use netcosm.Base.{Option, none, some, List, [], ◌∷◌}
use netcosm.Client.Session.{Entry, granted}
use netcosm.Client.Shell.{Line, Outside, checked, looked_up}
use netcosm.Text.Cruft.{remove_cruft}
use netcosm.Text.{Bytes}

-- A name and a password, with the lines behind them.
abbrev pub Attempt : Type 0
Attempt = Bytes × Bytes × List Line

-- The lines in pairs.
unfoldable pub attempts : List Line → List Attempt
attempts (name ∷ pass ∷ input) = (remove_cruft name.text, pass.text, input) ∷ attempts input
attempts (name ∷ []) = []
attempts [] = []

-- What the first attempt leads to whose password is right for the record that the lookup returns: that
-- of the name, or for an unknown name that of the last known name before it.
unfoldable pub settled : Outside → Option UserData → List Attempt → Option Entry
settled env last [] = none
settled env last ((user, pass, rest) ∷ more) = elim (checked env last user pass) [
  | none ↦ settled env (looked_up env last user) more
  | some found ↦ some (granted user found rest)
]

abbrev pub or_else : Option Entry → Entry → Entry
or_else none e = e
or_else (some e) e' = e
