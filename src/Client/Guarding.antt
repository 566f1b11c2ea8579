-- ===== src/Client/Guarding.antt =====
-- src/client.c: client_main comes to an end, and who runs which command.
use netcosm.Auth.{UserData}
use netcosm.Base.{
  ℕ, leb, zero, suc, ◌+◌, ◌≤◌, ◌<◌, Bool, true, false, not, ◌&&◌, ◌||◌, Option, none, some, List,
  [], ◌∷◌, ◌++◌, length, if◌then◌else◌, ◌≡◌, refl, arith, inl, inr, Bool-cases, Option-cases, ◌==◌,
}
use netcosm.Client.Session.{
  Decision, Entry, Event, Where, act, acts, are_admin, at_login, client_main, decide, deny, forward,
  granted, in_shell, logged_in, logged_out, login, lost, max_failures, banner, prefix, enter,
  enter_game, react, obey, execute, Rest, priv_none, ran, refused, execute, skip,
}
use netcosm.Client.Callbacks.{call}
use netcosm.Client.Moves.{with_nul}
use netcosm.Client.Shell.{
  print, ask, next_token, Action, ClientCmd, Line, Outside, Reply, checked, looked_up, after_all,
  priv_admin, cmd_ok, cmd_logout, cmd_quit,
}
use netcosm.Client.Shrinking.{Within, call-Within}
use netcosm.Hash.Ops.{lookup}
use netcosm.Hash.Types.{HashMap}
use netcosm.Text.Cruft.{remove_cruft}
use netcosm.Text.Djb.{string_keys}
use netcosm.Text.{Bytes, ascii, all_upper}

-- Whether somebody with these privileges, or nobody, may run a command.
unfoldable pub may_run : Option ℕ → ClientCmd → Bool
may_run none cmd = false
may_run (some priv) cmd = not cmd.admin_only || priv == priv_admin

-- Each command that runs may be run by the user who is logged in then.
unfoldable pub guarded : Option ℕ → List Event → Bool
unfolding may_run
guarded who [] = true
guarded who (act a ∷ es) = guarded who es
guarded who (logged_in user priv ∷ es) = guarded (some priv) es
guarded who (ran cmd ∷ es) = may_run who cmd && guarded who es
guarded who (logged_out ∷ es) = guarded none es

-- The run has ended, and its events are guarded.
abbrev Kept : Option ℕ → Option (List Event) → Type 0
Kept who result = (events : List Event) × (result ≡ some events) × (guarded who events ≡ true)

guarded-acts :
    (who : Option ℕ) (actions : List Action) (es : List Event)
    → guarded who es ≡ true
    → guarded who (acts actions ++ es) ≡ true
unfolding guarded
guarded-acts who [] es h = h
guarded-acts who (a ∷ as') es h = guarded-acts who as' es h

prefix-Kept :
    (who : Option ℕ) (actions : List Action) (result : Option (List Event))
    → Kept who result
    → Kept who (prefix (acts actions) result)
prefix-Kept who actions result (es, e, h) =
    (acts actions ++ es, rw e, guarded-acts who actions es h)

end-Kept : (who : Option ℕ) → Kept who (some [])
unfolding guarded
end-Kept who = ([], refl, refl)

abbrev who_is : Where → Option ℕ
who_is (at_login last) = none
who_is (in_shell user priv last) = some priv

-- The rest of the run is well on fewer than `n` lines.
abbrev Well : ℕ → Rest → Type 0
Well n rest =
    (place : Where) (input : List Line) → length input < n → Kept (who_is place) (rest place input)

-- The lines that a login leaves are fewer than `n`.
unfoldable Fewer : ℕ → Entry → Type 0
Fewer n (granted user found rest) = length rest < n
Fewer n lost = Unit
Fewer n refused = Unit

login-Fewer :
    (env : Outside) (last : Option UserData) (failures n : ℕ) (input : List Line)
    → length input ≤ n
    → Fewer n (login env last failures input).1
unfolding login Fewer
login-Fewer env last failures n [] h = tt
login-Fewer env last failures n (name ∷ []) h = tt
login-Fewer env last failures n (name ∷ pass ∷ input) h =
    let after_name = looked_up env last (remove_cruft name.text) in
    let more = login-Fewer env after_name (failures + 1) n input (omega (arith, h)) in
    elim (Option-cases (checked env last (remove_cruft name.text) pass.text)) [
      | inl wrong ↦ rw (Fewer, wrong) (stop (leb max_failures (failures + 1)) more)
      | inr (found, right) ↦ rw (Fewer, right) (omega (arith, h))
    ]
  where
    stop :
        (b : Bool)
        → Fewer n (login env (looked_up env last (remove_cruft name.text)) (failures + 1) input).1
        → Fewer n
            (if b
              then ([], refused)
              else login env (looked_up env last (remove_cruft name.text)) (failures + 1) input).1
    stop true more = tt
    stop false more = more

enter-Kept :
    (n : ℕ) (rest : Rest) (entry : Entry)
    → Well n rest
    → Fewer n entry
    → Kept none (enter rest entry)
unfolding enter Fewer guarded
enter-Kept n rest lost w h = end-Kept none
enter-Kept n rest refused w h = end-Kept none
enter-Kept n rest (granted user found input) w h = elim (Bool-cases (found.priv == priv_none)) [
  | inl nobody ↦ rw nobody (end-Kept none)
  | inr somebody ↦
      let (es, e, k) = w (in_shell user found.priv none) input h in
      rw somebody (
        logged_in user found.priv ∷ (acts (enter_game user found.priv) ++ es),
        rw e,
        guarded-acts (some found.priv) (enter_game user found.priv) es k,
      )
]

react-Kept :
    (n m : ℕ) (rest : Rest) (env : Outside) (user : Bytes) (priv : ℕ) (last : Option UserData)
    (r : Reply)
    → Well n rest
    → m < n
    → Within m r
    → Kept (some priv) (react rest env user priv last r)
unfolding react Within guarded
react-Kept n m rest env user priv last none w h k = end-Kept (some priv)
react-Kept n m rest env user priv last (some (actions, cmd_ok, input)) w h k =
    prefix-Kept (some priv) actions _
      (w (in_shell user priv (after_all env last actions)) input (omega (arith, h, k)))
react-Kept n m rest env user priv last (some (actions, cmd_logout, input)) w h k =
    let (es, e, g) = w (at_login (after_all env last actions)) input (omega (arith, h, k)) in
    prefix-Kept (some priv) actions _ (logged_out ∷ es, rw e, g)
react-Kept n m rest env user priv last (some (actions, cmd_quit, input)) w h k =
    prefix-Kept (some priv) actions _ (end-Kept (some priv))

-- A command that is decided for may run.
abbrev Fit : ℕ → Decision → Type 0
Fit priv (execute cmd args) = may_run (some priv) cmd ≡ true
Fit priv _ = Unit

decide-Fit :
    (cmd_map : HashMap Bytes ClientCmd) (priv : ℕ) (line : Line)
    → Fit priv (decide cmd_map (are_admin priv) line)
unfolding decide may_run are_admin
decide-Fit cmd_map priv line = elim (Option-cases (next_token line.text)) [
  | inl blank ↦ rw (Fit, blank) (ground arith)
  | inr (word, e) ↦ elim (Option-cases (lookup (all_upper word.0) cmd_map)) [
    | inl unknown ↦ rw (Fit, e, unknown) tt
    | inr (cmd, found) ↦ rw (Fit, e, found) (ground arith)
  ]
]

obey-Kept :
    (n : ℕ) (rest : Rest) (env : Outside) (user : Bytes) (priv : ℕ) (last : Option UserData)
    (d : Decision) (line : Line) (input : List Line)
    → Well n rest
    → length input < n
    → Fit priv d
    → Kept (some priv) (obey rest env user priv last d line input)
unfolding obey guarded
obey-Kept n rest env user priv last skip line input w h fit = w (in_shell user priv last) input h
obey-Kept n rest env user priv last deny line input w h fit =
    prefix-Kept (some priv) (print (ascii "You are not allowed to do that.\n") ∷ []) _
      (w (in_shell user priv last) input h)
obey-Kept n rest env user priv last forward line input w h fit =
    prefix-Kept (some priv) (ask 24 (with_nul line.text) ∷ []) _
      (w (in_shell user priv last) input h)
obey-Kept n rest env user priv last (execute cmd args) line input w h fit =
    let (es, e, g) =
      react-Kept n (length input) rest env user priv last (call env last user cmd.cb args input) w h
        (call-Within env last user cmd.cb args input) in
    (ran cmd ∷ es, rw e, rw (fit, g))

client_main-Kept :
    (env : Outside) (cmd_map : HashMap Bytes ClientCmd) (fuel : ℕ) (place : Where)
    (input : List Line)
    → length input < fuel
    → Kept (who_is place) (client_main env cmd_map fuel place input)
unfolding client_main
client_main-Kept env cmd_map zero place input h = absurd (omega (arith, h))
client_main-Kept env cmd_map (suc fuel) (at_login last) input h =
    prefix-Kept none (banner env ++ (login env last 0 input).0) _ (
      enter-Kept fuel _ (login env last 0 input).1 (client_main-Kept env cmd_map fuel)
        (login-Fewer env last 0 fuel input (omega (arith, h))))
client_main-Kept env cmd_map (suc fuel) (in_shell user priv last) [] h = end-Kept (some priv)
client_main-Kept env cmd_map (suc fuel) (in_shell user priv last) (line ∷ input) h =
    prefix-Kept (some priv) (if line.was_raw then [] else print (ascii ">> ") ∷ []) _ (
      obey-Kept fuel _ env user priv last (decide cmd_map (are_admin priv) line) line input
        (client_main-Kept env cmd_map fuel) (omega (arith, h)) (decide-Fit cmd_map priv line))

-- For all lines that a user sends, client_main, from its start with no record looked up, comes to an end, with one unit of fuel more than there
-- are lines, and each command that it runs is run by a user who has logged in and not out since, and
-- who has the privileges of an administrator where the command is for administrators only.
pub client_main-guarded :
    (env : Outside) (cmd_map : HashMap Bytes ClientCmd) (input : List Line)
    → (events : List Event) × (client_main env cmd_map (length input + 1) (at_login none) input
        ≡ some events)
      × (guarded none events ≡ true)
client_main-guarded env cmd_map input =
    client_main-Kept env cmd_map (length input + 1) (at_login none) input (omega arith)
