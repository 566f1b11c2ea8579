-- ===== src/Client/Session.antt =====
-- src/client.c: the login and the main loop of client_main, on the lines that the user sends.
use netcosm.Auth.{UserData}
use netcosm.Base.{
  ℕ, zero, suc, ◌+◌, ◌-◌, ◌^◌, Bool, not, ◌&&◌, ◌||◌, Option, none, some, List, [], ◌∷◌, ◌++◌, ◌==◌,
  leb, if◌then◌else◌, map,
}
use netcosm.Client.Callbacks.{call}
use netcosm.Client.Moves.{client_change_state, client_change_user, client_change_room, with_nul}
use netcosm.Client.Shell.{
  Action, Reply, ClientCmd, Line, Outside, cmd_ok, cmd_logout, cmd_quit, print, ask, no_echo,
  store_user, next_token, look_actions, password_actions, priv_admin, checked, looked_up, after_all,
}
use netcosm.Hash.Ops.{lookup}
use netcosm.Hash.Types.{HashMap}
use netcosm.Text.Cruft.{remove_cruft}
use netcosm.Text.Djb.{string_keys}
use netcosm.Text.{Bytes, ascii, all_upper}

abbrev pub max_failures : ℕ
max_failures = 3

-- PRIV_NONE, -1, as 32 bits
abbrev pub priv_none : ℕ
priv_none = 2 ^ 32 - 1

abbrev request : ℕ × Bytes → Action
request (cmd, payload) = ask cmd payload

-- What is seen of a child: its actions, its logins with their privileges, the calls of
-- callbacks, and its logouts.
pub data Event : Type 0 where
  act : Action → Event
  logged_in : Bytes → ℕ → Event
  ran : ClientCmd → Event
  logged_out : Event

-- How the loop of logins ends: the process ends, the third failure ends client_main, or the user is
-- in, with the lines that are left.
pub data Entry : Type 0 where
  lost : Entry
  refused : Entry
  granted : Bytes → UserData → List Line → Entry

unfoldable pub asked : Bytes → List Action
unfolding client_change_state
asked user =
    print (ascii "login: ") ∷ print (ascii "Password: ") ∷ password_actions
    ++ request (client_change_state 2) ∷ ask 13 (with_nul user) ∷ []

-- The bookkeeping of a login that succeeds.
unfoldable pub welcome : Outside → UserData → List Action
welcome env user =
    print (ascii "Last login: " ++ env.ctime user.last_login)
    ∷ store_user (record user { last_login = env.now })
    ∷ []

abbrev push : List Action → List Action × Entry → List Action × Entry
push actions r = (actions ++ r.0, r.1)

-- The loop of logins after some failures; `last` is what `returned_reqdata` has.
unfoldable pub login : Outside → Option UserData → ℕ → List Line → List Action × Entry
unfolding remove_cruft checked looked_up client_change_state
login env last failures (name ∷ pass ∷ input) =
    let user = remove_cruft name.text in
    let again = login env (looked_up env last user) (failures + 1) input in
    push (asked user) (elim (checked env last user pass.text) [
      | none ↦
          push (request (client_change_state 5) ∷ print (ascii "Login incorrect\n\n") ∷ [])
            (if leb max_failures (failures + 1) then ([], refused) else again)
      | some found ↦ (welcome env found, granted user found input)
    ])
login env last failures (name ∷ []) =
    (print (ascii "login: ") ∷ print (ascii "Password: ") ∷ no_echo ∷ [], lost)
login env last failures [] = (print (ascii "login: ") ∷ [], lost)

unfoldable pub are_admin : ℕ → Bool
are_admin priv = priv == priv_admin

-- What follows a login with privileges.
unfoldable pub enter_game : Bytes → ℕ → List Action
unfolding are_admin client_change_state client_change_user client_change_room
enter_game user priv =
    request (client_change_state (if are_admin priv then 4 else 3))
    ∷ request (client_change_user user)
    ∷ request (client_change_room 0)
    ∷ look_actions

-- What becomes of a line: nothing, a callback on the rest of the line, a refusal, or a request to the
-- server to run it as a verb.
pub data Decision : Type 0 where
  skip : Decision
  execute : ClientCmd → Bytes → Decision
  deny : Decision
  forward : Decision

unfoldable pub decide : HashMap Bytes ClientCmd → Bool → Line → Decision
unfolding next_token all_upper lookup
decide cmd_map admin line = elim (next_token line.text) [
  | none ↦ if line.raw then forward else skip
  | some (tok, args) ↦ elim (lookup (all_upper tok) cmd_map) [
    | none ↦ forward
    | some cmd ↦
        if line.raw
        then forward
        else if not cmd.admin_only || cmd.admin_only && admin
        then execute cmd args
        else if cmd.admin_only && not admin
        then deny
        else forward
  ]
]

abbrev pub acts : List Action → List Event
acts actions = map act actions

abbrev pub prefix : List Event → Option (List Event) → Option (List Event)
prefix events none = none
prefix events (some more) = some (events ++ more)

-- Where the process is: at the login, or in the main loop as a user with privileges; and what
-- `returned_reqdata` has there.
pub data Where : Type 0 where
  at_login : Option UserData → Where
  in_shell : Bytes → ℕ → Option UserData → Where

unfoldable pub banner : Outside → List Action
unfolding client_change_state
banner env =
    print (ascii "NetCosm 0.5.2\n")
    ∷ print env.clients
    ∷ print (ascii "\nPlease authenticate to continue.\n\n")
    ∷ request (client_change_state 1)
    ∷ []

-- What is left to do from a place on, with the lines.
abbrev pub Rest : Type 0
Rest = Where → List Line → Option (List Event)

-- What follows the loop of logins. The answer to the storing of the user is a truth value.
unfoldable pub enter : Rest → Entry → Option (List Event)
unfolding enter_game
enter rest lost = some []
enter rest refused = some []
enter rest (granted user found input) =
    if found.priv == priv_none
    then some []
    else prefix (logged_in user found.priv ∷ acts (enter_game user found.priv))
        (rest (in_shell user found.priv none) input)

-- What follows a callback.
unfoldable pub react : Rest → Outside → Bytes → ℕ → Option UserData → Reply → Option (List Event)
unfolding after_all
react rest env user priv last none = some []
react rest env user priv last (some (actions, cmd_ok, input)) =
    prefix (acts actions) (rest (in_shell user priv (after_all env last actions)) input)
react rest env user priv last (some (actions, cmd_logout, input)) =
    prefix (acts actions)
      (prefix (logged_out ∷ []) (rest (at_login (after_all env last actions)) input))
react rest env user priv last (some (actions, cmd_quit, input)) = prefix (acts actions) (some [])

-- What follows the decision on a line of a user with privileges.
unfoldable pub obey :
    Rest → Outside → Bytes → ℕ → Option UserData → Decision → Line → List Line → Option (List Event)
unfolding react call
obey rest env user priv last skip line input = rest (in_shell user priv last) input
obey rest env user priv last deny line input =
    prefix (acts (print (ascii "You are not allowed to do that.\n") ∷ []))
      (rest (in_shell user priv last) input)
obey rest env user priv last forward line input =
    prefix (acts (ask 24 (with_nul line.text) ∷ [])) (rest (in_shell user priv last) input)
obey rest env user priv last (execute cmd args) line input =
    prefix (ran cmd ∷ []) (react rest env user priv last (call env last user cmd.cb args input))

-- What client_main does with the lines, up to its return or the end of the process; `none` where the
-- fuel is spent. The prompt for a line that never comes is left out.
unfoldable pub client_main :
    Outside → HashMap Bytes ClientCmd → (fuel : ℕ) → Where → List Line → Option (List Event)
unfolding login enter decide obey are_admin banner
client_main env cmd_map zero place input = none
client_main env cmd_map (suc fuel) (at_login last) input =
    let (actions, entry) = login env last 0 input in
    prefix (acts (banner env ++ actions))
      (enter (λ place rest. client_main env cmd_map fuel place rest) entry)
client_main env cmd_map (suc fuel) (in_shell user priv last) [] = some []
client_main env cmd_map (suc fuel) (in_shell user priv last) (line ∷ input) =
    prefix (acts (if line.was_raw then [] else print (ascii ">> ") ∷ [])) (
      obey (λ place rest. client_main env cmd_map fuel place rest) env user priv last
        (decide cmd_map (are_admin priv) line) line input)
