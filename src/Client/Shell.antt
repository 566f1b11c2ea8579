-- ===== src/Client/Shell.antt =====
-- src/client.c: the commands of a user who has logged in. What a callback does is the list of its
-- actions, in order; what it learns from the server, and the C library's strtol, is the environment.
use netcosm.Auth.{UserData, auth_check}
use netcosm.Base.{
  ℕ, ◌-◌, Bool, true, false, ◌&&◌, ◌||◌, Option, none, some, List, [], ◌∷◌, ◌==◌, if◌then◌else◌,
  is_some, length, take,
}
use netcosm.Client.Moves.{dirs}
use netcosm.Hash.Chain.{find}
use netcosm.Base.Run.{Run}
use netcosm.Hash.Ops.{insert_pairs}
use netcosm.Hash.Types.{HashMap, Node, init}
use netcosm.Text.Cruft.{remove_cruft}
use netcosm.Text.Djb.{string_keys}
use netcosm.Text.{Bytes, ascii}

-- WSPACE
abbrev pub is_wspace : ℕ → Bool
is_wspace c = c == b' ' || c == b'\t' || c == b'\r' || c == b'\n'

-- The token up to the next delimiter, and what is behind that delimiter.
unfoldable pub split_token : Bytes → Bytes × Bytes
split_token [] = ([], [])
split_token (c ∷ s) =
    let (tok, rest) = split_token s in if is_wspace c then ([], s) else (c ∷ tok, rest)

-- strtok_r with WSPACE: the delimiters in front are skipped, and a rest of them is no token.
unfoldable pub next_token : Bytes → Option (Bytes × Bytes)
unfolding split_token
next_token [] = none
next_token (c ∷ s) =
    let later = next_token s in if is_wspace c then later else some (split_token (c ∷ s))

-- strtok_r with no delimiters: the rest, if there is any.
abbrev pub whole_rest : Bytes → Option Bytes
whole_rest [] = none
whole_rest (c ∷ s) = some (c ∷ s)

pub data Callback : Type 0 where
  user_cb : Callback
  client_cb : Callback
  quit_cb : Callback
  say_cb : Callback
  date_cb : Callback
  logout_cb : Callback
  look_cb : Callback
  inventory_cb : Callback
  take_cb : Callback
  wait_cb : Callback
  go_cb : Callback
  drop_cb : Callback
  chpass_cb : Callback

-- struct client_cmd, without its name
pub record ClientCmd : Type 0 where
  pub cb : Callback
  pub admin_only : Bool

abbrev for_all : Callback → ClientCmd
for_all cb = record { cb = cb; admin_only = false }

abbrev for_admins : Callback → ClientCmd
for_admins cb = record { cb = cb; admin_only = true }

unfoldable pub cmds : List (Node Bytes ClientCmd)
cmds =
    (ascii "USER", for_admins user_cb)
    ∷ (ascii "CLIENT", for_admins client_cb)
    ∷ (ascii "EXIT", for_all quit_cb)
    ∷ (ascii "QUIT", for_all quit_cb)
    ∷ (ascii "SAY", for_all say_cb)
    ∷ (ascii "DATE", for_all date_cb)
    ∷ (ascii "LOGOUT", for_all logout_cb)
    ∷ (ascii "LOOK", for_all look_cb)
    ∷ (ascii "INVENTORY", for_all inventory_cb)
    ∷ (ascii "TAKE", for_all take_cb)
    ∷ (ascii "WAIT", for_admins wait_cb)
    ∷ (ascii "GO", for_all go_cb)
    ∷ (ascii "DROP", for_all drop_cb)
    ∷ (ascii "CHPASS", for_all chpass_cb)
    ∷ []

unfoldable pub client_init : Run (HashMap Bytes ClientCmd)
unfolding cmds insert_pairs init
client_init = insert_pairs cmds (init 14)

-- CMD_OK, CMD_LOGOUT and CMD_QUIT
pub data Code : Type 0 where
  cmd_ok : Code
  cmd_logout : Code
  cmd_quit : Code

-- What the child does to be seen: it prints, it asks the server, or it has a user added,
-- removed or stored.
pub data Action : Type 0 where
  print : Bytes → Action
  ask : ℕ → Bytes → Action
  clear_screen : Action
  no_echo : Action
  echo : Action
  add_user : Bytes → Bytes → ℕ → Action
  del_user : Bytes → Action
  store_user : UserData → Action

-- What the child learns from outside: the server's answers, the number of clients as a line of text,
-- its own PID, the time, and what OpenSSL and the C library compute: SHA-512, a time as text, and
-- strtol with base 0, which returns the number and the characters that it left.
pub record Outside : Type 0 where
  pub removed : Bytes → Bool
  pub moves : Bytes → Bool
  pub known : Bytes → Option UserData
  pub sha512 : Bytes → Bytes
  pub clients : Bytes
  pub pid : ℕ
  pub now : ℕ
  pub ctime : ℕ → Bytes
  pub strtol : Bytes → ℕ × Bytes

abbrev pub priv_admin : ℕ
priv_admin = 1337

-- A line as client_read returns it, and whether the child is in raw mode when it starts to wait for
-- the line and when the line comes.
pub record Line : Type 0 where
  pub was_raw : Bool
  pub raw : Bool
  pub text : Bytes

-- A callback's actions, its code, and the lines that it has left; `none` where a line was wanted and
-- the connection is lost, which ends the process.
abbrev pub Reply : Type 0
Reply = Option (List Action × Code × List Line)

abbrev pub done : List Action → List Line → Reply
done actions input = some (actions, cmd_ok, input)

-- client_look
abbrev pub look_actions : List Action
look_actions = ask 11 [] ∷ print (ascii "\n") ∷ ask 8 [] ∷ []

-- What client_read_password does around the line that it reads.
abbrev pub password_actions : List Action
password_actions = no_echo ∷ echo ∷ print (ascii "\n") ∷ []

abbrev pub answered : Bool → Action
answered b = print (if b then ascii "Success.\n" else ascii "Failure.\n")

-- userdb_request_lookup in the child, and `returned_reqdata` behind it: for a name that the server does
-- not know it sends nothing, and the record of an earlier lookup stands, if no answer has come since
-- that is a truth value. `none` is a `reqdata_type` other than TYPE_USERDATA.
unfoldable pub looked_up : Outside → Option UserData → Bytes → Option UserData
looked_up env last name = elim (env.known name) [ none ↦ last | some user ↦ some user ]

-- What a request to the server leaves in `returned_reqdata`: 13 is REQ_GETUSERDATA, and 10 is REQ_MOVE,
-- which client_move sends for a word of its table only.
unfoldable pub after : Outside → Option UserData → Action → Option UserData
unfolding looked_up find dirs
after env last (ask cmd payload) =
    if cmd == 13
    then looked_up env last (take (length payload - 1) payload)
    else if cmd == 10 && is_some (find payload dirs)
    then none
    else last
after env last (add_user name pass priv) = none
after env last (del_user name) = none
after env last (store_user user) = none
after env last (print text) = last
after env last clear_screen = last
after env last no_echo = last
after env last echo = last

unfoldable pub after_all : Outside → Option UserData → List Action → Option UserData
unfolding after
after_all env last [] = last
after_all env last (a ∷ as') = after_all env (after env last a) as'

-- auth_check as the child runs it, with what `returned_reqdata` has had before: the user's data, and
-- `none` for a wrong password and where the lookup returns NULL.
unfoldable pub checked : Outside → Option UserData → Bytes → Bytes → Option UserData
unfolding auth_check remove_cruft looked_up
checked env last user pass = elim (looked_up env last (remove_cruft user)) [
  | none ↦ none
  | some data_of ↦ auth_check env.sha512 data_of pass
]
