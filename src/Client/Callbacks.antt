-- ===== src/Client/Callbacks.antt =====
-- src/client.c: the callbacks of the commands.
use netcosm.Auth.{UserData, valid_login_name}
use netcosm.Base.{
  ℕ, true, false, not, ◌&&◌, ◌||◌, Option, none, some, List, [], ◌∷◌, ◌++◌, ◌==◌, if◌then◌else◌,
  is_empty, get_or,
}
use netcosm.Client.Moves.{with_nul}
use netcosm.Client.Shell.{
  Action, Callback, Outside, Reply, Line, print, ask, clear_screen, add_user, del_user, cmd_logout,
  cmd_quit, user_cb, client_cb, quit_cb, say_cb, date_cb, logout_cb, look_cb, inventory_cb, take_cb,
  wait_cb, go_cb, drop_cb, chpass_cb, next_token, whole_rest, done, look_actions, password_actions,
  answered, priv_admin, checked,
}
use netcosm.Stream.{le_bytes}
use netcosm.Text.Cruft.{remove_cruft}
use netcosm.Text.{Bytes, ascii, all_upper, all_lower, strcmp_eq, to_upper}

abbrev user_usage : Action
user_usage = print (ascii "Usage: USER <ADD|DEL|MODIFY|LIST> <ARGS>\n")

-- `USER DEL`; a removal is asked for only where the name is another's and valid.
unfoldable pub user_del : Outside → Bytes → Bytes → List Line → Reply
user_del env current args input = elim (next_token args) [
  | none ↦ done (print (ascii "Usage: USER DEL <USERNAME>\n") ∷ []) input
  | some (user, rest) ↦
      let name = remove_cruft user in
      if not (strcmp_eq user current) && valid_login_name name
      then done (del_user name ∷ answered (env.removed name) ∷ []) input
      else done (answered false ∷ []) input
]

-- What follows the question for the privileges.
unfoldable pub user_edited : Bytes → Bytes → Bytes → List Line → Reply
user_edited user pass allow_admin input =
    let priv = if to_upper (get_or allow_admin 0 0) == b'Y' then priv_admin else 0 in
    let name = remove_cruft user in
    if valid_login_name name
    then done (add_user name (remove_cruft pass) priv ∷ answered true ∷ []) input
    else done (answered false ∷ []) input

unfoldable pub before : List Action → Reply → Reply
before actions none = none
before actions (some (more, code, input)) = some (actions ++ more, code, input)

-- The dialogue of `USER ADD` and `USER MODIFY`: two passwords, and the privileges.
unfoldable pub user_edit : Bytes → List Line → Reply
unfolding user_edited
user_edit user (pass ∷ pass2 ∷ input) =
    before
      (print (ascii "Editing user '" ++ user ++ ascii "'\n")
          ∷ print (ascii "New Password (_DO_NOT_USE_A_VALUABLE_PASSWORD_): ")
          ∷ password_actions
        ++ print (ascii "Verify Password: ") ∷ password_actions)
      (if strcmp_eq pass.text pass2.text
        then elim input [
          | [] ↦ none
          | allow ∷ rest ↦
              before (print (ascii "Admin privileges [y/N]? ") ∷ [])
                (user_edited user pass.text allow.text rest)
        ]
        else done (answered false ∷ []) input)
user_edit user input = none

unfoldable pub user_add : Bytes → Bytes → List Line → Reply
unfolding user_edit
user_add current args input = elim (next_token args) [
  | none ↦ done (print (ascii "Usage: USER <ADD|MODIFY> <USERNAME>\n") ∷ []) input
  | some (user, rest) ↦
      if strcmp_eq user current
      then done
          (print (ascii "Do not modify your own password using USER. User CHPASS instead.\n") ∷ [])
          input
      else user_edit user input
]

unfoldable pub run_user : Outside → Bytes → Bytes → List Line → Reply
unfolding user_del user_add
run_user env current args input = elim (next_token args) [
  | none ↦ done (user_usage ∷ []) input
  | some (tok, rest) ↦
      let what = all_upper tok in
      if strcmp_eq what (ascii "DEL")
      then user_del env current rest input
      else if strcmp_eq what (ascii "ADD") || strcmp_eq what (ascii "MODIFY")
      then user_add current rest input
      else if strcmp_eq what (ascii "LIST")
      then done (ask 23 [] ∷ []) input
      else done (user_usage ∷ []) input
]

-- `CLIENT KICK` with a word behind it.
unfoldable pub client_kick : Outside → Bytes → List Line → Reply
client_kick env tok input =
    let pid_s = all_upper tok in
    let (pid, end) = env.strtol pid_s in
    if strcmp_eq pid_s (ascii "ALL")
    then done (ask 18 (ascii "Kicking everyone...\n") ∷ print (ascii "All clients kicked.\n") ∷ [])
        input
    else if pid == env.pid
    then done (print (ascii "You cannot kick yourself. Use EXIT instead.\n") ∷ []) input
    else if not (is_empty end)
    then done (print (ascii "Expected a child PID after KICK.\n") ∷ []) input
    else done (ask 6 (le_bytes 4 pid ++ ascii "You were kicked.\n") ∷ []) input

unfoldable pub run_client : Outside → Bytes → List Line → Reply
unfolding client_kick
run_client env args input = elim (next_token args) [
  | none ↦ done (print (ascii "Usage: CLIENT <LIST|KICK> <PID>\n") ∷ []) input
  | some (tok, rest) ↦
      let what = all_upper tok in
      if strcmp_eq what (ascii "LIST")
      then done (ask 2 [] ∷ []) input
      else if strcmp_eq what (ascii "KICK")
      then elim (next_token rest) [
        | none ↦ done (print (ascii "Usage: CLIENT KICK <PID|ALL>\n") ∷ []) input
        | some (tok, rest) ↦ client_kick env tok input
      ]
      else done [] input
]

-- glibc prints "(null)" for the missing text.
unfoldable pub run_say : Bytes → Bytes → List Line → Reply
run_say current args input =
    let what : Bytes = elim (whole_rest args) [ none ↦ ascii "(null)" | some s ↦ s ] in
    done (ask 1 (current ++ ascii " says " ++ what ++ ascii "\n") ∷ []) input

unfoldable pub run_look : Bytes → List Line → Reply
run_look args input = elim (whole_rest args) [
  | none ↦ done look_actions input
  | some what ↦ done (ask 19 (with_nul (all_lower what)) ∷ []) input
]

unfoldable pub run_take : Bytes → List Line → Reply
run_take args input = elim (whole_rest args) [
  | none ↦ done (print (ascii "You must supply an object.\n") ∷ []) input
  | some what ↦ done (ask 20 (with_nul (all_lower what)) ∷ []) input
]

-- The name of the object keeps its case here.
unfoldable pub run_drop : Bytes → List Line → Reply
run_drop args input = elim (whole_rest args) [
  | none ↦ done (print (ascii "You must supply an object.\n") ∷ []) input
  | some what ↦ done (ask 22 (with_nul what) ∷ []) input
]

-- client_move stands for its request here: `moves` tells whether it succeeds.
unfoldable pub run_go : Outside → Bytes → List Line → Reply
run_go env args input = elim (next_token args) [
  | none ↦ done (print (ascii "I don't understand where you want me to go.\n") ∷ []) input
  | some (tok, rest) ↦
      let dir = all_upper tok in
      done (ask 10 dir ∷ (if env.moves dir then look_actions else [])) input
]

-- The new password twice, behind the old one.
unfoldable pub new_password : Bytes → ℕ → List Line → Reply
new_password current priv (pass1 ∷ pass2 ∷ input) =
    before
      (print (ascii "Enter new password: ") ∷ password_actions
        ++ print (ascii "Retype new password: ") ∷ password_actions)
      (if strcmp_eq pass1.text pass2.text
        then done
            ((if valid_login_name (remove_cruft current)
                then add_user (remove_cruft current) (remove_cruft pass1.text) priv ∷ []
                else [])
              ++ print (ascii "Password updated.\n") ∷ [])
            input
        else done (print (ascii "Passwords do not match.\n") ∷ []) input)
new_password current priv input = none

-- What follows the check of the old password.
unfoldable pub old_password : Bytes → Option UserData → List Line → Reply
unfolding new_password
old_password current none input = done (print (ascii "Authentication failed.\n") ∷ []) input
old_password current (some user) input = new_password current user.priv input

unfoldable pub run_chpass : Outside → Option UserData → Bytes → List Line → Reply
unfolding old_password checked
run_chpass env last current [] = none
run_chpass env last current (line ∷ input) =
    before
      (print (ascii "Changing password for " ++ current ++ ascii "\n")
        ∷ print (ascii "Enter current password: ")
        ∷ password_actions)
      (before (ask 13 (with_nul (remove_cruft current)) ∷ [])
        (old_password current (checked env last current line.text) input))

-- The callback of a command, for the user `current`, on what stands behind the command; `last` is what
-- `returned_reqdata` has.
unfoldable pub call : Outside → Option UserData → Bytes → Callback → Bytes → List Line → Reply
unfolding run_user run_client run_say run_look run_take run_drop run_go run_chpass
call env last current user_cb args input = run_user env current args input
call env last current client_cb args input = run_client env args input
call env last current quit_cb args input = some ([], cmd_quit, input)
call env last current say_cb args input = run_say current args input
call env last current date_cb args input = done (print (env.ctime env.now) ∷ []) input
call env last current logout_cb args input =
    some (print (ascii "Logged out.\n") ∷ clear_screen ∷ [], cmd_logout, input)
call env last current look_cb args input = run_look args input
call env last current inventory_cb args input = done (ask 21 [] ∷ []) input
call env last current take_cb args input = run_take args input
call env last current wait_cb args input = done (ask 7 [] ∷ []) input
call env last current go_cb args input = run_go env args input
call env last current drop_cb args input = run_drop args input
call env last current chpass_cb args input = run_chpass env last current input
