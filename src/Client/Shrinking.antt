-- ===== src/Client/Shrinking.antt =====
-- src/client.c: no callback brings lines back.
use netcosm.Auth.{UserData}
use netcosm.Base.{
  ℕ, suc, ◌≤◌, Option, none, some, List, [], ◌∷◌, length, arith, inl, inr, Option-cases,
}
use netcosm.Client.Callbacks.{
  before, call, client_kick, new_password, run_chpass, run_client, run_drop, run_go, run_look,
  run_say, old_password, run_take, run_user, user_add, user_del, user_edit, user_edited,
}
use netcosm.Client.Shell.{
  user_cb, client_cb, quit_cb, say_cb, date_cb, logout_cb, look_cb, inventory_cb, take_cb, wait_cb,
  go_cb, drop_cb, chpass_cb, Action, Callback, Line, Outside, Reply, checked, next_token,
}
use netcosm.Text.{Bytes}

-- At most `n` lines are left.
unfoldable pub Within : ℕ → Reply → Type 0
Within n none = Unit
Within n (some (actions, code, rest)) = length rest ≤ n

before-Within :
    (n : ℕ) (actions : List Action) (r : Reply) → Within n r → Within n (before actions r)
unfolding Within before
before-Within n actions none h = tt
before-Within n actions (some r) h = h

nothing-Within : (n : ℕ) → Within n none
unfolding Within
nothing-Within n = tt

more-Within : (n : ℕ) (r : Reply) → Within n r → Within (suc n) r
unfolding Within
more-Within n none h = tt
more-Within n (some r) h = omega (arith, h)

user_del-Within :
    (env : Outside) (current args : Bytes) (input : List Line)
    → Within (length input) (user_del env current args input)
unfolding Within user_del
user_del-Within env current args input = ground arith

user_edited-Within :
    (user pass allow : Bytes) (input : List Line)
    → Within (length input) (user_edited user pass allow input)
unfolding Within user_edited
user_edited-Within user pass allow input = ground arith

user_edit-Within : (user : Bytes) (input : List Line) → Within (length input) (user_edit user input)
unfolding Within before user_edit user_edited
user_edit-Within user [] = tt
user_edit-Within user (pass ∷ []) = tt
user_edit-Within user (pass ∷ pass2 ∷ []) = ground arith
user_edit-Within user (pass ∷ pass2 ∷ allow ∷ input) = ground arith

user_add-Within :
    (current args : Bytes) (input : List Line) → Within (length input) (user_add current args input)
unfolding Within user_add
user_add-Within current args input = elim (Option-cases (next_token args)) [
  | inl none_left ↦ rw (Within, none_left) (omega arith)
  | inr (word, e) ↦ rw (Within, e) (ground (arith, user_edit-Within word.0 input))
]

run_user-Within :
    (env : Outside) (current args : Bytes) (input : List Line)
    → Within (length input) (run_user env current args input)
unfolding Within run_user
run_user-Within env current args input = elim (Option-cases (next_token args)) [
  | inl none_left ↦ rw (Within, none_left) (omega arith)
  | inr (word, e) ↦
      rw (Within, e)
        (ground
          (arith, user_del-Within env current word.1 input, user_add-Within current word.1 input))
]

run_client-Within :
    (env : Outside) (args : Bytes) (input : List Line)
    → Within (length input) (run_client env args input)
unfolding Within run_client client_kick
run_client-Within env args input = ground arith

run_go-Within :
    (env : Outside) (args : Bytes) (input : List Line)
    → Within (length input) (run_go env args input)
unfolding Within run_go
run_go-Within env args input = ground arith

new_password-Within :
    (current : Bytes) (priv : ℕ) (input : List Line)
    → Within (length input) (new_password current priv input)
unfolding Within before new_password
new_password-Within current priv [] = tt
new_password-Within current priv (a ∷ []) = tt
new_password-Within current priv (a ∷ b ∷ input) = ground arith

old_password-Within :
    (current : Bytes) (answer : Option UserData) (input : List Line)
    → Within (length input) (old_password current answer input)
unfolding Within old_password
old_password-Within current none input = omega arith
old_password-Within current (some user) input = new_password-Within current user.priv input

run_chpass-Within :
    (env : Outside) (last : Option UserData) (current : Bytes) (input : List Line)
    → Within (length input) (run_chpass env last current input)
unfolding run_chpass
run_chpass-Within env last current [] = nothing-Within 0
run_chpass-Within env last current (line ∷ input) =
    let w = old_password-Within current (checked env last current line.text) input in
    before-Within _ _ _ (before-Within _ _ _ (more-Within _ _ w))

-- A callback leaves no more lines than it gets.
pub call-Within :
    (env : Outside) (last : Option UserData) (current : Bytes) (cb : Callback) (args : Bytes)
    (input : List Line)
    → Within (length input) (call env last current cb args input)
unfolding Within call run_say run_look run_take run_drop
call-Within env last current user_cb args input = run_user-Within env current args input
call-Within env last current client_cb args input = run_client-Within env args input
call-Within env last current quit_cb args input = omega arith
call-Within env last current say_cb args input = omega arith
call-Within env last current date_cb args input = omega arith
call-Within env last current logout_cb args input = omega arith
call-Within env last current look_cb args input = ground arith
call-Within env last current inventory_cb args input = omega arith
call-Within env last current take_cb args input = ground arith
call-Within env last current wait_cb args input = omega arith
call-Within env last current go_cb args input = run_go-Within env args input
call-Within env last current drop_cb args input = ground arith
call-Within env last current chpass_cb args input = run_chpass-Within env last current input
