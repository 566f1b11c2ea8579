-- ===== src/Dunnet/Console.antt =====
-- worlds/dunnet.c: the console of the computer, line by line. What it does for a line is the list of its
-- answers to the user, and whether it ends the raw mode, in which the lines come to it.
use netcosm.Base.{
  ℕ, zero, suc, ◌<◌, ◌-◌, take, ◌+◌, ◌≡◌, refl, sym, ap, ◌∙◌, Bool, true, false, ◌&&◌, ◌||◌, List,
  [], ◌∷◌, leb, if◌then◌else◌, Option, none, some, Bool-cases, inl, inr, arith,
}
use netcosm.Text.{Bytes, ascii, strcmp_eq}

-- The states of a user's console.
pub data ConsoleState : Type 0 where
  no_console : ConsoleState
  pokey_login : ConsoleState
  pokey_shell : ConsoleState
  pokey_ftp : ConsoleState
  gamma_ftp : ConsoleState

-- struct dunnet_user; the members of the union stand beside the state
pub record DunnetUser : Type 0 where
  pub console_state : ConsoleState
  pub prompt_pass : Bool
  pub correct_user : Bool
  pub fails : ℕ

pub data Reply : Type 0 where
  tell : Bytes → Reply
  toggle_rawmode : Reply

abbrev pub login_prompt : Bytes
login_prompt = ascii "\n\n\nUNIX System V, Release 2.2 (pokey)\n\nlogin: "

abbrev pub welcome_text : Bytes
welcome_text =
    ascii
      "\n\nWelcome to Unix\n\nPlease clean up your directories.  The filesystem is getting full.\nOur tcp/ip link to gamma is a little flaky, but seems to work.\nThe current version of ftp can only send files from your home\ndirectory, and deletes them after they are sent!  Be careful.\n\nNote: Restricted bourne shell in use.\n\n"

-- The answer to a password.
unfoldable pub check_password : Bytes → DunnetUser → List Reply × DunnetUser
check_password text du =
    if strcmp_eq text (ascii "robert") && du.correct_user
    then (tell welcome_text ∷ tell (ascii "$ ") ∷ [], record du { console_state = pokey_shell })
    else if leb 3 (du.fails + 1)
    then (
      tell (ascii "login incorrect\n") ∷ toggle_rawmode ∷ [],
      record du { fails = du.fails + 1 },
    )
    else (
      tell (ascii "login incorrect\n") ∷ tell login_prompt ∷ [],
      record du { fails = du.fails + 1; prompt_pass = false },
    )

unfoldable pub login_line : Bytes → DunnetUser → List Reply × DunnetUser
unfolding check_password
login_line text du = if du.prompt_pass then check_password text du else (
  tell (ascii "password: ") ∷ [],
  record du {
    correct_user = if strcmp_eq text (ascii "toukmond") then true else du.correct_user;
    prompt_pass = true;
  },
)

-- A line typed at the console; pokey_unix_command does nothing yet.
unfoldable pub console_cb : Bytes → DunnetUser → List Reply × DunnetUser
unfolding login_line
console_cb text du = elim du.console_state [
  | no_console ↦ (tell (ascii "FIXME") ∷ [], du)
  | pokey_login ↦ login_line text du
  | pokey_shell ↦ (tell (ascii "$ ") ∷ [], du)
  | pokey_ftp ↦ (tell (ascii "FIXME") ∷ [], du)
  | gamma_ftp ↦ (tell (ascii "FIXME") ∷ [], du)
]

abbrev pub fresh_user : DunnetUser
fresh_user = record {
  console_state = no_console;
  prompt_pass = false;
  correct_user = false;
  fails = 0;
}

-- The part of type_exec on an active computer, up to the raw mode; `none` is a user without data, for
-- whom `calloc` makes them.
unfoldable pub enter_console : Option DunnetUser → List Reply × DunnetUser
enter_console none = (tell login_prompt ∷ [], record fresh_user { console_state = pokey_login })
enter_console (some du) =
    let anew : List Reply × DunnetUser = (
      tell login_prompt ∷ [],
      record du { console_state = pokey_login; prompt_pass = false; fails = 0 },
    ) in
    elim du.console_state [
      | no_console ↦ anew
      | pokey_login ↦
          if du.prompt_pass
          then (tell (ascii "password: ") ∷ [], du)
          else (tell login_prompt ∷ [], du)
      | pokey_shell ↦ ([], du)
      | pokey_ftp ↦ ([], du)
      | gamma_ftp ↦ anew
    ]

abbrev pub toggles : List Reply → Bool
toggles [] = false
toggles (tell text ∷ rs) = toggles rs
toggles (toggle_rawmode ∷ rs) = true

-- The lines of a user go to the console until it ends the raw mode.
unfoldable pub console_lines : List Bytes → DunnetUser → DunnetUser
unfolding console_cb
console_lines [] du = du
console_lines (text ∷ lines) du =
    let (replies, du') = console_cb text du in
    let rest = console_lines lines du' in if toggles replies then du' else rest

-- Attempts to log in, as lines.
abbrev pub lines_of : List (Bytes × Bytes) → List Bytes
lines_of [] = []
lines_of ((name, password) ∷ attempts) = name ∷ password ∷ lines_of attempts

-- Whether some attempt has the right password while it, or one before it, has had the right name.
abbrev pub opens : Bool → List (Bytes × Bytes) → Bool
opens known [] = false
opens known ((name, password) ∷ attempts) =
    let known' = known || strcmp_eq name (ascii "toukmond") in
    strcmp_eq password (ascii "robert") && known' || opens known' attempts

abbrev pub is_shell : ConsoleState → Bool
is_shell no_console = false
is_shell pokey_login = false
is_shell pokey_shell = true
is_shell pokey_ftp = false
is_shell gamma_ftp = false

abbrev pub at_prompt : Bool → ℕ → DunnetUser
at_prompt known fails = record {
  console_state = pokey_login;
  prompt_pass = false;
  correct_user = known;
  fails = fails;
}

shell_stays :
    (lines : List Bytes) (known asks : Bool) (fails : ℕ)
    → is_shell
        (console_lines lines (record {
          console_state = pokey_shell;
          prompt_pass = asks;
          correct_user = known;
          fails = fails;
        })).console_state
      ≡ true
unfolding console_lines console_cb
shell_stays [] known asks fails = refl
shell_stays (text ∷ lines) known asks fails = shell_stays lines known asks fails

take_nil {ℓ} : {A : Type ℓ} (n : ℕ) → take {A = A} n [] ≡ []
take_nil zero = refl
take_nil (suc n) = refl

take_suc {ℓ} :
    {A : Type ℓ} (n : ℕ) (x : A) (xs : List A) → 0 < n → take n (x ∷ xs) ≡ x ∷ take (n - 1) xs
take_suc zero x xs h = absurd (omega (arith, h))
take_suc (suc n) x xs h = ap (λ k. x ∷ take k xs) (omega arith)

none_left : (fails : ℕ) → fails < 3 → leb 3 (fails + 1) ≡ true → 3 - fails - 1 ≡ 0
none_left fails few over = ground (arith, few, over)

-- From the prompt for a name, with fewer than three failures so far, the console opens a shell exactly
-- where one of the attempts that are left has the right password while it, or any attempt before it,
-- has had the right name: a right name is never forgotten, whatever password and names follow it.
pub console_lines-opens :
    (attempts : List (Bytes × Bytes)) (known : Bool) (fails : ℕ)
    → fails < 3
    → is_shell (console_lines (lines_of attempts) (at_prompt known fails)).console_state
      ≡ opens known (take (3 - fails) attempts)
unfolding console_lines console_cb login_line check_password
console_lines-opens [] known fails few = ap (opens known) (sym (take_nil (3 - fails)))
console_lines-opens ((u, p) ∷ as') known fails few =
    let known' = known || strcmp_eq u (ascii "toukmond") in
    let same : (if strcmp_eq u (ascii "toukmond") then true else known) ≡ known' = ground arith in
    let cut = take_suc (3 - fails) (u, p) as' (omega (arith, few)) in
    let stays = shell_stays (lines_of as') known' true fails in
    let next = console_lines-opens as' known' (fails + 1) in
    rw (cut, same)
      (elim (Bool-cases (strcmp_eq p (ascii "robert") && known')) [
        | inl right ↦ rw right stays
        | inr wrong ↦ elim (Bool-cases (leb 3 (fails + 1))) [
          | inl over ↦
              let last : take (3 - fails - 1) as' ≡ [] =
                ap (λ n. take n as') (none_left fails few over) in
              rw (wrong, over, last) refl
          | inr more ↦
              let left : 3 - (fails + 1) ≡ 3 - fails - 1 = omega arith in
              rw (wrong, more)
                (next (ground (arith, more)) ∙ ap (λ n. opens known' (take n as')) left)
        ]
      ])
