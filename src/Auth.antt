-- ===== src/Auth.antt =====
-- src/auth.c: login names and the check of passwords. SHA-512 is OpenSSL's: a function on bytes.
-- HASH_ITERS is 1, so that the loop that hashes the digest again runs (1 / 2) - 1 times, not at all.
pub mod Laws
pub mod Check
use netcosm.Base.{
  ℕ, zero, suc, ◌+◌, ◌-◌, ◌*◌, ◌/◌, ◌%◌, Bool, true, false, not, ◌&&◌, ◌||◌, Option, none, some,
  List, [], ◌∷◌, ◌++◌, length, take, get_or, ltb, ◌==◌, if◌then◌else◌,
}
use netcosm.Text.Cruft.{remove_cruft}
use netcosm.Text.{Bytes, is_alpha, is_digit}

abbrev pub max_name_len : ℕ
max_name_len = 32

abbrev pub salt_len : ℕ
salt_len = 16

-- SHA512_DIGEST_LENGTH
abbrev pub auth_hashlen : ℕ
auth_hashlen = 64

-- The loop of valid_login_name, with the count of the characters so far.
unfoldable pub valid_from : ℕ → Bytes → Bool
unfolding is_alpha is_digit
valid_from len [] = true
valid_from len (c ∷ s) =
    let rest = valid_from (len + 1) s in
    if ltb max_name_len (len + 1)
    then false
    else if not (is_alpha c || is_digit c)
    then false
    else rest

unfoldable pub valid_login_name : Bytes → Bool
unfolding valid_from
valid_login_name name = valid_from 0 name

-- "%02x"
abbrev pub hex_digit : ℕ → ℕ
hex_digit n = if ltb n 10 then b'0' + n else b'a' + (n - 10)

unfoldable pub hex : Bytes → Bytes
hex [] = []
hex (b ∷ bs) = hex_digit (b / 16) ∷ hex_digit (b % 16) ∷ hex bs

-- struct userdata_t, as far as the login concerns it
pub record UserData : Type 0 where
  pub username : Bytes
  pub salt : Bytes
  pub passhash : Bytes
  pub priv : ℕ
  pub last_login : ℕ

-- The loop of auth_check over `n` characters from `i` on, which does not stop early.
unfoldable pub matches : ℕ → ℕ → Bytes → Bytes → Bool → Bool
matches zero i new old success = success
matches (suc n) i new old success =
    matches n (i + 1) new old (if get_or new i 0 == get_or old i 0 then success else false)

module _ (sha512 : Bytes → Bytes) where
  -- The first 16 bytes of the salt, which has as many, stand before the password.
  unfoldable pub hash_pass_hex : Bytes → Bytes → Bytes
  unfolding hex
  hash_pass_hex pass salt = hex (sha512 (take salt_len salt ++ pass))

  -- The entry that add_user_internal asks for, with the salt that it drew and the time.
  unfoldable pub add_user_internal : Bytes → Bytes → ℕ → Bytes → ℕ → UserData
  unfolding hash_pass_hex
  add_user_internal name pass authlevel salt now = record {
    username = take (max_name_len + 1) name;
    salt = salt;
    passhash = hash_pass_hex pass salt;
    priv = authlevel;
    last_login = now;
  }

  -- The request to add a user, and none where the name is not valid.
  unfoldable pub auth_user_add : Bytes → Bytes → ℕ → Bytes → ℕ → Option UserData
  unfolding add_user_internal valid_login_name remove_cruft
  auth_user_add user pass level salt now =
      let name = remove_cruft user in
      if not (valid_login_name name)
      then none
      else some (add_user_internal name (remove_cruft pass) level salt now)

  -- What auth_check returns for the record that the lookup has returned; where there is none it returns
  -- NULL.
  unfoldable pub auth_check : UserData → Bytes → Option UserData
  unfolding hash_pass_hex remove_cruft matches
  auth_check user pass =
      if matches auth_hashlen 0 (hash_pass_hex (remove_cruft pass) user.salt) user.passhash true
      then some user
      else none

-- The name that auth_user_del asks the server to remove, if it asks.
unfoldable pub auth_user_del : Bytes → Option Bytes
unfolding valid_login_name remove_cruft
auth_user_del user =
    let name = remove_cruft user in if valid_login_name name then some name else none
