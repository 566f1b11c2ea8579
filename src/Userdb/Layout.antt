-- ===== src/Userdb/Layout.antt =====
-- src/userdb.h: the memory of struct userdata_t on a 64-bit machine, which the file of users and the
-- packets hold as it is. The account lies in 33, 17 and 129 `char`s, a byte of padding, and integers of
-- four and eight bytes, before two pointers.
use netcosm.Auth.{UserData}
use netcosm.Base.{
  ℕ, zero, suc, ◌+◌, ◌^◌, ◌≤◌, ◌<◌, ◌≡◌, ◌∙◌, refl, ap, subst, [], ◌∷◌, ◌++◌, length, length-append,
  length-take, take, drop, arith,
}
use netcosm.Client.{userdata_size}
use netcosm.Server.Handlers.{c_string}
use netcosm.Stream.Laws.{le_value-le_bytes, length-le_bytes, take_prefix}
use netcosm.Stream.{le_bytes, le_value}
use netcosm.Text.{Bytes, IsCString}

-- The bytes of a struct on which its account has no say: those behind the NULs of its arrays, the
-- padding, and the pointers to the objects and to the data of the world module.
pub record Slack : Type 0 where
  pub username : Bytes
  pub salt : Bytes
  pub passhash : Bytes
  pub padding : ℕ
  pub objects : ℕ
  pub userdata : ℕ

-- An array of `n` chars with a string in it, its NUL, and what was behind that.
unfoldable pub char_array : ℕ → Bytes → Bytes → Bytes
char_array n s behind = take n (s ++ 0 ∷ behind)

unfoldable pub userdata_bytes : Slack → UserData → Bytes
unfolding char_array le_bytes
userdata_bytes slack user =
    char_array 33 user.username slack.username
    ++ (char_array 17 user.salt slack.salt
        ++ (char_array 129 user.passhash slack.passhash
            ++ (le_bytes 1 slack.padding
                ++ (le_bytes 4 user.priv
                    ++ (le_bytes 8 user.last_login
                        ++ (le_bytes 8 slack.objects ++ le_bytes 8 slack.userdata))))))

-- The account that the members of a struct have.
unfoldable pub userdata_of : Bytes → UserData
unfolding c_string le_value
userdata_of text =
    let salt = drop 33 text in
    let passhash = drop 17 salt in
    let priv = drop 1 (drop 129 passhash) in
    let last_login = drop 4 priv in
    record {
      username = c_string (take 33 text);
      salt = c_string (take 17 salt);
      passhash = c_string (take 129 passhash);
      priv = le_value (take 4 priv);
      last_login = le_value (take 8 last_login);
    }

-- A string fits an array with its NUL, and with what is behind the NUL fills it.
abbrev pub IsStored : ℕ → Bytes → Bytes → Type 0
IsStored n s behind = IsCString s × (length s < n) × (n ≤ length s + 1 + length behind)

abbrev pub IsStruct : Slack → UserData → Type 0
IsStruct slack user =
    IsStored 33 user.username slack.username
    × IsStored 17 user.salt slack.salt
    × IsStored 129 user.passhash slack.passhash
    × (user.priv < 2 ^ 32)
    × (user.last_login < 2 ^ 64)

c_string-take :
    (n : ℕ) (s behind : Bytes)
    → IsCString s
    → length s < n
    → c_string (take n (s ++ 0 ∷ behind)) ≡ s
unfolding c_string
c_string-take zero s behind h k = absurd (omega (arith, k))
c_string-take (suc n) [] behind h k = refl
c_string-take (suc n) (c ∷ s) behind h k =
    rw h.0 (ap (λ s. c ∷ s) (c_string-take n s behind h.1 (omega (arith, k))))

length-char_array :
    (n : ℕ) (s behind : Bytes)
    → n ≤ length s + 1 + length behind
    → length (char_array n s behind) ≡ n
unfolding char_array
length-char_array n s behind h = rw length-take (omega (arith, h, length-append s (0 ∷ behind)))

string_of : (n : ℕ) (s behind : Bytes) → IsStored n s behind → c_string (char_array n s behind) ≡ s
unfolding char_array
string_of n s behind h = c_string-take n s behind h.0 h.1

-- A field at the front of the memory, by its size.
field :
    (n : ℕ) (a rest : Bytes) → length a ≡ n → (take n (a ++ rest) ≡ a) × (drop n (a ++ rest) ≡ rest)
field n a rest h =
    subst (λ n. (take n (a ++ rest) ≡ a) × (drop n (a ++ rest) ≡ rest)) h (take_prefix a rest)

module _ (slack : Slack) (user : UserData) (fits : IsStruct slack user) where
  -- The memory from a member on.
  abbrev from_objects : Bytes
  from_objects = le_bytes 8 slack.objects ++ le_bytes 8 slack.userdata

  abbrev from_last_login : Bytes
  from_last_login = le_bytes 8 user.last_login ++ from_objects

  abbrev from_priv : Bytes
  from_priv = le_bytes 4 user.priv ++ from_last_login

  abbrev from_padding : Bytes
  from_padding = le_bytes 1 slack.padding ++ from_priv

  abbrev from_passhash : Bytes
  from_passhash = char_array 129 user.passhash slack.passhash ++ from_padding

  abbrev from_salt : Bytes
  from_salt = char_array 17 user.salt slack.salt ++ from_passhash

  pub length-userdata_bytes : length (userdata_bytes slack user) ≡ userdata_size
  unfolding userdata_bytes
  length-userdata_bytes =
      let (name, salt, hash, priv, login) = fits in
      omega (
        arith,
        length-append (char_array 33 user.username slack.username) from_salt,
        length-append (char_array 17 user.salt slack.salt) from_passhash,
        length-append (char_array 129 user.passhash slack.passhash) from_padding,
        length-append (le_bytes 1 slack.padding) from_priv,
        length-append (le_bytes 4 user.priv) from_last_login,
        length-append (le_bytes 8 user.last_login) from_objects,
        length-append (le_bytes 8 slack.objects) (le_bytes 8 slack.userdata),
        length-char_array 33 user.username slack.username name.2,
        length-char_array 17 user.salt slack.salt salt.2,
        length-char_array 129 user.passhash slack.passhash hash.2,
        length-le_bytes 1 slack.padding,
        length-le_bytes 4 user.priv,
        length-le_bytes 8 user.last_login,
        length-le_bytes 8 slack.objects,
        length-le_bytes 8 slack.userdata,
      )

  -- The account of a struct whose strings and numbers fit its members is read from its memory.
  pub userdata_of-userdata_bytes : userdata_of (userdata_bytes slack user) ≡ user
  unfolding userdata_of userdata_bytes
  userdata_of-userdata_bytes =
      let (name, salt, hash, priv, login) = fits in
      let f1 =
        field 33 (char_array 33 user.username slack.username) from_salt
          (length-char_array 33 user.username slack.username name.2) in
      let f2 =
        field 17 (char_array 17 user.salt slack.salt) from_passhash
          (length-char_array 17 user.salt slack.salt salt.2) in
      let f3 =
        field 129 (char_array 129 user.passhash slack.passhash) from_padding
          (length-char_array 129 user.passhash slack.passhash hash.2) in
      let f4 = field 1 (le_bytes 1 slack.padding) from_priv (length-le_bytes 1 slack.padding) in
      let f5 = field 4 (le_bytes 4 user.priv) from_last_login (length-le_bytes 4 user.priv) in
      let f6 =
        field 8 (le_bytes 8 user.last_login) from_objects (length-le_bytes 8 user.last_login) in
      let d2 = ap (λ t. drop 17 t) f1.1 ∙ f2.1 in
      let d3 = ap (λ t. drop 1 (drop 129 t)) d2 ∙ (ap (λ t. drop 1 t) f3.1 ∙ f4.1) in
      let d4 = ap (λ t. drop 4 t) d3 ∙ f5.1 in
      let e1 = ap (λ t. c_string t) f1.0 ∙ string_of 33 user.username slack.username name in
      let e2 =
        ap (λ t. c_string (take 17 t)) f1.1
        ∙ (ap (λ t. c_string t) f2.0 ∙ string_of 17 user.salt slack.salt salt) in
      let e3 =
        ap (λ t. c_string (take 129 t)) d2
        ∙ (ap (λ t. c_string t) f3.0 ∙ string_of 129 user.passhash slack.passhash hash) in
      let e4 =
        ap (λ t. le_value (take 4 t)) d3
        ∙ (ap (λ t. le_value t) f5.0 ∙ le_value-le_bytes 4 user.priv priv) in
      let e5 =
        ap (λ t. le_value (take 8 t)) d4
        ∙ (ap (λ t. le_value t) f6.0 ∙ le_value-le_bytes 8 user.last_login login) in
      λ i. record { username = e1 i; salt = e2 i; passhash = e3 i; priv = e4 i; last_login = e5 i }
