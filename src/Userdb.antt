-- ===== src/Userdb.antt =====
-- src/userdb.c and src/server_reqs.c: the users in memory, their inventories, and the requests on them.
-- An entry that is overwritten is freed, and with it its reference to the inventory that the new entry
-- shares with it.
pub mod Refines
pub mod File
pub mod Layout
pub mod Reloading
use netcosm.Auth.{UserData}
use netcosm.Base.{
  ℕ, ◌+◌, Bool, true, false, not, Option, none, some, List, [], ◌∷◌, ◌==◌, if◌then◌else◌,
}
use netcosm.Base.Run.{Run, ok, ◌>>=◌}
use netcosm.Client.{userdata_size}
use netcosm.Hash.Ops.{lookup, overwrite, remove}
use netcosm.Hash.Types.{HashMap, init, set_free_data}
use netcosm.Multimap.{Multimap, multimap_dup, multimap_free, multimap_init, set_free_data_cb}
use netcosm.Server.Handlers.{c_string}
use netcosm.Server.Saving.{Saver, server_save_state}
use netcosm.Server.{Server, post}
use netcosm.Text.Djb.{ObjName, name_keys, string_keys}
use netcosm.Text.{Bytes}

abbrev pub Inventory : Type 0
Inventory = Multimap ObjName ℕ

-- struct userdata_t, without the data of the world module
pub record User : Type 0 where
  pub account : UserData
  pub objects : Option Inventory

-- `map`, and the counter that decides when it is written.
pub record Userdb : Type 0 where
  pub users : HashMap Bytes User
  pub saver : Saver

-- The map that userdb_init makes where there is no file.
unfoldable pub userdb_init : Saver → Userdb
unfolding init set_free_data
userdb_init saver = record { users = set_free_data true (init 256); saver = saver }

unfoldable pub userdb_lookup : Bytes → Userdb → Option User
unfolding lookup
userdb_lookup key db = lookup key db.users

unfoldable pub userdb_size : Userdb → ℕ
userdb_size db = db.users.n_entries

unfoldable pub userdb_remove : Bytes → Userdb → Bool × Userdb
unfolding remove server_save_state
userdb_remove key db =
    let (found, released, users) = remove key db.users in
    if found
    then (true, record { users = users; saver = server_save_state false db.saver })
    else (false, record db { users = users })

-- The inventory of a new entry. An old one is shared by `multimap_dup`, and loses the old entry's
-- reference when `hash_overwrite` frees that.
unfoldable pub kept_objects : (ℕ → ℕ → Bool) → Option User → Option Inventory
unfolding multimap_dup multimap_free multimap_init set_free_data_cb
kept_objects obj_compare none = some (set_free_data_cb true (multimap_init 8 obj_compare))
kept_objects obj_compare (some old) = elim old.objects [
  | none ↦ some (set_free_data_cb true (multimap_init 8 obj_compare))
  | some objects ↦ (multimap_free (multimap_dup objects)).1
]

unfoldable pub userdb_add : (ℕ → ℕ → Bool) → UserData → Userdb → Run Userdb
unfolding kept_objects overwrite lookup server_save_state
userdb_add obj_compare account db =
    let new : User = record {
      account = account;
      objects = kept_objects obj_compare (lookup account.username db.users);
    } in
    overwrite account.username new db.users >>= λ r.
    ok (record { users = r.1; saver = server_save_state false db.saver })

-- The requests, for the bytes of struct userdata_t and what they mean. A request for a user that is
-- not there is not answered.
module _ (pack : User → Bytes) (unpack : Bytes → UserData) (obj_compare : ℕ → ℕ → Bool) where
  unfoldable pub req_send_user : Bytes → ℕ → ℕ → Userdb → Server → Run Server
  unfolding userdb_lookup c_string post
  req_send_user text len sender db sv =
      if len == 0 then ok sv else elim (userdb_lookup (c_string text) db) [
        | none ↦ ok sv
        | some user ↦ post sender 13 (pack user) sv
      ]

  abbrev success_byte : Bool → Bytes
  success_byte b = (if b then 1 else 0) ∷ []

  unfoldable pub req_del_user : Bytes → ℕ → ℕ → Userdb → Server → Run (Userdb × Server)
  unfolding userdb_remove c_string post
  req_del_user text len sender db sv =
      let (success, db') = if len == 0 then (false, db) else userdb_remove (c_string text) db in
      post sender 14 (success_byte success) sv >>= λ sv. ok (db', sv)

  unfoldable pub req_add_user : Bytes → ℕ → ℕ → Userdb → Server → Run (Userdb × Server)
  unfolding userdb_add post
  req_add_user text len sender db sv =
      if len == userdata_size
      then (userdb_add obj_compare (unpack text) db >>= λ db'.
          post sender 15 (success_byte true) sv >>= λ sv. ok (db', sv))
      else (post sender 15 (success_byte false) sv >>= λ sv. ok (db, sv))
