-- ===== src/Userdb/Refines.antt =====
-- src/userdb.c: the database of users as a finite map from names to accounts and inventories.
use netcosm.Auth.{UserData}
use netcosm.Base.{
  ℕ, ◌+◌, ◌-◌, ◌%◌, ◌<◌, Bool, true, false, Option, none, some, ◌==◌, if◌then◌else◌, ◌≡◌, refl, sym,
  ◌∙◌, arith, inl, inr, Bool-cases, Option-cases, is_some,
}
use netcosm.Base.Run.{Returns}
use netcosm.Base.Words.{u32_mod}
use netcosm.Hash.Lookups.{overwrite-Finds, remove-Finds}
use netcosm.Hash.Ops.{lookup, remove}
use netcosm.Hash.Table.{IsValid}
use netcosm.Multimap.{multimap_dup, multimap_free, multimap_init, set_free_data_cb}
use netcosm.Server.Saving.{server_save_state}
use netcosm.Text.Djb.{name_keys, string_keys, string_keys-IsLawful}
use netcosm.Text.{Bytes, strcmp_eq}
use netcosm.Userdb.{Inventory, User, Userdb, kept_objects, userdb_add, userdb_lookup, userdb_remove}

-- The references to an inventory are counted without overflow.
abbrev pub IsHeld : Inventory → Type 0
IsHeld o = (0 < o.refcount) × (o.refcount < u32_mod)

-- The inventory of an entry, or an empty one.
abbrev pub inventory_of : (ℕ → ℕ → Bool) → Option User → Inventory
inventory_of obj_compare none = set_free_data_cb true (multimap_init 8 obj_compare)
inventory_of obj_compare (some old) = elim old.objects [
  | none ↦ set_free_data_cb true (multimap_init 8 obj_compare)
  | some o ↦ o
]

shared : (o : Inventory) → IsHeld o → (multimap_free (multimap_dup o)).1 ≡ some o
unfolding multimap_free multimap_dup
shared o (pos, small) =
    let back : ((o.refcount + 1) % u32_mod + (u32_mod - 1)) % u32_mod ≡ o.refcount =
      omega (arith, pos, small) in
    let held : (o.refcount == 0) ≡ false = ground (arith, pos) in rw (back, held)

kept_objects-inventory_of :
    (cmp : ℕ → ℕ → Bool) (old : Option User)
    → ((u : User) (o : Inventory) → old ≡ some u → u.objects ≡ some o → IsHeld o)
    → kept_objects cmp old ≡ some (inventory_of cmp old)
unfolding kept_objects
kept_objects-inventory_of cmp none h = refl
kept_objects-inventory_of cmp (some u) h = elim (Option-cases u.objects) [
  | inl empty ↦ rw empty
  | inr (o, e) ↦ rw e (shared o (h u o refl e))
]

-- The entry of an account with the inventory that its name has.
abbrev pub entry : (ℕ → ℕ → Bool) → UserData → Userdb → User
entry obj_compare account db = record {
  account = account;
  objects = some (inventory_of obj_compare (userdb_lookup account.username db));
}

-- Adding an account does not abort. Its name then finds the account with the inventory that the name
-- had, or an empty one, whether the name is new or not, and no other name finds anything else; the
-- inventories' references are taken to be counted without overflow.
pub userdb_add-lookup :
    (obj_compare : ℕ → ℕ → Bool) (account : UserData) (db : Userdb)
    → IsValid db.users
    → ((u : User) (o : Inventory)
        → userdb_lookup account.username db ≡ some u
        → u.objects ≡ some o
        → IsHeld o)
    → Returns (userdb_add obj_compare account db) λ db'.
      IsValid db'.users
      × ((q : Bytes)
          → userdb_lookup q db' ≡ (
              if strcmp_eq q account.username
              then some (entry obj_compare account db)
              else userdb_lookup q db))
unfolding userdb_add userdb_lookup
userdb_add-lookup obj_compare account db v held =
    let k = kept_objects-inventory_of obj_compare (lookup account.username db.users) held in
    let (r, run, f) = overwrite-Finds account.username (entry obj_compare account db) db.users v in
    (
      record { users = r.1; saver = server_save_state false db.saver },
      rw (k, run),
      (f.valid, f.finds),
    )

-- Removing a name tells whether it was there; afterwards it finds nothing, and all others what they
-- did. The state is saved in the first case only.
pub userdb_remove-lookup :
    (key : Bytes) (db : Userdb)
    → IsValid db.users
    → let (found, db') = userdb_remove key db in
      (found ≡ is_some (userdb_lookup key db))
      × IsValid db'.users
      × ((q : Bytes) → userdb_lookup q db' ≡ (if strcmp_eq q key then none else userdb_lookup q db))
      × (db'.saver ≡ (if found then server_save_state false db.saver else db.saver))
unfolding userdb_remove userdb_lookup
userdb_remove-lookup key db v =
    let (found, f) = remove-Finds key db.users v in
    elim (Bool-cases (remove key db.users).0) [
      | inl gone ↦ rw (userdb_remove, gone) (sym gone ∙ found, f.valid, f.finds, refl)
      | inr missing ↦ rw (userdb_remove, missing) (sym missing ∙ found, f.valid, f.finds, refl)
    ]
