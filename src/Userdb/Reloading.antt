-- ===== src/Userdb/Reloading.antt =====
-- src/userdb.c: the users that userdb_write has written are read back.
use mathlib.Core.List.{append_assoc}
use netcosm.Base.{
  ℕ, ◌≤◌, ◌<◌, ◌≡◌, refl, ap, List, [], ◌∷◌, ◌++◌, length, length-append, map, take, drop, ltb,
  subst, false, arith,
}
use netcosm.Base.Run.{Run, ok}
use netcosm.Base.Words.{u64_mod}
use netcosm.Client.{userdata_size}
use netcosm.Hash.Types.{HashMap, size}
use netcosm.Object
use netcosm.Object.{Hooks, Object, obj_write}
use netcosm.Stream.Laws.{read_word-le_bytes}
use netcosm.Stream.{read_uint32, write_size, write_uint32}
use netcosm.Text.Djb.{string_keys}
use netcosm.Text.{Bytes}
use netcosm.Userdb.File.{
  UserRecord, load_users, read_object, read_user, read_users, user_objects, userdb_magic,
  userdb_write, users_of, write_user,
}
use netcosm.Userdb.{User}
use netcosm.Userdb.Layout.{
  IsStruct, Slack, length-userdata_bytes, userdata_bytes, userdata_of-userdata_bytes,
}
use netcosm.World.File.{write_all}
use netcosm.World.Loading.{
  All, IsKept, fresh, obj_read-kept, read_size-write_size, read_times-write_all,
}

drop_front : (a b : Bytes) → drop (length a) (a ++ b) ≡ b
drop_front [] b = refl
drop_front (c ∷ a) b = drop_front a b

take_front : (a b : Bytes) → take (length a) (a ++ b) ≡ a
take_front [] b = refl
take_front (c ∷ a) b = ap (λ s. c ∷ s) (take_front a b)

module _ {ℓ} {U : Type ℓ} (hooks : Hooks U) (slack : User → Slack) (extra : User → Bytes)
    (read_extra : Bytes → Run Bytes) (classes : Object.ClassMap) where
  -- The user as the file has it.
  abbrev pub user_record : (ℕ → Object U) → User → UserRecord U
  user_record heap user = record {
    account = user.account;
    objects = map fresh (user_objects heap user);
  }

  -- The account fits the members of the struct, and the user's objects can be read back.
  abbrev pub IsFiled : (ℕ → Object U) → User → Type ℓ
  IsFiled heap user =
      IsStruct (slack user) user.account
      × (length (user_objects heap user) < u64_mod)
      × All (IsKept hooks classes) (user_objects heap user)

  read_object-obj_write :
      (obj : Object U) (rest : Bytes)
      → IsKept hooks classes obj
      → read_object hooks read_extra classes (obj_write hooks obj ++ rest) ≡ ok (fresh obj, rest)
  unfolding read_object
  read_object-obj_write obj rest kept = rw (obj_read-kept hooks classes obj rest kept) refl

  module _ (back : (user : User) (rest : Bytes) → read_extra (extra user ++ rest) ≡ ok rest)
      (heap : ℕ → Object U) where
    read_user-write_user :
        (user : User) (rest : Bytes)
        → IsFiled heap user
        → read_user hooks read_extra classes (write_user hooks slack extra heap user ++ rest)
          ≡ ok (user_record heap user, rest)
    unfolding read_user write_user
    read_user-write_user user rest (fits, few, kept) =
        let sized = length-userdata_bytes (slack user) user.account fits in
        let same = userdata_of-userdata_bytes (slack user) user.account fits in
        let packed : Bytes = userdata_bytes (slack user) user.account in
        let objs = user_objects heap user in
        let b2 : Bytes = extra user ++ rest in
        let b1 : Bytes = write_all (obj_write hooks) objs ++ b2 in
        let b0 : Bytes = write_size (length objs) ++ b1 in
        let whole : write_user hooks slack extra heap user ++ rest ≡ packed ++ b0 =
          simp (write_user, append_assoc) refl in
        let cut : drop userdata_size (packed ++ b0) ≡ b0 =
          subst (λ n. drop n (packed ++ b0) ≡ b0) sized (drop_front packed b0) in
        let front : take userdata_size (packed ++ b0) ≡ packed =
          subst (λ n. take n (packed ++ b0) ≡ packed) sized (take_front packed b0) in
        let objects' =
          read_times-write_all (IsKept hooks classes) (read_object hooks read_extra classes)
            (obj_write hooks) fresh read_object-obj_write objs b2 kept in
        rw whole (
          rw (cut, read_size-write_size (length objs) b1 few, objects', back user rest, front, same)
            refl)

    write_user-size :
        (user : User)
        → IsFiled heap user
        → userdata_size ≤ length (write_user hooks slack extra heap user)
    unfolding write_user
    write_user-size user (fits, _, _) = omega (
      arith,
      length-append (userdata_bytes (slack user) user.account) _,
      length-userdata_bytes (slack user) user.account fits,
    )

    read_users-write_all :
        (us : List User)
        → All (IsFiled heap) us
        → read_users hooks read_extra classes
            (length us)
            (write_all (write_user hooks slack extra heap) us)
          ≡ ok (map (user_record heap) us)
    unfolding read_users write_all
    read_users-write_all [] all = refl
    read_users-write_all (u ∷ us) (filed, all) =
        let rest : Bytes = write_all (write_user hooks slack extra heap) us in
        let long : ltb (length (write_user hooks slack extra heap u ++ rest)) userdata_size
            ≡ false =
          ground (
            arith,
            length-append (write_user hooks slack extra heap u) rest,
            write_user-size u filed,
          ) in
        rw (long, read_user-write_user u rest filed, read_users-write_all us all) refl

    -- The file that userdb_write has written is read back: every user with the account, and the objects
    -- under their own names with one reference, in the order of the map. The accounts are taken to fit
    -- the struct, the objects to fit the file, and what is outside to read what it writes.
    pub load_users-userdb_write :
        (users : HashMap Bytes User)
        → size users ≡ length (users_of users)
        → length (users_of users) < u64_mod
        → All (IsFiled heap) (users_of users)
        → load_users hooks read_extra classes (userdb_write hooks slack extra heap users)
          ≡ ok (map (user_record heap) (users_of users))
    unfolding load_users userdb_write read_uint32 write_uint32
    load_users-userdb_write users counted few filed =
        let b1 : Bytes = write_all (write_user hooks slack extra heap) (users_of users) in
        let b0 : Bytes = write_size (size users) ++ b1 in
        let magic = read_word-le_bytes 4 userdb_magic b0 (omega arith) in
        rw (magic, read_size-write_size (size users) b1 (rw counted few), counted)
          (read_users-write_all (users_of users) filed)
