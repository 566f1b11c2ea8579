-- ===== src/Userdb/File.antt =====
-- src/userdb.c: the file of users. What the world module writes and reads for a user is a parameter,
-- as is the part of the memory of struct userdata_t that its account leaves open. The counter of ids, which obj_read moves on, is not followed.
use Prim.Native.Nat.{min}
use mathlib.Core.List.{map}
use netcosm.Auth.{UserData}
use netcosm.Base.{
  ℕ, zero, suc, ◌+◌, Bool, true, none, some, List, [], ◌∷◌, ◌++◌, length, take, drop, ltb, ◌==◌,
  if◌then◌else◌,
}
use netcosm.Base.Run.{Run, ok, abort, ◌>>=◌}
use netcosm.Client.{userdata_size}
use netcosm.Hash.Iterate.{entries}
use netcosm.Hash.Ops.{insert}
use netcosm.Hash.Types.{HashMap, size}
use netcosm.Heap.{Heap, Holding, Things, give, store}
use netcosm.Multimap.{multimap_init, multimap_iterate_all, set_free_data_cb}
use netcosm.Object
use netcosm.Object.{Hooks, Object, obj_read, obj_write}
use netcosm.Stream.{Reader, read_size, read_uint32, write_size, write_uint32}
use netcosm.Text.Djb.{name_keys, string_keys}
use netcosm.Text.{Bytes}
use netcosm.Userdb.{User}
use netcosm.Userdb.Layout.{Slack, userdata_bytes, userdata_of}
use netcosm.World.File.{all_pairs, named_objects, read_times, write_all}

abbrev pub userdb_magic : ℕ
userdb_magic = 0x27182818

-- What the file says of a user.
pub record UserRecord {ℓ} (U : Type ℓ) : Type ℓ where
  pub account : UserData
  pub objects : List (Object U)

module _ {ℓ} {U : Type ℓ} where
  -- The objects of a user under their own names.
  unfoldable pub user_objects : (ℕ → Object U) → User → List (Object U)
  unfolding named_objects multimap_iterate_all
  user_objects heap user = elim user.objects [
    | none ↦ []
    | some bag ↦ named_objects heap (all_pairs (multimap_iterate_all bag))
  ]

abbrev pub users_of : HashMap Bytes User → List User
users_of users = map (λ e. e.1) (entries users)

module _ {ℓ} {U : Type ℓ} (hooks : Hooks U) (slack : User → Slack) (extra : User → Bytes) where
  unfoldable pub write_user : (ℕ → Object U) → User → Bytes
  unfolding user_objects userdata_bytes write_size write_all obj_write
  write_user heap user =
      userdata_bytes (slack user) user.account
      ++ (write_size (length (user_objects heap user))
          ++ (write_all (obj_write hooks) (user_objects heap user) ++ extra user))

  -- The file that userdb_write leaves, where it can be opened.
  unfoldable pub userdb_write : (ℕ → Object U) → HashMap Bytes User → Bytes
  unfolding write_user write_uint32 write_size write_all size entries
  userdb_write heap users =
      write_uint32 userdb_magic
      ++ (write_size (size users) ++ write_all (write_user heap) (users_of users))

module _ {ℓ} {U : Type ℓ} (hooks : Hooks U) (read_extra : Bytes → Run Bytes)
    (classes : Object.ClassMap) where
  unfoldable pub read_object : Reader (Object U)
  unfolding obj_read
  read_object fd = obj_read hooks classes 1 fd >>= λ (obj, next, fd). ok (obj, fd)

  -- A round of the loop of userdb_init.
  unfoldable pub read_user : Reader (UserRecord U)
  unfolding read_size read_times read_object userdata_of
  read_user fd = read_size (drop userdata_size fd) >>= λ (n_objects, fd').
      read_times n_objects read_object fd' >>= λ (objects, fd'). read_extra fd' >>= λ fd'.
      ok (record { account = userdata_of (take userdata_size fd); objects = objects }, fd')

  -- A file that ends in a user's struct, or before it, ends the loop.
  unfoldable pub read_users : ℕ → Bytes → Run (List (UserRecord U))
  unfolding read_user
  read_users zero fd = ok []
  read_users (suc n) fd =
      let later = read_user fd >>= λ (u, fd). read_users n fd >>= λ us. ok (u ∷ us) in
      if ltb (length fd) userdata_size then ok [] else later

  -- What userdb_init reads of a file that can be opened.
  unfoldable pub load_users : Bytes → Run (List (UserRecord U))
  unfolding read_uint32 read_size read_users
  load_users fd = read_uint32 fd >>= λ (magic, fd).
      if magic == userdb_magic
      then (read_size fd >>= λ (n_users, fd). read_users n_users fd)
      else abort

abbrev pub new_bag : (ℕ → ℕ → Bool) → ℕ → Things
new_bag obj_compare n_objects = set_free_data_cb true (multimap_init (min 8 n_objects) obj_compare)

module _ {U : Type 0} where
  -- The objects of a user, at the addresses from `p` on, in the new map; the next address.
  unfoldable pub stock : List (Object U) → ℕ → Holding U → Run (ℕ × Holding U)
  unfolding give
  stock [] p h = ok (p, h)
  stock (obj ∷ objs) p h =
      give p (record h { heap = store p (some obj) h.heap }) >>= λ s. stock objs (p + 1) s.1

  -- The users in the map; one whose name is there already is dropped.
  unfoldable pub fill_users :
      (ℕ → ℕ → Bool)
      → List (UserRecord U)
      → ℕ
      → Heap U
      → HashMap Bytes User
      → Run (Heap U × HashMap Bytes User)
  unfolding stock insert set_free_data_cb multimap_init
  fill_users obj_compare [] p heap users = ok (heap, users)
  fill_users obj_compare (u ∷ us) p heap users =
      stock u.objects p (record { heap = heap; things = new_bag obj_compare (length u.objects) })
      >>= λ (p, h).
          insert u.account.username (record { account = u.account; objects = some h.things }) users
          >>= λ r. fill_users obj_compare us p h.heap r.1
