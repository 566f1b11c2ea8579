-- ===== src/Realm.antt =====
-- src/room.c, src/userdb.c, src/world.c and src/server_reqs.c: the objects of the rooms and of the users
-- in one heap, and the server that moves them. A pointer that the C code does not check and that is
-- NULL, of a room, a user or a child that has not logged in, ends the run. Every entry of the user
-- database has an inventory, as userdb_init and userdb_add give it one.
pub mod Carrying
pub mod Showing
pub mod Verbs
pub mod Scene
pub mod Taking
pub mod Dropping
use netcosm.Base.{ℕ, Bool, true, false, Option, none, some, List, [], ◌∷◌, ◌++◌, map, set}
use netcosm.Base.Run.{Run, ok, abort, ◌>>=◌}
use netcosm.Game.{Game, with_room}
use netcosm.Hash.Types.{HashMap, Keys}
use netcosm.Heap.{Heap, Holding, Things, give, share, take_out}
use netcosm.Multimap.{Pair, multimap_lookup, multimap_size, write_through}
use netcosm.Room.{Room, name_key}
use netcosm.Server.Handlers.{send_msg}
use netcosm.Server.Saving.{server_save_state}
use netcosm.Server.{Child, Server}
use netcosm.Text.Djb.{ObjName, string_keys}
use netcosm.Text.{Bytes}
use netcosm.Userdb.{User, Userdb, userdb_lookup}
use netcosm.Verb.{Verb}
use netcosm.World.{room_get}

-- `verbs` is the global map of verbs of world.c.
pub record Realm (U : Type 0) : Type 0 where
  pub heap : Heap U
  pub game : Game
  pub userdb : Userdb
  pub verbs : HashMap Bytes Verb

abbrev pub values : Option (List (Pair ObjName ℕ) × ℕ) → List ℕ
values none = []
values (some (ps, n)) = map (λ p. p.1) ps

module _ {U : Type 0} ⦃obj_keys : Keys ObjName⦄ where
  abbrev pub with_server : Server → Realm U → Realm U
  with_server sv r = record r { game = record r.game { server = sv } }

  unfoldable pub say : ℕ → Bytes → Realm U → Run (Realm U)
  unfolding send_msg
  say pid text r = send_msg pid text r.game.server >>= λ sv. ok (with_server sv r)

  -- The room of an id, and the user of a name with its inventory.
  unfoldable pub the_room : ℕ → Realm U → Run Room
  the_room id r = elim (room_get id r.game.world) [ none ↦ abort | some room ↦ ok room ]

  unfoldable pub the_bag : Bytes → Realm U → Run (User × Things)
  unfolding userdb_lookup
  the_bag name r = elim (userdb_lookup name r.userdb) [
    | none ↦ abort
    | some user ↦ elim user.objects [ none ↦ abort | some things ↦ ok (user, things) ]
  ]

  abbrev pub with_things : ℕ → Room → Holding U → Realm U → Realm U
  with_things id room h r = record r {
    heap = h.heap;
    game = with_room id (record room { objects = h.things }) r.game;
  }

  abbrev pub with_bag : Bytes → User → Holding U → Realm U → Realm U
  with_bag name user h r =
      let db = r.userdb in
      record r {
        heap = h.heap;
        userdb = record db {
          users = write_through name (record user { objects = some h.things }) db.users;
        };
      }

  -- A change of the objects of a room, and of those of a user.
  unfoldable pub in_room : ℕ → (Holding U → Run (Bool × Holding U)) → Realm U → Run (Bool × Realm U)
  unfolding the_room
  in_room id f r = the_room id r >>= λ room.
      f (record { heap = r.heap; things = room.objects }) >>= λ s.
      ok (s.0, with_things id room s.1 r)

  unfoldable pub in_bag :
      Bytes → (Holding U → Run (Bool × Holding U)) → Realm U → Run (Bool × Realm U)
  unfolding the_bag
  in_bag name f r = the_bag name r >>= λ u.
      f (record { heap = r.heap; things = u.1 }) >>= λ s. ok (s.0, with_bag name u.0 s.1 r)

  unfoldable pub room_obj_add : ℕ → ℕ → Realm U → Run (Bool × Realm U)
  unfolding in_room give
  room_obj_add room obj r = in_room room (give obj) r

  unfoldable pub room_obj_del_by_ptr : ℕ → ℕ → Realm U → Run (Bool × Realm U)
  unfolding in_room take_out
  room_obj_del_by_ptr room obj r = in_room room (take_out obj) r

  unfoldable pub userdb_add_obj : Bytes → ℕ → Realm U → Run (Bool × Realm U)
  unfolding in_bag share
  userdb_add_obj name obj r = in_bag name (share obj) r

  unfoldable pub userdb_del_obj_by_ptr : Bytes → ℕ → Realm U → Run (Bool × Realm U)
  unfolding in_bag take_out
  userdb_del_obj_by_ptr username obj r = in_bag username (take_out obj) r

  -- The pairs of a name in a room, and their number.
  unfoldable pub room_obj_get_size : ℕ → Bytes → Realm U → Run (Option (List (Pair ObjName ℕ) × ℕ))
  unfolding the_room multimap_lookup
  room_obj_get_size room name r =
      the_room room r >>= λ room. ok (multimap_lookup (name_key name) room.objects)

  -- The objects of a name in a room; a name without a pair has none.
  unfoldable pub room_obj_get : ℕ → Bytes → Realm U → Run (List ℕ)
  unfolding room_obj_get_size
  room_obj_get room name r = room_obj_get_size room name r >>= λ found. ok (values found)

  unfoldable pub room_obj_count : ℕ → Realm U → Run ℕ
  unfolding the_room multimap_size
  room_obj_count room r = the_room room r >>= λ room. ok (multimap_size room.objects)

  abbrev pub saved : Realm U → Realm U
  saved r =
      let db = r.userdb in
      record r { userdb = record db { saver = server_save_state false db.saver } }
