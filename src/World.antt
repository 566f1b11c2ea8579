-- ===== src/World.antt =====
-- src/world.c: the rooms of the world and their links.
pub mod Init
pub mod File
pub mod Loading
pub mod Reloading
pub mod Filling
pub mod Counting
use mathlib.Core.List.{map}
use netcosm.Base.{
  ℕ, suc, ◌+◌, ◌*◌, ◌^◌, Bool, true, false, Option, none, some, List, [], ◌∷◌, length, get_elem?,
}
use netcosm.Base.Run.{Run, ok, abort, ◌>>=◌}
use netcosm.Hash.Ops.{insert, lookup}
use netcosm.Hash.Types.{HashMap, init}
use netcosm.Room.{RoomData, Room, room_objects, room_verbs, room_users}
use netcosm.Stream.{room_none}
use netcosm.Text.Djb.{string_keys}
use netcosm.Text.{Bytes}

-- The globals of world.c. `world_map` holds the index of the room to which its pointers point.
pub record World : Type 0 where
  pub rooms : List Room
  pub world_map : HashMap Bytes ℕ
  pub world_name : Bytes

-- What world_init asks of the other modules: how many users there are, and how objects compare.
pub record Start : Type 0 where
  pub userdb_size : ℕ
  pub obj_compare : ℕ → ℕ → Bool

-- The link that the first pass sets: to a room that is there already, and 0 from `calloc` otherwise.
unfoldable pub link_early : HashMap Bytes ℕ → Option Bytes → ℕ
link_early m none = 0
link_early m (some s) = elim (lookup s m) [ none ↦ 0 | some id ↦ id ]

unfoldable pub new_room : Start → ℕ → RoomData → List ℕ → Room
unfolding room_objects room_verbs room_users
new_room start i d links = record {
  id = i;
  roomdata = d;
  adjacent = links;
  objects = room_objects start.obj_compare;
  verbs = room_verbs;
  users = room_users start.userdb_size;
}

-- The first pass, from room `i` on: the rooms and the map of their names. A name that is taken aborts.
unfoldable pub first_pass :
    Start → ℕ → List RoomData → HashMap Bytes ℕ → Run (List Room × HashMap Bytes ℕ)
unfolding insert link_early new_room
first_pass start i [] m = ok ([], m)
first_pass start i (d ∷ ds) m = insert d.uniq_id i m >>= λ r. elim r.0 [
  | some taken ↦ abort
  | none ↦
      let room = new_room start i d (map (link_early r.1) d.adjacent) in
      first_pass start (i + 1) ds r.1 >>= λ (rooms, m). ok (room ∷ rooms, m)
]

-- The links of one room in the second pass; a name that no room has aborts.
unfoldable pub second_links : HashMap Bytes ℕ → List (Option Bytes) → Run (List ℕ)
unfolding lookup
second_links m [] = ok []
second_links m (none ∷ as') = second_links m as' >>= λ ids. ok (room_none ∷ ids)
second_links m (some s ∷ as') = elim (lookup s m) [
  | none ↦ abort
  | some id ↦ second_links m as' >>= λ ids. ok (id ∷ ids)
]

unfoldable pub second_pass : HashMap Bytes ℕ → List Room → Run (List Room)
unfolding second_links
second_pass m [] = ok []
second_pass m (room ∷ rooms) = second_links m room.roomdata.adjacent >>= λ ids.
    second_pass m rooms >>= λ rest. ok (record room { adjacent = ids } ∷ rest)

-- The third pass only calls the hooks of the rooms and prints warnings.
unfoldable pub world_init : Start → List RoomData → Bytes → Run World
unfolding first_pass second_pass init
world_init start rooms name = first_pass start 0 rooms (init (length rooms * 2)) >>= λ (early, m).
    second_pass m early >>= λ linked.
    ok (record { rooms = linked; world_map = m; world_name = name })

-- room_get, where the id is that of a room
unfoldable pub room_get : ℕ → World → Option Room
room_get id w = get_elem? w.rooms id

-- room_get_id
unfoldable pub room_get_id : Bytes → World → ℕ
unfolding lookup
room_get_id uniq_id w = elim (lookup uniq_id w.world_map) [ none ↦ room_none | some id ↦ id ]
