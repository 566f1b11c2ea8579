-- ===== src/World/File.antt =====
-- src/world.c: the world file. What world_save writes of the maps is read back as a record of lists,
-- which world_load puts into new maps; the hooks of the rooms write and read bytes of their own.
use mathlib.Core.List.{map}
use netcosm.Base.{
  ℕ, zero, suc, Option, none, some, List, [], ◌∷◌, ◌++◌, length, ◌==◌, if◌then◌else◌,
}
use netcosm.Base.Run.{Run, ok, abort, ◌>>=◌}
use netcosm.Hash.Iterate.{entries}
use netcosm.Hash.Types.{HashMap, size}
use netcosm.Multimap.{multimap_iterate_all}
use netcosm.Object
use netcosm.Object.{Object, Hooks, obj_read, obj_write}
use netcosm.Room.{Room}
use netcosm.Stream.{
  Reader, read_int, read_size, read_string, read_uint32, read_uint64, write_roomid, write_size,
  write_string, write_uint32, write_uint64,
}
use netcosm.Text.Djb.{ObjName, name_keys, string_keys}
use netcosm.Text.{Bytes, strcmp_eq}
use netcosm.Verb
use netcosm.World.{World}
use netcosm.Verb.{Verb, verb_read, verb_write}

abbrev pub world_magic : ℕ
world_magic = 0x31415926

-- NUM_DIRECTIONS
unfoldable pub num_directions : ℕ
num_directions = 12

unfoldable pub write_all {ℓ} : {A : Type ℓ} → (A → Bytes) → List A → Bytes
write_all f [] = []
write_all f (x ∷ xs) = f x ++ write_all f xs

-- As many values as a count says, one after the other.
unfoldable pub read_times {ℓ} : {A : Type ℓ} → ℕ → Reader A → Reader (List A)
read_times zero f fd = ok ([], fd)
read_times (suc n) f fd = f fd >>= λ (x, fd). read_times n f fd >>= λ (xs, fd). ok (x ∷ xs, fd)

-- What the file says of a room.
pub record RoomRecord {ℓ} (U : Type ℓ) : Type ℓ where
  pub id : ℕ
  pub name : Bytes
  pub desc : Bytes
  pub adjacent : List ℕ
  pub objects : List (Object U)
  pub verbs : List Verb

abbrev pub all_pairs : List (List (ObjName × ℕ) × ℕ) → List (ObjName × ℕ)
all_pairs [] = []
all_pairs ((ps, n) ∷ rest) = ps ++ all_pairs rest

abbrev pub room_verbs_of : Room → List Verb
room_verbs_of room = map (λ e. e.1) (entries room.verbs)

-- The name of a room with its id.
abbrev pub write_entry : Bytes × ℕ → Bytes
write_entry (key, id) = write_string key ++ write_roomid id

unfoldable pub load_entry : Reader (Bytes × ℕ)
unfolding read_string read_int
load_entry fd = read_string fd >>= λ (key, fd). read_int fd >>= λ (id, fd). ok ((key, id), fd)

module _ {ℓ} {U : Type ℓ} where
  -- The objects of a room under their own names, as obj_count_noalias counts them.
  unfoldable pub named_objects : (ℕ → Object U) → List (ObjName × ℕ) → List (Object U)
  named_objects heap [] = []
  named_objects heap ((k, p) ∷ ps) =
      let rest = named_objects heap ps in
      if strcmp_eq k.text (heap p).name then heap p ∷ rest else rest

  abbrev pub room_objects_of : (ℕ → Object U) → Room → List (Object U)
  room_objects_of heap room = named_objects heap (all_pairs (multimap_iterate_all room.objects))

module _ {ℓ} {U : Type ℓ} (hooks : Hooks U) (extra : ℕ → Bytes) where
  unfoldable pub save_room : (ℕ → Object U) → Room → Bytes
  unfolding named_objects multimap_iterate_all entries write_all obj_write verb_write size
  save_room heap room =
      write_roomid room.id
      ++ (write_string room.roomdata.name
          ++ (write_string room.roomdata.desc
              ++ (write_all write_roomid room.adjacent
                  ++ (write_size (length (room_objects_of heap room))
                      ++ (write_all (obj_write hooks) (room_objects_of heap room)
                          ++ (write_size (size room.verbs)
                              ++ (write_all verb_write (room_verbs_of room) ++ extra room.id)))))))

  -- world_save, on the objects in memory, the global verbs, the counter of ids and the world.
  unfoldable pub world_save : (ℕ → Object U) → HashMap Bytes Verb → ℕ → World → Bytes
  unfolding save_room entries write_all verb_write size
  world_save heap global_verbs idcounter w =
      write_uint32 world_magic
      ++ (write_size (length w.rooms)
          ++ (write_string w.world_name
              ++ (write_size (size global_verbs)
                  ++ (write_all verb_write (map (λ e. e.1) (entries global_verbs))
                      ++ (write_all (save_room heap) w.rooms
                          ++ (write_uint64 idcounter
                              ++ write_all write_entry (entries w.world_map)))))))

-- What the file says of the world.
pub record WorldRecord {ℓ} (U : Type ℓ) : Type ℓ where
  pub name : Bytes
  pub verbs : List Verb
  pub rooms : List (RoomRecord U)
  pub idcounter : ℕ
  pub names : List (Bytes × ℕ)

module _ {ℓ} {U : Type ℓ} (hooks : Hooks U) (extra : ℕ → Bytes → Run Bytes)
    (classes : Object.ClassMap) (verb_classes : Verb.ClassMap) where
  -- The counter that obj_read takes its first id from is set anew at the end.
  unfoldable pub load_object : Reader (Object U)
  unfolding obj_read
  load_object fd = obj_read hooks classes 1 fd >>= λ (obj, next, fd). ok (obj, fd)

  -- What world_load reads of a room. A read of the links that is cut short aborts here.
  unfoldable pub load_room : Reader (RoomRecord U)
  unfolding read_int read_string read_times read_size load_object verb_read
  load_room fd = read_int fd >>= λ (id, fd). read_string fd >>= λ (name, fd).
      read_string fd >>= λ (desc, fd). read_times num_directions read_int fd >>= λ (adjacent, fd).
      read_size fd >>= λ (n_objects, fd). read_times n_objects load_object fd >>= λ (objects, fd).
      read_size fd >>= λ (n_verbs, fd).
      read_times n_verbs (verb_read verb_classes) fd >>= λ (verbs, fd). extra id fd >>= λ fd. ok (
        record {
          id = id;
          name = name;
          desc = desc;
          adjacent = adjacent;
          objects = objects;
          verbs = verbs;
        },
        fd,
      )

  -- The part of the file behind the name.
  unfoldable pub load_body : ℕ → Bytes → Bytes → Run (Option (WorldRecord U))
  unfolding read_size read_times verb_read load_room read_uint64 load_entry
  load_body world_sz name fd = read_size fd >>= λ (n, fd).
      read_times n (verb_read verb_classes) fd >>= λ (verbs, fd).
      read_times world_sz load_room fd >>= λ (rooms, fd). read_uint64 fd >>= λ (idcounter, fd).
      read_times world_sz load_entry fd >>= λ (names, fd). ok (
        some (record {
          name = name;
          verbs = verbs;
          rooms = rooms;
          idcounter = idcounter;
          names = names;
        }))

  -- What world_load reads, for a module with `data_sz` rooms; `none` for another world.
  unfoldable pub load_world : ℕ → Bytes → Bytes → Run (Option (WorldRecord U))
  unfolding read_uint32 read_size read_string load_body
  load_world data_sz name fd = read_uint32 fd >>= λ (magic, fd).
      if magic == world_magic
      then (read_size fd >>= λ (world_sz, fd).
          if world_sz == data_sz
          then (read_string fd >>= λ (world_name, fd).
              if strcmp_eq name world_name then load_body world_sz world_name fd else ok none)
          else ok none)
      else abort
