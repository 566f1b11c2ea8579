-- ===== src/World/Loading.antt =====
-- src/world.c: the world file is read back.
use mathlib.Core.List.{append_assoc, map}
use netcosm.Base.{ℕ, ◌^◌, ◌<◌, none, some, List, [], ◌∷◌, ◌++◌, length, ◌≡◌, refl, ap, subst, ◌∙◌}
use netcosm.Base.Run.{Run, ok}
use netcosm.Base.Words.{inc64, u64_mod}
use netcosm.Hash.Ops.{lookup}
use netcosm.Hash.Types.{size}
use netcosm.Object
use netcosm.Object.Reading.{IsStorable, obj_read-obj_write}
use netcosm.Object.{Hooks, Object, deserialized, obj_write, obj_read}
use netcosm.Room.{Room}
use netcosm.Stream.Laws.{read_string-write_string, read_word-le_bytes}
use netcosm.Stream.{Reader, read_int, read_size, write_roomid, write_size, write_string}
use netcosm.Text.Djb.{string_keys}
use netcosm.Verb
use netcosm.Verb.Laws.{verb_read-verb_write}
use netcosm.Verb.{Verb, verb_read, verb_write}
use netcosm.World.File.{
  RoomRecord, load_object, load_room, num_directions, read_times, room_objects_of, room_verbs_of,
  save_room, write_all,
}
use netcosm.Text.{Bytes}

-- All elements of a list have a property.
abbrev pub All {ℓ κ} : {A : Type ℓ} → (A → Type κ) → List A → Type κ
All P [] = Unit
All P (x ∷ xs) = P x × All P xs

-- A list that is written element by element is read back, where each element is.
pub read_times-write_all {ℓ ℓ' κ} :
    {A : Type ℓ} {B : Type ℓ'} (Good : A → Type κ) (f : Reader B) (g : A → Bytes) (h : A → B)
    → ((x : A) (rest : Bytes) → Good x → f (g x ++ rest) ≡ ok (h x, rest))
    → (xs : List A) (rest : Bytes) → All Good xs
    → read_times (length xs) f (write_all g xs ++ rest) ≡ ok (map h xs, rest)
unfolding read_times write_all
read_times-write_all Good f g h back [] rest all = refl
read_times-write_all Good f g h back (x ∷ xs) rest (good, all) = rw (
  append_assoc (g x) (write_all g xs) rest,
  back x (write_all g xs ++ rest) good,
  read_times-write_all Good f g h back xs rest all,
)

map-id {ℓ} : {A : Type ℓ} (xs : List A) → map (λ x. x) xs ≡ xs
map-id [] = refl
map-id (x ∷ xs) = ap (λ ys. x ∷ ys) (map-id xs)

-- The same where each element is read back as it was.
pub read_times-write_same {ℓ κ} :
    {A : Type ℓ} (Good : A → Type κ) (f : Reader A) (g : A → Bytes)
    → ((x : A) (rest : Bytes) → Good x → f (g x ++ rest) ≡ ok (x, rest))
    → (xs : List A) (rest : Bytes) → All Good xs
    → read_times (length xs) f (write_all g xs ++ rest) ≡ ok (xs, rest)
read_times-write_same Good f g back xs rest all =
    read_times-write_all Good f g (λ x. x) back xs rest all ∙ ap (λ ys. ok (ys, rest)) (map-id xs)

-- An id that fits 32 bits.
abbrev pub IsId : ℕ → Type 0
IsId id = id < 2 ^ 32

pub read_int-write_roomid :
    (id : ℕ) (rest : Bytes) → IsId id → read_int (write_roomid id ++ rest) ≡ ok (id, rest)
unfolding read_int write_roomid
read_int-write_roomid id rest h = read_word-le_bytes 4 id rest h

pub read_size-write_size :
    (n : ℕ) (rest : Bytes) → n < u64_mod → read_size (write_size n ++ rest) ≡ ok (n, rest)
unfolding read_size write_size
read_size-write_size n rest h = read_word-le_bytes 8 n rest h

-- A verb whose class is known, and whose names fit the file.
abbrev pub IsLoadable : Verb.ClassMap → Verb → Type 0
IsLoadable m v =
    (lookup v.class.class_name m ≡ some v.class)
    × (length v.class.class_name < u64_mod)
    × (length v.name < u64_mod)

module _ {ℓ} {U : Type ℓ} where
  abbrev pub fresh : Object U → Object U
  fresh obj = record obj { refcount = 1 }

module _ {ℓ} {U : Type ℓ} (hooks : Hooks U) (classes : Object.ClassMap) where
  -- An object whose class is known, whose fields fit the file, and whose hooks read what they write.
  abbrev pub IsKept : Object U → Type ℓ
  IsKept obj =
      (lookup obj.class.class_name classes ≡ some obj.class)
      × IsStorable obj
      × ((rest : Bytes)
          → deserialized hooks (record obj { userdata = none; refcount = 1 })
              ((elim (hooks.hook_serialize obj.class) [ none ↦ [] | some f ↦ f obj ]) ++ rest)
            ≡ ok (fresh obj, rest))

  -- Such an object is read back, with one reference.
  pub obj_read-kept :
      (obj : Object U) (rest : Bytes)
      → IsKept obj
      → obj_read hooks classes 1 (obj_write hooks obj ++ rest) ≡ ok (fresh obj, inc64 1, rest)
  obj_read-kept obj rest (known, fits, back) =
      obj_read-obj_write hooks classes 1 obj rest known fits (back rest)

module _ {ℓ} {U : Type ℓ} (hooks : Hooks U) (extra : ℕ → Bytes) (read_extra : ℕ → Bytes → Run Bytes)
    (classes : Object.ClassMap) (verb_classes : Verb.ClassMap) where
  load_object-obj_write :
      (obj : Object U) (rest : Bytes)
      → IsKept hooks classes obj
      → load_object hooks read_extra classes verb_classes (obj_write hooks obj ++ rest)
        ≡ ok (fresh obj, rest)
  unfolding load_object
  load_object-obj_write obj rest kept = rw (obj_read-kept hooks classes obj rest kept)

  -- The room as the file has it.
  abbrev pub room_record : (ℕ → Object U) → Room → RoomRecord U
  room_record heap room = record {
    id = room.id;
    name = room.roomdata.name;
    desc = room.roomdata.desc;
    adjacent = room.adjacent;
    objects = map fresh (room_objects_of heap room);
    verbs = room_verbs_of room;
  }

  -- The room's fields fit the file, its verbs and objects are loadable, and its verbs are counted.
  abbrev pub IsSaved : (ℕ → Object U) → Room → Type ℓ
  IsSaved heap room =
      IsId room.id
      × (length room.roomdata.name < u64_mod)
      × (length room.roomdata.desc < u64_mod)
      × (length room.adjacent ≡ num_directions)
      × All IsId room.adjacent
      × (length (room_objects_of heap room) < u64_mod)
      × All (IsKept hooks classes) (room_objects_of heap room)
      × (size room.verbs ≡ length (room_verbs_of room))
      × (length (room_verbs_of room) < u64_mod)
      × All (IsLoadable verb_classes) (room_verbs_of room)

  pub load_room-save_room :
      ((id : ℕ) (rest : Bytes) → read_extra id (extra id ++ rest) ≡ ok rest)
      → (heap : ℕ → Object U) (room : Room) (rest : Bytes) → IsSaved heap room
      → load_room hooks read_extra classes verb_classes (save_room hooks extra heap room ++ rest)
        ≡ ok (room_record heap room, rest)
  unfolding load_room save_room
  load_room-save_room back heap room rest
        (id, name, desc, twelve, links, few, kept, counted, few', verbs) =
      let tail : Bytes = extra room.id ++ rest in
      let b7 : Bytes = write_all verb_write (room_verbs_of room) ++ tail in
      let b6 : Bytes = write_size (size room.verbs) ++ b7 in
      let b5 : Bytes = write_all (obj_write hooks) (room_objects_of heap room) ++ b6 in
      let b4 : Bytes = write_size (length (room_objects_of heap room)) ++ b5 in
      let b3 : Bytes = write_all write_roomid room.adjacent ++ b4 in
      let b2 : Bytes = write_string room.roomdata.desc ++ b3 in
      let b1 : Bytes = write_string room.roomdata.name ++ b2 in
      let whole : save_room hooks extra heap room ++ rest ≡ write_roomid room.id ++ b1 =
        simp append_assoc in
      let links' : read_times num_directions read_int b3 ≡ ok (room.adjacent, b4) =
        subst (λ n. read_times n read_int b3 ≡ ok (room.adjacent, b4)) twelve
          (read_times-write_same IsId read_int write_roomid read_int-write_roomid room.adjacent b4
            links) in
      let verbs' : read_times (size room.verbs) (verb_read verb_classes) b7
          ≡ ok (room_verbs_of room, tail) =
        rw counted (
          read_times-write_same (IsLoadable verb_classes) (verb_read verb_classes) verb_write
            (λ v rest (k, c, n). verb_read-verb_write verb_classes v rest k c n)
            (room_verbs_of room) tail verbs) in
      rw (
        whole,
        read_int-write_roomid room.id b1 id,
        read_string-write_string room.roomdata.name b2 name,
        read_string-write_string room.roomdata.desc b3 desc,
        links',
        read_size-write_size (length (room_objects_of heap room)) b5 few,
        read_times-write_all (IsKept hooks classes)
            (load_object hooks read_extra classes verb_classes) (obj_write hooks) fresh
            load_object-obj_write (room_objects_of heap room) b6 kept,
        read_size-write_size (size room.verbs) b7 (rw counted few'),
        verbs',
        back room.id rest,
      )
