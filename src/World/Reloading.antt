-- ===== src/World/Reloading.antt =====
-- src/world.c: a world that is saved is loaded again, and only by the module it belongs to.
use mathlib.Core.List.{append_assoc, append-nil, map}
use netcosm.Base.{
  ℕ, ◌<◌, ◌&&◌, none, some, List, [], ◌++◌, length, ◌≡◌, subst, arith, inl, inr, Bool-cases, ◌==◌,
  if◌then◌else◌,
}
use netcosm.Base.Run.{Run, ok}
use netcosm.Base.Words.{u64_mod}
use netcosm.Hash.Iterate.{entries}
use netcosm.Hash.Types.{HashMap, size}
use netcosm.Object
use netcosm.Object.Reading.{read_uint64-write_uint64}
use netcosm.Object.{Hooks, Object}
use netcosm.Stream.Laws.{read_string-write_string, read_word-le_bytes}
use netcosm.Stream.{read_uint32, write_roomid, write_size, write_string, write_uint32, write_uint64}
use netcosm.Text.Djb.{string_keys}
use netcosm.Text.{Bytes, strcmp_eq}
use netcosm.Verb
use netcosm.Verb.Laws.{verb_read-verb_write}
use netcosm.Verb.{Verb, verb_read, verb_write}
use netcosm.World.File.{
  WorldRecord, load_body, load_entry, load_room, load_world, read_times, save_room, world_magic,
  world_save, write_all, write_entry,
}
use netcosm.World.Loading.{
  All, IsId, IsLoadable, IsSaved, load_room-save_room, read_size-write_size, read_int-write_roomid,
  read_times-write_all, read_times-write_same, room_record,
}
use netcosm.World.{World}

-- A name with its room that fits the file.
abbrev pub IsNamed : Bytes × ℕ → Type 0
IsNamed (key, id) = (length key < u64_mod) × IsId id

load_entry-write_entry :
    (e : Bytes × ℕ) (rest : Bytes) → IsNamed e → load_entry (write_entry e ++ rest) ≡ ok (e, rest)
unfolding load_entry
load_entry-write_entry (key, id) rest (k, i) = rw (
  append_assoc (write_string key) (write_roomid id) rest,
  read_string-write_string key (write_roomid id ++ rest) k,
  read_int-write_roomid id rest i,
)

abbrev pub verbs_of : HashMap Bytes Verb → List Verb
verbs_of m = map (λ e. e.1) (entries m)

module _ {ℓ} {U : Type ℓ} (hooks : Hooks U) (extra : ℕ → Bytes) (read_extra : ℕ → Bytes → Run Bytes)
    (classes : Object.ClassMap) (verb_classes : Verb.ClassMap) where
  -- What the file has of the world.
  abbrev pub world_record : (ℕ → Object U) → HashMap Bytes Verb → ℕ → World → WorldRecord U
  world_record heap global_verbs idcounter w = record {
    name = w.world_name;
    verbs = verbs_of global_verbs;
    rooms = map (room_record hooks extra read_extra classes verb_classes heap) w.rooms;
    idcounter = idcounter;
    names = entries w.world_map;
  }

  -- The counts, names, verbs and rooms fit the file, and every room has one name.
  pub record IsWritable (heap : ℕ → Object U) (global_verbs : HashMap Bytes Verb) (idcounter : ℕ)
      (w : World) : Type ℓ where
    pub few : length w.rooms < u64_mod
    pub titled : length w.world_name < u64_mod
    pub counted : size global_verbs ≡ length (verbs_of global_verbs)
    pub few_verbs : length (verbs_of global_verbs) < u64_mod
    pub verbs : All (IsLoadable verb_classes) (verbs_of global_verbs)
    pub rooms : All (IsSaved hooks extra read_extra classes verb_classes heap) w.rooms
    pub next : idcounter < u64_mod
    pub one_each : length (entries w.world_map) ≡ length w.rooms
    pub names : All IsNamed (entries w.world_map)

  load_body-world_save :
      ((id : ℕ) (rest : Bytes) → read_extra id (extra id ++ rest) ≡ ok rest)
      → (heap : ℕ → Object U) (global_verbs : HashMap Bytes Verb) (idcounter : ℕ) (w : World)
      → IsWritable heap global_verbs idcounter w
      → load_body hooks read_extra classes verb_classes (length w.rooms) w.world_name (
          write_size (size global_verbs)
          ++ (write_all verb_write (verbs_of global_verbs)
              ++ (write_all (save_room hooks extra heap) w.rooms
                  ++ (write_uint64 idcounter ++ write_all write_entry (entries w.world_map)))))
        ≡ ok (some (world_record heap global_verbs idcounter w))
  unfolding load_body
  load_body-world_save back heap global_verbs idcounter w h =
      let b3 : Bytes = write_all write_entry (entries w.world_map) in
      let b2 : Bytes = write_uint64 idcounter ++ b3 in
      let b1 : Bytes = write_all (save_room hooks extra heap) w.rooms ++ b2 in
      let b0 : Bytes = write_all verb_write (verbs_of global_verbs) ++ b1 in
      let verbs' : read_times (size global_verbs) (verb_read verb_classes) b0
          ≡ ok (verbs_of global_verbs, b1) =
        rw h.counted (
          read_times-write_same (IsLoadable verb_classes) (verb_read verb_classes) verb_write
            (λ v rest (k, c, n). verb_read-verb_write verb_classes v rest k c n)
            (verbs_of global_verbs) b1 h.verbs) in
      let names' : read_times (length w.rooms) load_entry b3 ≡ ok (entries w.world_map, []) =
        subst (λ n. read_times n load_entry b3 ≡ ok (entries w.world_map, [])) h.one_each
          (subst
            (λ b.
              read_times (length (entries w.world_map)) load_entry b ≡ ok (entries w.world_map, []))
            (append-nil b3)
            (read_times-write_same IsNamed load_entry write_entry load_entry-write_entry
              (entries w.world_map) [] h.names)) in
      rw (
        read_size-write_size (size global_verbs) b0 (rw h.counted h.few_verbs),
        verbs',
        read_times-write_all (IsSaved hooks extra read_extra classes verb_classes heap)
            (load_room hooks read_extra classes verb_classes) (save_room hooks extra heap)
            (room_record hooks extra read_extra classes verb_classes heap)
            (load_room-save_room hooks extra read_extra classes verb_classes back heap) w.rooms b2
            h.rooms,
        read_uint64-write_uint64 idcounter b3 h.next,
        names',
      )

  -- A saved world is loaded by a module with as many rooms and the same name, and refused by any other:
  -- every room has its id, texts, links and verbs, and its objects with one reference; the global
  -- verbs, the counter of ids and the names of the rooms are there. The world is taken to fit the
  -- file, and the hooks of rooms and objects to read what they write.
  pub load_world-world_save :
      ((id : ℕ) (rest : Bytes) → read_extra id (extra id ++ rest) ≡ ok rest)
      → (heap : ℕ → Object U) (global_verbs : HashMap Bytes Verb) (idcounter : ℕ) (w : World)
        (data_sz : ℕ) (name : Bytes)
      → IsWritable heap global_verbs idcounter w
      → load_world hooks read_extra classes verb_classes data_sz name
          (world_save hooks extra heap global_verbs idcounter w)
        ≡ ok (
            if length w.rooms == data_sz && strcmp_eq name w.world_name
            then some (world_record heap global_verbs idcounter w)
            else none)
  unfolding load_world world_save read_uint32 write_uint32
  load_world-world_save back heap global_verbs idcounter w data_sz name h =
      let b2 : Bytes =
        write_size (size global_verbs)
        ++ (write_all verb_write (verbs_of global_verbs)
            ++ (write_all (save_room hooks extra heap) w.rooms
                ++ (write_uint64 idcounter ++ write_all write_entry (entries w.world_map)))) in
      let b1 : Bytes = write_string w.world_name ++ b2 in
      let b0 : Bytes = write_size (length w.rooms) ++ b1 in
      let magic = read_word-le_bytes 4 world_magic b0 (omega arith) in
      let body = load_body-world_save back heap global_verbs idcounter w h in
      elim (Bool-cases (length w.rooms == data_sz)) [
        | inr other ↦ rw (magic, read_size-write_size (length w.rooms) b1 h.few, other)
        | inl same ↦ elim (Bool-cases (strcmp_eq name w.world_name)) [
          | inr other ↦ rw (
            magic,
            read_size-write_size (length w.rooms) b1 h.few,
            same,
            read_string-write_string w.world_name b2 h.titled,
            other,
          )
          | inl named ↦ rw (
            magic,
            read_size-write_size (length w.rooms) b1 h.few,
            same,
            read_string-write_string w.world_name b2 h.titled,
            named,
            body,
          )
        ]
      ]
