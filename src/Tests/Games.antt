-- ===== src/Tests/Games.antt =====
-- Rooms, users, moves and the options of the server at concrete input.
use netcosm.Auth.{UserData}
use netcosm.Base.{
  ℕ, ◌≡◌, refl, sym, ◌∙◌, subst, Bool, false, Option, none, some, List, [], ◌∷◌, ◌++◌, length,
  arith, if◌then◌else◌, ◌==◌, is_some,
}
use netcosm.Base.Run.{abort, Returns, ◌>>=◌}
use netcosm.Game.Reaping.{IsCounted, connect, go_on, Reach-IsCounted, stay}
use netcosm.Game.{Game, RoomHooks, new_connection}
use netcosm.Hash.Lifecycle.{init-IsValid}
use netcosm.Hash.Table.{IsValid}
use netcosm.Hash.Types.{init}
use netcosm.Multimap.{multimap_init, set_free_data_cb}
use netcosm.Room.{Room, RoomData, room_objects, room_verbs}
use netcosm.Server.Options.{
  Options, Setting, applied, crash, parse_args, parse_args-written, parsed, port_number, prefix,
  written,
}
use netcosm.Server.Saving.{server_save_state}
use netcosm.Server.{Child}
use netcosm.Text.Djb.{string_keys, string_keys-IsLawful, string_same_refl}
use netcosm.Text.{Bytes, ascii, strcmp_eq}
use netcosm.Userdb.Refines.{IsHeld, entry, userdb_add-lookup, userdb_remove-lookup}
use netcosm.Userdb.{Inventory, User, Userdb, userdb_add, userdb_lookup, userdb_remove}
use netcosm.World.Init.{
  has_twin, id_or_none, index_of, linked_rooms, rooms_and_id, rooms_with, world_init-linked_rooms,
}
use netcosm.World.{Start, world_init}

abbrev hall_data : RoomData
hall_data = record {
  uniq_id = ascii "hall";
  name = ascii "Hall";
  desc = ascii "A hall.";
  adjacent = some (ascii "cave") ∷ none ∷ [];
}

abbrev cave_data : RoomData
cave_data = record {
  uniq_id = ascii "cave";
  name = ascii "Cave";
  desc = ascii "A cave.";
  adjacent = none ∷ some (ascii "hall") ∷ [];
}

abbrev plain_start : Start
plain_start = record { userdb_size = 4; obj_compare = λ a b. a == b }

world_init-linked_rooms_example :
    (world_init plain_start (hall_data ∷ cave_data ∷ []) (ascii "W")
      >>= rooms_and_id (ascii "cave"))
    ≡ (if has_twin (λ s. false) (hall_data ∷ cave_data ∷ [])
        then abort
        else (linked_rooms plain_start (hall_data ∷ cave_data ∷ []) 0 (hall_data ∷ cave_data ∷ [])
            >>= rooms_with (id_or_none (index_of (ascii "cave") 0 (hall_data ∷ cave_data ∷ [])))))
world_init-linked_rooms_example =
    world_init-linked_rooms plain_start (hall_data ∷ cave_data ∷ []) (ascii "W") (ascii "cave")

abbrev hall : Room
hall = record {
  id = 0;
  roomdata = hall_data;
  adjacent = 1 ∷ [];
  objects = room_objects (λ a b. a == b);
  verbs = room_verbs;
  users = init 2;
}

abbrev cave : Room
cave = record hall { id = 1; roomdata = cave_data }

abbrev bert : Child
bert = record { pid = 500; state = 3; room = 0; user = some (ascii "bert"); raw_mode = false }

abbrev evening : Game
evening = record {
  server = record { children = bert ∷ []; sent = []; packet = []; num_clients = 1 };
  world = record { rooms = hall ∷ cave ∷ []; world_map = init 1; world_name = ascii "W" };
}

abbrev no_hooks : RoomHooks
no_hooks = record { hook_enter = λ id. none; hook_leave = λ id. none }

-- The users' map of a room that there is.
abbrev AreValid : Option Room → Type 0
AreValid none = Unit
AreValid (some room) = IsValid room.users

Reach-IsCounted_example : IsCounted (new_connection 501 evening)
Reach-IsCounted_example =
    Reach-IsCounted no_hooks evening (new_connection 501 evening)
      (go_on evening (new_connection 501 evening) (new_connection 501 evening) (connect 501 evening)
        (stay (new_connection 501 evening)))
      refl

abbrev settings : List Setting
settings = port_number (ascii "12345") ∷ prefix (ascii "data") ∷ []

abbrev defaults : Options
defaults = record { port = 1234; data_prefix = none; world_module = none; auto = none }

parse_args-written_example :
    let strtol : Bytes → ℕ = λ s. length s in
    let o = applied strtol settings defaults in
    (parse_args strtol (written settings) defaults ≡ parsed o)
    × (parse_args strtol (written settings ++ ascii "-p" ∷ []) defaults ≡ crash)
    × (parse_args strtol (written settings ++ ascii "-d" ∷ []) defaults
        ≡ parsed (record o { data_prefix = none }))
    × (parse_args strtol (written settings ++ ascii "-w" ∷ []) defaults
        ≡ parsed (record o { world_module = none }))
    × (parse_args strtol (written settings ++ ascii "-a" ∷ ascii "root" ∷ []) defaults
        ≡ parsed (record o { auto = some (some (ascii "root"), none) }))
parse_args-written_example = parse_args-written (λ s. length s) settings defaults (ascii "root")

abbrev IsNone : Option User → Type 0
IsNone none = Unit
IsNone (some u) = ⊥

abbrev AllHeld : Option Inventory → Type 0
AllHeld none = Unit
AllHeld (some o) = IsHeld o

abbrev Holding : Option User → Type 0
Holding none = Unit
Holding (some u) = AllHeld u.objects

abbrev bert_account : UserData
bert_account = record {
  username = ascii "bert";
  salt = [];
  passhash = [];
  priv = 0;
  last_login = 0;
}

abbrev no_users : Userdb
no_users = record { users = init 256; saver = record { n = 9; writes = 0 } }

abbrev by_number : ℕ → ℕ → Bool
by_number a b = a == b

nobody_known : (q : Bytes) → userdb_lookup q no_users ≡ none
unfolding userdb_lookup
nobody_known q = (init-IsValid {K = Bytes} {D = User} 256).2 q

unheld :
    (u : User) (o : Inventory)
    → userdb_lookup (ascii "bert") no_users ≡ some u
    → u.objects ≡ some o
    → IsHeld o
unheld u o e e' = absurd (subst IsNone (sym (nobody_known (ascii "bert")) ∙ e) tt)

-- A database in which bert has an empty inventory.
one_user : Returns (userdb_add by_number bert_account no_users) λ db'.
    IsValid db'.users
    × ((q : Bytes)
        → userdb_lookup q db' ≡ (
            if strcmp_eq q (ascii "bert")
            then some (entry by_number bert_account no_users)
            else userdb_lookup q no_users))
one_user = userdb_add-lookup by_number bert_account no_users (init-IsValid 256).0 unheld

once-IsHeld :
    (u : User) (o : Inventory)
    → userdb_lookup (ascii "bert") one_user.0 ≡ some u
    → u.objects ≡ some o
    → IsHeld o
unfolding multimap_init set_free_data_cb
once-IsHeld u o e e' =
    let first : Holding (some (entry by_number bert_account no_users)) =
      rw (nobody_known (ascii "bert")) (omega arith, omega arith) in
    let found : userdb_lookup (ascii "bert") one_user.0
        ≡ some (entry by_number bert_account no_users) =
      one_user.2.1 (ascii "bert") ∙ rw (string_same_refl (ascii "bert")) in
    subst AllHeld e' (subst Holding (sym found ∙ e) first)

userdb_add-lookup_example : Returns (userdb_add by_number bert_account one_user.0) λ db'.
    IsValid db'.users
    × ((q : Bytes)
        → userdb_lookup q db' ≡ (
            if strcmp_eq q (ascii "bert")
            then some (entry by_number bert_account one_user.0)
            else userdb_lookup q one_user.0))
userdb_add-lookup_example =
    userdb_add-lookup by_number bert_account one_user.0 one_user.2.0 once-IsHeld

userdb_remove-lookup_example :
    let (found, db') = userdb_remove (ascii "bert") no_users in
    (found ≡ is_some (userdb_lookup (ascii "bert") no_users))
    × IsValid db'.users
    × ((q : Bytes)
        → userdb_lookup q db'
          ≡ (if strcmp_eq q (ascii "bert") then none else userdb_lookup q no_users))
    × (db'.saver ≡ (if found then server_save_state false no_users.saver else no_users.saver))
userdb_remove-lookup_example = userdb_remove-lookup (ascii "bert") no_users (init-IsValid 256).0
