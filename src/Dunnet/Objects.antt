-- ===== src/Dunnet/Objects.antt =====
-- worlds/dunnet.c: the objects of the rooms, their classes, and the flags of rooms. The data of an object
-- is the text of its description; the data of a room is a flag, where it has data. Objects get the
-- addresses from `next_ptr` on.
use netcosm.Base.{
  ℕ, ◌+◌, Bool, true, false, Option, none, some, List, [], ◌∷◌, ◌++◌, is_empty, ◌==◌, if◌then◌else◌,
}
use netcosm.Base.Run.{Run, ok, abort, ◌>>=◌}
use netcosm.Dunnet.Console.{DunnetUser}
use netcosm.Heap.{store}
use netcosm.Multimap.{multimap_lookup}
use netcosm.Object
use netcosm.Object.{Object, obj_new}
use netcosm.Realm.Carrying.{logged_in, room_obj_add_alias, room_obj_del}
use netcosm.Realm.Verbs.{world_verb_add}
use netcosm.Realm.{Realm, room_obj_add, room_obj_del_by_ptr, room_obj_get, say, the_bag, values}
use netcosm.Room.{name_key}
use netcosm.Server.{Child}
use netcosm.Stream.{Reader, write_bool, read_bool, write_string, read_string}
use netcosm.Text.Djb.{name_keys}
use netcosm.Text.{Bytes, ascii}
use netcosm.Verb
use netcosm.Verb.{verb_new}

-- The realm with the module's data of rooms and users, and the next id and address of an object.
pub record Dunnet : Type 0 where
  pub realm : Realm Bytes
  pub flags : ℕ → Option Bool
  pub consoles : Bytes → Option DunnetUser
  pub next_id : ℕ
  pub next_ptr : ℕ

-- What the module's functions set of a new object, and the aliases that they add.
pub record Fixture : Type 0 where
  pub class_name : Bytes
  pub name : Bytes
  pub text : Bytes
  pub hidden : Bool
  pub default_article : Bool
  pub aliases : List Bytes

abbrev pub with_realm : Realm Bytes → Dunnet → Dunnet
with_realm r d = record d { realm = r }

unfoldable pub add_aliases : ℕ → ℕ → List Bytes → Dunnet → Run Dunnet
unfolding room_obj_add_alias
add_aliases room p [] d = ok d
add_aliases room p (alias ∷ aliases) d =
    room_obj_add_alias room p alias d.realm >>= λ s. add_aliases room p aliases (with_realm s.1 d)

-- obj_new, the fields, room_obj_add, and the aliases.
unfoldable pub place : Object.ClassMap → Fixture → ℕ → Dunnet → Run Dunnet
unfolding obj_new room_obj_add add_aliases
place classes f room d = obj_new classes d.next_id f.class_name >>= λ (new, next).
    let obj : Object Bytes = record new {
      name = f.name;
      userdata = some f.text;
      hidden = f.hidden;
      default_article = f.default_article;
    } in
    let p = d.next_ptr in
    let r = d.realm in
    room_obj_add room p (record r { heap = store p (some obj) r.heap }) >>= λ s.
    add_aliases room p f.aliases (record d { realm = s.1; next_id = next; next_ptr = p + 1 })

abbrev generic : Bytes → Bytes → List Bytes → Fixture
generic name text aliases = record {
  class_name = ascii "/generic";
  name = name;
  text = text;
  hidden = false;
  default_article = true;
  aliases = aliases;
}

abbrev notake : Bytes → Bytes → Bool → List Bytes → Fixture
notake name text hidden aliases = record (generic name text aliases) {
  class_name = ascii "/generic/notake";
  hidden = hidden;
}

abbrev nothing_special : Bytes
nothing_special = ascii "I see nothing special about that."

abbrev shovel : Fixture
shovel =
    generic (ascii "shovel")
      (ascii "It is a normal shovel with a price tag attached that says $19.99.") []

abbrev trees : Fixture
trees =
    notake (ascii "trees")
      (ascii "They are palm trees with a bountiful supply of coconuts in them.") true
      (ascii "tree" ∷ ascii "palm" ∷ ascii "palm tree" ∷ [])

abbrev boulder : Fixture
boulder =
    notake (ascii "large boulder") (ascii "It is just a boulder.  It cannot be moved.") false
      (ascii "boulder" ∷ ascii "rock" ∷ [])

abbrev food : Fixture
food =
    record (generic (ascii "some food")
      (ascii "It looks like some kind of meat.  Smells pretty bad.")
      (ascii "food" ∷ ascii "meat" ∷ [])) {
        class_name = ascii "/generic/dunnet/food";
        default_article = false;
      }

abbrev bear : Fixture
bear =
    notake (ascii "ferocious bear") (ascii "It looks like a grizzly to me.") false
      (ascii "bear" ∷ [])

abbrev bracelet : Fixture
bracelet = generic (ascii "emerald bracelet") nothing_special (ascii "bracelet" ∷ [])

abbrev computer : Fixture
computer = notake (ascii "computer") nothing_special true (ascii "vax" ∷ ascii "pokey" ∷ [])

abbrev brass_key : Fixture
brass_key =
    generic (ascii "shiny brass key") nothing_special
      (ascii "key" ∷ ascii "shiny key" ∷ ascii "brass key" ∷ [])

abbrev pub cpu_card : Fixture
cpu_card =
    generic (ascii "CPU card")
      (ascii "The CPU board has a VAX chip on it.  It seems to have 2 Megabytes of RAM onboard.")
      (ascii "cpu" ∷ ascii "chip" ∷ ascii "card" ∷ [])

-- The line breaks of the text are followed by IAC NOP.
abbrev bins : Fixture
bins =
    let margin : Bytes = 10 ∷ 255 ∷ 241 ∷ ascii "                   " in
    notake (ascii "bins")
      (ascii
          "All of the bins are empty.  Looking closely you can see that there are names written at the bottom of each bin, but most of them are faded away so that you cannot read them.  You can only make out three names:"
        ++ (margin
            ++ (ascii "Jeffrey Collier"
                ++ (margin ++ (ascii "Robert Toukmond" ++ (margin ++ ascii "Thomas Stock\n"))))))
      true (ascii "mail bins" ∷ [])

abbrev pub with_flag : ℕ → Bool → Dunnet → Dunnet
with_flag room b d = record d { flags = λ q. if q == room then some b else d.flags q }

module _ (classes : Object.ClassMap) (verb_classes : Verb.ClassMap) where
  -- A verb is made of its class, and has its name.
  unfoldable pub add_global : Bytes → Dunnet → Run Dunnet
  unfolding verb_new world_verb_add
  add_global name d = verb_new verb_classes name >>= λ verb.
      world_verb_add (record verb { name = name }) d.realm >>= λ s. ok (with_realm s.1 d)

  unfoldable pub deadend_init : ℕ → Dunnet → Run Dunnet
  unfolding place add_global
  deadend_init id d = place classes shovel id d >>= λ d. place classes trees id d >>= λ d.
      add_global (ascii "dig") d >>= λ d. add_global (ascii "put") d >>= λ d.
      add_global (ascii "eat") d >>= λ d.
      add_global (ascii "shake") d >>= λ d. add_global (ascii "type") d

  unfoldable pub ew_road_init : ℕ → Dunnet → Run Dunnet
  unfolding place
  ew_road_init id d = place classes boulder id d

  unfoldable pub fork_init : ℕ → Dunnet → Run Dunnet
  fork_init id d = ok (with_flag id false d)

  unfoldable pub senw_init : ℕ → Dunnet → Run Dunnet
  unfolding place
  senw_init id d = place classes food id d

  unfoldable pub hangout_init : ℕ → Dunnet → Run Dunnet
  unfolding place
  hangout_init id d = place classes bear id d

  unfoldable pub hidden_init : ℕ → Dunnet → Run Dunnet
  unfolding place
  hidden_init id d = place classes bracelet id d

  unfoldable pub mailroom_init : ℕ → Dunnet → Run Dunnet
  unfolding place
  mailroom_init id d = place classes bins id d

  unfoldable pub computer_room_init : ℕ → Dunnet → Run Dunnet
  unfolding place
  computer_room_init id d = place classes computer id d >>= λ d. ok (with_flag id false d)

  -- The hook of the class of food, which changes the room: the bear leaves for it, and a key appears.
  unfoldable pub food_drop : ℕ → Child → Dunnet → Run (Bool × Dunnet)
  unfolding room_obj_get say room_obj_del room_obj_del_by_ptr place
  food_drop obj user d = room_obj_get user.room (ascii "bear") d.realm >>= λ found.
      if is_empty found
      then ok (true, d)
      else (say user.pid
            (ascii "The bear takes the food and runs away with it. He left something behind.\n")
            d.realm
          >>= λ r. room_obj_del user.room (ascii "ferocious bear") r >>= λ s.
              room_obj_del_by_ptr user.room obj s.1 >>= λ s.
              place classes brass_key user.room (with_realm s.1 d) >>= λ d. ok (true, d))

-- The flag of a room in the world file.
unfoldable pub bool_ser : ℕ → Dunnet → Run Bytes
unfolding write_bool
bool_ser id d = elim (d.flags id) [ none ↦ abort | some b ↦ ok (write_bool b) ]

unfoldable pub bool_deser : ℕ → Dunnet → Bytes → Run (Dunnet × Bytes)
unfolding read_bool
bool_deser id d fd = read_bool fd >>= λ (b, fd). ok (with_flag id b d, fd)

-- The hooks of all three classes; an object of theirs has a description.
unfoldable pub generic_ser : Object Bytes → Bytes
unfolding write_string
generic_ser obj = elim obj.userdata [ none ↦ [] | some text ↦ write_string text ]

unfoldable pub generic_deser : Object Bytes → Reader (Object Bytes)
unfolding read_string
generic_deser obj fd = read_string fd >>= λ (text, fd). ok (record obj { userdata = some text }, fd)

unfoldable pub generic_desc : Object Bytes → Child → Bytes
generic_desc obj user = elim obj.userdata [ none ↦ [] | some text ↦ text ]

unfoldable pub generic_dup : Object Bytes → Option Bytes
generic_dup obj = obj.userdata

unfoldable pub no_take : Object Bytes → Child → Bool × List (ℕ × Bytes)
no_take obj user = (false, [])

-- Who has the key may go in.
unfoldable pub building_enter : Child → Dunnet → Run (Bool × Dunnet)
unfolding the_bag say multimap_lookup
building_enter user d = logged_in user >>= λ name. the_bag name d.realm >>= λ u.
    if is_empty (values (multimap_lookup (name_key (ascii "shiny brass key")) u.1))
    then (say user.pid (ascii "You don't have a key that can open this door.\n") d.realm >>= λ r.
        ok (false, with_realm r d))
    else ok (true, d)
