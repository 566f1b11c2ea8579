-- ===== src/Tests/Files.antt =====
-- A world of one room, with an object and a verb in it, saved and loaded; the name of the object has
-- capitals.
use mathlib.Core.List.{flatten}
use netcosm.Auth.{UserData}
use netcosm.Base.{
  map, ℕ, zero, suc, ◌≡◌, refl, true, false, ◌&&◌, none, some, [], ◌∷◌, arith, ◌==◌, if◌then◌else◌,
  replicate,
}
use netcosm.Base.Run.{Run, ok}
use netcosm.Hash.Chain.{bucket_of, find}
use netcosm.Hash.Iterate.{collect, entries, iterate, iterate_start, scan}
use netcosm.Hash.Ops.{lookup}
use netcosm.Hash.Types.{HashMap, init, size}
use netcosm.Multimap.{Multimap, multimap_iterate_all}
use netcosm.Object.{Object, ObjClass, Hooks}
use netcosm.Room.{Room, name_key}
use netcosm.Text
use netcosm.Text.Djb.{ObjName, string_keys, string_keys-IsLawful, hash_djb}
use netcosm.Text.{Bytes, IsCString, ascii, strcmp_eq}
use netcosm.Userdb.File.{load_users, user_objects, userdb_write, users_of}
use netcosm.Userdb.Reloading.{IsFiled, load_users-userdb_write, user_record}
use netcosm.Userdb.Layout.{IsStruct, Slack}
use netcosm.Userdb.{User}
use netcosm.Verb.{Verb, VerbClass}
use netcosm.Base.Run.{Returns}
use netcosm.Hash.Lifecycle.{init-IsValid}
use netcosm.Hash.Table.{IsPlaced, IsValid}
use netcosm.World.Filling.{IsNamed, fill_verbs, fill_verbs-lookup}
use netcosm.World.File.{
  load_world, named_objects, num_directions, room_objects_of, room_verbs_of, world_save,
}
use netcosm.World.Loading.{All, IsId, IsKept, IsLoadable, IsSaved}
use netcosm.World.Reloading.{IsWritable, load_world-world_save, world_record}
use netcosm.World.{World}

abbrev one_entry : {D : Type 0} → Bytes → D → HashMap Bytes D
one_entry name d = record {
  table = ((name, d) ∷ []) ∷ [];
  n_entries = 1;
  used_buckets = 1;
  free_key = false;
  free_data = false;
  dup_data = none;
}

abbrev thing : ObjClass
thing = record { class_name = ascii "thing" }

abbrev lamp : Object ℕ
lamp = record {
  id = 1;
  name = ascii "CPU card";
  class = thing;
  alias_list = [];
  hidden = false;
  default_article = true;
  userdata = none;
  refcount = 3;
}

abbrev no_hooks : Hooks ℕ
no_hooks = record {
  hook_serialize = λ c. none;
  hook_deserialize = λ c. none;
  hook_dupdata = λ c. none;
}

abbrev dig_class : VerbClass
dig_class = record { class_name = ascii "dig" }

abbrev dig : Verb
dig = record { name = ascii "dig"; class = dig_class }

abbrev lamps : Multimap ObjName ℕ
lamps = record {
  total_pairs = 1;
  refcount = 1;
  hash_tab = record {
    table =
        ((
          name_key (ascii "CPU card"),
          record { list = (name_key (ascii "CPU card"), 0) ∷ []; n_pairs = 1 },
        )
          ∷ [])
        ∷ [];
    n_entries = 1;
    used_buckets = 1;
    free_key = false;
    free_data = true;
    dup_data = none;
  };
  same_val = λ a b. a == b;
  free_data = true;
  free_key = false;
}

abbrev hall : Room
hall = record {
  id = 0;
  roomdata = record {
    uniq_id = ascii "hall";
    name = ascii "Hall";
    desc = ascii "A hall.";
    adjacent = [];
  };
  adjacent = replicate 12 0;
  objects = lamps;
  verbs = one_entry (ascii "dig") dig;
  users = init 1;
}

abbrev small_world : World
small_world = record {
  rooms = hall ∷ [];
  world_map = one_entry (ascii "hall") 0;
  world_name = ascii "W";
}

abbrev no_extra : ℕ → Bytes
no_extra id = []

abbrev read_nothing : ℕ → Bytes → Run Bytes
read_nothing id fd = ok fd

abbrev the_lamp : ℕ → Object ℕ
the_lamp p = lamp

dig-IsLoadable : IsLoadable (one_entry (ascii "dig") dig_class) dig
unfolding lookup find bucket_of hash_djb Text.strcmp_eq
dig-IsLoadable = (refl, omega arith, omega arith)

lamp-IsKept : IsKept no_hooks (one_entry (ascii "thing") thing) lamp
unfolding lookup find bucket_of hash_djb Text.strcmp_eq
lamp-IsKept = (refl, (omega arith, omega arith, omega arith, tt), λ rest. refl)

hall_objects : room_objects_of the_lamp hall ≡ lamp ∷ []
unfolding multimap_iterate_all named_objects entries collect iterate scan iterate_start
    Text.strcmp_eq Text.all_lower flatten
hall_objects = refl

hall_verbs : room_verbs_of hall ≡ dig ∷ []
unfolding entries collect iterate scan iterate_start flatten
hall_verbs = refl

ids_fit : All IsId (replicate 12 0)
ids_fit = (
  omega arith,
  (
    omega arith,
    (
      omega arith,
      (
        omega arith,
        (
          omega arith,
          (
            omega arith,
            (
              omega arith,
              (omega arith, (omega arith, (omega arith, (omega arith, (omega arith, tt))))),
            ),
          ),
        ),
      ),
    ),
  ),
)

hall-IsSaved :
    IsSaved no_hooks no_extra read_nothing
      (one_entry (ascii "thing") thing)
      (one_entry (ascii "dig") dig_class)
      the_lamp
      hall
unfolding size num_directions
hall-IsSaved =
    rw (hall_objects, hall_verbs)
      (
        omega arith,
        omega arith,
        omega arith,
        refl,
        ids_fit,
        omega arith,
        (lamp-IsKept, tt),
        refl,
        omega arith,
        (dig-IsLoadable, tt),
      )

small_world-IsWritable :
    IsWritable no_hooks no_extra read_nothing
      (one_entry (ascii "thing") thing)
      (one_entry (ascii "dig") dig_class)
      the_lamp
      (one_entry (ascii "dig") dig)
      2
      small_world
unfolding size entries collect iterate scan iterate_start flatten
small_world-IsWritable = record {
  few = omega arith;
  titled = omega arith;
  counted = refl;
  few_verbs = omega arith;
  verbs = (dig-IsLoadable, tt);
  rooms = (hall-IsSaved, tt);
  next = omega arith;
  one_each = refl;
  names = ((omega arith, omega arith), tt);
}

load_world-world_save_example :
    load_world no_hooks read_nothing
      (one_entry (ascii "thing") thing)
      (one_entry (ascii "dig") dig_class)
      1
      (ascii "W")
      (world_save no_hooks no_extra the_lamp (one_entry (ascii "dig") dig) 2 small_world)
    ≡ ok (
        if 1 == 1 && strcmp_eq (ascii "W") (ascii "W")
        then some (
            world_record no_hooks no_extra read_nothing
              (one_entry (ascii "thing") thing)
              (one_entry (ascii "dig") dig_class)
              the_lamp
              (one_entry (ascii "dig") dig)
              2
              small_world)
        else none)
load_world-world_save_example =
    load_world-world_save no_hooks no_extra read_nothing (one_entry (ascii "thing") thing)
      (one_entry (ascii "dig") dig_class) (λ id rest. refl) the_lamp (one_entry (ascii "dig") dig) 2
      small_world 1 (ascii "W") small_world-IsWritable

-- A file with one user, who has the lamp.
abbrev bert_account : UserData
bert_account = record {
  username = ascii "bert";
  salt = replicate 16 b'A';
  passhash = replicate 128 b'0';
  priv = 1337;
  last_login = 1480000000;
}

abbrev bert : User
bert = record { account = bert_account; objects = some lamps }

-- The memory behind the strings is not blank, and the pointers are some addresses.
abbrev old_slack : User → Slack
old_slack user = record {
  username = replicate 40 b'x';
  salt = [];
  passhash = replicate 130 b'7';
  padding = 1;
  objects = 4096;
  userdata = 8192;
}

abbrev no_data : User → Bytes
no_data user = []

bert_objects : user_objects the_lamp bert ≡ lamp ∷ []
unfolding user_objects multimap_iterate_all named_objects entries collect iterate scan iterate_start
    Text.strcmp_eq Text.all_lower flatten
bert_objects = refl

letters-IsCString : (n c : ℕ) → (c == 0) ≡ false → IsCString (replicate n c)
letters-IsCString zero c h = tt
letters-IsCString (suc n) c h = (h, letters-IsCString n c h)

bert-IsStruct : IsStruct (old_slack bert) bert_account
bert-IsStruct = (
  ((refl, (refl, (refl, (refl, tt)))), omega arith, omega arith),
  (letters-IsCString 16 b'A' refl, omega arith, omega arith),
  (letters-IsCString 128 b'0' refl, omega arith, omega arith),
  omega arith,
  omega arith,
)

bert-IsFiled :
    IsFiled no_hooks old_slack no_data (λ fd. ok fd) (one_entry (ascii "thing") thing) the_lamp bert
bert-IsFiled = rw bert_objects (bert-IsStruct, omega arith, (lamp-IsKept, tt))

one_bert : users_of (one_entry (ascii "bert") bert) ≡ bert ∷ []
unfolding entries collect iterate scan iterate_start flatten
one_bert = refl

one_counted : size (one_entry (ascii "bert") bert) ≡ 1
unfolding size
one_counted = refl

load_users-userdb_write_example :
    load_users no_hooks
      (λ fd. ok fd)
      (one_entry (ascii "thing") thing)
      (userdb_write no_hooks old_slack no_data the_lamp (one_entry (ascii "bert") bert))
    ≡ ok (
        map
          (user_record no_hooks old_slack no_data
            (λ fd. ok fd)
            (one_entry (ascii "thing") thing)
            the_lamp)
          (users_of (one_entry (ascii "bert") bert)))
load_users-userdb_write_example =
    load_users-userdb_write no_hooks old_slack no_data (λ fd. ok fd)
      (one_entry (ascii "thing") thing) (λ user rest. refl) the_lamp (one_entry (ascii "bert") bert)
      (rw (one_counted, one_bert) refl) (rw one_bert (omega arith)) (rw one_bert (bert-IsFiled, tt))

-- The verb of the world, in a new map.
abbrev one_dig : HashMap Bytes Verb
one_dig = one_entry (ascii "dig") dig

one_dig-IsPlaced : IsPlaced one_dig.table
unfolding bucket_of find hash_djb
one_dig-IsPlaced zero = (omega arith, refl, tt)
one_dig-IsPlaced (suc i) = tt

one_dig-IsValid : IsValid one_dig
unfolding flatten
one_dig-IsValid = record { pos = omega arith; placed = one_dig-IsPlaced; counted = refl }

one_dig-IsNamed : All IsNamed (entries one_dig)
unfolding entries collect iterate scan iterate_start flatten
one_dig-IsNamed = (refl, tt)

fill_verbs-lookup_example :
    Returns
      (fill_verbs (map (λ e. e.1) (entries one_dig)) (init 32))
      λ r. IsValid r × ((q : Bytes) → lookup q r ≡ lookup q one_dig)
fill_verbs-lookup_example =
    fill_verbs-lookup one_dig (init 32) one_dig-IsValid one_dig-IsNamed (init-IsValid 32).0
      (init-IsValid 32).2
