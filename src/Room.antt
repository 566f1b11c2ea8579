-- ===== src/Room.antt =====
-- src/room.c: a room with its users, objects and verbs. A pointer to a child is its PID, and one to an
-- object its address in the heap.
use netcosm.Base.{ℕ, ◌+◌, ◌/◌, Bool, true, false, not, Option, none, some, List, is_some}
use netcosm.Base.Run.{Run, ok, ◌>>=◌}
use netcosm.Hash.Ops.{insert, remove}
use netcosm.Hash.Types.{HashMap, init, set_free_data}
use netcosm.Multimap.{Multimap, multimap_init, set_free_data_cb}
use netcosm.Text.Djb.{string_keys, name_keys, ObjName}
use netcosm.Text.{Bytes}
use netcosm.Verb.{Verb}

-- struct roomdata_t, without its hooks
pub record RoomData : Type 0 where
  pub uniq_id : Bytes
  pub name : Bytes
  pub desc : Bytes
  pub adjacent : List (Option Bytes)

-- struct room_t
pub record Room : Type 0 where
  pub id : ℕ
  pub roomdata : RoomData
  pub adjacent : List ℕ
  pub objects : Multimap ObjName ℕ
  pub verbs : HashMap Bytes Verb
  pub users : HashMap Bytes ℕ

-- The key of an object's name, which is the name as it stands.
abbrev pub name_key : Bytes → ObjName
name_key s = record { text = s }

-- The maps that room_init_maps makes, for `n` users in the database and the comparison of objects.
unfoldable pub room_objects : (ℕ → ℕ → Bool) → Multimap ObjName ℕ
unfolding multimap_init set_free_data_cb
room_objects obj_compare = set_free_data_cb true (multimap_init 8 obj_compare)

unfoldable pub room_verbs : HashMap Bytes Verb
unfolding init set_free_data
room_verbs = set_free_data true (init 8)

unfoldable pub room_users : ℕ → HashMap Bytes ℕ
unfolding init
room_users userdb_size = init (userdb_size / 2 + 1)

-- Whether the child was added; one that has not logged in has no name.
unfoldable pub room_user_add : Option Bytes → ℕ → Room → Run (Bool × Room)
unfolding insert
room_user_add none child room = ok (false, room)
room_user_add (some user) child room =
    insert user child room.users >>= λ r. ok (not (is_some r.0), record room { users = r.1 })

unfoldable pub room_user_del : Option Bytes → Room → Bool × Room
unfolding remove
room_user_del none room = (false, room)
room_user_del (some user) room =
    let r = remove user room.users in (r.0, record room { users = r.2 })

-- The verbs of a room; a second verb of a name is not added.
unfoldable pub room_verb_add : Verb → Room → Run (Bool × Room)
unfolding insert
room_verb_add verb room =
    insert verb.name verb room.verbs >>= λ r. ok (not (is_some r.0), record room { verbs = r.1 })
