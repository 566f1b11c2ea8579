-- ===== src/Realm/Carrying.antt =====
-- src/server_reqs.c, src/room.c and src/userdb.c: taking, dropping and deleting objects by name. A hook
-- of a class answers, and may have packets sent, but does not itself change the objects.
use netcosm.Base.{
  ℕ, Bool, true, false, ◌&&◌, ◌||◌, Option, none, some, List, [], ◌∷◌, ◌++◌, is_empty,
  if◌then◌else◌,
}
use netcosm.Base.Run.{Run, ok, abort, ◌>>=◌}
use netcosm.Heap.{Heap, deref, dup_ref, same_at, store, insert_dup}
use netcosm.Multimap.{multimap_lookup}
use netcosm.Object.{Object, ObjClass}
use netcosm.Realm.{
  Realm, say, the_bag, in_room, room_obj_add, room_obj_get, room_obj_del_by_ptr, userdb_add_obj,
  userdb_del_obj_by_ptr, saved, values, with_server,
}
use netcosm.Room.{name_key}
use netcosm.Server.Handlers.{c_string}
use netcosm.Server.{Child}
use netcosm.Userdb.{userdb_lookup}
use netcosm.Hash.Types.{Keys}
use netcosm.Text.Djb.{ObjName}
use netcosm.Text.{Bytes, ascii, strcmp_eq, strcasecmp_eq}

-- A hook that a class may lack: whether it allows what is done, and the packets that it has sent.
abbrev pub ObjHook : Type 0 → Type 0
ObjHook U = ObjClass → Option (Object U → Child → Bool × List (ℕ × Bytes))

abbrev pub logged_in : Child → Run Bytes
logged_in child = elim child.user [ none ↦ abort | some name ↦ ok name ]

unfoldable pub has_alias : Bytes → List Bytes → Bool
has_alias alias [] = false
has_alias alias (a ∷ as') = strcasecmp_eq a alias || has_alias alias as'

module _ {U : Type 0} ⦃obj_keys : Keys ObjName⦄ where
  unfoldable pub asked : ObjHook U → Object U → Child → Realm U → Bool × Realm U
  asked hook obj sender r = elim (hook obj.class) [
    | none ↦ (true, r)
    | some f ↦
        let (allowed, packets) = f obj sender in
        let sv = r.game.server in (allowed, with_server (record sv { sent = sv.sent ++ packets }) r)
  ]

  -- Whether one of the objects has the id of the object at `p`: its pair has gone with the pairs of that
  -- one, and the loops over a list then read freed memory.
  unfoldable pub repeated : Heap U → ℕ → List ℕ → Bool
  unfolding same_at
  repeated heap p [] = false
  repeated heap p (q ∷ qs) = same_at heap p q || repeated heap p qs

  -- One round of req_take, and whether the object was taken.
  unfoldable pub take_one : ObjHook U → Child → ℕ → Realm U → Run (Bool × Realm U)
  unfolding deref asked userdb_add_obj room_obj_del_by_ptr say
  take_one hook_take sender p r = deref p r.heap >>= λ obj.
      let (allowed, r) = asked hook_take obj sender r in
      if allowed
      then (logged_in sender >>= λ name. userdb_add_obj name p r >>= λ s.
          room_obj_del_by_ptr sender.room p s.1 >>= λ s.
          say sender.pid (ascii "Taken.\n") s.1 >>= λ r. ok (true, r))
      else (say sender.pid (ascii "You can't take that.\n") r >>= λ r. ok (false, r))

  unfoldable pub take_all : ObjHook U → Child → List ℕ → Realm U → Run (Realm U)
  unfolding take_one repeated
  take_all hook_take sender [] r = ok r
  take_all hook_take sender (p ∷ ps) r = take_one hook_take sender p r >>= λ s.
      if s.0 && repeated r.heap p ps then abort else take_all hook_take sender ps s.1

  unfoldable pub req_take : ObjHook U → Bytes → Child → Realm U → Run (Realm U)
  unfolding room_obj_get take_all c_string say
  req_take hook_take text sender r = room_obj_get sender.room (c_string text) r >>= λ found.
      if is_empty found
      then say sender.pid (ascii "I don't know what that is.\n") r
      else (take_all hook_take sender found r >>= λ r. ok (saved r))

  -- `obj_dup(obj)`, whose result goes to another call.
  abbrev pub dup_obj : ℕ → Realm U → Run (Realm U)
  dup_obj p r = dup_ref p r.heap >>= λ heap. ok (record r { heap = heap })

  -- One round of req_drop.
  unfoldable pub drop_one : ObjHook U → Child → Bytes → ℕ → Realm U → Run (Realm U)
  unfolding dup_ref room_obj_add userdb_del_obj_by_ptr asked say userdb_add_obj room_obj_del_by_ptr
      deref
  drop_one hook_drop sender name p r = dup_obj p r >>= λ r. room_obj_add sender.room p r >>= λ s.
      userdb_del_obj_by_ptr name p s.1 >>= λ s. deref p s.1.heap >>= λ obj.
      let (allowed, r) = asked hook_drop obj sender s.1 in
      if allowed
      then say sender.pid (ascii "Dropped.\n") r
      else (say sender.pid (ascii "You cannot drop that.\n") r >>= λ r. dup_obj p r >>= λ r.
          userdb_add_obj name p r >>= λ s. room_obj_del_by_ptr sender.room p s.1 >>= λ s. ok s.1)

  unfoldable pub drop_all : ObjHook U → Child → Bytes → List ℕ → Realm U → Run (Realm U)
  unfolding drop_one repeated
  drop_all hook_drop sender name [] r = ok r
  drop_all hook_drop sender name (p ∷ ps) r =
      if repeated r.heap p ps
      then abort
      else (drop_one hook_drop sender name p r >>= λ r. drop_all hook_drop sender name ps r)

  -- A sender whose name is not in the database gets no answer.
  unfoldable pub req_drop : ObjHook U → Bytes → Child → Realm U → Run (Realm U)
  unfolding the_bag drop_all c_string say multimap_lookup
  req_drop hook_drop text sender r = logged_in sender >>= λ name.
      elim (userdb_lookup name r.userdb) [
        | none ↦ ok r
        | some _ ↦ the_bag name r >>= λ u.
            let found = values (multimap_lookup (name_key (c_string text)) u.1) in
            if is_empty found
            then say sender.pid (ascii "You don't have that.\n") r
            else (drop_all hook_drop sender name found r >>= λ r. ok (saved r))
      ]

  -- The loop that takes each object of a list out of a room, or out of an inventory.
  unfoldable pub del_each : (ℕ → Realm U → Run (Bool × Realm U)) → List ℕ → Realm U → Run (Realm U)
  unfolding repeated
  del_each del [] r = ok r
  del_each del (p ∷ ps) r =
      if repeated r.heap p ps then abort else (del p r >>= λ s. del_each del ps s.1)

  unfoldable pub room_obj_del : ℕ → Bytes → Realm U → Run (Bool × Realm U)
  unfolding room_obj_get del_each room_obj_del_by_ptr
  room_obj_del room name r = room_obj_get room name r >>= λ found.
      if is_empty found
      then ok (false, r)
      else (del_each (room_obj_del_by_ptr room) found r >>= λ r. ok (true, r))

  unfoldable pub userdb_del_obj : Bytes → Bytes → Realm U → Run (Bool × Realm U)
  unfolding the_bag multimap_lookup del_each userdb_del_obj_by_ptr
  userdb_del_obj username obj_name r = the_bag username r >>= λ u.
      del_each (userdb_del_obj_by_ptr username) (values (multimap_lookup (name_key obj_name) u.1)) r
      >>= λ r. ok (true, r)

  -- room_obj_add_alias, once the object is in the room: the alias goes before the others.
  unfoldable pub new_alias : ℕ → ℕ → Bytes → Realm U → Run (Bool × Realm U)
  unfolding deref has_alias in_room insert_dup
  new_alias room p alias r = deref p r.heap >>= λ obj.
      if strcmp_eq alias obj.name || has_alias alias obj.alias_list
      then ok (false, r)
      else in_room room (insert_dup alias p) (record r {
        heap = store p (some (record obj { alias_list = alias ∷ obj.alias_list })) r.heap;
      })

  unfoldable pub room_obj_add_alias : ℕ → ℕ → Bytes → Realm U → Run (Bool × Realm U)
  unfolding deref room_obj_get room_obj_add new_alias
  room_obj_add_alias room p alias r = deref p r.heap >>= λ obj.
      room_obj_get room obj.name r >>= λ found.
      if is_empty found
      then (room_obj_add room p r >>= λ s. new_alias room p alias s.1)
      else new_alias room p alias r
