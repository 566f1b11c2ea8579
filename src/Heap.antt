-- ===== src/Heap.antt =====
-- src/room.c, src/userdb.c and src/obj.c: objects in a multimap, by their name and by each of their
-- aliases. A pointer to an object is its address; an object that obj_free has freed is no longer in the
-- heap, and reading it ends the run, as the C code may do anything then. The hash and
-- the comparison of a map's keys are an instance; those of the program are `name_keys`.
pub mod Refs
pub mod Balance
pub mod Adding
pub mod Removing
use netcosm.Base.{
  ℕ, ◌+◌, Bool, true, false, not, ◌&&◌, Option, none, some, List, [], ◌∷◌, ◌==◌, if◌then◌else◌,
}
use netcosm.Base.Run.{Run, ok, abort, ◌>>=◌}
use netcosm.Hash.Types.{Release, key, datum, Keys}
use netcosm.Multimap.{Multimap, multimap_insert, multimap_delete}
use netcosm.Object.{Object, obj_dup, obj_free, obj_same}
use netcosm.Room.{name_key}
use netcosm.Text.Djb.{ObjName}
use netcosm.Text.{Bytes}

-- A map of objects: of a room, or the inventory of a user.
abbrev pub Things : Type 0
Things = Multimap ObjName ℕ

abbrev pub Heap : Type 0 → Type 0
Heap U = ℕ → Option (Object U)

-- A heap, and one of the maps that point into it.
pub record Holding (U : Type 0) : Type 0 where
  pub heap : Heap U
  pub things : Things

module _ {U : Type 0} ⦃obj_keys : Keys ObjName⦄ where
  abbrev pub store : ℕ → Option (Object U) → Heap U → Heap U
  store p o heap = λ q. if q == p then o else heap q

  -- The object at an address.
  unfoldable pub deref : ℕ → Heap U → Run (Object U)
  deref p heap = elim (heap p) [ none ↦ abort | some obj ↦ ok obj ]

  -- `obj_dup(obj)`
  unfoldable pub dup_ref : ℕ → Heap U → Run (Heap U)
  unfolding deref
  dup_ref p heap = deref p heap >>= λ obj. ok (store p (some (obj_dup obj)) heap)

  -- `obj_free(obj)`
  unfoldable pub free_ref : ℕ → Heap U → Run (Heap U)
  unfolding deref
  free_ref p heap = deref p heap >>= λ obj. ok (store p (obj_free obj) heap)

  -- The callbacks of a map of objects: its data are freed by obj_free, its keys are not.
  unfoldable pub free_refs : List (Release ObjName ℕ) → Heap U → Run (Heap U)
  unfolding free_ref
  free_refs [] heap = ok heap
  free_refs (key k ∷ rs) heap = free_refs rs heap
  free_refs (datum p ∷ rs) heap = free_ref p heap >>= λ heap. free_refs rs heap

  -- obj_compare on two addresses.
  unfoldable pub same_at : Heap U → ℕ → ℕ → Bool
  unfolding obj_same
  same_at heap a b = elim (heap a) [
    | none ↦ false
    | some x ↦ elim (heap b) [ none ↦ false | some y ↦ obj_same x y ]
  ]

  -- The map, whose callback obj_compare reads this heap.
  unfoldable pub comparing : Heap U → Things → Things
  comparing heap m = record m { same_val = same_at heap }

  -- `multimap_insert(map, alias, obj_dup(obj))`
  unfoldable pub insert_dup : Bytes → ℕ → Holding U → Run (Bool × Holding U)
  unfolding dup_ref multimap_insert
  insert_dup alias p h = dup_ref p h.heap >>= λ heap.
      multimap_insert (name_key alias) p h.things >>= λ r.
      ok (r.0, record { heap = heap; things = r.1 })

  -- The loop over the aliases; whether each was the first of its key.
  unfoldable pub insert_aliases : List Bytes → ℕ → Holding U → Run (Bool × Holding U)
  unfolding insert_dup
  insert_aliases [] p h = ok (true, h)
  insert_aliases (alias ∷ aliases) p h =
      insert_dup alias p h >>= λ r. insert_aliases aliases p r.1 >>= λ s. ok (r.0 && s.0, s.1)

  -- room_obj_add, which keeps the reference that it is given.
  unfoldable pub give : ℕ → Holding U → Run (Bool × Holding U)
  unfolding deref multimap_insert insert_aliases
  give p h = deref p h.heap >>= λ obj. multimap_insert (name_key obj.name) p h.things >>= λ r.
      insert_aliases obj.alias_list p (record h { things = r.1 }) >>= λ s. ok (r.0 && s.0, s.1)

  -- userdb_add_obj, which takes a reference of its own for the name, too.
  unfoldable pub share : ℕ → Holding U → Run (Bool × Holding U)
  unfolding deref insert_aliases insert_dup
  share p h =
      deref p h.heap >>= λ obj. insert_aliases obj.alias_list p h >>= λ s. insert_dup obj.name p s.1

  -- `multimap_delete(map, name, &tmp)`, where `tmp` has the id of the object
  unfoldable pub delete_name : Bytes → ℕ → Holding U → Run (ℕ × Holding U)
  unfolding deref free_refs comparing multimap_delete
  delete_name name p h = deref p h.heap >>= λ obj.
      let (deleted, released, things) =
        multimap_delete (name_key name) p (comparing h.heap h.things) in
      free_refs released h.heap >>= λ heap. ok (deleted, record { heap = heap; things = things })

  unfoldable pub delete_aliases : List Bytes → ℕ → Holding U → Run (Holding U)
  unfolding delete_name
  delete_aliases [] p h = ok h
  delete_aliases (alias ∷ aliases) p h = delete_name alias p h >>= λ r. delete_aliases aliases p r.1

  -- room_obj_del_by_ptr and userdb_del_obj_by_ptr: whether the name had the object.
  unfoldable pub take_out : ℕ → Holding U → Run (Bool × Holding U)
  unfolding deref delete_aliases delete_name
  take_out p h = deref p h.heap >>= λ obj. delete_aliases obj.alias_list p h >>= λ h.
      delete_name obj.name p h >>= λ r. ok (not (r.0 == 0), r.1)
