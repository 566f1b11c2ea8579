-- ===== src/Realm/Scene.antt =====
-- The objects of one room and of one user, with the references of all others, under the operations of
-- src/room.c and src/userdb.c.
use netcosm.Base.{
  ℕ, ◌+◌, ◌<◌, ◌≡◌, refl, ◌∙◌, Bool, some, [], ◌∷◌, ◌++◌, length, if◌then◌else◌, ◌==◌, suc,
  Option-cases, inl, inr, arith,
}
use netcosm.Base.Run.{Run, Returns, ok}
use netcosm.Base.Words.{u32_mod, u64_mod}
use netcosm.Game.Places.{get-set}
use netcosm.Hash.Methods.{contents, lookup_absent, lookup_present}
use netcosm.Hash.Ops.{lookup}
use netcosm.Hash.Types.{HashMap, Keys}
use netcosm.Hash.Table.{IsPlaced}
use netcosm.Heap.Adding.{share-Grown, give-Grown, held_live}
use netcosm.Heap.Balance.{IsBalanced, Grown, IsKin, IsLive, dup_ref-count, refs, n_refs, count_of}
use netcosm.Heap.Removing.{IsOwn, Shrunk, take_out-Shrunk}
use netcosm.Heap.{Heap, Holding, Things, share, take_out, give}
use netcosm.Multimap.Laws.{IsCounted}
use netcosm.Multimap.Nodes.{write_through-Wrote}
use netcosm.Multimap.{write_through}
use netcosm.Object.{Object}
use netcosm.Realm.Carrying.{dup_obj}
use netcosm.Realm.{
  Realm, in_room, in_bag, the_room, the_bag, with_things, with_bag, room_obj_add,
  room_obj_del_by_ptr, userdb_add_obj, userdb_del_obj_by_ptr, with_server, saved,
}
use netcosm.Room.{Room}
use netcosm.Server.{Server}
use netcosm.Text.Djb.{string_keys, string_keys-IsLawful, ObjName}
use netcosm.Text.{Bytes}
use netcosm.Userdb.{User, userdb_lookup}
use netcosm.Hash.Chain.{IsLawful}
use netcosm.World.{room_get}

-- What is written through the pointer to the data of a key is found there.
lookup-write_through :
    {D : Type 0} (k : Bytes) (d old : D) (m : HashMap Bytes D)
    → 0 < length m.table
    → IsPlaced m.table
    → lookup k m ≡ some old
    → let r = write_through k d m in (0 < length r.table) × IsPlaced r.table × (lookup k r ≡ some d)
lookup-write_through k d old m pos placed found = elim (Option-cases (contents m k)) [
  | inl absent ↦ ground (arith, lookup_absent k m absent, found)
  | inr (e, present) ↦
      let t = write_through-Wrote k d m e pos present placed in
      let here = t.reads k ∙ rw string_keys-IsLawful.same_refl refl in
      (rw t.width pos, t.placed, lookup_present k (write_through k d m) (e.0, d) here)
]

module _ {U : Type 0} ⦃obj_keys : Keys ObjName⦄ ⦃law : IsLawful obj_keys⦄ where
  abbrev pub held_by : Heap U → Things → Holding U
  held_by heap things = record { heap = heap; things = things }

  -- The room `id` and the inventory of `name` hold these objects; every object has as many references
  -- as the two maps point to it and `others` counts.
  pub record IsScene (others : ℕ → ℕ) (id : ℕ) (name : Bytes) (things bag : Things) (r : Realm U)
      : Type 0 where
    pub room : Room
    pub here : room_get id r.game.world ≡ some room
    pub room_has : room.objects ≡ things
    pub user : User
    pub known : userdb_lookup name r.userdb ≡ some user
    pub user_has : user.objects ≡ some bag
    pub pos : 0 < length r.userdb.users.table
    pub placed : IsPlaced r.userdb.users.table
    pub room_side : IsBalanced (λ q. refs q bag + others q) (held_by r.heap things)
    pub bag_side : IsBalanced (λ q. refs q things + others q) (held_by r.heap bag)

  -- Packets that are sent do not change the scene.
  pub IsScene-server :
      {others : ℕ → ℕ} {id : ℕ} {name : Bytes} {things bag : Things} {r : Realm U}
      → IsScene others id name things bag r
      → (sv : Server) → IsScene others id name things bag (with_server sv r)
  IsScene-server s sv = record {
    room = s.room;
    here = s.here;
    room_has = s.room_has;
    user = s.user;
    known = s.known;
    user_has = s.user_has;
    pos = s.pos;
    placed = s.placed;
    room_side = s.room_side;
    bag_side = s.bag_side;
  }

  pub IsScene-saved :
      {others : ℕ → ℕ} {id : ℕ} {name : Bytes} {things bag : Things} {r : Realm U}
      → IsScene others id name things bag r
      → IsScene others id name things bag (saved r)
  unfolding userdb_lookup
  IsScene-saved s = record {
    room = s.room;
    here = s.here;
    room_has = s.room_has;
    user = s.user;
    known = s.known;
    user_has = s.user_has;
    pos = s.pos;
    placed = s.placed;
    room_side = s.room_side;
    bag_side = s.bag_side;
  }

  -- The same map is balanced in another heap that counts right.
  pub rebalanced :
      {others others' : ℕ → ℕ} {heap heap' : Heap U} {things : Things}
      → IsBalanced others (held_by heap things)
      → IsLive heap'
      → ((q : ℕ) → count_of (heap' q) ≡ refs q things + others' q)
      → IsBalanced others' (held_by heap' things)
  rebalanced b live counts = record {
    live = live;
    well = b.well;
    frees = b.frees;
    keeps = b.keeps;
    few = b.few;
    counts = counts;
  }

  module _ {others : ℕ → ℕ} {id : ℕ} {name : Bytes} {things bag : Things} {r : Realm U}
      (s : IsScene others id name things bag r) where
    in_bag_run :
        (f : Holding U → Run (Bool × Holding U)) (t : Bool × Holding U)
        → f (held_by r.heap bag) ≡ ok t
        → in_bag name f r ≡ ok (t.0, with_bag name s.user t.1 r)
    unfolding in_bag the_bag
    in_bag_run f t run = rw (in_bag, the_bag, s.known, s.user_has, run) refl

    in_room_run :
        (f : Holding U → Run (Bool × Holding U)) (t : Bool × Holding U)
        → f (held_by r.heap things) ≡ ok t
        → in_room id f r ≡ ok (t.0, with_things id s.room t.1 r)
    unfolding in_room the_room
    in_room_run f t run = rw (in_room, the_room, s.here, s.room_has, run) refl

    -- The scene after the inventory, or the room, has changed.
    with_bag-IsScene :
        (h : Holding U)
        → IsBalanced (λ q. refs q things + others q) h
        → IsScene others id name things h.things (with_bag name s.user h r)
    unfolding userdb_lookup
    with_bag-IsScene h b =
        let u : User = record s.user { objects = some h.things } in
        let (pos, placed, found) =
          lookup-write_through name u s.user r.userdb.users s.pos s.placed s.known in
        record {
          room = s.room;
          here = s.here;
          room_has = s.room_has;
          user = u;
          known = found;
          user_has = refl;
          pos = pos;
          placed = placed;
          room_side = rebalanced s.room_side b.live (λ q. omega (arith, b.counts q));
          bag_side = b;
        }

    with_things-IsScene :
        (others' : ℕ → ℕ) (h : Holding U)
        → IsBalanced (λ q. refs q bag + others' q) h
        → IsScene others' id name h.things bag (with_things id s.room h r)
    unfolding room_get
    with_things-IsScene others' h b = record {
      room = record s.room { objects = h.things };
      here =
          get-set r.game.world.rooms id id (record s.room { objects = h.things }) s.room s.here
          ∙ ground arith;
      room_has = refl;
      user = s.user;
      known = s.known;
      user_has = s.user_has;
      pos = s.pos;
      placed = s.placed;
      room_side = b;
      bag_side = rebalanced s.bag_side b.live (λ q. omega (arith, b.counts q));
    }

    -- userdb_add_obj puts the object into the inventory, under its aliases and its name.
    pub userdb_add_obj-Grown :
        (p : ℕ) (obj : Object U)
        → IsCounted bag
        → r.heap p ≡ some obj
        → obj.refcount + suc (length obj.alias_list) < u32_mod
        → n_refs bag + suc (length obj.alias_list) < u64_mod
        → Returns (userdb_add_obj name p r) λ t.
          (bag' : Things) × IsScene others id name things bag' t.1
          × Grown p
              (suc (length obj.alias_list))
              (obj.alias_list ++ obj.name ∷ [])
              (held_by r.heap bag)
              (held_by t.1.heap bag')
    unfolding userdb_add_obj
    userdb_add_obj-Grown p obj c alive room wide =
        let (t, run, (b, g)) =
          share-Grown _ p obj (held_by r.heap bag) s.bag_side c alive room wide in
        (
          (t.0, with_bag name s.user t.1 r),
          in_bag_run (share p) t run,
          (t.1.things, with_bag-IsScene t.1 b, g),
        )

    -- room_obj_add puts the object into the room, and keeps a reference that `others` has counted.
    pub room_obj_add-Grown :
        (others' : ℕ → ℕ) (p : ℕ) (obj : Object U)
        → IsCounted things
        → r.heap p ≡ some obj
        → ((q : ℕ) → others' q + (if p == q then 1 else 0) ≡ others q)
        → obj.refcount + length obj.alias_list < u32_mod
        → n_refs things + suc (length obj.alias_list) < u64_mod
        → Returns (room_obj_add id p r) λ t.
          (things' : Things) × IsScene others' id name things' bag t.1
          × Grown p
              (length obj.alias_list)
              (obj.name ∷ obj.alias_list)
              (held_by r.heap things)
              (held_by t.1.heap things')
    unfolding room_obj_add
    room_obj_add-Grown others' p obj c alive gives room wide =
        let (t, run, (b, g)) =
          give-Grown _ (λ q. refs q bag + others' q) p obj (held_by r.heap things) s.room_side c
            alive (λ q. omega (arith, gives q)) room wide in
        (
          (t.0, with_things id s.room t.1 r),
          in_room_run (give p) t run,
          (t.1.things, with_things-IsScene others' t.1 b, g),
        )

    -- userdb_del_obj_by_ptr takes the object out of the inventory, while something else refers to it.
    pub userdb_del_obj_by_ptr-Shrunk :
        (p : ℕ) (obj : Object U)
        → r.heap p ≡ some obj
        → IsOwn r.heap p obj
        → 0 < refs p things + others p
        → Returns (userdb_del_obj_by_ptr name p r) λ t.
          (bag' : Things) × IsScene others id name things bag' t.1
          × Shrunk p (obj.alias_list ++ obj.name ∷ []) (held_by r.heap bag) (held_by t.1.heap bag')
    unfolding userdb_del_obj_by_ptr
    userdb_del_obj_by_ptr-Shrunk p obj alive own kept =
        let (t, run, (b, g)) =
          take_out-Shrunk _ p obj (held_by r.heap bag) s.bag_side alive own kept in
        (
          (t.0, with_bag name s.user t.1 r),
          in_bag_run (take_out p) t run,
          (t.1.things, with_bag-IsScene t.1 b, g),
        )

    -- One reference more, which `others` then counts.
    pub dup_obj-IsScene :
        (p : ℕ) (obj : Object U)
        → r.heap p ≡ some obj
        → obj.refcount + 1 < u32_mod
        → Returns (dup_obj p r) λ r'.
          IsScene (λ q. others q + (if p == q then 1 else 0)) id name things bag r'
          × IsKin r.heap r'.heap
          × ((q : ℕ) → count_of (r'.heap q) ≡ count_of (r.heap q) + (if p == q then 1 else 0))
    dup_obj-IsScene p obj alive room =
        let held : count_of (r.heap p) ≡ obj.refcount = rw alive refl in
        let b = s.room_side in
        let (heap, run, (live, kin, count)) =
          dup_ref-count p r.heap b.live (rw alive (held_live r.heap p obj b.live alive))
            (rw held room) in
        (
          record r { heap = heap },
          rw run refl,
          (
            record {
              room = s.room;
              here = s.here;
              room_has = s.room_has;
              user = s.user;
              known = s.known;
              user_has = s.user_has;
              pos = s.pos;
              placed = s.placed;
              room_side = rebalanced s.room_side live (λ q. omega (arith, count q, b.counts q));
              bag_side = rebalanced s.bag_side live (λ q. omega (arith, count q, b.counts q));
            },
            kin,
            count,
          ),
        )

    -- room_obj_del_by_ptr takes the object out of the room, while something else refers to it.
    pub room_obj_del_by_ptr-Shrunk :
        (p : ℕ) (obj : Object U)
        → r.heap p ≡ some obj
        → IsOwn r.heap p obj
        → 0 < refs p bag + others p
        → Returns (room_obj_del_by_ptr id p r) λ t.
          (things' : Things) × IsScene others id name things' bag t.1
          × Shrunk p
              (obj.alias_list ++ obj.name ∷ [])
              (held_by r.heap things)
              (held_by t.1.heap things')
    unfolding room_obj_del_by_ptr
    room_obj_del_by_ptr-Shrunk p obj alive own kept =
        let (t, run, (b, g)) =
          take_out-Shrunk _ p obj (held_by r.heap things) s.room_side alive own kept in
        (
          (t.0, with_things id s.room t.1 r),
          in_room_run (take_out p) t run,
          (t.1.things, with_things-IsScene others t.1 b, g),
        )
