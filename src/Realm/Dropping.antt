-- ===== src/Realm/Dropping.antt =====
-- One round of `req_drop` of src/server_reqs.c, where the hook lets the object go.
use netcosm.Base.{
  ℕ, suc, ◌+◌, ◌<◌, ◌≡◌, refl, ◌∙◌, Bool, some, [], ◌∷◌, ◌++◌, length, if◌then◌else◌, arith,
}
use netcosm.Base.Run.{ok}
use netcosm.Base.Words.{u32_mod, u64_mod}
use netcosm.Heap.Balance.{IsKin, IsKin-trans, pushed, refs, n_refs, count_of}
use netcosm.Heap.Removing.{without, is_named, alive-kin}
use netcosm.Heap.{Things}
use netcosm.Multimap.Laws.{IsCounted, pairs}
use netcosm.Object.{Object}
use netcosm.Realm.Carrying.{dup_obj}
use netcosm.Realm.Scene.{IsScene, dup_obj-IsScene, room_obj_add-Grown}
use netcosm.Realm.{Realm, room_obj_add}
use netcosm.Text.Djb.{ObjName}
use netcosm.Hash.Types.{Keys}
use netcosm.Hash.Chain.{IsLawful}
use netcosm.Text.{Bytes}

module _ {U : Type 0} ⦃obj_keys : Keys ObjName⦄ ⦃law : IsLawful obj_keys⦄ where
  -- `r'` is `r` with the object at `p` dropped from the inventory into the room.
  pub record Dropped (p : ℕ) (obj : Object U) (r r' : Realm U) (things bag things' bag' : Things)
      : Type 0 where
    pub kin : IsKin r.heap r'.heap
    pub counted : IsCounted things'
    pub room_reads :
        (q : ObjName) → pairs things' q ≡ pushed q p (obj.name ∷ obj.alias_list) (pairs things q)
    pub bag_reads :
        (q : ObjName)
        → pairs bag' q ≡ (
            if is_named q (obj.alias_list ++ obj.name ∷ [])
            then without p (pairs bag q)
            else pairs bag q)

  -- The first half of the round: the room has the object, too.
  record Entered (others : ℕ → ℕ) (id : ℕ) (name : Bytes) (p : ℕ) (obj : Object U)
      (things bag : Things) (r : Realm U) : Type 0 where
    mid : Realm U
    out : Bool × Realm U
    dup : dup_obj p r ≡ ok mid
    add : room_obj_add id p mid ≡ ok out
    things' : Things
    scene : IsScene others id name things' bag out.1
    kin : IsKin r.heap out.1.heap
    counted : IsCounted things'
    kept : 0 < refs p things' + others p
    reads :
        (q : ObjName) → pairs things' q ≡ pushed q p (obj.name ∷ obj.alias_list) (pairs things q)

  enter :
      {others : ℕ → ℕ} {id : ℕ} {name : Bytes} (p : ℕ) (obj : Object U) (things bag : Things)
      (r : Realm U)
      → IsScene others id name things bag r
      → IsCounted things
      → r.heap p ≡ some obj
      → obj.refcount + suc (length obj.alias_list) < u32_mod
      → n_refs things + suc (length obj.alias_list) < u64_mod
      → Entered others id name p obj things bag r
  enter {others = others} {id = id} p obj things bag r s c alive room wide =
      let held : count_of (r.heap p) ≡ obj.refcount = rw alive refl in
      let (r1, run0, (s1, kin1, count1)) = dup_obj-IsScene s p obj alive (omega (arith, room)) in
      let more : count_of (r1.heap p) ≡ obj.refcount + 1 = ground (arith, count1 p, held) in
      let (o1, alive1, eq1) = alive-kin p obj r.heap r1.heap kin1 alive (omega (arith, more)) in
      let names : o1.alias_list ≡ obj.alias_list = rw eq1 refl in
      let n : o1.name ≡ obj.name = rw eq1 refl in
      let full : o1.refcount ≡ obj.refcount + 1 = ground (arith, alive1, more) in
      let (u, run1, (things', s2, g)) =
        room_obj_add-Grown s1 others p o1 c alive1 (λ q. refl)
          (rw (full, names) (omega (arith, room))) (rw names wide) in
      record {
        mid = r1;
        out = u;
        dup = run0;
        add = run1;
        things' = things';
        scene = s2;
        kin = IsKin-trans r.heap r1.heap u.1.heap kin1 g.kin;
        counted = g.counted;
        kept = ground (arith, s2.room_side.counts p, s.room_side.counts p, g.more p, count1 p);
        reads = λ q. g.reads q ∙ rw (n, names) refl;
      }
