-- ===== src/Realm/Taking.antt =====
-- `req_take` of src/server_reqs.c: what it moves, and what becomes of the reference counts.
pub mod Several
use netcosm.Base.{
  ℕ, suc, ◌+◌, ◌<◌, ◌≡◌, ◌≢◌, refl, sym, ◌∙◌, Bool, true, false, ◌||◌, ◌&&◌, none, some, List, [],
  ◌∷◌, ◌++◌, length, map, is_empty, if◌then◌else◌, ◌==◌, Option-cases, Bool-cases, inl, inr, arith,
}
use netcosm.Base.Run.{Returns, ok, ◌>>=◌}
use netcosm.Base.Words.{u32_mod, u64_mod}
use netcosm.Heap.Balance.{
  IsBalanced, Grown, IsKin, IsKin-refl, IsKin-trans, IsLive, pushed, refs, n_refs, count_of,
  deref_alive,
}
use netcosm.Heap.Removing.{IsOwn, Shrunk, without, is_named, same_at-own, IsOwn-kin, alive-kin}
use netcosm.Heap.{Heap, Things, same_at}
use netcosm.Multimap.Laws.{IsCounted, pairs, lookup-pairs}
use netcosm.Multimap.{Pair}
use netcosm.Object.{Object}
use netcosm.Realm.Carrying.{ObjHook, asked, repeated, take_one, take_all, req_take}
use netcosm.Realm.Scene.{
  IsScene, IsScene-server, userdb_add_obj-Grown, room_obj_del_by_ptr-Shrunk, held_by,
}
use netcosm.Realm.{Realm, say, with_server, saved, values, userdb_add_obj, room_obj_del_by_ptr}
use netcosm.Room.{name_key}
use netcosm.Server.Handlers.{c_string, send_msg}
use netcosm.Server.{Child, Server, post, to_child}
use netcosm.Text.Djb.{ObjName}
use netcosm.Text.{Bytes, ascii}
use netcosm.Wire.Packets.{send_packet-payload}
use netcosm.Hash.Types.{Keys}
use netcosm.Hash.Chain.{IsLawful}
use netcosm.Wire.{send_packet}

module _ {U : Type 0} ⦃obj_keys : Keys ObjName⦄ ⦃law : IsLawful obj_keys⦄ where
  -- The names under which an object stands in a map.
  unfoldable pub names_at : Heap U → ℕ → List Bytes
  names_at heap p = elim (heap p) [ none ↦ [] | some obj ↦ obj.alias_list ++ obj.name ∷ [] ]

  -- The pairs of a key of the inventory, and of the room, when the objects have been taken in turn.
  unfoldable pub bag_with :
      Heap U → ObjName → List ℕ → List (Pair ObjName ℕ) → List (Pair ObjName ℕ)
  unfolding names_at
  bag_with heap q [] es = es
  bag_with heap q (p ∷ ps) es = bag_with heap q ps (pushed q p (names_at heap p) es)

  unfoldable pub room_without :
      Heap U → ObjName → List ℕ → List (Pair ObjName ℕ) → List (Pair ObjName ℕ)
  unfolding names_at
  room_without heap q [] es = es
  room_without heap q (p ∷ ps) es =
      room_without heap q ps (if is_named q (names_at heap p) then without p es else es)

  -- A child's text always reaches it.
  pub say_returns :
      (pid : ℕ) (text : Bytes) (r : Realm U)
      → (sv : Server) × (say pid text r ≡ ok (with_server sv r))
  unfolding say send_msg post
  say_returns pid text r =
      let (ps, run, _) = send_packet-payload text in
      let sv = r.game.server in
      (record sv { sent = sv.sent ++ to_child pid ps }, rw (say, send_msg, post, run) refl)

  -- The answer of a hook; a class without one allows everything.
  abbrev pub allows : ObjHook U → Child → Object U → Bool
  allows hook sender obj = elim (hook obj.class) [ none ↦ true | some f ↦ (f obj sender).0 ]

  pub asked_answers :
      (hook : ObjHook U) (obj : Object U) (sender : Child) (r : Realm U)
      → (sv : Server) × (asked hook obj sender r ≡ (allows hook sender obj, with_server sv r))
  unfolding asked
  asked_answers hook obj sender r = elim (Option-cases (hook obj.class)) [
    | inl missing ↦ (r.game.server, ground (arith, missing))
    | inr (f, e) ↦
        let sv = r.game.server in
        (record sv { sent = sv.sent ++ (f obj sender).1 }, ground (arith, e))
  ]

  -- The object at `p` may be taken: it alone has its id, its hook allows it, and there is room for the
  -- references to it.
  pub record IsTakeable (hook : ObjHook U) (sender : Child) (heap : Heap U) (p : ℕ) : Type 0 where
    pub obj : Object U
    pub alive : heap p ≡ some obj
    pub own : IsOwn heap p obj
    pub allowed : allows hook sender obj ≡ true
    pub room : obj.refcount + suc (length obj.alias_list) < u32_mod

  -- `r'` is `r` with the object at `p` taken from the room into the inventory.
  pub record Taken (p : ℕ) (names : List Bytes) (r r' : Realm U) (things bag things' bag' : Things)
      : Type 0 where
    pub kin : IsKin r.heap r'.heap
    pub same : (q : ℕ) → q ≢ p → count_of (r'.heap q) ≡ count_of (r.heap q)
    pub counted : IsCounted bag'
    pub size : n_refs bag' ≡ n_refs bag + length names
    pub bag_reads : (q : ObjName) → pairs bag' q ≡ pushed q p names (pairs bag q)
    pub room_reads :
        (q : ObjName)
        → pairs things' q
          ≡ (if is_named q names then without p (pairs things q) else pairs things q)

  take_one_run :
      {r0 r1 r2 r3 : Realm U} {a b : Bool} {name : Bytes} (r : Realm U) (hook : ObjHook U)
      (sender : Child) (p : ℕ) (obj : Object U)
      → r.heap p ≡ some obj
      → asked hook obj sender r ≡ (true, r0)
      → sender.user ≡ some name
      → userdb_add_obj name p r0 ≡ ok (a, r1)
      → room_obj_del_by_ptr sender.room p r1 ≡ ok (b, r2)
      → say sender.pid (ascii "Taken.\n") r2 ≡ ok r3
      → take_one hook sender p r ≡ ok (true, r3)
  unfolding take_one
  take_one_run r hook sender p obj alive ask named run1 run2 run3 =
      rw (take_one, deref_alive p r.heap obj alive, ask, named, run1, run2, run3) refl

  module _ {others : ℕ → ℕ} {name : Bytes} (hook : ObjHook U) (sender : Child)
      (named : sender.user ≡ some name) where
    pub take_one-Taken :
        {things bag : Things} {r : Realm U}
        → IsScene others sender.room name things bag r
        → IsCounted bag
        → (p : ℕ) (t : IsTakeable hook sender r.heap p)
        → n_refs bag + suc (length t.obj.alias_list) < u64_mod
        → Returns (take_one hook sender p r) λ s.
          (s.0 ≡ true)
          × (things' bag' : Things) × IsScene others sender.room name things' bag' s.1
          × Taken p (t.obj.alias_list ++ t.obj.name ∷ []) r s.1 things bag things' bag'
    unfolding take_one
    take_one-Taken {things = things} {bag = bag} {r = r} s c p t wide =
        let obj = t.obj in
        let (sv0, ask) = asked_answers hook obj sender r in
        let s0 = IsScene-server s sv0 in
        let (u, run1, (bag', s1, g)) = userdb_add_obj-Grown s0 p obj c t.alive t.room wide in
        let (new, alive1, eq) =
          alive-kin p obj r.heap u.1.heap g.kin t.alive (ground (arith, g.more p)) in
        let own1 = IsOwn-kin p obj new r.heap u.1.heap g.kin t.own (ground (arith, eq)) in
        let kept : 0 < refs p bag' + others p =
          ground (arith, s1.bag_side.counts p, s.bag_side.counts p, g.more p) in
        let (v, run2, (things', s2, h)) = room_obj_del_by_ptr-Shrunk s1 p new alive1 own1 kept in
        let (sv, run3) = say_returns sender.pid (ascii "Taken.\n") v.1 in
        let names : (new.alias_list ++ new.name ∷ []) ≡ (obj.alias_list ++ obj.name ∷ []) =
          rw eq refl in
        (
          (true, with_server sv v.1),
          take_one_run {r0 = with_server sv0 r} r hook sender p obj t.alive
              (ask ∙ rw t.allowed refl) named run1 run2 run3,
          (
            refl,
            things',
            bag',
            IsScene-server s2 sv,
            record {
              kin = IsKin-trans r.heap u.1.heap v.1.heap g.kin h.kin;
              same = λ q apart. h.same q apart ∙ ground (arith, g.more q, apart);
              counted = g.counted;
              size = g.size;
              bag_reads = g.reads;
              room_reads = λ q. rw (h.reads q, names) refl;
            },
          ),
        )
