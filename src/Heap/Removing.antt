-- ===== src/Heap/Removing.antt =====
-- Taking an object out of a map, under its name and aliases (src/room.c, src/userdb.c).
use netcosm.Base.{
  ℕ, ◌≤◌, ◌<◌, ◌≡◌, ◌≢◌, refl, ◌∙◌, Bool, false, ◌||◌, if◌then◌else◌, Option-cases, Bool-cases, inl,
  inr, not, List, [], ◌∷◌, ◌++◌, ◌==◌, some, select, length, arith,
}
use netcosm.Base.Run.{Returns}
use netcosm.Base.Words.{u64_mod}
use netcosm.Hash.Table.{view_congr}
use netcosm.Hash.Ops.{lookup}
use netcosm.Heap.Balance.{
  IsBalanced, IsKin, IsKin-refl, IsKin-trans, deref_alive, pointing, n_refs, count_of,
  free_refs-count,
}
use netcosm.Heap.Refs.{delete-measure, pairs-measure, tally-Adds, length-Adds}
use netcosm.Heap.{Heap, Holding, Things, same_at, comparing, delete_name, delete_aliases, take_out}
use netcosm.Multimap.Delete.{hit, delete-Puts}
use netcosm.Multimap.Laws.{IsWell, pairs}
use netcosm.Multimap.{Pair, multimap_delete}
use netcosm.Object.{Object, obj_same}
use netcosm.Room.{name_key}
use netcosm.Text.Djb.{ObjName}
use netcosm.Hash.Types.{Keys}
use netcosm.Hash.Chain.{IsLawful}
use netcosm.Text.{Bytes}

module _ ⦃obj_keys : Keys ObjName⦄ ⦃law : IsLawful obj_keys⦄ where
  delete-callbacks :
      (k : ObjName) (p : ℕ) (m : Things)
      → let r = (multimap_delete k p m).2 in (r.free_data ≡ m.free_data) × (r.free_key ≡ m.free_key)
  unfolding multimap_delete
  delete-callbacks k p m = elim (Option-cases (lookup k m.hash_tab)) [
    | inl absent ↦ rw (multimap_delete, absent) (refl, refl)
    | inr (n, present) ↦ rw (multimap_delete, present) (refl, refl)
  ]

  -- The pairs that do not point to `p`.
  abbrev pub without : ℕ → List (Pair ObjName ℕ) → List (Pair ObjName ℕ)
  without p ps = select (λ e. not (e.1 == p)) ps

  -- Whether a key is that of one of the names.
  abbrev pub is_named : ObjName → List Bytes → Bool
  is_named q [] = false
  is_named q (n ∷ ns) = obj_keys.same q (name_key n) || is_named q ns

  without-without : (p : ℕ) (ps : List (Pair ObjName ℕ)) → without p (without p ps) ≡ without p ps
  without-without p [] = refl
  without-without p (e ∷ ps) = ground (arith, without-without p ps)

  is_named-append :
      (q : ObjName) (ks ls : List Bytes) → is_named q (ks ++ ls) ≡ (is_named q ks || is_named q ls)
  is_named-append q [] ls = refl
  is_named-append q (k ∷ ks) ls = ground (arith, is_named-append q ks ls)

module _ {U : Type 0} ⦃obj_keys : Keys ObjName⦄ ⦃law : IsLawful obj_keys⦄ where
  -- Only the object at `p` has the id that it has.
  unfoldable pub IsOwn : Heap U → ℕ → Object U → Type 0
  IsOwn heap p obj = (q : ℕ) (x : Object U) → heap q ≡ some x → x.id ≡ obj.id → q ≡ p

  -- Among live objects, obj_compare tells the object from the others.
  pub same_at-own :
      (heap : Heap U) (p q : ℕ) (obj : Object U)
      → heap p ≡ some obj
      → IsOwn heap p obj
      → 0 < count_of (heap q)
      → same_at heap p q ≡ (q == p)
  unfolding same_at obj_same IsOwn
  same_at-own heap p q obj alive own held = elim (Option-cases (heap q)) [
    | inl gone ↦ ground (arith, gone, held)
    | inr (x, e) ↦ elim (Bool-cases (q == p)) [
      | inl here ↦ ground (arith, here, alive, e)
      | inr other ↦
          let apart : x.id ≢ obj.id = λ same. ground (arith, own q x e same, other) in
          ground (arith, other, alive, e, apart)
    ]
  ]

  select-own :
      (heap : Heap U) (p : ℕ) (obj : Object U) (ps : List (Pair ObjName ℕ))
      → heap p ≡ some obj
      → IsOwn heap p obj
      → ((q : ℕ) → pointing q ps ≤ count_of (heap q))
      → select (λ e. not (same_at heap p e.1)) ps ≡ without p ps
  select-own heap p obj [] alive own held = refl
  select-own heap p obj (e ∷ ps) alive own held =
      let first : 0 < count_of (heap e.1) = ground (arith, held e.1) in
      rw
        (
          same_at-own heap p e.1 obj alive own first,
          select-own heap p obj ps alive own (λ q. omega (arith, held q)),
        )
        refl

  -- None of those that go points to another object.
  gone-own :
      (heap : Heap U) (p q : ℕ) (obj : Object U) (ps : List (Pair ObjName ℕ))
      → heap p ≡ some obj
      → IsOwn heap p obj
      → ((q : ℕ) → pointing q ps ≤ count_of (heap q))
      → q ≢ p
      → pointing q (select (λ e. same_at heap p e.1) ps) ≡ 0
  gone-own heap p q obj [] alive own held apart = refl
  gone-own heap p q obj (e ∷ ps) alive own held apart =
      let first : 0 < count_of (heap e.1) = ground (arith, held e.1) in
      let rest = gone-own heap p q obj ps alive own (λ q. omega (arith, held q)) apart in
      rw (same_at-own heap p e.1 obj alive own first) (ground (arith, rest, apart))

  -- `h'` is `h` without the pairs that point to `p` under the names.
  pub record Shrunk (p : ℕ) (names : List Bytes) (h h' : Holding U) : Type 0 where
    pub kin : IsKin h.heap h'.heap
    pub size : n_refs h'.things ≤ n_refs h.things
    pub same : (q : ℕ) → q ≢ p → count_of (h'.heap q) ≡ count_of (h.heap q)
    pub reads :
        (q : ObjName)
        → pairs h'.things q
          ≡ (if is_named q names then without p (pairs h.things q) else pairs h.things q)

  Shrunk-trans :
      {p : ℕ} {ks ls : List Bytes} {a b c : Holding U}
      → Shrunk p ks a b
      → Shrunk p ls b c
      → Shrunk p (ks ++ ls) a c
  Shrunk-trans {p = p} {ks = ks} {ls = ls} {a = a} {b = b} {c = c} s s' = record {
    kin = IsKin-trans a.heap b.heap c.heap s.kin s'.kin;
    size = omega (arith, s.size, s'.size);
    same = λ q apart. s'.same q apart ∙ s.same q apart;
    reads = λ q. ground (
      arith,
      s.reads q,
      s'.reads q,
      is_named-append q ks ls,
      without-without p (pairs a.things q),
    );
  }

  delete_name-Shrunk :
      (others : ℕ → ℕ) (name : Bytes) (p : ℕ) (obj : Object U) (h : Holding U)
      → IsBalanced others h
      → h.heap p ≡ some obj
      → IsOwn h.heap p obj
      → Returns (delete_name name p h) λ r. IsBalanced others r.1 × Shrunk p (name ∷ []) h r.1
  unfolding delete_name comparing
  delete_name-Shrunk others name p obj h b alive own =
      let m = comparing h.heap h.things in
      let w : IsWell m = record {
        pos = b.well.pos;
        placed = b.well.placed;
        nodes = b.well.nodes;
        total = b.well.total;
      } in
      let k = name_key name in
      let gone = select (hit m p) (pairs m k) in
      let small : length (pairs m k) < u64_mod =
        omega (arith, b.few, pairs-measure length length-Adds k m w) in
      let (_, freed, put) = delete-Puts k p m w small in
      let (frees, keeps) = delete-callbacks k p m in
      let less = λ (q : ℕ). delete-measure (pointing q) (tally-Adds (λ v. v == q)) k p m w small in
      let fewer = delete-measure length length-Adds k p m w small in
      let (heap, run, (live, kin, count)) =
        free_refs-count m gone h.heap b.frees b.keeps b.live
          (λ q. omega (arith, less q, b.counts q)) in
      let r = multimap_delete k p m in
      let h' : Holding U = record { heap = heap; things = r.2 } in
      let held = λ (q : ℕ). pairs-measure (pointing q) (tally-Adds (λ v. v == q)) k m w in
      let only = λ (q : ℕ) (apart : q ≢ p).
        gone-own h.heap p q obj (pairs m k) alive own (λ q. omega (arith, held q, b.counts q))
          apart in
      let left =
        select-own h.heap p obj (pairs m k) alive own (λ q. omega (arith, held q, b.counts q)) in
      (
        (r.0, h'),
        rw (deref_alive p h.heap obj alive, freed, run) refl,
        (
          record {
            live = live;
            well = put.well;
            frees = frees ∙ b.frees;
            keeps = keeps ∙ b.keeps;
            few = omega (arith, fewer, b.few);
            counts = λ q. omega (arith, count q, less q, b.counts q);
          },
          record {
            kin = kin;
            size = omega (arith, fewer);
            same = λ q apart. omega (arith, count q, only q apart);
            reads = λ q. ground (arith, put.reads q, left, view_congr q k h.things.hash_tab);
          },
        ),
      )

  -- What still has references is still there, with another count at most.
  pub alive-kin :
      (p : ℕ) (obj : Object U) (heap heap' : Heap U)
      → IsKin heap heap'
      → heap p ≡ some obj
      → 0 < count_of (heap' p)
      → (new : Object U) × (heap' p ≡ some new) × (new ≡ record obj { refcount = new.refcount })
  unfolding IsKin
  alive-kin p obj heap heap' kin alive held = elim (Option-cases (heap' p)) [
    | inl gone ↦ ground (arith, gone, held)
    | inr (new, e) ↦
        let (old, was, same) = kin p new e in (new, e, ground (arith, same, was, alive))
  ]

  -- Ids do not change.
  pub IsOwn-kin :
      (p : ℕ) (obj new : Object U) (heap heap' : Heap U)
      → IsKin heap heap'
      → IsOwn heap p obj
      → new.id ≡ obj.id
      → IsOwn heap' p new
  unfolding IsKin IsOwn
  IsOwn-kin p obj new heap heap' kin own same q x e h =
      let (old, was, eq) = kin q x e in own q old was (ground (arith, eq, h, same))

  delete_aliases-Shrunk :
      (others : ℕ → ℕ) (names : List Bytes) (p : ℕ) (obj : Object U) (h : Holding U)
      → IsBalanced others h
      → h.heap p ≡ some obj
      → IsOwn h.heap p obj
      → 0 < others p
      → Returns (delete_aliases names p h) λ r. IsBalanced others r × Shrunk p names h r
  unfolding delete_aliases
  delete_aliases-Shrunk others [] p obj h b alive own kept = (
    h,
    refl,
    (
      b,
      record {
        kin = IsKin-refl h.heap;
        size = omega arith;
        same = λ q apart. refl;
        reads = λ q. refl;
      },
    ),
  )
  delete_aliases-Shrunk others (n ∷ ns) p obj h b alive own kept =
      let (r, run, (b1, s1)) = delete_name-Shrunk others n p obj h b alive own in
      let (new, alive1, eq) =
        alive-kin p obj h.heap r.1.heap s1.kin alive (omega (arith, b1.counts p, kept)) in
      let (r', run', (b2, s2)) =
        delete_aliases-Shrunk others ns p new r.1 b1 alive1
          (IsOwn-kin p obj new h.heap r.1.heap s1.kin own (ground (arith, eq))) kept in
      (r', rw run run', (b2, Shrunk-trans s1 s2))

  -- room_obj_del_by_ptr and userdb_del_obj_by_ptr do not abort on an object that is referred to from
  -- elsewhere, too, and whose id no other object has: exactly the pairs that point to the object under
  -- its name and its aliases go, and their references with them.
  pub take_out-Shrunk :
      (others : ℕ → ℕ) (p : ℕ) (obj : Object U) (h : Holding U)
      → IsBalanced others h
      → h.heap p ≡ some obj
      → IsOwn h.heap p obj
      → 0 < others p
      → Returns
          (take_out p h)
          λ r. IsBalanced others r.1 × Shrunk p (obj.alias_list ++ obj.name ∷ []) h r.1
  unfolding take_out
  take_out-Shrunk others p obj h b alive own kept =
      let (h1, run, (b1, s1)) =
        delete_aliases-Shrunk others obj.alias_list p obj h b alive own kept in
      let (new, alive1, eq) =
        alive-kin p obj h.heap h1.heap s1.kin alive (omega (arith, b1.counts p, kept)) in
      let (r, run', (b2, s2)) =
        delete_name-Shrunk others obj.name p new h1 b1 alive1
          (IsOwn-kin p obj new h.heap h1.heap s1.kin own (ground (arith, eq))) in
      (
        (not (r.0 == 0), r.1),
        rw (deref_alive p h.heap obj alive, run, run') refl,
        (b2, Shrunk-trans s1 s2),
      )
