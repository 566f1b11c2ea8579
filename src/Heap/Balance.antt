-- ===== src/Heap/Balance.antt =====
-- Reference counts of the objects in a heap, against the pairs of a map that point to them.
use netcosm.Base.{
  ℕ, ◌+◌, ◌≤◌, ◌<◌, ◌≡◌, refl, sym, ap, ◌∙◌, true, false, Option, none, some, List, [], ◌∷◌, length,
  length-append, ◌++◌, if◌then◌else◌, inl, inr, Option-cases, Bool-cases, ◌==◌, arith,
}
use netcosm.Base.Run.{Returns, ok}
use netcosm.Base.Words.{u32_mod, u64_mod}
use netcosm.Hash.Weight.{weight}
use netcosm.Heap.Refs.{tally, measure, tally-Adds, length-Adds}
use netcosm.Heap.{Heap, Holding, Things, deref, store, dup_ref, free_ref, free_refs}
use netcosm.Multimap.Laws.{pairs, IsWell, IsCounted}
use netcosm.Multimap.{Pair, free_list, free_pair}
use netcosm.Object.{Object, obj_dup, obj_free}
use netcosm.Room.{name_key}
use netcosm.Text.{Bytes}
use netcosm.Hash.Types.{Keys}
use netcosm.Hash.Chain.{IsLawful}
use netcosm.Text.Djb.{ObjName}

module _ ⦃obj_keys : Keys ObjName⦄ ⦃law : IsLawful obj_keys⦄ where
  -- The pairs of a list, and of a map, that point to `p`.
  abbrev pub pointing : ℕ → List (Pair ObjName ℕ) → ℕ
  pointing p = tally (λ v. v == p)

  abbrev pub refs : ℕ → Things → ℕ
  refs p m = weight (measure (pointing p) (tally-Adds (λ v. v == p))) m.hash_tab

  -- The pairs of a key, after a pair that points to `p` has been put before them for every name that is
  -- the key, in turn.
  abbrev pub pushed : ObjName → ℕ → List Bytes → List (Pair ObjName ℕ) → List (Pair ObjName ℕ)
  pushed q p [] ps = ps
  pushed q p (n ∷ ns) ps =
      pushed q p ns (if obj_keys.same q (name_key n) then (name_key n, p) ∷ ps else ps)

  pushed-append :
      (q : ObjName) (p : ℕ) (ks ls : List Bytes) (ps : List (Pair ObjName ℕ))
      → pushed q p (ks ++ ls) ps ≡ pushed q p ls (pushed q p ks ps)
  pushed-append q p [] ls ps = refl
  pushed-append q p (k ∷ ks) ls ps = pushed-append q p ks ls _

  abbrev pub n_refs : Things → ℕ
  n_refs m = weight (measure length length-Adds) m.hash_tab

module _ {U : Type 0} ⦃obj_keys : Keys ObjName⦄ ⦃law : IsLawful obj_keys⦄ where
  -- The count of an object; 0 where there is none.
  abbrev pub count_of : Option (Object U) → ℕ
  count_of none = 0
  count_of (some obj) = obj.refcount

  -- No object in the heap is without references, nor has it more than an `unsigned` counts.
  unfoldable pub IsLive : Heap U → Type 0
  IsLive heap =
      (q : ℕ) (obj : Object U) → heap q ≡ some obj → (0 < obj.refcount) × (obj.refcount < u32_mod)

  -- An object of `heap'` is one of `heap`, with another count at most.
  unfoldable pub IsKin : Heap U → Heap U → Type 0
  IsKin heap heap' =
      (q : ℕ) (obj : Object U)
      → heap' q ≡ some obj
      → (old : Object U) × (heap q ≡ some old) × (obj ≡ record old { refcount = obj.refcount })

  pub IsKin-refl : (heap : Heap U) → IsKin heap heap
  unfolding IsKin
  IsKin-refl heap q obj e = (obj, e, refl)

  pub IsKin-trans : (a b c : Heap U) → IsKin a b → IsKin b c → IsKin a c
  unfolding IsKin
  IsKin-trans a b c h k q obj e =
      let (mid, e', same') = k q obj e in
      let (old, e'', same'') = h q mid e' in
      (old, e'', same' ∙ ap {A = Object U} (λ m. record m { refcount = obj.refcount }) same'')

  pub deref_alive :
      (p : ℕ) (heap : Heap U) (obj : Object U) → heap p ≡ some obj → deref p heap ≡ ok obj
  unfolding deref
  deref_alive p heap obj e = rw (deref, e) refl

  free_kin :
      (p q : ℕ) (heap : Heap U) (obj x : Object U)
      → heap p ≡ some obj
      → store p (obj_free obj) heap q ≡ some x
      → (old : Object U) × (heap q ≡ some old) × (x ≡ record old { refcount = x.refcount })
  unfolding obj_free
  free_kin p q heap obj x e h = elim (Bool-cases (q == p)) [
    | inl here ↦ (obj, ground (arith, here, e), ground (arith, here, h))
    | inr other ↦ (x, ground (arith, other, h), refl)
  ]

  dup_kin :
      (p q : ℕ) (heap : Heap U) (obj x : Object U)
      → heap p ≡ some obj
      → store p (some (obj_dup obj)) heap q ≡ some x
      → (old : Object U) × (heap q ≡ some old) × (x ≡ record old { refcount = x.refcount })
  unfolding obj_dup
  dup_kin p q heap obj x e h = elim (Bool-cases (q == p)) [
    | inl here ↦ (obj, ground (arith, here, e), ground (arith, here, h))
    | inr other ↦ (x, ground (arith, other, h), refl)
  ]

  -- One reference more.
  pub dup_ref-count :
      (p : ℕ) (heap : Heap U)
      → IsLive heap
      → 0 < count_of (heap p)
      → count_of (heap p) + 1 < u32_mod
      → Returns (dup_ref p heap) λ heap'.
        IsLive heap'
        × IsKin heap heap'
        × ((q : ℕ) → count_of (heap' q) ≡ count_of (heap q) + (if p == q then 1 else 0))
  unfolding dup_ref deref IsLive IsKin obj_dup
  dup_ref-count p heap live some_left room = elim (Option-cases (heap p)) [
    | inl gone ↦ ground (arith, gone, some_left)
    | inr (obj, e) ↦ (
      store p (some (obj_dup obj)) heap,
      rw (deref_alive p heap obj e, dup_ref) refl,
      (
        λ q x h. ground (arith, h, live q x, live p obj e, room, e),
        λ q x h. dup_kin p q heap obj x e h,
        λ q. ground (arith, e, room, live p obj e),
      ),
    )
  ]

  -- One reference less; the last takes the object out of the heap.
  pub free_ref-count :
      (p : ℕ) (heap : Heap U)
      → IsLive heap
      → 0 < count_of (heap p)
      → Returns (free_ref p heap) λ heap'.
        IsLive heap'
        × IsKin heap heap'
        × ((q : ℕ) → count_of (heap' q) + (if p == q then 1 else 0) ≡ count_of (heap q))
  unfolding free_ref deref IsLive IsKin obj_free
  free_ref-count p heap live some_left = elim (Option-cases (heap p)) [
    | inl gone ↦ ground (arith, gone, some_left)
    | inr (obj, e) ↦
        let (pos, small) = live p obj e in
        (
          store p (obj_free obj) heap,
          rw (deref_alive p heap obj e, free_ref) refl,
          (
            λ q x h. ground (arith, h, live q x, pos, small, e),
            λ q x h. free_kin p q heap obj x e h,
            λ q. ground (arith, e, pos, small),
          ),
        )
  ]

  -- The references of the pairs of a list go.
  pub free_refs-count :
      (m : Things) (ps : List (Pair ObjName ℕ)) (heap : Heap U)
      → m.free_data ≡ true
      → m.free_key ≡ false
      → IsLive heap
      → ((q : ℕ) → pointing q ps ≤ count_of (heap q))
      → Returns (free_refs (free_list m ps) heap) λ heap'.
        IsLive heap'
        × IsKin heap heap'
        × ((q : ℕ) → count_of (heap' q) + pointing q ps ≡ count_of (heap q))
  unfolding free_refs free_list free_pair
  free_refs-count m [] heap frees keeps live held =
      (heap, refl, (live, IsKin-refl heap, λ q. omega arith))
  free_refs-count m (p ∷ ps) heap frees keeps live held =
      let first : 0 < count_of (heap p.1) = ground (arith, held p.1) in
      let (h1, run, (live1, kin1, count1)) = free_ref-count p.1 heap live first in
      let (h2, run2, (live2, kin2, count2)) =
        free_refs-count m ps h1 frees keeps live1 (λ q. omega (arith, held q, count1 q)) in
      (
        h2,
        rw (frees, keeps) (rw run run2),
        (live2, IsKin-trans heap h1 h2 kin1 kin2, λ q. omega (arith, count1 q, count2 q)),
      )

  -- The map is in order and frees its objects, and every object has as many references as the pairs of
  -- the map that point to it and those that `others` counts.
  pub record IsBalanced (others : ℕ → ℕ) (h : Holding U) : Type 0 where
    pub live : IsLive h.heap
    pub well : IsWell h.things
    pub frees : h.things.free_data ≡ true
    pub keeps : h.things.free_key ≡ false
    pub few : n_refs h.things < u64_mod
    pub counts : (q : ℕ) → count_of (h.heap q) ≡ refs q h.things + others q

  -- `h'` is `h` with `n` references more to `p`, and a pair more that points to it under each name.
  pub record Grown (p n : ℕ) (names : List Bytes) (h h' : Holding U) : Type 0 where
    pub kin : IsKin h.heap h'.heap
    pub counted : IsCounted h'.things
    pub more : (q : ℕ) → count_of (h'.heap q) ≡ count_of (h.heap q) + (if p == q then n else 0)
    pub size : n_refs h'.things ≡ n_refs h.things + length names
    pub reads : (q : ObjName) → pairs h'.things q ≡ pushed q p names (pairs h.things q)

  pub Grown-trans :
      {p n n' m : ℕ} {ks ks' ls : List Bytes} {a b c : Holding U}
      → Grown p n ks a b
      → Grown p n' ks' b c
      → m ≡ n + n'
      → ls ≡ ks ++ ks'
      → Grown p m ls a c
  Grown-trans {p = p} {ks = ks} {ks' = ks'} {a = a} {b = b} {c = c} g g' e e' = record {
    kin = IsKin-trans a.heap b.heap c.heap g.kin g'.kin;
    counted = g'.counted;
    more = λ q. ground (arith, g.more q, g'.more q, e);
    size = rw e' (omega (arith, g.size, g'.size, length-append ks ks'));
    reads = λ q. rw (e', g'.reads q, g.reads q) (sym (pushed-append q p ks ks' (pairs a.things q)));
  }
