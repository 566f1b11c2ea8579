-- ===== src/Heap/Adding.antt =====
-- Adding an object to a map under its name and aliases (src/room.c, src/userdb.c).
use netcosm.Base.{
  ℕ, suc, ◌+◌, ◌<◌, ◌≡◌, refl, ◌∙◌, Bool, true, ◌&&◌, some, List, [], ◌∷◌, length, if◌then◌else◌,
  ◌==◌, Option-cases, Bool-cases, ◌++◌, inl, inr, arith,
}
use netcosm.Base.Run.{Returns, ok, Run-cases}
use netcosm.Base.Words.{u32_mod, u64_mod}
use netcosm.Heap.Balance.{
  IsBalanced, Grown, Grown-trans, IsKin-refl, deref_alive, pointing, refs, n_refs, count_of,
  dup_ref-count, IsLive,
}
use netcosm.Heap.Refs.{insert-measure, tally-Adds, length-Adds}
use netcosm.Heap.{Heap, Holding, Things, insert_dup, insert_aliases, give, share}
use netcosm.Multimap.Laws.{insert-Puts, IsWell, IsCounted, pairs}
use netcosm.Hash.Table.{view_congr}
use netcosm.Hash.Ops.{lookup, insert}
use netcosm.Multimap.{multimap_insert}
use netcosm.Object.{Object}
use netcosm.Room.{name_key}
use netcosm.Text.Djb.{ObjName}
use netcosm.Hash.Types.{Keys}
use netcosm.Hash.Chain.{IsLawful}
use netcosm.Text.{Bytes}

module _ ⦃obj_keys : Keys ObjName⦄ ⦃law : IsLawful obj_keys⦄ where
  insert-callbacks :
      (k : ObjName) (p : ℕ) (m : Things) (r : Bool × Things)
      → multimap_insert k p m ≡ ok r
      → (r.1.free_data ≡ m.free_data) × (r.1.free_key ≡ m.free_key)
  unfolding multimap_insert
  insert-callbacks k p m r run = elim (Option-cases (lookup k m.hash_tab)) [
    | inr (n, present) ↦ (ground (arith, present, run), ground (arith, present, run))
    | inl absent ↦
        elim (Run-cases (insert k (record { list = (k, p) ∷ []; n_pairs = 1 }) m.hash_tab)) [
          | inl stop ↦ ground (arith, absent, stop, run)
          | inr (s, e) ↦ (ground (arith, absent, e, run), ground (arith, absent, e, run))
        ]
  ]

  -- An insertion by multimap_insert: one pair more, for the reference `others` gives up.
  insert-refs :
      (k : ObjName) (p : ℕ) (m : Things)
      → IsWell m
      → IsCounted m
      → Returns (multimap_insert k p m) λ r.
        IsWell r.1
        × IsCounted r.1
        × (r.1.free_data ≡ m.free_data)
        × (r.1.free_key ≡ m.free_key)
        × (n_refs r.1 ≡ n_refs m + 1)
        × ((q : ℕ) → refs q r.1 ≡ refs q m + (if p == q then 1 else 0))
        × ((q : ObjName)
            → pairs r.1 q ≡ (if obj_keys.same q k then (k, p) ∷ pairs m k else pairs m q))
  insert-refs k p m w c =
      let (r, run, (_, counted, u)) = insert-Puts k p m w c in
      (
        r,
        run,
        (
          u.well,
          counted,
          (insert-callbacks k p m r run).0,
          (insert-callbacks k p m r run).1,
          insert-measure length length-Adds k p m r w run,
          λ q. omega (arith, insert-measure (pointing q) (tally-Adds (λ v. v == q)) k p m r w run),
          u.reads,
        ),
      )

  -- Equal keys have the same pairs.
  key_reads :
      (k : ObjName) (p : ℕ) (m : Things) (q : ObjName)
      → (if obj_keys.same q k then (k, p) ∷ pairs m k else pairs m q)
        ≡ (if obj_keys.same q k then (k, p) ∷ pairs m q else pairs m q)
  key_reads k p m q = elim (Bool-cases (obj_keys.same q k)) [
    | inl same ↦ rw (same, view_congr q k m.hash_tab same) refl
    | inr other ↦ rw other refl
  ]

module _ {U : Type 0} ⦃obj_keys : Keys ObjName⦄ ⦃law : IsLawful obj_keys⦄ where
  pub held_live :
      (heap : Heap U) (p : ℕ) (obj : Object U) → IsLive heap → heap p ≡ some obj → 0 < obj.refcount
  unfolding IsLive
  held_live heap p obj live e = (live p obj e).0

  insert_dup-Grown :
      (others : ℕ → ℕ) (alias : Bytes) (p : ℕ) (h : Holding U)
      → IsBalanced others h
      → IsCounted h.things
      → 0 < count_of (h.heap p)
      → count_of (h.heap p) + 1 < u32_mod
      → n_refs h.things + 1 < u64_mod
      → Returns (insert_dup alias p h) λ r. IsBalanced others r.1 × Grown p 1 (alias ∷ []) h r.1
  unfolding insert_dup
  insert_dup-Grown others alias p h b c held room wide =
      let (heap, run, (live, kin, count)) = dup_ref-count p h.heap b.live held room in
      let (r, run2, (well, counted, frees, keeps, size, more, reads)) =
        insert-refs (name_key alias) p h.things b.well c in
      let h' : Holding U = record { heap = heap; things = r.1 } in
      (
        (r.0, h'),
        rw run (rw run2 refl),
        (
          record {
            live = live;
            well = well;
            frees = frees ∙ b.frees;
            keeps = keeps ∙ b.keeps;
            few = omega (arith, size, wide);
            counts = λ q. omega (arith, count q, more q, b.counts q);
          },
          record {
            kin = kin;
            counted = counted;
            more = count;
            size = size;
            reads = λ q. reads q ∙ key_reads (name_key alias) p h.things q;
          },
        ),
      )

  insert_aliases-Grown :
      (others : ℕ → ℕ) (aliases : List Bytes) (p : ℕ) (h : Holding U)
      → IsBalanced others h
      → IsCounted h.things
      → 0 < count_of (h.heap p)
      → count_of (h.heap p) + length aliases < u32_mod
      → n_refs h.things + length aliases < u64_mod
      → Returns
          (insert_aliases aliases p h)
          λ r. IsBalanced others r.1 × Grown p (length aliases) aliases h r.1
  unfolding insert_aliases
  insert_aliases-Grown others [] p h b c held room wide = (
    (true, h),
    refl,
    (
      b,
      record {
        kin = IsKin-refl h.heap;
        counted = c;
        more = λ q. ground arith;
        size = omega arith;
        reads = λ q. refl;
      },
    ),
  )
  insert_aliases-Grown others (a ∷ as') p h b c held room wide =
      let (r, run, (b1, g1)) =
        insert_dup-Grown others a p h b c held (omega (arith, room)) (omega (arith, wide)) in
      let (s, run2, (b2, g2)) =
        insert_aliases-Grown others as' p r.1 b1 g1.counted (ground (arith, g1.more p))
          (ground (arith, g1.more p, room)) (omega (arith, g1.size, wide)) in
      ((r.0 && s.0, s.1), rw run (rw run2 refl), (b2, Grown-trans g1 g2 (omega arith) refl))

  -- room_obj_add does not abort, on an object to which the caller has a reference: the map takes that
  -- one for the name, and makes another for each alias.
  pub give-Grown :
      (others others' : ℕ → ℕ) (p : ℕ) (obj : Object U) (h : Holding U)
      → IsBalanced others h
      → IsCounted h.things
      → h.heap p ≡ some obj
      → ((q : ℕ) → others' q + (if p == q then 1 else 0) ≡ others q)
      → obj.refcount + length obj.alias_list < u32_mod
      → n_refs h.things + suc (length obj.alias_list) < u64_mod
      → Returns (give p h) λ r.
        IsBalanced others' r.1 × Grown p (length obj.alias_list) (obj.name ∷ obj.alias_list) h r.1
  unfolding give
  give-Grown others others' p obj h b c alive gives room wide =
      let n = length obj.alias_list in
      let (r, run, (well, counted, frees, keeps, size, more, reads)) =
        insert-refs (name_key obj.name) p h.things b.well c in
      let h1 = record h { things = r.1 } in
      let b1 : IsBalanced others' h1 = record {
        live = b.live;
        well = well;
        frees = frees ∙ b.frees;
        keeps = keeps ∙ b.keeps;
        few = omega (arith, size, wide);
        counts = λ q. omega (arith, more q, b.counts q, gives q);
      } in
      let g1 : Grown p 0 (obj.name ∷ []) h h1 = record {
        kin = IsKin-refl h.heap;
        counted = counted;
        more = λ q. ground arith;
        size = size;
        reads = λ q. reads q ∙ key_reads (name_key obj.name) p h.things q;
      } in
      let same : count_of (h.heap p) ≡ obj.refcount = rw alive refl in
      let held : 0 < count_of (h.heap p) = rw alive (held_live h.heap p obj b.live alive) in
      let (s, run2, (b2, g2)) =
        insert_aliases-Grown others' obj.alias_list p h1 b1 counted held (omega (arith, same, room))
          (omega (arith, size, wide)) in
      (
        (r.0 && s.0, s.1),
        rw (deref_alive p h.heap obj alive, run, run2) refl,
        (b2, Grown-trans g1 g2 (omega arith) refl),
      )

  -- userdb_add_obj on the inventory of a user does not abort: the map makes a reference for each alias
  -- and one for the name, and the caller keeps what references it has.
  pub share-Grown :
      (others : ℕ → ℕ) (p : ℕ) (obj : Object U) (h : Holding U)
      → IsBalanced others h
      → IsCounted h.things
      → h.heap p ≡ some obj
      → obj.refcount + suc (length obj.alias_list) < u32_mod
      → n_refs h.things + suc (length obj.alias_list) < u64_mod
      → Returns (share p h) λ r.
        IsBalanced others r.1
        × Grown p (suc (length obj.alias_list)) (obj.alias_list ++ obj.name ∷ []) h r.1
  unfolding share
  share-Grown others p obj h b c alive room wide =
      let n = length obj.alias_list in
      let same : count_of (h.heap p) ≡ obj.refcount = rw alive refl in
      let held : 0 < count_of (h.heap p) = rw alive (held_live h.heap p obj b.live alive) in
      let (s, run, (b1, g1)) =
        insert_aliases-Grown others obj.alias_list p h b c held (omega (arith, same, room))
          (omega (arith, wide)) in
      let (r, run2, (b2, g2)) =
        insert_dup-Grown others obj.name p s.1 b1 g1.counted (ground (arith, held, g1.more p))
          (ground (arith, same, g1.more p, room)) (omega (arith, g1.size, wide)) in
      (r, rw (deref_alive p h.heap obj alive, run) run2, (b2, Grown-trans g1 g2 (omega arith) refl))
