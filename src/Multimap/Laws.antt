-- ===== src/Multimap/Laws.antt =====
-- The operations of src/multimap.c against the lists of pairs that the keys have.
use mathlib.Core.List.{flatten}
use netcosm.Base.{
  ℕ, ◌%◌, ◌<◌, ◌≡◌, refl, ◌∙◌, sym, ap, ◌≢◌, Bool, true, false, Option, none, some, List, [], ◌∷◌,
  length, is_empty, if◌then◌else◌, inl, inr, Option-cases, ◌==◌, arith,
}
use netcosm.Base.Run.{Returns}
use netcosm.Base.Words.{u64_mod, inc64}
use netcosm.Hash.Chain.{IsLawful}
use netcosm.Hash.Methods.{contents, insert-Updates, lookup-contents, lookup_absent, lookup_present}
use netcosm.Hash.Resize.{emptied-IsValid, emptied-view}
use netcosm.Hash.Table.{IsPlaced, IsValid}
use netcosm.Hash.Types.{Keys, Node, HashMap, init, set_free_data}
use netcosm.Hash.Weight.{weigh-replicate, weight, insert-weight}
use netcosm.Multimap.Nodes.{write_through-Wrote, write_through-weight, write_through-length}
use netcosm.Multimap.{
  Pair, MultiNode, Multimap, multimap_init, write_through, multimap_lookup, multimap_insert,
}

module _ {ℓ} {K V : Type ℓ} where
  abbrev pub pairs_of : Option (Node K (MultiNode K V)) → List (Pair K V)
  pairs_of none = []
  pairs_of (some e) = e.1.list

  abbrev pub node_weight : Node K (MultiNode K V) → ℕ
  node_weight e = length e.1.list

module _ {ℓ} {K V : Type ℓ} ⦃keys : Keys K⦄ ⦃law : IsLawful keys⦄ where
  -- The pairs under a key.
  abbrev pub pairs : Multimap K V → K → List (Pair K V)
  pairs m q = pairs_of (contents m.hash_tab q)

  -- The invariant of a multimap: its table is in place, a node has the count of its list and is not
  -- empty, and `total_pairs` counts the pairs of all nodes.
  pub record IsWell (m : Multimap K V) : Type ℓ where
    pub pos : 0 < length m.hash_tab.table
    pub placed : IsPlaced m.hash_tab.table
    pub nodes :
        (q : K) (e : Node K (MultiNode K V))
        → contents m.hash_tab q ≡ some e
        → (e.1.n_pairs ≡ length e.1.list % u64_mod) × (e.1.list ≢ [])
    pub total : m.total_pairs ≡ weight node_weight m.hash_tab % u64_mod

  -- The table's own count is right too.
  abbrev pub IsCounted : Multimap K V → Type 0
  IsCounted m = m.hash_tab.n_entries ≡ length (flatten m.hash_tab.table) % u64_mod

  -- A new multimap is well, with a right count and no pairs.
  pub init-IsWell :
      (tabsz : ℕ) (compare_val : V → V → Bool)
      → let m : Multimap K V = multimap_init tabsz compare_val in
        IsWell m × IsCounted m × ((q : K) → pairs m q ≡ [])
  unfolding multimap_init set_free_data init
  init-IsWell tabsz compare_val =
      let n = if tabsz == 0 then 1 else tabsz in
      let m : HashMap K (MultiNode K V) = init tabsz in
      let v = emptied-IsValid n m (ground arith) in
      (
        record {
          pos = v.pos;
          placed = v.placed;
          nodes = λ q e h. ground (arith, emptied-view n m q);
          total = rw weigh-replicate;
        },
        v.counted,
        λ q. rw (emptied-view n m q),
      )

  -- `lookup` returns the pairs of the key with their number, and NULL where there are none.
  pub lookup-pairs :
      (k : K) (m : Multimap K V)
      → IsWell m
      → multimap_lookup k m
        ≡ (if is_empty (pairs m k) then none else some (pairs m k, length (pairs m k) % u64_mod))
  unfolding multimap_lookup
  lookup-pairs k m w = elim (Option-cases (contents m.hash_tab k)) [
    | inl absent ↦ rw (lookup-contents, absent)
    | inr (e, present) ↦
        let (counted, filled) = w.nodes k e present in
        rw (lookup-contents, present) (ground (arith, counted, filled))
  ]

  -- `r` is `m` with the pairs `ps` under the key `k`, of `n` pairs in all.
  pub record Puts (m : Multimap K V) (k : K) (ps : List (Pair K V)) (n : ℕ) (r : Multimap K V)
      : Type ℓ where
    pub well : IsWell r
    pub total : r.total_pairs ≡ n
    pub reads : (q : K) → pairs r q ≡ (if keys.same q k then ps else pairs m q)

  -- `insert` does not abort. It puts the pair before the others of its key, counts it, and tells
  -- whether it is the key's first.
  pub insert-Puts :
      (k : K) (v : V) (m : Multimap K V)
      → IsWell m
      → IsCounted m
      → Returns (multimap_insert k v m) λ r.
        (r.0 ≡ is_empty (pairs m k))
        × IsCounted r.1
        × Puts m k ((k, v) ∷ pairs m k) (inc64 m.total_pairs) r.1
  unfolding multimap_insert
  insert-Puts k v m w c = elim (Option-cases (contents m.hash_tab k)) [
    | inl absent ↦
        let n : MultiNode K V = record { list = (k, v) ∷ []; n_pairs = 1 } in
        let valid : IsValid m.hash_tab = record { pos = w.pos; placed = w.placed; counted = c } in
        let (r, run, (found, added, _)) = insert-Updates k n m.hash_tab valid in
        let missing = lookup_absent k m.hash_tab absent in
        let fresh : r.0 ≡ none = found ∙ missing in
        let u = added fresh in
        (
          (true, record m { total_pairs = inc64 m.total_pairs; hash_tab = r.1 }),
          rw (missing, multimap_insert, run),
          (
            rw absent,
            u.valid.counted,
            record {
              well = record {
                pos = u.valid.pos;
                placed = u.valid.placed;
                nodes = λ q e h. ground (arith, u.reads q, w.nodes q e);
                total =
                    omega
                      (arith, w.total, insert-weight node_weight k n m.hash_tab r w.pos run fresh);
              };
              total = refl;
              reads = λ q. ground (arith, u.reads q, absent);
            },
          ),
        )
    | inr (e, present) ↦
        let n : MultiNode K V = record { list = (k, v) ∷ e.1.list; n_pairs = inc64 e.1.n_pairs } in
        let tab = write_through k n m.hash_tab in
        let t = write_through-Wrote k n m.hash_tab e w.pos present w.placed in
        let (counted, filled) = w.nodes k e present in
        (
          (false, record m { total_pairs = inc64 m.total_pairs; hash_tab = tab }),
          rw (lookup_present k m.hash_tab e present, multimap_insert),
          (
            rw present (ground (arith, filled)),
            c ∙ ap (λ x. x % u64_mod) (sym (write_through-length k n m.hash_tab e w.pos present)),
            record {
              well = record {
                pos = rw t.width w.pos;
                placed = t.placed;
                nodes = λ q x h. ground (arith, t.reads q, w.nodes q x, counted);
                total = omega (
                  arith,
                  w.total,
                  write_through-weight k n m.hash_tab e w.pos present node_weight,
                );
              };
              total = refl;
              reads = λ q. ground (arith, t.reads q, present);
            },
          ),
        )
  ]
