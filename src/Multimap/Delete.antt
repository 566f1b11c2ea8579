-- ===== src/Multimap/Delete.antt =====
-- `multimap_delete` and `multimap_delete_all` of src/multimap.c.
use netcosm.Base.{
  ℕ, ◌+◌, ◌%◌, ◌<◌, ◌≡◌, refl, ◌∙◌, Bool, not, ◌&&◌, none, some, List, [], ◌∷◌, length,
  if◌then◌else◌, inl, inr, Option-cases, Bool-cases, ◌==◌, select, arith,
}
use netcosm.Base.Words.{u64_mod, sub64}
use netcosm.Hash.Chain.{IsLawful}
use netcosm.Hash.Methods.{contents, lookup_absent, lookup_present, remove-Wrote, home_chain-view}
use netcosm.Hash.Table.{view_congr, IsPlaced}
use netcosm.Hash.Types.{Keys, Node, HashMap}
use netcosm.Hash.Weight.{weight, remove-weight}
use netcosm.Multimap.Laws.{pairs, node_weight, IsWell, Puts}
use netcosm.Multimap.Nodes.{write_through-Wrote, write_through-weight, del_internal-Wrote}
use netcosm.Multimap.{
  Pair, MultiNode, Multimap, write_through, drop_node, delete_loop, multimap_delete,
  multimap_delete_all, free_list,
}

module _ {ℓ} {K V : Type ℓ} (m : Multimap K V) (val : V) where
  abbrev pub hit : Pair K V → Bool
  hit p = m.same_val val p.1

  -- The loop splits the list by the comparison, frees the pairs that compare equal, and counts them.
  pub delete_loop-select :
      (ps : List (Pair K V))
      → let (kept, released, deleted) = delete_loop m val ps in
        (kept ≡ select (λ p. not (hit p)) ps)
        × (released ≡ free_list m (select hit ps))
        × (deleted ≡ length (select hit ps))
        × (length kept + deleted ≡ length ps)
  unfolding delete_loop free_list
  delete_loop-select [] = (refl, refl, refl, refl)
  delete_loop-select (p ∷ ps) =
      let (a, b, c, d) = delete_loop-select ps in
      elim (Bool-cases (m.same_val val p.1)) [
        | inl same ↦ rw same (a, rw b, omega (arith, c), omega (arith, d))
        | inr other ↦ rw other (rw a, b, c, omega (arith, d))
      ]

module _ {ℓ} {K V : Type ℓ} ⦃keys : Keys K⦄ ⦃law : IsLawful keys⦄ where
  -- A node whose list is empty goes; the pairs that the keys have, and their number, stay.
  record Drops (k : K) (left : ℕ) (tab r : HashMap K (MultiNode K V)) : Type ℓ where
    pos : 0 < length r.table
    placed : IsPlaced r.table
    reads : (q : K) → contents r q ≡ (if left == 0 && keys.same q k then none else contents tab q)
    weight_kept : weight node_weight r ≡ weight node_weight tab

  drop_node-Drops :
      (k : K) (left : ℕ) (tab : HashMap K (MultiNode K V)) (e : Node K (MultiNode K V))
      → 0 < length tab.table
      → IsPlaced tab.table
      → contents tab k ≡ some e
      → left ≡ length e.1.list
      → Drops k left tab (drop_node k left tab)
  unfolding drop_node
  drop_node-Drops k left tab e pos placed found same = elim (Bool-cases (left == 0)) [
    | inr some_left ↦
        rw some_left
          (record { pos = pos; placed = placed; reads = λ q. rw some_left; weight_kept = refl })
    | inl empty ↦
        let (t, lighter) = del_internal-Wrote k tab e pos placed found in
        rw empty (record {
          pos = rw t.width pos;
          placed = t.placed;
          reads = λ q. rw empty (t.reads q);
          weight_kept = ground (arith, lighter node_weight);
        })
  ]

  -- `delete` takes the pairs of the key that compare equal to the value out of the map, frees exactly
  -- those, returns and discounts their number, and keeps the other pairs in order; a key that is left
  -- without pairs is left without a node.
  pub delete-Puts :
      (k : K) (val : V) (m : Multimap K V)
      → IsWell m
      → length (pairs m k) < u64_mod
      → let (deleted, released, r) = multimap_delete k val m in
        let gone = select (hit m val) (pairs m k) in
        (deleted ≡ length gone)
        × (released ≡ free_list m gone)
        × Puts m k
            (select (λ p. not (hit m val p)) (pairs m k))
            (sub64 m.total_pairs (length gone))
            r
  unfolding multimap_delete free_list
  delete-Puts k val m w small = elim (Option-cases (contents m.hash_tab k)) [
    | inl absent ↦
        rw (absent, lookup_absent k m.hash_tab absent, multimap_delete)
          (
            refl,
            refl,
            record {
              well = w;
              total = omega (arith, w.total);
              reads = λ q. ground (arith, absent, view_congr q k m.hash_tab);
            },
          )
    | inr (e, present) ↦
        let (a, b, c, d) = delete_loop-select m val e.1.list in
        let (kept, released, deleted) = delete_loop m val e.1.list in
        let left = sub64 e.1.n_pairs deleted in
        let n : MultiNode K V = record { list = kept; n_pairs = left } in
        let tab = write_through k n m.hash_tab in
        let t = write_through-Wrote k n m.hash_tab e w.pos present w.placed in
        let (counted, _) = w.nodes k e present in
        let small' : length e.1.list < u64_mod = rw present at small in
        let exact : left ≡ length kept = omega (arith, counted, d, small') in
        let u =
          drop_node-Drops k left tab (e.0, n) (rw t.width w.pos) t.placed
            (rw (t.reads k, law.same_refl)) exact in
        rw (present, lookup_present k m.hash_tab e present, multimap_delete)
          (
            c,
            b,
            record {
              well = record {
                pos = u.pos;
                placed = u.placed;
                nodes =
                    λ q x h. ground (arith, u.reads q, t.reads q, w.nodes q x, exact, small', d);
                total = omega (
                  arith,
                  u.weight_kept,
                  w.total,
                  d,
                  write_through-weight k n m.hash_tab e w.pos present node_weight,
                );
              };
              total = rw c;
              reads = λ q. ground (arith, u.reads q, t.reads q, exact, a);
            },
          )
  ]

  -- `delete_all` takes all pairs of the key out of the map, frees them, and returns their number.
  pub delete_all-Puts :
      (k : K) (m : Multimap K V)
      → IsWell m
      → let (deleted, released, r) = multimap_delete_all k m in
        (deleted ≡ length (pairs m k) % u64_mod)
        × (released ≡ free_list m (pairs m k))
        × Puts m k [] (sub64 m.total_pairs (length (pairs m k))) r
  unfolding multimap_delete_all free_list
  delete_all-Puts k m w = elim (Option-cases (contents m.hash_tab k)) [
    | inl absent ↦
        rw (absent, lookup_absent k m.hash_tab absent, multimap_delete_all)
          (
            refl,
            refl,
            record {
              well = w;
              total = omega (arith, w.total);
              reads = λ q. ground (arith, absent, view_congr q k m.hash_tab);
            },
          )
    | inr (e, present) ↦
        let t = remove-Wrote k m.hash_tab w.pos w.placed in
        let (counted, _) = w.nodes k e present in
        let lighter =
          remove-weight node_weight k m.hash_tab e w.pos (home_chain-view m.hash_tab k ∙ present) in
        rw (present, lookup_present k m.hash_tab e present, multimap_delete_all)
          (
            counted,
            refl,
            record {
              well = record {
                pos = rw t.width w.pos;
                placed = t.placed;
                nodes = λ q x h. ground (arith, t.reads q, w.nodes q x);
                total = omega (arith, w.total, counted, lighter);
              };
              total = omega (arith, counted);
              reads = λ q. ground (arith, t.reads q);
            },
          )
  ]
