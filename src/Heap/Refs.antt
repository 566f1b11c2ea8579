-- ===== src/Heap/Refs.antt =====
-- The pairs of a multimap by the value to which they point: how insertion and deletion change their
-- number (src/multimap.c).
use netcosm.Base.{
  ℕ, ◌+◌, ◌≤◌, ◌<◌, ◌≡◌, refl, ap, Bool, not, Option, none, some, List, [], ◌∷◌, length,
  if◌then◌else◌, select, inl, inr, Option-cases, Bool-cases, ◌==◌, arith,
}
use netcosm.Base.Run.{ok, Run-cases}
use netcosm.Base.Words.{u64_mod, inc64, sub64}
use netcosm.Hash.Chain.{find, IsLawful}
use netcosm.Hash.Methods.{contents, lookup_absent, lookup_present}
use netcosm.Hash.Ops.{home, home_chain, insert, insert_new, lookup}
use netcosm.Hash.Table.{IsPlaced}
use netcosm.Hash.Types.{Keys, Node, HashMap}
use netcosm.Hash.Weight.{weight, insert-weight}
use netcosm.Multimap.Delete.{hit, delete_loop-select}
use netcosm.Multimap.Laws.{pairs, IsWell}
use netcosm.Multimap.Nodes.{write_through-Wrote, write_through-weight, del_internal-Wrote}
use netcosm.Multimap.{
  Pair, MultiNode, Multimap, write_through, drop_node, delete_loop, multimap_insert,
  multimap_delete,
}

module _ {ℓ} {K V : Type ℓ} (f : V → Bool) where
  -- The pairs whose value passes a test.
  abbrev pub tally : List (Pair K V) → ℕ
  tally [] = 0
  tally (p ∷ ps) = (if f p.1 then 1 else 0) + tally ps

  abbrev pub tally_node : Node K (MultiNode K V) → ℕ
  tally_node e = tally e.1.list

  pub tally-select :
      (g : Pair K V → Bool) (ps : List (Pair K V))
      → tally (select g ps) + tally (select (λ p. not (g p)) ps) ≡ tally ps
  tally-select g [] = refl
  tally-select g (p ∷ ps) = elim (Bool-cases (g p)) [
    | inl take_it ↦ rw take_it (omega (arith, tally-select g ps))
    | inr leave ↦ rw leave (omega (arith, tally-select g ps))
  ]

-- A measure of lists of pairs that adds up.
pub record Adds {ℓ} {K V : Type ℓ} (w : List (Pair K V) → ℕ) : Type ℓ where
  pub nil : w [] ≡ 0
  pub cons : (p : Pair K V) (ps : List (Pair K V)) → w (p ∷ ps) ≡ w (p ∷ []) + w ps
  pub split :
      (g : Pair K V → Bool) (ps : List (Pair K V))
      → w (select g ps) + w (select (λ p. not (g p)) ps) ≡ w ps

pub tally-Adds {ℓ} : {K V : Type ℓ} (f : V → Bool) → Adds {K = K} (tally f)
tally-Adds f = record { nil = refl; cons = λ p ps. omega arith; split = tally-select f }

length-select {ℓ} :
    {A : Type ℓ} (g : A → Bool) (ps : List A)
    → length (select g ps) + length (select (λ p. not (g p)) ps) ≡ length ps
length-select g [] = refl
length-select g (p ∷ ps) = elim (Bool-cases (g p)) [
  | inl take_it ↦ rw take_it (omega (arith, length-select g ps))
  | inr leave ↦ rw leave (omega (arith, length-select g ps))
]

pub length-Adds {ℓ} : {K V : Type ℓ} → Adds {K = K} {V = V} length
length-Adds = record { nil = refl; cons = λ p ps. omega arith; split = length-select }

insert-fresh {ℓ} :
    {K D : Type ℓ} ⦃keys : Keys K⦄ (k : K) (d : D) (m : HashMap K D) (r : Option D × HashMap K D)
    → lookup k m ≡ none
    → insert k d m ≡ ok r
    → r.0 ≡ none
unfolding lookup insert
insert-fresh k d m r absent run = elim (Option-cases (find k (home_chain m k))) [
  | inr (e, present) ↦ ground (arith, present, absent)
  | inl new ↦ elim (Run-cases (insert_new k d (home m k) m)) [
    | inl stop ↦ ground (arith, new, stop, run)
    | inr (r', e) ↦ ground (arith, new, e, run)
  ]
]

module _ {ℓ} {K V : Type ℓ} ⦃keys : Keys K⦄ ⦃law : IsLawful keys⦄ (w : List (Pair K V) → ℕ)
    (adds : Adds w) where
  abbrev pub measure : Node K (MultiNode K V) → ℕ
  measure e = w e.1.list

  measure_empty : (ps : List (Pair K V)) → length ps ≡ 0 → w ps ≡ 0
  measure_empty [] h = adds.nil
  measure_empty (p ∷ ps) h = absurd (omega (arith, h))

  drop_node-measure :
      (k : K) (left : ℕ) (tab : HashMap K (MultiNode K V)) (e : Node K (MultiNode K V))
      → 0 < length tab.table
      → IsPlaced tab.table
      → contents tab k ≡ some e
      → left ≡ length e.1.list
      → weight measure (drop_node k left tab) ≡ weight measure tab
  unfolding drop_node
  drop_node-measure k left tab e pos placed found same = elim (Bool-cases (left == 0)) [
    | inr some_left ↦ rw some_left refl
    | inl empty ↦
        let (_, lighter) = del_internal-Wrote k tab e pos placed found in
        let none_left = measure_empty e.1.list (ground (arith, same, empty)) in
        rw empty (omega (arith, lighter measure, none_left))
  ]

  -- An insertion adds the new pair.
  pub insert-measure :
      (k : K) (v : V) (m : Multimap K V) (r : Bool × Multimap K V)
      → IsWell m
      → multimap_insert k v m ≡ ok r
      → weight measure r.1.hash_tab ≡ weight measure m.hash_tab + w ((k, v) ∷ [])
  unfolding multimap_insert
  insert-measure k v m r good run = elim (Option-cases (contents m.hash_tab k)) [
    | inl absent ↦
        let n : MultiNode K V = record { list = (k, v) ∷ []; n_pairs = 1 } in
        let missing = lookup_absent k m.hash_tab absent in
        elim (Run-cases (insert k n m.hash_tab)) [
          | inl stop ↦ ground (arith, run, missing, stop)
          | inr (r', e) ↦
              let fresh = insert-fresh k n m.hash_tab r' missing e in
              let h = insert-weight measure k n m.hash_tab r' good.pos e fresh in
              ground (arith, run, missing, e, h)
        ]
    | inr (e, present) ↦
        let n : MultiNode K V = record { list = (k, v) ∷ e.1.list; n_pairs = inc64 e.1.n_pairs } in
        let h = write_through-weight k n m.hash_tab e good.pos present measure in
        ground (arith, run, lookup_present k m.hash_tab e present, h, adds.cons (k, v) e.1.list)
  ]

  -- A map has the pairs of each of its keys.
  pub pairs-measure :
      (k : K) (m : Multimap K V) → IsWell m → w (pairs m k) ≤ weight measure m.hash_tab
  pairs-measure k m good = elim (Option-cases (contents m.hash_tab k)) [
    | inl absent ↦ rw absent (omega (arith, adds.nil))
    | inr (e, present) ↦
        let (_, lighter) = del_internal-Wrote k m.hash_tab e good.pos good.placed present in
        rw present (omega (arith, lighter measure))
  ]

  -- A deletion takes the deleted pairs.
  pub delete-measure :
      (k : K) (val : V) (m : Multimap K V)
      → IsWell m
      → length (pairs m k) < u64_mod
      → weight measure (multimap_delete k val m).2.hash_tab + w (select (hit m val) (pairs m k))
        ≡ weight measure m.hash_tab
  unfolding multimap_delete
  delete-measure k val m good small = elim (Option-cases (contents m.hash_tab k)) [
    | inl absent ↦
        rw (absent, lookup_absent k m.hash_tab absent, multimap_delete) (omega (arith, adds.nil))
    | inr (e, present) ↦
        let (a, b, c, d) = delete_loop-select m val e.1.list in
        let (kept, released, deleted) = delete_loop m val e.1.list in
        let left = sub64 e.1.n_pairs deleted in
        let n : MultiNode K V = record { list = kept; n_pairs = left } in
        let tab = write_through k n m.hash_tab in
        let t = write_through-Wrote k n m.hash_tab e good.pos present good.placed in
        let h = write_through-weight k n m.hash_tab e good.pos present measure in
        let (counted, _) = good.nodes k e present in
        let small' : length e.1.list < u64_mod = rw present at small in
        let exact : left ≡ length kept = omega (arith, counted, d, small') in
        let split = adds.split (hit m val) e.1.list in
        let kept_same = ap w a in
        let dropped =
          drop_node-measure k left tab (e.0, n) (rw t.width good.pos) t.placed
            (rw (t.reads k, law.same_refl)) exact in
        rw (present, lookup_present k m.hash_tab e present, multimap_delete)
          (omega (arith, dropped, h, kept_same, split))
  ]
