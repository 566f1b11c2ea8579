-- ===== src/Multimap.antt =====
-- src/multimap.c: a hash table of lists of pairs. What the code changes through the pointer that
-- `hash_lookup` returns is written back to the node that the key finds. The back pointer `map` of a
-- node only serves the callbacks, which stand in the record of the map here.
pub mod Nodes
pub mod Laws
pub mod Delete
use mathlib.Core.Option
use netcosm.Base.{
  map, ℕ, ◌+◌, ◌-◌, ◌%◌, ◌≡◌, Bool, true, false, Option, none, some, List, [], ◌∷◌, ◌++◌, set, ◌==◌,
  if◌then◌else◌,
}
use netcosm.Base.Run.{Run, ok, ◌>>=◌}
use netcosm.Base.Words.{u32_mod, inc64, sub64}
use netcosm.Hash.Iterate.{entries}
use netcosm.Hash.Ops.{
  home, home_chain, insert, lookup, remove, get_internal_node, del_internal_node,
}
use netcosm.Hash.Types.{Keys, Node, Chain, HashMap, Release, key, datum, init, set_free_data}

-- struct multimap_list, without `next`: a pair has its own key pointer
abbrev pub Pair {ℓ} : Type ℓ → Type ℓ → Type ℓ
Pair K V = K × V

-- struct multimap_node
pub record MultiNode {ℓ} (K V : Type ℓ) : Type ℓ where
  pub list : List (Pair K V)
  pub n_pairs : ℕ

-- struct multimap_t. `same_val a b` is `compare_val(a, b) == 0`; the callbacks are recorded as set.
pub record Multimap {ℓ} (K V : Type ℓ) : Type ℓ where
  pub total_pairs : ℕ
  pub refcount : ℕ
  pub hash_tab : HashMap K (MultiNode K V)
  pub same_val : V → V → Bool
  pub free_data : Bool
  pub free_key : Bool

module _ {ℓ} {K V : Type ℓ} where
  -- The calls of the free callbacks for one pair, and `free_node` for the pairs of a node.
  unfoldable pub free_pair : Multimap K V → Pair K V → List (Release K V)
  free_pair m p =
      (if m.free_data then datum p.1 ∷ [] else []) ++ (if m.free_key then key p.0 ∷ [] else [])

  unfoldable pub free_list : Multimap K V → List (Pair K V) → List (Release K V)
  unfolding free_pair
  free_list m [] = []
  free_list m (p ∷ ps) = free_pair m p ++ free_list m ps

  free_nodes : Multimap K V → List (Node K (MultiNode K V)) → List (Release K V)
  unfolding free_list
  free_nodes m [] = []
  free_nodes m (e ∷ es) = free_list m e.1.list ++ free_nodes m es

  unfoldable pub multimap_init : ℕ → (V → V → Bool) → Multimap K V
  multimap_init tabsz compare_val = record {
    total_pairs = 0;
    refcount = 1;
    hash_tab = set_free_data true (init tabsz);
    same_val = compare_val;
    free_data = false;
    free_key = false;
  }

  unfoldable pub set_free_data_cb : Bool → Multimap K V → Multimap K V
  set_free_data_cb cb m = record m { free_data = cb }

  unfoldable pub multimap_size : Multimap K V → ℕ
  multimap_size m = m.total_pairs

  -- Another reference to the same map.
  unfoldable pub multimap_dup : Multimap K V → Multimap K V
  multimap_dup m = record m { refcount = (m.refcount + 1) % u32_mod }

  -- The last reference frees the table; `none` is the freed map.
  unfoldable pub multimap_free : Multimap K V → List (Release K V) × Option (Multimap K V)
  unfolding free_nodes
  multimap_free m =
      let left = (m.refcount + (u32_mod - 1)) % u32_mod in
      if left == 0
      then (free_nodes m (entries m.hash_tab), none)
      else ([], some (record m { refcount = left }))

  -- The pairs that the loop of `multimap_delete` keeps, those that it frees, and how many.
  unfoldable pub delete_loop :
      Multimap K V → V → List (Pair K V) → List (Pair K V) × List (Release K V) × ℕ
  unfolding free_pair
  delete_loop m val [] = ([], [], 0)
  delete_loop m val (p ∷ ps) =
      let (kept, released, deleted) = delete_loop m val ps in
      if m.same_val val p.1
      then (kept, free_pair m p ++ released, deleted + 1)
      else (p ∷ kept, released, deleted)

module _ {ℓ} {K D : Type ℓ} ⦃keys : Keys K⦄ where
  -- Writes the data of the first node with an equal key.
  unfoldable pub write_data : K → D → Chain K D → Chain K D
  write_data k d [] = []
  write_data k d (e ∷ c) = if keys.same k e.0 then (e.0, d) ∷ c else e ∷ write_data k d c

  unfoldable pub write_through : K → D → HashMap K D → HashMap K D
  unfolding write_data
  write_through k d m = record m {
    table = set m.table (home m k) (write_data k d (home_chain m k));
  }

module _ {ℓ} {K V : Type ℓ} ⦃keys : Keys K⦄ where
  -- The list and its length; a key without pairs has no node.
  unfoldable pub multimap_lookup : K → Multimap K V → Option (List (Pair K V) × ℕ)
  multimap_lookup k m = Option.map (λ n. (n.list, n.n_pairs)) (lookup k m.hash_tab)

  unfoldable pub multimap_insert : K → V → Multimap K V → Run (Bool × Multimap K V)
  unfolding write_through
  multimap_insert k v m = elim (lookup k m.hash_tab) [
    | none ↦ insert k (record { list = (k, v) ∷ []; n_pairs = 1 }) m.hash_tab >>= λ r.
        ok (true, record m { total_pairs = inc64 m.total_pairs; hash_tab = r.1 })
    | some n ↦ ok (
      false,
      record m {
        total_pairs = inc64 m.total_pairs;
        hash_tab =
            write_through k (record { list = (k, v) ∷ n.list; n_pairs = inc64 n.n_pairs })
              m.hash_tab;
      },
    )
  ]

  -- `if(!node->n_pairs) hash_del_internal_node(…)`
  unfoldable pub drop_node : K → ℕ → HashMap K (MultiNode K V) → HashMap K (MultiNode K V)
  drop_node k left tab =
      if left == 0 then (del_internal_node (get_internal_node k tab) tab).1 else tab

  -- `n_pairs` and `total_pairs` count down once for each pair deleted.
  unfoldable pub multimap_delete : K → V → Multimap K V → ℕ × List (Release K V) × Multimap K V
  multimap_delete k val m = elim (lookup k m.hash_tab) [
    | none ↦ (0, [], m)
    | some n ↦
        let (kept, released, deleted) = delete_loop m val n.list in
        let left = sub64 n.n_pairs deleted in
        let tab = write_through k (record { list = kept; n_pairs = left }) m.hash_tab in
        (
          deleted,
          released,
          record m { total_pairs = sub64 m.total_pairs deleted; hash_tab = drop_node k left tab },
        )
  ]

  unfoldable pub multimap_delete_all : K → Multimap K V → ℕ × List (Release K V) × Multimap K V
  multimap_delete_all k m = elim (lookup k m.hash_tab) [
    | none ↦ (0, [], m)
    | some n ↦ (
      n.n_pairs,
      free_list m n.list,
      record m { total_pairs = sub64 m.total_pairs n.n_pairs; hash_tab = (remove k m.hash_tab).2 },
    )
  ]

  -- The lists that the iteration returns, one for each key.
  unfoldable pub multimap_iterate_all : Multimap K V → List (List (Pair K V) × ℕ)
  multimap_iterate_all m = map (λ e. (e.1.list, e.1.n_pairs)) (entries m.hash_tab)
