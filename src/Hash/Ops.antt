-- ===== src/Hash/Ops.antt =====
-- The operations of src/hash.c that change a table, and the lookups.
use mathlib.Core.List.{flatten}
use mathlib.Core.Option
use netcosm.Base.{
  ℕ, ◌+◌, ◌*◌, ◌/◌, ◌%◌, ◌^◌, Bool, true, false, not, ◌&&◌, Option, none, some, List, [], ◌∷◌, ◌++◌,
  length, is_empty, get_or, set, replicate, leb, ◌==◌, if◌then◌else◌,
}
use netcosm.Base.Run.{Run, ok, abort, assert, ◌>>=◌, ◌>>◌}
use netcosm.Base.Words.{u64_mod, inc64, dec64}
use netcosm.Hash.Chain.{bucket_of, find, replace, unlink, at_head}
use netcosm.Hash.Iterate.{entries}
use netcosm.Hash.Types.{Keys, Node, Chain, HashMap, Release, release_key, release_data}

-- RESIZE_THRESHOLD: three quarters, in units of 2 ^ -16
abbrev pub resize_threshold : ℕ
resize_threshold = 2 ^ 15 + 2 ^ 14

-- struct hash_export_node: the bucket, the nodes before the one found, that node, those after it
pub record ExportNode {ℓ} (K D : Type ℓ) : Type ℓ where
  pub hash : ℕ
  pub before : Chain K D
  pub node : Option (Node K D)
  pub next : Chain K D

-- `if(map->dup_data) data = map->dup_data(data)`
abbrev pub dup_datum {ℓ} : {D : Type ℓ} → Option (D → D) → D → D
dup_datum none d = d
dup_datum (some f) d = f d

module _ {ℓ} {K D : Type ℓ} ⦃keys : Keys K⦄ where
  abbrev pub home : HashMap K D → K → ℕ
  home m k = bucket_of k (length m.table)

  abbrev pub home_chain : HashMap K D → K → Chain K D
  home_chain m k = get_or m.table (home m k) []

  -- One round of the inner loop of `hash_resize`: the node becomes the first of its new chain.
  unfoldable pub rehash_node : Node K D → HashMap K D → HashMap K D
  rehash_node e m =
      let c = home_chain m e.0 in
      record m {
        table = set m.table (home m e.0) (e ∷ c);
        n_entries = inc64 m.n_entries;
        used_buckets = if is_empty c then inc64 m.used_buckets else m.used_buckets;
      }

  unfoldable pub rehash_chain : Chain K D → HashMap K D → HashMap K D
  unfolding rehash_node
  rehash_chain [] m = m
  rehash_chain (e ∷ c) m = rehash_chain c (rehash_node e m)

  unfoldable pub rehash_table : List (Chain K D) → HashMap K D → HashMap K D
  unfolding rehash_chain
  rehash_table [] m = m
  rehash_table (c ∷ cs) m = rehash_table cs (rehash_chain c m)

  -- The fresh table of `hash_resize`.
  abbrev pub emptied : ℕ → HashMap K D → HashMap K D
  emptied new_sz m = record m { table = replicate new_sz []; n_entries = 0; used_buckets = 0 }

  -- A size of zero makes the first node's `%` trap. The `assert` compares the two counts.
  unfoldable pub resize : ℕ → HashMap K D → Run (Bool × HashMap K D)
  unfolding rehash_table
  resize new_sz m =
      if new_sz == length m.table
      then ok (false, m)
      else let r = rehash_table m.table (emptied new_sz m) in
        if new_sz == 0 && not (is_empty (flatten m.table))
        then abort
        else (assert (m.n_entries == r.n_entries) >> ok (true, r))

  -- `(map->used_buckets << 16) / map->table_sz >= RESIZE_THRESHOLD`
  unfoldable pub is_loaded : HashMap K D → Bool
  is_loaded m = leb resize_threshold (m.used_buckets * 2 ^ 16 % u64_mod / length m.table)

  unfoldable pub grow : HashMap K D → Run (HashMap K D)
  unfolding is_loaded resize
  grow m = if is_loaded m then (resize (length m.table * 2) m >>= λ r. ok r.1) else ok m

  -- hash_internal_insert_new, at the end of the chain `h`; `last` is NULL where that is empty
  unfoldable pub insert_new : K → D → ℕ → HashMap K D → Run (HashMap K D)
  unfolding grow
  insert_new k d h m =
      let c = get_or m.table h [] in
      let m' = record m {
        table = set m.table h (c ++ (k, d) ∷ []);
        n_entries = inc64 m.n_entries;
      } in
      if is_empty c then grow (record m' { used_buckets = inc64 m.used_buckets }) else ok m'

  -- Returns the data that an equal key had, and `none` after an insertion.
  unfoldable pub insert : K → D → HashMap K D → Run (Option D × HashMap K D)
  unfolding find insert_new
  insert k d m = elim (find k (home_chain m k)) [
    | some e ↦ ok (some e.1, m)
    | none ↦ insert_new k d (home m k) m >>= λ m'. ok (none, m')
  ]

  unfoldable pub overwrite : K → D → HashMap K D → Run (List (Release K D) × HashMap K D)
  unfolding find replace insert_new release_key release_data
  overwrite k d m = elim (find k (home_chain m k)) [
    | some e ↦ ok (
      release_data m e ++ release_key m e,
      record m { table = set m.table (home m k) (replace k d (home_chain m k)) },
    )
    | none ↦ insert_new k d (home m k) m >>= λ m'. ok ([], m')
  ]

  unfoldable pub lookup : K → HashMap K D → Option D
  unfolding find
  lookup k m = Option.map (λ e. e.1) (find k (home_chain m k))

  -- The key by which the entry was stored.
  unfoldable pub getkeyptr : K → HashMap K D → Option K
  unfolding find
  getkeyptr k m = Option.map (λ e. e.0) (find k (home_chain m k))

  unfoldable pub remove : K → HashMap K D → Bool × List (Release K D) × HashMap K D
  unfolding find unlink at_head release_key release_data
  remove k m = elim (find k (home_chain m k)) [
    | none ↦ (false, [], m)
    | some e ↦ (
      true,
      release_key m e ++ release_data m e,
      record m {
        table = set m.table (home m k) (unlink k (home_chain m k));
        used_buckets = if at_head k (home_chain m k) then dec64 m.used_buckets else m.used_buckets;
        n_entries = dec64 m.n_entries;
      },
    )
  ]

  -- The walk of `hash_get_internal_node`, with the nodes that it has passed.
  unfoldable pub export_walk : K → ℕ → Chain K D → Chain K D → ExportNode K D
  export_walk k h passed [] = record { hash = 0; before = []; node = none; next = [] }
  export_walk k h passed (e ∷ c) =
      if keys.same k e.0
      then record { hash = h; before = passed; node = some e; next = c }
      else export_walk k h (passed ++ e ∷ []) c

  unfoldable pub get_internal_node : K → HashMap K D → ExportNode K D
  unfolding export_walk
  get_internal_node k m = export_walk k (home m k) [] (home_chain m k)

  -- `n_entries` keeps its value here.
  unfoldable pub del_internal_node : ExportNode K D → HashMap K D → List (Release K D) × HashMap K D
  unfolding release_key release_data
  del_internal_node x m = elim x.node [
    | none ↦ ([], m)
    | some e ↦ (
      release_data m e ++ release_key m e,
      record m {
        table = set m.table x.hash (x.before ++ x.next);
        used_buckets = if is_empty x.before then dec64 m.used_buckets else m.used_buckets;
      },
    )
  ]

  -- hash_insert_pairs, on the pairs of key and value that the array holds
  unfoldable pub insert_pairs : List (Node K D) → HashMap K D → Run (HashMap K D)
  unfolding insert
  insert_pairs [] m = ok m
  insert_pairs (e ∷ es) m = insert e.0 e.1 m >>= λ r. insert_pairs es r.1

  -- The loop of `hash_dup` over what the iterator returns.
  unfoldable pub dup_insert : Option (D → D) → List (Node K D) → HashMap K D → Run (HashMap K D)
  unfolding insert
  dup_insert f [] m = ok m
  dup_insert f (e ∷ es) m = insert e.0 (dup_datum f e.1) m >>= λ r. dup_insert f es r.1

  unfoldable pub dup : HashMap K D → Run (HashMap K D)
  unfolding dup_insert entries
  dup m = dup_insert m.dup_data (entries m) (emptied (length m.table) m)
