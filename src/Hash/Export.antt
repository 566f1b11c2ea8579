-- ===== src/Hash/Export.antt =====
-- `hash_get_internal_node` and `hash_del_internal_node` of src/hash.c: deletion by a node that was
-- looked up before. It unlinks what `hash_remove` unlinks, and leaves `n_entries` as it was.
use mathlib.Core.List.{append_assoc}
use netcosm.Base.{
  ℕ, ◌<◌, ◌≡◌, refl, false, ◌&&◌, some, List, Bool-cases, inl, inr, [], ◌∷◌, ◌++◌, length, is_empty,
  ◌==◌, length-set, arith,
}
use netcosm.Base.Run.{abort}
use netcosm.Base.Words.{dec64}
use netcosm.Hash.Chain.{find, unlink, at_head, IsLawful}
use netcosm.Hash.Methods.{contents, remove-Updates}
use netcosm.Hash.Ops.{
  home, home_chain, ExportNode, export_walk, get_internal_node, del_internal_node, remove, resize,
}
use netcosm.Hash.Resize.{resize_miscounted}
use netcosm.Hash.Table.{view, IsValid}
use netcosm.Hash.Types.{Keys, Node, Chain, HashMap, release_key, release_data}

is_empty-append {ℓ} : {A : Type ℓ} (xs : List A) (x : A) → is_empty (xs ++ x ∷ []) ≡ false
is_empty-append [] x = refl
is_empty-append (y ∷ xs) x = refl

module _ {ℓ} {K D : Type ℓ} ⦃keys : Keys K⦄ where
  -- What the walk returns for a key that is there.
  record Found (k : K) (h : ℕ) (passed c : Chain K D) (e : Node K D) (x : ExportNode K D)
      : Type ℓ where
    node : x.node ≡ some e
    bucket : x.hash ≡ h
    around : x.before ++ x.next ≡ passed ++ unlink k c
    first : is_empty x.before ≡ is_empty passed && at_head k c

  export_walk-Found :
      (k : K) (h : ℕ) (passed c : Chain K D) (e : Node K D)
      → find k c ≡ some e
      → Found k h passed c e (export_walk k h passed c)
  unfolding export_walk find unlink at_head
  export_walk-Found k h passed [] e f = cc
  export_walk-Found k h passed (x ∷ c) e f = elim (Bool-cases (keys.same k x.0)) [
    | inl same ↦ record {
      node = ground (arith, same);
      bucket = rw same;
      around = rw same;
      first = ground (arith, same);
    }
    | inr other ↦
        let ih = export_walk-Found k h (passed ++ x ∷ []) c e (rw other at f) in
        record {
          node = rw other ih.node;
          bucket = rw other ih.bucket;
          around = rw other (rw (ih.around, append_assoc));
          first = rw other (rw (ih.first, is_empty-append) (ground (arith, other)));
        }
  ]

module _ {ℓ} {K D : Type ℓ} ⦃keys : Keys K⦄ ⦃law : IsLawful keys⦄ (k : K) (m : HashMap K D)
    (e : Node K D) (present : contents m k ≡ some e) where
  -- Deleting the node that was looked up changes the table and `used_buckets` as `remove` does, and
  -- releases the data, then the key; `n_entries` keeps its value, where `remove` counts one less.
  pub del-get-remove :
      let (released, r) = del_internal_node (get_internal_node k m) m in
      let r' = (remove k m).2 in
      (r.table ≡ r'.table)
      × (r.used_buckets ≡ r'.used_buckets)
      × (released ≡ release_data m e ++ release_key m e)
      × (r.n_entries ≡ m.n_entries)
      × (r'.n_entries ≡ dec64 m.n_entries)
  unfolding get_internal_node del_internal_node remove view
  del-get-remove =
      let x = export_walk-Found k (home m k) [] (home_chain m k) e present in
      rw (present, remove)
        (rw (x.node, del_internal_node)
          (rw (x.bucket, x.around, x.first) (refl, refl, refl, refl, refl)))

  width-remove : length (remove k m).2.table ≡ length m.table
  unfolding remove view
  width-remove = rw (present, remove) (length-set m.table (home m k) (unlink k (home_chain m k)))

  -- A resize to another positive width right after the deletion from a valid map aborts the process:
  -- its assertion compares `n_entries` with the nodes that it moved.
  pub resize-del :
      (new_sz : ℕ)
      → IsValid m
      → 0 < new_sz
      → (new_sz == length m.table) ≡ false
      → resize new_sz (del_internal_node (get_internal_node k m) m).1 ≡ abort
  resize-del new_sz v pos differ =
      let (_, _, u) = remove-Updates k m v in
      let (table, _, _, kept, less) = del-get-remove in
      resize_miscounted new_sz _ pos (rw (table, width-remove) differ) (rw table u.valid.pos)
        (rw table u.valid.placed)
        (rw (table, kept) (omega (arith, u.valid.counted, less, v.counted)))
