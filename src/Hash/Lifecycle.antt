-- ===== src/Hash/Lifecycle.antt =====
-- The beginning and the end of a map of src/hash.c: `hash_init`, `hash_free`, `hash_dup`, and the
-- bulk insertion `hash_insert_pairs`.
use mathlib.Core.List.{flatten}
use mathlib.Core.Option
use netcosm.Base.{
  ℕ, ◌≡◌, refl, Option, none, some, List, [], ◌∷◌, ◌++◌, length, if◌then◌else◌, ◌==◌,
  get_or-replicate, arith,
}
use mathlib.Core.List.{append_assoc}
use mathlib.Core.Option.{or_else}
use netcosm.Base.Run.{Returns}
use netcosm.Hash.Chain.{find, IsLawful, find_congr}
use netcosm.Hash.Iterate.{entries, entries-flatten}
use netcosm.Hash.Methods.{contents, insert-Updates, lookup-contents}
use netcosm.Hash.Ops.{dup, dup_insert, dup_datum, emptied, lookup}
use netcosm.Hash.Resize.{IsDistinct, flatten-view, emptied-IsValid, emptied-view}
use netcosm.Hash.Table.{IsValid}
use netcosm.Hash.Types.{
  Keys, Node, Chain, HashMap, Release, release_key, release_data, init, free_chain, free_table,
  free,
}

module _ {ℓ} {K D : Type ℓ} where
  -- What freeing one node calls: its data, then its key, as far as the callbacks are set.
  abbrev pub freed : HashMap K D → List (Node K D) → List (Release K D)
  freed m [] = []
  freed m (e ∷ es) = release_data m e ++ (release_key m e ++ freed m es)

  freed-append :
      (m : HashMap K D) (a b : List (Node K D)) → freed m (a ++ b) ≡ freed m a ++ freed m b
  freed-append m [] b = refl
  freed-append m (e ∷ a) b = simp (freed-append m a b, append_assoc)

  free_chain-freed : (m : HashMap K D) (c : Chain K D) → free_chain m c ≡ freed m c
  unfolding free_chain
  free_chain-freed m [] = refl
  free_chain-freed m (e ∷ c) = rw (free_chain-freed m c)

  free_table-freed : (m : HashMap K D) (t : List (Chain K D)) → free_table m t ≡ freed m (flatten t)
  unfolding free_table flatten
  free_table-freed m [] = refl
  free_table-freed m (c ∷ t) =
      rw (free_chain-freed m c, free_table-freed m t, freed-append m c (flatten t))

  -- `hash_free` releases data and key of every node, in the order of iteration, each once.
  pub free-entries : (m : HashMap K D) → free m ≡ freed m (entries m)
  unfolding free
  free-entries m = rw (entries-flatten, free_table-freed)

module _ {ℓ} {K D : Type ℓ} ⦃keys : Keys K⦄ ⦃law : IsLawful keys⦄ where
  -- A new map, of whatever size is asked for, is valid and empty.
  pub init-IsValid :
      (sz : ℕ)
      → let m : HashMap K D = init sz in
        IsValid m × (m.n_entries ≡ 0) × ((q : K) → lookup q m ≡ none)
  unfolding init lookup find
  init-IsValid sz =
      let n = if sz == 0 then 1 else sz in
      let v = emptied-IsValid n (init sz) (ground arith) in
      (
        record { pos = v.pos; placed = v.placed; counted = v.counted },
        refl,
        λ q. rw get_or-replicate,
      )

  abbrev pub dup_entry : Option (D → D) → Option (Node K D) → Option (Node K D)
  dup_entry f = Option.map (λ e. (e.0, dup_datum f e.1))

  pub dup_insert-contents :
      (f : Option (D → D)) (es : List (Node K D)) (m : HashMap K D)
      → IsValid m
      → IsDistinct es
      → ((q : K) (e : Node K D) → find q es ≡ some e → contents m q ≡ none)
      → Returns (dup_insert f es m) λ r.
        IsValid r × ((q : K) → contents r q ≡ or_else (dup_entry f (find q es)) (contents m q))
  unfolding dup_insert find or_else
  dup_insert-contents f [] m v d apart = (m, refl, (v, λ q. refl))
  dup_insert-contents f (e ∷ es) m v d apart =
      let absent = apart e.0 e (rw law.same_refl) in
      let (r, run, (found, added, _)) = insert-Updates e.0 (dup_datum f e.1) m v in
      let u = added (rw (found, lookup-contents, absent)) in
      let (r', run', (v', reads)) =
        dup_insert-contents f es r.1 u.valid d.1
          (λ q x h. ground (arith, u.reads q, apart q x, find_congr q e.0 es)) in
      (r', rw run run', (v', λ q. ground (arith, reads q, u.reads q, find_congr q e.0 es)))

  -- `hash_dup` does not abort: its copy is valid, and a key finds in it the stored key and a
  -- duplicate of the data that it finds in the original, where it finds anything.
  pub dup-contents :
      (m : HashMap K D)
      → IsValid m
      → Returns
          (dup m)
          λ r. IsValid r × ((q : K) → contents r q ≡ dup_entry m.dup_data (contents m q))
  unfolding dup or_else
  dup-contents m v =
      let (distinct, found) = flatten-view m.table v.placed in
      let m₀ = emptied (length m.table) m in
      let none_yet : (q : K) → contents m₀ q ≡ none = emptied-view (length m.table) m in
      let (r, run, (v', reads)) =
        dup_insert-contents m.dup_data (flatten m.table) m₀ (emptied-IsValid _ m v.pos) distinct
          (λ q e h. none_yet q) in
      (r, rw entries-flatten run, (v', λ q. ground (arith, reads q, found q, none_yet q)))
