-- ===== src/Hash/Methods.antt =====
-- The operations of src/hash.c refine a partial map from keys to nodes: for a lawful comparison none
-- aborts, each keeps the map valid, and each changes what the keys find in the way that it promises.
use mathlib.Core.List.{flatten}
use mathlib.Core.Option.{or_else}
use mathlib.Core.Option
use netcosm.Base.{
  ℕ, ◌*◌, ◌%◌, ◌<◌, ◌≡◌, refl, ◌∙◌, sym, ap, ◌≢◌, Option, none, some, List, [], ◌∷◌, ◌++◌, length,
  set, if◌then◌else◌, length-append, Bool-cases, inl, inr, arith, Option-cases, is_empty, is_some,
}
use netcosm.Base.Run.{Returns}
use netcosm.Base.Words.{u64_mod, inc64, dec64}
use netcosm.Hash.Chain.{
  bucket_congr, find, replace, unlink, IsLawful, IsChain-append, IsChain-replace, IsChain-unlink,
  find-append, find-replace, find-unlink, find_congr, length-replace, length-unlink,
}
use netcosm.Hash.Ops.{
  home, home_chain, is_loaded, grow, insert_new, insert, overwrite, lookup, remove,
}
use netcosm.Hash.Resize.{resize-Resized}
use netcosm.Hash.Table.{IsPlaced, view, IsValid, Wrote, set-Wrote, bucket_of-lt, length-flatten-set}
use netcosm.Hash.Types.{Keys, Node, HashMap, Release, release_key, release_data}

module _ {ℓ} {K D : Type ℓ} ⦃keys : Keys K⦄ ⦃law : IsLawful keys⦄ where
  -- What the keys find in the map.
  abbrev pub contents : HashMap K D → K → Option (Node K D)
  contents m q = view m.table q

  pub home_chain-view : (m : HashMap K D) (k : K) → find k (home_chain m k) ≡ contents m k
  unfolding view
  home_chain-view m k = refl

  -- `lookup` reads the data of the node that the key finds, `getkeyptr` its key.
  pub lookup-contents :
      (k : K) (m : HashMap K D) → lookup k m ≡ Option.map (λ e. e.1) (contents m k)
  unfolding lookup view
  lookup-contents k m = refl

  pub lookup_absent : (k : K) (m : HashMap K D) → contents m k ≡ none → lookup k m ≡ none
  lookup_absent k m h = rw (lookup-contents, h)

  pub lookup_present :
      (k : K) (m : HashMap K D) (e : Node K D) → contents m k ≡ some e → lookup k m ≡ some e.1
  lookup_present k m e h = rw (lookup-contents, h)

  -- `r` holds what `m` does, but for a write of `v` at `k`; `n` counts its entries.
  pub record Updates (m : HashMap K D) (k : K) (v : Option (Node K D)) (n : ℕ) (r : HashMap K D)
      : Type ℓ where
    pub valid : IsValid r
    pub entries : r.n_entries ≡ n
    pub reads : (q : K) → contents r q ≡ (if keys.same q k then v else contents m q)

  grow-Resized :
      (m : HashMap K D)
      → IsValid m
      → Returns
          (grow m)
          λ r. IsValid r × (r.n_entries ≡ m.n_entries) × ((q : K) → contents r q ≡ contents m q)
  unfolding grow
  grow-Resized m v = elim (Bool-cases (is_loaded m)) [
    | inl loaded ↦
        let (r, run, t) = resize-Resized (length m.table * 2) m (omega (arith, v.pos)) v in
        (r.1, rw (loaded, run), (t.1.valid, t.1.entries, t.1.reads))
    | inr light ↦ (m, rw light, (v, refl, λ q. refl))
  ]

  insert_new-Updates :
      (k : K) (d : D) (m : HashMap K D)
      → IsValid m
      → contents m k ≡ none
      → Returns (insert_new k d (home m k) m) (Updates m k (some (k, d)) (inc64 m.n_entries))
  unfolding insert_new view find or_else
  insert_new-Updates k d m v new =
      let c = home_chain m k in
      let w =
        set-Wrote m.table k (some (k, d)) (c ++ (k, d) ∷ []) v.pos v.placed
          (IsChain-append k _ _ d c (v.placed _) refl new)
          (λ q. rw find-append (ground (arith, find_congr q k c))) in
      let counted : inc64 m.n_entries
          ≡ length (flatten (set m.table (home m k) (c ++ (k, d) ∷ []))) % u64_mod =
        omega (
          arith,
          v.counted,
          length-flatten-set m.table (home m k) (c ++ (k, d) ∷ [])
              (bucket_of-lt k (length m.table) v.pos),
          length-append c ((k, d) ∷ []),
        ) in
      let pos : 0 < length (set m.table (home m k) (c ++ (k, d) ∷ [])) = rw w.width v.pos in
      elim (Bool-cases (is_empty c)) [
        | inl first ↦
            let m' = record m {
              table = set m.table (home m k) (c ++ (k, d) ∷ []);
              n_entries = inc64 m.n_entries;
              used_buckets = inc64 m.used_buckets;
            } in
            let (r, run, (valid, entries, same)) =
              grow-Resized m' (record { pos = pos; placed = w.placed; counted = counted }) in
            (
              r,
              rw first run,
              record { valid = valid; entries = entries; reads = λ q. same q ∙ w.reads q },
            )
        | inr later ↦ (
          record m {
            table = set m.table (home m k) (c ++ (k, d) ∷ []);
            n_entries = inc64 m.n_entries;
          },
          rw later,
          record {
            valid = record { pos = pos; placed = w.placed; counted = counted };
            entries = refl;
            reads = w.reads;
          },
        )
      ]

  -- `insert` does not abort. With an equal key present it returns that key's data and leaves the map
  -- alone; else it returns NULL, adds the node and counts it.
  pub insert-Updates :
      (k : K) (d : D) (m : HashMap K D)
      → IsValid m
      → Returns (insert k d m) λ r.
        (r.0 ≡ lookup k m)
        × (r.0 ≡ none → Updates m k (some (k, d)) (inc64 m.n_entries) r.1)
        × (r.0 ≢ none → r.1 ≡ m)
  unfolding insert lookup view
  insert-Updates k d m v = elim (Option-cases (contents m k)) [
    | inr (e, present) ↦ (
      (some e.1, m),
      rw (present, insert),
      (sym (ap (Option.map (λ e. e.1)) present), λ absent. cc, λ _. refl),
    )
    | inl absent ↦
        let (r, run, u) = insert_new-Updates k d m v absent in
        (
          (none, r),
          rw (absent, insert, run),
          (sym (ap (Option.map (λ e. e.1)) absent), λ _. u, λ present. absurd (present refl)),
        )
  ]

  -- What `overwrite` releases: data and key of the node that it replaces.
  abbrev pub replaced : HashMap K D → Option (Node K D) → List (Release K D)
  replaced m none = []
  replaced m (some e) = release_data m e ++ release_key m e

  abbrev pub count_new : HashMap K D → Option (Node K D) → ℕ
  count_new m none = inc64 m.n_entries
  count_new m (some _) = m.n_entries

  -- `overwrite` does not abort, stores key and data whether an equal key was there or not, counts
  -- only a new key, and releases exactly the data and the key that it replaces.
  pub overwrite-Updates :
      (k : K) (d : D) (m : HashMap K D)
      → IsValid m
      → Returns (overwrite k d m) λ r.
        (r.0 ≡ replaced m (contents m k))
        × Updates m k (some (k, d)) (count_new m (contents m k)) r.1
  unfolding overwrite view
  overwrite-Updates k d m v = elim (Option-cases (contents m k)) [
    | inl absent ↦
        let (r, run, u) = insert_new-Updates k d m v absent in
        (([], r), rw (absent, overwrite, run), (rw absent, rw absent u))
    | inr (e, present) ↦
        let c = home_chain m k in
        let w =
          set-Wrote m.table k (some (k, d)) (replace k d c) v.pos v.placed
            (IsChain-replace k _ _ d c e (v.placed _) refl present)
            (λ q. find-replace k q d c e present) in
        (
          (
            release_data m e ++ release_key m e,
            record m { table = set m.table (home m k) (replace k d c) },
          ),
          rw (present, overwrite),
          (
            rw present,
            rw present (record {
              valid = record {
                pos = rw w.width v.pos;
                placed = w.placed;
                counted = omega (
                  arith,
                  v.counted,
                  length-flatten-set m.table (home m k) (replace k d c)
                      (bucket_of-lt k (length m.table) v.pos),
                  length-replace k d c,
                );
              };
              entries = refl;
              reads = w.reads;
            }),
          ),
        )
  ]

  -- What `remove` releases: key and data of the node that it unlinks.
  abbrev pub unlinked : HashMap K D → Option (Node K D) → List (Release K D)
  unlinked m none = []
  unlinked m (some e) = release_key m e ++ release_data m e

  abbrev pub count_less : HashMap K D → Option (Node K D) → ℕ
  count_less m none = m.n_entries
  count_less m (some _) = dec64 m.n_entries

  -- Whatever the counts say, `remove` takes the key out of the table and nothing else.
  pub remove-Wrote :
      (k : K) (m : HashMap K D)
      → 0 < length m.table
      → IsPlaced m.table
      → Wrote m.table k none (remove k m).2.table
  unfolding remove view
  remove-Wrote k m pos placed = elim (Option-cases (contents m k)) [
    | inl absent ↦
        rw (absent, remove)
          (record {
            width = refl;
            placed = placed;
            reads = λ q.
                ground (arith, find_congr q k (home_chain m k), bucket_congr q k (length m.table));
          })
    | inr (e, present) ↦
        let c = home_chain m k in
        rw (present, remove)
          (set-Wrote m.table k none (unlink k c) pos placed (IsChain-unlink k _ _ c (placed _))
            (λ q. find-unlink k q _ _ c (placed _)))
  ]

  -- `remove` tells whether an equal key was there, releases exactly its key and data, counts one
  -- entry less, and afterwards no equal key finds anything; all other keys find what they did.
  pub remove-Updates :
      (k : K) (m : HashMap K D)
      → IsValid m
      → let (found, released, r) = remove k m in
        (found ≡ is_some (contents m k))
        × (released ≡ unlinked m (contents m k))
        × Updates m k none (count_less m (contents m k)) r
  unfolding remove view
  remove-Updates k m v =
      let w = remove-Wrote k m v.pos v.placed in
      elim (Option-cases (contents m k)) [
        | inl absent ↦
            rw (absent, remove)
              (
                refl,
                refl,
                record { valid = v; entries = refl; reads = rw (absent, remove) at w.reads },
              )
        | inr (e, present) ↦
            let c = home_chain m k in
            let shorter =
              length-flatten-set m.table (home m k) (unlink k c)
                (bucket_of-lt k (length m.table) v.pos) in
            let w' : Wrote m.table k none (set m.table (home m k) (unlink k c)) =
              rw (present, remove) at w in
            rw (present, remove)
              (
                refl,
                refl,
                record {
                  valid = record {
                    pos = rw w'.width v.pos;
                    placed = w'.placed;
                    counted = omega (arith, v.counted, shorter, length-unlink k c e present);
                  };
                  entries = refl;
                  reads = w'.reads;
                },
              )
      ]
