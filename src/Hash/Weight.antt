-- ===== src/Hash/Weight.antt =====
-- Sums over all the nodes of a table of src/hash.c: no operation loses a node or makes one up, also
-- when it changes the table's width.
use mathlib.Core.List.{flatten}
use netcosm.Base.{
  ℕ, zero, suc, ◌+◌, ◌*◌, ◌<◌, ◌≡◌, refl, ◌∙◌, Bool, Option, none, some, List, [], ◌∷◌, ◌++◌,
  length, get_or, set, replicate, inl, inr, Option-cases, length-set, length-replicate, arith,
}
use netcosm.Base.Run.{ok, Run-cases}
use netcosm.Base.Words.{inc64}
use netcosm.Hash.Chain.{find, unlink}
use netcosm.Hash.Ops.{
  home, home_chain, emptied, rehash_node, rehash_chain, rehash_table, resize, grow, insert_new,
  insert, remove,
}
use netcosm.Hash.Table.{bucket_of-lt}
use netcosm.Hash.Types.{Keys, Node, Chain, HashMap}

module _ {ℓ} {A : Type ℓ} (w : A → ℕ) where
  abbrev pub weigh : List A → ℕ
  weigh [] = 0
  weigh (e ∷ es) = w e + weigh es

  pub weigh-append : (a b : List A) → weigh (a ++ b) ≡ weigh a + weigh b
  weigh-append [] b = omega arith
  weigh-append (e ∷ a) b = omega (arith, weigh-append a b)

  pub weigh-flatten-set :
      (t : List (List A)) (i : ℕ) (c : List A)
      → i < length t
      → weigh (flatten (set t i c)) + weigh (get_or t i []) ≡ weigh (flatten t) + weigh c
  unfolding flatten
  weigh-flatten-set [] i c h = absurd (omega arith)
  weigh-flatten-set (x ∷ t) zero c h = simp weigh-append (omega arith)
  weigh-flatten-set (x ∷ t) (suc i) c h =
      simp weigh-append (omega (arith, weigh-flatten-set t i c (omega arith)))

  pub weigh-replicate : (n : ℕ) → weigh (flatten (replicate n [])) ≡ 0
  unfolding flatten
  weigh-replicate zero = refl
  weigh-replicate (suc n) = weigh-replicate n

module _ {ℓ} {K D : Type ℓ} ⦃keys : Keys K⦄ (w : Node K D → ℕ) where
  abbrev pub weight : HashMap K D → ℕ
  weight m = weigh w (flatten m.table)

  rehash_node-weight :
      (e : Node K D) (m : HashMap K D)
      → 0 < length m.table
      → (length (rehash_node e m).table ≡ length m.table)
        × (weight (rehash_node e m) ≡ weight m + w e)
  unfolding rehash_node
  rehash_node-weight e m pos = (
    length-set m.table _ _,
    omega (
      arith,
      weigh-flatten-set w m.table (home m e.0) (e ∷ home_chain m e.0)
          (bucket_of-lt e.0 (length m.table) pos),
    ),
  )

  rehash_chain-weight :
      (es : Chain K D) (m : HashMap K D)
      → 0 < length m.table
      → (length (rehash_chain es m).table ≡ length m.table)
        × (weight (rehash_chain es m) ≡ weight m + weigh w es)
  unfolding rehash_chain
  rehash_chain-weight [] m pos = (refl, omega arith)
  rehash_chain-weight (e ∷ es) m pos =
      let (n, s) = rehash_node-weight e m pos in
      let (n', s') = rehash_chain-weight es (rehash_node e m) (rw n pos) in
      (n' ∙ n, omega (arith, s, s'))

  rehash_table-weight :
      (cs : List (Chain K D)) (m : HashMap K D)
      → 0 < length m.table
      → weight (rehash_table cs m) ≡ weight m + weigh w (flatten cs)
  unfolding rehash_table flatten
  rehash_table-weight [] m pos = omega arith
  rehash_table-weight (c ∷ cs) m pos =
      let (n, s) = rehash_chain-weight c m pos in
      omega (
        arith,
        s,
        rehash_table-weight cs (rehash_chain c m) (rw n pos),
        weigh-append w c (flatten cs),
      )

  pub resize-weight :
      (new_sz : ℕ) (m : HashMap K D) (r : Bool × HashMap K D)
      → 0 < new_sz
      → resize new_sz m ≡ ok r
      → weight r.1 ≡ weight m
  unfolding resize
  resize-weight new_sz m r pos run =
      let s = rehash_table-weight m.table (emptied new_sz m) (rw length-replicate pos) in
      ground (arith, s, weigh-replicate w new_sz)

  grow-weight : (m r : HashMap K D) → 0 < length m.table → grow m ≡ ok r → weight r ≡ weight m
  unfolding grow
  grow-weight m r pos run = elim (Run-cases (resize (length m.table * 2) m)) [
    | inl stop ↦ ground (arith, stop)
    | inr (r', e) ↦ ground (arith, e, resize-weight (length m.table * 2) m r')
  ]

  insert_new-weight :
      (k : K) (d : D) (m r : HashMap K D)
      → 0 < length m.table
      → insert_new k d (home m k) m ≡ ok r
      → weight r ≡ weight m + w (k, d)
  unfolding insert_new
  insert_new-weight k d m r pos run =
      let c = home_chain m k in
      let t = set m.table (home m k) (c ++ (k, d) ∷ []) in
      let added : weigh w (flatten t) ≡ weight m + w (k, d) = omega (
        arith,
        weigh-flatten-set w m.table (home m k) (c ++ (k, d) ∷ [])
            (bucket_of-lt k (length m.table) pos),
        weigh-append w c ((k, d) ∷ []),
      ) in
      let m' = record m {
        table = t;
        n_entries = inc64 m.n_entries;
        used_buckets = inc64 m.used_buckets;
      } in
      ground (arith, added, grow-weight m' r (rw length-set pos))

  pub weigh-unlink :
      (k : K) (c : Chain K D) (e : Node K D)
      → find k c ≡ some e
      → weigh w (unlink k c) + w e ≡ weigh w c
  unfolding find unlink
  weigh-unlink k [] e h = cc
  weigh-unlink k (x ∷ c) e h = ground (arith, weigh-unlink k c e)

  -- An insertion adds the new node.
  pub insert-weight :
      (k : K) (d : D) (m : HashMap K D) (r : Option D × HashMap K D)
      → 0 < length m.table
      → insert k d m ≡ ok r
      → r.0 ≡ none
      → weight r.1 ≡ weight m + w (k, d)
  unfolding insert
  insert-weight k d m r pos run absent = elim (Option-cases (find k (home_chain m k))) [
    | inr (e, present) ↦ ground (arith, present)
    | inl new ↦ elim (Run-cases (insert_new k d (home m k) m)) [
      | inl stop ↦ ground (arith, new, stop)
      | inr (r', e) ↦ ground (arith, new, e, insert_new-weight k d m r' pos e)
    ]
  ]

  -- A removal takes the node that is found.
  pub remove-weight :
      (k : K) (m : HashMap K D) (e : Node K D)
      → 0 < length m.table
      → find k (home_chain m k) ≡ some e
      → weight (remove k m).2 + w e ≡ weight m
  unfolding remove
  remove-weight k m e pos found =
      rw (found, remove)
        (omega (
          arith,
          weigh-flatten-set w m.table (home m k) (unlink k (home_chain m k))
              (bucket_of-lt k (length m.table) pos),
          weigh-unlink k (home_chain m k) e found,
        ))
