-- ===== src/Multimap/Nodes.antt =====
-- Writing through the pointer to the data of a hash node, and deleting a node that was exported: what
-- the keys find afterwards, and the sum over all the nodes.
use mathlib.Core.List.{flatten}
use netcosm.Base.{ℕ, ◌+◌, ◌<◌, ◌≡◌, refl, ◌∙◌, none, some, [], ◌∷◌, length, if◌then◌else◌, arith}
use netcosm.Hash.Chain.{find, IsLawful, IsChain, same_congr_left, same_congr_right}
use netcosm.Hash.Export.{del-get-remove}
use netcosm.Hash.Methods.{contents, remove-Wrote, home_chain-view}
use netcosm.Hash.Ops.{home, home_chain, get_internal_node, del_internal_node}
use netcosm.Hash.Table.{view, IsPlaced, Wrote, set-Wrote, bucket_of-lt, length-flatten-set}
use netcosm.Hash.Types.{Keys, Node, Chain, HashMap}
use netcosm.Hash.Weight.{weigh, weight, weigh-flatten-set, remove-weight}
use netcosm.Multimap.{write_data, write_through}

module _ {ℓ} {K D : Type ℓ} ⦃keys : Keys K⦄ ⦃law : IsLawful keys⦄ where
  find-write_data :
      (k q : K) (d : D) (c : Chain K D) (e : Node K D)
      → find k c ≡ some e
      → find q (write_data k d c) ≡ (if keys.same q k then some (e.0, d) else find q c)
  unfolding find write_data
  find-write_data k q d [] e h = cc
  find-write_data k q d (x ∷ c) e h =
      ground (arith, find-write_data k q d c e, same_congr_left q k x.0, same_congr_right q k x.0)

  IsChain-write_data :
      (k : K) (d : D) (n i : ℕ) (c : Chain K D) (e : Node K D)
      → find k c ≡ some e
      → IsChain n i c
      → IsChain n i (write_data k d c)
  unfolding find write_data
  IsChain-write_data k d n i [] e f h = tt
  IsChain-write_data k d n i (x ∷ c) e f h =
      ground
        (arith, IsChain-write_data k d n i c e, find-write_data k x.0 d c e, law.same_symm x.0 k)

  weigh-write_data :
      (w : Node K D → ℕ) (k : K) (d : D) (c : Chain K D) (e : Node K D)
      → find k c ≡ some e
      → weigh w (write_data k d c) + w e ≡ weigh w c + w (e.0, d)
  unfolding find write_data
  weigh-write_data w k d [] e h = cc
  weigh-write_data w k d (x ∷ c) e h = ground (arith, weigh-write_data w k d c e)

  length-write_data : (k : K) (d : D) (c : Chain K D) → length (write_data k d c) ≡ length c
  unfolding write_data
  length-write_data k d [] = refl
  length-write_data k d (x ∷ c) = ground (arith, length-write_data k d c)

  module _ (k : K) (d : D) (m : HashMap K D) (e : Node K D) (pos : 0 < length m.table)
      (found : contents m k ≡ some e) where
    pub write_through-Wrote :
        IsPlaced m.table → Wrote m.table k (some (e.0, d)) (write_through k d m).table
    unfolding write_through view
    write_through-Wrote placed =
        set-Wrote m.table k (some (e.0, d)) (write_data k d (home_chain m k)) pos placed
          (IsChain-write_data k d _ _ (home_chain m k) e found (placed _))
          (λ q. find-write_data k q d (home_chain m k) e found)

    pub write_through-weight :
        (w : Node K D → ℕ) → weight w (write_through k d m) + w e ≡ weight w m + w (e.0, d)
    unfolding write_through view
    write_through-weight w = omega (
      arith,
      weigh-flatten-set w m.table (home m k) (write_data k d (home_chain m k))
          (bucket_of-lt k (length m.table) pos),
      weigh-write_data w k d (home_chain m k) e found,
    )

    pub write_through-length :
        length (flatten (write_through k d m).table) ≡ length (flatten m.table)
    unfolding write_through
    write_through-length = omega (
      arith,
      length-flatten-set m.table (home m k) (write_data k d (home_chain m k))
          (bucket_of-lt k (length m.table) pos),
      length-write_data k d (home_chain m k),
    )

  -- Deleting the node of a key by its export takes it out of the table, and its weight with it.
  pub del_internal-Wrote :
      (k : K) (m : HashMap K D) (e : Node K D)
      → 0 < length m.table
      → IsPlaced m.table
      → contents m k ≡ some e
      → let r = (del_internal_node (get_internal_node k m) m).1 in
        Wrote m.table k none r.table × ((w : Node K D → ℕ) → weight w r + w e ≡ weight w m)
  del_internal-Wrote k m e pos placed found =
      let same = (del-get-remove k m e found).0 in
      (
        rw same (remove-Wrote k m pos placed),
        λ w. rw same (remove-weight w k m e pos (home_chain-view m k ∙ found)),
      )
