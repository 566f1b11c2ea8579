-- ===== src/Hash/Table.antt =====
-- What the table of src/hash.c means: where its nodes stand, which node a key finds, and a write to
-- the chain of one key.
use mathlib.Core.List.{flatten}
use netcosm.Base.{
  true, ℕ, zero, suc, ◌+◌, ◌%◌, ◌<◌, ◌≡◌, Option, List, [], ◌∷◌, length, get_or, set, if◌then◌else◌,
  length-append, length-set, get_or-set, arith,
}
use netcosm.Base.Words.{u64_mod}
use netcosm.Hash.Chain.{bucket_of, find, IsLawful, IsChain, bucket_congr, find_congr}
use netcosm.Hash.Types.{Keys, Node, Chain, HashMap}

module _ {ℓ} {A : Type ℓ} where
  -- One chain of a table changes the count of all nodes by the change of its length.
  pub length-flatten-set :
      (t : List (List A)) (i : ℕ) (c : List A)
      → i < length t
      → length (flatten (set t i c)) + length (get_or t i []) ≡ length (flatten t) + length c
  unfolding flatten
  length-flatten-set [] i c h = absurd (omega arith)
  length-flatten-set (x ∷ t) zero c h = simp length-append (omega arith)
  length-flatten-set (x ∷ t) (suc i) c h =
      simp length-append (omega (arith, length-flatten-set t i c (omega arith)))

module _ {ℓ} {K : Type ℓ} ⦃keys : Keys K⦄ where
  pub bucket_of-lt : (k : K) (n : ℕ) → 0 < n → bucket_of k n < n
  unfolding bucket_of
  bucket_of-lt k n h = omega arith

module _ {ℓ} {K D : Type ℓ} ⦃keys : Keys K⦄ ⦃law : IsLawful keys⦄ where
  -- Every chain is that of its bucket.
  abbrev pub IsPlaced : List (Chain K D) → Type ℓ
  IsPlaced t = (i : ℕ) → IsChain (length t) i (get_or t i [])

  -- The node that a key finds.
  unfoldable pub view : List (Chain K D) → K → Option (Node K D)
  view t q = find q (get_or t (bucket_of q (length t)) [])

  -- Equal keys find the same node.
  pub view_congr :
      (a b : K) (m : HashMap K D) → keys.same a b ≡ true → view m.table a ≡ view m.table b
  unfolding view
  view_congr a b m h = rw (
    bucket_congr a b (length m.table) h,
    find_congr a b (get_or m.table (bucket_of b (length m.table)) []) h,
  )

  -- The invariant of a map: it has a bucket, its nodes are in place with no key twice, and
  -- `n_entries` counts them in 64 bits.
  pub record IsValid (m : HashMap K D) : Type ℓ where
    pub pos : 0 < length m.table
    pub placed : IsPlaced m.table
    pub counted : m.n_entries ≡ length (flatten m.table) % u64_mod

  -- `t'` is `t` after a write of `v` at the key `k`.
  pub record Wrote (t : List (Chain K D)) (k : K) (v : Option (Node K D)) (t' : List (Chain K D))
      : Type ℓ where
    pub width : length t' ≡ length t
    pub placed : IsPlaced t'
    pub reads : (q : K) → view t' q ≡ (if keys.same q k then v else view t q)

  pub set-Wrote :
      (t : List (Chain K D)) (k : K) (v : Option (Node K D)) (c : Chain K D)
      → 0 < length t
      → IsPlaced t
      → IsChain (length t) (bucket_of k (length t)) c
      → ((q : K)
          → find q c ≡ (if keys.same q k then v else find q (get_or t (bucket_of k (length t)) [])))
      → Wrote t k v (set t (bucket_of k (length t)) c)
  unfolding view
  set-Wrote t k v c pos placed chain reads = record {
    width = length-set t _ c;
    placed = λ i.
        rw (length-set, get_or-set, bucket_of-lt k (length t) pos)
          (ground (arith, placed i, chain, bucket_of-lt k (length t) pos));
    reads = λ q.
        rw (length-set, get_or-set)
          (ground (arith, reads q, bucket_congr q k (length t), bucket_of-lt k (length t) pos));
  }
