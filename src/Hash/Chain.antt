-- ===== src/Hash/Chain.antt =====
-- The walks along one chain that src/hash.c makes in `hash_lookup`, `hash_overwrite` and
-- `hash_remove`, and their laws for keys whose comparison is an equivalence.
use netcosm.Base.{
  ℕ, ◌+◌, ◌%◌, ◌≡◌, refl, Bool, true, false, Option, none, some, [], ◌∷◌, ◌++◌, length,
  if◌then◌else◌, arith,
}
use mathlib.Core.Option.{or_else}
use netcosm.Base.Words.{u32_mod}
use netcosm.Hash.Types.{Keys, Node, Chain}

-- `map->hash(key) % map->table_sz`, at an `unsigned` hash
unfoldable pub bucket_of {ℓ} : {K : Type ℓ} ⦃keys : Keys K⦄ → K → ℕ → ℕ
bucket_of ⦃keys⦄ k n = keys.hash k % u32_mod % n

module _ {ℓ} {K D : Type ℓ} ⦃keys : Keys K⦄ where
  -- The first node of a chain with an equal key.
  unfoldable pub find : K → Chain K D → Option (Node K D)
  find k [] = none
  find k (e ∷ c) = if keys.same k e.0 then some e else find k c

  -- Writes key and data of that node.
  unfoldable pub replace : K → D → Chain K D → Chain K D
  replace k d [] = []
  replace k d (e ∷ c) = if keys.same k e.0 then (k, d) ∷ c else e ∷ replace k d c

  -- Unlinks that node.
  unfoldable pub unlink : K → Chain K D → Chain K D
  unlink k [] = []
  unlink k (e ∷ c) = if keys.same k e.0 then c else e ∷ unlink k c

  -- Whether that node is the chain's first, so that `last` is NULL.
  unfoldable pub at_head : K → Chain K D → Bool
  at_head k [] = false
  at_head k (e ∷ c) = keys.same k e.0

-- What a hashed container asks of its keys.
pub record IsLawful {ℓ} {K : Type ℓ} (keys : Keys K) : Type ℓ where
  pub same_refl : (a : K) → keys.same a a ≡ true
  pub same_symm : (a b : K) → keys.same a b ≡ keys.same b a
  pub same_trans : (a b c : K) → keys.same a b ≡ true → keys.same b c ≡ true → keys.same a c ≡ true
  pub hash-same : (a b : K) → keys.same a b ≡ true → keys.hash a ≡ keys.hash b

module _ {ℓ} {K : Type ℓ} ⦃keys : Keys K⦄ ⦃law : IsLawful keys⦄ where
  pub same_congr_left : (a b c : K) → keys.same a b ≡ true → keys.same a c ≡ keys.same b c
  same_congr_left a b c e =
      ground (arith, law.same_symm a b, law.same_trans a b c, law.same_trans b a c)

  pub same_congr_right : (a b c : K) → keys.same b c ≡ true → keys.same a b ≡ keys.same a c
  same_congr_right a b c e =
      ground (arith, law.same_symm b c, law.same_trans a b c, law.same_trans a c b)

  pub bucket_congr : (a b : K) (n : ℕ) → keys.same a b ≡ true → bucket_of a n ≡ bucket_of b n
  unfolding bucket_of
  bucket_congr a b n e = rw (law.hash-same a b e)

module _ {ℓ} {K D : Type ℓ} ⦃keys : Keys K⦄ ⦃law : IsLawful keys⦄ where
  pub find_congr : (a b : K) (c : Chain K D) → keys.same a b ≡ true → find a c ≡ find b c
  unfolding find
  find_congr a b [] h = refl
  find_congr a b (e ∷ c) h = rw (same_congr_left a b e.0 h, find_congr a b c h)

  pub same-find :
      (k : K) (c : Chain K D) (e : Node K D) → find k c ≡ some e → keys.same k e.0 ≡ true
  unfolding find
  same-find k [] e h = cc
  same-find k (x ∷ c) e h = ground (arith, same-find k c e)

  -- Every node lies in its bucket `i` of `n`, and no two nodes have equal keys.
  abbrev pub IsChain : ℕ → ℕ → Chain K D → Type ℓ
  IsChain n i [] = Unit
  IsChain n i (e ∷ c) = (bucket_of e.0 n ≡ i) × (find e.0 c ≡ none) × IsChain n i c

  -- The first chain goes before the second.
  pub find-append :
      (k : K) (front back : Chain K D)
      → find k (front ++ back) ≡ or_else (find k front) (find k back)
  unfolding or_else find
  find-append k [] back = refl
  find-append k (e ∷ front) back = ground (arith, find-append k front back)

  module _ (k q : K) where
    pub find-replace :
        (d : D) (c : Chain K D) (old : Node K D)
        → find k c ≡ some old
        → find q (replace k d c) ≡ (if keys.same q k then some (k, d) else find q c)
    unfolding find replace
    find-replace d [] old h = cc
    find-replace d (e ∷ c) old h =
        ground (arith, find-replace d c old, same_congr_left q k e.0, same_congr_right q k e.0)

    pub find-unlink :
        (n i : ℕ) (c : Chain K D)
        → IsChain n i c
        → find q (unlink k c) ≡ (if keys.same q k then none else find q c)
    unfolding find unlink
    find-unlink n i [] h = ground arith
    find-unlink n i (e ∷ c) h = ground (
      arith,
      find-unlink n i c h.2,
      same_congr_left q k e.0,
      same_congr_right q k e.0,
      find_congr q e.0 c,
    )

  module _ (k : K) (n i : ℕ) where
    pub IsChain-append :
        (d : D) (c : Chain K D)
        → IsChain n i c
        → bucket_of k n ≡ i
        → find k c ≡ none
        → IsChain n i (c ++ (k, d) ∷ [])
    unfolding find or_else
    IsChain-append d [] h b f = (b, refl, tt)
    IsChain-append d (e ∷ c) h b f =
        ground
          (arith, IsChain-append d c h.2 b, find-append e.0 c ((k, d) ∷ []), law.same_symm e.0 k)

    pub IsChain-replace :
        (d : D) (c : Chain K D) (old : Node K D)
        → IsChain n i c
        → bucket_of k n ≡ i
        → find k c ≡ some old
        → IsChain n i (replace k d c)
    unfolding find replace
    IsChain-replace d [] old h b f = tt
    IsChain-replace d (e ∷ c) old h b f = ground (
      arith,
      IsChain-replace d c old h.2 b,
      find-replace k e.0 d c old,
      find_congr k e.0 c,
      law.same_symm e.0 k,
    )

    pub IsChain-unlink : (c : Chain K D) → IsChain n i c → IsChain n i (unlink k c)
    unfolding find unlink
    IsChain-unlink [] h = tt
    IsChain-unlink (e ∷ c) h = ground (arith, IsChain-unlink c h.2, find-unlink k e.0 n i c h.2)

  pub length-replace : (k : K) (d : D) (c : Chain K D) → length (replace k d c) ≡ length c
  unfolding replace
  length-replace k d [] = refl
  length-replace k d (e ∷ c) = ground (arith, length-replace k d c)

  pub length-unlink :
      (k : K) (c : Chain K D) (e : Node K D)
      → find k c ≡ some e
      → length (unlink k c) + 1 ≡ length c
  unfolding find unlink
  length-unlink k [] e h = cc
  length-unlink k (x ∷ c) e h = ground (arith, length-unlink k c e)
