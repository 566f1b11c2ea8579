-- ===== src/Hash/Buckets.antt =====
-- `used_buckets` of src/hash.c against the number of buckets that hold a node.
use netcosm.Base.{
  ℕ, zero, suc, ◌+◌, ◌%◌, ◌<◌, ◌≡◌, refl, ◌≢◌, some, List, [], ◌∷◌, length, get_or, set,
  if◌then◌else◌, true, false, arith, is_empty,
}
use netcosm.Base.Words.{u64_mod}
use netcosm.Hash.Chain.{find, unlink, at_head, IsLawful}
use netcosm.Hash.Ops.{remove, home, home_chain}
use netcosm.Hash.Table.{IsValid, bucket_of-lt}
use netcosm.Hash.Types.{Keys, Node, Chain, HashMap}

module _ {ℓ} {K D : Type ℓ} where
  -- The buckets that hold a node.
  unfoldable pub occupied : List (Chain K D) → ℕ
  occupied [] = 0
  occupied (c ∷ t) = (if is_empty c then 0 else 1) + occupied t

  occupied-set :
      (t : List (Chain K D)) (i : ℕ) (c : Chain K D)
      → i < length t
      → occupied (set t i c) + (if is_empty (get_or t i []) then 0 else 1)
        ≡ occupied t + (if is_empty c then 0 else 1)
  unfolding occupied
  occupied-set [] i c h = absurd (omega arith)
  occupied-set (x ∷ t) zero c h = omega arith
  occupied-set (x ∷ t) (suc i) c h = omega (arith, occupied-set t i c (omega arith))

module _ {ℓ} {K D : Type ℓ} ⦃keys : Keys K⦄ ⦃law : IsLawful keys⦄ where
  -- `remove` counts a bucket less whenever it unlinks the first node of a chain: where the chain has a
  -- second node the bucket stays occupied, and in a valid map a count that was right before is wrong
  -- after.
  pub remove_miscounts :
      (k : K) (m : HashMap K D) (e e' : Node K D) (c : Chain K D)
      → IsValid m
      → m.used_buckets ≡ occupied m.table % u64_mod
      → home_chain m k ≡ e ∷ e' ∷ c
      → keys.same k e.0 ≡ true
      → let r = (remove k m).2 in
        (occupied r.table ≡ occupied m.table) × (r.used_buckets ≢ occupied r.table % u64_mod)
  unfolding remove find unlink at_head
  remove_miscounts k m e e' c v right chain same =
      let hit : find k (home_chain m k) ≡ some e = rw (chain, same) in
      let gone : unlink k (home_chain m k) ≡ e' ∷ c = rw (chain, same) in
      let first : at_head k (home_chain m k) ≡ true = rw (chain, same) in
      let full : is_empty (home_chain m k) ≡ false = rw chain in
      let kept = occupied-set m.table (home m k) (e' ∷ c) (bucket_of-lt k (length m.table) v.pos) in
      let same_count : occupied (set m.table (home m k) (e' ∷ c)) ≡ occupied m.table =
        ground (arith, kept, full) in
      rw (hit, remove) (rw (gone, first, same_count) (refl, ground (arith, right)))
