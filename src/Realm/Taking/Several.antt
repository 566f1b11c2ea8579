-- ===== src/Realm/Taking/Several.antt =====
-- The loop of `req_take` (src/server_reqs.c) over the objects of a name.
use netcosm.Base.{
  ℕ, ◌+◌, ◌≡◌, ◌≢◌, refl, some, List, [], ◌∷◌, length, map, is_empty, if◌then◌else◌, none,
}
use netcosm.Heap.{Heap, Things}
use netcosm.Multimap.Laws.{IsCounted, pairs, lookup-pairs, IsWell}
use netcosm.Multimap.{Pair, multimap_lookup}
use netcosm.Object.{Object}
use netcosm.Realm.Carrying.{ObjHook}
use netcosm.Realm.Taking.{names_at, bag_with, room_without, IsTakeable}
use netcosm.Realm.{Realm, values}
use netcosm.Server.{Child}
use netcosm.Text.Djb.{ObjName}
use netcosm.Hash.Types.{Keys}
use netcosm.Hash.Chain.{IsLawful}

module _ ⦃obj_keys : Keys ObjName⦄ ⦃law : IsLawful obj_keys⦄ where
  values-some :
      (es : List (Pair ObjName ℕ)) (n : ℕ)
      → values (if is_empty es then none else some (es, n)) ≡ map (λ e. e.1) es
  values-some [] n = refl
  values-some (e ∷ es) n = refl

  -- The objects that a lookup lists are those of the key's pairs.
  pub values-pairs :
      (k : ObjName) (m : Things)
      → IsWell m
      → values (multimap_lookup k m) ≡ map (λ e. e.1) (pairs m k)
  values-pairs k m w = rw (lookup-pairs k m w) (values-some (pairs m k) _)

  unfoldable pub AreApart : ℕ → List ℕ → Type 0
  AreApart p [] = Unit
  AreApart p (q ∷ qs) = (q ≢ p) × AreApart p qs

module _ {U : Type 0} ⦃obj_keys : Keys ObjName⦄ ⦃law : IsLawful obj_keys⦄ where
  -- All the objects may be taken, and they are different ones.
  unfoldable pub AreTakeable : ObjHook U → Child → Heap U → List ℕ → Type 0
  unfolding AreApart
  AreTakeable hook sender heap [] = Unit
  AreTakeable hook sender heap (p ∷ ps) =
      IsTakeable hook sender heap p × AreApart p ps × AreTakeable hook sender heap ps

  -- How many pairs they get.
  unfoldable pub n_names : Heap U → List ℕ → ℕ
  unfolding names_at
  n_names heap [] = 0
  n_names heap (p ∷ ps) = length (names_at heap p) + n_names heap ps

  -- `r'` is `r` with the objects `ps` taken from the room into the inventory.
  pub record AllTaken (ps : List ℕ) (things bag : Things) (r r' : Realm U) (things' bag' : Things)
      : Type 0 where
    pub counted : IsCounted bag'
    pub bag_reads : (q : ObjName) → pairs bag' q ≡ bag_with r.heap q ps (pairs bag q)
    pub room_reads : (q : ObjName) → pairs things' q ≡ room_without r.heap q ps (pairs things q)
