-- ===== src/Hash/Iterate.antt =====
-- src/hash.c, `hash_iterate`: the iterator, and the callers' loop over it. The loop visits the nodes
-- bucket by bucket, each once. `bucket`, which has 32 bits, is followed without a bound.
use mathlib.Core.List.{flatten}
use netcosm.Base.{
  subst, drop-drop, ◌<◌, sym, ap, ◌∙◌, ℕ, zero, suc, ◌+◌, ◌≡◌, refl, Option, none, some, List, [],
  ◌∷◌, ◌++◌, length, length-drop, drop, ◌≤◌, arith,
}
use netcosm.Base.Words.{u32_mod}
use netcosm.Hash.Types.{Node, Chain, HashMap}

-- The iterator state that `saveptr` holds; `node` is the chain from the saved node on.
pub record Iter {ℓ} (K D : Type ℓ) : Type ℓ where
  pub bucket : ℕ
  pub node : Chain K D

abbrev pub AreBelow : ℕ → List ℕ → Type 0
AreBelow n [] = Unit
AreBelow n (b ∷ bs) = (b < n) × AreBelow n bs

module _ {ℓ} {K D : Type ℓ} where
  -- The search for the next node, over the buckets from the saved one on.
  unfoldable pub scan : List (Chain K D) → ℕ → Chain K D → Option (Node K D × Iter K D)
  scan [] b node = none
  scan (c ∷ cs) b [] = elim c [
    | [] ↦ scan cs (b + 1) []
    | e ∷ r ↦ some (e, record { bucket = b; node = e ∷ r })
  ]
  scan (c ∷ cs) b (_ ∷ next) = elim next [
    | [] ↦ scan cs (b + 1) []
    | e ∷ r ↦ some (e, record { bucket = b; node = e ∷ r })
  ]

  unfoldable pub iterate_start : Iter K D
  iterate_start = record { bucket = 0; node = [] }

  unfoldable pub iterate : HashMap K D → Iter K D → Option (Node K D × Iter K D)
  unfolding scan
  iterate m it = scan (drop it.bucket m.table) it.bucket it.node

  -- The callers' loop, `while((p = hash_iterate(map, &save, &key)))`, on fuel.
  unfoldable pub collect : ℕ → HashMap K D → Iter K D → List (Node K D)
  unfolding iterate
  collect zero m it = []
  collect (suc fuel) m it = elim (iterate m it) [
    | none ↦ []
    | some (e, it') ↦ e ∷ collect fuel m it'
  ]

  -- The loop run to its end: one round for each node, and the one that finds none.
  unfoldable pub entries : HashMap K D → List (Node K D)
  unfolding collect iterate_start
  entries m = collect (suc (length (flatten m.table))) m iterate_start

  -- The nodes that an iterator has still to return, over the chains from its bucket on.
  remaining : List (Chain K D) → Chain K D → List (Node K D)
  remaining [] node = []
  remaining (c ∷ cs) [] = c ++ flatten cs
  remaining (c ∷ cs) (_ ∷ next) = next ++ flatten cs

  remaining_fresh : (cs : List (Chain K D)) → remaining cs [] ≡ flatten cs
  unfolding remaining flatten
  remaining_fresh [] = refl
  remaining_fresh (c ∷ cs) = refl

  -- One step takes the first of the remaining nodes, or there is none.
  abbrev Steps : List (Chain K D) → ℕ → List (Node K D) → Option (Node K D × Iter K D) → Type ℓ
  Steps cs b rest none = rest ≡ []
  Steps cs b rest (some (e, it)) =
      (j : ℕ) × (it.bucket ≡ b + j) × (rest ≡ e ∷ remaining (drop j cs) it.node)

  Steps-later :
      (c : Chain K D) (cs : List (Chain K D)) (b : ℕ) (r : Option (Node K D × Iter K D))
      → Steps cs (b + 1) (flatten cs) r
      → Steps (c ∷ cs) b (flatten cs) r
  Steps-later c cs b none h = h
  Steps-later c cs b (some (e, it)) (j, at, rest) = (suc j, omega arith, rest)

  scan-Steps :
      (cs : List (Chain K D)) (b : ℕ) (node : Chain K D)
      → Steps cs b (remaining cs node) (scan cs b node)
  unfolding scan remaining flatten
  scan-Steps [] b node = refl
  scan-Steps ([] ∷ cs) b [] =
      Steps-later [] cs b _ (rw remaining_fresh at (scan-Steps cs (b + 1) []))
  scan-Steps ((e ∷ r) ∷ cs) b [] = (0, omega arith, refl)
  scan-Steps (c ∷ cs) b (x ∷ []) =
      Steps-later c cs b _ (rw remaining_fresh at (scan-Steps cs (b + 1) []))
  scan-Steps (c ∷ cs) b (x ∷ e ∷ r) = (0, omega arith, refl)

  abbrev to_come : HashMap K D → Iter K D → List (Node K D)
  to_come m it = remaining (drop it.bucket m.table) it.node

  collect_step :
      (fuel : ℕ) (m : HashMap K D) (it : Iter K D)
      → ((it' : Iter K D) → length (to_come m it') < fuel → collect fuel m it' ≡ to_come m it')
      → (r : Option (Node K D × Iter K D))
      → Steps (drop it.bucket m.table) it.bucket (to_come m it) r
      → length (to_come m it) < suc fuel
      → (elim r [ none ↦ [] | some (e, it') ↦ e ∷ collect fuel m it' ]) ≡ to_come m it
  collect_step fuel m it ih none s h = sym s
  collect_step fuel m it ih (some (e, it')) (j, at, rest) h =
      let later : to_come m it ≡ e ∷ to_come m it' =
        rw (at, ← drop-drop it.bucket j m.table) rest in
      rw later (ap (λ es. e ∷ es) (ih it' (omega (arith, ap length later))))

  -- With fuel for every node left the loop returns them all, in order.
  collect-to_come :
      (fuel : ℕ) (m : HashMap K D) (it : Iter K D)
      → length (to_come m it) < fuel
      → collect fuel m it ≡ to_come m it
  unfolding collect
  collect-to_come zero m it h = absurd (omega arith)
  collect-to_come (suc fuel) m it h =
      collect_step fuel m it (collect-to_come fuel m) (iterate m it)
        (unfold iterate in scan-Steps (drop it.bucket m.table) it.bucket it.node) h

  -- The callers' loop over `hash_iterate` visits the nodes of the table bucket by bucket, each once,
  -- and ends.
  pub entries-flatten : (m : HashMap K D) → entries m ≡ flatten m.table
  unfolding entries iterate_start
  entries-flatten m =
      let all = remaining_fresh m.table in
      collect-to_come (suc (length (flatten m.table))) m iterate_start (rw all (omega arith)) ∙ all

  abbrev IsWithin : ℕ → Option (Node K D × Iter K D) → Type 0
  IsWithin n none = Unit
  IsWithin n (some (e, it)) = it.bucket < n

  IsWithin-later :
      (b n : ℕ) (r : Option (Node K D × Iter K D)) → IsWithin (b + 1 + n) r → IsWithin (b + suc n) r
  IsWithin-later b n none h = tt
  IsWithin-later b n (some (e, it)) h = omega (arith, h)

  scan-IsWithin :
      (cs : List (Chain K D)) (b : ℕ) (node : Chain K D) → IsWithin (b + length cs) (scan cs b node)
  unfolding scan
  scan-IsWithin [] b node = tt
  scan-IsWithin ([] ∷ cs) b [] = IsWithin-later b (length cs) _ (scan-IsWithin cs (b + 1) [])
  scan-IsWithin ((e ∷ r) ∷ cs) b [] = omega arith
  scan-IsWithin (c ∷ cs) b (x ∷ []) = IsWithin-later b (length cs) _ (scan-IsWithin cs (b + 1) [])
  scan-IsWithin (c ∷ cs) b (x ∷ e ∷ r) = omega arith

  -- The buckets that the callers' loop saves.
  unfoldable pub saved_buckets : ℕ → HashMap K D → Iter K D → List ℕ
  unfolding iterate
  saved_buckets zero m it = []
  saved_buckets (suc fuel) m it = elim (iterate m it) [
    | none ↦ []
    | some (e, it') ↦ it'.bucket ∷ saved_buckets fuel m it'
  ]

  saved_step :
      (fuel : ℕ) (m : HashMap K D) (n : ℕ)
      → length m.table ≤ n
      → ((it' : Iter K D) → it'.bucket ≤ length m.table → AreBelow n (saved_buckets fuel m it'))
      → (r : Option (Node K D × Iter K D)) → IsWithin (length m.table) r
      → AreBelow n (elim r [ none ↦ [] | some (e, it') ↦ it'.bucket ∷ saved_buckets fuel m it' ])
  saved_step fuel m n k ih none h = tt
  saved_step fuel m n k ih (some (e, it')) h = (omega (arith, h, k), ih it' (omega (arith, h)))

  saved_buckets-AreBelow :
      (fuel : ℕ) (m : HashMap K D) (it : Iter K D) (n : ℕ)
      → it.bucket ≤ length m.table
      → length m.table ≤ n
      → AreBelow n (saved_buckets fuel m it)
  unfolding saved_buckets
  saved_buckets-AreBelow zero m it n h k = tt
  saved_buckets-AreBelow (suc fuel) m it n h k =
      let left = length-drop it.bucket m.table in
      let all : it.bucket + length (drop it.bucket m.table) ≡ length m.table =
        omega (arith, h, left) in
      saved_step fuel m n k (λ it' h'. saved_buckets-AreBelow fuel m it' n h' k) (iterate m it)
        (unfold iterate in
          subst (λ b. IsWithin b (scan (drop it.bucket m.table) it.bucket it.node)) all
            (scan-IsWithin (drop it.bucket m.table) it.bucket it.node))

  -- In a table of fewer than 2 ^ 32 buckets the callers' loop over hash_iterate ends and visits the nodes
  -- bucket by bucket, each once, and no bucket that it saves is cut by the 32 bits of `bucket`.
  pub entries-in_order :
      (m : HashMap K D)
      → length m.table < u32_mod
      → (entries m ≡ flatten m.table)
        × AreBelow u32_mod (saved_buckets (suc (length (flatten m.table))) m iterate_start)
  unfolding iterate_start
  entries-in_order m h = (
    entries-flatten m,
    saved_buckets-AreBelow (suc (length (flatten m.table))) m iterate_start u32_mod (omega arith)
        (omega (arith, h)),
  )
