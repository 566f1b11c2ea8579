-- ===== src/Object/Counts.antt =====
-- Reference counts of src/obj.c.
use netcosm.Base.{
  ℕ, zero, suc, ◌+◌, ◌-◌, ◌≤◌, ◌<◌, ◌≡◌, Option, none, some, ltb, leb, if◌then◌else◌, arith,
}
use netcosm.Base.Words.{u32_mod}
use netcosm.Object.{Object, obj_dup, obj_free}

module _ {ℓ} {U : Type ℓ} where
  -- `n` references more.
  unfoldable pub dup_times : ℕ → Object U → Object U
  unfolding obj_dup
  dup_times zero obj = obj
  dup_times (suc n) obj = dup_times n (obj_dup obj)

  -- `n` calls of obj_free, of which only the last may free the object.
  unfoldable pub free_times : ℕ → Object U → Option (Object U)
  unfolding obj_free
  free_times zero obj = some obj
  free_times (suc n) obj = elim (obj_free obj) [ none ↦ none | some left ↦ free_times n left ]

  refcount-dup_times :
      (n : ℕ) (obj : Object U)
      → obj.refcount + n < u32_mod
      → dup_times n obj ≡ record obj { refcount = obj.refcount + n }
  unfolding dup_times obj_dup
  refcount-dup_times zero obj h = ground arith
  refcount-dup_times (suc n) obj h = ground (arith, h, refcount-dup_times n (obj_dup obj))

  refcount-free_times :
      (k : ℕ) (obj : Object U)
      → 1 ≤ obj.refcount
      → obj.refcount < u32_mod
      → free_times k obj
        ≡ (if ltb k obj.refcount then some (record obj { refcount = obj.refcount - k }) else none)
  unfolding free_times obj_free
  refcount-free_times zero obj h b = ground (arith, h)
  refcount-free_times (suc k) obj h b =
      ground (arith, h, b, refcount-free_times k (record obj { refcount = obj.refcount - 1 }))

  -- An object with one reference that gets `n` more, fewer than 2 ^ 32 in all, survives `n` calls of
  -- obj_free with the references that are left, and is freed by the next.
  pub free_times-dup_times :
      (n k : ℕ) (obj : Object U)
      → obj.refcount ≡ 1
      → n + 1 < u32_mod
      → free_times k (dup_times n obj)
        ≡ (if leb k n then some (record obj { refcount = n + 1 - k }) else none)
  free_times-dup_times n k obj one h =
      rw (refcount-dup_times n obj (omega (arith, one, h)))
        (ground (arith, one, h, refcount-free_times k (record obj { refcount = obj.refcount + n })))
