-- ===== src/World/Counting.antt =====
-- src/obj.c: obj_count_noalias, which counts the objects that world_save and userdb_write write.
use mathlib.Core.Option
use netcosm.Base.{
  ℕ, ◌+◌, ◌%◌, ◌≡◌, refl, ◌<◌, Option, List, [], ◌∷◌, ◌++◌, length, if◌then◌else◌, arith,
  length-append,
}
use netcosm.Base.Words.{inc64, u64_mod}
use netcosm.Multimap.{Multimap, multimap_iterate_all}
use netcosm.Object.{Object}
use netcosm.Text.Djb.{ObjName, name_keys}
use netcosm.Text.{strcmp_eq}
use netcosm.World.File.{all_pairs, named_objects}
use netcosm.World.{World, room_get}

module _ {ℓ} {U : Type ℓ} (heap : ℕ → Object U) where
  -- The loop over the pairs of a key, with the count so far.
  unfoldable count_pairs : List (ObjName × ℕ) → ℕ → ℕ
  count_pairs [] ret = ret
  count_pairs ((k, p) ∷ ps) ret =
      count_pairs ps (if strcmp_eq k.text (heap p).name then inc64 ret else ret)

  -- The loop over the keys.
  unfoldable count_lists : List (List (ObjName × ℕ) × ℕ) → ℕ → ℕ
  unfolding count_pairs
  count_lists [] ret = ret
  count_lists ((ps, n) ∷ rest) ret = count_lists rest (count_pairs ps ret)

  unfoldable obj_count_noalias : Multimap ObjName ℕ → ℕ
  unfolding count_lists multimap_iterate_all
  obj_count_noalias a = count_lists (multimap_iterate_all a) 0

  -- `none` for an id that is not that of a room
  unfoldable room_obj_count_noalias : ℕ → World → Option ℕ
  unfolding room_get obj_count_noalias
  room_obj_count_noalias id w = Option.map (λ r. obj_count_noalias r.objects) (room_get id w)

  named_objects-append :
      (ps qs : List (ObjName × ℕ))
      → named_objects heap (ps ++ qs) ≡ named_objects heap ps ++ named_objects heap qs
  unfolding named_objects
  named_objects-append [] qs = refl
  named_objects-append ((k, p) ∷ ps) qs = ground (arith, named_objects-append ps qs)

  count_pairs-length :
      (ps : List (ObjName × ℕ)) (ret : ℕ)
      → ret < u64_mod
      → count_pairs ps ret ≡ (ret + length (named_objects heap ps)) % u64_mod
  unfolding count_pairs named_objects
  count_pairs-length [] ret h = omega (arith, h)
  count_pairs-length ((k, p) ∷ ps) ret h =
      ground (arith, h, count_pairs-length ps ret h, count_pairs-length ps (inc64 ret))

  count_lists-length :
      (lists : List (List (ObjName × ℕ) × ℕ)) (ret : ℕ)
      → ret < u64_mod
      → count_lists lists ret ≡ (ret + length (named_objects heap (all_pairs lists))) % u64_mod
  unfolding count_lists named_objects
  count_lists-length [] ret h = omega (arith, h)
  count_lists-length ((ps, n) ∷ rest) ret h =
      let first = count_pairs-length ps ret h in
      rw
        (
          count_lists-length rest (count_pairs ps ret) (rw first (omega arith)),
          first,
          named_objects-append ps (all_pairs rest),
        )
        (omega (arith, length-append (named_objects heap ps) (named_objects heap (all_pairs rest))))

  -- The count is the number of the pairs whose key is the name of their object, in 64 bits: that of the
  -- objects that are written.
  obj_count_noalias-length :
      (a : Multimap ObjName ℕ)
      → obj_count_noalias a
        ≡ length (named_objects heap (all_pairs (multimap_iterate_all a))) % u64_mod
  unfolding obj_count_noalias
  obj_count_noalias-length a =
      omega (arith, count_lists-length (multimap_iterate_all a) 0 (omega arith))
