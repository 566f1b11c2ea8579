-- ===== src/Hash/Lookups.antt =====
-- The operations of src/hash.c as their clients see them: by what `hash_lookup` returns afterwards.

use netcosm.Base.{◌≡◌, ◌∙◌, true, Option, none, some, is_some, if◌then◌else◌, arith}
use netcosm.Base.Run.{ok, Returns}
use netcosm.Hash.Chain.{IsLawful}
use netcosm.Hash.Methods.{insert-Updates, overwrite-Updates, remove-Updates, lookup-contents}
use netcosm.Hash.Ops.{insert, overwrite, remove, lookup}
use netcosm.Hash.Table.{IsValid, view_congr}
use netcosm.Hash.Types.{Keys, HashMap}

module _ {ℓ} {K D : Type ℓ} ⦃keys : Keys K⦄ ⦃law : IsLawful keys⦄ where
  -- `r` finds what `m` does, but for the key `k`, which finds `v`.
  pub record Finds (m : HashMap K D) (k : K) (v : Option D) (r : HashMap K D) : Type ℓ where
    pub valid : IsValid r
    pub finds : (q : K) → lookup q r ≡ (if keys.same q k then v else lookup q m)

  pub insert_absent :
      (k : K) (d : D) (m : HashMap K D)
      → IsValid m
      → lookup k m ≡ none
      → (r : HashMap K D) × (insert k d m ≡ ok (none, r)) × Finds m k (some d) r
  insert_absent k d m v absent =
      let (r, run, (found, added, _)) = insert-Updates k d m v in
      let u = added (found ∙ absent) in
      (
        r.1,
        run ∙ ground (arith, found, absent),
        record {
          valid = u.valid;
          finds = λ q. rw (lookup-contents q r.1, u.reads q) (ground (arith, lookup-contents q m));
        },
      )

  pub insert_present :
      (k : K) (d x : D) (m : HashMap K D)
      → IsValid m
      → lookup k m ≡ some x
      → insert k d m ≡ ok (some x, m)
  insert_present k d x m v present =
      let (r, run, (found, _, kept)) = insert-Updates k d m v in
      run ∙ ground (arith, found, present, kept)

  pub overwrite-Finds :
      (k : K) (d : D) (m : HashMap K D)
      → IsValid m
      → Returns (overwrite k d m) λ r. Finds m k (some d) r.1
  overwrite-Finds k d m v =
      let (r, run, (_, u)) = overwrite-Updates k d m v in
      (
        r,
        run,
        record {
          valid = u.valid;
          finds = λ q. rw (lookup-contents q r.1, u.reads q) (ground (arith, lookup-contents q m));
        },
      )

  pub remove-Finds :
      (k : K) (m : HashMap K D)
      → IsValid m
      → ((remove k m).0 ≡ is_some (lookup k m)) × Finds m k none (remove k m).2
  remove-Finds k m v =
      let (found, released, u) = remove-Updates k m v in
      (
        rw lookup-contents (ground (arith, found)),
        record {
          valid = u.valid;
          finds = λ q.
              rw (lookup-contents q (remove k m).2, u.reads q)
                (ground (arith, lookup-contents q m));
        },
      )

  -- Equal keys find the same data.
  pub lookup_congr : (a b : K) (m : HashMap K D) → keys.same a b ≡ true → lookup a m ≡ lookup b m
  lookup_congr a b m h = rw (lookup-contents a m, lookup-contents b m, view_congr a b m h)
