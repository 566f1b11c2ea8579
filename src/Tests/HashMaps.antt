-- ===== src/Tests/HashMaps.antt =====
-- The hash table at short strings.
use mathlib.Core.List.{flatten}
use netcosm.Base.{
  ℕ, zero, suc, ◌%◌, ◌≡◌, ◌≢◌, refl, true, false, not, none, some, [], ◌∷◌, ◌++◌, length, ◌==◌,
  is_some, arith,
}
use netcosm.Base.Run.{abort, Returns}
use netcosm.Base.Words.{inc64, dec64, u32_mod, u64_mod}
use netcosm.Hash.Buckets.{occupied, remove_miscounts}
use netcosm.Hash.Chain.{find, bucket_of}
use netcosm.Hash.Export.{del-get-remove, resize-del}
use netcosm.Hash.Iterate.{AreBelow, entries, entries-in_order, iterate_start, saved_buckets}
use netcosm.Hash.Lifecycle.{init-IsValid, dup-contents, dup_entry, free-entries, freed}
use netcosm.Hash.Methods.{
  contents, Updates, insert-Updates, overwrite-Updates, remove-Updates, replaced, unlinked,
  count_new, count_less,
}
use netcosm.Hash.Ops.{
  insert, overwrite, remove, lookup, resize, dup, get_internal_node, del_internal_node,
}
use netcosm.Hash.Resize.{Resized, resize-Resized}
use netcosm.Hash.Table.{view, IsPlaced, IsValid}
use netcosm.Hash.Types.{HashMap, init, free, release_data, release_key}
use netcosm.Text.Djb.{hash_djb, string_keys, string_keys-IsLawful}
use netcosm.Text
use netcosm.Text.{Bytes, ascii}

-- hash_djb on short strings, computed by hand from the loop.
hash_djb_empty : hash_djb [] ≡ 5381
unfolding hash_djb
hash_djb_empty = refl

hash_djb_a : hash_djb (ascii "a") ≡ 177604
unfolding hash_djb
hash_djb_a = refl

abbrev empty : HashMap Bytes ℕ
empty = init 2

init-IsValid_example : IsValid empty × (empty.n_entries ≡ 0) × ((q : Bytes) → lookup q empty ≡ none)
init-IsValid_example = init-IsValid 2

insert-Updates_example : Returns (insert (ascii "axe") 7 empty) λ r.
    (r.0 ≡ lookup (ascii "axe") empty)
    × (r.0 ≡ none → Updates empty (ascii "axe") (some (ascii "axe", 7)) (inc64 empty.n_entries) r.1)
    × (r.0 ≢ none → r.1 ≡ empty)
insert-Updates_example = insert-Updates (ascii "axe") 7 empty init-IsValid_example.0

overwrite-Updates_example : Returns (overwrite (ascii "axe") 7 empty) λ r.
    (r.0 ≡ replaced empty (contents empty (ascii "axe")))
    × Updates empty
        (ascii "axe")
        (some (ascii "axe", 7))
        (count_new empty (contents empty (ascii "axe")))
        r.1
overwrite-Updates_example = overwrite-Updates (ascii "axe") 7 empty init-IsValid_example.0

-- A map with one entry.
abbrev one : HashMap Bytes ℕ
one = overwrite-Updates_example.0.1

abbrev one-IsValid : IsValid one
one-IsValid = overwrite-Updates_example.2.1.valid

abbrev one_holds : contents one (ascii "axe") ≡ some (ascii "axe", 7)
unfolding hash_djb Text.strcmp_eq
one_holds = overwrite-Updates_example.2.1.reads (ascii "axe")

remove-Updates_example :
    let (found, released, r) = remove (ascii "axe") one in
    (found ≡ is_some (contents one (ascii "axe")))
    × (released ≡ unlinked one (contents one (ascii "axe")))
    × Updates one (ascii "axe") none (count_less one (contents one (ascii "axe"))) r
remove-Updates_example = remove-Updates (ascii "axe") one one-IsValid

resize-Resized_example :
    Returns (resize 5 one) λ r. (r.0 ≡ not (5 == length one.table)) × Resized one 5 r.1
resize-Resized_example = resize-Resized 5 one (omega arith) one-IsValid

-- A map of three buckets, of which the middle one is empty.
abbrev spread : HashMap Bytes ℕ
spread = record empty {
  table = ((ascii "axe", 7) ∷ (ascii "key", 9) ∷ []) ∷ [] ∷ ((ascii "rod", 8) ∷ []) ∷ [];
  n_entries = 3;
  used_buckets = 2;
}

entries-in_order_example :
    (entries spread ≡ flatten spread.table)
    × AreBelow u32_mod (saved_buckets (suc (length (flatten spread.table))) spread iterate_start)
entries-in_order_example = entries-in_order spread (omega arith)

free-entries_example : free one ≡ freed one (entries one)
free-entries_example = free-entries one

dup-contents_example :
    Returns
      (dup one)
      λ r. IsValid r × ((q : Bytes) → contents r q ≡ dup_entry one.dup_data (contents one q))
dup-contents_example = dup-contents one one-IsValid

del-get-remove_example :
    let (released, r) = del_internal_node (get_internal_node (ascii "axe") one) one in
    let r' = (remove (ascii "axe") one).2 in
    (r.table ≡ r'.table)
    × (r.used_buckets ≡ r'.used_buckets)
    × (released ≡ release_data one (ascii "axe", 7) ++ release_key one (ascii "axe", 7))
    × (r.n_entries ≡ one.n_entries)
    × (r'.n_entries ≡ dec64 one.n_entries)
del-get-remove_example = del-get-remove (ascii "axe") one (ascii "axe", 7) one_holds

-- Two nodes in one bucket.
abbrev crowded : HashMap Bytes ℕ
crowded = record {
  table = ((ascii "axe", 7) ∷ (ascii "key", 8) ∷ []) ∷ [];
  n_entries = 2;
  used_buckets = 1;
  free_key = false;
  free_data = true;
  dup_data = none;
}

crowded-IsPlaced : IsPlaced crowded.table
unfolding bucket_of find hash_djb Text.strcmp_eq
crowded-IsPlaced zero = (refl, refl, (refl, refl, tt))
crowded-IsPlaced (suc i) = tt

crowded-IsValid : IsValid crowded
unfolding flatten
crowded-IsValid = record { pos = omega arith; placed = crowded-IsPlaced; counted = refl }

remove_miscounts_example :
    let r = (remove (ascii "axe") crowded).2 in
    (occupied r.table ≡ occupied crowded.table) × (r.used_buckets ≢ occupied r.table % u64_mod)
unfolding occupied bucket_of hash_djb Text.strcmp_eq
remove_miscounts_example =
    remove_miscounts (ascii "axe") crowded (ascii "axe", 7) (ascii "key", 8) [] crowded-IsValid refl
      refl refl

resize-del_example :
    resize 5 (del_internal_node (get_internal_node (ascii "axe") crowded) crowded).1 ≡ abort
unfolding find view bucket_of hash_djb Text.strcmp_eq
resize-del_example =
    resize-del (ascii "axe") crowded (ascii "axe", 7) refl 5 crowded-IsValid (omega arith) refl
