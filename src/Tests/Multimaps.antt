-- ===== src/Tests/Multimaps.antt =====
-- Multimaps of numbers under names.
use netcosm.Base.{
  ℕ, ◌%◌, ◌≡◌, ◌∙◌, ap, not, none, some, [], ◌∷◌, length, is_empty, if◌then◌else◌, ◌==◌, select,
  arith,
}
use netcosm.Base.Run.{Returns}
use netcosm.Base.Words.{u64_mod, inc64, sub64}
use netcosm.Multimap.Delete.{hit, delete-Puts}
use netcosm.Multimap.Laws.{pairs, IsWell, IsCounted, Puts, init-IsWell, insert-Puts, lookup-pairs}
use netcosm.Multimap.{
  Multimap, multimap_init, multimap_insert, multimap_lookup, multimap_delete, free_list,
}
use netcosm.Text
use netcosm.Text.Djb.{ObjName, cased_keys, cased_keys-IsLawful, hash_djb}
use netcosm.Text.{ascii}

abbrev lamp : ObjName
lamp = record { text = ascii "lamp" }

abbrev none_yet : Multimap ObjName ℕ
none_yet = multimap_init 8 (λ a b. a == b)

init-IsWell_example : IsWell none_yet × IsCounted none_yet × ((q : ObjName) → pairs none_yet q ≡ [])
init-IsWell_example = init-IsWell 8 (λ a b. a == b)

insert-Puts_example : Returns (multimap_insert lamp 4 none_yet) λ r.
    (r.0 ≡ is_empty (pairs none_yet lamp))
    × IsCounted r.1
    × Puts none_yet lamp ((lamp, 4) ∷ pairs none_yet lamp) (inc64 none_yet.total_pairs) r.1
insert-Puts_example = insert-Puts lamp 4 none_yet init-IsWell_example.0 init-IsWell_example.1

abbrev one_lamp : Multimap ObjName ℕ
one_lamp = insert-Puts_example.0.1

one_lamp-IsWell : IsWell one_lamp
one_lamp-IsWell = insert-Puts_example.2.2.well

lookup-pairs_example : multimap_lookup lamp one_lamp ≡ (
    if is_empty (pairs one_lamp lamp)
    then none
    else some (pairs one_lamp lamp, length (pairs one_lamp lamp) % u64_mod))
lookup-pairs_example = lookup-pairs lamp one_lamp one_lamp-IsWell

one_lamp-pairs : pairs one_lamp lamp ≡ (lamp, 4) ∷ []
unfolding lamp Text.strcasecmp_eq hash_djb
one_lamp-pairs =
    insert-Puts_example.2.2.reads lamp ∙ ap (λ ps. (lamp, 4) ∷ ps) (init-IsWell_example.2 lamp)

delete-Puts_example :
    let (deleted, released, r) = multimap_delete lamp 4 one_lamp in
    let gone = select (hit one_lamp 4) (pairs one_lamp lamp) in
    (deleted ≡ length gone)
    × (released ≡ free_list one_lamp gone)
    × Puts one_lamp lamp
        (select (λ p. not (hit one_lamp 4 p)) (pairs one_lamp lamp))
        (sub64 one_lamp.total_pairs (length gone))
        r
delete-Puts_example = delete-Puts lamp 4 one_lamp one_lamp-IsWell (rw one_lamp-pairs (omega arith))
