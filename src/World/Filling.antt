-- ===== src/World/Filling.antt =====
-- src/world.c: how world_load puts what it has read into new maps.
use mathlib.Core.Option
use mathlib.Core.Option.{or_else}
use netcosm.Base.{
  ℕ, ◌+◌, ◌*◌, ◌≡◌, refl, subst, ◌∙◌, true, Option, none, some, List, [], ◌∷◌, length, map,
  if◌then◌else◌, arith, inl, inr,
}
use netcosm.Base.Run.{Run, Run-cases, Returns, ok, abort, ◌>>=◌}
use netcosm.Hash.Chain.{find, find_congr}
use netcosm.Hash.Iterate.{entries, entries-flatten}
use netcosm.Hash.Lookups.{insert_absent}
use netcosm.Hash.Methods.{contents, lookup-contents}
use netcosm.Hash.Lifecycle.{dup_entry, dup_insert-contents}
use netcosm.Hash.Ops.{dup_insert, insert, lookup}
use netcosm.Hash.Resize.{IsDistinct, flatten-view}
use netcosm.Hash.Table.{IsValid}
use netcosm.Hash.Types.{HashMap, Node, init, set_free_key}
use netcosm.Heap.{Heap}
use netcosm.Object
use netcosm.Object.{Hooks, Object}
use netcosm.Room.{Room, RoomData}
use netcosm.Text.Djb.{string_keys, string_keys-IsLawful}
use netcosm.Text.{Bytes}
use netcosm.Userdb.File.{stock}
use netcosm.Verb
use netcosm.Verb.{Verb}
use netcosm.World.File.{RoomRecord, WorldRecord, load_world}
use netcosm.World.Loading.{All}
use netcosm.World.{Start, World, new_room}

-- The verbs of a map; one whose name is there already aborts.
unfoldable pub fill_verbs : List Verb → HashMap Bytes Verb → Run (HashMap Bytes Verb)
unfolding insert
fill_verbs [] m = ok m
fill_verbs (v ∷ vs) m =
    insert v.name v m >>= λ r. elim r.0 [ some old ↦ abort | none ↦ fill_verbs vs r.1 ]

-- The names of the rooms; what hash_insert returns is dropped.
unfoldable pub fill_names : List (Bytes × ℕ) → HashMap Bytes ℕ → Run (HashMap Bytes ℕ)
unfolding insert
fill_names [] m = ok m
fill_names (e ∷ es) m = insert e.0 e.1 m >>= λ r. fill_names es r.1

module _ {U : Type 0} where
  -- A room, with its objects at the addresses from `p` on; the next address.
  unfoldable pub fill_room :
      Start → ℕ → RoomData → RoomRecord U → ℕ → Heap U → Run (ℕ × Heap U × Room)
  unfolding new_room stock fill_verbs
  fill_room start i info rec p heap =
      let room =
        new_room start rec.id (record info { name = rec.name; desc = rec.desc }) rec.adjacent in
      stock rec.objects p (record { heap = heap; things = room.objects }) >>= λ (p, h).
      fill_verbs rec.verbs room.verbs >>= λ verbs.
      ok (p, h.heap, record room { objects = h.things; verbs = verbs })

  -- There are as many rooms in the file as in the module.
  unfoldable pub fill_rooms :
      Start → ℕ → List RoomData → List (RoomRecord U) → ℕ → Heap U → Run (Heap U × List Room)
  unfolding fill_room
  fill_rooms start i ds [] p heap = ok (heap, [])
  fill_rooms start i [] (rec ∷ recs) p heap = abort
  fill_rooms start i (d ∷ ds) (rec ∷ recs) p heap =
      fill_room start i d rec p heap >>= λ (p, heap, room).
      fill_rooms start (i + 1) ds recs p heap >>= λ (heap, rooms). ok (heap, room ∷ rooms)

  -- The next id, the objects, the global verbs and the world.
  unfoldable pub fill_world :
      Start
      → List RoomData
      → WorldRecord U
      → ℕ
      → Heap U
      → HashMap Bytes Verb
      → Run (ℕ × Heap U × HashMap Bytes Verb × World)
  unfolding fill_verbs fill_rooms fill_names init set_free_key
  fill_world start info rec p heap verbs = fill_verbs rec.verbs verbs >>= λ verbs.
      fill_rooms start 0 info rec.rooms p heap >>= λ (heap, rooms).
      fill_names rec.names (set_free_key true (init (length rec.rooms * 2))) >>= λ names. ok (
        rec.idcounter,
        heap,
        verbs,
        record { rooms = rooms; world_map = names; world_name = rec.name },
      )

  -- world_load on the bytes of a file that can be opened; `none` for the state of another world.
  unfoldable pub world_load :
      Hooks U
      → (ℕ → Bytes → Run Bytes)
      → Object.ClassMap
      → Verb.ClassMap
      → Start
      → List RoomData
      → Bytes
      → ℕ
      → Heap U
      → HashMap Bytes Verb
      → Bytes
      → Run (Option (ℕ × Heap U × HashMap Bytes Verb × World))
  unfolding load_world fill_world
  world_load hooks extra classes verb_classes start info name p heap verbs fd =
      load_world hooks extra classes verb_classes (length info) name fd >>= λ found. elim found [
        | none ↦ ok none
        | some rec ↦ fill_world start info rec p heap verbs >>= λ w. ok (some w)
      ]

-- The keys of the verbs are their names.
abbrev pub IsNamed : Node Bytes Verb → Type 0
IsNamed e = e.0 ≡ e.1.name

fill_verbs-contents :
    (es : List (Node Bytes Verb)) (m : HashMap Bytes Verb)
    → IsValid m
    → IsDistinct es
    → All IsNamed es
    → ((q : Bytes) (e : Node Bytes Verb) → find q es ≡ some e → lookup q m ≡ none)
    → Returns (fill_verbs (map (λ e. e.1) es) m) λ r.
      IsValid r
      × ((q : Bytes) → lookup q r ≡ elim (find q es) [ none ↦ lookup q m | some e ↦ some e.1 ])
unfolding fill_verbs find
fill_verbs-contents [] m v d named apart = (m, refl, (v, λ q. refl))
fill_verbs-contents (e ∷ es) m v d (same, named) apart =
    let absent : lookup e.1.name m ≡ none =
      subst (λ k. lookup k m ≡ none) same (apart e.0 e (rw string_keys-IsLawful.same_refl refl)) in
    let (r, run, f) = insert_absent e.1.name e.1 m v absent in
    let reads : (q : Bytes)
        → lookup q r ≡ (if string_keys.same q e.0 then some e.1 else lookup q m) =
      λ q. f.finds q ∙ rw same refl in
    let (r', run', (v', rest)) =
      fill_verbs-contents es r f.valid d.1 named
        (λ q x h. ground (arith, reads q, apart q x, h, d.0, find_congr q e.0 es)) in
    (r', rw run run', (v', λ q. rest q ∙ ground (arith, reads q, d.0, find_congr q e.0 es)))

-- The nodes of a valid map are distinct, and a key finds in them what it finds in the map.
entries-find :
    {D : Type 0} (m : HashMap Bytes D)
    → IsValid m
    → IsDistinct (entries m) × ((q : Bytes) → find q (entries m) ≡ contents m q)
entries-find m v = rw entries-flatten (flatten-view m.table v.placed)

-- The verbs of a valid map, as a file has them, fill an empty map without an abort, where each stands
-- under its name: any word then finds the verb that it has found before.
pub fill_verbs-lookup :
    (m empty : HashMap Bytes Verb)
    → IsValid m
    → All IsNamed (entries m)
    → IsValid empty
    → ((q : Bytes) → lookup q empty ≡ none)
    → Returns
        (fill_verbs (map (λ e. e.1) (entries m)) empty)
        λ r. IsValid r × ((q : Bytes) → lookup q r ≡ lookup q m)
fill_verbs-lookup m empty v named v' none_yet =
    let (distinct, found) = entries-find m v in
    let (r, run, (valid, reads)) =
      fill_verbs-contents (entries m) empty v' distinct named (λ q e h. none_yet q) in
    (r, run, (valid, λ q. reads q ∙ ground (arith, found q, none_yet q, lookup-contents q m)))

fill_names-dup_insert :
    (es : List (Bytes × ℕ)) (m : HashMap Bytes ℕ) → fill_names es m ≡ dup_insert none es m
unfolding fill_names dup_insert
fill_names-dup_insert [] m = refl
fill_names-dup_insert (e ∷ es) m = elim (Run-cases (insert e.0 e.1 m)) [
  | inl stop ↦ rw stop refl
  | inr (r, run) ↦ rw run (fill_names-dup_insert es r.1)
]

same_data :
    (x : Option (Node Bytes ℕ))
    → Option.map (λ e. e.1) (or_else (dup_entry none x) none) ≡ Option.map (λ e. e.1) x
unfolding or_else
same_data none = refl
same_data (some e) = refl

-- The names of the rooms, as a file has them, fill an empty map, in which any name finds the room that
-- it has found before.
pub fill_names-lookup :
    (m empty : HashMap Bytes ℕ)
    → IsValid m
    → IsValid empty
    → ((q : Bytes) → contents empty q ≡ none)
    → Returns
        (fill_names (entries m) empty)
        λ r. IsValid r × ((q : Bytes) → lookup q r ≡ lookup q m)
unfolding or_else
fill_names-lookup m empty v v' none_yet =
    let (distinct, found) = entries-find m v in
    let (r, run, (valid, reads)) =
      dup_insert-contents none (entries m) empty v' distinct (λ q e h. none_yet q) in
    (
      r,
      fill_names-dup_insert (entries m) empty ∙ run,
      (
        valid,
        λ q.
            rw (lookup-contents q r, lookup-contents q m, reads q, found q, none_yet q)
              (same_data (contents m q)),
      ),
    )
