-- ===== src/World/Init.antt =====
-- What world_init makes of the rooms of a world module.
use mathlib.Core.List.{map}
use netcosm.Base.{
  ℕ, ◌+◌, ◌*◌, ◌≡◌, refl, ◌∙◌, inl, inr, Bool, true, false, ◌||◌, Option, none, some, Option-cases,
  Bool-cases, is_some, List, [], ◌∷◌, length, if◌then◌else◌, arith,
}
use netcosm.Base.Run.{Run, ok, abort, Returns, ◌>>=◌}
use netcosm.Hash.Lifecycle.{init-IsValid}
use netcosm.Hash.Lookups.{insert_absent, insert_present, lookup_congr}
use netcosm.Hash.Ops.{lookup}
use netcosm.Hash.Table.{IsValid}
use netcosm.Hash.Types.{HashMap, init}
use netcosm.Room.{RoomData, Room}
use netcosm.Stream.{room_none}
use netcosm.Text.Djb.{string_keys, string_keys-IsLawful}
use netcosm.Text.{Bytes, strcmp_eq}
use netcosm.World.{
  World, Start, link_early, new_room, first_pass, second_links, second_pass, world_init,
  room_get_id,
}

-- The number of the first room with that id, counted from `i`.
unfoldable pub index_of : Bytes → ℕ → List RoomData → Option ℕ
index_of q i [] = none
index_of q i (d ∷ ds) = if strcmp_eq q d.uniq_id then some i else index_of q (i + 1) ds

-- A room has an id that is taken before it: by an earlier room, or in `taken`.
unfoldable pub has_twin : (Bytes → Bool) → List RoomData → Bool
has_twin taken [] = false
has_twin taken (d ∷ ds) = taken d.uniq_id || has_twin (λ q. strcmp_eq q d.uniq_id || taken q) ds

-- The rooms that stand for `ds` from the number `i` on, with whatever links.
Early : Start → ℕ → List RoomData → List Room → Type 0
Early start i [] rooms = rooms ≡ []
Early start i (d ∷ ds) rooms =
    (links : List ℕ) × (rest : List Room) × (rooms ≡ new_room start i d links ∷ rest)
    × Early start (i + 1) ds rest

abbrev seen_in : HashMap Bytes ℕ → Option ℕ → Bytes → Option ℕ
seen_in m late q = elim (lookup q m) [ none ↦ late | some id ↦ some id ]

none_of :
    (o : Option ℕ) (taken late : Bool) → is_some o ≡ taken → (taken || late) ≡ false → o ≡ none
none_of none taken late e h = refl
none_of (some x) taken late e h = ground arith

first_pass_twin :
    (start : Start) (i : ℕ) (ds : List RoomData) (m : HashMap Bytes ℕ) (taken : Bytes → Bool)
    → IsValid m
    → ((q : Bytes) → is_some (lookup q m) ≡ taken q)
    → has_twin taken ds ≡ true
    → first_pass start i ds m ≡ abort
unfolding first_pass has_twin
first_pass_twin start i [] m taken v same twin = cc twin
first_pass_twin start i (d ∷ ds) m taken v same twin = elim (Option-cases (lookup d.uniq_id m)) [
  | inr (x, present) ↦ rw (insert_present d.uniq_id i x m v present)
  | inl absent ↦
      let (r, run, u) = insert_absent d.uniq_id i m v absent in
      let later =
        first_pass_twin start (i + 1) ds r (λ q. strcmp_eq q d.uniq_id || taken q) u.valid
          (λ q. ground (arith, u.finds q, same q)) (ground (arith, twin, same d.uniq_id, absent)) in
      rw (run, later)
]

-- What the map finds after the first pass, and the rooms.
record Numbered (start : Start) (i : ℕ) (ds : List RoomData) (m : HashMap Bytes ℕ)
    (rooms : List Room) (r : HashMap Bytes ℕ) : Type 0 where
  early : Early start i ds rooms
  finds : (q : Bytes) → lookup q r ≡ seen_in m (index_of q i ds) q

first_pass-Numbered :
    (start : Start) (i : ℕ) (ds : List RoomData) (m : HashMap Bytes ℕ) (taken : Bytes → Bool)
    → IsValid m
    → ((q : Bytes) → is_some (lookup q m) ≡ taken q)
    → has_twin taken ds ≡ false
    → Returns (first_pass start i ds m) (λ r. Numbered start i ds m r.0 r.1)
unfolding first_pass has_twin index_of Early
first_pass-Numbered start i [] m taken v same distinct =
    (([], m), refl, record { early = refl; finds = λ q. ground arith })
first_pass-Numbered start i (d ∷ ds) m taken v same distinct =
    let absent : lookup d.uniq_id m ≡ none =
      none_of (lookup d.uniq_id m) (taken d.uniq_id) _ (same d.uniq_id) distinct in
    let (r, run, u) = insert_absent d.uniq_id i m v absent in
    let (x, went, n) =
      first_pass-Numbered start (i + 1) ds r (λ q. strcmp_eq q d.uniq_id || taken q) u.valid
        (λ q. ground (arith, u.finds q, same q)) (ground (arith, distinct)) in
    (
      (new_room start i d (map (link_early r) d.adjacent) ∷ x.0, x.1),
      rw (run, went),
      record {
        early = (map (link_early r) d.adjacent, x.0, refl, n.early);
        finds = λ q. n.finds q ∙ ground (arith, u.finds q, absent, lookup_congr q d.uniq_id m);
      },
    )

-- The number that a link of the module's data stands for.
abbrev pub resolve : List RoomData → Option Bytes → Option ℕ
resolve ds none = some room_none
resolve ds (some s) = index_of s 0 ds

unfoldable pub resolve_all : List RoomData → List (Option Bytes) → Option (List ℕ)
resolve_all ds [] = some []
resolve_all ds (a ∷ as') = elim (resolve ds a) [
  | none ↦ none
  | some id ↦ elim (resolve_all ds as') [ none ↦ none | some ids ↦ some (id ∷ ids) ]
]

-- The rooms that stand for `ds` from the number `i` on, linked by the ids of `all`; a link to an id
-- that no room has aborts.
unfoldable pub linked_rooms : Start → List RoomData → ℕ → List RoomData → Run (List Room)
unfolding new_room
linked_rooms start all i [] = ok []
linked_rooms start all i (d ∷ ds) = elim (resolve_all all d.adjacent) [
  | none ↦ abort
  | some ids ↦ linked_rooms start all (i + 1) ds >>= λ rest. ok (new_room start i d ids ∷ rest)
]

abbrev as_run {ℓ} : {A : Type ℓ} → Option A → Run A
as_run none = abort
as_run (some a) = ok a

second_links-resolve_all :
    (all : List RoomData) (m : HashMap Bytes ℕ) (as' : List (Option Bytes))
    → ((q : Bytes) → lookup q m ≡ index_of q 0 all)
    → second_links m as' ≡ as_run (resolve_all all as')
unfolding second_links resolve_all
second_links-resolve_all all m [] h = refl
second_links-resolve_all all m (none ∷ as') h =
    rw (second_links-resolve_all all m as' h) (ground arith)
second_links-resolve_all all m (some s ∷ as') h =
    ground (arith, h s, second_links-resolve_all all m as' h)

second_pass-linked_rooms :
    (start : Start) (all : List RoomData) (m : HashMap Bytes ℕ) (i : ℕ) (ds : List RoomData)
    (rooms : List Room)
    → ((q : Bytes) → lookup q m ≡ index_of q 0 all)
    → Early start i ds rooms
    → second_pass m rooms ≡ linked_rooms start all i ds
unfolding second_pass linked_rooms Early new_room
second_pass-linked_rooms start all m i [] rooms h early = rw early
second_pass-linked_rooms start all m i (d ∷ ds) rooms h (links, rest, shape, early) =
    rw (shape, second_links-resolve_all all m d.adjacent h)
      (ground (arith, second_pass-linked_rooms start all m (i + 1) ds rest h early))

abbrev pub id_or_none : Option ℕ → ℕ
id_or_none none = room_none
id_or_none (some id) = id

-- The rooms of a world with what its room_get_id says of a name.
abbrev pub rooms_and_id : Bytes → World → Run (List Room × ℕ)
rooms_and_id q w = ok (w.rooms, room_get_id q w)

abbrev pub rooms_with : ℕ → List Room → Run (List Room × ℕ)
rooms_with id rooms = ok (rooms, id)

-- For any rooms of a world module, world_init aborts where two rooms have one id or a link names no
-- room. Otherwise the rooms are numbered from 0 in their order, with empty maps, each link is the
-- number of the room that it names, and ROOM_NONE where there is no link; and room_get_id finds the
-- number of every id, and ROOM_NONE for any other name.
pub world_init-linked_rooms :
    (start : Start) (ds : List RoomData) (name q : Bytes)
    → (world_init start ds name >>= rooms_and_id q) ≡ (
        if has_twin (λ s. false) ds
        then abort
        else (linked_rooms start ds 0 ds >>= rooms_with (id_or_none (index_of q 0 ds))))
unfolding world_init room_get_id
world_init-linked_rooms start ds name q =
    let m : HashMap Bytes ℕ = init (length ds * 2) in
    let (v, _, empty) = init-IsValid {K = Bytes} {D = ℕ} (length ds * 2) in
    elim (Bool-cases (has_twin (λ s. false) ds)) [
      | inl twin ↦ rw (twin, first_pass_twin start 0 ds m (λ s. false) v (λ s. rw (empty s)) twin)
      | inr distinct ↦
          let (r, run, n) =
            first_pass-Numbered start 0 ds m (λ s. false) v (λ s. rw (empty s)) distinct in
          let finds : (s : Bytes) → lookup s r.1 ≡ index_of s 0 ds =
            λ s. n.finds s ∙ rw (empty s, seen_in) in
          rw
            (
              distinct,
              run,
              second_pass-linked_rooms start ds r.1 0 ds r.0 finds n.early,
              world_init,
              room_get_id,
            )
            (ground (arith, finds q))
    ]
