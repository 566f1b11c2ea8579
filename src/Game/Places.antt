-- ===== src/Game/Places.antt =====
-- src/server_reqs.c and src/room.c: who is in which room after a child is added or
-- removed.
use netcosm.Base.{
  ℕ, zero, suc, true, ◌&&◌, Option, none, some, List, [], ◌∷◌, get_elem?, set, ◌==◌, if◌then◌else◌,
  ◌≡◌, refl, sym, ◌∙◌, arith, inl, inr, Bool-cases, Option-cases, is_some,
}
use netcosm.Base.Run.{Returns}
use netcosm.Game.{Game, Hook, RoomHooks, hooked, may_move, user_add, user_del, with_room}
use netcosm.Hash.Lookups.{Finds, insert_absent, remove-Finds, lookup_congr}
use netcosm.Hash.Ops.{lookup, remove}
use netcosm.Hash.Table.{IsValid}
use netcosm.Room.{Room, room_user_add, room_user_del}
use netcosm.Server.{Child}
use netcosm.Text.Djb.{string_keys, string_keys-IsLawful}
use netcosm.Text.{Bytes, strcmp_eq}
use netcosm.World.{World, room_get}

-- The child that a room's map of users has for a name.
unfoldable pub user_in : ℕ → Bytes → World → Option ℕ
unfolding room_get
user_in id q w = elim (room_get id w) [ none ↦ none | some room ↦ lookup q room.users ]

-- The maps of users are well-formed.
abbrev pub IsSound : World → Type 0
IsSound w = (id : ℕ) (room : Room) → room_get id w ≡ some room → IsValid room.users

-- `w'` has the users of `w`, but for one name in one room.
pub record Puts (w : World) (id : ℕ) (name : Bytes) (who : Option ℕ) (w' : World) : Type 0 where
  pub sound : IsSound w'
  pub users :
      (i : ℕ) (q : Bytes)
      → user_in i q w' ≡ (if i == id && strcmp_eq q name then who else user_in i q w)
  pub links : (i : ℕ) → is_some (room_get i w') ≡ is_some (room_get i w)

pub user_in-lookup :
    (i : ℕ) (q : Bytes) (room : Room) (w : World)
    → room_get i w ≡ some room
    → user_in i q w ≡ lookup q room.users
unfolding user_in
user_in-lookup i q room w e = rw (user_in, e)

pub user_in_congr :
    (i : ℕ) (a b : Bytes) (w : World) → strcmp_eq a b ≡ true → user_in i a w ≡ user_in i b w
unfolding user_in
user_in_congr i a b w h = elim (Option-cases (room_get i w)) [
  | inl e ↦ rw (user_in, e)
  | inr (room, e) ↦
      user_in-lookup i a room w e
      ∙ lookup_congr a b room.users h
      ∙ sym (user_in-lookup i b room w e)
]

pub get-set :
    (rooms : List Room) (i id : ℕ) (room old : Room)
    → get_elem? rooms id ≡ some old
    → get_elem? (set rooms id room) i ≡ (if i == id then some room else get_elem? rooms i)
get-set [] i id room old h = ground (arith, h)
get-set (r ∷ rs) zero zero room old h = ground arith
get-set (r ∷ rs) (suc i) zero room old h = ground arith
get-set (r ∷ rs) zero (suc id) room old h = ground arith
get-set (r ∷ rs) (suc i) (suc id) room old h = get-set rs i id room old h ∙ ground arith

with_room-Puts :
    (g : Game) (id : ℕ) (room r : Room) (name : Bytes) (who : Option ℕ)
    → IsSound g.world
    → room_get id g.world ≡ some room
    → Finds room.users name who r.users
    → Puts g.world id name who (with_room id r g).world
unfolding room_get user_in
with_room-Puts g id room r name who s e f =
    let at : (i : ℕ)
        → get_elem? (set g.world.rooms id r) i
          ≡ (if i == id then some r else get_elem? g.world.rooms i) =
      λ i. get-set g.world.rooms i id r room e in
    record {
      sound = λ i x h. elim (Bool-cases (i == id)) [
        | inl here ↦ ground (arith, here, at i, h, f.valid)
        | inr there ↦ s i x ((rw (at i, there)) ∙ h)
      ];
      users = λ i q. elim (Bool-cases (i == id)) [
        | inl here ↦
            let same : i ≡ id = ground (arith, here) in rw (user_in, at i, here, f.finds q, same, e)
        | inr there ↦ rw (user_in, at i, there)
      ];
      links = λ i. rw (at i) (ground (arith, e));
    }

-- The hooks change neither the world nor the children.
abbrev pub Quiet : Game → Game → Type 0
Quiet g g' =
    (g'.world ≡ g.world)
    × (g'.server.children ≡ g.server.children)
    × (g'.server.num_clients ≡ g.server.num_clients)

pub hooked-Quiet : (h : Option Hook) (id : ℕ) (c : Child) (g : Game) → Quiet g (hooked h id c g).1
unfolding hooked
hooked-Quiet none id c g = (refl, refl, refl)
hooked-Quiet (some hook) id c g = (refl, refl, refl)

pub may_move-Quiet :
    (hooks : RoomHooks) (sender : Child) (new : ℕ) (g : Game)
    → Quiet g (may_move hooks sender new g).1
unfolding may_move
may_move-Quiet hooks sender new g =
    let (w, c, n) = hooked-Quiet (hooks.hook_enter new) new sender g in
    let g1 = (hooked (hooks.hook_enter new) new sender g).1 in
    let (w', c', n') = hooked-Quiet (hooks.hook_leave sender.room) sender.room sender g1 in
    elim (Bool-cases (hooked (hooks.hook_enter new) new sender g).0) [
      | inl yes' ↦ rw yes' (w' ∙ w, c' ∙ c, n' ∙ n)
      | inr no' ↦ rw no' (w, c, n)
    ]

-- The users of one room have changed, and the children have not.
pub record Placed (g : Game) (id : ℕ) (name : Bytes) (who : Option ℕ) (g' : Game) : Type 0 where
  pub puts : Puts g.world id name who g'.world
  pub children : g'.server.children ≡ g.server.children
  pub num_clients : g'.server.num_clients ≡ g.server.num_clients

pub user_del-Placed :
    (hooks : RoomHooks) (id : ℕ) (child : Child) (name : Bytes) (room : Room) (g : Game)
    → child.user ≡ some name
    → IsSound g.world
    → room_get id g.world ≡ some room
    → Returns (user_del hooks id child g) λ r. Placed g id name none r.1
unfolding user_del room_user_del
user_del-Placed hooks id child name room g named s e =
    let (_, f) = remove-Finds name room.users (s id room e) in
    let r : Room = record room { users = (remove name room.users).2 } in
    let p = with_room-Puts g id room r name none s e f in
    let (w, c, n) = hooked-Quiet (hooks.hook_leave id) id child (with_room id r g) in
    (
      ((remove name room.users).0, (hooked (hooks.hook_leave id) id child (with_room id r g)).1),
      simp (user_del, e, named, room_user_del),
      record { puts = rw w p; children = c; num_clients = n },
    )

pub user_add-Placed :
    (hooks : RoomHooks) (id : ℕ) (child : Child) (name : Bytes) (room : Room) (g : Game)
    → child.user ≡ some name
    → IsSound g.world
    → room_get id g.world ≡ some room
    → lookup name room.users ≡ none
    → Returns (user_add hooks id child g) λ r. Placed g id name (some child.pid) r.1
unfolding user_add room_user_add
user_add-Placed hooks id child name room g named s e absent =
    let (m, run, f) = insert_absent name child.pid room.users (s id room e) absent in
    let r : Room = record room { users = m } in
    let p = with_room-Puts g id room r name (some child.pid) s e f in
    let (w, c, n) = hooked-Quiet (hooks.hook_enter id) id child (with_room id r g) in
    (
      (true, (hooked (hooks.hook_enter id) id child (with_room id r g)).1),
      simp (user_add, e, named, room_user_add, run),
      record { puts = rw w p; children = c; num_clients = n },
    )
