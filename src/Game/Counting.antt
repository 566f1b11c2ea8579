-- ===== src/Game/Counting.antt =====
-- src/server_reqs.c and src/room.c: moves keep the number of children.
use netcosm.Base.{
  ℕ, take, get_elem?, ◌++◌, ◌+◌, Bool, some, List, [], ◌∷◌, length, ◌==◌, ◌≡◌, refl, sym, ap, subst,
  ◌∙◌, arith, inl, inr, Bool-cases, Option-cases,
}
use netcosm.Base.Run.{ok, ◌>>=◌, AfterOk, AfterOk-bind, AfterOk-any, AfterOk-imp}
use netcosm.Game.{
  lift, Game, RoomHooks, drop_child, req_move_room, user_del, user_add, hooked, child_set_room,
  take_link, move_to, may_move, with_children, with_room,
}
use netcosm.Game.Places.{hooked-Quiet, may_move-Quiet}
use netcosm.Room.{Room, room_user_add, room_user_del}
use netcosm.Server.{Child, find_child, change_child, post, to_child}
use netcosm.Text.{Bytes, ascii}
use netcosm.Wire.{send_packet}
use netcosm.Stream.{le_bytes, le_value, room_none}
use netcosm.Server.Handlers.{send_msg}
use netcosm.World.{room_get}

-- The children and their count are the same.
abbrev pub Still : Game → Game → Type 0
Still g g' =
    (g'.server.num_clients ≡ g.server.num_clients) × (g'.server.children ≡ g.server.children)

-- As many children as before, and their count is the same.
abbrev pub Same : Game → Game → Type 0
Same g g' =
    (g'.server.num_clients ≡ g.server.num_clients)
    × (length g'.server.children ≡ length g.server.children)

pub user_add-Still :
    (hooks : RoomHooks) (id : ℕ) (child : Child) (g : Game)
    → AfterOk (λ r. Still g r.1) (user_add hooks id child g)
unfolding user_add room_user_add hooked AfterOk
user_add-Still hooks id child g = elim (Option-cases (room_get id g.world)) [
  | inl out ↦ rw (AfterOk, out) tt
  | inr (room, e) ↦ elim (Option-cases child.user) [
    | inl nameless ↦ rw (AfterOk, e, nameless) (refl, refl)
    | inr (name, named) ↦
        let entered : Bool × Room → Bool × Game =
          λ r. (r.0, (hooked (hooks.hook_enter id) id child (with_room id r.1 g)).1) in
        let keeps : (r : Bool × Room) → Still g (entered r).1 = λ r.
          let (_, c, n) = hooked-Quiet (hooks.hook_enter id) id child (with_room id r.1 g) in
          (n, c) in
        let run : user_add hooks id child g
            ≡ (room_user_add (some name) child.pid room >>= λ r. ok (entered r)) =
          simp (user_add, e, named) in
        subst (AfterOk (λ r. Still g r.1)) (sym run) (
          AfterOk-bind (λ r. Unit) (λ r. Still g r.1) (room_user_add (some name) child.pid room)
            (λ r. ok (entered r)) (AfterOk-any _ _ (λ r. tt)) (λ r h. keeps r))
  ]
]

pub user_del-Still :
    (hooks : RoomHooks) (id : ℕ) (child : Child) (g : Game)
    → AfterOk (λ r. Still g r.1) (user_del hooks id child g)
unfolding user_del room_user_del hooked AfterOk
user_del-Still hooks id child g = ground arith

length-change_child :
    (pid : ℕ) (f : Child → Child) (cs : List Child) → length (change_child pid f cs) ≡ length cs
unfolding change_child
length-change_child pid f [] = refl
length-change_child pid f (c ∷ cs) = ground (arith, length-change_child pid f cs)

pub length-drop_child :
    (pid : ℕ) (cs : List Child) (c : Child)
    → find_child pid cs ≡ some c
    → length (drop_child pid cs) + 1 ≡ length cs
unfolding find_child drop_child
length-drop_child pid [] c h = absurd (ground (arith, h))
length-drop_child pid (d ∷ cs) c h = ground (arith, h, length-drop_child pid cs c)

pub change_child-Same :
    (hooks : RoomHooks) (child : Child) (id : ℕ) (g : Game)
    → AfterOk (Same g) (child_set_room hooks child id g)
unfolding child_set_room AfterOk
change_child-Same hooks child id g =
    let moved =
      with_children (change_child child.pid (λ c. record c { room = id }) g.server.children) g in
    AfterOk-bind (λ r. Still moved r.1) (Same g)
      (user_add hooks id (record child { room = id }) moved) (λ r. ok r.1)
      (user_add-Still hooks id (record child { room = id }) moved)
      (λ r (n, c). (
        n,
        ap length c ∙ length-change_child child.pid (λ c. record c { room = id }) g.server.children,
      ))

may_move-Same :
    (hooks : RoomHooks) (sender : Child) (new : ℕ) (g : Game)
    → Same g (may_move hooks sender new g).1
may_move-Same hooks sender new g =
    let (_, c, n) = may_move-Quiet hooks sender new g in (n, ap length c)

Same-trans : (a b c : Game) → Same a b → Same b c → Same a c
Same-trans a b c (n, l) (n', l') = (n' ∙ n, l' ∙ l)

move_to-Same :
    (hooks : RoomHooks) (sender : Child) (new : ℕ) (g : Game)
    → AfterOk (λ r. Same g r.1) (move_to hooks sender new g)
unfolding move_to AfterOk
move_to-Same hooks sender new g =
    let g1 = (may_move hooks sender new g).1 in
    let s = may_move-Same hooks sender new g in
    elim (Bool-cases (may_move hooks sender new g).0) [
      | inr refused ↦ rw (move_to, refused, AfterOk) s
      | inl allowed ↦
          rw (move_to, allowed)
            (AfterOk-bind (λ r. Same g r.1) (λ r. Same g r.1) (user_del hooks sender.room sender g1)
              (λ r. child_set_room hooks sender new r.1 >>= λ g2. ok (1, g2))
              (AfterOk-imp (λ r. Still g1 r.1) (λ r. Same g r.1)
                (user_del hooks sender.room sender g1)
                (λ r (n, c). Same-trans g g1 r.1 s (n, ap length c))
                (user_del-Still hooks sender.room sender g1))
              (λ r h.
                AfterOk-bind (Same r.1) (λ r. Same g r.1) (child_set_room hooks sender new r.1)
                  (λ g2. ok (1, g2)) (change_child-Same hooks sender new r.1)
                  (λ g2 k. Same-trans g r.1 g2 h k)))
    ]

lift-Same : (pid cmd : ℕ) (text : Bytes) (g : Game) → AfterOk (Same g) (lift (post pid cmd text) g)
unfolding post AfterOk
lift-Same pid cmd text g =
    AfterOk-bind (λ sv. Still g (record g { server = sv })) (Same g) (post pid cmd text g.server)
      (λ sv. ok (record g { server = sv }))
      (AfterOk-bind (λ ps. Unit) (λ sv. Still g (record g { server = sv })) (send_packet cmd text)
        (λ ps. ok (record g.server { sent = g.server.sent ++ to_child pid ps }))
        (AfterOk-any _ _ (λ ps. tt)) (λ ps h. (refl, refl)))
      (λ sv (n, c). (n, ap length c))

take_link-Same :
    (hooks : RoomHooks) (sender : Child) (new : ℕ) (g : Game)
    → AfterOk (λ r. Same g r.1) (take_link hooks sender new g)
unfolding take_link send_msg AfterOk
take_link-Same hooks sender new g = elim (Bool-cases (new == room_none)) [
  | inl nowhere ↦
      rw (take_link, nowhere)
        (AfterOk-bind (Same g) (λ r. Same g r.1)
          (lift (post sender.pid 1 (ascii "You cannot go that way.\n")) g) (λ g. ok (0, g))
          (lift-Same sender.pid 1 (ascii "You cannot go that way.\n") g) (λ g' h. h))
  | inr somewhere ↦ elim (Option-cases (room_get new g.world)) [
    | inl out ↦ rw (take_link, AfterOk, somewhere, out) tt
    | inr (room, e) ↦ rw (take_link, somewhere, e) (move_to-Same hooks sender new g)
  ]
]

pub req_move_room-Same :
    (hooks : RoomHooks) (text : Bytes) (sender : Child) (g : Game)
    → AfterOk (Same g) (req_move_room hooks text sender g)
unfolding req_move_room AfterOk
req_move_room-Same hooks text sender g = elim (Option-cases (room_get sender.room g.world)) [
  | inl out ↦ rw (AfterOk, out) tt
  | inr (current, e) ↦ elim (Option-cases (get_elem? current.adjacent (le_value (take 4 text)))) [
    | inl beyond ↦ rw (AfterOk, e, beyond) tt
    | inr (new, link) ↦
        rw (req_move_room, e, link)
          (AfterOk-bind (λ r. Same g r.1) (Same g) (take_link hooks sender new g)
            (λ r. lift (post sender.pid 10 (le_bytes 4 r.0)) r.1)
            (take_link-Same hooks sender new g)
            (λ r h.
              AfterOk-imp (Same r.1) (Same g) (lift (post sender.pid 10 (le_bytes 4 r.0)) r.1)
                (λ g' k. Same-trans g r.1 g' h k) (lift-Same sender.pid 10 (le_bytes 4 r.0) r.1)))
  ]
]
