-- ===== src/Game.antt =====
-- src/room.c, src/server_reqs.c and src/server.c: the children in the rooms. Children come, log in, move
-- and go. A hook of a room is a parameter: it answers, and may have packets sent, but does not itself
-- change a room or a child.
pub mod Places
pub mod Moves
pub mod Counting
pub mod Reaping
use netcosm.Base.{
  ℕ, suc, ◌+◌, ◌-◌, ◌*◌, Bool, true, false, not, ◌&&◌, Option, none, some, List, [], ◌∷◌, ◌++◌,
  take, get_elem?, set, ◌==◌, if◌then◌else◌,
}
use netcosm.Base.Run.{Run, ok, abort, ◌>>=◌}
use netcosm.Room.{Room, room_user_add, room_user_del}
use netcosm.Server.{Child, Server, find_child, change_child, post}
use netcosm.Server.Handlers.{send_msg}
use netcosm.Stream.{le_bytes, le_value, room_none}
use netcosm.Text.{Bytes, ascii}
use netcosm.World.{World, room_get}

pub record Game : Type 0 where
  pub server : Server
  pub world : World

-- The answer of a hook, and the packets that it has sent.
abbrev pub Hook : Type 0
Hook = ℕ → Child → Game → Bool × List (ℕ × Bytes)

-- The hooks of the rooms that have them.
pub record RoomHooks : Type 0 where
  pub hook_enter : ℕ → Option Hook
  pub hook_leave : ℕ → Option Hook

abbrev pub with_sent : List (ℕ × Bytes) → Game → Game
with_sent packets g = record g { server = record g.server { sent = g.server.sent ++ packets } }

abbrev pub with_room : ℕ → Room → Game → Game
with_room id room g = record g { world = record g.world { rooms = set g.world.rooms id room } }

abbrev pub with_children : List Child → Game → Game
with_children cs g = record g { server = record g.server { children = cs } }

-- The call of a hook that may be missing; a missing hook allows everything.
unfoldable pub hooked : Option Hook → ℕ → Child → Game → Bool × Game
hooked none id child g = (true, g)
hooked (some hook) id child g =
    let (allowed, packets) = hook id child g in (allowed, with_sent packets g)

-- A room's id that is out of the array of rooms makes the code read beyond it: it aborts here.
unfoldable pub user_add : RoomHooks → ℕ → Child → Game → Run (Bool × Game)
unfolding hooked room_user_add
user_add hooks id child g = elim (room_get id g.world) [
  | none ↦ abort
  | some room ↦ elim child.user [
    | none ↦ ok (false, g)
    | some name ↦ room_user_add (some name) child.pid room >>= λ r.
        ok (r.0, (hooked (hooks.hook_enter id) id child (with_room id r.1 g)).1)
  ]
]

unfoldable pub user_del : RoomHooks → ℕ → Child → Game → Run (Bool × Game)
unfolding hooked room_user_del
user_del hooks id child g = elim (room_get id g.world) [
  | none ↦ abort
  | some room ↦ elim child.user [
    | none ↦ ok (false, g)
    | some name ↦
        let r = room_user_del (some name) room in
        ok (r.0, (hooked (hooks.hook_leave id) id child (with_room id r.1 g)).1)
  ]
]

-- `child->room` keeps its value.
unfoldable pub room_user_teleport : RoomHooks → Child → ℕ → Game → Run Game
unfolding user_add user_del
room_user_teleport hooks child id g =
    if child.room == id
    then ok g
    else (user_del hooks child.room child g >>= λ r. user_add hooks id child r.1 >>= λ r. ok r.1)

unfoldable pub child_set_room : RoomHooks → Child → ℕ → Game → Run Game
unfolding user_add change_child
child_set_room hooks child id g =
    let moved =
      with_children (change_child child.pid (λ c. record c { room = id }) g.server.children) g in
    user_add hooks id (record child { room = id }) moved >>= λ r. ok r.1

unfoldable pub req_set_room : RoomHooks → Bytes → Child → Game → Run Game
unfolding child_set_room le_value
req_set_room hooks text sender g = child_set_room hooks sender (le_value (take 4 text)) g

-- Both hooks are asked, the second one only where the first allows the move.
unfoldable pub may_move : RoomHooks → Child → ℕ → Game → Bool × Game
unfolding hooked
may_move hooks sender new g =
    let (entered, g1) = hooked (hooks.hook_enter new) new sender g in
    if entered then hooked (hooks.hook_leave sender.room) sender.room sender g1 else (false, g1)

-- The move itself, and the status that is sent.
unfoldable pub move_to : RoomHooks → Child → ℕ → Game → Run (ℕ × Game)
unfolding may_move user_del child_set_room
move_to hooks sender new g =
    let (allowed, g1) = may_move hooks sender new g in
    if allowed
    then (user_del hooks sender.room sender g1 >>= λ r.
        child_set_room hooks sender new r.1 >>= λ g2. ok (1, g2))
    else ok (0, g1)

abbrev pub lift : (Server → Run Server) → Game → Run Game
lift f g = f g.server >>= λ sv. ok (record g { server = sv })

-- The status of a move along a link.
unfoldable pub take_link : RoomHooks → Child → ℕ → Game → Run (ℕ × Game)
unfolding move_to send_msg
take_link hooks sender new g =
    if new == room_none
    then (lift (send_msg sender.pid (ascii "You cannot go that way.\n")) g >>= λ g. ok (0, g))
    else elim (room_get new g.world) [ none ↦ abort | some _ ↦ move_to hooks sender new g ]

-- `adjacent[dir]` is not checked: a direction out of the array aborts here.
unfoldable pub req_move_room : RoomHooks → Bytes → Child → Game → Run Game
unfolding take_link post le_value le_bytes
req_move_room hooks text sender g = elim (room_get sender.room g.world) [
  | none ↦ abort
  | some current ↦ elim (get_elem? current.adjacent (le_value (take 4 text))) [
    | none ↦ abort
    | some new ↦
        take_link hooks sender new g >>= λ r. lift (post sender.pid 10 (le_bytes 4 r.0)) r.1
  ]
]

-- What new_connection_cb does in the parent, for the PID that fork returns.
unfoldable pub new_connection : ℕ → Game → Game
new_connection pid g =
    let child : Child = record { pid = pid; state = 0; room = 0; user = none; raw_mode = false } in
    let sv = g.server in
    record g {
      server = record sv { num_clients = sv.num_clients + 1; children = child ∷ sv.children };
    }

-- hash_remove(child_map, &pid)
unfoldable pub drop_child : ℕ → List Child → List Child
drop_child pid [] = []
drop_child pid (c ∷ cs) = if c.pid == pid then cs else c ∷ drop_child pid cs

-- The loop of handle_disconnects over the PIDs that waitpid returns; one of no child is read through a
-- null pointer.
unfoldable pub handle_disconnects : RoomHooks → List ℕ → Game → Run Game
unfolding find_child user_del drop_child
handle_disconnects hooks [] g = ok g
handle_disconnects hooks (pid ∷ pids) g = elim (find_child pid g.server.children) [
  | none ↦ abort
  | some child ↦ user_del hooks child.room child g >>= λ r.
      let sv = r.1.server in
      handle_disconnects hooks pids (record r.1 {
        server = record sv {
          num_clients = sv.num_clients - 1;
          children = drop_child pid sv.children;
        };
      })
]
