-- ===== src/Game/Reaping.antt =====
-- src/server.c: children come and go, and num_clients counts them.
use netcosm.Base.{
  ℕ, take, ◌+◌, ◌-◌, List, [], ◌∷◌, length, ◌≡◌, sym, ◌∙◌, arith, inl, inr, Option-cases,
}
use netcosm.Base.Run.{ok, AfterOk, AfterOk-bind, AfterOk-imp, AfterOk-ok}
use netcosm.Game.{
  Game, RoomHooks, drop_child, handle_disconnects, new_connection, req_move_room, req_set_room,
  user_del,
}
use netcosm.Game.Counting.{
  Still, Same, user_del-Still, change_child-Same, req_move_room-Same, length-drop_child,
}
use netcosm.Server.{Child, find_child}
use netcosm.Stream.{le_value}
use netcosm.Text.{Bytes}

-- num_clients is the number of children, and so it stays under changes of a child.
abbrev pub IsCounted : Game → Type 0
IsCounted g = g.server.num_clients ≡ length g.server.children

-- What happens to the server's children, request by request: a connection, the end of some children,
-- a request to move, and one to set the room.
pub data Step (hooks : RoomHooks) : Game → Game → Type 0 where
  connect : (pid : ℕ) (g : Game) → Step hooks g (new_connection pid g)
  reap : (pids : List ℕ) (g g' : Game) → handle_disconnects hooks pids g ≡ ok g' → Step hooks g g'
  move :
      (text : Bytes) (sender : Child) (g g' : Game)
      → req_move_room hooks text sender g ≡ ok g'
      → Step hooks g g'
  set_room :
      (text : Bytes) (sender : Child) (g g' : Game)
      → req_set_room hooks text sender g ≡ ok g'
      → Step hooks g g'

abbrev without : ℕ → Game → Game
without pid g =
    let sv = g.server in
    record g {
      server = record sv {
        num_clients = sv.num_clients - 1;
        children = drop_child pid sv.children;
      };
    }

handle_disconnects-IsCounted :
    (hooks : RoomHooks) (pids : List ℕ) (g : Game)
    → IsCounted g
    → AfterOk
        (λ g'. IsCounted g' × (length g'.server.children + length pids ≡ length g.server.children))
        (handle_disconnects hooks pids g)
unfolding handle_disconnects AfterOk
handle_disconnects-IsCounted hooks [] g h = (h, omega arith)
handle_disconnects-IsCounted hooks (pid ∷ pids) g h =
    elim (Option-cases (find_child pid g.server.children)) [
      | inl unknown ↦ rw (AfterOk, unknown) tt
      | inr (c, found) ↦
          rw (handle_disconnects, found)
            (AfterOk-bind (λ r. Still g r.1) _ (user_del hooks c.room c g)
              (λ r. handle_disconnects hooks pids (without pid r.1))
              (user_del-Still hooks c.room c g)
              (λ r (n, cs).
                let d : length (drop_child pid r.1.server.children) + 1 ≡ length g.server.children =
                  rw cs (length-drop_child pid g.server.children c found) in
                AfterOk-imp _ _ (handle_disconnects hooks pids (without pid r.1))
                  (λ g' (k, l). (k, omega (arith, l, d)))
                  (handle_disconnects-IsCounted hooks pids (without pid r.1)
                    (omega (arith, n, h, d)))))
    ]

req_set_room-Same :
    (hooks : RoomHooks) (text : Bytes) (sender : Child) (g : Game)
    → AfterOk (Same g) (req_set_room hooks text sender g)
unfolding req_set_room
req_set_room-Same hooks text sender g = change_child-Same hooks sender (le_value (take 4 text)) g

step-IsCounted : (hooks : RoomHooks) (g g' : Game) → Step hooks g g' → IsCounted g → IsCounted g'
unfolding new_connection
step-IsCounted hooks _ _ (connect pid g) h = omega (arith, h)
step-IsCounted hooks _ _ (reap pids g g' e) h =
    (AfterOk-ok _ (handle_disconnects hooks pids g) g' (handle_disconnects-IsCounted hooks pids g h)
      e).0
step-IsCounted hooks _ _ (move text sender g g' e) h =
    let (n, l) =
      AfterOk-ok (Same g) (req_move_room hooks text sender g) g'
        (req_move_room-Same hooks text sender g) e in
    n ∙ h ∙ sym l
step-IsCounted hooks _ _ (set_room text sender g g' e) h =
    let (n, l) =
      AfterOk-ok (Same g) (req_set_room hooks text sender g) g'
        (req_set_room-Same hooks text sender g) e in
    n ∙ h ∙ sym l

-- Some steps, one after the other.
pub data Reach (hooks : RoomHooks) : Game → Game → Type 0 where
  stay : (g : Game) → Reach hooks g g
  go_on : (a b c : Game) → Step hooks a b → Reach hooks b c → Reach hooks a c

-- In whatever order children connect, end, move and have their room set, the server's count of clients
-- is the number of its children afterwards, if it is so before.
pub Reach-IsCounted :
    (hooks : RoomHooks) (g g' : Game) → Reach hooks g g' → IsCounted g → IsCounted g'
Reach-IsCounted hooks _ _ (stay g) h = h
Reach-IsCounted hooks _ _ (go_on g b g' s r) h =
    Reach-IsCounted hooks b g' r (step-IsCounted hooks g b s h)
