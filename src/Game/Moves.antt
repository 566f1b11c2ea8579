-- ===== src/Game/Moves.antt =====
-- src/server_reqs.c and src/room.c: who is in which room after a request to move.
use netcosm.Base.{ℕ, Bool, ◌&&◌, none, some, ◌∷◌, ◌==◌, if◌then◌else◌, ◌≡◌}
use netcosm.Game.{Game}
use netcosm.Game.Places.{IsSound, user_in}
use netcosm.Room.{Room}
use netcosm.Server.{Child, change_child}
use netcosm.Stream.{le_bytes}
use netcosm.Text.{Bytes, strcmp_eq}
use netcosm.World.{World}

abbrev pub to_room : ℕ → Child → Child
to_room id c = record c { room = id }

-- What a request to move does where the move is allowed or not: the users, the child, and no more.
pub record Moved (sender : Child) (name : Bytes) (new : ℕ) (moves : Bool) (g g' : Game)
    : Type 0 where
  pub sound : IsSound g'.world
  pub users :
      (i : ℕ) (q : Bytes)
      → user_in i q g'.world ≡ (
          if moves && strcmp_eq q name
          then if i == new then some sender.pid else none
          else user_in i q g.world)
  pub children : g'.server.children ≡ (
      if moves then change_child sender.pid (to_room new) g.server.children else g.server.children)
  pub num_clients : g'.server.num_clients ≡ g.server.num_clients

-- The answer to a request to move.
abbrev pub move_reply : ℕ → Bool → ℕ × Bytes
move_reply pid moves = (pid, 10 ∷ le_bytes 4 (if moves then 1 else 0))
