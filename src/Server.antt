-- ===== src/Server.antt =====
-- src/server_reqs.c: the requests of the children, and the answers. A child is known by its PID; the
-- list of children stands in the order in which hash_iterate visits `child_map`. What is written to
-- a child's pipe is appended to `sent`.
pub mod Handlers
pub mod Dispatch
pub mod Saving
pub mod Options
pub mod Broadcast
pub mod Account
use netcosm.Base.{ℕ, Bool, Option, none, some, List, [], ◌∷◌, ◌++◌, map, ◌==◌, if◌then◌else◌}
use netcosm.Base.Run.{Run, ok, ◌>>=◌}
use netcosm.Text.{Bytes}
use netcosm.Wire.{send_packet}

-- struct child_data, without its pipes, watchers and address
pub record Child : Type 0 where
  pub pid : ℕ
  pub state : ℕ
  pub room : ℕ
  pub user : Option Bytes
  pub raw_mode : Bool

-- The server as the requests see it: `packet` is the static buffer of handle_child_req.
pub record Server : Type 0 where
  pub children : List Child
  pub sent : List (ℕ × Bytes)
  pub packet : Bytes
  pub num_clients : ℕ

-- hash_lookup(child_map, &pid)
unfoldable pub find_child : ℕ → List Child → Option Child
find_child pid [] = none
find_child pid (c ∷ cs) = if c.pid == pid then some c else find_child pid cs

-- A change through the pointer to a child.
unfoldable pub change_child : ℕ → (Child → Child) → List Child → List Child
change_child pid f [] = []
change_child pid f (c ∷ cs) = if c.pid == pid then f c ∷ cs else c ∷ change_child pid f cs

abbrev pub to_child : ℕ → List Bytes → List (ℕ × Bytes)
to_child pid ps = map (λ p. (pid, p)) ps

-- `send_packet(child, cmd, data, datalen)`
unfoldable pub post : ℕ → ℕ → Bytes → Server → Run Server
post pid cmd text sv =
    send_packet cmd text >>= λ ps. ok (record sv { sent = sv.sent ++ to_child pid ps })
