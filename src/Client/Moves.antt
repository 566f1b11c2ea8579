-- ===== src/Client/Moves.antt =====
-- src/client_reqs.c: the requests of a child's commands, and `client_move` with its table.
use mathlib.Core.Option
use netcosm.Base.{ℕ, Bool, false, Option, List, [], ◌∷◌, ◌++◌, length}
use netcosm.Base.Run.{Run}
use netcosm.Client.{ReqData, type_boolean}
use netcosm.Hash.Ops.{lookup, insert_pairs}
use netcosm.Hash.Types.{HashMap, Node, init}
use netcosm.Stream.{le_bytes}
use netcosm.Text.Djb.{string_keys}
use netcosm.Text.{Bytes, ascii, all_lower}

-- enum direction_t, from src/room.h, as the server reads it: an index into `adjacent`
pub data Direction : Type 0 where
  dir_n : Direction
  dir_ne : Direction
  dir_e : Direction
  dir_se : Direction
  dir_s : Direction
  dir_sw : Direction
  dir_w : Direction
  dir_nw : Direction
  dir_up : Direction
  dir_dn : Direction
  dir_in : Direction
  dir_ot : Direction

unfoldable pub direction_code : Direction → ℕ
direction_code dir_n = 0
direction_code dir_ne = 1
direction_code dir_e = 2
direction_code dir_se = 3
direction_code dir_s = 4
direction_code dir_sw = 5
direction_code dir_w = 6
direction_code dir_nw = 7
direction_code dir_up = 8
direction_code dir_dn = 9
direction_code dir_in = 10
direction_code dir_ot = 11

-- The local table `dirs`.
unfoldable pub dirs : List (Node Bytes Direction)
dirs =
    (ascii "N", dir_n)
    ∷ (ascii "NORTH", dir_n)
    ∷ (ascii "NE", dir_ne)
    ∷ (ascii "NORTHEAST", dir_n)
    ∷ (ascii "E", dir_e)
    ∷ (ascii "EAST", dir_e)
    ∷ (ascii "SE", dir_se)
    ∷ (ascii "SOUTHEAST", dir_se)
    ∷ (ascii "S", dir_s)
    ∷ (ascii "SOUTH", dir_s)
    ∷ (ascii "SW", dir_sw)
    ∷ (ascii "SOUTHWEST", dir_sw)
    ∷ (ascii "W", dir_w)
    ∷ (ascii "WEST", dir_w)
    ∷ (ascii "NW", dir_nw)
    ∷ (ascii "NORTHWEST", dir_nw)
    ∷ (ascii "U", dir_up)
    ∷ (ascii "UP", dir_up)
    ∷ (ascii "D", dir_dn)
    ∷ (ascii "DOWN", dir_dn)
    ∷ (ascii "IN", dir_in)
    ∷ (ascii "OUT", dir_ot)
    ∷ []

unfoldable pub dir_map : Run (HashMap Bytes Direction)
unfolding dirs insert_pairs init
dir_map = insert_pairs dirs (init (length dirs))

-- What a command asks of the server: the code and the data of one call of send_master. A string
-- goes with its NUL.
abbrev pub Request : Type 0
Request = ℕ × Bytes

abbrev pub with_nul : Bytes → Bytes
with_nul s = s ++ 0 ∷ []

unfoldable pub client_change_state : ℕ → Request
unfolding le_bytes
client_change_state state = (3, le_bytes 4 state)

unfoldable pub client_change_user : Bytes → Request
client_change_user user = (4, with_nul user)

unfoldable pub client_change_room : ℕ → Request
unfolding le_bytes
client_change_room id = (9, le_bytes 4 id)

unfoldable pub client_look_at : Bytes → Request
unfolding all_lower
client_look_at obj = (19, with_nul (all_lower obj))

-- A missing object makes no request but a message.
unfoldable pub client_take : Option Bytes → Option Request
unfolding all_lower
client_take obj = Option.map (λ s. (20, with_nul (all_lower s))) obj

unfoldable pub client_inventory : Request
client_inventory = (21, [])

unfoldable pub client_drop : Bytes → Request
client_drop what = (22, with_nul what)

unfoldable pub client_user_list : Request
client_user_list = (23, [])

-- The request of client_move; where there is none, it prints that the direction is unknown.
unfoldable pub client_move : HashMap Bytes Direction → Bytes → Option Request
unfolding lookup direction_code le_bytes
client_move m dir = Option.map (λ d. (10, le_bytes 4 (direction_code d))) (lookup dir m)

-- What client_move returns after the answer.
unfoldable pub moved : ReqData → Bool
moved (type_boolean b) = b
moved _ = false
