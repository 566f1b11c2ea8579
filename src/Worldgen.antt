-- ===== src/Worldgen.antt =====
-- tools/worldgen.c: the world of empty rooms on a grid that the tool prints as a module. An offset is one
-- of -1, 0 and 1; a coordinate that leaves the grid gives no link.
use Prim.Native.Nat.{ℕ, zero, suc}
use netcosm.Base.{
  ◌+◌, ◌-◌, ◌<◌, ◌≡◌, refl, Option, none, some, List, [], ◌∷◌, ◌++◌, map, ltb, get_or, get_elem?,
  ◌==◌, if◌then◌else◌, arith, Option-cases, inl, inr,
}
use netcosm.Room.{RoomData}
use netcosm.Text.Noun.{digits}
use netcosm.Text.{Bytes, ascii}

abbrev pub max_x : ℕ
max_x = 100

abbrev pub max_y : ℕ
max_y = 100

abbrev pub max_z : ℕ
max_z = 1

pub data Offset : Type 0 where
  back : Offset
  stay : Offset
  ahead : Offset

-- `off_x`, `off_y` and `off_z`
pub record DirectionInfo : Type 0 where
  pub off_x : Offset
  pub off_y : Offset
  pub off_z : Offset

abbrev pub dir : Offset → Offset → Offset → DirectionInfo
dir x y z = record { off_x = x; off_y = y; off_z = z }

-- The directions from north on, clockwise, then up and down.
abbrev pub dirs : List DirectionInfo
dirs =
    dir stay ahead stay
    ∷ dir ahead ahead stay
    ∷ dir ahead stay stay
    ∷ dir ahead back stay
    ∷ dir stay back stay
    ∷ dir back back stay
    ∷ dir back stay stay
    ∷ dir back ahead stay
    ∷ dir stay stay ahead
    ∷ dir stay stay back
    ∷ []

abbrev pub Spot : Type 0
Spot = ℕ × ℕ × ℕ

-- A coordinate by an offset, where it stays within the grid.
unfoldable pub moved : ℕ → Offset → ℕ → Option ℕ
moved bound back x = if x == 0 then none else if ltb (x - 1) bound then some (x - 1) else none
moved bound stay x = if ltb x bound then some x else none
moved bound ahead x = if ltb (x + 1) bound then some (x + 1) else none

unfoldable pub target : DirectionInfo → Spot → Option Spot
unfolding moved
target d (x, y, z) = elim (moved max_x d.off_x x) [
  | none ↦ none
  | some x' ↦ elim (moved max_y d.off_y y) [
    | none ↦ none
    | some y' ↦ elim (moved max_z d.off_z z) [ none ↦ none | some z' ↦ some (x', y', z') ]
  ]
]

unfoldable pub room_name : Spot → Bytes
room_name (x, y, z) =
    ascii "room_" ++ (digits x ++ (ascii "_" ++ (digits y ++ (ascii "_" ++ digits z))))

unfoldable pub link_name : Option Spot → Option Bytes
unfolding room_name
link_name none = none
link_name (some s) = some (room_name s)

-- The entry of a room; there are no links in and out.
unfoldable pub room_entry : Spot → RoomData
unfolding room_name link_name target
room_entry (x, y, z) = record {
  uniq_id = room_name (x, y, z);
  name =
      ascii "Room ("
      ++ (digits x ++ (ascii "," ++ (digits y ++ (ascii "," ++ (digits z ++ ascii ")")))));
  desc = ascii "You are in a room...";
  adjacent = map (λ d. link_name (target d (x, y, z))) dirs ++ none ∷ none ∷ [];
}

-- The three loops, from a coordinate on for as many rounds as are left.
unfoldable pub each_z : ℕ → ℕ → ℕ → ℕ → List RoomData
unfolding room_entry
each_z zero x y z = []
each_z (suc n) x y z = room_entry (x, y, z) ∷ each_z n x y (z + 1)

unfoldable pub each_y : ℕ → ℕ → ℕ → List RoomData
unfolding each_z
each_y zero x y = []
each_y (suc n) x y = each_z max_z x y 0 ++ each_y n x (y + 1)

unfoldable pub each_x : ℕ → ℕ → List RoomData
unfolding each_y
each_x zero x = []
each_x (suc n) x = each_y max_y x 0 ++ each_x n (x + 1)

unfoldable pub netcosm_world : List RoomData
unfolding each_x
netcosm_world = each_x max_x 0

-- The opposite of a direction, as the third pass of world_init has it; in and out are the last two.
unfoldable pub opposite : ℕ → ℕ
opposite i = get_or (4 ∷ 5 ∷ 6 ∷ 7 ∷ 0 ∷ 1 ∷ 2 ∷ 3 ∷ 9 ∷ 8 ∷ 11 ∷ 10 ∷ []) i i

abbrev against : Offset → Offset
against back = ahead
against stay = stay
against ahead = back

abbrev reverse : DirectionInfo → DirectionInfo
reverse d = dir (against d.off_x) (against d.off_y) (against d.off_z)

opposite-reverse :
    (i : ℕ) (d : DirectionInfo)
    → get_elem? dirs i ≡ some d
    → get_elem? dirs (opposite i) ≡ some (reverse d)
unfolding opposite
opposite-reverse zero d h = ground (arith, h)
opposite-reverse (suc zero) d h = ground (arith, h)
opposite-reverse (suc (suc zero)) d h = ground (arith, h)
opposite-reverse (suc (suc (suc zero))) d h = ground (arith, h)
opposite-reverse (suc (suc (suc (suc zero)))) d h = ground (arith, h)
opposite-reverse (suc (suc (suc (suc (suc zero))))) d h = ground (arith, h)
opposite-reverse (suc (suc (suc (suc (suc (suc zero)))))) d h = ground (arith, h)
opposite-reverse (suc (suc (suc (suc (suc (suc (suc zero))))))) d h = ground (arith, h)
opposite-reverse (suc (suc (suc (suc (suc (suc (suc (suc zero)))))))) d h = ground (arith, h)
opposite-reverse (suc (suc (suc (suc (suc (suc (suc (suc (suc zero))))))))) d h = ground (arith, h)
opposite-reverse (suc (suc (suc (suc (suc (suc (suc (suc (suc (suc i)))))))))) d h = cc

moved-against :
    (bound : ℕ) (o : Offset) (x x' : ℕ)
    → x < bound
    → moved bound o x ≡ some x'
    → (x' < bound) × (moved bound (against o) x' ≡ some x)
unfolding moved
moved-against bound back x x' h e = (ground (arith, h, e), ground (arith, h, e))
moved-against bound stay x x' h e = (ground (arith, h, e), ground (arith, h, e))
moved-against bound ahead x x' h e = (ground (arith, h, e), ground (arith, h, e))

-- A spot of the grid.
abbrev pub IsSpot : Spot → Type 0
IsSpot (x, y, z) = (x < max_x) × (y < max_y) × (z < max_z)

-- Every link of the grid is two-way: where a direction leads from a spot of the grid to another, that
-- is a spot of the grid, and the opposite direction, as world_init pairs them, leads back.
pub target-opposite :
    (i : ℕ) (d : DirectionInfo) (s t : Spot)
    → get_elem? dirs i ≡ some d
    → IsSpot s
    → target d s ≡ some t
    → IsSpot t
      × ((d' : DirectionInfo) × (get_elem? dirs (opposite i) ≡ some d') × (target d' t ≡ some s))
unfolding target
target-opposite i d (x, y, z) t h (a, b, c) e = elim (Option-cases (moved max_x d.off_x x)) [
  | inl out ↦ ground (arith, out, e)
  | inr (x1, ex) ↦ elim (Option-cases (moved max_y d.off_y y)) [
    | inl out ↦ ground (arith, ex, out, e)
    | inr (y1, ey) ↦ elim (Option-cases (moved max_z d.off_z z)) [
      | inl out ↦ ground (arith, ex, ey, out, e)
      | inr (z1, ez) ↦
          let (bx, rx) = moved-against max_x d.off_x x x1 a ex in
          let (by', ry) = moved-against max_y d.off_y y y1 b ey in
          let (bz, rz) = moved-against max_z d.off_z z z1 c ez in
          let there : Spot = (x1, y1, z1) in
          let reached : t ≡ there = ground (arith, ex, ey, ez, e) in
          let home : target (reverse d) there ≡ some (x, y, z) = rw (target, rx, ry, rz) refl in
          rw reached ((bx, by', bz), (reverse d, opposite-reverse i d h, home))
    ]
  ]
]
