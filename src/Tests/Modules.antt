-- ===== src/Tests/Modules.antt =====
-- The console of dunnet and the grid of worldgen at concrete input.
use netcosm.Base.{◌≡◌, refl, false, true, some, List, [], ◌∷◌, get_elem?, take, ◌-◌, arith}
use netcosm.Dunnet.Console.{
  at_prompt, console_lines, console_lines-opens, is_shell, lines_of, opens,
}
use netcosm.Dunnet.Rooms
use netcosm.Text
use netcosm.Text.{Bytes, ascii, strcmp_eq}
use netcosm.World.Init.{has_twin}
use netcosm.Worldgen.{
  DirectionInfo, IsSpot, dirs, opposite, target, target-opposite, dir, ahead, stay, moved,
}

-- A wrong password for the right name, then the right password for another name.
abbrev two_attempts : List (Bytes × Bytes)
two_attempts = (ascii "toukmond", ascii "guess") ∷ (ascii "nobody", ascii "robert") ∷ []

console_lines-opens_example :
    is_shell (console_lines (lines_of two_attempts) (at_prompt false 0)).console_state
    ≡ opens false (take (3 - 0) two_attempts)
console_lines-opens_example = console_lines-opens two_attempts false 0 (omega arith)

stranger_opens : opens false two_attempts ≡ true
unfolding Text.strcmp_eq
stranger_opens = refl

-- To the northeast and back.
abbrev northeast : DirectionInfo
northeast = dir ahead ahead stay

one_step : target northeast (3, 4, 0) ≡ some (4, 5, 0)
unfolding target moved
one_step = refl

target-opposite_example :
    IsSpot (4, 5, 0)
    × ((d' : DirectionInfo) × (get_elem? dirs (opposite 1) ≡ some d')
        × (target d' (4, 5, 0) ≡ some (3, 4, 0)))
target-opposite_example =
    target-opposite 1 northeast (3, 4, 0) (4, 5, 0) refl (omega arith, omega arith, omega arith)
      one_step

-- No two rooms of dunnet have one id.
dunnet_ids : has_twin (λ q. false) Rooms.netcosm_world ≡ false
unfolding has_twin Text.strcmp_eq
dunnet_ids = refl
