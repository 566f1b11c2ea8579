-- ===== src/Server/Options.antt =====
-- src/server.c: the command line of the server. The arguments are those behind the program's name; what
-- stands behind the last one is a null pointer.
use mathlib.Core.List.{append-nil}
use netcosm.Base.{
  ℕ, ◌%◌, ◌^◌, Option, none, some, List, [], ◌∷◌, ◌++◌, ◌==◌, if◌then◌else◌, ◌≡◌, ◌∙◌, ap, sym,
  refl,
}
use netcosm.Text.{Bytes, ascii}

-- The globals that the options set; `auto` are autouser and autopass, where autoconfig is set.
pub record Options : Type 0 where
  pub port : ℕ
  pub data_prefix : Option Bytes
  pub world_module : Option Bytes
  pub auto : Option (Option Bytes × Option Bytes)

-- Go on, print the help and end, end at an unknown argument, or read a number through a null pointer.
pub data Parsed : Type 0 where
  parsed : Options → Parsed
  help : Parsed
  unknown : Bytes → Parsed
  crash : Parsed

-- What an argument asks for, by its first two characters.
pub data Switch : Type 0 where
  no_switch : Switch
  bare_dash : Switch
  asks_help : Switch
  sets_auto : Switch
  sets_prefix : Switch
  sets_port : Switch
  sets_world : Switch

unfoldable pub switch_of : Bytes → Switch
switch_of [] = no_switch
switch_of (d ∷ []) = if d == b'-' then bare_dash else no_switch
switch_of (d ∷ c ∷ s) =
    if d == b'-'
    then if c == b'a'
      then sets_auto
      else if c == b'd'
      then sets_prefix
      else if c == b'p'
      then sets_port
      else if c == b'w'
      then sets_world
      else asks_help
    else no_switch

-- What print_help says that a user can ask for.
pub data Setting : Type 0 where
  auto_setup : Bytes → Bytes → Setting
  prefix : Bytes → Setting
  port_number : Bytes → Setting
  world : Bytes → Setting

abbrev pub written : List Setting → List Bytes
written [] = []
written (auto_setup user pass ∷ ss) = ascii "-a" ∷ user ∷ pass ∷ written ss
written (prefix dir ∷ ss) = ascii "-d" ∷ dir ∷ written ss
written (port_number n ∷ ss) = ascii "-p" ∷ n ∷ written ss
written (world file ∷ ss) = ascii "-w" ∷ file ∷ written ss

module _ (strtol : Bytes → ℕ) where
  abbrev pub with_port : Bytes → Options → Options
  with_port s o = record o { port = strtol s % 2 ^ 16 }

  -- `strtol` is base 10, as an unsigned number of 64 bits. The tests `i + 2 > argc` and `i + 1 > argc`
  -- come one too late: the first lets one argument of two be missing, and the other never holds.
  unfoldable pub parse_args : List Bytes → Options → Parsed
  unfolding switch_of
  parse_args [] o = parsed o
  parse_args (a ∷ []) o = elim (switch_of a) [
    | no_switch ↦ unknown a
    | bare_dash ↦ parsed o
    | asks_help ↦ help
    | sets_auto ↦ help
    | sets_prefix ↦ parsed (record o { data_prefix = none })
    | sets_port ↦ crash
    | sets_world ↦ parsed (record o { world_module = none })
  ]
  parse_args (a ∷ b ∷ []) o =
      let last = parse_args (b ∷ []) o in
      elim (switch_of a) [
        | no_switch ↦ unknown a
        | bare_dash ↦ last
        | asks_help ↦ help
        | sets_auto ↦ parsed (record o { auto = some (some b, none) })
        | sets_prefix ↦ parsed (record o { data_prefix = some b })
        | sets_port ↦ parsed (with_port b o)
        | sets_world ↦ parsed (record o { world_module = some b })
      ]
  parse_args (a ∷ b ∷ c ∷ rest) o = elim (switch_of a) [
    | no_switch ↦ unknown a
    | bare_dash ↦ parse_args (b ∷ c ∷ rest) o
    | asks_help ↦ help
    | sets_auto ↦ parse_args rest (record o { auto = some (some b, some c) })
    | sets_prefix ↦ parse_args (c ∷ rest) (record o { data_prefix = some b })
    | sets_port ↦ parse_args (c ∷ rest) (with_port b o)
    | sets_world ↦ parse_args (c ∷ rest) (record o { world_module = some b })
  ]

  abbrev pub applied : List Setting → Options → Options
  applied [] o = o
  applied (auto_setup user pass ∷ ss) o =
      applied ss (record o { auto = some (some user, some pass) })
  applied (prefix dir ∷ ss) o = applied ss (record o { data_prefix = some dir })
  applied (port_number n ∷ ss) o = applied ss (with_port n o)
  applied (world file ∷ ss) o = applied ss (record o { world_module = some file })

  prefix-then :
      (d : Bytes) (rest : List Bytes) (o : Options)
      → parse_args (ascii "-d" ∷ d ∷ rest) o ≡ parse_args rest (record o { data_prefix = some d })
  unfolding parse_args
  prefix-then d [] o = refl
  prefix-then d (c ∷ rest) o = refl

  port-then :
      (n : Bytes) (rest : List Bytes) (o : Options)
      → parse_args (ascii "-p" ∷ n ∷ rest) o ≡ parse_args rest (with_port n o)
  unfolding parse_args
  port-then n [] o = refl
  port-then n (c ∷ rest) o = refl

  world-then :
      (w : Bytes) (rest : List Bytes) (o : Options)
      → parse_args (ascii "-w" ∷ w ∷ rest) o ≡ parse_args rest (record o { world_module = some w })
  unfolding parse_args
  world-then w [] o = refl
  world-then w (c ∷ rest) o = refl

  written-then :
      (ss : List Setting) (o : Options) (tail : List Bytes)
      → parse_args (written ss ++ tail) o ≡ parse_args tail (applied ss o)
  unfolding parse_args
  written-then [] o tail = refl
  written-then (auto_setup user pass ∷ ss) o tail = written-then ss _ tail
  written-then (prefix dir ∷ ss) o tail =
      prefix-then dir (written ss ++ tail) o ∙ written-then ss _ tail
  written-then (port_number n ∷ ss) o tail =
      port-then n (written ss ++ tail) o ∙ written-then ss _ tail
  written-then (world file ∷ ss) o tail =
      world-then file (written ss ++ tail) o ∙ written-then ss _ tail

  -- Settings that are written as the help says, in any order and number, are read back: each sets its
  -- option, the last one counts, and a port is taken modulo 2 ^ 16. Behind them, a -p with no number
  -- makes the program read through a null pointer, -d and -w with no name reset their options, and an
  -- -a with a user only leaves the password a null pointer.
  pub parse_args-written :
      (ss : List Setting) (o : Options) (user : Bytes)
      → let o' = applied ss o in
        (parse_args (written ss) o ≡ parsed o')
        × (parse_args (written ss ++ ascii "-p" ∷ []) o ≡ crash)
        × (parse_args (written ss ++ ascii "-d" ∷ []) o ≡ parsed (record o' { data_prefix = none }))
        × (parse_args (written ss ++ ascii "-w" ∷ []) o
            ≡ parsed (record o' { world_module = none }))
        × (parse_args (written ss ++ ascii "-a" ∷ user ∷ []) o
            ≡ parsed (record o' { auto = some (some user, none) }))
  unfolding parse_args
  parse_args-written ss o user = (
    ap (λ as'. parse_args as' o) (sym (append-nil (written ss))) ∙ written-then ss o [],
    written-then ss o (ascii "-p" ∷ []),
    written-then ss o (ascii "-d" ∷ []),
    written-then ss o (ascii "-w" ∷ []),
    written-then ss o (ascii "-a" ∷ user ∷ []),
  )
