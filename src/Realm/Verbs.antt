-- ===== src/Realm/Verbs.antt =====
-- src/server_reqs.c, src/world.c and src/room.c: the verbs of the rooms and of the world, and the request
-- to execute one. What a verb does, and what reads a child's raw data, belongs to the world module and is
-- a parameter.
use netcosm.Base.{
  ℕ, Bool, true, not, ◌||◌, Option, none, some, [], ◌∷◌, ◌==◌, if◌then◌else◌, is_some, take,
}
use netcosm.Base.Run.{Run, ok, abort, ◌>>=◌}
use netcosm.Client.Shell.{whole_rest}
use netcosm.Game.{with_room}
use netcosm.Hash.Ops.{insert, lookup, remove}
use netcosm.Hash.Types.{HashMap, Keys, init, set_free_data}
use netcosm.Realm.{Realm, say, the_room}
use netcosm.Room.{Room, room_verb_add}
use netcosm.Server.Handlers.{c_string}
use netcosm.Server.{Child}
use netcosm.Text.Djb.{ObjName, string_keys}
use netcosm.Text.{Bytes, ascii, all_lower}
use netcosm.Verb.{Verb}

-- The global map, as init_map makes it.
unfoldable pub world_verbs : HashMap Bytes Verb
unfolding init set_free_data
world_verbs = set_free_data true (init 32)

-- strtok_r with a space and a tab: the delimiters in front are skipped.
abbrev pub is_blank : ℕ → Bool
is_blank c = c == b' ' || c == b'\t'

unfoldable pub split_word : Bytes → Bytes × Bytes
split_word [] = ([], [])
split_word (c ∷ s) =
    let (tok, rest) = split_word s in if is_blank c then ([], s) else (c ∷ tok, rest)

unfoldable pub next_word : Bytes → Option (Bytes × Bytes)
unfolding split_word
next_word [] = none
next_word (c ∷ s) =
    let later = next_word s in if is_blank c then later else some (split_word (c ∷ s))

-- What the world module does for a verb with its arguments, and with raw data.
abbrev pub VerbHook : Type 0 → Type 0
VerbHook U = Verb → Option Bytes → Child → Realm U → Run (Realm U)

abbrev pub RawHook : Type 0 → Type 0
RawHook U = Child → Bytes → Realm U → Run (Realm U)

module _ {U : Type 0} ⦃obj_keys : Keys ObjName⦄ where
  unfoldable pub world_verb_add : Verb → Realm U → Run (Bool × Realm U)
  unfolding insert
  world_verb_add verb r =
      insert verb.name verb r.verbs >>= λ s. ok (not (is_some s.0), record r { verbs = s.1 })

  unfoldable pub world_verb_del : Verb → Realm U → Bool × Realm U
  unfolding remove
  world_verb_del verb r = let s = remove verb.name r.verbs in (s.0, record r { verbs = s.2 })

  -- room_verb_add, in the room of an id.
  unfoldable pub add_verb : ℕ → Verb → Realm U → Run (Bool × Realm U)
  unfolding the_room room_verb_add
  add_verb id verb r = the_room id r >>= λ room.
      room_verb_add verb room >>= λ s. ok (s.0, record r { game = with_room id s.1 r.game })

  -- The verb of the room, or else that of the world.
  unfoldable pub find_verb : Room → Bytes → Realm U → Option Verb
  unfolding lookup
  find_verb room tok r = elim (lookup tok room.verbs) [
    | some verb ↦ some verb
    | none ↦ lookup tok r.verbs
  ]

  -- Without a word, strtok_r returns NULL, which all_lower reads.
  unfoldable pub exec_words : VerbHook U → Option (Bytes × Bytes) → Child → Realm U → Run (Realm U)
  unfolding the_room find_verb say
  exec_words hook_exec none sender r = abort
  exec_words hook_exec (some (tok, rest)) sender r = the_room sender.room r >>= λ room.
      elim (find_verb room (all_lower tok) r) [
        | none ↦ say sender.pid (ascii "I don't know what that means.\n") r
        | some verb ↦ hook_exec verb (whole_rest rest) sender r
      ]

  unfoldable pub req_execverb : VerbHook U → RawHook U → Bytes → ℕ → Child → Realm U → Run (Realm U)
  unfolding next_word exec_words c_string
  req_execverb hook_exec raw_mode_cb text len sender r =
      if sender.raw_mode
      then raw_mode_cb sender (take len text) r
      else exec_words hook_exec (next_word (c_string text)) sender r
