-- ===== src/Dunnet/Verbs.antt =====
-- worlds/dunnet.c: what the verbs do. A verb without arguments gets a null pointer, with which strtok_r
-- goes on in a string that was never set: that ends the run here.
use netcosm.Base.{
  ℕ, true, false, ◌&&◌, Option, none, some, List, [], ◌∷◌, ◌++◌, is_empty, is_some, ◌==◌,
  if◌then◌else◌,
}
use netcosm.Base.Run.{Run, ok, abort, ◌>>=◌}
use netcosm.Client.Shell.{next_token}
use netcosm.Dunnet.Console.{Reply, tell, toggle_rawmode, DunnetUser, console_cb, enter_console}
use netcosm.Dunnet.Objects.{Dunnet, cpu_card, place, with_flag, with_realm}
use netcosm.Game.{with_room}
use netcosm.Heap.{deref}
use netcosm.Multimap.{Pair, multimap_lookup}
use netcosm.Object
use netcosm.Object.{Object}
use netcosm.Realm.Carrying.{logged_in, userdb_del_obj}
use netcosm.Realm.{
  room_obj_get, room_obj_get_size, say, the_bag, the_room, userdb_del_obj_by_ptr, values,
  with_server,
}
use netcosm.Room.{name_key}
use netcosm.Server.Handlers.{child_toggle_rawmode}
use netcosm.Server.{Child}
use netcosm.Text.Djb.{ObjName, name_keys, string_keys}
use netcosm.Text.Noun.{format_noun}
use netcosm.Text.{Bytes, ascii, strcmp_eq}
use netcosm.Wire.{msg_max}
use netcosm.World.{room_get_id}

abbrev pub speak : Child → Bytes → Dunnet → Run Dunnet
speak user text d = say user.pid text d.realm >>= λ r. ok (with_realm r d)

-- What the inventory of the user has under a name.
unfoldable pub carried : Child → Bytes → Dunnet → Run (Option (List (Pair ObjName ℕ) × ℕ))
unfolding the_bag multimap_lookup
carried user name d =
    logged_in user >>= λ who. the_bag who d.realm >>= λ u. ok (multimap_lookup (name_key name) u.1)

unfoldable pub dig_exec : Object.ClassMap → Option Bytes → Child → Dunnet → Run Dunnet
unfolding carried the_room place say
dig_exec classes args user d = carried user (ascii "shovel") d >>= λ list.
    if is_some list
    then (the_room user.room d.realm >>= λ room.
        if strcmp_eq room.roomdata.name (ascii "Fork")
        then elim (d.flags user.room) [
          | none ↦ abort
          | some dug ↦
              if dug
              then speak user (ascii "Digging here reveals nothing.\n") d
              else (place classes cpu_card user.room (with_flag user.room true d) >>= λ d.
                  speak user (ascii "I think you found something.\n") d)
        ]
        else speak user (ascii "Digging here reveals nothing.\n") d)
    else speak user (ascii "You have nothing with which to dig.\n") d

-- The object at the head of a list.
abbrev pub head_obj : List ℕ → Dunnet → Run (ℕ × Object Bytes)
head_obj [] d = abort
head_obj (p ∷ ps) d = deref p d.realm.heap >>= λ obj. ok (p, obj)

abbrev running_desc : Bytes
running_desc =
    ascii
      "You are in a computer room.  It seems like most of the equipment has been removed.  There is a VAX 11/780 in front of you, however, with one of the cabinets wide open.  A sign on the front of the machine says: This VAX is named 'pokey'.  To type on the console, use the 'type' command.  The exit is to the east.\nThe panel lights are flashing in a seemingly organized pattern."

-- The card is put in the computer.
unfoldable pub start_computer : ℕ → Child → Dunnet → Run Dunnet
unfolding userdb_del_obj_by_ptr say the_room
start_computer p user d = logged_in user >>= λ who. userdb_del_obj_by_ptr who p d.realm >>= λ s.
    speak user
      (ascii
        "As you put the CPU board in the computer, it immediately springs to life.  The lights start flashing, and the fans seem to startup.\n")
      (with_realm s.1 d)
    >>= λ d. the_room user.room d.realm >>= λ room.
        let info = room.roomdata in
        let shown = record room { roomdata = record info { desc = running_desc } } in
        let r = d.realm in
        ok (
          with_flag user.room true
            (with_realm (record r { game = with_room user.room shown r.game }) d))

-- put_exec, once the object is found, on the rest of the words.
unfoldable pub put_into : ℕ → Object Bytes → Bytes → Child → Dunnet → Run Dunnet
unfolding next_token room_obj_get room_get_id start_computer say
put_into p obj rest user d =
    let after_prep : Bytes = elim (next_token rest) [ none ↦ [] | some w ↦ w.1 ] in
    elim (next_token after_prep) [
      | none ↦ speak user (ascii "You must supply an indirect object.\n") d
      | some w ↦ room_obj_get user.room w.0 d.realm >>= λ found.
          if is_empty found
          then speak user (ascii "I don't know what that indirect object is.\n") d
          else (head_obj found d >>= λ ind.
              if strcmp_eq obj.name (ascii "CPU card")
                && (strcmp_eq ind.1.name (ascii "computer")
                    && user.room == room_get_id (ascii "computer_room") d.realm.game.world)
              then start_computer p user d
              else speak user
                  (ascii
                    "I don't know how to combine those objects.  Perhaps you should just try dropping it.\n")
                  d)
    ]

unfoldable pub put_exec : Option Bytes → Child → Dunnet → Run Dunnet
unfolding next_token carried put_into say
put_exec none user d = abort
put_exec (some args) user d = elim (next_token args) [
  | none ↦ speak user (ascii "You must supply an object\n") d
  | some w ↦ carried user w.0 d >>= λ list.
      if is_some list
      then (head_obj (values list) d >>= λ o. put_into o.0 o.1 w.1 user d)
      else speak user (ascii "You don't have that.\n") d
]

abbrev pub number_of : Option (List (Pair ObjName ℕ) × ℕ) → ℕ
number_of none = 0
number_of (some (ps, n)) = n

unfoldable pub eat_exec : Option Bytes → Child → Dunnet → Run Dunnet
unfolding next_token carried room_obj_get format_noun userdb_del_obj say
eat_exec none user d = abort
eat_exec (some args) user d = elim (next_token args) [
  | none ↦ speak user (ascii "You must supply an object.\n") d
  | some w ↦ carried user w.0 d >>= λ list.
      if is_some list
      then (head_obj (values list) d >>= λ o.
          (if strcmp_eq o.1.name (ascii "some food")
            then speak user (ascii "That tasted horrible.\n") d
            else (format_noun msg_max o.1.name (number_of list) o.1.default_article false
                >>= λ noun.
                    speak user
                      (ascii "You forcibly shove "
                        ++ (noun ++ ascii " down your throat, and start choking.\n"))
                      d))
          >>= λ d. logged_in user >>= λ who.
              userdb_del_obj who w.0 d.realm >>= λ s. ok (with_realm s.1 d))
      else (room_obj_get user.room w.0 d.realm >>= λ found.
          if is_empty found
          then speak user (ascii "I don't know what that is.\n") d
          else speak user (ascii "You don't have that.\n") d)
]

unfoldable pub shake_exec : Option Bytes → Child → Dunnet → Run Dunnet
unfolding next_token carried room_obj_get_size format_noun say
shake_exec none user d = abort
shake_exec (some args) user d = elim (next_token args) [
  | none ↦ speak user (ascii "You must supply an object.\n") d
  | some w ↦ room_obj_get_size user.room w.0 d.realm >>= λ list_room.
      carried user w.0 d >>= λ list_inv.
      if is_some list_room
      then (head_obj (values list_room) d >>= λ o.
          if strcmp_eq o.1.name (ascii "trees")
          then speak user
              (ascii
                "You begin to shake a tree, and notice a coconut begin to fall from the air.  As you try to get your hand up to block it, you feel the impact as it lands on your head.\n")
              d
          else speak user (ascii "You don't have that.\n") d)
      else if is_some list_inv
      then (head_obj (values list_inv) d >>= λ o.
          format_noun msg_max o.1.name (number_of list_inv) o.1.default_article false >>= λ noun.
          speak user (ascii "Shaking " ++ (noun ++ ascii " seems to have no effect.\n")) d)
      else speak user (ascii "I don't know what that is.\n") d
]

-- The answers of the console, in turn.
unfoldable pub answer_all : Child → List Reply → Dunnet → Run Dunnet
unfolding say child_toggle_rawmode
answer_all user [] d = ok d
answer_all user (tell text ∷ replies) d = speak user text d >>= λ d. answer_all user replies d
answer_all user (toggle_rawmode ∷ replies) d =
    child_toggle_rawmode user.pid d.realm.game.server >>= λ sv.
    answer_all user replies (with_realm (with_server sv d.realm) d)

abbrev pub with_console : Bytes → DunnetUser → Dunnet → Dunnet
with_console who du d = record d {
  consoles = λ q. if strcmp_eq q who then some du else d.consoles q;
}

-- A raw line of a user; one without data is read through a null pointer.
unfoldable pub console_line : Child → Bytes → Dunnet → Run Dunnet
unfolding console_cb answer_all
console_line user text d = logged_in user >>= λ who. elim (d.consoles who) [
  | none ↦ abort
  | some du ↦
      let (replies, du') = console_cb text du in answer_all user replies (with_console who du' d)
]

unfoldable pub type_exec : Option Bytes → Child → Dunnet → Run Dunnet
unfolding the_room enter_console answer_all say
type_exec args user d = the_room user.room d.realm >>= λ room.
    if strcmp_eq room.roomdata.uniq_id (ascii "computer_room")
    then elim (d.flags user.room) [
      | none ↦ abort
      | some active ↦
          if active
          then (logged_in user >>= λ who.
              let (replies, du) = enter_console (d.consoles who) in
              answer_all user (replies ++ toggle_rawmode ∷ []) (with_console who du d))
          else speak user
              (ascii "You type on the keyboard, but your characters do not even echo.\n") d
    ]
    else speak user (ascii "There is nothing here on which you could type.\n") d
