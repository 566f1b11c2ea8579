-- ===== src/Realm/Showing.antt =====
-- src/server_reqs.c: what a child is shown of rooms, objects, users and clients. `hook_desc` of a class,
-- `ctime` and `inet_ntoa` are parameters.
use netcosm.Base.{
  ℕ, ◌+◌, Bool, true, ◌||◌, Option, none, some, List, [], ◌∷◌, ◌++◌, is_some, is_empty, take,
  get_elem?, ltb, ◌==◌, map, if◌then◌else◌,
}
use netcosm.Base.Run.{Run, ok, abort, ◌>>=◌}
use netcosm.Hash.Iterate.{entries}
use netcosm.Heap.{deref}
use netcosm.Multimap.{Pair, multimap_lookup, multimap_iterate_all}
use netcosm.Object.{Object}
use netcosm.Realm.Carrying.{logged_in}
use netcosm.Realm.{Realm, say, the_bag, the_room, room_obj_get_size, with_server}
use netcosm.Room.{name_key}
use netcosm.Server.Handlers.{Handler, c_string}
use netcosm.Server.{Child, find_child, post}
use netcosm.Text.Concat.{strlcat}
use netcosm.Text.Djb.{ObjName, string_keys}
use netcosm.Text.Noun.{cat_all, digits, first_byte, format_noun}
use netcosm.Text.{Bytes, ascii, is_vowel, strcmp_eq}
use netcosm.Userdb.{User}
use netcosm.Hash.Types.{Keys}
use netcosm.Wire.{msg_max, req_bcastmsg, req_printnewline}

-- The line on an object, with the parts that strlcat joins in a buffer of MSG_MAX bytes.
unfoldable pub object_line : Bytes → Bool → ℕ → Bytes
unfolding cat_all
object_line name default_article n_objs =
    let article = if is_vowel (first_byte name) then ascii "an" else ascii "a" in
    if n_objs == 1
    then (if default_article
        then cat_all msg_max []
            (ascii "There is " ∷ article ∷ ascii " " ∷ name ∷ ascii " here.\n" ∷ [])
        else cat_all msg_max [] (ascii "There is " ∷ name ∷ ascii " here.\n" ∷ []))
    else cat_all msg_max []
        (ascii "There are " ∷ (digits n_objs ++ ascii " ") ∷ name ∷ ascii "s here.\n" ∷ [])

abbrev pub number : Option (List (Pair ObjName ℕ) × ℕ) → ℕ
number none = 0
number (some (es, n)) = n

module _ {U : Type 0} ⦃obj_keys : Keys ObjName⦄ where
  abbrev pub send : ℕ → ℕ → Bytes → Realm U → Run (Realm U)
  send pid cmd text r = post pid cmd text r.game.server >>= λ sv. ok (with_server sv r)

  -- The text on the first object of a key, empty where the key is not the object's name.
  unfoldable pub first_line : Pair ObjName ℕ → ℕ → Object U → Bytes
  unfolding object_line
  first_line e n_objs obj =
      if strcmp_eq e.0.text obj.name then object_line e.0.text obj.default_article n_objs else []

  -- The loop over the keys of the room's objects, of which only the first object counts.
  unfoldable pub list_objects : ℕ → List (List (Pair ObjName ℕ) × ℕ) → Realm U → Run (Realm U)
  unfolding deref first_line say
  list_objects pid [] r = ok r
  list_objects pid (([], n_objs) ∷ nodes) r = ok r
  list_objects pid ((e ∷ es, n_objs) ∷ nodes) r = deref e.1 r.heap >>= λ obj.
      (if obj.hidden then ok r else say pid (first_line e n_objs obj) r) >>= λ r.
      list_objects pid nodes r

  unfoldable pub req_send_desc : Child → Realm U → Run (Realm U)
  unfolding the_room post list_objects multimap_iterate_all
  req_send_desc sender r = the_room sender.room r >>= λ room.
      send sender.pid req_bcastmsg room.roomdata.desc r >>= λ r.
      send sender.pid req_printnewline [] r >>= λ r.
      list_objects sender.pid (multimap_iterate_all room.objects) r

  -- Every room has a name.
  unfoldable pub req_send_roomname : Child → Realm U → Run (Realm U)
  unfolding the_room post
  req_send_roomname sender r = the_room sender.room r >>= λ room.
      send sender.pid req_bcastmsg room.roomdata.name r >>= λ r.
      send sender.pid req_printnewline [] r

  -- The descriptions of a list of objects, numbered from `idx` on where there are several in all; the
  -- next number.
  unfoldable pub print_objlist :
      (Object U → Child → Bytes)
      → Child
      → List (Pair ObjName ℕ)
      → ℕ
      → ℕ
      → Realm U
      → Run (ℕ × Realm U)
  unfolding deref say
  print_objlist hook_desc sender [] idx n_objs r = ok (idx, r)
  print_objlist hook_desc sender (e ∷ es) idx n_objs r = deref e.1 r.heap >>= λ obj.
      let desc = hook_desc obj sender ++ ascii "\n" in
      if ltb 1 n_objs
      then (say sender.pid (digits idx ++ (ascii ") " ++ desc)) r >>= λ r.
          print_objlist hook_desc sender es (idx + 1) n_objs r)
      else (say sender.pid desc r >>= λ r. print_objlist hook_desc sender es idx n_objs r)

  -- The list under a heading; nothing at all for a name that has no pair.
  unfoldable pub print_found :
      (Object U → Child → Bytes)
      → Child
      → Bytes
      → Option (List (Pair ObjName ℕ) × ℕ)
      → ℕ
      → ℕ
      → Realm U
      → Run (ℕ × Realm U)
  unfolding print_objlist say
  print_found hook_desc sender heading none idx n_objs r = ok (idx, r)
  print_found hook_desc sender heading (some (es, n)) idx n_objs r =
      say sender.pid heading r >>= λ r. print_objlist hook_desc sender es idx n_objs r

  unfoldable pub req_look_at : (Object U → Child → Bytes) → Bytes → Child → Realm U → Run (Realm U)
  unfolding room_obj_get_size the_bag multimap_lookup print_found say c_string
  req_look_at hook_desc text sender r =
      let name = c_string text in
      room_obj_get_size sender.room name r >>= λ room_list. logged_in sender >>= λ user.
      the_bag user r >>= λ u.
      let inv_list = multimap_lookup (name_key name) u.1 in
      let n_objs = number room_list + number inv_list in
      print_found hook_desc sender (ascii "In room:\n") room_list 1 n_objs r >>= λ s.
      print_found hook_desc sender (ascii "In inventory:\n") inv_list s.0 n_objs s.1 >>= λ s.
      if is_some room_list || is_some inv_list
      then ok s.1
      else say sender.pid (ascii "I don't know what that is.\n") s.1

  -- The loop over the keys of an inventory.
  unfoldable pub list_bag : ℕ → List (List (Pair ObjName ℕ) × ℕ) → Realm U → Run (Realm U)
  unfolding deref format_noun strlcat post
  list_bag pid [] r = ok r
  list_bag pid (([], n_objs) ∷ nodes) r = ok r
  list_bag pid ((e ∷ es, n_objs) ∷ nodes) r = deref e.1 r.heap >>= λ obj.
      (if strcmp_eq e.0.text obj.name
        then (format_noun msg_max e.0.text n_objs obj.default_article true >>= λ buf.
            send pid req_bcastmsg (strlcat buf (ascii "\n") msg_max).0 r)
        else ok r)
      >>= λ r. list_bag pid nodes r

  unfoldable pub req_inventory : Child → Realm U → Run (Realm U)
  unfolding the_bag say list_bag multimap_iterate_all
  req_inventory sender r = logged_in sender >>= λ user. the_bag user r >>= λ u.
      say sender.pid (ascii "You currently have:\n") r >>= λ r.
      let nodes = multimap_iterate_all u.1 in
      list_bag sender.pid nodes r >>= λ r.
      if is_empty nodes then say sender.pid (ascii "Nothing!\n") r else ok r

  -- `ctime`, whose text ends in a line end, is a parameter.
  unfoldable pub list_users : (ℕ → Bytes) → ℕ → List User → Realm U → Run (Realm U)
  unfolding say
  list_users ctime pid [] r = ok r
  list_users ctime pid (user ∷ users) r =
      let a = user.account in
      say pid
        (a.username
          ++ (ascii ": priv: " ++ (digits a.priv ++ (ascii " last: " ++ ctime a.last_login))))
        r
      >>= λ r. list_users ctime pid users r

  unfoldable pub req_listusers : (ℕ → Bytes) → Child → Realm U → Run (Realm U)
  unfolding list_users entries
  req_listusers ctime sender r =
      list_users ctime sender.pid (map (λ e. e.1) (entries r.userdb.users)) r

abbrev pub states : List Bytes
states =
    ascii "INIT"
    ∷ ascii "LOGIN SCREEN"
    ∷ ascii "CHECKING CREDENTIALS"
    ∷ ascii "LOGGED IN AS USER"
    ∷ ascii "LOGGED IN AS ADMIN"
    ∷ ascii "ACCESS DENIED"
    ∷ []

-- The text on a client in a buffer of 128 bytes; `address` is inet_ntoa of a child's address.
unfoldable pub client_text : Bytes → Bytes → Child → Bool → Bytes
client_text address state child you =
    let start : Bytes =
      ascii "Client "
      ++ (address
          ++ (ascii " PID " ++ (digits child.pid ++ (ascii " [" ++ (state ++ ascii "]"))))) in
    let named : Bytes = elim child.user [
      | none ↦ start
      | some name ↦ start ++ (ascii " USER " ++ name)
    ] in
    take 127 (take 127 named ++ (if you then ascii " [YOU]\n" else ascii "\n"))

-- A state out of the array of names is read behind its end.
unfoldable pub req_send_clientinfo : (ℕ → Bytes) → Handler
unfolding client_text find_child post
req_send_clientinfo inet_ntoa text len sender child sv = elim (find_child child sv.children) [
  | none ↦ abort
  | some c ↦ elim (get_elem? states c.state) [
    | none ↦ abort
    | some state ↦
        post sender req_bcastmsg (client_text (inet_ntoa child) state c (sender == child)) sv
  ]
]
