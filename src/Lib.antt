-- ===== src/Lib.antt =====
-- A verification of netcosm, a multi-user dungeon server in C.
--
-- The program: a server process (src/server.c) keeps the world, that is rooms, objects, verbs and
-- users, and forks a child for every connection. A child (src/client.c) speaks telnet with its user
-- and sends requests through a packet pipe; the server handles a request (src/server_reqs.c) and
-- sends packets back, which the child reads (src/client_reqs.c). Rooms, users and verbs stand in
-- the hash tables of src/hash.c; the objects of a room or user in the multimaps of src/multimap.c.
--
-- Which file models which part:
--   Base, Base/*        lists, Boolean tests, machine words, runs that may abort
--   Hash, Hash/*        src/hash.c and src/hash.h. Types: the map, hash_init, hash_free. Chain: what
--                       the operations do to a chain. Ops: hash_insert, hash_overwrite,
--                       hash_lookup, hash_remove, hash_resize, hash_dup, the exported nodes.
--                       Iterate: hash_iterate. Table, Weight: lemmas. Resize, Methods, Lifecycle,
--                       Buckets, Export: theorems
--   Multimap, Multimap/* src/multimap.c: insertion, lookup, deletion, iteration
--   Text, Text/*        src/util.c (remove_cruft, all_upper, all_lower, strlcat, format_noun,
--                       is_vowel), and hash_djb with the comparisons of src/hash.c
--   Stream, Stream/*    the functions of src/util.c that write values on a file and read them
--   Telnet, Telnet/*    src/telnet.c: telnet_parse_data and the sequences that the server sends
--   Wire, Wire/*        send_packet of src/server_reqs.c and the codes of src/server_reqs.h
--   Server, Server/*    src/server_reqs.c. Handlers: handlers of requests. Dispatch: the table,
--                       reqmap_init and handle_child_req. Broadcast, Account: theorems.
--                       Saving: server_save_state of src/server.c. Options: its parse_args
--   Client, Client/*    src/client_reqs.c. Client and Poll: poll_requests. Rate: the limit in
--                       send_master. Moves: the requests of the commands, client_move.
--                       src/client.c. Reading: client_read. Output: out. Shell: the table of
--                       commands. Callbacks: user_cb to chpass_cb. Session: client_main.
--                       Cutting, Shrinking: lemmas. Wrapping, Entrance, Guarding: theorems
--   Room, World, World/* src/room.c: room_init_maps, users and verbs. src/world.c: world_init,
--                       room_get, room_get_id. File: world_save, and what world_load reads.
--                       Filling: world_load. Counting: obj_count_noalias. Init, Loading,
--                       Reloading: theorems
--   Game, Game/*        children in rooms: room_user_add, room_user_del and room_user_teleport of
--                       src/room.c, req_set_room and req_move_room of src/server_reqs.c,
--                       new_connection_cb and handle_disconnects of src/server.c. Places,
--                       Counting: lemmas. Moves, Reaping: theorems
--   Userdb, Userdb/*    src/userdb.c in memory, and the requests on accounts. File: userdb_write and
--                       the reading of userdb_init. Layout: the memory of struct userdata_t. Refines,
--                       Reloading: theorems
--   Heap, Heap/*        objects by address, with their references, in the maps of rooms and users:
--                       room_obj_add and room_obj_del_by_ptr of src/room.c, and their likes of
--                       src/userdb.c. Refs, Balance, Adding, Removing: lemmas
--   Realm, Realm/*      rooms and users over one heap. Carrying: req_take, req_drop, deletion by
--                       name, room_obj_add_alias. Showing: req_look_at, req_inventory,
--                       req_send_desc and the lists. Verbs: req_execverb and the verbs of the
--                       world. Scene: lemmas. Taking, Dropping: theorems
--   Dunnet, Dunnet/*    worlds/dunnet.c. Rooms: its rooms. Objects: their objects and hooks. Verbs:
--                       dig, put, eat, shake, type. Console: the login of the computer
--   Worldgen            tools/worldgen.c: the grid of rooms and its links
--   Auth, Auth/*        src/auth.c: names, password digests, auth_check
--   Verb, Verb/*        src/verb.c: creation by class, the file format
--   Object, Object/*    src/obj.c: creation, copies, references, the file format. Classes: the map of
--                       classes
--   Tests, Tests/*      concrete runs
--
-- State is passed explicitly. A map is a record of its table (a list of chains), its counts and its
-- callbacks; the comparison and the hash are an instance (`Keys`), and a theorem that needs them to
-- agree takes that as a hypothesis. What a callback frees is a list of released values. `error` and
-- a failed `assert` are the outcome `abort` of a run. `size_t` counts wrap at 2 ^ 64, `unsigned` at
-- 2 ^ 32, but for the bucket of an iterator, which is followed without a bound and stays below 2 ^
-- 32 in a table of fewer buckets; an `int` that is only stored or sent is its bit pattern. What a
-- child gets is the list of packets written to its pipe. The hooks of world modules and SHA-512 are
-- parameters; a hook of a room answers and has packets sent, and changes no room and no child.
--
-- A child's session is the sequence of its actions (what it prints, asks the server and has stored)
-- on the lines that its user sends; what the server answers, the time and strtol are the record
-- `Outside`. Connections, disconnections and requests are steps from one state of the server to the
-- next, in any order.
--
-- Most loops follow the list that the C code walks. Some take fuel: the split of a long message gets
-- as many rounds as the text has bytes, and each round takes one at least; the aliases of an object
-- get as many as the file has bytes left, and each takes eight at least; a decimal number gets the
-- twenty digits of 64 bits; `out` gets for each byte of the text, and once more, two rounds more than
-- the terminal has columns, since a round takes a character or moves a column on; client_main gets
-- one unit more than there are lines, since every login and every command takes a line; client_read
-- gets one for each read.
--
-- An object is shared between maps by its address in a heap; `obj_dup` and `obj_free` count its
-- references there, and one that is freed is gone from it: reading it aborts. The keys of a map of
-- objects are the names as they stand, and its hash and comparison an instance. The program's are
-- `name_keys`, which do not agree on names that differ in case; `cased_keys` have the same hash and
-- agree, and are the same on names in lower case. The hooks of a class of
-- objects answer and have packets sent; those of dunnet that do more are modelled with it.
--
-- Not modelled: multimap_copy, and the functions that only release memory at the end. The event
-- loop, signals, sockets and process creation of src/server.c, the random salt, debug output, and
-- the forwarding of src/world_api.c are input and output around the parts above.
pub mod Base
pub mod Hash
pub mod Heap
pub mod Multimap
pub mod Text
pub mod Stream
pub mod Telnet
pub mod Wire
pub mod Server
pub mod Client
pub mod Auth
pub mod Verb
pub mod Object
pub mod Room
pub mod World
pub mod Game
pub mod Userdb
pub mod Realm
pub mod Dunnet
pub mod Worldgen
mod Tests
