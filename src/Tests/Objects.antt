-- ===== src/Tests/Objects.antt =====
-- A room with a lamp in it, a user who takes it and drops it again.
use mathlib.Core.List.{flatten}
use netcosm.Base.{
  ℕ, ◌≡◌, refl, true, false, none, some, [], ◌∷◌, arith, ◌==◌, if◌then◌else◌, Bool-cases, inl, inr,
}
use netcosm.Base.Run.{Returns}
use netcosm.Hash.Types.{HashMap, init, set_free_data}
use netcosm.Heap.Adding.{give-Grown}
use netcosm.Heap.Balance.{IsBalanced, Grown, IsLive, count_of, refs, n_refs}
use netcosm.Heap.{Heap, Things, give}
use netcosm.Multimap.Laws.{IsWell, IsCounted, pairs, init-IsWell}
use netcosm.Multimap.{multimap_init, set_free_data_cb}
use netcosm.Object.{Object}
use netcosm.Realm.Carrying.{ObjHook}
use netcosm.Realm.Scene.{held_by}
use netcosm.Realm.{Realm}
use netcosm.Room.{Room, room_verbs}
use netcosm.Server.{Child}
use netcosm.Text
use netcosm.Text.Djb.{ObjName, cased_keys, cased_keys-IsLawful, string_keys, string_keys-IsLawful}
use netcosm.Text.{Bytes, ascii}
use netcosm.Userdb.{User}

abbrev lamp : Object ℕ
lamp = record {
  id = 7;
  name = ascii "CPU card";
  class = record { class_name = ascii "thing" };
  alias_list = ascii "light" ∷ [];
  hidden = false;
  default_article = true;
  userdata = none;
  refcount = 1;
}

abbrev first_heap : Heap ℕ
first_heap = λ q. if q == 0 then some lamp else none

abbrev empty_map : Things
empty_map = set_free_data_cb true (multimap_init 8 (λ a b. a == b))

empty_map-IsWell : IsWell empty_map × IsCounted empty_map × ((q : ObjName) → pairs empty_map q ≡ [])
unfolding set_free_data_cb
empty_map-IsWell =
    let (w, c, none_yet) = init-IsWell {K = ObjName} {V = ℕ} 8 (λ a b. a == b) in
    (record { pos = w.pos; placed = w.placed; nodes = w.nodes; total = w.total }, c, none_yet)

no_refs : (q : ℕ) → refs q empty_map ≡ 0
unfolding set_free_data_cb multimap_init set_free_data init flatten
no_refs q = refl

no_pairs : n_refs empty_map ≡ 0
unfolding set_free_data_cb multimap_init set_free_data init flatten
no_pairs = refl

-- One reference to the lamp is held outside of the maps.
abbrev one_outside : ℕ → ℕ
one_outside q = if 0 == q then 1 else 0

first_heap-IsLive : IsLive first_heap
unfolding IsLive
first_heap-IsLive q obj e = elim (Bool-cases (q == 0)) [
  | inl here ↦ (ground (arith, here, e), ground (arith, here, e))
  | inr other ↦ ground (arith, other, e)
]

empty-IsBalanced :
    (others : ℕ → ℕ) (heap : Heap ℕ)
    → IsLive heap
    → ((q : ℕ) → count_of (heap q) ≡ others q)
    → IsBalanced others (held_by heap empty_map)
unfolding set_free_data_cb multimap_init
empty-IsBalanced others heap live counts = record {
  live = live;
  well = empty_map-IsWell.0;
  frees = refl;
  keeps = refl;
  few = rw no_pairs (omega arith);
  counts = λ q. rw (no_refs q) (omega (arith, counts q));
}

first_count : (q : ℕ) → count_of (first_heap q) ≡ one_outside q
first_count q = elim (Bool-cases (q == 0)) [
  | inl here ↦ ground (arith, here)
  | inr other ↦ ground (arith, other)
]

-- The room's map, once room_obj_add has put the lamp into it.
stocked : Returns (give 0 (held_by first_heap empty_map)) λ r.
    IsBalanced (λ q. 0) r.1
    × Grown 0 1 (ascii "CPU card" ∷ ascii "light" ∷ []) (held_by first_heap empty_map) r.1
stocked =
    give-Grown one_outside (λ q. 0) 0 lamp (held_by first_heap empty_map)
      (empty-IsBalanced one_outside first_heap first_heap-IsLive first_count) empty_map-IsWell.1
      refl (λ q. omega arith) (omega arith) (rw no_pairs (omega arith))

abbrev things : Things
things = stocked.0.1.things

abbrev heap : Heap ℕ
heap = stocked.0.1.heap

abbrev bert : Child
bert = record { pid = 500; state = 3; room = 0; user = some (ascii "bert"); raw_mode = false }

abbrev hall : Room
hall = record {
  id = 0;
  roomdata = record {
    uniq_id = ascii "hall";
    name = ascii "Hall";
    desc = ascii "A hall.";
    adjacent = [];
  };
  adjacent = [];
  objects = things;
  verbs = room_verbs;
  users = init 2;
}

abbrev bert_user : User
bert_user = record {
  account = record { username = ascii "bert"; salt = []; passhash = []; priv = 0; last_login = 0 };
  objects = some empty_map;
}

abbrev users : HashMap Bytes User
users = record {
  table = ((ascii "bert", bert_user) ∷ []) ∷ [];
  n_entries = 1;
  used_buckets = 1;
  free_key = false;
  free_data = true;
  dup_data = none;
}

abbrev evening : Realm ℕ
evening = record {
  heap = heap;
  game = record {
    server = record { children = bert ∷ []; sent = []; packet = []; num_clients = 1 };
    world = record { rooms = hall ∷ []; world_map = init 1; world_name = ascii "W" };
  };
  userdb = record { users = users; saver = record { n = 0; writes = 0 } };
  verbs = init 32;
}

abbrev no_hook : ObjHook ℕ
no_hook c = none

-- The same lamp in the inventory of bert, in an empty room.
abbrev bert_with_lamp : User
bert_with_lamp = record bert_user { objects = some things }

abbrev noon : Realm ℕ
noon = record evening {
  game = record evening.game {
    world = record evening.game.world { rooms = record hall { objects = empty_map } ∷ [] };
  };
  userdb = record evening.userdb {
    users = record users { table = ((ascii "bert", bert_with_lamp) ∷ []) ∷ [] };
  };
}
