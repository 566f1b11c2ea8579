-- ===== src/Object.antt =====
-- src/obj.c: objects, their classes, reference counts, and their place in the world file. The classes
-- are those that the world module lists; their hooks are a parameter. `n_alias`, which obj.c does not
-- touch, is left out.
pub mod Classes
pub mod Counts
pub mod Reading
use netcosm.Base.{
  ℕ, zero, suc, ◌+◌, ◌-◌, ◌%◌, Bool, true, false, Option, none, some, List, [], ◌∷◌, ◌++◌, length,
  ◌/◌, ◌==◌, if◌then◌else◌, is_empty,
}
use netcosm.Base.Run.{Run, ok, abort, ◌>>=◌}
use netcosm.Base.Words.{u32_mod, u64_mod, inc64}
use netcosm.Hash.Ops.{insert, lookup}
use netcosm.Hash.Types.{HashMap, init}
use netcosm.Stream.{
  Reader, write_string, read_string, write_uint64, read_uint64, write_bool, read_bool,
}
use netcosm.Text.Djb.{string_keys}
use netcosm.Text.{Bytes}

-- struct obj_class_t, by its name
pub record ObjClass : Type 0 where
  pub class_name : Bytes

-- struct object_t; `alias_list` is the list of names
pub record Object {ℓ} (U : Type ℓ) : Type ℓ where
  pub id : ℕ
  pub name : Bytes
  pub class : ObjClass
  pub alias_list : List Bytes
  pub hidden : Bool
  pub default_article : Bool
  pub userdata : Option U
  pub refcount : ℕ

-- The hooks of a class that obj.c calls for their result; those that are NULL are `none`.
pub record Hooks {ℓ} (U : Type ℓ) : Type ℓ where
  pub hook_serialize : ObjClass → Option (Object U → Bytes)
  pub hook_deserialize : ObjClass → Option (Object U → Reader (Object U))
  pub hook_dupdata : ObjClass → Option (Object U → Option U)

abbrev pub ClassMap : Type 0
ClassMap = HashMap Bytes ObjClass

-- The aliases, and the empty string that ends them.
unfoldable pub write_aliases : List Bytes → Bytes
unfolding write_string
write_aliases [] = write_string []
write_aliases (s ∷ ss) = write_string s ++ write_aliases ss

-- The loop that reads aliases up to an empty string; every round takes eight bytes at least, so that
-- as many rounds as there are bytes are enough.
unfoldable pub read_aliases : ℕ → Reader (List Bytes)
read_aliases zero fd = abort
read_aliases (suc n) fd = read_string fd >>= λ (s, fd).
    let rest = read_aliases n fd in
    if is_empty s then ok ([], fd) else (rest >>= λ (ss, fd). ok (s ∷ ss, fd))

module _ {ℓ} {U : Type ℓ} where
  abbrev pub with_class : ℕ → Option ObjClass → Run (Object U × ℕ)
  with_class id none = abort
  with_class id (some c) = ok (
    record {
      id = id;
      name = [];
      class = c;
      alias_list = [];
      hidden = false;
      default_article = true;
      userdata = none;
      refcount = 1;
    },
    inc64 id,
  )

  -- obj_new, on the map of classes and the next id; an unknown class aborts. It returns the object and
  -- the id that follows.
  unfoldable pub obj_new : ClassMap → ℕ → Bytes → Run (Object U × ℕ)
  unfolding lookup
  obj_new m idcounter class_name = with_class idcounter (lookup class_name m)

  unfoldable pub obj_write : Hooks U → Object U → Bytes
  unfolding write_string write_uint64 write_bool write_aliases
  obj_write hooks obj =
      write_string obj.class.class_name
      ++ write_uint64 obj.id
      ++ write_string obj.name
      ++ write_bool obj.hidden
      ++ write_bool obj.default_article
      ++ write_aliases obj.alias_list
      ++ (elim (hooks.hook_serialize obj.class) [ none ↦ [] | some f ↦ f obj ])

  abbrev pub deserialized : Hooks U → Object U → Reader (Object U)
  deserialized hooks obj fd = elim (hooks.hook_deserialize obj.class) [
    | none ↦ ok (obj, fd)
    | some f ↦ f obj fd
  ]

  -- The object, the next id, and the bytes left.
  unfoldable pub obj_read : Hooks U → ClassMap → ℕ → Bytes → Run (Object U × ℕ × Bytes)
  obj_read hooks m idcounter fd = read_string fd >>= λ (class_name, fd).
      obj_new m idcounter class_name >>= λ (obj, next). read_uint64 fd >>= λ (id, fd).
      read_string fd >>= λ (name, fd). read_bool fd >>= λ (hidden, fd).
      read_bool fd >>= λ (article, fd). read_aliases (length fd) fd >>= λ (aliases, fd).
      deserialized hooks
        (record obj {
          id = id;
          name = name;
          hidden = hidden;
          default_article = article;
          alias_list = aliases;
        })
        fd
      >>= λ (obj, fd). ok (obj, next, fd)

  -- obj_copy keeps neither the aliases nor `default_article`.
  unfoldable pub obj_copy : Hooks U → ClassMap → ℕ → Object U → Run (Object U × ℕ)
  unfolding obj_new
  obj_copy hooks m idcounter obj = obj_new m idcounter obj.class.class_name >>= λ (ret, next). ok (
    record ret {
      name = obj.name;
      hidden = obj.hidden;
      userdata = elim (hooks.hook_dupdata obj.class) [ none ↦ ret.userdata | some f ↦ f obj ];
    },
    next,
  )

  -- One more reference, counted by an `unsigned`.
  unfoldable pub obj_dup : Object U → Object U
  obj_dup obj = record obj { refcount = (obj.refcount + 1) % u32_mod }

  -- `none` is the object freed.
  unfoldable pub obj_free : Object U → Option (Object U)
  obj_free obj =
      let left = (obj.refcount + (u32_mod - 1)) % u32_mod in
      if left == 0 then none else some (record obj { refcount = left })

  -- `obj_compare(a, b) == 0`
  unfoldable pub obj_same : Object U → Object U → Bool
  obj_same a b = a.id == b.id
