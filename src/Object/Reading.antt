-- ===== src/Object/Reading.antt =====
-- An object that was written is read back.
use mathlib.Core.List.{append_assoc}
use netcosm.Base.{
  ℕ, zero, suc, ◌+◌, ◌≤◌, ◌<◌, ◌≡◌, refl, Bool, true, false, none, some, List, [], ◌∷◌, ◌++◌,
  length, is_empty, length-append, arith,
}
use netcosm.Base.Run.{ok}
use netcosm.Base.Words.{u64_mod, inc64}
use netcosm.Hash.Ops.{lookup}
use netcosm.Object.{
  ClassMap, Object, Hooks, obj_new, obj_write, obj_read, write_aliases, read_aliases, deserialized,
}
use netcosm.Stream.Laws.{read_string-write_string, read_word-le_bytes, length-le_bytes}
use netcosm.Stream.{
  write_string, read_bool, write_bool, read_word, read_exact, le_value, read_uint64, write_uint64,
  le_bytes,
}
use netcosm.Text.Djb.{string_keys}
use netcosm.Text.{Bytes}

pub read_bool-write_bool :
    (b : Bool) (rest : Bytes) → read_bool (write_bool b ++ rest) ≡ ok (b, rest)
unfolding read_bool write_bool read_word read_exact le_value
read_bool-write_bool true rest = ground arith
read_bool-write_bool false rest = ground arith

pub read_uint64-write_uint64 :
    (n : ℕ) (rest : Bytes) → n < u64_mod → read_uint64 (write_uint64 n ++ rest) ≡ ok (n, rest)
unfolding read_uint64 write_uint64
read_uint64-write_uint64 n rest h = read_word-le_bytes 8 n rest h

-- The aliases that a file can hold: not empty, and shorter than 2 ^ 64 bytes.
abbrev pub AreAliases : List Bytes → Type 0
AreAliases [] = Unit
AreAliases (s ∷ ss) = (is_empty s ≡ false) × (length s < u64_mod) × AreAliases ss

length-write_aliases : (ss : List Bytes) → length ss + 1 ≤ length (write_aliases ss)
unfolding write_aliases write_string
length-write_aliases [] = omega (arith, length-append (le_bytes 8 0) [], length-le_bytes 8 0)
length-write_aliases (s ∷ ss) = omega (
  arith,
  length-write_aliases ss,
  length-append (write_string s) (write_aliases ss),
  length-append (le_bytes 8 (length s)) s,
  length-le_bytes 8 (length s),
)

read_aliases-write_aliases :
    (n : ℕ) (ss : List Bytes) (rest : Bytes)
    → AreAliases ss
    → length ss < n
    → read_aliases n (write_aliases ss ++ rest) ≡ ok (ss, rest)
unfolding read_aliases write_aliases
read_aliases-write_aliases zero ss rest h k = absurd (omega (arith, k))
read_aliases-write_aliases (suc n) [] rest h k =
    rw (read_string-write_string [] rest (omega arith)) refl
read_aliases-write_aliases (suc n) (s ∷ ss) rest (full, short, h) k = rw (
  append_assoc (write_string s) (write_aliases ss) rest,
  read_string-write_string s (write_aliases ss ++ rest) short,
  full,
  read_aliases-write_aliases n ss rest h (omega (arith, k)),
)

-- What obj_write puts behind the aliases.
abbrev serialized {ℓ} : {U : Type ℓ} → Hooks U → Object U → Bytes
serialized hooks obj = elim (hooks.hook_serialize obj.class) [ none ↦ [] | some f ↦ f obj ]

-- The fields of an object fit the file.
abbrev pub IsStorable {ℓ} : {U : Type ℓ} → Object U → Type 0
IsStorable obj =
    (obj.id < u64_mod)
    × (length obj.name < u64_mod)
    × (length obj.class.class_name < u64_mod)
    × AreAliases obj.alias_list

-- An object whose class the map of classes has and whose fields fit the file is read back whole, with
-- one reference, where the hooks of its class read back what they write; what follows it stays in the
-- file, and the reading takes one id from the counter.
pub obj_read-obj_write {ℓ} :
    {U : Type ℓ} (hooks : Hooks U) (m : ClassMap) (idcounter : ℕ) (obj : Object U) (rest : Bytes)
    → lookup obj.class.class_name m ≡ some obj.class
    → IsStorable obj
    → deserialized hooks
        (record obj { userdata = none; refcount = 1 })
        ((elim (hooks.hook_serialize obj.class) [ none ↦ [] | some f ↦ f obj ]) ++ rest)
      ≡ ok (record obj { refcount = 1 }, rest)
    → obj_read hooks m idcounter (obj_write hooks obj ++ rest)
      ≡ ok (record obj { refcount = 1 }, inc64 idcounter, rest)
unfolding obj_read obj_write obj_new
obj_read-obj_write hooks m idcounter obj rest known (id_fits, name_fits, class_fits, aliases)
      hooked =
    let tail : Bytes = serialized hooks obj ++ rest in
    let behind4 : Bytes = write_aliases obj.alias_list ++ tail in
    let behind3 : Bytes = write_bool obj.default_article ++ behind4 in
    let behind2 : Bytes = write_bool obj.hidden ++ behind3 in
    let behind1 : Bytes = write_string obj.name ++ behind2 in
    let behind0 : Bytes = write_uint64 obj.id ++ behind1 in
    let whole : obj_write hooks obj ++ rest ≡ write_string obj.class.class_name ++ behind0 =
      simp append_assoc in
    rw (
      whole,
      read_string-write_string obj.class.class_name behind0 class_fits,
      known,
      read_uint64-write_uint64 obj.id behind1 id_fits,
      read_string-write_string obj.name behind2 name_fits,
      read_bool-write_bool obj.hidden behind3,
      read_bool-write_bool obj.default_article behind4,
      read_aliases-write_aliases (length behind4) obj.alias_list tail aliases (
          omega (
            arith,
            length-append (write_aliases obj.alias_list) tail,
            length-write_aliases obj.alias_list,
          )),
      hooked,
    )
