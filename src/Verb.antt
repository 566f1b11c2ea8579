-- ===== src/Verb.antt =====
-- src/verb.c: verbs, their classes, and their place in the world file. The classes are those that the
-- world module lists; what their hook does is outside.
pub mod Laws
use netcosm.Base.{ℕ, Bool, Option, none, some, List, [], ◌∷◌, ◌++◌, length, ◌≡◌}
use netcosm.Base.Run.{Run, ok, abort, ◌>>=◌}
use netcosm.Hash.Ops.{insert, lookup}
use netcosm.Hash.Types.{HashMap, init}
use netcosm.Stream.{Reader, write_string, read_string}
use netcosm.Text.Djb.{string_keys}
use netcosm.Text.{Bytes}

-- struct verb_class_t, by its name
pub record VerbClass : Type 0 where
  pub class_name : Bytes

-- struct verb_t; a name that is NULL is the empty one
pub record Verb : Type 0 where
  pub name : Bytes
  pub class : VerbClass

abbrev pub ClassMap : Type 0
ClassMap = HashMap Bytes VerbClass

-- The loop of verb_new that fills the map of classes: a second class of a name aborts.
unfoldable pub insert_classes : List VerbClass → ClassMap → Run ClassMap
unfolding insert
insert_classes [] m = ok m
insert_classes (c ∷ cs) m =
    insert c.class_name c m >>= λ r. elim r.0 [ some old ↦ abort | none ↦ insert_classes cs r.1 ]

unfoldable pub class_map : List VerbClass → Run ClassMap
unfolding insert_classes init
class_map cs = insert_classes cs (init (length cs))

abbrev with_class : Option VerbClass → Run Verb
with_class none = abort
with_class (some c) = ok (record { name = []; class = c })

-- verb_new, on the map of classes; an unknown class aborts.
unfoldable pub verb_new : ClassMap → Bytes → Run Verb
unfolding lookup
verb_new m class_name = with_class (lookup class_name m)

unfoldable pub verb_write : Verb → Bytes
unfolding write_string
verb_write verb = write_string verb.class.class_name ++ write_string verb.name

unfoldable pub verb_read : ClassMap → Reader Verb
verb_read m fd = read_string fd >>= λ (class_name, fd). verb_new m class_name >>= λ verb.
    read_string fd >>= λ (name, fd). ok (record verb { name = name }, fd)
