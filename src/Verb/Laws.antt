-- ===== src/Verb/Laws.antt =====
-- A verb that was written is read back.
use mathlib.Core.List.{append_assoc}
use netcosm.Base.{◌<◌, ◌≡◌, some, ◌++◌, length}
use netcosm.Base.Run.{ok}
use netcosm.Base.Words.{u64_mod}
use netcosm.Hash.Ops.{lookup}
use netcosm.Stream.Laws.{read_string-write_string}
use netcosm.Stream.{write_string}
use netcosm.Text.Djb.{string_keys}
use netcosm.Text.{Bytes}
use netcosm.Verb.{Verb, ClassMap, verb_new, verb_write, verb_read}

-- A verb whose class the map of classes has, with names shorter than 2 ^ 64 bytes, is read back
-- whole, and what follows it stays in the file.
pub verb_read-verb_write :
    (m : ClassMap) (verb : Verb) (rest : Bytes)
    → lookup verb.class.class_name m ≡ some verb.class
    → length verb.class.class_name < u64_mod
    → length verb.name < u64_mod
    → verb_read m (verb_write verb ++ rest) ≡ ok (verb, rest)
unfolding verb_read verb_write verb_new
verb_read-verb_write m verb rest known short_class short_name =
    let class_name : Bytes = verb.class.class_name in
    rw (
      append_assoc (write_string class_name) (write_string verb.name) rest,
      read_string-write_string class_name (write_string verb.name ++ rest) short_class,
      known,
      read_string-write_string verb.name rest short_name,
    )
