-- ===== src/Tests/Worlds.antt =====
-- Verbs and objects in the world file, and the first object of a program, at concrete input.
use netcosm.Base.{
  ℕ, ◌≡◌, refl, true, false, Option, none, some, List, [], ◌∷◌, ◌++◌, if◌then◌else◌, arith,
}
use netcosm.Base.Run.{ok, abort}
use netcosm.Base.Words.{inc64}
use netcosm.Hash.Chain.{bucket_of, find}
use netcosm.Hash.Ops.{lookup}
use netcosm.Hash.Types.{HashMap}
use netcosm.Object.Classes.{class_named, first_obj_new, first_obj_new-class_named, has_twin}
use netcosm.Object.Reading.{obj_read-obj_write}
use netcosm.Object.{Object, ObjClass, Hooks, obj_read, obj_write, with_class}
use netcosm.Stream.{Reader}
use netcosm.Text
use netcosm.Text.Djb.{string_keys, hash_djb}
use netcosm.Text.{Bytes, ascii}
use netcosm.Verb.Laws.{verb_read-verb_write}
use netcosm.Verb.{Verb, VerbClass, verb_read, verb_write}

abbrev one_entry : {C : Type 0} → Bytes → C → HashMap Bytes C
one_entry name c = record {
  table = ((name, c) ∷ []) ∷ [];
  n_entries = 1;
  used_buckets = 1;
  free_key = false;
  free_data = false;
  dup_data = none;
}

abbrev dig_class : VerbClass
dig_class = record { class_name = ascii "dig" }

abbrev dig : Verb
dig = record { name = ascii "dig"; class = dig_class }

dig_known : lookup (ascii "dig") (one_entry (ascii "dig") dig_class) ≡ some dig_class
unfolding lookup find bucket_of hash_djb Text.strcmp_eq
dig_known = refl

verb_read-verb_write_example :
    verb_read (one_entry (ascii "dig") dig_class) (verb_write dig ++ ascii "rest")
    ≡ ok (dig, ascii "rest")
verb_read-verb_write_example =
    verb_read-verb_write (one_entry (ascii "dig") dig_class) dig (ascii "rest") dig_known
      (omega arith) (omega arith)

-- The user data is one byte.
abbrev byte_of : Option ℕ → Bytes
byte_of none = 0 ∷ []
byte_of (some n) = n ∷ []

abbrev read_byte : Object ℕ → Reader (Object ℕ)
read_byte obj [] = abort
read_byte obj (n ∷ fd) = ok (record obj { userdata = some n }, fd)

abbrev byte_hooks : Hooks ℕ
byte_hooks = record {
  hook_serialize = λ c. some (λ obj. byte_of obj.userdata);
  hook_deserialize = λ c. some read_byte;
  hook_dupdata = λ c. some (λ obj. obj.userdata);
}

abbrev food_class : ObjClass
food_class = record { class_name = ascii "food" }

abbrev apple : Object ℕ
apple = record {
  id = 7;
  name = ascii "apple";
  class = food_class;
  alias_list = ascii "fruit" ∷ [];
  hidden = true;
  default_article = false;
  userdata = some 3;
  refcount = 1;
}

food_known : lookup (ascii "food") (one_entry (ascii "food") food_class) ≡ some food_class
unfolding lookup find bucket_of hash_djb Text.strcmp_eq
food_known = refl

obj_read-obj_write_example :
    obj_read byte_hooks
      (one_entry (ascii "food") food_class)
      40
      (obj_write byte_hooks apple ++ ascii "x")
    ≡ ok (apple, inc64 40, ascii "x")
obj_read-obj_write_example =
    obj_read-obj_write byte_hooks (one_entry (ascii "food") food_class) 40 apple (ascii "x")
      food_known (omega arith, omega arith, omega arith, (refl, omega arith, tt)) refl

abbrev two_classes : List ObjClass
two_classes = food_class ∷ record { class_name = ascii "tool" } ∷ []

first_obj_new-class_named_example : first_obj_new {U = ℕ} two_classes 7 (ascii "tool") ≡ (
    if has_twin (λ s. false) two_classes
    then abort
    else with_class 7 (class_named (ascii "tool") two_classes))
first_obj_new-class_named_example = first_obj_new-class_named two_classes 7 (ascii "tool")
