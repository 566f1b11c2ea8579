-- ===== src/Object/Classes.antt =====
-- src/obj.c: the map of classes that obj_new fills from the list of the world module.
use netcosm.Base.{
  ◌+◌, ◌/◌, ℕ, ◌≡◌, ◌∙◌, refl, Bool, false, ◌||◌, Option, none, some, List, [], ◌∷◌, length,
  is_some, if◌then◌else◌, arith, inl, inr, Option-cases,
}
use netcosm.Base.Run.{Run, ok, abort, ◌>>=◌}
use netcosm.Hash.Lifecycle.{init-IsValid}
use netcosm.Hash.Lookups.{insert_absent, insert_present, lookup_congr}
use netcosm.Hash.Ops.{insert, lookup}
use netcosm.Hash.Table.{IsValid}
use netcosm.Hash.Types.{init}
use netcosm.Object.{ClassMap, ObjClass, Object, obj_new, with_class}
use netcosm.Text.Djb.{string_keys, string_keys-IsLawful}
use netcosm.Text.{Bytes, strcmp_eq}

-- The loop of obj_new that fills the map: a second class of a name aborts.
unfoldable pub insert_classes : List ObjClass → ClassMap → Run ClassMap
unfolding insert
insert_classes [] m = ok m
insert_classes (c ∷ cs) m =
    insert c.class_name c m >>= λ r. elim r.0 [ some old ↦ abort | none ↦ insert_classes cs r.1 ]

unfoldable pub class_map : List ObjClass → Run ClassMap
unfolding insert_classes init
class_map cs = insert_classes cs (init (length cs / 2 + 1))

-- The first obj_new of the program, on the list of classes.
unfoldable pub first_obj_new {ℓ} : {U : Type ℓ} → List ObjClass → ℕ → Bytes → Run (Object U × ℕ)
unfolding class_map obj_new
first_obj_new cs idcounter class_name = class_map cs >>= λ m. obj_new m idcounter class_name

-- The class of a name, in the list.
unfoldable pub class_named : Bytes → List ObjClass → Option ObjClass
class_named q [] = none
class_named q (c ∷ cs) = if strcmp_eq q c.class_name then some c else class_named q cs

-- A class has a name that is taken before it: by an earlier class, or in `taken`.
unfoldable pub has_twin : (Bytes → Bool) → List ObjClass → Bool
has_twin taken [] = false
has_twin taken (c ∷ cs) =
    taken c.class_name || has_twin (λ q. strcmp_eq q c.class_name || taken q) cs

abbrev or_found : Option ObjClass → Option ObjClass → Option ObjClass
or_found none late = late
or_found (some c) late = some c

insert_classes-class_named {ℓ} :
    {B : Type ℓ} (f : Option ObjClass → Run B) (q : Bytes) (cs : List ObjClass) (m : ClassMap)
    (taken : Bytes → Bool)
    → IsValid m
    → ((s : Bytes) → is_some (lookup s m) ≡ taken s)
    → (insert_classes cs m >>= λ r. f (lookup q r))
      ≡ (if has_twin taken cs then abort else f (or_found (lookup q m) (class_named q cs)))
unfolding insert_classes class_named has_twin
insert_classes-class_named f q [] m taken v same = ground arith
insert_classes-class_named f q (c ∷ cs) m taken v same =
    elim (Option-cases (lookup c.class_name m)) [
      | inr (x, present) ↦
          rw (insert_present c.class_name c x m v present)
            (ground (arith, same c.class_name, present))
      | inl absent ↦
          let (r, run, u) = insert_absent c.class_name c m v absent in
          let later =
            insert_classes-class_named f q cs r (λ s. strcmp_eq s c.class_name || taken s) u.valid
              (λ s. ground (arith, u.finds s, same s)) in
          rw run (
            later
            ∙ ground (arith, same c.class_name, absent, u.finds q, lookup_congr q c.class_name m))
    ]

-- The first object of a program is not made where two classes have one name, or where none has the name
-- that is asked for; else it is a new object of the class of that name in the list.
pub first_obj_new-class_named {ℓ} :
    {U : Type ℓ} (cs : List ObjClass) (idcounter : ℕ) (class_name : Bytes)
    → first_obj_new {U = U} cs idcounter class_name ≡ (
        if has_twin (λ s. false) cs
        then abort
        else with_class idcounter (class_named class_name cs))
unfolding first_obj_new class_map obj_new
first_obj_new-class_named cs idcounter class_name =
    let (v, _, empty) = init-IsValid {K = Bytes} {D = ObjClass} (length cs / 2 + 1) in
    insert_classes-class_named (with_class idcounter) class_name cs (init (length cs / 2 + 1))
      (λ s. false) v (λ s. rw (empty s) refl)
    ∙ rw (empty class_name) refl
