-- ===== src/Text/Djb.antt =====
-- src/hash.c: the hash of strings, and the two pairs of hash and comparison that the maps of the
-- program use.
use Prim.Native.Nat.{bit_xor}
use netcosm.Base.{
  ℕ, ◌+◌, ◌-◌, ◌*◌, ◌%◌, ◌≡◌, refl, sym, ◌∙◌, true, [], ◌∷◌, ltb, if◌then◌else◌, arith, ◌&&◌, ◌==◌,
}
use netcosm.Base.Words.{u32_mod}
use netcosm.Hash.Chain.{IsLawful}
use netcosm.Hash.Types.{Keys}
use netcosm.Text.{Bytes, ascii, all_lower, strcmp_eq, strcasecmp_eq}
use netcosm.Text.Case.{strcmp_eq_iff, strcasecmp-all_lower}

-- A `char` as an operand of `^` with an `unsigned`: sign-extended to 32 bits.
abbrev sign_extend : ℕ → ℕ
sign_extend c = if ltb c 128 then c else c + (u32_mod - 256)

-- `hash = ((hash << 5) + hash) ^ c` until the NUL
unfoldable pub djb_loop : ℕ → Bytes → ℕ
djb_loop h [] = h
djb_loop h (c ∷ s) = djb_loop (bit_xor ((h * 32 % u32_mod + h) % u32_mod) (sign_extend c)) s

unfoldable pub hash_djb : Bytes → ℕ
unfolding djb_loop
hash_djb s = djb_loop 5381 s

-- hash_djb with compare_strings: the maps of users, verbs, rooms, classes, commands and directions
instance abbrev pub string_keys : Keys Bytes
string_keys = record { hash = hash_djb; same = strcmp_eq }

pub string_same_refl : (a : Bytes) → strcmp_eq a a ≡ true
string_same_refl a = (strcmp_eq_iff a a).1 refl

pub string_same_trans :
    (a b c : Bytes) → strcmp_eq a b ≡ true → strcmp_eq b c ≡ true → strcmp_eq a c ≡ true
string_same_trans a b c p q =
    (strcmp_eq_iff a c).1 ((strcmp_eq_iff a b).0 p ∙ (strcmp_eq_iff b c).0 q)

pub string_same_symm : (a b : Bytes) → strcmp_eq a b ≡ strcmp_eq b a
unfolding strcmp_eq
string_same_symm [] [] = refl
string_same_symm [] (y ∷ ys) = refl
string_same_symm (x ∷ xs) [] = refl
string_same_symm (x ∷ xs) (y ∷ ys) = ground (arith, string_same_symm xs ys)

pub string_hash-same : (a b : Bytes) → strcmp_eq a b ≡ true → hash_djb a ≡ hash_djb b
string_hash-same a b h = rw ((strcmp_eq_iff a b).0 h)

instance abbrev pub string_keys-IsLawful : IsLawful string_keys
string_keys-IsLawful = record {
  same_refl = string_same_refl;
  same_symm = string_same_symm;
  same_trans = string_same_trans;
  hash-same = string_hash-same;
}

-- The name of an object, as the maps of objects have it for a key.
pub record ObjName : Type 0 where
  pub text : Bytes

-- hash_djb with compare_strings_nocase: the maps of objects
instance abbrev pub name_keys : Keys ObjName
name_keys = record { hash = λ n. hash_djb n.text; same = λ a b. strcasecmp_eq a.text b.text }

-- The same hash, with the comparison between names of one hash: names that agree but for their case are
-- equal where their hashes are. The comparison of the table above is asked in one bucket only.
instance abbrev pub cased_keys : Keys ObjName
cased_keys = record {
  hash = λ n. hash_djb n.text;
  same = λ a b. strcasecmp_eq a.text b.text && (hash_djb a.text == hash_djb b.text);
}

pub nocase_same_refl : (a : Bytes) → strcasecmp_eq a a ≡ true
nocase_same_refl a = strcasecmp-all_lower a a ∙ string_same_refl (all_lower a)

pub nocase_same_symm : (a b : Bytes) → strcasecmp_eq a b ≡ strcasecmp_eq b a
nocase_same_symm a b =
    strcasecmp-all_lower a b
    ∙ string_same_symm (all_lower a) (all_lower b)
    ∙ sym (strcasecmp-all_lower b a)

pub nocase_same_trans :
    (a b c : Bytes) → strcasecmp_eq a b ≡ true → strcasecmp_eq b c ≡ true → strcasecmp_eq a c ≡ true
nocase_same_trans a b c p q =
    strcasecmp-all_lower a c
    ∙ string_same_trans (all_lower a) (all_lower b) (all_lower c)
        (sym (strcasecmp-all_lower a b) ∙ p) (sym (strcasecmp-all_lower b c) ∙ q)

instance abbrev pub cased_keys-IsLawful : IsLawful cased_keys
cased_keys-IsLawful = record {
  same_refl = λ a. ground (arith, nocase_same_refl a.text);
  same_symm = λ a b. ground (arith, nocase_same_symm a.text b.text);
  same_trans = λ a b c p q. ground (arith, p, q, nocase_same_trans a.text b.text c.text);
  hash-same = λ a b h. ground (arith, h);
}

-- On names in lower case the two comparisons are one.
pub cased-lower :
    (a b : ObjName)
    → all_lower a.text ≡ a.text
    → all_lower b.text ≡ b.text
    → name_keys.same a b ≡ cased_keys.same a b
cased-lower a b h k =
    let exact : strcasecmp_eq a.text b.text ≡ strcmp_eq a.text b.text =
      rw (strcasecmp-all_lower, h, k) refl in
    ground (arith, exact, string_hash-same a.text b.text)

-- The same pair at all names.
abbrev pub nocase_keys : Keys Bytes
nocase_keys = record { hash = hash_djb; same = strcasecmp_eq }

-- At names of any case the pair is not lawful: two names that it takes for equal can differ in hash.
pub nocase_keys_unlawful : ¬ (IsLawful nocase_keys)
unfolding hash_djb strcasecmp_eq
nocase_keys_unlawful law =
    let e : hash_djb (ascii "A") ≡ hash_djb (ascii "a") =
      law.hash-same (ascii "A") (ascii "a") refl in
    absurd (omega arith)
