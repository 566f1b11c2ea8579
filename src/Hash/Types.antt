-- ===== src/Hash/Types.antt =====
-- src/hash.c and src/hash.h: the chained hash table. The table is the list of its chains, so that
-- `table_sz` is its length; a chain is the list of its nodes. Data pointers are the values `D`
-- themselves, and NULL is `none`. The two function pointers that `hash_init` is given are the
-- instance `Keys`. Doubling `table_sz` cannot wrap: an array of 2 ^ 63 pointers fits no memory.
use netcosm.Base.{ℕ, Bool, false, Option, none, List, [], ◌∷◌, ◌++◌, replicate, ◌==◌, if◌then◌else◌}

-- The hash function and the comparison of a map; `same a b` is `compare(a, b) == 0`.
pub record Keys {ℓ} (K : Type ℓ) : Type ℓ where
  pub hash : K → ℕ
  pub same : K → K → Bool

-- struct hash_node, without `next`
abbrev pub Node {ℓ} : Type ℓ → Type ℓ → Type ℓ
Node K D = K × D

abbrev pub Chain {ℓ} : Type ℓ → Type ℓ → Type ℓ
Chain K D = List (Node K D)

-- struct hash_map. The callbacks `free_key` and `free_data` are outside the table: the map records
-- whether they are set, and operations return the calls that they make.
pub record HashMap {ℓ} (K D : Type ℓ) : Type ℓ where
  pub table : List (Chain K D)
  pub n_entries : ℕ
  pub used_buckets : ℕ
  pub free_key : Bool
  pub free_data : Bool
  pub dup_data : Option (D → D)

-- One call of a free callback.
pub data Release {ℓ} (K D : Type ℓ) : Type ℓ where
  key : K → Release K D
  datum : D → Release K D

module _ {ℓ} {K D : Type ℓ} where
  -- A size of zero is taken for one.
  unfoldable pub init : ℕ → HashMap K D
  init sz = record {
    table = replicate (if sz == 0 then 1 else sz) [];
    n_entries = 0;
    used_buckets = 0;
    free_key = false;
    free_data = false;
    dup_data = none;
  }

  unfoldable pub set_free_key : Bool → HashMap K D → HashMap K D
  set_free_key cb m = record m { free_key = cb }

  unfoldable pub set_free_data : Bool → HashMap K D → HashMap K D
  set_free_data cb m = record m { free_data = cb }

  unfoldable pub set_dup_data : Option (D → D) → HashMap K D → HashMap K D
  set_dup_data cb m = record m { dup_data = cb }

  unfoldable pub size : HashMap K D → ℕ
  size m = m.n_entries

  unfoldable pub release_key : HashMap K D → Node K D → List (Release K D)
  release_key m e = if m.free_key then key e.0 ∷ [] else []

  unfoldable pub release_data : HashMap K D → Node K D → List (Release K D)
  release_data m e = if m.free_data then datum e.1 ∷ [] else []

  unfoldable pub free_chain : HashMap K D → Chain K D → List (Release K D)
  unfolding release_key release_data
  free_chain m [] = []
  free_chain m (e ∷ c) = release_data m e ++ (release_key m e ++ free_chain m c)

  unfoldable pub free_table : HashMap K D → List (Chain K D) → List (Release K D)
  unfolding free_chain
  free_table m [] = []
  free_table m (c ∷ cs) = free_chain m c ++ free_table m cs

  -- What freeing the map calls, in order.
  unfoldable pub free : HashMap K D → List (Release K D)
  unfolding free_table
  free m = free_table m m.table
