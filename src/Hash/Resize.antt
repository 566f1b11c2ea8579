-- ===== src/Hash/Resize.antt =====
-- `hash_resize` of src/hash.c: the nodes move to a table of another width, and every key finds the
-- node that it found before.
use mathlib.Core.List.{flatten}
use mathlib.Core.Option.{or_else}
use netcosm.Base.{
  ℕ, zero, suc, ◌+◌, ◌%◌, ◌<◌, ◌≡◌, refl, ◌∙◌, ◌≢◌, none, some, List, [], ◌∷◌, ◌++◌, length, get_or,
  not, replicate, ◌==◌, length-replicate, get_or-replicate, Bool-cases, inl, inr, true, false,
  arith,
}
use netcosm.Base.Run.{abort, Returns}
use netcosm.Base.Words.{u64_mod}
use netcosm.Hash.Chain.{bucket_of, find, IsLawful, IsChain, bucket_congr, find-append, find_congr}
use netcosm.Hash.Ops.{emptied, rehash_node, rehash_chain, rehash_table, resize}
use netcosm.Hash.Table.{IsPlaced, view, IsValid, Wrote, set-Wrote, bucket_of-lt, length-flatten-set}
use netcosm.Hash.Types.{Keys, Node, Chain, HashMap}

flatten-replicate {ℓ} : {A : Type ℓ} (n : ℕ) → flatten {A = A} (replicate n []) ≡ []
unfolding flatten
flatten-replicate zero = refl
flatten-replicate (suc n) = flatten-replicate n

module _ {ℓ} {K D : Type ℓ} ⦃keys : Keys K⦄ ⦃law : IsLawful keys⦄ where
  -- No two nodes of the list have equal keys.
  abbrev pub IsDistinct : List (Node K D) → Type ℓ
  IsDistinct [] = Unit
  IsDistinct (e ∷ es) = (find e.0 es ≡ none) × IsDistinct es

  find-elsewhere :
      (q : K) (n i : ℕ) (c : Chain K D) → IsChain n i c → bucket_of q n ≢ i → find q c ≡ none
  unfolding find
  find-elsewhere q n i [] h ne = refl
  find-elsewhere q n i (e ∷ c) h ne =
      ground (arith, find-elsewhere q n i c h.2 ne, bucket_congr q e.0 n)

  -- The chains `cs` are those of the buckets from `j` on.
  abbrev IsPlacedFrom : ℕ → ℕ → List (Chain K D) → Type ℓ
  IsPlacedFrom n j [] = Unit
  IsPlacedFrom n j (c ∷ cs) = IsChain n j c × IsPlacedFrom n (suc j) cs

  placed_from :
      (n j : ℕ) (cs : List (Chain K D))
      → ((i : ℕ) → IsChain n (j + i) (get_or cs i []))
      → IsPlacedFrom n j cs
  placed_from n j [] h = tt
  placed_from n j (c ∷ cs) h = (
    rw (let e : j + 0 ≡ j = omega arith in e) at (h 0),
    placed_from n (suc j) cs
        (λ i. rw (let e : suc j + i ≡ j + suc i = omega arith in e) (h (suc i))),
  )

  find-flatten_below :
      (q : K) (n j : ℕ) (cs : List (Chain K D))
      → IsPlacedFrom n j cs
      → bucket_of q n < j
      → find q (flatten cs) ≡ none
  unfolding flatten find or_else
  find-flatten_below q n j [] h lt = refl
  find-flatten_below q n j (c ∷ cs) h lt = rw find-append (
      ground (
        arith,
        find-elsewhere q n j c h.0 (omega arith),
        find-flatten_below q n (suc j) cs h.1 (omega arith),
      ))

  find-flatten :
      (q : K) (n j i : ℕ) (cs : List (Chain K D))
      → IsPlacedFrom n j cs
      → bucket_of q n ≡ j + i
      → find q (flatten cs) ≡ find q (get_or cs i [])
  unfolding flatten find or_else
  find-flatten q n j i [] h e = refl
  find-flatten q n j zero (c ∷ cs) h e =
      rw find-append (ground (arith, find-flatten_below q n (suc j) cs h.1 (omega arith)))
  find-flatten q n j (suc i) (c ∷ cs) h e = rw find-append (
      ground (
        arith,
        find-elsewhere q n j c h.0 (omega arith),
        find-flatten q n (suc j) i cs h.1 (omega arith),
      ))

  IsDistinct-append :
      (n j : ℕ) (c : Chain K D) (b : List (Node K D))
      → IsChain n j c
      → IsDistinct b
      → ((q : K) → bucket_of q n ≡ j → find q b ≡ none)
      → IsDistinct (c ++ b)
  unfolding or_else
  IsDistinct-append n j [] b h d apart = d
  IsDistinct-append n j (e ∷ c) b h d apart =
      (rw (find-append, h.1, apart e.0 h.0), IsDistinct-append n j c b h.2 d apart)

  IsDistinct-flatten :
      (n j : ℕ) (cs : List (Chain K D)) → IsPlacedFrom n j cs → IsDistinct (flatten cs)
  unfolding flatten
  IsDistinct-flatten n j [] h = tt
  IsDistinct-flatten n j (c ∷ cs) h =
      IsDistinct-append n j c (flatten cs) h.0 (IsDistinct-flatten n (suc j) cs h.1)
        (λ q e. find-flatten_below q n (suc j) cs h.1 (omega arith))

  -- In a table whose chains are in place a key finds what it finds in the list of all nodes, and
  -- that list has no key twice.
  pub flatten-view :
      (t : List (Chain K D))
      → IsPlaced t
      → IsDistinct (flatten t) × ((q : K) → find q (flatten t) ≡ view t q)
  unfolding view
  flatten-view t placed =
      let from =
        placed_from (length t) 0 t (λ i. rw (let e : 0 + i ≡ i = omega arith in e) (placed i)) in
      (
        IsDistinct-flatten (length t) 0 t from,
        λ q. find-flatten q (length t) 0 (bucket_of q (length t)) t from (omega arith),
      )

  rehash_chain-append :
      (a b : Chain K D) (m : HashMap K D)
      → rehash_chain (a ++ b) m ≡ rehash_chain b (rehash_chain a m)
  unfolding rehash_chain
  rehash_chain-append [] b m = refl
  rehash_chain-append (e ∷ a) b m = rehash_chain-append a b (rehash_node e m)

  rehash_table-flatten :
      (cs : List (Chain K D)) (m : HashMap K D) → rehash_table cs m ≡ rehash_chain (flatten cs) m
  unfolding rehash_table flatten rehash_chain
  rehash_table-flatten [] m = refl
  rehash_table-flatten (c ∷ cs) m =
      rw rehash_chain-append (rehash_table-flatten cs (rehash_chain c m))

  -- One moved node is found under its key, and counted.
  rehash_node-Wrote :
      (e : Node K D) (m : HashMap K D)
      → IsValid m
      → view m.table e.0 ≡ none
      → Wrote m.table e.0 (some e) (rehash_node e m).table × IsValid (rehash_node e m)
  unfolding rehash_node view find
  rehash_node-Wrote e m v new =
      let c = get_or m.table (bucket_of e.0 (length m.table)) [] in
      let w =
        set-Wrote m.table e.0 (some e) (e ∷ c) v.pos v.placed (refl, new, v.placed _) (λ q. refl) in
      (
        w,
        record {
          pos = rw w.width v.pos;
          placed = w.placed;
          counted = omega (
            arith,
            v.counted,
            length-flatten-set m.table _ (e ∷ c) (bucket_of-lt e.0 (length m.table) v.pos),
          );
        },
      )

  -- `r` is `m` after the nodes `es` have moved into it.
  record Moved (es : List (Node K D)) (m r : HashMap K D) : Type ℓ where
    width : length r.table ≡ length m.table
    valid : IsValid r
    added : r.n_entries ≡ (m.n_entries + length es) % u64_mod
    reads : (q : K) → view r.table q ≡ or_else (find q es) (view m.table q)

  rehash_chain-Moved :
      (es : Chain K D) (m : HashMap K D)
      → IsValid m
      → IsDistinct es
      → ((q : K) (e : Node K D) → find q es ≡ some e → view m.table q ≡ none)
      → Moved es m (rehash_chain es m)
  unfolding rehash_chain find or_else
  rehash_chain-Moved [] m v d apart = record {
    width = refl;
    valid = v;
    added = omega (arith, v.counted);
    reads = λ q. refl;
  }
  rehash_chain-Moved (e ∷ es) m v d apart =
      let (w, v') = rehash_node-Wrote e m v (apart e.0 e (rw law.same_refl)) in
      let t =
        rehash_chain-Moved es (rehash_node e m) v' d.1
          (λ q x f. ground (arith, w.reads q, apart q x, find_congr q e.0 es)) in
      record {
        width = t.width ∙ w.width;
        valid = t.valid;
        added = t.added ∙ (unfold rehash_node in omega arith);
        reads = λ q. ground (arith, t.reads q, w.reads q, find_congr q e.0 es);
      }

  pub emptied-IsValid : (n : ℕ) (m : HashMap K D) → 0 < n → IsValid (emptied n m)
  emptied-IsValid n m pos = record {
    pos = rw length-replicate pos;
    placed = λ i. rw get_or-replicate tt;
    counted = rw (flatten-replicate {ℓ} {A = Node K D} n);
  }

  -- `resize` to at least one bucket does not abort. It returns whether the width changed; the map
  -- stays valid, keeps its count, and every key finds the node that it found before.
  pub record Resized (m : HashMap K D) (new_sz : ℕ) (r : HashMap K D) : Type ℓ where
    pub width : length r.table ≡ new_sz
    pub valid : IsValid r
    pub entries : r.n_entries ≡ m.n_entries
    pub reads : (q : K) → view r.table q ≡ view m.table q

  pub resize-Resized :
      (new_sz : ℕ) (m : HashMap K D)
      → 0 < new_sz
      → IsValid m
      → Returns (resize new_sz m) λ r. (r.0 ≡ not (new_sz == length m.table)) × Resized m new_sz r.1
  unfolding resize or_else view find
  resize-Resized new_sz m pos v = elim (Bool-cases (new_sz == length m.table)) [
    | inl same ↦ (
      (false, m),
      rw same,
      (rw same, record { width = ground arith; valid = v; entries = refl; reads = λ q. refl }),
    )
    | inr differ ↦
        let (distinct, found) = flatten-view m.table v.placed in
        let m₀ = emptied new_sz m in
        let v₀ = emptied-IsValid new_sz m pos in
        let t =
          rehash_chain-Moved (flatten m.table) m₀ v₀ distinct (λ q e f. rw get_or-replicate) in
        let r = rehash_chain (flatten m.table) m₀ in
        let count : r.n_entries ≡ m.n_entries = omega (arith, t.added, v.counted) in
        (
          (true, r),
          ground (arith, differ, rehash_table-flatten m.table m₀, count),
          (
            rw differ,
            record {
              width = t.width ∙ length-replicate new_sz [];
              valid = t.valid;
              entries = count;
              reads = λ q. ground (
                arith,
                t.reads q,
                found q,
                get_or-replicate new_sz (bucket_of q (length m₀.table))
                    (let c : Chain K D = [] in c),
              );
            },
          ),
        )
  ]

  pub emptied-view : (n : ℕ) (m : HashMap K D) (q : K) → view (emptied n m).table q ≡ none
  unfolding view find
  emptied-view n m q = rw get_or-replicate

  -- A map whose nodes are in place but whose `n_entries` is not their number fails the assertion of
  -- `resize`.
  pub resize_miscounted :
      (new_sz : ℕ) (m : HashMap K D)
      → 0 < new_sz
      → (new_sz == length m.table) ≡ false
      → 0 < length m.table
      → IsPlaced m.table
      → m.n_entries ≢ length (flatten m.table) % u64_mod
      → resize new_sz m ≡ abort
  unfolding resize
  resize_miscounted new_sz m pos differ wide placed wrong =
      let (distinct, found) = flatten-view m.table placed in
      let m₀ = emptied new_sz m in
      let t =
        rehash_chain-Moved (flatten m.table) m₀ (emptied-IsValid new_sz m pos) distinct
          (λ q e f. emptied-view new_sz m q) in
      let r = rehash_chain (flatten m.table) m₀ in
      let count : m.n_entries ≢ r.n_entries = omega (arith, t.added) in
      ground (arith, differ, rehash_table-flatten m.table m₀, count)
