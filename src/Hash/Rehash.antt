-- ===== src/Hash/Rehash.antt =====
-- src/hash.c: a bucket that is put into its slot, and the rehash, which puts all of them.
use mathlib.Core.List.{flatten}
use crypti.Base.{
  ℕ, ◌+◌, ◌%◌, ◌<◌, ◌≡◌, refl, sym, ap, ◌∙◌, ◌≢◌, inl, inr, Bool, true, false, not, ◌&&◌, Option,
  none, some, List, [], ◌∷◌, ◌++◌, arith, ◌==◌, if◌then◌else◌, ==_iff, Bool-cases, length, get_or,
  set, length-set,
}
use crypti.Hash.{Keys, Chain, find, place_chain, collides, rehash_chain, rehash}
use crypti.Hash.Chain.{IsDistinct, find_first, find-place_chain, place_chain-IsDistinct, cmpl_refl}
use crypti.Hash.Slots.{
  get_or-set, total, excess, total-set, excess-set, length-place_chain, Hashed, Placed, Placed-get,
  Placed-set, place_chain-Hashed, or_else,
}

module _ {K V : Type 0} (keys : Keys K) (size : ℕ) where
  open keys use {hash_cb, cmpl_cb, cmpl_iff}

  -- `size` slots with each entry in the slot of its key, and the collisions that are counted.
  pub record Filled (arr : List (Chain K V)) (collision : ℕ) : Type 0 where
    pub positive : 0 < size
    pub slots : length arr ≡ size
    pub placed : Placed keys size 0 arr
    pub counted : excess arr ≡ collision

  -- What is found for a key.
  abbrev pub view : List (Chain K V) → K → Option V
  view arr j = find keys j (get_or arr (hash_cb j % size) [])

  -- The slot of a key.
  pub own_slot :
      (arr : List (Chain K V)) (collision : ℕ) (k : K)
      → Filled arr collision
      → (hash_cb k % size < length arr)
        × Hashed keys size (hash_cb k % size) (get_or arr (hash_cb k % size) [])
        × IsDistinct keys (get_or arr (hash_cb k % size) [])
  own_slot arr collision k f =
      let n = hash_cb k % size in
      let inside : n < length arr = grind (arith, f.slots, f.positive) in
      let (h, d) = Placed-get keys size 0 n arr f.placed inside in
      let e : 0 + n ≡ n = omega arith in (inside, (rw e at h), d)

  -- One slot is replaced by another in which one key may have another value.
  pub view-set :
      (arr : List (Chain K V)) (collision : ℕ) (k : K) (chain : Chain K V) (o : Option V)
      → Filled arr collision
      → ((j : K)
          → find keys j chain
            ≡ (if cmpl_cb k j then o else find keys j (get_or arr (hash_cb k % size) [])))
      → (j : K)
      → view (set arr (hash_cb k % size) chain) j ≡ (if cmpl_cb k j then o else view arr j)
  view-set arr collision k chain o f inner j =
      let n = hash_cb k % size in
      let m = hash_cb j % size in
      let at = get_or-set arr n m chain [] (own_slot arr collision k f).0 in
      elim (Bool-cases (n == m)) [
        | inl same ↦
            let e : n ≡ m = (==_iff n m).0 same in
            rw (at, same)
              (inner j ∙ ap (λ l. if cmpl_cb k j then o else find keys j (get_or arr l [])) e)
        | inr apart ↦ elim (Bool-cases (cmpl_cb k j)) [
          | inl t ↦
              let e : n ≡ m = ap (λ x. hash_cb x % size) ((cmpl_iff k j).0 t) in
              absurd (ground arith)
          | inr t ↦ rw (at, apart, t) refl
        ]
      ]

  -- The array with one more entry.
  abbrev pub placed_in : List (Chain K V) → K → V → List (Chain K V)
  placed_in arr k v =
      set arr (hash_cb k % size) (place_chain (get_or arr (hash_cb k % size) []) k v)

  pub record Placing (arr : List (Chain K V)) (collision : ℕ) (k : K) (v : V) : Type 0 where
    pub filled :
        Filled (placed_in arr k v) (collision + collides (get_or arr (hash_cb k % size) []))
    pub views : (j : K) → view (placed_in arr k v) j ≡ (if cmpl_cb k j then some v else view arr j)
    pub more : total (placed_in arr k v) ≡ total arr + 1

  pub place_lem :
      (arr : List (Chain K V)) (collision : ℕ) (k : K) (v : V)
      → Filled arr collision
      → view arr k ≡ none
      → Placing arr collision k v
  place_lem arr collision k v f new =
      let n = hash_cb k % size in
      let chain = get_or arr n [] in
      let (inside, h, d) = own_slot arr collision k f in
      let len = length-place_chain chain k v in
      record {
        filled = record {
          positive = f.positive;
          slots = length-set arr n (place_chain chain k v) ∙ f.slots;
          placed =
              (let e : 0 + n ≡ n = omega arith in
                Placed-set keys size 0 n arr (place_chain chain k v) f.placed
                  (rw e (place_chain-Hashed keys size n chain k v h refl))
                  (place_chain-IsDistinct keys chain k v d new));
          counted =
              omega (arith, excess-set arr n (place_chain chain k v) inside, len.1, f.counted);
        };
        views =
            view-set arr collision k (place_chain chain k v) (some v) f
              λ j. find-place_chain keys chain k j v new;
        more = omega (arith, total-set arr n (place_chain chain k v) inside, len.0);
      }

  -- All entries of a list are put in, in order.
  pub place_all : Chain K V → List (Chain K V) × ℕ → List (Chain K V) × ℕ
  place_all [] st = st
  place_all ((k, v) ∷ es) (arr, collision) =
      place_all es (placed_in arr k v, collision + collides (get_or arr (hash_cb k % size) []))

  pub record PlacingAll (es : Chain K V) (arr : List (Chain K V)) (st : List (Chain K V) × ℕ)
      : Type 0 where
    pub filled : Filled st.0 st.1
    pub views : (j : K) → view st.0 j ≡ or_else {K = K} keys size (find keys j es) (view arr j)
    pub more : total st.0 ≡ total arr + length es

  pub place_all_lem :
      (es : Chain K V) (arr : List (Chain K V)) (collision : ℕ)
      → Filled arr collision
      → IsDistinct keys es
      → ((j : K) → find keys j es ≢ none → view arr j ≡ none)
      → PlacingAll es arr (place_all es (arr, collision))
  unfolding place_all
  place_all_lem [] arr collision f d apart = record {
    filled = f;
    views = λ j. (unfold find in refl);
    more = omega arith;
  }
  place_all_lem ((k, v) ∷ es) arr collision f d apart =
      let new : view arr k ≡ none =
        apart k (λ n. cc (n, find_first keys k k v es, cmpl_refl keys k)) in
      let p = place_lem arr collision k v f new in
      let gone = λ (j : K) (t : cmpl_cb k j ≡ true).
        ap (λ i. find keys i es) (sym ((cmpl_iff k j).0 t)) ∙ d.0 in
      let q =
        place_all_lem es (placed_in arr k v)
          (collision + collides (get_or arr (hash_cb k % size) [])) p.filled d.1
          λ j g. elim (Bool-cases (cmpl_cb k j)) [
            | inl t ↦ absurd (g (gone j t))
            | inr t ↦
                p.views j ∙ rw t (apart j (λ n. g (sym (find_first keys j k v es ∙ rw t) ∙ n)))
          ] in
      record {
        filled = q.filled;
        views = λ j. q.views j ∙ elim (Bool-cases (cmpl_cb k j)) [
          | inl t ↦ rw (gone j t, p.views j, find_first keys j k v es, t) refl
          | inr t ↦ rw (p.views j, find_first keys j k v es, t) refl
        ];
        more = omega (arith, q.more, p.more);
      }

  place_all-append :
      (xs ys : Chain K V) (st : List (Chain K V) × ℕ)
      → place_all (xs ++ ys) st ≡ place_all ys (place_all xs st)
  unfolding place_all
  place_all-append [] ys st = refl
  place_all-append ((k, v) ∷ xs) ys (arr, collision) = place_all-append xs ys _

  -- Where memory is granted, the rehash puts all entries in.
  module _ (malloc_ok : ℕ → Bool) (granted : (n : ℕ) → malloc_ok n ≡ true) where
    rehash_chain_lem :
        (first : Bool) (es : Chain K V) (st : List (Chain K V) × ℕ)
        → rehash_chain keys malloc_ok first size es st ≡ some (place_all es st)
    unfolding rehash_chain place_all
    rehash_chain_lem first [] st = refl
    rehash_chain_lem first ((k, v) ∷ es) (arr, collision) =
        let stop : ((collides (get_or arr (hash_cb k % size) []) == 1)
              && (first && not (malloc_ok 24)))
            ≡ false =
          ground (arith, granted 24) in
        rw stop (rehash_chain_lem false es _)

    pub rehash_lem :
        (cs : List (Chain K V)) (st : List (Chain K V) × ℕ)
        → rehash keys malloc_ok size cs st ≡ some (place_all (flatten cs) st)
    unfolding rehash flatten
    rehash_lem [] st = unfold place_all in refl
    rehash_lem (c ∷ cs) st =
        rw (rehash_chain_lem true c st, rehash)
          (rehash_lem cs _ ∙ ap some (sym (place_all-append c (flatten cs) st)))
