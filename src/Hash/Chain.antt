-- ===== src/Hash/Chain.antt =====
-- src/hash.c: what the loops over one slot do to the entries that can be found in it.
use crypti.Base.{
  ℕ, suc, ◌%◌, ◌≡◌, refl, ap, ◌⊎◌, inl, inr, true, false, none, some, [], ◌∷◌, arith, leb,
  if◌then◌else◌, Bool-cases, length,
}
use crypti.Hash.{Keys, Chain, find, unlink, overwrite, place_chain, lone}

module _ {K : Type 0} (keys : Keys K) where
  pub cmpl_refl : (k : K) → keys.cmpl_cb k k ≡ true
  cmpl_refl k = (keys.cmpl_iff k k).1 refl

module _ {K V : Type 0} where
  abbrev pub AllKeys : (K → Type 0) → Chain K V → Type 0
  AllKeys P [] = Unit
  AllKeys P ((k, v) ∷ rest) = P k × AllKeys P rest

  pub lone_lem : (c : Chain K V) → lone c ≡ leb (length c) 1
  unfolding lone
  lone_lem [] = ground arith
  lone_lem (x ∷ []) = ground arith
  lone_lem (x ∷ y ∷ c) = ground arith

module _ {K V : Type 0} (keys : Keys K) where
  open keys use {cmpl_cb, cmpl_iff}

  -- No key stands twice.
  abbrev pub IsDistinct : Chain K V → Type 0
  IsDistinct [] = Unit
  IsDistinct ((k, v) ∷ rest) = (find keys k rest ≡ none) × IsDistinct rest

  pub find_first :
      (j k : K) (v : V) (rest : Chain K V)
      → find keys j ((k, v) ∷ rest) ≡ (if cmpl_cb k j then some v else find keys j rest)
  unfolding find
  find_first j k v rest = refl

  -- A new entry hides nothing, since its key is not there.
  pub find-place_chain :
      (chain : Chain K V) (k j : K) (v : V)
      → find keys k chain ≡ none
      → find keys j (place_chain chain k v) ≡ (if cmpl_cb k j then some v else find keys j chain)
  unfolding place_chain find
  find-place_chain [] k j v h = refl
  find-place_chain ((i, w) ∷ rest) k j v h =
      ground (arith, cmpl_iff i j, cmpl_iff k j, cmpl_iff i k)

  pub place_chain-IsDistinct :
      (chain : Chain K V) (k : K) (v : V)
      → IsDistinct chain
      → find keys k chain ≡ none
      → IsDistinct (place_chain chain k v)
  unfolding place_chain find
  place_chain-IsDistinct [] k v d h = (refl, tt)
  place_chain-IsDistinct ((i, w) ∷ rest) k v d h =
      ground (arith, cmpl_iff k i, cmpl_iff i k, cmpl_refl keys i)

  -- A chain without the entry of one key.
  pub record Unlinked (chain : Chain K V) (k : K) (r : Chain K V) : Type 0 where
    pub others : (j : K) → find keys j r ≡ (if cmpl_cb k j then none else find keys j chain)
    pub distinct : IsDistinct r
    pub size : length chain ≡ suc (length r)
    pub same_keys :
        (size i : ℕ)
        → AllKeys (λ x. keys.hash_cb x % size ≡ i) chain
        → AllKeys (λ x. keys.hash_cb x % size ≡ i) r

  unlink_head :
      (i k : K) (w : V) (rest : Chain K V)
      → cmpl_cb i k ≡ true
      → IsDistinct ((i, w) ∷ rest)
      → Unlinked ((i, w) ∷ rest) k rest
  unfolding find
  unlink_head i k w rest e d = record {
    others = λ j. ground (arith, cmpl_iff i k, cmpl_iff i j, cmpl_iff k j);
    distinct = d.1;
    size = refl;
    same_keys = λ size i a. a.1;
  }

  unlink_later :
      (i k : K) (w : V) (rest r : Chain K V)
      → cmpl_cb i k ≡ false
      → IsDistinct ((i, w) ∷ rest)
      → Unlinked rest k r
      → Unlinked ((i, w) ∷ rest) k ((i, w) ∷ r)
  unfolding find
  unlink_later i k w rest r e d u = record {
    others = λ j. ground (arith, u.others j, cmpl_iff i k, cmpl_iff i j, cmpl_iff k j);
    distinct = ground (arith, u.others i, u.distinct, cmpl_iff k i, cmpl_iff i k);
    size = ap suc u.size;
    same_keys = λ size i a. (a.0, u.same_keys size i a.1);
  }

  -- A key that is there is cut out; else the loop ends at the end of the chain.
  pub unlink_cases :
      (chain : Chain K V) (k : K)
      → IsDistinct chain
      → ((unlink keys k chain ≡ none) × (find keys k chain ≡ none))
        ⊎ ((r : Chain K V) × (v : V) × (unlink keys k chain ≡ some r)
            × (find keys k chain ≡ some v)
            × Unlinked chain k r)
  unfolding unlink find
  unlink_cases [] k d = inl (refl, refl)
  unlink_cases ((i, w) ∷ rest) k d = elim (Bool-cases (cmpl_cb i k)) [
    | inl e ↦ inr (rest, w, rw e, rw e, unlink_head i k w rest e d)
    | inr e ↦ elim (unlink_cases rest k d.1) [
      | inl p ↦ inl (rw (e, p.0), rw (e, p.1))
      | inr (r, v, p, q, u) ↦
          inr ((i, w) ∷ r, v, rw (e, p), rw (e, q), unlink_later i k w rest r e d u)
    ]
  ]

  -- A chain with the value of one key replaced.
  pub record Overwritten (chain : Chain K V) (k : K) (v : V) (r : Chain K V) : Type 0 where
    pub others : (j : K) → find keys j r ≡ (if cmpl_cb k j then some v else find keys j chain)
    pub distinct : IsDistinct r
    pub size : length r ≡ length chain
    pub same_keys :
        (size i : ℕ)
        → AllKeys (λ x. keys.hash_cb x % size ≡ i) chain
        → AllKeys (λ x. keys.hash_cb x % size ≡ i) r

  overwrite_head :
      (i k : K) (w v : V) (rest : Chain K V)
      → cmpl_cb i k ≡ true
      → IsDistinct ((i, w) ∷ rest)
      → Overwritten ((i, w) ∷ rest) k v ((i, v) ∷ rest)
  unfolding find
  overwrite_head i k w v rest e d = record {
    others = λ j. ground (arith, cmpl_iff i k, cmpl_iff i j, cmpl_iff k j);
    distinct = d;
    size = refl;
    same_keys = λ size i a. a;
  }

  overwrite_later :
      (i k : K) (w v : V) (rest r : Chain K V)
      → cmpl_cb i k ≡ false
      → IsDistinct ((i, w) ∷ rest)
      → Overwritten rest k v r
      → Overwritten ((i, w) ∷ rest) k v ((i, w) ∷ r)
  unfolding find
  overwrite_later i k w v rest r e d u = record {
    others = λ j. ground (arith, u.others j, cmpl_iff i k, cmpl_iff i j, cmpl_iff k j);
    distinct = ground (arith, u.others i, u.distinct, cmpl_iff k i, cmpl_iff i k);
    size = ap suc u.size;
    same_keys = λ size i a. (a.0, u.same_keys size i a.1);
  }

  pub overwrite_cases :
      (chain : Chain K V) (k : K) (v : V)
      → IsDistinct chain
      → ((overwrite keys k v chain ≡ none) × (find keys k chain ≡ none))
        ⊎ ((r : Chain K V) × (w : V) × (overwrite keys k v chain ≡ some r)
            × (find keys k chain ≡ some w)
            × Overwritten chain k v r)
  unfolding overwrite find
  overwrite_cases [] k v d = inl (refl, refl)
  overwrite_cases ((i, w) ∷ rest) k v d = elim (Bool-cases (cmpl_cb i k)) [
    | inl e ↦ inr ((i, v) ∷ rest, w, rw e, rw e, overwrite_head i k w v rest e d)
    | inr e ↦ elim (overwrite_cases rest k v d.1) [
      | inl p ↦ inl (rw (e, p.0), rw (e, p.1))
      | inr (r, u, p, q, o) ↦
          inr ((i, w) ∷ r, u, rw (e, p), rw (e, q), overwrite_later i k w v rest r e d o)
    ]
  ]
