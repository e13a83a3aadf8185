-- ===== src/Hash/Slots.antt =====
-- src/hash.c: the array of slots. Each entry stands in the slot of its key, and no key twice.
use mathlib.Core.List.{flatten}
use crypti.Base.{
  ℕ, zero, suc, ◌+◌, ◌-◌, ◌%◌, ◌<◌, ◌≡◌, refl, sym, ap, ◌∙◌, ◌≢◌, inl, inr, Option, none, some,
  List, [], ◌∷◌, ◌++◌, arith, ◌==◌, if◌then◌else◌, Bool-cases, length, get_or, set, replicate,
  length-append,
}
use crypti.Hash.{Keys, Chain, find, place_chain, collides}
use crypti.Hash.Chain.{AllKeys, IsDistinct, find_first, cmpl_refl}

module _ {A : Type 0} where
  pub get_or-set :
      (cs : List A) (n m : ℕ) (c d : A)
      → n < length cs
      → get_or (set cs n c) m d ≡ (if n == m then c else get_or cs m d)
  get_or-set [] n m c d h = absurd (omega arith)
  get_or-set (x ∷ cs) zero zero c d h = refl
  get_or-set (x ∷ cs) zero (suc m) c d h = ground arith
  get_or-set (x ∷ cs) (suc n) zero c d h = ground arith
  get_or-set (x ∷ cs) (suc n) (suc m) c d h = get_or-set cs n m c d (omega arith) ∙ ground arith

module _ {K V : Type 0} where
  -- How many entries there are, and how many of them stand behind the first of their slot.
  unfoldable pub total : List (Chain K V) → ℕ
  total [] = 0
  total (c ∷ cs) = length c + total cs

  unfoldable pub excess : List (Chain K V) → ℕ
  excess [] = 0
  excess (c ∷ cs) = length c - 1 + excess cs

  pub total-set :
      (cs : List (Chain K V)) (n : ℕ) (c : Chain K V)
      → n < length cs
      → total (set cs n c) + length (get_or cs n []) ≡ total cs + length c
  unfolding total
  total-set [] n c h = absurd (omega arith)
  total-set (x ∷ cs) zero c h = omega arith
  total-set (x ∷ cs) (suc n) c h = omega (arith, total-set cs n c (omega arith))

  pub excess-set :
      (cs : List (Chain K V)) (n : ℕ) (c : Chain K V)
      → n < length cs
      → excess (set cs n c) + (length (get_or cs n []) - 1) ≡ excess cs + (length c - 1)
  unfolding excess
  excess-set [] n c h = absurd (omega arith)
  excess-set (x ∷ cs) zero c h = omega arith
  excess-set (x ∷ cs) (suc n) c h = omega (arith, excess-set cs n c (omega arith))

  pub get_or-replicate : (n m : ℕ) → get_or (replicate {A = Chain K V} n []) m [] ≡ []
  get_or-replicate zero m = refl
  get_or-replicate (suc n) zero = refl
  get_or-replicate (suc n) (suc m) = get_or-replicate n m

  pub length-flatten : (cs : List (Chain K V)) → length (flatten cs) ≡ total cs
  unfolding flatten total
  length-flatten [] = refl
  length-flatten (c ∷ cs) = omega (arith, length-append c (flatten cs), length-flatten cs)

  pub length-place_chain :
      (c : Chain K V) (k : K) (v : V)
      → (length (place_chain c k v) ≡ length c + 1)
        × (length (place_chain c k v) - 1 ≡ length c - 1 + collides c)
  unfolding place_chain collides
  length-place_chain [] k v = omega arith
  length-place_chain (x ∷ c) k v = omega arith

module _ (K V : Type 0) where
  pub total-replicate : (n : ℕ) → total {K = K} {V = V} (replicate n []) ≡ 0
  unfolding total
  total-replicate zero = refl
  total-replicate (suc n) = omega (arith, total-replicate n)

  pub excess-replicate : (n : ℕ) → excess {K = K} {V = V} (replicate n []) ≡ 0
  unfolding excess
  excess-replicate zero = refl
  excess-replicate (suc n) = omega (arith, excess-replicate n)

module _ {K V : Type 0} (keys : Keys K) (size : ℕ) where
  open keys use {hash_cb, cmpl_cb, cmpl_iff}

  abbrev pub Hashed : ℕ → Chain K V → Type 0
  Hashed i c = AllKeys (λ k. hash_cb k % size ≡ i) c

  -- The slots from index `i` on.
  abbrev pub Placed : ℕ → List (Chain K V) → Type 0
  Placed i [] = Unit
  Placed i (c ∷ cs) = (Hashed i c × IsDistinct keys c) × Placed (suc i) cs

  pub place_chain-Hashed :
      (i : ℕ) (c : Chain K V) (k : K) (v : V)
      → Hashed i c
      → hash_cb k % size ≡ i
      → Hashed i (place_chain c k v)
  unfolding place_chain
  place_chain-Hashed i [] k v h e = (e, tt)
  place_chain-Hashed i ((j, w) ∷ c) k v h e = (h.0, (e, h.1))

  pub Placed-get :
      (i n : ℕ) (cs : List (Chain K V))
      → Placed i cs
      → n < length cs
      → Hashed (i + n) (get_or cs n []) × IsDistinct keys (get_or cs n [])
  Placed-get i n [] p h = absurd (omega arith)
  Placed-get i zero (c ∷ cs) p h = let e : i + 0 ≡ i = omega arith in rw e p.0
  Placed-get i (suc n) (c ∷ cs) p h =
      let e : i + suc n ≡ suc i + n = omega arith in
      rw e (Placed-get (suc i) n cs p.1 (omega arith))

  pub Placed-set :
      (i n : ℕ) (cs : List (Chain K V)) (c : Chain K V)
      → Placed i cs
      → Hashed (i + n) c
      → IsDistinct keys c
      → Placed i (set cs n c)
  Placed-set i n [] c p h d = tt
  Placed-set i zero (x ∷ cs) c p h d = let e : i + 0 ≡ i = omega arith in (((rw e at h), d), p.1)
  Placed-set i (suc n) (x ∷ cs) c p h d =
      let e : i + suc n ≡ suc i + n = omega arith in
      (p.0, Placed-set (suc i) n cs c p.1 (rw e at h) d)

  -- A key is found in no other slot.
  pub find-Hashed :
      (i : ℕ) (c : Chain K V) (j : K) → Hashed i c → hash_cb j % size ≢ i → find keys j c ≡ none
  unfolding find
  find-Hashed i [] j h ne = refl
  find-Hashed i ((k, v) ∷ c) j h ne = elim (Bool-cases (cmpl_cb k j)) [
    | inl e ↦ absurd (ne (ap (λ x. hash_cb x % size) (sym ((cmpl_iff k j).0 e)) ∙ h.0))
    | inr e ↦ rw e (find-Hashed i c j h.1 ne)
  ]

  abbrev pub or_else : Option V → Option V → Option V
  or_else none o = o
  or_else (some v) o = some v

  pub find-append :
      (j : K) (xs ys : Chain K V)
      → find keys j (xs ++ ys) ≡ or_else (find keys j xs) (find keys j ys)
  unfolding find
  find-append j [] ys = refl
  find-append j ((k, v) ∷ xs) ys = elim (Bool-cases (cmpl_cb k j)) [
    | inl e ↦ rw e refl
    | inr e ↦ rw e (find-append j xs ys)
  ]

  pub find_before :
      (i : ℕ) (cs : List (Chain K V)) (j : K)
      → Placed i cs
      → hash_cb j % size < i
      → find keys j (flatten cs) ≡ none
  unfolding flatten
  find_before i [] j p lt = unfold find in refl
  find_before i (c ∷ cs) j p lt =
      rw
        (
          find-append j c (flatten cs),
          find-Hashed i c j p.0.0 (omega arith),
          find_before (suc i) cs j p.1 (omega arith),
        )
        refl

  -- Among all entries a key is found where it is in its slot.
  pub find-flatten :
      (i n : ℕ) (cs : List (Chain K V)) (j : K)
      → Placed i cs
      → n < length cs
      → hash_cb j % size ≡ i + n
      → find keys j (flatten cs) ≡ find keys j (get_or cs n [])
  unfolding flatten
  find-flatten i n [] j p lt e = absurd (omega arith)
  find-flatten i zero (c ∷ cs) j p lt e =
      find-append j c (flatten cs)
      ∙ ap (λ o. or_else (find keys j c) o) (find_before (suc i) cs j p.1 (omega arith))
      ∙ or_none (find keys j c)
    where
      or_none : (o : Option V) → or_else o none ≡ o
      or_none none = refl
      or_none (some v) = refl
  find-flatten i (suc n) (c ∷ cs) j p lt e =
      rw (find-append j c (flatten cs), find-Hashed i c j p.0.0 (omega arith))
        (find-flatten (suc i) n cs j p.1 (omega arith) (omega arith))

  append-IsDistinct :
      (xs ys : Chain K V)
      → IsDistinct keys xs
      → IsDistinct keys ys
      → ((j : K) → find keys j xs ≢ none → find keys j ys ≡ none)
      → IsDistinct keys (xs ++ ys)
  append-IsDistinct [] ys d e apart = e
  append-IsDistinct ((k, v) ∷ xs) ys d e apart =
      let here = apart k (λ n. cc (n, find_first keys k k v xs, cmpl_refl keys k)) in
      (
        find-append k xs ys ∙ rw (d.0, here),
        append-IsDistinct xs ys d.1 e λ j f. apart j (elim (Bool-cases (cmpl_cb k j)) [
          | inl t ↦ λ n. cc (find_first keys j k v xs, t)
          | inr t ↦ λ n. f (sym (find_first keys j k v xs ∙ rw t) ∙ n)
        ]),
      )

  pub flatten-IsDistinct :
      (i : ℕ) (cs : List (Chain K V)) → Placed i cs → IsDistinct keys (flatten cs)
  unfolding flatten
  flatten-IsDistinct i [] p = tt
  flatten-IsDistinct i (c ∷ cs) p =
      append-IsDistinct c (flatten cs) p.0.1 (flatten-IsDistinct (suc i) cs p.1) λ j f.
        elim (Bool-cases (hash_cb j % size == i)) [
          | inl t ↦ find_before (suc i) cs j p.1 (ground arith)
          | inr t ↦ absurd (f (find-Hashed i c j p.0.0 (ground arith)))
        ]

module _ {K : Type 0} (V : Type 0) where
  pub Placed-replicate :
      (keys : Keys K) (size i n : ℕ) → Placed {V = V} keys size i (replicate n [])
  Placed-replicate keys size i zero = tt
  Placed-replicate keys size i (suc n) = ((tt, tt), Placed-replicate keys size (suc i) n)
