-- ===== src/CryptHashes/Limit.antt =====
-- src/crypt_hashes.c: what is left of the digests that a script begins when there are more than the
-- table of contexts takes.
use crypti.Run.{ok}
use crypti.Base.{
  ℕ, zero, suc, ◌+◌, ◌-◌, ◌≤◌, ◌<◌, ◌≡◌, refl, sym, ap, ◌∙◌, inl, inr, Bool, true, false, ◌||◌,
  none, some, List, [], ◌∷◌, arith, ltb, if◌then◌else◌, Bool-cases, length, take,
}
use crypti.Defaults.{same_str, same_str_iff}
use crypti.CryptHashes.{Algorithm, CtxTable, ctx_insert, hash_init, hash_update, begin_each}
use crypti.CryptHashes.Session.{IsRegistry, context, ctx_lookup_lem, Begun, hash_init-Begun}

-- A name that stands in a list.
unfoldable pub among : List ℕ → List (List ℕ) → Bool
among j [] = false
among j (id ∷ ids) = same_str id j || among j ids

-- Names that have no context yet, none twice.
abbrev pub AllFree : CtxTable → List (List ℕ) → Type 0
AllFree t [] = Unit
AllFree t (id ∷ ids) = (context t id ≡ none) × (among id ids ≡ false) × AllFree t ids

-- The contexts of some names are new, and all others are as they were.
pub record Opened (alg : Algorithm) (t : CtxTable) (ids : List (List ℕ)) (t' : CtxTable)
    : Type 0 where
  pub registry : IsRegistry t'
  pub contexts :
      (j : List ℕ) → context t' j ≡ (if among j ids then some alg.context_init else context t j)

module _ (alg : Algorithm) where
  full_lem :
      (malloc_ok : ℕ → Bool) (t : CtxTable) (id : List ℕ)
      → ((n : ℕ) → malloc_ok n ≡ true)
      → 32 ≤ t.count
      → context t id ≡ none
      → hash_init alg malloc_ok t id ≡ ok (0, t)
  unfolding hash_init ctx_insert
  full_lem malloc_ok t id granted full absent =
      let gone = ctx_lookup_lem t id ∙ absent in
      let over : ltb 32 (t.count + 1) ≡ true = ground arith in
      rw
        (
          gone,
          hash_init,
          granted alg.ctx_size,
          granted 24,
          granted (length id + 1),
          over,
          ctx_insert,
        )
        refl

  -- A name whose digest is begun is no name of the others.
  still_free :
      (t t' : CtxTable) (id : List ℕ) (ids : List (List ℕ))
      → among id ids ≡ false
      → AllFree t ids
      → Begun alg t id t'
      → AllFree t' ids
  unfolding among
  still_free t t' id [] other free b = tt
  still_free t t' id (x ∷ xs) other (absent, once, free) b =
      let apart : same_str id x ≡ false = ground (arith, same_str_iff id x, same_str_iff x id) in
      (b.contexts x ∙ rw apart absent, once, still_free t t' id xs (ground (arith, other)) free b)

  free_name :
      (t : CtxTable) (j : List ℕ) (ids : List (List ℕ))
      → AllFree t ids
      → among j ids ≡ true
      → context t j ≡ none
  unfolding among
  free_name t j [] free e = absurd (cc e)
  free_name t j (x ∷ xs) (absent, once, free) e = elim (Bool-cases (same_str x j)) [
    | inl s ↦ ap (context t) (sym ((same_str_iff x j).0 s)) ∙ absent
    | inr s ↦ free_name t j xs free (ground (arith, e, s))
  ]

  none_left : (t : CtxTable) (ids : List (List ℕ)) → 32 ≤ t.count → take (32 - t.count) ids ≡ []
  none_left t ids full = let e : 32 - t.count ≡ 0 = omega arith in rw e refl

  one_left :
      (t t1 : CtxTable) (id : List ℕ) (ids : List (List ℕ))
      → t.count < 32
      → t1.count ≡ t.count + 1
      → take (32 - t.count) (id ∷ ids) ≡ id ∷ take (32 - t1.count) ids
  one_left t t1 id ids room more =
      let e : 32 - t.count ≡ suc (32 - t1.count) = omega arith in rw e refl

  take_nil : (n : ℕ) → take {A = List ℕ} n [] ≡ []
  take_nil zero = refl
  take_nil (suc n) = refl

  nothing-Opened :
      (t : CtxTable) (ids : List (List ℕ)) → IsRegistry t → ids ≡ [] → Opened alg t ids t
  unfolding among
  nothing-Opened t ids w e = record { registry = w; contexts = λ j. rw e refl }

  Begun-Opened :
      (t t1 t2 : CtxTable) (id : List ℕ) (ids : List (List ℕ))
      → t.count < 32
      → Begun alg t id t1
      → Opened alg t1 (take (32 - t1.count) ids) t2
      → Opened alg t (take (32 - t.count) (id ∷ ids)) t2
  unfolding among
  Begun-Opened t t1 t2 id ids room b o = record {
    registry = o.registry;
    contexts =
        λ j. rw (one_left t t1 id ids room b.count) (ground (arith, o.contexts j, b.contexts j));
  }

  opened :
      (malloc_ok : ℕ → Bool) (t : CtxTable) (ids : List (List ℕ))
      → ((n : ℕ) → malloc_ok n ≡ true)
      → IsRegistry t
      → t.count ≤ 32
      → AllFree t ids
      → (t' : CtxTable) × (begin_each alg malloc_ok t ids ≡ ok (0, t'))
        × Opened alg t (take (32 - t.count) ids) t'
  unfolding begin_each
  opened malloc_ok t [] granted w most free = (t, refl, nothing-Opened t _ w (take_nil _))
  opened malloc_ok t (id ∷ ids) granted w most (absent, once, free) =
      elim (Bool-cases (ltb t.count 32)) [
        | inl room ↦
            let (t1, e1, b) = hash_init-Begun alg t id malloc_ok granted w (ground arith) absent in
            let (t2, e2, o) =
              opened malloc_ok t1 ids granted b.registry (ground (arith, b.count))
                (still_free t t1 id ids once free b) in
            (t2, rw (e1, begin_each, e2) refl, Begun-Opened t t1 t2 id ids (ground arith) b o)
        | inr full ↦
            let e1 = full_lem malloc_ok t id granted (ground arith) absent in
            let (t2, e2, o) = opened malloc_ok t ids granted w most free in
            let none : take (32 - t.count) ids ≡ [] = none_left t ids (ground arith) in
            let none' : take (32 - t.count) (id ∷ ids) ≡ [] =
              none_left t (id ∷ ids) (ground arith) in
            (t2, rw (e1, begin_each, e2) refl, rw none' (rw none at o))
      ]

  -- With an allocator that never runs out, on a valid table of at most 32 contexts, digests that
  -- are begun one after the other under any number of distinct free names all report success, yet
  -- only as many of the first names as the table had places up to 32 get a new context; the
  -- contexts of all other names are as they were, and every update of a name that came later
  -- fails.
  pub begin_each-Opened :
      (malloc_ok : ℕ → Bool) (t : CtxTable) (ids : List (List ℕ))
      → ((n : ℕ) → malloc_ok n ≡ true)
      → IsRegistry t
      → t.count ≤ 32
      → AllFree t ids
      → (t' : CtxTable) × (begin_each alg malloc_ok t ids ≡ ok (0, t'))
        × Opened alg t (take (32 - t.count) ids) t'
        × ((j bytes : List ℕ)
            → among j ids ≡ true
            → among j (take (32 - t.count) ids) ≡ false
            → hash_update alg t' j bytes ≡ (1, t'))
  unfolding hash_update
  begin_each-Opened malloc_ok t ids granted w most free =
      let (t', e, o) = opened malloc_ok t ids granted w most free in
      (
        t',
        e,
        o,
        λ j bytes named late.
            let here : context t' j ≡ none =
              o.contexts j ∙ rw late (free_name t j ids free named) in
            rw (ctx_lookup_lem t' j ∙ here, hash_update) refl,
      )
