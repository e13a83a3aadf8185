-- ===== src/CryptHashes/Session.antt =====
-- src/crypt_hashes.c: a digest that is fed under a name is that of all that was fed, and other
-- names are left alone.
use mathlib.Core.List.{flatten}
use crypti.Run.{ok}
use crypti.Base.{
  ℕ, ◌+◌, ◌-◌, ◌^◌, ◌<◌, ◌≡◌, refl, sym, ap, ◌∙◌, inl, inr, Bool, true, false, Option, none, some,
  List, [], ◌∷◌, ◌++◌, append-nil, append_assoc, arith, ltb, ◌==◌, if◌then◌else◌, Bool-cases,
  length,
}
use crypti.Hash.{remove, replace}
use crypti.Hash.Map.{IsValid, meaning, insert_unique-refines}
use crypti.Hash.Removal.{remove-refines, replace-refines}
use crypti.Hash.Lookup.{found-lookup}
use crypti.Defaults.{string_keys, same_str, same_str_iff}
use crypti.Crypto.Md5.Refinement.{AllShort}
use crypti.CryptHashes.{
  HashCtx, type_of, Algorithm, CtxTable, ctx_lookup, inserted, ctx_insert, ctx_delete, hash_init,
  hash_update, hash_finalize, update_each, session,
}

-- What an algorithm promises of its contexts: `Holds m c` for a context that was fed `m`.
pub record Lawful (alg : Algorithm) (Holds : List ℕ → HashCtx → Type 0)
    (reference : List ℕ → List ℕ) : Type 0 where
  pub typed : (m : List ℕ) (c : HashCtx) → Holds m c → type_of c ≡ alg.ctx_type
  pub begins : Holds [] alg.context_init
  pub feeds :
      (m : List ℕ) (c : HashCtx) (bytes : List ℕ)
      → length bytes < 2 ^ 32
      → Holds m c
      → Holds (m ++ bytes) (alg.update c bytes)
  pub ends : (m : List ℕ) (c : HashCtx) → Holds m c → alg.final c ≡ reference m

-- The table of contexts is a valid hash table, and its own count is right.
pub record IsRegistry (t : CtxTable) : Type 0 where
  pub valid : IsValid string_keys t.hash
  pub counted : t.count ≡ t.hash.count

-- The context under a name.
abbrev pub context : CtxTable → List ℕ → Option HashCtx
context t name = meaning string_keys t.hash name

pub ctx_lookup_lem : (t : CtxTable) (name : List ℕ) → ctx_lookup t name ≡ context t name
unfolding ctx_lookup
ctx_lookup_lem t name = found-lookup string_keys t.hash name

module _ (alg : Algorithm) (t : CtxTable) (id : List ℕ) where
  -- A table with one more context, under a name.
  pub record Begun (t' : CtxTable) : Type 0 where
    pub registry : IsRegistry t'
    pub contexts :
        (j : List ℕ) → context t' j ≡ (if same_str id j then some alg.context_init else context t j)
    pub count : t'.count ≡ t.count + 1

  pub hash_init-Begun :
      (malloc_ok : ℕ → Bool)
      → ((n : ℕ) → malloc_ok n ≡ true)
      → IsRegistry t
      → t.count < 32
      → context t id ≡ none
      → (t' : CtxTable) × (hash_init alg malloc_ok t id ≡ ok (0, t')) × Begun t'
  unfolding hash_init ctx_insert inserted
  hash_init-Begun malloc_ok granted w room absent =
      let (h, e, u, c) =
        (insert_unique-refines string_keys malloc_ok t.hash id alg.context_init granted w.valid).0
          absent in
      let few : ltb 32 (t.count + 1) ≡ false = ground arith in
      (
        record { hash = h; count = t.count + 1 },
        rw
            (
              ctx_lookup_lem t id ∙ absent,
              hash_init,
              granted alg.ctx_size,
              granted 24,
              granted (length id + 1),
              few,
              ctx_insert,
              e,
              inserted,
            )
            refl,
        record {
          registry = record { valid = u.valid; counted = omega (arith, w.counted, c) };
          contexts = u.means;
          count = refl;
        },
      )

module _ (alg : Algorithm) (Holds : List ℕ → HashCtx → Type 0) (reference : List ℕ → List ℕ)
    (laws : Lawful alg Holds reference) (t0 : CtxTable) (id : List ℕ) where
  -- Between the beginning and the end: the context under the name was fed `m`.
  record Pending (m : List ℕ) (t : CtxTable) : Type 0 where
    registry : IsRegistry t
    ctx : HashCtx
    holds : Holds m ctx
    contexts : (j : List ℕ) → context t j ≡ (if same_str id j then some ctx else context t0 j)
    count : t.count ≡ t0.count + 1

  own : (m : List ℕ) (t : CtxTable) (p : Pending m t) → context t id ≡ some p.ctx
  own m t p = p.contexts id ∙ rw ((same_str_iff id id).1 refl) refl

  init_lem :
      (malloc_ok : ℕ → Bool)
      → ((n : ℕ) → malloc_ok n ≡ true)
      → IsRegistry t0
      → t0.count < 32
      → context t0 id ≡ none
      → (t : CtxTable) × (hash_init alg malloc_ok t0 id ≡ ok (0, t)) × Pending [] t
  init_lem malloc_ok granted w room absent =
      let (t, e, b) = hash_init-Begun alg t0 id malloc_ok granted w room absent in
      (
        t,
        e,
        record {
          registry = b.registry;
          ctx = alg.context_init;
          holds = laws.begins;
          contexts = b.contexts;
          count = b.count;
        },
      )

  update_lem :
      (m : List ℕ) (t : CtxTable) (bytes : List ℕ)
      → length bytes < 2 ^ 32
      → Pending m t
      → (t' : CtxTable) × (hash_update alg t id bytes ≡ (0, t')) × Pending (m ++ bytes) t'
  unfolding hash_update
  update_lem m t bytes short p =
      let there = own m t p in
      let (r, u, c) =
        (replace-refines string_keys t.hash id (alg.update p.ctx bytes) p.registry.valid).1
          (cc there) in
      let right : (type_of p.ctx == alg.ctx_type) ≡ true =
        ground (arith, laws.typed m p.ctx p.holds) in
      (
        record t { hash = (replace string_keys t.hash id (alg.update p.ctx bytes)).1 },
        rw (ctx_lookup_lem t id ∙ there, hash_update, right) refl,
        record {
          registry = record { valid = u.valid; counted = omega (arith, p.registry.counted, c) };
          ctx = alg.update p.ctx bytes;
          holds = laws.feeds m p.ctx bytes short p.holds;
          contexts = λ j. u.means j ∙ ground (arith, p.contexts j);
          count = p.count;
        },
      )

  update_each_lem :
      (msgs : List (List ℕ)) (m : List ℕ) (t : CtxTable)
      → AllShort msgs
      → Pending m t
      → (t' : CtxTable) × (update_each alg t id msgs ≡ (0, t')) × Pending (m ++ flatten msgs) t'
  unfolding update_each flatten
  update_each_lem [] m t short p = (t, refl, rw append-nil p)
  update_each_lem (bytes ∷ rest) m t short p =
      let (t1, e1, p1) = update_lem m t bytes short.0 p in
      let (t2, e2, p2) = update_each_lem rest (m ++ bytes) t1 short.1 p1 in
      (t2, rw e1 e2, rw (append_assoc m bytes (flatten rest)) at p2)

  finalize_lem :
      (m : List ℕ) (t : CtxTable)
      → IsRegistry t0
      → context t0 id ≡ none
      → Pending m t
      → (t' : CtxTable) × (hash_finalize alg t id ≡ (0, some (reference m), t'))
        × IsRegistry t'
        × ((j : List ℕ) → context t' j ≡ context t0 j)
        × (t'.count ≡ t0.count)
  unfolding hash_finalize ctx_delete
  finalize_lem m t w absent p =
      let there = own m t p in
      let (r, u, c) = (remove-refines string_keys t.hash id p.registry.valid).1 (cc there) in
      let right : (type_of p.ctx == alg.ctx_type) ≡ true =
        ground (arith, laws.typed m p.ctx p.holds) in
      (
        record { hash = (remove string_keys t.hash id).1; count = t.count - 1 },
        rw (ctx_lookup_lem t id ∙ there, hash_finalize, right, r, ctx_delete)
            (ap
              (λ d. (
                0,
                some d,
                record { hash = (remove string_keys t.hash id).1; count = t.count - 1 },
              ))
              (laws.ends m p.ctx p.holds)),
        record { valid = u.valid; counted = omega (arith, p.registry.counted, c) },
        λ j. u.means j ∙ elim (Bool-cases (same_str id j)) [
          | inl e ↦ rw e (sym (ap (context t0) (sym ((same_str_iff id j).0 e)) ∙ absent))
          | inr e ↦ rw e (p.contexts j ∙ rw e refl)
        ],
        omega (arith, p.count),
      )

  -- For an algorithm that keeps its laws, a session that begins a digest under a name that is free
  -- in a valid table of fewer than 32 contexts, with an allocator that never runs out, feeds it
  -- any messages of less than 2 ^ 32 bytes each and ends it returns 0 and the reference digest of
  -- all the messages together, and leaves the contexts of all names as they were before.
  pub session-reference :
      (malloc_ok : ℕ → Bool) (msgs : List (List ℕ))
      → ((n : ℕ) → malloc_ok n ≡ true)
      → IsRegistry t0
      → t0.count < 32
      → context t0 id ≡ none
      → AllShort msgs
      → (t : CtxTable) × (session alg malloc_ok t0 id msgs
          ≡ ok (0, some (reference (flatten msgs)), t))
        × IsRegistry t
        × ((j : List ℕ) → context t j ≡ context t0 j)
        × (t.count ≡ t0.count)
  unfolding session
  session-reference malloc_ok msgs granted w room absent short =
      let (t1, e1, p1) = init_lem malloc_ok granted w room absent in
      let (t2, e2, p2) = update_each_lem msgs [] t1 short p1 in
      let (t3, e3, w3, same, c3) = finalize_lem (flatten msgs) t2 w absent p2 in
      (t3, rw (e1, session, e2) (ap ok e3), w3, same, c3)
