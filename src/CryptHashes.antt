-- ===== src/CryptHashes.antt =====
-- src/crypt_hashes.c: digests that a script begins, feeds and ends under a name. The contexts
-- stand in a hash table.
pub mod Session
pub mod Algorithms
pub mod Limit
mod Tests
use crypti.Run.{Run, ok, die, ◌>>=◌}
use crypti.Base.{
  ℕ, ◌+◌, ◌-◌, Bool, true, false, Option, none, some, List, [], ◌∷◌, ◌&&◌, ltb, length, ◌==◌,
  if◌then◌else◌,
}
use crypti.Hash.{
  Ret, Table, Outcome, returns, broken, lookup, insert_unique, remove, replace, found,
}
use crypti.Defaults.{string_keys}
use crypti.Crypto.Md5
use crypti.Crypto.Sha
use crypti.Crypto.Sha1
use crypti.Crypto.Sha256

-- `struct hash_ctx`: what `ctx` points to, and `type` by the constructor.
pub data HashCtx : Type 0 where
  md5 : Md5.Context → HashCtx
  sha1 : Sha.Context Sha1.State → HashCtx
  sha256 : Sha.Context Sha256.State → HashCtx

-- `CTX_TYPE_MD5` and so on.
pub type_of : HashCtx → ℕ
type_of (md5 c) = 0
type_of (sha1 c) = 1
type_of (sha256 c) = 2

-- What the macros `generic_hash_init`, `generic_hash_update` and `generic_hash_finalize` are given
-- by their arguments `hash_name` and `ctx_type`.
pub record Algorithm : Type 0 where
  pub ctx_type : ℕ
  -- `sizeof` of the structure of its context
  pub ctx_size : ℕ
  pub context_init : HashCtx
  pub update : HashCtx → List ℕ → HashCtx
  pub final : HashCtx → List ℕ

-- `struct ctx_table`
pub record CtxTable : Type 0 where
  pub hash : Table (List ℕ) HashCtx
  pub count : ℕ

abbrev pub max_n_ctx : ℕ
max_n_ctx = 32

-- `hash_ctx_table_lookup`
pub ctx_lookup : CtxTable → List ℕ → Option HashCtx
ctx_lookup t name = found (lookup string_keys t.hash name)

-- What `hash_ctx_table_insert` makes of the answer of the hash table.
pub inserted : CtxTable → Outcome (Table (List ℕ) HashCtx) → Run (Ret × CtxTable)
inserted t broken = die
inserted t (returns Ret.ret_out_of_memory h) = die
inserted t (returns Ret.ret_entry_exists h) = die
inserted t (returns r h) = ok (Ret.ret_ok, record t { hash = h; count = t.count + 1 })

-- `hash_ctx_table_insert`
pub ctx_insert : (ℕ → Bool) → CtxTable → List ℕ → HashCtx → Run (Ret × CtxTable)
unfolding inserted
ctx_insert malloc_ok t name ctx =
    if ltb max_n_ctx (t.count + 1)
    then ok (Ret.ret_err, t)
    else inserted t (insert_unique string_keys malloc_ok t.hash name ctx)

-- `hash_ctx_delete`
pub ctx_delete : CtxTable → List ℕ → Ret × CtxTable
ctx_delete t name = elim ((remove string_keys t.hash name).0) [
  | false ↦ (Ret.ret_err, t)
  | true ↦ (Ret.ret_ok, record { hash = (remove string_keys t.hash name).1; count = t.count - 1 })
]

module _ (alg : Algorithm) where
  -- `generic_hash_init`: 1 where the name is taken; what the insertion returns is not looked at.
  -- The context, the `struct hash_ctx` of 24 bytes and the copy of the name are allocated, or the
  -- process ends.
  pub hash_init : (ℕ → Bool) → CtxTable → List ℕ → Run (ℕ × CtxTable)
  hash_init malloc_ok t id = elim (ctx_lookup t id) [
    | some h ↦ ok (1, t)
    | none ↦
        if malloc_ok alg.ctx_size && (malloc_ok 24 && malloc_ok (length id + 1))
        then (do (r, t') ← ctx_insert malloc_ok t id alg.context_init; ok (0, t'))
        else die
  ]

  -- `generic_hash_update`: 1 where there is no such name or it has another type. The context is
  -- changed in place.
  pub hash_update : CtxTable → List ℕ → List ℕ → ℕ × CtxTable
  hash_update t id bytes = elim (ctx_lookup t id) [
    | none ↦ (1, t)
    | some h ↦
        if type_of h == alg.ctx_type
        then (0, record t { hash = (replace string_keys t.hash id (alg.update h bytes)).1 })
        else (1, t)
  ]

  -- `generic_hash_finalize`: what is returned, the bytes that `out` is given, and the table.
  pub hash_finalize : CtxTable → List ℕ → ℕ × Option (List ℕ) × CtxTable
  hash_finalize t id = elim (ctx_lookup t id) [
    | none ↦ (1, none, t)
    | some h ↦
        if type_of h == alg.ctx_type
        then (let (r, t') = ctx_delete t id in
            (elim r [ Ret.ret_ok ↦ 0 | _ ↦ 1 ], some (alg.final h), t'))
        else (1, none, t)
  ]

  -- A script's updates in turn, up to one that fails.
  pub update_each : CtxTable → List ℕ → List (List ℕ) → ℕ × CtxTable
  update_each t id [] = (0, t)
  update_each t id (bytes ∷ rest) =
      let (r, t') = hash_update t id bytes in
      let later = update_each t' id rest in if r == 0 then later else (r, t')

  -- A script that begins a digest under one name after the other, up to one that fails.
  pub begin_each : (ℕ → Bool) → CtxTable → List (List ℕ) → Run (ℕ × CtxTable)
  begin_each malloc_ok t [] = ok (0, t)
  begin_each malloc_ok t (id ∷ ids) = hash_init malloc_ok t id >>= λ (r, t').
      let later = begin_each malloc_ok t' ids in if r == 0 then later else ok (r, t')

  -- A digest from its beginning to its end.
  pub session :
      (ℕ → Bool) → CtxTable → List ℕ → List (List ℕ) → Run (ℕ × Option (List ℕ) × CtxTable)
  session malloc_ok t id msgs = do
    (r, begun) ← hash_init malloc_ok t id
    (let (q, fed) = update_each begun id msgs in
        if r == 0 && q == 0 then ok (hash_finalize fed id) else ok (1, none, fed))
