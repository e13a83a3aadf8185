-- ===== src/IdTable.antt =====
-- src/id_table.c: identifiers in nested scopes, each a hash table. `V` and `A` are what the
-- pointers to variables and arrays point to.
pub mod Scoping
mod Tests
use crypti.Run.{Run, ok, die, fault, ◌>>=◌}
use crypti.Base.{ℕ, Bool, true, false, Option, none, some, List, [], ◌∷◌}
use crypti.Hash.{Ret, Table, Outcome, returns, broken, new, lookup, insert_unique, remove, found}
use crypti.Defaults.{string_keys}

-- The `type` of an item with the member of the union that goes with it.
pub data Payload (V A : Type 0) : Type 0 where
  id_var : V → Payload V A
  id_arr : A → Payload V A
  id_unknown : Payload V A

-- `struct id_item`; the destructor is always `id_item_default_release`.
pub record Item (V A : Type 0) : Type 0 where
  pub name : List ℕ
  pub payload : Payload V A

abbrev pub Scope : Type 0 → Type 0 → Type 0
Scope V A = Table (List ℕ) (Item V A)

-- The list behind `scopes`, the current scope first.
abbrev pub Scopes : Type 0 → Type 0 → Type 0
Scopes V A = List (Scope V A)

module _ {V A : Type 0} where
  -- `id_item_new`
  pub item_new : List ℕ → Item V A
  item_new name = record { name = name; payload = id_unknown }

  -- `id_item_default_release`, which `id_item_free` calls: an item of unknown type ends the process.
  pub release : Item V A → Run (Unit {0})
  release item = elim (item.payload) [ id_var v ↦ ok tt | id_arr a ↦ ok tt | id_unknown ↦ die ]

  -- `id_item_set`: what was there is released first, unless it is of unknown type.
  pub item_set : Item V A → Payload V A → Run (Item V A)
  item_set item id_unknown = die
  item_set item (id_var v) = ok (record item { payload = id_var v })
  item_set item (id_arr a) = ok (record item { payload = id_arr a })

  -- `id_table_create`, with `INITIAL_SZ`
  pub table_create : (ℕ → Bool) → Run (Scope V A)
  table_create malloc_ok = elim (new malloc_ok 32) [ none ↦ die | some t ↦ ok t ]

  -- `id_table_push`
  pub push : Scope V A → Scopes V A → Scopes V A
  push table scopes = table ∷ scopes

  -- `id_table_pop`: without a scope the assertion fails, and the last one leaves a null pointer
  -- that is read through.
  pub pop : Scopes V A → Run (Scope V A × Scopes V A)
  pop [] = die
  pop (table ∷ []) = fault
  pop (table ∷ next ∷ rest) = ok (table, next ∷ rest)

  -- What `id_table_insert_to` makes of the answer of the hash table.
  pub inserted : Outcome (Scope V A) → Run (Scope V A)
  inserted broken = die
  inserted (returns Ret.ret_ok t) = ok t
  inserted (returns Ret.ret_err t) = die
  inserted (returns Ret.ret_not_found t) = die
  inserted (returns Ret.ret_entry_exists t) = die
  inserted (returns Ret.ret_out_of_memory t) = die

  -- `id_table_insert_to`
  pub insert_to : (ℕ → Bool) → Scope V A → Item V A → Run (Scope V A)
  unfolding inserted
  insert_to malloc_ok table item =
      inserted (insert_unique string_keys malloc_ok table item.name item)

  -- `id_table_insert`
  pub insert : (ℕ → Bool) → Scopes V A → Item V A → Run (Scopes V A)
  insert malloc_ok [] item = die
  insert malloc_ok (current ∷ rest) item = do t ← insert_to malloc_ok current item; ok (t ∷ rest)

  -- `id_table_lookup_in`
  pub lookup_in : Scope V A → List ℕ → Option (Item V A)
  lookup_in table name = found (lookup string_keys table name)

  -- `id_table_lookup_all`
  pub lookup_all : Scopes V A → List ℕ → Option (Item V A)
  lookup_all [] name = none
  lookup_all (table ∷ prev) name = elim (lookup_in table name) [
    | some item ↦ some item
    | none ↦ lookup_all prev name
  ]

  -- `id_table_remove_from`
  pub remove_from : Scope V A → List ℕ → Run (Ret × Scope V A)
  remove_from table name = elim (lookup_in table name) [
    | none ↦ ok (Ret.ret_err, table)
    | some item ↦ elim ((remove string_keys table name).0) [
      | false ↦ ok (Ret.ret_err, (remove string_keys table name).1)
      | true ↦ (do _ ← release item; ok (Ret.ret_ok, (remove string_keys table name).1))
    ]
  ]

  -- `id_table_remove`
  pub remove_all : Scopes V A → List ℕ → Run (Ret × Scopes V A)
  remove_all [] name = ok (Ret.ret_err, [])
  remove_all (table ∷ prev) name = do
    (r, t) ← remove_from table name
    elim r as (λ _. Run (Ret × Scopes V A)) [
      | Ret.ret_ok ↦ ok (Ret.ret_ok, t ∷ prev)
      | _ ↦ (do (q, rest) ← remove_all prev name; ok (q, t ∷ rest))
    ]
