-- ===== src/Array.antt =====
-- src/array.c: arrays of variables under string keys, in a hash table. `V` is the value of a
-- variable, which `var_copy` copies.
pub mod Items
pub mod Copies
mod Tests
use crypti.Run.{Run, ok, die, stuck, ◌>>=◌}
use crypti.Base.{
  ℕ, zero, suc, ◌+◌, ◌-◌, Bool, true, false, Option, none, some, List, [], ◌∷◌, if◌then◌else◌,
}
use crypti.Hash.{
  Ret, Table, Outcome, returns, broken, Iter, new, lookup, insert, remove, found, iterate_init,
  iterate,
}
use crypti.Defaults.{string_keys}

-- `arr_t`: the hash table, `none` for a null pointer, which `arr_new` does not look for. An item
-- of the table is the variable; its key is the key of the entry.
pub record Arr (V : Type 0) : Type 0 where
  pub hash : Option (Table (List ℕ) V)
  pub nitems : ℕ

module _ {V : Type 0} where
  -- `arr_new`, with `initial_size`
  pub arr_new : (ℕ → Bool) → Arr V
  arr_new malloc_ok = record { hash = new malloc_ok 32; nitems = 0 }

  -- `arr_get_item`
  pub get_item : Arr V → List ℕ → Option V
  get_item arr key = elim (arr.hash) [ none ↦ none | some t ↦ found (lookup string_keys t key) ]

  -- What `arr_remove_item` does with a table that is there.
  pub remove_in : Arr V → Table (List ℕ) V → List ℕ → Ret × Arr V
  remove_in arr t key = elim (found (lookup string_keys t key)) [
    | none ↦ (Ret.ret_err, arr)
    | some old ↦ elim ((remove string_keys t key).0) [
      | false ↦ (Ret.ret_err, arr)
      | true ↦
          (Ret.ret_ok, record { hash = some (remove string_keys t key).1; nitems = arr.nitems - 1 })
    ]
  ]

  -- `arr_remove_item`
  pub remove_item : Arr V → List ℕ → Ret × Arr V
  remove_item arr key = elim (arr.hash) [ none ↦ (Ret.ret_err, arr) | some t ↦ remove_in arr t key ]

  -- What `arr_set_item` makes of the answer of the hash table.
  pub placed : Arr V → Outcome (Table (List ℕ) V) → Run (Arr V)
  placed arr broken = die
  placed arr (returns Ret.ret_ok t) = ok (record { hash = some t; nitems = arr.nitems + 1 })
  placed arr (returns Ret.ret_err t) = die
  placed arr (returns Ret.ret_not_found t) = die
  placed arr (returns Ret.ret_entry_exists t) = die
  placed arr (returns Ret.ret_out_of_memory t) = die

  -- Its second half; an insertion into a null pointer returns -1.
  pub insert_item : (ℕ → Bool) → Arr V → List ℕ → V → Run (Arr V)
  insert_item malloc_ok arr key var = elim (arr.hash) [
    | none ↦ die
    | some t ↦ placed arr (insert string_keys malloc_ok t key var)
  ]

  -- `arr_set_item`
  pub set_item : (ℕ → Bool) → Arr V → List ℕ → V → Run (Arr V)
  set_item malloc_ok arr key var = insert_item malloc_ok (remove_item arr key).1 key var

  -- One turn of the loop of `arr_dup`, which sets what the iterator gave and goes on.
  pub copy_entry : (ℕ → Bool) → Option (List ℕ × V) → Arr V → (Arr V → Run (Arr V)) → Run (Arr V)
  copy_entry malloc_ok none copy rec = ok copy
  copy_entry malloc_ok (some (key, var)) copy rec = set_item malloc_ok copy key var >>= rec

  pub copy_loop : (ℕ → Bool) → ℕ → Iter (List ℕ) V → Arr V → Run (Arr V)
  copy_loop malloc_ok zero iter copy = stuck
  copy_loop malloc_ok (suc fuel) iter copy =
      copy_entry malloc_ok (iterate iter).0 copy λ c. copy_loop malloc_ok fuel (iterate iter).1 c

  -- `arr_dup`; there is no iterator for a null pointer. The loop turns once for each entry and
  -- once more. An iterator has 24 bytes.
  pub arr_dup : (ℕ → Bool) → Arr V → Run (Arr V)
  arr_dup malloc_ok arr = elim (arr.hash) [
    | none ↦ die
    | some t ↦
        let copied = copy_loop malloc_ok (t.count + 1) (iterate_init t) (arr_new malloc_ok) in
        if malloc_ok 24 then (do copy ← copied; ok (record copy { nitems = arr.nitems })) else die
  ]
