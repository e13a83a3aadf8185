-- ===== src/Array/Items.antt =====
-- src/array.c: setting, getting and removing items.
use crypti.Run.{ok, die}
use crypti.Base.{
  ℕ, ◌+◌, ◌-◌, ◌≡◌, refl, sym, ap, ◌∙◌, ◌≢◌, inl, inr, Bool, true, Option, none, some, List, arith,
  if◌then◌else◌, Bool-cases, Option-cases,
}
use crypti.Hash.{Ret, Table, insert, remove}
use crypti.Hash.Map.{IsValid, meaning, insert-Updated}
use crypti.Hash.Removal.{remove-refines}
use crypti.Hash.Lookup.{found-lookup}
use crypti.Defaults.{string_keys, same_str, same_str_iff}
use crypti.Array.{Arr, get_item, remove_in, remove_item, placed, insert_item, set_item}

module _ {V : Type 0} where
  -- The table of the array is there and valid, and the number of items is right.
  pub record IsArray (a : Arr V) : Type 0 where
    pub table : Table (List ℕ) V
    pub there : a.hash ≡ some table
    pub valid : IsValid string_keys table
    pub counted : a.nitems ≡ table.count

  pub get_item-meaning :
      (a : Arr V) (w : IsArray a) (j : List ℕ) → get_item a j ≡ meaning string_keys w.table j
  unfolding get_item
  get_item-meaning a w j = rw (w.there, get_item) (found-lookup string_keys w.table j)

  -- An array in which one key has a new value, or none, and the others have theirs.
  pub record Changed (a : Arr V) (key : List ℕ) (o : Option V) (a' : Arr V) : Type 0 where
    pub valid : IsArray a'
    pub items : (j : List ℕ) → get_item a' j ≡ (if same_str key j then o else get_item a j)

  remove_item-remove_in :
      (a : Arr V) (w : IsArray a) (key : List ℕ) → remove_item a key ≡ remove_in a w.table key
  unfolding remove_item
  remove_item-remove_in a w key =
      ap (λ h. elim h [ none ↦ (Ret.ret_err, a) | some t ↦ remove_in a t key ]) w.there

  -- Arr_remove_item on a valid array returns ret_err and the same array for a key that is not
  -- there, and ret_ok with one item less for one that is; the array is valid, has no such key, and
  -- all others as they were.
  pub remove_item-Changed :
      (a : Arr V) (key : List ℕ)
      → IsArray a
      → (get_item a key ≡ none → remove_item a key ≡ (Ret.ret_err, a))
        × (get_item a key ≢ none
            → ((remove_item a key).0 ≡ Ret.ret_ok) × ((remove_item a key).1.nitems + 1 ≡ a.nitems))
        × Changed a key none (remove_item a key).1
  unfolding remove_in
  remove_item-Changed a key w =
      let t = w.table in
      let known = found-lookup string_keys t key in
      elim (Option-cases (meaning string_keys t key)) [
        | inl e ↦
            rw (remove_item-remove_in a w key, known ∙ e, remove_in)
              (
                λ absent. refl,
                λ present. absurd (present (get_item-meaning a w key ∙ e)),
                record {
                  valid = w;
                  items = λ j. elim (Bool-cases (same_str key j)) [
                    | inl s ↦ rw s (
                        ap (get_item a) (sym ((same_str_iff key j).0 s))
                        ∙ get_item-meaning a w key
                        ∙ e)
                    | inr s ↦ rw s refl
                  ];
                },
              )
        | inr (v, e) ↦
            let (r, u, c) = (remove-refines string_keys t key w.valid).1 (cc e) in
            let w' : IsArray
                (record { hash = some (remove string_keys t key).1; nitems = a.nitems - 1 }) =
              record {
                table = (remove string_keys t key).1;
                there = refl;
                valid = u.valid;
                counted = omega (arith, w.counted, c);
              } in
            rw (remove_item-remove_in a w key, known ∙ e, remove_in, r)
              (
                λ absent. absurd (cc (absent, get_item-meaning a w key, e)),
                λ present. (refl, omega (arith, w.counted, c)),
                record {
                  valid = w';
                  items = λ j.
                      get_item-meaning _ w' j
                      ∙ u.means j
                      ∙ ap (λ o. if same_str key j then none else o) (sym (get_item-meaning a w j));
                },
              )
      ]

  insert_item-Changed :
      (malloc_ok : ℕ → Bool) (a : Arr V) (key : List ℕ) (var : V)
      → ((n : ℕ) → malloc_ok n ≡ true)
      → IsArray a
      → get_item a key ≡ none
      → (a' : Arr V) × (insert_item malloc_ok a key var ≡ ok a')
        × Changed a key (some var) a'
        × (a'.nitems ≡ a.nitems + 1)
  unfolding insert_item placed
  insert_item-Changed malloc_ok a key var granted w absent =
      let (t, e, u, c) =
        insert-Updated string_keys malloc_ok w.table key var granted w.valid
          (sym (get_item-meaning a w key) ∙ absent) in
      let w' : IsArray (record { hash = some t; nitems = a.nitems + 1 }) = record {
        table = t;
        there = refl;
        valid = u.valid;
        counted = omega (arith, w.counted, c);
      } in
      (
        record { hash = some t; nitems = a.nitems + 1 },
        ap (λ h. elim h [ none ↦ die | some t ↦ placed a (insert string_keys malloc_ok t key var) ])
              w.there
            ∙ rw (e, placed) refl,
        record {
          valid = w';
          items = λ j.
              get_item-meaning _ w' j
              ∙ u.means j
              ∙ ap (λ o. if same_str key j then some var else o) (sym (get_item-meaning a w j));
        },
        refl,
      )

  -- With an allocator that never runs out, arr_set_item on a valid array returns a valid array in
  -- which that key has the variable and all others what they had; the number of items grows by one
  -- for a new key and stays for one that was there.
  pub set_item-Changed :
      (malloc_ok : ℕ → Bool) (a : Arr V) (key : List ℕ) (var : V)
      → ((n : ℕ) → malloc_ok n ≡ true)
      → IsArray a
      → (a' : Arr V) × (set_item malloc_ok a key var ≡ ok a')
        × Changed a key (some var) a'
        × (get_item a key ≡ none → a'.nitems ≡ a.nitems + 1)
        × (get_item a key ≢ none → a'.nitems ≡ a.nitems)
  unfolding set_item
  set_item-Changed malloc_ok a key var granted w =
      let (kept, taken, gone) = remove_item-Changed a key w in
      let b = (remove_item a key).1 in
      let absent : get_item b key ≡ none =
        gone.items key ∙ rw ((same_str_iff key key).1 refl) refl in
      let (a', e, u, c) = insert_item-Changed malloc_ok b key var granted gone.valid absent in
      (
        a',
        e,
        record {
          valid = u.valid;
          items = λ j. u.items j ∙ elim (Bool-cases (same_str key j)) [
            | inl s ↦ rw s refl
            | inr s ↦ rw s (gone.items j ∙ rw s refl)
          ];
        },
        λ none_there. c ∙ ap (λ r. r.1.nitems + 1) (kept none_there),
        λ some_there. c ∙ (taken some_there).1,
      )
