-- ===== src/IdTable/Scoping.antt =====
-- src/id_table.c: what a name stands for while scopes are pushed, filled, emptied and popped.
use crypti.Run.{ok, die}
use crypti.Base.{
  ℕ, ◌≡◌, refl, sym, ap, ◌∙◌, ◌≢◌, inl, inr, Bool, true, Option, none, some, List, [], ◌∷◌,
  if◌then◌else◌, Bool-cases, Option-cases,
}
use crypti.Hash.{Ret, remove}
use crypti.Hash.Map.{IsValid, meaning, Updated, insert_unique-refines, new_lem}
use crypti.Hash.Removal.{remove-refines}
use crypti.Hash.Lookup.{found-lookup}
use crypti.Defaults.{string_keys, same_str, same_str_iff}
use crypti.IdTable.{
  Item, Scope, Scopes, release, table_create, push, pop, inserted, insert_to, insert, lookup_in,
  lookup_all, remove_from, remove_all,
}

module _ {V A : Type 0} where
  abbrev pub AllValid : Scopes V A → Type 0
  AllValid [] = Unit
  AllValid (t ∷ ts) = IsValid string_keys t × AllValid ts

  lookup_in_lem : (t : Scope V A) (name : List ℕ) → lookup_in t name ≡ meaning string_keys t name
  unfolding lookup_in
  lookup_in_lem t name = found-lookup string_keys t name

  or_outer : Option (Item V A) → Option (Item V A) → Option (Item V A)
  or_outer none o = o
  or_outer (some x) o = some x

  lookup_all_head :
      (t : Scope V A) (ts : Scopes V A) (name : List ℕ)
      → lookup_all (t ∷ ts) name ≡ or_outer (meaning string_keys t name) (lookup_all ts name)
  unfolding lookup_all or_outer
  lookup_all_head t ts name = elim (Option-cases (meaning string_keys t name)) [
    | inl e ↦ rw (lookup_in_lem t name ∙ e, lookup_all, e) refl
    | inr (x, e) ↦ rw (lookup_in_lem t name ∙ e, lookup_all, e) refl
  ]

  -- With an allocator that never runs out and valid scopes, id_table_insert of a name that the
  -- current scope does not have makes id_table_lookup_all give the new item for that name and what
  -- it gave before for all others; a name that the current scope has ends the process.
  pub insert-shadows :
      (malloc_ok : ℕ → Bool) (t : Scope V A) (ts : Scopes V A) (item : Item V A)
      → ((n : ℕ) → malloc_ok n ≡ true)
      → AllValid (t ∷ ts)
      → (lookup_in t item.name ≡ none
          → (t' : Scope V A) × (insert malloc_ok (t ∷ ts) item ≡ ok (t' ∷ ts))
            × AllValid (t' ∷ ts)
            × ((j : List ℕ)
                → lookup_all (t' ∷ ts) j
                  ≡ (if same_str item.name j then some item else lookup_all (t ∷ ts) j)))
        × (lookup_in t item.name ≢ none → insert malloc_ok (t ∷ ts) item ≡ die)
  unfolding insert insert_to inserted or_outer
  insert-shadows malloc_ok t ts item granted w =
      let r = insert_unique-refines string_keys malloc_ok t item.name item granted w.0 in
      (
        λ absent.
            let (t', e, u, c) = r.0 (sym (lookup_in_lem t item.name) ∙ absent) in
            (
              t',
              rw (e, insert, insert_to, inserted) refl,
              (u.valid, w.1),
              λ j.
                  lookup_all_head t' ts j
                  ∙ ap (λ o. or_outer o (lookup_all ts j)) (u.means j)
                  ∙ elim (Bool-cases (same_str item.name j)) [
                    | inl s ↦ rw s refl
                    | inr s ↦ rw s (sym (lookup_all_head t ts j))
                  ],
            ),
        λ present.
            let e = r.1 (λ n. present (lookup_in_lem t item.name ∙ n)) in
            rw (e, insert, insert_to, inserted) refl,
      )

  -- With an allocator that never runs out and at least one valid scope, a new scope that is pushed
  -- changes no lookup, an item that is then inserted hides only its own name, and id_table_pop
  -- gives the filled scope and leaves the scopes that were there before.
  pub scope-restores :
      (malloc_ok : ℕ → Bool) (ts : Scopes V A) (item : Item V A)
      → ((n : ℕ) → malloc_ok n ≡ true)
      → AllValid ts
      → ts ≢ []
      → (t : Scope V A) × (t' : Scope V A) × (table_create malloc_ok ≡ ok t)
        × (insert malloc_ok (push t ts) item ≡ ok (t' ∷ ts))
        × ((j : List ℕ) → lookup_all (push t ts) j ≡ lookup_all ts j)
        × ((j : List ℕ)
            → lookup_all (t' ∷ ts) j
              ≡ (if same_str item.name j then some item else lookup_all ts j))
        × (pop (t' ∷ ts) ≡ ok (t', ts))
  unfolding table_create push pop or_outer
  scope-restores malloc_ok [] item granted w some_scope = absurd (some_scope refl)
  scope-restores malloc_ok (next ∷ rest) item granted w some_scope =
      let (t, e, v, empty, _, _) = new_lem {V = Item V A} string_keys malloc_ok 32 granted in
      let ts = next ∷ rest in
      let absent = lookup_in_lem t item.name ∙ empty item.name in
      let blank =
        λ (j : List ℕ). lookup_all_head t ts j ∙ ap (λ o. or_outer o (lookup_all ts j)) (empty j) in
      let (t', f, _, means) = (insert-shadows malloc_ok t ts item granted (v, w)).0 absent in
      (
        t,
        t',
        rw (e, table_create) refl,
        f,
        blank,
        λ j. means j ∙ ap (λ o. if same_str item.name j then some item else o) (blank j),
        refl,
      )

  -- The scopes behind the innermost one that has the name.
  pub outer : Scopes V A → List ℕ → Scopes V A
  outer [] name = []
  outer (t ∷ ts) name = elim (lookup_in t name) [ none ↦ outer ts name | some item ↦ ts ]

  -- Every item has a type, so that it can be released.
  abbrev IsTyped : Item V A → Type 0
  IsTyped item = release item ≡ ok tt

  remove_from_lem :
      (t : Scope V A) (name : List ℕ) (item : Item V A)
      → IsValid string_keys t
      → lookup_in t name ≡ some item
      → IsTyped item
      → (t' : Scope V A) × (remove_from t name ≡ ok (Ret.ret_ok, t'))
        × Updated string_keys t name none t'
  unfolding remove_from
  remove_from_lem t name item v e typed =
      let (r, u, c) =
        (remove-refines string_keys t name v).1 (cc (sym (lookup_in_lem t name) ∙ e)) in
      ((remove string_keys t name).1, rw (e, remove_from, r, typed) refl, u)

  remove_all_later :
      (t : Scope V A) (ts ts' : Scopes V A) (name : List ℕ)
      → lookup_in t name ≡ none
      → remove_all ts name ≡ ok (Ret.ret_ok, ts')
      → remove_all (t ∷ ts) name ≡ ok (Ret.ret_ok, t ∷ ts')
  unfolding remove_all remove_from
  remove_all_later t ts ts' name e r = rw (e, remove_from, r, remove_all) refl

  not-found : (name : List ℕ) (item : Item V A) → lookup_all [] name ≢ some item
  unfolding lookup_all
  not-found name item = cc

  -- In valid scopes, id_table_remove of a name whose item has a type returns ret_ok with valid
  -- scopes; the name then stands for what the scopes behind the one that had it give, and all
  -- others for what they did.
  pub remove-uncovers :
      (ts : Scopes V A) (name : List ℕ) (item : Item V A)
      → AllValid ts
      → lookup_all ts name ≡ some item
      → IsTyped item
      → (ts' : Scopes V A) × (remove_all ts name ≡ ok (Ret.ret_ok, ts'))
        × AllValid ts'
        × ((j : List ℕ)
            → lookup_all ts' j
              ≡ (if same_str name j then lookup_all (outer ts name) name else lookup_all ts j))
  unfolding remove_all outer or_outer
  remove-uncovers [] name item w h typed = absurd (not-found name item h)
  remove-uncovers (t ∷ ts) name item w h typed = elim (Option-cases (lookup_in t name)) [
    | inr (x, e) ↦
        let there : meaning string_keys t name ≡ some x = sym (lookup_in_lem t name) ∙ e in
        let one : x ≡ item =
          cc (h, lookup_all_head t ts name, ap (λ o. or_outer o (lookup_all ts name)) there) in
        let (t', r, u) = remove_from_lem t name x w.0 e (rw one typed) in
        (
          t' ∷ ts,
          rw (r, remove_all) refl,
          (u.valid, w.1),
          λ j.
              lookup_all_head t' ts j
              ∙ ap (λ o. or_outer o (lookup_all ts j)) (u.means j)
              ∙ elim (Bool-cases (same_str name j)) [
                | inl s ↦ rw (s, e, outer) (ap (lookup_all ts) (sym ((same_str_iff name j).0 s)))
                | inr s ↦ rw s (sym (lookup_all_head t ts j))
              ],
        )
    | inl e ↦
        let away : meaning string_keys t name ≡ none = sym (lookup_in_lem t name) ∙ e in
        let head = λ (j : List ℕ) (us : Scopes V A). lookup_all_head t us j in
        let deeper : lookup_all ts name ≡ some item =
          sym (head name ts ∙ ap (λ o. or_outer o (lookup_all ts name)) away) ∙ h in
        let (ts', r, v, means) = remove-uncovers ts name item w.1 deeper typed in
        (
          t ∷ ts',
          remove_all_later t ts ts' name e r,
          (w.0, v),
          λ j.
              head j ts'
              ∙ ap (or_outer (meaning string_keys t j)) (means j)
              ∙ elim (Bool-cases (same_str name j)) [
                | inl s ↦
                    rw (s, e, outer)
                      (ap (λ o. or_outer o (lookup_all (outer ts name) name))
                        (ap (meaning string_keys t) (sym ((same_str_iff name j).0 s)) ∙ away))
                | inr s ↦ rw s (sym (head j ts))
              ],
        )
  ]
