-- ===== src/Array/Copies.antt =====
-- src/array.c: the copy of an array.
use crypti.Run.{Run, ok, die, fault, stuck, ◌>>=◌}
use crypti.Base.{
  ℕ, zero, suc, ◌+◌, ◌≡◌, refl, sym, ap, ◌∙◌, ◌≢◌, inl, inr, Bool, true, Option, none, some, List,
  [], ◌∷◌, arith, if◌then◌else◌, Bool-cases, Option-cases, length, set,
}
use crypti.Hash.{Chain, Iter, find, iterate_init, iterate}
use crypti.Hash.Chain.{IsDistinct, find_first, cmpl_refl}
use crypti.Hash.Map.{new_lem}
use crypti.Hash.Iterate.{gather, collect, iterate_visits}
use crypti.Defaults.{string_keys, same_str, same_str_iff}
use crypti.Array.{Arr, arr_new, get_item, set_item, copy_entry, copy_loop, arr_dup}
use crypti.Array.Items.{IsArray, get_item-meaning, set_item-Changed}

-- The first value that is there.
first_of : {A : Type 0} → Option A → Option A → Option A
first_of none o = o
first_of (some x) o = some x

first_of-none : {A : Type 0} (o : Option A) → first_of o none ≡ o
unfolding first_of
first_of-none none = refl
first_of-none (some x) = refl

ignore-nitems :
    {V : Type 0} (a : Arr V) (n : ℕ) (j : List ℕ)
    → get_item (record a { nitems = n }) j ≡ get_item a j
unfolding get_item
ignore-nitems a n j = refl

same_bind :
    {A B : Type 0} (m : Run A) (f g : A → Run B) → ((a : A) → f a ≡ g a) → (m >>= f) ≡ (m >>= g)
same_bind (ok a) f g h = h a
same_bind die f g h = refl
same_bind fault f g h = refl
same_bind stuck f g h = refl

module _ {V : Type 0} (malloc_ok : ℕ → Bool) where
  set_each : Chain (List ℕ) V → Arr V → Run (Arr V)
  set_each [] copy = ok copy
  set_each ((key, var) ∷ es) copy = set_item malloc_ok copy key var >>= λ c. set_each es c

  -- The loop sets the entries that the iterator gives, in turn.
  copy_loop-collect :
      (n : ℕ) (it : Iter (List ℕ) V) (es : Chain (List ℕ) V) (copy : Arr V)
      → collect n it ≡ some es
      → copy_loop malloc_ok n it copy ≡ set_each es copy
  unfolding collect copy_loop set_each copy_entry
  copy_loop-collect zero it es copy h = absurd (cc h)
  copy_loop-collect (suc n) it es copy h =
      go (iterate it).0 (iterate it).1 (λ later c p. copy_loop-collect n (iterate it).1 later c p) h
    where
      go :
          (o : Option (List ℕ × V)) (next : Iter (List ℕ) V)
          → ((later : Chain (List ℕ) V) (c : Arr V)
              → collect n next ≡ some later
              → copy_loop malloc_ok n next c ≡ set_each later c)
          → gather (collect n) o next ≡ some es
          → copy_entry malloc_ok o copy (λ c. copy_loop malloc_ok n next c) ≡ set_each es copy
      go none next ih e = let same : [] ≡ es = cc e in ap (λ l. set_each l copy) same
      go (some (key, var)) next ih e = elim (Option-cases (collect n next)) [
        | inl p ↦ absurd (cc (rw p at e))
        | inr (later, p) ↦
            let same : (key, var) ∷ later ≡ es = cc (rw p at e) in
            same_bind (set_item malloc_ok copy key var) (λ c. copy_loop malloc_ok n next c)
              (set_each later) (λ c. ih later c p)
            ∙ ap (λ l. set_each l copy) same
      ]

  set_each_lem :
      (es : Chain (List ℕ) V) (copy : Arr V)
      → ((n : ℕ) → malloc_ok n ≡ true)
      → IsArray copy
      → IsDistinct string_keys es
      → ((j : List ℕ) → find string_keys j es ≢ none → get_item copy j ≡ none)
      → (copy' : Arr V) × (set_each es copy ≡ ok copy')
        × IsArray copy'
        × (copy'.nitems ≡ copy.nitems + length es)
        × ((j : List ℕ) → get_item copy' j ≡ first_of (find string_keys j es) (get_item copy j))
  unfolding set_each first_of
  set_each_lem [] copy granted w d apart = (copy, refl, w, omega arith, λ j. (unfold find in refl))
  set_each_lem ((key, var) ∷ es) copy granted w d apart =
      let (c1, e, u, more, _) = set_item-Changed malloc_ok copy key var granted w in
      let first = λ (j : List ℕ). find_first string_keys j key var es in
      let gone = λ (j : List ℕ) (s : same_str key j ≡ true).
        ap (λ i. find string_keys i es) (sym ((same_str_iff key j).0 s)) ∙ d.0 in
      let absent : get_item copy key ≡ none =
        apart key λ n. cc (n, first key, cmpl_refl string_keys key) in
      let later = λ (j : List ℕ) (n : find string_keys j es ≢ none).
        let r : get_item c1 j ≡ none = elim (Bool-cases (same_str key j)) [
          | inl s ↦ absurd (n (gone j s))
          | inr s ↦ u.items j ∙ rw s (apart j λ m. n (sym (first j ∙ rw s refl) ∙ m))
        ] in
        r in
      let (c2, f, w2, count, items) = set_each_lem es c1 granted u.valid d.1 later in
      (
        c2,
        rw (e, set_each) f,
        w2,
        omega (arith, count, more absent),
        λ j. items j ∙ elim (Bool-cases (same_str key j)) [
          | inl s ↦ rw (gone j s, first j, s) (u.items j ∙ rw s refl)
          | inr s ↦ rw (first j, s) (ap (first_of (find string_keys j es)) (u.items j ∙ rw s refl))
        ],
      )

  -- With an allocator that never runs out, arr_dup of a valid array returns a valid array with as
  -- many items, in which every key has what it has in the original.
  pub arr_dup_lem :
      (a : Arr V)
      → ((n : ℕ) → malloc_ok n ≡ true)
      → IsArray a
      → (copy : Arr V) × (arr_dup malloc_ok a ≡ ok copy)
        × IsArray copy
        × (copy.nitems ≡ a.nitems)
        × ((j : List ℕ) → get_item copy j ≡ get_item a j)
  unfolding arr_dup arr_new
  arr_dup_lem a granted w =
      let t = w.table in
      let (es, given, len, distinct, entries) = iterate_visits string_keys t w.valid in
      let (t0, made, valid, empty, _, zero_count) = new_lem string_keys malloc_ok 32 granted in
      let blank : IsArray (arr_new malloc_ok) = record {
        table = t0;
        there = made;
        valid = valid;
        counted = sym zero_count;
      } in
      let nothing = λ (j : List ℕ). get_item-meaning (arr_new malloc_ok) blank j ∙ empty j in
      let (c, set, wc, count, items) =
        set_each_lem es (arr_new malloc_ok) granted blank distinct (λ j _. nothing j) in
      let loop =
        copy_loop-collect (t.count + 1) (iterate_init t) es (arr_new malloc_ok) given ∙ set in
      (
        record c { nitems = a.nitems },
        ap
              (λ h. elim h [
                | none ↦ die
                | some t ↦
                    let copied =
                      copy_loop malloc_ok (t.count + 1) (iterate_init t) (arr_new malloc_ok) in
                    if malloc_ok 24
                    then (do copy ← copied; ok (record copy { nitems = a.nitems }))
                    else die
              ])
              w.there
            ∙ rw (loop, granted 24) refl,
        record {
          table = wc.table;
          there = wc.there;
          valid = wc.valid;
          counted = omega (arith, count, len, w.counted, wc.counted);
        },
        refl,
        λ j.
            ignore-nitems c a.nitems j
            ∙ items j
            ∙ ap (first_of (find string_keys j es)) (nothing j)
            ∙ first_of-none (find string_keys j es)
            ∙ entries j
            ∙ sym (get_item-meaning a w j),
      )
