-- ===== src/Hash/Tests.antt =====
-- A table of five slots whose keys are numbers that hash to themselves.
use mathlib.Core.List.{flatten}
use crypti.Base.{
  ℕ, ◌+◌, ◌≡◌, refl, ◌≢◌, Bool, true, false, none, some, [], ◌∷◌, ◌==◌, ==_iff, arith, length,
}
use crypti.Hash.{
  Keys, Ret, Chain, Table, returns, find, slot, lookup, remove, replace, insert_unique,
  iterate_init,
}
use crypti.Hash.Chain.{IsDistinct}
use crypti.Hash.Slots.{total, excess}
use crypti.Hash.Map.{IsValid, meaning, Updated, insert_unique-refines}
use crypti.Hash.Removal.{remove-refines, replace-refines}
use crypti.Hash.Lookup.{Stands, lookup_codes}
use crypti.Hash.Iterate.{collect, iterate_visits}

abbrev number_keys : Keys ℕ
number_keys = record { hash_cb = λ n. n; cmpl_cb = λ a b. a == b; cmpl_iff = ==_iff }

abbrev always : ℕ → Bool
always n = true

-- Three keys, of which two share a slot; a further key makes it grow first.
abbrev three_entries : Table ℕ ℕ
three_entries = record {
  arr = [] ∷ [] ∷ ((2, 20) ∷ (7, 70) ∷ (12, 120) ∷ []) ∷ [] ∷ [] ∷ [];
  size = 5;
  count = 3;
  collision = 2;
}

three_entries-IsValid : IsValid number_keys three_entries
unfolding total excess find
three_entries-IsValid = record {
  filled = record {
    positive = omega arith;
    slots = refl;
    placed = (
      (tt, tt),
      (
        (tt, tt),
        (((refl, (refl, (refl, tt))), (refl, (refl, (refl, tt)))), ((tt, tt), ((tt, tt), tt))),
      ),
    );
    counted = refl;
  };
  counted = refl;
}

insert_unique-refines_example :
    (meaning number_keys three_entries 17 ≡ none
      → (t' : Table ℕ ℕ) × (insert_unique number_keys always three_entries 17 170
          ≡ returns Ret.ret_ok t')
        × Updated number_keys three_entries 17 (some 170) t'
        × (t'.count ≡ three_entries.count + 1))
    × (meaning number_keys three_entries 17 ≢ none
        → insert_unique number_keys always three_entries 17 170
          ≡ returns Ret.ret_entry_exists three_entries)
insert_unique-refines_example =
    insert_unique-refines number_keys always three_entries 17 170 (λ n. refl) three_entries-IsValid

remove-refines_example :
    (meaning number_keys three_entries 2 ≡ none
      → remove number_keys three_entries 2 ≡ (false, three_entries))
    × (meaning number_keys three_entries 2 ≢ none
        → ((remove number_keys three_entries 2).0 ≡ true)
          × Updated number_keys three_entries 2 none (remove number_keys three_entries 2).1
          × ((remove number_keys three_entries 2).1.count + 1 ≡ three_entries.count))
remove-refines_example = remove-refines number_keys three_entries 2 three_entries-IsValid

replace-refines_example :
    (meaning number_keys three_entries 7 ≡ none
      → replace number_keys three_entries 7 71 ≡ (false, three_entries))
    × (meaning number_keys three_entries 7 ≢ none
        → ((replace number_keys three_entries 7 71).0 ≡ true)
          × Updated number_keys three_entries 7 (some 71) (replace number_keys three_entries 7 71).1
          × ((replace number_keys three_entries 7 71).1.count ≡ three_entries.count))
replace-refines_example = replace-refines number_keys three_entries 7 71 three_entries-IsValid

lookup_codes_example :
    ((v : ℕ)
      → Stands 17 v (flatten three_entries.arr)
      → lookup number_keys three_entries 17 ≡ (Ret.ret_ok, some v))
    × (((v : ℕ) → Stands 17 v (flatten three_entries.arr) → ⊥)
        → slot number_keys three_entries 17 ≡ []
        → lookup number_keys three_entries 17 ≡ (Ret.ret_not_found, none))
    × (((v : ℕ) → Stands 17 v (flatten three_entries.arr) → ⊥)
        → slot number_keys three_entries 17 ≢ []
        → lookup number_keys three_entries 17 ≡ (Ret.ret_err, none))
lookup_codes_example = lookup_codes number_keys three_entries 17 three_entries-IsValid

iterate_visits_example :
    (es : Chain ℕ ℕ) × (collect (three_entries.count + 1) (iterate_init three_entries) ≡ some es)
    × (length es ≡ three_entries.count)
    × IsDistinct number_keys es
    × ((j : ℕ) → find number_keys j es ≡ meaning number_keys three_entries j)
iterate_visits_example = iterate_visits number_keys three_entries three_entries-IsValid
