-- ===== src/Array/Tests.antt =====
-- An array with one item.
use crypti.Run.{ok}
use crypti.Base.{ℕ, ◌+◌, ◌≡◌, refl, ◌≢◌, Bool, true, none, some, List, [], ◌∷◌, arith}
use crypti.Hash.{Table, find}
use crypti.Hash.Slots.{total, excess}
use crypti.Hash.Map.{IsValid}
use crypti.Defaults.{widen, hash_loop, default_hash_cb, string_keys}
use crypti.Array.{Arr, get_item, set_item, arr_dup}
use crypti.Array.Items.{IsArray, Changed, set_item-Changed}
use crypti.Array.Copies.{arr_dup_lem}

abbrev always : ℕ → Bool
always n = true

abbrev one_entry : Table (List ℕ) ℕ
one_entry = record { arr = ((b'x' ∷ [], 5) ∷ []) ∷ [] ∷ []; size = 2; count = 1; collision = 0 }

abbrev one_item : Arr ℕ
one_item = record { hash = some one_entry; nitems = 1 }

one_entry-IsValid : IsValid string_keys one_entry
unfolding total excess find default_hash_cb hash_loop widen
one_entry-IsValid = record {
  filled = record {
    positive = omega arith;
    slots = refl;
    placed = (((refl, tt), (refl, tt)), ((tt, tt), tt));
    counted = refl;
  };
  counted = refl;
}

one_item-IsArray : IsArray one_item
one_item-IsArray = record {
  table = one_entry;
  there = refl;
  valid = one_entry-IsValid;
  counted = refl;
}

set_item-Changed_example :
    (a' : Arr ℕ) × (set_item always one_item (b'x' ∷ []) 7 ≡ ok a')
    × Changed one_item (b'x' ∷ []) (some 7) a'
    × (get_item one_item (b'x' ∷ []) ≡ none → a'.nitems ≡ one_item.nitems + 1)
    × (get_item one_item (b'x' ∷ []) ≢ none → a'.nitems ≡ one_item.nitems)
set_item-Changed_example =
    set_item-Changed always one_item (b'x' ∷ []) 7 (λ n. refl) one_item-IsArray

arr_dup_lem_example :
    (copy : Arr ℕ) × (arr_dup always one_item ≡ ok copy)
    × IsArray copy
    × (copy.nitems ≡ one_item.nitems)
    × ((j : List ℕ) → get_item copy j ≡ get_item one_item j)
arr_dup_lem_example = arr_dup_lem always one_item (λ n. refl) one_item-IsArray
