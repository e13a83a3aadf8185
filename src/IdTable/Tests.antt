-- ===== src/IdTable/Tests.antt =====
-- A global scope with one variable, under an empty one.
use crypti.Run.{ok, die}
use crypti.Base.{ℕ, ◌≡◌, refl, ◌≢◌, Bool, true, none, some, List, [], ◌∷◌, if◌then◌else◌, arith}
use crypti.Hash.{find, slot, answer, lookup, found}
use crypti.Hash.Slots.{total, excess}
use crypti.Hash.Map.{IsValid}
use crypti.Defaults.{widen, hash_loop, default_hash_cb, string_keys, same_str}
use crypti.IdTable.{
  Item, id_var, release, Scope, table_create, push, pop, insert, lookup_in, lookup_all,
}
use crypti.IdTable.Scoping.{AllValid, insert-shadows, scope-restores}

abbrev always : ℕ → Bool
always n = true

-- The name `x`; variables and arrays are numbers here.
abbrev x_is : ℕ → Item ℕ ℕ
x_is v = record { name = b'x' ∷ []; payload = id_var v }

abbrev inner : Scope ℕ ℕ
inner = record { arr = [] ∷ [] ∷ []; size = 2; count = 0; collision = 0 }

abbrev global : Scope ℕ ℕ
global = record { arr = ((b'x' ∷ [], x_is 5) ∷ []) ∷ [] ∷ []; size = 2; count = 1; collision = 0 }

inner-IsValid : IsValid string_keys inner
unfolding total excess
inner-IsValid = record {
  filled = record {
    positive = omega arith;
    slots = refl;
    placed = ((tt, tt), ((tt, tt), tt));
    counted = refl;
  };
  counted = refl;
}

global-IsValid : IsValid string_keys global
unfolding total excess find default_hash_cb hash_loop widen
global-IsValid = record {
  filled = record {
    positive = omega arith;
    slots = refl;
    placed = (((refl, tt), (refl, tt)), ((tt, tt), tt));
    counted = refl;
  };
  counted = refl;
}

insert-shadows_example :
    (lookup_in inner (b'x' ∷ []) ≡ none
      → (t' : Scope ℕ ℕ) × (insert always (inner ∷ global ∷ []) (x_is 7) ≡ ok (t' ∷ global ∷ []))
        × AllValid (t' ∷ global ∷ [])
        × ((j : List ℕ)
            → lookup_all (t' ∷ global ∷ []) j ≡ (
                if same_str (b'x' ∷ []) j
                then some (x_is 7)
                else lookup_all (inner ∷ global ∷ []) j)))
    × (lookup_in inner (b'x' ∷ []) ≢ none → insert always (inner ∷ global ∷ []) (x_is 7) ≡ die)
insert-shadows_example =
    insert-shadows always inner (global ∷ []) (x_is 7) (λ n. refl)
      (inner-IsValid, (global-IsValid, tt))

scope-restores_example :
    (t : Scope ℕ ℕ) × (t' : Scope ℕ ℕ) × (table_create always ≡ ok t)
    × (insert always (push t (global ∷ [])) (x_is 7) ≡ ok (t' ∷ global ∷ []))
    × ((j : List ℕ) → lookup_all (push t (global ∷ [])) j ≡ lookup_all (global ∷ []) j)
    × ((j : List ℕ)
        → lookup_all (t' ∷ global ∷ []) j
          ≡ (if same_str (b'x' ∷ []) j then some (x_is 7) else lookup_all (global ∷ []) j))
    × (pop (t' ∷ global ∷ []) ≡ ok (t', global ∷ []))
scope-restores_example =
    scope-restores always (global ∷ []) (x_is 7) (λ n. refl) (global-IsValid, tt) λ e. cc

global_x : lookup_all (inner ∷ global ∷ []) (b'x' ∷ []) ≡ some (x_is 5)
unfolding lookup_all lookup_in found lookup slot answer find same_str default_hash_cb hash_loop
    widen
global_x = refl

x_is_typed : release (x_is 5) ≡ ok tt
unfolding release
x_is_typed = refl
