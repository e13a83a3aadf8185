-- ===== src/Hash/Iterate.antt =====
-- src/hash.c: the iterator gives every entry once.
use mathlib.Core.List.{flatten}
use mathlib.Core.Option.{map as map_option}
use crypti.Base.{
  ℕ, zero, suc, ◌+◌, ◌-◌, ◌%◌, ◌≤◌, ◌<◌, ◌≡◌, refl, sym, ap, ◌∙◌, ◌⊎◌, inl, inr, Option, none, some,
  List, [], ◌∷◌, ◌++◌, arith, length, get_or, drop, drop_all,
}
use crypti.Hash.{Keys, Chain, Table, Iter, find, iterate_init, iterate, skip, seek, give}
use crypti.Hash.Chain.{IsDistinct}
use crypti.Hash.Slots.{length-flatten, flatten-IsDistinct, find-flatten}
use crypti.Hash.Rehash.{own_slot}
use crypti.Hash.Map.{IsValid, meaning, meaning-view}

module _ {K V : Type 0} where
  -- `while (hash_table_iterate(iter, &key, &data))` on fuel: the entries in turn.
  abbrev pub gather :
      (Iter K V → Option (Chain K V)) → Option (K × V) → Iter K V → Option (Chain K V)
  gather rec none it = some []
  gather rec (some e) it = map_option (λ es. e ∷ es) (rec it)

  unfoldable pub collect : ℕ → Iter K V → Option (Chain K V)
  collect zero it = none
  collect (suc n) it = gather (collect n) (iterate it).0 (iterate it).1

  -- The entries from a slot on.
  abbrev from : List (Chain K V) → ℕ → Chain K V
  from arr idx = flatten (drop idx arr)

  from-suc :
      (arr : List (Chain K V)) (idx : ℕ)
      → idx < length arr
      → from arr idx ≡ get_or arr idx [] ++ from arr (idx + 1)
  unfolding flatten
  from-suc [] idx h = absurd (omega arith)
  from-suc (c ∷ cs) zero h = refl
  from-suc (c ∷ cs) (suc idx) h =
      let e : suc idx + 1 ≡ suc (idx + 1) = omega arith in rw e (from-suc cs idx (omega arith))

  List-cases : (c : Chain K V) → (c ≡ []) ⊎ ((x : K × V) × (r : Chain K V) × (c ≡ x ∷ r))
  List-cases [] = inl refl
  List-cases (x ∷ r) = inr (x, r, refl)

  -- What a search for the next bucket finds: that bucket, or the end of the table.
  abbrev Found : ℕ → Chain K V → ℕ → Type 0
  Found size [] i = i ≡ size
  Found size (x ∷ c) i = i < size

  skip_lem :
      (n : ℕ) (arr : List (Chain K V)) (idx : ℕ)
      → idx + n ≡ length arr
      → (from arr idx ≡ (skip n arr idx).0 ++ from arr ((skip n arr idx).1 + 1))
        × Found (length arr) (skip n arr idx).0 (skip n arr idx).1
  unfolding skip flatten
  skip_lem zero arr idx h =
      let a = drop_all idx arr (omega arith) in
      let b = drop_all (idx + 1) arr (omega arith) in (rw (a, b) refl, omega arith)
  skip_lem (suc n) arr idx h =
      let step = from-suc arr idx (omega arith) in
      elim (List-cases (get_or arr idx [])) [
        | inl e ↦
            let (p, q) = skip_lem n arr (idx + 1) (omega arith) in rw (e, skip) (step ∙ rw e p, q)
        | inr (x, r, e) ↦ rw (e, skip) (step ∙ rw e refl, omega arith)
      ]

  -- What an iterator has still to give.
  abbrev remaining : Table K V → Chain K V → ℕ → Chain K V
  remaining t [] idx = from t.arr idx
  remaining t (x ∷ c) idx = (x ∷ c) ++ from t.arr (idx + 1)

  abbrev InTable : Table K V → Chain K V → ℕ → Type 0
  InTable t [] idx = idx ≤ t.size
  InTable t (x ∷ c) idx = idx < t.size

  seek_lem :
      (t : Table K V) (bucket : Chain K V) (idx : ℕ)
      → length t.arr ≡ t.size
      → InTable t bucket idx
      → (remaining t bucket idx ≡ (seek t bucket idx).0 ++ from t.arr ((seek t bucket idx).1 + 1))
        × Found t.size (seek t bucket idx).0 (seek t bucket idx).1
  unfolding seek
  seek_lem t [] idx l h = rw (← l) (skip_lem (length t.arr - idx) t.arr idx (omega arith))
  seek_lem t (x ∷ c) idx l h = (refl, h)

  -- One call, for a loop that gives the rest as it should.
  gather_lem :
      (n : ℕ) (t : Table K V) (bucket : Chain K V) (idx : ℕ) (c : Chain K V) (i : ℕ)
      → ((b : Chain K V) (k : ℕ)
          → InTable t b k
          → length (remaining t b k) < n
          → collect n (record { table = t; bucket = b; idx = k }) ≡ some (remaining t b k))
      → length t.arr ≡ t.size
      → Found t.size c i
      → length (c ++ from t.arr (i + 1)) < suc n
      → gather
          (collect n)
          (give (record { table = t; bucket = bucket; idx = idx }) c i).0
          (give (record { table = t; bucket = bucket; idx = idx }) c i).1
        ≡ some (c ++ from t.arr (i + 1))
  unfolding give flatten
  gather_lem n t bucket idx [] i ih l q g =
      ap some (sym (ap flatten (drop_all (i + 1) t.arr (omega arith))))
  gather_lem n t bucket idx (x ∷ []) i ih l q g =
      rw (ih [] (i + 1) (omega arith) (omega arith)) refl
  gather_lem n t bucket idx (x ∷ y ∷ r) i ih l q g = rw (ih (y ∷ r) i q (omega arith)) refl

  collect_lem :
      (n : ℕ) (t : Table K V) (bucket : Chain K V) (idx : ℕ)
      → length t.arr ≡ t.size
      → InTable t bucket idx
      → length (remaining t bucket idx) < n
      → collect n (record { table = t; bucket = bucket; idx = idx }) ≡ some (remaining t bucket idx)
  unfolding collect iterate
  collect_lem zero t bucket idx l h f = absurd (omega arith)
  collect_lem (suc n) t bucket idx l h f =
      let (p, q) = seek_lem t bucket idx l h in
      gather_lem n t bucket idx (seek t bucket idx).0 (seek t bucket idx).1
        (λ b k hb fb. collect_lem n t b k l hb fb) l q (rw p at f)
      ∙ ap some (sym p)

module _ {K V : Type 0} (keys : Keys K) where
  -- On a valid table hash_table_iterate gives one entry at each call for as many calls as the
  -- table counts entries, and then FALSE; no key is given twice, and the entries are those that a
  -- lookup finds.
  pub iterate_visits :
      (t : Table K V)
      → IsValid keys t
      → (es : Chain K V) × (collect (t.count + 1) (iterate_init t) ≡ some es)
        × (length es ≡ t.count)
        × IsDistinct keys es
        × ((j : K) → find keys j es ≡ meaning keys t j)
  unfolding iterate_init
  iterate_visits t w =
      let len = length-flatten t.arr in
      (
        flatten t.arr,
        collect_lem (t.count + 1) t [] 0 w.filled.slots (omega arith)
            (omega (arith, len, w.counted)),
        len ∙ w.counted,
        flatten-IsDistinct keys t.size 0 t.arr w.filled.placed,
        λ j.
            let (inside, _, _) = own_slot keys t.size t.arr t.collision j w.filled in
            find-flatten keys t.size 0 (keys.hash_cb j % t.size) t.arr j w.filled.placed inside
              (omega arith)
            ∙ sym (meaning-view keys t j),
      )
