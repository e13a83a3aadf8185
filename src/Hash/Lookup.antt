-- ===== src/Hash/Lookup.antt =====
-- src/hash.c: what a lookup returns, and what its callers make of it.
use mathlib.Core.List.{flatten}
use crypti.Base.{
  ◌≡◌, refl, sym, ap, ◌∙◌, ◌≢◌, ◌⊎◌, inl, inr, true, none, some, ◌%◌, [], ◌∷◌, arith, Option-cases,
  Bool-cases,
}
use crypti.Hash.{Keys, Ret, Chain, Table, find, slot, answer, lookup, found}
use crypti.Hash.Chain.{IsDistinct}
use crypti.Hash.Slots.{flatten-IsDistinct, find-flatten}
use crypti.Hash.Rehash.{own_slot}
use crypti.Hash.Map.{IsValid, meaning}

-- An entry that stands somewhere in a list of entries.
abbrev pub Stands : {K V : Type 0} → K → V → Chain K V → Type 0
Stands k v [] = ⊥
Stands k v ((i, w) ∷ rest) = ((i ≡ k) × (w ≡ v)) ⊎ Stands k v rest

module _ {K V : Type 0} (keys : Keys K) where
  find-Stands :
      (c : Chain K V) (k : K) (v : V) → IsDistinct keys c → Stands k v c → find keys k c ≡ some v
  unfolding find
  find-Stands [] k v d h = absurd h
  find-Stands ((i, w) ∷ rest) k v d (inl (e, f)) =
      let same : keys.cmpl_cb i k ≡ true = (keys.cmpl_iff i k).1 e in rw same (ap some f)
  find-Stands ((i, w) ∷ rest) k v d (inr h) =
      let later = find-Stands rest k v d.1 h in
      elim (Bool-cases (keys.cmpl_cb i k)) [
        | inl e ↦ cc (d.0, later, (keys.cmpl_iff i k).0 e)
        | inr e ↦ rw e later
      ]

  Stands-find : (c : Chain K V) (k : K) (v : V) → find keys k c ≡ some v → Stands k v c
  unfolding find
  Stands-find [] k v e = cc e
  Stands-find ((i, w) ∷ rest) k v e = elim (Bool-cases (keys.cmpl_cb i k)) [
    | inl t ↦ inl ((keys.cmpl_iff i k).0 t, ground (arith, e, t))
    | inr f ↦ inr (Stands-find rest k v (rw f at e))
  ]

  answer_codes :
      (c : Chain K V) (k : K)
      → ((v : V) → find keys k c ≡ some v → answer keys k c ≡ (Ret.ret_ok, some v))
        × (find keys k c ≡ none → c ≡ [] → answer keys k c ≡ (Ret.ret_not_found, none))
        × (find keys k c ≡ none → c ≢ [] → answer keys k c ≡ (Ret.ret_err, none))
  unfolding answer find
  answer_codes [] k = (λ v e. cc e, λ e n. refl, λ e n. absurd (n refl))
  answer_codes (x ∷ c) k = (λ v e. rw (e, answer) refl, λ e n. cc n, λ e n. rw (e, answer) refl)

  slot-flatten :
      (t : Table K V) (k : K)
      → IsValid keys t
      → find keys k (flatten t.arr) ≡ find keys k (slot keys t k)
  unfolding slot
  slot-flatten t k w =
      let (inside, _, _) = own_slot keys t.size t.arr t.collision k w.filled in
      find-flatten keys t.size 0 (keys.hash_cb k % t.size) t.arr k w.filled.placed inside
        (omega arith)

  -- On a valid table hash_table_lookup of a key returns ret_ok with the value of the entry that
  -- stands under the key anywhere in the slots; of a key that no entry stands under it returns
  -- ret_not_found where the slot of the key is empty and ret_err where it holds other keys.
  pub lookup_codes :
      (t : Table K V) (k : K)
      → IsValid keys t
      → ((v : V) → Stands k v (flatten t.arr) → lookup keys t k ≡ (Ret.ret_ok, some v))
        × (((v : V) → Stands k v (flatten t.arr) → ⊥)
            → slot keys t k ≡ []
            → lookup keys t k ≡ (Ret.ret_not_found, none))
        × (((v : V) → Stands k v (flatten t.arr) → ⊥)
            → slot keys t k ≢ []
            → lookup keys t k ≡ (Ret.ret_err, none))
  unfolding lookup
  lookup_codes t k w =
      let (there, empty, others) = answer_codes (slot keys t k) k in
      let same = slot-flatten t k w in
      let distinct = flatten-IsDistinct keys t.size 0 t.arr w.filled.placed in
      let absent : ((v : V) → Stands k v (flatten t.arr) → ⊥) → find keys k (slot keys t k) ≡ none =
        λ no. elim (Option-cases (find keys k (flatten t.arr))) [
          | inl e ↦ sym same ∙ e
          | inr (v, e) ↦ absurd (no v (Stands-find (flatten t.arr) k v e))
        ] in
      (
        λ v h. there v (sym same ∙ find-Stands (flatten t.arr) k v distinct h),
        λ no e. empty (absent no) e,
        λ no e. others (absent no) e,
      )

  found-answer : (c : Chain K V) (k : K) → found (answer keys k c) ≡ (answer keys k c).1
  unfolding answer found
  found-answer [] k = refl
  found-answer (x ∷ c) k = elim (Option-cases (find keys k (x ∷ c))) [
    | inl e ↦ rw (e, answer) refl
    | inr (v, e) ↦ rw (e, answer) refl
  ]

  pub found-lookup : (t : Table K V) (k : K) → found (lookup keys t k) ≡ meaning keys t k
  unfolding lookup
  found-lookup t k = found-answer (slot keys t k) k
