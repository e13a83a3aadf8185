-- ===== src/Hash/Removal.antt =====
-- src/hash.c: an entry that is removed from its slot, or replaced in it.
use crypti.Base.{
  ℕ, ◌+◌, ◌-◌, ◌%◌, ◌≡◌, refl, sym, ap, ◌∙◌, ◌≢◌, inl, inr, true, false, none, some, [], arith,
  if◌then◌else◌, get_or, set, length-set,
}
use crypti.Hash.{Keys, Chain, Table, slot, remove, replace, lone}
use crypti.Hash.Chain.{AllKeys, IsDistinct, unlink_cases, overwrite_cases, lone_lem}
use crypti.Hash.Slots.{excess, total-set, excess-set, Placed-set}
use crypti.Hash.Rehash.{Filled, own_slot, view-set}
use crypti.Hash.Map.{IsValid, meaning, meaning-view, Updated}

module _ {K V : Type 0} (keys : Keys K) where
  open keys use {hash_cb, cmpl_cb, cmpl_iff}

  -- A slot that is replaced by one with the same keys or fewer.
  set-Filled :
      (t : Table K V) (k : K) (chain : Chain K V) (collision : ℕ)
      → IsValid keys t
      → ((size i : ℕ)
          → AllKeys (λ x. hash_cb x % size ≡ i) (get_or t.arr (hash_cb k % t.size) [])
          → AllKeys (λ x. hash_cb x % size ≡ i) chain)
      → IsDistinct keys chain
      → excess (set t.arr (hash_cb k % t.size) chain) ≡ collision
      → Filled keys t.size (set t.arr (hash_cb k % t.size) chain) collision
  set-Filled t k chain collision w hashed d e =
      let n = hash_cb k % t.size in
      let (inside, h, _) = own_slot keys t.size t.arr t.collision k w.filled in
      record {
        positive = w.filled.positive;
        slots = length-set t.arr n chain ∙ w.filled.slots;
        placed =
            (let z : 0 + n ≡ n = omega arith in
              Placed-set keys t.size 0 n t.arr chain w.filled.placed (rw z (hashed t.size n h)) d);
        counted = e;
      }

  -- Hash_table_remove on a valid table gives FALSE and the same table for a key that is not there;
  -- for one that is there it gives TRUE and a valid table without that key, with all others as
  -- they were and the count one less.
  pub remove-refines :
      (t : Table K V) (k : K)
      → IsValid keys t
      → (meaning keys t k ≡ none → remove keys t k ≡ (false, t))
        × (meaning keys t k ≢ none
            → ((remove keys t k).0 ≡ true)
              × Updated keys t k none (remove keys t k).1
              × ((remove keys t k).1.count + 1 ≡ t.count))
  unfolding remove slot
  remove-refines t k w =
      let n = hash_cb k % t.size in
      let chain = get_or t.arr n [] in
      let (inside, h, d) = own_slot keys t.size t.arr t.collision k w.filled in
      elim (unlink_cases keys chain k d) [
        | inl (p, q) ↦
            (λ absent. rw (p, remove) refl, λ present. absurd (present (meaning-view keys t k ∙ q)))
        | inr (r, v, p, q, u) ↦ (
          λ absent. absurd (cc (absent, q, meaning-view keys t k)),
          λ present.
              let x = excess-set t.arr n r inside in
              let y = total-set t.arr n r inside in
              let l = lone_lem chain in
              rw (p, remove)
                (
                  refl,
                  record {
                    valid = record {
                      filled =
                          set-Filled t k r (if lone chain then t.collision else t.collision - 1) w
                            u.same_keys u.distinct (ground (arith, x, l, u.size, w.filled.counted));
                      counted = omega (arith, y, u.size, w.counted);
                    };
                    means = λ j.
                        meaning-view keys _ j
                        ∙ view-set keys t.size t.arr t.collision k r none w.filled u.others j
                        ∙ ap (λ o. if cmpl_cb k j then none else o) (sym (meaning-view keys t j));
                  },
                  omega (arith, y, u.size, w.counted),
                ),
        )
      ]

  -- Hash_table_replace on a valid table gives FALSE and the same table for a key that is not
  -- there; for one that is there it gives TRUE and a valid table in which that key has the new
  -- value, with all others and the count as they were.
  pub replace-refines :
      (t : Table K V) (k : K) (v : V)
      → IsValid keys t
      → (meaning keys t k ≡ none → replace keys t k v ≡ (false, t))
        × (meaning keys t k ≢ none
            → ((replace keys t k v).0 ≡ true)
              × Updated keys t k (some v) (replace keys t k v).1
              × ((replace keys t k v).1.count ≡ t.count))
  unfolding replace slot
  replace-refines t k v w =
      let n = hash_cb k % t.size in
      let chain = get_or t.arr n [] in
      let (inside, h, d) = own_slot keys t.size t.arr t.collision k w.filled in
      elim (overwrite_cases keys chain k v d) [
        | inl (p, q) ↦ (
          λ absent. rw (p, replace) refl,
          λ present. absurd (present (meaning-view keys t k ∙ q)),
        )
        | inr (r, x, p, q, u) ↦ (
          λ absent. absurd (cc (absent, q, meaning-view keys t k)),
          λ present.
              let y = excess-set t.arr n r inside in
              let z = total-set t.arr n r inside in
              rw (p, replace)
                (
                  refl,
                  record {
                    valid = record {
                      filled =
                          set-Filled t k r t.collision w u.same_keys u.distinct
                            (omega (arith, y, u.size, w.filled.counted));
                      counted = omega (arith, z, u.size, w.counted);
                    };
                    means = λ j.
                        meaning-view keys _ j
                        ∙ view-set keys t.size t.arr t.collision k r (some v) w.filled u.others j
                        ∙ ap (λ o. if cmpl_cb k j then some v else o) (sym (meaning-view keys t j));
                  },
                  refl,
                ),
        )
      ]
