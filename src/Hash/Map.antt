-- ===== src/Hash/Map.antt =====
-- src/hash.c: the table as a finite map. What is looked up after each operation is what the map
-- would give.
use mathlib.Core.List.{flatten}
use crypti.Base.{
  ℕ, ◌+◌, ◌*◌, ◌%◌, ◌≤◌, ◌<◌, ◌≡◌, refl, sym, ap, ◌∙◌, ◌≢◌, inl, inr, Bool, true, false, not, ◌&&◌,
  Option, none, some, [], ◌∷◌, arith, ◌==◌, if◌then◌else◌, Bool-cases, Option-cases, get_or,
  replicate, length-replicate,
}
use crypti.Primes.{prime_nearest, prime_nearest-pos, prime_nearest-le}
use crypti.Hash.{
  Keys, Ret, Chain, Table, returns, crowded, find, slot, answer, lookup, insert_at, insert,
  insert_unique, grow_table, new, clean, collides,
}
use crypti.Hash.Slots.{
  total, total-replicate, length-flatten, excess-replicate, get_or-replicate, Placed-replicate,
  find-flatten, flatten-IsDistinct, or_else,
}
use crypti.Hash.Rehash.{
  Filled, view, own_slot, place_lem, place_all, PlacingAll, place_all_lem, rehash_lem,
}

module _ {K V : Type 0} (keys : Keys K) where
  open keys use {hash_cb, cmpl_cb, cmpl_iff}

  -- Each entry stands in the slot of its key, no key twice, and both counts are right.
  pub record IsValid (t : Table K V) : Type 0 where
    pub filled : Filled keys t.size t.arr t.collision
    pub counted : total t.arr ≡ t.count

  -- The map that a table stands for.
  abbrev pub meaning : Table K V → K → Option V
  meaning t key = (lookup keys t key).1

  answer-find : (c : Chain K V) (j : K) → (answer keys j c).1 ≡ find keys j c
  unfolding answer
  answer-find [] j = unfold find in refl
  answer-find (x ∷ c) j = elim (Option-cases (find keys j (x ∷ c))) [
    | inl e ↦ rw (e, answer) refl
    | inr (v, e) ↦ rw (e, answer) refl
  ]

  pub meaning-view : (t : Table K V) (j : K) → meaning t j ≡ view keys t.size t.arr j
  unfolding lookup slot
  meaning-view t j = answer-find (get_or t.arr (hash_cb j % t.size) []) j

  -- A table in which one key has a new value, or none, and the others have theirs.
  pub record Updated (t : Table K V) (k : K) (o : Option V) (t' : Table K V) : Type 0 where
    pub valid : IsValid t'
    pub means : (j : K) → meaning t' j ≡ (if cmpl_cb k j then o else meaning t j)

  insert_at_lem :
      (malloc_ok : ℕ → Bool) (t : Table K V) (k : K) (v : V)
      → ((n : ℕ) → malloc_ok n ≡ true)
      → IsValid t
      → meaning t k ≡ none
      → (t' : Table K V) × (insert_at keys malloc_ok t k v ≡ returns Ret.ret_ok t')
        × Updated t k (some v) t'
        × (t'.count ≡ t.count + 1)
  unfolding insert_at slot
  insert_at_lem malloc_ok t k v granted w absent =
      let chain = get_or t.arr (hash_cb k % t.size) [] in
      let p =
        place_lem keys t.size t.arr t.collision k v w.filled (sym (meaning-view t k) ∙ absent) in
      let go : ((collides chain == 1) && not (malloc_ok 24)) ≡ false = ground (arith, granted 24) in
      (
        _,
        rw go refl,
        record {
          valid = record { filled = p.filled; counted = omega (arith, p.more, w.counted) };
          means = λ j.
              meaning-view _ j
              ∙ p.views j
              ∙ ap (λ o. if cmpl_cb k j then some v else o) (sym (meaning-view t j));
        },
        refl,
      )

  or_none : (size : ℕ) (o p : Option V) → p ≡ none → or_else {K = K} keys size o p ≡ o
  or_none size none p e = e
  or_none size (some v) p e = refl

  -- The empty slots that a rehash and a new table start with.
  Filled-replicate : (n : ℕ) → 0 < n → Filled {V = V} keys n (replicate n []) 0
  Filled-replicate n p = record {
    positive = p;
    slots = length-replicate n [];
    placed = Placed-replicate V keys n 0 n;
    counted = excess-replicate K V n;
  }

  view-replicate : (n : ℕ) (j : K) → view {V = V} keys n (replicate n []) j ≡ none
  view-replicate n j =
      ap (find keys j) (get_or-replicate {V = V} n (hash_cb j % n)) ∙ (unfold find in refl)

  rehashed :
      (t : Table K V) (n : ℕ)
      → 0 < n
      → IsValid t
      → PlacingAll keys n
          (flatten t.arr)
          (replicate n [])
          (place_all keys n (flatten t.arr) (replicate n [], 0))
  rehashed t n p w =
      place_all_lem keys n (flatten t.arr) (replicate n []) 0 (Filled-replicate n p)
        (flatten-IsDistinct keys t.size 0 t.arr w.filled.placed) λ j _. view-replicate n j

  -- A rehash changes the slots and not the map.
  grow_lem :
      (malloc_ok : ℕ → Bool) (t : Table K V)
      → ((n : ℕ) → malloc_ok n ≡ true)
      → IsValid t
      → (t' : Table K V) × (grow_table keys malloc_ok t ≡ returns Ret.ret_ok t')
        × IsValid t'
        × ((j : K) → meaning t' j ≡ meaning t j)
        × (t'.count ≡ t.count)
  unfolding grow_table
  grow_lem malloc_ok t granted w =
      let n = prime_nearest (t.size + 1) in
      let q = rehashed t n (prime_nearest-pos (t.size + 1)) w in
      let st = place_all keys n (flatten t.arr) (replicate n [], 0) in
      elim (Bool-cases (crowded t)) [
        | inr e ↦ (t, rw e refl, w, λ j. refl, refl)
        | inl e ↦ (
          record t { arr = st.0; size = n; collision = st.1 },
          rw (e, granted (n * 24), rehash_lem keys n malloc_ok granted t.arr (replicate n [], 0))
              refl,
          record {
            filled = q.filled;
            counted = omega (arith, q.more, length-flatten t.arr, total-replicate K V n, w.counted);
          },
          λ j.
              let (inside, _, _) = own_slot keys t.size t.arr t.collision j w.filled in
              let e : hash_cb j % t.size ≡ 0 + hash_cb j % t.size = omega arith in
              meaning-view _ j
              ∙ q.views j
              ∙ or_none n (find keys j (flatten t.arr)) _ (view-replicate n j)
              ∙ find-flatten keys t.size 0 (hash_cb j % t.size) t.arr j w.filled.placed inside e
              ∙ sym (meaning-view t j),
          refl,
        )
      ]

  -- `hash_table_insert` of a key that is not there.
  pub insert-Updated :
      (malloc_ok : ℕ → Bool) (t : Table K V) (k : K) (v : V)
      → ((n : ℕ) → malloc_ok n ≡ true)
      → IsValid t
      → meaning t k ≡ none
      → (t' : Table K V) × (insert keys malloc_ok t k v ≡ returns Ret.ret_ok t')
        × Updated t k (some v) t'
        × (t'.count ≡ t.count + 1)
  unfolding insert
  insert-Updated malloc_ok t k v granted w absent =
      let (t1, e, w1, same, c1) = grow_lem malloc_ok t granted w in
      let (t2, e2, u, c2) = insert_at_lem malloc_ok t1 k v granted w1 (same k ∙ absent) in
      (
        t2,
        rw (e, insert) e2,
        record {
          valid = u.valid;
          means = λ j. u.means j ∙ ap (λ o. if cmpl_cb k j then some v else o) (same j);
        },
        c2 ∙ ap (λ n. n + 1) c1,
      )

  -- With an allocator that never runs out, hash_table_insert_unique on a valid table returns
  -- ret_ok for a key that is not there, with a valid table in which that key has the value, all
  -- others what they had and the count is one more, also where the table grows and is rehashed
  -- first; for a key that is there it returns ret_entry_exists and changes nothing.
  pub insert_unique-refines :
      (malloc_ok : ℕ → Bool) (t : Table K V) (k : K) (v : V)
      → ((n : ℕ) → malloc_ok n ≡ true)
      → IsValid t
      → (meaning t k ≡ none
          → (t' : Table K V) × (insert_unique keys malloc_ok t k v ≡ returns Ret.ret_ok t')
            × Updated t k (some v) t'
            × (t'.count ≡ t.count + 1))
        × (meaning t k ≢ none → insert_unique keys malloc_ok t k v ≡ returns Ret.ret_entry_exists t)
  unfolding insert_unique
  insert_unique-refines malloc_ok t k v granted w = (
    λ absent.
        let gone : find keys k (slot keys t k) ≡ none =
          (unfold slot in (sym (meaning-view t k) ∙ absent)) in
        rw (gone, insert_unique) (insert-Updated malloc_ok t k v granted w absent),
    λ present. elim (Option-cases (find keys k (slot keys t k))) [
      | inl e ↦ absurd (present (meaning-view t k ∙ (unfold slot in e)))
      | inr (x, e) ↦ rw (e, insert_unique) refl
    ],
  )

  pub new_lem :
      (malloc_ok : ℕ → Bool) (hint_size : ℕ)
      → ((n : ℕ) → malloc_ok n ≡ true)
      → (t : Table K V) × (new malloc_ok hint_size ≡ some t)
        × IsValid t
        × ((j : K) → meaning t j ≡ none)
        × (hint_size ≤ 13845163 → hint_size ≤ t.size)
        × (t.count ≡ 0)
  unfolding new
  new_lem malloc_ok hint_size granted =
      let size = if hint_size == 0 then 31 else prime_nearest hint_size in
      let pos : 0 < size = ground (arith, prime_nearest-pos hint_size) in
      (
        record { arr = replicate size []; size = size; count = 0; collision = 0 },
        rw (granted 48, granted (size * 24)) refl,
        record { filled = Filled-replicate size pos; counted = total-replicate K V size },
        λ j. meaning-view _ j ∙ view-replicate size j,
        λ h. ground (arith, prime_nearest-le hint_size h),
        refl,
      )

  -- With an allocator that never runs out hash_table_new gives a valid table without keys, with at
  -- least the size that is asked for up to the last number of the table of primes;
  -- hash_table_clean of a valid table gives a valid one without keys.
  pub new-clean_lem :
      (malloc_ok : ℕ → Bool) (hint_size : ℕ) (old : Table K V)
      → ((n : ℕ) → malloc_ok n ≡ true)
      → IsValid old
      → ((t : Table K V) × (new malloc_ok hint_size ≡ some t)
          × IsValid t
          × ((j : K) → meaning t j ≡ none)
          × (hint_size ≤ 13845163 → hint_size ≤ t.size)
          × (t.count ≡ 0))
        × IsValid (clean old)
        × ((j : K) → meaning (clean old) j ≡ none)
  unfolding clean
  new-clean_lem malloc_ok hint_size old granted w = (
    new_lem malloc_ok hint_size granted,
    record {
      filled = Filled-replicate old.size w.filled.positive;
      counted = total-replicate K V old.size;
    },
    λ j. meaning-view _ j ∙ view-replicate old.size j,
  )
