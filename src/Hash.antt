-- ===== src/Hash.antt =====
-- src/hash.c: a table of buckets with chaining. A slot of `arr` is the list of its entries, the
-- bucket in the array first and the chain behind `next` after it; a slot whose key is null is the
-- empty list. Null arguments are left out.
pub mod Chain
pub mod Slots
pub mod Rehash
pub mod Map
pub mod Removal
pub mod Lookup
pub mod Iterate
mod Tests
use crypti.Base.{
  ℕ, zero, suc, ◌+◌, ◌-◌, ◌*◌, ◌%◌, ◌≡◌, ◌↔◌, Bool, true, false, not, ◌&&◌, Option, none, some,
  List, [], ◌∷◌, ltb, leb, ◌==◌, if◌then◌else◌, get_or, set, replicate,
}
use mathlib.Core.Option.{map as map_option}
use crypti.Primes.{prime_nearest}

-- `hash_cb` and whether `cmpl_cb` gives 0. A key is what its pointer points to.
pub record Keys (K : Type 0) : Type 0 where
  pub hash_cb : K → ℕ
  pub cmpl_cb : K → K → Bool
  pub cmpl_iff : (a b : K) → (cmpl_cb a b ≡ true) ↔ (a ≡ b)

-- `ret_t`, as far as the table returns it.
pub data Ret : Type 0 where
  ret_ok ret_err ret_not_found ret_entry_exists ret_out_of_memory : Ret

abbrev pub Chain : Type 0 → Type 0 → Type 0
Chain K V = List (K × V)

-- `struct hash_table`
pub record Table (K V : Type 0) : Type 0 where
  pub arr : List (List (K × V))
  pub size : ℕ
  pub count : ℕ
  pub collision : ℕ

-- What an insertion ends with: a return with the table as it is left, or a return of
-- `ret_out_of_memory` in the middle of a rehash, with a part of the buckets moved.
pub data Outcome (T : Type 0) : Type 0 where
  returns : Ret → T → Outcome T
  broken : Outcome T

abbrev pub hash_size : ℕ
hash_size = 31

-- `sizeof(struct hash_bucket)`
abbrev pub bucket_size : ℕ
bucket_size = 24

-- `COLLISION_RATE(t) <= 2.0`, where the quotient of 0 and 0 is no number and that of another
-- number and 0 is infinite. Both counts are below 2 ^ 23, so the quotient of floats decides it.
pub crowded : {K V : Type 0} → Table K V → Bool
crowded t = ltb 0 t.collision && leb t.count (2 * t.collision)

module _ {K V : Type 0} where
  -- A new bucket takes a slot that is empty, or stands behind the first.
  pub place_chain : Chain K V → K → V → Chain K V
  place_chain [] key item = (key, item) ∷ []
  place_chain (head ∷ next) key item = head ∷ (key, item) ∷ next

  -- The collisions that it adds.
  pub collides : Chain K V → ℕ
  collides [] = 0
  collides (head ∷ next) = 1

  -- Whether `hash_table_remove` counts a collision less: not where the only bucket goes.
  pub lone : Chain K V → Bool
  lone [] = true
  lone (head ∷ []) = true
  lone (head ∷ second ∷ rest) = false

module _ {K V : Type 0} (keys : Keys K) where
  open keys use {hash_cb, cmpl_cb}

  -- The loop that looks a key up in a slot.
  unfoldable pub find : K → Chain K V → Option V
  find key [] = none
  find key ((k, v) ∷ rest) = if cmpl_cb k key then some v else find key rest

  -- `table->arr[hash_cb(key) % size]`
  unfoldable pub slot : Table K V → K → Chain K V
  slot t key = get_or t.arr (hash_cb key % t.size) []

  -- `hash_table_lookup`; `res_data` is written where the key is found.
  unfoldable pub answer : K → Chain K V → Ret × Option V
  answer key [] = (Ret.ret_not_found, none)
  answer key (head ∷ next) = elim (find key (head ∷ next)) [
    | none ↦ (Ret.ret_err, none)
    | some v ↦ (Ret.ret_ok, some v)
  ]

  unfoldable pub lookup : Table K V → K → Ret × Option V
  lookup t key = answer key (slot t key)

  -- The rest of a slot's chain in `hash_table_remove`; `none` where the key is not there.
  pub unlink : K → Chain K V → Option (Chain K V)
  unlink key [] = none
  unlink key ((k, v) ∷ rest) =
      if cmpl_cb k key then some rest else map_option (λ r. (k, v) ∷ r) (unlink key rest)

  -- `hash_table_remove`: the first bucket is filled from the second, or a later one is cut out.
  pub remove : Table K V → K → Bool × Table K V
  remove t key = elim (unlink key (slot t key)) [
    | none ↦ (false, t)
    | some rest ↦ (
      true,
      record t {
        arr = set t.arr (hash_cb key % t.size) rest;
        collision = if lone (slot t key) then t.collision else t.collision - 1;
        count = t.count - 1;
      },
    )
  ]

  -- The loop of `hash_table_replace` over a slot.
  pub overwrite : K → V → Chain K V → Option (Chain K V)
  overwrite key item [] = none
  overwrite key item ((k, v) ∷ rest) =
      if cmpl_cb k key
      then some ((k, item) ∷ rest)
      else map_option (λ r. (k, v) ∷ r) (overwrite key item rest)

  -- `hash_table_replace`
  pub replace : Table K V → K → V → Bool × Table K V
  replace t key item = elim (overwrite key item (slot t key)) [
    | none ↦ (false, t)
    | some chain ↦ (true, record t { arr = set t.arr (hash_cb key % t.size) chain })
  ]

  module _ (malloc_ok : ℕ → Bool) where
    -- The inner loop of the rehash; `first` holds for the bucket in the old array, which is copied
    -- to a new one where its new slot is taken.
    pub rehash_chain : Bool → ℕ → Chain K V → List (Chain K V) × ℕ → Option (List (Chain K V) × ℕ)
    rehash_chain first new_size [] st = some st
    rehash_chain first new_size ((k, v) ∷ next) (arr, collision) =
        let new_idx = hash_cb k % new_size in
        let taken = get_or arr new_idx [] in
        if collides taken == 1 && (first && not (malloc_ok bucket_size))
        then none
        else rehash_chain false new_size next
            (set arr new_idx (place_chain taken k v), collision + collides taken)

    -- The outer loop.
    pub rehash : ℕ → List (Chain K V) → List (Chain K V) × ℕ → Option (List (Chain K V) × ℕ)
    rehash new_size [] st = some st
    rehash new_size (chain ∷ chains) st = elim (rehash_chain true new_size chain st) [
      | none ↦ none
      | some st' ↦ rehash new_size chains st'
    ]

    -- The first half of `_hash_table_insert`.
    pub grow_table : Table K V → Outcome (Table K V)
    grow_table t =
        let new_size = prime_nearest (t.size + 1) in
        if crowded t
        then (if malloc_ok (new_size * bucket_size)
            then elim (rehash new_size t.arr (replicate new_size [], 0)) [
              | none ↦ broken
              | some (arr, collision) ↦
                  returns Ret.ret_ok
                    (record t { arr = arr; size = new_size; collision = collision })
            ]
            else returns Ret.ret_out_of_memory t)
        else returns Ret.ret_ok t

    -- The second half.
    pub insert_at : Table K V → K → V → Outcome (Table K V)
    insert_at t key item =
        let chain = slot t key in
        if collides chain == 1 && not (malloc_ok bucket_size)
        then returns Ret.ret_out_of_memory t
        else returns Ret.ret_ok (record t {
          arr = set t.arr (hash_cb key % t.size) (place_chain chain key item);
          collision = t.collision + collides chain;
          count = t.count + 1;
        })

    -- `_hash_table_insert`, which is `hash_table_insert` where no argument is null.
    pub insert : Table K V → K → V → Outcome (Table K V)
    insert t key item = elim (grow_table t) [
      | broken ↦ broken
      | returns Ret.ret_ok t' ↦ insert_at t' key item
      | returns r t' ↦ returns r t'
    ]

    -- `hash_table_insert_unique`
    pub insert_unique : Table K V → K → V → Outcome (Table K V)
    insert_unique t key item = elim (find key (slot t key)) [
      | some v ↦ returns Ret.ret_entry_exists t
      | none ↦ insert t key item
    ]

module _ {K V : Type 0} where
  -- `hash_table_new`; `none` is a null pointer. The table itself has 48 bytes.
  pub new : (ℕ → Bool) → ℕ → Option (Table K V)
  new malloc_ok hint_size =
      let size = if hint_size == 0 then hash_size else prime_nearest hint_size in
      if malloc_ok 48 && malloc_ok (size * bucket_size)
      then some (record { arr = replicate size []; size = size; count = 0; collision = 0 })
      else none

  -- `hash_table_clean`
  pub clean : Table K V → Table K V
  clean t = record t { arr = replicate t.size []; count = 0; collision = 0 }

-- `struct hash_table_iter`; `bucket` is the chain from that bucket on, empty for a null pointer.
pub record Iter (K V : Type 0) : Type 0 where
  pub table : Table K V
  pub bucket : List (K × V)
  pub idx : ℕ

module _ {K V : Type 0} where
  -- `hash_table_iterate_init`
  pub iterate_init : Table K V → Iter K V
  iterate_init t = record { table = t; bucket = []; idx = 0 }

  -- The loop that skips empty slots, with `n` of them left.
  pub skip : ℕ → List (Chain K V) → ℕ → Chain K V × ℕ
  skip zero arr idx = ([], idx)
  skip (suc n) arr idx = elim (get_or arr idx []) [
    | [] ↦ skip n arr (idx + 1)
    | head ∷ next ↦ (head ∷ next, idx)
  ]

  -- The bucket that `hash_table_iterate` is to give, and the index of its slot.
  pub seek : Table K V → Chain K V → ℕ → Chain K V × ℕ
  seek t [] idx = skip (t.size - idx) t.arr idx
  seek t (head ∷ next) idx = (head ∷ next, idx)

  -- The entry that is given, and the step to the next bucket.
  pub give : Iter K V → Chain K V → ℕ → Option (K × V) × Iter K V
  give it [] idx = (none, record it { bucket = []; idx = idx })
  give it (head ∷ []) idx = (some head, record it { bucket = []; idx = idx + 1 })
  give it (head ∷ second ∷ rest) idx = (some head, record it { bucket = second ∷ rest; idx = idx })

  -- `hash_table_iterate`; `none` is `FALSE`.
  pub iterate : Iter K V → Option (K × V) × Iter K V
  iterate it = let (bucket, idx) = seek it.table it.bucket it.idx in give it bucket idx

-- What the callers make of a lookup: a null pointer unless it returns `ret_ok`.
unfoldable pub found {ℓ} : {V : Type ℓ} → Ret × Option V → Option V
found (Ret.ret_ok, o) = o
found (Ret.ret_err, o) = none
found (Ret.ret_not_found, o) = none
found (Ret.ret_entry_exists, o) = none
found (Ret.ret_out_of_memory, o) = none
