-- ===== src/Stack/Order.antt =====
-- src/stack.c: last in, first out, and what happens where the stack is full.
use crypti.Run.{ok, die, ◌>>=◌, Returns, Returns-bind, Returns-map}
use crypti.Base.{
  ℕ, zero, suc, ◌+◌, ◌-◌, ◌≤◌, ◌<◌, ◌≡◌, refl, sym, ap, ◌∙◌, inl, inr, false, some, List, [], ◌∷◌,
  ◌++◌, append-nil, append_assoc, arith, ltb, ◌==◌, lt→ltb, ltb-false, Bool-cases, length,
  get_elem?, get_or, set, take, drop, length-set,
}
use crypti.Stack.{
  Stack, check, read_elem, write_elem, push, push_loop, push_n, pop, destruct, flush,
}

-- The memory has the size that is recorded, and one place stays free.
pub record IsValid (s : Stack) : Type 0 where
  pub memory : length s.arr ≡ s.sz
  pub below : s.cur < s.sz

abbrev pub NonNull : List ℕ → Type 0
NonNull [] = Unit
NonNull (x ∷ xs) = (0 < x) × NonNull xs

-- What the stack holds, the top last.
abbrev pub contents : Stack → List ℕ
contents s = take s.cur s.arr

-- Elements inside of the memory.
get_elem?-lt : (xs : List ℕ) (i : ℕ) → i < length xs → get_elem? xs i ≡ some (get_or xs i 0)
get_elem?-lt [] i h = absurd (omega arith)
get_elem?-lt (x ∷ xs) zero h = refl
get_elem?-lt (x ∷ xs) (suc i) h = get_elem?-lt xs i (omega arith)

read-ok : (arr : List ℕ) (i : ℕ) → i < length arr → read_elem arr i ≡ ok (get_or arr i 0)
unfolding read_elem
read-ok arr i h = rw (get_elem?-lt arr i h, read_elem) refl

write-ok :
    (arr : List ℕ) (i item : ℕ) → i < length arr → write_elem arr i item ≡ ok (set arr i item)
unfolding write_elem
write-ok arr i item h = rw (get_elem?-lt arr i h, write_elem) refl

take-suc-set :
    (xs : List ℕ) (i item : ℕ)
    → i < length xs
    → (take (suc i) (set xs i item) ≡ take i xs ++ item ∷ [])
      × (take i (set xs i item) ≡ take i xs)
      × (get_or (set xs i item) i 0 ≡ item)
take-suc-set [] i item h = absurd (omega arith)
take-suc-set (x ∷ xs) zero item h = (refl, refl, refl)
take-suc-set (x ∷ xs) (suc i) item h =
    let (a, b, c) = take-suc-set xs i item (omega arith) in
    (ap (λ t. x ∷ t) a, ap (λ t. x ∷ t) b, c)

-- What a push leaves.
pub record Pushed (s : Stack) (item : List ℕ) (s' : Stack) : Type 0 where
  pub valid : IsValid s'
  pub holds : contents s' ≡ contents s ++ item
  pub top : s'.cur ≡ s.cur + length item
  pub size : s'.sz ≡ s.sz

-- stack_push on a valid stack puts an address that is not null on top where two places are free;
-- it ends the process where one is, and at a null pointer.
pub push_lem :
    (s : Stack) (item : ℕ)
    → IsValid s
    → 0 < item
    → (s.cur + 1 < s.sz → Returns (push s item) (Pushed s (item ∷ [])))
      × (s.cur + 1 ≡ s.sz → push s item ≡ die)
      × (push s 0 ≡ die)
unfolding push check
push_lem s item v p =
    let inside : s.cur < length s.arr = omega (arith, v.memory, v.below) in
    let present : (item == 0) ≡ false = ground arith in
    (
      λ h.
          let (a, b, c) = take-suc-set s.arr s.cur item inside in
          let apart : (s.cur + 1 == s.sz) ≡ false = ground arith in
          let e : s.cur + 1 ≡ suc s.cur = omega arith in
          rw (lt→ltb (s.cur + 1) s.sz h, present, apart, write-ok s.arr s.cur item inside)
            (record {
              valid = record { memory = length-set s.arr s.cur item ∙ v.memory; below = h };
              holds = rw e a;
              top = omega arith;
              size = refl;
            }),
      λ h. rw (ltb-false (s.cur + 1) s.sz (omega arith)) refl,
      elim (Bool-cases (ltb (s.cur + 1) s.sz)) [ inl t ↦ rw t refl | inr f ↦ rw f refl ],
    )

push_loop_lem :
    (s : Stack) (item : List ℕ)
    → IsValid s
    → NonNull item
    → s.cur + length item < s.sz
    → Returns (push_loop s item) (Pushed s item)
unfolding push_loop
push_loop_lem s [] v p h = record {
  valid = v;
  holds = sym (append-nil _);
  top = omega arith;
  size = refl;
}
push_loop_lem s (x ∷ xs) v p h =
    Returns-bind (Pushed s (x ∷ [])) (Pushed s (x ∷ xs)) (push s x) (λ s'. push_loop s' xs)
      ((push_lem s x v p.0).0 (omega arith))
      λ s' q.
        Returns-map (Pushed s' xs) (Pushed s (x ∷ xs)) (push_loop s' xs)
          (push_loop_lem s' xs q.valid p.1 (omega (arith, q.top, q.size)))
          λ t r. record {
            valid = r.valid;
            holds = r.holds ∙ ap (λ c. c ++ xs) q.holds ∙ append_assoc (contents s) (x ∷ []) xs;
            top = omega (arith, r.top, q.top);
            size = r.size ∙ q.size;
          }

-- stack_push_n puts addresses that are not null on top in order, on a valid stack where a place
-- stays free behind them and two are free before.
pub push_n_lem :
    (s : Stack) (items : List ℕ)
    → IsValid s
    → NonNull items
    → s.cur + 1 < s.sz
    → s.cur + length items < s.sz
    → Returns (push_n s items) (Pushed s items)
unfolding push_n check
push_n_lem s items v p two h = rw (lt→ltb (s.cur + 1) s.sz two) (push_loop_lem s items v p h)

-- stack_push of an address that is not null and then stack_pop give the address back and leave
-- what was there, on a valid stack where three places are free.
pub pop-push :
    (s : Stack) (item : ℕ)
    → IsValid s
    → 0 < item
    → s.cur + 2 < s.sz
    → Returns (push s item >>= pop) λ r. (r.0 ≡ item) × IsValid r.1 × (contents r.1 ≡ contents s)
unfolding push pop check
pop-push s item v p h =
    let inside : s.cur < length s.arr = omega (arith, v.memory, v.below) in
    let present : (item == 0) ≡ false = ground arith in
    let apart : (s.cur + 1 == s.sz) ≡ false = ground arith in
    let more : (s.cur + 1 == 0) ≡ false = ground arith in
    let back : s.cur + 1 - 1 ≡ s.cur = omega arith in
    let len = length-set s.arr s.cur item in
    let (a, b, c) = take-suc-set s.arr s.cur item inside in
    rw
      (
        lt→ltb (s.cur + 1) s.sz (omega arith),
        present,
        apart,
        write-ok s.arr s.cur item inside,
        lt→ltb (s.cur + 1 + 1) s.sz (omega arith),
        more,
        back,
        read-ok (set s.arr s.cur item) s.cur (omega (arith, len)),
      )
      (c, record { memory = len ∙ v.memory; below = v.below }, b)

full_lem :
    (s : Stack) (item : ℕ)
    → s.cur + 1 ≡ s.sz
    → (pop s ≡ die) × (push s item ≡ die) × (flush s ≡ die)
unfolding pop push flush check
full_lem s item h =
    let full = ltb-false (s.cur + 1) s.sz (omega arith) in rw full (refl, refl, refl)

-- stack_push_n of one or more addresses that are not null, on a valid stack where exactly one
-- place stays free behind them, returns a valid stack that holds what it held and then these
-- addresses, yet stack_pop, stack_flush and a further stack_push of that stack all end the
-- process.
pub push_n_full :
    (s : Stack) (items : List ℕ) (next : ℕ)
    → IsValid s
    → NonNull items
    → 0 < length items
    → s.cur + length items + 1 ≡ s.sz
    → Returns
        (push_n s items)
        (λ t. Pushed s items t × (pop t ≡ die) × (push t next ≡ die) × (flush t ≡ die))
push_n_full s items next v p some_item h =
    Returns-map (Pushed s items) _ (push_n s items)
      (push_n_lem s items v p (omega arith) (omega arith))
      λ t q. let (a, b, c) = full_lem t next (omega (arith, q.top, q.size)) in (q, a, b, c)

destruct_lem :
    (k i : ℕ) (arr : List ℕ) → i + k ≤ length arr → destruct k i arr ≡ ok (take k (drop i arr))
unfolding destruct
destruct_lem zero i arr h = refl
destruct_lem (suc k) i arr h =
    let e : i + 1 ≡ suc i = omega arith in
    rw (read-ok arr i (omega arith), destruct_lem k (i + 1) arr (omega arith), e)
      (ap ok (head_first arr i (omega arith)))
  where
    head_first :
        (xs : List ℕ) (n : ℕ)
        → n < length xs
        → get_or xs n 0 ∷ take k (drop (suc n) xs) ≡ take (suc k) (drop n xs)
    head_first [] n q = absurd (omega arith)
    head_first (x ∷ xs) zero q = refl
    head_first (x ∷ xs) (suc n) q = head_first xs n (omega arith)

-- stack_flush on a valid stack with two places free calls the destructor once for each element,
-- from the bottom to the top, and leaves an empty stack.
pub flush_lem :
    (s : Stack)
    → IsValid s
    → s.cur + 1 < s.sz
    → Returns (flush s) λ r. (r.0 ≡ contents s) × IsValid r.1 × (contents r.1 ≡ [])
unfolding flush check
flush_lem s v h =
    rw (lt→ltb (s.cur + 1) s.sz h, destruct_lem s.cur 0 s.arr (omega (arith, v.memory, v.below)))
      (refl, record { memory = v.memory; below = omega arith }, refl)
