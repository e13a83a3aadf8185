-- ===== src/LinkedList/Sorting.antt =====
-- src/list.c: list_sort keeps to its stack, sorts, and loses nothing. The sizes of the pieces on
-- the stack are powers of two that grow towards the bottom, as the ones of a binary number.
use mathlib.Core.List.{Perm, perm_middle, perm_append_comm}
use mathlib.Core.List.Perm
use native.Mathlib.Nat.{pow-suc, one-le-pow, pow-le-pow_right}
use crypti.Run.{ok}
use crypti.Base.{
  ℕ, zero, suc, ◌+◌, ◌-◌, ◌*◌, ◌/◌, ◌^◌, ◌≤◌, ◌<◌, ◌≡◌, refl, sym, ap, ◌∙◌, inl, inr, Bool, true,
  false, List, [], ◌∷◌, ◌++◌, append-nil, append_assoc, arith, ltb, ◌==◌, ltb→lt, ==_iff,
  Bool-cases, length,
}
use crypti.LinkedList.{
  StackItem, lb, lb_loop, list_pass, collapse, feed, join_all, bottom, list_sort,
}
use crypti.LinkedList.Merging.{IsSorted, Good, join_lem}

-- The number of times that `lb` halves is the exponent of the largest power of two.
lb_loop-le : (fuel a l : ℕ) → a ≤ fuel → 2 ^ l ≤ a → l ≤ lb_loop fuel a
unfolding lb_loop
lb_loop-le zero a l h p = absurd (omega (arith, one-le-pow l 2))
lb_loop-le (suc fuel) a zero h p = omega arith
lb_loop-le (suc fuel) a (suc l) h p =
    let twice = pow-suc 2 l in
    let positive = one-le-pow l 2 in
    let e : ltb 1 a ≡ true = ground (arith, twice, positive) in
    let rest = lb_loop-le fuel (a / 2) l (omega (arith, twice, positive)) (omega (arith, twice)) in
    rw (e, lb_loop) (omega arith)

pow_injective : (d e : ℕ) → d ≤ e → 2 ^ d ≡ 2 ^ e → d ≡ e
pow_injective d e le same = elim (Bool-cases (ltb d e)) [
  | inl lt ↦
      let more = pow-le-pow_right {n = 2} (omega arith) {i = suc d} {j = e} (ltb→lt d e lt) in
      absurd (omega (arith, more, pow-suc 2 d, one-le-pow d 2))
  | inr ge ↦ ground arith
]

apart_lem : (d k m n : ℕ) → d ≤ k → m ≡ 2 ^ d → n ≡ 2 ^ k → (m == n) ≡ false → suc d ≤ k
apart_lem d k m n le em en ne = elim (Bool-cases (ltb d k)) [
  | inl lt ↦ ltb→lt d k lt
  | inr ge ↦
      let same : d ≡ k = ground arith in
      let equal : m ≡ n = em ∙ ap (λ x. 2 ^ x) same ∙ sym en in
      absurd (cc ((==_iff m n).1 equal, ne))
]

fewer : (j e l k : ℕ) → 2 ^ ((j + e) + l) ≤ k + 2 ^ (j + e) → 2 ^ (e + l) ≤ k + 2 ^ e
fewer zero e l k h = let z : 0 + e ≡ e = omega arith in rw z at h
fewer (suc j) e l k h =
    let outer : suc j + e + l ≡ suc ((j + e) + l) = omega arith in
    let inner : suc j + e ≡ suc (j + e) = omega arith in
    let wide = pow-le-pow_right {n = 2} (omega arith) {i = j + e} {j = (j + e) + l} (omega arith) in
    fewer j e l k
      (omega (arith, (rw (outer, inner) at h), pow-suc 2 ((j + e) + l), pow-suc 2 (j + e), wide))

module _ {A : Type 0} (keeps : A → A → Bool)
    (total : (a b : A) → keeps a b ≡ false → keeps b a ≡ true) where
  abbrev Rising : ℕ → List (StackItem A) → Type 0
  Rising e [] = Unit
  Rising e (s ∷ st) = (d : ℕ) × (e ≤ d) × (s.n ≡ 2 ^ d) × Good keeps total s × Rising (suc d) st

  abbrev contents : List (StackItem A) → List A
  contents [] = []
  contents (s ∷ st) = s.root ++ contents st

  weight : List (StackItem A) → ℕ
  weight [] = 0
  weight (s ∷ st) = s.n + weight st

  lower : (d e : ℕ) (st : List (StackItem A)) → d ≤ e → Rising e st → Rising d st
  lower d e [] le r = tt
  lower d e (s ∷ st) le (k, above, size, good, rest) = (k, omega arith, size, good, rest)

  -- Pieces of sizes that double hold nearly two to the power of their number.
  weight-ge :
      (e : ℕ) (st : List (StackItem A)) → Rising e st → 2 ^ (e + length st) ≤ weight st + 2 ^ e
  unfolding weight
  weight-ge e [] r = (let z : e + 0 ≡ e = omega arith in rw z (omega arith))
  weight-ge e (s ∷ st) (d, above, size, good, rest) =
      let ih = weight-ge (suc d) st rest in
      let same : suc d + length st ≡ d + suc (length st) = omega arith in
      let gap : (d - e) + e ≡ d = omega arith in
      fewer (d - e) e (suc (length st)) (s.n + weight st)
        (rw gap (omega (arith, pow-suc 2 d, (rw same at ih))))

  regroup :
      (top below : StackItem A) (rest : List (StackItem A)) (m : StackItem A)
      → Perm m.root (below.root ++ top.root)
      → Perm (m.root ++ contents rest) (top.root ++ contents (below ∷ rest))
  regroup top below rest m p =
      Perm.trans
        (Perm.append_right (contents rest) (Perm.trans p (perm_append_comm below.root top.root)))
        (rw (append_assoc top.root below.root (contents rest)) Perm.rfl)

  collapse_lem :
      (d : ℕ) (top : StackItem A) (st : List (StackItem A))
      → top.n ≡ 2 ^ d
      → Good keeps total top
      → Rising d st
      → (st' : List (StackItem A)) × (collapse keeps top st ≡ ok st')
        × Rising d st'
        × (weight st' ≡ top.n + weight st)
        × Perm (contents st') (top.root ++ contents st)
  unfolding collapse weight
  collapse_lem d top [] size good r =
      (top ∷ [], refl, (d, omega arith, size, good, tt), refl, Perm.rfl)
  collapse_lem d top (below ∷ rest) size good (k, above, size', good', r) =
      elim (Bool-cases (top.n == below.n)) [
        | inl e ↦
            let same : d ≡ k =
              pow_injective d k above (sym size ∙ (==_iff top.n below.n).0 e ∙ size') in
            let (m, j, gm, mn, pm) = join_lem keeps total below top good' good in
            let (st', f, r', w, p) =
              collapse_lem (suc d) m rest
                (omega (arith, mn, size, (==_iff top.n below.n).0 e, pow-suc 2 d)) gm
                (rw (← same) at r) in
            (
              st',
              rw (e, collapse, j) f,
              lower d (suc d) st' (omega arith) r',
              omega (arith, w, mn),
              Perm.trans p (regroup top below rest m pm),
            )
        | inr e ↦ (
          top ∷ below ∷ rest,
          rw (e, collapse) refl,
          (
            d,
            omega arith,
            size,
            good,
            (k, apart_lem d k top.n below.n above size size' e, size', good', r),
          ),
          refl,
          Perm.rfl,
        )
      ]

  feed_lem :
      (list_len : ℕ) (xs : List A) (st : List (StackItem A))
      → Rising 0 st
      → weight st + list_pass xs ≡ list_len
      → (st' : List (StackItem A)) × (feed keeps (lb list_len + 1) xs st ≡ ok st')
        × Rising 0 st'
        × (weight st' ≡ list_len)
        × Perm (contents st') (xs ++ contents st)
  unfolding feed list_pass weight lb
  feed_lem list_len [] st r w = (st, refl, r, omega arith, Perm.rfl)
  feed_lem list_len (x ∷ xs) st r w =
      let item : StackItem A = record { n = 1; root = x ∷ [] } in
      let good : Good keeps total item = record { items = λ e. cc; sorted = (tt, tt) } in
      let full = weight-ge 0 st r in
      let z : 0 + length st ≡ length st = omega arith in
      let places : length st ≤ lb list_len =
        lb_loop-le list_len list_len (length st) (omega arith) (omega (arith, (rw z at full), w)) in
      let room : ltb (length st) (lb list_len + 1) ≡ true = ground (arith, places) in
      let (st1, e, r1, w1, p1) = collapse_lem 0 item st refl good r in
      let (st2, f, r2, w2, p2) = feed_lem list_len xs st1 r1 (omega (arith, w1)) in
      (
        st2,
        rw (room, feed, e) f,
        r2,
        w2,
        Perm.trans p2 (Perm.trans (Perm.append_left xs p1) (perm_middle xs (contents st))),
      )

  join_all_lem :
      (d : ℕ) (top : StackItem A) (st : List (StackItem A))
      → Good keeps total top
      → Rising d st
      → (out : List A) × (join_all keeps top st ≡ ok out)
        × IsSorted keeps out
        × Perm out (top.root ++ contents st)
  unfolding join_all
  join_all_lem d top [] good r = (top.root, refl, good.sorted, (rw append-nil Perm.rfl))
  join_all_lem d top (below ∷ rest) good (k, above, size, good', r) =
      let (m, j, gm, mn, pm) = join_lem keeps total below top good' good in
      let (out, f, sorted, p) = join_all_lem (suc k) m rest gm r in
      (out, rw (join_all, j) f, sorted, Perm.trans p (regroup top below rest m pm))

  bottom_lem :
      (st : List (StackItem A))
      → Rising 0 st
      → 0 < weight st
      → (out : List A) × (bottom keeps st ≡ ok out) × IsSorted keeps out × Perm out (contents st)
  unfolding bottom weight
  bottom_lem [] r w = absurd (omega arith)
  bottom_lem (top ∷ rest) (k, above, size, good, r) w = join_all_lem (suc k) top rest good r

  -- Where of any two items one may stand before the other and memory is granted, list_sort returns
  -- 0 without writing behind the log2(n) + 1 places of its stack, reading an unset place or
  -- comparing an item that is not there, and the list is then a rearrangement of what it was in
  -- which each item may stand before the next.
  pub list_sort-IsSorted :
      (malloc_ok : ℕ → Bool) (root : List A)
      → ((n : ℕ) → malloc_ok n ≡ true)
      → (out : List A) × (list_sort keeps malloc_ok root ≡ ok (true, out))
        × IsSorted keeps out
        × Perm out root
  unfolding list_sort list_pass weight
  list_sort-IsSorted malloc_ok [] granted = ([], refl, tt, Perm.rfl)
  list_sort-IsSorted malloc_ok (x ∷ []) granted = (x ∷ [], refl, (tt, tt), Perm.rfl)
  list_sort-IsSorted malloc_ok (x ∷ y ∷ rest) granted =
      let root = x ∷ y ∷ rest in
      let n = list_pass root in
      let (st, e, r, w, p) = feed_lem n root [] tt (omega arith) in
      let (out, f, sorted, q) = bottom_lem st r (omega (arith, w)) in
      let long : ltb n 2 ≡ false = ground arith in
      (
        out,
        rw (long, granted ((lb n + 1) * 16), e, f) refl,
        sorted,
        Perm.trans q (rw append-nil at p),
      )
