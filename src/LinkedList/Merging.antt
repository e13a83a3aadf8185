-- ===== src/LinkedList/Merging.antt =====
-- src/list.c: what the merge of two sorted pieces gives, and the pieces that wait on the stack.
use mathlib.Core.List.{Perm, perm_middle}
use mathlib.Core.List.Perm
use crypti.Run.{ok}
use crypti.Base.{
  ◌+◌, ◌≡◌, refl, ◌≢◌, inl, inr, Bool, true, false, List, [], ◌∷◌, ◌++◌, append-nil, Bool-cases,
}
use crypti.LinkedList.{StackItem, take_before, interleave, sort_roots, stack_item_sort}

module _ {A : Type 0} (keeps : A → A → Bool) where
  -- Whether an item may stand before a list.
  abbrev pub Leads : A → List A → Type 0
  Leads a [] = Unit
  Leads a (x ∷ xs) = keeps a x ≡ true

  -- Each item may stand before the one behind it.
  abbrev pub IsSorted : List A → Type 0
  IsSorted [] = Unit
  IsSorted (x ∷ xs) = Leads x xs × IsSorted xs

  -- A sorted rearrangement of two lists, which an item leads that leads both.
  record Merged (l r out : List A) : Type 0 where
    sorted : IsSorted out
    same : Perm out (l ++ r)
    led : (a : A) → Leads a l → Leads a r → Leads a out

  module _ (total : (a b : A) → keeps a b ≡ false → keeps b a ≡ true) where
    take_before_lem :
        (l : A) (ll : List A) (rec : List A → List A) (r : List A)
        → ((s : List A) → IsSorted s → Merged ll s (rec s))
        → IsSorted (l ∷ ll)
        → IsSorted r
        → Merged (l ∷ ll) r (take_before keeps l ll rec r)
    unfolding take_before
    take_before_lem l ll rec [] ih sl sr = record {
      sorted = sl;
      same = (rw append-nil Perm.rfl);
      led = λ a h k. h;
    }
    take_before_lem l ll rec (r ∷ rl) ih sl sr = elim (Bool-cases (keeps l r)) [
      | inl e ↦
          let m = ih (r ∷ rl) sr in
          rw (e, take_before)
            (record {
              sorted = (m.led l sl.0 e, m.sorted);
              same = Perm.cons l m.same;
              led = λ a h k. h;
            })
      | inr e ↦
          let m = take_before_lem l ll rec rl ih sl sr.1 in
          rw (e, take_before)
            (record {
              sorted = (m.led r (total l r e) sr.0, m.sorted);
              same = Perm.trans (Perm.cons r m.same) (Perm.symm (perm_middle (l ∷ ll) rl));
              led = λ a h k. k;
            })
    ]

    interleave_lem : (l r : List A) → IsSorted l → IsSorted r → Merged l r (interleave keeps l r)
    unfolding interleave
    interleave_lem [] r sl sr = record { sorted = sr; same = Perm.rfl; led = λ a h k. k }
    interleave_lem (l ∷ ll) r sl sr =
        take_before_lem l ll (interleave keeps ll) r (λ s ss. interleave_lem ll s sl.1 ss) sl sr

    -- A piece that may be merged: it has an item to compare, and it is sorted.
    pub record Good (s : StackItem A) : Type 0 where
      pub items : s.root ≢ []
      pub sorted : IsSorted s.root

    sort_roots_lem :
        (l r : List A)
        → l ≢ []
        → r ≢ []
        → IsSorted l
        → IsSorted r
        → (out : List A) × (sort_roots keeps l r ≡ ok out) × IsSorted out × Perm out (l ++ r)
    unfolding sort_roots
    sort_roots_lem [] r nl nr sl sr = absurd (nl refl)
    sort_roots_lem (l ∷ ll) [] nl nr sl sr = absurd (nr refl)
    sort_roots_lem (l ∷ ll) (r ∷ rl) nl nr sl sr =
        let m = interleave_lem (l ∷ ll) (r ∷ rl) sl sr in (_, refl, m.sorted, m.same)

    nonempty : (l r out : List A) → l ≢ [] → Perm out (l ++ r) → out ≢ []
    nonempty [] r out n p e = n refl
    nonempty (l ∷ ll) r out n p e = cc (Perm.nil-eq (rw e at p))

    pub join_lem :
        (below top : StackItem A)
        → Good below
        → Good top
        → (m : StackItem A) × (stack_item_sort keeps below top ≡ ok m)
          × Good m
          × (m.n ≡ below.n + top.n)
          × Perm m.root (below.root ++ top.root)
    unfolding stack_item_sort
    join_lem below top gb gt =
        let (out, e, sorted, same) =
          sort_roots_lem below.root top.root gb.items gt.items gb.sorted gt.sorted in
        (
          record { n = below.n + top.n; root = out },
          rw e refl,
          record { items = nonempty below.root top.root out gb.items same; sorted = sorted },
          refl,
          same,
        )
