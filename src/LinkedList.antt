-- ===== src/LinkedList.antt =====
-- src/list.c: singly linked lists. A list is the list of the data pointers from `root->list` on;
-- items that are added are apart from those of the list.
pub mod Merging
pub mod Sorting
mod Tests
use crypti.Run.{Run, ok, fault, ◌>>=◌}
use crypti.Base.{
  ℕ, zero, suc, ◌+◌, ◌*◌, ◌/◌, Bool, true, false, Option, none, some, List, [], ◌∷◌, ltb, ◌==◌,
  if◌then◌else◌, length,
}

-- `struct stack_item`: a sorted piece of the list and its size.
pub record StackItem (A : Type 0) : Type 0 where
  pub n : ℕ
  pub root : List A

-- The loop of `lb`.
pub lb_loop : ℕ → ℕ → ℕ
lb_loop zero a = 0
lb_loop (suc fuel) a = if ltb 1 a then suc (lb_loop fuel (a / 2)) else 0

-- `lb`: each turn halves `a`, so that `a` turns are enough.
pub lb : ℕ → ℕ
lb a = lb_loop a a

module _ {A : Type 0} where
  -- `list_item_add`
  pub item_add : List A → A → List A
  item_add root item = item ∷ root

  -- `list_item_add_to_end`
  pub item_add_to_end : List A → A → List A
  item_add_to_end [] item = item ∷ []
  item_add_to_end (x ∷ next) item = x ∷ item_add_to_end next item

  -- The loop of `list_reverse`; `root2` is the part that is turned round.
  pub reverse_loop : List A → List A → List A
  reverse_loop root2 [] = root2
  reverse_loop root2 (x ∷ next) = reverse_loop (x ∷ root2) next

  -- `list_reverse`
  pub list_reverse : List A → List A
  list_reverse root = reverse_loop [] root

  -- `list_find`, with whether the comparison gives 0: the item and what is behind it.
  pub list_find : (A → A → Bool) → A → List A → Option (List A)
  list_find equal wanted [] = none
  list_find equal wanted (x ∷ next) =
      if equal wanted x then some (x ∷ next) else list_find equal wanted next

  -- `list_pass` without a callback.
  pub list_pass : List A → ℕ
  list_pass [] = 0
  list_pass (x ∷ next) = suc (list_pass next)

-- `keeps a b` stands for `func(a, b) >= 0`.
module _ {A : Type 0} (keeps : A → A → Bool) where
  -- One item of the left list against the right one; `rec` goes on behind it.
  pub take_before : A → List A → (List A → List A) → List A → List A
  take_before l ll rec [] = l ∷ ll
  take_before l ll rec (r ∷ rl) =
      if keeps l r then l ∷ rec (r ∷ rl) else r ∷ take_before l ll rec rl

  -- The loop of `stack_item_sort`, with the lists that are left when one has come to its end.
  pub interleave : List A → List A → List A
  interleave [] rl = rl
  interleave (l ∷ ll) rl = take_before l ll (interleave ll) rl

  -- The first comparison reads the first item of both lists.
  pub sort_roots : List A → List A → Run (List A)
  sort_roots [] rl = fault
  sort_roots (l ∷ ll) [] = fault
  sort_roots (l ∷ ll) (r ∷ rl) = ok (interleave (l ∷ ll) (r ∷ rl))

  -- `stack_item_sort`: the left piece as it is left.
  pub stack_item_sort : StackItem A → StackItem A → Run (StackItem A)
  stack_item_sort left right = do
    root ← sort_roots left.root right.root
    ok (record { n = left.n + right.n; root = root })

  -- The inner loop of `list_sort`: the piece at `spos - 1` and those below it.
  pub collapse : StackItem A → List (StackItem A) → Run (List (StackItem A))
  collapse top [] = ok (top ∷ [])
  collapse top (below ∷ rest) =
      let joined = stack_item_sort below top >>= (λ m. collapse m rest) in
      if top.n == below.n then joined else ok (top ∷ below ∷ rest)

  -- The outer loop, with a stack of `stack_len` places; writing behind them is a fault.
  pub feed : ℕ → List A → List (StackItem A) → Run (List (StackItem A))
  feed stack_len [] stack = ok stack
  feed stack_len (x ∷ next) stack =
      let placed =
        collapse (record { n = 1; root = x ∷ [] }) stack >>= (λ s. feed stack_len next s) in
      if ltb (length stack) stack_len then placed else fault

  -- The last loop of `list_sort`, and the piece that is then at the bottom.
  pub join_all : StackItem A → List (StackItem A) → Run (List A)
  join_all top [] = ok top.root
  join_all top (below ∷ rest) = stack_item_sort below top >>= λ m. join_all m rest

  -- What is read from `stack[0]`, which is uninitialised where nothing was placed.
  pub bottom : List (StackItem A) → Run (List A)
  bottom [] = fault
  bottom (top ∷ rest) = join_all top rest

  -- `list_sort`; `false` is -1, for want of memory.
  pub list_sort : (ℕ → Bool) → List A → Run (Bool × List A)
  list_sort malloc_ok root =
      let list_len = list_pass root in
      let stack_len = lb list_len + 1 in
      let sorted = (feed stack_len root [] >>= bottom) >>= (λ l. ok (true, l)) in
      if ltb list_len 2
      then ok (true, root)
      else if malloc_ok (stack_len * 16)
      then sorted
      else ok (false, root)
