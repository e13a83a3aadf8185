-- ===== src/Stack.antt =====
-- src/stack.c: the stack of the interpreter. An element is an address, and 0 is the null pointer.
-- A destructor that is called shows as the address that it is called with.
pub mod Order
mod Tests
use crypti.Run.{Run, ok, fault, guard, ◌>>=◌, ◌>>◌}
use crypti.Base.{
  ℕ, zero, suc, ◌+◌, ◌-◌, not, Option, none, some, List, [], ◌∷◌, ltb, ◌==◌, if◌then◌else◌,
  get_elem?, set,
}

-- `struct stack`
pub record Stack : Type 0 where
  pub cur : ℕ
  pub sz : ℕ
  pub arr : List ℕ

abbrev pub stack_sz : ℕ
stack_sz = 128

-- `stack_init` with the memory for the elements.
abbrev pub stack_init : List ℕ → Stack
stack_init arr = record { cur = 0; sz = stack_sz; arr = arr }

-- The assertion that most functions start with.
pub check : Stack → Run (Unit {0})
check s = guard (ltb (s.cur + 1) s.sz)

-- Element `i` of the memory.
pub read_elem : List ℕ → ℕ → Run ℕ
read_elem arr i = elim (get_elem? arr i) [ none ↦ fault | some item ↦ ok item ]

pub write_elem : List ℕ → ℕ → ℕ → Run (List ℕ)
write_elem arr i item = elim (get_elem? arr i) [ none ↦ fault | some old ↦ ok (set arr i item) ]

-- `stack_push`
pub push : Stack → ℕ → Run Stack
push s item = do
  check s
  guard (not (item == 0))
  guard (not (s.cur + 1 == s.sz))
  arr ← write_elem s.arr s.cur item
  ok (record s { arr = arr; cur = s.cur + 1 })

-- The loop of `stack_push_n`, and the function.
pub push_loop : Stack → List ℕ → Run Stack
push_loop s [] = ok s
push_loop s (item ∷ rest) = push s item >>= λ s'. push_loop s' rest

pub push_n : Stack → List ℕ → Run Stack
push_n s item = do check s; push_loop s item

-- `stack_pop`: a null pointer where the stack is empty.
pub pop : Stack → Run (ℕ × Stack)
pop s = do
  check s
  (if s.cur == 0
      then ok (0, s)
      else (do item ← read_elem s.arr (s.cur - 1); ok (item, record s { cur = s.cur - 1 })))

-- `stack_remove`
pub remove : Stack → Run (ℕ × Stack)
remove s = do
  guard (ltb 0 s.cur)
  item ← read_elem s.arr (s.cur - 1)
  ok (item, record s { cur = s.cur - 1 })

-- `for (i = ...; i < cur; i++) destructor(arr[i])`, with `k` turns to go.
pub destruct : ℕ → ℕ → List ℕ → Run (List ℕ)
destruct zero i arr = ok []
destruct (suc k) i arr = do item ← read_elem arr i; rest ← destruct k (i + 1) arr; ok (item ∷ rest)

-- `stack_flush`; `stack_destroy` calls the destructors in the same way and frees the stack.
pub flush : Stack → Run (List ℕ × Stack)
flush s = do check s; gone ← destruct s.cur 0 s.arr; ok (gone, record s { cur = 0 })

pub stack_destroy : Stack → Run (List ℕ)
stack_destroy s = do check s; destruct s.cur 0 s.arr
