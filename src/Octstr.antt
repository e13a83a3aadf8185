-- ===== src/Octstr.antt =====
-- src/octstr.c: the bitwise operators of octet strings. The local copy of `octstr_bitwise` is a
-- buffer with a name of its own in the store.
pub mod Bitwise
mod Tests
use crypti.Run.{Run, ok, ◌>>=◌}
use crypti.Base.{
  ℕ, ◌+◌, ◌-◌, ◌%◌, ◌^◌, take, bit_and, bit_or, bit_xor, Bool, List, [], ◌∷◌, ltb, map,
  if◌then◌else◌,
}
use crypti.Buffer.{Buffer, Allocator, Store, set_buffer, buffer_size, buffer_new, putc}
use crypti.Buffer.Valid.{contents}
use crypti.Str.{str_copy}

-- `OCTSTR_OP_AND` and so on
pub data BitOp : Type 0 where
  op_and op_or op_xor : BitOp

-- A byte of both strings.
pub combine : BitOp → ℕ → ℕ → ℕ
combine op_and x y = bit_and x y
combine op_or x y = bit_or x y
combine op_xor x y = bit_xor x y

-- A byte of the longer string behind the end of the shorter one.
pub leftover : BitOp → ℕ → ℕ
leftover op_and y = 0
leftover op_or y = y
leftover op_xor y = y

-- The bytes that both loops of a case put into the copy; `a` is not longer than `b`.
pub bitwise_bytes : BitOp → List ℕ → List ℕ → List ℕ
bitwise_bytes op [] b = map (leftover op) b
bitwise_bytes op (x ∷ a) [] = []
bitwise_bytes op (x ∷ a) (y ∷ b) = combine op x y ∷ bitwise_bytes op a b

-- `octstr_putc` for each of them.
pub put_each : Allocator → Buffer → List ℕ → Run Buffer
put_each alloc copy [] = ok copy
put_each alloc copy (c ∷ cs) = putc alloc copy c >>= λ d. put_each alloc d cs

-- A `size_t` in an `int`, counted from -2 ^ 31 on.
pub to_int : ℕ → ℕ
to_int n = (n + 2 ^ 31) % 2 ^ 32

-- How often the loop from 0 to `alen` runs, which is never where `alen` is negative.
pub first_turns : ℕ → ℕ
first_turns a = to_int a - 2 ^ 31

-- How often the loop from `alen` to `blen` runs.
pub second_turns : ℕ → ℕ → ℕ
second_turns a b = to_int b - to_int a

-- Behind the exchange of the arguments; `tmp` names the local copy. No loop reads behind the end
-- of a string, since the first length is at most the second.
pub bitwise_ordered : Allocator → Store → ℕ → ℕ → ℕ → ℕ → BitOp → Run Store
bitwise_ordered alloc s tmp dst a b op = do
  fresh ← buffer_new alloc
  (let alen = buffer_size (s a) in
      let blen = buffer_size (s b) in
      let n = first_turns alen in
      do
        copy ← put_each alloc fresh (
            bitwise_bytes op (take n (contents (s a)))
              (take (n + second_turns alen blen) (contents (s b))))
        str_copy alloc (set_buffer s tmp copy) dst tmp)

-- `octstr_bitwise`
pub octstr_bitwise : Allocator → Store → ℕ → ℕ → ℕ → ℕ → BitOp → Run Store
octstr_bitwise alloc s tmp dst a b op =
    if ltb (buffer_size (s b)) (buffer_size (s a))
    then bitwise_ordered alloc s tmp dst b a op
    else bitwise_ordered alloc s tmp dst a b op

-- `octstr_and`, `octstr_or` and `octstr_xor`
pub octstr_and : Allocator → Store → ℕ → ℕ → ℕ → ℕ → Run Store
octstr_and alloc s tmp dst a b = octstr_bitwise alloc s tmp dst a b op_and

pub octstr_or : Allocator → Store → ℕ → ℕ → ℕ → ℕ → Run Store
octstr_or alloc s tmp dst a b = octstr_bitwise alloc s tmp dst a b op_or

pub octstr_xor : Allocator → Store → ℕ → ℕ → ℕ → ℕ → Run Store
octstr_xor alloc s tmp dst a b = octstr_bitwise alloc s tmp dst a b op_xor
