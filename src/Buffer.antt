-- ===== src/Buffer.antt =====
-- src/buffer.c: a byte buffer with a read end (`tail`) and a write end (`head`) in one piece of
-- memory, which grows unless it is static. `size_t` has 64 bits.
pub mod Words
pub mod Valid
pub mod Total
pub mod Contents
pub mod Taken
pub mod Cleared
pub mod Copy
pub mod At
pub mod Tests
use crypti.Run.{Run, ok, die, fault, stuck, guard, ◌>>=◌, ◌>>◌}
use crypti.Base.{
  ℕ, zero, suc, ◌+◌, ◌-◌, ◌*◌, ◌%◌, ◌^◌, ◌≤◌, ◌≡◌, Bool, true, false, not, ◌&&◌, ◌||◌, Option, none,
  some, List, [], ◌∷◌, ◌++◌, ltb, leb, ◌==◌, if◌then◌else◌, length, take, drop, replicate,
}
use crypti.Crypto.Stream.{memcpy}

-- `struct buffer`; `cells` is the memory at `data`.
pub record Buffer : Type 0 where
  pub head : ℕ
  pub tail : ℕ
  pub cells : List ℕ
  pub data_size : ℕ
  pub static_flag : Bool

-- The C library's allocator: memory of the size that is asked for, or a null pointer; a block
-- that is made larger keeps its contents.
pub record Allocator : Type 0 where
  pub malloc : ℕ → Option (List ℕ)
  pub length-malloc : (n : ℕ) (m : List ℕ) → malloc n ≡ some m → length m ≡ n
  pub realloc : List ℕ → ℕ → Option (List ℕ)
  pub realloc-keeps :
      (old : List ℕ) (n : ℕ) (m : List ℕ)
      → realloc old n ≡ some m
      → length old ≤ n
      → (length m ≡ n) × (take (length old) m ≡ old)

abbrev pub ssize_max : ℕ
ssize_max = 2 ^ 63 - 1

-- `size_t` sums and differences.
abbrev pub add64 : ℕ → ℕ → ℕ
add64 a b = (a + b) % 2 ^ 64

abbrev pub sub64 : ℕ → ℕ → ℕ
sub64 a b = (a + 2 ^ 64 - b) % 2 ^ 64

-- `BUFFER_SPACE` and `BUFFER_SIZE`, which is also `buffer_size`
abbrev pub space : Buffer → ℕ
space b = sub64 b.data_size b.head

abbrev pub buffer_size : Buffer → ℕ
buffer_size b = sub64 b.head b.tail

-- `BUFFER_CHECK`
pub check : Buffer → Run (Unit {0})
check b = guard (not (b.data_size == 0 || (ltb b.data_size b.head || ltb b.head b.tail)))

-- The `n` bytes of memory from `off` on.
pub load : List ℕ → ℕ → ℕ → Run (List ℕ)
load cells off n = if leb (off + n) (length cells) then ok (take n (drop off cells)) else fault

-- `memcpy` to the memory from `off` on.
pub store : List ℕ → ℕ → List ℕ → Run (List ℕ)
store cells off src =
    if leb (off + length src) (length cells) then ok (memcpy cells off src) else fault

-- `xmalloc` and `xrealloc`
pub xmalloc : Allocator → ℕ → Run (List ℕ)
xmalloc alloc n = elim (alloc.malloc n) [ none ↦ die | some m ↦ ok m ]

pub xrealloc : Allocator → List ℕ → ℕ → Run (List ℕ)
xrealloc alloc old n = elim (alloc.realloc old n) [ none ↦ die | some m ↦ ok m ]

abbrev pub buffer_init_size : ℕ
buffer_init_size = 4 * 1024

-- `buffer_new`
pub buffer_new : Allocator → Run Buffer
unfolding xmalloc
buffer_new alloc = do
  cells ← xmalloc alloc buffer_init_size
  ok (record {
    head = 0;
    tail = 0;
    cells = cells;
    data_size = buffer_init_size;
    static_flag = false;
  })

-- `buffer_create_static` and `buffer_create_static_full` on memory that is not null.
pub create_static : List ℕ → ℕ → Run Buffer
create_static data_ptr size = do
  guard (not (ltb ssize_max size || size == 0))
  ok (record { head = 0; tail = 0; cells = data_ptr; data_size = size; static_flag = true })

pub create_static_full : List ℕ → ℕ → Run Buffer
create_static_full data_ptr size = do
  guard (not (ltb ssize_max size || size == 0))
  ok (record { head = size; tail = 0; cells = data_ptr; data_size = size; static_flag = true })

-- `buffer_reset`
pub reset : Buffer → Run Buffer
reset b = do
  check b
  cells ← store b.cells 0 (replicate b.data_size 0)
  ok (record b { cells = cells; tail = 0; head = 0 })

-- `buffer_trim`
pub trim : Buffer → ℕ → Run Buffer
trim b size = do
  check b
  (if size == 0 then ok b else (do
    guard (not (ltb ssize_max size || ltb (buffer_size b) size))
    cells ← store b.cells (sub64 b.head size) (replicate size 0)
    ok (record b { cells = cells; head = sub64 b.head size })))

-- `buffer_consume`
pub consume : Buffer → ℕ → Run Buffer
consume b size = do
  check b
  (if size == 0 then ok b else (do
    guard (not (ltb ssize_max size || ltb (buffer_size b) size))
    ok (record b { tail = add64 b.tail size })))

-- The loop of `buffer_ensure` that doubles the size: `head` bytes are written, `size` are wanted.
pub grow : ℕ → ℕ → ℕ → ℕ → Run ℕ
grow zero new_size head size = stuck
grow (suc f) new_size head size =
    let doubled = new_size * 2 % 2 ^ 64 in
    let again = grow f doubled head size in
    if ltb ssize_max doubled
    then die
    else (if ltb (sub64 doubled head) size then again else ok doubled)

-- `buffer_ensure`
pub ensure : Allocator → Buffer → ℕ → Run Buffer
ensure alloc b size =
    if ltb (space b) size
    then (if leb size (add64 b.tail (space b))
        then (do
          moved ← load b.cells b.tail (buffer_size b)
          cells ← store b.cells 0 moved
          ok (record b { cells = cells; head = sub64 b.head b.tail; tail = 0 }))
        else (do
          guard (not b.static_flag)
          new_size ← grow 64 b.data_size b.head size
          cells ← xrealloc alloc b.cells new_size
          ok (record b { cells = cells; data_size = new_size })))
    else ok b

-- The bytes are written at `head`, which moves behind them.
pub write_head : Buffer → List ℕ → Run Buffer
write_head b src = do
  cells ← store b.cells b.head src
  ok (record b { cells = cells; head = add64 b.head (length src) })

-- `buffer_advance`
pub advance : Allocator → Buffer → ℕ → Run Buffer
advance alloc b size = do
  check b
  guard (not (ltb ssize_max size))
  b' ← ensure alloc b size
  write_head b' (replicate size 0)

-- `buffer_putc`, and `buffer_put_u8` with the same steps
pub putc : Allocator → Buffer → ℕ → Run Buffer
putc alloc b c = do check b; b' ← ensure alloc b 1; write_head b' (c ∷ [])

-- `buffer_zero`: a NUL behind the contents.
pub buffer_zero : Allocator → Buffer → Run Buffer
buffer_zero alloc b = do
  check b
  b' ← ensure alloc b 1
  cells ← store b'.cells b'.head (0 ∷ [])
  ok (record b' { cells = cells })

-- `buffer_put` with the `size` bytes at `src`, which is not null
pub put : Allocator → Buffer → List ℕ → Run Buffer
put alloc b src = do
  check b
  guard (not (ltb ssize_max (length src)))
  b' ← ensure alloc b (length src)
  write_head b' src

-- `buffer_put_string`: the NUL is part of what is put.
pub put_string : Allocator → Buffer → List ℕ → Run Buffer
put_string alloc b str = do
  check b
  b' ← ensure alloc b (length str + 1)
  write_head b' (str ++ 0 ∷ [])

-- `buffer_get`: the bytes that are copied to `dst`, which is not null.
pub get : Buffer → ℕ → Run (List ℕ × Buffer)
get b size = do
  check b
  guard (not (ltb ssize_max size || ltb (buffer_size b) size))
  bytes ← load b.cells b.tail size
  ok (bytes, record b { tail = add64 b.tail size })

-- Buffers by name, so that two arguments may be one object.
abbrev pub Store : Type 0
Store = ℕ → Buffer

abbrev pub set_buffer : Store → ℕ → Buffer → Store
set_buffer s i b j = if i == j then b else s j

-- `_buffer_append`
pub append_unchecked : Allocator → Store → ℕ → ℕ → ℕ → Run Store
append_unchecked alloc s dst src size = do
  d ← ensure alloc (s dst) size
  let s1 = set_buffer s dst d
  bytes ← load (s1 src).cells (s1 src).tail size
  d' ← write_head (s1 dst) bytes
  ok (set_buffer s1 dst d')

-- `buffer_append`
pub append : Allocator → Store → ℕ → ℕ → ℕ → Run Store
append alloc s dst src size = do
  check (s dst)
  check (s src)
  guard (not (ltb ssize_max size))
  guard (not (ltb (buffer_size (s src)) size))
  append_unchecked alloc s dst src size

-- `buffer_copy`
pub copy : Allocator → Store → ℕ → ℕ → ℕ → Run Store
copy alloc s dst src size = do
  check (s dst)
  check (s src)
  d ← reset (s dst)
  append_unchecked alloc (set_buffer s dst d) dst src size
