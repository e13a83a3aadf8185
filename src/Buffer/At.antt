-- ===== src/Buffer/At.antt =====
-- src/buffer.c: reads and writes at an offset from the read end, which leave both ends alone.
pub mod Window
pub mod Access
use crypti.Run.{Run, ok, guard, ◌>>=◌, ◌>>◌}
use crypti.Base.{ℕ, ◌+◌, not, ◌||◌, ltb, List, [], ◌∷◌, get_or, length}
use crypti.Buffer.{Buffer, ssize_max, buffer_size, add64, check, load, store}
use crypti.Buffer.Words.{
  u16_le_bytes, u16_be_bytes, u32_le_bytes, u32_be_bytes, u16_le_value, u16_be_value, u32_le_value,
  u32_be_value,
}

-- The tests that the functions with the suffix `_at` start with, for a number of `n` bytes.
pub check_at : Buffer → ℕ → ℕ → Run (Unit {0})
check_at b offset n = do
  check b
  guard (not (ltb ssize_max offset))
  guard (not (ltb (buffer_size b) (add64 offset n)))

-- The bytes `data[0]`, `data[1]`, ... at the offset.
pub read_at : Buffer → ℕ → ℕ → Run (List ℕ)
read_at b offset n = do check_at b offset n; load b.cells (b.tail + offset) n

pub write_at : Buffer → List ℕ → ℕ → Run Buffer
write_at b bytes offset = do
  check_at b offset (length bytes)
  cells ← store b.cells (b.tail + offset) bytes
  ok (record b { cells = cells })

-- `buffer_get_u8_at` and `buffer_put_u8_at`
pub get_u8_at : Buffer → ℕ → Run ℕ
get_u8_at b offset = do bytes ← read_at b offset 1; ok (get_or bytes 0 0)

pub put_u8_at : Buffer → ℕ → ℕ → Run Buffer
put_u8_at b datum offset = write_at b (datum ∷ []) offset

-- `buffer_get_u16_le_at` and `buffer_get_u16_be_at`
pub get_u16_le_at : Buffer → ℕ → Run ℕ
get_u16_le_at b offset = do bytes ← read_at b offset 2; ok (u16_le_value bytes)

pub get_u16_be_at : Buffer → ℕ → Run ℕ
get_u16_be_at b offset = do bytes ← read_at b offset 2; ok (u16_be_value bytes)

-- `buffer_put_u16_le_at` and `buffer_put_u16_be_at`
pub put_u16_le_at : Buffer → ℕ → ℕ → Run Buffer
put_u16_le_at b datum offset = write_at b (u16_le_bytes datum) offset

pub put_u16_be_at : Buffer → ℕ → ℕ → Run Buffer
put_u16_be_at b datum offset = write_at b (u16_be_bytes datum) offset

-- `buffer_get_u32_le_at` and `buffer_get_u32_be_at`
pub get_u32_le_at : Buffer → ℕ → Run ℕ
get_u32_le_at b offset = do bytes ← read_at b offset 4; ok (u32_le_value bytes)

pub get_u32_be_at : Buffer → ℕ → Run ℕ
get_u32_be_at b offset = do bytes ← read_at b offset 4; ok (u32_be_value bytes)

-- `buffer_put_u32_le_at` and `buffer_put_u32_be_at`
pub put_u32_le_at : Buffer → ℕ → ℕ → Run Buffer
put_u32_le_at b datum offset = write_at b (u32_le_bytes datum) offset

pub put_u32_be_at : Buffer → ℕ → ℕ → Run Buffer
put_u32_be_at b datum offset = write_at b (u32_be_bytes datum) offset

-- The tests of `buffer_peek` and `buffer_poke`.
pub check_window : Buffer → ℕ → ℕ → Run (Unit {0})
check_window b size offset = do
  check b
  guard (not (ltb ssize_max size || ltb ssize_max offset))
  guard (
      not (
        ltb (buffer_size b) offset
        || (ltb (buffer_size b) size || ltb (buffer_size b) (add64 offset size))))

-- `buffer_peek`: the bytes that are copied to `dst`, which is not null.
pub peek : Buffer → ℕ → ℕ → Run (List ℕ)
peek b size offset = do check_window b size offset; load b.cells (b.tail + offset) size

-- `buffer_poke` with the `size` bytes at `src`, which is not null
pub poke : Buffer → List ℕ → ℕ → Run Buffer
poke b src offset = do
  check_window b (length src) offset
  cells ← store b.cells (b.tail + offset) src
  ok (record b { cells = cells })
