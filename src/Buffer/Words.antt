-- ===== src/Buffer/Words.antt =====
-- src/buffer.c: numbers of 16 and 32 bits in both byte orders.
pub mod RoundTrip
use crypti.Run.{Run, ok, ◌>>=◌, ◌>>◌}
use crypti.Base.{ℕ, ◌+◌, bit_and, bit_or, List, [], ◌∷◌, get_or, ◌<<<◌, ◌>>>◌}
use crypti.Buffer.{Buffer, Allocator, check, load, ensure, write_head, add64}

-- The bytes that the `put` functions store, one by one.
unfoldable pub u16_le_bytes : ℕ → List ℕ
u16_le_bytes datum = bit_and datum 0xff ∷ bit_and (datum >>> 8) 0xff ∷ []

unfoldable pub u16_be_bytes : ℕ → List ℕ
u16_be_bytes datum = bit_and (datum >>> 8) 0xff ∷ bit_and datum 0xff ∷ []

unfoldable pub u32_le_bytes : ℕ → List ℕ
u32_le_bytes datum =
    bit_and datum 0xff
    ∷ bit_and (datum >>> 8) 0xff
    ∷ bit_and (datum >>> 16) 0xff
    ∷ bit_and (datum >>> 24) 0xff
    ∷ []

unfoldable pub u32_be_bytes : ℕ → List ℕ
u32_be_bytes datum =
    bit_and (datum >>> 24) 0xff
    ∷ bit_and (datum >>> 16) 0xff
    ∷ bit_and (datum >>> 8) 0xff
    ∷ bit_and datum 0xff
    ∷ []

-- `buffer_put_u16_le`, `buffer_put_u16_be`, `buffer_put_u32_le` and `buffer_put_u32_be`
pub put_u16_le : Allocator → Buffer → ℕ → Run Buffer
put_u16_le alloc b datum = do b' ← ensure alloc b 2; write_head b' (u16_le_bytes datum)

pub put_u16_be : Allocator → Buffer → ℕ → Run Buffer
put_u16_be alloc b datum = do b' ← ensure alloc b 2; write_head b' (u16_be_bytes datum)

pub put_u32_le : Allocator → Buffer → ℕ → Run Buffer
put_u32_le alloc b datum = do b' ← ensure alloc b 4; write_head b' (u32_le_bytes datum)

pub put_u32_be : Allocator → Buffer → ℕ → Run Buffer
put_u32_be alloc b datum = do b' ← ensure alloc b 4; write_head b' (u32_be_bytes datum)

-- What the `get` functions make of the bytes `data[0]`, `data[1]`, ...
pub u16_le_value : List ℕ → ℕ
u16_le_value bytes = bit_or (get_or bytes 0 0) (get_or bytes 1 0 <<< 8)

pub u16_be_value : List ℕ → ℕ
u16_be_value bytes = bit_or (get_or bytes 1 0) (get_or bytes 0 0 <<< 8)

pub u32_le_value : List ℕ → ℕ
u32_le_value bytes =
    bit_or (bit_or (bit_or (get_or bytes 0 0) (get_or bytes 1 0 <<< 8)) (get_or bytes 2 0 <<< 16))
      (get_or bytes 3 0 <<< 24)

pub u32_be_value : List ℕ → ℕ
u32_be_value bytes =
    bit_or (bit_or (bit_or (get_or bytes 3 0) (get_or bytes 2 0 <<< 8)) (get_or bytes 1 0 <<< 16))
      (get_or bytes 0 0 <<< 24)

-- The read that the `get` functions share: no test for the number of bytes held.
pub take_bytes : Buffer → ℕ → Run (List ℕ × Buffer)
take_bytes b n = do
  check b
  bytes ← load b.cells b.tail n
  ok (bytes, record b { tail = add64 b.tail n })

-- `buffer_get_u16_le`, `buffer_get_u16_be`, `buffer_get_u32_le` and `buffer_get_u32_be`
pub get_u16_le : Buffer → Run (ℕ × Buffer)
get_u16_le b = do (bytes, b') ← take_bytes b 2; ok (u16_le_value bytes, b')

pub get_u16_be : Buffer → Run (ℕ × Buffer)
get_u16_be b = do (bytes, b') ← take_bytes b 2; ok (u16_be_value bytes, b')

pub get_u32_le : Buffer → Run (ℕ × Buffer)
get_u32_le b = do (bytes, b') ← take_bytes b 4; ok (u32_le_value bytes, b')

pub get_u32_be : Buffer → Run (ℕ × Buffer)
get_u32_be b = do (bytes, b') ← take_bytes b 4; ok (u32_be_value bytes, b')
