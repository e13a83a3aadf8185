-- ===== src/Buffer/Words/RoundTrip.antt =====
-- src/buffer.c: a number that is put into an empty buffer is got back, and a read from a buffer
-- that holds too little is not refused.
use crypti.Base.Bits.{bit_and-mask, bit_or_above}
use crypti.Run.{ok, die, ◌>>=◌, Ensures, Returns, Ensures-bind, Returns-Ensures}
use crypti.Base.{
  ℕ, ◌+◌, ◌-◌, ◌*◌, ◌/◌, ◌%◌, ◌^◌, ◌≤◌, ◌<◌, bit_and, bit_or, ◌≡◌, sym, ap, ◌∙◌, true, List, [],
  ◌++◌, arith, ltb, lt→ltb, length, drop_all,
}
use crypti.Buffer.{Buffer, Allocator, check, ensure, write_head, add64, ssize_max}
use crypti.Buffer.Valid.{IsValid, contents, check-IsValid, load-ok, length-contents}
use crypti.Buffer.Contents.{Appended, append_lem}
use crypti.Buffer.Taken.{consumed}
use crypti.Buffer.Words.{
  u16_le_bytes, u16_be_bytes, u32_le_bytes, u32_be_bytes, put_u16_le, put_u16_be, put_u32_le,
  put_u32_be, u16_le_value, u16_be_value, u32_le_value, u32_be_value, take_bytes, get_u16_le,
  get_u16_be, get_u32_le, get_u32_be,
}

pub u16_value :
    (x : ℕ) → x < 2 ^ 16 → (u16_le_value (u16_le_bytes x) ≡ x) × (u16_be_value (u16_be_bytes x) ≡ x)
unfolding u16_le_value u16_le_bytes u16_be_value u16_be_bytes
u16_value x h =
    let e : bit_or (bit_and x 255) (bit_and (x / 2 ^ 8) 255 * 2 ^ 8) ≡ x =
      rw
        (
          bit_and-mask 8 x,
          bit_and-mask 8 (x / 2 ^ 8),
          bit_or_above 8 (x / 2 ^ 8 % 2 ^ 8) (x % 2 ^ 8) (omega arith),
        )
        (omega arith) in
    (e, e)

pub u32_value :
    (x : ℕ) → x < 2 ^ 32 → (u32_le_value (u32_le_bytes x) ≡ x) × (u32_be_value (u32_be_bytes x) ≡ x)
unfolding u32_le_value u32_le_bytes u32_be_value u32_be_bytes
u32_value x h =
    let e : bit_or
          (bit_or (bit_or (bit_and x 255) (bit_and (x / 2 ^ 8) 255 * 2 ^ 8))
            (bit_and (x / 2 ^ 16) 255 * 2 ^ 16))
          (bit_and (x / 2 ^ 24) 255 * 2 ^ 24)
        ≡ x =
      rw
        (
          bit_and-mask 8 x,
          bit_and-mask 8 (x / 2 ^ 8),
          bit_and-mask 8 (x / 2 ^ 16),
          bit_and-mask 8 (x / 2 ^ 24),
          bit_or_above 8 (x / 2 ^ 8 % 2 ^ 8) (x % 2 ^ 8) (omega arith),
          bit_or_above 16 (x / 2 ^ 16 % 2 ^ 8) (x / 2 ^ 8 % 2 ^ 8 * 2 ^ 8 + x % 2 ^ 8)
              (omega arith),
          bit_or_above 24 (x / 2 ^ 24 % 2 ^ 8)
              (x / 2 ^ 16 % 2 ^ 8 * 2 ^ 16 + (x / 2 ^ 8 % 2 ^ 8 * 2 ^ 8 + x % 2 ^ 8)) (omega arith),
        )
        (omega arith) in
    (e, e)

-- A number is got back, and nothing is left.
abbrev pub Got : ℕ → ℕ × Buffer → Type 0
Got x r = (r.0 ≡ x) × IsValid r.1 × (contents r.1 ≡ [])

-- What has been put into an empty buffer is all that it holds.
take_bytes_lem :
    (b : Buffer) (bytes : List ℕ)
    → IsValid b
    → contents b ≡ bytes
    → Returns (take_bytes b (length bytes)) λ r. (r.0 ≡ bytes) × IsValid r.1 × (contents r.1 ≡ [])
unfolding take_bytes
take_bytes_lem b bytes v e =
    let n : length bytes ≡ length (contents b) = ap length (sym e) in
    let len = length-contents b v in
    let (w, rest) = consumed b (length bytes) v (omega (arith, n)) in
    rw
      (
        check-IsValid b v,
        load-ok b.cells b.tail (length bytes) (omega (arith, n, len, v.memory, v.ends, v.within)),
      )
      (
        (let k : length bytes ≡ b.head - b.tail = omega (arith, n, len) in rw k e),
        w,
        rest ∙ drop_all (length bytes) (contents b) (omega (arith, n)),
      )

module _ (alloc : Allocator) (b : Buffer) (v : IsValid b) (empty : contents b ≡ []) where
  put_get :
      (bytes : List ℕ) (value : List ℕ → ℕ) (x : ℕ)
      → length bytes ≤ ssize_max
      → value bytes ≡ x
      → Ensures
          ((ensure alloc b (length bytes) >>= λ b'. write_head b' bytes) >>= λ b'.
            take_bytes b' (length bytes) >>= λ r. ok (value r.0, r.1))
          (Got x)
  put_get bytes value x small e =
      Ensures-bind (Appended b bytes) (Got x)
        (ensure alloc b (length bytes) >>= λ b'. write_head b' bytes)
        (λ b'. take_bytes b' (length bytes) >>= λ r. ok (value r.0, r.1))
        (append_lem alloc b v bytes small)
        λ b' a.
          let P = λ (r : List ℕ × Buffer). (r.0 ≡ bytes) × IsValid r.1 × (contents r.1 ≡ []) in
          Ensures-bind P (Got x) (take_bytes b' (length bytes)) (λ r. ok (value r.0, r.1))
            (Returns-Ensures P (take_bytes b' (length bytes))
              (take_bytes_lem b' bytes a.valid (a.holds ∙ ap (λ c. c ++ bytes) empty)))
            λ r p. (ap value p.0 ∙ e, p.1, p.2)

  -- A number of 32 bits that is put into an empty valid buffer and got back in the same byte order
  -- is the same number and leaves the buffer empty, or the process ends.
  pub get_u32-put_u32 :
      (x : ℕ)
      → x < 2 ^ 32
      → Ensures (put_u32_le alloc b x >>= get_u32_le) (Got x)
        × Ensures (put_u32_be alloc b x >>= get_u32_be) (Got x)
  unfolding put_u32_le put_u32_be get_u32_le get_u32_be u32_le_bytes u32_be_bytes
  get_u32-put_u32 x h = (
    put_get (u32_le_bytes x) u32_le_value x (omega arith) (u32_value x h).0,
    put_get (u32_be_bytes x) u32_be_value x (omega arith) (u32_value x h).1,
  )

  -- A number of 16 bits that is put into an empty valid buffer and got back in the same byte order
  -- is the same number and leaves the buffer empty, or the process ends.
  pub get_u16-put_u16 :
      (x : ℕ)
      → x < 2 ^ 16
      → Ensures (put_u16_le alloc b x >>= get_u16_le) (Got x)
        × Ensures (put_u16_be alloc b x >>= get_u16_be) (Got x)
  unfolding put_u16_le put_u16_be get_u16_le get_u16_be u16_le_bytes u16_be_bytes
  get_u16-put_u16 x h = (
    put_get (u16_le_bytes x) u16_le_value x (omega arith) (u16_value x h).0,
    put_get (u16_be_bytes x) u16_be_value x (omega arith) (u16_value x h).1,
  )

check-crossed : (b : Buffer) → ltb b.head b.tail ≡ true → check b ≡ die
unfolding check
check-crossed b h = ground arith

-- On a valid buffer that holds less than four bytes in memory that goes on for four,
-- buffer_get_u32_le returns and moves the read end past the write end, and the next sanity check
-- ends the process.
pub get_u32_le_overrun :
    (b : Buffer)
    → IsValid b
    → length (contents b) < 4
    → b.tail + 4 ≤ b.data_size
    → Returns (get_u32_le b) λ r. (r.1.head < r.1.tail) × (check r.1 ≡ die)
unfolding get_u32_le take_bytes
get_u32_le_overrun b v short room =
    let len = length-contents b v in
    let a : add64 b.tail 4 ≡ b.tail + 4 = omega (arith, v.limited) in
    let gone : ltb b.head (b.tail + 4) ≡ true = lt→ltb _ _ (omega (arith, len, v.ends)) in
    rw (check-IsValid b v, load-ok b.cells b.tail 4 (omega (arith, room, v.memory)), a)
      (omega (arith, len, v.ends), check-crossed (record b { tail = b.tail + 4 }) gone)
