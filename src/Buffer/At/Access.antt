-- ===== src/Buffer/At/Access.antt =====
-- src/buffer.c: `buffer_peek`, `buffer_poke` and the functions with the suffix `_at`.
use crypti.Run.{ok, die, ◌>>=◌, Returns, Returns-bind}
use crypti.Base.{
  ℕ, ◌+◌, ◌^◌, ◌≤◌, ◌<◌, ◌≡◌, refl, ap, ◌∙◌, List, ◌++◌, arith, length, take, drop, take-append,
}
use crypti.Crypto.Stream.{memcpy}
use crypti.Crypto.Stream.Absorb.{length-memcpy}
use crypti.Buffer.{Buffer, ssize_max}
use crypti.Buffer.Valid.{IsValid, contents, store-ok}
use crypti.Buffer.Words.{
  u16_le_bytes, u16_be_bytes, u32_le_bytes, u32_be_bytes, u16_le_value, u16_be_value, u32_le_value,
  u32_be_value,
}
use crypti.Buffer.Words.RoundTrip.{u16_value, u32_value}
use crypti.Buffer.At.{
  read_at, write_at, peek, poke, get_u32_le_at, get_u32_be_at, put_u32_le_at, put_u32_be_at,
  get_u16_le_at, get_u16_be_at, put_u16_le_at, put_u16_be_at,
}
use crypti.Buffer.At.Window.{
  drop-memcpy_at, window, check_at_lem, check_window_lem, fits, contents-poked, poked-IsValid,
}

-- buffer_peek gives the bytes at the offset of what is held where the range is held, and ends the
-- process where it is not.
pub peek_lem :
    (b : Buffer) (size offset : ℕ)
    → IsValid b
    → (offset + size ≤ length (contents b)
        → peek b size offset ≡ ok (take size (drop offset (contents b))))
      × (length (contents b) < offset + size → peek b size offset ≡ die)
unfolding peek
peek_lem b size offset v =
    let (passes, dies) = check_window_lem b size offset v in
    (λ h. rw (passes h) (window b offset size v h), λ h. rw (dies h) refl)

-- buffer_poke puts the bytes in place of as many at the offset of what is held and keeps the
-- buffer valid where the range is held, and ends the process where it is not.
pub poke_lem :
    (b : Buffer) (src : List ℕ) (offset : ℕ)
    → IsValid b
    → (offset + length src ≤ length (contents b)
        → Returns
            (poke b src offset)
            λ b'. IsValid b' × (contents b' ≡ memcpy (contents b) offset src))
      × (length (contents b) < offset + length src → poke b src offset ≡ die)
unfolding poke
poke_lem b src offset v =
    let (passes, dies) = check_window_lem b (length src) offset v in
    (
      λ h.
          rw (passes h, store-ok b.cells (b.tail + offset) src (fits b offset src v h))
            (poked-IsValid b offset src v h, contents-poked b offset src v h),
      λ h. rw (dies h) refl,
    )

-- What `write_at` leaves.
abbrev Written : Buffer → List ℕ → ℕ → Buffer → Type 0
Written b bytes offset b' = IsValid b' × (contents b' ≡ memcpy (contents b) offset bytes)

module _ (b : Buffer) (offset : ℕ) (v : IsValid b) where
  write_at_lem :
      (bytes : List ℕ)
      → length bytes ≤ ssize_max
      → offset + length bytes ≤ length (contents b)
      → Returns (write_at b bytes offset) (Written b bytes offset)
  unfolding write_at
  write_at_lem bytes small h =
      rw
        (
          (check_at_lem b offset (length bytes) v small).0 h,
          store-ok b.cells (b.tail + offset) bytes (fits b offset bytes v h),
        )
        (poked-IsValid b offset bytes v h, contents-poked b offset bytes v h)

  -- A read of what has just been written at the same offset.
  read-Written :
      (bytes : List ℕ) (b' : Buffer)
      → length bytes ≤ ssize_max
      → offset + length bytes ≤ length (contents b)
      → Written b bytes offset b'
      → read_at b' offset (length bytes) ≡ ok bytes
  unfolding read_at
  read-Written bytes b' small h (valid, e) =
      let inside = length-memcpy (contents b) offset bytes h in
      let held : offset + length bytes ≤ length (contents b') =
        omega (arith, inside, ap length e) in
      let at : drop offset (contents b') ≡ bytes ++ drop (offset + length bytes) (contents b) =
        ap (drop offset) e ∙ drop-memcpy_at (contents b) offset bytes h in
      rw ((check_at_lem b' offset (length bytes) valid small).0 held) (
        window b' offset (length bytes) valid held
        ∙ ap ok (ap (take (length bytes)) at ∙ take-append (length bytes) bytes _ refl))

  get-put_at :
      (bytes : List ℕ) (value : List ℕ → ℕ) (x : ℕ)
      → length bytes ≤ ssize_max
      → offset + length bytes ≤ length (contents b)
      → value bytes ≡ x
      → Returns
          (write_at b bytes offset >>= λ b'. read_at b' offset (length bytes) >>= λ r. ok (value r))
          (λ y. y ≡ x)
  get-put_at bytes value x small h e =
      Returns-bind (Written b bytes offset) (λ y. y ≡ x) (write_at b bytes offset)
        (λ b'. read_at b' offset (length bytes) >>= λ r. ok (value r)) (write_at_lem bytes small h)
        λ b' w. rw (read-Written bytes b' small h w) e

  -- A number of 32 bits that is put at an offset of a valid buffer that holds four bytes from
  -- there is got from it in the same byte order.
  pub get_u32_at-put_u32_at :
      (x : ℕ)
      → x < 2 ^ 32
      → offset + 4 ≤ length (contents b)
      → Returns (put_u32_le_at b x offset >>= λ b'. get_u32_le_at b' offset) (λ y. y ≡ x)
        × Returns (put_u32_be_at b x offset >>= λ b'. get_u32_be_at b' offset) (λ y. y ≡ x)
  unfolding put_u32_le_at put_u32_be_at get_u32_le_at get_u32_be_at u32_le_bytes u32_be_bytes
  get_u32_at-put_u32_at x h room = (
    get-put_at (u32_le_bytes x) u32_le_value x (omega arith) (omega arith) (u32_value x h).0,
    get-put_at (u32_be_bytes x) u32_be_value x (omega arith) (omega arith) (u32_value x h).1,
  )

  -- A number of 16 bits that is put at an offset of a valid buffer that holds two bytes from there
  -- is got from it in the same byte order.
  pub get_u16_at-put_u16_at :
      (x : ℕ)
      → x < 2 ^ 16
      → offset + 2 ≤ length (contents b)
      → Returns (put_u16_le_at b x offset >>= λ b'. get_u16_le_at b' offset) (λ y. y ≡ x)
        × Returns (put_u16_be_at b x offset >>= λ b'. get_u16_be_at b' offset) (λ y. y ≡ x)
  unfolding put_u16_le_at put_u16_be_at get_u16_le_at get_u16_be_at u16_le_bytes u16_be_bytes
  get_u16_at-put_u16_at x h room = (
    get-put_at (u16_le_bytes x) u16_le_value x (omega arith) (omega arith) (u16_value x h).0,
    get-put_at (u16_be_bytes x) u16_be_value x (omega arith) (omega arith) (u16_value x h).1,
  )
