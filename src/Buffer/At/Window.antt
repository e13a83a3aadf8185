-- ===== src/Buffer/At/Window.antt =====
-- src/buffer.c: what is read and written at an offset, in terms of what the buffer holds.
use crypti.Run.{ok, die}
use crypti.Base.{
  ℕ, ◌+◌, ◌-◌, ◌≤◌, ◌<◌, ◌≡◌, refl, sym, ap, ap₂, ◌∙◌, inl, inr, List, ◌++◌, arith, ltb, lt→ltb,
  ltb-false, Bool-cases, length, take, drop, length-take, take-append, drop-append, drop-drop,
  take-take, take-drop-take, take_add, drop-take,
}
use crypti.Crypto.Stream.{memcpy}
use crypti.Crypto.Stream.Absorb.{length-memcpy}
use crypti.Buffer.{Buffer, load, ssize_max, add64}
use crypti.Buffer.Valid.{IsValid, contents, check-IsValid, load-ok, size-IsValid, length-contents}
use crypti.Buffer.At.{check_at, check_window}

-- The bytes at an offset of what is held.
pub window :
    (b : Buffer) (offset n : ℕ)
    → IsValid b
    → offset + n ≤ length (contents b)
    → load b.cells (b.tail + offset) n ≡ ok (take n (drop offset (contents b)))
window b offset n v h =
    let len = length-contents b v in
    let e = take-drop-take n offset (b.head - b.tail) (drop b.tail b.cells) (omega (arith, len)) in
    load-ok b.cells (b.tail + offset) n (omega (arith, len, v.memory, v.within, v.ends))
    ∙ ap ok (ap (take n) (sym (drop-drop offset b.tail b.cells)) ∙ sym e)

-- The tests let a range pass that is held, and end the process at any other.
pub check_at_lem :
    (b : Buffer) (offset n : ℕ)
    → IsValid b
    → n ≤ ssize_max
    → (offset + n ≤ length (contents b) → check_at b offset n ≡ ok tt)
      × (length (contents b) < offset + n → check_at b offset n ≡ die)
unfolding check_at
check_at_lem b offset n v small =
    let len = length-contents b v in
    let d = size-IsValid b v in
    (
      λ h.
          rw
            (
              check-IsValid b v,
              d,
              ltb-false ssize_max offset (omega (arith, len, v.within, v.limited)),
              ltb-false (b.head - b.tail) (add64 offset n)
                  (omega (arith, len, v.within, v.limited)),
            )
            refl,
      λ h.
          rw (check-IsValid b v, d)
            (elim (Bool-cases (ltb ssize_max offset)) [
              | inl far ↦ rw far refl
              | inr near ↦
                  let le : offset ≤ ssize_max = ground arith in
                  rw (near, lt→ltb (b.head - b.tail) (add64 offset n) (omega (arith, len))) refl
            ]),
    )

-- So the tests of `buffer_peek` and `buffer_poke`.
pub check_window_lem :
    (b : Buffer) (size offset : ℕ)
    → IsValid b
    → (offset + size ≤ length (contents b) → check_window b size offset ≡ ok tt)
      × (length (contents b) < offset + size → check_window b size offset ≡ die)
unfolding check_window
check_window_lem b size offset v =
    let len = length-contents b v in
    let d = size-IsValid b v in
    (
      λ h.
          rw
            (
              check-IsValid b v,
              d,
              ltb-false ssize_max size (omega (arith, len, v.within, v.limited)),
              ltb-false ssize_max offset (omega (arith, len, v.within, v.limited)),
              ltb-false (b.head - b.tail) offset (omega (arith, len)),
              ltb-false (b.head - b.tail) size (omega (arith, len)),
              ltb-false (b.head - b.tail) (add64 offset size)
                  (omega (arith, len, v.within, v.limited)),
            )
            refl,
      λ h. rw (check-IsValid b v, d) (ground (arith, len, v.within, v.limited)),
    )

module _ (cells : List ℕ) (off : ℕ) (src : List ℕ) (fits : off + length src ≤ length cells) where
  take-memcpy_before : take off (memcpy cells off src) ≡ take off cells
  take-memcpy_before =
      take-append off (take off cells) _ (omega (arith, length-take off cells, fits))

  pub drop-memcpy_at : drop off (memcpy cells off src) ≡ src ++ drop (off + length src) cells
  drop-memcpy_at = drop-append off (take off cells) _ (omega (arith, length-take off cells, fits))

module _ (b : Buffer) (offset : ℕ) (src : List ℕ) (v : IsValid b)
    (h : offset + length src ≤ length (contents b)) where
  abbrev pub poked : Buffer
  poked = record b { cells = memcpy b.cells (b.tail + offset) src }

  pub fits : b.tail + offset + length src ≤ length b.cells
  fits = omega (arith, h, length-contents b v, v.memory, v.within, v.ends)

  -- The memory from the read end on, before and after.
  abbrev held : List ℕ
  held = drop b.tail b.cells

  abbrev held_after : List ℕ
  held_after = drop b.tail poked.cells

  before : take offset held_after ≡ take offset (contents b)
  before =
      let len = length-contents b v in
      sym (take-drop-take offset b.tail (b.tail + offset) poked.cells (omega arith))
      ∙ ap (λ m. take offset (drop b.tail m))
          (take-memcpy_before b.cells (b.tail + offset) src fits)
      ∙ take-drop-take offset b.tail (b.tail + offset) b.cells (omega arith)
      ∙ sym (take-take offset (b.head - b.tail) held (omega (arith, len, h)))

  from_offset : drop offset held_after ≡ src ++ drop (b.tail + offset + length src) b.cells
  from_offset =
      drop-drop offset b.tail poked.cells ∙ drop-memcpy_at b.cells (b.tail + offset) src fits

  behind :
      take (b.head - b.tail - (offset + length src)) (drop (length src) (drop offset held_after))
      ≡ drop (offset + length src) (contents b)
  behind =
      let len = length-contents b v in
      let rest = b.head - b.tail - (offset + length src) in
      let e : b.tail + offset + length src ≡ b.tail + (offset + length src) = omega arith in
      ap (take rest) (
        ap (drop (length src)) from_offset
        ∙ drop-append (length src) src _ refl
        ∙ ap (λ k. drop k b.cells) e
        ∙ sym (drop-drop (offset + length src) b.tail b.cells))
      ∙ sym (drop-take (offset + length src) (b.head - b.tail) held (omega (arith, len, h)))

  -- What is held, with the bytes in place of as many at the offset.
  pub contents-poked : contents poked ≡ memcpy (contents b) offset src
  contents-poked =
      let len = length-contents b v in
      let rest = b.head - b.tail - (offset + length src) in
      let e : b.head - b.tail ≡ offset + (length src + rest) = omega (arith, len, h) in
      ap (λ k. take k held_after) e
      ∙ take_add offset (length src + rest) held_after
      ∙ ap₂ ◌++◌ before (
          take_add (length src) rest (drop offset held_after)
          ∙ ap₂ ◌++◌ (ap (take (length src)) from_offset ∙ take-append (length src) src _ refl)
              behind)

  pub poked-IsValid : IsValid poked
  poked-IsValid = record {
    ends = v.ends;
    within = v.within;
    memory = length-memcpy b.cells (b.tail + offset) src fits ∙ v.memory;
    positive = v.positive;
    limited = v.limited;
  }
