-- ===== src/Buffer/Taken.antt =====
-- src/buffer.c: what is taken from either end of a buffer.
use crypti.Run.{die, Returns}
use crypti.Base.{
  ℕ, zero, suc, ◌+◌, ◌-◌, ◌≤◌, ◌<◌, ◌≡◌, refl, sym, ap, ◌∙◌, Bool, true, false, ◌||◌, List, ◌++◌,
  arith, ◌==◌, lt→ltb, ltb-false, length, take, drop, replicate, length-take, length-replicate,
  take_all, take-append, drop-drop, take-take, take-drop-take, drop-take,
}
use crypti.Crypto.Stream.{memcpy}
use crypti.Crypto.Stream.Absorb.{length-memcpy}
use crypti.Buffer.{Buffer, ssize_max, sub64, add64, get, trim, consume}
use crypti.Buffer.Valid.{
  IsValid, contents, check-IsValid, load-ok, store-ok, size-IsValid, length-contents,
}

suc-ne-zero : (n : ℕ) → (suc n == 0) ≡ false
suc-ne-zero n = ground arith

or-true : (x : Bool) → (x || true) ≡ true
or-true true = refl
or-true false = refl

-- The read end moves over bytes that are there.
pub consumed :
    (b : Buffer) (size : ℕ)
    → IsValid b
    → size ≤ length (contents b)
    → IsValid (record b { tail = add64 b.tail size })
      × (contents (record b { tail = add64 b.tail size }) ≡ drop size (contents b))
consumed b size v h =
    let len = length-contents b v in
    let a : add64 b.tail size ≡ b.tail + size = omega (arith, v.ends, v.within, v.limited) in
    let k : b.head - (b.tail + size) ≡ b.head - b.tail - size = omega arith in
    (
      record {
        ends = omega (arith, a, v.ends);
        within = v.within;
        memory = v.memory;
        positive = v.positive;
        limited = v.limited;
      },
      rw (a, k)
          (ap (take (b.head - b.tail - size)) (sym (drop-drop size b.tail b.cells))
            ∙ sym (drop-take size (b.head - b.tail) (drop b.tail b.cells) (omega (arith, len)))),
    )

-- buffer_get gives the first `size` bytes held and leaves the rest where that many are held, and
-- ends the process where fewer are.
pub get_lem :
    (b : Buffer) (size : ℕ)
    → IsValid b
    → (size ≤ length (contents b)
        → Returns (get b size) λ r.
          (r.0 ≡ take size (contents b)) × IsValid r.1 × (contents r.1 ≡ drop size (contents b)))
      × (length (contents b) < size → get b size ≡ die)
unfolding get
get_lem b size v =
    let len = length-contents b v in
    let d = size-IsValid b v in
    (
      λ h.
          let (valid, rest) = consumed b size v h in
          rw
            (
              check-IsValid b v,
              d,
              ltb-false ssize_max size (omega (arith, len, v.limited, v.within)),
              ltb-false (b.head - b.tail) size (omega (arith, len)),
              load-ok b.cells b.tail size (omega (arith, len, v.memory, v.within, v.ends)),
            )
            (
              sym (take-take size (b.head - b.tail) (drop b.tail b.cells) (omega (arith, len))),
              valid,
              rest,
            ),
      λ h. rw (check-IsValid b v, d, lt→ltb (b.head - b.tail) size (omega (arith, len)), or-true),
    )

-- buffer_consume drops the first `size` bytes held where that many are held, and ends the process
-- where fewer are.
pub consume_lem :
    (b : Buffer) (size : ℕ)
    → IsValid b
    → (size ≤ length (contents b)
        → Returns (consume b size) λ b'. IsValid b' × (contents b' ≡ drop size (contents b)))
      × (length (contents b) < size → consume b size ≡ die)
unfolding consume
consume_lem b zero v = (λ h. rw (check-IsValid b v) (v, refl), λ h. elim h [ ])
consume_lem b (suc n) v =
    let len = length-contents b v in
    let d = size-IsValid b v in
    (
      λ h.
          rw
            (
              check-IsValid b v,
              d,
              suc-ne-zero n,
              ltb-false ssize_max (suc n) (omega (arith, len, v.limited, v.within)),
              ltb-false (b.head - b.tail) (suc n) (omega (arith, len)),
            )
            (consumed b (suc n) v h),
      λ h. rw (
        check-IsValid b v,
        d,
        suc-ne-zero n,
        lt→ltb (b.head - b.tail) (suc n) (omega (arith, len)),
        or-true,
      ),
    )

module _ (b : Buffer) (size : ℕ) (v : IsValid b) (h : size ≤ length (contents b)) where
  abbrev wiped : List ℕ
  wiped = memcpy b.cells (b.head - size) (replicate size 0)

  len-wiped : b.head - size + length (replicate {A = ℕ} size 0) ≤ length b.cells
  len-wiped =
      omega (
        arith,
        length-contents b v,
        length-replicate {0} {A = ℕ} size 0,
        v.memory,
        v.within,
        v.ends,
      )

  trimmed :
      IsValid (record b { cells = wiped; head = b.head - size })
      × (take (b.head - size - b.tail) (drop b.tail wiped)
          ≡ take (length (contents b) - size) (contents b))
  trimmed =
      let len = length-contents b v in
      let k = b.head - size - b.tail in
      let e : length (contents b) - size ≡ k = omega (arith, len) in
      let low =
        take-append (b.head - size) (take (b.head - size) b.cells)
          (replicate size 0 ++ drop (b.head - size + length (replicate {A = ℕ} size 0)) b.cells)
          (omega (arith, length-take (b.head - size) b.cells, len-wiped)) in
      (
        record {
          ends = omega (arith, len);
          within = omega (arith, v.within);
          memory = length-memcpy b.cells (b.head - size) (replicate size 0) len-wiped ∙ v.memory;
          positive = v.positive;
          limited = v.limited;
        },
        sym (take-drop-take k b.tail (b.head - size) wiped (omega (arith, len)))
            ∙ ap (λ t. take k (drop b.tail t)) low
            ∙ take-drop-take k b.tail (b.head - size) b.cells (omega (arith, len))
            ∙ sym (rw e (take-take k (b.head - b.tail) (drop b.tail b.cells) (omega arith))),
      )

-- buffer_trim drops the last `size` bytes held where that many are held, and ends the process
-- where fewer are.
pub trim_lem :
    (b : Buffer) (size : ℕ)
    → IsValid b
    → (size ≤ length (contents b)
        → Returns
            (trim b size)
            λ b'. IsValid b' × (contents b' ≡ take (length (contents b) - size) (contents b)))
      × (length (contents b) < size → trim b size ≡ die)
unfolding trim
trim_lem b zero v = (
  λ h.
      rw (check-IsValid b v)
        (v, sym (take_all (length (contents b) - 0) (contents b) (omega arith))),
  λ h. elim h [ ],
)
trim_lem b (suc n) v =
    let len = length-contents b v in
    let d = size-IsValid b v in
    (
      λ h.
          let s : sub64 b.head (suc n) ≡ b.head - suc n = omega (arith, len, v.within, v.limited) in
          rw
            (
              check-IsValid b v,
              d,
              suc-ne-zero n,
              ltb-false ssize_max (suc n) (omega (arith, len, v.limited, v.within)),
              ltb-false (b.head - b.tail) (suc n) (omega (arith, len)),
              s,
              store-ok b.cells (b.head - suc n) (replicate (suc n) 0) (len-wiped b (suc n) v h),
            )
            (trimmed b (suc n) v h),
      λ h. rw (
        check-IsValid b v,
        d,
        suc-ne-zero n,
        lt→ltb (b.head - b.tail) (suc n) (omega (arith, len)),
        or-true,
      ),
    )
