-- ===== src/Crypto/Stream/Absorb.antt =====
-- The block buffer of lib/crypto: an update that fills it and compresses means the
-- byte-by-byte specification.
use crypti.Base.{
  ℕ, ◌+◌, ◌-◌, ◌%◌, ◌≤◌, ◌<◌, ◌≡◌, ap, ◌∙◌, sym, List, [], ◌++◌, append_assoc, arith, leb, length,
  take, drop, length-append, length-take, length-drop, take-append-drop, take-append, take_all,
  Bool-cases, leb→le, inl, inr,
}
use crypti.Crypto.Stream.{
  memcpy, transform_rest, absorb, feed_all, feed_all-append, feed_all_short, feed_all_full,
  transform_rest_lem,
}

-- A copy within bounds overwrites a range and keeps the size.
module _ (dst : List ℕ) (off : ℕ) (src : List ℕ) (fits : off + length src ≤ length dst) where
  pub length-memcpy : length (memcpy dst off src) ≡ length dst
  length-memcpy = omega (
    arith,
    length-append (take off dst) (src ++ drop (off + length src) dst),
    length-append src (drop (off + length src) dst),
    length-take off dst,
    length-drop (off + length src) dst,
  )

  pub take-memcpy : take (off + length src) (memcpy dst off src) ≡ take off dst ++ src
  take-memcpy =
      ap (take (off + length src)) (sym (append_assoc (take off dst) src _))
      ∙ take-append (off + length src) (take off dst ++ src) _
          (omega (arith, length-append (take off dst) src, length-take off dst))

module _ {S : Type 0} (compress : S → List ℕ → S) where
  module _ (s : S) (buffer : List ℕ) (n : ℕ) (msg : List ℕ) (size : length buffer ≡ 64)
      (lt : n < 64) (more : 64 - n ≤ length msg) where
    -- The buffer once it is filled up, and what the loop leaves.
    abbrev filled : List ℕ
    filled = memcpy buffer n (take (64 - n) msg)

    abbrev looped : S × List ℕ
    looped = transform_rest compress (length msg) (compress s filled) (drop (64 - n) msg)

    length-head : n + length (take (64 - n) msg) ≡ 64
    length-head = omega (arith, length-take (64 - n) msg)

    length-filled : length filled ≡ 64
    length-filled = length-memcpy buffer n (take (64 - n) msg) (omega (arith, length-head)) ∙ size

    filled_lem : filled ≡ take n buffer ++ take (64 - n) msg
    filled_lem =
        let short : n + length (take (64 - n) msg) ≤ length buffer = omega (arith, length-head) in
        sym (take_all 64 filled (omega (arith, length-filled)))
        ∙ ap (λ k. take k filled) (sym length-head)
        ∙ take-memcpy buffer n (take (64 - n) msg) short

    feed_all-filled :
        feed_all compress (s, take n buffer) msg
        ≡ feed_all compress (compress s filled, []) (drop (64 - n) msg)
    feed_all-filled =
        let len = length-take n buffer in
        ap (feed_all compress (s, take n buffer)) (sym (take-append-drop (64 - n) msg))
        ∙ feed_all-append compress (s, take n buffer) (take (64 - n) msg) (drop (64 - n) msg)
        ∙ ap (λ st. feed_all compress st (drop (64 - n) msg))
            (feed_all_full compress s (take n buffer) (take (64 - n) msg) (omega (arith, len))
              (omega (arith, len, length-head)))
        ∙ ap (λ b. feed_all compress (compress s b, []) (drop (64 - n) msg)) (sym filled_lem)

    absorb_full :
        (length (memcpy filled 0 looped.1) ≡ 64)
        × (feed_all compress (s, take n buffer) msg
            ≡ (looped.0, take ((n + length msg) % 64) (memcpy filled 0 looped.1)))
    absorb_full =
        let len = length-drop (64 - n) msg in
        let (eq, short, same) =
          transform_rest_lem compress (length msg) (compress s filled) (drop (64 - n) msg)
            (omega (arith, len)) in
        let fits : 0 + length looped.1 ≤ length filled = omega (arith, length-filled) in
        let used : (n + length msg) % 64 ≡ 0 + length looped.1 = omega (arith, len) in
        (
          length-memcpy filled 0 looped.1 fits ∙ length-filled,
          feed_all-filled ∙ eq ∙ rw (used, take-memcpy filled 0 looped.1 fits),
        )

  -- `absorb` keeps the buffer's size and means the specification, whatever bytes the unused
  -- part of the buffer holds.
  pub absorb_lem :
      (s : S) (buffer : List ℕ) (n : ℕ) (msg : List ℕ)
      → length buffer ≡ 64
      → n < 64
      → (length (absorb compress s buffer n msg).1 ≡ 64)
        × (feed_all compress (s, take n buffer) msg ≡ (
          (absorb compress s buffer n msg).0,
          take ((n + length msg) % 64) (absorb compress s buffer n msg).1,
        ))
  unfolding absorb
  absorb_lem s buffer n msg size lt = elim (Bool-cases (leb (64 - n) (length msg))) [
    | inr less ↦
        let fits : n + length msg < 64 = ground arith in
        let e : (n + length msg) % 64 ≡ n + length msg = omega arith in
        rw (less, absorb)
          (
            length-memcpy buffer n msg (omega arith) ∙ size,
            feed_all_short compress s (take n buffer) msg (omega (arith, length-take n buffer))
                ∙ rw (e, take-memcpy buffer n msg (omega arith)),
          )
    | inl more ↦ rw (more, absorb) (absorb_full s buffer n msg size lt (leb→le _ _ more))
  ]
