-- ===== src/Buffer/Contents.antt =====
-- src/buffer.c: what is written at the end of a buffer.
use crypti.Run.{
  ◌>>=◌, guard, Ensures, Returns, Ensures-bind, Returns-map, Returns-Ensures, Ensures-Returns,
  guard_lem, bind-ne-die, Returns-ne,
}
use crypti.Base.{
  ℕ, ◌+◌, ◌-◌, ◌*◌, ◌≤◌, ◌≡◌, refl, sym, ap, ap₂, ◌∙◌, true, false, not, List, [], ◌∷◌, ◌++◌, arith,
  ltb, leb→le, ltb-false, length, take, drop, replicate, length-take, length-replicate, take-append,
  drop-append, drop-drop, take-drop-take, take_add,
}
use crypti.Crypto.Stream.{memcpy}
use crypti.Crypto.Stream.Absorb.{length-memcpy}
use crypti.Buffer.{Buffer, Allocator, ensure, ssize_max, add64, write_head, put, putc, advance}
use crypti.Buffer.Valid.{IsValid, contents, check-IsValid, store-ok, HasRoom, ensure_lem}
use crypti.Buffer.Total.{Grants, ensure_total}

-- The bytes of `b'` are those of `b` followed by `src`.
pub record Appended (b : Buffer) (src : List ℕ) (b' : Buffer) : Type 0 where
  pub valid : IsValid b'
  pub holds : contents b' ≡ contents b ++ src

module _ (b : Buffer) (src : List ℕ) (v : IsValid b)
    (room : b.head + length src ≤ b.data_size) where
  -- The memory once `src` stands at the head.
  abbrev written : List ℕ
  written = memcpy b.cells b.head src

  fits : b.head + length src ≤ length b.cells
  fits = omega (arith, v.memory)

  pub take-written : take b.head written ≡ take b.head b.cells
  take-written =
      take-append b.head (take b.head b.cells) _ (omega (arith, length-take b.head b.cells, fits))

  drop-written : take (length src) (drop b.head written) ≡ src
  drop-written =
      ap (take (length src)) (
        drop-append b.head (take b.head b.cells) _
          (omega (arith, length-take b.head b.cells, fits)))
      ∙ take-append (length src) src _ refl

  contents-written : take (b.head - b.tail + length src) (drop b.tail written) ≡ contents b ++ src
  contents-written =
      let k = b.head - b.tail in
      let e : b.tail + k ≡ b.head = omega (arith, v.ends) in
      take_add k (length src) (drop b.tail written)
      ∙ ap₂ ◌++◌
          (sym (take-drop-take k b.tail b.head written (omega (arith, e)))
            ∙ ap (λ t. take k (drop b.tail t)) take-written
            ∙ take-drop-take k b.tail b.head b.cells (omega (arith, e)))
          (ap (take (length src)) (drop-drop k b.tail written ∙ ap (λ t. drop t written) e)
            ∙ drop-written)

  pub write_head_lem : Returns (write_head b src) (Appended b src)
  unfolding write_head
  write_head_lem =
      let a : add64 b.head (length src) ≡ b.head + length src = omega (arith, v.limited) in
      let s : b.head + length src - b.tail ≡ b.head - b.tail + length src = omega (arith, v.ends) in
      rw (store-ok b.cells b.head src fits) (record {
        valid = record {
          ends = omega (arith, a, v.ends);
          within = omega (arith, a);
          memory = length-memcpy b.cells b.head src fits ∙ v.memory;
          positive = v.positive;
          limited = v.limited;
        };
        holds = rw (a, s) contents-written;
      })

module _ (alloc : Allocator) (b : Buffer) (v : IsValid b) where
  -- A request for room and the write that follows it.
  pub append_lem :
      (src : List ℕ)
      → length src ≤ ssize_max
      → Ensures (ensure alloc b (length src) >>= λ b'. write_head b' src) (Appended b src)
  append_lem src small =
      Ensures-bind (HasRoom b (length src)) (Appended b src) (ensure alloc b (length src)) _
        (ensure_lem alloc b (length src) v small)
        λ b' r. Returns-Ensures (Appended b src) _ (
          Returns-map (Appended b' src) (Appended b src) _ (write_head_lem b' src r.valid r.room)
            λ c w. record { valid = w.valid; holds = w.holds ∙ ap (λ t. t ++ src) r.same })

  -- buffer_put on a valid buffer either ends the process or leaves a valid buffer that holds what
  -- it held followed by the bytes.
  pub put-Appended : (src : List ℕ) → Ensures (put alloc b src) (Appended b src)
  unfolding put
  put-Appended src = rw (check-IsValid b v) (
      Ensures-bind (λ _. not (ltb ssize_max (length src)) ≡ true) (Appended b src)
        (guard (not (ltb ssize_max (length src)))) _ (guard_lem _)
        λ _ t. append_lem src (ground arith))

  pub putc-Appended : (c : ℕ) → Ensures (putc alloc b c) (Appended b (c ∷ []))
  unfolding putc
  putc-Appended c = rw (check-IsValid b v) (append_lem (c ∷ []) (omega arith))

  pub advance-Appended : (n : ℕ) → Ensures (advance alloc b n) (Appended b (replicate n 0))
  unfolding advance
  advance-Appended n =
      let len = length-replicate {0} {A = ℕ} n 0 in
      rw (check-IsValid b v) (
        Ensures-bind (λ _. not (ltb ssize_max n) ≡ true) (Appended b (replicate n 0))
          (guard (not (ltb ssize_max n))) _ (guard_lem _)
          λ _ t.
            (rw len at
              (append_lem (replicate n 0) (omega (arith, leb→le n ssize_max (ground arith))))))

-- With an allocator that never runs out, buffer_put of bytes whose end stays below half of
-- SSIZE_MAX on a valid buffer that may grow and has at most half of SSIZE_MAX returns, with the
-- bytes appended.
pub put_returns :
    (alloc : Allocator) (b : Buffer) (src : List ℕ)
    → IsValid b
    → Grants alloc
    → b.static_flag ≡ false
    → 2 * b.data_size ≤ ssize_max
    → 2 * (b.head + length src) ≤ ssize_max
    → Returns (put alloc b src) (Appended b src)
put_returns alloc b src v grants dynamic m e =
    Ensures-Returns (Appended b src) (put alloc b src) (put-Appended alloc b v src) (
      unfold put in
      rw (check-IsValid b v, ltb-false ssize_max (length src) (omega arith))
        (bind-ne-die (HasRoom b (length src)) (ensure alloc b (length src)) _
          (ensure_lem alloc b (length src) v (omega arith))
          (ensure_total alloc b (length src) v grants dynamic m e)
          λ b' r.
            Returns-ne (Appended b' src) (write_head b' src)
              (write_head_lem b' src r.valid r.room)))
