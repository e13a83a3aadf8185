-- ===== src/Buffer/Copy.antt =====
-- src/buffer.c: copies between buffers, and of a buffer onto itself.
use crypti.Run.{
  ok, ◌>>=◌, ◌>>◌, guard, Ensures, Returns, Ensures-bind, Returns-bind, Ensures-map, Returns-map,
  Returns-Ensures, guarded,
}
use crypti.Base.{
  ℕ, ◌+◌, ◌-◌, ◌≤◌, ◌≡◌, refl, sym, ap, ap₂, ◌∙◌, ◌≢◌, inl, inr, false, not, List, ◌++◌, arith, ltb,
  ◌==◌, leb→le, ==_iff, Bool-cases, length, take, drop, replicate, length-take, length-replicate,
  take-take,
}
use crypti.Buffer.{
  Buffer, Allocator, load, ensure, ssize_max, buffer_size, write_head, reset, space, Store,
  set_buffer, append_unchecked, append, copy,
}
use crypti.Crypto.Reference.{take-replicate}
use crypti.Buffer.Valid.{
  IsValid, contents, check-IsValid, load-ok, size-IsValid, length-contents, HasRoom, ensure_lem,
}
use crypti.Buffer.Contents.{Appended, write_head_lem}
use crypti.Buffer.Cleared.{reset_lem, IsReset}

-- One buffer is replaced: it is valid and holds `bytes`; no other has changed.
pub record Replaced (s : Store) (dst : ℕ) (bytes : List ℕ) (s' : Store) : Type 0 where
  pub valid : IsValid (s' dst)
  pub holds : contents (s' dst) ≡ bytes
  pub others : (j : ℕ) → j ≢ dst → s' j ≡ s j

set_buffer_self : (s : Store) (i : ℕ) (b : Buffer) → set_buffer s i b i ≡ b
set_buffer_self s i b = rw (==_iff i i).1 refl

==-ne : (i j : ℕ) → j ≢ i → (i == j) ≡ false
==-ne i j h = ground arith

-- The end of an append: `d` has room for the bytes.
write_back :
    (s : Store) (dst : ℕ) (d : Buffer) (bytes : List ℕ)
    → IsValid d
    → d.head + length bytes ≤ d.data_size
    → Returns
        (write_head (set_buffer s dst d dst) bytes >>= λ d'.
          ok (set_buffer (set_buffer s dst d) dst d'))
        (Replaced s dst (contents d ++ bytes))
write_back s dst d bytes v room = rw (set_buffer_self s dst d) (
    Returns-bind (Appended d bytes) _ (write_head d bytes) _ (write_head_lem d bytes v room) λ d' a.
      record {
        valid = rw (set_buffer_self (set_buffer s dst d) dst d') a.valid;
        holds = rw (set_buffer_self (set_buffer s dst d) dst d') a.holds;
        others = λ j ne. rw (==-ne dst j ne);
      })

-- A read of the contents, or of a part at their beginning.
load-contents :
    (b : Buffer) (size : ℕ)
    → IsValid b
    → size ≤ length (contents b)
    → load b.cells b.tail size ≡ ok (take size (contents b))
load-contents b size v h =
    let len = length-contents b v in
    load-ok b.cells b.tail size (omega (arith, len, v.memory, v.within, v.ends))
    ∙ ap ok (sym (take-take size (b.head - b.tail) (drop b.tail b.cells) (omega (arith, len))))

-- The source after the request for room, which may have moved its bytes.
source :
    (s : Store) (dst src size : ℕ) (d : Buffer)
    → IsValid (s src)
    → HasRoom (s dst) size d
    → IsValid (set_buffer s dst d src) × (contents (set_buffer s dst d src) ≡ contents (s src))
source s dst src size d w r = elim (Bool-cases (dst == src)) [
  | inl one ↦ rw one (r.valid, r.same ∙ ap (λ j. contents (s j)) ((==_iff dst src).0 one))
  | inr two ↦ rw two (w, refl)
]

module _ (alloc : Allocator) where
  -- An append, also of a buffer to itself, puts the first `size` bytes of the source behind the
  -- contents.
  append_unchecked_lem :
      (s : Store) (dst src size : ℕ)
      → IsValid (s dst)
      → IsValid (s src)
      → size ≤ length (contents (s src))
      → Ensures
          (append_unchecked alloc s dst src size)
          (Replaced s dst (contents (s dst) ++ take size (contents (s src))))
  unfolding append_unchecked
  append_unchecked_lem s dst src size v w h =
      let len = length-contents (s src) w in
      let bytes = take size (contents (s src)) in
      let n : length bytes ≡ size = omega (arith, length-take size (contents (s src))) in
      Ensures-bind (HasRoom (s dst) size) _ (ensure alloc (s dst) size) _
        (ensure_lem alloc (s dst) size v (omega (arith, len, w.within, w.limited)))
        λ d r.
          let (tv, same) = source s dst src size d w r in
          let read : load (set_buffer s dst d src).cells (set_buffer s dst d src).tail size
              ≡ ok bytes =
            load-contents (set_buffer s dst d src) size tv (rw same h)
            ∙ ap (λ c. ok (take size c)) same in
          let done = write_back s dst d bytes r.valid (omega (arith, n, r.room)) in
          rw (read, ← r.same)
            (Returns-Ensures (Replaced s dst (contents d ++ bytes))
              (write_head (set_buffer s dst d dst) bytes >>= λ d'.
                ok (set_buffer (set_buffer s dst d) dst d'))
              done)

  -- buffer_append, also of a buffer to itself, either ends the process or puts the first `size`
  -- bytes of the source behind the contents of the destination and changes no other buffer.
  pub append-Replaced :
      (s : Store) (dst src size : ℕ)
      → IsValid (s dst)
      → IsValid (s src)
      → Ensures
          (append alloc s dst src size)
          (Replaced s dst (contents (s dst) ++ take size (contents (s src))))
  unfolding append
  append-Replaced s dst src size v w =
      let d = size-IsValid (s src) w in
      let len = length-contents (s src) w in
      let result = Replaced s dst (contents (s dst) ++ take size (contents (s src))) in
      rw (check-IsValid (s dst) v, check-IsValid (s src) w)
        (guarded (not (ltb ssize_max size))
          (guard (not (ltb (buffer_size (s src)) size)) >> append_unchecked alloc s dst src size)
          result
          λ _.
            guarded (not (ltb (buffer_size (s src)) size)) (append_unchecked alloc s dst src size)
              result
              λ u.
                append_unchecked_lem s dst src size v w
                  (omega (arith, len, d, leb→le size (buffer_size (s src)) (ground arith))))

  -- The bytes behind the head of a cleared buffer are zeros.
  append_cleared :
      (s : Store) (dst size : ℕ)
      → IsReset (s dst) (s dst)
      → size ≤ (s dst).data_size
      → Returns (append_unchecked alloc s dst dst size) (Replaced s dst (replicate size 0))
  unfolding append_unchecked ensure
  append_cleared s dst size (v, empty, cells, tail, head, same) h =
      let n = length-replicate {0} {A = ℕ} size 0 in
      let room : ltb (space (s dst)) size ≡ false = ground arith in
      let zero_bytes : take size (drop (s dst).tail (s dst).cells) ≡ replicate size 0 =
        rw (tail, cells) (take-replicate size (s dst).data_size 0 h) in
      rw
        (
          room,
          set_buffer_self s dst (s dst),
          load-ok (s dst).cells (s dst).tail size (omega (arith, tail, v.memory)),
          zero_bytes,
        )
        (rw (empty, set_buffer_self s dst (s dst)) at
          (write_back s dst (s dst) (replicate size 0) v (omega (arith, n, head))))

  -- buffer_copy from another buffer that holds at least `size` bytes either ends the process or
  -- replaces the contents by the first `size` bytes of the source and changes no other buffer.
  pub copy-Replaced :
      (s : Store) (dst src size : ℕ)
      → IsValid (s dst)
      → IsValid (s src)
      → src ≢ dst
      → size ≤ length (contents (s src))
      → Ensures (copy alloc s dst src size) (Replaced s dst (take size (contents (s src))))
  unfolding copy
  copy-Replaced s dst src size v w apart h =
      rw (check-IsValid (s dst) v, check-IsValid (s src) w)
        (Ensures-bind (IsReset (s dst)) (Replaced s dst (take size (contents (s src))))
          (reset (s dst)) (λ d. append_unchecked alloc (set_buffer s dst d) dst src size)
          (Returns-Ensures (IsReset (s dst)) (reset (s dst)) (reset_lem (s dst) v))
          λ d e.
            let t = set_buffer s dst d in
            let self = set_buffer_self s dst d in
            let other : t src ≡ s src = rw (==-ne dst src apart) in
            Ensures-map (Replaced t dst (contents (t dst) ++ take size (contents (t src)))) _
              (append_unchecked alloc t dst src size)
              (append_unchecked_lem t dst src size (rw self e.0) (rw other w) (rw other h))
              λ s' r. record {
                valid = r.valid;
                holds =
                    r.holds
                    ∙ ap₂ (λ x y. contents x ++ take size (contents y)) self other
                    ∙ ap (λ x. x ++ take size (contents (s src))) e.1;
                others = λ j ne. r.others j ne ∙ rw (==-ne dst j ne);
              })

  -- buffer_copy of a valid buffer onto itself leaves `size` zero bytes, for any `size` up to that
  -- of its memory.
  pub copy_self :
      (s : Store) (dst size : ℕ)
      → IsValid (s dst)
      → size ≤ (s dst).data_size
      → Returns (copy alloc s dst dst size) (Replaced s dst (replicate size 0))
  unfolding copy
  copy_self s dst size v h = rw (check-IsValid (s dst) v) (
      Returns-bind (IsReset (s dst)) (Replaced s dst (replicate size 0)) (reset (s dst))
        (λ d. append_unchecked alloc (set_buffer s dst d) dst dst size) (reset_lem (s dst) v)
        λ d e.
          Returns-map (Replaced (set_buffer s dst d) dst (replicate size 0))
            (Replaced s dst (replicate size 0))
            (append_unchecked alloc (set_buffer s dst d) dst dst size)
            (append_cleared (set_buffer s dst d) dst size
              (rw (set_buffer_self s dst d)
                (e.0, e.1, e.2 ∙ ap (λ n. replicate n 0) (sym e.5), e.3, e.4, refl))
              (rw (set_buffer_self s dst d, e.5) h))
            λ s' r. record {
              valid = r.valid;
              holds = r.holds;
              others = λ j ne. r.others j ne ∙ rw (==-ne dst j ne);
            })
