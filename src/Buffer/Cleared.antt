-- ===== src/Buffer/Cleared.antt =====
-- src/buffer.c: the NUL behind the contents, and the buffer that is emptied.
use crypti.Run.{ok, ◌>>=◌, Ensures, Returns, Ensures-bind}
use crypti.Base.{
  ℕ, ◌+◌, ◌-◌, ◌≤◌, ◌≡◌, refl, sym, ap, ◌∙◌, [], ◌∷◌, append-nil, arith, length, take, drop,
  replicate, length-replicate, drop_all, take-drop-take,
}
use crypti.Crypto.Stream.{memcpy}
use crypti.Crypto.Stream.Absorb.{length-memcpy}
use crypti.Buffer.{buffer_zero, Buffer, Allocator, store, ensure, reset}
use crypti.Buffer.Valid.{IsValid, contents, check-IsValid, store-ok, HasRoom, ensure_lem}
use crypti.Buffer.Contents.{take-written}

-- `buffer_zero` writes a NUL behind the contents and leaves them.
pub buffer_zero_lem :
    (alloc : Allocator) (b : Buffer)
    → IsValid b
    → Ensures (buffer_zero alloc b) (λ b'. IsValid b' × (contents b' ≡ contents b))
unfolding buffer_zero
buffer_zero_lem alloc b v =
    let P = λ (b' : Buffer). IsValid b' × (contents b' ≡ contents b) in
    rw (check-IsValid b v) (
      Ensures-bind (HasRoom b 1) P (ensure alloc b 1)
        (λ b'. store b'.cells b'.head (0 ∷ []) >>= λ cells. ok (record b' { cells = cells }))
        (ensure_lem alloc b 1 v (omega arith))
        λ d r.
          let w = r.valid in
          let k = d.head - d.tail in
          let e : d.tail + k ≡ d.head = omega (arith, w.ends) in
          let cells' = memcpy d.cells d.head (0 ∷ []) in
          let fit : d.head + 1 ≤ length d.cells = omega (arith, w.memory, r.room) in
          rw (store-ok d.cells d.head (0 ∷ []) fit) (
            record {
              ends = w.ends;
              within = w.within;
              memory = length-memcpy d.cells d.head (0 ∷ []) fit ∙ w.memory;
              positive = w.positive;
              limited = w.limited;
            },
            sym (take-drop-take k d.tail d.head cells' (omega (arith, e)))
                ∙ ap (λ t. take k (drop d.tail t)) (take-written d (0 ∷ []) w r.room)
                ∙ take-drop-take k d.tail d.head d.cells (omega (arith, e))
                ∙ r.same,
          ))

-- Nothing is held, the memory is cleared, and both ends stand at its beginning.
abbrev pub IsReset : Buffer → Buffer → Type 0
IsReset b b' =
    IsValid b'
    × (contents b' ≡ [])
    × (b'.cells ≡ replicate b.data_size 0)
    × (b'.tail ≡ 0)
    × (b'.head ≡ 0)
    × (b'.data_size ≡ b.data_size)

-- buffer_reset on a valid buffer returns a valid buffer that holds nothing, with its memory
-- cleared and both ends at the beginning.
pub reset_lem : (b : Buffer) → IsValid b → Returns (reset b) (IsReset b)
unfolding reset
reset_lem b v =
    let n = length-replicate {0} {A = ℕ} b.data_size 0 in
    let fits : 0 + length (replicate {A = ℕ} b.data_size 0) ≤ length b.cells =
      omega (arith, n, v.memory) in
    rw (check-IsValid b v, store-ok b.cells 0 (replicate b.data_size 0) fits)
      (
        record {
          ends = omega arith;
          within = omega arith;
          memory = length-memcpy b.cells 0 (replicate b.data_size 0) fits ∙ v.memory;
          positive = v.positive;
          limited = v.limited;
        },
        refl,
        (let e =
              drop_all (0 + length (replicate {A = ℕ} b.data_size 0)) b.cells
                (omega (arith, n, v.memory)) in
            rw e (append-nil _)),
        refl,
        refl,
        refl,
      )
