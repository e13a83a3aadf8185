-- ===== src/Buffer/Total.antt =====
-- src/buffer.c: when a request for room does not end the process.
use crypti.Run.{Run, ok, die, fault, stuck, ◌>>=◌, Ensures, Returns, bind-ne-die}
use crypti.Base.{
  ℕ, zero, suc, ◌+◌, ◌-◌, ◌*◌, ◌%◌, ◌^◌, ◌≤◌, ◌<◌, ◌≡◌, ◌≢◌, inl, inr, false, none, List, [], refl,
  arith, ltb, leb, ltb→lt, Bool-cases, Option-cases,
}
use crypti.Buffer.{
  Buffer, Allocator, grow, ensure, xmalloc, xrealloc, buffer_new, buffer_init_size, ssize_max,
  sub64, add64, space,
}
use crypti.Buffer.Valid.{
  IsValid, contents, load-ok, store-ok, size-IsValid, length-contents, grow_lem,
}

-- The allocator never runs out.
abbrev pub Grants : Allocator → Type 0
Grants alloc = (old : List ℕ) (n : ℕ) → n ≤ ssize_max → alloc.realloc old n ≢ none

xrealloc_total :
    (alloc : Allocator) (old : List ℕ) (k : ℕ)
    → Grants alloc
    → k ≤ ssize_max
    → Returns (xrealloc alloc old k) (λ _. Unit)
unfolding xrealloc
xrealloc_total alloc old k grants h = elim (Option-cases (alloc.realloc old k)) [
  | inl no_memory ↦ absurd (grants old k h no_memory)
  | inr (m, e) ↦ rw (e, xrealloc) tt
]

pub grow_total :
    (f n head size : ℕ)
    → 0 < n
    → head ≤ n
    → 2 * n ≤ ssize_max
    → 2 * (head + size) ≤ ssize_max
    → grow f n head size ≢ die
unfolding grow
grow_total zero n head size p h m e = cc
grow_total (suc f) n head size p h m e =
    let d : n * 2 % 2 ^ 64 ≡ n * 2 = omega arith in
    let fits : ltb ssize_max (n * 2) ≡ false = ground arith in
    elim (Bool-cases (ltb (sub64 (n * 2) head) size)) [
      | inl less ↦
          let short : sub64 (n * 2) head < size = ltb→lt _ _ less in
          rw (d, fits, less)
            (grow_total f (n * 2) head size (omega arith) (omega arith) (omega arith) e)
      | inr enough ↦ rw (d, fits, enough) (cc)
    ]

Returns-bind_ne {ℓ κ} :
    {A : Type ℓ} {B : Type κ} (m : Run A) (f : A → B)
    → Returns m (λ _. Unit)
    → (m >>= λ a. ok (f a)) ≢ die
Returns-bind_ne (ok a) f h = cc
Returns-bind_ne die f h = absurd h
Returns-bind_ne fault f h = absurd h
Returns-bind_ne stuck f h = absurd h

-- With an allocator that never runs out, a request of moderate size on a buffer that may grow
-- does not end the process.
pub ensure_total :
    (alloc : Allocator) (b : Buffer) (size : ℕ)
    → IsValid b
    → Grants alloc
    → b.static_flag ≡ false
    → 2 * b.data_size ≤ ssize_max
    → 2 * (b.head + size) ≤ ssize_max
    → ensure alloc b size ≢ die
unfolding ensure
ensure_total alloc b size v grants dynamic m e =
    let d = size-IsValid b v in
    let len = length-contents b v in
    elim (Bool-cases (ltb (space b) size)) [
      | inr room ↦ rw room (cc)
      | inl full ↦ elim (Bool-cases (leb size (add64 b.tail (space b)))) [
        | inl fits ↦
            rw
              (
                full,
                fits,
                d,
                load-ok b.cells b.tail (b.head - b.tail)
                    (omega (arith, v.memory, v.ends, v.within)),
                store-ok b.cells 0 (contents b) (omega (arith, len, v.memory, v.within)),
              )
              (cc)
        | inr over ↦
            rw (full, over, dynamic)
              (bind-ne-die _ (grow 64 b.data_size b.head size) _
                (grow_lem 64 b.data_size b.head size 0 v.positive v.limited v.within (omega arith)
                  (omega (arith, v.positive)))
                (grow_total 64 b.data_size b.head size v.positive v.within m e)
                λ k g.
                  Returns-bind_ne (xrealloc alloc b.cells k) _
                    (xrealloc_total alloc b.cells k grants g.1))
      ]
    ]

-- A new buffer is empty.
pub buffer_new_lem :
    (alloc : Allocator) → Ensures (buffer_new alloc) (λ b. IsValid b × (contents b ≡ []))
unfolding buffer_new xmalloc
buffer_new_lem alloc = elim (Option-cases (alloc.malloc buffer_init_size)) [
  | inl e ↦ rw (e, xmalloc) tt
  | inr (m, e) ↦
      let size = alloc.length-malloc buffer_init_size m e in
      rw (e, xmalloc)
        (
          record {
            ends = omega arith;
            within = omega arith;
            memory = size;
            positive = omega arith;
            limited = omega arith;
          },
          refl,
        )
]
