-- ===== src/Buffer/Valid.antt =====
-- src/buffer.c: the invariant of a buffer, what it holds, and that `buffer_ensure` keeps both.
use native.Mathlib.Nat.{pow-suc}
use crypti.Run.{ok, ◌>>=◌, ◌>>◌, guard, Ensures, Ensures-bind, guard_lem}
use crypti.Base.{
  ℕ, zero, suc, ◌+◌, ◌-◌, ◌*◌, ◌%◌, ◌^◌, ◌≤◌, ◌<◌, ◌≡◌, refl, sym, ap, ◌∙◌, inl, inr, true, false,
  not, List, arith, ltb, leb, le→leb, Bool-cases, Option-cases, length, take, drop, length-take,
  length-drop, take-drop-take,
}
use crypti.Crypto.Stream.{memcpy}
use crypti.Crypto.Stream.Absorb.{length-memcpy, take-memcpy}
use crypti.Buffer.{
  Buffer, Allocator, check, load, store, grow, ensure, xrealloc, ssize_max, sub64, add64, space,
  buffer_size,
}

-- The memory has the size that is recorded, and the ends stand in order inside it.
pub record IsValid (b : Buffer) : Type 0 where
  pub ends : b.tail ≤ b.head
  pub within : b.head ≤ b.data_size
  pub memory : length b.cells ≡ b.data_size
  pub positive : 0 < b.data_size
  pub limited : b.data_size ≤ ssize_max

-- What the buffer holds.
abbrev pub contents : Buffer → List ℕ
contents b = take (b.head - b.tail) (drop b.tail b.cells)

pub check-IsValid : (b : Buffer) → IsValid b → check b ≡ ok tt
unfolding check
check-IsValid b v = ground arith

-- Accesses inside the memory.
pub load-ok :
    (cells : List ℕ) (off n : ℕ)
    → off + n ≤ length cells
    → load cells off n ≡ ok (take n (drop off cells))
unfolding load
load-ok cells off n h = rw (le→leb _ _ h)

pub store-ok :
    (cells : List ℕ) (off : ℕ) (src : List ℕ)
    → off + length src ≤ length cells
    → store cells off src ≡ ok (memcpy cells off src)
unfolding store
store-ok cells off src h = rw (le→leb _ _ h)

-- `size_t` arithmetic on the ends does not wrap.
pub size-IsValid : (b : Buffer) → IsValid b → buffer_size b ≡ b.head - b.tail
size-IsValid b v = omega (arith, v.ends, v.within, v.limited)

-- Enough doublings are allowed for: the loop ends with a size that serves, or the process ends.
pub grow_lem :
    (f n head size lo : ℕ)
    → 0 < n
    → n ≤ ssize_max
    → head ≤ n
    → lo ≤ n
    → 2 ^ 63 ≤ n * 2 ^ f
    → Ensures (grow f n head size) (λ k. (lo ≤ k) × (k ≤ ssize_max) × (head + size ≤ k))
unfolding grow
grow_lem zero n head size lo p l h m e = omega arith
grow_lem (suc f) n head size lo p l h m e =
    let doubled = n * 2 % 2 ^ 64 in
    elim (Bool-cases (ltb ssize_max doubled)) [
      | inl over ↦ rw over tt
      | inr fits ↦
          let le : doubled ≤ ssize_max = ground arith in
          let d : doubled ≡ n * 2 = omega arith in
          elim (Bool-cases (ltb (sub64 doubled head) size)) [
            | inl less ↦
                rw (fits, less)
                  (grow_lem f doubled head size lo (omega arith) le (omega arith) (omega arith)
                    (rw d (omega (arith, pow-suc 2 f, ap (λ (t : ℕ). n * t) (pow-suc 2 f)))))
            | inr enough ↦
                let room : size ≤ sub64 doubled head = ground arith in
                rw (fits, enough) (omega arith, le, omega arith)
          ]
    ]

-- The memory after a request: the contents are the same, and there is room behind the head.
pub record HasRoom (b : Buffer) (size : ℕ) (b' : Buffer) : Type 0 where
  pub valid : IsValid b'
  pub same : contents b' ≡ contents b
  pub room : b'.head + size ≤ b'.data_size

pub length-contents : (b : Buffer) → IsValid b → length (contents b) ≡ b.head - b.tail
length-contents b v = omega (
  arith,
  length-take (b.head - b.tail) (drop b.tail b.cells),
  length-drop b.tail b.cells,
  v.memory,
  v.ends,
  v.within,
)

module _ (alloc : Allocator) (b : Buffer) (size : ℕ) (v : IsValid b)
    (small : size ≤ ssize_max) where
  -- There is room as things stand.
  stays : ltb (space b) size ≡ false → (HasRoom b size) b
  stays h =
      let room : size ≤ space b = ground arith in
      record { valid = v; same = refl; room = omega (arith, v.within, v.limited) }

  -- The contents are moved to the front.
  moves :
      leb size (add64 b.tail (space b)) ≡ true
      → Ensures
          (do
            moved ← load b.cells b.tail (buffer_size b)
            cells ← store b.cells 0 moved
            ok (record b { cells = cells; head = sub64 b.head b.tail; tail = 0 }))
          (HasRoom b size)
  moves h =
      let len = length-contents b v in
      let fits : 0 + length (contents b) ≤ length b.cells = omega (arith, v.memory, v.within) in
      let front = take-memcpy b.cells 0 (contents b) fits in
      let d = size-IsValid b v in
      let enough : size ≤ add64 b.tail (space b) = ground arith in
      rw
        (
          d,
          load-ok b.cells b.tail (b.head - b.tail) (omega (arith, v.memory, v.ends, v.within)),
          store-ok b.cells 0 (contents b) fits,
        )
        (record {
          valid = record {
            ends = omega arith;
            within = omega (arith, v.within);
            memory = length-memcpy b.cells 0 (contents b) fits ∙ v.memory;
            positive = v.positive;
            limited = v.limited;
          };
          same =
              (let e : b.head - b.tail - 0 ≡ 0 + length (contents b) = omega (arith, len) in
                rw e front);
          room = omega (arith, v.within, v.ends, v.limited);
        })

  -- The memory is made larger.
  enlarges :
      Ensures
        (do
          guard (not b.static_flag)
          new_size ← grow 64 b.data_size b.head size
          cells ← xrealloc alloc b.cells new_size
          ok (record b { cells = cells; data_size = new_size }))
        (HasRoom b size)
  unfolding xrealloc
  enlarges =
      Ensures-bind (λ _. not b.static_flag ≡ true) (HasRoom b size) (guard (not b.static_flag)) _
        (guard_lem (not b.static_flag))
        λ _ _.
          Ensures-bind _ (HasRoom b size) (grow 64 b.data_size b.head size) _
            (grow_lem 64 b.data_size b.head size b.data_size v.positive v.limited v.within
              (omega arith) (omega (arith, v.positive)))
            λ k g. elim (Option-cases (alloc.realloc b.cells k)) [
              | inl no_memory ↦ rw (no_memory, xrealloc) tt
              | inr (m, e) ↦
                  let (len, keeps) =
                    alloc.realloc-keeps b.cells k m e (omega (arith, v.memory, g.0)) in
                  rw (e, xrealloc)
                    (record {
                      valid = record {
                        ends = v.ends;
                        within = omega (arith, g.2);
                        memory = len;
                        positive = omega (arith, v.positive, g.0);
                        limited = g.1;
                      };
                      same =
                          sym (
                            take-drop-take (b.head - b.tail) b.tail (length b.cells) m
                              (omega (arith, v.memory, v.ends, v.within)))
                          ∙ ap (λ c. take (b.head - b.tail) (drop b.tail c)) keeps;
                      room = g.2;
                    })
            ]

  -- For a request of at most SSIZE_MAX bytes on a valid buffer, buffer_ensure either ends the
  -- process or leaves a valid buffer with the same contents and that much room behind its write
  -- end, whether it moves the contents, enlarges the memory or does neither; no access is outside
  -- of the memory and the doubling loop ends.
  pub ensure_lem : Ensures (ensure alloc b size) (HasRoom b size)
  unfolding ensure
  ensure_lem = elim (Bool-cases (ltb (space b) size)) [
    | inr room ↦ rw room (stays room)
    | inl full ↦ elim (Bool-cases (leb size (add64 b.tail (space b)))) [
      | inl fits ↦ rw (full, fits) (moves fits)
      | inr over ↦ rw (full, over) enlarges
    ]
  ]
