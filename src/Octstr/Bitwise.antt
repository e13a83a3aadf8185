-- ===== src/Octstr/Bitwise.antt =====
-- src/octstr.c: what the bitwise operators leave in their destination, which may be an argument.
use Prim.Native.Nat.{bit_and-bitwise, bit_or-bitwise, bit_xor-bitwise}
use crypti.Run.{◌>>=◌, Ensures, Ensures-bind, Ensures-map}
use crypti.Base.{
  ℕ, zero, suc, ◌+◌, ◌^◌, ◌<◌, ◌≤◌, ◌≡◌, refl, sym, ap, ◌∙◌, ◌≢◌, inl, inr, true, false, List, [],
  ◌∷◌, ◌++◌, map, append-nil, append_assoc, arith, ltb, ◌==◌, if◌then◌else◌, ==_iff, Bool-cases,
  length, get_or, take, take_all,
}
use crypti.Buffer.{Buffer, Allocator, Store, set_buffer, buffer_size, buffer_new, putc, copy}
use crypti.Buffer.Valid.{IsValid, contents, size-IsValid, length-contents}
use crypti.Buffer.Contents.{Appended, putc-Appended}
use crypti.Buffer.Total.{buffer_new_lem}
use crypti.Buffer.Copy.{Replaced, copy-Replaced}
use crypti.Str.{str_copy}
use crypti.Octstr.{
  BitOp, op_and, op_or, op_xor, combine, leftover, bitwise_bytes, put_each, first_turns,
  second_turns, to_int, bitwise_ordered, octstr_bitwise,
}

-- The byte at an index, 0 behind the end.
abbrev pub byte_at : List ℕ → ℕ → ℕ
byte_at bytes i = get_or bytes i 0

leftover-combine : (op : BitOp) (y : ℕ) → leftover op y ≡ combine op 0 y
unfolding leftover combine
leftover-combine op_and y = simp bit_and-bitwise refl
leftover-combine op_or y = simp bit_or-bitwise refl
leftover-combine op_xor y = simp bit_xor-bitwise refl

put_each_lem :
    (alloc : Allocator) (cs : List ℕ) (b : Buffer)
    → IsValid b
    → Ensures (put_each alloc b cs) (Appended b cs)
unfolding put_each
put_each_lem alloc [] b v = record { valid = v; holds = sym (append-nil (contents b)) }
put_each_lem alloc (c ∷ cs) b v =
    Ensures-bind (Appended b (c ∷ [])) (Appended b (c ∷ cs)) (putc alloc b c)
      (λ d. put_each alloc d cs) (putc-Appended alloc b v c)
      λ d e.
        Ensures-map (Appended d cs) (Appended b (c ∷ cs)) (put_each alloc d cs)
          (put_each_lem alloc cs d e.valid)
          λ f g. record {
            valid = g.valid;
            holds = g.holds ∙ ap (λ l. l ++ cs) e.holds ∙ append_assoc (contents b) (c ∷ []) cs;
          }

nothing : (op : BitOp) → combine op 0 0 ≡ 0
unfolding combine
nothing op_and = refl
nothing op_or = refl
nothing op_xor = refl

length-leftover : (op : BitOp) (b : List ℕ) → length (map (leftover op) b) ≡ length b
length-leftover op [] = refl
length-leftover op (y ∷ b) = omega (arith, length-leftover op b)

byte_at-leftover :
    (op : BitOp) (b : List ℕ) (i : ℕ) → byte_at (map (leftover op) b) i ≡ combine op 0 (byte_at b i)
byte_at-leftover op [] i = sym (nothing op)
byte_at-leftover op (y ∷ b) zero = leftover-combine op y
byte_at-leftover op (y ∷ b) (suc i) = byte_at-leftover op b i

-- Each byte is that of both, the shorter one as if zero bytes stood behind it.
bitwise_bytes_lem :
    (op : BitOp) (a b : List ℕ)
    → length a ≤ length b
    → (length (bitwise_bytes op a b) ≡ length b)
      × ((i : ℕ) → byte_at (bitwise_bytes op a b) i ≡ combine op (byte_at a i) (byte_at b i))
unfolding bitwise_bytes
bitwise_bytes_lem op [] b h = (length-leftover op b, byte_at-leftover op b)
bitwise_bytes_lem op (x ∷ a) [] h = absurd (omega arith)
bitwise_bytes_lem op (x ∷ a) (y ∷ b) h =
    let (len, at) = bitwise_bytes_lem op a b (omega arith) in (omega (arith, len), both at)
  where
    both :
        ((i : ℕ) → byte_at (bitwise_bytes op a b) i ≡ combine op (byte_at a i) (byte_at b i))
        → (i : ℕ)
        → byte_at (bitwise_bytes op (x ∷ a) (y ∷ b)) i
          ≡ combine op (byte_at (x ∷ a) i) (byte_at (y ∷ b) i)
    both at zero = refl
    both at (suc i) = at i

-- A valid destination with a number of bytes, each as both arguments give it, and the other
-- strings as they were.
pub record Combined (op : BitOp) (s : Store) (tmp dst short long : ℕ) (t : Store) : Type 0 where
  pub valid : IsValid (t dst)
  pub size : length (contents (t dst)) ≡ length (contents (s long))
  pub bytes :
      (i : ℕ)
      → byte_at (contents (t dst)) i
        ≡ combine op (byte_at (contents (s short)) i) (byte_at (contents (s long)) i)
  pub others : (j : ℕ) → j ≢ dst → j ≢ tmp → t j ≡ s j

contents-size : (b : Buffer) → IsValid b → buffer_size b ≡ length (contents b)
contents-size b v = omega (arith, size-IsValid b v, length-contents b v)

-- Lengths that fit an `int` are not changed by the narrowing.
turns_lem :
    (xs ys : List ℕ)
    → length xs ≤ length ys
    → length ys < 2 ^ 31
    → (take (first_turns (length xs)) xs ≡ xs)
      × (take (first_turns (length xs) + second_turns (length xs) (length ys)) ys ≡ ys)
unfolding first_turns second_turns to_int
turns_lem xs ys le short = (take_all _ xs (omega arith), take_all _ ys (omega arith))

whole_lem :
    (alloc : Allocator) (s : Store) (tmp dst a b : ℕ) (op : BitOp)
    → IsValid (s dst)
    → tmp ≢ dst
    → length (contents (s a)) ≤ length (contents (s b))
    → Ensures
        (do
          fresh ← buffer_new alloc
          copy ← put_each alloc fresh (bitwise_bytes op (contents (s a)) (contents (s b)))
          str_copy alloc (set_buffer s tmp copy) dst tmp)
        (Combined op s tmp dst a b)
unfolding str_copy
whole_lem alloc s tmp dst a b op v apart le =
    let bytes = bitwise_bytes op (contents (s a)) (contents (s b)) in
    let (len, at) = bitwise_bytes_lem op (contents (s a)) (contents (s b)) le in
    Ensures-bind (λ f. IsValid f × (contents f ≡ [])) (Combined op s tmp dst a b) (buffer_new alloc)
      _ (buffer_new_lem alloc)
      λ f e.
        Ensures-bind (Appended f bytes) (Combined op s tmp dst a b) (put_each alloc f bytes) _
          (put_each_lem alloc bytes f e.0)
          λ c g.
            let s' = set_buffer s tmp c in
            let self : s' tmp ≡ c =
              (let on : (tmp == tmp) ≡ true = (==_iff tmp tmp).1 refl in rw on refl) in
            let kept = λ (j : ℕ) (ne : j ≢ tmp).
              (let off : (tmp == j) ≡ false = ground arith in
                let r : s' j ≡ s j = rw off refl in r) in
            let w : IsValid (s' tmp) = (rw self g.valid) in
            let held : contents (s' tmp) ≡ bytes =
              ap contents self ∙ g.holds ∙ ap (λ l. l ++ bytes) e.1 in
            let n = buffer_size (s' tmp) in
            let size : n ≡ length (contents (s' tmp)) =
              omega (arith, size-IsValid (s' tmp) w, length-contents (s' tmp) w) in
            Ensures-map (Replaced s' dst (take n (contents (s' tmp)))) (Combined op s tmp dst a b)
              (copy alloc s' dst tmp n)
              (copy-Replaced alloc s' dst tmp n (rw (kept dst (λ q. apart (sym q))) v) w apart
                (omega (arith, size)))
              λ t r.
                let whole : contents (t dst) ≡ bytes =
                  r.holds ∙ take_all n (contents (s' tmp)) (omega (arith, size)) ∙ held in
                record {
                  valid = r.valid;
                  size = ap length whole ∙ len;
                  bytes = λ i. ap (λ l. byte_at l i) whole ∙ at i;
                  others = λ j nd nt. r.others j nd ∙ kept j nt;
                }

bitwise_ordered_lem :
    (alloc : Allocator) (s : Store) (tmp dst a b : ℕ) (op : BitOp)
    → IsValid (s dst)
    → IsValid (s a)
    → IsValid (s b)
    → tmp ≢ dst
    → length (contents (s a)) ≤ length (contents (s b))
    → length (contents (s b)) < 2 ^ 31
    → Ensures (bitwise_ordered alloc s tmp dst a b op) (Combined op s tmp dst a b)
unfolding bitwise_ordered str_copy
bitwise_ordered_lem alloc s tmp dst a b op v va vb apart le short =
    let la = contents-size (s a) va in
    let lb = contents-size (s b) vb in
    let (ta, tb) = turns_lem (contents (s a)) (contents (s b)) le short in
    rw (la, lb, bitwise_ordered, ta, tb) (whole_lem alloc s tmp dst a b op v apart le)

-- octstr_bitwise on valid octet strings whose arguments are shorter than 2 ^ 31 bytes either ends
-- the process or leaves in the destination, which may be an argument, a valid octet string as long
-- as the longer argument, whose byte at each index is the bitwise combination of the bytes of both
-- arguments there, a byte behind the end of one counting as zero, and changes no other octet
-- string but its local copy.
pub octstr_bitwise-Combined :
    (alloc : Allocator) (s : Store) (tmp dst a b : ℕ) (op : BitOp)
    → IsValid (s dst)
    → IsValid (s a)
    → IsValid (s b)
    → tmp ≢ dst
    → length (contents (s a)) < 2 ^ 31
    → length (contents (s b)) < 2 ^ 31
    → Ensures (octstr_bitwise alloc s tmp dst a b op) (
        if ltb (length (contents (s b))) (length (contents (s a)))
        then Combined op s tmp dst b a
        else Combined op s tmp dst a b)
unfolding octstr_bitwise
octstr_bitwise-Combined alloc s tmp dst a b op v va vb apart sa sb =
    let la = contents-size (s a) va in
    let lb = contents-size (s b) vb in
    rw (la, lb, octstr_bitwise)
      (elim (Bool-cases (ltb (length (contents (s b))) (length (contents (s a))))) [
        | inl e ↦ rw e (bitwise_ordered_lem alloc s tmp dst b a op v vb va apart (ground arith) sa)
        | inr e ↦ rw e (bitwise_ordered_lem alloc s tmp dst a b op v va vb apart (ground arith) sb)
      ])
