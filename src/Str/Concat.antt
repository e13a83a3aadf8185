-- ===== src/Str/Concat.antt =====
-- src/str.c and src/octstr.c: what a concatenation leaves, with the destination apart from its
-- arguments and with the destination as the first argument.
use crypti.Run.{ok, die, ◌>>=◌, Ensures, Ensures-bind, Ensures-map, Returns-Ensures}
use crypti.Base.{
  ℕ, ◌≡◌, refl, ap, ap₂, ◌∙◌, ◌≢◌, true, false, List, ◌++◌, arith, ◌==◌, ==_iff, length, take,
  replicate, take_all,
}
use crypti.Buffer.{Allocator, Store, set_buffer, buffer_size, buffer_zero, copy, append}
use crypti.Buffer.Valid.{IsValid, contents, size-IsValid, length-contents}
use crypti.Buffer.Cleared.{buffer_zero_lem}
use crypti.Buffer.Copy.{Replaced, append-Replaced, copy-Replaced, copy_self}
use crypti.Str.{str_copy, str_append_str, str_concat, octstr_append_octstr, octstr_concat}

module _ (alloc : Allocator) (s : Store) (dst : ℕ) where
  -- The bytes of another string.
  whole : (i : ℕ) → IsValid (s i) → take (buffer_size (s i)) (contents (s i)) ≡ contents (s i)
  whole i w =
      take_all (buffer_size (s i)) (contents (s i))
        (omega (arith, size-IsValid (s i) w, length-contents (s i) w))

  zero_step :
      (t : Store) (bytes : List ℕ)
      → Replaced s dst bytes t
      → Ensures (buffer_zero alloc (t dst) >>= λ d. ok (set_buffer t dst d)) (Replaced s dst bytes)
  zero_step t bytes r =
      Ensures-bind (λ d. IsValid d × (contents d ≡ contents (t dst))) (Replaced s dst bytes)
        (buffer_zero alloc (t dst)) (λ d. ok (set_buffer t dst d))
        (buffer_zero_lem alloc (t dst) r.valid)
        λ d e. record {
          valid = (let on : (dst == dst) ≡ true = (==_iff dst dst).1 refl in rw on e.0);
          holds = (let on : (dst == dst) ≡ true = (==_iff dst dst).1 refl in rw on (e.1 ∙ r.holds));
          others = λ j ne. (let off : (dst == j) ≡ false = ground arith in rw off (r.others j ne));
        }

  -- The second half of a concatenation, once the first argument's bytes stand in the destination.
  append_step :
      (t : Store) (first : List ℕ) (b : ℕ)
      → Replaced s dst first t
      → IsValid (s b)
      → b ≢ dst
      → Ensures
          (append alloc t dst b (buffer_size (t b)))
          (Replaced s dst (first ++ contents (s b)))
  append_step t first b r w apart =
      let same = r.others b apart in
      Ensures-map (Replaced t dst (contents (t dst) ++ take (buffer_size (t b)) (contents (t b))))
        (Replaced s dst (first ++ contents (s b))) (append alloc t dst b (buffer_size (t b)))
        (append-Replaced alloc t dst b (buffer_size (t b)) r.valid (rw same w))
        λ u q. record {
          valid = q.valid;
          holds =
              q.holds
              ∙ ap₂ ◌++◌ r.holds (ap (λ x. take (buffer_size x) (contents x)) same ∙ whole b w);
          others = λ j ne. q.others j ne ∙ r.others j ne;
        }

  str_append_step :
      (t : Store) (first : List ℕ) (b : ℕ)
      → Replaced s dst first t
      → IsValid (s b)
      → b ≢ dst
      → Ensures (str_append_str alloc t dst b) (Replaced s dst (first ++ contents (s b)))
  unfolding str_append_str
  str_append_step t first b r w apart =
      Ensures-bind (Replaced s dst (first ++ contents (s b)))
        (Replaced s dst (first ++ contents (s b))) (append alloc t dst b (buffer_size (t b)))
        (λ u. buffer_zero alloc (u dst) >>= λ d. ok (set_buffer u dst d))
        (append_step t first b r w apart) λ u q. zero_step u (first ++ contents (s b)) q

  str_copy_step :
      (a : ℕ)
      → IsValid (s dst)
      → IsValid (s a)
      → a ≢ dst
      → Ensures (str_copy alloc s dst a) (Replaced s dst (contents (s a)))
  unfolding str_copy
  str_copy_step a v w apart = rw (whole a w) at (
      copy-Replaced alloc s dst a (buffer_size (s a)) v w apart
        (omega (arith, size-IsValid (s a) w, length-contents (s a) w)))

  -- str_concat into a string apart from both arguments either ends the process or gives their
  -- bytes one after the other, and changes no other string.
  pub str_concat-Replaced :
      (a b : ℕ)
      → IsValid (s dst)
      → IsValid (s a)
      → IsValid (s b)
      → a ≢ dst
      → b ≢ dst
      → Ensures (str_concat alloc s dst a b) (Replaced s dst (contents (s a) ++ contents (s b)))
  unfolding str_concat
  str_concat-Replaced a b v va vb na nb =
      Ensures-bind (Replaced s dst (contents (s a)))
        (Replaced s dst (contents (s a) ++ contents (s b))) (str_copy alloc s dst a)
        (λ t. str_append_str alloc t dst b) (str_copy_step a v va na)
        λ t r. str_append_step t (contents (s a)) b r vb nb

  -- octstr_concat into an octet string apart from both arguments either ends the process or gives
  -- their bytes one after the other; with the destination as the first argument its assertion
  -- fails.
  pub octstr_concat-Replaced :
      (a b : ℕ)
      → IsValid (s dst)
      → IsValid (s a)
      → IsValid (s b)
      → b ≢ dst
      → (a ≢ dst
          → Ensures
              (octstr_concat alloc s dst a b)
              (Replaced s dst (contents (s a) ++ contents (s b))))
        × (a ≡ dst → octstr_concat alloc s dst a b ≡ die)
  unfolding octstr_concat octstr_append_octstr
  octstr_concat-Replaced a b v va vb nb = (
    λ na.
        let off : (dst == a) ≡ false = ground arith in
        rw off (
          Ensures-bind (Replaced s dst (contents (s a)))
            (Replaced s dst (contents (s a) ++ contents (s b))) (str_copy alloc s dst a)
            (λ t. append alloc t dst b (buffer_size (t b))) (str_copy_step a v va na)
            λ t r. append_step t (contents (s a)) b r vb nb),
    λ e. (let on : (dst == a) ≡ true = ground arith in rw on),
  )

  -- str_concat with the destination as the first argument either ends the process or puts as many
  -- NUL bytes in place of the first argument as it has, and appends the second.
  pub str_concat_self :
      (b : ℕ)
      → IsValid (s dst)
      → IsValid (s b)
      → b ≢ dst
      → Ensures
          (str_concat alloc s dst dst b)
          (Replaced s dst (replicate (length (contents (s dst))) 0 ++ contents (s b)))
  unfolding str_concat str_copy
  str_concat_self b v vb nb =
      let n = length (contents (s dst)) in
      let len = length-contents (s dst) v in
      let e : buffer_size (s dst) ≡ n = omega (arith, size-IsValid (s dst) v, len) in
      Ensures-bind (Replaced s dst (replicate n 0))
        (Replaced s dst (replicate n 0 ++ contents (s b)))
        (copy alloc s dst dst (buffer_size (s dst))) (λ t. str_append_str alloc t dst b)
        (rw e (
          Returns-Ensures (Replaced s dst (replicate n 0)) (copy alloc s dst dst n)
            (copy_self alloc s dst n v (omega (arith, len, v.within)))))
        λ t r. str_append_step t (replicate n 0) b r vb nb
