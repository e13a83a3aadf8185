-- ===== src/Buffer/Tests.antt =====
-- Buffers at concrete bytes: an allocator that never runs out, and the theorems applied to small
-- buffers.
use crypti.Run.{die, Ensures, Returns}
use crypti.Base.{
  ℕ, ◌-◌, ◌<◌, ◌≡◌, refl, sym, ap, ◌∙◌, false, some, List, [], ◌∷◌, ◌++◌, arith, ◌==◌,
  if◌then◌else◌, length, take, replicate, length-append, length-replicate, take-append,
}
use crypti.Buffer.{Buffer, Allocator, Store, check, ensure, put, append}
use crypti.Buffer.Valid.{IsValid, contents, HasRoom, ensure_lem}
use crypti.Buffer.Total.{Grants}
use crypti.Buffer.Contents.{Appended, put-Appended, put_returns}
use crypti.Buffer.Copy.{Replaced, append-Replaced}
use crypti.Buffer.Words.{get_u32_le}
use crypti.Buffer.Words.RoundTrip.{get_u32_le_overrun}

pub some-inj : (x y : List ℕ) → some x ≡ some y → x ≡ y
some-inj x y e = cc

-- New memory is zero.
abbrev pub zero_alloc : Allocator
zero_alloc = record {
  malloc = λ n. some (replicate n 0);
  length-malloc =
      λ n m e. ap length (sym (some-inj (replicate n 0) m e)) ∙ length-replicate {0} {A = ℕ} n 0;
  realloc = λ old n. some (old ++ replicate (n - length old) 0);
  realloc-keeps = λ old n m e h.
      let f = sym (some-inj (old ++ replicate (n - length old) 0) m e) in
      (
        ap length f
            ∙ omega (
              arith,
              length-append old (replicate (n - length old) 0),
              length-replicate {0} {A = ℕ} (n - length old) 0,
            ),
        ap (take (length old)) f ∙ take-append (length old) old (replicate (n - length old) 0) refl,
      );
}

zero_alloc-Grants : Grants zero_alloc
zero_alloc-Grants old n h = cc

-- Eight bytes of memory, of which the second and the third are held.
abbrev pub two_held : Buffer
two_held = record {
  head = 3;
  tail = 1;
  cells = 9 ∷ b'a' ∷ b'b' ∷ 7 ∷ 7 ∷ 7 ∷ 7 ∷ 7 ∷ [];
  data_size = 8;
  static_flag = false;
}

pub two_held-IsValid : IsValid two_held
two_held-IsValid = record {
  ends = omega arith;
  within = omega arith;
  memory = omega arith;
  positive = omega arith;
  limited = omega arith;
}

abbrev pub empty_held : Buffer
empty_held = record two_held { head = 1 }

pub empty_held-IsValid : IsValid empty_held
empty_held-IsValid = record {
  ends = omega arith;
  within = omega arith;
  memory = omega arith;
  positive = omega arith;
  limited = omega arith;
}

-- The first buffer is empty, all others hold two bytes.
abbrev pub pair : Store
pair i = if i == 0 then empty_held else two_held

ensure_lem_example : Ensures (ensure zero_alloc two_held 6) (HasRoom two_held 6)
ensure_lem_example = ensure_lem zero_alloc two_held 6 two_held-IsValid (omega arith)

put-Appended_example :
    Ensures
      (put zero_alloc two_held (1 ∷ 2 ∷ 3 ∷ 4 ∷ 5 ∷ 6 ∷ []))
      (Appended two_held (1 ∷ 2 ∷ 3 ∷ 4 ∷ 5 ∷ 6 ∷ []))
put-Appended_example =
    put-Appended zero_alloc two_held two_held-IsValid (1 ∷ 2 ∷ 3 ∷ 4 ∷ 5 ∷ 6 ∷ [])

put_returns_example :
    Returns (put zero_alloc two_held (replicate 9 1)) (Appended two_held (replicate 9 1))
put_returns_example =
    put_returns zero_alloc two_held (replicate 9 1) two_held-IsValid zero_alloc-Grants refl
      (omega arith) (omega (arith, length-replicate {0} {A = ℕ} 9 1))

append-Replaced_example :
    Ensures
      (append zero_alloc pair 1 1 2)
      (Replaced pair 1 (contents two_held ++ take 2 (contents two_held)))
append-Replaced_example = append-Replaced zero_alloc pair 1 1 2 two_held-IsValid two_held-IsValid

get_u32_le_overrun_example :
    Returns (get_u32_le two_held) λ r. (r.1.head < r.1.tail) × (check r.1 ≡ die)
get_u32_le_overrun_example =
    get_u32_le_overrun two_held two_held-IsValid (omega arith) (omega arith)

abbrev five_held : Buffer
five_held = record two_held { head = 6 }

five_held-IsValid : IsValid five_held
five_held-IsValid = record {
  ends = omega arith;
  within = omega arith;
  memory = omega arith;
  positive = omega arith;
  limited = omega arith;
}
