-- ===== src/Lexer/Numbers.antt =====
-- src/lex.c: numbers in the three bases.
use crypti.Run.{ok}
use crypti.Base.{
  ℕ, suc, ◌+◌, ◌*◌, ◌≤◌, ◌<◌, ◌≡◌, refl, ap, ap₂, ◌∙◌, Bool, true, false, some, List, [], ◌∷◌, ◌++◌,
  arith, ltb, ◌==◌, if◌then◌else◌,
}
use crypti.Token.{tok_var}
use crypti.Keyword.{KeywordTable}
use crypti.Scanner.{Lexer, fgetc, is_blank, is_digit, is_alpha, to_lower, convert_to_digit_base}
use crypti.Lexer.{
  Mpl, number, digits_loop, get_digit_base, get_digit, start_of, dispatch, get_next_token,
}
use crypti.Lexer.Words.{not_blank}

-- A digit, and whether it is written as a capital where it is a letter.
abbrev pub Digit : Type 0
Digit = ℕ × Bool

pub digit_char : Digit → ℕ
digit_char (d, capital) = if ltb d 10 then 48 + d else if capital then 55 + d else 87 + d

pub digits_text : List Digit → List ℕ
digits_text [] = []
digits_text (d ∷ ds) = digit_char d ∷ digits_text ds

-- What the digits stand for, behind a number that was read before them.
pub positional : ℕ → ℕ → List Digit → ℕ
positional base n [] = n
positional base n (d ∷ ds) = positional base (n * base + d.0) ds

abbrev pub AllDigits : ℕ → List Digit → Type 0
AllDigits base [] = Unit
AllDigits base (d ∷ ds) = (d.0 < base) × AllDigits base ds

-- The letter behind the 0 of a hexadecimal number.
pub hex_mark : Bool → ℕ
hex_mark capital = if capital then b'X' else b'x'

-- What the lexer relies on in libmpl: its numbers are sums and products of what they are set to.
pub record MplLaws {N : Type 0} (mpl : Mpl N) (value : N → ℕ) : Type 0 where
  pub set_law : (n : ℕ) → value (mpl.mpl_set_uint n) ≡ n
  pub mul_law : (a b : N) → value (mpl.mpl_mul a b) ≡ value a * value b
  pub add_law : (a b : N) → value (mpl.mpl_add a b) ≡ value a + value b

convert-digit_char :
    (base : ℕ) (d : Digit)
    → d.0 < base
    → base ≤ 16
    → convert_to_digit_base (digit_char d) base ≡ some d.0
unfolding convert_to_digit_base digit_char is_digit is_alpha to_lower
convert-digit_char base (d, true) h k = ground arith
convert-digit_char base (d, false) h k = ground arith

module _ {N : Type 0} (mpl : Mpl N) (value : N → ℕ) (laws : MplLaws mpl value) (keys : KeywordTable)
    (realloc_ok : ℕ → Bool) where
  abbrev step : ℕ → N → ℕ → N
  step base mp d = mpl.mpl_add (mpl.mpl_mul mp (mpl.mpl_set_uint base)) (mpl.mpl_set_uint d)

  abbrev digits_from : ℕ → N → Lexer → N × Lexer
  digits_from base mp st = digits_loop mpl keys realloc_ok base mp st.peek st.input

  digits_from-step :
      (base : ℕ) (mp : N) (c d : ℕ) (input : List ℕ)
      → convert_to_digit_base c base ≡ some d
      → digits_from base mp (record { peek = c; input = input })
        ≡ digits_from base (step base mp d) (fgetc input)
  unfolding digits_loop fgetc convert_to_digit_base is_digit is_alpha to_lower
  digits_from-step base mp c d [] e = rw (e, digits_loop) refl
  digits_from-step base mp c d (x ∷ input) e = rw (e, digits_loop) refl

  digits_from_lem :
      (base : ℕ) (ds : List Digit) (mp : N) (rest : List ℕ)
      → base ≤ 16
      → AllDigits base ds
      → (out : N) × (digits_from base mp (fgetc (digits_text ds ++ b' ' ∷ rest))
          ≡ (out, record { peek = b' '; input = rest }))
        × (value out ≡ positional base (value mp) ds)
  unfolding digits_text positional fgetc digits_loop convert_to_digit_base is_digit is_alpha
      to_lower
  digits_from_lem base [] mp [] k w = (mp, refl, refl)
  digits_from_lem base [] mp (x ∷ rest) k w = (mp, refl, refl)
  digits_from_lem base (d ∷ ds) mp rest k w =
      let one =
        digits_from-step base mp (digit_char d) d.0 (digits_text ds ++ b' ' ∷ rest)
          (convert-digit_char base d w.0 k) in
      let (out, e, v) = digits_from_lem base ds (step base mp d.0) rest k w.1 in
      let stepped : value (step base mp d.0) ≡ value mp * base + d.0 =
        laws.add_law _ _
        ∙ ap₂ (λ a b. a + b) (laws.mul_law _ _ ∙ ap (λ b. value mp * b) (laws.set_law base))
            (laws.set_law d.0) in
      (out, one ∙ e, v ∙ ap (λ n. positional base n ds) stepped)

  get_digit_base_lem :
      (base : ℕ) (ds : List Digit) (rest : List ℕ)
      → base ≤ 16
      → AllDigits base ds
      → (out : N) × (get_digit_base mpl keys realloc_ok base (fgetc (digits_text ds ++ b' ' ∷ rest))
          ≡ (out, record { peek = b' '; input = rest }))
        × (value out ≡ positional base 0 ds)
  unfolding get_digit_base
  get_digit_base_lem base ds rest k w =
      let (out, e, v) = digits_from_lem base ds (mpl.mpl_set_uint 0) rest k w in
      (out, e, v ∙ ap (λ n. positional base n ds) (laws.set_law 0))

  -- The number at the beginning of a text is read, up to the blank behind it.
  abbrev pub Reads : ℕ → List ℕ → List ℕ → ℕ → Type 0
  Reads fuel text rest n =
      (out : N) × (get_next_token mpl keys realloc_ok (suc fuel) (fgetc (text ++ b' ' ∷ rest))
        ≡ ok ((tok_var, number out), record { peek = b' '; input = rest }))
      × (value out ≡ n)

  digit_token :
      (fuel c : ℕ) (input : List ℕ)
      → is_digit c ≡ true
      → get_next_token mpl keys realloc_ok (suc fuel) (record { peek = c; input = input })
        ≡ ok (get_digit mpl keys realloc_ok c input)
  unfolding get_next_token dispatch start_of
  digit_token fuel c input h =
      let blank : is_blank c ≡ false = (unfold is_digit is_blank in ground arith) in
      rw (not_blank c input blank, get_next_token, h) refl

  decimal-Reads :
      (fuel : ℕ) (d : Digit) (ds : List Digit) (rest : List ℕ)
      → 0 < d.0
      → AllDigits 10 (d ∷ ds)
      → Reads fuel (digits_text (d ∷ ds)) rest (positional 10 0 (d ∷ ds))
  unfolding get_digit digits_text fgetc
  decimal-Reads fuel d ds rest h w =
      let digit : is_digit (digit_char d) ≡ true =
        (unfold is_digit digit_char in ground (arith, w.0)) in
      let nonzero : (digit_char d == b'0') ≡ false = (unfold digit_char in ground (arith, w.0)) in
      let (out, e, v) = get_digit_base_lem 10 (d ∷ ds) rest (omega arith) w in
      (
        out,
        digit_token fuel (digit_char d) (digits_text ds ++ b' ' ∷ rest) digit
            ∙ rw (nonzero, get_digit) (ap (λ r. ok ((tok_var, number r.0), r.1)) e),
        v,
      )

  octal_apart :
      (ds : List Digit) (rest : List ℕ)
      → AllDigits 8 ds
      → (to_lower (fgetc (digits_text ds ++ b' ' ∷ rest)).peek == b'x') ≡ false
  unfolding to_lower digits_text fgetc digit_char
  octal_apart [] rest w = refl
  octal_apart (d ∷ ds) rest w = ground (arith, w.0)

  octal-Reads :
      (fuel : ℕ) (ds : List Digit) (rest : List ℕ)
      → AllDigits 8 ds
      → Reads fuel (b'0' ∷ digits_text ds) rest (positional 8 0 ds)
  unfolding get_digit fgetc
  octal-Reads fuel ds rest w =
      let (out, e, v) = get_digit_base_lem 8 ds rest (omega arith) w in
      (
        out,
        digit_token fuel b'0' (digits_text ds ++ b' ' ∷ rest) (unfold is_digit in refl)
            ∙ rw (octal_apart ds rest w, get_digit) (ap (λ r. ok ((tok_var, number r.0), r.1)) e),
        v,
      )

  hexadecimal-Reads :
      (fuel : ℕ) (capital : Bool) (ds : List Digit) (rest : List ℕ)
      → AllDigits 16 ds
      → Reads fuel (b'0' ∷ hex_mark capital ∷ digits_text ds) rest (positional 16 0 ds)
  unfolding get_digit fgetc to_lower hex_mark
  hexadecimal-Reads fuel true ds rest w =
      let (out, e, v) = get_digit_base_lem 16 ds rest (omega arith) w in
      (
        out,
        digit_token fuel b'0' (b'X' ∷ digits_text ds ++ b' ' ∷ rest) (unfold is_digit in refl)
            ∙ ap (λ r. ok ((tok_var, number r.0), r.1)) e,
        v,
      )
  hexadecimal-Reads fuel false ds rest w =
      let (out, e, v) = get_digit_base_lem 16 ds rest (omega arith) w in
      (
        out,
        digit_token fuel b'0' (b'x' ∷ digits_text ds ++ b' ' ∷ rest) (unfold is_digit in refl)
            ∙ ap (λ r. ok ((tok_var, number r.0), r.1)) e,
        v,
      )

  -- Where libmpl adds and multiplies, get_next_token reads decimal digits that do not begin with
  -- 0, octal digits behind 0 and hexadecimal digits, small or capital, behind 0x or 0X, each up to
  -- a blank, as the number they stand for in that base.
  pub get_next_token-number :
      (fuel : ℕ) (d : Digit) (ds octal hexadecimal : List Digit) (capital : Bool) (rest : List ℕ)
      → 0 < d.0
      → AllDigits 10 (d ∷ ds)
      → AllDigits 8 octal
      → AllDigits 16 hexadecimal
      → Reads fuel (digits_text (d ∷ ds)) rest (positional 10 0 (d ∷ ds))
        × Reads fuel (b'0' ∷ digits_text octal) rest (positional 8 0 octal)
        × Reads fuel
            (b'0' ∷ hex_mark capital ∷ digits_text hexadecimal)
            rest
            (positional 16 0 hexadecimal)
  get_next_token-number fuel d ds octal hexadecimal capital rest positive w10 w8 w16 = (
    decimal-Reads fuel d ds rest positive w10,
    octal-Reads fuel octal rest w8,
    hexadecimal-Reads fuel capital hexadecimal rest w16,
  )
