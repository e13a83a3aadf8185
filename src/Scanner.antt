-- ===== src/Scanner.antt =====
-- src/lex.c: characters and the loops that read them. A `char` is a byte; the end of the file is
-- kept in `peek` as the byte 255, which is what `(char)EOF` is, so that a byte 255 ends the input
-- too. Letters and digits are those of the C locale.
use crypti.Run.{Run, ok, fault, stuck, ◌>>=◌}
use crypti.Base.{
  ℕ, zero, suc, ◌+◌, ◌-◌, ◌*◌, ◌^◌, Bool, ◌&&◌, ◌||◌, Option, none, some, List, [], ◌∷◌, ltb, leb,
  ◌==◌, if◌then◌else◌,
}

-- `peek` and what is left of `input`.
pub record Lexer : Type 0 where
  pub peek : ℕ
  pub input : List ℕ

abbrev pub eof : ℕ
eof = 255

-- `peek = fgetc(input)`
unfoldable pub fgetc : List ℕ → Lexer
fgetc [] = record { peek = eof; input = [] }
fgetc (c ∷ cs) = record { peek = c; input = cs }

unfoldable pub is_digit : ℕ → Bool
is_digit c = leb b'0' c && leb c b'9'

unfoldable pub to_lower : ℕ → ℕ
to_lower c = if leb b'A' c && leb c b'Z' then c + 32 else c

unfoldable pub is_alpha : ℕ → Bool
unfolding to_lower
is_alpha c = leb b'a' (to_lower c) && leb (to_lower c) b'z'

-- `isalnum(peek) || peek == '_'`
unfoldable pub is_word : ℕ → Bool
unfolding is_alpha is_digit
is_word c = is_alpha c || is_digit c || c == b'_'

-- `peek == ' ' || peek == '\t'`
unfoldable pub is_blank : ℕ → Bool
is_blank c = c == b' ' || c == 9

-- The loop at the beginning of `get_next_token`.
unfoldable pub skip_blanks : ℕ → List ℕ → Lexer
skip_blanks peek [] = if is_blank peek then fgetc [] else record { peek = peek; input = [] }
skip_blanks peek (c ∷ cs) =
    let rest = skip_blanks c cs in
    if is_blank peek then rest else record { peek = peek; input = c ∷ cs }

-- `skip_comment`
pub skip_comment : ℕ → List ℕ → Run Lexer
skip_comment zero input = stuck
skip_comment (suc fuel) input =
    let st = fgetc input in
    let rest = skip_comment fuel st.input in if st.peek == 10 then ok st else rest

-- `skip_multiline_comment`
unfoldable pub skip_multiline_comment : ℕ → List ℕ → Run Lexer
skip_multiline_comment zero input = stuck
skip_multiline_comment (suc fuel) input =
    let first = fgetc input in
    let second = fgetc first.input in
    let on_first = skip_multiline_comment fuel first.input in
    let on_second = skip_multiline_comment fuel second.input in
    if first.peek == b'*'
    then (if second.peek == b'/'
        then ok (record { peek = b' '; input = second.input })
        else on_second)
    else on_first

-- `convert_to_digit_base`
unfoldable pub convert_to_digit_base : ℕ → ℕ → Option ℕ
unfolding is_digit is_alpha
convert_to_digit_base ch base =
    if is_digit ch
    then (if ltb (ch - b'0') base then some (ch - b'0') else none)
    else if is_alpha ch
    then (if ltb (to_lower ch - b'a' + 10) base then some (to_lower ch - b'a' + 10) else none)
    else none

-- The size of a buffer that grows by 64 bytes where `used >= len - 1`.
unfoldable pub enlarge : ℕ → ℕ → ℕ
enlarge used len = if leb len (used + 1) then len + 64 else len

module _ {A : Type 0} where
  -- A write at `used` in a buffer of `len` bytes, where both are `int`: a size that has passed
  -- INT_MAX is undefined.
  unfoldable pub store : ℕ → ℕ → Run A → Run A
  store used len rest = if ltb used len && ltb len (2 ^ 31) then rest else fault

-- The loop of `get_identifier`: the name, the size of its buffer, and where it stops.
unfoldable pub word_loop : List ℕ → ℕ → ℕ → ℕ → Run (List ℕ × ℕ × Lexer)
word_loop [] peek used len =
    store used (enlarge used len) (ok (peek ∷ [], enlarge used len, fgetc []))
word_loop (c ∷ cs) peek used len =
    let rest =
      word_loop cs c (used + 1) (enlarge used len) >>= (λ (s, n, st). ok (peek ∷ s, n, st)) in
    store used (enlarge used len) (
      if is_word c then rest else ok (peek ∷ [], enlarge used len, record { peek = c; input = cs }))

-- The loop of `get_string`, which stops at a quotation mark or the end of the file.
pub string_loop : List ℕ → ℕ → ℕ → Run (List ℕ × ℕ × Lexer)
string_loop [] used len = ok ([], len, fgetc [])
string_loop (c ∷ cs) used len =
    let rest = string_loop cs (used + 1) (enlarge used len) >>= (λ (s, n, st). ok (c ∷ s, n, st)) in
    if c == eof || c == b'"'
    then ok ([], len, record { peek = c; input = cs })
    else store used (enlarge used len) rest

-- The bytes of a C string.
pub c_string : List ℕ → List ℕ
c_string [] = []
c_string (c ∷ cs) = if c == 0 then [] else c ∷ c_string cs

unfoldable pub size_of : List ℕ → ℕ
size_of [] = 0
size_of (c ∷ cs) = suc (size_of cs)

-- `ungetc(peek, input)`, which does nothing with the end of the file.
pub unget : ℕ → List ℕ → List ℕ
unget c input = if c == eof then input else c ∷ input

-- `get_hex_char`: the byte and what is left, or what is left where there is none.
pub get_hex_char : List ℕ → Option ℕ × List ℕ
get_hex_char input =
    let first = fgetc input in
    let second = fgetc first.input in
    elim (convert_to_digit_base first.peek 16) [
      | none ↦ (none, unget first.peek first.input)
      | some a ↦ elim (convert_to_digit_base second.peek 16) [
        | none ↦ (none, unget second.peek second.input)
        | some b ↦ (some (a * 16 + b), second.input)
      ]
    ]

-- `get_unescaped_char`
pub get_unescaped_char : ℕ → List ℕ → Option ℕ × List ℕ
get_unescaped_char c input =
    let escape = fgetc input in
    if c == b'\\'
    then (if escape.peek == b'x'
        then get_hex_char escape.input
        else (some escape.peek, escape.input))
    else (some c, input)

-- The loop of `get_octstring`; `none` where an escape is wrong.
pub octstring_loop : ℕ → Lexer → ℕ → ℕ → Run (Option (List ℕ) × Lexer)
octstring_loop zero st used len = stuck
octstring_loop (suc fuel) st used len =
    let (o, input) = get_unescaped_char st.peek st.input in
    let rest = octstring_loop fuel (fgetc input) (used + 1) (enlarge used len) in
    if st.peek == eof || st.peek == b'`'
    then ok (some [], st)
    else store used (enlarge used len) (elim o [
      | none ↦ ok (none, record { peek = st.peek; input = input })
      | some byte ↦ (do
        (bytes, st') ← rest
        ok (elim bytes [ none ↦ none | some bs ↦ some (byte ∷ bs) ], st'))
    ])
