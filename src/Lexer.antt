-- ===== src/Lexer.antt =====
-- src/lex.c: the tokens. The arithmetic of libmpl is a parameter.
pub mod Words
pub mod Symbols
pub mod Comments
pub mod Numbers
mod Tests
use crypti.Run.{Run, ok, die, fault, stuck, ◌>>=◌}
use crypti.Base.{
  ℕ, zero, suc, ◌+◌, ◌-◌, ◌*◌, Bool, true, false, ◌&&◌, ◌||◌, Option, none, some, List, [], ◌∷◌,
  ltb, leb, ◌==◌, if◌then◌else◌,
}
use crypti.Token.{
  Tok, tok_id, tok_var, tok_as, tok_plus_as, tok_minus_as, tok_mul_as, tok_div_as, tok_pow_as,
  tok_b_and_as, tok_b_xor_as, tok_b_or_as, tok_shl_as, tok_shr_as, tok_not, tok_eq, tok_neq, tok_gr,
  tok_lo, tok_ge, tok_le, tok_l_and, tok_l_or, tok_b_and, tok_b_xor, tok_b_or, tok_lpar, tok_rpar,
  tok_lbrace, tok_rbrace, tok_lbracket, tok_rbracket, tok_dot, tok_comma, tok_colon, tok_question,
  tok_semicolon, tok_shl, tok_shr, tok_plus, tok_minus, tok_mul, tok_div, tok_persent, tok_pow,
  tok_hash, tok_eol, tok_eof, tok_unknown,
}
use crypti.Keyword.{KeywordTable, keyword_table_lookup}
use crypti.Scanner.{
  Lexer, eof, fgetc, is_digit, to_lower, is_alpha, is_word, is_blank, skip_blanks, skip_comment,
  skip_multiline_comment, convert_to_digit_base, enlarge, store, word_loop, string_loop, c_string,
  size_of, unget, get_hex_char, get_unescaped_char, octstring_loop,
}

-- The functions of libmpl that the lexer calls, on numbers.
pub record Mpl (N : Type 0) : Type 0 where
  pub mpl_set_uint : ℕ → N
  pub mpl_mul : N → N → N
  pub mpl_add : N → N → N

-- The member of the union in `lex_item`, or what its variable holds.
pub data Attribute (N : Type 0) : Type 0 where
  no_attribute : Attribute N
  name : List ℕ → Attribute N
  number : N → Attribute N
  string : List ℕ → Attribute N
  octstring : List ℕ → Attribute N

-- `struct lex_item`
abbrev pub LexItem : Type 0 → Type 0
LexItem N = Tok × Attribute N

-- The token of a symbol of one character: the first group of cases, the end of the file and the
-- default.
pub single : ℕ → Tok
single c =
    if c == b'('
    then tok_lpar
    else if c == b')'
    then tok_rpar
    else if c == b'['
    then tok_lbracket
    else if c == b']'
    then tok_rbracket
    else if c == b'{'
    then tok_lbrace
    else if c == b'}'
    then tok_rbrace
    else if c == b','
    then tok_comma
    else if c == b';'
    then tok_semicolon
    else if c == b':'
    then tok_colon
    else if c == b'?'
    then tok_question
    else if c == b'#'
    then tok_hash
    else if c == b'.'
    then tok_dot
    else if c == 10
    then tok_eol
    else if c == eof
    then tok_eof
    else if c == b'%'
    then tok_persent
    else tok_unknown

-- `goto clean_end`
pub clean_end : Tok → List ℕ → Tok × Lexer
clean_end tok input = (tok, record { peek = b' '; input = input })

-- `EXTENDED_CASE_ITEM`, where the character is followed by one of those of the list.
pub extended : Tok → List (ℕ × Tok) → Lexer → Tok × Lexer
extended tok [] st = (tok, st)
extended tok ((c, t) ∷ cases) st =
    if st.peek == c then clean_end t st.input else extended tok cases st

-- The same with a case that is itself extended, by `=`.
pub doubled : Tok → Tok → ℕ → Tok → Tok → Lexer → Tok × Lexer
unfolding extended
doubled tok tok_with_as c tok_twice tok_twice_as st =
    if st.peek == b'='
    then clean_end tok_with_as st.input
    else if st.peek == c
    then extended tok_twice ((b'=', tok_twice_as) ∷ []) (fgetc st.input)
    else (tok, st)

-- The `switch` of `get_next_token`, but for the comments: the token and where the lexer stands.
pub symbol : ℕ → List ℕ → Tok × Lexer
unfolding extended doubled single
symbol c input =
    let st = fgetc input in
    if c == b'='
    then extended tok_as ((b'=', tok_eq) ∷ []) st
    else if c == b'!'
    then extended tok_not ((b'=', tok_neq) ∷ []) st
    else if c == b'&'
    then extended tok_b_and ((b'&', tok_l_and) ∷ (b'=', tok_b_and_as) ∷ []) st
    else if c == b'|'
    then extended tok_b_or ((b'|', tok_l_or) ∷ (b'=', tok_b_or_as) ∷ []) st
    else if c == b'^'
    then extended tok_b_xor ((b'=', tok_b_xor_as) ∷ []) st
    else if c == b'+'
    then extended tok_plus ((b'=', tok_plus_as) ∷ []) st
    else if c == b'-'
    then extended tok_minus ((b'=', tok_minus_as) ∷ []) st
    else if c == b'<'
    then doubled tok_lo tok_le b'<' tok_shl tok_shl_as st
    else if c == b'>'
    then doubled tok_gr tok_ge b'>' tok_shr tok_shr_as st
    else if c == b'*'
    then doubled tok_mul tok_mul_as b'*' tok_pow tok_pow_as st
    else if c == b'/'
    then extended tok_div ((b'=', tok_div_as) ∷ []) st
    else clean_end (single c) input

-- What stands at the beginning of a token.
pub data Start : Type 0 where
  digit word quote backquote line_comment comment other : Start

pub start_of : ℕ → List ℕ → Start
unfolding is_digit is_alpha
start_of c input =
    let second = (fgetc input).peek in
    if is_digit c
    then digit
    else if is_alpha c || c == b'_'
    then word
    else if c == b'"'
    then quote
    else if c == b'`'
    then backquote
    else if c == b'/' && second == b'/'
    then line_comment
    else if c == b'/' && second == b'*'
    then comment
    else other

-- The item for a name that `keyword_table_lookup` gave a token for.
pub item_of : {N : Type 0} → Tok → List ℕ → LexItem N
item_of tok_unknown s = (tok_id, name s)
item_of kword s = (kword, no_attribute)

module _ {N : Type 0} (mpl : Mpl N) (keys : KeywordTable) (realloc_ok : ℕ → Bool) where
  open mpl use {mpl_set_uint, mpl_mul, mpl_add}

  -- The loop of `get_digit_base`.
  pub digits_loop : ℕ → N → ℕ → List ℕ → N × Lexer
  digits_loop base mp peek [] = elim (convert_to_digit_base peek base) [
    | none ↦ (mp, record { peek = peek; input = [] })
    | some num ↦ (mpl_add (mpl_mul mp (mpl_set_uint base)) (mpl_set_uint num), fgetc [])
  ]
  digits_loop base mp peek (c ∷ cs) = elim (convert_to_digit_base peek base) [
    | none ↦ (mp, record { peek = peek; input = c ∷ cs })
    | some num ↦ digits_loop base (mpl_add (mpl_mul mp (mpl_set_uint base)) (mpl_set_uint num)) c cs
  ]

  -- `get_digit_base`
  pub get_digit_base : ℕ → Lexer → N × Lexer
  get_digit_base base st = digits_loop base (mpl_set_uint 0) st.peek st.input

  -- `get_digit`
  pub get_digit : ℕ → List ℕ → LexItem N × Lexer
  get_digit c input =
      let second = fgetc input in
      let (mp, st) =
        if c == b'0'
        then (if to_lower second.peek == b'x'
            then get_digit_base 16 (fgetc second.input)
            else get_digit_base 8 second)
        else get_digit_base 10 (record { peek = c; input = input }) in
      ((tok_var, number mp), st)

  -- What `get_identifier` makes of a name.
  pub name_item : List ℕ → LexItem N
  name_item s = item_of (keyword_table_lookup keys s) s

  -- `get_identifier`: the closing NUL is written behind the name.
  pub get_identifier : ℕ → List ℕ → Run (LexItem N × Lexer)
  get_identifier c input = do
    (s, len, st) ← word_loop input c 0 0
    store (size_of s) len (if realloc_ok (size_of s + 1) then ok (name_item s, st) else die)

  -- `get_string`
  pub get_string : List ℕ → Run (LexItem N × Lexer)
  get_string input = do
    (s, len, st) ← string_loop input 0 64
    (let blank : Lexer = record { peek = b' '; input = st.input } in
        if st.peek == b'"'
        then store (size_of s) len (ok ((tok_var, string (c_string s)), blank))
        else ok ((tok_unknown, no_attribute), blank))

  -- `get_octstring`
  pub get_octstring : ℕ → List ℕ → Run (LexItem N × Lexer)
  get_octstring fuel input = do
    (bytes, st) ← octstring_loop fuel (fgetc input) 0 64
    (let blank : Lexer = record { peek = b' '; input = st.input } in
        ok (
          elim bytes [
            | none ↦ (tok_unknown, no_attribute)
            | some bs ↦
                if st.peek == b'`' then (tok_var, octstring bs) else (tok_unknown, no_attribute)
          ],
          blank,
        ))

  -- The body of `get_next_token` behind the blanks; `again` goes back to its beginning.
  pub dispatch : ℕ → (Lexer → Run (LexItem N × Lexer)) → Start → Lexer → Run (LexItem N × Lexer)
  dispatch fuel again digit st = ok (get_digit st.peek st.input)
  dispatch fuel again word st = get_identifier st.peek st.input
  dispatch fuel again quote st = get_string st.input
  dispatch fuel again backquote st = get_octstring fuel st.input
  dispatch fuel again line_comment st = skip_comment fuel (fgetc st.input).input >>= again
  dispatch fuel again comment st = skip_multiline_comment fuel (fgetc st.input).input >>= again
  dispatch fuel again other st =
      let (tok, st') = symbol st.peek st.input in ok ((tok, no_attribute), st')

  -- `get_next_token`; the fuel bounds the comments before the token and each loop without an end.
  pub get_next_token : ℕ → Lexer → Run (LexItem N × Lexer)
  get_next_token zero st = stuck
  get_next_token (suc fuel) st =
      let begun = skip_blanks st.peek st.input in
      dispatch (suc fuel) (λ st'. get_next_token fuel st') (start_of begun.peek begun.input) begun
