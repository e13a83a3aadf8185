-- ===== src/Lexer/Symbols.antt =====
-- src/lex.c: the symbols, and comments that are not closed.
use crypti.Run.{Run, ok, stuck, ◌>>=◌}
use crypti.Base.{
  ℕ, zero, suc, ◌≡◌, refl, ap, ◌∙◌, ◌≢◌, inl, inr, Bool, true, false, Option, none, some, List, [],
  ◌∷◌, ◌++◌, map, if◌then◌else◌, Option-cases, length,
}
use crypti.Token.{
  Tok, tok_as, tok_plus_as, tok_minus_as, tok_mul_as, tok_div_as, tok_pow_as, tok_b_and_as,
  tok_b_xor_as, tok_b_or_as, tok_shl_as, tok_shr_as, tok_not, tok_eq, tok_neq, tok_gr, tok_lo,
  tok_ge, tok_le, tok_l_and, tok_l_or, tok_b_and, tok_b_xor, tok_b_or, tok_lpar, tok_rpar,
  tok_lbrace, tok_rbrace, tok_lbracket, tok_rbracket, tok_dot, tok_comma, tok_colon, tok_question,
  tok_semicolon, tok_shl, tok_shr, tok_plus, tok_minus, tok_mul, tok_div, tok_persent, tok_pow,
  tok_hash, tok_eol, tok_eof,
}
use crypti.Keyword.{KeywordTable}
use crypti.Scanner.{Lexer, fgetc, is_blank, is_digit, is_alpha, to_lower, skip_blanks}
use crypti.Lexer.{
  Mpl, LexItem, no_attribute, single, clean_end, extended, doubled, symbol, start_of, dispatch,
  get_next_token,
}

-- How a script writes the symbols; the other tokens have no spelling of their own.
unfoldable pub spelling : Tok → Option (List ℕ)
spelling tok_as = some (b'=' ∷ [])
spelling tok_plus_as = some (b'+' ∷ b'=' ∷ [])
spelling tok_minus_as = some (b'-' ∷ b'=' ∷ [])
spelling tok_mul_as = some (b'*' ∷ b'=' ∷ [])
spelling tok_div_as = some (b'/' ∷ b'=' ∷ [])
spelling tok_pow_as = some (b'*' ∷ b'*' ∷ b'=' ∷ [])
spelling tok_b_and_as = some (b'&' ∷ b'=' ∷ [])
spelling tok_b_xor_as = some (b'^' ∷ b'=' ∷ [])
spelling tok_b_or_as = some (b'|' ∷ b'=' ∷ [])
spelling tok_shl_as = some (b'<' ∷ b'<' ∷ b'=' ∷ [])
spelling tok_shr_as = some (b'>' ∷ b'>' ∷ b'=' ∷ [])
spelling tok_not = some (b'!' ∷ [])
spelling tok_eq = some (b'=' ∷ b'=' ∷ [])
spelling tok_neq = some (b'!' ∷ b'=' ∷ [])
spelling tok_gr = some (b'>' ∷ [])
spelling tok_lo = some (b'<' ∷ [])
spelling tok_ge = some (b'>' ∷ b'=' ∷ [])
spelling tok_le = some (b'<' ∷ b'=' ∷ [])
spelling tok_l_and = some (b'&' ∷ b'&' ∷ [])
spelling tok_l_or = some (b'|' ∷ b'|' ∷ [])
spelling tok_b_and = some (b'&' ∷ [])
spelling tok_b_xor = some (b'^' ∷ [])
spelling tok_b_or = some (b'|' ∷ [])
spelling tok_lpar = some (b'(' ∷ [])
spelling tok_rpar = some (b')' ∷ [])
spelling tok_lbrace = some (b'{' ∷ [])
spelling tok_rbrace = some (b'}' ∷ [])
spelling tok_lbracket = some (b'[' ∷ [])
spelling tok_rbracket = some (b']' ∷ [])
spelling tok_dot = some (b'.' ∷ [])
spelling tok_comma = some (b',' ∷ [])
spelling tok_colon = some (b':' ∷ [])
spelling tok_question = some (b'?' ∷ [])
spelling tok_semicolon = some (b';' ∷ [])
spelling tok_shl = some (b'<' ∷ b'<' ∷ [])
spelling tok_shr = some (b'>' ∷ b'>' ∷ [])
spelling tok_plus = some (b'+' ∷ [])
spelling tok_minus = some (b'-' ∷ [])
spelling tok_mul = some (b'*' ∷ [])
spelling tok_div = some (b'/' ∷ [])
spelling tok_persent = some (b'%' ∷ [])
spelling tok_pow = some (b'*' ∷ b'*' ∷ [])
spelling tok_hash = some (b'#' ∷ [])
spelling tok_eol = some (10 ∷ [])
spelling tok = none

-- A token that is written as a symbol.
abbrev pub IsSymbol : Tok → Type 0
IsSymbol tok = spelling tok ≢ none

pub text_of : Option (List ℕ) → List ℕ
text_of none = []
text_of (some s) = s

-- A script of symbols, each with a blank behind it.
pub script : List Tok → List ℕ
script [] = []
script (tok ∷ toks) = text_of (spelling tok) ++ b' ' ∷ script toks

abbrev pub AllSymbols : List Tok → Type 0
AllSymbols [] = Unit
AllSymbols (tok ∷ toks) = IsSymbol tok × AllSymbols toks

pub is_eof : Tok → Bool
is_eof tok_eof = true
is_eof tok = false

module _ {N : Type 0} (mpl : Mpl N) (keys : KeywordTable) (realloc_ok : ℕ → Bool) where
  -- Tokens in turn up to the end of the file.
  pub read_tokens : ℕ → Lexer → Run (List (LexItem N))
  read_tokens zero st = stuck
  read_tokens (suc fuel) st = do
    (item, st') ← get_next_token mpl keys realloc_ok 1 st
    (let later = read_tokens fuel st' >>= (λ items. ok (item ∷ items)) in
        if is_eof item.0 then ok [] else later)

  -- A spelling and a blank behind it give the token, and then what is behind the blank.
  abbrev Lexed : List ℕ → Tok → Option (List ℕ) → Type 0
  Lexed rest tok none = Unit
  Lexed rest tok (some s) =
      (st : Lexer) × (get_next_token mpl keys realloc_ok 1
          (record { peek = b' '; input = s ++ b' ' ∷ rest })
        ≡ ok ((tok, no_attribute), st))
      × (skip_blanks st.peek st.input ≡ skip_blanks b' ' rest)
      × (is_eof tok ≡ false)

  spelling-Lexed : (rest : List ℕ) (tok : Tok) → Lexed rest tok (spelling tok)
  unfolding spelling get_next_token dispatch start_of skip_blanks is_blank symbol fgetc is_digit
      is_alpha to_lower extended doubled single clean_end is_eof
  spelling-Lexed rest tok_as = (_, refl, refl, refl)
  spelling-Lexed rest tok_plus_as = (_, refl, refl, refl)
  spelling-Lexed rest tok_minus_as = (_, refl, refl, refl)
  spelling-Lexed rest tok_mul_as = (_, refl, refl, refl)
  spelling-Lexed rest tok_div_as = (_, refl, refl, refl)
  spelling-Lexed rest tok_pow_as = (_, refl, refl, refl)
  spelling-Lexed rest tok_b_and_as = (_, refl, refl, refl)
  spelling-Lexed rest tok_b_xor_as = (_, refl, refl, refl)
  spelling-Lexed rest tok_b_or_as = (_, refl, refl, refl)
  spelling-Lexed rest tok_shl_as = (_, refl, refl, refl)
  spelling-Lexed rest tok_shr_as = (_, refl, refl, refl)
  spelling-Lexed rest tok_not = (_, refl, refl, refl)
  spelling-Lexed rest tok_eq = (_, refl, refl, refl)
  spelling-Lexed rest tok_neq = (_, refl, refl, refl)
  spelling-Lexed rest tok_gr = (_, refl, refl, refl)
  spelling-Lexed rest tok_lo = (_, refl, refl, refl)
  spelling-Lexed rest tok_ge = (_, refl, refl, refl)
  spelling-Lexed rest tok_le = (_, refl, refl, refl)
  spelling-Lexed rest tok_l_and = (_, refl, refl, refl)
  spelling-Lexed rest tok_l_or = (_, refl, refl, refl)
  spelling-Lexed rest tok_b_and = (_, refl, refl, refl)
  spelling-Lexed rest tok_b_xor = (_, refl, refl, refl)
  spelling-Lexed rest tok_b_or = (_, refl, refl, refl)
  spelling-Lexed rest tok_lpar = (_, refl, refl, refl)
  spelling-Lexed rest tok_rpar = (_, refl, refl, refl)
  spelling-Lexed rest tok_lbrace = (_, refl, refl, refl)
  spelling-Lexed rest tok_rbrace = (_, refl, refl, refl)
  spelling-Lexed rest tok_lbracket = (_, refl, refl, refl)
  spelling-Lexed rest tok_rbracket = (_, refl, refl, refl)
  spelling-Lexed rest tok_dot = (_, refl, refl, refl)
  spelling-Lexed rest tok_comma = (_, refl, refl, refl)
  spelling-Lexed rest tok_colon = (_, refl, refl, refl)
  spelling-Lexed rest tok_question = (_, refl, refl, refl)
  spelling-Lexed rest tok_semicolon = (_, refl, refl, refl)
  spelling-Lexed rest tok_shl = (_, refl, refl, refl)
  spelling-Lexed rest tok_shr = (_, refl, refl, refl)
  spelling-Lexed rest tok_plus = (_, refl, refl, refl)
  spelling-Lexed rest tok_minus = (_, refl, refl, refl)
  spelling-Lexed rest tok_mul = (_, refl, refl, refl)
  spelling-Lexed rest tok_div = (_, refl, refl, refl)
  spelling-Lexed rest tok_persent = (_, refl, refl, refl)
  spelling-Lexed rest tok_pow = (_, refl, refl, refl)
  spelling-Lexed rest tok_hash = (_, refl, refl, refl)
  spelling-Lexed rest tok_eol = (_, refl, refl, refl)
  spelling-Lexed rest tok = tt

  -- Blanks before a token do not matter.
  get_next_token-blanks :
      (fuel : ℕ) (st st' : Lexer)
      → skip_blanks st.peek st.input ≡ skip_blanks st'.peek st'.input
      → get_next_token mpl keys realloc_ok fuel st ≡ get_next_token mpl keys realloc_ok fuel st'
  unfolding get_next_token
  get_next_token-blanks zero st st' e = refl
  get_next_token-blanks (suc fuel) st st' e =
      ap
        (λ b.
          dispatch mpl keys realloc_ok (suc fuel) (λ s. get_next_token mpl keys realloc_ok fuel s)
            (start_of b.peek b.input) b)
        e

  end_of_file :
      get_next_token mpl keys realloc_ok 1 (record { peek = b' '; input = [] })
      ≡ ok ((tok_eof, no_attribute), record { peek = b' '; input = [] })
  unfolding get_next_token dispatch start_of skip_blanks is_blank symbol fgetc is_digit is_alpha
      to_lower extended doubled single clean_end
  end_of_file = refl

  read_from :
      (toks : List Tok) (st : Lexer)
      → AllSymbols toks
      → skip_blanks st.peek st.input ≡ skip_blanks b' ' (script toks)
      → read_tokens (suc (length toks)) st ≡ ok (map (λ tok. (tok, no_attribute)) toks)
  unfolding read_tokens script is_eof text_of
  read_from [] st w e =
      rw
        (
          get_next_token-blanks 1 st (record { peek = b' '; input = [] }) e ∙ end_of_file,
          read_tokens,
        )
        refl
  read_from (tok ∷ toks) st w e = elim (Option-cases (spelling tok)) [
    | inl none_there ↦ absurd (w.0 none_there)
    | inr (s, h) ↦
        let (st', step, behind, more) = (rw h at (spelling-Lexed (script toks) tok)) in
        let start =
          get_next_token-blanks 1 st (record { peek = b' '; input = s ++ b' ' ∷ script toks })
            (rw h at e) in
        rw (start ∙ step, read_tokens, more, read_from toks st' w.1 behind) refl
  ]

  -- Of a script in which symbols are written one after the other with a blank behind each,
  -- get_next_token gives the tokens of the symbols in turn and then the end of the file.
  pub read_tokens-script :
      (toks : List Tok)
      → AllSymbols toks
      → read_tokens (suc (length toks)) (record { peek = b' '; input = script toks })
        ≡ ok (map (λ tok. (tok, no_attribute)) toks)
  read_tokens-script toks w = read_from toks (record { peek = b' '; input = script toks }) w refl
