-- ===== src/Token.antt =====
-- include/lex.h: the kinds of token.
use crypti.Base.{ℕ, Bool, ◌==◌}

-- `tok_t`
pub data Tok : Type 0 where
  tok_keyword tok_id tok_var : Tok
  tok_as tok_plus_as tok_minus_as tok_mul_as tok_div_as tok_pow_as : Tok
  tok_b_and_as tok_b_xor_as tok_b_or_as tok_shl_as tok_shr_as : Tok
  tok_not tok_eq tok_neq tok_gr tok_lo tok_ge tok_le tok_l_and tok_l_or : Tok
  tok_b_and tok_b_xor tok_b_or : Tok
  tok_lpar tok_rpar tok_lbrace tok_rbrace tok_lbracket tok_rbracket : Tok
  tok_dot tok_comma tok_colon tok_question tok_semicolon tok_shl tok_shr : Tok
  tok_plus tok_minus tok_mul tok_div tok_persent tok_pow tok_hash tok_eol : Tok
  tok_def tok_if tok_else tok_for tok_do tok_while : Tok
  tok_continue tok_break tok_return tok_import tok_del : Tok
  tok_eof tok_unknown : Tok

-- The value of a token in the enumeration, by which C compares.
abbrev pub value : Tok → ℕ
value tok_keyword = 0
value tok_id = 1
value tok_var = 2
value tok_as = 3
value tok_plus_as = 4
value tok_minus_as = 5
value tok_mul_as = 6
value tok_div_as = 7
value tok_pow_as = 8
value tok_b_and_as = 9
value tok_b_xor_as = 10
value tok_b_or_as = 11
value tok_shl_as = 12
value tok_shr_as = 13
value tok_not = 14
value tok_eq = 15
value tok_neq = 16
value tok_gr = 17
value tok_lo = 18
value tok_ge = 19
value tok_le = 20
value tok_l_and = 21
value tok_l_or = 22
value tok_b_and = 23
value tok_b_xor = 24
value tok_b_or = 25
value tok_lpar = 26
value tok_rpar = 27
value tok_lbrace = 28
value tok_rbrace = 29
value tok_lbracket = 30
value tok_rbracket = 31
value tok_dot = 32
value tok_comma = 33
value tok_colon = 34
value tok_question = 35
value tok_semicolon = 36
value tok_shl = 37
value tok_shr = 38
value tok_plus = 39
value tok_minus = 40
value tok_mul = 41
value tok_div = 42
value tok_persent = 43
value tok_pow = 44
value tok_hash = 45
value tok_eol = 46
value tok_def = 47
value tok_if = 48
value tok_else = 49
value tok_for = 50
value tok_do = 51
value tok_while = 52
value tok_continue = 53
value tok_break = 54
value tok_return = 55
value tok_import = 56
value tok_del = 57
value tok_eof = 58
value tok_unknown = 59

infix 50 ◌is◌
abbrev pub ◌is◌ : Tok → Tok → Bool
a is b = value a == value b
