-- ===== src/Syntax/Total/Ranks.antt =====
-- src/syntax.c: how deep the calls of each function go before a token is read.
use crypti.Base.{
  ℕ, ◌<◌, ◌≡◌, refl, ap, sym, ◌∙◌, Bool, true, false, none, some, ltb, inl, inr, Bool-cases,
}
use crypti.Token.{
  ◌is◌, Tok, tok_keyword, tok_id, tok_var, tok_as, tok_plus_as, tok_minus_as, tok_mul_as,
  tok_div_as, tok_pow_as, tok_b_and_as, tok_b_xor_as, tok_b_or_as, tok_shl_as, tok_shr_as, tok_not,
  tok_eq, tok_neq, tok_gr, tok_lo, tok_ge, tok_le, tok_l_and, tok_l_or, tok_b_and, tok_b_xor,
  tok_b_or, tok_lpar, tok_rpar, tok_lbrace, tok_rbrace, tok_lbracket, tok_rbracket, tok_dot,
  tok_comma, tok_colon, tok_question, tok_semicolon, tok_shl, tok_shr, tok_plus, tok_minus, tok_mul,
  tok_div, tok_persent, tok_pow, tok_hash, tok_eol, tok_def, tok_if, tok_else, tok_for, tok_do,
  tok_while, tok_continue, tok_break, tok_return, tok_import, tok_del, tok_eof, tok_unknown,
}
use crypti.Lexer.{LexItem}
use crypti.Syntax.Tree.{Opcode}
use crypti.Syntax.Goals.{
  Goal, Calls, Level, operator, level, level_rest, global_expr_goal, import_rest, statement_goal,
  block_goal, expr_goal, trenary_op_goal, term_goal, power_goal, concatenation_goal, factor_goal,
  unary_not_goal, unary_plus_goal, concatenation_rest, call_rest, access_rest, array_rest, seq_rest,
  assign_goal, at_logic_or, at_logic_and, at_bool_or, at_bool_xor, at_bool_and, at_equity,
  at_rel_op, at_shift_expr, at_add_expr, at_mul_expr,
}
use crypti.Syntax.Promises.{Inner}
use crypti.Syntax.Total.{Runs}
use crypti.Syntax.Weights.{here}

-- How deep the calls go before a token is read, by goal.
abbrev pub rank : {N : Type 0} → Goal N → ℕ
rank factor_goal = 1
rank (concatenation_rest _) = 2
rank concatenation_goal = 3
rank power_goal = 4
rank (unary_not_goal _) = 5
rank (unary_plus_goal _) = 5
rank term_goal = 6
rank (level at_mul_expr) = 7
rank (level at_add_expr) = 8
rank (level at_shift_expr) = 9
rank (level at_rel_op) = 10
rank (level at_equity) = 11
rank (level at_bool_and) = 12
rank (level at_bool_xor) = 13
rank (level at_bool_or) = 14
rank (level at_logic_and) = 15
rank (level at_logic_or) = 16
rank (level_rest _ _) = 1
rank trenary_op_goal = 17
rank (call_rest _ _) = 17
rank (access_rest _ _) = 17
rank (array_rest _) = 17
rank (seq_rest _) = 1
rank (assign_goal _ _) = 18
rank expr_goal = 19
rank statement_goal = 20
rank block_goal = 21
rank global_expr_goal = 22
rank (import_rest _ _) = 22

abbrev pub Yes : Bool → Type 0
Yes true = Unit
Yes false = ⊥

abbrev pub Below : ℕ → ℕ → Type 0
Below k r = Yes (ltb k r)

-- All goals run at a weight, or those of a lower rank do.
abbrev pub Any : {N : Type 0} → Calls N → ℕ → Type 0
Any {N} call φ = (g : Goal N) → Inner g → Runs N φ (call g)

abbrev pub Same : {N : Type 0} → Calls N → ℕ → ℕ → Type 0
Same {N} call φ r = (g : Goal N) → Inner g → Below (rank g) r → Runs N φ (call g)

abbrev pub Smaller : {N : Type 0} → Calls N → ℕ → Type 0
Smaller call φ = (φ' : ℕ) → φ' < φ → Any call φ'

eof-tok : (t : Tok) → (t is tok_eof) ≡ true → t ≡ tok_eof
eof-tok tok_keyword h = cc
eof-tok tok_id h = cc
eof-tok tok_var h = cc
eof-tok tok_as h = cc
eof-tok tok_plus_as h = cc
eof-tok tok_minus_as h = cc
eof-tok tok_mul_as h = cc
eof-tok tok_div_as h = cc
eof-tok tok_pow_as h = cc
eof-tok tok_b_and_as h = cc
eof-tok tok_b_xor_as h = cc
eof-tok tok_b_or_as h = cc
eof-tok tok_shl_as h = cc
eof-tok tok_shr_as h = cc
eof-tok tok_not h = cc
eof-tok tok_eq h = cc
eof-tok tok_neq h = cc
eof-tok tok_gr h = cc
eof-tok tok_lo h = cc
eof-tok tok_ge h = cc
eof-tok tok_le h = cc
eof-tok tok_l_and h = cc
eof-tok tok_l_or h = cc
eof-tok tok_b_and h = cc
eof-tok tok_b_xor h = cc
eof-tok tok_b_or h = cc
eof-tok tok_lpar h = cc
eof-tok tok_rpar h = cc
eof-tok tok_lbrace h = cc
eof-tok tok_rbrace h = cc
eof-tok tok_lbracket h = cc
eof-tok tok_rbracket h = cc
eof-tok tok_dot h = cc
eof-tok tok_comma h = cc
eof-tok tok_colon h = cc
eof-tok tok_question h = cc
eof-tok tok_semicolon h = cc
eof-tok tok_shl h = cc
eof-tok tok_shr h = cc
eof-tok tok_plus h = cc
eof-tok tok_minus h = cc
eof-tok tok_mul h = cc
eof-tok tok_div h = cc
eof-tok tok_persent h = cc
eof-tok tok_pow h = cc
eof-tok tok_hash h = cc
eof-tok tok_eol h = cc
eof-tok tok_def h = cc
eof-tok tok_if h = cc
eof-tok tok_else h = cc
eof-tok tok_for h = cc
eof-tok tok_do h = cc
eof-tok tok_while h = cc
eof-tok tok_continue h = cc
eof-tok tok_break h = cc
eof-tok tok_return h = cc
eof-tok tok_import h = cc
eof-tok tok_del h = cc
eof-tok tok_eof h = refl
eof-tok tok_unknown h = cc

operator-eof : (lv : Level) → operator lv tok_eof ≡ none
operator-eof at_logic_or = refl
operator-eof at_logic_and = refl
operator-eof at_bool_or = refl
operator-eof at_bool_xor = refl
operator-eof at_bool_and = refl
operator-eof at_equity = refl
operator-eof at_rel_op = refl
operator-eof at_shift_expr = refl
operator-eof at_add_expr = refl
operator-eof at_mul_expr = refl

-- An operator is not the end of the file.
pub operator-here :
    {N : Type 0} (lv : Level) (item : LexItem N) (op : Opcode)
    → operator lv item.0 ≡ some op
    → here item ≡ 1
operator-here lv item op e = elim (Bool-cases (item.0 is tok_eof)) [
  | inl ended ↦
      let none_some = sym (operator-eof lv) ∙ ap (operator lv) (sym (eof-tok item.0 ended)) ∙ e in
      cc
  | inr more ↦ rw (more) refl
]
