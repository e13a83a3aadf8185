-- ===== src/Syntax/Goals.antt =====
-- src/syntax.c: the functions that call each other, as the goals of the recursive descent, and the
-- operators of the ten functions with one shape.
use crypti.Base.{ℕ, Bool, Option, none, some, List}
use crypti.Token.{
  Tok, tok_l_or, tok_l_and, tok_b_or, tok_b_xor, tok_b_and, tok_eq, tok_neq, tok_gr, tok_ge, tok_lo,
  tok_le, tok_shl, tok_shr, tok_plus, tok_minus, tok_mul, tok_div, tok_persent,
}
use crypti.Lexer.{Attribute, LexItem}
use crypti.Syntax.Tree.{
  AstNode, AstNodes, Opcode, op_l_or, op_l_and, op_b_or, op_b_xor, op_b_and, op_eq, op_neq, op_gr,
  op_ge, op_lo, op_le, op_shl, op_shr, op_plus, op_minus, op_mul, op_div, op_mod,
}
use crypti.Syntax.Stream.{Parse}

-- The functions with left associative operators, loosest first.
pub data Level : Type 0 where
  at_logic_or at_logic_and at_bool_or at_bool_xor at_bool_and : Level
  at_equity at_rel_op at_shift_expr at_add_expr at_mul_expr : Level

-- The functions and the loops inside of them, with what a loop has built.
pub data Goal (N : Type 0) : Type 0 where
  global_expr_goal statement_goal block_goal expr_goal trenary_op_goal : Goal N
  level : Level → Goal N
  level_rest : Level → AstNode N → Goal N
  term_goal power_goal concatenation_goal factor_goal : Goal N
  unary_not_goal unary_plus_goal : Bool → Goal N
  concatenation_rest : AstNode N → Goal N
  call_rest access_rest : Attribute N → AstNodes N → Goal N
  array_rest seq_rest : AstNodes N → Goal N
  assign_goal : AstNode N → ℕ → Goal N
  import_rest : List (LexItem N) → AstNodes N → Goal N

-- How the functions call each other.
abbrev pub Calls : Type 0 → Type 0
Calls N = Goal N → Parse N (AstNode N)

-- The function that a level calls for an operand.
abbrev pub operand : {N : Type 0} → Level → Goal N
operand at_logic_or = level at_logic_and
operand at_logic_and = level at_bool_or
operand at_bool_or = level at_bool_xor
operand at_bool_xor = level at_bool_and
operand at_bool_and = level at_equity
operand at_equity = level at_rel_op
operand at_rel_op = level at_shift_expr
operand at_shift_expr = level at_add_expr
operand at_add_expr = level at_mul_expr
operand at_mul_expr = term_goal

-- The tokens on which the loop of a level goes on, with the operation.
abbrev pub operator : Level → Tok → Option Opcode
operator at_logic_or tok_l_or = some op_l_or
operator at_logic_and tok_l_and = some op_l_and
operator at_bool_or tok_b_or = some op_b_or
operator at_bool_xor tok_b_xor = some op_b_xor
operator at_bool_and tok_b_and = some op_b_and
operator at_equity tok_eq = some op_eq
operator at_equity tok_neq = some op_neq
operator at_rel_op tok_gr = some op_gr
operator at_rel_op tok_ge = some op_ge
operator at_rel_op tok_lo = some op_lo
operator at_rel_op tok_le = some op_le
operator at_shift_expr tok_shl = some op_shl
operator at_shift_expr tok_shr = some op_shr
operator at_add_expr tok_plus = some op_plus
operator at_add_expr tok_minus = some op_minus
operator at_mul_expr tok_mul = some op_mul
operator at_mul_expr tok_div = some op_div
operator at_mul_expr tok_persent = some op_mod
operator _ _ = none
