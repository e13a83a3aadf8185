-- ===== src/Syntax/Expressions.antt =====
-- src/syntax.c: the conditional expression and the ten levels of left associative operators.
use crypti.Base.{Option, none, some}
use crypti.Token.{tok_question, tok_colon}
use crypti.Syntax.Tree.{AstNode, Opcode, ast_node_op_new, ast_node_trenary_new, null}
use crypti.Syntax.Stream.{
  Parse, pure, ◌>>=◌, ◌>>◌, tok_next, current_tok, on, failed, unless_errors, unless_null,
}
use crypti.Syntax.Goals.{
  Level, at_logic_or, at_logic_and, at_bool_or, at_bool_xor, at_bool_and, at_equity, at_rel_op,
  at_shift_expr, at_add_expr, at_mul_expr, Calls, level, level_rest, operand, operator, expr_goal,
}

module _ {N : Type 0} (call : Calls N) where
  -- A right operand that is missing is an error, and a stub in the tree.
  abbrev pub or_stub : AstNode N → Parse N (AstNode N)
  or_stub right = unless_null right failed (pure right)

  -- The shape of a level: the first operand, then the loop.
  abbrev pub binary : Level → Parse N (AstNode N)
  binary lv = do
    result ← call (operand lv)
    unless_null result (pure null) (call (level_rest lv result))

  -- One turn of the loop of a level, if there is an operator.
  abbrev pub binary_turn : Level → AstNode N → Option Opcode → Parse N (AstNode N)
  binary_turn lv result none = pure result
  binary_turn lv result (some op) = do
    tok_next
    right ← call (operand lv)
    node ← or_stub right
    call (level_rest lv (ast_node_op_new result node op))

  abbrev pub binary_rest : Level → AstNode N → Parse N (AstNode N)
  binary_rest lv result = do t ← current_tok; binary_turn lv result (operator lv t)

  abbrev pub logic_or : Parse N (AstNode N)
  logic_or = binary at_logic_or

  abbrev pub logic_and : Parse N (AstNode N)
  logic_and = binary at_logic_and

  abbrev pub bool_or : Parse N (AstNode N)
  bool_or = binary at_bool_or

  abbrev pub bool_xor : Parse N (AstNode N)
  bool_xor = binary at_bool_xor

  abbrev pub bool_and : Parse N (AstNode N)
  bool_and = binary at_bool_and

  abbrev pub equity : Parse N (AstNode N)
  equity = binary at_equity

  abbrev pub rel_op : Parse N (AstNode N)
  rel_op = binary at_rel_op

  abbrev pub shift_expr : Parse N (AstNode N)
  shift_expr = binary at_shift_expr

  abbrev pub add_expr : Parse N (AstNode N)
  add_expr = binary at_add_expr

  abbrev pub add_expr_rest : AstNode N → Parse N (AstNode N)
  add_expr_rest = binary_rest at_add_expr

  abbrev pub mul_expr : Parse N (AstNode N)
  mul_expr = binary at_mul_expr

  abbrev pub mul_expr_rest : AstNode N → Parse N (AstNode N)
  mul_expr_rest = binary_rest at_mul_expr

  -- The function of a level, and its loop.
  abbrev pub parse_level : Level → Parse N (AstNode N)
  parse_level at_logic_or = logic_or
  parse_level at_logic_and = logic_and
  parse_level at_bool_or = bool_or
  parse_level at_bool_xor = bool_xor
  parse_level at_bool_and = bool_and
  parse_level at_equity = equity
  parse_level at_rel_op = rel_op
  parse_level at_shift_expr = shift_expr
  parse_level at_add_expr = add_expr
  parse_level at_mul_expr = mul_expr

  abbrev pub parse_level_rest : Level → AstNode N → Parse N (AstNode N)
  parse_level_rest at_add_expr left = add_expr_rest left
  parse_level_rest at_mul_expr left = mul_expr_rest left
  parse_level_rest lv left = binary_rest lv left

  abbrev pub trenary_op : Parse N (AstNode N)
  trenary_op = do
    cond ← call (level at_logic_or)
    unless_null cond (pure null) (
        on tok_question
          (do
            if_yes ← call expr_goal
            on tok_colon
                (unless_null if_yes failed (
                  unless_errors failed (do
                    if_no ← call expr_goal
                    unless_null if_no failed
                        (unless_errors failed (pure (ast_node_trenary_new cond if_yes if_no))))))
                failed)
          (pure cond))
