-- ===== src/Syntax/Printing.antt =====
-- A description of expressions that is independent of src/syntax.c: how tightly each form binds, how
-- it is written with as few parentheses as that allows, and the tree that it stands for.
use crypti.Base.{
  ℕ, zero, suc, Bool, false, not, ◌&&◌, ◌||◌, List, [], ◌∷◌, ◌++◌, leb, if◌then◌else◌,
}
use crypti.Token.{
  Tok, ◌is◌, tok_id, tok_var, tok_as, tok_comma, tok_question, tok_colon, tok_l_or, tok_l_and,
  tok_b_or, tok_b_xor, tok_b_and, tok_eq, tok_neq, tok_gr, tok_ge, tok_lo, tok_le, tok_shl, tok_shr,
  tok_plus, tok_minus, tok_mul, tok_div, tok_persent, tok_not, tok_pow, tok_hash, tok_lpar,
  tok_rpar, tok_lbracket, tok_rbracket,
}
use crypti.Lexer.{Attribute, LexItem, no_attribute}
use crypti.Syntax.Tree.{
  AstNodes, AstShape, Opcode, no_nodes, add_node, ast_node_new, ast_node_var, ast_node_id,
  ast_node_call, ast_node_access, ast_node_op, ast_node_unary, ast_node_trenary, op_l_or, op_l_and,
  op_b_or, op_b_xor, op_b_and, op_eq, op_neq, op_gr, op_ge, op_lo, op_le, op_shl, op_shr, op_plus,
  op_minus, op_mul, op_div, op_mod, op_not, op_pow, op_octstr_concat,
}
use crypti.Syntax.Goals.{
  Level, at_logic_or, at_logic_and, at_bool_or, at_bool_xor, at_bool_and, at_equity, at_rel_op,
  at_shift_expr, at_add_expr, at_mul_expr, operator,
}
use crypti.Syntax.Assignments.{is_some, assigned_operator}

-- The operators of the ten levels.
pub data Operator : Type 0 where
  by_l_or by_l_and by_b_or by_b_xor by_b_and by_eq by_neq by_gr by_ge by_lo by_le : Operator
  by_shl by_shr by_plus by_minus by_mul by_div by_mod : Operator

abbrev pub level_of : Operator → Level
level_of by_l_or = at_logic_or
level_of by_l_and = at_logic_and
level_of by_b_or = at_bool_or
level_of by_b_xor = at_bool_xor
level_of by_b_and = at_bool_and
level_of by_eq = at_equity
level_of by_neq = at_equity
level_of by_gr = at_rel_op
level_of by_ge = at_rel_op
level_of by_lo = at_rel_op
level_of by_le = at_rel_op
level_of by_shl = at_shift_expr
level_of by_shr = at_shift_expr
level_of by_plus = at_add_expr
level_of by_minus = at_add_expr
level_of by_mul = at_mul_expr
level_of by_div = at_mul_expr
level_of by_mod = at_mul_expr

abbrev pub token_of : Operator → Tok
token_of by_l_or = tok_l_or
token_of by_l_and = tok_l_and
token_of by_b_or = tok_b_or
token_of by_b_xor = tok_b_xor
token_of by_b_and = tok_b_and
token_of by_eq = tok_eq
token_of by_neq = tok_neq
token_of by_gr = tok_gr
token_of by_ge = tok_ge
token_of by_lo = tok_lo
token_of by_le = tok_le
token_of by_shl = tok_shl
token_of by_shr = tok_shr
token_of by_plus = tok_plus
token_of by_minus = tok_minus
token_of by_mul = tok_mul
token_of by_div = tok_div
token_of by_mod = tok_persent

abbrev pub opcode_of : Operator → Opcode
opcode_of by_l_or = op_l_or
opcode_of by_l_and = op_l_and
opcode_of by_b_or = op_b_or
opcode_of by_b_xor = op_b_xor
opcode_of by_b_and = op_b_and
opcode_of by_eq = op_eq
opcode_of by_neq = op_neq
opcode_of by_gr = op_gr
opcode_of by_ge = op_ge
opcode_of by_lo = op_lo
opcode_of by_le = op_le
opcode_of by_shl = op_shl
opcode_of by_shr = op_shr
opcode_of by_plus = op_plus
opcode_of by_minus = op_minus
opcode_of by_mul = op_mul
opcode_of by_div = op_div
opcode_of by_mod = op_mod

-- How tightly a form binds, tightest first.
pub data Grade : Type 0 where
  at_factor at_concatenation at_power at_term : Grade
  at_level : Level → Grade
  at_trenary_op : Grade

-- The grade of the operands of a level, and the next looser grade.
abbrev pub tighter : Level → Grade
tighter at_logic_or = at_level at_logic_and
tighter at_logic_and = at_level at_bool_or
tighter at_bool_or = at_level at_bool_xor
tighter at_bool_xor = at_level at_bool_and
tighter at_bool_and = at_level at_equity
tighter at_equity = at_level at_rel_op
tighter at_rel_op = at_level at_shift_expr
tighter at_shift_expr = at_level at_add_expr
tighter at_add_expr = at_level at_mul_expr
tighter at_mul_expr = at_term

abbrev pub looser : Grade → Grade
looser at_factor = at_concatenation
looser at_concatenation = at_power
looser at_power = at_term
looser at_term = at_level at_mul_expr
looser (at_level at_mul_expr) = at_level at_add_expr
looser (at_level at_add_expr) = at_level at_shift_expr
looser (at_level at_shift_expr) = at_level at_rel_op
looser (at_level at_rel_op) = at_level at_equity
looser (at_level at_equity) = at_level at_bool_and
looser (at_level at_bool_and) = at_level at_bool_xor
looser (at_level at_bool_xor) = at_level at_bool_or
looser (at_level at_bool_or) = at_level at_logic_and
looser (at_level at_logic_and) = at_level at_logic_or
looser (at_level at_logic_or) = at_trenary_op
looser at_trenary_op = at_trenary_op

abbrev pub rank : Grade → ℕ
rank at_factor = 0
rank at_concatenation = 1
rank at_power = 2
rank at_term = 3
rank (at_level at_mul_expr) = 4
rank (at_level at_add_expr) = 5
rank (at_level at_shift_expr) = 6
rank (at_level at_rel_op) = 7
rank (at_level at_equity) = 8
rank (at_level at_bool_and) = 9
rank (at_level at_bool_xor) = 10
rank (at_level at_bool_or) = 11
rank (at_level at_logic_and) = 12
rank (at_level at_logic_or) = 13
rank at_trenary_op = 14

abbrev pub from_rank : ℕ → Grade
from_rank zero = at_factor
from_rank (suc k) = looser (from_rank k)

-- The tokens that go on with an expression of a grade.
abbrev pub goes_on : Grade → Tok → Bool
goes_on at_factor t = t is tok_lpar || t is tok_id || t is tok_var || t is tok_lbracket
goes_on at_concatenation t = t is tok_hash
goes_on at_power t = t is tok_pow
goes_on at_term t = false
goes_on (at_level lv) t = is_some (operator lv t)
goes_on at_trenary_op t =
    t is tok_question || is_some (assigned_operator t) || t is tok_as || t is tok_comma

-- The tokens that end an expression of a grade.
abbrev pub ends_rank : ℕ → Tok → Bool
ends_rank zero t = not (goes_on at_factor t)
ends_rank (suc k) t = not (goes_on (from_rank (suc k)) t) && ends_rank k t

abbrev pub ends : Grade → Tok → Bool
ends g t = ends_rank (rank g) t

mutual
  pub data Expr (N : Type 0) : Type 0 where
    literal : Attribute N → Expr N
    named : Attribute N → Expr N
    applied : Attribute N → Exprs N → Expr N
    indexed : Attribute N → Expr N → Exprs N → Expr N
    binary_of : Operator → Expr N → Expr N → Expr N
    power_of : Expr N → Expr N → Expr N
    joined : Expr N → Expr N → Expr N
    minus_of plus_of not_of : Expr N → Expr N
    choice : Expr N → Expr N → Expr N → Expr N

  pub data Exprs (N : Type 0) : Type 0 where
    no_more : Exprs N
    also : Expr N → Exprs N → Exprs N

abbrev pub own : {N : Type 0} → Expr N → Grade
own (literal _) = at_factor
own (named _) = at_factor
own (applied _ _) = at_factor
own (indexed _ _ _) = at_factor
own (binary_of o _ _) = at_level (level_of o)
own (power_of _ _) = at_power
own (joined _ _) = at_concatenation
own (minus_of _) = at_term
own (plus_of _) = at_term
own (not_of _) = at_term
own (choice _ _ _) = at_trenary_op

module _ {N : Type 0} where
  abbrev pub sign : Tok → LexItem N
  sign t = (t, no_attribute)

  abbrev pub parens : List (LexItem N) → List (LexItem N)
  parens items = sign tok_lpar ∷ (items ++ (sign tok_rpar ∷ []))

  -- What binds more loosely than its place allows stands in parentheses.
  abbrev pub at_grade : Grade → Grade → List (LexItem N) → List (LexItem N)
  at_grade mine place items = if leb (rank mine) (rank place) then items else parens items

-- How an expression is written, and the list behind the first argument.
unfoldable mutual
  pub print : {N : Type 0} → Expr N → List (LexItem N)
  print (literal a) = (tok_var, a) ∷ []
  print (named a) = (tok_id, a) ∷ []
  print (applied a args) = (tok_id, a) ∷ sign tok_lpar ∷ print_args args
  print (indexed a e es) =
      (tok_id, a)
      ∷ sign tok_lbracket
      ∷ (at_grade (own e) (at_level at_logic_or) (print e) ++ print_indices es)
  print (binary_of o l r) =
      at_grade (own l) (at_level (level_of o)) (print l)
      ++ (sign (token_of o) ∷ at_grade (own r) (tighter (level_of o)) (print r))
  print (power_of l r) =
      at_grade (own l) at_concatenation (print l)
      ++ (sign tok_pow ∷ at_grade (own r) at_power (print r))
  print (joined l r) =
      at_grade (own l) at_concatenation (print l)
      ++ (sign tok_hash ∷ at_grade (own r) at_factor (print r))
  print (minus_of e) = sign tok_minus ∷ at_grade (own e) at_power (print e)
  print (plus_of e) = sign tok_plus ∷ at_grade (own e) at_power (print e)
  print (not_of e) = sign tok_not ∷ at_grade (own e) at_power (print e)
  print (choice c a b) =
      at_grade (own c) (at_level at_logic_or) (print c)
      ++ (sign tok_question ∷ (print a ++ (sign tok_colon ∷ print b)))

  pub print_args : {N : Type 0} → Exprs N → List (LexItem N)
  print_args no_more = sign tok_rpar ∷ []
  print_args (also e es) = at_grade (own e) (at_level at_logic_or) (print e) ++ print_more_args es

  pub print_more_args : {N : Type 0} → Exprs N → List (LexItem N)
  print_more_args no_more = sign tok_rpar ∷ []
  print_more_args (also e es) =
      sign tok_comma ∷ (at_grade (own e) (at_level at_logic_or) (print e) ++ print_more_args es)

  pub print_indices : {N : Type 0} → Exprs N → List (LexItem N)
  print_indices no_more = sign tok_rbracket ∷ []
  print_indices (also e es) =
      sign tok_comma ∷ (at_grade (own e) (at_level at_logic_or) (print e) ++ print_indices es)

-- The node that an expression stands for; the arguments are added in their order.
unfoldable mutual
  pub shape : {N : Type 0} → Expr N → AstShape N
  shape (literal a) = ast_node_var a
  shape (named a) = ast_node_id a
  shape (applied a args) = ast_node_call a (add_all no_nodes args)
  shape (indexed a e es) =
      ast_node_access a (add_all (add_node no_nodes (ast_node_new (shape e))) es)
  shape (binary_of o l r) =
      ast_node_op (ast_node_new (shape l)) (ast_node_new (shape r)) (opcode_of o)
  shape (power_of l r) = ast_node_op (ast_node_new (shape l)) (ast_node_new (shape r)) op_pow
  shape (joined l r) =
      ast_node_op (ast_node_new (shape l)) (ast_node_new (shape r)) op_octstr_concat
  shape (minus_of e) = ast_node_unary (ast_node_new (shape e)) op_minus
  shape (plus_of e) = ast_node_unary (ast_node_new (shape e)) op_plus
  shape (not_of e) = ast_node_unary (ast_node_new (shape e)) op_not
  shape (choice c a b) =
      ast_node_trenary (ast_node_new (shape c)) (ast_node_new (shape a)) (ast_node_new (shape b))

  pub add_all : {N : Type 0} → AstNodes N → Exprs N → AstNodes N
  add_all nodes no_more = nodes
  add_all nodes (also e es) = add_all (add_node nodes (ast_node_new (shape e))) es
