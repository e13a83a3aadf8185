-- ===== src/Syntax/Reading/Levels.antt =====
-- src/syntax.c: the loops of the ten levels of operators.
use crypti.Base.{
  ◌≡◌, refl, ap, ◌∙◌, sym, true, not, ◌&&◌, Option, some, List, ◌∷◌, ◌++◌, append_assoc, and-true,
}
use crypti.Run.{Run, ok}
use crypti.Token.{Tok}
use crypti.Lexer.{Attribute, LexItem}
use crypti.Syntax.Tree.{AstNode, AstShape, ast_node_new, ast_node_op, ast_node_op_new, null, Opcode}
use crypti.Syntax.Stream.{Parser, first_item, after, pure, unless_null, ◌>>=◌}
use crypti.Syntax.Goals.{
  Calls, operand, Level, level, level_rest, operator, at_logic_or, at_logic_and, at_bool_or,
  at_bool_xor, at_bool_and, at_equity, at_rel_op, at_shift_expr, at_add_expr, at_mul_expr,
}
use crypti.Syntax.Expressions.{binary_turn, or_stub}
use crypti.Syntax.Assignments.{is_some}
use crypti.Syntax.Printing.{
  at_level, ends, tighter, Operator, level_of, token_of, opcode_of, sign, by_l_or, by_l_and,
  by_b_or, by_b_xor, by_b_and, by_eq, by_neq, by_gr, by_ge, by_lo, by_le, by_shl, by_shr, by_plus,
  by_minus, by_mul, by_div, by_mod,
}
use crypti.Syntax.Grammar.{step}
use crypti.Syntax.Reading.{goal_of, at_items, Reaches-then, Reaches-stop, Reads, Leads, not-some}

ends-level :
    (lv : Level) (t : Tok)
    → ends (at_level lv) t ≡ (not (is_some (operator lv t)) && ends (tighter lv) t)
ends-level at_logic_or t = refl
ends-level at_logic_and t = refl
ends-level at_bool_or t = refl
ends-level at_bool_xor t = refl
ends-level at_bool_and t = refl
ends-level at_equity t = refl
ends-level at_rel_op t = refl
ends-level at_shift_expr t = refl
ends-level at_add_expr t = refl
ends-level at_mul_expr t = refl

pub operator-token : (o : Operator) → operator (level_of o) (token_of o) ≡ some (opcode_of o)
operator-token by_l_or = refl
operator-token by_l_and = refl
operator-token by_b_or = refl
operator-token by_b_xor = refl
operator-token by_b_and = refl
operator-token by_eq = refl
operator-token by_neq = refl
operator-token by_gr = refl
operator-token by_ge = refl
operator-token by_lo = refl
operator-token by_le = refl
operator-token by_shl = refl
operator-token by_shr = refl
operator-token by_plus = refl
operator-token by_minus = refl
operator-token by_mul = refl
operator-token by_div = refl
operator-token by_mod = refl

pub token-ends : (o : Operator) → ends (tighter (level_of o)) (token_of o) ≡ true
token-ends by_l_or = refl
token-ends by_l_and = refl
token-ends by_b_or = refl
token-ends by_b_xor = refl
token-ends by_b_and = refl
token-ends by_eq = refl
token-ends by_neq = refl
token-ends by_gr = refl
token-ends by_ge = refl
token-ends by_lo = refl
token-ends by_le = refl
token-ends by_shl = refl
token-ends by_shr = refl
token-ends by_plus = refl
token-ends by_minus = refl
token-ends by_mul = refl
token-ends by_div = refl
token-ends by_mod = refl

module _ {N : Type 0} (fopen : Attribute N → Option (List (LexItem N))) (s : Parser N) where
  -- What a level does behind its first operand, and its loop behind a right operand.
  abbrev behind : Calls N → Level → Run (AstNode N × Parser N) → Run (AstNode N × Parser N)
  behind call lv r = after r λ result. unless_null result (pure null) (call (level_rest lv result))

  abbrev behind_right :
      Calls N → Level → AstNode N → Opcode → Run (AstNode N × Parser N) → Run (AstNode N × Parser N)
  behind_right call lv left op r =
      after r
        λ right. or_stub call right >>= λ node. call (level_rest lv (ast_node_op_new left node op))

  -- The first operand, and then the loop.
  level-first :
      (call : Calls N) (lv : Level) (before : Parser N) (sh : AstShape N) (s' : Parser N)
      → call (goal_of (tighter lv)) before ≡ ok (ast_node_new sh, s')
      → step fopen call (level lv) before ≡ call (level_rest lv (ast_node_new sh)) s'
  level-first call at_logic_or before sh s' h = ap (behind call at_logic_or) h
  level-first call at_logic_and before sh s' h = ap (behind call at_logic_and) h
  level-first call at_bool_or before sh s' h = ap (behind call at_bool_or) h
  level-first call at_bool_xor before sh s' h = ap (behind call at_bool_xor) h
  level-first call at_bool_and before sh s' h = ap (behind call at_bool_and) h
  level-first call at_equity before sh s' h = ap (behind call at_equity) h
  level-first call at_rel_op before sh s' h = ap (behind call at_rel_op) h
  level-first call at_shift_expr before sh s' h = ap (behind call at_shift_expr) h
  level-first call at_add_expr before sh s' h = ap (behind call at_add_expr) h
  level-first call at_mul_expr before sh s' h = ap (behind call at_mul_expr) h

  -- The loop of a level is one for all levels.
  rest-step :
      (call : Calls N) (lv : Level) (left : AstNode N) (before : Parser N)
      → step fopen call (level_rest lv left) before
        ≡ binary_turn call lv left (operator lv before.lex_item.0) before
  rest-step call at_logic_or left before = refl
  rest-step call at_logic_and left before = refl
  rest-step call at_bool_or left before = refl
  rest-step call at_bool_xor left before = refl
  rest-step call at_bool_and left before = refl
  rest-step call at_equity left before = refl
  rest-step call at_rel_op left before = refl
  rest-step call at_shift_expr left before = refl
  rest-step call at_add_expr left before = refl
  rest-step call at_mul_expr left before = refl

  operand-goal : (lv : Level) → operand {N = N} lv ≡ goal_of (tighter lv)
  operand-goal at_logic_or = refl
  operand-goal at_logic_and = refl
  operand-goal at_bool_or = refl
  operand-goal at_bool_xor = refl
  operand-goal at_bool_and = refl
  operand-goal at_equity = refl
  operand-goal at_rel_op = refl
  operand-goal at_shift_expr = refl
  operand-goal at_add_expr = refl
  operand-goal at_mul_expr = refl

  -- Behind an operator the loop reads an operand and goes on with the new node.
  rest-operator :
      (call : Calls N) (lv : Level) (op : Opcode) (left sh : AstShape N) (prev p : LexItem N)
      (t : Tok) (items rest : List (LexItem N))
      → operator lv t ≡ some op
      → call (goal_of (tighter lv)) (at_items s (sign t) items)
        ≡ ok (ast_node_new sh, at_items s p rest)
      → step fopen call (level_rest lv (ast_node_new left)) (at_items s prev (sign t ∷ items))
        ≡ call
            (level_rest lv (ast_node_op_new (ast_node_new left) (ast_node_new sh) op))
            (at_items s p rest)
  rest-operator call lv op left sh prev p t items rest e h =
      rest-step call lv (ast_node_new left) (at_items s prev (sign t ∷ items))
      ∙ ap (λ o. binary_turn call lv (ast_node_new left) o (at_items s prev (sign t ∷ items))) e
      ∙ ap (λ g. behind_right call lv (ast_node_new left) op (call g (at_items s (sign t) items)))
          (operand-goal lv)
      ∙ ap (behind_right call lv (ast_node_new left) op) h

  -- A left operand, an operator and a right operand are a left operand.
  pub operator-Leads :
      (lv : Level) (t : Tok) (op : Opcode) (ls rs : List (LexItem N)) (l r : AstShape N)
      → operator lv t ≡ some op
      → ends (tighter lv) t ≡ true
      → Leads fopen s lv ls l
      → Reads fopen s (tighter lv) rs r
      → Leads fopen s lv (ls ++ (sign t ∷ rs)) (ast_node_op (ast_node_new l) (ast_node_new r) op)
  operator-Leads lv t op ls rs l r e stop leads reads prev rest rest' sh' e' more =
      rw (append_assoc ls (sign t ∷ rs) rest) (
        leads prev (sign t ∷ (rs ++ rest)) rest' sh' stop λ p.
          Reaches-then fopen s (level_rest lv (ast_node_new l)) (goal_of (tighter lv))
            (level_rest lv _) _ _ r sh' (λ q. at_items s q rest) rest rest' (reads (sign t) rest e')
            more (λ call q h. rest-operator call lv op l r p q t (rs ++ rest) rest e h))

  -- The loop of a level ends where an expression of the level does.
  pub Leads-Reads :
      (lv : Level) (ts : List (LexItem N)) (sh : AstShape N)
      → Leads fopen s lv ts sh
      → Reads fopen s (at_level lv) ts sh
  Leads-Reads lv ts sh leads prev rest e =
      let (stop, more) = and-true (sym (ends-level lv (first_item rest).0) ∙ e) in
      leads prev rest rest sh more λ p.
        Reaches-stop fopen s (level_rest lv (ast_node_new sh)) (at_items s p rest) sh p rest
          (λ call.
            rest-step call lv (ast_node_new sh) (at_items s p rest)
            ∙ ap (λ o. binary_turn call lv (ast_node_new sh) o (at_items s p rest))
                (not-some _ stop))

  pub level-Leads :
      (lv : Level) (ts : List (LexItem N)) (sh : AstShape N)
      → Reads fopen s (tighter lv) ts sh
      → Leads fopen s lv ts sh
  level-Leads lv ts sh reads prev rest rest' sh' e more =
      Reaches-then fopen s (level lv) (goal_of (tighter lv)) (level_rest lv (ast_node_new sh)) _ _
        sh sh' (λ p. at_items s p rest) rest rest' (reads prev rest e) more
        (λ call p h. level-first call lv _ sh _ h)
