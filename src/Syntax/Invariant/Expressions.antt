-- ===== src/Syntax/Invariant/Expressions.antt =====
-- src/syntax.c: the functions of the expressions keep the numbers.
use crypti.Base.{
  ℕ, suc, ltb, Bool, true, ◌||◌, Option, none, some, ◌≡◌, inl, inr, Bool-cases, if◌then◌else◌,
}
use crypti.Token.{Tok, ◌is◌, tok_as, tok_comma}
use crypti.Lexer.{Attribute}
use crypti.Syntax.Tree.{
  AstNode, AstShape, AstNodes, Opcode, null, ast_node, add_node, no_nodes, one_more,
  ast_node_stub_new,
}
use crypti.Syntax.Goals.{
  Goal, Calls, Level, operand, trenary_op_goal, assign_goal, seq_rest, at_logic_or, at_logic_and,
  at_bool_or, at_bool_xor, at_bool_and, at_equity, at_rel_op, at_shift_expr, at_add_expr,
  at_mul_expr,
}
use crypti.Syntax.Expressions.{
  or_stub, binary, binary_turn, binary_rest, parse_level, parse_level_rest, trenary_op,
}
use crypti.Syntax.Operands.{
  term, unary_not, unary_plus, power, concatenation, concatenation_turn, function_call_args,
  array_access_indices, identifier, factor,
}
use crypti.Syntax.Promises.{
  IsReal, AllReal, AreNodes, IsSequence, Inner, Promise, Gives, add_node-AllReal,
}
use crypti.Syntax.Assignments.{
  seq_more, is_lvalue_seq, assign_rest, with_nodes, assign_behind, seq_nodes, array_init_items,
  get_rval, get_seq_rest, assign, assign_or_not, assigned, assigned_operator, op_with_assign,
  is_lvalue, is_some, expr,
}
use crypti.Syntax.Stream.{Parse, pure, ◌>>=◌, unless_null, current_tok}
use crypti.Syntax.Invariant.{
  given-Keeps, errors-Keeps, on-Keeps, bind-Keeps, if-Keeps, pure-Keeps, ask-Keeps, Keeps, keeping,
  failed-Keeps, is_eof-Keeps,
}

pub operand-Inner : (N : Type 0) (lv : Level) → Inner (operand {N = N} lv)
operand-Inner N at_logic_or = tt
operand-Inner N at_logic_and = tt
operand-Inner N at_bool_or = tt
operand-Inner N at_bool_xor = tt
operand-Inner N at_bool_and = tt
operand-Inner N at_equity = tt
operand-Inner N at_rel_op = tt
operand-Inner N at_shift_expr = tt
operand-Inner N at_add_expr = tt
operand-Inner N at_mul_expr = tt

module _ {N : Type 0} (call : Calls N) (keeps : (g : Goal N) → Inner g → Keeps N (call g)) where
  or_stub-Keeps : (right : AstNode N) → Keeps N (or_stub call right)
  or_stub-Keeps right = search (keeping, failed-Keeps) depth 16

  binary-Keeps : (lv : Level) → Keeps N (binary call lv)
  binary-Keeps lv = search (keeping, keeps, operand-Inner) depth 16

  turn-Keeps :
      (lv : Level) (left : AstNode N) (o : Option Opcode) → Keeps N (binary_turn call lv left o)
  turn-Keeps lv left none = search keeping depth 16
  turn-Keeps lv left (some op) = search (keeping, keeps, operand-Inner, or_stub-Keeps) depth 16

  pub level-Keeps : (lv : Level) → Keeps N (parse_level call lv)
  level-Keeps at_logic_or = binary-Keeps at_logic_or
  level-Keeps at_logic_and = binary-Keeps at_logic_and
  level-Keeps at_bool_or = binary-Keeps at_bool_or
  level-Keeps at_bool_xor = binary-Keeps at_bool_xor
  level-Keeps at_bool_and = binary-Keeps at_bool_and
  level-Keeps at_equity = binary-Keeps at_equity
  level-Keeps at_rel_op = binary-Keeps at_rel_op
  level-Keeps at_shift_expr = binary-Keeps at_shift_expr
  level-Keeps at_add_expr = binary-Keeps at_add_expr
  level-Keeps at_mul_expr = binary-Keeps at_mul_expr

  binary_rest-Keeps : (lv : Level) (left : AstNode N) → Keeps N (binary_rest call lv left)
  binary_rest-Keeps lv left = search (keeping, turn-Keeps) depth 16

  pub rest-Keeps : (lv : Level) (left : AstNode N) → Keeps N (parse_level_rest call lv left)
  rest-Keeps at_logic_or left = binary_rest-Keeps at_logic_or left
  rest-Keeps at_logic_and left = binary_rest-Keeps at_logic_and left
  rest-Keeps at_bool_or left = binary_rest-Keeps at_bool_or left
  rest-Keeps at_bool_xor left = binary_rest-Keeps at_bool_xor left
  rest-Keeps at_bool_and left = binary_rest-Keeps at_bool_and left
  rest-Keeps at_equity left = binary_rest-Keeps at_equity left
  rest-Keeps at_rel_op left = binary_rest-Keeps at_rel_op left
  rest-Keeps at_shift_expr left = binary_rest-Keeps at_shift_expr left
  rest-Keeps at_add_expr left = binary_rest-Keeps at_add_expr left
  rest-Keeps at_mul_expr left = binary_rest-Keeps at_mul_expr left

  pub trenary_op-Keeps : Keeps N (trenary_op call)
  trenary_op-Keeps = search (keeping, keeps, failed-Keeps) depth 16

  pub term-Keeps : Keeps N (term call)
  term-Keeps = search (keeping, keeps, is_eof-Keeps) depth 16

  pub unary_not-Keeps : (flag : Bool) → Keeps N (unary_not call flag)
  unary_not-Keeps flag = search (keeping, keeps) depth 16

  pub unary_plus-Keeps : (flag : Bool) → Keeps N (unary_plus call flag)
  unary_plus-Keeps flag = search (keeping, keeps) depth 16

  pub power-Keeps : Keeps N (power call)
  power-Keeps = search (keeping, keeps, or_stub-Keeps) depth 16

  pub concatenation-Keeps : Keeps N (concatenation call)
  concatenation-Keeps = search (keeping, keeps) depth 16

  pub concatenation_turn-Keeps : (left : AstNode N) → Keeps N (concatenation_turn call left)
  concatenation_turn-Keeps left = search (keeping, keeps, or_stub-Keeps) depth 16

  pub function_call_args-Keeps :
      (a : Attribute N) (args : AstNodes N) → Keeps N (function_call_args call a args)
  function_call_args-Keeps a args = search (keeping, keeps, failed-Keeps) depth 16

  pub array_access_indices-Keeps :
      (a : Attribute N) (ind : AstNodes N) → Keeps N (array_access_indices call a ind)
  array_access_indices-Keeps a ind = search (keeping, keeps, failed-Keeps) depth 16

  pub identifier-Keeps : Keeps N (identifier call)
  identifier-Keeps = search (keeping, keeps, failed-Keeps) depth 16

  pub factor-Keeps : Keeps N (factor call)
  factor-Keeps = search (keeping, keeps, identifier-Keeps) depth 16

  pub array_init_items-Keeps : (arr : AstNodes N) → Keeps N (array_init_items call arr)
  array_init_items-Keeps arr = search (keeping, keeps) depth 16

  get_rval-Keeps : Keeps N (get_rval call)
  get_rval-Keeps = search (keeping, keeps) depth 16

  seq_more-Keeps :
      (nodes : AstNodes N) (node : AstNode N) → AllReal nodes → Keeps N (seq_more call nodes node)
  seq_more-Keeps nodes null h = search keeping depth 16
  seq_more-Keeps nodes (ast_node sh child) h =
      let node = ast_node sh child in
      let again = keeps (seq_rest (add_node nodes node)) (add_node-AllReal nodes node h tt) in
      errors-Keeps N _ _ (search keeping depth 16) again

  pub get_seq_rest-Keeps : (nodes : AstNodes N) → AllReal nodes → Keeps N (get_seq_rest call nodes)
  get_seq_rest-Keeps nodes h =
      on-Keeps N tok_comma _ _
        (bind-Keeps N (get_rval call) _ get_rval-Keeps λ node. seq_more-Keeps nodes node h)
        (pure-Keeps N _)

  is_lvalue_seq-Keeps :
      (nodes : AstNodes N) (m k : Parse N (AstNode N))
      → AllReal nodes
      → Keeps N m
      → Keeps N k
      → Keeps N (is_lvalue_seq nodes m k)
  unfolding is_lvalue_seq
  is_lvalue_seq-Keeps no_nodes m k h h' h'' = h'
  is_lvalue_seq-Keeps (one_more null rest) m k h h' h'' = absurd h.0
  is_lvalue_seq-Keeps (one_more (ast_node sh child) rest) m k h h' h'' =
      if-Keeps N (is_lvalue (ast_node sh child)) _ _ (is_lvalue_seq-Keeps rest m k h.1 h' h'') h''

  assign_rest-Keeps :
      (lseq : AstNode N) (nesting : ℕ) (node : AstNode N)
      → Keeps N (assign_rest call lseq nesting node)
  assign_rest-Keeps lseq nesting null = pure-Keeps N _
  assign_rest-Keeps lseq nesting (ast_node sh child) =
      let again = keeps (assign_goal (ast_node sh child) (suc nesting)) tt in
      search (keeping, again) depth 16

  with_nodes-Keeps :
      (o : Option (AstNodes N)) (f : AstNodes N → Parse N (AstNode N))
      → AreNodes o
      → ((nodes : AstNodes N) → AllReal nodes → Keeps N (f nodes))
      → Keeps N (with_nodes o f)
  with_nodes-Keeps none f h k = absurd h
  with_nodes-Keeps (some nodes) f h k = k nodes h

  assign_behind-Keeps :
      (nesting : ℕ) (lseq : AstNode N) → IsSequence lseq → Keeps N (assign_behind call nesting lseq)
  assign_behind-Keeps nesting null h = pure-Keeps N _
  assign_behind-Keeps nesting (ast_node sh child) h =
      let lseq = ast_node sh child in
      let stub = pure-Keeps N (ast_node_stub_new {N = N}) in
      errors-Keeps N _ _ stub (
        on-Keeps N tok_as _ _
          (with_nodes-Keeps (seq_nodes lseq) _ h λ nodes real.
            is_lvalue_seq-Keeps nodes _ _ real
              (bind-Keeps N (get_rval call) _ get_rval-Keeps (assign_rest-Keeps lseq nesting)) stub)
          (if-Keeps N (ltb 0 nesting) _ _ (pure-Keeps N lseq) stub))

  pub assign-Keeps :
      ((g : Goal N) → Inner g → Gives N (call g) (Promise g))
      → (first : AstNode N) (nesting : ℕ) → IsReal first
      → Keeps N (assign call first nesting)
  assign-Keeps promise first nesting h =
      let goal = seq_rest (add_node no_nodes first) in
      let real = add_node-AllReal no_nodes first tt h in
      given-Keeps N IsSequence (call goal) _ (keeps goal real) (promise goal real)
        (assign_behind-Keeps nesting)

  assigned-Keeps :
      (left : AstNode N) (o : Option Opcode) → is_some o ≡ true → Keeps N (assigned call left o)
  assigned-Keeps left none e = cc e
  assigned-Keeps left (some op) e = search (keeping, keeps, failed-Keeps) depth 16

  -- Neither the assertion nor the `default` of `op_with_assign` is reached.
  op_with_assign-Keeps :
      (sh : AstShape N) (child : AstNode N) (t : Tok)
      → Keeps N (
          if is_some (assigned_operator t)
          then op_with_assign call (ast_node sh child) t
          else pure (ast_node sh child))
  op_with_assign-Keeps sh child t = elim (Bool-cases (is_some (assigned_operator t))) [
    | inl e ↦ rw e (
        if-Keeps N (is_lvalue (ast_node sh child)) _ _ (assigned-Keeps (ast_node sh child) _ e)
          (failed-Keeps N))
    | inr e ↦ rw e (pure-Keeps N (ast_node sh child))
  ]

  switch-Keeps :
      (sh : AstShape N) (child : AstNode N) (t : Tok)
      → Keeps N (assign_or_not call (ast_node sh child) t)
  switch-Keeps sh child t =
      if-Keeps N (t is tok_as || t is tok_comma) _ _ (keeps (assign_goal (ast_node sh child) 0) tt)
        (op_with_assign-Keeps sh child t)

  left-Keeps :
      (left : AstNode N)
      → Keeps N (unless_null left (pure null) (do t ← current_tok; assign_or_not call left t))
  left-Keeps null = pure-Keeps N null
  left-Keeps (ast_node sh child) =
      bind-Keeps N current_tok _ (ask-Keeps N λ s. s.lex_item.0) (switch-Keeps sh child)

  pub expr-Keeps : Keeps N (expr call)
  expr-Keeps = bind-Keeps N _ _ (keeps trenary_op_goal tt) left-Keeps
