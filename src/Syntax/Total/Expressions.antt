-- ===== src/Syntax/Total/Expressions.antt =====
-- src/syntax.c: the fuel that the functions of the expressions need.
use crypti.Base.{
  ℕ, suc, ltb, Bool, true, ◌||◌, Option, none, some, ◌≡◌, inl, inr, Bool-cases, if◌then◌else◌,
}
use crypti.Token.{
  Tok, ◌is◌, tok_as, tok_not, tok_rpar, tok_rbrace, tok_rbracket, tok_comma, tok_colon,
  tok_question, tok_plus, tok_minus, tok_pow,
}
use crypti.Lexer.{Attribute}
use crypti.Syntax.Tree.{
  AstNode, AstShape, AstNodes, Opcode, null, ast_node, add_node, no_nodes, one_more,
  ast_node_stub_new, ast_node_op_new,
}
use crypti.Syntax.Goals.{
  Calls, Level, operand, level_rest, trenary_op_goal, assign_goal, seq_rest, Goal,
  concatenation_rest, at_logic_or, at_logic_and, at_bool_or, at_bool_xor, at_bool_and, at_equity,
  at_rel_op, at_shift_expr, at_add_expr, at_mul_expr,
}
use crypti.Syntax.Expressions.{or_stub, binary, trenary_op}
use crypti.Syntax.Operands.{
  term, unary_not, unary_plus, power, concatenation, array_access_indices, identifier,
}
use crypti.Syntax.Promises.{
  IsReal, AllReal, AreNodes, IsSequence, Inner, Promise, Gives, add_node-AllReal,
}
use crypti.Syntax.Assignments.{
  seq_more, is_lvalue_seq, assign_rest, with_nodes, assign_behind, seq_nodes, array_init_items,
  get_rval, get_seq_rest, assign, assign_or_not, assigned, assigned_operator, op_with_assign,
  is_lvalue, is_some, expr,
}
use crypti.Syntax.Invariant.Expressions.{operand-Inner}
use crypti.Syntax.Stream.{unless_null, current_tok, Parse, pure, error, ◌>>◌, on, ◌>>=◌}
use crypti.Syntax.Total.{
  promised-Runs, errors-Runs, bind-Runs, if-Runs, pure-Runs, ask-Runs, failed-Runs, Runs, running,
  running_on, on-Runs, on_any-Runs,
}
use crypti.Syntax.Total.Ranks.{Any, Same, Smaller}

module _ {N : Type 0} (call : Calls N) (φ : ℕ) where
  pub or_stub-Runs : (right : AstNode N) → Runs N φ (or_stub call right)
  or_stub-Runs right = search running depth 16

  pub identifier-Runs : Any call φ → Runs N φ (identifier call)
  identifier-Runs any = search (running_on, any) depth 20

  pub get_rval-Runs : Any call φ → Runs N φ (get_rval call)
  get_rval-Runs any = search (running_on, any) depth 20

  pub parens-Runs :
      Any call φ
      → Runs N φ (do stat ← call trenary_op_goal; on tok_rpar (pure stat) (do error; pure stat))
  parens-Runs any = search (running_on, any) depth 20

  pub joined-Runs :
      (left right : AstNode N) (op : Opcode)
      → Any call φ
      → Runs N φ
          (or_stub call right >>= λ node. call (concatenation_rest (ast_node_op_new left node op)))
  joined-Runs left right op any = search (running, any, or_stub-Runs) depth 20

  pub any_rpar : (m k : Parse N (AstNode N)) → Runs N φ m → Runs N φ k → Runs N φ (on tok_rpar m k)
  any_rpar m k h h' = on_any-Runs N φ tok_rpar m k h h'

  pub right-Runs :
      (lv : Level) (left : AstNode N) (op : Opcode)
      → Any call φ
      → Runs N φ (
          call (operand lv) >>= λ right.
          or_stub call right >>= λ node. call (level_rest lv (ast_node_op_new left node op)))
  right-Runs lv left op any = search (running, any, operand-Inner, or_stub-Runs) depth 20

  any_colon : (m k : Parse N (AstNode N)) → Runs N φ m → Runs N φ k → Runs N φ (on tok_colon m k)
  any_colon m k h h' = on_any-Runs N φ tok_colon m k h h'

module _ {N : Type 0} (call : Calls N) (φ : ℕ) (any : Any call φ) where
  seq_more-Runs :
      (nodes : AstNodes N) (node : AstNode N) → AllReal nodes → Runs N φ (seq_more call nodes node)
  seq_more-Runs nodes null h = search running depth 16
  seq_more-Runs nodes (ast_node sh child) h =
      let node = ast_node sh child in
      let again = any (seq_rest (add_node nodes node)) (add_node-AllReal nodes node h tt) in
      errors-Runs N φ _ _ (search running depth 16) again

  is_lvalue_seq-Runs :
      (nodes : AstNodes N) (m k : Parse N (AstNode N))
      → AllReal nodes
      → Runs N φ m
      → Runs N φ k
      → Runs N φ (is_lvalue_seq nodes m k)
  unfolding is_lvalue_seq
  is_lvalue_seq-Runs no_nodes m k h h' h'' = h'
  is_lvalue_seq-Runs (one_more null rest) m k h h' h'' = absurd h.0
  is_lvalue_seq-Runs (one_more (ast_node sh child) rest) m k h h' h'' =
      if-Runs N φ (is_lvalue (ast_node sh child)) _ _ (is_lvalue_seq-Runs rest m k h.1 h' h'') h''

  assign_rest-Runs :
      (lseq : AstNode N) (nesting : ℕ) (node : AstNode N)
      → Runs N φ (assign_rest call lseq nesting node)
  assign_rest-Runs lseq nesting null = pure-Runs N φ _
  assign_rest-Runs lseq nesting (ast_node sh child) =
      let again = any (assign_goal (ast_node sh child) (suc nesting)) tt in
      search (running, again) depth 16

  to_lvalues-Runs :
      (lseq : AstNode N) (nesting : ℕ) (o : Option (AstNodes N))
      → AreNodes o
      → Runs N φ (
          with_nodes o λ nodes.
            is_lvalue_seq nodes
              (do node ← get_rval call; assign_rest call lseq nesting node)
              (pure ast_node_stub_new))
  to_lvalues-Runs lseq nesting none h = absurd h
  to_lvalues-Runs lseq nesting (some nodes) h =
      is_lvalue_seq-Runs nodes _ _ h
        (bind-Runs N φ (get_rval call) _ (get_rval-Runs call φ any) (assign_rest-Runs lseq nesting))
        (pure-Runs N φ _)

module _ {N : Type 0} (call : Calls N) (φ : ℕ) where
  pub logic_or-Runs : Same call φ 16 → Runs N φ (binary call at_logic_or)
  logic_or-Runs same = search (running, same) depth 16

  pub logic_and-Runs : Same call φ 15 → Runs N φ (binary call at_logic_and)
  logic_and-Runs same = search (running, same) depth 16

  pub bool_or-Runs : Same call φ 14 → Runs N φ (binary call at_bool_or)
  bool_or-Runs same = search (running, same) depth 16

  pub bool_xor-Runs : Same call φ 13 → Runs N φ (binary call at_bool_xor)
  bool_xor-Runs same = search (running, same) depth 16

  pub bool_and-Runs : Same call φ 12 → Runs N φ (binary call at_bool_and)
  bool_and-Runs same = search (running, same) depth 16

  pub equity-Runs : Same call φ 11 → Runs N φ (binary call at_equity)
  equity-Runs same = search (running, same) depth 16

  pub rel_op-Runs : Same call φ 10 → Runs N φ (binary call at_rel_op)
  rel_op-Runs same = search (running, same) depth 16

  pub shift_expr-Runs : Same call φ 9 → Runs N φ (binary call at_shift_expr)
  shift_expr-Runs same = search (running, same) depth 16

  pub add_expr-Runs : Same call φ 8 → Runs N φ (binary call at_add_expr)
  add_expr-Runs same = search (running, same) depth 16

  pub mul_expr-Runs : Same call φ 7 → Runs N φ (binary call at_mul_expr)
  mul_expr-Runs same = search (running, same) depth 16

  pub trenary_op-Runs : Same call φ 17 → Smaller call φ → Runs N φ (trenary_op call)
  trenary_op-Runs same smaller =
      search (running, same, smaller, on-Runs N φ tok_question, any_colon) depth 24

  pub term-Runs : Same call φ 6 → Runs N φ (term call)
  term-Runs same = search (running, same) depth 20

  pub unary_not-Runs :
      (flag : Bool) → Same call φ 5 → Smaller call φ → Runs N φ (unary_not call flag)
  unary_not-Runs flag same smaller = search (running, same, smaller, on-Runs N φ tok_not) depth 20

  pub unary_plus-Runs :
      (flag : Bool) → Same call φ 5 → Smaller call φ → Runs N φ (unary_plus call flag)
  unary_plus-Runs flag same smaller =
      search (running, same, smaller, on-Runs N φ tok_plus, on-Runs N φ tok_minus) depth 20

  pub power-Runs : Same call φ 4 → Smaller call φ → Runs N φ (power call)
  power-Runs same smaller =
      search (running, same, smaller, on-Runs N φ tok_pow, or_stub-Runs) depth 20

  pub concatenation-Runs : Same call φ 3 → Runs N φ (concatenation call)
  concatenation-Runs same = search (running, same) depth 20

  pub access_rest-Runs :
      (a : Attribute N) (ind : AstNodes N)
      → Same call φ 17
      → Smaller call φ
      → Runs N φ (array_access_indices call a ind)
  access_rest-Runs a ind same smaller =
      search (running, same, smaller, on-Runs N φ tok_comma, on_any-Runs N φ tok_rbracket) depth 20

  pub array_rest-Runs :
      (arr : AstNodes N) → Same call φ 17 → Smaller call φ → Runs N φ (array_init_items call arr)
  array_rest-Runs arr same smaller =
      search (running, same, smaller, on-Runs N φ tok_comma, on_any-Runs N φ tok_rbrace) depth 20

  pub seq_rest-Runs :
      (nodes : AstNodes N) → AllReal nodes → Smaller call φ → Runs N φ (get_seq_rest call nodes)
  seq_rest-Runs nodes h smaller =
      on-Runs N φ tok_comma _ _ tt
        (λ φ' less.
          bind-Runs N φ' (get_rval call) _ (get_rval-Runs call φ' (smaller φ' less))
            λ node. seq_more-Runs call φ' (smaller φ' less) nodes node h)
        (pure-Runs N φ _)

  assign_behind-Runs :
      (nesting : ℕ) (lseq : AstNode N)
      → Smaller call φ
      → IsSequence lseq
      → Runs N φ (assign_behind call nesting lseq)
  assign_behind-Runs nesting null smaller h = pure-Runs N φ _
  assign_behind-Runs nesting (ast_node sh child) smaller h =
      let lseq = ast_node sh child in
      let stub = pure-Runs N φ (ast_node_stub_new {N = N}) in
      errors-Runs N φ _ _ stub (
        on-Runs N φ tok_as _ _ tt
          (λ φ' less. to_lvalues-Runs call φ' (smaller φ' less) lseq nesting (seq_nodes lseq) h)
          (if-Runs N φ (ltb 0 nesting) _ _ (pure-Runs N φ lseq) stub))

  pub assign-Runs :
      ((g : Goal N) → Inner g → Gives N (call g) (Promise g))
      → (first : AstNode N) (nesting : ℕ) → IsReal first
      → Same call φ 18
      → Smaller call φ
      → Runs N φ (assign call first nesting)
  assign-Runs promise first nesting h same smaller =
      let goal = seq_rest (add_node no_nodes first) in
      let real = add_node-AllReal no_nodes first tt h in
      promised-Runs N φ IsSequence (call goal) _ (same goal real tt) (promise goal real)
        λ lseq q. assign_behind-Runs nesting lseq smaller q

  assigned-Runs :
      (left : AstNode N) (o : Option Opcode)
      → is_some o ≡ true
      → Same call φ 19
      → Runs N φ (assigned call left o)
  assigned-Runs left none e same = cc e
  assigned-Runs left (some op) e same = search (running, same) depth 20

  op_with_assign-Runs :
      (sh : AstShape N) (child : AstNode N) (t : Tok)
      → Same call φ 19
      → Runs N φ (
          if is_some (assigned_operator t)
          then op_with_assign call (ast_node sh child) t
          else pure (ast_node sh child))
  op_with_assign-Runs sh child t same = elim (Bool-cases (is_some (assigned_operator t))) [
    | inl e ↦ rw e (
        if-Runs N φ (is_lvalue (ast_node sh child)) _ _ (assigned-Runs (ast_node sh child) _ e same)
          (failed-Runs N φ))
    | inr e ↦ rw e (pure-Runs N φ (ast_node sh child))
  ]

  switch-Runs :
      (sh : AstShape N) (child : AstNode N) (t : Tok)
      → Same call φ 19
      → Runs N φ (assign_or_not call (ast_node sh child) t)
  switch-Runs sh child t same =
      if-Runs N φ (t is tok_as || t is tok_comma) _ _
        (same (assign_goal (ast_node sh child) 0) tt tt) (op_with_assign-Runs sh child t same)

  left-Runs :
      (left : AstNode N)
      → Same call φ 19
      → Runs N φ (unless_null left (pure null) (do t ← current_tok; assign_or_not call left t))
  left-Runs null same = pure-Runs N φ null
  left-Runs (ast_node sh child) same =
      bind-Runs N φ current_tok _ (ask-Runs N φ λ s. s.lex_item.0) λ t. switch-Runs sh child t same

  pub expr-Runs : Same call φ 19 → Runs N φ (expr call)
  expr-Runs same = bind-Runs N φ _ _ (same trenary_op_goal tt tt) λ left. left-Runs left same
