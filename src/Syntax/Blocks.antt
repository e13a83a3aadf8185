-- ===== src/Syntax/Blocks.antt =====
-- src/syntax.c: the statements of a scope are chained by their children, but the body of a scope is
-- its child, too.
use crypti.Base.{
  ℕ, suc, ◌+◌, ◌≤◌, ◌≡◌, refl, ap, ◌∙◌, sym, true, Option, List, [], ◌∷◌, ◌++◌, arith, append_assoc,
}
use crypti.Run.{ok}
use crypti.Token.{tok_semicolon, tok_lbrace, tok_rbrace}
use crypti.Lexer.{Attribute, LexItem}
use crypti.Syntax.Tree.{AstNode, AstShape, ast_node, ast_node_new, null, ast_node_scope_new}
use crypti.Syntax.Stream.{Parser}
use crypti.Syntax.Goals.{Goal, Calls, global_expr_goal, expr_goal, statement_goal, block_goal}
use crypti.Syntax.Statements.{attach}
use crypti.Syntax.Printing.{Expr, print, shape, own, sign}
use crypti.Syntax.Grammar.{parse, step}
use crypti.Syntax.Reading.{
  at_items, Start, by_par, by_id, by_var, by_sign, by_minus, by_not, parse-suc,
}
use crypti.Syntax.Reading.Choices.{expr-Reaches}
use crypti.Syntax.Reading.Grades.{Graded-trenary, Opens-any}
use crypti.Syntax.RoundTrip.{print-Graded}
use crypti.Syntax.Programs.{Parsed, fresh}

-- Expressions, each with a semicolon behind it, and their chain.
unfoldable pub print_block : {N : Type 0} → List (Expr N) → List (LexItem N)
print_block [] = []
print_block (e ∷ es) = print e ++ (sign tok_semicolon ∷ print_block es)

unfoldable pub chain : {N : Type 0} → List (Expr N) → AstNode N
chain [] = null
chain (e ∷ es) = ast_node (shape e) (chain es)

abbrev pub braces : {N : Type 0} → List (LexItem N) → List (LexItem N)
braces items = sign tok_lbrace ∷ (items ++ (sign tok_rbrace ∷ []))

attach-chain :
    {N : Type 0} (sh : AstShape N) (es : List (Expr N))
    → attach (ast_node_new sh) (chain es) ≡ ast_node sh (chain es)
unfolding chain
attach-chain sh [] = refl
attach-chain sh (e ∷ es) = refl

module _ {N : Type 0} (fopen : Attribute N → Option (List (LexItem N))) (s : Parser N) where
  -- With enough fuel the goal gives the tree, and the rest is left.
  abbrev Gives : Goal N → Parser N → AstNode N → List (LexItem N) → Type 0
  Gives goal before node rest =
      (bound : ℕ) × (prev : LexItem N) × ((n : ℕ)
        → bound ≤ n
        → parse fopen n goal before ≡ ok (node, at_items s prev rest))

  Gives-done :
      (goal inner : Goal N) (before middle : Parser N) (node' node : AstNode N) (last : LexItem N)
      (rest' rest : List (LexItem N))
      → Gives inner middle node' rest'
      → ((call : Calls N) (p : LexItem N)
          → call inner middle ≡ ok (node', at_items s p rest')
          → step fopen call goal before ≡ ok (node, at_items s last rest))
      → Gives goal before node rest
  Gives-done goal inner before middle node' node last rest' rest (b, p, k) h =
      (suc b, last, parse-suc fopen s goal before _ b λ n enough. h (parse fopen n) p (k n enough))

  Gives-two :
      (goal inner next : Goal N) (before middle go : Parser N) (node' node'' node : AstNode N)
      (rest' rest : List (LexItem N))
      → Gives inner middle node' rest'
      → Gives next go node'' rest
      → ((call : Calls N) (p q : LexItem N)
          → call inner middle ≡ ok (node', at_items s p rest')
          → call next go ≡ ok (node'', at_items s q rest)
          → step fopen call goal before ≡ ok (node, at_items s q rest))
      → Gives goal before node rest
  Gives-two goal inner next before middle go node' node'' node rest' rest (b, p, k) (b', q, k') h =
      (
        suc (b + b'),
        q,
        parse-suc fopen s goal before _ (b + b')
            λ n enough. h (parse fopen n) p q (k n (omega arith)) (k' n (omega arith)),
      )

  -- No keyword begins an expression.
  statement-expr :
      (call : Calls N) (item prev : LexItem N) (items : List (LexItem N))
      → Start true item.0
      → step fopen call statement_goal (at_items s prev (item ∷ items))
        ≡ step fopen call expr_goal (at_items s prev (item ∷ items))
  statement-expr call (_, a) prev items by_par = refl
  statement-expr call (_, a) prev items by_id = refl
  statement-expr call (_, a) prev items by_var = refl
  statement-expr call (_, a) prev items by_sign = refl
  statement-expr call (_, a) prev items by_minus = refl
  statement-expr call (_, a) prev items by_not = refl

  -- One turn of the loop of `block`.
  block-turn :
      (call : Calls N) (sh : AstShape N) (node : AstNode N) (item prev p q : LexItem N)
      (items later rest : List (LexItem N))
      → Start true item.0
      → call statement_goal (at_items s prev (item ∷ items))
        ≡ ok (ast_node_new sh, at_items s p (sign tok_semicolon ∷ later))
      → call block_goal (at_items s (sign tok_semicolon) later) ≡ ok (node, at_items s q rest)
      → step fopen call block_goal (at_items s prev (item ∷ items))
        ≡ ok (attach (ast_node_new sh) node, at_items s q rest)
  block-turn call sh node (_, a) prev p q items later rest by_par h h' = rw (h, h') refl
  block-turn call sh node (_, a) prev p q items later rest by_id h h' = rw (h, h') refl
  block-turn call sh node (_, a) prev p q items later rest by_var h h' = rw (h, h') refl
  block-turn call sh node (_, a) prev p q items later rest by_sign h h' = rw (h, h') refl
  block-turn call sh node (_, a) prev p q items later rest by_minus h h' = rw (h, h') refl
  block-turn call sh node (_, a) prev p q items later rest by_not h h' = rw (h, h') refl

  -- An expression with its semicolon.
  statement-Gives :
      (e : Expr N) (prev : LexItem N) (later : List (LexItem N))
      → Gives statement_goal
          (at_items s prev (print e ++ (sign tok_semicolon ∷ later)))
          (ast_node_new (shape e))
          (sign tok_semicolon ∷ later)
  unfolding parse
  statement-Gives e prev later =
      let graded = print-Graded fopen s e in
      let (item, items, eq, start) = Opens-any graded.0 in
      let (b, p, k) =
        expr-Reaches fopen s (print e) (shape e) (Graded-trenary fopen s (own e) _ _ graded) prev
          (sign tok_semicolon ∷ later) refl in
      (
        suc b,
        p,
        parse-suc fopen s statement_goal _ _ b λ n enough.
            rw (eq) (
              statement-expr (parse fopen n) item prev (items ++ (sign tok_semicolon ∷ later))
                start)
            ∙ k (suc n) (omega arith),
      )

  block-Gives :
      (es : List (Expr N)) (prev : LexItem N) (rest : List (LexItem N))
      → Gives block_goal
          (at_items s prev (print_block es ++ (sign tok_rbrace ∷ rest)))
          (chain es)
          (sign tok_rbrace ∷ rest)
  unfolding print_block chain
  block-Gives [] prev rest = (1, prev, parse-suc fopen s block_goal _ _ 0 λ n _. refl)
  block-Gives (e ∷ es) prev rest =
      let (item, items, eq, start) = Opens-any (print-Graded fopen s e).0 in
      let later = print_block es ++ (sign tok_rbrace ∷ rest) in
      rw (append_assoc (print e) (sign tok_semicolon ∷ print_block es) (sign tok_rbrace ∷ rest)) (
        Gives-two block_goal statement_goal block_goal _ _ _ (ast_node_new (shape e)) (chain es) _
          (sign tok_semicolon ∷ later) (sign tok_rbrace ∷ rest) (statement-Gives e prev later)
          (block-Gives es (sign tok_semicolon) rest)
          (λ call p q h h'.
            (rw (eq) (
              block-turn call (shape e) (chain es) item prev p q
                (items ++ (sign tok_semicolon ∷ later)) later (sign tok_rbrace ∷ rest) start
                (ap (λ x. call statement_goal (at_items s prev (x ++ (sign tok_semicolon ∷ later))))
                    (sym eq)
                  ∙ h)
                h'))
            ∙ ap (λ node. ok (node, at_items s q (sign tok_rbrace ∷ rest)))
                (attach-chain (shape e) es)))

  scope-Gives :
      (es : List (Expr N)) (prev : LexItem N) (rest : List (LexItem N))
      → Gives statement_goal
          (at_items s prev (braces (print_block es) ++ rest))
          (ast_node_scope_new (chain es))
          rest
  scope-Gives es prev rest = rw (append_assoc (print_block es) (sign tok_rbrace ∷ []) rest) (
      Gives-done statement_goal block_goal _ _ (chain es) _ (sign tok_rbrace)
        (sign tok_rbrace ∷ rest) rest (block-Gives es (sign tok_lbrace) rest)
        (λ call p h. rw (h) refl))

  -- What stands behind a scope takes the place of its body.
  lost-Gives :
      (es : List (Expr N)) (e : Expr N) (es' : List (Expr N)) (prev : LexItem N)
      (rest : List (LexItem N))
      → Gives statement_goal
          (at_items s prev (
            braces (braces (print_block es) ++ (sign tok_semicolon ∷ print_block (e ∷ es')))
            ++ rest))
          (ast_node_scope_new (ast_node_scope_new (chain (e ∷ es'))))
          rest
  unfolding chain
  lost-Gives es e es' prev rest =
      let more = sign tok_semicolon ∷ (print_block (e ∷ es') ++ (sign tok_rbrace ∷ rest)) in
      rw
        (
          append_assoc (braces (print_block es) ++ (sign tok_semicolon ∷ print_block (e ∷ es')))
              (sign tok_rbrace ∷ []) rest,
          append_assoc (braces (print_block es)) (sign tok_semicolon ∷ print_block (e ∷ es'))
              (sign tok_rbrace ∷ rest),
        )
        (Gives-done statement_goal block_goal _
          (at_items s (sign tok_lbrace) (braces (print_block es) ++ more))
          (ast_node_scope_new (chain (e ∷ es')))
          (ast_node_scope_new (ast_node_scope_new (chain (e ∷ es')))) (sign tok_rbrace)
          (sign tok_rbrace ∷ rest) rest
          (Gives-two block_goal statement_goal block_goal _ _ _ (ast_node_scope_new (chain es))
            (chain (e ∷ es')) (ast_node_scope_new (chain (e ∷ es'))) more (sign tok_rbrace ∷ rest)
            (scope-Gives es (sign tok_lbrace) more)
            (block-Gives (e ∷ es') (sign tok_semicolon) rest) (λ call p q h h'. rw (h, h') refl))
          (λ call p h. rw (h) refl))

  -- A scope is a program.
  global-Gives :
      (items : List (LexItem N)) (prev : LexItem N) (node : AstNode N) (rest : List (LexItem N))
      → Gives statement_goal (at_items s prev (sign tok_lbrace ∷ items)) node rest
      → Gives global_expr_goal (at_items s prev (sign tok_lbrace ∷ items)) node rest
  unfolding parse
  global-Gives items prev node rest (b, p, k) =
      (suc b, p, parse-suc fopen s global_expr_goal _ _ b λ n enough. k (suc n) (omega arith))

module _ {N : Type 0} (fopen : Attribute N → Option (List (LexItem N))) (s : Parser N) where
  -- With enough fuel a program that is a scope of expressions with a semicolon behind each is read
  -- as a scope node whose child is the first expression, and the child of each expression is the
  -- next one.
  pub parse_program-scope :
      (es : List (Expr N)) (rest : List (LexItem N))
      → Parsed fopen s (braces (print_block es) ++ rest) (ast_node_scope_new (chain es)) rest
  parse_program-scope es rest =
      let (b, p, k) =
        global-Gives fopen (fresh s) _ s.lex_item _ rest
          (scope-Gives fopen (fresh s) es s.lex_item rest) in
      (b, p, λ n enough. rw (k n enough) refl)

  -- A scope whose first statement is a scope of expressions, followed by at least one more
  -- expression, is read as a scope of a scope of the later expressions only: the tree does not
  -- depend on the body of the inner scope.
  pub parse_program-lost :
      (es : List (Expr N)) (e : Expr N) (es' : List (Expr N)) (rest : List (LexItem N))
      → Parsed fopen s
          (braces (braces (print_block es) ++ (sign tok_semicolon ∷ print_block (e ∷ es'))) ++ rest)
          (ast_node_scope_new (ast_node_scope_new (chain (e ∷ es'))))
          rest
  parse_program-lost es e es' rest =
      let (b, p, k) =
        global-Gives fopen (fresh s) _ s.lex_item _ rest
          (lost-Gives fopen (fresh s) es e es' s.lex_item rest) in
      (b, p, λ n enough. rw (k n enough) refl)
