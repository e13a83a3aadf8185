-- ===== src/Syntax/Programs.antt =====
-- src/syntax.c: what `program_start` makes of an expression, an assignment and a jump.
use crypti.Base.{
  ℕ, suc, ◌≤◌, ◌≡◌, ◌⊎◌, inl, inr, ◌==◌, refl, ◌∙◌, true, false, Option, none, List, ◌∷◌, ◌++◌,
  arith, if◌then◌else◌,
}
use crypti.Run.{ok, Returns}
use crypti.Hash.{Ret}
use crypti.Token.{Tok, tok_break, tok_continue, tok_return}
use crypti.Lexer.{Attribute, LexItem}
use crypti.Syntax.Tree.{AstNode, AstShape, ast_node_new, null, ast_node_stub_new}
use crypti.Syntax.Stream.{Parser}
use crypti.Syntax.Goals.{Calls, global_expr_goal, expr_goal}
use crypti.Syntax.Printing.{Expr, print, shape, own, ends, at_trenary_op}
use crypti.Syntax.Grammar.{parse, step, parse_program}
use crypti.Syntax.Reading.{
  at_items, Reaches, Start, by_par, by_id, by_var, by_sign, by_minus, by_not, Opens, parse-suc,
}
use crypti.Syntax.Reading.Choices.{expr-Reaches}
use crypti.Syntax.Reading.Grades.{Graded-trenary, Opens-any}
use crypti.Syntax.Invariant.{Keeps, sync_stream-Keeps}
use crypti.Syntax.RoundTrip.{print-Graded}

errors-left :
    {N : Type 0} (tree : AstNode N) (n : ℕ)
    → 1 ≤ n
    → ◌≡◌ {A = Ret × AstNode N}
        (if n == 0 then (Ret.ret_ok, tree) else (Ret.ret_err, null))
        (Ret.ret_err, null)
errors-left tree n h = let some_left : (n == 0) ≡ false = ground arith in rw (some_left) refl

module _ {N : Type 0} where
  -- The state that `program_start` begins with, in front of an input.
  abbrev pub before_program : Parser N → List (LexItem N) → Parser N
  before_program s items = record s { lex_item_future = none; input = items }

  abbrev pub fresh : Parser N → Parser N
  fresh s = record s { is_cycle = 0; is_cond = 0; is_func = 0 }

-- With enough fuel `program_start` returns ret_ok with the tree, no error is counted, and the rest of
-- the input is left.
abbrev pub Parsed :
    {N : Type 0}
    → (Attribute N → Option (List (LexItem N)))
    → Parser N
    → List (LexItem N)
    → AstNode N
    → List (LexItem N)
    → Type 0
Parsed {N} fopen s items tree rest =
    (bound : ℕ) × (prev : LexItem N) × ((n : ℕ)
      → bound ≤ n
      → parse_program fopen n (before_program s items)
        ≡ ok ((Ret.ret_ok, tree), at_items (fresh s) prev rest))

module _ {N : Type 0} (fopen : Attribute N → Option (List (LexItem N))) where
  -- No keyword begins an expression.
  global-expr :
      (s : Parser N) (call : Calls N) (item prev : LexItem N) (items : List (LexItem N))
      → Start true item.0
      → step fopen call global_expr_goal (at_items s prev (item ∷ items))
        ≡ step fopen call expr_goal (at_items s prev (item ∷ items))
  global-expr s call (_, a) prev items by_par = refl
  global-expr s call (_, a) prev items by_id = refl
  global-expr s call (_, a) prev items by_var = refl
  global-expr s call (_, a) prev items by_sign = refl
  global-expr s call (_, a) prev items by_minus = refl
  global-expr s call (_, a) prev items by_not = refl

  pub global-Reaches :
      (s : Parser N) (ts : List (LexItem N)) (sh : AstShape N) (prev : LexItem N)
      (rest rest' : List (LexItem N))
      → Opens true ts
      → Reaches fopen s expr_goal (at_items s prev (ts ++ rest)) sh rest'
      → Reaches fopen s global_expr_goal (at_items s prev (ts ++ rest)) sh rest'
  unfolding parse
  global-Reaches s ts sh prev rest rest' (item, items, e, start) (b, p, k) = (
    suc b,
    p,
    parse-suc fopen s global_expr_goal _ _ b λ n enough.
        rw (e) (global-expr s (parse fopen n) item prev (items ++ rest) start)
        ∙ k (suc n) (omega arith),
  )

  -- An expression of literals, names, calls, array elements, the operators, signs, negations and
  -- conditionals is written with no more parentheses than its operators need in syntax.c, where a
  -- negation binds as tightly as a sign, in front of a token that goes on with no expression and
  -- is no assignment; with enough fuel program_start returns ret_ok with the tree of that
  -- expression and leaves that token and what is behind it.
  pub parse_program-print :
      (e : Expr N) (s : Parser N) (item : LexItem N) (rest : List (LexItem N))
      → ends at_trenary_op item.0 ≡ true
      → Parsed fopen s (print e ++ (item ∷ rest)) (ast_node_new (shape e)) (item ∷ rest)
  parse_program-print e s item rest stop =
      let graded = print-Graded fopen (fresh s) e in
      let (b, p, k) =
        global-Reaches (fresh s) (print e) (shape e) s.lex_item (item ∷ rest) (item ∷ rest)
          (Opens-any graded.0)
          (expr-Reaches fopen (fresh s) (print e) (shape e)
            (Graded-trenary fopen (fresh s) (own e) _ _ graded) s.lex_item (item ∷ rest) stop) in
      (b, p, λ n enough. rw (k n enough) refl)

  -- A program that begins with break, continue or return is refused with ret_err and no tree,
  -- whatever follows.
  pub parse_program-jump :
      (t : Tok) (a : Attribute N) (s : Parser N) (rest : List (LexItem N)) (n : ℕ)
      → (t ≡ tok_break) ⊎ (t ≡ tok_continue) ⊎ (t ≡ tok_return)
      → Returns
          (parse_program fopen (suc n) (before_program s ((t, a) ∷ rest)))
          (λ r. r.0 ≡ (Ret.ret_err, null))
  unfolding Keeps parse
  parse_program-jump t a s rest n (inl e) = rw (e) refl
  parse_program-jump t a s rest n (inr (inl e)) = rw (e) refl
  parse_program-jump t a s rest n (inr (inr e)) =
      let raised = record (at_items (fresh s) (tok_return, a) rest) { nerrors = 1 } in
      let (_, _, counted) = sync_stream-Keeps N raised in
      rw (e) (errors-left ast_node_stub_new _ counted)
