-- ===== src/Syntax/Invariant/Statements.antt =====
-- src/syntax.c: the statements keep the numbers, and so does every function inside of a program.
use crypti.Base.{ℕ, zero, suc, ◌+◌, ◌≤◌, ◌≡◌, refl, Option, List, arith}
use crypti.Run.{Run, ok, die, fault, stuck}
use crypti.Token.{
  tok_lbrace, tok_if, tok_for, tok_while, tok_break, tok_continue, tok_return, tok_do, tok_del,
  tok_lpar, tok_rpar, tok_id,
}
use crypti.Lexer.{Attribute, LexItem}
use crypti.Syntax.Tree.{AstNode, null, ast_node, ast_node_if_new, ast_node_del_new}
use crypti.Syntax.Stream.{Parser, Parse, pure, ◌>>◌, after, modify, failed, sync_stream}
use crypti.Syntax.Goals.{
  Goal, Calls, at_logic_or, level, level_rest, global_expr_goal, import_rest, statement_goal,
  block_goal, expr_goal, trenary_op_goal, term_goal, power_goal, concatenation_goal, factor_goal,
  unary_not_goal, unary_plus_goal, concatenation_rest, call_rest, access_rest, array_rest, seq_rest,
  assign_goal,
}
use crypti.Syntax.Assignments.{is_lvalue, if_lvalue}
use crypti.Syntax.Operands.{identifier}
use crypti.Syntax.Statements.{
  leave_cycle, process_break, process_continue, process_return, block, process_scope, body_of,
  cycle_body, process_else, process_if, process_if_inside, process_for, process_do, process_while,
  process_del, statement,
}
use crypti.Syntax.Grammar.{step, parse}
use crypti.Syntax.Invariant.{
  if-Keeps, given-Keeps, Holds, Settled, Keeps, keeping, failed-Keeps, is_eof-Keeps, bind-Keeps,
  on-Keeps, null-Keeps, errors-Keeps, pure-Keeps,
}
use crypti.Syntax.Promises.{Inner, IsReal, Promise, Gives, identifier-Gives, parse-Gives}
use crypti.Syntax.Invariant.Expressions.{
  level-Keeps, rest-Keeps, trenary_op-Keeps, term-Keeps, unary_not-Keeps, unary_plus-Keeps,
  power-Keeps, concatenation-Keeps, concatenation_turn-Keeps, function_call_args-Keeps,
  array_access_indices-Keeps, identifier-Keeps, factor-Keeps, array_init_items-Keeps,
  get_seq_rest-Keeps, assign-Keeps, expr-Keeps,
}

module _ {N : Type 0} (call : Calls N) (keeps : (g : Goal N) → Inner g → Keeps N (call g))
    (promise : (g : Goal N) → Inner g → Gives N (call g) (Promise g)) where
  jump-Keeps : Keeps N process_break × Keeps N process_continue × Keeps N process_return
  jump-Keeps = (
    search (keeping, failed-Keeps) depth 16,
    search (keeping, failed-Keeps) depth 16,
    search (keeping) depth 16,
  )

  block-Keeps : Keeps N (block call)
  block-Keeps = search (keeping, keeps, is_eof-Keeps) depth 20

  scope-Keeps : Keeps N (process_scope call)
  scope-Keeps = search (keeping, keeps, failed-Keeps) depth 20

  body-Keeps : Keeps N (body_of call)
  body-Keeps = search (keeping, keeps, scope-Keeps) depth 20

  -- The number of loops goes up and down again.
  leave-Holds :
      (s : Parser N) (r : Run (AstNode N × Parser N))
      → Holds r (λ x. Settled (record s { is_cycle = s.is_cycle + 1 }) x.1)
      → Holds (after r λ body. leave_cycle >> pure body) (λ x. Settled s x.1)
  leave-Holds s (ok (body, s')) (c, f, n) = (omega arith, f, n)
  leave-Holds s die h = h
  leave-Holds s fault h = h
  leave-Holds s stuck h = tt

  cycle-Keeps : Keeps N (cycle_body call)
  unfolding Keeps
  cycle-Keeps s = leave-Holds s _ (body-Keeps (record s { is_cycle = s.is_cycle + 1 }))

  raise-Keeps : Keeps N (modify λ s. record s { is_cond = s.is_cond + 1 })
  unfolding Keeps
  raise-Keeps s = (refl, refl, omega arith)

  restore-Keeps : (saved : ℕ) → Keeps N (modify λ s. record s { is_cond = saved })
  unfolding Keeps
  restore-Keeps saved s = (refl, refl, omega arith)

  else-Keeps :
      (err : Parse N (AstNode N)) (finish : AstNode N → Parse N (AstNode N))
      → Keeps N err
      → ((node : AstNode N) → Keeps N (finish node))
      → Keeps N (process_else call err finish)
  else-Keeps err finish h k = search (keeping, keeps) depth 20

  error-of : (saved : ℕ) → Keeps N (do modify (λ s. record s { is_cond = saved }); failed)
  error-of saved = bind-Keeps N _ _ (restore-Keeps saved) λ _. failed-Keeps N

  inside-Keeps : (saved : ℕ) → Keeps N (process_if_inside call saved)
  inside-Keeps saved =
      let err = error-of saved in
      on-Keeps N tok_lpar _ _
        (bind-Keeps N _ _ (keeps (level at_logic_or) tt) λ cond. null-Keeps N cond _ _ err (
          on-Keeps N tok_rpar _ _
            (bind-Keeps N _ _ body-Keeps λ body. errors-Keeps N _ _ err (
              else-Keeps _ _ err λ otherwise. errors-Keeps N _ _ err (
                bind-Keeps N _ _ (restore-Keeps saved)
                  λ _. pure-Keeps N (ast_node_if_new cond body otherwise))))
            err))
        err

  if-statement-Keeps : Keeps N (process_if call)
  if-statement-Keeps = search (keeping, raise-Keeps, inside-Keeps) depth 24

  for-Keeps : Keeps N (process_for call)
  for-Keeps = search (keeping, keeps, cycle-Keeps) depth 24

  do-Keeps : Keeps N (process_do call)
  do-Keeps = search (keeping, keeps, cycle-Keeps) depth 24

  while-Keeps : Keeps N (process_while call)
  while-Keeps = search (keeping, keeps, cycle-Keeps) depth 24

  err-Keeps : Keeps N (do sync_stream; failed)
  err-Keeps = search (keeping, failed-Keeps) depth 16

  del_of-Keeps :
      (node : AstNode N)
      → IsReal node
      → Keeps N (if_lvalue node (pure (ast_node_del_new node)) (do sync_stream; failed))
  del_of-Keeps null h = absurd h
  del_of-Keeps (ast_node sh child) h =
      if-Keeps N (is_lvalue (ast_node sh child)) _ _ (pure-Keeps N _) err-Keeps

  del-Keeps : Keeps N (process_del call)
  del-Keeps =
      on-Keeps N tok_id _ _
        (given-Keeps N IsReal (identifier call) _ (identifier-Keeps call keeps)
          (identifier-Gives call promise) del_of-Keeps)
        err-Keeps

  statement-Keeps : Keeps N (statement call)
  statement-Keeps =
      let (b, c, r) = jump-Keeps in
      on-Keeps N tok_lbrace _ _ scope-Keeps (
        on-Keeps N tok_if _ _ if-statement-Keeps (
          on-Keeps N tok_for _ _ for-Keeps (
            on-Keeps N tok_while _ _ while-Keeps (
              on-Keeps N tok_break _ _ b (
                on-Keeps N tok_continue _ _ c (
                  on-Keeps N tok_return _ _ r (
                    on-Keeps N tok_do _ _ do-Keeps
                      (on-Keeps N tok_del _ _ del-Keeps (expr-Keeps call keeps)))))))))

  step-Keeps :
      (fopen : Attribute N → Option (List (LexItem N))) (g : Goal N)
      → Inner g
      → Keeps N (step fopen call g)
  step-Keeps fopen global_expr_goal h = absurd h
  step-Keeps fopen (import_rest _ _) h = absurd h
  step-Keeps fopen statement_goal h = statement-Keeps
  step-Keeps fopen block_goal h = block-Keeps
  step-Keeps fopen expr_goal h = expr-Keeps call keeps
  step-Keeps fopen trenary_op_goal h = trenary_op-Keeps call keeps
  step-Keeps fopen (level lv) h = level-Keeps call keeps lv
  step-Keeps fopen (level_rest lv left) h = rest-Keeps call keeps lv left
  step-Keeps fopen term_goal h = term-Keeps call keeps
  step-Keeps fopen power_goal h = power-Keeps call keeps
  step-Keeps fopen concatenation_goal h = concatenation-Keeps call keeps
  step-Keeps fopen factor_goal h = factor-Keeps call keeps
  step-Keeps fopen (unary_not_goal flag) h = unary_not-Keeps call keeps flag
  step-Keeps fopen (unary_plus_goal flag) h = unary_plus-Keeps call keeps flag
  step-Keeps fopen (concatenation_rest left) h = concatenation_turn-Keeps call keeps left
  step-Keeps fopen (call_rest id args) h = function_call_args-Keeps call keeps id args
  step-Keeps fopen (access_rest id ind) h = array_access_indices-Keeps call keeps id ind
  step-Keeps fopen (array_rest arr) h = array_init_items-Keeps call keeps arr
  step-Keeps fopen (seq_rest nodes) h = get_seq_rest-Keeps call keeps nodes h
  step-Keeps fopen (assign_goal first nesting) h = assign-Keeps call keeps promise first nesting h

module _ {N : Type 0} (fopen : Attribute N → Option (List (LexItem N))) where
  parse-all : (fuel : ℕ) (g : Goal N) → Inner g → Keeps N (parse fopen fuel g)
  unfolding Keeps parse
  parse-all zero g h s = tt
  parse-all (suc fuel) g h s =
      step-Keeps (parse fopen fuel) (parse-all fuel) (parse-Gives fopen fuel) fopen g h s

  -- For any tokens, any fuel and any goal inside of a program, as long as the fuel lasts the
  -- parser neither ends the process nor touches memory outside of an object, the numbers of the
  -- loops and functions around it are afterwards what they were before, and no counted error is
  -- forgotten.
  pub parse-Settled :
      (fuel : ℕ) (goal : Goal N) (s : Parser N)
      → Inner goal
      → Holds
          (parse fopen fuel goal s)
          (λ r. (r.1.is_cycle ≡ s.is_cycle) × (r.1.is_func ≡ s.is_func) × (s.nerrors ≤ r.1.nerrors))
  unfolding Keeps
  parse-Settled fuel goal s h = parse-all fuel goal h s
