-- ===== src/Syntax/Statements.antt =====
-- src/syntax.c: the statements and the blocks.
use crypti.Base.{ℕ, ◌+◌, ◌-◌, ◌==◌, if◌then◌else◌}
use crypti.Token.{
  ◌is◌, tok_lpar, tok_rpar, tok_lbrace, tok_rbrace, tok_semicolon, tok_id, tok_if, tok_else,
  tok_for, tok_do, tok_while, tok_break, tok_continue, tok_return, tok_del,
}
use crypti.Syntax.Tree.{
  AstNode, null, ast_node, ast_node_stub_new, ast_node_if_new, ast_node_for_new, ast_node_while_new,
  ast_node_do_new, ast_node_del_new, ast_node_break_new, ast_node_continue_new, ast_node_return_new,
  ast_node_scope_new,
}
use crypti.Syntax.Stream.{
  Parse, pure, ◌>>=◌, ◌>>◌, modify, ask, tok_next, tok_pop, current_tok, on, is_eof, is_stmt_end,
  skip_eol, error, failed, unless_null, unless_errors, sync_stream,
}
use crypti.Syntax.Goals.{Calls, level, at_logic_or, statement_goal, block_goal, expr_goal}
use crypti.Syntax.Operands.{identifier}
use crypti.Syntax.Assignments.{if_lvalue, expr}

module _ {N : Type 0} where
  -- `prev->child = tmp`, where both are given: a block is the chain of its statements.
  abbrev pub attach : AstNode N → AstNode N → AstNode N
  attach null rest = rest
  attach (ast_node shape child) null = ast_node shape child
  attach (ast_node shape child) (ast_node next child') = ast_node shape (ast_node next child')

  abbrev pub give_stub : Parse N (AstNode N)
  give_stub = pure ast_node_stub_new

  abbrev pub enter_cycle : Parse N (Unit {0})
  enter_cycle = modify λ s. record s { is_cycle = s.is_cycle + 1 }

  abbrev pub leave_cycle : Parse N (Unit {0})
  leave_cycle = modify λ s. record s { is_cycle = s.is_cycle - 1 }

  abbrev pub process_break : Parse N (AstNode N)
  process_break = do n ← ask λ s. s.is_cycle; (if n == 0 then failed else pure ast_node_break_new)

  abbrev pub process_continue : Parse N (AstNode N)
  process_continue = do
    n ← ask λ s. s.is_cycle
    (if n == 0 then failed else pure ast_node_continue_new)

  abbrev pub process_return : Parse N (AstNode N)
  process_return = do
    n ← ask λ s. s.is_func
    (if n == 0 then (do error; sync_stream; give_stub) else pure ast_node_return_new)

module _ {N : Type 0} (call : Calls N) where
  -- One turn of the loop of `block`, and the statements behind it.
  abbrev pub block : Parse N (AstNode N)
  block = do
    ended ← is_eof
    t ← current_tok
    (if ended then pure null else if t is tok_rbrace then pure null else (do
      tmp ← call statement_goal
      unless_errors (pure tmp) (do
        end ← is_stmt_end
        (if end
            then (do tok_next; rest ← call block_goal; pure (attach tmp rest))
            else (do error; sync_stream; pure tmp)))))

  abbrev pub process_scope : Parse N (AstNode N)
  process_scope = do
    node ← call block_goal
    unless_errors give_stub (on tok_rbrace (pure (ast_node_scope_new node)) failed)

  -- The body of a condition or of a loop: a scope, or a statement that may stand on the next line.
  abbrev pub body_of : Parse N (AstNode N)
  body_of = on tok_lbrace process_scope (do skip_eol; call statement_goal)

  abbrev pub cycle_body : Parse N (AstNode N)
  cycle_body = do enter_cycle; body ← body_of; leave_cycle; pure body

  -- What `process_if` does behind the body.
  abbrev pub process_else :
      Parse N (AstNode N) → (AstNode N → Parse N (AstNode N)) → Parse N (AstNode N)
  process_else err finish = do
    skipped ← skip_eol
    on tok_else
        (do skip_eol; otherwise ← call statement_goal; unless_null otherwise err (finish otherwise))
        (do (if skipped then tok_pop else pure tt); finish null)

  -- `process_if` behind the first line, which keeps the old `is_cond`.
  abbrev pub process_if_inside : ℕ → Parse N (AstNode N)
  process_if_inside saved =
      let restore = modify λ s. record s { is_cond = saved } in
      let err = (do restore; failed) in
      on tok_lpar
        (do
          cond ← call (level at_logic_or)
          unless_null cond err (
              on tok_rpar
                (do
                  body ← body_of
                  unless_errors err (
                      process_else err λ otherwise.
                        unless_errors err (do restore; pure (ast_node_if_new cond body otherwise))))
                err))
        err

  abbrev pub process_if : Parse N (AstNode N)
  process_if = do
    saved ← ask λ s. s.is_cond
    modify λ s. record s { is_cond = s.is_cond + 1 }
    process_if_inside saved

  -- An error of the brackets of a loop is not counted.
  abbrev pub process_for : Parse N (AstNode N)
  process_for =
      on tok_lpar
        (do
          expr1 ← call expr_goal
          on tok_semicolon
              (do
                expr2 ← call (level at_logic_or)
                on tok_semicolon
                    (do
                      t ← current_tok
                      expr3 ← (if t is tok_rpar then pure null else call expr_goal)
                      on tok_rpar
                          (do
                            body ← cycle_body
                            unless_errors give_stub
                                (pure (ast_node_for_new expr1 expr2 expr3 body)))
                          give_stub)
                    give_stub)
              give_stub)
        give_stub

  abbrev pub process_do : Parse N (AstNode N)
  process_do = do
    body ← cycle_body
    unless_errors give_stub (do
      skip_eol
      on tok_while
          (on tok_lpar
            (do
              cond ← call (level at_logic_or)
              on tok_rpar (pure (ast_node_do_new cond body)) give_stub)
            give_stub)
          give_stub)

  abbrev pub process_while : Parse N (AstNode N)
  process_while =
      on tok_lpar
        (do
          cond ← call (level at_logic_or)
          on tok_rpar
              (do body ← cycle_body; unless_errors give_stub (pure (ast_node_while_new cond body)))
              give_stub)
        give_stub

  abbrev pub process_del : Parse N (AstNode N)
  process_del =
      let err = (do sync_stream; failed) in
      on tok_id (do node ← identifier call; if_lvalue node (pure (ast_node_del_new node)) err) err

  abbrev pub statement : Parse N (AstNode N)
  statement = on tok_lbrace process_scope (
      on tok_if process_if (
        on tok_for process_for (
          on tok_while process_while (
            on tok_break process_break (
              on tok_continue process_continue (
                on tok_return process_return
                  (on tok_do process_do (on tok_del process_del (expr call)))))))))

  abbrev pub stmts : Parse N (AstNode N)
  stmts = statement
