-- ===== src/Syntax/Total/Statements.antt =====
-- src/syntax.c: enough fuel for any statement.
use crypti.Base.{ℕ, ◌+◌, ◌-◌, ◌≤◌, ◌≡◌, true, some, arith, inl, inr, Bool-cases}
use crypti.Run.{Run, ok, die, fault, stuck, Returns, Returns-map}
use crypti.Token.{
  ◌is◌, tok_lbrace, tok_if, tok_for, tok_while, tok_break, tok_continue, tok_return, tok_do,
  tok_del, tok_id, tok_lpar, tok_rpar, tok_eof, tok_else, tok_eol, tok_rbrace,
}
use crypti.Syntax.Tree.{AstNode, ast_node, ast_node_if_new, ast_node_del_new, null}
use crypti.Syntax.Stream.{
  Parser, Parse, pure, ◌>>=◌, ◌>>◌, after, modify, failed, unless_null, skip_eol, tok_next,
  tok_next_from, is_stmt_end, error, sync_stream,
}
use crypti.Syntax.Goals.{Calls, level, statement_goal, block_goal, at_logic_or}
use crypti.Syntax.Statements.{
  attach, process_break, process_continue, process_return, block, process_scope, body_of,
  cycle_body, process_else, process_if, process_if_inside, process_for, process_do, process_while,
  process_del, statement,
}
use crypti.Syntax.Assignments.{is_lvalue, if_lvalue}
use crypti.Syntax.Operands.{identifier}
use crypti.Syntax.Promises.{IsReal, Gives}
use crypti.Syntax.Total.{
  promised-Runs, Runs, running, running_on, matches-Runs, is_eof-Runs, if-Runs, on-Runs,
  on_any-Runs, bind-Runs, null-Runs, errors-Runs, ask-Runs, failed-Runs, pure-Runs,
}
use crypti.Syntax.Weights.{weight, pop-weight, tok_next-weight, tok_next-falls}
use crypti.Syntax.Total.Ranks.{Any, Same, Smaller}
use crypti.Syntax.Total.Expressions.{identifier-Runs, expr-Runs}

module _ {N : Type 0} (call : Calls N) (φ : ℕ) where
  jump-Runs : Runs N φ process_break × Runs N φ process_continue × Runs N φ process_return
  jump-Runs = (search running depth 16, search running depth 16, search running depth 16)

  module _ (any : Any call φ) where
    scope-Runs : Runs N φ (process_scope call)
    scope-Runs = search (running_on, any) depth 20

    body-Runs : Runs N φ (body_of call)
    body-Runs = search (running_on, any, scope-Runs) depth 20

    modify-Runs : (f : Parser N → ℕ) → Runs N φ (modify λ s. record s { is_cycle = f s })
    unfolding Runs
    modify-Runs f s le = le

    cycle-Runs : Runs N φ (cycle_body call)
    cycle-Runs = bind-Runs N φ _ _ (modify-Runs λ s. s.is_cycle + 1) λ _.
        bind-Runs N φ _ _ body-Runs
          λ body. bind-Runs N φ _ _ (modify-Runs λ s. s.is_cycle - 1) λ _. pure-Runs N φ body

    for-Runs : Runs N φ (process_for call)
    for-Runs = search (running_on, any, cycle-Runs) depth 24

    do-Runs : Runs N φ (process_do call)
    do-Runs = search (running_on, any, cycle-Runs) depth 24

    while-Runs : Runs N φ (process_while call)
    while-Runs = search (running_on, any, cycle-Runs) depth 24

    err-Runs : Runs N φ (do sync_stream; failed)
    err-Runs = search running depth 16

    del_of-Runs :
        (node : AstNode N)
        → IsReal node
        → Runs N φ (if_lvalue node (pure (ast_node_del_new node)) (do sync_stream; failed))
    del_of-Runs null h = absurd h
    del_of-Runs (ast_node sh child) h =
        if-Runs N φ (is_lvalue (ast_node sh child)) _ _ (pure-Runs N φ _) err-Runs

    del-Runs : Gives N (identifier call) IsReal → Runs N φ (process_del call)
    del-Runs gives =
        on_any-Runs N φ tok_id _ _
          (promised-Runs N φ IsReal (identifier call) _ (identifier-Runs call φ any) gives
            del_of-Runs)
          err-Runs

    otherwise-Runs :
        (err : Parse N (AstNode N)) (finish : AstNode N → Parse N (AstNode N))
        → Runs N φ err
        → ((node : AstNode N) → Runs N φ (finish node))
        → Runs N φ (do
          skip_eol
          otherwise ← call statement_goal
          unless_null otherwise err (finish otherwise))
    otherwise-Runs err finish h k = search (running, any, matches-Runs) depth 20

    else-Runs :
        (err : Parse N (AstNode N)) (finish : AstNode N → Parse N (AstNode N))
        → Runs N φ err
        → ((node : AstNode N) → Runs N φ (finish node))
        → Runs N φ (process_else call err finish)
    unfolding Runs
    else-Runs err finish h k s le = elim (Bool-cases (s.lex_item.0 is tok_eol)) [
      | inl e ↦
          let s' = tok_next_from s s.lex_item_future in
          let popped = pop-weight s in
          let (next, _) = tok_next-weight s in
          rw (e) (elim (Bool-cases (s'.lex_item.0 is tok_else)) [
            | inl e' ↦
                let s'' = tok_next_from s' s'.lex_item_future in
                let (next', _) = tok_next-weight s' in
                rw (e') (otherwise-Runs err finish h k s'' (omega arith))
            | inr e' ↦ rw (e') (
                k null
                  (record s' { lex_item_future = some s'.lex_item; lex_item = s'.lex_item_prev })
                  (omega arith))
          ])
      | inr e ↦ rw (e) (on_any-Runs N φ tok_else _ _ (otherwise-Runs err finish h k) (k null) s le)
    ]

    raise-Runs : Runs N φ (modify λ s. record s { is_cond = s.is_cond + 1 })
    unfolding Runs
    raise-Runs s le = le

    restore-Runs : (saved : ℕ) → Runs N φ (modify λ s. record s { is_cond = saved })
    unfolding Runs
    restore-Runs saved s le = le

    error-of : (saved : ℕ) → Runs N φ (do modify (λ s. record s { is_cond = saved }); failed)
    error-of saved = bind-Runs N φ _ _ (restore-Runs saved) λ _. failed-Runs N φ

    inside-Runs : (saved : ℕ) → Runs N φ (process_if_inside call saved)
    inside-Runs saved =
        let err = error-of saved in
        on_any-Runs N φ tok_lpar _ _
          (bind-Runs N φ _ _ (any (level at_logic_or) tt) λ cond. null-Runs N φ cond _ _ err (
            on_any-Runs N φ tok_rpar _ _
              (bind-Runs N φ _ _ body-Runs λ body. errors-Runs N φ _ _ err (
                else-Runs _ _ err λ otherwise. errors-Runs N φ _ _ err (
                  bind-Runs N φ _ _ (restore-Runs saved)
                    λ _. pure-Runs N φ (ast_node_if_new cond body otherwise))))
              err))
          err

    if-statement-Runs : Runs N φ (process_if call)
    if-statement-Runs = search (running, raise-Runs, inside-Runs) depth 24

module _ {N : Type 0} (call : Calls N) (φ : ℕ) (smaller : Smaller call φ) where
  pub statement-Runs : Gives N (identifier call) IsReal → Same call φ 19 → Runs N φ (statement call)
  statement-Runs gives same =
      on-Runs N φ tok_lbrace _ _ tt (λ φ' less. scope-Runs call φ' (smaller φ' less))
        (on-Runs N φ tok_if _ _ tt (λ φ' less. if-statement-Runs call φ' (smaller φ' less))
          (on-Runs N φ tok_for _ _ tt (λ φ' less. for-Runs call φ' (smaller φ' less))
            (on-Runs N φ tok_while _ _ tt (λ φ' less. while-Runs call φ' (smaller φ' less))
              (on-Runs N φ tok_break _ _ tt (λ φ' less. (jump-Runs call φ').0)
                (on-Runs N φ tok_continue _ _ tt (λ φ' less. let (_, c, _) = jump-Runs call φ' in c)
                  (on-Runs N φ tok_return _ _ tt (λ φ' less. let (_, _, r) = jump-Runs call φ' in r)
                    (on-Runs N φ tok_do _ _ tt (λ φ' less. do-Runs call φ' (smaller φ' less))
                      (on-Runs N φ tok_del _ _ tt
                        (λ φ' less. del-Runs call φ' (smaller φ' less) gives)
                        (expr-Runs call φ same)))))))))

  -- The loop of a block goes on with less to read, or at the end of the file.
  behind-Runs :
      (φ' : ℕ) (tmp : AstNode N)
      → Any call φ'
      → Runs N φ' (do rest ← call block_goal; pure (attach tmp rest))
  behind-Runs φ' tmp any = search (running, any) depth 16

  attached :
      (tmp : AstNode N) (r : Run (AstNode N × Parser N))
      → Returns r (λ x. weight x.1 ≤ φ)
      → Returns (after r λ rest. pure (attach tmp rest)) (λ x. weight x.1 ≤ φ)
  attached tmp (ok (a, s')) h = h
  attached tmp die h = absurd h
  attached tmp fault h = absurd h
  attached tmp stuck h = absurd h

  next-Runs :
      (tmp : AstNode N)
      → ((s : Parser N)
          → weight s ≤ φ
          → (s.lex_item.0 is tok_eof) ≡ true
          → Returns (call block_goal s) (λ r. weight r.1 ≤ φ))
      → Runs N φ (do tok_next; rest ← call block_goal; pure (attach tmp rest))
  unfolding Runs
  next-Runs tmp ended s le =
      let s' = tok_next_from s s.lex_item_future in
      let (next, _) = tok_next-weight s in
      elim (tok_next-falls s) [
        | inl less ↦
            Returns-map (λ r. weight r.1 ≤ weight s') (λ r. weight r.1 ≤ φ) _
              (behind-Runs (weight s') tmp (smaller (weight s') (omega arith)) s' (omega arith))
              λ r le'. omega arith
        | inr e ↦ attached tmp (call block_goal s') (ended s' (omega arith) e)
      ]

  end-Runs : Runs N φ is_stmt_end
  end-Runs = search running depth 16

  dropped-Runs : (tmp : AstNode N) → Runs N φ (do error; sync_stream; pure tmp)
  dropped-Runs tmp = search running depth 16

  pub block-Runs :
      Same call φ 21
      → ((s : Parser N)
          → weight s ≤ φ
          → (s.lex_item.0 is tok_eof) ≡ true
          → Returns (call block_goal s) (λ r. weight r.1 ≤ φ))
      → Runs N φ (block call)
  block-Runs same ended =
      let next : (tmp : AstNode N)
          → Runs N φ (do tok_next; rest ← call block_goal; pure (attach tmp rest)) =
        λ tmp. next-Runs tmp ended in
      bind-Runs N φ _ _ (is_eof-Runs N φ) λ ended. bind-Runs N φ _ _ (ask-Runs N φ _) λ t.
        if-Runs N φ ended _ _ (pure-Runs N φ null) (
          if-Runs N φ (t is tok_rbrace) _ _ (pure-Runs N φ null) (
            bind-Runs N φ _ _ (same statement_goal tt tt) λ tmp.
              errors-Runs N φ _ _ (pure-Runs N φ tmp) (
                bind-Runs N φ _ _ (end-Runs)
                  λ end. if-Runs N φ end _ _ (next tmp) (dropped-Runs tmp))))
