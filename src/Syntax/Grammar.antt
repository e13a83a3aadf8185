-- ===== src/Syntax/Grammar.antt =====
-- src/syntax.c: the imports, the beginning, and the recursion of all the functions. The fuel bounds
-- the depth of the calls and the turns of the loops together.
use crypti.Base.{ℕ, zero, suc, ◌==◌, false, Option, none, some, List, if◌then◌else◌}
use crypti.Run.{fault, stuck}
use crypti.Token.{tok_def, tok_import, tok_var}
use crypti.Lexer.{Attribute, LexItem}
use crypti.Hash.{Ret}
use crypti.Syntax.Tree.{AstNode, AstNodes, null, no_nodes, add_node, is_null, ast_node_import_new}
use crypti.Syntax.Stream.{
  Parse, pure, ◌>>=◌, ◌>>◌, modify, ask, tok_next, on, is_eof, failed, nerrors_of, sync_stream,
  prev_attribute,
}
use crypti.Syntax.Goals.{
  Calls, Goal, global_expr_goal, statement_goal, block_goal, expr_goal, trenary_op_goal, level,
  level_rest, term_goal, power_goal, concatenation_goal, factor_goal, unary_not_goal,
  unary_plus_goal, concatenation_rest, call_rest, access_rest, array_rest, seq_rest, assign_goal,
  import_rest,
}
use crypti.Syntax.Expressions.{parse_level, parse_level_rest, trenary_op}
use crypti.Syntax.Operands.{
  term, unary_not, unary_plus, power, concatenation, concatenation_turn, function_call_args,
  array_access_indices, factor,
}
use crypti.Syntax.Assignments.{array_init_items, get_seq_rest, assign, expr}
use crypti.Syntax.Statements.{block, statement, stmts}
use crypti.Syntax.Functions.{process_function}

-- `program_start`: the value and the tree, which an error leaves empty.
abbrev pub program_start : {N : Type 0} → Calls N → Parse N (Ret × AstNode N)
program_start call = do
  modify λ s. record s { nerrors = 0; is_cycle = 0; is_cond = 0; is_func = 0 }
  tok_next
  tree ← call global_expr_goal
  n ← nerrors_of
  pure (if n == 0 then (Ret.ret_ok, tree) else (Ret.ret_err, null))

abbrev pub set_input : {N : Type 0} → List (LexItem N) → Parse N (Unit {0})
set_input items = modify λ s. record s { input = items }

-- The file system: the tokens of the file that a string names, if it can be opened.
module _ {N : Type 0} (fopen : Attribute N → Option (List (LexItem N))) (call : Calls N) where
  abbrev pub import_failed : Parse N (AstNode N)
  import_failed = do sync_stream; failed

  -- One turn of the loop of `process_import`, where the outer input is kept.
  abbrev pub import_program : List (LexItem N) → AstNodes N → Parse N (AstNode N)
  import_program prev nodes = do
    ended ← is_eof
    (if ended
        then (do
          set_input prev
          modify λ s. record s { syntax_is_eof = false }
          pure (ast_node_import_new nodes))
        else (do
          (ret, rtree) ← program_start call
          elim ret as (λ _. Parse N (AstNode N)) [
            | Ret.ret_ok ↦
                call (import_rest prev (if is_null rtree then nodes else add_node nodes rtree))
            | _ ↦ (do set_input prev; import_failed)
          ]))

  abbrev pub import_from : Option (List (LexItem N)) → Parse N (AstNode N)
  import_from none = import_failed
  import_from (some items) = do
    prev ← ask λ s. s.input
    set_input items
    call (import_rest prev no_nodes)

  -- `process_import`. With no name the error path reads `fd` and `prev`, which are not set.
  abbrev pub process_import : Parse N (AstNode N)
  process_import = on tok_var (do item ← prev_attribute; import_from (fopen item.1)) (λ _. fault)

  abbrev pub global_expr : Parse N (AstNode N)
  global_expr = on tok_def (process_function call) (on tok_import process_import (stmts call))

  -- The function of a goal.
  abbrev pub step : Goal N → Parse N (AstNode N)
  step global_expr_goal = global_expr
  step statement_goal = statement call
  step block_goal = block call
  step expr_goal = expr call
  step trenary_op_goal = trenary_op call
  step (level lv) = parse_level call lv
  step (level_rest lv left) = parse_level_rest call lv left
  step term_goal = term call
  step power_goal = power call
  step concatenation_goal = concatenation call
  step factor_goal = factor call
  step (unary_not_goal flag) = unary_not call flag
  step (unary_plus_goal flag) = unary_plus call flag
  step (concatenation_rest left) = concatenation_turn call left
  step (call_rest id args) = function_call_args call id args
  step (access_rest id ind) = array_access_indices call id ind
  step (array_rest arr) = array_init_items call arr
  step (seq_rest nodes) = get_seq_rest call nodes
  step (assign_goal first nesting) = assign call first nesting
  step (import_rest prev nodes) = import_program prev nodes

module _ {N : Type 0} (fopen : Attribute N → Option (List (LexItem N))) where
  unfoldable pub parse : ℕ → Calls N
  parse zero goal s = stuck
  parse (suc fuel) goal s = step fopen (parse fuel) goal s

  -- `program_start` on an input.
  abbrev pub parse_program : ℕ → Parse N (Ret × AstNode N)
  parse_program fuel = program_start (parse fuel)
