-- ===== src/Syntax/Operands.antt =====
-- src/syntax.c: signs and negations, powers, concatenations and the operands.
use crypti.Base.{Bool, false, not, ◌||◌, if◌then◌else◌}
use crypti.Token.{
  ◌is◌, tok_eol, tok_semicolon, tok_plus, tok_minus, tok_not, tok_pow, tok_lpar, tok_rpar, tok_id,
  tok_var, tok_hash, tok_comma, tok_lbracket, tok_rbracket,
}
use crypti.Lexer.{Attribute}
use crypti.Syntax.Tree.{
  AstNode, AstNodes, null, no_nodes, add_node, ast_node_stub_new, ast_node_op_new,
  ast_node_unary_new, ast_node_var_new, ast_node_id_new, ast_node_access_new,
  ast_node_func_call_new, ast_node_func_call_add_next_arg, op_not, op_notnot, op_minus, op_plus,
  op_pow, op_str_concat, op_octstr_concat,
}
use crypti.Syntax.Stream.{
  Parse, pure, ◌>>=◌, ◌>>◌, tok_next, current_tok, on, is_eof, error, failed, unless_null,
  sync_stream, prev_attribute,
}
use crypti.Syntax.Goals.{
  Calls, level, at_logic_or, trenary_op_goal, power_goal, concatenation_goal, factor_goal,
  unary_not_goal, unary_plus_goal, concatenation_rest, call_rest, access_rest,
}
use crypti.Syntax.Expressions.{or_stub}

module _ {N : Type 0} (call : Calls N) where
  abbrev pub term : Parse N (AstNode N)
  term = do
    t ← current_tok
    (if t is tok_eol || t is tok_semicolon then pure null else (do
      ended ← is_eof
      (if ended
          then pure null
          else if t is tok_plus || t is tok_minus
          then call (unary_plus_goal false)
          else if t is tok_not
          then call (unary_not_goal false)
          else call power_goal)))

  -- One turn of the loop of `unary_not`; the flag is `not`.
  abbrev pub unary_not : Bool → Parse N (AstNode N)
  unary_not flag = do
    t ← current_tok
    (let flag' = if t is tok_not then not flag else flag in
        on tok_not (call (unary_not_goal flag')) (do
          node ← call power_goal
          pure (ast_node_unary_new node (if flag' then op_not else op_notnot))))

  -- One turn of the loop of `unary_plus`; the flag is `minus`.
  abbrev pub unary_plus : Bool → Parse N (AstNode N)
  unary_plus flag = do
    t ← current_tok
    (let flag' = if t is tok_minus then not flag else flag in
        on tok_plus (call (unary_plus_goal flag')) (
          on tok_minus (call (unary_plus_goal flag')) (do
            node ← call power_goal
            pure (ast_node_unary_new node (if flag' then op_minus else op_plus)))))

  abbrev pub power : Parse N (AstNode N)
  power = do
    result ← call concatenation_goal
    unless_null result (pure null) (
        on tok_pow
          (do
            right ← call power_goal
            node ← or_stub call right
            pure (ast_node_op_new result node op_pow))
          (pure result))

  -- `concatenation`: the first operand, and one turn of the loop.
  abbrev pub concatenation : Parse N (AstNode N)
  concatenation = do
    result ← call factor_goal
    unless_null result (pure null) (call (concatenation_rest result))

  abbrev pub concatenation_turn : AstNode N → Parse N (AstNode N)
  concatenation_turn result = do
    t ← current_tok
    (if t is tok_lpar || t is tok_id || t is tok_var
        then (do
          right ← call factor_goal
          node ← or_stub call right
          call (concatenation_rest (ast_node_op_new result node op_str_concat)))
        else on tok_hash
            (do
              right ← call factor_goal
              node ← or_stub call right
              call (concatenation_rest (ast_node_op_new result node op_octstr_concat)))
            (pure result))

  -- The loop of `function_call`, behind the parenthesis.
  abbrev pub function_call_args : Attribute N → AstNodes N → Parse N (AstNode N)
  function_call_args id args = on tok_rpar (pure (ast_node_func_call_new id args)) (do
    node ← call (level at_logic_or)
    unless_null node failed (
        let more = ast_node_func_call_add_next_arg args node in
        on tok_comma (call (call_rest id more))
          (do t ← current_tok; (if t is tok_rpar then call (call_rest id more) else failed))))

  abbrev pub function_call : Parse N (AstNode N)
  function_call = do prev ← prev_attribute; on tok_lpar (call (call_rest prev.1 no_nodes)) failed

  -- The loop of `array_access`.
  abbrev pub array_access_indices : Attribute N → AstNodes N → Parse N (AstNode N)
  array_access_indices id ind = do
    item ← call (level at_logic_or)
    unless_null item failed (
        let more = add_node ind item in
        on tok_comma (call (access_rest id more))
          (on tok_rbracket (pure (ast_node_access_new id more)) failed))

  abbrev pub array_access : Parse N (AstNode N)
  array_access = do prev ← prev_attribute; tok_next; call (access_rest prev.1 no_nodes)

  abbrev pub identifier : Parse N (AstNode N)
  identifier = do
    t ← current_tok
    (if t is tok_lbracket
        then array_access
        else if t is tok_lpar
        then function_call
        else (do prev ← prev_attribute; pure (ast_node_id_new prev.1)))

  abbrev pub factor : Parse N (AstNode N)
  factor =
      on tok_lpar (do stat ← call trenary_op_goal; on tok_rpar (pure stat) (do error; pure stat))
        (on tok_id identifier (
          on tok_var (do prev ← prev_attribute; pure (ast_node_var_new prev.1))
            (do error; sync_stream; pure ast_node_stub_new)))
