-- ===== src/Syntax/Assignments.antt =====
-- src/syntax.c: expressions with assignments, and the initialisers of arrays.
use crypti.Base.{ℕ, suc, Bool, true, false, ◌||◌, Option, none, some, if◌then◌else◌, ltb}
use crypti.Run.{die, fault}
use crypti.Token.{
  Tok, ◌is◌, tok_as, tok_comma, tok_plus_as, tok_minus_as, tok_mul_as, tok_div_as, tok_pow_as,
  tok_b_and_as, tok_b_xor_as, tok_b_or_as, tok_shl_as, tok_shr_as, tok_lbrace, tok_rbrace,
}
use crypti.Syntax.Tree.{
  AstNode, AstNodes, Opcode, null, ast_node, ast_node_id, ast_node_access, ast_node_seq, no_nodes,
  one_more, add_node, ast_node_stub_new, ast_node_arr_new, ast_node_seq_new, ast_node_seq_add,
  ast_node_as_new, ast_node_op_as_new, op_plus, op_minus, op_mul, op_div, op_pow, op_b_and,
  op_b_xor, op_b_or, op_shl, op_shr,
}
use crypti.Syntax.Stream.{
  Parse, pure, ◌>>=◌, ◌>>◌, tok_next, current_tok, on, error, failed, unless_null, unless_errors,
  sync_stream,
}
use crypti.Syntax.Goals.{
  Calls, level, at_logic_or, trenary_op_goal, assign_goal, seq_rest, array_rest,
}

-- `is_lvalue` of a pointer that is not null.
abbrev pub is_lvalue : {N : Type 0} → AstNode N → Bool
is_lvalue (ast_node (ast_node_id _) _) = true
is_lvalue (ast_node (ast_node_access _ _) _) = true
is_lvalue _ = false

-- `is_lvalue` of what a pointer stands for, which reads it: a null pointer is a fault.
abbrev pub if_lvalue : {N A : Type 0} → AstNode N → Parse N A → Parse N A → Parse N A
if_lvalue node found other = unless_null node (λ s. fault) (if is_lvalue node then found else other)

-- `is_lvalue_seq`, which stops at the first node that is none.
unfoldable pub is_lvalue_seq : {N A : Type 0} → AstNodes N → Parse N A → Parse N A → Parse N A
is_lvalue_seq no_nodes found other = found
is_lvalue_seq (one_more node rest) found other =
    if_lvalue node (is_lvalue_seq rest found other) other

-- The nodes behind a pointer to `ast_node_seq_t`, if it is one.
abbrev pub seq_nodes : {N : Type 0} → AstNode N → Option (AstNodes N)
seq_nodes (ast_node (ast_node_seq nodes) _) = some nodes
seq_nodes _ = none

-- The cast to `ast_node_seq_t *` of another pointer is a fault.
abbrev pub with_nodes : {N A : Type 0} → Option (AstNodes N) → (AstNodes N → Parse N A) → Parse N A
with_nodes none k = λ s. fault
with_nodes (some nodes) k = k nodes

abbrev pub is_some : {A : Type 0} → Option A → Bool
is_some none = false
is_some (some _) = true

-- The `switch` of `op_with_assign`.
abbrev pub assigned_operator : Tok → Option Opcode
assigned_operator tok_plus_as = some op_plus
assigned_operator tok_minus_as = some op_minus
assigned_operator tok_mul_as = some op_mul
assigned_operator tok_div_as = some op_div
assigned_operator tok_pow_as = some op_pow
assigned_operator tok_b_and_as = some op_b_and
assigned_operator tok_b_xor_as = some op_b_xor
assigned_operator tok_b_or_as = some op_b_or
assigned_operator tok_shl_as = some op_shl
assigned_operator tok_shr_as = some op_shr
assigned_operator _ = none

module _ {N : Type 0} (call : Calls N) where
  -- The loop of `array_init`.
  abbrev pub array_init_items : AstNodes N → Parse N (AstNode N)
  array_init_items arr = do
    item ← call (level at_logic_or)
    unless_null item (do sync_stream; pure null)
        (let more = add_node arr item in
          on tok_comma (call (array_rest more))
            (on tok_rbrace (pure (ast_node_arr_new more)) (do sync_stream; pure null)))

  abbrev pub array_init : Parse N (AstNode N)
  array_init = call (array_rest no_nodes)

  abbrev pub get_rval : Parse N (AstNode N)
  get_rval = do
    right ← on tok_lbrace array_init (call trenary_op_goal)
    unless_null right (do error; pure null) (pure right)

  abbrev pub seq_more : AstNodes N → AstNode N → Parse N (AstNode N)
  seq_more nodes node =
      unless_null node (do error; pure null)
        (unless_errors (do error; pure null) (call (seq_rest (ast_node_seq_add nodes node))))

  -- The loop of `get_seq`.
  abbrev pub get_seq_rest : AstNodes N → Parse N (AstNode N)
  get_seq_rest nodes =
      on tok_comma (do node ← get_rval; seq_more nodes node) (pure (ast_node_seq_new nodes))

  abbrev pub get_seq : AstNode N → Parse N (AstNode N)
  get_seq first = call (seq_rest (ast_node_seq_add no_nodes first))

  -- `assign` behind the first node of the right side.
  abbrev pub assign_rest : AstNode N → ℕ → AstNode N → Parse N (AstNode N)
  assign_rest lseq nesting node =
      let err = pure ast_node_stub_new in
      unless_null node err (
        unless_errors err (do
          rseq ← call (assign_goal node (suc nesting))
          unless_null rseq err (unless_errors err (pure (ast_node_as_new lseq rseq)))))

  -- `assign` behind the left side.
  abbrev pub assign_behind : ℕ → AstNode N → Parse N (AstNode N)
  assign_behind nesting lseq =
      let err = pure ast_node_stub_new in
      unless_null lseq err (
        unless_errors err (
          on tok_as
            (with_nodes (seq_nodes lseq)
              λ nodes. is_lvalue_seq nodes (do node ← get_rval; assign_rest lseq nesting node) err)
            (if ltb 0 nesting then pure lseq else err)))

  -- The errors that are found here are not counted.
  abbrev pub assign : AstNode N → ℕ → Parse N (AstNode N)
  assign first nesting = do lseq ← get_seq first; assign_behind nesting lseq

  -- The right side, behind the `switch`.
  abbrev pub assigned : AstNode N → Option Opcode → Parse N (AstNode N)
  assigned node none = λ s. die
  assigned node (some op) = do
    tok_next
    right ← call trenary_op_goal
    unless_null right failed (pure (ast_node_op_as_new node right op))

  -- `op_with_assign`, for the current token. An assertion fails for a null pointer, and the
  -- `default` of the `switch` ends the process.
  abbrev pub op_with_assign : AstNode N → Tok → Parse N (AstNode N)
  op_with_assign node t =
      unless_null node (λ s. die)
        (if is_lvalue node then assigned node (assigned_operator t) else failed)

  -- The `switch` of `expr`.
  abbrev pub assign_or_not : AstNode N → Tok → Parse N (AstNode N)
  assign_or_not result t =
      if t is tok_as || t is tok_comma
      then call (assign_goal result 0)
      else if is_some (assigned_operator t)
      then op_with_assign result t
      else pure result

  abbrev pub expr : Parse N (AstNode N)
  expr = do
    result ← call trenary_op_goal
    unless_null result (pure null) (do t ← current_tok; assign_or_not result t)
