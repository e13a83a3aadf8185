-- ===== src/Syntax/Tree.antt =====
-- src/syn_tree.c and include/syn_tree.h: the nodes of the syntax tree. Freeing is not modelled.
use crypti.Base.{Bool, true, false, List}
use crypti.Lexer.{Attribute}

-- `opcode_t`
pub data Opcode : Type 0 where
  op_as op_not op_notnot : Opcode
  op_eq op_neq op_gr op_lo op_ge op_le op_l_and op_l_or op_shl op_shr : Opcode
  op_b_and op_b_xor op_b_or op_plus op_minus op_mul op_div op_mod op_pow : Opcode
  op_str_concat op_octstr_concat : Opcode

-- A pointer to `ast_node_t`: NULL, or what the node's type holds with its `child`. Names and
-- variables are the member of the union that the lexer filled.
mutual
  pub data AstNode (N : Type 0) : Type 0 where
    null : AstNode N
    ast_node : AstShape N → AstNode N → AstNode N

  -- `ast_type_t`, each with the fields of its structure.
  pub data AstShape (N : Type 0) : Type 0 where
    ast_node_var : Attribute N → AstShape N
    ast_node_id : Attribute N → AstShape N
    ast_node_arr : AstNodes N → AstShape N
    ast_node_access : Attribute N → AstNodes N → AstShape N
    ast_node_def : Attribute N → List (Attribute N) → List (Attribute N) → AstNode N → AstShape N
    ast_node_call : Attribute N → AstNodes N → AstShape N
    ast_node_unary : AstNode N → Opcode → AstShape N
    ast_node_trenary : AstNode N → AstNode N → AstNode N → AstShape N
    ast_node_op : AstNode N → AstNode N → Opcode → AstShape N
    ast_node_op_as : AstNode N → AstNode N → Opcode → AstShape N
    ast_node_as : AstNode N → AstNode N → AstShape N
    ast_node_seq : AstNodes N → AstShape N
    ast_node_if : AstNode N → AstNode N → AstNode N → AstShape N
    ast_node_for : AstNode N → AstNode N → AstNode N → AstNode N → AstShape N
    ast_node_while : AstNode N → AstNode N → AstShape N
    ast_node_do : AstNode N → AstNode N → AstShape N
    ast_node_del : AstNode N → AstShape N
    ast_node_break ast_node_continue ast_node_return : AstShape N
    ast_node_import : AstNodes N → AstShape N
    ast_node_scope ast_node_stub : AstShape N

  -- An array of pointers with its length.
  pub data AstNodes (N : Type 0) : Type 0 where
    no_nodes : AstNodes N
    one_more : AstNode N → AstNodes N → AstNodes N

-- `ast_node_new` where memory is granted: the fields that are not set are 0.
abbrev pub ast_node_new : {N : Type 0} → AstShape N → AstNode N
ast_node_new shape = ast_node shape null

abbrev pub is_null : {N : Type 0} → AstNode N → Bool
is_null null = true
is_null (ast_node _ _) = false

module _ {N : Type 0} where
  -- An array that is enlarged by one pointer.
  unfoldable pub add_node : AstNodes N → AstNode N → AstNodes N
  add_node no_nodes node = one_more node no_nodes
  add_node (one_more first rest) node = one_more first (add_node rest node)

  abbrev pub ast_node_var_new : Attribute N → AstNode N
  ast_node_var_new var = ast_node_new (ast_node_var var)

  abbrev pub ast_node_id_new : Attribute N → AstNode N
  ast_node_id_new id = ast_node_new (ast_node_id id)

  abbrev pub ast_node_arr_new : AstNodes N → AstNode N
  ast_node_arr_new arr = ast_node_new (ast_node_arr arr)

  abbrev pub ast_node_access_new : Attribute N → AstNodes N → AstNode N
  ast_node_access_new id ind = ast_node_new (ast_node_access id ind)

  -- `ast_node_func_def_new`, with the fields that `process_function` fills in.
  abbrev pub ast_node_func_def_new :
      Attribute N → List (Attribute N) → List (Attribute N) → AstNode N → AstNode N
  ast_node_func_def_new id args retargs body = ast_node_new (ast_node_def id args retargs body)

  -- `ast_node_func_call_new`, with the arguments that were added.
  abbrev pub ast_node_func_call_new : Attribute N → AstNodes N → AstNode N
  ast_node_func_call_new id args = ast_node_new (ast_node_call id args)

  abbrev pub ast_node_func_call_add_next_arg : AstNodes N → AstNode N → AstNodes N
  ast_node_func_call_add_next_arg args node = add_node args node

  abbrev pub ast_node_trenary_new : AstNode N → AstNode N → AstNode N → AstNode N
  ast_node_trenary_new cond if_yes if_no = ast_node_new (ast_node_trenary cond if_yes if_no)

  abbrev pub ast_node_unary_new : AstNode N → Opcode → AstNode N
  ast_node_unary_new node opcode = ast_node_new (ast_node_unary node opcode)

  abbrev pub ast_node_op_new : AstNode N → AstNode N → Opcode → AstNode N
  ast_node_op_new left right opcode = ast_node_new (ast_node_op left right opcode)

  abbrev pub ast_node_op_as_new : AstNode N → AstNode N → Opcode → AstNode N
  ast_node_op_as_new left right opcode = ast_node_new (ast_node_op_as left right opcode)

  abbrev pub ast_node_as_new : AstNode N → AstNode N → AstNode N
  ast_node_as_new left right = ast_node_new (ast_node_as left right)

  -- `ast_node_seq_new`, with the nodes that were added.
  abbrev pub ast_node_seq_new : AstNodes N → AstNode N
  ast_node_seq_new nodes = ast_node_new (ast_node_seq nodes)

  abbrev pub ast_node_seq_add : AstNodes N → AstNode N → AstNodes N
  ast_node_seq_add nodes node = add_node nodes node

  abbrev pub ast_node_if_new : AstNode N → AstNode N → AstNode N → AstNode N
  ast_node_if_new cond body otherwise = ast_node_new (ast_node_if cond body otherwise)

  abbrev pub ast_node_for_new : AstNode N → AstNode N → AstNode N → AstNode N → AstNode N
  ast_node_for_new expr1 expr2 expr3 body = ast_node_new (ast_node_for expr1 expr2 expr3 body)

  abbrev pub ast_node_while_new : AstNode N → AstNode N → AstNode N
  ast_node_while_new cond body = ast_node_new (ast_node_while cond body)

  abbrev pub ast_node_do_new : AstNode N → AstNode N → AstNode N
  ast_node_do_new cond body = ast_node_new (ast_node_do cond body)

  abbrev pub ast_node_del_new : AstNode N → AstNode N
  ast_node_del_new id = ast_node_new (ast_node_del id)

  abbrev pub ast_node_break_new : AstNode N
  ast_node_break_new = ast_node_new ast_node_break

  abbrev pub ast_node_continue_new : AstNode N
  ast_node_continue_new = ast_node_new ast_node_continue

  abbrev pub ast_node_return_new : AstNode N
  ast_node_return_new = ast_node_new ast_node_return

  abbrev pub ast_node_import_new : AstNodes N → AstNode N
  ast_node_import_new nodes = ast_node_new (ast_node_import nodes)

  -- `ast_node_scope_new`: the body of a scope is its child.
  abbrev pub ast_node_scope_new : AstNode N → AstNode N
  ast_node_scope_new child = ast_node ast_node_scope child

  abbrev pub ast_node_stub_new : AstNode N
  ast_node_stub_new = ast_node_new ast_node_stub
