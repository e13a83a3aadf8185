-- ===== src/Syntax/Tests.antt =====
-- Small programs. A number stands for itself, and there are no files.
use crypti.Base.{arith, ℕ, ◌≡◌, refl, false, Option, none, List, [], ◌∷◌, ◌≤◌}
use crypti.Run.{Returns}
use crypti.Token.{
  tok_eol, tok_id, tok_var, tok_minus, tok_mul, tok_lpar, tok_rpar, tok_pow, tok_comma, tok_lbrace,
  tok_rbrace, tok_semicolon, tok_as, tok_break, tok_while,
}
use crypti.Lexer.{LexItem, Attribute, no_attribute, name, number}
use crypti.Syntax.Tree.{
  null, no_nodes, one_more, add_node, ast_node, ast_node_new, ast_node_var_new, ast_node_id_new,
  ast_node_op_new, ast_node_var, ast_node_id, ast_node_as, ast_node_unary, ast_node_call,
  ast_node_scope_new, op_minus, op_mul, op_pow,
}
use crypti.Syntax.Stream.{Parser}
use crypti.Syntax.Goals.{statement_goal}
use crypti.Syntax.Printing.{
  Expr, literal, named, binary_of, power_of, minus_of, applied, also, no_more, by_minus, by_mul,
  print, print_args, print_more_args, print_indices, shape, add_all, sign,
}
use crypti.Syntax.Grammar.{parse, parse_program}
use crypti.Syntax.Programs.{Parsed, before_program, parse_program-print}
use crypti.Syntax.Blocks.{print_block, chain, parse_program-scope, parse_program-lost}
use crypti.Syntax.Assigning.{seq_of_one, parse_program-assign}
use crypti.Syntax.Weights.{weight}
use crypti.Syntax.Total.Enough.{parse-Returns}
use crypti.Syntax.Total.Programs.{Answered, parse_program-Returns, parse_restores}

abbrev start : Parser ℕ
start = record {
  lex_item = (tok_eol, no_attribute);
  lex_item_prev = (tok_eol, no_attribute);
  lex_item_future = none;
  input = [];
  nerrors = 0;
  syntax_is_eof = false;
  is_cycle = 0;
  is_cond = 0;
  is_func = 0;
}

abbrev no_files : Attribute ℕ → Option (List (LexItem ℕ))
no_files a = none

abbrev num : ℕ → Expr ℕ
num n = literal (number n)

abbrev value_of : ℕ → LexItem ℕ
value_of n = (tok_var, number n)

abbrev var_x : Expr ℕ
var_x = named (name (b'x' ∷ []))

abbrev x_item : LexItem ℕ
x_item = (tok_id, name (b'x' ∷ []))

-- -f(1, x) ** 2 - (3 - x) * 4
abbrev sample : Expr ℕ
sample =
    binary_of by_minus
      (minus_of (power_of (applied (name (b'f' ∷ [])) (also (num 1) (also var_x no_more))) (num 2)))
      (binary_of by_mul (binary_of by_minus (num 3) var_x) (num 4))

abbrev sample_text : List (LexItem ℕ)
sample_text =
    sign tok_minus
    ∷ (tok_id, name (b'f' ∷ []))
    ∷ sign tok_lpar
    ∷ value_of 1
    ∷ sign tok_comma
    ∷ x_item
    ∷ sign tok_rpar
    ∷ sign tok_pow
    ∷ value_of 2
    ∷ sign tok_minus
    ∷ sign tok_lpar
    ∷ value_of 3
    ∷ sign tok_minus
    ∷ x_item
    ∷ sign tok_rpar
    ∷ sign tok_mul
    ∷ value_of 4
    ∷ sign tok_eol
    ∷ []

parse_program-print_example :
    Parsed no_files start sample_text
      (ast_node_op_new
        (ast_node_new (
          ast_node_unary
            (ast_node_op_new
              (ast_node_new (
                ast_node_call (name (b'f' ∷ [])) (
                  one_more
                    (ast_node_var_new (number 1))
                    (one_more (ast_node_id_new (name (b'x' ∷ []))) no_nodes))))
              (ast_node_var_new (number 2))
              op_pow)
            op_minus))
        (ast_node_op_new
          (ast_node_op_new
            (ast_node_var_new (number 3))
            (ast_node_id_new (name (b'x' ∷ [])))
            op_minus)
          (ast_node_var_new (number 4))
          op_mul)
        op_minus)
      (sign tok_eol ∷ [])
unfolding print print_args print_more_args print_indices shape add_all add_node
parse_program-print_example = parse_program-print no_files sample start (sign tok_eol) [] refl

-- { 1; x; }
parse_program-scope_example :
    Parsed no_files start
      (sign tok_lbrace
        ∷ value_of 1
        ∷ sign tok_semicolon
        ∷ x_item
        ∷ sign tok_semicolon
        ∷ sign tok_rbrace
        ∷ sign tok_eol
        ∷ [])
      (ast_node_scope_new
        (ast_node (ast_node_var (number 1)) (ast_node (ast_node_id (name (b'x' ∷ []))) null)))
      (sign tok_eol ∷ [])
unfolding print shape print_block chain
parse_program-scope_example =
    parse_program-scope no_files start (num 1 ∷ var_x ∷ []) (sign tok_eol ∷ [])

-- { { 1; }; x; }
parse_program-lost_example :
    Parsed no_files start
      (sign tok_lbrace
        ∷ sign tok_lbrace
        ∷ value_of 1
        ∷ sign tok_semicolon
        ∷ sign tok_rbrace
        ∷ sign tok_semicolon
        ∷ x_item
        ∷ sign tok_semicolon
        ∷ sign tok_rbrace
        ∷ sign tok_eol
        ∷ [])
      (ast_node_scope_new (ast_node_scope_new (ast_node (ast_node_id (name (b'x' ∷ []))) null)))
      (sign tok_eol ∷ [])
unfolding print shape print_block chain
parse_program-lost_example =
    parse_program-lost no_files start (num 1 ∷ []) var_x [] (sign tok_eol ∷ [])

-- x = 2
parse_program-assign_example :
    Parsed no_files start
      (x_item ∷ sign tok_as ∷ value_of 2 ∷ sign tok_eol ∷ [])
      (ast_node_new (
        ast_node_as
          (ast_node_new (seq_of_one (ast_node_id (name (b'x' ∷ [])))))
          (ast_node_new (seq_of_one (ast_node_var (number 2))))))
      (sign tok_eol ∷ [])
unfolding print shape
parse_program-assign_example =
    parse_program-assign no_files start var_x (num 2) (sign tok_eol) [] refl refl

-- while (1) break, read as a statement.
abbrev loop_input : List (LexItem ℕ)
loop_input = sign tok_lpar ∷ value_of 1 ∷ sign tok_rpar ∷ sign tok_break ∷ sign tok_eol ∷ []

parse_restores_example :
    Returns
      (parse no_files 439 statement_goal
        (record start { lex_item = sign tok_while; input = loop_input }))
      (λ r. (r.1.is_cycle ≡ 0) × (r.1.is_func ≡ 0) × (0 ≤ r.1.nerrors))
parse_restores_example =
    parse_restores no_files statement_goal
      (record start { lex_item = sign tok_while; input = loop_input }) 439 tt (omega arith)

parse-Returns_example :
    Returns
      (parse no_files 439 statement_goal
        (record start { lex_item = sign tok_while; input = loop_input }))
      (λ r. weight r.1 ≤ 11)
parse-Returns_example =
    parse-Returns no_files statement_goal
      (record start { lex_item = sign tok_while; input = loop_input }) 439 tt (omega arith)

-- while (1) break, read as a program.
parse_program-Returns_example :
    Returns
      (parse_program no_files 600 (before_program start (sign tok_while ∷ loop_input)))
      Answered
parse_program-Returns_example =
    parse_program-Returns no_files start (sign tok_while) loop_input 599 refl (omega arith)
