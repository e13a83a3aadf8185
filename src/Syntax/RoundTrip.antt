-- ===== src/Syntax/RoundTrip.antt =====
-- src/syntax.c: an expression that is written with no more parentheses than its operators need is
-- read as its tree.
use crypti.Base.{refl, true, Option, List, [], ◌++◌, append_assoc}
use crypti.Token.{tok_id, tok_var, tok_minus, tok_plus, tok_not}
use crypti.Lexer.{Attribute, LexItem}
use crypti.Syntax.Tree.{
  AstNodes, AstShape, ast_node_new, add_node, no_nodes, ast_node_call, ast_node_access,
}
use crypti.Syntax.Stream.{Parser}
use crypti.Syntax.Goals.{at_logic_or, call_rest, access_rest}
use crypti.Syntax.Printing.{
  Expr, Exprs, literal, named, applied, indexed, binary_of, power_of, joined, minus_of, plus_of,
  not_of, choice, no_more, also, Grade, at_factor, at_concatenation, at_power, at_level, at_grade,
  own, print, print_args, print_more_args, print_indices, shape, add_all, sign, tighter, level_of,
  token_of, opcode_of,
}
use crypti.Syntax.Reading.{
  at_items, Reaches, Reads, Opens, by_id, by_var, by_sign, by_minus, by_not,
}
use crypti.Syntax.Reading.Levels.{operator-Leads, operator-token, token-ends}
use crypti.Syntax.Reading.Operands.{
  literal-Reads, named-Reads, hash-Joins, power-Reads, minus-Reads, plus-Reads, not-Reads,
}
use crypti.Syntax.Reading.Choices.{choice-Reads}
use crypti.Syntax.Reading.Grades.{
  Graded, Graded-Reads, Graded-trenary, at_grade-Graded, Opens-add_node,
}
use crypti.Syntax.Reading.Lists.{
  call-close, last-argument, next-argument, last-index, next-index, call-start, access-start,
}

module _ {N : Type 0} (fopen : Attribute N → Option (List (LexItem N))) (s : Parser N) where
  abbrev PrintsRight : Expr N → Type 0
  PrintsRight e = Graded fopen s (own e) (print e) (shape e)

  -- The arguments, those behind a first one, and the indices behind a first one.
  abbrev Arguments : Exprs N → Type 0
  Arguments es =
      (a : Attribute N) (args : AstNodes N) (prev : LexItem N) (rest : List (LexItem N))
      → Reaches fopen s (call_rest a args) (at_items s prev (print_args es ++ rest))
          (ast_node_call a (add_all args es)) rest

  abbrev MoreArguments : Exprs N → Type 0
  MoreArguments es =
      (ts : List (LexItem N)) (sh : AstShape N)
      → Opens true ts
      → Reads fopen s (at_level at_logic_or) ts sh
      → (a : Attribute N) (args : AstNodes N) (prev : LexItem N) (rest : List (LexItem N))
      → Reaches fopen s (call_rest a args) (at_items s prev (ts ++ (print_more_args es ++ rest)))
          (ast_node_call a (add_all (add_node args (ast_node_new sh)) es)) rest

  abbrev MoreIndices : Exprs N → Type 0
  MoreIndices es =
      (ts : List (LexItem N)) (sh : AstShape N)
      → Opens true ts
      → Reads fopen s (at_level at_logic_or) ts sh
      → (a : Attribute N) (ind : AstNodes N) (prev : LexItem N) (rest : List (LexItem N))
      → Reaches fopen s (access_rest a ind) (at_items s prev (ts ++ (print_indices es ++ rest)))
          (ast_node_access a (add_all (add_node ind (ast_node_new sh)) es)) rest

  abbrev ListsRight : Exprs N → Type 0
  ListsRight es = Arguments es × MoreArguments es × MoreIndices es

  -- An operand in its place.
  module _ (e : Expr N) (h : PrintsRight e) where
    in_place : (g : Grade) → Graded fopen s g (at_grade (own e) g (print e)) (shape e)
    in_place g = at_grade-Graded fopen s (own e) g (print e) (shape e) h

    in_place-Reads : (g : Grade) → Reads fopen s g (at_grade (own e) g (print e)) (shape e)
    in_place-Reads g = Graded-Reads fopen s g _ (shape e) (in_place g)

  -- The first expression of a list, and those behind it.
  module _ (x : Expr N) (xs : Exprs N) (h : PrintsRight x) (hs : ListsRight xs) where
    also-Arguments : Arguments (also x xs)
    unfolding print print_args add_all
    also-Arguments a args prev rest =
        let (_, more, _) = hs in
        rw
          (append_assoc (at_grade (own x) (at_level at_logic_or) (print x)) (print_more_args xs)
            rest)
          (more _ (shape x) (in_place x h (at_level at_logic_or)).0
            (in_place-Reads x h (at_level at_logic_or)) a args prev rest)

    also_indices :
        (a : Attribute N) (ind : AstNodes N) (prev : LexItem N) (rest : List (LexItem N))
        → Reaches fopen s
            (access_rest a ind)
            (at_items s prev
              ((at_grade (own x) (at_level at_logic_or) (print x) ++ print_indices xs) ++ rest))
            (ast_node_access a (add_all (add_node ind (ast_node_new (shape x))) xs))
            rest
    also_indices a ind prev rest =
        let (_, _, more) = hs in
        rw
          (append_assoc (at_grade (own x) (at_level at_logic_or) (print x)) (print_indices xs) rest)
          (more _ (shape x) (in_place x h (at_level at_logic_or)).0
            (in_place-Reads x h (at_level at_logic_or)) a ind prev rest)

  pub print-Graded : (e : Expr N) → PrintsRight e
  unfolding print shape add_all print_args print_more_args print_indices
  print-Graded e = elim e as PrintsRight ListsRight [
    | literal a ↦ (((tok_var, a), [], refl, by_var), literal-Reads fopen s a)
    | named a ↦ (((tok_id, a), [], refl, by_id), named-Reads fopen s a)
    | applied a (args → ih) ↦ (
      ((tok_id, a), _, refl, by_id),
      λ prev rest e. call-start fopen s a prev _ rest _ (ih.0 a no_nodes _ rest),
    )
    | indexed a (x → ih) (xs → ihs) ↦ (
      ((tok_id, a), _, refl, by_id),
      λ prev rest e.
          access-start fopen s a prev _ rest _ (also_indices x xs ih ihs a no_nodes _ rest),
    )
    | binary_of o (l → ihl) (r → ihr) ↦ (
      Opens-add_node _ _ (in_place l ihl (at_level (level_of o))).0,
      operator-Leads fopen s (level_of o) (token_of o) (opcode_of o) _ _ (shape l) (shape r)
          (operator-token o) (token-ends o) (in_place l ihl (at_level (level_of o))).1
          (in_place-Reads r ihr (tighter (level_of o))),
    )
    | power_of (l → ihl) (r → ihr) ↦ (
      Opens-add_node _ _ (in_place l ihl at_concatenation).0,
      power-Reads fopen s _ _ (shape l) (shape r) (in_place-Reads l ihl at_concatenation)
          (in_place-Reads r ihr at_power),
    )
    | joined (l → ihl) (r → ihr) ↦ (
      Opens-add_node _ _ (in_place l ihl at_concatenation).0,
      hash-Joins fopen s _ _ (shape l) (shape r) (in_place l ihl at_concatenation).1
          (in_place-Reads r ihr at_factor),
    )
    | minus_of (x → ih) ↦ (
      (sign tok_minus, _, refl, by_minus),
      minus-Reads fopen s _ (shape x) (in_place x ih at_power).0 (in_place-Reads x ih at_power),
    )
    | plus_of (x → ih) ↦ (
      (sign tok_plus, _, refl, by_sign),
      plus-Reads fopen s _ (shape x) (in_place x ih at_power).0 (in_place-Reads x ih at_power),
    )
    | not_of (x → ih) ↦ (
      (sign tok_not, _, refl, by_not),
      not-Reads fopen s _ (shape x) (in_place x ih at_power).0 (in_place-Reads x ih at_power),
    )
    | choice (c → ihc) (a → iha) (b → ihb) ↦ (
      Opens-add_node _ _ (in_place c ihc (at_level at_logic_or)).0,
      choice-Reads fopen s _ _ _ (shape c) (shape a) (shape b)
          (in_place-Reads c ihc (at_level at_logic_or)) (Graded-trenary fopen s (own a) _ _ iha)
          (Graded-trenary fopen s (own b) _ _ ihb),
    )
    | no_more ↦ (
      λ a args prev rest. call-close fopen s a args prev rest,
      λ ts sh opens reads a args prev rest.
          last-argument fopen s ts sh opens reads a args prev rest,
      λ ts sh opens reads a ind prev rest. last-index fopen s ts sh opens reads a ind prev rest,
    )
    | also (x → ih) (xs → ihs) ↦ (
      λ a args prev rest. also-Arguments x xs ih ihs a args prev rest,
      λ ts sh opens reads a args prev rest.
          next-argument fopen s ts sh opens reads a args prev _ rest _
            (also-Arguments x xs ih ihs a _ _ rest),
      λ ts sh opens reads a ind prev rest.
          next-index fopen s ts sh opens reads a ind prev _ rest _
            (also_indices x xs ih ihs a _ _ rest),
    )
  ]
