-- ===== src/Syntax/Assigning.antt =====
-- src/syntax.c: an assignment of one expression, to something that can be assigned to or not.
use crypti.Base.{◌≡◌, refl, true, false, ◌||◌, Option, List, ◌∷◌, ◌++◌, and-true, or-false}
use crypti.Run.{ok}
use crypti.Token.{Tok, ◌is◌, tok_as, tok_comma, tok_question}
use crypti.Lexer.{Attribute, LexItem}
use crypti.Syntax.Tree.{
  AstShape, ast_node_new, ast_node_as, ast_node_seq, one_more, no_nodes, add_node,
}
use crypti.Syntax.Stream.{Parser, first_item}
use crypti.Syntax.Goals.{
  Calls, expr_goal, trenary_op_goal, assign_goal, seq_rest, level, at_logic_or,
}
use crypti.Syntax.Assignments.{is_some, is_lvalue, is_lvalue_seq, assigned_operator}
use crypti.Syntax.Printing.{Expr, print, shape, own, sign, ends, at_grade, at_level, at_trenary_op}
use crypti.Syntax.Grammar.{step}
use crypti.Syntax.Reading.{
  at_items, Reaches, Reaches-stop, Reaches-done, Reaches-two, Reaches-three, Reads, Start, by_par,
  by_id, by_var, by_sign, by_minus, by_not, Opens,
}
use crypti.Syntax.Reading.Grades.{Graded-Reads, Graded-trenary, Opens-any, at_grade-Graded}
use crypti.Syntax.RoundTrip.{print-Graded}
use crypti.Syntax.Programs.{Parsed, fresh, global-Reaches}

-- A sequence of one node.
abbrev pub seq_of_one : {N : Type 0} → AstShape N → AstShape N
seq_of_one sh = ast_node_seq (one_more (ast_node_new sh) no_nodes)

-- What ends an expression is neither `=` nor a comma.
no_assignment :
    (t : Tok) → ends at_trenary_op t ≡ true → ((t is tok_as) ≡ false) × ((t is tok_comma) ≡ false)
no_assignment t e =
    let (here, more) = and-true e in
    let (three, comma) =
      or-false (t is tok_question || is_some (assigned_operator t) || t is tok_as) (t is tok_comma)
        here in
    let (two, assigns) =
      or-false (t is tok_question || is_some (assigned_operator t)) (t is tok_as) three in
    (assigns, comma)

module _ {N : Type 0} (fopen : Attribute N → Option (List (LexItem N))) (s : Parser N) where
  -- The sequence in front of `=`, and the sequence that ends an assignment.
  left-Reaches :
      (l : AstShape N) (p : LexItem N) (items : List (LexItem N))
      → Reaches fopen s
          (seq_rest (one_more (ast_node_new l) no_nodes))
          (at_items s p (sign tok_as ∷ items))
          (seq_of_one l)
          (sign tok_as ∷ items)
  left-Reaches l p items =
      Reaches-stop fopen s (seq_rest (one_more (ast_node_new l) no_nodes)) _ (seq_of_one l) p
        (sign tok_as ∷ items) λ call. refl

  right-Reaches :
      (r : AstShape N) (p : LexItem N) (rest : List (LexItem N))
      → ends at_trenary_op (first_item rest).0 ≡ true
      → Reaches fopen s (assign_goal (ast_node_new r) 1) (at_items s p rest) (seq_of_one r) rest
  unfolding add_node is_lvalue_seq
  right-Reaches r p rest e =
      let (assigns, comma) = no_assignment (first_item rest).0 e in
      Reaches-done fopen s (assign_goal (ast_node_new r) 1)
        (seq_rest (one_more (ast_node_new r) no_nodes)) (at_items s p rest) (at_items s p rest)
        (seq_of_one r) (seq_of_one r) (λ q. q) rest rest
        (Reaches-stop fopen s (seq_rest (one_more (ast_node_new r) no_nodes)) _ (seq_of_one r) p
          rest λ call. rw (comma) refl)
        (λ call q h. rw (h, assigns) refl)

  -- Behind `=` stands an expression, not a brace.
  assign-step :
      (call : Calls N) (l r result : AstShape N) (item p p' q q' : LexItem N)
      (items rest rest' : List (LexItem N))
      → is_lvalue (ast_node_new l) ≡ true
      → Start true item.0
      → call
          (seq_rest (one_more (ast_node_new l) no_nodes))
          (at_items s p (sign tok_as ∷ item ∷ items))
        ≡ ok (ast_node_new (seq_of_one l), at_items s p' (sign tok_as ∷ item ∷ items))
      → call trenary_op_goal (at_items s (sign tok_as) (item ∷ items))
        ≡ ok (ast_node_new r, at_items s q rest)
      → call (assign_goal (ast_node_new r) 1) (at_items s q rest)
        ≡ ok (ast_node_new result, at_items s q' rest')
      → step fopen call (assign_goal (ast_node_new l) 0) (at_items s p (sign tok_as ∷ item ∷ items))
        ≡ ok (
          ast_node_new (ast_node_as (ast_node_new (seq_of_one l)) (ast_node_new result)),
          at_items s q' rest',
        )
  unfolding add_node is_lvalue_seq
  assign-step call l r result (_, a) p p' q q' items rest rest' v by_par h h' h'' =
      rw (h, v, h', h'') refl
  assign-step call l r result (_, a) p p' q q' items rest rest' v by_id h h' h'' =
      rw (h, v, h', h'') refl
  assign-step call l r result (_, a) p p' q q' items rest rest' v by_var h h' h'' =
      rw (h, v, h', h'') refl
  assign-step call l r result (_, a) p p' q q' items rest rest' v by_sign h h' h'' =
      rw (h, v, h', h'') refl
  assign-step call l r result (_, a) p p' q q' items rest rest' v by_minus h h' h'' =
      rw (h, v, h', h'') refl
  assign-step call l r result (_, a) p p' q q' items rest rest' v by_not h h' h'' =
      rw (h, v, h', h'') refl

  assign-Reaches :
      (l r : AstShape N) (rs : List (LexItem N)) (p : LexItem N) (rest : List (LexItem N))
      → is_lvalue (ast_node_new l) ≡ true
      → Opens true rs
      → Reads fopen s at_trenary_op rs r
      → ends at_trenary_op (first_item rest).0 ≡ true
      → Reaches fopen s
          (assign_goal (ast_node_new l) 0)
          (at_items s p (sign tok_as ∷ (rs ++ rest)))
          (ast_node_as (ast_node_new (seq_of_one l)) (ast_node_new (seq_of_one r)))
          rest
  assign-Reaches l r rs p rest v (item, items, eq, start) reads e =
      Reaches-three fopen s (assign_goal (ast_node_new l) 0)
        (seq_rest (one_more (ast_node_new l) no_nodes)) trenary_op_goal
        (assign_goal (ast_node_new r) 1) (at_items s p (sign tok_as ∷ (rs ++ rest)))
        (at_items s p (sign tok_as ∷ (rs ++ rest))) (λ q. at_items s (sign tok_as) (rs ++ rest))
        (λ q. at_items s q rest) (seq_of_one l) r (seq_of_one r)
        (ast_node_as (ast_node_new (seq_of_one l)) (ast_node_new (seq_of_one r)))
        (sign tok_as ∷ (rs ++ rest)) rest rest (left-Reaches l p (rs ++ rest))
        (λ q. reads (sign tok_as) rest e) (λ q. right-Reaches r q rest e)
        (λ call p' q q' h h' h''. rw (eq) (
          assign-step call l r (seq_of_one r) item p p' q q' (items ++ rest) rest rest v start
            (rw (eq) at h) (rw (eq) at h') h''))

  -- An expression and `=`: what is behind it is left to `assign`.
  expr-assign :
      (l sh : AstShape N) (ls items rest : List (LexItem N)) (prev : LexItem N)
      → Reads fopen s (at_level at_logic_or) ls l
      → ((p : LexItem N)
          → Reaches fopen s
              (assign_goal (ast_node_new l) 0)
              (at_items s p (sign tok_as ∷ items))
              sh
              rest)
      → Reaches fopen s expr_goal (at_items s prev (ls ++ (sign tok_as ∷ items))) sh rest
  expr-assign l sh ls items rest prev reads more =
      let before = at_items s prev (ls ++ (sign tok_as ∷ items)) in
      Reaches-two fopen s expr_goal trenary_op_goal (assign_goal (ast_node_new l) 0) before before
        (λ p. at_items s p (sign tok_as ∷ items)) l sh sh (sign tok_as ∷ items) rest rest (λ q. q)
        (Reaches-done fopen s trenary_op_goal (level at_logic_or) before before l l (λ p. p)
          (sign tok_as ∷ items) (sign tok_as ∷ items) (reads prev (sign tok_as ∷ items) refl)
          (λ call p h. rw (h) refl))
        more (λ call p q h h'. rw (h, h') refl)

-- The left side as it stands in front of `=`.
abbrev pub left_side : {N : Type 0} → Expr N → List (LexItem N)
left_side l = at_grade (own l) (at_level at_logic_or) (print l)

module _ {N : Type 0} (fopen : Attribute N → Option (List (LexItem N))) (s : Parser N) where
  assign-program :
      (l : Expr N) (sh : AstShape N) (items rest : List (LexItem N))
      → ((p : LexItem N)
          → Reaches fopen
              (fresh s)
              (assign_goal (ast_node_new (shape l)) 0)
              (at_items (fresh s) p (sign tok_as ∷ items))
              sh
              rest)
      → Parsed fopen s (left_side l ++ (sign tok_as ∷ items)) (ast_node_new sh) rest
  assign-program l sh items rest more =
      let in_place =
        at_grade-Graded fopen (fresh s) (own l) (at_level at_logic_or) (print l) (shape l)
          (print-Graded fopen (fresh s) l) in
      let (b, p, k) =
        global-Reaches fopen (fresh s) (left_side l) sh s.lex_item (sign tok_as ∷ items) rest
          in_place.0
          (expr-assign fopen (fresh s) (shape l) sh (left_side l) items rest s.lex_item
            (Graded-Reads fopen (fresh s) (at_level at_logic_or) _ _ in_place) more) in
      (b, p, λ n enough. rw (k n enough) refl)

  -- A name or an array element, an equals sign and an expression, in front of a token that goes on
  -- with no expression and is no assignment, is read with enough fuel as the assignment of a
  -- sequence of one to a sequence of one.
  pub parse_program-assign :
      (l r : Expr N) (item : LexItem N) (rest : List (LexItem N))
      → is_lvalue (ast_node_new (shape l)) ≡ true
      → ends at_trenary_op item.0 ≡ true
      → Parsed fopen s
          (left_side l ++ (sign tok_as ∷ (print r ++ (item ∷ rest))))
          (ast_node_new (
            ast_node_as
              (ast_node_new (seq_of_one (shape l)))
              (ast_node_new (seq_of_one (shape r)))))
          (item ∷ rest)
  parse_program-assign l r item rest v e =
      let graded = print-Graded fopen (fresh s) r in
      assign-program l _ (print r ++ (item ∷ rest)) (item ∷ rest) λ p.
        assign-Reaches fopen (fresh s) (shape l) (shape r) (print r) p (item ∷ rest) v
          (Opens-any graded.0) (Graded-trenary fopen (fresh s) (own r) _ _ graded) e
