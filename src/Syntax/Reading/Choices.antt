-- ===== src/Syntax/Reading/Choices.antt =====
-- src/syntax.c: the conditional expression, and an expression without an assignment.
use crypti.Base.{
  ◌≡◌, refl, true, false, ◌||◌, Option, none, List, ◌∷◌, ◌++◌, append_assoc, and-true, or-false,
  not-false,
}
use crypti.Token.{Tok, ◌is◌, tok_question, tok_colon, tok_as, tok_comma}
use crypti.Lexer.{Attribute, LexItem}
use crypti.Syntax.Tree.{AstShape, ast_node_new, ast_node_trenary}
use crypti.Syntax.Stream.{Parser, first_item}
use crypti.Syntax.Goals.{level, at_logic_or, expr_goal, trenary_op_goal}
use crypti.Syntax.Assignments.{is_some, assigned_operator}
use crypti.Syntax.Printing.{at_level, at_trenary_op, ends, sign}
use crypti.Syntax.Reading.{at_items, Reaches, Reaches-done, Reaches-three, Reads, not-some}

trenary-ends :
    (t : Tok)
    → ends at_trenary_op t ≡ true
    → ((t is tok_question) ≡ false)
      × (assigned_operator t ≡ none)
      × ((t is tok_as || t is tok_comma) ≡ false)
      × (ends (at_level at_logic_or) t ≡ true)
trenary-ends t e =
    let (here, more) = and-true e in
    let (three, comma) =
      or-false (t is tok_question || is_some (assigned_operator t) || t is tok_as) (t is tok_comma)
        here in
    let (two, assigns) =
      or-false (t is tok_question || is_some (assigned_operator t)) (t is tok_as) three in
    let (question, op) = or-false (t is tok_question) (is_some (assigned_operator t)) two in
    (not-false question, not-some _ (rw (op) refl), rw (assigns, comma) refl, more)

module _ {N : Type 0} (fopen : Attribute N → Option (List (LexItem N))) (s : Parser N) where
  pub level-Reads :
      (ts : List (LexItem N)) (sh : AstShape N)
      → Reads fopen s (at_level at_logic_or) ts sh
      → Reads fopen s at_trenary_op ts sh
  level-Reads ts sh reads prev rest e =
      let (question, op, assigns, more) = trenary-ends (first_item rest).0 e in
      Reaches-done fopen s trenary_op_goal (level at_logic_or) _ _ sh sh (λ p. p) rest rest
        (reads prev rest more) (λ call p h. rw (h, question) refl)

  -- `expr` is the conditional expression, where no assignment follows.
  pub expr-Reaches :
      (ts : List (LexItem N)) (sh : AstShape N)
      → Reads fopen s at_trenary_op ts sh
      → (prev : LexItem N) (rest : List (LexItem N)) → ends at_trenary_op (first_item rest).0 ≡ true
      → Reaches fopen s expr_goal (at_items s prev (ts ++ rest)) sh rest
  expr-Reaches ts sh reads prev rest e =
      let (question, op, assigns, more) = trenary-ends (first_item rest).0 e in
      Reaches-done fopen s expr_goal trenary_op_goal _ _ sh sh (λ p. p) rest rest
        (reads prev rest e) (λ call p h. rw (h, op, assigns) refl)

  pub choice-Reads :
      (cs ys ns : List (LexItem N)) (c y n : AstShape N)
      → Reads fopen s (at_level at_logic_or) cs c
      → Reads fopen s at_trenary_op ys y
      → Reads fopen s at_trenary_op ns n
      → Reads fopen s at_trenary_op
          (cs ++ (sign tok_question ∷ (ys ++ (sign tok_colon ∷ ns))))
          (ast_node_trenary (ast_node_new c) (ast_node_new y) (ast_node_new n))
  choice-Reads cs ys ns c y n cond if_yes if_no prev rest e =
      rw
        (
          append_assoc cs (sign tok_question ∷ (ys ++ (sign tok_colon ∷ ns))) rest,
          append_assoc ys (sign tok_colon ∷ ns) rest,
        )
        (Reaches-three fopen s trenary_op_goal (level at_logic_or) expr_goal expr_goal _ _
          (λ p. at_items s (sign tok_question) (ys ++ (sign tok_colon ∷ (ns ++ rest))))
          (λ p. at_items s (sign tok_colon) (ns ++ rest)) c y n _
          (sign tok_question ∷ (ys ++ (sign tok_colon ∷ (ns ++ rest))))
          (sign tok_colon ∷ (ns ++ rest)) rest
          (cond prev (sign tok_question ∷ (ys ++ (sign tok_colon ∷ (ns ++ rest)))) refl)
          (λ p. expr-Reaches ys y if_yes (sign tok_question) (sign tok_colon ∷ (ns ++ rest)) refl)
          (λ p. expr-Reaches ns n if_no (sign tok_colon) rest e)
          (λ call p q r h h' h''. rw (h, h', h'') refl))
