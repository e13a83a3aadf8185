-- ===== src/Syntax/Reading/Lists.antt =====
-- src/syntax.c: the arguments of a call and the indices of an array.
use crypti.Base.{◌≡◌, refl, ap, ◌∙◌, sym, true, Option, List, ◌∷◌, ◌++◌}
use crypti.Run.{ok}
use crypti.Token.{tok_id, tok_lpar, tok_rpar, tok_comma, tok_lbracket, tok_rbracket}
use crypti.Lexer.{Attribute, LexItem}
use crypti.Syntax.Tree.{
  AstNodes, AstShape, ast_node_new, add_node, no_nodes, ast_node_call, ast_node_access,
}
use crypti.Syntax.Stream.{Parser}
use crypti.Syntax.Goals.{Calls, level, at_logic_or, factor_goal, call_rest, access_rest}
use crypti.Syntax.Printing.{at_level, sign}
use crypti.Syntax.Grammar.{step}
use crypti.Syntax.Reading.{
  at_items, Reaches, Reaches-then, Reaches-stop, Reaches-done, Reaches-jump, Reads, Opens, Start,
  by_par, by_id, by_var, by_sign, by_minus, by_not,
}

module _ {N : Type 0} (fopen : Attribute N → Option (List (LexItem N))) (s : Parser N) where
  -- Behind the last argument stands the bracket.
  pub call-close :
      (a : Attribute N) (args : AstNodes N) (prev : LexItem N) (rest : List (LexItem N))
      → Reaches fopen s
          (call_rest a args)
          (at_items s prev (sign tok_rpar ∷ rest))
          (ast_node_call a args)
          rest
  call-close a args prev rest =
      Reaches-stop fopen s (call_rest a args) _ _ (sign tok_rpar) rest λ call. refl

  -- The loop of `function_call` reads an argument where an expression begins.
  call-argument :
      (call : Calls N) (a : Attribute N) (args : AstNodes N) (sh : AstShape N)
      (item prev q : LexItem N) (items rest : List (LexItem N))
      → Start true item.0
      → call (level at_logic_or) (at_items s prev (item ∷ items))
        ≡ ok (ast_node_new sh, at_items s q (sign tok_rpar ∷ rest))
      → step fopen call (call_rest a args) (at_items s prev (item ∷ items))
        ≡ call (call_rest a (add_node args (ast_node_new sh))) (at_items s q (sign tok_rpar ∷ rest))
  call-argument call a args sh (_, x) prev q items rest by_par h = rw (h) refl
  call-argument call a args sh (_, x) prev q items rest by_id h = rw (h) refl
  call-argument call a args sh (_, x) prev q items rest by_var h = rw (h) refl
  call-argument call a args sh (_, x) prev q items rest by_sign h = rw (h) refl
  call-argument call a args sh (_, x) prev q items rest by_minus h = rw (h) refl
  call-argument call a args sh (_, x) prev q items rest by_not h = rw (h) refl

  call-comma :
      (call : Calls N) (a : Attribute N) (args : AstNodes N) (sh : AstShape N)
      (item prev q : LexItem N) (items rest : List (LexItem N))
      → Start true item.0
      → call (level at_logic_or) (at_items s prev (item ∷ items))
        ≡ ok (ast_node_new sh, at_items s q (sign tok_comma ∷ rest))
      → step fopen call (call_rest a args) (at_items s prev (item ∷ items))
        ≡ call (call_rest a (add_node args (ast_node_new sh))) (at_items s (sign tok_comma) rest)
  call-comma call a args sh (_, x) prev q items rest by_par h = rw (h) refl
  call-comma call a args sh (_, x) prev q items rest by_id h = rw (h) refl
  call-comma call a args sh (_, x) prev q items rest by_var h = rw (h) refl
  call-comma call a args sh (_, x) prev q items rest by_sign h = rw (h) refl
  call-comma call a args sh (_, x) prev q items rest by_minus h = rw (h) refl
  call-comma call a args sh (_, x) prev q items rest by_not h = rw (h) refl

  module _ (ts : List (LexItem N)) (sh : AstShape N) (opens : Opens true ts)
      (reads : Reads fopen s (at_level at_logic_or) ts sh) where
    -- An argument and the bracket, or an argument, a comma and what the loop reads behind it.
    pub last-argument :
        (a : Attribute N) (args : AstNodes N) (prev : LexItem N) (rest : List (LexItem N))
        → Reaches fopen s
            (call_rest a args)
            (at_items s prev (ts ++ (sign tok_rpar ∷ rest)))
            (ast_node_call a (add_node args (ast_node_new sh)))
            rest
    last-argument a args prev rest =
        let (item, items, e, start) = opens in
        Reaches-then fopen s (call_rest a args) (level at_logic_or)
          (call_rest a (add_node args (ast_node_new sh))) _ _ sh _
          (λ p. at_items s p (sign tok_rpar ∷ rest)) (sign tok_rpar ∷ rest) rest
          (reads prev (sign tok_rpar ∷ rest) refl)
          (λ p. call-close a (add_node args (ast_node_new sh)) p rest)
          (λ call q h. rw (e) (
            call-argument call a args sh item prev q (items ++ (sign tok_rpar ∷ rest)) rest start (
              ap (λ x. call (level at_logic_or) (at_items s prev (x ++ (sign tok_rpar ∷ rest))))
                (sym e)
              ∙ h)))

    pub next-argument :
        (a : Attribute N) (args : AstNodes N) (prev : LexItem N) (middle rest : List (LexItem N))
        (sh' : AstShape N)
        → Reaches fopen s
            (call_rest a (add_node args (ast_node_new sh)))
            (at_items s (sign tok_comma) middle)
            sh'
            rest
        → Reaches fopen s
            (call_rest a args)
            (at_items s prev (ts ++ (sign tok_comma ∷ middle)))
            sh'
            rest
    next-argument a args prev middle rest sh' more =
        let (item, items, e, start) = opens in
        Reaches-then fopen s (call_rest a args) (level at_logic_or)
          (call_rest a (add_node args (ast_node_new sh))) _ _ sh _
          (λ p. at_items s (sign tok_comma) middle) (sign tok_comma ∷ middle) rest
          (reads prev (sign tok_comma ∷ middle) refl) (λ p. more)
          (λ call q h. rw (e) (
            call-comma call a args sh item prev q (items ++ (sign tok_comma ∷ middle)) middle start
              (ap (λ x. call (level at_logic_or) (at_items s prev (x ++ (sign tok_comma ∷ middle))))
                  (sym e)
                ∙ h)))

    -- The same for the indices.
    pub last-index :
        (a : Attribute N) (ind : AstNodes N) (prev : LexItem N) (rest : List (LexItem N))
        → Reaches fopen s
            (access_rest a ind)
            (at_items s prev (ts ++ (sign tok_rbracket ∷ rest)))
            (ast_node_access a (add_node ind (ast_node_new sh)))
            rest
    last-index a ind prev rest =
        Reaches-done fopen s (access_rest a ind) (level at_logic_or) _ _ sh _
          (λ p. sign tok_rbracket) (sign tok_rbracket ∷ rest) rest
          (reads prev (sign tok_rbracket ∷ rest) refl) (λ call q h. rw (h) refl)

    pub next-index :
        (a : Attribute N) (ind : AstNodes N) (prev : LexItem N) (middle rest : List (LexItem N))
        (sh' : AstShape N)
        → Reaches fopen s
            (access_rest a (add_node ind (ast_node_new sh)))
            (at_items s (sign tok_comma) middle)
            sh'
            rest
        → Reaches fopen s
            (access_rest a ind)
            (at_items s prev (ts ++ (sign tok_comma ∷ middle)))
            sh'
            rest
    next-index a ind prev middle rest sh' more =
        Reaches-then fopen s (access_rest a ind) (level at_logic_or)
          (access_rest a (add_node ind (ast_node_new sh))) _ _ sh _
          (λ p. at_items s (sign tok_comma) middle) (sign tok_comma ∷ middle) rest
          (reads prev (sign tok_comma ∷ middle) refl) (λ p. more) (λ call q h. rw (h) refl)

  -- A name and the opening bracket.
  pub call-start :
      (a : Attribute N) (prev : LexItem N) (items rest : List (LexItem N)) (sh : AstShape N)
      → Reaches fopen s (call_rest a no_nodes) (at_items s (sign tok_lpar) items) sh rest
      → Reaches fopen s factor_goal (at_items s prev ((tok_id, a) ∷ sign tok_lpar ∷ items)) sh rest
  call-start a prev items rest sh more =
      Reaches-jump fopen s factor_goal (call_rest a no_nodes) _ _ sh rest (λ call. refl) more

  pub access-start :
      (a : Attribute N) (prev : LexItem N) (items rest : List (LexItem N)) (sh : AstShape N)
      → Reaches fopen s (access_rest a no_nodes) (at_items s (sign tok_lbracket) items) sh rest
      → Reaches fopen s factor_goal
          (at_items s prev ((tok_id, a) ∷ sign tok_lbracket ∷ items))
          sh
          rest
  access-start a prev items rest sh more =
      Reaches-jump fopen s factor_goal (access_rest a no_nodes) _ _ sh rest (λ call. refl) more
