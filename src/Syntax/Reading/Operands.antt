-- ===== src/Syntax/Reading/Operands.antt =====
-- src/syntax.c: operands, concatenations, powers, signs and the conditional expression.
use crypti.Base.{
  ◌≡◌, refl, ap, ◌∙◌, sym, Bool, true, false, ◌||◌, Option, List, [], ◌∷◌, ◌++◌, append_assoc,
  if◌then◌else◌, and-true, or-false, not-false,
}
use crypti.Run.{ok}
use crypti.Token.{
  Tok, ◌is◌, tok_lbracket, tok_id, tok_var, tok_lpar, tok_rpar, tok_hash, tok_pow, tok_plus,
  tok_minus, tok_not,
}
use crypti.Lexer.{Attribute, LexItem}
use crypti.Syntax.Tree.{
  AstShape, ast_node_new, ast_node_op, ast_node_unary, ast_node_var, ast_node_id, op_octstr_concat,
  op_pow, op_minus, op_plus, op_not, op_notnot,
}
use crypti.Syntax.Stream.{Parser, first_item}
use crypti.Syntax.Goals.{
  Calls, trenary_op_goal, term_goal, power_goal, concatenation_goal, concatenation_rest,
  factor_goal, unary_plus_goal, unary_not_goal,
}
use crypti.Syntax.Printing.{
  at_factor, at_concatenation, at_power, at_term, at_trenary_op, ends, sign, parens,
}
use crypti.Syntax.Grammar.{step}
use crypti.Syntax.Reading.{
  at_items, Reaches, Reaches-then, Reaches-two, Reaches-stop, Reaches-done, Reaches-jump, Reads,
  Joins, Opens, by_par, by_id, by_var, Start,
}

-- The tests that fail on what ends a factor, a concatenation and a power.
pub factor-ends :
    (t : Tok)
    → ends at_factor t ≡ true
    → ((t is tok_lpar) ≡ false)
      × ((t is tok_id) ≡ false)
      × ((t is tok_var) ≡ false)
      × ((t is tok_lbracket) ≡ false)
factor-ends t e =
    let (three, bracket) =
      or-false (t is tok_lpar || t is tok_id || t is tok_var) (t is tok_lbracket) e in
    let (two, var) = or-false (t is tok_lpar || t is tok_id) (t is tok_var) three in
    let (par, id) = or-false (t is tok_lpar) (t is tok_id) two in (not-false par, id, var, bracket)

pub concatenation-ends :
    (t : Tok)
    → ends at_concatenation t ≡ true
    → ((t is tok_hash) ≡ false) × (ends at_factor t ≡ true)
concatenation-ends t e = let (hash, more) = and-true e in (not-false hash, more)

pub power-ends :
    (t : Tok) → ends at_power t ≡ true → ((t is tok_pow) ≡ false) × (ends at_concatenation t ≡ true)
power-ends t e = let (pow, more) = and-true e in (not-false pow, more)

module _ {N : Type 0} (fopen : Attribute N → Option (List (LexItem N))) (s : Parser N) where
  pub literal-Reads :
      (a : Attribute N) → Reads fopen s at_factor ((tok_var, a) ∷ []) (ast_node_var a)
  literal-Reads a prev rest e =
      Reaches-stop fopen s factor_goal _ (ast_node_var a) (tok_var, a) rest λ call. refl

  pub named-Reads : (a : Attribute N) → Reads fopen s at_factor ((tok_id, a) ∷ []) (ast_node_id a)
  named-Reads a prev rest e =
      let (par, id, var, bracket) = factor-ends (first_item rest).0 e in
      Reaches-stop fopen s factor_goal _ (ast_node_id a) (tok_id, a) rest
        λ call. rw (bracket, par) refl

  pub parens-Reads :
      (ts : List (LexItem N)) (sh : AstShape N)
      → Reads fopen s at_trenary_op ts sh
      → Reads fopen s at_factor (parens ts) sh
  parens-Reads ts sh reads prev rest e = rw (append_assoc ts (sign tok_rpar ∷ []) rest) (
      Reaches-done fopen s factor_goal trenary_op_goal _ _ sh sh (λ p. sign tok_rpar)
        (sign tok_rpar ∷ rest) rest (reads (sign tok_lpar) (sign tok_rpar ∷ rest) refl)
        (λ call p h. rw (h) refl))

  pub factor-Joins :
      (ts : List (LexItem N)) (sh : AstShape N)
      → Reads fopen s at_factor ts sh
      → Joins fopen s ts sh
  factor-Joins ts sh reads prev rest rest' sh' e more =
      Reaches-then fopen s concatenation_goal factor_goal (concatenation_rest (ast_node_new sh)) _ _
        sh sh' (λ p. at_items s p rest) rest rest' (reads prev rest e) more
        (λ call p h. rw (h) refl)

  pub hash-Joins :
      (ls rs : List (LexItem N)) (l r : AstShape N)
      → Joins fopen s ls l
      → Reads fopen s at_factor rs r
      → Joins fopen s
          (ls ++ (sign tok_hash ∷ rs))
          (ast_node_op (ast_node_new l) (ast_node_new r) op_octstr_concat)
  hash-Joins ls rs l r joins reads prev rest rest' sh' e more =
      rw (append_assoc ls (sign tok_hash ∷ rs) rest) (
        joins prev (sign tok_hash ∷ (rs ++ rest)) rest' sh' refl λ p.
          Reaches-then fopen s (concatenation_rest (ast_node_new l)) factor_goal _ _ _ r sh'
            (λ q. at_items s q rest) rest rest' (reads (sign tok_hash) rest e) more
            (λ call q h. rw (h) refl))

  pub Joins-Reads :
      (ts : List (LexItem N)) (sh : AstShape N)
      → Joins fopen s ts sh
      → Reads fopen s at_concatenation ts sh
  Joins-Reads ts sh joins prev rest e =
      let (hash, more) = concatenation-ends (first_item rest).0 e in
      let (par, id, var, bracket) = factor-ends (first_item rest).0 more in
      joins prev rest rest sh more λ p.
        Reaches-stop fopen s (concatenation_rest (ast_node_new sh)) _ sh p rest
          λ call. rw (par, id, var, hash) refl

  pub concatenation-Reads :
      (ts : List (LexItem N)) (sh : AstShape N)
      → Reads fopen s at_concatenation ts sh
      → Reads fopen s at_power ts sh
  concatenation-Reads ts sh reads prev rest e =
      let (pow, more) = power-ends (first_item rest).0 e in
      Reaches-done fopen s power_goal concatenation_goal _ _ sh sh (λ p. p) rest rest
        (reads prev rest more) (λ call p h. rw (h, pow) refl)

  pub power-Reads :
      (ls rs : List (LexItem N)) (l r : AstShape N)
      → Reads fopen s at_concatenation ls l
      → Reads fopen s at_power rs r
      → Reads fopen s at_power
          (ls ++ (sign tok_pow ∷ rs))
          (ast_node_op (ast_node_new l) (ast_node_new r) op_pow)
  power-Reads ls rs l r left right prev rest e = rw (append_assoc ls (sign tok_pow ∷ rs) rest) (
      Reaches-two fopen s power_goal concatenation_goal power_goal _ _ _ l r _
        (sign tok_pow ∷ (rs ++ rest)) rest rest (λ p. p)
        (left prev (sign tok_pow ∷ (rs ++ rest)) refl) (λ p. right (sign tok_pow) rest e)
        (λ call p q h h'. rw (h, h') refl))

  -- `term` goes on with a power where an operand begins.
  term-operand :
      (call : Calls N) (item : LexItem N) (prev : LexItem N) (items : List (LexItem N))
      → Start false item.0
      → step fopen call term_goal (at_items s prev (item ∷ items))
        ≡ call power_goal (at_items s prev (item ∷ items))
  term-operand call (_, a) prev items by_par = refl
  term-operand call (_, a) prev items by_id = refl
  term-operand call (_, a) prev items by_var = refl

  pub power-Term :
      (ts : List (LexItem N)) (sh : AstShape N)
      → Opens false ts
      → Reads fopen s at_power ts sh
      → Reads fopen s at_term ts sh
  power-Term ts sh (item, items, opens, starts) reads prev rest e =
      Reaches-jump fopen s term_goal power_goal _ _ sh rest
        (λ call. rw (opens) (term-operand call item prev (items ++ rest) starts))
        (reads prev rest e)

  -- The last turn of the loops of `unary_plus` and `unary_not`.
  unary_plus-operand :
      (call : Calls N) (flag : Bool) (item : LexItem N) (prev q : LexItem N)
      (items rest : List (LexItem N)) (sh : AstShape N)
      → Start false item.0
      → call power_goal (at_items s prev (item ∷ items)) ≡ ok (ast_node_new sh, at_items s q rest)
      → step fopen call (unary_plus_goal flag) (at_items s prev (item ∷ items))
        ≡ ok (
          ast_node_new (ast_node_unary (ast_node_new sh) (if flag then op_minus else op_plus)),
          at_items s q rest,
        )
  unary_plus-operand call flag (_, a) prev q items rest sh by_par h = rw (h) refl
  unary_plus-operand call flag (_, a) prev q items rest sh by_id h = rw (h) refl
  unary_plus-operand call flag (_, a) prev q items rest sh by_var h = rw (h) refl

  unary_not-operand :
      (call : Calls N) (flag : Bool) (item : LexItem N) (prev q : LexItem N)
      (items rest : List (LexItem N)) (sh : AstShape N)
      → Start false item.0
      → call power_goal (at_items s prev (item ∷ items)) ≡ ok (ast_node_new sh, at_items s q rest)
      → step fopen call (unary_not_goal flag) (at_items s prev (item ∷ items))
        ≡ ok (
          ast_node_new (ast_node_unary (ast_node_new sh) (if flag then op_not else op_notnot)),
          at_items s q rest,
        )
  unary_not-operand call flag (_, a) prev q items rest sh by_par h = rw (h) refl
  unary_not-operand call flag (_, a) prev q items rest sh by_id h = rw (h) refl
  unary_not-operand call flag (_, a) prev q items rest sh by_var h = rw (h) refl

  module _ (ts : List (LexItem N)) (sh : AstShape N) (opens : Opens false ts)
      (reads : Reads fopen s at_power ts sh) where
    unary_plus-Reaches :
        (flag : Bool) (prev : LexItem N) (rest : List (LexItem N))
        → ends at_power (first_item rest).0 ≡ true
        → Reaches fopen s
            (unary_plus_goal flag)
            (at_items s prev (ts ++ rest))
            (ast_node_unary (ast_node_new sh) (if flag then op_minus else op_plus))
            rest
    unary_plus-Reaches flag prev rest e =
        let (item, items, eq, starts) = opens in
        Reaches-done fopen s (unary_plus_goal flag) power_goal _ _ sh _ (λ p. p) rest rest
          (reads prev rest e)
          (λ call q h. rw (eq) (
            unary_plus-operand call flag item prev q (items ++ rest) rest sh starts
              (ap (λ x. call power_goal (at_items s prev (x ++ rest))) (sym eq) ∙ h)))

    unary_not-Reaches :
        (flag : Bool) (prev : LexItem N) (rest : List (LexItem N))
        → ends at_power (first_item rest).0 ≡ true
        → Reaches fopen s
            (unary_not_goal flag)
            (at_items s prev (ts ++ rest))
            (ast_node_unary (ast_node_new sh) (if flag then op_not else op_notnot))
            rest
    unary_not-Reaches flag prev rest e =
        let (item, items, eq, starts) = opens in
        Reaches-done fopen s (unary_not_goal flag) power_goal _ _ sh _ (λ p. p) rest rest
          (reads prev rest e)
          (λ call q h. rw (eq) (
            unary_not-operand call flag item prev q (items ++ rest) rest sh starts
              (ap (λ x. call power_goal (at_items s prev (x ++ rest))) (sym eq) ∙ h)))

    pub minus-Reads :
        Reads fopen s at_term (sign tok_minus ∷ ts) (ast_node_unary (ast_node_new sh) op_minus)
    minus-Reads prev rest e =
        Reaches-jump fopen s term_goal (unary_plus_goal false) _ _ _ rest (λ call. refl)
          (Reaches-jump fopen s (unary_plus_goal false) (unary_plus_goal true) _
            (at_items s (sign tok_minus) (ts ++ rest)) _ rest (λ call. refl)
            (unary_plus-Reaches true (sign tok_minus) rest e))

    pub plus-Reads :
        Reads fopen s at_term (sign tok_plus ∷ ts) (ast_node_unary (ast_node_new sh) op_plus)
    plus-Reads prev rest e =
        Reaches-jump fopen s term_goal (unary_plus_goal false) _ _ _ rest (λ call. refl)
          (Reaches-jump fopen s (unary_plus_goal false) (unary_plus_goal false) _
            (at_items s (sign tok_plus) (ts ++ rest)) _ rest (λ call. refl)
            (unary_plus-Reaches false (sign tok_plus) rest e))

    pub not-Reads :
        Reads fopen s at_term (sign tok_not ∷ ts) (ast_node_unary (ast_node_new sh) op_not)
    not-Reads prev rest e =
        Reaches-jump fopen s term_goal (unary_not_goal false) _ _ _ rest (λ call. refl)
          (Reaches-jump fopen s (unary_not_goal false) (unary_not_goal true) _
            (at_items s (sign tok_not) (ts ++ rest)) _ rest (λ call. refl)
            (unary_not-Reaches true (sign tok_not) rest e))
