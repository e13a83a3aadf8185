-- ===== src/Syntax/Reading.antt =====
-- What a function of src/syntax.c reads: with enough fuel it returns a tree, and the rest of the
-- input is left. The rules follow the calls of the functions.
pub mod Levels
pub mod Operands
pub mod Choices
pub mod Grades
pub mod Lists
use crypti.Base.{
  ℕ, zero, suc, ◌+◌, ◌≤◌, ◌≡◌, refl, ap, ◌∙◌, sym, Bool, true, false, not, ◌&&◌, Option, none, some,
  List, [], ◌∷◌, ◌++◌, arith,
}
use crypti.Run.{Run, ok}
use crypti.Token.{Tok, tok_lpar, tok_id, tok_var, tok_plus, tok_minus, tok_not}
use crypti.Lexer.{Attribute, LexItem}
use crypti.Syntax.Tree.{AstNode, AstShape, ast_node_new}
use crypti.Syntax.Stream.{Parser, first_item, later_items}
use crypti.Syntax.Goals.{
  Goal, Calls, Level, level, level_rest, trenary_op_goal, term_goal, power_goal, concatenation_goal,
  concatenation_rest, factor_goal,
}
use crypti.Syntax.Assignments.{is_some}
use crypti.Syntax.Printing.{
  Grade, at_factor, at_concatenation, at_power, at_term, at_level, at_trenary_op, ends, tighter,
}
use crypti.Syntax.Grammar.{parse, step}

-- The tokens that an operand starts with, and those of any expression.
pub data Start : Bool → Tok → Type 0 where
  by_par : {b : Bool} → Start b tok_lpar
  by_id : {b : Bool} → Start b tok_id
  by_var : {b : Bool} → Start b tok_var
  by_sign : Start true tok_plus
  by_minus : Start true tok_minus
  by_not : Start true tok_not

abbrev pub Opens : {N : Type 0} → Bool → List (LexItem N) → Type 0
Opens {N} b ts =
    (item : LexItem N) × (rest : List (LexItem N)) × (ts ≡ item ∷ rest) × Start b item.0

pub not-some : {A : Type 0} (o : Option A) → not (is_some o) ≡ true → o ≡ none
not-some none h = refl
not-some (some a) h = cc

abbrev pub goal_of : {N : Type 0} → Grade → Goal N
goal_of at_factor = factor_goal
goal_of at_concatenation = concatenation_goal
goal_of at_power = power_goal
goal_of at_term = term_goal
goal_of (at_level lv) = level lv
goal_of at_trenary_op = trenary_op_goal

module _ {N : Type 0} (s : Parser N) where
  -- The parser in front of a list of items, without an error.
  abbrev pub at_items : LexItem N → List (LexItem N) → Parser N
  at_items prev items = record s {
    lex_item = first_item items;
    lex_item_prev = prev;
    lex_item_future = none;
    input = later_items items;
    nerrors = 0;
  }

module _ {N : Type 0} (fopen : Attribute N → Option (List (LexItem N))) (s : Parser N) where
  -- With enough fuel the goal gives the node, and the rest is left.
  abbrev pub Reaches : Goal N → Parser N → AstShape N → List (LexItem N) → Type 0
  Reaches goal before sh rest =
      (bound : ℕ) × (prev : LexItem N) × ((n : ℕ)
        → bound ≤ n
        → parse fopen n goal before ≡ ok (ast_node_new sh, at_items s prev rest))

  pub parse-suc :
      (goal : Goal N) (before : Parser N) (r : Run (AstNode N × Parser N)) (bound : ℕ)
      → ((n : ℕ) → bound ≤ n → step fopen (parse fopen n) goal before ≡ r)
      → (n : ℕ) → suc bound ≤ n
      → parse fopen n goal before ≡ r
  unfolding parse
  parse-suc goal before r bound h zero small = absurd (omega arith)
  parse-suc goal before r bound h (suc n) enough = h n (omega arith)

  -- The function returns with no call, ...
  pub Reaches-stop :
      (goal : Goal N) (before : Parser N) (sh : AstShape N) (prev : LexItem N)
      (rest : List (LexItem N))
      → ((call : Calls N)
          → step fopen call goal before ≡ ok (ast_node_new sh, at_items s prev rest))
      → Reaches goal before sh rest
  Reaches-stop goal before sh prev rest h =
      (1, prev, parse-suc goal before _ 0 λ n _. h (parse fopen n))

  -- ... or it is what one call gives, ...
  pub Reaches-jump :
      (goal inner : Goal N) (before middle : Parser N) (sh : AstShape N) (rest : List (LexItem N))
      → ((call : Calls N) → step fopen call goal before ≡ call inner middle)
      → Reaches inner middle sh rest
      → Reaches goal before sh rest
  Reaches-jump goal inner before middle sh rest h (b, p, k) =
      (suc b, p, parse-suc goal before _ b λ n enough. h (parse fopen n) ∙ k n enough)

  -- ... or it goes on with another call behind the first one, ...
  pub Reaches-then :
      (goal inner next : Goal N) (before middle : Parser N) (sh' sh : AstShape N)
      (go : LexItem N → Parser N) (rest' rest : List (LexItem N))
      → Reaches inner middle sh' rest'
      → ((prev : LexItem N) → Reaches next (go prev) sh rest)
      → ((call : Calls N) (prev : LexItem N)
          → call inner middle ≡ ok (ast_node_new sh', at_items s prev rest')
          → step fopen call goal before ≡ call next (go prev))
      → Reaches goal before sh rest
  Reaches-then goal inner next before middle sh' sh go rest' rest (b, p, k) more h =
      let (b', p', k') = more p in
      (
        suc (b + b'),
        p',
        parse-suc goal before _ (b + b')
            λ n enough. h (parse fopen n) p (k n (omega arith)) ∙ k' n (omega arith),
      )

  -- ... or it returns behind the call.
  pub Reaches-done :
      (goal inner : Goal N) (before middle : Parser N) (sh' sh : AstShape N)
      (last : LexItem N → LexItem N) (rest' rest : List (LexItem N))
      → Reaches inner middle sh' rest'
      → ((call : Calls N) (prev : LexItem N)
          → call inner middle ≡ ok (ast_node_new sh', at_items s prev rest')
          → step fopen call goal before ≡ ok (ast_node_new sh, at_items s (last prev) rest))
      → Reaches goal before sh rest
  Reaches-done goal inner before middle sh' sh last rest' rest (b, p, k) h =
      (suc b, last p, parse-suc goal before _ b λ n enough. h (parse fopen n) p (k n enough))

  -- The same with two calls.
  pub Reaches-two :
      (goal inner next : Goal N) (before middle : Parser N) (go : LexItem N → Parser N)
      (sh' sh'' sh : AstShape N) (rest' rest'' rest : List (LexItem N))
      (last : LexItem N → LexItem N)
      → Reaches inner middle sh' rest'
      → ((p : LexItem N) → Reaches next (go p) sh'' rest'')
      → ((call : Calls N) (p q : LexItem N)
          → call inner middle ≡ ok (ast_node_new sh', at_items s p rest')
          → call next (go p) ≡ ok (ast_node_new sh'', at_items s q rest'')
          → step fopen call goal before ≡ ok (ast_node_new sh, at_items s (last q) rest))
      → Reaches goal before sh rest
  Reaches-two goal inner next before middle go sh' sh'' sh rest' rest'' rest last (b, p, k) more h =
      let (b', q, k') = more p in
      (
        suc (b + b'),
        last q,
        parse-suc goal before _ (b + b')
            λ n enough. h (parse fopen n) p q (k n (omega arith)) (k' n (omega arith)),
      )

  -- The same with three calls.
  pub Reaches-three :
      (goal first second third : Goal N) (before start : Parser N) (go go' : LexItem N → Parser N)
      (sh' sh'' sh''' sh : AstShape N) (rest' rest'' rest : List (LexItem N))
      → Reaches first start sh' rest'
      → ((p : LexItem N) → Reaches second (go p) sh'' rest'')
      → ((p : LexItem N) → Reaches third (go' p) sh''' rest)
      → ((call : Calls N) (p q r : LexItem N)
          → call first start ≡ ok (ast_node_new sh', at_items s p rest')
          → call second (go p) ≡ ok (ast_node_new sh'', at_items s q rest'')
          → call third (go' q) ≡ ok (ast_node_new sh''', at_items s r rest)
          → step fopen call goal before ≡ ok (ast_node_new sh, at_items s r rest))
      → Reaches goal before sh rest
  Reaches-three goal first second third before start go go' sh' sh'' sh''' sh rest' rest'' rest
        (b, p, k) more last h =
      let (b', q, k') = more p in
      let (b'', r, k'') = last q in
      (
        suc (b + b' + b''),
        r,
        parse-suc goal before _ (b + b' + b'') λ n enough.
            h (parse fopen n) p q r (k n (omega arith)) (k' n (omega arith)) (k'' n (omega arith)),
      )

  -- The function of a grade reads the items up to what ends an expression of that grade.
  abbrev pub Reads : Grade → List (LexItem N) → AstShape N → Type 0
  Reads g ts sh =
      (prev : LexItem N) (rest : List (LexItem N))
      → ends g (first_item rest).0 ≡ true
      → Reaches (goal_of g) (at_items s prev (ts ++ rest)) sh rest

  -- The function of a level reads the items as a left operand: its loop goes on behind them.
  abbrev pub Leads : Level → List (LexItem N) → AstShape N → Type 0
  Leads lv ts sh =
      (prev : LexItem N) (rest rest' : List (LexItem N)) (sh' : AstShape N)
      → ends (tighter lv) (first_item rest).0 ≡ true
      → ((p : LexItem N) → Reaches (level_rest lv (ast_node_new sh)) (at_items s p rest) sh' rest')
      → Reaches (level lv) (at_items s prev (ts ++ rest)) sh' rest'

  -- The same for the loop of the concatenations.
  abbrev pub Joins : List (LexItem N) → AstShape N → Type 0
  Joins ts sh =
      (prev : LexItem N) (rest rest' : List (LexItem N)) (sh' : AstShape N)
      → ends at_factor (first_item rest).0 ≡ true
      → ((p : LexItem N)
          → Reaches (concatenation_rest (ast_node_new sh)) (at_items s p rest) sh' rest')
      → Reaches concatenation_goal (at_items s prev (ts ++ rest)) sh' rest'
