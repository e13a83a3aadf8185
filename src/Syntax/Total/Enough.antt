-- ===== src/Syntax/Total/Enough.antt =====
-- src/syntax.c: for any tokens, fuel in proportion to their number is enough.
use crypti.Base.{
  ℕ, zero, suc, ◌+◌, ◌*◌, ◌≤◌, ◌<◌, ◌≡◌, refl, Bool, true, false, ◌||◌, Option, none, some, List,
  ltb, ltb→lt, length, arith,
}
use crypti.Run.{Returns}
use crypti.Token.{◌is◌, tok_lpar, tok_id, tok_var, tok_rpar, tok_eof}
use crypti.Lexer.{Attribute, LexItem}
use crypti.Syntax.Tree.{AstNode, AstNodes}
use crypti.Syntax.Stream.{Parser}
use crypti.Syntax.Goals.{
  Goal, Calls, Level, level, level_rest, global_expr_goal, import_rest, statement_goal, block_goal,
  expr_goal, trenary_op_goal, term_goal, power_goal, concatenation_goal, factor_goal,
  unary_not_goal, unary_plus_goal, concatenation_rest, call_rest, access_rest, array_rest, seq_rest,
  assign_goal, at_logic_or, at_logic_and, at_bool_or, at_bool_xor, at_bool_and, at_equity,
  at_rel_op, at_shift_expr, at_add_expr, at_mul_expr,
}
use crypti.Syntax.Grammar.{step, parse}
use crypti.Syntax.Promises.{Inner, identifier-Gives, parse-Gives}
use crypti.Syntax.Total.{Runs}
use crypti.Syntax.Weights.{weight, stored, here-bound, tok_next-weight}
use crypti.Syntax.Total.Ranks.{Yes, rank, Same, Smaller}
use crypti.Syntax.Total.Loops.{
  factor-Runs, factor-Less, concatenation_rest-Runs, call_rest-Runs, rest-Runs,
}
use crypti.Syntax.Total.Expressions.{
  trenary_op-Runs, term-Runs, unary_not-Runs, unary_plus-Runs, power-Runs, concatenation-Runs,
  access_rest-Runs, array_rest-Runs, seq_rest-Runs, assign-Runs, expr-Runs, logic_or-Runs,
  logic_and-Runs, bool_or-Runs, bool_xor-Runs, bool_and-Runs, equity-Runs, rel_op-Runs,
  shift_expr-Runs, add_expr-Runs, mul_expr-Runs,
}
use crypti.Syntax.Total.Statements.{statement-Runs, block-Runs}

Yes-true : (b : Bool) → Yes b → b ≡ true
Yes-true true h = refl
Yes-true false h = absurd h

stored-bound : {N : Type 0} (o : Option (LexItem N)) → stored o ≤ 1
stored-bound none = omega arith
stored-bound (some item) = here-bound item

pub weight-bound : {N : Type 0} (s : Parser N) → weight s ≤ 2 * length s.input + 3
weight-bound s =
    let here = here-bound s.lex_item in let later = stored-bound s.lex_item_future in omega arith

level_rank-bound :
    (N : Type 0) (lv : Level) → (1 ≤ rank {N = N} (level lv)) × (rank {N = N} (level lv) ≤ 22)
level_rank-bound N at_logic_or = (omega arith, omega arith)
level_rank-bound N at_logic_and = (omega arith, omega arith)
level_rank-bound N at_bool_or = (omega arith, omega arith)
level_rank-bound N at_bool_xor = (omega arith, omega arith)
level_rank-bound N at_bool_and = (omega arith, omega arith)
level_rank-bound N at_equity = (omega arith, omega arith)
level_rank-bound N at_rel_op = (omega arith, omega arith)
level_rank-bound N at_shift_expr = (omega arith, omega arith)
level_rank-bound N at_add_expr = (omega arith, omega arith)
level_rank-bound N at_mul_expr = (omega arith, omega arith)

rank-bound : {N : Type 0} (g : Goal N) → (1 ≤ rank g) × (rank g ≤ 22)
rank-bound {N} (level lv) = level_rank-bound N lv
rank-bound global_expr_goal = (omega arith, omega arith)
rank-bound statement_goal = (omega arith, omega arith)
rank-bound block_goal = (omega arith, omega arith)
rank-bound expr_goal = (omega arith, omega arith)
rank-bound trenary_op_goal = (omega arith, omega arith)
rank-bound (level_rest _ _) = (omega arith, omega arith)
rank-bound term_goal = (omega arith, omega arith)
rank-bound power_goal = (omega arith, omega arith)
rank-bound concatenation_goal = (omega arith, omega arith)
rank-bound factor_goal = (omega arith, omega arith)
rank-bound (unary_not_goal _) = (omega arith, omega arith)
rank-bound (unary_plus_goal _) = (omega arith, omega arith)
rank-bound (concatenation_rest _) = (omega arith, omega arith)
rank-bound (call_rest _ _) = (omega arith, omega arith)
rank-bound (access_rest _ _) = (omega arith, omega arith)
rank-bound (array_rest _) = (omega arith, omega arith)
rank-bound (seq_rest _) = (omega arith, omega arith)
rank-bound (assign_goal _ _) = (omega arith, omega arith)
rank-bound (import_rest _ _) = (omega arith, omega arith)

module _ {N : Type 0} (fopen : Attribute N → Option (List (LexItem N))) where
  abbrev Enough : ℕ → Type 0
  Enough n = (g : Goal N) → Inner g → (φ : ℕ) → 32 * φ + rank g < n → Runs N φ (parse fopen n g)

  module _ (n : ℕ) (enough : Enough n) (φ : ℕ) where
    lower : (r : ℕ) → 32 * φ + r ≤ n → Same (parse fopen n) φ r
    lower r h g inner below =
        let less = ltb→lt (rank g) r (Yes-true (ltb (rank g) r) below) in
        enough g inner φ (omega arith)

    lighter : 32 * φ ≤ n → Smaller (parse fopen n) φ
    lighter h φ' less g inner = let (_, bound) = rank-bound g in enough g inner φ' (omega arith)

  -- The calls that return for what the next token is.
  starts :
      (n : ℕ)
      → Enough n
      → (φ : ℕ) → 32 * φ + 1 < suc n
      → (s : Parser N) → weight s ≤ φ
      → (s.lex_item.0 is tok_lpar || s.lex_item.0 is tok_id || s.lex_item.0 is tok_var) ≡ true
      → Returns (parse fopen (suc n) factor_goal s) (λ r. weight r.1 < φ)
  unfolding parse
  starts n enough φ h s le e =
      factor-Less (parse fopen n) φ s (lighter n enough φ (omega arith)) le e

  closes :
      (n : ℕ) (φ : ℕ) (a : Attribute N) (s : Parser N) (more : AstNodes N)
      → weight s ≤ φ
      → (s.lex_item.0 is tok_rpar) ≡ true
      → Returns (parse fopen (suc n) (call_rest a more) s) (λ r. weight r.1 ≤ φ)
  unfolding parse
  closes n φ a s more le e = let (next, _) = tok_next-weight s in rw (e) (omega arith)

  at_end :
      (n : ℕ) (φ : ℕ) (s : Parser N)
      → weight s ≤ φ
      → (s.lex_item.0 is tok_eof) ≡ true
      → Returns (parse fopen (suc n) block_goal s) (λ r. weight r.1 ≤ φ)
  unfolding parse
  at_end n φ s le e = rw (e) le

  level-Runs :
      (call : Calls N) (φ : ℕ) (lv : Level)
      → Same call φ (rank {N = N} (level lv))
      → Runs N φ (step fopen call (level lv))
  level-Runs call φ at_logic_or same = logic_or-Runs call φ same
  level-Runs call φ at_logic_and same = logic_and-Runs call φ same
  level-Runs call φ at_bool_or same = bool_or-Runs call φ same
  level-Runs call φ at_bool_xor same = bool_xor-Runs call φ same
  level-Runs call φ at_bool_and same = bool_and-Runs call φ same
  level-Runs call φ at_equity same = equity-Runs call φ same
  level-Runs call φ at_rel_op same = rel_op-Runs call φ same
  level-Runs call φ at_shift_expr same = shift_expr-Runs call φ same
  level-Runs call φ at_add_expr same = add_expr-Runs call φ same
  level-Runs call φ at_mul_expr same = mul_expr-Runs call φ same

  level_rest-Runs :
      (call : Calls N) (φ : ℕ) (lv : Level) (left : AstNode N)
      → Smaller call φ
      → Runs N φ (step fopen call (level_rest lv left))
  level_rest-Runs call φ at_logic_or left smaller = rest-Runs call φ at_logic_or left smaller
  level_rest-Runs call φ at_logic_and left smaller = rest-Runs call φ at_logic_and left smaller
  level_rest-Runs call φ at_bool_or left smaller = rest-Runs call φ at_bool_or left smaller
  level_rest-Runs call φ at_bool_xor left smaller = rest-Runs call φ at_bool_xor left smaller
  level_rest-Runs call φ at_bool_and left smaller = rest-Runs call φ at_bool_and left smaller
  level_rest-Runs call φ at_equity left smaller = rest-Runs call φ at_equity left smaller
  level_rest-Runs call φ at_rel_op left smaller = rest-Runs call φ at_rel_op left smaller
  level_rest-Runs call φ at_shift_expr left smaller = rest-Runs call φ at_shift_expr left smaller
  level_rest-Runs call φ at_add_expr left smaller = rest-Runs call φ at_add_expr left smaller
  level_rest-Runs call φ at_mul_expr left smaller = rest-Runs call φ at_mul_expr left smaller

  -- The calls of a goal have enough fuel where the goal has one more.
  step-Runs :
      (n : ℕ)
      → Enough (suc n)
      → Enough n
      → (g : Goal N) → Inner g
      → (φ : ℕ) → 32 * φ + rank g < suc (suc n)
      → Runs N φ (step fopen (parse fopen (suc n)) g)
  step-Runs n enough before global_expr_goal i φ h = absurd i
  step-Runs n enough before (import_rest _ _) i φ h = absurd i
  step-Runs n enough before statement_goal i φ h =
      statement-Runs _ φ (lighter (suc n) enough φ (omega arith))
        (identifier-Gives (parse fopen (suc n)) (parse-Gives fopen (suc n)))
        (lower (suc n) enough φ 19 (omega arith))
  step-Runs n enough before block_goal i φ h =
      block-Runs _ φ (lighter (suc n) enough φ (omega arith))
        (lower (suc n) enough φ 21 (omega arith)) (at_end n φ)
  step-Runs n enough before expr_goal i φ h =
      expr-Runs _ φ (lower (suc n) enough φ 19 (omega arith))
  step-Runs n enough before trenary_op_goal i φ h =
      trenary_op-Runs _ φ (lower (suc n) enough φ 17 (omega arith))
        (lighter (suc n) enough φ (omega arith))
  step-Runs n enough before (level lv) i φ h =
      level-Runs _ φ lv (lower (suc n) enough φ (rank {N = N} (level lv)) (omega arith))
  step-Runs n enough before (level_rest lv left) i φ h =
      level_rest-Runs _ φ lv left (lighter (suc n) enough φ (omega arith))
  step-Runs n enough before term_goal i φ h = term-Runs _ φ (lower (suc n) enough φ 6 (omega arith))
  step-Runs n enough before power_goal i φ h =
      power-Runs _ φ (lower (suc n) enough φ 4 (omega arith))
        (lighter (suc n) enough φ (omega arith))
  step-Runs n enough before concatenation_goal i φ h =
      concatenation-Runs _ φ (lower (suc n) enough φ 3 (omega arith))
  step-Runs n enough before factor_goal i φ h =
      factor-Runs _ φ (lighter (suc n) enough φ (omega arith))
  step-Runs n enough before (unary_not_goal flag) i φ h =
      unary_not-Runs _ φ flag (lower (suc n) enough φ 5 (omega arith))
        (lighter (suc n) enough φ (omega arith))
  step-Runs n enough before (unary_plus_goal flag) i φ h =
      unary_plus-Runs _ φ flag (lower (suc n) enough φ 5 (omega arith))
        (lighter (suc n) enough φ (omega arith))
  step-Runs n enough before (concatenation_rest left) i φ h =
      concatenation_rest-Runs _ φ left (lighter (suc n) enough φ (omega arith))
        (starts n before φ (omega arith))
  step-Runs n enough before (call_rest a args) i φ h =
      call_rest-Runs _ φ a args (lower (suc n) enough φ 17 (omega arith))
        (lighter (suc n) enough φ (omega arith)) (λ s more. closes n φ a s more)
  step-Runs n enough before (access_rest a ind) i φ h =
      access_rest-Runs _ φ a ind (lower (suc n) enough φ 17 (omega arith))
        (lighter (suc n) enough φ (omega arith))
  step-Runs n enough before (array_rest arr) i φ h =
      array_rest-Runs _ φ arr (lower (suc n) enough φ 17 (omega arith))
        (lighter (suc n) enough φ (omega arith))
  step-Runs n enough before (seq_rest nodes) i φ h =
      seq_rest-Runs _ φ nodes i (lighter (suc n) enough φ (omega arith))
  step-Runs n enough before (assign_goal first nesting) i φ h =
      assign-Runs _ φ (parse-Gives fopen (suc n)) first nesting i
        (lower (suc n) enough φ 18 (omega arith)) (lighter (suc n) enough φ (omega arith))

  Enough-suc : (n : ℕ) → Enough n × Enough (suc n)
  unfolding parse Runs
  Enough-suc zero = (
    λ g i φ h s le. absurd (omega arith),
    λ g i φ h s le. let (least, _) = rank-bound g in absurd (omega arith),
  )
  Enough-suc (suc n) =
      let (before, enough) = Enough-suc n in
      (enough, λ g i φ h s le. step-Runs n enough before g i φ h s le)

  -- On any tokens and from any state, with fuel of 119 and 64 for each token that is left every
  -- function of the parser inside of a program returns, assign and get_seq where they are given no
  -- null pointer, and leaves no more to read than there was.
  pub parse-Returns :
      (goal : Goal N) (s : Parser N) (n : ℕ)
      → Inner goal
      → 64 * length s.input + 119 ≤ n
      → Returns (parse fopen n goal s) (λ r. weight r.1 ≤ weight s)
  unfolding Runs
  parse-Returns goal s n inner h =
      let (_, bound) = rank-bound goal in
      let (enough, _) = Enough-suc n in
      let light = weight-bound s in enough goal inner (weight s) (omega arith) s (omega arith)
