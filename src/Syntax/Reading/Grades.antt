-- ===== src/Syntax/Reading/Grades.antt =====
-- Which grade a list of items is read at: it is read at each looser grade too, and at any grade in
-- parentheses.
use crypti.Base.{
  ℕ, zero, suc, ◌+◌, ◌-◌, ◌≤◌, ◌≡◌, refl, ap, sym, Bool, true, false, Option, List, ◌++◌, leb,
  leb→le, Bool-cases, inl, inr, arith,
}
use crypti.Token.{Tok, tok_lpar}
use crypti.Lexer.{Attribute, LexItem}
use crypti.Syntax.Tree.{AstShape}
use crypti.Syntax.Stream.{Parser}
use crypti.Syntax.Goals.{
  at_logic_or, at_logic_and, at_bool_or, at_bool_xor, at_bool_and, at_equity, at_rel_op,
  at_shift_expr, at_add_expr, at_mul_expr,
}
use crypti.Syntax.Printing.{
  Grade, at_factor, at_concatenation, at_power, at_term, at_level, at_trenary_op, at_grade, looser,
  rank, from_rank, sign, parens,
}
use crypti.Syntax.Reading.{
  Reads, Joins, Leads, Opens, Start, by_par, by_id, by_var, by_sign, by_minus, by_not,
}
use crypti.Syntax.Reading.Levels.{level-Leads, Leads-Reads}
use crypti.Syntax.Reading.Operands.{
  factor-Joins, Joins-Reads, concatenation-Reads, power-Term, parens-Reads,
}
use crypti.Syntax.Reading.Choices.{level-Reads}

-- Whether an expression of the grade may begin with a sign.
abbrev pub signs : Grade → Bool
signs at_factor = false
signs at_concatenation = false
signs at_power = false
signs at_term = true
signs (at_level lv) = true
signs at_trenary_op = true

Start-any : {b : Bool} {t : Tok} → Start b t → Start true t
Start-any by_par = by_par
Start-any by_id = by_id
Start-any by_var = by_var
Start-any by_sign = by_sign
Start-any by_minus = by_minus
Start-any by_not = by_not

pub Opens-any : {N : Type 0} {b : Bool} {ts : List (LexItem N)} → Opens b ts → Opens true ts
Opens-any (item, items, e, start) = (item, items, e, Start-any start)

pub Opens-add_node :
    {N : Type 0} {b : Bool} (ts us : List (LexItem N)) → Opens b ts → Opens b (ts ++ us)
Opens-add_node ts us (item, items, e, start) = (item, items ++ us, ap (λ x. x ++ us) e, start)

module _ {N : Type 0} (fopen : Attribute N → Option (List (LexItem N))) (s : Parser N) where
  -- What the loop of the grade does with the items, or what its function does.
  abbrev pub Fits : Grade → List (LexItem N) → AstShape N → Type 0
  Fits at_concatenation ts sh = Joins fopen s ts sh
  Fits (at_level lv) ts sh = Leads fopen s lv ts sh
  Fits at_factor ts sh = Reads fopen s at_factor ts sh
  Fits at_power ts sh = Reads fopen s at_power ts sh
  Fits at_term ts sh = Reads fopen s at_term ts sh
  Fits at_trenary_op ts sh = Reads fopen s at_trenary_op ts sh

  abbrev pub Graded : Grade → List (LexItem N) → AstShape N → Type 0
  Graded g ts sh = Opens (signs g) ts × Fits g ts sh

  pub Graded-Reads :
      (g : Grade) (ts : List (LexItem N)) (sh : AstShape N) → Graded g ts sh → Reads fopen s g ts sh
  Graded-Reads at_factor ts sh (o, r) = r
  Graded-Reads at_concatenation ts sh (o, r) = Joins-Reads fopen s ts sh r
  Graded-Reads at_power ts sh (o, r) = r
  Graded-Reads at_term ts sh (o, r) = r
  Graded-Reads (at_level lv) ts sh (o, r) = Leads-Reads fopen s lv ts sh r
  Graded-Reads at_trenary_op ts sh (o, r) = r

  Graded-looser :
      (g : Grade) (ts : List (LexItem N)) (sh : AstShape N)
      → Graded g ts sh
      → Graded (looser g) ts sh
  Graded-looser at_factor ts sh (o, r) = (o, factor-Joins fopen s ts sh r)
  Graded-looser at_concatenation ts sh (o, r) =
      (o, concatenation-Reads fopen s ts sh (Joins-Reads fopen s ts sh r))
  Graded-looser at_power ts sh (o, r) = (Opens-any o, power-Term fopen s ts sh o r)
  Graded-looser at_term ts sh (o, r) = (o, level-Leads fopen s at_mul_expr ts sh r)
  Graded-looser (at_level at_mul_expr) ts sh (o, r) =
      (o, level-Leads fopen s at_add_expr ts sh (Leads-Reads fopen s at_mul_expr ts sh r))
  Graded-looser (at_level at_add_expr) ts sh (o, r) =
      (o, level-Leads fopen s at_shift_expr ts sh (Leads-Reads fopen s at_add_expr ts sh r))
  Graded-looser (at_level at_shift_expr) ts sh (o, r) =
      (o, level-Leads fopen s at_rel_op ts sh (Leads-Reads fopen s at_shift_expr ts sh r))
  Graded-looser (at_level at_rel_op) ts sh (o, r) =
      (o, level-Leads fopen s at_equity ts sh (Leads-Reads fopen s at_rel_op ts sh r))
  Graded-looser (at_level at_equity) ts sh (o, r) =
      (o, level-Leads fopen s at_bool_and ts sh (Leads-Reads fopen s at_equity ts sh r))
  Graded-looser (at_level at_bool_and) ts sh (o, r) =
      (o, level-Leads fopen s at_bool_xor ts sh (Leads-Reads fopen s at_bool_and ts sh r))
  Graded-looser (at_level at_bool_xor) ts sh (o, r) =
      (o, level-Leads fopen s at_bool_or ts sh (Leads-Reads fopen s at_bool_xor ts sh r))
  Graded-looser (at_level at_bool_or) ts sh (o, r) =
      (o, level-Leads fopen s at_logic_and ts sh (Leads-Reads fopen s at_bool_or ts sh r))
  Graded-looser (at_level at_logic_and) ts sh (o, r) =
      (o, level-Leads fopen s at_logic_or ts sh (Leads-Reads fopen s at_logic_and ts sh r))
  Graded-looser (at_level at_logic_or) ts sh (o, r) =
      (o, level-Reads fopen s ts sh (Leads-Reads fopen s at_logic_or ts sh r))
  Graded-looser at_trenary_op ts sh g = g

  rank-from : (g : Grade) → from_rank (rank g) ≡ g
  rank-from at_factor = refl
  rank-from at_concatenation = refl
  rank-from at_power = refl
  rank-from at_term = refl
  rank-from (at_level at_mul_expr) = refl
  rank-from (at_level at_add_expr) = refl
  rank-from (at_level at_shift_expr) = refl
  rank-from (at_level at_rel_op) = refl
  rank-from (at_level at_equity) = refl
  rank-from (at_level at_bool_and) = refl
  rank-from (at_level at_bool_xor) = refl
  rank-from (at_level at_bool_or) = refl
  rank-from (at_level at_logic_and) = refl
  rank-from (at_level at_logic_or) = refl
  rank-from at_trenary_op = refl

  Graded-up :
      (d k m : ℕ) (ts : List (LexItem N)) (sh : AstShape N)
      → m ≡ d + k
      → Graded (from_rank k) ts sh
      → Graded (from_rank m) ts sh
  Graded-up zero k m ts sh e g = let same : m ≡ k = omega arith in rw (same) g
  Graded-up (suc d) k zero ts sh e g = absurd (omega arith)
  Graded-up (suc d) k (suc m) ts sh e g =
      Graded-looser (from_rank m) ts sh (Graded-up d k m ts sh (omega arith) g)

  rank-bound : (g : Grade) → rank g ≤ 14
  rank-bound at_factor = omega arith
  rank-bound at_concatenation = omega arith
  rank-bound at_power = omega arith
  rank-bound at_term = omega arith
  rank-bound (at_level at_mul_expr) = omega arith
  rank-bound (at_level at_add_expr) = omega arith
  rank-bound (at_level at_shift_expr) = omega arith
  rank-bound (at_level at_rel_op) = omega arith
  rank-bound (at_level at_equity) = omega arith
  rank-bound (at_level at_bool_and) = omega arith
  rank-bound (at_level at_bool_xor) = omega arith
  rank-bound (at_level at_bool_or) = omega arith
  rank-bound (at_level at_logic_and) = omega arith
  rank-bound (at_level at_logic_or) = omega arith
  rank-bound at_trenary_op = omega arith

  Graded-≤ :
      (g g' : Grade) (ts : List (LexItem N)) (sh : AstShape N)
      → rank g ≤ rank g'
      → Graded g ts sh
      → Graded g' ts sh
  Graded-≤ g g' ts sh le graded = rw (sym (rank-from g')) (
      Graded-up (rank g' - rank g) (rank g) (rank g') ts sh (omega arith) (rw (rank-from g) graded))

  -- What is read at its own grade is read at any place as `at_grade` writes it.
  pub at_grade-Graded :
      (g place : Grade) (ts : List (LexItem N)) (sh : AstShape N)
      → Graded g ts sh
      → Graded place (at_grade g place ts) sh
  at_grade-Graded g place ts sh graded = elim (Bool-cases (leb (rank g) (rank place))) [
    | inl fits ↦ rw (fits) (Graded-≤ g place ts sh (leb→le _ _ fits) graded)
    | inr loose ↦ rw (loose) (
        Graded-≤ at_factor place (parens ts) sh (omega arith) (
          (sign tok_lpar, _, refl, by_par),
          parens-Reads fopen s ts sh (
              Graded-Reads at_trenary_op ts sh
                (Graded-≤ g at_trenary_op ts sh (rank-bound g) graded)),
        ))
  ]

  -- Any expression is a conditional expression.
  pub Graded-trenary :
      (g : Grade) (ts : List (LexItem N)) (sh : AstShape N)
      → Graded g ts sh
      → Reads fopen s at_trenary_op ts sh
  Graded-trenary g ts sh graded =
      Graded-Reads at_trenary_op ts sh (Graded-≤ g at_trenary_op ts sh (rank-bound g) graded)
