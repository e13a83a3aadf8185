-- ===== src/Syntax/Total/Programs.antt =====
-- src/syntax.c: the fuel of `program_start` and of the functions of a definition.
use crypti.Base.{
  ℕ, zero, suc, ◌+◌, ◌*◌, ◌≤◌, ◌<◌, ◌≡◌, ◌⊎◌, inl, inr, refl, ◌==◌, ==_iff, false, Option, none,
  some, List, ◌∷◌, length, arith, if◌then◌else◌, Bool-cases,
}
use crypti.Run.{Run, ok, die, fault, stuck, Returns, Returns-map}
use crypti.Hash.{Ret}
use crypti.Token.{Tok, ◌is◌, tok_def, tok_import}
use crypti.Lexer.{Attribute, LexItem}
use crypti.Syntax.Tree.{AstNode, null}
use crypti.Syntax.Stream.{Parser, Parse, pure, modify, tok_next_from, after, nerrors_of, ◌>>=◌}
use crypti.Syntax.Goals.{Goal, Calls, block_goal, statement_goal, global_expr_goal}
use crypti.Syntax.Functions.{
  given, get_name_arr, bracketed, process_function_body, process_function, max_args,
}
use crypti.Syntax.Grammar.{parse, parse_program}
use crypti.Syntax.Invariant.{Holds}
use crypti.Syntax.Invariant.Statements.{parse-Settled}
use crypti.Syntax.Promises.{Inner}
use crypti.Syntax.Total.{Runs, running, running_on, matches-Runs}
use crypti.Syntax.Weights.{weight, tok_next-weight}
use crypti.Syntax.Total.Enough.{weight-bound, parse-Returns}
use crypti.Syntax.Programs.{before_program}

given-Runs :
    (N : Type 0) {A B : Type 0} (φ : ℕ) (o : Option A) (err : Parse N B) (go : A → Parse N B)
    → Runs N φ err
    → ((a : A) → Runs N φ (go a))
    → Runs N φ (given o err go)
given-Runs N φ none err go h k = h
given-Runs N φ (some a) err go h k = k a

module _ (N : Type 0) where
  names-Runs : (φ more : ℕ) (endtok : Tok) → Runs N φ (get_name_arr more endtok)
  unfolding get_name_arr
  names-Runs φ zero endtok = search (running, matches-Runs) depth 20
  names-Runs φ (suc more) endtok =
      let others = names-Runs φ more endtok in
      search (running_on, matches-Runs, given-Runs, others) depth 24

  bracketed-Runs : (φ : ℕ) (start endtok : Tok) → Runs N φ (bracketed start endtok)
  bracketed-Runs φ start endtok =
      let names = names-Runs φ max_args endtok in search (running_on, names, given-Runs) depth 24

module _ {N : Type 0} (call : Calls N) (φ : ℕ) (block : Runs N φ (call block_goal)) where
  func-Runs : (f : Parser N → ℕ) → Runs N φ (modify λ s. record s { is_func = f s })
  unfolding Runs
  func-Runs f s le = le

  body-Runs : Runs N φ (process_function_body call)
  body-Runs =
      let up = func-Runs λ s. s.is_func + 1 in search (running_on, block, func-Runs) depth 24

  function-Runs : Runs N φ (process_function call)
  function-Runs =
      let names : (start endtok : Tok) → Runs N φ (bracketed start endtok) = bracketed-Runs N φ in
      search (running_on, names, given-Runs, body-Runs) depth 30

-- What is answered: a tree where no error is counted, or else `ret_err` and no tree.
abbrev pub Answered : {N : Type 0} → (Ret × AstNode N) × Parser N → Type 0
Answered r =
    ((r.0.0 ≡ Ret.ret_ok) × (r.1.nerrors ≡ 0)) ⊎ ((r.0 ≡ (Ret.ret_err, null)) × (0 < r.1.nerrors))

module _ {N : Type 0} (fopen : Attribute N → Option (List (LexItem N))) where
  block-Runs :
      (s : Parser N) (n : ℕ)
      → 64 * length s.input + 183 ≤ n
      → Runs N (weight s) (parse fopen n block_goal)
  unfolding Runs
  block-Runs s n h s' le =
      let most = weight-bound s in
      Returns-map (λ r. weight r.1 ≤ weight s') (λ r. weight r.1 ≤ weight s)
        (parse fopen n block_goal s') (parse-Returns fopen block_goal s' n tt (omega arith))
        λ r le'. omega arith

  global-Returns :
      (s : Parser N) (n : ℕ)
      → (s.lex_item.0 is tok_import) ≡ false
      → 64 * length s.input + 183 ≤ n
      → Returns (parse fopen (suc n) global_expr_goal s) (λ r. weight r.1 ≤ weight s)
  unfolding Runs parse
  global-Returns s n e h = elim (Bool-cases (s.lex_item.0 is tok_def)) [
    | inl d ↦
        let (le, _) = tok_next-weight s in
        rw (d) (
          function-Runs (parse fopen n) (weight s) (block-Runs s n h)
            (tok_next_from s s.lex_item_future) le)
    | inr d ↦ rw (d, e) (parse-Returns fopen statement_goal s (suc n) tt (omega arith))
  ]

  answer-Returns :
      (r : Run (AstNode N × Parser N)) (P : AstNode N × Parser N → Type 0)
      → Returns r P
      → Returns
          (after r λ tree.
            nerrors_of >>= λ n. pure (if n == 0 then (Ret.ret_ok, tree) else (Ret.ret_err, null)))
          Answered
  answer-Returns (ok (tree, s)) P h = elim (Bool-cases (s.nerrors == 0)) [
    | inl e ↦ rw (e) (inl (refl, (==_iff s.nerrors 0).0 e))
    | inr e ↦ rw (e) (inr (refl, ground arith))
  ]
  answer-Returns die P h = absurd h
  answer-Returns fault P h = absurd h
  answer-Returns stuck P h = absurd h

  -- On any input whose first token is not `import`, from any state and with fuel of 184 and 64 for
  -- each token behind the first, program_start returns, either ret_ok with no error counted, or
  -- ret_err with no tree and at least one error counted.
  pub parse_program-Returns :
      (s : Parser N) (item : LexItem N) (items : List (LexItem N)) (n : ℕ)
      → (item.0 is tok_import) ≡ false
      → 64 * length items + 184 ≤ suc n
      → Returns (parse_program fopen (suc n) (before_program s (item ∷ items))) Answered
  parse_program-Returns s item items n e h =
      let s' = record s {
        lex_item = item;
        lex_item_prev = s.lex_item;
        lex_item_future = none;
        input = items;
        nerrors = 0;
        is_cycle = 0;
        is_cond = 0;
        is_func = 0;
      } in
      answer-Returns (parse fopen (suc n) global_expr_goal s') (λ r. weight r.1 ≤ weight s')
        (global-Returns s' n e (omega arith))

  both-Returns : {A : Type 0} (m : Run A) (P Q : A → Type 0) → Returns m P → Holds m Q → Returns m Q
  both-Returns (ok a) P Q h k = k
  both-Returns die P Q h k = h
  both-Returns fault P Q h k = h
  both-Returns stuck P Q h k = h

  -- On any tokens and from any state, with fuel of 119 and 64 for each token that is left every
  -- function of the parser inside of a program returns, assign and get_seq where they are given no
  -- null pointer: no null pointer is read for an lvalue, nothing but a sequence is cast to one,
  -- and neither the assertion nor the default case of op_with_assign is reached; the numbers of
  -- the loops and of the functions around it are as they were before, and no counted error is
  -- forgotten.
  pub parse_restores :
      (goal : Goal N) (s : Parser N) (n : ℕ)
      → Inner goal
      → 64 * length s.input + 119 ≤ n
      → Returns
          (parse fopen n goal s)
          (λ r. (r.1.is_cycle ≡ s.is_cycle) × (r.1.is_func ≡ s.is_func) × (s.nerrors ≤ r.1.nerrors))
  parse_restores goal s n inner h =
      both-Returns (parse fopen n goal s) (λ r. weight r.1 ≤ weight s) _
        (parse-Returns fopen goal s n inner h) (parse-Settled fopen n goal s inner)
