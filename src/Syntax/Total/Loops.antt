-- ===== src/Syntax/Total/Loops.antt =====
-- src/syntax.c: the loops whose next turn depends on the token, and the operands.
use crypti.Base.{
  ℕ, ◌≤◌, ◌<◌, ◌≡◌, refl, Bool, true, false, ◌||◌, Option, none, some, arith, inl, inr, Bool-cases,
  if◌then◌else◌,
}
use crypti.Token.{◌is◌, Tok, tok_id, tok_var, tok_lpar, tok_rpar, tok_comma, tok_hash}
use crypti.Lexer.{Attribute}
use crypti.Syntax.Tree.{
  AstNode, AstNodes, Opcode, ast_node_op_new, op_octstr_concat, op_str_concat,
  ast_node_func_call_new, ast_node_func_call_add_next_arg,
}
use crypti.Syntax.Goals.{
  Calls, Level, operator, level, factor_goal, concatenation_rest, call_rest, at_logic_or,
}
use crypti.Syntax.Expressions.{or_stub, binary_turn, binary_rest}
use crypti.Syntax.Operands.{concatenation_turn, function_call_args, factor}
use crypti.Run.{Run, ok, die, fault, stuck, Returns, Returns-map}
use crypti.Syntax.Stream.{Parser, Parse, pure, current_tok, failed, after, on, tok_next_from, ◌>>=◌}
use crypti.Syntax.Total.{Runs, running, on-Runs, null-Runs, bind-Runs, failed-Runs, pure-Runs}
use crypti.Syntax.Weights.{weight, tok_next-weight, NotEof, is-here}
use crypti.Syntax.Total.Ranks.{Same, Smaller, operator-here}
use crypti.Syntax.Total.Expressions.{
  or_stub-Runs, right-Runs, parens-Runs, joined-Runs, identifier-Runs, any_rpar,
}

third : (a b c : Bool) → (a || b || c) ≡ true → a ≡ false → b ≡ false → c ≡ true
third true b c h e e' = cc
third false true c h e e' = cc
third false false c h e e' = h

module _ {N : Type 0} (call : Calls N) (φ : ℕ) where
  -- Behind an operator the weight has fallen.
  turn-Returns :
      (lv : Level) (left : AstNode N) (s : Parser N) (o : Option Opcode)
      → Smaller call φ
      → weight s ≤ φ
      → operator lv s.lex_item.0 ≡ o
      → Returns (binary_turn call lv left o s) (λ r. weight r.1 ≤ φ)
  unfolding Runs
  turn-Returns lv left s none smaller le e = le
  turn-Returns lv left s (some op) smaller le e =
      let (_, falls) = tok_next-weight s in
      let less = falls (operator-here lv s.lex_item op e) in
      let s' = tok_next_from s s.lex_item_future in
      Returns-map (λ r. weight r.1 ≤ weight s') (λ r. weight r.1 ≤ φ) _
        (right-Runs call (weight s') lv left op (smaller (weight s') (omega arith)) s'
          (omega arith))
        λ r le'. omega arith

  pub rest-Runs :
      (lv : Level) (left : AstNode N) → Smaller call φ → Runs N φ (binary_rest call lv left)
  unfolding Runs
  rest-Runs lv left smaller s le = turn-Returns lv left s (operator lv s.lex_item.0) smaller le refl

  -- A factor that begins with an operand makes the weight fall.
  pub factor-Runs : Smaller call φ → Runs N φ (factor call)
  factor-Runs smaller =
      search
        (
          running,
          smaller,
          identifier-Runs,
          any_rpar,
          on-Runs N φ tok_lpar,
          on-Runs N φ tok_id,
          on-Runs N φ tok_var,
        )
        depth 24 fits 30000

  -- A token that is there, and one that is not.
  on-less :
      (t : Tok) (m k : Parse N (AstNode N)) (s : Parser N)
      → NotEof t
      → ((φ' : ℕ) → φ' < φ → Runs N φ' m)
      → (s.lex_item.0 is t) ≡ true
      → weight s ≤ φ
      → Returns (on t m k s) (λ r. weight r.1 < φ)
  unfolding Runs
  on-less t m k s real h e le =
      let (_, falls) = tok_next-weight s in
      let less = falls (is-here s.lex_item t real e) in
      let s' = tok_next_from s s.lex_item_future in
      rw (e) (
        Returns-map (λ r. weight r.1 ≤ weight s') (λ r. weight r.1 < φ) (m s')
          (h (weight s') (omega arith) s' (omega arith)) λ r le'. omega arith)

  on-missed :
      (t : Tok) (m k : Parse N (AstNode N)) (s : Parser N) (P : AstNode N × Parser N → Type 0)
      → (s.lex_item.0 is t) ≡ false
      → Returns (k s) P
      → Returns (on t m k s) P
  on-missed t m k s P e h = rw (e) h

  pub factor-Less :
      (s : Parser N)
      → Smaller call φ
      → weight s ≤ φ
      → (s.lex_item.0 is tok_lpar || s.lex_item.0 is tok_id || s.lex_item.0 is tok_var) ≡ true
      → Returns (factor call s) (λ r. weight r.1 < φ)
  factor-Less s smaller le start = elim (Bool-cases (s.lex_item.0 is tok_lpar)) [
    | inl e ↦ on-less tok_lpar _ _ s tt (λ φ' less. parens-Runs call φ' (smaller φ' less)) e le
    | inr par ↦
        on-missed tok_lpar _ _ s (λ r. weight r.1 < φ) par
          (elim (Bool-cases (s.lex_item.0 is tok_id)) [
            | inl e ↦
                on-less tok_id _ _ s tt (λ φ' less. identifier-Runs call φ' (smaller φ' less)) e le
            | inr id ↦
                on-missed tok_id _ _ s (λ r. weight r.1 < φ) id
                  (on-less tok_var _ _ s tt (λ φ' less. search running depth 16)
                    (third _ _ _ start par id) le)
          ])
  ]

  hash-Runs :
      (left : AstNode N)
      → Smaller call φ
      → Runs N φ (
          on tok_hash
            (do
              right ← call factor_goal
              node ← or_stub call right
              call (concatenation_rest (ast_node_op_new left node op_octstr_concat)))
            (pure left))
  hash-Runs left smaller = search (running, smaller, or_stub-Runs, on-Runs N φ tok_hash) depth 20

  after-Less :
      (r : Run (AstNode N × Parser N)) (f : AstNode N → Parse N (AstNode N))
      → Returns r (λ x. weight x.1 < φ)
      → ((a : AstNode N) (φ' : ℕ) → φ' < φ → Runs N φ' (f a))
      → Returns (after r f) (λ x. weight x.1 ≤ φ)
  unfolding Runs
  after-Less (ok (a, s')) f h k =
      Returns-map (λ r. weight r.1 ≤ weight s') (λ r. weight r.1 ≤ φ) (f a s')
        (k a (weight s') h s' (omega arith)) λ r le. omega arith
  after-Less die f h k = absurd h
  after-Less fault f h k = absurd h
  after-Less stuck f h k = absurd h

  pub concatenation_rest-Runs :
      (left : AstNode N)
      → Smaller call φ
      → ((s : Parser N)
          → weight s ≤ φ
          → (s.lex_item.0 is tok_lpar || s.lex_item.0 is tok_id || s.lex_item.0 is tok_var) ≡ true
          → Returns (call factor_goal s) (λ r. weight r.1 < φ))
      → Runs N φ (concatenation_turn call left)
  unfolding Runs
  concatenation_rest-Runs left smaller starts s le =
      elim (Bool-cases
        (s.lex_item.0 is tok_lpar || s.lex_item.0 is tok_id || s.lex_item.0 is tok_var)) [
          | inl e ↦ rw (e) (
              after-Less (call factor_goal s) _ (starts s le e)
                λ right φ' less. joined-Runs call φ' left right op_str_concat (smaller φ' less))
          | inr e ↦ rw (e) (hash-Runs left smaller s le)
        ]

  closing-Runs :
      (a : Attribute N) (more : AstNodes N)
      → ((s : Parser N) (more : AstNodes N)
          → weight s ≤ φ
          → (s.lex_item.0 is tok_rpar) ≡ true
          → Returns (call (call_rest a more) s) (λ r. weight r.1 ≤ φ))
      → Runs N φ (do t ← current_tok; (if t is tok_rpar then call (call_rest a more) else failed))
  unfolding Runs
  closing-Runs a more close s le = elim (Bool-cases (s.lex_item.0 is tok_rpar)) [
    | inl e ↦ rw (e) (close s more le e)
    | inr e ↦ rw (e) le
  ]

  pub call_rest-Runs :
      (a : Attribute N) (args : AstNodes N)
      → Same call φ 17
      → Smaller call φ
      → ((s : Parser N) (more : AstNodes N)
          → weight s ≤ φ
          → (s.lex_item.0 is tok_rpar) ≡ true
          → Returns (call (call_rest a more) s) (λ r. weight r.1 ≤ φ))
      → Runs N φ (function_call_args call a args)
  call_rest-Runs a args same smaller close =
      let behind : (more : AstNodes N)
          → Runs N φ
              (do t ← current_tok; (if t is tok_rpar then call (call_rest a more) else failed)) =
        λ more. closing-Runs a more close in
      on-Runs N φ tok_rpar _ _ tt (λ φ' less. pure-Runs N φ' (ast_node_func_call_new a args))
        (bind-Runs N φ _ _ (same (level at_logic_or) tt tt) λ node.
          null-Runs N φ node _ _ (failed-Runs N φ) (
            on-Runs N φ tok_comma _ _ tt
              (λ φ' less.
                smaller φ' less (call_rest a (ast_node_func_call_add_next_arg args node)) tt)
              (behind (ast_node_func_call_add_next_arg args node))))
