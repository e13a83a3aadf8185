-- ===== src/Syntax/Total.antt =====
-- src/syntax.c: how much fuel the parser needs, by the weight of what is left to read.
pub mod Ranks
pub mod Expressions
pub mod Loops
pub mod Statements
pub mod Enough
pub mod Programs
use crypti.Base.{
  ◌⊎◌, ℕ, zero, suc, ◌+◌, ◌*◌, ◌≤◌, ◌<◌, ◌≡◌, refl, ap, ◌∙◌, sym, Bool, true, false, ◌==◌, ==_iff,
  Option, none, some, List, [], ◌∷◌, length, ltb, arith, if◌then◌else◌, Bool-cases, inl, inr,
}
use crypti.Run.{Run, ok, die, fault, stuck, Returns, Returns-map}
use crypti.Token.{
  Tok, ◌is◌, value, tok_keyword, tok_id, tok_var, tok_as, tok_plus_as, tok_minus_as, tok_mul_as,
  tok_div_as, tok_pow_as, tok_b_and_as, tok_b_xor_as, tok_b_or_as, tok_shl_as, tok_shr_as, tok_not,
  tok_eq, tok_neq, tok_gr, tok_lo, tok_ge, tok_le, tok_l_and, tok_l_or, tok_b_and, tok_b_xor,
  tok_b_or, tok_lpar, tok_rpar, tok_lbrace, tok_rbrace, tok_lbracket, tok_rbracket, tok_dot,
  tok_comma, tok_colon, tok_question, tok_semicolon, tok_shl, tok_shr, tok_plus, tok_minus, tok_mul,
  tok_div, tok_persent, tok_pow, tok_hash, tok_eol, tok_def, tok_if, tok_else, tok_for, tok_do,
  tok_while, tok_continue, tok_break, tok_return, tok_import, tok_del, tok_eof, tok_unknown,
}
use crypti.Lexer.{Attribute, LexItem}
use crypti.Syntax.Tree.{AstNode, AstNodes, null, ast_node, ast_node_stub_new}
use crypti.Syntax.Promises.{Value, Gives}
use crypti.Syntax.Stream.{
  Parser, Parse, pure, ◌>>=◌, ◌>>◌, after, modify, ask, tok_next_from, tok_next, matches, on, error,
  failed, unless_null, unless_errors, drop_line, sync_from, sync_stream, line_ends, is_eof,
  end_of_file,
}
use crypti.Syntax.Weights.{
  here, stored, weight_of, weight, here-bound, tok_next-weight, pop-weight, tok_next-falls, NotEof,
  is-here,
}

-- The function returns from any state of at most this weight, and leaves no more.
unfoldable pub Runs : (N : Type 0) {A : Type 0} → ℕ → Parse N A → Type 0
Runs N φ m = (s : Parser N) → weight s ≤ φ → Returns (m s) (λ r. weight r.1 ≤ φ)

module _ (N : Type 0) where
  after-Returns :
      {A B : Type 0} (φ : ℕ) (r : Run (A × Parser N)) (f : A → Parse N B)
      → Returns r (λ x. weight x.1 ≤ φ)
      → ((a : A) → Runs N φ (f a))
      → Returns (after r f) (λ x. weight x.1 ≤ φ)
  unfolding Runs
  after-Returns φ (ok (a, s')) f h k = k a s' h
  after-Returns φ die f h k = absurd h
  after-Returns φ fault f h k = absurd h
  after-Returns φ stuck f h k = absurd h

  pub bind-Runs :
      {A B : Type 0} (φ : ℕ) (m : Parse N A) (f : A → Parse N B)
      → Runs N φ m
      → ((a : A) → Runs N φ (f a))
      → Runs N φ (m >>= f)
  unfolding Runs
  bind-Runs φ m f h k s le = after-Returns φ (m s) f (h s le) k

  after_promised-Returns :
      {A B : Type 0} (φ : ℕ) (P : A → Type 0) (r : Run (A × Parser N)) (f : A → Parse N B)
      → Returns r (λ x. weight x.1 ≤ φ)
      → Value r P
      → ((a : A) → P a → Runs N φ (f a))
      → Returns (after r f) (λ x. weight x.1 ≤ φ)
  unfolding Runs
  after_promised-Returns φ P (ok (a, s')) f h v k = k a v s' h
  after_promised-Returns φ P die f h v k = absurd h
  after_promised-Returns φ P fault f h v k = absurd h
  after_promised-Returns φ P stuck f h v k = absurd h

  -- A call whose value is known by what it promises.
  pub promised-Runs :
      {A B : Type 0} (φ : ℕ) (P : A → Type 0) (m : Parse N A) (f : A → Parse N B)
      → Runs N φ m
      → Gives N m P
      → ((a : A) → P a → Runs N φ (f a))
      → Runs N φ (m >>= f)
  unfolding Runs Gives
  promised-Runs φ P m f h v k s le = after_promised-Returns φ P (m s) f (h s le) (v s) k

  pub if-Runs :
      {A : Type 0} (φ : ℕ) (b : Bool) (m k : Parse N A)
      → Runs N φ m
      → Runs N φ k
      → Runs N φ (if b then m else k)
  if-Runs φ true m k h h' = h
  if-Runs φ false m k h h' = h'

  pub pure-Runs : {A : Type 0} (φ : ℕ) (a : A) → Runs N φ (pure a)
  unfolding Runs
  pure-Runs φ a s le = le

  pub ask-Runs : {A : Type 0} (φ : ℕ) (f : Parser N → A) → Runs N φ (ask f)
  unfolding Runs
  ask-Runs φ f s le = le

  pub error-Runs : (φ : ℕ) → Runs N φ error
  unfolding Runs
  error-Runs φ s le = le

  pub tok_next-Runs : (φ : ℕ) → Runs N φ tok_next
  unfolding Runs
  tok_next-Runs φ s le = let (h, _) = tok_next-weight s in omega arith

  pub matches-Runs : (φ : ℕ) (t : Tok) → Runs N φ (matches t)
  matches-Runs φ t = bind-Runs φ _ _ (ask-Runs φ _) λ a.
      if-Runs φ (a is t) _ _ (bind-Runs φ _ _ (tok_next-Runs φ) λ _. pure-Runs φ true)
        (pure-Runs φ false)

  -- `on` where nothing is known of the weight, ...
  pub on_any-Runs :
      {A : Type 0} (φ : ℕ) (t : Tok) (m k : Parse N A)
      → Runs N φ m
      → Runs N φ k
      → Runs N φ (on t m k)
  on_any-Runs φ t m k h h' = bind-Runs φ _ _ (matches-Runs φ t) λ b. if-Runs φ b m k h h'

  -- ... and where it has fallen behind the token.
  pub on-Runs :
      {A : Type 0} (φ : ℕ) (t : Tok) (m k : Parse N A)
      → NotEof t
      → ((φ' : ℕ) → φ' < φ → Runs N φ' m)
      → Runs N φ k
      → Runs N φ (on t m k)
  unfolding Runs
  on-Runs φ t m k real h h' s le = elim (Bool-cases (s.lex_item.0 is t)) [
    | inl e ↦
        let (_, falls) = tok_next-weight s in
        let less = falls (is-here s.lex_item t real e) in
        let s' = tok_next_from s s.lex_item_future in
        rw (e) (
          Returns-map (λ r. weight r.1 ≤ weight s') (λ r. weight r.1 ≤ φ) (m s')
            (h (weight s') (omega arith) s' (omega arith)) λ r le'. omega arith)
    | inr e ↦ rw (e) (h' s le)
  ]

  pub null-Runs :
      {A : Type 0} (φ : ℕ) (node : AstNode N) (m k : Parse N A)
      → Runs N φ m
      → Runs N φ k
      → Runs N φ (unless_null node m k)
  null-Runs φ null m k h h' = h
  null-Runs φ (ast_node _ _) m k h h' = h'

  pub errors-Runs :
      {A : Type 0} (φ : ℕ) (m k : Parse N A)
      → Runs N φ m
      → Runs N φ k
      → Runs N φ (unless_errors m k)
  errors-Runs φ m k h h' = bind-Runs φ _ _ (ask-Runs φ _) λ n. if-Runs φ (n == 0) k m h' h

  if-weight :
      (φ : ℕ) (b : Bool) (s s' : Parser N)
      → weight s ≤ φ
      → weight s' ≤ φ
      → weight (if b then s else s') ≤ φ
  if-weight φ true s s' h h' = h
  if-weight φ false s s' h h' = h'

  drop_line-weight :
      (items : List (LexItem N)) (s : Parser N)
      → s.lex_item_future ≡ none
      → weight (drop_line items s) ≤ weight_of s.lex_item none items
  unfolding drop_line
  drop_line-weight [] s e = rw (e) (omega arith)
  drop_line-weight (item ∷ items) s e =
      let s' = record s { lex_item = item; lex_item_prev = s.lex_item; input = items } in
      let later = drop_line-weight items s' e in
      if-weight _ (line_ends item) s' (drop_line items s') (rw (e) (omega (arith, here-bound item)))
        (omega (arith, here-bound item))

  sync-weight :
      (s : Parser N) (o : Option (LexItem N))
      → weight (sync_from o (record s { lex_item_future = o })) ≤ weight_of s.lex_item o s.input
  unfolding sync_from
  sync-weight s none =
      if-weight _ (line_ends s.lex_item) _ _ (omega arith)
        (drop_line-weight s.input (record s { lex_item_future = none }) refl)
  sync-weight s (some o) =
      let s' = record s { lex_item = o; lex_item_prev = s.lex_item; lex_item_future = none } in
      let dropped = drop_line-weight s.input s' refl in
      if-weight _ (line_ends s.lex_item) (record s { lex_item_future = some o })
        (if line_ends o then s' else drop_line s.input s') (omega arith)
        (if-weight _ (line_ends o) s' (drop_line s.input s') (omega arith) (omega arith))

  pub sync_stream-Runs : (φ : ℕ) → Runs N φ sync_stream
  unfolding Runs
  sync_stream-Runs φ s le = let h = sync-weight s s.lex_item_future in omega arith

  raise-Runs : (φ : ℕ) → Runs N φ (modify λ s. record s { syntax_is_eof = true })
  unfolding Runs
  raise-Runs φ s le = le

  pub is_eof-Runs : (φ : ℕ) → Runs N φ is_eof
  is_eof-Runs φ = bind-Runs φ _ _ (ask-Runs φ _) λ t.
      if-Runs φ (t is tok_eof) _ _ (bind-Runs φ _ _ (raise-Runs φ) λ _. pure-Runs φ true)
        (pure-Runs φ false)

  pub failed-Runs : (φ : ℕ) → Runs N φ failed
  failed-Runs φ = bind-Runs φ _ _ (error-Runs φ) λ _. pure-Runs φ ast_node_stub_new

pub ruleset running = (
  bind-Runs, if-Runs, pure-Runs, ask-Runs, error-Runs, tok_next-Runs, null-Runs, errors-Runs,
  sync_stream-Runs, is_eof-Runs, failed-Runs,
)

-- The same where the weight has fallen already, so that no token is looked at.
pub ruleset running_on = (running, on_any-Runs)
