-- ===== src/Syntax/Invariant.antt =====
-- src/syntax.c: what no statement and no expression changes: the numbers of the loops and functions
-- around it. Errors that are counted stay counted.
pub mod Expressions
pub mod Statements
use crypti.Base.{
  ℕ, ◌+◌, ◌≤◌, ◌≡◌, refl, ◌∙◌, ◌==◌, Bool, true, false, Option, none, some, List, [], ◌∷◌, arith,
  if◌then◌else◌,
}
use crypti.Run.{Run, ok, die, fault, stuck}
use crypti.Token.{Tok, ◌is◌, tok_eof}
use crypti.Lexer.{LexItem}
use crypti.Syntax.Tree.{AstNode, null, ast_node}
use crypti.Syntax.Promises.{Value, Gives}
use crypti.Syntax.Stream.{
  Parser, Parse, pure, ◌>>=◌, ◌>>◌, after, modify, ask, tok_next_from, tok_next, tok_pop, matches,
  on, is_eof, is_stmt_end, skip_eol, error, failed, unless_null, unless_errors, drop_line,
  sync_from, sync_stream, line_ends,
}

-- `P` of what is returned; the process does not end and no memory outside of an object is touched.
-- Only the fuel may be used up.
abbrev pub Holds {ℓ} : {A : Type ℓ} → Run A → (A → Type 0) → Type 0
Holds (ok a) P = P a
Holds die P = ⊥
Holds fault P = ⊥
Holds stuck P = Unit

module _ {N : Type 0} where
  abbrev pub Settled : Parser N → Parser N → Type 0
  Settled s s' = (s'.is_cycle ≡ s.is_cycle) × (s'.is_func ≡ s.is_func) × (s.nerrors ≤ s'.nerrors)

unfoldable pub Keeps : (N : Type 0) {A : Type 0} → Parse N A → Type 0
Keeps N m = (s : Parser N) → Holds (m s) (λ r. Settled s r.1)

module _ (N : Type 0) where
  pub Settled-trans : (s s' s'' : Parser N) → Settled s s' → Settled s' s'' → Settled s s''
  Settled-trans s s' s'' (c, f, n) (c', f', n') = (c' ∙ c, f' ∙ f, omega arith)

  Holds-after :
      {A : Type 0} (s s' : Parser N) (r : Run (A × Parser N))
      → Settled s s'
      → Holds r (λ x. Settled s' x.1)
      → Holds r (λ x. Settled s x.1)
  Holds-after s s' (ok (a, s'')) h h' = Settled-trans s s' s'' h h'
  Holds-after s s' die h h' = h'
  Holds-after s s' fault h h' = h'
  Holds-after s s' stuck h h' = tt

  after-Holds :
      {A B : Type 0} (s : Parser N) (r : Run (A × Parser N)) (f : A → Parse N B)
      → Holds r (λ x. Settled s x.1)
      → ((a : A) → Keeps N (f a))
      → Holds (after r f) (λ x. Settled s x.1)
  unfolding Keeps
  after-Holds s (ok (a, s')) f h k = Holds-after s s' (f a s') h (k a s')
  after-Holds s die f h k = h
  after-Holds s fault f h k = h
  after-Holds s stuck f h k = tt

  pub bind-Keeps :
      {A B : Type 0} (m : Parse N A) (f : A → Parse N B)
      → Keeps N m
      → ((a : A) → Keeps N (f a))
      → Keeps N (m >>= f)
  unfolding Keeps
  bind-Keeps m f h k s = after-Holds s (m s) f (h s) k

  after_given-Holds :
      {A B : Type 0} (P : A → Type 0) (s : Parser N) (r : Run (A × Parser N)) (f : A → Parse N B)
      → Holds r (λ x. Settled s x.1)
      → Value r P
      → ((a : A) → P a → Keeps N (f a))
      → Holds (after r f) (λ x. Settled s x.1)
  unfolding Keeps
  after_given-Holds P s (ok (a, s')) f h v k = Holds-after s s' (f a s') h (k a v s')
  after_given-Holds P s die f h v k = h
  after_given-Holds P s fault f h v k = h
  after_given-Holds P s stuck f h v k = tt

  -- A call whose value is known by what it promises.
  pub given-Keeps :
      {A B : Type 0} (P : A → Type 0) (m : Parse N A) (f : A → Parse N B)
      → Keeps N m
      → Gives N m P
      → ((a : A) → P a → Keeps N (f a))
      → Keeps N (m >>= f)
  unfolding Keeps Gives
  given-Keeps P m f h v k s = after_given-Holds P s (m s) f (h s) (v s) k

  pub if-Keeps :
      {A : Type 0} (b : Bool) (m k : Parse N A)
      → Keeps N m
      → Keeps N k
      → Keeps N (if b then m else k)
  if-Keeps true m k h h' = h
  if-Keeps false m k h h' = h'

  pub pure-Keeps : {A : Type 0} (a : A) → Keeps N (pure a)
  unfolding Keeps
  pure-Keeps a s = (refl, refl, omega arith)

  pub ask-Keeps : {A : Type 0} (f : Parser N → A) → Keeps N (ask f)
  unfolding Keeps
  ask-Keeps f s = (refl, refl, omega arith)

  pub error-Keeps : Keeps N error
  unfolding Keeps
  error-Keeps s = (refl, refl, omega arith)

  next-Settled : (s : Parser N) (o : Option (LexItem N)) → Settled s (tok_next_from s o)
  next-Settled s none = (refl, refl, omega arith)
  next-Settled s (some _) = (refl, refl, omega arith)

  pub tok_next-Keeps : Keeps N tok_next
  unfolding Keeps
  tok_next-Keeps s = next-Settled s s.lex_item_future

  pub tok_pop-Keeps : Keeps N tok_pop
  unfolding Keeps
  tok_pop-Keeps s = (refl, refl, omega arith)

  pub matches-Keeps : (t : Tok) → Keeps N (matches t)
  matches-Keeps t = bind-Keeps _ _ (ask-Keeps _) λ a.
      if-Keeps (a is t) _ _ (bind-Keeps _ _ tok_next-Keeps λ _. pure-Keeps true) (pure-Keeps false)

  pub on-Keeps :
      {A : Type 0} (t : Tok) (m k : Parse N A) → Keeps N m → Keeps N k → Keeps N (on t m k)
  on-Keeps t m k h h' = bind-Keeps _ _ (matches-Keeps t) λ b. if-Keeps b m k h h'

  pub null-Keeps :
      {A : Type 0} (node : AstNode N) (m k : Parse N A)
      → Keeps N m
      → Keeps N k
      → Keeps N (unless_null node m k)
  null-Keeps null m k h h' = h
  null-Keeps (ast_node _ _) m k h h' = h'

  pub errors-Keeps :
      {A : Type 0} (m k : Parse N A) → Keeps N m → Keeps N k → Keeps N (unless_errors m k)
  errors-Keeps m k h h' = bind-Keeps _ _ (ask-Keeps _) λ n. if-Keeps (n == 0) k m h' h

  if-Settled :
      (s : Parser N) (b : Bool) (s' s'' : Parser N)
      → Settled s s'
      → Settled s s''
      → Settled s (if b then s' else s'')
  if-Settled s true s' s'' h h' = h
  if-Settled s false s' s'' h h' = h'

  drop_line-Settled : (items : List (LexItem N)) (s : Parser N) → Settled s (drop_line items s)
  unfolding drop_line
  drop_line-Settled [] s = (refl, refl, omega arith)
  drop_line-Settled (item ∷ items) s =
      let s' = record s { lex_item = item; lex_item_prev = s.lex_item; input = items } in
      if-Settled s (line_ends item) s' (drop_line items s') (refl, refl, omega arith)
        (drop_line-Settled items s')

  sync-Settled : (s : Parser N) (o : Option (LexItem N)) → Settled s (sync_from o s)
  unfolding sync_from
  sync-Settled s none =
      if-Settled s (line_ends s.lex_item) s (drop_line s.input s) (refl, refl, omega arith)
        (drop_line-Settled s.input s)
  sync-Settled s (some o) =
      let s' = tok_next_from s (some o) in
      if-Settled s (line_ends s.lex_item) s (if line_ends o then s' else drop_line s.input s')
        (refl, refl, omega arith)
        (if-Settled s (line_ends o) s' (drop_line s.input s') (refl, refl, omega arith)
          (drop_line-Settled s.input s'))

  pub sync_stream-Keeps : Keeps N sync_stream
  unfolding Keeps
  sync_stream-Keeps s = sync-Settled s s.lex_item_future

  eof-Keeps : Keeps N (modify λ s. record s { syntax_is_eof = true })
  unfolding Keeps
  eof-Keeps s = (refl, refl, omega arith)

  pub is_eof-Keeps : Keeps N is_eof
  is_eof-Keeps = bind-Keeps _ _ (ask-Keeps _) λ t.
      if-Keeps (t is tok_eof) _ _ (bind-Keeps _ _ eof-Keeps λ _. pure-Keeps true) (pure-Keeps false)

pub ruleset keeping = (
  bind-Keeps, if-Keeps, pure-Keeps, ask-Keeps, error-Keeps, tok_next-Keeps, tok_pop-Keeps,
  matches-Keeps, on-Keeps, null-Keeps, errors-Keeps, sync_stream-Keeps,
)

module _ (N : Type 0) where
  pub failed-Keeps : Keeps N failed
  failed-Keeps = search keeping
