-- ===== src/Syntax/Stream.antt =====
-- src/syntax.c: the state of the parser and the stream of tokens. The input is the list of the items
-- that the lexer gives; behind its end, TOK_EOF comes for ever.
use crypti.Base.{
  ℕ, ◌+◌, Bool, true, false, ◌||◌, ◌==◌, Option, none, some, List, [], ◌∷◌, if◌then◌else◌,
}
use crypti.Run.{Run, ok, die, fault, stuck}
use crypti.Token.{Tok, ◌is◌, tok_eol, tok_eof, tok_semicolon}
use crypti.Lexer.{LexItem, no_attribute}
use crypti.Syntax.Tree.{AstNode, ast_node_stub_new, is_null}

-- The variables of the parser: `lex_item`, whose `id` is `current_tok`, `lex_item_prev`,
-- `lex_item_future` if `exist_stored_tokens`, what the lexer has not read, `nerrors`,
-- `syntax_is_eof`, and `struct syn_ctx helper`.
pub record Parser (N : Type 0) : Type 0 where
  pub lex_item : LexItem N
  pub lex_item_prev : LexItem N
  pub lex_item_future : Option (LexItem N)
  pub input : List (LexItem N)
  pub nerrors : ℕ
  pub syntax_is_eof : Bool
  pub is_cycle : ℕ
  pub is_cond : ℕ
  pub is_func : ℕ

-- A function that reads tokens.
abbrev pub Parse : Type 0 → Type 0 → Type 0
Parse N A = Parser N → Run (A × Parser N)

module _ {N : Type 0} where
  abbrev pub pure : {A : Type 0} → A → Parse N A
  pure a s = ok (a, s)

  -- What comes after a call that has returned.
  abbrev pub after : {A B : Type 0} → Run (A × Parser N) → (A → Parse N B) → Run (B × Parser N)
  after (ok (a, s)) f = f a s
  after die f = die
  after fault f = fault
  after stuck f = stuck

  infixl 5 ◌>>=◌ ◌>>◌
  abbrev pub ◌>>=◌ : {A B : Type 0} → Parse N A → (A → Parse N B) → Parse N B
  (m >>= f) s = after (m s) f

  abbrev pub ◌>>◌ : {A B : Type 0} → Parse N A → Parse N B → Parse N B
  m >> k = m >>= λ _. k

  abbrev pub modify : (Parser N → Parser N) → Parse N (Unit {0})
  modify f s = ok (tt, f s)

  abbrev pub ask : {A : Type 0} → (Parser N → A) → Parse N A
  ask f s = ok (f s, s)

  abbrev pub end_of_file : LexItem N
  end_of_file = (tok_eof, no_attribute)

  abbrev pub first_item : List (LexItem N) → LexItem N
  first_item [] = end_of_file
  first_item (item ∷ _) = item

  abbrev pub later_items : List (LexItem N) → List (LexItem N)
  later_items [] = []
  later_items (_ ∷ rest) = rest

  -- `get_next_token` of the lexer, which fills `lex_item`.
  abbrev pub read_item : Parser N → List (LexItem N) → Parser N
  read_item s items = record s { lex_item = first_item items; input = later_items items }

  -- `tok_next`, with `update_token`; the member of the union is only read for the two tokens that
  -- have one.
  abbrev pub tok_next_from : Parser N → Option (LexItem N) → Parser N
  tok_next_from s (some stored) = record s {
    lex_item = stored;
    lex_item_prev = s.lex_item;
    lex_item_future = none;
  }
  tok_next_from s none = read_item (record s { lex_item_prev = s.lex_item }) s.input

  abbrev pub tok_next : Parse N (Unit {0})
  tok_next = modify λ s. tok_next_from s s.lex_item_future

  -- `tok_pop`
  abbrev pub tok_pop : Parse N (Unit {0})
  tok_pop = modify λ s. record s { lex_item_future = some s.lex_item; lex_item = s.lex_item_prev }

  abbrev pub current_tok : Parse N Tok
  current_tok = ask λ s. s.lex_item.0

  abbrev pub prev_attribute : Parse N (LexItem N)
  prev_attribute = ask λ s. s.lex_item_prev

  -- `match`
  abbrev pub matches : Tok → Parse N Bool
  matches expect = do
    t ← current_tok
    (if t is expect then (do tok_next; pure true) else pure false)

  -- `skip_eol`
  abbrev pub skip_eol : Parse N Bool
  skip_eol = matches tok_eol

  -- `is_stmt_end`
  abbrev pub is_stmt_end : Parse N Bool
  is_stmt_end = do t ← current_tok; pure (t is tok_eol || t is tok_eof || t is tok_semicolon)

  -- `is_eof`
  abbrev pub is_eof : Parse N Bool
  is_eof = do
    t ← current_tok
    (if t is tok_eof
        then (do modify (λ s. record s { syntax_is_eof = true }); pure true)
        else pure false)

  -- `nerrors++`
  abbrev pub error : Parse N (Unit {0})
  error = modify λ s. record s { nerrors = s.nerrors + 1 }

  abbrev pub nerrors_of : Parse N ℕ
  nerrors_of = ask λ s. s.nerrors

  -- `nerrors++` and a stub in place of the tree.
  abbrev pub failed : Parse N (AstNode N)
  failed = do error; pure ast_node_stub_new

  -- `sync_stream`: the tokens up to the end of the line or of the file are dropped.
  unfoldable pub drop_line : List (LexItem N) → Parser N → Parser N
  drop_line [] s = record s { lex_item = end_of_file; lex_item_prev = s.lex_item; input = [] }
  drop_line (item ∷ rest) s =
      let s' = record s { lex_item = item; lex_item_prev = s.lex_item; input = rest } in
      let later = drop_line rest s' in if item.0 is tok_eol || item.0 is tok_eof then s' else later

  abbrev pub line_ends : LexItem N → Bool
  line_ends item = item.0 is tok_eol || item.0 is tok_eof

  unfoldable pub sync_from : Option (LexItem N) → Parser N → Parser N
  unfolding drop_line
  sync_from none s = if line_ends s.lex_item then s else drop_line s.input s
  sync_from (some stored) s =
      let s' = tok_next_from s (some stored) in
      if line_ends s.lex_item
      then s
      else if line_ends s'.lex_item
      then s'
      else drop_line s'.input s'

  abbrev pub sync_stream : Parse N (Unit {0})
  sync_stream = modify λ s. sync_from s.lex_item_future s

  -- `if (match(expect)) found else missed`
  abbrev pub on : {A : Type 0} → Tok → Parse N A → Parse N A → Parse N A
  on expect found missed = do t ← matches expect; (if t then found else missed)

  -- `if (nerrors != 0) goto err`
  abbrev pub unless_errors : {A : Type 0} → Parse N A → Parse N A → Parse N A
  unless_errors err go = do n ← nerrors_of; (if n == 0 then go else err)

  -- `if (node == NULL) goto err`
  abbrev pub unless_null : {A : Type 0} → AstNode N → Parse N A → Parse N A → Parse N A
  unless_null node err go = if is_null node then err else go
