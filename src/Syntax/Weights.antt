-- ===== src/Syntax/Weights.antt =====
-- src/syntax.c: a measure of what the parser has left to read, with the token that `tok_pop` keeps.
use crypti.Base.{
  ◌⊎◌, ℕ, ◌+◌, ◌*◌, ◌≤◌, ◌<◌, ◌≡◌, refl, ap, ◌∙◌, true, false, ◌==◌, ==_iff, Option, none, some,
  List, [], ◌∷◌, length, arith, if◌then◌else◌, Bool-cases, inl, inr,
}
use crypti.Token.{
  Tok, ◌is◌, value, tok_keyword, tok_id, tok_var, tok_as, tok_plus_as, tok_minus_as, tok_mul_as,
  tok_div_as, tok_pow_as, tok_b_and_as, tok_b_xor_as, tok_b_or_as, tok_shl_as, tok_shr_as, tok_not,
  tok_eq, tok_neq, tok_gr, tok_lo, tok_ge, tok_le, tok_l_and, tok_l_or, tok_b_and, tok_b_xor,
  tok_b_or, tok_lpar, tok_rpar, tok_lbrace, tok_rbrace, tok_lbracket, tok_rbracket, tok_dot,
  tok_comma, tok_colon, tok_question, tok_semicolon, tok_shl, tok_shr, tok_plus, tok_minus, tok_mul,
  tok_div, tok_persent, tok_pow, tok_hash, tok_eol, tok_def, tok_if, tok_else, tok_for, tok_do,
  tok_while, tok_continue, tok_break, tok_return, tok_import, tok_del, tok_eof, tok_unknown,
}
use crypti.Lexer.{LexItem}
use crypti.Syntax.Stream.{Parser, tok_next_from}

module _ {N : Type 0} where
  abbrev pub here : LexItem N → ℕ
  here item = if item.0 is tok_eof then 0 else 1

  abbrev pub stored : Option (LexItem N) → ℕ
  stored none = 0
  stored (some item) = here item

  -- Twice the items that are left, and one for a current token that is not the end of the file.
  abbrev pub weight_of : LexItem N → Option (LexItem N) → List (LexItem N) → ℕ
  weight_of item future items = 2 * length items + 2 * stored future + here item

  abbrev pub weight : Parser N → ℕ
  weight s = weight_of s.lex_item s.lex_item_future s.input

  pub here-bound : (item : LexItem N) → here item ≤ 1
  here-bound item = elim (Bool-cases (item.0 is tok_eof)) [
    | inl e ↦ rw (e) (omega arith)
    | inr e ↦ rw (e) (omega arith)
  ]

  next_none-weight :
      (s : Parser N) (items : List (LexItem N))
      → (weight (tok_next_from (record s { lex_item_future = none; input = items }) none)
          ≤ weight_of s.lex_item none items)
        × (here s.lex_item ≡ 1
            → weight (tok_next_from (record s { lex_item_future = none; input = items }) none)
              < weight_of s.lex_item none items)
  next_none-weight s [] = (omega arith, λ e. omega arith)
  next_none-weight s (i ∷ items) = (omega (arith, here-bound i), λ e. omega (arith, here-bound i))

  next-weight :
      (s : Parser N) (o : Option (LexItem N))
      → (weight (tok_next_from (record s { lex_item_future = o }) o)
          ≤ weight_of s.lex_item o s.input)
        × (here s.lex_item ≡ 1
            → weight (tok_next_from (record s { lex_item_future = o }) o)
              < weight_of s.lex_item o s.input)
  next-weight s none = next_none-weight s s.input
  next-weight s (some i) = (omega arith, λ e. omega arith)

  pub tok_next-weight :
      (s : Parser N)
      → (weight (tok_next_from s s.lex_item_future) ≤ weight s)
        × (here s.lex_item ≡ 1 → weight (tok_next_from s s.lex_item_future) < weight s)
  tok_next-weight s = next-weight s s.lex_item_future

module _ {N : Type 0} where
  pop_weight_of :
      (s : Parser N) (o : Option (LexItem N)) (items : List (LexItem N))
      → let s' = tok_next_from (record s { lex_item_future = o; input = items }) o in
        weight_of s'.lex_item_prev (some s'.lex_item) s'.input ≤ weight_of s.lex_item o items
  pop_weight_of s none [] = omega arith
  pop_weight_of s none (i ∷ items) = omega (arith, here-bound i)
  pop_weight_of s (some i) items = omega arith

  -- `tok_pop` behind `tok_next` leaves no more than there was.
  pub pop-weight :
      (s : Parser N)
      → let s' = tok_next_from s s.lex_item_future in
        weight_of s'.lex_item_prev (some s'.lex_item) s'.input ≤ weight s
  pop-weight s = pop_weight_of s s.lex_item_future s.input

  next_or_end :
      (s : Parser N) (o : Option (LexItem N)) (items : List (LexItem N))
      → let s' = tok_next_from (record s { lex_item_future = o; input = items }) o in
        (weight s' < weight_of s.lex_item o items) ⊎ ((s'.lex_item.0 is tok_eof) ≡ true)
  next_or_end s none [] = inr refl
  next_or_end s none (i ∷ items) = inl (omega (arith, here-bound i))
  next_or_end s (some i) items = elim (Bool-cases (i.0 is tok_eof)) [
    | inl e ↦ inr e
    | inr e ↦ let one : here i ≡ 1 = rw (e) refl in inl (omega arith)
  ]

  -- The weight falls, or the file ends.
  pub tok_next-falls :
      (s : Parser N)
      → let s' = tok_next_from s s.lex_item_future in
        (weight s' < weight s) ⊎ ((s'.lex_item.0 is tok_eof) ≡ true)
  tok_next-falls s = next_or_end s s.lex_item_future s.input

-- A token but the end of the file.
abbrev pub NotEof : Tok → Type 0
NotEof tok_eof = ⊥
NotEof _ = Unit

not_eof : (t : Tok) → NotEof t → (t is tok_eof) ≡ false
not_eof tok_keyword h = refl
not_eof tok_id h = refl
not_eof tok_var h = refl
not_eof tok_as h = refl
not_eof tok_plus_as h = refl
not_eof tok_minus_as h = refl
not_eof tok_mul_as h = refl
not_eof tok_div_as h = refl
not_eof tok_pow_as h = refl
not_eof tok_b_and_as h = refl
not_eof tok_b_xor_as h = refl
not_eof tok_b_or_as h = refl
not_eof tok_shl_as h = refl
not_eof tok_shr_as h = refl
not_eof tok_not h = refl
not_eof tok_eq h = refl
not_eof tok_neq h = refl
not_eof tok_gr h = refl
not_eof tok_lo h = refl
not_eof tok_ge h = refl
not_eof tok_le h = refl
not_eof tok_l_and h = refl
not_eof tok_l_or h = refl
not_eof tok_b_and h = refl
not_eof tok_b_xor h = refl
not_eof tok_b_or h = refl
not_eof tok_lpar h = refl
not_eof tok_rpar h = refl
not_eof tok_lbrace h = refl
not_eof tok_rbrace h = refl
not_eof tok_lbracket h = refl
not_eof tok_rbracket h = refl
not_eof tok_dot h = refl
not_eof tok_comma h = refl
not_eof tok_colon h = refl
not_eof tok_question h = refl
not_eof tok_semicolon h = refl
not_eof tok_shl h = refl
not_eof tok_shr h = refl
not_eof tok_plus h = refl
not_eof tok_minus h = refl
not_eof tok_mul h = refl
not_eof tok_div h = refl
not_eof tok_persent h = refl
not_eof tok_pow h = refl
not_eof tok_hash h = refl
not_eof tok_eol h = refl
not_eof tok_def h = refl
not_eof tok_if h = refl
not_eof tok_else h = refl
not_eof tok_for h = refl
not_eof tok_do h = refl
not_eof tok_while h = refl
not_eof tok_continue h = refl
not_eof tok_break h = refl
not_eof tok_return h = refl
not_eof tok_import h = refl
not_eof tok_del h = refl
not_eof tok_eof h = absurd h
not_eof tok_unknown h = refl

pub is-here :
    {N : Type 0} (item : LexItem N) (t : Tok) → NotEof t → (item.0 is t) ≡ true → here item ≡ 1
is-here item t h e =
    let same : value item.0 ≡ value t = (==_iff (value item.0) (value t)).0 e in
    let not_end : (item.0 is tok_eof) ≡ false = ap (λ v. v == value tok_eof) same ∙ not_eof t h in
    rw (not_end) refl
