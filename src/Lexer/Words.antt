-- ===== src/Lexer/Words.antt =====
-- src/lex.c: names and keywords, and the buffer that a name is collected in.
use crypti.Run.{Run, ok}
use crypti.Base.{
  ℕ, suc, ◌+◌, ◌^◌, ◌&&◌, ◌≤◌, ◌<◌, ◌≡◌, refl, sym, ap, ◌∙◌, ◌≢◌, inl, inr, Bool, true, false, ◌||◌,
  List, [], ◌∷◌, arith, ltb, ◌==◌, if◌then◌else◌, Bool-cases,
}
use crypti.Token.{Tok, tok_id, tok_unknown}
use crypti.Keyword.{KeywordTable, keywords, keyword_of, keyword_table_init, keyword_table_lookup}
use crypti.Keyword.Fill.{keyword_table-keyword_of}
use crypti.Scanner.{
  fgetc, is_word, is_blank, is_digit, is_alpha, to_lower, skip_blanks, enlarge, store, word_loop,
  size_of,
}
use crypti.Lexer.{
  Mpl, LexItem, name_item, item_of, name, no_attribute, get_identifier, start_of, dispatch,
  get_next_token,
}

-- The letters, digits and underscores at the beginning of a text, and what is behind them.
unfoldable pub word_prefix : List ℕ → List ℕ
word_prefix [] = []
word_prefix (c ∷ cs) = if is_word c then c ∷ word_prefix cs else []

pub behind_word : List ℕ → List ℕ
behind_word [] = []
behind_word (c ∷ cs) = if is_word c then behind_word cs else c ∷ cs

store_lem :
    {A : Type 0} (used len : ℕ) (rest : Run A)
    → used < len
    → len < 2 ^ 31
    → store used len rest ≡ rest
unfolding store
store_lem used len rest h k =
    let e : (ltb used len && ltb len (2 ^ 31)) ≡ true = ground arith in rw e refl

pub not_blank :
    (c : ℕ) (input : List ℕ)
    → is_blank c ≡ false
    → skip_blanks c input ≡ record { peek = c; input = input }
unfolding skip_blanks
not_blank c [] h = rw h refl
not_blank c (d ∷ input) h = rw h refl

-- The buffer always has room for one byte more than was asked for, and its size fits an `int`.
abbrev Collected : List ℕ → ℕ → ℕ → ℕ → ℕ → Type 0
Collected input peek used len n =
    (word_loop input peek used len ≡ ok (peek ∷ word_prefix input, n, fgetc (behind_word input)))
    × (used + size_of (peek ∷ word_prefix input) < n)
    × (n < 2 ^ 31)

one_more_byte :
    (cs : List ℕ) (c peek used len n : ℕ)
    → is_word c ≡ true
    → used < enlarge used len
    → enlarge used len < 2 ^ 31
    → Collected cs c (used + 1) (enlarge used len) n
    → Collected (c ∷ cs) peek used len n
unfolding word_loop word_prefix behind_word size_of
one_more_byte cs c peek used len n w inside within (e, room, fits) = (
  rw (store_lem used (enlarge used len) _ inside within, word_loop, w, e) refl,
  rw w (omega (arith, room)),
  fits,
)

-- Before each turn the buffer is at most 64 bytes larger than what it holds.
word_loop_lem :
    (input : List ℕ) (peek used len : ℕ)
    → used ≤ len
    → len ≤ used + 64
    → used + size_of (word_prefix input) + 66 < 2 ^ 31
    → (n : ℕ) × Collected input peek used len n
unfolding word_loop word_prefix behind_word fgetc enlarge size_of
word_loop_lem [] peek used len h near short = (
  enlarge used len,
  (store_lem used (enlarge used len) _ (ground arith) (ground arith), ground arith, ground arith),
)
word_loop_lem (c ∷ cs) peek used len h near short =
    let inside : used < enlarge used len = ground arith in
    let within : enlarge used len < 2 ^ 31 = ground arith in
    elim (Bool-cases (is_word c)) [
      | inl w ↦
          let less : used + suc (size_of (word_prefix cs)) + 66 < 2 ^ 31 = (rw w at short) in
          let (n, collected) =
            word_loop_lem cs c (used + 1) (enlarge used len) (ground arith) (ground arith)
              (omega (arith, less)) in
          (n, one_more_byte cs c peek used len n w inside within collected)
      | inr w ↦ (
        enlarge used len,
        (
          rw (store_lem used (enlarge used len) _ inside within, word_loop, w) refl,
          rw w (ground arith),
          within,
        ),
      )
    ]

item_of_lem :
    {N : Type 0} (tok : Tok) (s : List ℕ)
    → (tok ≡ tok_unknown → item_of {N = N} tok s ≡ (tok_id, name s))
      × (tok ≢ tok_unknown → item_of {N = N} tok s ≡ (tok, no_attribute))
unfolding item_of
item_of_lem tok_unknown s = (λ e. refl, λ n. absurd (n refl))
item_of_lem tok s = (λ e. cc e, λ n. refl)

begins_word :
    (c : ℕ) → (is_alpha c || c == b'_') ≡ true → (is_blank c ≡ false) × (is_digit c ≡ false)
unfolding is_alpha is_blank is_digit to_lower
begins_word c h = (ground arith, ground arith)

module _ {N : Type 0} (mpl : Mpl N) (keys : KeywordTable) (realloc_ok : ℕ → Bool) where
  get_identifier_lem :
      (c : ℕ) (input : List ℕ)
      → ((n : ℕ) → realloc_ok n ≡ true)
      → size_of (word_prefix input) + 66 < 2 ^ 31
      → get_identifier mpl keys realloc_ok c input
        ≡ ok (name_item mpl keys realloc_ok (c ∷ word_prefix input), fgetc (behind_word input))
  unfolding get_identifier
  get_identifier_lem c input granted short =
      let (n, (e, room, fits)) =
        word_loop_lem input c 0 0 (omega arith) (omega arith) (omega (arith, short)) in
      rw
        (
          e,
          get_identifier,
          store_lem (size_of (c ∷ word_prefix input)) n _ (omega (arith, room)) fits,
          granted (size_of (c ∷ word_prefix input) + 1),
        )
        refl

  word_token :
      (fuel c : ℕ) (input : List ℕ)
      → (is_alpha c || c == b'_') ≡ true
      → get_next_token mpl keys realloc_ok (suc fuel) (record { peek = c; input = input })
        ≡ get_identifier mpl keys realloc_ok c input
  unfolding get_next_token dispatch start_of
  word_token fuel c input h =
      let (blank, digit) = begins_word c h in
      rw (not_blank c input blank, get_next_token, digit, h) refl

  -- At a letter or an underscore, with the table that keyword_table_init made and memory granted,
  -- and where the run of letters, digits and underscores behind it is shorter than 2 ^ 31 - 66,
  -- get_next_token reads the whole run, neither writes outside of the buffer that grows with it
  -- nor lets its size pass INT_MAX, and gives the keyword of that name, or TOK_ID with the name
  -- where it is none.
  pub get_next_token-word :
      (malloc_ok : ℕ → Bool) (fuel c : ℕ) (input : List ℕ)
      → ((n : ℕ) → malloc_ok n ≡ true)
      → ((n : ℕ) → realloc_ok n ≡ true)
      → keyword_table_init malloc_ok ≡ ok keys
      → (is_alpha c || c == b'_') ≡ true
      → size_of (word_prefix input) + 66 < 2 ^ 31
      → (item : LexItem N) × (get_next_token mpl keys realloc_ok
            (suc fuel)
            (record { peek = c; input = input })
          ≡ ok (item, fgetc (behind_word input)))
        × (keyword_of keywords (c ∷ word_prefix input) ≡ tok_unknown
            → item ≡ (tok_id, name (c ∷ word_prefix input)))
        × (keyword_of keywords (c ∷ word_prefix input) ≢ tok_unknown
            → item ≡ (keyword_of keywords (c ∷ word_prefix input), no_attribute))
  unfolding name_item
  get_next_token-word malloc_ok fuel c input granted grown made start short =
      let s = c ∷ word_prefix input in
      let (t, e, looked) = keyword_table-keyword_of malloc_ok granted in
      let same : t ≡ keys = cc (sym e ∙ made) in
      let known : keyword_table_lookup keys s ≡ keyword_of keywords s = (rw same at looked s) in
      let (as_name, as_keyword) = item_of_lem {N = N} (keyword_of keywords s) s in
      (
        item_of (keyword_of keywords s) s,
        word_token fuel c input start
            ∙ get_identifier_lem c input grown short
            ∙ ap (λ k. ok (item_of k s, fgetc (behind_word input))) known,
        as_name,
        as_keyword,
      )
