-- ===== src/Lexer/Tests.antt =====
-- The tokens of small scripts. The numbers of libmpl are those of the model here.
use crypti.Run.{ok, stuck}
use crypti.Base.{
  ℕ, suc, ◌+◌, ◌*◌, ◌≡◌, refl, ◌≢◌, Bool, true, false, List, [], ◌∷◌, ◌++◌, map, length, ◌||◌, ◌==◌,
  ◌^◌, ◌<◌, arith,
}
use crypti.Token.{Tok, tok_id, tok_unknown, tok_shl_as, tok_semicolon, tok_eol}
use crypti.Keyword.{KeywordTable, keywords, keyword_of, keyword_table_init}
use crypti.Keyword.Fill.{keyword_table-keyword_of}
use crypti.Scanner.{fgetc, is_alpha, is_digit, is_word, to_lower, size_of}
use crypti.Lexer.{Mpl, LexItem, name, no_attribute, get_next_token}
use crypti.Lexer.Words.{word_prefix, behind_word, get_next_token-word}
use crypti.Lexer.Symbols.{script, spelling, read_tokens, read_tokens-script}
use crypti.Lexer.Comments.{has_close, get_next_token-comment}
use crypti.Lexer.Numbers.{MplLaws, Reads, digits_text, positional, hex_mark, get_next_token-number}

abbrev always : ℕ → Bool
always n = true

abbrev plain : Mpl ℕ
plain = record { mpl_set_uint = λ n. n; mpl_mul = λ a b. a * b; mpl_add = λ a b. a + b }

plain-MplLaws : MplLaws plain λ n. n
plain-MplLaws = record { set_law = λ n. refl; mul_law = λ a b. refl; add_law = λ a b. refl }

abbrev table : KeywordTable
table = (keyword_table-keyword_of always λ n. refl).0

table_made : keyword_table_init always ≡ ok table
table_made = (keyword_table-keyword_of always λ n. refl).1

abbrev symbols : List Tok
symbols = tok_shl_as ∷ tok_semicolon ∷ tok_eol ∷ []

read_tokens-script_example :
    read_tokens plain table always
      (suc (length symbols))
      (record { peek = b' '; input = script symbols })
    ≡ ok (map (λ tok. (tok, no_attribute)) symbols)
read_tokens-script_example = read_tokens-script plain table always symbols (
  (λ e. (unfold spelling in cc e)),
  ((λ e. (unfold spelling in cc e)), ((λ e. (unfold spelling in cc e)), tt)),
)

letter_i : (is_alpha b'i' || b'i' == b'_') ≡ true
unfolding is_alpha to_lower
letter_i = refl

-- `if(`
few_letters : size_of (word_prefix (b'f' ∷ b'(' ∷ [])) + 66 < 2 ^ 31
unfolding size_of word_prefix is_word is_alpha is_digit to_lower
few_letters = omega arith

get_next_token-word_example :
    (item : LexItem ℕ) × (get_next_token plain table always 1
        (record { peek = b'i'; input = b'f' ∷ b'(' ∷ [] })
      ≡ ok (item, fgetc (behind_word (b'f' ∷ b'(' ∷ []))))
    × (keyword_of keywords (b'i' ∷ word_prefix (b'f' ∷ b'(' ∷ [])) ≡ tok_unknown
        → item ≡ (tok_id, name (b'i' ∷ word_prefix (b'f' ∷ b'(' ∷ []))))
    × (keyword_of keywords (b'i' ∷ word_prefix (b'f' ∷ b'(' ∷ [])) ≢ tok_unknown
        → item ≡ (keyword_of keywords (b'i' ∷ word_prefix (b'f' ∷ b'(' ∷ [])), no_attribute))
get_next_token-word_example =
    get_next_token-word plain table always always 0 b'i' (b'f' ∷ b'(' ∷ []) (λ n. refl) (λ n. refl)
      table_made letter_i few_letters

-- `/*x*+/` is not closed.
star_plus : has_close (b'x' ∷ b'*' ∷ b'+' ∷ b'/' ∷ []) ≡ false
unfolding has_close fgetc
star_plus = refl

get_next_token-comment_example :
    (get_next_token plain table always 10
        (record { peek = b'/'; input = b'*' ∷ ((b'x' ∷ []) ++ b'*' ∷ b'/' ∷ b';' ∷ []) })
      ≡ get_next_token plain table always 9 (record { peek = b' '; input = b';' ∷ [] }))
    × (get_next_token plain table always 99
          (record { peek = b'/'; input = b'*' ∷ b'x' ∷ b'*' ∷ b'+' ∷ b'/' ∷ [] })
        ≡ stuck)
    × (get_next_token plain table always 99 (record {
      peek = b'/';
      input = b'*' ∷ ((b'x' ∷ []) ++ b'*' ∷ b'*' ∷ b'/' ∷ b'x' ∷ b'*' ∷ b'+' ∷ b'/' ∷ []);
    })
        ≡ stuck)
get_next_token-comment_example =
    get_next_token-comment plain table always 9 99 (b'x' ∷ []) (b';' ∷ [])
      (b'x' ∷ b'*' ∷ b'+' ∷ b'/' ∷ []) (refl, tt) (omega arith) star_plus

get_next_token-number_example :
    Reads plain
      (λ n. n)
      plain-MplLaws
      table
      always
      0
      (digits_text ((4, false) ∷ (2, false) ∷ []))
      []
      (positional 10 0 ((4, false) ∷ (2, false) ∷ []))
    × Reads plain
        (λ n. n)
        plain-MplLaws
        table
        always
        0
        (b'0' ∷ digits_text ((2, false) ∷ []))
        []
        (positional 8 0 ((2, false) ∷ []))
    × Reads plain
        (λ n. n)
        plain-MplLaws
        table
        always
        0
        (b'0' ∷ hex_mark true ∷ digits_text ((15, true) ∷ (10, false) ∷ []))
        []
        (positional 16 0 ((15, true) ∷ (10, false) ∷ []))
get_next_token-number_example =
    get_next_token-number plain (λ n. n) plain-MplLaws table always 0 (4, false) ((2, false) ∷ [])
      ((2, false) ∷ []) ((15, true) ∷ (10, false) ∷ []) true [] (omega arith)
      (omega arith, (omega arith, tt)) (omega arith, tt) (omega arith, (omega arith, tt))
