-- ===== src/Lexer/Comments.antt =====
-- src/lex.c: comments that are closed, and comments that are not.
use crypti.Run.{ok, stuck}
use crypti.Base.{
  ℕ, zero, suc, ◌≤◌, ◌<◌, ◌≡◌, refl, inl, inr, Bool, false, ◌&&◌, ◌||◌, List, [], ◌∷◌, ◌++◌, arith,
  ◌==◌, Bool-cases, length,
}
use crypti.Keyword.{KeywordTable}
use crypti.Scanner.{
  Lexer, fgetc, is_blank, is_digit, is_alpha, to_lower, skip_blanks, skip_multiline_comment,
}
use crypti.Lexer.{Mpl, start_of, dispatch, get_next_token}

-- Whether `*/` stands somewhere in the input.
unfoldable pub has_close : List ℕ → Bool
has_close [] = false
has_close (c ∷ cs) = (c == b'*' && (fgetc cs).peek == b'/') || has_close cs

-- Without a `*/` the loop reads the end of the file for ever.
skip_multiline_comment-stuck :
    (fuel : ℕ) (input : List ℕ)
    → has_close input ≡ false
    → skip_multiline_comment fuel input ≡ stuck
unfolding skip_multiline_comment has_close fgetc
skip_multiline_comment-stuck zero input h = refl
skip_multiline_comment-stuck (suc fuel) [] h = skip_multiline_comment-stuck fuel [] refl
skip_multiline_comment-stuck (suc fuel) (c ∷ []) h = elim (Bool-cases (c == b'*')) [
  | inl e ↦ rw (e, skip_multiline_comment) (skip_multiline_comment-stuck fuel [] refl)
  | inr e ↦ rw (e, skip_multiline_comment) (skip_multiline_comment-stuck fuel [] refl)
]
skip_multiline_comment-stuck (suc fuel) (c ∷ d ∷ cs) h =
    let later : has_close (d ∷ cs) ≡ false = ground arith in
    let behind : has_close cs ≡ false = ground arith in
    elim (Bool-cases (c == b'*')) [
      | inl e ↦
          let open_still : (d == b'/') ≡ false = ground arith in
          rw (e, skip_multiline_comment, open_still) (skip_multiline_comment-stuck fuel cs behind)
      | inr e ↦ rw (e, skip_multiline_comment) (skip_multiline_comment-stuck fuel (d ∷ cs) later)
    ]

-- Text without an asterisk.
abbrev pub NoStar : List ℕ → Type 0
NoStar [] = Unit
NoStar (c ∷ cs) = ((c == b'*') ≡ false) × NoStar cs

skip_multiline_comment-closed :
    (fuel : ℕ) (body rest : List ℕ)
    → NoStar body
    → length body < fuel
    → skip_multiline_comment fuel (body ++ b'*' ∷ b'/' ∷ rest)
      ≡ ok (record { peek = b' '; input = rest })
unfolding skip_multiline_comment fgetc
skip_multiline_comment-closed zero body rest w h = absurd (omega arith)
skip_multiline_comment-closed (suc fuel) [] rest w h = refl
skip_multiline_comment-closed (suc fuel) (c ∷ body) rest w h =
    rw (w.0, skip_multiline_comment)
      (skip_multiline_comment-closed fuel body rest w.1 (omega arith))

-- The second asterisk of `**/` is read as the one that might have been a slash.
skip_multiline_comment-double_star :
    (fuel : ℕ) (body unclosed : List ℕ)
    → NoStar body
    → has_close unclosed ≡ false
    → skip_multiline_comment fuel (body ++ b'*' ∷ b'*' ∷ b'/' ∷ unclosed) ≡ stuck
unfolding skip_multiline_comment fgetc has_close
skip_multiline_comment-double_star zero body unclosed w h = refl
skip_multiline_comment-double_star (suc fuel) [] unclosed w h =
    skip_multiline_comment-stuck fuel (b'/' ∷ unclosed) h
skip_multiline_comment-double_star (suc fuel) (c ∷ body) unclosed w h =
    rw (w.0, skip_multiline_comment) (skip_multiline_comment-double_star fuel body unclosed w.1 h)

module _ {N : Type 0} (mpl : Mpl N) (keys : KeywordTable) (realloc_ok : ℕ → Bool) where
  abbrev pub begun : List ℕ → Lexer
  begun input = record { peek = b'/'; input = b'*' ∷ input }

  -- A comment of several lines whose text has no asterisk is skipped up to its end; one that is
  -- never closed, and one that is closed by two asterisks and a slash and by nothing behind, makes
  -- get_next_token read for ever: no fuel is enough.
  pub get_next_token-comment :
      (fuel more : ℕ) (body rest unclosed : List ℕ)
      → NoStar body
      → length body ≤ fuel
      → has_close unclosed ≡ false
      → (get_next_token mpl keys realloc_ok (suc fuel) (begun (body ++ b'*' ∷ b'/' ∷ rest))
          ≡ get_next_token mpl keys realloc_ok fuel (record { peek = b' '; input = rest }))
        × (get_next_token mpl keys realloc_ok more (begun unclosed) ≡ stuck)
        × (get_next_token mpl keys realloc_ok more (begun (body ++ b'*' ∷ b'*' ∷ b'/' ∷ unclosed))
            ≡ stuck)
  unfolding get_next_token dispatch start_of skip_blanks is_blank fgetc is_digit is_alpha to_lower
  get_next_token-comment fuel more body rest unclosed w h never = (
    rw (skip_multiline_comment-closed (suc fuel) body rest w (omega arith)) refl,
    open_comment more,
    double_star more,
  )
    where
      open_comment : (n : ℕ) → get_next_token mpl keys realloc_ok n (begun unclosed) ≡ stuck
      open_comment zero = refl
      open_comment (suc n) = rw (skip_multiline_comment-stuck (suc n) unclosed never) refl

      double_star :
          (n : ℕ)
          → get_next_token mpl keys realloc_ok n (begun (body ++ b'*' ∷ b'*' ∷ b'/' ∷ unclosed))
            ≡ stuck
      double_star zero = refl
      double_star (suc n) =
          rw (skip_multiline_comment-double_star (suc n) body unclosed w never) refl
