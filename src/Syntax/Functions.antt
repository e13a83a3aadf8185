-- ===== src/Syntax/Functions.antt =====
-- src/syntax.c: definitions of functions.
use crypti.Base.{ℕ, zero, suc, ◌+◌, ◌-◌, ◌||◌, Option, none, some, List, [], ◌∷◌, if◌then◌else◌}
use crypti.Token.{
  Tok, ◌is◌, tok_lpar, tok_rpar, tok_lbrace, tok_rbrace, tok_lbracket, tok_rbracket, tok_id,
  tok_comma,
}
use crypti.Lexer.{Attribute}
use crypti.Syntax.Tree.{AstNode, ast_node_func_def_new}
use crypti.Syntax.Stream.{
  Parse, pure, ◌>>=◌, ◌>>◌, modify, current_tok, matches, on, error, failed, unless_errors,
  sync_stream, prev_attribute,
}
use crypti.Syntax.Goals.{Calls, block_goal}

-- `MAXFARGS` and `MAXRETARGS`
abbrev pub max_args : ℕ
max_args = 256

-- What comes back of a part of a definition: the part, or `ret_err`.
abbrev pub given : {N A B : Type 0} → Option A → Parse N B → (A → Parse N B) → Parse N B
given none err go = err
given (some a) err go = go a

-- `get_name_arr`, where `limit - n` is given. None is the value FALSE.
unfoldable pub get_name_arr : {N : Type 0} → ℕ → Tok → Parse N (Option (List (Attribute N)))
get_name_arr zero endtok = do
  t ← current_tok
  (if t is endtok then pure (some []) else (do matches tok_id; pure none))
get_name_arr (suc more) endtok =
    let others = get_name_arr more endtok in
    do
      t ← current_tok
      (if t is endtok
          then pure (some [])
          else on tok_id
              (do
                id ← prev_attribute
                comma ← matches tok_comma
                t' ← current_tok
                (if comma || t' is endtok
                    then (do
                      rest ← others
                      given rest (pure none) λ names. pure (some (id.1 ∷ names)))
                    else pure none))
              (pure none))

module _ {N : Type 0} where
  -- A list of names between brackets.
  abbrev pub bracketed : Tok → Tok → Parse N (Option (List (Attribute N)))
  bracketed start endtok =
      on start
        (do
          names ← get_name_arr max_args endtok
          given names (pure none) λ found. on endtok (pure (some found)) (pure none))
        (pure none)

  abbrev pub process_function_ret_lst : Parse N (Option (List (Attribute N)))
  process_function_ret_lst = bracketed tok_lbracket tok_rbracket

  abbrev pub process_function_arguments : Parse N (Option (List (Attribute N)))
  process_function_arguments = bracketed tok_lpar tok_rpar

module _ {N : Type 0} (call : Calls N) where
  -- `process_function_body`; after an error `is_func` stays raised.
  abbrev pub process_function_body : Parse N (Option (AstNode N))
  process_function_body =
      let err = (do error; pure none) in
      on tok_lbrace
        (do
          modify λ s. record s { is_func = s.is_func + 1 }
          body ← call block_goal
          unless_errors err (
              on tok_rbrace (do modify λ s. record s { is_func = s.is_func - 1 }; pure (some body))
                err))
        err

  abbrev pub process_function : Parse N (AstNode N)
  process_function =
      let err = (do stub ← failed; sync_stream; pure stub) in
      do
        ret_lst ← process_function_ret_lst
        given ret_lst err λ retargs.
            on tok_id
              (do
                id ← prev_attribute
                arguments ← process_function_arguments
                given arguments err λ args. do
                  parsed ← process_function_body
                  given parsed err λ body. pure (ast_node_func_def_new id.1 args retargs body))
              err
