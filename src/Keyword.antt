-- ===== src/Keyword.antt =====
-- src/keyword.c: the table of keywords.
pub mod Fill
mod Tests
use mathlib.Core.List.{flatten}
use crypti.Run.{Run, ok, die, ◌>>=◌}
use crypti.Base.{
  ℕ, ◌≡◌, refl, sym, ap, ◌∙◌, ◌≢◌, Bool, true, false, Option, none, some, List, [], ◌∷◌, arith,
  if◌then◌else◌, Bool-cases, inl, inr,
}
use crypti.Hash.{
  Ret, Chain, Table, Outcome, returns, broken, new, find, lookup, insert_unique, found,
}
use crypti.Hash.Chain.{IsDistinct, find_first}
use crypti.Hash.Map.{IsValid, meaning, Updated, insert_unique-refines, new_lem}
use crypti.Hash.Lookup.{found-lookup}
use crypti.Defaults.{string_keys, same_str, same_str_iff}
use crypti.Token.{
  Tok, tok_def, tok_if, tok_else, tok_for, tok_do, tok_while, tok_continue, tok_break, tok_return,
  tok_import, tok_del, tok_unknown,
}

-- `keywords`
abbrev pub keywords : List (List ℕ × Tok)
keywords =
    (b'd' ∷ b'e' ∷ b'f' ∷ [], tok_def)
    ∷ (b'i' ∷ b'f' ∷ [], tok_if)
    ∷ (b'e' ∷ b'l' ∷ b's' ∷ b'e' ∷ [], tok_else)
    ∷ (b'f' ∷ b'o' ∷ b'r' ∷ [], tok_for)
    ∷ (b'd' ∷ b'o' ∷ [], tok_do)
    ∷ (b'w' ∷ b'h' ∷ b'i' ∷ b'l' ∷ b'e' ∷ [], tok_while)
    ∷ (b'c' ∷ b'o' ∷ b'n' ∷ b't' ∷ b'i' ∷ b'n' ∷ b'u' ∷ b'e' ∷ [], tok_continue)
    ∷ (b'b' ∷ b'r' ∷ b'e' ∷ b'a' ∷ b'k' ∷ [], tok_break)
    ∷ (b'r' ∷ b'e' ∷ b't' ∷ b'u' ∷ b'r' ∷ b'n' ∷ [], tok_return)
    ∷ (b'i' ∷ b'm' ∷ b'p' ∷ b'o' ∷ b'r' ∷ b't' ∷ [], tok_import)
    ∷ (b'd' ∷ b'e' ∷ b'l' ∷ [], tok_del)
    ∷ []

abbrev pub KeywordTable : Type 0
KeywordTable = Table (List ℕ) Tok

-- `keyword_table_insert`
pub inserted : KeywordTable → Outcome KeywordTable → Run KeywordTable
inserted t broken = die
inserted t (returns Ret.ret_out_of_memory t') = die
inserted t (returns Ret.ret_entry_exists t') = die
inserted t (returns r t') = ok t'

pub keyword_table_insert : (ℕ → Bool) → KeywordTable → List ℕ → Tok → Run KeywordTable
unfolding inserted
keyword_table_insert malloc_ok t name id =
    inserted t (insert_unique string_keys malloc_ok t name id)

-- The loop of `keyword_table_fill`.
pub keyword_table_fill : (ℕ → Bool) → List (List ℕ × Tok) → KeywordTable → Run KeywordTable
keyword_table_fill malloc_ok [] t = ok t
keyword_table_fill malloc_ok ((name, id) ∷ rest) t =
    keyword_table_insert malloc_ok t name id >>= λ t'. keyword_table_fill malloc_ok rest t'

-- `keyword_table_init`
pub keyword_table_init : (ℕ → Bool) → Run KeywordTable
keyword_table_init malloc_ok = elim (new malloc_ok 32) [
  | none ↦ die
  | some t ↦ keyword_table_fill malloc_ok keywords t
]

-- `keyword_table_lookup`
pub keyword_table_lookup : KeywordTable → List ℕ → Tok
keyword_table_lookup t name = elim (found (lookup string_keys t name)) [
  | none ↦ tok_unknown
  | some id ↦ id
]

-- The keywords as a script's author knows them: the token of a name in the list.
pub keyword_of : List (List ℕ × Tok) → List ℕ → Tok
keyword_of [] name = tok_unknown
keyword_of ((k, id) ∷ rest) name = if same_str k name then id else keyword_of rest name
