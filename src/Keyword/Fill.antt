-- ===== src/Keyword/Fill.antt =====
-- src/keyword.c: after the initialisation every name has the token of the list.
use crypti.Run.{ok}
use crypti.Base.{
  ℕ, ◌≡◌, refl, sym, ap, ◌∙◌, ◌≢◌, inl, inr, Bool, true, Option, none, some, List, [], ◌∷◌,
  Bool-cases, Option-cases,
}
use crypti.Hash.{find}
use crypti.Hash.Chain.{IsDistinct, find_first, cmpl_refl}
use crypti.Hash.Map.{IsValid, meaning, insert_unique-refines, new_lem}
use crypti.Hash.Lookup.{found-lookup}
use crypti.Defaults.{string_keys, same_str, same_str_iff}
use crypti.Token.{Tok, tok_unknown}
use crypti.Keyword.{
  KeywordTable, keywords, inserted, keyword_table_insert, keyword_table_fill, keyword_table_init,
  keyword_table_lookup, keyword_of,
}

abbrev token_or : Tok → Option Tok → Tok
token_or d none = d
token_or d (some id) = id

keyword_of-find :
    (es : List (List ℕ × Tok)) (name : List ℕ)
    → token_or tok_unknown (find string_keys name es) ≡ keyword_of es name
unfolding keyword_of find
keyword_of-find [] name = refl
keyword_of-find ((k, id) ∷ rest) name = elim (Bool-cases (same_str k name)) [
  | inl e ↦ rw e refl
  | inr e ↦ rw e (keyword_of-find rest name)
]

-- A table in which the rest of the names are still missing, and then stand.
record Fills (es : List (List ℕ × Tok)) (t t' : KeywordTable) : Type 0 where
  means :
      (j : List ℕ)
      → token_or tok_unknown (meaning string_keys t' j)
        ≡ token_or (token_or tok_unknown (meaning string_keys t j)) (find string_keys j es)

fill_lem :
    (malloc_ok : ℕ → Bool) (es : List (List ℕ × Tok)) (t : KeywordTable)
    → ((n : ℕ) → malloc_ok n ≡ true)
    → IsValid string_keys t
    → IsDistinct string_keys es
    → ((j : List ℕ) → find string_keys j es ≢ none → meaning string_keys t j ≡ none)
    → (t' : KeywordTable) × (keyword_table_fill malloc_ok es t ≡ ok t') × Fills es t t'
unfolding keyword_table_fill keyword_table_insert inserted
fill_lem malloc_ok [] t granted w d apart = (t, refl, record { means = λ j. (unfold find in refl) })
fill_lem malloc_ok ((name, id) ∷ rest) t granted w d apart =
    let new =
      apart name
        (λ n. cc (n, find_first string_keys name name id rest, cmpl_refl string_keys name)) in
    let (h, e, u, c) = (insert_unique-refines string_keys malloc_ok t name id granted w).0 new in
    let gone = λ (j : List ℕ) (s : same_str name j ≡ true).
      ap (λ i. find string_keys i rest) (sym ((same_str_iff name j).0 s)) ∙ d.0 in
    let later = λ (j : List ℕ) (n : find string_keys j rest ≢ none).
      let r : meaning string_keys h j ≡ none = elim (Bool-cases (same_str name j)) [
        | inl s ↦ absurd (n (gone j s))
        | inr s ↦
            u.means j
            ∙ rw s (apart j (λ m. n (sym (find_first string_keys j name id rest ∙ rw s) ∙ m)))
      ] in
      r in
    let (t', f, m) = fill_lem malloc_ok rest h granted u.valid d.1 later in
    (
      t',
      rw (e, keyword_table_insert, inserted) f,
      record {
        means = λ j.
            m.means j
            ∙ ap (λ o. token_or (token_or tok_unknown o) (find string_keys j rest)) (u.means j)
            ∙ elim (Bool-cases (same_str name j)) [
              | inl s ↦ rw (gone j s, find_first string_keys j name id rest, s) refl
              | inr s ↦ rw (find_first string_keys j name id rest, s) refl
            ];
      },
    )

distinct : IsDistinct string_keys keywords
unfolding find same_str
distinct =
    (refl, (refl, (refl, (refl, (refl, (refl, (refl, (refl, (refl, (refl, (refl, tt)))))))))))

keyword_table_lookup_lem :
    (t : KeywordTable) (name : List ℕ)
    → keyword_table_lookup t name ≡ token_or tok_unknown (meaning string_keys t name)
unfolding keyword_table_lookup
keyword_table_lookup_lem t name = elim (Option-cases (meaning string_keys t name)) [
  | inl e ↦ rw (found-lookup string_keys t name ∙ e, keyword_table_lookup, e) refl
  | inr (x, e) ↦ rw (found-lookup string_keys t name ∙ e, keyword_table_lookup, e) refl
]

-- With an allocator that never runs out keyword_table_init returns, and keyword_table_lookup then
-- gives every name the token that the list of keywords has for it, TOK_UNKNOWN for a name that is
-- not in the list.
pub keyword_table-keyword_of :
    (malloc_ok : ℕ → Bool)
    → ((n : ℕ) → malloc_ok n ≡ true)
    → (t : KeywordTable) × (keyword_table_init malloc_ok ≡ ok t)
      × ((name : List ℕ) → keyword_table_lookup t name ≡ keyword_of keywords name)
unfolding keyword_table_init
keyword_table-keyword_of malloc_ok granted =
    let (t, e, w, empty, _, _) = new_lem {V = Tok} string_keys malloc_ok 32 granted in
    let (t', f, m) = fill_lem malloc_ok keywords t granted w distinct (λ j _. empty j) in
    (
      t',
      rw (e, keyword_table_init) f,
      λ name.
          keyword_table_lookup_lem t' name
          ∙ m.means name
          ∙ ap (λ o. token_or (token_or tok_unknown o) (find string_keys name keywords))
              (empty name)
          ∙ keyword_of-find keywords name,
    )
