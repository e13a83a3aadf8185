-- ===== src/Keyword/Tests.antt =====
-- The table of keywords with an allocator that never runs out.
use crypti.Run.{ok}
use crypti.Base.{ℕ, ◌≡◌, refl, true, List}
use crypti.Keyword.{KeywordTable, keywords, keyword_table_init, keyword_table_lookup, keyword_of}
use crypti.Keyword.Fill.{keyword_table-keyword_of}

keyword_table-keyword_of_example :
    (t : KeywordTable) × (keyword_table_init (λ n. true) ≡ ok t)
    × ((name : List ℕ) → keyword_table_lookup t name ≡ keyword_of keywords name)
keyword_table-keyword_of_example = keyword_table-keyword_of (λ n. true) λ n. refl
