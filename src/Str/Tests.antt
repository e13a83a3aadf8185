-- ===== src/Str/Tests.antt =====
-- Concatenations of small strings.
use crypti.Run.{die, Ensures}
use crypti.Base.{ℕ, ◌≡◌, ◌≢◌, ◌++◌, arith, length, replicate}
use crypti.Buffer.Valid.{contents}
use crypti.Buffer.Copy.{Replaced}
use crypti.Buffer.Tests.{zero_alloc, two_held, two_held-IsValid, empty_held-IsValid, pair}
use crypti.Str.{str_concat, octstr_concat}
use crypti.Str.Concat.{str_concat-Replaced, octstr_concat-Replaced, str_concat_self}

str_concat-Replaced_example :
    Ensures
      (str_concat zero_alloc pair 0 1 2)
      (Replaced pair 0 (contents two_held ++ contents two_held))
str_concat-Replaced_example =
    str_concat-Replaced zero_alloc pair 0 1 2 empty_held-IsValid two_held-IsValid two_held-IsValid
      (omega arith) (omega arith)

octstr_concat-Replaced_example :
    (◌≢◌ {A = ℕ} 1 0
      → Ensures
          (octstr_concat zero_alloc pair 0 1 1)
          (Replaced pair 0 (contents two_held ++ contents two_held)))
    × (◌≡◌ {A = ℕ} 1 0 → octstr_concat zero_alloc pair 0 1 1 ≡ die)
octstr_concat-Replaced_example =
    octstr_concat-Replaced zero_alloc pair 0 1 1 empty_held-IsValid two_held-IsValid
      two_held-IsValid (omega arith)

str_concat_self_example :
    Ensures
      (str_concat zero_alloc pair 1 1 2)
      (Replaced pair 1 (replicate (length (contents two_held)) 0 ++ contents two_held))
str_concat_self_example =
    str_concat_self zero_alloc pair 1 2 two_held-IsValid two_held-IsValid (omega arith)
