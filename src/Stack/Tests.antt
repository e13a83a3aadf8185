-- ===== src/Stack/Tests.antt =====
-- A stack of four places with one element.
use crypti.Run.{die, ◌>>=◌, Returns}
use crypti.Base.{◌≡◌, refl, [], ◌∷◌, arith}
use crypti.Stack.{Stack, push, push_n, pop, flush}
use crypti.Stack.Order.{IsValid, contents, Pushed, pop-push, push_n_full}

abbrev one_held : Stack
one_held = record { cur = 1; sz = 4; arr = 70 ∷ 0 ∷ 0 ∷ 0 ∷ [] }

one_held-IsValid : IsValid one_held
one_held-IsValid = record { memory = omega arith; below = omega arith }

pop-push_example :
    Returns
      (push one_held 80 >>= pop)
      λ r. (r.0 ≡ 80) × IsValid r.1 × (contents r.1 ≡ contents one_held)
pop-push_example = pop-push one_held 80 one_held-IsValid (omega arith) (omega arith)

push_n_full_example :
    Returns
      (push_n one_held (80 ∷ 90 ∷ []))
      (λ t. Pushed one_held (80 ∷ 90 ∷ []) t × (pop t ≡ die) × (push t 99 ≡ die) × (flush t ≡ die))
push_n_full_example =
    push_n_full one_held (80 ∷ 90 ∷ []) 99 one_held-IsValid (omega arith, (omega arith, tt))
      (omega arith) refl
