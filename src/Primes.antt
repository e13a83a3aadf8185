-- ===== src/Primes.antt =====
-- src/primes.c: the sizes of hash tables.
use crypti.Base.{ℕ, ◌<◌, ◌≤◌, List, [], ◌∷◌, leb, if◌then◌else◌, arith}

abbrev pub prime_numbers : List ℕ
prime_numbers =
    5 ∷ 11 ∷ 19 ∷ 37 ∷ 73 ∷ 109 ∷ 163 ∷ 251 ∷ 367 ∷ 557 ∷ 823 ∷ 1237 ∷ 1861 ∷ 2777 ∷ 4177 ∷ 6247
    ∷ 9371 ∷ 14057 ∷ 21089 ∷ 31627 ∷ 47431 ∷ 71143 ∷ 106721 ∷ 160073 ∷ 240101 ∷ 360163 ∷ 540217
    ∷ 810343 ∷ 1215497 ∷ 1823231 ∷ 2734867 ∷ 4102283 ∷ 6153409 ∷ 9230113 ∷ 13845163 ∷ []

-- The loop; behind it, the last number of the table.
pub first_from : ℕ → List ℕ → ℕ
first_from size [] = 13845163
first_from size (p ∷ ps) = if leb size p then p else first_from size ps

pub prime_nearest : ℕ → ℕ
prime_nearest size = first_from size prime_numbers

AllPositive : List ℕ → Type 0
AllPositive [] = Unit
AllPositive (p ∷ ps) = (0 < p) × AllPositive ps

first_from-pos : (size : ℕ) (ps : List ℕ) → AllPositive ps → 0 < first_from size ps
unfolding first_from AllPositive
first_from-pos size [] h = omega arith
first_from-pos size (p ∷ ps) h = ground (arith, first_from-pos size ps)

pub prime_nearest-pos : (size : ℕ) → 0 < prime_nearest size
unfolding prime_nearest AllPositive
prime_nearest-pos size = first_from-pos size prime_numbers (omega arith)

first_from-le : (size : ℕ) (ps : List ℕ) → size ≤ 13845163 → size ≤ first_from size ps
unfolding first_from
first_from-le size [] h = h
first_from-le size (p ∷ ps) h = ground (arith, first_from-le size ps)

-- Up to the last number of the table, the size that is given is large enough.
pub prime_nearest-le : (size : ℕ) → size ≤ 13845163 → size ≤ prime_nearest size
unfolding prime_nearest
prime_nearest-le size h = first_from-le size prime_numbers h
