-- ===== src/CryptHashes/Tests.antt =====
-- A digest in an empty table of contexts, and more contexts than it takes.
use mathlib.Core.List.{flatten}
use crypti.Run.{ok}
use crypti.Base.{
  ℕ, zero, suc, ◌%◌, ◌<◌, ◌≡◌, refl, ap, Bool, true, false, none, some, List, [], ◌∷◌, arith,
  replicate, get_or, take,
}
use crypti.Hash.{Chain, slot, answer, lookup}
use crypti.Hash.Slots.{total, excess}
use crypti.Defaults.{string_keys, widen, hash_loop, default_hash_cb, same_str}
use crypti.Crypto.Md5
use crypti.Crypto.Md5.Refinement.{reference}
use crypti.CryptHashes.{HashCtx, CtxTable, hash_update, begin_each, session}
use crypti.CryptHashes.Session.{IsRegistry, context, session-reference}
use crypti.CryptHashes.Limit.{among, AllFree, Opened, begin_each-Opened}
use crypti.CryptHashes.Algorithms.{md5_algorithm, Md5Holds, md5-Lawful}

abbrev always : ℕ → Bool
always n = true

-- The memory of a new context is not cleared.
abbrev fresh : Md5.Context
fresh = record {
  state = record { a = 1; b = 2; c = 3; d = 4 };
  buffer = replicate 64 7;
  nbits0 = 5;
  nbits1 = 6;
}

abbrev no_contexts : CtxTable
no_contexts = record {
  hash = record { arr = [] ∷ [] ∷ []; size = 2; count = 0; collision = 0 };
  count = 0;
}

no_contexts-IsRegistry : IsRegistry no_contexts
unfolding total excess
no_contexts-IsRegistry = record {
  valid = record {
    filled = record {
      positive = omega arith;
      slots = refl;
      placed = ((tt, tt), ((tt, tt), tt));
      counted = refl;
    };
    counted = refl;
  };
  counted = refl;
}

x_absent : context no_contexts (b'x' ∷ []) ≡ none
unfolding lookup slot answer default_hash_cb hash_loop widen
x_absent = refl

session-reference_example :
    (t : CtxTable) × (session
        (md5_algorithm fresh)
        always
        no_contexts
        (b'x' ∷ [])
        ((1 ∷ 2 ∷ []) ∷ (3 ∷ []) ∷ [])
      ≡ ok (0, some (reference (flatten ((1 ∷ 2 ∷ []) ∷ (3 ∷ []) ∷ []))), t))
    × IsRegistry t
    × ((j : List ℕ) → context t j ≡ context no_contexts j)
    × (t.count ≡ no_contexts.count)
session-reference_example =
    session-reference (md5_algorithm fresh) Md5Holds reference (md5-Lawful fresh refl) no_contexts
      (b'x' ∷ []) always ((1 ∷ 2 ∷ []) ∷ (3 ∷ []) ∷ []) (λ n. refl) no_contexts-IsRegistry
      (omega arith) x_absent (omega arith, (omega arith, tt))

-- Names of one byte, the last number first.
names : ℕ → List (List ℕ)
names zero = []
names (suc n) = (suc n ∷ []) ∷ names n

other_names : (n m : ℕ) → n < m → among (m ∷ []) (names n) ≡ false
unfolding among names same_str
other_names zero m h = refl
other_names (suc n) m h = ground (arith, other_names n m (omega arith))

empty_slot : (n : ℕ) → get_or {A = Chain (List ℕ) HashCtx} ([] ∷ [] ∷ []) n [] ≡ []
empty_slot zero = refl
empty_slot (suc zero) = refl
empty_slot (suc (suc n)) = refl

no_context : (j : List ℕ) → context no_contexts j ≡ none
unfolding lookup slot answer
no_context j =
    ap (λ c. (answer {V = HashCtx} string_keys j c).1) (empty_slot (default_hash_cb j % 2))

names-AllFree : (n : ℕ) → AllFree no_contexts (names n)
unfolding names
names-AllFree zero = tt
names-AllFree (suc n) =
    (no_context (suc n ∷ []), other_names n (suc n) (omega arith), names-AllFree n)

-- Forty digests in an empty table.
begin_each-Opened_example :
    (t' : CtxTable) × (begin_each (md5_algorithm fresh) always no_contexts (names 40) ≡ ok (0, t'))
    × Opened (md5_algorithm fresh) no_contexts (take 32 (names 40)) t'
    × ((j bytes : List ℕ)
        → among j (names 40) ≡ true
        → among j (take 32 (names 40)) ≡ false
        → hash_update (md5_algorithm fresh) t' j bytes ≡ (1, t'))
begin_each-Opened_example =
    begin_each-Opened (md5_algorithm fresh) always no_contexts (names 40) (λ n. refl)
      no_contexts-IsRegistry (omega arith) (names-AllFree 40)
