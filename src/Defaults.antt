-- ===== src/Defaults.antt =====
-- src/defaults.c: the hash and the comparison of C strings, which are their bytes up to the NUL.
-- src/keyword.c and src/array.c have copies of both.
use crypti.Base.{
  ℕ, ◌+◌, ◌-◌, ◌*◌, ◌^◌, ◌≡◌, refl, ◌↔◌, Bool, true, false, ◌&&◌, List, [], ◌∷◌, ltb, ◌==◌,
  if◌then◌else◌, arith, u32,
}
use crypti.Hash.{Keys}

-- A `char` as an `int` of 32 bits.
unfoldable pub widen : ℕ → ℕ
widen c = if ltb c 128 then c else c + 2 ^ 32 - 256

-- `res = res * mult + s[i]` over the string, which wraps.
unfoldable pub hash_loop : ℕ → List ℕ → ℕ
unfolding widen
hash_loop res [] = res
hash_loop res (c ∷ s) = hash_loop (u32 (res * 31 + widen c)) s

-- `default_hash_cb`; the `int` becomes an `unsigned long`.
unfoldable pub default_hash_cb : List ℕ → ℕ
unfolding hash_loop
default_hash_cb s =
    let res = hash_loop 0 s in if ltb res (2 ^ 31) then res else res + 2 ^ 64 - 2 ^ 32

-- `default_hash_compare(a, b) == 0`
unfoldable pub same_str : List ℕ → List ℕ → Bool
same_str [] [] = true
same_str [] (y ∷ b) = false
same_str (x ∷ a) [] = false
same_str (x ∷ a) (y ∷ b) = x == y && same_str a b

pub same_str_iff : (a b : List ℕ) → (same_str a b ≡ true) ↔ (a ≡ b)
unfolding same_str
same_str_iff [] [] = (λ h. refl, λ h. refl)
same_str_iff [] (y ∷ b) = (λ h. cc, λ h. cc)
same_str_iff (x ∷ a) [] = (λ h. cc, λ h. cc)
same_str_iff (x ∷ a) (y ∷ b) =
    (λ h. ground (arith, same_str_iff a b), λ h. ground (arith, same_str_iff a b))

abbrev pub string_keys : Keys (List ℕ)
string_keys = record { hash_cb = default_hash_cb; cmpl_cb = same_str; cmpl_iff = same_str_iff }
