-- ===== src/Base/Bits.antt =====
-- `&` with a low mask and `|` of disjoint fields, as arithmetic, at every width.
use Prim.Native.Nat.{
  ℕ, zero, suc, ◌+◌, ◌-◌, ◌*◌, ◌/◌, ◌%◌, ◌^◌, ◌≤◌, ◌<◌, min, max, bit_and, bit_or, digits, bitwise,
  bit_and-bitwise, bit_or-bitwise,
}
use mathlib.Core.Path.{◌≡◌, refl, sym, ap, ◌∙◌}
use native.Mathlib.Omega.{arith}
use native.Mathlib.Nat.{le_refl, pow-suc, one-le-pow}

digits_none : (z : ℕ → ℕ) (f : ℕ → ℕ → ℕ) (n y : ℕ) → digits z f n 0 y ≡ z y
digits_none z f zero y = refl
digits_none z f (suc n) y = refl

-- `bitwise` has the first number as its fuel; `spare` more is not needed.
digits_spare :
    (z : ℕ → ℕ) (f : ℕ → ℕ → ℕ) (n spare x y : ℕ)
    → x ≤ n
    → digits z f (n + spare) x y ≡ digits z f n x y
digits_spare z f n spare zero y le = digits_none z f (n + spare) y ∙ sym (digits_none z f n y)
digits_spare z f zero spare (suc x) y le = absurd (omega arith)
digits_spare z f (suc n) spare (suc x) y le =
    let one_more : suc n + spare ≡ suc (n + spare) = omega arith in
    rw (one_more, digits_spare z f n spare (suc x / 2) (y / 2) (omega arith)) refl

-- The lowest digit of a number that is not zero.
lowest_digit :
    (z : ℕ → ℕ) (f : ℕ → ℕ → ℕ) (x y : ℕ)
    → bitwise z f (suc x) y ≡ bitwise z f (suc x / 2) (y / 2) * 2 + f (suc x % 2) (y % 2)
lowest_digit z f x y =
    let half = suc x / 2 in
    let all : half + (x - half) ≡ x = omega arith in
    let less = digits_spare z f half (x - half) half (y / 2) (le_refl half) in
    omega (arith, (rw all at less))

-- Both operations are read off the lowest digit and the rest.
pub bit_or_step : (x y : ℕ) → bit_or x y ≡ bit_or (x / 2) (y / 2) * 2 + max (x % 2) (y % 2)
bit_or_step x y = simp bit_or-bitwise (or_cases x)
  where
    or_cases :
        (n : ℕ)
        → bitwise (λ t. t) max n y ≡ bitwise (λ t. t) max (n / 2) (y / 2) * 2 + max (n % 2) (y % 2)
    or_cases zero = omega arith
    or_cases (suc n) = lowest_digit (λ t. t) max n y

pub bit_and_step : (x y : ℕ) → bit_and x y ≡ bit_and (x / 2) (y / 2) * 2 + min (x % 2) (y % 2)
bit_and_step x y = simp bit_and-bitwise (and_cases x)
  where
    and_cases :
        (n : ℕ)
        → bitwise (λ t. 0) min n y ≡ bitwise (λ t. 0) min (n / 2) (y / 2) * 2 + min (n % 2) (y % 2)
    and_cases zero = omega arith
    and_cases (suc n) = lowest_digit (λ t. 0) min n y

-- With the other number zero, on fuel.
none_below : (fuel x : ℕ) → x ≤ fuel → (bit_or x 0 ≡ x) × (bit_and x 0 ≡ 0)
none_below fuel zero le = (refl, refl)
none_below zero (suc x) le = absurd (omega arith)
none_below (suc fuel) (suc x) le =
    let (or_rest, and_rest) = none_below fuel (suc x / 2) (omega arith) in
    (omega (arith, bit_or_step (suc x) 0, or_rest), omega (arith, bit_and_step (suc x) 0, and_rest))

twice : (high k : ℕ) → high * 2 ^ suc k ≡ 2 * (high * 2 ^ k)
twice high k = ap (λ (t : ℕ). high * t) (pow-suc 2 k) ∙ omega arith

-- A field that is shifted above `low` is added to it.
pub bit_or-shifted : (k high low : ℕ) → low < 2 ^ k → bit_or (high * 2 ^ k) low ≡ high * 2 ^ k + low
bit_or-shifted zero high low h = ground (arith, (none_below high high (le_refl high)).0)
bit_or-shifted (suc k) high low h =
    let rest = bit_or-shifted k high (low / 2) (omega (arith, pow-suc 2 k)) in
    ground (arith, rest, twice high k, bit_or_step (high * 2 ^ suc k) low)

-- A mask of `k` low bits removes what stands above them.
masked : (k high low : ℕ) → low < 2 ^ k → bit_and (high * 2 ^ k + low) (2 ^ k - 1) ≡ low
masked zero high low h =
    let all = high * 1 + low in rw (none_below all all (le_refl all)).1 (omega arith)
masked (suc k) high low h =
    let rest = masked k high (low / 2) (omega (arith, pow-suc 2 k)) in
    let low_bit = bit_and_step (high * 2 ^ suc k + low) (2 ^ suc k - 1) in
    ground (arith, rest, low_bit, twice high k, pow-suc 2 k)

pub bit_and-mask : (k x : ℕ) → bit_and x (2 ^ k - 1) ≡ x % 2 ^ k
bit_and-mask k x =
    let positive = one-le-pow k 2 in ground (arith, positive, masked k (x / 2 ^ k) (x % 2 ^ k))

bit_or_comm_bound : (n a b : ℕ) → a ≤ n → b ≤ n → bit_or a b ≡ bit_or b a
bit_or_comm_bound zero zero zero p q = refl
bit_or_comm_bound zero zero (suc b) p q = absurd (omega arith)
bit_or_comm_bound zero (suc a) b p q = absurd (omega arith)
bit_or_comm_bound (suc n) a b p q = omega (
  arith,
  bit_or_step a b,
  bit_or_step b a,
  bit_or_comm_bound n (a / 2) (b / 2) (omega arith) (omega arith),
)

-- A field above `r` may also stand on the right of `|`.
pub bit_or_above : (k q r : ℕ) → r < 2 ^ k → bit_or r (q * 2 ^ k) ≡ q * 2 ^ k + r
bit_or_above k q r fits =
    bit_or_comm_bound (r + q * 2 ^ k) r (q * 2 ^ k) (omega arith) (omega arith)
    ∙ bit_or-shifted k q r fits

-- `|` of numbers of `k` bits has `k` bits.
pub bit_or-lt : (k a b : ℕ) → a < 2 ^ k → b < 2 ^ k → bit_or a b < 2 ^ k
bit_or-lt zero zero zero p q = omega arith
bit_or-lt zero zero (suc b) p q = absurd (omega arith)
bit_or-lt zero (suc a) b p q = absurd (omega arith)
bit_or-lt (suc k) a b p q = omega (
  arith,
  bit_or_step a b,
  pow-suc 2 k,
  bit_or-lt k (a / 2) (b / 2) (omega (arith, pow-suc 2 k)) (omega (arith, pow-suc 2 k)),
)
