-- ===== src/Base/Word.antt =====
-- The casts to the fixed widths of C, and the shifts and the complement of `uint32_t`.
use Prim.Native.Nat.{ℕ, ◌-◌, ◌*◌, ◌/◌, ◌%◌, ◌^◌, bit_or}

abbrev pub u8 : ℕ → ℕ
u8 n = n % 2 ^ 8

abbrev pub u32 : ℕ → ℕ
u32 n = n % 2 ^ 32

infixl 75 ◌<<<◌ ◌>>>◌
abbrev pub ◌<<<◌ : ℕ → ℕ → ℕ
x <<< k = x * 2 ^ k

abbrev pub ◌>>>◌ : ℕ → ℕ → ℕ
x >>> k = x / 2 ^ k

-- `~x` on a word that is below 2 ^ 32.
abbrev pub not32 : ℕ → ℕ
not32 x = 2 ^ 32 - 1 - x

-- `((x) << (n)) | ((x) >> (32 - (n)))`
abbrev pub rol32 : ℕ → ℕ → ℕ
rol32 x n = bit_or (u32 (x <<< n)) (x >>> (32 - n))
