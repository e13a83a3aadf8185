-- ===== src/Crypto/Sha256.antt =====
-- lib/crypto/sha256.c: SHA-256 on `uint32_t` words.
pub mod Digest
mod Tests
use crypti.Base.{
  ℕ, zero, suc, ◌+◌, ◌-◌, ◌*◌, ◌/◌, ◌%◌, ◌^◌, bit_and, bit_or, bit_xor, List, [], ◌∷◌, ◌++◌, get_or,
  replicate, u32, not32, ◌<<<◌, ◌>>>◌,
}
use crypti.Crypto.Sha.{Context, load_words, uint32_to_bytes, finish}

-- `uint32_t state[8]`
pub record State : Type 0 where
  pub a : ℕ
  pub b : ℕ
  pub c : ℕ
  pub d : ℕ
  pub e : ℕ
  pub f : ℕ
  pub g : ℕ
  pub h : ℕ

-- `K00` to `K63`
abbrev constants : List ℕ
constants =
    0x428a2f98 ∷ 0x71374491 ∷ 0xb5c0fbcf ∷ 0xe9b5dba5 ∷ 0x3956c25b ∷ 0x59f111f1 ∷ 0x923f82a4
    ∷ 0xab1c5ed5 ∷ 0xd807aa98 ∷ 0x12835b01 ∷ 0x243185be ∷ 0x550c7dc3 ∷ 0x72be5d74 ∷ 0x80deb1fe
    ∷ 0x9bdc06a7 ∷ 0xc19bf174 ∷ 0xe49b69c1 ∷ 0xefbe4786 ∷ 0x0fc19dc6 ∷ 0x240ca1cc ∷ 0x2de92c6f
    ∷ 0x4a7484aa ∷ 0x5cb0a9dc ∷ 0x76f988da ∷ 0x983e5152 ∷ 0xa831c66d ∷ 0xb00327c8 ∷ 0xbf597fc7
    ∷ 0xc6e00bf3 ∷ 0xd5a79147 ∷ 0x06ca6351 ∷ 0x14292967 ∷ 0x27b70a85 ∷ 0x2e1b2138 ∷ 0x4d2c6dfc
    ∷ 0x53380d13 ∷ 0x650a7354 ∷ 0x766a0abb ∷ 0x81c2c92e ∷ 0x92722c85 ∷ 0xa2bfe8a1 ∷ 0xa81a664b
    ∷ 0xc24b8b70 ∷ 0xc76c51a3 ∷ 0xd192e819 ∷ 0xd6990624 ∷ 0xf40e3585 ∷ 0x106aa070 ∷ 0x19a4c116
    ∷ 0x1e376c08 ∷ 0x2748774c ∷ 0x34b0bcb5 ∷ 0x391c0cb3 ∷ 0x4ed8aa4a ∷ 0x5b9cca4f ∷ 0x682e6ff3
    ∷ 0x748f82ee ∷ 0x78a5636f ∷ 0x84c87814 ∷ 0x8cc70208 ∷ 0x90befffa ∷ 0xa4506ceb ∷ 0xbef9a3f7
    ∷ 0xc67178f2 ∷ []

-- `ROR32`
abbrev ror32 : ℕ → ℕ → ℕ
ror32 x n = bit_or (x >>> n) (u32 (x <<< (32 - n)))

-- `CH` and `MAJ`
ch : ℕ → ℕ → ℕ → ℕ
ch x y z = bit_xor (bit_and x y) (bit_and (not32 x) z)

maj : ℕ → ℕ → ℕ → ℕ
maj x y z = bit_xor (bit_xor (bit_and x y) (bit_and x z)) (bit_and y z)

-- `BSIG0`, `BSIG1`, `SSIG0` and `SSIG1`
bsig0 : ℕ → ℕ
bsig0 x = bit_xor (bit_xor (ror32 x 2) (ror32 x 13)) (ror32 x 22)

bsig1 : ℕ → ℕ
bsig1 x = bit_xor (bit_xor (ror32 x 6) (ror32 x 11)) (ror32 x 25)

ssig0 : ℕ → ℕ
ssig0 x = bit_xor (bit_xor (ror32 x 7) (ror32 x 18)) (x >>> 3)

ssig1 : ℕ → ℕ
ssig1 x = bit_xor (bit_xor (ror32 x 17) (ror32 x 19)) (x >>> 10)

-- `W[t] = SSIG1(W[t-2]) + W[t-7] + SSIG0(W[t-15]) + W[t-16]` for `k` rounds from `t` on.
expand : ℕ → ℕ → List ℕ → List ℕ
unfolding ssig0 ssig1
expand zero t w = w
expand (suc k) t w =
    let x =
      ssig1 (get_or w (t - 2) 0)
      + get_or w (t - 7) 0
      + ssig0 (get_or w (t - 15) 0)
      + get_or w (t - 16) 0 in
    expand k (t + 1) (w ++ u32 x ∷ [])

-- `SHA256_BASIC` of round `t`.
run_round : List ℕ → ℕ → State → State
unfolding bsig0 bsig1 ch maj
run_round w t s =
    let t1 = u32 (s.h + bsig1 s.e + ch s.e s.f s.g + get_or constants t 0 + get_or w t 0) in
    let t2 = u32 (bsig0 s.a + maj s.a s.b s.c) in
    record {
      a = u32 (t1 + t2);
      b = s.a;
      c = s.b;
      d = s.c;
      e = u32 (s.d + t1);
      f = s.e;
      g = s.f;
      h = s.g;
    }

-- `k` rounds from round `t` on.
run_rounds : List ℕ → ℕ → ℕ → State → State
unfolding run_round
run_rounds w zero t s = s
run_rounds w (suc k) t s = run_rounds w k (t + 1) (run_round w t s)

-- `sha256_hash`
pub hash_block : State → List ℕ → State
unfolding run_rounds expand load_words
hash_block s buffer =
    let w = expand 48 16 (load_words 16 0 buffer) in
    let r = run_rounds w 64 0 s in
    record {
      a = u32 (s.a + r.a);
      b = u32 (s.b + r.b);
      c = u32 (s.c + r.c);
      d = u32 (s.d + r.d);
      e = u32 (s.e + r.e);
      f = u32 (s.f + r.f);
      g = u32 (s.g + r.g);
      h = u32 (s.h + r.h);
    }

abbrev pub initial : State
initial = record {
  a = 0x6a09e667;
  b = 0xbb67ae85;
  c = 0x3c6ef372;
  d = 0xa54ff53a;
  e = 0x510e527f;
  f = 0x9b05688c;
  g = 0x1f83d9ab;
  h = 0x5be0cd19;
}

-- `sha256_context_init`
pub context_init : Context State
context_init = record { count0 = 0; count1 = 0; state = initial; buffer = replicate 64 0 }

-- `uint32_to_bytes(digest, ctx->state, 8)`
abbrev pub digest_bytes : State → List ℕ
digest_bytes s = uint32_to_bytes (s.a ∷ s.b ∷ s.c ∷ s.d ∷ s.e ∷ s.f ∷ s.g ∷ s.h ∷ [])

-- `sha256_final`: the context left behind and the digest.
pub final : Context State → Context State × List ℕ
final ctx = let done = finish hash_block ctx in (done, digest_bytes done.state)
