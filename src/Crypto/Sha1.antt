-- ===== src/Crypto/Sha1.antt =====
-- lib/crypto/sha1.c: SHA-1 on `u_int32_t` words.
pub mod Digest
mod Tests
use crypti.Base.{
  ℕ, zero, suc, ◌+◌, ◌-◌, bit_and, bit_or, bit_xor, List, [], ◌∷◌, ◌++◌, ltb, if◌then◌else◌, get_or,
  replicate, u32, not32, rol32,
}
use crypti.Crypto.Sha.{Context, load_words, uint32_to_bytes, finish}

-- `u_int32_t state[5]`
pub record State : Type 0 where
  pub a : ℕ
  pub b : ℕ
  pub c : ℕ
  pub d : ℕ
  pub e : ℕ

-- `W[t] = ROL32(W[t-3] ^ W[t-8] ^ W[t-14] ^ W[t-16], 1)` for `k` rounds from `t` on.
expand : ℕ → ℕ → List ℕ → List ℕ
expand zero t w = w
expand (suc k) t w =
    let x =
      bit_xor (bit_xor (bit_xor (get_or w (t - 3) 0) (get_or w (t - 8) 0)) (get_or w (t - 14) 0))
        (get_or w (t - 16) 0) in
    expand k (t + 1) (w ++ rol32 x 1 ∷ [])

-- `T0`, `T1` and `T2`
choose : ℕ → ℕ → ℕ → ℕ
choose b c d = bit_or (bit_and b c) (bit_and (not32 b) d)

parity : ℕ → ℕ → ℕ → ℕ
parity b c d = bit_xor (bit_xor b c) d

majority : ℕ → ℕ → ℕ → ℕ
majority b c d = bit_or (bit_or (bit_and b c) (bit_and b d)) (bit_and c d)

-- What the macros `AA`, `BB`, `CC` and `DD` of round `t` take for the mixed word and the constant.
mixed : ℕ → State → ℕ
unfolding choose parity majority
mixed t s =
    if ltb t 20
    then choose s.b s.c s.d + s.e + 0x5a827999
    else if ltb t 40
    then parity s.b s.c s.d + s.e + 0x6ed9eba1
    else if ltb t 60
    then majority s.b s.c s.d + s.e + 0x8f1bbcdc
    else parity s.b s.c s.d + s.e + 0xca62c1d6

-- One macro.
run_round : List ℕ → ℕ → State → State
unfolding mixed
run_round w t s =
    let tmp = u32 (rol32 s.a 5 + mixed t s + get_or w t 0) in
    record { a = tmp; b = s.a; c = rol32 s.b 30; d = s.c; e = s.d }

-- `k` rounds from round `t` on.
run_rounds : List ℕ → ℕ → ℕ → State → State
unfolding run_round
run_rounds w zero t s = s
run_rounds w (suc k) t s = run_rounds w k (t + 1) (run_round w t s)

-- `sha1_hash`
pub hash_block : State → List ℕ → State
unfolding run_rounds expand load_words
hash_block s buffer =
    let w = expand 64 16 (load_words 16 0 buffer) in
    let r = run_rounds w 80 0 s in
    record {
      a = u32 (s.a + r.a);
      b = u32 (s.b + r.b);
      c = u32 (s.c + r.c);
      d = u32 (s.d + r.d);
      e = u32 (s.e + r.e);
    }

abbrev pub initial : State
initial = record { a = 0x67452301; b = 0xefcdab89; c = 0x98badcfe; d = 0x10325476; e = 0xc3d2e1f0 }

-- `sha1_context_init`
pub context_init : Context State
context_init = record { count0 = 0; count1 = 0; state = initial; buffer = replicate 64 0 }

-- `uint32_to_bytes(digest, ctx->state, 5)`
abbrev pub digest_bytes : State → List ℕ
digest_bytes s = uint32_to_bytes (s.a ∷ s.b ∷ s.c ∷ s.d ∷ s.e ∷ [])

-- `sha1_final`: the context left behind and the digest.
pub final : Context State → Context State × List ℕ
final ctx = let done = finish hash_block ctx in (done, digest_bytes done.state)
