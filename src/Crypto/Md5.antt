-- ===== src/Crypto/Md5.antt =====
-- lib/crypto/md5.c: MD5 on `uint32_t` words, as on a little-endian machine without the
-- unaligned fetch (the bytes are put together one by one; the result is the same).
pub mod Refinement
mod Tests
use crypti.Base.{
  ℕ, zero, suc, ◌+◌, ◌-◌, ◌*◌, bit_and, bit_or, bit_xor, List, [], ◌∷◌, ◌++◌, ltb, if◌then◌else◌,
  length, take, get_or, replicate, u8, u32, not32, rol32, ◌<<<◌, ◌>>>◌,
}
use crypti.Crypto.Stream.{absorb}

-- `u_int32_t state[4]`
pub record State : Type 0 where
  pub a : ℕ
  pub b : ℕ
  pub c : ℕ
  pub d : ℕ

-- `struct md5_context`; `nbits[0]` is the low word.
pub record Context : Type 0 where
  pub nbits0 : ℕ
  pub nbits1 : ℕ
  pub state : State
  pub buffer : List ℕ

-- `md5pad`
abbrev pub md5pad : List ℕ
md5pad = 0x80 ∷ replicate 63 0

-- The four macros of a round operation.
data Round : Type 0 where
  ff gg hh ii : Round

-- `F`, `G`, `H` and `I`
mix : Round → ℕ → ℕ → ℕ → ℕ
mix ff x y z = bit_or (bit_and x y) (bit_and (not32 x) z)
mix gg x y z = bit_or (bit_and x z) (bit_and y (not32 z))
mix hh x y z = bit_xor (bit_xor x y) z
mix ii x y z = bit_xor y (bit_or x (not32 z))

-- The macro, the word of the block, the rotation and the constant.
data Step : Type 0 where
  step : Round → ℕ → ℕ → ℕ → Step

-- `FETCH_U32`
fetch_u32 : List ℕ → ℕ → ℕ
fetch_u32 block off = bit_or (get_or block off 0) (
    bit_or (get_or block (off + 1) 0 <<< 8)
      (bit_or (get_or block (off + 2) 0 <<< 16) (get_or block (off + 3) 0 <<< 24)))

-- `x[0]`, `x[1]`, ... from the byte at `off` on.
fetch_words : ℕ → ℕ → List ℕ → List ℕ
fetch_words zero off block = []
fetch_words (suc k) off block = fetch_u32 block off ∷ fetch_words k (off + 4) block

-- `uint32_to_bytes`, low byte first
pub uint32_to_bytes : List ℕ → List ℕ
uint32_to_bytes [] = []
uint32_to_bytes (w ∷ ws) =
    bit_and w 0xff
    ∷ bit_and (w >>> 8) 0xff
    ∷ bit_and (w >>> 16) 0xff
    ∷ bit_and (w >>> 24) 0xff
    ∷ uint32_to_bytes ws

-- The 64 operations in order. Each names the word that it changes first; that word moves one
-- place back each time, so here the four words are rotated instead.
abbrev steps : List Step
steps =
    step ff 0 7 0xd76aa478
    ∷ step ff 1 12 0xe8c7b756
    ∷ step ff 2 17 0x242070db
    ∷ step ff 3 22 0xc1bdceee
    ∷ step ff 4 7 0xf57c0faf
    ∷ step ff 5 12 0x4787c62a
    ∷ step ff 6 17 0xa8304613
    ∷ step ff 7 22 0xfd469501
    ∷ step ff 8 7 0x698098d8
    ∷ step ff 9 12 0x8b44f7af
    ∷ step ff 10 17 0xffff5bb1
    ∷ step ff 11 22 0x895cd7be
    ∷ step ff 12 7 0x6b901122
    ∷ step ff 13 12 0xfd987193
    ∷ step ff 14 17 0xa679438e
    ∷ step ff 15 22 0x49b40821
    ∷ step gg 1 5 0xf61e2562
    ∷ step gg 6 9 0xc040b340
    ∷ step gg 11 14 0x265e5a51
    ∷ step gg 0 20 0xe9b6c7aa
    ∷ step gg 5 5 0xd62f105d
    ∷ step gg 10 9 0x02441453
    ∷ step gg 15 14 0xd8a1e681
    ∷ step gg 4 20 0xe7d3fbc8
    ∷ step gg 9 5 0x21e1cde6
    ∷ step gg 14 9 0xc33707d6
    ∷ step gg 3 14 0xf4d50d87
    ∷ step gg 8 20 0x455a14ed
    ∷ step gg 13 5 0xa9e3e905
    ∷ step gg 2 9 0xfcefa3f8
    ∷ step gg 7 14 0x676f02d9
    ∷ step gg 12 20 0x8d2a4c8a
    ∷ step hh 5 4 0xfffa3942
    ∷ step hh 8 11 0x8771f681
    ∷ step hh 11 16 0x6d9d6122
    ∷ step hh 14 23 0xfde5380c
    ∷ step hh 1 4 0xa4beea44
    ∷ step hh 4 11 0x4bdecfa9
    ∷ step hh 7 16 0xf6bb4b60
    ∷ step hh 10 23 0xbebfbc70
    ∷ step hh 13 4 0x289b7ec6
    ∷ step hh 0 11 0xeaa127fa
    ∷ step hh 3 16 0xd4ef3085
    ∷ step hh 6 23 0x04881d05
    ∷ step hh 9 4 0xd9d4d039
    ∷ step hh 12 11 0xe6db99e5
    ∷ step hh 15 16 0x1fa27cf8
    ∷ step hh 2 23 0xc4ac5665
    ∷ step ii 0 6 0xf4292244
    ∷ step ii 7 10 0x432aff97
    ∷ step ii 14 15 0xab9423a7
    ∷ step ii 5 21 0xfc93a039
    ∷ step ii 12 6 0x655b59c3
    ∷ step ii 3 10 0x8f0ccc92
    ∷ step ii 10 15 0xffeff47d
    ∷ step ii 1 21 0x85845dd1
    ∷ step ii 8 6 0x6fa87e4f
    ∷ step ii 15 10 0xfe2ce6e0
    ∷ step ii 6 15 0xa3014314
    ∷ step ii 13 21 0x4e0811a1
    ∷ step ii 4 6 0xf7537e82
    ∷ step ii 11 10 0xbd3af235
    ∷ step ii 2 15 0x2ad7d2bb
    ∷ step ii 9 21 0xeb86d391
    ∷ []

-- One operation, `FF` to `II`: `a += mix(b, c, d) + x + C; a = ROL(a, n); a += b`.
run_step : List ℕ → State → Step → State
unfolding mix
run_step x s (step r k n c) =
    let sum = u32 (s.a + (mix r s.b s.c s.d + get_or x k 0 + c)) in
    record { a = s.d; b = u32 (rol32 sum n + s.b); c = s.b; d = s.c }

run_steps : List ℕ → State → List Step → State
unfolding run_step
run_steps x s [] = s
run_steps x s (t ∷ ts) = run_steps x (run_step x s t) ts

-- `md5_transform`
pub transform : State → List ℕ → State
unfolding run_steps fetch_words fetch_u32
transform s block =
    let r = run_steps (fetch_words 16 0 block) s steps in
    record { a = u32 (s.a + r.a); b = u32 (s.b + r.b); c = u32 (s.c + r.c); d = u32 (s.d + r.d) }

abbrev pub initial : State
initial = record { a = 0x67452301; b = 0xefcdab89; c = 0x98badcfe; d = 0x10325476 }

-- `md5_context_init`: the buffer keeps what it holds.
pub context_init : Context → Context
context_init ctx = record ctx { nbits0 = 0; nbits1 = 0; state = initial }

-- `md5_update` with the `msglen` bytes at `msg`.
pub update : Context → List ℕ → Context
update ctx msg =
    let msglen = length msg in
    let n = bit_and (ctx.nbits0 >>> 3) 0x3f in
    let nbits0' = u32 (ctx.nbits0 + u32 (msglen <<< 3)) in
    let carried = if ltb nbits0' (u32 (msglen <<< 3)) then u32 (ctx.nbits1 + 1) else ctx.nbits1 in
    let (state', buffer') = absorb transform ctx.state ctx.buffer n msg in
    record {
      nbits0 = nbits0';
      nbits1 = u32 (carried + msglen >>> 29);
      state = state';
      buffer = buffer';
    }

-- How many bytes of `md5pad` the end of the message takes.
pub pad_length : ℕ → ℕ
pad_length n = (if ltb n 56 then 56 else 120) - n

-- `uint32_to_bytes(digest, ctx->state, 4)`
abbrev pub digest_bytes : State → List ℕ
digest_bytes s = uint32_to_bytes (s.a ∷ s.b ∷ s.c ∷ s.d ∷ [])

-- `md5_final`: the context left behind and the digest.
pub final : Context → Context × List ℕ
final ctx =
    let n = bit_and (ctx.nbits0 >>> 3) 0x3f in
    let nbits = uint32_to_bytes (ctx.nbits0 ∷ ctx.nbits1 ∷ []) in
    let padded = update ctx (take (pad_length n) md5pad) in
    let done = update padded nbits in (done, digest_bytes done.state)
