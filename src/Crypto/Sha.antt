-- ===== src/Crypto/Sha.antt =====
-- What lib/crypto/sha1.c and lib/crypto/sha256.c have in common: the two files differ in the
-- compression function, the initial state and the number of words in the digest alone.
pub mod Refinement
use crypti.Base.{
  ℕ, ◌+◌, ◌-◌, ◌*◌, bit_and, bit_or, List, [], ◌∷◌, ◌++◌, ltb, leb, if◌then◌else◌, length, take,
  drop, get_or, replicate, u32, ◌<<<◌, ◌>>>◌, zero, suc,
}
use crypti.Crypto.Stream.{memcpy, transform_rest}

-- `struct sha1_context` and `struct sha256_context`; `count[0]` is the low word.
pub record Context (S : Type 0) : Type 0 where
  pub count0 : ℕ
  pub count1 : ℕ
  pub state : S
  pub buffer : List ℕ

-- `pad`
abbrev pub pad : List ℕ
pad = 0x80 ∷ replicate 63 0

-- `BE32_FROM_PTR(buffer + off)`
pub be32_from_ptr : List ℕ → ℕ → ℕ
be32_from_ptr buffer off = bit_or (get_or buffer off 0 <<< 24) (
    bit_or (get_or buffer (off + 1) 0 <<< 16)
      (bit_or (get_or buffer (off + 2) 0 <<< 8) (get_or buffer (off + 3) 0)))

-- `W[0]`, `W[1]`, ... from the byte at `off` on.
unfoldable pub load_words : ℕ → ℕ → List ℕ → List ℕ
unfolding be32_from_ptr
load_words zero off buffer = []
load_words (suc k) off buffer = be32_from_ptr buffer off ∷ load_words k (off + 4) buffer

-- `uint32_to_bytes`, high byte first
unfoldable pub uint32_to_bytes : List ℕ → List ℕ
uint32_to_bytes [] = []
uint32_to_bytes (w ∷ ws) =
    bit_and (w >>> 24) 0xff
    ∷ bit_and (w >>> 16) 0xff
    ∷ bit_and (w >>> 8) 0xff
    ∷ bit_and w 0xff
    ∷ uint32_to_bytes ws

-- `if (msglen > 0) memcpy(buffer + n, msg, msglen);`
pub save_rest : List ℕ → ℕ → List ℕ → List ℕ
save_rest buffer n msg = if ltb 0 (length msg) then memcpy buffer n msg else buffer

-- `((n < 56) ? 56 : 120) - n`
unfoldable pub pad_length : ℕ → ℕ
pad_length n = (if ltb n 56 then 56 else 120) - n

module _ {S : Type 0} (compress : S → List ℕ → S) where
  -- The part of the update that moves bytes.
  unfoldable pub absorb_guarded : S → List ℕ → ℕ → List ℕ → S × List ℕ
  unfolding save_rest
  absorb_guarded s buffer n msg =
      if leb (64 - n) (length msg)
      then (let filled = memcpy buffer n (take (64 - n) msg) in
          let (s', rest) =
            transform_rest compress (length msg) (compress s filled) (drop (64 - n) msg) in
          (s', save_rest filled 0 rest))
      else (s, save_rest buffer n msg)

  -- `sha1_update` and `sha256_update` with the `msglen` bytes at `msg`.
  unfoldable pub update : Context S → List ℕ → Context S
  update ctx msg =
      let msglen = length msg in
      let n = bit_and ctx.count0 0x3f in
      let count0' = u32 (ctx.count0 + msglen) in
      let (state', buffer') = absorb_guarded ctx.state ctx.buffer n msg in
      record {
        count0 = count0';
        count1 = if ltb count0' msglen then u32 (ctx.count1 + 1) else ctx.count1;
        state = state';
        buffer = buffer';
      }

  -- `sha1_final` and `sha256_final` up to the copy of the state: the context left behind.
  unfoldable pub finish : Context S → Context S
  finish ctx =
      let n = bit_and ctx.count0 0x3f in
      let nbits0 = u32 (u32 (ctx.count1 <<< 3) + ctx.count0 >>> 29) in
      let nbits1 = u32 (ctx.count0 <<< 3) in
      let nb = uint32_to_bytes (nbits0 ∷ nbits1 ∷ []) in
      let padded = update ctx (take (pad_length n) pad) in update padded nb
