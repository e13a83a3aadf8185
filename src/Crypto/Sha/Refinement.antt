-- ===== src/Crypto/Sha/Refinement.antt =====
-- lib/crypto/sha1.c and sha256.c: a context stands for the message that it has absorbed, and
-- the final function leaves the state of FIPS 180. The compression function is any.
use mathlib.Core.List.{flatten}
use crypti.Base.Bits.{bit_and-mask}
use crypti.Base.{
  ℕ, suc, ◌+◌, ◌*◌, ◌/◌, ◌%◌, ◌^◌, ◌<◌, ◌≡◌, sym, ap, ◌∙◌, List, [], ◌∷◌, ◌++◌, append_assoc,
  append-nil, arith, length, take, replicate, length-replicate, length-append, bit_and, ◌>>>◌,
  ◌<<<◌, u32, lt→ltb, take-append-drop,
}
use crypti.Crypto.Stream.{memcpy, absorb, feed_all, feed_all-append}
use crypti.Crypto.Stream.Absorb.{absorb_lem}
use crypti.Crypto.Reference.{
  be_bytes, length-be_bytes, zeros, digest_state, feed_all-padded, take-pad,
}
use crypti.Crypto.Sha.{
  Context, uint32_to_bytes, save_rest, pad_length, absorb_guarded, update, finish,
}

-- The guard on an empty rest makes no difference.
save_rest_lem :
    (buffer : List ℕ) (n : ℕ) (msg : List ℕ) → save_rest buffer n msg ≡ memcpy buffer n msg
unfolding save_rest
save_rest_lem buffer n [] =
    let e : n + 0 ≡ n = omega arith in rw e (sym (take-append-drop n buffer))
save_rest_lem buffer n (x ∷ msg) = rw (lt→ltb 0 (suc (length msg)) (omega arith))

-- `uint32_to_bytes` of the two words of a number is the number in 8 bytes.
two_words :
    (hi lo b : ℕ)
    → hi ≡ b / 2 ^ 32 % 2 ^ 32
    → lo ≡ b % 2 ^ 32
    → uint32_to_bytes (hi ∷ lo ∷ []) ≡ be_bytes 8 b
unfolding uint32_to_bytes be_bytes
two_words hi lo b h g =
    rw
      (
        bit_and-mask 8 (hi / 2 ^ 24),
        bit_and-mask 8 (hi / 2 ^ 16),
        bit_and-mask 8 (hi / 2 ^ 8),
        bit_and-mask 8 hi,
        bit_and-mask 8 (lo / 2 ^ 24),
        bit_and-mask 8 (lo / 2 ^ 16),
        bit_and-mask 8 (lo / 2 ^ 8),
        bit_and-mask 8 lo,
      )
      (ground arith)

length_bytes :
    (c0 c1 l : ℕ)
    → c0 ≡ l % 2 ^ 32
    → c1 ≡ l / 2 ^ 32 % 2 ^ 32
    → uint32_to_bytes (u32 (u32 (c1 <<< 3) + c0 >>> 29) ∷ u32 (c0 <<< 3) ∷ []) ≡ be_bytes 8 (8 * l)
length_bytes c0 c1 l h g = two_words _ _ (8 * l) (omega arith) (omega arith)

module _ {S : Type 0} (compress : S → List ℕ → S) where
  absorb_guarded_lem :
      (s : S) (buffer : List ℕ) (n : ℕ) (msg : List ℕ)
      → absorb_guarded compress s buffer n msg ≡ absorb compress s buffer n msg
  unfolding absorb_guarded absorb
  absorb_guarded_lem s buffer n msg = simp save_rest_lem

  -- The context has absorbed `m`: the byte counter modulo 2 ^ 64, the state after the full
  -- blocks, and the rest of `m` in front of the buffer.
  pub record Absorbed (init : S) (m : List ℕ) (ctx : Context S) : Type 0 where
    pub low : ctx.count0 ≡ length m % 2 ^ 32
    pub high : ctx.count1 ≡ length m / 2 ^ 32 % 2 ^ 32
    pub size : length ctx.buffer ≡ 64
    pub fed : feed_all compress (init, []) m ≡ (ctx.state, take (length m % 64) ctx.buffer)

  module _ (init : S) where
    used :
        (m : List ℕ) (ctx : Context S)
        → Absorbed init m ctx
        → bit_and ctx.count0 0x3f ≡ length m % 64
    used m ctx v = omega (arith, bit_and-mask 6 ctx.count0, v.low)

    pub update-Absorbed :
        (m : List ℕ) (ctx : Context S) (msg : List ℕ)
        → length msg < 2 ^ 32
        → Absorbed init m ctx
        → Absorbed init (m ++ msg) (update compress ctx msg)
    unfolding update
    update-Absorbed m ctx msg short v =
        let len = length-append m msg in
        let n = used m ctx v in
        let g = absorb_guarded_lem ctx.state ctx.buffer (length m % 64) msg in
        let (size, fed) =
          absorb_lem compress ctx.state ctx.buffer (length m % 64) msg v.size (omega arith) in
        let total : (length m % 64 + length msg) % 64 ≡ length (m ++ msg) % 64 =
          omega (arith, len) in
        record {
          low = omega (arith, len, v.low);
          high = ground (arith, len, v.low, v.high);
          size = rw (n, g) size;
          fed =
              feed_all-append compress (init, []) m msg
              ∙ ap (λ st. feed_all compress st msg) v.fed
              ∙ fed
              ∙ rw (n, g, total);
        }

    -- The state that the final function leaves after `m` has been absorbed.
    pub finish-Absorbed :
        (m : List ℕ) (ctx : Context S)
        → Absorbed init m ctx
        → (finish compress ctx).state ≡ digest_state compress init m (be_bytes 8 (8 * length m))
    unfolding finish pad_length
    finish-Absorbed m ctx v =
        let l = length m in
        let padding : List ℕ = 0x80 ∷ replicate (zeros l) 0 in
        let len = be_bytes 8 (8 * l) in
        let short : length padding < 2 ^ 32 =
          omega (arith, length-replicate {0} {A = ℕ} (zeros l) 0) in
        let w =
          update-Absorbed (m ++ padding) (update compress ctx padding) len
            (omega (arith, length-be_bytes 8 (8 * l))) (update-Absorbed m ctx padding short v) in
        let e = ap (feed_all compress (init, [])) (sym (append_assoc m padding len)) ∙ w.fed in
        rw (used m ctx v, take-pad l, length_bytes ctx.count0 ctx.count1 l v.low v.high)
          (ap (λ r. r.0) (sym e ∙ feed_all-padded compress init m len (length-be_bytes 8 (8 * l))))

  -- A caller's updates in turn.
  pub update_all : Context S → List (List ℕ) → Context S
  update_all ctx [] = ctx
  update_all ctx (msg ∷ msgs) = update_all (update compress ctx msg) msgs

abbrev pub AllShort : List (List ℕ) → Type 0
AllShort [] = Unit
AllShort (msg ∷ msgs) = (length msg < 2 ^ 32) × AllShort msgs

module _ {S : Type 0} (compress : S → List ℕ → S) (init : S) where
  pub update_all-Absorbed :
      (m : List ℕ) (ctx : Context S) (msgs : List (List ℕ))
      → AllShort msgs
      → Absorbed compress init m ctx
      → Absorbed compress init (m ++ flatten msgs) (update_all compress ctx msgs)
  unfolding update_all flatten
  update_all-Absorbed m ctx [] short v = rw append-nil v
  update_all-Absorbed m ctx (msg ∷ msgs) short v = rw (← append_assoc m msg (flatten msgs)) (
      update_all-Absorbed (m ++ msg) (update compress ctx msg) msgs short.1
        (update-Absorbed compress init m ctx msg short.0 v))
