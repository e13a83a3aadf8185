-- ===== src/Crypto/Md5/Refinement.antt =====
-- lib/crypto/md5.c: a context stands for the message that it has absorbed, and `md5_final`
-- gives the digest of RFC 1321.
use crypti.Base.Bits.{bit_and-mask}
use crypti.Base.{
  ℕ, ◌+◌, ◌*◌, ◌/◌, ◌%◌, ◌^◌, ◌≤◌, ◌<◌, ◌≡◌, refl, sym, ap, ◌∙◌, List, [], ◌∷◌, ◌++◌, append_assoc,
  arith, length, take, replicate, length-append, length-replicate, bit_and, ◌>>>◌, ◌<<<◌, u32,
  if◌then◌else◌, ltb, ltb→lt, Bool-cases, inl, inr,
}
use mathlib.Core.List.{flatten, append-nil}
use crypti.Crypto.Stream.{feed_all, feed_all-append}
use crypti.Crypto.Stream.Absorb.{absorb_lem}
use crypti.Crypto.Reference.{
  le_bytes, length-le_bytes, zeros, digest_state, feed_all-padded, take-pad,
}
use crypti.Crypto.Md5.{
  Context, uint32_to_bytes, transform, initial, context_init, update, pad_length, digest_bytes,
  final,
}

-- The context has absorbed `m`: the bit counter modulo 2 ^ 64, the state after the full blocks,
-- and the rest of `m` in front of the buffer.
pub record Absorbed (m : List ℕ) (ctx : Context) : Type 0 where
  pub low : ctx.nbits0 ≡ 8 * length m % 2 ^ 32
  pub high : ctx.nbits1 ≡ 8 * length m / 2 ^ 32 % 2 ^ 32
  pub size : length ctx.buffer ≡ 64
  pub fed : feed_all transform (initial, []) m ≡ (ctx.state, take (length m % 64) ctx.buffer)

pub context_init-Absorbed :
    (ctx : Context) → length ctx.buffer ≡ 64 → Absorbed [] (context_init ctx)
unfolding context_init
context_init-Absorbed ctx h = record {
  low = omega arith;
  high = omega arith;
  size = h;
  fed = unfold feed_all in refl;
}

-- The bytes in use, as the code reads them off the bit counter.
used :
    (m : List ℕ) (ctx : Context) → Absorbed m ctx → bit_and (ctx.nbits0 >>> 3) 0x3f ≡ length m % 64
used m ctx v = omega (arith, bit_and-mask 6 (ctx.nbits0 / 2 ^ 3), v.low)

counter_low :
    (lo l k t : ℕ) → t ≡ l + k → lo ≡ 8 * l % 2 ^ 32 → u32 (lo + u32 (k <<< 3)) ≡ 8 * t % 2 ^ 32
counter_low lo l k t e h = omega arith

-- The carry is found by the wrap of the low word.
counter_high :
    (lo hi l k t : ℕ)
    → k < 2 ^ 32
    → t ≡ l + k
    → lo ≡ 8 * l % 2 ^ 32
    → hi ≡ 8 * l / 2 ^ 32 % 2 ^ 32
    → u32 ((if ltb (u32 (lo + u32 (k <<< 3))) (u32 (k <<< 3)) then u32 (hi + 1) else hi) + k >>> 29)
      ≡ 8 * t / 2 ^ 32 % 2 ^ 32
counter_high lo hi l k t short e h g =
    elim (Bool-cases (ltb (u32 (lo + u32 (k <<< 3))) (u32 (k <<< 3)))) [
      | inl wrap ↦ rw wrap (omega (arith, ltb→lt _ _ wrap))
      | inr fits ↦
          let le : u32 (k <<< 3) ≤ u32 (lo + u32 (k <<< 3)) = ground arith in rw fits (omega arith)
    ]

pub update-Absorbed :
    (m : List ℕ) (ctx : Context) (msg : List ℕ)
    → length msg < 2 ^ 32
    → Absorbed m ctx
    → Absorbed (m ++ msg) (update ctx msg)
unfolding update
update-Absorbed m ctx msg short v =
    let len = length-append m msg in
    let n = used m ctx v in
    let (size, fed) =
      absorb_lem transform ctx.state ctx.buffer (length m % 64) msg v.size (omega arith) in
    let total : (length m % 64 + length msg) % 64 ≡ length (m ++ msg) % 64 = omega (arith, len) in
    record {
      low = counter_low ctx.nbits0 (length m) (length msg) (length (m ++ msg)) len v.low;
      high =
          counter_high ctx.nbits0 ctx.nbits1 (length m) (length msg) (length (m ++ msg)) short len
            v.low v.high;
      size = rw n size;
      fed =
          feed_all-append transform (initial, []) m msg
          ∙ ap (λ st. feed_all transform st msg) v.fed
          ∙ fed
          ∙ rw (n, total);
    }

-- `uint32_to_bytes` of the two words of the counter is the number in 8 bytes.
length_bytes :
    (lo hi b : ℕ)
    → lo ≡ b % 2 ^ 32
    → hi ≡ b / 2 ^ 32 % 2 ^ 32
    → uint32_to_bytes (lo ∷ hi ∷ []) ≡ le_bytes 8 b
unfolding uint32_to_bytes le_bytes
length_bytes lo hi b h g =
    rw
      (
        bit_and-mask 8 lo,
        bit_and-mask 8 (lo / 2 ^ 8),
        bit_and-mask 8 (lo / 2 ^ 16),
        bit_and-mask 8 (lo / 2 ^ 24),
        bit_and-mask 8 hi,
        bit_and-mask 8 (hi / 2 ^ 8),
        bit_and-mask 8 (hi / 2 ^ 16),
        bit_and-mask 8 (hi / 2 ^ 24),
      )
      (ground arith)

-- The digest that RFC 1321 gives the message `m`.
abbrev pub reference : List ℕ → List ℕ
reference m = digest_bytes (digest_state transform initial m (le_bytes 8 (8 * length m)))

pub final-Absorbed : (m : List ℕ) (ctx : Context) → Absorbed m ctx → (final ctx).1 ≡ reference m
unfolding final pad_length
final-Absorbed m ctx v =
    let l = length m in
    let pad : List ℕ = 0x80 ∷ replicate (zeros l) 0 in
    let len = le_bytes 8 (8 * l) in
    let short : length pad < 2 ^ 32 = omega (arith, length-replicate {0} {A = ℕ} (zeros l) 0) in
    let w =
      update-Absorbed (m ++ pad) (update ctx pad) len (omega (arith, length-le_bytes 8 (8 * l)))
        (update-Absorbed m ctx pad short v) in
    let e = ap (feed_all transform (initial, [])) (sym (append_assoc m pad len)) ∙ w.fed in
    rw (used m ctx v, take-pad l, length_bytes ctx.nbits0 ctx.nbits1 (8 * l) v.low v.high)
      (ap digest_bytes (
        ap (λ r. r.0)
          (sym e ∙ feed_all-padded transform initial m len (length-le_bytes 8 (8 * l)))))

-- A caller's updates in turn.
pub update_all : Context → List (List ℕ) → Context
update_all ctx [] = ctx
update_all ctx (msg ∷ msgs) = update_all (update ctx msg) msgs

abbrev pub AllShort : List (List ℕ) → Type 0
AllShort [] = Unit
AllShort (msg ∷ msgs) = (length msg < 2 ^ 32) × AllShort msgs

pub update_all-Absorbed :
    (m : List ℕ) (ctx : Context) (msgs : List (List ℕ))
    → AllShort msgs
    → Absorbed m ctx
    → Absorbed (m ++ flatten msgs) (update_all ctx msgs)
unfolding update_all flatten
update_all-Absorbed m ctx [] short v = rw append-nil v
update_all-Absorbed m ctx (msg ∷ msgs) short v = rw (← append_assoc m msg (flatten msgs)) (
    update_all-Absorbed (m ++ msg) (update ctx msg) msgs short.1
      (update-Absorbed m ctx msg short.0 v))

-- However a message is cut into updates of less than 2 ^ 32 bytes each, md5_context_init,
-- md5_update and md5_final give the RFC 1321 digest of the whole message (the fold of
-- md5_transform over its padded blocks), whatever 64 bytes the context buffer held.
pub md5_final-reference :
    (ctx : Context) (msgs : List (List ℕ))
    → length ctx.buffer ≡ 64
    → AllShort msgs
    → (final (update_all (context_init ctx) msgs)).1 ≡ reference (flatten msgs)
md5_final-reference ctx msgs size short =
    final-Absorbed (flatten msgs) _
      (update_all-Absorbed [] (context_init ctx) msgs short (context_init-Absorbed ctx size))
