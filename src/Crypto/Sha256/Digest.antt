-- ===== src/Crypto/Sha256/Digest.antt =====
-- lib/crypto/sha256.c: the digest is that of FIPS 180, however the message is cut into updates.
use mathlib.Core.List.{flatten}
use crypti.Base.{ℕ, ◌*◌, ◌≡◌, refl, ap, List, [], arith, length}
use crypti.Crypto.Stream.{feed_all}
use crypti.Crypto.Reference.{be_bytes, digest_state}
use crypti.Crypto.Sha.{Context}
use crypti.Crypto.Sha.Refinement.{
  Absorbed, finish-Absorbed, update_all, AllShort, update_all-Absorbed,
}
use crypti.Crypto.Sha256.{State, hash_block, initial, context_init, digest_bytes, final}

pub context_init-Absorbed : Absorbed hash_block initial [] context_init
unfolding context_init
context_init-Absorbed = record {
  low = omega arith;
  high = omega arith;
  size = refl;
  fed = unfold feed_all in refl;
}

-- The digest that FIPS 180 gives the message `m`.
abbrev pub reference : List ℕ → List ℕ
reference m = digest_bytes (digest_state hash_block initial m (be_bytes 8 (8 * length m)))

pub final-Absorbed :
    (m : List ℕ) (ctx : Context State)
    → Absorbed hash_block initial m ctx
    → (final ctx).1 ≡ reference m
unfolding final
final-Absorbed m ctx v = ap digest_bytes (finish-Absorbed hash_block initial m ctx v)

-- However a message is cut into updates of less than 2 ^ 32 bytes each, sha256_final gives the
-- FIPS 180 digest of the whole message: the fold of sha256_hash over its padded blocks.
pub sha256_final-reference :
    (msgs : List (List ℕ))
    → AllShort msgs
    → (final (update_all hash_block context_init msgs)).1 ≡ reference (flatten msgs)
sha256_final-reference msgs short =
    final-Absorbed (flatten msgs) _
      (update_all-Absorbed hash_block initial [] context_init msgs short context_init-Absorbed)
