-- ===== src/Crypto/Sha256/Tests.antt =====
-- SHA-256 at the message "abc", and its theorem at a concrete message.
use mathlib.Core.List.{flatten}
use crypti.Base.{◌≡◌, refl, [], ◌∷◌, ◌++◌, List, ℕ, replicate, arith}
use crypti.Crypto.Stream.{transform_rest}
use crypti.Crypto.Sha.{update, finish, absorb_guarded, pad_length, uint32_to_bytes}
use crypti.Crypto.Sha.Refinement.{update_all}
use crypti.Crypto.Sha256.{context_init, hash_block, final}
use crypti.Crypto.Sha256.Digest.{reference, sha256_final-reference}

sha256_abc :
    (final (update hash_block context_init (b'a' ∷ b'b' ∷ b'c' ∷ []))).1
    ≡ 0xba ∷ 0x78 ∷ 0x16 ∷ 0xbf ∷ 0x8f ∷ 0x01 ∷ 0xcf ∷ 0xea ∷ 0x41 ∷ 0x41 ∷ 0x40 ∷ 0xde ∷ 0x5d
      ∷ 0xae ∷ 0x22 ∷ 0x23 ∷ 0xb0 ∷ 0x03 ∷ 0x61 ∷ 0xa3 ∷ 0x96 ∷ 0x17 ∷ 0x7a ∷ 0x9c ∷ 0xb4 ∷ 0x10
      ∷ 0xff ∷ 0x61 ∷ 0xf2 ∷ 0x00 ∷ 0x15 ∷ 0xad ∷ []
unfolding final finish update absorb_guarded transform_rest pad_length uint32_to_bytes context_init
    hash_block
sha256_abc = refl

-- 70 bytes in three updates; the first block is filled by the second.
abbrev chunks : List (List ℕ)
chunks = replicate 60 b'x' ∷ replicate 9 b'y' ∷ (b'z' ∷ []) ∷ []

sha256_final-reference_example :
    (final (update_all hash_block context_init chunks)).1
    ≡ reference (replicate 60 b'x' ++ replicate 9 b'y' ++ b'z' ∷ [])
unfolding flatten
sha256_final-reference_example = sha256_final-reference chunks (omega arith)
