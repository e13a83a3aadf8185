-- ===== src/Crypto/Sha1/Tests.antt =====
-- SHA-1 at the message "abc", and its theorem at a concrete message.
use mathlib.Core.List.{flatten}
use crypti.Base.{◌≡◌, refl, [], ◌∷◌, ◌++◌, List, ℕ, replicate, arith}
use crypti.Crypto.Stream.{transform_rest}
use crypti.Crypto.Sha.{update, finish, absorb_guarded, pad_length, uint32_to_bytes}
use crypti.Crypto.Sha.Refinement.{update_all}
use crypti.Crypto.Sha1.{context_init, hash_block, final}
use crypti.Crypto.Sha1.Digest.{reference, sha1_final-reference}

sha1_abc :
    (final (update hash_block context_init (b'a' ∷ b'b' ∷ b'c' ∷ []))).1
    ≡ 0xa9 ∷ 0x99 ∷ 0x3e ∷ 0x36 ∷ 0x47 ∷ 0x06 ∷ 0x81 ∷ 0x6a ∷ 0xba ∷ 0x3e ∷ 0x25 ∷ 0x71 ∷ 0x78
      ∷ 0x50 ∷ 0xc2 ∷ 0x6c ∷ 0x9c ∷ 0xd0 ∷ 0xd8 ∷ 0x9d ∷ []
unfolding final finish update absorb_guarded transform_rest pad_length uint32_to_bytes context_init
    hash_block
sha1_abc = refl

-- 70 bytes in three updates; the first block is filled by the second.
abbrev chunks : List (List ℕ)
chunks = replicate 60 b'x' ∷ replicate 9 b'y' ∷ (b'z' ∷ []) ∷ []

sha1_final-reference_example :
    (final (update_all hash_block context_init chunks)).1
    ≡ reference (replicate 60 b'x' ++ replicate 9 b'y' ++ b'z' ∷ [])
unfolding flatten
sha1_final-reference_example = sha1_final-reference chunks (omega arith)
