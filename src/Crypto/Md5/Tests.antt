-- ===== src/Crypto/Md5/Tests.antt =====
-- MD5 at the messages of RFC 1321, and its theorems at concrete messages.
use mathlib.Core.List.{flatten}
use crypti.Base.{ℕ, List, arith, ◌++◌, ◌≡◌, refl, [], ◌∷◌, replicate}
use crypti.Crypto.Stream.{absorb, transform_rest}
use crypti.Crypto.Md5.Refinement.{update_all, reference, md5_final-reference}
use crypti.Crypto.Md5.{
  Context, initial, context_init, update, final, transform, pad_length, uint32_to_bytes,
}

abbrev garbage : Context
garbage = record { nbits0 = 7; nbits1 = 9; state = initial; buffer = replicate 64 0xaa }

-- MD5 ("abc") = 900150983cd24fb0d6963f7d28e17f72
md5_abc :
    (final (update (context_init garbage) (b'a' ∷ b'b' ∷ b'c' ∷ []))).1
    ≡ 0x90 ∷ 0x01 ∷ 0x50 ∷ 0x98 ∷ 0x3c ∷ 0xd2 ∷ 0x4f ∷ 0xb0 ∷ 0xd6 ∷ 0x96 ∷ 0x3f ∷ 0x7d ∷ 0x28
      ∷ 0xe1 ∷ 0x7f ∷ 0x72 ∷ []
unfolding final pad_length uint32_to_bytes update context_init transform absorb transform_rest
md5_abc = refl

-- 70 bytes in three updates; the first block is filled by the second.
abbrev chunks : List (List ℕ)
chunks = replicate 60 b'x' ∷ replicate 9 b'y' ∷ (b'z' ∷ []) ∷ []

md5_final-reference_example :
    (final (update_all (context_init garbage) chunks)).1
    ≡ reference (replicate 60 b'x' ++ replicate 9 b'y' ++ b'z' ∷ [])
unfolding flatten
md5_final-reference_example = md5_final-reference garbage chunks refl (omega arith)
