-- ===== src/Crypto/Reference.antt =====
-- What RFC 1321 and FIPS 180 say of a digest of 64-byte blocks: the message is padded to whole
-- blocks that end in its length in bits, and the compression function is folded over them.
use crypti.Base.{
  ℕ, zero, suc, ◌-◌, ◌/◌, ◌%◌, ◌≤◌, ◌≡◌, refl, ap, List, [], ◌∷◌, ◌++◌, arith, length, take,
  replicate, if◌then◌else◌, ltb, length-append, length-replicate,
}
use crypti.Crypto.Stream.{fold_blocks, feed_all, feed_all_blocks}

-- The `k` low bytes of a number, the lowest first.
unfoldable pub le_bytes : ℕ → ℕ → List ℕ
le_bytes zero n = []
le_bytes (suc k) n = n % 256 ∷ le_bytes k (n / 256)

-- The `k` low bytes of a number, the lowest last.
unfoldable pub be_bytes : ℕ → ℕ → List ℕ
be_bytes zero n = []
be_bytes (suc k) n = be_bytes k (n / 256) ++ n % 256 ∷ []

pub length-le_bytes : (k n : ℕ) → length (le_bytes k n) ≡ k
unfolding le_bytes
length-le_bytes zero n = refl
length-le_bytes (suc k) n = ap suc (length-le_bytes k (n / 256))

pub length-be_bytes : (k n : ℕ) → length (be_bytes k n) ≡ k
unfolding be_bytes
length-be_bytes zero n = refl
length-be_bytes (suc k) n =
    omega (arith, length-append (be_bytes k (n / 256)) (n % 256 ∷ []), length-be_bytes k (n / 256))

-- The zero bytes that bring a message of `n` bytes and the byte 0x80 to 56 modulo 64.
abbrev pub zeros : ℕ → ℕ
zeros n = (119 - n % 64) % 64

abbrev pub padded : List ℕ → List ℕ → List ℕ
padded m len = m ++ (0x80 ∷ replicate (zeros (length m)) 0 ++ len)

module _ {S : Type 0} (compress : S → List ℕ → S) where
  -- The state after the last block; `len` is the length of `m` in bits, in 8 bytes.
  pub digest_state : S → List ℕ → List ℕ → S
  digest_state init m len = fold_blocks compress (length (padded m len) / 64) init (padded m len)

  pub length-padded : (m len : List ℕ) → length len ≡ 8 → length (padded m len) % 64 ≡ 0
  length-padded m len h =
      let z : List ℕ = replicate (zeros (length m)) 0 in
      omega (
        arith,
        length-append m (0x80 ∷ z ++ len),
        length-append z len,
        length-replicate {0} {A = ℕ} (zeros (length m)) 0,
      )

  -- Fed byte by byte, the padded message leaves the digest's state and nothing pending.
  pub feed_all-padded :
      (init : S) (m len : List ℕ)
      → length len ≡ 8
      → feed_all compress (init, []) (padded m len) ≡ (digest_state init m len, [])
  unfolding digest_state
  feed_all-padded init m len h =
      let whole = length-padded m len h in
      feed_all_blocks compress (length (padded m len) / 64) init (padded m len) (omega arith)

pub take-replicate {ℓ} :
    {A : Type ℓ} (k n : ℕ) (x : A) → k ≤ n → take k (replicate n x) ≡ replicate k x
take-replicate zero n x h = refl
take-replicate (suc k) zero x h = absurd (omega arith)
take-replicate (suc k) (suc n) x h = ap (λ t. x ∷ t) (take-replicate k n x (omega arith))

-- The padding that the digests take from their table of 64 bytes; it never reads past it.
pub take-pad :
    (l : ℕ)
    → take {A = ℕ} ((if ltb (l % 64) 56 then 56 else 120) - l % 64) (0x80 ∷ replicate 63 0)
      ≡ 0x80 ∷ replicate (zeros l) 0
take-pad l =
    let e : (if ltb (l % 64) 56 then 56 else 120) - l % 64 ≡ suc (zeros l) = ground arith in
    rw e (ap (λ t. 0x80 ∷ t) (take-replicate (zeros l) 63 0 (omega arith)))
