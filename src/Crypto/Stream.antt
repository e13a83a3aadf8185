-- ===== src/Crypto/Stream.antt =====
-- What the digests of lib/crypto share: a 64-byte block buffer in front of a compression
-- function, and its specification, which takes a message one byte at a time.
pub mod Absorb
use crypti.Base.{
  ℕ, zero, suc, ◌+◌, ◌-◌, ◌*◌, ◌/◌, ◌%◌, ◌≤◌, ◌<◌, min, ◌≡◌, refl, ap, ◌∙◌, sym, Bool, true, false,
  List, [], ◌∷◌, ◌++◌, append-nil, append_assoc, arith, leb, ◌==◌, if◌then◌else◌, length, take,
  drop, length-append, length-take, length-drop, take-append-drop, take-append, drop-append,
  take_all, drop_all, Bool-cases, leb→le, le→leb, leb-false, inl, inr,
}

-- `memcpy(dst + off, src, length src)`
abbrev pub memcpy : List ℕ → ℕ → List ℕ → List ℕ
memcpy dst off src = take off dst ++ (src ++ drop (off + length src) dst)

module _ {S : Type 0} (compress : S → List ℕ → S) where
  -- `while (msglen >= 64) { compress(state, msg); msg += 64; msglen -= 64; }` on fuel; the
  -- state, and what is left of the message.
  unfoldable pub transform_rest : ℕ → S → List ℕ → S × List ℕ
  transform_rest zero s msg = (s, msg)
  transform_rest (suc f) s msg = elim (leb 64 (length msg)) [
    | true ↦ transform_rest f (compress s (take 64 msg)) (drop 64 msg)
    | false ↦ (s, msg)
  ]

  -- The part of an update that moves bytes: `n` bytes of the buffer are in use.
  unfoldable pub absorb : S → List ℕ → ℕ → List ℕ → S × List ℕ
  absorb s buffer n msg =
      if leb (64 - n) (length msg)
      then (let filled = memcpy buffer n (take (64 - n) msg) in
          let (s', rest) = transform_rest (length msg) (compress s filled) (drop (64 - n) msg) in
          (s', memcpy filled 0 rest))
      else (s, memcpy buffer n msg)

  -- The specification: one byte joins the pending ones, and a full block is compressed.
  unfoldable pub feed : S × List ℕ → ℕ → S × List ℕ
  feed (s, p) x = let q = p ++ x ∷ [] in if length q == 64 then (compress s q, []) else (s, q)

  unfoldable pub feed_all : S × List ℕ → List ℕ → S × List ℕ
  feed_all st [] = st
  feed_all st (x ∷ xs) = feed_all (feed st x) xs

  -- The fold of the compression function over `k` blocks of 64 bytes.
  pub fold_blocks : ℕ → S → List ℕ → S
  fold_blocks zero s m = s
  fold_blocks (suc k) s m = fold_blocks k (compress s (take 64 m)) (drop 64 m)

  pub feed_all-append :
      (st : S × List ℕ) (xs ys : List ℕ) → feed_all st (xs ++ ys) ≡ feed_all (feed_all st xs) ys
  unfolding feed_all
  feed_all-append st [] ys = refl
  feed_all-append st (x ∷ xs) ys = feed_all-append (feed st x) xs ys

  pub feed_all_short :
      (s : S) (p xs : List ℕ) → length p + length xs < 64 → feed_all (s, p) xs ≡ (s, p ++ xs)
  unfolding feed_all feed
  feed_all_short s p [] h = rw append-nil
  feed_all_short s p (x ∷ xs) h =
      let len = length-append p (x ∷ []) in
      let apart : (length (p ++ x ∷ []) == 64) ≡ false = ground (arith, len) in
      rw apart (feed_all_short s (p ++ x ∷ []) xs (omega (arith, len)) ∙ rw append_assoc)

  -- Bytes that fill the block up.
  pub feed_all_full :
      (s : S) (p xs : List ℕ)
      → length p < 64
      → length p + length xs ≡ 64
      → feed_all (s, p) xs ≡ (compress s (p ++ xs), [])
  unfolding feed_all feed
  feed_all_full s p [] lt h = absurd (omega arith)
  feed_all_full s p (x ∷ []) lt h =
      let full : (length (p ++ x ∷ []) == 64) ≡ true = ground (arith, length-append p (x ∷ [])) in
      rw full
  feed_all_full s p (x ∷ y ∷ xs) lt h =
      let len = length-append p (x ∷ []) in
      let apart : (length (p ++ x ∷ []) == 64) ≡ false = ground (arith, len) in
      rw apart (
        feed_all_full s (p ++ x ∷ []) (y ∷ xs) (omega (arith, len)) (omega (arith, len))
        ∙ rw append_assoc)

  pub feed_all_block :
      (s : S) (m : List ℕ)
      → 64 ≤ length m
      → feed_all (s, []) m ≡ feed_all (compress s (take 64 m), []) (drop 64 m)
  feed_all_block s m h =
      let len = length-take 64 m in
      ap (feed_all (s, [])) (sym (take-append-drop 64 m))
      ∙ feed_all-append (s, []) (take 64 m) (drop 64 m)
      ∙ ap (λ st. feed_all st (drop 64 m))
          (feed_all_full s [] (take 64 m) (omega arith) (omega (arith, len)))

  -- A whole number of blocks leaves nothing pending.
  pub feed_all_blocks :
      (k : ℕ) (s : S) (m : List ℕ)
      → length m ≡ k * 64
      → feed_all (s, []) m ≡ (fold_blocks k s m, [])
  unfolding fold_blocks
  feed_all_blocks zero s [] h = unfold feed_all in refl
  feed_all_blocks zero s (x ∷ m) h = absurd (omega arith)
  feed_all_blocks (suc k) s m h =
      feed_all_block s m (omega arith)
      ∙ feed_all_blocks k (compress s (take 64 m)) (drop 64 m) (omega (arith, length-drop 64 m))

  -- The loop ends with less than a block left, and agrees with the specification.
  pub transform_rest_lem :
      (f : ℕ) (s : S) (msg : List ℕ)
      → length msg ≤ f
      → (feed_all (s, []) msg ≡ transform_rest f s msg)
        × (length (transform_rest f s msg).1 < 64)
        × (length (transform_rest f s msg).1 % 64 ≡ length msg % 64)
  unfolding transform_rest
  transform_rest_lem zero s [] h = (unfold feed_all in refl, omega arith, refl)
  transform_rest_lem zero s (x ∷ msg) h = absurd (omega arith)
  transform_rest_lem (suc f) s msg h = elim (Bool-cases (leb 64 (length msg))) [
    | inl more ↦
        let len = length-drop 64 msg in
        let big = leb→le 64 (length msg) more in
        let (eq, short, same) =
          transform_rest_lem f (compress s (take 64 msg)) (drop 64 msg) (omega (arith, len)) in
        rw (more, transform_rest) (feed_all_block s msg big ∙ eq, short, omega (arith, len))
    | inr less ↦
        let small : length msg < 64 = ground arith in
        rw (less, transform_rest) (feed_all_short s [] msg (omega arith), small, refl)
  ]
