-- ===== src/CryptHashes/Algorithms.antt =====
-- src/crypt_hashes.c: the digests that the macros are used with.
use crypti.Base.{ℕ, ◌^◌, ◌<◌, ◌≡◌, refl, List, [], ◌++◌, length}
use crypti.Crypto.Md5
use crypti.Crypto.Md5.Refinement as Md5Laws
use crypti.Crypto.Sha
use crypti.Crypto.Sha.Refinement as ShaLaws
use crypti.Crypto.Sha1
use crypti.Crypto.Sha1.Digest as Sha1Laws
use crypti.Crypto.Sha256
use crypti.Crypto.Sha256.Digest as Sha256Laws
use crypti.CryptHashes.{HashCtx, md5, sha1, sha256, type_of, Algorithm}
use crypti.CryptHashes.Session.{Lawful}

-- `octstr_md5_update` and `octstr_md5_finalize`; a context of another type does not get so far.
pub md5_update : HashCtx → List ℕ → HashCtx
md5_update (md5 c) bytes = md5 (Md5.update c bytes)
md5_update (sha1 c) bytes = sha1 c
md5_update (sha256 c) bytes = sha256 c

pub md5_final : HashCtx → List ℕ
md5_final (md5 c) = (Md5.final c).1
md5_final (sha1 c) = []
md5_final (sha256 c) = []

-- The functions for MD5, with what the memory of a new context holds.
abbrev pub md5_algorithm : Md5.Context → Algorithm
md5_algorithm garbage = record {
  ctx_type = 0;
  ctx_size = 88;
  context_init = md5 (Md5.context_init garbage);
  update = md5_update;
  final = md5_final;
}

abbrev pub Md5Holds : List ℕ → HashCtx → Type 0
Md5Holds m (md5 c) = Md5Laws.Absorbed m c
Md5Holds m (sha1 c) = ⊥
Md5Holds m (sha256 c) = ⊥

pub md5-Lawful :
    (garbage : Md5.Context)
    → length garbage.buffer ≡ 64
    → Lawful (md5_algorithm garbage) Md5Holds Md5Laws.reference
unfolding md5_update md5_final type_of
md5-Lawful garbage size = record {
  typed = typed;
  begins = Md5Laws.context_init-Absorbed garbage size;
  feeds = feeds;
  ends = ends;
}
  where
    typed : (m : List ℕ) (c : HashCtx) → Md5Holds m c → type_of c ≡ 0
    typed m (md5 c) h = refl
    typed m (sha1 c) h = absurd h
    typed m (sha256 c) h = absurd h

    feeds :
        (m : List ℕ) (c : HashCtx) (bytes : List ℕ)
        → length bytes < 2 ^ 32
        → Md5Holds m c
        → Md5Holds (m ++ bytes) (md5_update c bytes)
    feeds m (md5 c) bytes short h = Md5Laws.update-Absorbed m c bytes short h
    feeds m (sha1 c) bytes short h = absurd h
    feeds m (sha256 c) bytes short h = absurd h

    ends : (m : List ℕ) (c : HashCtx) → Md5Holds m c → md5_final c ≡ Md5Laws.reference m
    ends m (md5 c) h = Md5Laws.final-Absorbed m c h
    ends m (sha1 c) h = absurd h
    ends m (sha256 c) h = absurd h

-- `octstr_sha1_update` and `octstr_sha1_finalize`
pub sha1_update : HashCtx → List ℕ → HashCtx
sha1_update (sha1 c) bytes = sha1 (Sha.update Sha1.hash_block c bytes)
sha1_update (md5 c) bytes = md5 c
sha1_update (sha256 c) bytes = sha256 c

pub sha1_final : HashCtx → List ℕ
sha1_final (sha1 c) = (Sha1.final c).1
sha1_final (md5 c) = []
sha1_final (sha256 c) = []

abbrev pub sha1_algorithm : Algorithm
sha1_algorithm = record {
  ctx_type = 1;
  ctx_size = 92;
  context_init = sha1 Sha1.context_init;
  update = sha1_update;
  final = sha1_final;
}

abbrev pub Sha1Holds : List ℕ → HashCtx → Type 0
Sha1Holds m (sha1 c) = ShaLaws.Absorbed Sha1.hash_block Sha1.initial m c
Sha1Holds m (md5 c) = ⊥
Sha1Holds m (sha256 c) = ⊥

pub sha1-Lawful : Lawful sha1_algorithm Sha1Holds Sha1Laws.reference
unfolding sha1_update sha1_final type_of
sha1-Lawful = record {
  typed = typed;
  begins = Sha1Laws.context_init-Absorbed;
  feeds = feeds;
  ends = ends;
}
  where
    typed : (m : List ℕ) (c : HashCtx) → Sha1Holds m c → type_of c ≡ 1
    typed m (sha1 c) h = refl
    typed m (md5 c) h = absurd h
    typed m (sha256 c) h = absurd h

    feeds :
        (m : List ℕ) (c : HashCtx) (bytes : List ℕ)
        → length bytes < 2 ^ 32
        → Sha1Holds m c
        → Sha1Holds (m ++ bytes) (sha1_update c bytes)
    feeds m (sha1 c) bytes short h =
        ShaLaws.update-Absorbed Sha1.hash_block Sha1.initial m c bytes short h
    feeds m (md5 c) bytes short h = absurd h
    feeds m (sha256 c) bytes short h = absurd h

    ends : (m : List ℕ) (c : HashCtx) → Sha1Holds m c → sha1_final c ≡ Sha1Laws.reference m
    ends m (sha1 c) h = Sha1Laws.final-Absorbed m c h
    ends m (md5 c) h = absurd h
    ends m (sha256 c) h = absurd h

-- `octstr_sha256_update` and `octstr_sha256_finalize`
pub sha256_update : HashCtx → List ℕ → HashCtx
sha256_update (sha256 c) bytes = sha256 (Sha.update Sha256.hash_block c bytes)
sha256_update (md5 c) bytes = md5 c
sha256_update (sha1 c) bytes = sha1 c

pub sha256_final : HashCtx → List ℕ
sha256_final (sha256 c) = (Sha256.final c).1
sha256_final (md5 c) = []
sha256_final (sha1 c) = []

abbrev pub sha256_algorithm : Algorithm
sha256_algorithm = record {
  ctx_type = 2;
  ctx_size = 104;
  context_init = sha256 Sha256.context_init;
  update = sha256_update;
  final = sha256_final;
}

abbrev pub Sha256Holds : List ℕ → HashCtx → Type 0
Sha256Holds m (sha256 c) = ShaLaws.Absorbed Sha256.hash_block Sha256.initial m c
Sha256Holds m (md5 c) = ⊥
Sha256Holds m (sha1 c) = ⊥

pub sha256-Lawful : Lawful sha256_algorithm Sha256Holds Sha256Laws.reference
unfolding sha256_update sha256_final type_of
sha256-Lawful = record {
  typed = typed;
  begins = Sha256Laws.context_init-Absorbed;
  feeds = feeds;
  ends = ends;
}
  where
    typed : (m : List ℕ) (c : HashCtx) → Sha256Holds m c → type_of c ≡ 2
    typed m (sha256 c) h = refl
    typed m (md5 c) h = absurd h
    typed m (sha1 c) h = absurd h

    feeds :
        (m : List ℕ) (c : HashCtx) (bytes : List ℕ)
        → length bytes < 2 ^ 32
        → Sha256Holds m c
        → Sha256Holds (m ++ bytes) (sha256_update c bytes)
    feeds m (sha256 c) bytes short h =
        ShaLaws.update-Absorbed Sha256.hash_block Sha256.initial m c bytes short h
    feeds m (md5 c) bytes short h = absurd h
    feeds m (sha1 c) bytes short h = absurd h

    ends : (m : List ℕ) (c : HashCtx) → Sha256Holds m c → sha256_final c ≡ Sha256Laws.reference m
    ends m (sha256 c) h = Sha256Laws.final-Absorbed m c h
    ends m (md5 c) h = absurd h
    ends m (sha1 c) h = absurd h
