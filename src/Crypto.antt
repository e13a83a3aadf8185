-- ===== src/Crypto.antt =====
-- lib/crypto: the message digests.
pub mod Stream
pub mod Reference
pub mod Md5
pub mod Sha
pub mod Sha1
pub mod Sha256
