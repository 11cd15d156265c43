-- ===== src/Crypto.antt =====
-- dude/core/crypto.py: what the other modules use of it. blake2b and ed25519 are not this program's
-- code: they are the fields of `Suite`, which the definitions take as a parameter.
use dude_fs.Prelude.{ℕ, Bool, Bytes, Result, ok, err, length, ◌==◌, nat_eq, if◌then◌else◌}
pub mod Bitmap
pub mod Signers
pub mod Indices

pub record Suite : Type 0 where
  -- blake2b with a digest of 32 bytes
  pub h : Bytes → Bytes
  -- blake2b with a person, a digest of 32 bytes
  pub h_domain : Bytes → Bytes → Bytes
  -- the public key of a seed
  pub public : Bytes → Bytes
  -- seed, message
  pub sign : Bytes → Bytes → Bytes
  -- public key, message, signature
  pub verify : Bytes → Bytes → Bytes → Bool

pub data CryptoError : Type 0 where
  wrong_width : CryptoError
  signer_out_of_range : CryptoError
  bitmap_width : CryptoError

abbrev pub digest_size : ℕ
digest_size = 32

abbrev pub public_key_size : ℕ
public_key_size = 32

abbrev pub sig_size : ℕ
sig_size = 64

-- The constructor of `_Fixed` with its `WIDTH`.
unfoldable pub fixed : ℕ → Bytes → Result CryptoError Bytes
fixed width raw = if length raw == width then ok raw else err wrong_width
