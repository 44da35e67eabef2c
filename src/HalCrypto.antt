-- ===== src/HalCrypto.antt =====
-- firmware/core/hal_crypto.h: the signature functions that the ports implement over a third-party
-- library. They are parameters of the modules that call them.
use waxwing.Common.{Option, some, Bool, true, ◌≡◌, length}
use waxwing.Common.Bytes.{Bytes}

-- `none` and `false` are the C `false`.
pub record HalCrypto : Type 0 where
  pub hal_ed25519_derive_pub : Bytes → Option Bytes
  pub hal_ed25519_sign : Bytes → Bytes → Option Bytes
  pub hal_ed25519_verify : Bytes → Bytes → Bytes → Bool

-- The documented behaviour: a signature has 64 bytes, and the key that is derived from the seed
-- accepts it for the message that was signed.
pub record IsCorrect (c : HalCrypto) : Type 0 where
  pub length-sign :
      (seed message sig : Bytes) → c.hal_ed25519_sign seed message ≡ some sig → length sig ≡ 64
  pub verify-sign :
      (seed message pub_key sig : Bytes)
      → c.hal_ed25519_derive_pub seed ≡ some pub_key
      → c.hal_ed25519_sign seed message ≡ some sig
      → c.hal_ed25519_verify pub_key message sig ≡ true
