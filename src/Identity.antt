-- ===== src/Identity.antt =====
-- firmware/core/identity.h and firmware/core/identity.c: the key pair of the node, loaded from the
-- medium or made and stored, and the wipe. Names has the strings that are derived from the key.
pub mod Stable
pub mod Names
pub mod Decode
mod Tests
use waxwing.Common.{
  ℕ, List, [], ◌∷◌, ◌++◌, ◌==◌, Bool, true, false, ◌&&◌, Option, none, some, if◌then◌else◌,
}
use waxwing.Common.{length, take, drop, ◌>>=◌, ◌>>◌, guard}
use waxwing.Common.Bytes.{Bytes, bytes_eq}
use waxwing.Filestore.{Filestore, SystemDelete, identity_bin}
use waxwing.HalCrypto.{HalCrypto}

-- `IDENTITY_BLOB_SIZE`
abbrev pub identity_blob_size : ℕ
identity_blob_size = 69

-- `waxwing_identity_t`, the keys.
pub record Identity : Type 0 where
  pub seed : Bytes
  pub pub_key : Bytes

-- The magic and the version.
abbrev pub blob_header : Bytes
blob_header = 87 ∷ 88 ∷ 73 ∷ 68 ∷ 1 ∷ []

unfoldable pub blob_has_valid_header : Bytes → Bool
blob_has_valid_header blob = bytes_eq (take 5 blob) blob_header

unfoldable pub serialize_blob : Identity → Bytes
serialize_blob identity = blob_header ++ (identity.seed ++ identity.pub_key)

-- The keys that the blob holds.
unfoldable pub parse_blob : Bytes → Identity
parse_blob blob = record { seed = take 32 (drop 5 blob); pub_key = take 32 (drop 32 (drop 5 blob)) }

module _ (fs : Filestore) (c : HalCrypto) where
  open fs use {Disk, fs_system_read, fs_system_write}
  open c use {hal_ed25519_derive_pub}

  unfoldable pub load_blob : Disk → Option Bytes
  load_blob disk = do
    blob ← fs_system_read disk identity_bin identity_blob_size
    guard (length blob == identity_blob_size)
    some blob

  unfoldable pub save_blob : Disk → Bytes → Disk × Bool
  save_blob disk blob = fs_system_write disk identity_bin blob

  -- The stored keys, if the blob is there, has the header and the key belongs to the seed.
  unfoldable pub load_identity : Disk → Option Identity
  load_identity disk = do
    blob ← load_blob disk
    guard (blob_has_valid_header blob)
    expected_pub ← hal_ed25519_derive_pub (parse_blob blob).seed
    guard (bytes_eq expected_pub (parse_blob blob).pub_key)
    some (parse_blob blob)

  -- `random` is what `hal_random_bytes` gives. The result has the medium and whether the new
  -- identity was stored.
  unfoldable pub generate_fresh : Disk → Option Bytes → Option (Identity × (Disk × Bool))
  generate_fresh disk random = do
    seed ← random
    pub_key ← hal_ed25519_derive_pub seed
    let identity : Identity = record { seed = seed; pub_key = pub_key }
    some (identity, save_blob disk (serialize_blob identity))

  -- An identity that was loaded counts as stored.
  unfoldable pub waxwing_identity_load_or_generate :
      Disk → Option Bytes → Option (Identity × (Disk × Bool))
  waxwing_identity_load_or_generate disk random = elim (load_identity disk) [
    | some identity ↦ some (identity, (disk, true))
    | none ↦ generate_fresh disk random
  ]

  -- What the call returns is not looked at.
  unfoldable pub waxwing_identity_wipe : SystemDelete fs → Disk → Disk
  waxwing_identity_wipe del disk = (del.fs_system_delete disk identity_bin).0
