-- ===== src/ManifestCounter.antt =====
-- firmware/core/manifest_counter.h and firmware/core/manifest_counter.c: the one-byte version of
-- the manifest that is advertised. `g_counter` is the number that the functions take and give back.
pub mod Persist
mod Tests
use waxwing.Common.{
  ℕ, ◌+◌, ◌%◌, List, [], ◌∷◌, Bool, ◌==◌, Option, none, some, if◌then◌else◌, length, get_or,
}
use waxwing.Filestore.{Filestore, manifest_version_bin}

abbrev pub counter_blob_size : ℕ
counter_blob_size = 1

module _ (fs : Filestore) where
  open fs use {Disk, fs_system_read, fs_system_write}

  unfoldable pub manifest_counter_init : Disk → ℕ
  manifest_counter_init disk =
      elim (fs_system_read disk manifest_version_bin (counter_blob_size + 1)) [
        | none ↦ 0
        | some buf ↦ if length buf == counter_blob_size then get_or buf 0 0 else 0
      ]

  -- The new version, the medium after it, and whether the version was persisted.
  unfoldable pub manifest_counter_bump : ℕ → Disk → ℕ × (Disk × Bool)
  manifest_counter_bump counter disk =
      ((counter + 1) % 256, fs_system_write disk manifest_version_bin ((counter + 1) % 256 ∷ []))
