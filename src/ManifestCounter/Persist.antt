-- ===== src/ManifestCounter/Persist.antt =====
-- The version of manifest_counter.c over restarts.
use waxwing.Common.{
  ℕ, ◌+◌, ◌%◌, ◌<◌, ◌≡◌, ◌≢◌, refl, arith, false, [], ◌∷◌, ◌⊎◌, inl, inr, Bool-cases,
}
use waxwing.Filestore.{Filestore, IsFilestore, manifest_version_bin}
use waxwing.ManifestCounter.{manifest_counter_init, manifest_counter_bump}

-- A bump changes the byte that is advertised, also where it wraps, and the new byte is the next
-- number modulo 256, whether or not it is persisted; and either the medium reported a failure or a
-- restart finds the new byte.
pub manifest_bump-init :
    (fs : Filestore) (counter : ℕ) (disk : fs.Disk)
    → IsFilestore fs
    → counter < 256
    → ((manifest_counter_bump fs counter disk).0 ≢ counter)
      × (((manifest_counter_bump fs counter disk).0 ≡ (counter + 1) % 256)
          × (((manifest_counter_bump fs counter disk).1.1 ≡ false)
              ⊎ (manifest_counter_init fs (manifest_counter_bump fs counter disk).1.0
                  ≡ (counter + 1) % 256)))
unfolding manifest_counter_init manifest_counter_bump
manifest_bump-init fs counter disk ok h = (
  omega arith,
  (
    refl,
    elim (Bool-cases (fs.fs_system_write disk manifest_version_bin ((counter + 1) % 256 ∷ [])).1) [
      | inl persisted ↦ inr (
          rw
            (
              manifest_counter_init,
              ok.read-write disk manifest_version_bin ((counter + 1) % 256 ∷ []) 2 persisted,
            )
            refl)
      | inr failed ↦ inl failed
    ],
  ),
)
