-- ===== src/ManifestCounter/Tests.antt =====
-- Tests of manifest_counter.c's model over a medium with one blob, and witnesses.
use waxwing.Common.{[], ◌≡◌, ◌≢◌, refl, arith, ◌+◌, ◌%◌, ◌⊎◌, true, false, some, take}
use waxwing.Common.Bytes.{Bytes}
use waxwing.Filestore.{Filestore, IsFilestore}
use waxwing.ManifestCounter.{manifest_counter_init, manifest_counter_bump}
use waxwing.ManifestCounter.Persist.{manifest_bump-init}

-- A medium that remembers the last write.
abbrev last_write : Filestore
last_write = record {
  Disk = Bytes;
  fs_system_read = λ disk blob buf_size. some (take buf_size disk);
  fs_system_write = λ disk blob data'. (data', true);
}

last_write-IsFilestore : IsFilestore last_write
last_write-IsFilestore = record { read-write = λ disk blob data' buf_size e. refl }

manifest_bump-init_example :
    ((manifest_counter_bump last_write 255 []).0 ≢ 255)
    × (((manifest_counter_bump last_write 255 []).0 ≡ (255 + 1) % 256)
        × (((manifest_counter_bump last_write 255 []).1.1 ≡ false)
            ⊎ (manifest_counter_init last_write (manifest_counter_bump last_write 255 []).1.0
                ≡ (255 + 1) % 256)))
manifest_bump-init_example =
    manifest_bump-init last_write 255 [] last_write-IsFilestore (omega arith)
