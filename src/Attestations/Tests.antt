-- ===== src/Attestations/Tests.antt =====
-- Tests of attestations.c's model over a medium with one blob, and witnesses.
use waxwing.Common.{◌≡◌, refl, List, [], ◌∷◌, Bool, true, false, some, take, replicate}
use waxwing.Common.Bytes.{Bytes}
use waxwing.Filestore.{Filestore, IsFilestore}
use waxwing.BlobRing.{ring_persist, blank_ring}
use waxwing.BlobRing.Walk.{walk}
use waxwing.BlobRing.Queue.{last_of}
use waxwing.BlobRing.Restart.{IsStored, blank_ring-IsStored}
use waxwing.Attestations.{
  attestations_config, attestations_reset, attestations_write, attestations_init,
  attestations_for_each,
}
use waxwing.Attestations.Queue.{
  write_all, attestations_of, for_each-write_all, init-attestations_write,
  attestations_config-IsConfig,
}

-- A medium that remembers the last write.
abbrev last_write : Filestore
last_write = record {
  Disk = Bytes;
  fs_system_read = λ disk blob buf_size. some (take buf_size disk);
  fs_system_write = λ disk blob data'. (data', true);
}

last_write-IsFilestore : IsFilestore last_write
last_write-IsFilestore = record { read-write = λ disk blob data' buf_size e. refl }

-- A callback that collects the blobs, the last one first.
abbrev collect : List Bytes → Bytes → List Bytes × Bool
collect seen blob = (blob ∷ seen, false)

-- One blob more than there are slots, and an empty one, which is refused.
abbrev blobs : List Bytes
blobs = (5 ∷ []) ∷ [] ∷ replicate 64 (7 ∷ 8 ∷ [])

for_each-write_all_example :
    attestations_for_each collect (write_all last_write attestations_reset [] blobs).0 []
    ≡ (replicate 64 (7 ∷ 8 ∷ []), 64)
unfolding walk last_of attestations_of
for_each-write_all_example = for_each-write_all collect [] last_write [] blobs

reset-IsStored : IsStored attestations_config attestations_reset
unfolding attestations_reset
reset-IsStored = blank_ring-IsStored attestations_config attestations_config-IsConfig

init-attestations_write_example :
    attestations_init last_write
      (attestations_write last_write attestations_reset [] (5 ∷ 6 ∷ [])).1.0
    ≡ (attestations_write last_write attestations_reset [] (5 ∷ 6 ∷ [])).0
unfolding attestations_write ring_persist attestations_reset blank_ring
init-attestations_write_example =
    init-attestations_write last_write attestations_reset [] (5 ∷ 6 ∷ []) last_write-IsFilestore
      reset-IsStored refl
