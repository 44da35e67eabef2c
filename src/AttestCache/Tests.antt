-- ===== src/AttestCache/Tests.antt =====
-- Tests of attest_cache.c's model over a medium with one blob, and witnesses.
use waxwing.Common.{◌≡◌, [], ◌∷◌, true, some, take}
use waxwing.Common.Bytes.{Bytes}
use waxwing.Filestore.{Filestore}
use waxwing.BlobRing.Contents.{contents}
use waxwing.BlobRing.Restart.{IsStored, blank_ring-IsStored}
use waxwing.AttestCache.{attest_cache_config, attest_cache_reset, attest_cache_write}
use waxwing.AttestCache.Present.{attest_cache_config-IsConfig}
use waxwing.AttestCache.Distinct.{
  Distinct, write_all, cached, contents-attest_cache_write, reset-write_all-Distinct,
}

-- A medium that remembers the last write.
abbrev last_write : Filestore
last_write = record {
  Disk = Bytes;
  fs_system_read = λ disk blob buf_size. some (take buf_size disk);
  fs_system_write = λ disk blob data'. (data', true);
}

reset-IsStored : IsStored attest_cache_config attest_cache_reset
unfolding attest_cache_reset
reset-IsStored = blank_ring-IsStored attest_cache_config attest_cache_config-IsConfig

contents-attest_cache_write_example :
    contents attest_cache_config
      (attest_cache_write last_write attest_cache_reset [] (5 ∷ 6 ∷ [])).0
    ≡ cached (contents attest_cache_config attest_cache_reset) (5 ∷ 6 ∷ [])
contents-attest_cache_write_example =
    contents-attest_cache_write last_write attest_cache_reset [] (5 ∷ 6 ∷ []) reset-IsStored

reset-write_all-Distinct_example : Distinct (
    contents attest_cache_config
      (write_all last_write attest_cache_reset [] ((5 ∷ 6 ∷ []) ∷ (7 ∷ []) ∷ (5 ∷ 6 ∷ []) ∷ [])).0)
reset-write_all-Distinct_example =
    reset-write_all-Distinct last_write [] ((5 ∷ 6 ∷ []) ∷ (7 ∷ []) ∷ (5 ∷ 6 ∷ []) ∷ [])
