-- ===== src/AttestQuery/Tests.antt =====
-- Tests of attest_query.c's model over a medium with one blob, and witnesses.
use waxwing.Common.{
  ◌≡◌, ◌↔◌, refl, arith, List, [], ◌∷◌, ◌++◌, Bool, true, false, some, take, replicate,
}
use waxwing.Common.Bytes.{Bytes}
use waxwing.Filestore.{Filestore}
use waxwing.BlobRing.{Ring}
use waxwing.BlobRing.Contents.{contents}
use waxwing.BlobRing.Walk.{walk}
use waxwing.BlobRing.Restart.{IsStored, blank_ring-IsStored}
use waxwing.Cbor.Fields.{Field, uint_value, map_bytes}
use waxwing.Attestations.{attestations_config, attestations_reset, attestations_write}
use waxwing.Attestations.Queue.{attestations_config-IsConfig, attestations_write-IsStored}
use waxwing.AttestCache.{attest_cache_config, attest_cache_reset}
use waxwing.AttestCache.Present.{attest_cache_config-IsConfig}
use waxwing.AttestQuery.{attest_query_for_each, attest_match_any_bssid}
use waxwing.AttestQuery.Filter.{matching, attest_query_for_each-matching}
use waxwing.AttestQuery.Extract.{Shared, bssids_field, attest_match_any_bssid-map_bytes}

-- A medium that remembers the last write.
abbrev last_write : Filestore
last_write = record {
  Disk = Bytes;
  fs_system_read = λ disk blob buf_size. some (take buf_size disk);
  fs_system_write = λ disk blob data'. (data', true);
}

abbrev version_field : Field
version_field = record { key = 1; key_small = omega arith; value = uint_value 1 (omega arith) }

abbrev seen_field : Field
seen_field = bssids_field (replicate 6 170 ∷ replicate 6 187 ∷ []) (omega arith) (refl, (refl, tt))

abbrev blob : Bytes
blob = map_bytes (version_field ∷ seen_field ∷ []) ++ []

attest_match_any_bssid-map_bytes_example :
    (attest_match_any_bssid blob (replicate 6 204 ∷ replicate 6 187 ∷ []) ≡ true)
    ↔ Shared
        (take 8 (replicate 6 170 ∷ replicate 6 187 ∷ []))
        (replicate 6 204 ∷ replicate 6 187 ∷ [])
attest_match_any_bssid-map_bytes_example =
    attest_match_any_bssid-map_bytes (replicate 6 170 ∷ replicate 6 187 ∷ []) (omega arith)
      (refl, (refl, tt)) (version_field ∷ []) [] [] (replicate 6 204 ∷ replicate 6 187 ∷ [])
      (λ (e : 1 ≡ 4). absurd (omega arith), tt) (omega arith)

own_reset-IsStored : IsStored attestations_config attestations_reset
unfolding attestations_reset
own_reset-IsStored = blank_ring-IsStored attestations_config attestations_config-IsConfig

cache_reset-IsStored : IsStored attest_cache_config attest_cache_reset
unfolding attest_cache_reset
cache_reset-IsStored = blank_ring-IsStored attest_cache_config attest_cache_config-IsConfig

abbrev own : Ring
own = (attestations_write last_write attestations_reset [] blob).0

-- A callback that collects the blobs, the last one first.
abbrev collect : List Bytes → Bytes → List Bytes × Bool
collect seen b = (b ∷ seen, false)

attest_query_for_each-matching_example :
    attest_query_for_each (replicate 6 187 ∷ []) collect own attest_cache_reset []
    ≡ walk collect
        (matching (replicate 6 187 ∷ []) (contents attestations_config own)
          ++ matching (replicate 6 187 ∷ []) (contents attest_cache_config attest_cache_reset))
        []
        0
attest_query_for_each-matching_example =
    attest_query_for_each-matching (replicate 6 187 ∷ []) collect own attest_cache_reset []
      (attestations_write-IsStored last_write attestations_reset [] blob own_reset-IsStored)
      cache_reset-IsStored
