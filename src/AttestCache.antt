-- ===== src/AttestCache.antt =====
-- firmware/core/attest_cache.h and firmware/core/attest_cache.c: the attestations of other devices,
-- each at most once, in a ring of 64 slots.
pub mod Present
pub mod Distinct
mod Tests
use waxwing.Common.{ℕ, zero, suc, ◌==◌, ltb, if◌then◌else◌, length, take, drop, Bool, true, false}
use waxwing.Common.{not, ◌&&◌}
use waxwing.Common.Int.{ℤ, pos, negsuc}
use waxwing.Common.Bytes.{Bytes, bytes_eq}
use waxwing.Filestore.{Filestore, attest_cache_bin}
use waxwing.BlobRing.{
  RingConfig, Ring, record_max, blank_ring, ring_append, ring_count, ring_for_each, ring_init,
  ring_persist, slot_at, slot_record_len, used_count_get, oldest_slot,
}

-- The magic is "WXAC".
abbrev pub attest_cache_config : RingConfig
attest_cache_config = record {
  cap = 64;
  slot_bytes = 200;
  magic0 = b'W';
  magic1 = b'X';
  magic2 = b'A';
  magic3 = b'C';
  blob_name = attest_cache_bin;
}

unfoldable pub attest_cache_reset : Ring
attest_cache_reset = blank_ring attest_cache_config

unfoldable pub attest_cache_count : Ring → ℕ
attest_cache_count r = ring_count attest_cache_config r

module _ {ℓ} {S : Type ℓ} (cb : S → Bytes → S × Bool) where
  unfoldable pub attest_cache_for_each : Ring → S → S × ℕ
  attest_cache_for_each r s = ring_for_each attest_cache_config cb r s

-- `slen == len && memcmp(slot_record_ptr(i), blob, len) == 0`
unfoldable pub slot_holds : Bytes → Bytes → Bool
slot_holds blob slot =
    (slot_record_len slot == length blob) && bytes_eq (take (length blob) (drop 2 slot)) blob

-- The loop at `k`, with `n` rounds left; `start + k` is `i`.
unfoldable pub present_loop : Ring → Bytes → ℕ → ℕ → Bool
present_loop r blob zero i = false
present_loop r blob (suc n) i =
    let rest = present_loop r blob n (suc i) in
    if slot_holds blob (slot_at attest_cache_config r i) then true else rest

unfoldable pub blob_already_present : Ring → Bytes → Bool
blob_already_present r blob =
    present_loop r blob (used_count_get r) (oldest_slot attest_cache_config r)

-- `if (fs_system_write(...) != 0) return -1; return 1;`
abbrev pub write_result {ℓ} : {D : Type ℓ} → D × Bool → D × ℤ
write_result (disk, ok) = (disk, if ok then pos 1 else negsuc 0)

module _ (fs : Filestore) where
  open fs use {Disk}

  unfoldable pub attest_cache_init : Disk → Ring
  attest_cache_init disk = ring_init attest_cache_config fs disk

  -- The ring in memory, the medium and the C result.
  unfoldable pub attest_cache_write : Ring → Disk → Bytes → Ring × (Disk × ℤ)
  attest_cache_write r disk blob =
      if not r.initialized
      then (r, (disk, negsuc 0))
      else if length blob == 0
      then (r, (disk, negsuc 0))
      else if ltb (record_max attest_cache_config) (length blob)
      then (r, (disk, negsuc 0))
      else if blob_already_present r blob
      then (r, (disk, pos 0))
      else let r' = ring_append attest_cache_config r blob in
        (r', write_result (ring_persist attest_cache_config fs r' disk))
