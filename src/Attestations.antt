-- ===== src/Attestations.antt =====
-- firmware/core/attestations.h and firmware/core/attestations.c: the device's own attestations, in a
-- ring of 64 slots.
pub mod Queue
mod Tests
use waxwing.Common.{◌==◌, ltb, if◌then◌else◌, length, ℕ, Bool, not}
use waxwing.Common.Int.{ℤ, pos, negsuc}
use waxwing.Common.Bytes.{Bytes}
use waxwing.Filestore.{Filestore, attest_self_bin}
use waxwing.BlobRing.{
  RingConfig, Ring, record_max, blank_ring, ring_append, ring_count, ring_for_each, ring_init,
  ring_persist,
}

-- The magic is "WXAT".
abbrev pub attestations_config : RingConfig
attestations_config = record {
  cap = 64;
  slot_bytes = 200;
  magic0 = b'W';
  magic1 = b'X';
  magic2 = b'A';
  magic3 = b'T';
  blob_name = attest_self_bin;
}

unfoldable pub attestations_reset : Ring
attestations_reset = blank_ring attestations_config

unfoldable pub attestations_count : Ring → ℕ
attestations_count r = ring_count attestations_config r

module _ {ℓ} {S : Type ℓ} (cb : S → Bytes → S × Bool) where
  unfoldable pub attestations_for_each : Ring → S → S × ℕ
  attestations_for_each r s = ring_for_each attestations_config cb r s

-- `if (fs_system_write(...) != 0) return -1; return 0;`
abbrev pub write_result {ℓ} : {D : Type ℓ} → D × Bool → D × ℤ
write_result (disk, ok) = (disk, if ok then pos 0 else negsuc 0)

module _ (fs : Filestore) where
  open fs use {Disk}

  unfoldable pub attestations_init : Disk → Ring
  attestations_init disk = ring_init attestations_config fs disk

  -- The ring in memory, the medium and the C result.
  unfoldable pub attestations_write : Ring → Disk → Bytes → Ring × (Disk × ℤ)
  attestations_write r disk blob =
      if not r.initialized
      then (r, (disk, negsuc 0))
      else if length blob == 0
      then (r, (disk, negsuc 0))
      else if ltb (record_max attestations_config) (length blob)
      then (r, (disk, negsuc 0))
      else let r' = ring_append attestations_config r blob in
        (r', write_result (ring_persist attestations_config fs r' disk))
