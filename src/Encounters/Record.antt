-- ===== src/Encounters/Record.antt =====
-- A capture that is recorded by encounters.c: what the ring holds afterwards, and what the throttle
-- says of the next scan.
use waxwing.Common.{
  ℕ, ◌<◌, ◌≡◌, refl, ap, ◌∙◌, arith, List, ◌||◌, not, some, length, ne→==_false, le→ltb_false,
}
use waxwing.Common.{◌↔◌, ◌+◌, ◌%◌, ◌^◌, false, All}
use mathlib.Core.List.{Memᴰ}
use waxwing.Common.Bytes.{Bytes}
use waxwing.Filestore.{Filestore}
use waxwing.HalCrypto.{HalCrypto}
use waxwing.SsidScan.{SsidObservation}
use waxwing.BlobRing.{Ring}
use waxwing.BlobRing.Contents.{IsFilled, contents}
use waxwing.BlobRing.Append.{contents-ring_append, ring_append-IsFilled}
use waxwing.BlobRing.Queue.{push}
use waxwing.Encounters.{
  encounters_config, encounters_record, encode_signed_body, encode_full_record, store_record,
  encounters_should_record, bssids,
}
use waxwing.Encounters.Layout.{
  IsCapture, record_bytes, record_bytes-IsRecord, length-record_bytes, length-record_bytes_min,
}
use waxwing.Encounters.Addresses.{same_addresses, turned_away}
use waxwing.Encounters.Throttle.{
  encounters_config-IsConfig, should_record-ring_append, old_enough, old_enough-since,
}

module _ (fs : Filestore) (crypto : HalCrypto) where
  open fs use {Disk}
  open crypto use {hal_ed25519_sign}

  record_lem :
      (r : Ring) (disk : Disk) (obs : List SsidObservation) (time : ℕ) (node seed sig : Bytes)
      → IsFilled encounters_config r
      → hal_ed25519_sign seed (encode_signed_body node time obs) ≡ some sig
      → IsCapture node time obs sig
      → encounters_record fs crypto r disk obs time node seed
        ≡ store_record fs r disk (record_bytes node time obs sig)
  unfolding encounters_record encode_full_record
  record_lem r disk obs time node seed sig wf signed h =
      rw
        (
          encounters_record,
          signed,
          ne→==_false (length obs) 0 (omega (arith, h.some_seen)),
          le→ltb_false 8 (length obs) h.few_seen,
          ne→==_false (length (record_bytes node time obs sig)) 0
              (omega (arith, length-record_bytes_min node time obs sig h)),
          le→ltb_false 254 (length (record_bytes node time obs sig))
              (length-record_bytes node time obs sig h),
          wf.ring.initialized,
        )
        refl

  -- If the ring is well formed, the capture fits the types of the code (a key of 32 bytes, a time of 32 bits, one to eight addresses of 6 bytes) and the body is signed with 64 bytes, the record is pushed onto the queue of the last 32 records, and the ring stays well formed.
  pub encounters_record-contents :
      (r : Ring) (disk : Disk) (obs : List SsidObservation) (time : ℕ) (node seed sig : Bytes)
      → IsFilled encounters_config r
      → hal_ed25519_sign seed (encode_signed_body node time obs) ≡ some sig
      → IsCapture node time obs sig
      → (contents encounters_config (encounters_record fs crypto r disk obs time node seed).0
          ≡ push 32 (contents encounters_config r) (record_bytes node time obs sig))
        × IsFilled encounters_config (encounters_record fs crypto r disk obs time node seed).0
  encounters_record-contents r disk obs time node seed sig wf signed h =
      let fits = record_bytes-IsRecord node time obs sig h in
      rw (record_lem r disk obs time node seed sig wf signed h) (
        contents-ring_append encounters_config r (record_bytes node time obs sig)
            encounters_config-IsConfig wf fits,
        ring_append-IsFilled encounters_config r (record_bytes node time obs sig)
            encounters_config-IsConfig wf fits,
      )

  should_record-record :
      (r : Ring) (disk : Disk) (obs scan : List SsidObservation) (time now_ms min_age_ms : ℕ)
      (node seed sig : Bytes)
      → IsFilled encounters_config r
      → hal_ed25519_sign seed (encode_signed_body node time obs) ≡ some sig
      → IsCapture node time obs sig
      → 0 < length scan
      → encounters_should_record
          (encounters_record fs crypto r disk obs time node seed).0
          scan
          now_ms
          min_age_ms
        ≡ old_enough now_ms time min_age_ms || not (same_addresses scan obs)
  should_record-record r disk obs scan time now_ms min_age_ms node seed sig wf signed h some_scan =
      ap (λ t. encounters_should_record t.0 scan now_ms min_age_ms)
        (record_lem r disk obs time node seed sig wf signed h)
      ∙ should_record-ring_append r node sig time now_ms min_age_ms obs scan wf h some_scan

  -- If the ring is well formed and a capture that fits the types of the code (a key of 32 bytes, a time of 32 bits, one to eight addresses of 6 bytes) was signed and recorded, then `e` ms later, less than 2^32, on a clock of 32 bits that may have wrapped, a scan that is not empty is turned away exactly if `e` is less than the age, the scan has as many addresses as were recorded, and every recorded address is one of the scan's.
  pub should_record-encounters_record :
      (r : Ring) (disk : Disk) (obs scan : List SsidObservation) (time e min_age_ms : ℕ)
      (node seed sig : Bytes)
      → IsFilled encounters_config r
      → hal_ed25519_sign seed (encode_signed_body node time obs) ≡ some sig
      → IsCapture node time obs sig
      → 0 < length scan
      → e < 2 ^ 32
      → (encounters_should_record
            (encounters_record fs crypto r disk obs time node seed).0
            scan
            ((time + e) % 2 ^ 32)
            min_age_ms
          ≡ false)
        ↔ ((e < min_age_ms)
            × ((length obs ≡ length scan) × All (λ b. Memᴰ b (bssids scan)) (bssids obs)))
  should_record-encounters_record r disk obs scan time e min_age_ms node seed sig wf signed h
        some_scan late =
      rw
        (
          should_record-record r disk obs scan time ((time + e) % 2 ^ 32) min_age_ms node seed sig
              wf signed h some_scan,
          old_enough-since time e min_age_ms h.time late,
        )
        (turned_away min_age_ms e scan obs)
