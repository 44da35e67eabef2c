-- ===== src/Encounters/Tests.antt =====
-- Tests of encounters.c's model over a medium with one blob and a toy signature, and witnesses.
use waxwing.Common.{
  ℕ, ◌+◌, ◌%◌, ◌^◌, ◌<◌, ◌↔◌, All, ◌≡◌, refl, arith, List, [], ◌∷◌, ◌++◌, true, false, some, take,
  replicate, length,
}
use mathlib.Core.List.{Memᴰ}
use waxwing.Common.Bytes.{Bytes}
use waxwing.Common.Int.{pos}
use waxwing.Filestore.{Filestore}
use waxwing.HalCrypto.{HalCrypto}
use waxwing.SsidScan.{SsidObservation}
use waxwing.BlobRing.Contents.{IsFilled, contents}
use waxwing.BlobRing.Queue.{push}
use waxwing.BlobRing.Restart.{blank_ring-IsStored}
use waxwing.Encounters.{
  encounters_config, encounters_reset, encounters_record, encounters_should_record,
  encounters_record_captured_at, bssids,
}
use waxwing.Encounters.Layout.{IsCapture, record_bytes}
use waxwing.Encounters.Time.{captured_at-record_bytes}
use waxwing.Encounters.Throttle.{encounters_config-IsConfig}
use waxwing.Encounters.Record.{encounters_record-contents, should_record-encounters_record}

-- A medium that remembers the last write.
abbrev last_write : Filestore
last_write = record {
  Disk = Bytes;
  fs_system_read = λ disk blob buf_size. some (take buf_size disk);
  fs_system_write = λ disk blob data'. (data', true);
}

abbrev toy_crypto : HalCrypto
toy_crypto = record {
  hal_ed25519_derive_pub = λ seed. some (replicate 32 2);
  hal_ed25519_sign = λ seed message. some (replicate 64 3);
  hal_ed25519_verify = λ pub_key message sig. true;
}

abbrev seen : ℕ → SsidObservation
seen n = record { bssid = replicate 6 n; ssid = []; rssi = pos 0; channel = 1 }

abbrev capture : List SsidObservation
capture = seen 170 ∷ seen 187 ∷ []

capture-IsCapture : IsCapture (replicate 32 2) 70000 capture (replicate 64 3)
capture-IsCapture = record {
  node = refl;
  time = omega arith;
  some_seen = omega arith;
  few_seen = omega arith;
  addresses = (refl, (refl, tt));
  sig = refl;
}

reset-IsFilled : IsFilled encounters_config encounters_reset
unfolding encounters_reset
reset-IsFilled = (blank_ring-IsStored encounters_config encounters_config-IsConfig).filled

captured_at-record_bytes_example :
    encounters_record_captured_at
      (record_bytes (replicate 32 2) 70000 capture (replicate 64 3) ++ (0 ∷ []))
      (length (record_bytes (replicate 32 2) 70000 capture (replicate 64 3)))
    ≡ some 70000
captured_at-record_bytes_example =
    captured_at-record_bytes (replicate 32 2) 70000 capture (replicate 64 3) (0 ∷ [])
      capture-IsCapture

encounters_record-contents_example :
    (contents encounters_config
        (encounters_record last_write toy_crypto encounters_reset [] capture 70000
          (replicate 32 2)
          []).0
      ≡ push 32
          (contents encounters_config encounters_reset)
          (record_bytes (replicate 32 2) 70000 capture (replicate 64 3)))
    × IsFilled encounters_config
        (encounters_record last_write toy_crypto encounters_reset [] capture 70000
          (replicate 32 2)
          []).0
encounters_record-contents_example =
    encounters_record-contents last_write toy_crypto encounters_reset [] capture 70000
      (replicate 32 2) [] (replicate 64 3) reset-IsFilled refl capture-IsCapture

-- The same two addresses in the other order, ten seconds later, with an age of one minute.
should_record-encounters_record_example :
    (encounters_should_record
        (encounters_record last_write toy_crypto encounters_reset [] capture 70000
          (replicate 32 2)
          []).0
        (seen 187 ∷ seen 170 ∷ [])
        ((70000 + 10000) % 2 ^ 32)
        60000
      ≡ false)
    ↔ ((10000 < 60000)
        × ((length capture ≡ length (seen 187 ∷ seen 170 ∷ []))
            × All (λ b. Memᴰ b (bssids (seen 187 ∷ seen 170 ∷ []))) (bssids capture)))
should_record-encounters_record_example =
    should_record-encounters_record last_write toy_crypto encounters_reset [] capture
      (seen 187 ∷ seen 170 ∷ []) 70000 10000 60000 (replicate 32 2) [] (replicate 64 3)
      reset-IsFilled refl capture-IsCapture (omega arith) (omega arith)
