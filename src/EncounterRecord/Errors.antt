-- ===== src/EncounterRecord/Errors.antt =====
-- When the encoders of encounter_record.c refuse.
use waxwing.Common.{ℕ, ◌<◌, ◌≡◌, ◌≢◌, ◌⊎◌, ◌↔◌, arith, none, length}
use waxwing.EncounterRecord.{EncounterRecord, encounter_record_encode_full, encode_record}

-- The full encoder gives nothing back exactly for another version than 1, for more than eight
-- addresses on a side, and for a buffer of less than 512 bytes.
pub encode_full-none :
    (rec : EncounterRecord) (out_max : ℕ)
    → (encounter_record_encode_full rec out_max ≡ none) ↔ (
        (rec.version ≢ 1)
        ⊎ ((8 < length rec.bssids_a) ⊎ ((8 < length rec.bssids_b) ⊎ (out_max < 512))))
unfolding encounter_record_encode_full encode_record
encode_full-none rec out_max = ground arith
