-- ===== src/EncounterRecord/Tests.antt =====
-- Tests of encounter_record.c's model: one full record, and witnesses.
use waxwing.Common.{
  Bool, ltb, ◌&&◌, ◌≡◌, ◌≤◌, ◌<◌, ◌≢◌, ◌⊎◌, ◌↔◌, refl, arith, [], ◌∷◌, some, none, true, All,
  length, replicate,
}
use waxwing.Common.Int.{pos, negsuc}
use waxwing.Common.Bytes.{Bytes, IsByte}
use waxwing.Cbor.Encode.{
  encode_header, cborencode_uint, uint64_bytes, cborencode_uint64, cborencode_int,
}
use waxwing.Cbor.Encode.{
  cborencode_byte_str, cborencode_array_header, cborencode_map_header, put_pairs, put_strs,
}
use waxwing.Cbor.Decode.{int}
use waxwing.EncounterRecord.{
  EncounterRecord, encounter_record_encode_full, encounter_record_decode, record_bytes,
}
use waxwing.EncounterRecord.{encode_bssids, cbor_to_int32}
use waxwing.EncounterRecord.Valid.{IsWellFormed}
use waxwing.EncounterRecord.RoundTrip.{decode-encode_full, decode-record_bytes}
use waxwing.EncounterRecord.Decoded.{decode-IsWellFormed}
use waxwing.EncounterRecord.Errors.{encode_full-none}

abbrev sample : EncounterRecord
sample = record {
  version = 1;
  pub_a = replicate 32 1;
  pub_b = replicate 32 2;
  meeting_count_a = 300;
  meeting_count_b = 5;
  rep_of_b_by_a = negsuc 41;
  rep_of_a_by_b = pos 7;
  bssids_a = replicate 6 3 ∷ replicate 6 4 ∷ [];
  bssids_b = [];
  nonce_a = replicate 16 5;
  nonce_b = replicate 16 6;
  tx_bytes_a_to_b_lifetime = 5000000000;
  rx_bytes_a_from_b_lifetime = 70000;
  tx_bytes_b_to_a_lifetime = 0;
  rx_bytes_b_from_a_lifetime = 23;
  file_count_a_from_b_lifetime = 24;
  file_count_b_from_a_lifetime = 256;
  sig_a = replicate 64 7;
  sig_b = replicate 64 8;
}

sample-IsWellFormed : IsWellFormed sample
sample-IsWellFormed = record {
  version = refl;
  fits = record {
    pub_a = refl;
    pub_b = refl;
    meeting_count_a = omega arith;
    meeting_count_b = omega arith;
    rep_of_b_by_a = omega arith;
    rep_of_a_by_b = omega arith;
    bssids_a = omega arith;
    bssids_b = omega arith;
    nonce_a = refl;
    nonce_b = refl;
    tx_bytes_a_to_b_lifetime = omega arith;
    rx_bytes_a_from_b_lifetime = omega arith;
    tx_bytes_b_to_a_lifetime = omega arith;
    rx_bytes_b_from_a_lifetime = omega arith;
    file_count_a_from_b_lifetime = omega arith;
    file_count_b_from_a_lifetime = omega arith;
    sig_a = refl;
    sig_b = refl;
  };
}

decode-encode_full_example :
    (bs : Bytes) × (encounter_record_encode_full sample 512 ≡ some bs)
    × (length bs ≤ 512)
    × (encounter_record_decode bs ≡ some sample)
decode-encode_full_example = decode-encode_full sample 512 sample-IsWellFormed (omega arith)

abbrev all_bytes : Bytes → Bool
all_bytes [] = true
all_bytes (b ∷ bs) = ltb b 256 && all_bytes bs

all_bytes-IsByte : (bs : Bytes) → all_bytes bs ≡ true → All IsByte bs
all_bytes-IsByte [] h = tt
all_bytes-IsByte (b ∷ bs) h = ground (arith, all_bytes-IsByte bs)

sample-IsByte : All IsByte (record_bytes sample true)
unfolding record_bytes encode_bssids encode_header cborencode_uint uint64_bytes cborencode_uint64
    cborencode_int cborencode_byte_str cborencode_array_header cborencode_map_header put_pairs
    put_strs
sample-IsByte = all_bytes-IsByte (record_bytes sample true) refl

decode-IsWellFormed_example : IsWellFormed sample
decode-IsWellFormed_example =
    decode-IsWellFormed (record_bytes sample true) sample sample-IsByte
      (decode-record_bytes sample sample-IsWellFormed)

encode_full-none_example :
    (encounter_record_encode_full sample 511 ≡ none)
    ↔ ((sample.version ≢ 1) ⊎ ((8 < 2) ⊎ ((8 < 0) ⊎ (511 < 512))))
encode_full-none_example = encode_full-none sample 511

-- The least argument of -(n + 1) that wraps: the code's `v->arg + 1` is 0 there, and the result is 0
-- in place of the least number.
cbor_to_int32_wraps :
    cbor_to_int32
      (record { type = int; arg = 18446744073709551615; payload = []; start = []; next = [] })
    ≡ pos 0
unfolding cbor_to_int32
cbor_to_int32_wraps = refl
