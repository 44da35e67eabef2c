-- ===== src/EncounterRecord/Size.antt =====
-- The encoder of encounter_record.c checks the buffer once, against a constant; the bytes that it
-- then writes without a check fit that constant.
use waxwing.Common.{ℕ, ◌+◌, ◌≤◌, arith, List, [], length, length-append, true, false}
use waxwing.Common.Bytes.{Bytes}
use waxwing.Cbor.Encode.{put_pairs, cborencode_map_header}
use waxwing.Cbor.Encode.{cborencode_array_header, put_strs}
use waxwing.Cbor.Lengths.{length-cborencode_uint64, length-cborencode_int}
use waxwing.Cbor.Lengths.{length-cborencode_byte_str, length-put_strs, length-put_pairs, pairs_size}
use waxwing.Cbor.Lengths.{length-cborencode_map_header, length-cborencode_array_header}
use waxwing.Cbor.Lengths.{length-cborencode_uint_short}
use waxwing.EncounterRecord.{EncounterRecord, encode_bssids, body_pairs, sig_pairs, record_bytes}
use waxwing.EncounterRecord.Valid.{IsWellFormed, IsBssids}

pub length-encode_bssids : (ss : List Bytes) → IsBssids ss → length (encode_bssids ss) ≤ 57
unfolding encode_bssids
length-encode_bssids ss h = omega (
  arith,
  length-append (cborencode_array_header (length ss)) (put_strs ss),
  length-cborencode_array_header (length ss) (omega arith),
  length-put_strs ss h.1,
)

pairs_size-body_pairs :
    (rec : EncounterRecord) (rest : List (ℕ × Bytes))
    → IsWellFormed rec
    → pairs_size (body_pairs rec rest) ≤ 318 + pairs_size rest
pairs_size-body_pairs rec rest wf = omega (
  arith,
  length-cborencode_uint_short rec.version (omega (arith, wf.version)),
  length-cborencode_byte_str rec.pub_a (omega (arith, wf.pub_a)),
  length-cborencode_byte_str rec.pub_b (omega (arith, wf.pub_b)),
  length-cborencode_uint64 rec.meeting_count_a,
  length-cborencode_uint64 rec.meeting_count_b,
  length-cborencode_int rec.rep_of_b_by_a,
  length-cborencode_int rec.rep_of_a_by_b,
  length-encode_bssids rec.bssids_a wf.bssids_a,
  length-encode_bssids rec.bssids_b wf.bssids_b,
  length-cborencode_byte_str rec.nonce_a (omega (arith, wf.nonce_a)),
  length-cborencode_byte_str rec.nonce_b (omega (arith, wf.nonce_b)),
  length-cborencode_uint64 rec.tx_bytes_a_to_b_lifetime,
  length-cborencode_uint64 rec.rx_bytes_a_from_b_lifetime,
  length-cborencode_uint64 rec.tx_bytes_b_to_a_lifetime,
  length-cborencode_uint64 rec.rx_bytes_b_from_a_lifetime,
  length-cborencode_uint64 rec.file_count_a_from_b_lifetime,
  length-cborencode_uint64 rec.file_count_b_from_a_lifetime,
  wf.pub_a,
  wf.pub_b,
  wf.nonce_a,
  wf.nonce_b,
)

pub length-record_bytes_body :
    (rec : EncounterRecord) → IsWellFormed rec → length (record_bytes rec false) ≤ 384
unfolding record_bytes
length-record_bytes_body rec wf = omega (
  arith,
  length-append (cborencode_map_header 17) (put_pairs (body_pairs rec [])),
  length-cborencode_map_header 17 (omega arith),
  length-put_pairs (body_pairs rec []) (omega arith),
  pairs_size-body_pairs rec [] wf,
)

pub length-record_bytes_full :
    (rec : EncounterRecord) → IsWellFormed rec → length (record_bytes rec true) ≤ 512
unfolding record_bytes
length-record_bytes_full rec wf = omega (
  arith,
  length-append (cborencode_map_header 19) (put_pairs (body_pairs rec (sig_pairs rec))),
  length-cborencode_map_header 19 (omega arith),
  length-put_pairs (body_pairs rec (sig_pairs rec)) (omega arith),
  pairs_size-body_pairs rec (sig_pairs rec) wf,
  length-cborencode_byte_str rec.sig_a (omega (arith, wf.sig_a)),
  length-cborencode_byte_str rec.sig_b (omega (arith, wf.sig_b)),
  wf.sig_a,
  wf.sig_b,
)
