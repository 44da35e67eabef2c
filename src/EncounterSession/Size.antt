-- ===== src/EncounterSession/Size.antt =====
-- encode_half_message and encode_confirm check the buffer against one constant; what they write
-- behind that check fits it.
use waxwing.Common.{
  Bool, ℕ, ◌+◌, ◌≤◌, ◌<◌, ◌≡◌, arith, List, [], ◌∷◌, length, length-append, some, none,
}
use waxwing.Common.Bytes.{Bytes}
use waxwing.Cbor.Encode.{put_pairs, cborencode_map_header, cborencode_uint, cborencode_byte_str}
use waxwing.Cbor.Lengths.{length-cborencode_uint64, length-cborencode_int}
use waxwing.Cbor.Lengths.{length-cborencode_byte_str, length-put_pairs, pairs_size}
use waxwing.Cbor.Lengths.{length-cborencode_map_header, length-cborencode_uint_short}
use waxwing.EncounterRecord.Size.{length-encode_bssids}
use waxwing.EncounterSession.Message.{Half, half_bytes, half_pairs, sig_pair, confirm_bytes}
use waxwing.EncounterRecord.{EncounterRecord}
use waxwing.EncounterSession.Message.{
  encode_half_message, decode_half_message, write_half, msg_propose, msg_accept,
}
use waxwing.EncounterSession.Message.{encode_confirm, decode_confirm}
use waxwing.EncounterSession.RoundTrip.{IsHalf, decode-propose, decode-accept, decode-confirm}

pairs_size-half_pairs :
    (t : ℕ) (h : Half) (rest : List (ℕ × Bytes))
    → t < 4
    → IsHalf h
    → pairs_size (half_pairs t 1 h rest) ≤ 162 + pairs_size rest
pairs_size-half_pairs t h rest small wf = omega (
  arith,
  length-cborencode_uint_short t (omega arith),
  length-cborencode_uint_short 1 (omega arith),
  length-cborencode_byte_str h.pub_key (omega (arith, wf.pub_key)),
  length-cborencode_uint64 h.meeting_count,
  length-cborencode_int h.rep_of_peer,
  length-encode_bssids h.bssids wf.bssids,
  length-cborencode_byte_str h.nonce (omega (arith, wf.nonce)),
  length-cborencode_uint64 h.tx_lifetime,
  length-cborencode_uint64 h.rx_lifetime,
  length-cborencode_uint64 h.file_lifetime,
  wf.pub_key,
  wf.nonce,
)

pub length-propose_bytes : (h : Half) → IsHalf h → length (half_bytes 1 1 h none) ≤ 256
unfolding half_bytes
length-propose_bytes h wf = omega (
  arith,
  length-append (cborencode_map_header 10) (put_pairs (half_pairs 1 1 h [])),
  length-cborencode_map_header 10 (omega arith),
  length-put_pairs (half_pairs 1 1 h []) (omega arith),
  pairs_size-half_pairs 1 h [] (omega arith) wf,
)

pub length-accept_bytes :
    (h : Half) (sig : Bytes)
    → IsHalf h
    → length sig ≡ 64
    → length (half_bytes 2 1 h (some sig)) ≤ 256
unfolding half_bytes
length-accept_bytes h sig wf sig_wf = omega (
  arith,
  length-append (cborencode_map_header 11) (put_pairs (half_pairs 2 1 h (sig_pair (some sig)))),
  length-cborencode_map_header 11 (omega arith),
  length-put_pairs (half_pairs 2 1 h (sig_pair (some sig))) (omega arith),
  pairs_size-half_pairs 2 h (sig_pair (some sig)) (omega arith) wf,
  length-cborencode_byte_str sig (omega (arith, sig_wf)),
  sig_wf,
)

pub length-confirm_bytes : (sig : Bytes) → length sig ≡ 64 → length (confirm_bytes sig) ≤ 256
length-confirm_bytes sig sig_wf = omega (
  arith,
  length-append (cborencode_map_header 2)
      (put_pairs ((1, cborencode_uint 3) ∷ (11, cborencode_byte_str sig) ∷ [])),
  length-cborencode_map_header 2 (omega arith),
  length-put_pairs ((1, cborencode_uint 3) ∷ (11, cborencode_byte_str sig) ∷ []) (omega arith),
  length-cborencode_uint_short 3 (omega arith),
  length-cborencode_byte_str sig (omega (arith, sig_wf)),
  sig_wf,
)

-- For a side whose members have the sizes of the structure and a buffer of 256 bytes or more, PROPOSE
-- is encoded, fits the 256 bytes, and decoding it fills the chosen side of the record with the
-- values that were sent and sets the version to 1.
pub decode-encode_propose :
    (h : Half) (out_max : ℕ) (side : Bool) (rec : EncounterRecord)
    → IsHalf h
    → 256 ≤ out_max
    → (bs : Bytes) × (encode_half_message out_max msg_propose 1 h none ≡ some bs)
      × (length bs ≤ 256)
      × (decode_half_message bs msg_propose side rec
          ≡ some (write_half side (record rec { version = 1 }) h))
unfolding encode_half_message
decode-encode_propose h out_max side rec wf room = (
  half_bytes 1 1 h none,
  ground (arith, wf.bssids.0),
  length-propose_bytes h wf,
  decode-propose h wf side rec,
)

-- The same for ACCEPT, with a signature of 64 bytes, which is decoded too.
pub decode-encode_accept :
    (h : Half) (sig : Bytes) (out_max : ℕ) (side : Bool) (rec : EncounterRecord)
    → IsHalf h
    → length sig ≡ 64
    → 256 ≤ out_max
    → (bs : Bytes) × (encode_half_message out_max msg_accept 1 h (some sig) ≡ some bs)
      × (length bs ≤ 256)
      × (decode_half_message bs msg_accept side rec
          ≡ some (record (write_half side (record rec { version = 1 }) h) { sig_b = sig }))
unfolding encode_half_message
decode-encode_accept h sig out_max side rec wf sig_wf room = (
  half_bytes 2 1 h (some sig),
  ground (arith, wf.bssids.0),
  length-accept_bytes h sig wf sig_wf,
  decode-accept h wf sig sig_wf side rec,
)

-- A signature of 64 bytes is sent in CONFIRM, which fits the 256 bytes, and is decoded from it.
pub decode-encode_confirm :
    (sig : Bytes) (out_max : ℕ)
    → length sig ≡ 64
    → 256 ≤ out_max
    → (bs : Bytes) × (encode_confirm sig out_max ≡ some bs)
      × (length bs ≤ 256)
      × (decode_confirm bs ≡ some sig)
unfolding encode_confirm
decode-encode_confirm sig out_max sig_wf room =
    (confirm_bytes sig, ground arith, length-confirm_bytes sig sig_wf, decode-confirm sig sig_wf)
