-- ===== src/EncounterSession/Tests.antt =====
-- Tests of encounter_session.c's model: a handshake of two sides over a signature scheme that is made
-- up for the tests, and witnesses.
use waxwing.Common.{
  ℕ, ◌≡◌, refl, ◌∙◌, sym, ap, subst, arith, [], ◌∷◌, ◌++◌, true, false, some, none,
}
use waxwing.Common.{◌≤◌, length, take, replicate, length-append, length-take, length-replicate}
use mathlib.Core.Option.{some-injective}
use waxwing.Common.Int.{pos, negsuc}
use waxwing.Common.Bytes.{Bytes, bytes_eq, bytes_eq_refl}
use waxwing.HalCrypto.{HalCrypto, IsCorrect}
use waxwing.EncounterRecord.{EncounterRecord, zero_record, encounter_record_verify}
use waxwing.EncounterSession.{
  Session, initiator, responder, st_error, encounter_session_take_record, late_bound,
}
use waxwing.EncounterSession.{encounter_session_start, encounter_session_handle}
use waxwing.EncounterSession.Message.{
  LocalInput, local_half, encode_half_message, decode_half_message,
}
use waxwing.EncounterSession.Message.{
  prefix_matches_or_zero, msg_propose, msg_accept, write_half, encode_confirm, decode_confirm,
}
use waxwing.EncounterSession.{
  inputs_valid, start_initiator, handle_initiator_accept, handle_responder_propose,
}
use waxwing.EncounterSession.{handle_responder_confirm}
use waxwing.EncounterSession.Message.{
  find_key_loop, find_int_key, fill_local_half, half_bytes, decode_half,
}
use waxwing.EncounterSession.Message.{decode_sig, encode_propose, encode_accept}
use waxwing.EncounterRecord.{
  encode_bssids, record_bytes, encode_record, encounter_record_encode_body,
}
use waxwing.EncounterRecord.{
  cbor_to_int32, bssid_loop, decode_bssids, decode_bstr_fixed, decode_uint, decode_int,
}
use waxwing.Cbor.Decode.{
  read_be, decode_arg, skip_children, parse_int, parse_str, parse_children, parse_nested,
}
use waxwing.Cbor.Decode.{parse_simple, parse_major, cbor_parse_internal, cbor_parse, parse_pair}
use waxwing.Cbor.Encode.{
  encode_header, cborencode_uint, uint64_bytes, cborencode_uint64, cborencode_int,
}
use waxwing.Cbor.Encode.{
  cborencode_byte_str, cborencode_array_header, cborencode_map_header, put_pairs, put_strs,
}
use waxwing.EncounterSession.RoundTrip.{IsHalf}
use waxwing.EncounterSession.Sides.{IsOurs}
use waxwing.EncounterSession.Sound.{take_record-verify, Reaches, started, handled}
use waxwing.EncounterSession.Complete.{Honest, Handshake, handshake, handshake-Agrees, Agrees}
use waxwing.EncounterSession.Size.{
  decode-encode_propose, decode-encode_accept, decode-encode_confirm,
}

-- A signature is the key, filled up to 64 bytes, and the key is the seed.
abbrev toy_sig : Bytes → Bytes
toy_sig key = take 64 (key ++ replicate 64 0)

abbrev toy_crypto : HalCrypto
toy_crypto = record {
  hal_ed25519_derive_pub = λ seed. some seed;
  hal_ed25519_sign = λ seed message. some (toy_sig seed);
  hal_ed25519_verify = λ pub_key message sig. bytes_eq sig (toy_sig pub_key);
}

length-toy_sig : (key : Bytes) → length (toy_sig key) ≡ 64
length-toy_sig key = omega (
  arith,
  length-take 64 (key ++ replicate 64 0),
  length-append key (replicate 64 0),
  length-replicate {A = ℕ} 64 0,
)

toy_crypto-IsCorrect : IsCorrect toy_crypto
toy_crypto-IsCorrect = record {
  length-sign =
      λ seed message sig e. subst (λ s. length s ≡ 64) (some-injective _ _ e) (length-toy_sig seed);
  verify-sign = λ seed message pub_key sig k e.
      subst (λ s. bytes_eq s (toy_sig pub_key) ≡ true)
        (ap toy_sig (sym (some-injective _ _ k)) ∙ some-injective _ _ e)
        (bytes_eq_refl (toy_sig pub_key));
}

abbrev ann : LocalInput
ann = record {
  pub_key = replicate 32 1;
  seed = replicate 32 1;
  nonce = replicate 16 7;
  expected_peer_prefix = replicate 8 2;
  meeting_count = 5;
  rep_of_peer = negsuc 3;
  bssids = replicate 6 9 ∷ [];
  tx_bytes_to_peer_lifetime = 1000;
  rx_bytes_from_peer_lifetime = 70000;
  file_count_from_peer_lifetime = 2;
  late_bind = none;
}

abbrev bob : LocalInput
bob = record {
  pub_key = replicate 32 2;
  seed = replicate 32 2;
  nonce = replicate 16 8;
  expected_peer_prefix = replicate 8 0;
  meeting_count = 6;
  rep_of_peer = pos 0;
  bssids = [];
  tx_bytes_to_peer_lifetime = 0;
  rx_bytes_from_peer_lifetime = 0;
  file_count_from_peer_lifetime = 0;
  late_bind = some (λ peer_pub. some (record {
    rep_of_peer = pos 12;
    tx_bytes_to_peer_lifetime = 70000;
    rx_bytes_from_peer_lifetime = 1000;
    file_count_from_peer_lifetime = 3;
  }));
}

abbrev idle : Session
idle = record { role = initiator; state = st_error; me = ann; rec = zero_record }

ann-bob-Honest : Honest toy_crypto ann bob
unfolding late_bound prefix_matches_or_zero
ann-bob-Honest = record {
  input_a = record {
    pub_key = refl;
    meeting_count = omega arith;
    rep_of_peer = omega arith;
    bssids = omega arith;
    nonce = refl;
    tx_lifetime = omega arith;
    rx_lifetime = omega arith;
    file_lifetime = omega arith;
  };
  input_b = record {
    pub_key = refl;
    meeting_count = omega arith;
    rep_of_peer = omega arith;
    bssids = omega arith;
    nonce = refl;
    tx_lifetime = omega arith;
    rx_lifetime = omega arith;
    file_lifetime = omega arith;
  };
  pair_a = refl;
  pair_b = refl;
  expects_a = refl;
  expects_b = bytes_eq_refl (replicate 8 2);
  signs = λ seed message. (toy_sig seed, refl);
}

abbrev run : Handshake
run = handshake toy_crypto idle idle ann bob 256

handshake-Agrees_example : Agrees toy_crypto ann bob (handshake toy_crypto idle idle ann bob 256)
handshake-Agrees_example =
    handshake-Agrees toy_crypto idle idle ann bob 256 toy_crypto-IsCorrect ann-bob-Honest
      (omega arith)

abbrev ann_bob_record : EncounterRecord
ann_bob_record =
    record (write_half true (write_half false (record zero_record { version = 1 }) (local_half ann))
      (local_half (record bob {
        rep_of_peer = pos 12;
        tx_bytes_to_peer_lifetime = 70000;
        rx_bytes_from_peer_lifetime = 1000;
        file_count_from_peer_lifetime = 3;
      }))) { sig_a = toy_sig (replicate 32 1); sig_b = toy_sig (replicate 32 2) }

run-record : encounter_session_take_record run.b_done.session ≡ some ann_bob_record
unfolding encounter_session_take_record encounter_session_start encounter_session_handle
    inputs_valid start_initiator late_bound handle_initiator_accept handle_responder_propose
    handle_responder_confirm find_key_loop find_int_key prefix_matches_or_zero fill_local_half
    half_bytes encode_half_message decode_half decode_sig decode_half_message encode_propose
    encode_accept encode_confirm decode_confirm encode_bssids record_bytes encode_record
    encounter_record_encode_body cbor_to_int32 bssid_loop decode_bssids decode_bstr_fixed
    decode_uint decode_int read_be decode_arg skip_children parse_int parse_str parse_children
    parse_nested parse_simple parse_major cbor_parse_internal cbor_parse parse_pair bytes_eq
    encode_header cborencode_uint uint64_bytes cborencode_uint64 cborencode_int cborencode_byte_str
    cborencode_array_header cborencode_map_header put_pairs put_strs
run-record = refl

run-Reaches : Reaches toy_crypto run.b_done.session
run-Reaches =
    handled _ run.a_confirm.out 256
      (handled _ run.a_start.out 256 (started idle responder bob 256 refl))

take_record-verify_example :
    (encounter_record_verify toy_crypto ann_bob_record ≡ true)
    × IsOurs run.b_done.session ann_bob_record
take_record-verify_example =
    take_record-verify toy_crypto run.b_done.session ann_bob_record toy_crypto-IsCorrect run-Reaches
      run-record

ann-IsHalf : IsHalf (local_half ann)
ann-IsHalf = ann-bob-Honest.input_a

decode-encode_propose_example :
    (bs : Bytes) × (encode_half_message 256 msg_propose 1 (local_half ann) none ≡ some bs)
    × (length bs ≤ 256)
    × (decode_half_message bs msg_propose false zero_record
        ≡ some (write_half false (record zero_record { version = 1 }) (local_half ann)))
decode-encode_propose_example =
    decode-encode_propose (local_half ann) 256 false zero_record ann-IsHalf (omega arith)

decode-encode_accept_example :
    (bs : Bytes) × (encode_half_message 256 msg_accept 1 (local_half ann) (some (replicate 64 5))
      ≡ some bs)
    × (length bs ≤ 256)
    × (decode_half_message bs msg_accept true zero_record
        ≡ some (record (write_half true (record zero_record { version = 1 }) (local_half ann)) {
          sig_b = replicate 64 5;
        }))
decode-encode_accept_example =
    decode-encode_accept (local_half ann) (replicate 64 5) 256 true zero_record ann-IsHalf refl
      (omega arith)

decode-encode_confirm_example :
    (bs : Bytes) × (encode_confirm (replicate 64 5) 256 ≡ some bs)
    × (length bs ≤ 256)
    × (decode_confirm bs ≡ some (replicate 64 5))
decode-encode_confirm_example = decode-encode_confirm (replicate 64 5) 256 refl (omega arith)
