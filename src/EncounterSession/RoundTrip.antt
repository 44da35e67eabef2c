-- ===== src/EncounterSession/RoundTrip.antt =====
-- The messages of encounter_session.c: what one side encodes, the other side decodes.
use waxwing.Common.{ℕ, ◌^◌, ◌<◌, ◌≡◌, refl, subst, arith}
use waxwing.Common.{List, [], ◌∷◌, ◌++◌, Option, none, some, length}
use waxwing.Common.{append-nil, Bool, ◌==◌, if◌then◌else◌}
use waxwing.Common.Int.{IsInt32}
use waxwing.Common.Bytes.{Bytes}
use waxwing.Cbor.Encode.{put_pairs}
use waxwing.Cbor.Decode.{CborItem, cbor_parse, map}
use waxwing.Cbor.Nested.{nested_item}
use waxwing.Cbor.Fields.{Field, uint_value, uint64_value, int_value, str_value}
use waxwing.Cbor.Fields.{put_fields, map_bytes, cbor_parse-map_bytes, parse_pair-field}
use waxwing.EncounterRecord.{EncounterRecord, encode_bssids, decode_uint}
use waxwing.EncounterRecord.Valid.{IsBssids}
use waxwing.EncounterRecord.RoundTrip.{field, str_small, bssids_value, decode_bstr_fixed-str_item}
use waxwing.EncounterRecord.RoundTrip.{decode_int-int_item, decode_bssids-item}
use waxwing.EncounterSession.Message.{Half, half_bytes, decode_half_message}
use waxwing.EncounterSession.Message.{
  find_key_loop, find_int_key, decode_half, decode_sig, write_half,
}
use waxwing.EncounterSession.Message.{msg_propose, msg_accept, confirm_bytes, decode_confirm}

-- A half whose members have the sizes of the C structure.
pub record IsHalf (h : Half) : Type 0 where
  pub pub_key : length h.pub_key ≡ 32
  pub meeting_count : h.meeting_count < 2 ^ 64
  pub rep_of_peer : IsInt32 h.rep_of_peer
  pub bssids : IsBssids h.bssids
  pub nonce : length h.nonce ≡ 16
  pub tx_lifetime : h.tx_lifetime < 2 ^ 64
  pub rx_lifetime : h.rx_lifetime < 2 ^ 64
  pub file_lifetime : h.file_lifetime < 2 ^ 64

-- What the search for a key finds in a map that was written field by field.
abbrev lookup : List Field → Bytes → ℕ → Option CborItem
lookup [] rest k = none
lookup (f ∷ fs) rest k =
    if f.key == k then some (f.value.item (put_fields fs ++ rest)) else lookup fs rest k

find_key_loop-fields :
    (fs : List Field) (rest : Bytes) (k : ℕ)
    → find_key_loop (length fs) (put_fields fs ++ rest) k ≡ lookup fs rest k
unfolding find_key_loop
find_key_loop-fields [] rest k = refl
find_key_loop-fields (f ∷ fs) rest k = ground (
  arith,
  parse_pair-field f fs rest,
  f.value.next_lem (put_fields fs ++ rest),
  find_key_loop-fields fs rest k,
)

-- The map itself, once it is parsed.
abbrev root : List Field → CborItem
root fs = nested_item map (length fs) (put_fields fs) (map_bytes fs) []

find_int_key-root : (fs : List Field) (k : ℕ) → find_int_key (root fs) k ≡ lookup fs [] k
unfolding find_int_key
find_int_key-root fs k = find_key_loop-fields fs [] k

parse-map_bytes :
    (fs : List Field) → length fs < 2 ^ 32 → cbor_parse (map_bytes fs) ≡ some (root fs)
parse-map_bytes fs h =
    subst (λ bs. cbor_parse bs ≡ some (root fs)) (append-nil (map_bytes fs))
      (cbor_parse-map_bytes fs [] h)

module _ (msg_type : ℕ) (msg_small : msg_type < 4) (h : Half) (wf : IsHalf h) where
  -- Keys 1 to 10, with the fields `rest` behind them.
  abbrev half_fields : List Field → List Field
  half_fields rest =
      field 1 (omega arith) (uint_value msg_type (omega arith))
      ∷ field 2 (omega arith) (uint_value 1 (omega arith))
      ∷ field 3 (omega arith) (str_value h.pub_key (str_small h.pub_key wf.pub_key (omega arith)))
      ∷ field 4 (omega arith) (uint64_value h.meeting_count wf.meeting_count)
      ∷ field 5 (omega arith) (int_value h.rep_of_peer wf.rep_of_peer)
      ∷ field 6 (omega arith) (bssids_value h.bssids wf.bssids)
      ∷ field 7 (omega arith) (str_value h.nonce (str_small h.nonce wf.nonce (omega arith)))
      ∷ field 8 (omega arith) (uint64_value h.tx_lifetime wf.tx_lifetime)
      ∷ field 9 (omega arith) (uint64_value h.rx_lifetime wf.rx_lifetime)
      ∷ field 10 (omega arith) (uint64_value h.file_lifetime wf.file_lifetime)
      ∷ rest

  decode_half-root : (rest : List Field) → decode_half (root (half_fields rest)) ≡ some h
  unfolding decode_half decode_uint
  decode_half-root rest = rw (
    find_int_key-root (half_fields rest) 3,
    find_int_key-root (half_fields rest) 4,
    find_int_key-root (half_fields rest) 5,
    find_int_key-root (half_fields rest) 6,
    find_int_key-root (half_fields rest) 7,
    find_int_key-root (half_fields rest) 8,
    find_int_key-root (half_fields rest) 9,
    find_int_key-root (half_fields rest) 10,
    decode_bstr_fixed-str_item h.pub_key _ _ 32 wf.pub_key,
    decode_int-int_item h.rep_of_peer _ _ wf.rep_of_peer,
    decode_bssids-item h.bssids _ _ wf.bssids,
    decode_bstr_fixed-str_item h.nonce _ _ 16 wf.nonce,
  )

module _ (h : Half) (wf : IsHalf h) where
  abbrev propose_fields : List Field
  propose_fields = half_fields 1 (omega arith) h wf []

  propose-bytes : half_bytes msg_propose 1 h none ≡ map_bytes propose_fields
  unfolding half_bytes put_fields put_pairs encode_bssids
  propose-bytes = refl

  pub decode-propose :
      (side : Bool) (rec : EncounterRecord)
      → decode_half_message (half_bytes msg_propose 1 h none) msg_propose side rec
        ≡ some (write_half side (record rec { version = 1 }) h)
  unfolding decode_half_message
  decode-propose side rec = rw (
    propose-bytes,
    parse-map_bytes propose_fields (omega arith),
    find_int_key-root propose_fields 1,
    find_int_key-root propose_fields 2,
    decode_half-root 1 (omega arith) h wf [],
  )

  module _ (sig : Bytes) (sig_wf : length sig ≡ 64) where
    abbrev sig_field : Field
    sig_field = field 11 (omega arith) (str_value sig (str_small sig sig_wf (omega arith)))

    abbrev accept_fields : List Field
    accept_fields = half_fields 2 (omega arith) h wf (sig_field ∷ [])

    accept-bytes : half_bytes msg_accept 1 h (some sig) ≡ map_bytes accept_fields
    unfolding half_bytes put_fields put_pairs encode_bssids
    accept-bytes = refl

    pub decode-accept :
        (side : Bool) (rec : EncounterRecord)
        → decode_half_message (half_bytes msg_accept 1 h (some sig)) msg_accept side rec
          ≡ some (record (write_half side (record rec { version = 1 }) h) { sig_b = sig })
    unfolding decode_half_message decode_sig
    decode-accept side rec = rw (
      accept-bytes,
      parse-map_bytes accept_fields (omega arith),
      find_int_key-root accept_fields 1,
      find_int_key-root accept_fields 2,
      decode_half-root 2 (omega arith) h wf (sig_field ∷ []),
      find_int_key-root accept_fields 11,
      decode_bstr_fixed-str_item sig _ _ 64 sig_wf,
    )

module _ (sig : Bytes) (sig_wf : length sig ≡ 64) where
  abbrev confirm_fields : List Field
  confirm_fields =
      field 1 (omega arith) (uint_value 3 (omega arith))
      ∷ field 11 (omega arith) (str_value sig (str_small sig sig_wf (omega arith)))
      ∷ []

  confirm-bytes : confirm_bytes sig ≡ map_bytes confirm_fields
  unfolding put_fields put_pairs
  confirm-bytes = refl

  -- CONFIRM carries the signature to the other side.
  pub decode-confirm : decode_confirm (confirm_bytes sig) ≡ some sig
  unfolding decode_confirm decode_sig
  decode-confirm = rw (
    confirm-bytes,
    parse-map_bytes confirm_fields (omega arith),
    find_int_key-root confirm_fields 1,
    find_int_key-root confirm_fields 11,
    decode_bstr_fixed-str_item sig _ _ 64 sig_wf,
  )
