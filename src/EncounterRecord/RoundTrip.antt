-- ===== src/EncounterRecord/RoundTrip.antt =====
-- What encounter_record_encode_full writes, encounter_record_decode reads back.
use waxwing.Common.{ℕ, suc, ◌^◌, ◌≤◌, ◌<◌, ◌≡◌, refl, sym, ap, ◌∙◌, subst, arith}
use waxwing.Common.{List, [], ◌∷◌, ◌++◌, Option, some, length, take, take-append, All, bit_or}
use waxwing.Common.{append_assoc, append-nil, ltb, true, ◌&&◌}
use waxwing.Common.Int.{ℤ, pos, negsuc, IsInt32}
use waxwing.Common.Bytes.{Bytes}
use waxwing.Cbor.Encode.{cborencode_byte_str, put_strs, put_pairs}
use waxwing.Cbor.Decode.{cbor_parse, bstr, array, map, uint}
use waxwing.Cbor.RoundTrip.{int_item, str_item, int_type, int_arg}
use waxwing.Cbor.Nested.{nested_item}
use waxwing.Cbor.Fields.{Value, Field, uint_value, uint64_value, int_value, str_value, strs_value}
use waxwing.Cbor.Fields.{
  put_fields, map_bytes, cbor_parse-map_bytes, parse_pair-field, cbor_parse-value,
}
use waxwing.EncounterRecord.{
  EncounterRecord, zero_record, encounter_record_encode_full, encode_record,
}
use waxwing.EncounterRecord.{
  record_bytes, cbor_to_int32, bssid_loop, decode_bssids, decode_bstr_fixed,
}
use waxwing.EncounterRecord.{decode_uint, decode_int, decode_version, decode_field, decode_pairs}
use waxwing.EncounterRecord.{encounter_record_decode, encode_bssids, required, store}
use waxwing.EncounterRecord.Size.{length-record_bytes_full}
use waxwing.EncounterRecord.Valid.{IsWellFormed, IsBssids}

take-append_eq : (n : ℕ) (s rest : Bytes) → length s ≡ n → take n (s ++ rest) ≡ s
take-append_eq n s rest h = subst (λ k. take k (s ++ rest) ≡ s) h (take-append s rest)

pub decode_bstr_fixed-str_item :
    (s bs rest : Bytes) (n : ℕ)
    → length s ≡ n
    → decode_bstr_fixed (str_item bstr s bs rest) n ≡ some s
unfolding decode_bstr_fixed
decode_bstr_fixed-str_item s bs rest n h = ground (arith, take-append_eq n s rest h)

pub cbor_to_int32-int_item :
    (v : ℤ) (bs rest : Bytes)
    → IsInt32 v
    → cbor_to_int32 (int_item (int_type v) (int_arg v) bs rest) ≡ v
unfolding cbor_to_int32
cbor_to_int32-int_item (pos n) bs rest h = ground arith
cbor_to_int32-int_item (negsuc n) bs rest h = ground arith

bssid_loop-put_strs :
    (ss : List Bytes) (rest : Bytes)
    → All (λ s. length s ≡ 6) ss
    → bssid_loop (length ss) (put_strs ss ++ rest) ≡ some ss
unfolding bssid_loop put_strs
bssid_loop-put_strs [] rest h = refl
bssid_loop-put_strs (s ∷ ss) rest h = ground (
  arith,
  append_assoc (cborencode_byte_str s) (put_strs ss) rest,
  cbor_parse-value (str_value s (omega arith)) (put_strs ss ++ rest),
  take-append_eq 6 s (put_strs ss ++ rest),
  bssid_loop-put_strs ss rest h.1,
)

pub decode_bssids-item :
    (ss : List Bytes) (bs rest : Bytes)
    → IsBssids ss
    → decode_bssids (nested_item array (length ss) (put_strs ss) bs rest) ≡ some ss
unfolding decode_bssids
decode_bssids-item ss bs rest h = ground (arith, bssid_loop-put_strs ss rest h.1)

-- One round of the loop over the pairs, at a field that it decodes.
decode_pairs-cons :
    (f : Field) (fs : List Field) (rest : Bytes) (n seen : ℕ) (out out' : EncounterRecord)
    {r : Option (EncounterRecord × ℕ)}
    → decode_field f.key (f.value.item (put_fields fs ++ rest)) out ≡ some out'
    → decode_pairs n (put_fields fs ++ rest) out' (bit_or seen (2 ^ f.key)) ≡ r
    → (ltb 0 f.key && ltb f.key 32) ≡ true
    → decode_pairs (suc n) (put_fields (f ∷ fs) ++ rest) out seen ≡ r
unfolding decode_pairs
decode_pairs-cons f fs rest n seen out out' e more range =
    ground (arith, parse_pair-field f fs rest, f.value.next_lem (put_fields fs ++ rest))

decode_pairs-nil :
    (rest : Bytes) (out : EncounterRecord) (seen : ℕ)
    → decode_pairs 0 (put_fields [] ++ rest) out seen ≡ some (out, seen)
unfolding decode_pairs
decode_pairs-nil rest out seen = refl

store-some :
    {A : Type 0} {m : Option A} {x : A} (write : A → EncounterRecord)
    → m ≡ some x
    → store m write ≡ some (write x)
unfolding store
store-some write e = rw e

pub str_small : (s : Bytes) {n : ℕ} → length s ≡ n → n ≤ 64 → length s < 2 ^ 32
str_small s h k = omega arith

abbrev pub bssids_value : (ss : List Bytes) → IsBssids ss → Value
bssids_value ss h = strs_value ss (omega arith) h.1

abbrev pub field : (key : ℕ) → key < 32 → Value → Field
field key h v = record { key = key; key_small = omega arith; value = v }

pub decode_int-int_item :
    (v : ℤ) (bs rest : Bytes)
    → IsInt32 v
    → decode_int (int_item (int_type v) (int_arg v) bs rest) ≡ some v
unfolding decode_int
decode_int-int_item (pos n) bs rest h = ap some (cbor_to_int32-int_item (pos n) bs rest h)
decode_int-int_item (negsuc n) bs rest h = ap some (cbor_to_int32-int_item (negsuc n) bs rest h)

decode_version-item :
    (v : ℕ) (bs rest : Bytes) → v ≡ 1 → decode_version (int_item uint v bs rest) ≡ some v
unfolding decode_version
decode_version-item v bs rest h = ground arith

module _ (rec : EncounterRecord) (wf : IsWellFormed rec) where
  -- The fields of a full record.
  abbrev record_fields : List Field
  record_fields =
      field 1 (omega arith) (uint_value rec.version (omega (arith, wf.version)))
      ∷ field 2 (omega arith) (str_value rec.pub_a (str_small rec.pub_a wf.pub_a (omega arith)))
      ∷ field 3 (omega arith) (str_value rec.pub_b (str_small rec.pub_b wf.pub_b (omega arith)))
      ∷ field 4 (omega arith) (uint64_value rec.meeting_count_a wf.meeting_count_a)
      ∷ field 5 (omega arith) (uint64_value rec.meeting_count_b wf.meeting_count_b)
      ∷ field 6 (omega arith) (int_value rec.rep_of_b_by_a wf.rep_of_b_by_a)
      ∷ field 7 (omega arith) (int_value rec.rep_of_a_by_b wf.rep_of_a_by_b)
      ∷ field 8 (omega arith) (bssids_value rec.bssids_a wf.bssids_a)
      ∷ field 9 (omega arith) (bssids_value rec.bssids_b wf.bssids_b)
      ∷ field 10 (omega arith)
          (str_value rec.nonce_a (str_small rec.nonce_a wf.nonce_a (omega arith)))
      ∷ field 11 (omega arith)
          (str_value rec.nonce_b (str_small rec.nonce_b wf.nonce_b (omega arith)))
      ∷ field 12 (omega arith)
          (uint64_value rec.tx_bytes_a_to_b_lifetime wf.tx_bytes_a_to_b_lifetime)
      ∷ field 13 (omega arith)
          (uint64_value rec.rx_bytes_a_from_b_lifetime wf.rx_bytes_a_from_b_lifetime)
      ∷ field 14 (omega arith)
          (uint64_value rec.tx_bytes_b_to_a_lifetime wf.tx_bytes_b_to_a_lifetime)
      ∷ field 15 (omega arith)
          (uint64_value rec.rx_bytes_b_from_a_lifetime wf.rx_bytes_b_from_a_lifetime)
      ∷ field 16 (omega arith)
          (uint64_value rec.file_count_a_from_b_lifetime wf.file_count_a_from_b_lifetime)
      ∷ field 17 (omega arith)
          (uint64_value rec.file_count_b_from_a_lifetime wf.file_count_b_from_a_lifetime)
      ∷ field 18 (omega arith) (str_value rec.sig_a (str_small rec.sig_a wf.sig_a (omega arith)))
      ∷ field 19 (omega arith) (str_value rec.sig_b (str_small rec.sig_b wf.sig_b (omega arith)))
      ∷ []

  record_bytes-fields : record_bytes rec true ≡ map_bytes record_fields
  unfolding record_bytes put_fields put_pairs encode_bssids
  record_bytes-fields = refl

  decode_fields :
      decode_pairs 19 (put_fields record_fields ++ []) zero_record 0 ≡ some (rec, required)
  unfolding decode_field decode_uint
  decode_fields =
      decode_pairs-cons _ _ _ _ _ _ _
        (store-some _ (decode_version-item rec.version _ _ wf.version))
        (decode_pairs-cons _ _ _ _ _ _ _
          (store-some _ (decode_bstr_fixed-str_item rec.pub_a _ _ 32 wf.pub_a))
          (decode_pairs-cons _ _ _ _ _ _ _
            (store-some _ (decode_bstr_fixed-str_item rec.pub_b _ _ 32 wf.pub_b))
            (decode_pairs-cons _ _ _ _ _ _ _ (store-some _ refl)
              (decode_pairs-cons _ _ _ _ _ _ _ (store-some _ refl)
                (decode_pairs-cons _ _ _ _ _ _ _
                  (store-some _ (decode_int-int_item rec.rep_of_b_by_a _ _ wf.rep_of_b_by_a))
                  (decode_pairs-cons _ _ _ _ _ _ _
                    (store-some _ (decode_int-int_item rec.rep_of_a_by_b _ _ wf.rep_of_a_by_b))
                    (decode_pairs-cons _ _ _ _ _ _ _
                      (store-some _ (decode_bssids-item rec.bssids_a _ _ wf.bssids_a))
                      (decode_pairs-cons _ _ _ _ _ _ _
                        (store-some _ (decode_bssids-item rec.bssids_b _ _ wf.bssids_b))
                        (decode_pairs-cons _ _ _ _ _ _ _
                          (store-some _ (decode_bstr_fixed-str_item rec.nonce_a _ _ 16 wf.nonce_a))
                          (decode_pairs-cons _ _ _ _ _ _ _
                            (store-some _
                              (decode_bstr_fixed-str_item rec.nonce_b _ _ 16 wf.nonce_b))
                            (decode_pairs-cons _ _ _ _ _ _ _ (store-some _ refl)
                              (decode_pairs-cons _ _ _ _ _ _ _ (store-some _ refl)
                                (decode_pairs-cons _ _ _ _ _ _ _ (store-some _ refl)
                                  (decode_pairs-cons _ _ _ _ _ _ _ (store-some _ refl)
                                    (decode_pairs-cons _ _ _ _ _ _ _ (store-some _ refl)
                                      (decode_pairs-cons _ _ _ _ _ _ _ (store-some _ refl)
                                        (decode_pairs-cons _ _ _ _ _ _ _
                                          (store-some _
                                            (decode_bstr_fixed-str_item rec.sig_a _ _ 64 wf.sig_a))
                                          (decode_pairs-cons _ _ _ _ _ _ _
                                            (store-some _ (
                                              decode_bstr_fixed-str_item rec.sig_b _ _ 64 wf.sig_b))
                                            (decode_pairs-nil _ _ _) refl)
                                          refl)
                                        refl)
                                      refl)
                                    refl)
                                  refl)
                                refl)
                              refl)
                            refl)
                          refl)
                        refl)
                      refl)
                    refl)
                  refl)
                refl)
              refl)
            refl)
          refl)
        refl

  parse-record_bytes :
      cbor_parse (record_bytes rec true)
      ≡ some (nested_item map 19 (put_fields record_fields) (map_bytes record_fields) [])
  parse-record_bytes =
      subst
        (λ bs.
          cbor_parse bs
          ≡ some (nested_item map 19 (put_fields record_fields) (map_bytes record_fields) []))
        (append-nil (map_bytes record_fields) ∙ sym record_bytes-fields)
        (cbor_parse-map_bytes record_fields [] (omega arith))

  pub decode-record_bytes : encounter_record_decode (record_bytes rec true) ≡ some rec
  unfolding encounter_record_decode
  decode-record_bytes = rw (parse-record_bytes, decode_fields, wf.version)

-- A well-formed record is encoded whenever the buffer has the 512 bytes that the code asks for, the
-- result fits these, and decoding it gives back the record.
pub decode-encode_full :
    (rec : EncounterRecord) (out_max : ℕ)
    → IsWellFormed rec
    → 512 ≤ out_max
    → (bs : Bytes) × (encounter_record_encode_full rec out_max ≡ some bs)
      × (length bs ≤ 512)
      × (encounter_record_decode bs ≡ some rec)
unfolding encounter_record_encode_full encode_record
decode-encode_full rec out_max wf h = (
  record_bytes rec true,
  ground (arith, wf.version, wf.bssids_a.0, wf.bssids_b.0),
  length-record_bytes_full rec wf,
  decode-record_bytes rec wf,
)
