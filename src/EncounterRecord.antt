-- ===== src/EncounterRecord.antt =====
-- firmware/core/encounter_record.h and firmware/core/encounter_record.c: the two-party encounter
-- record, its canonical encoder, its decoder, the check of both signatures and the content id.
-- An array with its count is the list of the entries in use. NULL pointers are not modelled.
pub mod Valid
pub mod RoundTrip
pub mod Size
pub mod Decoded
pub mod Id
pub mod Errors
mod Tests
use waxwing.HalCrypto.{HalCrypto}
use waxwing.Common.{ℕ, zero, suc, ◌+◌, ◌*◌, ◌-◌, ◌^◌, ◌%◌, List, [], ◌∷◌, ◌++◌, ltb, leb, ◌==◌, not}
use waxwing.Common.{Bool, true, false, ◌&&◌, ◌||◌, Option, none, some, if◌then◌else◌, length, take}
use waxwing.Common.{replicate, ◌>>=◌, ◌>>◌, guard, bit_and, bit_or}
use waxwing.Common.Int.{ℤ, pos, negsuc}
use waxwing.Common.Bytes.{Bytes, bytes_gt}
use waxwing.Cbor.Encode.{cborencode_map_header, cborencode_uint, cborencode_uint64, cborencode_int}
use waxwing.Cbor.Encode.{cborencode_byte_str, cborencode_array_header, put_pairs, put_strs}
use waxwing.Cbor.Decode.{
  CborItem, CborType, uint, int, bstr, array, map, is_type, cbor_parse, parse_pair,
}

abbrev pub encounter_record_version : ℕ
encounter_record_version = 1

abbrev pub encounter_bssid_max : ℕ
encounter_bssid_max = 8

abbrev pub encounter_nonce_bytes : ℕ
encounter_nonce_bytes = 16

abbrev pub encounter_sig_bytes : ℕ
encounter_sig_bytes = 64

abbrev pub encounter_pub_bytes : ℕ
encounter_pub_bytes = 32

abbrev pub encounter_id_bytes : ℕ
encounter_id_bytes = 16

abbrev pub encounter_record_max_bytes : ℕ
encounter_record_max_bytes = 512

abbrev pub encounter_body_max_bytes : ℕ
encounter_body_max_bytes = 384

-- `encounter_record_t`
pub record EncounterRecord : Type 0 where
  pub version : ℕ
  pub pub_a : Bytes
  pub pub_b : Bytes
  pub meeting_count_a : ℕ
  pub meeting_count_b : ℕ
  pub rep_of_b_by_a : ℤ
  pub rep_of_a_by_b : ℤ
  pub bssids_a : List Bytes
  pub bssids_b : List Bytes
  pub nonce_a : Bytes
  pub nonce_b : Bytes
  pub tx_bytes_a_to_b_lifetime : ℕ
  pub rx_bytes_a_from_b_lifetime : ℕ
  pub tx_bytes_b_to_a_lifetime : ℕ
  pub rx_bytes_b_from_a_lifetime : ℕ
  pub file_count_a_from_b_lifetime : ℕ
  pub file_count_b_from_a_lifetime : ℕ
  pub sig_a : Bytes
  pub sig_b : Bytes

-- The record after `memset(out, 0, sizeof(*out))`.
abbrev pub zero_record : EncounterRecord
zero_record = record {
  version = 0;
  pub_a = replicate 32 0;
  pub_b = replicate 32 0;
  meeting_count_a = 0;
  meeting_count_b = 0;
  rep_of_b_by_a = pos 0;
  rep_of_a_by_b = pos 0;
  bssids_a = [];
  bssids_b = [];
  nonce_a = replicate 16 0;
  nonce_b = replicate 16 0;
  tx_bytes_a_to_b_lifetime = 0;
  rx_bytes_a_from_b_lifetime = 0;
  tx_bytes_b_to_a_lifetime = 0;
  rx_bytes_b_from_a_lifetime = 0;
  file_count_a_from_b_lifetime = 0;
  file_count_b_from_a_lifetime = 0;
  sig_a = replicate 64 0;
  sig_b = replicate 64 0;
}

unfoldable pub encode_bssids : List Bytes → Bytes
encode_bssids bssids = cborencode_array_header (length bssids) ++ put_strs bssids

-- Keys 18 and 19 with their values.
abbrev pub sig_pairs : EncounterRecord → List (ℕ × Bytes)
sig_pairs rec = (18, cborencode_byte_str rec.sig_a) ∷ (19, cborencode_byte_str rec.sig_b) ∷ []

-- Keys 1 to 17 with their values, in the order in which they are emitted, and `rest` behind them.
abbrev pub body_pairs : EncounterRecord → List (ℕ × Bytes) → List (ℕ × Bytes)
body_pairs rec rest =
    (1, cborencode_uint rec.version)
    ∷ (2, cborencode_byte_str rec.pub_a)
    ∷ (3, cborencode_byte_str rec.pub_b)
    ∷ (4, cborencode_uint64 rec.meeting_count_a)
    ∷ (5, cborencode_uint64 rec.meeting_count_b)
    ∷ (6, cborencode_int rec.rep_of_b_by_a)
    ∷ (7, cborencode_int rec.rep_of_a_by_b)
    ∷ (8, encode_bssids rec.bssids_a)
    ∷ (9, encode_bssids rec.bssids_b)
    ∷ (10, cborencode_byte_str rec.nonce_a)
    ∷ (11, cborencode_byte_str rec.nonce_b)
    ∷ (12, cborencode_uint64 rec.tx_bytes_a_to_b_lifetime)
    ∷ (13, cborencode_uint64 rec.rx_bytes_a_from_b_lifetime)
    ∷ (14, cborencode_uint64 rec.tx_bytes_b_to_a_lifetime)
    ∷ (15, cborencode_uint64 rec.rx_bytes_b_from_a_lifetime)
    ∷ (16, cborencode_uint64 rec.file_count_a_from_b_lifetime)
    ∷ (17, cborencode_uint64 rec.file_count_b_from_a_lifetime)
    ∷ rest

-- The bytes that are written behind the guards.
unfoldable pub record_bytes : EncounterRecord → Bool → Bytes
record_bytes rec with_sigs =
    cborencode_map_header (if with_sigs then 19 else 17)
    ++ put_pairs (body_pairs rec (if with_sigs then sig_pairs rec else []))

-- `none` is the C result 0.
unfoldable pub encode_record : EncounterRecord → ℕ → Bool → Option Bytes
encode_record rec out_max with_sigs = do
  guard (rec.version == encounter_record_version)
  guard (leb (length rec.bssids_a) encounter_bssid_max)
  guard (leb (length rec.bssids_b) encounter_bssid_max)
  guard (leb (if with_sigs then encounter_record_max_bytes else encounter_body_max_bytes) out_max)
  some (record_bytes rec with_sigs)

unfoldable pub encounter_record_encode_body : EncounterRecord → ℕ → Option Bytes
encounter_record_encode_body rec out_max = encode_record rec out_max false

unfoldable pub encounter_record_encode_full : EncounterRecord → ℕ → Option Bytes
encounter_record_encode_full rec out_max = encode_record rec out_max true

abbrev pub int32_max : ℕ
int32_max = 2 ^ 31 - 1

-- `-(int32_t)n`; for 2 ^ 31 the C expression is INT32_MIN too.
abbrev pub negate : ℕ → ℤ
negate zero = pos 0
negate (suc n) = negsuc n

-- `v->arg + 1` is a `uint64_t`.
unfoldable pub cbor_to_int32 : CborItem → ℤ
cbor_to_int32 v =
    if is_type v.type uint
    then (if ltb int32_max v.arg then pos int32_max else pos v.arg)
    else if ltb (int32_max + 1) ((v.arg + 1) % 2 ^ 64)
    then negsuc int32_max
    else negate ((v.arg + 1) % 2 ^ 64)

-- The loop over the elements: `n` of them are left, and `p` points to the first of these.
unfoldable pub bssid_loop : ℕ → Bytes → Option (List Bytes)
bssid_loop zero p = some []
bssid_loop (suc n) p = elim (cbor_parse p) [
  | none ↦ none
  | some item ↦
      if not (is_type item.type bstr) || not (item.arg == 6)
      then none
      else (bssid_loop n item.next >>= λ rest. some (take 6 item.payload ∷ rest))
]

unfoldable pub decode_bssids : CborItem → Option (List Bytes)
decode_bssids arr = do
  guard (is_type arr.type array)
  guard (leb arr.arg encounter_bssid_max)
  bssid_loop arr.arg arr.payload

unfoldable pub decode_bstr_fixed : CborItem → ℕ → Option Bytes
decode_bstr_fixed v expected = do
  guard (is_type v.type bstr)
  guard (v.arg == expected)
  some (take expected v.payload)

-- `if (v.type != CBOR_TYPE_UINT) return false;`, then the value.
unfoldable pub decode_uint : CborItem → Option ℕ
decode_uint v = if is_type v.type uint then some v.arg else none

unfoldable pub decode_int : CborItem → Option ℤ
decode_int v = if is_type v.type uint || is_type v.type int then some (cbor_to_int32 v) else none

unfoldable pub decode_version : CborItem → Option ℕ
decode_version v = do guard (is_type v.type uint); guard (leb v.arg 255); some v.arg

-- `if (!decode(&v, &out->field)) return false;`
unfoldable pub store : {A : Type 0} → Option A → (A → EncounterRecord) → Option EncounterRecord
store none write = none
store (some x) write = some (write x)

-- The `switch` on the key.
unfoldable pub decode_field : ℕ → CborItem → EncounterRecord → Option EncounterRecord
decode_field key v out =
    if key == 1
    then store (decode_version v) (λ x. record out { version = x })
    else if key == 2
    then store (decode_bstr_fixed v 32) (λ x. record out { pub_a = x })
    else if key == 3
    then store (decode_bstr_fixed v 32) (λ x. record out { pub_b = x })
    else if key == 4
    then store (decode_uint v) (λ x. record out { meeting_count_a = x })
    else if key == 5
    then store (decode_uint v) (λ x. record out { meeting_count_b = x })
    else if key == 6
    then store (decode_int v) (λ x. record out { rep_of_b_by_a = x })
    else if key == 7
    then store (decode_int v) (λ x. record out { rep_of_a_by_b = x })
    else if key == 8
    then store (decode_bssids v) (λ x. record out { bssids_a = x })
    else if key == 9
    then store (decode_bssids v) (λ x. record out { bssids_b = x })
    else if key == 10
    then store (decode_bstr_fixed v 16) (λ x. record out { nonce_a = x })
    else if key == 11
    then store (decode_bstr_fixed v 16) (λ x. record out { nonce_b = x })
    else if key == 12
    then store (decode_uint v) (λ x. record out { tx_bytes_a_to_b_lifetime = x })
    else if key == 13
    then store (decode_uint v) (λ x. record out { rx_bytes_a_from_b_lifetime = x })
    else if key == 14
    then store (decode_uint v) (λ x. record out { tx_bytes_b_to_a_lifetime = x })
    else if key == 15
    then store (decode_uint v) (λ x. record out { rx_bytes_b_from_a_lifetime = x })
    else if key == 16
    then store (decode_uint v) (λ x. record out { file_count_a_from_b_lifetime = x })
    else if key == 17
    then store (decode_uint v) (λ x. record out { file_count_b_from_a_lifetime = x })
    else if key == 18
    then store (decode_bstr_fixed v 64) (λ x. record out { sig_a = x })
    else if key == 19
    then store (decode_bstr_fixed v 64) (λ x. record out { sig_b = x })
    else some out

-- The loop over the pairs: `n` are left, `out` is filled so far, `seen` has a bit for each key.
unfoldable pub decode_pairs : ℕ → Bytes → EncounterRecord → ℕ → Option (EncounterRecord × ℕ)
decode_pairs zero p out seen = some (out, seen)
decode_pairs (suc n) p out seen = elim (parse_pair p) [
  | none ↦ none
  | some (k, v) ↦
      let skip = decode_pairs n v.next out seen in
      if not (is_type k.type uint) || (k.arg == 0) || ltb 31 k.arg
      then skip
      else elim (decode_field k.arg v out) [
        | none ↦ none
        | some out' ↦ decode_pairs n v.next out' (bit_or seen (2 ^ k.arg))
      ]
]

-- Bits 1 to 19.
abbrev pub required : ℕ
required = 2 ^ 20 - 2

unfoldable pub encounter_record_decode : Bytes → Option EncounterRecord
encounter_record_decode cbor = do
  root ← cbor_parse cbor
  guard (is_type root.type map)
  (out, seen) ← decode_pairs root.arg root.payload zero_record 0
  guard (bit_and seen required == required)
  guard (out.version == encounter_record_version)
  some out

module _ (c : HalCrypto) where
  open c use {hal_ed25519_verify}

  -- Both signatures are checked against the canonical body.
  unfoldable pub encounter_record_verify : EncounterRecord → Bool
  encounter_record_verify rec =
      if not (rec.version == encounter_record_version)
      then false
      else elim (encounter_record_encode_body rec encounter_body_max_bytes) [
        | none ↦ false
        | some body ↦
            hal_ed25519_verify rec.pub_a body rec.sig_a
            && hal_ed25519_verify rec.pub_b body rec.sig_b
      ]

-- `sha256` is the third-party hash of all that is fed to the context, one after the other.
unfoldable pub encounter_record_id : (Bytes → Bytes) → EncounterRecord → Bytes
encounter_record_id sha256 rec =
    let swap = bytes_gt rec.pub_a rec.pub_b in
    let lo = if swap then rec.pub_b else rec.pub_a in
    let hi = if swap then rec.pub_a else rec.pub_b in
    take encounter_id_bytes (sha256 (lo ++ (hi ++ (rec.nonce_a ++ rec.nonce_b))))
