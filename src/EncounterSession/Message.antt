-- ===== src/EncounterSession/Message.antt =====
-- firmware/core/encounter_session.c: the wire format of PROPOSE, ACCEPT and CONFIRM.
use waxwing.Common.{ℕ, zero, suc, List, [], ◌∷◌, ◌++◌, leb, ◌==◌, Bool, true, false}
use waxwing.Common.{Option, none, some, ◌>>=◌, ◌>>◌, guard, if◌then◌else◌, length, take, ◌&&◌, ◌||◌}
use waxwing.Common.Int.{ℤ}
use waxwing.Common.Bytes.{Bytes, bytes_eq}
use waxwing.Cbor.Encode.{cborencode_map_header, cborencode_uint, cborencode_uint64, cborencode_int}
use waxwing.Cbor.Encode.{cborencode_byte_str, put_pairs}
use waxwing.Cbor.Decode.{CborItem, uint, map, is_type, cbor_parse, parse_pair}
use waxwing.EncounterRecord.{EncounterRecord, encode_bssids, decode_bssids, decode_bstr_fixed}
use waxwing.EncounterRecord.{decode_uint, decode_int, encounter_bssid_max, encounter_record_version}

abbrev pub msg_propose : ℕ
msg_propose = 1

abbrev pub msg_accept : ℕ
msg_accept = 2

abbrev pub msg_confirm : ℕ
msg_confirm = 3

abbrev pub encounter_msg_max_bytes : ℕ
encounter_msg_max_bytes = 256

-- `encounter_per_peer_input_t`
pub record PerPeerInput : Type 0 where
  pub rep_of_peer : ℤ
  pub tx_bytes_to_peer_lifetime : ℕ
  pub rx_bytes_from_peer_lifetime : ℕ
  pub file_count_from_peer_lifetime : ℕ

-- `encounter_local_input_t`. The callback and its context are one function of the peer's key;
-- `none` is its result false.
pub record LocalInput : Type 0 where
  pub pub_key : Bytes
  pub seed : Bytes
  pub nonce : Bytes
  pub expected_peer_prefix : Bytes
  pub meeting_count : ℕ
  pub rep_of_peer : ℤ
  pub bssids : List Bytes
  pub tx_bytes_to_peer_lifetime : ℕ
  pub rx_bytes_from_peer_lifetime : ℕ
  pub file_count_from_peer_lifetime : ℕ
  pub late_bind : Option (Bytes → Option PerPeerInput)

-- The loop of `find_int_key`: `n` pairs are left at `p`.
unfoldable pub find_key_loop : ℕ → Bytes → ℕ → Option CborItem
find_key_loop zero p k = none
find_key_loop (suc n) p k = elim (parse_pair p) [
  | none ↦ none
  | some (key, val) ↦
      let rest = find_key_loop n val.next k in
      if is_type key.type uint && (key.arg == k) then some val else rest
]

unfoldable pub find_int_key : CborItem → ℕ → Option CborItem
find_int_key root k = if is_type root.type map then find_key_loop root.arg root.payload k else none

-- All bytes of the prefix are zero.
abbrev pub all_zero : Bytes → Bool
all_zero [] = true
all_zero (b ∷ bs) = (b == 0) && all_zero bs

unfoldable pub prefix_matches_or_zero : Bytes → Bytes → Bool
prefix_matches_or_zero prefix pub_key = all_zero prefix || bytes_eq prefix (take 8 pub_key)

-- The eight values that PROPOSE and ACCEPT both carry.
pub record Half : Type 0 where
  pub pub_key : Bytes
  pub meeting_count : ℕ
  pub rep_of_peer : ℤ
  pub bssids : List Bytes
  pub nonce : Bytes
  pub tx_lifetime : ℕ
  pub rx_lifetime : ℕ
  pub file_lifetime : ℕ

-- The B side or the A side of the record, filled in.
abbrev pub write_half : Bool → EncounterRecord → Half → EncounterRecord
write_half true rec h = record rec {
  pub_b = h.pub_key;
  meeting_count_b = h.meeting_count;
  rep_of_a_by_b = h.rep_of_peer;
  bssids_b = h.bssids;
  nonce_b = h.nonce;
  tx_bytes_b_to_a_lifetime = h.tx_lifetime;
  rx_bytes_b_from_a_lifetime = h.rx_lifetime;
  file_count_b_from_a_lifetime = h.file_lifetime;
}
write_half false rec h = record rec {
  pub_a = h.pub_key;
  meeting_count_a = h.meeting_count;
  rep_of_b_by_a = h.rep_of_peer;
  bssids_a = h.bssids;
  nonce_a = h.nonce;
  tx_bytes_a_to_b_lifetime = h.tx_lifetime;
  rx_bytes_a_from_b_lifetime = h.rx_lifetime;
  file_count_a_from_b_lifetime = h.file_lifetime;
}

abbrev pub local_half : LocalInput → Half
local_half me = record {
  pub_key = me.pub_key;
  meeting_count = me.meeting_count;
  rep_of_peer = me.rep_of_peer;
  bssids = me.bssids;
  nonce = me.nonce;
  tx_lifetime = me.tx_bytes_to_peer_lifetime;
  rx_lifetime = me.rx_bytes_from_peer_lifetime;
  file_lifetime = me.file_count_from_peer_lifetime;
}

-- The B side of the record, as ACCEPT sends it.
abbrev pub b_half : EncounterRecord → Half
b_half rec = record {
  pub_key = rec.pub_b;
  meeting_count = rec.meeting_count_b;
  rep_of_peer = rec.rep_of_a_by_b;
  bssids = rec.bssids_b;
  nonce = rec.nonce_b;
  tx_lifetime = rec.tx_bytes_b_to_a_lifetime;
  rx_lifetime = rec.rx_bytes_b_from_a_lifetime;
  file_lifetime = rec.file_count_b_from_a_lifetime;
}

unfoldable pub fill_local_half : EncounterRecord → LocalInput → Bool → EncounterRecord
fill_local_half rec me is_b_side = write_half is_b_side rec (local_half me)

-- Keys 1 to 10 with their values, and `rest` behind them.
abbrev pub half_pairs : ℕ → ℕ → Half → List (ℕ × Bytes) → List (ℕ × Bytes)
half_pairs msg_type version h rest =
    (1, cborencode_uint msg_type)
    ∷ (2, cborencode_uint version)
    ∷ (3, cborencode_byte_str h.pub_key)
    ∷ (4, cborencode_uint64 h.meeting_count)
    ∷ (5, cborencode_int h.rep_of_peer)
    ∷ (6, encode_bssids h.bssids)
    ∷ (7, cborencode_byte_str h.nonce)
    ∷ (8, cborencode_uint64 h.tx_lifetime)
    ∷ (9, cborencode_uint64 h.rx_lifetime)
    ∷ (10, cborencode_uint64 h.file_lifetime)
    ∷ rest

-- Key 11, which ACCEPT alone has.
abbrev pub sig_pair : Option Bytes → List (ℕ × Bytes)
sig_pair none = []
sig_pair (some sig) = (11, cborencode_byte_str sig) ∷ []

abbrev pub half_key_count : Option Bytes → ℕ
half_key_count none = 10
half_key_count (some sig) = 11

-- The bytes that are written behind the guards.
unfoldable pub half_bytes : ℕ → ℕ → Half → Option Bytes → Bytes
half_bytes msg_type version h sig =
    cborencode_map_header (half_key_count sig)
    ++ put_pairs (half_pairs msg_type version h (sig_pair sig))

-- `none` is the C result 0; `sig` is NULL for PROPOSE.
unfoldable pub encode_half_message : ℕ → ℕ → ℕ → Half → Option Bytes → Option Bytes
encode_half_message out_max msg_type version h sig = do
  guard (leb encounter_msg_max_bytes out_max)
  guard (leb (length h.bssids) encounter_bssid_max)
  some (half_bytes msg_type version h sig)

-- `v.type != CBOR_TYPE_UINT || v.arg != expected` makes the code give up.
abbrev pub is_uint : CborItem → ℕ → Bool
is_uint v expected = is_type v.type uint && (v.arg == expected)

-- The values of keys 3 to 10.
unfoldable pub decode_half : CborItem → Option Half
decode_half root = do
  pub_item ← find_int_key root 3
  pub_key ← decode_bstr_fixed pub_item 32
  count_item ← find_int_key root 4
  meeting_count ← decode_uint count_item
  rep_item ← find_int_key root 5
  rep ← decode_int rep_item
  bssids_item ← find_int_key root 6
  bssids ← decode_bssids bssids_item
  nonce_item ← find_int_key root 7
  nonce ← decode_bstr_fixed nonce_item 16
  tx_item ← find_int_key root 8
  tx ← decode_uint tx_item
  rx_item ← find_int_key root 9
  rx ← decode_uint rx_item
  file_item ← find_int_key root 10
  file ← decode_uint file_item
  some (record {
    pub_key = pub_key;
    meeting_count = meeting_count;
    rep_of_peer = rep;
    bssids = bssids;
    nonce = nonce;
    tx_lifetime = tx;
    rx_lifetime = rx;
    file_lifetime = file;
  })

unfoldable pub decode_sig : CborItem → Option Bytes
decode_sig root = find_int_key root 11 >>= λ v. decode_bstr_fixed v 64

unfoldable pub decode_half_message : Bytes → ℕ → Bool → EncounterRecord → Option EncounterRecord
decode_half_message in_buf expected_type is_b_side rec = do
  root ← cbor_parse in_buf
  type_item ← find_int_key root 1
  guard (is_uint type_item expected_type)
  version_item ← find_int_key root 2
  guard (is_uint version_item encounter_record_version)
  h ← decode_half root
  let filled = write_half is_b_side (record rec { version = version_item.arg }) h
  (if expected_type == msg_accept
      then (decode_sig root >>= λ sig. some (record filled { sig_b = sig }))
      else some filled)

unfoldable pub encode_propose : LocalInput → ℕ → Option Bytes
encode_propose me out_max =
    encode_half_message out_max msg_propose encounter_record_version (local_half me) none

unfoldable pub encode_accept : EncounterRecord → ℕ → Option Bytes
encode_accept rec out_max =
    encode_half_message out_max msg_accept rec.version (b_half rec) (some rec.sig_b)

-- The bytes of CONFIRM.
abbrev pub confirm_bytes : Bytes → Bytes
confirm_bytes sig_a =
    cborencode_map_header 2
    ++ put_pairs ((1, cborencode_uint msg_confirm) ∷ (11, cborencode_byte_str sig_a) ∷ [])

unfoldable pub encode_confirm : Bytes → ℕ → Option Bytes
encode_confirm sig_a out_max = do
  guard (leb encounter_msg_max_bytes out_max)
  some (confirm_bytes sig_a)

unfoldable pub decode_confirm : Bytes → Option Bytes
decode_confirm in_buf = do
  root ← cbor_parse in_buf
  type_item ← find_int_key root 1
  guard (is_uint type_item msg_confirm)
  decode_sig root
