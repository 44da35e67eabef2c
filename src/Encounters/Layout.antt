-- ===== src/Encounters/Layout.antt =====
-- The bytes of a record of encounters.c, and its size.
use waxwing.Common.{
  ℕ, suc, ◌%◌, ◌^◌, ◌≤◌, ◌<◌, ◌≡◌, refl, ap, subst, ◌∙◌, arith, List, [], ◌∷◌, ◌++◌, All,
}
use waxwing.Common.{length, drop, length-append, append_assoc}
use waxwing.Common.Bytes.{Bytes}
use waxwing.Cbor.Encode.{
  cborencode_uint, cborencode_byte_str, cborencode_map_header, cborencode_array_header, put_pairs,
  put_strs, encode_header,
}
use waxwing.Cbor.Lengths.{
  length-cborencode_uint, length-cborencode_array_header, length-put_strs,
  length-cborencode_byte_str,
}
use waxwing.SsidScan.{SsidObservation}
use waxwing.Encounters.{body_pairs, bssid_array, bssids, encounters_config}
use waxwing.BlobRing.Contents.{IsRecord}

-- What a call of `encounters_record` gives the encoder.
pub record IsCapture (node_pub : Bytes) (captured_at_ms : ℕ) (scan : List SsidObservation)
    (signature : Bytes) : Type 0 where
  pub node : length node_pub ≡ 32
  pub time : captured_at_ms < 2 ^ 32
  pub some_seen : 0 < length scan
  pub few_seen : length scan ≤ 8
  pub addresses : All (λ b. length b ≡ 6) (bssids scan)
  pub sig : length signature ≡ 64

abbrev pub record_bytes : Bytes → ℕ → List SsidObservation → Bytes → Bytes
record_bytes node time obs sig =
    cborencode_map_header 5
    ++ put_pairs (body_pairs node time obs ((5, cborencode_byte_str sig) ∷ []))

-- The record behind the value of its time.
abbrev pub behind_time : List SsidObservation → Bytes → Bytes
behind_time obs sig = 4 ∷ bssid_array obs ++ (5 ∷ cborencode_byte_str sig ++ [])

abbrev pub at_time : ℕ → List SsidObservation → Bytes → Bytes
at_time time obs sig = cborencode_uint time ++ behind_time obs sig

byte_str_node : (node : Bytes) → length node ≡ 32 → cborencode_byte_str node ≡ 0x58 ∷ 0x20 ∷ node
unfolding cborencode_byte_str encode_header
byte_str_node node h = rw h refl

pub record_bytes-layout :
    (node : Bytes) (time : ℕ) (obs : List SsidObservation) (sig : Bytes)
    → length node ≡ 32
    → record_bytes node time obs sig
      ≡ 0xA5 ∷ 1 ∷ 1 ∷ 2 ∷ 0x58 ∷ 0x20 ∷ node ++ (3 ∷ at_time time obs sig)
unfolding cborencode_map_header put_pairs cborencode_uint encode_header
record_bytes-layout node time obs sig h =
    ap (λ bs. 0xA5 ∷ 1 ∷ 1 ∷ 2 ∷ bs ++ (3 ∷ at_time time obs sig)) (byte_str_node node h)

length-bssids : (obs : List SsidObservation) → length (bssids obs) ≡ length obs
length-bssids [] = refl
length-bssids (o ∷ obs) = ap suc (length-bssids obs)

drop_past : (xs : Bytes) (y : ℕ) (ys : Bytes) → drop (suc (length xs)) (xs ++ (y ∷ ys)) ≡ ys
drop_past [] y ys = refl
drop_past (x ∷ xs) y ys = drop_past xs y ys

pub drop_node : (node p : Bytes) → length node ≡ 32 → drop 33 (node ++ (3 ∷ p)) ≡ p
drop_node node p h = subst (λ n. drop (suc n) (node ++ (3 ∷ p)) ≡ p) h (drop_past node 3 p)

-- A record fits its slot.
pub length-record_bytes :
    (node : Bytes) (time : ℕ) (obs : List SsidObservation) (sig : Bytes)
    → IsCapture node time obs sig
    → length (record_bytes node time obs sig) ≤ 254
unfolding bssid_array
length-record_bytes node time obs sig h =
    let rest : Bytes = 5 ∷ cborencode_byte_str sig ++ [] in
    omega (
      arith,
      ap length (record_bytes-layout node time obs sig h.node),
      length-append node (3 ∷ at_time time obs sig),
      length-append (cborencode_uint time) (behind_time obs sig),
      length-append (bssid_array obs) rest,
      length-append (cborencode_array_header (length obs)) (put_strs (bssids obs)),
      length-append (cborencode_byte_str sig) [],
      length-cborencode_uint time,
      length-cborencode_array_header (length obs) (omega (arith, h.few_seen)),
      length-put_strs (bssids obs) h.addresses,
      length-bssids obs,
      length-cborencode_byte_str sig (omega (arith, h.sig)),
      h.node,
      h.few_seen,
      h.sig,
    )

pub length-record_bytes_min :
    (node : Bytes) (time : ℕ) (obs : List SsidObservation) (sig : Bytes)
    → IsCapture node time obs sig
    → 44 ≤ length (record_bytes node time obs sig)
unfolding cborencode_byte_str
length-record_bytes_min node time obs sig h = omega (
  arith,
  ap length (record_bytes-layout node time obs sig h.node),
  length-append node (3 ∷ at_time time obs sig),
  length-append (cborencode_uint time) (behind_time obs sig),
  length-append (bssid_array obs) (5 ∷ cborencode_byte_str sig ++ []),
  length-append (cborencode_byte_str sig) [],
  length-append (encode_header 2 (length sig % 2 ^ 32)) sig,
  h.node,
  h.sig,
)

pub record_bytes-IsRecord :
    (node : Bytes) (time : ℕ) (obs : List SsidObservation) (sig : Bytes)
    → IsCapture node time obs sig
    → IsRecord encounters_config (record_bytes node time obs sig)
record_bytes-IsRecord node time obs sig h = record {
  not_empty = omega (arith, length-record_bytes_min node time obs sig h);
  fits = length-record_bytes node time obs sig h;
}

-- The header of the time stands at byte 39 of a record.
pub drop-record_bytes :
    (node : Bytes) (time : ℕ) (obs : List SsidObservation) (sig rest : Bytes)
    → length node ≡ 32
    → drop 39 (record_bytes node time obs sig ++ rest) ≡ at_time time obs sig ++ rest
drop-record_bytes node time obs sig rest h =
    ap (λ bs. drop 39 (bs ++ rest)) (record_bytes-layout node time obs sig h)
    ∙ (ap (drop 33) (append_assoc node (3 ∷ at_time time obs sig) rest)
        ∙ drop_node node (at_time time obs sig ++ rest) h)
