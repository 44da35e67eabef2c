-- ===== src/PeerLedger/Slot.antt =====
-- A slot of peer_ledger.c's blob holds an entry without loss.
use waxwing.Common.{
  ℕ, ◌*◌, ◌^◌, ◌≡◌, ◌<◌, refl, subst, arith, List, [], ◌∷◌, ◌++◌, All, append_assoc,
}
use waxwing.Common.{length, take, drop, take-append, drop-append, replicate, length-append}
use waxwing.Common.Int.{ℤ, pos, negsuc, IsInt32}
use waxwing.Common.Bytes.{Bytes, le_bytes, le_value}
use waxwing.PeerLedger.{
  LedgerEntry, put_u64_le, get_u64_le, put_i32_le, get_i32_le, encode_slot, decode_slot,
}
use waxwing.PeerLedger.{encode_slots, decode_slots}

-- The entries that the C structure can hold.
pub record IsEntry (e : LedgerEntry) : Type 0 where
  pub pub_key : length e.pub_key ≡ 32
  pub last_meeting_count : e.last_meeting_count < 2 ^ 64
  pub tx_bytes_lifetime : e.tx_bytes_lifetime < 2 ^ 64
  pub rx_bytes_lifetime : e.rx_bytes_lifetime < 2 ^ 64
  pub file_count_lifetime : e.file_count_lifetime < 2 ^ 64
  pub my_rep_score : IsInt32 e.my_rep_score

get-put_u64 : (v : ℕ) (rest : Bytes) → v < 2 ^ 64 → get_u64_le (put_u64_le v ++ rest) ≡ v
unfolding get_u64_le put_u64_le le_bytes le_value
get-put_u64 v rest h = omega arith

drop-put_u64 : (v : ℕ) (rest : Bytes) → drop 8 (put_u64_le v ++ rest) ≡ rest
unfolding put_u64_le le_bytes
drop-put_u64 v rest = refl

length-put_u64 : (v : ℕ) → length (put_u64_le v) ≡ 8
unfolding put_u64_le le_bytes
length-put_u64 v = refl

length-put_i32 : (v : ℤ) → length (put_i32_le v) ≡ 4
unfolding put_i32_le le_bytes
length-put_i32 v = refl

get-put_i32 : (v : ℤ) (rest : Bytes) → IsInt32 v → get_i32_le (put_i32_le v ++ rest) ≡ v
unfolding get_i32_le put_i32_le le_bytes le_value
get-put_i32 (pos n) rest h = ground arith
get-put_i32 (negsuc n) rest h = ground arith

take-key : (e : LedgerEntry) (rest : Bytes) → IsEntry e → take 32 (e.pub_key ++ rest) ≡ e.pub_key
take-key e rest wf =
    subst (λ n. take n (e.pub_key ++ rest) ≡ e.pub_key) wf.pub_key (take-append e.pub_key rest)

drop-key : (e : LedgerEntry) (rest : Bytes) → IsEntry e → drop 32 (e.pub_key ++ rest) ≡ rest
drop-key e rest wf =
    subst (λ n. drop n (e.pub_key ++ rest) ≡ rest) wf.pub_key (drop-append e.pub_key rest)

-- The slot behind the key.
abbrev score_bytes : LedgerEntry → Bytes
score_bytes e = put_i32_le e.my_rep_score ++ replicate 12 0

abbrev files_bytes : LedgerEntry → Bytes
files_bytes e = put_u64_le e.file_count_lifetime ++ score_bytes e

abbrev rx_bytes : LedgerEntry → Bytes
rx_bytes e = put_u64_le e.rx_bytes_lifetime ++ files_bytes e

abbrev tx_bytes : LedgerEntry → Bytes
tx_bytes e = put_u64_le e.tx_bytes_lifetime ++ rx_bytes e

abbrev count_bytes : LedgerEntry → Bytes
count_bytes e = put_u64_le e.last_meeting_count ++ tx_bytes e

pub length-encode_slot : (e : LedgerEntry) → IsEntry e → length (encode_slot e) ≡ 80
unfolding encode_slot
length-encode_slot e wf = omega (
  arith,
  wf.pub_key,
  length-append e.pub_key (count_bytes e),
  length-append (put_u64_le e.last_meeting_count) (tx_bytes e),
  length-append (put_u64_le e.tx_bytes_lifetime) (rx_bytes e),
  length-append (put_u64_le e.rx_bytes_lifetime) (files_bytes e),
  length-append (put_u64_le e.file_count_lifetime) (score_bytes e),
  length-append (put_i32_le e.my_rep_score) (replicate 12 0),
  length-put_u64 e.last_meeting_count,
  length-put_u64 e.tx_bytes_lifetime,
  length-put_u64 e.rx_bytes_lifetime,
  length-put_u64 e.file_count_lifetime,
  length-put_i32 e.my_rep_score,
)

decode-encode_slot :
    (e : LedgerEntry) (rest : Bytes) → IsEntry e → decode_slot (encode_slot e ++ rest) ≡ e
unfolding decode_slot encode_slot
decode-encode_slot e rest wf =
    rw
      (
        append_assoc e.pub_key (count_bytes e) rest,
        take-key e (count_bytes e ++ rest) wf,
        drop-key e (count_bytes e ++ rest) wf,
        append_assoc (put_u64_le e.last_meeting_count) (tx_bytes e) rest,
        get-put_u64 e.last_meeting_count (tx_bytes e ++ rest) wf.last_meeting_count,
        drop-put_u64 e.last_meeting_count (tx_bytes e ++ rest),
        append_assoc (put_u64_le e.tx_bytes_lifetime) (rx_bytes e) rest,
        get-put_u64 e.tx_bytes_lifetime (rx_bytes e ++ rest) wf.tx_bytes_lifetime,
        drop-put_u64 e.tx_bytes_lifetime (rx_bytes e ++ rest),
        append_assoc (put_u64_le e.rx_bytes_lifetime) (files_bytes e) rest,
        get-put_u64 e.rx_bytes_lifetime (files_bytes e ++ rest) wf.rx_bytes_lifetime,
        drop-put_u64 e.rx_bytes_lifetime (files_bytes e ++ rest),
        append_assoc (put_u64_le e.file_count_lifetime) (score_bytes e) rest,
        get-put_u64 e.file_count_lifetime (score_bytes e ++ rest) wf.file_count_lifetime,
        drop-put_u64 e.file_count_lifetime (score_bytes e ++ rest),
        append_assoc (put_i32_le e.my_rep_score) (replicate 12 0) rest,
        get-put_i32 e.my_rep_score (replicate 12 0 ++ rest) wf.my_rep_score,
      )
      refl

drop-encode_slot :
    (e : LedgerEntry) (rest : Bytes) → IsEntry e → drop 80 (encode_slot e ++ rest) ≡ rest
drop-encode_slot e rest wf =
    subst (λ n. drop n (encode_slot e ++ rest) ≡ rest) (length-encode_slot e wf)
      (drop-append (encode_slot e) rest)

pub decode-encode_slots :
    (es : List LedgerEntry) (rest : Bytes)
    → All IsEntry es
    → decode_slots (length es) (encode_slots es ++ rest) ≡ es
unfolding decode_slots encode_slots
decode-encode_slots [] rest h = refl
decode-encode_slots (e ∷ es) rest (wf, h) =
    rw
      (
        decode_slots,
        encode_slots,
        append_assoc (encode_slot e) (encode_slots es) rest,
        decode-encode_slot e (encode_slots es ++ rest) wf,
        drop-encode_slot e (encode_slots es ++ rest) wf,
        decode-encode_slots es rest h,
      )
      refl

pub length-encode_slots :
    (es : List LedgerEntry) → All IsEntry es → length (encode_slots es) ≡ 80 * length es
unfolding encode_slots
length-encode_slots [] h = refl
length-encode_slots (e ∷ es) (wf, h) = omega (
  arith,
  length-append (encode_slot e) (encode_slots es),
  length-encode_slot e wf,
  length-encode_slots es h,
)
