-- ===== src/Cbor/Lengths.antt =====
-- How many bytes the encoders of cborencode.c write: they never check the buffer, so each caller
-- must leave the room.
use waxwing.Common.{ℕ, ◌+◌, ◌*◌, ◌^◌, ◌%◌, ◌≤◌, ◌≡◌, refl, arith, List, [], ◌∷◌, ◌++◌}
use waxwing.Common.{length, length-append, All}
use waxwing.Common.Int.{ℤ, pos, negsuc}
use waxwing.Common.Bytes.{Bytes}
use waxwing.Cbor.Encode.{
  encode_header, cborencode_uint, cborencode_uint64, cborencode_int, put_pairs,
}
use waxwing.Cbor.Encode.{cborencode_byte_str, cborencode_array_header, put_strs}
use waxwing.Cbor.Encode.{cborencode_map_header}

pub length-encode_header : (major arg : ℕ) → length (encode_header major arg) ≤ 5
unfolding encode_header
length-encode_header major arg = ground arith

pub length-encode_header_short : (major arg : ℕ) → arg ≤ 23 → length (encode_header major arg) ≡ 1
unfolding encode_header
length-encode_header_short major arg h = ground arith

pub length-encode_header_byte : (major arg : ℕ) → arg ≤ 255 → length (encode_header major arg) ≤ 2
unfolding encode_header
length-encode_header_byte major arg h = ground arith

pub length-cborencode_uint : (v : ℕ) → length (cborencode_uint v) ≤ 5
unfolding cborencode_uint
length-cborencode_uint v = length-encode_header 0 v

pub length-cborencode_uint_short : (v : ℕ) → v ≤ 23 → length (cborencode_uint v) ≡ 1
unfolding cborencode_uint
length-cborencode_uint_short v h = length-encode_header_short 0 v h

pub length-cborencode_uint64 : (v : ℕ) → length (cborencode_uint64 v) ≤ 9
unfolding cborencode_uint64
length-cborencode_uint64 v = ground (arith, length-encode_header 0 v)

pub length-cborencode_int : (v : ℤ) → length (cborencode_int v) ≤ 5
unfolding cborencode_int
length-cborencode_int (pos v) = length-encode_header 0 v
length-cborencode_int (negsuc v) = length-encode_header 1 v

pub length-cborencode_byte_str :
    (s : Bytes) → length s ≤ 255 → length (cborencode_byte_str s) ≤ 2 + length s
unfolding cborencode_byte_str
length-cborencode_byte_str s h = omega (
  arith,
  length-append (encode_header 2 (length s % 2 ^ 32)) s,
  length-encode_header_byte 2 (length s % 2 ^ 32) (omega arith),
)

pub length-cborencode_byte_str_short :
    (s : Bytes) → length s ≤ 23 → length (cborencode_byte_str s) ≡ 1 + length s
unfolding cborencode_byte_str
length-cborencode_byte_str_short s h = omega (
  arith,
  length-append (encode_header 2 (length s % 2 ^ 32)) s,
  length-encode_header_short 2 (length s % 2 ^ 32) (omega arith),
)

pub length-cborencode_map_header : (n : ℕ) → n ≤ 23 → length (cborencode_map_header n) ≡ 1
unfolding cborencode_map_header
length-cborencode_map_header n h = length-encode_header_short 5 n h

pub length-cborencode_array_header : (n : ℕ) → n ≤ 23 → length (cborencode_array_header n) ≡ 1
unfolding cborencode_array_header
length-cborencode_array_header n h = length-encode_header_short 4 n h

-- Addresses of six bytes take seven each.
pub length-put_strs :
    (ss : List Bytes) → All (λ s. length s ≡ 6) ss → length (put_strs ss) ≡ 7 * length ss
unfolding put_strs
length-put_strs [] h = refl
length-put_strs (s ∷ ss) h = omega (
  arith,
  length-append (cborencode_byte_str s) (put_strs ss),
  length-cborencode_byte_str_short s (omega arith),
  length-put_strs ss h.1,
)

-- Keys below 24 take one byte each.
abbrev pub pairs_size : List (ℕ × Bytes) → ℕ
pairs_size [] = 0
pairs_size ((k, v) ∷ ps) = 1 + length v + pairs_size ps

abbrev pub ShortKeys : List (ℕ × Bytes) → Type 0
ShortKeys ps = All (λ p. p.0 ≤ 23) ps

pub length-put_pairs :
    (ps : List (ℕ × Bytes)) → ShortKeys ps → length (put_pairs ps) ≡ pairs_size ps
unfolding put_pairs
length-put_pairs [] h = refl
length-put_pairs ((k, v) ∷ ps) h = omega (
  arith,
  length-append (cborencode_uint k) (v ++ put_pairs ps),
  length-append v (put_pairs ps),
  length-cborencode_uint_short k h.0,
  length-put_pairs ps h.1,
)
