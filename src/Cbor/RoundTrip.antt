-- ===== src/Cbor/RoundTrip.antt =====
-- Each encoder of cborencode.c is read back by the parser of cbor_decode.c, at every depth that the
-- parser still allows, and whatever bytes follow.
use waxwing.Common.{ℕ, suc, ◌+◌, ◌*◌, ◌/◌, ◌%◌, ◌^◌, ◌<◌, ◌≡◌, refl, ap, ◌∙◌, arith}
use waxwing.Common.{[], ◌++◌, append_assoc, some, length, length-append, drop-append, leb}
use waxwing.Common.{Bool-cases, inl, inr, le→leb}
use native.Mathlib.Nat.{mod-eq_of_lt}
use waxwing.Common.Int.{ℤ, pos, negsuc, IsInt32}
use waxwing.Common.Bytes.{Bytes}
use waxwing.Cbor.Encode.{encode_header, cborencode_uint, cborencode_uint64, cborencode_int}
use waxwing.Cbor.Encode.{cborencode_text_str, cborencode_byte_str, uint64_bytes}
use waxwing.Cbor.Decode.{CborItem, CborType, uint, int, bstr, tstr, read_be, decode_arg}
use waxwing.Cbor.Decode.{parse_int, parse_str, parse_major, cbor_parse_internal}
use waxwing.Cbor.Header.{header_info, header_tail, decode_arg-header_tail, parse-encode_header}

-- The bytes `bs` are one item, which the parser reads as `item rest` where `rest` follows them.
abbrev pub Parses : ℕ → Bytes → (Bytes → CborItem) → Type 0
Parses levels bs item = (rest : Bytes) → cbor_parse_internal levels (bs ++ rest) ≡ some (item rest)

-- An integer item, and a string item, over the bytes `bs`.
abbrev pub int_item : CborType → ℕ → Bytes → Bytes → CborItem
int_item t v bs rest = record { type = t; arg = v; payload = []; start = bs ++ rest; next = rest }

abbrev pub str_item : CborType → Bytes → Bytes → Bytes → CborItem
str_item t s bs rest = record {
  type = t;
  arg = length s;
  payload = s ++ rest;
  start = bs ++ rest;
  next = rest;
}

parse_int-header :
    (t : CborType) (start : Bytes) (arg : ℕ) (rest : Bytes)
    → arg < 2 ^ 32
    → parse_int t start (header_info arg) (header_tail arg ++ rest)
      ≡ some (record { type = t; arg = arg; payload = []; start = start; next = rest })
unfolding parse_int
parse_int-header t start arg rest h = rw (decode_arg-header_tail arg rest h)

pub Parses-uint :
    (levels v : ℕ)
    → v < 2 ^ 32
    → Parses (suc levels) (cborencode_uint v) (int_item uint v (cborencode_uint v))
unfolding cborencode_uint parse_major
Parses-uint levels v h rest =
    parse-encode_header levels 0 v rest (omega arith) ∙ parse_int-header uint _ v rest h

-- Eight bytes, shifted together, give back the value.
shift_bytes :
    (v : ℕ)
    → v < 2 ^ 64
    → ((((((((0 + v / 2 ^ 56 % 256) * 256 + v / 2 ^ 48 % 256) * 256 + v / 2 ^ 40 % 256) * 256
                        + v / 2 ^ 32 % 256)
                      * 256
                    + v / 2 ^ 24 % 256)
                  * 256
                + v / 2 ^ 16 % 256)
              * 256
            + v / 2 ^ 8 % 256)
          * 256
        + v % 256)
      ≡ v
shift_bytes v h = omega arith

parse-uint64_bytes :
    (levels v : ℕ)
    → v < 2 ^ 64
    → Parses (suc levels) (uint64_bytes v) (int_item uint v (uint64_bytes v))
unfolding cbor_parse_internal parse_major parse_int decode_arg read_be
parse-uint64_bytes levels v h rest = ap (λ (n : ℕ). some (read n)) (shift_bytes v h)
  where
    read : ℕ → CborItem
    read n = record {
      type = uint;
      arg = n;
      payload = [];
      start = uint64_bytes v ++ rest;
      next = rest;
    }

-- The parser reads back the value that `cborencode_uint64` wrote.
pub Parses-uint64 :
    (levels v : ℕ)
    → v < 2 ^ 64
    → Parses (suc levels) (cborencode_uint64 v) (int_item uint v (cborencode_uint64 v))
unfolding cborencode_uint64
Parses-uint64 levels v h rest = elim (Bool-cases (leb v 0xFFFF_FFFF)) [
  | inl small ↦ rw small (unfold cborencode_uint in Parses-uint levels v (ground arith) rest)
  | inr large ↦ rw large (parse-uint64_bytes levels v h rest)
]

-- The type and the argument of the item that an `int32_t` is written as.
abbrev pub int_type : ℤ → CborType
int_type (pos n) = uint
int_type (negsuc n) = int

abbrev pub int_arg : ℤ → ℕ
int_arg (pos n) = n
int_arg (negsuc n) = n

pub Parses-int :
    (levels : ℕ) (v : ℤ)
    → IsInt32 v
    → Parses (suc levels) (cborencode_int v) (int_item (int_type v) (int_arg v) (cborencode_int v))
unfolding cborencode_int parse_major
Parses-int levels (pos v) h rest =
    parse-encode_header levels 0 v rest (omega arith) ∙ parse_int-header uint _ v rest (omega arith)
Parses-int levels (negsuc v) h rest =
    parse-encode_header levels 1 v rest (omega arith) ∙ parse_int-header int _ v rest (omega arith)

parse_str-header :
    (t : CborType) (start s : Bytes) (rest : Bytes)
    → length s < 2 ^ 32
    → parse_str t start (header_info (length s)) (header_tail (length s) ++ (s ++ rest))
      ≡ some (record { type = t; arg = length s; payload = s ++ rest; start = start; next = rest })
unfolding parse_str
parse_str-header t start s rest h = rw (decode_arg-header_tail (length s) (s ++ rest) h) (
    rw (
      le→leb (length s) (length (s ++ rest)) (omega (arith, length-append s rest)),
      drop-append s rest,
    ))

-- A string of major type `major`, which the parser's dispatch reads as type `t`.
parse_str_lem :
    (levels major : ℕ) (t : CborType) (s : Bytes) (rest : Bytes)
    → major < 8
    → length s < 2 ^ 32
    → ((start p : Bytes) (add : ℕ)
        → parse_major (cbor_parse_internal levels) start major add p ≡ parse_str t start add p)
    → cbor_parse_internal (suc levels) ((encode_header major (length s % 2 ^ 32) ++ s) ++ rest)
      ≡ some (str_item t s (encode_header major (length s % 2 ^ 32) ++ s) rest)
parse_str_lem levels major t s rest hm h dispatch =
    rw (append_assoc (encode_header major (length s % 2 ^ 32)) s rest, mod-eq_of_lt h)
      (parse-encode_header levels major (length s) (s ++ rest) hm
        ∙ dispatch _ _ _
        ∙ parse_str-header t _ s rest h)

pub Parses-byte_str :
    (levels : ℕ) (s : Bytes)
    → length s < 2 ^ 32
    → Parses (suc levels) (cborencode_byte_str s) (str_item bstr s (cborencode_byte_str s))
unfolding cborencode_byte_str parse_major
Parses-byte_str levels s h rest =
    parse_str_lem levels 2 bstr s rest (omega arith) h (λ start p add. refl)

pub Parses-text_str :
    (levels : ℕ) (s : Bytes)
    → length s < 2 ^ 32
    → Parses (suc levels) (cborencode_text_str s) (str_item tstr s (cborencode_text_str s))
unfolding cborencode_text_str parse_major
Parses-text_str levels s h rest =
    parse_str_lem levels 3 tstr s rest (omega arith) h (λ start p add. refl)
