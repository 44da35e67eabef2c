-- ===== src/Cbor/Encode.antt =====
-- firmware/core/cborencode.c: the encoders. Each returns the bytes that the C function writes at
-- `buf`; the number that the C function returns is their length.
use waxwing.Common.{ℕ, ◌+◌, ◌*◌, ◌/◌, ◌%◌, ◌^◌, List, [], ◌∷◌, ◌++◌, leb, if◌then◌else◌, length}
use waxwing.Common.{Bool}
use waxwing.Common.Int.{ℤ, pos, negsuc}
use waxwing.Common.Bytes.{Bytes}

-- `arg` is a `uint32_t`.
unfoldable pub encode_header : ℕ → ℕ → Bytes
encode_header major arg =
    let mt = major * 2 ^ 5 % 256 in
    if leb arg 23
    then (mt + arg % 256) ∷ []
    else if leb arg 0xFF
    then (mt + 24) ∷ arg % 256 ∷ []
    else if leb arg 0xFFFF
    then (mt + 25) ∷ arg / 2 ^ 8 % 256 ∷ arg % 256 ∷ []
    else (mt + 26) ∷ arg / 2 ^ 24 % 256 ∷ arg / 2 ^ 16 % 256 ∷ arg / 2 ^ 8 % 256 ∷ arg % 256 ∷ []

unfoldable pub cborencode_uint : ℕ → Bytes
cborencode_uint value = encode_header 0 value

-- The nine bytes that `cborencode_uint64` writes for a value of more than 32 bits.
abbrev pub uint64_bytes : ℕ → Bytes
uint64_bytes value =
    27
    ∷ value / 2 ^ 56 % 256
    ∷ value / 2 ^ 48 % 256
    ∷ value / 2 ^ 40 % 256
    ∷ value / 2 ^ 32 % 256
    ∷ value / 2 ^ 24 % 256
    ∷ value / 2 ^ 16 % 256
    ∷ value / 2 ^ 8 % 256
    ∷ value % 256
    ∷ []

unfoldable pub cborencode_uint64 : ℕ → Bytes
cborencode_uint64 value =
    if leb value 0xFFFF_FFFF then encode_header 0 value else uint64_bytes value

-- `-(value + 1)` of `negsuc n` is `n`.
unfoldable pub cborencode_int : ℤ → Bytes
cborencode_int (pos value) = encode_header 0 value
cborencode_int (negsuc n) = encode_header 1 n

unfoldable pub cborencode_text_str : Bytes → Bytes
cborencode_text_str str = encode_header 3 (length str % 2 ^ 32) ++ str

unfoldable pub cborencode_byte_str : Bytes → Bytes
cborencode_byte_str data' = encode_header 2 (length data' % 2 ^ 32) ++ data'

unfoldable pub cborencode_bool : Bool → Bytes
cborencode_bool value = (if value then 0xF5 else 0xF4) ∷ []

unfoldable pub cborencode_array_header : ℕ → Bytes
cborencode_array_header len = encode_header 4 len

unfoldable pub cborencode_map_header : ℕ → Bytes
cborencode_map_header len = encode_header 5 len

-- A run of `p += cborencode_uint(p, key); p += …value…`, one for each key and encoded value.
unfoldable pub put_pairs : List (ℕ × Bytes) → Bytes
put_pairs [] = []
put_pairs ((key, value) ∷ pairs) = cborencode_uint key ++ (value ++ put_pairs pairs)

-- A loop of `p += cborencode_byte_str(p, s, len)` over byte strings.
unfoldable pub put_strs : List Bytes → Bytes
put_strs [] = []
put_strs (s ∷ ss) = cborencode_byte_str s ++ put_strs ss
