-- ===== src/Cbor/Header.antt =====
-- The header that `encode_header` writes, and how the parser of cbor_decode.c reads it back.
use waxwing.Common.{ℕ, suc, ◌+◌, ◌*◌, ◌/◌, ◌%◌, ◌^◌, ◌<◌, ◌≡◌, arith}
use waxwing.Common.{[], ◌∷◌, ◌++◌, leb, some, if◌then◌else◌}
use waxwing.Common.Bytes.{Bytes}
use waxwing.Cbor.Encode.{encode_header}
use waxwing.Cbor.Decode.{read_be, decode_arg, parse_major, cbor_parse_internal}

-- The additional information of the header byte, and the bytes behind it.
abbrev pub header_info : ℕ → ℕ
header_info arg =
    if leb arg 23 then arg else if leb arg 0xFF then 24 else if leb arg 0xFFFF then 25 else 26

abbrev pub header_tail : ℕ → Bytes
header_tail arg =
    if leb arg 23
    then []
    else if leb arg 0xFF
    then arg % 256 ∷ []
    else if leb arg 0xFFFF
    then arg / 2 ^ 8 % 256 ∷ arg % 256 ∷ []
    else arg / 2 ^ 24 % 256 ∷ arg / 2 ^ 16 % 256 ∷ arg / 2 ^ 8 % 256 ∷ arg % 256 ∷ []

encode_header_lem :
    (major arg : ℕ)
    → major < 8
    → encode_header major arg ≡ (major * 2 ^ 5 + header_info arg) ∷ header_tail arg
unfolding encode_header
encode_header_lem major arg h = ground arith

pub decode_arg-header_tail :
    (arg : ℕ) (rest : Bytes)
    → arg < 2 ^ 32
    → decode_arg (header_info arg) (header_tail arg ++ rest) ≡ some (arg, rest)
unfolding decode_arg read_be
decode_arg-header_tail arg rest h = ground arith

header_info-lt : (arg : ℕ) → header_info arg < 2 ^ 5
header_info-lt arg = ground arith

parse_first_byte :
    (levels major add : ℕ) (p : Bytes)
    → add < 2 ^ 5
    → cbor_parse_internal (suc levels) ((major * 2 ^ 5 + add) ∷ p)
      ≡ parse_major (cbor_parse_internal levels) ((major * 2 ^ 5 + add) ∷ p) major add p
unfolding cbor_parse_internal
parse_first_byte levels major add p h =
    let q : (major * 2 ^ 5 + add) / 2 ^ 5 ≡ major = omega arith in
    let r : (major * 2 ^ 5 + add) % 2 ^ 5 ≡ add = omega arith in rw (q, r)

-- Parsing what `encode_header` wrote dispatches on the major type that was encoded.
pub parse-encode_header :
    (levels major arg : ℕ) (rest : Bytes)
    → major < 8
    → cbor_parse_internal (suc levels) (encode_header major arg ++ rest)
      ≡ parse_major
          (cbor_parse_internal levels)
          (encode_header major arg ++ rest)
          major
          (header_info arg)
          (header_tail arg ++ rest)
parse-encode_header levels major arg rest h =
    rw (encode_header_lem major arg h) (
      parse_first_byte levels major (header_info arg) (header_tail arg ++ rest)
        (header_info-lt arg))
