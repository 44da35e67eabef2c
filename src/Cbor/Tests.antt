-- ===== src/Cbor/Tests.antt =====
-- Tests of cbor_decode.c's model on an array of two strings with a byte behind it, and witnesses.
use waxwing.Common.{◌+◌, ◌≡◌, refl, [], ◌∷◌, some}
use waxwing.Common.Bytes.{Bytes}
use waxwing.Cbor.Decode.{
  CborItem, array, bstr, cbor_parse, cbor_parse_internal, parse_major, parse_nested,
}
use waxwing.Cbor.Decode.{parse_children, skip_children, decode_arg, parse_str}
use waxwing.Cbor.Region.{cbor_parse-string}

-- The array of "a" and the empty byte string, then 7.
abbrev two_strings : Bytes
two_strings = 130 ∷ 97 ∷ 97 ∷ 64 ∷ 7 ∷ []

abbrev two_strings_item : CborItem
two_strings_item = record {
  type = array;
  arg = 2;
  payload = 97 ∷ 97 ∷ 64 ∷ 7 ∷ [];
  start = two_strings;
  next = 7 ∷ [];
}

two_strings-parsed : cbor_parse two_strings ≡ some two_strings_item
unfolding cbor_parse cbor_parse_internal parse_major parse_nested parse_children skip_children
    decode_arg parse_str
two_strings-parsed = refl

abbrev one_string : Bytes
one_string = 66 ∷ 5 ∷ 6 ∷ 7 ∷ []

abbrev one_string_item : CborItem
one_string_item = record {
  type = bstr;
  arg = 2;
  payload = 5 ∷ 6 ∷ 7 ∷ [];
  start = one_string;
  next = 7 ∷ [];
}

one_string-parsed : cbor_parse one_string ≡ some one_string_item
unfolding cbor_parse cbor_parse_internal parse_major decode_arg parse_str
one_string-parsed = refl

cbor_parse-string_example : 2 + 1 ≡ 3
cbor_parse-string_example = cbor_parse-string one_string one_string_item one_string-parsed refl
