-- ===== src/Cbor/Nested.antt =====
-- Arrays and integer-keyed maps: what the encoders of cborencode.c write, one item after the other,
-- is read back by the parser of cbor_decode.c as one item.
use waxwing.Common.{ℕ, suc, ◌*◌, ◌%◌, ◌^◌, ◌<◌, ◌≡◌, refl, ◌∙◌, arith}
use waxwing.Common.{[], ◌++◌, append_assoc, some}
use waxwing.Common.{Option}
use waxwing.Common.Bytes.{Bytes}
use waxwing.Cbor.Encode.{encode_header, cborencode_array_header, cborencode_map_header}
use waxwing.Cbor.Decode.{CborItem, CborType, array, map, skip_children}
use waxwing.Cbor.Decode.{
  parse_major, parse_nested, parse_children, child_count, cbor_parse_internal,
}
use waxwing.Cbor.Header.{decode_arg-header_tail, parse-encode_header}
use waxwing.Cbor.RoundTrip.{Parses}
use waxwing.Cbor.Bounds.{skip_children-length, Shrinks-cbor_parse_internal}

-- `bs` is `n` items, one behind the other.
abbrev pub Skips : ℕ → ℕ → Bytes → Type 0
Skips levels n bs =
    (rest : Bytes) → skip_children (cbor_parse_internal levels) n (bs ++ rest) ≡ some rest

pub Skips-nil : (levels : ℕ) → Skips levels 0 []
unfolding skip_children
Skips-nil levels rest = refl

pub Skips-cons :
    (levels n : ℕ) (bs cs : Bytes) (item : Bytes → CborItem)
    → Parses levels bs item
    → ((rest : Bytes) → (item rest).next ≡ rest)
    → Skips levels n cs
    → Skips levels (suc n) (bs ++ cs)
unfolding skip_children
Skips-cons levels n bs cs item p next h rest =
    rw (append_assoc bs cs rest, skip_children, p (cs ++ rest), next (cs ++ rest)) (h rest)

abbrev pub nested_item : CborType → ℕ → Bytes → Bytes → Bytes → CborItem
nested_item t n children bs rest = record {
  type = t;
  arg = n;
  payload = children ++ rest;
  start = bs ++ rest;
  next = rest;
}

parse_children-Skips :
    (levels n : ℕ) (t : CborType) (start bs rest : Bytes)
    → n < 2 ^ 32
    → Skips levels (child_count t n) bs
    → parse_children (cbor_parse_internal levels) t start n (bs ++ rest)
      ≡ some (record { type = t; arg = n; payload = bs ++ rest; start = start; next = rest })
unfolding parse_children
parse_children-Skips levels n t start bs rest h skips = ground (
  arith,
  skips rest,
  skip_children-length (cbor_parse_internal levels) (Shrinks-cbor_parse_internal levels)
      (child_count t n) (bs ++ rest) rest (skips rest),
)

parse_nested-header :
    (levels n major : ℕ) (t : CborType) (bs rest : Bytes)
    → major < 8
    → n < 2 ^ 32
    → ((parse : Bytes → Option CborItem) (start p : Bytes) (add : ℕ)
        → parse_major parse start major add p ≡ parse_nested parse t start add p)
    → Skips levels (child_count t n) bs
    → cbor_parse_internal (suc levels) ((encode_header major n ++ bs) ++ rest)
      ≡ some (nested_item t n bs (encode_header major n ++ bs) rest)
unfolding parse_nested
parse_nested-header levels n major t bs rest hm h dispatch skips =
    rw (append_assoc (encode_header major n) bs rest) (
      parse-encode_header levels major n (bs ++ rest) hm
      ∙ dispatch _ _ _ _
      ∙ rw (decode_arg-header_tail n (bs ++ rest) h)
          (parse_children-Skips levels n t _ bs rest h skips))

pub Parses-array :
    (levels n : ℕ) (bs : Bytes)
    → n < 2 ^ 32
    → Skips levels n bs
    → Parses
        (suc levels)
        (cborencode_array_header n ++ bs)
        (nested_item array n bs (cborencode_array_header n ++ bs))
unfolding cborencode_array_header parse_major
Parses-array levels n bs h skips rest =
    parse_nested-header levels n 4 array bs rest (omega arith) h (λ parse start p add. refl) skips

pub Parses-map :
    (levels n : ℕ) (bs : Bytes)
    → n < 2 ^ 32
    → Skips levels (n * 2 % 2 ^ 64) bs
    → Parses
        (suc levels)
        (cborencode_map_header n ++ bs)
        (nested_item map n bs (cborencode_map_header n ++ bs))
unfolding cborencode_map_header parse_major
Parses-map levels n bs h skips rest =
    parse_nested-header levels n 5 map bs rest (omega arith) h (λ parse start p add. refl) skips
