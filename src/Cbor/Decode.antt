-- ===== src/Cbor/Decode.antt =====
-- firmware/core/cbor_decode.c: the parser and the text-keyed map helpers. A pointer `p` into the
-- input is the list of bytes from `p` to `end`; `none` is the C `return false`.
use waxwing.Common.{ℕ, zero, suc, ◌+◌, ◌-◌, ◌*◌, ◌/◌, ◌%◌, ◌^◌, [], ◌∷◌, ltb, leb, ◌==◌}
use waxwing.Common.{Bool, ◌&&◌, Option, none, some, if◌then◌else◌, length, take, drop}
use waxwing.Common.{◌>>=◌, ◌>>◌, guard}
use waxwing.Common.Bytes.{Bytes, bytes_eq}

pub data CborType : Type 0 where
  uint int bstr tstr array map bool float : CborType

-- The numbers of the C enumeration.
abbrev pub type_code : CborType → ℕ
type_code uint = 0
type_code int = 1
type_code bstr = 2
type_code tstr = 3
type_code array = 4
type_code map = 5
type_code bool = 7
type_code float = 8

-- `item.type == t`
abbrev pub is_type : CborType → CborType → Bool
is_type s t = type_code s == type_code t

-- `cbor_item_t`. Where the C code leaves `data` NULL the rest is `[]`; it reads `data` of strings,
-- arrays and maps only.
pub record CborItem : Type 0 where
  pub type : CborType
  pub arg : ℕ
  pub payload : Bytes
  pub start : Bytes
  pub next : Bytes

-- `n` bytes, most significant first, shifted into `v`; `none` where `p + n > end`.
unfoldable pub read_be : ℕ → ℕ → Bytes → Option (ℕ × Bytes)
read_be zero v p = some (v, p)
read_be (suc n) v [] = none
read_be (suc n) v (b ∷ p) = read_be n (v * 256 + b) p

-- The value of the argument, and the pointer past it.
unfoldable pub decode_arg : ℕ → Bytes → Option (ℕ × Bytes)
decode_arg additional p =
    if ltb additional 24
    then some (additional, p)
    else if additional == 24
    then read_be 1 0 p
    else if additional == 25
    then read_be 2 0 p
    else if additional == 26
    then read_be 4 0 p
    else if additional == 27
    then read_be 8 0 p
    else none

abbrev pub max_cbor_depth : ℕ
max_cbor_depth = 8

abbrev pub uint64_max : ℕ
uint64_max = 2 ^ 64 - 1

-- The loop over the children: `i` of them are left to parse.
unfoldable pub skip_children : (Bytes → Option CborItem) → ℕ → Bytes → Option Bytes
skip_children parse zero p = some p
skip_children parse (suc i) p = elim (parse p) [
  | none ↦ none
  | some child ↦ skip_children parse i child.next
]

-- The cases of the `switch` on the major type. `start` points to the header byte, `p` behind it.
unfoldable pub parse_int : CborType → Bytes → ℕ → Bytes → Option CborItem
parse_int t start additional p = do
  (arg, p') ← decode_arg additional p
  some (record { type = t; arg = arg; payload = []; start = start; next = p' })

unfoldable pub parse_str : CborType → Bytes → ℕ → Bytes → Option CborItem
parse_str t start additional p = do
  (arg, p') ← decode_arg additional p
  guard (leb arg (length p'))
  some (record { type = t; arg = arg; payload = p'; start = start; next = drop arg p' })

-- The number of children; for a map, keys and values.
abbrev pub child_count : CborType → ℕ → ℕ
child_count t arg = if is_type t map then arg * 2 % 2 ^ 64 else arg

unfoldable pub parse_children :
    (Bytes → Option CborItem) → CborType → Bytes → ℕ → Bytes → Option CborItem
parse_children parse t start arg p =
    if is_type t map && ltb (uint64_max / 2) arg
    then none
    else if ltb (length p) (child_count t arg)
    then none
    else elim (skip_children parse (child_count t arg) p) [
      | none ↦ none
      | some rest ↦ some (record { type = t; arg = arg; payload = p; start = start; next = rest })
    ]

unfoldable pub parse_nested :
    (Bytes → Option CborItem) → CborType → Bytes → ℕ → Bytes → Option CborItem
parse_nested parse t start additional p = do
  (arg, p') ← decode_arg additional p
  parse_children parse t start arg p'

-- A float of `n` payload bytes, which are stepped over.
abbrev pub parse_float : ℕ → Bytes → ℕ → Bytes → Option CborItem
parse_float n start additional p =
    if ltb (length p) n
    then none
    else some
        (record { type = float; arg = additional; payload = p; start = start; next = drop n p })

abbrev pub simple_item : ℕ → Bytes → Bytes → CborItem
simple_item arg start p = record { type = bool; arg = arg; payload = []; start = start; next = p }

unfoldable pub parse_simple : Bytes → ℕ → Bytes → Option CborItem
parse_simple start additional p =
    if additional == 20
    then some (simple_item 0 start p)
    else if additional == 21
    then some (simple_item 1 start p)
    else if additional == 22
    then some (simple_item 0 start p)
    else if additional == 24
    then elim p [ [] ↦ none | b ∷ p' ↦ some (simple_item b start p') ]
    else if additional == 25
    then parse_float 2 start additional p
    else if additional == 26
    then parse_float 4 start additional p
    else if additional == 27
    then parse_float 8 start additional p
    else none

unfoldable pub parse_major : (Bytes → Option CborItem) → Bytes → ℕ → ℕ → Bytes → Option CborItem
parse_major parse start major additional p =
    if major == 0
    then parse_int uint start additional p
    else if major == 1
    then parse_int int start additional p
    else if major == 2
    then parse_str bstr start additional p
    else if major == 3
    then parse_str tstr start additional p
    else if major == 4
    then parse_nested parse array start additional p
    else if major == 5
    then parse_nested parse map start additional p
    else if major == 7
    then parse_simple start additional p
    else none

-- The number of levels still allowed, `MAX_CBOR_DEPTH + 1 - depth`: at 0, `depth` is too large.
unfoldable pub cbor_parse_internal : ℕ → Bytes → Option CborItem
cbor_parse_internal zero buf = none
cbor_parse_internal (suc levels) [] = none
cbor_parse_internal (suc levels) (header ∷ p) =
    parse_major (cbor_parse_internal levels) (header ∷ p) (header / 2 ^ 5) (header % 2 ^ 5) p

unfoldable pub cbor_parse : Bytes → Option CborItem
cbor_parse buf = cbor_parse_internal (suc max_cbor_depth) buf

-- The key at `p` and the value behind it: how every walk over a map begins a round.
unfoldable pub parse_pair : Bytes → Option (CborItem × CborItem)
parse_pair p = do k ← cbor_parse p; v ← cbor_parse k.next; some (k, v)

-- `key` is the text without its NUL.
unfoldable pub cbor_map_find : Bytes → ℕ → Bytes → Option CborItem
cbor_map_find p zero key = none
cbor_map_find p (suc i) key = elim (parse_pair p) [
  | none ↦ none
  | some (k, v) ↦
      let rest = cbor_map_find v.next i key in
      if is_type k.type tstr && (k.arg == length key) && bytes_eq (take (length key) k.payload) key
      then some v
      else rest
]

unfoldable pub cbor_map_get_uint : Bytes → ℕ → Bytes → Option ℕ
cbor_map_get_uint map_data pair_count key = do
  v ← cbor_map_find map_data pair_count key
  guard (is_type v.type uint)
  some v.arg

-- The text that is copied to `out_buf`, without the NUL behind it.
unfoldable pub cbor_map_get_text : Bytes → ℕ → Bytes → ℕ → Option Bytes
cbor_map_get_text map_data pair_count key out_buf_size = do
  v ← cbor_map_find map_data pair_count key
  guard (is_type v.type tstr)
  guard (ltb v.arg out_buf_size)
  some (take v.arg v.payload)

unfoldable pub cbor_map_get_bytes : Bytes → ℕ → Bytes → Option Bytes
cbor_map_get_bytes map_data pair_count key = do
  v ← cbor_map_find map_data pair_count key
  guard (is_type v.type bstr)
  some (take v.arg v.payload)
