-- ===== src/Cbor/Fields.antt =====
-- Maps with integer keys, as firmware/core/encounter_record.c and firmware/core/encounter_session.c
-- write them: a list of fields, each a key and a value that the parser reads back.
use waxwing.Common.{ℕ, suc, ◌*◌, ◌%◌, ◌^◌, ◌<◌, ◌≡◌, refl, subst, arith}
use waxwing.Common.{List, [], ◌∷◌, ◌++◌, append_assoc, some, length, All}
use waxwing.Common.Int.{ℤ, IsInt32}
use waxwing.Common.Bytes.{Bytes}
use waxwing.Cbor.Encode.{cborencode_uint, cborencode_uint64, cborencode_int, cborencode_byte_str}
use waxwing.Cbor.Encode.{cborencode_map_header, cborencode_array_header, put_strs}
use waxwing.Cbor.Decode.{CborItem, uint, bstr, array, map, cbor_parse, parse_pair}
use waxwing.Cbor.RoundTrip.{Parses, Parses-uint, Parses-uint64, Parses-int, Parses-byte_str}
use waxwing.Cbor.RoundTrip.{int_item, str_item, int_type, int_arg}
use waxwing.Cbor.Nested.{Skips, Skips-nil, Skips-cons, Parses-array, Parses-map, nested_item}

-- A value that is written as the bytes `bytes` and read back as `item rest`, in a map or outside.
pub record Value : Type 0 where
  pub bytes : Bytes
  pub item : Bytes → CborItem
  pub parses : (levels : ℕ) → Parses (suc (suc levels)) bytes item
  pub next_lem : (rest : Bytes) → (item rest).next ≡ rest

abbrev pub uint_value : (v : ℕ) → v < 2 ^ 32 → Value
uint_value v h = record {
  bytes = cborencode_uint v;
  item = int_item uint v (cborencode_uint v);
  parses = λ levels. Parses-uint (suc levels) v h;
  next_lem = λ rest. refl;
}

abbrev pub uint64_value : (v : ℕ) → v < 2 ^ 64 → Value
uint64_value v h = record {
  bytes = cborencode_uint64 v;
  item = int_item uint v (cborencode_uint64 v);
  parses = λ levels. Parses-uint64 (suc levels) v h;
  next_lem = λ rest. refl;
}

abbrev pub int_value : (v : ℤ) → IsInt32 v → Value
int_value v h = record {
  bytes = cborencode_int v;
  item = int_item (int_type v) (int_arg v) (cborencode_int v);
  parses = λ levels. Parses-int (suc levels) v h;
  next_lem = λ rest. refl;
}

abbrev pub str_value : (s : Bytes) → length s < 2 ^ 32 → Value
str_value s h = record {
  bytes = cborencode_byte_str s;
  item = str_item bstr s (cborencode_byte_str s);
  parses = λ levels. Parses-byte_str (suc levels) s h;
  next_lem = λ rest. refl;
}

pub Skips-put_strs :
    (levels : ℕ) (ss : List Bytes)
    → All (λ s. length s ≡ 6) ss
    → Skips (suc levels) (length ss) (put_strs ss)
unfolding put_strs
Skips-put_strs levels [] h = Skips-nil (suc levels)
Skips-put_strs levels (s ∷ ss) h =
    Skips-cons (suc levels) (length ss) (cborencode_byte_str s) (put_strs ss) _
      (Parses-byte_str levels s (omega arith)) (λ rest. refl) (Skips-put_strs levels ss h.1)

abbrev pub strs_value : (ss : List Bytes) → length ss < 2 ^ 32 → All (λ s. length s ≡ 6) ss → Value
strs_value ss h all = record {
  bytes = cborencode_array_header (length ss) ++ put_strs ss;
  item =
      nested_item array (length ss) (put_strs ss)
        (cborencode_array_header (length ss) ++ put_strs ss);
  parses = λ levels.
      Parses-array (suc levels) (length ss) (put_strs ss) h (Skips-put_strs levels ss all);
  next_lem = λ rest. refl;
}

pub record Field : Type 0 where
  pub key : ℕ
  pub key_small : key < 2 ^ 32
  pub value : Value

-- `p += cborencode_uint(p, key); p += …value…`, for each field.
unfoldable pub put_fields : List Field → Bytes
put_fields [] = []
put_fields (f ∷ fs) = cborencode_uint f.key ++ (f.value.bytes ++ put_fields fs)

abbrev pub pair_of : Field → ℕ × Bytes
pair_of f = (f.key, f.value.bytes)

Skips-put_fields :
    (levels : ℕ) (fs : List Field) → Skips (suc (suc levels)) (length fs * 2) (put_fields fs)
unfolding put_fields
Skips-put_fields levels [] = Skips-nil (suc (suc levels))
Skips-put_fields levels (f ∷ fs) =
    subst (λ n. Skips (suc (suc levels)) n (put_fields (f ∷ fs))) count
      (Skips-cons _ _ _ _ _ (Parses-uint (suc levels) f.key f.key_small) (λ rest. refl)
        (Skips-cons _ _ _ _ _ (f.value.parses levels) f.value.next_lem
          (Skips-put_fields levels fs)))
  where
    count : suc (suc (length fs * 2)) ≡ length (f ∷ fs) * 2
    count = omega arith

abbrev pub map_bytes : List Field → Bytes
map_bytes fs = cborencode_map_header (length fs) ++ put_fields fs

-- A whole map is parsed as one item, whose first child is the first key.
pub cbor_parse-map_bytes :
    (fs : List Field) (rest : Bytes)
    → length fs < 2 ^ 32
    → cbor_parse (map_bytes fs ++ rest)
      ≡ some (nested_item map (length fs) (put_fields fs) (map_bytes fs) rest)
unfolding cbor_parse
cbor_parse-map_bytes fs rest h =
    Parses-map 8 (length fs) (put_fields fs) h
      (subst (λ n. Skips 8 n (put_fields fs)) (count) (Skips-put_fields 6 fs)) rest
  where
    count : length fs * 2 ≡ length fs * 2 % 2 ^ 64
    count = omega arith

-- Where the walk over a map stands before a field, it parses that field's key and value.
cbor_parse-key :
    (f : Field) (fs : List Field) (rest : Bytes)
    → cbor_parse (put_fields (f ∷ fs) ++ rest)
      ≡ some
          (int_item uint f.key (cborencode_uint f.key) (f.value.bytes ++ (put_fields fs ++ rest)))
unfolding cbor_parse put_fields
cbor_parse-key f fs rest =
    rw
      (
        append_assoc (cborencode_uint f.key) (f.value.bytes ++ put_fields fs) rest,
        append_assoc f.value.bytes (put_fields fs) rest,
      )
      (Parses-uint 8 f.key f.key_small (f.value.bytes ++ (put_fields fs ++ rest)))

pub cbor_parse-value :
    (v : Value) (rest : Bytes) → cbor_parse (v.bytes ++ rest) ≡ some (v.item rest)
unfolding cbor_parse
cbor_parse-value v rest = v.parses 7 rest

-- A round of a walk reads the key and the value of the field that it stands before.
pub parse_pair-field :
    (f : Field) (fs : List Field) (rest : Bytes)
    → parse_pair (put_fields (f ∷ fs) ++ rest)
      ≡ some (
        int_item uint f.key (cborencode_uint f.key) (f.value.bytes ++ (put_fields fs ++ rest)),
        f.value.item (put_fields fs ++ rest),
      )
unfolding parse_pair
parse_pair-field f fs rest =
    rw (cbor_parse-key f fs rest, cbor_parse-value f.value (put_fields fs ++ rest))
