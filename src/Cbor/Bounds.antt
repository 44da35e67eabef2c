-- ===== src/Cbor/Bounds.antt =====
-- Sizes of what cbor_decode.c returns, on any input: the lengths of the buffers behind its pointers.
use waxwing.Common.{ℕ, zero, suc, ◌+◌, ◌-◌, ◌*◌, ◌≤◌, ◌<◌, ◌≡◌, arith}
use waxwing.Common.{
  [], ◌∷◌, Option, some, length, drop, length-drop, >>=-eq-some, Option-cases, inl, inr,
}
use waxwing.Common.{true, false, ◌||◌}
use waxwing.Common.Bytes.{Bytes}
use waxwing.Cbor.Decode.{CborItem, CborType, uint, int, bstr, tstr, array, map, is_type}
use waxwing.Cbor.Decode.{read_be, decode_arg, skip_children, parse_int, parse_str, parse_nested}
use waxwing.Cbor.Decode.{child_count, parse_children}
use waxwing.Cbor.Decode.{parse_simple, parse_major, cbor_parse_internal, cbor_parse}

read_be-length :
    (n v : ℕ) (p : Bytes) (a : ℕ) (p' : Bytes)
    → read_be n v p ≡ some (a, p')
    → length p' + n ≡ length p
unfolding read_be
read_be-length zero v p a p' e = ground arith
read_be-length (suc n) v [] a p' e = cc
read_be-length (suc n) v (b ∷ p) a p' e = omega (arith, read_be-length n (v * 256 + b) p a p' e)

decode_arg-length :
    (additional : ℕ) (p : Bytes) (a : ℕ) (p' : Bytes)
    → decode_arg additional p ≡ some (a, p')
    → length p' ≤ length p
unfolding decode_arg
decode_arg-length additional p a p' e = ground (
  arith,
  read_be-length 1 0 p a p',
  read_be-length 2 0 p a p',
  read_be-length 4 0 p a p',
  read_be-length 8 0 p a p',
)

-- What the item says of a buffer `start` whose bytes behind the header are `p`.
pub record Within (start p : Bytes) (it : CborItem) : Type 0 where
  pub at_start : it.start ≡ start
  pub next_in : length it.next ≤ length p
  pub payload_in : length it.payload ≤ length p
  pub string_in :
      (is_type it.type bstr || is_type it.type tstr) ≡ true
      → it.arg + length it.next ≡ length it.payload

parse_int-Within :
    (t : CborType) (start : Bytes) (additional : ℕ) (p : Bytes) (it : CborItem)
    → (is_type t bstr || is_type t tstr) ≡ false
    → parse_int t start additional p ≡ some it
    → Within start p it
unfolding parse_int
parse_int-Within t start additional p it h e =
    let (x, e₁, e₂) = >>=-eq-some (decode_arg additional p) _ e in
    let shorter : length x.1 ≤ length p = decode_arg-length additional p x.0 x.1 e₁ in
    record {
      at_start = ground arith;
      next_in = ground arith;
      payload_in = ground arith;
      string_in = ground arith;
    }

parse_str-Within :
    (t : CborType) (start : Bytes) (additional : ℕ) (p : Bytes) (it : CborItem)
    → parse_str t start additional p ≡ some it
    → Within start p it
unfolding parse_str
parse_str-Within t start additional p it e =
    let (x, e₁, e₂) = >>=-eq-some (decode_arg additional p) _ e in
    let shorter : length x.1 ≤ length p = decode_arg-length additional p x.0 x.1 e₁ in
    let dropped : length (drop x.0 x.1) ≡ length x.1 - x.0 = length-drop x.0 x.1 in
    record {
      at_start = ground arith;
      next_in = ground arith;
      payload_in = ground arith;
      string_in = ground arith;
    }

parse_simple-Within :
    (start : Bytes) (additional : ℕ) (p : Bytes) (it : CborItem)
    → parse_simple start additional p ≡ some it
    → Within start p it
unfolding parse_simple
parse_simple-Within start additional [] it e = ground arith
parse_simple-Within start additional (b ∷ p) it e =
    ground (arith, length-drop 2 (b ∷ p), length-drop 4 (b ∷ p), length-drop 8 (b ∷ p))

-- A parser that takes a byte at least for each item.
abbrev pub Shrinks : (Bytes → Option CborItem) → Type 0
Shrinks parse = (p : Bytes) (it : CborItem) → parse p ≡ some it → length it.next < length p

pub skip_children-length :
    (parse : Bytes → Option CborItem) (shrinks : Shrinks parse) (n : ℕ) (p rest : Bytes)
    → skip_children parse n p ≡ some rest
    → length rest + n ≤ length p
unfolding skip_children
skip_children-length parse shrinks zero p rest e = ground arith
skip_children-length parse shrinks (suc n) p rest e = elim (Option-cases (parse p)) [
  | inl bad ↦ cc (rw (bad, skip_children) at e)
  | inr (child, good) ↦ omega (
    arith,
    shrinks p child good,
    skip_children-length parse shrinks n child.next rest (rw (good, skip_children) at e),
  )
]

parse_children-Within :
    (parse : Bytes → Option CborItem) (shrinks : Shrinks parse) (t : CborType) (start : Bytes)
    (arg : ℕ) (p : Bytes) (it : CborItem)
    → (is_type t bstr || is_type t tstr) ≡ false
    → parse_children parse t start arg p ≡ some it
    → Within start p it
unfolding parse_children
parse_children-Within parse shrinks t start arg p it h e =
    elim (Option-cases (skip_children parse (child_count t arg) p)) [
      | inl bad ↦ ground arith
      | inr (rest, good) ↦
          ground (arith, skip_children-length parse shrinks (child_count t arg) p rest good)
    ]

parse_nested-Within :
    (parse : Bytes → Option CborItem) (shrinks : Shrinks parse) (t : CborType) (start : Bytes)
    (additional : ℕ) (p : Bytes) (it : CborItem)
    → (is_type t bstr || is_type t tstr) ≡ false
    → parse_nested parse t start additional p ≡ some it
    → Within start p it
unfolding parse_nested
parse_nested-Within parse shrinks t start additional p it h e =
    let (x, e₁, e₂) = >>=-eq-some (decode_arg additional p) _ e in
    let shorter : length x.1 ≤ length p = decode_arg-length additional p x.0 x.1 e₁ in
    let w = parse_children-Within parse shrinks t start x.0 x.1 it h e₂ in
    record {
      at_start = w.at_start;
      next_in = omega (arith, w.next_in);
      payload_in = omega (arith, w.payload_in);
      string_in = w.string_in;
    }

parse_major-Within :
    (parse : Bytes → Option CborItem) (shrinks : Shrinks parse) (start : Bytes)
    (major additional : ℕ) (p : Bytes) (it : CborItem)
    → parse_major parse start major additional p ≡ some it
    → Within start p it
unfolding parse_major
parse_major-Within parse shrinks start major additional p it e = ground (
  arith,
  parse_int-Within uint start additional p it,
  parse_int-Within int start additional p it,
  parse_str-Within bstr start additional p it,
  parse_str-Within tstr start additional p it,
  parse_nested-Within parse shrinks array start additional p it,
  parse_nested-Within parse shrinks map start additional p it,
  parse_simple-Within start additional p it,
)

pub Shrinks-cbor_parse_internal : (levels : ℕ) → Shrinks (cbor_parse_internal levels)
unfolding cbor_parse_internal
Shrinks-cbor_parse_internal zero p it e = cc
Shrinks-cbor_parse_internal (suc levels) [] it e = cc
Shrinks-cbor_parse_internal (suc levels) (header ∷ p) it e =
    let w =
      parse_major-Within (cbor_parse_internal levels) (Shrinks-cbor_parse_internal levels)
        (header ∷ p) _ _ p it e in
    omega (arith, w.next_in)

-- On any input, an item that `cbor_parse` returns starts at the input, takes at least one byte and
-- ends inside the input; its payload lies inside the input, and that of a string has as many bytes
-- as the item's argument says, with the next item directly behind it.
pub cbor_parse-Within :
    (buf : Bytes) (it : CborItem)
    → cbor_parse buf ≡ some it
    → (it.start ≡ buf)
      × (length it.next < length buf)
      × (length it.payload < length buf)
      × ((is_type it.type bstr || is_type it.type tstr) ≡ true
          → it.arg + length it.next ≡ length it.payload)
unfolding cbor_parse cbor_parse_internal
cbor_parse-Within [] it e = cc
cbor_parse-Within (header ∷ p) it e =
    let w =
      parse_major-Within (cbor_parse_internal 8) (Shrinks-cbor_parse_internal 8) (header ∷ p) _ _ p
        it e in
    (w.at_start, omega (arith, w.next_in), omega (arith, w.payload_in), w.string_in)
