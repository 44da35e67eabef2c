-- ===== src/Cbor/Region.antt =====
-- A property of buffers that passes from a buffer to its tail passes from the parser's input to
-- every pointer that the parser of cbor_decode.c returns; and what a string announces is there.
use waxwing.Common.{length, true, ◌||◌, ℕ, zero, suc, ◌+◌, ◌*◌, ◌≡◌, arith}
use waxwing.Common.{[], ◌∷◌, Option, some, drop, >>=-eq-some, Option-cases, inl, inr, All}
use waxwing.Common.Bytes.{Bytes, IsByte}
use waxwing.Cbor.Decode.{CborItem, CborType, uint, int, bstr, tstr, array, map}
use waxwing.Cbor.Decode.{read_be, decode_arg, skip_children, parse_int, parse_str, parse_nested}
use waxwing.Cbor.Decode.{child_count, parse_children}
use waxwing.Cbor.Decode.{parse_simple, parse_major, cbor_parse_internal, cbor_parse, is_type}
use waxwing.Cbor.Bounds.{cbor_parse-Within}

module _ (P : Bytes → Type 0) (tail : (b : ℕ) (p : Bytes) → P (b ∷ p) → P p) where
  drop-closed : (n : ℕ) (p : Bytes) → P p → P (drop n p)
  drop-closed zero p h = h
  drop-closed (suc n) [] h = h
  drop-closed (suc n) (b ∷ p) h = drop-closed n p (tail b p h)

  read_be-closed :
      (n v : ℕ) (p : Bytes) (a : ℕ) (p' : Bytes) → P p → read_be n v p ≡ some (a, p') → P p'
  unfolding read_be
  read_be-closed zero v p a p' h e = ground arith
  read_be-closed (suc n) v [] a p' h e = cc
  read_be-closed (suc n) v (b ∷ p) a p' h e = read_be-closed n (v * 256 + b) p a p' (tail b p h) e

  decode_arg-closed :
      (additional : ℕ) (p : Bytes) (a : ℕ) (p' : Bytes)
      → P p
      → decode_arg additional p ≡ some (a, p')
      → P p'
  unfolding decode_arg
  decode_arg-closed additional p a p' h e = ground (
    arith,
    read_be-closed 1 0 p a p' h,
    read_be-closed 2 0 p a p' h,
    read_be-closed 4 0 p a p' h,
    read_be-closed 8 0 p a p' h,
  )

  -- Both pointers of an item have the property.
  abbrev Holds : CborItem → Type 0
  Holds it = P it.payload × P it.next

  skip_children-closed :
      (parse : Bytes → Option CborItem)
      (keeps : (p : Bytes) (it : CborItem) → P p → parse p ≡ some it → Holds it) (n : ℕ)
      (p rest : Bytes)
      → P p
      → skip_children parse n p ≡ some rest
      → P rest
  unfolding skip_children
  skip_children-closed parse keeps zero p rest h e = ground arith
  skip_children-closed parse keeps (suc n) p rest h e = elim (Option-cases (parse p)) [
    | inl bad ↦ cc (rw (bad, skip_children) at e)
    | inr (child, good) ↦
        skip_children-closed parse keeps n child.next rest (keeps p child h good).1
          (rw (good, skip_children) at e)
  ]

  module _ (nil : P []) where
    parse_int-closed :
        (t : CborType) (start : Bytes) (additional : ℕ) (p : Bytes) (it : CborItem)
        → P p
        → parse_int t start additional p ≡ some it
        → Holds it
    unfolding parse_int
    parse_int-closed t start additional p it h e =
        let (x, e₁, e₂) = >>=-eq-some (decode_arg additional p) _ e in
        let k : P x.1 = decode_arg-closed additional p x.0 x.1 h e₁ in (ground arith, ground arith)

    parse_str-closed :
        (t : CborType) (start : Bytes) (additional : ℕ) (p : Bytes) (it : CborItem)
        → P p
        → parse_str t start additional p ≡ some it
        → Holds it
    unfolding parse_str
    parse_str-closed t start additional p it h e =
        let (x, e₁, e₂) = >>=-eq-some (decode_arg additional p) _ e in
        let k : P x.1 = decode_arg-closed additional p x.0 x.1 h e₁ in
        let k' : P (drop x.0 x.1) = drop-closed x.0 x.1 k in (ground arith, ground arith)

    parse_simple-closed :
        (start : Bytes) (additional : ℕ) (p : Bytes) (it : CborItem)
        → P p
        → parse_simple start additional p ≡ some it
        → Holds it
    unfolding parse_simple
    parse_simple-closed start additional [] it h e = ground (arith, nil)
    parse_simple-closed start additional (b ∷ p) it h e = ground (
      arith,
      nil,
      tail b p h,
      drop-closed 2 (b ∷ p) h,
      drop-closed 4 (b ∷ p) h,
      drop-closed 8 (b ∷ p) h,
    )

    parse_children-closed :
        (parse : Bytes → Option CborItem)
        (keeps : (p : Bytes) (it : CborItem) → P p → parse p ≡ some it → Holds it) (t : CborType)
        (start : Bytes) (arg : ℕ) (p : Bytes) (it : CborItem)
        → P p
        → parse_children parse t start arg p ≡ some it
        → Holds it
    unfolding parse_children
    parse_children-closed parse keeps t start arg p it h e =
        elim (Option-cases (skip_children parse (child_count t arg) p)) [
          | inl bad ↦ ground arith
          | inr (rest, good) ↦
              ground (arith, skip_children-closed parse keeps (child_count t arg) p rest h good)
        ]

    parse_nested-closed :
        (parse : Bytes → Option CborItem)
        (keeps : (p : Bytes) (it : CborItem) → P p → parse p ≡ some it → Holds it) (t : CborType)
        (start : Bytes) (additional : ℕ) (p : Bytes) (it : CborItem)
        → P p
        → parse_nested parse t start additional p ≡ some it
        → Holds it
    unfolding parse_nested
    parse_nested-closed parse keeps t start additional p it h e =
        let (x, e₁, e₂) = >>=-eq-some (decode_arg additional p) _ e in
        parse_children-closed parse keeps t start x.0 x.1 it
          (decode_arg-closed additional p x.0 x.1 h e₁) e₂

    parse_major-closed :
        (parse : Bytes → Option CborItem)
        (keeps : (p : Bytes) (it : CborItem) → P p → parse p ≡ some it → Holds it) (start : Bytes)
        (major additional : ℕ) (p : Bytes) (it : CborItem)
        → P p
        → parse_major parse start major additional p ≡ some it
        → Holds it
    unfolding parse_major
    parse_major-closed parse keeps start major additional p it h e = ground (
      arith,
      parse_int-closed uint start additional p it h,
      parse_int-closed int start additional p it h,
      parse_str-closed bstr start additional p it h,
      parse_str-closed tstr start additional p it h,
      parse_nested-closed parse keeps array start additional p it h,
      parse_nested-closed parse keeps map start additional p it h,
      parse_simple-closed start additional p it h,
    )

    cbor_parse_internal-closed :
        (levels : ℕ) (p : Bytes) (it : CborItem)
        → P p
        → cbor_parse_internal levels p ≡ some it
        → Holds it
    unfolding cbor_parse_internal
    cbor_parse_internal-closed zero p it h e = cc
    cbor_parse_internal-closed (suc levels) [] it h e = cc
    cbor_parse_internal-closed (suc levels) (header ∷ p) it h e =
        parse_major-closed (cbor_parse_internal levels) (cbor_parse_internal-closed levels)
          (header ∷ p) _ _ p it (tail header p h) e

-- Where the input holds bytes, both pointers of an item point to bytes.
pub cbor_parse-IsByte :
    (buf : Bytes) (it : CborItem)
    → All IsByte buf
    → cbor_parse buf ≡ some it
    → All IsByte it.payload × All IsByte it.next
unfolding cbor_parse
cbor_parse-IsByte buf it h e =
    cbor_parse_internal-closed (All IsByte) (λ b p k. k.1) tt 9 buf it h e

-- For a byte or text string that `cbor_parse` returns, the bytes that its argument announces are there:
-- from `data` on there are exactly these, and the next item directly behind them.
pub cbor_parse-string :
    (buf : Bytes) (it : CborItem)
    → cbor_parse buf ≡ some it
    → (is_type it.type bstr || is_type it.type tstr) ≡ true
    → it.arg + length it.next ≡ length it.payload
cbor_parse-string buf it e t = let (_, _, _, str) = cbor_parse-Within buf it e in str t
