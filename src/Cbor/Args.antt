-- ===== src/Cbor/Args.antt =====
-- The argument that the parser of cbor_decode.c returns fits a uint64_t, where the input holds bytes.
use waxwing.Common.{
  ℕ, zero, suc, ◌+◌, ◌*◌, ◌^◌, ◌≤◌, ◌<◌, ◌≡◌, ap, subst, arith, All, length, Option,
}
use waxwing.Common.{[], ◌∷◌, some, >>=-eq-some, Option-cases, inl, inr, true}
use waxwing.Common.Bytes.{Bytes, IsByte}
use waxwing.Cbor.Decode.{CborItem, CborType, uint, int, bstr, tstr, array, map, is_type, read_be}
use waxwing.Cbor.Decode.{
  decode_arg, parse_int, parse_str, parse_nested, parse_children, child_count,
}
use waxwing.Cbor.Decode.{
  parse_simple, parse_major, cbor_parse_internal, cbor_parse, skip_children, parse_pair,
}
use mathlib.Core.Option.{some-injective}
use waxwing.Cbor.Bounds.{cbor_parse-Within}
use waxwing.Cbor.Region.{cbor_parse-IsByte}
use native.Mathlib.Nat.{pow-suc}

-- `k` bytes shifted into a value below `m` give a value below `m * 256 ^ k`; here at `k` ≤ 8.
read_be-lt :
    (n v m : ℕ) (p : Bytes) (a : ℕ) (p' : Bytes)
    → All IsByte p
    → v < m
    → read_be n v p ≡ some (a, p')
    → a < m * 256 ^ n
unfolding read_be
read_be-lt zero v m p a p' h k e = ground arith
read_be-lt (suc n) v m [] a p' h k e = cc
read_be-lt (suc n) v m (b ∷ p) a p' h k e =
    let ih : a < (m * 256) * 256 ^ n =
      read_be-lt n (v * 256 + b) (m * 256) p a p' h.1 (omega arith) e in
    omega (arith, ih, ap (λ (t : ℕ). m * t) (pow-suc 256 n))

decode_arg-lt :
    (additional : ℕ) (p : Bytes) (a : ℕ) (p' : Bytes)
    → All IsByte p
    → decode_arg additional p ≡ some (a, p')
    → a < 2 ^ 64
unfolding decode_arg
decode_arg-lt additional p a p' h e = ground (
  arith,
  read_be-lt 1 0 1 p a p' h,
  read_be-lt 2 0 1 p a p' h,
  read_be-lt 4 0 1 p a p' h,
  read_be-lt 8 0 1 p a p' h,
)

abbrev Small : CborItem → Type 0
Small it = it.arg < 2 ^ 64

parse_int-arg :
    (t : CborType) (start : Bytes) (additional : ℕ) (p : Bytes) (it : CborItem)
    → All IsByte p
    → parse_int t start additional p ≡ some it
    → Small it
unfolding parse_int
parse_int-arg t start additional p it h e =
    let (x, e₁, e₂) = >>=-eq-some (decode_arg additional p) _ e in
    let k : x.0 < 2 ^ 64 = decode_arg-lt additional p x.0 x.1 h e₁ in ground arith

parse_str-arg :
    (t : CborType) (start : Bytes) (additional : ℕ) (p : Bytes) (it : CborItem)
    → All IsByte p
    → parse_str t start additional p ≡ some it
    → Small it
unfolding parse_str
parse_str-arg t start additional p it h e =
    let (x, e₁, e₂) = >>=-eq-some (decode_arg additional p) _ e in
    let k : x.0 < 2 ^ 64 = decode_arg-lt additional p x.0 x.1 h e₁ in ground arith

parse_children-arg :
    (parse : Bytes → Option CborItem) (t : CborType) (start : Bytes) (arg : ℕ) (p : Bytes)
    (it : CborItem)
    → parse_children parse t start arg p ≡ some it
    → it.arg ≡ arg
unfolding parse_children
parse_children-arg parse t start arg p it e =
    elim (Option-cases (skip_children parse (child_count t arg) p)) [
      | inl bad ↦ ground arith
      | inr (rest, good) ↦ ground arith
    ]

parse_nested-arg :
    (parse : Bytes → Option CborItem) (t : CborType) (start : Bytes) (additional : ℕ) (p : Bytes)
    (it : CborItem)
    → All IsByte p
    → parse_nested parse t start additional p ≡ some it
    → Small it
unfolding parse_nested
parse_nested-arg parse t start additional p it h e =
    let (x, e₁, e₂) = >>=-eq-some (decode_arg additional p) _ e in
    let k : x.0 < 2 ^ 64 = decode_arg-lt additional p x.0 x.1 h e₁ in
    omega (arith, parse_children-arg parse t start x.0 x.1 it e₂)

parse_simple-arg :
    (start : Bytes) (additional : ℕ) (p : Bytes) (it : CborItem)
    → All IsByte p
    → parse_simple start additional p ≡ some it
    → Small it
unfolding parse_simple
parse_simple-arg start additional [] it h e = ground arith
parse_simple-arg start additional (b ∷ p) it h e = ground (arith, h.0)

parse_major-arg :
    (parse : Bytes → Option CborItem) (start : Bytes) (major additional : ℕ) (p : Bytes)
    (it : CborItem)
    → All IsByte p
    → parse_major parse start major additional p ≡ some it
    → Small it
unfolding parse_major
parse_major-arg parse start major additional p it h e = ground (
  arith,
  parse_int-arg uint start additional p it h,
  parse_int-arg int start additional p it h,
  parse_str-arg bstr start additional p it h,
  parse_str-arg tstr start additional p it h,
  parse_nested-arg parse array start additional p it h,
  parse_nested-arg parse map start additional p it h,
  parse_simple-arg start additional p it h,
)

-- What a client may use of an item that was parsed from bytes.
pub record Good (it : CborItem) : Type 0 where
  pub arg_fits : it.arg < 2 ^ 64
  pub string_in : is_type it.type bstr ≡ true → it.arg ≤ length it.payload
  pub payload_bytes : All IsByte it.payload
  pub next_bytes : All IsByte it.next

pub cbor_parse-Good :
    (buf : Bytes) (it : CborItem) → All IsByte buf → cbor_parse buf ≡ some it → Good it
unfolding cbor_parse cbor_parse_internal
cbor_parse-Good [] it h e = cc
cbor_parse-Good (header ∷ p) it h e =
    let w = cbor_parse-Within (header ∷ p) it e in
    let k = cbor_parse-IsByte (header ∷ p) it h e in
    record {
      arg_fits = parse_major-arg (cbor_parse_internal 8) (header ∷ p) _ _ p it h.1 e;
      string_in = λ s. ground (arith, w.3);
      payload_bytes = k.0;
      next_bytes = k.1;
    }

pub parse_pair-Good :
    (p : Bytes) (k v : CborItem) → All IsByte p → parse_pair p ≡ some (k, v) → Good k × Good v
unfolding parse_pair
parse_pair-Good p k v h e =
    let (a, e₁, e₂) = >>=-eq-some (cbor_parse p) _ e in
    let (b, e₃, e₄) = >>=-eq-some (cbor_parse a.next) _ e₂ in
    let g = cbor_parse-Good p a h e₁ in
    subst (λ q. Good q.0 × Good q.1) (some-injective _ _ e₄)
      (g, cbor_parse-Good a.next b g.next_bytes e₃)
