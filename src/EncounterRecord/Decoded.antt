-- ===== src/EncounterRecord/Decoded.antt =====
-- Whatever bytes encounter_record_decode accepts, the record that it returns is well formed.
use waxwing.Common.{
  ℕ, zero, suc, ◌+◌, ◌^◌, ◌≤◌, ◌<◌, ◌≡◌, refl, arith, All, length, take, length-take,
}
use waxwing.Common.{List, Option, none, some, >>=-eq-some, Option-cases, inl, inr}
use waxwing.Common.{
  false, ◌==◌, Bool-cases, bit_or, ltb, not, ◌||◌, if-some, guard-some, bit_and, subst, ap, ◌%◌,
}
use mathlib.Core.Option.{some-injective}
use waxwing.Common.Int.{ℤ, IsInt32}
use waxwing.Common.Bytes.{Bytes, IsByte}
use waxwing.Cbor.Decode.{CborItem, cbor_parse, parse_pair, is_type, map, uint, int, bstr}
use waxwing.Cbor.Args.{Good, cbor_parse-Good, parse_pair-Good}
use waxwing.EncounterRecord.{
  EncounterRecord, zero_record, cbor_to_int32, bssid_loop, decode_bssids, negate, int32_max,
}
use waxwing.EncounterRecord.{decode_bstr_fixed, decode_uint, decode_int, store}
use waxwing.EncounterRecord.{decode_field, decode_pairs, encounter_record_decode, required}
use waxwing.EncounterRecord.Valid.{Fits, IsWellFormed, IsBssids}

pub decode_uint-lt : (v : CborItem) → Good v → (x : ℕ) → decode_uint v ≡ some x → x < 2 ^ 64
unfolding decode_uint
decode_uint-lt v g x e = ground (arith, g.arg_fits)

negate-IsInt32 : (n : ℕ) → n ≤ 2 ^ 31 → IsInt32 (negate n)
negate-IsInt32 zero h = omega arith
negate-IsInt32 (suc n) h = omega arith

pub cbor_to_int32-IsInt32 : (v : CborItem) → IsInt32 (cbor_to_int32 v)
unfolding cbor_to_int32
cbor_to_int32-IsInt32 v = elim (Bool-cases (is_type v.type uint)) [
  | inl u ↦ elim (Bool-cases (ltb int32_max v.arg)) [
    | inl b ↦ rw (u, b) (omega arith)
    | inr b ↦ rw (u, b) (ground arith)
  ]
  | inr u ↦ elim (Bool-cases (ltb (int32_max + 1) ((v.arg + 1) % 2 ^ 64))) [
    | inl b ↦ rw (u, b) (omega arith)
    | inr b ↦ rw (u, b) (negate-IsInt32 _ (ground arith))
  ]
]

decode_int-IsInt32 : (v : CborItem) (x : ℤ) → decode_int v ≡ some x → IsInt32 x
unfolding decode_int
decode_int-IsInt32 v x e =
    if-some (is_type v.type uint || is_type v.type int)
      (λ t k. subst IsInt32 (some-injective _ _ k) (cbor_to_int32-IsInt32 v)) (λ t k. cc) e

pub length-decode_bstr_fixed :
    (v : CborItem) (n : ℕ) → Good v → (x : Bytes) → decode_bstr_fixed v n ≡ some x → length x ≡ n
unfolding decode_bstr_fixed
length-decode_bstr_fixed v n g x e = ground (arith, g.string_in, length-take n v.payload)

abbrev Addresses : ℕ → List Bytes → Type 0
Addresses n ss = (length ss ≡ n) × All (λ b. length b ≡ 6) ss

length-element :
    (item : CborItem)
    → Good item
    → (not (is_type item.type bstr) || not (item.arg == 6)) ≡ false
    → length (take 6 item.payload) ≡ 6
length-element item g t = ground (arith, g.string_in, length-take 6 item.payload)

bssid_loop-Addresses :
    (n : ℕ) (p : Bytes) (x : List Bytes) → All IsByte p → bssid_loop n p ≡ some x → Addresses n x
unfolding bssid_loop
bssid_loop-Addresses zero p x h e = subst (Addresses 0) (some-injective _ _ e) (refl, tt)
bssid_loop-Addresses (suc n) p x h e = elim (Option-cases (cbor_parse p)) [
  | inl bad ↦ cc (rw (bad, bssid_loop) at e)
  | inr (item, parsed) ↦
      let g = cbor_parse-Good p item h parsed in
      if-some (not (is_type item.type bstr) || not (item.arg == 6)) (λ t k. cc)
        (λ t k.
          let (ss, e₁, e₂) = >>=-eq-some (bssid_loop n item.next) _ k in
          let ih = bssid_loop-Addresses n item.next ss g.next_bytes e₁ in
          subst (Addresses (suc n)) (some-injective _ _ e₂)
            (ap suc ih.0, (length-element item g t, ih.1)))
        (rw (parsed, bssid_loop) at e)
]

decode_bssids-IsBssids :
    (v : CborItem) (x : List Bytes) → Good v → decode_bssids v ≡ some x → IsBssids x
unfolding decode_bssids
decode_bssids-IsBssids v x g e =
    ground (arith, bssid_loop-Addresses v.arg v.payload x g.payload_bytes)

zero-Fits : Fits zero_record
zero-Fits = omega arith

store-Fits :
    {A : Type 0} {m : Option A} {write : A → EncounterRecord} {out' : EncounterRecord}
    → ((x : A) → m ≡ some x → Fits (write x))
    → store m write ≡ some out'
    → Fits out'
unfolding store
store-Fits {m = none} k e = cc
store-Fits {m = some x} k e = subst Fits (some-injective _ _ e) (k x refl)

decode_field-Fits :
    (key : ℕ) (v : CborItem) (out out' : EncounterRecord)
    → Good v
    → Fits out
    → decode_field key v out ≡ some out'
    → Fits out'
unfolding decode_field
decode_field-Fits key v out out' g f =
    if-some (key == 1) (λ _. store-Fits (λ x m. ground arith))
      (λ _.
        if-some (key == 2)
          (λ _. store-Fits (λ x m. ground (arith, length-decode_bstr_fixed v 32 g x m)))
          (λ _.
            if-some (key == 3)
              (λ _. store-Fits (λ x m. ground (arith, length-decode_bstr_fixed v 32 g x m)))
              (λ _.
                if-some (key == 4) (λ _. store-Fits (λ x m. ground (arith, decode_uint-lt v g x m)))
                  (λ _.
                    if-some (key == 5)
                      (λ _. store-Fits (λ x m. ground (arith, decode_uint-lt v g x m)))
                      (λ _.
                        if-some (key == 6)
                          (λ _. store-Fits (λ x m. ground (arith, decode_int-IsInt32 v x m)))
                          (λ _.
                            if-some (key == 7)
                              (λ _. store-Fits (λ x m. ground (arith, decode_int-IsInt32 v x m)))
                              (λ _.
                                if-some (key == 8)
                                  (λ _.
                                    store-Fits
                                      (λ x m. ground (arith, decode_bssids-IsBssids v x g m)))
                                  (λ _.
                                    if-some (key == 9)
                                      (λ _.
                                        store-Fits
                                          (λ x m. ground (arith, decode_bssids-IsBssids v x g m)))
                                      (λ _.
                                        if-some (key == 10)
                                          (λ _. store-Fits (λ x m.
                                            ground (arith, length-decode_bstr_fixed v 16 g x m)))
                                          (λ _.
                                            if-some (key == 11)
                                              (λ _. store-Fits (λ x m.
                                                ground
                                                  (arith, length-decode_bstr_fixed v 16 g x m)))
                                              (λ _.
                                                if-some (key == 12)
                                                  (λ _.
                                                    store-Fits (λ x m.
                                                      ground (arith, decode_uint-lt v g x m)))
                                                  (λ _.
                                                    if-some (key == 13)
                                                      (λ _. store-Fits (λ x m.
                                                        ground (arith, decode_uint-lt v g x m)))
                                                      (λ _.
                                                        if-some (key == 14)
                                                          (λ _. store-Fits (λ x m.
                                                            ground (arith, decode_uint-lt v g x m)))
                                                          (λ _.
                                                            if-some (key == 15)
                                                            (λ _. store-Fits (λ x m.
                                                            ground (arith, decode_uint-lt v g x m)))
                                                            (λ _.
                                                            if-some (key == 16)
                                                            (λ _. store-Fits (λ x m.
                                                            ground (arith, decode_uint-lt v g x m)))
                                                            (λ _.
                                                            if-some (key == 17)
                                                            (λ _. store-Fits (λ x m.
                                                            ground (arith, decode_uint-lt v g x m)))
                                                            (λ _.
                                                            if-some (key == 18)
                                                            (λ _. store-Fits (λ x m. ground (
                                                            arith,
                                                            length-decode_bstr_fixed v 64 g x m,
                                                            )))
                                                            (λ _.
                                                            if-some (key == 19)
                                                            (λ _. store-Fits (λ x m. ground (
                                                            arith,
                                                            length-decode_bstr_fixed v 64 g x m,
                                                            )))
                                                            (λ _. (λ e.
                                                            subst Fits (some-injective _ _ e)
                                                            f))))))))))))))))))))

decode_pairs-Fits :
    (n : ℕ) (p : Bytes) (out : EncounterRecord) (seen : ℕ) (res : EncounterRecord × ℕ)
    → All IsByte p
    → Fits out
    → decode_pairs n p out seen ≡ some res
    → Fits res.0
unfolding decode_pairs
decode_pairs-Fits zero p out seen res h f e = subst (λ r. Fits r.0) (some-injective _ _ e) f
decode_pairs-Fits (suc n) p out seen res h f e = elim (Option-cases (parse_pair p)) [
  | inl bad ↦ cc (rw (bad, decode_pairs) at e)
  | inr ((k, v), parsed) ↦
      let (gk, gv) = parse_pair-Good p k v h parsed in
      if-some (not (is_type k.type uint) || (k.arg == 0) || ltb 31 k.arg)
        (λ _. decode_pairs-Fits n v.next out seen res gv.next_bytes f)
        (λ _ m. elim (Option-cases (decode_field k.arg v out)) [
          | inl bad ↦ cc (rw bad at m)
          | inr (out', good) ↦
              decode_pairs-Fits n v.next out' (bit_or seen (2 ^ k.arg)) res gv.next_bytes
                (decode_field-Fits k.arg v out out' gv f good) (rw good at m)
        ])
        (rw (parsed, decode_pairs) at e)
]

-- Whatever bytes the decoder accepts, the record has version 1, keys, nonces and signatures of the
-- full length, at most eight addresses a side, each of six bytes, and integers in range.
pub decode-IsWellFormed :
    (cbor : Bytes) (rec : EncounterRecord)
    → All IsByte cbor
    → encounter_record_decode cbor ≡ some rec
    → IsWellFormed rec
unfolding encounter_record_decode
decode-IsWellFormed cbor rec h e =
    let (root, e₁, e₂) = >>=-eq-some (cbor_parse cbor) _ e in
    let (t, e₃) = guard-some (is_type root.type map) e₂ in
    let (res, e₄, e₅) = >>=-eq-some (decode_pairs root.arg root.payload zero_record 0) _ e₃ in
    let (all, e₆) = guard-some (bit_and res.1 required == required) e₅ in
    let (version, e₇) = guard-some (res.0.version == 1) e₆ in
    let g = cbor_parse-Good cbor root h e₁ in
    let f =
      decode_pairs-Fits root.arg root.payload zero_record 0 res g.payload_bytes zero-Fits e₄ in
    subst IsWellFormed (some-injective _ _ e₇) (record { version = ground arith; fits = f })
