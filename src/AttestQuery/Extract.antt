-- ===== src/AttestQuery/Extract.antt =====
-- What attest_query.c extracts from an attestation, as the encoders of cborencode.c write one.
use waxwing.Common.{
  ℕ, zero, suc, ◌^◌, ◌<◌, ◌≡◌, ◌≢◌, refl, ap, sym, subst, arith, List, [], ◌∷◌, ◌++◌, append_assoc,
}
use waxwing.Common.{false, ◌==◌, ne→==_false, some, length, take, All, take-append, length-append}
use waxwing.Common.{Bool-cases, inl, inr, ◌↔◌, true}
use waxwing.Common.Bytes.{Bytes, bytes_eq, bytes_eq-true, bytes_eq_refl}
use mathlib.Core.List.{Memᴰ}
use mathlib.Core.List.Memᴰ
use waxwing.Cbor.Encode.{put_strs, cborencode_byte_str, cborencode_map_header, encode_header}
use waxwing.Cbor.Fields.{
  Field, strs_value, str_value, map_bytes, put_fields, cbor_parse-map_bytes, cbor_parse-value,
  parse_pair-field,
}
use waxwing.AttestQuery.{
  extract_items, extract_loop, attest_extract_bssids, attest_match_any_bssid, any_queried,
  query_has,
}

extract_items-put_strs :
    (ss : List Bytes) (rest : Bytes) (room : ℕ)
    → All (λ s. length s ≡ 6) ss
    → extract_items (length ss) (put_strs ss ++ rest) room ≡ some (take room ss)
unfolding extract_items put_strs
extract_items-put_strs [] rest zero h = refl
extract_items-put_strs [] rest (suc room) h = refl
extract_items-put_strs (s ∷ ss) rest zero (hs, h) =
    rw
      (
        append_assoc (cborencode_byte_str s) (put_strs ss) rest,
        extract_items,
        cbor_parse-value (str_value s (omega arith)) (put_strs ss ++ rest),
        hs,
      )
      refl
extract_items-put_strs (s ∷ ss) rest (suc room) (hs, h) =
    rw
      (
        append_assoc (cborencode_byte_str s) (put_strs ss) rest,
        extract_items,
        cbor_parse-value (str_value s (omega arith)) (put_strs ss ++ rest),
        hs,
        extract_items-put_strs ss rest room h,
      )
      (ap (λ t. some (t ∷ take room ss))
        (subst (λ n. take n (s ++ (put_strs ss ++ rest)) ≡ s) hs
          (take-append s (put_strs ss ++ rest))))

map_header_positive : (n : ℕ) → 0 < length (cborencode_map_header n)
unfolding cborencode_map_header encode_header
map_header_positive n = ground arith

-- The field that holds the access points.
abbrev pub bssids_field :
    (ss : List Bytes) → length ss < 2 ^ 32 → All (λ s. length s ≡ 6) ss → Field
bssids_field ss h all = record { key = 4; key_small = omega arith; value = strs_value ss h all }

module _ (ss : List Bytes) (h : length ss < 2 ^ 32) (all : All (λ s. length s ≡ 6) ss)
    (gs : List Field) (rest : Bytes) (max : ℕ) where
  extract_loop-fields :
      (fs : List Field)
      → All (λ f. f.key ≢ 4) fs
      → extract_loop
          (length (fs ++ (bssids_field ss h all ∷ gs)))
          (put_fields (fs ++ (bssids_field ss h all ∷ gs)) ++ rest)
          max
        ≡ some (take max ss)
  unfolding extract_loop
  extract_loop-fields [] other =
      rw (extract_loop, parse_pair-field (bssids_field ss h all) gs rest)
        (extract_items-put_strs ss (put_fields gs ++ rest) max all)
  extract_loop-fields (f ∷ fs) (ne, other) =
      rw
        (
          extract_loop,
          parse_pair-field f (fs ++ (bssids_field ss h all ∷ gs)) rest,
          ne→==_false f.key 4 ne,
          f.value.next_lem (put_fields (fs ++ (bssids_field ss h all ∷ gs)) ++ rest),
        )
        (extract_loop-fields fs other)

  length-map_bytes : (fs : List Field) → (length (map_bytes fs ++ rest) == 0) ≡ false
  length-map_bytes fs = ne→==_false (length (map_bytes fs ++ rest)) 0 (
      omega (
        arith,
        map_header_positive (length fs),
        length-append (cborencode_map_header (length fs)) (put_fields fs),
        length-append (map_bytes fs) rest,
      ))

  -- If the blob is an encoded map in which the field of key 4 is a list of addresses of 6 bytes, whatever fields of other keys come first and whatever follows, and the caller's array has room for at least one, the addresses that are extracted are the first ones of the list, as many as there is room for.
  pub attest_extract_bssids-map_bytes :
      (fs : List Field)
      → All (λ f. f.key ≢ 4) fs
      → length (fs ++ (bssids_field ss h all ∷ gs)) < 2 ^ 32
      → 0 < max
      → attest_extract_bssids (map_bytes (fs ++ (bssids_field ss h all ∷ gs)) ++ rest) max
        ≡ some (take max ss)
  unfolding attest_extract_bssids
  attest_extract_bssids-map_bytes fs other few room =
      rw
        (
          attest_extract_bssids,
          length-map_bytes (fs ++ (bssids_field ss h all ∷ gs)),
          ne→==_false max 0 (omega arith),
          cbor_parse-map_bytes (fs ++ (bssids_field ss h all ∷ gs)) rest few,
        )
        (extract_loop-fields fs other)

query_has-Memᴰ : (query : List Bytes) (b : Bytes) → (query_has query b ≡ true) ↔ Memᴰ b query
unfolding query_has
query_has-Memᴰ [] b = (λ e. cc, λ m. absurd (Memᴰ.not-nil m))
query_has-Memᴰ (q ∷ qs) b = elim (Bool-cases (bytes_eq b q)) [
  | inl e ↦ (λ h. Memᴰ.head (bytes_eq-true b q e), λ m. rw e refl)
  | inr e ↦ (
    λ h. Memᴰ.tail ((query_has-Memᴰ qs b).0 (rw e at h)),
    λ m. elim (Memᴰ.cases_cons m) [
      | inl same ↦ cc (rw same at e, bytes_eq_refl q)
      | inr more ↦ rw e ((query_has-Memᴰ qs b).1 more)
    ],
  )
]

-- An address of the one list that is in the other.
abbrev pub Shared : List Bytes → List Bytes → Type 0
Shared bs query = (b : Bytes) × Memᴰ b bs × Memᴰ b query

pub any_queried-Shared : (query bs : List Bytes) → (any_queried query bs ≡ true) ↔ Shared bs query
unfolding any_queried
any_queried-Shared query [] = (λ e. cc, λ (b, m, k). absurd (Memᴰ.not-nil m))
any_queried-Shared query (b ∷ bs) = elim (Bool-cases (query_has query b)) [
  | inl e ↦ (λ h. (b, Memᴰ.head refl, (query_has-Memᴰ query b).0 e), λ m. rw e refl)
  | inr e ↦ (
    λ h. let (x, m, k) = (any_queried-Shared query bs).0 (rw e at h) in (x, Memᴰ.tail m, k),
    λ (x, m, k). elim (Memᴰ.cases_cons m) [
      | inl same ↦ cc (e, (query_has-Memᴰ query b).1 (subst (λ y. Memᴰ y query) same k))
      | inr more ↦ rw e ((any_queried-Shared query bs).1 (x, more, k))
    ],
  )
]

any_queried_nil : (bs : List Bytes) → any_queried [] bs ≡ false
unfolding any_queried query_has
any_queried_nil [] = refl
any_queried_nil (b ∷ bs) = any_queried_nil bs

match-map_bytes :
    (ss : List Bytes) (h : length ss < 2 ^ 32) (all : All (λ s. length s ≡ 6) ss)
    (fs gs : List Field) (rest : Bytes) (query : List Bytes)
    → All (λ f. f.key ≢ 4) fs
    → length (fs ++ (bssids_field ss h all ∷ gs)) < 2 ^ 32
    → attest_match_any_bssid (map_bytes (fs ++ (bssids_field ss h all ∷ gs)) ++ rest) query
      ≡ any_queried query (take 8 ss)
unfolding attest_match_any_bssid
match-map_bytes ss h all fs gs rest [] other few = sym (any_queried_nil (take 8 ss))
match-map_bytes ss h all fs gs rest (q ∷ qs) other few =
    rw
      (
        attest_match_any_bssid,
        ne→==_false (suc (length qs)) 0 (omega arith),
        attest_extract_bssids-map_bytes ss h all gs rest 8 fs other few (omega arith),
      )
      refl

-- For an encoded attestation whose field of key 4 is a list of addresses of 6 bytes, whatever fields of
-- other keys come first and whatever follows, the match test succeeds exactly if one of the first 8
-- addresses of its list is among the queried ones. An address behind the first 8 is not looked at.
pub attest_match_any_bssid-map_bytes :
    (ss : List Bytes) (h : length ss < 2 ^ 32) (all : All (λ s. length s ≡ 6) ss)
    (fs gs : List Field) (rest : Bytes) (query : List Bytes)
    → All (λ f. f.key ≢ 4) fs
    → length (fs ++ (bssids_field ss h all ∷ gs)) < 2 ^ 32
    → (attest_match_any_bssid (map_bytes (fs ++ (bssids_field ss h all ∷ gs)) ++ rest) query ≡ true)
      ↔ Shared (take 8 ss) query
attest_match_any_bssid-map_bytes ss h all fs gs rest query other few =
    rw (match-map_bytes ss h all fs gs rest query other few) (any_queried-Shared query (take 8 ss))
