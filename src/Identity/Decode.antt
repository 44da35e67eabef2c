-- ===== src/Identity/Decode.antt =====
-- Decoders of the strings of identity.c, and that they give the key back.
use waxwing.Common.{
  ℕ, zero, suc, ◌+◌, ◌*◌, ◌/◌, ◌%◌, ◌<◌, ◌≡◌, refl, ap, ap₂, ◌∙◌, ◌-◌, leb, arith, [], ◌∷◌, Bool,
  true, ◌&&◌, ◌==◌, if◌then◌else◌,
}
use waxwing.Common.{All, All-take, take, Bool-cases, inl, inr}
use waxwing.Common.Bytes.{Bytes, IsByte}
use waxwing.Identity.Names.{
  hex_char, waxwing_identity_bytes_to_hex, letter, joined, waxwing_identity_tpk_to_base64url,
  populate_derived_fields,
}
use waxwing.Identity.{Identity}

unfoldable holds_below : ℕ → (ℕ → Bool) → Bool
holds_below zero test = true
holds_below (suc n) test = test n && holds_below n test

holds_below_lem :
    (n : ℕ) (test : ℕ → Bool) → holds_below n test ≡ true → (k : ℕ) → k < n → test k ≡ true
unfolding holds_below
holds_below_lem zero test h k lt = absurd (omega arith)
holds_below_lem (suc n) test h k lt = elim (Bool-cases (k == n)) [
  | inl e ↦ ground arith
  | inr e ↦ holds_below_lem n test (ground arith) k (ground arith)
]

-- The value of a digit: 0 to 9, then a to f; 16 for another character.
abbrev pub digit : ℕ → ℕ
digit ch =
    if leb 48 ch && leb ch 57 then ch - 48 else if leb 97 ch && leb ch 102 then ch - 87 else 16

-- The value of a letter in table 2 of RFC 4648: A to Z, a to z, 0 to 9, the hyphen, the underscore; 64
-- for another character.
abbrev pub sextet : ℕ → ℕ
sextet ch =
    if leb 65 ch && leb ch 90
    then ch - 65
    else if leb 97 ch && leb ch 122
    then ch - 71
    else if leb 48 ch && leb ch 57
    then ch + 4
    else if ch == 45
    then 62
    else if ch == 95
    then 63
    else 64

digit_ok : holds_below 16 (λ n. digit (hex_char n) == n) ≡ true
unfolding holds_below
digit_ok = refl

sextet_ok : holds_below 64 (λ n. sextet (letter n) == n) ≡ true
unfolding holds_below
sextet_ok = refl

digit-hex_char : (n : ℕ) → n < 16 → digit (hex_char n) ≡ n
digit-hex_char n lt =
    let h : (digit (hex_char n) == n) ≡ true =
      holds_below_lem 16 (λ k. digit (hex_char k) == k) digit_ok n lt in
    ground (arith, h)

sextet-letter : (n : ℕ) → n < 64 → sextet (letter n) ≡ n
sextet-letter n lt =
    let h : (sextet (letter n) == n) ≡ true =
      holds_below_lem 64 (λ k. sextet (letter k) == k) sextet_ok n lt in
    ground (arith, h)

-- Two digits for each byte.
unfoldable pub hex_decode : Bytes → Bytes
hex_decode [] = []
hex_decode (hi ∷ []) = []
hex_decode (hi ∷ lo ∷ s) = (digit hi * 16 + digit lo) ∷ hex_decode s

-- RFC 4648, section 5, without padding.
unfoldable pub base64url_decode : Bytes → Bytes
base64url_decode [] = []
base64url_decode (w ∷ []) = []
base64url_decode (w ∷ x ∷ []) = (sextet w * 4 + sextet x / 16) ∷ []
base64url_decode (w ∷ x ∷ y ∷ []) =
    (sextet w * 4 + sextet x / 16) ∷ (sextet x % 16 * 16 + sextet y / 4) ∷ []
base64url_decode (w ∷ x ∷ y ∷ z ∷ s) =
    (sextet w * 4 + sextet x / 16)
    ∷ (sextet x % 16 * 16 + sextet y / 4)
    ∷ (sextet y % 4 * 64 + sextet z)
    ∷ base64url_decode s

decode-bytes_to_hex :
    (bytes : Bytes) → All IsByte bytes → hex_decode (waxwing_identity_bytes_to_hex bytes) ≡ bytes
unfolding hex_decode waxwing_identity_bytes_to_hex
decode-bytes_to_hex [] ok = refl
decode-bytes_to_hex (b ∷ bytes) (lt, ok) =
    let hi : digit (hex_char (b / 16 % 16)) ≡ b / 16 % 16 =
      digit-hex_char (b / 16 % 16) (omega arith) in
    let lo : digit (hex_char (b % 16)) ≡ b % 16 = digit-hex_char (b % 16) (omega arith) in
    ap₂ (λ x xs. x ∷ xs) (omega (arith, hi, lo)) (decode-bytes_to_hex bytes ok)

-- The four letters of three bytes.
module _ (a b c : ℕ) (lt_a : a < 256) (lt_b : b < 256) (lt_c : c < 256) where
  first_sextet : sextet (letter (joined a b c / 262144 % 64)) ≡ a / 4
  first_sextet = sextet-letter (joined a b c / 262144 % 64) (omega arith) ∙ omega arith

  second_sextet : sextet (letter (joined a b c / 4096 % 64)) ≡ a % 4 * 16 + b / 16
  second_sextet = sextet-letter (joined a b c / 4096 % 64) (omega arith) ∙ omega arith

  third_sextet : sextet (letter (joined a b c / 64 % 64)) ≡ b % 16 * 4 + c / 64
  third_sextet = sextet-letter (joined a b c / 64 % 64) (omega arith) ∙ omega arith

  fourth_sextet : sextet (letter (joined a b c % 64)) ≡ c % 64
  fourth_sextet = sextet-letter (joined a b c % 64) (omega arith) ∙ omega arith

decode-tpk_to_base64url :
    (bytes : Bytes)
    → All IsByte bytes
    → base64url_decode (waxwing_identity_tpk_to_base64url bytes) ≡ bytes
unfolding base64url_decode waxwing_identity_tpk_to_base64url
decode-tpk_to_base64url [] ok = refl
decode-tpk_to_base64url (a ∷ []) (lt_a, ok) =
    ap (λ x. x ∷ [])
      (omega (
        arith,
        first_sextet a 0 0 lt_a (omega arith) (omega arith),
        second_sextet a 0 0 lt_a (omega arith) (omega arith),
      ))
decode-tpk_to_base64url (a ∷ b ∷ []) (lt_a, (lt_b, ok)) =
    ap₂ (λ x y. x ∷ y ∷ [])
      (omega (
        arith,
        first_sextet a b 0 lt_a lt_b (omega arith),
        second_sextet a b 0 lt_a lt_b (omega arith),
      ))
      (omega (
        arith,
        second_sextet a b 0 lt_a lt_b (omega arith),
        third_sextet a b 0 lt_a lt_b (omega arith),
      ))
decode-tpk_to_base64url (a ∷ b ∷ c ∷ rest) (lt_a, (lt_b, (lt_c, ok))) =
    ap₂ (λ x xs. x ∷ xs)
      (omega (arith, first_sextet a b c lt_a lt_b lt_c, second_sextet a b c lt_a lt_b lt_c))
      (ap₂ (λ x xs. x ∷ xs)
        (omega (arith, second_sextet a b c lt_a lt_b lt_c, third_sextet a b c lt_a lt_b lt_c))
        (ap₂ (λ x xs. x ∷ xs)
          (omega (arith, third_sextet a b c lt_a lt_b lt_c, fourth_sextet a b c lt_a lt_b lt_c))
          (decode-tpk_to_base64url rest ok)))

twice : ℕ → ℕ
twice zero = zero
twice (suc n) = suc (suc (twice n))

take-bytes_to_hex :
    (n : ℕ) (bytes : Bytes)
    → take (twice n) (waxwing_identity_bytes_to_hex bytes)
      ≡ waxwing_identity_bytes_to_hex (take n bytes)
unfolding twice waxwing_identity_bytes_to_hex
take-bytes_to_hex zero bytes = refl
take-bytes_to_hex (suc n) [] = refl
take-bytes_to_hex (suc n) (b ∷ bytes) =
    ap (λ s. hex_char (b / 16 % 16) ∷ hex_char (b % 16) ∷ s) (take-bytes_to_hex n bytes)

-- The strings of an identity decode to its public key, and the fingerprint to the first four bytes
-- of the key.
pub decode-populate_derived_fields :
    (identity : Identity)
    → All IsByte identity.pub_key
    → (hex_decode (populate_derived_fields identity).tpk_hex ≡ identity.pub_key)
      × ((hex_decode (populate_derived_fields identity).fingerprint ≡ take 4 identity.pub_key)
          × (base64url_decode (waxwing_identity_tpk_to_base64url identity.pub_key)
              ≡ identity.pub_key))
unfolding populate_derived_fields twice
decode-populate_derived_fields identity ok = (
  decode-bytes_to_hex identity.pub_key ok,
  (
    ap hex_decode (take-bytes_to_hex 4 identity.pub_key)
        ∙ decode-bytes_to_hex (take 4 identity.pub_key) (All-take IsByte 4 identity.pub_key ok),
    decode-tpk_to_base64url identity.pub_key ok,
  ),
)
